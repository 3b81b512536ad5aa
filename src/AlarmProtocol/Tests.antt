-- ===== src/AlarmProtocol/Tests.antt =====
-- Runs of the envelope's functions, and its theorems at concrete inputs.
use cpp_tlfss.Base.{◌++◌, none, some, ℕ, ◌≡◌, refl, true, List, [], ◌∷◌, arith, length, replicate}
use cpp_tlfss.AlarmProtocol.Types.{
  bytes, alarm, ack, AlarmFrame, success, invalid_payload_length, type_code, type_of_code,
  encode_success, size_success,
}
use cpp_tlfss.AlarmProtocol.Fields.{put_u16, put_u32, put_u64, get_u16, get_u32, get_u64}
use cpp_tlfss.AlarmProtocol.Checksum.{
  alarm_crc32, crc32_update, crc32_bits, crc32_bit, calculate_frame_crc,
}
use cpp_tlfss.AlarmProtocol.Frame.{
  encode_alarm_frame, decode_alarm_frame, decode_sized, read_frame, alarm_frame_size,
  header_frame_size, validate_frame_description, has_valid_magic, is_valid_raw_type,
}
use cpp_tlfss.AlarmProtocol.Roundtrip.{IsFrame, decode-encode}
use cpp_tlfss.AlarmProtocol.Reencode.{encode-decode}
use cpp_tlfss.AlarmProtocol.Detect.{decode-detects}

-- The check value of the CRC32 of IEEE 802.3.
check_value :
    alarm_crc32 (bytes (b'1' ∷ b'2' ∷ b'3' ∷ b'4' ∷ b'5' ∷ b'6' ∷ b'7' ∷ b'8' ∷ b'9' ∷ []))
    ≡ 0xcbf43926
unfolding alarm_crc32 crc32_update crc32_bits crc32_bit
check_value = refl

abbrev pub sample : AlarmFrame
sample = record {
  type = alarm;
  source_id = 300;
  message_id = replicate 16 7;
  timestamp_ms = 5;
  payload = 1 ∷ 2 ∷ [];
}

pub sample-IsFrame : IsFrame sample
sample-IsFrame = omega arith

pub sample_valid : validate_frame_description sample.type (length sample.payload) ≡ success
unfolding validate_frame_description
sample_valid = refl

empty_ack : AlarmFrame
empty_ack = record sample { type = ack; payload = [] }

control_frame_size : length (encode_alarm_frame true empty_ack).bytes ≡ 48
unfolding encode_alarm_frame validate_frame_description put_u16 put_u32 put_u64 empty_ack
control_frame_size = refl

alarm_needs_payload :
    (encode_alarm_frame true (record sample { payload = [] })).status ≡ invalid_payload_length
unfolding encode_alarm_frame validate_frame_description
alarm_needs_payload = refl

abbrev sample_head : List ℕ
sample_head = b'S' ∷ b'M' ∷ b'A' ∷ b'1' ∷ 1 ∷ 1 ∷ 0 ∷ 0 ∷ 0 ∷ 0 ∷ 0 ∷ 2 ∷ []

decode-encode_example :
    (encode_success (encode_alarm_frame true sample) ≡ true)
    × (decode_alarm_frame true (bytes (encode_alarm_frame true sample).bytes)
        ≡ record { status = success; frame = some sample })
decode-encode_example = decode-encode sample sample-IsFrame sample_valid

-- The encoding of `empty_ack`, as bytes: those in front of the second byte of the id, and behind it.
abbrev ack_front : List ℕ
ack_front =
    83 ∷ 77 ∷ 65 ∷ 49 ∷ 1 ∷ 2 ∷ 0 ∷ 0 ∷ 0 ∷ 0 ∷ 0 ∷ 0 ∷ 0 ∷ 0 ∷ 0 ∷ 0 ∷ 0 ∷ 0 ∷ 1 ∷ 44 ∷ 7 ∷ []

abbrev ack_back : List ℕ
ack_back =
    7 ∷ 7 ∷ 7 ∷ 7 ∷ 7 ∷ 7 ∷ 7 ∷ 7 ∷ 7 ∷ 7 ∷ 7 ∷ 7 ∷ 7 ∷ 7 ∷ 0 ∷ 0 ∷ 0 ∷ 0 ∷ 0 ∷ 0 ∷ 0 ∷ 5 ∷ 4 ∷ 103
    ∷ 205 ∷ 62 ∷ []

ack_decoded : (decode_alarm_frame true (bytes (ack_front ++ (7 ∷ ack_back)))).frame ≡ some empty_ack
unfolding decode_alarm_frame decode_sized alarm_frame_size header_frame_size size_success
    has_valid_magic is_valid_raw_type validate_frame_description read_frame get_u16 get_u32 get_u64
    type_code type_of_code calculate_frame_crc crc32_update crc32_bits crc32_bit empty_ack
ack_decoded = refl

encode-decode_example :
    encode_alarm_frame true empty_ack
    ≡ record { status = success; bytes = ack_front ++ (7 ∷ ack_back) }
encode-decode_example =
    encode-decode true (ack_front ++ (7 ∷ ack_back)) empty_ack (omega arith) ack_decoded

decode-detects_example :
    (decode_alarm_frame true (bytes (ack_front ++ (9 ∷ ack_back)))).frame ≡ none
decode-detects_example =
    decode-detects true true ack_front ack_back 7 9 empty_ack (omega arith) (omega arith)
      (omega arith) ack_decoded
