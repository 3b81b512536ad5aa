-- ===== src/AlarmProtocol/Frame.antt =====
-- Validation, frame size, encoding and decoding of src/monitor/alarm_protocol.cpp.
use cpp_tlfss.Base.{
  ℕ, ◌+◌, ◌-◌, Bool, true, false, ◌&&◌, none, some, List, [], ◌∷◌, ltb, leb, ◌==◌, if◌then◌else◌,
  length, get_or, take, drop, replicate, copy_into, not,
}
use cpp_tlfss.AlarmProtocol.Offset
use cpp_tlfss.AlarmProtocol.Types.{
  Input, null, bytes, alarm_magic, alarm_protocol_version, alarm_message_id_size,
  alarm_max_payload_size, alarm_header_size, AlarmFrameType, alarm, pong, type_code, type_of_code,
  is_valid_alarm_frame_type, alarm_frame_requires_payload, is_alarm_control_frame, AlarmFrame,
  AlarmProtocolStatus, success, empty_input, short_header, wrong_magic, wrong_version, invalid_type,
  invalid_flags, invalid_payload_length, payload_too_large, invalid_total_length, crc_mismatch,
  allocation_failed, is_success, AlarmEncodeResult, AlarmDecodeResult, AlarmFrameSizeResult,
  make_encode_error, make_decode_error, make_size_error, size_success,
}
use cpp_tlfss.AlarmProtocol.Fields.{put_u16, put_u32, put_u64, get_u16, get_u32, get_u64}
use cpp_tlfss.AlarmProtocol.Checksum.{calculate_frame_crc}

abbrev pub same_bytes : List ℕ → List ℕ → Bool
same_bytes [] [] = true
same_bytes (x ∷ xs) (y ∷ ys) = x == y && same_bytes xs ys
same_bytes _ _ = false

unfoldable pub has_valid_magic : List ℕ → Bool
has_valid_magic xs = same_bytes alarm_magic (take 4 (drop Offset.magic xs))

unfoldable pub is_valid_raw_type : ℕ → Bool
unfolding type_code
is_valid_raw_type raw = leb (type_code alarm) raw && leb raw (type_code pong)

unfoldable pub validate_frame_description : AlarmFrameType → ℕ → AlarmProtocolStatus
unfolding is_valid_alarm_frame_type alarm_frame_requires_payload is_alarm_control_frame
validate_frame_description type payload_size =
    if not (is_valid_alarm_frame_type type)
    then invalid_type
    else if ltb alarm_max_payload_size payload_size
    then payload_too_large
    else if alarm_frame_requires_payload type && payload_size == 0
    then invalid_payload_length
    else if is_alarm_control_frame type && not (payload_size == 0)
    then invalid_payload_length
    else success

-- The part of `alarm_frame_size` behind the test for a missing or empty input.
unfoldable pub header_frame_size : List ℕ → AlarmFrameSizeResult
header_frame_size prefix =
    if ltb (length prefix) alarm_header_size
    then make_size_error short_header
    else if not (has_valid_magic prefix)
    then make_size_error wrong_magic
    else if not (get_or prefix Offset.version 0 == alarm_protocol_version)
    then make_size_error wrong_version
    else if not (is_valid_raw_type raw_type)
    then make_size_error invalid_type
    else if not (get_u16 (drop Offset.flags prefix) == 0)
    then make_size_error invalid_flags
    else if not (is_success validation)
    then make_size_error validation
    else record { status = success; frame_size = some (alarm_header_size + payload_length) }
  where
    raw_type : ℕ
    raw_type = get_or prefix Offset.type 0

    payload_length : ℕ
    payload_length = get_u32 (drop Offset.payload_length prefix)

    validation : AlarmProtocolStatus
    validation = validate_frame_description (type_of_code raw_type) payload_length

unfoldable pub alarm_frame_size : Input → AlarmFrameSizeResult
alarm_frame_size (null _) = make_size_error empty_input
alarm_frame_size (bytes []) = make_size_error empty_input
alarm_frame_size (bytes (b ∷ bs)) = header_frame_size (b ∷ bs)

-- The fields in the order in which the code stores them, the CRC left 0.
unfoldable pub frame_without_crc : AlarmFrame → List ℕ
frame_without_crc f =
    copy_into
      (copy_into
        (copy_into
          (copy_into
            (copy_into
              (copy_into
                (copy_into
                  (copy_into (replicate (alarm_header_size + length f.payload) 0) Offset.magic
                    alarm_magic)
                  Offset.version (alarm_protocol_version ∷ []))
                Offset.type (type_code f.type ∷ []))
              Offset.flags (put_u16 0))
            Offset.payload_length (put_u32 (length f.payload)))
          Offset.source_id (put_u64 f.source_id))
        Offset.message_id f.message_id)
      Offset.timestamp (put_u64 f.timestamp_ms)

unfoldable pub encode_alarm_frame : Bool → AlarmFrame → AlarmEncodeResult
unfolding frame_without_crc
encode_alarm_frame allocated f =
    if not (is_success validation)
    then make_encode_error validation
    else if not allocated
    then make_encode_error allocation_failed
    else record { status = success; bytes = copy_into filled Offset.crc32 (put_u32 crc) }
  where
    validation : AlarmProtocolStatus
    validation = validate_frame_description f.type (length f.payload)

    filled : List ℕ
    filled = copy_into (frame_without_crc f) alarm_header_size f.payload

    crc : ℕ
    crc = calculate_frame_crc filled (length f.payload)

-- The fields of a buffer that has passed every check.
unfoldable pub read_frame : List ℕ → AlarmFrame
read_frame xs = record {
  type = type_of_code (get_or xs Offset.type 0);
  source_id = get_u64 (drop Offset.source_id xs);
  message_id = take alarm_message_id_size (drop Offset.message_id xs);
  timestamp_ms = get_u64 (drop Offset.timestamp xs);
  payload = drop alarm_header_size xs;
}

-- The checks of `decode_alarm_frame` behind the frame size.
unfoldable pub decode_sized : Bool → List ℕ → ℕ → AlarmDecodeResult
decode_sized allocated xs frame_size =
    if not (length xs == frame_size)
    then make_decode_error invalid_total_length
    else if not (get_u32 (drop Offset.crc32 xs) == calculate_frame_crc xs payload_size)
    then make_decode_error crc_mismatch
    else if not allocated
    then make_decode_error allocation_failed
    else record { status = success; frame = some (read_frame xs) }
  where
    payload_size : ℕ
    payload_size = length xs - alarm_header_size

abbrev pub content : Input → List ℕ
content (null _) = []
content (bytes xs) = xs

unfoldable pub decode_alarm_frame : Bool → Input → AlarmDecodeResult
decode_alarm_frame allocated input =
    if not (size_success size_result)
    then make_decode_error size_result.status
    else elim size_result.frame_size [
      | none ↦ make_decode_error size_result.status
      | some n ↦ decode_sized allocated (content input) n
    ]
  where
    size_result : AlarmFrameSizeResult
    size_result = alarm_frame_size input
