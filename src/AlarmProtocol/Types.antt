-- ===== src/AlarmProtocol/Types.antt =====
-- Constants, frames and results of inc/monitor/alarm_protocol.h.
use cpp_tlfss.Base.{
  ℕ, ◌+◌, Bool, true, false, ◌&&◌, Option, none, some, List, [], ◌∷◌, leb, ◌==◌, if◌then◌else◌,
  length,
}

-- `const std::uint8_t* data, std::size_t size`: no address with a claimed size, or that many bytes.
pub data Input : Type 0 where
  null : ℕ → Input
  bytes : List ℕ → Input

abbrev pub alarm_magic : List ℕ
alarm_magic = b'S' ∷ b'M' ∷ b'A' ∷ b'1' ∷ []

abbrev pub alarm_protocol_version : ℕ
alarm_protocol_version = 1

abbrev pub alarm_message_id_size : ℕ
alarm_message_id_size = 16

abbrev pub alarm_max_payload_size : ℕ
alarm_max_payload_size = 4096

abbrev pub alarm_header_size : ℕ
alarm_header_size = 48

abbrev pub alarm_max_frame_size : ℕ
alarm_max_frame_size = alarm_header_size + alarm_max_payload_size

-- A `std::uint8_t` enumeration: a value that is cast may be none of the enumerators.
pub data AlarmFrameType : Type 0 where
  alarm ack ping pong : AlarmFrameType
  unnamed : ℕ → AlarmFrameType

-- `static_cast` to and from the enumeration.
unfoldable pub type_code : AlarmFrameType → ℕ
type_code alarm = 1
type_code ack = 2
type_code ping = 3
type_code pong = 4
type_code (unnamed c) = c

unfoldable pub type_of_code : ℕ → AlarmFrameType
type_of_code c =
    if c == 1
    then alarm
    else if c == 2
    then ack
    else if c == 3
    then ping
    else if c == 4
    then pong
    else unnamed c

unfoldable pub is_valid_alarm_frame_type : AlarmFrameType → Bool
is_valid_alarm_frame_type (unnamed _) = false
is_valid_alarm_frame_type _ = true

unfoldable pub alarm_frame_requires_payload : AlarmFrameType → Bool
alarm_frame_requires_payload alarm = true
alarm_frame_requires_payload _ = false

unfoldable pub is_alarm_control_frame : AlarmFrameType → Bool
is_alarm_control_frame ack = true
is_alarm_control_frame ping = true
is_alarm_control_frame pong = true
is_alarm_control_frame _ = false

pub record AlarmFrame : Type 0 where
  pub type : AlarmFrameType
  pub source_id : ℕ
  pub message_id : List ℕ
  pub timestamp_ms : ℕ
  pub payload : List ℕ

pub data AlarmProtocolStatus : Type 0 where
  success empty_input short_header wrong_magic wrong_version invalid_type : AlarmProtocolStatus
  invalid_flags invalid_payload_length payload_too_large : AlarmProtocolStatus
  invalid_total_length crc_mismatch invalid_payload allocation_failed : AlarmProtocolStatus

abbrev pub is_success : AlarmProtocolStatus → Bool
is_success success = true
is_success _ = false

pub record AlarmEncodeResult : Type 0 where
  pub status : AlarmProtocolStatus
  pub bytes : List ℕ

pub record AlarmDecodeResult : Type 0 where
  pub status : AlarmProtocolStatus
  pub frame : Option AlarmFrame

pub record AlarmFrameSizeResult : Type 0 where
  pub status : AlarmProtocolStatus
  pub frame_size : Option ℕ

abbrev pub make_encode_error : AlarmProtocolStatus → AlarmEncodeResult
make_encode_error s = record { status = s; bytes = [] }

abbrev pub make_decode_error : AlarmProtocolStatus → AlarmDecodeResult
make_decode_error s = record { status = s; frame = none }

abbrev pub make_size_error : AlarmProtocolStatus → AlarmFrameSizeResult
make_size_error s = record { status = s; frame_size = none }

unfoldable pub encode_success : AlarmEncodeResult → Bool
encode_success r =
    is_success r.status
    && leb alarm_header_size (length r.bytes)
    && leb (length r.bytes) alarm_max_frame_size

unfoldable pub decode_success : AlarmDecodeResult → Bool
decode_success r = is_success r.status && elim r.frame [ none ↦ false | some _ ↦ true ]

unfoldable pub size_success : AlarmFrameSizeResult → Bool
size_success r = is_success r.status && elim r.frame_size [
  | none ↦ false
  | some n ↦ leb alarm_header_size n && leb n alarm_max_frame_size
]
