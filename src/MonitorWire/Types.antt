-- ===== src/MonitorWire/Types.antt =====
-- Versions, value types, statuses and results of inc/monitor/monitor_wire.h and
-- inc/monitor/monitor_wire_detail.h, and the offsets of the fields.
use cpp_tlfss.Base.{ℕ, ◌-◌, Option, none, List, [], ℤ}
use cpp_tlfss.MonitorStore.Data.{MonitorKey, MonitorData}

abbrev pub v1_header_size : ℕ
v1_header_size = 18

abbrev pub v1_numeric_datagram_size : ℕ
v1_numeric_datagram_size = 26

abbrev pub v1_max_datagram_size : ℕ
v1_max_datagram_size = 82

abbrev pub v1_max_string_content_size : ℕ
v1_max_string_content_size = v1_max_datagram_size - v1_header_size - 1

abbrev pub v2_header_size : ℕ
v2_header_size = 40

abbrev pub v2_max_datagram_size : ℕ
v2_max_datagram_size = 1200

abbrev pub numeric_payload_size : ℕ
numeric_payload_size = 8

pub data WireVersion : Type 0 where
  v1 : WireVersion
  v2 : WireVersion

abbrev pub version_code : WireVersion → ℕ
version_code v1 = 1
version_code v2 = 2

pub data WireValueType : Type 0 where
  numeric_type : WireValueType
  string_type : WireValueType

abbrev pub value_type_code : WireValueType → ℕ
value_type_code numeric_type = 0
value_type_code string_type = 1

pub data WireStatus : Type 0 where
  success : WireStatus
  empty_input : WireStatus
  wrong_version : WireStatus
  invalid_type : WireStatus
  invalid_flags : WireStatus
  short_header : WireStatus
  invalid_header_length : WireStatus
  invalid_total_length : WireStatus
  invalid_field_length : WireStatus
  invalid_timestamp : WireStatus
  string_too_long : WireStatus
  datagram_too_large : WireStatus

-- `DecodedRecord`; a time is its nanoseconds since the epoch, a 64-bit integer.
pub record DecodedRecord : Type 0 where
  pub version : WireVersion
  pub decoded : MonitorData
  pub changed_at : Option ℤ

-- `StoredRecord`, with the time as the wire format sees it.
pub record WireRecord : Type 0 where
  pub stored : MonitorData
  pub changed_at : ℤ

pub record EncodeResult : Type 0 where
  pub status : WireStatus
  pub datagram : List ℕ

pub record DecodeResult : Type 0 where
  pub status : WireStatus
  pub found : Option DecodedRecord

pub record V2Header : Type 0 where
  pub type : WireValueType
  pub flags : ℕ
  pub total_length : ℕ
  pub header_length : ℕ
  pub key : MonitorKey
  pub seconds : ℤ
  pub nanoseconds : ℕ
  pub description_length : ℕ
  pub value_length : ℕ

pub record V2HeaderResult : Type 0 where
  pub status : WireStatus
  pub header : Option V2Header

abbrev pub make_encode_error : WireStatus → EncodeResult
make_encode_error s = record { status = s; datagram = [] }

abbrev pub make_decode_error : WireStatus → DecodeResult
make_decode_error s = record { status = s; found = none }

abbrev pub make_v2_header_error : WireStatus → V2HeaderResult
make_v2_header_error s = record { status = s; header = none }
