-- ===== src/AlarmProtocol/Offset.antt =====
-- Offsets of the fields of an alarm envelope (inc/monitor/alarm_protocol.h).
use cpp_tlfss.Base.{ℕ}

abbrev pub magic : ℕ
magic = 0

abbrev pub version : ℕ
version = 4

abbrev pub type : ℕ
type = 5

abbrev pub flags : ℕ
flags = 6

abbrev pub payload_length : ℕ
payload_length = 8

abbrev pub source_id : ℕ
source_id = 12

abbrev pub message_id : ℕ
message_id = 20

abbrev pub timestamp : ℕ
timestamp = 36

abbrev pub crc32 : ℕ
crc32 = 44
