-- ===== src/MonitorWire/V1.antt =====
-- Version 1 of the datagrams: `encode_v1` and `decode_v1`.
use cpp_tlfss.Base.{
  ℕ, ◌+◌, not, ◌&&◌, none, some, List, [], ◌∷◌, ltb, ◌==◌, if◌then◌else◌, length, get_or, set, take,
  drop, replicate, copy_into,
}
use cpp_tlfss.AlarmProtocol.Types.{Input, null, bytes}
use cpp_tlfss.AlarmProtocol.Fields.{put_u32, get_u32}
use cpp_tlfss.MonitorStore.Data.{MonitorKey, MonitorValue, NumericValue, numeric, text, valueless}
use cpp_tlfss.MonitorWire.Types.{
  v1, version_code, WireValueType, numeric_type, string_type, value_type_code, success, empty_input,
  wrong_version, invalid_type, short_header, invalid_field_length, string_too_long,
  datagram_too_large, WireRecord, EncodeResult, DecodeResult, make_encode_error, make_decode_error,
  v1_header_size, v1_numeric_datagram_size, v1_max_datagram_size, v1_max_string_content_size,
}

abbrev value_offset : ℕ
value_offset = 18

abbrev state_offset : ℕ
state_offset = 22

unfoldable pub write_v1_header : List ℕ → WireValueType → MonitorKey → List ℕ
write_v1_header datagram type key =
    copy_into
      (copy_into
        (copy_into
          (copy_into (set (set datagram 0 (version_code v1)) 1 (value_type_code type)) 2
            (put_u32 key.mid))
          6 (put_u32 key.fid))
        10 (put_u32 key.eid))
      14 (put_u32 key.level)

unfoldable pub read_v1_key : List ℕ → MonitorKey
read_v1_key xs = record {
  mid = get_u32 (drop 2 xs);
  level = get_u32 (drop 14 xs);
  fid = get_u32 (drop 6 xs);
  eid = get_u32 (drop 10 xs);
}

-- `find` of the first NUL, at the end when there is none.
unfoldable pub find_nul : List ℕ → ℕ
find_nul [] = 0
find_nul (x ∷ xs) = let later = find_nul xs in if x == 0 then 0 else later + 1

unfoldable pub encode_v1_numeric : MonitorKey → NumericValue → List ℕ
unfolding write_v1_header
encode_v1_numeric key n =
    copy_into
      (copy_into (write_v1_header (replicate v1_numeric_datagram_size 0) numeric_type key)
        value_offset (put_u32 n.value))
      state_offset (put_u32 n.state)

-- A string of a given content size, with its NUL.
unfoldable pub encode_v1_string : MonitorKey → List ℕ → ℕ → List ℕ
unfolding write_v1_header
encode_v1_string key s content_size =
    set
      (copy_into (write_v1_header (replicate (v1_header_size + content_size + 1) 0) string_type key)
        v1_header_size (take content_size s))
      (v1_header_size + content_size) 0

unfoldable pub encode_v1 : WireRecord → EncodeResult
unfolding find_nul
encode_v1 r = elim (r.stored.content) [
  | numeric n ↦ record { status = success; datagram = encode_v1_numeric r.stored.key n }
  | text s ↦
      if ltb v1_max_string_content_size (find_nul s)
      then make_encode_error string_too_long
      else record { status = success; datagram = encode_v1_string r.stored.key s (find_nul s) }
  | valueless ↦ make_encode_error invalid_type
]

-- The record that version 1 carries: a key and a value.
abbrev pub v1_record : MonitorKey → MonitorValue → DecodeResult
v1_record key value = record {
  status = success;
  found = some (record {
    version = v1;
    decoded = record { key = key; description = []; content = value };
    changed_at = none;
  });
}

unfoldable pub decode_v1_string : List ℕ → DecodeResult
unfolding read_v1_key find_nul
decode_v1_string xs =
    if ltb v1_max_string_content_size content_size
    then make_decode_error string_too_long
    else v1_record (read_v1_key xs) (text (take content_size (drop v1_header_size xs)))
  where
    content_size : ℕ
    content_size = find_nul (drop v1_header_size xs)

-- `decode_v1` at a datagram that is not empty.
unfoldable pub decode_v1_bytes : List ℕ → DecodeResult
unfolding read_v1_key decode_v1_string
decode_v1_bytes xs =
    if not (get_or xs 0 0 == version_code v1)
    then make_decode_error wrong_version
    else if ltb (length xs) v1_header_size
    then make_decode_error short_header
    else if ltb v1_max_datagram_size (length xs)
    then make_decode_error datagram_too_large
    else if not (raw_type == value_type_code numeric_type)
        && not (raw_type == value_type_code string_type)
    then make_decode_error invalid_type
    else if raw_type == value_type_code numeric_type
    then if ltb (length xs) v1_numeric_datagram_size
      then make_decode_error invalid_field_length
      else v1_record (read_v1_key xs) (
          numeric (record {
            value = get_u32 (drop value_offset xs);
            state = get_u32 (drop state_offset xs);
          }))
    else decode_v1_string xs
  where
    raw_type : ℕ
    raw_type = get_or xs 1 0

unfoldable pub decode_v1 : Input → DecodeResult
unfolding decode_v1_bytes
decode_v1 (null _) = make_decode_error empty_input
decode_v1 (bytes []) = make_decode_error empty_input
decode_v1 (bytes (x ∷ xs)) = decode_v1_bytes (x ∷ xs)
