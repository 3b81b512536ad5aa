-- ===== src/MonitorWire/V2.antt =====
-- Version 2 of the datagrams: the header, `encode_v2` and `decode_v2`.
use cpp_tlfss.Base.{
  ℕ, ◌+◌, ◌-◌, ◌^◌, Bool, true, false, not, ◌&&◌, ◌||◌, none, some, List, [], ◌∷◌, ltb, ◌==◌,
  if◌then◌else◌, length, get_or, set, take, drop, replicate, copy_into,
}
use cpp_tlfss.AlarmProtocol.Types.{Input, null, bytes}
use cpp_tlfss.AlarmProtocol.Fields.{put_u16, put_u32, get_u16, get_u32}
use cpp_tlfss.MonitorStore.Data.{MonitorValue, NumericValue, numeric, text, valueless}
use cpp_tlfss.MonitorWire.Types.{
  v2, version_code, WireValueType, numeric_type, string_type, value_type_code, WireStatus, success,
  empty_input, wrong_version, invalid_type, invalid_flags, short_header, invalid_header_length,
  invalid_total_length, invalid_field_length, invalid_timestamp, datagram_too_large, WireRecord,
  EncodeResult, DecodeResult, V2Header, V2HeaderResult, make_encode_error, make_decode_error,
  make_v2_header_error, v2_header_size, v2_max_datagram_size, numeric_payload_size,
}
use cpp_tlfss.MonitorWire.Time.{
  split_timestamp, join_timestamp, is_valid_nanoseconds, put_i64_twos_complement,
  get_i64_twos_complement,
}

-- The fields in the order in which `write_v2_header` stores them.
unfoldable pub v2_fields : List ℕ → WireRecord → WireValueType → ℕ → ℕ → List ℕ
v2_fields datagram r type total_length value_length =
    copy_into
      (copy_into
        (copy_into
          (copy_into
            (copy_into
              (copy_into
                (copy_into
                  (copy_into
                    (copy_into
                      (copy_into
                        (copy_into (set (set datagram 0 (version_code v2)) 1 (value_type_code type))
                          2 (put_u16 0))
                        4 (put_u16 total_length))
                      6 (put_u16 v2_header_size))
                    8 (put_u32 r.stored.key.mid))
                  12 (put_u32 r.stored.key.level))
                16 (put_u32 r.stored.key.fid))
              20 (put_u32 r.stored.key.eid))
            24 (put_i64_twos_complement (split_timestamp r.changed_at).seconds))
          32 (put_u32 (split_timestamp r.changed_at).nanoseconds))
        36 (put_u16 (length r.stored.description)))
      38 (put_u16 value_length)

-- `write_v2_header`: the datagram with its header, or why it has none.
unfoldable pub write_v2_header : List ℕ → WireRecord → WireValueType → ℕ → WireStatus × List ℕ
unfolding v2_fields
write_v2_header datagram r type value_length =
    if ltb (2 ^ 16 - 1) description_length || ltb (2 ^ 16 - 1) value_length
    then (invalid_field_length, datagram)
    else if ltb v2_max_datagram_size total_length
    then (datagram_too_large, datagram)
    else if not (length datagram == total_length)
    then (invalid_total_length, datagram)
    else if not (is_valid_nanoseconds (split_timestamp r.changed_at).nanoseconds)
    then (invalid_timestamp, datagram)
    else (success, v2_fields datagram r type total_length value_length)
  where
    description_length : ℕ
    description_length = length r.stored.description

    total_length : ℕ
    total_length = v2_header_size + description_length + value_length

abbrev pub is_v2_success : WireStatus → Bool
is_v2_success success = true
is_v2_success _ = false

-- `encode_v2` with the type and the bytes of the value.
unfoldable pub encode_v2_value : WireRecord → WireValueType → List ℕ → EncodeResult
unfolding write_v2_header
encode_v2_value r type value =
    if ltb (v2_max_datagram_size - v2_header_size) description_length
    then make_encode_error datagram_too_large
    else if ltb (v2_max_datagram_size - v2_header_size - description_length) (length value)
    then make_encode_error datagram_too_large
    else if not (is_v2_success written.0)
    then make_encode_error written.0
    else record {
      status = success;
      datagram =
          copy_into (copy_into written.1 v2_header_size r.stored.description)
            (v2_header_size + description_length) value;
    }
  where
    description_length : ℕ
    description_length = length r.stored.description

    written : WireStatus × List ℕ
    written =
        write_v2_header (replicate (v2_header_size + description_length + length value) 0) r type
          (length value)

-- The eight bytes of a numeric value.
unfoldable pub numeric_payload : NumericValue → List ℕ
numeric_payload n = copy_into (copy_into (replicate 8 0) 0 (put_u32 n.value)) 4 (put_u32 n.state)

unfoldable pub encode_v2 : WireRecord → EncodeResult
unfolding encode_v2_value numeric_payload
encode_v2 r = elim (r.stored.content) [
  | numeric n ↦ encode_v2_value r numeric_type (numeric_payload n)
  | text s ↦ encode_v2_value r string_type s
  | valueless ↦ make_encode_error invalid_type
]

abbrev pub type_of_raw : ℕ → WireValueType
type_of_raw raw = if raw == 0 then numeric_type else string_type

-- `read_v2_header` at a datagram that is not empty.
unfoldable pub read_v2_bytes : List ℕ → V2HeaderResult
read_v2_bytes xs =
    if not (get_or xs 0 0 == version_code v2)
    then make_v2_header_error wrong_version
    else if ltb (length xs) v2_header_size
    then make_v2_header_error short_header
    else if ltb v2_max_datagram_size (length xs)
    then make_v2_header_error datagram_too_large
    else if not (get_or xs 1 0 == 0) && not (get_or xs 1 0 == 1)
    then make_v2_header_error invalid_type
    else if not (get_u16 (drop 2 xs) == 0)
    then make_v2_header_error invalid_flags
    else if not (get_u16 (drop 6 xs) == v2_header_size)
    then make_v2_header_error invalid_header_length
    else if ltb v2_max_datagram_size (get_u16 (drop 4 xs))
    then make_v2_header_error datagram_too_large
    else if ltb (get_u16 (drop 4 xs)) v2_header_size || not (get_u16 (drop 4 xs) == length xs)
    then make_v2_header_error invalid_total_length
    else if not (is_valid_nanoseconds (get_u32 (drop 32 xs)))
    then make_v2_header_error invalid_timestamp
    else if not (get_u16 (drop 36 xs) + get_u16 (drop 38 xs) == length xs - v2_header_size)
    then make_v2_header_error invalid_field_length
    else record {
      status = success;
      header = some (record {
        type = type_of_raw (get_or xs 1 0);
        flags = get_u16 (drop 2 xs);
        total_length = get_u16 (drop 4 xs);
        header_length = get_u16 (drop 6 xs);
        key = record {
          mid = get_u32 (drop 8 xs);
          level = get_u32 (drop 12 xs);
          fid = get_u32 (drop 16 xs);
          eid = get_u32 (drop 20 xs);
        };
        seconds = get_i64_twos_complement (drop 24 xs);
        nanoseconds = get_u32 (drop 32 xs);
        description_length = get_u16 (drop 36 xs);
        value_length = get_u16 (drop 38 xs);
      });
    }

abbrev pub content : Input → List ℕ
content (null _) = []
content (bytes xs) = xs

unfoldable pub read_v2_header : Input → V2HeaderResult
unfolding read_v2_bytes
read_v2_header (null _) = make_v2_header_error empty_input
read_v2_header (bytes []) = make_v2_header_error empty_input
read_v2_header (bytes (x ∷ xs)) = read_v2_bytes (x ∷ xs)

unfoldable pub read_v2_value : V2Header → List ℕ → MonitorValue
read_v2_value h payload = elim (h.type) [
  | numeric_type ↦ numeric (record { value = get_u32 payload; state = get_u32 (drop 4 payload) })
  | string_type ↦ text (take h.value_length payload)
]

abbrev pub wrong_numeric_length : WireValueType → ℕ → Bool
wrong_numeric_length numeric_type n = not (n == numeric_payload_size)
wrong_numeric_length string_type n = false

-- The part of `decode_v2` behind the header.
unfoldable pub decode_v2_body : V2Header → List ℕ → DecodeResult
unfolding read_v2_value
decode_v2_body h xs =
    if wrong_numeric_length h.type h.value_length
    then make_decode_error invalid_field_length
    else elim (join_timestamp h.seconds h.nanoseconds) [
      | none ↦ make_decode_error invalid_timestamp
      | some t ↦ record {
        status = success;
        found = some (record {
          version = v2;
          decoded = record {
            key = h.key;
            description = take h.description_length (drop v2_header_size xs);
            content = read_v2_value h (drop h.description_length (drop v2_header_size xs));
          };
          changed_at = some t;
        });
      }
    ]

unfoldable pub decode_v2 : Input → DecodeResult
unfolding read_v2_header decode_v2_body
decode_v2 input =
    if not (is_v2_success result.status)
    then make_decode_error result.status
    else elim (result.header) [
      | none ↦ make_decode_error result.status
      | some h ↦ decode_v2_body h (content input)
    ]
  where
    result : V2HeaderResult
    result = read_v2_header input
