-- ===== src/MonitorWire/V2Header.antt =====
-- Version 2: reading the header that `encode_v2` wrote.
use cpp_tlfss.Base.{
  ℕ, ◌+◌, ◌-◌, ◌^◌, ◌<◌, true, false, not, ◌&&◌, some, List, ◌++◌, ◌==◌, length, drop, ◌≡◌, refl,
  arith, ap, ◌∙◌, length-append, take-append, drop-append, ==_refl, le→ltb,
}
use cpp_tlfss.AlarmProtocol.Types.{bytes}
use cpp_tlfss.MonitorStore.Data.{MonitorKey}
use cpp_tlfss.MonitorWire.Types.{
  v2, WireValueType, numeric_type, string_type, value_type_code, success, WireRecord, V2Header,
}
use cpp_tlfss.MonitorWire.Time.{
  TimestampParts, split_timestamp, is_valid_nanoseconds, IsTime, split_timestamp-fits,
  join_timestamp-split,
}
use cpp_tlfss.MonitorWire.V2.{
  type_of_raw, read_v2_bytes, read_v2_header, read_v2_value, wrong_numeric_length, decode_v2_body,
  decode_v2,
}
use cpp_tlfss.MonitorWire.V2Layout.{
  length-header_bytes, flags-header, header_length-header, total-header, mid-header, level-header,
  fid-header, eid-header, seconds-header, ns-header, dlen-header, vlen-header, record_header, Fits,
}
use cpp_tlfss.MonitorStore.Data.{MonitorValue, numeric, text, valueless}

-- A key whose fields have 32 bits.
pub record IsKey (key : MonitorKey) : Type 0 where
  pub mid : key.mid < 2 ^ 32
  pub level : key.level < 2 ^ 32
  pub fid : key.fid < 2 ^ 32
  pub eid : key.eid < 2 ^ 32

-- A value whose numbers have 32 bits.
abbrev pub IsValue : MonitorValue → Type 0
IsValue (numeric n) = (n.value < 2 ^ 32) × (n.state < 2 ^ 32)
IsValue (text s) = Unit
IsValue valueless = ⊥

known :
    (type : WireValueType)
    → not (value_type_code type == 0) && not (value_type_code type == 1) ≡ false
known numeric_type = refl
known string_type = refl

named : (type : WireValueType) → type_of_raw (value_type_code type) ≡ type
named numeric_type = refl
named string_type = refl

module _ (r : WireRecord) (type : WireValueType) (value : List ℕ) (f : Fits r value)
    (k : IsKey r.stored.key) where
  abbrev whole : List ℕ
  whole = record_header r type (length value) ++ (r.stored.description ++ value)

  length-whole : length whole ≡ 40 + length r.stored.description + length value
  length-whole = omega (
    arith,
    length-append (record_header r type (length value)) (r.stored.description ++ value),
    length-append r.stored.description value,
    length-header_bytes (value_type_code type) (40 + length r.stored.description + length value)
        r.stored.key (split_timestamp r.changed_at).seconds
        (split_timestamp r.changed_at).nanoseconds (length r.stored.description) (length value),
  )

  -- The header that is read.
  abbrev pub read_header : V2Header
  read_header = record {
    type = type;
    flags = 0;
    total_length = 40 + length r.stored.description + length value;
    header_length = 40;
    key = r.stored.key;
    seconds = (split_timestamp r.changed_at).seconds;
    nanoseconds = (split_timestamp r.changed_at).nanoseconds;
    description_length = length r.stored.description;
    value_length = length value;
  }

  read_v2_bytes-layout :
      read_v2_bytes whole ≡ record { status = success; header = some read_header }
  unfolding read_v2_bytes
  read_v2_bytes-layout =
      rw
        (
          length-whole,
          le→ltb (40 + d + n) 40 (omega arith),
          le→ltb 1200 (40 + d + n) (omega (arith, f.room)),
          type_known,
          flags-header code (40 + d + n) r.stored.key parts.seconds parts.nanoseconds d n rest,
          header_length-header code (40 + d + n) r.stored.key parts.seconds parts.nanoseconds d n
              rest,
          total-header code (40 + d + n) r.stored.key parts.seconds parts.nanoseconds d n rest
              (omega (arith, f.room)),
          ==_refl (40 + d + n),
          ns-header code (40 + d + n) r.stored.key parts.seconds parts.nanoseconds d n rest fits.1,
          fits.2,
          dlen-header code (40 + d + n) r.stored.key parts.seconds parts.nanoseconds d n rest
              (omega (arith, f.room)),
          vlen-header code (40 + d + n) r.stored.key parts.seconds parts.nanoseconds d n rest
              (omega (arith, f.room)),
          payload_length,
          mid-header code (40 + d + n) r.stored.key parts.seconds parts.nanoseconds d n rest k.mid,
          level-header code (40 + d + n) r.stored.key parts.seconds parts.nanoseconds d n rest
              k.level,
          fid-header code (40 + d + n) r.stored.key parts.seconds parts.nanoseconds d n rest k.fid,
          eid-header code (40 + d + n) r.stored.key parts.seconds parts.nanoseconds d n rest k.eid,
          seconds-header code (40 + d + n) r.stored.key parts.seconds parts.nanoseconds d n rest
              fits.0,
        )
        (rw (
          le→ltb 1200 (40 + d + n) (omega (arith, f.room)),
          le→ltb (40 + d + n) 40 (omega arith),
          named type,
        ))
    where
      d : ℕ
      d = length r.stored.description

      n : ℕ
      n = length value

      code : ℕ
      code = value_type_code type

      parts : TimestampParts
      parts = split_timestamp r.changed_at

      rest : List ℕ
      rest = r.stored.description ++ value

      fits :
          IsTime parts.seconds
          × (parts.nanoseconds < 2 ^ 32)
          × (is_valid_nanoseconds parts.nanoseconds ≡ true)
      fits = split_timestamp-fits r.changed_at f.time

      type_known : not (code == 0) && not (code == 1) ≡ false
      type_known = known type

      payload_length : (d + n == 40 + d + n - 40) ≡ true
      payload_length = ground arith

  read_v2_header-layout :
      read_v2_header (bytes whole) ≡ record { status = success; header = some read_header }
  unfolding read_v2_header
  read_v2_header-layout = read_v2_bytes-layout

  drop-whole : drop 40 whole ≡ r.stored.description ++ value
  drop-whole =
      drop-append 40 (record_header r type (length value)) (r.stored.description ++ value) (
        length-header_bytes (value_type_code type) (40 + length r.stored.description + length value)
          r.stored.key (split_timestamp r.changed_at).seconds
          (split_timestamp r.changed_at).nanoseconds (length r.stored.description) (length value))

  -- The bytes of a record are decoded to it, when its value is read from its own bytes.
  pub decode_v2-layout :
      (c : MonitorValue)
      → wrong_numeric_length type (length value) ≡ false
      → read_v2_value read_header value ≡ c
      → decode_v2 (bytes whole) ≡ record {
        status = success;
        found = some (record {
          version = v2;
          decoded = record r.stored { content = c };
          changed_at = some r.changed_at;
        });
      }
  unfolding decode_v2 decode_v2_body
  decode_v2-layout c right e =
      rw
        (
          read_v2_header-layout,
          right,
          join_timestamp-split r.changed_at f.time,
          drop-whole,
          take-append (length r.stored.description) r.stored.description value refl,
        )
        (ap
          (λ c. record {
            status = success;
            found = some (record {
              version = v2;
              decoded = record r.stored { content = c };
              changed_at = some r.changed_at;
            });
          })
          (ap (read_v2_value read_header) (
              ap (drop (length r.stored.description)) drop-whole
              ∙ drop-append (length r.stored.description) r.stored.description value refl)
            ∙ e))
