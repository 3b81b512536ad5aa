-- ===== src/MonitorWire/Size.antt =====
-- The sizes of the datagrams that are built.
use cpp_tlfss.Base.{
  ℕ, ◌+◌, ◌≤◌, List, ◌++◌, ltb, length, ◌≡◌, refl, arith, ap, if-keeps, length-append, ℤ,
}
use cpp_tlfss.AlarmProtocol.Fields.{put_u32}
use cpp_tlfss.MonitorStore.Data.{MonitorData, MonitorValue, NumericValue, numeric, text, valueless}
use cpp_tlfss.MonitorWire.Types.{
  v1_max_datagram_size, v2_max_datagram_size, WireVersion, v1, v2, WireValueType, numeric_type,
  string_type, value_type_code, success, WireRecord, EncodeResult,
}
use cpp_tlfss.MonitorWire.Time.{IsTime, split_timestamp}
use cpp_tlfss.MonitorWire.V1.{find_nul, encode_v1}
use cpp_tlfss.MonitorWire.V2.{encode_v2_value, numeric_payload, encode_v2}
use cpp_tlfss.MonitorWire.V2Layout.{
  length-header_bytes, record_header, Fits, encode_v2_value-layout,
}
use cpp_tlfss.MonitorWire.V2Roundtrip.{encode_v2_value-room}
use cpp_tlfss.MonitorWire.V1Roundtrip.{
  v1_header, encode_v1_numeric-layout, length-v1_header, encode_v1_string-layout,
  length-string_bytes,
}
use cpp_tlfss.MonitorWire.Codec.{encode}

-- The most bytes of a datagram of a version.
abbrev pub max_size : WireVersion → ℕ
max_size v1 = v1_max_datagram_size
max_size v2 = v2_max_datagram_size

encode_v2_value-size :
    (r : WireRecord) (type : WireValueType) (value : List ℕ)
    → IsTime r.changed_at
    → (encode_v2_value r type value).status ≡ success
    → length (encode_v2_value r type value).datagram ≤ 1200
encode_v2_value-size r type value t ok = omega (
  arith,
  ap (λ o. length o.datagram) (encode_v2_value-layout r type value f),
  f.room,
  length-append (record_header r type (length value)) (r.stored.description ++ value),
  length-append r.stored.description value,
  length-header_bytes (value_type_code type) (40 + length r.stored.description + length value)
      r.stored.key (split_timestamp r.changed_at).seconds (split_timestamp r.changed_at).nanoseconds
      (length r.stored.description) (length value),
)
  where
    f : Fits r value
    f = record { room = encode_v2_value-room r type value ok; time = t }

encode_v2-size :
    (d : MonitorData) (t : ℤ) (c : MonitorValue)
    → IsTime t
    → (encode_v2 (record { stored = record d { content = c }; changed_at = t })).status ≡ success
    → length (encode_v2 (record { stored = record d { content = c }; changed_at = t })).datagram
      ≤ 1200
unfolding encode_v2
encode_v2-size d t (numeric n) time ok =
    encode_v2_value-size (record { stored = record d { content = numeric n }; changed_at = t })
      numeric_type (numeric_payload n) time ok
encode_v2-size d t (text s) time ok =
    encode_v2_value-size (record { stored = record d { content = text s }; changed_at = t })
      string_type s time ok
encode_v2-size d t valueless time ok = absurd cc

eight_bytes : (n : NumericValue) → length (put_u32 n.value ++ put_u32 n.state) ≡ 8
unfolding put_u32
eight_bytes n = refl

encode_v1-size :
    (d : MonitorData) (t : ℤ) (c : MonitorValue)
    → (encode_v1 (record { stored = record d { content = c }; changed_at = t })).status ≡ success
    → length (encode_v1 (record { stored = record d { content = c }; changed_at = t })).datagram
      ≤ 82
unfolding encode_v1
encode_v1-size d t (numeric n) = λ ok. omega (
  arith,
  ap length (encode_v1_numeric-layout d.key n),
  length-append (v1_header numeric_type d.key) (put_u32 n.value ++ put_u32 n.state),
  length-v1_header numeric_type d.key,
  eight_bytes n,
)
encode_v1-size d t (text s) =
    if-keeps (λ (o : EncodeResult). o.status ≡ success → length o.datagram ≤ 82)
      (ltb 63 (find_nul s)) (λ _ e. absurd cc)
      (λ e _.
        let small : find_nul s ≤ 63 = ground arith in
        omega (arith, ap length (encode_v1_string-layout d.key s), length-string_bytes d.key s))
encode_v1-size d t valueless = λ ok. absurd cc

-- A record with a time of 64 bits that is encoded with success is at most as long as its version
-- allows: 82 bytes in version 1 and 1200 in version 2.
pub encode-size :
    (r : WireRecord) (version : WireVersion)
    → IsTime r.changed_at
    → (encode r version).status ≡ success
    → length (encode r version).datagram ≤ max_size version
unfolding encode
encode-size r v1 t ok = encode_v1-size r.stored r.changed_at r.stored.content ok
encode-size r v2 t ok = encode_v2-size r.stored r.changed_at r.stored.content t ok
