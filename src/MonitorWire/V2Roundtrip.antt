-- ===== src/MonitorWire/V2Roundtrip.antt =====
-- Version 2: decoding what `encode_v2` built.
use cpp_tlfss.Base.{
  ℕ, ◌+◌, ◌-◌, ◌^◌, ◌≤◌, ◌<◌, false, some, List, [], ◌∷◌, ◌++◌, ltb, length, drop, ℤ, ◌≡◌, refl,
  arith, ap, ◌∙◌, sym, if-keeps, take-length,
}
use cpp_tlfss.AlarmProtocol.Types.{bytes}
use cpp_tlfss.AlarmProtocol.Fields.{put_u32, get_u32}
use cpp_tlfss.AlarmProtocol.FieldLaws.{get_u32-put_u32}
use cpp_tlfss.MonitorStore.Data.{MonitorData}
use cpp_tlfss.MonitorWire.Types.{
  v2, WireValueType, numeric_type, string_type, success, WireRecord, EncodeResult, DecodeResult,
  V2Header,
}
use cpp_tlfss.MonitorWire.Time.{IsTime}
use cpp_tlfss.MonitorWire.V2.{
  encode_v2_value, numeric_payload, encode_v2, read_v2_value, wrong_numeric_length, decode_v2,
}
use cpp_tlfss.MonitorWire.V2Layout.{record_header, Fits, encode_v2_value-layout}
use cpp_tlfss.MonitorWire.Codec.{encode, decode}
use cpp_tlfss.MonitorStore.Data.{MonitorValue, NumericValue, numeric, text, valueless}
use cpp_tlfss.MonitorWire.V2Header.{decode_v2-layout, read_header, IsKey, IsValue}

-- A record that is encoded with success fits.
pub encode_v2_value-room :
    (r : WireRecord) (type : WireValueType) (value : List ℕ)
    → (encode_v2_value r type value).status ≡ success
    → length r.stored.description + length value ≤ 1160
unfolding encode_v2_value
encode_v2_value-room r type value =
    if-keeps RoomIf (ltb 1160 (length r.stored.description)) (λ _ e. absurd cc)
      (λ a.
        if-keeps RoomIf (ltb (1160 - length r.stored.description) (length value)) (λ _ e. absurd cc)
          (λ b _. ground arith))
  where
    RoomIf : EncodeResult → Type 0
    RoomIf o = o.status ≡ success → length r.stored.description + length value ≤ 1160

numeric_payload_lem : (n : NumericValue) → numeric_payload n ≡ put_u32 n.value ++ put_u32 n.state
unfolding numeric_payload put_u32
numeric_payload_lem n = refl

length-numeric_payload : (n : NumericValue) → length (numeric_payload n) ≡ 8
unfolding numeric_payload put_u32
length-numeric_payload n = refl

numeric-read :
    (n : NumericValue)
    → n.value < 2 ^ 32
    → n.state < 2 ^ 32
    → (get_u32 (numeric_payload n) ≡ n.value) × (get_u32 (drop 4 (numeric_payload n)) ≡ n.state)
unfolding numeric_payload put_u32
numeric-read n h k = (get_u32-put_u32 n.value (put_u32 n.state) h, get_u32-put_u32 n.state [] k)

-- What a datagram of version 2 brings.
abbrev pub v2_record : WireRecord → DecodeResult
v2_record r = record {
  status = success;
  found = some (record { version = v2; decoded = r.stored; changed_at = some r.changed_at });
}

module _ (r : WireRecord) (k : IsKey r.stored.key) (t : IsTime r.changed_at) where
  decode_v2_value :
      (type : WireValueType) (value : List ℕ) (c : MonitorValue)
      → (encode_v2_value r type value).status ≡ success
      → wrong_numeric_length type (length value) ≡ false
      → ((f : Fits r value) → read_v2_value (read_header r type value f k) value ≡ c)
      → decode_v2 (bytes (encode_v2_value r type value).datagram)
        ≡ v2_record (record r { stored = record r.stored { content = c } })
  decode_v2_value type value c ok right e =
      ap (λ o. decode_v2 (bytes o.datagram)) (encode_v2_value-layout r type value f)
      ∙ decode_v2-layout r type value f k c right (e f)
    where
      f : Fits r value
      f = record { room = encode_v2_value-room r type value ok; time = t }

numeric_value :
    (n : NumericValue) (h : V2Header)
    → (n.value < 2 ^ 32) × (n.state < 2 ^ 32)
    → read_v2_value (record h { type = numeric_type }) (numeric_payload n) ≡ numeric n
unfolding read_v2_value
numeric_value n h v = rw ((numeric-read n v.0 v.1).0, (numeric-read n v.0 v.1).1)

text_value :
    (s : List ℕ) (h : V2Header)
    → read_v2_value (record h { type = string_type; value_length = length s }) s ≡ text s
unfolding read_v2_value
text_value s h = rw (take-length (length s) s (omega arith))

decode_v2_content :
    (d : MonitorData) (t : ℤ) (c : MonitorValue)
    → IsKey d.key
    → IsTime t
    → IsValue c
    → (encode_v2 (record { stored = record d { content = c }; changed_at = t })).status ≡ success
    → decode_v2
        (bytes (encode_v2 (record { stored = record d { content = c }; changed_at = t })).datagram)
      ≡ v2_record (record { stored = record d { content = c }; changed_at = t })
unfolding encode_v2
decode_v2_content d t (numeric n) k time v ok =
    decode_v2_value (record { stored = record d { content = numeric n }; changed_at = t }) k time
      numeric_type (numeric_payload n) (numeric n) ok (rw (length-numeric_payload n))
      (λ f.
        numeric_value n
          (read_header (record { stored = record d { content = numeric n }; changed_at = t })
            numeric_type (numeric_payload n) f k)
          v)
decode_v2_content d t (text s) k time v ok =
    decode_v2_value (record { stored = record d { content = text s }; changed_at = t }) k time
      string_type s (text s) ok refl
      (λ f. text_value s (
        read_header (record { stored = record d { content = text s }; changed_at = t }) string_type
          s f k))
decode_v2_content d t valueless k time v ok = absurd v

-- A datagram that begins with a two goes to `decode_v2`.
decode_two : (xs : List ℕ) → decode (bytes (2 ∷ xs)) ≡ decode_v2 (bytes (2 ∷ xs))
unfolding decode
decode_two xs = refl

decode-encoded :
    (r : WireRecord) (type : WireValueType) (value : List ℕ)
    → (encode_v2_value r type value).status ≡ success
    → IsTime r.changed_at
    → decode (bytes (encode_v2_value r type value).datagram)
      ≡ decode_v2 (bytes (encode_v2_value r type value).datagram)
decode-encoded r type value ok t =
    ap (λ o. decode (bytes o.datagram)) encoded
    ∙ first
    ∙ ap (λ o. decode_v2 (bytes o.datagram)) (sym encoded)
  where
    encoded : encode_v2_value r type value ≡ record {
      status = success;
      datagram = record_header r type (length value) ++ (r.stored.description ++ value);
    }
    encoded =
        encode_v2_value-layout r type value
          (record { room = encode_v2_value-room r type value ok; time = t })

    first :
        decode (bytes (record_header r type (length value) ++ (r.stored.description ++ value)))
        ≡ decode_v2 (bytes (record_header r type (length value) ++ (r.stored.description ++ value)))
    first = decode_two _

encode_v2-dispatch :
    (d : MonitorData) (t : ℤ) (c : MonitorValue)
    → IsTime t
    → (encode_v2 (record { stored = record d { content = c }; changed_at = t })).status ≡ success
    → decode
        (bytes (encode_v2 (record { stored = record d { content = c }; changed_at = t })).datagram)
      ≡ decode_v2 (
          bytes (encode_v2 (record { stored = record d { content = c }; changed_at = t })).datagram)
unfolding encode_v2
encode_v2-dispatch d t (numeric n) time ok =
    decode-encoded (record { stored = record d { content = numeric n }; changed_at = t })
      numeric_type (numeric_payload n) ok time
encode_v2-dispatch d t (text s) time ok =
    decode-encoded (record { stored = record d { content = text s }; changed_at = t }) string_type s
      ok time
encode_v2-dispatch d t valueless time ok = absurd cc

-- A record with a key and a numeric value of 32 bits and a time of 64 bits, or with a string, that
-- is encoded in version 2 with success is decoded to itself: key, description, value, state and
-- time, and strings with every byte, NUL included.
pub decode-encode_v2 :
    (r : WireRecord)
    → IsKey r.stored.key
    → IsTime r.changed_at
    → IsValue r.stored.content
    → (encode r v2).status ≡ success
    → decode (bytes (encode r v2).datagram) ≡ v2_record r
unfolding encode
decode-encode_v2 r k t v ok =
    encode_v2-dispatch r.stored r.changed_at r.stored.content t ok
    ∙ decode_v2_content r.stored r.changed_at r.stored.content k t v ok
