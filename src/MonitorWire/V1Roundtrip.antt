-- ===== src/MonitorWire/V1Roundtrip.antt =====
-- Version 1: decoding what `encode_v1` built.
use cpp_tlfss.Base.{
  ℕ, suc, ◌+◌, ◌≤◌, List, [], ◌∷◌, ◌++◌, ltb, ◌==◌, length, set, take, drop, replicate, copy_into,
  ◌≡◌, refl, arith, ap, ◌∙◌, sym, if-keeps, replicate-add, copy_into_at, copy_into_nil,
  length-replicate, append_assoc, length-append, length-take, take-append, drop-append, le→ltb, ap₂,
  subst, set-append, ℤ,
}
use cpp_tlfss.AlarmProtocol.Types.{bytes}
use cpp_tlfss.AlarmProtocol.Fields.{put_u32, get_u32}
use cpp_tlfss.AlarmProtocol.FieldLaws.{get_u32-put_u32}
use cpp_tlfss.MonitorStore.Data.{
  MonitorKey, MonitorData, MonitorValue, NumericValue, numeric, text, valueless,
}
use cpp_tlfss.MonitorWire.Types.{
  v1, WireValueType, numeric_type, string_type, value_type_code, success, WireRecord, EncodeResult,
}
use cpp_tlfss.MonitorWire.V1.{
  write_v1_header, read_v1_key, find_nul, encode_v1_numeric, encode_v1_string, encode_v1, v1_record,
  decode_v1_string, decode_v1_bytes, decode_v1,
}
use cpp_tlfss.MonitorWire.V2Header.{IsKey, IsValue}
use cpp_tlfss.MonitorWire.Codec.{encode, decode}

-- The eighteen bytes of the header.
abbrev pub v1_header : WireValueType → MonitorKey → List ℕ
v1_header type key =
    (1 ∷ value_type_code type ∷ [])
    ++ (put_u32 key.mid ++ (put_u32 key.fid ++ (put_u32 key.eid ++ put_u32 key.level)))

pub encode_v1_numeric-layout :
    (key : MonitorKey) (n : NumericValue)
    → encode_v1_numeric key n ≡ v1_header numeric_type key ++ (put_u32 n.value ++ put_u32 n.state)
unfolding encode_v1_numeric write_v1_header put_u32
encode_v1_numeric-layout key n = refl

module _ (type : WireValueType) (key : MonitorKey) (rest : List ℕ) (k : IsKey key) where
  v1_mid : get_u32 (drop 2 (v1_header type key ++ rest)) ≡ key.mid
  unfolding put_u32
  v1_mid = get_u32-put_u32 key.mid (drop 6 (v1_header type key ++ rest)) k.mid

  v1_fid : get_u32 (drop 6 (v1_header type key ++ rest)) ≡ key.fid
  unfolding put_u32
  v1_fid = get_u32-put_u32 key.fid (drop 10 (v1_header type key ++ rest)) k.fid

  v1_eid : get_u32 (drop 10 (v1_header type key ++ rest)) ≡ key.eid
  unfolding put_u32
  v1_eid = get_u32-put_u32 key.eid (drop 14 (v1_header type key ++ rest)) k.eid

  v1_level : get_u32 (drop 14 (v1_header type key ++ rest)) ≡ key.level
  unfolding put_u32
  v1_level = get_u32-put_u32 key.level rest k.level

  read_v1_key-header : read_v1_key (v1_header type key ++ rest) ≡ key
  unfolding read_v1_key
  read_v1_key-header = rw (v1_mid, v1_fid, v1_eid, v1_level)

pub length-v1_header : (type : WireValueType) (key : MonitorKey) → length (v1_header type key) ≡ 18
unfolding put_u32
length-v1_header type key = refl

module _ (key : MonitorKey) (n : NumericValue) (v : IsValue (numeric n)) where
  abbrev numeric_bytes : List ℕ
  numeric_bytes = v1_header numeric_type key ++ (put_u32 n.value ++ put_u32 n.state)

  v1_value : get_u32 (drop 18 numeric_bytes) ≡ n.value
  unfolding put_u32
  v1_value = get_u32-put_u32 n.value (put_u32 n.state) v.0

  v1_state : get_u32 (drop 22 numeric_bytes) ≡ n.state
  unfolding put_u32
  v1_state = get_u32-put_u32 n.state [] v.1

  length-numeric_bytes : length numeric_bytes ≡ 26
  unfolding put_u32
  length-numeric_bytes = refl

  decode_v1-numeric : IsKey key → decode_v1 (bytes numeric_bytes) ≡ v1_record key (numeric n)
  unfolding decode_v1 decode_v1_bytes
  decode_v1-numeric k =
      rw
        (
          read_v1_key-header numeric_type key (put_u32 n.value ++ put_u32 n.state) k,
          length-numeric_bytes,
        )
        (ap₂ (λ a b. v1_record key (numeric (record { value = a; state = b }))) v1_value v1_state)

-- The content that version 1 carries of a string: what stands before its first NUL.
abbrev pub v1_content : List ℕ → List ℕ
v1_content s = take (find_nul s) s

find_nul-le : (s : List ℕ) → find_nul s ≤ length s
unfolding find_nul
find_nul-le [] = omega arith
find_nul-le (x ∷ s) =
    if-keeps (λ n. n ≤ suc (length s)) (x == 0) (λ _. omega arith)
      (λ _. omega (arith, find_nul-le s))

-- The NUL that ends a content is its first.
find_nul-content : (s : List ℕ) → find_nul (v1_content s ++ (0 ∷ [])) ≡ find_nul s
unfolding find_nul
find_nul-content [] = refl
find_nul-content (x ∷ s) =
    if-keeps (λ n. find_nul (take n (x ∷ s) ++ (0 ∷ [])) ≡ n) (x == 0) (λ _. refl)
      (λ e.
        subst (λ n. find_nul (take n (x ∷ s) ++ (0 ∷ [])) ≡ n) (sym next)
          (rw (e, find_nul-content s) next))
  where
    next : find_nul s + 1 ≡ suc (find_nul s)
    next = omega arith

module _ (key : MonitorKey) (s : List ℕ) where
  abbrev pub string_bytes : List ℕ
  string_bytes = v1_header string_type key ++ (v1_content s ++ (0 ∷ []))

  write_v1_header-zeros :
      (k : ℕ)
      → write_v1_header (replicate (18 + k) 0) string_type key
        ≡ v1_header string_type key ++ replicate k 0
  unfolding write_v1_header put_u32
  write_v1_header-zeros k =
      ap (λ l. write_v1_header l string_type key) (replicate-add 18 k 0)
      ∙ ap (λ l. v1_header string_type key ++ l) (copy_into_nil (replicate k 0))

  length-v1_content : length (v1_content s) ≡ find_nul s
  length-v1_content = omega (arith, length-take (find_nul s) s, find_nul-le s)

  pub encode_v1_string-layout : encode_v1_string key s (find_nul s) ≡ string_bytes
  unfolding encode_v1_string
  encode_v1_string-layout =
      ap (λ l. set (copy_into l 18 (v1_content s)) (18 + c) 0)
        (ap (λ n. write_v1_header (replicate n 0) string_type key) grouped
          ∙ write_v1_header-zeros (c + 1)
          ∙ ap (λ l. header ++ l) (replicate-add c 1 0))
      ∙ ap (λ l. set l (18 + c) 0)
          (copy_into_at 18 header (replicate c 0) (0 ∷ []) (v1_content s)
            (length-v1_header string_type key) (length-v1_content ∙ sym (length-replicate c 0)))
      ∙ ap (λ l. set l (18 + c) 0) (sym (append_assoc header (v1_content s) (0 ∷ [])))
      ∙ set-append (18 + c) (header ++ v1_content s) [] 0 0 (
          omega (
            arith,
            length-append header (v1_content s),
            length-v1_header string_type key,
            length-v1_content,
          ))
      ∙ append_assoc header (v1_content s) (0 ∷ [])
    where
      c : ℕ
      c = find_nul s

      header : List ℕ
      header = v1_header string_type key

      grouped : 18 + c + 1 ≡ 18 + (c + 1)
      grouped = omega arith

  pub length-string_bytes : length string_bytes ≡ 19 + find_nul s
  length-string_bytes = omega (
    arith,
    length-append (v1_header string_type key) (v1_content s ++ (0 ∷ [])),
    length-append (v1_content s) (0 ∷ []),
    length-v1_header string_type key,
    length-v1_content,
  )

  drop-string_bytes : drop 18 string_bytes ≡ v1_content s ++ (0 ∷ [])
  drop-string_bytes =
      drop-append 18 (v1_header string_type key) (v1_content s ++ (0 ∷ []))
        (length-v1_header string_type key)

  decode_v1_string-layout :
      find_nul s ≤ 63
      → IsKey key
      → decode_v1_string string_bytes ≡ v1_record key (text (v1_content s))
  unfolding decode_v1_string
  decode_v1_string-layout h k = rw (
    drop-string_bytes,
    find_nul-content s,
    le→ltb 63 (find_nul s) h,
    read_v1_key-header string_type key (v1_content s ++ (0 ∷ [])) k,
    take-append (find_nul s) (v1_content s) (0 ∷ []) length-v1_content,
  )

  decode_v1-string :
      find_nul s ≤ 63
      → IsKey key
      → decode_v1 (bytes string_bytes) ≡ v1_record key (text (v1_content s))
  unfolding decode_v1 decode_v1_bytes
  decode_v1-string h k =
      rw
        (
          length-string_bytes,
          le→ltb (19 + find_nul s) 18 (omega arith),
          le→ltb 82 (19 + find_nul s) (omega arith),
        )
        (decode_v1_string-layout h k)

-- What version 1 brings of a value: a string up to its first NUL.
abbrev pub v1_value_of : MonitorValue → MonitorValue
v1_value_of (numeric n) = numeric n
v1_value_of (text s) = text (v1_content s)
v1_value_of valueless = valueless

-- A datagram that begins with a one goes to `decode_v1`.
decode_one : (xs : List ℕ) → decode (bytes (1 ∷ xs)) ≡ decode_v1 (bytes (1 ∷ xs))
unfolding decode
decode_one xs = refl

decode-encode_v1_content :
    (d : MonitorData) (t : ℤ) (c : MonitorValue)
    → IsKey d.key
    → IsValue c
    → (encode_v1 (record { stored = record d { content = c }; changed_at = t })).status ≡ success
    → decode
        (bytes (encode_v1 (record { stored = record d { content = c }; changed_at = t })).datagram)
      ≡ v1_record d.key (v1_value_of c)
unfolding encode_v1
decode-encode_v1_content d t (numeric n) k v = λ ok.
    ap (λ l. decode (bytes l)) (encode_v1_numeric-layout d.key n)
    ∙ decode_one _
    ∙ decode_v1-numeric d.key n v k
decode-encode_v1_content d t (text s) k v =
    if-keeps
      (λ (o : EncodeResult).
        o.status ≡ success → decode (bytes o.datagram) ≡ v1_record d.key (text (v1_content s)))
      (ltb 63 (find_nul s)) (λ _ e. absurd cc)
      (λ e _.
        ap (λ l. decode (bytes l)) (encode_v1_string-layout d.key s)
        ∙ decode_one _
        ∙ decode_v1-string d.key s (ground arith) k)
decode-encode_v1_content d t valueless k v = absurd v

-- A record with a key and a numeric value of 32 bits, or with a string, that is encoded in version 1
-- with success is decoded to its key and its value, a string cut at its first NUL; the description
-- is empty and there is no time.
pub decode-encode_v1 :
    (r : WireRecord)
    → IsKey r.stored.key
    → IsValue r.stored.content
    → (encode r v1).status ≡ success
    → decode (bytes (encode r v1).datagram) ≡ v1_record r.stored.key (v1_value_of r.stored.content)
unfolding encode
decode-encode_v1 r k v ok = decode-encode_v1_content r.stored r.changed_at r.stored.content k v ok
