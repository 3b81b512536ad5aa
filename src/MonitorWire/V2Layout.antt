-- ===== src/MonitorWire/V2Layout.antt =====
-- The header of version 2 as a concatenation of its fields, and the fields as they are read.
use cpp_tlfss.Base.{
  ℕ, ◌+◌, ◌-◌, ◌^◌, ◌≤◌, ◌<◌, List, [], ◌∷◌, ◌++◌, length, drop, replicate, copy_into, ℤ, pos,
  negsuc, ◌≡◌, refl, arith, ap, ◌∙◌, sym, replicate-add, copy_into_at, copy_into_nil, copy_into_end,
  length-replicate, ==_refl, le→ltb,
}
use cpp_tlfss.AlarmProtocol.Fields.{put_u16, put_u32, put_u64, get_u16, get_u32}
use cpp_tlfss.AlarmProtocol.FieldLaws.{get_u32-put_u32, get_u64-put_u64}
use cpp_tlfss.MonitorStore.Data.{MonitorKey}
use cpp_tlfss.MonitorWire.Types.{
  v2_header_size, WireValueType, value_type_code, success, WireRecord,
}
use cpp_tlfss.MonitorWire.Time.{
  split_timestamp, IsTime, to_bits, put_i64_twos_complement, from_bits, get_i64_twos_complement,
  split_timestamp-fits, from_bits-to_bits,
}
use cpp_tlfss.MonitorWire.V2.{v2_fields, write_v2_header, encode_v2_value}

get_u16-put_u16 : (v : ℕ) (rest : List ℕ) → v < 2 ^ 16 → get_u16 (put_u16 v ++ rest) ≡ v
unfolding get_u16 put_u16
get_u16-put_u16 v rest h = omega arith

to_bits-lt : (t : ℤ) → IsTime t → to_bits t < 2 ^ 64
to_bits-lt (pos n) h = omega arith
to_bits-lt (negsuc n) h = omega arith

get_i64-put_i64 :
    (t : ℤ) (rest : List ℕ)
    → IsTime t
    → get_i64_twos_complement (put_i64_twos_complement t ++ rest) ≡ t
unfolding get_i64_twos_complement put_i64_twos_complement
get_i64-put_i64 t rest h =
    ap from_bits (get_u64-put_u64 (to_bits t) rest (to_bits-lt t h)) ∙ from_bits-to_bits t h

module _ (code total : ℕ) (key : MonitorKey) (seconds : ℤ) (ns dlen vlen : ℕ) where
  -- The forty bytes of the header.
  abbrev pub header_bytes : List ℕ
  header_bytes =
      (2 ∷ code ∷ [])
      ++ (put_u16 0
          ++ (put_u16 total
              ++ (put_u16 40
                  ++ (put_u32 key.mid
                      ++ (put_u32 key.level
                          ++ (put_u32 key.fid
                              ++ (put_u32 key.eid
                                  ++ (put_i64_twos_complement seconds
                                      ++ (put_u32 ns ++ (put_u16 dlen ++ put_u16 vlen))))))))))

  pub length-header_bytes : length header_bytes ≡ 40
  unfolding put_u16 put_u32 put_u64 put_i64_twos_complement
  length-header_bytes = refl

  module _ (rest : List ℕ) where
    pub flags-header : get_u16 (drop 2 (header_bytes ++ rest)) ≡ 0
    unfolding put_u16 put_u32 put_u64 put_i64_twos_complement get_u16
    flags-header = refl

    pub header_length-header : get_u16 (drop 6 (header_bytes ++ rest)) ≡ 40
    unfolding put_u16 put_u32 put_u64 put_i64_twos_complement get_u16
    header_length-header = refl

    pub total-header : total < 2 ^ 16 → get_u16 (drop 4 (header_bytes ++ rest)) ≡ total
    unfolding put_u16 put_u32 put_u64 put_i64_twos_complement
    total-header h = get_u16-put_u16 total (drop 6 (header_bytes ++ rest)) h

    pub mid-header : key.mid < 2 ^ 32 → get_u32 (drop 8 (header_bytes ++ rest)) ≡ key.mid
    unfolding put_u16 put_u32 put_u64 put_i64_twos_complement
    mid-header h = get_u32-put_u32 key.mid (drop 12 (header_bytes ++ rest)) h

    pub level-header : key.level < 2 ^ 32 → get_u32 (drop 12 (header_bytes ++ rest)) ≡ key.level
    unfolding put_u16 put_u32 put_u64 put_i64_twos_complement
    level-header h = get_u32-put_u32 key.level (drop 16 (header_bytes ++ rest)) h

    pub fid-header : key.fid < 2 ^ 32 → get_u32 (drop 16 (header_bytes ++ rest)) ≡ key.fid
    unfolding put_u16 put_u32 put_u64 put_i64_twos_complement
    fid-header h = get_u32-put_u32 key.fid (drop 20 (header_bytes ++ rest)) h

    pub eid-header : key.eid < 2 ^ 32 → get_u32 (drop 20 (header_bytes ++ rest)) ≡ key.eid
    unfolding put_u16 put_u32 put_u64 put_i64_twos_complement
    eid-header h = get_u32-put_u32 key.eid (drop 24 (header_bytes ++ rest)) h

    pub seconds-header :
        IsTime seconds → get_i64_twos_complement (drop 24 (header_bytes ++ rest)) ≡ seconds
    unfolding put_u16 put_u32 put_u64 put_i64_twos_complement
    seconds-header h = get_i64-put_i64 seconds (drop 32 (header_bytes ++ rest)) h

    pub ns-header : ns < 2 ^ 32 → get_u32 (drop 32 (header_bytes ++ rest)) ≡ ns
    unfolding put_u16 put_u32 put_u64 put_i64_twos_complement
    ns-header h = get_u32-put_u32 ns (drop 36 (header_bytes ++ rest)) h

    pub dlen-header : dlen < 2 ^ 16 → get_u16 (drop 36 (header_bytes ++ rest)) ≡ dlen
    unfolding put_u16 put_u32 put_u64 put_i64_twos_complement
    dlen-header h = get_u16-put_u16 dlen (drop 38 (header_bytes ++ rest)) h

    pub vlen-header : vlen < 2 ^ 16 → get_u16 (drop 38 (header_bytes ++ rest)) ≡ vlen
    unfolding put_u16 put_u32 put_u64 put_i64_twos_complement
    vlen-header h = get_u16-put_u16 vlen rest h

-- The header of a record whose value has a given type and length.
abbrev pub record_header : WireRecord → WireValueType → ℕ → List ℕ
record_header r type n =
    header_bytes (value_type_code type) (v2_header_size + length r.stored.description + n)
      r.stored.key (split_timestamp r.changed_at).seconds (split_timestamp r.changed_at).nanoseconds
      (length r.stored.description) n

v2_fields-header :
    (r : WireRecord) (type : WireValueType) (n k : ℕ)
    → v2_fields (replicate (40 + k) 0) r type (v2_header_size + length r.stored.description + n) n
      ≡ record_header r type n ++ replicate k 0
unfolding v2_fields put_u16 put_u32 put_u64 put_i64_twos_complement
v2_fields-header r type n k =
    ap (λ l. v2_fields l r type (v2_header_size + length r.stored.description + n) n)
      (replicate-add 40 k 0)
    ∙ ap (λ l. record_header r type n ++ l) (copy_into_nil (replicate k 0))

-- A record whose description and value fit into a datagram.
pub record Fits (r : WireRecord) (value : List ℕ) : Type 0 where
  pub room : length r.stored.description + length value ≤ 1160
  pub time : IsTime r.changed_at

-- Such a record is encoded as its header, its description and its value.
pub encode_v2_value-layout :
    (r : WireRecord) (type : WireValueType) (value : List ℕ)
    → Fits r value
    → encode_v2_value r type value ≡ record {
      status = success;
      datagram = record_header r type (length value) ++ (r.stored.description ++ value);
    }
unfolding encode_v2_value write_v2_header
encode_v2_value-layout r type value f =
    rw
      (
        le→ltb 1160 d (omega (arith, f.room)),
        le→ltb (1160 - d) (length value) (omega (arith, f.room)),
        le→ltb (2 ^ 16 - 1) d (omega (arith, f.room)),
        le→ltb (2 ^ 16 - 1) (length value) (omega (arith, f.room)),
        le→ltb 1200 (40 + d + length value) (omega (arith, f.room)),
        length-replicate {A = ℕ} (40 + d + length value) 0,
        ==_refl (40 + d + length value),
        (split_timestamp-fits r.changed_at f.time).2,
      )
      (ap (λ l. record { status = success; datagram = l }) filled)
  where
    d : ℕ
    d = length r.stored.description

    n : ℕ
    n = length value

    header : List ℕ
    header = record_header r type n

    copies : List ℕ → List ℕ
    copies l = copy_into (copy_into l 40 r.stored.description) (40 + d) value

    grouped : 40 + d + n ≡ 40 + (d + n)
    grouped = omega arith

    filled :
        copies (v2_fields (replicate (40 + d + n) 0) r type (40 + d + n) n)
        ≡ header ++ (r.stored.description ++ value)
    filled =
        ap (λ k. copies (v2_fields (replicate k 0) r type (40 + d + n) n)) grouped
        ∙ ap copies
            (v2_fields-header r type n (d + n) ∙ ap (λ l. header ++ l) (replicate-add d n 0))
        ∙ ap (λ l. copy_into l (40 + d) value)
            (copy_into_at 40 header (replicate d 0) (replicate n 0) r.stored.description length40
              (sym (length-replicate d 0)))
        ∙ copy_into_end (40 + d) header r.stored.description (replicate n 0) value
            (omega (arith, length40)) (sym (length-replicate n 0))
      where
        length40 : length header ≡ 40
        length40 =
            length-header_bytes (value_type_code type) (40 + d + n) r.stored.key
              (split_timestamp r.changed_at).seconds (split_timestamp r.changed_at).nanoseconds d n
