-- ===== src/AlarmProtocol/Detect.antt =====
-- The checksum against the change of one byte.
use cpp_tlfss.Base.{
  ℕ, suc, ◌+◌, ◌-◌, ◌≤◌, ◌<◌, ◌≡◌, ◌≢◌, List, ◌∷◌, ◌++◌, arith, length, take, drop, Bytes, ap, ap₂,
  ◌∙◌, sym, Bool, some, none, inl, inr, length-drop, length-append, All-drop, All-take, IsByte,
  take-before, drop-before, take-past, drop-past, append-cancel, bit_xor, bit_xor-injective,
  Option-cases, dec_lt, take-length, append_assoc, All-front, All-back, All-append,
}
use cpp_tlfss.AlarmProtocol.Types.{AlarmFrame, bytes}
use cpp_tlfss.AlarmProtocol.Fields.{put_u32, get_u32}
use cpp_tlfss.AlarmProtocol.FieldLaws.{put_u32-get_u32, get_u32-append}
use cpp_tlfss.AlarmProtocol.Checksum.{calculate_frame_crc, crc32_update, crc32_initial}
use cpp_tlfss.AlarmProtocol.ChecksumLaws.{crc32_update-append, crc32_update-differ}
use cpp_tlfss.AlarmProtocol.Frame.{decode_alarm_frame}
use cpp_tlfss.AlarmProtocol.Canonical.{Accepted, decode-Accepted}

-- The bytes that the checksum covers.
covered : List ℕ → List ℕ
covered xs = take 44 xs ++ drop 48 xs

calculate-covered :
    (xs : List ℕ)
    → calculate_frame_crc xs (length xs - 48)
      ≡ bit_xor (crc32_update crc32_initial (covered xs)) crc32_initial
unfolding calculate_frame_crc covered
calculate-covered xs =
    ap (λ l. bit_xor (crc32_update (crc32_update crc32_initial (take 44 xs)) l) crc32_initial)
      (take-length (length xs - 48) (drop 48 xs) (omega (arith, length-drop 48 xs)))
    ∙ ap (λ c. bit_xor c crc32_initial)
        (sym (crc32_update-append crc32_initial (take 44 xs) (drop 48 xs)))

module _ (pre post : List ℕ) (hp : Bytes pre) (hq : Bytes post) where
  put : ℕ → List ℕ
  put a = pre ++ (a ∷ post)

  -- A covered byte: the two sets of covered bytes differ in it alone.
  same_crc :
      (us vs : List ℕ) (a b : ℕ)
      → Bytes us
      → Bytes vs
      → a < 256
      → b < 256
      → covered (put a) ≡ us ++ (a ∷ vs)
      → covered (put b) ≡ us ++ (b ∷ vs)
      → calculate_frame_crc (put a) (length (put a) - 48)
        ≡ calculate_frame_crc (put b) (length (put b) - 48)
      → a ≡ b
  same_crc us vs a b hu hv ha hb ea eb e =
      crc32_update-differ crc32_initial us vs a b (omega arith) hu hv ha hb (
        ap (crc32_update crc32_initial) (sym ea)
        ∙ bit_xor-injective _ _ crc32_initial
            (sym (calculate-covered (put a)) ∙ e ∙ calculate-covered (put b))
        ∙ ap (crc32_update crc32_initial) eb)

  -- The byte lies in front of the checksum field.
  in_header :
      (k : ℕ)
      → length pre + suc k ≡ 44
      → (a : ℕ)
      → (covered (put a) ≡ pre ++ (a ∷ (take k post ++ drop (k + 4) post)))
        × (drop 44 (put a) ≡ drop k post)
  unfolding covered put
  in_header k e a = (
    ap₂ ◌++◌ (ap (λ n. take n (pre ++ (a ∷ post))) (sym e) ∙ take-past k pre a post)
          (ap (λ n. drop n (pre ++ (a ∷ post))) behind ∙ drop-past (k + 4) pre a post)
        ∙ append_assoc pre (a ∷ take k post) (drop (k + 4) post),
    ap (λ n. drop n (pre ++ (a ∷ post))) (sym e) ∙ drop-past k pre a post,
  )
    where
      behind : 48 ≡ length pre + suc (k + 4)
      behind = omega arith

  -- The byte lies in the checksum field.
  in_crc :
      (k : ℕ)
      → length pre + suc k ≡ 48
      → 44 ≤ length pre
      → (a : ℕ)
      → (covered (put a) ≡ take 44 pre ++ drop k post)
        × (drop 44 (put a) ≡ drop 44 pre ++ (a ∷ post))
  unfolding covered put
  in_crc k e h a = (
    ap₂ ◌++◌ (take-before 44 pre (a ∷ post) h)
        (ap (λ n. drop n (pre ++ (a ∷ post))) (sym e) ∙ drop-past k pre a post),
    drop-before 44 pre (a ∷ post) h,
  )

  -- The byte lies in the payload.
  in_payload :
      48 ≤ length pre
      → (a : ℕ)
      → (covered (put a) ≡ (take 44 pre ++ drop 48 pre) ++ (a ∷ post))
        × (get_u32 (drop 44 (put a)) ≡ get_u32 (drop 44 pre))
  unfolding covered put
  in_payload h a = (
    ap₂ ◌++◌ (take-before 44 pre (a ∷ post) (omega arith)) (drop-before 48 pre (a ∷ post) h)
        ∙ sym (append_assoc (take 44 pre) (drop 48 pre) (a ∷ post)),
    ap get_u32 (drop-before 44 pre (a ∷ post) (omega arith))
        ∙ get_u32-append (drop 44 pre) (a ∷ post) (omega (arith, length-drop 44 pre)),
  )

  -- Two accepted buffers that may differ in one byte do not.
  module _ (a b : ℕ) (ha : a < 256) (hb : b < 256) (ok : Accepted (put a))
      (ok' : Accepted (put b)) where
    length-put : (x : ℕ) → length (put x) ≡ length pre + suc (length post)
    unfolding put
    length-put x = length-append pre (x ∷ post)

    crc_eq :
        get_u32 (drop 44 (put a)) ≡ get_u32 (drop 44 (put b))
        → calculate_frame_crc (put a) (length (put a) - 48)
          ≡ calculate_frame_crc (put b) (length (put b) - 48)
    crc_eq e = sym ok.crc ∙ e ∙ ok'.crc

    header_case : (k : ℕ) → length pre + suc k ≡ 44 → a ≡ b
    header_case k e =
        let (ca, da) = in_header k e a in
        let (cb, db) = in_header k e b in
        same_crc pre (take k post ++ drop (k + 4) post) a b hp
          (All-append IsByte (take k post) (drop (k + 4) post) (All-take IsByte k post hq)
            (All-drop IsByte (k + 4) post hq))
          ha hb ca cb (crc_eq (ap get_u32 (da ∙ sym db)))

    payload_case : 48 ≤ length pre → a ≡ b
    payload_case h =
        let (ca, da) = in_payload h a in
        let (cb, db) = in_payload h b in
        same_crc (take 44 pre ++ drop 48 pre) post a b
          (All-append IsByte (take 44 pre) (drop 48 pre) (All-take IsByte 44 pre hp)
            (All-drop IsByte 48 pre hp))
          hq ha hb ca cb (crc_eq (da ∙ sym db))

    crc_case : (k : ℕ) → length pre + suc k ≡ 48 → 44 ≤ length pre → a ≡ b
    crc_case k e h = head_eq (append-cancel (drop 44 pre) (sym (four a) ∙ first ∙ four b))
      where
        head_eq : {us vs : List ℕ} → a ∷ us ≡ b ∷ vs → a ≡ b
        head_eq p = cc

        fields : get_u32 (drop 44 (put a)) ≡ get_u32 (drop 44 (put b))
        fields =
            ok.crc
            ∙ calculate-covered (put a)
            ∙ ap (λ l. bit_xor (crc32_update crc32_initial l) crc32_initial)
                ((in_crc k e h a).0 ∙ sym (in_crc k e h b).0)
            ∙ sym (calculate-covered (put b))
            ∙ sym ok'.crc

        bytes_at : (x : ℕ) → x < 256 → Bytes (drop 44 (put x))
        bytes_at x hx =
            All-drop IsByte 44 (put x) (unfold put in All-append IsByte pre (x ∷ post) hp (hx, hq))

        first : take 4 (drop 44 (put a)) ≡ take 4 (drop 44 (put b))
        first =
            sym (
              put_u32-get_u32 (drop 44 (put a)) (bytes_at a ha)
                (omega (arith, length-drop 44 (put a), ok.header.whole)))
            ∙ ap put_u32 fields
            ∙ put_u32-get_u32 (drop 44 (put b)) (bytes_at b hb)
                (omega (arith, length-drop 44 (put b), ok'.header.whole))

        span : 4 ≡ length (drop 44 pre) + suc k
        span = omega (arith, length-drop 44 pre)

        four : (x : ℕ) → take 4 (drop 44 (put x)) ≡ drop 44 pre ++ (x ∷ take k post)
        four x =
            ap (take 4) (in_crc k e h x).1
            ∙ ap (λ n. take n (drop 44 pre ++ (x ∷ post))) span
            ∙ take-past k (drop 44 pre) x post

    same_byte : a ≡ b
    same_byte = elim (dec_lt (length pre) 44) [
      | yes p ↦ header_case (43 - length pre) (omega arith)
      | no p ↦ elim (dec_lt (length pre) 48) [
        | yes q ↦ crc_case (47 - length pre) (omega arith) (omega arith)
        | no q ↦ payload_case (omega arith)
      ]
    ]

-- If a buffer of bytes is decoded, then the buffer with one byte replaced by another is not,
-- wherever in the envelope that byte stands.
pub decode-detects :
    (alloc alloc' : Bool) (pre post : List ℕ) (a b : ℕ) (f : AlarmFrame)
    → Bytes (pre ++ (a ∷ post))
    → b < 256
    → a ≢ b
    → (decode_alarm_frame alloc (bytes (pre ++ (a ∷ post)))).frame ≡ some f
    → (decode_alarm_frame alloc' (bytes (pre ++ (b ∷ post)))).frame ≡ none
unfolding put
decode-detects alloc alloc' pre post a b f ok hb ne e =
    elim (Option-cases (decode_alarm_frame alloc' (bytes (pre ++ (b ∷ post)))).frame) [
      | inl p ↦ p
      | inr (g, p) ↦ absurd (
          ne (
            same_byte pre post (All-front IsByte pre (a ∷ post) ok)
              (All-back IsByte pre (a ∷ post) ok).1 a b (All-back IsByte pre (a ∷ post) ok).0 hb
              (decode-Accepted alloc _ f e).0 (decode-Accepted alloc' _ g p).0))
    ]
