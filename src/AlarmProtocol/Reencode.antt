-- ===== src/AlarmProtocol/Reencode.antt =====
-- The encoding of the frame that a buffer decodes to.
use cpp_tlfss.Base.{
  ℕ, zero, suc, ◌+◌, ◌-◌, ◌≤◌, ◌≡◌, refl, List, [], ◌∷◌, ◌++◌, arith, length, get_or, take, drop,
  Bytes, ap, ap₂, ◌∙◌, sym, true, Bool, some, take-append-drop, length-drop, length-take, All-drop,
  append_assoc, IsByte,
}
use cpp_tlfss.AlarmProtocol.Types.{AlarmFrame, alarm_magic, type_code, type_of_code, success, bytes}
use cpp_tlfss.AlarmProtocol.Fields.{put_u16, put_u32, put_u64, get_u32, get_u64}
use cpp_tlfss.AlarmProtocol.FieldLaws.{put_u16-get_u16, put_u32-get_u32, put_u64-get_u64}
use cpp_tlfss.AlarmProtocol.Checksum.{calculate_frame_crc}
use cpp_tlfss.AlarmProtocol.Frame.{
  encode_alarm_frame, validate_frame_description, decode_alarm_frame, read_frame, has_valid_magic,
  is_valid_raw_type, same_bytes,
}
use cpp_tlfss.AlarmProtocol.Layout.{layout, frame_crc, calculate_frame_crc-layout, encode-layout}
use cpp_tlfss.AlarmProtocol.Canonical.{Accepted, decode-Accepted}

drop-nil : (n : ℕ) → [] ≡ drop {A = ℕ} n []
drop-nil zero = refl
drop-nil (suc n) = refl

drop-drop : (k m : ℕ) (xs : List ℕ) → drop k (drop m xs) ≡ drop (m + k) xs
drop-drop k zero xs = let e : k ≡ 0 + k = omega arith in ap (λ n. drop n xs) e
drop-drop zero (suc m) [] = drop-nil (suc m + 0)
drop-drop (suc k) (suc m) [] = drop-nil (suc m + suc k)
drop-drop k (suc m) (x ∷ xs) =
    let e : suc (m + k) ≡ suc m + k = omega arith in drop-drop k m xs ∙ ap (λ n. drop n (x ∷ xs)) e

-- A field of `k` bytes at offset `m`, put back in front of what follows it.
join :
    (k m : ℕ) (xs field : List ℕ)
    → field ≡ take k (drop m xs)
    → field ++ drop (m + k) xs ≡ drop m xs
join k m xs field e = ap₂ ◌++◌ e (sym (drop-drop k m xs)) ∙ take-append-drop k (drop m xs)

same_bytes-eq : (xs ys : List ℕ) → same_bytes xs ys ≡ true → xs ≡ ys
same_bytes-eq [] [] e = refl
same_bytes-eq [] (y ∷ ys) e = cc
same_bytes-eq (x ∷ xs) [] e = cc
same_bytes-eq (x ∷ xs) (y ∷ ys) e = ground (arith, same_bytes-eq xs ys)

two_bytes : (xs : List ℕ) → 6 ≤ length xs → get_or xs 4 0 ∷ get_or xs 5 0 ∷ [] ≡ take 2 (drop 4 xs)
two_bytes (a ∷ b ∷ c ∷ d ∷ e ∷ f ∷ xs) h = refl
two_bytes xs h = absurd (omega arith)

raw_type : (c : ℕ) → is_valid_raw_type c ≡ true → type_code (type_of_code c) ≡ c
unfolding is_valid_raw_type type_code type_of_code
raw_type c h = ground arith

layout-right :
    (f : AlarmFrame) (crc : ℕ)
    → layout f crc
      ≡ alarm_magic
        ++ ((1 ∷ type_code f.type ∷ [])
            ++ (put_u16 0
                ++ (put_u32 (length f.payload)
                    ++ (put_u64 f.source_id
                        ++ (f.message_id
                            ++ (put_u64 f.timestamp_ms ++ (put_u32 crc ++ f.payload)))))))
layout-right f crc = simp append_assoc

module _ (xs : List ℕ) (ok : Accepted xs) (bs : Bytes xs) where
  room : (k m : ℕ) → m + k ≤ 48 → k ≤ length (drop m xs)
  room k m h = omega (arith, length-drop m xs, ok.header.whole)

  tail-Bytes : (m : ℕ) → Bytes (drop m xs)
  tail-Bytes m = All-drop IsByte m xs bs

  payload_length : length (drop 48 xs) ≡ get_u32 (drop 8 xs)
  payload_length = omega (arith, length-drop 48 xs, ok.header.size)

  -- The envelope of the frame that the buffer spells, with the checksum that it carries.
  layout-read : layout (read_frame xs) (get_u32 (drop 44 xs)) ≡ xs
  unfolding read_frame has_valid_magic
  layout-read =
      layout-right (read_frame xs) (get_u32 (drop 44 xs))
      ∙ ap (λ r. f4 ++ (f2 ++ (f6 ++ (f8 ++ (f12 ++ (f20 ++ (f36 ++ r))))))) e44
      ∙ ap (λ r. f4 ++ (f2 ++ (f6 ++ (f8 ++ (f12 ++ (f20 ++ r)))))) e36
      ∙ ap (λ r. f4 ++ (f2 ++ (f6 ++ (f8 ++ (f12 ++ r))))) (join 16 20 xs f20 refl)
      ∙ ap (λ r. f4 ++ (f2 ++ (f6 ++ (f8 ++ r)))) e12
      ∙ ap (λ r. f4 ++ (f2 ++ (f6 ++ r))) e8
      ∙ ap (λ r. f4 ++ (f2 ++ r)) e6
      ∙ ap (λ r. f4 ++ r) e4
      ∙ join 4 0 xs f4 (same_bytes-eq f4 (take 4 xs) ok.header.magic)
    where
      f4 : List ℕ
      f4 = alarm_magic

      f2 : List ℕ
      f2 = 1 ∷ type_code (type_of_code (get_or xs 5 0)) ∷ []

      f6 : List ℕ
      f6 = put_u16 0

      f8 : List ℕ
      f8 = put_u32 (length (drop 48 xs))

      f12 : List ℕ
      f12 = put_u64 (get_u64 (drop 12 xs))

      f20 : List ℕ
      f20 = take 16 (drop 20 xs)

      f36 : List ℕ
      f36 = put_u64 (get_u64 (drop 36 xs))

      e44 : put_u32 (get_u32 (drop 44 xs)) ++ drop 48 xs ≡ drop 44 xs
      e44 = join 4 44 xs _ (put_u32-get_u32 (drop 44 xs) (tail-Bytes 44) (room 4 44 (omega arith)))

      e36 : f36 ++ drop 44 xs ≡ drop 36 xs
      e36 =
          join 8 36 xs f36 (put_u64-get_u64 (drop 36 xs) (tail-Bytes 36) (room 8 36 (omega arith)))

      e12 : f12 ++ drop 20 xs ≡ drop 12 xs
      e12 =
          join 8 12 xs f12 (put_u64-get_u64 (drop 12 xs) (tail-Bytes 12) (room 8 12 (omega arith)))

      e8 : f8 ++ drop 12 xs ≡ drop 8 xs
      e8 = join 4 8 xs f8 (
          ap put_u32 payload_length
          ∙ put_u32-get_u32 (drop 8 xs) (tail-Bytes 8) (room 4 8 (omega arith)))

      e6 : f6 ++ drop 8 xs ≡ drop 6 xs
      e6 = join 2 6 xs f6 (
          ap put_u16 (sym ok.header.flags)
          ∙ put_u16-get_u16 (drop 6 xs) (tail-Bytes 6) (room 2 6 (omega arith)))

      e4 : f2 ++ drop 6 xs ≡ drop 4 xs
      e4 = join 2 4 xs f2 (
          ap₂ (λ x y. x ∷ y ∷ []) (sym ok.header.version) (raw_type (get_or xs 5 0) ok.header.type)
          ∙ two_bytes xs (omega (arith, ok.header.whole)))

  -- The frame that an accepted buffer spells can be encoded.
  read-valid :
      validate_frame_description (read_frame xs).type (length (read_frame xs).payload) ≡ success
  unfolding read_frame
  read-valid =
      ap (validate_frame_description (type_of_code (get_or xs 5 0))) payload_length
      ∙ ok.header.valid

  id_length : length (read_frame xs).message_id ≡ 16
  unfolding read_frame
  id_length = omega (arith, length-take 16 (drop 20 xs), length-drop 20 xs, ok.header.whole)

  same_crc : get_u32 (drop 44 xs) ≡ frame_crc (read_frame xs)
  same_crc =
      ok.crc
      ∙ ap₂ calculate_frame_crc (sym layout-read) size
      ∙ calculate_frame_crc-layout (read_frame xs) id_length (get_u32 (drop 44 xs))
    where
      size : length xs - 48 ≡ length (read_frame xs).payload
      size = sym (unfold read_frame in length-drop 48 xs)

  encode-read : encode_alarm_frame true (read_frame xs) ≡ record { status = success; bytes = xs }
  encode-read =
      encode-layout (read_frame xs) id_length read-valid
      ∙ ap (λ l. record { status = success; bytes = l })
          (ap (layout (read_frame xs)) (sym same_crc) ∙ layout-read)

-- A buffer of bytes that is decoded is, byte for byte, the encoding of the decoded frame.
pub encode-decode :
    (alloc : Bool) (xs : List ℕ) (f : AlarmFrame)
    → Bytes xs
    → (decode_alarm_frame alloc (bytes xs)).frame ≡ some f
    → encode_alarm_frame true f ≡ record { status = success; bytes = xs }
encode-decode alloc xs f bs e =
    let (ok, r) = decode-Accepted alloc xs f e in
    ap (encode_alarm_frame true) r ∙ encode-read xs ok bs
