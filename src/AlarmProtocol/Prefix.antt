-- ===== src/AlarmProtocol/Prefix.antt =====
-- The frame size of a buffer and of its header.
use cpp_tlfss.Base.{
  ℕ, zero, suc, ◌≤◌, ◌<◌, ◌≡◌, refl, List, [], ◌∷◌, ◌++◌, arith, length, get_or, drop, ap, ◌∙◌,
  le→ltb, length-append, take-before, drop-before, length-drop,
}
use cpp_tlfss.AlarmProtocol.Types.{bytes}
use cpp_tlfss.AlarmProtocol.Fields.{get_u16, get_u32}
use cpp_tlfss.AlarmProtocol.FieldLaws.{get_u32-append}
use cpp_tlfss.AlarmProtocol.Frame.{header_frame_size, alarm_frame_size, has_valid_magic}

get_or-append : (xs ys : List ℕ) (i d : ℕ) → i < length xs → get_or (xs ++ ys) i d ≡ get_or xs i d
get_or-append [] ys i d h = absurd (omega arith)
get_or-append (x ∷ xs) ys zero d h = refl
get_or-append (x ∷ xs) ys (suc i) d h = get_or-append xs ys i d (omega arith)

get_u16-append : (xs ys : List ℕ) → 2 ≤ length xs → get_u16 (xs ++ ys) ≡ get_u16 xs
unfolding get_u16
get_u16-append (a ∷ b ∷ xs) ys h = refl
get_u16-append xs ys h = absurd (omega arith)

module _ (h rest : List ℕ) (whole : 48 ≤ length h) where
  magic_field : has_valid_magic (h ++ rest) ≡ has_valid_magic h
  unfolding has_valid_magic
  magic_field = rw (take-before 4 h rest (omega arith))

  flags_field : get_u16 (drop 6 (h ++ rest)) ≡ get_u16 (drop 6 h)
  flags_field =
      ap get_u16 (drop-before 6 h rest (omega arith))
      ∙ get_u16-append (drop 6 h) rest (omega (arith, length-drop 6 h))

  length_field : get_u32 (drop 8 (h ++ rest)) ≡ get_u32 (drop 8 h)
  length_field =
      ap get_u32 (drop-before 8 h rest (omega arith))
      ∙ get_u32-append (drop 8 h) rest (omega (arith, length-drop 8 h))

  pub header_frame_size-append : header_frame_size (h ++ rest) ≡ header_frame_size h
  unfolding header_frame_size
  header_frame_size-append = rw (
    le→ltb (length (h ++ rest)) 48 (omega (arith, length-append h rest)),
    le→ltb (length h) 48 whole,
    magic_field,
    get_or-append h rest 4 0 (omega arith),
    get_or-append h rest 5 0 (omega arith),
    flags_field,
    length_field,
  )

-- A whole header is not an empty input.
pub alarm_frame_size-header :
    (xs : List ℕ) → 48 ≤ length xs → alarm_frame_size (bytes xs) ≡ header_frame_size xs
unfolding alarm_frame_size
alarm_frame_size-header [] h = absurd (omega arith)
alarm_frame_size-header (x ∷ xs) h = refl
