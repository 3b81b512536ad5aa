-- ===== src/AlarmProtocol/FieldLaws.antt =====
-- The big-endian integers of the envelope: storing and reading back.
use cpp_tlfss.Base.{
  ℕ, suc, ◌+◌, ◌*◌, ◌/◌, ◌%◌, ◌^◌, ◌≤◌, ◌<◌, ◌≡◌, refl, List, [], ◌∷◌, ◌++◌, arith, length, take,
  Bytes, ap, ap₂, ◌∙◌,
}
use cpp_tlfss.AlarmProtocol.Fields.{
  put_u16, put_u32, put_u64, get_u16, get_u32, get_u64, get_u64_loop,
}

pub get_u32-put_u32 : (v : ℕ) (rest : List ℕ) → v < 2 ^ 32 → get_u32 (put_u32 v ++ rest) ≡ v
unfolding get_u32 put_u32
get_u32-put_u32 v rest h = omega arith

pub put_u32-get_u32 : (xs : List ℕ) → Bytes xs → 4 ≤ length xs → put_u32 (get_u32 xs) ≡ take 4 xs
unfolding get_u32 put_u32
put_u32-get_u32 (a ∷ b ∷ c ∷ d ∷ rest) h n = ground arith
put_u32-get_u32 [] h n = absurd (omega arith)
put_u32-get_u32 (a ∷ []) h n = absurd (omega arith)
put_u32-get_u32 (a ∷ b ∷ []) h n = absurd (omega arith)
put_u32-get_u32 (a ∷ b ∷ c ∷ []) h n = absurd (omega arith)

pub put_u16-get_u16 : (xs : List ℕ) → Bytes xs → 2 ≤ length xs → put_u16 (get_u16 xs) ≡ take 2 xs
unfolding get_u16 put_u16
put_u16-get_u16 (a ∷ b ∷ rest) h n = ground arith
put_u16-get_u16 [] h n = absurd (omega arith)
put_u16-get_u16 (a ∷ []) h n = absurd (omega arith)

-- Four bytes decide the value.
pub get_u32-append : (xs ys : List ℕ) → 4 ≤ length xs → get_u32 (xs ++ ys) ≡ get_u32 xs
unfolding get_u32
get_u32-append (a ∷ b ∷ c ∷ d ∷ xs) ys h = refl
get_u32-append xs ys h = absurd (omega arith)

-- One round of `get_u64` on a value that has room for a byte.
round :
    (n b v : ℕ) (rest : List ℕ)
    → v < 2 ^ 56
    → get_u64_loop (suc n) (b ∷ rest) v ≡ get_u64_loop n rest (v * 256 + b)
unfolding get_u64_loop
round n b v rest h = ap (get_u64_loop n rest) (omega arith)

-- Four rounds from a value below 2 ^ 32.
four :
    (n a b c d v : ℕ) (rest : List ℕ)
    → Bytes (a ∷ b ∷ c ∷ d ∷ [])
    → v < 2 ^ 32
    → get_u64_loop (4 + n) (a ∷ b ∷ c ∷ d ∷ rest) v
      ≡ get_u64_loop n rest (v * 2 ^ 32 + get_u32 (a ∷ b ∷ c ∷ d ∷ []))
unfolding get_u32
four n a b c d v rest k h =
    ap (λ m. get_u64_loop m (a ∷ b ∷ c ∷ d ∷ rest) v) four_suc
    ∙ round (suc (suc (suc n))) a v (b ∷ c ∷ d ∷ rest) (omega arith)
    ∙ round (suc (suc n)) b (v * 256 + a) (c ∷ d ∷ rest) (omega arith)
    ∙ round (suc n) c ((v * 256 + a) * 256 + b) (d ∷ rest) (omega arith)
    ∙ round n d (((v * 256 + a) * 256 + b) * 256 + c) rest (omega arith)
    ∙ ap (get_u64_loop n rest) (omega arith)
  where
    four_suc : 4 + n ≡ suc (suc (suc (suc n)))
    four_suc = omega arith

-- Eight bytes are two 32-bit halves.
get_u64_halves :
    (a b c d e f g h : ℕ) (rest : List ℕ)
    → Bytes (a ∷ b ∷ c ∷ d ∷ e ∷ f ∷ g ∷ h ∷ [])
    → get_u64 (a ∷ b ∷ c ∷ d ∷ e ∷ f ∷ g ∷ h ∷ rest)
      ≡ get_u32 (a ∷ b ∷ c ∷ d ∷ []) * 2 ^ 32 + get_u32 (e ∷ f ∷ g ∷ h ∷ [])
unfolding get_u64 get_u32
get_u64_halves a b c d e f g h rest k =
    four 4 a b c d 0 (e ∷ f ∷ g ∷ h ∷ rest) (omega arith) (omega arith)
    ∙ ap (get_u64_loop 4 (e ∷ f ∷ g ∷ h ∷ rest)) start
    ∙ four 0 e f g h (get_u32 (a ∷ b ∷ c ∷ d ∷ [])) rest (omega arith) (omega arith)
  where
    start : 0 * 2 ^ 32 + get_u32 (a ∷ b ∷ c ∷ d ∷ []) ≡ get_u32 (a ∷ b ∷ c ∷ d ∷ [])
    start = omega arith

pub get_u64-put_u64 : (v : ℕ) (rest : List ℕ) → v < 2 ^ 64 → get_u64 (put_u64 v ++ rest) ≡ v
unfolding put_u64 get_u32
get_u64-put_u64 v rest h =
    get_u64_halves (v / 2 ^ 56 % 256) (v / 2 ^ 48 % 256) (v / 2 ^ 40 % 256) (v / 2 ^ 32 % 256)
      (v / 2 ^ 24 % 256) (v / 2 ^ 16 % 256) (v / 2 ^ 8 % 256) (v % 256) rest (omega arith)
    ∙ omega arith

get_u32-lt : (a b c d : ℕ) → Bytes (a ∷ b ∷ c ∷ d ∷ []) → get_u32 (a ∷ b ∷ c ∷ d ∷ []) < 2 ^ 32
unfolding get_u32
get_u32-lt a b c d h = omega arith

-- The halves of a 64-bit value are stored one after the other.
put_u64_halves : (v : ℕ) → put_u64 v ≡ put_u32 (v / 2 ^ 32) ++ put_u32 (v % 2 ^ 32)
unfolding put_u64 put_u32
put_u64_halves v = ground arith

pub put_u64-get_u64 : (xs : List ℕ) → Bytes xs → 8 ≤ length xs → put_u64 (get_u64 xs) ≡ take 8 xs
put_u64-get_u64 (a ∷ b ∷ c ∷ d ∷ e ∷ f ∷ g ∷ h ∷ rest) k n =
    put_u64_halves _
    ∙ ap₂ (λ x y. put_u32 x ++ put_u32 y) high low
    ∙ ap₂ ◌++◌ (put_u32-get_u32 (a ∷ b ∷ c ∷ d ∷ []) (omega arith) (omega arith))
        (put_u32-get_u32 (e ∷ f ∷ g ∷ h ∷ []) (omega arith) (omega arith))
  where
    whole :
        get_u64 (a ∷ b ∷ c ∷ d ∷ e ∷ f ∷ g ∷ h ∷ rest)
        ≡ get_u32 (a ∷ b ∷ c ∷ d ∷ []) * 2 ^ 32 + get_u32 (e ∷ f ∷ g ∷ h ∷ [])
    whole = get_u64_halves a b c d e f g h rest (omega arith)

    below : get_u32 (e ∷ f ∷ g ∷ h ∷ []) < 2 ^ 32
    below = get_u32-lt e f g h (omega arith)

    high : get_u64 (a ∷ b ∷ c ∷ d ∷ e ∷ f ∷ g ∷ h ∷ rest) / 2 ^ 32 ≡ get_u32 (a ∷ b ∷ c ∷ d ∷ [])
    high = omega (arith, whole, below)

    low : get_u64 (a ∷ b ∷ c ∷ d ∷ e ∷ f ∷ g ∷ h ∷ rest) % 2 ^ 32 ≡ get_u32 (e ∷ f ∷ g ∷ h ∷ [])
    low = omega (arith, whole, below)
put_u64-get_u64 xs k n = absurd (omega arith)
