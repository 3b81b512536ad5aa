-- ===== src/AlarmProtocol/ChecksumLaws.antt =====
-- The CRC32 over concatenations and over single steps.
use cpp_tlfss.Base.{
  ℕ, zero, suc, ◌/◌, ◌%◌, ◌^◌, ◌≤◌, ◌<◌, ◌≡◌, refl, List, [], ◌∷◌, ◌++◌, arith, Bytes, ap, ◌∙◌, sym,
  ◌⊎◌, inl, inr, bit_xor, bit_xor-lt, bit_xor-cancel, bit_xor_comm, bit_xor-injective, zero-bit_xor,
  dec_lt,
}
use cpp_tlfss.AlarmProtocol.Checksum.{crc32_bit, crc32_bits, crc32_update, crc32_polynomial}

crc32_bit_odd : (c : ℕ) → c % 2 ≡ 1 → crc32_bit c ≡ bit_xor (c / 2) crc32_polynomial
unfolding crc32_bit
crc32_bit_odd c h = rw h

bit_xor-zero : (a : ℕ) → bit_xor a 0 ≡ a
bit_xor-zero a = bit_xor_comm a 0 ∙ zero-bit_xor a

crc32_bit_even : (c : ℕ) → c % 2 ≡ 0 → crc32_bit c ≡ c / 2
unfolding crc32_bit
crc32_bit_even c h = rw h (bit_xor-zero (c / 2))

parity : (c : ℕ) → (c % 2 ≡ 0) ⊎ (c % 2 ≡ 1)
parity c = omega arith

crc32_bit-lt : (c : ℕ) → c < 2 ^ 32 → crc32_bit c < 2 ^ 32
crc32_bit-lt c h = elim (parity c) [
  | inl e ↦ omega (arith, crc32_bit_even c e)
  | inr e ↦
      omega (
        arith,
        crc32_bit_odd c e,
        bit_xor-lt 32 (c / 2) crc32_polynomial (omega arith) (omega arith),
      )
]

-- The polynomial has its top bit set, and the register has shifted a zero in.
top_bit : (x : ℕ) → x < 2 ^ 31 → 2 ^ 31 ≤ bit_xor x crc32_polynomial
top_bit x h = elim (dec_lt (bit_xor x crc32_polynomial) (2 ^ 31)) [
  | yes low ↦ absurd (
      omega (
        arith,
        bit_xor-lt 31 (bit_xor x crc32_polynomial) x low h,
        bit_xor_comm x crc32_polynomial,
        bit_xor-cancel crc32_polynomial x,
        ap (λ y. bit_xor y x) (bit_xor_comm x crc32_polynomial),
      ))
  | no high ↦ omega arith
]

-- One round keeps every bit of the register, in another place.
crc32_bit-injective : (c d : ℕ) → c < 2 ^ 32 → d < 2 ^ 32 → crc32_bit c ≡ crc32_bit d → c ≡ d
crc32_bit-injective c d hc hd e = elim (parity c) [
  | inl p ↦ elim (parity d) [
    | inl q ↦ omega (arith, crc32_bit_even c p, crc32_bit_even d q)
    | inr q ↦
        absurd (omega (arith, crc32_bit_even c p, crc32_bit_odd d q, top_bit (d / 2) (omega arith)))
  ]
  | inr p ↦ elim (parity d) [
    | inl q ↦
        absurd (omega (arith, crc32_bit_odd c p, crc32_bit_even d q, top_bit (c / 2) (omega arith)))
    | inr q ↦ omega (
      arith,
      bit_xor-injective (c / 2) (d / 2) crc32_polynomial
          (sym (crc32_bit_odd c p) ∙ e ∙ crc32_bit_odd d q),
    )
  ]
]

crc32_bits-lt : (n c : ℕ) → c < 2 ^ 32 → crc32_bits n c < 2 ^ 32
unfolding crc32_bits
crc32_bits-lt zero c h = h
crc32_bits-lt (suc n) c h = crc32_bits-lt n (crc32_bit c) (crc32_bit-lt c h)

crc32_bits-injective :
    (n c d : ℕ) → c < 2 ^ 32 → d < 2 ^ 32 → crc32_bits n c ≡ crc32_bits n d → c ≡ d
unfolding crc32_bits
crc32_bits-injective zero c d hc hd e = e
crc32_bits-injective (suc n) c d hc hd e =
    crc32_bit-injective c d hc hd
      (crc32_bits-injective n (crc32_bit c) (crc32_bit d) (crc32_bit-lt c hc) (crc32_bit-lt d hd) e)

step-lt : (c b : ℕ) → c < 2 ^ 32 → b < 256 → crc32_bits 8 (bit_xor c b) < 2 ^ 32
step-lt c b h k = crc32_bits-lt 8 (bit_xor c b) (bit_xor-lt 32 c b h (omega arith))

-- The register stays a 32-bit value.
pub crc32_update-lt : (c : ℕ) (xs : List ℕ) → c < 2 ^ 32 → Bytes xs → crc32_update c xs < 2 ^ 32
unfolding crc32_update
crc32_update-lt c [] h k = h
crc32_update-lt c (b ∷ xs) h k =
    crc32_update-lt (crc32_bits 8 (bit_xor c b)) xs (step-lt c b h k.0) k.1

-- Bytes in two parts are the bytes in one.
pub crc32_update-append :
    (c : ℕ) (xs ys : List ℕ) → crc32_update c (xs ++ ys) ≡ crc32_update (crc32_update c xs) ys
unfolding crc32_update
crc32_update-append c [] ys = refl
crc32_update-append c (b ∷ xs) ys = crc32_update-append (crc32_bits 8 (bit_xor c b)) xs ys

-- Two registers that the same bytes bring together were the same.
pub crc32_update-injective :
    (c d : ℕ) (xs : List ℕ)
    → c < 2 ^ 32
    → d < 2 ^ 32
    → Bytes xs
    → crc32_update c xs ≡ crc32_update d xs
    → c ≡ d
unfolding crc32_update
crc32_update-injective c d [] hc hd k e = e
crc32_update-injective c d (b ∷ xs) hc hd k e = bit_xor-injective c d b (
    crc32_bits-injective 8 (bit_xor c b) (bit_xor d b) (bit_xor-lt 32 c b hc (omega arith))
      (bit_xor-lt 32 d b hd (omega arith))
      (crc32_update-injective (crc32_bits 8 (bit_xor c b)) (crc32_bits 8 (bit_xor d b)) xs
        (step-lt c b hc k.0) (step-lt d b hd k.0) k.1 e))

-- Two messages that differ in one byte have different checksums.
pub crc32_update-differ :
    (c : ℕ) (xs ys : List ℕ) (a b : ℕ)
    → c < 2 ^ 32
    → Bytes xs
    → Bytes ys
    → a < 256
    → b < 256
    → crc32_update c (xs ++ (a ∷ ys)) ≡ crc32_update c (xs ++ (b ∷ ys))
    → a ≡ b
unfolding crc32_update
crc32_update-differ c xs ys a b hc hx hy ha hb e = bit_xor-injective a b r (
    bit_xor_comm a r
    ∙ crc32_bits-injective 8 (bit_xor r a) (bit_xor r b) (bit_xor-lt 32 r a hr (omega arith))
        (bit_xor-lt 32 r b hr (omega arith)) steps
    ∙ bit_xor_comm r b)
  where
    r : ℕ
    r = crc32_update c xs

    hr : r < 2 ^ 32
    hr = crc32_update-lt c xs hc hx

    split : (x : ℕ) → crc32_update c (xs ++ (x ∷ ys)) ≡ crc32_update (crc32_bits 8 (bit_xor r x)) ys
    split x = crc32_update-append c xs (x ∷ ys)

    steps : crc32_bits 8 (bit_xor r a) ≡ crc32_bits 8 (bit_xor r b)
    steps =
        crc32_update-injective (crc32_bits 8 (bit_xor r a)) (crc32_bits 8 (bit_xor r b)) ys
          (step-lt r a hr ha) (step-lt r b hr hb) hy (sym (split a) ∙ e ∙ split b)
