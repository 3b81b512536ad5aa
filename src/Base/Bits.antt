-- ===== src/Base/Bits.antt =====
-- Exclusive or at variables, from the binary digits that the native operation stands for.
use Prim.Native.Nat.{
  ℕ, zero, suc, ◌+◌, ◌*◌, ◌/◌, ◌%◌, ◌^◌, ◌≤◌, ◌<◌, bit_xor, digits, bitwise, bit_xor-bitwise,
  differ,
}
use native.Mathlib.Nat.{pow-suc, le_refl}
use mathlib.Core.Path.{◌≡◌, refl, ap, ap₂, ◌∙◌, sym}
use native.Mathlib.Omega.{arith}

-- More fuel than the first operand needs changes nothing.
xor_fuel :
    (n m a b : ℕ) → a ≤ n → a ≤ m → digits (λ y. y) differ n a b ≡ digits (λ y. y) differ m a b
xor_fuel zero zero a b p q = refl
xor_fuel zero (suc m) zero b p q = refl
xor_fuel zero (suc m) (suc a) b p q = absurd (omega arith)
xor_fuel (suc n) zero zero b p q = refl
xor_fuel (suc n) zero (suc a) b p q = absurd (omega arith)
xor_fuel (suc n) (suc m) zero b p q = refl
xor_fuel (suc n) (suc m) (suc a) b p q =
    rw (xor_fuel n m (suc a / 2) (b / 2) (omega arith) (omega arith))

differ_small : (x y : ℕ) → x < 2 → y < 2 → differ x y ≡ (x + y) % 2
differ_small zero y h k = omega arith
differ_small (suc zero) zero h k = refl
differ_small (suc zero) (suc zero) h k = refl
differ_small (suc zero) (suc (suc y)) h k = absurd (omega arith)
differ_small (suc (suc x)) y h k = absurd (omega arith)

differ_mod : (a b : ℕ) → differ (a % 2) (b % 2) ≡ (a + b) % 2
differ_mod a b = omega (arith, differ_small (a % 2) (b % 2) (omega arith) (omega arith))

pub zero-bit_xor : (b : ℕ) → bit_xor 0 b ≡ b
zero-bit_xor b = bit_xor-bitwise 0 b

bitwise-suc :
    (a b : ℕ)
    → bitwise (λ y. y) differ (suc a) b
      ≡ bitwise (λ y. y) differ (suc a / 2) (b / 2) * 2 + differ (suc a % 2) (b % 2)
bitwise-suc a b =
    omega (arith, xor_fuel a (suc a / 2) (suc a / 2) (b / 2) (omega arith) (le_refl _))

-- The lowest digit, and the rest.
pub bit_xor_step : (a b : ℕ) → bit_xor a b ≡ bit_xor (a / 2) (b / 2) * 2 + (a + b) % 2
bit_xor_step zero b = omega (arith, zero-bit_xor b, zero-bit_xor (b / 2))
bit_xor_step (suc a) b =
    bit_xor-bitwise (suc a) b
    ∙ bitwise-suc a b
    ∙ ap₂ (λ x y. x * 2 + y) (sym (bit_xor-bitwise (suc a / 2) (b / 2))) (differ_mod (suc a) b)

-- The result has no more digits than the operands.
pub bit_xor-lt : (k a b : ℕ) → a < 2 ^ k → b < 2 ^ k → bit_xor a b < 2 ^ k
bit_xor-lt zero zero zero h i = omega (arith, zero-bit_xor 0)
bit_xor-lt zero zero (suc b) h i = absurd (omega arith)
bit_xor-lt zero (suc a) b h i = absurd (omega arith)
bit_xor-lt (suc k) a b h i = omega (
  arith,
  bit_xor_step a b,
  pow-suc 2 k,
  bit_xor-lt k (a / 2) (b / 2) (omega (arith, pow-suc 2 k)) (omega (arith, pow-suc 2 k)),
)

bit_xor-cancel_fuel : (n a b : ℕ) → a ≤ n → b ≤ n → bit_xor (bit_xor a b) b ≡ a
bit_xor-cancel_fuel zero zero zero h i = refl
bit_xor-cancel_fuel zero zero (suc b) h i = absurd (omega arith)
bit_xor-cancel_fuel zero (suc a) b h i = absurd (omega arith)
bit_xor-cancel_fuel (suc n) a b h i =
    bit_xor_step (bit_xor a b) b
    ∙ ap (λ x. bit_xor x (b / 2) * 2 + (bit_xor a b + b) % 2) half
    ∙ omega
        (arith, bit_xor_step a b, bit_xor-cancel_fuel n (a / 2) (b / 2) (omega arith) (omega arith))
  where
    half : bit_xor a b / 2 ≡ bit_xor (a / 2) (b / 2)
    half = omega (arith, bit_xor_step a b)

-- A second exclusive or with the same number undoes the first.
pub bit_xor-cancel : (a b : ℕ) → bit_xor (bit_xor a b) b ≡ a
bit_xor-cancel a b = bit_xor-cancel_fuel (a + b) a b (omega arith) (omega arith)

bit_xor_comm_fuel : (n a b : ℕ) → a ≤ n → b ≤ n → bit_xor a b ≡ bit_xor b a
bit_xor_comm_fuel zero zero zero h i = refl
bit_xor_comm_fuel zero zero (suc b) h i = absurd (omega arith)
bit_xor_comm_fuel zero (suc a) b h i = absurd (omega arith)
bit_xor_comm_fuel (suc n) a b h i = omega (
  arith,
  bit_xor_step a b,
  bit_xor_step b a,
  bit_xor_comm_fuel n (a / 2) (b / 2) (omega arith) (omega arith),
)

pub bit_xor_comm : (a b : ℕ) → bit_xor a b ≡ bit_xor b a
bit_xor_comm a b = bit_xor_comm_fuel (a + b) a b (omega arith) (omega arith)

pub bit_xor-injective : (a b c : ℕ) → bit_xor a c ≡ bit_xor b c → a ≡ b
bit_xor-injective a b c e = sym (bit_xor-cancel a c) ∙ ap (λ x. bit_xor x c) e ∙ bit_xor-cancel b c
