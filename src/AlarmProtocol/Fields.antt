-- ===== src/AlarmProtocol/Fields.antt =====
-- Big-endian integers: `put_u16` to `get_u64` of src/monitor/alarm_protocol.cpp.
use cpp_tlfss.Base.{ℕ, zero, suc, ◌+◌, ◌*◌, ◌/◌, ◌%◌, ◌^◌, List, [], ◌∷◌, get_or}

-- The bytes that `put_u16`, `put_u32` and `put_u64` store, the most significant first.
unfoldable pub put_u16 : ℕ → List ℕ
put_u16 v = v / 2 ^ 8 % 256 ∷ v % 256 ∷ []

unfoldable pub put_u32 : ℕ → List ℕ
put_u32 v = v / 2 ^ 24 % 256 ∷ v / 2 ^ 16 % 256 ∷ v / 2 ^ 8 % 256 ∷ v % 256 ∷ []

unfoldable pub put_u64 : ℕ → List ℕ
put_u64 v =
    v / 2 ^ 56 % 256
    ∷ v / 2 ^ 48 % 256
    ∷ v / 2 ^ 40 % 256
    ∷ v / 2 ^ 32 % 256
    ∷ v / 2 ^ 24 % 256
    ∷ v / 2 ^ 16 % 256
    ∷ v / 2 ^ 8 % 256
    ∷ v % 256
    ∷ []

-- The operands of `|` share no bit, since each byte is below 256: `|` is a sum.
unfoldable pub get_u16 : List ℕ → ℕ
get_u16 input = get_or input 0 0 * 2 ^ 8 + get_or input 1 0

unfoldable pub get_u32 : List ℕ → ℕ
get_u32 input =
    get_or input 0 0 * 2 ^ 24
    + get_or input 1 0 * 2 ^ 16
    + get_or input 2 0 * 2 ^ 8
    + get_or input 3 0

-- The loop of `get_u64` with the rounds left; `value << 8U` keeps 64 bits.
unfoldable pub get_u64_loop : ℕ → List ℕ → ℕ → ℕ
get_u64_loop zero input value = value
get_u64_loop (suc n) [] value = get_u64_loop n [] (value * 2 ^ 8 % 2 ^ 64)
get_u64_loop (suc n) (b ∷ input) value = get_u64_loop n input (value * 2 ^ 8 % 2 ^ 64 + b)

unfoldable pub get_u64 : List ℕ → ℕ
unfolding get_u64_loop
get_u64 input = get_u64_loop 8 input 0
