-- ===== src/ArcCache/Sharing.antt =====
-- The capacity of the whole cache is shared among the slices, and none is disabled.
use cpp_tlfss.Base.{
  ltb, ◌==◌, if◌then◌else◌, if-keeps, length, All, ℕ, zero, suc, ◌+◌, ◌-◌, ◌*◌, ◌/◌, ◌%◌, ◌≤◌, ◌<◌,
  min, max, ◌≡◌, refl, ap, false, List, [], ◌∷◌, arith,
}
use native.Mathlib.Nat.{div-add-mod, div-eq-sub-div, mod-lt, zero-mul, suc-mul}
use cpp_tlfss.ArcCache.Cache.{ArcCache, make_cache}
use cpp_tlfss.ArcCache.Adapting.{IsValid, make_cache-IsValid}
use cpp_tlfss.ArcCache.Slices.{
  HashArcCache, default_transform, slice_size, make_slices, make_hash_cache,
}

module _ {ℓ} {K V : Type ℓ} where
  abbrev pub shares : List (ArcCache K V) → ℕ
  shares [] = 0
  shares (s ∷ ss) = s.capacity + shares ss

module _ {ℓ} (K V : Type ℓ) where
  make_slices-shares :
      (count i base remainder : ℕ)
      → shares (make_slices {K = K} {V = V} count i base remainder)
        ≡ count * base + (min (i + count) remainder - min i remainder)
  unfolding make_slices make_cache
  make_slices-shares zero i base remainder = let z = zero-mul base in omega arith
  make_slices-shares (suc count) i base remainder =
      let ih = make_slices-shares count (suc i) base remainder in
      let m = suc-mul count base in ground arith

  pub make_slices-length :
      (count i base remainder : ℕ)
      → length (make_slices {K = K} {V = V} count i base remainder) ≡ count
  unfolding make_slices
  make_slices-length zero i base remainder = refl
  make_slices-length (suc count) i base remainder =
      ap suc (make_slices-length count (suc i) base remainder)

  make_slices-All :
      (dec : Discrete K) (count i base remainder : ℕ)
      → 0 < base
      → All (λ s. IsValid {V = V} dec s × (0 < s.capacity)) (make_slices count i base remainder)
  unfolding make_slices make_cache
  make_slices-All dec zero i base remainder h = tt
  make_slices-All dec (suc count) i base remainder h = (
    (make_cache-IsValid dec (slice_size base remainder i) default_transform, omega arith),
    make_slices-All dec count (suc i) base remainder h,
  )

-- The slices share the capacity, none is disabled, and every hash chooses one of them.
pub record IsShared {ℓ} {K V : Type ℓ} (dec : Discrete K) (cap : ℕ) (s : HashArcCache K V)
    : Type ℓ where
  pub shared : shares s.slices ≡ cap
  pub count : length s.slices ≡ s.slice_num
  pub all_valid : All (λ c. IsValid dec c × (0 < c.capacity)) s.slices
  pub few : s.slice_num ≤ cap
  pub some_slice : 0 < cap → 0 < s.slice_num
  pub chosen : (hash : ℕ) → 0 < s.slice_num → hash % s.slice_num < length s.slices

-- For every number of processors, capacity and number of slices, the constructor makes no more
-- slices than the capacity and at least one where it is not zero; the slices are valid caches with
-- positive capacities that add up to the whole, and every hash chooses one of them.
pub make_hash_cache-IsShared {ℓ} :
    {K V : Type ℓ} (dec : Discrete K) (hardware_concurrency cap slice_num : ℕ)
    → IsShared {V = V} dec cap (make_hash_cache hardware_concurrency cap slice_num)
unfolding make_hash_cache
make_hash_cache-IsShared {K = K} {V = V} dec hardware_concurrency cap slice_num =
    let n = min (if ltb 0 slice_num then slice_num else max 1 hardware_concurrency) cap in
    let wanted = positive slice_num hardware_concurrency in
    if-keeps (λ (s : HashArcCache K V). IsShared dec cap s) (cap == 0)
      (λ z. record {
        shared = ground arith;
        count = refl;
        all_valid = tt;
        few = omega arith;
        some_slice = λ h. ground arith;
        chosen = λ hash h. absurd (omega arith);
      })
      (λ z.
        let some_capacity = nonzero cap z in
        let there : 0 < n = omega arith in
        let len = make_slices-length K V n 0 (cap / n) (cap % n) in
        let sum = make_slices-shares K V n 0 (cap / n) (cap % n) in
        let whole = div-add-mod cap n in
        let small = mod-lt cap there in
        record {
          shared = omega arith;
          count = len;
          all_valid =
              make_slices-All K V dec n 0 (cap / n) (cap % n) (base cap n there (omega arith));
          few = omega arith;
          some_slice = λ h. there;
          chosen = λ hash h. let m = mod-lt hash h in omega arith;
        })
  where
    positive : (a b : ℕ) → 0 < (if ltb 0 a then a else max 1 b)
    positive a b = ground arith

    nonzero : (a : ℕ) → (a == 0) ≡ false → 0 < a
    nonzero a h = ground arith

    base : (a n : ℕ) → 0 < n → n ≤ a → 0 < a / n
    base a n p h = let e = div-eq-sub-div p h in omega arith
