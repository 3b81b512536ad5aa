-- ===== src/MonitorPolicy/Window.antt =====
-- The sliding window of samples: its running sum is exact, and never wraps.
use cpp_tlfss.Base.{
  ltb, leb, ◌==◌, if◌then◌else◌, if-keeps, length, get_or, set, drop, replicate, length-replicate,
  All, ℕ, zero, suc, ◌+◌, ◌-◌, ◌*◌, ◌/◌, ◌%◌, ◌^◌, ◌≤◌, ◌<◌, ◌≡◌, refl, sym, ap, subst, false, not,
  ◌&&◌, List, [], ◌∷◌, arith, dec_lt,
}
use native.Mathlib.Nat.{mod-lt, mod-eq_of_lt}
use cpp_tlfss.MonitorPolicy.Policy.{
  PolicyFeedResult, SmoothTrimPolicy, store_sample, feed_smooth_trim,
}

abbrev pub total : List ℕ → ℕ
total [] = 0
total (x ∷ xs) = x + total xs

abbrev pub Zeros : List ℕ → Type 0
Zeros = All (λ n. n ≡ 0)

-- The window is a ring of 32-bit samples, of at most 2 ^ 32 of them; while it fills up, the next
-- place is behind the samples and the places from there on are zero.
pub record IsWindow (p : SmoothTrimPolicy) : Type 0 where
  pub exact : p.sum ≡ total p.samples
  pub words : All (λ n. n < 2 ^ 32) p.samples
  pub inside : p.head < length p.samples
  pub small : length p.samples ≤ 2 ^ 32
  pub counted : p.sample_count ≤ length p.samples
  pub filling : p.sample_count < length p.samples → p.head ≡ p.sample_count
  pub unused : p.sample_count < length p.samples → Zeros (drop p.head p.samples)

total-set :
    (xs : List ℕ) (i v : ℕ) → i < length xs → total (set xs i v) + get_or xs i 0 ≡ total xs + v
total-set [] i v h = absurd (omega arith)
total-set (x ∷ xs) zero v h = omega arith
total-set (x ∷ xs) (suc i) v h = let ih = total-set xs i v (omega arith) in omega arith

get_or-total : (xs : List ℕ) (i : ℕ) → get_or xs i 0 ≤ total xs
get_or-total [] i = omega arith
get_or-total (x ∷ xs) zero = omega arith
get_or-total (x ∷ xs) (suc i) = let ih = get_or-total xs i in omega arith

total-words : (xs : List ℕ) → All (λ n. n < 2 ^ 32) xs → total xs + length xs ≤ length xs * 2 ^ 32
total-words [] h = omega arith
total-words (x ∷ xs) h = let a = h.0 in let ih = total-words xs h.1 in omega arith

set-All :
    (xs : List ℕ) (i v : ℕ)
    → v < 2 ^ 32
    → All (λ n. n < 2 ^ 32) xs
    → All (λ n. n < 2 ^ 32) (set xs i v)
set-All [] i v h k = tt
set-All (x ∷ xs) zero v h k = (h, k.1)
set-All (x ∷ xs) (suc i) v h k = (k.0, set-All xs i v h k.1)

length-set : (xs : List ℕ) (i v : ℕ) → length (set xs i v) ≡ length xs
length-set [] i v = refl
length-set (x ∷ xs) zero v = refl
length-set (x ∷ xs) (suc i) v = ap suc (length-set xs i v)

unused-next : (xs : List ℕ) (i v : ℕ) → Zeros (drop i xs) → Zeros (drop (suc i) (set xs i v))
unused-next [] i v z = tt
unused-next (x ∷ xs) zero v z = z.1
unused-next (x ∷ xs) (suc i) v z = unused-next xs i v z

unused-here : (xs : List ℕ) (i : ℕ) → i < length xs → Zeros (drop i xs) → get_or xs i 0 ≡ 0
unused-here [] i h z = absurd (omega arith)
unused-here (x ∷ xs) zero h z = z.0
unused-here (x ∷ xs) (suc i) h z = unused-here xs i (omega arith) z

-- The state that `make_smooth_trim_policy` makes.
abbrev pub fresh_smooth_trim : ℕ → ℕ → SmoothTrimPolicy
fresh_smooth_trim window trim = record {
  trim_threshold = trim;
  samples = replicate window 0;
  sample_count = 0;
  head = 0;
  sum = 0;
  average = 0;
}

-- Storing a sample keeps the window.
store_sample-IsWindow :
    (value : ℕ) (p : SmoothTrimPolicy)
    → value < 2 ^ 32
    → IsWindow p
    → IsWindow (store_sample value p)
unfolding store_sample
store_sample-IsWindow value p small w =
    let len = length-set p.samples p.head value in
    let t = total-set p.samples p.head value w.inside in
    let words = set-All p.samples p.head value small w.words in
    let bound = total-words (set p.samples p.head value) words in
    let old = get_or-total p.samples p.head in
    let e = w.exact in
    let few = w.small in
    let i = w.inside in
    let c = w.counted in
    let m = mod-lt (p.head + 1) (positive p.head (length p.samples) i) in
    elim (dec_lt p.sample_count (length p.samples)) [
      | yes less ↦
          let place = w.filling less in
          let zeros = w.unused less in
          let z = unused-here p.samples p.head i zeros in
          record {
            exact = ground arith;
            words = words;
            inside = omega arith;
            small = omega arith;
            counted = ground arith;
            filling = λ k.
                let more : p.head + 1 < length p.samples = ground arith in
                let n = mod-eq_of_lt more in ground arith;
            unused = λ k.
                let more : p.head + 1 < length p.samples = ground arith in
                let n = mod-eq_of_lt more in
                subst (λ h. Zeros (drop h (set p.samples p.head value))) (next p.head n)
                  (unused-next p.samples p.head value zeros);
          }
      | no full ↦ record {
        exact = ground arith;
        words = words;
        inside = omega arith;
        small = omega arith;
        counted = ground arith;
        filling = λ k. absurd (ground arith);
        unused = λ k. absurd (ground arith);
      }
    ]
  where
    next : (h : ℕ) → (h + 1) % length p.samples ≡ h + 1 → suc h ≡ (h + 1) % length p.samples
    next h n = omega arith

    positive : (h n : ℕ) → h < n → 0 < n
    positive h n k = omega arith

abbrev mean : ℕ → SmoothTrimPolicy → ℕ
mean value p = ((store_sample value p).sum / (store_sample value p).sample_count) % 2 ^ 32

-- For a window of at most 2 ^ 32 samples and a sample of 32 bits, a feed keeps the window: the
-- 64-bit sum is exactly the sum of the samples in the ring, so that no addition or subtraction has
-- wrapped, the head stays inside the ring, and while the ring fills up it counts the samples.
pub feed_smooth_trim-IsWindow :
    (value : ℕ) (p : SmoothTrimPolicy)
    → value < 2 ^ 32
    → IsWindow p
    → IsWindow (feed_smooth_trim value p).1
unfolding feed_smooth_trim
feed_smooth_trim-IsWindow value p small w =
    if-keeps (λ (r : PolicyFeedResult × SmoothTrimPolicy). IsWindow r.1)
      (not (p.sample_count == 0)
        && ltb p.trim_threshold
            (if leb p.average value then value - p.average else p.average - value))
      {x = (record { noteworthy = false; reported = p.average }, p)}
      {y = (
        record { noteworthy = not (mean value p == p.average); reported = mean value p },
        record (store_sample value p) { average = mean value p },
      )}
      (λ _. w)
      (λ _.
        let s = store_sample-IsWindow value p small w in
        record {
          exact = s.exact;
          words = s.words;
          inside = s.inside;
          small = s.small;
          counted = s.counted;
          filling = s.filling;
          unused = s.unused;
        })

-- The window of the factory.
pub fresh-IsWindow :
    (window trim : ℕ) → 0 < window → window ≤ 2 ^ 32 → IsWindow (fresh_smooth_trim window trim)
fresh-IsWindow window trim h k =
    let len = length-replicate {A = ℕ} window 0 in
    record {
      exact = sym (total_zero window);
      words = all_zero window;
      inside = omega arith;
      small = omega arith;
      counted = omega arith;
      filling = λ _. refl;
      unused = λ _. zeros window;
    }
  where
    total_zero : (n : ℕ) → total (replicate n 0) ≡ 0
    total_zero zero = refl
    total_zero (suc n) = let ih = total_zero n in omega arith

    all_zero : (n : ℕ) → All (λ m. m < 2 ^ 32) (replicate n 0)
    all_zero zero = tt
    all_zero (suc n) = (omega arith, all_zero n)

    zeros : (n : ℕ) → Zeros (replicate n 0)
    zeros zero = tt
    zeros (suc n) = (refl, zeros n)
