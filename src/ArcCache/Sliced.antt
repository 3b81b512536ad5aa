-- ===== src/ArcCache/Sliced.antt =====
-- The cache of slices refines one map that may forget.
use cpp_tlfss.Base.{
  ltb, ◌==◌, if◌then◌else◌, if-keeps, length, ℕ, zero, suc, ◌/◌, ◌%◌, ◌≤◌, ◌<◌, min, max, ◌≡◌, refl,
  ◌∙◌, Bool, true, false, Option, none, some, List, [], ◌∷◌, arith,
}
use cpp_tlfss.ArcCache.Cache.{ArcCache, make_cache}
use cpp_tlfss.ArcCache.Content.{History, write}
use cpp_tlfss.ArcCache.Slices.{
  HashArcCache, default_transform, slice_size, make_slices, make_hash_cache, hash_put, hash_get,
  hash_erase,
}
use cpp_tlfss.ArcCache.Sharing.{make_slices-length}
use cpp_tlfss.ArcCache.History.{
  Call, putting, getting, erasing, map_step, MayAnswer, Answers, finished, answered,
  make_cache-Refines,
}
use native.Mathlib.Nat.{div-eq-sub-div}
use cpp_tlfss.ArcCache.Routing.{
  Routed, put_at-Routed, erase_at-Routed, get_at-Routed, put_at-length, get_at-length,
  erase_at-length,
}

is_zero : (n : ℕ) → (n == 0) ≡ true → n ≡ 0
is_zero n h = ground arith

base-positive : (a n : ℕ) → 0 < n → n ≤ a → 0 < a / n
base-positive a n p h = let e = div-eq-sub-div p h in omega arith

module _ {ℓ} (K V : Type ℓ) (dec : Discrete K) where
  fresh_slices :
      (slice_of : K → ℕ) (count i base remainder : ℕ)
      → 0 < base
      → Routed dec slice_of (λ _. none) i (make_slices {K = K} {V = V} count i base remainder)
  unfolding make_slices make_cache
  fresh_slices slice_of zero i base remainder b = tt
  fresh_slices slice_of (suc count) i base remainder b = (
    record {
      refines = make_cache-Refines dec (slice_size base remainder i) default_transform;
      enabled = omega arith;
      only = λ j d. omega arith;
    },
    fresh_slices slice_of count (suc i) base remainder b,
  )

module _ {ℓ} {K V : Type ℓ} (dec : Discrete K) (hash : K → ℕ) where
  abbrev pub hash_step : Call K V → HashArcCache K V → Option V × HashArcCache K V
  hash_step (putting key value) s = (none, hash_put dec hash key value s)
  hash_step (getting key) s = hash_get dec hash key s
  hash_step (erasing key) s = (none, (hash_erase dec hash key s).1)

  unfoldable pub hash_run : List (Call K V) → HashArcCache K V → List (Option V) × HashArcCache K V
  hash_run [] s = ([], s)
  hash_run (c ∷ cs) s =
      let now = hash_step c s in let later = hash_run cs now.1 in (now.0 ∷ later.0, later.1)

  -- The slices refine the map, each with the keys whose hashes choose it.
  pub record HashRefines (h : History K V) (s : HashArcCache K V) : Type ℓ where
    pub routed : Routed dec (λ j. hash j % s.slice_num) h 0 s.slices
    pub count : length s.slices ≡ s.slice_num

  disabled :
      (h h' : History K V) (s : HashArcCache K V)
      → s.slice_num ≡ 0
      → HashRefines h s
      → HashRefines h' s
  disabled h h' s z r = record { routed = none_left s.slices (r.count ∙ z); count = r.count }
    where
      none_left :
          (ss : List (ArcCache K V))
          → length ss ≡ 0
          → Routed dec (λ j. hash j % s.slice_num) h' 0 ss
      none_left [] e = tt
      none_left (c ∷ ss) e = absurd (omega arith)

  hash_step-HashRefines :
      (c : Call K V) (h : History K V) (s : HashArcCache K V)
      → HashRefines h s
      → MayAnswer dec c h (hash_step c s).0 × HashRefines (map_step dec c h) (hash_step c s).1
  unfolding hash_put hash_get hash_erase
  hash_step-HashRefines (putting key value) h s r = (
    refl,
    if-keeps (λ (t : HashArcCache K V). HashRefines (write dec key (some value) h) t)
        (s.slice_num == 0)
        (λ z. disabled h (write dec key (some value) h) s (is_zero s.slice_num z) r)
        (λ z. record {
          routed =
              put_at-Routed dec (λ j. hash j % s.slice_num) hash h key value
                (hash key % s.slice_num) 0 s.slices (omega arith) r.routed;
          count =
              put_at-length dec (λ j. hash j % s.slice_num) hash key value (hash key % s.slice_num)
                s.slices
              ∙ r.count;
        }),
  )
  hash_step-HashRefines (getting key) h s r =
      if-keeps
        (λ (t : Option V × HashArcCache K V). MayAnswer dec (getting key) h t.0 × HashRefines h t.1)
        (s.slice_num == 0) (λ z. (λ v e. absurd cc, r))
        (λ z.
          let (kept, value) =
            get_at-Routed dec (λ j. hash j % s.slice_num) hash h key (hash key % s.slice_num) 0
              s.slices r.routed in
          (
            value,
            record {
              routed = kept;
              count =
                  get_at-length dec (λ j. hash j % s.slice_num) hash key (hash key % s.slice_num)
                    s.slices
                  ∙ r.count;
            },
          ))
  hash_step-HashRefines (erasing key) h s r = (
    refl,
    if-keeps (λ (t : Bool × HashArcCache K V). HashRefines (write dec key none h) t.1)
        (s.slice_num == 0) (λ z. disabled h (write dec key none h) s (is_zero s.slice_num z) r)
        (λ z. record {
          routed =
              erase_at-Routed dec (λ j. hash j % s.slice_num) hash h key (hash key % s.slice_num) 0
                s.slices (omega arith) r.routed;
          count =
              erase_at-length dec (λ j. hash j % s.slice_num) hash key (hash key % s.slice_num)
                s.slices
              ∙ r.count;
        }),
  )

  -- For every hash function, from slices that refine a map, every run of put, get and erase answers
  -- each get with nothing or with the value of the map, that is the last value put and not erased,
  -- and ends with slices that still hold only keys whose hashes choose them.
  pub hash_run-Answers :
      (cs : List (Call K V)) (h : History K V) (s : HashArcCache K V)
      → HashRefines h s
      → Answers dec cs h (hash_run cs s).0
        × ((final : History K V) × HashRefines final (hash_run cs s).1)
  unfolding hash_run
  hash_run-Answers [] h s r = (finished h, (h, r))
  hash_run-Answers (c ∷ cs) h s r =
      let (a, next) = hash_step-HashRefines c h s r in
      let (later, end) = hash_run-Answers cs (map_step dec c h) (hash_step c s).1 next in
      (answered c cs h (hash_step c s).0 (hash_run cs (hash_step c s).1).0 a later, end)

  -- The constructor's slices refine the empty map.
  pub make_hash_cache-HashRefines :
      (hardware_concurrency cap slice_num : ℕ)
      → HashRefines (λ _. none) (make_hash_cache {K = K} {V = V} hardware_concurrency cap slice_num)
  unfolding make_hash_cache
  make_hash_cache-HashRefines hardware_concurrency cap slice_num =
      let n = min (if ltb 0 slice_num then slice_num else max 1 hardware_concurrency) cap in
      let wanted = positive slice_num hardware_concurrency in
      if-keeps (λ (s : HashArcCache K V). HashRefines (λ _. none) s) (cap == 0)
        {x = record { capacity = cap; slice_num = 0; slices = [] }}
        {y = record { capacity = cap; slice_num = n; slices = make_slices n 0 (cap / n) (cap % n) }}
        (λ z. record { routed = tt; count = refl })
        (λ z.
          let c = nonzero cap z in
          record {
            routed =
                fresh_slices K V dec (λ j. hash j % n) n 0 (cap / n) (cap % n)
                  (base-positive cap n (omega arith) (omega arith));
            count = make_slices-length K V n 0 (cap / n) (cap % n);
          })
    where
      positive : (a b : ℕ) → 0 < (if ltb 0 a then a else max 1 b)
      positive a b = ground arith

      nonzero : (a : ℕ) → (a == 0) ≡ false → 0 < a
      nonzero a h = ground arith
