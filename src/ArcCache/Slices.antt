-- ===== src/ArcCache/Slices.antt =====
-- The class `HashArcCache`: slices under their own locks, chosen by the hash of the key. The hash
-- function and the number of processors are parameters.
use cpp_tlfss.Base.{
  ltb, ◌==◌, if◌then◌else◌, ℕ, zero, suc, ◌+◌, ◌/◌, ◌%◌, min, max, Bool, false, Option, none, List,
  [], ◌∷◌,
}
use cpp_tlfss.ArcCache.Cache.{ArcCache, make_cache, put, get, erase}

pub record HashArcCache {ℓ} (K V : Type ℓ) : Type ℓ where
  pub capacity : ℕ
  pub slice_num : ℕ
  pub slices : List (ArcCache K V)

abbrev pub default_transform : ℕ
default_transform = 2

-- `base_size + (i < remainder)`
abbrev pub slice_size : ℕ → ℕ → ℕ → ℕ
slice_size base remainder i = base + (if ltb i remainder then 1 else 0)

module _ {ℓ} {K V : Type ℓ} where
  -- The loop of the constructor from a slice on; the first number counts the slices left.
  unfoldable pub make_slices : ℕ → ℕ → ℕ → ℕ → List (ArcCache K V)
  make_slices zero i base remainder = []
  make_slices (suc count) i base remainder =
      make_cache (slice_size base remainder i) default_transform
      ∷ make_slices count (suc i) base remainder

  unfoldable pub make_hash_cache : ℕ → ℕ → ℕ → HashArcCache K V
  make_hash_cache hardware_concurrency cap slice_num =
      let n = min (if ltb 0 slice_num then slice_num else max 1 hardware_concurrency) cap in
      if cap == 0
      then record { capacity = cap; slice_num = 0; slices = [] }
      else record { capacity = cap; slice_num = n; slices = make_slices n 0 (cap / n) (cap % n) }

module _ {ℓ} {K V : Type ℓ} (dec : Discrete K) (hash : K → ℕ) where
  abbrev pub put_at : ℕ → K → V → List (ArcCache K V) → List (ArcCache K V)
  put_at i key value [] = []
  put_at zero key value (s ∷ ss) = put dec key value s ∷ ss
  put_at (suc i) key value (s ∷ ss) = s ∷ put_at i key value ss

  abbrev pub get_at : ℕ → K → List (ArcCache K V) → Option V × List (ArcCache K V)
  get_at i key [] = (none, [])
  get_at zero key (s ∷ ss) = let r = get dec key s in (r.0, r.1 ∷ ss)
  get_at (suc i) key (s ∷ ss) = let r = get_at i key ss in (r.0, s ∷ r.1)

  abbrev pub erase_at : ℕ → K → List (ArcCache K V) → Bool × List (ArcCache K V)
  erase_at i key [] = (false, [])
  erase_at zero key (s ∷ ss) = let r = erase dec key s in (r.0, r.1 ∷ ss)
  erase_at (suc i) key (s ∷ ss) = let r = erase_at i key ss in (r.0, s ∷ r.1)

  unfoldable pub hash_put : K → V → HashArcCache K V → HashArcCache K V
  hash_put key value s =
      if s.slice_num == 0
      then s
      else record s { slices = put_at (hash key % s.slice_num) key value s.slices }

  unfoldable pub hash_get : K → HashArcCache K V → Option V × HashArcCache K V
  hash_get key s =
      let r = get_at (hash key % s.slice_num) key s.slices in
      if s.slice_num == 0 then (none, s) else (r.0, record s { slices = r.1 })

  unfoldable pub hash_erase : K → HashArcCache K V → Bool × HashArcCache K V
  hash_erase key s =
      let r = erase_at (hash key % s.slice_num) key s.slices in
      if s.slice_num == 0 then (false, s) else (r.0, record s { slices = r.1 })
