-- ===== src/ArcCache/Routing.antt =====
-- A key lives in the slice that its hash chooses, and the slices together refine one map.
use cpp_tlfss.Base.{
  Bool-cases, length, ℕ, zero, suc, ◌+◌, ◌<◌, ◌≡◌, refl, sym, ap, ◌∙◌, ◌≢◌, inl, inr, false, Option,
  none, some, List, [], ◌∷◌, arith,
}
use cpp_tlfss.ArcCache.Node.{same}
use cpp_tlfss.ArcCache.Cache.{ArcCache}
use cpp_tlfss.ArcCache.Lfu.{nodes}
use cpp_tlfss.ArcCache.Content.{History, same-path, write, Fits-write}
use cpp_tlfss.ArcCache.Writing.{residence, put-Written}
use cpp_tlfss.ArcCache.Reading.{get-Got, erase-Erased}
use cpp_tlfss.ArcCache.Slices.{put_at, get_at, erase_at}
use cpp_tlfss.ArcCache.History.{Refines}

-- The slice at an index: it refines the map, and has no node of a key that belongs elsewhere.
pub record IsSlice {ℓ} {K V : Type ℓ} (dec : Discrete K) (slice_of : K → ℕ) (h : History K V)
    (i : ℕ) (s : ArcCache K V) : Type ℓ where
  pub refines : Refines dec h s
  pub enabled : 0 < s.capacity
  pub only : (j : K) → slice_of j ≢ i → residence dec j s ≡ 0

module _ {ℓ} {K : Type ℓ} (dec : Discrete K) (slice_of : K → ℕ) where
  -- A key that belongs elsewhere is another key.
  differs : (key j : K) → slice_of j ≢ slice_of key → same dec key j ≡ false
  differs key j d = elim (Bool-cases (same dec key j)) [
    | inl e ↦ absurd (d (ap slice_of (sym (same-path dec key j e))))
    | inr e ↦ e
  ]

module _ {ℓ} {K V : Type ℓ} (dec : Discrete K) (slice_of : K → ℕ) where
  -- The slices from an index on.
  abbrev pub Routed : History K V → ℕ → List (ArcCache K V) → Type ℓ
  Routed h i [] = Unit
  Routed h i (s ∷ ss) = IsSlice dec slice_of h i s × Routed h (suc i) ss

  -- A change of the map at a key of another slice.
  elsewhere :
      (h : History K V) (key : K) (o : Option V) (i : ℕ) (s : ArcCache K V)
      → slice_of key ≢ i
      → IsSlice dec slice_of h i s
      → IsSlice dec slice_of (write dec key o h) i s
  elsewhere h key o i s d r =
      let z = r.only key d in
      record {
        refines = record {
          valid = r.refines.valid;
          coherent = record {
            in_lru = Fits-write dec h key o s.lru.main_list (omega arith) r.refines.coherent.in_lru;
            in_lfu =
                Fits-write dec h key o (nodes s.lfu.freq_map) (omega arith)
                  r.refines.coherent.in_lfu;
          };
        };
        enabled = r.enabled;
        only = r.only;
      }

  untouched_later :
      (h : History K V) (key : K) (o : Option V) (i : ℕ) (ss : List (ArcCache K V))
      → slice_of key < i
      → Routed h i ss
      → Routed (write dec key o h) i ss
  untouched_later h key o i [] l r = tt
  untouched_later h key o i (s ∷ ss) l r = (
    elsewhere h key o i s (λ e. absurd (omega arith)) r.0,
    untouched_later h key o (suc i) ss (omega arith) r.1,
  )

  pub put_at-Routed :
      (hash : K → ℕ) (h : History K V) (key : K) (value : V) (k i : ℕ) (ss : List (ArcCache K V))
      → slice_of key ≡ i + k
      → Routed h i ss
      → Routed (write dec key (some value) h) i (put_at dec hash k key value ss)
  put_at-Routed hash h key value k i [] e r = tt
  put_at-Routed hash h key value zero i (s ∷ ss) e r =
      let w = put-Written dec key value s r.0.refines.valid r.0.enabled in
      let c = w.same_capacity in
      let on = r.0.enabled in
      (
        record {
          refines = record { valid = w.valid; coherent = w.coherent h r.0.refines.coherent };
          enabled = omega arith;
          only = λ j d.
              let o = w.others j (differs dec slice_of key j (λ p. d (p ∙ e ∙ add_zero i))) in
              let z = r.0.only j d in omega arith;
        },
        untouched_later h key (some value) (suc i) ss (omega arith) r.1,
      )
    where
      add_zero : (n : ℕ) → n + 0 ≡ n
      add_zero n = omega arith
  put_at-Routed hash h key value (suc k) i (s ∷ ss) e r = (
    elsewhere h key (some value) i s (λ p. absurd (omega arith)) r.0,
    put_at-Routed hash h key value k (suc i) ss (omega arith) r.1,
  )

  pub erase_at-Routed :
      (hash : K → ℕ) (h : History K V) (key : K) (k i : ℕ) (ss : List (ArcCache K V))
      → slice_of key ≡ i + k
      → Routed h i ss
      → Routed (write dec key none h) i (erase_at dec hash k key ss).1
  erase_at-Routed hash h key k i [] e r = tt
  erase_at-Routed hash h key zero i (s ∷ ss) e r =
      let w = erase-Erased dec key s r.0.refines.valid in
      let c = w.same_capacity in
      let on = r.0.enabled in
      (
        record {
          refines = record { valid = w.valid; coherent = w.coherent h r.0.refines.coherent };
          enabled = omega arith;
          only = λ j d. let o = w.others j in let z = r.0.only j d in omega arith;
        },
        untouched_later h key none (suc i) ss (omega arith) r.1,
      )
  erase_at-Routed hash h key (suc k) i (s ∷ ss) e r = (
    elsewhere h key none i s (λ p. absurd (omega arith)) r.0,
    erase_at-Routed hash h key k (suc i) ss (omega arith) r.1,
  )

  -- A read answers from the map, and changes neither the map nor the routes.
  pub get_at-Routed :
      (hash : K → ℕ) (h : History K V) (key : K) (k i : ℕ) (ss : List (ArcCache K V))
      → Routed h i ss
      → Routed h i (get_at dec hash k key ss).1
        × ((v : V) → (get_at dec hash k key ss).0 ≡ some v → h key ≡ some v)
  get_at-Routed hash h key k i [] r = (tt, λ v e. absurd cc)
  get_at-Routed hash h key zero i (s ∷ ss) r =
      let g = get-Got dec key s r.0.refines.valid in
      let c = g.same_capacity in
      let on = r.0.enabled in
      (
        (
          record {
            refines = record { valid = g.valid; coherent = g.coherent h r.0.refines.coherent };
            enabled = omega arith;
            only = λ j d. let o = g.others j in let z = r.0.only j d in omega arith;
          },
          r.1,
        ),
        λ v e. g.value h v r.0.refines.coherent e,
      )
  get_at-Routed hash h key (suc k) i (s ∷ ss) r =
      let (later, value) = get_at-Routed hash h key k (suc i) ss r.1 in ((r.0, later), value)

  pub put_at-length :
      (hash : K → ℕ) (key : K) (value : V) (k : ℕ) (ss : List (ArcCache K V))
      → length (put_at dec hash k key value ss) ≡ length ss
  put_at-length hash key value k [] = refl
  put_at-length hash key value zero (s ∷ ss) = refl
  put_at-length hash key value (suc k) (s ∷ ss) = ap suc (put_at-length hash key value k ss)

  pub get_at-length :
      (hash : K → ℕ) (key : K) (k : ℕ) (ss : List (ArcCache K V))
      → length (get_at dec hash k key ss).1 ≡ length ss
  get_at-length hash key k [] = refl
  get_at-length hash key zero (s ∷ ss) = refl
  get_at-length hash key (suc k) (s ∷ ss) = ap suc (get_at-length hash key k ss)

  pub erase_at-length :
      (hash : K → ℕ) (key : K) (k : ℕ) (ss : List (ArcCache K V))
      → length (erase_at dec hash k key ss).1 ≡ length ss
  erase_at-length hash key k [] = refl
  erase_at-length hash key zero (s ∷ ss) = refl
  erase_at-length hash key (suc k) (s ∷ ss) = ap suc (erase_at-length hash key k ss)
