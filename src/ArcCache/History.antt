-- ===== src/ArcCache/History.antt =====
-- A cache refines a map that may forget: whatever it answers is the last value put.
use cpp_tlfss.Base.{
  Option-cases, length, ℕ, ◌≤◌, ◌<◌, ◌≡◌, refl, sym, ◌∙◌, subst, inl, inr, Option, none, some, List,
  [], ◌∷◌, arith, dec_le,
}
use cpp_tlfss.ArcCache.Node.{Node}
use cpp_tlfss.ArcCache.Lfu.{nodes}
use cpp_tlfss.ArcCache.Cache.{ArcCache, make_cache, put, get, erase}
use cpp_tlfss.ArcCache.Content.{History, Fits, same_refl, write}
use cpp_tlfss.ArcCache.Adapting.{IsValid, make_cache-IsValid}
use cpp_tlfss.ArcCache.Writing.{Coherent, put-Written, put-disabled}
use cpp_tlfss.ArcCache.Reading.{get-Got, erase-Erased}

pub data Call {ℓ} (K V : Type ℓ) : Type ℓ where
  putting : K → V → Call K V
  getting : K → Call K V
  erasing : K → Call K V

module _ {ℓ} {K V : Type ℓ} (dec : Discrete K) where
  -- A call with the value that it reads, and the map that it stands for.
  abbrev pub step : Call K V → ArcCache K V → Option V × ArcCache K V
  step (putting key value) s = (none, put dec key value s)
  step (getting key) s = get dec key s
  step (erasing key) s = (none, (erase dec key s).1)

  abbrev pub map_step : Call K V → History K V → History K V
  map_step (putting key value) h = write dec key (some value) h
  map_step (getting key) h = h
  map_step (erasing key) h = write dec key none h

  unfoldable pub run : List (Call K V) → ArcCache K V → List (Option V) × ArcCache K V
  run [] s = ([], s)
  run (c ∷ cs) s = let now = step c s in let later = run cs now.1 in (now.0 ∷ later.0, later.1)

  -- What a call may answer where the map is as given.
  abbrev pub MayAnswer : Call K V → History K V → Option V → Type ℓ
  MayAnswer (putting key value) h o = o ≡ none
  MayAnswer (getting key) h o = (v : V) → o ≡ some v → h key ≡ some v
  MayAnswer (erasing key) h o = o ≡ none

-- The answers of a run from a map on.
pub data Answers {ℓ} {K V : Type ℓ} (dec : Discrete K)
    : List (Call K V) → History K V → List (Option V) → Type ℓ where
  finished : (h : History K V) → Answers dec [] h []
  answered :
      (c : Call K V) (cs : List (Call K V)) (h : History K V) (o : Option V) (os : List (Option V))
      → MayAnswer dec c h o
      → Answers dec cs (map_step dec c h) os
      → Answers dec (c ∷ cs) h (o ∷ os)

module _ {ℓ} {K V : Type ℓ} (dec : Discrete K) where
  -- The invariant of the refinement: the cache is valid and its values are those of the map.
  pub record Refines (h : History K V) (s : ArcCache K V) : Type ℓ where
    pub valid : IsValid dec s
    pub coherent : Coherent h s

  without_nodes : (h : History K V) (ns : List (Node K V)) → length ns ≤ 0 → Fits h ns
  without_nodes h [] k = tt
  without_nodes h (n ∷ ns) k = absurd (omega arith)

  -- A disabled cache has no nodes, and refines every map.
  disabled : (h : History K V) (s : ArcCache K V) → IsValid dec s → s.capacity ≡ 0 → Refines h s
  disabled h s v z =
      let sh = v.shares in
      let a = v.lru_within.nodes_fit in
      let b = v.lfu_sound.nodes_fit in
      record {
        valid = v;
        coherent = record {
          in_lru = without_nodes h s.lru.main_list (omega arith);
          in_lfu = without_nodes h (nodes s.lfu.freq_map) (omega arith);
        };
      }

  step-Refines :
      (c : Call K V) (h : History K V) (s : ArcCache K V)
      → Refines h s
      → MayAnswer dec c h (step dec c s).0 × Refines (map_step dec c h) (step dec c s).1
  step-Refines (putting key value) h s r = elim (dec_le s.capacity 0) [
    | yes z ↦ (
      refl,
      subst (Refines (write dec key (some value) h))
          (sym (put-disabled dec key value s (omega arith)))
          (disabled (write dec key (some value) h) s r.valid (omega arith)),
    )
    | no z ↦
        let w = put-Written dec key value s r.valid (omega arith) in
        (refl, record { valid = w.valid; coherent = w.coherent h r.coherent })
  ]
  step-Refines (getting key) h s r =
      let g = get-Got dec key s r.valid in
      (
        λ v e. g.value h v r.coherent e,
        record { valid = g.valid; coherent = g.coherent h r.coherent },
      )
  step-Refines (erasing key) h s r =
      let e = erase-Erased dec key s r.valid in
      (refl, record { valid = e.valid; coherent = e.coherent h r.coherent })

  -- From a valid cache whose values are those of a map, every run of put, get and erase answers each
  -- get with nothing or with the value of the map, that is the last value put and not erased, and
  -- ends in a valid cache; a valid cache keeps the sum of the capacities of its parts, the bounds
  -- on their nodes and histories, and each key in at most one part.
  pub run-Answers :
      (cs : List (Call K V)) (h : History K V) (s : ArcCache K V)
      → Refines h s
      → Answers dec cs h (run dec cs s).0 × IsValid dec (run dec cs s).1
  unfolding run
  run-Answers [] h s r = (finished h, r.valid)
  run-Answers (c ∷ cs) h s r =
      let (a, next) = step-Refines c h s r in
      let (later, end) = run-Answers cs (map_step dec c h) (step dec c s).1 next in
      (answered c cs h (step dec c s).0 (run dec cs (step dec c s).1).0 a later, end)

  pub make_cache-Refines : (cap trans : ℕ) → Refines (λ _. none) (make_cache cap trans)
  unfolding make_cache
  make_cache-Refines cap trans = record {
    valid = subst (IsValid dec) refl (make_cache-IsValid dec cap trans);
    coherent = record { in_lru = tt; in_lfu = tt };
  }

  -- For a valid cache that is not disabled, a get right after a put of the key returns the value put.
  pub get-put :
      (key : K) (value : V) (h : History K V) (s : ArcCache K V)
      → Refines h s
      → 0 < s.capacity
      → (get dec key (put dec key value s)).0 ≡ some value
  get-put key value h s r c =
      let w = put-Written dec key value s r.valid c in
      let g = get-Got dec key (put dec key value s) w.valid in
      let there = w.resident in
      elim (Option-cases (get dec key (put dec key value s)).0) [
        | inl e ↦ let m = g.misses e in absurd (omega arith)
        | inr (v, e) ↦
            let k = g.value (write dec key (some value) h) v (w.coherent h r.coherent) e in
            let q = same_refl dec key in e ∙ sym k ∙ rw q refl
      ]
