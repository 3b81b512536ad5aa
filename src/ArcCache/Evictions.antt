-- ===== src/ArcCache/Evictions.antt =====
-- Evictions from the LFU part, and the loop that makes its capacity smaller.
use cpp_tlfss.Base.{
  ltb, ◌==◌, if◌then◌else◌, ==_refl, if-keeps, length, is_empty, length-append, length-drop,
  All-front, ℕ, zero, suc, ◌+◌, ◌-◌, ◌≤◌, min, ◌≡◌, refl, sym, ◌∙◌, subst, Bool, false, List, [],
  ◌∷◌, arith,
}
use cpp_tlfss.ArcCache.Node.{Node}
use cpp_tlfss.ArcCache.Lfu.{
  FreqMap, ArcLfu, bucket, assign, keep_bucket, nodes, first_freq, add_to_ghost, trim_ghosts,
  evict_least_frequent, shrink, decrease_capacity,
}
use cpp_tlfss.ArcCache.Content.{one, total, Shrinks, Shrinks-refl, Shrinks-trans}
use cpp_tlfss.ArcCache.Buckets.{
  IsBuckets, IsMin, keep_bucket-IsBuckets, keep_bucket-total, keep_bucket-Fits, assign-first,
  first-IsMin, IsMin-first,
}
use cpp_tlfss.ArcCache.Rising.{IsSound, nodes-length}

same_min : (f : ℕ) → min f f ≡ f
same_min f = omega arith

module _ {ℓ} {K : Type ℓ} where
  appended_ghosts :
      (c : ℕ) (key : K) (ks : List K) → length ks ≤ c - 1 → length (add_to_ghost c key ks) ≤ c
  unfolding add_to_ghost
  appended_ghosts c key ks h = let a = length-append ks (key ∷ []) in ground arith

module _ {ℓ} {K V : Type ℓ} (dec : Discrete K) where
  trimmed :
      (s : ArcLfu K V)
      → length s.ghost_list ≤ s.ghost_capacity
      → length (trim_ghosts dec s) ≤ s.ghost_capacity - 1
  trimmed s h = let d = length-drop 1 s.ghost_list in ground arith

  -- What an eviction keeps; the bounds are those of the state before.
  pub record Evicts (new old : ArcLfu K V) : Type ℓ where
    pub shrinks : Shrinks (nodes new.freq_map) (nodes old.freq_map)
    pub size : length (nodes new.freq_map) ≡ length (nodes old.freq_map) - 1
    pub same_capacity : new.capacity ≡ old.capacity
    pub same_ghosts : new.ghost_capacity ≡ old.ghost_capacity
    pub ghosts_fit : length new.ghost_list ≤ old.ghost_capacity
    pub buckets : IsBuckets 0 new.freq_map
    pub least : IsMin new.min_freq new.freq_map

  -- The state without the bound on its nodes, which does not hold inside the loop.
  pub record IsOrdered (s : ArcLfu K V) : Type ℓ where
    pub buckets : IsBuckets 0 s.freq_map
    pub least : IsMin s.min_freq s.freq_map
    pub ghosts_fit : length s.ghost_list ≤ s.ghost_capacity

  -- The first node of the lowest bucket goes.
  taken :
      (n : Node K V) (ns : List (Node K V)) (f : ℕ) (m : FreqMap K V) (s : ArcLfu K V)
      → IsOrdered (record s { freq_map = (f, n ∷ ns) ∷ m; min_freq = f })
      → Evicts
          (record s {
            freq_map = keep_bucket f ns ((f, n ∷ ns) ∷ m);
            min_freq = if is_empty ns then first_freq f (keep_bucket f ns ((f, n ∷ ns) ∷ m)) else f;
            ghost_list = add_to_ghost s.ghost_capacity n.key (trim_ghosts dec s);
          })
          (record s { freq_map = (f, n ∷ ns) ∷ m; min_freq = f })
  unfolding bucket assign
  taken n ns f m s v =
      let old = (f, n ∷ ns) ∷ m in
      let t = λ (w : K → ℕ). keep_bucket-total w f 0 ns old v.buckets in
      let b : bucket f old ≡ n ∷ ns = rw (==_refl f) refl in
      let weights = λ (w : K → ℕ).
        subst
          (λ l.
            total w (nodes (keep_bucket f ns old)) + total w l ≡ total w ns + total w (nodes old))
          b (t w) in
      let counted = v.buckets.1.1.0 in
      record {
        shrinks = record {
          weight = λ w. let q = weights w in omega arith;
          fits = λ h k. keep_bucket-Fits h f ns old (All-front _ ns (nodes m) k.1) k;
        };
        size =
            let q = weights one in
            let a = nodes-length dec (keep_bucket f ns old) in
            let c = nodes-length dec old in omega arith;
        same_capacity = refl;
        same_ghosts = refl;
        ghosts_fit =
            appended_ghosts s.ghost_capacity n.key (trim_ghosts dec s) (trimmed s v.ghosts_fit);
        buckets = keep_bucket-IsBuckets f 0 ns old v.buckets.0 counted.1 v.buckets;
        least = lowest ns;
      }
    where
      lowest :
          (ns : List (Node K V))
          → IsMin
              (if is_empty ns then first_freq f (keep_bucket f ns ((f, n ∷ ns) ∷ m)) else f)
              (keep_bucket f ns ((f, n ∷ ns) ∷ m))
      lowest [] = first-IsMin f (keep_bucket f [] ((f, n ∷ []) ∷ m))
      lowest (x ∷ xs) =
          IsMin-first f (assign f (x ∷ xs) ((f, n ∷ x ∷ xs) ∷ m))
            (assign-first f f (x ∷ xs) ((f, n ∷ x ∷ xs) ∷ m) ∙ same_min f)

  evict_first :
      (n : Node K V) (ns : List (Node K V)) (f : ℕ) (m : FreqMap K V) (s : ArcLfu K V)
      → IsOrdered (record s { freq_map = (f, n ∷ ns) ∷ m; min_freq = f })
      → Evicts
          (evict_least_frequent dec (record s { freq_map = (f, n ∷ ns) ∷ m; min_freq = f }))
          (record s { freq_map = (f, n ∷ ns) ∷ m; min_freq = f })
  unfolding evict_least_frequent bucket
  evict_first n ns f m s v = rw (evict_least_frequent, bucket, ==_refl f) (taken n ns f m s v)

  evict_map :
      (m : FreqMap K V) (s : ArcLfu K V)
      → IsOrdered (record s { freq_map = m })
      → Evicts (evict_least_frequent dec (record s { freq_map = m })) (record s { freq_map = m })
  unfolding evict_least_frequent bucket
  evict_map [] s v = record {
    shrinks = Shrinks-refl [];
    size = omega arith;
    same_capacity = refl;
    same_ghosts = refl;
    ghosts_fit = v.ghosts_fit;
    buckets = tt;
    least = tt;
  }
  evict_map ((f, []) ∷ m) s v = absurd (full v.buckets.1.0)
    where
      full : is_empty {A = Node K V} [] ≡ false → ⊥
      full h = cc
  evict_map ((f, n ∷ ns) ∷ m) s v =
      let e = v.least in
      subst
        (λ k.
          Evicts (evict_least_frequent dec (record s { freq_map = (f, n ∷ ns) ∷ m; min_freq = k }))
            (record s { freq_map = (f, n ∷ ns) ∷ m; min_freq = k }))
        (sym e)
        (evict_first n ns f m s
          (record { buckets = v.buckets; least = refl; ghosts_fit = v.ghosts_fit }))

  pub evict-Evicts : (s : ArcLfu K V) → IsOrdered s → Evicts (evict_least_frequent dec s) s
  evict-Evicts s v = evict_map s.freq_map s v

  -- The loop ends with the nodes within the capacity.
  pub record Shrunk (new old : ArcLfu K V) : Type ℓ where
    pub shrinks : Shrinks (nodes new.freq_map) (nodes old.freq_map)
    pub sound : IsSound new
    pub same_capacity : new.capacity ≡ old.capacity
    pub same_ghosts : new.ghost_capacity ≡ old.ghost_capacity

  stays : (s : ArcLfu K V) → IsOrdered s → length (nodes s.freq_map) ≤ s.capacity → Shrunk s s
  stays s v h = record {
    shrinks = Shrinks-refl (nodes s.freq_map);
    sound = record {
      buckets = v.buckets;
      least = v.least;
      nodes_fit = h;
      ghosts_fit = v.ghosts_fit;
    };
    same_capacity = refl;
    same_ghosts = refl;
  }

  pub shrink-Shrunk :
      (fuel : ℕ) (s : ArcLfu K V)
      → IsOrdered s
      → length (nodes s.freq_map) ≤ fuel + s.capacity
      → Shrunk (shrink dec fuel s) s
  unfolding shrink
  shrink-Shrunk zero s v h = stays s v (omega arith)
  shrink-Shrunk (suc fuel) s v h =
      let e = evict-Evicts s v in
      let size = e.size in
      let c = e.same_capacity in
      let g = e.same_ghosts in
      let k = e.ghosts_fit in
      let next =
        shrink-Shrunk fuel (evict_least_frequent dec s)
          (record { buckets = e.buckets; least = e.least; ghosts_fit = omega arith })
          (omega arith) in
      if-keeps (λ (t : ArcLfu K V). Shrunk t s) (ltb s.capacity (length (nodes s.freq_map)))
        (λ _. record {
          shrinks = Shrinks-trans next.shrinks e.shrinks;
          sound = next.sound;
          same_capacity = next.same_capacity ∙ c;
          same_ghosts = next.same_ghosts ∙ g;
        })
        (λ k. stays s v (le_of s.capacity (length (nodes s.freq_map)) k))
    where
      le_of : (a b : ℕ) → ltb a b ≡ false → b ≤ a
      le_of a b h = ground arith

  pub record Decreased (result : Bool × ArcLfu K V) (old : ArcLfu K V) : Type ℓ where
    pub success : result.0 ≡ ltb 0 old.capacity
    pub capacity_is : result.1.capacity ≡ old.capacity - 1
    pub sound : IsSound result.1
    pub same_ghosts : result.1.ghost_capacity ≡ old.ghost_capacity
    pub shrinks : Shrinks (nodes result.1.freq_map) (nodes old.freq_map)

  -- For a sound LFU part, decreasing the capacity fails exactly at zero; the loop of evictions ends
  -- after as many rounds as there are nodes, with the part sound within a capacity that is one less.
  pub decrease-Decreased : (s : ArcLfu K V) → IsSound s → Decreased (decrease_capacity dec s) s
  unfolding decrease_capacity
  decrease-Decreased s v =
      let a =
        shrink-Shrunk (length (nodes s.freq_map)) (record s { capacity = s.capacity - 1 })
          (record { buckets = v.buckets; least = v.least; ghosts_fit = v.ghosts_fit })
          (omega arith) in
      if-keeps (λ (r : Bool × ArcLfu K V). Decreased r s) (s.capacity == 0)
        (λ z. record {
          success = ground arith;
          capacity_is = ground arith;
          sound = v;
          same_ghosts = refl;
          shrinks = Shrinks-refl (nodes s.freq_map);
        })
        (λ z. record {
          success = ground arith;
          capacity_is = a.same_capacity;
          sound = a.sound;
          same_ghosts = a.same_ghosts;
          shrinks = a.shrinks;
        })
