-- ===== src/ArcCache/Rising.antt =====
-- The state of the LFU part is sound, and stays so when a node rises, enters or is evicted.
use cpp_tlfss.Base.{
  length, is_empty, All-append, ℕ, ◌+◌, ◌≤◌, ◌<◌, ◌≡◌, refl, sym, ap, ap₂, ◌∙◌, subst, false, some,
  List, [], ◌∷◌, ◌++◌, arith,
}
use cpp_tlfss.ArcCache.Node.{Node, find, unlink}
use cpp_tlfss.ArcCache.Lfu.{
  FreqMap, ArcLfu, bucket, assign, keep_bucket, nodes, update_node_frequency,
}
use cpp_tlfss.ArcCache.Content.{
  History, one, total, Fits, total-append, total-length, at, same_refl, find-key, find-total,
  unlink-Fits, Erases,
}
use cpp_tlfss.ArcCache.Buckets.{
  IsBuckets, IsMin, bucket-Counted, assign-IsBuckets, keep_bucket-IsBuckets, assign-total,
  keep_bucket-total, bucket-Fits, assign-Fits, keep_bucket-Fits, IsMin-first,
}
use cpp_tlfss.ArcCache.Frequency.{raised_min-first, unlink-Counted, find-bucket}

-- The buckets are in order and none is empty, the lowest frequency is known, and the bounds hold.
pub record IsSound {ℓ} {K V : Type ℓ} (s : ArcLfu K V) : Type ℓ where
  pub buckets : IsBuckets 0 s.freq_map
  pub least : IsMin s.min_freq s.freq_map
  pub nodes_fit : length (nodes s.freq_map) ≤ s.capacity
  pub ghosts_fit : length s.ghost_list ≤ s.ghost_capacity

module _ {ℓ} {K V : Type ℓ} (dec : Discrete K) where
  -- The map without the node of a key.
  abbrev pub left : K → ℕ → FreqMap K V → FreqMap K V
  left key f m = keep_bucket f (unlink dec key (bucket f m)) m

  pub left-total :
      (w : K → ℕ) (key : K) (n : Node K V) (m : FreqMap K V)
      → IsBuckets 0 m
      → find dec key (nodes m) ≡ some n
      → total w (nodes (left key n.access_count m)) + w n.key ≡ total w (nodes m)
  left-total w key n m v e =
      let f = n.access_count in
      let b = find-bucket dec 0 key m n v e in
      let t = find-total dec w key (bucket f m) n b.1 in
      let k = keep_bucket-total w f 0 (unlink dec key (bucket f m)) m v in omega arith

  pub left-Fits :
      (h : History K V) (key : K) (f : ℕ) (m : FreqMap K V)
      → Fits h (nodes m)
      → Fits h (nodes (left key f m))
  left-Fits h key f m k =
      keep_bucket-Fits h f (unlink dec key (bucket f m)) m
        (unlink-Fits dec h key (bucket f m) (bucket-Fits h f m k)) k

  pub left-IsBuckets :
      (key : K) (n : Node K V) (m : FreqMap K V)
      → IsBuckets 0 m
      → find dec key (nodes m) ≡ some n
      → IsBuckets 0 (left key n.access_count m)
  left-IsBuckets key n m v e =
      let f = n.access_count in
      let b = find-bucket dec 0 key m n v e in
      keep_bucket-IsBuckets f 0 (unlink dec key (bucket f m)) m b.0
        (unlink-Counted dec f key (bucket f m) (bucket-Counted f 0 m v)) v

  -- A key that is gone.
  pub left-Erases :
      (key : K) (n : Node K V) (m : FreqMap K V)
      → IsBuckets 0 m
      → find dec key (nodes m) ≡ some n
      → Erases dec key (nodes (left key n.access_count m)) (nodes m)
  left-Erases key n m v e = record {
    shrinks = record {
      weight = λ w. omega (arith, left-total w key n m v e);
      fits = λ h k. left-Fits h key n.access_count m k;
    };
    gone = λ u.
        let p = find-key dec key (nodes m) n e in
        let r = same_refl dec key in
        let t = left-total (at dec key) key n m v e in
        let q =
          subst
            (λ a.
              total (at dec key) (nodes (left key n.access_count m)) + at dec key a
              ≡ total (at dec key) (nodes m))
            p t in
        ground arith;
  }

  -- A node enters at the end of a bucket.
  abbrev pub enter : ℕ → Node K V → FreqMap K V → FreqMap K V
  enter f n m = assign f (bucket f m ++ (n ∷ [])) m

  pub enter-total :
      (w : K → ℕ) (f : ℕ) (n : Node K V) (m : FreqMap K V)
      → IsBuckets 0 m
      → total w (nodes (enter f n m)) ≡ w n.key + total w (nodes m)
  enter-total w f n m v =
      let a = assign-total w f 0 (bucket f m ++ (n ∷ [])) m v in
      let b = total-append w (bucket f m) (n ∷ []) in omega arith

  pub enter-Fits :
      (h : History K V) (f : ℕ) (n : Node K V) (m : FreqMap K V)
      → h n.key ≡ some n.value
      → Fits h (nodes m)
      → Fits h (nodes (enter f n m))
  enter-Fits h f n m e k =
      assign-Fits h f (bucket f m ++ (n ∷ [])) m
        (All-append _ (bucket f m) (n ∷ []) (bucket-Fits h f m k) (e, tt)) k

  pub enter-IsBuckets :
      (f : ℕ) (n : Node K V) (m : FreqMap K V)
      → 0 < f
      → n.access_count ≡ f
      → IsBuckets 0 m
      → IsBuckets 0 (enter f n m)
  enter-IsBuckets f n m h c v =
      assign-IsBuckets f 0 (bucket f m ++ (n ∷ [])) m h (filled (bucket f m))
        (All-append _ (bucket f m) (n ∷ []) (bucket-Counted f 0 m v) (c, tt)) v
    where
      filled : (xs : List (Node K V)) → is_empty (xs ++ (n ∷ [])) ≡ false
      filled [] = refl
      filled (x ∷ xs) = refl

  pub nodes-length : (m : FreqMap K V) → length (nodes m) ≡ total one (nodes m)
  nodes-length m = sym (total-length (nodes m))

  found_filled :
      (key : K) (xs : List (Node K V)) (n : Node K V)
      → find dec key xs ≡ some n
      → is_empty xs ≡ false
  unfolding find
  found_filled key [] n h = absurd cc
  found_filled key (x ∷ xs) n h = refl

  -- A node rises from its bucket to the next, perhaps with another value.
  pub record Rises (x : Node K V) (new old : ArcLfu K V) : Type ℓ where
    pub sound : IsSound new
    pub same_capacity : new.capacity ≡ old.capacity
    pub same_ghosts : new.ghost_capacity ≡ old.ghost_capacity
    pub weight : (w : K → ℕ) → total w (nodes new.freq_map) ≡ total w (nodes old.freq_map)
    pub fits :
        (h : History K V)
        → h x.key ≡ some x.value
        → Fits h (nodes (left x.key x.access_count old.freq_map))
        → Fits h (nodes new.freq_map)

  pub update-Rises :
      (x n : Node K V) (s : ArcLfu K V)
      → IsSound s
      → find dec n.key (nodes s.freq_map) ≡ some n
      → x.key ≡ n.key
      → x.access_count ≡ n.access_count
      → Rises x (update_node_frequency dec x s) s
  unfolding update_node_frequency
  update-Rises x n s v e k c =
      let m = s.freq_map in
      let f = x.access_count in
      let y = record x { access_count = f + 1 } in
      let e' : find dec x.key (nodes m) ≡ some n = ap (λ a. find dec a (nodes m)) k ∙ e in
      let lt = λ (w : K → ℕ). left-total w x.key n m v.buckets e' in
      let lb =
        subst (λ g. IsBuckets 0 (left x.key g m)) (sym c) (left-IsBuckets x.key n m v.buckets e') in
      let rest = left x.key f m in
      let weights = λ (w : K → ℕ).
        enter-total w (f + 1) y rest lb
        ∙ ap₂ (λ a g. w a + total w (nodes (left x.key g m))) k c
        ∙ swap (w n.key) (total w (nodes (left x.key n.access_count m)))
        ∙ lt w in
      let b = find-bucket dec 0 x.key m n v.buckets e' in
      let filled =
        subst (λ g. is_empty (bucket g m) ≡ false) (sym c)
          (found_filled x.key (bucket n.access_count m) n b.1) in
      record {
        sound = record {
          buckets = enter-IsBuckets (f + 1) y rest (omega arith) refl lb;
          least = IsMin-first _ _ (
              raised_min-first f s.min_freq (unlink dec x.key (bucket f m))
                (bucket (f + 1) rest ++ (y ∷ [])) m v.buckets v.least filled);
          nodes_fit =
              let a = nodes-length (enter (f + 1) y rest) in
              let o = nodes-length m in let t = weights one in let fit = v.nodes_fit in omega arith;
          ghosts_fit = v.ghosts_fit;
        };
        same_capacity = refl;
        same_ghosts = refl;
        weight = weights;
        fits = λ h p q. enter-Fits h (f + 1) y rest p q;
      }
    where
      swap : (a b : ℕ) → a + b ≡ b + a
      swap a b = omega arith
