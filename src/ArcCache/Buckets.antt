-- ===== src/ArcCache/Buckets.antt =====
-- The map of frequencies: ascending, without empty buckets, each node in the bucket of its count.
use cpp_tlfss.Base.{
  ltb, ◌==◌, ltb→lt, if-keeps, is_empty, All, All-append, All-front, All-back, ℕ, ◌+◌, ◌≤◌, ◌<◌,
  min, ◌≡◌, refl, sym, ap, subst, false, List, [], ◌∷◌, ◌++◌, arith,
}
use cpp_tlfss.ArcCache.Node.{Node}
use cpp_tlfss.ArcCache.Lfu.{FreqMap, bucket, assign, erase_bucket, keep_bucket, nodes, first_freq}
use cpp_tlfss.ArcCache.Content.{History, total, Fits, total-append}

module _ {ℓ} {K V : Type ℓ} where
  abbrev pub Counted : ℕ → List (Node K V) → Type 0
  Counted f = All (λ n. n.access_count ≡ f)

  -- The buckets of a map lie above a frequency.
  abbrev pub IsBuckets : ℕ → FreqMap K V → Type 0
  IsBuckets lo [] = Unit
  IsBuckets lo ((f, ns) ∷ m) = (lo < f) × ((is_empty ns ≡ false) × (Counted f ns × IsBuckets f m))

  abbrev pub IsMin : ℕ → FreqMap K V → Type 0
  IsMin least [] = Unit
  IsMin least ((f, ns) ∷ m) = least ≡ f

  pub IsBuckets-weaken :
      (lo lo' : ℕ) (m : FreqMap K V) → lo' ≤ lo → IsBuckets lo m → IsBuckets lo' m
  IsBuckets-weaken lo lo' [] h v = tt
  IsBuckets-weaken lo lo' ((f, ns) ∷ m) h v = (omega (arith, v.0), v.1)

  pub bucket-above : (f lo : ℕ) (m : FreqMap K V) → f ≤ lo → IsBuckets lo m → bucket f m ≡ []
  unfolding bucket
  bucket-above f lo [] h v = refl
  bucket-above f lo ((g, ns) ∷ m) h v =
      let above = v.0 in let ih = bucket-above f g m (omega arith) v.1.1.1 in ground arith

  pub bucket-Counted : (f lo : ℕ) (m : FreqMap K V) → IsBuckets lo m → Counted f (bucket f m)
  unfolding bucket
  bucket-Counted f lo [] v = tt
  bucket-Counted f lo ((g, ns) ∷ m) v =
      if-keeps (Counted f) (f == g) (λ e. subst (λ k. Counted k ns) (ground arith) v.1.1.0)
        (λ _. bucket-Counted f g m v.1.1.1)

  pub assign-IsBuckets :
      (f lo : ℕ) (ns : List (Node K V)) (m : FreqMap K V)
      → lo < f
      → is_empty ns ≡ false
      → Counted f ns
      → IsBuckets lo m
      → IsBuckets lo (assign f ns m)
  unfolding assign
  assign-IsBuckets f lo ns [] h e c v = (h, (e, (c, tt)))
  assign-IsBuckets f lo ns ((g, old) ∷ m) h e c v =
      if-keeps (IsBuckets lo) (ltb g f)
        (λ k. (v.0, (v.1.0, (v.1.1.0, assign-IsBuckets f g ns m (ltb→lt g f k) e c v.1.1.1))))
        (λ k.
          if-keeps (IsBuckets lo) (f == g)
            (λ p. (h, (e, (c, subst (λ q. IsBuckets q m) (ground arith) v.1.1.1))))
            (λ p. (h, (e, (c, (ground arith, v.1))))))

  pub erase_bucket-IsBuckets :
      (f lo : ℕ) (m : FreqMap K V) → IsBuckets lo m → IsBuckets lo (erase_bucket f m)
  unfolding erase_bucket
  erase_bucket-IsBuckets f lo [] v = tt
  erase_bucket-IsBuckets f lo ((g, old) ∷ m) v =
      let above = v.0 in
      if-keeps (IsBuckets lo) (f == g) (λ _. IsBuckets-weaken g lo m (omega arith) v.1.1.1)
        (λ _. (v.0, (v.1.0, (v.1.1.0, erase_bucket-IsBuckets f g m v.1.1.1))))

  pub keep_bucket-IsBuckets :
      (f lo : ℕ) (ns : List (Node K V)) (m : FreqMap K V)
      → lo < f
      → Counted f ns
      → IsBuckets lo m
      → IsBuckets lo (keep_bucket f ns m)
  keep_bucket-IsBuckets f lo [] m h c v = erase_bucket-IsBuckets f lo m v
  keep_bucket-IsBuckets f lo (n ∷ ns) m h c v = assign-IsBuckets f lo (n ∷ ns) m h refl c v

  -- The weights of the nodes behind an assignment or a removal.
  pub assign-total :
      (w : K → ℕ) (f lo : ℕ) (ns : List (Node K V)) (m : FreqMap K V)
      → IsBuckets lo m
      → total w (nodes (assign f ns m)) + total w (bucket f m) ≡ total w ns + total w (nodes m)
  unfolding assign bucket
  assign-total w f lo ns [] v = let a = total-append w ns [] in omega arith
  assign-total w f lo ns ((g, old) ∷ m) v =
      let ih = assign-total w f g ns m v.1.1.1 in
      let a = total-append w ns (nodes m) in
      let b = total-append w old (nodes m) in
      let c = total-append w old (nodes (assign f ns m)) in
      let d = total-append w ns (old ++ nodes m) in
      let z = λ (h : f ≤ g). ap (total w) (bucket-above f g m h v.1.1.1) in ground arith

  pub erase_bucket-total :
      (w : K → ℕ) (f : ℕ) (m : FreqMap K V)
      → total w (nodes (erase_bucket f m)) + total w (bucket f m) ≡ total w (nodes m)
  unfolding erase_bucket bucket
  erase_bucket-total w f [] = refl
  erase_bucket-total w f ((g, old) ∷ m) =
      let ih = erase_bucket-total w f m in
      let b = total-append w old (nodes m) in
      let c = total-append w old (nodes (erase_bucket f m)) in ground arith

  pub keep_bucket-total :
      (w : K → ℕ) (f lo : ℕ) (ns : List (Node K V)) (m : FreqMap K V)
      → IsBuckets lo m
      → total w (nodes (keep_bucket f ns m)) + total w (bucket f m) ≡ total w ns + total w (nodes m)
  keep_bucket-total w f lo [] m v = let e = erase_bucket-total w f m in omega arith
  keep_bucket-total w f lo (n ∷ ns) m v = assign-total w f lo (n ∷ ns) m v

  pub bucket-Fits :
      (h : History K V) (f : ℕ) (m : FreqMap K V) → Fits h (nodes m) → Fits h (bucket f m)
  unfolding bucket
  bucket-Fits h f [] k = tt
  bucket-Fits h f ((g, old) ∷ m) k =
      if-keeps (Fits h) (f == g) (λ _. All-front _ old (nodes m) k)
        (λ _. bucket-Fits h f m (All-back _ old (nodes m) k))

  pub assign-Fits :
      (h : History K V) (f : ℕ) (ns : List (Node K V)) (m : FreqMap K V)
      → Fits h ns
      → Fits h (nodes m)
      → Fits h (nodes (assign f ns m))
  unfolding assign
  assign-Fits h f ns [] a b = All-append _ ns [] a b
  assign-Fits h f ns ((g, old) ∷ m) a b =
      let o = All-front _ old (nodes m) b in
      let r = All-back _ old (nodes m) b in
      if-keeps (λ l. Fits h (nodes l)) (ltb g f)
        (λ _. All-append _ old (nodes (assign f ns m)) o (assign-Fits h f ns m a r))
        (λ _.
          if-keeps (λ l. Fits h (nodes l)) (f == g) (λ _. All-append _ ns (nodes m) a r)
            (λ _. All-append _ ns (old ++ nodes m) a b))

  pub erase_bucket-Fits :
      (h : History K V) (f : ℕ) (m : FreqMap K V)
      → Fits h (nodes m)
      → Fits h (nodes (erase_bucket f m))
  unfolding erase_bucket
  erase_bucket-Fits h f [] b = tt
  erase_bucket-Fits h f ((g, old) ∷ m) b =
      let o = All-front _ old (nodes m) b in
      let r = All-back _ old (nodes m) b in
      if-keeps (λ l. Fits h (nodes l)) (f == g) (λ _. r)
        (λ _. All-append _ old (nodes (erase_bucket f m)) o (erase_bucket-Fits h f m r))

  pub keep_bucket-Fits :
      (h : History K V) (f : ℕ) (ns : List (Node K V)) (m : FreqMap K V)
      → Fits h ns
      → Fits h (nodes m)
      → Fits h (nodes (keep_bucket f ns m))
  keep_bucket-Fits h f [] m a b = erase_bucket-Fits h f m b
  keep_bucket-Fits h f (n ∷ ns) m a b = assign-Fits h f (n ∷ ns) m a b

  -- The first frequency behind an assignment.
  pub assign-first :
      (f d : ℕ) (ns : List (Node K V)) (m : FreqMap K V)
      → first_freq d (assign f ns m) ≡ min f (first_freq f m)
  unfolding assign
  assign-first f d ns [] = omega arith
  assign-first f d ns ((g, old) ∷ m) = ground arith

  pub first-IsMin : (d : ℕ) (m : FreqMap K V) → IsMin (first_freq d m) m
  first-IsMin d [] = tt
  first-IsMin d ((f, ns) ∷ m) = refl

  pub IsMin-first : (least : ℕ) (m : FreqMap K V) → first_freq least m ≡ least → IsMin least m
  IsMin-first least [] h = tt
  IsMin-first least ((f, ns) ∷ m) h = sym h
