-- ===== src/ArcCache/Frequency.antt =====
-- A node that leaves its bucket, one that rises to the next, and the eviction from the lowest.
use cpp_tlfss.Base.{
  if-keeps, is_empty, ℕ, ◌+◌, ◌≤◌, ◌<◌, ◌≡◌, refl, sym, subst, ◌⊎◌, inl, inr, false, some, List, [],
  ◌∷◌, ◌++◌, arith,
}
use cpp_tlfss.ArcCache.Node.{Node, same, find, unlink}
use cpp_tlfss.ArcCache.Lfu.{
  FreqMap, bucket, assign, erase_bucket, keep_bucket, nodes, first_freq, raised_min,
}
use cpp_tlfss.ArcCache.Buckets.{Counted, IsBuckets, IsMin, bucket-above, assign-first}

-- A predicate holds of the result of a case split when it holds of each case.
pub List-keeps {ℓ κ μ} :
    {A : Type ℓ} {B : Type κ} (P : B → Type μ) (xs : List A) (x : B) (f : A → List A → B)
    → (xs ≡ [] → P x)
    → ((a : A) (rest : List A) → xs ≡ a ∷ rest → P (f a rest))
    → P (elim xs [ [] ↦ x | a ∷ rest ↦ f a rest ])
List-keeps P [] x f h k = h refl
List-keeps P (a ∷ rest) x f h k = k a rest refl

module _ {ℓ} {K V : Type ℓ} where
  above-first : (g d : ℕ) (m : FreqMap K V) → d ≤ g + 1 → IsBuckets g m → d ≤ first_freq d m
  above-first g d [] h v = omega arith
  above-first g d ((f, ns) ∷ m) h v = let a = v.0 in omega arith

  -- The lowest frequency after a node rose from a bucket.
  pub raised_min-first :
      (f least : ℕ) (left ns : List (Node K V)) (m : FreqMap K V)
      → IsBuckets 0 m
      → IsMin least m
      → is_empty (bucket f m) ≡ false
      → first_freq (raised_min left f least) (assign (f + 1) ns (keep_bucket f left m))
        ≡ raised_min left f least
  unfolding bucket erase_bucket
  raised_min-first f least left ns [] v l e = absurd cc
  raised_min-first f least [] ns ((g, old) ∷ m) v l e =
      let a =
        assign-first (f + 1) (raised_min {K = K} {V = V} [] f least) ns
          (erase_bucket f ((g, old) ∷ m)) in
      let up = λ (p : f ≡ g). above-first g (f + 1) m (omega arith) v.1.1.1 in
      let in_front = λ (p : f ≤ g). bucket-above f g m p v.1.1.1 in ground arith
  raised_min-first f least (x ∷ xs) ns ((g, old) ∷ m) v l e =
      let a =
        assign-first (f + 1) (raised_min (x ∷ xs) f least) ns (assign f (x ∷ xs) ((g, old) ∷ m)) in
      let b = assign-first f (f + 1) (x ∷ xs) ((g, old) ∷ m) in
      let in_front = λ (p : f ≤ g). bucket-above f g m p v.1.1.1 in ground arith

module _ {ℓ} {K V : Type ℓ} (dec : Discrete K) where
  find-append :
      (key : K) (xs ys : List (Node K V)) (n : Node K V)
      → find dec key (xs ++ ys) ≡ some n
      → (find dec key xs ≡ some n) ⊎ (find dec key ys ≡ some n)
  unfolding find
  find-append key [] ys n h = inr h
  find-append key (x ∷ xs) ys n h = let ih = find-append key xs ys n in ground arith

  pub find-Counted :
      (f : ℕ) (key : K) (xs : List (Node K V)) (n : Node K V)
      → Counted f xs
      → find dec key xs ≡ some n
      → n.access_count ≡ f
  unfolding find
  find-Counted f key [] n c h = absurd cc
  find-Counted f key (x ∷ xs) n c h =
      let ih = find-Counted f key xs n c.1 in let p = c.0 in ground arith

  pub unlink-Counted :
      (f : ℕ) (key : K) (xs : List (Node K V)) → Counted f xs → Counted f (unlink dec key xs)
  unfolding unlink
  unlink-Counted f key [] c = tt
  unlink-Counted f key (x ∷ xs) c =
      if-keeps (Counted f) (same dec x.key key) (λ _. c.1) (λ _. (c.0, unlink-Counted f key xs c.1))

  -- A node that is found stands in the bucket of its count.
  pub find-bucket :
      (lo : ℕ) (key : K) (m : FreqMap K V) (n : Node K V)
      → IsBuckets lo m
      → find dec key (nodes m) ≡ some n
      → (lo < n.access_count) × (find dec key (bucket n.access_count m) ≡ some n)
  unfolding bucket find
  find-bucket lo key [] n v h = absurd (nothing h)
    where
      nothing : find dec key [] ≡ some n → ⊥
      nothing h = cc
  find-bucket lo key ((g, ns) ∷ m) n v h = elim (find-append key ns (nodes m) n h) [
    | inl e ↦
        let c = find-Counted g key ns n v.1.1.0 e in (subst (λ k. lo < k) (sym c) v.0, ground arith)
    | inr e ↦
        let r = find-bucket g key m n v.1.1.1 e in
        let a = v.0 in let b = r.0 in (omega arith, ground arith)
  ]
