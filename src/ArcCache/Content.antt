-- ===== src/ArcCache/Content.antt =====
-- What is in a list of nodes: the weight of its keys, which counts nodes or the nodes of a key, and
-- whether its values are those of a history.
use cpp_tlfss.Base.{
  if◌then◌else◌, if-keeps, length, All, ℕ, ◌+◌, ◌≤◌, ◌<◌, ◌≡◌, refl, sym, ap, ◌∙◌, subst, true,
  false, Option, none, some, List, [], ◌∷◌, ◌++◌, arith,
}
use cpp_tlfss.ArcCache.Node.{Node, new_node, drop_last, last, same, find, unlink}

-- The last value put for each key, where it was not erased.
abbrev pub History {ℓ} : (K V : Type ℓ) → Type ℓ
History K V = K → Option V

abbrev pub one {ℓ} : {K : Type ℓ} → K → ℕ
one k = 1

module _ {ℓ} {K V : Type ℓ} where
  abbrev pub total : (K → ℕ) → List (Node K V) → ℕ
  total w [] = 0
  total w (n ∷ ns) = w n.key + total w ns

  abbrev pub Fits : History K V → List (Node K V) → Type ℓ
  Fits h = All (λ n. h n.key ≡ some n.value)

  pub total-append :
      (w : K → ℕ) (xs ys : List (Node K V)) → total w (xs ++ ys) ≡ total w xs + total w ys
  total-append w [] ys = omega arith
  total-append w (x ∷ xs) ys = omega (arith, total-append w xs ys)

  pub total-length : (ns : List (Node K V)) → total one ns ≡ length ns
  total-length [] = refl
  total-length (n ∷ ns) = omega (arith, total-length ns)

  pub total-drop_last :
      (w : K → ℕ) (n : Node K V) (ns : List (Node K V))
      → total w (drop_last (n ∷ ns)) + w (last n ns).key ≡ total w (n ∷ ns)
  total-drop_last w n [] = omega arith
  total-drop_last w n (m ∷ ns) = omega (arith, total-drop_last w m ns)

  pub Fits-drop_last : (h : History K V) (ns : List (Node K V)) → Fits h ns → Fits h (drop_last ns)
  Fits-drop_last h [] f = tt
  Fits-drop_last h (n ∷ []) f = tt
  Fits-drop_last h (n ∷ m ∷ ns) f = (f.0, Fits-drop_last h (m ∷ ns) f.1)

-- Nodes were at most lost.
pub record Shrinks {ℓ} {K V : Type ℓ} (new old : List (Node K V)) : Type ℓ where
  pub weight : (w : K → ℕ) → total w new ≤ total w old
  pub fits : (h : History K V) → Fits h old → Fits h new

module _ {ℓ} {K V : Type ℓ} where
  pub Shrinks-refl : (ns : List (Node K V)) → Shrinks ns ns
  Shrinks-refl ns = record { weight = λ w. omega arith; fits = λ h f. f }

  pub Shrinks-trans : {xs ys zs : List (Node K V)} → Shrinks xs ys → Shrinks ys zs → Shrinks xs zs
  Shrinks-trans a b = record {
    weight = λ w. let x = a.weight w in let y = b.weight w in omega arith;
    fits = λ h f. a.fits h (b.fits h f);
  }

module _ {ℓ} {K : Type ℓ} (dec : Discrete K) where
  -- One for a key, nothing for the others.
  abbrev pub at : K → K → ℕ
  at key k = if same dec k key then 1 else 0

  pub same_refl : (k : K) → same dec k k ≡ true
  same_refl k = elim (dec k k) as (λ d. (elim d [ yes p ↦ true | no p ↦ false ]) ≡ true) [
    | yes p ↦ refl
    | no p ↦ absurd (p refl)
  ]

  pub same-path : (a b : K) → same dec a b ≡ true → a ≡ b
  same-path a b = elim (dec a b) as (λ d. (elim d [ yes p ↦ true | no p ↦ false ]) ≡ true → a ≡ b) [
    | yes p ↦ λ h. p
    | no p ↦ λ h. absurd cc
  ]

module _ {ℓ} {K V : Type ℓ} (dec : Discrete K) where
  pub find-key :
      (key : K) (ns : List (Node K V)) (n : Node K V) → find dec key ns ≡ some n → n.key ≡ key
  unfolding find
  find-key key [] n h = absurd cc
  find-key key (m ∷ ns) n h =
      let p = same-path dec m.key key in let ih = find-key key ns n in ground arith

  pub find-total :
      (w : K → ℕ) (key : K) (ns : List (Node K V)) (n : Node K V)
      → find dec key ns ≡ some n
      → total w (unlink dec key ns) + w n.key ≡ total w ns
  unfolding find unlink
  find-total w key [] n h = absurd cc
  find-total w key (m ∷ ns) n h = let ih = find-total w key ns n in ground arith

  pub unlink-Fits :
      (h : History K V) (key : K) (ns : List (Node K V)) → Fits h ns → Fits h (unlink dec key ns)
  unfolding unlink
  unlink-Fits h key [] f = tt
  unlink-Fits h key (n ∷ ns) f =
      if-keeps (Fits h) (same dec n.key key) (λ _. f.1) (λ _. (f.0, unlink-Fits h key ns f.1))

  pub find-Fits :
      (h : History K V) (key : K) (ns : List (Node K V)) (n : Node K V)
      → find dec key ns ≡ some n
      → Fits h ns
      → h key ≡ some n.value
  unfolding find
  find-Fits h key [] n e f = absurd cc
  find-Fits h key (m ∷ ns) n e f =
      let p = same-path dec m.key key in let ih = find-Fits h key ns n in ground arith

  -- A key that is not found has no node, and one without a node is not found.
  pub find-none :
      (key : K) (ns : List (Node K V)) → find dec key ns ≡ none → total (at dec key) ns ≡ 0
  unfolding find
  find-none key [] h = refl
  find-none key (m ∷ ns) h = let ih = find-none key ns in ground arith

  pub found_weighs :
      (key : K) (ns : List (Node K V)) (n : Node K V)
      → find dec key ns ≡ some n
      → 0 < total (at dec key) ns
  unfolding find
  found_weighs key [] n h = absurd cc
  found_weighs key (m ∷ ns) n h = let ih = found_weighs key ns n in ground arith

  -- A history that changes at a key without nodes fits as before.
  abbrev pub write : K → Option V → History K V → History K V
  write key o h k = if same dec k key then o else h k

  pub Fits-write :
      (h : History K V) (key : K) (o : Option V) (ns : List (Node K V))
      → total (at dec key) ns ≡ 0
      → Fits h ns
      → Fits (write key o h) ns
  Fits-write h key o [] z f = tt
  Fits-write h key o (n ∷ ns) z f =
      let ih = Fits-write h key o ns in (ground arith, ih (ground arith) f.1)

-- A list of other order or with other counts, but with the same keys and values.
pub record Same {ℓ} {K V : Type ℓ} (new old : List (Node K V)) : Type ℓ where
  pub weight : (w : K → ℕ) → total w new ≡ total w old
  pub fits : (h : History K V) → Fits h old → Fits h new

-- A key got a value, and of the other keys nodes were at most lost.
pub record Puts {ℓ} {K V : Type ℓ} (dec : Discrete K) (key : K) (value : V)
    (new old : List (Node K V)) : Type ℓ where
  pub others : (j : K) → same dec key j ≡ false → total (at dec j) new ≤ total (at dec j) old
  pub only : total (at dec key) old ≤ 1 → total (at dec key) new ≡ 1
  pub fits :
      (h : History K V)
      → total (at dec key) old ≤ 1
      → Fits h old
      → Fits (write dec key (some value) h) new

-- The nodes of a key are gone, and of the other keys they are at most lost.
pub record Erases {ℓ} {K V : Type ℓ} (dec : Discrete K) (key : K) (new old : List (Node K V))
    : Type ℓ where
  pub shrinks : Shrinks new old
  pub gone : total (at dec key) old ≤ 1 → total (at dec key) new ≡ 0

module _ {ℓ} {K V : Type ℓ} (dec : Discrete K) where
  -- The node found gets a value, and stands in front.
  pub moved-Puts :
      (key : K) (value : V) (ns : List (Node K V)) (n m : Node K V)
      → find dec key ns ≡ some n
      → m.key ≡ key
      → m.value ≡ value
      → Puts dec key value (m ∷ unlink dec key ns) ns
  moved-Puts key value ns n m e k v =
      let p = find-key dec key ns n e in
      let r = same_refl dec key in
      let there = found_weighs dec key ns n e in
      record {
        others = λ j d.
            let t = find-total dec (at dec j) key ns n e in
            subst (λ a. at dec j a + total (at dec j) (unlink dec key ns) ≤ total (at dec j) ns)
              (p ∙ sym k) (omega arith);
        only = λ u.
            let t = find-total dec (at dec key) key ns n e in
            subst (λ a. at dec key a + total (at dec key) (unlink dec key ns) ≡ 1) (p ∙ sym k)
              (omega arith);
        fits = λ h u f.
            let t = find-total dec (at dec key) key ns n e in
            (
              subst (λ a. write dec key (some value) h a ≡ some m.value) (sym k)
                  (rw r (ap some (sym v))),
              Fits-write dec h key (some value) (unlink dec key ns) (none_left key ns n p r t u)
                  (unlink-Fits dec h key ns f),
            );
      }
    where
      none_left :
          (key : K) (ns : List (Node K V)) (n : Node K V)
          → n.key ≡ key
          → same dec key key ≡ true
          → total (at dec key) (unlink dec key ns) + at dec key n.key ≡ total (at dec key) ns
          → total (at dec key) ns ≤ 1
          → total (at dec key) (unlink dec key ns) ≡ 0
      none_left key ns n p r t u =
          let q =
            subst
              (λ a. total (at dec key) (unlink dec key ns) + at dec key a ≡ total (at dec key) ns) p
              t in
          ground arith

  -- A key without a node gets one.
  pub added-Puts :
      (key : K) (value : V) (xs ns : List (Node K V))
      → Shrinks xs ns
      → total (at dec key) ns ≡ 0
      → Puts dec key value (new_node key value ∷ xs) ns
  added-Puts key value xs ns s z =
      let r = same_refl dec key in
      let few = s.weight (at dec key) in
      record {
        others = λ j d. let t = s.weight (at dec j) in ground arith;
        only = λ u. ground arith;
        fits =
            λ h u f. (rw r refl, Fits-write dec h key (some value) xs (omega arith) (s.fits h f));
      }

  pub Puts-Same :
      {key : K} {value : V} {xs ys ns : List (Node K V)}
      → Same xs ys
      → Puts dec key value ys ns
      → Puts dec key value xs ns
  Puts-Same {key = key} {value = value} e p = record {
    others = λ j d. let t = e.weight (at dec j) in let q = p.others j d in omega arith;
    only = λ u. let t = e.weight (at dec key) in let q = p.only u in omega arith;
    fits = λ h u f. e.fits (write dec key (some value) h) (p.fits h u f);
  }

  pub unlink-Erases :
      (key : K) (ns : List (Node K V)) (n : Node K V)
      → find dec key ns ≡ some n
      → Erases dec key (unlink dec key ns) ns
  unlink-Erases key ns n e =
      let p = find-key dec key ns n e in
      record {
        shrinks = record {
          weight = λ w. omega (arith, find-total dec w key ns n e);
          fits = λ h f. unlink-Fits dec h key ns f;
        };
        gone = λ u.
            let r = same_refl dec key in
            let t = find-total dec (at dec key) key ns n e in
            let q =
              subst
                (λ a. total (at dec key) (unlink dec key ns) + at dec key a ≡ total (at dec key) ns)
                p t in
            ground arith;
      }
