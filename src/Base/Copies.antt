-- ===== src/Base/Copies.antt =====
-- Copies into a part of a list, and lists that are filled up to a length.
use Prim.Native.Nat.{ℕ, zero, suc, ◌+◌, ◌-◌, ◌≤◌, min}
use mathlib.Core.Path.{◌≡◌, refl, ap, ◌∙◌, sym}
use mathlib.Core.List.{List, [], ◌∷◌, ◌++◌, append-nil, append_assoc}
use native.Mathlib.Omega.{arith}
use cpp_tlfss.Base.Lists.{length, set, take, drop, copy_into, length-append}

sub_suc : (n m : ℕ) → suc n - suc m ≡ n - m
sub_suc n m = omega arith

min_zero : (m : ℕ) → min (0 - 0) m ≡ 0
min_zero m = omega arith

min-zero : (n : ℕ) → min (n - 0) 0 ≡ 0
min-zero n = omega arith

min-suc : (n m : ℕ) → min (suc n - 0) (suc m) ≡ suc (min (n - 0) m)
min-suc n m = omega arith

module _ {ℓ} {A : Type ℓ} where
  take-min : (n : ℕ) (xs : List A) → take (min (n - 0) (length xs)) xs ≡ take n xs
  take-min zero xs = ap (λ k. take k xs) (min_zero (length xs))
  take-min (suc n) [] = ap (λ k. take k []) (min-zero (suc n))
  take-min (suc n) (x ∷ xs) =
      ap (λ k. take k (x ∷ xs)) (min-suc n (length xs)) ∙ ap (λ l. x ∷ l) (take-min n xs)

  drop-min : (n : ℕ) (xs : List A) → drop (min (n - 0) (length xs)) xs ≡ drop n xs
  drop-min zero xs = ap (λ k. drop k xs) (min_zero (length xs))
  drop-min (suc n) [] = ap (λ k. drop k []) (min-zero (suc n))
  drop-min (suc n) (x ∷ xs) = ap (λ k. drop k (x ∷ xs)) (min-suc n (length xs)) ∙ drop-min n xs

  pub copy_into_nil : (xs : List A) → copy_into xs 0 [] ≡ xs
  copy_into_nil [] = refl
  copy_into_nil (x ∷ xs) = refl

  pub copy_into_here :
      (src old post : List A)
      → length src ≡ length old
      → copy_into (old ++ post) 0 src ≡ src ++ post
  copy_into_here [] [] [] h = refl
  copy_into_here [] [] (p ∷ post) h = refl
  copy_into_here [] (o ∷ old) post h = absurd (omega arith)
  copy_into_here (s ∷ src) [] post h = absurd (omega arith)
  copy_into_here (s ∷ src) (o ∷ old) post h = rw (copy_into_here src old post (omega arith))

  -- As many elements as are missing, or as are there.
  pub fill-take :
      (n : ℕ) (xs ys : List A)
      → length xs ≤ n
      → xs ++ take (min (n - length xs) (length ys)) ys ≡ take n (xs ++ ys)
  fill-take n [] ys h = take-min n ys
  fill-take zero (x ∷ xs) ys h = absurd (omega arith)
  fill-take (suc n) (x ∷ xs) ys h =
      ap (λ k. x ∷ (xs ++ take (min k (length ys)) ys)) (sub_suc n (length xs))
      ∙ ap (λ l. x ∷ l) (fill-take n xs ys (omega arith))

  pub fill-drop :
      (n : ℕ) (xs ys : List A)
      → length xs ≤ n
      → drop (min (n - length xs) (length ys)) ys ≡ drop n (xs ++ ys)
  fill-drop n [] ys h = drop-min n ys
  fill-drop zero (x ∷ xs) ys h = absurd (omega arith)
  fill-drop (suc n) (x ∷ xs) ys h =
      ap (λ k. drop (min k (length ys)) ys) (sub_suc n (length xs))
      ∙ fill-drop n xs ys (omega arith)

  -- A copy over the middle of a list.
  pub copy_into_at :
      (n : ℕ) (pre old post src : List A)
      → length pre ≡ n
      → length src ≡ length old
      → copy_into (pre ++ (old ++ post)) n src ≡ pre ++ (src ++ post)
  copy_into_at zero [] old post src h k = copy_into_here src old post k
  copy_into_at zero (p ∷ pre) old post src h k = absurd (omega arith)
  copy_into_at (suc n) [] old post src h k = absurd (omega arith)
  copy_into_at (suc n) (p ∷ pre) old post src h k =
      ap (λ l. p ∷ l) (copy_into_at n pre old post src (omega arith) k)

  pub set-append :
      (n : ℕ) (xs ys : List A) (v w : A) → length xs ≡ n → set (xs ++ (v ∷ ys)) n w ≡ xs ++ (w ∷ ys)
  set-append zero [] ys v w h = refl
  set-append zero (x ∷ xs) ys v w h = absurd (omega arith)
  set-append (suc n) [] ys v w h = absurd (omega arith)
  set-append (suc n) (x ∷ xs) ys v w h = ap (λ l. x ∷ l) (set-append n xs ys v w (omega arith))

  -- A copy over the end of a list, behind two parts of it.
  pub copy_into_end :
      (n : ℕ) (pre mid old src : List A)
      → length pre + length mid ≡ n
      → length src ≡ length old
      → copy_into (pre ++ (mid ++ old)) n src ≡ pre ++ (mid ++ src)
  copy_into_end n pre mid old src h k =
      ap (λ l. copy_into l n src)
        (sym (append_assoc pre mid old) ∙ ap (λ l. (pre ++ mid) ++ l) (sym (append-nil old)))
      ∙ copy_into_at n (pre ++ mid) old [] src (omega (arith, length-append pre mid)) k
      ∙ ap (λ l. (pre ++ mid) ++ l) (append-nil src)
      ∙ append_assoc pre mid src
