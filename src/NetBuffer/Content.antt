-- ===== src/NetBuffer/Content.antt =====
-- The readable bytes, and what the copies and the growth of the vector do to them.
use cpp_tlfss.Base.{
  ℕ, zero, suc, ◌+◌, ◌-◌, ◌≤◌, List, [], ◌∷◌, ◌++◌, length, take, drop, replicate, copy_into, ◌≡◌,
  refl, ap, ◌∙◌, arith, take-before, drop-before, length-append, length-take, length-drop,
  length-replicate, take-length,
}
use cpp_tlfss.NetBuffer.Buffer.{k_cheap_prepend, Buffer, readable_bytes, peek, resize}

abbrev pub content : Buffer → List ℕ
content b = take (readable_bytes b) (peek b)

-- The picture above the class: 0 <= reader <= writer <= size, with the prepend area in front.
pub record IsValid (b : Buffer) : Type 0 where
  pub prepend : k_cheap_prepend ≤ b.reader_idx
  pub ordered : b.reader_idx ≤ b.writer_idx
  pub inside : b.writer_idx ≤ length b.buffer

pub length-content : (b : Buffer) → IsValid b → length (content b) ≡ b.writer_idx - b.reader_idx
length-content b v =
    let o = v.ordered in
    let i = v.inside in
    omega (arith, length-take (readable_bytes b) (peek b), length-drop b.reader_idx b.buffer)

pub length-copy_into : (xs : List ℕ) (n : ℕ) (ys : List ℕ) → length (copy_into xs n ys) ≡ length xs
length-copy_into [] n ys = refl
length-copy_into (x ∷ xs) (suc n) ys = ap suc (length-copy_into xs n ys)
length-copy_into (x ∷ xs) zero [] = refl
length-copy_into (x ∷ xs) zero (y ∷ ys) = ap suc (length-copy_into xs 0 ys)

pub take-copy_into :
    (xs ys : List ℕ) → length ys ≤ length xs → take (length ys) (copy_into xs 0 ys) ≡ ys
take-copy_into xs [] h = refl
take-copy_into [] (y ∷ ys) h = absurd (omega arith)
take-copy_into (x ∷ xs) (y ∷ ys) h = ap (λ l. y ∷ l) (take-copy_into xs ys (omega arith))

add_zero : (n : ℕ) → 0 + n ≡ n
add_zero n = omega arith

add_suc : (m n : ℕ) → suc m + n ≡ suc (m + n)
add_suc m n = omega arith

append_here :
    (n d : ℕ) (xs ys : List ℕ)
    → d ≡ n
    → n + length ys ≤ length xs
    → take (d + length ys) (copy_into xs n ys) ≡ take d xs ++ ys
append_here zero zero xs ys e h =
    ap (λ k. take k (copy_into xs 0 ys)) (add_zero (length ys)) ∙ take-copy_into xs ys (omega arith)
append_here zero (suc d) xs ys e h = absurd (omega arith)
append_here (suc n) zero xs ys e h = absurd (omega arith)
append_here (suc n) (suc d) [] ys e h = absurd (omega arith)
append_here (suc n) (suc d) (x ∷ xs) ys e h =
    ap (λ k. take k (x ∷ copy_into xs n ys)) (add_suc d (length ys))
    ∙ ap (λ l. x ∷ l) (append_here n d xs ys (omega arith) (omega arith))

-- Bytes written behind a window lengthen it.
pub window-copy :
    (r d n : ℕ) (xs ys : List ℕ)
    → r + d ≡ n
    → n + length ys ≤ length xs
    → take (d + length ys) (drop r (copy_into xs n ys)) ≡ take d (drop r xs) ++ ys
window-copy zero d n xs ys e h = append_here n d xs ys (omega arith) h
window-copy (suc r) d zero xs ys e h = absurd (omega arith)
window-copy (suc r) d (suc n) [] ys e h = absurd (omega arith)
window-copy (suc r) d (suc n) (x ∷ xs) ys e h = window-copy r d n xs ys (omega arith) (omega arith)

-- Bytes written at the start of a window are its content.
pub window-move :
    (n : ℕ) (xs ys : List ℕ)
    → n + length ys ≤ length xs
    → take (length ys) (drop n (copy_into xs n ys)) ≡ ys
window-move zero xs ys h = take-copy_into xs ys (omega arith)
window-move (suc n) [] ys h = absurd (omega arith)
window-move (suc n) (x ∷ xs) ys h = window-move n xs ys (omega arith)

pub length-resize : (n : ℕ) (xs : List ℕ) → length xs ≤ n → length (resize n xs) ≡ n
unfolding resize
length-resize n xs h = omega (
  arith,
  length-append (take n xs) (replicate (n - length xs) 0),
  length-take n xs,
  length-replicate {A = ℕ} (n - length xs) 0,
)

-- Growth of the vector leaves a window in place.
pub window-resize :
    (n r d : ℕ) (xs : List ℕ)
    → length xs ≤ n
    → r + d ≤ length xs
    → take d (drop r (resize n xs)) ≡ take d (drop r xs)
unfolding resize
window-resize n r d xs h k =
    ap (λ l. take d (drop r (l ++ replicate (n - length xs) 0))) (take-length n xs h)
    ∙ ap (take d) (drop-before r xs (replicate (n - length xs) 0) (omega arith))
    ∙ take-before d (drop r xs) (replicate (n - length xs) 0) (omega (arith, length-drop r xs))
