-- ===== src/NetBuffer/Spare.antt =====
-- The room behind the readable bytes, which `begin_write` points to and `has_written` claims from.
use cpp_tlfss.Base.{
  ltb, if-keeps, length, take, drop, copy_into, length-drop, take-length, copy_into_nil, ℕ, zero,
  suc, ◌+◌, ◌-◌, ◌≤◌, ◌≡◌, refl, sym, ap, ◌∙◌, List, [], ◌∷◌, ◌++◌, arith,
}
use cpp_tlfss.NetBuffer.Buffer.{
  k_cheap_prepend, Buffer, readable_bytes, writeable_bytes, retrieve_all, retrieve, write_here,
}
use cpp_tlfss.NetBuffer.Content.{content, IsValid, length-copy_into}
use cpp_tlfss.NetBuffer.Transfers.{drop-drop}

abbrev pub spare : Buffer → List ℕ
spare b = drop b.writer_idx b.buffer

pub length-spare : (b : Buffer) → length (spare b) ≡ writeable_bytes b
length-spare b = length-drop b.writer_idx b.buffer

pub retrieve_all-spare :
    (b : Buffer) → IsValid b → length (spare b) ≤ length (spare (retrieve_all b))
unfolding retrieve_all
retrieve_all-spare b v =
    let p = v.prepend in
    let o = v.ordered in
    omega (arith, length-drop b.writer_idx b.buffer, length-drop k_cheap_prepend b.buffer)

pub retrieve-spare :
    (n : ℕ) (b : Buffer) → IsValid b → length (spare b) ≤ length (spare (retrieve n b))
unfolding retrieve
retrieve-spare n b v =
    if-keeps (λ c. length (spare b) ≤ length (spare c)) (ltb n (readable_bytes b))
      (λ _. omega arith) (λ _. retrieve_all-spare b v)

add_suc : (m n : ℕ) → suc m + n ≡ suc (m + n)
add_suc m n = omega arith

zero_add : (n : ℕ) → 0 + n ≡ n
zero_add n = omega arith

take-longer : (d n : ℕ) (xs : List ℕ) → take (d + n) xs ≡ take d xs ++ take n (drop d xs)
take-longer zero n xs = ap (λ k. take k xs) (zero_add n)
take-longer (suc d) n [] =
    take-length (suc d + n) [] (omega arith) ∙ sym (take-length n [] (omega arith))
take-longer (suc d) n (x ∷ xs) =
    ap (λ k. take k (x ∷ xs)) (add_suc d n) ∙ ap (λ l. x ∷ l) (take-longer d n xs)

-- A window and what follows it.
window-longer :
    (r d n : ℕ) (xs : List ℕ)
    → take (d + n) (drop r xs) ≡ take d (drop r xs) ++ take n (drop (r + d) xs)
window-longer r d n xs =
    take-longer d n (drop r xs) ∙ ap (λ l. take d (drop r xs) ++ take n l) (sym (drop-drop r d xs))

-- A copy behind a window leaves it in place.
take-copy_behind : (d n : ℕ) (xs ys : List ℕ) → d ≤ n → take d (copy_into xs n ys) ≡ take d xs
take-copy_behind zero n xs ys h = refl
take-copy_behind (suc d) zero xs ys h = absurd (omega arith)
take-copy_behind (suc d) (suc n) [] ys h = refl
take-copy_behind (suc d) (suc n) (x ∷ xs) ys h =
    ap (λ l. x ∷ l) (take-copy_behind d n xs ys (omega arith))

window-behind :
    (r d n : ℕ) (xs ys : List ℕ)
    → r + d ≤ n
    → take d (drop r (copy_into xs n ys)) ≡ take d (drop r xs)
window-behind zero d n xs ys h = take-copy_behind d n xs ys (omega arith)
window-behind (suc r) d zero xs ys h = absurd (omega arith)
window-behind (suc r) d (suc n) [] ys h = refl
window-behind (suc r) d (suc n) (x ∷ xs) ys h = window-behind r d n xs ys (omega arith)

-- Where a copy is written.
drop-copy_into :
    (n : ℕ) (xs ys : List ℕ)
    → n + length ys ≤ length xs
    → drop n (copy_into xs n ys) ≡ ys ++ drop (length ys) (drop n xs)
drop-copy_into zero xs [] h = copy_into_nil xs
drop-copy_into zero [] (y ∷ ys) h = absurd (omega arith)
drop-copy_into zero (x ∷ xs) (y ∷ ys) h = ap (λ l. y ∷ l) (drop-copy_into zero xs ys (omega arith))
drop-copy_into (suc n) [] ys h = absurd (omega arith)
drop-copy_into (suc n) (x ∷ xs) ys h = drop-copy_into n xs ys (omega arith)

-- Bytes stored at `begin_write()` change the room and not the content.
pub write_here-content :
    (bytes : List ℕ) (b : Buffer) → IsValid b → content (write_here bytes b) ≡ content b
write_here-content bytes b v =
    let o = v.ordered in
    window-behind b.reader_idx (readable_bytes b) b.writer_idx b.buffer bytes (omega arith)

pub write_here-spare :
    (bytes : List ℕ) (b : Buffer)
    → IsValid b
    → length bytes ≤ writeable_bytes b
    → spare (write_here bytes b) ≡ bytes ++ drop (length bytes) (spare b)
write_here-spare bytes b v h =
    let i = v.inside in drop-copy_into b.writer_idx b.buffer bytes (omega arith)

pub write_here-IsValid : (bytes : List ℕ) (b : Buffer) → IsValid b → IsValid (write_here bytes b)
write_here-IsValid bytes b v =
    let i = v.inside in
    let size = length-copy_into b.buffer b.writer_idx bytes in
    record { prepend = v.prepend; ordered = v.ordered; inside = omega arith }

-- The bytes that are claimed are the first of the room.
pub claim-content :
    (n : ℕ) (b : Buffer)
    → IsValid b
    → content (record b { writer_idx = b.writer_idx + n }) ≡ content b ++ take n (spare b)
claim-content n b v =
    ap (λ k. take k (drop b.reader_idx b.buffer)) (width b.reader_idx b.writer_idx v.ordered)
    ∙ window-longer b.reader_idx (readable_bytes b) n b.buffer
    ∙ ap (λ k. content b ++ take n (drop k b.buffer)) (end b.reader_idx b.writer_idx v.ordered)
  where
    width : (r w : ℕ) → r ≤ w → (w + n) - r ≡ (w - r) + n
    width r w h = omega arith

    end : (r w : ℕ) → r ≤ w → r + (w - r) ≡ w
    end r w h = omega arith

pub claim-spare :
    (n : ℕ) (b : Buffer) → spare (record b { writer_idx = b.writer_idx + n }) ≡ drop n (spare b)
claim-spare n b = drop-drop b.writer_idx n b.buffer
