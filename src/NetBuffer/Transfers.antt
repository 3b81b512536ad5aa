-- ===== src/NetBuffer/Transfers.antt =====
-- Reading from the socket into the buffer, and taking bytes out of it.
use cpp_tlfss.Base.{
  ltb, leb, ltb→lt, if-keeps, length, take, drop, length-take, take-append-drop, take-length,
  drop-length, ℕ, zero, suc, ◌+◌, ◌-◌, ◌≤◌, min, ◌≡◌, refl, sym, ap, ◌∙◌, subst, true, false, some,
  List, [], ◌∷◌, ◌++◌, append_assoc, arith,
}
use cpp_tlfss.NetBuffer.Buffer.{
  Buffer, readable_bytes, writeable_bytes, retrieve_all, retrieve, write_here, Transfer, failed,
  transferred, read_room, stored, answered, after_read, read_fd,
}
use cpp_tlfss.NetBuffer.Content.{content, IsValid, length-content}
use cpp_tlfss.NetBuffer.Refine.{Extends, written, append-content}

-- Bytes in the order received: those that fit behind the content, the others appended to them.
stored_content :
    (bytes : List ℕ) (b : Buffer)
    → IsValid b
    → (next : Buffer) × ((stored bytes b ≡ some next) × Extends bytes b next)
unfolding stored
stored_content bytes b v =
    if-keeps (λ r. (next : Buffer) × ((r ≡ some next) × Extends bytes b next))
      (leb (length bytes) (writeable_bytes b))
      (λ fits. (_, (refl, written bytes b v (inside b v fits))))
      (λ long.
        let size = length-take (writeable_bytes b) bytes in
        let front = take (writeable_bytes b) bytes in
        let back = drop (writeable_bytes b) bytes in
        let full = full_width b v long size in
        let first = written front b v (omega arith) in
        let filled = record (write_here front b) { writer_idx = length b.buffer } in
        let state =
          ap (λ k. record (write_here front b) { writer_idx = k }) {y = length b.buffer} full in
        let e = subst (Extends front b) state first in
        let (next, (eq, x)) = append-content back filled e.valid in
        (
          next,
          (
            eq,
            record {
              valid = x.valid;
              extended =
                  x.extended
                  ∙ ap (λ l. l ++ back) e.extended
                  ∙ append_assoc (content b) front back
                  ∙ ap (λ l. content b ++ l) (take-append-drop (writeable_bytes b) bytes);
            },
          ),
        ))
  where
    inside :
        (b : Buffer)
        → IsValid b
        → leb (length bytes) (writeable_bytes b) ≡ true
        → b.writer_idx + length bytes ≤ length b.buffer
    inside b v h = let i = v.inside in ground arith

    full_width :
        (b : Buffer)
        → IsValid b
        → leb (length bytes) (writeable_bytes b) ≡ false
        → length (take (writeable_bytes b) bytes) ≡ min (writeable_bytes b) (length bytes)
        → b.writer_idx + length (take (writeable_bytes b) bytes) ≡ length b.buffer
    full_width b v h size = let i = v.inside in ground arith

-- A read never aborts: it fails without a change, or its bytes stand behind the content.
pub data ReadOutcome (b : Buffer) : Transfer → Buffer → Type 0 where
  unread : (e : ℕ) → ReadOutcome b (failed e) b
  extended :
      (bytes : List ℕ) (next : Buffer)
      → Extends bytes b next
      → ReadOutcome b (transferred bytes) next

outcome :
    (t : Transfer) (b : Buffer)
    → IsValid b
    → (next : Buffer) × ((after_read t b ≡ some (t, next)) × ReadOutcome b t next)
outcome (failed e) b v = (b, (refl, unread e))
outcome (transferred bytes) b v =
    let (next, (eq, x)) = stored_content bytes b v in
    (next, (ap (answered (transferred bytes)) eq, extended bytes next x))

pub read_fd-ReadOutcome :
    (readv : ℕ → Transfer) (b : Buffer)
    → IsValid b
    → (next : Buffer) × ((read_fd readv b ≡ some (readv (read_room b), next))
        × ReadOutcome b (readv (read_room b)) next)
unfolding read_fd
read_fd-ReadOutcome readv b v = outcome (readv (read_room b)) b v

pub retrieve_all-content :
    (b : Buffer) → IsValid b → IsValid (retrieve_all b) × (content (retrieve_all b) ≡ [])
unfolding retrieve_all
retrieve_all-content b v =
    let p = v.prepend in
    let o = v.ordered in
    let i = v.inside in
    (record { prepend = omega arith; ordered = omega arith; inside = omega arith }, refl)

pub drop-drop : (r n : ℕ) (xs : List ℕ) → drop (r + n) xs ≡ drop n (drop r xs)
drop-drop zero n xs = ap (λ k. drop k xs) (zero_add n)
  where
    zero_add : (n : ℕ) → 0 + n ≡ n
    zero_add n = omega arith
drop-drop (suc r) n [] =
    drop-length (suc r + n) [] (omega arith) ∙ sym (drop-length n [] (omega arith))
drop-drop (suc r) n (x ∷ xs) = ap (λ k. drop k (x ∷ xs)) (suc_add r n) ∙ drop-drop r n xs
  where
    suc_add : (r n : ℕ) → suc r + n ≡ suc (r + n)
    suc_add r n = omega arith

take-drop : (n d : ℕ) (xs : List ℕ) → n ≤ d → take (d - n) (drop n xs) ≡ drop n (take d xs)
take-drop zero d xs h = ap (λ k. take k xs) (sub_zero d)
  where
    sub_zero : (d : ℕ) → d - 0 ≡ d
    sub_zero d = omega arith
take-drop (suc n) zero xs h = absurd (omega arith)
take-drop (suc n) (suc d) [] h = take-length (suc d - suc n) [] (omega arith)
take-drop (suc n) (suc d) (x ∷ xs) h =
    ap (λ k. take k (drop n xs)) (sub_both d n) ∙ take-drop n d xs (omega arith)
  where
    sub_both : (d n : ℕ) → suc d - suc n ≡ d - n
    sub_both d n = omega arith

drop-window :
    (n r d : ℕ) (xs : List ℕ) → n ≤ d → take (d - n) (drop (r + n) xs) ≡ drop n (take d (drop r xs))
drop-window n r d xs h = ap (take (d - n)) (drop-drop r n xs) ∙ take-drop n d (drop r xs) h

pub retrieve-content :
    (len : ℕ) (b : Buffer)
    → IsValid b
    → IsValid (retrieve len b) × (content (retrieve len b) ≡ drop len (content b))
unfolding retrieve
retrieve-content len b v =
    let p = v.prepend in
    let o = v.ordered in
    let i = v.inside in
    if-keeps (λ c. IsValid c × (content c ≡ drop len (content b))) (ltb len (readable_bytes b))
      (λ h.
        let less = ltb→lt len (readable_bytes b) h in
        (
          record { prepend = omega arith; ordered = omega arith; inside = i },
          ap (λ k. take k (drop (b.reader_idx + len) b.buffer)) (width b.reader_idx b.writer_idx)
              ∙ drop-window len b.reader_idx (readable_bytes b) b.buffer (omega arith),
        ))
      (λ h.
        let (w, e) = retrieve_all-content b v in
        (w, e ∙ sym (drop-length len (content b) (covers b v h (length-content b v)))))
  where
    width : (r w : ℕ) → w - (r + len) ≡ (w - r) - len
    width r w = omega arith

    covers :
        (b : Buffer)
        → IsValid b
        → ltb len (readable_bytes b) ≡ false
        → length (content b) ≡ b.writer_idx - b.reader_idx
        → length (content b) ≤ len
    covers b v h n = ground arith
