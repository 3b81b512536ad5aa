-- ===== src/NetBuffer/Refine.antt =====
-- The buffer is a queue of bytes: what each operation does to the readable bytes.
use cpp_tlfss.Base.{
  ltb, ltb→lt, if-keeps, length, take, drop, copy_into, ℕ, ◌+◌, ◌-◌, ◌≤◌, ◌<◌, ◌≡◌, refl, ap, ◌∙◌,
  true, false, some, List, ◌++◌, arith,
}
use cpp_tlfss.NetBuffer.Buffer.{
  k_cheap_prepend, Buffer, readable_bytes, writeable_bytes, prependable_bytes, resize, make_space,
  ensure_writeable_bytes, has_written, write_here, append,
}
use cpp_tlfss.NetBuffer.Content.{
  content, IsValid, length-content, length-copy_into, window-copy, window-move, length-resize,
  window-resize,
}

-- Space is made without a change of the content.
pub record HasRoom (len : ℕ) (b c : Buffer) : Type 0 where
  pub valid : IsValid c
  pub room : c.writer_idx + len ≤ length c.buffer
  pub same : content c ≡ content b

grown :
    (len : ℕ) (b : Buffer)
    → IsValid b
    → length b.buffer < b.writer_idx + len
    → HasRoom len b (record b { buffer = resize (b.writer_idx + len) b.buffer })
grown len b v h =
    let size = length-resize (b.writer_idx + len) b.buffer (omega arith) in
    let o = v.ordered in
    let i = v.inside in
    record {
      valid = record { prepend = v.prepend; ordered = v.ordered; inside = omega arith };
      room = omega arith;
      same =
          window-resize (b.writer_idx + len) b.reader_idx (readable_bytes b) b.buffer (omega arith)
            (omega arith);
    }

moved :
    (len : ℕ) (b : Buffer)
    → IsValid b
    → len + k_cheap_prepend ≤ writeable_bytes b + prependable_bytes b
    → HasRoom len b (record b {
      buffer = copy_into b.buffer k_cheap_prepend (content b);
      reader_idx = k_cheap_prepend;
      writer_idx = k_cheap_prepend + readable_bytes b;
    })
moved len b v h =
    let p = v.prepend in
    let o = v.ordered in
    let i = v.inside in
    let size = length-copy_into b.buffer k_cheap_prepend (content b) in
    let n = length-content b v in
    record {
      valid = record { prepend = omega arith; ordered = omega arith; inside = omega arith };
      room = omega arith;
      same =
          ap (λ k. take k (drop k_cheap_prepend (copy_into b.buffer k_cheap_prepend (content b))))
            (width b n)
          ∙ window-move k_cheap_prepend b.buffer (content b) (omega arith);
    }
  where
    width :
        (b : Buffer)
        → length (content b) ≡ b.writer_idx - b.reader_idx
        → (k_cheap_prepend + readable_bytes b) - k_cheap_prepend ≡ length (content b)
    width b n = omega arith

pub make_room : (len : ℕ) (b : Buffer) → IsValid b → HasRoom len b (ensure_writeable_bytes len b)
unfolding ensure_writeable_bytes make_space
make_room len b v =
    if-keeps (HasRoom len b) (ltb (writeable_bytes b) len)
      (λ few.
        if-keeps (HasRoom len b)
          (ltb (writeable_bytes b + prependable_bytes b) (len + k_cheap_prepend))
          (λ _. grown len b v (lack b few)) (λ h. moved len b v (ground arith)))
      (λ enough. record { valid = v; room = fits b v enough; same = refl })
  where
    lack : (b : Buffer) → ltb (writeable_bytes b) len ≡ true → length b.buffer < b.writer_idx + len
    lack b h = omega (arith, ltb→lt (writeable_bytes b) len h)

    fits :
        (b : Buffer)
        → IsValid b
        → ltb (writeable_bytes b) len ≡ false
        → b.writer_idx + len ≤ length b.buffer
    fits b v h = let i = v.inside in ground arith

-- The result is the given one, in which the bytes stand behind the content.
pub record Extends (bytes : List ℕ) (b : Buffer) (next : Buffer) : Type 0 where
  pub valid : IsValid next
  pub extended : content next ≡ content b ++ bytes

-- Bytes written where there is room for them.
pub written :
    (bytes : List ℕ) (b : Buffer)
    → IsValid b
    → b.writer_idx + length bytes ≤ length b.buffer
    → Extends bytes b (record (write_here bytes b) { writer_idx = b.writer_idx + length bytes })
written bytes b v h =
    let o = v.ordered in
    let size = length-copy_into b.buffer b.writer_idx bytes in
    record {
      valid = record { prepend = v.prepend; ordered = omega arith; inside = omega arith };
      extended =
          ap (λ k. take k (drop b.reader_idx (copy_into b.buffer b.writer_idx bytes)))
            (width b.reader_idx b.writer_idx (length bytes) o)
          ∙ window-copy b.reader_idx (readable_bytes b) b.writer_idx b.buffer bytes (omega arith) h;
    }
  where
    width : (r w n : ℕ) → r ≤ w → (w + n) - r ≡ (w - r) + n
    width r w n h = omega arith

no_abort :
    (bytes : List ℕ) (c : Buffer)
    → c.writer_idx + length bytes ≤ length c.buffer
    → has_written (length bytes) (write_here bytes c)
      ≡ some (record (write_here bytes c) { writer_idx = c.writer_idx + length bytes })
unfolding has_written
no_abort bytes c h =
    let size = length-copy_into c.buffer c.writer_idx bytes in
    if-keeps
      (λ r. r ≡ some (record (write_here bytes c) { writer_idx = c.writer_idx + length bytes }))
      (ltb (writeable_bytes (write_here bytes c)) (length bytes))
      (λ k. absurd (omega (arith, ltb→lt (writeable_bytes (write_here bytes c)) (length bytes) k)))
      (λ _. refl)

-- Appending never aborts, and puts the bytes behind the content.
pub append-content :
    (bytes : List ℕ) (b : Buffer)
    → IsValid b
    → (next : Buffer) × ((append bytes b ≡ some next) × Extends bytes b next)
unfolding append
append-content bytes b v =
    let c = ensure_writeable_bytes (length bytes) b in
    let h = make_room (length bytes) b v in
    let e = written bytes c h.valid h.room in
    (
      record (write_here bytes c) { writer_idx = c.writer_idx + length bytes },
      (
        no_abort bytes c h.room,
        record { valid = e.valid; extended = e.extended ∙ ap (λ l. l ++ bytes) h.same },
      ),
    )
