-- ===== src/MonitorStore/Query.antt =====
-- What a query of the store returns.
use cpp_tlfss.Base.{
  ℕ, Bool, ◌&&◌, Option, none, refl, ==_iff, true, false, some, List, [], ◌∷◌, ◌≡◌, arith, ap, inl,
  inr, ◌⊎◌, ◌∙◌, sym, if-keeps, ◌↔◌,
}
use cpp_tlfss.MonitorStore.Data.{MonitorKey, MonitorFilter, key_lt, StoredRecord}
use cpp_tlfss.MonitorStore.Records.{Records, find}
use cpp_tlfss.MonitorStore.Store.{wants, matches, query}
use cpp_tlfss.MonitorStore.KeyOrder.{
  key_lt-irreflexive, key_lt-transitive, key_lt-total, key_lt-between,
}
use cpp_tlfss.MonitorStore.Sorted.{Behind, IsSorted}

-- Membership, for the results of a query.
abbrev pub Holds : StoredRecord → List StoredRecord → Type 0
Holds r [] = ⊥
Holds r (q ∷ qs) = (r ≡ q) ⊎ Holds r qs

-- What is behind a key is not found at it, nor before it.
find-head : (k : MonitorKey) (q : StoredRecord) (es : Records) → find k ((k, q) ∷ es) ≡ some q
unfolding find
find-head k q es = rw (key_lt-irreflexive k)

find-behind :
    (j k : MonitorKey) (q : StoredRecord) (es : Records)
    → key_lt k j ≡ true
    → find j ((k, q) ∷ es) ≡ find j es
unfolding find
find-behind j k q es h = rw h

-- A record found among entries that are behind a key stands behind it.
found-Behind :
    (k j : MonitorKey) (r : StoredRecord) (es : Records)
    → Behind k es
    → find j es ≡ some r
    → key_lt k j ≡ true
unfolding find
found-Behind k j r [] b h = absurd cc
found-Behind k j r ((l, q) ∷ es) b h =
    let first = b.0 in
    let t = key_lt-between k l j in
    let u = key_lt-transitive k l j in let ih = found-Behind k j r es b.1 in ground arith

-- The key has each of the four values that the filter sets.
pub record Passes (f : MonitorFilter) (k : MonitorKey) : Type 0 where
  pub of_module : (w : ℕ) → f.module_id ≡ some w → k.mid ≡ w
  pub of_level : (w : ℕ) → f.level_wanted ≡ some w → k.level ≡ w
  pub of_function : (w : ℕ) → f.function_id ≡ some w → k.fid ≡ w
  pub of_event : (w : ℕ) → f.event_id ≡ some w → k.eid ≡ w

wants-value : (o : Option ℕ) (n : ℕ) → wants o n ≡ true → (w : ℕ) → o ≡ some w → n ≡ w
wants-value none n h w e = absurd cc
wants-value (some v) n h w e = (==_iff n v).0 h ∙ value e
  where
    value : some v ≡ some w → v ≡ w
    value e = cc

value-wants : (o : Option ℕ) (n : ℕ) → ((w : ℕ) → o ≡ some w → n ≡ w) → wants o n ≡ true
value-wants none n h = refl
value-wants (some v) n h = (==_iff n v).1 (h v refl)

-- The tests of the code are those of the four fields.
pub matches-Passes : (f : MonitorFilter) (k : MonitorKey) → matches f k ≡ true → Passes f k
unfolding matches
matches-Passes f k h =
    let (a, b) = split (wants f.module_id k.mid) h in
    let (c, d) = split (wants f.level_wanted k.level) b in
    let (e, g) = split (wants f.function_id k.fid) d in
    record {
      of_module = wants-value f.module_id k.mid a;
      of_level = wants-value f.level_wanted k.level c;
      of_function = wants-value f.function_id k.fid e;
      of_event = wants-value f.event_id k.eid g;
    }
  where
    split : (a : Bool) {b : Bool} → (a && b) ≡ true → (a ≡ true) × (b ≡ true)
    split true h = (refl, h)
    split false h = absurd cc

Passes-matches : (f : MonitorFilter) (k : MonitorKey) → Passes f k → matches f k ≡ true
unfolding matches
Passes-matches f k p =
    let a = value-wants f.module_id k.mid p.of_module in
    let b = value-wants f.level_wanted k.level p.of_level in
    let c = value-wants f.function_id k.fid p.of_function in
    let d = value-wants f.event_id k.eid p.of_event in rw (a, b, c, d)

-- A record that a query may return, with its key.
abbrev pub Found : MonitorFilter → Records → StoredRecord → Type 0
Found f es r = (k : MonitorKey) × ((find k es ≡ some r) × Passes f k)

Found-later :
    (f : MonitorFilter) (k : MonitorKey) (q r : StoredRecord) (es : Records)
    → Behind k es
    → Found f es r
    → Found f ((k, q) ∷ es) r
Found-later f k q r es b (j, (at, m)) =
    (j, (find-behind j k q es (found-Behind k j r es b at) ∙ at, m))

query_sound :
    (f : MonitorFilter) (es : Records) (r : StoredRecord)
    → IsSorted es
    → Holds r (query f es)
    → Found f es r
unfolding query IsSorted
query_sound f [] r s = λ h. absurd h
query_sound f ((k, q) ∷ es) r s =
    if-keeps (λ qs. Holds r qs → Found f ((k, q) ∷ es) r) (matches f k)
      (λ m h. elim h [
        | inl e ↦ (k, (find-head k q es ∙ ap some (sym e), matches-Passes f k m))
        | inr h' ↦ Found-later f k q r es s.0 (query_sound f es r s.1 h')
      ])
      (λ _ h. Found-later f k q r es s.0 (query_sound f es r s.1 h))

-- Where a record that is found stands: at the head or behind it.
found-cases :
    (j k : MonitorKey) (q r : StoredRecord) (es : Records)
    → find j ((k, q) ∷ es) ≡ some r
    → ((j ≡ k) × (r ≡ q)) ⊎ (find j es ≡ some r)
unfolding find
found-cases j k q r es =
    if-keeps (λ o. o ≡ some r → ((j ≡ k) × (r ≡ q)) ⊎ (find j es ≡ some r)) (key_lt k j)
      (λ _ h. inr h)
      (λ a.
        if-keeps (λ o. o ≡ some r → ((j ≡ k) × (r ≡ q)) ⊎ (find j es ≡ some r)) (key_lt j k)
          (λ _ h. absurd cc) (λ b h. inl (key_lt-total j k b a, cc)))

query_complete :
    (f : MonitorFilter) (es : Records) (r : StoredRecord) → Found f es r → Holds r (query f es)
unfolding query find
query_complete f [] r (j, (at, m)) = absurd (absent at)
  where
    absent : find j [] ≡ some r → ⊥
    absent e = cc
query_complete f ((k, q) ∷ es) r (j, (at, m)) = elim (found-cases j k q r es at) [
  | inl (e, e') ↦
      if-keeps (λ qs. Holds r qs) (matches f k) (λ _. inl e')
        (λ n. absurd (conflict e (Passes-matches f j m) n))
  | inr later ↦
      if-keeps (λ qs. Holds r qs) (matches f k) (λ _. inr (query_complete f es r (j, (later, m))))
        (λ _. query_complete f es r (j, (later, m)))
]
  where
    conflict : j ≡ k → matches f j ≡ true → matches f k ≡ false → ⊥
    conflict e h n = cc

-- A query of a store in key order returns a record exactly when it is found in the store at a key
-- whose module, level, function and event are those that the filter sets.
pub query-Found :
    (f : MonitorFilter) (es : Records) (r : StoredRecord)
    → IsSorted es
    → Holds r (query f es) ↔ Found f es r
query-Found f es r s = (query_sound f es r s, query_complete f es r)
