-- ===== src/MonitorStore/Reports.antt =====
-- What a query returns after any sequence of updates of a new store.
use cpp_tlfss.Base.{
  ℕ, Bool, true, false, List, [], ◌∷◌, ◌≡◌, refl, ap, sym, subst, ◌∙◌, inl, inr, if-keeps, All,
  Bool-cases,
}
use cpp_tlfss.MonitorStore.Data.{
  MonitorKey, MonitorFilter, key_lt, MonitorData, StoredRecord, UpdateResult, invalid,
}
use cpp_tlfss.MonitorStore.Records.{Records, emplace, assign}
use cpp_tlfss.MonitorStore.Store.{Prepare, is_valueless, refused, matches, query, update_impl}
use cpp_tlfss.MonitorStore.KeyOrder.{key_lt-total}
use cpp_tlfss.MonitorStore.Update.{candidate_of, update_impl-cases}
use cpp_tlfss.MonitorStore.Sorted.{Behind, IsSorted, update_impl-IsSorted}
use cpp_tlfss.MonitorStore.Query.{Passes, matches-Passes}

-- The arguments of an update.
pub record Submission : Type 0 where
  pub incoming : MonitorData
  pub force : Bool
  pub timestamp : ℕ
  pub prepare : Prepare

-- The records after updates, one after the other.
abbrev pub submitted : List Submission → Records → Records
submitted [] es = es
submitted (u ∷ us) es = submitted us (update_impl u.incoming u.force u.timestamp u.prepare es).1

-- An entry stands under the key of its own data, and has a value.
IsOwn : Records → Type 0
IsOwn = All (λ (e : MonitorKey × StoredRecord).
    (e.1.stored.key ≡ e.0) × (is_valueless e.1.stored.content ≡ false))

emplace-IsOwn :
    (r : StoredRecord) (es : Records)
    → is_valueless r.stored.content ≡ false
    → IsOwn es
    → IsOwn (emplace r.stored.key r es).0
unfolding emplace IsOwn
emplace-IsOwn r [] v o = ((refl, v), tt)
emplace-IsOwn r ((k, q) ∷ es) v o =
    if-keeps (λ (x : Records × Bool). IsOwn x.0) (key_lt k r.stored.key)
      (λ _. (o.0, emplace-IsOwn r es v o.1))
      (λ _.
        if-keeps (λ (x : Records × Bool). IsOwn x.0) (key_lt r.stored.key k) (λ _. ((refl, v), o))
          (λ _. o))

assign-IsOwn :
    (r : StoredRecord) (es : Records)
    → is_valueless r.stored.content ≡ false
    → IsOwn es
    → IsOwn (assign r.stored.key r es)
unfolding assign IsOwn
assign-IsOwn r [] v o = tt
assign-IsOwn r ((k, q) ∷ es) v o =
    if-keeps IsOwn (key_lt k r.stored.key) (λ _. (o.0, assign-IsOwn r es v o.1))
      (λ a.
        if-keeps IsOwn (key_lt r.stored.key k) (λ _. o)
          (λ b. ((key_lt-total r.stored.key k b a, v), o.1)))

-- Data without a value are refused.
rejected :
    (incoming : MonitorData) (force : Bool) (timestamp : ℕ) (prepare : Prepare) (records : Records)
    → is_valueless incoming.content ≡ true
    → update_impl incoming force timestamp prepare records ≡ (refused invalid, records)
unfolding update_impl
rejected incoming force timestamp prepare records h = rw h

update_impl-IsOwn :
    (incoming : MonitorData) (force : Bool) (timestamp : ℕ) (prepare : Prepare) (records : Records)
    → IsOwn records
    → IsOwn (update_impl incoming force timestamp prepare records).1
update_impl-IsOwn incoming force timestamp prepare records o =
    elim (Bool-cases (is_valueless incoming.content)) [
      | inl h ↦
          subst IsOwn
            (sym (
              ap (λ (x : UpdateResult × Records). x.1)
                (rejected incoming force timestamp prepare records h)))
            o
      | inr v ↦
          update_impl-cases (λ x. IsOwn x.1) incoming force timestamp prepare records (λ _ _. o)
            (λ _. emplace-IsOwn (candidate_of incoming timestamp) records v o) (λ _ _. o)
            (λ _ _. assign-IsOwn (candidate_of incoming timestamp) records v o)
    ]

submitted-IsOwn : (us : List Submission) (es : Records) → IsOwn es → IsOwn (submitted us es)
submitted-IsOwn [] es o = o
submitted-IsOwn (u ∷ us) es o =
    submitted-IsOwn us (update_impl u.incoming u.force u.timestamp u.prepare es).1
      (update_impl-IsOwn u.incoming u.force u.timestamp u.prepare es o)

submitted-IsSorted :
    (us : List Submission) (es : Records) → IsSorted es → IsSorted (submitted us es)
submitted-IsSorted [] es s = s
submitted-IsSorted (u ∷ us) es s =
    submitted-IsSorted us (update_impl u.incoming u.force u.timestamp u.prepare es).1
      (update_impl-IsSorted u.incoming u.force u.timestamp u.prepare es s)

-- The keys of the data ascend strictly.
abbrev pub Ascends : List StoredRecord → Type 0
Ascends [] = Unit
Ascends (r ∷ rs) = All (λ q. key_lt r.stored.key q.stored.key ≡ true) rs × Ascends rs

-- The data passes the filter and has a value.
abbrev pub IsWanted : MonitorFilter → StoredRecord → Type 0
IsWanted f r = Passes f r.stored.key × (is_valueless r.stored.content ≡ false)

query-Behind :
    (k : MonitorKey) (f : MonitorFilter) (es : Records)
    → Behind k es
    → IsOwn es
    → All (λ q. key_lt k q.stored.key ≡ true) (query f es)
unfolding query IsOwn
query-Behind k f [] b o = tt
query-Behind k f ((j, r) ∷ es) b o =
    if-keeps (All (λ (q : StoredRecord). key_lt k q.stored.key ≡ true)) (matches f j)
      (λ _. (ap (key_lt k) o.0.0 ∙ b.0, query-Behind k f es b.1 o.1))
      (λ _. query-Behind k f es b.1 o.1)

query-Ascends : (f : MonitorFilter) (es : Records) → IsSorted es → IsOwn es → Ascends (query f es)
unfolding query IsSorted IsOwn
query-Ascends f [] s o = tt
query-Ascends f ((j, r) ∷ es) s o =
    if-keeps Ascends (matches f j)
      (λ _. (
        subst (λ k. All (λ q. key_lt k q.stored.key ≡ true) (query f es)) (sym o.0.0)
            (query-Behind j f es s.0 o.1),
        query-Ascends f es s.1 o.1,
      ))
      (λ _. query-Ascends f es s.1 o.1)

query-IsWanted : (f : MonitorFilter) (es : Records) → IsOwn es → All (IsWanted f) (query f es)
unfolding query IsOwn
query-IsWanted f [] o = tt
query-IsWanted f ((j, r) ∷ es) o =
    if-keeps (All (IsWanted f)) (matches f j)
      (λ m. ((subst (Passes f) (sym o.0.0) (matches-Passes f j m), o.0.1), query-IsWanted f es o.1))
      (λ _. query-IsWanted f es o.1)

-- After any sequence of updates of an empty store, whatever their data, flags, times and prepare
-- functions, a query returns records whose own keys ascend strictly; the own key of each has the
-- values that the filter sets, and each has a value.
pub submitted-query :
    (us : List Submission) (f : MonitorFilter)
    → Ascends (query f (submitted us [])) × All (IsWanted f) (query f (submitted us []))
unfolding IsSorted IsOwn
submitted-query us f = (
  query-Ascends f (submitted us []) (submitted-IsSorted us [] tt) (submitted-IsOwn us [] tt),
  query-IsWanted f (submitted us []) (submitted-IsOwn us [] tt),
)
