-- ===== src/MonitorStore/Sorted.antt =====
-- The order of the entries of the store across its operations.
use cpp_tlfss.Base.{ℕ, Bool, true, [], ◌∷◌, ◌≡◌, if-keeps, All}
use cpp_tlfss.MonitorStore.Data.{MonitorKey, key_lt, MonitorData, StoredRecord}
use cpp_tlfss.MonitorStore.Records.{Records, emplace, assign}
use cpp_tlfss.MonitorStore.Store.{Prepare, update_impl}
use cpp_tlfss.MonitorStore.KeyOrder.{key_lt-transitive}
use cpp_tlfss.MonitorStore.Update.{candidate_of, update_impl-cases}

-- All entries are behind a key.
abbrev pub Behind : MonitorKey → Records → Type 0
Behind k = All (λ (e : MonitorKey × StoredRecord). key_lt k e.0 ≡ true)

unfoldable pub IsSorted : Records → Type 0
IsSorted [] = Unit
IsSorted ((k, r) ∷ es) = Behind k es × IsSorted es

Behind-earlier : (j k : MonitorKey) (es : Records) → key_lt j k ≡ true → Behind k es → Behind j es
Behind-earlier j k [] h b = tt
Behind-earlier j k ((l, q) ∷ es) h b = (key_lt-transitive j k l h b.0, Behind-earlier j k es h b.1)

emplace-Behind :
    (j key : MonitorKey) (r : StoredRecord) (es : Records)
    → key_lt j key ≡ true
    → Behind j es
    → Behind j (emplace key r es).0
unfolding emplace
emplace-Behind j key r [] h b = (h, tt)
emplace-Behind j key r ((k, q) ∷ es) h b =
    if-keeps (λ (o : Records × Bool). Behind j o.0) (key_lt k key)
      (λ _. (b.0, emplace-Behind j key r es h b.1))
      (λ _. if-keeps (λ (o : Records × Bool). Behind j o.0) (key_lt key k) (λ _. (h, b)) (λ _. b))

pub emplace-IsSorted :
    (key : MonitorKey) (r : StoredRecord) (es : Records)
    → IsSorted es
    → IsSorted (emplace key r es).0
unfolding emplace IsSorted
emplace-IsSorted key r [] s = (tt, tt)
emplace-IsSorted key r ((k, q) ∷ es) s =
    if-keeps (λ (o : Records × Bool). IsSorted o.0) (key_lt k key)
      (λ e. (emplace-Behind k key r es e s.0, emplace-IsSorted key r es s.1))
      (λ _.
        if-keeps (λ (o : Records × Bool). IsSorted o.0) (key_lt key k)
          (λ e. ((e, Behind-earlier key k es e s.0), s)) (λ _. s))

assign-Behind :
    (j key : MonitorKey) (r : StoredRecord) (es : Records)
    → Behind j es
    → Behind j (assign key r es)
unfolding assign
assign-Behind j key r [] b = tt
assign-Behind j key r ((k, q) ∷ es) b =
    if-keeps (Behind j) (key_lt k key) (λ _. (b.0, assign-Behind j key r es b.1))
      (λ _. if-keeps (Behind j) (key_lt key k) (λ _. b) (λ _. b))

pub assign-IsSorted :
    (key : MonitorKey) (r : StoredRecord) (es : Records) → IsSorted es → IsSorted (assign key r es)
unfolding assign IsSorted
assign-IsSorted key r [] s = tt
assign-IsSorted key r ((k, q) ∷ es) s =
    if-keeps IsSorted (key_lt k key)
      (λ _. (assign-Behind k key r es s.0, assign-IsSorted key r es s.1))
      (λ _. if-keeps IsSorted (key_lt key k) (λ _. s) (λ _. s))

-- An update keeps the entries in the strict order of their keys.
pub update_impl-IsSorted :
    (incoming : MonitorData) (force : Bool) (timestamp : ℕ) (prepare : Prepare) (records : Records)
    → IsSorted records
    → IsSorted (update_impl incoming force timestamp prepare records).1
update_impl-IsSorted incoming force timestamp prepare records s =
    update_impl-cases (λ o. IsSorted o.1) incoming force timestamp prepare records (λ _ _. s)
      (λ _. emplace-IsSorted incoming.key (candidate_of incoming timestamp) records s) (λ _ _. s)
      (λ _ _. assign-IsSorted incoming.key (candidate_of incoming timestamp) records s)
