-- ===== src/MonitorStore/Lookup.antt =====
-- What the map of the store holds at each key behind an insertion, an exchange or a rollback.
use cpp_tlfss.Base.{true, none, some, [], ◌∷◌, if◌then◌else◌, ◌≡◌, refl, arith}
use cpp_tlfss.MonitorStore.Data.{MonitorKey, key_eq, StoredRecord}
use cpp_tlfss.MonitorStore.Records.{Records, find, emplace, erase, assign}
use cpp_tlfss.MonitorStore.KeyOrder.{
  key_lt-irreflexive, key_lt-transitive, key_lt-asymmetric, key_lt-total, key_eq-lt, key_lt-between,
}

pub emplace-inserts :
    (key : MonitorKey) (r : StoredRecord) (es : Records)
    → find key es ≡ none
    → (emplace key r es).1 ≡ true
unfolding emplace find
emplace-inserts key r [] h = refl
emplace-inserts key r ((k, q) ∷ es) h = let ih = emplace-inserts key r es in ground arith

pub erase-emplace :
    (key : MonitorKey) (r : StoredRecord) (es : Records)
    → find key es ≡ none
    → erase key (emplace key r es).0 ≡ es
unfolding emplace find erase
erase-emplace key r [] h = let i = key_lt-irreflexive key in ground arith
erase-emplace key r ((k, q) ∷ es) h =
    let i = key_lt-irreflexive key in let ih = erase-emplace key r es in ground arith

pub find-emplace :
    (key other : MonitorKey) (r : StoredRecord) (es : Records)
    → find key es ≡ none
    → find other (emplace key r es).0 ≡ (if key_eq other key then some r else find other es)
unfolding emplace find
find-emplace key other r [] h = let e = key_eq-lt other key in ground arith
find-emplace key other r ((k, q) ∷ es) h =
    let e = key_eq-lt other key in
    let t = key_lt-transitive other key k in
    let a = key_lt-asymmetric other k in
    let b = key_lt-between k key other in let ih = find-emplace key other r es in ground arith

pub find-assign :
    (key other : MonitorKey) (r q : StoredRecord) (es : Records)
    → find key es ≡ some q
    → find other (assign key r es) ≡ (if key_eq other key then some r else find other es)
unfolding assign find
find-assign key other r q [] h = ground arith
find-assign key other r q ((k, q') ∷ es) h =
    let e = key_eq-lt other key in
    let t = key_lt-total k key in
    let a = key_lt-asymmetric other key in
    let b = key_lt-between k key other in let ih = find-assign key other r q es in ground arith
