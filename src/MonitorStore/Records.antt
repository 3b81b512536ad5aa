-- ===== src/MonitorStore/Records.antt =====
-- `std::map<MonitorKey, StoredRecord>` as the source uses it: entries in the order of their keys.
use cpp_tlfss.Base.{Bool, true, false, Option, none, some, List, [], ◌∷◌, if◌then◌else◌}
use cpp_tlfss.MonitorStore.Data.{MonitorKey, StoredRecord, key_lt}

abbrev pub Records : Type 0
Records = List (MonitorKey × StoredRecord)

unfoldable pub find : MonitorKey → Records → Option StoredRecord
find key [] = none
find key ((k, r) ∷ es) =
    let later = find key es in if key_lt k key then later else if key_lt key k then none else some r

-- `emplace`, and whether it inserted: an entry that is there stays.
unfoldable pub emplace : MonitorKey → StoredRecord → Records → Records × Bool
emplace key r [] = ((key, r) ∷ [], true)
emplace key r ((k, q) ∷ es) =
    let later = emplace key r es in
    if key_lt k key
    then ((k, q) ∷ later.0, later.1)
    else if key_lt key k
    then ((key, r) ∷ (k, q) ∷ es, true)
    else ((k, q) ∷ es, false)

unfoldable pub erase : MonitorKey → Records → Records
erase key [] = []
erase key ((k, q) ∷ es) =
    let later = erase key es in
    if key_lt k key then (k, q) ∷ later else if key_lt key k then (k, q) ∷ es else es

-- The record at a key that is there is exchanged.
unfoldable pub assign : MonitorKey → StoredRecord → Records → Records
assign key r [] = []
assign key r ((k, q) ∷ es) =
    let later = assign key r es in
    if key_lt k key then (k, q) ∷ later else if key_lt key k then (k, q) ∷ es else (k, r) ∷ es
