-- ===== src/MonitorStore/Store.antt =====
-- The operations of `MonitorStore`.
use cpp_tlfss.Base.{
  ℕ, Bool, true, false, not, ◌&&◌, Option, none, some, List, [], ◌∷◌, if◌then◌else◌, ◌==◌, length,
}
use cpp_tlfss.MonitorStore.Data.{
  MonitorKey, MonitorFilter, MonitorValue, numeric, text, valueless, MonitorData, StoredRecord,
  UpdateStatus, inserted, updated, unchanged, ignored_initial_zero, invalid, durability_failed,
  UpdateResult,
}
use cpp_tlfss.MonitorStore.Records.{Records, find, emplace, erase, assign}

-- Strings are compared by their whole content.
unfoldable pub same_text : List ℕ → List ℕ → Bool
same_text [] [] = true
same_text (x ∷ xs) (y ∷ ys) = (x == y) && same_text xs ys
same_text _ _ = false

unfoldable pub same_value : MonitorValue → MonitorValue → Bool
unfolding same_text
same_value (numeric a) (numeric b) = b.value == a.value
same_value (text a) (text b) = same_text a b
same_value _ _ = false

-- `same_monitor_value`: neither state, description nor time count.
unfoldable pub same_monitor_value : MonitorData → StoredRecord → Bool
unfolding same_value
same_monitor_value incoming s = same_value incoming.content s.stored.content

-- What a `prepare` that is called does.
pub data PrepareOutcome : Type 0 where
  returns : Bool → PrepareOutcome
  throws : PrepareOutcome

-- `const PrepareUpdate*`: no pointer, an empty function, or a function.
pub data Prepare : Type 0 where
  null_pointer : Prepare
  empty_function : Prepare
  calls : (StoredRecord → PrepareOutcome) → Prepare

abbrev succeeds : PrepareOutcome → Bool
succeeds (returns b) = b
succeeds throws = false

unfoldable pub run_prepare : Prepare → StoredRecord → Bool
run_prepare null_pointer candidate = true
run_prepare empty_function candidate = false
run_prepare (calls f) candidate = succeeds (f candidate)

abbrev pub is_zero : MonitorValue → Bool
is_zero (numeric v) = v.value == 0
is_zero _ = false

abbrev pub is_valueless : MonitorValue → Bool
is_valueless valueless = true
is_valueless _ = false

-- A result with no record.
abbrev pub refused : UpdateStatus → UpdateResult
refused s = record { status = s; copy = none }

abbrev pub committed : UpdateStatus → StoredRecord → UpdateResult
committed s r = record { status = s; copy = some r }

-- The first case of `update_impl`: the key is not there.
unfoldable pub insert_new :
    MonitorData → Bool → StoredRecord → Prepare → Records → UpdateResult × Records
unfolding run_prepare emplace erase
insert_new incoming force candidate prepare records =
    if is_zero incoming.content && not force
    then (refused ignored_initial_zero, records)
    else if not (emplace incoming.key candidate records).1
    then (refused invalid, (emplace incoming.key candidate records).0)
    else if not (run_prepare prepare candidate)
    then (refused durability_failed, erase incoming.key (emplace incoming.key candidate records).0)
    else (committed inserted candidate, (emplace incoming.key candidate records).0)

-- The other cases: the key is there, with record `existing`.
unfoldable pub change :
    MonitorData → StoredRecord → Prepare → StoredRecord → Records → UpdateResult × Records
unfolding same_monitor_value run_prepare assign
change incoming candidate prepare existing records =
    if same_monitor_value incoming existing
    then (committed unchanged existing, records)
    else if not (run_prepare prepare candidate)
    then (refused durability_failed, records)
    else (committed updated candidate, assign incoming.key candidate records)

unfoldable pub update_impl : MonitorData → Bool → ℕ → Prepare → Records → UpdateResult × Records
unfolding insert_new change find
update_impl incoming force timestamp prepare records =
    if is_valueless incoming.content
    then (refused invalid, records)
    else elim (find incoming.key records) [
      | none ↦ insert_new incoming force candidate prepare records
      | some existing ↦ change incoming candidate prepare existing records
    ]
  where
    candidate : StoredRecord
    candidate = record { stored = incoming; changed_at = timestamp }

unfoldable pub update : MonitorData → Bool → ℕ → Records → UpdateResult × Records
unfolding update_impl
update incoming force timestamp records = update_impl incoming force timestamp null_pointer records

-- `update_prepared`; its `prepare` is a function, empty or not.
unfoldable pub update_prepared : MonitorData → Bool → ℕ → Prepare → Records → UpdateResult × Records
unfolding update_impl
update_prepared incoming force timestamp prepare records =
    update_impl incoming force timestamp prepare records

abbrev pub wants : Option ℕ → ℕ → Bool
wants none n = true
wants (some w) n = n == w

-- The tests of the loop of `query`.
unfoldable pub matches : MonitorFilter → MonitorKey → Bool
matches f k =
    wants f.module_id k.mid
    && (wants f.level_wanted k.level && (wants f.function_id k.fid && wants f.event_id k.eid))

unfoldable pub query : MonitorFilter → Records → List StoredRecord
unfolding matches
query f [] = []
query f ((k, r) ∷ es) = let later = query f es in if matches f k then r ∷ later else later

abbrev pub size : Records → ℕ
size records = length records

abbrev pub clear : Records → Records
clear records = []
