-- ===== src/MonitorStore/Tests.antt =====
-- Updates of the store at concrete inputs.
use cpp_tlfss.Base.{
  List, All, [], ◌∷◌, ◌≡◌, ◌↔◌, true, false, none, some, refl, if◌then◌else◌, ◌&&◌,
}
use cpp_tlfss.MonitorStore.Data.{
  MonitorKey, MonitorFilter, key_eq, key_lt, numeric, text, MonitorData, unchanged, changed,
}
use cpp_tlfss.MonitorStore.Records.{Records, find, emplace}
use cpp_tlfss.MonitorStore.Store.{
  returns, throws, null_pointer, empty_function, calls, committed, update_impl, update, query,
}
use cpp_tlfss.MonitorStore.Update.{
  candidate_of, update_impl-find, update_impl-rollback, update_impl-copy, update_impl-again,
}
use cpp_tlfss.MonitorStore.Sorted.{IsSorted}
use cpp_tlfss.MonitorStore.Reports.{Submission, submitted, Ascends, IsWanted, submitted-query}
use cpp_tlfss.MonitorStore.Query.{Holds, Found, query-Found}

abbrev disk_key : MonitorKey
disk_key = record { mid = 1; level = 2; fid = 3; eid = 4 }

abbrev disk_reading : MonitorData
disk_reading = record {
  key = disk_key;
  description = [];
  content = numeric (record { value = 80; state = 2 });
}

abbrev disk_full : MonitorData
disk_full = record disk_reading { content = text (102 ∷ []) }

-- A store with one reading.
abbrev stored_reading : Records
stored_reading = (disk_key, record { stored = disk_reading; changed_at = 10 }) ∷ []

first-update : (update disk_reading false 10 []).1 ≡ stored_reading
unfolding update emplace
first-update = refl

second-update :
    (update disk_full false 11 stored_reading).1
    ≡ (disk_key, record { stored = disk_full; changed_at = 11 }) ∷ []
unfolding update key_lt
second-update = refl

update_impl-find_example :
    find disk_key (update_impl disk_full false 11 null_pointer stored_reading).1 ≡ (
      if changed (update_impl disk_full false 11 null_pointer stored_reading).0
        && key_eq disk_key disk_key
      then some (candidate_of disk_full 11)
      else find disk_key stored_reading)
update_impl-find_example = update_impl-find disk_full false 11 null_pointer stored_reading disk_key

update_impl-rollback_example : (update_impl disk_reading false 10 (calls (λ _. throws)) []).1 ≡ []
unfolding update_impl changed key_lt
update_impl-rollback_example =
    update_impl-rollback disk_reading false 10 (calls (λ _. throws)) [] refl

update_impl-copy_example :
    find disk_key (update_impl disk_full false 11 null_pointer stored_reading).1
    ≡ some (candidate_of disk_full 11)
unfolding update_impl key_lt
update_impl-copy_example =
    update_impl-copy disk_full false 11 null_pointer stored_reading (candidate_of disk_full 11) refl

update_impl-again_example :
    update_impl disk_full true 12 null_pointer
      (update_impl disk_full false 11 null_pointer stored_reading).1
    ≡ (
      committed unchanged (candidate_of disk_full 11),
      (update_impl disk_full false 11 null_pointer stored_reading).1,
    )
unfolding update_impl changed key_lt
update_impl-again_example =
    update_impl-again disk_full false true 11 12 null_pointer null_pointer stored_reading refl refl

-- The readings of module 1.
abbrev of_module_one : MonitorFilter
of_module_one = record {
  module_id = some 1;
  level_wanted = none;
  function_id = none;
  event_id = none;
}

query-Found_example :
    Holds (candidate_of disk_reading 10) (query of_module_one stored_reading)
    ↔ Found of_module_one stored_reading (candidate_of disk_reading 10)
unfolding IsSorted
query-Found_example =
    query-Found of_module_one stored_reading (candidate_of disk_reading 10) (tt, tt)

-- Two readings, the second with the smaller key, and a text for the first.
abbrev submissions : List Submission
submissions =
    record { incoming = disk_reading; force = false; timestamp = 10; prepare = null_pointer }
    ∷ record {
      incoming = record disk_reading { key = record disk_key { fid = 2 } };
      force = false;
      timestamp = 11;
      prepare = calls (λ _. returns true);
    }
    ∷ record { incoming = disk_full; force = true; timestamp = 12; prepare = empty_function }
    ∷ []

submitted-query_example :
    Ascends (query of_module_one (submitted submissions []))
    × All (IsWanted of_module_one) (query of_module_one (submitted submissions []))
submitted-query_example = submitted-query submissions of_module_one
