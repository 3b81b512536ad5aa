-- ===== src/TimerManager/Tests.antt =====
-- A manager with a timer that is due and one that recurs.
use cpp_tlfss.Base.{pos, refl, true, false, [], ◌∷◌, arith}
use cpp_tlfss.TimerManager.Types.{TimerEntry, TimerManager}
use cpp_tlfss.TimerManager.Manager.{set_timeout_until, Surroundings, add, check}
use cpp_tlfss.TimerManager.Timeout.{Waits, set_timeout_until-Waits}
use cpp_tlfss.TimerManager.Adding.{AddOutcome, add-AddOutcome}
use cpp_tlfss.TimerManager.Checking.{quiet, Settles, check-Settles}

abbrev once : TimerEntry
once = record { id = 1; flags = 0; next = 400; interval = 0; fire_count = 0; cb = 7 }

abbrev recurring : TimerEntry
recurring = record { id = 2; flags = 1; next = 500; interval = 1; fire_count = 0; cb = 8 }

abbrev manager : TimerManager
manager = record {
  timers = once ∷ recurring ∷ [];
  registry = 7 ∷ 8 ∷ [];
  next_id = 3;
  cleaned_up = false;
}

abbrev ready : Surroundings
ready = record {
  pipe_ready = true;
  entry_allocated = true;
  now = 1000;
  node_allocated = true;
  registry_allocated = true;
  woken = true;
}

add-AddOutcome_example : AddOutcome 9 1 (pos 2) ready manager (add true 9 1 (pos 2) ready manager)
add-AddOutcome_example =
    add-AddOutcome 9 1 (pos 2) ready manager (((omega arith, tt), (tt, tt))) refl true (omega arith)

check-Settles_example : Settles (λ _. 1000) 0 manager.timers (check 1200 (λ _. 1000) quiet manager)
check-Settles_example =
    check-Settles (λ _. 1000) 1000 (λ n. omega arith) 1200 manager ((omega arith, tt), (tt, tt))
      (omega arith, (omega arith, tt)) (omega arith)

set_timeout_until-Waits_example : Waits 2500 1000 (set_timeout_until 2500 1000)
set_timeout_until-Waits_example = set_timeout_until-Waits 2500 1000
