-- ===== src/TimerManager/Turn.antt =====
-- The turn of a due timer in `check`: what `rearm` leaves.
use cpp_tlfss.Base.{
  All, ◌&&◌, ◌==◌, ltb, ltb→lt, if-keeps, ℕ, ◌+◌, ◌-◌, ◌*◌, ◌≤◌, ◌<◌, ◌≡◌, refl, true, false, not,
  Option, some, List, ◌∷◌, arith,
}
use cpp_tlfss.TimerManager.Types.{TimerEntry, TimerManager, registry_remove}
use cpp_tlfss.TimerManager.Manager.{millisecond, insert_sorted, rearm, max_time}
use cpp_tlfss.TimerManager.Order.{NoEarlier, IsSorted, insert_sorted-IsSorted}
use cpp_tlfss.TimerManager.Served.{
  total, total-insert, All-insert, count, comes_up, planned, rearmed-planned, once-planned,
}

-- Nanoseconds by which the deadlines lie before the end of the call, summed.
abbrev pub lateness : ℕ → List TimerEntry → ℕ
lateness end = total (λ t. end - t.next)

-- A timer that is due before the end can be rearmed.
abbrev pub CanRearm : ℕ → TimerEntry → Type 0
CanRearm end t = end + t.interval * millisecond ≤ max_time

-- The manager behind a timer's turn.
pub record Turned (end : ℕ) (t : TimerEntry) (m : TimerManager) (o : Option TimerManager)
    : Type 0 where
  pub next : TimerManager
  pub turned : o ≡ some next
  pub ordered : IsSorted next.timers
  pub later : NoEarlier t.next next.timers
  pub less : lateness end next.timers < (end - t.next) + lateness end m.timers
  pub able : All (CanRearm end) next.timers
  pub met :
      (id at : ℕ)
      → count ((t.id == id) && (t.next == at)) + planned id at next.timers
        ≡ planned id at (t ∷ m.timers)

abbrev rearmed : TimerEntry → TimerEntry
rearmed t = record t { next = t.next + t.interval * millisecond; fire_count = t.fire_count + 1 }

put_back :
    (end : ℕ) (t : TimerEntry) (m : TimerManager)
    → t.next < end
    → 0 < t.interval
    → All (CanRearm end) (t ∷ m.timers)
    → IsSorted (t ∷ m.timers)
    → Turned end t m (some (record m { timers = insert_sorted (rearmed t) m.timers }))
put_back end t m h k a s = record {
  next = record m { timers = insert_sorted (rearmed t) m.timers };
  turned = refl;
  ordered = insert_sorted-IsSorted (rearmed t) m.timers s.1;
  later = All-insert (λ e. t.next ≤ e.next) (rearmed t) m.timers (omega arith) s.0;
  less = omega (arith, total-insert (λ e. end - e.next) (rearmed t) m.timers);
  able = All-insert (CanRearm end) (rearmed t) m.timers a.0 a.1;
  met = λ id at.
      let i =
        total-insert (λ e. count ((e.id == id) && comes_up e.next e.interval at)) (rearmed t)
          m.timers in
      let r = rearmed-planned (t.id == id) t.next t.interval at k in omega arith;
}

pub turn :
    (end : ℕ) (t : TimerEntry) (m : TimerManager)
    → t.next < end
    → All (CanRearm end) (t ∷ m.timers)
    → IsSorted (t ∷ m.timers)
    → Turned end t m (rearm t m)
unfolding rearm
turn end t m h a s =
    if-keeps (Turned end t m) (not (ltb 0 t.interval))
      (λ k. record {
        next = record m { registry = registry_remove t.cb m.registry };
        turned = refl;
        ordered = s.1;
        later = s.0;
        less = omega arith;
        able = a.1;
        met = λ id at.
            let r = once-planned (t.id == id) t.next t.interval at (once t.interval k) in
            omega arith;
      })
      (λ k.
        if-keeps (Turned end t m) (ltb max_time (t.next + t.interval * millisecond))
          (λ beyond.
            let over = ltb→lt max_time (t.next + t.interval * millisecond) beyond in
            let fits = a.0 in absurd (omega arith))
          (λ _. put_back end t m h (recurs t.interval k) a s))
  where
    once : (n : ℕ) → not (ltb 0 n) ≡ true → ltb 0 n ≡ false
    once n h = ground arith

    recurs : (n : ℕ) → not (ltb 0 n) ≡ false → 0 < n
    recurs n h = ground arith
