-- ===== src/TimerManager/Checking.antt =====
-- The loop of `check`: what it fires, in what order, and that it ends.
use cpp_tlfss.Base.{
  ◌∙◌, All, ltb, if-keeps, ℕ, zero, suc, ◌+◌, ◌≤◌, ◌<◌, ◌≡◌, refl, ap, true, false, not, Option,
  some, List, [], ◌∷◌, arith,
}
use cpp_tlfss.TimerManager.Types.{TimerEntry, TimerManager}
use cpp_tlfss.TimerManager.Manager.{
  idle_timeout, set_timeout_until, Firing, CheckResult, rearm, continued, with_firing, check_round,
  check_loop, check,
}
use cpp_tlfss.TimerManager.Order.{NoEarlier, IsSorted}
use cpp_tlfss.TimerManager.Served.{planned, firings_of}
use cpp_tlfss.TimerManager.Turn.{lateness, CanRearm, Turned, turn}
use cpp_tlfss.TimerManager.Timeout.{Waits, set_timeout_until-Waits}

-- Where the manager is left alone while a callback runs.
abbrev pub quiet : ℕ → TimerManager → TimerManager
quiet round m = m

-- When check returns: nothing is due any more, and the timeout fits the earliest deadline.
pub data Idle (clock : ℕ → ℕ) : CheckResult → Type 0 where
  no_timers : (r : CheckResult) → r.manager.timers ≡ [] → r.timeout ≡ idle_timeout → Idle clock r
  closed : (r : CheckResult) → r.manager.cleaned_up ≡ true → r.timeout ≡ idle_timeout → Idle clock r
  waiting :
      (r : CheckResult) (t : TimerEntry) (ts : List TimerEntry)
      → r.manager.timers ≡ t ∷ ts
      → NoEarlier (clock r.rounds) (t ∷ ts)
      → Waits t.next (clock r.rounds) r.timeout
      → Idle clock r

-- Each timer fired after its deadline, in the order of deadlines from a first one on.
abbrev pub InOrder : ℕ → List Firing → Type 0
InOrder d [] = Unit
InOrder d (f ∷ fs) = (d ≤ f.deadline) × ((f.deadline < f.at_time) × InOrder f.deadline fs)

pub record Settles (clock : ℕ → ℕ) (d : ℕ) (start : List TimerEntry) (o : Option CheckResult)
    : Type 0 where
  pub result : CheckResult
  pub returned : o ≡ some result
  pub sorted : IsSorted result.manager.timers
  pub idle : Idle clock result
  pub in_order : InOrder d result.firings
  -- Of all deadlines, each has been met by a firing or is still to come.
  pub served :
      (id at : ℕ)
      → firings_of id at result.firings + planned id at result.manager.timers ≡ planned id at start

all_later : (c d : ℕ) (ts : List TimerEntry) → c ≤ d → NoEarlier d ts → NoEarlier c ts
all_later c d [] h k = tt
all_later c d (t ∷ ts) h k = (omega (arith, k.0), all_later c d ts h k.1)

fired :
    (clock : ℕ → ℕ) (end d now : ℕ) (t : TimerEntry) (m : TimerManager) (o : Option TimerManager)
    (go_on : TimerManager → Option CheckResult)
    → d ≤ t.next
    → t.next < now
    → (r : Turned end t m o) → Settles clock t.next r.next.timers (go_on r.next)
    → Settles clock d (t ∷ m.timers) (
        with_firing (record { timer = t.id; deadline = t.next; at_time = now }) (continued o go_on))
fired clock end d now t m o go_on h k r s = record {
  result = record s.result { firings = f ∷ s.result.firings };
  returned = ap (λ x. with_firing f (continued x go_on)) r.turned ∙ ap (with_firing f) s.returned;
  sorted = s.sorted;
  idle = same s.result s.idle;
  in_order = (h, (k, s.in_order));
  served = λ id at. omega (arith, s.served id at, r.met id at);
}
  where
    f : Firing
    f = record { timer = t.id; deadline = t.next; at_time = now }

    same : (r : CheckResult) → Idle clock r → Idle clock (record r { firings = f ∷ r.firings })
    same r (no_timers _ a b) = no_timers _ a b
    same r (closed _ a b) = closed _ a b
    same r (waiting _ t ts a b c) = waiting _ t ts a b c

loop_settles :
    (clock : ℕ → ℕ) (end : ℕ)
    → ((n : ℕ) → clock n ≤ end)
    → (fuel round d : ℕ) (ts : List TimerEntry) (m : TimerManager) → IsSorted ts
    → NoEarlier d ts
    → All (CanRearm end) ts
    → lateness end ts < fuel
    → Settles clock d ts (check_loop fuel clock quiet round (record m { timers = ts }))
unfolding check_loop check_round
loop_settles clock end bound zero round d ts m s k a h = absurd (omega arith)
loop_settles clock end bound (suc fuel) round d [] m s k a h = record {
  result = record {
    manager = record m { timers = [] };
    timeout = idle_timeout;
    rounds = round;
    firings = [];
  };
  returned = refl;
  sorted = tt;
  idle = no_timers _ refl refl;
  in_order = tt;
  served = λ id at. omega arith;
}
loop_settles clock end bound (suc fuel) round d (t ∷ ts) m s k a h =
    if-keeps (Settles clock d (t ∷ ts)) m.cleaned_up
      (λ c. record {
        result = record {
          manager = record m { timers = t ∷ ts };
          timeout = idle_timeout;
          rounds = round;
          firings = [];
        };
        returned = refl;
        sorted = s;
        idle = closed _ c refl;
        in_order = tt;
        served = λ id at. omega arith;
      })
      (λ _.
        if-keeps (Settles clock d (t ∷ ts)) (not (ltb t.next (clock round)))
          (λ c. record {
            result = record {
              manager = record m { timers = t ∷ ts };
              timeout = set_timeout_until t.next (clock round);
              rounds = round;
              firings = [];
            };
            returned = refl;
            sorted = s;
            idle =
                let late = not_due t.next (clock round) c in
                waiting _ t ts refl (late, all_later (clock round) t.next ts late s.0)
                  (set_timeout_until-Waits t.next (clock round));
            in_order = tt;
            served = λ id at. omega arith;
          })
          (λ c.
            let due = is_due t.next (clock round) c in
            let last = bound round in
            let r = turn end t (record m { timers = ts }) (omega arith) a s in
            let fewer = r.less in
            fired clock end d (clock round) t (record m { timers = ts })
              (rearm t (record m { timers = ts })) (check_loop fuel clock quiet (suc round)) k.0 due
              r
              (loop_settles clock end bound fuel (suc round) t.next r.next.timers r.next r.ordered
                r.later r.able (omega arith))))
  where
    not_due : (a b : ℕ) → not (ltb a b) ≡ true → b ≤ a
    not_due a b h = ground arith

    is_due : (a b : ℕ) → not (ltb a b) ≡ false → a < b
    is_due a b h = ground arith

-- For a manager in the order of deadlines, a clock that reads at most the given end during the call,
-- timers whose rearming at that end would not overflow the clock and callbacks that leave the
-- manager alone, check returns: as many rounds are enough as there are nanoseconds from the
-- deadlines to the end, and one. It fires only for deadlines that have passed and in their order.
-- Then there are no timers, the manager is closed, or no deadline is before the last reading and the
-- timeout ends at the earliest one, rounded up to a microsecond; the timers are in order again. For
-- each id and each time, the timers with the id that had a deadline then, recurring ones at every
-- interval from their next one on, are as many as the firings for that deadline and the timers that
-- still have it ahead: none is dropped, none fires twice and none moves.
pub check-Settles :
    (clock : ℕ → ℕ) (end : ℕ)
    → ((n : ℕ) → clock n ≤ end)
    → (fuel : ℕ) (m : TimerManager) → IsSorted m.timers
    → All (CanRearm end) m.timers
    → lateness end m.timers < fuel
    → Settles clock 0 m.timers (check fuel clock quiet m)
check-Settles clock end bound fuel m s a h =
    loop_settles clock end bound fuel 0 0 m.timers m s (from_zero m.timers) a h
  where
    from_zero : (ts : List TimerEntry) → NoEarlier 0 ts
    from_zero [] = tt
    from_zero (t ∷ ts) = (omega arith, from_zero ts)
