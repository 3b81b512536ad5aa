-- ===== src/TimerManager/Manager.antt =====
-- The operations of the manager. What the code asks of its surroundings is in records: whether an
-- allocation, the pipe or its wakeup succeeds, and what the clock reads. In `check` the clock is a
-- function of the round, as is what happens to the manager while a callback runs without the lock.
use cpp_tlfss.Base.{
  ℕ, zero, suc, ◌+◌, ◌-◌, ◌*◌, ◌/◌, ◌%◌, ◌^◌, Bool, true, false, not, ◌&&◌, ◌||◌, Option, none,
  some, List, [], ◌∷◌, ltb, leb, ◌==◌, if◌then◌else◌, ℤ, pos, negsuc,
}
use cpp_tlfss.TimerManager.Types.{
  recurring_flag, worker_flag, has_flag, is_valid_timer_flags, Timeval, TimerEntry, TimerManager,
  registry_add, registry_remove,
}

-- Nanoseconds in a millisecond and in a microsecond.
abbrev pub millisecond : ℕ
millisecond = 1000000

abbrev pub microsecond : ℕ
microsecond = 1000

abbrev pub microseconds_per_second : ℕ
microseconds_per_second = 1000000

-- `Clock::time_point::max()`
abbrev pub max_time : ℕ
max_time = 2 ^ 63 - 1

abbrev pub idle_timeout : Timeval
idle_timeout = record { tv_sec = 1; tv_usec = 0 }

-- `std::chrono::ceil`
abbrev pub ceil_microseconds : ℕ → ℕ
ceil_microseconds ns = (ns + (microsecond - 1)) / microsecond

unfoldable pub set_timeout_until : ℕ → ℕ → Timeval
set_timeout_until deadline now =
    if leb deadline now then record { tv_sec = 0; tv_usec = 0 } else record {
      tv_sec = ceil_microseconds (deadline - now) / microseconds_per_second;
      tv_usec = ceil_microseconds (deadline - now) % microseconds_per_second;
    }

unfoldable pub find_insert_position : ℕ → List TimerEntry → ℕ
find_insert_position deadline [] = 0
find_insert_position deadline (t ∷ ts) =
    let later = find_insert_position deadline ts in if ltb deadline t.next then 0 else suc later

-- `list::insert` in front of a position, and `list::erase` at one.
abbrev pub insert_at : ℕ → TimerEntry → List TimerEntry → List TimerEntry
insert_at zero e ts = e ∷ ts
insert_at (suc position) e [] = e ∷ []
insert_at (suc position) e (t ∷ ts) = t ∷ insert_at position e ts

abbrev pub erase_at : ℕ → List TimerEntry → List TimerEntry
erase_at position [] = []
erase_at zero (t ∷ ts) = ts
erase_at (suc position) (t ∷ ts) = t ∷ erase_at position ts

unfoldable pub insert_sorted : TimerEntry → List TimerEntry → List TimerEntry
insert_sorted e ts = insert_at (find_insert_position e.next ts) e ts

pub record Surroundings : Type 0 where
  pub pipe_ready : Bool
  pub entry_allocated : Bool
  pub now : ℕ
  pub node_allocated : Bool
  pub registry_allocated : Bool
  pub woken : Bool

-- The checks of the arguments and the pipe, before anything is allocated.
unfoldable pub is_admissible : Bool → ℕ → ℤ → Surroundings → Bool
is_admissible callable flags (negsuc n) w = false
is_admissible callable flags (pos delay) w =
    not (delay == 0)
    && (callable
        && (is_valid_timer_flags flags
            && ((has_flag flags recurring_flag || not (has_flag flags worker_flag))
                && w.pipe_ready)))

abbrev pub delay_of : ℤ → ℕ
delay_of (pos n) = n
delay_of (negsuc n) = 0

-- The entry that is built for an id.
unfoldable pub entry_of : ℕ → ℕ → ℕ → ℕ → ℕ → TimerEntry
entry_of id cb flags delay now = record {
  id = id;
  flags = flags;
  next = now + delay * millisecond;
  interval = if has_flag flags recurring_flag then delay else 0;
  fire_count = 0;
  cb = cb;
}

-- With the lock held: the entry is inserted, its callback registered and the loop woken, and what
-- was done is undone when one of them fails.
unfoldable pub add_locked : TimerEntry → Surroundings → TimerManager → Option ℕ × TimerManager
add_locked e w m =
    let position = find_insert_position e.next m.timers in
    let inserted = insert_at position e m.timers in
    let registered = registry_add e.cb m.registry in
    if not w.node_allocated
    then (none, m)
    else if not w.registry_allocated
    then (none, record m { timers = erase_at position inserted })
    else if not w.woken
    then (
      none,
      record m { timers = erase_at position inserted; registry = registry_remove e.cb registered },
    )
    else (
      some e.id,
      record m { timers = inserted; registry = registered; next_id = (m.next_id + 1) % 2 ^ 64 },
    )

unfoldable pub add : Bool → ℕ → ℕ → ℤ → Surroundings → TimerManager → Option ℕ × TimerManager
add callable cb flags delay w m =
    if not (is_admissible callable flags delay w)
    then (none, m)
    else if not w.entry_allocated
    then (none, m)
    else if m.cleaned_up
    then (none, m)
    else if m.next_id == 0
    then (none, m)
    else if ltb ((max_time - w.now) / millisecond) (delay_of delay)
    then (none, m)
    else add_locked (entry_of m.next_id cb flags (delay_of delay) w.now) w m

abbrev pub cbs_removed : List TimerEntry → List ℕ → List ℕ
cbs_removed [] cbs = cbs
cbs_removed (t ∷ ts) cbs = cbs_removed ts (registry_remove t.cb cbs)

unfoldable pub cleanup : TimerManager → TimerManager
cleanup m =
    if m.cleaned_up
    then m
    else record m { cleaned_up = true; timers = []; registry = cbs_removed m.timers m.registry }

-- A callback that `check` runs: the timer, its deadline and the clock when it was found due.
pub record Firing : Type 0 where
  pub timer : ℕ
  pub deadline : ℕ
  pub at_time : ℕ

pub record CheckResult : Type 0 where
  pub manager : TimerManager
  pub timeout : Timeval
  pub rounds : ℕ
  pub firings : List Firing

-- The due timer after its callback: rearmed from its planned time, or gone from the registry. A
-- deadline beyond `max_time` overflows the clock's 64-bit count, which the code does not check and
-- C++ leaves undefined: `none`.
unfoldable pub rearm : TimerEntry → TimerManager → Option TimerManager
rearm t m =
    if not (ltb 0 t.interval)
    then some (record m { registry = registry_remove t.cb m.registry })
    else if ltb max_time (t.next + t.interval * millisecond)
    then none
    else some (record m {
      timers =
          insert_sorted
            (record t { next = t.next + t.interval * millisecond; fire_count = t.fire_count + 1 })
            m.timers;
    })

abbrev pub continued :
    Option TimerManager → (TimerManager → Option CheckResult) → Option CheckResult
continued none go_on = none
continued (some m) go_on = go_on m

abbrev pub with_firing : Firing → Option CheckResult → Option CheckResult
with_firing f none = none
with_firing f (some r) = some (record r { firings = f ∷ r.firings })

-- One round of the loop; `go_on` is the rest of it.
unfoldable pub check_round :
    (ℕ → ℕ)
    → (ℕ → TimerManager → TimerManager)
    → ℕ
    → TimerManager
    → (TimerManager → Option CheckResult)
    → Option CheckResult
check_round clock other round m go_on = elim m.timers [
  | [] ↦ some (record { manager = m; timeout = idle_timeout; rounds = round; firings = [] })
  | t ∷ ts ↦
      if m.cleaned_up
      then some (record { manager = m; timeout = idle_timeout; rounds = round; firings = [] })
      else if not (ltb t.next (clock round))
      then some (record {
        manager = m;
        timeout = set_timeout_until t.next (clock round);
        rounds = round;
        firings = [];
      })
      else with_firing (record { timer = t.id; deadline = t.next; at_time = clock round })
          (continued (rearm t (other round (record m { timers = ts }))) go_on)
]

-- `none`: the fuel ran out, or a deadline overflowed.
unfoldable pub check_loop :
    ℕ → (ℕ → ℕ) → (ℕ → TimerManager → TimerManager) → ℕ → TimerManager → Option CheckResult
check_loop zero clock other round m = none
check_loop (suc fuel) clock other round m =
    check_round clock other round m (check_loop fuel clock other (suc round))

abbrev pub check :
    ℕ → (ℕ → ℕ) → (ℕ → TimerManager → TimerManager) → TimerManager → Option CheckResult
check fuel clock other m = check_loop fuel clock other 0 m
