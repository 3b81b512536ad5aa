-- ===== src/TimerManager/Adding.antt =====
-- What `add` does: all of it, or nothing.
use cpp_tlfss.Base.{
  ltb, ◌==◌, if-keeps, ℤ, pos, negsuc, ℕ, ◌+◌, ◌-◌, ◌*◌, ◌/◌, ◌%◌, ◌^◌, ◌≤◌, ◌<◌, ◌≡◌, refl, sym,
  subst, ◌≢◌, Bool, true, false, not, Option, none, some, List, [], ◌∷◌, ◌++◌, arith,
}
use cpp_tlfss.TimerManager.Types.{
  is_valid_timer_flags, TimerEntry, TimerManager, is_registered, registry_add, registry_remove,
}
use cpp_tlfss.TimerManager.Manager.{
  millisecond, max_time, find_insert_position, insert_at, erase_at, insert_sorted, Surroundings,
  is_admissible, delay_of, entry_of, add_locked, add,
}
use cpp_tlfss.TimerManager.Order.{
  IsSorted, insert_sorted-IsSorted, Inserted, insert_sorted-Inserted, erase-insert,
  find_insert_position-length,
}

remove-append :
    (cb : ℕ) (cbs : List ℕ)
    → is_registered cb cbs ≡ false
    → registry_remove cb (cbs ++ (cb ∷ [])) ≡ cbs
unfolding registry_remove
remove-append cb [] h = ground arith
remove-append cb (c ∷ cs) h = let ih = remove-append cb cs in ground arith

-- A callback that was not registered leaves the registry as it was.
pub remove-add :
    (cb : ℕ) (cbs : List ℕ)
    → is_registered cb cbs ≡ false
    → registry_remove cb (registry_add cb cbs) ≡ cbs
unfolding registry_add
remove-add cb cbs h = rw h (remove-append cb cbs h)

-- The timer that a successful call adds.
pub record Added (cb flags : ℕ) (delay : ℤ) (w : Surroundings) (m : TimerManager)
    (next : TimerManager) : Type 0 where
  pub entry : TimerEntry
  pub entry_is : entry ≡ entry_of m.next_id cb flags (delay_of delay) w.now
  pub positive : 0 < delay_of delay
  pub known_flags : is_valid_timer_flags flags ≡ true
  pub pipe : w.pipe_ready ≡ true
  pub open_manager : m.cleaned_up ≡ false
  pub id_left : m.next_id ≢ 0
  pub representable : entry.next ≤ max_time
  pub inserted : Inserted entry m.timers next.timers
  pub sorted : IsSorted next.timers
  pub registered : next.registry ≡ registry_add cb m.registry
  pub next_id_is : next.next_id ≡ (m.next_id + 1) % 2 ^ 64

pub data AddOutcome (cb flags : ℕ) (delay : ℤ) (w : Surroundings) (m : TimerManager)
    : Option ℕ × TimerManager → Type 0 where
  refused : AddOutcome cb flags delay w m (none, m)
  added :
      (next : TimerManager)
      → Added cb flags delay w m next
      → AddOutcome cb flags delay w m (some m.next_id, next)

admits :
    (callable : Bool) (flags : ℕ) (delay : ℤ) (w : Surroundings)
    → not (is_admissible callable flags delay w) ≡ false
    → (0 < delay_of delay) × ((is_valid_timer_flags flags ≡ true) × (w.pipe_ready ≡ true))
unfolding is_admissible
admits callable flags (negsuc n) w h = absurd cc
admits callable flags (pos n) w h = ground arith

module _ (cb flags : ℕ) (delay : ℤ) (w : Surroundings) (m : TimerManager)
    (sorted : IsSorted m.timers) (unknown : is_registered cb m.registry ≡ false) where
  abbrev entry : TimerEntry
  entry = entry_of m.next_id cb flags (delay_of delay) w.now

  undone :
      erase_at
        (find_insert_position entry.next m.timers)
        (insert_at (find_insert_position entry.next m.timers) entry m.timers)
      ≡ m.timers
  undone =
      erase-insert (find_insert_position entry.next m.timers) entry m.timers
        (find_insert_position-length entry.next m.timers)

  locked :
      (0 < delay_of delay) × ((is_valid_timer_flags flags ≡ true) × (w.pipe_ready ≡ true))
      → m.cleaned_up ≡ false
      → m.next_id ≢ 0
      → entry.next ≤ max_time
      → AddOutcome cb flags delay w m (add_locked entry w m)
  unfolding add_locked entry_of insert_sorted
  locked (positive, (known, pipe)) opened left fits =
      if-keeps (AddOutcome cb flags delay w m) (not w.node_allocated) (λ _. refused)
        (λ _.
          if-keeps (AddOutcome cb flags delay w m) (not w.registry_allocated)
            (λ _.
              subst (λ ts. AddOutcome cb flags delay w m (none, record m { timers = ts }))
                (sym undone) refused)
            (λ _.
              if-keeps (AddOutcome cb flags delay w m) (not w.woken)
                (λ _.
                  subst
                    (λ ts. AddOutcome cb flags delay w m (
                      none,
                      record m {
                        timers = ts;
                        registry = registry_remove cb (registry_add cb m.registry);
                      },
                    ))
                    (sym undone)
                    (subst
                      (λ cbs. AddOutcome cb flags delay w m (none, record m { registry = cbs }))
                      (sym (remove-add cb m.registry unknown)) refused))
                (λ _. added _ (record {
                  entry = entry;
                  entry_is = refl;
                  positive = positive;
                  known_flags = known;
                  pipe = pipe;
                  open_manager = opened;
                  id_left = left;
                  representable = fits;
                  inserted = insert_sorted-Inserted entry m.timers sorted;
                  sorted = insert_sorted-IsSorted entry m.timers sorted;
                  registered = refl;
                  next_id_is = refl;
                }))))

  -- For a manager in the order of deadlines and a callback that is not registered, a call of add
  -- leaves the manager as it was and returns nothing, or it returns the next id and has inserted a
  -- timer behind all that are due no later: then the delay is positive, the flags are known, the
  -- pipe is ready, the deadline does not overflow the clock, and the callback is registered.
  pub add-AddOutcome :
      (callable : Bool)
      → w.now ≤ max_time
      → AddOutcome cb flags delay w m (add callable cb flags delay w m)
  unfolding add entry_of
  add-AddOutcome callable time =
      if-keeps (AddOutcome cb flags delay w m) (not (is_admissible callable flags delay w))
        (λ _. refused)
        (λ good.
          if-keeps (AddOutcome cb flags delay w m) (not w.entry_allocated) (λ _. refused)
            (λ _.
              if-keeps (AddOutcome cb flags delay w m) m.cleaned_up (λ _. refused)
                (λ opened.
                  if-keeps (AddOutcome cb flags delay w m) (m.next_id == 0) (λ _. refused)
                    (λ left.
                      if-keeps (AddOutcome cb flags delay w m)
                        (ltb ((max_time - w.now) / millisecond) (delay_of delay)) (λ _. refused)
                        (λ fits.
                          locked (admits callable flags delay w good) opened (λ e. ground arith)
                            (in_time fits))))))
    where
      in_time :
          ltb ((max_time - w.now) / millisecond) (delay_of delay) ≡ false
          → w.now + delay_of delay * millisecond ≤ max_time
      in_time h = let k = small ((max_time - w.now) / millisecond) (delay_of delay) h in omega arith
        where
          small : (a b : ℕ) → ltb a b ≡ false → b ≤ a
          small a b h = ground arith
