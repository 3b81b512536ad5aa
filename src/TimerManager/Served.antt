-- ===== src/TimerManager/Served.antt =====
-- The deadlines that a list of timers will reach: once for a timer that does not recur, at each
-- interval from the next one on for one that does. What a timer's turn in `check` does to them.
use cpp_tlfss.Base.{
  ltb, leb, ◌==◌, if-keeps, if◌then◌else◌, Bool-cases, ℕ, ◌+◌, ◌-◌, ◌*◌, ◌%◌, ◌≤◌, ◌<◌, ◌≡◌, refl,
  sym, ap, subst, ◌∙◌, inl, inr, Bool, true, false, ◌&&◌, List, [], ◌∷◌, arith, All,
}
use native.Mathlib.Nat.{mod-eq_of_lt, mod-eq-sub-mod}
use cpp_tlfss.TimerManager.Types.{TimerEntry}
use cpp_tlfss.TimerManager.Manager.{millisecond, find_insert_position, insert_sorted, Firing}
use cpp_tlfss.TimerManager.Order.{insert_sorted-step}

-- A weight of the timers, summed.
abbrev pub total : (TimerEntry → ℕ) → List TimerEntry → ℕ
total w [] = 0
total w (t ∷ ts) = w t + total w ts

pub total-insert :
    (w : TimerEntry → ℕ) (e : TimerEntry) (ts : List TimerEntry)
    → total w (insert_sorted e ts) ≡ w e + total w ts
unfolding insert_sorted find_insert_position
total-insert w e [] = refl
total-insert w e (t ∷ ts) =
    subst (λ l. total w l ≡ w e + total w (t ∷ ts)) (sym (insert_sorted-step e t ts))
      (if-keeps (λ l. total w l ≡ w e + total w (t ∷ ts)) (ltb e.next t.next) (λ _. refl)
        (λ _. omega (arith, total-insert w e ts)))

pub All-insert :
    (P : TimerEntry → Type 0) (e : TimerEntry) (ts : List TimerEntry)
    → P e
    → All P ts
    → All P (insert_sorted e ts)
unfolding insert_sorted find_insert_position
All-insert P e [] h k = (h, tt)
All-insert P e (t ∷ ts) h k =
    subst (All P) (sym (insert_sorted-step e t ts))
      (if-keeps (All P) (ltb e.next t.next) (λ _. (h, k)) (λ _. (k.0, All-insert P e ts h k.1)))

abbrev pub count : Bool → ℕ
count b = if b then 1 else 0

-- The time is a deadline of a timer with this next one and interval.
abbrev pub comes_up : ℕ → ℕ → ℕ → Bool
comes_up next interval d =
    if interval == 0 then next == d else leb next d && ((d - next) % (interval * millisecond) == 0)

-- How many timers with an id have a deadline at a time, and how many of the firings were theirs.
abbrev pub planned : ℕ → ℕ → List TimerEntry → ℕ
planned id d = total (λ t. count ((t.id == id) && comes_up t.next t.interval d))

abbrev pub firings_of : ℕ → ℕ → List Firing → ℕ
firings_of id d [] = 0
firings_of id d (f ∷ fs) = count ((f.timer == id) && (f.deadline == d)) + firings_of id d fs

-- The deadlines of a timer that recurs: the next one, and those from one interval later on.
recurs :
    (n p d : ℕ)
    → 0 < p
    → count (leb n d && ((d - n) % p == 0))
      ≡ count (n == d) + count (leb (n + p) d && ((d - (n + p)) % p == 0))
recurs n p d h = elim (Bool-cases (leb (n + p) d)) [
  | inl past ↦
      let e = mod-eq-sub-mod {n = d - n} {m = p} (distance past) in
      let e' = ap (λ k. k % p) (apart d n p) in
      let r = ap (λ k. count (k == 0)) (e ∙ e') in ground arith
  | inr near ↦ elim (Bool-cases (leb n d)) [
    | inl reached ↦ let e = mod-eq_of_lt {n = d - n} {m = p} (short near) in ground arith
    | inr ahead ↦ ground arith
  ]
]
  where
    distance : leb (n + p) d ≡ true → p ≤ d - n
    distance k = ground arith

    short : leb (n + p) d ≡ false → d - n < p
    short k = ground arith

    apart : (d n p : ℕ) → (d - n) - p ≡ d - (n + p)
    apart d n p = omega arith

-- The turn of a timer that recurs takes its next deadline from those that it will reach.
pub rearmed-comes_up :
    (n interval d : ℕ)
    → 0 < interval
    → count (comes_up n interval d)
      ≡ count (n == d) + count (comes_up (n + interval * millisecond) interval d)
rearmed-comes_up n interval d h = rw recurring (recurs n (interval * millisecond) d (omega arith))
  where
    recurring : (interval == 0) ≡ false
    recurring = ground arith

-- With the id of the timer.
pub rearmed-planned :
    (mine : Bool) (n interval d : ℕ)
    → 0 < interval
    → count (mine && comes_up n interval d)
      ≡ count (mine && (n == d)) + count (mine && comes_up (n + interval * millisecond) interval d)
rearmed-planned true n interval d h = rearmed-comes_up n interval d h
rearmed-planned false n interval d h = refl

-- A timer that does not recur has its one deadline.
pub once-planned :
    (mine : Bool) (n interval d : ℕ)
    → ltb 0 interval ≡ false
    → count (mine && comes_up n interval d) ≡ count (mine && (n == d))
once-planned mine n interval d h = rw once
  where
    once : (interval == 0) ≡ true
    once = ground arith
