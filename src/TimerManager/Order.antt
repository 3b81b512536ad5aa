-- ===== src/TimerManager/Order.antt =====
-- The list of timers is in the order of the deadlines, and equal deadlines in the order of arrival.
use cpp_tlfss.Base.{
  ltb, if◌then◌else◌, ltb→lt, if-keeps, length, All, ℕ, zero, suc, ◌≤◌, ◌<◌, ◌≡◌, refl, sym, ap,
  subst, Bool, true, false, List, [], ◌∷◌, ◌++◌, arith,
}
use cpp_tlfss.TimerManager.Types.{TimerEntry}
use cpp_tlfss.TimerManager.Manager.{find_insert_position, insert_at, erase_at, insert_sorted}

abbrev pub NoEarlier : ℕ → List TimerEntry → Type 0
NoEarlier d = All (λ t. d ≤ t.next)

abbrev pub IsSorted : List TimerEntry → Type 0
IsSorted [] = Unit
IsSorted (t ∷ ts) = NoEarlier t.next ts × IsSorted ts

NoEarlier-weaken : (c d : ℕ) (ts : List TimerEntry) → c ≤ d → NoEarlier d ts → NoEarlier c ts
NoEarlier-weaken c d [] h k = tt
NoEarlier-weaken c d (t ∷ ts) h k = (omega (arith, k.0), NoEarlier-weaken c d ts h k.1)

-- How an insertion splits the list.
pub insert_sorted-step :
    (e t : TimerEntry) (ts : List TimerEntry)
    → insert_sorted e (t ∷ ts) ≡ (if ltb e.next t.next then e ∷ t ∷ ts else t ∷ insert_sorted e ts)
unfolding insert_sorted find_insert_position
insert_sorted-step e t ts = push (ltb e.next t.next)
  where
    push :
        (b : Bool)
        → insert_at (if b then 0 else suc (find_insert_position e.next ts)) e (t ∷ ts)
          ≡ (if b then e ∷ t ∷ ts else t ∷ insert_sorted e ts)
    push true = refl
    push false = refl

insert_sorted-NoEarlier :
    (d : ℕ) (e : TimerEntry) (ts : List TimerEntry)
    → d ≤ e.next
    → NoEarlier d ts
    → NoEarlier d (insert_sorted e ts)
unfolding insert_sorted find_insert_position
insert_sorted-NoEarlier d e [] h k = (h, tt)
insert_sorted-NoEarlier d e (t ∷ ts) h k = subst (NoEarlier d) (sym (insert_sorted-step e t ts)) (
    if-keeps (NoEarlier d) (ltb e.next t.next) (λ _. (h, k))
      (λ _. (k.0, insert_sorted-NoEarlier d e ts h k.1)))

pub insert_sorted-IsSorted :
    (e : TimerEntry) (ts : List TimerEntry) → IsSorted ts → IsSorted (insert_sorted e ts)
unfolding insert_sorted find_insert_position
insert_sorted-IsSorted e [] s = (tt, tt)
insert_sorted-IsSorted e (t ∷ ts) s = subst IsSorted (sym (insert_sorted-step e t ts)) (
    if-keeps IsSorted (ltb e.next t.next)
      (λ h.
        let less = ltb→lt e.next t.next h in
        ((omega arith, NoEarlier-weaken e.next t.next ts (omega arith) s.0), s))
      (λ h. (
        insert_sorted-NoEarlier t.next e ts (reached e.next t.next h) s.0,
        insert_sorted-IsSorted e ts s.1,
      )))
  where
    reached : (d n : ℕ) → ltb d n ≡ false → n ≤ d
    reached d n h = ground arith

-- The new timer stands behind every timer that is due no later, and before every later one.
pub record Inserted (e : TimerEntry) (ts new : List TimerEntry) : Type 0 where
  pub before : List TimerEntry
  pub after : List TimerEntry
  pub old_is : ts ≡ before ++ after
  pub new_is : new ≡ before ++ (e ∷ after)
  pub due : All (λ t. t.next ≤ e.next) before
  pub later : All (λ t. e.next < t.next) after

beyond : (d n : ℕ) (ts : List TimerEntry) → d < n → NoEarlier n ts → All (λ t. d < t.next) ts
beyond d n [] h k = tt
beyond d n (t ∷ ts) h k = (omega (arith, k.0), beyond d n ts h k.1)

pub insert_sorted-Inserted :
    (e : TimerEntry) (ts : List TimerEntry) → IsSorted ts → Inserted e ts (insert_sorted e ts)
unfolding insert_sorted find_insert_position
insert_sorted-Inserted e [] s = record {
  before = [];
  after = [];
  old_is = refl;
  new_is = refl;
  due = tt;
  later = tt;
}
insert_sorted-Inserted e (t ∷ ts) s =
    let rest = insert_sorted-Inserted e ts s.1 in
    subst (Inserted e (t ∷ ts)) (sym (insert_sorted-step e t ts)) (
      if-keeps (Inserted e (t ∷ ts)) (ltb e.next t.next)
        (λ h.
          let less = ltb→lt e.next t.next h in
          record {
            before = [];
            after = t ∷ ts;
            old_is = refl;
            new_is = refl;
            due = tt;
            later = (less, beyond e.next t.next ts less s.0);
          })
        (λ h. record {
          before = t ∷ rest.before;
          after = rest.after;
          old_is = ap (λ l. t ∷ l) rest.old_is;
          new_is = ap (λ l. t ∷ l) rest.new_is;
          due = (reached e.next t.next h, rest.due);
          later = rest.later;
        }))
  where
    reached : (d n : ℕ) → ltb d n ≡ false → n ≤ d
    reached d n h = ground arith

pub erase-insert :
    (n : ℕ) (e : TimerEntry) (ts : List TimerEntry)
    → n ≤ length ts
    → erase_at n (insert_at n e ts) ≡ ts
erase-insert zero e ts h = refl
erase-insert (suc n) e [] h = absurd (omega arith)
erase-insert (suc n) e (t ∷ ts) h = ap (λ l. t ∷ l) (erase-insert n e ts (omega arith))

pub find_insert_position-length :
    (d : ℕ) (ts : List TimerEntry) → find_insert_position d ts ≤ length ts
unfolding find_insert_position
find_insert_position-length d [] = omega arith
find_insert_position-length d (t ∷ ts) =
    if-keeps (λ n. n ≤ length (t ∷ ts)) (ltb d t.next) (λ _. omega arith)
      (λ _. omega (arith, find_insert_position-length d ts))
