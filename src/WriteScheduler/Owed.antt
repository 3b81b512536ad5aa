-- ===== src/WriteScheduler/Owed.antt =====
-- The callbacks that a `WriteScheduler` owes to the files in its queue, and those that it has posted
-- to the event loop.
use cpp_tlfss.Base.{
  ℕ, ◌+◌, Bool, true, false, ◌&&◌, ◌||◌, Option, none, some, List, [], ◌∷◌, ◌++◌, ltb, leb, ◌==◌,
  if◌then◌else◌, is_empty, ◌≡◌, refl, arith, if-keeps,
}
use cpp_tlfss.WriteScheduler.Types.{
  WriteTask, memory_write, send_file_write, async_reader_write, Scheduler, Event, failed, posted,
  Out,
}
use cpp_tlfss.WriteScheduler.Queue.{
  file_progress, bool_eq, set_write_interest, front_waits, enable_write_event, check_high_water,
  post_callback, notify_file, notify_all, cancel_all, fail, admitted,
}

-- Whether a callback is the one known by `c`, as a number.
abbrev pub is_callback : ℕ → Option ℕ → ℕ
is_callback c none = 0
is_callback c (some d) = if c == d then 1 else 0

unfoldable pub owes : ℕ → WriteTask → ℕ
owes c (memory_write _ _) = 0
owes c (send_file_write p _) = is_callback c p.callback
owes c (async_reader_write p _) = is_callback c p.callback

-- How often the tasks of a queue still owe a posting of `c`.
unfoldable pub owed : ℕ → List WriteTask → ℕ
unfolding owes
owed c [] = 0
owed c (t ∷ ts) = owes c t + owed c ts

abbrev pub is_notice : ℕ → Event → ℕ
is_notice c (posted d _ _) = if c == d then 1 else 0
is_notice c _ = 0

-- How often `c` is posted.
unfoldable pub notices : ℕ → List Event → ℕ
notices c [] = 0
notices c (e ∷ es) = is_notice c e + notices c es

pub notices-append :
    (c : ℕ) (xs ys : List Event) → notices c (xs ++ ys) ≡ notices c xs + notices c ys
unfolding notices
notices-append c [] ys = omega arith
notices-append c (x ∷ xs) ys = omega (arith, notices-append c xs ys)

pub owed-append : (c : ℕ) (xs ys : List WriteTask) → owed c (xs ++ ys) ≡ owed c xs + owed c ys
unfolding owed
owed-append c [] ys = omega arith
owed-append c (x ∷ xs) ys = omega (arith, owed-append c xs ys)

-- What an operation owes afterwards and what it has posted make `n`.
abbrev pub Settles : ℕ → ℕ → Out → Type 0
Settles c n out = notices c out.1 + owed c out.0.writes ≡ n

post_callback-notices :
    (c : ℕ) (o : Option ℕ) (e n : ℕ) → notices c (post_callback o e n) ≡ is_callback c o
unfolding post_callback notices
post_callback-notices c none e n = refl
post_callback-notices c (some d) e n = omega arith

pub notify_file-notices : (c : ℕ) (t : WriteTask) (e : ℕ) → notices c (notify_file t e) ≡ owes c t
unfolding notify_file file_progress owes notices
notify_file-notices c (memory_write _ _) e = refl
notify_file-notices c (send_file_write p _) e = post_callback-notices c p.callback e p.sent
notify_file-notices c (async_reader_write p _) e = post_callback-notices c p.callback e p.sent

pub notify_all-notices :
    (c : ℕ) (ts : List WriteTask) (e : ℕ) → notices c (notify_all ts e) ≡ owed c ts
unfolding notify_all owed notices
notify_all-notices c [] e = refl
notify_all-notices c (t ∷ ts) e = omega (
  arith,
  notices-append c (notify_file t e) (notify_all ts e),
  notify_file-notices c t e,
  notify_all-notices c ts e,
)

pub set_write_interest-Settles :
    (c : ℕ) (b : Bool) (s : Scheduler) → Settles c (owed c s.writes) (set_write_interest b s)
unfolding set_write_interest notices
set_write_interest-Settles c b s =
    if-keeps (Settles c (owed c s.writes)) (bool_eq s.write_enabled b) (omega arith) (omega arith)

-- What `set_write_interest` calls is no callback of a file.
pub set_write_interest-notices :
    (c : ℕ) (b : Bool) (s : Scheduler) → notices c (set_write_interest b s).1 ≡ 0
unfolding set_write_interest notices
set_write_interest-notices c b s =
    if-keeps (λ (o : Out). notices c o.1 ≡ 0) (bool_eq s.write_enabled b) (λ _. refl)
      (λ _. omega arith)

pub cancel_all-Settles : (c e : ℕ) (s : Scheduler) → Settles c (owed c s.writes) (cancel_all e s)
unfolding cancel_all owed
cancel_all-Settles c e s = omega (
  arith,
  notices-append c (set_write_interest false (record s { stopped = true })).1
      (notify_all s.writes e),
  set_write_interest-notices c false (record s { stopped = true }),
  notify_all-notices c s.writes e,
)

pub fail-Settles : (c e : ℕ) (s : Scheduler) → Settles c (owed c s.writes) (fail e s)
unfolding fail notices
fail-Settles c e s =
    if-keeps (Settles c (owed c s.writes)) s.stopped (λ _. omega arith)
      (λ _.
        omega
          (arith, notices-append c (cancel_all e s).1 (failed e ∷ []), cancel_all-Settles c e s))

pub enable_write_event-Settles :
    (c : ℕ) (s : Scheduler) → Settles c (owed c s.writes) (enable_write_event s)
unfolding enable_write_event notices
enable_write_event-Settles c s =
    if-keeps (Settles c (owed c s.writes)) (s.stopped || is_empty s.writes) (λ _. omega arith)
      (λ _.
        if-keeps (Settles c (owed c s.writes)) (front_waits s.writes) (λ _. omega arith)
          (λ _. set_write_interest-Settles c true s))

check_high_water-notices : (c n : ℕ) (s : Scheduler) → notices c (check_high_water n s) ≡ 0
unfolding check_high_water notices
check_high_water-notices c n s =
    if-keeps (λ es. notices c es ≡ 0)
      (ltb n s.high_water_mark && leb s.high_water_mark s.pending_memory_bytes) (λ _. omega arith)
      (λ _. refl)

pub admitted-Settles : (c n : ℕ) (s : Scheduler) → Settles c (owed c s.writes) (admitted n s)
unfolding admitted
admitted-Settles c n s = omega (
  arith,
  notices-append c (enable_write_event s).1 (check_high_water n (enable_write_event s).0),
  enable_write_event-Settles c s,
  check_high_water-notices c n (enable_write_event s).0,
)
