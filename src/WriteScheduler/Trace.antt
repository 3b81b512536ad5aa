-- ===== src/WriteScheduler/Trace.antt =====
-- Runs of a `WriteScheduler`: any sequence of calls of its operations, from its construction.
use cpp_tlfss.Base.{
  ℕ, ◌+◌, ◌*◌, ◌||◌, ◌==◌, ltb, if◌then◌else◌, if-keeps, subst, Option, none, some, Bool, true,
  false, List, [], ◌∷◌, ◌++◌, ◌≡◌, refl, ap, sym, arith, ◌∙◌, All,
}
use cpp_tlfss.WriteScheduler.Types.{max_pending_bytes, PreparedFile, Scheduler, Out}
use cpp_tlfss.WriteScheduler.Queue.{
  set_high_water_mark, set_write_interest, cancel_all, enqueue_memory, enqueue_file, on_file_read,
}
use cpp_tlfss.WriteScheduler.Writable.{Environment, on_writable}
use cpp_tlfss.WriteScheduler.Accounts.{IsBalanced, cancel_all-IsBalanced, enqueue_memory-IsBalanced}
use cpp_tlfss.WriteScheduler.Balance.{IsFile, enqueue_file-IsBalanced, on_file_read-IsBalanced}
use cpp_tlfss.WriteScheduler.Round.{on_writable-IsBalanced}
use cpp_tlfss.WriteScheduler.Owed.{owes, owed, notices, notices-append, cancel_all-Settles}
use cpp_tlfss.WriteScheduler.Once.{
  enqueue_memory-Settles, enqueue_file-Settles, on_file_read-Settles,
}
use cpp_tlfss.WriteScheduler.RoundOnce.{on_writable-Settles}

-- The state of a scheduler as constructed.
abbrev pub fresh : Scheduler
fresh = record {
  write_enabled = false;
  stopped = false;
  writes = [];
  pending_memory_bytes = 0;
  pending_files = 0;
  high_water_mark = 512 * 1024;
  next_read_sequence = 0;
}

-- A call of a public operation that changes the state. A high-water mark that is out of range aborts
-- the process: no run goes on behind it, and here it changes nothing.
pub data Operation : Type 0 where
  memory : List ℕ → Operation
  file : PreparedFile → Bool → Operation
  writable : Environment → Operation
  file_read : ℕ → ℕ → List ℕ → Operation
  cancel : ℕ → Operation
  mark : ℕ → Operation

abbrev pub unless_aborted : Scheduler → Option Scheduler → Scheduler
unless_aborted s none = s
unless_aborted s (some s') = s'

unfoldable pub perform : Operation → Scheduler → Out
unfolding enqueue_memory enqueue_file on_writable on_file_read cancel_all set_high_water_mark
perform (memory text) s = enqueue_memory text s
perform (file prepared accepting) s = enqueue_file prepared accepting s
perform (writable env) s = on_writable env s
perform (file_read sequence e text) s = on_file_read sequence e text s
perform (cancel e) s = cancel_all e s
perform (mark size) s = (unless_aborted s (set_high_water_mark true size s), [])

-- All calls that a sequence of operations makes.
unfoldable pub run : List Operation → Scheduler → Out
unfolding perform
run [] s = (s, [])
run (o ∷ os) s =
    let (s', calls) = perform o s in let (s'', more) = run os s' in (s'', calls ++ more)

-- `enqueue_file` asserts that its task is one that sends a file.
abbrev pub IsProper : Operation → Type 0
IsProper (file prepared _) = IsFile prepared.task
IsProper _ = Unit

-- A high-water mark changes nothing else.
marked :
    (size : ℕ) (s : Scheduler)
    → (m : ℕ) × (unless_aborted s (set_high_water_mark true size s)
        ≡ record s { high_water_mark = m })
unfolding set_high_water_mark
marked size s =
    if-keeps (λ o. (m : ℕ) × (unless_aborted s o ≡ record s { high_water_mark = m }))
      (size == 0 || ltb max_pending_bytes size) (λ _. (s.high_water_mark, refl)) (λ _. (size, refl))

perform-IsBalanced :
    (o : Operation) (s : Scheduler) → IsProper o → IsBalanced s → IsBalanced (perform o s).0
unfolding perform IsBalanced
perform-IsBalanced (memory text) s p h = enqueue_memory-IsBalanced text s h
perform-IsBalanced (file prepared accepting) s p h =
    enqueue_file-IsBalanced prepared accepting s p h
perform-IsBalanced (writable env) s p h = on_writable-IsBalanced env s h
perform-IsBalanced (file_read sequence e text) s p h = on_file_read-IsBalanced sequence e text s h
perform-IsBalanced (cancel e) s p h = cancel_all-IsBalanced e s
perform-IsBalanced (mark size) s p h =
    let (m, e) = marked size s in subst IsBalanced (sym e) (remarked m s h)
  where
    remarked :
        (m : ℕ) (s : Scheduler) → IsBalanced s → IsBalanced (record s { high_water_mark = m })
    remarked m s h = h

run_from-IsBalanced :
    (os : List Operation) (s : Scheduler) → All IsProper os → IsBalanced s → IsBalanced (run os s).0
unfolding run
run_from-IsBalanced [] s p h = h
run_from-IsBalanced (o ∷ os) s p h =
    run_from-IsBalanced os (perform o s).0 p.1 (perform-IsBalanced o s p.0 h)

-- After any sequence of operations on a new scheduler, whatever the socket and the readers do, the
-- pending bytes are the charges of the tasks in the queue and the pending files their number, both
-- and the length of the queue are within their limits, and a stopped scheduler has an empty queue.
-- The condition is what enqueue_file asserts: it is given tasks that send a file.
pub run-IsBalanced : (os : List Operation) → All IsProper os → IsBalanced (run os fresh).0
unfolding IsBalanced
run-IsBalanced os p =
    run_from-IsBalanced os fresh p (refl, refl, omega arith, omega arith, omega arith, λ _. refl)

-- How often a sequence of operations submits a file with callback `c`.
unfoldable pub submitted : ℕ → List Operation → ℕ
unfolding owes
submitted c [] = 0
submitted c (file prepared _ ∷ os) = owes c prepared.task + submitted c os
submitted c (_ ∷ os) = submitted c os

perform-Settles :
    (c : ℕ) (o : Operation) (os : List Operation) (s : Scheduler)
    → notices c (perform o s).1 + owed c (perform o s).0.writes + submitted c os
      ≡ owed c s.writes + submitted c (o ∷ os)
unfolding perform submitted notices
perform-Settles c (memory text) os s = omega (arith, enqueue_memory-Settles c text s)
perform-Settles c (file prepared accepting) os s =
    omega (arith, enqueue_file-Settles c prepared accepting s)
perform-Settles c (writable env) os s = omega (arith, on_writable-Settles c env s)
perform-Settles c (file_read sequence e text) os s =
    omega (arith, on_file_read-Settles c sequence e text s)
perform-Settles c (cancel e) os s = omega (arith, cancel_all-Settles c e s)
perform-Settles c (mark size) os s =
    let (m, e) = marked size s in
    let same = ap (λ (t : Scheduler). owed c t.writes) e in omega arith

run_from-Settles :
    (c : ℕ) (os : List Operation) (s : Scheduler)
    → notices c (run os s).1 + owed c (run os s).0.writes ≡ owed c s.writes + submitted c os
unfolding run submitted notices
run_from-Settles c [] s = omega arith
run_from-Settles c (o ∷ os) s = omega (
  arith,
  notices-append c (perform o s).1 (run os (perform o s).0).1,
  perform-Settles c o os s,
  run_from-Settles c os (perform o s).0,
)

-- For each callback, over any sequence of operations on a new scheduler, whatever the socket and the
-- readers do: the times that it was posted to the event loop and the files in the queue that still
-- owe a posting are together as many as the files submitted with it.
pub run-notices :
    (c : ℕ) (os : List Operation)
    → notices c (run os fresh).1 + owed c (run os fresh).0.writes ≡ submitted c os
unfolding owed
run-notices c os = omega (arith, run_from-Settles c os fresh)

-- `cancel_all` leaves a queue that owes nothing.
cancelled-owed : (c e : ℕ) (s : Scheduler) → owed c (cancel_all e s).0.writes ≡ 0
unfolding cancel_all owed
cancelled-owed c e s = refl

-- When a sequence of operations on a new scheduler has been followed by cancel_all, as its
-- destructor does, each callback has been posted to the event loop exactly as often as files were
-- submitted with it.
pub cancel_all-notices :
    (c e : ℕ) (os : List Operation)
    → notices c ((run os fresh).1 ++ (cancel_all e (run os fresh).0).1) ≡ submitted c os
cancel_all-notices c e os = omega (
  arith,
  notices-append c (run os fresh).1 (cancel_all e (run os fresh).0).1,
  run-notices c os,
  cancel_all-Settles c e (run os fresh).0,
  cancelled-owed c e (run os fresh).0,
)

-- The states of a cancelled scheduler.
abbrev halted : ℕ → ℕ → Scheduler
halted level sequence = record {
  write_enabled = false;
  stopped = true;
  writes = [];
  pending_memory_bytes = 0;
  pending_files = 0;
  high_water_mark = level;
  next_read_sequence = sequence;
}

cancel_with-halted :
    (w : Bool) (e : ℕ) (s : Scheduler)
    → (cancel_all e (record s { write_enabled = w })).0
      ≡ halted s.high_water_mark s.next_read_sequence
unfolding cancel_all set_write_interest
cancel_with-halted true e s = refl
cancel_with-halted false e s = refl

cancel_all-halted :
    (e : ℕ) (s : Scheduler) → (cancel_all e s).0 ≡ halted s.high_water_mark s.next_read_sequence
cancel_all-halted e s = cancel_with-halted s.write_enabled e s

-- The mark behind a sequence of operations: the last one set that was in range.
abbrev pub in_range : ℕ → ℕ → ℕ
in_range size before = if size == 0 || ltb max_pending_bytes size then before else size

abbrev pub last_mark : List Operation → ℕ → ℕ
last_mark [] before = before
last_mark (mark size ∷ os) before = last_mark os (in_range size before)
last_mark (_ ∷ os) before = last_mark os before

set_mark-halted :
    (size before sequence : ℕ)
    → unless_aborted
        (halted before sequence)
        (set_high_water_mark true size (halted before sequence))
      ≡ halted (in_range size before) sequence
unfolding set_high_water_mark
set_mark-halted size before sequence = push (size == 0 || ltb max_pending_bytes size)
  where
    push :
        (b : Bool)
        → unless_aborted (halted before sequence) (if b then none else some (halted size sequence))
          ≡ halted (if b then before else size) sequence
    push true = refl
    push false = refl

run-halted :
    (os : List Operation) (before sequence : ℕ)
    → (run os (halted before sequence)).0 ≡ halted (last_mark os before) sequence
unfolding run perform enqueue_memory enqueue_file on_writable on_file_read
run-halted [] before sequence = refl
run-halted (memory text ∷ os) before sequence = run-halted os before sequence
run-halted (file prepared accepting ∷ os) before sequence = run-halted os before sequence
run-halted (writable env ∷ os) before sequence = run-halted os before sequence
run-halted (file_read _ e text ∷ os) before sequence = run-halted os before sequence
run-halted (cancel e ∷ os) before sequence =
    ap (λ s. (run os s).0) (cancel_all-halted e (halted before sequence))
    ∙ run-halted os before sequence
run-halted (mark size ∷ os) before sequence =
    ap (λ s. (run os s).0) (set_mark-halted size before sequence)
    ∙ run-halted os (in_range size before) sequence

-- cancel_all is terminal and idempotent: a sequence of operations, itself among them, changes nothing
-- of the state that it leaves but the high-water mark, which is the last one set in range; one out of
-- range, which aborts the process, counts as no change.
pub cancel_all-run :
    (e : ℕ) (s : Scheduler) (os : List Operation)
    → (run os (cancel_all e s).0).0
      ≡ record (cancel_all e s).0 { high_water_mark = last_mark os s.high_water_mark }
cancel_all-run e s os =
    ap (λ x. (run os x).0) (cancel_all-halted e s)
    ∙ (run-halted os s.high_water_mark s.next_read_sequence
        ∙ sym (
            ap (λ (x : Scheduler). record x { high_water_mark = last_mark os s.high_water_mark })
              (cancel_all-halted e s)))
