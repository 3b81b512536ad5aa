-- ===== src/WriteScheduler/RoundOnce.antt =====
-- The postings of the callbacks of files in a round of writing.
use cpp_tlfss.Base.{
  ℕ, zero, suc, ◌+◌, ◌-◌, ◌^◌, Bool, true, false, not, ◌||◌, List, [], ◌∷◌, ◌==◌, if◌then◌else◌,
  length, is_empty, ◌≡◌, refl, subst, min, ap, sym, arith, if-keeps, ◌∙◌, take, drop,
}
use cpp_tlfss.WriteScheduler.Types.{
  write_budget, write_steps, async_file_chunk, eintr, eio, eagain, eoverflow, FileProgress,
  AsyncReader, WriteTask, memory_write, send_file_write, async_reader_write, Scheduler, Event,
  drained, read_requested, transmitted, file_transmitted, Out,
}
use cpp_tlfss.WriteScheduler.Queue.{
  bool_eq, set_write_interest, cancel_all, fail, ReaderOutcome, returns, cancels, throws,
  error_or_eio, call_reader, request_file_read, complete_front,
}
use cpp_tlfss.WriteScheduler.Writable.{
  SysResult, returned, error, Environment, Step, return, continue, no_progress, after, advance,
  progress, with_result, memory_step, send_file_step, advance_chunk, async_step, write_step,
  finish_round, go_on, write_loop, on_writable,
}
use cpp_tlfss.WriteScheduler.Owed.{
  owes, owed, notices, notices-append, Settles, notify_file-notices, set_write_interest-Settles,
  set_write_interest-notices, cancel_all-Settles, fail-Settles,
}
use cpp_tlfss.WriteScheduler.Once.{unchanged}

-- Calls that come before those of an operation.
after-Settles :
    (c n : ℕ) (calls : List Event) (out : Out)
    → notices c calls ≡ 0
    → Settles c n out
    → Settles c n (after calls out)
after-Settles c n calls (s, more) z h = omega (arith, notices-append c calls more)

call_reader-Settles :
    (c : ℕ) (o : ReaderOutcome) (asked : List Event) (s : Scheduler)
    → notices c asked ≡ 0
    → Settles c (owed c s.writes) (call_reader o asked s)
unfolding call_reader
call_reader-Settles c returns asked s z = omega arith
call_reader-Settles c (cancels e) asked s z =
    after-Settles c (owed c s.writes) asked (cancel_all e s) z (cancel_all-Settles c e s)
call_reader-Settles c (throws e) asked s z =
    after-Settles c (owed c s.writes) asked (fail (error_or_eio e) s) z
      (fail-Settles c (error_or_eio e) s)

-- A change of the write interest leaves the queue alone.
set_write_interest-writes :
    (b : Bool) (s : Scheduler) → (set_write_interest b s).0.writes ≡ s.writes
unfolding set_write_interest
set_write_interest-writes b s =
    if-keeps (λ (o : Out). o.0.writes ≡ s.writes) (bool_eq s.write_enabled b) (λ _. refl)
      (λ _. refl)

request_file_read-Settles :
    (c : ℕ) (o : ReaderOutcome) (p : FileProgress) (a : AsyncReader) (rest : List WriteTask)
    (s : Scheduler)
    → s.writes ≡ async_reader_write p a ∷ rest
    → Settles c (owed c s.writes) (request_file_read o p a rest s)
unfolding request_file_read owed owes notices
request_file_read-Settles c o p a rest s front =
    if-keeps (Settles c (owed c s.writes)) (s.next_read_sequence == 2 ^ 64 - 1)
      (λ _. fail-Settles c eoverflow s)
      (λ _.
        call_reader-Settles c o _ (set_write_interest false requested).0 (
          omega (
            arith,
            notices-append c (set_write_interest false requested).1 (
                read_requested (s.next_read_sequence + 1) p.offset
                  (min p.remaining async_file_chunk)
                ∷ []),
            set_write_interest-notices c false requested,
          ))
        ∙ (ap (owed c) (set_write_interest-writes false requested) ∙ ap (owed c) (sym front)))
  where
    requested : Scheduler
    requested = record s {
      next_read_sequence = s.next_read_sequence + 1;
      writes =
          async_reader_write p (record a {
            read_pending = true;
            read_sequence = s.next_read_sequence + 1;
            read_size = min p.remaining async_file_chunk;
          })
          ∷ rest;
    }

complete_front-Settles :
    (c : ℕ) (t : WriteTask) (rest : List WriteTask) (s : Scheduler)
    → Settles c (owed c (t ∷ rest)) (complete_front t rest s)
unfolding complete_front owed owes notices
complete_front-Settles c (memory_write text o) rest s = omega arith
complete_front-Settles c (send_file_write p x) rest s =
    omega (arith, notify_file-notices c (send_file_write p x) 0)
complete_front-Settles c (async_reader_write p a) rest s =
    omega (arith, notify_file-notices c (async_reader_write p a) 0)

abbrev StepSettles : ℕ → ℕ → Step → Type 0
StepSettles c n (return out) = Settles c n out
StepSettles c n (continue out budget) = Settles c n out

no_progress-Settles :
    (c : ℕ) (r : SysResult) (budget : ℕ) (s : Scheduler)
    → StepSettles c (owed c s.writes) (no_progress r budget s)
unfolding no_progress
no_progress-Settles c (returned _) budget s = fail-Settles c eio s
no_progress-Settles c (error e) budget s =
    if-keeps (StepSettles c (owed c s.writes)) (e == eintr) (λ _. unchanged c s)
      (λ _.
        if-keeps (StepSettles c (owed c s.writes)) (e == eagain) (λ _. unchanged c s)
          (λ _. fail-Settles c e s))

advance-Settles :
    (c : ℕ) (calls : List Event) (t : WriteTask) (completed : Bool) (rest : List WriteTask)
    (budget : ℕ) (s : Scheduler)
    → notices c calls ≡ 0
    → StepSettles c (owed c (t ∷ rest)) (advance calls t completed rest budget s)
unfolding advance
advance-Settles c calls t completed rest budget s z =
    after-Settles c (owed c (t ∷ rest)) calls
      (if completed then complete_front t rest moved else (moved, [])) z
      (if-keeps (Settles c (owed c (t ∷ rest))) completed
        (λ _. complete_front-Settles c t rest moved) (λ _. unchanged c moved))
  where
    moved : Scheduler
    moved = record s { writes = t ∷ rest }

with_result-Settles :
    (c n : ℕ) (r : SysResult) (go : ℕ → Step) (budget : ℕ) (s : Scheduler)
    → owed c s.writes ≡ n
    → ((k : ℕ) → StepSettles c n (go k))
    → StepSettles c n (with_result r go budget s)
unfolding with_result
with_result-Settles c n (returned (suc k)) go budget s e f = f (suc k)
with_result-Settles c n (returned zero) go budget s e f =
    subst (λ m. StepSettles c m (no_progress (returned 0) budget s)) e
      (no_progress-Settles c (returned 0) budget s)
with_result-Settles c n (error x) go budget s e f =
    subst (λ m. StepSettles c m (no_progress (error x) budget s)) e
      (no_progress-Settles c (error x) budget s)

write_step-Settles :
    (c : ℕ) (call : ℕ → SysResult) (o : ReaderOutcome) (t : WriteTask) (rest : List WriteTask)
    (budget : ℕ) (s : Scheduler)
    → s.writes ≡ t ∷ rest
    → StepSettles c (owed c (t ∷ rest)) (write_step call o t rest budget s)
unfolding write_step memory_step send_file_step async_step owed owes notices
write_step-Settles c call o (memory_write text offset) rest budget s front =
    with_result-Settles c _ (call (min (length text - offset) budget)) _ budget s
      (ap (owed c) front)
      (λ n.
        advance-Settles c (transmitted (take n (drop offset text)) ∷ [])
          (memory_write text (offset + n)) (offset + n == length text) rest (budget - n) s
          (omega arith))
write_step-Settles c call o (send_file_write p x) rest budget s front =
    if-keeps (StepSettles c (owed c (send_file_write p x ∷ rest))) (p.remaining == 0)
      (λ _. complete_front-Settles c (send_file_write p x) rest s)
      (λ _.
        with_result-Settles c _ (call (min p.remaining budget)) _ budget s (ap (owed c) front) (λ n.
          advance-Settles c (file_transmitted x p.offset n ∷ []) (send_file_write (progress p n) x)
            (p.remaining - n == 0) rest (budget - n) s (omega arith)))
write_step-Settles c call o (async_reader_write p a) rest budget s front =
    if-keeps (StepSettles c (owed c (async_reader_write p a ∷ rest))) (p.remaining == 0)
      (λ _. complete_front-Settles c (async_reader_write p a) rest s)
      (λ _.
        if-keeps (StepSettles c (owed c (async_reader_write p a ∷ rest))) (is_empty a.chunk)
          (λ _.
            if-keeps (StepSettles c (owed c (async_reader_write p a ∷ rest))) a.read_pending
              (λ _. set_write_interest-Settles c false s ∙ ap (owed c) front)
              (λ _. request_file_read-Settles c o p a rest s front ∙ ap (owed c) front))
          (λ _.
            with_result-Settles c _ (call (min (length a.chunk - a.chunk_offset) budget)) _ budget s
              (ap (owed c) front)
              (λ n.
                advance-Settles c (transmitted (take n (drop a.chunk_offset a.chunk)) ∷ [])
                  (async_reader_write (progress p n) (advance_chunk a n)) (p.remaining - n == 0)
                  rest (budget - n) s (omega arith))))

finish_round-Settles : (c : ℕ) (s : Scheduler) → Settles c (owed c s.writes) (finish_round s)
unfolding finish_round notices
finish_round-Settles c s =
    if-keeps (Settles c (owed c s.writes)) (is_empty s.writes)
      (λ _. omega (
        arith,
        notices-append c (set_write_interest false s).1 (drained ∷ []),
        set_write_interest-Settles c false s,
      ))
      (λ _. unchanged c s)

go_on-Settles :
    (c n : ℕ) (loop : ℕ → Scheduler → Out) (r : Step)
    → ((budget : ℕ) (s : Scheduler) → Settles c (owed c s.writes) (loop budget s))
    → StepSettles c n r
    → Settles c n (go_on loop r)
unfolding go_on
go_on-Settles c n loop (return out) k h = h
go_on-Settles c n loop (continue (s, calls) budget) k h =
    omega (arith, notices-append c calls (loop budget s).1, k budget s)

write_loop-Settles :
    (c steps : ℕ) (env : Environment) (budget : ℕ) (s : Scheduler) (ts : List WriteTask)
    → s.writes ≡ ts
    → Settles c (owed c s.writes) (write_loop steps env budget s ts)
unfolding write_loop
write_loop-Settles c steps env budget s [] front = finish_round-Settles c s
write_loop-Settles c zero env budget s (t ∷ rest) front = finish_round-Settles c s
write_loop-Settles c (suc steps) env budget s (t ∷ rest) front =
    if-keeps (Settles c (owed c s.writes)) (budget == 0) (λ _. finish_round-Settles c s)
      (λ _.
        go_on-Settles c (owed c (t ∷ rest))
          (λ budget' s'. write_loop steps env budget' s' s'.writes)
          (write_step (env.io steps) env.reader t rest budget s)
          (λ budget' s'. write_loop-Settles c steps env budget' s' s'.writes refl)
          (write_step-Settles c (env.io steps) env.reader t rest budget s front)
        ∙ ap (owed c) (sym front))

pub on_writable-Settles :
    (c : ℕ) (env : Environment) (s : Scheduler) → Settles c (owed c s.writes) (on_writable env s)
unfolding on_writable
on_writable-Settles c env s =
    if-keeps (Settles c (owed c s.writes)) (s.stopped || not s.write_enabled) (λ _. unchanged c s)
      (λ _. write_loop-Settles c write_steps env write_budget s s.writes refl)
