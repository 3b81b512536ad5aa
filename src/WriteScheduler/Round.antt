-- ===== src/WriteScheduler/Round.antt =====
-- The counters of a `WriteScheduler` across a round of writing.
use cpp_tlfss.Base.{
  ℕ, zero, suc, ◌+◌, ◌-◌, ◌^◌, Bool, false, not, ◌||◌, List, [], ◌∷◌, ◌==◌, length, is_empty, ◌≡◌,
  refl, min, ap, sym, arith, if-keeps, ◌∙◌,
}
use cpp_tlfss.WriteScheduler.Types.{
  write_budget, write_steps, eintr, eio, eagain, eoverflow, FileProgress, AsyncReader, WriteTask,
  memory_write, send_file_write, async_reader_write, Scheduler, Event, Out,
}
use cpp_tlfss.WriteScheduler.Queue.{
  ReaderOutcome, returns, cancels, throws, error_or_eio, call_reader, request_file_read,
  complete_front,
}
use cpp_tlfss.WriteScheduler.Writable.{
  SysResult, returned, error, Environment, Step, return, continue, no_progress, advance, progress,
  with_result, memory_step, send_file_step, advance_chunk, async_step, write_step, finish_round,
  go_on, write_loop, on_writable,
}
use cpp_tlfss.WriteScheduler.Accounts.{
  charge, files_of, charges, files, IsBalanced, LeavesBalanced, set_write_interest-IsBalanced,
  cancel_all-IsBalanced, fail-IsBalanced,
}
use cpp_tlfss.WriteScheduler.Balance.{no-cons, replaces-IsBalanced}

call_reader-IsBalanced :
    (o : ReaderOutcome) (asked : List Event) (s : Scheduler)
    → IsBalanced s
    → LeavesBalanced (call_reader o asked s)
unfolding call_reader
call_reader-IsBalanced returns asked s h = h
call_reader-IsBalanced (cancels e) asked s h = cancel_all-IsBalanced e s
call_reader-IsBalanced (throws e) asked s h = fail-IsBalanced (error_or_eio e) s h

sequenced-IsBalanced :
    (n : ℕ) (s : Scheduler) → IsBalanced s → IsBalanced (record s { next_read_sequence = n })
unfolding IsBalanced
sequenced-IsBalanced n s h = h

request_file_read-IsBalanced :
    (o : ReaderOutcome) (p : FileProgress) (a : AsyncReader) (rest : List WriteTask) (s : Scheduler)
    → IsBalanced s
    → s.writes ≡ async_reader_write p a ∷ rest
    → LeavesBalanced (request_file_read o p a rest s)
unfolding request_file_read charge files_of
request_file_read-IsBalanced o p a rest s h front =
    if-keeps LeavesBalanced (s.next_read_sequence == 2 ^ 64 - 1)
      (λ _. fail-IsBalanced eoverflow s h)
      (λ _. call_reader-IsBalanced o _ _ (
        set_write_interest-IsBalanced false _ (
          replaces-IsBalanced (async_reader_write p a) _ rest _
            (sequenced-IsBalanced (s.next_read_sequence + 1) s h) front refl refl)))

complete_front-IsBalanced :
    (t : WriteTask) (rest : List WriteTask) (s : Scheduler)
    → IsBalanced s
    → s.writes ≡ t ∷ rest
    → LeavesBalanced (complete_front t rest s)
unfolding complete_front IsBalanced charges files charge files_of
complete_front-IsBalanced (memory_write text o) rest s (hb, hc, hm, hf, hl, hs) front = (
  omega (arith, ap charges front),
  omega (arith, ap files front),
  omega arith,
  omega arith,
  omega (arith, ap length front),
  λ e. absurd (no-cons (sym front ∙ hs e)),
)
complete_front-IsBalanced (send_file_write p x) rest s (hb, hc, hm, hf, hl, hs) front = (
  omega (arith, ap charges front),
  omega (arith, ap files front),
  omega arith,
  omega arith,
  omega (arith, ap length front),
  λ e. absurd (no-cons (sym front ∙ hs e)),
)
complete_front-IsBalanced (async_reader_write p a) rest s (hb, hc, hm, hf, hl, hs) front = (
  omega (arith, ap charges front),
  omega (arith, ap files front),
  omega arith,
  omega arith,
  omega (arith, ap length front),
  λ e. absurd (no-cons (sym front ∙ hs e)),
)

-- What a step leaves when it returns, or goes on.
abbrev StepBalanced : Step → Type 0
StepBalanced (return out) = LeavesBalanced out
StepBalanced (continue out budget) = LeavesBalanced out

no_progress-IsBalanced :
    (r : SysResult) (budget : ℕ) (s : Scheduler)
    → IsBalanced s
    → StepBalanced (no_progress r budget s)
unfolding no_progress
no_progress-IsBalanced (returned _) budget s h = fail-IsBalanced eio s h
no_progress-IsBalanced (error e) budget s h =
    if-keeps StepBalanced (e == eintr) (λ _. h)
      (λ _. if-keeps StepBalanced (e == eagain) (λ _. h) (λ _. fail-IsBalanced e s h))

advance-IsBalanced :
    (calls : List Event) (t t' : WriteTask) (completed : Bool) (rest : List WriteTask) (budget : ℕ)
    (s : Scheduler)
    → IsBalanced s
    → s.writes ≡ t ∷ rest
    → charge t' ≡ charge t
    → files_of t' ≡ files_of t
    → StepBalanced (advance calls t' completed rest budget s)
unfolding advance
advance-IsBalanced calls t t' completed rest budget s h front ec ef =
    if-keeps LeavesBalanced completed
      (λ _. complete_front-IsBalanced t' rest (record s { writes = t' ∷ rest }) replaced refl)
      (λ _. replaced)
  where
    replaced : IsBalanced (record s { writes = t' ∷ rest })
    replaced = replaces-IsBalanced t t' rest s h front ec ef

with_result-IsBalanced :
    (r : SysResult) (go : ℕ → Step) (budget : ℕ) (s : Scheduler)
    → IsBalanced s
    → ((n : ℕ) → StepBalanced (go n))
    → StepBalanced (with_result r go budget s)
unfolding with_result
with_result-IsBalanced (returned (suc n)) go budget s h k = k (suc n)
with_result-IsBalanced (returned zero) go budget s h k =
    no_progress-IsBalanced (returned 0) budget s h
with_result-IsBalanced (error e) go budget s h k = no_progress-IsBalanced (error e) budget s h

advance_chunk-reservation :
    (a : AsyncReader) (n : ℕ) → (advance_chunk a n).reservation ≡ a.reservation
unfolding advance_chunk
advance_chunk-reservation a n =
    if-keeps (λ (b : AsyncReader). b.reservation ≡ a.reservation)
      (a.chunk_offset + n == length a.chunk) (λ _. refl) (λ _. refl)

write_step-IsBalanced :
    (call : ℕ → SysResult) (o : ReaderOutcome) (t : WriteTask) (rest : List WriteTask) (budget : ℕ)
    (s : Scheduler)
    → IsBalanced s
    → s.writes ≡ t ∷ rest
    → StepBalanced (write_step call o t rest budget s)
unfolding write_step memory_step send_file_step async_step charge files_of
write_step-IsBalanced call o (memory_write text offset) rest budget s h front =
    with_result-IsBalanced (call (min (length text - offset) budget)) _ budget s h (λ n.
      advance-IsBalanced [] (memory_write text offset) (memory_write text (offset + n)) _ rest
        budget s h front refl refl)
write_step-IsBalanced call o (send_file_write p x) rest budget s h front =
    if-keeps StepBalanced (p.remaining == 0)
      (λ _. complete_front-IsBalanced (send_file_write p x) rest s h front)
      (λ _. with_result-IsBalanced (call (min p.remaining budget)) _ budget s h (λ n.
        advance-IsBalanced [] (send_file_write p x) (send_file_write (progress p n) x) _ rest budget
          s h front refl refl))
write_step-IsBalanced call o (async_reader_write p a) rest budget s h front =
    if-keeps StepBalanced (p.remaining == 0)
      (λ _. complete_front-IsBalanced (async_reader_write p a) rest s h front)
      (λ _.
        if-keeps StepBalanced (is_empty a.chunk)
          (λ _.
            if-keeps StepBalanced a.read_pending (λ _. set_write_interest-IsBalanced false s h)
              (λ _. request_file_read-IsBalanced o p a rest s h front))
          (λ _.
            with_result-IsBalanced (call (min (length a.chunk - a.chunk_offset) budget)) _ budget s
              h
              (λ n.
                advance-IsBalanced [] (async_reader_write p a)
                  (async_reader_write (progress p n) (advance_chunk a n)) _ rest budget s h front
                  (advance_chunk-reservation a n) refl)))

finish_round-IsBalanced : (s : Scheduler) → IsBalanced s → LeavesBalanced (finish_round s)
unfolding finish_round
finish_round-IsBalanced s h =
    if-keeps LeavesBalanced (is_empty s.writes) (λ _. set_write_interest-IsBalanced false s h)
      (λ _. h)

go_on-IsBalanced :
    (loop : ℕ → Scheduler → Out) (r : Step)
    → ((budget : ℕ) (s : Scheduler) → IsBalanced s → LeavesBalanced (loop budget s))
    → StepBalanced r
    → LeavesBalanced (go_on loop r)
unfolding go_on
go_on-IsBalanced loop (return out) k h = h
go_on-IsBalanced loop (continue (s, calls) budget) k h = k budget s h

write_loop-IsBalanced :
    (steps : ℕ) (env : Environment) (budget : ℕ) (s : Scheduler) (ts : List WriteTask)
    → IsBalanced s
    → s.writes ≡ ts
    → LeavesBalanced (write_loop steps env budget s ts)
unfolding write_loop
write_loop-IsBalanced steps env budget s [] h front = finish_round-IsBalanced s h
write_loop-IsBalanced zero env budget s (t ∷ rest) h front = finish_round-IsBalanced s h
write_loop-IsBalanced (suc steps) env budget s (t ∷ rest) h front =
    if-keeps LeavesBalanced (budget == 0) (λ _. finish_round-IsBalanced s h)
      (λ _.
        go_on-IsBalanced (λ budget' s'. write_loop steps env budget' s' s'.writes)
          (write_step (env.io steps) env.reader t rest budget s)
          (λ budget' s' k. write_loop-IsBalanced steps env budget' s' s'.writes k refl)
          (write_step-IsBalanced (env.io steps) env.reader t rest budget s h front))

pub on_writable-IsBalanced :
    (env : Environment) (s : Scheduler) → IsBalanced s → IsBalanced (on_writable env s).0
unfolding on_writable
on_writable-IsBalanced env s h =
    if-keeps LeavesBalanced (s.stopped || not s.write_enabled) (λ _. h)
      (λ _. write_loop-IsBalanced write_steps env write_budget s s.writes h refl)
