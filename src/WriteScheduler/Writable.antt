-- ===== src/WriteScheduler/Writable.antt =====
-- `on_writable`: a round of writing within a budget of bytes and of steps.
use cpp_tlfss.Base.{
  ℕ, zero, suc, ◌+◌, ◌-◌, min, Bool, false, not, ◌||◌, List, [], ◌∷◌, ◌++◌, ◌==◌, if◌then◌else◌,
  length, is_empty, take, drop,
}
use cpp_tlfss.WriteScheduler.Types.{
  write_budget, write_steps, eintr, eio, eagain, FileProgress, AsyncReader, WriteTask, memory_write,
  send_file_write, async_reader_write, Scheduler, Event, drained, transmitted, file_transmitted,
  Out,
}
use cpp_tlfss.WriteScheduler.Queue.{
  set_write_interest, fail, request_file_read, complete_front, ReaderOutcome,
}

-- What `send` or `sendfile` returns: a count, or -1 with `errno`.
pub data SysResult : Type 0 where
  returned : ℕ → SysResult
  error : ℕ → SysResult

-- The environment of a call: the result of the system call of each step, given the number of bytes
-- that it is asked to send, and how an external reader behaves if it is called.
pub record Environment : Type 0 where
  pub io : ℕ → ℕ → SysResult
  pub reader : ReaderOutcome

-- How a step of the loop ends: with a `return`, or by going on with the budget that is left.
pub data Step : Type 0 where
  return : Out → Step
  continue : Out → ℕ → Step

-- A system call that wrote nothing.
unfoldable pub no_progress : SysResult → ℕ → Scheduler → Step
no_progress (returned _) budget s = return (fail eio s)
no_progress (error e) budget s =
    if e == eintr
    then continue (s, []) budget
    else if e == eagain
    then return (s, [])
    else return (fail e s)

abbrev pub after : List Event → Out → Out
after calls (s, more) = (s, calls ++ more)

-- The front task has advanced by `written` bytes to `task`; a task that is done is completed.
unfoldable pub advance : List Event → WriteTask → Bool → List WriteTask → ℕ → Scheduler → Step
advance calls task completed rest budget s =
    continue (after calls (if completed then complete_front task rest moved else (moved, [])))
      budget
  where
    moved : Scheduler
    moved = record s { writes = task ∷ rest }

unfoldable pub progress : FileProgress → ℕ → FileProgress
progress p written = record p {
  offset = p.offset + written;
  remaining = p.remaining - written;
  sent = p.sent + written;
}

-- What follows a system call: `go` when it wrote something.
unfoldable pub with_result : SysResult → (ℕ → Step) → ℕ → Scheduler → Step
unfolding no_progress
with_result (returned (suc n)) go budget s = go (suc n)
with_result (returned zero) go budget s = no_progress (returned 0) budget s
with_result (error e) go budget s = no_progress (error e) budget s

-- A step at a memory task.
unfoldable pub memory_step : (ℕ → SysResult) → List ℕ → ℕ → List WriteTask → ℕ → Scheduler → Step
unfolding advance with_result
memory_step call text offset rest budget s =
    with_result (call (min (length text - offset) budget))
      (λ written.
        advance (transmitted (take written (drop offset text)) ∷ [])
          (memory_write text (offset + written)) (offset + written == length text) rest
          (budget - written) s)
      budget s

-- A step at a file that the kernel sends, with bytes left; the call moves the offset itself.
unfoldable pub send_file_step :
    (ℕ → SysResult) → FileProgress → ℕ → List WriteTask → ℕ → Scheduler → Step
unfolding advance with_result progress
send_file_step call p handle rest budget s =
    with_result (call (min p.remaining budget))
      (λ written.
        advance (file_transmitted handle p.offset written ∷ [])
          (send_file_write (progress p written) handle) (p.remaining - written == 0) rest
          (budget - written) s)
      budget s

-- The chunk is dropped when all of it is written.
unfoldable pub advance_chunk : AsyncReader → ℕ → AsyncReader
advance_chunk a written =
    if a.chunk_offset + written == length a.chunk
    then record a { chunk = []; chunk_offset = 0 }
    else record a { chunk_offset = a.chunk_offset + written }

-- A step at an asynchronous file with a chunk at hand.
unfoldable pub async_step :
    (ℕ → SysResult) → FileProgress → AsyncReader → List WriteTask → ℕ → Scheduler → Step
unfolding advance with_result progress advance_chunk
async_step call p a rest budget s =
    with_result (call (min (length a.chunk - a.chunk_offset) budget))
      (λ written.
        advance (transmitted (take written (drop a.chunk_offset a.chunk)) ∷ [])
          (async_reader_write (progress p written) (advance_chunk a written))
          (p.remaining - written == 0) rest (budget - written) s)
      budget s

-- One step of the loop at the front task.
unfoldable pub write_step :
    (ℕ → SysResult) → ReaderOutcome → WriteTask → List WriteTask → ℕ → Scheduler → Step
unfolding memory_step send_file_step async_step
write_step call reader (memory_write text offset) rest budget s =
    memory_step call text offset rest budget s
write_step call reader (send_file_write p h) rest budget s =
    if p.remaining == 0
    then continue (complete_front (send_file_write p h) rest s) budget
    else send_file_step call p h rest budget s
write_step call reader (async_reader_write p a) rest budget s =
    if p.remaining == 0
    then continue (complete_front (async_reader_write p a) rest s) budget
    else if is_empty a.chunk
    then if a.read_pending
      then return (set_write_interest false s)
      else return (request_file_read reader p a rest s)
    else async_step call p a rest budget s

-- The end of `on_writable` when the loop has run to its end.
unfoldable pub finish_round : Scheduler → Out
finish_round s =
    if is_empty s.writes
    then after [] (let (s', calls) = set_write_interest false s in (s', calls ++ drained ∷ []))
    else (s, [])

-- The loop goes on behind a step, with the budget that is left, or returns.
unfoldable pub go_on : (ℕ → Scheduler → Out) → Step → Out
go_on loop (return out) = out
go_on loop (continue (s, calls) budget) = after calls (loop budget s)

-- `while (!_writes.empty() && budget > 0 && steps < kWriteSteps)`, with the steps that are left.
unfoldable pub write_loop : ℕ → Environment → ℕ → Scheduler → List WriteTask → Out
unfolding go_on finish_round write_step
write_loop steps env budget s [] = finish_round s
write_loop zero env budget s (t ∷ rest) = finish_round s
write_loop (suc steps) env budget s (t ∷ rest) =
    if budget == 0
    then finish_round s
    else go_on (λ budget' s'. write_loop steps env budget' s' s'.writes)
        (write_step (env.io steps) env.reader t rest budget s)

unfoldable pub on_writable : Environment → Scheduler → Out
unfolding write_loop
on_writable env s =
    if s.stopped || not s.write_enabled
    then (s, [])
    else write_loop write_steps env write_budget s s.writes
