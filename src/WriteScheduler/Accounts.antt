-- ===== src/WriteScheduler/Accounts.antt =====
-- What the counters of a `WriteScheduler` stand for, and the bounds of its queue.
use cpp_tlfss.Base.{
  ℕ, ◌+◌, ◌-◌, ◌≤◌, ◌<◌, Bool, true, false, ◌||◌, List, [], ◌∷◌, ◌++◌, ltb, leb, length, is_empty,
  ◌≡◌, refl, arith, if-keeps, or-false, length-append,
}
use cpp_tlfss.WriteScheduler.Types.{
  max_pending_bytes, max_pending_tasks, max_pending_files, enobufs, WriteTask, memory_write,
  send_file_write, async_reader_write, Scheduler, Out,
}
use cpp_tlfss.WriteScheduler.Queue.{
  bool_eq, set_write_interest, front_waits, enable_write_event, cancel_all, fail, admitted,
  enqueue_memory,
}

-- The memory that a task is charged for until it is completed.
unfoldable pub charge : WriteTask → ℕ
charge (memory_write text _) = length text
charge (send_file_write _ _) = 0
charge (async_reader_write _ a) = a.reservation

unfoldable pub files_of : WriteTask → ℕ
files_of (memory_write _ _) = 0
files_of _ = 1

unfoldable pub charges : List WriteTask → ℕ
unfolding charge
charges [] = 0
charges (t ∷ ts) = charge t + charges ts

unfoldable pub files : List WriteTask → ℕ
unfolding files_of
files [] = 0
files (t ∷ ts) = files_of t + files ts

-- The counters are the totals of the queue and within their limits, and a stopped queue is empty.
unfoldable pub Accounts : Bool → List WriteTask → ℕ → ℕ → Type 0
unfolding charges files
Accounts stopped writes bytes count =
    (bytes ≡ charges writes)
    × (count ≡ files writes)
    × (bytes ≤ max_pending_bytes)
    × (count ≤ max_pending_files)
    × (length writes ≤ max_pending_tasks)
    × (stopped ≡ true → writes ≡ [])

unfoldable pub IsBalanced : Scheduler → Type 0
unfolding Accounts
IsBalanced s = Accounts s.stopped s.writes s.pending_memory_bytes s.pending_files

-- The state that an operation returns is balanced.
abbrev pub LeavesBalanced : Out → Type 0
LeavesBalanced out = IsBalanced out.0

pub charges-append : (xs ys : List WriteTask) → charges (xs ++ ys) ≡ charges xs + charges ys
unfolding charges
charges-append [] ys = omega arith
charges-append (x ∷ xs) ys = omega (arith, charges-append xs ys)

pub files-append : (xs ys : List WriteTask) → files (xs ++ ys) ≡ files xs + files ys
unfolding files
files-append [] ys = omega arith
files-append (x ∷ xs) ys = omega (arith, files-append xs ys)

pub set_write_interest-IsBalanced :
    (b : Bool) (s : Scheduler) → IsBalanced s → IsBalanced (set_write_interest b s).0
unfolding set_write_interest IsBalanced
set_write_interest-IsBalanced b s h =
    if-keeps LeavesBalanced (bool_eq s.write_enabled b) (λ _. h) (λ _. h)

-- A stopped queue with nothing in it, whatever became of its write interest.
cleared-IsBalanced :
    (s : Scheduler)
    → IsBalanced (record s { writes = []; pending_memory_bytes = 0; pending_files = 0 })
unfolding IsBalanced
cleared-IsBalanced s = (refl, refl, omega arith, omega arith, omega arith, λ _. refl)

pub cancel_all-IsBalanced : (e : ℕ) (s : Scheduler) → IsBalanced (cancel_all e s).0
unfolding cancel_all
cancel_all-IsBalanced e s =
    cleared-IsBalanced (set_write_interest false (record s { stopped = true })).0

pub fail-IsBalanced : (e : ℕ) (s : Scheduler) → IsBalanced s → IsBalanced (fail e s).0
unfolding fail
fail-IsBalanced e s h = if-keeps LeavesBalanced s.stopped (λ _. h) (λ _. cancel_all-IsBalanced e s)

pub enable_write_event-IsBalanced :
    (s : Scheduler) → IsBalanced s → IsBalanced (enable_write_event s).0
unfolding enable_write_event
enable_write_event-IsBalanced s h =
    if-keeps LeavesBalanced (s.stopped || is_empty s.writes) (λ _. h)
      (λ _.
        if-keeps LeavesBalanced (front_waits s.writes) (λ _. h)
          (λ _. set_write_interest-IsBalanced true s h))

pub admitted-IsBalanced : (n : ℕ) (s : Scheduler) → IsBalanced s → IsBalanced (admitted n s).0
unfolding admitted
admitted-IsBalanced n s h = enable_write_event-IsBalanced s h

-- A task joins the queue within its limits.
pub joins-IsBalanced :
    (t : WriteTask) (bytes count : ℕ) (s : Scheduler)
    → IsBalanced s
    → s.stopped ≡ false
    → length s.writes < max_pending_tasks
    → bytes ≡ s.pending_memory_bytes + charge t
    → count ≡ s.pending_files + files_of t
    → bytes ≤ max_pending_bytes
    → count ≤ max_pending_files
    → IsBalanced (record s {
      writes = s.writes ++ t ∷ [];
      pending_memory_bytes = bytes;
      pending_files = count;
    })
unfolding IsBalanced charges files
joins-IsBalanced t bytes count s (hb, hc, hm, hf, hl, hs) u tasks eb ec lb lc = (
  omega (arith, charges-append s.writes (t ∷ [])),
  omega (arith, files-append s.writes (t ∷ [])),
  lb,
  lc,
  omega (arith, length-append s.writes (t ∷ [])),
  λ e. absurd cc,
)

memory-joins :
    (text : List ℕ) (s : Scheduler)
    → IsBalanced s
    → (s.stopped || is_empty text) ≡ false
    → (leb max_pending_tasks (length s.writes)
        || ltb (max_pending_bytes - s.pending_memory_bytes) (length text))
      ≡ false
    → IsBalanced (record s {
      writes = s.writes ++ memory_write text 0 ∷ [];
      pending_memory_bytes = s.pending_memory_bytes + length text;
    })
unfolding charge files_of IsBalanced
memory-joins text s h going room =
    joins-IsBalanced (memory_write text 0) (s.pending_memory_bytes + length text) s.pending_files s
      h (or-false going).0 (ground arith) refl (omega arith) (ground arith) (h.3)

pub enqueue_memory-IsBalanced :
    (text : List ℕ) (s : Scheduler) → IsBalanced s → IsBalanced (enqueue_memory text s).0
unfolding enqueue_memory
enqueue_memory-IsBalanced text s h =
    if-keeps LeavesBalanced (s.stopped || is_empty text) (λ _. h)
      (λ going.
        if-keeps LeavesBalanced
          (leb max_pending_tasks (length s.writes)
            || ltb (max_pending_bytes - s.pending_memory_bytes) (length text))
          (λ _. fail-IsBalanced enobufs s h)
          (λ room. admitted-IsBalanced s.pending_memory_bytes _ (memory-joins text s h going room)))
