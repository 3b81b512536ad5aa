-- ===== src/WriteScheduler/Balance.antt =====
-- The counters of a `WriteScheduler` across its operations other than a round of writing.
use cpp_tlfss.Base.{
  ℕ, ◌+◌, ◌-◌, ◌≤◌, ◌<◌, Bool, false, not, ◌||◌, none, List, [], ◌∷◌, ◌++◌, ltb, ◌==◌, length,
  is_empty, ◌≡◌, refl, ap, sym, arith, if-keeps, or-false, ◌≢◌, ◌∙◌,
}
use cpp_tlfss.WriteScheduler.Types.{
  max_pending_bytes, max_pending_tasks, max_pending_files, eio, FileProgress, AsyncReader,
  WriteTask, memory_write, send_file_write, async_reader_write, PreparedFile, Scheduler,
}
use cpp_tlfss.WriteScheduler.Queue.{
  file_progress, reservation_of, with_reservation, admission_error, enqueue_file, file_read_result,
  read_by_front, on_file_read,
}
use cpp_tlfss.WriteScheduler.Accounts.{
  charge, files_of, charges, files, IsBalanced, LeavesBalanced, fail-IsBalanced,
  enable_write_event-IsBalanced, admitted-IsBalanced, joins-IsBalanced,
}

-- A task that sends a file.
unfoldable pub IsFile : WriteTask → Type 0
IsFile t = file_progress t ≢ none

reserved-charge : (t : WriteTask) → IsFile t → charge (with_reservation t) ≡ reservation_of t
unfolding charge with_reservation reservation_of IsFile file_progress
reserved-charge (memory_write _ _) f = absurd (f refl)
reserved-charge (send_file_write _ _) f = refl
reserved-charge (async_reader_write _ _) f = refl

reserved-files : (t : WriteTask) → IsFile t → files_of (with_reservation t) ≡ 1
unfolding files_of with_reservation IsFile file_progress
reserved-files (memory_write _ _) f = absurd (f refl)
reserved-files (send_file_write _ _) f = refl
reserved-files (async_reader_write _ _) f = refl

-- What `enqueue_file` has tested when it admits a task.
room-for-file :
    (f : PreparedFile) (s : Scheduler)
    → not (admission_error f s == 0) ≡ false
    → (length s.writes < max_pending_tasks)
      × (s.pending_files < max_pending_files)
      × (reservation_of f.task ≤ max_pending_bytes - s.pending_memory_bytes)
unfolding admission_error
room-for-file f s h = ground arith

file-joins :
    (f : PreparedFile) (s : Scheduler)
    → IsFile f.task
    → IsBalanced s
    → s.stopped ≡ false
    → not (admission_error f s == 0) ≡ false
    → IsBalanced (record s {
      writes = s.writes ++ with_reservation f.task ∷ [];
      pending_files = s.pending_files + 1;
      pending_memory_bytes = s.pending_memory_bytes + reservation_of f.task;
    })
unfolding IsBalanced
file-joins f s file h u ok =
    let (tasks, count, bytes) = room-for-file f s ok in
    joins-IsBalanced (with_reservation f.task) (s.pending_memory_bytes + reservation_of f.task)
      (s.pending_files + 1) s h u tasks (omega (arith, reserved-charge f.task file))
      (omega (arith, reserved-files f.task file)) (omega (arith, h.2)) (omega arith)

pub enqueue_file-IsBalanced :
    (f : PreparedFile) (accepting : Bool) (s : Scheduler)
    → IsFile f.task
    → IsBalanced s
    → IsBalanced (enqueue_file f accepting s).0
unfolding enqueue_file
enqueue_file-IsBalanced f accepting s file h =
    if-keeps LeavesBalanced (s.stopped || not accepting) (λ _. h)
      (λ going.
        if-keeps LeavesBalanced (not (admission_error f s == 0))
          (λ _. fail-IsBalanced (admission_error f s) s h)
          (λ room.
            admitted-IsBalanced s.pending_memory_bytes _
              (file-joins f s file h (or-false going).0 room)))

pub no-cons {ℓ} : {A : Type ℓ} {x : A} {xs : List A} → ¬ (x ∷ xs ≡ [])
no-cons e = cc

-- A task at the front gives way to one with the same charge.
pub replaces-IsBalanced :
    (t t' : WriteTask) (rest : List WriteTask) (s : Scheduler)
    → IsBalanced s
    → s.writes ≡ t ∷ rest
    → charge t' ≡ charge t
    → files_of t' ≡ files_of t
    → IsBalanced (record s { writes = t' ∷ rest })
unfolding IsBalanced charges files
replaces-IsBalanced t t' rest s (hb, hc, hm, hf, hl, hs) front ec ef = (
  omega (arith, ap charges front),
  omega (arith, ap files front),
  hm,
  hf,
  omega (arith, ap length front),
  λ e. absurd (no-cons (sym front ∙ hs e)),
)

pub file_read_result-IsBalanced :
    (error : ℕ) (text : List ℕ) (p : FileProgress) (a : AsyncReader) (rest : List WriteTask)
    (s : Scheduler)
    → IsBalanced s
    → s.writes ≡ async_reader_write p a ∷ rest
    → IsBalanced (file_read_result error text p a rest s).0
unfolding file_read_result charge files_of
file_read_result-IsBalanced error text p a rest s h front =
    if-keeps LeavesBalanced (not (error == 0)) (λ _. fail-IsBalanced error _ idle)
      (λ _.
        if-keeps LeavesBalanced
          (not (length text == a.read_size)
            || (ltb p.remaining (length text) || ltb a.reservation (length text)))
          (λ _. fail-IsBalanced eio _ idle) (λ _. enable_write_event-IsBalanced _ (becomes _ refl)))
  where
    becomes :
        (a' : AsyncReader)
        → a'.reservation ≡ a.reservation
        → IsBalanced (record s { writes = async_reader_write p a' ∷ rest })
    becomes a' e =
        replaces-IsBalanced (async_reader_write p a) (async_reader_write p a') rest s h front e refl

    idle :
        IsBalanced
          (record s { writes = async_reader_write p (record a { read_pending = false }) ∷ rest })
    idle = becomes (record a { read_pending = false }) refl

read_by_front-IsBalanced :
    (sequence error : ℕ) (text : List ℕ) (ts : List WriteTask) (s : Scheduler)
    → IsBalanced s
    → s.writes ≡ ts
    → IsBalanced (read_by_front sequence error text ts s).0
unfolding read_by_front
read_by_front-IsBalanced sequence error text [] s h front = h
read_by_front-IsBalanced sequence error text (memory_write _ _ ∷ rest) s h front = h
read_by_front-IsBalanced sequence error text (send_file_write _ _ ∷ rest) s h front = h
read_by_front-IsBalanced sequence error text (async_reader_write p a ∷ rest) s h front =
    if-keeps LeavesBalanced (not a.read_pending || not (a.read_sequence == sequence)) (λ _. h)
      (λ _. file_read_result-IsBalanced error text p a rest s h front)

pub on_file_read-IsBalanced :
    (sequence error : ℕ) (text : List ℕ) (s : Scheduler)
    → IsBalanced s
    → IsBalanced (on_file_read sequence error text s).0
unfolding on_file_read
on_file_read-IsBalanced sequence error text s h =
    if-keeps LeavesBalanced (s.stopped || is_empty s.writes) (λ _. h)
      (λ _. read_by_front-IsBalanced sequence error text s.writes s h refl)
