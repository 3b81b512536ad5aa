-- ===== src/WriteScheduler/Once.antt =====
-- The postings of the callbacks of files by the operations other than a round of writing.
use cpp_tlfss.Base.{
  ℕ, ◌+◌, ◌-◌, Bool, false, not, ◌||◌, List, [], ◌∷◌, ◌++◌, ltb, leb, ◌==◌, length, is_empty, ◌≡◌,
  refl, ap, sym, arith, if-keeps, ◌∙◌,
}
use cpp_tlfss.WriteScheduler.Types.{
  max_pending_bytes, max_pending_tasks, eio, enobufs, enotconn, FileProgress, AsyncReader,
  WriteTask, memory_write, send_file_write, async_reader_write, PreparedFile, Scheduler,
}
use cpp_tlfss.WriteScheduler.Queue.{
  notify_file, fail, enqueue_memory, reservation_of, with_reservation, admission_error,
  enqueue_file, file_read_result, read_by_front, on_file_read,
}
use cpp_tlfss.WriteScheduler.Owed.{
  owes, owed, notices, notices-append, owed-append, Settles, notify_file-notices, fail-Settles,
  enable_write_event-Settles, admitted-Settles,
}

pub unchanged : (c : ℕ) (s : Scheduler) → Settles c (owed c s.writes) (s, [])
unfolding notices
unchanged c s = omega arith

pub enqueue_memory-Settles :
    (c : ℕ) (text : List ℕ) (s : Scheduler) → Settles c (owed c s.writes) (enqueue_memory text s)
unfolding enqueue_memory owed owes
enqueue_memory-Settles c text s =
    if-keeps (Settles c (owed c s.writes)) (s.stopped || is_empty text) (λ _. unchanged c s)
      (λ _.
        if-keeps (Settles c (owed c s.writes))
          (leb max_pending_tasks (length s.writes)
            || ltb (max_pending_bytes - s.pending_memory_bytes) (length text))
          (λ _. fail-Settles c enobufs s)
          (λ _. omega (
            arith,
            admitted-Settles c s.pending_memory_bytes joined,
            owed-append c s.writes (memory_write text 0 ∷ []),
          )))
  where
    joined : Scheduler
    joined = record s {
      writes = s.writes ++ memory_write text 0 ∷ [];
      pending_memory_bytes = s.pending_memory_bytes + length text;
    }

with_reservation-owes : (c : ℕ) (t : WriteTask) → owes c (with_reservation t) ≡ owes c t
unfolding owes with_reservation
with_reservation-owes c (memory_write _ _) = refl
with_reservation-owes c (send_file_write _ _) = refl
with_reservation-owes c (async_reader_write _ _) = refl

pub enqueue_file-Settles :
    (c : ℕ) (f : PreparedFile) (accepting : Bool) (s : Scheduler)
    → Settles c (owed c s.writes + owes c f.task) (enqueue_file f accepting s)
unfolding enqueue_file owed
enqueue_file-Settles c f accepting s =
    if-keeps (Settles c (owed c s.writes + owes c f.task)) (s.stopped || not accepting)
      (λ _. omega (arith, notify_file-notices c f.task enotconn))
      (λ _.
        if-keeps (Settles c (owed c s.writes + owes c f.task)) (not (admission_error f s == 0))
          (λ _. omega (
            arith,
            notices-append c (notify_file (with_reservation f.task) (admission_error f s))
                (fail (admission_error f s) s).1,
            notify_file-notices c (with_reservation f.task) (admission_error f s),
            with_reservation-owes c f.task,
            fail-Settles c (admission_error f s) s,
          ))
          (λ _. omega (
            arith,
            admitted-Settles c s.pending_memory_bytes joined,
            owed-append c s.writes (with_reservation f.task ∷ []),
            with_reservation-owes c f.task,
          )))
  where
    joined : Scheduler
    joined = record s {
      writes = s.writes ++ with_reservation f.task ∷ [];
      pending_files = s.pending_files + 1;
      pending_memory_bytes = s.pending_memory_bytes + reservation_of f.task;
    }

file_read_result-Settles :
    (c error : ℕ) (text : List ℕ) (p : FileProgress) (a : AsyncReader) (rest : List WriteTask)
    (s : Scheduler)
    → Settles c (owed c (async_reader_write p a ∷ rest)) (file_read_result error text p a rest s)
unfolding file_read_result owed owes
file_read_result-Settles c error text p a rest s =
    if-keeps (Settles c n) (not (error == 0)) (λ _. fail-Settles c error idle)
      (λ _.
        if-keeps (Settles c n)
          (not (length text == a.read_size)
            || (ltb p.remaining (length text) || ltb a.reservation (length text)))
          (λ _. fail-Settles c eio idle)
          (λ _. enable_write_event-Settles c (record s {
            writes =
                async_reader_write p
                  (record a { read_pending = false; chunk = text; chunk_offset = 0 })
                ∷ rest;
          })))
  where
    n : ℕ
    n = owed c (async_reader_write p a ∷ rest)

    idle : Scheduler
    idle = record s { writes = async_reader_write p (record a { read_pending = false }) ∷ rest }

read_by_front-Settles :
    (c sequence error : ℕ) (text : List ℕ) (ts : List WriteTask) (s : Scheduler)
    → s.writes ≡ ts
    → Settles c (owed c s.writes) (read_by_front sequence error text ts s)
unfolding read_by_front
read_by_front-Settles c sequence error text [] s front = unchanged c s
read_by_front-Settles c sequence error text (memory_write _ _ ∷ rest) s front = unchanged c s
read_by_front-Settles c sequence error text (send_file_write _ _ ∷ rest) s front = unchanged c s
read_by_front-Settles c sequence error text (async_reader_write p a ∷ rest) s front =
    if-keeps (Settles c (owed c s.writes)) (not a.read_pending || not (a.read_sequence == sequence))
      (λ _. unchanged c s)
      (λ _. file_read_result-Settles c error text p a rest s ∙ ap (owed c) (sym front))

pub on_file_read-Settles :
    (c sequence error : ℕ) (text : List ℕ) (s : Scheduler)
    → Settles c (owed c s.writes) (on_file_read sequence error text s)
unfolding on_file_read
on_file_read-Settles c sequence error text s =
    if-keeps (Settles c (owed c s.writes)) (s.stopped || is_empty s.writes) (λ _. unchanged c s)
      (λ _. read_by_front-Settles c sequence error text s.writes s refl)
