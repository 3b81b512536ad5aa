-- ===== src/WriteScheduler/Queue.antt =====
-- Admission, completion, cancellation and read results: all of `WriteScheduler` but `on_writable`.
use cpp_tlfss.Base.{
  ℕ, ◌+◌, ◌-◌, ◌^◌, min, Bool, true, false, not, ◌&&◌, ◌||◌, Option, none, some, List, [], ◌∷◌,
  ◌++◌, ltb, leb, ◌==◌, if◌then◌else◌, length, is_empty,
}
use cpp_tlfss.WriteScheduler.Types.{
  max_pending_bytes, max_pending_tasks, max_pending_files, async_file_chunk, eio, eoverflow,
  enobufs, enotconn, FileProgress, AsyncReader, WriteTask, memory_write, send_file_write,
  async_reader_write, PreparedFile, Scheduler, Event, write_interest, high_water, failed, posted,
  read_requested, Out,
}

-- `file_progress`: the progress of a file task.
unfoldable pub file_progress : WriteTask → Option FileProgress
file_progress (memory_write _ _) = none
file_progress (send_file_write p _) = some p
file_progress (async_reader_write p _) = some p

abbrev pub bool_eq : Bool → Bool → Bool
bool_eq true b = b
bool_eq false b = not b

unfoldable pub set_write_interest : Bool → Scheduler → Out
set_write_interest enabled s =
    if bool_eq s.write_enabled enabled
    then (s, [])
    else (record s { write_enabled = enabled }, write_interest enabled ∷ [])

-- Whether the front task waits for the result of a read.
unfoldable pub front_waits : List WriteTask → Bool
front_waits (async_reader_write _ a ∷ _) = a.read_pending
front_waits _ = false

unfoldable pub enable_write_event : Scheduler → Out
unfolding set_write_interest front_waits
enable_write_event s =
    if s.stopped || is_empty s.writes
    then (s, [])
    else if front_waits s.writes
    then (s, [])
    else set_write_interest true s

unfoldable pub check_high_water : ℕ → Scheduler → List Event
check_high_water previous s =
    if ltb previous s.high_water_mark && leb s.high_water_mark s.pending_memory_bytes
    then high_water s.pending_memory_bytes ∷ []
    else []

-- A file's callback, unless it is empty, is posted to the event loop with the error and the number of
-- bytes sent.
unfoldable pub post_callback : Option ℕ → ℕ → ℕ → List Event
post_callback none error sent = []
post_callback (some c) error sent = posted c error sent ∷ []

unfoldable pub notify_file : WriteTask → ℕ → List Event
unfolding file_progress post_callback
notify_file task error = elim (file_progress task) [
  | none ↦ []
  | some p ↦ post_callback p.callback error p.sent
]

unfoldable pub notify_all : List WriteTask → ℕ → List Event
unfolding notify_file
notify_all [] error = []
notify_all (t ∷ ts) error = notify_file t error ++ notify_all ts error

unfoldable pub cancel_all : ℕ → Scheduler → Out
unfolding set_write_interest notify_all
cancel_all error s =
    let (s', calls) = set_write_interest false (record s { stopped = true }) in
    (
      record s' { writes = []; pending_memory_bytes = 0; pending_files = 0 },
      calls ++ notify_all s.writes error,
    )

unfoldable pub fail : ℕ → Scheduler → Out
unfolding cancel_all
fail error s =
    let (s', calls) = cancel_all error s in
    if s.stopped then (s, []) else (s', calls ++ failed error ∷ [])

-- What follows the addition of a task: the write event, and the high-water mark.
unfoldable pub admitted : ℕ → Scheduler → Out
unfolding enable_write_event check_high_water
admitted previous s =
    let (s', calls) = enable_write_event s in (s', calls ++ check_high_water previous s')

unfoldable pub enqueue_memory : List ℕ → Scheduler → Out
unfolding fail admitted
enqueue_memory text s =
    if s.stopped || is_empty text
    then (s, [])
    else if leb max_pending_tasks (length s.writes)
        || ltb (max_pending_bytes - s.pending_memory_bytes) (length text)
    then fail enobufs s
    else admitted s.pending_memory_bytes (record s {
      writes = s.writes ++ memory_write text 0 ∷ [];
      pending_memory_bytes = s.pending_memory_bytes + length text;
    })

-- The bytes that an asynchronous file reserves on admission; other tasks reserve none.
unfoldable pub reservation_of : WriteTask → ℕ
reservation_of (async_reader_write p _) = min p.remaining async_file_chunk
reservation_of _ = 0

unfoldable pub with_reservation : WriteTask → WriteTask
unfolding reservation_of
with_reservation (async_reader_write p a) =
    async_reader_write p (record a { reservation = min p.remaining async_file_chunk })
with_reservation task = task

-- The error that `enqueue_file` fails with: the prepared one, or that the queue has no room.
unfoldable pub admission_error : PreparedFile → Scheduler → ℕ
unfolding reservation_of
admission_error prepared s =
    if prepared.error == 0
      && (leb max_pending_tasks (length s.writes)
          || (leb max_pending_files s.pending_files
              || ltb (max_pending_bytes - s.pending_memory_bytes) (reservation_of prepared.task)))
    then enobufs
    else prepared.error

unfoldable pub enqueue_file : PreparedFile → Bool → Scheduler → Out
unfolding fail admitted notify_file admission_error reservation_of with_reservation
enqueue_file prepared accepting s =
    if s.stopped || not accepting
    then (s, notify_file prepared.task enotconn)
    else if not (admission_error prepared s == 0)
    then (let (s', calls) = fail (admission_error prepared s) s in
        (s', notify_file (with_reservation prepared.task) (admission_error prepared s) ++ calls))
    else admitted s.pending_memory_bytes (record s {
      writes = s.writes ++ with_reservation prepared.task ∷ [];
      pending_files = s.pending_files + 1;
      pending_memory_bytes = s.pending_memory_bytes + reservation_of prepared.task;
    })

-- A call of the external reader: it returns, after it has cancelled the queue or not, or it throws.
-- An exception's error value is 0 for one that carries none.
pub data ReaderOutcome : Type 0 where
  returns : ReaderOutcome
  cancels : ℕ → ReaderOutcome
  throws : ℕ → ReaderOutcome

unfoldable pub error_or_eio : ℕ → ℕ
error_or_eio e = if e == 0 then eio else e

-- The call of the external reader, in state `s`, after the calls `asked`.
unfoldable pub call_reader : ReaderOutcome → List Event → Scheduler → Out
unfolding fail cancel_all error_or_eio
call_reader returns asked s = (s, asked)
call_reader (cancels e) asked s = let (s', calls) = cancel_all e s in (s', asked ++ calls)
call_reader (throws e) asked s = let (s', calls) = fail (error_or_eio e) s in (s', asked ++ calls)

-- `request_file_read`, at a queue whose front is the asynchronous file `p`, `a`.
unfoldable pub request_file_read :
    ReaderOutcome → FileProgress → AsyncReader → List WriteTask → Scheduler → Out
unfolding fail call_reader set_write_interest
request_file_read outcome p a rest s =
    if s.next_read_sequence == 2 ^ 64 - 1
    then fail eoverflow s
    else (let (s', calls) = set_write_interest false requested in
        call_reader outcome (calls ++ read_requested sequence p.offset count ∷ []) s')
  where
    sequence : ℕ
    sequence = s.next_read_sequence + 1

    count : ℕ
    count = min p.remaining async_file_chunk

    requested : Scheduler
    requested = record s {
      next_read_sequence = sequence;
      writes =
          async_reader_write p
            (record a { read_pending = true; read_sequence = sequence; read_size = count })
          ∷ rest;
    }

-- `on_file_read` behind its test that the front task waits for this result.
unfoldable pub file_read_result :
    ℕ → List ℕ → FileProgress → AsyncReader → List WriteTask → Scheduler → Out
unfolding fail enable_write_event error_or_eio
file_read_result error text p a rest s =
    if not (error == 0)
    then fail error idle
    else if not (length text == a.read_size)
        || (ltb p.remaining (length text) || ltb a.reservation (length text))
    then fail eio idle
    else enable_write_event (record s {
      writes =
          async_reader_write p (record a { read_pending = false; chunk = text; chunk_offset = 0 })
          ∷ rest;
    })
  where
    idle : Scheduler
    idle = record s { writes = async_reader_write p (record a { read_pending = false }) ∷ rest }

unfoldable pub read_by_front : ℕ → ℕ → List ℕ → List WriteTask → Scheduler → Out
unfolding file_read_result
read_by_front sequence error text (async_reader_write p a ∷ rest) s =
    if not a.read_pending || not (a.read_sequence == sequence)
    then (s, [])
    else file_read_result error text p a rest s
read_by_front sequence error text _ s = (s, [])

-- An `std::error_code` is its value: 0 is no error.
unfoldable pub on_file_read : ℕ → ℕ → List ℕ → Scheduler → Out
unfolding read_by_front
on_file_read sequence error text s =
    if s.stopped || is_empty s.writes then (s, []) else read_by_front sequence error text s.writes s

-- `none` is the call of `std::abort`.
unfoldable pub set_high_water_mark : Bool → ℕ → Scheduler → Option Scheduler
set_high_water_mark in_loop size s =
    if not in_loop || (size == 0 || ltb max_pending_bytes size)
    then none
    else some (record s { high_water_mark = size })

-- `complete_front`, at a queue with front `task`.
unfoldable pub complete_front : WriteTask → List WriteTask → Scheduler → Out
unfolding notify_file
complete_front (memory_write text o) rest s =
    (record s { writes = rest; pending_memory_bytes = s.pending_memory_bytes - length text }, [])
complete_front (send_file_write p h) rest s = (
  record s { writes = rest; pending_files = s.pending_files - 1 },
  notify_file (send_file_write p h) 0,
)
complete_front (async_reader_write p a) rest s = (
  record s {
    writes = rest;
    pending_memory_bytes = s.pending_memory_bytes - a.reservation;
    pending_files = s.pending_files - 1;
  },
  notify_file (async_reader_write p a) 0,
)
