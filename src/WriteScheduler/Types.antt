-- ===== src/WriteScheduler/Types.antt =====
-- The state of `WriteScheduler`, its tasks, and the calls that it makes.
use cpp_tlfss.Base.{ℕ, ◌*◌, Bool, Option, List}

abbrev pub max_pending_bytes : ℕ
max_pending_bytes = 1024 * 1024

abbrev pub max_pending_tasks : ℕ
max_pending_tasks = 1024

abbrev pub max_pending_files : ℕ
max_pending_files = 64

abbrev pub write_budget : ℕ
write_budget = 1024 * 1024

abbrev pub write_steps : ℕ
write_steps = 64

abbrev pub async_file_chunk : ℕ
async_file_chunk = 64 * 1024

-- Error numbers of Linux.
abbrev pub eintr : ℕ
eintr = 4

abbrev pub eio : ℕ
eio = 5

abbrev pub eagain : ℕ
eagain = 11

abbrev pub eoverflow : ℕ
eoverflow = 75

abbrev pub enobufs : ℕ
enobufs = 105

abbrev pub enotconn : ℕ
enotconn = 107

-- `FileProgress`. A callback is known by a number; `none` is an empty `std::function`.
pub record FileProgress : Type 0 where
  pub offset : ℕ
  pub remaining : ℕ
  pub sent : ℕ
  pub callback : Option ℕ

-- What `AsyncReaderWrite` has beside its progress; `chunk` is the source's `data`.
pub record AsyncReader : Type 0 where
  pub chunk : List ℕ
  pub chunk_offset : ℕ
  pub read_pending : Bool
  pub read_sequence : ℕ
  pub read_size : ℕ
  pub reservation : ℕ

-- `std::variant<MemoryWrite, SendFileWrite, AsyncReaderWrite>`; a file handle is a number.
pub data WriteTask : Type 0 where
  memory_write : List ℕ → ℕ → WriteTask
  send_file_write : FileProgress → ℕ → WriteTask
  async_reader_write : FileProgress → AsyncReader → WriteTask

pub record PreparedFile : Type 0 where
  pub task : WriteTask
  pub error : ℕ

pub record Scheduler : Type 0 where
  pub write_enabled : Bool
  pub stopped : Bool
  pub writes : List WriteTask
  pub pending_memory_bytes : ℕ
  pub pending_files : ℕ
  pub high_water_mark : ℕ
  pub next_read_sequence : ℕ

-- A call that an operation makes: of a hook, of `queue_in_loop` with a file's callback, the error and
-- the bytes sent, of an external reader with its offset and count, or of the socket with what it
-- took. A callback that is posted runs when the event loop comes to it, which is not modelled.
pub data Event : Type 0 where
  write_interest : Bool → Event
  high_water : ℕ → Event
  drained : Event
  failed : ℕ → Event
  posted : ℕ → ℕ → ℕ → Event
  read_requested : ℕ → ℕ → ℕ → Event
  transmitted : List ℕ → Event
  file_transmitted : ℕ → ℕ → ℕ → Event

abbrev pub Out : Type 0
Out = Scheduler × List Event
