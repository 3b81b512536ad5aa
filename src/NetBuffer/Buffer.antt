-- ===== src/NetBuffer/Buffer.antt =====
-- The class `Buffer`. The vector is a list of bytes; `none` stands for `std::abort`. A call of
-- `readv` gets the number of bytes that its vectors hold and answers with an error or with the
-- bytes that it stored in them, in order.
use cpp_tlfss.Base.{
  ℕ, ◌+◌, ◌-◌, Option, none, some, List, ◌++◌, length, take, drop, replicate, copy_into, ltb, leb,
  if◌then◌else◌,
}

abbrev pub k_cheap_prepend : ℕ
k_cheap_prepend = 8

abbrev pub k_initial_size : ℕ
k_initial_size = 1024

pub record Buffer : Type 0 where
  pub buffer : List ℕ
  pub reader_idx : ℕ
  pub writer_idx : ℕ

-- The constructor.
unfoldable pub make_buffer : ℕ → Buffer
make_buffer initial_size = record {
  buffer = replicate (k_cheap_prepend + initial_size) 0;
  reader_idx = k_cheap_prepend;
  writer_idx = k_cheap_prepend;
}

abbrev pub readable_bytes : Buffer → ℕ
readable_bytes b = b.writer_idx - b.reader_idx

abbrev pub writeable_bytes : Buffer → ℕ
writeable_bytes b = length b.buffer - b.writer_idx

abbrev pub prependable_bytes : Buffer → ℕ
prependable_bytes b = b.reader_idx

-- What is at the address that the function returns.
abbrev pub peek : Buffer → List ℕ
peek b = drop b.reader_idx b.buffer

unfoldable pub retrieve_all : Buffer → Buffer
retrieve_all b = record b { reader_idx = k_cheap_prepend; writer_idx = k_cheap_prepend }

unfoldable pub retrieve : ℕ → Buffer → Buffer
retrieve len b =
    if ltb len (readable_bytes b)
    then record b { reader_idx = b.reader_idx + len }
    else retrieve_all b

unfoldable pub retrieve_as_string : ℕ → Buffer → Option (List ℕ × Buffer)
retrieve_as_string len b =
    if ltb (readable_bytes b) len then none else some (take len (peek b), retrieve len b)

unfoldable pub retrieve_all_as_string : Buffer → Option (List ℕ × Buffer)
retrieve_all_as_string b = retrieve_as_string (readable_bytes b) b

-- `vector::resize`.
unfoldable pub resize : ℕ → List ℕ → List ℕ
resize n xs = take n xs ++ replicate (n - length xs) 0

unfoldable pub make_space : ℕ → Buffer → Buffer
make_space len b =
    if ltb (writeable_bytes b + prependable_bytes b) (len + k_cheap_prepend)
    then record b { buffer = resize (b.writer_idx + len) b.buffer }
    else record b {
      buffer = copy_into b.buffer k_cheap_prepend (take (readable_bytes b) (peek b));
      reader_idx = k_cheap_prepend;
      writer_idx = k_cheap_prepend + readable_bytes b;
    }

unfoldable pub ensure_writeable_bytes : ℕ → Buffer → Buffer
ensure_writeable_bytes len b = if ltb (writeable_bytes b) len then make_space len b else b

unfoldable pub has_written : ℕ → Buffer → Option Buffer
has_written len b =
    if ltb (writeable_bytes b) len
    then none
    else some (record b { writer_idx = b.writer_idx + len })

-- The bytes at `begin_write()` are overwritten.
abbrev pub write_here : List ℕ → Buffer → Buffer
write_here bytes b = record b { buffer = copy_into b.buffer b.writer_idx bytes }

unfoldable pub append : List ℕ → Buffer → Option Buffer
append bytes b =
    has_written (length bytes) (write_here bytes (ensure_writeable_bytes (length bytes) b))

abbrev pub extrabuf_size : ℕ
extrabuf_size = 65536

pub data Transfer : Type 0 where
  failed : ℕ → Transfer
  transferred : List ℕ → Transfer

-- The bytes that the vectors given to `readv` hold.
abbrev pub read_room : Buffer → ℕ
read_room b =
    if ltb (writeable_bytes b) extrabuf_size
    then writeable_bytes b + extrabuf_size
    else writeable_bytes b

-- The state after `readv` stored bytes, the first of them in the buffer itself.
unfoldable pub stored : List ℕ → Buffer → Option Buffer
stored bytes b =
    if leb (length bytes) (writeable_bytes b)
    then some (record (write_here bytes b) { writer_idx = b.writer_idx + length bytes })
    else append (drop (writeable_bytes b) bytes)
        (record (write_here (take (writeable_bytes b) bytes) b) { writer_idx = length b.buffer })

abbrev pub answered : Transfer → Option Buffer → Option (Transfer × Buffer)
answered answer none = none
answered answer (some next) = some (answer, next)

-- What `read_fd` does with the answer of `readv`.
abbrev pub after_read : Transfer → Buffer → Option (Transfer × Buffer)
after_read (failed save_err) b = some (failed save_err, b)
after_read (transferred bytes) b = answered (transferred bytes) (stored bytes b)

unfoldable pub read_fd : (ℕ → Transfer) → Buffer → Option (Transfer × Buffer)
read_fd readv b = after_read (readv (read_room b)) b

-- What `send` answers: an error, or how many of the bytes it took.
pub data SendReply : Type 0 where
  unsent : ℕ → SendReply
  sent : ℕ → SendReply

-- The bytes that are sent stay in the buffer until they are retrieved.
unfoldable pub write_fd : (List ℕ → SendReply) → Buffer → SendReply × Buffer
write_fd send b = (send (take (readable_bytes b) (peek b)), b)
