-- ===== src/NetBuffer/Spec.antt =====
-- The abstract specification of the buffer: a queue of bytes, with the spare bytes behind it that
-- `begin_write()` points to.
use cpp_tlfss.Base.{ℕ, ◌+◌, ◌≤◌, ◌<◌, ◌≡◌, List, [], ◌++◌, length, take, drop}
use cpp_tlfss.NetBuffer.Buffer.{Transfer, failed, transferred, SendReply}

-- The calls that change a buffer or hand out its bytes, and a store of bytes at `begin_write()`,
-- which its user does.
pub data Call : Type 0 where
  appending : List ℕ → Call
  making_room : ℕ → Call
  storing : List ℕ → Call
  claiming : ℕ → Call
  retrieving : ℕ → Call
  retrieving_all : Call
  taking : ℕ → Call
  taking_all : Call
  reading : (ℕ → Transfer) → Call
  sending : (List ℕ → SendReply) → Call

pub data Outcome : Type 0 where
  done : Outcome
  string : List ℕ → Outcome
  input : Transfer → Outcome
  reply : SendReply → Outcome

-- How much a read may be offered, with so many bytes free: all of them and no more than another
-- 65536, and 65536 at least.
pub record IsOffer (free room : ℕ) : Type 0 where
  pub all_free : free ≤ room
  pub at_least : 65536 ≤ room
  pub at_most : room ≤ free + 65536

-- A queue with spare bytes behind it takes the call with that outcome.
pub data QueueStep : Call → List ℕ → List ℕ → Outcome → List ℕ → List ℕ → Type 0 where
  appended :
      (bytes q spare next : List ℕ) → QueueStep (appending bytes) q spare done (q ++ bytes) next
  made_room :
      (n : ℕ) (q spare next : List ℕ)
      → n ≤ length next
      → QueueStep (making_room n) q spare done q next
  stored_bytes :
      (bytes q spare : List ℕ)
      → length bytes ≤ length spare
      → QueueStep (storing bytes) q spare done q (bytes ++ drop (length bytes) spare)
  claimed :
      (n : ℕ) (q spare : List ℕ)
      → n ≤ length spare
      → QueueStep (claiming n) q spare done (q ++ take n spare) (drop n spare)
  retrieved :
      (n : ℕ) (q spare next : List ℕ)
      → length spare ≤ length next
      → QueueStep (retrieving n) q spare done (drop n q) next
  cleared :
      (q spare next : List ℕ)
      → length spare ≤ length next
      → QueueStep retrieving_all q spare done [] next
  took :
      (n : ℕ) (q spare next : List ℕ)
      → n ≤ length q
      → length spare ≤ length next
      → QueueStep (taking n) q spare (string (take n q)) (drop n q) next
  took_all :
      (q spare next : List ℕ)
      → length spare ≤ length next
      → QueueStep taking_all q spare (string q) [] next
  read_failed :
      (readv : ℕ → Transfer) (room e : ℕ) (q spare : List ℕ)
      → IsOffer (length spare) room
      → readv room ≡ failed e
      → QueueStep (reading readv) q spare (input (failed e)) q spare
  read_bytes :
      (readv : ℕ → Transfer) (room : ℕ) (bytes q spare next : List ℕ)
      → IsOffer (length spare) room
      → readv room ≡ transferred bytes
      → QueueStep (reading readv) q spare (input (transferred bytes)) (q ++ bytes) next
  sent_from :
      (send : List ℕ → SendReply) (q spare : List ℕ)
      → QueueStep (sending send) q spare (reply (send q)) q spare

-- The calls that a queue cannot take: more is taken than there is, or more claimed or stored than
-- there is room for.
pub data Exceeds (q spare : List ℕ) : Call → Type 0 where
  takes_more : (n : ℕ) → length q < n → Exceeds q spare (taking n)
  claims_more : (n : ℕ) → length spare < n → Exceeds q spare (claiming n)
  stores_more : (bytes : List ℕ) → length spare < length bytes → Exceeds q spare (storing bytes)
