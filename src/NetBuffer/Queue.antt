-- ===== src/NetBuffer/Queue.antt =====
-- The buffer implements its abstract specification, a queue of bytes.
use cpp_tlfss.Base.{
  if◌then◌else◌, ltb, ltb→lt, if-keeps, length, take, drop, length-replicate, drop-length, ℕ, zero,
  suc, ◌+◌, ◌≤◌, ◌≡◌, refl, sym, ap, ◌∙◌, subst, false, Option, none, some, List, [], ◌∷◌, arith,
}
use cpp_tlfss.NetBuffer.Buffer.{
  k_cheap_prepend, Buffer, make_buffer, readable_bytes, peek, retrieve_all, retrieve,
  retrieve_as_string, retrieve_all_as_string, append, Transfer, failed, read_room, read_fd,
  SendReply, write_fd, writeable_bytes, ensure_writeable_bytes, has_written, write_here,
  extrabuf_size,
}
use cpp_tlfss.NetBuffer.Spec.{
  appended, made_room, stored_bytes, claimed, retrieved, cleared, took, took_all, read_failed,
  read_bytes, sent_from, Call, appending, making_room, storing, claiming, retrieving,
  retrieving_all, taking, taking_all, reading, sending, Outcome, done, string, input, reply,
  IsOffer, QueueStep, Exceeds, takes_more, claims_more, stores_more,
}
use cpp_tlfss.NetBuffer.Content.{content, IsValid, length-content}
use cpp_tlfss.NetBuffer.Refine.{make_room, append-content}
use cpp_tlfss.NetBuffer.Spare.{
  spare, length-spare, retrieve_all-spare, retrieve-spare, write_here-content, write_here-spare,
  write_here-IsValid, claim-content, claim-spare,
}
use cpp_tlfss.NetBuffer.Transfers.{
  ReadOutcome, unread, extended, read_fd-ReadOutcome, retrieve_all-content, retrieve-content,
}

abbrev bare : Option Buffer → Option (Outcome × Buffer)
bare none = none
bare (some b) = some (done, b)

abbrev texts : Option (List ℕ × Buffer) → Option (Outcome × Buffer)
texts none = none
texts (some (s, b)) = some (string s, b)

abbrev inputs : Option (Transfer × Buffer) → Option (Outcome × Buffer)
inputs none = none
inputs (some (t, b)) = some (input t, b)

abbrev replies : SendReply × Buffer → Option (Outcome × Buffer)
replies (r, b) = some (reply r, b)

-- A store outside the vector is undefined in C++: `none`.
abbrev store : List ℕ → Buffer → Option Buffer
store bytes b = if ltb (writeable_bytes b) (length bytes) then none else some (write_here bytes b)

abbrev pub step : Call → Buffer → Option (Outcome × Buffer)
step (appending bytes) b = bare (append bytes b)
step (making_room n) b = some (done, ensure_writeable_bytes n b)
step (storing bytes) b = bare (store bytes b)
step (claiming n) b = bare (has_written n b)
step (retrieving n) b = some (done, retrieve n b)
step retrieving_all b = some (done, retrieve_all b)
step (taking n) b = texts (retrieve_as_string n b)
step taking_all b = texts (retrieve_all_as_string b)
step (reading readv) b = inputs (read_fd readv b)
step (sending send) b = replies (write_fd send b)

within : (r n : ℕ) → ltb r n ≡ false → n ≤ r
within r n h = ground arith

pub data Refines (c : Call) (b : Buffer) : Option (Outcome × Buffer) → Type 0 where
  aborts : Exceeds (content b) (spare b) c → Refines c b none
  steps :
      (o : Outcome) (next : Buffer)
      → IsValid next
      → QueueStep c (content b) (spare b) o (content next) (spare next)
      → Refines c b (some (o, next))

-- A step whose next content is known by an equation.
to :
    {c : Call} {b : Buffer} {o : Outcome} {next : Buffer} {q : List ℕ}
    → IsValid next
    → content next ≡ q
    → QueueStep c (content b) (spare b) o q (spare next)
    → Refines c b (some (o, next))
to {c = c} {b = b} {o = o} {next = next} v e s =
    steps o next v (subst (λ q. QueueStep c (content b) (spare b) o q (spare next)) (sym e) s)

-- And whose next room is.
to_room :
    {c : Call} {b : Buffer} {o : Outcome} {next : Buffer} {q r : List ℕ}
    → IsValid next
    → content next ≡ q
    → spare next ≡ r
    → QueueStep c (content b) (spare b) o q r
    → Refines c b (some (o, next))
to_room {c = c} {b = b} {o = o} {q = q} v e f s =
    to v e (subst (QueueStep c (content b) (spare b) o q) (sym f) s)

append-Refines :
    (bytes : List ℕ) (b : Buffer) → IsValid b → Refines (appending bytes) b (bare (append bytes b))
append-Refines bytes b v =
    let (next, (eq, x)) = append-content bytes b v in
    subst (λ r. Refines (appending bytes) b (bare r)) (sym eq)
      (to x.valid x.extended (appended bytes (content b) (spare b) (spare next)))

room_Refines : (n : ℕ) (b : Buffer) → IsValid b → Refines (making_room n) b (step (making_room n) b)
room_Refines n b v =
    let next = ensure_writeable_bytes n b in
    let h = make_room n b v in
    let room = h.room in
    let size = length-spare next in
    to h.valid h.same (made_room n (content b) (spare b) (spare next) (omega arith))

store-Refines :
    (bytes : List ℕ) (b : Buffer) → IsValid b → Refines (storing bytes) b (bare (store bytes b))
store-Refines bytes b v =
    let size = length-spare b in
    if-keeps (λ r. Refines (storing bytes) b (bare r)) (ltb (writeable_bytes b) (length bytes))
      (λ h.
        let less = ltb→lt (writeable_bytes b) (length bytes) h in
        aborts (stores_more bytes (omega arith)))
      (λ h.
        let fits = within (writeable_bytes b) (length bytes) h in
        to_room (write_here-IsValid bytes b v) (write_here-content bytes b v)
          (write_here-spare bytes b v fits)
          (stored_bytes bytes (content b) (spare b) (omega arith)))

claim_Refines : (n : ℕ) (b : Buffer) → IsValid b → Refines (claiming n) b (bare (has_written n b))
unfolding has_written
claim_Refines n b v =
    let size = length-spare b in
    if-keeps (λ r. Refines (claiming n) b (bare r)) (ltb (writeable_bytes b) n)
      (λ h. let less = ltb→lt (writeable_bytes b) n h in aborts (claims_more n (omega arith)))
      (λ h.
        let fits = within (writeable_bytes b) n h in
        let o = v.ordered in
        let i = v.inside in
        to_room (record { prepend = v.prepend; ordered = omega arith; inside = omega arith })
          (claim-content n b v) (claim-spare n b) (claimed n (content b) (spare b) (omega arith)))

-- What the vectors of a read hold.
read_room-IsOffer : (b : Buffer) → IsOffer (length (spare b)) (read_room b)
read_room-IsOffer b =
    let size = length-spare b in
    if-keeps (IsOffer (length (spare b))) (ltb (writeable_bytes b) extrabuf_size)
      (λ _. record { all_free = omega arith; at_least = omega arith; at_most = omega arith })
      (λ h.
        let many = within (writeable_bytes b) extrabuf_size h in
        record { all_free = omega arith; at_least = omega arith; at_most = omega arith })

reads :
    (readv : ℕ → Transfer) (room : ℕ) (b : Buffer) (t : Transfer) (next : Buffer)
    → IsValid b
    → IsOffer (length (spare b)) room
    → readv room ≡ t
    → ReadOutcome b t next
    → Refines (reading readv) b (some (input t, next))
reads readv room b _ _ v h e (unread k) =
    steps (input (failed k)) b v (read_failed readv room k (content b) (spare b) h e)
reads readv room b _ _ v h e (extended bytes next x) =
    to x.valid x.extended (read_bytes readv room bytes (content b) (spare b) (spare next) h e)

read_Refines :
    (readv : ℕ → Transfer) (b : Buffer)
    → IsValid b
    → Refines (reading readv) b (inputs (read_fd readv b))
read_Refines readv b v =
    let (next, (eq, x)) = read_fd-ReadOutcome readv b v in
    subst (λ r. Refines (reading readv) b (inputs r)) (sym eq)
      (reads readv (read_room b) b (readv (read_room b)) next v (read_room-IsOffer b) refl x)

send_Refines :
    (send : List ℕ → SendReply) (b : Buffer)
    → IsValid b
    → Refines (sending send) b (replies (write_fd send b))
unfolding write_fd
send_Refines send b v = steps (reply (send (content b))) b v (sent_from send (content b) (spare b))

-- A prefix of the readable bytes, read at their address.
take-content : (n : ℕ) (b : Buffer) → n ≤ readable_bytes b → take n (peek b) ≡ take n (content b)
take-content n b h = prefix n (readable_bytes b) (peek b) h
  where
    prefix : (n d : ℕ) (xs : List ℕ) → n ≤ d → take n xs ≡ take n (take d xs)
    prefix zero d xs h = refl
    prefix (suc n) zero xs h = absurd (omega arith)
    prefix (suc n) (suc d) [] h = refl
    prefix (suc n) (suc d) (x ∷ xs) h = ap (λ l. x ∷ l) (prefix n d xs (omega arith))

take_Refines :
    (n : ℕ) (b : Buffer) → IsValid b → Refines (taking n) b (texts (retrieve_as_string n b))
unfolding retrieve_as_string
take_Refines n b v =
    let size = length-content b v in
    if-keeps (λ r. Refines (taking n) b (texts r)) (ltb (readable_bytes b) n)
      (λ h. aborts (takes_more n (omega (arith, ltb→lt (readable_bytes b) n h))))
      (λ h.
        let (w, e) = retrieve-content n b v in
        let fits = within (readable_bytes b) n h in
        to w e (
          subst
            (λ s.
              QueueStep (taking n) (content b) (spare b) (string s) (drop n (content b))
                (spare (retrieve n b)))
            (sym (take-content n b fits))
            (took n (content b) (spare b) (spare (retrieve n b)) (omega arith)
              (retrieve-spare n b v))))

take_all_Refines :
    (b : Buffer) → IsValid b → Refines taking_all b (texts (retrieve_all_as_string b))
unfolding retrieve_all_as_string retrieve_as_string
take_all_Refines b v =
    let size = length-content b v in
    if-keeps (λ r. Refines taking_all b (texts r)) (ltb (readable_bytes b) (readable_bytes b))
      (λ h. absurd (omega (arith, ltb→lt (readable_bytes b) (readable_bytes b) h)))
      (λ h.
        let (w, e) = retrieve-content (readable_bytes b) b v in
        to w (e ∙ drop-length (readable_bytes b) (content b) (omega arith)) (
          took_all (content b) (spare b) (spare (retrieve (readable_bytes b) b))
            (retrieve-spare (readable_bytes b) b v)))

pub step-Refines : (c : Call) (b : Buffer) → IsValid b → Refines c b (step c b)
step-Refines (appending bytes) b v = append-Refines bytes b v
step-Refines (retrieving n) b v =
    let (w, e) = retrieve-content n b v in
    to w e (retrieved n (content b) (spare b) (spare (retrieve n b)) (retrieve-spare n b v))
step-Refines (making_room n) b v = room_Refines n b v
step-Refines (storing bytes) b v = store-Refines bytes b v
step-Refines (claiming n) b v = claim_Refines n b v
step-Refines (sending send) b v = send_Refines send b v
step-Refines retrieving_all b v =
    let (w, e) = retrieve_all-content b v in
    to w e (cleared (content b) (spare b) (spare (retrieve_all b)) (retrieve_all-spare b v))
step-Refines (taking n) b v = take_Refines n b v
step-Refines taking_all b v = take_all_Refines b v
step-Refines (reading readv) b v = read_Refines readv b v

-- The constructor's buffer is an empty queue.
pub make_buffer-IsValid : (n : ℕ) → IsValid (make_buffer n)
unfolding make_buffer
make_buffer-IsValid n =
    let size = length-replicate {A = ℕ} (k_cheap_prepend + n) 0 in
    record { prepend = omega arith; ordered = omega arith; inside = omega arith }
