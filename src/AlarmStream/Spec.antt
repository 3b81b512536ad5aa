-- ===== src/AlarmStream/Spec.antt =====
-- What a stream of bytes means: the frames that it holds, and how it ends. This is independent of
-- the chunks in which the bytes arrive.
use cpp_tlfss.Base.{
  ℕ, ◌≤◌, ◌<◌, ◌≡◌, true, false, Option, none, some, List, [], ◌∷◌, length, take, drop, arith,
}
use cpp_tlfss.AlarmProtocol.Types.{
  bytes, AlarmFrame, AlarmProtocolStatus, AlarmFrameSizeResult, AlarmDecodeResult, size_success,
  decode_success,
}
use cpp_tlfss.AlarmProtocol.Frame.{alarm_frame_size, decode_alarm_frame}

-- The verdict on the header of a buffer, and on its first `n` bytes.
abbrev pub header : List ℕ → AlarmFrameSizeResult
header w = alarm_frame_size (bytes (take 48 w))

abbrev pub decoded : ℕ → List ℕ → AlarmDecodeResult
decoded n w = decode_alarm_frame true (bytes (take n w))

-- The buffer begins with a header that announces `n` bytes.
pub record Announces (w : List ℕ) (n : ℕ) : Type 0 where
  pub whole : 48 ≤ length w
  pub good : size_success (header w) ≡ true
  pub size : (header w).frame_size ≡ some n

-- The bytes that wait for more, with the frame size if their header is whole; or an error.
pub data Ending : Type 0 where
  pending : List ℕ → Option ℕ → Ending
  broken : AlarmProtocolStatus → Ending

pub data Parses : List ℕ → List AlarmFrame → Ending → Type 0 where
  short : (w : List ℕ) → length w < 48 → Parses w [] (pending w none)
  partial : (w : List ℕ) (n : ℕ) → Announces w n → length w < n → Parses w [] (pending w (some n))
  bad_header :
      (w : List ℕ) (s : AlarmProtocolStatus)
      → 48 ≤ length w
      → size_success (header w) ≡ false
      → (header w).status ≡ s
      → Parses w [] (broken s)
  bad_frame :
      (w : List ℕ) (n : ℕ) (s : AlarmProtocolStatus)
      → Announces w n
      → n ≤ length w
      → decode_success (decoded n w) ≡ false
      → (decoded n w).status ≡ s
      → Parses w [] (broken s)
  frame :
      (w : List ℕ) (n : ℕ) (f : AlarmFrame) {fs : List AlarmFrame} {e : Ending}
      → Announces w n
      → n ≤ length w
      → decode_success (decoded n w) ≡ true
      → (decoded n w).frame ≡ some f
      → Parses (drop n w) fs e
      → Parses w (f ∷ fs) e

-- The announced size lies between a header and the largest frame.
pub Announces-bounds : (w : List ℕ) (n : ℕ) → Announces w n → (48 ≤ n) × (n ≤ 4144)
unfolding size_success
Announces-bounds w n a = ground (arith, a.good, a.size)

-- One announcement to a buffer.
pub Announces-unique : (w : List ℕ) (n m : ℕ) → Announces w n → Announces w m → n ≡ m
Announces-unique w n m a b = cc (a.size, b.size)
