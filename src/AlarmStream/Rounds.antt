-- ===== src/AlarmStream/Rounds.antt =====
-- One round of `feed`, by the bytes that the decoder has at hand: those it kept and those that
-- arrive. All allocations succeed.
use cpp_tlfss.Base.{
  ℕ, ◌-◌, ◌≤◌, ◌<◌, ◌≡◌, Bool, true, false, none, some, List, [], ◌∷◌, ◌++◌, length, take, drop,
  arith, ◌≢◌, ltb, min, ap, fill-take, fill-drop, take-length, length-take, lt→ltb, le→ltb,
}
use cpp_tlfss.AlarmProtocol.Types.{AlarmFrame, AlarmProtocolStatus, size_success, decode_success}
use cpp_tlfss.AlarmProtocol.Types
use cpp_tlfss.AlarmProtocol.Canonical.{decode-granted}
use cpp_tlfss.AlarmStream.Decoder.{
  AlarmStreamDecoder, halt, leave, go, header_step, payload_step, decode_failure, fail_protocol,
}
use cpp_tlfss.AlarmStream.Spec.{header, decoded, Announces, Announces-bounds}

abbrev pub all_granted : ℕ → Bool
all_granted k = true

-- A decoder that waits for the rest of a header, or of a frame.
pub record InHeader (d : AlarmStreamDecoder) : Type 0 where
  pub unknown : d.expected_frame_size ≡ none
  pub below : length d.buffer < 48

pub record InFrame (d : AlarmStreamDecoder) (n : ℕ) : Type 0 where
  pub known : d.expected_frame_size ≡ some n
  pub announced : Announces d.buffer n
  pub below : length d.buffer < n

module _ (d : AlarmStreamDecoder) (rest : List ℕ) (done : List AlarmFrame) (h : InHeader d) where
  abbrev at_hand : List ℕ
  at_hand = d.buffer ++ rest

  filled : d.buffer ++ take (min (48 - length d.buffer) (length rest)) rest ≡ take 48 at_hand
  filled = fill-take 48 d.buffer rest (omega (arith, h.below))

  left : drop (min (48 - length d.buffer) (length rest)) rest ≡ drop 48 at_hand
  left = fill-drop 48 d.buffer rest (omega (arith, h.below))

  pub header_step-short :
      length at_hand < 48 → header_step true d rest done ≡ leave (record d { buffer = at_hand })
  unfolding header_step
  header_step-short lt =
      rw (h.unknown, filled, take-length 48 at_hand (omega arith), lt→ltb (length at_hand) 48 lt)

  long : 48 ≤ length at_hand → ltb (length (take 48 at_hand)) 48 ≡ false
  long ge = le→ltb (length (take 48 at_hand)) 48 (omega (arith, length-take 48 at_hand))

  pub header_step-bad :
      48 ≤ length at_hand
      → size_success (header at_hand) ≡ false
      → header_step true d rest done ≡ halt (fail_protocol d (header at_hand).status done)
  unfolding header_step
  header_step-bad ge bad = rw (h.unknown, filled, long ge, bad)

  pub header_step-good :
      (n : ℕ)
      → Announces at_hand n
      → header_step true d rest done
        ≡ go
            (record d { buffer = take 48 at_hand; expected_frame_size = some n })
            (drop 48 at_hand)
            done
  unfolding header_step
  header_step-good n a = rw (
    h.unknown,
    filled,
    long a.whole,
    a.good,
    a.size,
    le→ltb 4144 n (Announces-bounds at_hand n a).1,
    filled,
    left,
  )

decode_failure-protocol :
    (d : AlarmStreamDecoder) (s : AlarmProtocolStatus) (done : List AlarmFrame)
    → s ≢ Types.allocation_failed
    → decode_failure d s done ≡ fail_protocol d s done
unfolding decode_failure
decode_failure-protocol d s done h = ground arith

-- The second part, with the bytes `w` at hand, of which the buffer has the first.
module _ (d : AlarmStreamDecoder) (rest : List ℕ) (done : List AlarmFrame) (n : ℕ)
    (room : length d.buffer ≤ n) (small : n ≤ 4144) where
  abbrev hand : List ℕ
  hand = d.buffer ++ rest

  gathered : d.buffer ++ take (min (n - length d.buffer) (length rest)) rest ≡ take n hand
  gathered = fill-take n d.buffer rest room

  remaining : drop (min (n - length d.buffer) (length rest)) rest ≡ drop n hand
  remaining = fill-drop n d.buffer rest room

  pub payload_step-partial :
      length hand < n
      → payload_step true true true n d rest done ≡ leave (record d { buffer = hand })
  unfolding payload_step
  payload_step-partial lt =
      rw (gathered, take-length n hand (omega arith), lt→ltb (length hand) n lt)

  enough : n ≤ length hand → length (take n hand) ≡ n
  enough le = omega (arith, length-take n hand)

  pub payload_step-bad :
      n ≤ length hand
      → decode_success (decoded n hand) ≡ false
      → payload_step true true true n d rest done
        ≡ halt (fail_protocol d (decoded n hand).status done)
  unfolding payload_step
  payload_step-bad le bad =
      rw (gathered, enough le, le→ltb n n (omega arith), le→ltb 4144 n small, bad)
        (ap halt
          (decode_failure-protocol d (decoded n hand).status done (decode-granted (take n hand))))

  pub payload_step-good :
      (f : AlarmFrame)
      → n ≤ length hand
      → decode_success (decoded n hand) ≡ true
      → (decoded n hand).frame ≡ some f
      → payload_step true true true n d rest done
        ≡ go (record d { buffer = []; expected_frame_size = none }) (drop n hand) (done ++ (f ∷ []))
  unfolding payload_step
  payload_step-good f le good e =
      rw (gathered, enough le, le→ltb n n (omega arith), le→ltb 4144 n small, good, e, remaining)
