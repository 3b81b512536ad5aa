-- ===== src/AlarmStream/Invariant.antt =====
-- The decoder's invariant across the parts of a round.
use cpp_tlfss.Base.{
  ℕ, ◌+◌, ◌*◌, ◌≤◌, ◌<◌, ◌≡◌, refl, Bool, true, false, not, Option, none, some, List, [], ◌∷◌, ◌++◌,
  length, take, drop, arith, inl, inr, ap, sym, dec_lt, Bool-cases, subst, length-append,
  length-drop, length-take, take-length, fill-take, fill-drop, lt→ltb, le→ltb, if◌then◌else◌,
  take-append-drop,
}
use cpp_tlfss.AlarmProtocol.Types.{
  bytes, AlarmFrame, AlarmProtocolStatus, size_success, decode_success,
}
use cpp_tlfss.AlarmProtocol.Frame.{decode_alarm_frame}
use cpp_tlfss.AlarmStream.Decoder.{
  AlarmStreamStatus, decode_failure, allocation_failed, AlarmStreamDecoder, Reply, Step, halt,
  leave, go, header_step, payload_step, round, fail_protocol, fail_stream,
}
use cpp_tlfss.AlarmStream.Spec.{header, Announces, Announces-bounds}
use cpp_tlfss.AlarmStream.Rounds.{header_step-short, header_step-bad, header_step-good, InHeader}
use cpp_tlfss.AlarmStream.Refine.{Ready, in_header, in_frame, at, Announces-append}
use cpp_tlfss.AlarmStream.Meaning.{size_success-some, decode_success-some}

-- A decoder that has failed keeps no bytes.
pub record IsFailed (d : AlarmStreamDecoder) : Type 0 where
  pub failed : d.failed ≡ true
  pub cleared : d.buffer ≡ []
  pub unknown : d.expected_frame_size ≡ none

pub data IsValid (d : AlarmStreamDecoder) : Type 0 where
  working : d.failed ≡ false → Ready d.buffer d.expected_frame_size → IsValid d
  broken : IsFailed d → IsValid d

-- How a part of a round may end when it starts with `size` bytes to read.
pub data Ends (d : AlarmStreamDecoder) (size : ℕ) : Step → Type 0 where
  halted : (t : Reply) → IsFailed t.1 → Ends d size (halt t)
  left : (b : List ℕ) (x : Option ℕ) → Ready b x → Ends d size (leave (at d b x))
  gone :
      (r : List ℕ) (done : List AlarmFrame)
      → length r < size
      → Ends d size (go (at d [] none) r done)

stream_fails :
    (d : AlarmStreamDecoder) (s : AlarmStreamStatus) (done : List AlarmFrame)
    → IsFailed (fail_stream d s done).1
unfolding fail_stream
stream_fails d s done = record { failed = refl; cleared = refl; unknown = refl }

pub protocol_fails :
    (d : AlarmStreamDecoder) (s : AlarmProtocolStatus) (done : List AlarmFrame)
    → IsFailed (fail_protocol d s done).1
unfolding fail_protocol
protocol_fails d s done = record { failed = refl; cleared = refl; unknown = refl }

decode_fails :
    (d : AlarmStreamDecoder) (s : AlarmProtocolStatus) (done : List AlarmFrame)
    → IsFailed (decode_failure d s done).1
unfolding decode_failure fail_stream fail_protocol
decode_fails d s done = ground arith

-- The second part of a round, from `b` and the bytes `r`, of which fewer than `n + size` are there.
module _ (d : AlarmStreamDecoder) (n : ℕ) (b r : List ℕ) (done : List AlarmFrame) (size : ℕ) where
  pushed :
      (a3 : Bool) (f : AlarmFrame)
      → length (drop n (b ++ r)) < size
      → Ends d size (
          if not a3
          then halt (fail_stream (at d b (some n)) allocation_failed done)
          else go (at d [] none) (drop n (b ++ r)) (done ++ (f ∷ [])))
  pushed false f h = halted _ (stream_fails (at d b (some n)) allocation_failed done)
  pushed true f h = gone (drop n (b ++ r)) (done ++ (f ∷ [])) h

  payload-Ends :
      (a1 a2 a3 : Bool)
      → Announces (b ++ r) n
      → length b ≤ n
      → length (b ++ r) < n + size
      → Ends d size (payload_step a1 a2 a3 n (at d b (some n)) r done)
  unfolding payload_step
  payload-Ends false a2 a3 a room fewer =
      halted _ (stream_fails (at d b (some n)) allocation_failed done)
  payload-Ends true a2 a3 a room fewer = elim (dec_lt (length (b ++ r)) n) [
    | yes p ↦
        rw
          (fill-take n b r room, take-length n (b ++ r) (omega arith), lt→ltb (length (b ++ r)) n p)
          (left (b ++ r) (some n) (in_frame n a p))
    | no p ↦
        let exact : length (take n (b ++ r)) ≡ n = omega (arith, length-take n (b ++ r)) in
        rw
          (
            fill-take n b r room,
            exact,
            le→ltb n n (omega arith),
            le→ltb 4144 n (Announces-bounds (b ++ r) n a).1,
          )
          (elim (Bool-cases (decode_success (decode_alarm_frame a2 (bytes (take n (b ++ r)))))) [
            | inr bad ↦ rw bad (halted _ (decode_fails (at d b (some n)) _ done))
            | inl good ↦
                let (f, e) =
                  decode_success-some (decode_alarm_frame a2 (bytes (take n (b ++ r)))) good in
                rw (good, e, fill-drop n b r room)
                  (pushed a3 f (omega (arith, length-drop n (b ++ r))))
          ])
  ]

-- A round from a working decoder fails, waits in a good state, or reads at least one byte.
module _ (d : AlarmStreamDecoder) (alloc : ℕ → Bool) (i : ℕ) (r : List ℕ)
    (done : List AlarmFrame) where
  -- The rest of a round whose header is whole.
  behind_header :
      (b b' r' : List ℕ) (x : Option ℕ) (n : ℕ)
      → header_step (alloc (4 * i)) (at d b x) r done ≡ go (at d b' (some n)) r' done
      → b' ++ r' ≡ b ++ r
      → length b' ≤ n
      → length b < n
      → Announces (b ++ r) n
      → Ends d (length r) (round alloc i (at d b x) r done)
  unfolding round
  behind_header b b' r' x n e w l lt a =
      rw (e, round)
        (payload-Ends d n b' r' done (length r) (alloc (4 * i + 1)) (alloc (4 * i + 2))
          (alloc (4 * i + 3)) (subst (λ u. Announces u n) (sym w) a) l
          (omega (arith, length-append b r, ap length w)))

  refused :
      (b : List ℕ) (t : Reply)
      → header_step (alloc (4 * i)) (at d b none) r done ≡ halt t
      → IsFailed t.1
      → Ends d (length r) (round alloc i (at d b none) r done)
  unfolding round
  refused b t e f = rw (e, round) (halted t f)

  header-Ends :
      (b : List ℕ) (a0 : Bool)
      → alloc (4 * i) ≡ a0
      → length b < 48
      → Ends d (length r) (round alloc i (at d b none) r done)
  unfolding round header_step
  header-Ends b false e lt =
      refused b (fail_stream (at d b none) allocation_failed done) (rw (e, header_step))
        (stream_fails (at d b none) allocation_failed done)
  header-Ends b true e lt =
      let h : InHeader (at d b none) = record { unknown = refl; below = lt } in
      elim (dec_lt (length (b ++ r)) 48) [
        | yes p ↦
            rw (e, header_step-short (at d b none) r done h p, round)
              (left (b ++ r) none (in_header p))
        | no p ↦ elim (Bool-cases (size_success (header (b ++ r)))) [
          | inr bad ↦
              refused b (fail_protocol (at d b none) (header (b ++ r)).status done)
                (rw e (header_step-bad (at d b none) r done h (omega arith) bad))
                (protocol_fails (at d b none) (header (b ++ r)).status done)
          | inl good ↦
              let (n, s) = size_success-some (header (b ++ r)) good in
              let a : Announces (b ++ r) n = record {
                whole = omega arith;
                good = good;
                size = s;
              } in
              behind_header b (take 48 (b ++ r)) (drop 48 (b ++ r)) none n
                (rw e (header_step-good (at d b none) r done h n a)) (take-append-drop 48 (b ++ r))
                (omega (arith, length-take 48 (b ++ r), Announces-bounds (b ++ r) n a))
                (omega (arith, Announces-bounds (b ++ r) n a)) a
        ]
      ]

  pub round-Ends :
      (b : List ℕ) (x : Option ℕ) → Ready b x → Ends d (length r) (round alloc i (at d b x) r done)
  unfolding header_step
  round-Ends b x (in_header lt) = header-Ends b (alloc (4 * i)) refl lt
  round-Ends b x (in_frame n a lt) =
      behind_header b b r (some n) n refl refl (omega arith) lt (Announces-append b r n a)
