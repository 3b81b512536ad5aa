-- ===== src/AlarmStream/Total.antt =====
-- The calls of the decoder: whether they return, and the invariant across them.
use cpp_tlfss.Base.{
  ℕ, zero, suc, ◌+◌, ◌≤◌, ◌<◌, ◌≡◌, refl, Bool, true, false, Option, none, some, List, [], ◌∷◌,
  length, arith, ap, sym, subst, if◌then◌else◌,
}
use cpp_tlfss.AlarmProtocol.Types.{Input, null, bytes, AlarmFrame}
use cpp_tlfss.AlarmStream.Decoder.{
  AlarmStreamDecoder, Reply, Step, round, already, conclude, feed_loop, feed,
}
use cpp_tlfss.AlarmStream.Spec.{Announces-bounds}
use cpp_tlfss.AlarmStream.Refine.{Ready, in_header, in_frame, at}
use cpp_tlfss.AlarmStream.Invariant.{IsValid, working, broken, Ends, halted, left, gone, round-Ends}

-- A call returns, with a valid decoder.
abbrev pub Keeps : Option Reply → Type 0
Keeps o = (t : Reply) × (o ≡ some t) × IsValid t.1

conclude-IsValid :
    (d : AlarmStreamDecoder) (b : List ℕ) (x : Option ℕ) (done : List AlarmFrame)
    → d.failed ≡ false
    → Ready b x
    → IsValid (conclude (at d b x) done).1
unfolding conclude
conclude-IsValid d b x done alive r = working alive r

loop-Keeps :
    (d : AlarmStreamDecoder) (alloc : ℕ → Bool) (fuel i : ℕ) (b r : List ℕ) (x : Option ℕ)
    (done : List AlarmFrame)
    → d.failed ≡ false
    → Ready b x
    → length r ≤ fuel
    → Keeps (feed_loop fuel alloc i (at d b x) r done)
unfolding feed_loop
loop-Keeps d alloc fuel i b [] x done alive ready h =
    (conclude (at d b x) done, refl, conclude-IsValid d b x done alive ready)
loop-Keeps d alloc zero i b (c ∷ r) x done alive ready h = absurd (omega arith)
loop-Keeps d alloc (suc fuel) i b (c ∷ r) x done alive ready h =
    by_end
      (λ r' done' h'.
        loop-Keeps d alloc fuel (i + 1) [] r' none done' alive (in_header (omega arith)) h')
      (round alloc i (at d b x) (c ∷ r) done) refl (round-Ends d alloc i (c ∷ r) done b x ready)
  where
    by_end :
        ((r' : List ℕ) (done' : List AlarmFrame)
          → length r' ≤ fuel
          → Keeps (feed_loop fuel alloc (i + 1) (at d [] none) r' done'))
        → (s : Step) → round alloc i (at d b x) (c ∷ r) done ≡ s
        → Ends d (suc (length r)) s
        → Keeps (feed_loop (suc fuel) alloc i (at d b x) (c ∷ r) done)
    by_end rec s e (halted t f) = (t, rw (e, feed_loop), broken f)
    by_end rec s e (left b' x' ready') =
        (conclude (at d b' x') done, rw (e, feed_loop), conclude-IsValid d b' x' done alive ready')
    by_end rec s e (gone r' done' lt) =
        subst Keeps (sym (rw (e, feed_loop))) (rec r' done' (omega arith))

gate : (o p : Option Reply) (b : Bool) → b ≡ false → (if b then o else p) ≡ p
gate o p true e = cc
gate o p false e = refl

Keeps-alive :
    (alloc : ℕ → Bool) (d : AlarmStreamDecoder) (input : Input)
    → d.failed ≡ false
    → Ready d.buffer d.expected_frame_size
    → Keeps (feed alloc d input)
unfolding feed
Keeps-alive alloc d (null zero) a r =
    subst Keeps (sym (gate _ _ d.failed a))
      (loop-Keeps d alloc 0 0 d.buffer [] d.expected_frame_size [] a r (omega arith))
Keeps-alive alloc d (null (suc k)) a r =
    subst Keeps (sym (gate _ _ d.failed a)) (_, refl, working a r)
Keeps-alive alloc d (bytes xs) a r =
    subst Keeps (sym (gate _ _ d.failed a))
      (loop-Keeps d alloc (length xs) 0 d.buffer xs d.expected_frame_size [] a r (omega arith))

-- A valid decoder never holds a whole largest frame, so its buffer stays below the hard limit.
IsValid-bounded : (d : AlarmStreamDecoder) → IsValid d → length d.buffer < 4144
IsValid-bounded d (broken f) = omega (arith, ap length f.cleared)
IsValid-bounded d (working a r) = Ready-bounded d.buffer d.expected_frame_size r
  where
    Ready-bounded : (b : List ℕ) (x : Option ℕ) → Ready b x → length b < 4144
    Ready-bounded b x (in_header lt) = omega arith
    Ready-bounded b x (in_frame n a lt) = omega (arith, Announces-bounds b n a)

feed-Keeps :
    (alloc : ℕ → Bool) (d : AlarmStreamDecoder) (input : Input)
    → IsValid d
    → Keeps (feed alloc d input)
unfolding feed
feed-Keeps alloc d input (broken f) = (already d, rw f.failed, broken f)
feed-Keeps alloc d input (working a r) = Keeps-alive alloc d input a r

-- `feed` returns on every input and leaves a valid decoder valid, its buffer below the hard
-- limit of 4144 bytes, whichever allocations fail.
pub feed-IsValid :
    (alloc : ℕ → Bool) (d : AlarmStreamDecoder) (input : Input)
    → IsValid d
    → (t : Reply) × (feed alloc d input ≡ some t) × IsValid t.1 × (length t.1.buffer < 4144)
feed-IsValid alloc d input v =
    let (t, e, v') = feed-Keeps alloc d input v in (t, e, v', IsValid-bounded t.1 v')
