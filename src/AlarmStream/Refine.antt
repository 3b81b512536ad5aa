-- ===== src/AlarmStream/Refine.antt =====
-- The decoder's loop against the relation `Parses`.
use cpp_tlfss.Base.{
  ℕ, zero, suc, ◌+◌, ◌≤◌, ◌<◌, ◌≡◌, refl, true, false, Option, none, some, List, [], ◌∷◌, ◌++◌,
  length, take, drop, arith, ap, ap₂, sym, ◌∙◌, length-take, take-append-drop, length-append,
  length-drop, subst, append-nil, append_assoc, take-before,
}
use cpp_tlfss.AlarmProtocol.Types.{bytes, AlarmFrame, size_success, decode_success}
use cpp_tlfss.AlarmProtocol.Frame.{alarm_frame_size}
use cpp_tlfss.AlarmStream.Decoder.{
  AlarmStreamDecoder, Reply, Step, halt, leave, go, header_step, payload_step, round, fail_protocol,
  conclude, feed_loop,
}
use cpp_tlfss.AlarmStream.Spec.{
  header, decoded, Announces, Announces-bounds, Announces-unique, Ending, pending, broken, Parses,
  short, partial, bad_header, bad_frame, frame,
}
use cpp_tlfss.AlarmStream.Rounds.{
  all_granted, header_step-short, header_step-bad, header_step-good, payload_step-partial,
  payload_step-bad, payload_step-good,
}

abbrev pub at : AlarmStreamDecoder → List ℕ → Option ℕ → AlarmStreamDecoder
at d b x = record d { buffer = b; expected_frame_size = x }

-- A buffer and a frame size that a working decoder can hold between calls.
pub data Ready (b : List ℕ) : Option ℕ → Type 0 where
  in_header : length b < 48 → Ready b none
  in_frame : (n : ℕ) → Announces b n → length b < n → Ready b (some n)

header-append : (b r : List ℕ) → 48 ≤ length b → header (b ++ r) ≡ header b
header-append b r h = ap (λ l. alarm_frame_size (bytes l)) (take-before 48 b r h)

pub Announces-append : (b r : List ℕ) (n : ℕ) → Announces b n → Announces (b ++ r) n
Announces-append b r n a = record {
  whole = omega (arith, length-append b r, a.whole);
  good = ap size_success (header-append b r a.whole) ∙ a.good;
  size = ap (λ s. s.frame_size) (header-append b r a.whole) ∙ a.size;
}

-- A header that is whole announces the same without what follows it.
pub Announces-back : (b r : List ℕ) (n : ℕ) → 48 ≤ length b → Announces (b ++ r) n → Announces b n
Announces-back b r n h a = record {
  whole = h;
  good = ap size_success (sym (header-append b r h)) ∙ a.good;
  size = ap (λ s. s.frame_size) (sym (header-append b r h)) ∙ a.size;
}

-- The reply to a stream that ends in a given way.
unfoldable pub reply : AlarmStreamDecoder → Ending → List AlarmFrame → Reply
reply d (pending w x) fs = conclude (at d w x) fs
reply d (broken s) fs = fail_protocol d s fs

module _ (d : AlarmStreamDecoder) (done : List AlarmFrame) where
  -- With the header whole, the second part of the round has all bytes at hand.
  reach_payload :
      (b : List ℕ) (x : Option ℕ) (r : List ℕ) (n : ℕ)
      → Ready b x
      → Announces (b ++ r) n
      → (b' : List ℕ) × (r' : List ℕ) × (header_step true (at d b x) r done
          ≡ go (at d b' (some n)) r' done)
        × (b' ++ r' ≡ b ++ r)
        × (length b' ≤ n)
  unfolding header_step
  reach_payload b x r n (in_header lt) a = (
    take 48 (b ++ r),
    drop 48 (b ++ r),
    header_step-good (at d b none) r done (record { unknown = refl; below = lt }) n a,
    take-append-drop 48 (b ++ r),
    omega (arith, length-take 48 (b ++ r), Announces-bounds (b ++ r) n a),
  )
  reach_payload b x r n (in_frame m a' lt) a =
      (b, r, ap (λ k. go (at d b (some k)) r done) same, refl, omega (arith, same))
    where
      same : m ≡ n
      same = Announces-unique (b ++ r) m n (Announces-append b r m a') a

  -- With no whole header at hand, a working decoder waits for one.
  no_frame :
      (b r : List ℕ) (x : Option ℕ)
      → Ready b x
      → length (b ++ r) < 48
      → (x ≡ none) × (length b < 48)
  no_frame b r x (in_header lt) h = (refl, lt)
  no_frame b r x (in_frame m a lt) h = absurd (omega (arith, length-append b r, a.whole))

  no_good :
      (b r : List ℕ) (x : Option ℕ)
      → Ready b x
      → size_success (header (b ++ r)) ≡ false
      → (x ≡ none) × (length b < 48)
  no_good b r x (in_header lt) h = (refl, lt)
  no_good b r x (in_frame m a lt) h = absurd (ground (arith, (Announces-append b r m a).good))

  module _ (i : ℕ) (b : List ℕ) (r : List ℕ) where
    round-short :
        (lt : length b < 48)
        → length (b ++ r) < 48
        → round all_granted i (at d b none) r done ≡ leave (at d (b ++ r) none)
    unfolding round
    round-short lt h =
        rw (header_step-short (at d b none) r done (record { unknown = refl; below = lt }) h, round)

    round-bad_header :
        (lt : length b < 48)
        → 48 ≤ length (b ++ r)
        → size_success (header (b ++ r)) ≡ false
        → round all_granted i (at d b none) r done
          ≡ halt (fail_protocol d (header (b ++ r)).status done)
    unfolding round fail_protocol
    round-bad_header lt ge h =
        rw
          (header_step-bad (at d b none) r done (record { unknown = refl; below = lt }) ge h, round)

    module _ (x : Option ℕ) (n : ℕ) (ready : Ready b x) (a : Announces (b ++ r) n) where
      payload_at :
          (s : Step)
          → ((b' r' : List ℕ)
              → b' ++ r' ≡ b ++ r
              → length b' ≤ n
              → payload_step true true true n (at d b' (some n)) r' done ≡ s)
          → round all_granted i (at d b x) r done ≡ s
      unfolding round
      payload_at s k =
          let (b', r', e, w, l) = reach_payload b x r n ready a in rw (e, round) (k b' r' w l)

      small : n ≤ 4144
      small = (Announces-bounds (b ++ r) n a).1

      round-partial :
          length (b ++ r) < n
          → round all_granted i (at d b x) r done ≡ leave (at d (b ++ r) (some n))
      round-partial h = payload_at (leave (at d (b ++ r) (some n))) λ b' r' w l.
          payload_step-partial (at d b' (some n)) r' done n l small (rw w h)
          ∙ ap (λ u. leave (at d u (some n))) w

      round-bad_frame :
          n ≤ length (b ++ r)
          → decode_success (decoded n (b ++ r)) ≡ false
          → round all_granted i (at d b x) r done
            ≡ halt (fail_protocol d (decoded n (b ++ r)).status done)
      unfolding fail_protocol
      round-bad_frame h bad =
          payload_at (halt (fail_protocol d (decoded n (b ++ r)).status done)) λ b' r' w l.
            payload_step-bad (at d b' (some n)) r' done n l small (rw w h) (rw w bad)
            ∙ ap (λ u. halt (fail_protocol d (decoded n u).status done)) w

      round-frame :
          (f : AlarmFrame)
          → n ≤ length (b ++ r)
          → decode_success (decoded n (b ++ r)) ≡ true
          → (decoded n (b ++ r)).frame ≡ some f
          → round all_granted i (at d b x) r done
            ≡ go (at d [] none) (drop n (b ++ r)) (done ++ (f ∷ []))
      round-frame f h good e =
          payload_at (go (at d [] none) (drop n (b ++ r)) (done ++ (f ∷ []))) λ b' r' w l.
            payload_step-good (at d b' (some n)) r' done n l small f (rw w h) (rw w good) (rw w e)
            ∙ ap (λ u. go (at d [] none) (drop n u) (done ++ (f ∷ []))) w

-- Between calls the bytes that a decoder holds mean that it waits.
idle :
    (b w : List ℕ) (x : Option ℕ) {fs : List AlarmFrame} {e : Ending}
    → Ready b x
    → w ≡ b
    → Parses w fs e
    → (fs ≡ []) × (e ≡ pending b x)
idle b w x (in_header lt) q (short _ _) = (refl, ap (λ u. pending u none) q)
idle b w x (in_header lt) q (partial _ n a _) = absurd (omega (arith, ap length q, a.whole))
idle b w x (in_header lt) q (bad_header _ s ge _ _) = absurd (omega (arith, ap length q))
idle b w x (in_header lt) q (bad_frame _ n s a _ _ _) = absurd (omega (arith, ap length q, a.whole))
idle b w x (in_header lt) q (frame _ n f a _ _ _ _) = absurd (omega (arith, ap length q, a.whole))
idle b w x (in_frame m c lt) q (short _ h) = absurd (omega (arith, ap length q, c.whole))
idle b w x (in_frame m c lt) q (partial _ n a h) = (
  refl,
  ap₂ (λ u k. pending u (some k)) q (Announces-unique b n m (subst (λ u. Announces u n) q a) c),
)
idle b w x (in_frame m c lt) q (bad_header _ s ge bad _) =
    absurd (ground (arith, c.good, rw q at bad))
idle b w x (in_frame m c lt) q (bad_frame _ n s a le _ _) =
    absurd (omega (arith, ap length q, Announces-unique b n m (subst (λ u. Announces u n) q a) c))
idle b w x (in_frame m c lt) q (frame _ n f a le _ _ _) =
    absurd (omega (arith, ap length q, Announces-unique b n m (subst (λ u. Announces u n) q a) c))

module _ (d : AlarmStreamDecoder) (fuel i c : ℕ) (b r : List ℕ) (x : Option ℕ)
    (done : List AlarmFrame) where
  on_halt :
      (t : Reply)
      → round all_granted i (at d b x) (c ∷ r) done ≡ halt t
      → feed_loop (suc fuel) all_granted i (at d b x) (c ∷ r) done ≡ some t
  unfolding feed_loop
  on_halt t e = rw (e, feed_loop)

  on_leave :
      (d' : AlarmStreamDecoder)
      → round all_granted i (at d b x) (c ∷ r) done ≡ leave d'
      → feed_loop (suc fuel) all_granted i (at d b x) (c ∷ r) done ≡ some (conclude d' done)
  unfolding feed_loop
  on_leave d' e = rw (e, feed_loop)

  on_go :
      (d' : AlarmStreamDecoder) (r' : List ℕ) (done' : List AlarmFrame)
      → round all_granted i (at d b x) (c ∷ r) done ≡ go d' r' done'
      → feed_loop (suc fuel) all_granted i (at d b x) (c ∷ r) done
        ≡ feed_loop fuel all_granted (i + 1) d' r' done'
  unfolding feed_loop
  on_go d' r' done' e = rw (e, feed_loop)

Ready-lt : (b r : List ℕ) (x : Option ℕ) (n : ℕ) → Ready b x → Announces (b ++ r) n → length b < n
Ready-lt b r x n (in_header lt) a = omega (arith, Announces-bounds (b ++ r) n a)
Ready-lt b r x n (in_frame m c lt) a =
    omega (arith, Announces-unique (b ++ r) m n (Announces-append b r m c) a)

-- The loop, from a decoder that holds `b`, over the bytes `r`.
pub loop_refines :
    (d : AlarmStreamDecoder) (fuel i : ℕ) (b r w : List ℕ) (x : Option ℕ) (done : List AlarmFrame)
    {fs : List AlarmFrame} {e : Ending}
    → Ready b x
    → w ≡ b ++ r
    → length r ≤ fuel
    → Parses w fs e
    → feed_loop fuel all_granted i (at d b x) r done ≡ some (reply d e (done ++ fs))
unfolding feed_loop reply
loop_refines d fuel i b [] w x done ready q h p =
    let (f, e) = idle b w x ready (q ∙ append-nil b) p in rw (f, e, append-nil done)
loop_refines d zero i b (c ∷ r) w x done ready q h p = absurd (omega arith)
loop_refines d (suc fuel) i b (c ∷ r) w x done ready q h (short _ lt) =
    let (n, k) = no_frame d done b (c ∷ r) x ready (rw q at lt) in
    rw (n, append-nil done)
      (on_leave d fuel i c b r none done _ (round-short d done i b (c ∷ r) k (rw q at lt))
        ∙ ap (λ u. some (conclude (at d u none) done)) (sym q))
loop_refines d (suc fuel) i b (c ∷ r) w x done ready q h (partial _ n a lt) = rw (append-nil done) (
    on_leave d fuel i c b r x done _
      (round-partial d done i b (c ∷ r) x n ready (subst (λ u. Announces u n) q a) (rw q at lt))
    ∙ ap (λ u. some (conclude (at d u (some n)) done)) (sym q))
loop_refines d (suc fuel) i b (c ∷ r) w x done ready q h (bad_header _ s ge bad st) =
    let (n, k) = no_good d done b (c ∷ r) x ready (rw q at bad) in
    rw (n, append-nil done)
      (on_halt d fuel i c b r none done _
          (round-bad_header d done i b (c ∷ r) k (rw q at ge) (rw q at bad))
        ∙ ap (λ u. some (fail_protocol d u done)) (rw q at st))
loop_refines d (suc fuel) i b (c ∷ r) w x done ready q h (bad_frame _ n s a le bad st) =
    rw (append-nil done) (
      on_halt d fuel i c b r x done _ (
        round-bad_frame d done i b (c ∷ r) x n ready (subst (λ u. Announces u n) q a) (rw q at le)
          (rw q at bad))
      ∙ ap (λ u. some (fail_protocol d u done)) (rw q at st))
loop_refines d (suc fuel) i b (c ∷ r) w x done {fs = f' ∷ fs} {e = e'} ready q h
      (frame _ n f a le good e p) =
    let a' = subst (λ u. Announces u n) q a in
    let below = Ready-lt b (c ∷ r) x n ready a' in
    on_go d fuel i c b r x done _ _ _
      (round-frame d done i b (c ∷ r) x n ready a' f (rw q at le) (rw q at good) (rw q at e))
    ∙ loop_refines d fuel (i + 1) [] (drop n (b ++ (c ∷ r))) (drop n w) none (done ++ (f ∷ []))
        (in_header (omega arith)) (ap (drop n) q)
        (omega (arith, length-drop n (b ++ (c ∷ r)), length-append b (c ∷ r))) p
    ∙ ap (λ l. some (reply d e' l)) (append_assoc done (f ∷ []) fs)
