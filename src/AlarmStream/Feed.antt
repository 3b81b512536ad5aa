-- ===== src/AlarmStream/Feed.antt =====
-- The frames and the status of `feed` over one call and over two.
use cpp_tlfss.Base.{
  ℕ, ◌≡◌, refl, true, false, Option, some, List, [], ◌++◌, length, arith, ap, sym, ◌∙◌, subst,
  if◌then◌else◌, append_assoc,
}
use cpp_tlfss.AlarmProtocol.Types.{bytes, AlarmFrame, AlarmProtocolStatus}
use cpp_tlfss.AlarmStream.Decoder.{
  AlarmStreamDecoder, AlarmStreamFeedResult, Reply, already, feed_loop, feed, feed_success,
  fail_protocol, conclude,
}
use cpp_tlfss.AlarmStream.Spec.{Ending, pending, broken, Parses}
use cpp_tlfss.AlarmStream.Rounds.{all_granted}
use cpp_tlfss.AlarmStream.Refine.{Ready, reply, at, loop_refines}
use cpp_tlfss.AlarmStream.Meaning.{Parses-total, Parses-Ready, Parses-append}

-- A decoder that has not failed, between two calls.
pub record IsWorking (d : AlarmStreamDecoder) : Type 0 where
  pub alive : d.failed ≡ false
  pub ready : Ready d.buffer d.expected_frame_size

-- `feed` returns what the stream means: the kept bytes followed by the new ones.
pub feed_refines :
    (d : AlarmStreamDecoder) (xs : List ℕ) {fs : List AlarmFrame} {e : Ending}
    → IsWorking d
    → Parses (d.buffer ++ xs) fs e
    → feed all_granted d (bytes xs) ≡ some (reply d e fs)
unfolding feed
feed_refines d xs v p =
    ap (λ b. if b then some (already d) else feed_loop (length xs) all_granted 0 d xs []) v.alive
    ∙ loop_refines d (length xs) 0 d.buffer xs (d.buffer ++ xs) d.expected_frame_size [] v.ready
        refl (omega arith) p

-- The result of two calls, as one.
abbrev pub joined : AlarmStreamFeedResult → Reply → Reply
joined r (s, d) = (record s { frames = r.frames ++ s.frames }, d)

joined-reply :
    (d : AlarmStreamDecoder) (e : Ending) (r : AlarmStreamFeedResult) (gs : List AlarmFrame)
    → joined r (reply d e gs) ≡ reply d e (r.frames ++ gs)
unfolding reply conclude fail_protocol
joined-reply d (pending w x) r gs = refl
joined-reply d (broken s) r gs = refl

-- A broken stream is reported as an error, and a waiting one leaves a working decoder.
reply-broken :
    (d : AlarmStreamDecoder) (s : AlarmProtocolStatus) (fs : List AlarmFrame)
    → feed_success (reply d (broken s) fs).0 ≡ false
unfolding reply feed_success fail_protocol
reply-broken d s fs = refl

reply-at :
    (d : AlarmStreamDecoder) (w : List ℕ) (x : Option ℕ) (e : Ending) (fs : List AlarmFrame)
    → reply (at d w x) e fs ≡ reply d e fs
unfolding reply fail_protocol
reply-at d w x (pending u y) fs = refl
reply-at d w x (broken s) fs = refl

some-eq {ℓ} : {A : Type ℓ} {x y : A} → some x ≡ some y → x ≡ y
some-eq h = cc

module _ (d : AlarmStreamDecoder) (xs ys : List ℕ) (v : IsWorking d) where
  -- The second call, from the state that the first one leaves.
  second :
      (w : List ℕ) (x : Option ℕ) (fs gs : List AlarmFrame) (e : Ending)
      → Parses (d.buffer ++ xs) fs (pending w x)
      → Parses (w ++ ys) gs e
      → (feed all_granted (at d w x) (bytes ys) ≡ some (reply d e gs))
        × (feed all_granted d (bytes (xs ++ ys)) ≡ some (reply d e (fs ++ gs)))
  second w x fs gs e p q = (
    feed_refines (at d w x) ys (record { alive = v.alive; ready = Parses-Ready p refl }) q
        ∙ ap some (reply-at d w x e gs),
    feed_refines d (xs ++ ys) v (
        subst (λ u. Parses u (fs ++ gs) e) (append_assoc d.buffer xs ys)
          (Parses-append p w x ys refl q)),
  )

  join_calls :
      (d' : AlarmStreamDecoder) (r : AlarmStreamFeedResult) (t : Reply) (fs : List AlarmFrame)
      (end : Ending)
      → Parses (d.buffer ++ xs) fs end
      → feed all_granted d (bytes xs) ≡ some (r, d')
      → feed_success r ≡ true
      → feed all_granted d' (bytes ys) ≡ some t
      → feed all_granted d (bytes (xs ++ ys)) ≡ some (joined r t)
  unfolding reply conclude
  join_calls d' r t fs (broken s) p e ok e' = absurd (
      ground (
        arith,
        reply-broken d s fs,
        ap (λ u. feed_success u.0) (some-eq (sym e ∙ feed_refines d xs v p)),
      ))
  join_calls d' r t fs (pending w x) p e ok e' =
      let (gs, end, q) = Parses-total (w ++ ys) in
      let here = some-eq (sym e ∙ feed_refines d xs v p) in
      let (one, both) = second w x fs gs end p q in
      let state : d' ≡ at d w x = ap (λ u. u.1) here in
      let frames : r.frames ≡ fs = ap (λ u. u.0.frames) here in
      let last : t ≡ reply d end gs =
        some-eq (sym e' ∙ ap (λ u. feed all_granted u (bytes ys)) state ∙ one) in
      both
      ∙ ap some (
          ap (λ l. reply d end (l ++ gs)) (sym frames)
          ∙ sym (joined-reply d end r gs)
          ∙ ap (joined r) (sym last))

-- The chunks in which a stream arrives do not matter. Two calls of `feed` by a working decoder,
-- the first of which succeeds, deliver together the frames, and end with the status and the state,
-- of one call on the concatenation. All allocations succeed.
pub feed-append :
    (d d' : AlarmStreamDecoder) (xs ys : List ℕ) (r : AlarmStreamFeedResult) (t : Reply)
    → IsWorking d
    → feed all_granted d (bytes xs) ≡ some (r, d')
    → feed_success r ≡ true
    → feed all_granted d' (bytes ys) ≡ some t
    → feed all_granted d (bytes (xs ++ ys)) ≡ some (joined r t)
feed-append d d' xs ys r t v =
    let (fs, end, p) = Parses-total (d.buffer ++ xs) in join_calls d xs ys v d' r t fs end p
