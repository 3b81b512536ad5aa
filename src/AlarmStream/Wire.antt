-- ===== src/AlarmStream/Wire.antt =====
-- A sender and a receiver: streams of encodings and their frames.
use cpp_tlfss.Base.{
  ℕ, suc, ◌+◌, ◌≤◌, ◌<◌, ◌≡◌, refl, List, [], ◌∷◌, ◌++◌, arith, length, take, drop, ap, ◌∙◌, sym,
  true, false, Option, some, none, length-append, take-before, take-append, drop-append,
  length-take, take-append-drop, All, subst, min, dec_lt, append-nil,
}
use cpp_tlfss.AlarmProtocol.Types.{bytes, AlarmFrame, size_success, decode_success}
use cpp_tlfss.AlarmProtocol.Types
use cpp_tlfss.AlarmProtocol.Frame.{
  encode_alarm_frame, validate_frame_description, alarm_frame_size, decode_alarm_frame,
  header_frame_size,
}
use cpp_tlfss.AlarmProtocol.Layout.{layout, frame_crc, encode-layout, length-layout}
use cpp_tlfss.AlarmProtocol.Roundtrip.{
  IsFrame, header_frame_size-layout, decode-layout, sized, validate-type,
}
use cpp_tlfss.AlarmProtocol.Prefix.{header_frame_size-append, alarm_frame_size-header}
use cpp_tlfss.AlarmStream.Decoder.{
  feed, fresh, success, AlarmStreamDecoder, conclude, finish, feed_success, fail_protocol,
  need_more_data,
}
use cpp_tlfss.AlarmStream.Spec.{header, decoded, Announces, Parses, pending, short, partial, frame}
use cpp_tlfss.AlarmStream.Rounds.{all_granted}
use cpp_tlfss.AlarmStream.Refine.{in_header, reply, at, Announces-back}
use cpp_tlfss.AlarmStream.Meaning.{Parses-append}
use cpp_tlfss.AlarmStream.Feed.{feed_refines}

-- A frame whose fields fit the envelope and whose type and payload go together.
pub record IsSendable (f : AlarmFrame) : Type 0 where
  pub fits : IsFrame f
  pub valid : validate_frame_description f.type (length f.payload) ≡ Types.success

-- The encodings of some frames, one after the other.
abbrev pub wire : List AlarmFrame → List ℕ
wire [] = []
wire (f ∷ fs) = (encode_alarm_frame true f).bytes ++ wire fs

module _ (f : AlarmFrame) (v : IsSendable f) (rest : List ℕ) where
  abbrev sent : List ℕ
  sent = layout f (frame_crc f)

  long : length sent ≡ 48 + length f.payload
  long = length-layout f v.fits.id_size (frame_crc f)

  header-sent :
      header (sent ++ rest)
      ≡ record { status = Types.success; frame_size = some (48 + length f.payload) }
  header-sent =
      ap (λ l. alarm_frame_size (bytes l)) (take-before 48 sent rest (omega (arith, long)))
      ∙ alarm_frame_size-header (take 48 sent) whole
      ∙ sym (header_frame_size-append (take 48 sent) (drop 48 sent) whole)
      ∙ ap header_frame_size (take-append-drop 48 sent)
      ∙ header_frame_size-layout f v.fits (frame_crc f) v.valid
    where
      whole : 48 ≤ length (take 48 sent)
      whole = omega (arith, length-take 48 sent, long)

  decoded-sent :
      decoded (48 + length f.payload) (sent ++ rest)
      ≡ record { status = Types.success; frame = some f }
  decoded-sent =
      ap (λ l. decode_alarm_frame true (bytes l))
        (take-append (48 + length f.payload) sent rest long)
      ∙ decode-layout f v.fits v.valid

  Announces-sent : Announces (sent ++ rest) (48 + length f.payload)
  unfolding size_success
  Announces-sent = record {
    whole = omega (arith, length-append sent rest, long);
    good =
        ap size_success header-sent
        ∙ sized (length f.payload) (validate-type f.type (length f.payload) v.valid).2;
    size = ap (λ r. r.frame_size) header-sent;
  }

Parses-wire : (fs : List AlarmFrame) → All IsSendable fs → Parses (wire fs) fs (pending [] none)
unfolding decode_success
Parses-wire [] v = short [] (omega arith)
Parses-wire (f ∷ fs) v =
    subst (λ w. Parses w (f ∷ fs) (pending [] none)) (sym start)
      (frame (sent f v.0 (wire fs) ++ wire fs) (48 + length f.payload) f
        (Announces-sent f v.0 (wire fs))
        (omega (arith, long f v.0 (wire fs), length-append (layout f (frame_crc f)) (wire fs)))
        (ap decode_success (decoded-sent f v.0 (wire fs)))
        (ap (λ r. r.frame) (decoded-sent f v.0 (wire fs)))
        (subst (λ w. Parses w fs (pending [] none))
          (sym (
            drop-append (48 + length f.payload) (layout f (frame_crc f)) (wire fs)
              (long f v.0 (wire fs))))
          (Parses-wire fs v.1)))
  where
    start : wire (f ∷ fs) ≡ layout f (frame_crc f) ++ wire fs
    start = ap (λ r. r.bytes ++ wire fs) (encode-layout f v.0.fits.id_size v.0.valid)

-- A fresh decoder that is fed the encodings of sendable frames returns SUCCESS and exactly these
-- frames, in order, and is fresh again. All allocations succeed.
pub feed-wire :
    (fs : List AlarmFrame)
    → All IsSendable fs
    → feed all_granted fresh (bytes (wire fs))
      ≡ some (record { status = success; frames = fs; protocol_status = none }, fresh)
unfolding reply conclude
feed-wire fs v =
    feed_refines fresh (wire fs) (record { alive = refl; ready = in_header (omega arith) })
      (Parses-wire fs v)

-- The first `k` bytes of an encoding, and no more.
module _ (f : AlarmFrame) (v : IsSendable f) (k : ℕ) where
  abbrev cut : List ℕ
  cut = take k (layout f (frame_crc f))

  Parses-cut : k < 48 + length f.payload → (x : Option ℕ) × Parses cut [] (pending cut x)
  Parses-cut lt = elim (dec_lt k 48) [
    | yes p ↦ (none, short cut (omega (arith, size)))
    | no p ↦ (
      some (48 + length f.payload),
      partial cut _ (announced (omega arith)) (omega (arith, size)),
    )
  ]
    where
      size : length cut ≡ min k (48 + length f.payload)
      size = length-take k (layout f (frame_crc f)) ∙ ap (min k) (long f v [])

      whole : (layout f (frame_crc f)) ++ [] ≡ cut ++ drop k (layout f (frame_crc f))
      whole =
          append-nil (layout f (frame_crc f)) ∙ sym (take-append-drop k (layout f (frame_crc f)))

      announced : 48 ≤ k → Announces cut (48 + length f.payload)
      announced h =
          Announces-back cut (drop k (layout f (frame_crc f))) (48 + length f.payload)
            (omega (arith, size))
            (subst (λ u. Announces u (48 + length f.payload)) whole (Announces-sent f v []))

Parses-truncated :
    (fs : List AlarmFrame) (f : AlarmFrame) (k : ℕ)
    → All IsSendable fs
    → (v : IsSendable f) → k < 48 + length f.payload
    → (x : Option ℕ) × Parses (wire fs ++ cut f v k) fs (pending (cut f v k) x)
Parses-truncated fs f k vs v lt =
    let (x, p) = Parses-cut f v k lt in
    (
      x,
      subst (λ l. Parses (wire fs ++ cut f v k) l (pending (cut f v k) x)) (append-nil fs)
          (Parses-append (Parses-wire fs vs) [] none (cut f v k) refl p),
    )

-- A stream that breaks off inside a frame is noticed. A fresh decoder that is fed the encodings of
-- sendable frames and then the first `k + 1` bytes of one more, but not all of it, delivers the
-- whole frames and asks for more, and `finish` then reports an error. All allocations succeed.
pub finish-truncated :
    (fs : List AlarmFrame) (f : AlarmFrame) (k : ℕ)
    → All IsSendable fs
    → IsSendable f
    → suc k < length (encode_alarm_frame true f).bytes
    → (d : AlarmStreamDecoder) × (feed all_granted fresh
          (bytes (wire fs ++ take (suc k) (encode_alarm_frame true f).bytes))
        ≡ some (record { status = need_more_data; frames = fs; protocol_status = none }, d))
      × (feed_success (finish d).0 ≡ false)
unfolding reply conclude
finish-truncated fs f k vs v lt =
    let (x, p) =
      Parses-truncated fs f (suc k) vs v (omega (arith, ap length encoded, long f v [])) in
    (
      at fresh (cut f v (suc k)) x,
      ap (λ l. feed all_granted fresh (bytes (wire fs ++ take (suc k) l))) encoded
          ∙ feed_refines fresh (wire fs ++ cut f v (suc k))
              (record { alive = refl; ready = in_header (omega arith) }) p,
      finish-pending x,
    )
  where
    encoded : (encode_alarm_frame true f).bytes ≡ layout f (frame_crc f)
    encoded = ap (λ r. r.bytes) (encode-layout f v.fits.id_size v.valid)

    finish-pending : (x : Option ℕ) → feed_success (finish (at fresh (cut f v (suc k)) x)).0 ≡ false
    finish-pending x = unfold finish feed_success fail_protocol in ground arith
