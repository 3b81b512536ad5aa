-- ===== src/AlarmStream/Meaning.antt =====
-- The meaning of a stream: whether it is unique, and how it grows with a chunk.
use cpp_tlfss.Base.{
  ℕ, zero, suc, ◌≤◌, ◌<◌, ◌≡◌, refl, true, Option, none, some, List, [], ◌∷◌, ◌++◌, length, drop,
  arith, inl, inr, ap, sym, ◌∙◌, dec_lt, Bool-cases, Option-cases, length-append, length-drop,
  subst, take-before, drop-before,
}
use cpp_tlfss.AlarmProtocol.Types.{
  bytes, AlarmFrame, AlarmFrameSizeResult, AlarmDecodeResult, size_success, decode_success,
}
use cpp_tlfss.AlarmProtocol.Frame.{decode_alarm_frame}
use cpp_tlfss.AlarmStream.Spec.{
  header, decoded, Announces, Announces-bounds, Ending, pending, broken, Parses, short, partial,
  bad_header, bad_frame, frame,
}
use cpp_tlfss.AlarmStream.Refine.{Ready, in_header, in_frame, Announces-append}

pub size_success-some :
    (r : AlarmFrameSizeResult) → size_success r ≡ true → (n : ℕ) × (r.frame_size ≡ some n)
unfolding size_success
size_success-some r h = elim (Option-cases r.frame_size) [
  | inl p ↦ absurd (ground arith)
  | inr (n, p) ↦ (n, p)
]

pub decode_success-some :
    (r : AlarmDecodeResult) → decode_success r ≡ true → (f : AlarmFrame) × (r.frame ≡ some f)
unfolding decode_success
decode_success-some r h = elim (Option-cases r.frame) [
  | inl p ↦ absurd (ground arith)
  | inr (f, p) ↦ (f, p)
]

abbrev Meaning : List ℕ → Type 0
Meaning w = (fs : List AlarmFrame) × (e : Ending) × Parses w fs e

Meaning-below : (k : ℕ) (w : List ℕ) → length w < k → Meaning w
Meaning-below zero w h = absurd (omega arith)
Meaning-below (suc k) w h = elim (dec_lt (length w) 48) [
  | yes p ↦ ([], pending w none, short w p)
  | no p ↦ elim (Bool-cases (size_success (header w))) [
    | inr bad ↦
        ([], broken (header w).status, bad_header w (header w).status (omega arith) bad refl)
    | inl good ↦
        let (n, e) = size_success-some (header w) good in
        let a : Announces w n = record { whole = omega arith; good = good; size = e } in
        elim (dec_lt (length w) n) [
          | yes q ↦ ([], pending w (some n), partial w n a q)
          | no q ↦ elim (Bool-cases (decode_success (decoded n w))) [
            | inr bad ↦ (
              [],
              broken (decoded n w).status,
              bad_frame w n (decoded n w).status a (omega arith) bad refl,
            )
            | inl ok ↦
                let (f, e') = decode_success-some (decoded n w) ok in
                let bound = Announces-bounds w n a in
                let (fs, end, p') =
                  Meaning-below k (drop n w) (omega (arith, length-drop n w, bound.0)) in
                (f ∷ fs, end, frame w n f a (omega arith) ok e' p')
          ]
        ]
  ]
]

-- Every sequence of bytes has a meaning.
pub Parses-total : (w : List ℕ) → (fs : List AlarmFrame) × (e : Ending) × Parses w fs e
Parses-total w = Meaning-below (suc (length w)) w (omega arith)

abbrev CanWait : Ending → Type 0
CanWait (pending w x) = Ready w x
CanWait (broken s) = Unit

-- The bytes that wait are ones that a working decoder can hold.
pub Parses-Ready :
    {v : List ℕ} {fs : List AlarmFrame} {w : List ℕ} {x : Option ℕ} {e : Ending}
    → Parses v fs e
    → e ≡ pending w x
    → Ready w x
Parses-Ready (short v lt) q = subst CanWait q (in_header lt)
Parses-Ready (partial v n a lt) q = subst CanWait q (in_frame n a lt)
Parses-Ready (bad_header v s _ _ _) q = cc
Parses-Ready (bad_frame v n s _ _ _ _) q = cc
Parses-Ready (frame v n f _ _ _ _ p) q = Parses-Ready p q

-- More bytes behind a stream that waits: the frames so far, then the meaning of what waited.
pending-injective : (v w : List ℕ) (x y : Option ℕ) → pending v x ≡ pending w y → v ≡ w
pending-injective v w x y q = cc

decoded-append : (v ys : List ℕ) (n : ℕ) → n ≤ length v → decoded n (v ++ ys) ≡ decoded n v
decoded-append v ys n h = ap (λ l. decode_alarm_frame true (bytes l)) (take-before n v ys h)

pub Parses-append :
    {v : List ℕ} {fs : List AlarmFrame} {e : Ending}
    → Parses v fs e
    → (w : List ℕ) (x : Option ℕ) (ys : List ℕ) {gs : List AlarmFrame} {e' : Ending}
    → e ≡ pending w x
    → Parses (w ++ ys) gs e'
    → Parses (v ++ ys) (fs ++ gs) e'
Parses-append (short v lt) w x ys {gs} {e'} q g =
    subst (λ u. Parses (u ++ ys) gs e') (sym (pending-injective v w none x q)) g
Parses-append (partial v n a lt) w x ys {gs} {e'} q g =
    subst (λ u. Parses (u ++ ys) gs e') (sym (pending-injective v w (some n) x q)) g
Parses-append (bad_header v s _ _ _) w x ys q g = cc
Parses-append (bad_frame v n s _ _ _ _) w x ys q g = cc
Parses-append (frame v n f {fs = fs} a le ok e p) w x ys {gs} {e'} q g =
    frame (v ++ ys) n f (Announces-append v ys n a) (omega (arith, length-append v ys))
      (ap decode_success (decoded-append v ys n le) ∙ ok)
      (ap (λ r. r.frame) (decoded-append v ys n le) ∙ e)
      (subst (λ u. Parses u (fs ++ gs) e') (sym (drop-before n v ys le))
        (Parses-append p w x ys q g))
