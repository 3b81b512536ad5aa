-- ===== src/MonitorPolicy/Duration.antt =====
-- When a policy of duration is in alert.
use cpp_tlfss.Base.{
  ℕ, ◌+◌, ◌-◌, ◌<◌, ◌≤◌, Bool, true, false, ◌||◌, List, [], ◌∷◌, leb, ltb, if◌then◌else◌, ◌≡◌, refl,
  arith, if-keeps, All, ◌∙◌, ap,
}
use cpp_tlfss.MonitorPolicy.Policy.{
  PolicyFeedResult, ContForState, idle, pending, active, ContForPolicy, feed_cont_for,
  cont_for_value,
}

-- A sample is a value and its time.
unfoldable pub feed_all : List (ℕ × ℕ) → ContForPolicy → ContForPolicy
feed_all [] p = p
feed_all ((v, t) ∷ samples) p = feed_all samples (feed_cont_for v t p).1

-- Whether a sample comes a duration behind a time, or later.
unfoldable pub any_due : ℕ → ℕ → List (ℕ × ℕ) → Bool
any_due duration start [] = false
any_due duration start ((v, t) ∷ samples) =
    leb (start + duration) t || any_due duration start samples

abbrev pub AllAbove : ℕ → List (ℕ × ℕ) → Type 0
AllAbove limit = All (λ (s : ℕ × ℕ). limit < s.0)

module _ (limit d start : ℕ) where
  abbrev at_state : ContForState → ContForPolicy
  at_state s = record { threshold = limit; duration = d; state = s; crossed_at = start }

  active-stays :
      (samples : List (ℕ × ℕ))
      → AllAbove limit samples
      → (feed_all samples (at_state active)).state ≡ active
  unfolding feed_all feed_cont_for
  active-stays [] h = refl
  active-stays ((v, t) ∷ samples) h =
      if-keeps (λ (o : PolicyFeedResult × ContForPolicy). (feed_all samples o.1).state ≡ active)
        (leb v limit) (λ e. let above = h.0 in absurd (ground arith))
        (λ _. active-stays samples h.1)

  pending-value :
      (samples : List (ℕ × ℕ))
      → AllAbove limit samples
      → cont_for_value (feed_all samples (at_state pending)).state
        ≡ (if any_due d start samples then 1 else 0)
  unfolding feed_all feed_cont_for any_due
  pending-value [] h = refl
  pending-value ((v, t) ∷ samples) h =
      if-keeps Ends (leb v limit) (λ e. let above = h.0 in absurd (ground arith))
        (λ _.
          if-keeps Ends (ltb t start) (λ e. let f = early e in pending-value samples h.1 ∙ rw f)
            (λ late.
              if-keeps Ends (leb d (t - start))
                (λ e. let f = due late e in ap cont_for_value (active-stays samples h.1) ∙ rw f)
                (λ e. let f = not_due late e in pending-value samples h.1 ∙ rw f)))
    where
      Ends : PolicyFeedResult × ContForPolicy → Type 0
      Ends o =
          cont_for_value (feed_all samples o.1).state
          ≡ (if leb (start + d) t || any_due d start samples then 1 else 0)

      early : ltb t start ≡ true → leb (start + d) t ≡ false
      early e = ground arith

      due : ltb t start ≡ false → leb d (t - start) ≡ true → leb (start + d) t ≡ true
      due late e = ground arith

      not_due : ltb t start ≡ false → leb d (t - start) ≡ false → leb (start + d) t ≡ false
      not_due late e = ground arith

low-idle :
    (low t : ℕ) (p : ContForPolicy)
    → leb low p.threshold ≡ true
    → (feed_cont_for low t p).1 ≡ record p { state = idle; crossed_at = 0 }
unfolding feed_cont_for
low-idle low t p e = rw e

over-pending :
    (v start : ℕ) (p : ContForPolicy)
    → leb v p.threshold ≡ false
    → (feed_cont_for v start (record p { state = idle; crossed_at = 0 })).1
      ≡ record p { state = pending; crossed_at = start }
unfolding feed_cont_for
over-pending v start p e = rw e

-- A policy of duration d in any state, fed a sample not above its threshold, then one above it at
-- time start, then samples all above it at whatever times, is in alert exactly when one of the last
-- came at start + d or later.
pub feed_all-alert :
    (p : ContForPolicy) (low v start t : ℕ) (samples : List (ℕ × ℕ))
    → low ≤ p.threshold
    → p.threshold < v
    → AllAbove p.threshold samples
    → cont_for_value (feed_all ((low, t) ∷ (v, start) ∷ samples) p).state
      ≡ (if any_due p.duration start samples then 1 else 0)
unfolding feed_all
feed_all-alert p low v start t samples h k above =
    ap (λ q. cont_for_value (feed_all ((v, start) ∷ samples) q).state)
      (low-idle low t p (ground arith))
    ∙ (ap (λ q. cont_for_value (feed_all samples q).state) (over-pending v start p (ground arith))
        ∙ pending-value p.threshold p.duration start samples above)
