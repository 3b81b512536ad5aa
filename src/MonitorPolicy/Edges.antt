-- ===== src/MonitorPolicy/Edges.antt =====
-- What a policy reports against the value that it then has.
use cpp_tlfss.Base.{
  ℕ, ◌-◌, Bool, true, false, not, ◌&&◌, leb, ltb, ◌==◌, if◌then◌else◌, ◌≡◌, refl, arith, if-keeps,
}
use cpp_tlfss.MonitorPolicy.Policy.{
  PolicyFeedResult, ContForState, idle, pending, active, ContForPolicy, TimesPerPeriodPolicy,
  SmoothTrimPolicy, feed_cont_for, cont_for_value, alert_value, record_event, condition_met,
  feed_times_per_period, feed_smooth_trim, MonitorPolicy, cont_for, times_per_period, smooth_trim,
  feed, policy_value,
}

-- The changes of value that a policy is to point out: a rise of an alert, and any change of an
-- average.
unfoldable pub is_edge : MonitorPolicy → ℕ → ℕ → Bool
is_edge (cont_for _) before behind = (before == 0) && (behind == 1)
is_edge (times_per_period _) before behind = (before == 0) && (behind == 1)
is_edge (smooth_trim _) before behind = not (behind == before)

-- What holds of the reply of a policy of duration that was in state `s`.
ContForReports : ContForState → PolicyFeedResult × ContForPolicy → Type 0
ContForReports s o =
    (o.0.reported ≡ cont_for_value o.1.state)
    × (o.0.noteworthy ≡ (cont_for_value s == 0) && (cont_for_value o.1.state == 1))

cont_for-reply :
    (s : ContForState) (o : PolicyFeedResult × ContForPolicy)
    → o.0.reported ≡ cont_for_value o.1.state
    → o.0.noteworthy ≡ (cont_for_value s == 0) && (cont_for_value o.1.state == 1)
    → ContForReports s o
unfolding ContForReports
cont_for-reply s o e f = (e, f)

cont_for-replies :
    (value now : ℕ) (s : ContForState) (p : ContForPolicy)
    → ContForReports s (feed_cont_for value now (record p { state = s }))
unfolding feed_cont_for
cont_for-replies value now idle p =
    if-keeps (ContForReports idle) (leb value p.threshold) (λ _. cont_for-reply idle _ refl refl)
      (λ _. cont_for-reply idle _ refl refl)
cont_for-replies value now pending p =
    if-keeps (ContForReports pending) (leb value p.threshold)
      (λ _. cont_for-reply pending _ refl refl)
      (λ _.
        if-keeps (ContForReports pending) (ltb now p.crossed_at)
          (λ _. cont_for-reply pending _ refl refl)
          (λ _.
            if-keeps (ContForReports pending) (leb p.duration (now - p.crossed_at))
              (λ _. cont_for-reply pending _ refl refl) (λ _. cont_for-reply pending _ refl refl)))
cont_for-replies value now active p =
    if-keeps (ContForReports active) (leb value p.threshold)
      (λ _. cont_for-reply active _ refl refl) (λ _. cont_for-reply active _ refl refl)

rise :
    (met alerting : Bool)
    → met && not alerting ≡ (alert_value alerting == 0) && (alert_value met == 1)
rise true true = refl
rise true false = refl
rise false true = refl
rise false false = refl

no_rise : (b : Bool) → false ≡ (alert_value b == 0) && (alert_value b == 1)
no_rise true = refl
no_rise false = refl

-- The same for a policy of frequency.
FrequencyReports : Bool → PolicyFeedResult × TimesPerPeriodPolicy → Type 0
FrequencyReports before o =
    (o.0.reported ≡ alert_value o.1.alerting)
    × (o.0.noteworthy ≡ (alert_value before == 0) && (alert_value o.1.alerting == 1))

frequency-reply :
    (before : Bool) (o : PolicyFeedResult × TimesPerPeriodPolicy)
    → o.0.reported ≡ alert_value o.1.alerting
    → o.0.noteworthy ≡ (alert_value before == 0) && (alert_value o.1.alerting == 1)
    → FrequencyReports before o
unfolding FrequencyReports
frequency-reply before o e f = (e, f)

frequency-replies :
    (value now : ℕ) (p : TimesPerPeriodPolicy)
    → FrequencyReports p.alerting (feed_times_per_period value now p)
unfolding feed_times_per_period
frequency-replies value now p =
    if-keeps (FrequencyReports p.alerting) (leb value p.limit)
      (λ _. frequency-reply p.alerting _ refl (no_rise p.alerting))
      (λ _.
        frequency-reply p.alerting _ refl
          (rise (condition_met now (record_event now p)) p.alerting))

-- The same for an average.
AverageReports : ℕ → PolicyFeedResult × SmoothTrimPolicy → Type 0
AverageReports before o =
    (o.0.reported ≡ o.1.average) × (o.0.noteworthy ≡ not (o.1.average == before))

average-reply :
    (before : ℕ) (o : PolicyFeedResult × SmoothTrimPolicy)
    → o.0.reported ≡ o.1.average
    → o.0.noteworthy ≡ not (o.1.average == before)
    → AverageReports before o
unfolding AverageReports
average-reply before o e f = (e, f)

average-replies :
    (value : ℕ) (p : SmoothTrimPolicy) → AverageReports p.average (feed_smooth_trim value p)
unfolding feed_smooth_trim
average-replies value p =
    if-keeps (AverageReports p.average)
      (not (p.sample_count == 0)
        && ltb p.trim_threshold
            (if leb p.average value then value - p.average else p.average - value))
      (λ _. average-reply p.average _ refl (ground arith))
      (λ _. average-reply p.average _ refl refl)

-- Whatever the policy and the sample, the value that a feed reports is the value that the policy
-- then has, and the feed is noteworthy exactly at an edge: when an alert rises from 0 to 1, or when
-- an average changes.
pub feed-edge :
    (value now : ℕ) (p : MonitorPolicy)
    → ((feed value now p).0.reported ≡ policy_value (feed value now p).1)
      × ((feed value now p).0.noteworthy
          ≡ is_edge p (policy_value p) (policy_value (feed value now p).1))
unfolding feed is_edge ContForReports FrequencyReports AverageReports
feed-edge value now (cont_for p) = cont_for-replies value now p.state p
feed-edge value now (times_per_period p) = frequency-replies value now p
feed-edge value now (smooth_trim p) = average-replies value p
