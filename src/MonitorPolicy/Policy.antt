-- ===== src/MonitorPolicy/Policy.antt =====
-- The three policies, their factories and the calls of the virtual functions. Values are 32-bit
-- numbers; a time is a count of milliseconds since the clock's origin,
-- which is not negative.
use cpp_tlfss.Base.{
  ℕ, ◌+◌, ◌-◌, ◌/◌, ◌%◌, ◌^◌, Bool, true, false, not, ◌&&◌, Option, none, some, List, ltb, leb,
  ◌==◌, if◌then◌else◌, length, get_or, set, replicate,
}

-- A duration as it is given to a factory: `negsuc n` is less than zero.
pub data PolicyTime : Type 0 where
  pos : ℕ → PolicyTime
  negsuc : ℕ → PolicyTime

pub record PolicyFeedResult : Type 0 where
  pub noteworthy : Bool
  pub reported : ℕ

pub data ContForState : Type 0 where
  idle : ContForState
  pending : ContForState
  active : ContForState

pub record ContForPolicy : Type 0 where
  pub threshold : ℕ
  pub duration : ℕ
  pub state : ContForState
  pub crossed_at : ℕ

pub record TimesPerPeriodPolicy : Type 0 where
  pub limit : ℕ
  pub period : ℕ
  pub events : List ℕ
  pub event_count : ℕ
  pub event_head : ℕ
  pub alerting : Bool

pub record SmoothTrimPolicy : Type 0 where
  pub trim_threshold : ℕ
  pub samples : List ℕ
  pub sample_count : ℕ
  pub head : ℕ
  pub sum : ℕ
  pub average : ℕ

abbrev quiet : ℕ → PolicyFeedResult
quiet n = record { noteworthy = false; reported = n }

-- `ContForPolicy::feed`.
unfoldable pub feed_cont_for : ℕ → ℕ → ContForPolicy → PolicyFeedResult × ContForPolicy
feed_cont_for value now p =
    if leb value p.threshold
    then (quiet 0, record p { state = idle; crossed_at = 0 })
    else elim (p.state) [
      | idle ↦ (quiet 0, record p { state = pending; crossed_at = now })
      | pending ↦
          if ltb now p.crossed_at
          then (quiet 0, p)
          else if leb p.duration (now - p.crossed_at)
          then (record { noteworthy = true; reported = 1 }, record p { state = active })
          else (quiet 0, p)
      | active ↦ (quiet 1, p)
    ]

abbrev pub cont_for_value : ContForState → ℕ
cont_for_value active = 1
cont_for_value _ = 0

abbrev pub alert_value : Bool → ℕ
alert_value true = 1
alert_value false = 0

-- `TimesPerPeriodPolicy::feed`, its write of the event and of the indexes.
unfoldable pub record_event : ℕ → TimesPerPeriodPolicy → TimesPerPeriodPolicy
record_event now p = record p {
  events = set p.events p.event_head now;
  event_head = (p.event_head + 1) % length p.events;
  event_count = if ltb p.event_count (length p.events) then p.event_count + 1 else p.event_count;
}

-- Whether the window is full and its oldest event is recent enough.
unfoldable pub condition_met : ℕ → TimesPerPeriodPolicy → Bool
condition_met now p =
    if p.event_count == length p.events
    then (let oldest = get_or p.events p.event_head 0 in
        leb oldest now && leb (now - oldest) p.period)
    else false

unfoldable pub feed_times_per_period :
    ℕ → ℕ → TimesPerPeriodPolicy → PolicyFeedResult × TimesPerPeriodPolicy
unfolding record_event condition_met
feed_times_per_period value now p =
    if leb value p.limit then (quiet (alert_value p.alerting), p) else (
      record { noteworthy = met && not p.alerting; reported = alert_value met },
      record (record_event now p) { alerting = met },
    )
  where
    met : Bool
    met = condition_met now (record_event now p)

-- A sample replaces the oldest one; the sum is a 64-bit number.
unfoldable pub store_sample : ℕ → SmoothTrimPolicy → SmoothTrimPolicy
store_sample value p = record p {
  samples = set p.samples p.head value;
  sample_count =
      if ltb p.sample_count (length p.samples) then p.sample_count + 1 else p.sample_count;
  sum =
      if ltb p.sample_count (length p.samples)
      then (p.sum + value) % 2 ^ 64
      else ((p.sum + 2 ^ 64 - get_or p.samples p.head 0) % 2 ^ 64 + value) % 2 ^ 64;
  head = (p.head + 1) % length p.samples;
}

-- `SmoothTrimPolicy::feed`.
unfoldable pub feed_smooth_trim : ℕ → SmoothTrimPolicy → PolicyFeedResult × SmoothTrimPolicy
unfolding store_sample
feed_smooth_trim value p =
    if not (p.sample_count == 0) && ltb p.trim_threshold difference then (quiet p.average, p) else (
      record { noteworthy = not (new_average == p.average); reported = new_average },
      record (store_sample value p) { average = new_average },
    )
  where
    difference : ℕ
    difference = if leb p.average value then value - p.average else p.average - value

    new_average : ℕ
    new_average = ((store_sample value p).sum / (store_sample value p).sample_count) % 2 ^ 32

-- A `MonitorPolicy` of one of the derived classes.
pub data MonitorPolicy : Type 0 where
  cont_for : ContForPolicy → MonitorPolicy
  times_per_period : TimesPerPeriodPolicy → MonitorPolicy
  smooth_trim : SmoothTrimPolicy → MonitorPolicy

unfoldable pub feed : ℕ → ℕ → MonitorPolicy → PolicyFeedResult × MonitorPolicy
unfolding feed_cont_for feed_times_per_period feed_smooth_trim
feed value now (cont_for p) = let (r, p') = feed_cont_for value now p in (r, cont_for p')
feed value now (times_per_period p) =
    let (r, p') = feed_times_per_period value now p in (r, times_per_period p')
feed value now (smooth_trim p) = let (r, p') = feed_smooth_trim value p in (r, smooth_trim p')

-- The virtual function `value`.
abbrev pub policy_value : MonitorPolicy → ℕ
policy_value (cont_for p) = cont_for_value p.state
policy_value (times_per_period p) = alert_value p.alerting
policy_value (smooth_trim p) = p.average

unfoldable pub make_cont_for_policy : ℕ → PolicyTime → Option MonitorPolicy
make_cont_for_policy limit (negsuc _) = none
make_cont_for_policy limit (pos d) =
    some (cont_for (record { threshold = limit; duration = d; state = idle; crossed_at = 0 }))

unfoldable pub make_times_per_period_policy : ℕ → ℕ → PolicyTime → Option MonitorPolicy
make_times_per_period_policy threshold count (negsuc _) = none
make_times_per_period_policy threshold count (pos span) =
    if count == 0
    then none
    else some (
        times_per_period (record {
          limit = threshold;
          period = span;
          events = replicate count 0;
          event_count = 0;
          event_head = 0;
          alerting = false;
        }))

unfoldable pub make_smooth_trim_policy : ℕ → ℕ → Option MonitorPolicy
make_smooth_trim_policy window trim =
    if window == 0
    then none
    else some (
        smooth_trim (record {
          trim_threshold = trim;
          samples = replicate window 0;
          sample_count = 0;
          head = 0;
          sum = 0;
          average = 0;
        }))
