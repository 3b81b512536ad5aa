-- ===== src/TimerManager/Timeout.antt =====
-- The wait that is given to `select`.
use cpp_tlfss.Base.{
  leb, if-keeps, ℕ, ◌+◌, ◌-◌, ◌*◌, ◌/◌, ◌%◌, ◌≤◌, ◌<◌, max, ◌≡◌, true, false, arith,
}
use cpp_tlfss.TimerManager.Types.{Timeval}
use cpp_tlfss.TimerManager.Manager.{
  microsecond, microseconds_per_second, ceil_microseconds, set_timeout_until,
}

abbrev pub waited : Timeval → ℕ
waited t = (t.tv_sec * microseconds_per_second + t.tv_usec) * microsecond

-- The wait is normalised, ends no earlier than the deadline and less than a microsecond after it.
pub record Waits (deadline now : ℕ) (t : Timeval) : Type 0 where
  pub normal : t.tv_usec < microseconds_per_second
  pub reaches : deadline ≤ now + waited t
  pub close : now + waited t < max deadline now + microsecond

rounds_up : (ns : ℕ) → ns ≤ ceil_microseconds ns * microsecond
rounds_up ns = omega arith

rounds_little : (ns : ℕ) → ceil_microseconds ns * microsecond < ns + microsecond
rounds_little ns = omega arith

-- For every deadline and reading of the clock the timeout that is set has microseconds below a
-- million, does not end before the deadline, and ends less than a microsecond after it or, for a
-- deadline in the past, after the reading.
pub set_timeout_until-Waits :
    (deadline now : ℕ) → Waits deadline now (set_timeout_until deadline now)
unfolding set_timeout_until
set_timeout_until-Waits deadline now =
    if-keeps (Waits deadline now) (leb deadline now)
      (λ h.
        let k = past deadline now h in
        record { normal = omega arith; reaches = omega arith; close = omega arith })
      (λ h.
        let k = ahead deadline now h in
        let total = ceil_microseconds (deadline - now) in
        let up = rounds_up (deadline - now) in
        let little = rounds_little (deadline - now) in
        let whole = divided total in
        record { normal = omega arith; reaches = omega arith; close = omega arith })
  where
    past : (d n : ℕ) → leb d n ≡ true → d ≤ n
    past d n h = ground arith

    ahead : (d n : ℕ) → leb d n ≡ false → n < d
    ahead d n h = ground arith

    divided :
        (n : ℕ)
        → (n / microseconds_per_second) * microseconds_per_second + n % microseconds_per_second ≡ n
    divided n = omega arith
