-- ===== src/Actions/Durations.antt =====
-- Elapsed time (sqa-backend/src/actions/mod.rs). The reading of the clock is an argument.
use sqa.Base.{
  ℕ, ◌+◌, ◌-◌, ◌*◌, ◌/◌, ◌%◌, ◌≤◌, ◌<◌, ◌≡◌, Bool, true, false, Option, arith, ltb, leb,
  if◌then◌else◌,
}
use sqa.Duration.{Duration, new, total, one_second, total-new}
use sqa.Actions.{DurationInfo}

pub record DurationInfoInt : Type 0 where
  pub duration : Duration
  pub start_time : ℕ
  pub est_duration : Option Duration

unfoldable pub nanos_to_dur : ℕ → Duration
nanos_to_dur nanos = new (nanos / 1000000000) (nanos % 1000000000)

-- Half a second and more rounds up to the next second.
unfoldable pub rounded_duration : Bool → ℕ → ℕ → Duration
rounded_duration rounded secs ssn =
    if rounded then new (if leb 500000000 ssn then secs + 1 else secs) 0 else new secs ssn

-- `DurationInfo::elapsed`.
unfoldable pub info_elapsed : DurationInfo → Bool → Duration × Bool
unfolding rounded_duration
info_elapsed d rounded = (rounded_duration rounded d.elapsed.secs d.elapsed.nanos, d.pos)

-- `DurationInfoInt::elapsed`: before the start it is the time left, with `false`.
unfoldable pub elapsed : DurationInfoInt → ℕ → Bool → Duration × Bool
unfolding rounded_duration
elapsed d now rounded =
    if ltb now d.start_time
    then (
      rounded_duration rounded ((d.start_time - now) / 1000000000)
          ((d.start_time - now) % 1000000000),
      false,
    )
    else (rounded_duration rounded d.duration.secs d.duration.nanos, true)

-- The conversion into a `DurationInfo`.
unfoldable pub to_info : DurationInfoInt → ℕ → DurationInfo
unfolding elapsed
to_info v now = record {
  elapsed = (elapsed v now false).0;
  pos = (elapsed v now false).1;
  est_duration = v.est_duration;
}

-- The conversion to a duration keeps the number of nanoseconds.
pub total-nanos_to_dur : (nanos : ℕ) → total (nanos_to_dur nanos) ≡ nanos
unfolding nanos_to_dur
total-nanos_to_dur nanos = omega (arith, total-new (nanos / 1000000000) (nanos % 1000000000))

-- Rounding goes to the nearest second, up at the half, and not rounding keeps the time.
pub rounded_duration_lem :
    (secs ssn : ℕ)
    → ssn < one_second
    → (total (rounded_duration false secs ssn) ≡ secs * one_second + ssn)
      × ((rounded_duration true secs ssn).nanos ≡ 0)
      × (secs * one_second + ssn ≤ total (rounded_duration true secs ssn) + 500000000)
      × (total (rounded_duration true secs ssn) ≤ secs * one_second + ssn + 500000000)
unfolding rounded_duration new
rounded_duration_lem secs ssn h = ground arith

-- Before its start an action reports the exact time left, from then on the time that its
-- controller counts; the sign tells which.
pub total-to_info :
    (v : DurationInfoInt) (now : ℕ)
    → (now < v.start_time
        → ((to_info v now).pos ≡ false) × (now + total (to_info v now).elapsed ≡ v.start_time))
      × (v.start_time ≤ now
          → ((to_info v now).pos ≡ true) × (total (to_info v now).elapsed ≡ total v.duration))
unfolding to_info new
total-to_info v now = ground arith
