-- ===== src/Actions/Timing.antt =====
-- The times at which an action starts, resumes and is polled.
use sqa.Base.{
  ℕ, ◌+◌, ◌-◌, ◌^◌, ◌≤◌, ◌<◌, ◌≡◌, Bool, true, false, Option, none, some, done, >>=-eq-done, panic,
  arith, ap, ◌∙◌,
}
use sqa.Duration.{Duration, total, one_second, new}
use sqa.Actions.{DurationInfo}
use sqa.Actions.Durations.{DurationInfoInt, to_info, elapsed, total-to_info}
use sqa.Base.Words.{add_u64, mul_u64, sub_u64}
use sqa.Actions.Controller.{ActionController, Surroundings}
use sqa.Actions.Action.{nanos_u64, poll_delay, next_delay}
use sqa.Actions.Execute.{resume_time}

-- The sum does not overflow where its value fits.
pub nanos_u64_lem :
    (start : ℕ) (d : Duration)
    → start + total d < 2 ^ 64
    → nanos_u64 start d ≡ done (start + total d)
unfolding nanos_u64 add_u64 mul_u64
nanos_u64_lem start d h = ground arith

-- A start time that is computed without an overflow is the sum.
pub nanos_u64-total :
    (start t : ℕ) (d : Duration) → nanos_u64 start d ≡ done t → t ≡ start + total d
unfolding nanos_u64 add_u64 mul_u64
nanos_u64-total start t d e = ground arith

-- A start from a position: that long ago, or, where the position is before the start, in that time.
abbrev pub IsResumed : ℕ → DurationInfo → ℕ → Type 0
IsResumed time d start =
    (d.pos ≡ true → start + total d.elapsed ≡ time)
    × (d.pos ≡ false → start ≡ time + total d.elapsed)

pub resume_time-IsResumed :
    (time start : ℕ) (d : DurationInfo) → resume_time time d ≡ done start → IsResumed time d start
unfolding resume_time sub_u64 add_u64
resume_time-IsResumed time start d e =
    let (t, f, g) = >>=-eq-done (nanos_u64 0 d.elapsed) _ e in
    let same = nanos_u64-total 0 t d.elapsed f in
    (λ p. ground (arith, same, p), λ p. ground (arith, same, p))

-- The start time computed from a position.
resume_time_lem :
    (time : ℕ) (d : DurationInfo)
    → time + total d.elapsed < 2 ^ 64
    → (d.pos ≡ false → resume_time time d ≡ done (time + total d.elapsed))
      × (d.pos ≡ true → total d.elapsed ≤ time → resume_time time d ≡ done (time - total d.elapsed))
      × (d.pos ≡ true → time < total d.elapsed → resume_time time d ≡ panic)
unfolding resume_time add_u64 sub_u64
resume_time_lem time d h =
    let e = nanos_u64_lem 0 d.elapsed (omega arith) in
    (
      λ p. rw (e, p) (ground arith),
      λ p q. rw (e, p) (ground arith),
      λ p q. rw (e, p) (ground arith),
    )

-- Pausing at `now` and executing again at `time` keeps the position: an action that was to start
-- after `now` starts as long after `time`; one that had played for its duration gets a start time
-- that lies this long before `time`, and panics if the clock's value is smaller than that. The sum
-- of `time` and the position is assumed to fit a `u64`.
pub resume_time-to_info :
    (v : DurationInfoInt) (now time : ℕ)
    → time + total (to_info v now).elapsed < 2 ^ 64
    → (now < v.start_time → resume_time time (to_info v now) ≡ done (time + (v.start_time - now)))
      × (v.start_time ≤ now
          → total v.duration ≤ time
          → (start : ℕ) × (resume_time time (to_info v now) ≡ done start)
            × (start + total v.duration ≡ time))
      × (v.start_time ≤ now → time < total v.duration → resume_time time (to_info v now) ≡ panic)
resume_time-to_info v now time h =
    let (early, late) = total-to_info v now in
    let (a, b, c) = resume_time_lem time (to_info v now) h in
    (
      λ p. let (q, t) = early p in a q ∙ ap (λ (n : ℕ). done n) (omega arith),
      λ p f.
          let (q, t) = late p in
          (
            time - total v.duration,
            b q (omega arith) ∙ ap (λ (n : ℕ). done n) (omega arith),
            omega arith,
          ),
      λ p f. let (q, t) = late p in c q (omega arith),
    )

poll_delay_bounds :
    (d : Duration) (pos : Bool)
    → d.nanos < one_second
    → (500 ≤ poll_delay (d, pos)) × (poll_delay (d, pos) < 1500)
unfolding poll_delay
poll_delay_bounds d pos h = ground arith

nanos-elapsed : (v : DurationInfoInt) (now : ℕ) → (elapsed v now false).0.nanos < one_second
unfolding elapsed new
nanos-elapsed v now = ground arith

-- The delay after which an active action is polled again lies between half a second and one and a
-- half, whatever the controller reports.
pub next_delay_bounds :
    {S C M F : Type 0} (trait : ActionController S C M) (env : Surroundings S F) (now : ℕ)
    (st : Option DurationInfoInt)
    → (500 ≤ next_delay trait env now st) × (next_delay trait env now st < 1500)
unfolding next_delay
next_delay_bounds trait env now none = omega arith
next_delay_bounds trait env now (some v) =
    poll_delay_bounds (elapsed v now false).0 (elapsed v now false).1 (nanos-elapsed v now)
