-- ===== src/Backend/Fade/Waiting.antt =====
-- How long a fade waits.
use sqa.Base.{
  ℕ, ◌+◌, ◌-◌, ◌/◌, ◌%◌, ◌^◌, ◌≤◌, ◌<◌, ◌≡◌, refl, Bool, true, false, done, arith, ltb,
  ltb-false→le, if◌then◌else◌, Bool-cases, inl, inr,
}
use sqa.Duration.{
  Duration, new, total, zero_duration, one_second, add_duration, less, total-new, nanos-new-lt,
  less_iff, total-sub_duration,
}
use sqa.Backend.Fade.Running.{apart, rest_of, wait_time}

-- The wait that ends the fade on time.
abbrev pub OnTime : ℕ → ℕ → Duration → Duration → Type 0
OnTime time now dur w =
    (time + total dur ≤ now → total w ≡ 0)
    × (now ≤ time + total dur → now + total w ≡ time + total dur)

total-apart : (delta : ℕ) → total (apart delta) ≡ delta
total-apart delta = omega (arith, total-new (delta / 1000000000) (delta % 1000000000))

nanos-apart : (delta : ℕ) → (apart delta).nanos < one_second
nanos-apart delta = nanos-new-lt (delta / 1000000000) (delta % 1000000000)

total-add_duration :
    (a b : Duration)
    → total a + total b < 2 ^ 64
    → (d : Duration) × (add_duration a b ≡ done d) × (total d ≡ total a + total b)
unfolding add_duration new
total-add_duration a b h = (new (a.secs + b.secs) (a.nanos + b.nanos), ground arith, omega arith)

rest_lem :
    (time now : ℕ) (dur : Duration)
    → dur.nanos < one_second
    → time ≤ now
    → (over : Bool) → less dur (apart (now - time)) ≡ over
    → (w : Duration) × (rest_of over dur (apart (now - time)) ≡ done w) × OnTime time now dur w
rest_lem time now dur h le true l =
    let lt = (less_iff dur (apart (now - time)) h (nanos-apart (now - time))).0 l in
    let t = total-apart (now - time) in (zero_duration, refl, (λ o. refl, λ o. ground arith))
rest_lem time now dur h le false l =
    let le' = (less_iff dur (apart (now - time)) h (nanos-apart (now - time))).1 l in
    let (w, p, q) = total-sub_duration dur (apart (now - time)) h (nanos-apart (now - time)) le' in
    let t = total-apart (now - time) in (w, p, (λ o. ground arith, λ o. ground arith))

-- The timer of a fade runs until its end: from now on it waits for what is left until the start plus
-- the duration, or not at all if that has passed, where the end fits into a `u64` of nanoseconds.
pub wait_time_lem :
    (time now : ℕ) (dur : Duration)
    → dur.nanos < one_second
    → time + total dur < 2 ^ 64
    → (w : Duration) × (wait_time time now dur ≡ done w) × OnTime time now dur w
unfolding wait_time
wait_time_lem time now dur h fits = elim (Bool-cases (ltb now time)) [
  | inl e ↦
      let (w, p, q) =
        total-add_duration dur (apart (time - now)) (ground (arith, total-apart (time - now))) in
      (
        w,
        rw (e, if◌then◌else◌) p,
        (
          λ o. ground (arith, total-apart (time - now)),
          λ o. ground (arith, total-apart (time - now)),
        ),
      )
  | inr e ↦
      let (w, p, q) =
        rest_lem time now dur h (ltb-false→le now time e) (less dur (apart (now - time))) refl in
      (w, rw (e, if◌then◌else◌) p, q)
]
