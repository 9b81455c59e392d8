-- ===== src/Duration.antt =====
-- `std::time::Duration`: seconds, and the nanoseconds below one second.
use sqa.Base.{
  ℕ, ◌+◌, ◌-◌, ◌*◌, ◌/◌, ◌%◌, ◌^◌, ◌<◌, ◌≤◌, ◌≡◌, arith, Bool, true, false, Outcome, done, panic,
  ltb, leb, ◌==◌, if◌then◌else◌, inl, inr, Bool-cases,
}

pub record Duration : Type 0 where
  pub secs : ℕ
  pub nanos : ℕ

abbrev pub one_second : ℕ
one_second = 1000000000

-- `Duration::new` carries whole seconds over from the nanoseconds.
unfoldable pub new : ℕ → ℕ → Duration
new secs nanos = record { secs = secs + nanos / one_second; nanos = nanos % one_second }

abbrev pub zero_duration : Duration
zero_duration = record { secs = 0; nanos = 0 }

-- The value in nanoseconds.
abbrev pub total : Duration → ℕ
total d = d.secs * one_second + d.nanos

pub total-new : (secs nanos : ℕ) → total (new secs nanos) ≡ secs * one_second + nanos
unfolding new
total-new secs nanos = omega arith

pub nanos-new-lt : (secs nanos : ℕ) → (new secs nanos).nanos < one_second
unfolding new
nanos-new-lt secs nanos = omega arith

-- The operators of durations: an overflow or an underflow is a panic.
unfoldable pub add_duration : Duration → Duration → Outcome Duration
unfolding new
add_duration a b =
    let sum = new (a.secs + b.secs) (a.nanos + b.nanos) in
    if ltb sum.secs (2 ^ 64) then done sum else panic

unfoldable pub less : Duration → Duration → Bool
less a b = if a.secs == b.secs then ltb a.nanos b.nanos else ltb a.secs b.secs

unfoldable pub sub_duration : Duration → Duration → Outcome Duration
unfolding less
sub_duration a b =
    if less a b
    then panic
    else if leb b.nanos a.nanos
    then done (record { secs = a.secs - b.secs; nanos = a.nanos - b.nanos })
    else done (record { secs = a.secs - b.secs - 1; nanos = a.nanos + one_second - b.nanos })

pub total-sub_duration :
    (a b : Duration)
    → a.nanos < one_second
    → b.nanos < one_second
    → total b ≤ total a
    → (d : Duration) × (sub_duration a b ≡ done d) × (total d ≡ total a - total b)
unfolding sub_duration less
total-sub_duration a b ha hb h = elim (Bool-cases (leb b.nanos a.nanos)) [
  | inl e ↦
      (record { secs = a.secs - b.secs; nanos = a.nanos - b.nanos }, ground arith, ground arith)
  | inr e ↦ (
    record { secs = a.secs - b.secs - 1; nanos = a.nanos + one_second - b.nanos },
    ground arith,
    ground arith,
  )
]

pub less_iff :
    (a b : Duration)
    → a.nanos < one_second
    → b.nanos < one_second
    → (less a b ≡ true → total a < total b) × (less a b ≡ false → total b ≤ total a)
unfolding less
less_iff a b ha hb = (λ e. ground arith, λ e. ground arith)
