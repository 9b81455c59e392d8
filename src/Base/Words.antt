-- ===== src/Base/Words.antt =====
-- Arithmetic on `u64` with overflow checks.
use Prim.Native.Nat.{ℕ, ◌+◌, ◌-◌, ◌*◌, ◌^◌, ◌≤◌, ◌<◌}
use mathlib.Core.Path.{◌≡◌}
use native.Mathlib.Omega.{arith}
use sqa.Base.Tests.{ltb, leb, if◌then◌else◌}
use sqa.Base.Panics.{Outcome, done, panic}

unfoldable pub add_u64 : ℕ → ℕ → Outcome ℕ
add_u64 a b = if ltb (a + b) (2 ^ 64) then done (a + b) else panic

unfoldable pub mul_u64 : ℕ → ℕ → Outcome ℕ
mul_u64 a b = if ltb (a * b) (2 ^ 64) then done (a * b) else panic

unfoldable pub sub_u64 : ℕ → ℕ → Outcome ℕ
sub_u64 a b = if leb b a then done (a - b) else panic

-- Where the result fits.
pub add_u64-done : (a b : ℕ) → a + b < 2 ^ 64 → add_u64 a b ≡ done (a + b)
unfolding add_u64
add_u64-done a b h = ground arith

pub mul_u64-done : (a b : ℕ) → a * b < 2 ^ 64 → mul_u64 a b ≡ done (a * b)
unfolding mul_u64
mul_u64-done a b h = ground arith

pub sub_u64-done : (a b : ℕ) → b ≤ a → sub_u64 a b ≡ done (a - b)
unfolding sub_u64
sub_u64-done a b h = ground arith
