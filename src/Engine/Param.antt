-- ===== src/Engine/Param.antt =====
-- Parameters that change over time (sqa-engine/src/param.rs).
use sqa.Base.{
  ℕ, ◌+◌, ◌^◌, ◌<◌, ◌≤◌, ◌≡◌, refl, arith, panic, ◌-◌, ◌/◌, ◌%◌, Bool, true, false, ◌||◌, not,
  Outcome, done, ◌>>=◌, ltb, leb, ◌==◌, if◌then◌else◌,
}
use sqa.Base.Float.{F32, FloatOps}
use sqa.Base.Words.{add_u64, mul_u64, sub_u64}
use sqa.Duration.{Duration, new, total, one_second}
use sqa.Engine.{one_second_in_nanoseconds}

-- The cells of a fade, which its clones share.
pub record FadeCells : Type 0 where
  pub start_time : ℕ
  pub duration : ℕ
  pub active : Bool

-- `cells` and `id_ptr` are locations.
pub record FadeDetails : Type 0 where
  pub from : F32
  pub delta : F32
  pub cells : ℕ
  pub id_ptr : ℕ

pub data Parameter : Type 0 where
  raw : F32 → Parameter
  timed_raw : F32 → ℕ → F32 → Parameter
  linear_fade : FadeDetails → Parameter

-- The cells of a new fade.
abbrev pub new_cells : FadeCells
new_cells = record { start_time = 0; duration = 0; active = false }

-- A fade with new cells at the location `cells`.
unfoldable pub new_with_id : FloatOps → F32 → F32 → ℕ → ℕ → FadeDetails
new_with_id f from to id_ptr cells = record {
  from = from;
  delta = f.sub to from;
  cells = cells;
  id_ptr = id_ptr;
}

unfoldable pub set_start_time : FadeCells → ℕ → FadeCells
set_start_time c st = record c { start_time = st }

unfoldable pub set_active : FadeCells → Bool → FadeCells
set_active c active = record c { active = active }

unfoldable pub start_from_time : FadeCells → ℕ → FadeCells
unfolding set_start_time set_active
start_from_time c ti = set_active (set_start_time c ti) true

unfoldable pub set_duration_nanos : FadeCells → ℕ → FadeCells
set_duration_nanos c st = record c { duration = st }

unfoldable pub set_duration : FadeCells → Duration → Outcome FadeCells
unfolding set_duration_nanos
set_duration c dur = do
  secs_component ← mul_u64 dur.secs one_second_in_nanoseconds
  nanos ← add_u64 secs_component dur.nanos
  done (set_duration_nanos c nanos)

unfoldable pub duration : FadeCells → Duration
duration c = new (c.duration / one_second_in_nanoseconds) (c.duration % one_second_in_nanoseconds)

unfoldable pub time_elapsed : FadeCells → ℕ → Outcome ℕ
time_elapsed c time = sub_u64 time c.start_time

unfoldable pub same_id_as : FadeDetails → FadeDetails → Bool
same_id_as a b = a.id_ptr == b.id_ptr

module _ (f : FloatOps) where
  unfoldable pub percentage_complete : FadeCells → ℕ → Outcome F32
  percentage_complete c time = do
    end ← add_u64 c.start_time c.duration
    done (
        if ltb end time
        then f.one_f
        else if leb time c.start_time || not c.active
        then f.zero_f
        else f.div (f.of_u64 (time - c.start_time)) (f.of_u64 c.duration))

  unfoldable pub handle_linear : FadeDetails → FadeCells → ℕ → Outcome F32
  unfolding percentage_complete
  handle_linear fd c time = do
    part ← percentage_complete c time
    done (f.add fd.from (f.mul fd.delta part))

  -- `cells` gives the cells at a location.
  unfoldable pub get : (ℕ → FadeCells) → Parameter → ℕ → Outcome F32
  unfolding handle_linear
  get cells (raw ret) time = done ret
  get cells (timed_raw now thresh before) time = done (if leb thresh time then now else before)
  get cells (linear_fade fd) time = handle_linear fd (cells fd.cells) time

-- A duration that is set is the one that is read, if its nanoseconds are below a second and the
-- whole fits a `u64`; otherwise setting it panics where the whole does not fit.
pub duration-set_duration :
    (c : FadeCells) (dur : Duration)
    → dur.nanos < one_second_in_nanoseconds
    → (total dur < 2 ^ 64
        → (c' : FadeCells) × (set_duration c dur ≡ done c')
          × (duration c' ≡ dur)
          × (c'.start_time ≡ c.start_time)
          × (c'.active ≡ c.active))
      × (2 ^ 64 ≤ total dur → set_duration c dur ≡ panic)
unfolding set_duration duration set_duration_nanos add_u64 mul_u64 new
duration-set_duration c dur h = (
  λ fits. (
    record c { duration = total dur },
    ground arith,
    λ i. record { secs = same_secs i; nanos = same_nanos i },
    refl,
    refl,
  ),
  λ large. ground arith,
)
  where
    same_secs : total dur / one_second + total dur % one_second / one_second ≡ dur.secs
    same_secs = omega arith

    same_nanos : total dur % one_second % one_second ≡ dur.nanos
    same_nanos = omega arith
