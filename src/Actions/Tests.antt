-- ===== src/Actions/Tests.antt =====
-- The theorems on actions at a small controller: its context is a clock, it is a flag that tells
-- whether it has loaded, and a future is the time at which it ends.
use sqa.Base.{
  ℕ, suc, ◌+◌, ◌-◌, ◌≤◌, ◌<◌, ◌≡◌, ◌≢◌, refl, Bool, true, false, none, some, [], done, panic, ok,
  arith, leb, if◌then◌else◌,
}
use sqa.Duration.{total, new}
use sqa.AsyncResult.{AsyncResult, Polled, not_waiting}
use sqa.AsyncResult
use sqa.Actions.{ActionParameters, PlaybackState}
use sqa.Actions.Durations.{DurationInfoInt, to_info}
use sqa.Actions.Controller.{ActionController, Surroundings}
use sqa.Actions.Action
use sqa.Actions.Action.{Action, load, poll, next_delay, new_action}
use sqa.Actions.Execute.{execute, execute_loop, state_change, resume_time}
use sqa.Actions.Loading.{Loads, load-Loads}
use sqa.Actions.Executing.{Executes}
use sqa.Actions.Lifecycle.{execute-ends, execute-Executes}
use sqa.Actions.Timing.{resume_time-to_info}
use sqa.Actions.Changes.{Changed, state_change-Changed}

abbrev silence : ActionParameters
silence =
    ActionParameters.audio (record { url = none; chans = []; master_vol = 0; waveform_uuid = none })

abbrev flag : ActionController ℕ Bool ℕ
flag = record {
  desc = λ c s. done "flag";
  verify_params = λ c s. [];
  load = λ c s uu. done (true, s, ok true);
  poll = λ c s uu. done (c, s, false);
  execute = λ c time s uu. done (c, s, ok false);
  pause = λ c s uu. done (c, s, c);
  reset = λ c s uu. done (false, s);
  duration_info = λ c s. done none;
  accept_audio_message = λ c m s uu. done (c, s, false);
  get_params = λ c. silence;
  set_params = λ c p s uu. done (c, s, ok tt);
}

abbrev clock : Surroundings ℕ ℕ
clock = record {
  now = λ s. s;
  new_timeout = λ s d. done (s + total d);
  poll_timeout = λ s f. if leb f s then Polled.ready (ok tt) else Polled.not_ready f;
  register_interest = λ s uu. s;
  debug = λ st. "state";
}

abbrev fresh : Action Bool ℕ
fresh = record {
  state = PlaybackState.inactive;
  ctl = false;
  meta = record { name = none; prewait = record { secs = 2; nanos = 0 }; number = none };
  timeout = AsyncResult.empty;
  uu = 4;
  start_asap = false;
}

abbrev ready_to_go : Action Bool ℕ
ready_to_go = record fresh { ctl = true; state = PlaybackState.loaded }

abbrev going : Action Bool ℕ
going = record fresh {
  ctl = true;
  state = PlaybackState.active none;
  timeout = AsyncResult.waiting 1000000010;
}

load-fresh : load flag clock fresh 10 ≡ done (ready_to_go, 10, ok tt)
unfolding load
load-fresh = refl

execute-fresh : execute flag clock 10 fresh 10 ≡ done (some (going, 10, ok tt))
unfolding execute load AsyncResult.poll
execute-fresh = refl

load-Loads_example : Loads flag clock PlaybackState.inactive fresh 10 ready_to_go 10 (ok tt)
load-Loads_example = load-Loads flag clock fresh ready_to_go 10 10 (ok tt) load-fresh

execute-ends_example :
    (execute flag clock 10 fresh 10 ≢ done none)
    × ((n : ℕ) → execute_loop flag clock (suc (suc n)) 10 fresh 10 ≡ execute flag clock 10 fresh 10)
execute-ends_example = execute-ends flag clock 10 fresh 10

execute-Executes_example : Executes flag clock PlaybackState.inactive 10 fresh 10 going 10 (ok tt)
execute-Executes_example = execute-Executes flag clock fresh going 10 10 10 (ok tt) execute-fresh

stop-going :
    state_change flag clock going PlaybackState.inactive 11
    ≡ done (record going { ctl = false; state = PlaybackState.inactive }, 11, ok tt)
unfolding state_change Action.reset
stop-going = refl

state_change-Changed_example :
    Changed flag clock true going PlaybackState.inactive 11
      (record going { ctl = false; state = PlaybackState.inactive }, 11, ok tt)
state_change-Changed_example =
    state_change-Changed flag clock PlaybackState.inactive going
      (record going { ctl = false; state = PlaybackState.inactive }) 11 11 (ok tt) stop-going

-- Started at three seconds and paused at five.
abbrev played : DurationInfoInt
played = record {
  duration = record { secs = 2; nanos = 0 };
  start_time = 3000000000;
  est_duration = none;
}

played-total : total (to_info played 5000000000).elapsed ≡ 2000000000
unfolding to_info new
played-total = refl

resume_time-to_info_example :
    (5000000000 < played.start_time
      → resume_time 9000000000 (to_info played 5000000000)
        ≡ done (9000000000 + (played.start_time - 5000000000)))
    × (played.start_time ≤ 5000000000
        → total played.duration ≤ 9000000000
        → (start : ℕ) × (resume_time 9000000000 (to_info played 5000000000) ≡ done start)
          × (start + total played.duration ≡ 9000000000))
    × (played.start_time ≤ 5000000000
        → 9000000000 < total played.duration
        → resume_time 9000000000 (to_info played 5000000000) ≡ panic)
resume_time-to_info_example =
    resume_time-to_info played 5000000000 9000000000 (omega (arith, played-total))
