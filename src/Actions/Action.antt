-- ===== src/Actions/Action.antt =====
-- An action (sqa-backend/src/actions/mod.rs): a playback state over a controller. Each operation
-- takes the action and the context and returns both.
use sqa.Base.{
  ℕ, ◌+◌, ◌-◌, ◌*◌, ◌/◌, ◌%◌, str_append, Bool, true, false, Option, none, some, List, [], ◌∷◌,
  Outcome, done, ◌>>=◌, Result, ok, err, ltb, if◌then◌else◌,
}
use sqa.Duration.{Duration, new}
use sqa.AsyncResult.{AsyncResult, Polled}
use sqa.AsyncResult
use sqa.Actions.{ActionMetadata, ParameterError, PlaybackState, DurationInfo}
use sqa.Actions.Durations.{DurationInfoInt, to_info, elapsed}
use sqa.Base.Words.{add_u64, mul_u64}
use sqa.Actions.Controller.{ActionController, Surroundings}

pub record Action (C F : Type 0) : Type 0 where
  pub state : PlaybackState
  pub ctl : C
  pub meta : ActionMetadata
  pub timeout : AsyncResult (Unit {0}) F
  pub uu : ℕ
  pub start_asap : Bool

-- `Action::audio` and `Action::fade`, with the new controller and the new UUID.
unfoldable pub new_action : {C F : Type 0} → C → ℕ → Action C F
new_action ctl uu = record {
  state = PlaybackState.inactive;
  ctl = ctl;
  meta = record { name = none; prewait = record { secs = 0; nanos = 0 }; number = none };
  timeout = AsyncResult.empty;
  uu = uu;
  start_asap = false;
}

-- Seconds and nanoseconds as a `u64` of nanoseconds.
unfoldable pub nanos_u64 : ℕ → Duration → Outcome ℕ
unfolding add_u64 mul_u64
nanos_u64 start d = do
  sum ← add_u64 start d.nanos
  secs ← mul_u64 d.secs 1000000000
  add_u64 sum secs

-- The milliseconds until the next poll of an active action: just after the next full second.
unfoldable pub poll_delay : Duration × Bool → ℕ
poll_delay (d, pos) =
    let delta_millis = (if pos then 1000000000 - d.nanos else d.nanos) / 1000000 in
    if ltb delta_millis 500 then 1000 + delta_millis else delta_millis

abbrev pub map_info : ℕ → Option DurationInfoInt → Option DurationInfo
map_info now none = none
map_info now (some v) = some (to_info v now)

abbrev pub with_errors : List ParameterError → PlaybackState
with_errors [] = PlaybackState.inactive
with_errors (e ∷ es) = PlaybackState.unverified (e ∷ es)

module _ {S C M F : Type 0} (trait : ActionController S C M) (env : Surroundings S F) where
  -- What an operation with a result of type `X` returns.
  abbrev pub Returns : Type 0 → Type 0
  Returns X = Outcome (Action C F × S × X)

  unfoldable pub accept_audio_message : Action C F → M → S → Returns Bool
  accept_audio_message a msg s = do
    r ← trait.accept_audio_message a.ctl msg s a.uu
    done (record a { ctl = r.0 }, r.1, r.2)

  unfoldable pub verify_state : PlaybackState → Action C F → S → Outcome (Action C F)
  verify_state (PlaybackState.unverified es) a s =
      done (record a { state = with_errors (trait.verify_params a.ctl s) })
  verify_state PlaybackState.inactive a s =
      done (record a { state = with_errors (trait.verify_params a.ctl s) })
  verify_state (PlaybackState.active d) a s = do
    st ← trait.duration_info a.ctl s
    done (record a { state = PlaybackState.active (map_info (env.now s) st) })
  verify_state PlaybackState.loaded a s = done a
  verify_state PlaybackState.loading a s = done a
  verify_state (PlaybackState.paused d) a s = done a
  verify_state (PlaybackState.errored e) a s = done a

  unfoldable pub verify_params : Action C F → S → Outcome (Action C F)
  unfolding verify_state
  verify_params a s = verify_state a.state a s

  unfoldable pub loaded_state : Result Bool → PlaybackState
  loaded_state (ok true) = PlaybackState.loaded
  loaded_state (ok false) = PlaybackState.loading
  loaded_state (err e) = PlaybackState.errored e

  unfoldable pub wrong_load : Action C F → S → Returns (Result (Unit {0}))
  wrong_load a s = done (
    a,
    s,
    err (str_append "Wrong state for loading: expected Inactive, found " (env.debug a.state)),
  )

  unfoldable pub load_state : PlaybackState → Action C F → S → Returns (Result (Unit {0}))
  unfolding loaded_state wrong_load
  load_state PlaybackState.inactive a s = do
    r ← trait.load a.ctl s a.uu
    done (record a { ctl = r.0; state = loaded_state r.2 }, r.1, ok tt)
  load_state (PlaybackState.unverified es) a s = wrong_load a s
  load_state PlaybackState.loaded a s = wrong_load a s
  load_state PlaybackState.loading a s = wrong_load a s
  load_state (PlaybackState.paused d) a s = wrong_load a s
  load_state (PlaybackState.active d) a s = wrong_load a s
  load_state (PlaybackState.errored e) a s = wrong_load a s

  unfoldable pub load : Action C F → S → Returns (Result (Unit {0}))
  unfolding verify_params load_state
  load a s = do a' ← verify_params a s; load_state a'.state a' s

  -- The position of an active action when it is paused.
  unfoldable pub pause_info : PlaybackState → Action C F → S → Outcome (Option DurationInfo)
  pause_info (PlaybackState.active d) a s = do
    st ← trait.duration_info a.ctl s
    done (map_info (env.now s) st)
  pause_info PlaybackState.inactive a s = done none
  pause_info (PlaybackState.unverified es) a s = done none
  pause_info PlaybackState.loaded a s = done none
  pause_info PlaybackState.loading a s = done none
  pause_info (PlaybackState.paused d) a s = done none
  pause_info (PlaybackState.errored e) a s = done none

  unfoldable pub pause : Action C F → S → Outcome (Action C F × S)
  unfolding pause_info
  pause a s = do
    durinfo ← pause_info a.state a s
    r ← trait.pause a.ctl s a.uu
    done
        (record a { ctl = r.0; state = if r.2 then PlaybackState.paused durinfo else a.state }, r.1)

  unfoldable pub reset : Action C F → S → Outcome (Action C F × S)
  reset a s = do
    r ← trait.reset a.ctl s a.uu
    done (record a { ctl = r.0; state = PlaybackState.inactive }, r.1)

  abbrev pub poll_own : Action C F → S → Action C F
  poll_own a s = record a { timeout = (AsyncResult.poll (env.poll_timeout s) a.timeout).0 }

  -- A new timer, polled once.
  unfoldable pub start_timeout : Action C F → S → Duration → Outcome (Action C F)
  start_timeout a s d = do
    t ← env.new_timeout s d
    done (poll_own (record a { timeout = AsyncResult.waiting t }) s)

  unfoldable pub next_delay : ℕ → Option DurationInfoInt → ℕ
  unfolding poll_delay
  next_delay now none = 1000
  next_delay now (some dur) = poll_delay (elapsed dur now false)

  -- A timer that has run out starts again while the action is active.
  unfoldable pub poll_complete : PlaybackState → Action C F → S → Outcome (Action C F × Bool)
  unfolding start_timeout next_delay
  poll_complete (PlaybackState.active d) a s = do
    st ← trait.duration_info a.ctl s
    a' ←
        start_timeout a s
          (new (next_delay (env.now s) st / 1000) (next_delay (env.now s) st % 1000 * 1000000))
    done (a', true)
  poll_complete PlaybackState.inactive a s = done (record a { timeout = AsyncResult.empty }, false)
  poll_complete (PlaybackState.unverified es) a s =
      done (record a { timeout = AsyncResult.empty }, false)
  poll_complete PlaybackState.loaded a s = done (record a { timeout = AsyncResult.empty }, false)
  poll_complete PlaybackState.loading a s = done (record a { timeout = AsyncResult.empty }, false)
  poll_complete (PlaybackState.paused d) a s =
      done (record a { timeout = AsyncResult.empty }, false)
  poll_complete (PlaybackState.errored e) a s =
      done (record a { timeout = AsyncResult.empty }, false)

  unfoldable pub poll_timer :
      AsyncResult (Unit {0}) F → Action C F → S → Outcome (Action C F × Bool)
  unfolding poll_complete
  poll_timer (AsyncResult.result r) a s = poll_complete a.state a s
  poll_timer (AsyncResult.waiting f) a s = done (poll_own a s, true)
  poll_timer AsyncResult.empty a s = done (a, false)

  -- Whether to go on polling.
  unfoldable pub poll : Action C F → S → Returns Bool
  unfolding poll_timer AsyncResult.poll
  poll a s = do
    let b = poll_own a s
    t ← poll_timer b.timeout b s
    r ← trait.poll t.0.ctl s t.0.uu
    done (record t.0 { ctl = r.0 }, r.1, if t.1 then true else r.2)
