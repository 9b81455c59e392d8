-- ===== src/Actions/Execute.antt =====
-- Executing an action, the state changes that the rest of the program asks for, and the data that
-- clients see (sqa-backend/src/actions/mod.rs).
use sqa.Base.{
  ℕ, zero, suc, str_append, Bool, true, false, Option, none, some, Outcome, done, ◌>>=◌, Result, ok,
  err, if◌then◌else◌,
}
use sqa.Actions.{ActionParameters, ActionMetadata, PlaybackState, DurationInfo, OpaqueAction}
use sqa.Base.Words.{add_u64, sub_u64}
use sqa.Actions.Controller.{ActionController, Surroundings}
use sqa.Actions.Action.{Action, Returns, nanos_u64, load, reset, verify_params, start_timeout}

-- When an action that was paused started, as if it had not been paused.
unfoldable pub resume_time : ℕ → DurationInfo → Outcome ℕ
unfolding nanos_u64 add_u64 sub_u64
resume_time time dur = do
  delta ← nanos_u64 0 dur.elapsed
  if dur.pos then sub_u64 time delta else add_u64 time delta

module _ {S C M F : Type 0} (trait : ActionController S C M) (env : Surroundings S F) where
  -- An action that runs on registers for polling, with a timer of one second.
  unfoldable pub executed : Action C F → S → Result Bool → Outcome (Action C F × S)
  unfolding start_timeout
  executed a s (err e) = done (record a { state = PlaybackState.errored e }, s)
  executed a s (ok true) = done (record a { state = PlaybackState.inactive }, s)
  executed a s (ok false) = do
    let s' = env.register_interest s a.uu
    a' ← start_timeout trait env a s' (record { secs = 1; nanos = 0 })
    done (record a' { state = PlaybackState.active none }, s')

  -- The private `_execute`.
  unfoldable pub run_controller : Action C F → ℕ → S → Outcome (Action C F × S)
  unfolding executed
  run_controller a time s = do
    r ← trait.execute a.ctl time s a.uu
    executed (record a { ctl = r.0 }) r.1 r.2

  unfoldable pub run_at :
      Outcome ℕ → Action C F → S → Outcome (Option (Action C F × S × Result (Unit {0})))
  unfolding run_controller
  run_at time a s = do t ← time; r ← run_controller a t s; done (some (r.0, r.1, ok tt))

  unfoldable pub wrong_execute :
      Action C F → S → Outcome (Option (Action C F × S × Result (Unit {0})))
  wrong_execute a s = done (
      some (
        a,
        s,
        err (
            str_append
              "Wrong state for executing: expected Loading, Loaded, Inactive, or Active, found "
              (env.debug a.state)),
      ))

  -- A failed load ends the loop.
  unfoldable pub after_load :
      (Action C F → S → Outcome (Option (Action C F × S × Result (Unit {0}))))
      → Action C F × S × Result (Unit {0})
      → Outcome (Option (Action C F × S × Result (Unit {0})))
  after_load again (a, s, ok u) = again a s
  after_load again (a, s, err e) = done (some (a, s, err e))

  -- One round of the loop; `again` is the rest of it.
  unfoldable pub execute_state :
      PlaybackState
      → (Action C F → S → Outcome (Option (Action C F × S × Result (Unit {0}))))
      → ℕ
      → Action C F
      → S
      → Outcome (Option (Action C F × S × Result (Unit {0})))
  unfolding run_at wrong_execute after_load resume_time
  execute_state PlaybackState.loading again time a s =
      done (some (record a { start_asap = true }, s, ok tt))
  execute_state PlaybackState.loaded again time a s = run_at (nanos_u64 time a.meta.prewait) a s
  execute_state (PlaybackState.paused none) again time a s =
      run_at (nanos_u64 time a.meta.prewait) a s
  execute_state (PlaybackState.paused (some dur)) again time a s = run_at (resume_time time dur) a s
  execute_state (PlaybackState.active d) again time a s = done (some (a, s, ok tt))
  execute_state PlaybackState.inactive again time a s = load trait env a s >>= after_load again
  execute_state (PlaybackState.unverified es) again time a s = wrong_execute a s
  execute_state (PlaybackState.errored e) again time a s = wrong_execute a s

  -- The loop, on fuel: `none` means that it has not ended.
  unfoldable pub execute_loop :
      ℕ → ℕ → Action C F → S → Outcome (Option (Action C F × S × Result (Unit {0})))
  unfolding execute_state
  execute_loop zero time a s = done none
  execute_loop (suc fuel) time a s =
      execute_state a.state (λ b t. execute_loop fuel time b t) time a s

  -- Two rounds are enough.
  unfoldable pub execute :
      ℕ → Action C F → S → Outcome (Option (Action C F × S × Result (Unit {0})))
  unfolding execute_loop
  execute time a s = execute_loop 2 time a s

  unfoldable pub refuse_change :
      Action C F → S → PlaybackState → Returns trait env (Result (Unit {0}))
  refuse_change a s ps = done (
    a,
    s,
    err (
        str_append "A state change (to "
          (str_append (env.debug ps) (str_append ") cannot be made whilst " (env.debug a.state)))),
  )

  unfoldable pub wrong_change :
      Action C F → S → PlaybackState → Returns trait env (Result (Unit {0}))
  wrong_change a s ps = done (
    a,
    s,
    err (
        str_append "Wrong state change for "
          (str_append (env.debug a.state) (str_append ": " (env.debug ps)))),
  )

  -- A change of an action that is loading, loaded, active or paused.
  unfoldable pub change_running :
      Action C F → S → PlaybackState → Returns trait env (Result (Unit {0}))
  unfolding wrong_change
  change_running a s PlaybackState.inactive = do r ← reset trait env a s; done (r.0, r.1, ok tt)
  change_running a s (PlaybackState.unverified es) = wrong_change a s (PlaybackState.unverified es)
  change_running a s (PlaybackState.errored e) = wrong_change a s (PlaybackState.errored e)
  change_running a s PlaybackState.loaded =
      done (record a { state = PlaybackState.loaded }, s, ok tt)
  change_running a s PlaybackState.loading =
      done (record a { state = PlaybackState.loading }, s, ok tt)
  change_running a s (PlaybackState.paused d) =
      done (record a { state = PlaybackState.paused d }, s, ok tt)
  change_running a s (PlaybackState.active d) =
      done (record a { state = PlaybackState.active d }, s, ok tt)

  unfoldable pub change_from :
      PlaybackState → Action C F → S → PlaybackState → Returns trait env (Result (Unit {0}))
  unfolding refuse_change change_running
  change_from PlaybackState.inactive a s ps = refuse_change a s ps
  change_from (PlaybackState.unverified es) a s ps = refuse_change a s ps
  change_from (PlaybackState.errored e) a s ps = refuse_change a s ps
  change_from PlaybackState.loaded a s ps = change_running a s ps
  change_from PlaybackState.loading a s ps = change_running a s ps
  change_from (PlaybackState.paused d) a s ps = change_running a s ps
  change_from (PlaybackState.active d) a s ps = change_running a s ps

  -- A change to an error is always made.
  unfoldable pub state_change :
      Action C F → PlaybackState → S → Returns trait env (Result (Unit {0}))
  unfolding change_from
  state_change a (PlaybackState.errored e) s =
      done (record a { state = PlaybackState.errored e }, s, ok tt)
  state_change a PlaybackState.inactive s = change_from a.state a s PlaybackState.inactive
  state_change a (PlaybackState.unverified es) s =
      change_from a.state a s (PlaybackState.unverified es)
  state_change a PlaybackState.loaded s = change_from a.state a s PlaybackState.loaded
  state_change a PlaybackState.loading s = change_from a.state a s PlaybackState.loading
  state_change a (PlaybackState.paused d) s = change_from a.state a s (PlaybackState.paused d)
  state_change a (PlaybackState.active d) s = change_from a.state a s (PlaybackState.active d)

  -- It never fails, but the state is verified on the way.
  unfoldable pub get_data : Action C F → S → Outcome (Action C F × OpaqueAction)
  get_data a s = do
    a' ← verify_params trait env a s
    desc ← trait.desc a'.ctl s
    done (
      a',
      record {
        state = a'.state;
        params = trait.get_params a'.ctl;
        desc = desc;
        meta = a'.meta;
        uu = a'.uu;
      },
    )

  unfoldable pub set_params :
      Action C F → ActionParameters → S → Returns trait env (Result (Unit {0}))
  set_params a params s = do
    r ← trait.set_params a.ctl params s a.uu
    done (record a { ctl = r.0 }, r.1, r.2)

unfoldable pub set_uuid : {C F : Type 0} → Action C F → ℕ → Action C F
set_uuid a uu = record a { uu = uu }

unfoldable pub set_meta : {C F : Type 0} → Action C F → ActionMetadata → Action C F
set_meta a meta = record a { meta = meta }
