-- ===== src/Actions/Controller.antt =====
-- The interfaces of an action (sqa-backend/src/actions/mod.rs): the trait `ActionController`, over
-- a type `C` of controllers, and what an action uses of its surroundings, over a type `S` of
-- contexts that an operation hands on. A future is of type `F`.
use sqa.Base.{ℕ, Bool, String, Option, List, Outcome, Result}
use sqa.Duration.{Duration}
use sqa.AsyncResult.{Polled}
use sqa.Actions.{ActionParameters, ParameterError, PlaybackState}
use sqa.Actions.Durations.{DurationInfoInt}

-- The message that a controller gets from the audio thread is of type `M`. The UUID is that of the
-- action, which the parameters of each call carry beside the context.
pub record ActionController (S C M : Type 0) : Type 0 where
  pub desc : C → S → Outcome String
  pub verify_params : C → S → List ParameterError
  pub load : C → S → ℕ → Outcome (C × S × Result Bool)
  pub poll : C → S → ℕ → Outcome (C × S × Bool)
  pub execute : C → ℕ → S → ℕ → Outcome (C × S × Result Bool)
  pub pause : C → S → ℕ → Outcome (C × S × Bool)
  pub reset : C → S → ℕ → Outcome (C × S)
  pub duration_info : C → S → Outcome (Option DurationInfoInt)
  pub accept_audio_message : C → M → S → ℕ → Outcome (C × S × Bool)
  pub get_params : C → ActionParameters
  -- Fails for parameters of another type.
  pub set_params : C → ActionParameters → S → ℕ → Outcome (C × S × Result (Unit {0}))

-- The clock does not move within one operation. A timer can fail to be made, as the event loop's
-- handle can be missing.
pub record Surroundings (S F : Type 0) : Type 0 where
  pub now : S → ℕ
  pub new_timeout : S → Duration → Outcome F
  pub poll_timeout : S → F → Polled (Unit {0}) F
  pub register_interest : S → ℕ → S
  -- The debug print of a state.
  pub debug : PlaybackState → String
