-- ===== src/Actions.antt =====
-- The data of actions (sqa-backend/src/actions/mod.rs, audio.rs and fade.rs): parameters, metadata,
-- playback states, and the durations that a state carries.
pub mod Durations
pub mod Controller
pub mod Action
pub mod Execute
pub mod Loading
pub mod Executing
pub mod Lifecycle
pub mod Timing
pub mod Changes
mod Tests
use sqa.Base.{ℕ, Bool, String, List, Option, none, some}
use sqa.Base.Float.{F32}
use sqa.Duration.{Duration}

pub record ParameterError : Type 0 where
  pub name : String
  pub message : String

pub record DurationInfo : Type 0 where
  pub elapsed : Duration
  pub pos : Bool
  pub est_duration : Option Duration

pub data PlaybackState : Type 0 where
  inactive : PlaybackState
  unverified : List ParameterError → PlaybackState
  loaded : PlaybackState
  loading : PlaybackState
  paused : Option DurationInfo → PlaybackState
  active : Option DurationInfo → PlaybackState
  errored : String → PlaybackState

pub record AudioChannel : Type 0 where
  pub patch : Option ℕ
  pub vol : F32

pub record AudioParams : Type 0 where
  pub url : Option String
  pub chans : List AudioChannel
  pub master_vol : F32
  pub waveform_uuid : Option ℕ

pub record FadeParams : Type 0 where
  pub target : Option ℕ
  pub fades : List (Bool × F32)
  pub fade_master : Bool × F32
  pub dur : Duration

pub data ActionParameters : Type 0 where
  audio : AudioParams → ActionParameters
  fade : FadeParams → ActionParameters

pub record ActionMetadata : Type 0 where
  pub name : Option String
  pub prewait : Duration
  pub number : Option String

pub record OpaqueAction : Type 0 where
  pub state : PlaybackState
  pub params : ActionParameters
  pub desc : String
  pub meta : ActionMetadata
  pub uu : ℕ

unfoldable pub display_name : OpaqueAction → String
display_name a = elim a.meta.name [ some name ↦ name | none ↦ a.desc ]

unfoldable pub params_typ : ActionParameters → String
params_typ (audio p) = "audio"
params_typ (fade p) = "fade"

unfoldable pub typ : OpaqueAction → String
unfolding params_typ
typ a = params_typ a.params
