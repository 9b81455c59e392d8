-- ===== src/Backend.antt =====
-- The state of the backend (sqa-backend/src/state.rs): the data of the controllers (actions/audio.rs
-- and actions/fade.rs), the context that all operations work on, and the crates.
pub mod Audio
pub mod Fade
pub mod Controllers
pub mod State
pub mod Undoable
pub mod Commands
pub mod Save
pub mod Waveforms
pub mod Events
pub mod Concrete
mod Tests
use sqa.Base.{
  ℕ, ◌+◌, suc, zero, Bool, true, false, String, Option, none, some, List, [], ◌∷◌, ◌++◌, Outcome,
  done, panic, Result, ok, err, get_elem?, set,
}
use sqa.Base.Float.{F32, FloatOps}
use sqa.Base.HashMap.{HashMap}
use sqa.Duration.{Duration, new}
use sqa.AsyncResult.{AsyncResult, Polled}
use sqa.Actions.{AudioParams, FadeParams, PlaybackState}
use sqa.Actions.Durations.{DurationInfoInt}
use sqa.Actions.Controller.{Surroundings}
use sqa.Actions.Action.{Action}
use sqa.ActionManager
use sqa.ActionManager.{ActionManager}
use sqa.Undo.{UndoContext}
use sqa.Waveform.{WaveformReply}
use sqa.Engine.{ArrayVec, Spsc}
use sqa.Engine.Param.{FadeDetails}
use sqa.Engine.Sync.{AudioThreadMessage}
use sqa.Engine.Thread.Players.{Player}
use sqa.Engine.Context.{Jack, PlainSender}
use sqa.Mixer.{MixerError}
use sqa.Mixer.Context.{MixerContext}
use sqa.Media.{ErrorKind, MediaResult}
use sqa.Spooler.{SpoolerContext, SpoolerMessage}

-- An audio file that is loaded: `control` is the number of the spooler's thread.
pub record RunningData : Type 0 where
  pub control : ℕ
  pub durinfo : DurationInfoInt
  pub senders : List PlainSender

-- The controller of an audio action; a file is of type `X`.
pub record AudioController (X : Type 0) : Type 0 where
  pub params : AudioParams
  pub rd : Option RunningData
  pub file : Option (MediaResult X)
  pub url : Option (Result String)

pub record FadeRunning : Type 0 where
  pub params : FadeParams
  pub start_time : ℕ
  pub fd : FadeDetails

-- The controller of a fade; a future is of type `F`.
pub record FadeController (F : Type 0) : Type 0 where
  pub params : FadeParams
  pub timeout : AsyncResult (Unit {0}) F
  pub rd : Option FadeRunning

pub data ActionType (X F : Type 0) : Type 0 where
  audio : AudioController X → ActionType X F
  fade : FadeController F → ActionType X F

pub data ServerMessage : Type 0 where
  audio_message : AudioThreadMessage Player → ServerMessage
  action_state_change : ℕ → PlaybackState → ServerMessage
  action_warning : ℕ → String → ServerMessage

-- A spooler's thread, as the main thread sees it: its channel's end is there while it runs, and the
-- channel ends where the controller drops its own.
pub record SpoolerThread (X : Type 0) : Type 0 where
  pub sctx : SpoolerContext X
  pub inbox : List SpoolerMessage
  pub running : Bool
  pub connected : Bool

-- The receiving end of a waveform's computation.
pub data Oneshot : Type 0 where
  pending : Oneshot
  arrived : Result WaveformReply → Oneshot
  dropped : Oneshot

pub record WaveformContext : Type 0 where
  pub active : HashMap Oneshot
  pub completed : HashMap WaveformReply

-- The context, with what the outside adds to it: the clock, the queue of internal messages, the
-- threads, and how many random UUIDs were drawn.
pub record Context (J X P F : Type 0) : Type 0 where
  pub mixer : MixerContext J
  pub media : P
  pub undo : UndoContext
  pub waveform : WaveformContext
  pub actions : ActionManager (Action (ActionType X F) F)
  -- Whether the sender and the handle are set.
  pub sender : Bool
  pub handle : Bool
  pub now : ℕ
  pub internal : List ServerMessage
  pub threads : List (SpoolerThread X)
  pub drawn : ℕ

-- The crates: those of the engine; the opening of files of type `X` by a media context of type `P`;
-- URLs and paths; arithmetic on floats; printing; random numbers; timers.
pub record Crates (J X P F : Type 0) : Type 1 where
  pub v : ArrayVec
  pub q : Spsc
  pub jack : Jack J
  pub f : FloatOps
  pub usize_max : ℕ
  pub open_media : P → String → P × MediaResult X
  pub channels : X → ℕ
  pub sample_rate : X → ℕ
  -- Fails for a negative duration, as does the position.
  pub file_duration : X → Option Duration
  -- The position of a stream, from its position in samples and its rate, by arithmetic on `f64`.
  pub position : ℕ → ℕ → Option Duration
  -- The scheme and the path of a URL.
  pub parse : String → Result (String × String)
  pub percent_decode : String → String
  pub file_name : String → Option String
  pub log10 : F32 → F32
  pub powf : F32 → F32 → F32
  pub ten_f : F32
  pub twenty_f : F32
  pub show : ℕ → String
  pub show_error : ErrorKind → String
  pub debug : PlaybackState → String
  pub show_mixer : MixerError → String
  pub new_v4 : ℕ → ℕ
  pub new_timer : ℕ → Duration → Result F
  -- What the clock reads at the end of a freeze that began at a time.
  pub later : ℕ → ℕ
  pub poll_timer : ℕ → F → Polled (Unit {0}) F

module _ {J X P F : Type 0} (k : Crates J X P F) where
  -- Converts a linear amplitude to decibels, and back.
  unfoldable pub lin_db : F32 → F32
  lin_db lin = k.f.mul (k.log10 lin) k.twenty_f

  unfoldable pub db_lin : F32 → F32
  db_lin db = k.powf k.ten_f (k.f.div db k.twenty_f)

  -- `n` new UUIDs.
  unfoldable pub draw : ℕ → ℕ → List ℕ
  draw zero from = []
  draw (suc n) from = k.new_v4 from ∷ draw n (suc from)

  abbrev timer_or_panic : Result F → Outcome F
  timer_or_panic (ok t) = done t
  timer_or_panic (err e) = panic

  -- A timer of an action; without a handle it is a panic.
  unfoldable pub new_timeout : Context J X P F → Duration → Outcome F
  new_timeout s d = elim s.handle [ false ↦ panic | true ↦ timer_or_panic (k.new_timer s.now d) ]

  abbrev pub surroundings : Surroundings (Context J X P F) F
  surroundings = record {
    now = λ s. s.now;
    new_timeout = new_timeout;
    poll_timeout = λ s t. k.poll_timer s.now t;
    register_interest = λ s uu. record s { actions = ActionManager.register_interest s.actions uu };
    debug = k.debug;
  }

module _ {J X P F : Type 0} where
  -- `IntSender::send`; the receiving end lives as long as the server.
  unfoldable pub send_internal : Context J X P F → ServerMessage → Context J X P F
  send_internal s msg = record s { internal = s.internal ++ msg ∷ [] }

  -- `ControllerParams::change_state`.
  unfoldable pub change_state : Context J X P F → ℕ → PlaybackState → Context J X P F
  unfolding send_internal
  change_state s uuid st = send_internal s (ServerMessage.action_state_change uuid st)

  unfoldable pub unregister_interest : Context J X P F → ℕ → Context J X P F
  unregister_interest s uuid = record s {
    actions = ActionManager.unregister_interest s.actions uuid;
  }

  -- A message for a spooler's thread; it fails where the thread has ended.
  unfoldable pub send_control : Context J X P F → ℕ → SpoolerMessage → Context J X P F × Bool
  send_control s control msg = elim (get_elem? s.threads control) [
    | none ↦ (s, false)
    | some t ↦ elim t.running [
      | false ↦ (s, false)
      | true ↦ (
        record s { threads = set s.threads control (record t { inbox = t.inbox ++ msg ∷ [] }) },
        true,
      )
    ]
  ]

  -- The sending end goes.
  unfoldable pub hang_up : Context J X P F → ℕ → Context J X P F
  hang_up s control = elim (get_elem? s.threads control) [
    | none ↦ s
    | some t ↦ record s { threads = set s.threads control (record t { connected = false }) }
  ]
