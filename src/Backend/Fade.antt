-- ===== src/Backend/Fade.antt =====
-- The controller of fades (sqa-backend/src/actions/fade.rs). What is only logged is left out.
pub mod Running
pub mod Checks
pub mod Frozen
pub mod Resume
pub mod Waiting
use sqa.Base.{
  ℕ, ◌+◌, ◌-◌, ◌/◌, ◌%◌, suc, zero, Bool, true, false, ◌&&◌, not, String, str_append, Option, none,
  some, List, [], ◌∷◌, ◌++◌, Outcome, done, panic, ◌>>=◌, Result, ok, err, unwrap, length,
  get_elem?, ltb, ◌==◌, if◌then◌else◌, replicate,
}
use sqa.Base.Float.{F32, FloatOps}
use sqa.Base.Words.{add_u64}
use sqa.Duration.{zero_duration}
use sqa.AsyncResult.{AsyncResult}
use sqa.AsyncResult
use sqa.ActionManager
use sqa.Actions.{FadeParams, ParameterError, PlaybackState}
use sqa.Actions.Action.{Action}
use sqa.Engine.Param.{
  Parameter, FadeDetails, new_cells, new_with_id, start_from_time, set_duration, same_id_as, get,
}
use sqa.Engine.Sender
use sqa.Engine.Sender.{Memory, update}
use sqa.Engine.Context.{PlainSender}
use sqa.Backend.{
  FadeController, FadeRunning, AudioController, ActionType, RunningData, Context, Crates, db_lin,
}
use sqa.Backend.Audio

module _ {F : Type 0} where
  abbrev pub new_controller : F32 → FadeController F
  new_controller zero_f = record {
    params = record {
      target = none;
      fades = [];
      fade_master = (false, zero_f);
      dur = zero_duration;
    };
    timeout = AsyncResult.empty;
    rd = none;
  }

abbrev pub volume_of : Bool → PlainSender → Memory → Parameter
volume_of true sdr m = Sender.master_volume sdr m
volume_of false sdr m = Sender.volume sdr m

abbrev pub set_volume_of : Bool → PlainSender → Memory → Parameter → Memory
set_volume_of true sdr m p = Sender.set_master_volume sdr m p
set_volume_of false sdr m p = Sender.set_volume sdr m p

-- The action that a fade is for, if it is an audio action.
abbrev pub audio_of :
    {X F : Type 0} → Option (Action (ActionType X F) F) → Option (AudioController X)
audio_of none = none
audio_of (some a) = elim a.ctl [ ActionType.audio t ↦ some t | ActionType.fade t ↦ none ]

-- The senders of the target, or why there are none.
abbrev pub target_senders :
    {X F : Type 0} → Option (Action (ActionType X F) F) → Result (List PlainSender)
target_senders none = err "Failed to get action"
target_senders (some a) = elim a.ctl [
  | ActionType.fade t ↦ err "Action was wrong type"
  | ActionType.audio t ↦ elim t.rd [
    | none ↦ err "Target isn't running or loaded"
    | some rd ↦ ok rd.senders
  ]
]

module _ {J X P F : Type 0} (k : Crates J X P F) where
  -- `_apply_fade_to_sdr`: the fade starts from the volume at the time `gt`; its cells are new.
  unfoldable pub apply_fade_to_sdr :
      Bool
      → F32
      → PlainSender
      → ℕ
      → ℕ
      → ℕ
      → FadeController F × Memory
      → Outcome (FadeController F × Memory)
  unfolding db_lin get new_with_id set_duration start_from_time update Sender.set_volume
      Sender.set_master_volume Sender.volume Sender.master_volume
  apply_fade_to_sdr master fade sdr idp time gt (c, m) = do
    vol ← get k.f m.fades (volume_of master sdr m) gt
    rd ← unwrap c.rd
    let fd = new_with_id k.f vol (db_lin k fade) idp m.next
    cells ← set_duration new_cells c.params.dur
    let m' = record m {
      fades = update m.fades m.next (start_from_time cells time);
      next = m.next + 1;
    }
    done (
      record c { rd = some (record rd { fd = fd }) },
      set_volume_of master sdr m' (Parameter.linear_fade fd),
    )

  -- The fades of the channels that are enabled; `i` counts them.
  unfoldable pub apply_fades :
      List (Bool × F32)
      → ℕ
      → List PlainSender
      → ℕ
      → ℕ
      → ℕ
      → FadeController F × Memory
      → Outcome (FadeController F × Memory)
  unfolding apply_fade_to_sdr
  apply_fades [] i senders idp time gt st = done st
  apply_fades ((enabled, fade) ∷ fades) i senders idp time gt st = do
    st' ←
        (if enabled
          then elim (get_elem? senders i) [
            | none ↦ done st
            | some sdr ↦ apply_fade_to_sdr false fade sdr idp time gt st
          ]
          else done st)
    apply_fades fades (suc i) senders idp time gt st'

  -- The clock is read again for the threshold.
  unfoldable pub freeze_fade :
      Bool → PlainSender → FadeDetails → ℕ → ℕ → Memory → Parameter → Outcome Memory
  unfolding get same_id_as add_u64 Sender.set_volume Sender.set_master_volume
  freeze_fade master sdr fd orig_t time m (Parameter.raw r) = done m
  freeze_fade master sdr fd orig_t time m (Parameter.timed_raw now thresh before) = done m
  freeze_fade master sdr fd orig_t time m (Parameter.linear_fade g) =
      if same_id_as g fd
      then (do
        val ← get k.f m.fades (Parameter.linear_fade g) time
        before ← get k.f m.fades (Parameter.linear_fade g) orig_t
        thresh ← add_u64 (k.later time) 1
        done (set_volume_of master sdr m (Parameter.timed_raw val thresh before)))
      else done m

  -- A volume that this fade moves stays at its value from the threshold on, and goes back to where
  -- the fade started for whoever asks about the time before.
  unfoldable pub freeze_sdr : Bool → PlainSender → FadeDetails → ℕ → ℕ → Memory → Outcome Memory
  unfolding freeze_fade Sender.volume Sender.master_volume
  freeze_sdr master sdr fd orig_t time m =
      freeze_fade master sdr fd orig_t time m (volume_of master sdr m)

  unfoldable pub freeze_each : ℕ → List PlainSender → FadeDetails → ℕ → ℕ → Memory → Outcome Memory
  unfolding freeze_sdr
  freeze_each i [] fd orig_t time m = done m
  freeze_each i (sdr ∷ senders) fd orig_t time m = do
    m' ← (if i == 0 then freeze_sdr true sdr fd orig_t time m else done m)
    m'' ← freeze_sdr false sdr fd orig_t time m'
    freeze_each (suc i) senders fd orig_t time m''

  abbrev pub freeze_found :
      Context J X P F
      → FadeRunning
      → Result (List PlainSender)
      → Outcome (Context J X P F × Result (Unit {0}))
  freeze_found s rd (err e) = done (s, err e)
  freeze_found s rd (ok senders) = do
    m ← freeze_each 0 senders rd.fd rd.start_time s.now (Audio.memory s)
    done (Audio.with_memory s m, ok tt)

  unfoldable pub freeze_sdrs :
      FadeController F → Context J X P F → Outcome (Context J X P F × Result (Unit {0}))
  unfolding freeze_each ActionManager.get Audio.memory Audio.with_memory
  freeze_sdrs c s = elim c.rd [
    | none ↦ done (s, ok tt)
    | some rd ↦ unwrap rd.params.target >>= λ target.
        freeze_found s rd (target_senders (ActionManager.get s.actions target))
  ]

  -- One fade for each channel of the target that the controller had before.
  unfoldable pub fit_fades : List (Bool × F32) → Option (AudioController X) → List (Bool × F32)
  fit_fades fades none = fades
  fit_fades fades (some t) =
      if ltb (length fades) (length t.params.chans)
      then fades ++ replicate (length t.params.chans - length fades) (false, k.f.zero_f)
      else fades

  unfoldable pub fit_target : Context J X P F → List (Bool × F32) → Option ℕ → List (Bool × F32)
  unfolding fit_fades ActionManager.get
  fit_target s fades none = fades
  fit_target s fades (some target) = fit_fades fades (audio_of (ActionManager.get s.actions target))

  unfoldable pub set_params :
      FadeController F → FadeParams → Context J X P F → FadeController F × Context J X P F
  unfolding fit_target
  set_params c p s =
      (record c { params = record p { fades = fit_target s p.fades c.params.target } }, s)

  -- The description of the target is made even where its name is used.
  unfoldable pub named : Option (Action (ActionType X F) F) → Outcome String
  unfolding Audio.desc
  named none = done "Fade [invalid]"
  named (some a) = elim a.ctl [
    | ActionType.fade t ↦ done "Fade [invalid]"
    | ActionType.audio t ↦ Audio.desc k t >>= λ desc.
        done (str_append "Fade " (elim a.meta.name [ none ↦ desc | some name ↦ name ]))
  ]

  unfoldable pub desc : FadeController F → Context J X P F → Outcome String
  unfolding named ActionManager.get
  desc c s = elim c.params.target [
    | none ↦ done "Fade [invalid]"
    | some target ↦ named (ActionManager.get s.actions target)
  ]

  -- The fold over the fades.
  unfoldable pub fold_fades : Bool → List (Bool × F32) → Bool
  fold_fades acc [] = acc
  fold_fades acc ((enabled, fade) ∷ fades) =
      fold_fades (if enabled && not acc then true else acc) fades

  abbrev pub type_errors : ActionType X F → List ParameterError
  type_errors (ActionType.audio t) = []
  type_errors (ActionType.fade t) =
      Audio.parameter_error k "target" "You must target an audio action." ∷ []

  abbrev pub action_errors : Option (Action (ActionType X F) F) → List ParameterError
  action_errors none = Audio.parameter_error k "target" "No action with that UUID is present." ∷ []
  action_errors (some a) = type_errors a.ctl

  unfoldable pub target_errors : Context J X P F → Option ℕ → List ParameterError
  unfolding ActionManager.get
  target_errors s none = Audio.parameter_error k "target" "No target is specified." ∷ []
  target_errors s (some target) = action_errors (ActionManager.get s.actions target)

  unfoldable pub fades_errors : FadeParams → List ParameterError
  unfolding fold_fades
  fades_errors p =
      if not p.fade_master.0 && fold_fades true p.fades
      then Audio.parameter_error k "fades" "Nothing is being faded." ∷ []
      else []

  unfoldable pub verify_params : FadeController F → Context J X P F → List ParameterError
  unfolding target_errors fades_errors
  verify_params c s = target_errors s c.params.target ++ fades_errors c.params
