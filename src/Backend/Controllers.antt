-- ===== src/Backend/Controllers.antt =====
-- The two controllers behind one interface (sqa-backend/src/actions/mod.rs: `ActionType`, the macro
-- `action!` and `Action::set_params`), and the actions over it.
use sqa.Base.{
  ℕ, ◌+◌, String, str_append, str_eq, Option, List, Outcome, done, ◌>>=◌, Result, ok, err, true,
  false, Bool, if◌then◌else◌,
}
use sqa.Actions.{ActionParameters, ParameterError}
use sqa.Actions.Durations.{DurationInfoInt}
use sqa.Actions.Controller.{ActionController}
use sqa.Actions.Action.{Action, new_action}
use sqa.Engine.Sync.{AudioThreadMessage}
use sqa.Engine.Thread.Players.{Player}
use sqa.Backend.{ActionType, AudioController, FadeController, Context, Crates}
use sqa.Backend.Audio
use sqa.Backend.Audio.Playing
use sqa.Backend.Fade
use sqa.Backend.Fade.Running

module _ {J X P F : Type 0} (k : Crates J X P F) where
  abbrev pub World : Type 0
  World = Context J X P F

  abbrev pub Ctl : Type 0
  Ctl = ActionType X F

  abbrev pub BackendAction : Type 0
  BackendAction = Action (ActionType X F) F

  -- What a call of one controller is for the two.
  abbrev pub as_audio :
      {A : Type 0} → Outcome (AudioController X × World × A) → Outcome (Ctl × World × A)
  as_audio r = r >>= λ x. done (ActionType.audio x.0, x.1, x.2)

  abbrev pub as_fade :
      {A : Type 0} → Outcome (FadeController F × World × A) → Outcome (Ctl × World × A)
  as_fade r = r >>= λ x. done (ActionType.fade x.0, x.1, x.2)

  unfoldable pub desc : Ctl → World → Outcome String
  unfolding Audio.desc Fade.desc
  desc (ActionType.audio c) s = Audio.desc k c
  desc (ActionType.fade c) s = Fade.desc k c s

  unfoldable pub verify_params : Ctl → World → List ParameterError
  unfolding Audio.verify_params Fade.verify_params
  verify_params (ActionType.audio c) s = Audio.verify_params k c s
  verify_params (ActionType.fade c) s = Fade.verify_params k c s

  -- A fade has nothing to load.
  unfoldable pub load : Ctl → World → ℕ → Outcome (Ctl × World × Result Bool)
  unfolding Playing.load
  load (ActionType.audio c) s uuid = as_audio (Playing.load k c s uuid)
  load (ActionType.fade c) s uuid = done (ActionType.fade c, s, ok true)

  unfoldable pub poll : Ctl → World → ℕ → Outcome (Ctl × World × Bool)
  unfolding Running.poll
  poll (ActionType.audio c) s uuid = done (ActionType.audio c, s, false)
  poll (ActionType.fade c) s uuid = as_fade (Running.poll k c s uuid)

  unfoldable pub execute : Ctl → ℕ → World → ℕ → Outcome (Ctl × World × Result Bool)
  unfolding Playing.execute Running.execute
  execute (ActionType.audio c) time s uuid = as_audio (Playing.execute k c time s)
  execute (ActionType.fade c) time s uuid = as_fade (Running.execute k c time s uuid)

  unfoldable pub pause : Ctl → World → ℕ → Outcome (Ctl × World × Bool)
  unfolding Playing.pause Running.pause
  pause (ActionType.audio c) s uuid = as_audio (Playing.pause k c s)
  pause (ActionType.fade c) s uuid = as_fade (Running.pause k c s)

  unfoldable pub reset : Ctl → World → ℕ → Outcome (Ctl × World)
  unfolding Playing.reset Running.reset
  reset (ActionType.audio c) s uuid = Playing.reset k c s >>= λ x. done (ActionType.audio x.0, x.1)
  reset (ActionType.fade c) s uuid = Running.reset k c s >>= λ x. done (ActionType.fade x.0, x.1)

  unfoldable pub duration_info : Ctl → World → Outcome (Option DurationInfoInt)
  unfolding Playing.duration_info Running.duration_info
  duration_info (ActionType.audio c) s = Playing.duration_info k c s
  duration_info (ActionType.fade c) s = Running.duration_info k c s

  unfoldable pub accept_audio_message :
      Ctl → AudioThreadMessage Player → World → ℕ → Outcome (Ctl × World × Bool)
  unfolding Playing.accept_audio_message
  accept_audio_message (ActionType.audio c) msg s uuid =
      as_audio (Playing.accept_audio_message k c msg s uuid)
  accept_audio_message (ActionType.fade c) msg s uuid = done (ActionType.fade c, s, false)

  unfoldable pub get_params : Ctl → ActionParameters
  get_params (ActionType.audio c) = ActionParameters.audio c.params
  get_params (ActionType.fade c) = ActionParameters.fade c.params

  unfoldable pub set_params :
      Ctl → ActionParameters → World → ℕ → Outcome (Ctl × World × Result (Unit {0}))
  unfolding Audio.set_params Fade.set_params
  set_params (ActionType.audio c) (ActionParameters.audio p) s uuid =
      Audio.set_params k c p s >>= λ x. done (ActionType.audio x.0, x.1, ok tt)
  set_params (ActionType.audio c) (ActionParameters.fade p) s uuid =
      done (ActionType.audio c, s, err "wrong type of action parameters")
  set_params (ActionType.fade c) (ActionParameters.fade p) s uuid =
      let (c', s') = Fade.set_params k c p s in done (ActionType.fade c', s', ok tt)
  set_params (ActionType.fade c) (ActionParameters.audio p) s uuid =
      done (ActionType.fade c, s, err "wrong type of action parameters")

  abbrev pub controllers : ActionController World Ctl (AudioThreadMessage Player)
  controllers = record {
    desc = desc;
    verify_params = verify_params;
    load = load;
    poll = poll;
    execute = execute;
    pause = pause;
    reset = reset;
    duration_info = duration_info;
    accept_audio_message = accept_audio_message;
    get_params = get_params;
    set_params = set_params;
  }

  -- A new action of a type by its name, with a new UUID.
  unfoldable pub action_of : String → World → Result (World × BackendAction)
  unfolding new_action
  action_of ty s =
      let s' = record s { drawn = s.drawn + 1 } in
      let uu = k.new_v4 s.drawn in
      if str_eq ty "audio"
      then ok (s', new_action (ActionType.audio (Audio.new_controller k.f.zero_f)) uu)
      else if str_eq ty "fade"
      then ok (s', new_action (ActionType.fade (Fade.new_controller k.f.zero_f)) uu)
      else err (str_append "Unknown action type: " ty)
