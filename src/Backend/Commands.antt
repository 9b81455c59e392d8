-- ===== src/Backend/Commands.antt =====
-- Commands (sqa-backend/src/commands.rs): what each does, and what is replied.
pub mod Undoing
use sqa.Base.{
  ℕ, zero, suc, Bool, true, false, String, Option, none, some, Outcome, done, panic, ◌>>=◌, Result,
  ok, err, is_some, if◌then◌else◌,
}
use sqa.Undo
use sqa.ActionManager
use sqa.Actions.{ActionParameters, ActionMetadata, OpaqueAction}
use sqa.Actions.Action
use sqa.Actions.Execute
use sqa.Codec.{Command, Reply}
use sqa.Mixer.{Tried}
use sqa.Mixer.Context.{obtain_config}
use sqa.Mixer.Config.{process_config}
use sqa.Handlers.{ConnData, Wire, ReplyData}
use sqa.Handlers
use sqa.Backend.{Context, Crates, surroundings}
use sqa.Backend.Controllers.{World, BackendAction, controllers}
use sqa.Backend.State.{
  Server, do_with_ctx, read_data, on_all_actions_changed, on_undo_changed, create_action,
  broadcast_to,
}
use sqa.Backend.Save.{Storage, save_to_file, apply_from_file}
use sqa.Backend.Waveforms.{execute_request}

-- The version of the program.
abbrev pub version : String
version = "0.1.0"

module _ {J X P F : Type 0} (k : Crates J X P F) (disk : Storage P) {Pkt Udp Sock : Type 0}
    (wire : Wire Reply Pkt Udp Sock) where
  abbrev pub Handled : Type 0
  Handled = Outcome (Server k wire × Result (Unit {0}))

  -- `respond`: its error ends the command.
  unfoldable pub respond : Server k wire → ReplyData → Reply → Server k wire × Result (Unit {0})
  unfolding Handlers.respond
  respond (s, d) rd msg = let (d', r) = Handlers.respond wire d rd msg in ((s, d'), r)

  -- What comes after a reply that was sent.
  abbrev pub then_do : Server k wire × Result (Unit {0}) → (Server k wire → Handled) → Handled
  then_do (sv, ok u) next = next sv
  then_do (sv, err e) next = done (sv, err e)

  -- A call on one action, whose result is replied.
  unfoldable pub on_action :
      {A : Type 0}
      → Server k wire
      → ReplyData
      → ℕ
      → (BackendAction k → World k → Outcome (BackendAction k × World k × Result A))
      → (Result A → Reply)
      → Handled
  unfolding do_with_ctx respond
  on_action (s, d) rd uuid f reply =
      do_with_ctx k s uuid f true >>= λ r. done (respond (r.0, d) rd (reply r.1))

  unfoldable pub create :
      Server k wire
      → ReplyData
      → String
      → Option ActionParameters
      → Option ActionMetadata
      → Option ℕ
      → Handled
  unfolding create_action respond on_all_actions_changed
  create (s, d) rd ty pars met old_uu = create_action k s ty pars met old_uu >>= λ r.
      then_do (respond (r.0, d) rd (Reply.action_created r.1)) (λ sv.
        if is_some met
        then (on_all_actions_changed k wire sv >>= λ sv'. done (sv', ok tt))
        else done (sv, ok tt))

  unfoldable pub subscribe : Server k wire → ReplyData → Handled
  unfolding Handlers.subscribe respond
  subscribe (s, d) rd =
      Handlers.subscribe s.now d rd >>= λ d'. done (respond (s, d') rd Reply.subscribed)

  unfoldable pub associate : Server k wire → ReplyData → ℕ → Handled
  unfolding Handlers.associate respond
  associate (s, d) rd addr =
      let (d', res) = Handlers.associate d rd addr in
      done (respond (s, d') rd (Reply.associated res))

  unfoldable pub delete : Server k wire → ReplyData → ℕ → Handled
  unfolding ActionManager.remove respond broadcast_to on_all_actions_changed
  delete (s, d) rd uuid = ActionManager.remove s.actions uuid >>= λ r.
      let s' = record s { actions = r.0 } in
      if is_some r.1
      then then_do (respond (s', d) rd (Reply.action_deleted uuid true)) (λ sv.
        on_all_actions_changed k wire (broadcast_to k wire sv (Reply.update_action_deleted uuid))
        >>= λ sv'. done (sv', ok tt))
      else done (respond (s', d) rd (Reply.action_deleted uuid false))

  abbrev pub of_tried : Tried (Unit {0}) → Result (Unit {0})
  of_tried (Tried.went u) = ok tt
  of_tried (Tried.threw e) = err (k.show_mixer e)

  unfoldable pub send_conf : Server k wire → ReplyData → Handled
  unfolding respond obtain_config
  send_conf (s, d) rd = done (respond (s, d) rd (Reply.update_mixer_conf (obtain_config s.mixer)))

  -- Calls that cannot fail, as closures for `do_with_ctx`.
  abbrev pub reset_action :
      BackendAction k → World k → Outcome (BackendAction k × World k × Result (Unit {0}))
  reset_action a s =
      Action.reset (controllers k) (surroundings k) a s >>= λ r. done (r.0, r.1, ok tt)

  abbrev pub pause_action :
      BackendAction k → World k → Outcome (BackendAction k × World k × Result (Unit {0}))
  pause_action a s =
      Action.pause (controllers k) (surroundings k) a s >>= λ r. done (r.0, r.1, ok tt)

  -- The loop of `execute` ends within its fuel.
  abbrev pub executed :
      Option (BackendAction k × World k × Result (Unit {0}))
      → Outcome (BackendAction k × World k × Result (Unit {0}))
  executed none = panic
  executed (some r) = done r

  abbrev pub execute_action :
      BackendAction k → World k → Outcome (BackendAction k × World k × Result (Unit {0}))
  execute_action a s = Execute.execute (controllers k) (surroundings k) s.now a s >>= executed

  -- A command that comes out of the history goes through the same processing, `again`.
  abbrev pub from_history :
      (Server k wire → Command → ReplyData → Handled)
      → Server k wire
      → ReplyData
      → Undo.UndoContext × Option Command
      → Handled
  from_history again (s, d) rd (u, none) = done ((record s { undo = u }, d), ok tt)
  from_history again (s, d) rd (u, some cmd) =
      on_undo_changed k wire (record s { undo = u }, d) >>= λ sv. again sv cmd rd

  unfoldable pub process :
      (Server k wire → Command → ReplyData → Handled)
      → Server k wire
      → Command
      → ReplyData
      → Handled
  unfolding respond on_action create subscribe associate delete send_conf on_all_actions_changed
      on_undo_changed process_config save_to_file apply_from_file execute_request Undo.undo
      Undo.redo Undo.state ActionManager.reorder Action.load Action.reset Action.pause
      Execute.execute Execute.set_params Execute.set_meta
  process again (s, d) Command.ping rd = done (respond (s, d) rd Reply.pong)
  process again (s, d) Command.version rd = done (respond (s, d) rd (Reply.server_version version))
  process again sv Command.subscribe rd = subscribe sv rd
  process again sv (Command.subscribe_and_associate addr) rd =
      subscribe sv rd >>= λ r. then_do r (λ sv'. associate sv' rd addr)
  process again sv (Command.create_action ty) rd = create sv rd ty none none none
  process again sv (Command.create_action_with_uuid ty uuid) rd =
      create sv rd ty none none (some uuid)
  process again sv (Command.create_action_with_extras ty uuid params) rd =
      create sv rd ty (some params) none (some uuid)
  process again sv (Command.revive_action uuid ty meta params) rd =
      create sv rd ty (some params) (some meta) (some uuid)
  process again sv (Command.action_info uuid) rd =
      on_action sv rd uuid (read_data k) (Reply.action_info_retrieved uuid)
  process again sv (Command.update_action_params uuid params desc) rd =
      on_action sv rd uuid (λ a s. Execute.set_params (controllers k) (surroundings k) a params s)
        (Reply.action_params_updated uuid)
  process again sv (Command.update_action_metadata uuid meta) rd =
      on_action sv rd uuid (λ a s. done (Execute.set_meta a meta, s, ok tt))
        (Reply.action_metadata_updated uuid)
  process again sv (Command.load_action uuid) rd =
      on_action sv rd uuid (λ a s. Action.load (controllers k) (surroundings k) a s)
        (Reply.action_loaded uuid)
  process again sv (Command.reset_action uuid) rd =
      on_action sv rd uuid reset_action (Reply.action_reset uuid)
  process again sv (Command.pause_action uuid) rd =
      on_action sv rd uuid pause_action (Reply.action_maybe_paused uuid)
  process again sv (Command.execute_action uuid) rd =
      on_action sv rd uuid execute_action (Reply.action_executed uuid)
  process again sv Command.action_list rd =
      on_all_actions_changed k wire sv >>= λ sv'. done (sv', ok tt)
  process again sv (Command.delete_action uuid) rd = delete sv rd uuid
  process again (s, d) (Command.reorder_action uuid new_pos) rd =
      ActionManager.reorder s.actions uuid new_pos >>= λ r.
      done (respond (record s { actions = r.0 }, d) rd (Reply.action_reordered uuid r.1))
  process again sv Command.get_mixer_conf rd = send_conf sv rd
  process again (s, d) (Command.set_mixer_conf conf) rd =
      process_config k.v k.q k.jack conf s.mixer >>= λ r.
      then_do (respond (record s { mixer = r.0 }, d) rd (Reply.mixer_conf_set (of_tried r.1)))
        (λ sv. send_conf sv rd)
  process again (s, d) (Command.make_savefile save_to) rd =
      save_to_file k disk s save_to >>= λ r. done (respond (r.0, d) rd (Reply.savefile_made r.1))
  process again sv (Command.load_savefile load_from force) rd =
      apply_from_file k disk wire sv load_from force >>= λ r.
      done (respond r.0 rd (Reply.savefile_loaded r.1))
  process again (s, d) Command.get_undo_state rd =
      Undo.state s.undo >>= λ st. done (respond (s, d) rd (Reply.reply_undo_state st))
  process again (s, d) Command.undo rd = Undo.undo s.undo >>= from_history again (s, d) rd
  process again (s, d) Command.redo rd = Undo.redo s.undo >>= from_history again (s, d) rd
  process again sv (Command.generate_waveform uuid req) rd = execute_request k wire sv uuid req
  process again sv (Command.verify_action uuid) rd = done (sv, ok tt)

  -- A command out of the history that is itself an undo or a redo nests; fuel bounds the nesting.
  unfoldable pub process_nested : ℕ → Server k wire → Command → ReplyData → Handled
  unfolding process
  process_nested zero sv c rd = panic
  process_nested (suc fuel) sv c rd = process (λ sv' c' rd'. process_nested fuel sv' c' rd') sv c rd

  -- Two levels are enough, as a history holds no undo and no redo.
  unfoldable pub process_command : Server k wire → Command → ReplyData → Handled
  unfolding process_nested
  process_command sv c rd = process_nested 2 sv c rd
