-- ===== src/Backend/Events.antt =====
-- What the server does with an external command, an internal message and a wake-up
-- (sqa-backend/src/state.rs, `ConnHandler for Context`, and `ActionManager::on_wakeup` of
-- action_manager.rs).
pub mod Reordering
use sqa.Base.{
  ℕ, Bool, true, false, Option, none, some, List, [], ◌∷◌, ◌++◌, Outcome, done, ◌>>=◌, Result,
  if◌then◌else◌,
}
use sqa.Base.HashMap.{HashMap}
use sqa.Undo
use sqa.Undo.{UndoableChange}
use sqa.ActionManager
use sqa.Actions.{PlaybackState}
use sqa.Actions.Action
use sqa.Actions.Execute
use sqa.Codec.{Command, Reply}
use sqa.Engine.Sync.{AudioThreadMessage}
use sqa.Engine.Thread.Players.{Player}
use sqa.Handlers.{Wire, ReplyData}
use sqa.Backend.{Crates, ServerMessage, surroundings, unregister_interest}
use sqa.Backend.Controllers.{World, BackendAction, controllers}
use sqa.Backend.Undoable.{cmd_as_undoable}
use sqa.Backend.State.{Server, put_back, on_action_changed, on_order_changed, on_undo_changed}
use sqa.Backend.Save.{Storage}
use sqa.Backend.Commands.{process_command}
use sqa.Backend.Waveforms

module _ {J X P F : Type 0} (k : Crates J X P F) (disk : Storage P) {Pkt Udp Sock : Type 0}
    (wire : Wire Reply Pkt Udp Sock) where
  -- A change that can be undone is registered before the command is processed.
  unfoldable pub register : Server k wire → Option UndoableChange → Outcome (Server k wire)
  unfolding Undo.register_change on_undo_changed
  register (s, d) none = done (s, d)
  register (s, d) (some ch) =
      Undo.register_change s.undo ch >>= λ u. on_undo_changed k wire (record s { undo = u }, d)

  -- An action that changed, taken out of the table for its report.
  abbrev pub report_taken : Server k wire → ℕ → Option (BackendAction k) → Outcome (Server k wire)
  report_taken sv uu none = done sv
  report_taken sv uu (some a) =
      on_action_changed k wire sv a >>= λ r. put_back k r.0.0 uu r.1 >>= λ s'. done (s', r.0.1)

  unfoldable pub report : Server k wire → List ℕ → Outcome (Server k wire)
  unfolding ActionManager.remove_for_editing on_action_changed put_back
  report sv [] = done sv
  report (s, d) (uu ∷ uus) =
      let (m, a) = ActionManager.remove_for_editing s.actions uu false in
      report_taken (record s { actions = m }, d) uu a >>= λ sv. report sv uus

  unfoldable pub report_order : Server k wire → Server k wire
  unfolding ActionManager.clear_order_changed on_order_changed
  report_order (s, d) =
      let (m, changed) = ActionManager.clear_order_changed s.actions in
      let sv : Server k wire = (record s { actions = m }, d) in
      if changed then on_order_changed k wire sv else sv

  -- After a command: what changed is reported to all.
  unfoldable pub report_all : Server k wire → Outcome (Server k wire)
  unfolding report report_order ActionManager.clear_changed
  report_all (s, d) =
      let (m, changed) = ActionManager.clear_changed s.actions in
      report (record s { actions = m }, d) changed >>= λ sv. done (report_order sv)

  unfoldable pub external :
      Server k wire → Command → ReplyData → Outcome (Server k wire × Result (Unit {0}))
  unfolding cmd_as_undoable register process_command report_all
  external (s, d) c rd = cmd_as_undoable k s c >>= λ ch. register (ch.0, d) ch.1 >>= λ sv.
      process_command k disk wire sv c rd >>= λ r. report_all r.0 >>= λ sv'. done (sv', r.1)

  -- Every action gets the audio thread's message.
  unfoldable pub accept_all :
      AudioThreadMessage Player → World k → HashMap (BackendAction k) → Outcome (World k)
  unfolding Action.accept_audio_message put_back
  accept_all msg s [] = done s
  accept_all msg s ((uu, act) ∷ acts) =
      Action.accept_audio_message (controllers k) (surroundings k) act msg s >>= λ r.
      put_back k r.1 uu r.0 >>= λ s'. accept_all msg s' acts

  abbrev pub change_taken :
      Server k wire → ℕ → PlaybackState → Option (BackendAction k) → Outcome (Server k wire)
  change_taken sv uu ps none = done sv
  change_taken (s, d) uu ps (some a) =
      Execute.state_change (controllers k) (surroundings k) a ps s >>= λ r.
      report_taken (r.1, d) uu (some r.0)

  unfoldable pub internal : Server k wire → ServerMessage → Outcome (Server k wire)
  unfolding accept_all Execute.state_change ActionManager.remove_for_editing
      ActionManager.remove_all_for_editing
  internal (s, d) (ServerMessage.audio_message msg) =
      let (m, acts) = ActionManager.remove_all_for_editing s.actions in
      accept_all msg (record s { actions = m }) acts >>= λ s'. done (s', d)
  internal (s, d) (ServerMessage.action_state_change uu ps) =
      let (m, a) = ActionManager.remove_for_editing s.actions uu false in
      change_taken (record s { actions = m }, d) uu ps a
  internal sv (ServerMessage.action_warning uu w) = done sv

  -- Whether the action wants to be polled again.
  abbrev pub poll_taken :
      Server k wire → ℕ → Option (BackendAction k) → Outcome (Server k wire × Bool)
  poll_taken sv uu none = done (sv, false)
  poll_taken (s, d) uu (some a) = Action.poll (controllers k) (surroundings k) a s >>= λ r.
      report_taken (r.1, d) uu (some r.0) >>= λ sv. done (sv, r.2)

  -- Those that are done, behind the others that were.
  abbrev pub note : Bool → ℕ → List ℕ → List ℕ
  note true uu finished = finished
  note false uu finished = finished ++ uu ∷ []

  unfoldable pub poll_each : List ℕ → List ℕ → Server k wire → Outcome (Server k wire × List ℕ)
  unfolding Action.poll ActionManager.remove_for_editing
  poll_each [] finished sv = done (sv, finished)
  poll_each (uu ∷ uus) finished (s, d) =
      let (m, a) = ActionManager.remove_for_editing s.actions uu false in
      poll_taken (record s { actions = m }, d) uu a >>= λ r.
      poll_each uus (note r.1 uu finished) r.0

  unfoldable pub remove_async : List ℕ → World k → World k
  unfolding unregister_interest
  remove_async [] s = s
  remove_async (uu ∷ uus) s = remove_async uus (unregister_interest s uu)

  -- Actions that want no more polls lose their interest once all were polled.
  unfoldable pub poll_actions : Server k wire → Outcome (Server k wire)
  unfolding poll_each remove_async
  poll_actions (s, d) =
      poll_each s.actions.async_actions [] (s, d) >>= λ r. done (remove_async r.1 r.0.0, r.0.1)

  unfoldable pub wakeup : Server k wire → Outcome (Server k wire)
  unfolding Waveforms.on_wakeup poll_actions
  wakeup sv = poll_actions (Waveforms.on_wakeup k wire sv)
