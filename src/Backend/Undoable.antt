-- ===== src/Backend/Undoable.antt =====
-- What undoes a command (sqa-backend/src/undo.rs, `cmd_as_undoable`).
use sqa.Base.{
  ℕ, true, String, str_append, Option, none, some, Outcome, done, ◌>>=◌, Result, ok, err,
}
use sqa.ActionManager
use sqa.Actions.{OpaqueAction, typ}
use sqa.Codec.{Command}
use sqa.Undo.{UndoableChange}
use sqa.Mixer.Context.{obtain_config}
use sqa.Backend.{Crates}
use sqa.Backend.Controllers.{World}
use sqa.Backend.State.{do_with_ctx, read_data}

module _ {J X P F : Type 0} (k : Crates J X P F) where
  abbrev pub change : Command → Command → String → UndoableChange
  change back again desc = record { undo = back; redo = again; desc = desc }

  abbrev pub of_result :
      Result OpaqueAction → (OpaqueAction → UndoableChange) → Option UndoableChange
  of_result (ok old) f = some (f old)
  of_result (err e) f = none

  -- A change that needs the action as it was, which marks the action as changed.
  abbrev pub from_data :
      World k → ℕ → (OpaqueAction → UndoableChange) → Outcome (World k × Option UndoableChange)
  from_data s uuid f = do_with_ctx k s uuid (read_data k) true >>= λ r. done (r.0, of_result r.1 f)

  abbrev pub or_update : Option String → String
  or_update none = "update action parameters"
  or_update (some desc) = desc

  abbrev pub reordered : ℕ → ℕ → Option ℕ → Option UndoableChange
  reordered uuid new_pos none = none
  reordered uuid new_pos (some pos) = some (
      change (Command.reorder_action uuid pos) (Command.reorder_action uuid new_pos)
        "reorder action")

  unfoldable pub cmd_as_undoable : World k → Command → Outcome (World k × Option UndoableChange)
  unfolding do_with_ctx typ obtain_config ActionManager.position_of
  cmd_as_undoable s (Command.create_action_with_uuid ty uuid) = done (
    s,
    some (
        change (Command.delete_action uuid) (Command.create_action_with_uuid ty uuid)
          (str_append "create action with type " ty)),
  )
  cmd_as_undoable s (Command.revive_action uuid ty meta params) = done (
    s,
    some (
        change (Command.delete_action uuid) (Command.revive_action uuid ty meta params)
          (str_append "revive action of type " ty)),
  )
  cmd_as_undoable s (Command.create_action_with_extras ty uuid params) = done (
    s,
    some (
        change (Command.delete_action uuid) (Command.create_action_with_extras ty uuid params)
          (str_append "create action with type " ty)),
  )
  cmd_as_undoable s (Command.update_action_params uuid params desc) = from_data s uuid (λ old.
      change (Command.update_action_params uuid old.params none)
        (Command.update_action_params uuid params none) (or_update desc))
  cmd_as_undoable s (Command.update_action_metadata uuid meta) = from_data s uuid (λ old.
      change (Command.update_action_metadata uuid old.meta)
        (Command.update_action_metadata uuid meta) "update action metadata")
  cmd_as_undoable s (Command.delete_action uuid) = from_data s uuid (λ old.
      change (Command.revive_action uuid (typ old) old.meta old.params) (Command.delete_action uuid)
        "delete action")
  cmd_as_undoable s (Command.set_mixer_conf conf) = done (
    s,
    some (
        change (Command.set_mixer_conf (obtain_config s.mixer)) (Command.set_mixer_conf conf)
          "modify mixer configuration"),
  )
  cmd_as_undoable s (Command.reorder_action uuid new_pos) =
      done (s, reordered uuid new_pos (ActionManager.position_of s.actions uuid))
  cmd_as_undoable s c = done (s, none)
