-- ===== src/Undo/Tests.antt =====
-- The theorems on the undo history at concrete histories.
use sqa.Base.{
  ℕ, zero, suc, ◌≡◌, refl, false, [], ◌∷◌, some, none, replicate, get_elem?, done, panic, ◌>>=◌,
  arith, str_eq,
}
use sqa.Codec.{Command}
use sqa.Undo.{UndoableChange, UndoContext, gutter, new, undo, redo, register_change, state}
use sqa.Undo.History
use sqa.Undo.View.{IsValid, view, view_result, undo-refines, redo-refines}
use sqa.Undo.Register.{register-refines}
use sqa.Undo.RoundTrip.{redo-undo, undo-redo}
use sqa.Undo.Fresh.{undo-register_change}
use sqa.Undo.Overflow.{Named, register_all, undo_times, undo_times-register_all, new-IsValid}

abbrev create : UndoableChange
create = record {
  undo = Command.delete_action 7;
  redo = Command.create_action_with_uuid "audio" 7;
  desc = "create action with type audio";
}

abbrev move : UndoableChange
move = record {
  undo = Command.reorder_action 7 0;
  redo = Command.reorder_action 7 2;
  desc = "reorder action";
}

-- Both changes are made.
abbrev two : UndoContext
two = record { changes = gutter ∷ create ∷ move ∷ []; idx = none }

-- The second change is undone.
abbrev stepped : UndoContext
stepped = record { changes = gutter ∷ create ∷ move ∷ []; idx = some 1 }

two-IsValid : IsValid two
two-IsValid = omega arith

stepped-IsValid : IsValid stepped
stepped-IsValid = omega arith

undo-two : undo two ≡ done (stepped, some move.undo)
unfolding undo
undo-two = refl

redo-stepped : redo stepped ≡ done (two, some move.redo)
unfolding redo
redo-stepped = refl

state-stepped :
    state stepped
    ≡ done (record { undo = some "create action with type audio"; redo = some "reorder action" })
unfolding state
state-stepped = refl

redo-undo_example :
    (ch : UndoableChange) × (get_elem? two.changes 2 ≡ some ch)
    × (move.undo ≡ ch.undo)
    × (redo stepped ≡ done (two, some ch.redo))
redo-undo_example = redo-undo two two-IsValid undo-two

undo-redo_example :
    (ch : UndoableChange) × (get_elem? two.changes 2 ≡ some ch)
    × (move.redo ≡ ch.redo)
    × (str_eq ch.desc "nothing" ≡ false → undo two ≡ done (stepped, some ch.undo))
undo-redo_example = undo-redo stepped stepped-IsValid redo-stepped

undo-refines_example : view_result (undo two) ≡ History.undo (view two)
undo-refines_example = undo-refines two two-IsValid

redo-refines_example : view_result (redo stepped) ≡ done (History.redo (view stepped))
redo-refines_example = redo-refines stepped stepped-IsValid

register-refines_example :
    (u : UndoContext) × (register_change stepped move ≡ done u)
    × IsValid u
    × (view u ≡ History.register (view stepped) move)
register-refines_example = register-refines stepped move stepped-IsValid

undo-register_change_example :
    (u : UndoContext) × (u' : UndoContext) × (register_change new move ≡ done u)
    × (undo u ≡ done (u', some move.undo))
    × (state u ≡ done (record { undo = some "reorder action"; redo = none }))
undo-register_change_example = undo-register_change new move new-IsValid refl

Named-replicate : (n : ℕ) → Named (replicate n move)
Named-replicate zero = tt
Named-replicate (suc n) = (refl, Named-replicate n)

undo_times-register_all_example : (register_all new (replicate 100 move) >>= undo_times 100) ≡ panic
undo_times-register_all_example =
    undo_times-register_all (replicate 100 move) (omega arith) (Named-replicate 100)
