-- ===== src/Undo/History.antt =====
-- The abstract undo history: two stacks of changes, the newest of the past and the next of the
-- future on top.
use sqa.Base.{List, [], ◌∷◌, Option, none, some, Outcome, done, panic, take, str_eq, if◌then◌else◌}
use sqa.Codec.{Command}
use sqa.Undo.{UndoableChange, max_undos}

pub record History : Type 0 where
  pub past : List UndoableChange
  pub future : List UndoableChange

abbrev pub history : List UndoableChange → List UndoableChange → History
history past future = record { past = past; future = future }

-- A change with nothing below it cannot be undone: the program fails there.
abbrev pub undo_change :
    UndoableChange → List UndoableChange → List UndoableChange → Outcome (History × Option Command)
undo_change c [] future = panic
undo_change c (p ∷ past) future = done (history (p ∷ past) (c ∷ future), some c.undo)

abbrev pub undo_top : List UndoableChange → List UndoableChange → Outcome (History × Option Command)
undo_top [] future = panic
undo_top (c ∷ past) future =
    if str_eq c.desc "nothing"
    then done (history (c ∷ past) future, none)
    else undo_change c past future

abbrev pub undo : History → Outcome (History × Option Command)
undo h = undo_top h.past h.future

abbrev pub redo_top : List UndoableChange → List UndoableChange → History × Option Command
redo_top past [] = (history past [], none)
redo_top past (c ∷ future) = (history (c ∷ past) future, some c.redo)

abbrev pub redo : History → History × Option Command
redo h = redo_top h.past h.future

-- The oldest change falls off the end.
abbrev pub register : History → UndoableChange → History
register h c = history (take max_undos (c ∷ h.past)) []
