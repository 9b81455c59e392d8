-- ===== src/Undo.antt =====
-- The undo history (sqa-backend/src/undo.rs): a list of changes and a cursor into it. A `usize`
-- that would underflow panics, as it does with overflow checks on.
pub mod History
pub mod View
pub mod Register
pub mod RoundTrip
pub mod Fresh
pub mod Overflow
mod Tests
use sqa.Base.{
  ℕ, zero, suc, ◌+◌, ◌-◌, String, not, Option, none, some, List, [], ◌∷◌, ◌++◌, length, get_elem?,
  take, drop, Outcome, done, panic, ◌>>=◌, ◌>>◌, unwrap, assert, ltb, leb, ◌==◌, str_eq,
  if◌then◌else◌, is_some,
}
use sqa.Codec.{Command, UndoState}

abbrev pub max_undos : ℕ
max_undos = 100

pub record UndoableChange : Type 0 where
  pub undo : Command
  pub redo : Command
  pub desc : String

pub record UndoContext : Type 0 where
  pub changes : List UndoableChange
  pub idx : Option ℕ

-- The first entry of a new history, which cannot be undone.
abbrev pub gutter : UndoableChange
gutter = record { undo = Command.ping; redo = Command.ping; desc = "nothing" }

unfoldable pub new : UndoContext
new = record { changes = gutter ∷ []; idx = none }

-- `changes.drain((idx+1)..)`: a start past the end panics.
unfoldable pub drain_from : ℕ → List UndoableChange → Outcome (List UndoableChange)
drain_from i changes = do assert (leb i (length changes)); done (take i changes)

-- The redoable changes go, if there are some.
unfoldable pub obliterate_redo : UndoContext → Outcome (List UndoableChange)
unfolding drain_from
obliterate_redo u = elim u.idx [ none ↦ done u.changes | some i ↦ drain_from (i + 1) u.changes ]

-- The push, and the removal of the oldest entry if the history has become too long.
unfoldable pub push_bounded : List UndoableChange → UndoableChange → List UndoableChange
push_bounded changes ch =
    let pushed = changes ++ ch ∷ [] in
    if ltb max_undos (length pushed) then drop 1 pushed else pushed

unfoldable pub register_change : UndoContext → UndoableChange → Outcome UndoContext
unfolding obliterate_redo push_bounded
register_change u ch = do
  changes ← obliterate_redo u
  done (record { changes = push_bounded changes ch; idx = none })

-- `unwrap_or` computes its argument in any case, so an empty history panics.
unfoldable pub cursor : UndoContext → Outcome ℕ
cursor u = do
  assert (leb 1 (length u.changes))
  done (elim u.idx [ none ↦ length u.changes - 1 | some i ↦ i ])

unfoldable pub indexes : UndoContext → Outcome (Option ℕ × Option ℕ)
unfolding cursor
indexes u = do
  idx ← cursor u
  ch ← unwrap (get_elem? u.changes idx)
  done (
    if not (str_eq ch.desc "nothing") then some idx else none,
    if is_some (get_elem? u.changes (idx + 1)) then some (idx + 1) else none,
  )

-- `idx - 1` with its check.
unfoldable pub checked_pred : ℕ → Outcome ℕ
checked_pred zero = panic
checked_pred (suc i) = done i

unfoldable pub undo_at : UndoContext → Option ℕ → Outcome (UndoContext × Option Command)
unfolding checked_pred
undo_at u none = done (u, none)
undo_at u (some idx) = do
  before ← checked_pred idx
  ch ← unwrap (get_elem? u.changes idx)
  done (record u { idx = some before }, some ch.undo)

unfoldable pub undo : UndoContext → Outcome (UndoContext × Option Command)
unfolding indexes undo_at
undo u = do found ← indexes u; undo_at u found.0

unfoldable pub redo_at : UndoContext → Option ℕ → Outcome (UndoContext × Option Command)
redo_at u none = done (u, none)
redo_at u (some idx) = do
  ch ← unwrap (get_elem? u.changes idx)
  done (record u { idx = if idx == length u.changes - 1 then none else some idx }, some ch.redo)

unfoldable pub redo : UndoContext → Outcome (UndoContext × Option Command)
unfolding indexes redo_at
redo u = do found ← indexes u; redo_at u found.1

-- `and_then(|idx| changes.get(idx)).map(|x| x.desc.clone())`.
unfoldable pub desc_at : List UndoableChange → Option ℕ → Option String
desc_at changes none = none
desc_at changes (some i) = elim (get_elem? changes i) [ none ↦ none | some ch ↦ some ch.desc ]

unfoldable pub state : UndoContext → Outcome UndoState
unfolding indexes desc_at
state u = do
  found ← indexes u
  done (record { undo = desc_at u.changes found.0; redo = desc_at u.changes found.1 })
