-- ===== src/Undo/View.antt =====
-- The refinement: each operation on the vector and its index does what the operation on the two
-- stacks does.
use mathlib.Core.List.{reverse-append}
use native.Mathlib.Numerals.{add-one}
use sqa.Base.{
  ℕ, zero, suc, ◌+◌, ◌-◌, ◌≤◌, ◌<◌, ◌≡◌, refl, List, [], ◌∷◌, reverse, Option, none, some, length,
  get_elem?, take, drop, Outcome, done, panic, arith, inl, inr, Bool-cases, Option-cases,
  get_elem?-lt, drop-get_elem?, take-get_elem?, drop-get_elem?-none, str_eq, ◌==◌, if◌then◌else◌,
  is_some, not, le→leb,
}
use sqa.Codec.{Command}
use sqa.Undo.{UndoableChange, UndoContext, cursor, indexes, undo, undo_at, redo, redo_at, max_undos}
use sqa.Undo.History
use sqa.Undo.History.{History, history}

-- An index that is set leaves a change to redo.
abbrev pub Fits : Option ℕ → ℕ → Type 0
Fits none n = Unit {0}
Fits (some i) n = suc i < n

pub record IsValid (u : UndoContext) : Type 0 where
  pub nonempty : 1 ≤ length u.changes
  pub bounded : length u.changes ≤ max_undos
  pub fits : Fits u.idx (length u.changes)

-- The change that was made last and is not undone.
abbrev pub position : UndoContext → ℕ
position u = elim u.idx [ none ↦ length u.changes - 1 | some i ↦ i ]

abbrev pub view : UndoContext → History
view u = record {
  past = reverse (take (suc (position u)) u.changes);
  future = drop (suc (position u)) u.changes;
}

abbrev pub view_result : Outcome (UndoContext × Option Command) → Outcome (History × Option Command)
view_result (done (u, c)) = done (view u, c)
view_result panic = panic

pub position-lt : (u : UndoContext) → IsValid u → position u < length u.changes
position-lt u v = ground arith

pub cursor-position : (u : UndoContext) → IsValid u → cursor u ≡ done (position u)
unfolding cursor
cursor-position u v = rw (le→leb 1 (length u.changes) v.nonempty)

-- The change under the cursor is the top of the past.
past-cons_at :
    (cs : List UndoableChange) (i : ℕ) (c : UndoableChange)
    → get_elem? cs i ≡ some c
    → reverse (take (suc i) cs) ≡ c ∷ reverse (take i cs)
past-cons_at cs i c e = rw (take-get_elem? cs i e) (reverse-append (take i cs) (c ∷ []))

view-undo_at :
    (u : UndoContext) (i : ℕ) (c : UndoableChange)
    → IsValid u
    → position u ≡ i
    → get_elem? u.changes i ≡ some c
    → view_result (undo_at u (some i))
      ≡ History.undo_change c (reverse (take i u.changes)) (view u).future
unfolding undo_at
view-undo_at u zero c v p e = refl
view-undo_at u (suc j) c v p e =
    let (b, eb) = get_elem?-lt u.changes j (omega (arith, position-lt u v)) in
    rw (e, past-cons_at u.changes j b eb, p, drop-get_elem? u.changes (suc j) e)

pub indexes_lem :
    (u : UndoContext) (c : UndoableChange)
    → IsValid u
    → get_elem? u.changes (position u) ≡ some c
    → indexes u
      ≡ done (
        if not (str_eq c.desc "nothing") then some (position u) else none,
        if is_some (get_elem? u.changes (position u + 1)) then some (position u + 1) else none,
      )
unfolding indexes
indexes_lem u c v e = rw (cursor-position u v, e)

-- Undoing is popping the past and pushing on the future, except at a change named as the first
-- entry is, where nothing happens, and with the failure at the bottom of the past.
pub undo-refines : (u : UndoContext) → IsValid u → view_result (undo u) ≡ History.undo (view u)
unfolding undo
undo-refines u v =
    let (c, e) = get_elem?-lt u.changes (position u) (position-lt u v) in
    rw (indexes_lem u c v e, past-cons_at u.changes (position u) c e)
      (elim (Bool-cases (str_eq c.desc "nothing")) [
        | inl n ↦ rw n (cc (past-cons_at u.changes (position u) c e))
        | inr n ↦ rw n (view-undo_at u (position u) c v refl e)
      ])

-- The index that a redo leaves stands for the position that it moves to.
pub position-redo :
    (cs : List UndoableChange) (i : ℕ)
    → position (record { changes = cs; idx = if i == length cs - 1 then none else some i }) ≡ i
position-redo cs i = ground arith

view-redo_at :
    (u : UndoContext) (i : ℕ) (c : UndoableChange)
    → get_elem? u.changes i ≡ some c
    → view_result (redo_at u (some i))
      ≡ done (history (c ∷ reverse (take i u.changes)) (drop (suc i) u.changes), some c.redo)
unfolding redo_at
view-redo_at u i c e = rw (e, position-redo u.changes i, past-cons_at u.changes i c e)

-- Redoing is popping the future and pushing on the past; with an empty future it does nothing.
pub redo-refines :
    (u : UndoContext) → IsValid u → view_result (redo u) ≡ done (History.redo (view u))
unfolding redo
redo-refines u v =
    let (c, e) = get_elem?-lt u.changes (position u) (position-lt u v) in
    rw (indexes_lem u c v e, add-one)
      (elim (Option-cases (get_elem? u.changes (suc (position u)))) [
        | inl n ↦ rw (n, drop-get_elem?-none u.changes (suc (position u)) n)
        | inr (d, n) ↦ rw (
          n,
          drop-get_elem? u.changes (suc (position u)) n,
          view-redo_at u (suc (position u)) d n,
        )
      ])
