-- ===== src/Undo/RoundTrip.antt =====
-- What undo, redo and a new change do to one another.
use native.Mathlib.Numerals.{add-one}
use sqa.Base.{
  ℕ, zero, suc, ◌-◌, ◌<◌, ◌≡◌, refl, sym, ◌∙◌, ap, false, Bool-cases, Option-cases, inl, inr,
  Option, none, some, length, get_elem?, done, arith, str_eq, ◌==◌, if◌then◌else◌, get_elem?-lt,
  lt-length_of_get_elem?,
}
use sqa.Codec.{Command}
use sqa.Undo.{UndoableChange, UndoContext, undo, undo_at, redo}
use sqa.Undo.View.{IsValid, position, position-lt, position-redo, indexes_lem}

-- What an undo that does something has found and left.
abbrev pub Undone : UndoContext → UndoContext → Command → Type 0
Undone u u' cmd =
    (ch : UndoableChange) × (j : ℕ) × (position u ≡ suc j)
    × (get_elem? u.changes (suc j) ≡ some ch)
    × (str_eq ch.desc "nothing" ≡ false)
    × (cmd ≡ ch.undo)
    × (u' ≡ record { changes = u.changes; idx = some j })

undo_at-Undone :
    (u : UndoContext) (i : ℕ) (ch : UndoableChange) {u' : UndoContext} {cmd : Command}
    → position u ≡ i
    → get_elem? u.changes i ≡ some ch
    → str_eq ch.desc "nothing" ≡ false
    → undo_at u (some i) ≡ done (u', some cmd)
    → Undone u u' cmd
unfolding undo_at
undo_at-Undone u zero ch p e n h = cc
undo_at-Undone u (suc j) ch p e n h =
    let h' = rw e at h in (ch, j, p, e, n, ground arith, ground arith)

pub undo-Undone :
    (u : UndoContext) {u' : UndoContext} {cmd : Command}
    → IsValid u
    → undo u ≡ done (u', some cmd)
    → Undone u u' cmd
unfolding undo
undo-Undone u v h =
    let (c, e) = get_elem?-lt u.changes (position u) (position-lt u v) in
    let h' = rw (indexes_lem u c v e) at h in
    elim (Bool-cases (str_eq c.desc "nothing")) [
      | inl n ↦ let g = rw n at h' in cc
      | inr n ↦ undo_at-Undone u (position u) c refl e n (rw n at h')
    ]

-- The index of a valid history, from its position.
position-idx :
    (u : UndoContext)
    → IsValid u
    → (if position u == length u.changes - 1 then none else some (position u)) ≡ u.idx
position-idx u v = ground arith

idx-of_position :
    (u : UndoContext) (i : ℕ)
    → IsValid u
    → position u ≡ i
    → (if i == length u.changes - 1 then none else some i) ≡ u.idx
idx-of_position u i v p = rw p at (position-idx u v)

-- The step back to the change that was undone.
redo_at_back :
    (u : UndoContext) (j : ℕ) (ch : UndoableChange)
    → IsValid u
    → position u ≡ suc j
    → get_elem? u.changes (suc j) ≡ some ch
    → redo (record { changes = u.changes; idx = some j }) ≡ done (u, some ch.redo)
unfolding redo
redo_at_back u j ch v p e =
    let (b, eb) = get_elem?-lt u.changes j (omega (arith, position-lt u v)) in
    let w : IsValid (record { changes = u.changes; idx = some j }) = record {
      nonempty = v.nonempty;
      bounded = v.bounded;
      fits = omega (arith, position-lt u v);
    } in
    rw (indexes_lem (record { changes = u.changes; idx = some j }) b w eb, add-one, e)
      (rw e (
        ap (λ (o : Option ℕ). done (record { changes = u.changes; idx = o }, some ch.redo))
          (idx-of_position u (suc j) v p)))

-- Redo after an undo that did something restores the history exactly, and the two commands are
-- those of one change.
pub redo-undo :
    (u : UndoContext) {u' : UndoContext} {cmd : Command}
    → IsValid u
    → undo u ≡ done (u', some cmd)
    → (ch : UndoableChange) × (get_elem? u.changes (position u) ≡ some ch)
      × (cmd ≡ ch.undo)
      × (redo u' ≡ done (u, some ch.redo))
redo-undo u v h =
    let (ch, j, p, e, n, c, w) = undo-Undone u v h in
    (ch, rw p e, c, rw w (redo_at_back u j ch v p e))

-- What a redo that does something has found and left.
abbrev pub Redone : UndoContext → UndoContext → Command → Type 0
Redone u u' cmd =
    (ch : UndoableChange) × (get_elem? u.changes (suc (position u)) ≡ some ch)
    × (cmd ≡ ch.redo)
    × (u' ≡ record {
      changes = u.changes;
      idx = if suc (position u) == length u.changes - 1 then none else some (suc (position u));
    })

pub redo-Redone :
    (u : UndoContext) {u' : UndoContext} {cmd : Command}
    → IsValid u
    → redo u ≡ done (u', some cmd)
    → Redone u u' cmd
unfolding redo
redo-Redone u v h =
    let (c, e) = get_elem?-lt u.changes (position u) (position-lt u v) in
    let h' = rw (indexes_lem u c v e, add-one) at h in
    elim (Option-cases (get_elem? u.changes (suc (position u)))) [
      | inl n ↦ let g = rw n at h' in cc
      | inr (d, n) ↦ let g = rw n at h' in let g' = rw n at g in (d, n, ground arith, ground arith)
    ]

-- The index of a history with a change to redo is set.
idx-redoable :
    (u : UndoContext) → IsValid u → suc (position u) < length u.changes → u.idx ≡ some (position u)
idx-redoable u v h = ground arith

-- Both operations keep the index within the vector.
pub undo-IsValid :
    (u : UndoContext) {u' : UndoContext} {cmd : Command}
    → IsValid u
    → undo u ≡ done (u', some cmd)
    → IsValid u'
undo-IsValid u v h =
    let (ch, j, p, e, n, c, w) = undo-Undone u v h in
    rw w
      (record { nonempty = v.nonempty; bounded = v.bounded; fits = omega (arith, position-lt u v) })

pub redo-IsValid :
    (u : UndoContext) {u' : UndoContext} {cmd : Command}
    → IsValid u
    → redo u ≡ done (u', some cmd)
    → IsValid u'
redo-IsValid u v h =
    let (ch, e, c, w) = redo-Redone u v h in
    rw w (record {
      nonempty = v.nonempty;
      bounded = v.bounded;
      fits = ground (arith, lt-length_of_get_elem? u.changes (suc (position u)) e);
    })

undo_redone :
    (u u' : UndoContext) (ch : UndoableChange)
    → IsValid u
    → IsValid u'
    → u'.changes ≡ u.changes
    → position u' ≡ suc (position u)
    → get_elem? u.changes (suc (position u)) ≡ some ch
    → str_eq ch.desc "nothing" ≡ false
    → undo u' ≡ done (u, some ch.undo)
unfolding undo
undo_redone u u' ch v v' same p e n =
    rw (indexes_lem u' ch v' (rw (p, same) e), n, p, same, e)
      (ap (λ (o : Option ℕ). done (record { changes = u.changes; idx = o }, some ch.undo))
        (sym (idx-redoable u v (lt-length_of_get_elem? u.changes (suc (position u)) e))))

-- Undo after a redo that did something restores the history exactly, unless the change is named
-- as the first entry is.
pub undo-redo :
    (u : UndoContext) {u' : UndoContext} {cmd : Command}
    → IsValid u
    → redo u ≡ done (u', some cmd)
    → (ch : UndoableChange) × (get_elem? u.changes (suc (position u)) ≡ some ch)
      × (cmd ≡ ch.redo)
      × (str_eq ch.desc "nothing" ≡ false → undo u' ≡ done (u, some ch.undo))
undo-redo u {u'} v h =
    let (ch, e, c, w) = redo-Redone u v h in
    (
      ch,
      e,
      c,
      λ n.
          undo_redone u u' ch v (redo-IsValid u v h) (ap (λ (x : UndoContext). x.changes) w)
            (ap position w ∙ position-redo u.changes (suc (position u))) e n,
    )
