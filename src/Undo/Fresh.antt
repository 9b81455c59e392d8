-- ===== src/Undo/Fresh.antt =====
-- A change that was just registered can be undone, and nothing can be redone.
use sqa.Base.{
  suc, ◌+◌, ◌-◌, ◌≤◌, ◌≡◌, refl, ◌∙◌, false, List, [], ◌∷◌, ◌++◌, none, some, length, get_elem?,
  done, arith, ltb, str_eq, length-append, length-take, get_elem?-append_cons, get_elem?-none,
  get_elem?-lt, ◌>>=◌, if◌then◌else◌, not, is_some, take, inl, inr, Bool-cases,
}
use sqa.Codec.{UndoState}
use sqa.Undo.{
  UndoableChange, UndoContext, max_undos, push_bounded, register_change, undo, undo_at, indexes,
  state, desc_at,
}
use sqa.Undo.View.{IsValid, position, position-lt, indexes_lem}
use sqa.Undo.Register.{register_change_lem, length-push_bounded}

-- The change that was pushed is the last one.
get_elem?-push_bounded :
    (cs : List UndoableChange) (c : UndoableChange)
    → get_elem? (push_bounded cs c) (length (push_bounded cs c) - 1) ≡ some c
unfolding push_bounded
get_elem?-push_bounded [] c = refl
get_elem?-push_bounded (x ∷ xs) c = elim (Bool-cases (ltb max_undos (length (x ∷ xs ++ c ∷ [])))) [
  | inl t ↦ rw t (rw (last_index xs) (get_elem?-append_cons xs [] c))
  | inr t ↦ rw t (rw (last_index (x ∷ xs)) (get_elem?-append_cons (x ∷ xs) [] c))
]
  where
    last_index : (ys : List UndoableChange) → length (ys ++ c ∷ []) - 1 ≡ length ys
    last_index ys = omega (arith, length-append ys (c ∷ []))

length-push_bounded_two :
    (cs : List UndoableChange) (c : UndoableChange) → 1 ≤ length cs → 2 ≤ length (push_bounded cs c)
unfolding push_bounded
length-push_bounded_two [] c h = absurd (omega arith)
length-push_bounded_two (x ∷ xs) c h = ground (arith, length-append xs (c ∷ []))

-- The two indexes of a history whose last change is `c`.
indexes_at_end :
    (cs : List UndoableChange) (c : UndoableChange)
    → IsValid (record { changes = cs; idx = none })
    → get_elem? cs (length cs - 1) ≡ some c
    → str_eq c.desc "nothing" ≡ false
    → indexes (record { changes = cs; idx = none }) ≡ done (some (length cs - 1), none)
indexes_at_end cs c v e n =
    indexes_lem (record { changes = cs; idx = none }) c v e
    ∙ rw (n, get_elem?-none cs (length cs - 1 + 1) (omega arith))

undo_at-last :
    (cs : List UndoableChange) (c : UndoableChange)
    → 2 ≤ length cs
    → get_elem? cs (length cs - 1) ≡ some c
    → undo_at (record { changes = cs; idx = none }) (some (length cs - 1))
      ≡ done (record { changes = cs; idx = some (length cs - 2) }, some c.undo)
unfolding undo_at
undo_at-last cs c h e =
    let back : length cs - 1 ≡ suc (length cs - 2) = omega arith in
    let e' : get_elem? cs (suc (length cs - 2)) ≡ some c = rw (← back) e in rw (back, e')

state_at_end :
    (cs : List UndoableChange) (c : UndoableChange)
    → IsValid (record { changes = cs; idx = none })
    → get_elem? cs (length cs - 1) ≡ some c
    → str_eq c.desc "nothing" ≡ false
    → state (record { changes = cs; idx = none })
      ≡ done (record { undo = some c.desc; redo = none })
unfolding state
state_at_end cs c v e n = rw (indexes_at_end cs c v e n, e, desc_at)

undo_at_end :
    (cs : List UndoableChange) (c : UndoableChange)
    → IsValid (record { changes = cs; idx = none })
    → 2 ≤ length cs
    → get_elem? cs (length cs - 1) ≡ some c
    → str_eq c.desc "nothing" ≡ false
    → undo (record { changes = cs; idx = none })
      ≡ done (record { changes = cs; idx = some (length cs - 2) }, some c.undo)
unfolding undo
undo_at_end cs c v h e n = rw (indexes_at_end cs c v e n) (undo_at-last cs c h e)

-- The state that clients see can always be given.
pub state-IsValid : (u : UndoContext) → IsValid u → (st : UndoState) × (state u ≡ done st)
unfolding state
state-IsValid u v =
    let (c, e) = get_elem?-lt u.changes (position u) (position-lt u v) in
    let back = if not (str_eq c.desc "nothing") then some (position u) else none in
    let on =
      if is_some (get_elem? u.changes (position u + 1)) then some (position u + 1) else none in
    (
      record { undo = desc_at u.changes back; redo = desc_at u.changes on },
      rw (indexes_lem u c v e, ◌>>=◌) refl,
    )

-- A registered change and its undo: what clients see of the change, and that the histories are
-- valid.
pub register-undo-IsValid :
    (u : UndoContext) (c : UndoableChange)
    → IsValid u
    → str_eq c.desc "nothing" ≡ false
    → (u' : UndoContext) × (u'' : UndoContext) × (register_change u c ≡ done u')
      × (undo u' ≡ done (u'', some c.undo))
      × (state u' ≡ done (record { undo = some c.desc; redo = none }))
      × IsValid u'
      × IsValid u''
register-undo-IsValid u c v n =
    let kept = take (suc (position u)) u.changes in
    let cs = push_bounded kept c in
    let size = length-take (suc (position u)) u.changes in
    let sized = length-push_bounded kept c (omega (arith, size, v.bounded)) in
    let w : IsValid (record { changes = cs; idx = none }) = record {
      nonempty = sized.0;
      bounded = sized.1;
      fits = tt;
    } in
    let last = get_elem?-push_bounded kept c in
    let two = length-push_bounded_two kept c (omega (arith, size, v.nonempty)) in
    (
      record { changes = cs; idx = none },
      record { changes = cs; idx = some (length cs - 2) },
      register_change_lem u c v,
      undo_at_end cs c w two last n,
      state_at_end cs c w last n,
      w,
      record { nonempty = sized.0; bounded = sized.1; fits = omega arith },
    )

-- After a change with a name of its own is registered, undo gives its undo command, and the state
-- that clients see names it as the change to undo and offers no redo.
pub undo-register_change :
    (u : UndoContext) (c : UndoableChange)
    → IsValid u
    → str_eq c.desc "nothing" ≡ false
    → (u' : UndoContext) × (u'' : UndoContext) × (register_change u c ≡ done u')
      × (undo u' ≡ done (u'', some c.undo))
      × (state u' ≡ done (record { undo = some c.desc; redo = none }))
undo-register_change u c v n =
    let (u', u'', e, f, st, _, _) = register-undo-IsValid u c v n in (u', u'', e, f, st)
