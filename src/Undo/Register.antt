-- ===== src/Undo/Register.antt =====
-- Registering a change, on the vector and on the two stacks.
use mathlib.Core.List.{reverse-append, reverse-cons}
use native.Mathlib.Numerals.{add-one}
use sqa.Base.{
  ℕ, zero, suc, ◌-◌, ◌≤◌, ◌≡◌, refl, sym, ap, ◌∙◌, List, [], ◌∷◌, ◌++◌, reverse, none, length, take,
  drop, done, arith, inl, inr, Bool-cases, Option-cases, length-append, length-reverse, take-all,
  drop-all, ltb→lt, ltb-false→le, length-take, ltb, le→leb,
}
use sqa.Undo.{
  UndoableChange, UndoContext, obliterate_redo, push_bounded, register_change, max_undos,
}
use sqa.Undo.History
use sqa.Undo.History.{History, history}
use sqa.Undo.View.{IsValid, position, view}

take-append_length : (xs ys : List UndoableChange) (n : ℕ) → length xs ≡ n → take n (xs ++ ys) ≡ xs
take-append_length [] ys zero h = refl
take-append_length [] ys (suc n) h = absurd (omega arith)
take-append_length (x ∷ xs) ys zero h = absurd (omega arith)
take-append_length (x ∷ xs) ys (suc n) h = ap (x ∷◌) (take-append_length xs ys n (omega arith))

-- What is left of the history when its redoable changes are gone.
obliterate_redo-take :
    (u : UndoContext) → IsValid u → obliterate_redo u ≡ done (take (suc (position u)) u.changes)
unfolding obliterate_redo
obliterate_redo-take u v = elim (Option-cases u.idx) [
  | inl e ↦ rw (e, take-all (suc (length u.changes - 1)) u.changes (omega arith))
  | inr (i, e) ↦ rw (e, add-one, le→leb (suc i) (length u.changes) (ground arith))
]

push-full :
    (x : UndoableChange) (xs : List UndoableChange) (c : UndoableChange)
    → length xs ≡ 99
    → reverse (drop 1 (x ∷ xs ++ c ∷ [])) ≡ take max_undos (c ∷ reverse (x ∷ xs))
push-full x xs c h =
    rw (reverse-append xs (c ∷ []), reverse-cons x xs)
      (ap (c ∷◌) (sym (take-append_length (reverse xs) (x ∷ []) 99 (length-reverse xs ∙ h))))

reverse-push_bounded :
    (cs : List UndoableChange) (c : UndoableChange)
    → length cs ≤ max_undos
    → reverse (push_bounded cs c) ≡ take max_undos (c ∷ reverse cs)
unfolding push_bounded
reverse-push_bounded [] c h = refl
reverse-push_bounded (x ∷ xs) c h = elim (Bool-cases (ltb max_undos (length (x ∷ xs ++ c ∷ [])))) [
  | inl t ↦ rw t (push-full x xs c (omega (arith, ltb→lt _ _ t, length-append xs (c ∷ []))))
  | inr t ↦ rw t (
      reverse-append (x ∷ xs) (c ∷ [])
      ∙ sym (
          take-all max_undos (c ∷ reverse (x ∷ xs)) (
            omega (arith, ltb-false→le _ _ t, length-append xs (c ∷ []), length-reverse (x ∷ xs)))))
]

-- The result of registering, where the history is valid.
pub register_change_lem :
    (u : UndoContext) (c : UndoableChange)
    → IsValid u
    → register_change u c
      ≡ done (record { changes = push_bounded (take (suc (position u)) u.changes) c; idx = none })
unfolding register_change
register_change_lem u c v = rw (obliterate_redo-take u v)

pub length-push_bounded :
    (cs : List UndoableChange) (c : UndoableChange)
    → length cs ≤ max_undos
    → (1 ≤ length (push_bounded cs c)) × (length (push_bounded cs c) ≤ max_undos)
unfolding push_bounded
length-push_bounded [] c h = omega arith
length-push_bounded (x ∷ xs) c h = ground (arith, length-append xs (c ∷ []))

view-no_idx :
    (cs : List UndoableChange)
    → 1 ≤ length cs
    → view (record { changes = cs; idx = none }) ≡ history (reverse cs) []
view-no_idx cs h = rw (
  take-all (suc (length cs - 1)) cs (omega arith),
  drop-all (suc (length cs - 1)) cs (omega arith),
)

-- Registering pushes on the past, forgets the oldest change beyond the limit, and clears the future.
pub register-refines :
    (u : UndoContext) (c : UndoableChange)
    → IsValid u
    → (u' : UndoContext) × (register_change u c ≡ done u')
      × IsValid u'
      × (view u' ≡ History.register (view u) c)
register-refines u c v =
    let kept = take (suc (position u)) u.changes in
    let small : length kept ≤ max_undos =
      omega (arith, v.bounded, length-take (suc (position u)) u.changes) in
    let sized = length-push_bounded kept c small in
    (
      record { changes = push_bounded kept c; idx = none },
      register_change_lem u c v,
      record { nonempty = sized.0; bounded = sized.1; fits = tt },
      view-no_idx _ sized.0
          ∙ ap (λ (p : List UndoableChange). history p []) (reverse-push_bounded kept c small),
    )
