-- ===== src/ActionManager/Steps.antt =====
-- How the operations that change the order keep the manager valid.
use sqa.Base.{
  ℕ, ◌≡◌, refl, ap, sym, ◌∙◌, String, true, none, List, length, done, Result, ok, arith, ltb,
  ltb→lt, ltb-false→le, is_some, Bool-cases, Option-cases, inl, inr, >>=-eq-done, insert_idx,
  if◌then◌else◌,
}
use sqa.Base.HashMap
use sqa.Base.HashMap.{HashMap}
use sqa.Base.HashSet.{contains}
use sqa.ActionManager.{
  ActionManager, new, get, position_of, insert, reorder, restore_order, insert_with_order,
}
use sqa.ActionManager.Vector.{position, NoDup, vec_insert, contains-insert_idx, NoDup-insert_idx}
use sqa.ActionManager.Invariant.{IsValid, insert_lem, unlisted}
use sqa.ActionManager.Reorder.{reorder_lem, reorder-fails}
use sqa.ActionManager.Restoring.{restore_order_lem}

module _ {A : Type 0} where
  -- An order that repeats no UUID and lists each one that has an action.
  pub record IsComplete (m : ActionManager A) (order : List ℕ) : Type 0 where
    pub once : NoDup order
    pub all : (k : ℕ) → is_some (get m k) ≡ true → contains k order ≡ true

  pub new-IsValid : IsValid (new {A = A})
  unfolding new contains HashMap.get
  new-IsValid = record { no_dup = tt; listed = λ k. refl }

  -- Only the actions and the order matter.
  pub IsValid-same :
      {m m' : ActionManager A}
      → m'.order ≡ m.order
      → m'.actions ≡ m.actions
      → IsValid m
      → IsValid m'
  IsValid-same o a v = record { no_dup = rw o v.no_dup; listed = λ k. rw (o, a) (v.listed k) }

  pub reorder-IsValid :
      (m m' : ActionManager A) (uuid new_pos : ℕ) (r : Result (Unit {0}))
      → IsValid m
      → reorder m uuid new_pos ≡ done (m', r)
      → IsValid m'
  unfolding position_of
  reorder-IsValid m m' uuid new_pos r v e =
      let (absent, out, moves, total) = reorder-fails m uuid new_pos in
      elim (Option-cases (position uuid m.order)) [
        | inl n ↦ IsValid-same {m = m} (ground (arith, absent n)) (ground (arith, absent n)) v
        | inr (pos, n) ↦ elim (Bool-cases (ltb new_pos (length m.order))) [
          | inl t ↦
              let (order, e', p, q, w, back) = reorder_lem m uuid new_pos pos v n (ltb→lt _ _ t) in
              IsValid-same {m = record m { order = order; order_changed = true }} (ground arith)
                (ground arith) w
          | inr t ↦
              let o = out pos n (ltb-false→le _ _ t) in
              IsValid-same {m = m} (ground arith) (ground arith) v
        ]
      ]

  pub insert-IsValid :
      (m m' : ActionManager A) (uuid : ℕ) (act : A)
      → IsValid m
      → insert m uuid act ≡ done m'
      → IsValid m'
  insert-IsValid m m' uuid act v e = elim (Option-cases (get m uuid)) [
    | inl n ↦
        let (w, e', g, p, o, valid) = (insert_lem m uuid act v).0 n in
        IsValid-same {m = w} (ground arith) (ground arith) valid
    | inr (a, n) ↦ let f = (insert_lem m uuid act v).1 (ap is_some n) in absurd (cc)
  ]

  pub inserts_with_order-IsValid :
      (m m' : ActionManager A) (uuid : ℕ) (act : A) (order : ℕ)
      → IsValid m
      → get m uuid ≡ none
      → insert_with_order m uuid act order ≡ done m'
      → IsValid m'
  unfolding insert_with_order vec_insert
  inserts_with_order-IsValid m m' uuid act order v n e =
      let at = if ltb (length m.order) order then length m.order else order in
      let placed = insert_idx m.order at uuid in
      let (b, p, q) = >>=-eq-done (vec_insert m.order at uuid) _ e in
      let same : b ≡ placed = ground arith in
      let there : m' ≡ record m {
        actions = HashMap.insert uuid act m.actions;
        order = placed;
        order_changed = true;
      } =
        ground (arith, same) in
      rw there (record {
        no_dup = NoDup-insert_idx m.order at uuid v.no_dup (unlisted m uuid v n).0;
        listed = λ k. ground (
          arith,
          contains-insert_idx m.order at uuid k,
          HashMap.get-insert uuid k act m.actions,
          v.listed k,
        );
      })

  pub restores-IsValid :
      (show : ℕ → String) (m m' : ActionManager A) (order : List ℕ) (r : Result (Unit {0}))
      → IsValid m
      → restore_order show m order ≡ (m', r)
      → (r ≡ ok tt → IsComplete m order)
      → IsValid m'
  restores-IsValid show m m' order r v e c = elim (restore_order_lem show m order) [
    | inl (k, l, n, q) ↦ let same : m' ≡ m = ap (λ z. z.0) (sym e ∙ q) in rw same v
    | inr (q, known, valid) ↦
        let fine = c (ap (λ z. z.1) (sym e ∙ q)) in
        let same : (restore_order show m order).0 ≡ m' = ap (λ z. z.0) e in
        rw (← same) (valid fine.once fine.all)
  ]
