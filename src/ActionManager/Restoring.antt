-- ===== src/ActionManager/Restoring.antt =====
-- What restoring an order keeps of the manager.
use sqa.Base.{
  ℕ, ◌≡◌, ◌⊎◌, String, str_append, true, none, some, List, [], ◌∷◌, ok, err, arith, is_some,
  Option-cases, inl, inr, bool_ext,
}
use sqa.Base.HashMap
use sqa.Base.HashSet.{contains}
use sqa.ActionManager.{ActionManager, get, restore_order, missing}
use sqa.ActionManager.Vector.{NoDup}
use sqa.ActionManager.Invariant.{IsValid}

module _ {A : Type 0} where
  missing-known :
      (actions : HashMap.HashMap A) (order : List ℕ)
      → missing actions order ≡ none
      → (k : ℕ) → contains k order ≡ true
      → is_some (HashMap.get k actions) ≡ true
  unfolding missing contains
  missing-known actions [] e k h = cc
  missing-known actions (x ∷ order) e k h =
      ground (arith, λ (e' : missing actions order ≡ none). missing-known actions order e' k)

  missing-unknown :
      (actions : HashMap.HashMap A) (order : List ℕ) (k : ℕ)
      → missing actions order ≡ some k
      → (contains k order ≡ true) × (HashMap.get k actions ≡ none)
  unfolding missing contains
  missing-unknown actions [] k e = cc
  missing-unknown actions (x ∷ order) k e = ground (arith, missing-unknown actions order k)

  -- Restoring an order either fails and changes nothing, with a message that names a UUID of the
  -- order that has no action, or sets the order; then each UUID of the order has an action, and the manager is valid
  -- if the order repeats no UUID and lists each one that has an action. Neither is checked.
  pub restore_order_lem :
      (show : ℕ → String) (m : ActionManager A) (order : List ℕ)
      → ((k : ℕ) × (contains k order ≡ true)
          × (get m k ≡ none)
          × (restore_order show m order ≡ (
            m,
            err (
                str_append "UUID "
                  (str_append (show k) " is mentioned in order, but doesn't exist")),
          )))
        ⊎ ((restore_order show m order ≡ (record m { order = order }, ok tt))
            × ((k : ℕ) → contains k order ≡ true → is_some (get m k) ≡ true)
            × (NoDup order
                → ((k : ℕ) → is_some (get m k) ≡ true → contains k order ≡ true)
                → IsValid (restore_order show m order).0))
  unfolding restore_order get
  restore_order_lem show m order = elim (Option-cases (missing m.actions order)) [
    | inl e ↦
        let known = missing-known m.actions order e in
        inr (
          rw (e, restore_order),
          known,
          λ d all.
              rw (e, restore_order)
                (record { no_dup = d; listed = λ k. bool_ext _ _ (known k) (all k) }),
        )
    | inr (k, e) ↦
        let (c, n) = missing-unknown m.actions order k e in inl (k, c, n, rw (e, restore_order))
  ]
