-- ===== src/ActionManager/Invariant.antt =====
-- The order lists each action once, and no other UUID.
use sqa.Base.{
  ℕ, ◌≡◌, refl, ap, ◌∙◌, true, false, none, some, [], ◌∷◌, ◌++◌, length, done, panic, arith,
  is_some, Option-cases, inl, inr,
}
use sqa.Base.HashMap
use sqa.Base.HashSet.{contains}
use sqa.ActionManager.{ActionManager, get, position_of, insert}
use sqa.ActionManager.Vector.{
  position, NoDup, position-contains, contains-insert_idx, NoDup-insert_idx, position-insert_idx,
  insert_idx-length,
}

module _ {A : Type 0} where
  pub record IsValid (m : ActionManager A) : Type 0 where
    pub no_dup : NoDup m.order
    pub listed : (k : ℕ) → contains k m.order ≡ is_some (HashMap.get k m.actions)

  pub unlisted :
      (m : ActionManager A) (uuid : ℕ)
      → IsValid m
      → get m uuid ≡ none
      → (contains uuid m.order ≡ false) × (position uuid m.order ≡ none)
  unfolding get
  unlisted m uuid v e =
      let free : contains uuid m.order ≡ false = v.listed uuid ∙ ap is_some e in
      (
        free,
        elim (Option-cases (position uuid m.order)) [
          | inl n ↦ n
          | inr (i, n) ↦ absurd (cc (position-contains uuid m.order i n))
        ],
      )

  -- In a valid manager, inserting under a UUID without an action succeeds, puts the action at the
  -- end of the order and keeps the manager valid; under one that has an action it panics.
  pub insert_lem :
      (m : ActionManager A) (uuid : ℕ) (act : A)
      → IsValid m
      → (get m uuid ≡ none
          → (m' : ActionManager A) × (insert m uuid act ≡ done m')
            × (get m' uuid ≡ some act)
            × (position_of m' uuid ≡ some (length m.order))
            × (m'.order_changed ≡ true)
            × IsValid m')
        × (is_some (get m uuid) ≡ true → insert m uuid act ≡ panic)
  unfolding insert get position_of
  insert_lem m uuid act v = (
    λ e.
        let (free, no_pos) = unlisted m uuid v e in
        let same = insert_idx-length m.order uuid in
        (
          record m {
            actions = HashMap.insert uuid act m.actions;
            order = m.order ++ uuid ∷ [];
            order_changed = true;
          },
          rw (e, no_pos),
          ground (arith, HashMap.get-insert uuid uuid act m.actions),
          rw (← same) (position-insert_idx m.order (length m.order) uuid (omega arith) free),
          refl,
          record {
            no_dup = rw (← same) (NoDup-insert_idx m.order (length m.order) uuid v.no_dup free);
            listed = λ k. rw (← same) (
                ground (
                  arith,
                  contains-insert_idx m.order (length m.order) uuid k,
                  HashMap.get-insert uuid k act m.actions,
                  v.listed k,
                ));
          },
        ),
    λ e. rw e,
  )
