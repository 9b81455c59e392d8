-- ===== src/ActionManager/Removal.antt =====
-- Removing an action for good, and taking it out to edit it.
use sqa.Base.{
  ℕ, ◌<◌, ◌≡◌, ◌∙◌, Bool, true, false, none, some, List, length, erase_idx, done, arith, ◌==◌,
  Option-cases, inl, inr, lt-length_of_get_elem?, ==_refl,
}
use sqa.Base.HashMap
use sqa.Base.HashSet.{contains}
use sqa.ActionManager.{ActionManager, get, position_of, unlist, remove}
use sqa.ActionManager.Vector.{
  position, vec_remove, position-get_elem?, position-contains, position-none_iff_false,
  contains-erase_idx, NoDup-erase_idx,
}
use sqa.ActionManager.Invariant.{IsValid}

-- The order without its entry at a position has no trace of it.
position-not_contains : (xs : List ℕ) (k : ℕ) → contains k xs ≡ false → position k xs ≡ none
position-not_contains xs k h = elim (Option-cases (position k xs)) [
  | inl n ↦ n
  | inr (i, n) ↦ absurd (cc (position-contains k xs i n))
]

module _ {A : Type 0} where
  -- The manager after `remove`.
  abbrev without : ActionManager A → ℕ → List ℕ → Bool → ActionManager A
  without m uuid order flag = record m {
    order = order;
    order_changed = flag;
    actions = HashMap.remove uuid m.actions;
  }

  abbrev Removed : ActionManager A → ℕ → ActionManager A → Type 0
  Removed m uuid m' =
      (remove m uuid ≡ done (m', get m uuid))
      × (get m' uuid ≡ none)
      × (position_of m' uuid ≡ none)
      × ((k : ℕ) → (uuid == k) ≡ false → get m' k ≡ get m k)
      × IsValid m'

  unlist-none :
      (m : ActionManager A) (uuid : ℕ) → position uuid m.order ≡ none → unlist m uuid ≡ done m
  unfolding unlist
  unlist-none m uuid e = rw (e, unlist)

  unlist-some :
      (m : ActionManager A) (uuid pos : ℕ)
      → position uuid m.order ≡ some pos
      → pos < length m.order
      → unlist m uuid ≡ done (record m { order = erase_idx m.order pos; order_changed = true })
  unfolding unlist vec_remove
  unlist-some m uuid pos e h = rw (e, unlist) (ground arith)

  remove-unlisted :
      (m : ActionManager A) (uuid : ℕ)
      → IsValid m
      → position uuid m.order ≡ none
      → Removed m uuid (without m uuid m.order m.order_changed)
  unfolding remove get position_of
  remove-unlisted m uuid v e =
      let free = position-none_iff_false uuid m.order e in
      (
        rw (unlist-none m uuid e),
        ground (arith, HashMap.get-remove uuid uuid m.actions),
        e,
        λ k n. ground (arith, HashMap.get-remove uuid k m.actions),
        record {
          no_dup = v.no_dup;
          listed =
              λ k. ground (arith, HashMap.get-remove uuid k m.actions, v.listed k, v.listed uuid);
        },
      )

  remove-listed :
      (m : ActionManager A) (uuid pos : ℕ)
      → IsValid m
      → position uuid m.order ≡ some pos
      → Removed m uuid (without m uuid (erase_idx m.order pos) true)
  unfolding remove get position_of vec_remove
  remove-listed m uuid pos v e =
      let at = position-get_elem? uuid m.order pos e in
      let small = lt-length_of_get_elem? m.order pos at in
      let gone : contains uuid (erase_idx m.order pos) ≡ false =
        contains-erase_idx m.order pos uuid uuid v.no_dup at ∙ rw (==_refl uuid) in
      (
        rw (unlist-some m uuid pos e small),
        ground (arith, HashMap.get-remove uuid uuid m.actions),
        position-not_contains (erase_idx m.order pos) uuid gone,
        λ k n. ground (arith, HashMap.get-remove uuid k m.actions),
        record {
          no_dup = NoDup-erase_idx m.order pos uuid v.no_dup at;
          listed = λ k. ground (
            arith,
            contains-erase_idx m.order pos uuid k v.no_dup at,
            HashMap.get-remove uuid k m.actions,
            v.listed k,
          );
        },
      )

  -- `remove` on a valid manager gives back the action, leaves no trace of the UUID in the map or in
  -- the order, keeps the other actions and keeps the manager valid.
  pub remove_lem :
      (m : ActionManager A) (uuid : ℕ)
      → IsValid m
      → (m' : ActionManager A) × (remove m uuid ≡ done (m', get m uuid))
        × (get m' uuid ≡ none)
        × (position_of m' uuid ≡ none)
        × ((k : ℕ) → (uuid == k) ≡ false → get m' k ≡ get m k)
        × IsValid m'
  remove_lem m uuid v = elim (Option-cases (position uuid m.order)) [
    | inl e ↦
        let (r, g, p, o, w) = remove-unlisted m uuid v e in
        (without m uuid m.order m.order_changed, r, g, p, o, w)
    | inr (pos, e) ↦
        let (r, g, p, o, w) = remove-listed m uuid pos v e in
        (without m uuid (erase_idx m.order pos) true, r, g, p, o, w)
  ]
