-- ===== src/ActionManager/Editing.antt =====
-- Taking an action out of the map to edit it, and putting it back.
use sqa.Base.{
  ℕ, ◌≡◌, refl, sym, ap, ◌∙◌, Bool, true, false, none, some, done, arith, ◌==◌, if◌then◌else◌,
  is_some, Bool-cases, inl, inr, ==_refl, ==_iff,
}
use sqa.Base.HashMap
use sqa.Base.HashSet
use sqa.Base.HashSet.{HashSet, contains}
use sqa.ActionManager.{ActionManager, get, remove_for_editing, insert_after_editing, mark_changed}
use sqa.ActionManager.Invariant.{IsValid}

module _ {A : Type 0} where
  abbrev edited : ActionManager A → ℕ → HashSet → A → ActionManager A
  edited m uuid changed act = record m {
    actions = HashMap.insert uuid act (HashMap.remove uuid m.actions);
    changed = changed;
  }

  gone : (m : ActionManager A) (uuid : ℕ) → HashMap.get uuid (HashMap.remove uuid m.actions) ≡ none
  gone m uuid = HashMap.get-remove uuid uuid m.actions ∙ rw (==_refl uuid)

  found :
      (m : ActionManager A) (uuid : ℕ) (act : A)
      → HashMap.get uuid (HashMap.insert uuid act (HashMap.remove uuid m.actions)) ≡ some act
  found m uuid act =
      HashMap.get-insert uuid uuid act (HashMap.remove uuid m.actions) ∙ rw (==_refl uuid)

  others :
      (m : ActionManager A) (uuid : ℕ) (act : A) (k : ℕ)
      → (uuid == k) ≡ false
      → HashMap.get k (HashMap.insert uuid act (HashMap.remove uuid m.actions))
        ≡ HashMap.get k m.actions
  others m uuid act k n =
      HashMap.get-insert uuid k act (HashMap.remove uuid m.actions)
      ∙ rw n (HashMap.get-remove uuid k m.actions ∙ rw n)

  edited-IsValid :
      (m : ActionManager A) (uuid : ℕ) (changed : HashSet) (act act' : A)
      → IsValid m
      → HashMap.get uuid m.actions ≡ some act
      → IsValid (edited m uuid changed act')
  edited-IsValid m uuid changed act act' v e = record {
    no_dup = v.no_dup;
    listed = λ k. elim (Bool-cases (uuid == k)) [
      | inl t ↦
          let same : uuid ≡ k = (==_iff uuid k).0 t in
          v.listed k ∙ rw (← same) (rw (e, found m uuid act'))
      | inr t ↦ v.listed k ∙ ap is_some (sym (others m uuid act' k t))
    ];
  }

  -- An edit takes the action out, and putting an action back under the same UUID succeeds: that
  -- action is then found there, all others are as before, so is the order, the UUID is marked as
  -- changed where that was asked for, and the manager stays valid.
  pub edit_lem :
      (m : ActionManager A) (uuid : ℕ) (mark : Bool) (act act' : A)
      → IsValid m
      → get m uuid ≡ some act
      → (m' : ActionManager A) × (m'' : ActionManager A) × (remove_for_editing m uuid mark
          ≡ (m', some act))
        × (insert_after_editing m' uuid act' ≡ done m'')
        × (get m'' uuid ≡ some act')
        × ((k : ℕ) → (uuid == k) ≡ false → get m'' k ≡ get m k)
        × (m''.order ≡ m.order)
        × (m''.order_changed ≡ m.order_changed)
        × (m''.changed ≡ (if mark then HashSet.insert uuid m.changed else m.changed))
        × IsValid m''
  unfolding remove_for_editing insert_after_editing get mark_changed
  edit_lem m uuid true act act' v e = (
    record m { actions = HashMap.remove uuid m.actions; changed = HashSet.insert uuid m.changed },
    edited m uuid (HashSet.insert uuid m.changed) act',
    ground arith,
    rw (gone m uuid),
    found m uuid act',
    others m uuid act',
    refl,
    refl,
    refl,
    edited-IsValid m uuid _ act act' v e,
  )
  edit_lem m uuid false act act' v e = (
    record m { actions = HashMap.remove uuid m.actions },
    edited m uuid m.changed act',
    ground arith,
    rw (gone m uuid),
    found m uuid act',
    others m uuid act',
    refl,
    refl,
    refl,
    edited-IsValid m uuid _ act act' v e,
  )
