-- ===== src/ActionManager.antt =====
-- The action manager (sqa-backend/src/action_manager.rs): the actions by UUID, their order on
-- screen, and the sets of actions that changed or want to be polled. Over any type of actions.
pub mod Vector
pub mod Invariant
pub mod Reorder
pub mod Removal
pub mod Editing
pub mod Restoring
pub mod Edits
pub mod Steps
pub mod Runs
mod Tests
use sqa.Base.{
  ℕ, zero, suc, String, str_append, Bool, true, false, not, Option, none, some, List, [], ◌∷◌, ◌++◌,
  length, Outcome, done, panic, ◌>>=◌, ◌>>◌, assert, Result, ok, err, ltb, leb, ◌==◌, if◌then◌else◌,
  is_some,
}
use sqa.Base.HashMap.{HashMap}
use sqa.Base.HashMap
use sqa.Base.HashSet.{HashSet}
use sqa.Base.HashSet
use Vector.{position, vec_insert, vec_remove}

pub record ActionManager (A : Type 0) : Type 0 where
  pub actions : HashMap A
  pub async_actions : HashSet
  pub changed : HashSet
  pub order : List ℕ
  pub order_changed : Bool

module _ {A : Type 0} where
  unfoldable pub new : ActionManager A
  new = record { actions = []; async_actions = []; changed = []; order = []; order_changed = false }

  unfoldable pub get : ActionManager A → ℕ → Option A
  get m uuid = HashMap.get uuid m.actions

  unfoldable pub position_of : ActionManager A → ℕ → Option ℕ
  position_of m uuid = position uuid m.order

  -- The first UUID of an order that has no action.
  unfoldable pub missing : HashMap A → List ℕ → Option ℕ
  missing actions [] = none
  missing actions (uu ∷ order) =
      if is_some (HashMap.get uu actions) then missing actions order else some uu

  -- `show` is the display of a UUID.
  unfoldable pub restore_order :
      (ℕ → String) → ActionManager A → List ℕ → ActionManager A × Result (Unit {0})
  unfolding missing
  restore_order show m order = elim (missing m.actions order) [
    | some uu ↦ (
      m,
      err (str_append "UUID " (str_append (show uu) " is mentioned in order, but doesn't exist")),
    )
    | none ↦ (record m { order = order }, ok tt)
  ]

  unfoldable pub action_list : ActionManager A → List ℕ
  action_list m = HashMap.keys m.actions

  -- With its two assertions.
  unfoldable pub insert : ActionManager A → ℕ → A → Outcome (ActionManager A)
  insert m uuid act = do
    assert (not (is_some (HashMap.get uuid m.actions)))
    assert (not (is_some (position uuid m.order)))
    done (record m {
      actions = HashMap.insert uuid act m.actions;
      order = m.order ++ uuid ∷ [];
      order_changed = true;
    })

  unfoldable pub insert_with_order : ActionManager A → ℕ → A → ℕ → Outcome (ActionManager A)
  insert_with_order m uuid act order = do
    let at = if ltb (length m.order) order then length m.order else order
    placed ← vec_insert m.order at uuid
    done (record m {
      actions = HashMap.insert uuid act m.actions;
      order = placed;
      order_changed = true;
    })

  reorder_from : ActionManager A → ℕ → ℕ → ℕ → Outcome (ActionManager A × Result (Unit {0}))
  reorder_from m uuid new_pos pos =
      if leb (length m.order) new_pos then done (m, err "New position is out of bounds") else (do
        rest ← vec_remove m.order pos
        placed ← vec_insert rest new_pos uuid
        done (record m { order = placed; order_changed = true }, ok tt))

  unfoldable pub reorder : ActionManager A → ℕ → ℕ → Outcome (ActionManager A × Result (Unit {0}))
  unfolding reorder_from
  reorder m uuid new_pos = elim (position uuid m.order) [
    | none ↦ done (m, err "UUID not present in order")
    | some pos ↦ reorder_from m uuid new_pos pos
  ]

  -- The place in the order goes first, if there is one.
  unfoldable pub unlist : ActionManager A → ℕ → Outcome (ActionManager A)
  unlist m uuid = elim (position uuid m.order) [
    | none ↦ done m
    | some pos ↦
        vec_remove m.order pos >>= λ rest. done (record m { order = rest; order_changed = true })
  ]

  unfoldable pub remove : ActionManager A → ℕ → Outcome (ActionManager A × Option A)
  unfolding unlist
  remove m uuid = do
    m' ← unlist m uuid
    done (record m' { actions = HashMap.remove uuid m'.actions }, HashMap.get uuid m'.actions)

  unfoldable pub mark_changed : ActionManager A → ℕ → ActionManager A
  mark_changed m uu = record m { changed = HashSet.insert uu m.changed }

  unfoldable pub remove_for_editing : ActionManager A → ℕ → Bool → ActionManager A × Option A
  unfolding mark_changed
  remove_for_editing m uuid mark =
      let m' = if mark then mark_changed m uuid else m in
      (record m' { actions = HashMap.remove uuid m'.actions }, HashMap.get uuid m'.actions)

  unfoldable pub insert_after_editing : ActionManager A → ℕ → A → Outcome (ActionManager A)
  insert_after_editing m uuid act = do
    assert (not (is_some (HashMap.get uuid m.actions)))
    done (record m { actions = HashMap.insert uuid act m.actions })

  unfoldable pub remove_all_for_editing : ActionManager A → ActionManager A × HashMap A
  remove_all_for_editing m = (record m { actions = [] }, m.actions)

  unfoldable pub clear_changed : ActionManager A → ActionManager A × HashSet
  clear_changed m = (record m { changed = [] }, m.changed)

  unfoldable pub clear_order_changed : ActionManager A → ActionManager A × Bool
  clear_order_changed m = (record m { order_changed = false }, m.order_changed)

  unfoldable pub register_interest : ActionManager A → ℕ → ActionManager A
  register_interest m uu = record m { async_actions = HashSet.insert uu m.async_actions }

  unfoldable pub unregister_interest : ActionManager A → ℕ → ActionManager A
  unregister_interest m uu = record m { async_actions = HashSet.remove uu m.async_actions }
