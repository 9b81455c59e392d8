-- ===== src/ActionManager/Runs.antt =====
-- Every manager that the operations can reach is valid.
use sqa.Base.{ℕ, ◌≡◌, String, Bool, Option, none, some, List, done, Result, ok, arith, is_some}
use sqa.Base.HashMap
use sqa.Base.HashMap.{HashMap}
use sqa.ActionManager.{
  ActionManager, new, get, insert, reorder, remove, remove_for_editing, insert_after_editing,
  mark_changed, clear_changed, clear_order_changed, register_interest, unregister_interest,
  restore_order, insert_with_order, remove_all_for_editing,
}
use sqa.ActionManager.Invariant.{IsValid}
use sqa.ActionManager.Removal.{remove_lem}
use sqa.ActionManager.Edits.{
  Within, Within-IsValid, edits-Within, misses-Within, mutates-Within, put_all, edits_all-IsValid,
}
use sqa.ActionManager.Steps.{
  IsComplete, new-IsValid, IsValid-same, reorder-IsValid, insert-IsValid,
  inserts_with_order-IsValid, restores-IsValid,
}

module _ {A : Type 0} where
  -- One call by the rest of the program, or an edit: the action that is taken out comes back under its
  -- UUID, perhaps changed, and in between the program may make calls that keep the order and the
  -- UUIDs that have an action. `mutates` is a change through `get_mut`.
  pub data Step (m m' : ActionManager A) : Type 0 where
    inserts : (uuid : ℕ) (act : A) → insert m uuid act ≡ done m' → Step m m'
    removes : (uuid : ℕ) (r : Option A) → remove m uuid ≡ done (m', r) → Step m m'
    reorders :
        (uuid new_pos : ℕ) (r : Result (Unit {0}))
        → reorder m uuid new_pos ≡ done (m', r)
        → Step m m'
    edits :
        (uuid : ℕ) (mark : Bool) (act act' : A) (out out' : ActionManager A)
        → get m uuid ≡ some act
        → remove_for_editing m uuid mark ≡ (out, some act)
        → Within out out'
        → insert_after_editing out' uuid act' ≡ done m'
        → Step m m'
    misses :
        (uuid : ℕ) (mark : Bool)
        → get m uuid ≡ none
        → remove_for_editing m uuid mark ≡ (m', none)
        → Step m m'
    mutates :
        (uuid : ℕ) (act act' : A)
        → get m uuid ≡ some act
        → m' ≡ record m { actions = HashMap.insert uuid act' m.actions }
        → Step m m'
    marks : (uuid : ℕ) → m' ≡ mark_changed m uuid → Step m m'
    clears : m' ≡ (clear_changed m).0 → Step m m'
    clears_order : m' ≡ (clear_order_changed m).0 → Step m m'
    registers : (uuid : ℕ) → m' ≡ register_interest m uuid → Step m m'
    unregisters : (uuid : ℕ) → m' ≡ unregister_interest m uuid → Step m m'
    restores :
        (show : ℕ → String) (order : List ℕ) (r : Result (Unit {0}))
        → restore_order show m order ≡ (m', r)
        → (r ≡ ok tt → IsComplete m order)
        → Step m m'
    inserts_with_order :
        (uuid : ℕ) (act : A) (order : ℕ)
        → get m uuid ≡ none
        → insert_with_order m uuid act order ≡ done m'
        → Step m m'
    edits_all :
        (out : ActionManager A) (acts acts' : HashMap A)
        → remove_all_for_editing m ≡ (out, acts)
        → ((k : ℕ) → is_some (HashMap.get k acts') ≡ is_some (HashMap.get k acts))
        → put_all acts' out ≡ done m'
        → Step m m'
    resets : m' ≡ new → Step m m'

  pub data Reach (m : ActionManager A) : ActionManager A → Type 0 where
    here : Reach m m
    next : {n o : ActionManager A} → Reach m n → Step n o → Reach m o

  pub Step-IsValid : {m m' : ActionManager A} → Step m m' → IsValid m → IsValid m'
  unfolding mark_changed clear_changed clear_order_changed register_interest unregister_interest
  Step-IsValid {m} {m'} (inserts uuid act e) v = insert-IsValid m m' uuid act v e
  Step-IsValid {m} {m'} (removes uuid r e) v =
      let (w, e', g, p, o, valid) = remove_lem m uuid v in
      IsValid-same {m = w} (ground arith) (ground arith) valid
  Step-IsValid {m} {m'} (reorders uuid new_pos r e) v = reorder-IsValid m m' uuid new_pos r v e
  Step-IsValid {m} {m'} (edits uuid mark act act' out out' g e w f) v =
      Within-IsValid (edits-Within m out out' m' uuid mark act act' g e w f) v
  Step-IsValid {m} {m'} (misses uuid mark g e) v =
      Within-IsValid (misses-Within m m' uuid mark g e) v
  Step-IsValid {m} (mutates uuid act act' g e) v =
      rw e (Within-IsValid (mutates-Within m uuid act act' g) v)
  Step-IsValid {m} (marks uuid e) v = IsValid-same {m = m} (ground arith) (ground arith) v
  Step-IsValid {m} (clears e) v = IsValid-same {m = m} (ground arith) (ground arith) v
  Step-IsValid {m} (clears_order e) v = IsValid-same {m = m} (ground arith) (ground arith) v
  Step-IsValid {m} (registers uuid e) v = IsValid-same {m = m} (ground arith) (ground arith) v
  Step-IsValid {m} (unregisters uuid e) v = IsValid-same {m = m} (ground arith) (ground arith) v
  Step-IsValid {m} {m'} (restores show order r e c) v = restores-IsValid show m m' order r v e c
  Step-IsValid {m} {m'} (inserts_with_order uuid act order n e) v =
      inserts_with_order-IsValid m m' uuid act order v n e
  Step-IsValid {m} {m'} (edits_all out acts acts' e same p) v =
      edits_all-IsValid m out m' acts acts' v e same p
  Step-IsValid (resets e) v = rw e new-IsValid

  -- After any sequence of calls none of which panics, starting from the empty manager, the order
  -- lists exactly the UUIDs that have an action, each once. An edit, of one action or of all, counts
  -- as one call from taking out to putting back under the same UUIDs; while an action is out, the
  -- other calls keep the order and the UUIDs that have an action. The code itself checks neither
  -- condition under which this holds: that an order that is restored with success repeats no UUID and
  -- lists every action, and that `insert_with_order` is called with a UUID that has no action.
  pub Reach-IsValid : {m : ActionManager A} → Reach new m → IsValid m
  Reach-IsValid here = new-IsValid
  Reach-IsValid (next r s) = Step-IsValid s (Reach-IsValid r)
