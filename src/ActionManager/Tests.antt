-- ===== src/ActionManager/Tests.antt =====
-- The theorems on the action manager at concrete managers.
use sqa.Base.{
  ℕ, ◌≡◌, ◌≢◌, ◌⊎◌, refl, String, str_append, ◌<◌, true, false, none, some, List, [], ◌∷◌, length,
  done, panic, ok, err, arith, ◌==◌, if◌then◌else◌, is_some, ◌≤◌,
}
use sqa.Base.HashMap
use sqa.Base.HashSet
use sqa.Base.HashSet.{contains}
use sqa.ActionManager.{
  ActionManager, new, get, position_of, insert, reorder, remove, remove_for_editing,
  insert_after_editing, restore_order,
}
use sqa.ActionManager.Vector
use sqa.ActionManager.Vector.{position, NoDup}
use sqa.ActionManager.Invariant.{IsValid, insert_lem}
use sqa.ActionManager.Reorder.{moved, reorder_lem, reorder-fails}
use sqa.ActionManager.Removal.{remove_lem}
use sqa.ActionManager.Editing.{edit_lem}
use sqa.ActionManager.Restoring.{restore_order_lem}
use sqa.ActionManager.Steps.{IsComplete}
use sqa.ActionManager.Runs.{Reach, Step, Reach-IsValid}

abbrev one : ActionManager String
one = record {
  actions = (5, "rain") ∷ [];
  async_actions = [];
  changed = [];
  order = 5 ∷ [];
  order_changed = true;
}

abbrev three : ActionManager String
three = record {
  actions = (5, "rain") ∷ (8, "storm") ∷ (2, "fade") ∷ [];
  async_actions = [];
  changed = [];
  order = 5 ∷ 8 ∷ 2 ∷ [];
  order_changed = true;
}

insert-one : insert {A = String} new 5 "rain" ≡ done one
unfolding insert new position HashMap.get HashMap.insert
insert-one = refl

three-Reach : Reach new three
unfolding insert new position HashMap.get HashMap.insert
three-Reach =
    Reach.next
      (Reach.next (Reach.next Reach.here (Step.inserts 5 "rain" refl))
        (Step.inserts 8 "storm" refl))
      (Step.inserts 2 "fade" refl)

three-IsValid : IsValid three
three-IsValid = Reach-IsValid three-Reach

abbrev shown : ℕ → String
shown uuid = "8"

-- Its order is restored from a savefile, and one of its actions edited while another registers.
abbrev restored : ActionManager String
restored = record three { order = 2 ∷ 5 ∷ 8 ∷ [] }

abbrev later : ActionManager String
later = record restored {
  actions = (5, "rain") ∷ (2, "fade") ∷ (8, "thunder") ∷ [];
  async_actions = 5 ∷ [];
  changed = 8 ∷ [];
}

order-IsComplete : IsComplete three (2 ∷ 5 ∷ 8 ∷ [])
unfolding contains get HashMap.get
order-IsComplete = record { once = (refl, (refl, (refl, tt))); all = λ k e. ground arith }

later-Reach : Reach new later
unfolding restore_order remove_for_editing insert_after_editing get HashMap.get HashMap.remove
    HashSet.insert HashMap.insert
later-Reach =
    Reach.next
      (Reach.next three-Reach
        (Step.restores shown (2 ∷ 5 ∷ 8 ∷ []) (ok tt) refl (λ e. order-IsComplete)))
      (Step.edits 8 true "storm" "thunder"
        (record restored { actions = (5, "rain") ∷ (2, "fade") ∷ []; changed = 8 ∷ [] })
        (record restored {
          actions = (5, "rain") ∷ (2, "fade") ∷ [];
          changed = 8 ∷ [];
          async_actions = 5 ∷ [];
        })
        refl refl (record { same_order = refl; same_keys = λ k. refl }) refl)

Reach-IsValid_example : IsValid later
Reach-IsValid_example = Reach-IsValid later-Reach

insert_lem_example :
    (get three 9 ≡ none
      → (m' : ActionManager String) × (insert three 9 "wind" ≡ done m')
        × (get m' 9 ≡ some "wind")
        × (position_of m' 9 ≡ some 3)
        × (m'.order_changed ≡ true)
        × IsValid m')
    × (is_some (get three 9) ≡ true → insert three 9 "wind" ≡ panic)
insert_lem_example = insert_lem three 9 "wind" three-IsValid

reorder_lem_example :
    (order : List ℕ) × (reorder three 5 2
      ≡ done (record three { order = order; order_changed = true }, ok tt))
    × (position 5 order ≡ some 2)
    × (HashSet.remove 5 order ≡ HashSet.remove 5 three.order)
    × IsValid (record three { order = order; order_changed = true })
    × (reorder (record three { order = order; order_changed = true }) 5 0
        ≡ done (record three { order = three.order; order_changed = true }, ok tt))
unfolding position_of position
reorder_lem_example = reorder_lem three 5 2 0 three-IsValid refl (omega arith)

reorder-three :
    reorder three 5 2 ≡ done (record three { order = 8 ∷ 2 ∷ 5 ∷ []; order_changed = true }, ok tt)
unfolding reorder position Vector.vec_insert Vector.vec_remove
reorder-three = refl

reorder-fails_example :
    (position_of three 4 ≡ none → reorder three 4 9 ≡ done (three, err "UUID not present in order"))
    × ((pos : ℕ)
        → position_of three 4 ≡ some pos
        → length three.order ≤ 9
        → reorder three 4 9 ≡ done (three, err "New position is out of bounds"))
    × ((pos : ℕ)
        → position_of three 4 ≡ some pos
        → 9 < length three.order
        → reorder three 4 9
          ≡ done (record three { order = moved three.order pos 9 4; order_changed = true }, ok tt))
    × (reorder three 4 9 ≢ panic)
reorder-fails_example = reorder-fails three 4 9

remove_lem_example :
    (m' : ActionManager String) × (remove three 8 ≡ done (m', get three 8))
    × (get m' 8 ≡ none)
    × (position_of m' 8 ≡ none)
    × ((k : ℕ) → (8 == k) ≡ false → get m' k ≡ get three k)
    × IsValid m'
remove_lem_example = remove_lem three 8 three-IsValid

edit_lem_example :
    (m' : ActionManager String) × (m'' : ActionManager String) × (remove_for_editing three 8 true
      ≡ (m', some "storm"))
    × (insert_after_editing m' 8 "thunder" ≡ done m'')
    × (get m'' 8 ≡ some "thunder")
    × ((k : ℕ) → (8 == k) ≡ false → get m'' k ≡ get three k)
    × (m''.order ≡ three.order)
    × (m''.order_changed ≡ three.order_changed)
    × (m''.changed ≡ (if true then HashSet.insert 8 three.changed else three.changed))
    × IsValid m''
unfolding get HashMap.get
edit_lem_example = edit_lem three 8 true "storm" "thunder" three-IsValid refl

restore_order_lem_example :
    ((k : ℕ) × (contains k (5 ∷ 5 ∷ []) ≡ true)
      × (get three k ≡ none)
      × (restore_order shown three (5 ∷ 5 ∷ []) ≡ (
        three,
        err (str_append "UUID " (str_append (shown k) " is mentioned in order, but doesn't exist")),
      )))
    ⊎ ((restore_order shown three (5 ∷ 5 ∷ []) ≡ (record three { order = 5 ∷ 5 ∷ [] }, ok tt))
        × ((k : ℕ) → contains k (5 ∷ 5 ∷ []) ≡ true → is_some (get three k) ≡ true)
        × (NoDup (5 ∷ 5 ∷ [])
            → ((k : ℕ) → is_some (get three k) ≡ true → contains k (5 ∷ 5 ∷ []) ≡ true)
            → IsValid (restore_order shown three (5 ∷ 5 ∷ [])).0))
restore_order_lem_example = restore_order_lem shown three (5 ∷ 5 ∷ [])
