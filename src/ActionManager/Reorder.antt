-- ===== src/ActionManager/Reorder.antt =====
-- Moving an action to another place in the order.
use sqa.Base.{
  ℕ, zero, suc, ◌≤◌, ◌<◌, ◌≡◌, ap, ◌∙◌, refl, true, false, none, some, List, [], ◌∷◌, length,
  get_elem?, insert_idx, erase_idx, done, panic, ok, err, arith, ltb, ltb→lt, ltb-false→le,
  Bool-cases, Option-cases, inl, inr, lt-length_of_get_elem?, ==_refl, ◌≢◌,
}
use sqa.Base.HashSet
use sqa.Base.HashSet.{contains}
use sqa.ActionManager.{ActionManager, position_of, reorder}
use sqa.ActionManager.Vector.{
  position, vec_insert, vec_remove, position-get_elem?, position-contains, length-erase_idx,
  length-insert_idx, erase_idx-insert_idx, insert_idx-erase_idx, contains-insert_idx,
  contains-erase_idx, NoDup-insert_idx, NoDup-erase_idx, position-insert_idx,
}
use sqa.ActionManager.Invariant.{IsValid}

-- The order after a move.
abbrev pub moved : List ℕ → ℕ → ℕ → ℕ → List ℕ
moved order pos new_pos uuid = insert_idx (erase_idx order pos) new_pos uuid

-- A move back is a move of the moved order.
moved-moved :
    (order : List ℕ) (pos new_pos uuid : ℕ)
    → get_elem? order pos ≡ some uuid
    → new_pos ≤ length (erase_idx order pos)
    → moved (moved order pos new_pos uuid) new_pos pos uuid ≡ order
moved-moved order pos new_pos uuid e h =
    rw (erase_idx-insert_idx (erase_idx order pos) new_pos uuid h)
      (insert_idx-erase_idx order pos uuid e)

-- The other entries keep their order.
remove-moved : (xs : List ℕ) (i k : ℕ) → HashSet.remove k (insert_idx xs i k) ≡ HashSet.remove k xs
unfolding HashSet.remove
remove-moved xs zero k = ground arith
remove-moved [] (suc i) k = ground arith
remove-moved (x ∷ xs) (suc i) k = ground (arith, remove-moved xs i k)

remove-erase_idx :
    (xs : List ℕ) (i k : ℕ)
    → get_elem? xs i ≡ some k
    → HashSet.remove k (erase_idx xs i) ≡ HashSet.remove k xs
unfolding HashSet.remove
remove-erase_idx [] i k e = cc
remove-erase_idx (x ∷ xs) zero k e = ground arith
remove-erase_idx (x ∷ xs) (suc i) k e = ground (arith, remove-erase_idx xs i k e)

module _ {A : Type 0} where
  pub reorder-moved :
      (m : ActionManager A) (uuid new_pos pos : ℕ)
      → position_of m uuid ≡ some pos
      → new_pos < length m.order
      → reorder m uuid new_pos
        ≡ done (record m { order = moved m.order pos new_pos uuid; order_changed = true }, ok tt)
  unfolding reorder position_of vec_remove vec_insert
  reorder-moved m uuid new_pos pos e h =
      let e' : position uuid m.order ≡ some pos = e in
      let at = position-get_elem? uuid m.order pos e in
      let small = lt-length_of_get_elem? m.order pos at in
      let size = length-erase_idx m.order pos small in rw (e', reorder) (ground (arith, size))

  -- The place of an action that was moved.
  position-moved :
      (m : ActionManager A) (uuid new_pos pos : ℕ)
      → IsValid m
      → position_of m uuid ≡ some pos
      → new_pos < length m.order
      → position uuid (moved m.order pos new_pos uuid) ≡ some new_pos
  unfolding position_of
  position-moved m uuid new_pos pos v e h =
      let at = position-get_elem? uuid m.order pos e in
      let size = length-erase_idx m.order pos (lt-length_of_get_elem? m.order pos at) in
      let gone : contains uuid (erase_idx m.order pos) ≡ false =
        contains-erase_idx m.order pos uuid uuid v.no_dup at ∙ rw (==_refl uuid) in
      position-insert_idx (erase_idx m.order pos) new_pos uuid (omega arith) gone

  -- Whatever the marks are, a moved action goes back to its old place.
  pub reorder-back :
      (m m2 : ActionManager A) (uuid new_pos pos : ℕ)
      → IsValid m
      → position_of m uuid ≡ some pos
      → new_pos < length m.order
      → m2.order ≡ moved m.order pos new_pos uuid
      → reorder m2 uuid pos ≡ done (record m2 { order = m.order; order_changed = true }, ok tt)
  unfolding position_of
  reorder-back m m2 uuid new_pos pos v e h o =
      let at = position-get_elem? uuid m.order pos e in
      let small = lt-length_of_get_elem? m.order pos at in
      let size = length-erase_idx m.order pos small in
      let there : position uuid m2.order ≡ some new_pos =
        ap (position uuid) o ∙ position-moved m uuid new_pos pos v e h in
      reorder-moved m2 uuid pos new_pos there
        (omega (arith, ap length o, length-insert_idx (erase_idx m.order pos) new_pos uuid))
      ∙ ap (λ (xs : List ℕ). done (record m2 { order = xs; order_changed = true }, ok tt))
          (ap (λ xs. moved xs new_pos pos uuid) o
            ∙ moved-moved m.order pos new_pos uuid at (omega arith))

  -- `reorder` of a listed action to a position within the order puts it there, leaves the other
  -- actions in their order, keeps the manager valid and changes nothing else but the mark, and
  -- reordering the action to its old position gives the old order back.
  pub reorder_lem :
      (m : ActionManager A) (uuid new_pos pos : ℕ)
      → IsValid m
      → position_of m uuid ≡ some pos
      → new_pos < length m.order
      → (order : List ℕ) × (reorder m uuid new_pos
          ≡ done (record m { order = order; order_changed = true }, ok tt))
        × (position uuid order ≡ some new_pos)
        × (HashSet.remove uuid order ≡ HashSet.remove uuid m.order)
        × IsValid (record m { order = order; order_changed = true })
        × (reorder (record m { order = order; order_changed = true }) uuid pos
            ≡ done (record m { order = m.order; order_changed = true }, ok tt))
  unfolding position_of
  reorder_lem m uuid new_pos pos v e h =
      let at = position-get_elem? uuid m.order pos e in
      let small = lt-length_of_get_elem? m.order pos at in
      let size = length-erase_idx m.order pos small in
      let rest = erase_idx m.order pos in
      let gone : contains uuid rest ≡ false =
        contains-erase_idx m.order pos uuid uuid v.no_dup at ∙ rw (==_refl uuid) in
      let m' : ActionManager A = record m {
        order = moved m.order pos new_pos uuid;
        order_changed = true;
      } in
      (
        moved m.order pos new_pos uuid,
        reorder-moved m uuid new_pos pos e h,
        position-moved m uuid new_pos pos v e h,
        remove-moved rest new_pos uuid ∙ remove-erase_idx m.order pos uuid at,
        record {
          no_dup =
              NoDup-insert_idx rest new_pos uuid (NoDup-erase_idx m.order pos uuid v.no_dup at)
                gone;
          listed = λ k. ground (
            arith,
            contains-insert_idx rest new_pos uuid k,
            contains-erase_idx m.order pos uuid k v.no_dup at,
            v.listed k,
            v.listed uuid,
            position-contains uuid m.order pos e,
          );
        },
        reorder-back m m' uuid new_pos pos v e h refl,
      )

  -- `reorder` never panics. Where the UUID is not listed or the new position is not below the length
  -- of the order it fails and changes nothing; otherwise, up to the last position, it succeeds: the
  -- UUID is taken out of the order, put back at the new position, and the mark is set.
  pub reorder-fails :
      (m : ActionManager A) (uuid new_pos : ℕ)
      → (position_of m uuid ≡ none
          → reorder m uuid new_pos ≡ done (m, err "UUID not present in order"))
        × ((pos : ℕ)
            → position_of m uuid ≡ some pos
            → length m.order ≤ new_pos
            → reorder m uuid new_pos ≡ done (m, err "New position is out of bounds"))
        × ((pos : ℕ)
            → position_of m uuid ≡ some pos
            → new_pos < length m.order
            → reorder m uuid new_pos
              ≡ done (
                record m { order = moved m.order pos new_pos uuid; order_changed = true },
                ok tt,
              ))
        × (reorder m uuid new_pos ≢ panic)
  unfolding reorder position_of
  reorder-fails m uuid new_pos = (
    λ e. let e' : position uuid m.order ≡ none = e in rw (e', reorder),
    λ pos e h. let e' : position uuid m.order ≡ some pos = e in rw (e', reorder) (ground arith),
    λ pos e h. reorder-moved m uuid new_pos pos e h,
    λ p. elim (Option-cases (position uuid m.order)) [
      | inl n ↦ let q = rw (n, reorder) at p in cc
      | inr (pos, n) ↦ elim (Bool-cases (ltb new_pos (length m.order))) [
        | inl t ↦ cc (reorder-moved m uuid new_pos pos n (ltb→lt _ _ t))
        | inr t ↦
            let h : length m.order ≤ new_pos = ltb-false→le _ _ t in
            let q = rw (n, reorder) at p in ground arith
      ]
    ],
  )
