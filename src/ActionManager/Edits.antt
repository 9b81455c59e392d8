-- ===== src/ActionManager/Edits.antt =====
-- How edits, of one action or of all, keep the manager valid.
use sqa.Base.{
  ℕ, ◌≡◌, refl, ap, sym, ◌∙◌, Bool, Option, some, true, none, [], ◌∷◌, done, arith, is_some,
  Option-cases, inl, inr, Outcome, ◌>>=◌, >>=-eq-done, if◌then◌else◌, ◌==◌, ==_iff, false,
}
use sqa.Base.HashMap
use sqa.Base.HashMap.{HashMap}
use sqa.ActionManager.{
  ActionManager, get, insert_after_editing, remove_all_for_editing, remove_for_editing,
  mark_changed,
}
use sqa.ActionManager.Invariant.{IsValid}

module _ {A : Type 0} where
  -- Calls that keep the order and the UUIDs that have an action.
  pub record Within (m m' : ActionManager A) : Type 0 where
    pub same_order : m'.order ≡ m.order
    pub same_keys : (k : ℕ) → is_some (HashMap.get k m'.actions) ≡ is_some (HashMap.get k m.actions)

  pub Within-IsValid : {m m' : ActionManager A} → Within m m' → IsValid m → IsValid m'
  Within-IsValid w v = record {
    no_dup = rw w.same_order v.no_dup;
    listed = λ k. rw w.same_order (v.listed k ∙ sym (w.same_keys k));
  }

  -- The loop that puts the actions back after all were taken out.
  unfoldable pub put_all : HashMap A → ActionManager A → Outcome (ActionManager A)
  put_all [] m = done m
  put_all ((uuid, act) ∷ acts) m = insert_after_editing m uuid act >>= put_all acts

  insert_after_editing_lem :
      (m m' : ActionManager A) (uuid : ℕ) (act : A)
      → insert_after_editing m uuid act ≡ done m'
      → (m'.order ≡ m.order)
        × ((k : ℕ)
            → is_some (HashMap.get k m'.actions)
              ≡ (if uuid == k then true else is_some (HashMap.get k m.actions)))
  unfolding insert_after_editing
  insert_after_editing_lem m m' uuid act e = elim (Option-cases (HashMap.get uuid m.actions)) [
    | inl n ↦
        let e' = rw n at e in
        let there : m' ≡ record m { actions = HashMap.insert uuid act m.actions } = ground arith in
        (
          ap (λ z. z.order) there,
          λ k. rw there (ground (arith, HashMap.get-insert uuid k act m.actions)),
        )
    | inr (x, n) ↦ let e' = rw n at e in absurd (cc)
  ]

  removed_keys :
      (m out : ActionManager A) (uuid : ℕ) (mark : Bool) (found : Option A)
      → remove_for_editing m uuid mark ≡ (out, found)
      → (out.order ≡ m.order)
        × ((k : ℕ)
            → is_some (HashMap.get k out.actions)
              ≡ (if uuid == k then false else is_some (HashMap.get k m.actions)))
  unfolding remove_for_editing mark_changed
  removed_keys m out uuid true found e =
      let gone : out.actions ≡ HashMap.remove uuid m.actions = ap (λ z. z.0.actions) (sym e) in
      (
        ap (λ z. z.0.order) (sym e),
        λ k. rw gone (ground (arith, HashMap.get-remove uuid k m.actions)),
      )
  removed_keys m out uuid false found e =
      let gone : out.actions ≡ HashMap.remove uuid m.actions = ap (λ z. z.0.actions) (sym e) in
      (
        ap (λ z. z.0.order) (sym e),
        λ k. rw gone (ground (arith, HashMap.get-remove uuid k m.actions)),
      )

  same_key :
      (m : ActionManager A) (uuid k : ℕ) (b : Bool)
      → is_some (get m uuid) ≡ b
      → (uuid == k) ≡ true
      → is_some (HashMap.get k m.actions) ≡ b
  unfolding get
  same_key m uuid k b e t = rw (← (==_iff uuid k).0 t) e

  pub edits-Within :
      (m out out' m' : ActionManager A) (uuid : ℕ) (mark : Bool) (act act' : A)
      → get m uuid ≡ some act
      → remove_for_editing m uuid mark ≡ (out, some act)
      → Within out out'
      → insert_after_editing out' uuid act' ≡ done m'
      → Within m m'
  edits-Within m out out' m' uuid mark act act' g e w f =
      let (o, taken) = removed_keys m out uuid mark (some act) e in
      let (o', put) = insert_after_editing_lem out' m' uuid act' f in
      record {
        same_order = o' ∙ w.same_order ∙ o;
        same_keys = λ k.
            ground (arith, put k, w.same_keys k, taken k, same_key m uuid k true (ap is_some g));
      }

  pub misses-Within :
      (m m' : ActionManager A) (uuid : ℕ) (mark : Bool)
      → get m uuid ≡ none
      → remove_for_editing m uuid mark ≡ (m', none)
      → Within m m'
  misses-Within m m' uuid mark g e =
      let (o, taken) = removed_keys m m' uuid mark none e in
      record {
        same_order = o;
        same_keys = λ k. ground (arith, taken k, same_key m uuid k false (ap is_some g));
      }

  pub mutates-Within :
      (m : ActionManager A) (uuid : ℕ) (act act' : A)
      → get m uuid ≡ some act
      → Within m (record m { actions = HashMap.insert uuid act' m.actions })
  mutates-Within m uuid act act' g = record {
    same_order = refl;
    same_keys = λ k.
        ground
          (arith, HashMap.get-insert uuid k act' m.actions, same_key m uuid k true (ap is_some g));
  }

  put_all_lem :
      (acts : HashMap A) (m m' : ActionManager A)
      → put_all acts m ≡ done m'
      → (m'.order ≡ m.order)
        × ((k : ℕ)
            → is_some (HashMap.get k m'.actions)
              ≡ (if is_some (HashMap.get k acts) then true else is_some (HashMap.get k m.actions)))
  unfolding put_all HashMap.get
  put_all_lem [] m m' e = (ground arith, λ k. ground arith)
  put_all_lem ((uuid, act) ∷ acts) m m' e =
      let (b, p, q) = >>=-eq-done (insert_after_editing m uuid act) _ e in
      let (o, f) = put_all_lem acts b m' q in
      let (o', g) = insert_after_editing_lem m b uuid act p in
      (o ∙ o', λ k. ground (arith, f k, g k))

  pub edits_all-IsValid :
      (m out m' : ActionManager A) (acts acts' : HashMap A)
      → IsValid m
      → remove_all_for_editing m ≡ (out, acts)
      → ((k : ℕ) → is_some (HashMap.get k acts') ≡ is_some (HashMap.get k acts))
      → put_all acts' out ≡ done m'
      → IsValid m'
  unfolding remove_all_for_editing HashMap.get
  edits_all-IsValid m out m' acts acts' v e same p =
      let (o, f) = put_all_lem acts' out m' p in
      let order : out.order ≡ m.order = ap (λ z. z.0.order) (sym e) in
      let empty : out.actions ≡ [] = ap (λ z. z.0.actions) (sym e) in
      let taken : acts ≡ m.actions = ap (λ z. z.1) (sym e) in
      record {
        no_dup = rw (o, order) v.no_dup;
        listed = λ k. rw (o, order) (ground (arith, v.listed k, f k, same k, taken, empty));
      }
