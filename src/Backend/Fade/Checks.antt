-- ===== src/Backend/Fade/Checks.antt =====
-- What the verification of a fade's parameters accepts.
use sqa.Base.{
  ℕ, ◌≡◌, refl, ap, ◌∙◌, Bool, true, false, Option, none, some, List, [], ◌∷◌, ◌++◌, arith,
}
use sqa.Base.Float.{F32}
use sqa.ActionManager
use sqa.Actions.{FadeParams}
use sqa.Actions.Action.{Action}
use sqa.Backend.{AudioController, FadeController, ActionType, Context, Crates}
use sqa.Backend.Fade.{
  fold_fades, type_errors, action_errors, target_errors, fades_errors, verify_params,
}

module _ {J X P F : Type 0} (k : Crates J X P F) where
  -- The fold starts from `true`, and stays there.
  fold_fades-true : (fades : List (Bool × F32)) → fold_fades k true fades ≡ true
  unfolding fold_fades
  fold_fades-true [] = refl
  fold_fades-true ((true, fade) ∷ fades) = fold_fades-true fades
  fold_fades-true ((false, fade) ∷ fades) = fold_fades-true fades

  fades_errors-master :
      (p : FadeParams)
      → (fades_errors k p ≡ [] → p.fade_master.0 ≡ true)
        × (p.fade_master.0 ≡ true → fades_errors k p ≡ [])
  unfolding fades_errors
  fades_errors-master p = (λ e. ground (arith, fold_fades-true p.fades), λ e. ground arith)

  -- The target is an audio action.
  abbrev pub IsAudio : Option (Action (ActionType X F) F) → Type 0
  IsAudio o =
      (a : Action (ActionType X F) F) × (t : AudioController X) × (o ≡ some a)
      × (a.ctl ≡ ActionType.audio t)

  type_errors-nil :
      (ctl : ActionType X F)
      → type_errors k ctl ≡ []
      → (t : AudioController X) × (ctl ≡ ActionType.audio t)
  type_errors-nil (ActionType.audio t) e = (t, refl)
  type_errors-nil (ActionType.fade t) e = cc

  action_errors-nil : (o : Option (Action (ActionType X F) F)) → action_errors k o ≡ [] → IsAudio o
  action_errors-nil none e = cc
  action_errors-nil (some a) e = let (t, p) = type_errors-nil a.ctl e in (a, t, refl, p)

  target_errors-nil :
      (s : Context J X P F) (target : Option ℕ)
      → target_errors k s target ≡ []
      → (uu : ℕ) × (target ≡ some uu) × IsAudio (ActionManager.get s.actions uu)
  unfolding target_errors
  target_errors-nil s none e = cc
  target_errors-nil s (some uu) e = (uu, refl, action_errors-nil (ActionManager.get s.actions uu) e)

  IsAudio-nil : (o : Option (Action (ActionType X F) F)) → IsAudio o → action_errors k o ≡ []
  IsAudio-nil o (a, t, p, q) = ap (action_errors k) p ∙ ap (type_errors k) q

  target-nil :
      (s : Context J X P F) (target : Option ℕ) (uu : ℕ)
      → target ≡ some uu
      → IsAudio (ActionManager.get s.actions uu)
      → target_errors k s target ≡ []
  target-nil s target uu e h =
      ap (target_errors k s) e
      ∙ unfold target_errors in IsAudio-nil (ActionManager.get s.actions uu) h

  nil_inv : {A : Type 0} (xs ys : List A) → xs ++ ys ≡ [] → (xs ≡ []) × (ys ≡ [])
  nil_inv [] ys e = (refl, e)
  nil_inv (x ∷ xs) ys e = cc

  -- The parameters of a fade are without errors exactly if the target is an audio action that is
  -- there and the master volume is faded. The fades of the channels make no difference: with them
  -- alone, "nothing is being faded".
  pub verify_params_lem :
      (c : FadeController F) (s : Context J X P F)
      → (verify_params k c s ≡ []
          → (uu : ℕ) × (c.params.target ≡ some uu)
            × IsAudio (ActionManager.get s.actions uu)
            × (c.params.fade_master.0 ≡ true))
        × ((uu : ℕ)
            → c.params.target ≡ some uu
            → IsAudio (ActionManager.get s.actions uu)
            → c.params.fade_master.0 ≡ true
            → verify_params k c s ≡ [])
  unfolding verify_params
  verify_params_lem c s = (
    λ e.
        let (p, q) = nil_inv (target_errors k s c.params.target) (fades_errors k c.params) e in
        let (uu, t, a) = target_errors-nil s c.params.target p in
        (uu, t, a, (fades_errors-master c.params).0 q),
    λ uu t a m.
        ap (λ xs. xs ++ fades_errors k c.params) (target-nil s c.params.target uu t a)
        ∙ (fades_errors-master c.params).1 m,
  )
