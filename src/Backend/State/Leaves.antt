-- ===== src/Backend/State/Leaves.antt =====
-- What setting the parameters of a new action leaves as it is.
use sqa.Base.{
  ℕ, ◌+◌, ◌≡◌, refl, ap, ◌∙◌, Bool, true, false, String, str_eq, Option, none, some, Outcome, done,
  ◌>>=◌, Result, ok, err, if◌then◌else◌, Bool-cases, inl, inr, ◌⊎◌,
}
use sqa.Actions.{ActionParameters, ActionMetadata, AudioParams}
use sqa.Actions.Action.{new_action}
use sqa.Actions.Execute
use sqa.Mixer.Context.{patch_eq}
use sqa.Backend.{Crates, ActionType, AudioController, RunningData}
use sqa.Backend.Audio
use sqa.Backend.Fade
use sqa.Backend.Controllers.{World, BackendAction, Ctl, action_of, set_params}
use sqa.Backend.State.{set_with_sender, with_params, with_meta}

module _ {J X P F : Type 0} (k : Crates J X P F) where
  -- A controller that nothing was loaded with.
  abbrev pub Unloaded : Ctl k → Type 0
  Unloaded (ActionType.audio c) = c.rd ≡ none
  Unloaded (ActionType.fade c) = Unit {0}

  -- A call that leaves the table of actions as it is.
  abbrev pub Leaves : {A : Type 0} → World k → Outcome (Ctl k × World k × A) → Type 0
  Leaves s o =
      (c : Ctl k) × (s' : World k) × (r : _) × (o ≡ done (c, s', r)) × (s'.actions ≡ s.actions)

  pub open_file-actions :
      (s : World k) (url : Option (Result String)) → (Audio.open_file k s url).0.actions ≡ s.actions
  unfolding Audio.open_file Audio.open_url
  open_file-actions s none = refl
  open_file-actions s (some (err e)) = refl
  open_file-actions s (some (ok path)) = refl

  pub finish-Leaves :
      (c : AudioController X) (p : AudioParams) (s : World k) (rd : Option RunningData)
      → c.rd ≡ rd
      → rd ≡ none
      → Audio.finish_params k (c, p, s) ≡ done (record c { params = p }, s)
  unfolding Audio.finish_params Audio.apply_volumes
  finish-Leaves c p s none e n =
      let ret : World k → Outcome (AudioController X × World k) =
        λ s'. done (record c { params = p }, s') in
      ap (λ o. Audio.apply_volumes k o p s >>= ret) e
  finish-Leaves c p s (some rd) e n = absurd (cc n)

  pub renewed-Leaves :
      (b : Bool) (c : AudioController X) (p : AudioParams) (s : World k)
      → c.rd ≡ none
      → let (c', p', s') = Audio.renewed k b c p s in (c'.rd ≡ none) × (s'.actions ≡ s.actions)
  unfolding Audio.renewed Audio.new_url
  renewed-Leaves true c p s e = (e, refl)
  renewed-Leaves false c p s e = (e, open_file-actions s (Audio.parse_option k p.url))

  pub set_params-Leaves :
      (ctl : Ctl k) (pars : ActionParameters) (s : World k) (uuid : ℕ)
      → Unloaded ctl
      → Leaves s (set_params k ctl pars s uuid)
  unfolding set_params Audio.set_params Fade.set_params
  set_params-Leaves (ActionType.audio c) (ActionParameters.audio p) s uuid u =
      let b = patch_eq c.params.url p.url in
      let (c', p', s') = Audio.renewed k b c p s in
      let (rd, same) = renewed-Leaves b c p s u in
      (
        ActionType.audio (record c' { params = p' }),
        s',
        ok tt,
        rw (finish-Leaves c' p' s' c'.rd refl rd, ◌>>=◌) refl,
        same,
      )
  set_params-Leaves (ActionType.audio c) (ActionParameters.fade p) s uuid u =
      (ActionType.audio c, s, err "wrong type of action parameters", refl, refl)
  set_params-Leaves (ActionType.fade c) (ActionParameters.audio p) s uuid u =
      (ActionType.fade c, s, err "wrong type of action parameters", refl, refl)
  set_params-Leaves (ActionType.fade c) (ActionParameters.fade p) s uuid u =
      (ActionType.fade (Fade.set_params k c p s).0, s, ok tt, refl, refl)

  -- A new action of a type that is known.
  pub action_of-known :
      (ty : String) (s : World k)
      → (str_eq ty "audio" ≡ true) ⊎ (str_eq ty "fade" ≡ true)
      → (ctl : Ctl k) × Unloaded ctl
        × (action_of k ty s
            ≡ ok (record s { drawn = s.drawn + 1 }, new_action ctl (k.new_v4 s.drawn)))
  unfolding action_of
  action_of-known ty s (inl e) =
      (ActionType.audio (Audio.new_controller k.f.zero_f), refl, rw (e, if◌then◌else◌) refl)
  action_of-known ty s (inr e) = elim (Bool-cases (str_eq ty "audio")) [
    | inl a ↦ (ActionType.audio (Audio.new_controller k.f.zero_f), refl, rw (a, if◌then◌else◌) refl)
    | inr a ↦ (ActionType.fade (Fade.new_controller k.f.zero_f), tt, rw (a, e, if◌then◌else◌) refl)
  ]

  -- The parameters are set, or were not given.
  pub with_params-Leaves :
      (pars : Option ActionParameters) (a : BackendAction k) (s : World k)
      → Unloaded a.ctl
      → s.sender ≡ true
      → (a' : BackendAction k) × (s' : World k) × (with_params k pars a s ≡ done (a', s'))
        × (s'.actions ≡ s.actions)
        × (a'.uu ≡ a.uu)
        × (a'.state ≡ a.state)
        × (a'.meta ≡ a.meta)
  unfolding with_params Execute.set_params
  with_params-Leaves none a s u h = (a, s, refl, refl, refl, refl, refl)
  with_params-Leaves (some pars) a s u h =
      let (c, s', r, e, same) = set_params-Leaves a.ctl pars s a.uu u in
      (
        record a { ctl = c },
        s',
        ap (λ b. set_with_sender k b pars a s) h ∙ unfold set_with_sender in rw (e, ◌>>=◌) refl,
        same,
        refl,
        refl,
        refl,
      )

  abbrev pub meta_or : Option ActionMetadata → ActionMetadata → ActionMetadata
  meta_or none m = m
  meta_or (some m') m = m'

  pub with_meta_lem :
      (met : Option ActionMetadata) (a : BackendAction k)
      → ((with_meta k met a).ctl ≡ a.ctl)
        × ((with_meta k met a).uu ≡ a.uu)
        × ((with_meta k met a).state ≡ a.state)
        × ((with_meta k met a).meta ≡ meta_or met a.meta)
  unfolding Execute.set_meta
  with_meta_lem none a = (refl, refl, refl, refl)
  with_meta_lem (some m) a = (refl, refl, refl, refl)
