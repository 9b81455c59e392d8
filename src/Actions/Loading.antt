-- ===== src/Actions/Loading.antt =====
-- What loading does to an action.
use sqa.Base.{
  ◌≡◌, ◌≢◌, ◌⊎◌, inl, inr, refl, subst, String, Bool, true, false, List, [], ◌∷◌, done, >>=-eq-done,
  Result, ok, err, arith, IsErr, Option, sym, ◌∙◌, ap, Outcome, err-IsErr,
}
use sqa.Actions.{ParameterError, PlaybackState}
use sqa.Actions.Durations.{DurationInfoInt}
use sqa.Actions.Controller.{ActionController, Surroundings}
use sqa.Actions.Action.{
  Action, with_errors, map_info, verify_state, load_state, loaded_state, wrong_load, load,
  verify_params,
}

-- The states of an action that has just been loaded.
abbrev pub Started : PlaybackState → Type 0
Started t =
    (t ≡ PlaybackState.loaded)
    ⊎ ((t ≡ PlaybackState.loading) ⊎ ((e : String) × (t ≡ PlaybackState.errored e)))

-- The state that an action gets from the result of its controller's load.
abbrev pub LoadedAs : Result Bool → PlaybackState → Type 0
LoadedAs (ok true) t = t ≡ PlaybackState.loaded
LoadedAs (ok false) t = t ≡ PlaybackState.loading
LoadedAs (err e) t = t ≡ PlaybackState.errored e

LoadedAs-Started : (r : Result Bool) (t : PlaybackState) → LoadedAs r t → Started t
LoadedAs-Started (ok true) t p = inl p
LoadedAs-Started (ok false) t p = inr (inl p)
LoadedAs-Started (err e) t p = inr (inr (e, p))

module _ {S C M F : Type 0} (trait : ActionController S C M) (env : Surroundings S F) where
  -- What a load from `Inactive` or `Unverified` does, where verifying finds the errors `es`.
  abbrev pub Attempt :
      List ParameterError → Action C F → S → Action C F → S → Result (Unit {0}) → Type 0
  Attempt [] a s a' s' r =
      (c : C) × (x : Result Bool) × (trait.load a.ctl s a.uu ≡ done (c, s', x))
      × (a' ≡ record a { ctl = c; state = a'.state })
      × LoadedAs x a'.state
      × (r ≡ ok tt)
  Attempt (e ∷ es) a s a' s' r =
      IsErr r × (a' ≡ record a { state = PlaybackState.unverified (e ∷ es) }) × (s' ≡ s)

  abbrev pub Refused : Action C F → S → Action C F → S → Result (Unit {0}) → Type 0
  Refused a s a' s' r = IsErr r × (a' ≡ a) × (s' ≡ s)

  -- What a load does, by the state from which it is asked for.
  abbrev pub Loads : PlaybackState → Action C F → S → Action C F → S → Result (Unit {0}) → Type 0
  Loads PlaybackState.inactive a s a' s' r = Attempt (trait.verify_params a.ctl s) a s a' s' r
  Loads (PlaybackState.unverified es) a s a' s' r =
      Attempt (trait.verify_params a.ctl s) a s a' s' r
  Loads PlaybackState.loaded a s a' s' r = Refused a s a' s' r
  Loads PlaybackState.loading a s a' s' r = Refused a s a' s' r
  Loads (PlaybackState.paused d) a s a' s' r = Refused a s a' s' r
  Loads (PlaybackState.errored e) a s a' s' r = Refused a s a' s' r
  Loads (PlaybackState.active d) a s a' s' r =
      (i : Option DurationInfoInt) × (trait.duration_info a.ctl s ≡ done i)
      × Refused (record a { state = PlaybackState.active (map_info (env.now s) i) }) s a' s' r

  pub Attempt-Started :
      (es : List ParameterError) (a a' : Action C F) (s s' : S) (u : Unit {0})
      → Attempt es a s a' s' (ok u)
      → Started a'.state
  Attempt-Started [] a a' s s' u (c, x, l, k, p, q) = LoadedAs-Started x a'.state p
  Attempt-Started (e ∷ es) a a' s s' u (x, k, p) = absurd x

  loaded_state-LoadedAs : (x : Result Bool) → LoadedAs x (loaded_state trait env x)
  unfolding loaded_state
  loaded_state-LoadedAs (ok true) = refl
  loaded_state-LoadedAs (ok false) = refl
  loaded_state-LoadedAs (err e) = refl

  load_state-inactive :
      (a a' : Action C F) (s s' : S) (r : Result (Unit {0}))
      → load_state trait env PlaybackState.inactive a s ≡ done (a', s', r)
      → Attempt [] a s a' s' r
  unfolding load_state
  load_state-inactive a a' s s' r e =
      let ((c, t, x), f, g) = >>=-eq-done (trait.load a.ctl s a.uu) _ e in
      let same : a' ≡ record a { ctl = c; state = loaded_state trait env x } = ground arith in
      let state : loaded_state trait env x ≡ a'.state = ap (λ b. b.state) (sym same) in
      let store : t ≡ s' = ground arith in
      (
        c,
        x,
        f ∙ ap (λ (z : S). done (c, z, x)) store,
        same ∙ ap (λ z. record a { ctl = c; state = z }) state,
        subst (LoadedAs x) state (loaded_state-LoadedAs x),
        ground arith,
      )

  -- A load fails in every state but `Inactive`.
  load_state-other :
      (st : PlaybackState) (a : Action C F) (s : S)
      → st ≢ PlaybackState.inactive
      → (m : String) × (load_state trait env st a s ≡ done (a, s, err m))
  unfolding load_state wrong_load
  load_state-other PlaybackState.inactive a s n = absurd (n refl)
  load_state-other (PlaybackState.unverified es) a s n = (_, refl)
  load_state-other PlaybackState.loaded a s n = (_, refl)
  load_state-other PlaybackState.loading a s n = (_, refl)
  load_state-other (PlaybackState.paused d) a s n = (_, refl)
  load_state-other (PlaybackState.active d) a s n = (_, refl)
  load_state-other (PlaybackState.errored x) a s n = (_, refl)

  load_state-Refused :
      (st : PlaybackState) (a a' : Action C F) (s s' : S) (r : Result (Unit {0}))
      → a.state ≡ st
      → st ≢ PlaybackState.inactive
      → load_state trait env a.state a s ≡ done (a', s', r)
      → Refused a s a' s' r
  load_state-Refused st a a' s s' r p n e =
      let (m, q) = load_state-other st a s n in
      let e' = ap (λ (t : PlaybackState). load_state trait env t a s) (sym p) ∙ e in
      let same : ◌≡◌ {A = Outcome (Action C F × S × Result (Unit {0}))} (done (a, s, err m))
          (done (a', s', r)) =
        sym q ∙ e' in
      (err-IsErr m r (cc), ground arith, ground arith)

  -- After verifying, from `Inactive` or `Unverified`.
  attempt_lem :
      (es : List ParameterError) (a b a' : Action C F) (s s' : S) (r : Result (Unit {0}))
      → b ≡ record a { state = with_errors es }
      → load_state trait env b.state b s ≡ done (a', s', r)
      → Attempt es a s a' s' r
  attempt_lem [] a b a' s s' r p e =
      let b' : Action C F = record a { state = PlaybackState.inactive } in
      let e' : load_state trait env PlaybackState.inactive b' s ≡ done (a', s', r) =
        ap (λ (z : Action C F). load_state trait env z.state z s) (sym p) ∙ e in
      load_state-inactive b' a' s s' r e'
  attempt_lem (x ∷ es) a b a' s s' r p e =
      let (k, q, t) =
        load_state-Refused (PlaybackState.unverified (x ∷ es)) b a' s s' r (ap (λ z. z.state) p)
          (λ c. cc) e in
      (k, q ∙ p, t)

  refused_lem :
      (st : PlaybackState) (a b a' : Action C F) (s s' : S) (r : Result (Unit {0}))
      → a.state ≡ st
      → st ≢ PlaybackState.inactive
      → b ≡ a
      → load_state trait env b.state b s ≡ done (a', s', r)
      → Refused a s a' s' r
  refused_lem st a b a' s s' r p n q e =
      let (k, f, t) = load_state-Refused st b a' s s' r (ap (λ z. z.state) q ∙ p) n e in
      (k, f ∙ q, t)

  load_from :
      (st : PlaybackState) (a b a' : Action C F) (s s' : S) (r : Result (Unit {0}))
      → a.state ≡ st
      → verify_state trait env st a s ≡ done b
      → load_state trait env b.state b s ≡ done (a', s', r)
      → Loads st a s a' s' r
  unfolding verify_state
  load_from PlaybackState.inactive a b a' s s' r p q e =
      attempt_lem (trait.verify_params a.ctl s) a b a' s s' r (ground arith) e
  load_from (PlaybackState.unverified es) a b a' s s' r p q e =
      attempt_lem (trait.verify_params a.ctl s) a b a' s s' r (ground arith) e
  load_from (PlaybackState.active d) a b a' s s' r p q e =
      let (i, f, g) = >>=-eq-done (trait.duration_info a.ctl s) _ q in
      (
        i,
        f,
        refused_lem (PlaybackState.active (map_info (env.now s) i))
            (record a { state = PlaybackState.active (map_info (env.now s) i) }) b a' s s' r refl
            (λ c. cc) (ground arith) e,
      )
  load_from PlaybackState.loaded a b a' s s' r p q e =
      refused_lem PlaybackState.loaded a b a' s s' r p (λ c. cc) (ground arith) e
  load_from PlaybackState.loading a b a' s s' r p q e =
      refused_lem PlaybackState.loading a b a' s s' r p (λ c. cc) (ground arith) e
  load_from (PlaybackState.paused d) a b a' s s' r p q e =
      refused_lem (PlaybackState.paused d) a b a' s s' r p (λ c. cc) (ground arith) e
  load_from (PlaybackState.errored x) a b a' s s' r p q e =
      refused_lem (PlaybackState.errored x) a b a' s s' r p (λ c. cc) (ground arith) e

  -- A load that returns, from `Inactive` or `Unverified`: where the controller finds errors in the
  -- parameters it fails, the action is `Unverified` with these errors and the controller is not
  -- called. Otherwise the controller loads and the call succeeds: the action is `Loaded` where the
  -- controller has loaded, `Loading` where it has begun to, errored with the controller's error
  -- where its load failed. From any other state the load fails and nothing changes but the times
  -- that an active action shows.
  pub load-Loads :
      (a a' : Action C F) (s s' : S) (r : Result (Unit {0}))
      → load trait env a s ≡ done (a', s', r)
      → Loads a.state a s a' s' r
  unfolding load verify_params
  load-Loads a a' s s' r e =
      let (b, q, t) = >>=-eq-done (verify_state trait env a.state a s) _ e in
      load_from a.state a b a' s s' r refl q t
