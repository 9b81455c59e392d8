-- ===== src/Actions/Lifecycle.antt =====
-- What executing does to an action, and that it ends.
use sqa.Base.{
  ℕ, suc, ◌≡◌, ◌≢◌, inl, inr, refl, Option, none, some, List, Outcome, done, ◌>>=◌, >>=-eq-done,
  Outcome-cases, err-IsErr, Result, ok, err, arith, Bool, true, false, subst, sym, ap, ◌∙◌, [], ◌∷◌,
}
use sqa.Actions.{ParameterError, PlaybackState}
use sqa.Actions.Controller.{ActionController, Surroundings}
use sqa.Actions.Action.{Action, load}
use sqa.Actions.Execute.{execute, execute_loop, execute_state, after_load}
use sqa.Actions.Loading.{Loads, LoadedAs, Attempt, load-Loads}
use sqa.Actions.Executing.{
  Executes, Continues, Begins, second_round, last_round, last_round-ends, last_round-again,
}

module _ {S C M F : Type 0} (trait : ActionController S C M) (env : Surroundings S F) where
  -- What remains of the loop with some rounds left.
  abbrev rest : ℕ → ℕ → Action C F → S → Outcome (Option (Action C F × S × Result (Unit {0})))
  rest n time b t = execute_loop trait env (suc n) time b t

  loop_from :
      (st : PlaybackState) (n time : ℕ) (a : Action C F) (s : S)
      → a.state ≡ st
      → (execute_state trait env st (rest n time) time a s ≢ done none)
        × (execute_state trait env st (rest n time) time a s
            ≡ execute_state trait env st (rest 0 time) time a s)
  unfolding execute_state
  loop_from PlaybackState.inactive n time a s p = elim (Outcome-cases (load trait env a s)) [
    | inl (x, e) ↦
        let (f, g) = second_round trait env n time a s x p e in (rw (e, ◌>>=◌) f, rw (e, ◌>>=◌) g)
    | inr e ↦ (rw (e, ◌>>=◌) (λ c. cc), rw (e, ◌>>=◌))
  ]
  loop_from PlaybackState.loading n time a s p = (λ c. cc, refl)
  loop_from st n time a s p = (
    last_round-ends trait env st (rest n time) time a s (λ c. cc),
    last_round-again trait env st (rest n time) (rest 0 time) time a s (λ c. cc),
  )

  -- `execute` ends: two rounds of its loop are enough, whatever the controller and the state, and
  -- more rounds make no difference.
  pub execute-ends :
      (time : ℕ) (a : Action C F) (s : S)
      → (execute trait env time a s ≢ done none)
        × ((n : ℕ) → execute_loop trait env (suc (suc n)) time a s ≡ execute trait env time a s)
  unfolding execute execute_loop
  execute-ends time a s =
      ((loop_from a.state 0 time a s refl).0, λ n. (loop_from a.state n time a s refl).1)

  abbrev rest_none : ℕ → Action C F → S → Outcome (Option (Action C F × S × Result (Unit {0})))
  rest_none time b t = execute_loop trait env 0 time b t

  -- The second round, where the action is known after the first.
  second_round-from :
      (st : PlaybackState) (b b' a' : Action C F) (t s' : S) (time : ℕ) (r : Result (Unit {0}))
      → st ≢ PlaybackState.inactive
      → b ≡ b'
      → b'.state ≡ st
      → execute_state trait env b.state (rest_none time) time b t ≡ done (some (a', s', r))
      → Executes trait env st time b' t a' s' r
  second_round-from st b b' a' t s' time r n p q e =
      last_round trait env st (rest_none time) time b' a' t s' r n (
        ap (λ (z : PlaybackState). execute_state trait env z (rest_none time) time b' t) (sym q)
        ∙ ap (λ (z : Action C F). execute_state trait env z.state (rest_none time) time z t) (sym p)
        ∙ e)

  -- What the second round makes of a loaded action.
  continues :
      (x : Result Bool) (c : C) (a b a' : Action C F) (t s' : S) (time : ℕ) (r : Result (Unit {0}))
      → b ≡ record a { ctl = c; state = b.state }
      → LoadedAs x b.state
      → execute_state trait env b.state (rest_none time) time b t ≡ done (some (a', s', r))
      → Continues trait env x time a c t a' s' r
  continues (ok true) c a b a' t s' time r p q e =
      second_round-from PlaybackState.loaded b (record a { ctl = c; state = PlaybackState.loaded })
        a' t s' time r (λ z. cc) (p ∙ ap (λ z. record a { ctl = c; state = z }) q) refl e
  continues (ok false) c a b a' t s' time r p q e =
      second_round-from PlaybackState.loading b
        (record a { ctl = c; state = PlaybackState.loading }) a' t s' time r (λ z. cc)
        (p ∙ ap (λ z. record a { ctl = c; state = z }) q) refl e
  continues (err m) c a b a' t s' time r p q e =
      let (k, f, g) =
        second_round-from (PlaybackState.errored m) b
          (record a { ctl = c; state = PlaybackState.errored m }) a' t s' time r (λ z. cc)
          (p ∙ ap (λ z. record a { ctl = c; state = z }) q) refl e in
      (f, g, k)

  begins :
      (es : List ParameterError) (a b a' : Action C F) (s t s' : S) (time : ℕ)
      (q r : Result (Unit {0}))
      → Attempt trait env es a s b t q
      → after_load trait env (rest 0 time) (b, t, q) ≡ done (some (a', s', r))
      → Begins trait env es time a s a' s' r
  unfolding after_load execute_loop
  begins [] a b a' s t s' time (ok u) r (c, x, l, p, g, k) e =
      (c, t, x, l, continues x c a b a' t s' time r p g e)
  begins [] a b a' s t s' time (err m) r (c, x, l, p, g, k) e = cc
  begins (y ∷ es) a b a' s t s' time (ok u) r (k, p, g) e = absurd k
  begins (y ∷ es) a b a' s t s' time (err m) r (k, p, g) e =
      let same : a' ≡ b = ground arith in
      let still : s' ≡ t = ground arith in (err-IsErr m r (ground arith), same ∙ p, still ∙ g)

  execute_from :
      (st : PlaybackState) (a a' : Action C F) (s s' : S) (time : ℕ) (r : Result (Unit {0}))
      → a.state ≡ st
      → execute_state trait env st (rest 0 time) time a s ≡ done (some (a', s', r))
      → Executes trait env st time a s a' s' r
  unfolding execute_state
  execute_from PlaybackState.inactive a a' s s' time r p e =
      let ((b, t, q), l, f) = >>=-eq-done (load trait env a s) _ e in
      begins (trait.verify_params a.ctl s) a b a' s t s' time q r
        (subst (λ st. Loads trait env st a s b t q) p (load-Loads trait env a b s t q l)) f
  execute_from PlaybackState.loading a a' s s' time r p e =
      last_round trait env PlaybackState.loading (rest 0 time) time a a' s s' r (λ c. cc) e
  execute_from st a a' s s' time r p e =
      last_round trait env st (rest 0 time) time a a' s s' r (λ c. cc) e

  -- What executing does, where it returns. From `Loaded` and `Paused` the controller is called, with
  -- a start time that is the time plus the prewait, or, paused at a position, the time as long ago as
  -- the position is into the action, or ahead as it is before its start; the call succeeds, and the action is `Active` and registered for polling where the
  -- controller runs on, `Inactive` where it is done, and errored with the controller's error
  -- otherwise. From `Inactive`, errors in the parameters make the call fail and the action
  -- `Unverified`, and the controller is not called; without errors the controller loads first, and
  -- by its answer the action goes on as from `Loaded`, is `Loading` and marked to start as soon as
  -- it has loaded, or is errored and the call fails. `Loading` is only marked and `Active` stays,
  -- and the call succeeds; `Unverified` and `Errored` stay, and it fails.
  pub execute-Executes :
      (a a' : Action C F) (s s' : S) (time : ℕ) (r : Result (Unit {0}))
      → execute trait env time a s ≡ done (some (a', s', r))
      → Executes trait env a.state time a s a' s' r
  unfolding execute execute_loop
  execute-Executes a a' s s' time r e = execute_from a.state a a' s s' time r refl e
