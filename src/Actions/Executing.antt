-- ===== src/Actions/Executing.antt =====
-- What the rounds of `execute` do, and that the second is the last.
use sqa.Base.{
  ℕ, suc, ◌+◌, ◌≡◌, ◌≢◌, inl, inr, refl, String, true, false, Option, none, some, List, Outcome,
  done, panic, >>=-eq-done, IsErr, err-IsErr, Result, ok, err, arith, Bool, subst, [], ◌∷◌, ap, ◌∙◌,
  sym,
}
use sqa.AsyncResult.{AsyncResult}
use sqa.Actions.{ParameterError, PlaybackState}
use sqa.Actions.Controller.{ActionController, Surroundings}
use sqa.Actions.Action.{Action, load, poll_own, start_timeout}
use sqa.Actions.Execute.{
  execute_loop, execute_state, executed, run_controller, run_at, wrong_execute, after_load,
}
use sqa.Duration.{total}
use sqa.Actions.Timing.{nanos_u64-total, IsResumed, resume_time-IsResumed}
use sqa.Actions.Loading.{Loads, Refused, Started, Attempt-Started, load-Loads}

module _ {S C M F : Type 0} (trait : ActionController S C M) (env : Surroundings S F) where
  -- What the loop's rounds return.
  abbrev Rounds : Type 0
  Rounds = Outcome (Option (Action C F × S × Result (Unit {0})))

  -- What the controller's answer makes of the action.
  abbrev pub Executed : Action C F → C → S → Result Bool → Action C F → S → Type 0
  Executed a c t (err e) a' s' =
      (a' ≡ record a { ctl = c; state = PlaybackState.errored e }) × (s' ≡ t)
  Executed a c t (ok true) a' s' =
      (a' ≡ record a { ctl = c; state = PlaybackState.inactive }) × (s' ≡ t)
  Executed a c t (ok false) a' s' =
      (a' ≡ record a { ctl = c; state = PlaybackState.active none; timeout = a'.timeout })
      × (s' ≡ env.register_interest t a.uu)

  -- The controller runs, with a start time of which `IsStart` holds.
  abbrev pub Runs : (ℕ → Type 0) → Action C F → S → Action C F → S → Result (Unit {0}) → Type 0
  Runs IsStart a s a' s' r =
      (start : ℕ) × (c : C) × (t : S) × (x : Result Bool) × IsStart start
      × (trait.execute a.ctl start s a.uu ≡ done (c, t, x))
      × Executed a c t x a' s'
      × (r ≡ ok tt)

  -- What happens to an inactive action that loads with this result.
  abbrev pub Continues :
      Result Bool → ℕ → Action C F → C → S → Action C F → S → Result (Unit {0}) → Type 0
  Continues (ok true) time a c t a' s' r =
      Runs (λ start. start ≡ time + total a.meta.prewait)
        (record a { ctl = c; state = PlaybackState.loaded }) t a' s' r
  Continues (ok false) time a c t a' s' r =
      (a' ≡ record a { ctl = c; state = PlaybackState.loading; start_asap = true })
      × (s' ≡ t)
      × (r ≡ ok tt)
  Continues (err e) time a c t a' s' r =
      (a' ≡ record a { ctl = c; state = PlaybackState.errored e }) × (s' ≡ t) × IsErr r

  abbrev pub Begins :
      List ParameterError → ℕ → Action C F → S → Action C F → S → Result (Unit {0}) → Type 0
  Begins [] time a s a' s' r =
      (c : C) × (t : S) × (x : Result Bool) × (trait.load a.ctl s a.uu ≡ done (c, t, x))
      × Continues x time a c t a' s' r
  Begins (e ∷ es) time a s a' s' r =
      IsErr r × (a' ≡ record a { state = PlaybackState.unverified (e ∷ es) }) × (s' ≡ s)

  -- What `execute` does, by the state of the action.
  abbrev pub Executes :
      PlaybackState → ℕ → Action C F → S → Action C F → S → Result (Unit {0}) → Type 0
  Executes PlaybackState.inactive time a s a' s' r =
      Begins (trait.verify_params a.ctl s) time a s a' s' r
  Executes PlaybackState.loaded time a s a' s' r =
      Runs (λ start. start ≡ time + total a.meta.prewait) a s a' s' r
  Executes (PlaybackState.paused none) time a s a' s' r =
      Runs (λ start. start ≡ time + total a.meta.prewait) a s a' s' r
  Executes (PlaybackState.paused (some d)) time a s a' s' r = Runs (IsResumed time d) a s a' s' r
  Executes PlaybackState.loading time a s a' s' r =
      (a' ≡ record a { start_asap = true }) × (s' ≡ s) × (r ≡ ok tt)
  Executes (PlaybackState.active d) time a s a' s' r = (a' ≡ a) × (s' ≡ s) × (r ≡ ok tt)
  Executes (PlaybackState.unverified es) time a s a' s' r = Refused trait env a s a' s' r
  Executes (PlaybackState.errored e) time a s a' s' r = Refused trait env a s a' s' r

  executed-Executed :
      (a a' : Action C F) (c : C) (t s' : S) (x : Result Bool)
      → executed trait env (record a { ctl = c }) t x ≡ done (a', s')
      → Executed a c t x a' s'
  unfolding executed start_timeout
  executed-Executed a a' c t s' (err e) h = (ground arith, ground arith)
  executed-Executed a a' c t s' (ok true) h = (ground arith, ground arith)
  executed-Executed a a' c t s' (ok false) h =
      let u = env.register_interest t a.uu in
      let (b, q, g) =
        >>=-eq-done
          (start_timeout trait env (record a { ctl = c }) u (record { secs = 1; nanos = 0 })) _ h in
      let (w, k, l) = >>=-eq-done (env.new_timeout u (record { secs = 1; nanos = 0 })) _ q in
      let timed : Action C F = record a { ctl = c; timeout = AsyncResult.waiting w } in
      let timeout = (poll_own trait env timed u).timeout in
      let there : a' ≡ record a { ctl = c; state = PlaybackState.active none; timeout = timeout } =
        ground arith in
      (
        there
            ∙ ap (λ z. record a { ctl = c; state = PlaybackState.active none; timeout = z })
                (sym (ap (λ z. z.timeout) there)),
        ground arith,
      )

  run_at-Runs :
      (IsStart : ℕ → Type 0) (time : Outcome ℕ) (a a' : Action C F) (s s' : S)
      (r : Result (Unit {0}))
      → ((start : ℕ) → time ≡ done start → IsStart start)
      → run_at trait env time a s ≡ done (some (a', s', r))
      → Runs IsStart a s a' s' r
  unfolding run_at run_controller
  run_at-Runs IsStart panic a a' s s' r p h = cc
  run_at-Runs IsStart (done start) a a' s s' r p h =
      let (b, q, e) = >>=-eq-done (run_controller trait env a start s) _ h in
      let ((c, t, x), f, g) = >>=-eq-done (trait.execute a.ctl start s a.uu) _ q in
      let same : b ≡ (a', s') = ground arith in
      (
        start,
        c,
        t,
        x,
        p start refl,
        f,
        executed-Executed a a' c t s' x (g ∙ ap done same),
        ground arith,
      )

  run_at-ends : (time : Outcome ℕ) (a : Action C F) (s : S) → run_at trait env time a s ≢ done none
  unfolding run_at
  run_at-ends panic a s h = cc
  run_at-ends (done t) a s h =
      let (b, q, e) = >>=-eq-done (run_controller trait env a t s) _ h in cc

  refused :
      {m : String} (a a' : Action C F) (s s' : S) (r : Result (Unit {0}))
      → ◌≡◌ {A = Rounds} (done (some (a, s, err m))) (done (some (a', s', r)))
      → Refused trait env a s a' s' r
  refused {m} a a' s s' r e = (err-IsErr m r (ground arith), ground arith, ground arith)

  -- A round from any state but `Inactive` ends the loop.
  pub last_round :
      (st : PlaybackState) (again : Action C F → S → Rounds) (time : ℕ) (a a' : Action C F)
      (s s' : S) (r : Result (Unit {0}))
      → st ≢ PlaybackState.inactive
      → execute_state trait env st again time a s ≡ done (some (a', s', r))
      → Executes st time a s a' s' r
  unfolding execute_state wrong_execute
  last_round PlaybackState.inactive again time a a' s s' r n e = absurd (n refl)
  last_round PlaybackState.loading again time a a' s s' r n e =
      (ground arith, ground arith, ground arith)
  last_round PlaybackState.loaded again time a a' s s' r n e =
      run_at-Runs (λ start. start ≡ time + total a.meta.prewait) _ a a' s s' r
        (λ start. nanos_u64-total time start a.meta.prewait) e
  last_round (PlaybackState.paused none) again time a a' s s' r n e =
      run_at-Runs (λ start. start ≡ time + total a.meta.prewait) _ a a' s s' r
        (λ start. nanos_u64-total time start a.meta.prewait) e
  last_round (PlaybackState.paused (some d)) again time a a' s s' r n e =
      run_at-Runs (IsResumed time d) _ a a' s s' r (λ start. resume_time-IsResumed time start d) e
  last_round (PlaybackState.active d) again time a a' s s' r n e =
      (ground arith, ground arith, ground arith)
  last_round (PlaybackState.unverified es) again time a a' s s' r n e = refused a a' s s' r e
  last_round (PlaybackState.errored x) again time a a' s s' r n e = refused a a' s s' r e

  pub last_round-ends :
      (st : PlaybackState) (again : Action C F → S → Rounds) (time : ℕ) (a : Action C F) (s : S)
      → st ≢ PlaybackState.inactive
      → execute_state trait env st again time a s ≢ done none
  unfolding execute_state wrong_execute
  last_round-ends PlaybackState.inactive again time a s n e = absurd (n refl)
  last_round-ends PlaybackState.loading again time a s n e = cc
  last_round-ends PlaybackState.loaded again time a s n e = run_at-ends _ a s e
  last_round-ends (PlaybackState.paused none) again time a s n e = run_at-ends _ a s e
  last_round-ends (PlaybackState.paused (some d)) again time a s n e = run_at-ends _ a s e
  last_round-ends (PlaybackState.active d) again time a s n e = cc
  last_round-ends (PlaybackState.unverified es) again time a s n e = cc
  last_round-ends (PlaybackState.errored x) again time a s n e = cc

  -- The rest of the loop is not used.
  pub last_round-again :
      (st : PlaybackState) (again again' : Action C F → S → Rounds) (time : ℕ) (a : Action C F)
      (s : S)
      → st ≢ PlaybackState.inactive
      → execute_state trait env st again time a s ≡ execute_state trait env st again' time a s
  unfolding execute_state
  last_round-again PlaybackState.inactive again again' time a s n = absurd (n refl)
  last_round-again PlaybackState.loading again again' time a s n = refl
  last_round-again PlaybackState.loaded again again' time a s n = refl
  last_round-again (PlaybackState.paused none) again again' time a s n = refl
  last_round-again (PlaybackState.paused (some d)) again again' time a s n = refl
  last_round-again (PlaybackState.active d) again again' time a s n = refl
  last_round-again (PlaybackState.unverified es) again again' time a s n = refl
  last_round-again (PlaybackState.errored x) again again' time a s n = refl

  -- A load that succeeds, from `Inactive`.
  loaded_ok :
      (a b : Action C F) (s t : S) (u : Unit {0})
      → a.state ≡ PlaybackState.inactive
      → load trait env a s ≡ done (b, t, ok u)
      → Started b.state
  loaded_ok a b s t u p e =
      Attempt-Started trait env (trait.verify_params a.ctl s) a b s t u
        (subst (λ st. Loads trait env st a s b t (ok u)) p (load-Loads trait env a b s t (ok u) e))

  pub Started-ne-inactive : (st : PlaybackState) → Started st → st ≢ PlaybackState.inactive
  Started-ne-inactive st (inl e) q = cc
  Started-ne-inactive st (inr (inl e)) q = cc
  Started-ne-inactive st (inr (inr (x, e))) q = cc

  -- The second round, after a load.
  pub second_round :
      (n time : ℕ) (a : Action C F) (s : S) (x : Action C F × S × Result (Unit {0}))
      → a.state ≡ PlaybackState.inactive
      → load trait env a s ≡ done x
      → (after_load trait env (λ b t. execute_loop trait env (suc n) time b t) x ≢ done none)
        × (after_load trait env (λ b t. execute_loop trait env (suc n) time b t) x
            ≡ after_load trait env (λ b t. execute_loop trait env 1 time b t) x)
  unfolding after_load execute_loop
  second_round n time a s (b, t, err m) p e = (λ c. cc, refl)
  second_round n time a s (b, t, ok u) p e =
      let st : Started b.state = loaded_ok a b s t u p e in
      (
        last_round-ends b.state _ time b t (Started-ne-inactive b.state st),
        last_round-again b.state _ _ time b t (Started-ne-inactive b.state st),
      )
