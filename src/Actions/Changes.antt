-- ===== src/Actions/Changes.antt =====
-- Which state changes an action accepts from the rest of the program.
use sqa.Base.{
  ◌≡◌, refl, String, Bool, true, false, done, >>=-eq-done, IsErr, err-IsErr, Result, ok, err, arith,
  ◌&&◌, ◌||◌, not,
}
use sqa.Actions.{PlaybackState}
use sqa.Actions.Controller.{ActionController, Surroundings}
use sqa.Actions.Action.{Action, Returns, reset}
use sqa.Actions.Execute.{state_change, change_from, change_running, refuse_change, wrong_change}

-- Whether the action's controller holds something that plays or could play.
abbrev pub is_running : PlaybackState → Bool
is_running PlaybackState.loaded = true
is_running PlaybackState.loading = true
is_running (PlaybackState.paused d) = true
is_running (PlaybackState.active d) = true
is_running PlaybackState.inactive = false
is_running (PlaybackState.unverified es) = false
is_running (PlaybackState.errored e) = false

abbrev pub is_errored : PlaybackState → Bool
is_errored (PlaybackState.errored e) = true
is_errored PlaybackState.loaded = false
is_errored PlaybackState.loading = false
is_errored (PlaybackState.paused d) = false
is_errored (PlaybackState.active d) = false
is_errored PlaybackState.inactive = false
is_errored (PlaybackState.unverified es) = false

abbrev pub is_unverified : PlaybackState → Bool
is_unverified (PlaybackState.unverified es) = true
is_unverified (PlaybackState.errored e) = false
is_unverified PlaybackState.loaded = false
is_unverified PlaybackState.loading = false
is_unverified (PlaybackState.paused d) = false
is_unverified (PlaybackState.active d) = false
is_unverified PlaybackState.inactive = false

-- An error is always accepted; any other change needs a running action, and makes none unverified.
abbrev pub accepts : PlaybackState → PlaybackState → Bool
accepts st ps = is_errored ps || (is_running st && not (is_unverified ps))

module _ {S C M F : Type 0} (trait : ActionController S C M) (env : Surroundings S F) where
  -- An accepted change is made; a rejected one is an error and leaves action and context alone.
  abbrev pub Changed :
      Bool → Action C F → PlaybackState → S → Action C F × S × Result (Unit {0}) → Type 0
  Changed true a ps s (a', s', r) =
      (r ≡ ok tt) × (a'.state ≡ ps) × (a'.uu ≡ a.uu) × (a'.meta ≡ a.meta)
  Changed false a ps s (a', s', r) = IsErr r × (a' ≡ a) × (s' ≡ s)

  refused_lem :
      {m : String} (a a' : Action C F) (s s' : S) (r : Result (Unit {0}))
      → ◌≡◌ {A = Returns trait env (Result (Unit {0}))} (done (a, s, err m)) (done (a', s', r))
      → IsErr r × (a' ≡ a) × (s' ≡ s)
  refused_lem {m} a a' s s' r e = (err-IsErr m r (ground arith), ground arith, ground arith)

  running :
      (ps : PlaybackState) (a a' : Action C F) (s s' : S) (r : Result (Unit {0}))
      → is_errored ps ≡ false
      → change_running trait env a s ps ≡ done (a', s', r)
      → Changed (not (is_unverified ps)) a ps s (a', s', r)
  unfolding change_running wrong_change reset
  running PlaybackState.inactive a a' s s' r n e =
      let (b, q, f) = >>=-eq-done (reset trait env a s) _ e in
      let (c, g, h) = >>=-eq-done (trait.reset a.ctl s a.uu) _ q in
      (ground arith, ground arith, ground arith, ground arith)
  running (PlaybackState.unverified es) a a' s s' r n e = refused_lem a a' s s' r e
  running (PlaybackState.errored x) a a' s s' r n e = cc
  running PlaybackState.loaded a a' s s' r n e =
      (ground arith, ground arith, ground arith, ground arith)
  running PlaybackState.loading a a' s s' r n e =
      (ground arith, ground arith, ground arith, ground arith)
  running (PlaybackState.paused d) a a' s s' r n e =
      (ground arith, ground arith, ground arith, ground arith)
  running (PlaybackState.active d) a a' s s' r n e =
      (ground arith, ground arith, ground arith, ground arith)

  change_from-running :
      (st ps : PlaybackState) (a a' : Action C F) (s s' : S) (r : Result (Unit {0}))
      → is_errored ps ≡ false
      → change_from trait env st a s ps ≡ done (a', s', r)
      → Changed (is_running st && not (is_unverified ps)) a ps s (a', s', r)
  unfolding change_from change_running refuse_change wrong_change
  change_from-running PlaybackState.inactive ps a a' s s' r n e = refused_lem a a' s s' r e
  change_from-running (PlaybackState.unverified es) ps a a' s s' r n e = refused_lem a a' s s' r e
  change_from-running (PlaybackState.errored x) ps a a' s s' r n e = refused_lem a a' s s' r e
  change_from-running PlaybackState.loaded ps a a' s s' r n e = running ps a a' s s' r n e
  change_from-running PlaybackState.loading ps a a' s s' r n e = running ps a a' s s' r n e
  change_from-running (PlaybackState.paused d) ps a a' s s' r n e = running ps a a' s s' r n e
  change_from-running (PlaybackState.active d) ps a a' s s' r n e = running ps a a' s s' r n e

  -- A requested state change is made exactly if it is to an error, or the action is loading,
  -- loaded, active or paused and the change is not to `Unverified`. It then succeeds and leaves the
  -- action in the requested state; otherwise it fails and changes nothing.
  pub state_change-Changed :
      (ps : PlaybackState) (a a' : Action C F) (s s' : S) (r : Result (Unit {0}))
      → state_change trait env a ps s ≡ done (a', s', r)
      → Changed (accepts a.state ps) a ps s (a', s', r)
  unfolding state_change
  state_change-Changed (PlaybackState.errored x) a a' s s' r e =
      (ground arith, ground arith, ground arith, ground arith)
  state_change-Changed PlaybackState.inactive a a' s s' r e =
      change_from-running a.state _ a a' s s' r refl e
  state_change-Changed (PlaybackState.unverified es) a a' s s' r e =
      change_from-running a.state _ a a' s s' r refl e
  state_change-Changed PlaybackState.loaded a a' s s' r e =
      change_from-running a.state _ a a' s s' r refl e
  state_change-Changed PlaybackState.loading a a' s s' r e =
      change_from-running a.state _ a a' s s' r refl e
  state_change-Changed (PlaybackState.paused d) a a' s s' r e =
      change_from-running a.state _ a a' s s' r refl e
  state_change-Changed (PlaybackState.active d) a a' s s' r e =
      change_from-running a.state _ a a' s s' r refl e
