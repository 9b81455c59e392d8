-- ===== src/Backend/State/Actions.antt =====
-- Creating actions, and taking them back.
use sqa.Base.{
  ℕ, ◌+◌, ◌≡◌, refl, sym, ap, subst, >>=-eq-done, done-inj, assert, not, ◌∙◌, true, String, str_eq,
  Option, none, some, done, ◌>>=◌, ok, is_some, length, if◌then◌else◌, arith, ◌⊎◌,
}
use sqa.Base.HashSet.{contains, contains-insert}
use sqa.ActionManager
use sqa.Base.HashMap
use sqa.ActionManager.{ActionManager}
use sqa.ActionManager.Vector.{position}
use sqa.ActionManager.Invariant.{IsValid, insert_lem}
use sqa.Actions.{ActionParameters, ActionMetadata, PlaybackState}
use sqa.Actions.Action.{new_action}
use sqa.Actions.Execute
use sqa.Backend.{Crates}
use sqa.Backend.Controllers.{World, BackendAction, Ctl}
use sqa.Backend.State.{with_meta, with_uuid, uuid_taken, create_unless, create_from, create_action}
use sqa.Backend.State.Leaves.{Unloaded, action_of-known, with_params-Leaves, with_meta_lem, meta_or}

module _ {J X P F : Type 0} (k : Crates J X P F) where
  mark_changed-IsValid :
      (m : ActionManager (BackendAction k)) (uu : ℕ)
      → IsValid m
      → IsValid (ActionManager.mark_changed m uu)
  unfolding ActionManager.mark_changed
  mark_changed-IsValid m uu v = record { no_dup = v.no_dup; listed = v.listed }

  mark_changed_lem :
      (m : ActionManager (BackendAction k)) (uu : ℕ)
      → (ActionManager.get (ActionManager.mark_changed m uu) uu ≡ ActionManager.get m uu)
        × ((ActionManager.mark_changed m uu).order ≡ m.order)
        × (contains uu (ActionManager.mark_changed m uu).changed ≡ true)
  unfolding ActionManager.mark_changed ActionManager.get
  mark_changed_lem m uu = (refl, refl, ground (arith, contains-insert uu uu m.changed))

  insert-changed :
      (m m' : ActionManager (BackendAction k)) (uu : ℕ) (a : BackendAction k)
      → ActionManager.insert m uu a ≡ done m'
      → m'.changed ≡ m.changed
  unfolding ActionManager.insert
  insert-changed m m' uu a e =
      let (u1, e1, f1) = >>=-eq-done (assert (not (is_some (HashMap.get uu m.actions)))) _ e in
      let (u2, e2, f2) = >>=-eq-done (assert (not (is_some (position uu m.order)))) _ f1 in
      ap (λ x. x.changed) (sym (done-inj f2))

  -- What a table is like after an action was put in.
  abbrev Created :
      ActionManager (BackendAction k)
      → ℕ
      → BackendAction k
      → ActionManager (BackendAction k)
      → Type 0
  Created m uu a m' =
      (ActionManager.get m' uu ≡ some a)
      × (ActionManager.position_of m' uu ≡ some (length m.order))
      × (contains uu m'.changed ≡ true)
      × IsValid m'

  insert-Created :
      (m : ActionManager (BackendAction k)) (uu : ℕ) (a : BackendAction k)
      → IsValid m
      → ActionManager.get m uu ≡ none
      → (m' : ActionManager (BackendAction k)) × (ActionManager.insert
            (ActionManager.mark_changed m uu)
            uu
            a
          ≡ done m')
        × Created m uu a m'
  insert-Created m uu a v free =
      let marked = ActionManager.mark_changed m uu in
      let (g, o, c) = mark_changed_lem m uu in
      let (m', e, get', pos, _, v') =
        (insert_lem marked uu a (mark_changed-IsValid m uu v)).0 (g ∙ free) in
      (
        m',
        e,
        (
          get',
          pos ∙ ap (λ xs. some (length xs)) o,
          ap (contains uu) (insert-changed marked m' uu a e) ∙ c,
          v',
        ),
      )

  create_unless-Created :
      (s : World k) (pars : Option ActionParameters) (met : Option ActionMetadata) (uu : ℕ)
      (a0 : BackendAction k)
      → Unloaded k a0.ctl
      → IsValid s.actions
      → ActionManager.get s.actions uu ≡ none
      → s.sender ≡ true
      → (s' : World k) × (a : BackendAction k) × (create_unless k pars met (some uu) s a0 none
          ≡ done (s', ok uu))
        × (a.uu ≡ uu)
        × (a.state ≡ a0.state)
        × (a.meta ≡ meta_or k met a0.meta)
        × Created s.actions uu a s'.actions
  unfolding Execute.set_uuid
  create_unless-Created s pars met uu a0 u v free snd =
      let b = with_meta k met (with_uuid k (some uu) a0) in
      let (c, i, st, m) = with_meta_lem k met (with_uuid k (some uu) a0) in
      let (a, s1, set, same, id, st', m') =
        with_params-Leaves k pars b s (subst (Unloaded k) (sym c) u) snd in
      let uu' : a.uu ≡ uu = id ∙ i in
      let (t, put, created) =
        insert-Created s1.actions uu a (subst IsValid (sym same) v)
          (ap (λ x. ActionManager.get x uu) same ∙ free) in
      (
        record s1 { actions = t },
        a,
        rw (set, ◌>>=◌, uu', put) refl,
        uu',
        st' ∙ st,
        m' ∙ m,
        subst (λ x. Created x uu a t) same created,
      )

  uuid_taken-none :
      (s : World k) (uu : ℕ)
      → ActionManager.get s.actions uu ≡ none
      → uuid_taken k s (some uu) ≡ none
  uuid_taken-none s uu e = rw (e, is_some, if◌then◌else◌) refl

  -- Creating an action of a known type under a UUID that is free, as undo and redo, savefiles and
  -- clients with UUIDs of their own do, succeeds: the table stays valid and has the new action, which
  -- is inactive and has the metadata, if some are given, at the end of its order, and the action is
  -- marked as changed.
  pub create_action-Created :
      (s : World k) (ty : String) (pars : Option ActionParameters) (met : Option ActionMetadata)
      (uu : ℕ)
      → (str_eq ty "audio" ≡ true) ⊎ (str_eq ty "fade" ≡ true)
      → IsValid s.actions
      → ActionManager.get s.actions uu ≡ none
      → s.sender ≡ true
      → (s' : World k) × (a : BackendAction k) × (create_action k s ty pars met (some uu)
          ≡ done (s', ok uu))
        × (a.uu ≡ uu)
        × (a.state ≡ PlaybackState.inactive)
        × ((m : ActionMetadata) → met ≡ some m → a.meta ≡ m)
        × (ActionManager.get s'.actions uu ≡ some a)
        × (ActionManager.position_of s'.actions uu ≡ some (length s.actions.order))
        × (contains uu s'.actions.changed ≡ true)
        × IsValid s'.actions
  unfolding create_action new_action
  create_action-Created s ty pars met uu known v free snd =
      let (ctl, unloaded, made) = action_of-known k ty s known in
      let s0 : World k = record s { drawn = s.drawn + 1 } in
      let (s', a, e, id, st, m, (g, p, ch, v')) =
        create_unless-Created s0 pars met uu (new_action ctl (k.new_v4 s.drawn)) unloaded v free
          snd in
      (
        s',
        a,
        ap (create_from k pars met (some uu) s) made
            ∙ ap (create_unless k pars met (some uu) s0 (new_action ctl (k.new_v4 s.drawn)))
                (uuid_taken-none s0 uu free)
            ∙ e,
        id,
        st,
        λ m1 q.
            m
            ∙ ap (λ o. meta_or k o (new_action {C = Ctl k} {F = F} ctl (k.new_v4 s.drawn)).meta) q,
        g,
        p,
        ch,
        v',
      )
