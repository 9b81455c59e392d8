-- ===== src/Mixer/Config/Defaults.antt =====
-- After a configuration is applied, each default channel is one of the mixer's channels
-- (sqa-backend/src/mixer.rs).
use sqa.Base.{
  ℕ, ◌≡◌, refl, sym, ap, ◌∙◌, subst, true, ◌&&◌, not, str_eq, some, List, [], ◌∷◌, ◌++◌, get_elem?,
  Outcome, done, ◌==◌, is_some, arith, Option-cases, Bool-cases, inl, inr, done-inj,
}
use sqa.Base.HashMap
use sqa.Base.HashMap.{HashMap, get-insert}
use sqa.Base.HashSet.{contains}
use sqa.Engine.{ArrayVec, Spsc}
use sqa.Engine.Context.{Jack, remove_channel, new_channel}
use sqa.Mixer.{
  Channel, MixerConf, MixerError, Tried, went, return, modify, unwrap, ok_or, follow-went, went-inj,
}
use sqa.Mixer.Context.{
  MixerContext, Mix, of_engine, update_known, open_new, retain, retain_defs, connect_opened, rename,
  repatch, obtain_def,
}
use sqa.Mixer.Config.{
  remove_clashes_with, remove_clashes, apply_channel, apply_channels, remove_untouched,
  process_config,
}
use sqa.Mixer.Config.Touched.{Known-push, keys-Known, no_uuids, retained}
use sqa.Mixer.Config.Growth.{
  Keyed, Known, Grown, Grows, Gives, Keyed-insert, return-Grows, >>=-Grows, >>=-Gives,
  of_engine-Grows, of_engine-channels, of_engine-defs, modify-Grows, update_known-Grows,
  connect_opened-Grows,
}

-- A call that gives back the UUID `k`, under which there is then a channel.
abbrev Finds : (J : Type 0) → Mix J ℕ → ℕ → Type 0
Finds J c k =
    (m m' : MixerContext J) (a : ℕ)
    → c m ≡ done (m', went a)
    → (a ≡ k) × (is_some (HashMap.get k m'.channels) ≡ true)

module _ {J : Type 0} (v : ArrayVec) (q : Spsc) (jack : Jack J) where
  open_new-Grows : (ch : Channel) → Grows J ℕ (open_new v q jack ch)
  unfolding open_new
  open_new-Grows ch =
      >>=-Grows (of_engine (λ s. new_channel v q jack s ch.name)) _ (of_engine-Grows _) (λ eid.
        >>=-Grows (connect_opened v q jack eid ch.patch) _
          (connect_opened-Grows v q jack eid ch.patch)
          (λ u.
            >>=-Grows (modify _) _
              (modify-Grows
                (λ m. record m {
                  channels = HashMap.insert ch.uuid (record ch { eid = eid }) m.channels;
                })
                (λ m w. Keyed-insert m.channels (record ch { eid = eid }) w))
              (λ x. return-Grows ch.uuid)))

  open_new-Finds : (ch : Channel) → Finds J (open_new v q jack ch) ch.uuid
  unfolding open_new
  open_new-Finds ch m m' a h =
      let (m1, eid, e1, h1) = follow-went _ (of_engine (λ s. new_channel v q jack s ch.name) m) h in
      let (m2, u, e2, h2) = follow-went _ (connect_opened v q jack eid ch.patch m1) h1 in
      let same : record m2 {
        channels = HashMap.insert ch.uuid (record ch { eid = eid }) m2.channels;
      }
          ≡ m' =
        ap (λ r. r.0) (done-inj h2) in
      (
        sym (went-inj (ap (λ r. r.1) (done-inj h2))),
        subst (λ (t : MixerContext J). is_some (HashMap.get ch.uuid t.channels) ≡ true) same
            (rw (get-insert {V = Channel} ch.uuid ch.uuid (record ch { eid = eid }) m2.channels)
              (ground arith)),
      )

  return-Gives : (k : ℕ) → Gives J ℕ (return k) k
  return-Gives k m m' a h = sym (went-inj (ap (λ r. r.1) (done-inj h)))

  update_known-Gives : (ch c2 : Channel) → Gives J ℕ (update_known v q jack ch c2) c2.uuid
  unfolding update_known
  update_known-Gives ch c2 m m' a h =
      >>=-Gives (unwrap (get_elem? m.engine.engine.chans c2.eid)) _ c2.uuid
        (λ slot.
          >>=-Gives (ok_or slot (MixerError.message "Channel removed or logic error")) _ c2.uuid
            (λ ech.
              >>=-Gives (rename v q jack ech ch c2) _ c2.uuid (λ u.
                >>=-Gives (repatch v q jack ech ch c2) _ c2.uuid (λ x. return-Gives c2.uuid))))
        m m' a h

  -- What applying one channel does.
  abbrev Applied : MixerContext J → MixerContext J → ℕ → Type 0
  Applied m m' uu =
      Keyed m'.channels
      × Grown m.channels m'.channels
      × (is_some (HashMap.get uu m'.channels) ≡ true)

  apply_channel-Applied :
      (ch : Channel) (m m' : MixerContext J) (uu : ℕ)
      → apply_channel v q jack ch m ≡ done (m', went uu)
      → Keyed m.channels
      → Applied m m' uu
  unfolding apply_channel
  apply_channel-Applied ch m m' uu h w = elim (Option-cases (HashMap.get ch.uuid m.channels)) [
    | inl n ↦
        let opened = rw (n, apply_channel) at h in
        let (e, f) = open_new-Finds ch m m' uu opened in
        let (k, g) = open_new-Grows ch m m' uu opened w in
        (k, g, subst (λ i. is_some (HashMap.get i m'.channels) ≡ true) (sym e) f)
    | inr (c2, n) ↦
        let known = rw (n, apply_channel) at h in
        let id = w ch.uuid c2 n in
        let (k, g) = update_known-Grows v q jack ch c2 id m m' uu known w in
        let e = update_known-Gives ch c2 m m' uu known in
        (
          k,
          g,
          subst (λ i. is_some (HashMap.get i m'.channels) ≡ true) (sym (e ∙ id))
              (g ch.uuid (ap is_some n)),
        )
  ]

  returned :
      {A : Type 0} (m m' : MixerContext J) (a b : A)
      → ◌≡◌ {A = Outcome (MixerContext J × Tried A)} (done (m, went a)) (done (m', went b))
      → ◌≡◌ {A = MixerContext J × A} (m, a) (m', b)
  returned m m' a b h =
      let p : m ≡ m' = ap (λ r. r.0) (done-inj h) in
      let e : a ≡ b = went-inj (ap (λ r. r.1) (done-inj h)) in λ i. (p i, e i)

  apply_channels-Known :
      (channels : List Channel) (touched : List ℕ) (m m' : MixerContext J) (found : List ℕ)
      → apply_channels v q jack channels touched m ≡ done (m', went found)
      → Keyed m.channels
      → Known touched m.channels
      → Keyed m'.channels × Known found m'.channels
  unfolding apply_channels
  apply_channels-Known [] touched m m' found h w n =
      let p = returned m m' touched found h in
      subst (λ (r : MixerContext J × List ℕ). Keyed r.0.channels × Known r.1 r.0.channels) p (w, n)
  apply_channels-Known (ch ∷ channels) touched m m' found h w n =
      let (m1, uu, e, h1) = follow-went _ (apply_channel v q jack ch m) h in
      let (w1, g, f) = apply_channel-Applied ch m m1 uu e w in
      apply_channels-Known channels (touched ++ uu ∷ []) m1 m' found h1 w1
        (Known-push touched uu m1.channels (λ k x. g k (n k x)) f)

  remove_clashes_with-Known :
      (uu : ℕ) (ch : Channel) (new : List Channel) (touched : List ℕ) (m m' : MixerContext J)
      (found : List ℕ)
      → remove_clashes_with v q jack uu ch new touched m ≡ done (m', went found)
      → is_some (HashMap.get uu m.channels) ≡ true
      → Known touched m.channels
      → (m'.channels ≡ m.channels) × Known found m.channels
  unfolding remove_clashes_with
  remove_clashes_with-Known uu ch [] touched m m' found h i n =
      subst (λ (r : MixerContext J × List ℕ). (r.0.channels ≡ m.channels) × Known r.1 m.channels)
        (returned m m' touched found h) (refl, n)
  remove_clashes_with-Known uu ch (nch ∷ new) touched m m' found h i n =
      elim (Bool-cases (str_eq ch.name nch.name && not (ch.uuid == nch.uuid))) [
        | inl e ↦
            let (m1, u, e1, h1) =
              follow-went _ (of_engine (λ s. remove_channel v q jack s ch.eid) m)
                (rw (e, remove_clashes_with) at h) in
            let same = of_engine-channels (λ s. remove_channel v q jack s ch.eid) m m1 u e1 in
            let (p, k) =
              remove_clashes_with-Known uu ch new (touched ++ uu ∷ []) m1 m' found h1 (rw same i)
                (rw same (Known-push touched uu m.channels n i)) in
            (p ∙ same, subst (Known found) same k)
        | inr e ↦
            remove_clashes_with-Known uu ch new touched m m' found
              (rw (e, remove_clashes_with) at h) i n
      ]

  remove_clashes-Known :
      (rest : HashMap Channel) (new : List Channel) (touched : List ℕ) (m m' : MixerContext J)
      (found : List ℕ)
      → remove_clashes v q jack rest new touched m ≡ done (m', went found)
      → Known (HashMap.keys rest) m.channels
      → Known touched m.channels
      → (m'.channels ≡ m.channels) × Known found m.channels
  unfolding remove_clashes contains
  remove_clashes-Known [] new touched m m' found h i n =
      subst (λ (r : MixerContext J × List ℕ). (r.0.channels ≡ m.channels) × Known r.1 m.channels)
        (returned m m' touched found h) (refl, n)
  remove_clashes-Known ((uu, ch) ∷ rest) new touched m m' found h i n =
      let (m1, t1, e1, h1) = follow-went _ (remove_clashes_with v q jack uu ch new touched m) h in
      let (p, k) = remove_clashes_with-Known uu ch new touched m m1 t1 e1 (i uu (ground arith)) n in
      let (p', k') =
        remove_clashes-Known rest new t1 m1 m' found h1 (rw p (λ j x. i j (ground arith)))
          (rw p k) in
      (p' ∙ p, subst (Known found) p k')

  remove_untouched-channels :
      (rest : HashMap Channel) (touched : List ℕ) (m m' : MixerContext J) (u : Unit {0})
      → remove_untouched v q jack rest touched m ≡ done (m', went u)
      → (m'.channels ≡ m.channels) × (m'.defs ≡ m.defs)
  unfolding remove_untouched
  remove_untouched-channels [] touched m m' u h =
      subst (λ (r : MixerContext J × Unit {0}). (r.0.channels ≡ m.channels) × (r.0.defs ≡ m.defs))
        (returned m m' tt u h) (refl, refl)
  remove_untouched-channels ((uu, ch) ∷ rest) touched m m' u h =
      elim (Bool-cases (contains uu touched)) [
        | inl e ↦ remove_untouched-channels rest touched m m' u (rw (e, remove_untouched) at h)
        | inr e ↦
            let (m1, x, e1, h1) =
              follow-went _ (of_engine (λ s. remove_channel v q jack s ch.eid) m)
                (rw (e, remove_untouched) at h) in
            let (p, d) = remove_untouched-channels rest touched m1 m' u h1 in
            (
              p ∙ of_engine-channels (λ s. remove_channel v q jack s ch.eid) m m1 x e1,
              d ∙ of_engine-defs (λ s. remove_channel v q jack s ch.eid) m m1 x e1,
            )
      ]

  -- If each channel stands under its own UUID and a configuration is applied without an error, that
  -- still holds, and each default channel of the mixer is a channel that it has.
  pub process_config-Defaults :
      (conf : MixerConf) (m m' : MixerContext J) (u : Unit {0})
      → Keyed m.channels
      → process_config v q jack conf m ≡ done (m', went u)
      → Keyed m'.channels
        × ((idx uu : ℕ) → obtain_def m' idx ≡ some uu → is_some (HashMap.get uu m'.channels) ≡ true)
  unfolding process_config obtain_def
  process_config-Defaults conf m m' u w h =
      let (m1, clashed, e1, h1) =
        follow-went _ (remove_clashes v q jack m.channels conf.channels [] m) h in
      let (p, k) =
        remove_clashes-Known m.channels conf.channels [] m m1 clashed e1 (keys-Known m.channels)
          (no_uuids m.channels) in
      let (m2, touched, e2, h2) =
        follow-went _ (apply_channels v q jack conf.channels clashed m1) h1 in
      let (w2, k2) =
        apply_channels-Known conf.channels clashed m1 m2 touched e2 (rw p w) (rw p k) in
      let m3 : MixerContext J = record m2 { defs = retain_defs touched conf.defs } in
      let (m4, x, e4, h4) = follow-went _ (remove_untouched v q jack m3.channels touched m3) h2 in
      let (c4, d4) = remove_untouched-channels m3.channels touched m3 m4 x e4 in
      let (kept, known) = retained touched conf.defs m2.channels w2 k2 in
      let last : record m4 { channels = retain (λ uu. contains uu touched) m4.channels } ≡ m' =
        ap (λ r. r.0) (done-inj h4) in
      subst
        (λ (t : MixerContext J).
          Keyed t.channels
          × ((idx uu : ℕ)
              → get_elem? t.defs idx ≡ some uu
              → is_some (HashMap.get uu t.channels) ≡ true))
        last (rw (c4, d4) (kept, known))
