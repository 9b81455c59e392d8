-- ===== src/Mixer/Config/Growth.antt =====
-- What the parts of applying a configuration do to the mixer's channels: none is lost, and each
-- stays under its UUID (sqa-backend/src/mixer.rs).
use sqa.Base.{
  ℕ, ◌≡◌, refl, sym, ap, ◌∙◌, subst, Bool, true, false, String, str_eq, Option, none, some, List,
  get_elem?, Outcome, done, panic, ◌==◌, if◌then◌else◌, is_some, arith, Bool-cases, inl, inr,
}
use sqa.Base.HashMap
use sqa.Base.HashMap.{HashMap, get-insert}
use sqa.Base.HashSet.{contains}
use sqa.Engine.{ArrayVec, Spsc, EngineResult}
use sqa.Engine.Context.{Jack, System, with_conn}
use sqa.Mixer.{Channel, MixerError, Tried, went, ◌>>=◌, return, modify, unwrap, ok_or, follow-went}
use sqa.Mixer.Context.{
  MixerContext, Mix, of_engine, of_conn, lifted, tried, update_known, rename, repatch, connect_new,
  disconnect_old, disconnect_found, connect_opened, port_by_name, patch_eq,
}

-- Each channel stands under its own UUID.
abbrev pub Keyed : HashMap Channel → Type 0
Keyed channels = (k : ℕ) (c : Channel) → HashMap.get k channels ≡ some c → c.uuid ≡ k

abbrev pub Known : List ℕ → HashMap Channel → Type 0
Known uus channels = (k : ℕ) → contains k uus ≡ true → is_some (HashMap.get k channels) ≡ true

abbrev pub Grown : HashMap Channel → HashMap Channel → Type 0
Grown x y = (k : ℕ) → is_some (HashMap.get k x) ≡ true → is_some (HashMap.get k y) ≡ true

-- A call that goes through loses no channel and keeps each under its UUID.
abbrev pub Grows : (J A : Type 0) → Mix J A → Type 0
Grows J A c =
    (m m' : MixerContext J) (a : A)
    → c m ≡ done (m', went a)
    → Keyed m.channels
    → Keyed m'.channels × Grown m.channels m'.channels

-- It gives back this value.
abbrev pub Gives : (J A : Type 0) → Mix J A → A → Type 0
Gives J A c b = (m m' : MixerContext J) (a : A) → c m ≡ done (m', went a) → a ≡ b

pub Keyed-insert :
    (x : HashMap Channel) (c : Channel)
    → Keyed x
    → Keyed (HashMap.insert c.uuid c x) × Grown x (HashMap.insert c.uuid c x)
Keyed-insert x c w = (λ k d e. keyed k d e, λ k h. ground (arith, get-insert c.uuid k c x))
  where
    keyed : (k : ℕ) (d : Channel) → HashMap.get k (HashMap.insert c.uuid c x) ≡ some d → d.uuid ≡ k
    keyed k d e =
        let found : HashMap.get k (HashMap.insert c.uuid c x)
            ≡ (if c.uuid == k then some c else HashMap.get k x) =
          get-insert c.uuid k c x in
        elim (Bool-cases (c.uuid == k)) [
          | inl n ↦
              let here = rw n at found in
              let p : d ≡ c = cc in ap (λ (t : Channel). t.uuid) p ∙ ground arith
          | inr n ↦ let there = rw n at found in w k d (sym there ∙ e)
        ]

module _ {J : Type 0} where
  pub same-Grows :
      (m m' : MixerContext J)
      → m'.channels ≡ m.channels
      → Keyed m.channels
      → Keyed m'.channels × Grown m.channels m'.channels
  same-Grows m m' e w = (subst Keyed (sym e) w, λ k h. rw e h)

  pub return-Grows : {A : Type 0} (a : A) → Grows J A (return a)
  return-Grows a m m' b h = same-Grows m m' cc

  pub >>=-Grows :
      {A B : Type 0} (c : Mix J A) (f : A → Mix J B)
      → Grows J A c
      → ((a : A) → Grows J B (f a))
      → Grows J B (c >>= f)
  >>=-Grows c f g k m m' b h w =
      let (n, a, e, l) = follow-went f (c m) h in
      let (w', x) = g m n a e w in let (w'', y) = k a n m' b l w' in (w'', λ i z. y i (x i z))

  pub >>=-Gives :
      {A B : Type 0} (c : Mix J A) (f : A → Mix J B) (b : B)
      → ((a : A) → Gives J B (f a) b)
      → Gives J B (c >>= f) b
  >>=-Gives c f b g m m' x h = let (n, a, e, l) = follow-went f (c m) h in g a n m' x l

  pub if-Grows :
      {A : Type 0} (b : Bool) (c d : Mix J A)
      → Grows J A c
      → Grows J A d
      → Grows J A (if b then c else d)
  if-Grows true c d g k = g
  if-Grows false c d g k = k

  pub of_engine-channels :
      {A : Type 0} (f : System J → Outcome (System J × EngineResult A)) (m m' : MixerContext J)
      (a : A)
      → of_engine f m ≡ done (m', went a)
      → m'.channels ≡ m.channels
  of_engine-channels {A} f m m' a h = from (f m.engine) h
    where
      from :
          (o : Outcome (System J × EngineResult A))
          → lifted m o ≡ done (m', went a)
          → m'.channels ≡ m.channels
      from (done (s, EngineResult.success x)) e = cc
      from (done (s, EngineResult.failure x)) e = absurd cc
      from panic e = absurd cc

  pub of_engine-defs :
      {A : Type 0} (f : System J → Outcome (System J × EngineResult A)) (m m' : MixerContext J)
      (a : A)
      → of_engine f m ≡ done (m', went a)
      → m'.defs ≡ m.defs
  of_engine-defs {A} f m m' a h = from (f m.engine) h
    where
      from :
          (o : Outcome (System J × EngineResult A))
          → lifted m o ≡ done (m', went a)
          → m'.defs ≡ m.defs
      from (done (s, EngineResult.success x)) e = cc
      from (done (s, EngineResult.failure x)) e = absurd cc
      from panic e = absurd cc

  pub of_engine-Grows :
      {A : Type 0} (f : System J → Outcome (System J × EngineResult A)) → Grows J A (of_engine f)
  of_engine-Grows f m m' a h = same-Grows m m' (of_engine-channels f m m' a h)

  pub unwrap-Grows : {A : Type 0} (o : Option A) → Grows J A (unwrap o)
  unwrap-Grows none m m' a h = absurd cc
  unwrap-Grows (some x) m m' a h = same-Grows m m' cc

  pub ok_or-Grows : {A : Type 0} (o : Option A) (e : MixerError) → Grows J A (ok_or o e)
  ok_or-Grows none e m m' a h = absurd cc
  ok_or-Grows (some x) e m m' a h = same-Grows m m' cc

  pub tried-Grows :
      {A : Type 0} (r : EngineResult A) (f : MixerContext J → MixerContext J)
      (m m' : MixerContext J) (a : A)
      → (f m).channels ≡ m.channels
      → ◌≡◌ {A = Outcome (MixerContext J × Tried A)} (done (f m, tried r)) (done (m', went a))
      → Keyed m.channels
      → Keyed m'.channels × Grown m.channels m'.channels
  tried-Grows (EngineResult.success x) f m m' a e h =
      let q : f m ≡ m' = cc in same-Grows m m' (ap (λ (t : MixerContext J). t.channels) (sym q) ∙ e)
  tried-Grows (EngineResult.failure x) f m m' a e h = absurd cc

  pub modify-Grows :
      (f : MixerContext J → MixerContext J)
      → ((m : MixerContext J)
          → Keyed m.channels
          → Keyed (f m).channels × Grown m.channels (f m).channels)
      → Grows J (Unit {0}) (modify f)
  modify-Grows f g m m' a h w =
      let q : f m ≡ m' = cc in
      subst (λ (t : MixerContext J). Keyed t.channels × Grown m.channels t.channels) q (g m w)

module _ {J : Type 0} (v : ArrayVec) (q : Spsc) (jack : Jack J) where
  pub of_conn-Grows : {A : Type 0} (f : J → J × EngineResult A) → Grows J A (of_conn v q jack f)
  of_conn-Grows f m m' a h =
      tried-Grows (f m.engine.engine.conn).1
        (λ t. record t { engine = with_conn v q jack t.engine (f m.engine.engine.conn).0 }) m m' a
        refl h

  pub port_by_name-Grows : (name : String) → Grows J ℕ (port_by_name v q jack name)
  port_by_name-Grows name m m' a h =
      tried-Grows (jack.get_port_by_name m.engine.engine.conn name) (λ t. t) m m' a refl h

  pub connect_new-Grows :
      (ech : ℕ) (o : Option String) → Grows J (Unit {0}) (connect_new v q jack ech o)
  unfolding connect_new
  connect_new-Grows ech none = return-Grows tt
  connect_new-Grows ech (some name) =
      >>=-Grows (port_by_name v q jack name) _ (port_by_name-Grows name)
        (λ port. of_conn-Grows (λ conn. jack.connect_ports conn ech port))

  pub disconnect_old-Grows :
      (ech : ℕ) (o : Option String) → Grows J (Unit {0}) (disconnect_old v q jack ech o)
  unfolding disconnect_old
  disconnect_old-Grows ech none m m' a h = same-Grows m m' cc
  disconnect_old-Grows ech (some old) m m' a h =
      found (jack.get_port_by_name m.engine.engine.conn old) m m' a h
    where
      found : (r : EngineResult ℕ) → Grows J (Unit {0}) (disconnect_found v q jack ech r)
      found (EngineResult.failure e) = return-Grows tt
      found (EngineResult.success port) = modify-Grows _ (λ n w. (w, λ k z. z))

  pub repatch-Grows : (ech : ℕ) (ch c2 : Channel) → Grows J (Unit {0}) (repatch v q jack ech ch c2)
  unfolding repatch
  repatch-Grows ech ch c2 = if-Grows (patch_eq ch.patch c2.patch) _ _ (return-Grows tt) (
      >>=-Grows (disconnect_old v q jack ech c2.patch) _ (disconnect_old-Grows ech c2.patch)
        (λ u. connect_new-Grows ech ch.patch))

  pub rename-Grows :
      (ech : ℕ) (ch c2 : Channel)
      → c2.uuid ≡ ch.uuid
      → Grows J (Unit {0}) (rename v q jack ech ch c2)
  unfolding rename
  rename-Grows ech ch c2 e = if-Grows (str_eq ch.name c2.name) _ _ (return-Grows tt) (
      >>=-Grows (of_conn v q jack (λ conn. jack.set_short_name conn ech ch.name)) _
        (of_conn-Grows _)
        (λ u.
          modify-Grows
            (λ t. record t {
              channels = HashMap.insert ch.uuid (record c2 { name = ch.name }) t.channels;
            })
            (λ m w.
              subst
                (λ k.
                  Keyed (HashMap.insert k (record c2 { name = ch.name }) m.channels)
                  × Grown m.channels (HashMap.insert k (record c2 { name = ch.name }) m.channels))
                e (Keyed-insert m.channels (record c2 { name = ch.name }) w))))

  pub update_known-Grows :
      (ch c2 : Channel) → c2.uuid ≡ ch.uuid → Grows J ℕ (update_known v q jack ch c2)
  unfolding update_known
  update_known-Grows ch c2 e m m' a h =
      >>=-Grows (unwrap (get_elem? m.engine.engine.chans c2.eid)) _
        (unwrap-Grows (get_elem? m.engine.engine.chans c2.eid))
        (λ slot.
          >>=-Grows (ok_or slot (MixerError.message "Channel removed or logic error")) _
            (ok_or-Grows slot _)
            (λ ech. >>=-Grows (rename v q jack ech ch c2) _ (rename-Grows ech ch c2 e) (λ u.
              >>=-Grows (repatch v q jack ech ch c2) _ (repatch-Grows ech ch c2)
                (λ x. return-Grows c2.uuid))))
        m m' a h

  pub connect_opened-Grows :
      (eid : ℕ) (o : Option String) → Grows J (Unit {0}) (connect_opened v q jack eid o)
  unfolding connect_opened
  connect_opened-Grows eid none = return-Grows tt
  connect_opened-Grows eid (some name) =
      >>=-Grows (port_by_name v q jack name) _ (port_by_name-Grows name) (λ port m.
        >>=-Grows (unwrap (get_elem? m.engine.engine.chans eid)) _
          (unwrap-Grows (get_elem? m.engine.engine.chans eid))
          (λ slot.
            >>=-Grows (unwrap slot) _ (unwrap-Grows slot)
              (λ ech. of_conn-Grows (λ conn. jack.connect_ports conn ech port)))
          m)
