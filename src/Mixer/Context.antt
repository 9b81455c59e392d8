-- ===== src/Mixer/Context.antt =====
-- The mixer's state and calls (sqa-backend/src/mixer.rs), over the engine and its connection.
use sqa.Base.{
  ℕ, suc, Bool, true, false, String, str_eq, Option, none, some, List, [], ◌∷◌, ◌++◌, map,
  get_elem?, Outcome, done, panic, if◌then◌else◌,
}
use sqa.Base.Float.{FloatOps}
use sqa.Base.HashMap
use sqa.Base.HashMap.{HashMap}
use sqa.Base.HashSet.{contains}
use sqa.Engine.{ArrayVec, Spsc, EngineResult}
use sqa.Engine.Context.{
  Jack, System, BufferSender, new_channel, new_sender, new_sender_with_master, with_conn,
}
use sqa.Mixer.{
  Channel, MixerConf, MixerError, Tried, Call, ◌>>=◌, ◌>>◌, return, modify, ok_or, unwrap,
}

-- `engine` has with it the audio thread and the memory that they share.
pub record MixerContext (J : Type 0) : Type 0 where
  pub engine : System J
  pub channels : HashMap Channel
  pub defs : List ℕ

-- Two optional patches are the same.
abbrev pub patch_eq : Option String → Option String → Bool
patch_eq none none = true
patch_eq none (some b) = false
patch_eq (some a) none = false
patch_eq (some a) (some b) = str_eq a b

-- `HashMap::retain` by the key.
unfoldable pub retain {ℓ} : {V : Type ℓ} → (ℕ → Bool) → HashMap V → HashMap V
retain p [] = []
retain p ((k, v) ∷ m) = if p k then (k, v) ∷ retain p m else retain p m

unfoldable pub retain_defs : List ℕ → List ℕ → List ℕ
retain_defs touched [] = []
retain_defs touched (uu ∷ defs) =
    if contains uu touched then uu ∷ retain_defs touched defs else retain_defs touched defs

abbrev pub Mix : Type 0 → Type 0 → Type 0
Mix J A = Call (MixerContext J) A

abbrev pub tried : {A : Type 0} → EngineResult A → Tried A
tried (EngineResult.success a) = Tried.went a
tried (EngineResult.failure e) = Tried.threw (MixerError.engine e)

module _ {J : Type 0} where
  unfoldable pub obtain_config : MixerContext J → MixerConf
  obtain_config m = record { channels = map (λ e. e.1) m.channels; defs = m.defs }

  unfoldable pub obtain_def : MixerContext J → ℕ → Option ℕ
  obtain_def m idx = get_elem? m.defs idx

  unfoldable pub obtain_channel : MixerContext J → ℕ → Option ℕ
  unfolding HashMap.get
  obtain_channel m uu = elim (HashMap.get uu m.channels) [ none ↦ none | some ch ↦ some ch.eid ]

  -- A call of the engine within one of the mixer.
  abbrev pub lifted :
      {A : Type 0}
      → MixerContext J
      → Outcome (System J × EngineResult A)
      → Outcome (MixerContext J × Tried A)
  lifted m (done (s, r)) = done (record m { engine = s }, tried r)
  lifted m panic = panic

  abbrev pub of_engine : {A : Type 0} → (System J → Outcome (System J × EngineResult A)) → Mix J A
  of_engine f m = lifted m (f m.engine)

module _ {J : Type 0} (v : ArrayVec) (q : Spsc) (jack : Jack J) where
  -- A call of the connection.
  abbrev pub of_conn : {A : Type 0} → (J → J × EngineResult A) → Mix J A
  of_conn f m =
      let (conn, r) = f m.engine.engine.conn in
      done (record m { engine = with_conn v q jack m.engine conn }, tried r)

  abbrev pub port_by_name : String → Mix J ℕ
  port_by_name name m = done (m, tried (jack.get_port_by_name m.engine.engine.conn name))

  unfoldable pub connect_new : ℕ → Option String → Mix J (Unit {0})
  connect_new ech none = return tt
  connect_new ech (some name) = do
    port ← port_by_name name
    of_conn (λ conn. jack.connect_ports conn ech port)

  -- A port that cannot be found or disconnected is passed over.
  abbrev pub disconnect_found : ℕ → EngineResult ℕ → Mix J (Unit {0})
  disconnect_found ech (EngineResult.failure e) = return tt
  disconnect_found ech (EngineResult.success port) = modify (λ m. record m {
    engine = with_conn v q jack m.engine (jack.disconnect_ports m.engine.engine.conn ech port).0;
  })

  unfoldable pub disconnect_old : ℕ → Option String → Mix J (Unit {0})
  disconnect_old ech none m = return tt m
  disconnect_old ech (some old) m =
      disconnect_found ech (jack.get_port_by_name m.engine.engine.conn old) m

  unfoldable pub rename : ℕ → Channel → Channel → Mix J (Unit {0})
  unfolding HashMap.insert
  rename ech ch c2 = if str_eq ch.name c2.name then return tt else (do
    of_conn (λ conn. jack.set_short_name conn ech ch.name)
    modify (λ m. record m {
      channels = HashMap.insert ch.uuid (record c2 { name = ch.name }) m.channels;
    }))

  -- The patch that the channel had and the one that it gets.
  unfoldable pub repatch : ℕ → Channel → Channel → Mix J (Unit {0})
  unfolding disconnect_old connect_new
  repatch ech ch c2 =
      if patch_eq ch.patch c2.patch
      then return tt
      else (do disconnect_old ech c2.patch; connect_new ech ch.patch)

  -- A channel that is there already: its name and its connections follow the configuration.
  unfoldable pub update_known : Channel → Channel → Mix J ℕ
  unfolding rename repatch
  update_known ch c2 m =
      (do
        slot ← unwrap (get_elem? m.engine.engine.chans c2.eid)
        ech ← ok_or slot (MixerError.message "Channel removed or logic error")
        rename ech ch c2
        repatch ech ch c2
        return c2.uuid)
        m

  unfoldable pub connect_opened : ℕ → Option String → Mix J (Unit {0})
  unfolding connect_new
  connect_opened eid none = return tt
  connect_opened eid (some name) = do
    port ← port_by_name name
    λ m.
        (do
          slot ← unwrap (get_elem? m.engine.engine.chans eid)
          ech ← unwrap slot
          of_conn (λ conn. jack.connect_ports conn ech port))
          m

  -- A channel that is new.
  unfoldable pub open_new : Channel → Mix J ℕ
  unfolding connect_opened new_channel HashMap.insert
  open_new ch = do
    eid ← of_engine (λ s. new_channel v q jack s ch.name)
    connect_opened eid ch.patch
    modify
        (λ m. record m { channels = HashMap.insert ch.uuid (record ch { eid = eid }) m.channels })
    return ch.uuid

  module _ (f : FloatOps) (usize_max : ℕ) where
    unfoldable pub mix_sender : MixerContext J → ℕ → ℕ → MixerContext J × BufferSender
    unfolding new_sender
    mix_sender m sample_rate uu =
        let (s, sender) = new_sender v q jack f usize_max m.engine sample_rate uu in
        (record m { engine = s }, sender)

    -- The senders beside the master; their UUIDs are given.
    unfoldable pub other_senders :
        MixerContext J → BufferSender → List ℕ → MixerContext J × List BufferSender
    unfolding new_sender_with_master
    other_senders m master [] = (m, [])
    other_senders m master (uu ∷ uus) =
        let (s, sender) = new_sender_with_master v q jack f usize_max m.engine master uu in
        let (m', rest) = other_senders (record m { engine = s }) master uus in (m', sender ∷ rest)

    -- `n`, the length of the list of UUIDs, less one is computed first, so no sender is a panic.
    unfoldable pub new_senders :
        MixerContext J → ℕ → List ℕ → Outcome (MixerContext J × List BufferSender)
    unfolding mix_sender other_senders
    new_senders m sample_rate [] = panic
    new_senders m sample_rate (uu ∷ uus) =
        let (m', master) = mix_sender m sample_rate uu in
        let (m'', others) = other_senders m' master uus in done (m'', master ∷ others)

  -- `n` counts the ports so far; `uuid` gives the new UUIDs.
  unfoldable pub default_channels : (ℕ → String) → (ℕ → ℕ) → ℕ → List ℕ → Mix J (Unit {0})
  unfolding new_channel HashMap.insert
  default_channels name uuid n [] = return tt
  default_channels name uuid n (port ∷ ports) = do
    eid ← of_engine (λ s. new_channel v q jack s (name n))
    patch ← λ m. done (m, tried (jack.get_name m.engine.engine.conn port))
    λ m.
        (do
          slot ← unwrap (get_elem? m.engine.engine.chans eid)
          ech ← unwrap slot
          of_conn (λ conn. jack.connect_ports conn ech port))
          m
    modify (λ m. record m {
      channels =
          HashMap.insert (uuid n)
            (record { name = name n; uuid = uuid n; eid = eid; patch = some patch }) m.channels;
      defs = m.defs ++ uuid n ∷ [];
    })
    default_channels name uuid (suc n) ports

  unfoldable pub default_config : (ℕ → String) → (ℕ → ℕ) → Mix J (Unit {0})
  unfolding default_channels
  default_config name uuid = do
    ports ← λ m. done (m, tried (jack.get_input_ports m.engine.engine.conn))
    default_channels name uuid 0 ports
