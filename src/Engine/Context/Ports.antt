-- ===== src/Engine/Context/Ports.antt =====
-- What opening and closing a channel does to the engine's layout, and which command it sends to the
-- audio thread (sqa-engine/src/lib.rs).
use sqa.Base.{
  ℕ, zero, suc, ◌-◌, ◌<◌, ◌≤◌, ◌≡◌, ◌≢◌, ◌⊎◌, inl, inr, refl, true, false, Option, none, some, List,
  [], ◌∷◌, length, get_elem?, ◌==◌, arith, leb, Bool-cases, Option-cases, String, done,
  lt-length_of_get_elem?, ==_iff, lt→ltb, le→leb,
}
use sqa.Base.Words.{sub_u64}
use sqa.Base.HashSet.{contains}
use sqa.Engine.{ArrayVec, ArrayVecLaws, Spsc, EngineError, EngineResult, max_chans}
use sqa.Engine.Sender.{Memory}
use sqa.Engine.Thread.{DeviceContext, AudioThreadCommand}
use sqa.Engine.Context.{
  Jack, System, command, with_conn, place_port, port_registered, new_channel, taken_out,
  remove_channel,
}
use sqa.Engine.Context.Layout.{
  Layout, free, add, take_out, vacancies_le, IsValid, add-IsValid, take_out-IsValid,
}

not_vacant : (holes : List ℕ) (i : ℕ) → contains i holes ≢ true → contains i holes ≡ false
not_vacant holes i n = elim (Bool-cases (contains i holes)) [ inl y ↦ absurd (n y) | inr y ↦ y ]

lt→leb_false : (i n : ℕ) → i < n → leb n i ≡ false
lt→leb_false i n h = ground arith

pub length_le_of_none {ℓ} :
    {A : Type ℓ} (xs : List A) (i : ℕ) → get_elem? xs i ≡ none → length xs ≤ i
length_le_of_none [] i e = omega arith
length_le_of_none (x ∷ xs) zero e = cc
length_le_of_none (x ∷ xs) (suc i) e = omega (arith, length_le_of_none xs i e)

module _ {J : Type 0} where
  abbrev pub layout : System J → Layout
  layout s = (s.engine.chans, s.engine.holes)

  abbrev pub with_layout : System J → Layout → System J
  with_layout s (chans, holes) = record s {
    engine = record s.engine { chans = chans; holes = holes };
  }

module _ {J : Type 0} (v : ArrayVec) (q : Spsc) (jack : Jack J) where
  -- The channels that are in use.
  abbrev pub used : System J → ℕ
  used s = length s.engine.chans - length s.engine.holes

  -- What becomes of a new channel, from JACK's answer: its error is passed on; one channel below the
  -- capacity the limit is reached; and otherwise the port gets the free place, and the audio thread
  -- is told.
  abbrev pub Opened : System J → J × EngineResult ℕ → System J → EngineResult ℕ → Type 0
  Opened s (conn, EngineResult.failure e) s' r =
      (r ≡ EngineResult.failure e) × (s' ≡ with_conn v q jack s conn)
  Opened s (conn, EngineResult.success port) s' r =
      ((used s ≡ max_chans - 1)
        × (r ≡ EngineResult.failure EngineError.limit_exceeded)
        × (s' ≡ with_conn v q jack s conn))
      ⊎ ((used s ≢ max_chans - 1)
          × (r ≡ EngineResult.success (free (layout s)))
          × (s'
              ≡ command v q jack (with_layout (with_conn v q jack s conn) (add port (layout s)))
                  (AudioThreadCommand.add_channel port)))

  module _ (laws : ArrayVecLaws v) where
    place_port-add :
        (conn : J) (chans : List (Option ℕ)) (holes : List ℕ) (dev : DeviceContext) (mem : Memory)
        (port : ℕ)
        → IsValid (chans, holes)
        → place_port v q jack
            (record {
              engine = record { conn = conn; chans = chans; holes = holes };
              dev = dev;
              mem = mem;
            })
            port
            (v.remove holes 0)
          ≡ done (
            command v q jack
                (with_layout
                  (record {
                    engine = record { conn = conn; chans = chans; holes = holes };
                    dev = dev;
                    mem = mem;
                  })
                  (add port (chans, holes)))
                (AudioThreadCommand.add_channel port),
            EngineResult.success (free (chans, holes)),
          )
    unfolding place_port command contains
    place_port-add conn chans [] dev mem port w =
        rw
          (
            laws.remove_none {A = ℕ} [] 0 (omega arith),
            laws.push_room {A = Option ℕ} max_chans chans (some port) w.bounded,
          )
          refl
    place_port-add conn chans (ix ∷ holes) dev mem port w =
        let at = (w.listed ix).0 (ground arith) in
        let small = lt-length_of_get_elem? chans ix at in
        rw (laws.remove_some {A = ℕ} (ix ∷ holes) 0 ix refl, lt→ltb ix (length chans) small) refl

    -- With a valid layout, `new_channel` returns. Where JACK refuses a port of that name, its error is
    -- passed on; where JACK gives a port and the channels in use are one less than the capacity, the
    -- limit is reached; in both cases nothing changes but the connection, which is as JACK left it.
    -- Otherwise the channel gets the first hole, or else a new place at the end, the port that JACK
    -- gave stands there, and the audio thread is sent the port. The layout stays valid.
    pub new_channel-opens :
        (s : System J) (name : String)
        → IsValid (layout s)
        → (s' : System J) × (r : EngineResult ℕ) × (new_channel v q jack s name ≡ done (s', r))
          × Opened s (jack.register_port s.engine.conn name) s' r
          × IsValid (layout s')
    unfolding new_channel port_registered with_conn command sub_u64
    new_channel-opens s name w = opened (jack.register_port s.engine.conn name)
      where
        opened :
            (found : J × EngineResult ℕ)
            → (s' : System J) × (r : EngineResult ℕ) × (port_registered v q jack s found
                ≡ done (s', r))
              × Opened s found s' r
              × IsValid (layout s')
        opened (conn, EngineResult.failure e) = (_, _, refl, (refl, refl), w)
        opened (conn, EngineResult.success port) =
            let fits : length s.engine.holes ≤ length s.engine.chans =
              omega (arith, vacancies_le s.engine.chans, w.counted) in
            elim (Bool-cases ((length s.engine.chans - length s.engine.holes) == max_chans - 1)) [
              | inl full ↦ (
                with_conn v q jack s conn,
                EngineResult.failure EngineError.limit_exceeded,
                rw (le→leb (length s.engine.holes) (length s.engine.chans) fits, full) refl,
                inl ((==_iff _ _).0 full, refl, refl),
                w,
              )
              | inr room ↦ (
                command v q jack (with_layout (with_conn v q jack s conn) (add port (layout s)))
                    (AudioThreadCommand.add_channel port),
                EngineResult.success (free (layout s)),
                rw (le→leb (length s.engine.holes) (length s.engine.chans) fits, room)
                    (place_port-add conn s.engine.chans s.engine.holes s.dev s.mem port w),
                inr (ground (arith, room), refl, refl),
                add-IsValid port (layout s) w (ground arith),
              )
            ]

    -- With a valid layout, `remove_channel` of a place with a port returns: the place is vacant and
    -- the last of the holes, no other place changes, the audio thread is told, and the layout stays
    -- valid.
    pub remove_channel-closes :
        (s : System J) (idx port : ℕ)
        → IsValid (layout s)
        → get_elem? s.engine.chans idx ≡ some (some port)
        → (s' : System J) × (r : EngineResult (Unit {0})) × (remove_channel v q jack s idx
            ≡ done (s', r))
          × (s'
              ≡ command v q jack
                  (with_layout (with_conn v q jack s s'.engine.conn) (take_out idx (layout s)))
                  (AudioThreadCommand.remove_channel idx))
          × IsValid (layout s')
    unfolding remove_channel taken_out with_conn command
    remove_channel-closes s idx port w e =
        let small = lt-length_of_get_elem? s.engine.chans idx e in
        let few : length s.engine.holes < max_chans =
          omega (arith, vacancies_le s.engine.chans, w.counted, w.bounded) in
        (
          command v q jack
              (with_layout (with_conn v q jack s (jack.unregister_port s.engine.conn port).0)
                (take_out idx (layout s)))
              (AudioThreadCommand.remove_channel idx),
          (jack.unregister_port s.engine.conn port).1,
          rw
              (
                not_vacant s.engine.holes idx (λ h. cc ((w.listed idx).0 h)),
                lt→leb_false idx (length s.engine.chans) small,
                laws.push_room {A = Option ℕ} max_chans s.engine.chans none w.bounded,
                laws.push_room {A = ℕ} max_chans s.engine.holes idx few,
                laws.swap_remove_some {A = Option ℕ} s.engine.chans none idx (some port) e,
              )
              refl,
          refl,
          take_out-IsValid idx port (layout s) w e,
        )

    -- With a valid layout, `remove_channel` of a place without a port fails and changes nothing.
    pub remove_channel-refuses :
        (s : System J) (idx : ℕ)
        → IsValid (layout s)
        → ((port : ℕ) → get_elem? s.engine.chans idx ≢ some (some port))
        → remove_channel v q jack s idx ≡ done (s, EngineResult.failure EngineError.no_such_channel)
    unfolding remove_channel
    remove_channel-refuses s idx w n = elim (Option-cases (get_elem? s.engine.chans idx)) [
      | inl e ↦
          rw (le→leb (length s.engine.chans) idx (length_le_of_none s.engine.chans idx e)) refl
      | inr (none, e) ↦ rw ((w.listed idx).1 e) (ground arith)
      | inr (some port, e) ↦ absurd (n port e)
    ]
