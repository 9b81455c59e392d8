-- ===== src/Engine/Context/Mirror.antt =====
-- The audio thread's channels mirror the engine's: both go through the same layouts, however the
-- handling of commands falls between the calls (sqa-engine/src/lib.rs and thread.rs).
use sqa.Base.{
  ℕ, ◌+◌, ◌-◌, ◌<◌, ◌≤◌, ◌≡◌, ◌⊎◌, inl, inr, refl, ap, ◌∙◌, true, Option, none, some, List, [], ◌∷◌,
  ◌++◌, map, length, get_elem?, set, arith, ltb, Bool-cases, done, lt-length_of_get_elem?, lt→ltb,
  length-append, get_elem?-append_cons, map-set, map-push, length-map, get_elem?-map,
}
use sqa.Base.HashSet.{contains}
use sqa.Engine.{ArrayVec, ArrayVecLaws, Spsc, max_chans, max_players}
use sqa.Engine.Sender.{Memory, store}
use sqa.Engine.Sync.{AudioThreadMessage, send}
use sqa.Engine.Thread.{
  DeviceContext, DeviceChannel, AudioThreadCommand, handle, pushed, place_channel, added,
}
use sqa.Engine.Thread.Players.{Player}
use sqa.Engine.Context.Layout.{Layout, add, take_out, vacancies_le, IsValid}

abbrev pub port_of : Option DeviceChannel → Option ℕ
port_of none = none
port_of (some ch) = some ch.port

abbrev pub device_layout : DeviceContext → Layout
device_layout d = (map port_of d.chans, d.holes)

-- What a command does to a layout.
abbrev pub effect : AudioThreadCommand → Layout → Layout
effect (AudioThreadCommand.add_player p) l = l
effect (AudioThreadCommand.add_channel port) l = add port l
effect (AudioThreadCommand.remove_channel idx) l = take_out idx l

abbrev pub effects : List AudioThreadCommand → Layout → Layout
effects [] l = l
effects (c ∷ cs) l = effects cs (effect c l)

-- A command that finds what it needs.
abbrev pub Sound : AudioThreadCommand → Layout → Type 0
Sound (AudioThreadCommand.add_player p) l = Unit {0}
Sound (AudioThreadCommand.add_channel port) l = length l.0 < max_chans
Sound (AudioThreadCommand.remove_channel idx) l =
    (port : ℕ) × (get_elem? l.0 idx ≡ some (some port))

abbrev pub AllSound : List AudioThreadCommand → Layout → Type 0
AllSound [] l = IsValid l
AllSound (c ∷ cs) l = IsValid l × Sound c l × AllSound cs (effect c l)

Nat-lt-cases : (a b : ℕ) → (a < b) ⊎ (b ≤ a)
Nat-lt-cases a b = elim (Bool-cases (ltb a b)) [
  | inl e ↦ inl (ground arith)
  | inr e ↦ inr (ground arith)
]

contains_first : (i : ℕ) (hs : List ℕ) → contains i (i ∷ hs) ≡ true
unfolding contains
contains_first i hs = ground arith

module _ (v : ArrayVec) (q : Spsc) (laws : ArrayVecLaws v) where
  placed :
      (d : DeviceContext) (holes : List ℕ) (port : ℕ) (ch : DeviceChannel)
      → d.holes ≡ holes
      → ch.port ≡ port
      → IsValid (device_layout d)
      → (d' : DeviceContext) × (place_channel v q d ch (v.remove holes 0) ≡ done d')
        × (device_layout d' ≡ add port (map port_of d.chans, holes))
        × (d'.control ≡ d.control)
  unfolding place_channel
  placed d [] port ch e p w = (
    record d { holes = []; chans = d.chans ++ some ch ∷ [] },
    rw
        (
          laws.remove_none {A = ℕ} [] 0 (omega arith),
          laws.push_room {A = Option DeviceChannel} max_chans d.chans (some ch)
              (omega (arith, w.bounded, length-map port_of d.chans)),
        )
        refl,
    rw (map-push port_of d.chans (some ch), p) refl,
    refl,
  )
  placed d (ix ∷ holes) port ch e p w =
      let (c, at, n) =
        get_elem?-map port_of d.chans ix
          ((w.listed ix).0 (ap (λ h. contains ix h) e ∙ contains_first ix holes)) in
      (
        record d { holes = holes; chans = set d.chans ix (some ch) },
        rw
            (
              laws.remove_some {A = ℕ} (ix ∷ holes) 0 ix refl,
              lt→ltb ix (length d.chans) (lt-length_of_get_elem? d.chans ix at),
            )
            refl,
        rw (map-set port_of d.chans ix (some ch), p) refl,
        refl,
      )

  added-place :
      (d : DeviceContext) (m : Memory) (uu : ℕ) (players : List Player) (p : Player)
      → (d' : DeviceContext) × (m' : Memory) × (added v q d m uu (players ++ p ∷ [])
          ≡ done (d', m'))
        × (device_layout d' ≡ device_layout d)
        × (d'.control ≡ d.control)
  unfolding added store send
  added-place d m uu players p =
      let n : length (players ++ p ∷ []) - 1 ≡ length players =
        omega (arith, length-append players (p ∷ [])) in
      (
        record d {
          players = players ++ p ∷ [];
          length = d.length + 1;
          sender = send q d.sender (AudioThreadMessage.player_added uu);
        },
        store m p.cells (record (m.streams p.cells) { alive = true }),
        rw
            (
              lt→ltb 0 (length (players ++ p ∷ [])) (omega (arith, length-append players (p ∷ []))),
              n,
              get_elem?-append_cons players [] p,
            )
            refl,
        refl,
        refl,
      )

  -- A sound command is handled without a panic, with its effect on the layout.
  pub handle-effect :
      (d : DeviceContext) (m : Memory) (c : AudioThreadCommand)
      → IsValid (device_layout d)
      → Sound c (device_layout d)
      → (d' : DeviceContext) × (m' : Memory) × (handle v q d m c ≡ done (d', m'))
        × (device_layout d' ≡ effect c (device_layout d))
        × (d'.control ≡ d.control)
  unfolding handle pushed send
  handle-effect d m (AudioThreadCommand.add_player p) w g =
      elim (Nat-lt-cases (length d.players) max_players) [
        | inl room ↦
            let (d', m', e, l, k) = added-place d m p.uuid d.players p in
            (d', m', rw (laws.push_room {A = Player} max_players d.players p room) e, l, k)
        | inr full ↦ (
          record d { sender = send q d.sender (AudioThreadMessage.player_rejected p) },
          m,
          rw (laws.push_full {A = Player} max_players d.players p full) refl,
          refl,
          refl,
        )
      ]
  handle-effect d m (AudioThreadCommand.add_channel port) w g =
      let (d', e, l, k) =
        placed d d.holes port (record { port = port; written_t = 0; zeroed_t = 0 }) refl refl w in
      (d', m, rw e refl, l, k)
  handle-effect d m (AudioThreadCommand.remove_channel idx) w (port, g) =
      let (c, at, n) = get_elem?-map port_of d.chans idx g in
      (
        record d { chans = set d.chans idx none; holes = d.holes ++ idx ∷ [] },
        m,
        rw
            (
              laws.push_room {A = Option DeviceChannel} max_chans d.chans none
                  (omega (arith, w.bounded, length-map port_of d.chans)),
              laws.push_room {A = ℕ} max_chans d.holes idx
                  (omega (arith, w.bounded, w.counted, vacancies_le (map port_of d.chans))),
              laws.swap_remove_some {A = Option DeviceChannel} d.chans none idx c at,
            )
            refl,
        rw (map-set port_of d.chans idx none) refl,
        refl,
      )
