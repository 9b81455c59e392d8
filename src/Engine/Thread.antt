-- ===== src/Engine/Thread.antt =====
-- The audio thread (sqa-engine/src/thread.rs): its players and channels, the commands that it gets,
-- and what a callback from JACK does.
pub mod Players
pub mod Process
pub mod Callbacks
use sqa.Base.{
  ℕ, ◌+◌, ◌-◌, Bool, true, false, Option, none, some, List, [], ◌∷◌, length, get_elem?, set,
  Outcome, done, ◌>>=◌, ◌>>◌, unwrap, assert, ltb,
}
use sqa.Engine.{ArrayVec, Spsc, max_players, max_chans}
use sqa.Engine.Sender.{Memory, store}
use sqa.Engine.Sync.{AudioThreadMessage, AudioThreadSender, send}
use sqa.Engine.Thread.Players.{Player}

-- A port of JACK is known by a number.
pub data AudioThreadCommand : Type 0 where
  add_player : Player → AudioThreadCommand
  add_channel : ℕ → AudioThreadCommand
  remove_channel : ℕ → AudioThreadCommand

pub record DeviceChannel : Type 0 where
  pub port : ℕ
  pub written_t : ℕ
  pub zeroed_t : ℕ

pub record DeviceContext : Type 0 where
  pub players : List Player
  pub chans : List (Option DeviceChannel)
  pub holes : List ℕ
  pub control : List AudioThreadCommand
  pub length : ℕ
  pub sample_rate : ℕ
  pub sender : AudioThreadSender Player

module _ (v : ArrayVec) (q : Spsc) where
  -- A player that has found a place is alive.
  unfoldable pub added : DeviceContext → Memory → ℕ → List Player → Outcome (DeviceContext × Memory)
  unfolding send store
  added d m uu players = do
    assert (ltb 0 (length players))
    last ← unwrap (get_elem? players (length players - 1))
    done (
      record d {
        players = players;
        length = d.length + 1;
        sender = send q d.sender (AudioThreadMessage.player_added uu);
      },
      store m last.cells (record (m.streams last.cells) { alive = true }),
    )

  unfoldable pub pushed :
      DeviceContext → Memory → ℕ → List Player × Option Player → Outcome (DeviceContext × Memory)
  unfolding added send
  pushed d m uu (players, none) = added d m uu players
  pushed d m uu (players, some p) = done (
    record d { players = players; sender = send q d.sender (AudioThreadMessage.player_rejected p) },
    m,
  )

  -- The first hole, if there is one, or a new place.
  unfoldable pub place_channel :
      DeviceContext → DeviceChannel → List ℕ × Option ℕ → Outcome DeviceContext
  place_channel d ch (holes, some ix) = do
    assert (ltb ix (length d.chans))
    done (record d { holes = holes; chans = set d.chans ix (some ch) })
  place_channel d ch (holes, none) =
      done (record d { holes = holes; chans = (v.push max_chans d.chans (some ch)).0 })

  unfoldable pub handle :
      DeviceContext → Memory → AudioThreadCommand → Outcome (DeviceContext × Memory)
  unfolding pushed place_channel
  handle d m (add_player p) = pushed d m p.uuid (v.push max_players d.players p)
  handle d m (add_channel p) = do
    d' ← place_channel d (record { port = p; written_t = 0; zeroed_t = 0 }) (v.remove d.holes 0)
    done (d', m)
  handle d m (remove_channel ch) = done (
    record d {
      chans = (v.swap_remove (v.push max_chans d.chans none).0 ch).0;
      holes = (v.push max_chans d.holes ch).0;
    },
    m,
  )
