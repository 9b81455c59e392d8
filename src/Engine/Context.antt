-- ===== src/Engine/Context.antt =====
-- The engine's side of the channels and streams (sqa-engine/src/lib.rs): `EngineContext`.
pub mod Layout
pub mod Ports
pub mod Mirror
pub mod Callbacks
pub mod Counted
pub mod Steps
pub mod Reachable
use sqa.Base.{
  ℕ, ◌+◌, ◌-◌, true, false, ◌||◌, Option, none, some, List, [], String, length, set, Outcome, done,
  ◌>>=◌, ◌>>◌, unwrap, assert, ltb, leb, ◌==◌, if◌then◌else◌,
}
use sqa.Base.Float.{FloatOps}
use sqa.Base.HashSet.{contains}
use sqa.Base.Words.{sub_u64}
use sqa.Engine.{ArrayVec, Spsc, EngineError, EngineResult, max_chans, stream_buffer_size}
use sqa.Engine.Param.{Parameter}
use sqa.Engine.Sender.{Memory, StreamCells, Sender, update}
use sqa.Engine.Thread.{DeviceContext, AudioThreadCommand}

-- The connection to JACK (sqa-jack), of type `J`: what the engine and the mixer call of it. A port
-- is known by a number.
pub record Jack (J : Type 0) : Type 0 where
  pub register_port : J → String → J × EngineResult ℕ
  pub unregister_port : J → ℕ → J × EngineResult (Unit {0})
  pub get_port_by_name : J → String → EngineResult ℕ
  pub connect_ports : J → ℕ → ℕ → J × EngineResult (Unit {0})
  pub disconnect_ports : J → ℕ → ℕ → J × EngineResult (Unit {0})
  pub get_name : J → ℕ → EngineResult String
  -- The physical ports for input.
  pub get_input_ports : J → EngineResult (List ℕ)
  pub set_short_name : J → ℕ → String → J × EngineResult (Unit {0})

pub record EngineContext (J : Type 0) : Type 0 where
  pub conn : J
  pub chans : List (Option ℕ)
  pub holes : List ℕ

-- The engine, the audio thread with the queue of commands between the two, and what they share.
pub record System (J : Type 0) : Type 0 where
  pub engine : EngineContext J
  pub dev : DeviceContext
  pub mem : Memory

-- The main thread's end of a stream's buffer, which is known by the stream's cells.
abbrev pub BufferSender : Type 0
BufferSender = Sender ℕ

abbrev pub PlainSender : Type 0
PlainSender = Sender (Unit {0})

module _ {J : Type 0} (v : ArrayVec) (q : Spsc) (jack : Jack J) where
  unfoldable pub num_senders : System J → ℕ
  num_senders s = s.dev.length

  unfoldable pub command : System J → AudioThreadCommand → System J
  command s c = record s { dev = record s.dev { control = q.push s.dev.control c } }

  unfoldable pub with_conn : System J → J → System J
  with_conn s conn = record s { engine = record s.engine { conn = conn } }

  -- The first hole, if there is one, or a new place; the second part is its number.
  unfoldable pub place_port : System J → ℕ → List ℕ × Option ℕ → Outcome (System J × EngineResult ℕ)
  unfolding command
  place_port s port (holes, some ix) = do
    assert (ltb ix (length s.engine.chans))
    let s' = record s {
      engine = record s.engine { holes = holes; chans = set s.engine.chans ix (some port) };
    }
    done (command s' (AudioThreadCommand.add_channel port), EngineResult.success ix)
  place_port s port (holes, none) = do
    let s' = record s {
      engine = record s.engine {
        holes = holes;
        chans = (v.push max_chans s.engine.chans (some port)).0;
      };
    }
    done (
      command s' (AudioThreadCommand.add_channel port),
      EngineResult.success (length s.engine.chans),
    )

  -- A registered port stays so where the limit is exceeded.
  unfoldable pub port_registered :
      System J → J × EngineResult ℕ → Outcome (System J × EngineResult ℕ)
  unfolding with_conn place_port sub_u64
  port_registered s (conn, EngineResult.failure e) = done (with_conn s conn, EngineResult.failure e)
  port_registered s (conn, EngineResult.success port) = do
    used ← sub_u64 (length s.engine.chans) (length s.engine.holes)
    (if used == max_chans - 1
        then done (with_conn s conn, EngineResult.failure EngineError.limit_exceeded)
        else place_port (with_conn s conn) port (v.remove s.engine.holes 0))

  unfoldable pub new_channel : System J → String → Outcome (System J × EngineResult ℕ)
  unfolding port_registered
  new_channel s name = port_registered s (jack.register_port s.engine.conn name)

  unfoldable pub taken_out :
      System J → List (Option ℕ) × Option (Option ℕ) → Outcome (System J × EngineResult (Unit {0}))
  unfolding with_conn
  taken_out s (chans, found) = do
    slot ← unwrap found
    port ← unwrap slot
    let (conn, r) = jack.unregister_port s.engine.conn port
    done (with_conn (record s { engine = record s.engine { chans = chans } }) conn, r)

  unfoldable pub remove_channel : System J → ℕ → Outcome (System J × EngineResult (Unit {0}))
  unfolding command taken_out
  remove_channel s idx =
      if leb (length s.engine.chans) idx || contains idx s.engine.holes
      then done (s, EngineResult.failure EngineError.no_such_channel)
      else (do
        let chans = (v.push max_chans s.engine.chans none).0
        let holes = (v.push max_chans s.engine.holes idx).0
        let s' =
            command (record s { engine = record s.engine { holes = holes } })
              (AudioThreadCommand.remove_channel idx)
        taken_out s' (v.swap_remove chans idx))

  module _ (f : FloatOps) (usize_max : ℕ) where
    abbrev pub new_stream : StreamCells
    new_stream = record {
      position = 0;
      active = false;
      alive = false;
      kill_when_empty = false;
      start_time = 0;
      output_patch = usize_max;
      volume = Parameter.raw f.one_f;
    }

    -- The new cells go to the next location, as does the master volume that is not given.
    unfoldable pub new_sender_ext : System J → ℕ → Option ℕ → ℕ → System J × BufferSender
    unfolding command update
    new_sender_ext s sample_rate master_vol uu =
        let cells = s.mem.next in
        let master : ℕ = elim master_vol [ none ↦ cells | some at ↦ at ] in
        let mem : Memory = record s.mem {
          streams = update s.mem.streams cells new_stream;
          masters = elim master_vol [
            | none ↦ update s.mem.masters cells (Parameter.raw f.one_f)
            | some at ↦ s.mem.masters
          ];
          next = cells + 1;
        } in
        (
          command (record s { mem = mem })
              (AudioThreadCommand.add_player (record {
                buf = [];
                capacity = stream_buffer_size;
                sample_rate = sample_rate;
                cells = cells;
                master_vol = master;
                uuid = uu;
                half_sent = false;
                empty_sent = false;
              })),
          record {
            cells = cells;
            master_vol = master;
            buf = cells;
            sample_rate = sample_rate;
            original = true;
            uuid = uu;
          },
        )

    unfoldable pub new_sender : System J → ℕ → ℕ → System J × BufferSender
    unfolding new_sender_ext
    new_sender s sample_rate uu = new_sender_ext s sample_rate none uu

    unfoldable pub new_sender_with_master :
        {T : Type 0} → System J → Sender T → ℕ → System J × BufferSender
    unfolding new_sender_ext
    new_sender_with_master s master uu =
        new_sender_ext s master.sample_rate (some master.master_vol) uu
