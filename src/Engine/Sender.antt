-- ===== src/Engine/Sender.antt =====
-- Senders (sqa-engine/src/lib.rs): what the main thread does with the cells that it shares with the
-- audio thread. The type `T` is that of the buffer's end that a sender holds.
use sqa.Base.{ℕ, Bool, true, false, ◌==◌, if◌then◌else◌}
use sqa.Engine.Param.{Parameter, FadeCells}

-- The cells of one stream; that of the master volume, which streams share, is apart.
pub record StreamCells : Type 0 where
  pub position : ℕ
  pub active : Bool
  pub alive : Bool
  pub kill_when_empty : Bool
  pub start_time : ℕ
  pub output_patch : ℕ
  pub volume : Parameter

-- The memory: streams, master volumes and fades by their locations, and the next free location.
pub record Memory : Type 0 where
  pub streams : ℕ → StreamCells
  pub masters : ℕ → Parameter
  pub fades : ℕ → FadeCells
  pub next : ℕ

unfoldable pub update : {A : Type 0} → (ℕ → A) → ℕ → A → ℕ → A
update f i a j = if i == j then a else f j

unfoldable pub store : Memory → ℕ → StreamCells → Memory
unfolding update
store m i c = record m { streams = update m.streams i c }

pub record Sender (T : Type 0) : Type 0 where
  pub cells : ℕ
  pub master_vol : ℕ
  pub buf : T
  pub sample_rate : ℕ
  pub original : Bool
  pub uuid : ℕ

module _ {T : Type 0} where
  unfoldable pub set_kill_when_empty : Sender T → Memory → Bool → Memory
  unfolding store
  set_kill_when_empty s m val =
      store m s.cells (record (m.streams s.cells) { kill_when_empty = val })

  unfoldable pub kill_when_empty : Sender T → Memory → Bool
  kill_when_empty s m = (m.streams s.cells).kill_when_empty

  unfoldable pub set_active : Sender T → Memory → Bool → Memory
  unfolding store
  set_active s m active = store m s.cells (record (m.streams s.cells) { active = active })

  unfoldable pub set_start_time : Sender T → Memory → ℕ → Memory
  unfolding store
  set_start_time s m st = store m s.cells (record (m.streams s.cells) { start_time = st })

  unfoldable pub play_from_time : Sender T → Memory → ℕ → Memory
  unfolding set_start_time set_active
  play_from_time s m time = set_active s (set_start_time s m time) true

  -- `now` is the clock's value.
  unfoldable pub unpause : Sender T → Memory → ℕ → Memory
  unfolding set_start_time set_active
  unpause s m now = set_active s (set_start_time s m now) true

  unfoldable pub set_master_volume : Sender T → Memory → Parameter → Memory
  unfolding update
  set_master_volume s m vol = record m { masters = update m.masters s.master_vol vol }

  unfoldable pub master_volume : Sender T → Memory → Parameter
  master_volume s m = m.masters s.master_vol

  unfoldable pub set_volume : Sender T → Memory → Parameter → Memory
  unfolding store
  set_volume s m vol = store m s.cells (record (m.streams s.cells) { volume = vol })

  unfoldable pub volume : Sender T → Memory → Parameter
  volume s m = (m.streams s.cells).volume

  unfoldable pub active : Sender T → Memory → Bool
  active s m = (m.streams s.cells).active

  unfoldable pub alive : Sender T → Memory → Bool
  alive s m = (m.streams s.cells).alive

  unfoldable pub reset_position : Sender T → Memory → ℕ → Memory
  unfolding set_start_time store
  reset_position s m now =
      let m' = set_start_time s m now in
      store m' s.cells (record (m'.streams s.cells) { position = 0 })

  unfoldable pub position_samples : Sender T → Memory → ℕ
  position_samples s m = (m.streams s.cells).position

  unfoldable pub output_patch : Sender T → Memory → ℕ
  output_patch s m = (m.streams s.cells).output_patch

  unfoldable pub set_output_patch : Sender T → Memory → ℕ → Memory
  unfolding store
  set_output_patch s m patch = store m s.cells (record (m.streams s.cells) { output_patch = patch })

  unfoldable pub make_plain : Sender T → Sender (Unit {0})
  make_plain s = record {
    cells = s.cells;
    master_vol = s.master_vol;
    buf = tt;
    sample_rate = s.sample_rate;
    original = false;
    uuid = s.uuid;
  }

  -- `drop`: only the original ends the stream.
  unfoldable pub drop : Sender T → Memory → Memory
  unfolding store
  drop s m =
      if s.original
      then store m s.cells (record (m.streams s.cells) { active = false; alive = false })
      else m
