-- ===== src/Engine/Thread/Players.antt =====
-- A player: the audio thread's end of a stream (sqa-engine/src/thread.rs).
use sqa.Base.{ℕ, Bool, false, List}
use sqa.Base.Float.{F32}
use sqa.Engine.Sender.{Memory, store}

-- The buffer is the queue's other end, with its capacity.
pub record Player : Type 0 where
  pub buf : List F32
  pub capacity : ℕ
  pub sample_rate : ℕ
  pub cells : ℕ
  pub master_vol : ℕ
  pub uuid : ℕ
  pub half_sent : Bool
  pub empty_sent : Bool

-- `drop`.
unfoldable pub drop : Player → Memory → Memory
unfolding store
drop p m = store m p.cells (record (m.streams p.cells) { active = false; alive = false })
