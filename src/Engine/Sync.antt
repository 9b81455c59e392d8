-- ===== src/Engine/Sync.antt =====
-- The messages of the audio thread and the two ends of their queue (sqa-engine/src/sync.rs).
use sqa.Base.{ℕ, Bool, Option, none, some, List, [], ◌∷◌, ◌==◌}
use sqa.Engine.{Spsc, control_buffer_size}

-- `P` is the type of players, which some messages hand back.
pub data AudioThreadMessage (P : Type 0) : Type 0 where
  player_added : ℕ → AudioThreadMessage P
  player_rejected : P → AudioThreadMessage P
  player_removed : P → AudioThreadMessage P
  player_invalid_outpatch : ℕ → AudioThreadMessage P
  player_buf_half : ℕ → AudioThreadMessage P
  player_buf_empty : ℕ → AudioThreadMessage P
  xrun : AudioThreadMessage P

-- The sending end: the queue, when it was last written to, and the time of the current callback.
pub record AudioThreadSender (P : Type 0) : Type 0 where
  pub tx : List (AudioThreadMessage P)
  pub written_t : ℕ
  pub cur_t : ℕ

module _ {P : Type 0} (q : Spsc) where
  abbrev pub make : AudioThreadSender P
  make = record { tx = []; written_t = 0; cur_t = 1 }

  unfoldable pub init : AudioThreadSender P → ℕ → AudioThreadSender P
  init s t = record s { cur_t = t }

  -- A message that finds no room is forgotten, with the player that it may hand back.
  unfoldable pub send : AudioThreadSender P → AudioThreadMessage P → AudioThreadSender P
  send s data_ = record s {
    written_t = s.cur_t;
    tx = (q.try_push control_buffer_size s.tx data_).0;
  }

  -- Whether the receiving thread is woken.
  unfoldable pub notify : AudioThreadSender P → Bool
  notify s = s.written_t == s.cur_t

  -- On the receiving end, over the queue.
  unfoldable pub try_recv :
      List (AudioThreadMessage P) → List (AudioThreadMessage P) × Option (AudioThreadMessage P)
  try_recv rx = q.try_pop rx

  -- A later attempt counts where this one found nothing.
  unfoldable pub or_else :
      List (AudioThreadMessage P) × Option (AudioThreadMessage P)
      → (List (AudioThreadMessage P) → List (AudioThreadMessage P) × Option (AudioThreadMessage P))
      → List (AudioThreadMessage P) × Option (AudioThreadMessage P)
  or_else (rest, some x) later = (rest, some x)
  or_else (rest, none) later = later rest

  -- `wait_until` and `wait_for`: a second attempt after the wait, in which `arrived` came.
  unfoldable pub wait_until :
      (List (AudioThreadMessage P) → List (AudioThreadMessage P))
      → List (AudioThreadMessage P)
      → List (AudioThreadMessage P) × Option (AudioThreadMessage P)
  unfolding or_else
  wait_until arrived rx = or_else (q.try_pop rx) (λ rest. q.try_pop (arrived rest))

  -- `recv`: one attempt, then one after each wake-up, of which the list gives what arrived before;
  -- the call still blocks where the list ends.
  unfoldable pub recv :
      List (List (AudioThreadMessage P) → List (AudioThreadMessage P))
      → List (AudioThreadMessage P)
      → List (AudioThreadMessage P) × Option (AudioThreadMessage P)
  unfolding or_else
  recv [] rx = q.try_pop rx
  recv (arrived ∷ later) rx = or_else (q.try_pop rx) (λ rest. recv later (arrived rest))
