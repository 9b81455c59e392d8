-- ===== src/Spooler.antt =====
-- The thread that feeds an audio file to the audio thread (sqa-backend/src/actions/audio.rs,
-- `SpoolerContext`). It shares the buffers and the cells of its streams with the audio thread.
pub mod Frames
pub mod Ends
pub mod Damaged
mod Tests
use sqa.Base.{
  ℕ, zero, suc, Bool, true, false, not, String, str_append, Option, none, some, List, [], ◌∷◌,
  length, get_elem?, Outcome, done, panic, ◌>>=◌, unwrap, ◌==◌, if◌then◌else◌,
}
use sqa.Base.Float.{F32}
use sqa.Base.Words.{sub_u64, mul_u64}
use sqa.Engine.{Spsc, stream_buffer_size}
use sqa.Engine.Sender.{Memory, update, set_kill_when_empty}
use sqa.Engine.Context.{BufferSender}
use sqa.Media.{Sample, ErrorKind, MediaResult}
use sqa.Media.Frame.{Frame, drained, take_from}
use sqa.Media.File.{Ffmpeg, Item, next}

pub data SpoolerMessage : Type 0 where
  wakeup : SpoolerMessage
  quit : SpoolerMessage

-- What the thread shares: the buffers, by their locations, and the cells.
pub record Shared : Type 0 where
  pub bufs : ℕ → List F32
  pub mem : Memory

-- The frame is the one that did not fit in whole.
pub record SpoolerContext (X : Type 0) : Type 0 where
  pub bsends : List BufferSender
  pub file : X
  pub uuid : ℕ
  pub current_frame : Option Frame

-- Where the thread stands: it waits for a message to go on, or, with everything sent, for its end;
-- or it has returned, after an error with the message for the action.
pub data Stand (X : Type 0) : Type 0 where
  waits : SpoolerContext X → Stand X
  sent : SpoolerContext X → Stand X
  killed : Stand X
  errored : String → Stand X

-- The crates: queues, and the conversion and the print that the thread uses.
pub record Spooling : Type 1 where
  pub q : Spsc
  pub f32 : Sample → F32
  pub show : ErrorKind → String

module _ (k : Spooling) where
  -- A sample that finds no room is forgotten.
  unfoldable pub push_sample :
      List BufferSender → (ℕ → List F32) → ℕ × Sample → Outcome (ℕ → List F32)
  unfolding update
  push_sample bsends bufs (ch, sample) = do
    b ← unwrap (get_elem? bsends ch)
    done (update bufs b.buf (k.q.try_push stream_buffer_size (bufs b.buf) (k.f32 sample)).0)

  unfoldable pub push_samples :
      List BufferSender → (ℕ → List F32) → List (ℕ × Sample) → Outcome (ℕ → List F32)
  unfolding push_sample
  push_samples bsends bufs [] = done bufs
  push_samples bsends bufs (x ∷ xs) =
      push_sample bsends bufs x >>= λ bufs'. push_samples bsends bufs' xs

  -- The room in the first buffer counts for all. The last part tells whether some of the frame is
  -- left.
  unfoldable pub send_frame :
      List BufferSender → (ℕ → List F32) → Frame → Outcome ((ℕ → List F32) × Frame × Bool)
  unfolding push_samples sub_u64 mul_u64
  send_frame bsends bufs frame = do
    first ← unwrap (get_elem? bsends 0)
    space ← sub_u64 stream_buffer_size (length (bufs first.buf))
    n ← mul_u64 space (length bsends)
    let (rest, items) = take_from n frame
    bufs' ← push_samples bsends bufs items
    done (bufs', rest, not (drained rest))

  unfoldable pub kill_all : List BufferSender → Memory → Memory
  unfolding set_kill_when_empty
  kill_all [] m = m
  kill_all (b ∷ bsends) m = kill_all bsends (set_kill_when_empty b m true)

  module _ {X : Type 0} (av : Ffmpeg X) where
    -- What a stretch without waiting returns; `none` where its fuel ran out.
    abbrev pub Stretch : Type 0
    Stretch = Outcome (Option (Shared × Stand X))

    -- A frame that did not fit is kept, and the thread waits.
    unfoldable pub after_frame :
        (Shared → SpoolerContext X → Stretch)
        → SpoolerContext X
        → Memory
        → (ℕ → List F32) × Frame × Bool
        → Stretch
    after_frame again s mem (bufs, frame, true) = done (
        some (
          record { bufs = bufs; mem = mem },
          Stand.waits (record s { current_frame = some frame }),
        ))
    after_frame again s mem (bufs, frame, false) =
        again (record { bufs = bufs; mem = mem }) (record s { current_frame = none })

    unfoldable pub after_next :
        (Shared → SpoolerContext X → Stretch)
        → Shared
        → SpoolerContext X
        → Option (Item av)
        → Stretch
    unfolding send_frame after_frame kill_all
    after_next again sh s none = done none
    after_next again sh s (some none) =
        done (some (record sh { mem = kill_all s.bsends sh.mem }, Stand.sent s))
    after_next again sh s (some (some (MediaResult.fine frame))) =
        send_frame s.bsends sh.bufs frame >>= after_frame again s sh.mem
    after_next again sh s (some (some (MediaResult.failed ErrorKind.invalid_data))) = again sh s
    after_next again sh s (some (some (MediaResult.failed e))) =
        done (some (sh, Stand.errored (str_append "Error in spooler: " (k.show e))))

    -- The walk over the file's frames, on fuel.
    unfoldable pub send_file : ℕ → Shared → SpoolerContext X → Stretch
    unfolding after_next next
    send_file zero sh s = done none
    send_file (suc fuel) sh s =
        let (file, item) = next av (suc fuel) s.file in
        after_next (λ sh' s'. send_file fuel sh' s') sh (record s { file = file }) item

    unfoldable pub send_current : ℕ → Shared → SpoolerContext X → Option Frame → Stretch
    unfolding send_file send_frame after_frame
    send_current fuel sh s none = send_file fuel sh s
    send_current fuel sh s (some frame) =
        send_frame s.bsends sh.bufs frame >>= after_frame (λ sh' s'. send_file fuel sh' s') s sh.mem

    -- From the loop's head to the next wait: nothing is done while the first buffer is full.
    unfoldable pub work : ℕ → Shared → SpoolerContext X → Stretch
    unfolding send_current
    work fuel sh s = do
      first ← unwrap (get_elem? s.bsends 0)
      (if length (sh.bufs first.buf) == stream_buffer_size
          then done (some (sh, Stand.waits s))
          else send_current fuel sh s s.current_frame)

    -- A message, or `none` where the other side of the channel is gone.
    unfoldable pub receive : ℕ → Option SpoolerMessage → Shared → Stand X → Stretch
    unfolding work
    receive fuel none sh (Stand.waits s) = panic
    receive fuel (some SpoolerMessage.wakeup) sh (Stand.waits s) = work fuel sh s
    receive fuel (some SpoolerMessage.quit) sh (Stand.waits s) = done (some (sh, Stand.killed))
    receive fuel (some SpoolerMessage.wakeup) sh (Stand.sent s) = done (some (sh, Stand.sent s))
    receive fuel (some SpoolerMessage.quit) sh (Stand.sent s) = done (some (sh, Stand.killed))
    receive fuel none sh (Stand.sent s) = done (some (sh, Stand.killed))
    receive fuel msg sh Stand.killed = done (some (sh, Stand.killed))
    receive fuel msg sh (Stand.errored e) = done (some (sh, Stand.errored e))

    -- The thread over a list of messages; before each the audio thread works on what is shared.
    unfoldable pub spool_on :
        ℕ → List ((Shared → Shared) × Option SpoolerMessage) → Option (Shared × Stand X) → Stretch
    unfolding receive
    spool_on fuel [] st = done st
    spool_on fuel (ev ∷ evs) none = done none
    spool_on fuel ((meanwhile, msg) ∷ evs) (some (sh, st)) =
        receive fuel msg (meanwhile sh) st >>= spool_on fuel evs

    unfoldable pub spool :
        ℕ → List ((Shared → Shared) × Option SpoolerMessage) → Shared → SpoolerContext X → Stretch
    unfolding work spool_on
    spool fuel events sh s = work fuel sh s >>= spool_on fuel events
