-- ===== src/Spooler/Tests.antt =====
-- The theorems on the spooler at a small file.
use sqa.Base.{
  ℕ, zero, suc, ◌*◌, ◌≡◌, ◌≢◌, refl, true, false, none, some, List, [], ◌∷◌, length, done, arith,
  Option, not, get_elem?, ◌-◌, ◌≤◌,
}
use sqa.Base.Float.{F32}
use sqa.Engine.{stream_buffer_size}
use sqa.Engine.Context.{BufferSender}
use sqa.Engine.Concrete.{queues, queues-laws, quiet}
use sqa.Media.{Sample, SampleFormat, ErrorKind, MediaResult}
use sqa.Media.File.{Ffmpeg}
use sqa.Media.Frame.{Frame, fresh_frame, drained, take_from}
use sqa.Media.Concrete.{Listed, listed, listed-laws, listed-IsIntact, planar_frame}
use sqa.Spooler.{Spooling, Shared, SpoolerContext, SpoolerMessage, send_frame, spool}
use sqa.Spooler.Frames.{Apart, Delivered, send_frame-Delivered}
use sqa.Spooler.Ends.{spool-ends}
use sqa.Spooler.Damaged.{IsStuck, spool-IsStuck}

abbrev bits_of : Sample → F32
bits_of (Sample.float b) = b
bits_of s = 0

abbrev crates : Spooling
crates = record { q = queues; f32 = bits_of; show = λ e. "error" }

abbrev stream : ℕ → BufferSender
stream n = record {
  cells = n;
  master_vol = 0;
  buf = n;
  sample_rate = 48000;
  original = true;
  uuid = n;
}

abbrev two : List BufferSender
two = stream 0 ∷ stream 1 ∷ []

two-Apart : Apart two
two-Apart zero zero a b e e' h = refl
two-Apart zero (suc zero) a b e e' h = ground arith
two-Apart (suc zero) zero a b e e' h = ground arith
two-Apart (suc zero) (suc zero) a b e e' h = refl
two-Apart zero (suc (suc j)) a b e e' h = cc
two-Apart (suc zero) (suc (suc j)) a b e e' h = cc
two-Apart (suc (suc i)) j a b e e' h = cc

-- The first buffer has a sample, the second none.
abbrev before : ℕ → List F32
before zero = 7 ∷ []
before n = []

abbrev frame : Frame
frame = fresh_frame planar_frame (SampleFormat.float true)

no_fuller :
    (c : ℕ) (b : BufferSender)
    → get_elem? two c ≡ some b
    → length (before b.buf) ≤ length (before 0)
no_fuller zero b e = ground arith
no_fuller (suc zero) b e = ground arith
no_fuller (suc (suc c)) b e = cc

send_frame-Delivered_example :
    let n = (stream_buffer_size - length (before 0)) * length two in
    let (rest, items) = take_from n frame in
    (bufs' : ℕ → List F32) × (send_frame crates two before frame
      ≡ done (bufs', rest, not (drained rest)))
    × Delivered crates two before items bufs'
    × (drained rest ≡ false → length items ≡ n)
send_frame-Delivered_example =
    send_frame-Delivered crates queues-laws two two-Apart before (stream 0) frame refl refl
      (omega arith) (omega arith) (omega arith) no_fuller

-- A file of two frames.
abbrev thread : SpoolerContext Listed
thread = record {
  bsends = two;
  file = (planar_frame ∷ planar_frame ∷ [], false);
  uuid = 1;
  current_frame = none;
}

abbrev shared : Shared
shared = record { bufs = before; mem = quiet }

-- It is woken once, and then told to quit.
abbrev messages : List ((Shared → Shared) × Option SpoolerMessage)
messages = (λ s. s, some SpoolerMessage.wakeup) ∷ (λ s. s, some SpoolerMessage.quit) ∷ []

spool-ends_example : spool crates listed 5 messages shared thread ≢ done none
spool-ends_example =
    spool-ends crates listed listed-laws listed-IsIntact 5 messages shared thread (omega arith)

-- A file with a packet that cannot be read.
abbrev damaged : Ffmpeg Listed
damaged = record listed { av_read_frame = λ x. (x, MediaResult.failed ErrorKind.invalid_data) }

thread-IsStuck : IsStuck damaged thread.file
thread-IsStuck = record { memory = refl; wants = refl; broken = refl }

spool-IsStuck_example : spool crates damaged 9 messages shared thread ≡ done none
spool-IsStuck_example =
    spool-IsStuck crates damaged 9 messages shared thread (stream 0) thread-IsStuck refl
      (ground arith) refl
