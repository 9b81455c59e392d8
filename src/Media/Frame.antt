-- ===== src/Media/Frame.antt =====
-- A frame and its iterator (sqa-ffmpeg/src/frame.rs).
use sqa.Base.{ℕ, zero, suc, ◌+◌, ◌*◌, Bool, Option, none, some, List, [], ◌∷◌, leb, if◌then◌else◌}
use sqa.Media.{SampleFormat, Sample, ErrorKind, MediaResult, is_planar, from_ffi, sample_of}

-- What FFmpeg hands over: `plane c i` is the bit pattern at the index `i` of plane `c`.
pub record AvFrame : Type 0 where
  pub plane : ℕ → ℕ → ℕ
  pub format : ℕ
  pub nb_samples : ℕ
  pub channels : ℕ

pub record Frame : Type 0 where
  pub plane : ℕ → ℕ → ℕ
  pub cur_chan : ℕ
  pub cur_idx : ℕ
  pub cap : ℕ
  pub chans : ℕ
  pub format : SampleFormat

-- A frame at its start. Samples that are not planar are counted over all channels; the code computes
-- their number in an `i32`, which the frames that FFmpeg allocates fit. The time stamp is left out.
abbrev pub fresh_frame : AvFrame → SampleFormat → Frame
fresh_frame a format = record {
  plane = a.plane;
  cur_chan = 0;
  cur_idx = 0;
  cap = if is_planar format then a.nb_samples else a.nb_samples * a.channels;
  chans = a.channels;
  format = format;
}

abbrev pub with_format : AvFrame → Option SampleFormat → MediaResult Frame
with_format a none = MediaResult.failed ErrorKind.unsupported_format
with_format a (some format) = MediaResult.fine (fresh_frame a format)

unfoldable pub from_ptr : (SampleFormat → ℕ) → AvFrame → MediaResult Frame
unfolding from_ffi
from_ptr code a = with_format a (from_ffi code a.format)

unfoldable pub drained : Frame → Bool
drained f = leb f.cap f.cur_idx

-- The sample at the position of the frame.
unfoldable pub current : Frame → Sample
unfolding is_planar sample_of
current f = sample_of f.format (f.plane (if is_planar f.format then f.cur_chan else 0) f.cur_idx)

-- The next position.
unfoldable pub advance : Frame → Frame
unfolding is_planar
advance f =
    let last = leb f.chans (f.cur_chan + 1) in
    if is_planar f.format
    then (if last
        then record f { cur_chan = 0; cur_idx = f.cur_idx + 1 }
        else record f { cur_chan = f.cur_chan + 1 })
    else record f { cur_idx = f.cur_idx + 1; cur_chan = if last then 0 else f.cur_chan + 1 }

unfoldable pub next : Frame → Frame × Option (ℕ × Sample)
unfolding drained current advance
next f = if drained f then (f, none) else (advance f, some (f.cur_chan, current f))

-- `take(n)`: at most `n` items, and what is left of the frame.
unfoldable pub take_from : ℕ → Frame → Frame × List (ℕ × Sample)
unfolding next
take_from zero f = (f, [])
take_from (suc n) f =
    let (rest, items) = take_from n (advance f) in
    if drained f then (f, []) else (rest, (f.cur_chan, current f) ∷ items)
