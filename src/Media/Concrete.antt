-- ===== src/Media/Concrete.antt =====
-- A concrete FFmpeg, which shows that what the theorems assume of it can hold: a file is the list of
-- its frames, and the flag tells that the first of them was sent to the decoder.
use sqa.Base.{
  ℕ, ◌+◌, ◌-◌, ◌*◌, ◌/◌, ◌%◌, ◌<◌, ◌≤◌, ◌≡◌, ◌≢◌, Bool, true, false, List, [], ◌∷◌, length, arith,
  if◌then◌else◌,
}
use sqa.Media.{SampleFormat, ErrorKind, MediaResult}
use sqa.Media.Frame.{AvFrame}
use sqa.Media.File.{Ffmpeg, FfmpegLaws, IsIntact}

abbrev pub Listed : Type 0
Listed = List AvFrame × Bool

abbrev pub codes : SampleFormat → ℕ
codes (SampleFormat.u8 planar) = if planar then 5 else 0
codes (SampleFormat.s16 planar) = if planar then 6 else 1
codes (SampleFormat.s32 planar) = if planar then 7 else 2
codes (SampleFormat.float planar) = if planar then 8 else 3
codes (SampleFormat.double planar) = if planar then 9 else 4

abbrev receive : Listed → Listed × MediaResult AvFrame
receive (f ∷ fs, true) = ((fs, false), MediaResult.fine f)
receive (fs, ready) = ((fs, ready), MediaResult.failed ErrorKind.temporarily_unavailable)

abbrev read : Listed → Listed × MediaResult ℕ
read (f ∷ fs, false) = ((f ∷ fs, true), MediaResult.fine 0)
read (fs, ready) = ((fs, ready), MediaResult.failed ErrorKind.eof)

abbrev pub listed : Ffmpeg Listed
listed = record {
  code = codes;
  av_frame_alloc = λ x. true;
  avcodec_receive_frame = receive;
  av_read_frame = read;
  avcodec_send_packet = λ x p. (x, MediaResult.fine tt);
}

abbrev pub remaining : Listed → ℕ
remaining (fs, true) = 2 * length fs - 1
remaining (fs, false) = 2 * length fs

pub receive_le : (x : Listed) → remaining (receive x).0 ≤ remaining x
receive_le (f ∷ fs, true) = omega arith
receive_le (f ∷ fs, false) = omega arith
receive_le ([], true) = omega arith
receive_le ([], false) = omega arith

pub receive_lt :
    (x : Listed) (a : AvFrame)
    → (receive x).1 ≡ MediaResult.fine a
    → remaining (receive x).0 < remaining x
receive_lt (f ∷ fs, true) a e = omega arith
receive_lt (f ∷ fs, false) a e = cc
receive_lt ([], true) a e = cc
receive_lt ([], false) a e = cc

pub receives : (x : Listed) → (receive x).1 ≢ MediaResult.failed ErrorKind.invalid_data
receives (f ∷ fs, true) e = cc
receives (f ∷ fs, false) e = absurd (ground arith)
receives ([], true) e = absurd (ground arith)
receives ([], false) e = absurd (ground arith)

pub read_le : (x : Listed) → remaining (read x).0 ≤ remaining x
read_le (f ∷ fs, true) = omega arith
read_le (f ∷ fs, false) = omega arith
read_le ([], true) = omega arith
read_le ([], false) = omega arith

pub read_lt :
    (x : Listed) (p : ℕ) → (read x).1 ≡ MediaResult.fine p → remaining (read x).0 < remaining x
read_lt (f ∷ fs, true) a e = cc
read_lt (f ∷ fs, false) a e = omega arith
read_lt ([], true) a e = cc
read_lt ([], false) a e = cc

pub reads : (x : Listed) → (read x).1 ≢ MediaResult.failed ErrorKind.invalid_data
reads (f ∷ fs, true) e = absurd (ground arith)
reads (f ∷ fs, false) e = cc
reads ([], true) e = absurd (ground arith)
reads ([], false) e = absurd (ground arith)

abbrev pub listed-laws : FfmpegLaws listed
listed-laws = record {
  todo = remaining;
  receive_le = receive_le;
  receive_lt = receive_lt;
  read_le = read_le;
  read_lt = read_lt;
  send_le = λ x p. omega arith;
}

abbrev pub listed-IsIntact : IsIntact listed
listed-IsIntact = record { receives = receives; reads = reads }

-- Two channels of two samples, planar and interleaved.
abbrev pub planar_frame : AvFrame
planar_frame = record { plane = λ c i. 10 * i + c; format = 8; nb_samples = 2; channels = 2 }

abbrev pub packed_frame : AvFrame
packed_frame = record {
  plane = λ c i. 10 * (i / 2) + i % 2;
  format = 3;
  nb_samples = 2;
  channels = 2;
}
