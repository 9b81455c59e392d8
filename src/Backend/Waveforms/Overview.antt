-- ===== src/Backend/Waveforms/Overview.antt =====
-- What a waveform's thread computes of a file (sqa-backend/src/waveform.rs, the closure `run` of
-- `execute_request`).
use sqa.Base.{
  ℕ, zero, suc, ◌+◌, ◌*◌, ◌%◌, ◌^◌, String, str_append, Option, none, some, List, [], ◌∷◌, ◌++◌,
  length, Outcome, done, panic, ◌>>=◌, Result, ok, err, leb, ◌==◌, if◌then◌else◌,
}
use sqa.Base.Float.{F32, FloatOps}
use sqa.Duration.{Duration}
use sqa.Waveform.{WaveformRequest, SampleOverview, WaveformReply}
use sqa.Media.{Sample, ErrorKind, MediaResult}
use sqa.Media.Frame.{Frame, take_from}
use sqa.Media.File.{Ffmpeg, Item, next}

-- The crates: arithmetic, and FFmpeg's calls on a file of type `X`.
pub record Reading (X : Type 0) : Type 0 where
  pub f : FloatOps
  pub sqrt : F32 → F32
  pub f32 : Sample → F32
  pub av : Ffmpeg X
  pub channels : X → ℕ
  pub seek : X → Duration → X × MediaResult (Unit {0})
  pub show : ErrorKind → String
  pub debug : ErrorKind → String

-- The variables of the walk: the samples of the present overview, its extremes and those of all.
pub record Overviews : Type 0 where
  pub ret : List SampleOverview
  pub rms_range : List F32
  pub min : F32
  pub gmin : F32
  pub max : F32
  pub gmax : F32

module _ {X : Type 0} (k : Reading X) where
  unfoldable pub sum_squares : List F32 → F32 → F32
  sum_squares [] sqr_sum = sqr_sum
  sum_squares (x ∷ xs) sqr_sum = sum_squares xs (k.f.add sqr_sum (k.f.mul x x))

  unfoldable pub calculate_rms : List F32 → F32
  unfolding sum_squares
  calculate_rms samples =
      k.sqrt (k.f.div (sum_squares samples k.f.zero_f) (k.f.of_u64 (length samples)))

  abbrev pub start : Overviews
  start = record {
    ret = [];
    rms_range = [];
    min = k.f.zero_f;
    gmin = k.f.zero_f;
    max = k.f.zero_f;
    gmax = k.f.zero_f;
  }

  -- An overview ends where it has enough samples and a further one comes.
  unfoldable pub finish_overview : Overviews → Overviews
  unfolding calculate_rms
  finish_overview p = record {
    ret = p.ret ++ record { rms = calculate_rms p.rms_range; max = p.max; min = p.min } ∷ [];
    rms_range = [];
    min = k.f.zero_f;
    gmin = if k.f.gt p.gmin p.min then p.min else p.gmin;
    max = k.f.zero_f;
    gmax = if k.f.gt p.max p.gmax then p.max else p.gmax;
  }

  -- The first channel begins a new entry; its count is compared as a `u32`.
  unfoldable pub first_channel : ℕ → F32 → Overviews → Overviews
  unfolding finish_overview
  first_channel samples_per_pixel part p =
      let p' =
        if leb samples_per_pixel (length p.rms_range % 2 ^ 32) then finish_overview p else p in
      record p' { rms_range = p'.rms_range ++ part ∷ [] }

  -- The other channels are added to the last entry.
  unfoldable pub add_to_last : F32 → List F32 → Outcome (List F32)
  add_to_last part [] = panic
  add_to_last part (x ∷ []) = done (k.f.add x part ∷ [])
  add_to_last part (x ∷ y ∷ xs) = add_to_last part (y ∷ xs) >>= λ zs. done (x ∷ zs)

  unfoldable pub extremes : F32 → Overviews → Overviews
  extremes sample p =
      let p' = if k.f.gt sample p.max then record p { max = sample } else p in
      if k.f.gt p'.min sample then record p' { min = sample } else p'

  unfoldable pub add_sample : ℕ → ℕ → ℕ × Sample → Overviews → Outcome Overviews
  unfolding first_channel add_to_last extremes
  add_sample samples_per_pixel chans (ch, s) p =
      let sample = k.f32 s in
      let part = k.f.div sample (k.f.of_u64 chans) in
      if ch == 0
      then done (extremes sample (first_channel samples_per_pixel part p))
      else (add_to_last part p.rms_range >>= λ range.
          done (extremes sample (record p { rms_range = range })))

  unfoldable pub add_samples : ℕ → ℕ → List (ℕ × Sample) → Overviews → Outcome Overviews
  unfolding add_sample
  add_samples samples_per_pixel chans [] p = done p
  add_samples samples_per_pixel chans (x ∷ xs) p =
      add_sample samples_per_pixel chans x p >>= λ p'. add_samples samples_per_pixel chans xs p'

  -- All samples of a frame.
  unfoldable pub frame_samples : Frame → List (ℕ × Sample)
  unfolding take_from
  frame_samples frame = (take_from (frame.cap * frame.chans + frame.cap) frame).1

  -- The outcome of the walk over the frames, which is on fuel.
  abbrev pub Walk : Type 0
  Walk = Outcome (Option (Result Overviews))

  unfoldable pub after_item :
      (X → Overviews → Walk) → ℕ → ℕ → X → Overviews → Option (Item k.av) → Walk
  unfolding add_samples frame_samples
  after_item again samples_per_pixel chans x p none = done none
  after_item again samples_per_pixel chans x p (some none) = done (some (ok p))
  after_item again samples_per_pixel chans x p (some (some (MediaResult.fine frame))) =
      add_samples samples_per_pixel chans (frame_samples frame) p >>= again x
  after_item again spp chans x p (some (some (MediaResult.failed ErrorKind.invalid_data))) =
      again x p
  after_item again samples_per_pixel chans x p (some (some (MediaResult.failed e))) =
      done (some (err (str_append "File read error: " (k.debug e))))

  unfoldable pub read_frames : ℕ → ℕ → ℕ → X → Overviews → Walk
  unfolding after_item next
  read_frames zero samples_per_pixel chans x p = done none
  read_frames (suc fuel) samples_per_pixel chans x p =
      let (x', item) = next k.av (suc fuel) x in
      after_item (λ y q. read_frames fuel samples_per_pixel chans y q) samples_per_pixel chans x' p
        item

  abbrev pub seek_start : Option Duration → X → X × MediaResult (Unit {0})
  seek_start none x = (x, MediaResult.fine tt)
  seek_start (some start) x = k.seek x start

  abbrev pub reply : Option (Result Overviews) → Option (Result WaveformReply)
  reply none = none
  reply (some (err e)) = some (err e)
  reply (some (ok p)) = some (ok (record { overviews = p.ret; gmax = p.gmax; gmin = p.gmin }))

  abbrev pub read_from :
      ℕ → WaveformRequest → ℕ → X × MediaResult (Unit {0}) → Outcome (Option (Result WaveformReply))
  read_from fuel req chans (x, MediaResult.failed e) = done (some (err (k.show e)))
  read_from fuel req chans (x, MediaResult.fine u) =
      read_frames fuel req.samples_per_pixel chans x start >>= λ r. done (reply r)

  -- The end of the range is not looked at.
  unfoldable pub run : ℕ → WaveformRequest → X → Outcome (Option (Result WaveformReply))
  unfolding read_frames
  run fuel req x = read_from fuel req (k.channels x) (seek_start req.range_start x)
