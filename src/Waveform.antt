-- ===== src/Waveform.antt =====
-- Requests for waveforms and the replies (sqa-backend/src/waveform.rs).
use sqa.Base.{ℕ, String, List, Option}
use sqa.Base.Float.{F32}
use sqa.Duration.{Duration}

pub record WaveformRequest : Type 0 where
  pub file : String
  pub samples_per_pixel : ℕ
  pub range_start : Option Duration
  pub range_end : Option Duration

pub record SampleOverview : Type 0 where
  pub rms : F32
  pub max : F32
  pub min : F32

pub record WaveformReply : Type 0 where
  pub overviews : List SampleOverview
  pub gmax : F32
  pub gmin : F32
