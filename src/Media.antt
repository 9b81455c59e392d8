-- ===== src/Media.antt =====
-- The binding to FFmpeg (sqa-ffmpeg/src/lib.rs, frame.rs and errors.rs): the formats of samples, the
-- walk over the samples of a frame, and the walk over the frames of a file. FFmpeg itself is a
-- parameter.
pub mod Frame
pub mod File
pub mod Turns
pub mod Layout
pub mod Progress
pub mod Concrete
mod Tests
use sqa.Base.{
  ℕ, ◌*◌, ◌≡◌, ◌≢◌, refl, Bool, true, false, String, Option, none, some, ◌==◌, if◌then◌else◌, arith,
}

-- Whether a format is planar is part of it.
pub data SampleFormat : Type 0 where
  u8 s16 s32 float double : Bool → SampleFormat

-- A sample is known by its bit pattern.
pub data Sample : Type 0 where
  u8 s16 s32 float double : ℕ → Sample

pub data ErrorKind : Type 0 where
  unknown_error_code : String → ℕ → ErrorKind
  nul_error stream_not_found decoder_not_found allocation_failed : ErrorKind
  temporarily_unavailable programmer_error eof dev_busy io_error : ErrorKind
  permission_denied is_a_dir unsupported_format once_only too_many_seconds : ErrorKind
  bsf_not_found ffmpeg_bug buffer_too_small demuxer_not_found : ErrorKind
  encoder_not_found exit_requested external_error filter_not_found : ErrorKind
  invalid_data muxer_not_found option_not_found patch_welcome : ErrorKind
  protocol_not_found ffmpeg_unknown feature_experimental file_not_found : ErrorKind
  http_bad_request http_unauthorized http_not_found http_forbidden : ErrorKind
  http_other_4xx http_server_error : ErrorKind

pub data MediaResult {ℓ} (A : Type ℓ) : Type ℓ where
  fine : A → MediaResult A
  failed : ErrorKind → MediaResult A

unfoldable pub is_planar : SampleFormat → Bool
is_planar (SampleFormat.u8 planar) = planar
is_planar (SampleFormat.s16 planar) = planar
is_planar (SampleFormat.s32 planar) = planar
is_planar (SampleFormat.float planar) = planar
is_planar (SampleFormat.double planar) = planar

-- `code` gives FFmpeg's number of each format.
unfoldable pub from_ffi : (SampleFormat → ℕ) → ℕ → Option SampleFormat
from_ffi code fmt =
    if fmt == code (SampleFormat.u8 false)
    then some (SampleFormat.u8 false)
    else if fmt == code (SampleFormat.s16 false)
    then some (SampleFormat.s16 false)
    else if fmt == code (SampleFormat.s32 false)
    then some (SampleFormat.s32 false)
    else if fmt == code (SampleFormat.float false)
    then some (SampleFormat.float false)
    else if fmt == code (SampleFormat.double false)
    then some (SampleFormat.double false)
    else if fmt == code (SampleFormat.u8 true)
    then some (SampleFormat.u8 true)
    else if fmt == code (SampleFormat.s16 true)
    then some (SampleFormat.s16 true)
    else if fmt == code (SampleFormat.s32 true)
    then some (SampleFormat.s32 true)
    else if fmt == code (SampleFormat.float true)
    then some (SampleFormat.float true)
    else if fmt == code (SampleFormat.double true)
    then some (SampleFormat.double true)
    else none

-- The sample of a format that a bit pattern stands for.
unfoldable pub sample_of : SampleFormat → ℕ → Sample
sample_of (SampleFormat.u8 planar) bits = Sample.u8 bits
sample_of (SampleFormat.s16 planar) bits = Sample.s16 bits
sample_of (SampleFormat.s32 planar) bits = Sample.s32 bits
sample_of (SampleFormat.float planar) bits = Sample.float bits
sample_of (SampleFormat.double planar) bits = Sample.double bits

-- FFmpeg's context, of which there is one.
pub record MediaContext : Type 0 where
  pub net : Bool

-- `init_once` is the flag that the library keeps.
unfoldable pub init : Bool → Bool × MediaResult MediaContext
init init_once =
    if init_once
    then (init_once, MediaResult.failed ErrorKind.once_only)
    else (true, MediaResult.fine (record { net = false }))

-- `started` is what FFmpeg answers.
unfoldable pub network_init :
    MediaResult (Unit {0}) → MediaContext → MediaContext × MediaResult (Unit {0})
network_init (MediaResult.fine u) c =
    if c.net
    then (c, MediaResult.failed ErrorKind.once_only)
    else (record c { net = true }, MediaResult.fine tt)
network_init (MediaResult.failed e) c =
    if c.net then (c, MediaResult.failed ErrorKind.once_only) else (c, MediaResult.failed e)
