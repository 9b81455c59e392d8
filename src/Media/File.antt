-- ===== src/Media/File.antt =====
-- A file and its iterator over frames (sqa-ffmpeg/src/lib.rs, `MediaFile`).
use sqa.Base.{ℕ, zero, suc, ◌<◌, ◌≤◌, ◌≡◌, ◌≢◌, Option, none, some, Bool, true, false}
use sqa.Media.{SampleFormat, ErrorKind, MediaResult}
use sqa.Media.Frame.{AvFrame, Frame, from_ptr}

-- FFmpeg's calls on an open file of type `X`; a packet is known by a number.
pub record Ffmpeg (X : Type 0) : Type 0 where
  pub code : SampleFormat → ℕ
  -- Whether there is memory for a frame.
  pub av_frame_alloc : X → Bool
  pub avcodec_receive_frame : X → X × MediaResult AvFrame
  pub av_read_frame : X → X × MediaResult ℕ
  pub avcodec_send_packet : X → ℕ → X × MediaResult (Unit {0})

-- A file is finite: `todo` counts the packets and frames that are still to come. Each that comes is
-- one less. A call that fails may leave the file as it is.
pub record FfmpegLaws {X : Type 0} (av : Ffmpeg X) : Type 0 where
  pub todo : X → ℕ
  pub receive_le : (x : X) → todo (av.avcodec_receive_frame x).0 ≤ todo x
  pub receive_lt :
      (x : X) (a : AvFrame)
      → (av.avcodec_receive_frame x).1 ≡ MediaResult.fine a
      → todo (av.avcodec_receive_frame x).0 < todo x
  pub read_le : (x : X) → todo (av.av_read_frame x).0 ≤ todo x
  pub read_lt :
      (x : X) (p : ℕ)
      → (av.av_read_frame x).1 ≡ MediaResult.fine p
      → todo (av.av_read_frame x).0 < todo x
  pub send_le : (x : X) (p : ℕ) → todo (av.avcodec_send_packet x p).0 ≤ todo x

-- Files that are not damaged, so that each packet can be read and each that is taken can be decoded.
-- The decoder may still refuse a packet as invalid.
pub record IsIntact {X : Type 0} (av : Ffmpeg X) : Type 0 where
  pub receives :
      (x : X) → (av.avcodec_receive_frame x).1 ≢ MediaResult.failed ErrorKind.invalid_data
  pub reads : (x : X) → (av.av_read_frame x).1 ≢ MediaResult.failed ErrorKind.invalid_data

module _ {X : Type 0} (av : Ffmpeg X) where
  -- A packet that could not be read is not sent.
  unfoldable pub send_read : X × MediaResult ℕ → X × MediaResult (Unit {0})
  send_read (x, MediaResult.fine p) = av.avcodec_send_packet x p
  send_read (x, MediaResult.failed e) = (x, MediaResult.failed e)

  unfoldable pub send_packet : X → X × MediaResult (Unit {0})
  unfolding send_read
  send_packet x = send_read (av.av_read_frame x)

  unfoldable pub received : X × MediaResult AvFrame → X × MediaResult Frame
  unfolding from_ptr
  received (x, MediaResult.fine a) = (x, from_ptr av.code a)
  received (x, MediaResult.failed e) = (x, MediaResult.failed e)

  -- The flag tells whether there is memory for the frame.
  unfoldable pub receive_into : Bool → X → X × MediaResult Frame
  unfolding received
  receive_into false x = (x, MediaResult.failed ErrorKind.allocation_failed)
  receive_into true x = received (av.avcodec_receive_frame x)

  unfoldable pub receive_frame : X → X × MediaResult Frame
  unfolding receive_into
  receive_frame x = receive_into (av.av_frame_alloc x) x

  -- What the iterator hands out.
  abbrev pub Item : Type 0
  Item = Option (MediaResult Frame)

  -- After a packet was sent: the end of the file, another error, or another round.
  unfoldable pub after_send : (X → X × Option Item) → X × MediaResult (Unit {0}) → X × Option Item
  after_send again (x, MediaResult.fine u) = again x
  after_send again (x, MediaResult.failed ErrorKind.eof) = (x, some none)
  after_send again (x, MediaResult.failed e) = (x, some (some (MediaResult.failed e)))

  unfoldable pub after_receive : (X → X × Option Item) → X × MediaResult Frame → X × Option Item
  unfolding after_send send_packet
  after_receive again (x, MediaResult.fine frame) = (x, some (some (MediaResult.fine frame)))
  after_receive again (x, MediaResult.failed ErrorKind.temporarily_unavailable) =
      after_send again (send_packet x)
  after_receive again (x, MediaResult.failed ErrorKind.eof) = (x, some none)
  after_receive again (x, MediaResult.failed e) = (x, some (some (MediaResult.failed e)))

  -- The loop, on fuel: the second part is `none` where it has not ended.
  unfoldable pub next : ℕ → X → X × Option Item
  unfolding after_receive receive_frame
  next zero x = (x, none)
  next (suc fuel) x = after_receive (λ y. next fuel y) (receive_frame x)
