-- ===== src/Spooler/Damaged.antt =====
-- What the spooler does on a file that has a packet which cannot be read (sqa-backend/src/actions/audio.rs).
use sqa.Base.{
  ℕ, zero, suc, ◌≡◌, ◌≢◌, refl, ap, ◌∙◌, true, false, Option, none, some, List, [], ◌∷◌, length,
  done, ◌>>=◌, get_elem?, ◌==◌, arith,
}
use sqa.Media.{ErrorKind, MediaResult}
use sqa.Media.File.{
  Ffmpeg, next, receive_frame, receive_into, received, after_receive, after_send, send_packet,
  send_read,
}
use sqa.Engine.{stream_buffer_size}
use sqa.Engine.Context.{BufferSender}
use sqa.Spooler.{
  Spooling, Shared, SpoolerContext, SpoolerMessage, send_file, send_current, after_next, work,
  spool, spool_on,
}

module _ {X : Type 0} (av : Ffmpeg X) where
  -- The decoder wants a packet, and the next one cannot be read, now or later.
  pub record IsStuck (x : X) : Type 0 where
    pub memory : av.av_frame_alloc x ≡ true
    pub wants :
        av.avcodec_receive_frame x ≡ (x, MediaResult.failed ErrorKind.temporarily_unavailable)
    pub broken : av.av_read_frame x ≡ (x, MediaResult.failed ErrorKind.invalid_data)

  next-IsStuck :
      (fuel : ℕ) (x : X)
      → IsStuck x
      → next av (suc fuel) x ≡ (x, some (some (MediaResult.failed ErrorKind.invalid_data)))
  unfolding next receive_frame receive_into received after_receive after_send send_packet send_read
  next-IsStuck fuel x h = rw (h.memory, h.wants, h.broken) refl

module _ (k : Spooling) {X : Type 0} (av : Ffmpeg X) where
  send_file-IsStuck :
      (fuel : ℕ) (sh : Shared) (s : SpoolerContext X)
      → IsStuck av s.file
      → send_file k av fuel sh s ≡ done none
  unfolding send_file
  send_file-IsStuck zero sh s h = refl
  send_file-IsStuck (suc fuel) sh s h =
      ap
        (λ z.
          after_next k av (λ sh' s'. send_file k av fuel sh' s') sh (record s { file = z.0 }) z.1)
        (next-IsStuck av fuel s.file h)
      ∙ unfold after_next in send_file-IsStuck fuel sh s h

  spool_on-none :
      (fuel : ℕ) (events : List ((Shared → Shared) × Option SpoolerMessage))
      → spool_on k av fuel events none ≡ done none
  unfolding spool_on
  spool_on-none fuel [] = refl
  spool_on-none fuel (ev ∷ evs) = refl

  -- If the decoder wants a packet, and FFmpeg reports the next one as invalid without going on to
  -- another, then the spooler, with room in its first buffer and no frame at hand, loops for ever
  -- without waiting for a message: no fuel is enough, so that it can not even be told to quit.
  pub spool-IsStuck :
      (fuel : ℕ) (events : List ((Shared → Shared) × Option SpoolerMessage)) (sh : Shared)
      (s : SpoolerContext X) (first : BufferSender)
      → IsStuck av s.file
      → get_elem? s.bsends 0 ≡ some first
      → length (sh.bufs first.buf) ≢ stream_buffer_size
      → s.current_frame ≡ none
      → spool k av fuel events sh s ≡ done none
  unfolding spool work send_current
  spool-IsStuck fuel events sh s first h e room n =
      let free : (length (sh.bufs first.buf) == stream_buffer_size) ≡ false =
        ground (arith, room) in
      rw (e, n)
        (rw free (
          ap (λ r. r >>= spool_on k av fuel events)
            (send_file-IsStuck fuel sh (record s { current_frame = none }) h)
          ∙ spool_on-none fuel events))
