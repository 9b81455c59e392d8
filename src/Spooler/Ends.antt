-- ===== src/Spooler/Ends.antt =====
-- The spooler's stretches end: it comes to a wait or to its end.
use sqa.Base.{
  ℕ, zero, suc, ◌<◌, ◌≤◌, ◌≢◌, Bool, true, false, Option, none, some, List, [], ◌∷◌, Outcome, done,
  panic, ◌>>=◌, arith, if◌then◌else◌, get_elem?, length, ◌==◌, unwrap,
}
use sqa.Base.Float.{F32}
use sqa.Media.{ErrorKind, MediaResult}
use sqa.Media.Frame.{Frame}
use sqa.Media.File.{Ffmpeg, FfmpegLaws, IsIntact, Item, next}
use sqa.Media.Progress.{Progress, next-Progress}
use sqa.Engine.{stream_buffer_size}
use sqa.Engine.Sender.{Memory}
use sqa.Engine.Context.{BufferSender}
use sqa.Spooler.{
  Spooling, Shared, SpoolerContext, SpoolerMessage, Stand, Stretch, send_frame, after_frame,
  after_next, send_file, send_current, work, receive, spool_on, spool,
}

module _ (k : Spooling) {X : Type 0} (av : Ffmpeg X) (laws : FfmpegLaws av)
    (intact : IsIntact av) where
  -- The file that a thread still reads has at most `n` to come.
  abbrev Reads : ℕ → Stand X → Type 0
  Reads n (Stand.waits s) = laws.todo s.file ≤ n
  Reads n (Stand.sent s) = laws.todo s.file ≤ n
  Reads n Stand.killed = Unit {0}
  Reads n (Stand.errored e) = Unit {0}

  -- A stretch has ended, be it by a panic.
  abbrev Ended : ℕ → Stretch k av → Type 0
  Ended n panic = Unit {0}
  Ended n (done none) = ⊥
  Ended n (done (some (sh, st))) = Reads n st

  Ended-ne : (n : ℕ) (r : Stretch k av) → Ended n r → r ≢ done none
  Ended-ne n panic e q = cc
  Ended-ne n (done none) e q = e
  Ended-ne n (done (some x)) e q = cc

  Reads-mono : (m n : ℕ) (st : Stand X) → Reads m st → m ≤ n → Reads n st
  Reads-mono m n (Stand.waits s) r le = omega arith
  Reads-mono m n (Stand.sent s) r le = omega arith
  Reads-mono m n Stand.killed r le = tt
  Reads-mono m n (Stand.errored e) r le = tt

  Ended-mono : (m n : ℕ) (r : Stretch k av) → Ended m r → m ≤ n → Ended n r
  Ended-mono m n panic e le = tt
  Ended-mono m n (done none) e le = e
  Ended-mono m n (done (some (sh, st))) e le = Reads-mono m n st e le

  abbrev Goes : ℕ → (Shared → SpoolerContext X → Stretch k av) → Type 0
  Goes n again =
      (sh : Shared) (s : SpoolerContext X)
      → laws.todo s.file < n
      → Ended (laws.todo s.file) (again sh s)

  framed :
      (again : Shared → SpoolerContext X → Stretch k av) (s : SpoolerContext X) (mem : Memory)
      (r : Outcome ((ℕ → List F32) × Frame × Bool))
      → ((sh : Shared) → Ended (laws.todo s.file) (again sh (record s { current_frame = none })))
      → Ended (laws.todo s.file) (r >>= after_frame k av again s mem)
  unfolding after_frame
  framed again s mem panic ih = tt
  framed again s mem (done (bufs, frame, true)) ih = omega arith
  framed again s mem (done (bufs, frame, false)) ih = ih (record { bufs = bufs; mem = mem })

  next-Ended :
      (n : ℕ) (again : Shared → SpoolerContext X → Stretch k av) (sh : Shared)
      (s : SpoolerContext X) (item : Option (Item av))
      → Goes n again
      → Progress av laws intact n (s.file, item)
      → Ended n (after_next k av again sh s item)
  unfolding after_next
  next-Ended n again sh s none ih p = p
  next-Ended n again sh s (some none) ih p = p
  next-Ended n again sh s (some (some (MediaResult.fine frame))) ih p =
      Ended-mono (laws.todo s.file) n
        (send_frame k s.bsends sh.bufs frame >>= after_frame k av again s sh.mem)
        (framed again s sh.mem (send_frame k s.bsends sh.bufs frame)
          (λ sh'. ih sh' (record s { current_frame = none }) p))
        (omega arith)
  next-Ended n again sh s (some (some (MediaResult.failed ErrorKind.invalid_data))) ih p =
      Ended-mono (laws.todo s.file) n (again sh s) (ih sh s p) (omega arith)
  next-Ended n again sh s (some (some (MediaResult.failed e))) ih p = tt

  send_file-Ended : (fuel : ℕ) → Goes fuel (send_file k av fuel)
  unfolding send_file
  send_file-Ended zero sh s h = elim h [ ]
  send_file-Ended (suc fuel) sh s h =
      next-Ended (laws.todo s.file) (send_file k av fuel) sh
        (record s { file = (next av (suc fuel) s.file).0 }) (next av (suc fuel) s.file).1
        (λ sh' s' lt. send_file-Ended fuel sh' s' (omega arith))
        (next-Progress av laws intact (suc fuel) s.file h)

  current-Ended :
      (fuel : ℕ) (sh : Shared) (s : SpoolerContext X) (frame : Option Frame)
      → laws.todo s.file < fuel
      → Ended (laws.todo s.file) (send_current k av fuel sh s frame)
  unfolding send_current
  current-Ended fuel sh s none h = send_file-Ended fuel sh s h
  current-Ended fuel sh s (some frame) h =
      framed (send_file k av fuel) s sh.mem (send_frame k s.bsends sh.bufs frame)
        (λ sh'. send_file-Ended fuel sh' (record s { current_frame = none }) h)

  work-Ended : (fuel : ℕ) → Goes fuel (work k av fuel)
  unfolding work
  work-Ended fuel sh s h = from_first (get_elem? s.bsends 0)
    where
      unless_full :
          (b : Bool)
          → Ended (laws.todo s.file) (
              if b
              then done (some (sh, Stand.waits s))
              else send_current k av fuel sh s s.current_frame)
      unless_full true = omega arith
      unless_full false = current-Ended fuel sh s s.current_frame h

      from_first :
          (first : Option BufferSender)
          → Ended (laws.todo s.file) (
              unwrap first >>= λ b.
              if length (sh.bufs b.buf) == stream_buffer_size
              then done (some (sh, Stand.waits s))
              else send_current k av fuel sh s s.current_frame)
      from_first none = tt
      from_first (some b) = unless_full (length (sh.bufs b.buf) == stream_buffer_size)

  receive-Ended :
      (fuel n : ℕ) (msg : Option SpoolerMessage) (sh : Shared) (st : Stand X)
      → n < fuel
      → Reads n st
      → Ended n (receive k av fuel msg sh st)
  unfolding receive
  receive-Ended fuel n none sh (Stand.waits s) h r = tt
  receive-Ended fuel n (some SpoolerMessage.wakeup) sh (Stand.waits s) h r =
      Ended-mono (laws.todo s.file) n (work k av fuel sh s) (work-Ended fuel sh s (omega arith)) r
  receive-Ended fuel n (some SpoolerMessage.quit) sh (Stand.waits s) h r = tt
  receive-Ended fuel n (some SpoolerMessage.wakeup) sh (Stand.sent s) h r = r
  receive-Ended fuel n (some SpoolerMessage.quit) sh (Stand.sent s) h r = tt
  receive-Ended fuel n none sh (Stand.sent s) h r = tt
  receive-Ended fuel n msg sh Stand.killed h r = tt
  receive-Ended fuel n msg sh (Stand.errored e) h r = tt

  then-Ended :
      (n : ℕ) (next : Option (Shared × Stand X) → Stretch k av) (r : Stretch k av)
      → ((sh : Shared) (st : Stand X) → Reads n st → Ended n (next (some (sh, st))))
      → Ended n r
      → Ended n (r >>= next)
  then-Ended n next panic ih e = tt
  then-Ended n next (done none) ih e = absurd e
  then-Ended n next (done (some (sh, st))) ih e = ih sh st e

  spool_on-Ended :
      (fuel n : ℕ) (events : List ((Shared → Shared) × Option SpoolerMessage)) (sh : Shared)
      (st : Stand X)
      → n < fuel
      → Reads n st
      → Ended n (spool_on k av fuel events (some (sh, st)))
  unfolding spool_on
  spool_on-Ended fuel n [] sh st h r = r
  spool_on-Ended fuel n ((meanwhile, msg) ∷ evs) sh st h r =
      then-Ended n (spool_on k av fuel evs) (receive k av fuel msg (meanwhile sh) st)
        (λ sh' st' r'. spool_on-Ended fuel n evs sh' st' h r')
        (receive-Ended fuel n msg (meanwhile sh) st h r)

  -- Over a file that is not damaged, in which FFmpeg reads every packet and decodes every packet that
  -- it has taken, while it may still refuse packets as invalid, the spooler does not loop for ever:
  -- over any messages, with whatever the audio thread does in between, each of its stretches ends, in
  -- a wait, a return or a panic, if the fuel exceeds the packets and frames that are to come.
  pub spool-ends :
      (fuel : ℕ) (events : List ((Shared → Shared) × Option SpoolerMessage)) (sh : Shared)
      (s : SpoolerContext X)
      → laws.todo s.file < fuel
      → spool k av fuel events sh s ≢ done none
  unfolding spool
  spool-ends fuel events sh s h =
      Ended-ne (laws.todo s.file) (work k av fuel sh s >>= spool_on k av fuel events) (
        then-Ended (laws.todo s.file) (spool_on k av fuel events) (work k av fuel sh s)
          (λ sh' st r. spool_on-Ended fuel (laws.todo s.file) events sh' st h r)
          (work-Ended fuel sh s h))
