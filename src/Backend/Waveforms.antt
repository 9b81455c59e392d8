-- ===== src/Backend/Waveforms.antt =====
-- The requests for waveforms (sqa-backend/src/waveform.rs, `WaveformContext`).
pub mod Overview
pub mod Counts
pub mod Reading
use sqa.Base.{
  ℕ, String, Option, none, some, List, [], ◌∷◌, Outcome, done, ◌>>=◌, Result, ok, err, unwrap,
  is_some, if◌then◌else◌, ◌==◌, not,
}
use sqa.Base.HashMap
use sqa.Base.HashMap.{HashMap}
use sqa.Duration.{Duration, zero_duration, less}
use sqa.Codec.{Reply}
use sqa.Waveform.{WaveformRequest, WaveformReply}
use sqa.Handlers.{Wire}
use sqa.Media.{MediaResult}
use sqa.Backend.{Crates, Oneshot, WaveformContext}
use sqa.Backend.Controllers.{World}
use sqa.Backend.Audio.{parse_url, open_url}
use sqa.Backend.State.{Server, broadcast_to}

abbrev pub new_waveforms : WaveformContext
new_waveforms = record { active = []; completed = [] }

abbrev or_else : Option Duration → Duration → Duration
or_else none d = d
or_else (some d) d' = d

-- What has been computed, or that its thread died.
unfoldable pub resolved : HashMap Oneshot → List (ℕ × Result WaveformReply)
resolved [] = []
resolved ((uu, Oneshot.pending) ∷ m) = resolved m
resolved ((uu, Oneshot.arrived r) ∷ m) = (uu, r) ∷ resolved m
resolved ((uu, Oneshot.dropped) ∷ m) = (uu, err "Waveform thread died") ∷ resolved m

unfoldable pub settle : ℕ → Result WaveformReply → WaveformContext → WaveformContext
unfolding HashMap.insert HashMap.remove
settle uu (ok r) w = record w {
  active = HashMap.remove uu w.active;
  completed = HashMap.insert uu r w.completed;
}
settle uu (err e) w = record w { active = HashMap.remove uu w.active }

module _ {J X P F : Type 0} (k : Crates J X P F) {Pkt Udp Sock : Type 0}
    (wire : Wire Reply Pkt Udp Sock) where
  -- A thread starts computing, unless the range is empty.
  unfoldable pub start_request :
      World k → ℕ → WaveformRequest → Option Duration → Outcome (World k × Result (Unit {0}))
  unfolding HashMap.insert less
  start_request s uu req dur = do
    whole ← unwrap dur
    let start = or_else req.range_start zero_duration
    let end = or_else req.range_end whole
    done (
        if not (less start end)
        then (s, err "Waveform request start point is greater than or equal to end point.")
        else if req.samples_per_pixel == 0
        then (s, err "Waveform request asks for no samples.")
        else (
          record s {
            waveform = record s.waveform {
              active = HashMap.insert uu Oneshot.pending s.waveform.active;
            };
          },
          ok tt,
        ))

  abbrev pub opened :
      ℕ → WaveformRequest → World k × MediaResult X → Outcome (World k × Result (Unit {0}))
  opened uu req (s, MediaResult.failed e) = done (s, err (k.show_error e))
  opened uu req (s, MediaResult.fine file) = start_request s uu req (k.file_duration file)

  unfoldable pub new_request :
      World k → ℕ → WaveformRequest → Result String → Outcome (World k × Result (Unit {0}))
  unfolding start_request open_url
  new_request s uu req (err e) = done (s, err e)
  new_request s uu req (ok path) = opened uu req (open_url k s path)

  -- One in progress is left to itself, one that is there already is sent again.
  unfoldable pub execute_request :
      Server k wire → ℕ → WaveformRequest → Outcome (Server k wire × Result (Unit {0}))
  unfolding new_request broadcast_to parse_url HashMap.get
  execute_request (s, d) uu req =
      if is_some (HashMap.get uu s.waveform.active)
      then done ((s, d), ok tt)
      else elim (HashMap.get uu s.waveform.completed) [
        | some res ↦ done (broadcast_to k wire (s, d) (Reply.waveform_generated uu (ok res)), ok tt)
        | none ↦ new_request s uu req (parse_url k req.file) >>= λ r. done ((r.0, d), r.1)
      ]

  unfoldable pub settle_all : List (ℕ × Result WaveformReply) → Server k wire → Server k wire
  unfolding settle broadcast_to
  settle_all [] sv = sv
  settle_all ((uu, r) ∷ rs) (s, d) = settle_all rs (
      broadcast_to k wire (record s { waveform = settle uu r s.waveform }, d)
        (Reply.waveform_generated uu r))

  unfoldable pub on_wakeup : Server k wire → Server k wire
  unfolding settle_all resolved
  on_wakeup (s, d) = settle_all (resolved s.waveform.active) (s, d)
