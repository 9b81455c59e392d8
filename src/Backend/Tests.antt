-- ===== src/Backend/Tests.antt =====
-- The theorems on the backend at concrete crates.
use sqa.Base.{
  ◌≤◌, ◌+◌, ◌*◌, suc, List, ◌∷◌, Result, ℕ, ◌<◌, ◌≡◌, refl, inr, true, false, none, some, [],
  length, get_elem?, done, arith, ok,
}
use sqa.Base.Words.{add_u64, mul_u64}
use sqa.Base.HashMap
use sqa.Base.HashSet.{contains}
use sqa.Duration.{Duration}
use sqa.Actions.{PlaybackState, ActionMetadata}
use sqa.Actions.Action.{Action}
use sqa.ActionManager
use sqa.ActionManager.{ActionManager}
use sqa.ActionManager.Invariant.{IsValid}
use sqa.ActionManager.Runs.{Reach, Step, Reach-IsValid}
use sqa.ActionManager.Vector.{position}
use sqa.Codec.{Command}
use sqa.Engine.Param.{Parameter, FadeDetails, get, duration}
use sqa.Engine.Sender
use sqa.Engine.Sender.{Memory, update, store}
use sqa.Engine.Context.{PlainSender}
use sqa.Engine.Concrete.{floats}
use sqa.Media.{MediaResult}
use sqa.Backend.{Context, AudioController, RunningData, FadeController, ActionType, db_lin}
use sqa.Backend.Audio
use sqa.Backend.Audio.Playing
use sqa.Backend.Audio.Loaded.{load-verified}
use sqa.Backend.Audio.Starting.{Plays, execute-pause}
use sqa.Backend.Fade
use sqa.Backend.Fade.Running
use sqa.Backend.Fade.Waiting.{OnTime, wait_time_lem}
use sqa.Backend.Fade.Resume.{freeze-apply}
use sqa.Backend.Fade.Checks.{IsAudio, verify_params_lem}
use sqa.Backend.State.{create_action}
use sqa.Backend.State.Actions.{create_action-Created}
use sqa.Undo.View
use sqa.Backend.State.{Server}
use sqa.Backend.Events.{external}
use sqa.Backend.Events.Reordering.{external-reorder-undo}
use sqa.Media.{Sample}
use sqa.Media.Turns.{of_channel}
use sqa.Backend.Waveforms.Overview.{Overviews, add_samples, start}
use sqa.Backend.Waveforms.Counts.{add_samples_lem}
use sqa.Backend.Concrete.{
  crates, empty_context, opened, stream, running, loaded, down, fader, target, with_target, fading,
  fade_running, faded, full_disk, wire, one_client, asker, with_two, second, reading,
}

opened-verifies : Audio.verify_params crates opened empty_context ≡ []
unfolding Audio.verify_params
opened-verifies = refl

load-verified_example :
    (mf : ℕ) × (c' : AudioController ℕ) × (s' : Context ℕ ℕ ℕ ℕ) × (rd : RunningData) × (opened.file
      ≡ some (MediaResult.fine mf))
    × (Playing.load crates opened empty_context 1 ≡ done (c', s', ok true))
    × (c'.rd ≡ some rd)
    × (length rd.senders ≡ crates.channels mf)
load-verified_example = load-verified crates opened empty_context 1 opened-verifies (λ mf e. refl)

execute-pause_example :
    ((s' : Context ℕ ℕ ℕ ℕ) × (Playing.execute crates loaded 7000 empty_context
        ≡ done (
          record loaded {
            rd = some (record running { durinfo = record running.durinfo { start_time = 7000 } });
          },
          s',
          ok false,
        ))
      × ((n : ℕ) (sdr : PlainSender)
          → get_elem? running.senders n ≡ some sdr
          → Plays 7000 ((Audio.memory s').streams sdr.cells)))
    × ((s' : Context ℕ ℕ ℕ ℕ) × (Playing.pause crates loaded empty_context
          ≡ done (loaded, s', true))
        × ((n : ℕ) (sdr : PlainSender)
            → get_elem? running.senders n ≡ some sdr
            → ((Audio.memory s').streams sdr.cells).active ≡ false))
execute-pause_example = execute-pause crates loaded 7000 empty_context running refl

-- A fade of three seconds, two seconds after its start.
wait_time_lem_example :
    (w : Duration) × (Running.wait_time 3000000000 5000000000 (record { secs = 3; nanos = 0 })
      ≡ done w)
    × OnTime 3000000000 5000000000 (record { secs = 3; nanos = 0 }) w
wait_time_lem_example =
    wait_time_lem 3000000000 5000000000 (record { secs = 3; nanos = 0 }) (omega arith) (omega arith)

-- The single channel is no fade to the checks.
fader-errors : length (Fade.verify_params crates (fader false) with_target) ≡ 1
unfolding Fade.verify_params ActionManager.get HashMap.get
fader-errors = refl

verify_params_lem_example :
    (Fade.verify_params crates (fader true) with_target ≡ []
      → (uu : ℕ) × ((fader true).params.target ≡ some uu)
        × IsAudio crates (ActionManager.get with_target.actions uu)
        × ((fader true).params.fade_master.0 ≡ true))
    × ((uu : ℕ)
        → (fader true).params.target ≡ some uu
        → IsAudio crates (ActionManager.get with_target.actions uu)
        → (fader true).params.fade_master.0 ≡ true
        → Fade.verify_params crates (fader true) with_target ≡ [])
verify_params_lem_example = verify_params_lem crates (fader true) with_target

at_start : get floats fading.fades (Fade.volume_of false (stream 1) fading) 1000 ≡ done 5
unfolding get add_u64 Sender.volume
at_start = refl

-- The fade to 7 that is started there.
abbrev to_seven : FadeDetails
to_seven = record { from = 5; delta = 2; cells = 4; id_ptr = 9 }

abbrev begun : Memory
unfolding Sender.set_volume
begun =
    Fade.set_volume_of false (stream 1)
      (record fading {
        fades =
            update fading.fades 4
              (record { start_time = 1000; duration = 3000000000; active = true });
        next = 5;
      })
      (Parameter.linear_fade to_seven)

abbrev begun_fade : FadeController ℕ
begun_fade = record (fader true) { rd = some (record fade_running { fd = to_seven }) }

begins :
    Fade.apply_fade_to_sdr crates false 7 (stream 1) 9 1000 1000 (faded, fading)
    ≡ done (begun_fade, begun)
unfolding Fade.apply_fade_to_sdr add_u64 mul_u64
begins = refl

at_pause : get floats begun.fades (Fade.volume_of false (stream 1) begun) 3000 ≡ done 4005
unfolding get add_u64 Sender.volume Sender.set_volume store update
at_pause = refl

at_begin : get floats begun.fades (Fade.volume_of false (stream 1) begun) 1000 ≡ done 5
unfolding get add_u64 Sender.volume Sender.set_volume store update
at_begin = refl

freeze-apply_example :
    (m2 m3 : Memory) × (c2 : FadeController ℕ) × (g h : FadeDetails) × (begun_fade.rd
      ≡ some (record fade_running { fd = g }))
    × (Fade.volume_of false (stream 1) begun ≡ Parameter.linear_fade g)
    × (g.from ≡ 5)
    × (g.delta ≡ floats.sub (db_lin crates 7) 5)
    × (Fade.freeze_sdr crates false (stream 1) g 1000 3000 begun ≡ done m2)
    × ((t : ℕ) → 3020 < t → get floats m2.fades (Fade.volume_of false (stream 1) m2) t ≡ done 4005)
    × ((t : ℕ) → t ≤ 3020 → get floats m2.fades (Fade.volume_of false (stream 1) m2) t ≡ done 5)
    × (Fade.apply_fade_to_sdr crates false 7 (stream 1) 10 8000 1000 (begun_fade, m2)
        ≡ done (c2, m3))
    × (c2.rd ≡ some (record fade_running { fd = h }))
    × (Fade.volume_of false (stream 1) m3 ≡ Parameter.linear_fade h)
    × (h.from ≡ 5)
    × (h.delta ≡ floats.sub (db_lin crates 7) 5)
    × ((m3.fades h.cells).start_time ≡ 8000)
    × ((m3.fades h.cells).active ≡ true)
    × (duration (m3.fades h.cells) ≡ (down true).dur)
freeze-apply_example =
    freeze-apply crates false (stream 1) fading begun faded begun_fade fade_running 7 5 4005 5 9 10
      1000 1000 1000 3000 8000 at_start refl (omega arith) (omega arith) begins at_pause at_begin
      (omega arith) (omega arith)

with_target-IsValid : IsValid with_target.actions
unfolding ActionManager.insert ActionManager.new position HashMap.get HashMap.insert
with_target-IsValid = Reach-IsValid (Reach.next Reach.here (Step.inserts 1 target refl))

nine_free : ActionManager.get with_target.actions 9 ≡ none
unfolding ActionManager.get HashMap.get
nine_free = refl

create_action-Created_example :
    (s' : Context ℕ ℕ ℕ ℕ) × (a : Action (ActionType ℕ ℕ) ℕ) × (create_action crates with_target
        "fade" none none
        (some 9)
      ≡ done (s', ok 9))
    × (a.uu ≡ 9)
    × (a.state ≡ PlaybackState.inactive)
    × ((m : ActionMetadata) → none ≡ some m → a.meta ≡ m)
    × (ActionManager.get s'.actions 9 ≡ some a)
    × (ActionManager.position_of s'.actions 9 ≡ some (length with_target.actions.order))
    × (contains 9 s'.actions.changed ≡ true)
    × IsValid s'.actions
create_action-Created_example =
    create_action-Created crates with_target "fade" none none 9 (inr refl) with_target-IsValid
      nine_free refl

with_two-IsValid : IsValid with_two.actions
unfolding ActionManager.insert ActionManager.new position HashMap.get HashMap.insert
with_two-IsValid =
    Reach-IsValid
      (Reach.next (Reach.next Reach.here (Step.inserts 1 target refl)) (Step.inserts 2 second refl))

history-IsValid : View.IsValid with_two.undo
history-IsValid = record { nonempty = omega arith; bounded = omega arith; fits = tt }

first_place : ActionManager.position_of with_two.actions 1 ≡ some 0
unfolding ActionManager.position_of position
first_place = refl

external-reorder-undo_example :
    (sv1 sv2 : Server crates wire) × (r1 r2 : Result (Unit {0})) × (external crates full_disk wire
        (with_two, one_client)
        (Command.reorder_action 1 1)
        asker
      ≡ done (sv1, r1))
    × (ActionManager.position_of sv1.0.actions 1 ≡ some 1)
    × (external crates full_disk wire sv1 Command.undo asker ≡ done (sv2, r2))
    × (sv2.0.actions ≡ record with_two.actions { changed = []; order_changed = false })
external-reorder-undo_example =
    external-reorder-undo crates full_disk wire with_two one_client 1 0 1 asker asker
      with_two-IsValid history-IsValid first_place (omega arith) refl

-- Three samples of two channels make one overview of two samples.
abbrev rest : List (ℕ × Sample)
rest =
    (1, Sample.float 0)
    ∷ (0, Sample.float 0)
    ∷ (1, Sample.float 0)
    ∷ (0, Sample.float 0)
    ∷ (1, Sample.float 0)
    ∷ []

add_samples_lem_example :
    (p : Overviews) × (add_samples reading 2 2 ((0, Sample.float 0) ∷ rest) (start reading)
      ≡ done p)
    × (length p.ret * 2 < suc (length (of_channel 0 rest)))
    × (suc (length (of_channel 0 rest)) ≤ length p.ret * 2 + 2)
    × (suc (length (of_channel 0 rest)) ≡ length p.ret * 2 + length p.rms_range)
add_samples_lem_example =
    add_samples_lem reading 2 2 (Sample.float 0) rest (omega arith) (omega arith)
