-- ===== src/Backend/Audio/Playing.antt =====
-- Loading, executing, pausing and resetting an audio action (sqa-backend/src/actions/audio.rs).
use sqa.Base.{
  ℕ, ◌+◌, suc, Bool, true, false, Option, none, some, List, [], ◌∷◌, ◌++◌, Outcome, done, ◌>>=◌,
  Result, ok, err, unwrap, length, get_elem?, ◌==◌, if◌then◌else◌, map,
}
use sqa.Duration.{Duration, zero_duration}
use sqa.Actions.{AudioChannel, PlaybackState}
use sqa.Actions.Durations.{DurationInfoInt}
use sqa.Engine.Param.{Parameter}
use sqa.Engine.Sync.{AudioThreadMessage}
use sqa.Engine.Thread.Players.{Player}
use sqa.Engine.Sender
use sqa.Engine.Sender.{Memory}
use sqa.Engine.Context.{BufferSender, PlainSender}
use sqa.Mixer.Context.{MixerContext, obtain_channel, new_senders}
use sqa.Media.{MediaResult}
use sqa.Spooler.{SpoolerMessage}
use sqa.Backend.{
  AudioController, RunningData, SpoolerThread, Context, Crates, db_lin, draw, change_state,
  send_control, hang_up,
}
use sqa.Backend.Audio.{memory, with_memory, open_file}

-- The channel of the mixer that a channel of the parameters is patched to, if it is.
unfoldable pub patch_target : {J : Type 0} → MixerContext J → Option ℕ → Result (Option ℕ)
unfolding obtain_channel
patch_target m none = ok none
patch_target m (some uu) = elim (obtain_channel m uu) [
  | none ↦ err "One channel mysteriously disappeared"
  | some eid ↦ ok (some eid)
]

abbrev pub patch_sender : BufferSender → Memory → Option ℕ → Memory
patch_sender sdr mem none = mem
patch_sender sdr mem (some eid) = Sender.set_output_patch sdr mem eid

-- The senders get the patches of the parameters' channels. A channel that is not there ends it, with
-- what was set before.
unfoldable pub patch_senders :
    {J : Type 0}
    → MixerContext J
    → List BufferSender
    → List AudioChannel
    → Memory
    → Memory × Result (Unit {0})
unfolding Sender.set_output_patch patch_target
patch_senders m [] chans mem = (mem, ok tt)
patch_senders m (sdr ∷ senders) [] mem = (mem, ok tt)
patch_senders m (sdr ∷ senders) (ch ∷ chans) mem = elim (patch_target m ch.patch) [
  | err e ↦ (mem, err e)
  | ok target ↦ patch_senders m senders chans (patch_sender sdr mem target)
]

-- Senders that go out of scope.
unfoldable pub drop_senders : {T : Type 0} → List (Sender.Sender T) → Memory → Memory
unfolding Sender.drop
drop_senders [] mem = mem
drop_senders (sdr ∷ senders) mem = drop_senders senders (Sender.drop sdr mem)

unfoldable pub set_active_all : List PlainSender → Bool → Memory → Memory
unfolding Sender.set_active
set_active_all [] active mem = mem
set_active_all (sdr ∷ senders) active mem =
    set_active_all senders active (Sender.set_active sdr mem active)

module _ {J X P F : Type 0} (k : Crates J X P F) where
  abbrev pub Returns : Type 0 → Type 0
  Returns A = Outcome (AudioController X × Context J X P F × A)

  -- The channel to an older spooler ends where its data are replaced.
  abbrev pub replace_rd : Option RunningData → Context J X P F → Context J X P F
  replace_rd none s = s
  replace_rd (some rd) s = hang_up s rd.control

  abbrev pub new_running : ℕ → List BufferSender → Duration → RunningData
  new_running control senders dur = record {
    control = control;
    durinfo = record { start_time = 0; duration = zero_duration; est_duration = some dur };
    senders = map Sender.make_plain senders;
  }

  abbrev pub new_thread : ℕ → X → List BufferSender → SpoolerThread X
  new_thread uuid mf senders = record {
    sctx = record { bsends = senders; file = mf; uuid = uuid; current_frame = none };
    inbox = [];
    running = true;
    connected = true;
  }

  unfoldable pub start_spooler :
      AudioController X
      → Context J X P F
      → ℕ
      → X
      → List BufferSender
      → Duration
      → AudioController X × Context J X P F
  unfolding hang_up Sender.make_plain
  start_spooler c s uuid mf senders dur =
      let s' = replace_rd c.rd s in
      (
        record c { rd = some (new_running (length s'.threads) senders dur) },
        record s' { threads = s'.threads ++ new_thread uuid mf senders ∷ [] },
      )

  -- The senders are dropped where one cannot be patched.
  unfoldable pub patched :
      AudioController X
      → Context J X P F
      → ℕ
      → X
      → List BufferSender
      → Memory × Result (Unit {0})
      → Returns (Result Bool)
  unfolding drop_senders start_spooler with_memory
  patched c s uuid mf senders (mem, err e) =
      done (c, with_memory s (drop_senders senders mem), err e)
  patched c s uuid mf senders (mem, ok u) = do
    dur ← unwrap (k.file_duration mf)
    let (c', s') = start_spooler c (with_memory s mem) uuid mf senders dur
    done (c', s', ok true)

  -- The file that was opened is used, and opened again for the next time.
  unfoldable pub load_file : AudioController X → Context J X P F → ℕ → X → Returns (Result Bool)
  unfolding open_file new_senders patch_senders patched memory draw
  load_file c s uuid mf = do
    let (s', file) = open_file k s c.url
    let uuids = draw k (k.channels mf) s'.drawn
    r ← new_senders k.v k.q k.jack k.f k.usize_max s'.mixer (k.sample_rate mf) uuids
    let s'' = record s' { mixer = r.0; drawn = length uuids + s'.drawn }
    patched (record c { file = file }) s'' uuid mf r.1
        (patch_senders s''.mixer r.1 c.params.chans (memory s''))

  unfoldable pub load_taken :
      AudioController X → Context J X P F → ℕ → Option (MediaResult X) → Returns (Result Bool)
  unfolding load_file
  load_taken c s uuid none = done (c, s, err "File mysteriously disappeared")
  load_taken c s uuid (some (MediaResult.failed e)) = done (c, s, err (k.show_error e))
  load_taken c s uuid (some (MediaResult.fine file)) = load_file c s uuid file

  unfoldable pub load : AudioController X → Context J X P F → ℕ → Returns (Result Bool)
  unfolding load_taken
  load c s uuid = load_taken (record c { file = none }) s uuid c.file

  abbrev pub first_volume : Bool → Option AudioChannel → PlainSender → Memory → Memory
  first_volume first none sdr mem = mem
  first_volume first (some ch) sdr mem =
      if first then Sender.set_volume sdr mem (Parameter.raw (db_lin k ch.vol)) else mem

  -- `first` tells that the action was not executed before; `i` counts the senders.
  unfoldable pub start_senders :
      Bool → ℕ → ℕ → List PlainSender → List AudioChannel → Memory → Memory
  unfolding db_lin Sender.set_volume Sender.set_start_time Sender.set_active
  start_senders first time i [] chans mem = mem
  start_senders first time i (sdr ∷ senders) chans mem =
      let mem' = Sender.set_start_time sdr (first_volume first (get_elem? chans i) sdr mem) time in
      start_senders first time (suc i) senders chans (Sender.set_active sdr mem' true)

  unfoldable pub execute_with :
      AudioController X → ℕ → Context J X P F → Option RunningData → Returns (Result Bool)
  unfolding start_senders memory with_memory
  execute_with c time s none = done (c, s, ok false)
  execute_with c time s (some rd) = done (
    record c { rd = some (record rd { durinfo = record rd.durinfo { start_time = time } }) },
    with_memory s
        (start_senders (rd.durinfo.start_time == 0) time 0 rd.senders c.params.chans (memory s)),
    ok false,
  )

  unfoldable pub execute : AudioController X → ℕ → Context J X P F → Returns (Result Bool)
  unfolding execute_with
  execute c time s = execute_with c time s c.rd

  unfoldable pub pause_with :
      AudioController X → Context J X P F → Option RunningData → Returns Bool
  unfolding set_active_all memory with_memory
  pause_with c s none = done (c, s, false)
  pause_with c s (some rd) =
      done (c, with_memory s (set_active_all rd.senders false (memory s)), true)

  unfoldable pub pause : AudioController X → Context J X P F → Returns Bool
  unfolding pause_with
  pause c s = pause_with c s c.rd

  -- The spooler is told to quit, whether it still runs or not.
  unfoldable pub reset :
      AudioController X → Context J X P F → Outcome (AudioController X × Context J X P F)
  unfolding send_control hang_up
  reset c s = elim c.rd [
    | none ↦ done (c, s)
    | some rd ↦ done (
      record c { rd = none },
      hang_up (send_control s rd.control SpoolerMessage.quit).0 rd.control,
    )
  ]

  abbrev or_zero : Option Duration → Duration
  or_zero none = zero_duration
  or_zero (some d) = d

  -- The position is that of the first sender.
  unfoldable pub duration_info :
      AudioController X → Context J X P F → Outcome (Option DurationInfoInt)
  unfolding memory Sender.position_samples
  duration_info c s = elim c.rd [
    | none ↦ done none
    | some rd ↦ unwrap (get_elem? rd.senders 0) >>= λ first. done (
        some (record rd.durinfo {
          duration =
              or_zero (k.position (Sender.position_samples first (memory s)) first.sample_rate);
        }))
  ]

  abbrev pub has_sender : ℕ → List PlainSender → Bool
  has_sender uu [] = false
  has_sender uu (sdr ∷ senders) = if sdr.uuid == uu then true else has_sender uu senders

  -- A spooler that cannot be woken makes an error of the action.
  unfoldable pub woken : ℕ → Context J X P F × Bool → Context J X P F
  unfolding change_state
  woken uuid (s, true) = s
  woken uuid (s, false) =
      change_state s uuid (PlaybackState.errored "Failed to wakeup spooler thread: SendError(..)")

  -- One of the buffers is half empty, or empty.
  unfoldable pub wake_for : AudioController X → ℕ → Context J X P F → ℕ → Returns Bool
  unfolding woken send_control
  wake_for c uu s uuid = elim c.rd [
    | none ↦ done (c, s, false)
    | some rd ↦
        if has_sender uu rd.senders
        then done (c, woken uuid (send_control s rd.control SpoolerMessage.wakeup), true)
        else done (c, s, false)
  ]

  unfoldable pub accept_audio_message :
      AudioController X → AudioThreadMessage Player → Context J X P F → ℕ → Returns Bool
  unfolding wake_for change_state
  accept_audio_message c (AudioThreadMessage.player_buf_half uu) s uuid = wake_for c uu s uuid
  accept_audio_message c (AudioThreadMessage.player_buf_empty uu) s uuid = wake_for c uu s uuid
  accept_audio_message c (AudioThreadMessage.player_removed pl) s uuid = elim c.rd [
    | none ↦ done (c, s, false)
    | some rd ↦ unwrap (get_elem? rd.senders 0) >>= λ first.
        if first.uuid == pl.uuid
        then done (c, change_state s uuid PlaybackState.inactive, true)
        else done (c, s, false)
  ]
  accept_audio_message c (AudioThreadMessage.player_added uu) s uuid = done (c, s, false)
  accept_audio_message c (AudioThreadMessage.player_rejected p) s uuid = done (c, s, false)
  accept_audio_message c (AudioThreadMessage.player_invalid_outpatch uu) s uuid = done (c, s, false)
  accept_audio_message c AudioThreadMessage.xrun s uuid = done (c, s, false)
