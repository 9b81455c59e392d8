-- ===== src/Backend/Fade/Running.antt =====
-- Running, pausing and resetting a fade (sqa-backend/src/actions/fade.rs).
use sqa.Base.{
  ℕ, ◌+◌, ◌-◌, ◌/◌, ◌%◌, Bool, true, false, Option, none, some, List, Outcome, done, panic, ◌>>=◌,
  Result, ok, err, unwrap, get_elem?, ltb, if◌then◌else◌,
}
use sqa.Base.Words.{sub_u64}
use sqa.Duration.{Duration, new, zero_duration, add_duration, sub_duration, less}
use sqa.AsyncResult.{AsyncResult}
use sqa.AsyncResult
use sqa.ActionManager
use sqa.Actions.{PlaybackState}
use sqa.Actions.Durations.{DurationInfoInt, nanos_to_dur}
use sqa.Engine.Param.{new_cells, new_with_id}
use sqa.Engine.Sender.{Memory, update}
use sqa.Engine.Context.{PlainSender}
use sqa.Backend.{FadeController, FadeRunning, Context, Crates, change_state}
use sqa.Backend.Audio
use sqa.Backend.Fade.{apply_fade_to_sdr, apply_fades, freeze_sdrs, target_senders}

-- A number of nanoseconds as seconds and the rest.
abbrev pub apart : ℕ → Duration
apart delta = new (delta / 1000000000) (delta % 1000000000)

-- What is left of a fade that started `late` ago; the flag tells that it is over.
abbrev pub rest_of : Bool → Duration → Duration → Outcome Duration
rest_of true dur late = done zero_duration
rest_of false dur late = sub_duration dur late

-- How long the timer of a fade runs: until it ends, by its start and the clock.
unfoldable pub wait_time : ℕ → ℕ → Duration → Outcome Duration
unfolding add_duration sub_duration less new
wait_time time now dur =
    if ltb now time
    then add_duration dur (apart (time - now))
    else rest_of (less dur (apart (now - time))) dur (apart (now - time))

module _ {J X P F : Type 0} (k : Crates J X P F) where
  abbrev pub Returns : Type 0 → Type 0
  Returns A = Outcome (FadeController F × Context J X P F × A)

  unfoldable pub poll : FadeController F → Context J X P F → ℕ → Returns Bool
  unfolding AsyncResult.poll AsyncResult.is_complete change_state
  poll c s uuid =
      let timeout = (AsyncResult.poll (k.poll_timer s.now) c.timeout).0 in
      let c' = record c { timeout = timeout } in
      if AsyncResult.is_complete timeout
      then done (c', change_state s uuid PlaybackState.inactive, false)
      else done (c', s, true)

  abbrev pub after_freeze : FadeController F → Context J X P F × Result (Unit {0}) → Returns Bool
  after_freeze c (s, ok u) = done (record c { timeout = AsyncResult.empty }, s, true)
  after_freeze c (s, err e) = done (c, s, false)

  unfoldable pub pause : FadeController F → Context J X P F → Returns Bool
  unfolding freeze_sdrs
  pause c s = freeze_sdrs k c s >>= after_freeze c

  unfoldable pub reset :
      FadeController F → Context J X P F → Outcome (FadeController F × Context J X P F)
  unfolding freeze_sdrs
  reset c s = do
    r ← freeze_sdrs k (record c { timeout = AsyncResult.empty }) s
    done (record c { timeout = AsyncResult.empty; rd = none }, r.0)

  -- When a fade that is resumed started.
  abbrev pub started : Option FadeRunning → ℕ → ℕ
  started none time = time
  started (some rd) time = rd.start_time

  -- The fades start; `idp` and the cells of the first, unused details are at new locations.
  unfoldable pub start_fades :
      FadeController F → Memory → ℕ → List PlainSender → Outcome (FadeController F × Memory)
  unfolding apply_fade_to_sdr apply_fades update new_with_id
  start_fades c m time senders = do
    let idp = m.next
    let gt = started c.rd time
    let fd = new_with_id k.f k.f.zero_f k.f.zero_f (m.next + 1) (m.next + 2)
    let m' = record m { fades = update m.fades (m.next + 2) new_cells; next = m.next + 3 }
    let c' = record c { rd = some (record { params = c.params; start_time = time; fd = fd }) }
    st ←
        (if c.params.fade_master.0
          then elim (get_elem? senders 0) [
            | none ↦ done (c', m')
            | some sdr ↦ apply_fade_to_sdr k true c.params.fade_master.1 sdr idp time gt (c', m')
          ]
          else done (c', m'))
    apply_fades k c.params.fades 0 senders idp time gt st

  abbrev pub perform : FadeController F → Context J X P F → ℕ → Result F → Returns (Result Bool)
  perform c s uuid (err e) = done (c, s, err e)
  perform c s uuid (ok t) = done (
    record c { timeout = (AsyncResult.poll (k.poll_timer s.now) (AsyncResult.waiting t)).0 },
    record s { actions = ActionManager.register_interest s.actions uuid },
    ok false,
  )

  -- A timer for the rest of the fade; without a handle it is a panic.
  unfoldable pub start_timer :
      FadeController F → Context J X P F → ℕ → Duration → Returns (Result Bool)
  unfolding AsyncResult.poll ActionManager.register_interest less
  start_timer c s uuid dur =
      if less zero_duration dur
      then elim s.handle [ false ↦ panic | true ↦ perform c s uuid (k.new_timer s.now dur) ]
      else done (c, s, ok true)

  unfoldable pub execute_on :
      FadeController F → ℕ → Context J X P F → ℕ → Result (List PlainSender) → Returns (Result Bool)
  unfolding start_fades start_timer wait_time Audio.memory Audio.with_memory
  execute_on c time s uuid (err e) = done (c, s, err e)
  execute_on c time s uuid (ok senders) = do
    st ← start_fades c (Audio.memory s) time senders
    dur ← wait_time time s.now st.0.params.dur
    start_timer st.0 (Audio.with_memory s st.1) uuid dur

  unfoldable pub execute : FadeController F → ℕ → Context J X P F → ℕ → Returns (Result Bool)
  unfolding execute_on ActionManager.get
  execute c time s uuid = do
    target ← unwrap c.params.target
    execute_on c time s uuid (target_senders (ActionManager.get s.actions target))

  unfoldable pub duration_info :
      FadeController F → Context J X P F → Outcome (Option DurationInfoInt)
  unfolding nanos_to_dur sub_u64 Audio.memory
  duration_info c s = elim c.rd [
    | none ↦ done none
    | some rd ↦
        let start = ((Audio.memory s).fades rd.fd.cells).start_time in
        (if ltb s.now start then done 0 else sub_u64 s.now start) >>= λ delta. done (
          some (record {
            duration = nanos_to_dur delta;
            start_time = start;
            est_duration = some rd.params.dur;
          }))
  ]
