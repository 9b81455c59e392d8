-- ===== src/Engine/Thread/Process.antt =====
-- The callback `process` and `xrun` of the audio thread (sqa-engine/src/thread.rs).
use sqa.Base.{
  ℕ, zero, suc, ◌+◌, ◌-◌, ◌*◌, ◌/◌, Bool, true, false, ◌&&◌, ◌||◌, not, Option, none, some, List,
  [], ◌∷◌, length, get_elem?, set, Outcome, done, panic, ◌>>=◌, unwrap, ltb, leb, ◌==◌, is_some,
  if◌then◌else◌,
}
use sqa.Base.Float.{F32, FloatOps}
use sqa.Base.HashMap
use sqa.Base.HashMap.{HashMap}
use sqa.Base.Words.{mul_u64}
use sqa.Engine.{ArrayVec, Spsc, one_second_in_nanoseconds}
use sqa.Engine.Param.{get}
use sqa.Engine.Sender.{Memory, StreamCells, store}
use sqa.Engine.Sync.{AudioThreadMessage, send}
use sqa.Engine.Thread.{DeviceContext, DeviceChannel}
use sqa.Engine.Thread.Players.{Player}

-- What JACK hands to the callback: the buffers of the ports, each of `nframes` samples.
pub record JackCallbackContext : Type 0 where
  pub nframes : ℕ
  pub buffers : HashMap (List F32)

-- What the callback works on beside the player in hand.
pub record Callback : Type 0 where
  pub dev : DeviceContext
  pub mem : Memory
  pub out : JackCallbackContext

-- The channel that the player is patched to, if there is one.
abbrev pub channel_at : List (Option DeviceChannel) → ℕ → Option DeviceChannel
channel_at chans i = elim (get_elem? chans i) [ none ↦ none | some ch ↦ ch ]

module _ (f : FloatOps) (v : ArrayVec) (q : Spsc) where
  -- A sample is kept between -1 and 1.
  unfoldable pub clip : F32 → F32
  clip x =
      let y = if f.gt x f.one_f then f.one_f else x in if f.gt f.neg_one_f y then f.neg_one_f else y

  unfoldable pub mix_sample : Bool → F32 → F32 → F32 → F32 → F32
  unfolding clip
  mix_sample written vol master_vol x sample =
      let y = f.mul (f.mul sample vol) master_vol in clip (if written then f.add x y else y)

  -- The buffer of the port, what is left of the player's, and how many samples were played.
  unfoldable pub mix : Bool → F32 → F32 → List F32 → List F32 → List F32 × List F32 × ℕ
  unfolding mix_sample
  mix written vol master_vol [] buf = ([], buf, 0)
  mix written vol master_vol (x ∷ xs) buf =
      let (rest, popped) = q.try_pop buf in
      let (ys, left, n) = mix written vol master_vol xs rest in
      elim popped [
        | none ↦ (x ∷ ys, left, n)
        | some sample ↦ (mix_sample written vol master_vol x sample ∷ ys, left, suc n)
      ]

  unfoldable pub put_player : Callback → ℕ → Player → Callback
  put_player c i p = record c { dev = record c.dev { players = set c.dev.players i p } }

  unfoldable pub message : Callback → AudioThreadMessage Player → Callback
  unfolding send
  message c msg = record c { dev = record c.dev { sender = send q c.dev.sender msg } }

  unfoldable pub write : Callback → Player → StreamCells → Callback
  unfolding store
  write c p cells = record c { mem = store c.mem p.cells cells }

  -- Mixes into the buffer of the channel's port, if JACK gives one.
  unfoldable pub play : ℕ → Callback → ℕ → Player → ℕ → ℕ → DeviceChannel → F32 → F32 → Callback
  unfolding mix put_player write HashMap.get HashMap.insert
  play time c i p outpatch pos ch vol master_vol =
      let cells = c.mem.streams p.cells in
      elim (HashMap.get ch.port c.out.buffers) [
        | none ↦ write (put_player c i p) p (record cells { position = pos })
        | some buf ↦
            let (ys, left, n) = mix (time == ch.written_t) vol master_vol buf p.buf in
            let c' =
              write (put_player c i (record p { buf = left })) p
                (record cells { position = pos + n }) in
            record c' {
              dev = record c'.dev {
                chans = set c'.dev.chans outpatch (some (record ch { written_t = time }));
              };
              out = record c'.out { buffers = HashMap.insert ch.port ys c'.out.buffers };
            }
      ]

  unfoldable pub play_patched : ℕ → Callback → ℕ → Player → ℕ → Outcome Callback
  unfolding play message write put_player get
  play_patched time c i p pos =
      let cells = c.mem.streams p.cells in
      elim (channel_at c.dev.chans cells.output_patch) [
        | none ↦ done (
            write (message (put_player c i p) (AudioThreadMessage.player_invalid_outpatch p.uuid)) p
              (record cells { active = false }))
        | some ch ↦ get f c.mem.fades cells.volume time >>= λ vol.
            get f c.mem.fades (c.mem.masters p.master_vol) time >>= λ master_vol.
            done (play time c i p cells.output_patch pos ch vol master_vol)
      ]

  -- The notice that the buffer is half empty is sent once, until the buffer is fuller again.
  unfoldable pub notice_half : Callback → Player → Callback × Player
  unfolding message
  notice_half c p =
      if ltb (length p.buf * 2) p.capacity && not p.half_sent
      then (message c (AudioThreadMessage.player_buf_half p.uuid), record p { half_sent = true })
      else if leb p.capacity (length p.buf * 2) && p.half_sent
      then (c, record p { half_sent = false })
      else (c, p)

  -- A buffer with too few samples: the player dies, or says once that it is empty.
  unfoldable pub starve : Callback → ℕ → Player → ℕ → Callback
  unfolding message write put_player
  starve c i p pos =
      let cells = record (c.mem.streams p.cells) { position = pos } in
      if cells.kill_when_empty
      then write (put_player c i p) p (record cells { alive = false })
      else if not p.empty_sent
      then write
          (message (put_player c i (record p { empty_sent = true }))
            (AudioThreadMessage.player_buf_empty p.uuid))
          p cells
      else write (put_player c i p) p cells

  -- Plays if there is enough in the buffer.
  unfoldable pub play_or_starve : ℕ → Callback → ℕ → Player → ℕ → List F32 × ℕ → Outcome Callback
  unfolding notice_half starve play_patched
  play_or_starve time c i p sample_delta (buf, pos) =
      let p' = record p { buf = buf } in
      if ltb pos sample_delta || ltb (length buf) c.out.nframes
      then done (starve c i p' pos)
      else play_patched time (notice_half c p').0 i (notice_half c p').1 pos

  -- Skips to the position at which the player should be.
  unfoldable pub play_from : ℕ → Callback → ℕ → Player → ℕ → Outcome Callback
  unfolding play_or_starve
  play_from time c i p sample_delta =
      let start = (c.mem.streams p.cells).position in
      let skipped = q.skip_n p.buf (sample_delta - start) in
      play_or_starve time c i p sample_delta
        (if ltb start sample_delta then (skipped.0, start + skipped.1) else (p.buf, start))

  -- One round of the loop over the players, for one that is alive.
  unfoldable pub process_player : ℕ → Callback → ℕ → Player → Outcome Callback
  unfolding play_from write mul_u64
  process_player time c i p =
      let cells = c.mem.streams p.cells in
      if not cells.active
      then done c
      else if ltb time cells.start_time
      then done (write c p (record cells { position = 0 }))
      else (do
        samples ← mul_u64 (time - cells.start_time) c.dev.sample_rate
        play_from time c i p (samples / one_second_in_nanoseconds))

  -- The loop: `n` players are left, the next one is number `i`; it finds the first dead one.
  unfoldable pub process_players : ℕ → ℕ → ℕ → Callback → Option ℕ → Outcome (Callback × Option ℕ)
  unfolding process_player
  process_players time zero i c to_remove = done (c, to_remove)
  process_players time (suc n) i c to_remove = do
    p ← unwrap (get_elem? c.dev.players i)
    let alive = (c.mem.streams p.cells).alive
    c' ← if alive then process_player time c i p else done c
    process_players time n (suc i) c' (if alive || is_some to_remove then to_remove else some i)

  unfoldable pub removed : Callback → List Player × Option Player → Callback
  unfolding message
  removed c (players, none) = record c { dev = record c.dev { players = players } }
  removed c (players, some p) =
      message (record c { dev = record c.dev { players = players } })
        (AudioThreadMessage.player_removed p)

  -- The count of streams less one.
  unfoldable pub lessen : Callback → Outcome Callback
  lessen c = elim c.dev.length [
    | zero ↦ panic
    | suc n ↦ done (record c { dev = record c.dev { length = n } })
  ]

  -- At most one dead player is removed.
  unfoldable pub remove_dead : Callback → Option ℕ → Outcome Callback
  unfolding removed lessen
  remove_dead c none = done c
  remove_dead c (some x) = lessen (removed c (v.swap_remove c.dev.players x))
