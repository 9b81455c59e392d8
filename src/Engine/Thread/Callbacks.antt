-- ===== src/Engine/Thread/Callbacks.antt =====
-- The callbacks `process` and `xrun` of the audio thread (sqa-engine/src/thread.rs), with the
-- silence in the channels that no player wrote to.
use sqa.Base.{
  ℕ, Bool, ◌&&◌, not, Option, none, some, List, [], ◌∷◌, map, length, Outcome, done, ◌>>=◌, ltb,
  ◌==◌, if◌then◌else◌,
}
use sqa.Base.Float.{F32, FloatOps}
use sqa.Base.HashMap
use sqa.Engine.{ArrayVec, Spsc}
use sqa.Engine.Sender.{Memory}
use sqa.Engine.Sync.{AudioThreadMessage, init, send, notify}
use sqa.Engine.Thread.{DeviceContext, DeviceChannel, AudioThreadCommand, handle}
use sqa.Engine.Thread.Process.{JackCallbackContext, Callback, process_players, remove_dead}

module _ (f : FloatOps) (v : ArrayVec) (q : Spsc) where
  abbrev pub silence : List F32 → List F32
  silence = map (λ _. f.zero_f)

  -- A channel that was written to, but not in this callback, is silenced once.
  unfoldable pub zero_channel :
      ℕ → JackCallbackContext → DeviceChannel → JackCallbackContext × DeviceChannel
  unfolding HashMap.get HashMap.insert
  zero_channel time out ch =
      if not (ch.written_t == time) && ltb ch.zeroed_t ch.written_t
      then (
        elim (HashMap.get ch.port out.buffers) [
          | none ↦ out
          | some buf ↦ record out { buffers = HashMap.insert ch.port (silence buf) out.buffers }
        ],
        record ch { zeroed_t = time },
      )
      else (out, ch)

  unfoldable pub zero_channels :
      ℕ
      → JackCallbackContext
      → List (Option DeviceChannel)
      → JackCallbackContext × List (Option DeviceChannel)
  unfolding zero_channel
  zero_channels time out [] = (out, [])
  zero_channels time out (none ∷ chans) =
      let (out', rest) = zero_channels time out chans in (out', none ∷ rest)
  zero_channels time out (some ch ∷ chans) =
      let (out', ch') = zero_channel time out ch in
      let (out'', rest) = zero_channels time out' chans in (out'', some ch' ∷ rest)

  -- At most one command is handled in a callback.
  unfoldable pub handle_next :
      DeviceContext
      → Memory
      → List AudioThreadCommand × Option AudioThreadCommand
      → Outcome (DeviceContext × Memory)
  unfolding handle
  handle_next d m (control, none) = done (record d { control = control }, m)
  handle_next d m (control, some cmd) = handle v q (record d { control = control }) m cmd

  -- The second part tells whether the main thread is woken.
  unfoldable pub process :
      ℕ
      → DeviceContext
      → Memory
      → JackCallbackContext
      → Outcome (DeviceContext × Memory × JackCallbackContext × Bool)
  unfolding handle_next process_players remove_dead zero_channels init notify
  process time d m out = do
    r ← handle_next (record d { sender = init q d.sender time }) m (q.try_pop d.control)
    let start : Callback = record { dev = r.0; mem = r.1; out = out }
    found ← process_players f v q time (length r.0.players) 0 start none
    c ← remove_dead f v q found.0 found.1
    let (out', chans) = zero_channels time c.out c.dev.chans
    let dev = record c.dev { chans = chans }
    done (dev, c.mem, out', notify q dev.sender)

  unfoldable pub on_xrun : DeviceContext → DeviceContext × Bool
  unfolding init send notify
  on_xrun d =
      let s = send q (init q d.sender 0) AudioThreadMessage.xrun in
      (record d { sender = s }, notify q s)
