-- ===== src/Engine/Tests.antt =====
-- The theorems on the engine with concrete crates, a concrete connection and a concrete processor.
use sqa.Base.{Bool, Outcome, ℕ, ◌^◌, ◌<◌, ◌≤◌, ◌≡◌, refl, false, some, [], ◌∷◌, arith, done, panic}
use sqa.Base.Words.{sub_u64}
use sqa.Duration.{total}
use sqa.Engine.{EngineResult}
use sqa.Engine.Concrete.{
  vectors, vectors-laws, queues, queues-laws, numbering, floats, quiet, empty_system, one_channel,
  after_callback, no_buffers, device,
}
use sqa.Engine.Param.{FadeCells, new_cells, set_duration, duration, duration-set_duration}
use sqa.Engine.Sender.{Memory}
use sqa.Engine.Thread.{DeviceContext, AudioThreadCommand}
use sqa.Engine.Thread.Process.{JackCallbackContext}
use sqa.Engine.Thread.Callbacks.{process}
use sqa.Engine.Context.{System, command, with_conn, new_channel, remove_channel}
use sqa.Engine.Context.Layout.{take_out, IsValid}
use sqa.Engine.Context.Ports.{layout, with_layout, Opened, new_channel-opens, remove_channel-closes}
use sqa.Engine.Context.Mirror.{device_layout}
use sqa.Engine.Context.Counted.{Counted, process-Counted}
use sqa.Engine.Context.Reachable.{Step, Reach, handle_all, handle_all-Reach}

opened-Step : Step vectors queues numbering floats 1000 empty_system one_channel
unfolding new_channel sub_u64
opened-Step = Step.opens "left" refl

called-Step : Step vectors queues numbering floats 1000 one_channel after_callback
unfolding process
called-Step = Step.calls_back 7 no_buffers {out' = no_buffers} {woken = false} refl

after_callback-Reach : Reach vectors queues numbering floats 1000 empty_system after_callback
after_callback-Reach = Reach.next (Reach.next Reach.here opened-Step) called-Step

handle_all-Reach_example :
    IsValid (layout after_callback)
    × ((d : DeviceContext) × (m : Memory) × (handle_all vectors queues [] after_callback.dev quiet
          ≡ done (d, m))
        × (device_layout d ≡ (some 0 ∷ [], [])))
handle_all-Reach_example =
    handle_all-Reach vectors queues numbering floats 1000 vectors-laws queues-laws refl refl refl
      after_callback-Reach

one_channel-IsValid : IsValid (layout after_callback)
one_channel-IsValid = handle_all-Reach_example.0

new_channel-opens_example :
    (s' : System ℕ) × (r : EngineResult ℕ) × (new_channel vectors queues numbering after_callback
        "right"
      ≡ done (s', r))
    × Opened vectors queues numbering after_callback
        (numbering.register_port after_callback.engine.conn "right")
        s'
        r
    × IsValid (layout s')
new_channel-opens_example =
    new_channel-opens vectors queues numbering vectors-laws after_callback "right"
      one_channel-IsValid

remove_channel-closes_example :
    (s' : System ℕ) × (r : EngineResult (Unit {0})) × (remove_channel vectors queues numbering
        after_callback 0
      ≡ done (s', r))
    × (s'
        ≡ command vectors queues numbering
            (with_layout
              (with_conn vectors queues numbering after_callback s'.engine.conn)
              (take_out 0 (layout after_callback)))
            (AudioThreadCommand.remove_channel 0))
    × IsValid (layout s')
remove_channel-closes_example =
    remove_channel-closes vectors queues numbering vectors-laws after_callback 0 0
      one_channel-IsValid refl

duration-set_duration_example :
    (total (record { secs = 2; nanos = 5 }) < 2 ^ 64
      → (c' : FadeCells) × (set_duration new_cells (record { secs = 2; nanos = 5 }) ≡ done c')
        × (duration c' ≡ record { secs = 2; nanos = 5 })
        × (c'.start_time ≡ 0)
        × (c'.active ≡ false))
    × (2 ^ 64 ≤ total (record { secs = 2; nanos = 5 })
        → set_duration new_cells (record { secs = 2; nanos = 5 }) ≡ panic)
duration-set_duration_example =
    duration-set_duration new_cells (record { secs = 2; nanos = 5 }) (omega arith)

-- An audio thread that is asked to add a player.
abbrev asked : DeviceContext
asked =
    device []
      (AudioThreadCommand.add_player (record {
        buf = [];
        capacity = 100000;
        sample_rate = 48000;
        cells = 4;
        master_vol = 4;
        uuid = 12;
        half_sent = false;
        empty_sent = false;
      })
        ∷ [])
      1

abbrev dev_in :
    DeviceContext
    → Outcome (DeviceContext × Memory × JackCallbackContext × Bool)
    → DeviceContext × Memory × JackCallbackContext × Bool
dev_in d (done r) = r
dev_in d panic = (d, quiet, no_buffers, false)

abbrev answered : DeviceContext × Memory × JackCallbackContext × Bool
answered = dev_in asked (process floats vectors queues 7 asked quiet no_buffers)

answered_lem : process floats vectors queues 7 asked quiet no_buffers ≡ done answered
unfolding process
answered_lem = refl

answered_length : answered.0.length ≡ 1
unfolding process
answered_length = refl

process-Counted_example : Counted answered.0
process-Counted_example =
    process-Counted vectors vectors-laws floats queues 7 asked answered.0 quiet answered.1
      no_buffers answered.2 answered.3 (refl, omega arith) answered_lem
