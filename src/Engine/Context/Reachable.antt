-- ===== src/Engine/Context/Reachable.antt =====
-- The engine and the audio thread run together: the calls of the main thread and the callbacks of
-- the audio thread, in any order (sqa-engine/src/lib.rs and thread.rs).
use sqa.Base.{Bool, ℕ, ◌≡◌, refl, sym, ap, ◌∙◌, Option, List, [], ◌∷◌, String, Outcome, done, ◌>>=◌}
use sqa.Base.Float.{FloatOps}
use sqa.Engine.{ArrayVec, ArrayVecLaws, Spsc, SpscLaws, EngineResult}
use sqa.Engine.Sender.{Memory}
use sqa.Engine.Thread.{DeviceContext, AudioThreadCommand, handle}
use sqa.Engine.Thread.Process.{JackCallbackContext}
use sqa.Engine.Thread.Callbacks.{process}
use sqa.Engine.Context.{Jack, System, new_channel, remove_channel, new_sender_ext}
use sqa.Engine.Context.Layout.{IsValid, empty-IsValid}
use sqa.Engine.Context.Ports.{layout}
use sqa.Engine.Context.Steps.{
  Mirrors, Mirrors-IsValid, Mirrors-opens, Mirrors-closes, Mirrors-adds, Mirrors-calls_back,
}
use sqa.Engine.Context.Mirror.{device_layout, effects, AllSound, handle-effect}

abbrev pub handle_all :
    ArrayVec
    → Spsc
    → List AudioThreadCommand
    → DeviceContext
    → Memory
    → Outcome (DeviceContext × Memory)
handle_all v q [] d m = done (d, m)
handle_all v q (c ∷ cs) d m = handle v q d m c >>= λ r. handle_all v q cs r.0 r.1

module _ {J : Type 0} (v : ArrayVec) (q : Spsc) (jack : Jack J) (f : FloatOps) (usize_max : ℕ) where
  -- One step of the whole: a call of the main thread, or a callback of the audio thread.
  pub data Step : System J → System J → Type 0 where
    opens :
        {s s' : System J} (name : String) {r : EngineResult ℕ}
        → new_channel v q jack s name ≡ done (s', r)
        → Step s s'
    closes :
        {s s' : System J} (idx : ℕ) {r : EngineResult (Unit {0})}
        → remove_channel v q jack s idx ≡ done (s', r)
        → Step s s'
    adds :
        {s : System J} (sample_rate : ℕ) (master_vol : Option ℕ) (uu : ℕ)
        → Step s (new_sender_ext v q jack f usize_max s sample_rate master_vol uu).0
    calls_back :
        {s : System J} (time : ℕ) (out : JackCallbackContext) {out' : JackCallbackContext}
        {woken : Bool} {d : DeviceContext} {m : Memory}
        → process f v q time s.dev s.mem out ≡ done (d, m, out', woken)
        → Step s (record s { dev = d; mem = m })

  pub data Reach (start : System J) : System J → Type 0 where
    here : Reach start start
    next : {s s' : System J} → Reach start s → Step s s' → Reach start s'

  module _ (laws : ArrayVecLaws v) (queue : SpscLaws q) where
    Mirrors-Step : {s s' : System J} → Step s s' → Mirrors s → Mirrors s'
    Mirrors-Step {s} {s'} (opens name {r} h) m =
        Mirrors-opens v q jack f usize_max laws queue s s' name r m h
    Mirrors-Step {s} {s'} (closes idx {r} h) m =
        Mirrors-closes v q jack f usize_max laws queue s s' idx r m h
    Mirrors-Step {s} (adds sample_rate master_vol uu) m =
        Mirrors-adds v q jack f usize_max laws queue s sample_rate master_vol uu m
    Mirrors-Step {s} (calls_back time out {out'} {woken} {d} {m = mem} h) m =
        Mirrors-calls_back v q jack f usize_max laws queue s time out out' woken d mem m h

    Mirrors-Reach : {start s : System J} → Mirrors start → Reach start s → Mirrors s
    Mirrors-Reach m here = m
    Mirrors-Reach m (next r t) = Mirrors-Step t (Mirrors-Reach m r)

    -- The queued commands, handled one after the other.
    handle_all-effects :
        (cs : List AudioThreadCommand) (d : DeviceContext) (m : Memory)
        → AllSound cs (device_layout d)
        → (d' : DeviceContext) × (m' : Memory) × (handle_all v q cs d m ≡ done (d', m'))
          × (device_layout d' ≡ effects cs (device_layout d))
    handle_all-effects [] d m a = (d, m, refl, refl)
    handle_all-effects (c ∷ cs) d m (w, g, a) =
        let (d', m', e, l, k) = handle-effect v q laws d m c w g in
        let (d'', m'', e', l') = handle_all-effects cs d' m' (rw l a) in
        (d'', m'', rw e e', l' ∙ ap (effects cs) l)

    -- From an engine without channels, whatever calls open and close channels and add streams, and
    -- whenever callbacks of the audio thread come in between: the holes are the vacant places, each
    -- listed once, fewer places than the limit are in use, and handling the commands still queued
    -- does not panic and leaves the audio thread with the ports of the engine, at the same places.
    pub handle_all-Reach :
        {start s : System J}
        → layout start ≡ ([], [])
        → device_layout start.dev ≡ ([], [])
        → start.dev.control ≡ []
        → Reach start s
        → IsValid (layout s)
          × ((d : DeviceContext) × (m : Memory) × (handle_all v q s.dev.control s.dev s.mem
                ≡ done (d, m))
              × (device_layout d ≡ layout s))
    handle_all-Reach {start} {s} e n c r =
        let m = Mirrors-Reach (rw (c, n) empty-IsValid, rw (c, n) (sym e)) r in
        let (d', m', h, l) = handle_all-effects s.dev.control s.dev s.mem m.0 in
        (Mirrors-IsValid v q jack f usize_max laws queue s m, (d', m', h, l ∙ m.1))
