-- ===== src/Engine/Context/Steps.antt =====
-- How each call of the main thread and each callback of the audio thread keeps the two sides in
-- step: the commands still queued lead from the audio thread's layout to the engine's
-- (sqa-engine/src/lib.rs and thread.rs).
use sqa.Base.{
  >>=-eq-done, done-inj, Bool, ℕ, zero, suc, ◌≡◌, ◌≢◌, ◌⊎◌, inl, inr, refl, sym, ap, subst, ◌∙◌,
  Option, none, some, List, [], ◌∷◌, ◌++◌, String, done, get_elem?, length,
}
use sqa.Base.Float.{FloatOps}
use sqa.Engine.{ArrayVec, ArrayVecLaws, Spsc, SpscLaws, EngineResult}
use sqa.Engine.Sender.{Memory}
use sqa.Engine.Thread.{DeviceContext, AudioThreadCommand}
use sqa.Engine.Sync.{init}
use sqa.Engine.Thread.Process.{JackCallbackContext, Callback, process_players, remove_dead}
use sqa.Engine.Thread.Callbacks.{handle_next, zero_channels, process}
use sqa.Engine.Context.Callbacks.{process_players-Same, remove_dead-Laid, zero_channels-ports}
use sqa.Engine.Context.{
  Jack, System, command, with_conn, new_channel, remove_channel, new_sender_ext,
}
use sqa.Engine.Context.Layout.{Layout, add, take_out, IsValid}
use sqa.Engine.Context.Ports.{
  layout, with_layout, Opened, new_channel-opens, remove_channel-closes, remove_channel-refuses,
}
use sqa.Engine.Context.Mirror.{device_layout, effect, effects, Sound, AllSound, handle-effect}

AllSound-push :
    (cs : List AudioThreadCommand) (c : AudioThreadCommand) (l : Layout)
    → AllSound cs l
    → Sound c (effects cs l)
    → IsValid (effect c (effects cs l))
    → AllSound (cs ++ c ∷ []) l × (effects (cs ++ c ∷ []) l ≡ effect c (effects cs l))
AllSound-push [] c l a g w = ((a, g, w), refl)
AllSound-push (b ∷ cs) c l (w, h, a) g u =
    let (x, y) = AllSound-push cs c (effect b l) a g u in ((w, h, x), y)

AllSound-IsValid :
    (cs : List AudioThreadCommand) (l : Layout) → AllSound cs l → IsValid (effects cs l)
AllSound-IsValid [] l a = a
AllSound-IsValid (c ∷ cs) l (w, h, a) = AllSound-IsValid cs (effect c l) a

-- The queued commands are sound, and lead from the audio thread's layout to the engine's.
abbrev pub Mirrors : {J : Type 0} → System J → Type 0
Mirrors s =
    AllSound s.dev.control (device_layout s.dev)
    × (effects s.dev.control (device_layout s.dev) ≡ layout s)

open-cases :
    (chans : List (Option ℕ)) (i : ℕ)
    → ((port : ℕ) × (get_elem? chans i ≡ some (some port)))
      ⊎ ((port : ℕ) → get_elem? chans i ≢ some (some port))
open-cases [] i = inr (λ port e. cc)
open-cases (none ∷ chans) zero = inr (λ port e. cc)
open-cases (some p ∷ chans) zero = inl (p, refl)
open-cases (c ∷ chans) (suc i) = open-cases chans i

module _ {J : Type 0} (v : ArrayVec) (q : Spsc) (jack : Jack J) (f : FloatOps) (usize_max : ℕ) where
  module _ (laws : ArrayVecLaws v) (queue : SpscLaws q) where
    Mirrors-command :
        (s : System J) (conn : J) (c : AudioThreadCommand) (l : Layout)
        → Mirrors s
        → Sound c (layout s)
        → IsValid l
        → l ≡ effect c (layout s)
        → Mirrors (command v q jack (with_layout (with_conn v q jack s conn) l) c)
    unfolding command with_conn
    Mirrors-command s conn c l (a, e) g w n = rw (queue.push_end s.dev.control c) (
        let (x, y) =
          AllSound-push s.dev.control c (device_layout s.dev) a (rw e g)
            (subst IsValid (n ∙ ap (effect c) (sym e)) w) in
        (x, y ∙ ap (effect c) e ∙ sym n))

    pub Mirrors-IsValid : (s : System J) → Mirrors s → IsValid (layout s)
    Mirrors-IsValid s (a, e) =
        subst IsValid e (AllSound-IsValid s.dev.control (device_layout s.dev) a)

    Mirrors-Opened :
        (s s' : System J) (found : J × EngineResult ℕ) (r : EngineResult ℕ)
        → Mirrors s
        → Opened v q jack s found s' r
        → IsValid (layout s')
        → Mirrors s'
    unfolding command with_conn
    Mirrors-Opened s s' (conn, EngineResult.success port) r m (inr (f, k, n)) u =
        subst Mirrors (sym n) (
          Mirrors-command s conn (AudioThreadCommand.add_channel port) (add port (layout s)) m
            (Mirrors-IsValid s m).bounded (subst IsValid (ap layout n) u) refl)
    Mirrors-Opened s s' (conn, EngineResult.success port) r m (inl (f, k, n)) u =
        subst Mirrors (sym n) m
    Mirrors-Opened s s' (conn, EngineResult.failure e) r m (k, n) u = subst Mirrors (sym n) m

    pub Mirrors-opens :
        (s s' : System J) (name : String) (r : EngineResult ℕ)
        → Mirrors s
        → new_channel v q jack s name ≡ done (s', r)
        → Mirrors s'
    Mirrors-opens s s' name r m h =
        let (t, x, e, o, u) = new_channel-opens v q jack laws s name (Mirrors-IsValid s m) in
        let same : t ≡ s' = cc in
        subst Mirrors same (Mirrors-Opened s t (jack.register_port s.engine.conn name) x m o u)

    pub Mirrors-closes :
        (s s' : System J) (idx : ℕ) (r : EngineResult (Unit {0}))
        → Mirrors s
        → remove_channel v q jack s idx ≡ done (s', r)
        → Mirrors s'
    unfolding command with_conn
    Mirrors-closes s s' idx r m h = elim (open-cases s.engine.chans idx) [
      | inl (port, at) ↦
          let (t, x, e, n, u) =
            remove_channel-closes v q jack laws s idx port (Mirrors-IsValid s m) at in
          let same : t ≡ s' = cc in
          subst Mirrors (sym n ∙ same) (
            Mirrors-command s t.engine.conn (AudioThreadCommand.remove_channel idx)
              (take_out idx (layout s)) m (port, at) (subst IsValid (ap layout n) u) refl)
      | inr shut ↦
          let e = remove_channel-refuses v q jack laws s idx (Mirrors-IsValid s m) shut in
          let same : s ≡ s' = cc in subst Mirrors same m
    ]

    pub Mirrors-adds :
        (s : System J) (sample_rate : ℕ) (master_vol : Option ℕ) (uu : ℕ)
        → Mirrors s
        → Mirrors (new_sender_ext v q jack f usize_max s sample_rate master_vol uu).0
    unfolding new_sender_ext command with_conn
    Mirrors-adds s sample_rate master_vol uu m =
        Mirrors-command
          (record s {
            mem = (new_sender_ext v q jack f usize_max s sample_rate master_vol uu).0.mem;
          })
          s.engine.conn (AudioThreadCommand.add_player _) (layout s) m tt (Mirrors-IsValid s m) refl

    Mirrors-handles :
        (s : System J) (d : DeviceContext) (mem : Memory) (control : List AudioThreadCommand)
        → s.dev.control ≡ control
        → Mirrors s
        → handle_next f v q s.dev s.mem (q.try_pop control) ≡ done (d, mem)
        → Mirrors (record s { dev = d; mem = mem })
    unfolding handle_next
    Mirrors-handles s d mem [] e (a, n) h =
        let h' = rw (queue.try_pop_empty {A = AudioThreadCommand}) at h in
        let same : record s.dev { control = [] } ≡ d = cc in
        subst (λ x. Mirrors (record s { dev = x; mem = mem })) same
          (
            subst (λ cs. AllSound cs (device_layout s.dev)) e a,
            subst (λ cs. effects cs (device_layout s.dev) ≡ layout s) e n,
          )
    Mirrors-handles s d mem (c ∷ cs) e (a, n) h =
        let h' = rw (queue.try_pop_front {A = AudioThreadCommand} c cs) at h in
        let (w, g, rest) = subst (λ xs. AllSound xs (device_layout s.dev)) e a in
        let (d', m', h'', l, k) =
          handle-effect v q laws (record s.dev { control = cs }) s.mem c w g in
        let same : d' ≡ d = cc in
        subst (λ x. Mirrors (record s { dev = x; mem = mem })) same
          (
            rw (k, l) rest,
            rw (k, l) (subst (λ xs. effects xs (device_layout s.dev) ≡ layout s) e n),
          )

    Mirrors-same :
        (s : System J) (d d' : DeviceContext) (mem mem' : Memory)
        → device_layout d' ≡ device_layout d
        → d'.control ≡ d.control
        → Mirrors (record s { dev = d; mem = mem })
        → Mirrors (record s { dev = d'; mem = mem' })
    Mirrors-same s d d' mem mem' l k (a, n) = (rw (k, l) a, rw (k, l) n)

    pub Mirrors-calls_back :
        (s : System J) (time : ℕ) (out out' : JackCallbackContext) (woken : Bool)
        (d : DeviceContext) (mem : Memory)
        → Mirrors s
        → process f v q time s.dev s.mem out ≡ done (d, mem, out', woken)
        → Mirrors (record s { dev = d; mem = mem })
    unfolding process init
    Mirrors-calls_back s time out out' woken d mem m h =
        let begun : DeviceContext = record s.dev { sender = init q s.dev.sender time } in
        let (r, e, h1) =
          >>=-eq-done (handle_next f v q begun s.mem (q.try_pop s.dev.control)) _ h in
        let start : Callback = record { dev = r.0; mem = r.1; out = out } in
        let (found, g, h2) =
          >>=-eq-done (process_players f v q time (length r.0.players) 0 start none) _ h1 in
        let (c, k, h3) = >>=-eq-done (remove_dead f v q found.0 found.1) _ h2 in
        let handled = Mirrors-handles (record s { dev = begun }) r.0 r.1 s.dev.control refl m e in
        let (l1, k1, n1, p1) =
          process_players-Same f v q time (length r.0.players) 0 start found.0 none found.1 g in
        let (l2, k2) = remove_dead-Laid f v q found.0 c found.1 k in
        let ports = zero_channels-ports f v q time c.out c.dev.chans in
        let last : record c.dev { chans = (zero_channels f v q time c.out c.dev.chans).1 } ≡ d =
          ap (λ x. x.0) (done-inj h3) in
        subst (λ x. Mirrors (record s { dev = x; mem = mem })) last
          (Mirrors-same s r.0
            (record c.dev { chans = (zero_channels f v q time c.out c.dev.chans).1 }) r.1 mem
            (ap (λ ps. (ps, c.dev.holes)) ports ∙ l2 ∙ l1) (k2 ∙ k1) handled)
