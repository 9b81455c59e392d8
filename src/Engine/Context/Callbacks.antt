-- ===== src/Engine/Context/Callbacks.antt =====
-- Playing, removing dead players and silencing leave the audio thread's layout and its queue of
-- commands alone (sqa-engine/src/thread.rs).
use sqa.Base.{
  ℕ, zero, suc, ◌-◌, ◌/◌, ◌≡◌, inl, inr, refl, sym, ap, subst, ◌∙◌, Bool, true, false, Option, none,
  some, List, [], ◌∷◌, map, get_elem?, set, arith, Outcome, length-set, done, panic, ◌>>=◌,
  >>=-eq-done, panic-ne_done, done-inj, Bool-cases, Option-cases, ltb, ◌||◌, not, length, is_some,
  if◌then◌else◌,
}
use sqa.Base.Float.{F32, FloatOps}
use sqa.Base.HashMap
use sqa.Base.Words.{mul_u64}
use sqa.Engine.{ArrayVec, Spsc, one_second_in_nanoseconds}
use sqa.Engine.Param.{get}
use sqa.Engine.Sender.{store}
use sqa.Engine.Thread.{DeviceChannel}
use sqa.Engine.Thread.Players.{Player}
use sqa.Engine.Thread.Process.{
  JackCallbackContext, Callback, put_player, message, write, play, channel_at, play_patched,
  notice_half, starve, play_or_starve, play_from, process_player, process_players, removed, lessen,
  remove_dead,
}
use sqa.Engine.Thread.Callbacks.{zero_channel, zero_channels}
use sqa.Engine.Context.Mirror.{port_of, device_layout}

abbrev pub Same : Callback → Callback → Type 0
Same c c' =
    (device_layout c'.dev ≡ device_layout c.dev)
    × (c'.dev.control ≡ c.dev.control)
    × (c'.dev.length ≡ c.dev.length)
    × (length c'.dev.players ≡ length c.dev.players)

-- The same but for the players.
abbrev pub Laid : Callback → Callback → Type 0
Laid c c' = (device_layout c'.dev ≡ device_layout c.dev) × (c'.dev.control ≡ c.dev.control)

Same-trans : (a b c : Callback) → Same a b → Same b c → Same a c
Same-trans a b c (x, y, n, l) (x', y', n', l') = (x' ∙ x, y' ∙ y, n' ∙ n, l' ∙ l)

set-same :
    (chans : List (Option DeviceChannel)) (i : ℕ) (ch new : DeviceChannel)
    → channel_at chans i ≡ some ch
    → new.port ≡ ch.port
    → map port_of (set chans i (some new)) ≡ map port_of chans
set-same [] i ch new e p = cc
set-same (none ∷ chans) zero ch new e p = cc
set-same (some x ∷ chans) zero ch new e p =
    let same : x ≡ ch = cc in
    ap (λ n. some n ∷ map port_of chans) (p ∙ sym (ap (λ (t : DeviceChannel). t.port) same))
set-same (x ∷ chans) (suc i) ch new e p = ap (port_of x ∷◌) (set-same chans i ch new e p)

module _ (f : FloatOps) (v : ArrayVec) (q : Spsc) where
  play-Same :
      (time : ℕ) (c : Callback) (i : ℕ) (p : Player) (outpatch pos : ℕ) (ch : DeviceChannel)
      (vol master_vol : F32)
      → channel_at c.dev.chans outpatch ≡ some ch
      → Same c (play f v q time c i p outpatch pos ch vol master_vol)
  unfolding play put_player write store
  play-Same time c i p outpatch pos ch vol master_vol e =
      elim (Option-cases (HashMap.get ch.port c.out.buffers)) [
        | inl n ↦ rw (n, play) (refl, refl, refl, length-set c.dev.players i p)
        | inr (buf, n) ↦
            rw (n, play)
              (
                ap (λ n. (n, c.dev.holes))
                    (set-same c.dev.chans outpatch ch (record ch { written_t = time }) e refl),
                refl,
                refl,
                length-set c.dev.players i _,
              )
      ]

  play_patched-Same :
      (time : ℕ) (c c' : Callback) (i : ℕ) (p : Player) (pos : ℕ)
      → play_patched f v q time c i p pos ≡ done c'
      → Same c c'
  unfolding play_patched message write put_player
  play_patched-Same time c c' i p pos h =
      elim (Option-cases (channel_at c.dev.chans (c.mem.streams p.cells).output_patch)) [
        | inl n ↦
            subst (Same c) (done-inj (rw (n, play_patched) at h))
              (refl, refl, refl, length-set c.dev.players i p)
        | inr (ch, n) ↦
            let (vol, e, k) =
              >>=-eq-done (get f c.mem.fades (c.mem.streams p.cells).volume time) _
                (rw (n, play_patched) at h) in
            let (master_vol, d, l) =
              >>=-eq-done (get f c.mem.fades (c.mem.masters p.master_vol) time) _ k in
            subst (Same c) (done-inj l)
              (play-Same time c i p (c.mem.streams p.cells).output_patch pos ch vol master_vol n)
      ]

  starve-Same : (c : Callback) (i : ℕ) (p : Player) (pos : ℕ) → Same c (starve f v q c i p pos)
  unfolding starve message write put_player
  starve-Same c i p pos = ground (
    arith,
    length-set c.dev.players i p,
    length-set c.dev.players i (record p { empty_sent = true }),
  )

  notice_half-Same : (c : Callback) (p : Player) → Same c (notice_half f v q c p).0
  unfolding notice_half message
  notice_half-Same c p = ground arith

  play_or_starve-Same :
      (time : ℕ) (c c' : Callback) (i : ℕ) (p : Player) (sample_delta : ℕ) (r : List F32 × ℕ)
      → play_or_starve f v q time c i p sample_delta r ≡ done c'
      → Same c c'
  unfolding play_or_starve
  play_or_starve-Same time c c' i p sample_delta (buf, pos) h =
      let p' : Player = record p { buf = buf } in
      elim (Bool-cases (ltb pos sample_delta || ltb (length buf) c.out.nframes)) [
        | inl n ↦ subst (Same c) (done-inj (rw (n, play_or_starve) at h)) (starve-Same c i p' pos)
        | inr n ↦ Same-trans c (notice_half f v q c p').0 c' (notice_half-Same c p') (
            play_patched-Same time (notice_half f v q c p').0 c' i (notice_half f v q c p').1 pos
              (rw (n, play_or_starve) at h))
      ]

  play_at-Same :
      (time : ℕ) (c c' : Callback) (i : ℕ) (p : Player) (samples : Outcome ℕ)
      → (samples >>= λ n. play_from f v q time c i p (n / one_second_in_nanoseconds)) ≡ done c'
      → Same c c'
  unfolding play_from
  play_at-Same time c c' i p (done n) h =
      play_or_starve-Same time c c' i p (n / one_second_in_nanoseconds) _ h
  play_at-Same time c c' i p panic h = absurd (panic-ne_done h)

  pub if-Same :
      (c d : Callback) (b : Bool) (m n : Outcome Callback)
      → (m ≡ done d → Same c d)
      → (n ≡ done d → Same c d)
      → (if b then m else n) ≡ done d
      → Same c d
  if-Same c d true m n g g' h = g h
  if-Same c d false m n g g' h = g' h

  pub process_player-Same :
      (time : ℕ) (c c' : Callback) (i : ℕ) (p : Player)
      → process_player f v q time c i p ≡ done c'
      → Same c c'
  unfolding process_player write
  process_player-Same time c c' i p h =
      if-Same c c' (not (c.mem.streams p.cells).active) _ _
        (λ e. subst (Same c) (done-inj e) (refl, refl, refl, refl))
        (λ e.
          if-Same c c' (ltb time (c.mem.streams p.cells).start_time) _ _
            (λ e'. subst (Same c) (done-inj e') (refl, refl, refl, refl))
            (play_at-Same time c c' i p
              (mul_u64 (time - (c.mem.streams p.cells).start_time) c.dev.sample_rate))
            e)
        h

  bind-Same :
      {A : Type 0} (c c' : Callback) (a : A) (m : Outcome Callback)
      (k : Callback → Outcome (Callback × A))
      → ((d : Callback) → m ≡ done d → Same c d)
      → ((d : Callback) → k d ≡ done (c', a) → Same d c')
      → (m >>= k) ≡ done (c', a)
      → Same c c'
  bind-Same c c' a (done d) k g r h = Same-trans c d c' (g d refl) (r d h)
  bind-Same c c' a panic k g r h = absurd (panic-ne_done h)

  pub process_players-Same :
      (time n i : ℕ) (c c' : Callback) (o o' : Option ℕ)
      → process_players f v q time n i c o ≡ done (c', o')
      → Same c c'
  unfolding process_players
  process_players-Same time zero i c c' o o' h =
      subst (Same c) (ap (λ x. x.0) (done-inj h)) (refl, refl, refl, refl)
  process_players-Same time (suc n) i c c' o o' h =
      elim (Option-cases (get_elem? c.dev.players i)) [
        | inl e ↦ absurd (panic-ne_done (rw (e, process_players) at h))
        | inr (p, e) ↦
            bind-Same c c' o'
              (if (c.mem.streams p.cells).alive then process_player f v q time c i p else done c)
              (λ d.
                process_players f v q time n (suc i) d
                  (if (c.mem.streams p.cells).alive || is_some o then o else some i))
              (λ d.
                if-Same c d (c.mem.streams p.cells).alive _ _ (process_player-Same time c d i p)
                  (λ e'. subst (Same c) (done-inj e') (refl, refl, refl, refl)))
              (λ d. process_players-Same time n (suc i) d c' _ o') (rw (e, process_players) at h)
      ]

  removed-Laid : (c : Callback) (r : List Player × Option Player) → Laid c (removed f v q c r)
  unfolding removed message
  removed-Laid c (players, none) = (refl, refl)
  removed-Laid c (players, some p) = (refl, refl)

  pub remove_dead-Laid :
      (c c' : Callback) (o : Option ℕ) → remove_dead f v q c o ≡ done c' → Laid c c'
  unfolding remove_dead
  remove_dead-Laid c c' none h = subst (Laid c) (done-inj h) (refl, refl)
  remove_dead-Laid c c' (some x) h =
      counted (removed f v q c (v.swap_remove c.dev.players x)).dev.length refl
    where
      counted :
          (n : ℕ) → (removed f v q c (v.swap_remove c.dev.players x)).dev.length ≡ n → Laid c c'
      counted zero e = absurd (panic-ne_done (rw (e, lessen, remove_dead) at h))
      counted (suc n) e =
          subst (Laid c) (done-inj (rw (e, lessen, remove_dead) at h))
            (removed-Laid c (v.swap_remove c.dev.players x))

  zero_channel-port :
      (time : ℕ) (out : JackCallbackContext) (ch : DeviceChannel)
      → (zero_channel f v q time out ch).1.port ≡ ch.port
  unfolding zero_channel
  zero_channel-port time out ch = ground arith

  pub zero_channels-ports :
      (time : ℕ) (out : JackCallbackContext) (chans : List (Option DeviceChannel))
      → map port_of (zero_channels f v q time out chans).1 ≡ map port_of chans
  unfolding zero_channels
  zero_channels-ports time out [] = refl
  zero_channels-ports time out (none ∷ chans) = ap (none ∷◌) (zero_channels-ports time out chans)
  zero_channels-ports time out (some ch ∷ chans) =
      rw
        (
          zero_channel-port time out ch,
          zero_channels-ports time (zero_channel f v q time out ch).0 chans,
        )
        refl
