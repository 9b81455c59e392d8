-- ===== src/Backend/Fade/Resume.antt =====
-- What pausing a fade does to the volume that it moves, and where it goes on when it is resumed
-- (sqa-backend/src/actions/fade.rs).
use sqa.Base.{ℕ, ◌+◌, ◌^◌, ◌≤◌, ◌<◌, ◌≡◌, ap, ◌∙◌, sym, subst, Bool, true, some, done, arith}
use sqa.Base.Float.{F32}
use sqa.Duration.{total}
use sqa.Engine.{one_second_in_nanoseconds}
use sqa.Engine.Param.{
  Parameter, FadeDetails, new_cells, new_with_id, start_from_time, duration, same_id_as, get,
  duration-set_duration,
}
use sqa.Engine.Sender.{Memory}
use sqa.Engine.Context.{PlainSender}
use sqa.Backend.{FadeController, FadeRunning, Crates, db_lin}
use sqa.Backend.Fade.{volume_of, set_volume_of, apply_fade_to_sdr, freeze_sdr}
use sqa.Backend.Fade.Frozen.{
  volume-set_volume, new_with_id_lem, with_fade, apply-starts, freeze-apply_at,
}

same_id_as_refl : (g : FadeDetails) → same_id_as g g ≡ true
unfolding same_id_as
same_id_as_refl g = ground arith

module _ {J X P F : Type 0} (k : Crates J X P F) (master : Bool) (sdr : PlainSender) where
  -- A fade that is started, paused and resumed. `apply_fade_to_sdr` starts it at `begun` from the
  -- volume of the time `gt` towards the level `fade`. Pausing at `time`, with the time `orig_t` as its
  -- start, freezes the volume: for the times after the clock's second reading, which the threshold
  -- is made of, it is the value of the time of the pause; for the times up to that reading, those
  -- between the pause and the reading included, it is `before`, the fade's value at `orig_t`.
  -- Resuming, which asks for the volume at `orig_t`, starts a new fade from `before` towards the same
  -- level, at the given time and with the duration of the parameters. `orig_t` is not after the
  -- second reading, and no time overflows.
  pub freeze-apply :
      (m m1 : Memory) (c c1 : FadeController F) (rd : FadeRunning) (fade vol val before : F32)
      (idp idp' begun gt orig_t time resumed : ℕ)
      → get k.f m.fades (volume_of master sdr m) gt ≡ done vol
      → c.rd ≡ some rd
      → c.params.dur.nanos < one_second_in_nanoseconds
      → total c.params.dur < 2 ^ 64
      → apply_fade_to_sdr k master fade sdr idp begun gt (c, m) ≡ done (c1, m1)
      → get k.f m1.fades (volume_of master sdr m1) time ≡ done val
      → get k.f m1.fades (volume_of master sdr m1) orig_t ≡ done before
      → orig_t ≤ k.later time
      → k.later time + 1 < 2 ^ 64
      → (m2 m3 : Memory) × (c2 : FadeController F) × (g h : FadeDetails) × (c1.rd
          ≡ some (record rd { fd = g }))
        × (volume_of master sdr m1 ≡ Parameter.linear_fade g)
        × (g.from ≡ vol)
        × (g.delta ≡ k.f.sub (db_lin k fade) vol)
        × (freeze_sdr k master sdr g orig_t time m1 ≡ done m2)
        × ((t : ℕ) → k.later time < t → get k.f m2.fades (volume_of master sdr m2) t ≡ done val)
        × ((t : ℕ) → t ≤ k.later time → get k.f m2.fades (volume_of master sdr m2) t ≡ done before)
        × (apply_fade_to_sdr k master fade sdr idp' resumed orig_t (c1, m2) ≡ done (c2, m3))
        × (c2.rd ≡ some (record rd { fd = h }))
        × (volume_of master sdr m3 ≡ Parameter.linear_fade h)
        × (h.from ≡ before)
        × (h.delta ≡ k.f.sub (db_lin k fade) before)
        × ((m3.fades h.cells).start_time ≡ resumed)
        × ((m3.fades h.cells).active ≡ true)
        × (duration (m3.fades h.cells) ≡ c.params.dur)
  freeze-apply m m1 c c1 rd fade vol val before idp idp' begun gt orig_t time resumed v r ns dur e
        now old le top =
      let (cells, set, _, _, _) = (duration-set_duration new_cells c.params.dur ns).0 dur in
      let g = new_with_id k.f vol (db_lin k fade) idp m.next in
      let fields = new_with_id_lem k.f vol (db_lin k fade) idp m.next in
      let starts = apply-starts k master sdr c rd m fade vol idp begun gt cells v r set in
      let begins = with_fade k master sdr (start_from_time cells begun) m in
      let same : c1 ≡ record c { rd = some (record rd { fd = g }) } = ground arith in
      let there : m1 ≡ set_volume_of master sdr begins (Parameter.linear_fade g) = ground arith in
      let runs : c1.rd ≡ some (record rd { fd = g }) = ap (λ z. z.rd) same in
      let params : c1.params ≡ c.params = ap (λ z. z.params) same in
      let moves : volume_of master sdr m1 ≡ Parameter.linear_fade g =
        ap (volume_of master sdr) there
        ∙ volume-set_volume master sdr begins (Parameter.linear_fade g) in
      let (m2, m3, c2, h, fr, after, until, ap2, rd2, vol2, from2, delta2, start2, act2, dur2) =
        freeze-apply_at k master sdr m1 g g orig_t time resumed idp' val before fade c1
          (record rd { fd = g }) moves (same_id_as_refl g)
          (ap (λ p. get k.f m1.fades p time) (sym moves) ∙ now)
          (ap (λ p. get k.f m1.fades p orig_t) (sym moves) ∙ old) le top runs
          (subst (λ p. p.dur.nanos < one_second_in_nanoseconds) (sym params) ns)
          (subst (λ p. total p.dur < 2 ^ 64) (sym params) dur) in
      (
        m2,
        m3,
        c2,
        g,
        h,
        runs,
        moves,
        fields.0,
        fields.1,
        fr,
        after,
        until,
        ap2,
        rd2,
        vol2,
        from2,
        delta2,
        start2,
        act2,
        dur2 ∙ ap (λ p. p.dur) params,
      )
