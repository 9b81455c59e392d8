-- ===== src/Backend/Fade/Frozen.antt =====
-- Pausing and resuming a fade, whichever it is.
use sqa.Base.{
  ℕ, ◌+◌, ◌^◌, ◌≤◌, ◌<◌, ◌≡◌, refl, ap, ◌∙◌, Bool, true, false, some, done, ◌>>=◌, unwrap, arith,
  if◌then◌else◌,
}
use sqa.Base.Float.{F32, FloatOps}
use sqa.Base.Words.{add_u64-done}
use sqa.Duration.{total}
use sqa.Engine.{one_second_in_nanoseconds}
use sqa.Engine.Param.{
  Parameter, FadeDetails, FadeCells, new_cells, new_with_id, start_from_time, set_start_time,
  set_active, set_duration, duration, same_id_as, get, duration-set_duration,
}
use sqa.Engine.Sender
use sqa.Engine.Sender.{Memory, update, store}
use sqa.Engine.Context.{PlainSender}
use sqa.Backend.{FadeController, FadeRunning, Crates, db_lin}
use sqa.Backend.Fade.{volume_of, set_volume_of, apply_fade_to_sdr, freeze_fade, freeze_sdr}

-- A volume that is set is the one that is read.
pub volume-set_volume :
    (master : Bool) (sdr : PlainSender) (m : Memory) (p : Parameter)
    → volume_of master sdr (set_volume_of master sdr m p) ≡ p
unfolding Sender.volume Sender.master_volume Sender.set_volume Sender.set_master_volume update store
volume-set_volume true sdr m p = ground arith
volume-set_volume false sdr m p = ground arith

fades-set_volume :
    (master : Bool) (sdr : PlainSender) (m : Memory) (p : Parameter)
    → (set_volume_of master sdr m p).fades ≡ m.fades
unfolding Sender.set_volume Sender.set_master_volume store
fades-set_volume true sdr m p = refl
fades-set_volume false sdr m p = refl

pub new_with_id_lem :
    (f : FloatOps) (from to : F32) (id_ptr cells : ℕ)
    → ((new_with_id f from to id_ptr cells).from ≡ from)
      × ((new_with_id f from to id_ptr cells).delta ≡ f.sub to from)
      × ((new_with_id f from to id_ptr cells).cells ≡ cells)
unfolding new_with_id
new_with_id_lem f from to id_ptr cells = (refl, refl, refl)

start_from_time_lem :
    (c : FadeCells) (ti : ℕ)
    → ((start_from_time c ti).start_time ≡ ti)
      × ((start_from_time c ti).active ≡ true)
      × (duration (start_from_time c ti) ≡ duration c)
unfolding start_from_time set_start_time set_active duration
start_from_time_lem c ti = (refl, refl, refl)

update_self : {A : Type 0} (f : ℕ → A) (i : ℕ) (a : A) → update f i a i ≡ a
unfolding update
update_self f i a = ground arith

module _ {J X P F : Type 0} (k : Crates J X P F) (master : Bool) (sdr : PlainSender) where
  -- The volume of a fade that is frozen.
  abbrev frozen : F32 → ℕ → F32 → Memory → Memory
  frozen val time before m =
      set_volume_of master sdr m (Parameter.timed_raw val (k.later time + 1) before)

  freeze-frozen :
      (m : Memory) (g fd : FadeDetails) (orig_t time : ℕ) (val before : F32)
      → volume_of master sdr m ≡ Parameter.linear_fade g
      → same_id_as g fd ≡ true
      → get k.f m.fades (Parameter.linear_fade g) time ≡ done val
      → get k.f m.fades (Parameter.linear_fade g) orig_t ≡ done before
      → k.later time + 1 < 2 ^ 64
      → freeze_sdr k master sdr fd orig_t time m ≡ done (frozen val time before m)
  unfolding freeze_sdr
  freeze-frozen m g fd orig_t time val before v id now old h =
      ap (freeze_fade k master sdr fd orig_t time m) v
      ∙ rw (freeze_fade, id, now, old, add_u64-done (k.later time) 1 h, ◌>>=◌, if◌then◌else◌) refl

  -- The cells of a fade that starts at a time, and the memory with them.
  abbrev pub with_fade : FadeCells → Memory → Memory
  with_fade cells m = record m { fades = update m.fades m.next cells; next = m.next + 1 }

  pub apply-starts :
      (c : FadeController F) (rd : FadeRunning) (m : Memory) (fade vol : F32) (idp time gt : ℕ)
      (cells : FadeCells)
      → get k.f m.fades (volume_of master sdr m) gt ≡ done vol
      → c.rd ≡ some rd
      → set_duration new_cells c.params.dur ≡ done cells
      → let fd = new_with_id k.f vol (db_lin k fade) idp m.next in
        apply_fade_to_sdr k master fade sdr idp time gt (c, m)
        ≡ done (
          record c { rd = some (record rd { fd = fd }) },
          set_volume_of master sdr
              (with_fade (start_from_time cells time) m)
              (Parameter.linear_fade fd),
        )
  unfolding apply_fade_to_sdr
  apply-starts c rd m fade vol idp time gt cells v r d = rw (v, r, d, ◌>>=◌, unwrap) refl

  -- What the volume of a frozen fade is, after and before.
  get-timed_raw :
      (cells : ℕ → FadeCells) (val before : F32) (time t : ℕ)
      → (time < t → get k.f cells (Parameter.timed_raw val (time + 1) before) t ≡ done val)
        × (t ≤ time → get k.f cells (Parameter.timed_raw val (time + 1) before) t ≡ done before)
  unfolding get
  get-timed_raw cells val before time t = (λ h. ground arith, λ h. ground arith)

  -- Pausing and resuming, for any fade that moves this volume.
  pub freeze-apply_at :
      (m : Memory) (g fd : FadeDetails) (orig_t time resumed idp : ℕ) (val before fade : F32)
      (c : FadeController F) (rd : FadeRunning)
      → volume_of master sdr m ≡ Parameter.linear_fade g
      → same_id_as g fd ≡ true
      → get k.f m.fades (Parameter.linear_fade g) time ≡ done val
      → get k.f m.fades (Parameter.linear_fade g) orig_t ≡ done before
      → orig_t ≤ k.later time
      → k.later time + 1 < 2 ^ 64
      → c.rd ≡ some rd
      → c.params.dur.nanos < one_second_in_nanoseconds
      → total c.params.dur < 2 ^ 64
      → (m1 m2 : Memory) × (c2 : FadeController F) × (fd2 : FadeDetails) × (freeze_sdr k master sdr
            fd orig_t time m
          ≡ done m1)
        × ((t : ℕ) → k.later time < t → get k.f m1.fades (volume_of master sdr m1) t ≡ done val)
        × ((t : ℕ) → t ≤ k.later time → get k.f m1.fades (volume_of master sdr m1) t ≡ done before)
        × (apply_fade_to_sdr k master fade sdr idp resumed orig_t (c, m1) ≡ done (c2, m2))
        × (c2.rd ≡ some (record rd { fd = fd2 }))
        × (volume_of master sdr m2 ≡ Parameter.linear_fade fd2)
        × (fd2.from ≡ before)
        × (fd2.delta ≡ k.f.sub (db_lin k fade) before)
        × ((m2.fades fd2.cells).start_time ≡ resumed)
        × ((m2.fades fd2.cells).active ≡ true)
        × (duration (m2.fades fd2.cells) ≡ c.params.dur)
  freeze-apply_at m g fd orig_t time resumed idp val before fade c rd v id now old le h r ns dur =
      let m1 = frozen val time before m in
      let held : volume_of master sdr m1 ≡ Parameter.timed_raw val (k.later time + 1) before =
        volume-set_volume master sdr m (Parameter.timed_raw val (k.later time + 1) before) in
      let (cells, set, same, _, _) = (duration-set_duration new_cells c.params.dur ns).0 dur in
      let fd2 = new_with_id k.f before (db_lin k fade) idp m1.next in
      let fields = new_with_id_lem k.f before (db_lin k fade) idp m1.next in
      let started = start_from_time_lem cells resumed in
      let m2 =
        set_volume_of master sdr (with_fade (start_from_time cells resumed) m1)
          (Parameter.linear_fade fd2) in
      let at : m2.fades fd2.cells ≡ start_from_time cells resumed =
        ap (λ h. h fd2.cells)
          (fades-set_volume master sdr (with_fade (start_from_time cells resumed) m1)
            (Parameter.linear_fade fd2))
        ∙ ap (update m1.fades m1.next (start_from_time cells resumed)) fields.2
        ∙ update_self m1.fades m1.next (start_from_time cells resumed) in
      (
        m1,
        m2,
        record c { rd = some (record rd { fd = fd2 }) },
        fd2,
        freeze-frozen m g fd orig_t time val before v id now old h,
        λ t lt.
            ap (λ p. get k.f m1.fades p t) held
            ∙ (get-timed_raw m1.fades val before (k.later time) t).0 lt,
        λ t le.
            ap (λ p. get k.f m1.fades p t) held
            ∙ (get-timed_raw m1.fades val before (k.later time) t).1 le,
        apply-starts c rd m1 fade before idp resumed orig_t cells
            (ap (λ p. get k.f m1.fades p orig_t) held
              ∙ (get-timed_raw m1.fades val before (k.later time) orig_t).1 le)
            r set,
        refl,
        volume-set_volume master sdr (with_fade (start_from_time cells resumed) m1)
            (Parameter.linear_fade fd2),
        fields.0,
        fields.1,
        ap (λ c. c.start_time) at ∙ started.0,
        ap (λ c. c.active) at ∙ started.1,
        ap duration at ∙ started.2 ∙ same,
      )
