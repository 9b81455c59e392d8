-- ===== src/Backend/Waveforms/Counts.antt =====
-- How many overviews a waveform has.
use sqa.Base.{
  ℕ, zero, suc, ◌+◌, ◌*◌, ◌%◌, ◌^◌, ◌<◌, ◌≤◌, ◌≡◌, refl, sym, ap, subst, ◌∙◌, Bool, true, false,
  List, [], ◌∷◌, ◌++◌, length, length-append, done, ◌>>=◌, leb, ◌==◌, if◌then◌else◌, Bool-cases,
  inl, inr, arith,
}
use sqa.Base.Float.{F32}
use sqa.Media.{Sample}
use sqa.Media.Turns.{of_channel, of_channel-cons, times, times-*}
use sqa.Backend.Waveforms.Overview.{
  Reading, Overviews, start, finish_overview, first_channel, add_to_last, extremes, add_sample,
  add_samples,
}

-- After `n` samples of the first channel: each overview has its share of them, and between one and
-- one whole share waits.
record Counted (spp n : ℕ) (p : Overviews) : Type 0 where
  all : n ≡ times (length p.ret) spp + length p.rms_range
  most : length p.rms_range ≤ spp
  some_left : 1 ≤ length p.rms_range

abbrev pub one_if : Bool → ℕ
one_if true = 1
one_if false = 0

length-append_one : {A : Type 0} (xs : List A) (x : A) → length (xs ++ x ∷ []) ≡ suc (length xs)
length-append_one xs x = omega (arith, length-append xs (x ∷ []))

module _ {X : Type 0} (k : Reading X) where
  extremes_lem :
      (sample : F32) (p : Overviews)
      → ((extremes k sample p).ret ≡ p.ret) × ((extremes k sample p).rms_range ≡ p.rms_range)
  unfolding extremes
  extremes_lem sample p = ground arith

  finish_overview_lem :
      (p : Overviews)
      → (length (finish_overview k p).ret ≡ suc (length p.ret))
        × ((finish_overview k p).rms_range ≡ [])
  unfolding finish_overview
  finish_overview_lem p = (length-append_one p.ret _, refl)

  module _ (spp : ℕ) (pos : 0 < spp) (word : spp < 2 ^ 32) where
    -- A sample of the first channel, on a present overview of `m` samples.
    first_channel-Counted :
        (part : F32) (n : ℕ) (p : Overviews)
        → n ≡ times (length p.ret) spp + length p.rms_range
        → length p.rms_range ≤ spp
        → Counted spp (suc n) (first_channel k spp part p)
    unfolding first_channel
    first_channel-Counted part n p e le =
        elim (Bool-cases (leb spp (length p.rms_range % 2 ^ 32))) [
          | inl t ↦
              let (f, g) = finish_overview_lem p in
              let full : suc n ≡ times (suc (length p.ret)) spp + 1 = ground (arith, e, t) in
              rw (t, if◌then◌else◌)
                (record {
                  all = full ∙ ap (λ m. times m spp + 1) (sym f);
                  most = omega arith;
                  some_left = omega arith;
                })
          | inr t ↦
              rw (t, if◌then◌else◌)
                (record {
                  all = omega (arith, e, length-append_one p.rms_range part);
                  most = ground (arith, t, length-append_one p.rms_range part);
                  some_left = omega (arith, length-append_one p.rms_range part);
                })
        ]

    add_to_last_lem :
        (part : F32) (xs : List F32)
        → 1 ≤ length xs
        → (ys : List F32) × (add_to_last k part xs ≡ done ys) × (length ys ≡ length xs)
    unfolding add_to_last
    add_to_last_lem part [] h = absurd (omega arith)
    add_to_last_lem part (x ∷ []) h = (k.f.add x part ∷ [], refl, refl)
    add_to_last_lem part (x ∷ y ∷ xs) h =
        let (zs, e, l) = add_to_last_lem part (y ∷ xs) (omega arith) in
        (x ∷ zs, rw (e, ◌>>=◌) refl, ap suc l)

    extremes-Counted :
        (sample : F32) (n : ℕ) (p : Overviews)
        → Counted spp n p
        → Counted spp n (extremes k sample p)
    extremes-Counted sample n p c =
        let (r, m) = extremes_lem sample p in
        record {
          all =
              c.all
              ∙ sym (ap (λ os. times (length os) spp + length p.rms_range) r)
              ∙ sym (ap (λ xs. times (length (extremes k sample p).ret) spp + length xs) m);
          most = rw m c.most;
          some_left = rw m c.some_left;
        }

    -- One sample more, of the first channel or of another.
    add_first-Counted :
        (chans n : ℕ) (s : Sample) (p : Overviews)
        → n ≡ times (length p.ret) spp + length p.rms_range
        → length p.rms_range ≤ spp
        → (p' : Overviews) × (add_sample k spp chans (0, s) p ≡ done p') × Counted spp (suc n) p'
    unfolding add_sample
    add_first-Counted chans n s p e le =
        let part = k.f.div (k.f32 s) (k.f.of_u64 chans) in
        (
          extremes k (k.f32 s) (first_channel k spp part p),
          refl,
          extremes-Counted (k.f32 s) (suc n) (first_channel k spp part p)
              (first_channel-Counted part n p e le),
        )

    add_sample-Counted :
        (chans n : ℕ) (x : ℕ × Sample) (p : Overviews)
        → Counted spp n p
        → (p' : Overviews) × (add_sample k spp chans x p ≡ done p')
          × Counted spp (length (of_channel 0 (x ∷ [])) + n) p'
    unfolding add_sample
    add_sample-Counted chans n (zero, s) p c =
        let (p', e, c') = add_first-Counted chans n s p c.all c.most in
        (p', e, subst (λ m. Counted spp m p') (omega arith) c')
    add_sample-Counted chans n (suc ch, s) p c =
        let part = k.f.div (k.f32 s) (k.f.of_u64 chans) in
        let (range, e, l) = add_to_last_lem part p.rms_range c.some_left in
        let other : (suc ch == 0) ≡ false = ground arith in
        let none_more : n ≡ length (of_channel 0 ((suc ch, s) ∷ [])) + n =
          rw (other, if◌then◌else◌) (omega arith) in
        (
          extremes k (k.f32 s) (record p { rms_range = range }),
          rw (other, if◌then◌else◌, e, ◌>>=◌) refl,
          subst (λ m. Counted spp m (extremes k (k.f32 s) (record p { rms_range = range })))
              none_more
              (extremes-Counted (k.f32 s) n (record p { rms_range = range })
                (record {
                  all = c.all ∙ ap (λ m. times (length p.ret) spp + m) (sym l);
                  most = rw l c.most;
                  some_left = rw l c.some_left;
                })),
        )

    add_samples-Counted :
        (chans n : ℕ) (xs : List (ℕ × Sample)) (p : Overviews)
        → Counted spp n p
        → (p' : Overviews) × (add_samples k spp chans xs p ≡ done p')
          × Counted spp (length (of_channel 0 xs) + n) p'
    unfolding add_samples
    add_samples-Counted chans n [] p c = (p, refl, subst (λ m. Counted spp m p) (omega arith) c)
    add_samples-Counted chans n (x ∷ xs) p c =
        let (p1, e1, c1) = add_sample-Counted chans n x p c in
        let (p2, e2, c2) =
          add_samples-Counted chans (length (of_channel 0 (x ∷ [])) + n) xs p1 c1 in
        let two = of_channel-cons 0 x xs in
        let len = length-append (of_channel 0 (x ∷ [])) (of_channel 0 xs) in
        (
          p2,
          ap (λ o. o >>= add_samples k spp chans xs) e1 ∙ e2,
          subst (λ m. Counted spp m p2) (omega (arith, ap length two, len)) c2,
        )

  -- The samples of a file come to as many overviews as are full before the last sample: with `n`
  -- samples of the first channel, the overviews cover all but the last ones, of which there are at
  -- least one and at most as many as an overview takes. A full last overview is left out as well. The
  -- first sample is of the first channel, so the walk does not panic; an overview takes at least one
  -- sample, and its number fits a `u32`.
  pub add_samples_lem :
      (spp chans : ℕ) (first : Sample) (xs : List (ℕ × Sample))
      → 0 < spp
      → spp < 2 ^ 32
      → let n = suc (length (of_channel 0 xs)) in
        (p : Overviews) × (add_samples k spp chans ((0, first) ∷ xs) (start k) ≡ done p)
        × (length p.ret * spp < n)
        × (n ≤ length p.ret * spp + spp)
        × (n ≡ length p.ret * spp + length p.rms_range)
  unfolding add_samples
  add_samples_lem spp chans first xs pos word =
      let (p1, e1, c1) =
        add_first-Counted spp pos word chans 0 first (start k) refl (omega arith) in
      let (p2, e2, c2) = add_samples-Counted spp pos word chans 1 xs p1 c1 in
      let t = times-* (length p2.ret) spp in
      (
        p2,
        ap (λ o. o >>= add_samples k spp chans xs) e1 ∙ e2,
        omega (arith, c2.all, c2.some_left, t),
        omega (arith, c2.all, c2.most, t),
        omega (arith, c2.all, t),
      )
