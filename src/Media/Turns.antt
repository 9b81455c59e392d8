-- ===== src/Media/Turns.antt =====
-- The order in which a frame hands out its samples: channels take turns.
use sqa.Base.{
  ℕ, zero, suc, ◌+◌, ◌-◌, ◌*◌, ◌≤◌, ◌<◌, ◌≡◌, ◌≢◌, inl, inr, refl, ap, subst, Bool, true, false,
  List, [], ◌∷◌, ◌++◌, length, arith, ◌==◌, leb, if◌then◌else◌, Bool-cases,
}
use sqa.Media.{Sample, is_planar}
use sqa.Media.Frame.{Frame, drained, current, advance, take_from}

-- The samples of one channel.
abbrev pub of_channel : ℕ → List (ℕ × Sample) → List Sample
of_channel c [] = []
of_channel c ((ch, s) ∷ xs) = if ch == c then s ∷ of_channel c xs else of_channel c xs

pub of_channel-cons :
    (c : ℕ) (x : ℕ × Sample) (xs : List (ℕ × Sample))
    → of_channel c (x ∷ xs) ≡ of_channel c (x ∷ []) ++ of_channel c xs
of_channel-cons c (ch, s) xs = elim (Bool-cases (ch == c)) [
  | inl p ↦ rw (p, if◌then◌else◌) refl
  | inr p ↦ rw (p, if◌then◌else◌) refl
]

-- How many items come before the next one of channel `c`.
abbrev pub before_channel : Frame → ℕ → ℕ
before_channel f c = if leb f.cur_chan c then c - f.cur_chan else c + f.chans - f.cur_chan

-- `k` times `n`, by addition.
abbrev pub times : ℕ → ℕ → ℕ
times zero n = 0
times (suc k) n = n + times k n

pub times-* : (k n : ℕ) → times k n ≡ k * n
times-* zero n = omega arith
times-* (suc k) n = omega (arith, times-* k n)

advance_chans : (f : Frame) → (advance f).chans ≡ f.chans
unfolding advance is_planar
advance_chans f = ground arith

advance_cur :
    (f : Frame)
    → f.cur_chan < f.chans
    → (advance f).cur_chan ≡ (if leb f.chans (f.cur_chan + 1) then 0 else f.cur_chan + 1)
unfolding advance is_planar
advance_cur f h = ground arith

-- The step to the next channel.
nearer :
    (m k c : ℕ) (f : Frame)
    → f.cur_chan < f.chans
    → c < f.chans
    → f.cur_chan ≢ c
    → suc m ≤ before_channel f c + times k f.chans
    → m ≤ before_channel (advance f) c + times k (advance f).chans
nearer m k c f h hc ne le = ground (arith, advance_chans f, advance_cur f h)

next_round :
    (m k c : ℕ) (f : Frame)
    → f.cur_chan < f.chans
    → f.cur_chan ≡ c
    → suc m ≤ before_channel f c + times (suc k) f.chans
    → m ≤ before_channel (advance f) c + times k (advance f).chans
next_round m k c f h e le = ground (arith, advance_chans f, advance_cur f h)

still_below : (f : Frame) → f.cur_chan < f.chans → (advance f).cur_chan < (advance f).chans
still_below f h = ground (arith, advance_chans f, advance_cur f h)

-- One item more, after which `k` rounds bring at most `k` samples.
turns_on :
    (m k c : ℕ) (f : Frame)
    → f.cur_chan < f.chans
    → suc m ≤ before_channel f c + times k f.chans
    → c < f.chans
    → ((j : ℕ)
        → m ≤ before_channel (advance f) c + times j (advance f).chans
        → length (of_channel c (take_from m (advance f)).1) ≤ j)
    → length (of_channel c ((f.cur_chan, current f) ∷ (take_from m (advance f)).1)) ≤ k
turns_on m zero c f h le hc ih = elim (Bool-cases (f.cur_chan == c)) [
  | inl e ↦ absurd (ground arith)
  | inr e ↦ rw (e, if◌then◌else◌) (ih zero (nearer m zero c f h hc (ground arith) le))
]
turns_on m (suc k) c f h le hc ih = elim (Bool-cases (f.cur_chan == c)) [
  | inl e ↦ rw (e, if◌then◌else◌) (omega (arith, ih k (next_round m k c f h (ground arith) le)))
  | inr e ↦ rw (e, if◌then◌else◌) (ih (suc k) (nearer m (suc k) c f h hc (ground arith) le))
]

-- Channels take turns, so `k` rounds bring at most `k` samples for each.
pub turns :
    (m k c : ℕ) (f : Frame)
    → f.cur_chan < f.chans
    → c < f.chans
    → m ≤ before_channel f c + times k f.chans
    → length (of_channel c (take_from m f).1) ≤ k
unfolding take_from
turns zero k c f h hc le = omega arith
turns (suc m) k c f h hc le = elim (Bool-cases (drained f)) [
  | inl d ↦ unfold take_from in rw d (omega arith)
  | inr d ↦
      unfold take_from in
      rw d (
        turns_on m k c f h le hc
          (λ j. turns m j c (advance f) (still_below f h) (rw (advance_chans f) hc)))
]

-- The channels of the items are below `n`.
abbrev pub InRange : ℕ → List (ℕ × Sample) → Type 0
InRange n [] = Unit {0}
InRange n ((ch, s) ∷ xs) = (ch < n) × InRange n xs

pub take_from-InRange :
    (m : ℕ) (f : Frame) → f.cur_chan < f.chans → InRange f.chans (take_from m f).1
unfolding take_from
take_from-InRange zero f h = tt
take_from-InRange (suc m) f h = elim (Bool-cases (drained f)) [
  | inl d ↦ rw d tt
  | inr d ↦ rw d (
    h,
    subst (λ n. InRange n (take_from m (advance f)).1) (advance_chans f)
        (take_from-InRange m (advance f) (still_below f h)),
  )
]

stops :
    (m : ℕ) (f : Frame) (b : Bool)
    → drained f ≡ b
    → (drained (take_from m (advance f)).0 ≡ false → length (take_from m (advance f)).1 ≡ m)
    → let (rest, items) = take_from m (advance f) in
      let r : Frame × List (ℕ × Sample) =
        if b then (f, []) else (rest, (f.cur_chan, current f) ∷ items) in
      drained r.0 ≡ false → length r.1 ≡ suc m
stops m f true d ih h = absurd (cc (d, h))
stops m f false d ih h = ap suc (ih h)

-- Taking stops short only at the end of the frame.
pub length-take_from :
    (m : ℕ) (f : Frame) → drained (take_from m f).0 ≡ false → length (take_from m f).1 ≡ m
unfolding take_from
length-take_from zero f h = refl
length-take_from (suc m) f h = stops m f (drained f) refl (length-take_from m (advance f)) h
