-- ===== src/Backend/Waveforms/Reading.antt =====
-- The walk of a waveform over a file ends, and takes in whole frames.
use sqa.Base.{
  ℕ, zero, suc, ◌+◌, ◌-◌, ◌*◌, ◌<◌, ◌≤◌, ◌≡◌, ◌≢◌, refl, ap, ◌∙◌, Bool, true, false, Option, none,
  some, Outcome, done, panic, ◌>>=◌, Result, leb, if◌then◌else◌, Bool-cases, inl, inr, arith,
}
use sqa.Media.{ErrorKind, MediaResult, is_planar}
use sqa.Media.Frame.{Frame, drained, advance, take_from}
use sqa.Media.File.{FfmpegLaws, IsIntact, Item, next}
use sqa.Media.Progress
use sqa.Media.Progress.{next-Progress}
use sqa.Media.Turns.{times, times-*}
use sqa.Backend.Waveforms.Overview.{
  Reading, Overviews, add_samples, frame_samples, after_item, read_frames,
}

module _ {X : Type 0} (k : Reading X) (laws : FfmpegLaws k.av) (intact : IsIntact k.av)
    (spp chans : ℕ) where
  bound-ends :
      {A B : Type 0} (o : Outcome A) (f : A → Outcome (Option B))
      → ((a : A) → f a ≢ done none)
      → (o >>= f) ≢ done none
  bound-ends panic f h e = cc
  bound-ends (done a) f h e = h a e

  after_item-ends :
      (n : ℕ) (again : X → Overviews → Outcome (Option (Result Overviews))) (x : X) (p : Overviews)
      (item : Option (Item k.av))
      → ((y : X) (q : Overviews) → laws.todo y < n → again y q ≢ done none)
      → Progress.Progress k.av laws intact n (x, item)
      → after_item k again spp chans x p item ≢ done none
  unfolding after_item
  after_item-ends n again x p none ih h e = h
  after_item-ends n again x p (some none) ih h e = cc
  after_item-ends n again x p (some (some (MediaResult.fine frame))) ih h e =
      bound-ends (add_samples k spp chans (frame_samples k frame) p) (again x) (λ q. ih x q h) e
  after_item-ends n again x p (some (some (MediaResult.failed ErrorKind.invalid_data))) ih h e =
      ih x p h e
  after_item-ends n again x p (some (some (MediaResult.failed er))) ih h e = cc

  -- With more fuel than there is to come of a file that is not damaged, the walk ends.
  pub read_frames-ends :
      (fuel : ℕ) (x : X) (p : Overviews)
      → laws.todo x < fuel
      → read_frames k fuel spp chans x p ≢ done none
  unfolding read_frames
  read_frames-ends zero x p h e = elim h [ ]
  read_frames-ends (suc fuel) x p h e =
      after_item-ends (laws.todo x) (λ y q. read_frames k fuel spp chans y q)
        (next k.av (suc fuel) x).0 p (next k.av (suc fuel) x).1
        (λ y q lt. read_frames-ends fuel y q (omega arith))
        (next-Progress k.av laws intact (suc fuel) x h) e

-- One index less to come.
peel :
    (f : Frame) (n : ℕ)
    → drained f ≡ false
    → times (f.cap - f.cur_idx) n ≡ n + times (f.cap - (f.cur_idx + 1)) n
unfolding drained
peel f n d =
    let e : f.cap - f.cur_idx ≡ suc (f.cap - (f.cur_idx + 1)) = ground arith in
    ap (λ m. times m n) e

-- The step of a planar frame, to the next channel or to the next index.
advance-planar :
    (f : Frame) (last : Bool)
    → is_planar f.format ≡ true
    → leb f.chans (f.cur_chan + 1) ≡ last
    → advance f ≡ (
        if last
        then record f { cur_chan = 0; cur_idx = f.cur_idx + 1 }
        else record f { cur_chan = f.cur_chan + 1 })
unfolding advance
advance-planar f true p l = rw (p, l, if◌then◌else◌) refl
advance-planar f false p l = rw (p, l, if◌then◌else◌) refl

advance-packed :
    (f : Frame)
    → is_planar f.format ≡ false
    → ((advance f).cur_idx ≡ f.cur_idx + 1)
      × ((advance f).cap ≡ f.cap)
      × (is_planar (advance f).format ≡ false)
unfolding advance
advance-packed f p = rw (p, if◌then◌else◌) (refl, refl, p)

-- As many steps as there are samples reach the end of a planar frame.
abbrev Reaches : ℕ → Type 0
Reaches m =
    (f : Frame)
    → is_planar f.format ≡ true
    → f.cur_chan < f.chans
    → times (f.cap - f.cur_idx) f.chans ≤ m + f.cur_chan
    → drained (take_from m f).0 ≡ true

planar_step :
    (m : ℕ) (f : Frame) (last : Bool)
    → Reaches m
    → leb f.chans (f.cur_chan + 1) ≡ last
    → is_planar f.format ≡ true
    → f.cur_chan < f.chans
    → times (f.cap - f.cur_idx) f.chans ≤ suc m + f.cur_chan
    → drained f ≡ false
    → drained (take_from m (advance f)).0 ≡ true
planar_step m f true ih l p h le d =
    ap (λ g. drained (take_from m g).0) (advance-planar f true p l)
    ∙ ih (record f { cur_chan = 0; cur_idx = f.cur_idx + 1 }) p (omega arith)
        (ground (arith, peel f f.chans d, le, l))
planar_step m f false ih l p h le d =
    ap (λ g. drained (take_from m g).0) (advance-planar f false p l)
    ∙ ih (record f { cur_chan = f.cur_chan + 1 }) p (ground (arith, l)) (omega (arith, le))

planar-drained : (m : ℕ) → Reaches m
unfolding take_from
planar-drained zero f p h le = elim (Bool-cases (drained f)) [
  | inl d ↦ d
  | inr d ↦ absurd (omega (arith, peel f f.chans d))
]
planar-drained (suc m) f p h le = elim (Bool-cases (drained f)) [
  | inl d ↦ rw d d
  | inr d ↦ rw d (planar_step m f (leb f.chans (f.cur_chan + 1)) (planar-drained m) refl p h le d)
]

packed-drained :
    (m : ℕ) (f : Frame)
    → is_planar f.format ≡ false
    → f.cap - f.cur_idx ≤ m
    → drained (take_from m f).0 ≡ true
unfolding take_from
packed-drained zero f p le = unfold drained in ground arith
packed-drained (suc m) f p le = elim (Bool-cases (drained f)) [
  | inl d ↦ rw d d
  | inr d ↦
      let (i, c, p') = advance-packed f p in
      rw d (packed-drained m (advance f) p' (rw (i, c) (omega arith)))
]

times_mono : (a b n : ℕ) → a ≤ b → times a n ≤ times b n
times_mono zero b n h = omega arith
times_mono (suc a) zero n h = absurd (omega arith)
times_mono (suc a) (suc b) n h = omega (arith, times_mono a b n (omega arith))

-- All samples of a frame are taken in.
pub whole-drained :
    (f : Frame) → f.cur_chan < f.chans → drained (take_from (f.cap * f.chans + f.cap) f).0 ≡ true
whole-drained f h = elim (Bool-cases (is_planar f.format)) [
  | inl p ↦ planar-drained (f.cap * f.chans + f.cap) f p h (
      omega
        (arith, times_mono (f.cap - f.cur_idx) f.cap f.chans (omega arith), times-* f.cap f.chans))
  | inr p ↦ packed-drained (f.cap * f.chans + f.cap) f p (omega arith)
]
