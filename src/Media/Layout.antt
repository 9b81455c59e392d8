-- ===== src/Media/Layout.antt =====
-- Planar frames and interleaved ones hand out their samples alike.
use sqa.Base.{
  ℕ, zero, suc, ◌+◌, ◌*◌, ◌≤◌, ◌<◌, ◌≡◌, refl, true, false, Option, none, some, arith, Bool-cases,
  leb, if◌then◌else◌, inl, inr, ap, sym, ◌∙◌,
}
use sqa.Media.{SampleFormat, MediaResult, is_planar, sample_of, from_ffi}
use sqa.Media.Frame.{
  AvFrame, Frame, fresh_frame, with_format, from_ptr, drained, current, advance, take_from,
}

-- The same samples in two layouts, with the iterators at the same one.
record Alike (p q : Frame) : Type 0 where
  planar : is_planar p.format ≡ true
  packed : is_planar q.format ≡ false
  kind : (bits : ℕ) → sample_of p.format bits ≡ sample_of q.format bits
  chans : p.chans ≡ q.chans
  cur : p.cur_chan ≡ q.cur_chan
  below : p.cur_chan < p.chans
  idx : q.cur_idx ≡ p.cur_idx * p.chans + p.cur_chan
  cap : q.cap ≡ p.cap * p.chans
  samples : (c i : ℕ) → c < p.chans → p.plane c i ≡ q.plane 0 (i * p.chans + c)

times_mono : (a b n : ℕ) → a ≤ b → a * n ≤ b * n
times_mono a b n h = grind arith

drained-Alike : (p q : Frame) → Alike p q → drained p ≡ drained q
unfolding drained
drained-Alike p q s = ground (
  arith,
  s.idx,
  s.cap,
  s.below,
  times_mono p.cap p.cur_idx p.chans,
  times_mono (suc p.cur_idx) p.cap p.chans,
)

current-Alike : (p q : Frame) → Alike p q → current p ≡ current q
unfolding current
current-Alike p q s =
    rw (s.planar, s.packed, if◌then◌else◌, s.idx)
      (s.kind (p.plane p.cur_chan p.cur_idx)
        ∙ ap (sample_of q.format) (s.samples p.cur_chan p.cur_idx s.below))

advance-Alike : (p q : Frame) → Alike p q → Alike (advance p) (advance q)
unfolding advance
advance-Alike p q s = elim (Bool-cases (leb p.chans (p.cur_chan + 1))) [
  | inl e ↦
      rw (s.planar, s.packed, ← s.chans, ← s.cur, e, if◌then◌else◌)
        (record {
          planar = s.planar;
          packed = s.packed;
          kind = s.kind;
          chans = refl;
          cur = refl;
          below = grind (arith, s.below);
          idx = grind (arith, s.idx, s.below, e);
          cap = s.cap;
          samples = s.samples;
        })
  | inr e ↦
      rw (s.planar, s.packed, ← s.chans, ← s.cur, e, if◌then◌else◌)
        (record {
          planar = s.planar;
          packed = s.packed;
          kind = s.kind;
          chans = refl;
          cur = refl;
          below = ground (arith, s.below);
          idx = omega (arith, s.idx);
          cap = s.cap;
          samples = s.samples;
        })
]

take_from-Alike : (n : ℕ) (p q : Frame) → Alike p q → (take_from n p).1 ≡ (take_from n q).1
unfolding take_from
take_from-Alike zero p q s = refl
take_from-Alike (suc n) p q s = elim (Bool-cases (drained q)) [
  | inl d ↦ rw (drained-Alike p q s, d, if◌then◌else◌) refl
  | inr d ↦
      rw (drained-Alike p q s, d, if◌then◌else◌)
        (cc (
          s.cur,
          current-Alike p q s,
          take_from-Alike n (advance p) (advance q) (advance-Alike p q s),
        ))
]

fine-inj : {A : Type 0} {a b : A} → MediaResult.fine a ≡ MediaResult.fine b → a ≡ b
fine-inj h = cc

-- A frame that could be made is at its start.
with_format-fresh :
    (a : AvFrame) (o : Option SampleFormat) (p : Frame)
    → with_format a o ≡ MediaResult.fine p
    → (f : SampleFormat) × (p ≡ fresh_frame a f)
with_format-fresh a none p h = cc
with_format-fresh a (some f) p h = (f, sym (fine-inj h))

-- A planar frame and an interleaved one with the same samples hand out the same items, each sample
-- with its channel: the layout makes no difference to what plays. FFmpeg's numbers tell the formats
-- apart, which are of the same kind, and there is a channel.
pub take_from-layout :
    (code : SampleFormat → ℕ) (a b : AvFrame) (p q : Frame) (n : ℕ)
    → from_ptr code a ≡ MediaResult.fine p
    → from_ptr code b ≡ MediaResult.fine q
    → is_planar p.format ≡ true
    → is_planar q.format ≡ false
    → ((bits : ℕ) → sample_of p.format bits ≡ sample_of q.format bits)
    → a.channels ≡ b.channels
    → 0 < a.channels
    → a.nb_samples ≡ b.nb_samples
    → ((c i : ℕ) → c < a.channels → a.plane c i ≡ b.plane 0 (i * a.channels + c))
    → (take_from n p).1 ≡ (take_from n q).1
unfolding from_ptr
take_from-layout code a b p q n ep eq pl pk kind ch pos nb samples =
    let (f, ep') = with_format-fresh a (from_ffi code a.format) p ep in
    let (g, eq') = with_format-fresh b (from_ffi code b.format) q eq in
    let pl' : is_planar f ≡ true = ap (λ r. is_planar r.format) (sym ep') ∙ pl in
    let pk' : is_planar g ≡ false = ap (λ r. is_planar r.format) (sym eq') ∙ pk in
    rw (ep', eq')
      (take_from-Alike n (fresh_frame a f) (fresh_frame b g) (record {
        planar = pl';
        packed = pk';
        kind = λ bits.
            ap (λ r. sample_of r.format bits) (sym ep')
            ∙ kind bits
            ∙ ap (λ r. sample_of r.format bits) eq';
        chans = ch;
        cur = refl;
        below = pos;
        idx = omega arith;
        cap = rw (pl', pk', if◌then◌else◌, nb, ch) refl;
        samples = samples;
      }))
