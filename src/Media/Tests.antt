-- ===== src/Media/Tests.antt =====
-- The theorem on layouts at two frames.
use sqa.Base.{ℕ, ◌+◌, ◌*◌, ◌<◌, ◌≡◌, refl, arith, true, false, [], ◌∷◌}
use sqa.Media.{SampleFormat, Sample, MediaResult, is_planar, sample_of}
use sqa.Media.Frame.{Frame, fresh_frame, from_ptr, take_from}
use sqa.Media.Concrete.{codes, planar_frame, packed_frame}
use sqa.Media.Layout.{take_from-layout}

abbrev planar : Frame
planar = fresh_frame planar_frame (SampleFormat.float true)

abbrev packed : Frame
packed = fresh_frame packed_frame (SampleFormat.float false)

planar-made : from_ptr codes planar_frame ≡ MediaResult.fine planar
unfolding from_ptr
planar-made = refl

packed-made : from_ptr codes packed_frame ≡ MediaResult.fine packed
unfolding from_ptr
packed-made = refl

planar_kind : is_planar planar.format ≡ true
unfolding is_planar
planar_kind = refl

packed_kind : is_planar packed.format ≡ false
unfolding is_planar
packed_kind = refl

same_kind : (bits : ℕ) → sample_of planar.format bits ≡ sample_of packed.format bits
unfolding sample_of
same_kind bits = refl

items :
    (take_from 3 packed).1 ≡ (0, Sample.float 0) ∷ (1, Sample.float 1) ∷ (0, Sample.float 10) ∷ []
unfolding take_from is_planar
items = refl

same_samples : (c i : ℕ) → c < 2 → planar_frame.plane c i ≡ packed_frame.plane 0 (i * 2 + c)
same_samples c i h = omega arith

take_from-layout_example : (take_from 3 planar).1 ≡ (take_from 3 packed).1
take_from-layout_example =
    take_from-layout codes planar_frame packed_frame planar packed 3 planar-made packed-made
      planar_kind packed_kind same_kind refl (omega arith) refl same_samples
