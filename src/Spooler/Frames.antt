-- ===== src/Spooler/Frames.antt =====
-- What the spooler makes of a frame: which samples reach which buffer.
use mathlib.Core.List.{append-nil, append_assoc, map-append}
use sqa.Base.{
  ℕ, ◌+◌, ◌-◌, ◌*◌, ◌^◌, ◌≤◌, ◌<◌, ◌≡◌, inl, inr, refl, sym, ap, subst, false, not, some, List, [],
  ◌∷◌, ◌++◌, map, length, get_elem?, done, ◌>>=◌, unwrap, arith, ◌==◌, Bool-cases, length-append,
  length-map, ◌∙◌, get_elem?-lt, lt-length_of_get_elem?,
}
use sqa.Base.Float.{F32}
use sqa.Base.Words.{sub_u64-done, mul_u64-done}
use sqa.Engine.{SpscLaws, stream_buffer_size}
use sqa.Engine.Sender.{update}
use sqa.Engine.Context.{BufferSender}
use sqa.Media.{Sample}
use sqa.Media.Frame.{Frame, drained, take_from}
use sqa.Media.Turns.{
  of_channel, of_channel-cons, times-*, turns, InRange, take_from-InRange, length-take_from,
}
use sqa.Spooler.{Spooling, push_sample, push_samples, send_frame}

-- Each stream has a buffer of its own.
abbrev pub Apart : List BufferSender → Type 0
Apart bsends =
    (i j : ℕ) (a b : BufferSender)
    → get_elem? bsends i ≡ some a
    → get_elem? bsends j ≡ some b
    → a.buf ≡ b.buf
    → i ≡ j

-- There is room for all items.
abbrev Fits : List BufferSender → (ℕ → List F32) → List (ℕ × Sample) → Type 0
Fits bsends bufs items =
    (c : ℕ) (b : BufferSender)
    → get_elem? bsends c ≡ some b
    → length (bufs b.buf) + length (of_channel c items) ≤ stream_buffer_size

module _ (k : Spooling) where
  -- Each buffer gets the samples of its channel at its end.
  abbrev pub Delivered :
      List BufferSender → (ℕ → List F32) → List (ℕ × Sample) → (ℕ → List F32) → Type 0
  Delivered bsends bufs items bufs' =
      (c : ℕ) (b : BufferSender)
      → get_elem? bsends c ≡ some b
      → bufs' b.buf ≡ bufs b.buf ++ map k.f32 (of_channel c items)

module _ (k : Spooling) (laws : SpscLaws k.q) (bsends : List BufferSender)
    (apart : Apart bsends) where
  abbrev one_more : (ℕ → List F32) → BufferSender → Sample → ℕ → List F32
  one_more bufs b s = update bufs b.buf (bufs b.buf ++ k.f32 s ∷ [])

  push_one :
      (bufs : ℕ → List F32) (ch : ℕ) (s : Sample) (b : BufferSender)
      → get_elem? bsends ch ≡ some b
      → length (bufs b.buf) < stream_buffer_size
      → push_sample k bsends bufs (ch, s) ≡ done (one_more bufs b s)
  unfolding push_sample update
  push_one bufs ch s b e h =
      rw (e, ◌>>=◌, unwrap, laws.try_push_room stream_buffer_size (bufs b.buf) (k.f32 s) h) refl

  -- What one more sample makes of the buffer of a channel.
  at_channel :
      (bufs : ℕ → List F32) (ch : ℕ) (s : Sample) (b : BufferSender) (c : ℕ) (b' : BufferSender)
      → get_elem? bsends ch ≡ some b
      → get_elem? bsends c ≡ some b'
      → one_more bufs b s b'.buf ≡ bufs b'.buf ++ map k.f32 (of_channel c ((ch, s) ∷ []))
  unfolding update
  at_channel bufs ch s b c b' e e' = elim (Bool-cases (ch == c)) [
    | inl p ↦ ground arith
    | inr p ↦ ground (arith, append-nil (bufs b'.buf), apart ch c b b' e e')
  ]

  -- With one sample more, the others still fit.
  Fits-on :
      (bufs : ℕ → List F32) (ch : ℕ) (s : Sample) (items : List (ℕ × Sample)) (b : BufferSender)
      → get_elem? bsends ch ≡ some b
      → Fits bsends bufs ((ch, s) ∷ items)
      → Fits bsends (one_more bufs b s) items
  Fits-on bufs ch s items b e fits c b' e' = omega (
    arith,
    ap length (at_channel bufs ch s b c b' e e'),
    length-append (bufs b'.buf) (map k.f32 (of_channel c ((ch, s) ∷ []))),
    length-map k.f32 (of_channel c ((ch, s) ∷ [])),
    ap length (of_channel-cons c (ch, s) items),
    length-append (of_channel c ((ch, s) ∷ [])) (of_channel c items),
    fits c b' e',
  )

  room :
      (bufs : ℕ → List F32) (ch : ℕ) (s : Sample) (items : List (ℕ × Sample)) (b : BufferSender)
      → get_elem? bsends ch ≡ some b
      → Fits bsends bufs ((ch, s) ∷ items)
      → length (bufs b.buf) < stream_buffer_size
  room bufs ch s items b e fits = ground (arith, fits ch b e)

  pub push_samples_lem :
      (items : List (ℕ × Sample)) (bufs : ℕ → List F32)
      → InRange (length bsends) items
      → Fits bsends bufs items
      → (bufs' : ℕ → List F32) × (push_samples k bsends bufs items ≡ done bufs')
        × Delivered k bsends bufs items bufs'
  unfolding push_samples
  push_samples_lem [] bufs r fits = (bufs, refl, λ c b e. sym (append-nil (bufs b.buf)))
  push_samples_lem ((ch, s) ∷ items) bufs (lt, r) fits =
      let (b, e) = get_elem?-lt bsends ch lt in
      let (bufs', sent, all) =
        push_samples_lem items (one_more bufs b s) r (Fits-on bufs ch s items b e fits) in
      (
        bufs',
        rw (push_one bufs ch s b e (room bufs ch s items b e fits), ◌>>=◌) sent,
        λ c b' e'.
            all c b' e'
            ∙ ap (λ xs. xs ++ map k.f32 (of_channel c items)) (at_channel bufs ch s b c b' e e')
            ∙ append_assoc (bufs b'.buf) _ _
            ∙ ap (bufs b'.buf ++◌) (
                sym (map-append k.f32 (of_channel c ((ch, s) ∷ [])) (of_channel c items))
                ∙ ap (map k.f32) (sym (of_channel-cons c (ch, s) items))),
      )

  -- A frame is sent without loss. If no buffer is fuller than the first, then as many samples are
  -- taken from the frame as the first buffer has room for in each channel, or all that are left;
  -- each buffer gets those of its channel at its end, in order, and what was not taken is left in
  -- the frame. The streams have buffers of their own, as many as the frame has channels.
  pub send_frame-Delivered :
      (bufs : ℕ → List F32) (first : BufferSender) (f : Frame)
      → get_elem? bsends 0 ≡ some first
      → f.chans ≡ length bsends
      → f.cur_chan < f.chans
      → (stream_buffer_size - length (bufs first.buf)) * length bsends < 2 ^ 64
      → length (bufs first.buf) ≤ stream_buffer_size
      → ((c : ℕ) (b : BufferSender)
          → get_elem? bsends c ≡ some b
          → length (bufs b.buf) ≤ length (bufs first.buf))
      → let n = (stream_buffer_size - length (bufs first.buf)) * length bsends in
        let (rest, items) = take_from n f in
        (bufs' : ℕ → List F32) × (send_frame k bsends bufs f
          ≡ done (bufs', rest, not (drained rest)))
        × Delivered k bsends bufs items bufs'
        × (drained rest ≡ false → length items ≡ n)
  unfolding send_frame
  send_frame-Delivered bufs first f e same h fits_word le least =
      let space = stream_buffer_size - length (bufs first.buf) in
      let n = space * length bsends in
      let fits : Fits bsends bufs (take_from n f).1 = λ c b e'. omega (
        arith,
        least c b e',
        turns n space c f h (rw same (lt-length_of_get_elem? bsends c e'))
            (omega (arith, times-* space f.chans, ap (λ m. space * m) same)),
      ) in
      let r : InRange (length bsends) (take_from n f).1 =
        subst (λ m. InRange m (take_from n f).1) same (take_from-InRange n f h) in
      let (bufs', sent, all) = push_samples_lem (take_from n f).1 bufs r fits in
      (
        bufs',
        rw
            (
              e,
              ◌>>=◌,
              unwrap,
              sub_u64-done stream_buffer_size (length (bufs first.buf)) le,
              mul_u64-done space (length bsends) fits_word,
              sent,
            )
            refl,
        all,
        length-take_from n f,
      )
