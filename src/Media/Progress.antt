-- ===== src/Media/Progress.antt =====
-- The walk over the frames of a file that is not damaged makes progress.
use sqa.Base.{ℕ, Bool, zero, suc, ◌<◌, ◌≤◌, ◌≡◌, ◌≢◌, refl, Option, none, some, arith, true, false}
use sqa.Media.{ErrorKind, MediaResult}
use sqa.Media.Frame.{AvFrame, Frame, from_ptr}
use sqa.Media.File.{
  Ffmpeg, FfmpegLaws, IsIntact, Item, send_packet, send_read, received, receive_into, receive_frame,
  after_send, after_receive, next,
}

-- An error that is not about invalid data may come without progress.
abbrev Lost : ErrorKind → ℕ → ℕ → Type 0
Lost ErrorKind.invalid_data a b = a < b
Lost e a b = a ≤ b

Lost-le : (e : ErrorKind) (a b : ℕ) → Lost e a b → a ≤ b
Lost-le ErrorKind.invalid_data a b h = omega arith
Lost-le e a b h = h

lt-Lost : (e : ErrorKind) (a b : ℕ) → a < b → Lost e a b
lt-Lost ErrorKind.invalid_data a b h = h
lt-Lost e a b h = omega arith

Lost-trans : (e : ErrorKind) (a b c : ℕ) → Lost e a b → b ≤ c → Lost e a c
Lost-trans ErrorKind.invalid_data a b c h le = omega arith
Lost-trans e a b c h le = omega arith

module _ {X : Type 0} (av : Ffmpeg X) (laws : FfmpegLaws av) (intact : IsIntact av) where
  -- A call that had `n` to come leaves less, unless it fails.
  abbrev Called : {A : Type 0} → ℕ → X × MediaResult A → Type 0
  Called n (y, MediaResult.fine a) = laws.todo y < n
  Called n (y, MediaResult.failed e) = Lost e (laws.todo y) n

  -- What the iterator has made of a file with `n` to come: it has come to an item or to the end, and
  -- a frame or invalid data leave less.
  abbrev pub Progress : ℕ → X × Option (Item av) → Type 0
  Progress n (y, none) = ⊥
  Progress n (y, some none) = laws.todo y ≤ n
  Progress n (y, some (some (MediaResult.fine frame))) = laws.todo y < n
  Progress n (y, some (some (MediaResult.failed e))) = Lost e (laws.todo y) n

  call_lem :
      {A : Type 0} (n : ℕ) (r : X × MediaResult A)
      → laws.todo r.0 ≤ n
      → ((a : A) → r.1 ≡ MediaResult.fine a → laws.todo r.0 < n)
      → r.1 ≢ MediaResult.failed ErrorKind.invalid_data
      → Called n r
  call_lem n (y, MediaResult.fine a) le lt bad = lt a refl
  call_lem n (y, MediaResult.failed ErrorKind.invalid_data) le lt bad = absurd (bad refl)
  call_lem n (y, MediaResult.failed e) le lt bad = le

  from_ptr-Called : (n : ℕ) (y : X) (r : MediaResult Frame) → laws.todo y < n → Called n (y, r)
  from_ptr-Called n y (MediaResult.fine f) lt = lt
  from_ptr-Called n y (MediaResult.failed e) lt = lt-Lost e (laws.todo y) n lt

  received-Called : (n : ℕ) (r : X × MediaResult AvFrame) → Called n r → Called n (received av r)
  unfolding received
  received-Called n (y, MediaResult.fine a) c = from_ptr-Called n y (from_ptr av.code a) c
  received-Called n (y, MediaResult.failed e) c = c

  receive_into-Called : (b : Bool) (x : X) → Called (laws.todo x) (receive_into av b x)
  unfolding receive_into
  receive_into-Called false x = omega arith
  receive_into-Called true x = received-Called (laws.todo x) (av.avcodec_receive_frame x) (
      call_lem (laws.todo x) (av.avcodec_receive_frame x) (laws.receive_le x) (laws.receive_lt x)
        (intact.receives x))

  receive_frame-Called : (x : X) → Called (laws.todo x) (receive_frame av x)
  unfolding receive_frame
  receive_frame-Called x = receive_into-Called (av.av_frame_alloc x) x

  send_read-Called : (n : ℕ) (r : X × MediaResult ℕ) → Called n r → Called n (send_read av r)
  unfolding send_read
  send_read-Called n (y, MediaResult.failed e) c = c
  send_read-Called n (y, MediaResult.fine p) c =
      sent (av.avcodec_send_packet y p) (omega (arith, laws.send_le y p))
    where
      sent : (r : X × MediaResult (Unit {0})) → laws.todo r.0 < n → Called n r
      sent (z, MediaResult.fine u) lt = lt
      sent (z, MediaResult.failed e) lt = lt-Lost e (laws.todo z) n lt

  send_packet-Called : (x : X) → Called (laws.todo x) (send_packet av x)
  unfolding send_packet
  send_packet-Called x = send_read-Called (laws.todo x) (av.av_read_frame x) (
      call_lem (laws.todo x) (av.av_read_frame x) (laws.read_le x) (laws.read_lt x)
        (intact.reads x))

  Progress-trans : (m n : ℕ) (r : X × Option (Item av)) → Progress m r → m ≤ n → Progress n r
  Progress-trans m n (y, none) p le = p
  Progress-trans m n (y, some none) p le = omega arith
  Progress-trans m n (y, some (some (MediaResult.fine f))) p le = omega arith
  Progress-trans m n (y, some (some (MediaResult.failed e))) p le =
      Lost-trans e (laws.todo y) m n p le

  abbrev Again : ℕ → (X → X × Option (Item av)) → Type 0
  Again n again = (y : X) → laws.todo y < n → Progress (laws.todo y) (again y)

  after_send-Progress :
      (n : ℕ) (again : X → X × Option (Item av)) (r : X × MediaResult (Unit {0}))
      → Again n again
      → Called n r
      → Progress n (after_send av again r)
  unfolding after_send
  after_send-Progress n again (y, MediaResult.fine u) ih c =
      Progress-trans (laws.todo y) n (again y) (ih y c) (omega arith)
  after_send-Progress n again (y, MediaResult.failed ErrorKind.eof) ih c = c
  after_send-Progress n again (y, MediaResult.failed e) ih c = c

  Again_mono : (m n : ℕ) (again : X → X × Option (Item av)) → Again n again → m ≤ n → Again m again
  Again_mono m n again ih le y lt = ih y (omega arith)

  after_receive-Progress :
      (n : ℕ) (again : X → X × Option (Item av)) (r : X × MediaResult Frame)
      → Again n again
      → Called n r
      → Progress n (after_receive av again r)
  unfolding after_receive
  after_receive-Progress n again (y, MediaResult.fine f) ih c = c
  after_receive-Progress n again (y, MediaResult.failed ErrorKind.temporarily_unavailable) ih c =
      Progress-trans (laws.todo y) n (after_send av again (send_packet av y))
        (after_send-Progress (laws.todo y) again (send_packet av y)
          (Again_mono (laws.todo y) n again ih c) (send_packet-Called y))
        c
  after_receive-Progress n again (y, MediaResult.failed ErrorKind.eof) ih c = c
  after_receive-Progress n again (y, MediaResult.failed e) ih c = c

  -- With more fuel than there is still to come, the iterator ends.
  pub next-Progress :
      (fuel : ℕ) (x : X) → laws.todo x < fuel → Progress (laws.todo x) (next av fuel x)
  unfolding next
  next-Progress zero x h = elim h [ ]
  next-Progress (suc fuel) x h =
      after_receive-Progress (laws.todo x) (λ y. next av fuel y) (receive_frame av x)
        (λ y lt. next-Progress fuel y (omega arith)) (receive_frame-Called x)
