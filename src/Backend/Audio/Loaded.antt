-- ===== src/Backend/Audio/Loaded.antt =====
-- An audio action without errors in its parameters can be loaded.
use sqa.Base.{
  ℕ, zero, suc, ◌+◌, ◌≤◌, ◌<◌, ◌≡◌, refl, sym, ap, ◌∙◌, true, Option, none, some, List, [], ◌∷◌,
  ◌++◌, done, ◌>>=◌, Result, ok, err, unwrap, length, length-map, is_some, arith, Option-cases, inl,
  inr, String,
}
use sqa.Actions.{AudioChannel}
use sqa.Engine.Sender
use sqa.Engine.Sender.{Memory}
use sqa.Engine.Context
use sqa.Engine.Context.{BufferSender}
use sqa.Mixer.Context.{MixerContext, obtain_channel, mix_sender, other_senders, new_senders}
use sqa.Media.{MediaResult}
use sqa.Backend
use sqa.Backend.{AudioController, RunningData, Crates, draw}
use sqa.Backend.Audio.{
  open_file, open_url, file_errors, opened_errors, url_errors, verify_url, patch_error,
  patch_errors, verify_params, memory, with_memory,
}
use sqa.Backend.Audio.Playing.{
  patch_target, patch_sender, patch_senders, patched, start_spooler, load, load_file, load_taken,
  replace_rd, new_running,
}

-- Every channel that has a patch finds it in the mixer.
abbrev Found : {J : Type 0} → MixerContext J → List AudioChannel → Type 0
Found m [] = Unit {0}
Found m (ch ∷ chans) =
    ((uu : ℕ) → ch.patch ≡ some uu → is_some (obtain_channel m uu) ≡ true) × Found m chans

obtain_channel-cong :
    {J : Type 0} (m m' : MixerContext J) (uu : ℕ)
    → m.channels ≡ m'.channels
    → obtain_channel m uu ≡ obtain_channel m' uu
unfolding obtain_channel
obtain_channel-cong m m' uu e = rw e refl

Found-cong :
    {J : Type 0} (m m' : MixerContext J) (chans : List AudioChannel)
    → m.channels ≡ m'.channels
    → Found m chans
    → Found m' chans
Found-cong m m' [] e f = tt
Found-cong m m' (ch ∷ chans) e (here, f) = (
  λ uu p. ap is_some (sym (obtain_channel-cong m m' uu e)) ∙ here uu p,
  Found-cong m m' chans e f,
)

patch_target-ok :
    {J : Type 0} (m : MixerContext J) (patch : Option ℕ)
    → ((uu : ℕ) → patch ≡ some uu → is_some (obtain_channel m uu) ≡ true)
    → (target : Option ℕ) × (patch_target m patch ≡ ok target)
unfolding patch_target
patch_target-ok m none f = (none, refl)
patch_target-ok m (some uu) f = from_channel (obtain_channel m uu) (f uu refl)
  where
    from_channel :
        (o : Option ℕ)
        → is_some o ≡ true
        → (target : Option ℕ) × ◌≡◌ {A = Result (Option ℕ)}
            (elim o [
              | none ↦ err "One channel mysteriously disappeared"
              | some eid ↦ ok (some eid)
            ])
            (ok target)
    from_channel none h = absurd (cc h)
    from_channel (some eid) h = (some eid, refl)

patch_senders-ok :
    {J : Type 0} (m : MixerContext J) (senders : List BufferSender) (chans : List AudioChannel)
    (mem : Memory)
    → Found m chans
    → (patch_senders m senders chans mem).1 ≡ ok tt
unfolding patch_senders
patch_senders-ok m [] chans mem f = refl
patch_senders-ok m (sdr ∷ senders) [] mem f = refl
patch_senders-ok m (sdr ∷ senders) (ch ∷ chans) mem (here, f) =
    let (target, e) = patch_target-ok m ch.patch here in
    rw (e, patch_senders) (patch_senders-ok m senders chans (patch_sender sdr mem target) f)

append-nil_inv : {A : Type 0} (xs ys : List A) → xs ++ ys ≡ [] → (xs ≡ []) × (ys ≡ [])
append-nil_inv [] ys e = (refl, e)
append-nil_inv (x ∷ xs) ys e = cc

module _ {J X P F : Type 0} (k : Crates J X P F) where
  patch_error-found :
      (m : MixerContext J) (i : ℕ) (patch : Option ℕ)
      → patch_error k m i patch ≡ []
      → (uu : ℕ) → patch ≡ some uu
      → is_some (obtain_channel m uu) ≡ true
  unfolding patch_error
  patch_error-found m i none e uu p = cc
  patch_error-found m i (some vv) e uu p = ground arith

  patch_errors-Found :
      (m : MixerContext J) (i : ℕ) (chans : List AudioChannel)
      → patch_errors k m i chans ≡ []
      → Found m chans
  unfolding patch_errors
  patch_errors-Found m i [] e = tt
  patch_errors-Found m i (ch ∷ chans) e =
      let (here, later) =
        append-nil_inv (patch_error k m i ch.patch) (patch_errors k m (suc i) chans) e in
      (patch_error-found m i ch.patch here, patch_errors-Found m (suc i) chans later)

  -- What a file without errors is like.
  file_errors-nil :
      (chans : List AudioChannel) (mf : MediaResult X)
      → file_errors k chans mf ≡ []
      → (file : X) × (mf ≡ MediaResult.fine file)
        × (0 < k.channels file)
        × (length chans ≤ k.channels file)
  unfolding file_errors
  file_errors-nil chans (MediaResult.failed e) h = cc
  file_errors-nil chans (MediaResult.fine file) h = (file, refl, ground arith, ground arith)

  length-draw : (n from : ℕ) → length (draw k n from) ≡ n
  unfolding draw
  length-draw zero from = refl
  length-draw (suc n) from = ap suc (length-draw n (suc from))

  -- Making senders leaves the mixer's channels, and gives one for each UUID.
  others-kept :
      (m : MixerContext J) (master : BufferSender) (uus : List ℕ)
      → let (m', senders) = other_senders k.v k.q k.jack k.f k.usize_max m master uus in
        (m'.channels ≡ m.channels) × (length senders ≡ length uus)
  unfolding other_senders
  others-kept m master [] = (refl, refl)
  others-kept m master (uu ∷ uus) =
      let s' = Context.new_sender_with_master k.v k.q k.jack k.f k.usize_max m.engine master uu in
      let (c, l) = others-kept (record m { engine = s'.0 }) master uus in (c, ap suc l)

  new_senders-kept :
      (m : MixerContext J) (rate : ℕ) (uus : List ℕ)
      → 0 < length uus
      → (m' : MixerContext J) × (senders : List BufferSender) × (new_senders k.v k.q k.jack k.f
            k.usize_max m rate uus
          ≡ done (m', senders))
        × (m'.channels ≡ m.channels)
        × (length senders ≡ length uus)
  unfolding new_senders mix_sender
  new_senders-kept m rate [] h = elim h [ ]
  new_senders-kept m rate (uu ∷ uus) h =
      let (m', master) = mix_sender k.v k.q k.jack k.f k.usize_max m rate uu in
      let r = other_senders k.v k.q k.jack k.f k.usize_max m' master uus in
      let (c, l) = others-kept m' master uus in (r.0, master ∷ r.1, refl, c, ap suc l)

  -- A file that opened without errors.
  opened_errors-nil :
      (m : MixerContext J) (chans : List AudioChannel) (file : Option (MediaResult X))
      → opened_errors k m chans file ≡ []
      → (mf : X) × (file ≡ some (MediaResult.fine mf)) × (0 < k.channels mf) × Found m chans
  unfolding opened_errors
  opened_errors-nil m chans none e = cc
  opened_errors-nil m chans (some mf) e =
      let (a, b) = append-nil_inv (file_errors k chans mf) (patch_errors k m 0 chans) e in
      let (file, p, pos, le) = file_errors-nil chans mf a in
      (file, ap some p, pos, patch_errors-Found m 0 chans b)

  url_errors-nil :
      (c : AudioController X) (s : Backend.Context J X P F) (url : Option (Result String))
      → url_errors k c s url ≡ []
      → opened_errors k s.mixer c.params.chans c.file ≡ []
  unfolding url_errors
  url_errors-nil c s none e = e
  url_errors-nil c s (some (ok url)) e = e
  url_errors-nil c s (some (err x)) e = cc

  verify_url-nil :
      (c : AudioController X) (s : Backend.Context J X P F) (url : Option String)
      → verify_url k c s url ≡ []
      → opened_errors k s.mixer c.params.chans c.file ≡ []
  unfolding verify_url
  verify_url-nil c s none e = cc
  verify_url-nil c s (some u) e = url_errors-nil c s c.url e

  -- What a patched file with a length comes to.
  patched-ok :
      (c : AudioController X) (s : Backend.Context J X P F) (uuid : ℕ) (mf : X)
      (senders : List BufferSender) (r : Memory × Result (Unit {0}))
      → r.1 ≡ ok tt
      → is_some (k.file_duration mf) ≡ true
      → (c' : AudioController X) × (s' : Backend.Context J X P F) × (rd : RunningData) × (patched k
            c s uuid mf senders r
          ≡ done (c', s', ok true))
        × (c'.rd ≡ some rd)
        × (length rd.senders ≡ length senders)
  unfolding patched start_spooler
  patched-ok c s uuid mf senders (mem, err e) p h = cc
  patched-ok c s uuid mf senders (mem, ok u) p h = elim (Option-cases (k.file_duration mf)) [
    | inl q ↦ absurd (cc (q, h))
    | inr (dur, q) ↦
        let r = start_spooler k c (with_memory s mem) uuid mf senders dur in
        (
          r.0,
          r.1,
          new_running k (length (replace_rd k c.rd (with_memory s mem)).threads) senders dur,
          rw (q, ◌>>=◌, unwrap) refl,
          refl,
          length-map Sender.make_plain senders,
        )
  ]

  open_file-mixer :
      (s : Backend.Context J X P F) (url : Option (Result String))
      → (open_file k s url).0.mixer ≡ s.mixer
  unfolding open_file open_url
  open_file-mixer s none = refl
  open_file-mixer s (some (err e)) = refl
  open_file-mixer s (some (ok path)) = refl

  load_file-ok :
      (c : AudioController X) (s : Backend.Context J X P F) (uuid : ℕ) (mf : X)
      → 0 < k.channels mf
      → Found s.mixer c.params.chans
      → is_some (k.file_duration mf) ≡ true
      → (c' : AudioController X) × (s' : Backend.Context J X P F) × (rd : RunningData) × (load_file
            k c s uuid mf
          ≡ done (c', s', ok true))
        × (c'.rd ≡ some rd)
        × (length rd.senders ≡ k.channels mf)
  unfolding load_file
  load_file-ok c s uuid mf pos found h =
      let (s1, file) = open_file k s c.url in
      let uuids = draw k (k.channels mf) s1.drawn in
      let n = length-draw (k.channels mf) s1.drawn in
      let (m, senders, e, same, l) =
        new_senders-kept s1.mixer (k.sample_rate mf) uuids (omega (arith, n)) in
      let s2 : Backend.Context J X P F = record s1 { mixer = m; drawn = length uuids + s1.drawn } in
      let found' =
        Found-cong s.mixer m c.params.chans
          (ap (λ x. x.channels) (sym (open_file-mixer s c.url)) ∙ sym same) found in
      let (c', s', rd, p, q, r) =
        patched-ok (record c { file = file }) s2 uuid mf senders
          (patch_senders m senders c.params.chans (memory s2))
          (patch_senders-ok m senders c.params.chans (memory s2) found') h in
      (c', s', rd, rw (e, ◌>>=◌) p, q, r ∙ l ∙ n)

  -- An audio action that verifies can be loaded: without errors in its parameters its file is open,
  -- and if an open file has a length, then loading succeeds, with as many senders as the file has
  -- channels. It does not panic, whatever the engine and its connection do.
  pub load-verified :
      (c : AudioController X) (s : Backend.Context J X P F) (uuid : ℕ)
      → verify_params k c s ≡ []
      → ((mf : X) → c.file ≡ some (MediaResult.fine mf) → is_some (k.file_duration mf) ≡ true)
      → (mf : X) × (c' : AudioController X) × (s' : Backend.Context J X P F) × (rd : RunningData)
        × (c.file ≡ some (MediaResult.fine mf))
        × (load k c s uuid ≡ done (c', s', ok true))
        × (c'.rd ≡ some rd)
        × (length rd.senders ≡ k.channels mf)
  unfolding verify_params load
  load-verified c s uuid e h =
      let (mf, p, pos, found) =
        opened_errors-nil s.mixer c.params.chans c.file (verify_url-nil c s c.params.url e) in
      let (c', s', rd, l, q, r) =
        load_file-ok (record c { file = none }) s uuid mf pos found (h mf p) in
      let taken = ap (load_taken k (record c { file = none }) s uuid) p in
      (mf, c', s', rd, p, taken ∙ unfold load_taken in l, q, r)
