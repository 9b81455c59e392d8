-- ===== src/Backend/Audio.antt =====
-- The controller of audio actions (sqa-backend/src/actions/audio.rs).
pub mod Starting
pub mod Playing
pub mod Loaded
use sqa.Base.{
  ℕ, ◌+◌, suc, zero, Bool, true, false, not, String, str_append, str_eq, Option, none, some, List,
  [], ◌∷◌, ◌++◌, Outcome, done, panic, ◌>>=◌, Result, ok, err, unwrap, length, get_elem?, ltb, leb,
  ◌==◌, if◌then◌else◌, is_some, map, replicate, ◌-◌,
}
use sqa.Base.Float.{F32}
use sqa.Duration.{zero_duration}
use sqa.Actions.{AudioChannel, AudioParams, ParameterError, PlaybackState}
use sqa.Actions.Durations.{DurationInfoInt}
use sqa.Engine.Param.{Parameter}
use sqa.Engine.Sync.{AudioThreadMessage}
use sqa.Engine.Thread.Players.{Player}
use sqa.Engine.Sender
use sqa.Engine.Sender.{Memory}
use sqa.Engine.Context.{BufferSender, PlainSender}
use sqa.Mixer.Context.{MixerContext, patch_eq, obtain_def, obtain_channel, new_senders}
use sqa.Media.{MediaResult}
use sqa.Spooler.{SpoolerMessage}
use sqa.Backend.{
  AudioController, RunningData, SpoolerThread, Context, Crates, ServerMessage, db_lin, draw,
  send_internal, change_state, send_control, hang_up,
}

module _ {X : Type 0} where
  abbrev pub new_controller : F32 → AudioController X
  new_controller zero_f = record {
    params = record { url = none; chans = []; master_vol = zero_f; waveform_uuid = none };
    rd = none;
    file = none;
    url = none;
  }

module _ {J X P F : Type 0} where
  unfoldable pub memory : Context J X P F → Memory
  memory s = s.mixer.engine.mem

  unfoldable pub with_memory : Context J X P F → Memory → Context J X P F
  with_memory s m = record s {
    mixer = record s.mixer { engine = record s.mixer.engine { mem = m } };
  }

module _ {J X P F : Type 0} (k : Crates J X P F) where
  abbrev pub only_file : String × String → Result String
  only_file (scheme, path) =
      if str_eq scheme "file"
      then (if is_some (k.file_name (k.percent_decode path))
          then ok (k.percent_decode path)
          else err "The URL provided contains no file name.")
      else err (
          str_append "The URL scheme "
            (str_append scheme " is not yet supported; only file:// URLs currently work."))

  unfoldable pub parse_url : String → Result String
  parse_url st = elim (k.parse st) [ ok url ↦ only_file url | err e ↦ err e ]

  unfoldable pub open_url : Context J X P F → String → Context J X P F × MediaResult X
  open_url s path =
      let (media, file) = k.open_media s.media path in (record s { media = media }, file)

  unfoldable pub open_file :
      Context J X P F → Option (Result String) → Context J X P F × Option (MediaResult X)
  unfolding open_url
  open_file s none = (s, none)
  open_file s (some (err e)) = (s, none)
  open_file s (some (ok path)) = let (s', file) = open_url s path in (s', some file)

  abbrev pub silent : Option ℕ → AudioChannel
  silent patch = record { patch = patch; vol = k.f.zero_f }

  -- The channels from `idx` on, `n` of them, with the mixer's defaults.
  unfoldable pub default_chans : MixerContext J → ℕ → ℕ → List AudioChannel
  unfolding obtain_def
  default_chans m zero idx = []
  default_chans m (suc n) idx = silent (obtain_def m idx) ∷ default_chans m n (suc idx)

  -- A file with more channels than the parameters have.
  unfoldable pub fit_chans : MixerContext J → List AudioChannel → ℕ → List AudioChannel
  unfolding default_chans
  fit_chans m [] channels = default_chans m channels 0
  fit_chans m (ch ∷ chans) channels =
      if ltb (length (ch ∷ chans)) channels
      then (ch ∷ chans) ++ replicate (channels - length (ch ∷ chans)) (silent none)
      else ch ∷ chans

  unfoldable pub fit_file : Context J X P F → AudioParams → Option (MediaResult X) → AudioParams
  unfolding fit_chans
  fit_file s p none = p
  fit_file s p (some (MediaResult.failed e)) = p
  fit_file s p (some (MediaResult.fine mf)) =
      if length p.chans == k.channels mf
      then p
      else record p { chans = fit_chans s.mixer p.chans (k.channels mf) }

  abbrev pub parse_option : Option String → Option (Result String)
  parse_option none = none
  parse_option (some u) = some (parse_url u)

  -- A new URL: the file is opened, and the channels follow it.
  unfoldable pub new_url :
      AudioController X
      → AudioParams
      → Context J X P F
      → AudioController X × AudioParams × Context J X P F
  unfolding open_file fit_file parse_url
  new_url c p s =
      let url = parse_option p.url in
      let (s', file) = open_file s url in
      (
        record c { url = url; file = file },
        fit_file s' (record p { waveform_uuid = none }) file,
        s',
      )

  -- The volumes of the senders that have a channel.
  unfoldable pub set_volumes : List PlainSender → List AudioChannel → Memory → Memory
  unfolding db_lin Sender.set_volume
  set_volumes [] chans m = m
  set_volumes (sdr ∷ senders) [] m = m
  set_volumes (sdr ∷ senders) (ch ∷ chans) m =
      set_volumes senders chans (Sender.set_volume sdr m (Parameter.raw (db_lin k ch.vol)))

  unfoldable pub apply_volumes :
      Option RunningData → AudioParams → Context J X P F → Outcome (Context J X P F)
  unfolding set_volumes Sender.set_master_volume memory with_memory db_lin
  apply_volumes none p s = done s
  apply_volumes (some rd) p s = do
    first ← unwrap (get_elem? rd.senders 0)
    done (
        with_memory s (
          Sender.set_master_volume first (set_volumes rd.senders p.chans (memory s))
            (Parameter.raw (db_lin k p.master_vol))))

  -- The flag tells that the URL stays.
  unfoldable pub renewed :
      Bool
      → AudioController X
      → AudioParams
      → Context J X P F
      → AudioController X × AudioParams × Context J X P F
  unfolding new_url
  renewed true c p s = (c, p, s)
  renewed false c p s = new_url c p s

  unfoldable pub finish_params :
      AudioController X × AudioParams × Context J X P F
      → Outcome (AudioController X × Context J X P F)
  unfolding apply_volumes
  finish_params (c, p, s) = apply_volumes c.rd p s >>= λ s'. done (record c { params = p }, s')

  unfoldable pub set_params :
      AudioController X
      → AudioParams
      → Context J X P F
      → Outcome (AudioController X × Context J X P F)
  unfolding renewed finish_params
  set_params c p s = finish_params (renewed (patch_eq c.params.url p.url) c p s)

  unfoldable pub desc : AudioController X → Outcome String
  desc c = elim c.url [
    | some (ok url) ↦ unwrap (k.file_name url)
    | some (err e) ↦ done "[invalid audio cue]"
    | none ↦ done "[invalid audio cue]"
  ]

  abbrev pub parameter_error : String → String → ParameterError
  parameter_error name message = record { name = name; message = message }

  -- The errors of a file that was asked for.
  unfoldable pub file_errors : List AudioChannel → MediaResult X → List ParameterError
  file_errors chans (MediaResult.failed e) =
      parameter_error "url" (str_append "Error opening URL: " (k.show_error e)) ∷ []
  file_errors chans (MediaResult.fine mf) =
      (if k.channels mf == 0
        then parameter_error "url" "What sort of file has exactly ZERO channels in it?!" ∷ []
        else [])
      ++ (if ltb (k.channels mf) (length chans)
          then parameter_error "chans"
              "The file has fewer channels than expected (FIXME: better error message here)"
            ∷ []
          else [])

  -- A channel that is patched to one of the mixer that is not there.
  unfoldable pub patch_error : MixerContext J → ℕ → Option ℕ → List ParameterError
  unfolding obtain_channel
  patch_error m i none = []
  patch_error m i (some uu) =
      if is_some (obtain_channel m uu)
      then []
      else parameter_error "chans"
          (str_append "Channel " (str_append (k.show i) " does not exist."))
        ∷ []

  unfoldable pub patch_errors : MixerContext J → ℕ → List AudioChannel → List ParameterError
  unfolding patch_error
  patch_errors m i [] = []
  patch_errors m i (ch ∷ chans) = patch_error m i ch.patch ++ patch_errors m (suc i) chans

  unfoldable pub opened_errors :
      MixerContext J → List AudioChannel → Option (MediaResult X) → List ParameterError
  unfolding file_errors patch_errors
  opened_errors m chans none = parameter_error "url" "Internal error: no file opened!" ∷ []
  opened_errors m chans (some mf) = file_errors chans mf ++ patch_errors m 0 chans

  -- A URL that could not be parsed is the only error then.
  unfoldable pub url_errors :
      AudioController X → Context J X P F → Option (Result String) → List ParameterError
  unfolding opened_errors
  url_errors c s (some (err e)) = parameter_error "url" (str_append "Invalid URL: " e) ∷ []
  url_errors c s (some (ok url)) = opened_errors s.mixer c.params.chans c.file
  url_errors c s none = opened_errors s.mixer c.params.chans c.file

  unfoldable pub verify_url :
      AudioController X → Context J X P F → Option String → List ParameterError
  unfolding url_errors
  verify_url c s none = parameter_error "url" "This field is required." ∷ []
  verify_url c s (some u) = url_errors c s c.url

  unfoldable pub verify_params : AudioController X → Context J X P F → List ParameterError
  unfolding verify_url
  verify_params c s = verify_url c s c.params.url
