-- ===== src/Mixer/Config.antt =====
-- Applying a configuration (sqa-backend/src/mixer.rs).
pub mod Growth
pub mod Touched
pub mod Defaults
use sqa.Base.{
  ℕ, Bool, true, false, ◌&&◌, not, String, str_eq, Option, none, some, List, [], ◌∷◌, ◌++◌, Outcome,
  done, ◌==◌, if◌then◌else◌,
}
use sqa.Base.HashMap
use sqa.Base.HashMap.{HashMap}
use sqa.Base.HashSet.{contains}
use sqa.Engine.{ArrayVec, Spsc, EngineResult}
use sqa.Engine.Context.{Jack, remove_channel}
use sqa.Mixer.{Channel, MixerConf, MixerError, Call, ◌>>=◌, ◌>>◌, return, modify}
use sqa.Mixer.Context.{MixerContext, Mix, of_engine, update_known, open_new, retain, retain_defs}

module _ {J : Type 0} (v : ArrayVec) (q : Spsc) (jack : Jack J) where
  -- The loops over the channels that clash with one of the new ones by name alone. A channel is
  -- removed, and put down as touched, once for each clash.
  unfoldable pub remove_clashes_with : ℕ → Channel → List Channel → List ℕ → Mix J (List ℕ)
  unfolding remove_channel
  remove_clashes_with uu ch [] touched = return touched
  remove_clashes_with uu ch (nch ∷ rest) touched =
      if str_eq ch.name nch.name && not (ch.uuid == nch.uuid)
      then (do
        of_engine (λ s. remove_channel v q jack s ch.eid)
        remove_clashes_with uu ch rest (touched ++ uu ∷ []))
      else remove_clashes_with uu ch rest touched

  unfoldable pub remove_clashes : HashMap Channel → List Channel → List ℕ → Mix J (List ℕ)
  unfolding remove_clashes_with
  remove_clashes [] new touched = return touched
  remove_clashes ((uu, ch) ∷ channels) new touched = do
    touched' ← remove_clashes_with uu ch new touched
    remove_clashes channels new touched'

  unfoldable pub apply_channel : Channel → Mix J ℕ
  unfolding update_known open_new HashMap.get
  apply_channel ch m = elim (HashMap.get ch.uuid m.channels) [
    | none ↦ open_new v q jack ch m
    | some c2 ↦ update_known v q jack ch c2 m
  ]

  unfoldable pub apply_channels : List Channel → List ℕ → Mix J (List ℕ)
  unfolding apply_channel
  apply_channels [] touched = return touched
  apply_channels (ch ∷ channels) touched = do
    uu ← apply_channel ch
    apply_channels channels (touched ++ uu ∷ [])

  unfoldable pub remove_untouched : HashMap Channel → List ℕ → Mix J (Unit {0})
  unfolding remove_channel
  remove_untouched [] touched = return tt
  remove_untouched ((uu, ch) ∷ channels) touched =
      if contains uu touched
      then remove_untouched channels touched
      else (do of_engine (λ s. remove_channel v q jack s ch.eid); remove_untouched channels touched)

  unfoldable pub process_config : MixerConf → Mix J (Unit {0})
  unfolding remove_clashes apply_channels remove_untouched retain retain_defs
  process_config conf m =
      (do
        clashed ← remove_clashes m.channels conf.channels []
        touched ← apply_channels conf.channels clashed
        modify (λ t. record t { defs = retain_defs touched conf.defs })
        λ t. remove_untouched t.channels touched t
        modify (λ t. record t { channels = retain (λ uu. contains uu touched) t.channels }))
        m
