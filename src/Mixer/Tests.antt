-- ===== src/Mixer/Tests.antt =====
-- The theorem on the mixer's configuration at a concrete mixer.
use sqa.Base.{ℕ, ◌≡◌, refl, true, none, some, [], ◌∷◌, Outcome, done, panic, is_some, arith}
use sqa.Base.HashMap
use sqa.Base.HashSet
use sqa.Base.Words.{sub_u64}
use sqa.Engine.Concrete.{vectors, queues, numbering, after_callback}
use sqa.Mixer.{Channel, MixerConf, Tried, went}
use sqa.Mixer.Context.{MixerContext, obtain_def}
use sqa.Mixer.Config.{process_config}
use sqa.Mixer.Config.Growth.{Keyed}
use sqa.Mixer.Config.Defaults.{process_config-Defaults}

abbrev left : Channel
left = record { name = "left"; uuid = 7; eid = 0; patch = none }

abbrev mixer : MixerContext ℕ
mixer = record { engine = after_callback; channels = (7, left) ∷ []; defs = 7 ∷ [] }

-- The channel with another name and a patch, a new one, and a default channel that is none.
abbrev conf : MixerConf
conf = record {
  channels =
      record { name = "main"; uuid = 7; eid = 0; patch = some "out" }
      ∷ record { name = "right"; uuid = 9; eid = 0; patch = none }
      ∷ [];
  defs = 9 ∷ 4 ∷ 7 ∷ [];
}

abbrev left_in : MixerContext ℕ → Outcome (MixerContext ℕ × Tried (Unit {0})) → MixerContext ℕ
left_in m (done r) = r.0
left_in m panic = m

abbrev applied : MixerContext ℕ
applied = left_in mixer (process_config vectors queues numbering conf mixer)

applied-went : process_config vectors queues numbering conf mixer ≡ done (applied, went tt)
unfolding process_config HashMap.get HashMap.insert HashSet.contains sub_u64
applied-went = refl

applied_defs : applied.defs ≡ 9 ∷ 7 ∷ []
unfolding process_config HashMap.get HashMap.insert HashSet.contains sub_u64
applied_defs = refl

mixer-Keyed : Keyed mixer.channels
unfolding HashMap.get
mixer-Keyed k c e = ground arith

process_config-Defaults_example :
    Keyed applied.channels
    × ((idx uu : ℕ)
        → obtain_def applied idx ≡ some uu
        → is_some (HashMap.get uu applied.channels) ≡ true)
process_config-Defaults_example =
    process_config-Defaults vectors queues numbering conf mixer applied tt mixer-Keyed applied-went
