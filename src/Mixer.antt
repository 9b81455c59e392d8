-- ===== src/Mixer.antt =====
-- The mixer (sqa-backend/src/mixer.rs): its configuration, and calls that can fail on the way and
-- keep what they have done until then.
pub mod Context
pub mod Config
mod Tests
use sqa.Base.{ℕ, String, List, Option, none, some, Outcome, done, panic, ◌≡◌, refl}
use sqa.Engine.{EngineError}

pub record Channel : Type 0 where
  pub name : String
  pub uuid : ℕ
  pub eid : ℕ
  pub patch : Option String

pub record MixerConf : Type 0 where
  pub channels : List Channel
  pub defs : List ℕ

pub data MixerError : Type 0 where
  engine : EngineError → MixerError
  message : String → MixerError

-- The result of a call that may leave early by `?`.
pub data Tried {ℓ} (A : Type ℓ) : Type ℓ where
  went : A → Tried A
  threw : MixerError → Tried A

-- A call that works on a value of type `M`.
abbrev pub Call : Type 0 → Type 0 → Type 0
Call M A = M → Outcome (M × Tried A)

abbrev pub follow :
    {M A B : Type 0} → (A → Call M B) → Outcome (M × Tried A) → Outcome (M × Tried B)
follow f (done (m, went a)) = f a m
follow f (done (m, threw e)) = done (m, threw e)
follow f panic = panic

infixl 5 ◌>>=◌ ◌>>◌
abbrev pub ◌>>=◌ : {M A B : Type 0} → Call M A → (A → Call M B) → Call M B
(c >>= f) m = follow f (c m)

abbrev pub ◌>>◌ : {M B : Type 0} → Call M (Unit {0}) → Call M B → Call M B
c >> k = c >>= λ u. k

abbrev pub return : {M A : Type 0} → A → Call M A
return a m = done (m, went a)

abbrev pub throw : {M A : Type 0} → MixerError → Call M A
throw e m = done (m, threw e)

abbrev pub modify : {M : Type 0} → (M → M) → Call M (Unit {0})
modify f m = done (f m, went tt)

-- `ok_or` and `?` on an option, and `unwrap` and indexing.
abbrev pub ok_or : {M A : Type 0} → Option A → MixerError → Call M A
ok_or none e = throw e
ok_or (some a) e = return a

abbrev pub unwrap : {M A : Type 0} → Option A → Call M A
unwrap none m = panic
unwrap (some a) m = done (m, went a)

-- Inversion of a sequence of calls that went through.
pub follow-went :
    {M A B : Type 0} (f : A → Call M B) (o : Outcome (M × Tried A)) {m' : M} {b : B}
    → follow f o ≡ done (m', went b)
    → (m : M) × (a : A) × (o ≡ done (m, went a)) × (f a m ≡ done (m', went b))
follow-went f (done (m, went a)) h = (m, a, refl, h)
follow-went f (done (m, threw e)) h = cc
follow-went f panic h = cc

pub went-inj : {A : Type 0} {a b : A} → went a ≡ went b → a ≡ b
went-inj h = cc
