-- ===== src/Base/Panics.antt =====
-- What a call ends in: a value or a panic; and Rust's `Result`, with the error's message.
use Prim.Native.String.{String}
use mathlib.Core.Path.{◌≡◌, refl}
use mathlib.Core.Logic.{◌≢◌, ◌⊎◌, inl, inr}
use mathlib.Core.Bool.{Bool, true, false}
use mathlib.Core.Option.{Option, none, some}

-- `panic` stands for every panic: an index out of range, an `unwrap` of nothing, a failed
-- `assert!`, and an overflow or underflow with overflow checks on.
pub data Outcome {ℓ} (A : Type ℓ) : Type ℓ where
  done : A → Outcome A
  panic : Outcome A

infixl 5 ◌>>=◌ ◌>>◌
abbrev pub ◌>>=◌ {ℓ κ} : {A : Type ℓ} {B : Type κ} → Outcome A → (A → Outcome B) → Outcome B
done a >>= f = f a
panic >>= f = panic

abbrev pub ◌>>◌ {ℓ} : {B : Type ℓ} → Outcome (Unit {0}) → Outcome B → Outcome B
m >> k = m >>= λ _. k

-- `Option::unwrap`, and indexing.
abbrev pub unwrap {ℓ} : {A : Type ℓ} → Option A → Outcome A
unwrap none = panic
unwrap (some a) = done a

-- `assert!`.
abbrev pub assert : Bool → Outcome (Unit {0})
assert true = done tt
assert false = panic

pub data Result {ℓ} (A : Type ℓ) : Type ℓ where
  ok : A → Result A
  err : String → Result A

-- Inversion of a call that returns.
pub >>=-eq-done {ℓ κ} :
    {A : Type ℓ} {B : Type κ} (m : Outcome A) (f : A → Outcome B) {b : B}
    → (m >>= f) ≡ done b
    → (a : A) × (m ≡ done a) × (f a ≡ done b)
>>=-eq-done (done a) f h = (a, refl, h)
>>=-eq-done panic f h = cc

pub Outcome-cases {ℓ} : {A : Type ℓ} (m : Outcome A) → ((a : A) × (m ≡ done a)) ⊎ (m ≡ panic)
Outcome-cases (done a) = inl (a, refl)
Outcome-cases panic = inr refl

abbrev pub IsErr {ℓ} : {A : Type ℓ} → Result A → Type 0
IsErr (ok a) = ⊥
IsErr (err e) = Unit {0}

pub err-IsErr {ℓ} : {A : Type ℓ} (m : String) (r : Result A) → err m ≡ r → IsErr r
err-IsErr m (ok a) e = cc
err-IsErr m (err x) e = tt

pub panic-ne_done {ℓ} : {A : Type ℓ} {a : A} → panic ≢ done a
panic-ne_done h = cc

pub done-inj {ℓ} : {A : Type ℓ} {a b : A} → done a ≡ done b → a ≡ b
done-inj h = cc
