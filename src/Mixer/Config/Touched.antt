-- ===== src/Mixer/Config/Touched.antt =====
-- The UUIDs that applying a configuration has touched, and what is kept by them
-- (sqa-backend/src/mixer.rs).
use sqa.Base.{
  ℕ, zero, suc, ◌≡◌, refl, sym, ◌∙◌, subst, Bool, true, none, some, List, [], ◌∷◌, ◌++◌, get_elem?,
  ◌==◌, if◌then◌else◌, is_some, arith, Bool-cases, inl, inr,
}
use sqa.Base.HashMap
use sqa.Base.HashMap.{HashMap, get-insert}
use sqa.Base.HashSet.{contains}
use sqa.Mixer.{Channel}
use sqa.Mixer.Context.{retain, retain_defs}
use sqa.Mixer.Config.Growth.{Keyed, Known}

pub contains-push :
    (xs : List ℕ) (k j : ℕ) → contains j (xs ++ k ∷ []) ≡ (if k == j then true else contains j xs)
unfolding contains
contains-push [] k j = refl
contains-push (x ∷ xs) k j = ground (arith, contains-push xs k j)

pub Known-push :
    (xs : List ℕ) (k : ℕ) (channels : HashMap Channel)
    → Known xs channels
    → is_some (HashMap.get k channels) ≡ true
    → Known (xs ++ k ∷ []) channels
Known-push xs k channels w h j e = ground (arith, contains-push xs k j, w j)

pub get-retain :
    {V : Type 0} (p : ℕ → Bool) (m : HashMap V) (k : ℕ)
    → HashMap.get k (retain p m) ≡ (if p k then HashMap.get k m else none)
unfolding retain HashMap.get
get-retain p [] k = ground arith
get-retain p ((j, v) ∷ m) k = ground (arith, get-retain p m k)

pub contains-retain_defs :
    (touched defs : List ℕ) (k : ℕ)
    → contains k (retain_defs touched defs) ≡ true
    → contains k touched ≡ true
unfolding retain_defs contains
contains-retain_defs touched [] k h = cc
contains-retain_defs touched (x ∷ defs) k h = elim (Bool-cases (contains x touched)) [
  | inr n ↦ contains-retain_defs touched defs k (rw (n, retain_defs) at h)
  | inl n ↦ elim (Bool-cases (x == k)) [
    | inl e ↦ let p : x ≡ k = ground arith in subst (λ t. contains t touched ≡ true) p n
    | inr e ↦ contains-retain_defs touched defs k (rw (n, e, retain_defs, contains) at h)
  ]
]

pub contains-get_elem? : (xs : List ℕ) (i k : ℕ) → get_elem? xs i ≡ some k → contains k xs ≡ true
unfolding contains
contains-get_elem? [] i k h = cc
contains-get_elem? (x ∷ xs) zero k h = ground arith
contains-get_elem? (x ∷ xs) (suc i) k h = ground (arith, contains-get_elem? xs i k)

pub keys-Known : (x : HashMap Channel) → Known (HashMap.keys x) x
unfolding contains HashMap.get
keys-Known [] k h = cc
keys-Known ((j, c) ∷ x) k h = ground (arith, keys-Known x k)

pub no_uuids : (x : HashMap Channel) → Known [] x
unfolding contains
no_uuids x k h = cc

-- What is left in the end.
pub retained :
    (touched defs : List ℕ) (x : HashMap Channel)
    → Keyed x
    → Known touched x
    → Keyed (retain (λ k. contains k touched) x)
      × ((idx uu : ℕ)
          → get_elem? (retain_defs touched defs) idx ≡ some uu
          → is_some (HashMap.get uu (retain (λ k. contains k touched) x)) ≡ true)
retained touched defs x w n = (keyed, known)
  where
    keyed : Keyed (retain (λ k. contains k touched) x)
    keyed k c e =
        let found : HashMap.get k (retain (λ j. contains j touched) x)
            ≡ (if contains k touched then HashMap.get k x else none) =
          get-retain (λ j. contains j touched) x k in
        elim (Bool-cases (contains k touched)) [
          | inl t ↦ let kept = rw t at found in w k c (sym kept ∙ e)
          | inr t ↦ let gone = rw t at found in absurd (cc)
        ]

    known :
        (idx uu : ℕ)
        → get_elem? (retain_defs touched defs) idx ≡ some uu
        → is_some (HashMap.get uu (retain (λ k. contains k touched) x)) ≡ true
    known idx uu e =
        let t =
          contains-retain_defs touched defs uu
            (contains-get_elem? (retain_defs touched defs) idx uu e) in
        rw (get-retain (λ k. contains k touched) x uu, t) (n uu t)
