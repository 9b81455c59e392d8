-- ===== src/Engine/Context/Layout.antt =====
-- The layout of channels that the engine and the audio thread keep in step: places, each with a
-- port or vacant, and the list of the vacant ones, which are filled again in this order.
use sqa.Base.{
  ℕ, zero, suc, ◌-◌, ◌<◌, ◌≤◌, ◌≡◌, ◌≢◌, ◌↔◌, refl, ap, ◌∙◌, Bool-cases, inl, inr, true, false,
  Option, none, some, List, [], ◌∷◌, ◌++◌, length, get_elem?, set, ◌==◌, if◌then◌else◌, arith,
  length-append, length-set, lt-length_of_get_elem?,
}
use sqa.Base.HashSet.{contains}
use sqa.ActionManager.Vector.{NoDup}
use sqa.Engine.{max_chans}

abbrev pub Layout : Type 0
Layout = List (Option ℕ) × List ℕ

-- The place that a new channel gets.
abbrev pub free : Layout → ℕ
free (chans, []) = length chans
free (chans, ix ∷ holes) = ix

abbrev pub add : ℕ → Layout → Layout
add port (chans, []) = (chans ++ some port ∷ [], [])
add port (chans, ix ∷ holes) = (set chans ix (some port), holes)

abbrev pub take_out : ℕ → Layout → Layout
take_out idx (chans, holes) = (set chans idx none, holes ++ idx ∷ [])

abbrev pub vacancies : List (Option ℕ) → ℕ
vacancies [] = 0
vacancies (none ∷ chans) = suc (vacancies chans)
vacancies (some p ∷ chans) = vacancies chans

-- The holes are the vacant places, each listed once, and one place stays unused.
pub record IsValid (l : Layout) : Type 0 where
  pub bounded : length l.0 < max_chans
  pub counted : vacancies l.0 ≡ length l.1
  pub listed : (i : ℕ) → (contains i l.1 ≡ true) ↔ (get_elem? l.0 i ≡ some none)
  pub distinct : NoDup l.1

pub empty-IsValid : IsValid ([], [])
unfolding contains
empty-IsValid = record {
  bounded = omega arith;
  counted = refl;
  listed = λ i. (λ h. cc, λ h. cc);
  distinct = tt;
}

pub vacancies_le : (chans : List (Option ℕ)) → vacancies chans ≤ length chans
vacancies_le [] = omega arith
vacancies_le (none ∷ chans) = omega (arith, vacancies_le chans)
vacancies_le (some p ∷ chans) = omega (arith, vacancies_le chans)

vacancies-append :
    (chans : List (Option ℕ)) (p : ℕ) → vacancies (chans ++ some p ∷ []) ≡ vacancies chans
vacancies-append [] p = refl
vacancies-append (none ∷ chans) p = ap suc (vacancies-append chans p)
vacancies-append (some x ∷ chans) p = vacancies-append chans p

vacancies-fill :
    (chans : List (Option ℕ)) (i p : ℕ)
    → get_elem? chans i ≡ some none
    → suc (vacancies (set chans i (some p))) ≡ vacancies chans
vacancies-fill [] i p h = cc
vacancies-fill (none ∷ chans) zero p h = refl
vacancies-fill (some x ∷ chans) zero p h = cc
vacancies-fill (none ∷ chans) (suc i) p h = ap suc (vacancies-fill chans i p h)
vacancies-fill (some x ∷ chans) (suc i) p h = vacancies-fill chans i p h

vacancies-clear :
    (chans : List (Option ℕ)) (i p : ℕ)
    → get_elem? chans i ≡ some (some p)
    → vacancies (set chans i none) ≡ suc (vacancies chans)
vacancies-clear [] i p h = cc
vacancies-clear (none ∷ chans) zero p h = cc
vacancies-clear (some x ∷ chans) zero p h = refl
vacancies-clear (none ∷ chans) (suc i) p h = ap suc (vacancies-clear chans i p h)
vacancies-clear (some x ∷ chans) (suc i) p h = vacancies-clear chans i p h

-- Entries after a write and after a push.
get_elem?-set {ℓ} :
    {A : Type ℓ} (xs : List A) (i j : ℕ) (v : A)
    → i < length xs
    → get_elem? (set xs i v) j ≡ (if i == j then some v else get_elem? xs j)
get_elem?-set [] i j v h = absurd (omega arith)
get_elem?-set (x ∷ xs) zero zero v h = refl
get_elem?-set (x ∷ xs) zero (suc j) v h = ground arith
get_elem?-set (x ∷ xs) (suc i) zero v h = ground arith
get_elem?-set (x ∷ xs) (suc i) (suc j) v h = ground (arith, get_elem?-set xs i j v)

get_elem?-push {ℓ} :
    {A : Type ℓ} (xs : List A) (j : ℕ) (v : A)
    → get_elem? (xs ++ v ∷ []) j ≡ (if length xs == j then some v else get_elem? xs j)
get_elem?-push [] zero v = refl
get_elem?-push [] (suc j) v = ground arith
get_elem?-push (x ∷ xs) zero v = ground arith
get_elem?-push (x ∷ xs) (suc j) v = ground (arith, get_elem?-push xs j v)

contains-push :
    (xs : List ℕ) (k j : ℕ) → contains j (xs ++ k ∷ []) ≡ (if k == j then true else contains j xs)
unfolding contains
contains-push [] k j = refl
contains-push (x ∷ xs) k j = ground (arith, contains-push xs k j)

NoDup-push : (xs : List ℕ) (k : ℕ) → NoDup xs → contains k xs ≡ false → NoDup (xs ++ k ∷ [])
unfolding contains
NoDup-push [] k d n = (refl, tt)
NoDup-push (x ∷ xs) k d n =
    (ground (arith, contains-push xs k x), NoDup-push xs k d.1 (ground arith))

pub add-IsValid :
    (p : ℕ) (l : Layout) → IsValid l → length l.0 - length l.1 ≢ max_chans - 1 → IsValid (add p l)
unfolding contains
add-IsValid p (chans, []) v n = record {
  bounded = omega (arith, length-append chans (some p ∷ []), v.bounded, n);
  counted = vacancies-append chans p ∙ v.counted;
  listed = λ i. (λ h. cc, λ h. (v.listed i).1 (ground (arith, get_elem?-push chans i (some p))));
  distinct = tt;
}
add-IsValid p (chans, ix ∷ holes) v n = record {
  bounded = omega (arith, length-set chans ix (some p), v.bounded);
  counted = omega (arith, vacancies-fill chans ix p at, v.counted);
  listed = λ i. (
    λ h. ground (arith, get_elem?-set chans ix i (some p) small, v.distinct.0, (v.listed i).0),
    λ h. ground (arith, get_elem?-set chans ix i (some p) small, (v.listed i).1),
  );
  distinct = v.distinct.1;
}
  where
    at : get_elem? chans ix ≡ some none
    at = (v.listed ix).0 (ground arith)

    small : ix < length chans
    small = lt-length_of_get_elem? chans ix at

pub take_out-IsValid :
    (idx p : ℕ) (l : Layout)
    → IsValid l
    → get_elem? l.0 idx ≡ some (some p)
    → IsValid (take_out idx l)
take_out-IsValid idx p (chans, holes) v e =
    let fresh : contains idx holes ≡ false = elim (Bool-cases (contains idx holes)) [
      | inl y ↦ absurd (cc ((v.listed idx).0 y))
      | inr y ↦ y
    ] in
    let small = lt-length_of_get_elem? chans idx e in
    record {
      bounded = omega (arith, length-set chans idx none, v.bounded);
      counted =
          omega (arith, vacancies-clear chans idx p e, v.counted, length-append holes (idx ∷ []));
      listed = λ i. (
        λ h. ground (
          arith,
          get_elem?-set chans idx i none small,
          contains-push holes idx i,
          (v.listed i).0,
        ),
        λ h. ground (
          arith,
          get_elem?-set chans idx i none small,
          contains-push holes idx i,
          (v.listed i).1,
        ),
      );
      distinct = NoDup-push holes idx v.distinct fresh;
    }
