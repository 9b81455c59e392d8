-- ===== src/Base/HashSet.antt =====
-- Rust's `HashSet` of numbers: a list without repetition.
use Prim.Native.Nat.{ℕ}
use mathlib.Core.Path.{◌≡◌, refl}
use mathlib.Core.Bool.{Bool, true, false}
use mathlib.Core.List.{List, [], ◌∷◌}
use native.Mathlib.Omega.{arith}
use sqa.Base.Tests.{◌==◌, if◌then◌else◌}

abbrev pub HashSet : Type 0
HashSet = List ℕ

unfoldable pub contains : ℕ → List ℕ → Bool
contains k [] = false
contains k (x ∷ s) = if x == k then true else contains k s

unfoldable pub insert : ℕ → HashSet → HashSet
insert k [] = k ∷ []
insert k (x ∷ s) = if x == k then x ∷ s else x ∷ insert k s

unfoldable pub remove : ℕ → HashSet → HashSet
remove k [] = []
remove k (x ∷ s) = if x == k then remove k s else x ∷ remove k s

pub contains-insert :
    (k j : ℕ) (s : HashSet) → contains j (insert k s) ≡ (if k == j then true else contains j s)
unfolding contains insert
contains-insert k j [] = refl
contains-insert k j (x ∷ s) = ground (arith, contains-insert k j s)

pub contains-remove :
    (k j : ℕ) (s : HashSet) → contains j (remove k s) ≡ (if k == j then false else contains j s)
unfolding contains remove
contains-remove k j [] = ground arith
contains-remove k j (x ∷ s) = ground (arith, contains-remove k j s)
