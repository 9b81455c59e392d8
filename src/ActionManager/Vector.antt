-- ===== src/ActionManager/Vector.antt =====
-- What the manager uses of a vector of UUIDs: the position of an entry, insertion and removal at an
-- index, and how these undo one another.
use sqa.Base.{
  ℕ, zero, suc, ◌≤◌, ◌<◌, ◌≡◌, refl, ap, false, true, Option, none, some, List, [], ◌∷◌, ◌++◌,
  length, get_elem?, insert_idx, erase_idx, Outcome, done, panic, arith, ltb, leb, ◌==◌,
  if◌then◌else◌,
}
use sqa.Base.HashSet.{contains}

shift : Option ℕ → Option ℕ
shift none = none
shift (some i) = some (suc i)

-- `iter().position(|&uu| uu == uuid)`.
unfoldable pub position : ℕ → List ℕ → Option ℕ
unfolding shift
position k [] = none
position k (x ∷ xs) = if x == k then some 0 else shift (position k xs)

-- `Vec::insert` panics past the end, `Vec::remove` from the end on.
unfoldable pub vec_insert : List ℕ → ℕ → ℕ → Outcome (List ℕ)
vec_insert xs i x = if leb i (length xs) then done (insert_idx xs i x) else panic

unfoldable pub vec_remove : List ℕ → ℕ → Outcome (List ℕ)
vec_remove xs i = if ltb i (length xs) then done (erase_idx xs i) else panic

abbrev pub NoDup : List ℕ → Type 0
NoDup [] = Unit {0}
NoDup (x ∷ xs) = (contains x xs ≡ false) × NoDup xs

-- The entry at its position, which is in range.
pub position-get_elem? :
    (k : ℕ) (xs : List ℕ) (i : ℕ) → position k xs ≡ some i → get_elem? xs i ≡ some k
unfolding position
position-get_elem? k [] i e = cc
position-get_elem? k (x ∷ xs) zero e = ground arith
position-get_elem? k (x ∷ xs) (suc i) e = ground (arith, position-get_elem? k xs i)

pub position-contains :
    (k : ℕ) (xs : List ℕ) (i : ℕ) → position k xs ≡ some i → contains k xs ≡ true
unfolding position contains
position-contains k [] i e = cc
position-contains k (x ∷ xs) zero e = ground arith
position-contains k (x ∷ xs) (suc i) e = ground (arith, position-contains k xs i)

pub position-none_iff_false : (k : ℕ) (xs : List ℕ) → position k xs ≡ none → contains k xs ≡ false
unfolding position contains
position-none_iff_false k [] e = refl
position-none_iff_false k (x ∷ xs) e = ground (arith, position-none_iff_false k xs)

pub length-erase_idx :
    (xs : List ℕ) (i : ℕ) → i < length xs → suc (length (erase_idx xs i)) ≡ length xs
length-erase_idx [] i h = elim h [ ]
length-erase_idx (x ∷ xs) zero h = refl
length-erase_idx (x ∷ xs) (suc i) h = ap suc (length-erase_idx xs i (omega arith))

pub length-insert_idx : (xs : List ℕ) (i k : ℕ) → length (insert_idx xs i k) ≡ suc (length xs)
length-insert_idx xs zero k = refl
length-insert_idx [] (suc i) k = refl
length-insert_idx (x ∷ xs) (suc i) k = ap suc (length-insert_idx xs i k)

pub get_elem?-insert_idx :
    (xs : List ℕ) (i k : ℕ) → i ≤ length xs → get_elem? (insert_idx xs i k) i ≡ some k
get_elem?-insert_idx xs zero k h = refl
get_elem?-insert_idx [] (suc i) k h = absurd (omega arith)
get_elem?-insert_idx (x ∷ xs) (suc i) k h = get_elem?-insert_idx xs i k (omega arith)

pub erase_idx-insert_idx :
    (xs : List ℕ) (i k : ℕ) → i ≤ length xs → erase_idx (insert_idx xs i k) i ≡ xs
erase_idx-insert_idx xs zero k h = refl
erase_idx-insert_idx [] (suc i) k h = absurd (omega arith)
erase_idx-insert_idx (x ∷ xs) (suc i) k h = ap (x ∷◌) (erase_idx-insert_idx xs i k (omega arith))

pub insert_idx-erase_idx :
    (xs : List ℕ) (i k : ℕ) → get_elem? xs i ≡ some k → insert_idx (erase_idx xs i) i k ≡ xs
insert_idx-erase_idx [] i k h = cc
insert_idx-erase_idx (x ∷ xs) zero k h = cc
insert_idx-erase_idx (x ∷ xs) (suc i) k h = ap (x ∷◌) (insert_idx-erase_idx xs i k h)

pub contains-insert_idx :
    (xs : List ℕ) (i k j : ℕ)
    → contains j (insert_idx xs i k) ≡ (if k == j then true else contains j xs)
unfolding contains
contains-insert_idx xs zero k j = refl
contains-insert_idx [] (suc i) k j = refl
contains-insert_idx (x ∷ xs) (suc i) k j = ground (arith, contains-insert_idx xs i k j)

-- With no repetition, removing the entry at its position removes it for good.
pub contains-erase_idx :
    (xs : List ℕ) (i k j : ℕ)
    → NoDup xs
    → get_elem? xs i ≡ some k
    → contains j (erase_idx xs i) ≡ (if k == j then false else contains j xs)
unfolding contains
contains-erase_idx [] i k j d e = cc
contains-erase_idx (x ∷ xs) zero k j d e = ground arith
contains-erase_idx (x ∷ xs) (suc i) k j d e =
    ground (arith, contains-erase_idx xs i k j d.1 e, contains-at xs i k e)
  where
    contains-at : (ys : List ℕ) (n z : ℕ) → get_elem? ys n ≡ some z → contains z ys ≡ true
    contains-at [] n z h = cc
    contains-at (y ∷ ys) zero z h = ground arith
    contains-at (y ∷ ys) (suc n) z h = ground (arith, contains-at ys n z h)

pub NoDup-insert_idx :
    (xs : List ℕ) (i k : ℕ) → NoDup xs → contains k xs ≡ false → NoDup (insert_idx xs i k)
unfolding contains
NoDup-insert_idx xs zero k d n = (n, d)
NoDup-insert_idx [] (suc i) k d n = (refl, tt)
NoDup-insert_idx (x ∷ xs) (suc i) k d n =
    (ground (arith, contains-insert_idx xs i k x), NoDup-insert_idx xs i k d.1 (ground arith))

pub NoDup-erase_idx :
    (xs : List ℕ) (i k : ℕ) → NoDup xs → get_elem? xs i ≡ some k → NoDup (erase_idx xs i)
NoDup-erase_idx [] i k d e = tt
NoDup-erase_idx (x ∷ xs) zero k d e = d.1
NoDup-erase_idx (x ∷ xs) (suc i) k d e =
    (ground (arith, contains-erase_idx xs i k x d.1 e), NoDup-erase_idx xs i k d.1 e)

-- The position of an entry that was put where it did not occur.
pub position-insert_idx :
    (xs : List ℕ) (i k : ℕ)
    → i ≤ length xs
    → contains k xs ≡ false
    → position k (insert_idx xs i k) ≡ some i
unfolding position contains
position-insert_idx xs zero k h n = ground arith
position-insert_idx [] (suc i) k h n = absurd (omega arith)
position-insert_idx (x ∷ xs) (suc i) k h n = ground (arith, position-insert_idx xs i k)

pub insert_idx-length : (xs : List ℕ) (k : ℕ) → insert_idx xs (length xs) k ≡ xs ++ k ∷ []
insert_idx-length [] k = refl
insert_idx-length (x ∷ xs) k = ap (x ∷◌) (insert_idx-length xs k)
