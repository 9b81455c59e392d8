-- ===== src/Engine.antt =====
-- The audio engine (sqa-engine/src/lib.rs): its limits, its errors, the cells that the main thread
-- and the audio thread share, and the crates that it builds on.
pub mod Param
pub mod Concrete
mod Tests
pub mod Sender
pub mod Sync
pub mod Thread
pub mod Context
use sqa.Base.{
  ℕ, ◌*◌, ◌<◌, ◌≤◌, ◌≡◌, List, ◌++◌, [], ◌∷◌, Option, none, some, Bool, String, length, get_elem?,
  erase_idx, set, ◌==◌, if◌then◌else◌,
}
use sqa.Base.Float.{F32}

abbrev pub max_players : ℕ
max_players = 256

abbrev pub max_chans : ℕ
max_chans = 64

abbrev pub stream_buffer_size : ℕ
stream_buffer_size = 100000

abbrev pub control_buffer_size : ℕ
control_buffer_size = max_players * 2

abbrev pub one_second_in_nanoseconds : ℕ
one_second_in_nanoseconds = 1000000000

-- The errors (sqa-engine/src/errors.rs), and the results with them.
pub data EngineError : Type 0 where
  jack : String → EngineError
  limit_exceeded : EngineError
  no_such_channel : EngineError

pub data EngineResult {ℓ} (A : Type ℓ) : Type ℓ where
  success : A → EngineResult A
  failure : EngineError → EngineResult A

-- The crate arrayvec, an `ArrayVec` being seen as the list of its elements: a push hands back an
-- element that does not fit in the capacity, and the removals hand back what they removed.
pub record ArrayVec : Type 1 where
  pub push : {A : Type 0} → ℕ → List A → A → List A × Option A
  pub remove : {A : Type 0} → List A → ℕ → List A × Option A
  pub swap_remove : {A : Type 0} → List A → ℕ → List A × Option A

-- What the crate's documentation says of them.
pub record ArrayVecLaws (v : ArrayVec) : Type 1 where
  pub push_room :
      {A : Type 0} (cap : ℕ) (xs : List A) (a : A)
      → length xs < cap
      → v.push cap xs a ≡ (xs ++ a ∷ [], none)
  pub push_full :
      {A : Type 0} (cap : ℕ) (xs : List A) (a : A)
      → cap ≤ length xs
      → v.push cap xs a ≡ (xs, some a)
  pub remove_none : {A : Type 0} (xs : List A) (i : ℕ) → length xs ≤ i → v.remove xs i ≡ (xs, none)
  pub remove_some :
      {A : Type 0} (xs : List A) (i : ℕ) (a : A)
      → get_elem? xs i ≡ some a
      → v.remove xs i ≡ (erase_idx xs i, some a)
  -- The last element takes the place of the removed one.
  pub swap_remove_some :
      {A : Type 0} (xs : List A) (last : A) (i : ℕ) (a : A)
      → get_elem? xs i ≡ some a
      → v.swap_remove (xs ++ last ∷ []) i ≡ (set xs i last, some a)
  pub swap_remove_last :
      {A : Type 0} (xs : List A) (last : A)
      → v.swap_remove (xs ++ last ∷ []) (length xs) ≡ (xs, some last)
  pub swap_remove_none :
      {A : Type 0} (xs : List A) (i : ℕ) → length xs ≤ i → v.swap_remove xs i ≡ (xs, none)

-- The crate bounded_spsc_queue, a queue being seen as the list of its elements. A blocking push
-- waits for room, so it is seen as one that finds it.
pub record Spsc : Type 1 where
  pub push : {A : Type 0} → List A → A → List A
  pub try_push : {A : Type 0} → ℕ → List A → A → List A × Option A
  pub try_pop : {A : Type 0} → List A → List A × Option A
  pub skip_n : {A : Type 0} → List A → ℕ → List A × ℕ

pub record SpscLaws (q : Spsc) : Type 1 where
  pub push_end : {A : Type 0} (xs : List A) (a : A) → q.push xs a ≡ xs ++ a ∷ []
  pub try_push_room :
      {A : Type 0} (cap : ℕ) (xs : List A) (a : A)
      → length xs < cap
      → q.try_push cap xs a ≡ (xs ++ a ∷ [], none)
  pub try_pop_empty : {A : Type 0} → q.try_pop {A = A} [] ≡ ([], none)
  pub try_pop_front : {A : Type 0} (x : A) (xs : List A) → q.try_pop (x ∷ xs) ≡ (xs, some x)
  pub skip_n_le : {A : Type 0} (xs : List A) (n : ℕ) → (q.skip_n xs n).1 ≤ n
