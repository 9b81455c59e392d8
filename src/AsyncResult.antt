-- ===== src/AsyncResult.antt =====
-- Asynchronous results (sqa-backend/src/async.rs). A future is of any type `F`; how it answers a
-- poll is a parameter, since the futures themselves are the event loop's.
use sqa.Base.{Bool, true, false, Result, err, ◌≡◌, refl, arith}

-- What a poll of a future answers: it is done, or it goes on as another future.
pub data Polled {ℓ} (T : Type ℓ) (F : Type ℓ) : Type ℓ where
  ready : Result T → Polled T F
  not_ready : F → Polled T F

pub data AsyncResult {ℓ} (T : Type ℓ) (F : Type ℓ) : Type ℓ where
  empty : AsyncResult T F
  waiting : F → AsyncResult T F
  result : Result T → AsyncResult T F

module _ {ℓ} {T F : Type ℓ} where
  unfoldable pub is_empty : AsyncResult T F → Bool
  is_empty empty = true
  is_empty (waiting f) = false
  is_empty (result r) = false

  unfoldable pub is_waiting : AsyncResult T F → Bool
  is_waiting empty = false
  is_waiting (waiting f) = true
  is_waiting (result r) = false

  unfoldable pub is_complete : AsyncResult T F → Bool
  is_complete empty = false
  is_complete (waiting f) = false
  is_complete (result r) = true

  unfoldable pub as_result : AsyncResult T F → Result T
  as_result empty = err "No asynchronous computation was performed."
  as_result (waiting f) = err "An asynchronous computation had not completed."
  as_result (result r) = r

  settle : Polled T F → AsyncResult T F × Bool
  settle (ready r) = (result r, true)
  settle (not_ready f) = (waiting f, false)

  -- The second part tells whether the poll was `Ready`.
  unfoldable pub poll : (F → Polled T F) → AsyncResult T F → AsyncResult T F × Bool
  unfolding settle
  poll step empty = (empty, true)
  poll step (waiting f) = settle (step f)
  poll step (result r) = (result r, true)

  abbrev pub not_waiting : AsyncResult T F → Bool
  not_waiting empty = true
  not_waiting (waiting f) = false
  not_waiting (result r) = true

  -- A poll is ready exactly when nothing waits any more, it never takes away a result, and only a
  -- waiting result can become complete.
  pub poll_lem :
      (step : F → Polled T F) (a : AsyncResult T F)
      → ((poll step a).1 ≡ not_waiting (poll step a).0)
        × ((r : Result T) → a ≡ result r → (poll step a).0 ≡ result r)
        × (is_empty (poll step a).0 ≡ is_empty a)
  unfolding poll is_empty
  poll_lem step empty = (refl, λ r e. cc, refl)
  poll_lem step (waiting f) = ground arith
  poll_lem step (result r) = (refl, λ q e. e, refl)
