-- ===== src/Engine/Concrete.antt =====
-- Concrete crates, a concrete connection and a concrete processor, which show that what the
-- theorems assume of them can hold.
use sqa.Base.{
  ℕ, suc, ◌+◌, ◌-◌, ◌*◌, ◌≡◌, refl, min, drop, false, Option, none, some, List, [], ◌∷◌, ◌++◌,
  length, get_elem?, set, erase_idx, ltb, arith, if◌then◌else◌, get_elem?-append_lt,
  get_elem?-append_cons, ap, lt-length_of_get_elem?, get_elem?-none,
}
use sqa.Base.Float.{FloatOps}
use sqa.Engine.{ArrayVec, ArrayVecLaws, Spsc, SpscLaws, EngineResult}
use sqa.Engine.Param.{Parameter, new_cells}
use sqa.Engine.Sender.{Memory}
use sqa.Engine.Thread.{DeviceContext, DeviceChannel, AudioThreadCommand}
use sqa.Engine.Thread.Process.{JackCallbackContext}
use sqa.Engine.Context.{Jack, System}

-- The last element and those before it.
abbrev pub split_last {ℓ} : {A : Type ℓ} → A → List A → List A × A
split_last x [] = ([], x)
split_last x (y ∷ ys) = let (init, last) = split_last y ys in (x ∷ init, last)

abbrev pub swapped {ℓ} : {A : Type ℓ} → Option A → List A → ℕ → List A × Option A
swapped none xs i = (xs, none)
swapped (some a) [] i = ([], none)
swapped (some a) (x ∷ xs) i = let (init, last) = split_last x xs in (set init i last, some a)

abbrev pub removed_at {ℓ} : {A : Type ℓ} → Option A → List A → ℕ → List A × Option A
removed_at none xs i = (xs, none)
removed_at (some a) xs i = (erase_idx xs i, some a)

abbrev pub vectors : ArrayVec
vectors = record {
  push = λ {A} cap xs a. if ltb (length xs) cap then (xs ++ a ∷ [], none) else (xs, some a);
  remove = λ {A} xs i. removed_at (get_elem? xs i) xs i;
  swap_remove = λ {A} xs i. swapped (get_elem? xs i) xs i;
}

split_last-append {ℓ} :
    {A : Type ℓ} (x : A) (ys : List A) (last : A) → split_last x (ys ++ last ∷ []) ≡ (x ∷ ys, last)
split_last-append x [] last = refl
split_last-append x (y ∷ ys) last = rw (split_last-append y ys last) refl

swapped-append {ℓ} :
    {A : Type ℓ} (xs : List A) (last : A) (i : ℕ) (a : A)
    → get_elem? xs i ≡ some a
    → swapped (get_elem? (xs ++ last ∷ []) i) (xs ++ last ∷ []) i ≡ (set xs i last, some a)
swapped-append [] last i a e = cc
swapped-append (x ∷ xs) last i a e =
    rw
      (
        get_elem?-append_lt (x ∷ xs) (last ∷ []) i (lt-length_of_get_elem? (x ∷ xs) i e),
        e,
        split_last-append x xs last,
      )
      refl

set-last {ℓ} : {A : Type ℓ} (xs : List A) (a : A) → set xs (length xs) a ≡ xs
set-last [] a = refl
set-last (x ∷ xs) a = ap (x ∷◌) (set-last xs a)

swapped-last {ℓ} :
    {A : Type ℓ} (xs : List A) (last : A)
    → swapped (get_elem? (xs ++ last ∷ []) (length xs)) (xs ++ last ∷ []) (length xs)
      ≡ (xs, some last)
swapped-last [] last = refl
swapped-last (x ∷ xs) last =
    rw (get_elem?-append_cons (x ∷ xs) [] last, split_last-append x xs last)
      (rw (set-last (x ∷ xs) last) refl)

pub vectors-laws : ArrayVecLaws vectors
vectors-laws = record {
  push_room = λ {A} cap xs a h. ground arith;
  push_full = λ {A} cap xs a h. ground arith;
  remove_none = λ {A} xs i h. rw (get_elem?-none xs i h) refl;
  remove_some = λ {A} xs i a h. rw h refl;
  swap_remove_some = λ {A} xs last i a h. swapped-append xs last i a h;
  swap_remove_last = λ {A} xs last. swapped-last xs last;
  swap_remove_none = λ {A} xs i h. rw (get_elem?-none xs i h) refl;
}

abbrev pub popped {ℓ} : {A : Type ℓ} → List A → List A × Option A
popped [] = ([], none)
popped (x ∷ xs) = (xs, some x)

abbrev pub queues : Spsc
queues = record {
  push = λ {A} xs a. xs ++ a ∷ [];
  try_push = λ {A} cap xs a. if ltb (length xs) cap then (xs ++ a ∷ [], none) else (xs, some a);
  try_pop = λ {A} xs. popped xs;
  skip_n = λ {A} xs n. (drop n xs, min n (length xs));
}

pub queues-laws : SpscLaws queues
queues-laws = record {
  push_end = λ {A} xs a. refl;
  try_push_room = λ {A} cap xs a h. ground arith;
  try_pop_empty = λ {A}. refl;
  try_pop_front = λ {A} x xs. refl;
  skip_n_le = λ {A} xs n. omega arith;
}

-- A connection that numbers its ports.
abbrev pub numbering : Jack ℕ
numbering = record {
  register_port = λ n name. (suc n, EngineResult.success n);
  unregister_port = λ n port. (n, EngineResult.success tt);
  get_port_by_name = λ n name. EngineResult.success 0;
  connect_ports = λ n a b. (n, EngineResult.success tt);
  disconnect_ports = λ n a b. (n, EngineResult.success tt);
  get_name = λ n port. EngineResult.success "out";
  get_input_ports = λ n. EngineResult.success (0 ∷ 1 ∷ []);
  set_short_name = λ n port name. (n, EngineResult.success tt);
}

abbrev pub floats : FloatOps
floats = record {
  add = λ a b. a + b;
  sub = λ a b. a - b;
  mul = λ a b. a * b;
  div = λ a b. a;
  gt = λ a b. ltb b a;
  zero_f = 0;
  one_f = 1;
  neg_one_f = 0;
  of_u64 = λ n. n;
}

abbrev pub quiet : Memory
quiet = record {
  streams = λ i. record {
    position = 0;
    active = false;
    alive = false;
    kill_when_empty = false;
    start_time = 0;
    output_patch = 0;
    volume = Parameter.raw 1;
  };
  masters = λ i. Parameter.raw 1;
  fades = λ i. new_cells;
  next = 0;
}

abbrev pub device : List (Option DeviceChannel) → List AudioThreadCommand → ℕ → DeviceContext
device chans control cur_t = record {
  players = [];
  chans = chans;
  holes = [];
  control = control;
  length = 0;
  sample_rate = 48000;
  sender = record { tx = []; written_t = 0; cur_t = cur_t };
}

abbrev pub system : List (Option ℕ) → ℕ → DeviceContext → System ℕ
system chans conn dev = record {
  engine = record { conn = conn; chans = chans; holes = [] };
  dev = dev;
  mem = quiet;
}

abbrev pub empty_system : System ℕ
empty_system = system [] 0 (device [] [] 1)

-- One channel opened, and not yet known to the audio thread.
abbrev pub one_channel : System ℕ
one_channel = system (some 0 ∷ []) 1 (device [] (AudioThreadCommand.add_channel 0 ∷ []) 1)

-- The same after a callback.
abbrev pub after_callback : System ℕ
after_callback =
    system (some 0 ∷ []) 1
      (device (some (record { port = 0; written_t = 0; zeroed_t = 0 }) ∷ []) [] 7)

abbrev pub no_buffers : JackCallbackContext
no_buffers = record { nframes = 64; buffers = [] }
