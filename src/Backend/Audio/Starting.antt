-- ===== src/Backend/Audio/Starting.antt =====
-- Executing and pausing an audio action reach every stream.
use sqa.Base.{
  ℕ, zero, suc, ◌≡◌, ap, subst, Bool, true, false, Option, none, some, List, [], ◌∷◌, done, ok,
  get_elem?, arith, ◌==◌,
}
use sqa.Actions.{AudioChannel}
use sqa.Engine.Sender
use sqa.Engine.Sender.{Memory, StreamCells, update, store}
use sqa.Engine.Context.{PlainSender}
use sqa.Backend.{AudioController, RunningData, Context, Crates}
use sqa.Backend.Audio.{memory, with_memory}
use sqa.Backend.Audio.Playing.{
  first_volume, start_senders, set_active_all, execute, execute_with, pause, pause_with,
}

-- A stream that plays from a time on.
abbrev pub Plays : ℕ → StreamCells → Type 0
Plays time c = (c.active ≡ true) × (c.start_time ≡ time)

some-inj : {A : Type 0} {a b : A} → some a ≡ some b → a ≡ b
some-inj h = cc

stopped-set_active :
    (sdr : PlainSender) (mem : Memory) (j : ℕ)
    → ((Sender.set_active sdr mem false).streams sdr.cells).active ≡ false
unfolding Sender.set_active store update
stopped-set_active sdr mem j = ground arith

keeps-set_active :
    (sdr : PlainSender) (mem : Memory) (j : ℕ)
    → (mem.streams j).active ≡ false
    → ((Sender.set_active sdr mem false).streams j).active ≡ false
unfolding Sender.set_active store update
keeps-set_active sdr mem j h = ground arith

set_active_all-keeps :
    (senders : List PlainSender) (mem : Memory) (j : ℕ)
    → (mem.streams j).active ≡ false
    → ((set_active_all senders false mem).streams j).active ≡ false
unfolding set_active_all
set_active_all-keeps [] mem j h = h
set_active_all-keeps (sdr ∷ senders) mem j h =
    set_active_all-keeps senders (Sender.set_active sdr mem false) j (keeps-set_active sdr mem j h)

set_active_all-stops :
    (senders : List PlainSender) (mem : Memory) (i : ℕ) (sdr : PlainSender)
    → get_elem? senders i ≡ some sdr
    → ((set_active_all senders false mem).streams sdr.cells).active ≡ false
unfolding set_active_all
set_active_all-stops [] mem i sdr e = cc
set_active_all-stops (s ∷ senders) mem zero sdr e =
    subst (λ x. ((set_active_all (s ∷ senders) false mem).streams x.cells).active ≡ false)
      (some-inj e)
      (set_active_all-keeps senders (Sender.set_active s mem false) s.cells
        (stopped-set_active s mem 0))
set_active_all-stops (s ∷ senders) mem (suc i) sdr e =
    set_active_all-stops senders (Sender.set_active s mem false) i sdr e

module _ {J X P F : Type 0} (k : Crates J X P F) (first : Bool) (time : ℕ)
    (chans : List AudioChannel) where
  abbrev started : ℕ → PlainSender → Memory → Memory
  started i sdr mem =
      Sender.set_active sdr
        (Sender.set_start_time sdr (first_volume k first (get_elem? chans i) sdr mem) time) true

  started-Plays :
      (i : ℕ) (sdr : PlainSender) (mem : Memory)
      → Plays time ((started i sdr mem).streams sdr.cells)
  unfolding Sender.set_active Sender.set_start_time store update
  started-Plays i sdr mem = ground arith

  volume-keeps :
      (ch : Option AudioChannel) (sdr : PlainSender) (mem : Memory) (j : ℕ)
      → Plays time (mem.streams j)
      → Plays time ((first_volume k first ch sdr mem).streams j)
  unfolding Sender.set_volume store update
  volume-keeps none sdr mem j h = h
  volume-keeps (some ch) sdr mem j h = ground arith

  started-keeps :
      (sdr : PlainSender) (mem : Memory) (j : ℕ)
      → Plays time (mem.streams j)
      → Plays time ((Sender.set_active sdr (Sender.set_start_time sdr mem time) true).streams j)
  unfolding Sender.set_active Sender.set_start_time store update
  started-keeps sdr mem j h = ground arith

  start_senders-keeps :
      (i : ℕ) (senders : List PlainSender) (mem : Memory) (j : ℕ)
      → Plays time (mem.streams j)
      → Plays time ((start_senders k first time i senders chans mem).streams j)
  unfolding start_senders
  start_senders-keeps i [] mem j h = h
  start_senders-keeps i (sdr ∷ senders) mem j h =
      start_senders-keeps (suc i) senders (started i sdr mem) j (
        started-keeps sdr (first_volume k first (get_elem? chans i) sdr mem) j
          (volume-keeps (get_elem? chans i) sdr mem j h))

  start_senders-Plays :
      (i : ℕ) (senders : List PlainSender) (mem : Memory) (n : ℕ) (sdr : PlainSender)
      → get_elem? senders n ≡ some sdr
      → Plays time ((start_senders k first time i senders chans mem).streams sdr.cells)
  unfolding start_senders
  start_senders-Plays i [] mem n sdr e = cc
  start_senders-Plays i (s ∷ senders) mem zero sdr e =
      subst
        (λ x. Plays time ((start_senders k first time i (s ∷ senders) chans mem).streams x.cells))
        (some-inj e)
        (start_senders-keeps (suc i) senders (started i s mem) s.cells (started-Plays i s mem))
  start_senders-Plays i (s ∷ senders) mem (suc n) sdr e =
      start_senders-Plays (suc i) senders (started i s mem) n sdr e

module _ {J X P F : Type 0} (k : Crates J X P F) where
  -- Executing a loaded audio action lets every one of its streams play from the given time on, which
  -- is put down as the start, and pausing it stops them all; neither fails.
  pub execute-pause :
      (c : AudioController X) (time : ℕ) (s : Context J X P F) (rd : RunningData)
      → c.rd ≡ some rd
      → ((s' : Context J X P F) × (execute k c time s
            ≡ done (
              record c {
                rd = some (record rd { durinfo = record rd.durinfo { start_time = time } });
              },
              s',
              ok false,
            ))
          × ((n : ℕ) (sdr : PlainSender)
              → get_elem? rd.senders n ≡ some sdr
              → Plays time ((memory s').streams sdr.cells)))
        × ((s' : Context J X P F) × (pause k c s ≡ done (c, s', true))
            × ((n : ℕ) (sdr : PlainSender)
                → get_elem? rd.senders n ≡ some sdr
                → ((memory s').streams sdr.cells).active ≡ false))
  unfolding memory with_memory execute execute_with pause pause_with
  execute-pause c time s rd h =
      let first = rd.durinfo.start_time == 0 in
      (
        (
          with_memory s (start_senders k first time 0 rd.senders c.params.chans (memory s)),
          ap (execute_with k c time s) h,
          λ n sdr e.
              start_senders-Plays k first time c.params.chans 0 rd.senders (memory s) n sdr e,
        ),
        (
          with_memory s (set_active_all rd.senders false (memory s)),
          ap (pause_with k c s) h,
          λ n sdr e. set_active_all-stops rd.senders (memory s) n sdr e,
        ),
      )
