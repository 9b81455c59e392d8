-- ===== src/Backend/Commands/Undoing.antt =====
-- Undoing and redoing through the dispatcher.
use mathlib.Core.Path.{fun_ext}
use sqa.Base.{
  ℕ, zero, suc, ◌≡◌, refl, ap, subst, >>=-eq-done, done-inj, Option, none, some, List, [], ◌∷◌,
  Outcome, done, panic, ◌>>=◌, unwrap, get_elem?,
}
use sqa.Undo
use sqa.Undo.{UndoContext, UndoableChange, undo_at, redo_at, indexes, checked_pred}
use sqa.Codec.{Command, Reply}
use sqa.Handlers.{ConnData, Wire, ReplyData}
use sqa.Backend.{Context, Crates}
use sqa.Backend.State.{Server, on_undo_changed}
use sqa.Backend.Save.{Storage}
use sqa.Backend.Commands.{Handled, process, process_nested, process_command, from_history}

-- A command that is not about the history itself.
abbrev pub IsPlain : Command → Type 0
IsPlain Command.undo = ⊥
IsPlain Command.redo = ⊥
IsPlain c = Unit {0}

abbrev pub ArePlain : List UndoableChange → Type 0
ArePlain [] = Unit {0}
ArePlain (ch ∷ changes) = IsPlain ch.undo × IsPlain ch.redo × ArePlain changes

some-inj : {A : Type 0} {a b : A} → some a ≡ some b → a ≡ b
some-inj h = cc

ArePlain-get_elem? :
    (changes : List UndoableChange) (i : ℕ) (ch : UndoableChange)
    → ArePlain changes
    → get_elem? changes i ≡ some ch
    → IsPlain ch.undo × IsPlain ch.redo
ArePlain-get_elem? [] i ch p e = cc
ArePlain-get_elem? (c ∷ changes) zero ch p e =
    subst (λ x. IsPlain x.undo × IsPlain x.redo) (some-inj e) (p.0, p.1)
ArePlain-get_elem? (c ∷ changes) (suc i) ch p e = ArePlain-get_elem? changes i ch p.2 e

unwrap-some : {A : Type 0} (o : Option A) (a : A) → unwrap o ≡ done a → o ≡ some a
unwrap-some none a e = cc
unwrap-some (some b) a e = cc

undo_at-IsPlain :
    (u u' : UndoContext) (idx : Option ℕ) (cmd : Command)
    → ArePlain u.changes
    → undo_at u idx ≡ done (u', some cmd)
    → IsPlain cmd
unfolding undo_at
undo_at-IsPlain u u' none cmd p e = absurd (cc e)
undo_at-IsPlain u u' (some idx) cmd p e =
    let (before, e1, f1) = >>=-eq-done (checked_pred idx) _ e in
    let (ch, e2, f2) = >>=-eq-done (unwrap (get_elem? u.changes idx)) _ f1 in
    subst IsPlain (some-inj (ap (λ r. r.1) (done-inj f2)))
      (ArePlain-get_elem? u.changes idx ch p (unwrap-some _ ch e2)).0

redo_at-IsPlain :
    (u u' : UndoContext) (idx : Option ℕ) (cmd : Command)
    → ArePlain u.changes
    → redo_at u idx ≡ done (u', some cmd)
    → IsPlain cmd
unfolding redo_at
redo_at-IsPlain u u' none cmd p e = absurd (cc e)
redo_at-IsPlain u u' (some idx) cmd p e =
    let (ch, e2, f2) = >>=-eq-done (unwrap (get_elem? u.changes idx)) _ e in
    subst IsPlain (some-inj (ap (λ r. r.1) (done-inj f2)))
      (ArePlain-get_elem? u.changes idx ch p (unwrap-some _ ch e2)).1

undo-IsPlain :
    (u u' : UndoContext) (cmd : Command)
    → ArePlain u.changes
    → Undo.undo u ≡ done (u', some cmd)
    → IsPlain cmd
unfolding Undo.undo
undo-IsPlain u u' cmd p e =
    let (found, e1, f1) = >>=-eq-done (indexes u) _ e in undo_at-IsPlain u u' found.0 cmd p f1

redo-IsPlain :
    (u u' : UndoContext) (cmd : Command)
    → ArePlain u.changes
    → Undo.redo u ≡ done (u', some cmd)
    → IsPlain cmd
unfolding Undo.redo
redo-IsPlain u u' cmd p e =
    let (found, e1, f1) = >>=-eq-done (indexes u) _ e in redo_at-IsPlain u u' found.1 cmd p f1

module _ {J X P F : Type 0} (k : Crates J X P F) (disk : Storage P) {Pkt Udp Sock : Type 0}
    (wire : Wire Reply Pkt Udp Sock) where
  abbrev Again : Type 0
  Again = Server k wire → Command → ReplyData → Handled k disk wire

  -- A plain command does not go back to the dispatcher.
  process-plain :
      (again again' : Again) (sv : Server k wire) (c : Command) (rd : ReplyData)
      → IsPlain c
      → process k disk wire again sv c rd ≡ process k disk wire again' sv c rd
  unfolding process
  process-plain again again' sv Command.undo rd p = absurd p
  process-plain again again' sv Command.redo rd p = absurd p
  process-plain again again' sv c rd p = refl

  from_history-same :
      (again again' : Again) (sv : Server k wire) (rd : ReplyData)
      (r : Outcome (UndoContext × Option Command))
      → ((u : UndoContext) (cmd : Command) (sv' : Server k wire)
          → r ≡ done (u, some cmd)
          → again sv' cmd rd ≡ again' sv' cmd rd)
      → (r >>= from_history k disk wire again sv rd) ≡ (r >>= from_history k disk wire again' sv rd)
  from_history-same again again' (s, d) rd panic h = refl
  from_history-same again again' (s, d) rd (done (u, none)) h = refl
  from_history-same again again' (s, d) rd (done (u, some cmd)) h =
      ap (λ f. on_undo_changed k wire (record s { undo = u }, d) >>= f)
        (fun_ext λ sv'. h u cmd sv' refl)

  nested-plain :
      (n : ℕ) (sv : Server k wire) (c : Command) (rd : ReplyData)
      → IsPlain c
      → process_nested k disk wire (suc n) sv c rd ≡ process_nested k disk wire 1 sv c rd
  unfolding process_nested
  nested-plain n sv c rd p =
      process-plain (process_nested k disk wire n) (process_nested k disk wire 0) sv c rd p

  nested-enough :
      (n : ℕ) (s : Context J X P F) (d : ConnData Udp Sock) (c : Command) (rd : ReplyData)
      → ArePlain s.undo.changes
      → process k disk wire (process_nested k disk wire (suc n)) (s, d) c rd
        ≡ process k disk wire (process_nested k disk wire 1) (s, d) c rd
  unfolding process
  nested-enough n s d Command.undo rd p =
      from_history-same (process_nested k disk wire (suc n)) (process_nested k disk wire 1) (s, d)
        rd (Undo.undo s.undo)
        (λ u cmd sv' e. nested-plain n sv' cmd rd (undo-IsPlain s.undo u cmd p e))
  nested-enough n s d Command.redo rd p =
      from_history-same (process_nested k disk wire (suc n)) (process_nested k disk wire 1) (s, d)
        rd (Undo.redo s.undo)
        (λ u cmd sv' e. nested-plain n sv' cmd rd (redo-IsPlain s.undo u cmd p e))
  nested-enough n s d c rd p = refl

  -- Commands that come out of the history do not nest any deeper: if none of the recorded changes is
  -- itself an undo or a redo, then two levels of the dispatcher give what any more give.
  process_nested-enough :
      (n : ℕ) (s : Context J X P F) (d : ConnData Udp Sock) (c : Command) (rd : ReplyData)
      → ArePlain s.undo.changes
      → process_nested k disk wire (suc (suc n)) (s, d) c rd
        ≡ process_command k disk wire (s, d) c rd
  unfolding process_nested process_command
  process_nested-enough n s d c rd p = nested-enough n s d c rd p
