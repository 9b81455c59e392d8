-- ===== src/Undo/Overflow.antt =====
-- The end of the history: with one hundred changes registered the first entry has been dropped, and
-- undoing all of them subtracts one from the index 0.
use mathlib.Core.List.{reverse-cons, append_assoc}
use sqa.Base.{
  ℕ, zero, suc, ◌≤◌, ◌≡◌, refl, sym, ap, ◌∙◌, false, List, [], ◌∷◌, ◌++◌, reverse, Option, none,
  some, length, take, Outcome, done, panic, ◌>>=◌, arith, str_eq, take-all, length-reverse,
  length-take,
}
use sqa.Codec.{Command}
use sqa.Undo.{UndoableChange, UndoContext, max_undos, new, register_change, undo}
use sqa.Undo.History
use sqa.Undo.History.{History, history}
use sqa.Undo.View.{IsValid, view, view_result, undo-refines}
use sqa.Undo.Register.{register-refines}
use sqa.Undo.RoundTrip.{undo-IsValid}

-- Changes with names of their own.
abbrev pub Named : List UndoableChange → Type 0
Named [] = Unit {0}
Named (c ∷ cs) = (str_eq c.desc "nothing" ≡ false) × Named cs

pub register_all : UndoContext → List UndoableChange → Outcome UndoContext
register_all u [] = done u
register_all u (c ∷ cs) = do u' ← register_change u c; register_all u' cs

pub undo_times : ℕ → UndoContext → Outcome UndoContext
undo_times zero u = done u
undo_times (suc n) u = do r ← undo u; undo_times n r.0

with_future :
    (u : UndoContext) {p : List UndoableChange}
    → (view u).past ≡ p
    → view u ≡ history p (view u).future
with_future u e = ap (λ (q : List UndoableChange). history q (view u).future) e

-- What the view says of the result of one undo.
undone_view :
    (u : UndoContext) (h : History) (cmd : Command) (r : Outcome (UndoContext × Option Command))
    → view_result r ≡ done (h, some cmd)
    → (u' : UndoContext) × (r ≡ done (u', some cmd)) × (view u' ≡ h)
undone_view u h cmd (done (u', none)) e = absurd (cc e)
undone_view u h cmd (done (u', some c)) e = (u', ground arith, ground arith)
undone_view u h cmd panic e = absurd (cc e)

panic_view : (r : Outcome (UndoContext × Option Command)) → view_result r ≡ panic → r ≡ panic
panic_view (done r) e = absurd (cc e)
panic_view panic e = refl

-- With a past of named changes only, undoing them all fails.
undo_times-Named :
    (past : List UndoableChange) (c : UndoableChange) (u : UndoContext)
    → IsValid u
    → (view u).past ≡ c ∷ past
    → Named (c ∷ past)
    → undo_times (length (c ∷ past)) u ≡ panic
unfolding undo_times
undo_times-Named [] c u v e n =
    rw (panic_view (undo u) (undo-refines u v ∙ ap History.undo (with_future u e) ∙ rw n.0))
undo_times-Named (p ∷ past) c u v e n =
    let (u', r, w) =
      undone_view u (history (p ∷ past) (c ∷ (view u).future)) c.undo (undo u)
        (undo-refines u v ∙ ap History.undo (with_future u e) ∙ rw n.0) in
    rw r (undo_times-Named past p u' (undo-IsValid u v r) (ap (λ (h : History). h.past) w) n.1)

undo_times-Named_past :
    (past : List UndoableChange) (u : UndoContext)
    → IsValid u
    → (view u).past ≡ past
    → 1 ≤ length past
    → Named past
    → undo_times (length past) u ≡ panic
undo_times-Named_past [] u v e h n = absurd (omega arith)
undo_times-Named_past (c ∷ past) u v e h n = undo_times-Named past c u v e n

take-append_take :
    (m n : ℕ) (xs ys : List UndoableChange) → m ≤ n → take m (xs ++ take n ys) ≡ take m (xs ++ ys)
take-append_take zero n xs ys h = refl
take-append_take (suc m) zero [] ys h = absurd (omega arith)
take-append_take (suc m) (suc n) [] [] h = refl
take-append_take (suc m) (suc n) [] (y ∷ ys) h =
    ap (y ∷◌) (take-append_take m n [] ys (omega arith))
take-append_take (suc m) n (x ∷ xs) ys h = ap (x ∷◌) (take-append_take m n xs ys (omega arith))

-- What registering them all leaves.
register_all-past :
    (cs : List UndoableChange) (u : UndoContext)
    → IsValid u
    → length (view u).past ≤ max_undos
    → (u' : UndoContext) × (register_all u cs ≡ done u')
      × IsValid u'
      × ((view u').past ≡ take max_undos (reverse cs ++ (view u).past))
unfolding register_all
register_all-past [] u v h = (u, refl, v, sym (take-all max_undos (view u).past h))
register_all-past (c ∷ cs) u v h =
    let (u₁, e₁, v₁, w₁) = register-refines u c v in
    let p₁ : (view u₁).past ≡ take max_undos (c ∷ (view u).past) =
      ap (λ (x : History). x.past) w₁ in
    let (u₂, e₂, v₂, w₂) =
      register_all-past cs u₁ v₁
        (rw (p₁, length-take max_undos (c ∷ (view u).past)) (omega arith)) in
    (
      u₂,
      rw e₁ e₂,
      v₂,
      w₂
          ∙ ap (λ (p : List UndoableChange). take max_undos (reverse cs ++ p)) p₁
          ∙ take-append_take max_undos max_undos (reverse cs) (c ∷ (view u).past) (omega arith)
          ∙ ap (take max_undos) (
              sym (append_assoc (reverse cs) (c ∷ []) (view u).past)
              ∙ ap (λ (p : List UndoableChange). p ++ (view u).past) (sym (reverse-cons c cs))),
    )

Named-append : (xs ys : List UndoableChange) → Named xs → Named ys → Named (xs ++ ys)
Named-append [] ys hx hy = hy
Named-append (x ∷ xs) ys hx hy = (hx.0, Named-append xs ys hx.1 hy)

Named-reverse : (xs : List UndoableChange) → Named xs → Named (reverse xs)
Named-reverse [] h = tt
Named-reverse (x ∷ xs) h =
    rw (reverse-cons x xs) (Named-append (reverse xs) (x ∷ []) (Named-reverse xs h.1) (h.0, tt))

Named-take :
    (n : ℕ) (xs ys : List UndoableChange)
    → n ≤ length xs
    → Named xs
    → Named (take n (xs ++ ys)) × (length (take n (xs ++ ys)) ≡ n)
Named-take zero xs ys h n = (tt, refl)
Named-take (suc k) [] ys h n = absurd (omega arith)
Named-take (suc k) (x ∷ xs) ys h n =
    let (m, l) = Named-take k xs ys (omega arith) n.1 in ((n.0, m), ap suc l)

pub new-IsValid : IsValid new
unfolding new
new-IsValid = omega arith

new-past : length (view new).past ≤ max_undos
unfolding new
new-past = omega arith

-- After at least `MAX_UNDOS` registered changes with names of their own, undoing `MAX_UNDOS` times
-- panics: the first entry, which stops an undo, has been dropped from the vector.
pub undo_times-register_all :
    (cs : List UndoableChange)
    → max_undos ≤ length cs
    → Named cs
    → (register_all new cs >>= undo_times max_undos) ≡ panic
undo_times-register_all cs h n =
    let (u, e, v, w) = register_all-past cs new new-IsValid new-past in
    let (m, l) =
      Named-take max_undos (reverse cs) (view new).past (omega (arith, length-reverse cs))
        (Named-reverse cs n) in
    rw e (
      rw (← l) (
        undo_times-Named_past (take max_undos (reverse cs ++ (view new).past)) u v w
          (omega (arith, l)) m))
