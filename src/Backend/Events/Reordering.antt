-- ===== src/Backend/Events/Reordering.antt =====
-- A reordering by a client, and its undo.
use sqa.Base.{
  ℕ, suc, ◌<◌, ◌≡◌, refl, sym, ap, done-inj, ◌∙◌, Bool, true, false, Option, none, some, List, [],
  done, ◌>>=◌, Result, ok, length, if◌then◌else◌,
}
use sqa.Undo
use sqa.Undo.{UndoContext, UndoableChange}
use sqa.Undo.View
use sqa.Undo.Fresh.{state-IsValid, register-undo-IsValid}
use sqa.ActionManager
use sqa.ActionManager.{ActionManager}
use sqa.ActionManager.Invariant.{IsValid}
use sqa.ActionManager.Reorder.{moved, reorder_lem, reorder-moved, reorder-back}
use sqa.Codec.{Command, Reply}
use sqa.Handlers.{ConnData, Wire, ReplyData}
use sqa.Backend.{Context, Crates}
use sqa.Backend.Controllers.{BackendAction}
use sqa.Backend.State.{Server, on_undo_changed, on_order_changed, broadcast_to}
use sqa.Backend.Undoable
use sqa.Backend.Undoable.{cmd_as_undoable, change}
use sqa.Backend.Save.{Storage}
use sqa.Backend.Commands.{process, process_nested, process_command, respond, from_history, Handled}
use sqa.Backend.Events.{register, report, report_order, report_all, external}

module _ {J X P F : Type 0} (k : Crates J X P F) (disk : Storage P) {Pkt Udp Sock : Type 0}
    (wire : Wire Reply Pkt Udp Sock) where
  -- The change that a reordering is recorded as.
  abbrev recorded : ℕ → ℕ → ℕ → UndoableChange
  recorded uuid pos new_pos =
      change k (Command.reorder_action uuid pos) (Command.reorder_action uuid new_pos)
        "reorder action"

  -- A valid history can be told of.
  undo_told :
      (s : Context J X P F) (d : ConnData Udp Sock)
      → View.IsValid s.undo
      → (d' : ConnData Udp Sock) × (on_undo_changed k wire (s, d) ≡ done (s, d'))
  unfolding on_undo_changed broadcast_to
  undo_told s d v =
      let (st, e) = state-IsValid s.undo v in
      ((broadcast_to k wire (s, d) (Reply.reply_undo_state st)).1, rw (e, ◌>>=◌) refl)

  -- What is reported after an order that changed, and nothing else.
  order_reported :
      (s : Context J X P F) (d : ConnData Udp Sock)
      → s.actions.changed ≡ []
      → s.actions.order_changed ≡ true
      → (d' : ConnData Udp Sock) × (report_all k disk wire (s, d)
          ≡ done
              (record s { actions = record s.actions { changed = []; order_changed = false } }, d'))
  unfolding report_all report report_order on_order_changed broadcast_to ActionManager.clear_changed
      ActionManager.clear_order_changed
  order_reported s d c o =
      let s1 = record s { actions = record s.actions { changed = [] } } in
      let s2 = record s1 { actions = record s1.actions { order_changed = false } } in
      let told : Server k wire = on_order_changed k wire (s2, d) in
      (
        told.1,
        ap
              (λ (xs : List ℕ).
                report k disk wire (s1, d) xs >>= λ sv. done (report_order k disk wire sv))
              c
            ∙ ap (λ (b : Bool). done (if b then told else (s2, d))) o,
      )

  -- What is left of a table after a reordering and its report.
  abbrev reordered : ActionManager (BackendAction k) → List ℕ → ActionManager (BackendAction k)
  reordered m order = record m { order = order; changed = []; order_changed = false }

  -- The command itself.
  processed :
      (n : ℕ) (s : Context J X P F) (d : ConnData Udp Sock) (uuid new_pos : ℕ) (rd : ReplyData)
      (m : ActionManager (BackendAction k))
      → ActionManager.reorder s.actions uuid new_pos ≡ done (m, ok tt)
      → (d' : ConnData Udp Sock) × (r : Result (Unit {0})) × (process_nested k disk wire
            (suc n)
            (s, d)
            (Command.reorder_action uuid new_pos)
            rd
          ≡ done ((record s { actions = m }, d'), r))
  unfolding process_nested process respond
  processed n s d uuid new_pos rd m e =
      let sent =
        respond k disk wire (record s { actions = m }, d) rd
          (Reply.action_reordered uuid (ok tt)) in
      (sent.0.1, sent.1, rw (e, ◌>>=◌) refl)

  -- What `external` does when nothing of it fails.
  external-steps :
      (s s1 s2 : Context J X P F) (d d1 d2 d3 : ConnData Udp Sock) (c : Command) (rd : ReplyData)
      (ch : Option UndoableChange) (r : Result (Unit {0})) (s3 : Context J X P F)
      → cmd_as_undoable k s c ≡ done (s, ch)
      → register k disk wire (s, d) ch ≡ done (s1, d1)
      → process_command k disk wire (s1, d1) c rd ≡ done ((s2, d2), r)
      → report_all k disk wire (s2, d2) ≡ done (s3, d3)
      → external k disk wire (s, d) c rd ≡ done ((s3, d3), r)
  unfolding external
  external-steps s s1 s2 d d1 d2 d3 c rd ch r s3 e1 e2 e3 e4 =
      ap
        (λ o. o >>= λ ch. register k disk wire (ch.0, d) ch.1 >>= λ sv.
          process_command k disk wire sv c rd >>= λ r.
          report_all k disk wire r.0 >>= λ sv'. done (sv', r.1))
        e1
      ∙ ap
          (λ o. o >>= λ sv. process_command k disk wire sv c rd >>= λ r.
            report_all k disk wire r.0 >>= λ sv'. done (sv', r.1))
          e2
      ∙ ap (λ o. o >>= λ r. report_all k disk wire r.0 >>= λ sv'. done (sv', r.1)) e3
      ∙ ap (λ o. o >>= λ sv'. done (sv', r)) e4

  registered :
      (s : Context J X P F) (d : ConnData Udp Sock) (ch : UndoableChange) (u : UndoContext)
      → Undo.register_change s.undo ch ≡ done u
      → View.IsValid u
      → (d' : ConnData Udp Sock) × (register k disk wire (s, d) (some ch)
          ≡ done (record s { undo = u }, d'))
  unfolding register
  registered s d ch u e v =
      let (d', p) = undo_told (record s { undo = u }) d v in
      (d', ap (λ o. o >>= λ u. on_undo_changed k wire (record s { undo = u }, d)) e ∙ p)

  -- A reordering by a client.
  external-reorder :
      (s : Context J X P F) (d : ConnData Udp Sock) (uuid pos new_pos : ℕ) (rd : ReplyData)
      (order : List ℕ) (u : UndoContext)
      → ActionManager.position_of s.actions uuid ≡ some pos
      → Undo.register_change s.undo (recorded uuid pos new_pos) ≡ done u
      → View.IsValid u
      → ActionManager.reorder s.actions uuid new_pos
        ≡ done (record s.actions { order = order; order_changed = true }, ok tt)
      → s.actions.changed ≡ []
      → (d' : ConnData Udp Sock) × (r : Result (Unit {0})) × (external k disk wire
            (s, d)
            (Command.reorder_action uuid new_pos)
            rd
          ≡ done ((record s { undo = u; actions = reordered s.actions order }, d'), r))
  unfolding cmd_as_undoable process_command
  external-reorder s d uuid pos new_pos rd order u at reg v moved c =
      let s1 = record s { undo = u } in
      let (d1, e1) = registered s d (recorded uuid pos new_pos) u reg v in
      let (d2, r, e2) =
        processed 1 s1 d1 uuid new_pos rd (record s.actions { order = order; order_changed = true })
          moved in
      let s2 = record s1 { actions = record s.actions { order = order; order_changed = true } } in
      let (d3, e3) = order_reported s2 d2 c refl in
      (
        d3,
        r,
        external-steps s s1 s2 d d1 d2 d3 (Command.reorder_action uuid new_pos) rd
            (some (recorded uuid pos new_pos)) r (record s2 { actions = reordered s.actions order })
            (ap (λ o. done (s, Undoable.reordered k uuid new_pos o)) at) e1 e2 e3,
      )

  -- Its undo, by the same or another client.
  external-undo :
      (s : Context J X P F) (d : ConnData Udp Sock) (uuid pos : ℕ) (rd : ReplyData) (order : List ℕ)
      (u : UndoContext)
      → Undo.undo s.undo ≡ done (u, some (Command.reorder_action uuid pos))
      → View.IsValid u
      → ActionManager.reorder s.actions uuid pos
        ≡ done (record s.actions { order = order; order_changed = true }, ok tt)
      → s.actions.changed ≡ []
      → (d' : ConnData Udp Sock) × (r : Result (Unit {0})) × (external k disk wire
            (s, d)
            Command.undo
            rd
          ≡ done ((record s { undo = u; actions = reordered s.actions order }, d'), r))
  unfolding cmd_as_undoable register process_command process_nested process
  external-undo s d uuid pos rd order u back v moved c =
      let s1 = record s { undo = u } in
      let (d1, e1) = undo_told s1 d v in
      let (d2, r, e2) =
        processed 0 s1 d1 uuid pos rd (record s.actions { order = order; order_changed = true })
          moved in
      let s2 = record s1 { actions = record s.actions { order = order; order_changed = true } } in
      let (d3, e3) = order_reported s2 d2 c refl in
      let again : Server k wire → Command → ReplyData → Handled k disk wire =
        λ sv' c' rd'. process_nested k disk wire 1 sv' c' rd' in
      let went : process_command k disk wire (s, d) Command.undo rd ≡ done ((s2, d2), r) =
        ap (λ o. o >>= from_history k disk wire again (s, d) rd) back
        ∙ ap (λ o. o >>= λ sv. again sv (Command.reorder_action uuid pos) rd) e1
        ∙ e2 in
      (
        d3,
        r,
        external-steps s s s2 d d d2 d3 Command.undo rd none r
            (record s2 { actions = reordered s.actions order }) refl refl went e3,
      )

  -- A reordering that a client asks for can be undone by any client: after both commands, each with
  -- its reports to all, the table of actions is what it was, in its order, and has nothing left to
  -- report. Neither command panics, whatever the sockets do. Before the two, the table and the
  -- history are valid, the action is listed, the new position is within the order, and no other
  -- change waits to be reported.
  pub external-reorder-undo :
      (s : Context J X P F) (d : ConnData Udp Sock) (uuid pos new_pos : ℕ) (rd rd' : ReplyData)
      → IsValid s.actions
      → View.IsValid s.undo
      → ActionManager.position_of s.actions uuid ≡ some pos
      → new_pos < length s.actions.order
      → s.actions.changed ≡ []
      → (sv1 sv2 : Server k wire) × (r1 r2 : Result (Unit {0})) × (external k disk wire
            (s, d)
            (Command.reorder_action uuid new_pos)
            rd
          ≡ done (sv1, r1))
        × (ActionManager.position_of sv1.0.actions uuid ≡ some new_pos)
        × (external k disk wire sv1 Command.undo rd' ≡ done (sv2, r2))
        × (sv2.0.actions ≡ record s.actions { changed = []; order_changed = false })
  unfolding ActionManager.position_of
  external-reorder-undo s d uuid pos new_pos rd rd' valid v at lt c =
      let (u', u'', reg, back, st, v', v'') =
        register-undo-IsValid s.undo (recorded uuid pos new_pos) v refl in
      let (order, ordered, there, same, valid', restored) =
        reorder_lem s.actions uuid new_pos pos valid at lt in
      let (d1, r1, e1) = external-reorder s d uuid pos new_pos rd order u' at reg v' ordered c in
      let s1 : Context J X P F = record s { undo = u'; actions = reordered s.actions order } in
      let at_moved : order ≡ moved s.actions.order pos new_pos uuid =
        ap (λ r. r.0.order)
          (done-inj (sym ordered ∙ reorder-moved s.actions uuid new_pos pos at lt)) in
      let (d2, r2, e2) =
        external-undo s1 d1 uuid pos rd' s.actions.order u'' back v''
          (reorder-back s.actions s1.actions uuid new_pos pos valid at lt at_moved) refl in
      (
        (s1, d1),
        (record s1 { undo = u''; actions = reordered s1.actions s.actions.order }, d2),
        r1,
        r2,
        e1,
        there,
        e2,
        refl,
      )
