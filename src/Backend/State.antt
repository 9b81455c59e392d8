-- ===== src/Backend/State.antt =====
-- The global state (sqa-backend/src/state.rs): replies about it, and the creation of actions. Also
-- the macro `do_with_ctx!` of sqa-backend/src/action_manager.rs.
pub mod Leaves
pub mod Actions
use sqa.Base.{
  ℕ, ◌+◌, Bool, true, false, String, str_append, Option, none, some, List, [], ◌∷◌, Outcome, done,
  panic, ◌>>=◌, Result, ok, err, if◌then◌else◌, is_some,
}
use sqa.Base.HashMap
use sqa.Base.HashMap.{HashMap}
use sqa.Undo
use sqa.ActionManager
use sqa.Actions.{ActionParameters, ActionMetadata, OpaqueAction}
use sqa.Actions.Action.{Action}
use sqa.Actions.Execute.{get_data, set_params, set_uuid, set_meta}
use sqa.Codec.{Command, Reply}
use sqa.Handlers.{ConnData, Wire, ReplyData}
use sqa.Handlers.Broadcast.{broadcast}
use sqa.Backend.{Context, Crates, surroundings}
use sqa.Backend.Controllers.{World, BackendAction, controllers, action_of}

module _ {J X P F : Type 0} (k : Crates J X P F) where
  -- `insert_after_editing` on the context.
  unfoldable pub put_back : World k → ℕ → BackendAction k → Outcome (World k)
  unfolding ActionManager.insert_after_editing
  put_back s uu a =
      ActionManager.insert_after_editing s.actions uu a >>= λ m. done (record s { actions = m })

  abbrev pub edit_taken :
      {A : Type 0}
      → ℕ
      → (BackendAction k → World k → Outcome (BackendAction k × World k × Result A))
      → World k
      → Option (BackendAction k)
      → Outcome (World k × Result A)
  edit_taken uu f s none = done (s, err "No action found")
  edit_taken uu f s (some a) = do r ← f a s; s' ← put_back r.1 uu r.0; done (s', r.2)

  -- `do_with_ctx!`: the action is out of the table while the closure runs.
  unfoldable pub do_with_ctx :
      {A : Type 0}
      → World k
      → ℕ
      → (BackendAction k → World k → Outcome (BackendAction k × World k × Result A))
      → Bool
      → Outcome (World k × Result A)
  unfolding ActionManager.remove_for_editing put_back
  do_with_ctx s uu f mark =
      let (m, a) = ActionManager.remove_for_editing s.actions uu mark in
      edit_taken uu f (record s { actions = m }) a

  -- `get_data`, as a closure for `do_with_ctx`; it never fails.
  abbrev pub read_data :
      BackendAction k → World k → Outcome (BackendAction k × World k × Result OpaqueAction)
  read_data a s = get_data (controllers k) (surroundings k) a s >>= λ r. done (r.0, s, ok r.1)

  abbrev pub list_data : HashMap OpaqueAction → ℕ → Result OpaqueAction → HashMap OpaqueAction
  list_data resp uu (ok info) = HashMap.insert uu info resp
  list_data resp uu (err e) = resp

  unfoldable pub collect_data :
      World k → List ℕ → HashMap OpaqueAction → Outcome (World k × HashMap OpaqueAction)
  unfolding do_with_ctx HashMap.insert
  collect_data s [] resp = done (s, resp)
  collect_data s (uu ∷ uus) resp =
      do_with_ctx s uu read_data true >>= λ r. collect_data r.0 uus (list_data resp uu r.1)

  -- Every action is marked as changed on the way.
  unfoldable pub make_action_list : World k → Outcome (World k × Reply)
  unfolding collect_data ActionManager.action_list
  make_action_list s = collect_data s (ActionManager.action_list s.actions) [] >>= λ r.
      done (r.0, Reply.reply_action_list r.1 r.0.actions.order)

  module _ {Pkt Udp Sock : Type 0} (wire : Wire Reply Pkt Udp Sock) where
    -- The context and the connections.
    abbrev pub Server : Type 0
    Server = Context J X P F × ConnData Udp Sock

    -- What cannot be sent is only logged.
    unfoldable pub broadcast_to : Server → Reply → Server
    unfolding broadcast
    broadcast_to (s, d) msg = (s, (broadcast wire s.now d msg).0)

    -- The action's state may move, as its parameters are verified.
    unfoldable pub on_action_changed : Server → BackendAction k → Outcome (Server × BackendAction k)
    unfolding broadcast_to
    on_action_changed (s, d) a = get_data (controllers k) (surroundings k) a s >>= λ r.
        done (broadcast_to (s, d) (Reply.update_action_info r.0.uu r.1), r.0)

    unfoldable pub on_all_actions_changed : Server → Outcome Server
    unfolding make_action_list broadcast_to
    on_all_actions_changed (s, d) = make_action_list s >>= λ r. done (broadcast_to (r.0, d) r.1)

    unfoldable pub on_order_changed : Server → Server
    unfolding broadcast_to
    on_order_changed (s, d) = broadcast_to (s, d) (Reply.update_order s.actions.order)

    unfoldable pub on_undo_changed : Server → Outcome Server
    unfolding broadcast_to Undo.state
    on_undo_changed (s, d) =
        Undo.state s.undo >>= λ st. done (broadcast_to (s, d) (Reply.reply_undo_state st))

  -- A UUID that is taken is refused before anything is done.
  abbrev pub uuid_taken : World k → Option ℕ → Option ℕ
  uuid_taken s none = none
  uuid_taken s (some uu) = if is_some (ActionManager.get s.actions uu) then some uu else none

  abbrev pub with_uuid : Option ℕ → BackendAction k → BackendAction k
  with_uuid none a = a
  with_uuid (some uu) a = set_uuid a uu

  abbrev pub with_meta : Option ActionMetadata → BackendAction k → BackendAction k
  with_meta none a = a
  with_meta (some meta) a = set_meta a meta

  -- The flag tells that there is a sender.
  unfoldable pub set_with_sender :
      Bool → ActionParameters → BackendAction k → World k → Outcome (BackendAction k × World k)
  set_with_sender false pars a s = panic
  set_with_sender true pars a s =
      set_params (controllers k) (surroundings k) a pars s >>= λ r. done (r.0, r.1)

  -- Parameters of the wrong type are only logged; without a sender it is a panic.
  unfoldable pub with_params :
      Option ActionParameters → BackendAction k → World k → Outcome (BackendAction k × World k)
  unfolding set_with_sender
  with_params none a s = done (a, s)
  with_params (some pars) a s = set_with_sender s.sender pars a s

  abbrev pub create_unless :
      Option ActionParameters
      → Option ActionMetadata
      → Option ℕ
      → World k
      → BackendAction k
      → Option ℕ
      → Outcome (World k × Result ℕ)
  create_unless pars met old_uu s a (some uu) =
      done (s, err (str_append "UUID " (str_append (k.show uu) " already exists!")))
  create_unless pars met old_uu s a none = do
    r ← with_params pars (with_meta met (with_uuid old_uu a)) s
    m ← ActionManager.insert (ActionManager.mark_changed r.1.actions r.0.uu) r.0.uu r.0
    done (record r.1 { actions = m }, ok r.0.uu)

  abbrev pub create_from :
      Option ActionParameters
      → Option ActionMetadata
      → Option ℕ
      → World k
      → Result (World k × BackendAction k)
      → Outcome (World k × Result ℕ)
  create_from pars met old_uu before (err e) = done (before, err e)
  create_from pars met old_uu before (ok (s, a)) =
      create_unless pars met old_uu s a (uuid_taken s old_uu)

  unfoldable pub create_action :
      World k
      → String
      → Option ActionParameters
      → Option ActionMetadata
      → Option ℕ
      → Outcome (World k × Result ℕ)
  unfolding action_of with_params ActionManager.insert ActionManager.mark_changed ActionManager.get
      set_uuid set_meta
  create_action s ty pars met old_uu = create_from pars met old_uu s (action_of k ty s)
