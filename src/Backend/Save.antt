-- ===== src/Backend/Save.antt =====
-- Savefiles (sqa-backend/src/save.rs). The files and the encoding are parameters.
use sqa.Base.{
  ℕ, Bool, true, false, ◌&&◌, not, String, str_append, str_eq, some, List, [], ◌∷◌, Outcome, done,
  ◌>>=◌, Result, ok, err, if◌then◌else◌,
}
use sqa.Base.HashMap
use sqa.Base.HashMap.{HashMap}
use sqa.ActionManager
use sqa.Actions.{ActionParameters, ActionMetadata, OpaqueAction, typ}
use sqa.Actions.Execute.{get_data}
use sqa.Codec.{Reply}
use sqa.Mixer.{MixerConf, Tried}
use sqa.Mixer.Context.{obtain_config}
use sqa.Mixer.Config.{process_config}
use sqa.Undo.{UndoContext}
use sqa.Handlers.{Wire}
use sqa.Backend.{Crates, surroundings}
use sqa.Backend.Controllers.{World, BackendAction, controllers}
use sqa.Backend.State.{
  Server, make_action_list, broadcast_to, on_all_actions_changed, on_undo_changed, create_action,
  put_back,
}

abbrev pub savefile_version : String
savefile_version = "indev"

pub record SavedAction : Type 0 where
  pub typ : String
  pub meta : ActionMetadata
  pub params : ActionParameters

unfoldable pub to_saved : OpaqueAction → SavedAction
unfolding typ
to_saved opa = record { typ = typ opa; meta = opa.meta; params = opa.params }

pub record Savefile : Type 0 where
  pub ver : String
  pub actions : HashMap SavedAction
  pub order : List ℕ
  pub mixer_conf : MixerConf
  pub undo : UndoContext

-- The crate rmp_serde, and files on a medium of type `P`, as lists of bytes.
pub record Storage (P : Type 0) : Type 0 where
  pub create : P → String → P × Result (Unit {0})
  pub write_all : P → String → List ℕ → P × Result (Unit {0})
  pub read : P → String → Result (List ℕ)
  pub to_vec : Savefile → Result (List ℕ)
  pub from_slice : List ℕ → Result Savefile

module _ {J X P F : Type 0} (k : Crates J X P F) where
  -- The actions are read one by one, and are out of the table until then.
  unfoldable pub save_actions :
      HashMap (BackendAction k)
      → World k
      → HashMap SavedAction
      → Outcome (World k × HashMap SavedAction)
  unfolding put_back to_saved HashMap.insert
  save_actions [] s saved = done (s, saved)
  save_actions ((uu, act) ∷ acts) s saved = get_data (controllers k) (surroundings k) act s >>= λ r.
      put_back k s uu r.0 >>= λ s'. save_actions acts s' (HashMap.insert uu (to_saved r.1) saved)

  unfoldable pub new_from_ctx : World k → Outcome (World k × Savefile)
  unfolding save_actions obtain_config ActionManager.remove_all_for_editing
  new_from_ctx s = do
    let (m, acts) = ActionManager.remove_all_for_editing s.actions
    r ← save_actions acts (record s { actions = m }) []
    done (
      r.0,
      record {
        ver = savefile_version;
        actions = r.1;
        order = r.0.actions.order;
        mixer_conf = obtain_config r.0.mixer;
        undo = r.0.undo;
      },
    )

  -- A step that failed ends it, unless it is forced.
  abbrev pub unless_forced :
      {A B : Type 0}
      → Bool
      → Result A
      → B
      → (B → Outcome (B × Result (Unit {0})))
      → Outcome (B × Result (Unit {0}))
  unless_forced true r b next = next b
  unless_forced false (ok a) b next = next b
  unless_forced false (err e) b next = done (b, err e)

  unfoldable pub create_saved :
      Bool → HashMap SavedAction → World k → Outcome (World k × Result (Unit {0}))
  unfolding create_action
  create_saved force [] s = done (s, ok tt)
  create_saved force ((uu, sa) ∷ acts) s =
      create_action k s sa.typ (some sa.params) (some sa.meta) (some uu) >>= λ r.
      unless_forced force r.1 r.0 (create_saved force acts)

  abbrev pub restore_order : World k → List ℕ → World k × Result (Unit {0})
  restore_order s order =
      let (m, r) = ActionManager.restore_order k.show s.actions order in
      (record s { actions = m }, r)

  abbrev pub of_tried : Tried (Unit {0}) → Result (Unit {0})
  of_tried (Tried.went u) = ok tt
  of_tried (Tried.threw e) = err (k.show_mixer e)

  abbrev pub restore_mixer : MixerConf → World k → Outcome (World k × Result (Unit {0}))
  restore_mixer conf s = process_config k.v k.q k.jack conf s.mixer >>= λ r.
      done (record s { mixer = r.0 }, of_tried r.1)

  -- What is put into the context, from an empty table of actions on.
  unfoldable pub restore_all : Savefile → Bool → World k → Outcome (World k × Result (Unit {0}))
  unfolding create_saved process_config ActionManager.restore_order
  restore_all sf force s = do
    r ← create_saved force sf.actions s
    unless_forced force r.1 r.0 (λ s1.
        let (s2, ro) = restore_order s1 sf.order in
        unless_forced force ro s2 (λ s3. restore_mixer sf.mixer_conf s3 >>= λ rm.
        unless_forced force rm.1 rm.0 (λ s4. done (record s4 { undo = sf.undo }, ok tt))))

  unfoldable pub version_mismatch : Savefile → Result (Unit {0})
  version_mismatch sf = err (
      str_append "Savefile version mismatch: our version is " (
        str_append savefile_version
          (str_append ", but the savefile was saved with " (str_append sf.ver "."))))

  abbrev pub cleared : World k → World k
  cleared s = record s { actions = ActionManager.new }

  module _ {Pkt Udp Sock : Type 0} (wire : Wire Reply Pkt Udp Sock) where
    abbrev pub told :
        Server k wire × Result (Unit {0}) → Outcome (Server k wire × Result (Unit {0}))
    told (sv, err e) = done (sv, err e)
    told (sv, ok u) = on_all_actions_changed k wire sv >>= λ sv'.
        on_undo_changed k wire sv' >>= λ sv''. done (sv'', ok tt)

    -- With the connections, which are told of the empty table first and of everything at the end.
    unfoldable pub apply_to_ctx :
        Savefile → Server k wire → Bool → Outcome (Server k wire × Result (Unit {0}))
    unfolding restore_all version_mismatch on_all_actions_changed on_undo_changed make_action_list
        broadcast_to ActionManager.new
    apply_to_ctx sf (s, d) force =
        if not (str_eq sf.ver savefile_version) && not force
        then done ((s, d), version_mismatch sf)
        else (do
          r ← make_action_list k (cleared s)
          let sv = broadcast_to k wire (r.0, d) r.1
          x ← restore_all sf force sv.0
          told ((x.0, sv.1), x.1))

  -- Without them.
  unfoldable pub apply_alone : Savefile → World k → Bool → Outcome (World k × Result (Unit {0}))
  unfolding restore_all version_mismatch ActionManager.new
  apply_alone sf s force =
      if not (str_eq sf.ver savefile_version) && not force
      then done (s, version_mismatch sf)
      else restore_all sf force (cleared s)

  module _ (disk : Storage P) where
    abbrev pub write_result : World k → String → Result (List ℕ) → World k × Result (Unit {0})
    write_result s path (err e) = (s, err e)
    write_result s path (ok bytes) =
        let (p, r) = disk.write_all s.media path bytes in (record s { media = p }, r)

    abbrev pub save_created :
        World k → String → Result (Unit {0}) → Outcome (World k × Result (Unit {0}))
    save_created s path (err e) = done (s, err e)
    save_created s path (ok u) =
        new_from_ctx s >>= λ r. done (write_result r.0 path (disk.to_vec r.1))

    -- The file is created before anything is read, so an error leaves it empty.
    unfoldable pub save_to_file : World k → String → Outcome (World k × Result (Unit {0}))
    unfolding new_from_ctx
    save_to_file s path =
        let (p, r) = disk.create s.media path in save_created (record s { media = p }) path r

    abbrev pub decoded : Result (List ℕ) → Result Savefile
    decoded (err e) = err e
    decoded (ok bytes) = disk.from_slice bytes

    module _ {Pkt Udp Sock : Type 0} (wire : Wire Reply Pkt Udp Sock) where
      unfoldable pub apply_decoded :
          Result Savefile → Server k wire → Bool → Outcome (Server k wire × Result (Unit {0}))
      unfolding apply_to_ctx
      apply_decoded (err e) sv force = done (sv, err e)
      apply_decoded (ok sf) sv force = apply_to_ctx wire sf sv force

      unfoldable pub apply_from_file :
          Server k wire → String → Bool → Outcome (Server k wire × Result (Unit {0}))
      unfolding apply_decoded
      apply_from_file (s, d) path force =
          apply_decoded (decoded (disk.read s.media path)) (s, d) force
