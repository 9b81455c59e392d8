-- ===== src/Codec.antt =====
-- The messages of the protocol (sqa-backend/src/codec.rs). A UUID and a socket address are numbers.
use sqa.Base.{ℕ, Bool, String, List, Option, Result}
use sqa.Base.HashMap.{HashMap}
use sqa.Actions.{ActionParameters, ActionMetadata, OpaqueAction}
use sqa.Mixer.{MixerConf}
use sqa.Waveform.{WaveformRequest, WaveformReply}

pub data Command : Type 0 where
  ping version subscribe : Command
  subscribe_and_associate : (addr : ℕ) → Command
  create_action : (typ : String) → Command
  action_list : Command
  action_info : (uuid : ℕ) → Command
  update_action_params : (uuid : ℕ) (params : ActionParameters) (desc : Option String) → Command
  update_action_metadata : (uuid : ℕ) (meta : ActionMetadata) → Command
  revive_action :
      (uuid : ℕ) (typ : String) (meta : ActionMetadata) (params : ActionParameters) → Command
  create_action_with_uuid : (typ : String) (uuid : ℕ) → Command
  create_action_with_extras : (typ : String) (uuid : ℕ) (params : ActionParameters) → Command
  delete_action verify_action load_action execute_action : (uuid : ℕ) → Command
  reset_action pause_action : (uuid : ℕ) → Command
  reorder_action : (uuid : ℕ) (new_pos : ℕ) → Command
  get_mixer_conf : Command
  set_mixer_conf : (conf : MixerConf) → Command
  make_savefile : (save_to : String) → Command
  load_savefile : (load_from : String) (force : Bool) → Command
  undo redo get_undo_state : Command
  generate_waveform : (uuid : ℕ) (req : WaveformRequest) → Command

pub record UndoState : Type 0 where
  pub undo : Option String
  pub redo : Option String

pub data Reply : Type 0 where
  pong : Reply
  server_version : (ver : String) → Reply
  subscribed : Reply
  associated : (res : Result (Unit {0})) → Reply
  deser_failed : (message : String) → Reply
  action_created : (res : Result ℕ) → Reply
  action_info_retrieved : (uuid : ℕ) (res : Result OpaqueAction) → Reply
  action_params_updated action_metadata_updated : (uuid : ℕ) (res : Result (Unit {0})) → Reply
  action_deleted : (uuid : ℕ) (deleted : Bool) → Reply
  action_loaded action_executed action_maybe_paused : (uuid : ℕ) (res : Result (Unit {0})) → Reply
  action_reset action_reordered : (uuid : ℕ) (res : Result (Unit {0})) → Reply
  mixer_conf_set : (res : Result (Unit {0})) → Reply
  reply_action_list : (list : HashMap OpaqueAction) (order : List ℕ) → Reply
  update_order : (order : List ℕ) → Reply
  update_action_info : (uuid : ℕ) (info : OpaqueAction) → Reply
  update_action_deleted : (uuid : ℕ) → Reply
  update_mixer_conf : (conf : MixerConf) → Reply
  savefile_made savefile_loaded : (res : Result (Unit {0})) → Reply
  reply_undo_state : (ctx : UndoState) → Reply
  waveform_generated : (uuid : ℕ) (res : Result WaveformReply) → Reply
  oversized_reply : Reply
