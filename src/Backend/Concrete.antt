-- ===== src/Backend/Concrete.antt =====
-- Concrete crates, in which a file is the number of its channels, with a concrete state of the
-- backend: an audio action, a fade of it, and a history.
use sqa.Base.{
  ℕ, suc, ◌+◌, ◌-◌, ◌^◌, err, Bool, true, false, none, some, List, [], ◌∷◌, ok, if◌then◌else◌, ltb,
}
use sqa.Duration.{zero_duration}
use sqa.AsyncResult.{AsyncResult, Polled}
use sqa.Actions.{AudioParams, FadeParams, PlaybackState}
use sqa.Actions.Action.{Action}
use sqa.ActionManager.{ActionManager}
use sqa.Undo
use sqa.Undo.{UndoContext}
use sqa.Codec.{Command, Reply}
use sqa.Handlers.{Wire, ConnData, ReplyData, ReplyDataType}
use sqa.Engine.Param.{Parameter, FadeDetails}
use sqa.Engine.Sender.{Memory}
use sqa.Engine.Context.{PlainSender}
use sqa.Engine.Concrete.{vectors, queues, numbering, floats, quiet, empty_system}
use sqa.Mixer.Context.{MixerContext}
use sqa.Media.Concrete.{Listed, listed}
use sqa.Backend.Waveforms.Overview.{Reading}
use sqa.Media.{MediaResult}
use sqa.Backend.{
  Context, Crates, AudioController, RunningData, FadeController, FadeRunning, ActionType,
}
use sqa.Backend.Save.{Storage}

abbrev pub crates : Crates ℕ ℕ ℕ ℕ
crates = record {
  v = vectors;
  q = queues;
  jack = numbering;
  f = floats;
  usize_max = 2 ^ 64 - 1;
  open_media = λ p path. (suc p, MediaResult.fine 2);
  channels = λ n. n;
  sample_rate = λ n. 48000;
  file_duration = λ n. some (record { secs = 3; nanos = 0 });
  position = λ p r. none;
  parse = λ url. ok ("file", url);
  percent_decode = λ path. path;
  file_name = λ path. some path;
  log10 = λ x. x;
  powf = λ b e. e;
  ten_f = 10;
  twenty_f = 20;
  show = λ uu. "uuid";
  show_error = λ e. "error";
  debug = λ st. "state";
  show_mixer = λ e. "mixer error";
  new_v4 = λ n. n + 100;
  new_timer = λ now d. ok now;
  later = λ now. now + 20;
  poll_timer = λ now t. if ltb now t then Polled.not_ready t else Polled.ready (ok tt);
}

abbrev pub mixer : MixerContext ℕ
mixer = record { engine = empty_system; channels = []; defs = [] }

abbrev pub with_actions : ActionManager (Action (ActionType ℕ ℕ) ℕ) → Context ℕ ℕ ℕ ℕ
with_actions m = record {
  mixer = mixer;
  media = 0;
  undo = record {
    changes = record { undo = Command.ping; redo = Command.ping; desc = "" } ∷ [];
    idx = none;
  };
  waveform = record { active = []; completed = [] };
  actions = m;
  sender = true;
  handle = true;
  now = 5000;
  internal = [];
  threads = [];
  drawn = 0;
}

abbrev pub nothing : ActionManager (Action (ActionType ℕ ℕ) ℕ)
nothing = record {
  actions = [];
  async_actions = [];
  changed = [];
  order = [];
  order_changed = false;
}

abbrev pub empty_context : Context ℕ ℕ ℕ ℕ
empty_context = with_actions nothing

abbrev pub rain : AudioParams
rain = record {
  url = some "rain.wav";
  chans = record { patch = none; vol = 1 } ∷ record { patch = none; vol = 1 } ∷ [];
  master_vol = 1;
  waveform_uuid = none;
}

-- An audio action whose file is open.
abbrev pub opened : AudioController ℕ
opened = record {
  params = rain;
  rd = none;
  file = some (MediaResult.fine 2);
  url = some (ok "rain.wav");
}

-- The sender of a stream, by its cells.
abbrev pub stream : ℕ → PlainSender
stream n = record {
  cells = n;
  master_vol = 0;
  buf = tt;
  sample_rate = 48000;
  original = false;
  uuid = n;
}

abbrev pub running : RunningData
running = record {
  control = 0;
  durinfo = record { start_time = 0; duration = zero_duration; est_duration = none };
  senders = stream 1 ∷ stream 2 ∷ [];
}

abbrev pub loaded : AudioController ℕ
loaded = record opened { rd = some running }

-- A fade of the master of that action, and one of a single channel.
abbrev pub down : Bool → FadeParams
down master = record {
  target = some 1;
  fades = (true, 0) ∷ [];
  fade_master = (master, 0);
  dur = record { secs = 3; nanos = 0 };
}

abbrev pub fader : Bool → FadeController ℕ
fader master = record { params = down master; timeout = AsyncResult.empty; rd = none }

abbrev pub target : Action (ActionType ℕ ℕ) ℕ
target = record {
  state = PlaybackState.loaded;
  ctl = ActionType.audio loaded;
  meta = record { name = none; prewait = zero_duration; number = none };
  timeout = AsyncResult.empty;
  uu = 1;
  start_asap = false;
}

abbrev pub with_target : Context ℕ ℕ ℕ ℕ
with_target =
    with_actions
      (record nothing { actions = (1, target) ∷ []; order = 1 ∷ []; order_changed = true })

-- A fade of three seconds from 5 on, which has run for two of them.
abbrev pub moving : FadeDetails
moving = record { from = 5; delta = 1; cells = 3; id_ptr = 8 }

abbrev pub fading : Memory
fading = record quiet {
  streams = λ i. record (quiet.streams i) { volume = Parameter.linear_fade moving };
  fades = λ i. record { start_time = 1000; duration = 3000; active = true };
  next = 4;
}

abbrev pub fade_running : FadeRunning
fade_running = record { params = down true; start_time = 1000; fd = moving }

abbrev pub faded : FadeController ℕ
faded = record (fader true) { rd = some fade_running }

-- A disk that takes nothing, and a socket that keeps what it took.
abbrev pub full_disk : Storage ℕ
full_disk = record {
  create = λ p path. (p, err "disk full");
  write_all = λ p path bytes. (p, err "disk full");
  read = λ p path. err "no such file";
  to_vec = λ save. ok [];
  from_slice = λ bytes. err "no savefile";
}

abbrev pub wire : Wire Reply ℕ ℕ (List Reply)
wire = record {
  encode = λ msg. ok 1;
  size = λ pkt. 10;
  send_udp = λ sent addr pkt. (suc sent, ok tt);
  send_tcp = λ sent msg. (msg ∷ sent, ok tt);
  oversized_reply = Reply.pong;
  deser_failed = λ e. Reply.pong;
  show = λ addr. "address";
}

abbrev pub one_client : ConnData ℕ (List Reply)
one_client = record {
  framed = 0;
  udp_clients = (77, record { subscribed_at = 0; tcp_addr = none }) ∷ [];
  tcp_clients = [];
}

abbrev pub asker : ReplyData
asker = record { ty = ReplyDataType.udp_request; addr = 77 }

-- A history with a change that was made.
abbrev pub with_history : Context ℕ ℕ ℕ ℕ
with_history = record with_target {
  undo = record {
    changes =
        Undo.gutter
        ∷ record {
          undo = Command.delete_action 1;
          redo = Command.create_action_with_uuid "audio" 1;
          desc = "create";
        }
        ∷ [];
    idx = none;
  };
}

-- A second action behind the first.
abbrev pub second : Action (ActionType ℕ ℕ) ℕ
second = record target { uu = 2 }

abbrev pub with_two : Context ℕ ℕ ℕ ℕ
with_two = record with_history {
  actions = record nothing {
    actions = (1, target) ∷ (2, second) ∷ [];
    order = 1 ∷ 2 ∷ [];
    order_changed = true;
  };
}

-- A waveform's thread, for which FFmpeg has a list of frames.
abbrev pub reading : Reading Listed
reading = record {
  f = floats;
  sqrt = λ x. x;
  f32 = λ s. 1;
  av = listed;
  channels = λ x. 2;
  seek = λ x start. (x, MediaResult.fine tt);
  show = λ e. "error";
  debug = λ e. "error";
}
