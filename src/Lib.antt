-- ===== src/Lib.antt =====
-- SQA plays audio cues. A backend (sqa-backend) keeps the actions of a show, such as playing a file
-- or fading a volume, runs them against a mixer, and speaks a message protocol with its user
-- interfaces; an engine (sqa-engine) mixes the streams in a real-time audio thread under JACK.
--
-- The parts, and the files that model them:
-- - Undo.antt: the undo history, `UndoContext` of sqa-backend/src/undo.rs. Undo/History.antt is the
--   abstract history, two stacks of changes, which Undo/View.antt and Undo/Register.antt show to be
--   refined.
-- - ActionManager.antt: the table of actions and their order, sqa-backend/src/action_manager.rs. The
--   type of actions is a parameter.
-- - Actions.antt and the files below it: actions and their playback states, with `load`, `pause`,
--   `reset`, `poll`, `execute` and `state_change` of sqa-backend/src/actions/mod.rs, over an
--   interface for the trait `ActionController` (Actions/Controller.antt). Each operation takes the
--   action and the context of the program and returns both.
-- - AsyncResult.antt: pending results, sqa-backend/src/async.rs; the futures are a parameter.
-- - Mixer.antt, Mixer/Context.antt and Mixer/Config.antt: the mixer's channels and the application of
--   a configuration, sqa-backend/src/mixer.rs, over the engine.
-- - Handlers.antt and Handlers/Broadcast.antt: clients, replies and broadcasts,
--   sqa-backend/src/handlers.rs; sockets and OSC packets are a parameter.
-- - Backend.antt and the files below it: the state of the backend, `Context` of
--   sqa-backend/src/state.rs, and what works on it. Backend/Audio.antt and Backend/Fade.antt are the
--   controllers of audio actions and of fades (actions/audio.rs and actions/fade.rs), which
--   Backend/Controllers.antt puts behind the interface of Actions (actions/mod.rs);
--   Backend/State.antt the creation of actions and the reports (state.rs); Backend/Undoable.antt the
--   changes that can be undone (undo.rs); Backend/Save.antt savefiles (save.rs);
--   Backend/Waveforms.antt the requests for waveforms, with what their thread computes in
--   Backend/Waveforms/Overview.antt (waveform.rs); Backend/Commands.antt the dispatch of commands
--   (commands.rs); Backend/Events.antt the handlers of commands, internal messages and wake-ups
--   (state.rs and action_manager.rs).
-- - Spooler.antt: the thread that feeds a file into the buffers of its streams, `SpoolerContext` of
--   sqa-backend/src/actions/audio.rs.
-- - Media.antt, Media/Frame.antt and Media/File.antt: the formats, frames and files of
--   sqa-ffmpeg/src/lib.rs, frame.rs and errors.rs, over FFmpeg's calls as a parameter.
-- - Client.antt, Client/Handling.antt and Client/Phases.antt: the client's side of a connection,
--   `Context` of sqa-ui/src/connection.rs; its sockets are a parameter, and what it tells the user
--   interface is a list.
-- - Codec.antt and Waveform.antt: the types of messages, sqa-backend/src/codec.rs and waveform.rs.
-- - Engine.antt and the files below it: the engine's channels and senders (Engine/Context.antt and
--   Engine/Sender.antt, sqa-engine/src/lib.rs), the audio thread (Engine/Thread.antt and below it,
--   thread.rs), the messages between the two (Engine/Sync.antt, sync.rs) and parameters that fade
--   (Engine/Param.antt, param.rs).
-- - Base.antt and Duration.antt: vectors, hash maps and sets as lists, panics, words of 64 bits and
--   `std::time::Duration`.
--
-- The parts work together through states that are passed on: the context of the backend holds the
-- table of actions, the history and the mixer; the mixer holds a `System`, which is the engine, the
-- audio thread with the queue of commands that leads to it, and the memory of the cells that both see.
-- A location of this memory is a number; what Rust shares by `Arc` has one location. What the context
-- calls of the outside is one record, `Crates`: the engine's crates, the opening of files, URLs and
-- paths, random UUIDs, timers, prints and the arithmetic of floats.
--
-- Conventions: a UUID, an address, a port or a location is a number. A panic, be it an index out of
-- range, a failed assertion or an overflow of checked arithmetic, is the value `panic` of `Outcome`.
-- Times are in nanoseconds of one clock, which is read where the code reads it and does not move
-- within a call, but for the second reading of a fade's `freeze_sdr`, which is a parameter. A `f32` is
-- known by its bit pattern and its arithmetic is a parameter. The loop of `Action::execute` runs on
-- fuel, of which two rounds are enough whatever the controller does; the walk over a file's frames and
-- the spooler run on fuel, of which any number above the packets and frames to come is enough for a
-- file that is not damaged, while on a packet that can never be read the code itself does not end;
-- commands out of the history nest by two levels of fuel, which is enough for a history without undo
-- and redo; all other loops are structural. The crates arrayvec and bounded_spsc_queue are parameters,
-- with what their documentation says as hypotheses (Engine.antt), which Engine/Concrete.antt shows can
-- hold; the queue is seen without the memory order of its atomics, each callback and each call being
-- one step.
--
-- The spooler and the backend share the buffers and the cells, but are seen apart: the spooler works
-- in stretches from one message of its channel to the next, with what the audio thread does in between
-- given by the caller, and the backend holds the channel's other end. What the spooler drops when it
-- returns is not followed. Log messages are left out.
--
-- Not modelled: the connection to JACK and the start of threads, the event loop over the sockets,
-- the opening of files in FFmpeg and the conversion of samples, the encoding of messages, the rounds
-- in which a client polls its sockets, and the rest of the user interface.
pub mod Base
pub mod Duration
pub mod Mixer
pub mod Waveform
pub mod Actions
pub mod Codec
pub mod Undo
pub mod ActionManager
pub mod AsyncResult
pub mod Engine
pub mod Handlers
pub mod Media
pub mod Spooler
pub mod Backend
pub mod Client
