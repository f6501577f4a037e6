-- ===== src/Lib.antt =====
-- Sona, a local voice assistant and meeting recorder (src/sona): models of the parts that carry its
-- own logic, and what is proved of them.
--
-- Parts and how they interact. Audio enters through the hub, which hands each chunk to the queues
-- of its sinks; a router chooses the one source whose frames a capture reads; frames of the
-- physical output come from a helper process over a socket, in the wire format. A meeting writes
-- each window of its transcript to the database, or to a journal on disk while the database fails.
-- A coordinator gives the microphone to the assistant, the subtitles or a meeting, one at a time.
-- Calls of the language model wait in the inference scheduler, and answers are kept in the cache.
--
-- Audio.Hub      src/sona/audio/hub.py: AudioHub. `on_chunk_received`, `start`, `stop`, `add_sink`
--                and `remove_sink` are its methods, `work` is one round of `_sink_worker`.
-- Audio.Frames   the bounded queues of hub.py and router.py: a full queue loses its oldest entry.
-- Audio.Router   src/sona/audio/router.py: AudioSourceRouter, with the calls of its sources recorded.
-- Audio.Frame    src/sona/audio/frame.py, Audio.Profile src/sona/audio/profile.py,
-- Audio.Levels   src/sona/audio/levels.py: validation of frames and layouts, and the level meter.
-- Audio.Wire     src/sona/audio/ipc.py: both encoders and WireDecoder; Audio.Wire.Struct is the part
--                of Python's `struct` that it uses. `drain` is the loop of `feed`.
-- Meeting.Journal      src/sona/meeting/recovery.py: RecoveryJournal, a file for each meeting.
-- Meeting.Persistence  src/sona/meeting/persistence.py: TranscriptPersistence.
-- Meeting.Events       src/sona/meeting/events.py: the broadcaster, `accept` is its gate on revisions.
-- Meeting.Smoother     src/sona/meeting/diarization_smoother.py: the smoothing of speakers, step by step.
-- Meeting.Overlay      src/sona/meeting/diarization_overlay.py: the buffer of a recording's audio, and the
--                assignment of speakers to segments.
-- Meeting.Finalizer    src/sona/meeting/finalization.py: MeetingFinalizer, with the calls it makes recorded.
-- Runtime        src/sona/meeting/runtime_mode.py: RuntimeModeCoordinator. Runtime.Steps, Restoring and
--                Transition are its private methods, Commands and Endings the commands; a method
--                takes the state and gives it back when it returns, raises or is cancelled.
-- Scheduler      src/sona/inference/scheduler.py: the priority scheduler; Scheduler.Tasks adds the
--                tasks that wait, hold and leave, as steps of the event loop.
-- Cache          src/sona/meeting/inner_os/cache.py: BoundedTTLCache.
-- Prelude        lists, text as code points, Boolean tests on numbers.
--
-- Conventions. An exception is a constructor of the part's own `Result`; code between two awaits is
-- one function; numbers are natural numbers, integers where the source tests a sign. The loop of
-- the wire decoder runs on fuel, the number of bytes in the buffer: a round that goes on uses some
-- byte (drain_enough of Audio.Wire.Stream is the lemma about the fuel).
--
-- Parameters. The database, JSON text, the clock, the level of a block of samples and the outcome
-- of each call of a device stand for code outside the repository. The workloads of the coordinator
-- and the ports of the finalizer are interfaces to other parts.
--
-- Not modelled: the interaction pipeline, the subtitle sessions, the meeting's session and
-- the SpeechRail clients; HTTP and WebSocket routes, SQL, devices and configuration are input and
-- output or calls of libraries.
pub mod Prelude
pub mod Scheduler
pub mod Cache
pub mod Audio
pub mod Meeting
pub mod Runtime
