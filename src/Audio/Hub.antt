-- ===== src/Audio/Hub.antt =====
-- src/sona/audio/hub.py: AudioHub, one capture thread that fans out to bounded sinks. Opening the
-- device is PyAudio's; whether it succeeds is an argument. The awaits of `start` and `stop` are taken at the points where the event loop may run other callbacks.
pub mod Fanout
pub mod Sinks
pub mod Bounds
pub mod Life
mod Tests
use mathlib.Core.Logic.{ite}
use voice_realtime.Prelude.{
  ℕ, ◌+◌, Bool, true, false, ◌&&◌, ◌||◌, not, Option, none, some, List, [], ◌∷◌, ◌++◌, map,
  if◌then◌else◌, length, max, ◌==◌, leb,
}
use voice_realtime.Audio.Frames.{Backlog, offer}

-- `_SinkState`: `working` says that the worker task is there and not done.
pub record Sink (A : Type 0) : Type 0 where
  pub backlog : Backlog A
  pub working : Bool

pub record Hub (K A : Type 0) : Type 0 where
  pub queue_size : ℕ
  pub sinks : List (K × Sink A)
  pub running : Bool
  pub muted : Bool
  pub thread : Bool
  pub loop : Bool
  pub qaudio : Bool
  -- The capture thread has not yet reported whether the stream is open.
  pub opening : Bool

pub data Error : Type 0 where
  sink_exists capture_failed : Error

pub data Result {ℓ} (A : Type ℓ) : Type ℓ where
  ok : A → Result A
  raise : Error → Result A

pub record SinkDiagnostics : Type 0 where
  pub queued_chunks : ℕ
  pub dropped_chunks : ℕ

module _ {A : Type 0} where
  pub empty_backlog : Backlog A
  empty_backlog = record { queue = []; dropped = 0 }

  -- `_drain_queue`
  pub drain : Sink A → Sink A
  drain s = record s { backlog = record { queue = []; dropped = s.backlog.dropped } }

  pub employ : Sink A → Sink A
  employ s = record s { working = true }

  pub dismiss : Sink A → Sink A
  dismiss s = record { backlog = (drain s).backlog; working = false }

  pub receive : ℕ → A → Sink A → Sink A
  receive maxsize chunk s = record s { backlog = offer maxsize chunk s.backlog }

module _ {K A : Type 0} where
  pub init : ℕ → Hub K A
  init queue_size = record {
    queue_size = max 1 queue_size;
    sinks = [];
    running = false;
    muted = false;
    thread = false;
    loop = false;
    qaudio = false;
    opening = false;
  }

  -- A change of every sink.
  pub on_sinks : (Sink A → Sink A) → List (K × Sink A) → List (K × Sink A)
  on_sinks f [] = []
  on_sinks f ((k, s) ∷ r) = (k, f s) ∷ on_sinks f r

  pub diagnose : List (K × Sink A) → List (K × SinkDiagnostics)
  diagnose [] = []
  diagnose ((k, s) ∷ r) =
      (k, record { queued_chunks = length s.backlog.queue; dropped_chunks = s.backlog.dropped })
      ∷ diagnose r

  pub sink_diagnostics : Hub K A → List (K × SinkDiagnostics)
  sink_diagnostics h = diagnose h.sinks

  pub set_muted : Hub K A → Bool → Hub K A
  set_muted h true = record h { muted = true; sinks = on_sinks drain h.sinks }
  set_muted h false = record h { muted = false }

  -- `_start_sink_workers`
  pub start_sink_workers : Hub K A → Hub K A
  start_sink_workers h = record h { sinks = on_sinks employ h.sinks }

  -- `_stop_sink_workers`
  pub stop_sink_workers : Hub K A → Hub K A
  stop_sink_workers h = record h { sinks = on_sinks dismiss h.sinks }

  -- The end of `stop`, and of `_cleanup_after_failed_start`: the thread is joined, the workers
  -- are stopped and PyAudio is terminated.
  pub tear_down : Hub K A → Hub K A
  tear_down h = record (stop_sink_workers (record h { running = false; thread = false })) {
    qaudio = false;
    loop = false;
    opening = false;
  }

  -- The state in which the capture thread runs.
  pub begun : Hub K A → Hub K A
  begun h = record (start_sink_workers h) {
    loop = true;
    qaudio = true;
    running = true;
    thread = true;
    opening = true;
  }

  -- `start` up to its await; `resolved` says that the input device was found.
  pub begin_start : Bool → Hub K A → Result (Hub K A)
  begin_start resolved h =
      if h.running then ok h else if resolved then ok (begun h) else raise capture_failed

  -- `start` from its await, once the thread has reported; a failure is cleaned up and raised again.
  pub finish_start : Bool → Hub K A → Result (Unit {0}) × Hub K A
  finish_start opened h =
      if opened then (ok tt, record h { opening = false }) else (raise capture_failed, tear_down h)

  -- `start` once `PyAudio()` has returned, with the cleanup of its `except` branch.
  pub open_start : Bool → Bool → Hub K A → Result (Unit {0}) × Hub K A
  open_start resolved opened h = elim (begin_start resolved h) [
    | ok g ↦ if h.running then (ok tt, g) else finish_start opened g
    | raise e ↦ (raise e, tear_down h)
  ]

  -- `start`: `available` says that `PyAudio()` returns, which is called before the `try`.
  pub start : Bool → Bool → Bool → Hub K A → Result (Unit {0}) × Hub K A
  start available resolved opened h =
      if h.running || available
      then open_start resolved opened h
      else (raise capture_failed, record h { loop = true })

  pub stop : Hub K A → Hub K A
  stop h = if not h.running && (not h.qaudio && not h.thread) then h else tear_down h

  -- `_on_chunk_received`
  pub on_chunk_received : A → Hub K A → Hub K A
  on_chunk_received chunk h =
      if not h.running || h.muted
      then h
      else record h { sinks = on_sinks (receive h.queue_size chunk) h.sinks }

  pub on_chunks : List A → Hub K A → Hub K A
  on_chunks [] h = h
  on_chunks (x ∷ xs) h = on_chunks xs (on_chunk_received x h)

module _ {K A : Type 0} (dec : Discrete K) where
  pub find_sink : K → List (K × Sink A) → Option (Sink A)
  find_sink k [] = none
  find_sink k ((j, s) ∷ r) = ite (dec j k) (some s) (find_sink k r)

  pub drop_sink : K → List (K × Sink A) → List (K × Sink A)
  drop_sink k [] = []
  drop_sink k ((j, s) ∷ r) = ite (dec j k) r ((j, s) ∷ drop_sink k r)

  pub replace_sink : K → Sink A → List (K × Sink A) → List (K × Sink A)
  replace_sink k t [] = []
  replace_sink k t ((j, s) ∷ r) = ite (dec j k) ((j, t) ∷ r) ((j, s) ∷ replace_sink k t r)

  pub add_sink : K → Hub K A → Result (Hub K A)
  add_sink k h = elim (find_sink k h.sinks) [
    | some s ↦ raise sink_exists
    | none ↦ ok (record h {
      sinks =
          h.sinks ++ (k, record { backlog = empty_backlog; working = h.running && h.loop }) ∷ [];
    })
  ]

  pub remove_sink : K → Hub K A → Hub K A
  remove_sink k h = record h { sinks = drop_sink k h.sinks }

  -- One round of `_sink_worker`: it takes the next chunk, and hands it on unless the hub is muted.
  pub consume : K → Bool → Sink A → List A → Hub K A → Option A × Hub K A
  consume k muted s [] h = (none, h)
  consume k muted s (x ∷ xs) h = (
    if muted then none else some x,
    record h {
      sinks =
          replace_sink k (record s { backlog = record { queue = xs; dropped = s.backlog.dropped } })
            h.sinks;
    },
  )

  pub work : K → Hub K A → Option A × Hub K A
  work k h = elim (find_sink k h.sinks) [
    | none ↦ (none, h)
    | some s ↦ if s.working then consume k h.muted s s.backlog.queue h else (none, h)
  ]

pub data Call (K A : Type 0) : Type 0 where
  chunks : A → Call K A
  works adds removes : K → Call K A
  mutes : Bool → Call K A
  starts : Bool → Bool → Bool → Call K A
  stops : Call K A

pub kept : {K A : Type 0} → Hub K A → Result (Hub K A) → Hub K A
kept h (ok g) = g
kept h (raise e) = h

pub delivered : {A : Type 0} → Option A → List A
delivered none = []
delivered (some x) = x ∷ []

-- One call: the next hub, and the chunks that a sink's callback was given.
module _ {K A : Type 0} (dec : Discrete K) where
  pub step : Hub K A → Call K A → List A × Hub K A
  step h (chunks x) = ([], on_chunk_received x h)
  step h (works k) = (delivered (work dec k h).0, (work dec k h).1)
  step h (adds k) = ([], kept h (add_sink dec k h))
  step h (removes k) = ([], remove_sink dec k h)
  step h (mutes b) = ([], set_muted h b)
  step h (starts available resolved opened) = ([], (start available resolved opened h).1)
  step h stops = ([], stop h)

  pub run : Hub K A → List (Call K A) → List A × Hub K A
  run h [] = ([], h)
  run h (c ∷ cs) = ((step h c).0 ++ (run (step h c).1 cs).0, (run (step h c).1 cs).1)
