-- ===== src/Audio/Hub/Tests.antt =====
-- Runs of src/sona/audio/hub.py, and the theorems at a concrete hub.
use native.Mathlib.Decide.{ℕ_discrete}
use voice_realtime.Prelude.{◌≡◌, refl, ℕ, true, false, some, List, [], ◌∷◌, arith}
use voice_realtime.Audio.Frames.{Keeps, offer}
use voice_realtime.Audio.Hub.{
  Sink, Hub, raise, capture_failed, init, empty_backlog, drain, on_sinks, set_muted, employ,
  dismiss, start_sink_workers, stop_sink_workers, tear_down, begin_start, begun, finish_start,
  open_start, start, stop, receive, on_chunk_received, on_chunks, find_sink, drop_sink,
  replace_sink, add_sink, remove_sink, consume, work, Call, chunks, works, adds, starts, kept,
  delivered, step, run, sink_diagnostics, diagnose,
}
use voice_realtime.Audio.Hub.Fanout.{on_chunks-Keeps}
use voice_realtime.Audio.Hub.Bounds.{IsBounded, run-init-IsBounded, muted_delivers_nothing}
use voice_realtime.Audio.Hub.Life.{IsTornDown, start-IsTornDown, stop-IsTornDown}

program : Unit {0}
unfolding init empty_backlog drain on_sinks set_muted employ dismiss start_sink_workers
    stop_sink_workers tear_down begin_start begun finish_start open_start start stop receive
    on_chunk_received on_chunks find_sink drop_sink replace_sink add_sink remove_sink consume work
    kept delivered step run offer ℕ_discrete sink_diagnostics diagnose
program = tt

abbrev calls : List (Call ℕ ℕ)
calls = adds 7 ∷ starts true true true ∷ chunks 1 ∷ chunks 2 ∷ chunks 3 ∷ works 7 ∷ []

abbrev fresh : Hub ℕ ℕ
fresh = init 2

-- Of three chunks the oldest is lost; the worker gets the second.
runs : (run ℕ_discrete fresh calls).0 ≡ 2 ∷ []
unfolding program
runs = refl

diagnosed :
    sink_diagnostics (run ℕ_discrete fresh calls).1
    ≡ (7, record { queued_chunks = 1; dropped_chunks = 1 }) ∷ []
unfolding program
diagnosed = refl

abbrev one_sink : Sink ℕ
one_sink = record { backlog = record { queue = []; dropped = 0 }; working = true }

abbrev open_hub : Hub ℕ ℕ
open_hub = record {
  queue_size = 2;
  sinks = (7, one_sink) ∷ [];
  running = true;
  muted = false;
  thread = true;
  loop = true;
  qaudio = true;
  opening = false;
}

on_chunks-Keeps_example :
    (t : Sink ℕ) × (find_sink ℕ_discrete 7 (on_chunks (1 ∷ 2 ∷ 3 ∷ []) open_hub).sinks ≡ some t)
    × Keeps 2 one_sink.backlog t.backlog (1 ∷ 2 ∷ 3 ∷ [])
unfolding program
on_chunks-Keeps_example =
    on_chunks-Keeps ℕ_discrete (1 ∷ 2 ∷ 3 ∷ []) open_hub 7 one_sink refl refl (omega arith)
      (omega arith) refl

run-init-IsBounded_example : IsBounded ℕ_discrete (run ℕ_discrete (init 2) calls).1
run-init-IsBounded_example = run-init-IsBounded ℕ_discrete 2 calls

muted_delivers_nothing_example :
    (run ℕ_discrete (set_muted open_hub true) (chunks 4 ∷ works 7 ∷ [])).0 ≡ []
muted_delivers_nothing_example =
    muted_delivers_nothing ℕ_discrete open_hub (chunks 4 ∷ works 7 ∷ [])
      ((λ e. cc), ((λ e. cc), tt))

start-IsTornDown_example :
    (g : Hub ℕ ℕ) × (start true true false fresh ≡ (raise capture_failed, g)) × IsTornDown fresh g
unfolding init
start-IsTornDown_example = start-IsTornDown fresh true false refl refl

-- A hub that runs, with a chunk that waits.
abbrev waiting_hub : Hub ℕ ℕ
waiting_hub = record open_hub {
  sinks = (7, record { backlog = record { queue = 5 ∷ []; dropped = 1 }; working = true }) ∷ [];
}

stop-IsTornDown_example : IsTornDown waiting_hub (stop waiting_hub)
stop-IsTornDown_example = stop-IsTornDown waiting_hub refl
