-- ===== src/Meeting/Finalizer/Tests.antt =====
-- Runs of src/sona/meeting/finalization.py with ports that give fixed answers.
use voice_realtime.Prelude.{refl, ℕ, true, false, none, some, [], ◌∷◌}
use voice_realtime.Meeting.Journal.{interrupted, Segment, TranscriptWindow}
use voice_realtime.Meeting.Overlay.{Span}
use voice_realtime.Meeting.Finalizer.{ok, timed_out, Ports, Finalizer, finalize}
use voice_realtime.Meeting.Finalizer.Steps.{Post, At}
use voice_realtime.Meeting.Finalizer.Order.{Sealed, Ends, finalize-Sealed}

abbrev line : Segment
line = record {
  id = 1;
  order = 0;
  source_epoch = 0;
  speaker_key = 97 ∷ [];
  start_ms = 0;
  end_ms = 900;
  text = 104 ∷ [];
}

abbrev window : TranscriptWindow
window = record {
  source_epoch = 0;
  partial = [];
  segments = line ∷ [];
  speaker_remap = (97 ∷ [], 98 ∷ []) ∷ [];
}

abbrev span : Span
span = record { speaker_key = 99 ∷ []; raw_speaker = 99 ∷ []; start_ms = 0; end_ms = 900 }

-- The capture times out.
abbrev late_ports : Ports ℕ
late_ports = record {
  finish = λ w. (timed_out (some window), w);
  abort = λ w. (ok tt, w);
  reconcile = λ x w. (ok true, w);
  overlay = λ w. (ok (span ∷ []), w);
  transcript = λ w. (ok (line ∷ []), w);
  remap = λ x w. (ok tt, w);
  seal = λ x w. (ok 5, w);
  minutes = λ w. (ok 6, w);
}

abbrev fresh : Finalizer ℕ
fresh = record {
  has_overlay = true;
  capture_closed = false;
  finalized_record = none;
  calls = [];
  world = 0;
}

finalize-Sealed_example :
    Post (Sealed interrupted true (some window)) (At 8) (finalize late_ports fresh)
unfolding Ends
finalize-Sealed_example = finalize-Sealed late_ports fresh refl refl
