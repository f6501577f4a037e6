-- ===== src/Meeting/Events/Tests.antt =====
-- Witnesses for src/sona/meeting/events.py.
use voice_realtime.Prelude.{◌≡◌, ◌≢◌, refl, ℕ, ◌≤◌, List, [], ◌∷◌, none, some, arith, length, ◌↔◌}
use voice_realtime.Meeting.Events.{
  transcript_reconciled, health_changed, Payload, Event, Cursor, Cursors, pass, accept, new_client,
  incoming, is_durable,
}
use voice_realtime.Meeting.Events.Gate.{InStep, accept-InStep}
use voice_realtime.Meeting.Events.Queue.{Told, enqueues, enqueues-Told}

abbrev payload_at : ℕ → Payload
payload_at n = record {
  transcript_revision = some n;
  content_revision = some n;
  meeting = 0;
  expected_revision = none;
}

abbrev reconciled_at : ℕ → Event
reconciled_at n = record {
  type_ = transcript_reconciled;
  meeting_id = 4;
  payload = some (payload_at n);
}

abbrev cursor_at : ℕ → Cursor
cursor_at n = record { transcript = some n; content = some n }

abbrev seen_seven : Cursors
seen_seven m = cursor_at 7

accept-InStep_example :
    (((accept (reconciled_at 8) seen_seven).0 ≡ pass)
      ↔ (InStep (some 8) (some 7) × InStep (some 8) (some 7)))
    × ((accept (reconciled_at 8) seen_seven).0 ≢ pass
        → (accept (reconciled_at 8) seen_seven).1 ≡ seen_seven)
unfolding incoming
accept-InStep_example =
    accept-InStep (reconciled_at 8) (payload_at 8) (cursor_at 8) seen_seven refl refl

abbrev health : Event
health = record { type_ = health_changed; meeting_id = 4; payload = none }

abbrev three : List Event
three = reconciled_at 1 ∷ health ∷ reconciled_at 2 ∷ []

enqueues-Told_example :
    Told three (new_client 2).queue (enqueues three (new_client 2)).queue
    × (length (enqueues three (new_client 2)).queue ≤ (new_client 2).maxsize)
unfolding new_client is_durable
enqueues-Told_example =
    enqueues-Told three (new_client 2) (refl, (refl, (refl, tt))) (omega arith) (omega arith)
