-- ===== src/Meeting/Overlay/Tests.antt =====
-- Runs of src/sona/meeting/diarization_overlay.py.
use voice_realtime.Prelude.{◌≡◌, refl, ◌≤◌, true, false, List, [], ◌∷◌, length, inl, arith}
use voice_realtime.Prelude.Text.{Text}
use voice_realtime.Meeting.Overlay.{
  Span, Timed, Overlay, start, last_bytes, assign_speakers_by_overlap, find,
}
use voice_realtime.Meeting.Overlay.Assigned.{IsAssigned, HasDistinctIds, assign_speakers-IsAssigned}
use voice_realtime.Meeting.Overlay.Buffer.{push_all, concat, push_all-start}

abbrev ann : Text
ann = 97 ∷ []

abbrev bob : Text
bob = 98 ∷ []

-- Bob speaks for most of the first segment.
abbrev spans : List Span
spans =
    record { speaker_key = ann; raw_speaker = ann; start_ms = 0; end_ms = 300 }
    ∷ record { speaker_key = bob; raw_speaker = bob; start_ms = 300; end_ms = 1200 }
    ∷ []

abbrev opening : Timed
opening = record { id = 1; speaker_key = ann; start_ms = 0; end_ms = 1000 }

abbrev reply : Timed
reply = record { id = 2; speaker_key = bob; start_ms = 1000; end_ms = 1500 }

segments-HasDistinctIds : HasDistinctIds (opening ∷ reply ∷ [])
unfolding HasDistinctIds
segments-HasDistinctIds = ((λ e. absurd (omega (arith, e)), tt), (tt, tt))

assign_speakers-IsAssigned_example :
    IsAssigned spans opening
      (find opening.id (assign_speakers_by_overlap (opening ∷ reply ∷ []) spans))
assign_speakers-IsAssigned_example =
    assign_speakers-IsAssigned (opening ∷ reply ∷ []) spans opening segments-HasDistinctIds
      (inl refl)

abbrev overlay : Overlay
overlay = record {
  has_transcriber = true;
  group_id = [];
  max_bytes = 3;
  buffer = 9 ∷ [];
  active = false;
}

push_all-start_example :
    ((push_all ((1 ∷ 2 ∷ []) ∷ (3 ∷ 4 ∷ []) ∷ []) (start ann overlay)).buffer
      ≡ last_bytes overlay.max_bytes (concat ((1 ∷ 2 ∷ []) ∷ (3 ∷ 4 ∷ []) ∷ [])))
    × (length (push_all ((1 ∷ 2 ∷ []) ∷ (3 ∷ 4 ∷ []) ∷ []) (start ann overlay)).buffer
        ≤ overlay.max_bytes)
push_all-start_example = push_all-start ann ((1 ∷ 2 ∷ []) ∷ (3 ∷ 4 ∷ []) ∷ []) overlay
