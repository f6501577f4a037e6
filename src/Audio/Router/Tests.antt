-- ===== src/Audio/Router/Tests.antt =====
-- Runs of src/sona/audio/router.py, and the theorem at a concrete router.
use voice_realtime.Prelude.{◌≡◌, refl, ℕ, true, false, List, [], ◌∷◌}
use voice_realtime.Audio.Frames.{offer}
use voice_realtime.Audio.Profile.{default_source, default_profile, same_kind, same_role}
use voice_realtime.Audio.Router.{
  Frame, Router, init, new_router, has_kind, has_duplicate_kind, note, reset, prepare_source,
  prepare_spec, first_spec, prepare, commit_source, commit, outcome, finish, abort, stop,
  pump_frame, pump_fails, Event, prepared_event, committed_event, frame_event, step, run,
  is_available, role_of, is_stopped, is_ready, prepare_mode, prepares, aborts,
}
use voice_realtime.Audio.Router.Life.{IsCoherent, run-init-IsCoherent}

program : Unit {0}
unfolding init new_router has_kind has_duplicate_kind note reset prepare_source prepare_spec
    first_spec prepare prepare_mode commit_source commit outcome finish abort stop pump_frame
    pump_fails step run is_available role_of is_stopped is_ready same_kind same_role offer
program = tt

abbrev frame : ℕ → ℕ → Frame ℕ
frame c x = record { capture_id = c; content = x }

abbrev started : List (Event ℕ)
started =
    prepared_event default_profile 5 true
    ∷ committed_event true
    ∷ frame_event (frame 5 1)
    ∷ frame_event (frame 4 2)
    ∷ frame_event (frame 5 3)
    ∷ []

abbrev router : Router ℕ
router = new_router (default_source ∷ []) 1

-- The frame of the old capture is passed over; the first of this one makes room.
routes : (run router started).backlog ≡ record { queue = frame 5 3 ∷ []; dropped = 1 }
unfolding program
routes = refl

fails_cleanly :
    (run router (prepared_event default_profile 5 false ∷ [])).calls
    ≡ prepares default_source.kind ∷ aborts default_source.kind ∷ []
unfolding program
fails_cleanly = refl

run-init-IsCoherent_example : IsCoherent (run router started)
unfolding program
run-init-IsCoherent_example = run-init-IsCoherent (default_source ∷ []) 1 router started refl
