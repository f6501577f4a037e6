-- ===== src/Runtime/Commands.antt =====
-- src/sona/meeting/runtime_mode.py: the commands that start a workload, which run one at a time under
-- the command lock. A cancellation reaches a command as the outcome of a call that waits.
use voice_realtime.Prelude.{
  ℕ, Bool, true, false, not, ◌&&◌, Option, none, some, ◌==◌, if◌then◌else◌,
}
use voice_realtime.Meeting.Journal.{interrupted}
use voice_realtime.Runtime.State.{
  RuntimeMode, assistant, subtitles, meeting, idle, PcmOwner, no_owner, assistant_owner,
  mode_conflict, unavailable, Result, MeetingRecord, Workloads, Runtime, Method, pure, fail, cancel,
  call, call_now, attempt, ◌>>=◌, ◌>>◌, modify, choose, Ending, success, failed, was_cancelled,
}
use voice_realtime.Runtime.Steps.{interaction_active, is_closing, abort_prepared_target_safely}
use voice_realtime.Runtime.Transition.{switch_workload}

unfoldable pub is_mode : RuntimeMode → RuntimeMode → Bool
is_mode assistant assistant = true
is_mode subtitles subtitles = true
is_mode meeting meeting = true
is_mode idle idle = true
is_mode _ _ = false

unfoldable pub is_assistant_owner : PcmOwner → Bool
is_assistant_owner assistant_owner = true
is_assistant_owner _ = false

unfoldable pub is_no_owner : PcmOwner → Bool
is_no_owner no_owner = true
is_no_owner _ = false

unfoldable pub ending : {W : Type 0} → RuntimeMode → Ending → Runtime W → Runtime W
ending target e s = record s {
  last_transition =
      some (record { target = target; result = e; rollback_result = s.rollback_result });
}

unfoldable pub begin : {W : Type 0} → Runtime W → Runtime W
begin s = record s { rollback_result = none }

unfoldable pub note_record : {W : Type 0} → MeetingRecord → Runtime W → Runtime W
note_record r s = record s { meeting_record = some r; active_meeting_id = some r.id }

unfoldable pub interrupted_record : Option MeetingRecord → Option MeetingRecord
interrupted_record none = none
interrupted_record (some r) = some (record r { status = interrupted })

unfoldable pub after_stop : {W : Type 0} → MeetingRecord → Runtime W → Runtime W
after_stop r s = record s { active_meeting_id = none; meeting_record = some r }

unfoldable pub is_other_meeting : Option ℕ → Option ℕ → Bool
is_other_meeting (some a) (some b) = not (a == b)
is_other_meeting (some a) none = true
is_other_meeting none b = false

-- The source of a switch to `target`: a target that is the mode already counts as idle.
unfoldable pub source_for : {W : Type 0} → RuntimeMode → Runtime W → RuntimeMode
source_for target s = if is_mode s.mode target then idle else s.mode

module _ {W : Type 0} (env : Workloads W) where
  abbrev pub in_mode : RuntimeMode → Runtime W → Bool
  in_mode m s = is_mode s.mode m

  -- `_run_serialized`, with what runs after the commit.
  unfoldable pub run_serialized :
      {A : Type 0} → RuntimeMode → Method W A → (A → Method W (Unit {0})) → Method W A
  run_serialized target command after_commit = choose (is_closing env) (fail unavailable) (do
    modify begin
    result ←
        attempt command (λ e. do modify (ending target failed); fail e)
          (do abort_prepared_target_safely env; modify (ending target was_cancelled); cancel)
    modify (ending target success)
    after_commit result
    pure result)

  abbrev pub nothing_after : {A : Type 0} → A → Method W (Unit {0})
  nothing_after a = pure tt

  unfoldable pub prepare_assistant : Method W ℕ
  prepare_assistant =
      attempt (do call env.start_interaction; pure 0)
        (λ e. do
          choose (interaction_active env)
              (attempt (call env.stop_interaction) (λ x. pure tt) cancel) (pure tt)
          fail e)
        cancel

  unfoldable pub switch_to_assistant : Method W (Unit {0})
  switch_to_assistant s =
      (do
        switch_workload env assistant (source_for assistant s) (λ p. pure tt) prepare_assistant
        pure tt)
        s

  -- `_start_assistant_locked`
  unfoldable pub start_assistant_locked : Method W (Unit {0})
  start_assistant_locked =
      choose (in_mode meeting) (fail mode_conflict) (
        choose (λ s. in_mode assistant s && interaction_active env s) (pure tt) switch_to_assistant)

  unfoldable pub start_assistant : Method W (Unit {0})
  start_assistant = run_serialized assistant start_assistant_locked nothing_after

  unfoldable pub commit_subtitles : ℕ → Method W (Unit {0})
  commit_subtitles p = call (env.commit_capture p)

  unfoldable pub switch_to_subtitles : Option ℕ → Method W (Unit {0})
  switch_to_subtitles capture s =
      (do
        switch_workload env subtitles (source_for subtitles s) commit_subtitles
            (call (env.prepare_capture capture))
        pure tt)
        s

  unfoldable pub is_other_selection : Option ℕ → Runtime W → Bool
  is_other_selection none s = false
  is_other_selection (some c) s = not (env.is_selection c s.world)

  -- `_start_subtitles_locked`
  unfoldable pub start_subtitles_locked : Option ℕ → Method W (Unit {0})
  start_subtitles_locked capture = choose (in_mode meeting) (fail mode_conflict) (
      choose (λ s. not s.has_subtitles) (fail unavailable)
        (choose (λ s. in_mode subtitles s && env.capture_active s.world)
          (choose (is_other_selection capture) (fail mode_conflict) (pure tt))
          (switch_to_subtitles capture)))

  unfoldable pub start_subtitles : Option ℕ → Method W (Unit {0})
  start_subtitles capture = run_serialized subtitles (start_subtitles_locked capture) nothing_after

  unfoldable pub commit_meeting : ℕ → Method W MeetingRecord
  commit_meeting p = do r ← call_now (env.commit_start p); modify (note_record r); pure r

  unfoldable pub switch_to_meeting : Method W (ℕ × MeetingRecord)
  switch_to_meeting s = switch_workload env meeting s.mode commit_meeting (call env.prepare_start) s

  -- `_start_meeting_locked`
  unfoldable pub start_meeting_locked : Method W (ℕ × MeetingRecord)
  start_meeting_locked =
      choose (in_mode meeting) (fail mode_conflict)
        (choose (λ s. not s.has_meeting) (fail unavailable) switch_to_meeting)

  -- `_publish_committed_meeting_started`: an exception is logged, a cancellation is raised once the
  -- event is published.
  unfoldable pub publish_committed : ℕ × MeetingRecord → Method W (Unit {0})
  publish_committed (p, r) = attempt (call (env.publish_started p)) (λ e. pure tt) cancel

  unfoldable pub start_meeting : Method W MeetingRecord
  start_meeting =
      choose (λ s. not s.has_meeting) (fail unavailable)
        (do result ← run_serialized meeting start_meeting_locked publish_committed; pure result.1)

  -- `restart_assistant`; `restart` is the caller's.
  unfoldable pub restart_assistant : (W → Result (Unit {0}) × W) → Method W (Unit {0})
  restart_assistant restart =
      run_serialized assistant
        (choose (λ s. in_mode assistant s && is_assistant_owner s.pcm_owner) (call restart)
          (fail mode_conflict))
        nothing_after
