-- ===== src/Runtime/Endings.antt =====
-- src/sona/meeting/runtime_mode.py: the commands that end a workload, and `stop`.
use voice_realtime.Prelude.{ℕ, Bool, true, false, not, ◌&&◌, Option, none, some, ltb}
use voice_realtime.Runtime.State.{
  RuntimeMode, assistant, subtitles, meeting, idle, no_owner, meeting_owner, owner_for_mode, Error,
  Result, meeting_not_active, other_error, MeetingRecord, Workloads, Runtime, Method, pure, fail,
  cancel, call, attempt, ◌>>=◌, ◌>>◌, modify, choose,
}
use voice_realtime.Runtime.Steps.{
  some_or, is_set, interaction_active, is_closing, set_transition_barrier, commit_state,
  force_commit_idle,
}
use voice_realtime.Runtime.Restoring.{
  force_idle_state, force_idle, quiesce_source, restore_and_commit, stop_all_workloads,
}
use voice_realtime.Runtime.Commands.{
  after_stop, in_mode, interrupted_record, is_no_owner, is_other_meeting, nothing_after,
  run_serialized,
}

-- How the command in flight ends when `_stop_once` has cancelled it: `quiet` is no command, or one
-- that returns or is cancelled. What it does until then has been done to the state.
pub data Ending : Type 0 where
  quiet : Ending
  raised : Error → Ending

module _ {W : Type 0} (env : Workloads W) where
  unfoldable pub after_failed_stop : Runtime W → Runtime W
  after_failed_stop s = record s {
    active_meeting_id = none;
    meeting_record = some_or (env.meeting_record s.world) (interrupted_record s.meeting_record);
  }

  -- The `except BaseException` of `_end_meeting_locked`, before it raises again.
  unfoldable pub on_failed_stop : Method W (Unit {0})
  on_failed_stop = do
    modify after_failed_stop
    attempt (commit_state env idle no_owner) (λ x. force_idle_state env) cancel

  unfoldable pub stop_and_commit : Method W MeetingRecord
  stop_and_commit = do
    r ← attempt (call env.stop_meeting) (λ e. do on_failed_stop; fail e) (do on_failed_stop; cancel)
    modify (after_stop r)
    attempt (commit_state env idle no_owner) (λ x. force_idle env) cancel
    pure r

  unfoldable pub end_barrier : Method W (Unit {0})
  end_barrier =
      attempt (set_transition_barrier env)
        (λ e. do
          modify (λ s. record s { rollback_result = some true })
          attempt (commit_state env meeting meeting_owner) (λ x. force_idle env) cancel
          fail e)
        cancel

  -- `_end_meeting_locked`
  unfoldable pub end_meeting_locked : Option ℕ → Method W MeetingRecord
  end_meeting_locked id =
      choose (λ s. not (in_mode env meeting s && is_set s.active_meeting_id && s.has_meeting))
        (fail meeting_not_active)
        (choose (λ s. is_other_meeting id s.active_meeting_id) (fail meeting_not_active)
          (do end_barrier; stop_and_commit))

  unfoldable pub end_meeting : Option ℕ → Method W MeetingRecord
  end_meeting id = run_serialized env idle (end_meeting_locked id) (nothing_after env)

  -- `configure_meeting`, of workloads that are there from the start here.
  unfoldable pub configure_meeting : Method W (Unit {0})
  configure_meeting =
      choose (λ s. s.has_meeting) (fail (other_error 4))
        (modify (λ s. record s { has_meeting = true }))

  -- `_source_active`
  unfoldable pub source_active : RuntimeMode → Runtime W → Bool
  source_active assistant s = interaction_active env s
  source_active subtitles s = s.has_subtitles && env.capture_active s.world
  source_active meeting s = is_set s.active_meeting_id
  source_active idle s = false

  module _ (source : RuntimeMode) where
    unfoldable pub leave_source : Method W (Unit {0})
    leave_source = do
      set_transition_barrier env
      quiesce_source env source
      commit_state env idle no_owner

    unfoldable pub leave_failed : Error → Method W (Unit {0})
    leave_failed e = do
      choose (source_active source)
          (do
            modify (λ s. record s { rollback_result = some true })
            attempt (commit_state env source (owner_for_mode source)) (λ x. force_idle env) cancel)
          (force_idle_state env)
      fail e

    unfoldable pub leave_cancelled : Method W (Unit {0})
    leave_cancelled =
        choose (is_closing env) cancel
          (do attempt (restore_and_commit env source) (λ x. force_idle_state env) cancel; cancel)

  unfoldable pub stop_source : Method W (Unit {0})
  stop_source s = attempt (leave_source s.mode) (leave_failed s.mode) (leave_cancelled s.mode) s

  unfoldable pub end_any_meeting : Method W (Unit {0})
  end_any_meeting = do end_meeting_locked none; pure tt

  -- `_stop_active_mode_locked`
  unfoldable pub stop_active_mode_locked : Method W (Unit {0})
  stop_active_mode_locked =
      choose (in_mode env idle) (pure tt) (choose (in_mode env meeting) end_any_meeting stop_source)

  unfoldable pub stop_active_mode : Method W (Unit {0})
  stop_active_mode = run_serialized env idle stop_active_mode_locked (nothing_after env)

  -- `_stop_once`, when the revision was `before` at the call of `stop`.
  unfoldable pub already_committed : ℕ → Runtime W → Bool
  already_committed before s =
      in_mode env idle s && is_no_owner s.pcm_owner && ltb before s.revision

  unfoldable pub await_transition : Ending → Method W (Unit {0})
  await_transition quiet = pure tt
  await_transition (raised e) = fail e

  unfoldable pub stop_once : Ending → ℕ → Method W (Unit {0})
  stop_once ending before = do
    modify (λ s. record s { closing = true })
    await_transition ending
    stop_all_workloads env
    modify (λ s. record s { active_meeting_id = none })
    choose (already_committed before) (pure tt) (force_commit_idle env)
    modify (λ s. record s { stopped = true })

  unfoldable pub keep_shutdown : Result (Unit {0}) × Runtime W → Result (Unit {0}) × Runtime W
  keep_shutdown (r, s) = (r, record s { shutdown = some r })

  unfoldable pub shut_down : Ending → ℕ → Option (Result (Unit {0})) → Method W (Unit {0})
  shut_down ending before (some r) s = (r, s)
  shut_down ending before none s = keep_shutdown (stop_once ending before s)

  -- `stop`: the shutdown is one task, which every call shares, here run to its end by the first one.
  unfoldable pub stop : Ending → ℕ → Method W (Unit {0})
  stop ending before = choose (λ s. s.stopped) (pure tt) (λ s. shut_down ending before s.shutdown s)
