-- ===== src/Runtime/Restoring.antt =====
-- src/sona/meeting/runtime_mode.py: stopping all workloads, the forced idle state and
-- the restoring of a source.
use voice_realtime.Prelude.{Bool, true, false, ◌&&◌, ◌||◌, none, some}
use voice_realtime.Runtime.State.{
  RuntimeMode, assistant, subtitles, meeting, idle, owner_for_mode, unavailable, other_error,
  Workloads, Runtime, Method, pure, fail, cancel, call, attempt, ◌>>=◌, ◌>>◌, modify, choose,
}
use voice_realtime.Runtime.Steps.{
  abort_prepared_target_safely, commit_state, force_commit_idle, interaction_active, is_set,
  stop_interaction_if_active, suppress,
}

module _ {W : Type 0} (env : Workloads W) where
  unfoldable pub may_record : Runtime W → Bool
  may_record s = s.has_meeting && (is_set s.active_meeting_id || env.meeting_active s.world)

  -- `_stop_all_workloads`
  unfoldable pub stop_all_workloads : Method W (Unit {0})
  stop_all_workloads = do
    abort_prepared_target_safely env
    suppress (stop_interaction_if_active env)
    choose (λ s. s.has_subtitles) (suppress (call env.deactivate_capture)) (pure tt)
    choose may_record (suppress (call env.interrupt)) (pure tt)

  -- `_force_idle_state`
  unfoldable pub force_idle_state : Method W (Unit {0})
  force_idle_state = do
    modify (λ s. record s { rollback_result = some false })
    stop_all_workloads
    modify (λ s. record s { active_meeting_id = none })
    force_commit_idle env

  -- `_force_idle`
  unfoldable pub force_idle : {A : Type 0} → Method W A
  force_idle = do force_idle_state; fail unavailable

  -- `_quiesce_source`
  unfoldable pub quiesce_source : RuntimeMode → Method W (Unit {0})
  quiesce_source assistant = call env.stop_interaction
  quiesce_source subtitles =
      choose (λ s. s.has_subtitles) (call env.deactivate_capture) (fail (other_error 0))
  quiesce_source meeting = pure tt
  quiesce_source idle = pure tt

  unfoldable pub restart_capture : Method W (Unit {0})
  restart_capture = do p ← call (env.prepare_capture none); call (env.commit_capture p)

  -- `_restore_source`
  unfoldable pub restore_source : RuntimeMode → Method W (Unit {0})
  restore_source assistant = do
    choose (interaction_active env) (pure tt) (call env.start_interaction)
    choose (interaction_active env) (pure tt) (fail (other_error 1))
  restore_source subtitles =
      choose (λ s. s.has_subtitles)
        (do
          choose (λ s. env.capture_active s.world) (pure tt) restart_capture
          choose (λ s. env.capture_active s.world) (pure tt) (fail (other_error 2)))
        (fail (other_error 3))
  restore_source meeting = pure tt
  restore_source idle = pure tt

  -- The restored source, and its state committed again.
  unfoldable pub restore_and_commit : RuntimeMode → Method W (Unit {0})
  restore_and_commit source = do
    restore_source source
    modify (λ s. record s { rollback_result = some true })
    commit_state env source (owner_for_mode source)

  -- `_recover_source_or_force_idle`
  unfoldable pub recover_source_or_force_idle : RuntimeMode → Method W (Unit {0})
  recover_source_or_force_idle source = attempt (restore_and_commit source) (λ e. force_idle) cancel
