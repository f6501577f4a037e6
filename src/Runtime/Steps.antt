-- ===== src/Runtime/Steps.antt =====
-- src/sona/meeting/runtime_mode.py: the private methods of the coordinator, from the barrier and the
-- commit of a state to the abort of what is prepared.
use voice_realtime.Prelude.{ℕ, ◌+◌, Bool, true, false, ◌||◌, Option, none, some, if◌then◌else◌}
use voice_realtime.Runtime.State.{
  RuntimeMode, assistant, subtitles, meeting, idle, PcmOwner, no_owner, Error, Workloads, Prepared,
  Runtime, Method, pure, fail, cancel, call, call_now, attempt, ◌>>◌, modify, choose,
}

abbrev pub some_or : {A : Type 0} → Option A → Option A → Option A
some_or none b = b
some_or (some a) b = some a

unfoldable pub committed_of : Option Prepared → Bool
committed_of none = false
committed_of (some q) = q.committed

unfoldable pub is_set : Option ℕ → Bool
is_set none = false
is_set (some n) = true

-- The state of the mode and its owner, which `_commit_state` puts back if the callback raises.
unfoldable pub put_owner : {W : Type 0} → RuntimeMode → PcmOwner → Runtime W → Runtime W
put_owner m o s = record s { mode = m; pcm_owner = o }

unfoldable pub prepared_is : {W : Type 0} → RuntimeMode → ℕ → Bool → Runtime W → Runtime W
prepared_is target p committed s = record s {
  prepared_target = some (record { target = target; preparation = p; committed = committed });
}

unfoldable pub is_idle : RuntimeMode → Bool
is_idle idle = true
is_idle assistant = false
is_idle subtitles = false
is_idle meeting = false

-- `with contextlib.suppress(Exception)`
unfoldable pub suppress : {W : Type 0} → Method W (Unit {0}) → Method W (Unit {0})
suppress m = attempt m (λ e. pure tt) cancel

module _ {W : Type 0} (env : Workloads W) where
  unfoldable pub interaction_active : Runtime W → Bool
  interaction_active s = env.interaction_active s.world

  unfoldable pub is_closing : Runtime W → Bool
  is_closing s = s.closing || env.stop_requested s.world

  abbrev pub owner_callback : PcmOwner → Method W (Unit {0})
  owner_callback o = call_now (env.owner_changed o)

  -- `_restore_owner_callback`, and each callback of which the exception is only logged
  unfoldable pub owner_callback_safely : PcmOwner → Method W (Unit {0})
  owner_callback_safely o = attempt (owner_callback o) (λ e. pure tt) cancel

  -- `_set_transition_barrier`
  unfoldable pub set_transition_barrier : Method W (Unit {0})
  set_transition_barrier s =
      attempt (owner_callback no_owner)
        (λ e. do modify (put_owner s.mode s.pcm_owner); owner_callback_safely s.pcm_owner; fail e)
        cancel (put_owner s.mode no_owner s)

  -- `_commit_state`; publishing the state raises nothing.
  unfoldable pub commit_state : RuntimeMode → PcmOwner → Method W (Unit {0})
  commit_state m o s =
      attempt (do owner_callback o; modify (λ t. record t { revision = t.revision + 1 }))
        (λ e. do modify (put_owner s.mode s.pcm_owner); owner_callback_safely s.pcm_owner; fail e)
        cancel (put_owner m o s)

  -- `_force_commit_idle`
  unfoldable pub force_commit_idle : Method W (Unit {0})
  force_commit_idle = do
    modify (put_owner idle no_owner)
    owner_callback_safely no_owner
    modify (λ t. record t { revision = t.revision + 1 })

  unfoldable pub stop_interaction_if_active : Method W (Unit {0})
  stop_interaction_if_active = choose interaction_active (call env.stop_interaction) (pure tt)

  unfoldable pub forget_meeting : Runtime W → Runtime W
  forget_meeting s = record s {
    active_meeting_id = none;
    meeting_record = some_or (env.meeting_record s.world) s.meeting_record;
  }

  -- `_deactivate_target`
  unfoldable pub deactivate_target : RuntimeMode → Method W (Unit {0})
  deactivate_target assistant = stop_interaction_if_active
  deactivate_target subtitles =
      choose (λ s. s.has_subtitles) (call env.deactivate_capture) (pure tt)
  deactivate_target meeting =
      choose (λ s. s.has_meeting) (do call env.interrupt; modify forget_meeting) (pure tt)
  deactivate_target idle = pure tt

  -- The `abort` of each target.
  unfoldable pub abort_preparation : RuntimeMode → ℕ → Method W (Unit {0})
  abort_preparation assistant p = stop_interaction_if_active
  abort_preparation subtitles p = call (env.abort_capture p)
  abort_preparation meeting p = call (env.abort_start p)
  abort_preparation idle p = pure tt

  -- The same in `_abort_prepared_target_safely`, where the workload may be missing.
  unfoldable pub abort_preparation_safely : RuntimeMode → ℕ → Method W (Unit {0})
  abort_preparation_safely assistant p = stop_interaction_if_active
  abort_preparation_safely subtitles p =
      choose (λ s. s.has_subtitles) (call (env.abort_capture p)) (pure tt)
  abort_preparation_safely meeting p =
      choose (λ s. s.has_meeting) (call (env.abort_start p)) (pure tt)
  abort_preparation_safely idle p = pure tt

  unfoldable pub abort_prepared : Prepared → Method W (Unit {0})
  abort_prepared p =
      if p.committed
      then deactivate_target p.target
      else abort_preparation_safely p.target p.preparation

  -- `_abort_target`: the exception that it returns, if there is one. `target_committed` of the
  -- source is the flag of the prepared target, with which it is set.
  unfoldable pub abort_target : RuntimeMode → ℕ → Method W (Option Error)
  abort_target target p s =
      attempt
        (do
          (if committed_of s.prepared_target
              then deactivate_target target
              else abort_preparation target p)
          modify (λ t. record t { prepared_target = none })
          pure none)
        (λ e. pure (some e)) cancel s

  unfoldable pub abort_when_prepared : Option Prepared → Method W (Unit {0})
  abort_when_prepared none = pure tt
  abort_when_prepared (some p) =
      attempt (do abort_prepared p; modify (λ t. record t { prepared_target = none }))
        (λ e. pure tt) cancel

  -- `_abort_prepared_target_safely`
  unfoldable pub abort_prepared_target_safely : Method W (Unit {0})
  abort_prepared_target_safely s = abort_when_prepared s.prepared_target s
