-- ===== src/Runtime/Keeps.antt =====
-- src/sona/meeting/runtime_mode.py: each command, run from any state in which the microphone is guarded.
use voice_realtime.Prelude.{ℕ, Bool, true, not, ◌&&◌, Option, none, some}
use voice_realtime.Runtime.State.{
  meeting_not_active, RuntimeMode, assistant, subtitles, meeting, idle, owner_for_mode, Error,
  Result, Workloads, Runtime, pure, fail, cancel, call, call_now, attempt, next, unavailable,
  mode_conflict,
}
use voice_realtime.Runtime.Steps.{is_set, set_transition_barrier, commit_state, interaction_active}
use voice_realtime.Runtime.Restoring.{force_idle, quiesce_source}
use voice_realtime.Runtime.Transition.{switch_workload}
use voice_realtime.Runtime.Commands.{
  is_mode, is_other_meeting, source_for, prepare_assistant, switch_to_assistant,
  start_assistant_locked, commit_subtitles, switch_to_subtitles, is_other_selection,
  start_subtitles_locked, note_record, commit_meeting, switch_to_meeting, start_meeting_locked,
}
use voice_realtime.Runtime.Endings.{
  end_barrier, stop_and_commit, end_meeting_locked, end_any_meeting, stop_source, leave_source,
  leave_failed, source_active, stop_active_mode_locked,
}
use voice_realtime.Runtime.Rules.{
  handle-Post, branch-Post, weaken-Post, next-Post, IsGuarded, Sits-IsGuarded, call_now-Post,
}
use voice_realtime.Runtime.Recovery.{IsGuarded-Near}
use voice_realtime.Runtime.Ends.{stop_and_commit-Post}
use voice_realtime.Runtime.Leaves.{leave_cancelled-Post}
use voice_realtime.Runtime.Guarded.{
  Guards, switch-Guards, call-Guards, barrier-Guards, quiesce-Guards, commit-Guards,
  force_idle_state-Guards, force_idle-Guards,
}

module _ {W : Type 0} (env : Workloads W) where
  pub ignored-Guards :
      {A : Type 0} (p : Result A × Runtime W) → Guards p → Guards (next p (λ _. pure tt))
  ignored-Guards p g = next-Post p (λ _. pure tt) g (λ a t q. record { after = q })

  pub fails-Guards :
      {A : Type 0} (e : Error) (s : Runtime W) → IsGuarded s → Guards (fail {A = A} e s)
  fails-Guards e s g = record { after = g }

  -- `attempt` of a call whose exception is dropped
  pub quiet-Guards :
      (f : W → Result (Unit {0}) × W) (s : Runtime W)
      → IsGuarded s
      → Guards (attempt (call f) (λ x. pure tt) cancel s)
  quiet-Guards f s g =
      handle-Post (call f s) (λ x. pure tt) cancel (call-Guards env f s g)
        (λ e t q. record { after = q }) (λ t q. record { after = q })

  prepare_assistant-Guards : (s : Runtime W) → IsGuarded s → Guards (prepare_assistant env s)
  unfolding prepare_assistant
  prepare_assistant-Guards s g =
      handle-Post _ _ cancel
        (next-Post (call env.start_interaction s) _ (call-Guards env env.start_interaction s g)
          (λ a t q. record { after = q }))
        (λ e t q.
          next-Post {P = λ _. IsGuarded} _ (λ _. fail e)
            (branch-Post (interaction_active env t) _ _ (λ f. quiet-Guards env.stop_interaction t q)
              (λ f. record { after = q }))
            (λ a u r. record { after = r }))
        (λ t q. record { after = q })

  pub start_assistant-Guards : (s : Runtime W) → IsGuarded s → Guards (start_assistant_locked env s)
  unfolding start_assistant_locked switch_to_assistant
  start_assistant-Guards s g =
      branch-Post (is_mode s.mode meeting) _ _ (λ e. fails-Guards mode_conflict s g)
        λ e.
          branch-Post (is_mode s.mode assistant && interaction_active env s) _ _
            (λ f. record { after = g })
            λ f.
              ignored-Guards
                (switch_workload env assistant (source_for assistant s) (λ p. pure tt)
                  (prepare_assistant env) s)
                (switch-Guards env assistant (source_for assistant s) (λ p. pure tt)
                  (prepare_assistant env) s (λ p t q. record { after = q })
                  (prepare_assistant-Guards s g))

  pub start_subtitles-Guards :
      (capture : Option ℕ) (s : Runtime W)
      → IsGuarded s
      → Guards (start_subtitles_locked env capture s)
  unfolding start_subtitles_locked switch_to_subtitles commit_subtitles
  start_subtitles-Guards capture s g =
      branch-Post (is_mode s.mode meeting) _ _ (λ e. fails-Guards mode_conflict s g)
        λ e.
          branch-Post (not s.has_subtitles) _ _ (λ f. fails-Guards unavailable s g)
            λ f.
              branch-Post (is_mode s.mode subtitles && env.capture_active s.world) _ _
                (λ x.
                  branch-Post (is_other_selection env capture s) _ _
                    (λ y. fails-Guards mode_conflict s g) (λ y. record { after = g }))
                λ x.
                  ignored-Guards
                    (switch_workload env subtitles (source_for subtitles s) (commit_subtitles env)
                      (call (env.prepare_capture capture)) s)
                    (switch-Guards env subtitles (source_for subtitles s) (commit_subtitles env)
                      (call (env.prepare_capture capture)) s
                      (λ p t q. call-Guards env (env.commit_capture p) t q)
                      (call-Guards env (env.prepare_capture capture) s g))

  commit_meeting-Guards : (p : ℕ) (s : Runtime W) → IsGuarded s → Guards (commit_meeting env p s)
  unfolding commit_meeting note_record next IsGuarded
  commit_meeting-Guards p s g =
      next-Post (call_now (env.commit_start p) s) _
        (weaken-Post (call_now (env.commit_start p) s)
          (call_now-Post {P = IsGuarded} (env.commit_start p) s (λ w. g)) (λ a t q. q) (λ t q. q)
          (λ t q. absurd q))
        (λ r t q. record { after = q })

  pub start_meeting-Guards : (s : Runtime W) → IsGuarded s → Guards (start_meeting_locked env s)
  unfolding start_meeting_locked switch_to_meeting
  start_meeting-Guards s g =
      branch-Post (is_mode s.mode meeting) _ _ (λ e. fails-Guards mode_conflict s g)
        λ e.
          branch-Post (not s.has_meeting) _ _ (λ f. fails-Guards unavailable s g)
            λ f.
              switch-Guards env meeting s.mode (commit_meeting env) (call env.prepare_start) s
                commit_meeting-Guards (call-Guards env env.prepare_start s g)

  noted-IsGuarded :
      (b : Bool) (s : Runtime W) → IsGuarded s → IsGuarded (record s { rollback_result = some b })
  unfolding IsGuarded
  noted-IsGuarded b s g = g

  -- A commit of a state after which the coordinator is forced idle if the callback raises.
  settled-Guards :
      (m : RuntimeMode) (s : Runtime W)
      → IsGuarded s
      → Guards (attempt (commit_state env m (owner_for_mode m)) (λ x. force_idle env) cancel s)
  settled-Guards m s g =
      handle-Post (commit_state env m (owner_for_mode m) s) (λ x. force_idle env) cancel
        (commit-Guards env m s g) (λ e t q. force_idle-Guards env t q) (λ t q. record { after = q })

  end_barrier-Guards : (s : Runtime W) → IsGuarded s → Guards (end_barrier env s)
  unfolding end_barrier next owner_for_mode
  end_barrier-Guards s g =
      handle-Post (set_transition_barrier env s) _ cancel (barrier-Guards env s g)
        (λ e t q.
          next-Post {P = λ _. IsGuarded} _ (λ _. fail e)
            (settled-Guards meeting (record t { rollback_result = some true })
              (noted-IsGuarded true t q))
            (λ a u r. record { after = r }))
        (λ t q. record { after = q })

  pub end_meeting-Guards :
      (id : Option ℕ) (s : Runtime W) → IsGuarded s → Guards (end_meeting_locked env id s)
  unfolding end_meeting_locked
  end_meeting-Guards id s g =
      branch-Post (not (is_mode s.mode meeting && is_set s.active_meeting_id && s.has_meeting)) _ _
        (λ e. fails-Guards meeting_not_active s g)
        λ e.
          branch-Post (is_other_meeting id s.active_meeting_id) _ _
            (λ f. fails-Guards meeting_not_active s g)
            λ f.
              next-Post (end_barrier env s) (λ _. stop_and_commit env) (end_barrier-Guards s g)
                λ a t q.
                  weaken-Post (stop_and_commit env t)
                    (stop_and_commit-Post env t (IsGuarded-Near t q)) (λ r u x. Sits-IsGuarded u x)
                    (λ u x. Sits-IsGuarded u x) (λ u x. x)

  leave_source-Guards :
      (source : RuntimeMode) (s : Runtime W) → IsGuarded s → Guards (leave_source env source s)
  unfolding leave_source owner_for_mode
  leave_source-Guards source s g =
      next-Post (set_transition_barrier env s) _ (barrier-Guards env s g) λ a t q.
        next-Post (quiesce_source env source t) _ (quiesce-Guards env source t q)
          λ b u r. commit-Guards env idle u r

  leave_failed-Guards :
      (source : RuntimeMode) (e : Error) (s : Runtime W)
      → IsGuarded s
      → Guards (leave_failed env source e s)
  unfolding leave_failed next
  leave_failed-Guards source e s g =
      next-Post {P = λ _. IsGuarded} _ (λ _. fail e)
        (branch-Post (source_active env source s) _ _
          (λ f.
            settled-Guards source (record s { rollback_result = some true })
              (noted-IsGuarded true s g))
          (λ f. force_idle_state-Guards env s g))
        (λ a t q. record { after = q })

  pub stop_active-Guards : (s : Runtime W) → IsGuarded s → Guards (stop_active_mode_locked env s)
  unfolding stop_active_mode_locked end_any_meeting stop_source
  stop_active-Guards s g =
      branch-Post (is_mode s.mode idle) _ _ (λ e. record { after = g })
        λ e.
          branch-Post (is_mode s.mode meeting) _ _
            (λ f. ignored-Guards (end_meeting_locked env none s) (end_meeting-Guards none s g))
            λ f.
              handle-Post (leave_source env s.mode s) _ _ (leave_source-Guards s.mode s g)
                (λ x t q. leave_failed-Guards s.mode x t q)
                (λ t q.
                  weaken-Post _ (leave_cancelled-Post env s.mode t q) (λ a u r. absurd r)
                    (λ u r. absurd r) (λ u r. r))
