-- ===== src/Runtime/Kept.antt =====
-- src/sona/meeting/runtime_mode.py: each command keeps the microphone guarded.
use voice_realtime.Prelude.{ℕ, not, ◌&&◌}
use voice_realtime.Runtime.State.{
  RuntimeMode, assistant, subtitles, meeting, idle, Result, Workloads, MeetingRecord, Runtime,
  Method, pure, fail, call, next, choose, unavailable, mode_conflict, success, failed,
}
use voice_realtime.Runtime.Steps.{is_closing}
use voice_realtime.Runtime.Commands.{
  restart_assistant, is_assistant_owner, is_mode, ending, begin, run_serialized,
  start_assistant_locked, start_assistant, start_subtitles_locked, start_subtitles,
  start_meeting_locked, publish_committed, start_meeting, nothing_after,
}
use voice_realtime.Runtime.Endings.{
  end_meeting, stop_active_mode, end_meeting_locked, stop_active_mode_locked,
}
use voice_realtime.Runtime.Rules.{handle-Post, branch-Post, weaken-Post, next-Post, IsGuarded}
use voice_realtime.Runtime.Serial.{
  Command, to_assistant, to_subtitles, to_meeting, to_end, to_stop, to_restart, perform,
  cancelled-Post, ending-IsGuarded,
}
use voice_realtime.Runtime.Guarded.{Guards, call-Guards}
use voice_realtime.Runtime.Keeps.{
  end_meeting-Guards, fails-Guards, ignored-Guards, quiet-Guards, start_assistant-Guards,
  start_meeting-Guards, start_subtitles-Guards, stop_active-Guards,
}

module _ {W : Type 0} (env : Workloads W) where
  serialized-Guards :
      {A : Type 0} (target : RuntimeMode) (command : Method W A)
      (after_commit : A → Method W (Unit {0})) (s : Runtime W)
      → ((t : Runtime W) → IsGuarded t → Guards (command t))
      → ((a : A) (t : Runtime W) → IsGuarded t → Guards (after_commit a t))
      → IsGuarded s
      → Guards (run_serialized env target command after_commit s)
  unfolding run_serialized next begin IsGuarded
  serialized-Guards target command after_commit s h k g =
      branch-Post (is_closing env s) _ _ (λ e. fails-Guards env unavailable s g)
        λ e.
          next-Post {P = λ _. IsGuarded} _ _
            (handle-Post (command (begin s)) _ _ (h (begin s) g)
              (λ x t q. record { after = ending-IsGuarded target failed t q })
              (λ t q.
                weaken-Post _ (cancelled-Post env target t q) (λ a u r. absurd r) (λ u r. absurd r)
                  (λ u r. r)))
            (λ a t q.
              next-Post (after_commit a (ending target success t)) (λ _. pure a)
                (k a (ending target success t) (ending-IsGuarded target success t q))
                (λ b u r. record { after = r }))

  published-Guards :
      (r : ℕ × MeetingRecord) (s : Runtime W) → IsGuarded s → Guards (publish_committed env r s)
  unfolding publish_committed
  published-Guards (p, r) s g = quiet-Guards env (env.publish_started p) s g

  meeting-Guards : (s : Runtime W) → IsGuarded s → Guards (start_meeting env s)
  unfolding start_meeting
  meeting-Guards s g =
      branch-Post (not s.has_meeting) _ _ (λ e. fails-Guards env unavailable s g)
        λ e.
          next-Post
            (run_serialized env meeting (start_meeting_locked env) (publish_committed env) s) _
            (serialized-Guards meeting (start_meeting_locked env) (publish_committed env) s
              (start_meeting-Guards env) published-Guards g)
            (λ a t q. record { after = q })

  restart-Guards :
      (restart : W → Result (Unit {0}) × W) (s : Runtime W)
      → IsGuarded s
      → Guards (
          choose
            (λ s. is_mode s.mode assistant && is_assistant_owner s.pcm_owner)
            (call restart)
            (fail mode_conflict)
            s)
  restart-Guards restart s g =
      branch-Post (is_mode s.mode assistant && is_assistant_owner s.pcm_owner) _ _
        (λ e. call-Guards env restart s g) (λ e. fails-Guards env mode_conflict s g)

  pub perform-Guards : (c : Command W) (s : Runtime W) → IsGuarded s → Guards (perform env c s)
  unfolding perform restart_assistant start_assistant start_subtitles end_meeting stop_active_mode
  perform-Guards to_assistant s g =
      serialized-Guards assistant (start_assistant_locked env) (nothing_after env) s
        (start_assistant-Guards env) (λ a t q. record { after = q }) g
  perform-Guards (to_subtitles capture) s g =
      serialized-Guards subtitles (start_subtitles_locked env capture) (nothing_after env) s
        (start_subtitles-Guards env capture) (λ a t q. record { after = q }) g
  perform-Guards to_meeting s g = ignored-Guards env (start_meeting env s) (meeting-Guards s g)
  perform-Guards (to_end id) s g =
      ignored-Guards env (run_serialized env idle (end_meeting_locked env id) (nothing_after env) s)
        (serialized-Guards idle (end_meeting_locked env id) (nothing_after env) s
          (end_meeting-Guards env id) (λ a t q. record { after = q }) g)
  perform-Guards to_stop s g =
      serialized-Guards idle (stop_active_mode_locked env) (nothing_after env) s
        (stop_active-Guards env) (λ a t q. record { after = q }) g
  perform-Guards (to_restart restart) s g =
      serialized-Guards assistant _ (nothing_after env) s (restart-Guards restart)
        (λ a t q. record { after = q }) g
