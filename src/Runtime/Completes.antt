-- ===== src/Runtime/Completes.antt =====
-- src/sona/meeting/runtime_mode.py: the commands that the mode allows, when no call of a
-- workload fails, and the ones that are refused.
use voice_realtime.Prelude.{
  ◌≡◌, refl, ap, ◌∙◌, ℕ, true, false, not, ◌&&◌, Option, none, some, arith, inl, inr, Bool-cases,
}
use voice_realtime.Runtime.State.{
  RuntimeMode, assistant, subtitles, meeting, idle, Result, ok, raise, cancelled, Workloads,
  MeetingRecord, Runtime, Method, pure, cancel, next, unavailable, success,
}
use voice_realtime.Runtime.Steps.{is_set, is_closing}
use voice_realtime.Runtime.Commands.{
  restart_assistant, is_mode, ending, begin, run_serialized, start_assistant_locked,
  start_assistant, is_other_selection, start_subtitles_locked, start_subtitles,
  start_meeting_locked, publish_committed, start_meeting, nothing_after,
}
use voice_realtime.Runtime.Endings.{
  end_meeting, stop_active_mode, end_meeting_locked, stop_active_mode_locked,
}
use voice_realtime.Runtime.Rules.{Post, branch-Post, next-Post}
use voice_realtime.Runtime.Starts.{and_left}
use voice_realtime.Runtime.Settled.{Lands, IsSettled}
use voice_realtime.Runtime.Serial.{
  target_of, Command, to_assistant, to_subtitles, to_meeting, to_end, to_stop, to_restart, perform,
}
use voice_realtime.Runtime.Works.{Works, Full, Runs, call-Runs, attempt-Runs}
use voice_realtime.Runtime.Serial.{perform_lem}
use voice_realtime.Runtime.Allowed.{
  end_meeting-Runs, is_allowed, lacking, second_false, right_false, start_assistant-Runs,
  start_meeting-Runs, start_subtitles-Runs, stop_active-Runs,
}

module _ {W : Type 0} (env : Workloads W) (works : Works env) where
  serialized-Runs :
      {A : Type 0} (target : RuntimeMode) (command : Method W A)
      (after_commit : A → Method W (Unit {0})) (s : Runtime W)
      → is_closing env s ≡ false
      → Runs (command (begin s))
      → ((a : A) (t : Runtime W) → Full t → Runs (after_commit a t))
      → Runs (run_serialized env target command after_commit s)
  unfolding run_serialized next ending
  serialized-Runs target command after_commit s e n k =
      branch-Post (is_closing env s) _ _ (λ f. absurd (cc (e, f)))
        λ f. next-Post {P = λ _. Full} _ _ (attempt-Runs _ _ _ n) (λ a t q.
          next-Post {P = λ _. Full} (after_commit a (ending target success t)) (λ _. pure a)
            (k a (ending target success t)
              (record { subtitles_is = q.subtitles_is; meeting_is = q.meeting_is }))
            (λ b u r. record { after = r }))

  begin-Full : (s : Runtime W) → Full s → Full (begin s)
  unfolding begin
  begin-Full s n = record { subtitles_is = n.subtitles_is; meeting_is = n.meeting_is }

  published-Runs :
      (r : ℕ × MeetingRecord) (s : Runtime W) → Full s → Runs (publish_committed env r s)
  unfolding publish_committed
  published-Runs (p, r) s n =
      attempt-Runs _ _ cancel
        (call-Runs (env.publish_started p) s n (tt, works.published p s.world))

  begun_selection :
      (capture : Option ℕ) (s : Runtime W)
      → is_other_selection env capture (begin s) ≡ is_other_selection env capture s
  unfolding is_other_selection begin
  begun_selection none s = refl
  begun_selection (some c) s = refl

  perform-Runs :
      (c : Command W) (s : Runtime W)
      → Full s
      → is_closing env s ≡ false
      → is_allowed env c s ≡ true
      → Runs (perform env c s)
  unfolding perform is_allowed start_assistant start_subtitles start_meeting end_meeting
      stop_active_mode begin
  perform-Runs to_assistant s n e a =
      serialized-Runs assistant (start_assistant_locked env) (nothing_after env) s e
        (start_assistant-Runs env works (begin s) (begin-Full s n) (ground arith))
        (λ x t q. record { after = q })
  perform-Runs (to_subtitles capture) s n e a =
      serialized-Runs subtitles (start_subtitles_locked env capture) (nothing_after env) s e
        (start_subtitles-Runs env works capture (begin s) (begin-Full s n) (ground arith) (
          ap (λ b. is_mode s.mode subtitles && env.capture_active s.world && b)
            (begun_selection capture s)
          ∙ second_false (is_mode s.mode meeting) _ a))
        (λ x t q. record { after = q })
  perform-Runs to_meeting s n e a =
      next-Post {P = λ _. Full} (start_meeting env s) (λ _. pure tt)
        (branch-Post (not s.has_meeting) _ _ (λ g. absurd (lacking s.has_meeting n.meeting_is g))
          λ g.
            next-Post {P = λ _. Full}
              (run_serialized env meeting (start_meeting_locked env) (publish_committed env) s) _
              (serialized-Runs meeting (start_meeting_locked env) (publish_committed env) s e
                (start_meeting-Runs env works (begin s) (begin-Full s n) (ground arith))
                published-Runs)
              (λ r t q. record { after = q }))
        (λ r t q. record { after = q })
  perform-Runs (to_end id) s n e a =
      next-Post {P = λ _. Full}
        (run_serialized env idle (end_meeting_locked env id) (nothing_after env) s) (λ _. pure tt)
        (serialized-Runs idle (end_meeting_locked env id) (nothing_after env) s e
          (end_meeting-Runs env works id (begin s) (begin-Full s n)
            (and_left (is_mode s.mode meeting && is_set s.active_meeting_id) _ a)
            (right_false (is_mode s.mode meeting && is_set s.active_meeting_id) _ a))
          (λ x t q. record { after = q }))
        (λ r t q. record { after = q })
  perform-Runs to_stop s n e a =
      serialized-Runs idle (stop_active_mode_locked env) (nothing_after env) s e
        (stop_active-Runs env works (begin s) (begin-Full s n) a) (λ x t q. record { after = q })
  perform-Runs (to_restart restart) s n e a = absurd cc

  both-Post :
      {A : Type 0} {Q : A → Runtime W → Type 0} {E C : Runtime W → Type 0}
      (p : Result A × Runtime W)
      → Post Q E C p
      → Runs p
      → Post Q (λ _. ⊥) (λ _. ⊥) p
  both-Post (ok a, s) h r = record { after = h.after }
  both-Post (raise e, s) h r = absurd r.after
  both-Post (cancelled, s) h r = absurd r.after

  -- When there are subtitles and meetings, no call of a workload or of the owner's callback raises or is
  -- cancelled and the coordinator is not closing, a command that the mode allows (not the restart of the
  -- assistant) returns from a settled coordinator, and leaves it settled in the command's mode.
  pub perform-Lands :
      (c : Command W) (s : Runtime W)
      → IsSettled s
      → Full s
      → is_closing env s ≡ false
      → is_allowed env c s ≡ true
      → Post (λ _. Lands (λ k. k ≡ target_of c)) (λ _. ⊥) (λ _. ⊥) (perform env c s)
  perform-Lands c s l n e a =
      both-Post (perform env c s) (perform_lem env c s l) (perform-Runs c s n e a)

module _ {W : Type 0} (env : Workloads W) where
  refused :
      {A : Type 0} (target : RuntimeMode) (command : Method W A)
      (after_commit : A → Method W (Unit {0})) (s : Runtime W)
      → is_closing env s ≡ true
      → run_serialized env target command after_commit s ≡ (raise unavailable, s)
  unfolding run_serialized
  refused target command after_commit s e = rw e refl

  refused_meeting :
      (s : Runtime W) → is_closing env s ≡ true → start_meeting env s ≡ (raise unavailable, s)
  unfolding start_meeting next
  refused_meeting s e = elim (Bool-cases (not s.has_meeting)) [
    | inl f ↦ rw f refl
    | inr f ↦ rw (f, refused meeting (start_meeting_locked env) (publish_committed env) s e) refl
  ]

  pub perform-closing :
      (c : Command W) (s : Runtime W)
      → is_closing env s ≡ true
      → perform env c s ≡ (raise unavailable, s)
  unfolding perform start_assistant start_subtitles start_meeting end_meeting stop_active_mode
      restart_assistant next
  perform-closing to_assistant s e =
      refused assistant (start_assistant_locked env) (nothing_after env) s e
  perform-closing (to_subtitles capture) s e =
      refused subtitles (start_subtitles_locked env capture) (nothing_after env) s e
  perform-closing to_meeting s e = ap (λ p. next p (λ _. pure tt)) (refused_meeting s e)
  perform-closing (to_end id) s e =
      ap (λ p. next p (λ _. pure tt))
        (refused idle (end_meeting_locked env id) (nothing_after env) s e)
  perform-closing to_stop s e = refused idle (stop_active_mode_locked env) (nothing_after env) s e
  perform-closing (to_restart restart) s e = refused assistant _ (nothing_after env) s e
