-- ===== src/Runtime/Allowed.antt =====
-- src/sona/meeting/runtime_mode.py: the commands that the mode allows, under their lock, when no call of
-- a workload fails.
use voice_realtime.Prelude.{◌||◌, ◌≡◌, refl, ℕ, Bool, true, false, not, ◌&&◌, Option, none, arith}
use voice_realtime.Runtime.State.{
  assistant, subtitles, meeting, idle, no_owner, Workloads, Runtime, pure, cancel, call, call_now,
  next,
}
use voice_realtime.Runtime.Steps.{is_set, set_transition_barrier, interaction_active}
use voice_realtime.Runtime.Restoring.{quiesce_source}
use voice_realtime.Runtime.Transition.{switch_workload}
use voice_realtime.Runtime.Commands.{
  is_mode, after_stop, is_other_meeting, source_for, prepare_assistant, switch_to_assistant,
  start_assistant_locked, commit_subtitles, switch_to_subtitles, is_other_selection,
  start_subtitles_locked, note_record, commit_meeting, switch_to_meeting, start_meeting_locked,
}
use voice_realtime.Runtime.Endings.{
  end_barrier, stop_and_commit, end_meeting_locked, end_any_meeting, stop_source, leave_source,
  stop_active_mode_locked,
}
use voice_realtime.Runtime.Rules.{branch-Post, next-Post}
use voice_realtime.Runtime.Serial.{
  Command, to_assistant, to_subtitles, to_meeting, to_end, to_stop, to_restart,
}
use voice_realtime.Runtime.Works.{
  Works, Full, Runs, call-Runs, call_now-Runs, attempt-Runs, barrier-Runs, commit-Runs,
  quiesce-Runs, switch-Runs,
}

pub second_false : (a b : Bool) → (not a && not b) ≡ true → b ≡ false
second_false a b h = ground arith

pub right_false : (a b : Bool) → (a && not b) ≡ true → b ≡ false
right_false a b h = ground arith

pub lacking : (b : Bool) → b ≡ true → not b ≡ true → ⊥
lacking b x y = ground arith

-- Whether the mode allows a command.
unfoldable pub is_allowed : {W : Type 0} → Workloads W → Command W → Runtime W → Bool
is_allowed env to_assistant s = not (is_mode s.mode meeting)
is_allowed env (to_subtitles capture) s =
    not (is_mode s.mode meeting)
    && not
        (is_mode s.mode subtitles && env.capture_active s.world && is_other_selection env capture s)
is_allowed env to_meeting s = not (is_mode s.mode meeting)
is_allowed env (to_end id) s =
    is_mode s.mode meeting
    && is_set s.active_meeting_id
    && not (is_other_meeting id s.active_meeting_id)
is_allowed env to_stop s = not (is_mode s.mode meeting) || is_set s.active_meeting_id
is_allowed env (to_restart restart) s = false

module _ {W : Type 0} (env : Workloads W) (works : Works env) where
  pub start_assistant-Runs :
      (s : Runtime W)
      → Full s
      → is_mode s.mode meeting ≡ false
      → Runs (start_assistant_locked env s)
  unfolding start_assistant_locked switch_to_assistant prepare_assistant
  start_assistant-Runs s n e =
      branch-Post (is_mode s.mode meeting) _ _ (λ f. absurd (cc (e, f)))
        λ f.
          branch-Post (is_mode s.mode assistant && interaction_active env s) _ _
            (λ g. record { after = n })
            λ g.
              next-Post {P = λ _. Full}
                (switch_workload env assistant (source_for assistant s) (λ p. pure tt)
                  (prepare_assistant env) s)
                (λ _. pure tt)
                (switch-Runs env works assistant (source_for assistant s) (λ p. pure tt)
                  (λ p t q. record { after = q }) (prepare_assistant env) s
                  (attempt-Runs _ _ cancel (
                    next-Post {P = λ _. Full} (call env.start_interaction s) _
                      (call-Runs env.start_interaction s n (tt, works.started s.world))
                      (λ a t q. record { after = q }))))
                (λ a t q. record { after = q })

  pub start_subtitles-Runs :
      (capture : Option ℕ) (s : Runtime W)
      → Full s
      → is_mode s.mode meeting ≡ false
      → (is_mode s.mode subtitles && env.capture_active s.world && is_other_selection env capture s)
        ≡ false
      → Runs (start_subtitles_locked env capture s)
  unfolding start_subtitles_locked switch_to_subtitles commit_subtitles
  start_subtitles-Runs capture s n e o =
      branch-Post (is_mode s.mode meeting) _ _ (λ f. absurd (cc (e, f)))
        λ f.
          branch-Post (not s.has_subtitles) _ _
            (λ g. absurd (present s.has_subtitles n.subtitles_is g))
            λ g.
              branch-Post (is_mode s.mode subtitles && env.capture_active s.world) _ _
                (λ x.
                  branch-Post (is_other_selection env capture s) _ _
                    (λ y. absurd (
                      other (is_mode s.mode subtitles) (env.capture_active s.world)
                        (is_other_selection env capture s) x y o))
                    (λ y. record { after = n }))
                λ x.
                  next-Post {P = λ _. Full}
                    (switch_workload env subtitles (source_for subtitles s) (commit_subtitles env)
                      (call (env.prepare_capture capture)) s)
                    (λ _. pure tt)
                    (switch-Runs env works subtitles (source_for subtitles s) (commit_subtitles env)
                      (λ p t q.
                        call-Runs (env.commit_capture p) t q (tt, works.committed p t.world))
                      (call (env.prepare_capture capture)) s
                      (call-Runs (env.prepare_capture capture) s n
                        (works.prepared capture s.world)))
                    (λ a t q. record { after = q })
    where
      present : (b : Bool) → b ≡ true → not b ≡ true → ⊥
      present b x y = ground arith

      other : (a b c : Bool) → (a && b) ≡ true → c ≡ true → (a && b && c) ≡ false → ⊥
      other a b c x y z = ground arith

  commit_meeting-Runs : (p : ℕ) (s : Runtime W) → Full s → Runs (commit_meeting env p s)
  unfolding commit_meeting note_record next
  commit_meeting-Runs p s n =
      next-Post {P = λ _. Full} (call_now (env.commit_start p) s) _
        (call_now-Runs (env.commit_start p) s n (works.committed_start p s.world))
        (λ r t q. record {
          after = record { subtitles_is = q.subtitles_is; meeting_is = q.meeting_is };
        })

  pub start_meeting-Runs :
      (s : Runtime W) → Full s → is_mode s.mode meeting ≡ false → Runs (start_meeting_locked env s)
  unfolding start_meeting_locked switch_to_meeting
  start_meeting-Runs s n e =
      branch-Post (is_mode s.mode meeting) _ _ (λ f. absurd (cc (e, f)))
        λ f.
          branch-Post (not s.has_meeting) _ _ (λ g. absurd (ground arith))
            λ g.
              switch-Runs env works meeting s.mode (commit_meeting env) commit_meeting-Runs
                (call env.prepare_start) s
                (call-Runs env.prepare_start s n (works.prepared_start s.world))

  stop_and_commit-Runs : (s : Runtime W) → Full s → Runs (stop_and_commit env s)
  unfolding stop_and_commit next after_stop
  stop_and_commit-Runs s n =
      next-Post {P = λ _. Full} _ _
        (attempt-Runs _ _ _ (call-Runs env.stop_meeting s n (works.stopped_meeting s.world)))
        (λ r t q.
          next-Post {P = λ _. Full} _ (λ _. pure r)
            (attempt-Runs _ _ _ (
              commit-Runs env works idle no_owner (after_stop r t)
                (record { subtitles_is = q.subtitles_is; meeting_is = q.meeting_is })))
            (λ a u x. record { after = x }))

  pub end_meeting-Runs :
      (id : Option ℕ) (s : Runtime W)
      → Full s
      → (is_mode s.mode meeting && is_set s.active_meeting_id) ≡ true
      → is_other_meeting id s.active_meeting_id ≡ false
      → Runs (end_meeting_locked env id s)
  unfolding end_meeting_locked end_barrier
  end_meeting-Runs id s n e o =
      branch-Post (not (is_mode s.mode meeting && is_set s.active_meeting_id && s.has_meeting)) _ _
        (λ f. absurd (
          active (is_mode s.mode meeting) (is_set s.active_meeting_id) s.has_meeting e n.meeting_is
            f))
        λ f.
          branch-Post (is_other_meeting id s.active_meeting_id) _ _ (λ g. absurd (cc (o, g)))
            λ g.
              next-Post {P = λ _. Full} (end_barrier env s) (λ _. stop_and_commit env)
                (attempt-Runs _ _ cancel (barrier-Runs env works s n))
                (λ a t q. stop_and_commit-Runs t q)
    where
      active : (a b c : Bool) → (a && b) ≡ true → c ≡ true → not (a && b && c) ≡ true → ⊥
      active a b c x y z = ground arith

  pub stop_active-Runs :
      (s : Runtime W)
      → Full s
      → (not (is_mode s.mode meeting) || is_set s.active_meeting_id) ≡ true
      → Runs (stop_active_mode_locked env s)
  unfolding stop_active_mode_locked end_any_meeting stop_source leave_source is_other_meeting
  stop_active-Runs s n e =
      branch-Post (is_mode s.mode idle) _ _ (λ f. record { after = n })
        λ f.
          branch-Post (is_mode s.mode meeting) _ _
            (λ g.
              next-Post {P = λ _. Full} (end_meeting_locked env none s) (λ _. pure tt)
                (end_meeting-Runs none s n
                  (both (is_mode s.mode meeting) (is_set s.active_meeting_id) g e) refl)
                (λ a t q. record { after = q }))
            λ g. attempt-Runs _ _ _ (
              next-Post {P = λ _. Full} (set_transition_barrier env s) _
                (barrier-Runs env works s n)
                λ a t q.
                  next-Post {P = λ _. Full} (quiesce_source env s.mode t) _
                    (quiesce-Runs env works s.mode t q)
                    λ b u r. commit-Runs env works idle no_owner u r)
    where
      both : (a b : Bool) → a ≡ true → (not a || b) ≡ true → (a && b) ≡ true
      both a b x y = ground arith
