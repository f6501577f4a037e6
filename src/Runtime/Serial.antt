-- ===== src/Runtime/Serial.antt =====
-- src/sona/meeting/runtime_mode.py, `_run_serialized`: the commands, of which `to_meeting` is
-- `start_meeting` and so on, from a settled coordinator.
use voice_realtime.Prelude.{◌≡◌, refl, ℕ, not, ◌&&◌, Option, inl}
use voice_realtime.Runtime.State.{
  RuntimeMode, assistant, subtitles, meeting, idle, Result, ok, raise, cancelled, Workloads,
  MeetingRecord, Runtime, Method, pure, fail, cancel, call, next, ◌>>◌, choose, modify, unavailable,
  mode_conflict, Ending, success, failed, was_cancelled,
}
use voice_realtime.Runtime.Steps.{is_closing, abort_prepared_target_safely}
use voice_realtime.Runtime.Commands.{
  restart_assistant, is_assistant_owner, is_mode, ending, begin, run_serialized,
  start_assistant_locked, start_assistant, start_subtitles_locked, start_subtitles,
  start_meeting_locked, publish_committed, start_meeting, nothing_after,
}
use voice_realtime.Runtime.Endings.{
  end_meeting, stop_active_mode, end_meeting_locked, stop_active_mode_locked,
}
use voice_realtime.Runtime.Rules.{
  Post, handle-Post, branch-Post, weaken-Post, next-Post, IsGuarded, Near-IsGuarded,
}
use voice_realtime.Runtime.Starts.{Reached, is_mode-≡, fail-Reached, and_left, forget_result}
use voice_realtime.Runtime.Recovery.{IsGuarded-Near, abort_safely-Any}
use voice_realtime.Runtime.Settled.{Lands, IsSettled, Back, Lands-map, Lands-IsGuarded}
use voice_realtime.Runtime.Starts.{
  start_assistant-Reached, start_subtitles-Reached, start_meeting-Reached,
}
use voice_realtime.Runtime.Ends.{end_meeting-Reached}
use voice_realtime.Runtime.Leaves.{stop_active-Reached}

pub data Command (W : Type 0) : Type 0 where
  to_assistant : Command W
  to_subtitles : Option ℕ → Command W
  to_meeting : Command W
  to_end : Option ℕ → Command W
  to_stop : Command W
  to_restart : (W → Result (Unit {0}) × W) → Command W

unfoldable pub perform : {W : Type 0} → Workloads W → Command W → Method W (Unit {0})
perform env to_assistant = start_assistant env
perform env (to_subtitles capture) = start_subtitles env capture
perform env to_meeting = do start_meeting env; pure tt
perform env (to_end id) = do end_meeting env id; pure tt
perform env to_stop = stop_active_mode env
perform env (to_restart restart) = restart_assistant env restart

-- The mode in which a command leaves the coordinator.
unfoldable pub target_of : {W : Type 0} → Command W → RuntimeMode
target_of to_assistant = assistant
target_of (to_subtitles capture) = subtitles
target_of to_meeting = meeting
target_of (to_end id) = idle
target_of to_stop = idle
target_of (to_restart restart) = assistant

module _ {W : Type 0} {P : RuntimeMode → Type 0} where
  ending-Lands :
      (target : RuntimeMode) (e : Ending) (s : Runtime W) → Lands P s → Lands P (ending target e s)
  unfolding ending
  ending-Lands target e s l = record {
    owner_is = l.owner_is;
    active_is = l.active_is;
    landed = l.landed;
  }

  begin-Lands : (s : Runtime W) → Lands P s → Lands P (begin s)
  unfolding begin
  begin-Lands s l = record { owner_is = l.owner_is; active_is = l.active_is; landed = l.landed }

pub ending-IsGuarded :
    {W : Type 0} (target : RuntimeMode) (e : Ending) (s : Runtime W)
    → IsGuarded s
    → IsGuarded (ending target e s)
unfolding IsGuarded ending
ending-IsGuarded target e s g = g

module _ {W : Type 0} (env : Workloads W) where
  -- What is done when a command is cancelled.
  pub cancelled-Post :
      {A : Type 0} (target : RuntimeMode) (s : Runtime W)
      → IsGuarded s
      → Post {A = A}
          (λ _ _. ⊥)
          (λ _. ⊥)
          IsGuarded
          ((do abort_prepared_target_safely env; modify (ending target was_cancelled); cancel) s)
  unfolding next
  cancelled-Post target s g =
      next-Post (abort_prepared_target_safely env s) _ (abort_safely-Any env s (IsGuarded-Near s g))
        (λ a t q. record { after = ending-IsGuarded target was_cancelled t (Near-IsGuarded t q) })

  serialized-Reached :
      {A : Type 0} (target : RuntimeMode) (command : Method W A)
      (after_commit : A → Method W (Unit {0})) (s : Runtime W)
      → IsSettled s
      → ((t : Runtime W) → IsSettled t → Reached t.mode target (command t))
      → ((a : A) (t : Runtime W)
          → Lands (λ k. k ≡ target) t
          → Post (λ _. Lands (λ k. k ≡ target)) (λ _. ⊥) IsGuarded (after_commit a t))
      → Reached s.mode target (run_serialized env target command after_commit s)
  unfolding run_serialized next begin
  serialized-Reached {A} target command after_commit s l h k =
      branch-Post (is_closing env s) _ _ (λ e. fail-Reached target unavailable s l)
        λ e.
          next-Post {P = λ _. Lands (λ k. k ≡ target)} _ _
            (handle-Post (command (begin s)) _ _ (h (begin s) (begin-Lands s l))
              (λ x t q. record { after = ending-Lands target failed t q })
              (λ t q.
                weaken-Post _ (cancelled-Post target t q) (λ a u r. absurd r) (λ u r. absurd r)
                  (λ u r. r)))
            (λ a t q.
              next-Post (after_commit a (ending target success t)) (λ _. pure a)
                (weaken-Post (after_commit a (ending target success t))
                  (k a (ending target success t) (ending-Lands target success t q)) (λ b u r. r)
                  (λ u r. absurd r) (λ u r. r))
                (λ b u r. record { after = r }))

  nothing-Reached :
      {A : Type 0} (target : RuntimeMode) (command : Method W A) (s : Runtime W)
      → IsSettled s
      → ((t : Runtime W) → IsSettled t → Reached t.mode target (command t))
      → Reached s.mode target (run_serialized env target command (nothing_after env) s)
  nothing-Reached target command s l h =
      serialized-Reached target command (nothing_after env) s l h (λ a t q. record { after = q })

  call-Lands :
      {A : Type 0} {P : RuntimeMode → Type 0} (f : W → Result A × W) (s : Runtime W)
      → Lands P s
      → Post (λ _. Lands P) (Lands P) IsGuarded (call f s)
  unfolding call
  call-Lands {A} {P} f s l = told (f s.world).0
    where
      t : Runtime W
      t = record s { world = (f s.world).1 }

      told_by : Lands P t
      told_by = record { owner_is = l.owner_is; active_is = l.active_is; landed = l.landed }

      told : (r : Result A) → Post (λ _. Lands P) (Lands P) IsGuarded (r, t)
      told (ok a) = record { after = told_by }
      told (raise e) = record { after = told_by }
      told cancelled = record { after = Lands-IsGuarded t told_by }

  published-Post :
      (r : ℕ × MeetingRecord) (s : Runtime W)
      → Lands (λ k. k ≡ meeting) s
      → Post (λ _. Lands (λ k. k ≡ meeting)) (λ _. ⊥) IsGuarded (publish_committed env r s)
  unfolding publish_committed
  published-Post (p, r) s l =
      handle-Post (call (env.publish_started p) s) (λ e. pure tt) cancel
        (call-Lands (env.publish_started p) s l) (λ e t q. record { after = q })
        (λ t q. record { after = q })

  meeting-Reached : (s : Runtime W) → IsSettled s → Reached s.mode meeting (start_meeting env s)
  unfolding start_meeting
  meeting-Reached s l =
      branch-Post (not s.has_meeting) _ _ (λ e. fail-Reached meeting unavailable s l)
        λ e.
          next-Post
            (run_serialized env meeting (start_meeting_locked env) (publish_committed env) s) _
            (serialized-Reached meeting (start_meeting_locked env) (publish_committed env) s l
              (start_meeting-Reached env) published-Post)
            (λ a t q. record { after = q })

  restart-Reached :
      (restart : W → Result (Unit {0}) × W) (s : Runtime W)
      → IsSettled s
      → Reached s.mode assistant (
          choose
            (λ s. is_mode s.mode assistant && is_assistant_owner s.pcm_owner)
            (call restart)
            (fail mode_conflict)
            s)
  restart-Reached restart s l =
      branch-Post (is_mode s.mode assistant && is_assistant_owner s.pcm_owner) _ _
        (λ e.
          weaken-Post (call restart s)
            (call-Lands {P = λ k. (k ≡ assistant) × (k ≡ s.mode)} restart s (record {
              owner_is = l.owner_is;
              active_is = l.active_is;
              landed = (
                is_mode-≡ s.mode assistant
                    (and_left (is_mode s.mode assistant) (is_assistant_owner s.pcm_owner) e),
                refl,
              );
            }))
            (λ a t q. Lands-map t (λ k b. b.0) q) (λ t q. Lands-map t (λ k b. inl b.1) q)
            (λ t q. q))
        (λ e. fail-Reached assistant mode_conflict s l)

  -- From a settled coordinator, in which the mode's own workload has the microphone and a meeting is
  -- active just in the mode meeting: a command that returns leaves it settled in the command's mode,
  -- one that raises leaves it settled in the mode it had or in idle, and one that is cancelled leaves
  -- the microphone to nobody or to the mode's workload, whatever each call of a workload or of the
  -- owner's callback does.
  pub perform_lem :
      (c : Command W) (s : Runtime W)
      → IsSettled s
      → Post (λ _. Lands (λ k. k ≡ target_of c)) (Lands (Back s.mode)) IsGuarded (perform env c s)
  unfolding perform target_of restart_assistant start_assistant start_subtitles end_meeting
      stop_active_mode
  perform_lem to_assistant s l =
      nothing-Reached assistant (start_assistant_locked env) s l (start_assistant-Reached env)
  perform_lem (to_subtitles capture) s l =
      nothing-Reached subtitles (start_subtitles_locked env capture) s l
        (start_subtitles-Reached env capture)
  perform_lem to_meeting s l =
      forget_result env s.mode meeting (start_meeting env s) (meeting-Reached s l)
  perform_lem (to_end id) s l =
      forget_result env s.mode idle
        (run_serialized env idle (end_meeting_locked env id) (nothing_after env) s)
        (nothing-Reached idle (end_meeting_locked env id) s l (end_meeting-Reached env id))
  perform_lem to_stop s l =
      nothing-Reached idle (stop_active_mode_locked env) s l (stop_active-Reached env)
  perform_lem (to_restart restart) s l = nothing-Reached assistant _ s l (restart-Reached restart)
