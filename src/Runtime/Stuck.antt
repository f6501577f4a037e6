-- ===== src/Runtime/Stuck.antt =====
-- src/sona/meeting/runtime_mode.py: a `stop` during a command that ends with an exception.
use voice_realtime.Prelude.{◌≡◌, refl, ℕ, true, false, none, some}
use voice_realtime.Runtime.State.{Error, unavailable, raise, Workloads, Runtime, next}
use voice_realtime.Runtime.Steps.{is_closing}
use voice_realtime.Runtime.Endings.{
  Ending, raised, stop, stop_once, shut_down, keep_shutdown, await_transition,
}
use voice_realtime.Runtime.Serial.{Command, perform}
use voice_realtime.Runtime.Completes.{perform-closing}

-- A coordinator that is neither stopped nor takes a command or a stop again, and has done nothing
-- to its workloads.
pub record Stuck {W : Type 0} (env : Workloads W) (e : Error) (before q : Runtime W) : Type 0 where
  pub not_stopped : q.stopped ≡ false
  pub same_mode : q.mode ≡ before.mode
  pub same_owner : q.pcm_owner ≡ before.pcm_owner
  pub same_meeting : q.active_meeting_id ≡ before.active_meeting_id
  pub same_world : q.world ≡ before.world
  pub stops_raise : (ending : Ending) (n : ℕ) → stop env ending n q ≡ (raise e, q)
  pub commands_refused : (c : Command W) → perform env c q ≡ (raise unavailable, q)

module _ {W : Type 0} (env : Workloads W) where
  abbrev failed : Error → Runtime W → Runtime W
  failed e s = record s { closing = true; shutdown = some (raise e) }

  first_stop :
      (e : Error) (n : ℕ) (s : Runtime W)
      → s.stopped ≡ false
      → s.shutdown ≡ none
      → stop env (raised e) n s ≡ (raise e, failed e s)
  unfolding stop shut_down stop_once await_transition next keep_shutdown
  first_stop e n s h k = rw (h, k) refl

  later_stop :
      (e : Error) (ending : Ending) (n : ℕ) (s : Runtime W)
      → s.stopped ≡ false
      → stop env ending n (failed e s) ≡ (raise e, failed e s)
  unfolding stop shut_down
  later_stop e ending n s h = rw h refl

  closing_failed : (e : Error) (s : Runtime W) → is_closing env (failed e s) ≡ true
  unfolding is_closing
  closing_failed e s = refl

  -- When the command in flight ends with an exception other than its cancellation, the first stop
  -- raises it without stopping: the mode, the owner of the microphone, the meeting and the
  -- workloads stay as they are, each later stop raises it again, and each later command raises
  -- `unavailable`; none of these changes anything.
  pub stop_failed-Stuck :
      (e : Error) (n : ℕ) (s : Runtime W)
      → s.stopped ≡ false
      → s.shutdown ≡ none
      → (q : Runtime W) × (stop env (raised e) n s ≡ (raise e, q)) × Stuck env e s q
  stop_failed-Stuck e n s h k = (
    failed e s,
    first_stop e n s h k,
    record {
      not_stopped = h;
      same_mode = refl;
      same_owner = refl;
      same_meeting = refl;
      same_world = refl;
      stops_raise = λ ending m. later_stop e ending m s h;
      commands_refused = λ c. perform-closing env c (failed e s) (closing_failed e s);
    },
  )
