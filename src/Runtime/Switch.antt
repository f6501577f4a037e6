-- ===== src/Runtime/Switch.antt =====
-- src/sona/meeting/runtime_mode.py, `_switch_workload`: what each of its endings leaves.
use voice_realtime.Prelude.{
  ◌≡◌, refl, ◌∙◌, ℕ, Bool, true, false, ◌&&◌, Option, none, some, if◌then◌else◌,
}
use voice_realtime.Runtime.State.{
  RuntimeMode, assistant, subtitles, meeting, idle, Error, Workloads, Runtime, Method, pure, fail,
  cancel, call, attempt, next, ◌>>◌, modify, other_error,
}
use voice_realtime.Runtime.Steps.{
  set_transition_barrier, forget_meeting, deactivate_target, abort_preparation, abort_target,
  committed_of, is_set, is_closing,
}
use voice_realtime.Runtime.Restoring.{force_idle_state, quiesce_source, restore_and_commit}
use voice_realtime.Runtime.Transition.{after_cancel, on_cancel}
use voice_realtime.Runtime.Commands.{is_mode}
use voice_realtime.Runtime.Rules.{
  Post, handle-Post, choose-Post, weaken-Post, next-Post, Content, IsGuarded, Near, Near-IsGuarded,
  Sits-IsGuarded, call-Post,
}
use voice_realtime.Runtime.Moves.{barrier-Post}
use voice_realtime.Runtime.Recovery.{
  Any, Clear, Broken, Stays, idle-Post, stop_interaction-Post, abort_preparation-Post, any,
  deactivate-Any, IsGuarded-Near,
}
use voice_realtime.Runtime.Restored.{fail-Post, force_idle_state-Post, restore_and_commit-Post}

-- Nothing is committed yet, and no meeting is active.
abbrev pub Opened : Content
Opened i p = (committed_of p ≡ false) × (i ≡ none)

-- A meeting is active if it is the mode.
abbrev pub Owned : RuntimeMode → Content
Owned m i p = is_set i ≡ is_mode m meeting

-- What an abort leaves: nothing active, or an exception.
abbrev pub Aborted : {W : Type 0} → RuntimeMode → Bool → Option Error → Runtime W → Type 0
Aborted m h none = Near m h Clear
Aborted m h (some e) = Near m h Any

module _ {W : Type 0} (env : Workloads W) {m : RuntimeMode} {h : Bool} where
  deactivated :
      (s : Runtime W)
      → h ≡ true
      → Near m h Any s
      → Post (λ _. Near m h Clear) (Near m h Any) IsGuarded (deactivate_target env meeting s)
  unfolding deactivate_target forget_meeting
  deactivated s e n =
      choose-Post (λ s. s.has_meeting) (call env.interrupt >> modify (forget_meeting env)) (pure tt)
        s
        (λ f.
          next-Post (call env.interrupt s) _ (call-Post env.interrupt s n)
            (λ a t q. record { after = forgotten t q }))
        (λ f. absurd (cc (n.meeting_is ∙ e)))
    where
      forgotten : (t : Runtime W) → Near m h Any t → Near m h Clear (forget_meeting env t)
      forgotten t q = record {
        mode_is = q.mode_is;
        guard = q.guard;
        meeting_is = q.meeting_is;
        content = refl;
      }

  abort_clear :
      (target : RuntimeMode) (p : ℕ) (c : Bool) (s : Runtime W)
      → (is_mode target meeting && c) ≡ false
      → Near m h Clear s
      → Stays m h Clear
          ((if c then deactivate_target env target else abort_preparation env target p) s)
  unfolding deactivate_target is_mode
  abort_clear target p false s e n = abort_preparation-Post env target p s n
  abort_clear assistant p true s e n = stop_interaction-Post env s n
  abort_clear subtitles p true s e n =
      choose-Post (λ s. s.has_subtitles) (call env.deactivate_capture) (pure tt) s
        (λ f. call-Post env.deactivate_capture s n) (λ f. idle-Post env s n)
  abort_clear meeting p true s e n = absurd (cc)
  abort_clear idle p true s e n = idle-Post env s n

  clear :
      (target : RuntimeMode) (p : ℕ) (c : Bool) (s : Runtime W)
      → (is_mode target meeting && c) ≡ false
      → s.active_meeting_id ≡ none
      → Near m h Any s
      → Post
          (λ _. Near m h Clear)
          (Near m h Any)
          IsGuarded
          ((if c then deactivate_target env target else abort_preparation env target p) s)
  clear target p c s e i n =
      weaken-Post ((if c then deactivate_target env target else abort_preparation env target p) s)
        (abort_clear target p c s e
          (record { mode_is = n.mode_is; guard = n.guard; meeting_is = n.meeting_is; content = i }))
        (λ a t q. q) (λ t q. any env t q) (λ t q. q)

  abort_inner :
      (target : RuntimeMode) (p : ℕ) (c : Bool) (s : Runtime W)
      → (is_mode target meeting ≡ true → h ≡ true)
      → ((is_mode target meeting && c) ≡ false → s.active_meeting_id ≡ none)
      → Near m h Any s
      → Post
          (λ _. Near m h Clear)
          (Near m h Any)
          IsGuarded
          ((if c then deactivate_target env target else abort_preparation env target p) s)
  unfolding is_mode
  abort_inner meeting p true s has b n = deactivated s (has refl) n
  abort_inner meeting p false s has b n = clear meeting p false s refl (b refl) n
  abort_inner assistant p c s has b n = clear assistant p c s refl (b refl) n
  abort_inner subtitles p c s has b n = clear subtitles p c s refl (b refl) n
  abort_inner idle p c s has b n = clear idle p c s refl (b refl) n

  unprepared :
      (s : Runtime W) → Near m h Clear s → Near m h Clear (record s { prepared_target = none })
  unprepared s n = record {
    mode_is = n.mode_is;
    guard = n.guard;
    meeting_is = n.meeting_is;
    content = n.content;
  }

  pub abort_target-Post :
      (target : RuntimeMode) (p : ℕ) (s : Runtime W)
      → (is_mode target meeting ≡ true → h ≡ true)
      → Near m h (Broken target) s
      → Post (Aborted m h) (λ _. ⊥) IsGuarded (abort_target env target p s)
  unfolding abort_target next
  abort_target-Post target p s has n =
      handle-Post _ (λ e. pure (some e)) cancel
        (next-Post
          ((if committed_of s.prepared_target
              then deactivate_target env target
              else abort_preparation env target p)
            s)
          _ (abort_inner target p (committed_of s.prepared_target) s has n.content (any env s n))
          (λ a t q. record { after = unprepared t q }))
        (λ e t q. record { after = q }) (λ t q. record { after = q })

  pub abort_target-Any :
      (target : RuntimeMode) (p : ℕ) (s : Runtime W)
      → Near m h Any s
      → Post (λ _. Near m h Any) (λ _. ⊥) IsGuarded (abort_target env target p s)
  unfolding abort_target next
  abort_target-Any target p s n =
      handle-Post _ (λ e. pure (some e)) cancel
        (next-Post
          ((if committed_of s.prepared_target
              then deactivate_target env target
              else abort_preparation env target p)
            s)
          _ (either (committed_of s.prepared_target)) (λ a t q. record { after = dropped t q }))
        (λ e t q. record { after = q }) (λ t q. record { after = q })
    where
      either :
          (c : Bool)
          → Stays m h Any
              ((if c then deactivate_target env target else abort_preparation env target p) s)
      either true = deactivate-Any env target s n
      either false = abort_preparation-Post env target p s n

      dropped :
          (t : Runtime W) → Near m h Any t → Near m h Any (record t { prepared_target = none })
      dropped t q = record {
        mode_is = q.mode_is;
        guard = q.guard;
        meeting_is = q.meeting_is;
        content = tt;
      }

module _ {W : Type 0} (env : Workloads W) {m : RuntimeMode} {h : Bool} {J : Content} where
  pub barred-Post :
      (b : Bool) (s : Runtime W)
      → Near m h J s
      → Stays m h J ((if b then pure tt else set_transition_barrier env) s)
  barred-Post true s n = idle-Post env s n
  barred-Post false s n = barrier-Post env s n

  pub quiesce-Post :
      (source : RuntimeMode) (s : Runtime W)
      → Near m h J s
      → Stays m h J (quiesce_source env source s)
  unfolding quiesce_source
  quiesce-Post assistant s n = call-Post env.stop_interaction s n
  quiesce-Post subtitles s n =
      choose-Post (λ s. s.has_subtitles) (call env.deactivate_capture) (fail (other_error 0)) s
        (λ e. call-Post env.deactivate_capture s n) (λ e. fail-Post env (other_error 0) s n)
  quiesce-Post meeting s n = idle-Post env s n
  quiesce-Post idle s n = idle-Post env s n

-- What is tried when a command is cancelled.
pub rescued-Post :
    {W : Type 0} (env : Workloads W) {m : RuntimeMode} {h : Bool} {J : Content}
    (source : RuntimeMode) (s : Runtime W)
    → Near m h J s
    → Post
        (λ _. IsGuarded)
        (λ _. ⊥)
        IsGuarded
        (attempt (restore_and_commit env source) (λ e. force_idle_state env) cancel s)
rescued-Post env source s n =
    handle-Post (restore_and_commit env source s) (λ e. force_idle_state env) cancel
      (weaken-Post (restore_and_commit env source s) (restore_and_commit-Post env source s n)
        (λ a t q. Sits-IsGuarded t q) (λ t q. q) (λ t q. q))
      (λ e t q.
        weaken-Post (force_idle_state env t) (force_idle_state-Post env t q)
          (λ a u r. Sits-IsGuarded u r) (λ u r. absurd r) (λ u r. r))
      (λ t q. record { after = q })

module _ {W : Type 0} (env : Workloads W) {A : Type 0} (target source : RuntimeMode)
    (commit : ℕ → Method W A) where
  after_cancel-Post :
      {m : RuntimeMode} {h : Bool} (x : Option Error) (s : Runtime W)
      → Near m h Any s
      → Post (λ _ _. ⊥) (λ _. ⊥) IsGuarded (after_cancel env target source commit x s)
  unfolding after_cancel
  after_cancel-Post (some x) s n =
      next-Post (force_idle_state env s) _ (force_idle_state-Post env s n)
        (λ a t q. record { after = Sits-IsGuarded t q })
  after_cancel-Post none s n =
      next-Post _ _ (rescued-Post env source s n) (λ a t q. record { after = q })

  -- Whatever was reached, a cancelled switch ends guarded.
  pub on_cancel-Post :
      (p : ℕ) (s : Runtime W)
      → IsGuarded s
      → Post (λ _ _. ⊥) (λ _. ⊥) IsGuarded (on_cancel env target source commit p s)
  unfolding on_cancel
  on_cancel-Post p s g =
      next-Post (abort_target env target p s) _
        (abort_target-Any env target p s (IsGuarded-Near s g))
        (λ x t q.
          choose-Post (is_closing env) cancel (after_cancel env target source commit x) t
            (λ e. record { after = Near-IsGuarded t q }) (λ e. after_cancel-Post x t q))
