-- ===== src/Runtime/Leaves.antt =====
-- src/sona/meeting/runtime_mode.py: `_stop_active_mode_locked` from a settled coordinator.
use voice_realtime.Prelude.{◌≡◌, refl, Bool, true, false, none, some, inl, inr}
use voice_realtime.Runtime.State.{
  RuntimeMode, meeting, idle, owner_for_mode, Error, Workloads, Runtime, fail, cancel, next,
}
use voice_realtime.Runtime.Steps.{set_transition_barrier, commit_state, is_closing}
use voice_realtime.Runtime.Restoring.{force_idle_state, force_idle, quiesce_source}
use voice_realtime.Runtime.Commands.{is_mode}
use voice_realtime.Runtime.Endings.{
  end_meeting_locked, end_any_meeting, stop_source, leave_source, leave_failed, leave_cancelled,
  source_active, stop_active_mode_locked,
}
use voice_realtime.Runtime.Rules.{
  Post, handle-Post, branch-Post, weaken-Post, next-Post, IsGuarded, Near, Sits, Sits-Near,
}
use voice_realtime.Runtime.Moves.{barrier-Post, commit-Post}
use voice_realtime.Runtime.Starts.{Reached, is_mode-≡, pure-Reached, forget_result}
use voice_realtime.Runtime.Recovery.{Clear, Recovered, IsGuarded-Near}
use voice_realtime.Runtime.Restored.{force_idle_state-Post, force_idle-Post}
use voice_realtime.Runtime.Switch.{rescued-Post, quiesce-Post}
use voice_realtime.Runtime.Settled.{IsSettled, settled-Sits, Recovered-Lands}
use voice_realtime.Runtime.Ends.{end_meeting-Reached, idle_Lands, noted}

module _ {W : Type 0} (env : Workloads W) (source : RuntimeMode) {h : Bool} where
  leave_source-Post :
      (s : Runtime W)
      → Near source h Clear s
      → Post (λ _. Sits idle h Clear) (Near source h Clear) IsGuarded (leave_source env source s)
  unfolding leave_source owner_for_mode
  leave_source-Post s n = next-Post (set_transition_barrier env s) _ (barrier-Post env s n) λ a t q.
      next-Post (quiesce_source env source t) _ (quiesce-Post env source t q)
        λ b u r. commit-Post env idle u r

  leave_failed-Post :
      (e : Error) (s : Runtime W)
      → Near source h Clear s
      → Post (λ _ _. ⊥) (Recovered source h) IsGuarded (leave_failed env source e s)
  unfolding leave_failed next Recovered
  leave_failed-Post e s n =
      next-Post _ (λ _. fail e)
        (branch-Post (source_active env source s) _ _
          (λ f.
            handle-Post
              (commit_state env source (owner_for_mode source)
                (record s { rollback_result = some true }))
              (λ x. force_idle env) cancel
              (weaken-Post _
                (commit-Post env source (record s { rollback_result = some true })
                  (noted env true s n))
                (λ a t q. inl q) (λ t q. q) (λ t q. q))
              (λ x t q.
                weaken-Post (force_idle env t) (force_idle-Post env {Q = λ _ _. ⊥} t q)
                  (λ a u r. absurd r) (λ u r. inr r) (λ u r. r))
              (λ t q. record { after = q }))
          (λ f.
            weaken-Post (force_idle_state env s) (force_idle_state-Post env s n) (λ a t q. inr q)
              (λ t q. absurd q) (λ t q. q)))
        (λ a t q. record { after = q })

module _ {W : Type 0} (env : Workloads W) where
  pub leave_cancelled-Post :
      (source : RuntimeMode) (s : Runtime W)
      → IsGuarded s
      → Post (λ _ _. ⊥) (λ _. ⊥) IsGuarded (leave_cancelled env source s)
  unfolding leave_cancelled
  leave_cancelled-Post source s g =
      branch-Post (is_closing env s) _ _ (λ e. record { after = g })
        λ e.
          next-Post _ _ (rescued-Post env source s (IsGuarded-Near s g))
            (λ a t q. record { after = q })

  stop_source-Reached :
      (s : Runtime W)
      → IsSettled s
      → is_mode s.mode meeting ≡ false
      → Reached s.mode idle (stop_source env s)
  unfolding stop_source
  stop_source-Reached s l e =
      handle-Post (leave_source env s.mode s) _ _
        (weaken-Post (leave_source env s.mode s)
          (leave_source-Post env s.mode s (Sits-Near s (settled-Sits s l e)))
          (λ a t q. idle_Lands t refl q) (λ t q. q) (λ t q. q))
        (λ x t q.
          weaken-Post (leave_failed env s.mode x t) (leave_failed-Post env s.mode x t q)
            (λ a u r. absurd r)
            (λ u r. Recovered-Lands s.mode s.mode s.has_meeting u e (inl refl) r) (λ u r. r))
        (λ t q.
          weaken-Post (leave_cancelled env s.mode t) (leave_cancelled-Post s.mode t q)
            (λ a u r. absurd r) (λ u r. absurd r) (λ u r. r))

  pub stop_active-Reached :
      (s : Runtime W) → IsSettled s → Reached s.mode idle (stop_active_mode_locked env s)
  unfolding stop_active_mode_locked end_any_meeting
  stop_active-Reached s l =
      branch-Post (is_mode s.mode idle) _ _ (λ e. pure-Reached idle s l (is_mode-≡ s.mode idle e))
        λ e.
          branch-Post (is_mode s.mode meeting) _ _
            (λ f.
              forget_result env s.mode idle (end_meeting_locked env none s)
                (end_meeting-Reached env none s l))
            (λ f. stop_source-Reached s l f)
