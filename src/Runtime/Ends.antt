-- ===== src/Runtime/Ends.antt =====
-- src/sona/meeting/runtime_mode.py: `_end_meeting_locked` from a settled coordinator.
use voice_realtime.Prelude.{
  ◌≡◌, refl, sym, ap, ◌∙◌, subst, ℕ, Bool, true, false, not, ◌&&◌, Option, some, arith, inl, inr,
}
use voice_realtime.Runtime.State.{
  meeting_not_active, meeting_owner, RuntimeMode, meeting, idle, no_owner, owner_for_mode,
  Workloads, MeetingRecord, Runtime, pure, fail, cancel, call, attempt, next, ◌>>◌,
}
use voice_realtime.Runtime.Steps.{is_set, set_transition_barrier, commit_state}
use voice_realtime.Runtime.Restoring.{force_idle_state, force_idle}
use voice_realtime.Runtime.Commands.{is_mode, after_stop}
use voice_realtime.Runtime.Endings.{
  end_barrier, stop_and_commit, on_failed_stop, after_failed_stop, end_meeting_locked,
}
use voice_realtime.Runtime.Rules.{
  Post, handle-Post, branch-Post, weaken-Post, next-Post, Content, IsGuarded, Near, Sits,
  Sits-IsGuarded, Sits-Near, call-Post,
}
use voice_realtime.Runtime.Moves.{barrier-Post, commit-Post}
use voice_realtime.Runtime.Starts.{Reached, is_mode-≡, fail-Reached}
use voice_realtime.Runtime.Recovery.{Clear, IsGuarded-Near}
use voice_realtime.Runtime.Restored.{force_idle_state-Post, force_idle-Post}
use voice_realtime.Runtime.Switch.{Owned}
use voice_realtime.Runtime.Settled.{Lands, IsSettled, Back, Lands-map, Sits-Lands, Clear-Owned}

module _ {W : Type 0} where
  settled_meeting :
      (s : Runtime W)
      → IsSettled s
      → s.mode ≡ meeting
      → Sits meeting s.has_meeting (Owned meeting) s
  settled_meeting s l e = record {
    mode_is = e;
    owner_is = l.owner_is ∙ ap owner_for_mode e;
    meeting_is = refl;
    content = l.active_is ∙ ap (λ k. is_mode k meeting) e;
  }

  pub idle_Lands :
      {h : Bool} {P : RuntimeMode → Type 0} (s : Runtime W)
      → P idle
      → Sits idle h Clear s
      → Lands P s
  unfolding is_mode
  idle_Lands s p n = Sits-Lands s (Clear-Owned s refl n) p

module _ {W : Type 0} (env : Workloads W) {m : RuntimeMode} {h : Bool} where
  failed_stop-Near :
      {J : Content} (s : Runtime W) → Near m h J s → Near m h Clear (after_failed_stop env s)
  unfolding after_failed_stop
  failed_stop-Near s n = record {
    mode_is = n.mode_is;
    guard = n.guard;
    meeting_is = n.meeting_is;
    content = refl;
  }

  -- A failed stop of the meeting ends idle, unless it is cancelled.
  on_failed_stop-Post :
      {J : Content} (s : Runtime W)
      → Near m h J s
      → Post (λ _. Sits idle h Clear) (λ _. ⊥) IsGuarded (on_failed_stop env s)
  unfolding on_failed_stop next owner_for_mode
  on_failed_stop-Post s n =
      handle-Post (commit_state env idle no_owner (after_failed_stop env s))
        (λ x. force_idle_state env) cancel
        (commit-Post env idle (after_failed_stop env s) (failed_stop-Near s n))
        (λ e t q. force_idle_state-Post env t q) (λ t q. record { after = q })

  after_stop-Near :
      {J : Content} (r : MeetingRecord) (s : Runtime W)
      → Near m h J s
      → Near m h Clear (after_stop r s)
  unfolding after_stop
  after_stop-Near r s n = record {
    mode_is = n.mode_is;
    guard = n.guard;
    meeting_is = n.meeting_is;
    content = refl;
  }

  committed_idle :
      (s : Runtime W)
      → Near m h Clear s
      → Post
          (λ _. Sits idle h Clear)
          (Sits idle h Clear)
          IsGuarded
          (attempt (commit_state env idle no_owner) (λ x. force_idle env) cancel s)
  unfolding owner_for_mode
  committed_idle s n =
      handle-Post (commit_state env idle no_owner s) (λ x. force_idle env) cancel
        (commit-Post env idle s n) (λ e t q. force_idle-Post env t q) (λ t q. record { after = q })

module _ {W : Type 0} (env : Workloads W) where
  failed_again :
      {A : Type 0} (s : Runtime W)
      → IsGuarded s
      → Post {A = A} (λ _ _. ⊥) (λ _. ⊥) IsGuarded ((on_failed_stop env >> cancel) s)
  failed_again s g =
      next-Post (on_failed_stop env s) (λ _. cancel)
        (on_failed_stop-Post env s (IsGuarded-Near s g))
        (λ a t q. record { after = Sits-IsGuarded t q })

  module _ {m : RuntimeMode} {h : Bool} where
    pub stop_and_commit-Post :
        {J : Content} (s : Runtime W)
        → Near m h J s
        → Post (λ _. Sits idle h Clear) (Sits idle h Clear) IsGuarded (stop_and_commit env s)
    unfolding stop_and_commit next
    stop_and_commit-Post {J} s n =
        next-Post _ _
          (handle-Post {Q = λ _. Near m h J} (call env.stop_meeting s) _ _
            (call-Post env.stop_meeting s n)
            (λ e t q.
              next-Post (on_failed_stop env t) (λ _. fail e)
                (weaken-Post (on_failed_stop env t) (on_failed_stop-Post env t q) (λ a u r. r)
                  (λ u r. absurd r) (λ u r. r))
                (λ a u r. record { after = r }))
            (λ t q.
              weaken-Post _ (failed_again t q) (λ a u r. absurd r) (λ u r. absurd r) (λ u r. r)))
          (λ r t q.
            next-Post _ (λ _. pure r)
              (committed_idle env (after_stop r t) (after_stop-Near env r t q))
              (λ a u x. record { after = x }))

    pub noted :
        {J : Content} (b : Bool) (s : Runtime W)
        → Near m h J s
        → Near m h J (record s { rollback_result = some b })
    noted b s n = record {
      mode_is = n.mode_is;
      guard = n.guard;
      meeting_is = n.meeting_is;
      content = n.content;
    }

  -- A barrier that fails leaves the meeting as it was, or the idle state.
  end_barrier-Post :
      {h : Bool} (s : Runtime W)
      → Near meeting h (Owned meeting) s
      → Post
          (λ _. Near meeting h (Owned meeting))
          (Lands (Back meeting))
          IsGuarded
          (end_barrier env s)
  unfolding end_barrier next owner_for_mode
  end_barrier-Post {h} s n =
      handle-Post (set_transition_barrier env s) _ cancel (barrier-Post env s n)
        (λ e t q.
          next-Post _ (λ _. fail e)
            (handle-Post
              (commit_state env meeting meeting_owner (record t { rollback_result = some true }))
              (λ x. force_idle env) cancel
              (commit-Post env meeting (record t { rollback_result = some true }) (noted true t q))
              (λ x u r.
                weaken-Post (force_idle env u)
                  (force_idle-Post env {Q = λ _. Sits meeting h (Owned meeting)} u r) (λ a v y. y)
                  (λ v y. idle_Lands v (inr refl) y) (λ v y. y))
              (λ u r. record { after = r }))
            (λ a u r. record { after = Sits-Lands u r (inl refl) }))
        (λ t q. record { after = q })

  pub end_meeting-Reached :
      (id : Option ℕ) (s : Runtime W)
      → IsSettled s
      → Reached s.mode idle (end_meeting_locked env id s)
  unfolding end_meeting_locked
  end_meeting-Reached id s l =
      branch-Post _ _ _ (λ e. fail-Reached idle meeting_not_active s l)
        λ e.
          branch-Post _ _ _ (λ f. fail-Reached idle meeting_not_active s l)
            λ f. ended (
              is_mode-≡ s.mode meeting
                (running (is_mode s.mode meeting) (is_set s.active_meeting_id) s.has_meeting e))
    where
      running : (a b c : Bool) → not (a && b && c) ≡ false → a ≡ true
      running a b c h = ground arith

      ended : s.mode ≡ meeting → Reached s.mode idle ((end_barrier env >> stop_and_commit env) s)
      ended e =
          next-Post (end_barrier env s) (λ _. stop_and_commit env)
            (weaken-Post (end_barrier env s)
              (end_barrier-Post s (Sits-Near s (settled_meeting s l e))) (λ a t q. q)
              (λ t q. Lands-map t (λ k b. subst (λ x. Back x k) (sym e) b) q) (λ t q. q))
            (λ a t q.
              weaken-Post (stop_and_commit env t) (stop_and_commit-Post t q)
                (λ r u x. idle_Lands u refl x) (λ u x. idle_Lands u (inr refl) x) (λ u x. x))
