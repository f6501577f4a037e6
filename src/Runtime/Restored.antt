-- ===== src/Runtime/Restored.antt =====
-- src/sona/meeting/runtime_mode.py: restoring a source and forcing the idle state.
use voice_realtime.Prelude.{refl, Bool, true, false, none, some, inl, inr}
use voice_realtime.Runtime.State.{
  RuntimeMode, assistant, subtitles, meeting, idle, no_owner, Error, Workloads, Runtime, pure, fail,
  cancel, call, next, ◌>>◌, choose, unavailable, other_error,
}
use voice_realtime.Runtime.Steps.{
  put_owner, owner_callback_safely, force_commit_idle, interaction_active,
  stop_interaction_if_active, abort_prepared_target_safely, suppress,
}
use voice_realtime.Runtime.Restoring.{
  may_record, stop_all_workloads, force_idle_state, force_idle, restart_capture, restore_source,
  restore_and_commit, recover_source_or_force_idle,
}
use voice_realtime.Runtime.Rules.{
  Post, handle-Post, choose-Post, weaken-Post, next-Post, Content, IsGuarded, Near, Sits, call-Post,
}
use voice_realtime.Runtime.Moves.{put-Near, callback_safely-Post, commit-Post}
use voice_realtime.Runtime.Recovery.{
  Any, Clear, Recovered, Stays, abort_safely-Any, any, idle-Post, idle_owner, revised-Sits,
  stop_interaction-Post, suppress-Post, suppressed,
}

module _ {W : Type 0} (env : Workloads W) {m : RuntimeMode} {h : Bool} where
  pub stop_all-Post :
      (s : Runtime W)
      → Near m h Any s
      → Post (λ _. Near m h Any) (λ _. ⊥) IsGuarded (stop_all_workloads env s)
  unfolding stop_all_workloads
  stop_all-Post s n =
      next-Post (abort_prepared_target_safely env s) _ (abort_safely-Any env s n) λ a t q.
        next-Post (suppress (stop_interaction_if_active env) t) _
          (suppress-Post env (stop_interaction_if_active env) t (stop_interaction-Post env t q))
          λ b u r.
            next-Post
              (choose (λ s. s.has_subtitles) (suppress (call env.deactivate_capture)) (pure tt) u) _
              (suppressed env (λ s. s.has_subtitles) (call env.deactivate_capture) u r
                (call-Post env.deactivate_capture u r))
              λ c v x.
                suppressed env (may_record env) (call env.interrupt) v x
                  (call-Post env.interrupt v x)

  pub force_commit-Post :
      {J : Content} (s : Runtime W)
      → Near m h J s
      → Post (λ _. Sits idle h J) (λ _. ⊥) (λ _. ⊥) (force_commit_idle env s)
  unfolding force_commit_idle next
  force_commit-Post s n =
      next-Post (owner_callback_safely env no_owner (put_owner idle no_owner s)) _
        (callback_safely-Post env no_owner (put_owner idle no_owner s)
          (put-Near idle m no_owner s n (inl refl)))
        (λ a t q. record { after = revised-Sits t q (idle_owner t q) })

  cleared-Near :
      (s : Runtime W) → Near m h Any s → Near m h Clear (record s { active_meeting_id = none })
  cleared-Near s n = record {
    mode_is = n.mode_is;
    guard = n.guard;
    meeting_is = n.meeting_is;
    content = refl;
  }

  noted-Near :
      {J : Content} (b : Bool) (s : Runtime W)
      → Near m h J s
      → Near m h J (record s { rollback_result = some b })
  noted-Near b s n = record {
    mode_is = n.mode_is;
    guard = n.guard;
    meeting_is = n.meeting_is;
    content = n.content;
  }

  pub force_idle_state-Post :
      {J : Content} (s : Runtime W)
      → Near m h J s
      → Post (λ _. Sits idle h Clear) (λ _. ⊥) IsGuarded (force_idle_state env s)
  unfolding force_idle_state next
  force_idle_state-Post s n =
      next-Post (stop_all_workloads env (record s { rollback_result = some false })) _
        (stop_all-Post (record s { rollback_result = some false })
          (noted-Near false s (any env s n)))
        λ a t q.
          weaken-Post (force_commit_idle env (record t { active_meeting_id = none }))
            (force_commit-Post (record t { active_meeting_id = none }) (cleared-Near t q))
            (λ b u r. r) (λ u r. absurd r) (λ u r. absurd r)

  pub force_idle-Post :
      {A : Type 0} {Q : A → Runtime W → Type 0} {J : Content} (s : Runtime W)
      → Near m h J s
      → Post Q (Sits idle h Clear) IsGuarded (force_idle env {A = A} s)
  unfolding force_idle
  force_idle-Post s n =
      next-Post (force_idle_state env s) (λ _. fail unavailable)
        (weaken-Post (force_idle_state env s) (force_idle_state-Post s n) (λ a t q. q)
          (λ t q. absurd q) (λ t q. q))
        (λ a t q. record { after = q })

  -- The last step of a recovery, whose `J` says that no meeting is active.
  restart-Post : {J : Content} (s : Runtime W) → Near m h J s → Stays m h J (restart_capture env s)
  unfolding restart_capture
  restart-Post s n =
      next-Post (call (env.prepare_capture none) s) _ (call-Post (env.prepare_capture none) s n)
        (λ p t q. call-Post (env.commit_capture p) t q)

  pub fail-Post : {J : Content} (e : Error) (s : Runtime W) → Near m h J s → Stays m h J (fail e s)
  fail-Post e s n = record { after = n }

  pub restore-Post :
      {J : Content} (source : RuntimeMode) (s : Runtime W)
      → Near m h J s
      → Stays m h J (restore_source env source s)
  unfolding restore_source
  restore-Post assistant s n =
      next-Post (choose (interaction_active env) (pure tt) (call env.start_interaction) s) _
        (choose-Post (interaction_active env) (pure tt) (call env.start_interaction) s
          (λ e. idle-Post env s n) (λ e. call-Post env.start_interaction s n))
        (λ a t q.
          choose-Post (interaction_active env) (pure tt) (fail (other_error 1)) t
            (λ e. idle-Post env t q) (λ e. fail-Post (other_error 1) t q))
  restore-Post subtitles s n =
      choose-Post (λ s. s.has_subtitles)
        (choose (λ s. env.capture_active s.world) (pure tt) (restart_capture env)
          >> choose (λ s. env.capture_active s.world) (pure tt) (fail (other_error 2)))
        (fail (other_error 3)) s
        (λ e.
          next-Post (choose (λ s. env.capture_active s.world) (pure tt) (restart_capture env) s) _
            (choose-Post (λ s. env.capture_active s.world) (pure tt) (restart_capture env) s
              (λ f. idle-Post env s n) (λ f. restart-Post s n))
            (λ a t q.
              choose-Post (λ s. env.capture_active s.world) (pure tt) (fail (other_error 2)) t
                (λ f. idle-Post env t q) (λ f. fail-Post (other_error 2) t q)))
        (λ e. fail-Post (other_error 3) s n)
  restore-Post meeting s n = idle-Post env s n
  restore-Post idle s n = idle-Post env s n

  pub restore_and_commit-Post :
      {J : Content} (source : RuntimeMode) (s : Runtime W)
      → Near m h J s
      → Post (λ _. Sits source h J) (Near m h J) IsGuarded (restore_and_commit env source s)
  unfolding restore_and_commit next
  restore_and_commit-Post source s n =
      next-Post (restore_source env source s) _ (restore-Post source s n) (λ a t q.
        commit-Post env source (record t { rollback_result = some true }) (noted-Near true t q))

  pub recover-Post :
      (source : RuntimeMode) (s : Runtime W)
      → Near m h Clear s
      → Post
          (λ _. Recovered source h)
          (Recovered source h)
          IsGuarded
          (recover_source_or_force_idle env source s)
  unfolding recover_source_or_force_idle Recovered
  recover-Post source s n =
      handle-Post (restore_and_commit env source s) _ cancel
        (weaken-Post (restore_and_commit env source s) (restore_and_commit-Post source s n)
          (λ a t q. inl q) (λ t q. q) (λ t q. q))
        (λ e t q.
          weaken-Post (force_idle env t) (force_idle-Post {Q = λ _ _. ⊥} t q) (λ a u r. absurd r)
            (λ u r. inr r) (λ u r. r))
        (λ t q. record { after = q })
