-- ===== src/Runtime/Guarded.antt =====
-- src/sona/meeting/runtime_mode.py: the microphone under any sequence of commands and stops, whatever
-- is raised or cancelled on the way.
use voice_realtime.Prelude.{ℕ, Bool, true, false, Option, none, some, if◌then◌else◌}
use voice_realtime.Runtime.State.{
  RuntimeMode, owner_for_mode, Error, Result, Workloads, Runtime, Method, pure, fail, cancel, call,
  next,
}
use voice_realtime.Runtime.Steps.{
  prepared_is, is_idle, abort_target, set_transition_barrier, commit_state,
}
use voice_realtime.Runtime.Restoring.{
  recover_source_or_force_idle, force_idle_state, force_idle, quiesce_source, restore_and_commit,
}
use voice_realtime.Runtime.Transition.{switch_body, on_error, after_error, switch_workload}
use voice_realtime.Runtime.Rules.{
  Post, handle-Post, weaken-Post, next-Post, Content, IsGuarded, Near, Sits, Near-IsGuarded,
  Sits-IsGuarded, call-Post,
}
use voice_realtime.Runtime.Moves.{barrier-Post, commit-Post}
use voice_realtime.Runtime.Recovery.{IsGuarded-Near}
use voice_realtime.Runtime.Restored.{
  restore_and_commit-Post, force_idle_state-Post, force_idle-Post,
}
use voice_realtime.Runtime.Switch.{on_cancel-Post, abort_target-Any, quiesce-Post}

-- However a method ends, the microphone is guarded.
abbrev pub Guards : {W A : Type 0} → Result A × Runtime W → Type 0
Guards = Post (λ _. IsGuarded) IsGuarded IsGuarded

module _ {W : Type 0} {m : RuntimeMode} {h : Bool} {J K : Content} where
  Near-Guards :
      {A : Type 0} (p : Result A × Runtime W)
      → Post (λ _. Near m h J) (Near m h K) IsGuarded p
      → Guards p
  Near-Guards p n =
      weaken-Post p n (λ a t q. Near-IsGuarded t q) (λ t q. Near-IsGuarded t q) (λ t q. q)

  Sits-Guards :
      {A : Type 0} {k : RuntimeMode} (p : Result A × Runtime W)
      → Post (λ _. Sits k h J) (Near m h K) IsGuarded p
      → Guards p
  Sits-Guards p n =
      weaken-Post p n (λ a t q. Sits-IsGuarded t q) (λ t q. Near-IsGuarded t q) (λ t q. q)

module _ {W : Type 0} (env : Workloads W) where
  pub call-Guards :
      {A : Type 0} (f : W → Result A × W) (s : Runtime W) → IsGuarded s → Guards (call f s)
  call-Guards f s g = Near-Guards (call f s) (call-Post f s (IsGuarded-Near s g))

  pub barrier-Guards : (s : Runtime W) → IsGuarded s → Guards (set_transition_barrier env s)
  barrier-Guards s g = Near-Guards _ (barrier-Post env s (IsGuarded-Near s g))

  pub quiesce-Guards :
      (source : RuntimeMode) (s : Runtime W) → IsGuarded s → Guards (quiesce_source env source s)
  quiesce-Guards source s g = Near-Guards _ (quiesce-Post env source s (IsGuarded-Near s g))

  pub commit-Guards :
      (m : RuntimeMode) (s : Runtime W)
      → IsGuarded s
      → Guards (commit_state env m (owner_for_mode m) s)
  commit-Guards m s g = Sits-Guards _ (commit-Post env m s (IsGuarded-Near s g))

  pub force_idle_state-Guards : (s : Runtime W) → IsGuarded s → Guards (force_idle_state env s)
  force_idle_state-Guards s g =
      weaken-Post _ (force_idle_state-Post env s (IsGuarded-Near s g)) (λ a t q. Sits-IsGuarded t q)
        (λ t q. absurd q) (λ t q. q)

  pub force_idle-Guards :
      {A : Type 0} (s : Runtime W) → IsGuarded s → Guards (force_idle env {A = A} s)
  force_idle-Guards s g =
      weaken-Post _ (force_idle-Post env {Q = λ _. IsGuarded} s (IsGuarded-Near s g)) (λ a t q. q)
        (λ t q. Sits-IsGuarded t q) (λ t q. q)

  recover-Guards :
      (source : RuntimeMode) (s : Runtime W)
      → IsGuarded s
      → Guards (recover_source_or_force_idle env source s)
  unfolding recover_source_or_force_idle
  recover-Guards source s g =
      handle-Post (restore_and_commit env source s) _ cancel
        (Sits-Guards _ (restore_and_commit-Post env source s (IsGuarded-Near s g)))
        (λ e t q. force_idle-Guards t q) (λ t q. record { after = q })

  module _ {A : Type 0} (target source : RuntimeMode) (commit : ℕ → Method W A) where
    aborted-Guards :
        (e : Error) (x : Option Error) (s : Runtime W)
        → IsGuarded s
        → Guards (after_error env target source commit e x s)
    unfolding after_error
    aborted-Guards e (some x) s g = force_idle-Guards s g
    aborted-Guards e none s g =
        next-Post (recover_source_or_force_idle env source s) (λ _. fail e)
          (recover-Guards source s g) (λ a t q. record { after = q })

    error-Guards :
        (p : ℕ) (e : Error) (s : Runtime W)
        → IsGuarded s
        → Guards (on_error env target source commit p e s)
    unfolding on_error
    error-Guards p e s g =
        next-Post (abort_target env target p s) _
          (weaken-Post _ (abort_target-Any env target p s (IsGuarded-Near s g))
            (λ a t q. Near-IsGuarded t q) (λ t q. absurd q) (λ t q. q))
          (λ x t q. aborted-Guards e x t q)

    prepared_is-IsGuarded :
        (p : ℕ) (b : Bool) (s : Runtime W) → IsGuarded s → IsGuarded (prepared_is target p b s)
    unfolding prepared_is IsGuarded
    prepared_is-IsGuarded p b s g = g

    dropped-IsGuarded :
        (s : Runtime W) → IsGuarded s → IsGuarded (record s { prepared_target = none })
    unfolding IsGuarded
    dropped-IsGuarded s g = g

    barred-Guards :
        (b : Bool) (s : Runtime W)
        → IsGuarded s
        → Guards ((if b then pure tt else set_transition_barrier env) s)
    barred-Guards true s g = record { after = g }
    barred-Guards false s g = barrier-Guards s g

    body-Guards :
        (p : ℕ) (s : Runtime W)
        → ((t : Runtime W) → IsGuarded t → Guards (commit p t))
        → IsGuarded s
        → Guards (switch_body env target source commit p s)
    unfolding switch_body next
    body-Guards p s c g =
        next-Post _ _
          (barred-Guards (is_idle source) (prepared_is target p false s)
            (prepared_is-IsGuarded p false s g))
          λ a t q. next-Post (quiesce_source env source t) _ (quiesce-Guards source t q) λ b u r.
            next-Post (commit p u) _ (c u r) λ result v x.
              next-Post
                (commit_state env target (owner_for_mode target) (prepared_is target p true v)) _
                (commit-Guards target (prepared_is target p true v)
                  (prepared_is-IsGuarded p true v x))
                (λ d z y. record { after = dropped-IsGuarded z y })

    pub switch-Guards :
        (prepare : Method W ℕ) (s : Runtime W)
        → ((p : ℕ) (t : Runtime W) → IsGuarded t → Guards (commit p t))
        → Guards (prepare s)
        → Guards (switch_workload env target source commit prepare s)
    unfolding switch_workload
    switch-Guards prepare s c g = next-Post (prepare s) _ g λ p t q.
        next-Post {P = λ _. IsGuarded} _ _
          (handle-Post (switch_body env target source commit p t) _ _ (body-Guards p t (c p) q)
            (λ e u r. error-Guards p e u r)
            (λ u r.
              weaken-Post _ (on_cancel-Post env target source commit p u r) (λ a v x. absurd x)
                (λ v x. absurd x) (λ v x. x)))
          (λ a u r. record { after = r })
