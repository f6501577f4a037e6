-- ===== src/Runtime/Switched.antt =====
-- src/sona/meeting/runtime_mode.py: what a switch leaves.
use voice_realtime.Prelude.{◌≡◌, refl, ℕ, Bool, true, false, Option, none, some, arith, inr}
use voice_realtime.Runtime.State.{
  RuntimeMode, meeting, owner_for_mode, Error, Result, Workloads, Prepared, Runtime, Method, fail,
  next,
}
use voice_realtime.Runtime.Steps.{
  commit_state, abort_target, committed_of, is_set, is_idle, prepared_is,
}
use voice_realtime.Runtime.Restoring.{force_idle, recover_source_or_force_idle}
use voice_realtime.Runtime.Transition.{
  switch_body, after_error, on_error, on_cancel, switch_workload,
}
use voice_realtime.Runtime.Commands.{is_mode}
use voice_realtime.Runtime.Rules.{
  Post, handle-Post, weaken-Post, next-Post, Content, IsGuarded, Near, Sits, Near-weaken,
}
use voice_realtime.Runtime.Moves.{commit-Post}
use voice_realtime.Runtime.Recovery.{Clear, Broken, Stays, Recovered}
use voice_realtime.Runtime.Restored.{force_idle-Post, recover-Post}
use voice_realtime.Runtime.Switch.{
  Aborted, Opened, Owned, abort_target-Post, barred-Post, on_cancel-Post, quiesce-Post,
}

module _ {W : Type 0} (env : Workloads W) {A : Type 0} (target source : RuntimeMode)
    (commit : ℕ → Method W A) where
  module _ (m : RuntimeMode) (h : Bool) where
    -- The exception passes on, from the source or from the idle state.
    after_error-Post :
        (e : Error) (x : Option Error) (s : Runtime W)
        → Aborted m h x s
        → Post
            (λ _ _. ⊥)
            (Recovered source h)
            IsGuarded
            (after_error env target source commit e x s)
    unfolding after_error Recovered
    after_error-Post e (some x) s n =
        weaken-Post (force_idle env s) (force_idle-Post env {Q = λ _ _. ⊥} s n) (λ a t q. absurd q)
          (λ t q. inr q) (λ t q. q)
    after_error-Post e none s n =
        next-Post (recover_source_or_force_idle env source s) (λ _. fail e)
          (recover-Post env source s n) (λ a t q. record { after = q })

    on_error-Post :
        (p : ℕ) (e : Error) (s : Runtime W)
        → (is_mode target meeting ≡ true → h ≡ true)
        → Near m h (Broken target) s
        → Post (λ _ _. ⊥) (Recovered source h) IsGuarded (on_error env target source commit p e s)
    unfolding on_error
    on_error-Post p e s has n =
        next-Post (abort_target env target p s) _
          (weaken-Post (abort_target env target p s) (abort_target-Post env target p s has n)
            (λ a t q. q) (λ t q. absurd q) (λ t q. q))
          (λ x t q. after_error-Post e x t q)

    abbrev Closed : Content
    Closed i p = (committed_of p ≡ true) × (is_set i ≡ is_mode target meeting)

    Opened-Broken : (i : Option ℕ) (p : Option Prepared) → Opened i p → Broken target i p
    Opened-Broken i p o b = o.1

    Closed-Broken : (i : Option ℕ) (p : Option Prepared) → Closed i p → Broken target i p
    unfolding is_set
    Closed-Broken i p c b = ground arith

    opened-Near :
        (p : ℕ) (s : Runtime W) → Near m h Clear s → Near m h Opened (prepared_is target p false s)
    unfolding prepared_is committed_of
    opened-Near p s n = record {
      mode_is = n.mode_is;
      guard = n.guard;
      meeting_is = n.meeting_is;
      content = (refl, n.content);
    }

    closed-Near :
        (p : ℕ) (s : Runtime W)
        → Near m h (Owned target) s
        → Near m h Closed (prepared_is target p true s)
    unfolding prepared_is committed_of
    closed-Near p s n = record {
      mode_is = n.mode_is;
      guard = n.guard;
      meeting_is = n.meeting_is;
      content = (refl, n.content);
    }

    -- The commit of the target keeps the coordinator, and sets the meeting if it is one.
    abbrev pub Commits : Type 0
    Commits =
        (p : ℕ) (s : Runtime W)
        → Near m h Opened s
        → Post (λ _. Near m h (Owned target)) (Near m h Opened) IsGuarded (commit p s)

    Sits-Closed :
        (a : A) (s : Runtime W)
        → Sits target h Closed s
        → Sits target h (Owned target) (record s { prepared_target = none })
    Sits-Closed a s n = record {
      mode_is = n.mode_is;
      owner_is = n.owner_is;
      meeting_is = n.meeting_is;
      content = n.content.1;
    }

    body-Post :
        (p : ℕ) (s : Runtime W)
        → Commits
        → Near m h Clear s
        → Post
            (λ _. Sits target h (Owned target))
            (Near m h (Broken target))
            IsGuarded
            (switch_body env target source commit p s)
    unfolding switch_body next
    body-Post p s c n =
        next-Post _ _
          (broken
            (barred-Post env (is_idle source) (prepared_is target p false s) (opened-Near p s n)))
          λ a t q. next-Post _ _ (broken (quiesce-Post env source t q)) λ b u r.
            next-Post (commit p u) _
              (weaken-Post (commit p u) (c p u r) (λ a v x. x)
                (λ v x. Near-weaken v Opened-Broken x) (λ v x. x))
              λ result v x.
                next-Post
                  (commit_state env target (owner_for_mode target) (prepared_is target p true v)) _
                  (weaken-Post _
                    (commit-Post env target (prepared_is target p true v) (closed-Near p v x))
                    (λ a z y. y) (λ z y. Near-weaken z Closed-Broken y) (λ z y. y))
                  (λ d z y. record { after = Sits-Closed result z y })
      where
        broken :
            {p : Result (Unit {0}) × Runtime W}
            → Stays m h Opened p
            → Post (λ _. Near m h Opened) (Near m h (Broken target)) IsGuarded p
        broken {p} x =
            weaken-Post p x (λ a t q. q) (λ t q. Near-weaken t Opened-Broken q) (λ t q. q)

    -- What a switch leaves: the target, or what the preparation or the recovery left.
    pub switch-Post :
        {E : Runtime W → Type 0} (prepare : Method W ℕ) (s : Runtime W)
        → (is_mode target meeting ≡ true → h ≡ true)
        → Commits
        → ((t : Runtime W) → Recovered source h t → E t)
        → Post (λ _. Near m h Clear) E IsGuarded (prepare s)
        → Post
            (λ _. Sits target h (Owned target))
            E
            IsGuarded
            (switch_workload env target source commit prepare s)
    unfolding switch_workload
    switch-Post prepare s has c end pre = next-Post (prepare s) _ pre λ p t q.
        next-Post _ _
          (handle-Post (switch_body env target source commit p t)
            (on_error env target source commit p) (on_cancel env target source commit p)
            (body-Post p t c q)
            (λ e u r.
              weaken-Post (on_error env target source commit p e u) (on_error-Post p e u has r)
                (λ a v x. absurd x) end (λ v x. x))
            (λ u r.
              weaken-Post (on_cancel env target source commit p u)
                (on_cancel-Post env target source commit p u r) (λ a v x. absurd x)
                (λ v x. absurd x) (λ v x. x)))
          (λ a u r. record { after = r })
