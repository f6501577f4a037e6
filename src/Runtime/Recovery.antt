-- ===== src/Runtime/Recovery.antt =====
-- src/sona/meeting/runtime_mode.py: stopping a workload and aborting a target.
use voice_realtime.Prelude.{
  ◌≡◌, refl, sym, subst, ℕ, ◌+◌, Bool, false, ◌&&◌, Option, none, some, if◌then◌else◌, ◌⊎◌, inl,
  inr, Bool-cases,
}
use voice_realtime.Runtime.State.{
  RuntimeMode, assistant, subtitles, meeting, idle, no_owner, owner_for_mode, Result, Workloads,
  Prepared, Runtime, Method, pure, cancel, call, ◌>>◌, choose, modify,
}
use voice_realtime.Runtime.Steps.{
  interaction_active, stop_interaction_if_active, forget_meeting, deactivate_target,
  abort_preparation, abort_preparation_safely, abort_prepared, committed_of, abort_when_prepared,
  abort_prepared_target_safely, suppress,
}
use voice_realtime.Runtime.Commands.{is_mode}
use voice_realtime.Runtime.Rules.{
  Post, handle-Post, choose-Post, next-Post, Content, IsGuarded, Near, Sits, Near-weaken, call-Post,
}

abbrev pub Any : Content
Any i p = Unit {0}

-- No meeting is active.
abbrev pub Clear : Content
Clear i p = i ≡ none

-- A meeting is active only if it is the target and was committed.
abbrev pub Broken : RuntimeMode → Content
Broken target i p = (is_mode target meeting && committed_of p) ≡ false → i ≡ none

pub IsGuarded-Near : {W : Type 0} (s : Runtime W) → IsGuarded s → Near s.mode s.has_meeting Any s
unfolding IsGuarded
IsGuarded-Near s g = record { mode_is = refl; guard = g; meeting_is = refl; content = tt }

-- Nothing of the coordinator changes.
abbrev pub Stays :
    {W : Type 0} → RuntimeMode → Bool → Content → Result (Unit {0}) × Runtime W → Type 0
Stays m h J = Post (λ _. Near m h J) (Near m h J) IsGuarded

-- A source is restored, or the coordinator is idle.
unfoldable pub Recovered : {W : Type 0} → RuntimeMode → Bool → Runtime W → Type 0
Recovered source h s = Sits source h Clear s ⊎ Sits idle h Clear s

module _ {W : Type 0} {h : Bool} {J : Content} where
  pub revised-Sits :
      (s : Runtime W)
      → Near idle h J s
      → s.pcm_owner ≡ no_owner
      → Sits idle h J (record s { revision = s.revision + 1 })
  unfolding owner_for_mode
  revised-Sits s n e = record {
    mode_is = n.mode_is;
    owner_is = e;
    meeting_is = n.meeting_is;
    content = n.content;
  }

  -- In the idle mode, a guarded state has no owner.
  pub idle_owner : (s : Runtime W) → Near idle h J s → s.pcm_owner ≡ no_owner
  unfolding owner_for_mode
  idle_owner s n = elim n.guard [ inl e ↦ e | inr e ↦ e ]

module _ {W : Type 0} (env : Workloads W) {m : RuntimeMode} {h : Bool} where
  module _ {J : Content} where
    pub idle-Post : (s : Runtime W) → Near m h J s → Stays m h J (pure tt s)
    idle-Post s n = record { after = n }

    pub stop_interaction-Post :
        (s : Runtime W) → Near m h J s → Stays m h J (stop_interaction_if_active env s)
    unfolding stop_interaction_if_active
    stop_interaction-Post s n =
        choose-Post (interaction_active env) (call env.stop_interaction) (pure tt) s
          (λ e. call-Post env.stop_interaction s n) (λ e. idle-Post s n)

    pub abort_preparation-Post :
        (target : RuntimeMode) (p : ℕ) (s : Runtime W)
        → Near m h J s
        → Stays m h J (abort_preparation env target p s)
    unfolding abort_preparation
    abort_preparation-Post assistant p s n = stop_interaction-Post s n
    abort_preparation-Post subtitles p s n = call-Post (env.abort_capture p) s n
    abort_preparation-Post meeting p s n = call-Post (env.abort_start p) s n
    abort_preparation-Post idle p s n = idle-Post s n

    abort_safely-Post :
        (target : RuntimeMode) (p : ℕ) (s : Runtime W)
        → Near m h J s
        → Stays m h J (abort_preparation_safely env target p s)
    unfolding abort_preparation_safely
    abort_safely-Post assistant p s n = stop_interaction-Post s n
    abort_safely-Post subtitles p s n =
        choose-Post (λ s. s.has_subtitles) (call (env.abort_capture p)) (pure tt) s
          (λ e. call-Post (env.abort_capture p) s n) (λ e. idle-Post s n)
    abort_safely-Post meeting p s n =
        choose-Post (λ s. s.has_meeting) (call (env.abort_start p)) (pure tt) s
          (λ e. call-Post (env.abort_start p) s n) (λ e. idle-Post s n)
    abort_safely-Post idle p s n = idle-Post s n

    pub suppress-Post :
        (f : Method W (Unit {0})) (s : Runtime W)
        → Stays m h J (f s)
        → Post (λ _. Near m h J) (λ _. ⊥) IsGuarded (suppress f s)
    unfolding suppress
    suppress-Post f s p =
        handle-Post (f s) (λ e. pure tt) cancel p (λ e t q. record { after = q })
          (λ t q. record { after = q })

  forget-Near : {J : Content} (s : Runtime W) → Near m h J s → Near m h Any (forget_meeting env s)
  unfolding forget_meeting
  forget-Near s n = record {
    mode_is = n.mode_is;
    guard = n.guard;
    meeting_is = n.meeting_is;
    content = tt;
  }

  pub any : {J : Content} (s : Runtime W) → Near m h J s → Near m h Any s
  any s n = Near-weaken s (λ i p x. tt) n

  pub deactivate-Any :
      (target : RuntimeMode) (s : Runtime W)
      → Near m h Any s
      → Stays m h Any (deactivate_target env target s)
  unfolding deactivate_target
  deactivate-Any assistant s n = stop_interaction-Post s n
  deactivate-Any subtitles s n =
      choose-Post (λ s. s.has_subtitles) (call env.deactivate_capture) (pure tt) s
        (λ e. call-Post env.deactivate_capture s n) (λ e. idle-Post s n)
  deactivate-Any meeting s n =
      choose-Post (λ s. s.has_meeting) (call env.interrupt >> modify (forget_meeting env)) (pure tt)
        s
        (λ e.
          next-Post (call env.interrupt s) (λ _. modify (forget_meeting env))
            (call-Post env.interrupt s n) (λ a t q. record { after = forget-Near t q }))
        (λ e. idle-Post s n)
  deactivate-Any idle s n = idle-Post s n

  unprepared-Near :
      (s : Runtime W) → Near m h Any s → Near m h Any (record s { prepared_target = none })
  unprepared-Near s n = record {
    mode_is = n.mode_is;
    guard = n.guard;
    meeting_is = n.meeting_is;
    content = tt;
  }

  abort_prepared-Any :
      (p : Prepared) (s : Runtime W) → Near m h Any s → Stays m h Any (abort_prepared env p s)
  unfolding abort_prepared
  abort_prepared-Any p s n = elim (Bool-cases p.committed) [
    | inl e ↦
        subst
          (λ b. Stays m h Any (
            (if b
                then deactivate_target env p.target
                else abort_preparation_safely env p.target p.preparation)
              s))
          (sym e) (deactivate-Any p.target s n)
    | inr e ↦
        subst
          (λ b. Stays m h Any (
            (if b
                then deactivate_target env p.target
                else abort_preparation_safely env p.target p.preparation)
              s))
          (sym e) (abort_safely-Post p.target p.preparation s n)
  ]

  abort_when-Any :
      (p : Option Prepared) (s : Runtime W)
      → Near m h Any s
      → Post (λ _. Near m h Any) (λ _. ⊥) IsGuarded (abort_when_prepared env p s)
  unfolding abort_when_prepared
  abort_when-Any none s n = record { after = n }
  abort_when-Any (some p) s n =
      handle-Post _ (λ e. pure tt) cancel
        (next-Post (abort_prepared env p s) _ (abort_prepared-Any p s n)
          (λ a t q. record { after = unprepared-Near t q }))
        (λ e t q. record { after = q }) (λ t q. record { after = q })

  pub abort_safely-Any :
      (s : Runtime W)
      → Near m h Any s
      → Post (λ _. Near m h Any) (λ _. ⊥) IsGuarded (abort_prepared_target_safely env s)
  unfolding abort_prepared_target_safely
  abort_safely-Any s n = abort_when-Any s.prepared_target s n

  pub suppressed :
      (test : Runtime W → Bool) (f : Method W (Unit {0})) (s : Runtime W)
      → Near m h Any s
      → Stays m h Any (f s)
      → Post (λ _. Near m h Any) (λ _. ⊥) IsGuarded (choose test (suppress f) (pure tt) s)
  suppressed test f s n p =
      choose-Post test (suppress f) (pure tt) s (λ e. suppress-Post f s p)
        (λ e. record { after = n })
