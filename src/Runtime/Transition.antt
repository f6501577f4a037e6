-- ===== src/Runtime/Transition.antt =====
-- src/sona/meeting/runtime_mode.py: `_switch_workload`.
use voice_realtime.Prelude.{ℕ, true, false, Option, none, some, if◌then◌else◌}
use voice_realtime.Runtime.State.{
  RuntimeMode, owner_for_mode, Error, Workloads, Method, pure, fail, cancel, attempt, ◌>>=◌, ◌>>◌,
  modify, choose,
}
use voice_realtime.Runtime.Steps.{
  abort_target, commit_state, is_closing, is_idle, prepared_is, set_transition_barrier,
}
use voice_realtime.Runtime.Restoring.{
  force_idle, force_idle_state, quiesce_source, recover_source_or_force_idle, restore_and_commit,
}

module _ {W : Type 0} (env : Workloads W) where
  module _ {A : Type 0} (target source : RuntimeMode) (commit : ℕ → Method W A) where
    -- The `try` of `_switch_workload`.
    unfoldable pub switch_body : ℕ → Method W A
    switch_body p = do
      modify (prepared_is target p false)
      (if is_idle source then pure tt else set_transition_barrier env)
      quiesce_source env source
      result ← commit p
      modify (prepared_is target p true)
      commit_state env target (owner_for_mode target)
      modify (λ s. record s { prepared_target = none })
      pure result

    -- What is done once the target is aborted, with its exception if it raised one.
    unfoldable pub after_error : Error → Option Error → Method W A
    after_error e (some x) = force_idle env
    after_error e none = do recover_source_or_force_idle env source; fail e

    unfoldable pub after_cancel : Option Error → Method W A
    after_cancel (some x) = do force_idle_state env; cancel
    after_cancel none = do
      attempt (restore_and_commit env source) (λ e. force_idle_state env) cancel
      cancel

    unfoldable pub on_error : ℕ → Error → Method W A
    on_error p e = do x ← abort_target env target p; after_error e x

    unfoldable pub on_cancel : ℕ → Method W A
    on_cancel p = do x ← abort_target env target p; choose (is_closing env) cancel (after_cancel x)

    -- `_switch_workload`, with what it prepares and the result of its commit.
    unfoldable pub switch_workload : Method W ℕ → Method W (ℕ × A)
    switch_workload prepare = do
      p ← prepare
      result ← attempt (switch_body p) (on_error p) (on_cancel p)
      pure (p, result)
