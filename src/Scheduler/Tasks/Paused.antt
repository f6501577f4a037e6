-- ===== src/Scheduler/Tasks/Paused.antt =====
-- src/sona/inference/scheduler.py: summaries while a recording has paused the background.
use voice_realtime.Prelude.{
  ◌≡◌, ◌≢◌, refl, inl, inr, true, false, Option, none, some, arith, Option-cases, if_cases, ℕ-cases,
  ℕ,
}
use voice_realtime.Scheduler.{
  Result, ok, raise, is_admitted, is_paused, is_eligible, summary, Scheduler, Waiter, WorkloadKind,
  Wake, admit, admit_next, submit, enqueue, new_waiter, resume_acquire, give_up, await_outcome,
  release, try_acquire, set_recording, pause_background, close, remove_waiter,
}
use voice_realtime.Scheduler.Admission.{Admits, busy, idle, grants, admit_next-Admits}
use voice_realtime.Scheduler.Tasks.{
  Tasks, Call, acquires, resumes, releases, tries, records, fires, closes, step, fire, can_wake,
  suspend, wake_task, hand_back, tried, find_task,
}
use voice_realtime.Scheduler.Tasks.Settled.{try_acquire_cases, leave-sched}

pub record IsQuiet (s : Scheduler) : Type 0 where
  pub paused : s.background_paused ≡ true
  pub quiet : s.active_workload ≢ some summary

eligible_not_summary :
    (s : Scheduler) (w : Waiter)
    → s.background_paused ≡ true
    → is_eligible s w ≡ true
    → w.workload ≢ summary
unfolding is_eligible is_paused
eligible_not_summary s w p e k = ground arith

Admits-IsQuiet : {s r : Scheduler} → Admits s r → IsQuiet s → IsQuiet r
unfolding admit
Admits-IsQuiet (busy e) q = q
Admits-IsQuiet (idle e) q = q
Admits-IsQuiet {s} (grants w a c m e least) q = record {
  paused = q.paused;
  quiet = λ k. eligible_not_summary s w q.paused e (cc);
}

admit_next-IsQuiet : (s : Scheduler) → IsQuiet s → IsQuiet (admit_next s)
admit_next-IsQuiet s q = Admits-IsQuiet (admit_next-Admits s) q

submit-IsQuiet :
    (t : Tasks) (k : WorkloadKind) (p c : Option ℕ)
    → IsQuiet t.sched
    → IsQuiet (suspend t (submit t.sched k p c)).sched
unfolding suspend submit enqueue
submit-IsQuiet t k p c q =
    if_cases (λ r. IsQuiet (suspend t r).sched) t.sched.closed (λ _. q)
      (λ _.
        admit_next-IsQuiet (enqueue t.sched (new_waiter t.sched k p c))
          (record { paused = q.paused; quiet = q.quiet }))

give_up-IsQuiet : (s : Scheduler) (w : Waiter) → IsQuiet s → IsQuiet (give_up s w)
unfolding give_up
give_up-IsQuiet s w q =
    if_cases IsQuiet (is_admitted (s.outcome w.sequence)) (λ _. q)
      (λ _.
        admit_next-IsQuiet (record s { waiters = remove_waiter w s.waiters })
          (record { paused = q.paused; quiet = q.quiet }))

resume_acquire-IsQuiet :
    (s : Scheduler) (w : Waiter) (wake : Wake) → IsQuiet s → IsQuiet (resume_acquire s w wake).1
unfolding resume_acquire
resume_acquire-IsQuiet s w wake q = split (await_outcome s w wake) refl
  where
    split :
        (r : Result (Unit {0})) → await_outcome s w wake ≡ r → IsQuiet (resume_acquire s w wake).1
    split (ok u) e = rw (e, resume_acquire) q
    split (raise x) e = rw (e, resume_acquire) (give_up-IsQuiet s w q)

wake_task-IsQuiet :
    (t : Tasks) (w : Waiter) (wake : Wake) → IsQuiet t.sched → IsQuiet (wake_task t w wake).sched
unfolding wake_task
wake_task-IsQuiet t w wake q =
    if_cases (λ (u : Tasks). IsQuiet u.sched) (can_wake t.sched w wake)
      (λ _. rw leave-sched (resume_acquire-IsQuiet t.sched w wake q)) (λ _. q)

release-IsQuiet :
    (t : Tasks) (n : ℕ) → IsQuiet t.sched → IsQuiet (hand_back t n (release t.sched)).sched
unfolding hand_back release
release-IsQuiet t n q =
    if_cases (λ r. IsQuiet (hand_back t n r).sched) t.sched.active
      (λ _.
        admit_next-IsQuiet (record t.sched { active = false; active_workload = none })
          (record { paused = q.paused; quiet = λ e. cc }))
      (λ _. q)

tried-IsQuiet :
    (t : Tasks) (k : WorkloadKind)
    → IsQuiet t.sched
    → IsQuiet (tried t (try_acquire t.sched k)).sched
unfolding tried is_paused
tried-IsQuiet t k q = elim (try_acquire_cases t.sched k) [
  | inl e ↦ rw (e, tried) q
  | inr (_, running, e) ↦
      rw (e, tried) (record { paused = q.paused; quiet = λ k'. ground (arith, q.paused) })
]

-- While the background is paused and no summary runs, no call but the end of the recording lets a
-- summary have the slot or ends the pause.
pub step-IsQuiet :
    (t : Tasks) (c : Call) → c ≢ records false → IsQuiet t.sched → IsQuiet (step t c).sched
unfolding step fire close set_recording pause_background
step-IsQuiet t (acquires k p c) h q = submit-IsQuiet t k p c q
step-IsQuiet t (resumes n wake) h q = elim (Option-cases (find_task n t.suspended)) [
  | inl e ↦ rw (e, step) q
  | inr (w, e) ↦ rw (e, step) (wake_task-IsQuiet t w wake q)
]
step-IsQuiet t releases h q = elim (ℕ-cases t.holders) [
  | inl e ↦ rw (e, step) q
  | inr (n, e) ↦ rw (e, step) (release-IsQuiet t n q)
]
step-IsQuiet t (tries k) h q = tried-IsQuiet t k q
step-IsQuiet t (records true) h q = record { paused = refl; quiet = q.quiet }
step-IsQuiet t (records false) h q = absurd (h refl)
step-IsQuiet t (fires e) h q = record { paused = q.paused; quiet = q.quiet }
step-IsQuiet t closes h q = record { paused = q.paused; quiet = q.quiet }
