-- ===== src/Scheduler/Tasks/Leak.antt =====
-- src/sona/inference/scheduler.py: a task that is cancelled between its admission and its next
-- turn. `acquire` raises, the lease is never entered, and nothing releases the slot.
use voice_realtime.Prelude.{
  ◌≡◌, refl, inl, inr, ◌≢◌, ℕ, ◌+◌, Bool, true, false, Option, some, List, [], ◌∷◌, arith,
  Option-cases, if_cases, sym, subst,
}
use voice_realtime.Scheduler.{
  Result, ok, raise, admitted, is_admitted, Scheduler, Waiter, WorkloadKind, Wake, interrupted,
  admit_next, submit, enqueue, new_waiter, resume_acquire, give_up, await_outcome, try_acquire,
  set_recording, pause_background, resume_background, close, remove_waiter,
}
use voice_realtime.Scheduler.Tasks.{
  Tasks, Call, acquires, resumes, releases, tries, records, fires, closes, step, run, fire,
  can_wake, suspend, leave, wake_task, tried, find_task, drop_task,
}
use voice_realtime.Scheduler.Tasks.Counts.{admitted_tasks, admitted_tasks-drop_task}
use voice_realtime.Scheduler.Tasks.Settled.{try_acquire_cases}
use voice_realtime.Scheduler.Tasks.Slots.{IsSafe, step-IsSafe, await_outcome-ok, refuse_all_lem}

-- The slot is taken, and no task has it or is about to.
pub record IsLeaked (t : Tasks) : Type 0 where
  pub taken : t.sched.active ≡ true
  pub unheld : t.holders ≡ 0
  pub unowed : admitted_tasks t.sched.outcome t.suspended ≡ 0

-- The cancellation of a task that has just been admitted leaks the slot.
interrupted-IsLeaked :
    (t : Tasks) (n : ℕ) (w : Waiter)
    → IsSafe t
    → find_task n t.suspended ≡ some w
    → t.sched.outcome n ≡ some admitted
    → IsLeaked (step t (resumes n interrupted))
unfolding step wake_task can_wake leave resume_acquire await_outcome give_up is_admitted
interrupted-IsLeaked t n w v found e =
    rw (found, step)
      (rw (its_outcome, give_up)
        (record {
          taken = ground (arith, counted, v.exclusive);
          unheld = ground (arith, counted, v.exclusive);
          unowed = rw same (ground (arith, counted, v.exclusive));
        }))
  where
    same : w.sequence ≡ n
    same = (admitted_tasks-drop_task t.sched.outcome n t.suspended found).0

    its_outcome : t.sched.outcome w.sequence ≡ some admitted
    its_outcome = rw same e

    counted :
        admitted_tasks t.sched.outcome (drop_task n t.suspended) + 1
        ≡ admitted_tasks t.sched.outcome t.suspended
    counted = ground (arith, (admitted_tasks-drop_task t.sched.outcome n t.suspended found).1)

admit_next_taken : (s : Scheduler) → s.active ≡ true → admit_next s ≡ s
unfolding admit_next
admit_next_taken s e = rw (e, admit_next) refl

-- A step that leaves the taken slot and the tasks' outcomes alone keeps the leak.
abbrev Lost : Tasks → Type 0
Lost t = IsSafe t × IsLeaked t

submit-IsLeaked :
    (t : Tasks) (k : WorkloadKind) (p c : Option ℕ)
    → Lost t
    → IsLeaked (suspend t (submit t.sched k p c))
unfolding suspend submit enqueue new_waiter admitted_tasks is_admitted
submit-IsLeaked t k p c (v, l) =
    if_cases (λ r. IsLeaked (suspend t r)) t.sched.closed (λ _. l)
      (λ _.
        subst
          (λ s.
            IsLeaked (record t { sched = s; suspended = new_waiter t.sched k p c ∷ t.suspended }))
          (sym (admit_next_taken (enqueue t.sched (new_waiter t.sched k p c)) l.taken))
          (record {
            taken = l.taken;
            unheld = l.unheld;
            unowed = ground (arith, v.unset t.sched.next_sequence, l.unowed);
          }))

give_up_taken : (s : Scheduler) (w : Waiter) → s.active ≡ true → (give_up s w).active ≡ true
unfolding give_up
give_up_taken s w e =
    if_cases (λ (r : Scheduler). r.active ≡ true) (is_admitted (s.outcome w.sequence)) (λ _. e)
      (λ _. rw (admit_next_taken (record s { waiters = remove_waiter w s.waiters }) e) e)

give_up_outcome : (s : Scheduler) (w : Waiter) → s.active ≡ true → (give_up s w).outcome ≡ s.outcome
unfolding give_up
give_up_outcome s w e =
    if_cases (λ (r : Scheduler). r.outcome ≡ s.outcome) (is_admitted (s.outcome w.sequence))
      (λ _. refl)
      (λ _. rw (admit_next_taken (record s { waiters = remove_waiter w s.waiters }) e) refl)

wake_task-IsLeaked :
    (t : Tasks) (n : ℕ) (w : Waiter) (wake : Wake)
    → find_task n t.suspended ≡ some w
    → IsLeaked t
    → IsLeaked (wake_task t w wake)
unfolding wake_task leave resume_acquire
wake_task-IsLeaked t n w wake found l =
    if_cases IsLeaked (can_wake t.sched w wake) (λ _. split (await_outcome t.sched w wake) refl)
      (λ _. l)
  where
    same : w.sequence ≡ n
    same = (admitted_tasks-drop_task t.sched.outcome n t.suspended found).0

    dropped : admitted_tasks t.sched.outcome (drop_task w.sequence t.suspended) ≡ 0
    dropped =
        rw same (
          omega (arith, l.unowed, (admitted_tasks-drop_task t.sched.outcome n t.suspended found).1))

    not_admitted : is_admitted (t.sched.outcome w.sequence) ≢ true
    not_admitted e =
        ground (arith, same, l.unowed, admitted_tasks-drop_task t.sched.outcome n t.suspended found)

    split :
        (r : Result (Unit {0}))
        → await_outcome t.sched w wake ≡ r
        → IsLeaked (leave t w.sequence (resume_acquire t.sched w wake))
    split (ok u) e = absurd (not_admitted (await_outcome-ok t.sched w wake u e))
    split (raise x) e =
        rw (e, resume_acquire, leave)
          (record {
            taken = give_up_taken t.sched w l.taken;
            unheld = l.unheld;
            unowed = rw (give_up_outcome t.sched w l.taken) dropped;
          })

tried-IsLeaked :
    (t : Tasks) (k : WorkloadKind) → IsLeaked t → IsLeaked (tried t (try_acquire t.sched k))
unfolding tried
tried-IsLeaked t k l = elim (try_acquire_cases t.sched k) [
  | inl e ↦ rw (e, tried) l
  | inr (free, _, _) ↦ absurd (ground (arith, l.taken))
]

set_recording-IsLeaked :
    (t : Tasks) (on : Bool) → IsLeaked t → IsLeaked (record t { sched = set_recording t.sched on })
unfolding set_recording pause_background resume_background
set_recording-IsLeaked t true l = record { taken = l.taken; unheld = l.unheld; unowed = l.unowed }
set_recording-IsLeaked t false l =
    subst (λ s. IsLeaked (record t { sched = s }))
      (sym (admit_next_taken (record t.sched { background_paused = false }) l.taken))
      (record { taken = l.taken; unheld = l.unheld; unowed = l.unowed })

step-IsLeaked : (t : Tasks) (c : Call) → Lost t → IsLeaked (step t c)
unfolding step fire close
step-IsLeaked t (acquires k p c) v = submit-IsLeaked t k p c v
step-IsLeaked t (resumes n wake) (_, l) = elim (Option-cases (find_task n t.suspended)) [
  | inl e ↦ rw (e, step) l
  | inr (w, e) ↦ rw (e, step) (wake_task-IsLeaked t n w wake e l)
]
step-IsLeaked t releases (_, l) = rw (l.unheld, step) l
step-IsLeaked t (tries k) (_, l) = tried-IsLeaked t k l
step-IsLeaked t (records on) (_, l) = set_recording-IsLeaked t on l
step-IsLeaked t (fires e) (_, l) = record { taken = l.taken; unheld = l.unheld; unowed = l.unowed }
step-IsLeaked t closes (_, l) = record {
  taken = l.taken;
  unheld = l.unheld;
  unowed = omega (arith, refuse_all_lem t.sched.waiters t.suspended t.sched.outcome, l.unowed);
}

run-IsLeaked : (t : Tasks) (cs : List Call) → Lost t → IsLeaked (run t cs)
unfolding run
run-IsLeaked t [] (_, l) = l
run-IsLeaked t (c ∷ cs) (v, l) =
    run-IsLeaked (step t c) cs (step-IsSafe t c v, step-IsLeaked t c (v, l))

-- If a task is cancelled after it was admitted and before it runs again, then from that moment on,
-- whatever is called, the slot stays taken and no task ever holds a lease.
pub interrupted_leaks :
    (t : Tasks) (n : ℕ) (w : Waiter) (cs : List Call)
    → IsSafe t
    → find_task n t.suspended ≡ some w
    → t.sched.outcome n ≡ some admitted
    → ((run (step t (resumes n interrupted)) cs).sched.active ≡ true)
      × ((run (step t (resumes n interrupted)) cs).holders ≡ 0)
interrupted_leaks t n w cs v found e =
    let l =
      run-IsLeaked (step t (resumes n interrupted)) cs
        (step-IsSafe t (resumes n interrupted) v, interrupted-IsLeaked t n w v found e) in
    (l.taken, l.unheld)
