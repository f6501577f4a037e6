-- ===== src/Scheduler/Tasks/Slots.antt =====
-- src/sona/inference/scheduler.py: the tasks that have the slot.
use voice_realtime.Prelude.{
  ◌≡◌, refl, sym, subst, inl, inr, ℕ, ◌+◌, ◌≤◌, ◌<◌, Bool, true, false, Option, none, some, List,
  [], ◌∷◌, arith, All, All-mono, All-append, All-Member, Bool-cases, Option-cases, suc, if_cases,
  ℕ-cases,
}
use voice_realtime.Scheduler.{
  Result, ok, raise, Outcome, admitted, refused, is_admitted, is_done, remove_waiter, Scheduler,
  Waiter, WorkloadKind, Wake, admit, admit_next, submit, enqueue, new_waiter, resume_acquire,
  settle_future, refuse_all, give_up, await_outcome, awaited, release, try_acquire, set_recording,
  pause_background, resume_background, close, init,
}
use voice_realtime.Scheduler.Admission.{Admits, busy, idle, grants, admit_next-Admits}
use voice_realtime.Scheduler.Tasks.{
  Tasks, Call, acquires, resumes, releases, tries, records, fires, closes, step, run, start, fire,
  can_wake, suspend, leave, wake_task, hand_back, tried, find_task, drop_task,
}
use voice_realtime.Scheduler.Tasks.Settled.{try_acquire_cases}
use voice_realtime.Scheduler.Tasks.Counts.{
  admitted_tasks, Below, slots, drop_task-Below, remove_waiter-All, admitted_tasks-settle,
  admitted_tasks-refused, admitted_tasks-drop_task,
}

abbrev Queued : ℕ → Waiter → Type 0
Queued n w = w.sequence < n

pub record IsSafe (t : Tasks) : Type 0 where
  pub queued : All (Queued t.sched.next_sequence) t.sched.waiters
  pub tasks : Below t.sched.next_sequence t.suspended
  pub unset : (n : ℕ) → t.sched.next_sequence ≤ n → t.sched.outcome n ≡ none
  -- Leases in use, and admissions on their way, against the one slot.
  pub exclusive : t.holders + admitted_tasks t.sched.outcome t.suspended ≤ slots t.sched.active

settle-unset :
    (f : ℕ → Option Outcome) (k n : ℕ) (o : Outcome)
    → k < n
    → f n ≡ none
    → settle_future f k o n ≡ none
unfolding settle_future
settle-unset f k n o h e = ground arith

admit-IsSafe :
    (t : Tasks) (w : Waiter)
    → t.sched.active ≡ false
    → w.sequence < t.sched.next_sequence
    → IsSafe t
    → IsSafe (record t { sched = admit t.sched w })
unfolding admit
admit-IsSafe t w free fresh v = record {
  queued = remove_waiter-All (Queued t.sched.next_sequence) w t.sched.waiters v.queued;
  tasks = v.tasks;
  unset = λ n h. settle_unset n h;
  exclusive = ground (
    arith,
    v.exclusive,
    admitted_tasks-settle t.sched.outcome w.sequence t.sched.next_sequence t.suspended v.tasks,
  );
}
  where
    settle_unset :
        (n : ℕ)
        → t.sched.next_sequence ≤ n
        → settle_future t.sched.outcome w.sequence admitted n ≡ none
    settle_unset n h = ground (arith, v.unset n h)

queued-IsSafe :
    (t : Tasks) (k : WorkloadKind) (p c : Option ℕ)
    → IsSafe t
    → IsSafe (record t {
      sched = enqueue t.sched (new_waiter t.sched k p c);
      suspended = new_waiter t.sched k p c ∷ t.suspended;
    })
unfolding enqueue new_waiter admitted_tasks is_admitted
queued-IsSafe t k p c v = record {
  queued =
      All-append _ t.sched.waiters (new_waiter t.sched k p c ∷ [])
        (All-mono (Queued t.sched.next_sequence) (Queued (t.sched.next_sequence + 1))
          (λ w h. omega arith) t.sched.waiters v.queued)
        (omega arith, tt);
  tasks = (omega arith, v.tasks);
  unset = λ n h. v.unset n (omega arith);
  exclusive = ground (arith, v.exclusive, v.unset t.sched.next_sequence);
}

Admits-IsSafe :
    (t : Tasks) {r : Scheduler} → Admits t.sched r → IsSafe t → IsSafe (record t { sched = r })
Admits-IsSafe t (busy e) v = v
Admits-IsSafe t (idle e) v = v
Admits-IsSafe t (grants w a c m e least) v = granted
  where
    fresh : w.sequence < t.sched.next_sequence
    fresh = All-Member (Queued t.sched.next_sequence) t.sched.waiters v.queued m

    granted : IsSafe (record t { sched = admit t.sched w })
    granted = admit-IsSafe t w a fresh v

-- The state before the last `_admit_next` of a call is enough.
admit_next-IsSafe : (t : Tasks) → IsSafe t → IsSafe (record t { sched = admit_next t.sched })
admit_next-IsSafe t v = Admits-IsSafe t (admit_next-Admits t.sched) v

submit-IsSafe :
    (t : Tasks) (k : WorkloadKind) (p c : Option ℕ)
    → IsSafe t
    → IsSafe (suspend t (submit t.sched k p c))
unfolding suspend submit
submit-IsSafe t k p c v =
    if_cases (λ r. IsSafe (suspend t r)) t.sched.closed (λ _. v)
      (λ _.
        admit_next-IsSafe
          (record t {
            sched = enqueue t.sched (new_waiter t.sched k p c);
            suspended = new_waiter t.sched k p c ∷ t.suspended;
          })
          (queued-IsSafe t k p c v))

pub await_outcome-ok :
    (s : Scheduler) (w : Waiter) (wake : Wake) (u : Unit {0})
    → await_outcome s w wake ≡ ok u
    → is_admitted (s.outcome w.sequence) ≡ true
unfolding await_outcome awaited is_admitted
await_outcome-ok s w wake u e = ground arith

dropped-IsSafe :
    (t : Tasks) (w : Waiter)
    → find_task w.sequence t.suspended ≡ some w
    → IsSafe t
    → IsSafe (record t { suspended = drop_task w.sequence t.suspended })
dropped-IsSafe t w e v = record {
  queued = v.queued;
  tasks = drop_task-Below w.sequence t.sched.next_sequence t.suspended v.tasks;
  unset = v.unset;
  exclusive =
      let n = (admitted_tasks-drop_task t.sched.outcome w.sequence t.suspended e).1 in
      omega (arith, v.exclusive);
}

give_up-IsSafe :
    (t : Tasks) (w : Waiter) → IsSafe t → IsSafe (record t { sched = give_up t.sched w })
unfolding give_up
give_up-IsSafe t w v =
    if_cases (λ s. IsSafe (record t { sched = s })) (is_admitted (t.sched.outcome w.sequence))
      (λ _. v)
      (λ _.
        admit_next-IsSafe
          (record t { sched = record t.sched { waiters = remove_waiter w t.sched.waiters } })
          (record {
            queued = remove_waiter-All (Queued t.sched.next_sequence) w t.sched.waiters v.queued;
            tasks = v.tasks;
            unset = v.unset;
            exclusive = v.exclusive;
          }))

acquired-IsSafe :
    (t : Tasks) (w : Waiter)
    → find_task w.sequence t.suspended ≡ some w
    → is_admitted (t.sched.outcome w.sequence) ≡ true
    → IsSafe t
    → IsSafe (record t { suspended = drop_task w.sequence t.suspended; holders = t.holders + 1 })
acquired-IsSafe t w e a v = record {
  queued = v.queued;
  tasks = drop_task-Below w.sequence t.sched.next_sequence t.suspended v.tasks;
  unset = v.unset;
  exclusive =
      ground
        (arith, v.exclusive, admitted_tasks-drop_task t.sched.outcome w.sequence t.suspended e);
}

leave-IsSafe :
    (t : Tasks) (w : Waiter) (wake : Wake)
    → find_task w.sequence t.suspended ≡ some w
    → IsSafe t
    → IsSafe (leave t w.sequence (resume_acquire t.sched w wake))
unfolding leave resume_acquire
leave-IsSafe t w wake found v = split (await_outcome t.sched w wake) refl
  where
    split :
        (r : Result (Unit {0}))
        → await_outcome t.sched w wake ≡ r
        → IsSafe (leave t w.sequence (resume_acquire t.sched w wake))
    split (ok u) e =
        rw (e, resume_acquire, leave)
          (acquired-IsSafe t w found (await_outcome-ok t.sched w wake u e) v)
    split (raise x) e =
        rw (e, resume_acquire, leave)
          (give_up-IsSafe (record t { suspended = drop_task w.sequence t.suspended }) w
            (dropped-IsSafe t w found v))

wake_task-IsSafe :
    (t : Tasks) (w : Waiter) (n : ℕ) (wake : Wake)
    → find_task n t.suspended ≡ some w
    → IsSafe t
    → IsSafe (wake_task t w wake)
unfolding wake_task
wake_task-IsSafe t w n wake found v =
    if_cases IsSafe (can_wake t.sched w wake) (λ _. leave-IsSafe t w wake here v) (λ _. v)
  where
    same : w.sequence ≡ n
    same = (admitted_tasks-drop_task t.sched.outcome n t.suspended found).0

    here : find_task w.sequence t.suspended ≡ some w
    here = subst (λ m. find_task m t.suspended ≡ some w) (sym same) found

release-IsSafe :
    (t : Tasks) (n : ℕ) → t.holders ≡ suc n → IsSafe t → IsSafe (hand_back t n (release t.sched))
unfolding hand_back release
release-IsSafe t n e v =
    if_cases (λ r. IsSafe (hand_back t n r)) t.sched.active
      (λ a.
        admit_next-IsSafe
          (record t {
            sched = record t.sched { active = false; active_workload = none };
            holders = n;
          })
          (record {
            queued = v.queued;
            tasks = v.tasks;
            unset = v.unset;
            exclusive = ground (arith, v.exclusive);
          }))
      (λ _. v)

tried-IsSafe : (t : Tasks) (k : WorkloadKind) → IsSafe t → IsSafe (tried t (try_acquire t.sched k))
unfolding tried
tried-IsSafe t k v = elim (try_acquire_cases t.sched k) [
  | inl e ↦ rw (e, tried) v
  | inr (free, _, e) ↦
      rw (e, tried)
        (record {
          queued = v.queued;
          tasks = v.tasks;
          unset = v.unset;
          exclusive = ground (arith, v.exclusive);
        })
]

set_recording-IsSafe :
    (t : Tasks) (on : Bool) → IsSafe t → IsSafe (record t { sched = set_recording t.sched on })
unfolding set_recording pause_background resume_background
set_recording-IsSafe t true v = record {
  queued = v.queued;
  tasks = v.tasks;
  unset = v.unset;
  exclusive = v.exclusive;
}
set_recording-IsSafe t false v =
    admit_next-IsSafe (record t { sched = record t.sched { background_paused = false } })
      (record { queued = v.queued; tasks = v.tasks; unset = v.unset; exclusive = v.exclusive })

pub refuse_all_lem :
    (ws us : List Waiter) (f : ℕ → Option Outcome)
    → admitted_tasks (refuse_all ws f) us ≤ admitted_tasks f us
unfolding refuse_all
refuse_all_lem [] us f = omega arith
refuse_all_lem (w ∷ ws) us f = elim (Bool-cases (is_done (f w.sequence))) [
  | inl e ↦ rw (e, refuse_all) (refuse_all_lem ws us f)
  | inr e ↦
      rw (e, refuse_all)
        (omega (
          arith,
          refuse_all_lem ws us (settle_future f w.sequence refused),
          admitted_tasks-refused f w.sequence us,
        ))
]

refuse_all-unset :
    (n k : ℕ) (ws : List Waiter) (f : ℕ → Option Outcome)
    → All (Queued n) ws
    → n ≤ k
    → f k ≡ none
    → refuse_all ws f k ≡ none
unfolding refuse_all
refuse_all-unset n k [] f q h e = e
refuse_all-unset n k (w ∷ ws) f q h e = refuse_all-unset n k ws _ q.1 h (
    if_cases (λ (g : ℕ → Option Outcome). g k ≡ none) (is_done (f w.sequence)) (λ _. e)
      (λ _. settle-unset f w.sequence k refused (omega (arith, q.0)) e))

close-IsSafe : (t : Tasks) → IsSafe t → IsSafe (record t { sched = close t.sched })
unfolding close
close-IsSafe t v = record {
  queued = tt;
  tasks = v.tasks;
  unset = λ n h.
      refuse_all-unset t.sched.next_sequence n t.sched.waiters t.sched.outcome v.queued h
        (v.unset n h);
  exclusive =
      omega (arith, refuse_all_lem t.sched.waiters t.suspended t.sched.outcome, v.exclusive);
}

-- Every call keeps the leases in use and the admissions on their way within the one slot.
pub step-IsSafe : (t : Tasks) (c : Call) → IsSafe t → IsSafe (step t c)
unfolding step fire
step-IsSafe t (acquires k p c) v = submit-IsSafe t k p c v
step-IsSafe t (resumes n wake) v = elim (Option-cases (find_task n t.suspended)) [
  | inl e ↦ rw (e, step) v
  | inr (w, e) ↦ rw (e, step) (wake_task-IsSafe t w n wake e v)
]
step-IsSafe t releases v = elim (ℕ-cases t.holders) [
  | inl e ↦ rw (e, step) v
  | inr (n, e) ↦ rw (e, step) (release-IsSafe t n e v)
]
step-IsSafe t (tries k) v = tried-IsSafe t k v
step-IsSafe t (records on) v = set_recording-IsSafe t on v
step-IsSafe t (fires e) v = record {
  queued = v.queued;
  tasks = v.tasks;
  unset = v.unset;
  exclusive = v.exclusive;
}
step-IsSafe t closes v = close-IsSafe t v

run-IsSafe : (t : Tasks) (cs : List Call) → IsSafe t → IsSafe (run t cs)
unfolding run
run-IsSafe t [] v = v
run-IsSafe t (c ∷ cs) v = run-IsSafe (step t c) cs (step-IsSafe t c v)

pub start-IsSafe : (fired : ℕ → Bool) → IsSafe (start (init fired))
unfolding start init admitted_tasks
start-IsSafe fired = record {
  queued = tt;
  tasks = tt;
  unset = λ n h. refl;
  exclusive = omega arith;
}

-- After any interleaving of calls from the start, at most one task holds a lease, and none does
-- while the slot is free.
pub run-start-holders :
    (fired : ℕ → Bool) (cs : List Call)
    → (run (start (init fired)) cs).holders ≤ slots (run (start (init fired)) cs).sched.active
run-start-holders fired cs =
    omega (arith, (run-IsSafe (start (init fired)) cs (start-IsSafe fired)).exclusive)
