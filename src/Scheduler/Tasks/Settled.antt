-- ===== src/Scheduler/Tasks/Settled.antt =====
-- src/sona/inference/scheduler.py: the free slot and those that wait for it.
use voice_realtime.Prelude.{
  ◌≡◌, refl, ◌⊎◌, inl, inr, ℕ, Bool, true, false, ◌||◌, Option, none, some, List, [], ◌∷◌, arith,
  All, All-mono, Option-cases, ℕ-cases, if_cases,
}
use voice_realtime.Scheduler.{
  Result, is_paused, is_admitted, remove_waiter, Scheduler, Waiter, WorkloadKind, Wake, ok, raise,
  is_eligible, admit, admit_next, submit, enqueue, new_waiter, resume_acquire, give_up,
  await_outcome, release, try_acquire, set_recording, pause_background, resume_background, close,
  init,
}
use voice_realtime.Scheduler.Admission.{Admits, busy, idle, grants, admit_next-Admits}
use voice_realtime.Scheduler.Tasks.{
  Tasks, Call, acquires, resumes, releases, tries, records, fires, closes, step, run, start, fire,
  can_wake, suspend, leave, wake_task, hand_back, tried, find_task,
}

-- The slot is taken, the scheduler is closed, or nobody in the queue could have it.
abbrev pub IsSettled : Scheduler → Type 0
IsSettled s = ((s.active || s.closed) ≡ true) ⊎ All (λ w. is_eligible s w ≡ false) s.waiters

Admits-IsSettled : {s r : Scheduler} → Admits s r → IsSettled r
unfolding admit
Admits-IsSettled (busy e) = inl e
Admits-IsSettled (idle e) = inr e
Admits-IsSettled (grants w a c m e least) = inl refl

pub admit_next-IsSettled : (s : Scheduler) → IsSettled (admit_next s)
admit_next-IsSettled s = Admits-IsSettled (admit_next-Admits s)

paused_eligible :
    (s : Scheduler) (w : Waiter)
    → is_eligible s w ≡ false
    → is_eligible (record s { background_paused = true }) w ≡ false
unfolding is_eligible
paused_eligible s w h = ground arith

set_recording-IsSettled : (s : Scheduler) (on : Bool) → IsSettled s → IsSettled (set_recording s on)
unfolding set_recording pause_background resume_background
set_recording-IsSettled s false h = admit_next-IsSettled (record s { background_paused = false })
set_recording-IsSettled s true (inl e) = inl e
set_recording-IsSettled s true (inr none_fit) =
    inr (All-mono _ _ (paused_eligible s) s.waiters none_fit)

fired_eligible :
    (s : Scheduler) (e : ℕ) (w : Waiter)
    → is_eligible s w ≡ false
    → is_eligible (fire s e) w ≡ false
unfolding is_eligible fire
fired_eligible s e w h = ground arith

fire-IsSettled : (s : Scheduler) (e : ℕ) → IsSettled s → IsSettled (fire s e)
unfolding fire
fire-IsSettled s e (inl h) = inl h
fire-IsSettled s e (inr none_fit) = inr (All-mono _ _ (fired_eligible s e) s.waiters none_fit)

close-IsSettled : (s : Scheduler) → IsSettled (close s)
unfolding close
close-IsSettled s = inl (ground arith)

submit-IsSettled :
    (t : Tasks) (k : WorkloadKind) (p c : Option ℕ)
    → IsSettled t.sched
    → IsSettled (suspend t (submit t.sched k p c)).sched
unfolding suspend submit
submit-IsSettled t k p c h =
    if_cases (λ r. IsSettled (suspend t r).sched) t.sched.closed (λ _. h)
      (λ _. admit_next-IsSettled (enqueue t.sched (new_waiter t.sched k p c)))

give_up-IsSettled : (s : Scheduler) (w : Waiter) → IsSettled s → IsSettled (give_up s w)
unfolding give_up
give_up-IsSettled s w h =
    if_cases IsSettled (is_admitted (s.outcome w.sequence)) (λ _. h)
      (λ _. admit_next-IsSettled (record s { waiters = remove_waiter w s.waiters }))

resume_acquire-IsSettled :
    (s : Scheduler) (w : Waiter) (wake : Wake) → IsSettled s → IsSettled (resume_acquire s w wake).1
unfolding resume_acquire
resume_acquire-IsSettled s w wake h = split (await_outcome s w wake) refl
  where
    split :
        (r : Result (Unit {0})) → await_outcome s w wake ≡ r → IsSettled (resume_acquire s w wake).1
    split (ok u) e = rw (e, resume_acquire) h
    split (raise x) e = rw (e, resume_acquire) (give_up-IsSettled s w h)

pub leave-sched :
    (t : Tasks) (n : ℕ) (r : Result (Unit {0}) × Scheduler) → (leave t n r).sched ≡ r.1
unfolding leave
leave-sched t n (ok u, s) = refl
leave-sched t n (raise e, s) = refl

wake_task-IsSettled :
    (t : Tasks) (w : Waiter) (wake : Wake)
    → IsSettled t.sched
    → IsSettled (wake_task t w wake).sched
unfolding wake_task
wake_task-IsSettled t w wake h =
    if_cases (λ (u : Tasks). IsSettled u.sched) (can_wake t.sched w wake)
      (λ _. rw leave-sched (resume_acquire-IsSettled t.sched w wake h)) (λ _. h)

release-IsSettled :
    (t : Tasks) (n : ℕ) → IsSettled t.sched → IsSettled (hand_back t n (release t.sched)).sched
unfolding hand_back release
release-IsSettled t n h =
    if_cases (λ r. IsSettled (hand_back t n r).sched) t.sched.active
      (λ _. admit_next-IsSettled (record t.sched { active = false; active_workload = none }))
      (λ _. h)

-- `try_acquire` takes a free slot or changes nothing.
pub try_acquire_cases :
    (s : Scheduler) (k : WorkloadKind)
    → (try_acquire s k ≡ (false, s))
      ⊎ ((s.active ≡ false)
          × (is_paused s k ≡ false)
          × (try_acquire s k ≡ (true, record s { active = true; active_workload = some k })))
unfolding try_acquire
try_acquire_cases s k = ground arith

try_acquire-IsSettled :
    (t : Tasks) (k : WorkloadKind)
    → IsSettled t.sched
    → IsSettled (tried t (try_acquire t.sched k)).sched
unfolding tried
try_acquire-IsSettled t k h = elim (try_acquire_cases t.sched k) [
  | inl e ↦ rw (e, tried) h
  | inr (_, _, e) ↦ rw (e, tried) (inl refl)
]

-- Every call keeps the scheduler settled.
pub step-IsSettled : (t : Tasks) (c : Call) → IsSettled t.sched → IsSettled (step t c).sched
unfolding step
step-IsSettled t (acquires k p c) h = submit-IsSettled t k p c h
step-IsSettled t (resumes n wake) h = elim (Option-cases (find_task n t.suspended)) [
  | inl e ↦ rw (e, step) h
  | inr (w, e) ↦ rw (e, step) (wake_task-IsSettled t w wake h)
]
step-IsSettled t releases h = elim (ℕ-cases t.holders) [
  | inl e ↦ rw (e, step) h
  | inr (n, e) ↦ rw (e, step) (release-IsSettled t n h)
]
step-IsSettled t (tries k) h = try_acquire-IsSettled t k h
step-IsSettled t (records on) h = set_recording-IsSettled t.sched on h
step-IsSettled t (fires e) h = fire-IsSettled t.sched e h
step-IsSettled t closes h = close-IsSettled t.sched

run-IsSettled : (t : Tasks) (cs : List Call) → IsSettled t.sched → IsSettled (run t cs).sched
unfolding run
run-IsSettled t [] h = h
run-IsSettled t (c ∷ cs) h = run-IsSettled (step t c) cs (step-IsSettled t c h)

-- After any interleaving of calls from the start, the slot is taken, the scheduler is closed, or
-- no queued waiter is eligible: a free slot never waits for a call that does not come.
pub run-start-IsSettled :
    (fired : ℕ → Bool) (cs : List Call) → IsSettled (run (start (init fired)) cs).sched
unfolding start init
run-start-IsSettled fired cs = run-IsSettled (start (init fired)) cs (inr tt)
