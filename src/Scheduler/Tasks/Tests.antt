-- ===== src/Scheduler/Tasks/Tests.antt =====
-- Runs of src/sona/inference/scheduler.py, and the theorems at concrete states.
use voice_realtime.Prelude.{◌≡◌, refl, ℕ, ◌≤◌, Bool, true, false, none, some, List, [], ◌∷◌}
use voice_realtime.Scheduler.{
  assistant_turn, inner_os, summary, Waiter, Scheduler, woken, interrupted, init, admit_next,
  submit, enqueue, new_waiter, precedes, least, remove_waiter, settle_future, admit, admit_least,
  is_eligible, is_done, is_paused, is_cancelled, resume_acquire, await_outcome, awaited, give_up,
  is_admitted, rank, release, try_acquire, set_recording, pause_background, resume_background,
  close, refuse_all,
}
use voice_realtime.Scheduler.Admission.{Admits, admit_next-Admits}
use voice_realtime.Scheduler.Tasks.{
  Tasks, Call, acquires, resumes, releases, records, closes, step, run, start, find_task, drop_task,
  can_wake, suspend, leave, wake_task, hand_back, tried, fire,
}
use voice_realtime.Scheduler.Tasks.Counts.{slots}
use voice_realtime.Scheduler.Tasks.Settled.{IsSettled, run-start-IsSettled}
use voice_realtime.Scheduler.Tasks.Slots.{run-start-holders, start-IsSafe, step-IsSafe}
use voice_realtime.Scheduler.Tasks.Leak.{interrupted_leaks}
use voice_realtime.Scheduler.Tasks.Paused.{IsQuiet, step-IsQuiet}

program : Unit {0}
unfolding init admit_next submit enqueue new_waiter precedes least remove_waiter settle_future admit
    admit_least is_eligible is_done is_paused is_cancelled resume_acquire await_outcome awaited
    give_up is_admitted rank release try_acquire set_recording pause_background resume_background
    close refuse_all step run start find_task drop_task can_wake suspend leave wake_task hand_back
    tried fire
program = tt

abbrev silent : ℕ → Bool
silent n = false

-- A summary has the slot; an inner query and then an assistant turn queue up behind it.
abbrev queue_up : List Call
queue_up =
    acquires summary none none
    ∷ resumes 0 woken
    ∷ acquires inner_os none none
    ∷ acquires assistant_turn none none
    ∷ []

abbrev freed : List Call
freed = acquires summary none none ∷ acquires inner_os none none ∷ records true ∷ []

-- The assistant turn goes first although it came last.
assistant_first :
    (run (run (start (init silent)) queue_up) (releases ∷ [])).sched.active_workload
    ≡ some assistant_turn
unfolding program
assistant_first = refl

holders_after : (run (start (init silent)) queue_up).holders ≡ 1
unfolding program
holders_after = refl

closed_refuses :
    (run (start (init silent)) (closes ∷ acquires summary none none ∷ [])).suspended ≡ []
unfolding program
closed_refuses = refl

abbrev queued_only : Scheduler
queued_only = enqueue (init silent) (new_waiter (init silent) inner_os none none)

admit_next-Admits_example : Admits queued_only (admit_next queued_only)
admit_next-Admits_example = admit_next-Admits queued_only

run-start-IsSettled_example : IsSettled (run (start (init silent)) queue_up).sched
run-start-IsSettled_example = run-start-IsSettled silent queue_up

run-start-holders_example :
    (run (start (init silent)) queue_up).holders
    ≤ slots (run (start (init silent)) queue_up).sched.active
run-start-holders_example = run-start-holders silent queue_up

abbrev first_waiter : Waiter
first_waiter = record { priority = 0; sequence = 0; workload = assistant_turn; cancel_event = none }

abbrev granted : Tasks
granted = step (start (init silent)) (acquires assistant_turn none none)

interrupted_leaks_example :
    ((run (step granted (resumes 0 interrupted)) queue_up).sched.active ≡ true)
    × ((run (step granted (resumes 0 interrupted)) queue_up).holders ≡ 0)
unfolding program
interrupted_leaks_example =
    interrupted_leaks granted 0 first_waiter queue_up
      (step-IsSafe (start (init silent)) (acquires assistant_turn none none) (start-IsSafe silent))
      refl refl

abbrev recording : Tasks
recording = step (start (init silent)) (records true)

step-IsQuiet_example : IsQuiet (step recording (acquires summary none none)).sched
unfolding program
step-IsQuiet_example =
    step-IsQuiet recording (acquires summary none none) (λ e. cc)
      (record { paused = refl; quiet = λ e. cc })
