-- ===== src/Scheduler/Tasks.antt =====
-- The tasks around src/sona/inference/scheduler.py: an interleaving is a list of calls. A task is
-- suspended in `acquire`, or holds a lease that it will release, as `lease` does: `step` drives the
-- methods, and lets only a holder release, since `lease` is the one caller of `release`. Each
-- `acquire` is taken to suspend, also where it does not wait in the source.
mod Counts
pub mod Settled
pub mod Slots
pub mod Leak
pub mod Paused
mod Tests
use voice_realtime.Prelude.{
  ℕ, zero, suc, ◌+◌, Bool, true, false, ◌||◌, Option, none, some, List, [], ◌∷◌, ◌==◌,
  if◌then◌else◌,
}
use voice_realtime.Scheduler.{
  Scheduler, Waiter, WorkloadKind, Wake, woken, timeout, interrupted, Result, ok, raise, Outcome,
  is_done, is_cancelled, submit, resume_acquire, release, try_acquire, set_recording, close,
}

pub record Tasks : Type 0 where
  pub sched : Scheduler
  -- Newest first.
  pub suspended : List Waiter
  pub holders : ℕ

pub data Call : Type 0 where
  acquires : WorkloadKind → Option ℕ → Option ℕ → Call
  resumes : ℕ → Wake → Call
  releases : Call
  tries : WorkloadKind → Call
  records : Bool → Call
  fires : ℕ → Call
  closes : Call

pub find_task : ℕ → List Waiter → Option Waiter
find_task n [] = none
find_task n (w ∷ ws) = if w.sequence == n then some w else find_task n ws

pub drop_task : ℕ → List Waiter → List Waiter
drop_task n [] = []
drop_task n (w ∷ ws) = if w.sequence == n then ws else w ∷ drop_task n ws

-- A task is woken only when its future is done or its event is set.
pub can_wake : Scheduler → Waiter → Wake → Bool
unfolding is_done is_cancelled
can_wake s w woken = is_done (s.outcome w.sequence) || is_cancelled s.fired w.cancel_event
can_wake s w timeout = true
can_wake s w interrupted = true

pub suspend : Tasks → Result (Waiter × Scheduler) → Tasks
suspend t (ok (w, s)) = record t { sched = s; suspended = w ∷ t.suspended }
suspend t (raise e) = t

pub leave : Tasks → ℕ → Result (Unit {0}) × Scheduler → Tasks
leave t n (ok u, s) = record {
  sched = s;
  suspended = drop_task n t.suspended;
  holders = t.holders + 1;
}
leave t n (raise e, s) = record {
  sched = s;
  suspended = drop_task n t.suspended;
  holders = t.holders;
}

pub wake_task : Tasks → Waiter → Wake → Tasks
wake_task t w wake =
    if can_wake t.sched w wake then leave t w.sequence (resume_acquire t.sched w wake) else t

pub hand_back : Tasks → ℕ → Result Scheduler → Tasks
hand_back t n (ok s) = record t { sched = s; holders = n }
hand_back t n (raise e) = t

pub tried : Tasks → Bool × Scheduler → Tasks
tried t (true, s) = record t { sched = s; holders = t.holders + 1 }
tried t (false, s) = record t { sched = s }

pub fire : Scheduler → ℕ → Scheduler
fire s e = record s { fired = λ k. if k == e then true else s.fired k }

pub step : Tasks → Call → Tasks
step t (acquires workload priority event) = suspend t (submit t.sched workload priority event)
step t (resumes n wake) = elim (find_task n t.suspended) [ none ↦ t | some w ↦ wake_task t w wake ]
step t releases = elim t.holders [ zero ↦ t | suc n ↦ hand_back t n (release t.sched) ]
step t (tries workload) = tried t (try_acquire t.sched workload)
step t (records on) = record t { sched = set_recording t.sched on }
step t (fires e) = record t { sched = fire t.sched e }
step t closes = record t { sched = close t.sched }

pub run : Tasks → List Call → Tasks
unfolding step
run t [] = t
run t (c ∷ cs) = run (step t c) cs

pub start : Scheduler → Tasks
start s = record { sched = s; suspended = []; holders = 0 }
