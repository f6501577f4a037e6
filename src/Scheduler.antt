-- ===== src/Scheduler.antt =====
-- src/sona/inference/scheduler.py: the single-slot admission of workloads that share one model.
-- The heap is the list of its entries; only their order by (priority, sequence) can be observed.
-- A waiter's future is found by its sequence number, and its `admitted` flag is set together with
-- the future's result. Cancel events belong to the callers: `fired` says which of them are set.
pub mod Tasks
pub mod Admission
use voice_realtime.Prelude.{
  ℕ, ◌+◌, Bool, true, false, ◌&&◌, ◌||◌, not, Option, none, some, List, [], ◌∷◌, ◌++◌, ltb, ◌==◌,
  if◌then◌else◌, filter,
}

pub data WorkloadKind : Type 0 where
  assistant_turn inner_os maintenance summary : WorkloadKind

-- `int(workload)`
unfoldable pub rank : WorkloadKind → ℕ
rank assistant_turn = 0
rank inner_os = 10
rank maintenance = 50
rank summary = 100

pub record Waiter : Type 0 where
  pub priority : ℕ
  pub sequence : ℕ
  pub workload : WorkloadKind
  pub cancel_event : Option ℕ

pub data Outcome : Type 0 where
  admitted refused : Outcome

pub record Scheduler : Type 0 where
  pub waiters : List Waiter
  pub next_sequence : ℕ
  pub active : Bool
  pub active_workload : Option WorkloadKind
  pub background_paused : Bool
  pub closed : Bool
  pub outcome : ℕ → Option Outcome
  pub fired : ℕ → Bool

pub data Error : Type 0 where
  scheduler_closed no_active_lease cancelled timed_out : Error

pub data Result {ℓ} (A : Type ℓ) : Type ℓ where
  ok : A → Result A
  raise : Error → Result A

pub init : (ℕ → Bool) → Scheduler
init fired = record {
  waiters = [];
  next_sequence = 0;
  active = false;
  active_workload = none;
  background_paused = false;
  closed = false;
  outcome = λ n. none;
  fired = fired;
}

pub is_paused : Scheduler → WorkloadKind → Bool
is_paused s summary = s.background_paused
is_paused s assistant_turn = false
is_paused s inner_os = false
is_paused s maintenance = false

pub is_done : Option Outcome → Bool
is_done none = false
is_done (some o) = true

pub is_cancelled : (ℕ → Bool) → Option ℕ → Bool
is_cancelled fired none = false
is_cancelled fired (some e) = fired e

-- The conditions of the comprehension in `_admit_next`.
pub is_eligible : Scheduler → Waiter → Bool
unfolding is_done is_cancelled is_paused
is_eligible s w =
    not (is_done (s.outcome w.sequence))
    && (not (is_cancelled s.fired w.cancel_event) && not (is_paused s w.workload))

-- The order of the dataclass: the compared fields are `priority` and `sequence`.
pub precedes : Waiter → Waiter → Bool
precedes a b = ltb a.priority b.priority || (a.priority == b.priority && ltb a.sequence b.sequence)

pub least : Waiter → List Waiter → Waiter
least w [] = w
least w (x ∷ xs) = least (if precedes x w then x else w) xs

-- `list.remove`: the first entry that is equal in the compared fields.
pub remove_waiter : Waiter → List Waiter → List Waiter
remove_waiter w [] = []
remove_waiter w (x ∷ xs) =
    if x.priority == w.priority && x.sequence == w.sequence then xs else x ∷ remove_waiter w xs

pub settle_future : (ℕ → Option Outcome) → ℕ → Outcome → ℕ → Option Outcome
settle_future f n o k = if k == n then some o else f k

pub admit : Scheduler → Waiter → Scheduler
unfolding settle_future
admit s w = record s {
  waiters = remove_waiter w s.waiters;
  active = true;
  active_workload = some w.workload;
  outcome = settle_future s.outcome w.sequence admitted;
}

pub admit_least : Scheduler → List Waiter → Scheduler
unfolding admit
admit_least s [] = s
admit_least s (w ∷ ws) = admit s (least w ws)

pub admit_next : Scheduler → Scheduler
unfolding admit_least
admit_next s = if s.active || s.closed then s else admit_least s (filter (is_eligible s) s.waiters)

pub pause_background : Scheduler → Scheduler
pause_background s = record s { background_paused = true }

pub resume_background : Scheduler → Scheduler
resume_background s = admit_next (record s { background_paused = false })

pub set_recording : Scheduler → Bool → Scheduler
set_recording s true = pause_background s
set_recording s false = resume_background s

abbrev pub effective_priority : WorkloadKind → Option ℕ → ℕ
effective_priority workload none = rank workload
effective_priority workload (some p) = p

pub new_waiter : Scheduler → WorkloadKind → Option ℕ → Option ℕ → Waiter
new_waiter s workload priority cancel_event = record {
  priority = effective_priority workload priority;
  sequence = s.next_sequence;
  workload = workload;
  cancel_event = cancel_event;
}

pub enqueue : Scheduler → Waiter → Scheduler
enqueue s w = record s { waiters = s.waiters ++ w ∷ []; next_sequence = s.next_sequence + 1 }

-- `acquire` up to its first await: the new waiter, and the state in which the task suspends.
pub submit : Scheduler → WorkloadKind → Option ℕ → Option ℕ → Result (Waiter × Scheduler)
submit s workload priority cancel_event =
    if s.closed
    then raise scheduler_closed
    else (let w = new_waiter s workload priority cancel_event in ok (w, admit_next (enqueue s w)))

-- Why the suspended task runs again: something that it waits for is done, its timeout is over, or
-- the task itself is cancelled.
pub data Wake : Type 0 where
  woken timeout interrupted : Wake

-- The result of a done future; otherwise the event or the timeout.
pub awaited : Option Outcome → Bool → Result (Unit {0})
awaited (some admitted) e = ok tt
awaited (some refused) e = raise scheduler_closed
awaited none true = raise cancelled
awaited none false = raise timed_out

-- The awaits of `acquire`: `wait_for` with no event, `wait` with one.
pub await_outcome : Scheduler → Waiter → Wake → Result (Unit {0})
unfolding awaited is_cancelled
await_outcome s w interrupted = raise cancelled
await_outcome s w woken = awaited (s.outcome w.sequence) (is_cancelled s.fired w.cancel_event)
await_outcome s w timeout = elim w.cancel_event [
  | none ↦ raise timed_out
  | some e ↦ awaited (s.outcome w.sequence) (s.fired e)
]

pub is_admitted : Option Outcome → Bool
is_admitted (some admitted) = true
is_admitted (some refused) = false
is_admitted none = false

-- `except BaseException` of `acquire`
pub give_up : Scheduler → Waiter → Scheduler
unfolding is_admitted
give_up s w =
    if is_admitted (s.outcome w.sequence)
    then s
    else admit_next (record s { waiters = remove_waiter w s.waiters })

-- `acquire` from its await to its end.
pub resume_acquire : Scheduler → Waiter → Wake → Result (Unit {0}) × Scheduler
resume_acquire s w wake = elim (await_outcome s w wake) [
  | ok u ↦ (ok u, s)
  | raise e ↦ (raise e, give_up s w)
]

pub try_acquire : Scheduler → WorkloadKind → Bool × Scheduler
unfolding is_paused
try_acquire s workload = elim s.waiters [
  | [] ↦
      if s.closed || (s.active || is_paused s workload)
      then (false, s)
      else (true, record s { active = true; active_workload = some workload })
  | w ∷ ws ↦ (false, s)
]

pub release : Scheduler → Result Scheduler
release s =
    if s.active
    then ok (admit_next (record s { active = false; active_workload = none }))
    else raise no_active_lease

pub refuse_all : List Waiter → (ℕ → Option Outcome) → ℕ → Option Outcome
unfolding is_done settle_future
refuse_all [] f = f
refuse_all (w ∷ ws) f =
    refuse_all ws (if is_done (f w.sequence) then f else settle_future f w.sequence refused)

pub close : Scheduler → Scheduler
unfolding refuse_all
close s = record s { closed = true; waiters = []; outcome = refuse_all s.waiters s.outcome }
