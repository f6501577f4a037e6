-- ===== src/Scheduler/Tasks/Counts.antt =====
-- Counting the tasks of src/sona/inference/scheduler.py that have been admitted.
use voice_realtime.Prelude.{
  ◌≡◌, refl, ℕ, ◌+◌, ◌≤◌, ◌<◌, Bool, true, false, Option, some, List, [], ◌∷◌, ◌==◌, arith,
  if◌then◌else◌, All, if_cases, ◌&&◌,
}
use voice_realtime.Scheduler.{
  Outcome, admitted, refused, is_admitted, remove_waiter, Waiter, settle_future,
}
use voice_realtime.Scheduler.Tasks.{find_task, drop_task}

-- The tasks that have been admitted and do not know it yet.
unfoldable pub admitted_tasks : (ℕ → Option Outcome) → List Waiter → ℕ
unfolding is_admitted
admitted_tasks f [] = 0
admitted_tasks f (w ∷ ws) = (if is_admitted (f w.sequence) then 1 else 0) + admitted_tasks f ws

-- Sequence numbers fall along the list and stay under the bound.
abbrev pub Below : ℕ → List Waiter → Type 0
Below n [] = Unit {0}
Below n (w ∷ ws) = (w.sequence < n) × Below w.sequence ws

abbrev pub slots : Bool → ℕ
slots true = 1
slots false = 0

Below-mono : {m n : ℕ} (ws : List Waiter) → m ≤ n → Below m ws → Below n ws
Below-mono [] h b = tt
Below-mono (w ∷ ws) h b = (omega arith, b.1)

pub drop_task-Below : (k n : ℕ) (ws : List Waiter) → Below n ws → Below n (drop_task k ws)
unfolding drop_task
drop_task-Below k n [] b = tt
drop_task-Below k n (w ∷ ws) b =
    ground (arith, drop_task-Below k w.sequence ws b.1, Below-mono {m = w.sequence} {n = n} ws)

pub remove_waiter-All :
    (P : Waiter → Type 0) (w : Waiter) (ws : List Waiter) → All P ws → All P (remove_waiter w ws)
unfolding remove_waiter
remove_waiter-All P w [] h = tt
remove_waiter-All P w (x ∷ xs) h =
    if_cases (All P) (x.priority == w.priority && x.sequence == w.sequence) (λ _. h.1)
      (λ _. (h.0, remove_waiter-All P w xs h.1))

-- A result for a number that no task of the list has is not seen by them.
admitted_tasks-settle_above :
    (f : ℕ → Option Outcome) (k n : ℕ) (o : Outcome) (ws : List Waiter)
    → Below n ws
    → n ≤ k
    → admitted_tasks (settle_future f k o) ws ≡ admitted_tasks f ws
unfolding admitted_tasks settle_future
admitted_tasks-settle_above f k n o [] b h = refl
admitted_tasks-settle_above f k n o (w ∷ ws) b h =
    ground (arith, admitted_tasks-settle_above f k w.sequence o ws b.1)

-- One admission adds one admitted task at most.
pub admitted_tasks-settle :
    (f : ℕ → Option Outcome) (k n : ℕ) (ws : List Waiter)
    → Below n ws
    → admitted_tasks (settle_future f k admitted) ws ≤ admitted_tasks f ws + 1
unfolding admitted_tasks settle_future
admitted_tasks-settle f k n [] b = omega arith
admitted_tasks-settle f k n (w ∷ ws) b = ground (
  arith,
  admitted_tasks-settle f k w.sequence ws b.1,
  admitted_tasks-settle_above f k w.sequence admitted ws b.1,
)

pub admitted_tasks-refused :
    (f : ℕ → Option Outcome) (k : ℕ) (ws : List Waiter)
    → admitted_tasks (settle_future f k refused) ws ≤ admitted_tasks f ws
unfolding admitted_tasks settle_future
admitted_tasks-refused f k [] = omega arith
admitted_tasks-refused f k (w ∷ ws) = ground (arith, admitted_tasks-refused f k ws)

pub admitted_tasks-drop_task :
    (f : ℕ → Option Outcome) (k : ℕ) (ws : List Waiter) {w : Waiter}
    → find_task k ws ≡ some w
    → (w.sequence ≡ k)
      × (admitted_tasks f (drop_task k ws) + (if is_admitted (f k) then 1 else 0)
          ≡ admitted_tasks f ws)
unfolding admitted_tasks find_task drop_task
admitted_tasks-drop_task f k [] e = absurd (cc)
admitted_tasks-drop_task f k (x ∷ ws) {w} e = (
  ground (arith, admitted_tasks-drop_task f k ws {w = w}),
  ground (arith, admitted_tasks-drop_task f k ws {w = w}),
)
