-- ===== src/ThreadPool.antt =====
-- Multithreading/threadPool.h and threadPool.cpp: the pool's workers and its queue of tasks.
pub mod Tasks
pub mod Workers
pub mod Shutdown
mod Tests
use http_2_0_server.Base.{
  ℕ, zero, suc, ◌≤◌, ◌≡◌, Bool, true, false, Option, none, some, List, [], ◌∷◌, ◌++◌, All,
  if◌then◌else◌,
}

-- class Task: which call it is, and its weight, an int counted from the least int.
pub record Task : Type 0 where
  pub job : ℕ
  pub weight : ℕ

-- A thread of `workers`: in condition.wait, in a task, or returned.
pub data Worker : Type 0 where
  waiting exited : Worker
  running : Task → Worker

-- class ThreadPool, with the tasks that enqueue has accepted and those that have run.
pub record Pool : Type 0 where
  pub workers : List Worker
  pub tasks : List Task
  pub stop : Bool
  pub accepted : List Task
  pub done : List Task

abbrev pub new_workers : ℕ → List Worker
new_workers zero = []
new_workers (suc n) = waiting ∷ new_workers n

-- ThreadPool(n)
abbrev pub new_pool : ℕ → Pool
new_pool n = record { workers = new_workers n; tasks = []; stop = false; accepted = []; done = [] }

-- ThreadPool::enqueue; `none` is the std::runtime_error.
unfoldable pub enqueue : Pool → Task → Option Pool
enqueue s t =
    if s.stop then none else some (record s { tasks = t ∷ s.tasks; accepted = t ∷ s.accepted })

-- Whether std::priority_queue may have a task on top of the others: none is heavier. Which of
-- several heaviest tasks it is, the library leaves open.
abbrev pub IsTop : Task → List Task → Type 0
IsTop t ts = All (λ s. s.weight ≤ t.weight) ts

-- A worker's turn under the lock, with its place among the workers: it takes the top task, or
-- returns when the pool is stopped and empty. A task that ends brings it back to the wait.
pub data Step (s u : Pool) : Type 0 where
  submit : (t : Task) → enqueue s t ≡ some u → Step s u
  destroy : s.stop ≡ false → u ≡ record s { stop = true } → Step s u
  take_top :
      (us vs : List Worker) (xs ys : List Task) (t : Task)
      → s.workers ≡ us ++ waiting ∷ vs
      → s.tasks ≡ xs ++ t ∷ ys
      → IsTop t (xs ++ ys)
      → u ≡ record s { workers = us ++ running t ∷ vs; tasks = xs ++ ys }
      → Step s u
  finish :
      (us vs : List Worker) (t : Task)
      → s.workers ≡ us ++ running t ∷ vs
      → u ≡ record s { workers = us ++ waiting ∷ vs; done = t ∷ s.done }
      → Step s u
  leave :
      (us vs : List Worker)
      → s.workers ≡ us ++ waiting ∷ vs
      → s.stop ≡ true
      → s.tasks ≡ []
      → u ≡ record s { workers = us ++ exited ∷ vs }
      → Step s u

pub data Reach (s : Pool) : Pool → Type 0 where
  start : Reach s s
  further : {t u : Pool} → Reach s t → Step t u → Reach s u
