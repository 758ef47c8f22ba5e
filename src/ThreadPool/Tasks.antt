-- ===== src/ThreadPool/Tasks.antt =====
-- No task of the pool is lost or run twice.
use http_2_0_server.Base.{
  ℕ, zero, suc, ◌+◌, ◌≡◌, refl, ap, Bool, true, false, none, some, List, [], ◌∷◌, ◌++◌, arith,
  if◌then◌else◌,
}
use http_2_0_server.ThreadPool.{
  Task, Worker, waiting, exited, running, Pool, new_workers, new_pool, enqueue, Step, submit,
  destroy, take_top, finish, leave, Reach, start, further,
}

-- How many tasks satisfy a test.
abbrev pub count : (Task → Bool) → List Task → ℕ
count p [] = 0
count p (t ∷ ts) = (if p t then 1 else 0) + count p ts

pub count-append :
    (p : Task → Bool) (xs ys : List Task) → count p (xs ++ ys) ≡ count p xs + count p ys
count-append p [] ys = omega arith
count-append p (t ∷ xs) ys = omega (arith, count-append p xs ys)

-- How many of the tasks that the workers run satisfy a test.
abbrev pub count_running : (Task → Bool) → List Worker → ℕ
count_running p [] = 0
count_running p (running t ∷ ws) = (if p t then 1 else 0) + count_running p ws
count_running p (waiting ∷ ws) = count_running p ws
count_running p (exited ∷ ws) = count_running p ws

count_running-append :
    (p : Task → Bool) (us vs : List Worker)
    → count_running p (us ++ vs) ≡ count_running p us + count_running p vs
count_running-append p [] vs = omega arith
count_running-append p (running t ∷ us) vs = omega (arith, count_running-append p us vs)
count_running-append p (waiting ∷ us) vs = count_running-append p us vs
count_running-append p (exited ∷ us) vs = count_running-append p us vs

-- Each task that was accepted waits in the queue, runs, or has run.
abbrev pub IsBalanced : Pool → Type 0
IsBalanced s =
    (p : Task → Bool)
    → count p s.accepted ≡ count p s.tasks + count_running p s.workers + count p s.done

guarded : (b : Bool) (x u : Pool) → (if b then none else some x) ≡ some u → (b ≡ false) × (u ≡ x)
guarded true x u e = absurd (ground (arith, e))
guarded false x u e = (refl, cc)

-- A task is accepted only while the pool is not stopped.
pub enqueue-some :
    (s u : Pool) (t : Task)
    → enqueue s t ≡ some u
    → (s.stop ≡ false) × (u ≡ record s { tasks = t ∷ s.tasks; accepted = t ∷ s.accepted })
unfolding enqueue
enqueue-some s u t e = guarded s.stop _ u e

pub Step-IsBalanced : (s u : Pool) → Step s u → IsBalanced s → IsBalanced u
Step-IsBalanced s u (submit t e) h p = rw (enqueue-some s u t e).1 (omega (arith, h p))
Step-IsBalanced s u (destroy e f) h p = rw f (h p)
Step-IsBalanced s u (take_top us vs xs ys t w q m e) h p = rw e (
    omega (
      arith,
      h p,
      ap (count_running p) w,
      ap (count p) q,
      count-append p xs (t ∷ ys),
      count-append p xs ys,
      count_running-append p us (waiting ∷ vs),
      count_running-append p us (running t ∷ vs),
    ))
Step-IsBalanced s u (finish us vs t w e) h p = rw e (
    omega (
      arith,
      h p,
      ap (count_running p) w,
      count_running-append p us (running t ∷ vs),
      count_running-append p us (waiting ∷ vs),
    ))
Step-IsBalanced s u (leave us vs w b q e) h p = rw e (
    omega (
      arith,
      h p,
      ap (count_running p) w,
      count_running-append p us (waiting ∷ vs),
      count_running-append p us (exited ∷ vs),
    ))

new_workers-idle : (p : Task → Bool) (n : ℕ) → count_running p (new_workers n) ≡ 0
new_workers-idle p zero = refl
new_workers-idle p (suc n) = new_workers-idle p n

-- In every state that a new pool reaches, as many of the tasks that satisfy a test were accepted as
-- wait in the queue, run and have run together, whatever the test is.
pub Reach-IsBalanced : (n : ℕ) (s : Pool) → Reach (new_pool n) s → IsBalanced s
Reach-IsBalanced n s start = λ p. omega (arith, new_workers-idle p n)
Reach-IsBalanced n s (further {t} r st) = Step-IsBalanced t s st (Reach-IsBalanced n t r)
