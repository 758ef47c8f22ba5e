-- ===== src/ThreadPool/Shutdown.antt =====
-- The destructor of ThreadPool: it returns, and only when every accepted task has run.
use http_2_0_server.Base.{
  ℕ, zero, suc, ◌+◌, ◌<◌, ◌≤◌, ◌≡◌, refl, sym, ap, ◌∙◌, ◌⊎◌, Bool, true, List, [], ◌∷◌, ◌++◌,
  length, arith, inl, inr, leb, Bool-cases,
}
use mathlib.Core.Path.{subst}
use http_2_0_server.ThreadPool.{
  Task, Worker, waiting, exited, running, Pool, new_pool, Step, take_top, finish, leave, Reach,
  IsTop,
}
use http_2_0_server.ThreadPool.Tasks.{count, count_running}
use http_2_0_server.ThreadPool.Workers.{
  returned, work, IsPool, Step-IsPool, Step-work, Reach-IsPool,
}

-- A pool in which every worker has returned and every accepted task has run.
pub record IsJoined (s : Pool) : Type 0 where
  pub all_returned : returned s.workers ≡ length s.workers
  pub all_run : (p : Task → Bool) → count p s.accepted ≡ count p s.done

-- Whatever the threads do next, and as long as there is something that they can do, they come to a
-- state with `P`.
pub data Inevitable (P : Pool → Type 0) : Pool → Type 0 where
  now : {s : Pool} → P s → Inevitable P s
  later :
      {s : Pool} (u : Pool) → Step s u → ((v : Pool) → Step s v → Inevitable P v) → Inevitable P s

lighter : (t u : Task) (ts : List Task) → u.weight ≤ t.weight → IsTop u ts → IsTop t ts
lighter t u [] h m = tt
lighter t u (v ∷ ts) h m = (omega (arith, h, m.0), lighter t u ts h m.1)

IsTop-among :
    (t u : Task) (xs ys : List Task)
    → u.weight ≤ t.weight
    → IsTop t (xs ++ ys)
    → IsTop t (xs ++ u ∷ ys)
IsTop-among t u [] ys h m = (h, m)
IsTop-among t u (x ∷ xs) ys h m = (m.0, IsTop-among t u xs ys h m.1)

-- A heaviest task of the queue.
heaviest :
    (t : Task) (ts : List Task)
    → (xs : List Task) × (u : Task) × (ys : List Task) × (t ∷ ts ≡ xs ++ u ∷ ys)
      × IsTop u (xs ++ ys)
heaviest t [] = ([], t, [], refl, tt)
heaviest t (v ∷ ts) =
    let (xs, u, ys, e, m) = heaviest v ts in
    elim (Bool-cases (leb u.weight t.weight)) [
      | inl h ↦
          let k : u.weight ≤ t.weight = ground (arith, h) in
          (
            [],
            t,
            v ∷ ts,
            refl,
            subst (IsTop t) (sym e) (IsTop-among t u xs ys k (lighter t u (xs ++ ys) k m)),
          )
      | inr h ↦ (t ∷ xs, u, ys, ap (◌∷◌ t) e, (ground (arith, h), m))
    ]

-- What a worker can do.
data Turn (ws : List Worker) : Type 0 where
  wait_turn : (us vs : List Worker) → ws ≡ us ++ waiting ∷ vs → Turn ws
  run_turn : (us vs : List Worker) (t : Task) → ws ≡ us ++ running t ∷ vs → Turn ws
  no_turn : returned ws ≡ length ws → Turn ws

Turn-behind :
    (w : Worker) (ws : List Worker)
    → Turn ws
    → (returned (w ∷ ws) ≡ 1 + returned ws)
    → Turn (w ∷ ws)
Turn-behind w ws (wait_turn us vs e) r = wait_turn (w ∷ us) vs (ap (◌∷◌ w) e)
Turn-behind w ws (run_turn us vs t e) r = run_turn (w ∷ us) vs t (ap (◌∷◌ w) e)
Turn-behind w ws (no_turn e) r = no_turn (omega (arith, e, r))

Turn-of : (ws : List Worker) → Turn ws
Turn-of [] = no_turn refl
Turn-of (waiting ∷ ws) = wait_turn [] ws refl
Turn-of (running t ∷ ws) = run_turn [] ws t refl
Turn-of (exited ∷ ws) = Turn-behind exited ws (Turn-of ws) (omega arith)

returned-le : (ws : List Worker) → returned ws ≤ length ws
returned-le [] = omega arith
returned-le (waiting ∷ ws) = omega (arith, returned-le ws)
returned-le (running t ∷ ws) = omega (arith, returned-le ws)
returned-le (exited ∷ ws) = omega (arith, returned-le ws)

none_running :
    (p : Task → Bool) (ws : List Worker) → returned ws ≡ length ws → count_running p ws ≡ 0
none_running p [] e = refl
none_running p (waiting ∷ ws) e = absurd (omega (arith, e, returned-le ws))
none_running p (running t ∷ ws) e = absurd (omega (arith, e, returned-le ws))
none_running p (exited ∷ ws) e = none_running p ws (omega (arith, e))

joined :
    (n : ℕ) (s : Pool) → IsPool n s → 0 < n → returned s.workers ≡ length s.workers → IsJoined s
joined n s h k e = record {
  all_returned = e;
  all_run = λ p.
      let (b, q) = h.drained (omega (arith, e, k, h.threads)) in
      omega (arith, h.balanced p, ap (count p) q, none_running p s.workers e);
}

advance :
    (s : Pool)
    → s.stop ≡ true
    → Turn s.workers
    → ((u : Pool) × Step s u) ⊎ (returned s.workers ≡ length s.workers)
advance s b (run_turn us vs t e) = inl (_, finish us vs t e refl)
advance s b (no_turn e) = inr e
advance s b (wait_turn us vs e) = inl (by_queue s.tasks refl)
  where
    by_queue : (ts : List Task) → s.tasks ≡ ts → (u : Pool) × Step s u
    by_queue [] q = (_, leave us vs e b q refl)
    by_queue (t ∷ ts) q =
        let (xs, w, ys, f, m) = heaviest t ts in (_, take_top us vs xs ys w e (q ∙ f) m refl)

ends :
    (fuel n : ℕ) (s : Pool)
    → work s < fuel
    → 0 < n
    → s.stop ≡ true
    → IsPool n s
    → Inevitable IsJoined s
ends zero n s l k b h = absurd (omega (arith, l))
ends (suc fuel) n s l k b h = elim (advance s b (Turn-of s.workers)) [
  | inl (u, st) ↦ later u st (λ v sv.
      let (less, c) = Step-work s v sv b in
      ends fuel n v (omega (arith, less, l)) k c (Step-IsPool n s v sv h))
  | inr e ↦ now (joined n s h k e)
]

-- A pool with a worker at least, once stopped, comes to a state in which every worker has returned
-- and every accepted task has run, whatever order its threads take their turns in.
pub stop-Inevitable :
    (n : ℕ) (s : Pool) → 0 < n → Reach (new_pool n) s → s.stop ≡ true → Inevitable IsJoined s
stop-Inevitable n s k r b = ends (suc (work s)) n s (omega arith) k b (Reach-IsPool n s r)
