-- ===== src/ThreadPool/Workers.antt =====
-- The steps of a pool: its workers, and what is left to do after a stop.
use http_2_0_server.Base.{
  ℕ, zero, suc, ◌+◌, ◌*◌, ◌<◌, ◌≡◌, refl, sym, ap, ◌∙◌, Bool, true, false, List, [], ◌∷◌, ◌++◌,
  length, length-append, arith,
}
use http_2_0_server.ThreadPool.{
  Task, Worker, waiting, exited, running, Pool, new_workers, new_pool, Step, submit, destroy,
  take_top, finish, leave, Reach, start, further,
}
use http_2_0_server.ThreadPool.Tasks.{Reach-IsBalanced, IsBalanced, enqueue-some, Step-IsBalanced}

-- The turns that a worker has before it, when no task is left to take.
abbrev pub turns : List Worker → ℕ
turns [] = 0
turns (waiting ∷ ws) = 1 + turns ws
turns (exited ∷ ws) = turns ws
turns (running t ∷ ws) = 2 + turns ws

turns-append : (us vs : List Worker) → turns (us ++ vs) ≡ turns us + turns vs
turns-append [] vs = omega arith
turns-append (waiting ∷ us) vs = omega (arith, turns-append us vs)
turns-append (exited ∷ us) vs = turns-append us vs
turns-append (running t ∷ us) vs = omega (arith, turns-append us vs)

-- The workers that have returned.
abbrev pub returned : List Worker → ℕ
returned [] = 0
returned (exited ∷ ws) = 1 + returned ws
returned (waiting ∷ ws) = returned ws
returned (running t ∷ ws) = returned ws

returned-append : (us vs : List Worker) → returned (us ++ vs) ≡ returned us + returned vs
returned-append [] vs = omega arith
returned-append (waiting ∷ us) vs = returned-append us vs
returned-append (exited ∷ us) vs = omega (arith, returned-append us vs)
returned-append (running t ∷ us) vs = returned-append us vs

abbrev pub work : Pool → ℕ
work s = 2 * length s.tasks + turns s.workers

-- A worker has returned only when the pool was stopped and its queue empty.
pub record IsPool (n : ℕ) (s : Pool) : Type 0 where
  pub balanced : IsBalanced s
  pub threads : length s.workers ≡ n
  pub drained : 0 < returned s.workers → (s.stop ≡ true) × (s.tasks ≡ [])

replaced :
    (ws us vs : List Worker) (w v : Worker) (n : ℕ)
    → ws ≡ us ++ w ∷ vs
    → length ws ≡ n
    → length (us ++ v ∷ vs) ≡ n
replaced ws us vs w v n e l =
    omega (arith, l, ap length e, length-append us (w ∷ vs), length-append us (v ∷ vs))

taken : (xs ys : List Task) (t : Task) → (xs ++ t ∷ ys ≡ []) → (xs ++ ys ≡ [])
taken [] ys t e = absurd (ground (arith, e))
taken (x ∷ xs) ys t e = absurd (ground (arith, e))

Step-threads : (n : ℕ) (s u : Pool) → Step s u → length s.workers ≡ n → length u.workers ≡ n
Step-threads n s u (submit t e) l = rw (enqueue-some s u t e).1 l
Step-threads n s u (destroy e f) l = rw f l
Step-threads n s u (take_top us vs xs ys t w q m e) l = rw e (replaced _ us vs _ _ n w l)
Step-threads n s u (finish us vs t w e) l = rw e (replaced _ us vs _ _ n w l)
Step-threads n s u (leave us vs w b q e) l = rw e (replaced _ us vs _ _ n w l)

abbrev IsDrained : Pool → Type 0
IsDrained s = 0 < returned s.workers → (s.stop ≡ true) × (s.tasks ≡ [])

stopped_now : (b : Bool) → b ≡ false → b ≡ true → ⊥
stopped_now b e f = absurd (ground (arith, e, f))

Step-IsDrained : (s u : Pool) → Step s u → IsDrained s → IsDrained u
Step-IsDrained s u (submit t e) h =
    let (b, f) = enqueue-some s u t e in rw f (λ r. absurd (stopped_now s.stop b (h r).0))
Step-IsDrained s u (destroy e f) h = rw f (λ r. absurd (stopped_now s.stop e (h r).0))
Step-IsDrained s u (take_top us vs xs ys t w q m e) h = rw e (λ r.
    let (b, f) = h (
      omega (
        arith,
        r,
        ap returned w,
        returned-append us (waiting ∷ vs),
        returned-append us (running t ∷ vs),
      )) in
    (b, taken xs ys t (sym q ∙ f)))
Step-IsDrained s u (finish us vs t w e) h = rw e (λ r. h (
    omega (
      arith,
      r,
      ap returned w,
      returned-append us (waiting ∷ vs),
      returned-append us (running t ∷ vs),
    )))
Step-IsDrained s u (leave us vs w b q e) h = rw e (λ r. (b, q))

pub Step-IsPool : (n : ℕ) (s u : Pool) → Step s u → IsPool n s → IsPool n u
Step-IsPool n s u st h = record {
  balanced = Step-IsBalanced s u st h.balanced;
  threads = Step-threads n s u st h.threads;
  drained = Step-IsDrained s u st h.drained;
}

length-new_workers : (n : ℕ) → length (new_workers n) ≡ n
length-new_workers zero = refl
length-new_workers (suc n) = ap suc (length-new_workers n)

returned-new_workers : (n : ℕ) → returned (new_workers n) ≡ 0
returned-new_workers zero = refl
returned-new_workers (suc n) = returned-new_workers n

pub Reach-IsPool : (n : ℕ) (s : Pool) → Reach (new_pool n) s → IsPool n s
Reach-IsPool n s start = record {
  balanced = Reach-IsBalanced n s start;
  threads = length-new_workers n;
  drained = λ r. absurd (omega (arith, r, returned-new_workers n));
}
Reach-IsPool n s (further {t} r st) = Step-IsPool n t s st (Reach-IsPool n t r)

-- In a stopped pool each step leaves less to do.
pub Step-work : (s u : Pool) → Step s u → s.stop ≡ true → (work u < work s) × (u.stop ≡ true)
Step-work s u (submit t e) b = absurd (ground (arith, b, (enqueue-some s u t e).0))
Step-work s u (destroy e f) b = absurd (ground (arith, b, e))
Step-work s u (take_top us vs xs ys t w q m e) b = rw e (
  omega (
    arith,
    ap turns w,
    ap length q,
    length-append xs (t ∷ ys),
    length-append xs ys,
    turns-append us (waiting ∷ vs),
    turns-append us (running t ∷ vs),
  ),
  b,
)
Step-work s u (finish us vs t w e) b =
    rw e (
      omega (arith, ap turns w, turns-append us (waiting ∷ vs), turns-append us (running t ∷ vs)),
      b,
    )
Step-work s u (leave us vs w c q e) b =
    rw e
      (omega (arith, ap turns w, turns-append us (waiting ∷ vs), turns-append us (exited ∷ vs)), b)
