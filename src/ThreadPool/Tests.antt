-- ===== src/ThreadPool/Tests.antt =====
-- A run of Multithreading/threadPool.cpp.
use http_2_0_server.Base.{refl, true, false, [], ◌∷◌, arith}
use http_2_0_server.ThreadPool.{
  Task, Pool, submit, destroy, take_top, Reach, start, further, new_pool, enqueue, waiting, running,
}
use http_2_0_server.ThreadPool.Tasks.{IsBalanced, Reach-IsBalanced}
use http_2_0_server.ThreadPool.Shutdown.{IsJoined, Inevitable, stop-Inevitable}

abbrev light : Task
light = record { job = 1; weight = 2 }

abbrev heavy : Task
heavy = record { job = 2; weight = 5 }

-- Two tasks, of which a worker has taken the heavy one.
abbrev busy : Pool
busy = record {
  workers = running heavy ∷ waiting ∷ [];
  tasks = light ∷ [];
  stop = false;
  accepted = light ∷ heavy ∷ [];
  done = [];
}

busy-Reach : Reach (new_pool 2) busy
unfolding enqueue
busy-Reach =
    further (further (further start (submit heavy refl)) (submit light refl))
      (take_top [] (waiting ∷ []) (light ∷ []) [] heavy refl refl (omega arith, tt) refl)

Reach-IsBalanced_example : IsBalanced busy
Reach-IsBalanced_example = Reach-IsBalanced 2 busy busy-Reach

stop-Inevitable_example : Inevitable IsJoined (record busy { stop = true })
stop-Inevitable_example =
    stop-Inevitable 2 (record busy { stop = true }) (omega arith)
      (further busy-Reach (destroy refl refl)) refl
