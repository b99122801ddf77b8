-- ===== src/ThreadPool/Tests.antt =====
-- The thread pool's theorems at concrete pools.
use wzy_server.Prelude.{
  true, false, ◌>>=◌, ◌≡◌, refl, some, [], ◌∷◌, ◌++◌, total, ok, Returns, arith,
}
use wzy_server.Samples.{idle_threads as idle}
use wzy_server.ThreadPool.{ThreadPool, dequeue, post, wait, enqueue, run}
use wzy_server.ThreadPool.Jobs.{run-jobs, jobs}
use wzy_server.ThreadPool.Threads.{
  appender, sleeping, awake, State, state, Inv, Reach, here, next, accepts, posts, wakes,
  request_wakes, taken_in_order,
}

-- Two workers, room for two requests, two requests at hand and one of them null.
abbrev two_jobs : ThreadPool
two_jobs = record idle { work_queue = 40 ∷ 0 ∷ []; queue_stat = 2 }

abbrev one_job : ThreadPool
one_job = record idle { work_queue = 7 ∷ [] }

-- One appender and one worker, before anything has happened, and after a request has come in and
-- the worker has woken.
abbrev start : State
start = state idle (appender ∷ sleeping ∷ []) [] []

abbrev woken : State
woken = state one_job (appender ∷ awake ∷ []) (7 ∷ []) []

start-Inv : Inv start
unfolding total
start-Inv = record { free = refl; covered = omega arith; in_order = refl; bounded = omega arith }

start-woken : Reach start woken
unfolding enqueue post wait
start-woken =
    next (next (next here (accepts 7 [] (sleeping ∷ []) refl)) (posts [] (sleeping ∷ [])))
      (wakes false (appender ∷ []) [] refl)

run-jobs_example : run (false ∷ true ∷ []) two_jobs ≡ ok (40 ∷ [], idle)
unfolding jobs
run-jobs_example = run-jobs (false ∷ true ∷ []) (40 ∷ 0 ∷ []) two_jobs refl refl refl refl refl

-- The request has been announced, and the worker still sleeps.
abbrev announced : State
announced = state (record one_job { queue_stat = 1 }) (appender ∷ sleeping ∷ []) (7 ∷ []) []

start-announced : Reach start announced
unfolding enqueue post
start-announced = next (next here (accepts 7 [] (sleeping ∷ []) refl)) (posts [] (sleeping ∷ []))

request_wakes_example :
    Returns
      (λ (taken, q). (taken ≡ some 7) × (q.work_queue ≡ []))
      (do p ← wait true announced.pool; dequeue p)
request_wakes_example = request_wakes 7 [] true start-Inv start-announced refl refl

taken_in_order_example : woken.accepted ≡ woken.taken ++ woken.pool.work_queue
taken_in_order_example = taken_in_order start-Inv start-woken
