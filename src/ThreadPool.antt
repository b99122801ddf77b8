-- ===== src/ThreadPool.antt =====
-- threadpool/threadpool.h: a bounded work queue, and the worker threads that empty it.
pub mod Jobs
pub mod Threads
mod Tests
use wzy_server.Prelude.{
  ℕ, zero, suc, ◌+◌, ◌-◌, Bool, true, false, ◌||◌, ◌==◌, if◌then◌else◌, Option, none, some, List,
  [], ◌∷◌, ◌++◌, length, ltb, Run, ok, fault, blocked, exits, ◌>>=◌, ◌>>◌,
}
use wzy_server.Prelude.Int.{ℤ, pos, pos_part, leb_ℤ}

-- A request (a `T *`) is known by its address; 0 is the null pointer. `held` is `m_queuelocker`,
-- and `queue_stat` the value of the semaphore `m_queuestat`. `started` counts the worker threads.
pub record ThreadPool : Type 0 where
  pub thread_number : ℕ
  pub max_requests : ℕ
  pub work_queue : List ℕ
  pub held : Bool
  pub queue_stat : ℕ
  pub stop : Bool
  pub started : ℕ

-- The loop of the constructor, with the rounds left: whether `pthread_create` and `pthread_detach`
-- succeed for the `i`-th thread. A failure throws.
pub start_loop : (create detach : ℕ → Bool) (rounds i : ℕ) → ThreadPool → Run ThreadPool
start_loop create detach zero i p = ok p
start_loop create detach (suc rounds) i p =
    let rest = start_loop create detach rounds (i + 1) (record p { started = p.started + 1 }) in
    if create i then (if detach i then rest else exits) else exits

pub init : (create detach : ℕ → Bool) (thread_number max_requests : ℤ) → Run ThreadPool
unfolding start_loop
init create detach thread_number max_requests =
    if leb_ℤ thread_number (pos 0) || leb_ℤ max_requests (pos 0)
    then exits
    else start_loop create detach (pos_part thread_number) 0 (record {
      thread_number = pos_part thread_number;
      max_requests = pos_part max_requests;
      work_queue = [];
      held = false;
      queue_stat = 0;
      stop = false;
      started = 0;
    })

abbrev pub lock : ThreadPool → Run ThreadPool
lock p = if p.held then blocked else ok (record p { held = true })

abbrev pub unlock : ThreadPool → ThreadPool
unlock p = record p { held = false }

pub post : ThreadPool → ThreadPool
post p = record p { queue_stat = p.queue_stat + 1 }

-- The wait, whose result `run` does not look at: at 0 it ends without a post where a signal's
-- handler interrupts it.
pub wait : (interrupted : Bool) → ThreadPool → Run ThreadPool
wait interrupted p =
    if p.queue_stat == 0
    then (if interrupted then ok p else blocked)
    else ok (record p { queue_stat = p.queue_stat - 1 })

-- `append_job` from its lock to its unlock: whether the request is in the queue.
pub enqueue : ℕ → ThreadPool → Run (Bool × ThreadPool)
enqueue request p = do
  p ← lock p
  if ltb p.max_requests (length p.work_queue)
      then ok (false, unlock p)
      else ok (true, unlock (record p { work_queue = p.work_queue ++ request ∷ [] }))

pub append_job : ℕ → ThreadPool → Run (Bool × ThreadPool)
unfolding enqueue post
append_job request p = do
  (done, p) ← enqueue request p
  if done then ok (true, post p) else ok (false, p)

-- A round of `run` from its lock to its unlock: the request that it takes, or `none` for the
-- `continue` at an empty queue.
pub dequeue : ThreadPool → Run (Option ℕ × ThreadPool)
dequeue p = do
  p ← lock p
  elim p.work_queue [
    | [] ↦ ok (none, unlock p)
    | request ∷ rest ↦ ok (some request, unlock (record p { work_queue = rest }))
  ]

-- What one round of `run` processes: nothing for an empty queue or a null request.
abbrev pub job_of : Option ℕ → Option ℕ
job_of none = none
job_of (some request) = if request == 0 then none else some request

-- One round of `run` by a single worker: wait, which a signal can interrupt, take, and the request
-- whose `process` is called.
pub run_round : (interrupted : Bool) → ThreadPool → Run (Option ℕ × ThreadPool)
unfolding wait dequeue
run_round interrupted p = do
  p ← wait interrupted p
  (request, p) ← dequeue p
  ok (job_of request, p)

-- `run`, as many rounds as its loop makes before `m_stop` is seen or a wait has no end, each with
-- whether a signal interrupts its wait; the requests that it processes.
pub run : (interrupted : List Bool) → ThreadPool → Run (List ℕ × ThreadPool)
run [] p = ok ([], p)
run (now ∷ later) p =
    let next = (do
      (job, p) ← run_round now p
      (jobs, p) ← run later p
      ok (elim job [ none ↦ jobs | some j ↦ j ∷ jobs ], p)) in
    if p.stop then ok ([], p) else next

-- The destructor sets `m_stop` once the thread array is gone.
pub destroy : ThreadPool → ThreadPool
destroy p = record p { stop = true }
