-- ===== src/ThreadPool/Jobs.antt =====
-- The thread pool used by one caller at a time: construction, the bound, and a worker's loop.
use wzy_server.Prelude.{
  ℕ, zero, suc, ◌+◌, ◌<◌, ◌≡◌, refl, ap, ◌∙◌, ◌⊎◌, inl, inr, Bool, true, false, ◌==◌, ◌||◌,
  if◌then◌else◌, some, List, [], ◌∷◌, ◌++◌, length, length-append, ok, exits, Returns, returns,
  arith, ltb, le→ltb, Bool-cases, Sure, sure, Sure-if, sure_blocked, Sure-bind, Sure-list, Any,
}
use wzy_server.Prelude.Int.{ℤ, pos, negsuc, pos_part, leb_ℤ}
use wzy_server.ThreadPool.{
  ThreadPool, start_loop, init, append_job, wait, dequeue, job_of, run_round, run,
}

start_loop-all :
    (create detach : ℕ → Bool) (n i : ℕ) (p : ThreadPool)
    → ((j : ℕ) → j < i + n → (create j ≡ true) × (detach j ≡ true))
    → start_loop create detach n i p ≡ ok (record p { started = p.started + n })
unfolding start_loop
start_loop-all create detach zero i p up = ground arith
start_loop-all create detach (suc n) i p up =
    let up_i = up i (omega arith) in
    rw (up_i.0, up_i.1)
      (start_loop-all create detach n (i + 1) (record p { started = p.started + 1 })
          (λ j lt. up j (omega arith))
        ∙ ground arith)

-- A thread that cannot be made or detached ends the construction by an exception, however many
-- threads are running by then.
start_loop-fails :
    (create detach : ℕ → Bool) (n i k : ℕ) (p : ThreadPool)
    → ((j : ℕ) → j < i + k → (create j ≡ true) × (detach j ≡ true))
    → k < n
    → (create (i + k) ≡ false) ⊎ (detach (i + k) ≡ false)
    → start_loop create detach n i p ≡ exits
unfolding start_loop
start_loop-fails create detach zero i k p up lt bad = absurd (omega arith)
start_loop-fails create detach (suc n) i zero p up lt bad =
    let here : i + 0 ≡ i = omega arith in ground (arith, here, bad)
start_loop-fails create detach (suc n) i (suc k) p up lt bad =
    let up_i = up i (omega arith) in
    let shift : i + suc k ≡ i + 1 + k = omega arith in
    rw (up_i.0, up_i.1)
      (start_loop-fails create detach n (i + 1) k (record p { started = p.started + 1 })
        (λ j lt'. up j (omega arith)) (omega arith) (rw shift at bad))

abbrev fresh : (thread_number max_requests : ℕ) → ThreadPool
fresh n m = record {
  thread_number = n;
  max_requests = m;
  work_queue = [];
  held = false;
  queue_stat = 0;
  stop = false;
  started = 0;
}

init-positive :
    (create detach : ℕ → Bool) (n m : ℕ)
    → init create detach (pos (suc n)) (pos (suc m))
      ≡ start_loop create detach (suc n) 0 (fresh (suc n) (suc m))
unfolding init
init-positive create detach n m =
    let positive : (leb_ℤ (pos (suc n)) (pos 0) || leb_ℤ (pos (suc m)) (pos 0)) ≡ false =
      ground arith in
    ap (λ b. if b then exits else start_loop create detach (suc n) 0 (fresh (suc n) (suc m)))
      positive

-- With positive numbers and threads that can all be made and detached, the constructor starts
-- `thread_number` threads on an empty queue.
pub init-starts :
    (create detach : ℕ → Bool) (n m : ℕ)
    → ((j : ℕ) → j < suc n → (create j ≡ true) × (detach j ≡ true))
    → Returns
        (λ p.
          (p.started ≡ suc n)
          × (p.max_requests ≡ suc m)
          × (p.work_queue ≡ [])
          × (p.queue_stat ≡ 0)
          × (p.held ≡ false)
          × (p.stop ≡ false))
        (init create detach (pos (suc n)) (pos (suc m)))
init-starts create detach n m up =
    rw
      (
        init-positive create detach n m,
        start_loop-all create detach (suc n) 0 (fresh (suc n) (suc m)) (λ j lt. up j (omega arith)),
      )
      (returns (omega arith, refl, refl, refl, refl, refl))

-- At `k` a thread cannot be made or detached for the first time, among the `n` that are asked for.
pub record FailsAt (create detach : ℕ → Bool) (n : ℤ) (k : ℕ) : Type 0 where
  pub asked : k < pos_part n
  pub before : (j : ℕ) → j < k → (create j ≡ true) × (detach j ≡ true)
  pub fails : (create k ≡ false) ⊎ (detach k ≡ false)

init-fails :
    (create detach : ℕ → Bool) (n m k : ℕ)
    → FailsAt create detach (pos (suc n)) k
    → init create detach (pos (suc n)) (pos (suc m)) ≡ exits
init-fails create detach n m k f =
    let shift : 0 + k ≡ k = omega arith in
    init-positive create detach n m
    ∙ start_loop-fails create detach (suc n) 0 k (fresh (suc n) (suc m))
        (λ j lt. f.before j (omega arith)) f.asked (rw shift f.fails)

-- The constructor throws when either number is not positive, and else when a thread cannot be made
-- or detached, however many run by then.
pub init-throws :
    (create detach : ℕ → Bool) (n m : ℤ) (k : ℕ)
    → (leb_ℤ n (pos 0) ≡ true) ⊎ (leb_ℤ m (pos 0) ≡ true) ⊎ FailsAt create detach n k
    → init create detach n m ≡ exits
unfolding init
init-throws create detach n m k (inl none_asked) = rw none_asked refl
init-throws create detach n m k (inr (inl no_room)) = elim (Bool-cases (leb_ℤ n (pos 0))) [
  | inl none_asked ↦ rw none_asked refl
  | inr some_asked ↦ rw (some_asked, no_room) refl
]
init-throws create detach (negsuc n) m k (inr (inr f)) = absurd (omega (arith, f.asked))
init-throws create detach (pos zero) m k (inr (inr f)) = absurd (omega (arith, f.asked))
init-throws create detach (pos (suc n)) (negsuc m) k (inr (inr f)) = ground arith
init-throws create detach (pos (suc n)) (pos zero) k (inr (inr f)) = ground arith
init-throws create detach (pos (suc n)) (pos (suc m)) k (inr (inr f)) =
    init-fails create detach n m k f

-- `append_job` takes a request as long as at most `max_requests` wait, puts it at the end and posts
-- once, and else changes nothing.
pub append_job_lem :
    (r : ℕ) (p : ThreadPool)
    → p.held ≡ false
    → append_job r p ≡ (
        if ltb p.max_requests (length p.work_queue)
        then ok (false, p)
        else ok
            (true, record p { work_queue = p.work_queue ++ r ∷ []; queue_stat = p.queue_stat + 1 }))
unfolding append_job
append_job_lem r p free = ground arith

-- With a free lock, a queue of `max_requests` requests still takes one more, and then holds one
-- above the bound.
pub bound_exceeded :
    (r : ℕ) (p : ThreadPool)
    → p.held ≡ false
    → length p.work_queue ≡ p.max_requests
    → Returns
        (λ (done, q). (done ≡ true) × (length q.work_queue ≡ p.max_requests + 1))
        (append_job r p)
bound_exceeded r p free e =
    rw (append_job_lem r p free, le→ltb p.max_requests (length p.work_queue) (omega arith))
      (returns (refl, omega (arith, length-append p.work_queue (r ∷ []))))

-- One round of a worker at a request that waits and is announced.
run_round-job :
    (interrupted : Bool) (r : ℕ) (rs : List ℕ) (p : ThreadPool)
    → p.held ≡ false
    → p.work_queue ≡ r ∷ rs
    → p.queue_stat ≡ suc (length rs)
    → run_round interrupted p
      ≡ ok (job_of (some r), record p { work_queue = rs; queue_stat = length rs })
unfolding run_round
run_round-job interrupted r rs p free e c = ground arith

-- The requests that are processed: all but the null ones.
unfoldable pub jobs : List ℕ → List ℕ
jobs [] = []
jobs (r ∷ rs) = if r == 0 then jobs rs else r ∷ jobs rs

-- A worker that runs alone for a number of rounds, with as many requests at hand and as many
-- announcements, whether signals come or not, processes those that are not null, in order and each
-- once, and leaves an empty queue.
pub run-jobs :
    (interrupted : List Bool) (rs : List ℕ) (p : ThreadPool)
    → length interrupted ≡ length rs
    → p.held ≡ false
    → p.stop ≡ false
    → p.work_queue ≡ rs
    → p.queue_stat ≡ length rs
    → run interrupted p ≡ ok (jobs rs, record p { work_queue = []; queue_stat = 0 })
unfolding run jobs
run-jobs [] [] p same free going e c = ground arith
run-jobs [] (r ∷ rs) p same free going e c = absurd (omega (arith, same))
run-jobs (now ∷ later) [] p same free going e c = absurd (omega (arith, same))
run-jobs (now ∷ later) (r ∷ rs) p same free going e c =
    rw
      (
        run_round-job now r rs p free e c,
        run-jobs later rs (record p { work_queue = rs; queue_stat = length rs })
            (omega (arith, same)) free going refl refl,
        going,
      )
      (elim (Bool-cases (r == 0)) [
        | inl null ↦ ground (arith, null)
        | inr real ↦ ground (arith, real)
      ])

dequeue-free : (p : ThreadPool) → Sure (λ (request, q). q.held ≡ false) (dequeue p)
unfolding dequeue
dequeue-free p =
    Sure-bind {P = λ q. q ≡ record p { held = true }} (Sure-if p.held sure_blocked (sure refl))
      λ q same. Sure-list q.work_queue (sure refl) λ request rest. sure refl

-- A round of a worker leaves the lock free.
pub run_round-free :
    (interrupted : Bool) (p : ThreadPool)
    → Sure (λ (job, q). q.held ≡ false) (run_round interrupted p)
unfolding run_round wait
run_round-free interrupted p =
    Sure-bind {P = Any}
      (Sure-if (p.queue_stat == 0) (Sure-if interrupted (sure tt) sure_blocked) (sure tt))
      λ q _. Sure-bind (dequeue-free q) λ (request, r) free. sure free
