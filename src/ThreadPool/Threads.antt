-- ===== src/ThreadPool/Threads.antt =====
-- The main thread that appends jobs and the workers that take them, interleaved. What happens
-- between a lock and its unlock is one step; the semaphore's wait and post are steps of their own.
use wzy_server.Prelude.{
  ℕ, ◌+◌, ◌≤◌, ◌<◌, ◌-◌, ◌==◌, ◌&&◌, Bool, ◌>>=◌, ◌≡◌, refl, ap, true, false, none, some, List, [],
  ◌∷◌, ◌++◌, length, length-append, append_assoc, ok, Returns, returns, arith, total, total-split,
}
use wzy_server.ThreadPool.{ThreadPool, post, wait, enqueue, dequeue}

-- Where a thread stands: a thread that appends jobs outside or before its post; a worker before its
-- wait, behind it, or with a request that it has taken.
pub data Thread : Type 0 where
  appender pushed sleeping awake : Thread
  working : ℕ → Thread

-- `accepted` and `taken` are the requests that went through the queue so far, oldest first.
pub record State : Type 0 where
  pub pool : ThreadPool
  pub threads : List Thread
  pub accepted : List ℕ
  pub taken : List ℕ

abbrev pub state : ThreadPool → List Thread → List ℕ → List ℕ → State
state p ts accepted taken = record { pool = p; threads = ts; accepted = accepted; taken = taken }

-- A step of one thread, the `ts` before it and the `us` behind it standing still. `finds_nothing`
-- is the `continue` of a worker at an empty queue.
pub data Step : State → State → Type 0 where
  refused :
      {p q : ThreadPool} {xs ys : List ℕ} (r : ℕ) (ts us : List Thread)
      → enqueue r p ≡ ok (false, q)
      → Step (state p (ts ++ appender ∷ us) xs ys) (state q (ts ++ appender ∷ us) xs ys)
  accepts :
      {p q : ThreadPool} {xs ys : List ℕ} (r : ℕ) (ts us : List Thread)
      → enqueue r p ≡ ok (true, q)
      → Step (state p (ts ++ appender ∷ us) xs ys) (state q (ts ++ pushed ∷ us) (xs ++ r ∷ []) ys)
  posts :
      {p : ThreadPool} {xs ys : List ℕ} (ts us : List Thread)
      → Step (state p (ts ++ pushed ∷ us) xs ys) (state (post p) (ts ++ appender ∷ us) xs ys)
  wakes :
      {p q : ThreadPool} {xs ys : List ℕ} (interrupted : Bool) (ts us : List Thread)
      → wait interrupted p ≡ ok q
      → Step (state p (ts ++ sleeping ∷ us) xs ys) (state q (ts ++ awake ∷ us) xs ys)
  finds_nothing :
      {p q : ThreadPool} {xs ys : List ℕ} (ts us : List Thread)
      → dequeue p ≡ ok (none, q)
      → Step (state p (ts ++ awake ∷ us) xs ys) (state q (ts ++ sleeping ∷ us) xs ys)
  takes :
      {p q : ThreadPool} {xs ys : List ℕ} (r : ℕ) (ts us : List Thread)
      → dequeue p ≡ ok (some r, q)
      → Step (state p (ts ++ awake ∷ us) xs ys) (state q (ts ++ working r ∷ us) xs (ys ++ r ∷ []))
  finishes :
      {p : ThreadPool} {xs ys : List ℕ} (r : ℕ) (ts us : List Thread)
      → Step (state p (ts ++ working r ∷ us) xs ys) (state p (ts ++ sleeping ∷ us) xs ys)

pub data Reach (s : State) : State → Type 0 where
  here : Reach s s
  next : {t u : State} → Reach s t → Step t u → Reach s u

-- Requests that the semaphore does not announce yet, or no longer.
abbrev in_transit : Thread → ℕ
in_transit pushed = 1
in_transit awake = 1
in_transit _ = 0

-- Every request that waits is announced by the semaphore, or in transit (an interrupted wait can
-- announce more); what was accepted is what was taken and then what waits, in order; at most one
-- request more than the bound waits.
pub record Inv (s : State) : Type 0 where
  pub free : s.pool.held ≡ false
  pub covered : length s.pool.work_queue ≤ s.pool.queue_stat + total in_transit s.threads
  pub in_order : s.accepted ≡ s.taken ++ s.pool.work_queue
  pub bounded : length s.pool.work_queue ≤ s.pool.max_requests + 1

pub Step-Inv : {s t : State} → Step s t → Inv s → Inv t
unfolding wait enqueue dequeue post
Step-Inv (refused r ts us e) v = ground arith
Step-Inv (accepts {p} {xs = xs} {ys} r ts us e) v = ground (
  arith,
  total-split in_transit ts appender us,
  total-split in_transit ts pushed us,
  length-append p.work_queue (r ∷ []),
  append_assoc ys p.work_queue (r ∷ []),
)
Step-Inv (posts ts us) v =
    ground (arith, total-split in_transit ts appender us, total-split in_transit ts pushed us)
Step-Inv (wakes interrupted ts us e) v =
    ground (arith, total-split in_transit ts sleeping us, total-split in_transit ts awake us)
Step-Inv (finds_nothing ts us e) v =
    ground (arith, total-split in_transit ts sleeping us, total-split in_transit ts awake us)
Step-Inv (takes {p} {q} {xs} {ys} r ts us e) v = ground (
  arith,
  total-split in_transit ts awake us,
  total-split in_transit ts (working r) us,
  append_assoc ys (r ∷ []) q.work_queue,
)
Step-Inv (finishes r ts us) v =
    ground (arith, total-split in_transit ts sleeping us, total-split in_transit ts (working r) us)

pub Reach-Inv : {s t : State} → Inv s → Reach s t → Inv t
Reach-Inv v here = v
Reach-Inv v (next r st) = Step-Inv st (Reach-Inv v r)

dequeue-eq :
    (p : ThreadPool) (r : ℕ) (rest : List ℕ)
    → p.held ≡ false
    → p.work_queue ≡ r ∷ rest
    → dequeue p ≡ ok (some r, record p { work_queue = rest })
unfolding dequeue
dequeue-eq p r rest free e = ground arith

-- Whether a thread is asleep, or busy with a request or with something else: not about to post, and
-- not behind its wait.
abbrev pub is_idle : Thread → Bool
is_idle t = in_transit t == 0

-- All threads are so.
abbrev pub all_idle : List Thread → Bool
all_idle [] = true
all_idle (t ∷ ts) = is_idle t && all_idle ts

none_in_transit : (ts : List Thread) → all_idle ts ≡ true → total in_transit ts ≡ 0
unfolding total
none_in_transit [] e = refl
none_in_transit (t ∷ ts) e = ground (arith, none_in_transit ts, e)

woken_takes :
    (interrupted : Bool) (p : ThreadPool) (r : ℕ) (rest : List ℕ)
    → 0 < p.queue_stat
    → p.held ≡ false
    → p.work_queue ≡ r ∷ rest
    → (do p ← wait interrupted p; dequeue p)
      ≡ ok (some r, record p { queue_stat = p.queue_stat - 1; work_queue = rest })
unfolding wait
woken_takes interrupted p r rest announced free e =
    ground (arith, dequeue-eq (record p { queue_stat = p.queue_stat - 1 }) r rest)

-- No wake-up is lost, whatever waits signals interrupt: in a run from a state that meets the
-- invariant, where a request waits in the queue and no thread is about to post or behind its wait,
-- the next worker that waits is not blocked, and takes the oldest request.
pub request_wakes :
    {s t : State} (r : ℕ) (rest : List ℕ) (interrupted : Bool)
    → Inv s
    → Reach s t
    → t.pool.work_queue ≡ r ∷ rest
    → all_idle t.threads ≡ true
    → Returns
        (λ (taken, q). (taken ≡ some r) × (q.work_queue ≡ rest))
        (do p ← wait interrupted t.pool; dequeue p)
request_wakes {t = t} r rest interrupted v reached e idle =
    let w : Inv t = Reach-Inv v reached in
    rw
      (woken_takes interrupted t.pool r rest
        (omega (arith, w.covered, ap length e, none_in_transit t.threads idle)) w.free e)
      (returns (refl, refl))

-- In a run from a state that meets the invariant every accepted request is taken at most once and
-- in order: what the workers took is a first part of what was accepted, and the rest still waits.
pub taken_in_order : {s t : State} → Inv s → Reach s t → t.accepted ≡ t.taken ++ t.pool.work_queue
taken_in_order v r = (Reach-Inv v r).in_order
