-- ===== src/Log/Delivery.antt =====
-- Where `write_log` leaves a line: in the queue of the writing thread, or in the file.
use wzy_server.Prelude.{
  ℕ, ◌<◌, ◌≡◌, refl, true, false, some, List, [], ◌∷◌, ◌++◌, length, arith, leb, ok, Returns,
  returns, Returns-bind,
}
use wzy_server.Log.{Log, lock, deliver, put_locked, put_line}
use wzy_server.Queue.Invariant.{Holds}
use wzy_server.Queue.Fifo.{full-eq, push-room}

pub put_locked-eq :
    (s : List ℕ) (l : Log) (name : List ℕ)
    → l.held ≡ false
    → l.file ≡ some name
    → put_locked s l ≡ ok (record l { output = l.output ++ (name, s) ∷ [] })
unfolding put_locked lock put_line
put_locked-eq s l name free is_open = ground (arith, free, is_open)

-- With room in its queue, the asynchronous log puts a line behind those that wait, and nothing into
-- the file.
pub deliver_queues :
    (s : List ℕ) (l : Log) (waiting : List (List ℕ))
    → l.is_async ≡ true
    → l.log_queue.held ≡ false
    → Holds l.log_queue waiting
    → length waiting < l.log_queue.max_size
    → Returns (λ l'. Holds l'.log_queue (waiting ++ s ∷ []) × (l'.output ≡ l.output)) (deliver s l)
unfolding deliver
deliver_queues s l waiting async free h room =
    let below : leb l.log_queue.max_size (length waiting) ≡ false = ground (arith, room) in
    rw (async, full-eq h free, below)
      (Returns-bind (push-room h free s room) λ (done, q) (_, left, _). returns (left.holds, refl))

-- With a full queue the line goes into the file at once, before the lines that wait in the queue.
pub deliver_overtakes :
    (s : List ℕ) (l : Log) (waiting : List (List ℕ)) (name : List ℕ)
    → l.is_async ≡ true
    → l.log_queue.held ≡ false
    → l.held ≡ false
    → l.file ≡ some name
    → Holds l.log_queue waiting
    → length waiting ≡ l.log_queue.max_size
    → Returns
        (λ l'. Holds l'.log_queue waiting × (l'.output ≡ l.output ++ (name, s) ∷ []))
        (deliver s l)
unfolding deliver
deliver_overtakes s l waiting name async free_queue free is_open h filled =
    let limit : leb l.log_queue.max_size (length waiting) ≡ true = ground (arith, filled) in
    rw (full-eq h free_queue, limit, put_locked-eq s l name free is_open, async) (returns (h, refl))
