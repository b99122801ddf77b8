-- ===== src/Log/Writer/Written.antt =====
-- Lines that are queued get into the file, in their order.
use wzy_server.Prelude.{
  ℕ, ◌+◌, ◌<◌, ◌≤◌, ◌≡◌, refl, sym, ap, subst, ◌∙◌, true, false, some, List, [], ◌∷◌, ◌++◌, map,
  length, leb, length-append, append_assoc, append-nil, replicate, arith, Run, ok, ◌>>=◌, Returns,
  returns, Returns-bind, Returns-mono,
}
use wzy_server.Queue.Invariant.{Holds}
use wzy_server.Queue.Fifo.{popped, pop-eq, popped-Left, full-eq, push-room}
use wzy_server.Log.{Log, deliver}
use wzy_server.Log.Delivery.{put_locked-eq}
use wzy_server.Log.Writer.{write_round, async_write_log}

-- The log waits to write: its locks are free, its file is open, and the queue holds some lines.
pub record IsReady (name : List ℕ) (waiting : List (List ℕ)) (l : Log) : Type 0 where
  pub async : l.is_async ≡ true
  pub free : l.held ≡ false
  pub free_queue : l.log_queue.held ≡ false
  pub is_open : l.file ≡ some name
  pub holds : Holds l.log_queue waiting

-- What was put into the file `name`, behind what was there.
abbrev pub Puts : (name : List ℕ) (lines waiting : List (List ℕ)) → Log → Log → Type 0
Puts name lines waiting l l' =
    IsReady name waiting l' × (l'.output ≡ l.output ++ map (λ s. (name, s)) lines)

write_round-Puts :
    (name s : List ℕ) (waiting : List (List ℕ)) (l : Log)
    → IsReady name (s ∷ waiting) l
    → Returns (λ (took, l'). (took ≡ true) × Puts name (s ∷ []) waiting l l') (write_round [] l)
unfolding write_round
write_round-Puts name s waiting l r =
    let after = record l { log_queue = popped l.log_queue } in
    let left = popped-Left r.holds in
    rw (pop-eq r.holds r.free_queue, put_locked-eq s after name r.free r.is_open)
      (returns (
        refl,
        (
          record {
            async = r.async;
            free = r.free;
            free_queue = left.free;
            is_open = r.is_open;
            holds = left.holds;
          },
          refl,
        ),
      ))

-- The writing thread puts the lines that wait into the file, each once and in their order, as many
-- as it makes rounds, and leaves the rest waiting.
pub async_write_log-Puts :
    (name : List ℕ) (lines waiting : List (List ℕ)) (l : Log)
    → IsReady name (lines ++ waiting) l
    → Returns (Puts name lines waiting l) (async_write_log (replicate (length lines) []) l)
unfolding async_write_log
async_write_log-Puts name [] waiting l r = returns (r, sym (append-nil l.output))
async_write_log-Puts name (s ∷ lines) waiting l r =
    Returns-bind (write_round-Puts name s (lines ++ waiting) l r) λ (took, m) (done, (ready, out)).
      rw done (
        Returns-mono (async_write_log-Puts name lines waiting m ready) λ n (kept, all). (
          kept,
          all
              ∙ ap (λ o. o ++ map (λ s. (name, s)) lines) out
              ∙ append_assoc l.output ((name, s) ∷ []) (map (λ s. (name, s)) lines),
        ))

-- `deliver` of several lines, one after the other.
abbrev pub deliver_all : List (List ℕ) → Log → Run Log
deliver_all [] l = ok l
deliver_all (s ∷ lines) l = deliver s l >>= λ l. deliver_all lines l

deliver-IsReady :
    (name s : List ℕ) (waiting : List (List ℕ)) (l : Log)
    → IsReady name waiting l
    → length waiting < l.log_queue.max_size
    → Returns
        (λ l'.
          IsReady name (waiting ++ s ∷ []) l'
          × (l'.output ≡ l.output)
          × (l'.log_queue.max_size ≡ l.log_queue.max_size))
        (deliver s l)
unfolding deliver
deliver-IsReady name s waiting l r room =
    let below : leb l.log_queue.max_size (length waiting) ≡ false = ground (arith, room) in
    rw (r.async, full-eq r.holds r.free_queue, below)
      (Returns-bind (push-room r.holds r.free_queue s room) λ (done, q) (_, left, _). returns (
        record {
          async = refl;
          free = r.free;
          free_queue = left.free;
          is_open = r.is_open;
          holds = left.holds;
        },
        refl,
        left.capacity,
      ))

deliver_all-IsReady :
    (name : List ℕ) (lines waiting : List (List ℕ)) (l : Log)
    → IsReady name waiting l
    → length waiting + length lines ≤ l.log_queue.max_size
    → Returns
        (λ l'. IsReady name (waiting ++ lines) l' × (l'.output ≡ l.output))
        (deliver_all lines l)
deliver_all-IsReady name [] waiting l r room = returns (rw append-nil r, refl)
deliver_all-IsReady name (s ∷ lines) waiting l r room =
    Returns-bind (deliver-IsReady name s waiting l r (omega (arith, room))) λ m (ready, quiet, cap).
      Returns-mono
        (deliver_all-IsReady name lines (waiting ++ s ∷ []) m ready
          (omega (arith, room, cap, length-append waiting (s ∷ []))))
        λ n (kept, out). (rw append_assoc at kept, out ∙ quiet)

-- Lines that are delivered while the queue has room reach the file behind what waited and in the
-- order of their deliveries, once the writing thread has made as many rounds as there are lines.
pub delivered_in_order :
    (name : List ℕ) (waiting lines : List (List ℕ)) (l : Log)
    → IsReady name waiting l
    → length waiting + length lines ≤ l.log_queue.max_size
    → Returns
        (Puts name (waiting ++ lines) [] l)
        (deliver_all lines l >>= λ l. async_write_log (replicate (length (waiting ++ lines)) []) l)
delivered_in_order name waiting lines l r room =
    Returns-bind (deliver_all-IsReady name lines waiting l r room) λ m (ready, quiet).
      Returns-mono
        (async_write_log-Puts name (waiting ++ lines) [] m
          (subst (λ w. IsReady name w m) (sym (append-nil (waiting ++ lines))) ready))
        λ n (kept, out). (kept, out ∙ ap (λ o. o ++ map (λ s. (name, s)) (waiting ++ lines)) quiet)
