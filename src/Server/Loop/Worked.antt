-- ===== src/Server/Loop/Worked.antt =====
-- A worker's round between two events: it may close a connection whose timer stays in the list.
use wzy_server.Prelude.{
  Bool, ℕ, zero, suc, ◌+◌, ◌≤◌, ◌≡◌, refl, ap, ◌∙◌, List, length, ltb, ok, arith, Sure, sure,
  sure_fault, Sure-bind, Sure-if, Sure-option, Sure-mono, Sure-ok, subst,
}
use wzy_server.Prelude.Int.{pos, ◌+ℤ◌}
use wzy_server.Timer.Chain.{Entry}
use wzy_server.ThreadPool.Jobs.{run_round-free}
use wzy_server.SqlPool.{Pool}
use wzy_server.SqlPool.Guard.{with_connection-Sure}
use wzy_server.Http.{HttpConn}
use wzy_server.Http.Resource.{Site, Users}
use wzy_server.Http.Process.{process}
use wzy_server.Http.Process.Counted.{Leaves, leaves_open, leaves_closed, process-Sure}
use wzy_server.Server.{Server, max_fd, user_at, put_user}
use wzy_server.Server.Worker.{process_request, work}
use wzy_server.Server.Loop.Invariant.{IsGood, one_stale}
use wzy_server.Server.Loop.Branches.{user_of, put_user-IsGood, IsGood-beside}

-- The same timers, and as many stale ones or one more.
abbrev pub Works : (clock stale : ℕ) (xs : List Entry) → Server → Type 0
Works clock stale xs t = (more : ℕ) × (stale ≤ more) × (more ≤ stale + 1) × IsGood t clock more xs

module _ {s : Server} {clock stale : ℕ} {xs : List Entry} where
  Leaves-Works :
      (fd : ℕ) (c : HttpConn)
      → Leaves (user_of fd s) c
      → IsGood s clock stale xs
      → Works clock stale xs (put_user fd c s)
  Leaves-Works fd c (leaves_open still) g =
      (stale, omega arith, omega arith, put_user-IsGood fd c still g)
  Leaves-Works fd c (leaves_closed narrower less) g = (
    suc stale,
    omega arith,
    omega arith,
    record {
      is_list = g.is_list;
      sorted = g.sorted;
      recent = g.recent;
      wired = g.wired;
      live = λ f on. g.live f (narrower f on);
      free = g.free;
      counted =
          ap (λ k. k +ℤ pos (suc stale)) less ∙ one_stale s.user_count stale (length xs) g.counted;
    },
  )

IsGood-db :
    {s : Server} {clock stale : ℕ} {xs : List Entry} (p : Pool) (accounts : Users)
    → IsGood s clock stale xs
    → IsGood (record s { conn_pool = p; accounts = accounts }) clock stale xs
IsGood-db p accounts g = record {
  is_list = g.is_list;
  sorted = g.sorted;
  recent = g.recent;
  wired = g.wired;
  live = g.live;
  free = g.free;
  counted = g.counted;
}

process_request-Works :
    (reserve_interrupted : Bool) (site : Site) (request : ℕ) {s : Server} {clock stale : ℕ}
    {xs : List Entry}
    → IsGood s clock stale xs
    → Sure (Works clock stale xs) (process_request reserve_interrupted site request s)
unfolding process_request user_at
process_request-Works reserve_interrupted site zero g = sure_fault
process_request-Works reserve_interrupted site (suc fd) {s} {clock} {stale} {xs} g =
    Sure-bind {P = λ c. c ≡ user_of fd s} (Sure-if (ltb fd max_fd) (sure refl) sure_fault) λ c seen.
      Sure-bind
        (with_connection-Sure (λ con. process (record site { mysql = con }) c s.accounts)
          reserve_interrupted s.conn_pool)
        λ (processed, conn_pool) (con, ran). rw ran (
          Sure-bind
            (Sure-mono (process-Sure (record site { mysql = con }) c s.accounts)
              λ (d, us) l. Leaves-Works fd d (subst (λ c. Leaves c d) seen l) g)
            λ (d, us) (more, low, high, good). sure (more, low, high, IsGood-db conn_pool us good))

work-Sure :
    (queue_interrupted reserve_interrupted : Bool) (site : Site) {s : Server} {clock stale : ℕ}
    {xs : List Entry}
    → IsGood s clock stale xs
    → Sure (Works clock stale xs) (work queue_interrupted reserve_interrupted site s)
unfolding work
work-Sure queue_interrupted reserve_interrupted site {s} {stale = stale} g =
    Sure-bind (run_round-free queue_interrupted s.pool) λ (job, pool) free.
      Sure-option job (sure (stale, omega arith, omega arith, IsGood-beside s.logs pool free g))
        λ request.
          process_request-Works reserve_interrupted site request (IsGood-beside s.logs pool free g)

-- A round of a worker, if it returns, keeps the invariant; where it closes the connection that it
-- serves, the timer stays in the list, and one timer more is stale.
pub work-Works :
    (queue_interrupted reserve_interrupted : Bool) (site : Site) {s t : Server} {clock stale : ℕ}
    {xs : List Entry}
    → IsGood s clock stale xs
    → work queue_interrupted reserve_interrupted site s ≡ ok t
    → Works clock stale xs t
work-Works queue_interrupted reserve_interrupted site g e =
    Sure-ok (work-Sure queue_interrupted reserve_interrupted site g) e
