-- ===== src/Server/Worker.antt =====
-- threadpool.h's worker on the server's state: a request is taken, processed with a database
-- connection of its own, and left for the main loop.
use wzy_server.Prelude.{Bool, ℕ, zero, suc, none, some, Run, ok, fault, ◌>>=◌}
use wzy_server.ThreadPool.{run_round}
use wzy_server.SqlPool.{with_connection}
use wzy_server.Http.Resource.{Site}
use wzy_server.Http.Process.{process}
use wzy_server.Server.{Server, user_at, put_user}

-- `connectionRAII mysqlcon(&request->mysql, m_connPool); request->process();`, for the request at
-- the address.
unfoldable pub process_request : (reserve_interrupted : Bool) → Site → ℕ → Server → Run Server
process_request reserve_interrupted site zero s = fault
process_request reserve_interrupted site (suc fd) s = do
  c ← user_at fd s
  (processed, conn_pool) ←
      with_connection reserve_interrupted
        (λ con. process (record site { mysql = con }) c s.accounts) s.conn_pool
  (c, accounts) ← processed
  ok (record (put_user fd c s) { conn_pool = conn_pool; accounts = accounts })

-- One round of a worker, with whether signals interrupt its wait for a job and for a connection.
unfoldable pub work : (queue_interrupted reserve_interrupted : Bool) → Site → Server → Run Server
unfolding process_request
work queue_interrupted reserve_interrupted site s = do
  (job, pool) ← run_round queue_interrupted s.pool
  let s = record s { pool = pool }
  elim job [ none ↦ ok s | some request ↦ process_request reserve_interrupted site request s ]
