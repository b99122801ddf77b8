-- ===== src/Server/Setup/Ready.antt =====
-- A start at which every call succeeds, and starts that fail.
use wzy_server.Prelude.{
  ℕ, ◌<◌, ◌≤◌, Option, if◌then◌else◌, ◌≡◌, ◌↔◌, refl, ap, ◌∙◌, true, false, none, some, List, [],
  ◌++◌, length, length-append, ltb, leb, ltb→lt, not_ltb→le, arith, Run, ok, fault, exits, blocked,
  out_of_fuel, Returns, returns, Returns-bind, codes, Bool-cases, inl, inr,
}
use wzy_server.Prelude.Int.{pos, ◌+ℤ◌}
use wzy_server.ThreadPool.{ThreadPool}
use wzy_server.ThreadPool.Jobs.{init-starts}
use wzy_server.SqlPool.{Conn, Pool}
use wzy_server.SqlPool.Invariant.{IsUp, IsValid, init-IsValid, length-conns_from}
use wzy_server.Http.Watched.{watched}
use wzy_server.Http.Resource.{Users, last_slash, find_user, login}
use wzy_server.Http.Table.Loaded.{filled, last_of, table_welcomes}
use wzy_server.Log.{Log}
use wzy_server.Log.Writer.{construct}
use wzy_server.Log.Writer.Names.{init_returns}
use wzy_server.Server.{sigalrm, sigterm}
use wzy_server.Server.Loop.Invariant.{IsGood}
use wzy_server.Server.Setup.{
  init_path, Handlers, addsig, Machine, Made, Setup, returns_early, made, first_server,
  open_sockets, setup, sigpipe,
}

-- `getcwd` for a buffer of 100 bytes, as it is documented: the path with its NUL, or a null
-- pointer.
abbrev pub into_100 : List ℕ → Option (List ℕ)
into_100 cwd = if ltb (length cwd) 100 then some cwd else none

path_fits : (cwd : List ℕ) → length cwd < 95 → init_path (some cwd) ≡ ok (cwd ++ codes "/root")
unfolding init_path
path_fits cwd short =
    let fits : ltb (length (cwd ++ codes "/root")) 100 ≡ true =
      ground (arith, short, length-append cwd (codes "/root")) in
    rw fits refl

path_overflows : (cwd : List ℕ) → 95 ≤ length cwd → init_path (some cwd) ≡ fault
unfolding init_path
path_overflows cwd long =
    let over : ltb (length (cwd ++ codes "/root")) 100 ≡ false =
      ground (arith, long, length-append cwd (codes "/root")) in
    rw over refl

no_path : init_path none ≡ fault
unfolding init_path
no_path = refl

-- What `init_path` makes of a working directory.
abbrev pub root_of : List ℕ → Run (List ℕ)
root_of cwd = if ltb (length cwd) 95 then ok (cwd ++ codes "/root") else fault

-- The root is the working directory with "/root" behind it where the directory has fewer than 95
-- bytes; with 95 to 99 the buffer of 100 bytes overflows, and with more there is no buffer, whose
-- null pointer is written to: both are undefined.
pub init_path_fits : (cwd : List ℕ) → init_path (into_100 cwd) ≡ root_of cwd
init_path_fits cwd = elim (Bool-cases (ltb (length cwd) 95)) [
  | inl short ↦
      let there : ltb (length cwd) 100 ≡ true = ground (arith, short) in
      rw (short, there) (path_fits cwd (ltb→lt (length cwd) 95 short))
  | inr long ↦ elim (Bool-cases (ltb (length cwd) 100)) [
    | inl there ↦ rw (long, there) (path_overflows cwd (not_ltb→le (length cwd) 95 long))
    | inr none_there ↦ rw (long, none_there) no_path
  ]
]

-- Every call that `main` makes before its loop succeeds, on objects that are new.
pub record Succeeds (m : Machine) (cwd : List ℕ) (conn : ℕ → Conn) (rows : Users)
    (listenfd epollfd : ℕ) (pipefd : ℕ × ℕ) : Type 0 where
  pub getcwd_is : m.getcwd ≡ some cwd
  pub short : length cwd < 95
  pub args : 2 < m.argc
  pub handles : (sig : ℕ) → m.sigaction sig ≡ true
  pub up : IsUp m.client conn
  pub free : m.static_pool.held ≡ false
  pub no_conns : m.static_pool.conn_list ≡ []
  pub none_free : m.static_pool.free_conn ≡ 0
  pub none_used : m.static_pool.cur_conn ≡ 0
  pub threads : (j : ℕ) → j < 8 → (m.create j ≡ true) × (m.detach j ≡ true)
  pub table : m.result ≡ some (filled rows)
  pub socket_is : m.socket ≡ some listenfd
  pub binds : m.bind ≡ true
  pub listens : m.listen ≡ true
  pub epoll_is : m.epoll_create ≡ some epollfd
  pub pipe_is : m.socketpair ≡ some pipefd

-- The loop begins in a good state: 8 threads on an empty queue, 8 connections to the database, none
-- of them lent, the accounts of the table, no client and no timer.
pub record IsReady (cwd : List ℕ) (rows : Users) (r : Setup) : Type 0 where
  pub made_it : Made
  pub result_is : r ≡ made made_it
  pub good : IsGood made_it.server 0 0 []
  pub root : made_it.doc_root ≡ cwd ++ codes "/root"
  pub threads : made_it.server.pool.started ≡ 8
  pub most : made_it.server.pool.max_requests ≡ 10000
  pub empty : made_it.server.pool.work_queue ≡ []
  pub silent : made_it.server.pool.queue_stat ≡ 0
  pub runs : made_it.server.pool.stop ≡ false
  pub conns : length made_it.server.conn_pool.conn_list ≡ 8
  pub database : IsValid made_it.server.conn_pool 0
  pub logins :
      (name password : List ℕ)
      → (login name password made_it.server.accounts ≡ codes "/welcome.html")
        ↔ (last_of name rows none ≡ some password)

-- A pool of threads that nothing has been given to.
record IsIdle (p : ThreadPool) : Type 0 where
  threads : p.started ≡ 8
  most : p.max_requests ≡ 10000
  empty : p.work_queue ≡ []
  silent : p.queue_stat ≡ 0
  free : p.held ≡ false
  runs : p.stop ≡ false

server_log-no_slash : last_slash (codes "ServerLog") ≡ none
unfolding last_slash
server_log-no_slash = refl

-- A `try` around a run that returns.
tried {ℓ κ μ} :
    {A : Type ℓ} {B : Type 0} {P : A → Type κ} {Q : B → Type μ} {m : Run A} {k : A → Run B}
    (caught : Run B)
    → Returns P m
    → ((a : A) → P a → Returns Q (k a))
    → Returns Q (elim m [
      | ok a ↦ k a
      | exits ↦ caught
      | fault ↦ fault
      | blocked ↦ blocked
      | out_of_fuel ↦ out_of_fuel
    ])
tried caught (returns p) next = next _ p

module _ {m : Machine} {cwd : List ℕ} {conn : ℕ → Conn} {rows : Users} {listenfd epollfd : ℕ}
    {pipefd : ℕ × ℕ} (w : Succeeds m cwd conn rows listenfd epollfd pipefd) where
  first_server-IsGood :
      (pool : ThreadPool) (conn_pool : Pool) (accounts : Users)
      → pool.held ≡ false
      → IsGood (first_server m pool conn_pool accounts listenfd epollfd pipefd) 0 0 []
  unfolding watched ◌+ℤ◌
  first_server-IsGood pool conn_pool accounts free = record {
    is_list = record { head_is = refl; tail_is = tt; chain = tt; distinct = tt; no_null = refl };
    sorted = tt;
    recent = tt;
    wired = tt;
    live = λ fd on not_listen not_pipe. absurd (ground (arith, on, not_listen, not_pipe));
    free = free;
    counted = refl;
  }

  open_sockets-IsReady :
      (pool : ThreadPool) (conn_pool : Pool) (doc_root : List ℕ) (log : Log) (handlers : Handlers)
      → doc_root ≡ cwd ++ codes "/root"
      → IsIdle pool
      → IsValid conn_pool 0
      → length conn_pool.conn_list ≡ 8
      → Returns
          (λ d. IsReady cwd rows (made d))
          (open_sockets m pool conn_pool doc_root log handlers)
  unfolding open_sockets addsig find_user
  open_sockets-IsReady pool conn_pool doc_root log handlers root idle valid eight =
      rw
        (
          w.table,
          w.socket_is,
          w.binds,
          w.listens,
          w.epoll_is,
          w.pipe_is,
          w.handles sigalrm,
          w.handles sigterm,
        )
        (Returns-bind (table_welcomes rows [] valid (omega (arith, eight)))
          λ (accounts, p) (kept, same, logins). returns (record {
            made_it = _;
            result_is = refl;
            good = first_server-IsGood pool p accounts idle.free;
            root = root;
            threads = idle.threads;
            most = idle.most;
            empty = idle.empty;
            silent = idle.silent;
            runs = idle.runs;
            conns = same ∙ eight;
            database = kept;
            logins = logins;
          }))

  -- When every call succeeds `main` gets to its loop, with the working directory's "/root" as root,
  -- 8 worker threads on an empty queue of at most 10000 requests, 8 connections to the database
  -- that are all free, with counters and semaphore to match, exactly the table's accounts to log in
  -- with, no timer and no client, in a state that meets the loop's invariant.
  pub setup-IsReady : Returns (IsReady cwd rows) (setup m)
  unfolding setup addsig
  setup-IsReady =
      let enough : leb m.argc 2 ≡ false = ground (arith, w.args) in
      rw (w.getcwd_is, path_fits cwd w.short)
        (Returns-bind
          (init_returns m.fopen m.time (codes "ServerLog") 2000 800000 (pos 8)
            (construct m.static_log) server_log-no_slash)
          λ (opened, log) _.
            rw (enough, w.handles sigpipe)
              (Returns-bind
                (init-IsValid w.up "localhost" "root" "123456" "wzydb" 3306 8 m.static_pool
                  (omega arith) w.free w.no_conns w.none_free w.none_used)
                λ p (valid, conns, max_conn).
                  tried (ok (returns_early 1)) (init-starts m.create m.detach 7 9999 w.threads)
                    λ pool (started, most, empty, quiet, free, runs).
                      Returns-bind
                        (open_sockets-IsReady pool p (cwd ++ codes "/root") log _ refl
                          (record {
                            threads = started;
                            most = most;
                            empty = empty;
                            silent = quiet;
                            free = free;
                            runs = runs;
                          })
                          valid (ap length conns ∙ length-conns_from conn 8 0))
                        λ d ready. returns ready))
