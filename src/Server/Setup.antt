-- ===== src/Server/Setup.antt =====
-- server.cpp: what `main` does before its loop and behind it.
pub mod Ready
mod Tests
use Prim.Native.String.{String}
use wzy_server.Prelude.{
  ℕ, zero, suc, ◌+◌, Bool, true, false, if◌then◌else◌, Option, none, some, List, [], ◌∷◌, ◌++◌,
  length, ltb, leb, Run, ok, fault, blocked, exits, out_of_fuel, ◌>>=◌, ◌>>◌, codes, or_fault,
}
use wzy_server.Prelude.Int.{ℤ, pos}
use wzy_server.Timer.{null, destroy as destroy_timers}
use wzy_server.ThreadPool.{ThreadPool, init as start_threads, destroy as stop_threads}
use wzy_server.SqlPool.{Pool, Client, init as connect}
use wzy_server.Http.{HttpConn, adds, closes}
use wzy_server.Http.Table.{Row, initmysql_result}
use wzy_server.Log.{Log, Time}
use wzy_server.Log.Writer.{construct, init as start_log}
use wzy_server.Server.{Server, ClientData, Flags, timeslot, sigalrm, sigterm}
use wzy_server.Server.Loop.{Waited, main_loop}

-- `init_path`: `getcwd` gives a buffer of 100 bytes, or a null pointer where the path does not fit.
unfoldable pub init_path : Option (List ℕ) → Run (List ℕ)
init_path getcwd = do
  doc_root ← or_fault getcwd
  let path = doc_root ++ codes "/root"
  if ltb (length path) 100 then ok path else fault

pub data Handler : Type 0 where
  sig_ign runs_sig_handler : Handler

abbrev pub sigpipe : ℕ
sigpipe = 13

-- The handlers of signals, newest first, with whether they restart system calls.
abbrev pub Handlers : Type 0
Handlers = List (ℕ × Handler × Bool)

-- `assert`
abbrev pub assert : Bool → Run (Unit {0})
assert b = if b then ok tt else exits

-- `addsig`; `sigaction` says whether the call of this name succeeds on a signal.
unfoldable pub addsig :
    (sigaction : ℕ → Bool) → (sig : ℕ) → Handler → (restart : Bool) → Handlers → Run Handlers
addsig sigaction sig handler restart hs = do
  assert (sigaction sig)
  ok ((sig, handler, restart) ∷ hs)

-- What `main` finds: its arguments, the memory of the arrays that it allocates and of the static
-- objects, and what the calls give that it makes. `none` is a call that failed.
pub record Machine : Type 0 where
  pub argc : ℕ
  pub getcwd : Option (List ℕ)
  pub fopen : List ℕ → Bool
  pub time : Time
  pub static_log : Log
  pub sigaction : ℕ → Bool
  pub client : Client
  pub static_pool : Pool
  pub create : ℕ → Bool
  pub detach : ℕ → Bool
  pub users : ℕ → HttpConn
  pub users_timer : ℕ → ClientData
  pub result : Option (List Row)
  pub socket : Option ℕ
  pub bind : Bool
  pub listen : Bool
  pub epoll_create : Option ℕ
  pub socketpair : Option (ℕ × ℕ)

-- What `main` has made when its loop begins, or the value that it returned before.
pub record Made : Type 0 where
  pub server : Server
  pub log : Log
  pub doc_root : List ℕ
  pub handlers : Handlers

pub data Setup : Type 0 where
  returns_early : ℕ → Setup
  made : Made → Setup

-- `assert` on the descriptor that a call gave.
abbrev pub asserted {ℓ} : {A : Type ℓ} → Option A → Run A
asserted none = exits
asserted (some a) = ok a

-- The server when its loop begins.
abbrev pub first_server :
    Machine → ThreadPool → Pool → List (List ℕ × List ℕ) → (listenfd epollfd : ℕ) → ℕ × ℕ → Server
first_server m pool conn_pool accounts listenfd epollfd pipefd = record {
  listenfd = listenfd;
  epollfd = epollfd;
  pipe_0 = pipefd.0;
  pipe_1 = pipefd.1;
  bytes = [];
  users = m.users;
  users_timer = m.users_timer;
  timer_lst = record { heap = λ p. none; head = null; tail = null };
  pool = pool;
  conn_pool = conn_pool;
  accounts = accounts;
  user_count = pos 0;
  flags = record { timeout = false; stop_server = false };
  alarm = timeslot;
  calls = adds (pos pipefd.0) ∷ adds (pos listenfd) ∷ [];
  logs = [];
}

-- From the thread pool on: the users, the sockets and the pipe, and the handlers.
unfoldable pub open_sockets :
    Machine → ThreadPool → Pool → (doc_root : List ℕ) → Log → Handlers → Run Made
unfolding addsig
open_sockets m pool conn_pool doc_root log handlers = do
  (accounts, conn_pool) ← initmysql_result m.result conn_pool []
  listenfd ← asserted m.socket
  assert m.bind
  assert m.listen
  epollfd ← asserted m.epoll_create
  pipefd ← asserted m.socketpair
  handlers ← addsig m.sigaction sigalrm runs_sig_handler false handlers
  handlers ← addsig m.sigaction sigterm runs_sig_handler false handlers
  ok (record {
    log = log;
    doc_root = doc_root;
    handlers = handlers;
    server = first_server m pool conn_pool accounts listenfd epollfd pipefd;
  })

-- `main` up to its loop. An exception of the thread pool's constructor is caught.
unfoldable pub setup : Machine → Run Setup
unfolding init_path open_sockets
setup m = do
  doc_root ← init_path m.getcwd
  (_, log) ←
      start_log m.fopen m.time (codes "ServerLog") 2000 800000 (pos 8) (construct m.static_log)
  if leb m.argc 2 then ok (returns_early 1) else do
    handlers ← addsig m.sigaction sigpipe sig_ign true []
    conn_pool ← connect m.client "localhost" "root" "123456" "wzydb" 3306 8 m.static_pool
    elim (start_threads m.create m.detach (pos 8) (pos 10000)) [
      | ok pool ↦ (do d ← open_sockets m pool conn_pool doc_root log handlers; ok (made d))
      | exits ↦ ok (returns_early 1)
      | fault ↦ fault
      | blocked ↦ blocked
      | out_of_fuel ↦ out_of_fuel
    ]

-- Behind the loop: descriptors are closed, the pool is deleted, and at the end of the process the
-- static list of timers is.
unfoldable pub shutdown : ℕ → Server → Run Server
shutdown fuel s = do
  let s = record s {
    calls =
        closes (pos s.pipe_0)
        ∷ closes (pos s.pipe_1)
        ∷ closes (pos s.listenfd)
        ∷ closes (pos s.epollfd)
        ∷ s.calls;
    pool = stop_threads s.pool;
  }
  l ← destroy_timers fuel s.timer_lst
  ok (record s { timer_lst = l })

-- `main`, with what its waits give: the value that it returns, and the server if there is one.
pub main : ℕ → Machine → List Waited → Run (ℕ × Option Server)
unfolding setup shutdown
main fuel m waits = do
  started ← setup m
  elim started [
    | returns_early n ↦ ok (n, none)
    | made d ↦ (do s ← main_loop fuel waits d.server; s ← shutdown fuel s; ok (0, some s))
  ]
