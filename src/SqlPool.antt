-- ===== src/SqlPool.antt =====
-- CGImysql/sql_connection_pool.h and sql_connection_pool.cpp: the pool of database connections.
pub mod Invariant
pub mod Threads
pub mod Guard
pub mod Interrupted
mod Tests
use Prim.Native.String.{String}
use wzy_server.Prelude.{
  ℕ, zero, suc, ◌+◌, ◌-◌, ◌%◌, ◌^◌, Bool, true, false, ◌==◌, if◌then◌else◌, Option, none, some,
  List, [], ◌∷◌, ◌++◌, length, Run, ok, fault, blocked, exits, ◌>>=◌, ◌>>◌,
}

-- A connection (a `MYSQL *`) is known by its address; `none` is the null pointer.
abbrev pub Conn : Type 0
Conn = ℕ

-- The counters are `unsigned int`.
abbrev pub add32 : ℕ → ℕ → ℕ
add32 a b = (a + b) % 2 ^ 32

abbrev pub sub32 : ℕ → ℕ → ℕ
sub32 a b = (a + 2 ^ 32 - b) % 2 ^ 32

-- `held` is the mutex `lock`, `reserve` the value of the semaphore.
pub record Pool : Type 0 where
  pub max_conn : ℕ
  pub cur_conn : ℕ
  pub free_conn : ℕ
  pub held : Bool
  pub conn_list : List Conn
  pub reserve : ℕ
  pub url : String
  pub port : List ℕ
  pub user : String
  pub pass_word : String
  pub data_base_name : String

abbrev pub lock : Pool → Run Pool
lock p = if p.held then blocked else ok (record p { held = true })

abbrev pub unlock : Pool → Pool
unlock p = record p { held = false }

-- What the MySQL client library answers to the `i`-th `mysql_init` and `mysql_real_connect`.
pub record Client : Type 0 where
  pub mysql_init : ℕ → Option Conn
  pub mysql_real_connect : ℕ → Conn → Option Conn

-- The loop of `init`, with the rounds left. A connection that fails ends the process.
pub connect_loop : Client → (rounds i : ℕ) → Pool → Run Pool
connect_loop client zero i p = ok p
connect_loop client (suc rounds) i p = elim (client.mysql_init i) [
  | none ↦ exits
  | some con ↦ elim (client.mysql_real_connect i con) [
    | none ↦ exits
    | some con ↦
        connect_loop client rounds (i + 1)
          (record p { conn_list = p.conn_list ++ con ∷ []; free_conn = add32 p.free_conn 1 })
  ]
]

-- `m_port` is a string, and assigning an `int` to it leaves the one character of that code.
pub init :
    Client → (url user pass_word data_base_name : String) → (port max_conn : ℕ) → Pool → Run Pool
unfolding connect_loop
init client url user pass_word data_base_name port max_conn p = do
  let p = record p {
    url = url;
    user = user;
    pass_word = pass_word;
    data_base_name = data_base_name;
    port = (port % 256) ∷ [];
    max_conn = max_conn;
  }
  p ← lock p
  p ← connect_loop client max_conn 0 p
  ok (unlock (record p { reserve = p.free_conn; max_conn = p.free_conn }))

-- `reserve.wait()`, whose result is not looked at, and `reserve.post()`. At 0 the wait ends without
-- a post where a signal's handler interrupts it: those for SIGALRM and SIGTERM are installed
-- without SA_RESTART.
pub wait : (interrupted : Bool) → Pool → Run Pool
wait interrupted p =
    if p.reserve == 0
    then (if interrupted then ok p else blocked)
    else ok (record p { reserve = p.reserve - 1 })

pub post : Pool → Pool
post p = record p { reserve = p.reserve + 1 }

-- `getConnection` from its lock to its unlock.
pub take_front : Pool → Run (Conn × Pool)
take_front p = do
  p ← lock p
  elim p.conn_list [
    | [] ↦ fault
    | con ∷ rest ↦ ok (
      con,
      unlock (record p {
        conn_list = rest;
        free_conn = sub32 p.free_conn 1;
        cur_conn = add32 p.cur_conn 1;
      }),
    )
  ]

pub get_connection : (interrupted : Bool) → Pool → Run (Option Conn × Pool)
unfolding wait take_front
get_connection interrupted p =
    if length p.conn_list == 0
    then ok (none, p)
    else do p ← wait interrupted p; (con, p) ← take_front p; ok (some con, p)

-- `releaseConnection` from its lock to its unlock.
pub put_back : Conn → Pool → Run Pool
put_back con p = do
  p ← lock p
  ok (
      unlock (record p {
        conn_list = p.conn_list ++ con ∷ [];
        free_conn = add32 p.free_conn 1;
        cur_conn = sub32 p.cur_conn 1;
      }))

pub release_connection : Option Conn → Pool → Run (Bool × Pool)
unfolding put_back post
release_connection none p = ok (false, p)
release_connection (some con) p = do p ← put_back con p; ok (true, post p)

-- The connections that it closes, in order.
pub destroy_pool : Pool → Run (List Conn × Pool)
destroy_pool p = do
  p ← lock p
  if length p.conn_list == 0
      then ok ([], unlock p)
      else ok (p.conn_list, unlock (record p { cur_conn = 0; free_conn = 0; conn_list = [] }))

pub get_free_conn : Pool → ℕ
get_free_conn p = p.free_conn

-- `connectionRAII` around a piece of code that leaves the pool alone: the constructor, the code
-- with the connection that it got, the destructor.
pub with_connection {ℓ} :
    {A : Type ℓ} → (interrupted : Bool) → (Option Conn → A) → Pool → Run (A × Pool)
with_connection interrupted body p = do
  (con, p) ← get_connection interrupted p
  let result = body con
  (_, p) ← release_connection con p
  ok (result, p)
