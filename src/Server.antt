-- ===== src/Server.antt =====
-- server.cpp: what the server keeps, its signals, its callback, and what `main` does with timers.
pub mod Refresh
pub mod Loop
pub mod Setup
pub mod Worker
use wzy_server.Prelude.{
  ℕ, zero, suc, ◌+◌, ◌*◌, ◌%◌, ◌++◌, Bool, true, false, ◌==◌, if◌then◌else◌, List, [], ◌∷◌, some,
  Run, ok, fault, ◌>>=◌, codes, ltb,
}
use wzy_server.Prelude.Int.{ℤ, pos, ◌-ℤ◌}
use wzy_server.Timer.{null, Ptr, Timer, TimerList, Fired, load, store, adjust_timer, tick}
use wzy_server.ThreadPool.{ThreadPool}
use wzy_server.SqlPool.{Pool}
use wzy_server.Http.{HttpConn, SysCall, removes, closes, sends}
use wzy_server.Http.Resource.{Users}

abbrev pub max_fd : ℕ
max_fd = 65536

abbrev pub timeslot : ℕ
timeslot = 100

abbrev pub sigalrm : ℕ
sigalrm = 14

abbrev pub sigterm : ℕ
sigterm = 15

-- `client_data`
pub record ClientData : Type 0 where
  pub address : ℕ
  pub sockfd : ℕ
  pub timer : Ptr

-- The flags `timeout` and `stop_server`.
pub record Flags : Type 0 where
  pub timeout : Bool
  pub stop_server : Bool

-- The lines that server.cpp logs. Clients are known by their addresses.
pub data Message : Type 0 where
  close_fd deal_with send_data_to accept_error : ℕ → Message
  too_many_users epoll_failure adjust_timer_once : Message

-- What `main` and the statics keep: `pipe_0` and `pipe_1` are `pipefd`, `bytes` is what stands
-- unread in the pipe, `accounts` the map of users of http_conn.cpp, `user_count` the static
-- `m_user_count`, `alarm` the last argument of `alarm`. `calls` and `logs` are the system calls
-- and the log's lines, newest first.
pub record Server : Type 0 where
  pub listenfd : ℕ
  pub epollfd : ℕ
  pub pipe_0 : ℕ
  pub pipe_1 : ℕ
  pub bytes : List ℕ
  pub users : ℕ → HttpConn
  pub users_timer : ℕ → ClientData
  pub timer_lst : TimerList
  pub pool : ThreadPool
  pub conn_pool : Pool
  pub accounts : Users
  pub user_count : ℤ
  pub flags : Flags
  pub alarm : ℕ
  pub calls : List SysCall
  pub logs : List Message

abbrev pub log : Message → Server → Server
log m s = record s { logs = m ∷ s.logs }

-- An array with one element changed.
unfoldable pub update {ℓ} : {A : Type ℓ} → (ℕ → A) → ℕ → A → ℕ → A
update f k v i = if i == k then v else f i

-- `users[fd]` for a method call, with the statics that it sees, and what the call leaves.
unfoldable pub user_at : ℕ → Server → Run HttpConn
user_at fd s =
    if ltb fd max_fd
    then ok (record (s.users fd) { user_count = s.user_count; calls = s.calls })
    else fault

abbrev pub put_user : ℕ → HttpConn → Server → Server
put_user fd c s = record s {
  users = update s.users fd c;
  user_count = c.user_count;
  calls = c.calls;
}

-- `users_timer[fd]`
unfoldable pub data_at : ℕ → Server → Run ClientData
data_at fd s = if ltb fd max_fd then ok (s.users_timer fd) else fault

-- The address of the `fd`-th element of an array, never 0.
abbrev pub address_of : ℕ → Ptr
address_of fd = suc fd

-- `cb_func`, with the address of an element of `users_timer`.
unfoldable pub cb_func : Ptr → Server → Run Server
unfolding data_at
cb_func zero s = fault
cb_func (suc fd) s = do
  user_data ← data_at fd s
  ok (
      log (close_fd user_data.sockfd) (record s {
        calls = closes (pos user_data.sockfd) ∷ removes (pos user_data.sockfd) ∷ s.calls;
        user_count = s.user_count -ℤ pos 1;
      }))

-- The address of the function `cb_func`, and a call through a timer's function pointer.
abbrev pub cb_func_address : ℕ
cb_func_address = 1

unfoldable pub call_back : Fired → Server → Run Server
unfolding cb_func
call_back (f, user_data) s = if f == cb_func_address then cb_func user_data s else fault

unfoldable pub call_backs : List Fired → Server → Run Server
unfolding call_back
call_backs [] s = ok s
call_backs (f ∷ fs) s = do s ← call_back f s; call_backs fs s

-- `timer_handler` at the time `now`. A callback leaves the timers alone, so the calls that `tick`
-- makes are made behind it.
unfoldable pub timer_handler : ℕ → ℕ → Server → Run Server
unfolding call_backs
timer_handler fuel now s = do
  (fired, l) ← tick fuel now s.timer_lst
  s ← call_backs fired (record s { timer_lst = l })
  ok (record s { alarm = timeslot })

-- `sig_handler`: the low byte of the signal's number goes into the pipe.
pub sig_handler : ℕ → Server → Server
sig_handler sig s = record s { bytes = s.bytes ++ (sig % 256) ∷ [] }

unfoldable pub show_error : ℕ → List ℕ → Server → Server
show_error connfd info s = record s { calls = closes (pos connfd) ∷ sends info ∷ s.calls }

-- What both branches for a connection with data do with its timer: put it off and move it.
pub refresh : ℕ → ℕ → Ptr → TimerList → Run TimerList
refresh fuel cur timer l = if timer == null then ok l else do
  t ← load timer l
  adjust_timer fuel timer (store timer (some (record t { expire = cur + 3 * timeslot })) l)

-- The loop over the signals that came through the pipe.
unfoldable pub on_signals : List ℕ → Flags → Flags
on_signals [] f = f
on_signals (s ∷ ss) f = on_signals ss (
    if s == sigalrm
    then record f { timeout = true }
    else if s == sigterm
    then record f { stop_server = true }
    else f)
