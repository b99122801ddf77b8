-- ===== src/Server/Loop.antt =====
-- server.cpp, `main`: the loop on epoll, with a branch for each kind of event.
pub mod Owned
mod Tests
pub mod Stale
pub mod Stops
pub mod Told
pub mod Runs
pub mod Events
pub mod Worked
pub mod Branches
pub mod Data
pub mod Timeout
pub mod GiveUp
pub mod Accept
pub mod Invariant
use wzy_server.Prelude.{
  ℕ, zero, suc, ◌+◌, ◌*◌, Bool, true, false, ◌&&◌, ◌==◌, if◌then◌else◌, List, [], ◌∷◌, some, Run,
  ok, blocked, ◌>>=◌, codes, take, drop,
}
use wzy_server.Prelude.Int.{ℤ, pos, leb_ℤ}
use wzy_server.Timer.{null, Ptr, Timer, load, store, add_timer, del_timer}
use wzy_server.ThreadPool.{append_job}
use wzy_server.Http.{init, read, Recv}
use wzy_server.Http.Send.{write, Sent}
use wzy_server.Server.{
  max_fd, timeslot, ClientData, Server, Flags, log, deal_with, send_data_to, accept_error,
  too_many_users, epoll_failure, adjust_timer_once, update, user_at, put_user, data_at, address_of,
  cb_func_address, call_back, timer_handler, show_error, refresh, on_signals,
}

-- What one `accept` gives: a descriptor with the client's address, the time then, and where
-- `new util_timer` puts the timer; or an error number.
pub data Accepted : Type 0 where
  accepts : (connfd address now : ℕ) (timer : Ptr) → Accepted
  refuses : (errno : ℕ) → Accepted

-- What `recv` on the pipe gives: a number of bytes, an error (-1), or the end (0).
pub data Signals : Type 0 where
  takes : ℕ → Signals
  no_signals no_pipe : Signals

-- An element of `events` with its flags, and what the calls made for it give: `accept`, `recv` on
-- the pipe, `recv` and `writev` on a connection, and the time, now and at the end of the event.
pub record Event : Type 0 where
  pub fd : ℕ
  pub hangup : Bool
  pub input : Bool
  pub output : Bool
  pub accepted : List Accepted
  pub signals : Signals
  pub received : List Recv
  pub sent : List Sent
  pub now : ℕ
  pub tick_now : ℕ

-- The timer of a new connection, as `main` fills it.
abbrev pub new_timer : (connfd now : ℕ) → Timer
new_timer connfd now = record {
  expire = now + 3 * timeslot;
  cb_func = cb_func_address;
  user_data = address_of connfd;
  prev = null;
  next = null;
}

-- A new connection: its user, its data, and its timer.
unfoldable pub accept_user : ℕ → (connfd address now : ℕ) → Ptr → Server → Run Server
accept_user fuel connfd address now timer s = do
  c ← user_at connfd s
  let s = put_user connfd (init (pos connfd) address c) s
  l ← add_timer fuel timer (store timer (some (new_timer connfd now)) s.timer_lst)
  ok (record s {
    users_timer =
        update s.users_timer connfd (record { address = address; sockfd = connfd; timer = timer });
    timer_lst = l;
  })

-- The loop on `accept`, on the listening descriptor, which does not block.
unfoldable pub accept_loop : ℕ → List Accepted → Server → Run Server
unfolding accept_user
accept_loop fuel [] s = blocked
accept_loop fuel (refuses errno ∷ more) s = ok (log (accept_error errno) s)
accept_loop fuel (accepts connfd address now timer ∷ more) s =
    let accepted = (do s ← accept_user fuel connfd address now timer s; accept_loop fuel more s) in
    if leb_ℤ (pos max_fd) s.user_count
    then ok (log too_many_users (show_error connfd (codes "too many users, server is busy") s))
    else accepted

-- `timer->cb_func(&users_timer[sockfd])`, and the timer deleted.
unfoldable pub give_up : ℕ → Ptr → Server → Run Server
give_up fd timer s = do
  t ← load timer s.timer_lst
  s ← call_back (t.cb_func, address_of fd) s
  l ← if timer == null then ok s.timer_lst else del_timer timer s.timer_lst
  ok (record s { timer_lst = l })

unfoldable pub on_hangup : ℕ → Server → Run Server
unfolding give_up
on_hangup fd s = do user_data ← data_at fd s; give_up fd user_data.timer s

-- The branch for signals: whether it goes on with the next event.
unfoldable pub on_pipe : Signals → Server → Bool × Server
on_pipe no_pipe s = (true, s)
on_pipe no_signals s = (true, s)
on_pipe (takes n) s =
    (false, record s { bytes = drop n s.bytes; flags = on_signals (take n s.bytes) s.flags })

-- The branch for a connection with data. Whether the job is taken is not looked at.
unfoldable pub on_input : ℕ → Event → Server → Run Server
unfolding give_up
on_input fuel e s = do
  user_data ← data_at e.fd s
  c ← user_at e.fd s
  (readable, c) ← read e.received c
  let s = put_user e.fd c s
  if readable
      then (do
        let s = log (deal_with c.address) s
        (_, pool) ← append_job (address_of e.fd) s.pool
        l ← refresh fuel e.now user_data.timer s.timer_lst
        ok (record s { pool = pool; timer_lst = l }))
      else give_up e.fd user_data.timer s

-- The branch for a connection that can be written to.
unfoldable pub on_output : ℕ → Event → Server → Run Server
unfolding give_up
on_output fuel e s = do
  user_data ← data_at e.fd s
  c ← user_at e.fd s
  (kept, c) ← write e.sent c
  let s = put_user e.fd c s
  if kept
      then (do
        let s = log (send_data_to c.address) s
        let s = if user_data.timer == null then s else log adjust_timer_once s
        l ← refresh fuel e.now user_data.timer s.timer_lst
        ok (record s { timer_lst = l }))
      else give_up e.fd user_data.timer s

-- The branches in their order, and whether the rest of the loop's body is left out.
unfoldable pub dispatch : ℕ → Event → Server → Run (Bool × Server)
unfolding accept_loop on_hangup on_pipe on_input on_output
dispatch fuel e s =
    if e.fd == s.listenfd
    then (do s ← accept_loop fuel e.accepted s; ok (true, s))
    else if e.hangup
    then (do s ← on_hangup e.fd s; ok (false, s))
    else if (e.fd == s.pipe_0) && e.input
    then ok (on_pipe e.signals s)
    else if e.input
    then (do s ← on_input fuel e s; ok (false, s))
    else if e.output
    then (do s ← on_output fuel e s; ok (false, s))
    else ok (false, s)

-- The end of the body, if the alarm has gone off.
unfoldable pub on_timeout : ℕ → ℕ → Server → Run Server
on_timeout fuel now s =
    if s.flags.timeout
    then (do
      s ← timer_handler fuel now s
      ok (record s { flags = record s.flags { timeout = false } }))
    else ok s

unfoldable pub on_event : ℕ → Event → Server → Run Server
unfolding dispatch on_timeout
on_event fuel e s = do
  (continues, s) ← dispatch fuel e s
  if continues then ok s else on_timeout fuel e.tick_now s

unfoldable pub on_events : ℕ → List Event → Server → Run Server
unfolding on_event
on_events fuel [] s = ok s
on_events fuel (e ∷ es) s = do s ← on_event fuel e s; on_events fuel es s

-- What one `epoll_wait` gives; `interrupted` is the error EINTR.
pub data Waited : Type 0 where
  ready : List Event → Waited
  interrupted fails : Waited

-- The loop, until it is told to stop or epoll fails.
pub main_loop : ℕ → List Waited → Server → Run Server
unfolding on_events
main_loop fuel [] s = if s.flags.stop_server then ok s else blocked
main_loop fuel (fails ∷ more) s = if s.flags.stop_server then ok s else ok (log epoll_failure s)
main_loop fuel (interrupted ∷ more) s =
    let rest = main_loop fuel more s in if s.flags.stop_server then ok s else rest
main_loop fuel (ready events ∷ more) s =
    let round = (do s ← on_events fuel events s; main_loop fuel more s) in
    if s.flags.stop_server then ok s else round
