-- ===== src/Server/Loop/Told.antt =====
-- Once `stop_server` is set, no event resets it.
use wzy_server.Prelude.{
  ℕ, zero, suc, ◌≡◌, ap, ◌∙◌, Bool, true, ◌==◌, ◌&&◌, if◌then◌else◌, List, [], ◌∷◌, take, arith,
  some, Bool-cases, inl, inr, ok, ◌>>=◌, Whenever, on_ok, on_fault, on_blocked, Whenever-bind,
  Whenever-if, Whenever-then,
}
use wzy_server.Prelude.Int.{pos, leb_ℤ}
use wzy_server.Timer.{null, Ptr, load, store, add_timer, del_timer, tick, Fired}
use wzy_server.ThreadPool.{append_job}
use wzy_server.Http.{read}
use wzy_server.Http.Send.{write}
use wzy_server.Server.{
  put_user, log, send_data_to, adjust_timer_once, max_fd, Server, Flags, user_at, data_at,
  address_of, cb_func_address, cb_func, call_back, call_backs, timer_handler, show_error, refresh,
}
use wzy_server.Server.Refresh.{on_signals_lem}
use wzy_server.Server.Loop.{
  new_timer, Accepted, accepts, refuses, Signals, takes, no_signals, no_pipe, Event, accept_user,
  accept_loop, give_up, on_hangup, on_pipe, on_input, on_output, dispatch, on_timeout, on_event,
}

-- The flag is set.
abbrev pub IsTold : Server → Type 0
IsTold s = s.flags.stop_server ≡ true

cb_func-IsTold : (p : Ptr) (s : Server) → IsTold s → Whenever IsTold (cb_func p s)
unfolding cb_func
cb_func-IsTold zero s told = on_fault
cb_func-IsTold (suc fd) s told = Whenever-then (data_at fd s) λ user_data. on_ok told

call_back-IsTold : (f : Fired) (s : Server) → IsTold s → Whenever IsTold (call_back f s)
unfolding call_back
call_back-IsTold (f, user_data) s told =
    Whenever-if (f == cb_func_address) (cb_func-IsTold user_data s told) on_fault

call_backs-IsTold : (fs : List Fired) (s : Server) → IsTold s → Whenever IsTold (call_backs fs s)
unfolding call_backs
call_backs-IsTold [] s told = on_ok told
call_backs-IsTold (f ∷ fs) s told =
    Whenever-bind (call_back-IsTold f s told) λ t still. call_backs-IsTold fs t still

accept_user-IsTold :
    (fuel connfd address now : ℕ) (timer : Ptr) (s : Server)
    → IsTold s
    → Whenever IsTold (accept_user fuel connfd address now timer s)
unfolding accept_user
accept_user-IsTold fuel connfd address now timer s told = Whenever-then (user_at connfd s) λ c.
    Whenever-then (add_timer fuel timer (store timer (some (new_timer connfd now)) s.timer_lst))
      λ l. on_ok told

accept_loop-IsTold :
    (fuel : ℕ) (accepted : List Accepted) (s : Server)
    → IsTold s
    → Whenever IsTold (accept_loop fuel accepted s)
unfolding accept_loop show_error
accept_loop-IsTold fuel [] s told = on_blocked
accept_loop-IsTold fuel (refuses errno ∷ more) s told = on_ok told
accept_loop-IsTold fuel (accepts connfd address now timer ∷ more) s told =
    Whenever-if (leb_ℤ (pos max_fd) s.user_count) (on_ok told) (
      Whenever-bind (accept_user-IsTold fuel connfd address now timer s told)
        λ t still. accept_loop-IsTold fuel more t still)

give_up-IsTold :
    (fd : ℕ) (timer : Ptr) (s : Server) → IsTold s → Whenever IsTold (give_up fd timer s)
unfolding give_up
give_up-IsTold fd timer s told = Whenever-then (load timer s.timer_lst) λ t.
    Whenever-bind (call_back-IsTold (t.cb_func, address_of fd) s told) λ u still.
      Whenever-then (if timer == null then ok u.timer_lst else del_timer timer u.timer_lst)
        λ l. on_ok still

on_hangup-IsTold : (fd : ℕ) (s : Server) → IsTold s → Whenever IsTold (on_hangup fd s)
unfolding on_hangup
on_hangup-IsTold fd s told =
    Whenever-then (data_at fd s) λ user_data. give_up-IsTold fd user_data.timer s told

on_input-IsTold :
    (fuel : ℕ) (e : Event) (s : Server) → IsTold s → Whenever IsTold (on_input fuel e s)
unfolding on_input
on_input-IsTold fuel e s told = Whenever-then (data_at e.fd s) λ user_data.
    Whenever-then (user_at e.fd s) λ c. Whenever-then (read e.received c) λ (readable, c).
      Whenever-if readable
        (Whenever-then (append_job (address_of e.fd) s.pool) λ (done, pool).
          Whenever-then (refresh fuel e.now user_data.timer s.timer_lst) λ l. on_ok told)
        (give_up-IsTold e.fd user_data.timer (put_user e.fd c s) told)

on_output-IsTold :
    (fuel : ℕ) (e : Event) (s : Server) → IsTold s → Whenever IsTold (on_output fuel e s)
unfolding on_output
on_output-IsTold fuel e s told = Whenever-then (data_at e.fd s) λ user_data.
    Whenever-then (user_at e.fd s) λ c. Whenever-then (write e.sent c) λ (kept, c).
      Whenever-if kept
        (put_off user_data.timer (log (send_data_to c.address) (put_user e.fd c s)) told)
        (give_up-IsTold e.fd user_data.timer (put_user e.fd c s) told)
  where
    put_off :
        (timer : Ptr) (t : Server)
        → IsTold t
        → Whenever IsTold (
            let t = if timer == null then t else log adjust_timer_once t in
            refresh fuel e.now timer t.timer_lst >>= λ l. ok (record t { timer_lst = l }))
    put_off timer t still = elim (Bool-cases (timer == null)) [
      | inl none_left ↦
          rw none_left (Whenever-then (refresh fuel e.now timer t.timer_lst) λ l. on_ok still)
      | inr some_left ↦
          rw some_left (Whenever-then (refresh fuel e.now timer t.timer_lst) λ l. on_ok still)
    ]

on_pipe-IsTold : (g : Signals) (s : Server) → IsTold s → IsTold (on_pipe g s).1
unfolding on_pipe
on_pipe-IsTold no_pipe s told = told
on_pipe-IsTold no_signals s told = told
on_pipe-IsTold (takes n) s told =
    ap (λ (f : Flags). f.stop_server) (on_signals_lem (take n s.bytes) s.flags)
    ∙ ground (arith, told)

abbrev Told : Bool × Server → Type 0
Told (continues, s) = IsTold s

dispatch-IsTold : (fuel : ℕ) (e : Event) (s : Server) → IsTold s → Whenever Told (dispatch fuel e s)
unfolding dispatch
dispatch-IsTold fuel e s told =
    Whenever-if (e.fd == s.listenfd)
      (Whenever-bind (accept_loop-IsTold fuel e.accepted s told) λ t still. on_ok still)
      (Whenever-if e.hangup (Whenever-bind (on_hangup-IsTold e.fd s told) λ t still. on_ok still) (
        Whenever-if ((e.fd == s.pipe_0) && e.input) (on_ok (on_pipe-IsTold e.signals s told)) (
          Whenever-if e.input (Whenever-bind (on_input-IsTold fuel e s told) λ t still. on_ok still)
            (Whenever-if e.output
              (Whenever-bind (on_output-IsTold fuel e s told) λ t still. on_ok still)
              (on_ok told)))))

pub on_timeout-IsTold :
    (fuel now : ℕ) (s : Server) → IsTold s → Whenever IsTold (on_timeout fuel now s)
unfolding on_timeout timer_handler
on_timeout-IsTold fuel now s told =
    Whenever-if s.flags.timeout
      (Whenever-bind {P = IsTold}
        (Whenever-then (tick fuel now s.timer_lst) λ (fired, l).
          Whenever-bind (call_backs-IsTold fired (record s { timer_lst = l }) told)
            λ t still. on_ok still)
        λ t still. on_ok still)
      (on_ok told)

-- Whatever an event does, a server that is told to stop stays told.
pub on_event-IsTold :
    (fuel : ℕ) (e : Event) (s : Server) → IsTold s → Whenever IsTold (on_event fuel e s)
unfolding on_event
on_event-IsTold fuel e s told =
    Whenever-bind (dispatch-IsTold fuel e s told) λ (continues, t) still.
      Whenever-if continues (on_ok still) (on_timeout-IsTold fuel e.tick_now t still)
