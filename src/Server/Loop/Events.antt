-- ===== src/Server/Loop/Events.antt =====
-- Whole events, and every run of the main loop and the workers.
use wzy_server.Prelude.{
  ℕ, ◌+◌, ◌≤◌, ◌<◌, ◌≡◌, ◌≢◌, ap, Bool, true, false, ◌==◌, List, ◌++◌, length, length-append, arith,
  ok, Returns, returns, Returns-bind, Returns-mono, Bool-cases, inl, inr,
}
use wzy_server.Timer.Chain.{Entry}
use wzy_server.Http.{HttpConn, read}
use wzy_server.Http.Send.{write}
use wzy_server.Server.{Server}
use wzy_server.Server.Loop.{Event}
use wzy_server.Server.Loop.Invariant.{IsGood}
use wzy_server.Server.Loop.GiveUp.{GivesUp, IsClient}
use wzy_server.Server.Loop.Branches.{
  user_of, AfterInput, AfterOutput, on_input-AfterInput, on_output-AfterOutput,
}
use wzy_server.Server.Loop.Invariant.{IsGood-later}
use wzy_server.Server.Loop.GiveUp.{on_hangup-GivesUp, length-remove}
use wzy_server.Server.Loop.Data.{PutsOff-length}
use wzy_server.Server.Loop.Accept.{Arrivals, Grows, accept_loop-IsGood}
use wzy_server.Server.Loop.Timeout.{on_timeout-TimesOut}
use wzy_server.Server.Loop.{
  dispatch, on_event, on_pipe, on_timeout, Signals, takes, no_signals, no_pipe,
}

-- An event as epoll reports it: for the listening descriptor, the pipe, or a client that it
-- watches; `read` and `write` return, as they do for what a descriptor that does not block gives.
pub data IsFair (s : Server) (clock : ℕ) (e : Event) : Type 0 where
  fair_listen :
      e.fd ≡ s.listenfd → Arrivals s.timer_lst.heap e.now clock e.accepted → IsFair s clock e
  fair_signals :
      e.fd ≢ s.listenfd → e.fd ≡ s.pipe_0 → e.hangup ≡ false → e.input ≡ true → IsFair s clock e
  fair_hangup : IsClient s e.fd → e.hangup ≡ true → IsFair s clock e
  fair_input :
      IsClient s e.fd
      → e.hangup ≡ false
      → e.input ≡ true
      → (readable : Bool) (c : HttpConn) → read e.received (user_of e.fd s) ≡ ok (readable, c)
      → IsFair s clock e
  fair_output :
      IsClient s e.fd
      → e.hangup ≡ false
      → e.input ≡ false
      → e.output ≡ true
      → (kept : Bool) (c : HttpConn) → write e.sent (user_of e.fd s) ≡ ok (kept, c)
      → IsFair s clock e

pub ne_false : {a b : ℕ} → a ≢ b → (a == b) ≡ false
ne_false ne = ground (arith, ne)

pub eq_true : {a b : ℕ} → a ≡ b → (a == b) ≡ true
eq_true e = ground (arith, e)

pub signals-IsGood :
    (g : Signals) {s : Server} {clock stale : ℕ} {xs : List Entry}
    → IsGood s clock stale xs
    → IsGood (on_pipe g s).1 clock stale xs
unfolding on_pipe
signals-IsGood no_pipe g = g
signals-IsGood no_signals g = g
signals-IsGood (takes n) g = record {
  is_list = g.is_list;
  sorted = g.sorted;
  recent = g.recent;
  wired = g.wired;
  live = g.live;
  free = g.free;
  counted = g.counted;
}

module _ (fuel : ℕ) (e : Event) {s : Server} {clock stale : ℕ} {xs : List Entry}
    (g : IsGood s clock stale xs) (h : clock ≤ e.now)
    (f : length xs + length e.accepted < fuel) where
  abbrev Room : Server → Type 0
  Room = Grows stale e.now (length e.accepted) xs

  GivesUp-Room : {fd : ℕ} {s t : Server} → GivesUp fd s clock stale xs t → Room t
  GivesUp-Room k = (
    k.place.before ++ k.place.after,
    IsGood-later e.now h k.good,
    omega (arith, ap length k.place.all, length-remove k.place.before k.place.entry k.place.after),
  )

  AfterInput-Room :
      (readable : Bool) (c : HttpConn) (t : Server)
      → AfterInput readable e s c clock stale xs t
      → Room t
  AfterInput-Room true c t (k, queue) = (_, k.good, omega (arith, PutsOff-length k))
  AfterInput-Room false c t k = GivesUp-Room k

  AfterOutput-Room :
      (kept : Bool) (c : HttpConn) (t : Server) → AfterOutput kept e s c clock stale xs t → Room t
  AfterOutput-Room true c t k = (_, k.good, omega (arith, PutsOff-length k))
  AfterOutput-Room false c t k = GivesUp-Room k

  dispatch-IsGood : IsFair s clock e → Returns (λ (continues, t). Room t) (dispatch fuel e s)
  unfolding dispatch
  dispatch-IsGood (fair_listen here arrivals) = rw (eq_true here) (
      Returns-bind (accept_loop-IsGood fuel e.now e.accepted g f arrivals) λ t grown. returns grown)
  dispatch-IsGood (fair_signals other here up input) =
      rw (ne_false other, up, eq_true here, input)
        (returns (xs, IsGood-later e.now h (signals-IsGood e.signals g), omega arith))
  dispatch-IsGood (fair_hangup client up) =
      rw (ne_false client.not_listen, up)
        (Returns-bind (on_hangup-GivesUp e.fd g client) λ t k. returns (GivesUp-Room k))
  dispatch-IsGood (fair_input client up input readable c done) =
      rw (ne_false client.not_listen, up, ne_false client.not_pipe, input)
        (Returns-bind (on_input-AfterInput fuel e g client h (omega (arith, f)) readable c done)
          λ t k. returns (AfterInput-Room readable c t k))
  dispatch-IsGood (fair_output client up input output kept c done) =
      rw (ne_false client.not_listen, up, ne_false client.not_pipe, input, output)
        (Returns-bind (on_output-AfterOutput fuel e g client h (omega (arith, f)) kept c done)
          λ t k. returns (AfterOutput-Room kept c t k))

-- The end of an event.
pub timeout-IsGood :
    (fuel now : ℕ) {s : Server} {clock stale : ℕ} {xs : List Entry}
    → IsGood s clock stale xs
    → clock ≤ now
    → length xs < fuel
    → Returns (Grows stale now 0 xs) (on_timeout fuel now s)
unfolding on_timeout
timeout-IsGood fuel now {s} {clock} {stale} {xs} g h f = elim (Bool-cases s.flags.timeout) [
  | inl rings ↦ Returns-mono (on_timeout-TimesOut now g h fuel f rings) λ t out.
      (out.left, out.good, omega (arith, ap length out.all, length-append out.due out.left))
  | inr quiet ↦ simp quiet (returns (xs, IsGood-later now h g, omega arith))
]

-- A fair event is handled to its end, and keeps the invariant; no more timers are added than
-- connections were accepted.
pub on_event-IsGood :
    (fuel : ℕ) (e : Event) {s : Server} {clock stale : ℕ} {xs : List Entry}
    → IsGood s clock stale xs
    → IsFair s clock e
    → clock ≤ e.now
    → e.now ≤ e.tick_now
    → length xs + length e.accepted < fuel
    → Returns (Grows stale e.tick_now (length e.accepted) xs) (on_event fuel e s)
unfolding on_event
on_event-IsGood fuel e g fair h later f =
    Returns-bind (dispatch-IsGood fuel e g h f fair) λ (continues, t) (ys, good, short).
      elim (Bool-cases continues) [
        | inl goes_on ↦ rw goes_on (returns (ys, IsGood-later e.tick_now later good, short))
        | inr to_end ↦ rw to_end (
            Returns-mono (timeout-IsGood fuel e.tick_now good later (omega (arith, short, f)))
              λ u (zs, kept, shorter). (zs, kept, omega (arith, short, shorter)))
      ]
