-- ===== src/Server/Loop/Stops.antt =====
-- How the loop stops: by the signal for termination.
use wzy_server.Prelude.{
  ℕ, ◌<◌, ◌≤◌, ◌≡◌, ◌≢◌, refl, sym, ap, ◌∙◌, true, false, ◌==◌, List, [], ◌∷◌, length, take, drop,
  arith, ok, Returns, returns, Returns-known, Returns-Whenever, Returns-bind, Returns-mono,
}
use wzy_server.Timer.Chain.{Entry}
use wzy_server.Server.{Server, Flags, on_signals, sigterm}
use wzy_server.Server.Refresh.{among, on_signals_lem}
use wzy_server.Server.Loop.{
  Event, takes, on_pipe, dispatch, on_event, on_events, Waited, ready, interrupted, fails,
  main_loop,
}
use wzy_server.Server.Loop.Invariant.{IsGood}
use wzy_server.Server.Loop.Events.{
  IsFair, on_event-IsGood, timeout-IsGood, signals-IsGood, eq_true, ne_false,
}
use wzy_server.Server.Loop.Runs.{Enough, Good}
use wzy_server.Server.Loop.Told.{IsTold, on_event-IsTold, on_timeout-IsTold}

-- The server with `n` bytes taken from the pipe.
abbrev signalled : ℕ → Server → Server
signalled n s = record s { bytes = drop n s.bytes; flags = on_signals (take n s.bytes) s.flags }

dispatch-signals :
    (fuel n : ℕ) (e : Event) (s : Server)
    → e.fd ≡ s.pipe_0
    → s.pipe_0 ≢ s.listenfd
    → e.hangup ≡ false
    → e.input ≡ true
    → e.signals ≡ takes n
    → dispatch fuel e s ≡ ok (false, signalled n s)
unfolding dispatch on_pipe
dispatch-signals fuel n e s here other up input arrived =
    let not_listen : (e.fd == s.listenfd) ≡ false = ne_false (λ e. other (sym here ∙ e)) in
    rw (not_listen, up, eq_true here, input, arrived) refl

-- A server that is told to stop leaves the loop.
stopped :
    (fuel : ℕ) (waits : List Waited) (s : Server)
    → s.flags.stop_server ≡ true
    → main_loop fuel waits s ≡ ok s
unfolding main_loop
stopped fuel [] s stops = simp stops refl
stopped fuel (fails ∷ waits) s stops = simp stops refl
stopped fuel (interrupted ∷ waits) s stops = simp stops refl
stopped fuel (ready events ∷ waits) s stops = simp stops refl

signalled_stops :
    (n : ℕ) (s : Server)
    → among sigterm (take n s.bytes) ≡ true
    → (signalled n s).flags.stop_server ≡ true
signalled_stops n s term =
    let flags = on_signals_lem (take n s.bytes) s.flags in
    ap (λ (f : Flags). f.stop_server) flags ∙ ground (arith, term)

-- The events of a batch, each fair when it is handled, and on fuel that is enough.
pub data FairBatch (fuel : ℕ) : (clock : ℕ) → Server → List Event → Type 0 where
  no_more : {clock : ℕ} {s : Server} → FairBatch fuel clock s []
  one_more :
      {clock : ℕ} {s : Server} {es : List Event} (e : Event)
      → IsFair s clock e
      → clock ≤ e.now
      → e.now ≤ e.tick_now
      → Enough fuel (length e.accepted) s
      → ((t : Server) → on_event fuel e s ≡ ok t → FairBatch fuel e.tick_now t es)
      → FairBatch fuel clock s (e ∷ es)

-- A batch of a server that is told to stop is handled to its end.
batch-IsTold :
    {fuel clock stale : ℕ} {s : Server} {es : List Event}
    → FairBatch fuel clock s es
    → Good clock stale s
    → IsTold s
    → Returns (λ t. IsTold t × ((later : ℕ) × Good later stale t)) (on_events fuel es s)
unfolding on_events
batch-IsTold {clock = clock} no_more g told = returns (told, (clock, g))
batch-IsTold {fuel} {s = s} (one_more e fair h later enough more) (xs, g) told =
    Returns-bind
      (Returns-known (
        Returns-Whenever (on_event-IsGood fuel e g fair h later (enough xs g.is_list))
          (on_event-IsTold fuel e s told)))
      λ t (done, ((ys, good, short), still)). batch-IsTold (more t done) (ys, good) still

-- The event of the pipe that brings the termination signal, to its end.
signal_event :
    (fuel n : ℕ) (e : Event) {s : Server} {clock stale : ℕ} {xs : List Entry}
    → IsGood s clock stale xs
    → e.fd ≡ s.pipe_0
    → s.pipe_0 ≢ s.listenfd
    → e.hangup ≡ false
    → e.input ≡ true
    → e.signals ≡ takes n
    → among sigterm (take n s.bytes) ≡ true
    → clock ≤ e.tick_now
    → length xs < fuel
    → Returns (λ t. IsTold t × Good e.tick_now stale t) (on_event fuel e s)
unfolding on_event on_pipe
signal_event fuel n e {s} g here other up input arrived term h f =
    rw (dispatch-signals fuel n e s here other up input arrived) (
      Returns-mono
        (Returns-Whenever (timeout-IsGood fuel e.tick_now (signals-IsGood (takes n) g) h f)
          (on_timeout-IsTold fuel e.tick_now (signalled n s) (signalled_stops n s term)))
        λ t ((ys, good, short), still). (still, (ys, good)))

-- Once the termination signal is among the bytes that `recv` takes from the pipe, and the events
-- behind it in the batch are fair, they are handled to the end, and the loop ends in the state that
-- the batch leaves, whatever epoll would report next: the server is told to stop, and the invariant
-- holds.
pub sigterm_stops :
    (fuel n : ℕ) (e : Event) (es : List Event) (waits : List Waited) {s : Server} {clock stale : ℕ}
    {xs : List Entry}
    → IsGood s clock stale xs
    → s.flags.stop_server ≡ false
    → e.fd ≡ s.pipe_0
    → s.pipe_0 ≢ s.listenfd
    → e.hangup ≡ false
    → e.input ≡ true
    → e.signals ≡ takes n
    → among sigterm (take n s.bytes) ≡ true
    → clock ≤ e.tick_now
    → length xs < fuel
    → ((t : Server) → on_event fuel e s ≡ ok t → FairBatch fuel e.tick_now t es)
    → Returns
        (λ t.
          (on_events fuel (e ∷ es) s ≡ ok t)
          × (t.flags.stop_server ≡ true)
          × ((later : ℕ) × Good later stale t))
        (main_loop fuel (ready (e ∷ es) ∷ waits) s)
unfolding main_loop on_events
sigterm_stops fuel n e es waits {s} g runs here other up input arrived term h f fair =
    let all = Returns-known (
      Returns-bind {k = λ t. on_events fuel es t}
        (Returns-known (signal_event fuel n e g here other up input arrived term h f))
        λ t (done, (still, good)). batch-IsTold (fair t done) good still) in
    simp (runs) (
      Returns-bind all
        λ t (done, (stop, good)). rw (stopped fuel waits t stop) (returns (done, stop, good)))
