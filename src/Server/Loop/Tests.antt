-- ===== src/Server/Loop/Tests.antt =====
-- The main loop's theorems at a server with one client, on descriptor 7, whose timer is due at 310.
use wzy_server.Prelude.{
  ℕ, subst, sym, ◌∙◌, ok-injective, ◌+◌, ◌<◌, ◌≡◌, refl, ◌++◌, splice, true, false, ◌==◌,
  if◌then◌else◌, none, some, List, [], ◌∷◌, length, arith, Run, ok, Returns, returns, replicate,
  codes,
}
use wzy_server.Prelude.Int.{pos, ◌+ℤ◌}
use wzy_server.Samples.{blank_conn, one_file, blank_pool, idle_threads}
use wzy_server.Timer.{null, TimerList}
use wzy_server.Timer.Chain.{Entry, node, IsList}
use wzy_server.Http.{adds, gets, would_block, read}
use wzy_server.Http.Watched.{watched}
use wzy_server.Server.{Server, sigterm, on_signals}
use wzy_server.Server.Loop.{
  Event, takes, no_signals, on_hangup, on_input, on_timeout, on_event, on_events, ready, main_loop,
}
use wzy_server.Server.Loop.Invariant.{IsGood}
use wzy_server.Server.Loop.Accept.{Grows}
use wzy_server.Server.Loop.GiveUp.{GivesUp, IsClient, on_hangup-GivesUp}
use wzy_server.Server.Loop.Branches.{AfterInput, user_of, on_input-AfterInput}
use wzy_server.Server.Loop.Timeout.{TimesOut, on_timeout-TimesOut}
use wzy_server.Server.Loop.Events.{fair_hangup, fair_signals, on_event-IsGood}
use wzy_server.Server.Loop.Runs.{Good, start, then_step, handles, Reach-Good}
use wzy_server.Server.Loop.Stops.{FairBatch, no_more, one_more, sigterm_stops}
use wzy_server.Server.Loop.Stale.{LeftStale, hangup_after_timeout}

abbrev entry : Entry
entry = record { addr = 1; expire = 310; cb_func = 1; user_data = 8 }

abbrev timers : TimerList
timers = record {
  heap = λ p. if p == 1 then some (node entry null null) else none;
  head = 1;
  tail = 1;
}

abbrev one_client : Server
one_client = record {
  listenfd = 3;
  epollfd = 4;
  pipe_0 = 5;
  pipe_1 = 6;
  bytes = [];
  users = λ fd. record blank_conn { read_buf = replicate 2048 0 };
  users_timer = λ fd. record { address = 9; sockfd = fd; timer = if fd == 7 then 1 else null };
  timer_lst = timers;
  pool = idle_threads;
  conn_pool = blank_pool;
  accounts = [];
  user_count = pos 1;
  flags = record { timeout = false; stop_server = false };
  alarm = 100;
  calls = adds (pos 7) ∷ adds (pos 5) ∷ adds (pos 3) ∷ [];
  logs = [];
}

one_client-IsGood : IsGood one_client 10 0 (entry ∷ [])
unfolding watched ◌+ℤ◌
one_client-IsGood = record {
  is_list = ground arith;
  sorted = (tt, tt);
  recent = (omega arith, tt);
  wired = (record { fd = 7; owner = refl; in_array = refl; knows = refl; calls_back = refl }, tt);
  live = λ fd on not_listen not_pipe. ground (arith, on, not_listen, not_pipe);
  free = refl;
  counted = refl;
}

one_client-IsClient : IsClient one_client 7
unfolding watched
one_client-IsClient = record { watches = refl; not_listen = ground arith; not_pipe = ground arith }

on_hangup-GivesUp_example :
    Returns (GivesUp 7 one_client 10 0 (entry ∷ [])) (on_hangup 7 one_client)
on_hangup-GivesUp_example = on_hangup-GivesUp 7 one_client-IsGood one_client-IsClient

-- A batch for the client, at time 20; no other call gives anything.
abbrev event : Event
event = record {
  fd = 7;
  hangup = false;
  input = true;
  output = false;
  accepted = [];
  signals = no_signals;
  received = gets (codes "GET") ∷ would_block ∷ [];
  sent = [];
  now = 20;
  tick_now = 20;
}

hung_up : Event
hung_up = record event { hangup = true }

on_input-AfterInput_example :
    Returns
      (AfterInput true event one_client
        (record (user_of 7 one_client) { read_buf = codes "GET" ++ replicate 2045 0; read_idx = 3 })
        10
        0
        (entry ∷ []))
      (on_input 2 event one_client)
unfolding read splice
on_input-AfterInput_example =
    on_input-AfterInput 2 event one_client-IsGood one_client-IsClient (omega arith) (omega arith)
      true
      (record (user_of 7 one_client) { read_buf = codes "GET" ++ replicate 2045 0; read_idx = 3 })
      refl

abbrev rung : Server
rung = record one_client { flags = record { timeout = true; stop_server = false } }

rung-IsGood : IsGood rung 10 0 (entry ∷ [])
unfolding watched ◌+ℤ◌
rung-IsGood = record {
  is_list = one_client-IsGood.is_list;
  sorted = one_client-IsGood.sorted;
  recent = one_client-IsGood.recent;
  wired = one_client-IsGood.wired;
  live = one_client-IsGood.live;
  free = refl;
  counted = refl;
}

rung-IsClient : IsClient rung 7
unfolding watched
rung-IsClient = record { watches = refl; not_listen = ground arith; not_pipe = ground arith }

on_timeout-TimesOut_example : Returns (TimesOut rung 400 0 (entry ∷ [])) (on_timeout 2 400 rung)
on_timeout-TimesOut_example = on_timeout-TimesOut 400 rung-IsGood (omega arith) 2 (omega arith) refl

hangup_after_timeout_example : Returns (LeftStale 7 entry) (on_timeout 2 400 rung)
hangup_after_timeout_example =
    hangup_after_timeout 2 400 7 rung-IsGood rung-IsClient
      (record { before = []; entry = entry; after = []; all = refl; at = refl; owned = refl })
      (omega arith) (omega arith) refl (omega arith)

hung_up_returns : Returns (Grows 0 20 0 (entry ∷ [])) (on_event 2 hung_up one_client)
unfolding hung_up
hung_up_returns =
    on_event-IsGood 2 hung_up one_client-IsGood (fair_hangup one_client-IsClient refl) (omega arith)
      (omega arith) (omega arith)

on_event-IsGood_example : Returns (Grows 0 20 0 (entry ∷ [])) (on_event 2 hung_up one_client)
unfolding hung_up
on_event-IsGood_example =
    on_event-IsGood 2 hung_up one_client-IsGood (fair_hangup one_client-IsClient refl) (omega arith)
      (omega arith) (omega arith)

-- The signal for termination waits in the pipe.
abbrev told : Server
told = record one_client { bytes = 1 ∷ sigterm ∷ [] }

told-IsGood : IsGood told 10 0 (entry ∷ [])
told-IsGood = record {
  is_list = one_client-IsGood.is_list;
  sorted = one_client-IsGood.sorted;
  recent = one_client-IsGood.recent;
  wired = one_client-IsGood.wired;
  live = one_client-IsGood.live;
  free = refl;
  counted = one_client-IsGood.counted;
}

-- What a run returned.
ran : {A : Type 0} {P : A → Type 0} {m : Run A} → Returns P m → (a : A) × (m ≡ ok a)
ran (returns {a = a} p) = (a, refl)

-- The client hangs up.
abbrev gone : (t : Server) × (on_event 2 hung_up one_client ≡ ok t)
gone = ran hung_up_returns

one_timer : (xs : List Entry) → IsList timers xs → length xs + 0 < 2
one_timer [] is = omega arith
one_timer (x ∷ []) is = omega arith
one_timer (x ∷ y ∷ ys) is = absurd (ground (arith, is.chain.0, is.no_null))

-- An event that brings both bytes, and one for the pipe behind it that brings none.
abbrev brings_two : Event
brings_two = record event { fd = 5; signals = takes 2 }

abbrev brings_none : Event
brings_none = record event { fd = 5; now = 21; tick_now = 21 }

abbrev told_now : Server
told_now = record told { bytes = []; flags = record { timeout = false; stop_server = true } }

first_event : on_event 2 brings_two told ≡ ok told_now
unfolding on_event on_signals
first_event = refl

second-FairBatch :
    (t : Server) → on_event 2 brings_two told ≡ ok t → FairBatch 2 20 t (brings_none ∷ [])
second-FairBatch t e =
    subst (λ t. FairBatch 2 20 t (brings_none ∷ [])) (ok-injective (sym first_event ∙ e))
      (one_more brings_none (fair_signals (ground arith) refl refl refl) (omega arith) (omega arith)
        one_timer (λ u done. no_more))

sigterm_stops_example :
    Returns
      (λ t.
        (on_events 2 (brings_two ∷ brings_none ∷ []) told ≡ ok t)
        × (t.flags.stop_server ≡ true)
        × ((later : ℕ) × Good later 0 t))
      (main_loop 2 (ready (brings_two ∷ brings_none ∷ []) ∷ []) told)
sigterm_stops_example =
    sigterm_stops 2 2 brings_two (brings_none ∷ []) [] told-IsGood refl refl (ground arith) refl
      refl refl refl (omega arith) (omega arith) second-FairBatch

Reach-Good_example : Good 20 0 gone.0
unfolding hung_up
Reach-Good_example =
    Reach-Good {site = one_file}
      (then_step start (
        handles 2 hung_up (fair_hangup one_client-IsClient refl) (omega arith) (omega arith)
          one_timer gone.1))
      (entry ∷ [], one_client-IsGood)
