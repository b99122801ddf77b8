-- ===== src/Server/Loop/Branches.antt =====
-- The branches for connections with data: a timer put off, or the connection given up.
use wzy_server.Prelude.{
  ℕ, ◌≤◌, ◌<◌, ◌≡◌, refl, sym, ap, ◌∙◌, Bool, true, false, ◌==◌, if◌then◌else◌, List, [], ◌∷◌, ◌++◌,
  length, ltb, ok, Returns, returns, Returns-bind, Returns-mono, Sure-ok, Bool-cases, inl, inr,
}
use wzy_server.Prelude.Int.{pos, ◌+ℤ◌}
use wzy_server.Timer.{null}
use wzy_server.Timer.Chain.{Entry}
use wzy_server.ThreadPool.{ThreadPool, append_job}
use wzy_server.ThreadPool.Jobs.{append_job_lem}
use wzy_server.Http.{HttpConn, read}
use wzy_server.Http.Watched.{IsStill, IsQuiet-IsStill, read-Sure}
use wzy_server.Http.Send.{write}
use wzy_server.Http.Send.Still.{write-Sure}
use wzy_server.Server.{
  Server, user_at, put_user, data_at, address_of, refresh, Message, deal_with, send_data_to,
  adjust_timer_once,
}
use wzy_server.Server.Loop.{Event, on_input, on_output}
use wzy_server.Server.Loop.Invariant.{IsGood}
use wzy_server.Server.Loop.GiveUp.{GivesUp, IsClient, client_in_array, give_up-GivesUp}
use wzy_server.Server.Loop.Data.{PutsOff, client-PutsOff}

-- `users[fd]` as a method of it sees it.
abbrev pub user_of : ℕ → Server → HttpConn
user_of fd s = record (s.users fd) { user_count = s.user_count; calls = s.calls }

-- A method that leaves the watched descriptors and the count alone keeps the invariant.
pub put_user-IsGood :
    (fd : ℕ) (c : HttpConn) {s : Server} {clock stale : ℕ} {xs : List Entry}
    → IsStill (user_of fd s) c
    → IsGood s clock stale xs
    → IsGood (put_user fd c s) clock stale xs
put_user-IsGood fd c {stale} {xs} still g = record {
  is_list = g.is_list;
  sorted = g.sorted;
  recent = g.recent;
  wired = g.wired;
  live = λ f on. g.live f (sym (still.same_watched f) ∙ on);
  free = g.free;
  counted = ap (λ k. k +ℤ pos stale) still.same_count ∙ g.counted;
}

put_user-IsClient :
    (fd : ℕ) (c : HttpConn) {s : Server}
    → IsStill (user_of fd s) c
    → IsClient s fd
    → IsClient (put_user fd c s) fd
put_user-IsClient fd c still client = record {
  watches = still.same_watched fd ∙ client.watches;
  not_listen = client.not_listen;
  not_pipe = client.not_pipe;
}

pub IsGood-beside :
    {s : Server} {clock stale : ℕ} {xs : List Entry} (m : List Message) (p : ThreadPool)
    → p.held ≡ false
    → IsGood s clock stale xs
    → IsGood (record s { logs = m; pool = p }) clock stale xs
IsGood-beside m p free g = record {
  is_list = g.is_list;
  sorted = g.sorted;
  recent = g.recent;
  wired = g.wired;
  live = g.live;
  free = free;
  counted = g.counted;
}

-- The queue behind `append_job`: the request is at its end, or left out where more than
-- `max_requests` wait.
abbrev pub queued : ℕ → ThreadPool → List ℕ
queued r p =
    if ltb p.max_requests (length p.work_queue) then p.work_queue else p.work_queue ++ r ∷ []

append_job-free :
    (r : ℕ) (p : ThreadPool)
    → p.held ≡ false
    → Returns (λ (done, q). (q.held ≡ false) × (q.work_queue ≡ queued r p)) (append_job r p)
append_job-free r p free =
    rw (append_job_lem r p free) (elim (Bool-cases (ltb p.max_requests (length p.work_queue))) [
      | inl full ↦ rw full (returns (free, refl))
      | inr room ↦ rw room (returns (free, refl))
    ])

-- What the branch for a connection with data leaves: the job queued and the timer put off, or,
-- where `read` returned false, the connection closed.
abbrev pub AfterInput :
    Bool
    → (e : Event) (s : Server) (c : HttpConn) (clock stale : ℕ) (xs : List Entry) → Server
    → Type 0
AfterInput true e s c clock stale xs t =
    PutsOff s e.fd e.now stale xs t × (t.pool.work_queue ≡ queued (address_of e.fd) s.pool)
AfterInput false e s c clock stale xs t = GivesUp e.fd (put_user e.fd c s) clock stale xs t

-- The branch for a connection that can be written to: the timer put off, or, where `write` returned
-- false, the connection closed.
abbrev pub AfterOutput :
    Bool
    → (e : Event) (s : Server) (c : HttpConn) (clock stale : ℕ) (xs : List Entry) → Server
    → Type 0
AfterOutput true e s c clock stale xs t = PutsOff s e.fd e.now stale xs t
AfterOutput false e s c clock stale xs t = GivesUp e.fd (put_user e.fd c s) clock stale xs t

module _ (fuel : ℕ) (e : Event) {s : Server} {clock stale : ℕ} {xs : List Entry}
    (g : IsGood s clock stale xs) (client : IsClient s e.fd) (h : clock ≤ e.now)
    (f : length xs < fuel) where
  module _ (c : HttpConn) (still : IsStill (user_of e.fd s) c) where
    after-IsGood : IsGood (put_user e.fd c s) clock stale xs
    after-IsGood = put_user-IsGood e.fd c still g

    after-IsClient : IsClient (put_user e.fd c s) e.fd
    after-IsClient = put_user-IsClient e.fd c still client

    put_off :
        (m : List Message) (p : ThreadPool)
        → p.held ≡ false
        → Returns
            (λ l.
              PutsOff s e.fd e.now stale xs
                (record (put_user e.fd c s) { logs = m; pool = p; timer_lst = l }))
            (refresh fuel e.now (s.users_timer e.fd).timer s.timer_lst)
    put_off m p free =
        Returns-mono
          (client-PutsOff fuel e.now e.fd (IsGood-beside m p free after-IsGood)
            (record {
              watches = after-IsClient.watches;
              not_listen = client.not_listen;
              not_pipe = client.not_pipe;
            })
            h f)
          λ l k. record { place = k.place; good = k.good }

  -- A client with data whose `read` returned true has its job put at the end of the queue, unless
  -- more than `max_requests` jobs wait, in which case it is left out without a word, and its timer
  -- is put off to three slots from now, every other timer staying as it is; one whose `read`
  -- returned false is closed, its timer and no other leaving the list. Either way the invariant
  -- holds again.
  pub on_input-AfterInput :
      (readable : Bool) (c : HttpConn)
      → read e.received (user_of e.fd s) ≡ ok (readable, c)
      → Returns (AfterInput readable e s c clock stale xs) (on_input fuel e s)
  unfolding on_input data_at user_at
  on_input-AfterInput true c done =
      let fits = client_in_array e.fd g client in
      let still = IsQuiet-IsStill (Sure-ok (read-Sure e.received (user_of e.fd s)) done) in
      rw (fits, done)
        (Returns-bind (append_job-free (address_of e.fd) s.pool g.free) λ (done, p) (free, queue).
          Returns-bind (put_off c still (deal_with c.address ∷ s.logs) p free)
            λ l off. returns (off, queue))
  on_input-AfterInput false c done =
      let fits = client_in_array e.fd g client in
      let still = IsQuiet-IsStill (Sure-ok (read-Sure e.received (user_of e.fd s)) done) in
      rw (fits, done) (give_up-GivesUp e.fd (after-IsGood c still) (after-IsClient c still))

  -- A client whose `write` returned true has its timer put off, one whose `write` returned false is
  -- closed. Either way the invariant holds again.
  pub on_output-AfterOutput :
      (kept : Bool) (c : HttpConn)
      → write e.sent (user_of e.fd s) ≡ ok (kept, c)
      → Returns (AfterOutput kept e s c clock stale xs) (on_output fuel e s)
  unfolding on_output data_at user_at
  on_output-AfterOutput true c done =
      let fits = client_in_array e.fd g client in
      let still = Sure-ok (write-Sure e.sent (user_of e.fd s)) done in
      let sent = send_data_to c.address ∷ s.logs in
      rw (fits, done)
        (elim (Bool-cases ((s.users_timer e.fd).timer == null)) [
          | inl null_timer ↦
              rw null_timer (Returns-bind (put_off c still sent s.pool g.free) λ l off. returns off)
          | inr some_timer ↦ rw some_timer (
              Returns-bind (put_off c still (adjust_timer_once ∷ sent) s.pool g.free)
                λ l off. returns off)
        ])
  on_output-AfterOutput false c done =
      let fits = client_in_array e.fd g client in
      let still = Sure-ok (write-Sure e.sent (user_of e.fd s)) done in
      rw (fits, done) (give_up-GivesUp e.fd (after-IsGood c still) (after-IsClient c still))
