-- ===== src/Http/Process/Ended.antt =====
-- http/http_conn.cpp, `process`: when it keeps the connection and when it closes it.
use wzy_server.Prelude.{
  ℕ, ◌≡◌, ◌≢◌, refl, ap, ◌∙◌, Bool, true, false, if◌then◌else◌, List, ◌∷◌, arith, ok, Sure, sure,
  Sure-bind, Sure-ok, Sure-known,
}
use wzy_server.Prelude.Int.{pos, negsuc, ◌-ℤ◌}
use wzy_server.Http.{
  HttpConn, HttpCode, no_request, SysCall, rearms, closes, removes, epollin, epollout, close_conn,
  removefd, modfd, is_minus_one,
}
use wzy_server.Http.Watched.{watched, IsQuiet, IsQuiet-trans}
use wzy_server.Http.Resource.{Site, Users}
use wzy_server.Http.Response.{process_write}
use wzy_server.Http.Response.Quiet.{process_write-Sure}
use wzy_server.Http.Process.{process_read, respond, process}
use wzy_server.Http.Process.Rounds.{process_read-Sure}

-- The connection is left open, with its descriptor armed.
pub record IsOpen (armed : List SysCall) (c d : HttpConn) : Type 0 where
  pub calls : d.calls ≡ armed
  pub same_count : d.user_count ≡ c.user_count
  pub same_sockfd : d.sockfd ≡ c.sockfd

-- The connection on `fd` is closed, and the others are not touched.
pub record IsClosed (fd : ℕ) (c d : HttpConn) : Type 0 where
  pub calls : d.calls ≡ rearms (negsuc 0) epollout ∷ closes (pos fd) ∷ removes (pos fd) ∷ c.calls
  pub unwatched : watched d.calls fd ≡ false
  pub others : (other : ℕ) → other ≢ fd → watched d.calls other ≡ watched c.calls other
  pub one_less : d.user_count ≡ c.user_count -ℤ pos 1
  pub no_sockfd : d.sockfd ≡ negsuc 0

-- What becomes of the connection `c` on `fd` once `process_read` has given `code` and `seen`.
pub data Ended (code : HttpCode) (fd : ℕ) (c seen d : HttpConn) : Type 0 where
  waits :
      code ≡ no_request → IsOpen (rearms (pos fd) epollin ∷ c.calls) c d → Ended code fd c seen d
  answers :
      (page : HttpConn)
      → code ≢ no_request
      → process_write code seen ≡ ok (true, page)
      → IsOpen (rearms (pos fd) epollout ∷ c.calls) c d
      → Ended code fd c seen d
  gives_up :
      (page : HttpConn)
      → code ≢ no_request
      → process_write code seen ≡ ok (false, page)
      → IsClosed fd c d
      → Ended code fd c seen d

modfd-IsOpen :
    {c d : HttpConn} {fd : ℕ}
    → IsQuiet c d
    → c.sockfd ≡ pos fd
    → (IsOpen (rearms (pos fd) epollin ∷ c.calls) c (modfd epollin d))
      × (IsOpen (rearms (pos fd) epollout ∷ c.calls) c (modfd epollout d))
unfolding modfd
modfd-IsOpen q e = (
  record {
    calls = rw (q.same_sockfd, e, q.same_calls) refl;
    same_count = q.same_count;
    same_sockfd = q.same_sockfd;
  },
  record {
    calls = rw (q.same_sockfd, e, q.same_calls) refl;
    same_count = q.same_count;
    same_sockfd = q.same_sockfd;
  },
)

closed :
    {c : HttpConn} {fd : ℕ} → c.sockfd ≡ pos fd → IsClosed fd c (modfd epollout (close_conn true c))
unfolding close_conn modfd removefd is_minus_one watched
closed {c} {fd} e = rw e (record {
  calls = refl;
  unwatched = ground arith;
  others = λ other ne. ground (arith, ne);
  one_less = refl;
  no_sockfd = refl;
})

closed_behind : {c d e : HttpConn} {fd : ℕ} → IsQuiet c d → IsClosed fd d e → IsClosed fd c e
closed_behind {fd = fd} q k = record {
  calls =
      k.calls
      ∙ ap (λ cs. rearms (negsuc 0) epollout ∷ closes (pos fd) ∷ removes (pos fd) ∷ cs)
          q.same_calls;
  unwatched = k.unwatched;
  others = λ other ne. k.others other ne ∙ ap (λ cs. watched cs other) q.same_calls;
  one_less = k.one_less ∙ ap (λ n. n -ℤ pos 1) q.same_count;
  no_sockfd = k.no_sockfd;
}

written_or_not :
    (written : Bool) {code : HttpCode} {c seen page : HttpConn} {fd : ℕ}
    → code ≢ no_request
    → process_write code seen ≡ ok (written, page)
    → IsQuiet c page
    → c.sockfd ≡ pos fd
    → Ended code fd c seen (modfd epollout (if written then page else close_conn true page))
written_or_not true {page = page} some_request done q e =
    answers page some_request done (modfd-IsOpen q e).1
written_or_not false {page = page} some_request done q e =
    gives_up page some_request done (closed_behind q (closed (q.same_sockfd ∙ e)))

respond-Ended :
    (code : HttpCode) {c seen : HttpConn} {fd : ℕ}
    → IsQuiet c seen
    → c.sockfd ≡ pos fd
    → Sure (Ended code fd c seen) (respond code seen)
unfolding respond
respond-Ended no_request q e = sure (waits refl (modfd-IsOpen q e).0)
respond-Ended code {seen = seen} q e =
    Sure-bind (Sure-known (process_write-Sure code seen)) λ (written, page) (done, more).
      sure (written_or_not written (cc) done (IsQuiet-trans q more) e)

process-Sure :
    (site : Site) (c : HttpConn) (users : Users) (fd : ℕ)
    → c.sockfd ≡ pos fd
    → Sure
        (λ (d, us).
          (code : HttpCode) × (seen : HttpConn) × (process_read site c users ≡ ok (code, seen, us))
          × Ended code fd c seen d)
        (process site c users)
unfolding process
process-Sure site c users fd e =
    Sure-bind (Sure-known (process_read-Sure site c users)) λ (code, seen, us) (was_read, q).
      Sure-bind (respond-Ended code q e) λ d ended. sure (code, seen, was_read, ended)

-- Whatever `process` makes of a connection on an open descriptor, if it returns: where
-- `process_read` asks for more, the descriptor is armed for reading and nothing else changes for
-- epoll and the count; where a response was written, the same with sending; and where
-- `process_write` gives false, the descriptor is taken from epoll and closed, so that it is not
-- watched any more while all others are as before, one user less is counted, and -1 is what is
-- armed.
pub process-Ended :
    (site : Site) (c d : HttpConn) (users us : Users) (fd : ℕ)
    → c.sockfd ≡ pos fd
    → process site c users ≡ ok (d, us)
    → (code : HttpCode) × (seen : HttpConn) × (process_read site c users ≡ ok (code, seen, us))
      × Ended code fd c seen d
process-Ended site c d users us fd e done = Sure-ok (process-Sure site c users fd e) done
