-- ===== src/Http/Process/Closes.antt =====
-- The end of `process` for requests that are refused.
use wzy_server.Prelude.{
  ℕ, ◌≡◌, refl, ap, ◌∙◌, true, false, List, ◌∷◌, Returns, returns, Returns-bind,
}
use wzy_server.Prelude.Int.{pos, negsuc, ◌-ℤ◌}
use wzy_server.Http.{
  HttpConn, HttpCode, removes, closes, rearms, epollout, close_conn, removefd, modfd, is_minus_one,
}
use wzy_server.Http.Response.Written.{IsWritable, Added}
use wzy_server.Http.Response.Pages.{
  ErrorPage, page_403, page_400, page_404, says, process_write-refused,
}
use wzy_server.Http.Process.{respond}

close_conn-open :
    (c : HttpConn) (fd : ℕ)
    → c.sockfd ≡ pos fd
    → ((modfd epollout (close_conn true c)).calls
        ≡ rearms (negsuc 0) epollout ∷ closes (pos fd) ∷ removes (pos fd) ∷ c.calls)
      × ((modfd epollout (close_conn true c)).user_count ≡ c.user_count -ℤ pos 1)
unfolding close_conn modfd removefd is_minus_one
close_conn-open c fd e = rw e (refl, refl)

ends :
    {c d : HttpConn} {text : List ℕ} {fd : ℕ}
    → Added c text d
    → c.sockfd ≡ pos fd
    → ((modfd epollout (close_conn true d)).calls
        ≡ rearms (negsuc 0) epollout ∷ closes (pos fd) ∷ removes (pos fd) ∷ c.calls)
      × ((modfd epollout (close_conn true d)).user_count ≡ c.user_count -ℤ pos 1)
ends {c} {d} {text} {fd} a e =
    let (called, counted) = close_conn-open d fd (ap (λ (r : HttpConn). r.sockfd) a.rest ∙ e) in
    (
      called
          ∙ ap
              (λ (r : HttpConn).
                rearms (negsuc 0) epollout ∷ closes (pos fd) ∷ removes (pos fd) ∷ r.calls)
              a.rest,
      counted ∙ ap (λ (r : HttpConn). r.user_count -ℤ pos 1) a.rest,
    )

-- With an empty write buffer and an open descriptor, a request that is answered by 400 or 404 gets
-- no answer: the descriptor is taken from epoll and closed with the page unsent, one user less is
-- counted, and then the descriptor -1 is armed for sending.
pub respond_closes :
    {code : HttpCode} {status : ℕ} {title form : List ℕ} (page : ErrorPage code status title form)
    (c : HttpConn) (fd : ℕ)
    → says code ≡ false
    → IsWritable c
    → c.write_idx ≡ 0
    → c.sockfd ≡ pos fd
    → Returns
        (λ d.
          (d.calls ≡ rearms (negsuc 0) epollout ∷ closes (pos fd) ∷ removes (pos fd) ∷ c.calls)
          × (d.user_count ≡ c.user_count -ℤ pos 1))
        (respond code c)
unfolding respond
respond_closes page_403 c fd refusal w e fd_c = cc
respond_closes page_400 c fd refusal w e fd_c =
    Returns-bind (process_write-refused page_400 c refusal w e)
      λ (done, d) (refused, a). rw refused (returns (ends a fd_c))
respond_closes page_404 c fd refusal w e fd_c =
    Returns-bind (process_write-refused page_404 c refusal w e)
      λ (done, d) (refused, a). rw refused (returns (ends a fd_c))
