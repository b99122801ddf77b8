-- ===== src/Http/Process/Counted.antt =====
-- What `process` does to the count of users and to the descriptors that epoll watches.
use wzy_server.Prelude.{
  ℕ, ◌≡◌, refl, sym, ap, ◌∙◌, Bool, true, false, not, ◌&&◌, if◌then◌else◌, arith, Sure, sure,
  Sure-bind,
}
use wzy_server.Prelude.Int.{ℤ, pos, negsuc, ◌-ℤ◌}
use wzy_server.Http.{
  HttpConn, HttpCode, no_request, Interest, epollin, epollout, modfd, removefd, close_conn,
  is_minus_one,
}
use wzy_server.Http.Watched.{watched, IsQuiet, IsStill, IsStill-trans, IsQuiet-IsStill}
use wzy_server.Http.Resource.{Site, Users}
use wzy_server.Http.Response.Quiet.{process_write-Sure}
use wzy_server.Http.Process.{respond, process}
use wzy_server.Http.Process.Rounds.{process_read-Sure}

-- Nothing changed for epoll and the count, or the connection was closed and one user less is
-- counted; no descriptor is watched that was not.
pub data Leaves (c d : HttpConn) : Type 0 where
  leaves_open : IsStill c d → Leaves c d
  leaves_closed :
      ((fd : ℕ) → watched d.calls fd ≡ true → watched c.calls fd ≡ true)
      → d.user_count ≡ c.user_count -ℤ pos 1
      → Leaves c d

modfd-IsStill : (ev : Interest) (c : HttpConn) → IsStill c (modfd ev c)
unfolding modfd watched
modfd-IsStill ev c = record { same_watched = λ fd. refl; same_count = refl }

after-IsQuiet : {c d e : HttpConn} → IsQuiet c d → Leaves d e → Leaves c e
after-IsQuiet q (leaves_open s) = leaves_open (IsStill-trans (IsQuiet-IsStill q) s)
after-IsQuiet q (leaves_closed w k) =
    leaves_closed (λ fd on. ap (λ cs. watched cs fd) (sym q.same_calls) ∙ w fd on)
      (k ∙ ap (λ n. n -ℤ pos 1) q.same_count)

then-IsStill : {c d e : HttpConn} → Leaves c d → IsStill d e → Leaves c e
then-IsStill (leaves_open s) t = leaves_open (IsStill-trans s t)
then-IsStill (leaves_closed w k) t =
    leaves_closed (λ fd on. w fd (sym (t.same_watched fd) ∙ on)) (t.same_count ∙ k)

removefd_narrows :
    (fd : ℤ) (c : HttpConn) (g : ℕ)
    → watched (removefd fd c).calls g ≡ true
    → watched c.calls g ≡ true
unfolding removefd watched
removefd_narrows (pos n) c g on = ground (arith, on)
removefd_narrows (negsuc n) c g on = on

close_conn-Leaves : (real_close : Bool) (c : HttpConn) → Leaves c (close_conn real_close c)
unfolding close_conn removefd
close_conn-Leaves real_close c =
    if_Leaves (real_close && not (is_minus_one c.sockfd))
      (leaves_closed (removefd_narrows c.sockfd c) refl)
  where
    if_Leaves : (b : Bool) {d : HttpConn} → Leaves c d → Leaves c (if b then d else c)
    if_Leaves true l = l
    if_Leaves false l = leaves_open (record { same_watched = λ fd. refl; same_count = refl })

respond-Sure : (code : HttpCode) (c : HttpConn) → Sure (Leaves c) (respond code c)
unfolding respond
respond-Sure no_request c = sure (leaves_open (modfd-IsStill epollin c))
respond-Sure code c = Sure-bind (process_write-Sure code c) λ (written, d) q. sure (
    after-IsQuiet q (
      then-IsStill (kept written d)
        (modfd-IsStill epollout (if written then d else close_conn true d))))
  where
    kept : (written : Bool) (d : HttpConn) → Leaves d (if written then d else close_conn true d)
    kept true d = leaves_open (record { same_watched = λ fd. refl; same_count = refl })
    kept false d = close_conn-Leaves true d

-- What `process` leaves, if it returns.
pub process-Sure :
    (site : Site) (c : HttpConn) (users : Users)
    → Sure (λ (d, us). Leaves c d) (process site c users)
unfolding process
process-Sure site c users =
    Sure-bind (process_read-Sure site c users)
      λ (code, d, us) q. Sure-bind (respond-Sure code d) λ e l. sure (after-IsQuiet q l)
