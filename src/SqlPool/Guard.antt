-- ===== src/SqlPool/Guard.antt =====
-- `connectionRAII` runs its body once, whatever state the pool is in.
use wzy_server.Prelude.{
  ◌≡◌, refl, ◌==◌, Bool, Option, none, some, length, Sure, sure, sure_blocked, sure_fault,
  Sure-bind, Sure-if, Sure-list, Any,
}
use wzy_server.SqlPool.{
  Conn, Pool, lock, wait, take_front, get_connection, put_back, release_connection, with_connection,
}

-- What a user of the guard gets, whatever the pool does.
module _ {ℓ} {A : Type ℓ} (body : Option Conn → A) where
  lock-Sure : (p : Pool) → Sure Any (lock p)
  lock-Sure p = Sure-if p.held sure_blocked (sure tt)

  get_connection-Sure : (interrupted : Bool) (p : Pool) → Sure Any (get_connection interrupted p)
  unfolding get_connection wait take_front
  get_connection-Sure interrupted p = Sure-if (length p.conn_list == 0) (sure tt) (
      Sure-bind {P = Any}
        (Sure-if (p.reserve == 0) (Sure-if interrupted (sure tt) sure_blocked) (sure tt))
        λ q _.
          Sure-bind {P = Any}
            (Sure-bind (lock-Sure q) λ r _. Sure-list r.conn_list sure_fault λ con rest. sure tt)
            λ (con, q) _. sure tt)

  release_connection-Sure : (con : Option Conn) (p : Pool) → Sure Any (release_connection con p)
  unfolding release_connection put_back
  release_connection-Sure none p = sure tt
  release_connection-Sure (some con) p =
      Sure-bind {P = Any} (Sure-bind (lock-Sure p) λ q _. sure tt) λ q _. sure tt

  pub with_connection-Sure :
      (interrupted : Bool) (p : Pool)
      → Sure (λ (r, q). (con : Option Conn) × (r ≡ body con)) (with_connection interrupted body p)
  unfolding with_connection
  with_connection-Sure interrupted p =
      Sure-bind (get_connection-Sure interrupted p)
        λ (con, p) _. Sure-bind (release_connection-Sure con p) λ (done, p) _. sure (con, refl)
