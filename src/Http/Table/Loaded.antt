-- ===== src/Http/Table/Loaded.antt =====
-- Who can log in once the table has been read.
use wzy_server.Prelude.{
  ℕ, ◌<◌, length, arith, false, inl, inr, ◌≡◌, ◌↔◌, refl, ap, if◌then◌else◌, Option, none, some,
  List, [], ◌∷◌, length-append, map, Run, ok, fault, ◌>>=◌, eqb, codes, Returns, returns,
  Returns-bind,
}
use wzy_server.SqlPool.{Conn, Pool}
use wzy_server.SqlPool.Invariant.{IsValid, Borrowed, with_connection-Borrowed}
use wzy_server.Http.Resource.{Users, find_user, login}
use wzy_server.Http.Resource.Accounts.{login_welcomes}
use wzy_server.Http.Table.{Row, load_rows, query, initmysql_result}

-- A table without NULL.
abbrev pub filled : Users → List Row
filled rows = map (λ (name, password). (some name, some password)) rows

-- The last password that the rows have for a name, or `before`.
unfoldable pub last_of : List ℕ → Users → Option (List ℕ) → Option (List ℕ)
last_of name [] before = before
last_of name ((n, p) ∷ rows) before = last_of name rows (if eqb n name then some p else before)

-- The rows loaded: names can be looked up as the table has them.
LooksUp : Users → Users → Users → Type 0
LooksUp rows users all =
    (name : List ℕ) → find_user name all ≡ last_of name rows (find_user name users)

load_rows-LooksUp :
    (rows users : Users) → Returns (LooksUp rows users) (load_rows (filled rows) users)
unfolding load_rows LooksUp last_of find_user
load_rows-LooksUp [] users = returns λ name. refl
load_rows-LooksUp ((n, p) ∷ rows) users = load_rows-LooksUp rows ((n, p) ∷ users)

-- With a free connection the query runs on one.
on_connection :
    (result : Option (List Row)) (users : Users) {p p' : Pool} {r : Run Users}
    → 0 < length p.conn_list
    → Borrowed (query result users) p r p'
    → (con : Conn) × (r ≡ query result users (some con))
      × (length p'.conn_list ≡ length p.conn_list)
on_connection result users free (inl (empty, _, _)) = absurd (omega (arith, free, ap length empty))
on_connection result users free (inr (con, rest, front, ran, gone_round)) =
    (con, ran, omega (arith, ap length front, ap length gone_round, length-append rest (con ∷ [])))

-- After the table was read on a connection of a valid pool, exactly the last password that it has
-- for a name is welcome, or, for a name that it does not have, the one known before; the connection
-- is back in the pool.
pub table_welcomes :
    (rows users : Users) {p : Pool} {lent : ℕ}
    → IsValid p lent
    → 0 < length p.conn_list
    → Returns
        (λ (all, p').
          IsValid p' lent
          × (length p'.conn_list ≡ length p.conn_list)
          × ((name password : List ℕ)
              → (login name password all ≡ codes "/welcome.html")
                ↔ (last_of name rows (find_user name users) ≡ some password)))
        (initmysql_result (some (filled rows)) p users)
unfolding initmysql_result query LooksUp
table_welcomes rows users valid free =
    Returns-bind (with_connection-Borrowed false (query (some (filled rows)) users) valid)
      λ (loaded, p') (kept, lent). rw ((on_connection (some (filled rows)) users free lent).1) (
        Returns-bind (load_rows-LooksUp rows users) λ all looks_up. returns (
          kept,
          (on_connection (some (filled rows)) users free lent).2,
          λ name password. rw⁻¹ (looks_up name) (login_welcomes name password all),
        ))

-- A query that fails ends in the use of a null result.
pub failed_query_faults :
    (users : Users) {p : Pool} {lent : ℕ}
    → IsValid p lent
    → 0 < length p.conn_list
    → initmysql_result none p users ≡ fault
unfolding initmysql_result query
failed_query_faults users {p} {lent} valid free =
    faults (with_connection-Borrowed false (query none users) valid)
  where
    faults :
        {m : Run (Run Users × Pool)}
        → Returns (λ (r, p'). IsValid p' lent × Borrowed (query none users) p r p') m
        → (◌>>=◌ {B = Users × Pool} m
            λ (loaded, p). ◌>>=◌ {B = Users × Pool} loaded λ users. ok (users, p))
          ≡ fault
    faults (returns (kept, borrowed)) = rw ((on_connection none users free borrowed).1) refl
