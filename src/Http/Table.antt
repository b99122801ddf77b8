-- ===== src/Http/Table.antt =====
-- http/http_conn.cpp: `initmysql_result`, which fills the map of users from the database.
pub mod Loaded
mod Tests
use wzy_server.Prelude.{
  ℕ, Bool, true, false, if◌then◌else◌, Option, none, some, List, [], ◌∷◌, Run, ok, fault, ◌>>=◌,
  or_fault,
}
use wzy_server.SqlPool.{Conn, Pool, with_connection}
use wzy_server.Http.Resource.{Users}

-- A row with its two columns; `none` is the NULL of SQL, from which no `string` can be made.
abbrev pub Row : Type 0
Row = Option (List ℕ) × Option (List ℕ)

-- The loop over the rows.
unfoldable pub load_rows : List Row → Users → Run Users
load_rows [] users = ok users
load_rows ((name, password) ∷ rows) users = do
  name ← or_fault name
  password ← or_fault password
  load_rows rows ((name, password) ∷ users)

-- The query on a connection, which must not be null, and its result: `none` is a null pointer from
-- `mysql_store_result`, which `mysql_num_fields` reads. A query that fails is only logged.
unfoldable pub query : Option (List Row) → Users → Option Conn → Run Users
unfolding load_rows
query result users mysql = do mysql ← or_fault mysql; rows ← or_fault result; load_rows rows users

-- `main` calls it before it has installed the handlers, so no wait is interrupted.
unfoldable pub initmysql_result : Option (List Row) → Pool → Users → Run (Users × Pool)
unfolding query
initmysql_result result p users = do
  (loaded, p) ← with_connection false (query result users) p
  users ← loaded
  ok (users, p)
