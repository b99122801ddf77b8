-- ===== src/Http/Table/Tests.antt =====
-- A table in which a name stands twice.
use wzy_server.Prelude.{ℕ, ◌≡◌, ◌↔◌, some, List, [], ◌∷◌, length, codes, arith, Returns}
use wzy_server.Samples.{two_conns}
use wzy_server.SqlPool.Invariant.{IsValid}
use wzy_server.Http.Resource.{Users, find_user, login}
use wzy_server.Http.Table.{initmysql_result}
use wzy_server.Http.Table.Loaded.{filled, last_of, table_welcomes}

two_conns-IsValid : IsValid two_conns 0
two_conns-IsValid = ground arith

abbrev rows : Users
rows = (codes "ann", codes "old") ∷ (codes "bob", codes "b") ∷ (codes "ann", codes "new") ∷ []

table_welcomes_example :
    Returns
      (λ (all, p').
        IsValid p' 0
        × (length p'.conn_list ≡ 2)
        × ((name password : List ℕ)
            → (login name password all ≡ codes "/welcome.html")
              ↔ (last_of name rows (find_user name []) ≡ some password)))
      (initmysql_result (some (filled rows)) two_conns [])
table_welcomes_example = table_welcomes rows [] two_conns-IsValid (omega arith)
