-- ===== src/SqlPool/Invariant.antt =====
-- One caller at a time: what the counters and the semaphore say of the list.
use Prim.Native.String.{String}
use wzy_server.Prelude.{
  ℕ, zero, suc, ◌+◌, ◌-◌, ◌%◌, ◌^◌, ◌<◌, ◌≡◌, refl, ap, ◌∙◌, subst, ◌⊎◌, inl, inr, Bool, true,
  false, Option, none, some, List, [], ◌∷◌, ◌++◌, length, length-append, append_assoc, append-nil,
  ok, Returns, returns, arith,
}
use wzy_server.SqlPool.{
  Conn, Pool, Client, connect_loop, init, get_connection, release_connection, with_connection,
}

-- `lent` connections are out; all counters are exact and fit.
pub record IsValid (p : Pool) (lent : ℕ) : Type 0 where
  pub free : p.held ≡ false
  pub counted : p.free_conn ≡ length p.conn_list
  pub reserved : p.reserve ≡ length p.conn_list
  pub in_use : p.cur_conn ≡ lent
  pub total : length p.conn_list + lent ≡ p.max_conn
  pub fits : p.max_conn < 2 ^ 32

module _ {p : Pool} {lent : ℕ} (v : IsValid p lent) where
  -- With no connection left the caller gets none at once.
  pub get-empty :
      (interrupted : Bool) → p.conn_list ≡ [] → get_connection interrupted p ≡ ok (none, p)
  unfolding get_connection
  get-empty interrupted e = ground arith

  abbrev taken : List Conn → Pool
  taken rest = record p {
    conn_list = rest;
    reserve = length rest;
    free_conn = length rest;
    cur_conn = lent + 1;
  }

  abbrev returned : Conn → Pool
  returned con = record p {
    conn_list = p.conn_list ++ con ∷ [];
    reserve = length p.conn_list + 1;
    free_conn = length p.conn_list + 1;
    cur_conn = lent - 1;
  }

  get-eq :
      (interrupted : Bool) (con : Conn) (rest : List Conn)
      → p.conn_list ≡ con ∷ rest
      → get_connection interrupted p ≡ ok (some con, taken rest)
  unfolding get_connection
  get-eq interrupted con rest e =
      ground (arith, v.free, v.counted, v.reserved, v.in_use, v.total, v.fits)

  taken-IsValid :
      (con : Conn) (rest : List Conn) → p.conn_list ≡ con ∷ rest → IsValid (taken rest) (lent + 1)
  taken-IsValid con rest e = ground (arith, v.free, v.total, v.fits, ap length e)

  -- Otherwise it gets the one at the front, without waiting.
  pub get-front :
      (interrupted : Bool) (con : Conn) (rest : List Conn)
      → p.conn_list ≡ con ∷ rest
      → Returns
          (λ (r, p'). (r ≡ some con) × (p'.conn_list ≡ rest) × IsValid p' (lent + 1))
          (get_connection interrupted p)
  get-front interrupted con rest e =
      rw (get-eq interrupted con rest e) (returns (refl, refl, taken-IsValid con rest e))

  release-eq : (con : Conn) → 0 < lent → release_connection (some con) p ≡ ok (true, returned con)
  unfolding release_connection
  release-eq con some_out = ground (arith, v.free, v.counted, v.reserved, v.in_use, v.total, v.fits)

  returned-IsValid : (con : Conn) → 0 < lent → IsValid (returned con) (lent - 1)
  returned-IsValid con some_out =
      ground (arith, v.free, v.total, v.fits, length-append p.conn_list (con ∷ []))

  -- A connection given back goes to the end of the list.
  pub release-back :
      (con : Conn)
      → 0 < lent
      → Returns
          (λ (b, p'). (b ≡ true) × (p'.conn_list ≡ p.conn_list ++ con ∷ []) × IsValid p' (lent - 1))
          (release_connection (some con) p)
  release-back con some_out =
      rw (release-eq con some_out) (returns (refl, refl, returned-IsValid con some_out))

release-none : (p : Pool) → release_connection none p ≡ ok (false, p)
unfolding release_connection
release-none p = refl

-- The body ran with the connection at the front, which then stands at the end; or it ran with the
-- null pointer, none being free, and the pool is as it was.
abbrev pub Borrowed {ℓ} : {A : Type ℓ} → (Option Conn → A) → Pool → A → Pool → Type ℓ
Borrowed body p r p' =
    ((p.conn_list ≡ []) × (r ≡ body none) × (p' ≡ p))
    ⊎ ((con : Conn) × (rest : List Conn) × (p.conn_list ≡ con ∷ rest)
        × (r ≡ body (some con))
        × (p'.conn_list ≡ rest ++ con ∷ []))

module _ {ℓ} {A : Type ℓ} (interrupted : Bool) (body : Option Conn → A) {p : Pool} {lent : ℕ}
    (v : IsValid p lent) where
  with_connection-cases :
      (cs : List Conn)
      → p.conn_list ≡ cs
      → Returns
          (λ (r, p'). IsValid p' lent × Borrowed body p r p')
          (with_connection interrupted body p)
  unfolding with_connection
  with_connection-cases [] e =
      rw (get-empty v interrupted e, release-none p) (returns (v, inl (e, refl, refl)))
  with_connection-cases (con ∷ rest) e =
      let t = taken-IsValid v con rest e in
      rw (get-eq v interrupted con rest e, release-eq t con (omega arith))
        (returns (
          subst (IsValid _) (omega arith) (returned-IsValid t con (omega arith)),
          inr (con, rest, e, refl, refl),
        ))

  -- On a valid pool, around a body that leaves the pool alone, whether a signal comes or not,
  -- On a valid pool, around a body that leaves the pool alone, `connectionRAII` gives back what it took: the same number is lent afterwards, and the list has
  -- at most gone round by one.
  pub with_connection-Borrowed :
      Returns
        (λ (r, p'). IsValid p' lent × Borrowed body p r p')
        (with_connection interrupted body p)
  with_connection-Borrowed = with_connection-cases p.conn_list refl

-- A client library whose every call succeeds, the `i`-th with the connection `conn i`.
pub record IsUp (client : Client) (conn : ℕ → Conn) : Type 0 where
  pub inits : (i : ℕ) → client.mysql_init i ≡ some (conn i)
  pub connects : (i : ℕ) → client.mysql_real_connect i (conn i) ≡ some (conn i)

-- The connections `i`, `i + 1` and on, `n` of them.
unfoldable pub conns_from : (ℕ → Conn) → (n i : ℕ) → List Conn
conns_from conn zero i = []
conns_from conn (suc n) i = conn i ∷ conns_from conn n (i + 1)

pub length-conns_from : (conn : ℕ → Conn) (n i : ℕ) → length (conns_from conn n i) ≡ n
unfolding conns_from
length-conns_from conn zero i = refl
length-conns_from conn (suc n) i = ap suc (length-conns_from conn n (i + 1))

module _ {client : Client} {conn : ℕ → Conn} (up : IsUp client conn) where
  abbrev connected : Conn → Pool → Pool
  connected con p = record p {
    conn_list = p.conn_list ++ con ∷ [];
    free_conn = length p.conn_list + 1;
  }

  connect_step :
      (n i : ℕ) (p : Pool)
      → p.free_conn ≡ length p.conn_list
      → length p.conn_list + suc n < 2 ^ 32
      → connect_loop client (suc n) i p ≡ connect_loop client n (i + 1) (connected (conn i) p)
  unfolding connect_loop
  connect_step n i p c f = ground (arith, up.inits i, up.connects i)

  connect_loop-eq :
      (n i : ℕ) (p : Pool)
      → p.free_conn ≡ length p.conn_list
      → length p.conn_list + n < 2 ^ 32
      → connect_loop client n i p
        ≡ ok (record p {
          conn_list = p.conn_list ++ conns_from conn n i;
          free_conn = length p.conn_list + n;
        })
  unfolding connect_loop conns_from
  connect_loop-eq zero i p c f = ground (arith, append-nil p.conn_list)
  connect_loop-eq (suc n) i p c f =
      let more = length-append p.conn_list (conn i ∷ []) in
      connect_step n i p c f
      ∙ connect_loop-eq n (i + 1) (connected (conn i) p) (omega (arith, more)) (omega (arith, more))
      ∙ ground (arith, more, append_assoc p.conn_list (conn i ∷ []) (conns_from conn n (i + 1)))

  -- With a client library whose calls succeed, `init` of a new pool opens `max_conn` connections,
  -- and all are free.
  pub init-IsValid :
      (url user pass_word data_base_name : String) (port max_conn : ℕ) (p : Pool)
      → max_conn < 2 ^ 32
      → p.held ≡ false
      → p.conn_list ≡ []
      → p.free_conn ≡ 0
      → p.cur_conn ≡ 0
      → Returns
          (λ p'.
            IsValid p' 0 × (p'.conn_list ≡ conns_from conn max_conn 0) × (p'.max_conn ≡ max_conn))
          (init client url user pass_word data_base_name port max_conn p)
  unfolding init
  init-IsValid url user pass_word data_base_name port max_conn p f a b c d =
      let start : Pool = record p {
        url = url;
        user = user;
        pass_word = pass_word;
        data_base_name = data_base_name;
        port = (port % 256) ∷ [];
        max_conn = max_conn;
        held = true;
      } in
      let all = length-conns_from conn max_conn 0 in
      rw (a, connect_loop-eq max_conn 0 start (ground arith) (omega (arith, ap length b)), b)
        (returns (
          record {
            free = refl;
            counted = omega (arith, all);
            reserved = omega (arith, all);
            in_use = d;
            total = omega (arith, all);
            fits = omega arith;
          },
          refl,
          omega arith,
        ))
