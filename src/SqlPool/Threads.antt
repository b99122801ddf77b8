-- ===== src/SqlPool/Threads.antt =====
-- Many threads on one pool. What happens between a lock and its unlock is one step; the size test,
-- the semaphore's wait and its post are steps of their own, as in the source.
use mathlib.Core.List.{Perm, Nodup, perm_middle, perm_append_comm}
use mathlib.Core.List.Perm
use wzy_server.Prelude.{
  ℕ, ◌+◌, ◌-◌, ◌^◌, ◌<◌, ◌≤◌, ◌≡◌, ◌≢◌, refl, false, List, [], ◌∷◌, ◌++◌, length, length-append,
  append_assoc, ok, blocked, arith, Bool, total, total-split,
}
use wzy_server.SqlPool.{Conn, Pool, add32, sub32, wait, post, take_front, put_back}

-- Where a thread stands: outside, past the size test, past the wait, with a connection, or before
-- its post.
pub data Thread : Type 0 where
  outside checked reserved returning : Thread
  holds : Conn → Thread

pub record State : Type 0 where
  pub pool : Pool
  pub threads : List Thread

abbrev pub state : Pool → List Thread → State
state p ts = record { pool = p; threads = ts }

-- A step of one thread, the `ts` before it and the `us` behind it standing still.
pub data Step : State → State → Type 0 where
  finds_none :
      {p : Pool} (ts us : List Thread)
      → p.conn_list ≡ []
      → Step (state p (ts ++ outside ∷ us)) (state p (ts ++ outside ∷ us))
  finds_some :
      {p : Pool} (ts us : List Thread)
      → p.conn_list ≢ []
      → Step (state p (ts ++ outside ∷ us)) (state p (ts ++ checked ∷ us))
  waits :
      {p q : Pool} (interrupted : Bool) (ts us : List Thread)
      → wait interrupted p ≡ ok q
      → Step (state p (ts ++ checked ∷ us)) (state q (ts ++ reserved ∷ us))
  takes :
      {p q : Pool} (c : Conn) (ts us : List Thread)
      → take_front p ≡ ok (c, q)
      → Step (state p (ts ++ reserved ∷ us)) (state q (ts ++ holds c ∷ us))
  gives_back :
      {p q : Pool} (c : Conn) (ts us : List Thread)
      → put_back c p ≡ ok q
      → Step (state p (ts ++ holds c ∷ us)) (state q (ts ++ returning ∷ us))
  posts :
      {p : Pool} (ts us : List Thread)
      → Step (state p (ts ++ returning ∷ us)) (state (post p) (ts ++ outside ∷ us))

pub data Reach (s : State) : State → Type 0 where
  here : Reach s s
  next : {t u : State} → Reach s t → Step t u → Reach s u

-- Threads that the semaphore has let in and that have not taken, or not yet announced, a
-- connection.
abbrev in_transit : Thread → ℕ
in_transit reserved = 1
in_transit returning = 1
in_transit _ = 0

abbrev lent_to : Thread → ℕ
lent_to (holds c) = 1
lent_to _ = 0

abbrev conn_of : Thread → List Conn
conn_of (holds c) = c ∷ []
conn_of _ = []

unfoldable pub held_conns : List Thread → List Conn
held_conns [] = []
held_conns (t ∷ ts) = conn_of t ++ held_conns ts

perm_left_comm {ℓ} : {A : Type ℓ} (xs ys zs : List A) → Perm (xs ++ (ys ++ zs)) (ys ++ (xs ++ zs))
perm_left_comm xs ys zs =
    rw (← append_assoc xs ys zs, ← append_assoc ys xs zs)
      (Perm.append_right zs (perm_append_comm xs ys))

held_conns-split :
    (ts : List Thread) (t : Thread) (us : List Thread)
    → Perm (held_conns (ts ++ t ∷ us)) (conn_of t ++ held_conns (ts ++ us))
unfolding held_conns
held_conns-split [] t us = Perm.refl _
held_conns-split (s ∷ ts) t us =
    Perm.trans (Perm.append_left (conn_of s) (held_conns-split ts t us))
      (perm_left_comm (conn_of s) (conn_of t) (held_conns (ts ++ us)))

-- A step that hands over no connection.
held_conns-same :
    (ts : List Thread) (t u : Thread) (us : List Thread)
    → conn_of t ≡ conn_of u
    → Perm (held_conns (ts ++ u ∷ us)) (held_conns (ts ++ t ∷ us))
held_conns-same ts t u us e =
    Perm.trans (held_conns-split ts u us) (Perm.symm (rw e at (held_conns-split ts t us)))

-- Every free connection is announced by the semaphore or in transit (an interrupted wait can
-- announce more); both counters are exact; and the mutex is free between the steps.
pub record Inv (s : State) : Type 0 where
  pub free : s.pool.held ≡ false
  pub covered : length s.pool.conn_list ≤ s.pool.reserve + total in_transit s.threads
  pub counted : s.pool.free_conn ≡ length s.pool.conn_list
  pub in_use : s.pool.cur_conn ≡ total lent_to s.threads
  pub all : length s.pool.conn_list + total lent_to s.threads ≡ s.pool.max_conn
  pub fits : s.pool.max_conn < 2 ^ 32

pub Step-Inv : {s t : State} → Step s t → Inv s → Inv t
unfolding wait take_front put_back post
Step-Inv (finds_none ts us e) v = v
Step-Inv (finds_some ts us ne) v = ground (
  arith,
  total-split in_transit ts outside us,
  total-split in_transit ts checked us,
  total-split lent_to ts outside us,
  total-split lent_to ts checked us,
)
Step-Inv (waits interrupted ts us e) v = ground (
  arith,
  total-split in_transit ts checked us,
  total-split in_transit ts reserved us,
  total-split lent_to ts checked us,
  total-split lent_to ts reserved us,
)
Step-Inv (takes c ts us e) v = ground (
  arith,
  total-split in_transit ts reserved us,
  total-split in_transit ts (holds c) us,
  total-split lent_to ts reserved us,
  total-split lent_to ts (holds c) us,
)
Step-Inv (gives_back {p} c ts us e) v = ground (
  arith,
  length-append p.conn_list (c ∷ []),
  total-split in_transit ts (holds c) us,
  total-split in_transit ts returning us,
  total-split lent_to ts (holds c) us,
  total-split lent_to ts returning us,
)
Step-Inv (posts ts us) v = ground (
  arith,
  total-split in_transit ts returning us,
  total-split in_transit ts outside us,
  total-split lent_to ts returning us,
  total-split lent_to ts outside us,
)

pub Reach-Inv : {s t : State} → Inv s → Reach s t → Inv t
Reach-Inv v here = v
Reach-Inv v (next r st) = Step-Inv st (Reach-Inv v r)

abbrev pub owned : State → List Conn
owned s = s.pool.conn_list ++ held_conns s.threads

front_taken :
    (p : Pool) {q : Pool} {c : Conn} → take_front p ≡ ok (c, q) → p.conn_list ≡ c ∷ q.conn_list
unfolding take_front
front_taken p e = ground arith

back_put :
    (p : Pool) {q : Pool} (c : Conn) → put_back c p ≡ ok q → q.conn_list ≡ p.conn_list ++ c ∷ []
unfolding put_back
back_put p c e = ground arith

list_kept :
    (interrupted : Bool) (p : Pool) {q : Pool}
    → wait interrupted p ≡ ok q
    → q.conn_list ≡ p.conn_list
unfolding wait
list_kept interrupted p e = ground arith

Step-owned : {s t : State} → Step s t → Perm (owned t) (owned s)
unfolding post
Step-owned (finds_none {p} ts us e) = Perm.refl _
Step-owned (finds_some {p} ts us ne) =
    Perm.append_left p.conn_list (held_conns-same ts outside checked us refl)
Step-owned (waits {p} interrupted ts us e) =
    rw (list_kept interrupted p e)
      (Perm.append_left p.conn_list (held_conns-same ts checked reserved us refl))
Step-owned (takes {p} {q} c ts us e) = rw (front_taken p e) (
    Perm.trans (Perm.append_left q.conn_list (held_conns-split ts (holds c) us)) (
      Perm.trans (perm_middle q.conn_list (held_conns (ts ++ us)))
        (Perm.cons c (Perm.append_left q.conn_list (Perm.symm (held_conns-split ts reserved us))))))
Step-owned (gives_back {p} {q} c ts us e) =
    rw (back_put p c e, append_assoc p.conn_list (c ∷ []) (held_conns (ts ++ returning ∷ us)))
      (Perm.append_left p.conn_list (
        Perm.trans (Perm.cons c (held_conns-split ts returning us))
          (Perm.symm (held_conns-split ts (holds c) us))))
Step-owned (posts {p} ts us) =
    Perm.append_left p.conn_list (held_conns-same ts returning outside us refl)

-- Along every run of the threads the connections in the list and with a thread stay the same: none
-- gets lost, doubled or lent to two threads.
pub Reach-owned : {s t : State} → Reach s t → Perm (owned t) (owned s)
Reach-owned here = Perm.refl _
Reach-owned (next r st) = Perm.trans (Step-owned st) (Reach-owned r)

pub Reach-Nodup : {s t : State} → Reach s t → Nodup (owned s) → Nodup (owned t)
Reach-Nodup r n = Perm.nodup (Perm.symm (Reach-owned r)) n

take_front-eq :
    (p : Pool) (c : Conn) (rest : List Conn)
    → p.held ≡ false
    → p.conn_list ≡ c ∷ rest
    → take_front p
      ≡ ok (
        c,
        record p {
          conn_list = rest;
          free_conn = sub32 p.free_conn 1;
          cur_conn = add32 p.cur_conn 1;
        },
      )
unfolding take_front
take_front-eq p c rest free e = ground arith

-- With one connection free, two threads pass the size test, and the first takes the connection.
pub second_arrives :
    (p : Pool) (c : Conn)
    → p.held ≡ false
    → p.conn_list ≡ c ∷ []
    → p.reserve ≡ 1
    → (q : Pool) × Reach (state p (outside ∷ outside ∷ [])) (state q (holds c ∷ checked ∷ []))
      × (q.conn_list ≡ [])
      × (q.reserve ≡ 0)
      × (q.held ≡ false)
unfolding wait
second_arrives p c free one r =
    let q1 : Pool = record p { reserve = p.reserve - 1 } in
    let q2 : Pool = record q1 {
      conn_list = [];
      free_conn = sub32 p.free_conn 1;
      cur_conn = add32 p.cur_conn 1;
    } in
    (
      q2,
      next
          (next
            (next (next here (finds_some [] (outside ∷ []) (λ e. cc)))
              (finds_some (checked ∷ []) [] (λ e. cc)))
            (waits {q = q1} false [] (checked ∷ []) (ground arith)))
          (takes {q = q2} c [] (checked ∷ []) (take_front-eq q1 c [] free one)),
      refl,
      ground arith,
      free,
    )

-- The size test and the wait are two steps: with one connection free, two threads can pass the
-- test, and once the first has it the second is blocked, where the test was to make it go away.
pub second_is_blocked :
    (p : Pool) (c : Conn)
    → p.held ≡ false
    → p.conn_list ≡ c ∷ []
    → p.reserve ≡ 1
    → (q : Pool) × Reach (state p (outside ∷ outside ∷ [])) (state q (holds c ∷ checked ∷ []))
      × (q.conn_list ≡ [])
      × (wait false q ≡ blocked)
unfolding wait
second_is_blocked p c free one r =
    let (q, reached, empty, none_left, _) = second_arrives p c free one r in
    (q, reached, empty, ground arith)
