-- ===== src/SqlPool/Tests.antt =====
-- Runs of the pool, and its theorems at a pool of two connections.
use mathlib.Core.List.{Perm}
use wzy_server.Prelude.{◌≡◌, refl, Option, [], ◌∷◌, true, false, fault, ◌>>=◌, Returns, arith}
use wzy_server.Samples.{two_conns as two}
use wzy_server.SqlPool.{Conn, Pool, wait, take_front, with_connection}
use wzy_server.SqlPool.Interrupted.{interrupted_faults}
use wzy_server.SqlPool.Invariant.{IsValid, Borrowed, with_connection-Borrowed}
use wzy_server.SqlPool.Threads.{
  outside, checked, reserved, holds, State, state, Reach, here, next, finds_some, waits, owned,
  Reach-owned,
}

abbrev one_out : Pool
one_out = record two { cur_conn = 1; free_conn = 1; conn_list = 12 ∷ []; reserve = 1 }

two-IsValid : IsValid two 0
two-IsValid = ground arith

with_connection-Borrowed_example :
    Returns
      (λ (r, p). IsValid p 0 × Borrowed {A = Option Conn} (λ c. c) two r p)
      (with_connection true (λ c. c) two)
with_connection-Borrowed_example = with_connection-Borrowed true (λ c. c) two-IsValid

abbrev start : State
start = state two (outside ∷ outside ∷ [])

abbrev let_in : State
let_in = state (record two { reserve = 1 }) (reserved ∷ outside ∷ [])

let_in-Reach : Reach start let_in
unfolding wait
let_in-Reach =
    next (next here (finds_some [] (outside ∷ []) (λ e. cc))) (waits false [] (outside ∷ []) refl)

Reach-owned_example : Perm (owned let_in) (owned start)
Reach-owned_example = Reach-owned let_in-Reach

interrupted_faults_example :
    (q : Pool) × Reach (state one_out (outside ∷ outside ∷ [])) (state q (holds 12 ∷ checked ∷ []))
    × ((do q ← wait true q; take_front q) ≡ fault)
interrupted_faults_example = interrupted_faults one_out 12 refl refl refl
