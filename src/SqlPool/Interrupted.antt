-- ===== src/SqlPool/Interrupted.antt =====
-- `getConnection` where a signal's handler interrupts its wait.
use wzy_server.Prelude.{◌≡◌, true, false, [], ◌∷◌, fault, ◌>>=◌, arith}
use wzy_server.SqlPool.{Conn, Pool, wait, take_front}
use wzy_server.SqlPool.Threads.{outside, checked, holds, Reach, state, second_arrives}

-- An interrupted wait at 0 changes nothing, and the front of an empty list is undefined.
interrupted-front :
    (p : Pool)
    → p.reserve ≡ 0
    → p.held ≡ false
    → p.conn_list ≡ []
    → (do p ← wait true p; take_front p) ≡ fault
unfolding wait take_front
interrupted-front p none_left free e = ground arith

-- With the mutex free, one connection in the list and the semaphore at 1, two threads can pass the
-- size test; once the first has the connection, a signal that interrupts the wait of the second
-- sends it to the front of an empty list, which is undefined.
pub interrupted_faults :
    (p : Pool) (c : Conn)
    → p.held ≡ false
    → p.conn_list ≡ c ∷ []
    → p.reserve ≡ 1
    → (q : Pool) × Reach (state p (outside ∷ outside ∷ [])) (state q (holds c ∷ checked ∷ []))
      × ((do q ← wait true q; take_front q) ≡ fault)
interrupted_faults p c free one r =
    let (q, reached, empty, none_left, open_lock) = second_arrives p c free one r in
    (q, reached, interrupted-front q none_left open_lock empty)
