-- ===== src/Server/Loop/Invariant.antt =====
-- The invariant of the main loop.
use wzy_server.Prelude.{ℕ, suc, ◌+◌, ◌≤◌, ◌≡◌, ◌≢◌, true, false, List, length, arith}
use wzy_server.Prelude.Int.{ℤ, pos, negsuc, ◌+ℤ◌, ◌-ℤ◌}
use wzy_server.Timer.Chain.{Entry, IsList}
use wzy_server.Timer.Order.{IsSorted, AllUpTo, AllUpTo-mono}
use wzy_server.Http.Watched.{watched}
use wzy_server.Server.{Server, log}
use wzy_server.Server.Loop.Owned.{owns, AllWired}

-- The timers are the sorted list `xs`, none due later than three slots after `clock`, all with the
-- callback and data of a connection; a watched descriptor, other than the listening one and the
-- pipe, has its timer in the list; no thread holds the lock of the pool; and `stale` timers more
-- stand in the list than users are counted.
pub record IsGood (s : Server) (clock stale : ℕ) (xs : List Entry) : Type 0 where
  pub is_list : IsList s.timer_lst xs
  pub sorted : IsSorted xs
  pub recent : AllUpTo (clock + 300) xs
  pub wired : AllWired s.users_timer xs
  pub live :
      (fd : ℕ)
      → watched s.calls fd ≡ true
      → fd ≢ s.listenfd
      → fd ≢ s.pipe_0
      → owns (s.users_timer fd).timer (suc fd) xs ≡ true
  pub free : s.pool.held ≡ false
  pub counted : s.user_count +ℤ pos stale ≡ pos (length xs)

pub IsGood-later :
    {s : Server} {clock stale : ℕ} {xs : List Entry} (later : ℕ)
    → clock ≤ later
    → IsGood s clock stale xs
    → IsGood s later stale xs
IsGood-later {clock} {xs} later h g = record {
  is_list = g.is_list;
  sorted = g.sorted;
  recent = AllUpTo-mono (clock + 300) (later + 300) xs (omega arith) g.recent;
  wired = g.wired;
  live = g.live;
  free = g.free;
  counted = g.counted;
}

-- What does not touch timers, users or calls.
pub IsGood-log :
    {s : Server} {clock stale : ℕ} {xs : List Entry}
    → (m : _) → IsGood s clock stale xs
    → IsGood (log m s) clock stale xs
IsGood-log m g = record {
  is_list = g.is_list;
  sorted = g.sorted;
  recent = g.recent;
  wired = g.wired;
  live = g.live;
  free = g.free;
  counted = g.counted;
}

pub add_one : (a : ℤ) (k n : ℕ) → a +ℤ pos k ≡ pos n → (a +ℤ pos 1) +ℤ pos k ≡ pos (suc n)
unfolding ◌+ℤ◌
add_one (pos a) k n e = ground (arith, e)
add_one (negsuc a) k n e = ground (arith, e)

pub less_one : (a : ℤ) (k n : ℕ) → a +ℤ pos k ≡ pos (suc n) → (a -ℤ pos 1) +ℤ pos k ≡ pos n
unfolding ◌+ℤ◌ ◌-ℤ◌
less_one (pos a) k n e = ground (arith, e)
less_one (negsuc a) k n e = ground (arith, e)

pub one_stale : (a : ℤ) (k n : ℕ) → a +ℤ pos k ≡ pos n → (a -ℤ pos 1) +ℤ pos (suc k) ≡ pos n
unfolding ◌+ℤ◌ ◌-ℤ◌
one_stale (pos a) k n e = ground (arith, e)
one_stale (negsuc a) k n e = ground (arith, e)
