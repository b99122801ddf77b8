-- ===== src/Server/Loop/Runs.antt =====
-- Every run of the main loop and the workers.
use wzy_server.Prelude.{
  Bool, ℕ, arith, ◌+◌, ◌≤◌, ◌<◌, ◌≡◌, subst, List, length, Run, ok, ok-injective, Returns, returns,
}
use wzy_server.Prelude.Int.{ℤ, pos, negsuc, ◌+ℤ◌}
use wzy_server.Timer.Chain.{Entry, IsList}
use wzy_server.Http.Resource.{Site}
use wzy_server.Server.{Server}
use wzy_server.Server.Worker.{work}
use wzy_server.Server.Loop.{Event, on_event}
use wzy_server.Server.Loop.Invariant.{IsGood}
use wzy_server.Server.Loop.Events.{IsFair, on_event-IsGood}
use wzy_server.Server.Loop.Worked.{work-Works}

-- Fuel for the list of timers, whatever it is, and `room` timers more.
abbrev pub Enough : (fuel room : ℕ) → Server → Type 0
Enough fuel room s = (xs : List Entry) → IsList s.timer_lst xs → length xs + room < fuel

-- One event of the main loop, fair and on fuel that is enough, or one round of a worker. The index
-- counts the connections that workers have closed: by so many users a round has lowered the count.
pub data Step (site : Site) (clock : ℕ) (s : Server) : ℕ → ℕ → Server → Type 0 where
  handles :
      (fuel : ℕ) (e : Event) {t : Server}
      → IsFair s clock e
      → clock ≤ e.now
      → e.now ≤ e.tick_now
      → Enough fuel (length e.accepted) s
      → on_event fuel e s ≡ ok t
      → Step site clock s e.tick_now 0 t
  serves :
      (queue_interrupted reserve_interrupted : Bool) (closed : ℕ) {t : Server}
      → work queue_interrupted reserve_interrupted site s ≡ ok t
      → t.user_count +ℤ pos closed ≡ s.user_count
      → Step site clock s clock closed t

pub data Reach (site : Site) (clock : ℕ) (s : Server) : ℕ → ℕ → Server → Type 0 where
  start : Reach site clock s clock 0 s
  then_step :
      {now later closed more : ℕ} {t u : Server}
      → Reach site clock s now closed t
      → Step site now t later more u
      → Reach site clock s later (closed + more) u

-- The invariant, with `stale` timers more than users are counted.
abbrev pub Good : (clock stale : ℕ) → Server → Type 0
Good clock stale s = (xs : List Entry) × IsGood s clock stale xs

Good-stale : (clock : ℕ) (s : Server) {k l : ℕ} → k ≡ l → Good clock k s → Good clock l s
Good-stale clock s same g = subst (λ k. Good clock k s) same g

returned : {P : Server → Type 0} {m : Run Server} {t : Server} → Returns P m → m ≡ ok t → P t
returned {P} (returns p) e = subst P (ok-injective e) p

same_total :
    (a b : ℤ) (m k n closed : ℕ)
    → a +ℤ pos m ≡ pos n
    → b +ℤ pos k ≡ pos n
    → a +ℤ pos closed ≡ b
    → m ≡ k + closed
unfolding ◌+ℤ◌
same_total (pos a) (pos b) m k n closed e f g = ground (arith, e, f, g)
same_total (pos a) (negsuc b) m k n closed e f g = ground (arith, e, f, g)
same_total (negsuc a) (pos b) m k n closed e f g = ground (arith, e, f, g)
same_total (negsuc a) (negsuc b) m k n closed e f g = ground (arith, e, f, g)

Step-Good :
    {site : Site} {clock later closed stale : ℕ} {s t : Server}
    → Step site clock s later closed t
    → Good clock stale s
    → Good later (stale + closed) t
Step-Good {stale = stale} {t = t} (handles fuel e fair h later enough done) (xs, g) =
    let (ys, good, short) =
      returned (on_event-IsGood fuel e g fair h later (enough xs g.is_list)) done in
    Good-stale e.tick_now t (omega arith) (ys, good)
Step-Good {clock = clock} {stale = stale} {s} {t}
      (serves queue_interrupted reserve_interrupted closed done fewer) (xs, g) =
    let (more, low, high, good) = work-Works queue_interrupted reserve_interrupted _ g done in
    let all =
      same_total t.user_count s.user_count more stale (length xs) closed good.counted g.counted
        fewer in
    Good-stale clock t all (xs, good)

-- In a run of fair events, each for the listening descriptor, the pipe or a client that epoll still
-- watches when the event is handled, and of rounds of workers, whose waits signals may interrupt,
-- in any order, the invariant is kept: the timers are a sorted list, every client that epoll
-- watches has its timer in it, each timer closes its own connection, and there are as many timers
-- as users are counted, timers were stale at the start, and connections were closed by workers
-- since, together.
pub Reach-Good :
    {site : Site} {clock stale : ℕ} {s : Server} {later closed : ℕ} {t : Server}
    → Reach site clock s later closed t
    → Good clock stale s
    → Good later (stale + closed) t
Reach-Good {clock = clock} {s = s} start g = Good-stale clock s (omega arith) g
Reach-Good {later = later} {t = t} (then_step r step) g =
    Good-stale later t (omega arith) (Step-Good step (Reach-Good r g))
