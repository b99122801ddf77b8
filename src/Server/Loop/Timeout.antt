-- ===== src/Server/Loop/Timeout.antt =====
-- The end of an event: the connections whose time is over are closed.
use wzy_server.Prelude.{
  ℕ, zero, suc, ◌+◌, ◌≤◌, ◌<◌, ◌≡◌, refl, sym, ap, subst, ◌∙◌, true, false, List, [], ◌∷◌, ◌++◌,
  map, length, none, arith, ok, Returns, returns, Returns-bind, Returns-mono,
}
use wzy_server.Prelude.Int.{pos}
use wzy_server.Timer.{Ptr, TimerList}
use wzy_server.Timer.Chain.{Entry, ◌∈◌, IsList}
use wzy_server.Timer.Order.{IsSorted, AllUpTo, AllUpTo-mono, AllFrom, tick_calls_due}
use wzy_server.Timer.Tick.{callback, Ticked}
use wzy_server.Http.{SysCall, closes, removes}
use wzy_server.Server.{Server, timeslot, call_back, call_backs, timer_handler}
use wzy_server.Server.Loop.{on_timeout}
use wzy_server.Server.Loop.Owned.{IsWired, AllWired, AllWired-split}
use wzy_server.Server.Loop.Invariant.{IsGood}
use wzy_server.Server.Loop.GiveUp.{closed, cb_func-eq, IsCounted, closed-IsCounted}

-- The index of the element at an address.
abbrev pub element : Ptr → ℕ
element zero = 0
element (suc fd) = fd

-- The calls that close the connections of some timers, one after the other.
abbrev pub closings : List Entry → List SysCall → List SysCall
closings [] calls = calls
closings (e ∷ es) calls =
    closings es (closes (pos (element e.user_data)) ∷ removes (pos (element e.user_data)) ∷ calls)

-- The callbacks of the timers `due` were made, `left` are the timers that remain.
record Called (s : Server) (stale : ℕ) (due left : List Entry) (t : Server) : Type 0 where
  counts : IsCounted t stale left
  closes_them : t.calls ≡ closings due s.calls
  rest : t ≡ record s { calls = t.calls; user_count = t.user_count; logs = t.logs }

call_back-eq :
    (s : Server) (e : Entry) (w : IsWired s.users_timer e)
    → call_back (callback e) s ≡ ok (closed w.fd s)
unfolding call_back
call_back-eq s e w = rw (w.calls_back, w.owner, cb_func-eq w.fd s w.in_array w.knows) refl

Called-cons :
    {s t : Server} {stale : ℕ} (e : Entry) (due left : List Entry) (w : IsWired s.users_timer e)
    → Called (closed w.fd s) stale due left t
    → Called s stale (e ∷ due) left t
Called-cons e due left w c = record {
  counts = c.counts;
  closes_them = rw w.owner c.closes_them;
  rest = c.rest;
}

call_backs-Called :
    (s : Server) {stale : ℕ} (due left : List Entry)
    → AllWired s.users_timer due
    → IsCounted s stale (due ++ left)
    → Returns (Called s stale due left) (call_backs (map callback due) s)
unfolding call_backs
call_backs-Called s [] left w c = returns (record { counts = c; closes_them = refl; rest = refl })
call_backs-Called s (e ∷ due) left (w, ws) c = rw (call_back-eq s e w) (
    Returns-mono
      (call_backs-Called (closed w.fd s) due left ws
        (closed-IsCounted w.fd {s = s} [] e (due ++ left) w.owner c))
      λ t d. Called-cons e due left w d)

-- At the time `now` the timers `due` have run out and `left` have not; the connections of `due` are
-- closed in order, the invariant holds with `left`, and the alarm is set again.
pub record TimesOut (s : Server) (now stale : ℕ) (xs : List Entry) (t : Server) : Type 0 where
  pub due : List Entry
  pub left : List Entry
  pub all : due ++ left ≡ xs
  pub over : AllUpTo now due
  pub to_come : AllFrom (suc now) left
  pub good : IsGood t now stale left
  pub closes_them : t.calls ≡ closings due s.calls
  pub calm : t.flags.timeout ≡ false
  pub still_runs : t.flags.stop_server ≡ s.flags.stop_server
  pub same_data : t.users_timer ≡ s.users_timer
  pub alarm_is : t.alarm ≡ timeslot
  pub freed : (a : Ptr) → a ∈ due → t.timer_lst.heap a ≡ none

AllUpTo-right : (t : ℕ) (xs ys : List Entry) → AllUpTo t (xs ++ ys) → AllUpTo t ys
AllUpTo-right t [] ys a = a
AllUpTo-right t (x ∷ xs) ys a = AllUpTo-right t xs ys a.1

module _ {s : Server} {clock stale : ℕ} {xs : List Entry} (now : ℕ) (g : IsGood s clock stale xs)
    (h : clock ≤ now) where
  timed_out :
      (due left : List Entry) (l : TimerList) (t : Server)
      → due ++ left ≡ xs
      → AllUpTo now due
      → AllFrom (suc now) left
      → IsSorted left
      → Ticked s.timer_lst xs due left l
      → Called (record s { timer_lst = l }) stale due left t
      → TimesOut s now stale xs
          (record t { alarm = timeslot; flags = record t.flags { timeout = false } })
  timed_out due left l t all over to_come sorted ticked c =
      let same = c.rest in
      record {
        due = due;
        left = left;
        all = all;
        over = over;
        to_come = to_come;
        good = record {
          is_list = subst (λ k. IsList k left) (sym (ap (λ r. r.timer_lst) same)) ticked.is_list;
          sorted = sorted;
          recent = AllUpTo-mono (clock + 300) (now + 300) left (omega arith) (
              AllUpTo-right (clock + 300) due left
                (subst (λ r. AllUpTo (clock + 300) r) (sym all) g.recent));
          wired =
              subst (λ u. AllWired u left) (sym (ap (λ r. r.users_timer) same))
                (AllWired-split s.users_timer due left
                  (subst (λ r. AllWired s.users_timer r) (sym all) g.wired)).1;
          live = c.counts.live;
          free = ap (λ r. r.pool.held) same ∙ g.free;
          counted = c.counts.counted;
        };
        closes_them = c.closes_them;
        calm = refl;
        still_runs = ap (λ r. r.flags.stop_server) same;
        same_data = ap (λ r. r.users_timer) same;
        alarm_is = refl;
        freed = λ a m. ap (λ r. r.timer_lst.heap a) same ∙ ticked.freed a m;
      }

  timer_handler-TimesOut :
      (fuel : ℕ)
      → length xs < fuel
      → Returns
          (λ t. TimesOut s now stale xs (record t { flags = record t.flags { timeout = false } }))
          (timer_handler fuel now s)
  unfolding timer_handler
  timer_handler-TimesOut fuel f =
      Returns-bind (tick_calls_due fuel now s.timer_lst xs f g.is_list g.sorted)
        λ (fired, l) (due, left, all, over, to_come, sorted, calls, ticked). rw calls (
          Returns-bind
            (call_backs-Called (record s { timer_lst = l }) due left
              (AllWired-split s.users_timer due left
                (subst (λ r. AllWired s.users_timer r) (sym all) g.wired)).0
              (record { live = rw all g.live; counted = rw all g.counted }))
            λ t c. returns (timed_out due left l t all over to_come sorted ticked c))

  -- When the alarm has gone off, the connections whose time is over are closed, in the order of
  -- their times, and no others; their timers are freed; the flag is taken back, the alarm is set
  -- again, and the invariant holds.
  pub on_timeout-TimesOut :
      (fuel : ℕ)
      → length xs < fuel
      → s.flags.timeout ≡ true
      → Returns (TimesOut s now stale xs) (on_timeout fuel now s)
  unfolding on_timeout
  on_timeout-TimesOut fuel f rings =
      simp rings (Returns-bind (timer_handler-TimesOut fuel f) λ t out. returns out)
