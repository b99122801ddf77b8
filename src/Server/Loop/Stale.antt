-- ===== src/Server/Loop/Stale.antt =====
-- Timers and connections that have come apart.
use wzy_server.Prelude.{
  ℕ, suc, ◌<◌, ◌≤◌, ◌≡◌, ap, subst, ◌∙◌, true, none, List, [], ◌∷◌, ◌++◌, length, ltb, arith, fault,
  false, Returns, Returns-mono, ==-self,
}
use wzy_server.Timer.{load}
use wzy_server.Timer.Chain.{Entry, ◌∈◌, has-append}
use wzy_server.Timer.Order.{AllFrom}
use wzy_server.Server.{Server, max_fd, data_at}
use wzy_server.Server.Loop.{give_up, on_hangup, on_timeout}
use wzy_server.Server.Loop.Owned.{Place}
use wzy_server.Server.Loop.Invariant.{IsGood}
use wzy_server.Server.Loop.GiveUp.{IsClient, client_in_array}
use wzy_server.Http.{SysCall}
use wzy_server.Http.Watched.{watched}
use wzy_server.Server.Loop.Timeout.{closings, on_timeout-TimesOut}

AllFrom-behind :
    (t : ℕ) (xs : List Entry) (e : Entry) (ys : List Entry)
    → AllFrom t (xs ++ e ∷ ys)
    → t ≤ e.expire
AllFrom-behind t [] e ys a = a.0
AllFrom-behind t (x ∷ xs) e ys a = AllFrom-behind t xs e ys a.1

-- A timer that is over is among those that are due.
is_due :
    (now : ℕ) (due left before : List Entry) (e : Entry) (after : List Entry)
    → due ++ left ≡ before ++ e ∷ after
    → AllFrom (suc now) left
    → e.expire ≤ now
    → (rest : List Entry) × (due ≡ before ++ e ∷ rest)
is_due now [] left before e after all to_come over =
    let later =
      AllFrom-behind (suc now) before e after (subst (λ r. AllFrom (suc now) r) all to_come) in
    absurd (omega (arith, later, over))
is_due now (d ∷ due) left [] e after all to_come over = (due, cc)
is_due now (d ∷ due) left (b ∷ before) e after all to_come over =
    let (rest, split) = is_due now due left before e after (cc) to_come over in (rest, cc)

-- What is closed is not watched again, and everything that is due is closed.
closings-unwatched :
    (fd : ℕ) (es : List Entry) (calls : List SysCall)
    → watched calls fd ≡ false
    → watched (closings es calls) fd ≡ false
unfolding watched
closings-unwatched fd [] calls off = off
closings-unwatched fd (e ∷ es) calls off = closings-unwatched fd es _ (ground (arith, off))

closings-close :
    (fd : ℕ) (before : List Entry) (e : Entry) (rest : List Entry) (calls : List SysCall)
    → suc fd ≡ e.user_data
    → watched (closings (before ++ e ∷ rest) calls) fd ≡ false
unfolding watched
closings-close fd [] e rest calls owned =
    closings-unwatched fd rest _ (rw (← owned) (ground (arith, ==-self fd)))
closings-close fd (b ∷ before) e rest calls owned = closings-close fd before e rest _ owned

-- A load through a pointer to a timer that is gone.
gone_faults :
    (fd : ℕ) (s : Server)
    → ltb fd max_fd ≡ true
    → s.timer_lst.heap (s.users_timer fd).timer ≡ none
    → on_hangup fd s ≡ fault
unfolding on_hangup give_up data_at load
gone_faults fd s fits gone = ground (arith, fits, gone)

-- What is left of a connection whose time was over: its descriptor is not watched any more, its
-- timer is freed, `users_timer` still points to it, and the branch for a hang-up, which reads it,
-- is undefined.
pub record LeftStale (fd : ℕ) (e : Entry) (t : Server) : Type 0 where
  pub unwatched : watched t.calls fd ≡ false
  pub points : (t.users_timer fd).timer ≡ e.addr
  pub freed : t.timer_lst.heap e.addr ≡ none
  pub faults : on_hangup fd t ≡ fault

-- A connection whose time is over is closed and its timer freed at the end of an event with the
-- alarm, but `users_timer` keeps pointing to the timer: where epoll has reported the connection's
-- hang-up behind that event in the same batch, the branch for it reads the freed timer.
pub hangup_after_timeout :
    (fuel now fd : ℕ) {s : Server} {clock stale : ℕ} {xs : List Entry} (g : IsGood s clock stale xs)
    (client : IsClient s fd) (p : Place (s.users_timer fd).timer (suc fd) xs)
    → clock ≤ now
    → length xs < fuel
    → s.flags.timeout ≡ true
    → p.entry.expire ≤ now
    → Returns (LeftStale fd p.entry) (on_timeout fuel now s)
hangup_after_timeout fuel now fd {s} g client p h f rings over =
    Returns-mono (on_timeout-TimesOut now g h fuel f rings) λ t out.
      let (rest, split) =
        is_due now out.due out.left p.before p.entry p.after (out.all ∙ p.all) out.to_come over in
      let due : p.entry.addr ∈ out.due =
        rw split (
          ground
            (arith, has-append p.entry.addr p.before (p.entry ∷ rest), ==-self p.entry.addr)) in
      let gone = out.freed p.entry.addr due in
      let points = ap (λ u. (u fd).timer) out.same_data ∙ p.at in
      record {
        unwatched =
            ap (λ cs. watched cs fd) (out.closes_them ∙ ap (λ es. closings es s.calls) split)
            ∙ closings-close fd p.before p.entry rest s.calls p.owned;
        points = points;
        freed = gone;
        faults = gone_faults fd t (client_in_array fd g client) (ap t.timer_lst.heap points ∙ gone);
      }
