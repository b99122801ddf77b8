-- ===== src/Server/Loop/GiveUp.antt =====
-- Connections that are given up: a callback, and the timer deleted.
use wzy_server.Prelude.{
  ℕ, suc, ◌+◌, ◌≡◌, ◌≢◌, refl, sym, ap, subst, ◌∙◌, true, false, ◌==◌, List, ◌∷◌, ◌++◌, length,
  length-append, ltb, arith, ok, ◌>>=◌, Returns, returns, Returns-bind, ==_iff,
}
use wzy_server.Prelude.Int.{pos, ◌+ℤ◌, ◌-ℤ◌}
use wzy_server.Timer.{null, TimerList, del_timer}
use wzy_server.Timer.Chain.{Entry, IsList, entry-holds, entry_is_real, load-ok}
use wzy_server.Timer.Remove.{del_timer-Removed}
use wzy_server.Timer.Order.{AllUpTo-remove, remove-IsSorted}
use wzy_server.Http.{closes, removes}
use wzy_server.Http.Watched.{watched}
use wzy_server.Server.{Server, max_fd, data_at, cb_func, call_back, log, close_fd}
use wzy_server.Server.Loop.{give_up, on_hangup}
use wzy_server.Server.Loop.Owned.{
  owns, Place, owns-Place, owns-remove, AllWired, AllWired-append, AllWired-split,
}
use wzy_server.Server.Loop.Invariant.{IsGood, less_one}

-- The server after `cb_func` for the descriptor.
abbrev pub closed : ℕ → Server → Server
closed fd s = log (close_fd fd) (record s {
  calls = closes (pos fd) ∷ removes (pos fd) ∷ s.calls;
  user_count = s.user_count -ℤ pos 1;
})

pub cb_func-eq :
    (fd : ℕ) (s : Server)
    → ltb fd max_fd ≡ true
    → (s.users_timer fd).sockfd ≡ fd
    → cb_func (suc fd) s ≡ ok (closed fd s)
unfolding cb_func data_at
cb_func-eq fd s fits knows = rw (fits, knows) refl

-- The part of the invariant that a callback touches.
pub record IsCounted (s : Server) (stale : ℕ) (xs : List Entry) : Type 0 where
  pub live :
      (fd : ℕ)
      → watched s.calls fd ≡ true
      → fd ≢ s.listenfd
      → fd ≢ s.pipe_0
      → owns (s.users_timer fd).timer (suc fd) xs ≡ true
  pub counted : s.user_count +ℤ pos stale ≡ pos (length xs)

pub length-remove :
    (xs : List Entry) (e : Entry) (ys : List Entry)
    → length (xs ++ e ∷ ys) ≡ suc (length (xs ++ ys))
length-remove xs e ys = omega (arith, length-append xs (e ∷ ys), length-append xs ys)

pub closed-IsCounted :
    (fd : ℕ) {s : Server} {stale : ℕ} (xs : List Entry) (e : Entry) (ys : List Entry)
    → e.user_data ≡ suc fd
    → IsCounted s stale (xs ++ e ∷ ys)
    → IsCounted (closed fd s) stale (xs ++ ys)
unfolding watched
closed-IsCounted fd {s} {stale} xs e ys owner c = record {
  live = λ g on not_listen not_pipe.
      let before = c.live g (ground (arith, on)) not_listen not_pipe in
      let other : g ≢ fd = λ same. ground (arith, on, ==_iff g fd, same) in
      owns-remove (s.users_timer g).timer (suc g) xs e ys before
        λ same. other (omega (arith, same, owner));
  counted =
      less_one s.user_count stale (length (xs ++ ys)) (c.counted ∙ ap pos (length-remove xs e ys));
}

-- The timer of the descriptor is out of the list, and every other one in its place; the invariant
-- holds; the descriptor is taken from epoll and closed, and one user less is counted.
pub record GivesUp (fd : ℕ) (s : Server) (clock stale : ℕ) (xs : List Entry) (t : Server)
    : Type 0 where
  pub place : Place (s.users_timer fd).timer (suc fd) xs
  pub good : IsGood t clock stale (place.before ++ place.after)
  pub closes_it : t.calls ≡ closes (pos fd) ∷ removes (pos fd) ∷ s.calls
  pub one_less : t.user_count ≡ s.user_count -ℤ pos 1

module _ {s : Server} {clock stale : ℕ} (xs : List Entry) (e : Entry) (ys : List Entry)
    (g : IsGood s clock stale (xs ++ e ∷ ys)) where
  closed-IsGood :
      (fd : ℕ) (l : TimerList)
      → e.user_data ≡ suc fd
      → IsList l (xs ++ ys)
      → IsGood (record (closed fd s) { timer_lst = l }) clock stale (xs ++ ys)
  closed-IsGood fd l owner is =
      let (w_1, w_2) = AllWired-split s.users_timer xs (e ∷ ys) g.wired in
      let c =
        closed-IsCounted fd {s = s} xs e ys owner (record { live = g.live; counted = g.counted }) in
      record {
        is_list = is;
        sorted = remove-IsSorted xs e ys g.sorted;
        recent = AllUpTo-remove (clock + 300) xs e ys g.recent;
        wired = AllWired-append s.users_timer xs ys w_1 w_2.1;
        live = c.live;
        free = g.free;
        counted = c.counted;
      }

  give_up-eq :
      (fd : ℕ)
      → e.user_data ≡ suc fd
      → give_up fd e.addr s
        ≡ (del_timer e.addr s.timer_lst >>= λ l. ok (record (closed fd s) { timer_lst = l }))
  unfolding give_up call_back
  give_up-eq fd owner =
      let w = (AllWired-split s.users_timer xs (e ∷ ys) g.wired).1.0 in
      let same : w.fd ≡ fd = omega (arith, owner, w.owner) in
      let real = entry_is_real s.timer_lst xs e ys g.is_list in
      let not_null : (e.addr == null) ≡ false = ground (arith, real) in
      rw
        (
          load-ok s.timer_lst real (entry-holds s.timer_lst xs e ys g.is_list),
          w.calls_back,
          cb_func-eq fd s (subst (λ f. ltb f max_fd ≡ true) same w.in_array)
              (subst (λ f. (s.users_timer f).sockfd ≡ f) same w.knows),
          not_null,
        )
        refl

  give_up_entry-GivesUp :
      (fd : ℕ)
      → (s.users_timer fd).timer ≡ e.addr
      → e.user_data ≡ suc fd
      → Returns (GivesUp fd s clock stale (xs ++ e ∷ ys)) (give_up fd e.addr s)
  give_up_entry-GivesUp fd at owner = rw (give_up-eq fd owner) (
      Returns-bind (del_timer-Removed s.timer_lst xs e ys g.is_list) λ l r. returns (record {
        place = record {
          before = xs;
          entry = e;
          after = ys;
          all = refl;
          at = at;
          owned = sym owner;
        };
        good = closed-IsGood fd l owner r.is_list;
        closes_it = refl;
        one_less = refl;
      }))

-- A watched descriptor of a client.
pub record IsClient (s : Server) (fd : ℕ) : Type 0 where
  pub watches : watched s.calls fd ≡ true
  pub not_listen : fd ≢ s.listenfd
  pub not_pipe : fd ≢ s.pipe_0

module _ (fd : ℕ) {s : Server} {clock stale : ℕ} {xs : List Entry} (g : IsGood s clock stale xs)
    (client : IsClient s fd) where
  pub client-Place : Place (s.users_timer fd).timer (suc fd) xs
  client-Place =
      owns-Place (s.users_timer fd).timer (suc fd) xs
        (g.live fd client.watches client.not_listen client.not_pipe)

  pub client_in_array : ltb fd max_fd ≡ true
  client_in_array =
      let p = client-Place in
      let w =
        (AllWired-split s.users_timer p.before (p.entry ∷ p.after)
          (subst (λ r. AllWired s.users_timer r) p.all g.wired)).1.0 in
      subst (λ f. ltb f max_fd ≡ true) (omega (arith, p.owned, w.owner)) w.in_array

  pub give_up-GivesUp :
      Returns (GivesUp fd s clock stale xs) (give_up fd (s.users_timer fd).timer s)
  give_up-GivesUp =
      let p = client-Place in
      subst (λ r. Returns (GivesUp fd s clock stale r) (give_up fd (s.users_timer fd).timer s))
        (sym p.all)
        (subst
          (λ a. Returns (GivesUp fd s clock stale (p.before ++ p.entry ∷ p.after)) (give_up fd a s))
          (sym p.at)
          (give_up_entry-GivesUp p.before p.entry p.after
            (subst (λ r. IsGood s clock stale r) p.all g) fd p.at (sym p.owned)))

-- A client that has hung up is closed: its descriptor is taken from epoll and closed, one user less
-- is counted, its timer and no other leaves the list, and the invariant holds again.
pub on_hangup-GivesUp :
    (fd : ℕ) {s : Server} {clock stale : ℕ} {xs : List Entry}
    → IsGood s clock stale xs
    → IsClient s fd
    → Returns (GivesUp fd s clock stale xs) (on_hangup fd s)
unfolding on_hangup data_at
on_hangup-GivesUp fd g client = rw (client_in_array fd g client) (give_up-GivesUp fd g client)
