-- ===== src/Server/Loop/Accept.antt =====
-- New connections: the loop on `accept` keeps the invariant.
use wzy_server.Prelude.{
  ℕ, suc, ◌+◌, ◌≤◌, ◌<◌, ◌≡◌, ◌≢◌, refl, ◌∙◌, Bool, true, false, ◌||◌, ◌==◌, List, [], ◌∷◌, length,
  ltb, some, none, arith, Returns, returns, Returns-bind, Returns-mono, ==_iff, ==-self, Bool-cases,
  inl, inr, subst, if◌then◌else◌,
}
use wzy_server.Prelude.Int.{ℤ, pos, leb_ℤ, ◌+ℤ◌}
use wzy_server.Timer.{Ptr, Heap, null, Timer, TimerList, write, store}
use wzy_server.Timer.Chain.{Entry, ◌∉◌, IsList, Seg-write}
use wzy_server.Timer.Insert.{insert, Becomes, add_timer-Becomes}
use wzy_server.Timer.Order.{AllUpTo-mono, AllUpTo-insert, insert-IsSorted}
use wzy_server.Http.{init, addfd, reset}
use wzy_server.Http.Watched.{watched}
use wzy_server.Server.{Server, max_fd, update, user_at, put_user, cb_func_address, show_error}
use wzy_server.Server.Loop.{new_timer, accept_user, Accepted, accepts, refuses, accept_loop}
use wzy_server.Server.Loop.Owned.{
  owns-insert, AllWired-insert, AllWired-update, Seg-free, length-insert,
}
use wzy_server.Server.Loop.Invariant.{IsGood, IsGood-later, IsGood-log, add_one}

-- The entry of the timer of a new connection.
abbrev pub new_entry : (connfd now : ℕ) → Ptr → Entry
new_entry connfd now timer = record {
  addr = timer;
  expire = now + 300;
  cb_func = cb_func_address;
  user_data = suc connfd;
}

write_self : (h : Heap) (a : Ptr) (c : _) → write h a c a ≡ c
unfolding write
write_self h a c = rw (==-self a) refl

store-IsList :
    {l : TimerList} {xs : List Entry} (a : Ptr) (t : Timer)
    → IsList l xs
    → a ∉ xs
    → IsList (store a (some t) l) xs
store-IsList {l} {xs} a t is out = record {
  head_is = is.head_is;
  tail_is = is.tail_is;
  chain = Seg-write l.heap null null xs a (some t) is.chain out;
  distinct = is.distinct;
  no_null = is.no_null;
}

module _ (fuel connfd address now : ℕ) (timer : Ptr) {s : Server} {clock stale : ℕ}
    {xs : List Entry} (g : IsGood s clock stale xs) (f : length xs < fuel) (real : timer ≢ null)
    (fresh : s.timer_lst.heap timer ≡ none) (fits : ltb connfd max_fd ≡ true)
    (h : clock ≤ now) where
  abbrev entry : Entry
  entry = new_entry connfd now timer

  -- What is left of the heap: only the new timer and the timers of the list may have changed.
  Accepts : Server → Type 0
  Accepts t =
      IsGood t now stale (insert entry xs)
      × ((a : Ptr) → a ≢ timer → s.timer_lst.heap a ≡ none → t.timer_lst.heap a ≡ none)
      × (t.user_count ≡ s.user_count +ℤ pos 1)

  good_after :
      (l : TimerList)
      → Becomes
          (store timer (some (new_timer connfd now)) s.timer_lst)
          (entry ∷ xs)
          (insert entry xs)
          l
      → Accepts
          (record (put_user connfd
            (init
              (pos connfd)
              address
              (record (s.users connfd) { user_count = s.user_count; calls = s.calls }))
            s) {
              users_timer =
                  update s.users_timer connfd
                    (record { address = address; sockfd = connfd; timer = timer });
              timer_lst = l;
            })
  unfolding Accepts init addfd reset watched update write
  good_after l b = (
    record {
      is_list = b.is_list;
      sorted = insert-IsSorted entry xs g.sorted;
      recent =
          AllUpTo-insert (now + 300) entry xs (omega arith)
            (AllUpTo-mono (clock + 300) (now + 300) xs (omega arith) g.recent);
      wired =
          AllWired-insert _ entry xs
            (record {
              fd = connfd;
              owner = refl;
              in_array = fits;
              knows = ground arith;
              calls_back = refl;
            })
            (AllWired-update s.users_timer connfd
              (record { address = address; sockfd = connfd; timer = timer }) xs refl g.wired);
      live = λ fd on not_listen not_pipe.
          rw owns-insert (ground (arith, on, ==_iff fd connfd, ==-self fd, g.live fd));
      free = g.free;
      counted = rw length-insert (add_one s.user_count stale (length xs) g.counted);
    },
    λ a other none_at.
        let out = Seg-free s.timer_lst.heap null null xs a g.is_list.chain none_at in
        let apart : (a == timer) ≡ false = ground (arith, other) in
        b.same a (ground (arith, out, apart)) ∙ ground (arith, apart, none_at),
    refl,
  )

  accept_user-Accepts : Returns Accepts (accept_user fuel connfd address now timer s)
  unfolding accept_user user_at
  accept_user-Accepts =
      let out = Seg-free s.timer_lst.heap null null xs timer g.is_list.chain fresh in
      rw fits (
        Returns-bind
          (add_timer-Becomes entry fuel (store timer (some (new_timer connfd now)) s.timer_lst) xs f
            (store-IsList timer (new_timer connfd now) g.is_list out)
            (write_self s.timer_lst.heap timer (some (new_timer connfd now))) real out)
          λ l b. returns (good_after l b))

-- Whether `timer` is where one of the new timers is put.
abbrev pub takes_place : Ptr → List Accepted → Bool
takes_place timer [] = false
takes_place timer (refuses errno ∷ more) = takes_place timer more
takes_place timer (accepts connfd address now t ∷ more) = (timer == t) || takes_place timer more

-- What `accept` gives until it has no further connection: descriptors that have an element in the
-- arrays, new timers at addresses that are free, and times that do not go back, up to `latest`.
pub data Arrivals (h : Heap) (latest : ℕ) : (clock : ℕ) → List Accepted → Type 0 where
  last :
      {clock errno : ℕ} {more : List Accepted}
      → clock ≤ latest
      → Arrivals h latest clock (refuses errno ∷ more)
  next :
      {clock connfd address now : ℕ} {timer : Ptr} {more : List Accepted}
      → timer ≢ null
      → h timer ≡ none
      → takes_place timer more ≡ false
      → ltb connfd max_fd ≡ true
      → clock ≤ now
      → Arrivals h latest now more
      → Arrivals h latest clock (accepts connfd address now timer ∷ more)

Arrivals-le :
    {h : Heap} {latest clock : ℕ} {more : List Accepted}
    → Arrivals h latest clock more
    → clock ≤ latest
Arrivals-le (last h) = h
Arrivals-le (next real free apart fits h a) = omega (arith, h, Arrivals-le a)

-- The addresses of the timers to come stay free.
Arrivals-frame :
    {h k : Heap} {latest clock : ℕ} (timer : Ptr) {more : List Accepted}
    → ((a : Ptr) → a ≢ timer → h a ≡ none → k a ≡ none)
    → takes_place timer more ≡ false
    → Arrivals h latest clock more
    → Arrivals k latest clock more
Arrivals-frame timer same apart (last h) = last h
Arrivals-frame timer same apart (next {timer = t} real free out fits h a) =
    next real (same t (λ e. ground (arith, apart, ==_iff timer t, e)) free) out fits h
      (Arrivals-frame timer same (ground (arith, apart)) a)

-- The invariant at a later time, with at most `room` timers more.
abbrev pub Grows : (stale latest room : ℕ) (xs : List Entry) → Server → Type 0
Grows stale latest room xs s =
    (ys : List Entry) × IsGood s latest stale ys × (length ys ≤ length xs + room)

-- A full server turns the connection away.
turned_away :
    {s : Server} {clock stale : ℕ} {xs : List Entry} (connfd latest : ℕ) (info : List ℕ)
    → clock ≤ latest
    → IsGood s clock stale xs
    → IsGood (show_error connfd info s) latest stale xs
unfolding show_error watched
turned_away connfd latest info h g = IsGood-calls (IsGood-later latest h g)
  where
    IsGood-calls :
        {s : Server} {clock stale : ℕ} {xs : List Entry}
        → IsGood s clock stale xs
        → IsGood (show_error connfd info s) clock stale xs
    IsGood-calls g = record {
      is_list = g.is_list;
      sorted = g.sorted;
      recent = g.recent;
      wired = g.wired;
      live = g.live;
      free = g.free;
      counted = g.counted;
    }

-- The timers of a list and those of the connections that are taken while fewer than 65536 users are
-- counted, each where its time belongs; `count` users are counted.
abbrev pub admitted : (count : ℤ) → List Accepted → List Entry → List Entry
admitted count [] xs = xs
admitted count (refuses errno ∷ more) xs = xs
admitted count (accepts connfd address now timer ∷ more) xs =
    let rest = admitted (count +ℤ pos 1) more (insert (new_entry connfd now timer) xs) in
    if leb_ℤ (pos max_fd) count then xs else rest

pub accept_loop-Admits :
    (fuel latest : ℕ) (accepted : List Accepted) {s : Server} {clock stale : ℕ} {xs : List Entry}
    → IsGood s clock stale xs
    → length xs + length accepted < fuel
    → Arrivals s.timer_lst.heap latest clock accepted
    → Returns
        (λ t. IsGood t latest stale (admitted s.user_count accepted xs))
        (accept_loop fuel accepted s)
unfolding accept_loop Accepts
accept_loop-Admits fuel latest [] g f a = elim a [ ]
accept_loop-Admits fuel latest (refuses errno ∷ more) {xs} g f (last h) =
    returns (IsGood-log _ (IsGood-later latest h g))
accept_loop-Admits fuel latest (accepts connfd address now timer ∷ more) {s} {clock} {stale} {xs} g
      f (next real free apart fits h a) =
    let le = Arrivals-le a in
    elim (Bool-cases (leb_ℤ (pos max_fd) s.user_count)) [
      | inl busy ↦
          rw busy (returns (IsGood-log _ (turned_away connfd latest _ (omega (arith, h, le)) g)))
      | inr room ↦ rw room (
          Returns-bind
            (accept_user-Accepts fuel connfd address now timer g (omega (arith, f)) real free fits
              h)
            λ t (good, same, one_more).
              Returns-mono
                (accept_loop-Admits fuel latest more good (rw length-insert (omega (arith, f)))
                  (Arrivals-frame timer same apart a))
                λ u kept.
                  subst
                    (λ k.
                      IsGood u latest stale
                        (admitted k more (insert (new_entry connfd now timer) xs)))
                    one_more kept)
    ]

length-admitted :
    (count : ℤ) (accepted : List Accepted) (xs : List Entry)
    → length (admitted count accepted xs) ≤ length xs + length accepted
length-admitted count [] xs = omega arith
length-admitted count (refuses errno ∷ more) xs = omega arith
length-admitted count (accepts connfd address now timer ∷ more) xs =
    elim (Bool-cases (leb_ℤ (pos max_fd) count)) [
      | inl busy ↦ rw busy (omega arith)
      | inr room ↦
          let new = new_entry connfd now timer in
          rw room (
            omega
              (arith, length-admitted (count +ℤ pos 1) more (insert new xs), length-insert new xs))
    ]

pub accept_loop-IsGood :
    (fuel latest : ℕ) (accepted : List Accepted) {s : Server} {clock stale : ℕ} {xs : List Entry}
    → IsGood s clock stale xs
    → length xs + length accepted < fuel
    → Arrivals s.timer_lst.heap latest clock accepted
    → Returns (Grows stale latest (length accepted) xs) (accept_loop fuel accepted s)
accept_loop-IsGood fuel latest accepted {s} {xs = xs} g f a =
    Returns-mono (accept_loop-Admits fuel latest accepted g f a)
      λ t good. (_, good, length-admitted s.user_count accepted xs)
