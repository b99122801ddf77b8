-- ===== src/Server/Loop/Data.antt =====
-- The timer of a connection with data is put off.
use wzy_server.Prelude.{
  ℕ, suc, ◌+◌, ◌≤◌, ◌<◌, ◌≡◌, refl, sym, ap, subst, ◌∙◌, List, [], ◌∷◌, ◌++◌, length, length-append,
  arith, Returns, Returns-mono,
}
use wzy_server.Prelude.Int.{pos}
use wzy_server.Timer.{Ptr, TimerList}
use wzy_server.Timer.Chain.{Entry, IsList}
use wzy_server.Timer.Insert.{insert}
use wzy_server.Timer.Order.{IsSorted, AllUpTo, AllUpTo-mono, AllUpTo-insert}
use wzy_server.Server.{Server, refresh}
use wzy_server.Server.Refresh.{refresh-IsSorted}
use wzy_server.Server.Loop.Owned.{
  Place, owns, owns-append, owns-insert, AllWired-append, AllWired-split, AllWired-insert,
  length-insert,
}
use wzy_server.Server.Loop.Invariant.{IsGood}
use wzy_server.Server.Loop.GiveUp.{IsClient, client-Place}

AllUpTo-join : (t : ℕ) (xs ys : List Entry) → AllUpTo t xs → AllUpTo t ys → AllUpTo t (xs ++ ys)
AllUpTo-join t [] ys a b = b
AllUpTo-join t (x ∷ xs) ys a b = (a.0, AllUpTo-join t xs ys a.1 b)

AllUpTo-split : (t : ℕ) (xs ys : List Entry) → AllUpTo t (xs ++ ys) → AllUpTo t xs × AllUpTo t ys
AllUpTo-split t [] ys a = (tt, a)
AllUpTo-split t (x ∷ xs) ys a = let r = AllUpTo-split t xs ys a.1 in ((a.0, r.0), r.1)

-- The timer of the descriptor is due three slots from now, and stands behind the timers before it
-- where its new time belongs; the others are in their places, and the invariant holds.
pub record PutsOff (s : Server) (fd now stale : ℕ) (xs : List Entry) (t : Server) : Type 0 where
  pub place : Place (s.users_timer fd).timer (suc fd) xs
  pub good :
      IsGood t now stale
        (place.before ++ insert (record place.entry { expire = now + 300 }) place.after)

pub PutsOff-length :
    {s t : Server} {fd now stale : ℕ} {xs : List Entry} (k : PutsOff s fd now stale xs t)
    → length (k.place.before ++ insert (record k.place.entry { expire = now + 300 }) k.place.after)
      ≡ length xs
PutsOff-length {now = now} k =
    let new : Entry = record k.place.entry { expire = now + 300 } in
    omega (
      arith,
      ap length k.place.all,
      length-append k.place.before (insert new k.place.after),
      length-append k.place.before (k.place.entry ∷ k.place.after),
      length-insert new k.place.after,
    )

module _ {s : Server} {clock stale : ℕ} (xs : List Entry) (e : Entry) (ys : List Entry)
    (g : IsGood s clock stale (xs ++ e ∷ ys)) (now : ℕ) (h : clock ≤ now) where
  abbrev renewed : Entry
  renewed = record e { expire = now + 300 }

  owns-renewed : (p d : Ptr) → owns p d (xs ++ insert renewed ys) ≡ owns p d (xs ++ e ∷ ys)
  owns-renewed p d = rw (owns-append, owns-append, owns-insert) refl

  length-renewed : length (xs ++ insert renewed ys) ≡ length (xs ++ e ∷ ys)
  length-renewed = omega (
    arith,
    length-append xs (insert renewed ys),
    length-append xs (e ∷ ys),
    length-insert renewed ys,
  )

  renewed-IsGood :
      (l : TimerList)
      → IsList l (xs ++ insert renewed ys)
      → IsSorted (xs ++ insert renewed ys)
      → IsGood (record s { timer_lst = l }) now stale (xs ++ insert renewed ys)
  renewed-IsGood l is sorted =
      let (r_1, r_2) = AllUpTo-split (clock + 300) xs (e ∷ ys) g.recent in
      let (w_1, w_2) = AllWired-split s.users_timer xs (e ∷ ys) g.wired in
      record {
        is_list = is;
        sorted = sorted;
        recent =
            AllUpTo-join (now + 300) xs (insert renewed ys)
              (AllUpTo-mono (clock + 300) (now + 300) xs (omega arith) r_1)
              (AllUpTo-insert (now + 300) renewed ys (omega arith)
                (AllUpTo-mono (clock + 300) (now + 300) ys (omega arith) r_2.1));
        wired = AllWired-append s.users_timer xs (insert renewed ys) w_1 (
            AllWired-insert s.users_timer renewed ys
              (record {
                fd = w_2.0.fd;
                owner = w_2.0.owner;
                in_array = w_2.0.in_array;
                knows = w_2.0.knows;
                calls_back = w_2.0.calls_back;
              })
              w_2.1);
        live = λ fd on not_listen not_pipe.
            owns-renewed (s.users_timer fd).timer (suc fd) ∙ g.live fd on not_listen not_pipe;
        free = g.free;
        counted = g.counted ∙ ap pos (sym length-renewed);
      }

  refresh-PutsOff :
      (fuel fd : ℕ)
      → (s.users_timer fd).timer ≡ e.addr
      → suc fd ≡ e.user_data
      → length (xs ++ e ∷ ys) < fuel
      → Returns
          (λ l. PutsOff s fd now stale (xs ++ e ∷ ys) (record s { timer_lst = l }))
          (refresh fuel now e.addr s.timer_lst)
  refresh-PutsOff fuel fd at owned f =
      let due_by = (AllUpTo-split (clock + 300) xs (e ∷ ys) g.recent).1.0 in
      Returns-mono
        (refresh-IsSorted fuel now s.timer_lst xs e ys (omega (arith, f, length-append xs (e ∷ ys)))
          g.is_list g.sorted (omega (arith, due_by, h)))
        λ l (is, sorted). record {
          place = record { before = xs; entry = e; after = ys; all = refl; at = at; owned = owned };
          good = renewed-IsGood l is sorted;
        }

-- The timer of a client is put off.
pub client-PutsOff :
    (fuel now fd : ℕ) {s : Server} {clock stale : ℕ} {xs : List Entry} (g : IsGood s clock stale xs)
    → IsClient s fd
    → clock ≤ now
    → length xs < fuel
    → Returns
        (λ l. PutsOff s fd now stale xs (record s { timer_lst = l }))
        (refresh fuel now (s.users_timer fd).timer s.timer_lst)
client-PutsOff fuel now fd {s} {clock} {stale} {xs} g client h f =
    let p = client-Place fd g client in
    let all = p.all in
    subst
      (λ a.
        Returns (λ l. PutsOff s fd now stale xs (record s { timer_lst = l }))
          (refresh fuel now a s.timer_lst))
      (sym p.at)
      (subst
        (λ r.
          Returns (λ l. PutsOff s fd now stale r (record s { timer_lst = l }))
            (refresh fuel now p.entry.addr s.timer_lst))
        (sym all)
        (refresh-PutsOff p.before p.entry p.after (subst (λ r. IsGood s clock stale r) all g) now h
          fuel fd p.at p.owned (subst (λ r. length r < fuel) all f)))
