-- ===== src/Server/Refresh.antt =====
-- The main loop's changes to the list of timers: a timer put off, and the signals that make it
-- tick.
use wzy_server.Prelude.{
  ℕ, ◌+◌, ◌<◌, ◌≤◌, ◌≡◌, ◌≢◌, refl, sym, ap, ◌∙◌, Bool, true, false, ◌||◌, ◌==◌, List, [], ◌∷◌,
  ◌++◌, some, Option, length, ==-self, Returns, Returns-mono, arith,
}
use wzy_server.Timer.{null, Ptr, Timer, TimerList, store, write}
use wzy_server.Timer.Chain.{
  Entry, node, has, ◌∉◌, Distinct, first, last, IsList, TailIs-append, tail_of_append, Seg-split,
  Seg-join, Seg-write, first-append, has-append, load-ok, not-mem-remove, entry-holds,
  entry_is_real,
}
use wzy_server.Timer.Insert.{insert}
use wzy_server.Timer.Adjust.{adjust_timer-Becomes}
use wzy_server.Timer.Order.{IsSorted, reinsert-IsSorted}
use wzy_server.Server.{refresh, Flags, on_signals, sigalrm, sigterm}

write_self : (h : Ptr → Option Timer) (a : Ptr) (c : Option Timer) → write h a c a ≡ c
unfolding write
write_self h a c = rw (==-self a) refl

module _ (xs : List Entry) (old : Entry) (ys : List Entry) (t : ℕ) where
  -- The entry with its new time.
  abbrev put_off : Entry
  put_off = record old { expire = t }

  has-put_off : (a : Ptr) (zs : List Entry) → has a (zs ++ put_off ∷ ys) ≡ has a (zs ++ old ∷ ys)
  has-put_off a [] = refl
  has-put_off a (z ∷ zs) = ap (λ b. (a == z.addr) || b) (has-put_off a zs)

  Distinct-put_off : (zs : List Entry) → Distinct (zs ++ old ∷ ys) → Distinct (zs ++ put_off ∷ ys)
  Distinct-put_off [] d = d
  Distinct-put_off (z ∷ zs) d = (has-put_off z.addr zs ∙ d.0, Distinct-put_off zs d.1)

  apart : Distinct (xs ++ old ∷ ys) → (old.addr ∉ xs) × (old.addr ∉ ys)
  apart d = let out = not-mem-remove xs old ys d in ground (arith, out, has-append old.addr xs ys)

  store-IsList :
      (l : TimerList)
      → IsList l (xs ++ old ∷ ys)
      → IsList
          (store old.addr (some (node put_off (last null xs) (first ys null))) l)
          (xs ++ put_off ∷ ys)
  store-IsList l is =
      let new = some (node put_off (last null xs) (first ys null)) in
      let (left, (_, right)) = Seg-split l.heap null null xs (old ∷ ys) is.chain in
      let (out_l, out_r) = apart is.distinct in
      record {
        head_is =
            is.head_is
            ∙ first-append xs (old ∷ ys) null
            ∙ sym (first-append xs (put_off ∷ ys) null);
        tail_is = TailIs-append l.tail xs put_off ys (tail_of_append l.tail xs old ys is.tail_is);
        chain =
            Seg-join (write l.heap old.addr new) null null xs (put_off ∷ ys)
              (Seg-write l.heap null old.addr xs old.addr new left out_l)
              (
                write_self l.heap old.addr new,
                Seg-write l.heap old.addr null ys old.addr new right out_r,
              );
        distinct = Distinct-put_off xs is.distinct;
        no_null = has-put_off null xs ∙ is.no_null;
      }

-- A connection with data has its timer put off to three slots from now: on a sorted list whose
-- timer is not due later than that, the list stays sorted, and the timer stands where its new time
-- belongs, with no other timer lost.
pub refresh-IsSorted :
    (fuel cur : ℕ) (l : TimerList) (xs : List Entry) (old : Entry) (ys : List Entry)
    → length ys < fuel
    → IsList l (xs ++ old ∷ ys)
    → IsSorted (xs ++ old ∷ ys)
    → old.expire ≤ cur + 300
    → let new = record old { expire = cur + 300 } in
      Returns
        (λ l'. IsList l' (xs ++ insert new ys) × IsSorted (xs ++ insert new ys))
        (refresh fuel cur old.addr l)
unfolding refresh
refresh-IsSorted fuel cur l xs old ys f is s later =
    let new = record old { expire = cur + 300 } in
    let not_null : old.addr ≢ null = entry_is_real l xs old ys is in
    let stored = store-IsList xs old ys (cur + 300) l is in
    let is_null : (old.addr == null) ≡ false = ground (arith, not_null) in
    rw (is_null, load-ok l not_null (entry-holds l xs old ys is))
      (Returns-mono
        (adjust_timer-Becomes fuel
          (store old.addr (some (node new (last null xs) (first ys null))) l) xs new ys f stored)
        λ l' b. (b.is_list, reinsert-IsSorted xs old new ys s later))

-- Whether the signal `x` is in the list.
abbrev pub among : ℕ → List ℕ → Bool
among x [] = false
among x (y ∷ ys) = (y == x) || among x ys

-- The alarm among the signals, and only it, sets `timeout`; the termination signal, and only it,
-- sets `stop_server`; neither flag is taken back.
pub on_signals_lem :
    (ss : List ℕ) (f : Flags)
    → on_signals ss f ≡ record {
      timeout = f.timeout || among sigalrm ss;
      stop_server = f.stop_server || among sigterm ss;
    }
unfolding on_signals
on_signals_lem [] f = ground arith
on_signals_lem (s ∷ ss) f = ground (
  arith,
  on_signals_lem ss f,
  on_signals_lem ss (record f { timeout = true }),
  on_signals_lem ss (record f { stop_server = true }),
)
