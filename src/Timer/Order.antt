-- ===== src/Timer/Order.antt =====
-- The order of the list: ascending times, so that `tick` may stop at the first timer that is not
-- due.
use wzy_server.Prelude.{
  ℕ, suc, ◌<◌, ◌≤◌, ◌≡◌, ◌≢◌, refl, ap, some, List, [], ◌∷◌, ◌++◌, map, arith, length, ltb, ltb→lt,
  not_ltb→le, Returns, Returns-mono, Bool-cases, inl, inr,
}
use wzy_server.Timer.{null, TimerList, add_timer, tick}
use wzy_server.Timer.Chain.{Entry, node, ◌∉◌, IsList}
use wzy_server.Timer.Insert.{insert, add_timer-Becomes}
use wzy_server.Timer.Tick.{expired, pending, callback, Ticked, tick-Ticked}

-- Every entry is due at `t` or later; every entry is due at `t` or before.
abbrev pub AllFrom : ℕ → List Entry → Type 0
AllFrom t [] = Unit {0}
AllFrom t (x ∷ xs) = (t ≤ x.expire) × AllFrom t xs

abbrev pub AllUpTo : ℕ → List Entry → Type 0
AllUpTo t [] = Unit {0}
AllUpTo t (x ∷ xs) = (x.expire ≤ t) × AllUpTo t xs

abbrev pub IsSorted : List Entry → Type 0
IsSorted [] = Unit {0}
IsSorted (x ∷ xs) = AllFrom x.expire xs × IsSorted xs

AllFrom-mono : (s t : ℕ) (xs : List Entry) → s ≤ t → AllFrom t xs → AllFrom s xs
AllFrom-mono s t [] h a = tt
AllFrom-mono s t (x ∷ xs) h a = (omega arith, AllFrom-mono s t xs h a.1)

pub AllUpTo-mono : (s t : ℕ) (xs : List Entry) → s ≤ t → AllUpTo s xs → AllUpTo t xs
AllUpTo-mono s t [] h a = tt
AllUpTo-mono s t (x ∷ xs) h a = (omega arith, AllUpTo-mono s t xs h a.1)

pub AllUpTo-insert :
    (t : ℕ) (e : Entry) (xs : List Entry) → e.expire ≤ t → AllUpTo t xs → AllUpTo t (insert e xs)
unfolding insert
AllUpTo-insert t e [] h a = (h, tt)
AllUpTo-insert t e (x ∷ xs) h a = ground (arith, AllUpTo-insert t e xs h a.1)

AllFrom-insert :
    (t : ℕ) (e : Entry) (xs : List Entry) → t ≤ e.expire → AllFrom t xs → AllFrom t (insert e xs)
unfolding insert
AllFrom-insert t e [] h a = (h, tt)
AllFrom-insert t e (x ∷ xs) h a = ground (arith, AllFrom-insert t e xs h a.1)

pub insert-IsSorted : (e : Entry) (xs : List Entry) → IsSorted xs → IsSorted (insert e xs)
unfolding insert
insert-IsSorted e [] s = (tt, tt)
insert-IsSorted e (x ∷ xs) s = elim (Bool-cases (ltb e.expire x.expire)) [
  | inl lt ↦ rw lt (
    (
      omega (arith, ltb→lt e.expire x.expire lt),
      AllFrom-mono e.expire x.expire xs (omega (arith, ltb→lt e.expire x.expire lt)) s.0,
    ),
    s,
  )
  | inr ge ↦
      rw ge (
        AllFrom-insert x.expire e xs (not_ltb→le e.expire x.expire ge) s.0,
        insert-IsSorted e xs s.1,
      )
]

AllFrom-append : (t : ℕ) (xs ys : List Entry) → AllFrom t (xs ++ ys) → AllFrom t xs × AllFrom t ys
AllFrom-append t [] ys a = (tt, a)
AllFrom-append t (x ∷ xs) ys a = let r = AllFrom-append t xs ys a.1 in ((a.0, r.0), r.1)

AllFrom-join : (t : ℕ) (xs ys : List Entry) → AllFrom t xs → AllFrom t ys → AllFrom t (xs ++ ys)
AllFrom-join t [] ys a b = b
AllFrom-join t (x ∷ xs) ys a b = (a.0, AllFrom-join t xs ys a.1 b)

-- A timer put off to a later time and moved back keeps the order.
pub reinsert-IsSorted :
    (xs : List Entry) (old e : Entry) (ys : List Entry)
    → IsSorted (xs ++ old ∷ ys)
    → old.expire ≤ e.expire
    → IsSorted (xs ++ insert e ys)
reinsert-IsSorted [] old e ys s h = insert-IsSorted e ys s.1
reinsert-IsSorted (x ∷ xs) old e ys s h =
    let parts = AllFrom-append x.expire xs (old ∷ ys) s.0 in
    (
      AllFrom-join x.expire xs (insert e ys) parts.0
          (AllFrom-insert x.expire e ys (omega arith) parts.1.1),
      reinsert-IsSorted xs old e ys s.1 h,
    )

pub AllUpTo-remove :
    (t : ℕ) (xs : List Entry) (e : Entry) (ys : List Entry)
    → AllUpTo t (xs ++ e ∷ ys)
    → AllUpTo t (xs ++ ys)
AllUpTo-remove t [] e ys a = a.1
AllUpTo-remove t (x ∷ xs) e ys a = (a.0, AllUpTo-remove t xs e ys a.1)

pub remove-IsSorted :
    (xs : List Entry) (e : Entry) (ys : List Entry) → IsSorted (xs ++ e ∷ ys) → IsSorted (xs ++ ys)
remove-IsSorted [] e ys s = s.1
remove-IsSorted (x ∷ xs) e ys s =
    let parts = AllFrom-append x.expire xs (e ∷ ys) s.0 in
    (AllFrom-join x.expire xs ys parts.0 parts.1.1, remove-IsSorted xs e ys s.1)

-- The list splits at the time of the tick.
expired-append-pending :
    (cur : ℕ) (xs : List Entry)
    → IsSorted xs
    → (expired cur xs ++ pending cur xs ≡ xs)
      × AllUpTo cur (expired cur xs)
      × AllFrom (suc cur) (pending cur xs)
      × IsSorted (pending cur xs)
unfolding expired pending
expired-append-pending cur [] s = (refl, tt, tt, tt)
expired-append-pending cur (x ∷ xs) s = elim (Bool-cases (ltb cur x.expire)) [
  | inl lt ↦ rw lt (
    refl,
    tt,
    (ltb→lt cur x.expire lt, AllFrom-mono (suc cur) x.expire xs (ltb→lt cur x.expire lt) s.0),
    s,
  )
  | inr ge ↦
      let (all, due, later, sorted) = expired-append-pending cur xs s.1 in
      rw ge (ap (λ r. x ∷ r) all, (not_ltb→le cur x.expire ge, due), later, sorted)
]

-- `add_timer` of a new timer puts it into a sorted list so that the list stays sorted.
pub add_timer-IsSorted :
    (fuel : ℕ) (l : TimerList) (e : Entry) (xs : List Entry)
    → length xs < fuel
    → IsList l xs
    → IsSorted xs
    → l.heap e.addr ≡ some (node e null null)
    → e.addr ≢ null
    → e.addr ∉ xs
    → Returns (λ l'. IsList l' (insert e xs) × IsSorted (insert e xs)) (add_timer fuel e.addr l)
add_timer-IsSorted fuel l e xs f is s holds real out =
    Returns-mono (add_timer-Becomes e fuel l xs f is holds real out)
      λ l' b. (b.is_list, insert-IsSorted e xs s)

-- `tick` on a sorted list calls back exactly the timers that are due at `cur`, in order, frees
-- them, and leaves exactly those that are not due.
pub tick_calls_due :
    (fuel cur : ℕ) (l : TimerList) (xs : List Entry)
    → length xs < fuel
    → IsList l xs
    → IsSorted xs
    → Returns
        (λ (fired, l').
          (due : List Entry) × (left : List Entry) × (due ++ left ≡ xs)
          × AllUpTo cur due
          × AllFrom (suc cur) left
          × IsSorted left
          × (fired ≡ map callback due)
          × Ticked l xs due left l')
        (tick fuel cur l)
tick_calls_due fuel cur l xs f is s =
    let (all, due, later, sorted) = expired-append-pending cur xs s in
    Returns-mono (tick-Ticked fuel cur l xs f is)
      λ (fired, l') (calls, t). (expired cur xs, pending cur xs, all, due, later, sorted, calls, t)
