-- ===== src/Timer/Remove.antt =====
-- `del_timer`: the timer leaves the list and the heap.
use wzy_server.Prelude.{
  ◌≡◌, ◌≢◌, refl, sym, subst, ==_iff, ◌∙◌, true, false, ◌==◌, none, some, List, [], ◌∷◌, ◌++◌,
  append_assoc, append-nil, arith, ok, ◌>>=◌, Returns, returns, Bool-cases, inl, inr,
}
use wzy_server.Timer.{
  Ptr, null, TimerList, write, load, store, set_next, set_prev, free, bypass, del_head, del_tail,
  del_timer,
}
use wzy_server.Timer.Chain.{
  Entry, node, ◌∈◌, ◌∉◌, Distinct, first, last, Seg, SameOutside, IsList, Seg-write, Seg-frame,
  Seg-split, Seg-join, has-append, Distinct-apart, Distinct-right, last-mem, tail_of_append,
  TailIs-append, Distinct-remove, has-remove, first-append, free-ok, snoc_cases,
}
use wzy_server.Timer.Unlink.{
  bypassed, bypass-eq, bypassed-holds, bypassed-same, bypassed-IsList, bypassed-out, bypassed-real,
}

-- The list is `ys`, the timer at `p` is gone, and the heap changed at most at `xs`.
pub record Removed (l : TimerList) (xs : List Entry) (p : Ptr) (ys : List Entry) (l' : TimerList)
    : Type 0 where
  pub is_list : IsList l' ys
  pub gone : l'.heap p ≡ none
  pub same : SameOutside xs l.heap l'.heap

-- An address outside a list is not that of its last entry.
ne_last : (p : Ptr) (x : Entry) (xs : List Entry) → p ∉ x ∷ xs → (p == last x.addr xs) ≡ false
ne_last p x xs out = elim (Bool-cases (p == last x.addr xs)) [
  | inl e ↦
      absurd
        (true_false (sym (subst (λ a. a ∈ x ∷ xs) (sym ((==_iff _ _).0 e)) (last-mem x xs)) ∙ out))
  | inr e ↦ e
]
  where
    true_false : true ≢ false
    true_false e = cc

-- The branches of `del_timer`.
branch_head :
    (p : Ptr) (l : TimerList)
    → (p == null) ≡ false
    → (p == l.tail) ≡ false
    → l.head ≡ p
    → del_timer p l ≡ del_head p l
unfolding del_timer
branch_head p l real not_tail e = ground arith

branch_tail :
    (p : Ptr) (l : TimerList)
    → (p == null) ≡ false
    → (p == l.head) ≡ false
    → l.tail ≡ p
    → del_timer p l ≡ del_tail p l
unfolding del_timer
branch_tail p l real not_head e = ground arith

branch_inside :
    (p : Ptr) (l : TimerList)
    → (p == null) ≡ false
    → (p == l.head) ≡ false
    → (p == l.tail) ≡ false
    → del_timer p l ≡ (do l ← bypass p l; free p l)
unfolding del_timer
branch_inside p l real not_head not_tail = ground arith

del_only-Removed :
    (l : TimerList) (e : Entry)
    → IsList l (e ∷ [])
    → Returns (Removed l (e ∷ []) e.addr []) (del_timer e.addr l)
unfolding del_timer
del_only-Removed l e is = rw only (
    returns (record {
      is_list = record { head_is = refl; tail_is = tt; chain = tt; distinct = tt; no_null = refl };
      gone = gone;
      same = same;
    }))
  where
    only :
        del_timer e.addr l
        ≡ ok (record l { heap = write l.heap e.addr none; head = null; tail = null })
    only = ground (
      arith,
      is.head_is,
      is.tail_is,
      is.no_null,
      free-ok l {p = e.addr} (ground (arith, is.no_null)) is.chain.0,
    )

    gone : write l.heap e.addr none e.addr ≡ none
    gone = unfold write in ground arith

    same : SameOutside (e ∷ []) l.heap (write l.heap e.addr none)
    same a o = unfold write in ground arith

module _ (l : TimerList) (e x : Entry) (zs : List Entry) (is : IsList l (e ∷ x ∷ zs)) where
  abbrev without_head : TimerList
  without_head = record l {
    heap = write (write l.heap x.addr (some (node x null (first zs null)))) e.addr none;
    head = x.addr;
  }

  goes_to_head : del_timer e.addr l ≡ del_head e.addr l
  goes_to_head =
      branch_head e.addr l (ground (arith, is.no_null))
        (rw is.tail_is (ne_last e.addr x zs is.distinct.0)) is.head_is

  del_head-eq : del_head e.addr l ≡ ok without_head
  unfolding del_head set_prev load free write
  del_head-eq = ground (arith, is.head_is, is.chain, is.distinct.0, is.no_null)

  without_head-Removed : Removed l (e ∷ x ∷ zs) e.addr (x ∷ zs) without_head
  unfolding write
  without_head-Removed = record {
    is_list = record {
      head_is = refl;
      tail_is = is.tail_is;
      chain = (
        ground (arith, is.distinct),
        Seg-frame _ _ _ _ zs is.chain.1.1 (ground (arith, is.distinct)),
      );
      distinct = is.distinct.1;
      no_null = ground (arith, is.no_null);
    };
    gone = ground arith;
    same = ground arith;
  }

module _ (l : TimerList) (ys : List Entry) (y e : Entry) (is : IsList l (ys ++ y ∷ e ∷ [])) where
  abbrev without_tail : TimerList
  without_tail = record l {
    heap = write (write l.heap y.addr (some (node y (last null ys) null))) e.addr none;
    tail = y.addr;
  }

  parts : Seg l.heap null ys y.addr × Seg l.heap (last null ys) (y ∷ e ∷ []) null
  parts = Seg-split l.heap null null ys (y ∷ e ∷ []) is.chain

  apart : Distinct (y ∷ e ∷ [])
  apart = Distinct-right ys (y ∷ e ∷ []) is.distinct

  not_first :
      (ys : List Entry)
      → Distinct (ys ++ y ∷ e ∷ [])
      → (e.addr == first (ys ++ y ∷ e ∷ []) null) ≡ false
  not_first [] d = ground arith
  not_first (w ∷ ws) d = ground (arith, d.0, has-append w.addr ws (y ∷ e ∷ []))

  e_real : null ∉ y ∷ e ∷ []
  e_real = ground (arith, is.no_null, has-append null ys (y ∷ e ∷ []))

  goes_to_tail : del_timer e.addr l ≡ del_tail e.addr l
  goes_to_tail =
      branch_tail e.addr l (ground (arith, e_real)) (rw is.head_is (not_first ys is.distinct))
        (tail_of_append _ ys y (e ∷ []) is.tail_is)

  del_tail-eq : del_tail e.addr l ≡ ok without_tail
  unfolding del_tail set_next load free write
  del_tail-eq = ground (arith, tail_of_append _ ys y (e ∷ []) is.tail_is, parts.1, apart, e_real)

  without_tail-Removed : Removed l (ys ++ y ∷ e ∷ []) e.addr (ys ++ y ∷ []) without_tail
  unfolding write
  without_tail-Removed = record {
    is_list = record {
      head_is = is.head_is ∙ first-append ys _ null ∙ sym (first-append ys _ null);
      tail_is = TailIs-append _ ys y [] refl;
      chain =
          Seg-join _ null null ys (y ∷ [])
            (Seg-frame _ _ _ _ ys parts.0
              λ a m. ground (arith, Distinct-apart a ys (y ∷ e ∷ []) is.distinct m))
            (ground (arith, apart), tt);
      distinct =
          rw (append_assoc, append-nil) at
            (Distinct-remove (ys ++ y ∷ []) e [] (rw append_assoc is.distinct));
      no_null =
          rw (append_assoc, append-nil) at
            (has-remove null (ys ++ y ∷ []) e [] (rw append_assoc is.no_null));
    };
    gone = ground arith;
    same = λ a o. ground (arith, has-append a ys (y ∷ e ∷ []));
  }

module _ (l : TimerList) (ys : List Entry) (y e x : Entry) (zs : List Entry)
    (is : IsList l (ys ++ y ∷ e ∷ x ∷ zs)) where
  pass : TimerList
  pass = bypassed l ys y e x zs is

  not_tail : (e.addr == l.tail) ≡ false
  not_tail = rw (tail_of_append _ ys y (e ∷ x ∷ zs) is.tail_is) (
      ne_last e.addr x zs
        (Distinct-right (ys ++ y ∷ []) (e ∷ x ∷ zs) (rw append_assoc is.distinct)).0)

  not_head :
      (ys : List Entry)
      → Distinct (ys ++ y ∷ e ∷ x ∷ zs)
      → (e.addr == first (ys ++ y ∷ e ∷ x ∷ zs) null) ≡ false
  not_head [] d = ground arith
  not_head (w ∷ ws) d = ground (arith, d.0, has-append w.addr ws (y ∷ e ∷ x ∷ zs))

  goes_inside : del_timer e.addr l ≡ (do l ← bypass e.addr l; free e.addr l)
  goes_inside =
      branch_inside e.addr l (ground (arith, bypassed-real l ys y e x zs is))
        (rw is.head_is (not_head ys is.distinct)) not_tail

  del_inside-eq : del_timer e.addr l ≡ ok (store e.addr none pass)
  unfolding pass
  del_inside-eq = rw (
    goes_inside,
    bypass-eq l ys y e x zs is,
    free-ok pass (bypassed-real l ys y e x zs is) (bypassed-holds l ys y e x zs is),
  )

  inside-Removed :
      Removed l (ys ++ y ∷ e ∷ x ∷ zs) e.addr (ys ++ y ∷ x ∷ zs) (store e.addr none pass)
  unfolding write pass
  inside-Removed =
      let rest = bypassed-IsList l ys y e x zs is in
      record {
        is_list = record {
          head_is = rest.head_is;
          tail_is = rest.tail_is;
          chain =
              Seg-write _ null null (ys ++ y ∷ x ∷ zs) e.addr none rest.chain
                (bypassed-out l ys y e x zs is);
          distinct = rest.distinct;
          no_null = rest.no_null;
        };
        gone = ground arith;
        same = λ a o.
            ground (arith, bypassed-same l ys y e x zs is a o, has-append a ys (y ∷ e ∷ x ∷ zs));
      }

behind-Removed :
    (l : TimerList) (ys : List Entry) (y e : Entry) (zs : List Entry)
    → IsList l (ys ++ y ∷ e ∷ zs)
    → Returns (Removed l (ys ++ y ∷ e ∷ zs) e.addr (ys ++ y ∷ zs)) (del_timer e.addr l)
behind-Removed l ys y e [] is =
    rw (goes_to_tail l ys y e is, del_tail-eq l ys y e is)
      (returns (without_tail-Removed l ys y e is))
behind-Removed l ys y e (x ∷ zs) is =
    rw (del_inside-eq l ys y e x zs is) (returns (inside-Removed l ys y e x zs is))

front-Removed :
    (l : TimerList) (e : Entry) (zs : List Entry)
    → IsList l (e ∷ zs)
    → Returns (Removed l (e ∷ zs) e.addr zs) (del_timer e.addr l)
front-Removed l e [] is = del_only-Removed l e is
front-Removed l e (x ∷ zs) is =
    rw (goes_to_head l e x zs is, del_head-eq l e x zs is)
      (returns (without_head-Removed l e x zs is))

-- Wherever a timer stands in its list, `del_timer` takes it out, frees exactly that timer, and
-- keeps the order, links, head and tail of the rest.
pub del_timer-Removed :
    (l : TimerList) (xs : List Entry) (e : Entry) (ys : List Entry)
    → IsList l (xs ++ e ∷ ys)
    → Returns (Removed l (xs ++ e ∷ ys) e.addr (xs ++ ys)) (del_timer e.addr l)
del_timer-Removed l xs e ys is = elim (snoc_cases xs) [
  | inl none_before ↦ rw none_before (front-Removed l e ys (rw none_before at is))
  | inr (zs, y, behind) ↦
      rw (behind, append_assoc, append_assoc)
        (behind-Removed l zs y e ys (rw (behind, append_assoc) at is))
]
