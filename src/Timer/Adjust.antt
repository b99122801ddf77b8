-- ===== src/Timer/Adjust.antt =====
-- `adjust_timer`: a timer whose time was put off moves behind those that are now due no later.
use wzy_server.Prelude.{
  ℕ, ◌<◌, ◌≡◌, ◌≢◌, refl, sym, ◌∙◌, if◌then◌else◌, some, List, [], ◌∷◌, ◌++◌, append_assoc, arith,
  ok, length, ltb, Returns, returns, Returns-mono, Bool-cases, inl, inr, ◌⊎◌,
}
use wzy_server.Timer.{
  Ptr, null, TimerList, write, load, set_next, set_prev, readd_head, readd_inner, readd, add_after,
  adjust_timer,
}
use wzy_server.Timer.Chain.{
  Entry, node, ◌∉◌, Distinct, first, last, Seg, IsList, Seg-frame, Seg-split, Seg-join, has-append,
  Distinct-apart, Distinct-right, tail_of_append, TailIs-append, first-append, load-ok, snoc_cases,
}
use wzy_server.Timer.Insert.{
  insert, IsApart, Inserted, Distinct-insert-append, has-insert-append, Becomes, add_after-Inserted,
  Inserted-Becomes,
}
use wzy_server.Timer.Unlink.{
  bypassed, bypass-eq, bypassed-chain, bypassed-holds, bypassed-same, bypassed-IsList, bypassed-out,
  bypassed-real,
}

-- The head of a list, put back behind `x`.
module _ (l : TimerList) (e x : Entry) (xs : List Entry) (is : IsList l (e ∷ x ∷ xs)) where
  -- The list without its head, which stands apart.
  abbrev beheaded : TimerList
  beheaded = record l {
    heap =
        write (write l.heap x.addr (some (node x null (first xs null)))) e.addr
          (some (node e null null));
    head = x.addr;
  }

  readd_head-eq : (fuel : ℕ) → readd_head fuel e.addr l ≡ add_after fuel e.addr x.addr beheaded
  unfolding readd_head set_next set_prev load write
  readd_head-eq fuel = ground (arith, is.head_is, is.chain, is.distinct, is.no_null)

  beheaded-IsList : IsList beheaded (x ∷ xs)
  unfolding write
  beheaded-IsList = record {
    head_is = refl;
    tail_is = is.tail_is;
    chain = (
      ground (arith, is.distinct),
      Seg-frame _ _ _ _ xs is.chain.1.1 (ground (arith, is.distinct)),
    );
    distinct = is.distinct.1;
    no_null = ground (arith, is.no_null);
  }

  beheaded-IsApart : IsApart beheaded.heap e (x ∷ xs)
  unfolding write
  beheaded-IsApart = record {
    prev = null;
    next = null;
    holds = ground arith;
    real = ground (arith, is.no_null);
    out = is.distinct.0;
  }

  readd_head-Becomes :
      (fuel : ℕ)
      → length xs < fuel
      → Returns (Becomes l (e ∷ x ∷ xs) (x ∷ insert e xs)) (readd_head fuel e.addr l)
  unfolding write
  readd_head-Becomes fuel f = rw (readd_head-eq fuel) (
      Returns-mono
        (add_after-Inserted e fuel beheaded null x xs f beheaded-IsList.chain
          beheaded-IsList.distinct beheaded-IsList.no_null beheaded-IsApart beheaded-IsList.tail_is)
        λ l' i.
          let b = Inserted-Becomes e beheaded-IsList beheaded-IsApart.real is.distinct.0 i in
          record { is_list = b.is_list; same = λ a o. b.same a o ∙ ground arith })

-- A timer with one before it, put back behind the one after it.
module _ (l : TimerList) (ys : List Entry) (y e x : Entry) (zs : List Entry)
    (is : IsList l (ys ++ y ∷ e ∷ x ∷ zs)) where
  readd_inner-eq :
      (fuel : ℕ)
      → readd_inner fuel e.addr l ≡ add_after fuel e.addr x.addr (bypassed l ys y e x zs is)
  unfolding readd_inner
  readd_inner-eq fuel = rw (
    bypass-eq l ys y e x zs is,
    load-ok (bypassed l ys y e x zs is) (bypassed-real l ys y e x zs is)
        (bypassed-holds l ys y e x zs is),
  )

  unlinked : IsList (bypassed l ys y e x zs is) (ys ++ y ∷ x ∷ zs)
  unlinked = bypassed-IsList l ys y e x zs is

  rest_apart : Distinct (y ∷ x ∷ zs)
  rest_apart = Distinct-right ys (y ∷ x ∷ zs) unlinked.distinct

  rest_out : (a : Ptr) → a ∉ ys ++ y ∷ x ∷ zs → a ∉ y ∷ x ∷ zs
  rest_out a o = ground (arith, has-append a ys (y ∷ x ∷ zs))

  bypassed-IsApart : IsApart (bypassed l ys y e x zs is).heap e (x ∷ zs)
  bypassed-IsApart = record {
    prev = y.addr;
    next = x.addr;
    holds = bypassed-holds l ys y e x zs is;
    real = bypassed-real l ys y e x zs is;
    out = ground (arith, rest_out e.addr (bypassed-out l ys y e x zs is));
  }

  Inserted-inner :
      {l' : TimerList}
      → Inserted e (bypassed l ys y e x zs is) y.addr x zs l'
      → Becomes l (ys ++ y ∷ e ∷ x ∷ zs) (ys ++ y ∷ x ∷ insert e zs) l'
  Inserted-inner {l'} i = record {
    is_list = record {
      head_is =
          i.head_kept
          ∙ unlinked.head_is
          ∙ first-append ys (y ∷ x ∷ zs) null
          ∙ sym (first-append ys (y ∷ x ∷ insert e zs) null);
      tail_is = TailIs-append _ ys y (x ∷ insert e zs) i.tail_is;
      chain = Seg-join _ null null ys (y ∷ x ∷ insert e zs) front (
        i.same y.addr (ground (arith, rest_apart, rest_out e.addr out))
            ∙ (bypassed-chain l ys y e x zs is).1.0,
        i.chain,
      );
      distinct = rw append_assoc at (
          Distinct-insert-append (ys ++ y ∷ x ∷ []) e zs (rw append_assoc unlinked.distinct)
            (rw append_assoc out));
      no_null = rw append_assoc at (
          has-insert-append null (ys ++ y ∷ x ∷ []) e zs (rw append_assoc unlinked.no_null)
            (λ q. bypassed-real l ys y e x zs is (sym q)));
    };
    same = λ a o.
        i.same a (ground (arith, has-append a ys (y ∷ e ∷ x ∷ zs)))
        ∙ bypassed-same l ys y e x zs is a o;
  }
    where
      out : e.addr ∉ ys ++ y ∷ x ∷ zs
      out = bypassed-out l ys y e x zs is

      front : Seg l'.heap null ys y.addr
      front =
          Seg-frame _ _ _ _ ys (bypassed-chain l ys y e x zs is).0
            λ a m. i.same a (ground (arith, Distinct-apart a ys (y ∷ e ∷ x ∷ zs) is.distinct m))

  readd_inner-Becomes :
      (fuel : ℕ)
      → length zs < fuel
      → Returns
          (Becomes l (ys ++ y ∷ e ∷ x ∷ zs) (ys ++ y ∷ x ∷ insert e zs))
          (readd_inner fuel e.addr l)
  readd_inner-Becomes fuel f = rw (readd_inner-eq fuel) (
      Returns-mono
        (add_after-Inserted e fuel _ y.addr x zs f (bypassed-chain l ys y e x zs is).1.1
          rest_apart.1 (ground (arith, rest_out null unlinked.no_null)) bypassed-IsApart
          (tail_of_append _ ys y (x ∷ zs) unlinked.tail_is))
        λ l' i. Inserted-inner i)

-- Which of the two ways `adjust_timer` takes, and when it leaves the list alone.
module _ (fuel : ℕ) (l : TimerList) (xs : List Entry) (e : Entry) (ys : List Entry)
    (is : IsList l (xs ++ e ∷ ys)) where
  here : l.heap e.addr ≡ some (node e (last null xs) (first ys null))
  here = (Seg-split l.heap null null xs (e ∷ ys) is.chain).1.0

  real : e.addr ≢ null
  real = ground (arith, is.no_null, has-append null xs (e ∷ ys))

  unchanged : Becomes l (xs ++ e ∷ ys) (xs ++ e ∷ ys) l
  unchanged = record { is_list = is; same = λ a o. refl }

adjust_last :
    (fuel : ℕ) (l : TimerList) (xs : List Entry) (e : Entry)
    → IsList l (xs ++ e ∷ [])
    → adjust_timer fuel e.addr l ≡ ok l
unfolding adjust_timer load
adjust_last fuel l xs e is = ground (arith, real fuel l xs e [] is, here fuel l xs e [] is)

adjust_before :
    (fuel : ℕ) (l : TimerList) (xs : List Entry) (e x : Entry) (zs : List Entry)
    → IsList l (xs ++ e ∷ x ∷ zs)
    → adjust_timer fuel e.addr l ≡ (if ltb e.expire x.expire then ok l else readd fuel e.addr l)
unfolding adjust_timer load
adjust_before fuel l xs e x zs is = ground (
  arith,
  real fuel l xs e (x ∷ zs) is,
  here fuel l xs e (x ∷ zs) is,
  (Seg-split l.heap null null xs (e ∷ x ∷ zs) is.chain).1.1.0,
  is.no_null,
  has-append null xs (e ∷ x ∷ zs),
)

readd_at_head :
    (fuel : ℕ) (l : TimerList) (e : Entry) (ys : List Entry)
    → IsList l (e ∷ ys)
    → readd fuel e.addr l ≡ readd_head fuel e.addr l
unfolding readd
readd_at_head fuel l e ys is = ground (arith, is.head_is)

readd_within :
    (fuel : ℕ) (l : TimerList) (ys : List Entry) (y e : Entry) (zs : List Entry)
    → IsList l (ys ++ y ∷ e ∷ zs)
    → readd fuel e.addr l ≡ readd_inner fuel e.addr l
unfolding readd
readd_within fuel l [] y e zs is = ground (arith, is.head_is, is.distinct)
readd_within fuel l (w ∷ ws) y e zs is =
    ground (arith, is.head_is, is.distinct.0, has-append w.addr ws (y ∷ e ∷ zs))

readd-Becomes :
    (fuel : ℕ) (l : TimerList) (xs : List Entry) (e x : Entry) (zs : List Entry)
    → length zs < fuel
    → IsList l (xs ++ e ∷ x ∷ zs)
    → (xs ≡ []) ⊎ ((ys : List Entry) × (y : Entry) × (xs ≡ ys ++ y ∷ []))
    → Returns (Becomes l (xs ++ e ∷ x ∷ zs) (xs ++ x ∷ insert e zs)) (readd fuel e.addr l)
readd-Becomes fuel l xs e x zs f is (inl at_head) =
    let is0 : IsList l (e ∷ x ∷ zs) = rw at_head at is in
    rw (at_head, readd_at_head fuel l e (x ∷ zs) is0) (readd_head-Becomes l e x zs is0 fuel f)
readd-Becomes fuel l xs e x zs f is (inr (ys, y, behind)) =
    let is0 : IsList l (ys ++ y ∷ e ∷ x ∷ zs) = rw (behind, append_assoc) at is in
    rw (behind, append_assoc, append_assoc, readd_within fuel l ys y e (x ∷ zs) is0)
      (readd_inner-Becomes l ys y e x zs is0 fuel f)

-- A timer of the list, its time changed in place, ends up before the first later timer that is due
-- later than it; no timer gets lost, and no other address changes.
pub adjust_timer-Becomes :
    (fuel : ℕ) (l : TimerList) (xs : List Entry) (e : Entry) (ys : List Entry)
    → length ys < fuel
    → IsList l (xs ++ e ∷ ys)
    → Returns (Becomes l (xs ++ e ∷ ys) (xs ++ insert e ys)) (adjust_timer fuel e.addr l)
unfolding insert
adjust_timer-Becomes fuel l xs e [] f is =
    rw (adjust_last fuel l xs e is) (returns (unchanged fuel l xs e [] is))
adjust_timer-Becomes fuel l xs e (x ∷ zs) f is =
    rw (adjust_before fuel l xs e x zs is) (elim (Bool-cases (ltb e.expire x.expire)) [
      | inl lt ↦ rw (lt) (returns (unchanged fuel l xs e (x ∷ zs) is))
      | inr ge ↦ rw (ge) (readd-Becomes fuel l xs e x zs (omega arith) is (snoc_cases xs))
    ])
