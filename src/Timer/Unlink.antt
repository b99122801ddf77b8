-- ===== src/Timer/Unlink.antt =====
-- Taking a timer out of the middle of its list: `timer->prev->next = timer->next` and its mirror.
use wzy_server.Prelude.{◌≡◌, ◌≢◌, sym, ◌∙◌, some, List, [], ◌∷◌, ◌++◌, append_assoc, arith, ok}
use wzy_server.Timer.{null, TimerList, write, load, set_next, set_prev, bypass}
use wzy_server.Timer.Chain.{
  Entry, node, ◌∉◌, Distinct, first, last, Seg, SameOutside, IsList, Seg-frame, Seg-split, Seg-join,
  has-append, Distinct-apart, Distinct-right, tail_of_append, TailIs-append, Distinct-remove,
  not-mem-remove, has-remove, first-append,
}

module _ (l : TimerList) (ys : List Entry) (y e x : Entry) (zs : List Entry)
    (is : IsList l (ys ++ y ∷ e ∷ x ∷ zs)) where
  -- The state that `bypass` leaves: `y` and `x` are linked to one another.
  abbrev pub bypassed : TimerList
  bypassed = record l {
    heap =
        write (write l.heap y.addr (some (node y (last null ys) x.addr))) x.addr
          (some (node x y.addr (first zs null)));
  }

  parts : Seg l.heap null ys y.addr × Seg l.heap (last null ys) (y ∷ e ∷ x ∷ zs) null
  parts = Seg-split l.heap null null ys (y ∷ e ∷ x ∷ zs) is.chain

  apart : Distinct (y ∷ e ∷ x ∷ zs)
  apart = Distinct-right ys (y ∷ e ∷ x ∷ zs) is.distinct

  no_null : null ∉ y ∷ e ∷ x ∷ zs
  no_null = ground (arith, is.no_null, has-append null ys (y ∷ e ∷ x ∷ zs))

  pub bypassed-real : e.addr ≢ null
  bypassed-real = ground (arith, no_null)

  pub bypass-eq : bypass e.addr l ≡ ok bypassed
  unfolding bypass set_next set_prev load write
  bypass-eq = ground (arith, parts, apart, no_null)

  pub bypassed-chain :
      Seg bypassed.heap null ys y.addr × Seg bypassed.heap (last null ys) (y ∷ x ∷ zs) null
  unfolding write
  bypassed-chain = (
    Seg-frame _ _ _ _ ys parts.0
        (λ a i. ground (arith, Distinct-apart a ys (y ∷ e ∷ x ∷ zs) is.distinct i)),
    (
      ground (arith, parts, apart),
      (
        ground (arith, parts, apart),
        Seg-frame _ _ _ _ zs parts.1.1.1.1 (λ a i. ground (arith, apart)),
      ),
    ),
  )

  pub bypassed-holds : bypassed.heap e.addr ≡ some (node e y.addr x.addr)
  unfolding write
  bypassed-holds = ground (arith, parts, apart)

  pub bypassed-same : SameOutside (ys ++ y ∷ e ∷ x ∷ zs) l.heap bypassed.heap
  unfolding write
  bypassed-same a o = ground (arith, has-append a ys (y ∷ e ∷ x ∷ zs))

  -- It is the list without `e`.
  pub bypassed-IsList : IsList bypassed (ys ++ y ∷ x ∷ zs)
  bypassed-IsList = record {
    head_is = is.head_is ∙ first-append ys _ null ∙ sym (first-append ys _ null);
    tail_is = TailIs-append _ ys y (x ∷ zs) (tail_of_append _ ys y (e ∷ x ∷ zs) is.tail_is);
    chain = Seg-join _ null null ys (y ∷ x ∷ zs) bypassed-chain.0 bypassed-chain.1;
    distinct =
        rw append_assoc at
          (Distinct-remove (ys ++ y ∷ []) e (x ∷ zs) (rw append_assoc is.distinct));
    no_null =
        rw append_assoc at (has-remove null (ys ++ y ∷ []) e (x ∷ zs) (rw append_assoc is.no_null));
  }

  pub bypassed-out : e.addr ∉ ys ++ y ∷ x ∷ zs
  bypassed-out =
      rw append_assoc at (not-mem-remove (ys ++ y ∷ []) e (x ∷ zs) (rw append_assoc is.distinct))
