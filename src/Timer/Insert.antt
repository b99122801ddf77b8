-- ===== src/Timer/Insert.antt =====
-- `add_timer`: a timer goes behind those that are due no later.
use wzy_server.Prelude.{
  ℕ, zero, suc, ◌<◌, ◌≡◌, ◌≢◌, refl, ◌∙◌, true, false, ◌==◌, ◌||◌, if◌then◌else◌, some, List, [],
  ◌∷◌, ◌++◌, arith, ok, length, ltb, Returns, returns, Returns-mono, Bool-cases, inl, inr,
}
use wzy_server.Timer.{
  Ptr, null, Heap, TimerList, write, load, set_next, set_prev, link_last, link_between, add_loop,
  add_after, add_timer,
}
use wzy_server.Timer.Chain.{
  Entry, node, has, ◌∉◌, Distinct, first, last, Seg, SameOutside, IsList, has-append, Seg-frame,
  load-ok,
}

-- The place that the comments of the source describe: before the first timer that is due later.
unfoldable pub insert : Entry → List Entry → List Entry
insert e [] = e ∷ []
insert e (x ∷ xs) = if ltb e.expire x.expire then e ∷ x ∷ xs else x ∷ insert e xs

-- The timer `e` stands in the heap, outside the list `xs`, with any links.
pub record IsApart (h : Heap) (e : Entry) (xs : List Entry) : Type 0 where
  pub prev : Ptr
  pub next : Ptr
  pub holds : h e.addr ≡ some (node e prev next)
  pub real : e.addr ≢ null
  pub out : e.addr ∉ xs

module _ (e : Entry) where
  pub record Inserted (l : TimerList) (before : Ptr) (p : Entry) (xs : List Entry) (l' : TimerList)
      : Type 0 where
    pub chain : Seg l'.heap before (p ∷ insert e xs) null
    pub same : SameOutside (e ∷ p ∷ xs) l.heap l'.heap
    pub head_kept : l'.head ≡ l.head
    pub tail_is : l'.tail ≡ last p.addr (insert e xs)

  -- The heap and tail that `link_last` leaves.
  abbrev linked_last : TimerList → Ptr → Entry → Ptr → TimerList
  linked_last l before p next = record l {
    heap =
        write
          (write (write l.heap p.addr (some (node p before e.addr))) e.addr
            (some (node e p.addr next)))
          e.addr (some (node e p.addr null));
    tail = e.addr;
  }

  link_last-eq :
      (l : TimerList) (before : Ptr) (p : Entry)
      → Seg l.heap before (p ∷ []) null
      → null ∉ p ∷ []
      → (a : IsApart l.heap e (p ∷ []))
      → link_last e.addr p.addr l ≡ ok (linked_last l before p a.next)
  unfolding link_last set_next set_prev load write
  link_last-eq l before p s nn a = ground arith

  link_last-Inserted :
      (l : TimerList) (before : Ptr) (p : Entry)
      → Seg l.heap before (p ∷ []) null
      → null ∉ p ∷ []
      → IsApart l.heap e (p ∷ [])
      → Returns (Inserted l before p []) (link_last e.addr p.addr l)
  unfolding insert write
  link_last-Inserted l before p s nn a = rw (link_last-eq l before p s nn a) (
      returns
        (record { chain = ground arith; same = ground arith; head_kept = refl; tail_is = refl }))

  module _ (l : TimerList) (before : Ptr) (p x : Entry) (xs : List Entry)
      (s : Seg l.heap before (p ∷ x ∷ xs) null) (d : Distinct (p ∷ x ∷ xs)) (nn : null ∉ p ∷ x ∷ xs)
      (a : IsApart l.heap e (p ∷ x ∷ xs)) where
    -- The heap that `link_between` leaves.
    abbrev between : TimerList
    between = record l {
      heap =
          write
            (write
              (write (write l.heap p.addr (some (node p before e.addr))) e.addr
                (some (node e a.prev x.addr)))
              e.addr (some (node e p.addr x.addr)))
            x.addr (some (node x e.addr (first xs null)));
    }

    link_between-eq : link_between e.addr p.addr x.addr l ≡ ok between
    unfolding link_between set_next set_prev load write
    link_between-eq = ground arith

    link_between-Inserted :
        ltb e.expire x.expire ≡ true
        → l.tail ≡ last p.addr (x ∷ xs)
        → Returns (Inserted l before p (x ∷ xs)) (link_between e.addr p.addr x.addr l)
    unfolding insert write
    link_between-Inserted lt t = rw link_between-eq (
        returns (record {
          chain = rw lt (
            ground arith,
            (ground arith, (ground arith, Seg-frame _ _ _ _ _ s.1.1 (ground arith))),
          );
          same = ground arith;
          head_kept = refl;
          tail_is = rw lt t;
        }))

  Inserted-cons :
      {l l' : TimerList} {before : Ptr} {p x : Entry} {xs : List Entry}
      → Seg l.heap before (p ∷ x ∷ xs) null
      → Distinct (p ∷ x ∷ xs)
      → IsApart l.heap e (p ∷ x ∷ xs)
      → ltb e.expire x.expire ≡ false
      → Inserted l p.addr x xs l'
      → Inserted l before p (x ∷ xs) l'
  unfolding insert
  Inserted-cons {p} s d a ge i = record {
    chain = rw ge (i.same p.addr (ground arith) ∙ s.0, i.chain);
    same = λ b o. i.same b (ground arith);
    head_kept = i.head_kept;
    tail_is = rw ge i.tail_is;
  }

  -- The loop puts the timer in its place behind `p`, and writes nowhere else.
  pub add_loop-Inserted :
      (fuel : ℕ) (l : TimerList) (before : Ptr) (p : Entry) (xs : List Entry)
      → length xs < fuel
      → Seg l.heap before (p ∷ xs) null
      → Distinct (p ∷ xs)
      → null ∉ p ∷ xs
      → IsApart l.heap e (p ∷ xs)
      → l.tail ≡ last p.addr xs
      → Returns (Inserted l before p xs) (add_loop fuel e.addr p.addr (first xs null) l)
  unfolding add_loop
  add_loop-Inserted zero l before p xs f s d nn a t = absurd (omega arith)
  add_loop-Inserted (suc fuel) l before p [] f s d nn a t = link_last-Inserted l before p s nn a
  add_loop-Inserted (suc fuel) l before p (x ∷ xs) f s d nn a t =
      let real : (x.addr == null) ≡ false = ground arith in
      rw (real, load-ok l a.real a.holds, load-ok l (ground arith) s.1.0)
        (elim (Bool-cases (ltb e.expire x.expire)) [
          | inl lt ↦ rw lt (link_between-Inserted l before p x xs s d nn a lt t)
          | inr ge ↦ rw ge (
              Returns-mono
                (add_loop-Inserted fuel l p.addr x xs (omega arith) s.1 d.1 (ground arith)
                  (record {
                    prev = a.prev;
                    next = a.next;
                    holds = a.holds;
                    real = a.real;
                    out = ground arith;
                  })
                  t)
                λ l' i. Inserted-cons s d a ge i)
        ])

pub has-insert :
    (a : Ptr) (e : Entry) (xs : List Entry) → has a (insert e xs) ≡ ((a == e.addr) || has a xs)
unfolding insert
has-insert a e [] = refl
has-insert a e (x ∷ xs) = ground (arith, has-insert a e xs)

pub Distinct-insert :
    (e : Entry) (xs : List Entry) → Distinct xs → e.addr ∉ xs → Distinct (insert e xs)
unfolding insert
Distinct-insert e [] d out = (refl, tt)
Distinct-insert e (x ∷ xs) d out = ground (arith, has-insert x.addr e xs, Distinct-insert e xs d.1)

-- The same behind a first part `xs` of the list.
pub Distinct-insert-append :
    (xs : List Entry) (e : Entry) (ys : List Entry)
    → Distinct (xs ++ ys)
    → e.addr ∉ xs ++ ys
    → Distinct (xs ++ insert e ys)
Distinct-insert-append [] e ys d out = Distinct-insert e ys d out
Distinct-insert-append (x ∷ xs) e ys d out = ground (
  arith,
  d.0,
  has-append x.addr xs ys,
  has-append x.addr xs (insert e ys),
  has-insert x.addr e ys,
  Distinct-insert-append xs e ys d.1,
)

pub has-insert-append :
    (a : Ptr) (xs : List Entry) (e : Entry) (ys : List Entry)
    → a ∉ xs ++ ys
    → a ≢ e.addr
    → a ∉ xs ++ insert e ys
has-insert-append a xs e ys o ne =
    ground (arith, has-append a xs ys, has-append a xs (insert e ys), has-insert a e ys)

-- What `add_timer` and `adjust_timer` leave: the list `ys`, the heap changed at most at `xs`.
pub record Becomes (l : TimerList) (xs ys : List Entry) (l' : TimerList) : Type 0 where
  pub is_list : IsList l' ys
  pub same : SameOutside xs l.heap l'.heap

module _ (e : Entry) where
  -- `add_timer(timer, lst_head)` at an entry `x` with `e` apart from it and what follows.
  pub add_after-Inserted :
      (fuel : ℕ) (l : TimerList) (before : Ptr) (x : Entry) (xs : List Entry)
      → length xs < fuel
      → Seg l.heap before (x ∷ xs) null
      → Distinct (x ∷ xs)
      → null ∉ x ∷ xs
      → IsApart l.heap e (x ∷ xs)
      → l.tail ≡ last x.addr xs
      → Returns (Inserted e l before x xs) (add_after fuel e.addr x.addr l)
  unfolding add_after
  add_after-Inserted fuel l before x xs f s d nn a t =
      rw (load-ok l (ground arith) s.0) (add_loop-Inserted e fuel l before x xs f s d nn a t)

  pub Inserted-Becomes :
      {l l' : TimerList} {x : Entry} {xs : List Entry}
      → IsList l (x ∷ xs)
      → e.addr ≢ null
      → e.addr ∉ x ∷ xs
      → Inserted e l null x xs l'
      → Becomes l (e ∷ x ∷ xs) (x ∷ insert e xs) l'
  Inserted-Becomes {x} {xs} is real out i = record {
    is_list = record {
      head_is = i.head_kept ∙ is.head_is;
      tail_is = i.tail_is;
      chain = i.chain;
      distinct =
          ground (arith, is.distinct, has-insert x.addr e xs, Distinct-insert e xs is.distinct.1);
      no_null = ground (arith, is.no_null, has-insert null e xs);
    };
    same = i.same;
  }

  module _ (l : TimerList) (x : Entry) (xs : List Entry) (is : IsList l (x ∷ xs))
      (holds : l.heap e.addr ≡ some (node e null null)) (real : e.addr ≢ null)
      (out : e.addr ∉ x ∷ xs) where
    -- What `add_timer` leaves where the new timer is due first.
    abbrev in_front : TimerList
    in_front = record l {
      heap =
          write (write l.heap e.addr (some (node e null x.addr))) x.addr
            (some (node x e.addr (first xs null)));
      head = e.addr;
    }

    add_front-eq : (fuel : ℕ) → ltb e.expire x.expire ≡ true → add_timer fuel e.addr l ≡ ok in_front
    unfolding add_timer set_next set_prev load write
    add_front-eq fuel lt = ground (arith, is.head_is, is.chain, is.no_null)

    in_front-Becomes : Becomes l (e ∷ x ∷ xs) (e ∷ x ∷ xs) in_front
    unfolding write
    in_front-Becomes = record {
      is_list = record {
        head_is = refl;
        tail_is = is.tail_is;
        chain = (
          ground arith,
          (ground arith, Seg-frame _ _ _ _ _ is.chain.1 (ground (arith, is.distinct))),
        );
        distinct = (out, is.distinct);
        no_null = ground (arith, is.no_null);
      };
      same = ground arith;
    }

    add_back-eq :
        (fuel : ℕ)
        → ltb e.expire x.expire ≡ false
        → add_timer fuel e.addr l ≡ add_after fuel e.addr x.addr l
    unfolding add_timer load
    add_back-eq fuel ge = ground (arith, is.head_is, is.chain, is.no_null)

  -- `add_timer` of a new timer inserts it before the first timer that is due later, with the links,
  -- head and tail of the longer list, and changes no other address.
  pub add_timer-Becomes :
      (fuel : ℕ) (l : TimerList) (xs : List Entry)
      → length xs < fuel
      → IsList l xs
      → l.heap e.addr ≡ some (node e null null)
      → e.addr ≢ null
      → e.addr ∉ xs
      → Returns (Becomes l (e ∷ xs) (insert e xs)) (add_timer fuel e.addr l)
  unfolding insert add_timer
  add_timer-Becomes fuel l [] f is holds real out =
      let r : (e.addr == null) ≡ false = ground arith in
      rw (r, is.head_is)
        (returns (record {
          is_list = record {
            head_is = refl;
            tail_is = refl;
            chain = (holds, tt);
            distinct = (refl, tt);
            no_null = ground arith;
          };
          same = λ a o. refl;
        }))
  add_timer-Becomes fuel l (x ∷ xs) f is holds real out =
      elim (Bool-cases (ltb e.expire x.expire)) [
        | inl lt ↦
            rw (add_front-eq l x xs is holds real out fuel lt, lt)
              (returns (in_front-Becomes l x xs is holds real out))
        | inr ge ↦
            rw (add_back-eq l x xs is holds real out fuel ge, ge)
              (Returns-mono
                (add_after-Inserted fuel l null x xs (omega arith) is.chain is.distinct is.no_null
                  (record { prev = null; next = null; holds = holds; real = real; out = out })
                  is.tail_is)
                λ l' i. Inserted-Becomes is real out i)
      ]
