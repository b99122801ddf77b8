-- ===== src/Timer/Tick.antt =====
-- `tick`: the callbacks of the timers that are due, and the destructor.
use wzy_server.Prelude.{
  ℕ, zero, suc, ◌<◌, ◌≡◌, refl, sym, ap, subst, ◌∙◌, true, false, ◌==◌, if◌then◌else◌, none, some,
  List, [], ◌∷◌, map, arith, ok, length, ltb, Returns, returns, Returns-mono, Returns-bind,
  Bool-cases, inl, inr,
}
use wzy_server.Timer.{
  Ptr, null, TimerList, Fired, write, load, store, set_prev, free, reset_head, tick_loop, tick,
  destroy_loop, destroy,
}
use wzy_server.Timer.Chain.{
  Entry, node, ◌∈◌, ◌∉◌, Distinct, first, Seg, SameOutside, IsList, Seg-write, Seg-frame, load-ok,
  free-ok,
}
use wzy_server.Timer.Remove.{Removed}

-- The timers before the first that is not due at `cur`, and the rest.
unfoldable pub expired : ℕ → List Entry → List Entry
expired cur [] = []
expired cur (x ∷ xs) = if ltb cur x.expire then [] else x ∷ expired cur xs

unfoldable pub pending : ℕ → List Entry → List Entry
pending cur [] = []
pending cur (x ∷ xs) = if ltb cur x.expire then x ∷ xs else pending cur xs

abbrev pub callback : Entry → Fired
callback e = (e.cb_func, e.user_data)

-- `ys` is left of the list `xs`, the timers `gone` no longer exist, and no other address changed.
pub record Ticked (l : TimerList) (xs gone ys : List Entry) (l' : TimerList) : Type 0 where
  pub is_list : IsList l' ys
  pub freed : (a : Ptr) → a ∈ gone → l'.heap a ≡ none
  pub same : SameOutside xs l.heap l'.heap

-- What a `tick` at `cur` does to the list `xs`: the callbacks, and what is left.
abbrev pub TickResult : ℕ → TimerList → List Entry → List Fired × TimerList → Type 0
TickResult cur l xs (fired, l') =
    (fired ≡ map callback (expired cur xs)) × Ticked l xs (expired cur xs) (pending cur xs) l'

-- The timers `xs` no longer exist, and no other address changed.
abbrev pub AllFreed : TimerList → List Entry → TimerList → Type 0
AllFreed l xs l' = ((a : Ptr) → a ∈ xs → l'.heap a ≡ none) × SameOutside xs l.heap l'.heap

-- The list behind its head `x`, which still exists.
abbrev behead : TimerList → List Entry → TimerList
behead l [] = record l { head = null }
behead l (y ∷ ys) = record l {
  head = y.addr;
  heap = write l.heap y.addr (some (node y null (first ys null)));
}

module _ (l : TimerList) (x : Entry) where
  reset-eq :
      (xs : List Entry)
      → IsList l (x ∷ xs)
      → reset_head (record l { head = first xs null }) ≡ ok (behead l xs)
  unfolding reset_head set_prev load
  reset-eq [] is = refl
  reset-eq (y ∷ ys) is = ground (arith, is.chain, is.no_null)

  free-eq :
      (xs : List Entry)
      → IsList l (x ∷ xs)
      → free x.addr (behead l xs) ≡ ok (store x.addr none (behead l xs))
  unfolding free load write
  free-eq [] is = ground (arith, is.chain, is.no_null)
  free-eq (y ∷ ys) is = ground (arith, is.chain, is.no_null, is.distinct.0)

  behead-Removed :
      (xs : List Entry)
      → IsList l (x ∷ xs)
      → Removed l (x ∷ xs) x.addr xs (store x.addr none (behead l xs))
  unfolding write
  behead-Removed [] is = record {
    is_list = record { head_is = refl; tail_is = tt; chain = tt; distinct = tt; no_null = refl };
    gone = ground arith;
    same = ground arith;
  }
  behead-Removed (y ∷ ys) is = record {
    is_list = record {
      head_is = refl;
      tail_is = is.tail_is;
      chain = (
        ground (arith, is.distinct),
        Seg-frame _ _ _ _ ys is.chain.1.1 (ground (arith, is.distinct)),
      );
      distinct = is.distinct.1;
      no_null = ground (arith, is.no_null);
    };
    gone = ground arith;
    same = ground arith;
  }

Ticked-cons :
    {l l1 l' : TimerList} (x : Entry) (xs gone ys : List Entry)
    → IsList l (x ∷ xs)
    → Removed l (x ∷ xs) x.addr xs l1
    → Ticked l1 xs gone ys l'
    → Ticked l (x ∷ xs) (x ∷ gone) ys l'
Ticked-cons {l} {l1} {l'} x xs gone ys is r t = record {
  is_list = t.is_list;
  freed = λ a m. ground (arith, t.same a, t.freed a);
  same = λ a o. t.same a (ground arith) ∙ r.same a o;
}

nothing_due :
    (cur : ℕ) (l : TimerList) (x : Entry) (xs : List Entry)
    → IsList l (x ∷ xs)
    → ltb cur x.expire ≡ true
    → TickResult cur l (x ∷ xs) ([], l)
unfolding expired pending
nothing_due cur l x xs is lt =
    (rw lt, record { is_list = rw lt is; freed = rw lt (λ a m. cc); same = λ a o. refl })

head_due :
    (cur : ℕ) (l : TimerList) (x : Entry) (xs : List Entry) {l1 : TimerList} (fired : List Fired)
    (l' : TimerList)
    → IsList l (x ∷ xs)
    → ltb cur x.expire ≡ false
    → Removed l (x ∷ xs) x.addr xs l1
    → TickResult cur l1 xs (fired, l')
    → TickResult cur l (x ∷ xs) (callback x ∷ fired, l')
unfolding expired pending
head_due cur l x xs fired l' is ge r (calls, t) =
    rw ge
      (ap (λ c. callback x ∷ c) calls, Ticked-cons x xs (expired cur xs) (pending cur xs) is r t)

tick_loop-Ticked :
    (fuel cur : ℕ) (l : TimerList) (xs : List Entry)
    → length xs < fuel
    → IsList l xs
    → Returns (TickResult cur l xs) (tick_loop fuel cur (first xs null) l)
unfolding tick_loop expired pending
tick_loop-Ticked zero cur l xs f is = absurd (omega arith)
tick_loop-Ticked (suc fuel) cur l [] f is =
    returns (refl, record { is_list = is; freed = λ a m. cc; same = λ a o. refl })
tick_loop-Ticked (suc fuel) cur l (x ∷ xs) f is =
    let real : (x.addr == null) ≡ false = ground (arith, is.no_null) in
    rw (real, load-ok l (ground (arith, is.no_null)) is.chain.0)
      (elim (Bool-cases (ltb cur x.expire)) [
        | inl lt ↦ rw lt (returns (nothing_due cur l x xs is lt))
        | inr ge ↦
            rw (ge, reset-eq l x xs is, free-eq l x xs is)
              (let r = behead-Removed l x xs is in
                (Returns-bind
                  (subst
                    (λ p.
                      Returns (TickResult cur (store x.addr none (behead l xs)) xs)
                        (tick_loop fuel cur p (store x.addr none (behead l xs))))
                    (sym r.is_list.head_is)
                    (tick_loop-Ticked fuel cur (store x.addr none (behead l xs)) xs (omega arith)
                      r.is_list))
                  λ (fired, l') t. returns (head_due cur l x xs fired l' is ge r t)))
      ])

-- `tick` calls back the timers up to the first that is not due, in order, frees exactly those, and
-- keeps the rest of the list.
pub tick-Ticked :
    (fuel cur : ℕ) (l : TimerList) (xs : List Entry)
    → length xs < fuel
    → IsList l xs
    → Returns (TickResult cur l xs) (tick fuel cur l)
unfolding tick expired pending
tick-Ticked fuel cur l [] f is =
    let empty : (l.head == null) ≡ true = ground (arith, is.head_is) in
    rw empty (returns (refl, record { is_list = is; freed = λ a m. cc; same = λ a o. refl }))
tick-Ticked fuel cur l (x ∷ xs) f is =
    let some_timer : (l.head == null) ≡ false = ground (arith, is.head_is, is.no_null) in
    rw some_timer (
      subst (λ p. Returns (TickResult cur l (x ∷ xs)) (tick_loop fuel cur p l)) (sym is.head_is)
        (tick_loop-Ticked fuel cur l (x ∷ xs) f is))

-- Freeing does not need the links to be kept: what is left of the chain while it is destroyed.
destroy_loop-frees :
    (fuel : ℕ) (l : TimerList) (before : Ptr) (xs : List Entry)
    → length xs < fuel
    → Seg l.heap before xs null
    → Distinct xs
    → null ∉ xs
    → Returns (AllFreed l xs) (destroy_loop fuel (first xs null) l)
unfolding destroy_loop
destroy_loop-frees zero l before xs f s d nn = absurd (omega arith)
destroy_loop-frees (suc fuel) l before [] f s d nn = returns (λ a m. cc, λ a o. refl)
destroy_loop-frees (suc fuel) l before (x ∷ xs) f s d nn =
    let real : (x.addr == null) ≡ false = ground arith in
    let l1 : TimerList = record l { head = first xs null } in
    rw (real, load-ok l (ground arith) s.0, free-ok l1 {p = x.addr} (ground arith) s.0)
      (Returns-mono
        (destroy_loop-frees fuel (store x.addr none l1) x.addr xs (omega arith)
          (Seg-write l.heap x.addr null xs x.addr none s.1 d.0) d.1 (ground arith))
        λ l' (freed, same). (
          λ a m. unfold write in ground (arith, same a, freed a),
          λ a o. unfold write in ground (arith, same a),
        ))

-- The destructor frees exactly the timers of the list.
pub destroy-frees :
    (fuel : ℕ) (l : TimerList) (xs : List Entry)
    → length xs < fuel
    → IsList l xs
    → Returns (AllFreed l xs) (destroy fuel l)
unfolding destroy
destroy-frees fuel l xs f is =
    subst (λ p. Returns (AllFreed l xs) (destroy_loop fuel p l)) (sym is.head_is)
      (destroy_loop-frees fuel l null xs f is.chain is.distinct is.no_null)
