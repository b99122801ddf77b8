-- ===== src/Queue/Fifo.antt =====
-- block_queue against a bounded first-in first-out list of items.
use native.Mathlib.Nat.{mod-lt, mod-add-mod, mod-eq_of_lt}
use wzy_server.Prelude.{
  ℕ, zero, suc, ◌+◌, ◌-◌, ◌%◌, ◌^◌, ◌<◌, ◌≡◌, refl, subst, ◌∙◌, true, false, List, [], ◌∷◌, ◌++◌,
  set, length, arith, some, length-set, ◌==◌, length-append, ok, blocked, Returns, returns,
  replicate, length-replicate, leb,
}
use wzy_server.Prelude.Int.{pos, negsuc, ◌+ℤ◌, ◌-ℤ◌}
use wzy_server.Queue.{BlockQueue, init, clear, full, empty, size, push, pop, take_first}
use wzy_server.Queue.Invariant.{after, count, Holds, Window, Window-set, next_index-after}

module _ {ℓ} {A : Type ℓ} where
  -- What every call leaves behind: the items `xs`, the mutex free, the capacity as it was.
  pub record Left (q : BlockQueue A) (xs : List A) (q' : BlockQueue A) : Type ℓ where
    pub holds : Holds q' xs
    pub free : q'.held ≡ false
    pub capacity : q'.max_size ≡ q.max_size

  -- The states that a successful `push` and `pop` leave, once the indices are in range.
  abbrev pushed : BlockQueue A → A → BlockQueue A
  pushed q x = record q {
    array = set q.array (after q.back % q.max_size) x;
    size = pos (count q + 1);
    back = pos (after q.back % q.max_size);
    held = false;
    broadcasts = q.broadcasts + 1;
  }

  abbrev pub popped : BlockQueue A → BlockQueue A
  popped q = record q {
    size = pos (count q - 1);
    front = pos (after q.front % q.max_size);
    held = false;
  }

  module _ {q : BlockQueue A} {xs : List A} (h : Holds q xs) (free : q.held ≡ false) where
    pub push-full :
        (x : A)
        → length xs ≡ q.max_size
        → push q x ≡ ok (false, record q { held = false; broadcasts = q.broadcasts + 1 })
    unfolding push
    push-full x e = ground (arith, h.valid.counted, h.counts)

    push-eq : (x : A) → length xs < q.max_size → push q x ≡ ok (true, pushed q x)
    unfolding push ◌+ℤ◌
    push-eq x room = ground (
      arith,
      h.valid.counted,
      h.counts,
      next_index-after q.back q.max_size,
      mod-lt (after q.back) {m = q.max_size},
    )

    pushed-Holds : (x : A) → length xs < q.max_size → Holds (pushed q x) (xs ++ x ∷ [])
    pushed-Holds x room = record {
      valid = record {
        storage = length-set q.array _ x ∙ h.valid.storage;
        some_room = h.valid.some_room;
        int_max = h.valid.int_max;
        counted = refl;
        bounded = omega (arith, h.counts);
        front_low = h.valid.front_low;
        front_high = h.valid.front_high;
        back_low = omega arith;
        back_high = omega (arith, h.valid.some_room, mod-lt (after q.back) {m = q.max_size});
        written = λ _. refl;
        aligned = ground (
          arith,
          h.valid.aligned,
          mod-add-mod (after q.front % q.max_size + count q) q.max_size 1,
        );
      };
      counts = omega (arith, h.counts, length-append xs (x ∷ []));
      items =
          Window-set q.array q.max_size _ _ x xs (omega (arith, h.valid.storage))
            (mod-lt _ h.valid.some_room) room (rw (← h.counts) h.valid.aligned) h.items;
    }

    -- With room left, `push` succeeds and appends its item.
    pub push-room :
        (x : A)
        → length xs < q.max_size
        → Returns
            (λ (done, q').
              (done ≡ true) × Left q (xs ++ x ∷ []) q' × (q'.broadcasts ≡ q.broadcasts + 1))
            (push q x)
    push-room x room =
        rw (push-eq x room) (
          returns
            (refl, record { holds = pushed-Holds x room; free = refl; capacity = refl }, refl))

    pub pop-empty : length xs ≡ 0 → pop [] q ≡ blocked
    unfolding pop
    pop-empty e = ground (arith, h.valid.counted, h.counts)

  module _ {q : BlockQueue A} {x : A} {xs : List A} (h : Holds q (x ∷ xs)) where
    pub take_first-eq : take_first q ≡ ok (some x, popped q)
    unfolding take_first ◌-ℤ◌
    take_first-eq =
        ground (arith, h.valid.counted, h.counts, h.items, next_index-after q.front q.max_size)

    pub pop-eq : q.held ≡ false → pop [] q ≡ ok (some x, popped q)
    unfolding pop
    pop-eq free =
        ground (arith, h.valid.counted, h.counts, h.items, next_index-after q.front q.max_size)

    pub popped-Holds : Holds (popped q) xs
    popped-Holds = record {
      valid = record {
        storage = h.valid.storage;
        some_room = h.valid.some_room;
        int_max = h.valid.int_max;
        counted = refl;
        bounded = omega (arith, h.valid.bounded);
        back_low = h.valid.back_low;
        back_high = h.valid.back_high;
        written = λ some_left. h.valid.written (omega arith);
        front_low = omega arith;
        front_high = omega (arith, h.valid.some_room, mod-lt (after q.front) {m = q.max_size});
        aligned = ground (
          arith,
          h.valid.aligned,
          h.counts,
          mod-add-mod (after q.front % q.max_size + 1) q.max_size (count q - 1),
        );
      };
      counts = omega (arith, h.counts);
      items = subst (λ k. Window q.array q.max_size (k % q.max_size) xs) (omega arith) h.items.1;
    }

    pub popped-Left : Left q xs (popped q)
    popped-Left = record { holds = popped-Holds; free = refl; capacity = refl }

    -- `pop` takes the oldest item.
    pub pop-item :
        q.held ≡ false → Returns (λ (item, q'). (item ≡ some x) × Left q xs q') (pop [] q)
    pop-item free = rw (pop-eq free) (returns (refl, popped-Left))

module _ {ℓ} {A : Type ℓ} where
  -- The constructor and `clear` leave an empty queue, both indices at -1.
  reset-Holds :
      (q : BlockQueue A)
      → length q.array ≡ q.max_size
      → 0 < q.max_size
      → q.max_size < 2 ^ 31
      → q.size ≡ pos 0
      → q.front ≡ negsuc 0
      → q.back ≡ negsuc 0
      → Holds q []
  reset-Holds q a b c s f k = record {
    valid = record {
      storage = a;
      some_room = b;
      int_max = c;
      counted = ground arith;
      bounded = ground arith;
      front_low = ground arith;
      front_high = ground arith;
      back_low = ground arith;
      back_high = ground arith;
      written = λ some_left. ground arith;
      aligned = ground (arith, mod-eq_of_lt {n = 0} {m = q.max_size} b);
    };
    counts = ground arith;
    items = tt;
  }

  abbrev initial : A → ℕ → BlockQueue A
  initial blank n = record {
    array = replicate n blank;
    size = pos 0;
    max_size = n;
    front = negsuc 0;
    back = negsuc 0;
    held = false;
    broadcasts = 0;
  }

  init-eq : (blank : A) (n : ℕ) → 0 < n → init blank (pos n) ≡ ok (initial blank n)
  unfolding init
  init-eq blank n h = ground arith

  -- A queue made with room for at least one item is empty.
  pub init-Holds :
      (blank : A) (n : ℕ)
      → 0 < n
      → n < 2 ^ 31
      → Returns (λ q. Holds q [] × (q.held ≡ false) × (q.max_size ≡ n)) (init blank (pos n))
  unfolding init
  init-Holds blank zero h m = absurd (omega arith)
  init-Holds blank (suc n) h m =
      rw (init-eq blank (suc n) (omega arith))
        (returns (reset-Holds _ (length-replicate (suc n) blank) h m refl refl refl, refl, refl))

  module _ {q : BlockQueue A} {xs : List A} (h : Holds q xs) (free : q.held ≡ false) where
    pub clear-Left : Returns (Left q []) (clear q)
    unfolding clear
    clear-Left = rw free (
        returns (record {
          holds = reset-Holds _ h.valid.storage h.valid.some_room h.valid.int_max refl refl refl;
          free = refl;
          capacity = refl;
        }))

    pub relabelled : (n : ℕ) → Left q xs (record q { held = false; broadcasts = n })
    relabelled n = record {
      holds = record { valid = ground (arith, h.valid); counts = h.counts; items = h.items };
      free = refl;
      capacity = refl;
    }

    pub unchanged : Left q xs q
    unchanged = record { holds = h; free = free; capacity = refl }

    pub full-eq : full q ≡ ok (leb q.max_size (length xs), q)
    unfolding full
    full-eq = ground (arith, h.valid.counted, h.counts)

    pub empty-eq : empty q ≡ ok (length xs == 0, q)
    unfolding empty
    empty-eq = ground (arith, h.valid.counted, h.counts)

    pub size-eq : size q ≡ ok (pos (length xs), q)
    unfolding size
    size-eq = ground (arith, h.valid.counted, h.counts)
