-- ===== src/Queue/Waiting.antt =====
-- `pop` and the timed `pop` across waits on the condition variable.
use native.Mathlib.Nat.{mod-lt}
use wzy_server.Prelude.{
  ℕ, ◌*◌, ◌%◌, ◌≡◌, refl, true, false, List, [], ◌∷◌, ◌++◌, arith, none, some, get_elem?_lt, ok,
  fault, blocked, Returns, returns,
}
use wzy_server.Prelude.Int.{pos, negsuc, ◌-ℤ◌}
use wzy_server.Queue.{BlockQueue, Wake, pop, timed_pop, take_first, wait_for_item, deadline}
use wzy_server.Queue.Invariant.{after, IsValid, Holds, next_index-after}
use wzy_server.Queue.Fifo.{popped-Left, take_first-eq, Left}

module _ {ℓ} {A : Type ℓ} where
  -- A wake by which the queue has been left empty by the other threads.
  abbrev pub IsSpurious : Wake A → Type ℓ
  IsSpurious (woken, q) = (woken ≡ true) × Holds q []

  abbrev pub AllSpurious : List (Wake A) → Type ℓ
  AllSpurious [] = Unit
  AllSpurious (w ∷ ws) = IsSpurious w × AllSpurious ws

  ready_now :
      (wakes : List (Wake A)) {q : BlockQueue A} {x : A} {xs : List A}
      → Holds q (x ∷ xs)
      → wait_for_item wakes q ≡ ok (true, q)
  unfolding wait_for_item
  ready_now [] h = ground (arith, h.valid.counted, h.counts)
  ready_now (w ∷ wakes) h = ground (arith, h.valid.counted, h.counts)

  sleeps_on :
      (wakes : List (Wake A)) (q : BlockQueue A)
      → q.size ≡ pos 0
      → AllSpurious wakes
      → wait_for_item wakes q ≡ blocked
  unfolding wait_for_item
  sleeps_on [] q e spurious = rw e
  sleeps_on ((woken, q') ∷ wakes) q e ((w, h), spurious) =
      rw (e, w) (sleeps_on wakes q' (ground (arith, h.valid.counted, h.counts)) spurious)

  wakes_up :
      (wakes rest : List (Wake A)) (q : BlockQueue A) (q' : BlockQueue A) {x : A} {xs : List A}
      → q.size ≡ pos 0
      → AllSpurious wakes
      → Holds q' (x ∷ xs)
      → wait_for_item (wakes ++ (true, q') ∷ rest) q ≡ ok (true, q')
  unfolding wait_for_item
  wakes_up [] rest q q' e spurious h' = rw e (ready_now rest h')
  wakes_up ((woken, p) ∷ wakes) rest q q' e ((w, h), spurious) h' =
      rw (e, w) (wakes_up wakes rest p q' (ground (arith, h.valid.counted, h.counts)) spurious h')

  -- However often it is woken for nothing, `pop` sleeps on, and takes the oldest item of the first
  -- queue that has one; it blocks if there is none.
  pub pop_waits :
      (wakes rest : List (Wake A)) {q q' : BlockQueue A} (x : A) (xs : List A)
      → Holds q []
      → q.held ≡ false
      → AllSpurious wakes
      → Holds q' (x ∷ xs)
      → (pop wakes q ≡ blocked)
        × Returns
            (λ (item, q''). (item ≡ some x) × Left q' xs q'')
            (pop (wakes ++ (true, q') ∷ rest) q)
  unfolding pop
  pop_waits wakes rest {q} {q'} x xs h free spurious h' =
      let e : q.size ≡ pos 0 = ground (arith, h.valid.counted, h.counts) in
      (
        rw (free, sleeps_on wakes (record q { held = true }) e spurious),
        rw (free, wakes_up wakes rest (record q { held = true }) q' e spurious h', take_first-eq h')
            (returns (refl, popped-Left h')),
      )

  -- A wake that reports an error ends `pop` with `false`, the queue left as it was found.
  pub pop_error :
      (rest : List (Wake A)) {q : BlockQueue A} (q' : BlockQueue A)
      → Holds q []
      → q.held ≡ false
      → pop ((false, q') ∷ rest) q ≡ ok (none, record q' { held = false })
  unfolding pop
  pop_error rest q' h free = ground (arith, h.valid.counted, h.counts)

  -- `take_first` of an empty queue: some item of the array, and one item less than none.
  take_first-underflow :
      {q : BlockQueue A}
      → Holds q []
      → Returns (λ (item, q'). (q'.size ≡ negsuc 0) × ¬ IsValid q') (take_first q)
  unfolding take_first ◌-ℤ◌
  take_first-underflow {q} h =
      let (a, e) =
        get_elem?_lt q.array (after q.front % q.max_size)
          (omega (arith, h.valid.storage, mod-lt (after q.front) h.valid.some_room)) in
      rw (next_index-after q.front q.max_size h.valid.front_low, h.valid.counted, h.counts, e)
        (returns (refl, λ v. cc v.counted))

  -- The timed `pop` does not look again: woken for nothing it takes an item that is not there, and
  -- leaves a negative size.
  pub timed_pop_spurious :
      (wait : ℕ × ℕ → Wake A) (now ms : ℕ) {q : BlockQueue A}
      → Holds q []
      → q.held ≡ false
      → IsSpurious (wait (deadline now ms))
      → Returns (λ (item, q'). (q'.size ≡ negsuc 0) × ¬ IsValid q') (timed_pop wait now ms q)
  unfolding timed_pop
  timed_pop_spurious wait now ms h free (woken, h') =
      rw (free, h.valid.counted, h.counts, woken) (take_first-underflow h')

  -- On a valid queue with an item and a free mutex, the timed `pop` runs off its end without a
  -- result.
  pub timed_pop_fault :
      (wait : ℕ × ℕ → Wake A) (now ms : ℕ) {q : BlockQueue A} (x : A) (xs : List A)
      → Holds q (x ∷ xs)
      → q.held ≡ false
      → timed_pop wait now ms q ≡ fault
  unfolding timed_pop
  timed_pop_fault wait now ms x xs h free = ground (arith, h.valid.counted, h.counts)

-- A limit of whole seconds gives a deadline that is the current second, so the wait ends at once.
pub deadline_of_seconds : (now s : ℕ) → deadline now (1000 * s) ≡ (now, 0)
unfolding deadline
deadline_of_seconds now s = ground arith
