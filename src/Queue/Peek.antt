-- ===== src/Queue/Peek.antt =====
-- `front`, `back` and what they leave of the mutex.
use native.Mathlib.Nat.{mod-lt, mod-add-mod, mod-eq_of_lt, mod_self}
use native.Mathlib.Decide.{dec_lt}
use wzy_server.Prelude.{
  ℕ, suc, ◌+◌, ◌-◌, ◌%◌, ◌<◌, ◌≡◌, refl, sym, ap, subst, ◌∙◌, true, false, List, [], ◌∷◌, ◌++◌,
  length, arith, some, get_elem?, ok, fault, blocked, Returns, returns, length-append,
}
use wzy_server.Prelude.Int.{negsuc, neg_part}
use wzy_server.Queue.{
  BlockQueue, Wake, front, back, size, max_size, push, pop, clear, full, empty, timed_pop,
}
use wzy_server.Queue.Invariant.{after, count, Holds, Window}
use wzy_server.Queue.Fifo.{pop-eq}

mod-suc-injective : (b h cap : ℕ) → b < cap → h < cap → (b + 1) % cap ≡ (h + 1) % cap → b ≡ h
mod-suc-injective b h cap hb hh e = elim (dec_lt (b + 1) cap) [
  | yes p ↦ elim (dec_lt (h + 1) cap) [
    | yes r ↦ omega (arith, mod-eq_of_lt p, mod-eq_of_lt r)
    | no r ↦
        let full : h + 1 ≡ cap = omega arith in
        omega (arith, mod-eq_of_lt p, ap (λ k. k % cap) full, mod_self cap)
  ]
  | no p ↦ elim (dec_lt (h + 1) cap) [
    | yes r ↦
        let full : b + 1 ≡ cap = omega arith in
        omega (arith, mod-eq_of_lt r, ap (λ k. k % cap) full, mod_self cap)
    | no r ↦ omega arith
  ]
]

module _ {ℓ} {A : Type ℓ} where
  -- The last item of a window stands one place before its end.
  Window-last :
      (array : List A) (cap h b : ℕ) (x : A) (xs : List A)
      → h < cap
      → b < cap
      → (b + 1) % cap ≡ (h + suc (length xs)) % cap
      → Window array cap h (xs ++ x ∷ [])
      → get_elem? array b ≡ some x
  Window-last array cap h b x [] hh hb e (here, _) = rw (mod-suc-injective b h cap hb hh e) here
  Window-last array cap h b x (y ∷ ys) hh hb e (_, rest) =
      Window-last array cap ((h + 1) % cap) b x ys (mod-lt _ (omega arith)) hb
        (e ∙ sym (rw mod-add-mod (ap (λ k. k % cap) (omega arith)))) rest

  module _ {q : BlockQueue A} {xs : List A} (h : Holds q xs) (free : q.held ≡ false) where
    -- On a valid queue with items and a free mutex, `back` returns the newest item, and keeps the
    -- mutex.
    pub back-last :
        (x : A) (ys : List A) → xs ≡ ys ++ x ∷ [] → back q ≡ ok (some x, record q { held = true })
    unfolding back
    back-last x ys e =
        let some_item : count q ≡ suc (length ys) =
          omega (arith, h.counts, ap length e, length-append ys (x ∷ [])) in
        let real : neg_part q.back ≡ 0 = h.valid.written (omega arith) in
        let behind : (after q.back - 1 + 1) % q.max_size
            ≡ (after q.front % q.max_size + suc (length ys)) % q.max_size =
          ap (λ k. k % q.max_size) (omega arith)
          ∙ h.valid.aligned
          ∙ ap (λ k. (after q.front % q.max_size + k) % q.max_size) some_item in
        let here : get_elem? q.array (after q.back - 1) ≡ some x =
          Window-last q.array q.max_size (after q.front % q.max_size) (after q.back - 1) x ys
            (mod-lt _ h.valid.some_room) (omega (arith, h.valid.some_room)) behind
            (subst (Window _ _ _) e h.items) in
        ground (arith, here, some_item, real, h.valid.counted)

    -- Until the first `pop`, `front` of a queue with items reads out of range.
    pub front_before_pop : 0 < length xs → q.front ≡ negsuc 0 → front q ≡ fault
    unfolding front
    front_before_pop some_item e = ground (arith, h.counts)

  -- `front` of a popped queue that still has items returns the item that was popped, and keeps the
  -- mutex.
  pub front-pop :
      {q : BlockQueue A} (x y : A) (ys : List A)
      → Holds q (x ∷ y ∷ ys)
      → q.held ≡ false
      → Returns
          (λ (item, q'). (item ≡ some x) × (front q' ≡ ok (some x, record q' { held = true })))
          (pop [] q)
  unfolding front
  front-pop x y ys h free = rw (pop-eq h free) (returns (refl, ground (arith, h.counts, h.items)))

  -- While the mutex is held, as `front` and `back` leave it when they return an item, every call
  -- blocks.
  pub held_blocks :
      (q : BlockQueue A) (x : A) (wakes : List (Wake A)) (wait : ℕ × ℕ → Wake A) (t ms : ℕ)
      → q.held ≡ true
      → (push q x ≡ blocked)
        × (pop wakes q ≡ blocked)
        × (timed_pop wait t ms q ≡ blocked)
        × (front q ≡ blocked)
        × (back q ≡ blocked)
        × (size q ≡ blocked)
        × (max_size q ≡ blocked)
        × (full q ≡ blocked)
        × (empty q ≡ blocked)
        × (clear q ≡ blocked)
  unfolding push pop timed_pop front back size max_size full empty clear
  held_blocks q x wakes wait t ms h = ground arith
