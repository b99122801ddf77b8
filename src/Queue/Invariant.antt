-- ===== src/Queue/Invariant.antt =====
-- The representation invariant of block_queue, and the queue of items that a valid state stands
-- for.
use native.Mathlib.Nat.{mod-add-mod, mod-eq_of_lt, mod-add-div, add-zero}
use wzy_server.Prelude.{
  ℕ, zero, suc, ◌*◌, ◌/◌, ◌+◌, ◌-◌, ◌%◌, ◌^◌, ◌≤◌, ◌<◌, ◌≡◌, ap, ◌∙◌, ◌≢◌, List, [], ◌∷◌, ◌++◌, set,
  length, arith, some, get_elem?, get_elem?-set_self, get_elem?-set_ne,
}
use wzy_server.Prelude.Int.{ℤ, pos, negsuc, pos_part, neg_part, ◌+ℤ◌, rem}
use wzy_server.Queue.{BlockQueue, next_index}

-- The index behind `i`, before it goes round: 0 for the initial -1.
abbrev pub after : ℤ → ℕ
after i = pos_part i + 1 - neg_part i

abbrev pub count {ℓ} : {A : Type ℓ} → BlockQueue A → ℕ
count q = pos_part q.size

-- An index is -1 or in range, `back` of a queue with items is in range and `size` places behind
-- `front`, and the capacity fits an `int`.
pub record IsValid {ℓ} {A : Type ℓ} (q : BlockQueue A) : Type 0 where
  pub storage : length q.array ≡ q.max_size
  pub some_room : 0 < q.max_size
  pub int_max : q.max_size < 2 ^ 31
  pub counted : q.size ≡ pos (count q)
  pub bounded : count q ≤ q.max_size
  pub front_low : neg_part q.front ≤ 1
  pub front_high : after q.front ≤ q.max_size
  pub back_low : neg_part q.back ≤ 1
  pub back_high : after q.back ≤ q.max_size
  pub written : 0 < count q → neg_part q.back ≡ 0
  pub aligned : after q.back % q.max_size ≡ (after q.front % q.max_size + count q) % q.max_size

pub next_index-after : (i : ℤ) (n : ℕ) → neg_part i ≤ 1 → next_index i n ≡ pos (after i % n)
unfolding next_index ◌+ℤ◌ rem
next_index-after (pos i) n h = ground arith
next_index-after (negsuc i) n h = ground arith

-- From index `h` on, going round at `cap`, the array holds the items `xs`.
abbrev pub Window {ℓ} : {A : Type ℓ} → List A → ℕ → ℕ → List A → Type ℓ
Window array cap h [] = Unit
Window array cap h (x ∷ xs) = (get_elem? array h ≡ some x) × Window array cap ((h + 1) % cap) xs

-- A valid state that stands for the items `xs`, oldest first.
pub record Holds {ℓ} {A : Type ℓ} (q : BlockQueue A) (xs : List A) : Type ℓ where
  pub valid : IsValid q
  pub counts : count q ≡ length xs
  pub items : Window q.array q.max_size (after q.front % q.max_size) xs

-- A multiple of `cap` that is less than `cap` is 0.
small_multiple : (cap n q : ℕ) → cap * q ≡ n → n < cap → n ≡ 0
small_multiple cap n zero e lt = ground (arith, e)
small_multiple cap n (suc q) e lt = ground (arith, e, lt)

-- So a number of steps round the ring that comes back to the start is 0 or at least `cap`.
ring_apart : (cap h n : ℕ) → n < cap → n ≢ 0 → (h + n) % cap ≢ h
ring_apart cap h n lt some_steps back =
    some_steps
      (small_multiple cap n ((h + n) / cap) (omega (arith, mod-add-div (h + n) cap, back)) lt)

module _ {ℓ} {A : Type ℓ} where
  -- A write just past a window extends it by the item written.
  pub Window-set :
      (array : List A) (cap h i : ℕ) (x : A) (xs : List A)
      → cap ≤ length array
      → h < cap
      → length xs < cap
      → i ≡ (h + length xs) % cap
      → Window array cap h xs
      → Window (set array i x) cap h (xs ++ x ∷ [])
  Window-set array cap h i x [] hs hh hn e w =
      (rw (e, add-zero, mod-eq_of_lt hh) (get_elem?-set_self array h x (omega arith)), tt)
  Window-set array cap h i x (y ∷ ys) hs hh hn e (here, rest) = (
    get_elem?-set_ne array i h x (rw e (ring_apart cap h (suc (length ys)) hn (omega arith)))
        ∙ here,
    Window-set array cap ((h + 1) % cap) i x ys hs (omega arith) (omega arith) (e ∙ shift) rest,
  )
    where
      shift : (h + suc (length ys)) % cap ≡ ((h + 1) % cap + length ys) % cap
      shift = rw mod-add-mod (ap (λ k. k % cap) (omega arith))
