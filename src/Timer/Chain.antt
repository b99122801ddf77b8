-- ===== src/Timer/Chain.antt =====
-- The doubly linked chains that a list of entries stands for, and what writes do to them.
use mathlib.Core.Bool.{or_assoc}
use wzy_server.Prelude.{
  ℕ, ◌≡◌, refl, sym, ap, ◌≢◌, ◌∙◌, ◌⊎◌, inl, inr, Bool, true, false, ◌||◌, ◌==◌, Option, none, some,
  List, [], ◌∷◌, ◌++◌, arith, ok, ==-self,
}
use wzy_server.Timer.{
  Ptr, null, Timer, Heap, TimerList, write, load, store, set_next, set_prev, free,
}

-- A timer without its links, at its address.
pub record Entry : Type 0 where
  pub addr : Ptr
  pub expire : ℕ
  pub cb_func : ℕ
  pub user_data : ℕ

abbrev pub node : Entry → Ptr → Ptr → Timer
node e prev next = record {
  expire = e.expire;
  cb_func = e.cb_func;
  user_data = e.user_data;
  prev = prev;
  next = next;
}

abbrev pub has : Ptr → List Entry → Bool
has a [] = false
has a (x ∷ xs) = (a == x.addr) || has a xs

infix 40 ◌∈◌ ◌∉◌
abbrev pub ◌∈◌ : Ptr → List Entry → Type 0
a ∈ xs = has a xs ≡ true

abbrev pub ◌∉◌ : Ptr → List Entry → Type 0
a ∉ xs = has a xs ≡ false

abbrev pub Distinct : List Entry → Type 0
Distinct [] = Unit {0}
Distinct (x ∷ xs) = (x.addr ∉ xs) × Distinct xs

-- The address of the first entry, or `stop`.
abbrev pub first : List Entry → Ptr → Ptr
first [] stop = stop
first (x ∷ xs) stop = x.addr

-- The address of the last entry, or `before`.
abbrev pub last : Ptr → List Entry → Ptr
last before [] = before
last before (x ∷ xs) = last x.addr xs

-- The entries stand in the heap, linked both ways, between the addresses `before` and `stop`.
abbrev pub Seg : Heap → Ptr → List Entry → Ptr → Type 0
Seg h before [] stop = Unit {0}
Seg h before (x ∷ xs) stop =
    (h x.addr ≡ some (node x before (first xs stop))) × Seg h x.addr xs stop

-- `g` differs from `h` at most at the addresses of `xs`.
abbrev pub SameOutside : List Entry → Heap → Heap → Type 0
SameOutside xs h g = (a : Ptr) → a ∉ xs → g a ≡ h a

-- `tail` is the last entry of a list that has one.
abbrev pub TailIs : Ptr → List Entry → Type 0
TailIs tail [] = Unit {0}
TailIs tail (x ∷ xs) = tail ≡ last x.addr xs

pub record IsList (l : TimerList) (xs : List Entry) : Type 0 where
  pub head_is : l.head ≡ first xs null
  pub tail_is : TailIs l.tail xs
  pub chain : Seg l.heap null xs null
  pub distinct : Distinct xs
  pub no_null : null ∉ xs

pub has-append : (a : Ptr) (xs ys : List Entry) → has a (xs ++ ys) ≡ (has a xs || has a ys)
has-append a [] ys = refl
has-append a (x ∷ xs) ys = rw (has-append a xs ys, or_assoc)

pub Distinct-apart : (a : Ptr) (xs ys : List Entry) → Distinct (xs ++ ys) → a ∈ xs → a ∉ ys
Distinct-apart a [] ys d i = cc
Distinct-apart a (x ∷ xs) ys d i =
    ground (arith, has-append x.addr xs ys, Distinct-apart a xs ys d.1)

pub Distinct-left : (xs ys : List Entry) → Distinct (xs ++ ys) → Distinct xs
Distinct-left [] ys d = tt
Distinct-left (x ∷ xs) ys d = (ground (arith, has-append x.addr xs ys), Distinct-left xs ys d.1)

pub Distinct-right : (xs ys : List Entry) → Distinct (xs ++ ys) → Distinct ys
Distinct-right [] ys d = d
Distinct-right (x ∷ xs) ys d = Distinct-right xs ys d.1

-- A list less one of its entries.
pub Distinct-remove :
    (xs : List Entry) (e : Entry) (ys : List Entry) → Distinct (xs ++ e ∷ ys) → Distinct (xs ++ ys)
Distinct-remove [] e ys d = d.1
Distinct-remove (x ∷ xs) e ys d = (
  ground (arith, d.0, has-append x.addr xs ys, has-append x.addr xs (e ∷ ys)),
  Distinct-remove xs e ys d.1,
)

pub not-mem-remove :
    (xs : List Entry) (e : Entry) (ys : List Entry) → Distinct (xs ++ e ∷ ys) → e.addr ∉ xs ++ ys
not-mem-remove [] e ys d = d.0
not-mem-remove (x ∷ xs) e ys d =
    ground (arith, d.0, has-append x.addr xs (e ∷ ys), not-mem-remove xs e ys d.1)

pub has-remove :
    (a : Ptr) (xs : List Entry) (e : Entry) (ys : List Entry) → a ∉ xs ++ e ∷ ys → a ∉ xs ++ ys
has-remove a xs e ys o = ground (arith, has-append a xs ys, has-append a xs (e ∷ ys))

pub first-append :
    (xs ys : List Entry) (stop : Ptr) → first (xs ++ ys) stop ≡ first xs (first ys stop)
first-append [] ys stop = refl
first-append (x ∷ xs) ys stop = refl

pub last-append :
    (before : Ptr) (xs ys : List Entry) → last before (xs ++ ys) ≡ last (last before xs) ys
last-append before [] ys = refl
last-append before (x ∷ xs) ys = last-append x.addr xs ys

pub last-mem : (x : Entry) (xs : List Entry) → last x.addr xs ∈ x ∷ xs
last-mem x [] = ground (arith, ==-self x.addr)
last-mem x (y ∷ ys) = ground (arith, last-mem y ys)

pub tail_of_append :
    (tail : Ptr) (xs : List Entry) (y : Entry) (ys : List Entry)
    → TailIs tail (xs ++ y ∷ ys)
    → tail ≡ last y.addr ys
tail_of_append tail [] y ys t = t
tail_of_append tail (x ∷ xs) y ys t = t ∙ last-append x.addr xs (y ∷ ys)

pub TailIs-append :
    (tail : Ptr) (xs : List Entry) (y : Entry) (ys : List Entry)
    → tail ≡ last y.addr ys
    → TailIs tail (xs ++ y ∷ ys)
TailIs-append tail [] y ys t = t
TailIs-append tail (x ∷ xs) y ys t = t ∙ sym (last-append x.addr xs (y ∷ ys))

module _ (h : Heap) where
  -- A chain is a chain of its first part and one of the rest.
  pub Seg-split :
      (before stop : Ptr) (xs ys : List Entry)
      → Seg h before (xs ++ ys) stop
      → Seg h before xs (first ys stop) × Seg h (last before xs) ys stop
  Seg-split before stop [] ys s = (tt, s)
  Seg-split before stop (x ∷ xs) ys s =
      let (left, right) = Seg-split x.addr stop xs ys s.1 in ((rw first-append at s.0, left), right)

  pub Seg-join :
      (before stop : Ptr) (xs ys : List Entry)
      → Seg h before xs (first ys stop)
      → Seg h (last before xs) ys stop
      → Seg h before (xs ++ ys) stop
  Seg-join before stop [] ys s t = t
  Seg-join before stop (x ∷ xs) ys s t = (rw first-append s.0, Seg-join x.addr stop xs ys s.1 t)

  -- A chain survives any change that spares its addresses.
  pub Seg-frame :
      (g : Heap) (before stop : Ptr) (xs : List Entry)
      → Seg h before xs stop
      → ((a : Ptr) → a ∈ xs → g a ≡ h a)
      → Seg g before xs stop
  Seg-frame g before stop [] s same = tt
  Seg-frame g before stop (x ∷ xs) s same = (
    same x.addr (ground (arith, ==-self x.addr)) ∙ s.0,
    Seg-frame g x.addr stop xs s.1 λ a i. same a (ground arith),
  )

  pub Seg-write :
      (before stop : Ptr) (xs : List Entry) (a : Ptr) (c : Option Timer)
      → Seg h before xs stop
      → a ∉ xs
      → Seg (write h a c) before xs stop
  unfolding write
  Seg-write before stop xs a c s out = Seg-frame (write h a c) before stop xs s λ b i. ground arith

-- An entry of a list stands in the heap, at a real address.
pub entry-holds :
    (l : TimerList) (xs : List Entry) (e : Entry) (ys : List Entry)
    → IsList l (xs ++ e ∷ ys)
    → l.heap e.addr ≡ some (node e (last null xs) (first ys null))
entry-holds l xs e ys is = (Seg-split l.heap null null xs (e ∷ ys) is.chain).1.0

pub entry_is_real :
    (l : TimerList) (xs : List Entry) (e : Entry) (ys : List Entry)
    → IsList l (xs ++ e ∷ ys)
    → e.addr ≢ null
entry_is_real l xs e ys is same =
    let spared = has-append null xs (e ∷ ys) in
    let here : (null == e.addr) ≡ true = ground (arith, same) in
    ground (arith, is.no_null, spared, here)

-- The commands at an address that holds a timer.
module _ (l : TimerList) {p : Ptr} {t : Timer} (real : p ≢ null) (holds : l.heap p ≡ some t) where
  not_null : (p == null) ≡ false
  not_null = ground arith

  pub load-ok : load p l ≡ ok t
  unfolding load
  load-ok = rw (not_null, holds)

  pub set_next-ok : (q : Ptr) → set_next p q l ≡ ok (store p (some (record t { next = q })) l)
  unfolding set_next
  set_next-ok q = rw load-ok

  pub set_prev-ok : (q : Ptr) → set_prev p q l ≡ ok (store p (some (record t { prev = q })) l)
  unfolding set_prev
  set_prev-ok q = rw load-ok

  pub free-ok : free p l ≡ ok (store p none l)
  unfolding free
  free-ok = rw load-ok

-- A list is empty, or has a last entry.
pub snoc_cases :
    (xs : List Entry) → (xs ≡ []) ⊎ ((ys : List Entry) × (y : Entry) × (xs ≡ ys ++ y ∷ []))
snoc_cases [] = inl refl
snoc_cases (x ∷ xs) = inr (go x (snoc_cases xs))
  where
    go :
        {xs : List Entry} (x : Entry)
        → (xs ≡ []) ⊎ ((ys : List Entry) × (y : Entry) × (xs ≡ ys ++ y ∷ []))
        → (ys : List Entry) × (y : Entry) × (x ∷ xs ≡ ys ++ y ∷ [])
    go x (inl e) = ([], x, ap (λ r. x ∷ r) e)
    go x (inr (ys, y, e)) = (x ∷ ys, y, ap (λ r. x ∷ r) e)
