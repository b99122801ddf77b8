-- ===== src/Queue/Refine.antt =====
-- Any sequence of calls on a block_queue, against a list with at most `cap` items.
use wzy_server.Prelude.{
  ℕ, ◌+◌, ◌≡◌, refl, ◌∙◌, inl, inr, Bool, true, false, List, [], ◌∷◌, ◌++◌, length, arith, Option,
  none, some, leb, leb→le, not_leb→lt, ◌==◌, if◌then◌else◌, Bool-cases, Run, ok, blocked, ◌>>=◌,
  Returns, returns,
}
use wzy_server.Prelude.Int.{ℤ, pos}
use wzy_server.Queue.{BlockQueue, clear, full, empty, size, push, pop}
use wzy_server.Queue.Invariant.{Holds}
use wzy_server.Queue.Fifo.{
  Left, push-full, push-room, pop-empty, pop-item, clear-Left, relabelled, unchanged, full-eq,
  empty-eq, size-eq,
}

pub data Call {ℓ} (A : Type ℓ) : Type ℓ where
  puts : A → Call A
  takes asks_full asks_empty asks_size clears : Call A

pub data Reply {ℓ} (A : Type ℓ) : Type ℓ where
  flag : Bool → Reply A
  item : A → Reply A
  number : ℤ → Reply A
  done : Reply A

module _ {ℓ} {A : Type ℓ} where
  -- One call, by a thread that finds the mutex as the last call left it, and that nobody wakes.
  unfoldable pub call : BlockQueue A → Call A → Run (Reply A × BlockQueue A)
  call q (puts x) = do (b, q) ← push q x; ok (flag b, q)
  call q takes = do
    (x, q) ← pop [] q
    elim x [ none ↦ ok (flag false, q) | some x ↦ ok (item x, q) ]
  call q asks_full = do (b, q) ← full q; ok (flag b, q)
  call q asks_empty = do (b, q) ← empty q; ok (flag b, q)
  call q asks_size = do (n, q) ← size q; ok (number n, q)
  call q clears = do q ← clear q; ok (done, q)

  unfoldable pub run : BlockQueue A → List (Call A) → Run (List (Reply A))
  run q [] = ok []
  run q (c ∷ cs) = do (r, q) ← call q c; rs ← run q cs; ok (r ∷ rs)

  -- The specification: a list that refuses an item when it holds `cap`.
  pub spec_call : ℕ → List A → Call A → Run (Reply A × List A)
  spec_call cap xs (puts x) =
      if leb cap (length xs) then ok (flag false, xs) else ok (flag true, xs ++ x ∷ [])
  spec_call cap [] takes = blocked
  spec_call cap (x ∷ xs) takes = ok (item x, xs)
  spec_call cap xs asks_full = ok (flag (leb cap (length xs)), xs)
  spec_call cap xs asks_empty = ok (flag (length xs == 0), xs)
  spec_call cap xs asks_size = ok (number (pos (length xs)), xs)
  spec_call cap xs clears = ok (done, [])

  pub spec_run : ℕ → List A → List (Call A) → Run (List (Reply A))
  spec_run cap xs [] = ok []
  spec_run cap xs (c ∷ cs) = do (r, xs) ← spec_call cap xs c; rs ← spec_run cap xs cs; ok (r ∷ rs)

  -- Both block, or both return the same reply and the queue still stands for the list.
  pub data Agree (q : BlockQueue A)
      : Run (Reply A × BlockQueue A) → Run (Reply A × List A) → Type ℓ where
    both_block : Agree q blocked blocked
    both_return :
        {r : Reply A} {q' : BlockQueue A} {xs : List A}
        → Left q xs q'
        → Agree q (ok (r, q')) (ok (r, xs))

  push-flag :
      {q : BlockQueue A} {ys : List A} {n : ℕ} {m : Run (Bool × BlockQueue A)}
      → Returns (λ (d, q'). (d ≡ true) × Left q ys q' × (q'.broadcasts ≡ n)) m
      → Agree q (do (b, q) ← m; ok (flag b, q)) (ok (flag true, ys))
  push-flag (returns p) = rw p.0 (both_return p.1)

  pop-reply :
      {q : BlockQueue A} {x : A} {ys : List A} {m : Run (Option A × BlockQueue A)}
      → Returns (λ (y, q'). (y ≡ some x) × Left q ys q') m
      → Agree q
          (do (y, q) ← m; elim y [ none ↦ ok (flag false, q) | some x ↦ ok (item x, q) ])
          (ok (item x, ys))
  pop-reply (returns p) = rw p.0 (both_return p.1)

  clear-done :
      {q : BlockQueue A} {m : Run (BlockQueue A)}
      → Returns (Left q []) m
      → Agree q (do q ← m; ok (done, q)) (ok (done, []))
  clear-done (returns p) = both_return p

  push-Agree :
      {q : BlockQueue A} {xs : List A} (x : A)
      → Holds q xs
      → q.held ≡ false
      → Agree q (call q (puts x)) (spec_call q.max_size xs (puts x))
  unfolding call spec_call
  push-Agree {q} {xs} x h free = elim (Bool-cases (leb q.max_size (length xs))) [
    | inl e ↦
        let filled : length xs ≡ q.max_size =
          omega (arith, h.valid.bounded, h.counts, leb→le q.max_size (length xs) e) in
        rw (e, push-full h free x filled) (both_return (relabelled h free (q.broadcasts + 1)))
    | inr e ↦ rw e (push-flag (push-room h free x (not_leb→lt _ _ e)))
  ]

  call-Agree :
      {q : BlockQueue A} {xs : List A} (c : Call A)
      → Holds q xs
      → q.held ≡ false
      → Agree q (call q c) (spec_call q.max_size xs c)
  unfolding call spec_call
  call-Agree (puts x) h free = push-Agree x h free
  call-Agree {xs = []} takes h free = rw (pop-empty h free refl) both_block
  call-Agree {xs = x ∷ xs} takes h free = pop-reply (pop-item h free)
  call-Agree asks_full h free = rw (full-eq h free) (both_return (unchanged h free))
  call-Agree asks_empty h free = rw (empty-eq h free) (both_return (unchanged h free))
  call-Agree asks_size h free = rw (size-eq h free) (both_return (unchanged h free))
  call-Agree clears h free = clear-done (clear-Left h free)

  run-step :
      {q : BlockQueue A} {m : Run (Reply A × BlockQueue A)} {s : Run (Reply A × List A)}
      (cs : List (Call A))
      → Agree q m s
      → ((q' : BlockQueue A) (xs : List A) → Left q xs q' → run q' cs ≡ spec_run q.max_size xs cs)
      → (do (r, q) ← m; rs ← run q cs; ok (r ∷ rs))
        ≡ (do (r, xs) ← s; rs ← spec_run q.max_size xs cs; ok (r ∷ rs))
  run-step cs both_block next = refl
  run-step cs (both_return l) next = rw (next _ _ l)

  -- Whatever the calls of `push`, `pop`, `full`, `empty`, `size` and `clear`, a valid queue with a
  -- free mutex gives the replies of the bounded list, and blocks where the list would.
  pub run_refines :
      (cs : List (Call A)) {q : BlockQueue A} {xs : List A}
      → Holds q xs
      → q.held ≡ false
      → run q cs ≡ spec_run q.max_size xs cs
  unfolding run spec_run
  run_refines [] h free = refl
  run_refines (c ∷ cs) h free =
      run-step cs (call-Agree c h free) λ q' ys l. run_refines cs l.holds l.free ∙ rw l.capacity
