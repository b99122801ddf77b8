-- ===== src/Queue.antt =====
-- log/block_queue.h: the bounded blocking queue over a circular array.
pub mod Invariant
pub mod Fifo
pub mod Refine
pub mod Peek
pub mod Waiting
mod Tests
use wzy_server.Prelude.{
  ℕ, ◌+◌, ◌*◌, ◌%◌, Bool, true, false, ◌==◌, if◌then◌else◌, Option, none, some, List, [], ◌∷◌,
  get_elem?, set, replicate, ltb, length, Run, ok, fault, blocked, exits, ◌>>=◌, ◌>>◌, or_fault,
}
use wzy_server.Prelude.Int.{ℤ, pos, negsuc, pos_part, neg_part, ◌+ℤ◌, ◌-ℤ◌, rem, leb_ℤ, ltb_ℤ}

-- `held` is the mutex, `broadcasts` counts the calls of `m_cond.broadcast`.
pub record BlockQueue {ℓ} (A : Type ℓ) : Type ℓ where
  pub array : List A
  pub size : ℤ
  pub max_size : ℕ
  pub front : ℤ
  pub back : ℤ
  pub held : Bool
  pub broadcasts : ℕ

-- What a thread finds when `m_cond.wait` comes back: the value that it returns, and the queue at
-- that time, with the mutex taken again.
abbrev pub Wake {ℓ} : Type ℓ → Type ℓ
Wake A = Bool × BlockQueue A

-- `(i + 1) % m_max_size`
unfoldable pub next_index : ℤ → ℕ → ℤ
unfolding ◌+ℤ◌ rem
next_index i n = rem (i +ℤ pos 1) n

abbrev pub is_zero : ℤ → Bool
is_zero n = pos_part n + neg_part n == 0

-- The `timespec` that the timed `pop` computes from the current second and its limit.
pub deadline : ℕ → ℕ → ℕ × ℕ
deadline now_sec ms_timeout = (now_sec + ms_timeout % 1000, (ms_timeout % 1000) * 1000)

module _ {ℓ} {A : Type ℓ} where
  -- `m_mutex.lock()`: a mutex that is never released blocks the caller.
  abbrev pub lock : BlockQueue A → Run (BlockQueue A)
  lock q = if q.held then blocked else ok (record q { held = true })

  abbrev pub unlock : BlockQueue A → BlockQueue A
  unlock q = record q { held = false }

  abbrev pub broadcast : BlockQueue A → BlockQueue A
  broadcast q = record q { broadcasts = q.broadcasts + 1 }

  -- `m_array[i]` is a fault out of range.
  abbrev pub read_at : List A → ℤ → Run A
  read_at xs (pos i) = or_fault (get_elem? xs i)
  read_at xs (negsuc i) = fault

  abbrev pub write_at : List A → ℤ → A → Run (List A)
  write_at xs (pos i) v = if ltb i (length xs) then ok (set xs i v) else fault
  write_at xs (negsuc i) v = fault

  -- The constructor; `blank` is a default-constructed item. It exits at a size that is not
  -- positive.
  unfoldable pub init : A → ℤ → Run (BlockQueue A)
  init blank max_size =
      if leb_ℤ max_size (pos 0)
      then exits
      else ok (record {
        array = replicate (pos_part max_size) blank;
        size = pos 0;
        max_size = pos_part max_size;
        front = negsuc 0;
        back = negsuc 0;
        held = false;
        broadcasts = 0;
      })

  pub clear : BlockQueue A → Run (BlockQueue A)
  clear q = do
    q ← lock q
    ok (unlock (record q { size = pos 0; front = negsuc 0; back = negsuc 0 }))

  pub full : BlockQueue A → Run (Bool × BlockQueue A)
  full q = do
    q ← lock q
    if leb_ℤ (pos q.max_size) q.size then ok (true, unlock q) else ok (false, unlock q)

  pub empty : BlockQueue A → Run (Bool × BlockQueue A)
  empty q = do q ← lock q; if is_zero q.size then ok (true, unlock q) else ok (false, unlock q)

  -- `none` is the result `false`, with `value` left alone. The mutex stays held on success.
  pub front : BlockQueue A → Run (Option A × BlockQueue A)
  front q = do
    q ← lock q
    if is_zero q.size
        then ok (none, unlock q)
        else do value ← read_at q.array q.front; ok (some value, q)

  pub back : BlockQueue A → Run (Option A × BlockQueue A)
  back q = do
    q ← lock q
    if is_zero q.size
        then ok (none, unlock q)
        else do value ← read_at q.array q.back; ok (some value, q)

  pub size : BlockQueue A → Run (ℤ × BlockQueue A)
  size q = do q ← lock q; ok (q.size, unlock q)

  pub max_size : BlockQueue A → Run (ℕ × BlockQueue A)
  max_size q = do q ← lock q; ok (q.max_size, unlock q)

  pub push : BlockQueue A → A → Run (Bool × BlockQueue A)
  unfolding ◌+ℤ◌
  push q item = do
    q ← lock q
    if leb_ℤ (pos q.max_size) q.size then ok (false, unlock (broadcast q)) else do
      let back = next_index q.back q.max_size
      array ← write_at q.array back item
      let q' = record q { array = array; back = back; size = q.size +ℤ pos 1 }
      ok (true, unlock (broadcast q'))

  -- The steps that both `pop`s end with, the mutex held.
  pub take_first : BlockQueue A → Run (Option A × BlockQueue A)
  unfolding ◌-ℤ◌
  take_first q = do
    let front = next_index q.front q.max_size
    item ← read_at q.array front
    ok (some item, unlock (record q { front = front; size = q.size -ℤ pos 1 }))

  -- The loop of `pop`, with what each wait of it comes back with. No more wakes: it waits for ever.
  pub wait_for_item : List (Wake A) → BlockQueue A → Run (Bool × BlockQueue A)
  wait_for_item [] q = if leb_ℤ q.size (pos 0) then blocked else ok (true, q)
  wait_for_item ((woken, q') ∷ wakes) q =
      if leb_ℤ q.size (pos 0)
      then (if woken then wait_for_item wakes q' else ok (false, q'))
      else ok (true, q)

  pub pop : List (Wake A) → BlockQueue A → Run (Option A × BlockQueue A)
  unfolding take_first wait_for_item
  pop wakes q = do
    q ← lock q
    (ready, q) ← wait_for_item wakes q
    if ready then take_first q else ok (none, unlock q)

  -- `pop` with a time limit, which waits once; `wait` is what `m_cond.timewait` comes back with at
  -- a deadline. With an item at hand the function runs off its end.
  pub timed_pop : (ℕ × ℕ → Wake A) → ℕ → ℕ → BlockQueue A → Run (Option A × BlockQueue A)
  unfolding take_first deadline
  timed_pop wait now_sec ms_timeout q = do
    q ← lock q
    let woken = wait (deadline now_sec ms_timeout)
    if leb_ℤ q.size (pos 0)
        then (if woken.0 then take_first woken.1 else ok (none, unlock woken.1))
        else fault
