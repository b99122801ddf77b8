-- ===== src/Timer.antt =====
-- timer/lst_timer.h and lst_timer.cpp: the list of timers, sorted by their time, on an explicit
-- heap.
pub mod Chain
pub mod Insert
pub mod Unlink
pub mod Adjust
pub mod Remove
pub mod Tick
pub mod Order
mod Tests
use wzy_server.Prelude.{
  ℕ, zero, suc, ◌≡◌, Bool, true, false, ◌&&◌, ◌==◌, if◌then◌else◌, Option, none, some, List, [],
  ◌∷◌, ltb, Run, ok, fault, out_of_fuel, ◌>>=◌, ◌>>◌,
}

abbrev pub Ptr : Type 0
Ptr = ℕ

abbrev pub null : Ptr
null = 0

-- `util_timer`. A callback function and the connection data that it gets are known by their
-- addresses, and times are not negative.
pub record Timer : Type 0 where
  pub expire : ℕ
  pub cb_func : ℕ
  pub user_data : ℕ
  pub prev : Ptr
  pub next : Ptr

abbrev pub Heap : Type 0
Heap = Ptr → Option Timer

-- `sort_timer_lst`, with the heap that its timers live in.
pub record TimerList : Type 0 where
  pub heap : Heap
  pub head : Ptr
  pub tail : Ptr

unfoldable pub write : Heap → Ptr → Option Timer → Heap
write h p c a = if a == p then c else h a

-- `*p`, a fault at a null or dangling pointer.
unfoldable pub load : Ptr → TimerList → Run Timer
load p l = if p == null then fault else elim (l.heap p) [ none ↦ fault | some t ↦ ok t ]

abbrev pub store : Ptr → Option Timer → TimerList → TimerList
store p c l = record l { heap = write l.heap p c }

-- `p->next = q` and `p->prev = q`
unfoldable pub set_next : Ptr → Ptr → TimerList → Run TimerList
set_next p q l = do t ← load p l; ok (store p (some (record t { next = q })) l)

unfoldable pub set_prev : Ptr → Ptr → TimerList → Run TimerList
set_prev p q l = do t ← load p l; ok (store p (some (record t { prev = q })) l)

-- `delete p`
unfoldable pub free : Ptr → TimerList → Run TimerList
free p l = do t ← load p l; ok (store p none l)

-- The steps behind the loop of the private `add_timer`, at the end of the list and in its middle.
pub link_last : (timer prev : Ptr) → TimerList → Run TimerList
link_last timer prev l = do
  l ← set_next prev timer l
  l ← set_prev timer prev l
  l ← set_next timer null l
  ok (record l { tail = timer })

pub link_between : (timer prev tmp : Ptr) → TimerList → Run TimerList
link_between timer prev tmp l = do
  l ← set_next prev timer l
  l ← set_next timer tmp l
  l ← set_prev timer prev l
  set_prev tmp timer l

-- Its loop, on fuel.
pub add_loop : ℕ → (timer prev tmp : Ptr) → TimerList → Run TimerList
add_loop zero timer prev tmp l = out_of_fuel
add_loop (suc fuel) timer prev tmp l = if tmp == null then link_last timer prev l else do
  t ← load timer l
  u ← load tmp l
  if ltb t.expire u.expire then link_between timer prev tmp l else add_loop fuel timer tmp u.next l

-- `add_timer(timer, lst_head)`
pub add_after : ℕ → (timer lst_head : Ptr) → TimerList → Run TimerList
unfolding add_loop link_last link_between
add_after fuel timer lst_head l = do
  first ← load lst_head l
  add_loop fuel timer lst_head first.next l

pub add_timer : ℕ → Ptr → TimerList → Run TimerList
unfolding add_after
add_timer fuel timer l =
    if timer == null
    then ok l
    else if l.head == null
    then ok (record l { head = timer; tail = timer })
    else do
      t ← load timer l
      h ← load l.head l
      if ltb t.expire h.expire
          then (do
            l ← set_next timer l.head l
            l ← set_prev l.head timer l
            ok (record l { head = timer }))
          else add_after fuel timer l.head l

-- The two ways in which `adjust_timer` takes a timer out before it puts it back.
pub readd_head : ℕ → Ptr → TimerList → Run TimerList
unfolding add_after
readd_head fuel timer l = do
  h ← load l.head l
  let l = record l { head = h.next }
  l ← set_prev l.head null l
  l ← set_next timer null l
  add_after fuel timer l.head l

-- `timer->prev->next = timer->next; timer->next->prev = timer->prev;`
pub bypass : Ptr → TimerList → Run TimerList
bypass timer l = do
  t ← load timer l
  l ← set_next t.prev t.next l
  t ← load timer l
  set_prev t.next t.prev l

pub readd_inner : ℕ → Ptr → TimerList → Run TimerList
unfolding add_after bypass
readd_inner fuel timer l = do l ← bypass timer l; t ← load timer l; add_after fuel timer t.next l

pub readd : ℕ → Ptr → TimerList → Run TimerList
readd fuel timer l = if timer == l.head then readd_head fuel timer l else readd_inner fuel timer l

pub adjust_timer : ℕ → Ptr → TimerList → Run TimerList
adjust_timer fuel timer l = if timer == null then ok l else do
  t ← load timer l
  if t.next == null
      then ok l
      else do u ← load t.next l; if ltb t.expire u.expire then ok l else readd fuel timer l

pub del_head : Ptr → TimerList → Run TimerList
del_head timer l = do
  h ← load l.head l
  let l = record l { head = h.next }
  l ← set_prev l.head null l
  free timer l

pub del_tail : Ptr → TimerList → Run TimerList
del_tail timer l = do
  t ← load l.tail l
  let l = record l { tail = t.prev }
  l ← set_next l.tail null l
  free timer l

pub del_timer : Ptr → TimerList → Run TimerList
del_timer timer l =
    if timer == null
    then ok l
    else if (timer == l.head) && (timer == l.tail)
    then (do l ← free timer l; ok (record l { head = null; tail = null }))
    else if l.head == timer
    then del_head timer l
    else if l.tail == timer
    then del_tail timer l
    else (do l ← bypass timer l; free timer l)

-- A call of a timer's callback: the function, and the connection that it gets.
abbrev pub Fired : Type 0
Fired = ℕ × ℕ

-- `if (head) head->prev = nullptr`
pub reset_head : TimerList → Run TimerList
reset_head l = if l.head == null then ok l else set_prev l.head null l

-- The loop of `tick` at the time `cur`, with the callbacks that it makes in their order.
pub tick_loop : ℕ → ℕ → Ptr → TimerList → Run (List Fired × TimerList)
tick_loop zero cur tmp l = out_of_fuel
tick_loop (suc fuel) cur tmp l = if tmp == null then ok ([], l) else do
  t ← load tmp l
  if ltb cur t.expire then ok ([], l) else (do
    l ← reset_head (record l { head = t.next })
    l ← free tmp l
    (fired, l) ← tick_loop fuel cur l.head l
    ok ((t.cb_func, t.user_data) ∷ fired, l))

pub tick : ℕ → ℕ → TimerList → Run (List Fired × TimerList)
unfolding tick_loop reset_head
tick fuel cur l = if l.head == null then ok ([], l) else tick_loop fuel cur l.head l

-- The destructor.
pub destroy_loop : ℕ → Ptr → TimerList → Run TimerList
destroy_loop zero tmp l = out_of_fuel
destroy_loop (suc fuel) tmp l = if tmp == null then ok l else do
  t ← load tmp l
  let l = record l { head = t.next }
  l ← free tmp l
  destroy_loop fuel l.head l

pub destroy : ℕ → TimerList → Run TimerList
unfolding destroy_loop
destroy fuel l = destroy_loop fuel l.head l
