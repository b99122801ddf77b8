-- ===== src/Timer/Tests.antt =====
-- Runs on a list of three timers, and the theorems about the list at it.
use wzy_server.Prelude.{◌≡◌, refl, none, some, List, [], ◌∷◌, ◌++◌, map, arith, Returns}
use wzy_server.Timer.{TimerList, write, add_timer, adjust_timer, tick, del_timer}
use wzy_server.Timer.Chain.{Entry, node, IsList}
use wzy_server.Timer.Insert.{insert, Becomes, add_timer-Becomes}
use wzy_server.Timer.Adjust.{adjust_timer-Becomes}
use wzy_server.Timer.Remove.{Removed, del_timer-Removed}
use wzy_server.Timer.Tick.{callback, Ticked}
use wzy_server.Timer.Order.{AllFrom, AllUpTo, IsSorted, tick_calls_due}

abbrev a : Entry
a = record { addr = 1; expire = 10; cb_func = 7; user_data = 101 }

abbrev b : Entry
b = record { addr = 2; expire = 20; cb_func = 7; user_data = 102 }

abbrev c : Entry
c = record { addr = 3; expire = 30; cb_func = 7; user_data = 103 }

-- A new timer, and the first timer put off.
abbrev d : Entry
d = record { addr = 4; expire = 20; cb_func = 7; user_data = 104 }

abbrev late_a : Entry
late_a = record a { expire = 25 }

abbrev three : Entry → TimerList
three x = record {
  heap =
      write
        (write (write (write (λ _. none) 1 (some (node x 0 2))) 2 (some (node b 1 3))) 3
          (some (node c 2 0)))
        4 (some (node d 0 0));
  head = 1;
  tail = 3;
}

three-IsList : IsList (three a) (a ∷ b ∷ c ∷ [])
unfolding write
three-IsList = ground arith

late-IsList : IsList (three late_a) (late_a ∷ b ∷ c ∷ [])
unfolding write
late-IsList = ground arith

three-IsSorted : IsSorted (a ∷ b ∷ c ∷ [])
three-IsSorted = omega arith

add_timer-Becomes_example :
    Returns (Becomes (three a) (d ∷ a ∷ b ∷ c ∷ []) (a ∷ b ∷ d ∷ c ∷ [])) (add_timer 4 4 (three a))
unfolding insert write
add_timer-Becomes_example =
    add_timer-Becomes d 4 (three a) (a ∷ b ∷ c ∷ []) (omega arith) three-IsList refl (omega arith)
      refl

adjust_timer-Becomes_example :
    Returns
      (Becomes (three late_a) (late_a ∷ b ∷ c ∷ []) (b ∷ late_a ∷ c ∷ []))
      (adjust_timer 4 1 (three late_a))
unfolding insert
adjust_timer-Becomes_example =
    adjust_timer-Becomes 4 (three late_a) [] late_a (b ∷ c ∷ []) (omega arith) late-IsList

del_timer-Removed_example :
    Returns (Removed (three a) (a ∷ b ∷ c ∷ []) 2 (a ∷ c ∷ [])) (del_timer 2 (three a))
del_timer-Removed_example = del_timer-Removed (three a) (a ∷ []) b (c ∷ []) three-IsList

tick_calls_due_example :
    Returns
      (λ (fired, l').
        (due : List Entry) × (left : List Entry) × (due ++ left ≡ a ∷ b ∷ c ∷ [])
        × AllUpTo 20 due
        × AllFrom 21 left
        × IsSorted left
        × (fired ≡ map callback due)
        × Ticked (three a) (a ∷ b ∷ c ∷ []) due left l')
      (tick 4 20 (three a))
tick_calls_due_example =
    tick_calls_due 4 20 (three a) (a ∷ b ∷ c ∷ []) (omega arith) three-IsList three-IsSorted
