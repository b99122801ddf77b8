-- ===== src/Queue/Tests.antt =====
-- Runs of block_queue, and its theorems at concrete queues.
use wzy_server.Prelude.{ℕ, ◌≡◌, refl, true, false, List, [], ◌∷◌, arith, ok}
use wzy_server.Prelude.Int.{pos}
use wzy_server.Queue.{BlockQueue, push, pop, size, full, empty, next_index}
use wzy_server.Queue.Invariant.{Holds}
use wzy_server.Queue.Refine.{
  Call, call, puts, takes, asks_full, asks_empty, asks_size, flag, item, number, run, spec_run,
  run_refines,
}

-- Room for three, two items, the second behind the end of the array.
abbrev wrapped : BlockQueue ℕ
wrapped = record {
  array = 9 ∷ 7 ∷ 8 ∷ [];
  size = pos 2;
  max_size = 3;
  front = pos 1;
  back = pos 0;
  held = false;
  broadcasts = 0;
}

abbrev vacant : BlockQueue ℕ
vacant = record wrapped { size = pos 0; front = pos 0 }

wrapped-Holds : Holds wrapped (8 ∷ 9 ∷ [])
wrapped-Holds = ground arith

vacant-Holds : Holds vacant []
vacant-Holds = ground arith

abbrev script : List (Call ℕ)
script = puts 1 ∷ puts 2 ∷ asks_full ∷ takes ∷ takes ∷ takes ∷ asks_empty ∷ asks_size ∷ []

run-wrapped :
    run wrapped script
    ≡ ok (
        flag true
        ∷ flag false
        ∷ flag true
        ∷ item 8
        ∷ item 9
        ∷ item 1
        ∷ flag true
        ∷ number (pos 0)
        ∷ [])
unfolding run call push pop full empty size next_index
run-wrapped = refl

run_refines_example : run wrapped script ≡ spec_run 3 (8 ∷ 9 ∷ []) script
run_refines_example = run_refines script wrapped-Holds refl
