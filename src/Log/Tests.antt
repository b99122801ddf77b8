-- ===== src/Log/Tests.antt =====
-- The log's theorems at concrete logs.
use wzy_server.Prelude.{
  ℕ, ◌≡◌, refl, true, false, List, [], ◌∷◌, some, ok, arith, codes, replicate, digits_from,
}
use wzy_server.Prelude.Int.{pos}
use wzy_server.Samples.{noon}
use wzy_server.Queue.{BlockQueue}
use wzy_server.Queue.Invariant.{Holds}
use wzy_server.Log.{Log, rotate, date_text}
use wzy_server.Log.Files.{rotate_same_name}

-- Room for one line; one line waits, or none.
abbrev full_queue : BlockQueue (List ℕ)
full_queue = record {
  array = codes "x" ∷ [];
  size = pos 1;
  max_size = 1;
  front = pos 0;
  back = pos 0;
  held = false;
  broadcasts = 0;
}

full-Holds : Holds full_queue (codes "x" ∷ [])
full-Holds = ground arith

abbrev log : Log
log = record {
  dir_name = codes "logs/";
  log_name = codes "S";
  split_lines = 4;
  log_buf_size = 64;
  count = 7;
  today = 9;
  file = some (codes "first");
  buf = replicate 64 0;
  log_queue = full_queue;
  is_async = true;
  output = [];
  flushed = 0;
  held = false;
}

rotate_same_name_example :
    rotate (λ name. true) noon log
    ≡ ok (record log { count = 8; file = some (codes "logs/2022_05_09S.0") })
unfolding date_text digits_from
rotate_same_name_example =
    rotate_same_name (λ name. true) noon log (codes "first") refl refl refl (omega arith) refl
