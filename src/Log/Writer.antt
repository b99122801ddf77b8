-- ===== src/Log/Writer.antt =====
-- log/log.h and log.cpp: the start and the end of the log, and the thread that empties its queue.
pub mod Names
pub mod Written
mod Tests
use wzy_server.Prelude.{
  ℕ, zero, suc, ◌+◌, Bool, true, false, ◌==◌, if◌then◌else◌, Option, none, some, List, [], ◌∷◌,
  ◌++◌, length, take, drop, replicate, ltb, Run, ok, fault, exits, ◌>>=◌, codes,
}
use wzy_server.Prelude.Int.{ℤ, pos, leb_ℤ}
use wzy_server.Queue.{BlockQueue, Wake, pop, init as new_queue}
use wzy_server.Http.Resource.{last_slash}
use wzy_server.Log.{Log, Time, date_text, put_locked}

-- The constructor, on the zeroed storage of a static object.
pub construct : Log → Log
construct l = record l { count = 0; is_async = false }

-- The destructor.
pub destroy : Log → Log
destroy l = elim l.file [ none ↦ l | some _ ↦ record l { file = none } ]

-- A text put into one of the arrays of 128 bytes, where it is read back as a C string.
pub fits_128 : List ℕ → Run (List ℕ)
fits_128 s = if ltb (length s) 128 then ok s else fault

-- `new block_queue<string>(max_queue_size)` for an asynchronous log. The thread is modelled below.
pub make_queue : ℤ → Log → Run Log
make_queue max_queue_size l =
    if leb_ℤ (pos 1) max_queue_size
    then (do q ← new_queue [] max_queue_size; ok (record l { is_async = true; log_queue = q }))
    else ok l

-- The first file's name, and the names that are kept of it. `strncpy` leaves what an older, longer
-- directory has behind the new one.
pub first_name : Time → List ℕ → Log → Run (List ℕ × Log)
unfolding fits_128
first_name t file_name l = elim (last_slash file_name) [
  | none ↦ ok (take 254 (date_text t ++ codes "_" ++ file_name), l)
  | some p ↦ (do
    log_name ← fits_128 (drop (p + 1) file_name)
    dir_name ← fits_128 (take (p + 1) file_name ++ drop (p + 1) l.dir_name)
    ok (
      take 254 (dir_name ++ date_text t ++ codes "_" ++ log_name),
      record l { dir_name = dir_name; log_name = log_name },
    ))
]

-- `init`: whether the first file was opened.
pub init :
    (opens : List ℕ → Bool)
    → Time
    → (file_name : List ℕ) → (log_buf_size split_lines : ℕ) → (max_queue_size : ℤ) → Log
    → Run (Bool × Log)
unfolding make_queue first_name
init opens t file_name log_buf_size split_lines max_queue_size l = do
  l ← make_queue max_queue_size l
  let l = record l {
    log_buf_size = log_buf_size;
    buf = replicate log_buf_size 0;
    split_lines = split_lines;
  }
  (name, l) ← first_name t file_name l
  let l = record l { today = t.tm_mday }
  ok (opens name, record l { file = if opens name then some name else none })

-- A round of the thread: whether it took a line and wrote it. `wakes` is what the waits of `pop`
-- come back with.
pub write_round : List (Wake (List ℕ)) → Log → Run (Bool × Log)
write_round wakes l = do
  (single_log, q) ← pop wakes l.log_queue
  let l = record l { log_queue = q }
  elim single_log [ none ↦ ok (false, l) | some s ↦ (do l ← put_locked s l; ok (true, l)) ]

-- `async_write_log`, for as many rounds as are looked at. Where `pop` fails the function runs off
-- its end without a value.
pub async_write_log : List (List (Wake (List ℕ))) → Log → Run Log
unfolding write_round
async_write_log [] l = ok l
async_write_log (wakes ∷ more) l = do
  (took, l) ← write_round wakes l
  if took then async_write_log more l else fault
