-- ===== src/Log.antt =====
-- log/log.h and log.cpp: the log, which writes its lines itself or leaves them to a thread.
pub mod Files
pub mod Delivery
pub mod Writer
mod Tests
use wzy_server.Prelude.{
  ℕ, zero, suc, ◌+◌, ◌-◌, ◌%◌, Bool, true, false, not, ◌&&◌, ◌||◌, ◌==◌, if◌then◌else◌, Option,
  none, some, List, [], ◌∷◌, ◌++◌, length, take, replicate, ltb, leb, Run, ok, fault, blocked,
  ◌>>=◌, codes, splice, c_string, digits_from,
}
use wzy_server.Prelude.Int.{ℤ, pos}
use wzy_server.Queue.{BlockQueue, full, push}

-- `struct tm` and the microseconds.
pub record Time : Type 0 where
  pub tm_year : ℕ
  pub tm_mon : ℕ
  pub tm_mday : ℕ
  pub tm_hour : ℕ
  pub tm_min : ℕ
  pub tm_sec : ℕ
  pub tv_usec : ℕ

-- The log. `file` is the name behind `m_fp`, or `none` for a null pointer; `output` is what was put
-- into files, oldest first, `flushed` how many of these lines a flush has passed on; `held` is
-- `m_mutex`.
pub record Log : Type 0 where
  pub dir_name : List ℕ
  pub log_name : List ℕ
  pub split_lines : ℕ
  pub log_buf_size : ℕ
  pub count : ℕ
  pub today : ℕ
  pub file : Option (List ℕ)
  pub buf : List ℕ
  pub log_queue : BlockQueue (List ℕ)
  pub is_async : Bool
  pub output : List (List ℕ × List ℕ)
  pub flushed : ℕ
  pub held : Bool

pub lock : Log → Run Log
lock l = if l.held then blocked else ok (record l { held = true })

abbrev pub unlock : Log → Log
unlock l = record l { held = false }

-- `%d` and `%0wd`
abbrev pub decimal : ℕ → List ℕ
decimal n = digits_from 20 n

pub padded : ℕ → ℕ → List ℕ
padded w n = replicate (w - length (decimal n)) b'0' ++ decimal n

-- `"%d_%02d_%02d"`
unfoldable pub date_text : Time → List ℕ
unfolding padded
date_text t =
    decimal (t.tm_year + 1900)
    ++ codes "_"
    ++ padded 2 (t.tm_mon + 1)
    ++ codes "_"
    ++ padded 2 t.tm_mday

-- The level's name; the cases 2 and 3 have no `break` and fall through to the default.
pub level_text : ℕ → List ℕ
level_text level = if level == 0 then codes "[debug]:" else codes "[info]:"

-- `"%d-%02d-%02d %02d:%02d:%02d.%06ld %s "`
pub stamp : Time → ℕ → List ℕ
unfolding padded level_text
stamp t level =
    decimal (t.tm_year + 1900)
    ++ codes "-"
    ++ padded 2 (t.tm_mon + 1)
    ++ codes "-"
    ++ padded 2 t.tm_mday
    ++ codes " "
    ++ padded 2 t.tm_hour
    ++ codes ":"
    ++ padded 2 t.tm_min
    ++ codes ":"
    ++ padded 2 t.tm_sec
    ++ codes "."
    ++ padded 6 t.tv_usec
    ++ codes " "
    ++ level_text level
    ++ codes " "

-- The new file's name, the length that `snprintf` allows, and the counters.
unfoldable pub new_file : Time → Log → List ℕ × Log
unfolding date_text
new_file t l =
    let tail = take 15 (date_text t) in
    if not (l.today == t.tm_mday)
    then (take 254 (l.dir_name ++ tail ++ l.log_name), record l { today = t.tm_mday; count = 0 })
    else (
      take 254 (l.dir_name ++ tail ++ l.log_name ++ codes "." ++ decimal (l.count % l.split_lines)),
      l,
    )

-- The first locked part of `write_log`: the line is counted, and a new file is begun on another day
-- and at every `m_split_lines`-th line. `opens` is whether `fopen` succeeds on a name.
pub rotate : (List ℕ → Bool) → Time → Log → Run Log
unfolding new_file lock
rotate opens t l = do
  l ← lock l
  let l = record l { count = l.count + 1 }
  let due = not (l.today == t.tm_mday) || (l.count % l.split_lines == 0)
  let name = (new_file t l).0
  if l.split_lines == 0 && (l.today == t.tm_mday)
      then fault
      else if not due
      then ok (unlock l)
      else elim l.file [
        | none ↦ fault
        | some _ ↦
            ok
              (unlock (record ((new_file t l).1) { file = if opens name then some name else none }))
      ]

-- The second locked part: the line, in `m_buf`. `body` is the text that the caller's format gives.
pub format_line : Time → ℕ → List ℕ → Log → Run (List ℕ × Log)
unfolding stamp lock
format_line t level body l = do
  l ← lock l
  let head = stamp t level
  let n = length head
  buf ← splice l.buf 0 (take 47 head ++ 0 ∷ [])
  buf ← splice buf n (take (l.log_buf_size - 2) body ++ 0 ∷ [])
  buf ← splice buf (n + length body) (b'\n' ∷ [])
  buf ← splice buf (n + length body) (0 ∷ [])
  log_str ← c_string buf
  ok (log_str, unlock (record l { buf = buf }))

-- `fputs` into the open file.
pub put_line : List ℕ → Log → Run Log
put_line s l = elim l.file [
  | none ↦ fault
  | some name ↦ ok (record l { output = l.output ++ (name, s) ∷ [] })
]

-- `fputs` under the mutex.
pub put_locked : List ℕ → Log → Run Log
unfolding put_line lock
put_locked s l = do l ← lock l; l ← put_line s l; ok (unlock l)

-- The end of `write_log`: the line goes to the queue, or to the file if the log is synchronous or
-- the queue is full.
pub deliver : List ℕ → Log → Run Log
deliver s l = if not l.is_async then put_locked s l else do
  (at_limit, q) ← full l.log_queue
  let l = record l { log_queue = q }
  if at_limit
      then put_locked s l
      else (do (_, q) ← push l.log_queue s; ok (record l { log_queue = q }))

pub write_log : (List ℕ → Bool) → Time → ℕ → List ℕ → Log → Run Log
unfolding rotate format_line deliver
write_log opens t level body l = do
  l ← rotate opens t l
  (log_str, l) ← format_line t level body l
  deliver log_str l

unfoldable pub flush : Log → Run Log
flush l = do l ← lock l; ok (unlock (record l { flushed = length l.output }))
