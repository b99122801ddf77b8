-- ===== src/Http/Line.antt =====
-- http/http_conn.cpp: `parse_line`, which cuts the next line off the read buffer.
pub mod Lines
pub mod Advance
pub mod Cut
use wzy_server.Prelude.{
  ℕ, zero, suc, ◌+◌, ◌-◌, Bool, true, false, ◌&&◌, ◌==◌, if◌then◌else◌, List, [], ◌∷◌, ◌++◌, set,
  get_elem?, ltb, Run, ok, fault, ◌>>=◌, or_fault,
}
use wzy_server.Http.{HttpConn, LineStatus, line_ok, line_bad, line_open}

abbrev pub cr : ℕ
cr = b'\r'

abbrev pub lf : ℕ
lf = b'\n'

-- What a look for a line ends with: the status, `m_check_idx` and the buffer.
abbrev pub Found : Type 0
Found = LineStatus × ℕ × List ℕ

-- The cases of a byte '\r' and of a byte '\n' at `i`, with `m_read_idx`.
pub at_cr : ℕ → ℕ → List ℕ → Run Found
at_cr i read_idx buf = if i + 1 == read_idx then ok (line_open, i, buf) else do
  temp ← or_fault (get_elem? buf (i + 1))
  if temp == lf then ok (line_ok, i + 2, set (set buf i 0) (i + 1) 0) else ok (line_bad, i, buf)

pub at_lf : ℕ → List ℕ → Run Found
at_lf i buf =
    if ltb 1 i
    then (do
      temp ← or_fault (get_elem? buf (i - 1))
      if temp == cr
          then ok (line_ok, i + 1, set (set buf (i - 1) 0) i 0)
          else ok (line_bad, i, buf))
    else ok (line_bad, i, buf)

-- The loop over the bytes from `i` up to `m_read_idx`, of which `left` are left.
pub scan : ℕ → ℕ → ℕ → List ℕ → Run Found
unfolding at_cr at_lf
scan zero i read_idx buf = ok (line_open, i, buf)
scan (suc left) i read_idx buf =
    let rest = scan left (i + 1) read_idx buf in
    do
      temp ← or_fault (get_elem? buf i)
      if temp == cr then at_cr i read_idx buf else if temp == lf then at_lf i buf else rest

unfoldable pub parse_line : HttpConn → Run (LineStatus × HttpConn)
unfolding scan
parse_line c = do
  (status, i, buf) ← scan (c.read_idx - c.check_idx) c.check_idx c.read_idx c.read_buf
  ok (status, record c { check_idx = i; read_buf = buf })

abbrev pub is_line_ok : LineStatus → Bool
is_line_ok line_ok = true
is_line_ok _ = false
