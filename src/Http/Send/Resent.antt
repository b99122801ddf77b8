-- ===== src/Http/Send/Resent.antt =====
-- What the calls of `writev` in `write` hand over.
use wzy_server.Prelude.{ℕ, ◌≤◌, ◌<◌, ◌≡◌, ◌≢◌, List, ◌∷◌, ◌++◌, length, take}
use wzy_server.Prelude.Int.{pos, ◌+ℤ◌, ◌-ℤ◌}
use wzy_server.Http.{HttpConn, in_write_buf, in_file, sends}
use wzy_server.Http.Send.{to_send}

-- A connection as `process_write` leaves it for a file: the response in the write buffer, then the
-- file, which is mapped.
pub record IsReady (c : HttpConn) : Type 0 where
  pub first : c.iv_0 ≡ record { iov_base = in_write_buf (pos 0); iov_len = c.write_idx }
  pub second : c.iv_1 ≡ record { iov_base = in_file (pos 0); iov_len = length c.file }
  pub two : c.iv_count ≡ 2
  pub fits : c.write_idx ≤ length c.write_buf
  pub some_text : 0 < c.write_idx
  pub mapped : c.file_address ≢ 0

-- The head and the file, what the client is to get.
pub response : HttpConn → List ℕ
response c = take c.write_idx c.write_buf ++ c.file

-- The connection after a `writev` that took `n` bytes.
abbrev sent : ℕ → List ℕ → HttpConn → HttpConn
sent n bytes c = record c {
  calls = sends (take n bytes) ∷ c.calls;
  bytes_to_send = c.bytes_to_send -ℤ pos n;
  bytes_have_send = c.bytes_have_send +ℤ pos n;
}

abbrev started : HttpConn → HttpConn
started c = record c { bytes_have_send = pos 0; bytes_to_send = to_send c }
