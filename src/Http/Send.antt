-- ===== src/Http/Send.antt =====
-- http/http_conn.cpp: `write`, the sending of a response.
pub mod Resent
pub mod Still
use wzy_server.Prelude.{
  ℕ, zero, suc, ◌+◌, ◌-◌, ◌^◌, Bool, true, false, ◌==◌, if◌then◌else◌, List, [], ◌∷◌, ◌++◌, length,
  take, ltb, leb, Run, ok, fault, blocked, ◌>>=◌, region, to_int,
}
use wzy_server.Prelude.Int.{ℤ, pos, negsuc, ◌+ℤ◌, ◌-ℤ◌, leb_ℤ, pos_part}
use wzy_server.Http.{
  HttpConn, Base, in_write_buf, in_file, IoVec, epollin, epollout, sends, syscall, modfd, reset,
  unmap,
}

-- What one `writev` gives: a number of bytes taken, no room now, or another error.
pub data Sent : Type 0 where
  takes : ℕ → Sent
  no_room fails : Sent

-- The bytes of one block, a fault where they are not all in its buffer.
pub block : HttpConn → IoVec → Run (List ℕ)
block c v = elim v.iov_base [
  | in_write_buf (pos k) ↦ region c.write_buf k v.iov_len
  | in_file (pos k) ↦ region c.file k v.iov_len
  | in_write_buf (negsuc k) ↦ fault
  | in_file (negsuc k) ↦ fault
]

-- The bytes that `writev` is offered.
pub offered : HttpConn → Run (List ℕ)
unfolding block
offered c = do
  first ← block c c.iv_0
  if c.iv_count == 1 then ok first else (do second ← block c c.iv_1; ok (first ++ second))

-- An `int` stored in a `size_t`.
abbrev to_size : ℤ → ℕ
to_size (pos n) = n
to_size (negsuc n) = 2 ^ 64 - n - 1

-- The new blocks when there is no room now. `newadd` is the number of file bytes sent.
pub next_blocks : ℤ → HttpConn → HttpConn
next_blocks newadd c =
    if leb_ℤ (pos c.iv_0.iov_len) c.bytes_have_send
    then record c {
      iv_0 = record c.iv_0 { iov_len = 0 };
      iv_1 = record { iov_base = in_file newadd; iov_len = to_size c.bytes_to_send };
    }
    else record c {
      iv_0 = record {
        iov_base = in_write_buf c.bytes_to_send;
        iov_len = c.iv_0.iov_len - pos_part c.bytes_have_send;
      };
    }

-- The response is sent: the connection is kept or given up.
pub finish : HttpConn → Bool × HttpConn
finish c = let c = modfd epollin (unmap c) in if c.linger then (true, reset c) else (false, c)

-- The loop of `write`, over what its `writev` calls give.
pub write_loop : List Sent → ℤ → HttpConn → Run (Bool × HttpConn)
unfolding offered next_blocks finish
write_loop [] newadd c = blocked
write_loop (no_room ∷ more) newadd c = ok (true, modfd epollout (next_blocks newadd c))
write_loop (fails ∷ more) newadd c = ok (false, unmap c)
write_loop (takes n ∷ more) newadd c = do
  bytes ← offered c
  let c = syscall (sends (take n bytes)) c
  let c = record c {
    bytes_to_send = c.bytes_to_send -ℤ pos n;
    bytes_have_send = c.bytes_have_send +ℤ pos n;
  }
  let newadd = c.bytes_have_send -ℤ pos c.write_idx
  let rest = write_loop more newadd c
  if leb_ℤ c.bytes_to_send (pos 0) then ok (finish c) else rest

-- `m_write_idx` and the lengths of both blocks, each turned into an `int`.
pub to_send : HttpConn → ℤ
to_send c = pos c.write_idx +ℤ to_int c.iv_0.iov_len +ℤ to_int c.iv_1.iov_len

abbrev is_zero : ℤ → Bool
is_zero (pos n) = n == 0
is_zero (negsuc n) = false

pub write : List Sent → HttpConn → Run (Bool × HttpConn)
unfolding write_loop to_send
write sent c =
    let started = record c { bytes_have_send = pos 0; bytes_to_send = to_send c } in
    if is_zero (to_send c)
    then ok (true, reset (modfd epollin started))
    else write_loop sent (pos 0) started
