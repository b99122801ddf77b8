-- ===== src/Http/Send/Still.antt =====
-- `write` leaves the descriptors that epoll watches and the count of users alone.
use wzy_server.Prelude.{
  ℕ, ◌+◌, ◌==◌, refl, leb, length, region, fault, Bool, true, false, List, [], ◌∷◌, take,
  if◌then◌else◌, Sure, sure, sure_blocked, sure_fault, Sure-bind, Sure-if, Sure-mono, Any,
}
use wzy_server.Prelude.Int.{ℤ, pos, negsuc, ◌+ℤ◌, ◌-ℤ◌, leb_ℤ}
use wzy_server.Http.{
  HttpConn, Interest, modfd, unmap, reset, sends, epollin, epollout, Base, in_write_buf, in_file,
  IoVec,
}
use wzy_server.Http.Watched.{watched, IsStill, is_still, IsStill-if, IsStill-trans}
use wzy_server.Http.Send.{
  Sent, takes, no_room, fails, block, offered, next_blocks, finish, write_loop, write, to_send,
  is_zero,
}

modfd-IsStill : (ev : Interest) (c : HttpConn) → IsStill c (modfd ev c)
unfolding modfd watched
modfd-IsStill ev c = is_still (λ fd. refl) refl

unmap-IsStill : (c : HttpConn) → IsStill c (unmap c)
unfolding unmap watched
unmap-IsStill c =
    IsStill-if (c.file_address == 0) (is_still (λ fd. refl) refl) (is_still (λ fd. refl) refl)

next_blocks-IsStill : (newadd : ℤ) (c : HttpConn) → IsStill c (next_blocks newadd c)
unfolding next_blocks
next_blocks-IsStill newadd c =
    IsStill-if (leb_ℤ (pos c.iv_0.iov_len) c.bytes_have_send) (is_still (λ fd. refl) refl)
      (is_still (λ fd. refl) refl)

finish-IsStill : (c : HttpConn) → IsStill c (finish c).1
unfolding finish reset
finish-IsStill c =
    let armed = IsStill-trans (unmap-IsStill c) (modfd-IsStill epollin (unmap c)) in
    let d = modfd epollin (unmap c) in
    go d.linger (true, reset d) (false, d) (is_still armed.same_watched armed.same_count) armed
  where
    go :
        (b : Bool) (x y : Bool × HttpConn)
        → IsStill c x.1
        → IsStill c y.1
        → IsStill c (if b then x else y).1
    go true x y s t = s
    go false x y s t = t

region-Sure : (buf : List ℕ) (i n : ℕ) → Sure Any (region buf i n)
unfolding region
region-Sure buf i n = Sure-if (leb (i + n) (length buf)) (sure tt) sure_fault

block-Sure : (c : HttpConn) (v : IoVec) → Sure Any (block c v)
unfolding block
block-Sure c v = go v.iov_base
  where
    go :
        (base : Base)
        → Sure Any (elim base [
          | in_write_buf (pos k) ↦ region c.write_buf k v.iov_len
          | in_file (pos k) ↦ region c.file k v.iov_len
          | in_write_buf (negsuc k) ↦ fault
          | in_file (negsuc k) ↦ fault
        ])
    go (in_write_buf (pos k)) = region-Sure c.write_buf k v.iov_len
    go (in_file (pos k)) = region-Sure c.file k v.iov_len
    go (in_write_buf (negsuc k)) = sure_fault
    go (in_file (negsuc k)) = sure_fault

offered-Sure : (c : HttpConn) → Sure Any (offered c)
unfolding offered
offered-Sure c = Sure-bind (block-Sure c c.iv_0) λ first _.
    Sure-if (c.iv_count == 1) (sure tt) (Sure-bind (block-Sure c c.iv_1) λ second _. sure tt)

write_loop-Sure :
    (sent : List Sent) (newadd : ℤ) (c : HttpConn)
    → Sure (λ (b, d). IsStill c d) (write_loop sent newadd c)
unfolding write_loop watched
write_loop-Sure [] newadd c = sure_blocked
write_loop-Sure (no_room ∷ more) newadd c =
    sure
      (IsStill-trans (next_blocks-IsStill newadd c) (modfd-IsStill epollout (next_blocks newadd c)))
write_loop-Sure (fails ∷ more) newadd c = sure (unmap-IsStill c)
write_loop-Sure (takes n ∷ more) newadd c = Sure-bind (offered-Sure c) λ bytes _.
    let d = record c {
      calls = sends (take n bytes) ∷ c.calls;
      bytes_to_send = c.bytes_to_send -ℤ pos n;
      bytes_have_send = c.bytes_have_send +ℤ pos n;
    } in
    let still : IsStill c d = is_still (λ fd. refl) refl in
    Sure-if (leb_ℤ (c.bytes_to_send -ℤ pos n) (pos 0))
      (sure (IsStill-trans still (finish-IsStill d)))
      (Sure-mono (write_loop-Sure more (d.bytes_have_send -ℤ pos d.write_idx) d)
        λ (b, e) more. IsStill-trans still more)

pub write-Sure : (sent : List Sent) (c : HttpConn) → Sure (λ (b, d). IsStill c d) (write sent c)
unfolding write reset
write-Sure sent c =
    let d = record c { bytes_have_send = pos 0; bytes_to_send = to_send c } in
    let still : IsStill c d = is_still (λ fd. refl) refl in
    let armed = IsStill-trans still (modfd-IsStill epollin d) in
    Sure-if (is_zero (to_send c)) (sure (is_still armed.same_watched armed.same_count))
      (Sure-mono (write_loop-Sure sent (pos 0) d) λ (b, e) more. IsStill-trans still more)
