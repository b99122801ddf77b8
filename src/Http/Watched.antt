-- ===== src/Http/Watched.antt =====
-- What a connection does to the descriptors that epoll watches, and to the count of users.
use wzy_server.Prelude.{
  ℕ, ◌+◌, ◌≡◌, refl, Sure-mono, ◌∙◌, Bool, true, false, ◌&&◌, ◌||◌, not, ◌==◌, if◌then◌else◌, List,
  [], ◌∷◌, length, leb, Sure, sure, sure_blocked, Sure-bind, Sure-if, splice-Sure,
}
use wzy_server.Prelude.Int.{pos}
use wzy_server.Http.{
  HttpConn, SysCall, adds, removes, Recv, gets, at_end, would_block, fails, read_loop, read,
}

-- Whether epoll watches the descriptor, after the calls (newest first).
unfoldable pub watched : List SysCall → ℕ → Bool
watched [] fd = false
watched (adds (pos n) ∷ calls) fd = (fd == n) || watched calls fd
watched (removes (pos n) ∷ calls) fd = not (fd == n) && watched calls fd
watched (_ ∷ calls) fd = watched calls fd

-- Neither the system calls nor the count of users changed, and the descriptor is the same.
pub record IsQuiet (c d : HttpConn) : Type 0 where
  pub same_calls : d.calls ≡ c.calls
  pub same_count : d.user_count ≡ c.user_count
  pub same_sockfd : d.sockfd ≡ c.sockfd

pub is_quiet :
    {c d : HttpConn}
    → d.calls ≡ c.calls
    → d.user_count ≡ c.user_count
    → d.sockfd ≡ c.sockfd
    → IsQuiet c d
is_quiet a b e = record { same_calls = a; same_count = b; same_sockfd = e }

pub IsQuiet-trans : {c d e : HttpConn} → IsQuiet c d → IsQuiet d e → IsQuiet c e
IsQuiet-trans k l =
    is_quiet (l.same_calls ∙ k.same_calls) (l.same_count ∙ k.same_count)
      (l.same_sockfd ∙ k.same_sockfd)

-- The same descriptors are watched, and as many users counted.
pub record IsStill (c d : HttpConn) : Type 0 where
  pub same_watched : (fd : ℕ) → watched d.calls fd ≡ watched c.calls fd
  pub same_count : d.user_count ≡ c.user_count

pub is_still :
    {c d : HttpConn}
    → ((fd : ℕ) → watched d.calls fd ≡ watched c.calls fd)
    → d.user_count ≡ c.user_count
    → IsStill c d
is_still w k = record { same_watched = w; same_count = k }

pub IsStill-if :
    (b : Bool) {c d e : HttpConn} → IsStill c d → IsStill c e → IsStill c (if b then d else e)
IsStill-if true s t = s
IsStill-if false s t = t

pub IsStill-trans : {c d e : HttpConn} → IsStill c d → IsStill d e → IsStill c e
IsStill-trans k l = record {
  same_watched = λ fd. l.same_watched fd ∙ k.same_watched fd;
  same_count = l.same_count ∙ k.same_count;
}

pub IsQuiet-IsStill : {c d : HttpConn} → IsQuiet c d → IsStill c d
IsQuiet-IsStill k = record { same_watched = λ fd. rw k.same_calls refl; same_count = k.same_count }

read_loop-Sure :
    (received : List Recv) (c : HttpConn) → Sure (λ (b, d). IsQuiet c d) (read_loop received c)
unfolding read_loop
read_loop-Sure [] c = sure_blocked
read_loop-Sure (gets s ∷ more) c = Sure-bind (splice-Sure c.read_buf c.read_idx s) λ buf _.
    Sure-mono (read_loop-Sure more (record c { read_buf = buf; read_idx = c.read_idx + length s }))
      λ (b, d) more. IsQuiet-trans (is_quiet refl refl refl) more
read_loop-Sure (at_end ∷ more) c = sure (is_quiet refl refl refl)
read_loop-Sure (would_block ∷ more) c = sure (is_quiet refl refl refl)
read_loop-Sure (fails ∷ more) c = sure (is_quiet refl refl refl)

pub read-Sure :
    (received : List Recv) (c : HttpConn) → Sure (λ (b, d). IsQuiet c d) (read received c)
unfolding read
read-Sure received c =
    Sure-if (leb 2048 c.read_idx) (sure (is_quiet refl refl refl)) (read_loop-Sure received c)
