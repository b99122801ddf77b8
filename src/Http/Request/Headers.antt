-- ===== src/Http/Request/Headers.antt =====
-- What `parse_headers` takes from a header that is no Content-Length, and from the empty line.
use wzy_server.Prelude.{
  ℕ, ◌+◌, ◌≡◌, refl, Bool, true, false, ◌&&◌, ◌||◌, ◌==◌, Bool-cases, inl, inr, Option, some, List,
  [], length, drop, codes, ok, arith, if◌then◌else◌,
}
use wzy_server.Prelude.Int.{pos}
use wzy_server.Http.{HttpConn, no_request, get_request}
use wzy_server.Http.Request.{string_at, blanks, same_word, same_start, parse_headers, narrow, atol}

-- A header that asks to keep the connection open.
unfoldable pub keeps_alive : List ℕ → Bool
unfolding same_start same_word blanks
keeps_alive s =
    same_start 11 s (codes "Connection:")
    && same_word (drop (11 + blanks (drop 11 s)) s) (codes "keep-alive")

-- Where the host's name starts, in the header at `p`.
unfoldable pub host_in : ℕ → List ℕ → Option ℕ → Option ℕ
unfolding same_start blanks
host_in p s old =
    if same_start 11 s (codes "Connection:")
    then old
    else if same_start 5 s (codes "Host:")
    then some (p + 5 + blanks (drop 5 s))
    else old

-- A header other than Content-Length, in the words of the client.
abbrev pub IsOther : List ℕ → Type 0
IsOther s = same_start 15 s (codes "Content-Length:") ≡ false

pub parse_headers-other :
    (c : HttpConn) (p : ℕ) (s : List ℕ)
    → string_at c p ≡ ok s
    → (length s == 0) ≡ false
    → IsOther s
    → parse_headers p c
      ≡ ok (no_request, record c { linger = keeps_alive s || c.linger; host = host_in p s c.host })
unfolding parse_headers keeps_alive host_in
parse_headers-other c p s e long other = elim (Bool-cases (same_start 11 s (codes "Connection:"))) [
  | inl here ↦
      elim (Bool-cases (same_word (drop (11 + blanks (drop 11 s)) s) (codes "keep-alive"))) [
        | inl keeps ↦ rw (e, long, here, keeps) refl
        | inr closes ↦ rw (e, long, here, closes) refl
      ]
  | inr away ↦ elim (Bool-cases (same_start 5 s (codes "Host:"))) [
    | inl named ↦ rw (e, long, away, other, named) refl
    | inr unknown ↦ rw (e, long, away, other, unknown) refl
  ]
]

pub parse_headers-end :
    (c : HttpConn) (p : ℕ)
    → string_at c p ≡ ok []
    → c.content_length ≡ pos 0
    → parse_headers p c ≡ ok (get_request, c)
unfolding parse_headers
parse_headers-end c p e none_left = ground arith

-- A Content-Length, whose number starts behind the blanks.
pub parse_headers-length :
    (c : HttpConn) (p : ℕ) (s number : List ℕ)
    → string_at c p ≡ ok s
    → (length s == 0) ≡ false
    → same_start 11 s (codes "Connection:") ≡ false
    → same_start 15 s (codes "Content-Length:") ≡ true
    → drop (15 + blanks (drop 15 s)) s ≡ number
    → parse_headers p c ≡ ok (no_request, record c { content_length = narrow (atol number) })
unfolding parse_headers
parse_headers-length c p s number e long away here behind = rw (e, long, away, here, behind) refl
