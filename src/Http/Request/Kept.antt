-- ===== src/Http/Request/Kept.antt =====
-- The parsing of a request moves neither end of the unread bytes, and always ends.
use wzy_server.Prelude.{
  ℕ, ◌+◌, ◌≡◌, refl, Bool, true, false, ◌&&◌, ◌==◌, some, List, [], ◌∷◌, length, drop, codes, ltb,
  Run, Sure, sure, sure_fault, Sure-bind, Sure-if, Sure-option, sure_blocked, sure_exits, Any, ◌∙◌,
  Sure-or_fault, splice-Sure, c_string-Sure, if◌then◌else◌, ◌++◌,
}
use wzy_server.Prelude.Int.{pos, ◌+ℤ◌, leb_ℤ, pos_part}
use wzy_server.Http.{HttpConn, HttpCode, get, post}
use wzy_server.Http.Watched.{IsQuiet, is_quiet, IsQuiet-trans}
use wzy_server.Http.Request.{
  body_end, string_at, cut, find_blank, blanks, same_word, same_start, is_zero, skip_scheme,
  starts_with_slash, accept_url, parse_url, parse_version, parse_request_line, parse_headers,
  end_body, parse_content,
}

-- `m_read_idx` and `m_check_idx` are the same, and so are the descriptor, the system calls and the
-- count of users.
pub record IsKept (c d : HttpConn) : Type 0 where
  pub same_read : d.read_idx ≡ c.read_idx
  pub same_check : d.check_idx ≡ c.check_idx
  pub quiet : IsQuiet c d

is_kept :
    {c d : HttpConn}
    → d.read_idx ≡ c.read_idx
    → d.check_idx ≡ c.check_idx
    → IsQuiet c d
    → IsKept c d
is_kept a b q = record { same_read = a; same_check = b; quiet = q }

IsKept-if : (b : Bool) {c d e : HttpConn} → IsKept c d → IsKept c e → IsKept c (if b then d else e)
IsKept-if true p q = p
IsKept-if false p q = q

pub string_at-Sure : (c : HttpConn) (p : ℕ) → Sure Any (string_at c p)
unfolding string_at
string_at-Sure c p = c_string-Sure (drop p c.read_buf)

skip_scheme-Sure : (scheme : List ℕ) (c : HttpConn) → Sure (IsKept c) (skip_scheme scheme c)
unfolding skip_scheme
skip_scheme-Sure scheme c = Sure-bind (Sure-or_fault c.url) λ url _.
    Sure-bind (string_at-Sure c url) λ s _.
      Sure-if (same_start (length scheme) s scheme)
        (sure (is_kept refl refl (is_quiet refl refl refl)))
        (sure (is_kept refl refl (is_quiet refl refl refl)))

accept_url-Sure :
    (url : ℕ) (s : List ℕ) (c : HttpConn) → Sure (λ (code, d). IsKept c d) (accept_url url s c)
unfolding accept_url
accept_url-Sure url s c =
    Sure-bind {P = Any}
      (Sure-if (length s == 1) (splice-Sure c.read_buf (url + 1) (codes "judge.html" ++ 0 ∷ []))
        (sure tt))
      λ buf _. sure (is_kept refl refl (is_quiet refl refl refl))

pub IsKept-trans : {c d e : HttpConn} → IsKept c d → IsKept d e → IsKept c e
IsKept-trans k l =
    is_kept (l.same_read ∙ k.same_read) (l.same_check ∙ k.same_check)
      (IsQuiet-trans k.quiet l.quiet)

-- What follows on a connection with the same indices.
then-IsKept :
    {c d : HttpConn} {m : Run (HttpCode × HttpConn)}
    → IsKept c d
    → Sure (λ (code, e). IsKept d e) m
    → Sure (λ (code, e). IsKept c e) m
then-IsKept k (sure p) = sure (IsKept-trans k p)
then-IsKept k sure_fault = sure_fault
then-IsKept k sure_blocked = sure_blocked
then-IsKept k sure_exits = sure_exits

parse_url-Sure : (c : HttpConn) → Sure (λ (code, d). IsKept c d) (parse_url c)
unfolding parse_url
parse_url-Sure c = Sure-bind (skip_scheme-Sure (codes "http://") c) λ c_1 a.
    Sure-bind (skip_scheme-Sure (codes "https://") c_1) λ c_2 b.
      Sure-option c_2.url (sure (IsKept-trans a b)) λ url. Sure-bind (string_at-Sure c_2 url) λ s _.
        Sure-if (starts_with_slash s) (then-IsKept (IsKept-trans a b) (accept_url-Sure url s c_2))
          (sure (IsKept-trans a b))

parse_version-Sure : (url : ℕ) (c : HttpConn) → Sure (λ (code, d). IsKept c d) (parse_version url c)
unfolding parse_version
parse_version-Sure url c = Sure-bind (string_at-Sure c url) λ s _.
    let c_1 = record c { url = some (url + blanks s) } in
    Sure-bind (string_at-Sure c_1 (url + blanks s)) λ t _.
      Sure-option (find_blank t) (sure (is_kept refl refl (is_quiet refl refl refl))) λ n.
        Sure-bind (string_at-Sure (cut (url + blanks s + n) c_1) (url + blanks s + n + 1)) λ u _.
          let version = url + blanks s + n + 1 + blanks u in
          let c_2 = record (cut (url + blanks s + n) c_1) { version = some version } in
          Sure-bind (string_at-Sure c_2 version) λ v _.
            Sure-if (same_word v (codes "HTTP/1.1"))
              (then-IsKept (is_kept refl refl (is_quiet refl refl refl)) (parse_url-Sure c_2))
              (sure (is_kept refl refl (is_quiet refl refl refl)))

pub parse_request_line-Sure :
    (text : ℕ) (c : HttpConn) → Sure (λ (code, d). IsKept c d) (parse_request_line text c)
unfolding parse_request_line
parse_request_line-Sure text c = Sure-bind (string_at-Sure c text) λ s _.
    Sure-option (find_blank s) (sure (is_kept refl refl (is_quiet refl refl refl))) λ n.
      let c_1 = cut (text + n) (record c { url = some (text + n + 1) }) in
      Sure-bind (string_at-Sure c_1 text) λ m _.
        Sure-if (same_word m (codes "GET"))
          (then-IsKept (is_kept refl refl (is_quiet refl refl refl))
            (parse_version-Sure (text + n + 1) (record c_1 { method = get })))
          (Sure-if (same_word m (codes "POST"))
            (then-IsKept (is_kept refl refl (is_quiet refl refl refl))
              (parse_version-Sure (text + n + 1) (record c_1 { method = post; cgi = true })))
            (sure (is_kept refl refl (is_quiet refl refl refl))))

pub parse_headers-Sure :
    (text : ℕ) (c : HttpConn) → Sure (λ (code, d). IsKept c d) (parse_headers text c)
unfolding parse_headers
parse_headers-Sure text c = Sure-bind (string_at-Sure c text) λ s _.
    Sure-if (length s == 0)
      (Sure-if (is_zero c.content_length) (sure (is_kept refl refl (is_quiet refl refl refl)))
        (sure (is_kept refl refl (is_quiet refl refl refl))))
      (Sure-if (same_start 11 s (codes "Connection:"))
        (sure (
          IsKept-if (same_word (drop (11 + blanks (drop 11 s)) s) (codes "keep-alive"))
            (is_kept refl refl (is_quiet refl refl refl))
            (is_kept refl refl (is_quiet refl refl refl))))
        (Sure-if (same_start 15 s (codes "Content-Length:"))
          (sure (is_kept refl refl (is_quiet refl refl refl)))
          (Sure-if (same_start 5 s (codes "Host:"))
            (sure (is_kept refl refl (is_quiet refl refl refl)))
            (sure (is_kept refl refl (is_quiet refl refl refl))))))

end_body-Sure : (text : ℕ) (c : HttpConn) → Sure (IsKept c) (end_body text c)
unfolding end_body
end_body-Sure text c =
    let end = pos text +ℤ c.content_length in
    Sure-if (leb_ℤ (pos 0) end && ltb (pos_part end) (length c.read_buf))
      (sure (is_kept refl refl (is_quiet refl refl refl))) sure_fault

pub parse_content-Sure :
    (text : ℕ) (c : HttpConn) → Sure (λ (code, d). IsKept c d) (parse_content text c)
unfolding parse_content body_end
parse_content-Sure text c =
    Sure-bind {P = Any}
      (Sure-if (leb_ℤ (c.content_length +ℤ pos c.check_idx) (pos 2147483647)) (sure tt) sure_fault)
      λ end _.
        Sure-if (leb_ℤ end (pos c.read_idx))
          (Sure-bind (end_body-Sure text c) λ d k. sure (
            is_kept k.same_read k.same_check
              (is_quiet k.quiet.same_calls k.quiet.same_count k.quiet.same_sockfd)))
          (sure (is_kept refl refl (is_quiet refl refl refl)))
