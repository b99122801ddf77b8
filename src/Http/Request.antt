-- ===== src/Http/Request.antt =====
-- http/http_conn.cpp: the request line, the headers and the body of a request.
pub mod Kept
pub mod Words
pub mod Headers
pub mod Numbers
pub mod Stages
pub mod Printed
use wzy_server.Prelude.{
  ℕ, zero, suc, ◌+◌, ◌-◌, ◌*◌, ◌%◌, ◌^◌, Bool, true, false, not, ◌&&◌, ◌||◌, ◌==◌, if◌then◌else◌,
  Option, none, some, List, [], ◌∷◌, ◌++◌, map, length, take, drop, set, ltb, leb, Run, ok, fault,
  ◌>>=◌, codes, eqb, c_string, splice, to_int, or_fault, get_elem?,
}
use wzy_server.Prelude.Int.{ℤ, pos, negsuc, ◌+ℤ◌, leb_ℤ, pos_part}
use wzy_server.Http.{
  HttpConn, HttpCode, no_request, get_request, bad_request, get, post, check_state_header,
  check_state_connect, read_buffer_size,
}

-- The C string at an index of the read buffer.
unfoldable pub string_at : HttpConn → ℕ → Run (List ℕ)
unfolding c_string
string_at c p = c_string (drop p c.read_buf)

-- `*p = '\0'` in the read buffer.
pub cut : ℕ → HttpConn → HttpConn
cut p c = record c { read_buf = set c.read_buf p 0 }

abbrev pub is_blank : ℕ → Bool
is_blank x = (x == b' ') || (x == b'\t')

-- `strpbrk(s, " \t")`, as an offset.
pub find_blank : List ℕ → Option ℕ
find_blank [] = none
find_blank (x ∷ xs) =
    let rest = find_blank xs in
    if is_blank x then some 0 else elim rest [ none ↦ none | some n ↦ some (suc n) ]

-- `strspn(s, " \t")`
pub blanks : List ℕ → ℕ
blanks [] = 0
blanks (x ∷ xs) = let rest = blanks xs in if is_blank x then suc rest else 0

-- `strchr(s, '/')`, as an offset.
pub find_slash : List ℕ → Option ℕ
find_slash [] = none
find_slash (x ∷ xs) =
    let rest = find_slash xs in
    if x == b'/' then some 0 else elim rest [ none ↦ none | some n ↦ some (suc n) ]

pub to_lower : ℕ → ℕ
to_lower x = if leb b'A' x && leb x b'Z' then x + 32 else x

-- `strcasecmp(s, t) == 0` and `strncasecmp(s, t, n) == 0`
unfoldable pub same_word : List ℕ → List ℕ → Bool
unfolding eqb to_lower
same_word s t = eqb (map to_lower s) (map to_lower t)

unfoldable pub same_start : ℕ → List ℕ → List ℕ → Bool
unfolding same_word
same_start n s t = same_word (take n s) (take n t)

-- `if(strncasecmp(m_url, scheme, n) == 0) { m_url += n; m_url = strchr(m_url, '/'); }`, a fault at
-- a null `m_url`.
pub skip_scheme : List ℕ → HttpConn → Run HttpConn
unfolding same_start find_slash
skip_scheme scheme c = do
  url ← or_fault c.url
  s ← string_at c url
  if same_start (length scheme) s scheme
      then ok (record c {
        url = elim (find_slash (drop (length scheme) s)) [
          | none ↦ none
          | some n ↦ some (url + length scheme + n)
        ];
      })
      else ok c

-- `if(strlen(m_url) == 1) strcat(m_url, "judge.html");` for a URL `s` at `url`, and the change of
-- state.
pub accept_url : ℕ → List ℕ → HttpConn → Run (HttpCode × HttpConn)
accept_url url s c = do
  buf ←
      if length s == 1
      then splice c.read_buf (url + 1) (codes "judge.html" ++ 0 ∷ [])
      else ok c.read_buf
  ok (no_request, record c { read_buf = buf; check_state = check_state_header })

-- `s[0] == '/'`
abbrev pub starts_with_slash : List ℕ → Bool
starts_with_slash [] = false
starts_with_slash (x ∷ xs) = x == b'/'

-- The URL from `m_url` on, once the version is cut off.
pub parse_url : HttpConn → Run (HttpCode × HttpConn)
unfolding skip_scheme accept_url
parse_url c = do
  c ← skip_scheme (codes "http://") c
  c ← skip_scheme (codes "https://") c
  elim c.url [
    | none ↦ ok (bad_request, c)
    | some url ↦ do
      s ← string_at c url
      if starts_with_slash s then accept_url url s c else ok (bad_request, c)
  ]

-- The version at `m_version`, which must be the one that the server speaks.
pub check_version : ℕ → HttpConn → Run (HttpCode × HttpConn)
unfolding same_word parse_url
check_version version c = do
  let c = record c { version = some version }
  v ← string_at c version
  if same_word v (codes "HTTP/1.1") then parse_url c else ok (bad_request, c)

-- The URL at `m_url` is cut off at the next blank, and the blanks before the version are skipped.
pub split_url : ℕ → HttpConn → Run (HttpCode × HttpConn)
unfolding find_blank blanks cut check_version
split_url url c = do
  let c = record c { url = some url }
  s ← string_at c url
  elim (find_blank s) [
    | none ↦ ok (bad_request, record c { version = none })
    | some n ↦ do
      let c = cut (url + n) c
      t ← string_at c (url + n + 1)
      check_version (url + n + 1 + blanks t) c
  ]

-- The URL and the version: `url` is behind where the method's end was cut.
pub parse_version : ℕ → HttpConn → Run (HttpCode × HttpConn)
unfolding blanks split_url
parse_version url c = do s ← string_at c url; split_url (url + blanks s) c

unfoldable pub parse_request_line : ℕ → HttpConn → Run (HttpCode × HttpConn)
unfolding find_blank same_word parse_version cut
parse_request_line text c = do
  s ← string_at c text
  elim (find_blank s) [
    | none ↦ ok (bad_request, record c { url = none })
    | some n ↦ do
      let c = cut (text + n) (record c { url = some (text + n + 1) })
      m ← string_at c text
      let version_get = parse_version (text + n + 1) (record c { method = get })
      let version_post = parse_version (text + n + 1) (record c { method = post; cgi = true })
      if same_word m (codes "GET")
          then version_get
          else if same_word m (codes "POST")
          then version_post
          else ok (bad_request, c)
  ]

-- `atol`: white space, a sign, digits.
abbrev pub is_space : ℕ → Bool
is_space x = (x == b' ') || (leb 9 x && leb x 13)

pub read_digits : ℕ → List ℕ → ℕ
read_digits n [] = n
read_digits n (x ∷ xs) =
    let rest = read_digits (10 * n + (x - b'0')) xs in if leb b'0' x && leb x b'9' then rest else n

abbrev pub neg : ℕ → ℤ
neg zero = pos 0
neg (suc n) = negsuc n

pub atol : List ℕ → ℤ
unfolding read_digits
atol [] = pos 0
atol (x ∷ xs) =
    let rest = atol xs in
    if is_space x
    then rest
    else if x == b'-'
    then neg (read_digits 0 xs)
    else if x == b'+'
    then pos (read_digits 0 xs)
    else pos (read_digits 0 (x ∷ xs))

-- A `long` stored in an `int`.
pub narrow : ℤ → ℤ
narrow (pos n) = to_int n
narrow (negsuc n) = to_int (2 ^ 32 - (n % 2 ^ 32) - 1)

abbrev pub is_zero : ℤ → Bool
is_zero (pos n) = n == 0
is_zero (negsuc n) = false

-- One header line. The log line for an unknown header is left out.
unfoldable pub parse_headers : ℕ → HttpConn → Run (HttpCode × HttpConn)
unfolding blanks same_word same_start atol narrow
parse_headers text c = do
  s ← string_at c text
  let value = λ (n : ℕ). drop (n + blanks (drop n s)) s
  if length s == 0
      then (if is_zero c.content_length
          then ok (get_request, c)
          else ok (no_request, record c { check_state = check_state_connect }))
      else if same_start 11 s (codes "Connection:")
      then ok (
        no_request,
        if same_word (value 11) (codes "keep-alive") then record c { linger = true } else c,
      )
      else if same_start 15 s (codes "Content-Length:")
      then ok (no_request, record c { content_length = narrow (atol (value 15)) })
      else if same_start 5 s (codes "Host:")
      then ok (no_request, record c { host = some (text + 5 + blanks (drop 5 s)) })
      else ok (no_request, c)

-- `text[m_content_length] = '\0'`, a fault outside the read buffer.
unfoldable pub end_body : ℕ → HttpConn → Run HttpConn
unfolding cut
end_body text c =
    let end = pos text +ℤ c.content_length in
    if leb_ℤ (pos 0) end && ltb (pos_part end) (length c.read_buf)
    then ok (cut (pos_part end) c)
    else fault

-- The `int` sum of `m_content_length` and `m_check_idx`, whose overflow is undefined.
unfoldable pub body_end : HttpConn → Run ℤ
body_end c =
    if leb_ℤ (c.content_length +ℤ pos c.check_idx) (pos 2147483647)
    then ok (c.content_length +ℤ pos c.check_idx)
    else fault

unfoldable pub parse_content : ℕ → HttpConn → Run (HttpCode × HttpConn)
unfolding end_body body_end
parse_content text c = do
  end ← body_end c
  if leb_ℤ end (pos c.read_idx)
      then (do c ← end_body text c; ok (get_request, record c { string = some text }))
      else ok (no_request, c)
