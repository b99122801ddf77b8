-- ===== src/Http/Resource.antt =====
-- http/http_conn.cpp: `do_request`, the file that a request stands for, with login and
-- registration.
pub mod Ends
pub mod Accounts
pub mod Plain
use wzy_server.Prelude.{
  ℕ, zero, suc, ◌+◌, ◌-◌, Bool, true, false, not, ◌&&◌, ◌||◌, ◌==◌, if◌then◌else◌, Option, none,
  some, List, [], ◌∷◌, ◌++◌, length, take, drop, replicate, ltb, leb, Run, ok, fault, ◌>>=◌, codes,
  eqb, c_string, splice, or_fault, get_elem?,
}
use wzy_server.Http.{
  HttpConn, HttpCode, no_resource, forbidden_request, bad_request, file_request, filename_len,
}
use wzy_server.Http.Request.{string_at, find_slash}

-- `m_file_stat`, as far as it is looked at.
pub record FileStat : Type 0 where
  pub size : ℕ
  pub others_read : Bool
  pub directory : Bool

-- The surroundings of a connection: `doc_root`, `stat`, `open` and `mmap` by the path (an address
-- and the content behind it), the database connection `mysql` or the null pointer, and whether
-- `mysql_query` fails on a statement.
pub record Site : Type 0 where
  pub doc_root : List ℕ
  pub stat : List ℕ → Option FileStat
  pub map_file : List ℕ → ℕ × List ℕ
  pub mysql : Option ℕ
  pub query_fails : List ℕ → Bool

-- The map `users`: names with passwords. A name that is put in again stands further in front.
abbrev pub Users : Type 0
Users = List (List ℕ × List ℕ)

unfoldable pub find_user : List ℕ → Users → Option (List ℕ)
unfolding eqb
find_user name [] = none
find_user name ((n, p) ∷ users) =
    let rest = find_user name users in if eqb n name then some p else rest

-- `strrchr(s, '/')`, as an offset.
unfoldable pub last_slash : List ℕ → Option ℕ
last_slash [] = none
last_slash (x ∷ xs) = elim (last_slash xs) [
  | none ↦ if x == b'/' then some 0 else none
  | some n ↦ some (suc n)
]

-- The bytes in front of the first `stop`, wherever it is.
pub up_to : ℕ → List ℕ → Run (List ℕ)
up_to stop [] = fault
up_to stop (x ∷ xs) =
    let rest = up_to stop xs in if x == stop then ok [] else (do s ← rest; ok (x ∷ s))

-- Bytes and a NUL put into an array of `size` bytes.
pub fits_in : ℕ → List ℕ → Run (List ℕ)
fits_in size s = if ltb (length s) size then ok s else fault

-- `name` and `password`, out of `user=123&password=123` in `m_string`.
pub credentials : HttpConn → Run (List ℕ × List ℕ)
unfolding up_to fits_in
credentials c = do
  text ← or_fault c.string
  raw ← up_to b'&' (drop (text + 5) c.read_buf)
  raw ← fits_in 100 raw
  name ← c_string (raw ++ 0 ∷ [])
  password ← c_string (drop (text + 5 + length raw + 10) c.read_buf)
  password ← fits_in 100 password
  ok (name, password)

-- `strcpy(m_url, s)` with `m_url` at `url`.
pub put_url : ℕ → List ℕ → HttpConn → Run HttpConn
put_url url s c = do buf ← splice c.read_buf url (s ++ 0 ∷ []); ok (record c { read_buf = buf })

abbrev pub sql_insert : List ℕ → List ℕ → List ℕ
sql_insert name password =
    codes "INSERT INTO user(username, password) VALUES("
    ++ codes "'"
    ++ name
    ++ codes "', '"
    ++ password
    ++ codes "')"

-- `mysql_query`, which needs a connection.
unfoldable pub mysql_query : Site → List ℕ → Run Bool
mysql_query site sql = elim site.mysql [ none ↦ fault | some con ↦ ok (site.query_fails sql) ]

-- Registration: the page that the client gets, and the users.
pub register : Site → List ℕ → List ℕ → Users → Run (List ℕ × Users)
unfolding fits_in mysql_query
register site name password users = do
  sql ← fits_in 200 (sql_insert name password)
  elim (find_user name users) [
    | none ↦ do
      failed ← mysql_query site sql
      let users = (name, password) ∷ users
      if failed then ok (codes "/registerError.html", users) else ok (codes "/log.html", users)
    | some _ ↦ ok (codes "/registerError.html", users)
  ]

-- Login: the page that the client gets, from what is found under the name.
pub login_page : Option (List ℕ) → List ℕ → List ℕ
login_page none password = codes "/logError.html"
login_page (some p) password =
    if eqb p password then codes "/welcome.html" else codes "/logError.html"

pub login : List ℕ → List ℕ → Users → List ℕ
unfolding login_page
login name password users = login_page (find_user name users) password

-- `strncpy(m_real_file + len, s, n)`, with `n` at most the room there.
pub put_path : ℕ → ℕ → List ℕ → HttpConn → Run HttpConn
put_path len n s c = do
  buf ← splice c.real_file len (take n (s ++ replicate n 0))
  ok (record c { real_file = buf })

-- The byte behind the last slash of the URL, `*(p+1)`.
pub byte_at : ℕ → HttpConn → Run ℕ
byte_at p c = or_fault (get_elem? c.read_buf p)

-- The part for `cgi`: `url` is `m_url`, `kind` is `*(p+1)`.
pub serve_cgi : Site → (url len kind : ℕ) → HttpConn → Users → Run (HttpConn × Users)
unfolding put_path credentials register login put_url fits_in
serve_cgi site url len kind c users = do
  s ← string_at c url
  short ← fits_in 200 (b'/' ∷ drop 2 s)
  c ← put_path len (filename_len - len - 1) short c
  (name, password) ← credentials c
  (page, users) ←
      if kind == b'3'
      then register site name password users
      else ok (login name password users, users)
  c ← put_url url page c
  ok (c, users)

-- The path behind `doc_root`: a page of its own for five digits, else the URL.
pub choose_path : (url len kind : ℕ) → HttpConn → Run HttpConn
unfolding put_path
choose_path url len kind c =
    let page = λ (s : List ℕ). put_path len (length s) s c in
    if kind == b'0'
    then page (codes "/register.html")
    else if kind == b'1'
    then page (codes "/log.html")
    else if kind == b'5'
    then page (codes "/picture.html")
    else if kind == b'6'
    then page (codes "/video.html")
    else if kind == b'7'
    then page (codes "/fans.html")
    else (do s ← string_at c url; put_path len (filename_len - len - 1) s c)

-- The look at the file, and its mapping.
pub open_file : Site → HttpConn → Run (HttpCode × HttpConn)
open_file site c = do
  path ← c_string c.real_file
  elim (site.stat path) [
    | none ↦ ok (no_resource, c)
    | some st ↦
        let c = record c { file_size = st.size } in
        if not st.others_read
        then ok (forbidden_request, c)
        else if st.directory
        then ok (bad_request, c)
        else ok (
          file_request,
          record c { file_address = (site.map_file path).0; file = (site.map_file path).1 },
        )
  ]

unfoldable pub do_request : Site → HttpConn → Users → Run (HttpCode × HttpConn × Users)
unfolding last_slash byte_at serve_cgi choose_path open_file
do_request site c users = do
  let len = length site.doc_root
  buf ← splice c.real_file 0 (site.doc_root ++ 0 ∷ [])
  let c = record c { real_file = buf }
  url ← or_fault c.url
  s ← string_at c url
  p ← or_fault (last_slash s)
  kind ← byte_at (url + p + 1) c
  (c, users) ←
      if c.cgi && ((kind == b'2') || (kind == b'3'))
      then serve_cgi site url len kind c users
      else ok (c, users)
  kind ← byte_at (url + p + 1) c
  c ← choose_path url len kind c
  (code, c) ← open_file site c
  ok (code, c, users)
