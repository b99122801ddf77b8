-- ===== src/Http/Resource/Ends.antt =====
-- `do_request` always ends, and makes no system call on the connection's descriptor.
use wzy_server.Prelude.{
  ℕ, refl, ◌+◌, ◌-◌, not, ◌&&◌, ◌||◌, ◌==◌, if◌then◌else◌, List, [], ◌∷◌, ◌++◌, length, take, drop,
  replicate, ltb, ok, codes, get_elem?, Sure, sure, sure_fault, Sure-bind, Sure-if, Sure-option,
  Any, Sure-or_fault, splice-Sure, c_string-Sure,
}
use wzy_server.Http.{HttpConn, filename_len}
use wzy_server.Http.Watched.{IsQuiet, is_quiet, IsQuiet-trans}
use wzy_server.Http.Request.Kept.{string_at-Sure}
use wzy_server.Http.Resource.{
  Site, Users, find_user, last_slash, up_to, fits_in, credentials, put_url, sql_insert, mysql_query,
  register, login, put_path, byte_at, serve_cgi, choose_path, open_file, do_request,
}

up_to-Sure : (stop : ℕ) (s : List ℕ) → Sure Any (up_to stop s)
unfolding up_to
up_to-Sure stop [] = sure_fault
up_to-Sure stop (x ∷ xs) =
    Sure-if (x == stop) (sure tt) (Sure-bind (up_to-Sure stop xs) λ s _. sure tt)

fits_in-Sure : (size : ℕ) (s : List ℕ) → Sure Any (fits_in size s)
unfolding fits_in
fits_in-Sure size s = Sure-if (ltb (length s) size) (sure tt) sure_fault

credentials-Sure : (c : HttpConn) → Sure Any (credentials c)
unfolding credentials
credentials-Sure c = Sure-bind (Sure-or_fault c.string) λ text _.
    Sure-bind (up_to-Sure b'&' (drop (text + 5) c.read_buf)) λ raw _.
      Sure-bind (fits_in-Sure 100 raw) λ kept _.
        Sure-bind (c_string-Sure (kept ++ 0 ∷ [])) λ name _.
          Sure-bind (c_string-Sure (drop (text + 5 + length kept + 10) c.read_buf))
            λ password _. Sure-bind (fits_in-Sure 100 password) λ password _. sure tt

register-Sure :
    (site : Site) (name password : List ℕ) (users : Users)
    → Sure Any (register site name password users)
unfolding register mysql_query
register-Sure site name password users =
    Sure-bind (fits_in-Sure 200 (sql_insert name password)) λ sql _.
      Sure-option (find_user name users)
        (Sure-bind {P = Any} (Sure-option site.mysql sure_fault λ con. sure tt)
          λ failed _. Sure-if failed (sure tt) (sure tt))
        λ p. sure tt

put_path-Sure : (len n : ℕ) (s : List ℕ) (c : HttpConn) → Sure (IsQuiet c) (put_path len n s c)
unfolding put_path
put_path-Sure len n s c =
    Sure-bind (splice-Sure c.real_file len (take n (s ++ replicate n 0)))
      λ buf _. sure (is_quiet refl refl refl)

put_url-Sure : (url : ℕ) (s : List ℕ) (c : HttpConn) → Sure (IsQuiet c) (put_url url s c)
unfolding put_url
put_url-Sure url s c =
    Sure-bind (splice-Sure c.read_buf url (s ++ 0 ∷ [])) λ buf _. sure (is_quiet refl refl refl)

answer-Sure :
    (site : Site) (kind : ℕ) (name password : List ℕ) (users : Users)
    → Sure Any (
        if kind == b'3'
        then register site name password users
        else ok (login name password users, users))
answer-Sure site kind name password users =
    Sure-if (kind == b'3') (register-Sure site name password users) (sure tt)

serve_cgi-Sure :
    (site : Site) (url len kind : ℕ) (c : HttpConn) (users : Users)
    → Sure (λ (d, us). IsQuiet c d) (serve_cgi site url len kind c users)
unfolding serve_cgi
serve_cgi-Sure site url len kind c users = Sure-bind (string_at-Sure c url) λ s _.
    Sure-bind (fits_in-Sure 200 (b'/' ∷ drop 2 s)) λ short _.
      Sure-bind (put_path-Sure len (filename_len - len - 1) short c) λ c kept.
        Sure-bind (credentials-Sure c) λ (name, password) _.
          Sure-bind (answer-Sure site kind name password users) λ (page, users) _.
            Sure-bind (put_url-Sure url page c) λ c more. sure (IsQuiet-trans kept more)

choose_path-Sure : (url len kind : ℕ) (c : HttpConn) → Sure (IsQuiet c) (choose_path url len kind c)
unfolding choose_path
choose_path-Sure url len kind c =
    let page = λ (s : List ℕ). put_path-Sure len (length s) s c in
    Sure-if (kind == b'0') (page (codes "/register.html")) (
      Sure-if (kind == b'1') (page (codes "/log.html")) (
        Sure-if (kind == b'5') (page (codes "/picture.html")) (
          Sure-if (kind == b'6') (page (codes "/video.html")) (
            Sure-if (kind == b'7') (page (codes "/fans.html")) (
              Sure-bind (string_at-Sure c url)
                λ s _. put_path-Sure len (filename_len - len - 1) s c)))))

open_file-Sure : (site : Site) (c : HttpConn) → Sure (λ (code, d). IsQuiet c d) (open_file site c)
unfolding open_file
open_file-Sure site c = Sure-bind (c_string-Sure c.real_file) λ path _.
    Sure-option (site.stat path) (sure (is_quiet refl refl refl)) λ st.
      Sure-if (not st.others_read) (sure (is_quiet refl refl refl))
        (Sure-if st.directory (sure (is_quiet refl refl refl)) (sure (is_quiet refl refl refl)))

cgi-Sure :
    (site : Site) (url len kind : ℕ) (c : HttpConn) (users : Users)
    → Sure
        (λ (d, us). IsQuiet c d)
        (if c.cgi && ((kind == b'2') || (kind == b'3'))
          then serve_cgi site url len kind c users
          else ok (c, users))
cgi-Sure site url len kind c users =
    Sure-if (c.cgi && ((kind == b'2') || (kind == b'3'))) (serve_cgi-Sure site url len kind c users)
      (sure (is_quiet refl refl refl))

pub do_request-Sure :
    (site : Site) (c : HttpConn) (users : Users)
    → Sure (λ (code, d, us). IsQuiet c d) (do_request site c users)
unfolding do_request byte_at
do_request-Sure site c users =
    let len = length site.doc_root in
    Sure-bind (splice-Sure c.real_file 0 (site.doc_root ++ 0 ∷ [])) λ buf _.
      let c = record c { real_file = buf } in
      Sure-bind (Sure-or_fault c.url) λ url _. Sure-bind (string_at-Sure c url) λ s _.
        Sure-bind (Sure-or_fault (last_slash s)) λ p _.
          Sure-bind (Sure-or_fault (get_elem? c.read_buf (url + p + 1))) λ kind _.
            Sure-bind (cgi-Sure site url len kind c users) λ (c, users) q_1.
              Sure-bind (Sure-or_fault (get_elem? c.read_buf (url + p + 1))) λ kind _.
                Sure-bind (choose_path-Sure url len kind c) λ c q_2.
                  Sure-bind (open_file-Sure site c) λ (code, c) q_3. sure (
                    IsQuiet-trans (is_quiet refl refl refl)
                      (IsQuiet-trans q_1 (IsQuiet-trans q_2 q_3)))
