-- ===== src/Http/Process/Tests.antt =====
-- Requests as clients send them, and the theorems about them.
use wzy_server.Prelude.{
  ℕ, ◌≡◌, refl, true, false, [], ◌∷◌, ◌++◌, List, some, ok, codes, length, replicate, show_ℤ,
  Returns, arith, ◌||◌, ◌≤◌,
}
use wzy_server.Prelude.Int.{pos}
use wzy_server.Samples.{blank_conn as blank, one_file as site}
use wzy_server.Http.{HttpConn, no_request, filename_len, check_state_header, check_state_connect}
use wzy_server.Http.Line.Lines.{IsPlain}
use wzy_server.Http.Line.Cut.{Layout}
use wzy_server.Http.Request.{string_at, parse_headers, parse_request_line, same_start}
use wzy_server.Http.Request.Stages.{version_text, line_text, line_cut, asked, behind_method}
use wzy_server.Http.Request.Headers.{keeps_alive}
use wzy_server.Http.Request.Numbers.{content_length_read}
use wzy_server.Http.Request.Printed.{parse_request_line-printed, home_page_fits}
use wzy_server.Http.Resource.{last_slash}
use wzy_server.Http.Resource.Plain.{answer, content}
use wzy_server.Http.Process.{process_read}
use wzy_server.Http.Process.Body.{split_body_waits}
use wzy_server.Http.Process.Headed.{AllHeaders, wire, any_keeps_alive}
use wzy_server.Http.Process.Requests.{IsFresh}
use wzy_server.Http.Process.Answers.{get_is_answered}

abbrev page : List ℕ
page = codes "/a.html"

abbrev headers : List (List ℕ)
headers = codes "Host: x" ∷ codes "Connection: keep-alive" ∷ []

abbrev request : List ℕ
request = codes "GET /a.html HTTP/1.1\r\nHost: x\r\nConnection: keep-alive\r\n\r\n"

abbrev asks_page : HttpConn
asks_page = record blank {
  read_buf = request ++ replicate 4 0;
  read_idx = length request;
  real_file = replicate filename_len 0;
}

asks_page-IsFresh : IsFresh asks_page
asks_page-IsFresh = record { state = refl; starts = refl; no_body = refl }

page-IsPlain : IsPlain page
page-IsPlain = ground arith

asks_page-Layout :
    Layout asks_page [] (line_text false page ++ b'\r' ∷ b'\n' ∷ wire headers []) (replicate 4 0)
asks_page-Layout = record { bytes = refl; looked = refl; got = refl }

headers-AllHeaders : AllHeaders headers
unfolding same_start
headers-AllHeaders = (
  record { long = refl; plain = ground arith; text = ground arith; other = refl },
  (record { long = refl; plain = ground arith; text = ground arith; other = refl }, tt),
)

get_is_answered_example :
    Returns
      (λ (code, d, us).
        (code ≡ answer (site.stat (site.doc_root ++ page)))
        × (d.file ≡ content site (site.doc_root ++ page) [])
        × (d.linger ≡ (any_keeps_alive headers || false))
        × (us ≡ []))
      (process_read site asks_page [])
unfolding last_slash
get_is_answered_example =
    get_is_answered site [] asks_page b'a' (codes ".html") headers [] (replicate 4 0) 0 b'a'
      asks_page-IsFresh refl refl (ground arith) page-IsPlain headers-AllHeaders asks_page-Layout
      refl refl (ground arith) (omega arith) (ground arith)

kept_open : keeps_alive (codes "Connection: keep-alive") ≡ true
unfolding keeps_alive
kept_open = refl

-- The line of a request is in the buffer, cut off, with the next one behind it.
abbrev posts_page : HttpConn
posts_page = record blank { read_buf = codes "POST /a.html HTTP/1.1" ++ 0 ∷ 0 ∷ codes "Host: x" }

parse_request_line-printed_example :
    (let d =
        line_cut (asked true posts_page) 5 (behind_method true []) page (0 ∷ codes "Host: x") in
      (parse_request_line 0 posts_page
        ≡ ok (no_request, record d { check_state = check_state_header }))
      × (string_at d 5 ≡ ok page)
      × (string_at d 13 ≡ ok version_text))
parse_request_line-printed_example =
    parse_request_line-printed true posts_page [] b'a' (codes ".html") (0 ∷ codes "Host: x")
      (ground arith) refl

abbrev asks_home : HttpConn
asks_home = record blank { read_buf = codes "GET / HTTP/1.1" ++ 0 ∷ 0 ∷ codes "Host: x" }

home_page_fits_example :
    (let d = record (asked false asks_home) {
      read_buf = (codes "GET" ++ 0 ∷ []) ++ (codes "/judge.html" ++ 0 ∷ codes "Host: x");
      url = some 4;
      version = some 6;
      check_state = check_state_header;
    } in
      (parse_request_line 0 asks_home ≡ ok (no_request, d))
      × (string_at d 4 ≡ ok (codes "/judge.html")))
home_page_fits_example = home_page_fits false asks_home [] (codes "Host: x") refl

-- The first four bytes of a body of six have come.
abbrev half_body : HttpConn
half_body = record blank {
  read_buf = 0 ∷ 0 ∷ codes "user" ++ replicate 4 0;
  read_idx = 6;
  check_idx = 2;
  start_line = 2;
  check_state = check_state_connect;
  content_length = pos 6;
}

abbrev half_looked : HttpConn
half_looked = record half_body { check_idx = 6 }

abbrev all_come : HttpConn
all_come = record half_looked { read_buf = 0 ∷ 0 ∷ codes "user=a" ++ replicate 2 0; read_idx = 8 }

split_body_waits_example :
    (process_read site half_body [] ≡ ok (no_request, half_looked, []))
    × (8 ≤ 8)
    × (process_read site all_come []
        ≡ ok (no_request, record all_come { start_line = 6; check_idx = 8 }, []))
split_body_waits_example =
    split_body_waits site [] half_body 6 (codes "user") (codes "=a") all_come.read_buf refl refl
      (ground arith) (ground arith) (omega arith) (omega arith) (omega arith) (omega arith)
      (ground arith) (ground arith)

abbrev long_body : HttpConn
long_body = record blank { read_buf = codes "Content-Length: 42" ++ 0 ∷ [] }

content_length_read_example :
    parse_headers 0 long_body ≡ ok (no_request, record long_body { content_length = pos 42 })
unfolding string_at show_ℤ
content_length_read_example = content_length_read long_body 0 42 (omega arith) refl
