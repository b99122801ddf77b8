-- ===== src/Http/Tests.antt =====
-- Runs of a connection, and its theorems at concrete connections.
use wzy_server.Prelude.{
  ◌≡◌, refl, true, false, [], ◌∷◌, ◌++◌, Option, none, some, ok, out_of_fuel, Run, Returns, outcome,
  outcome-ok, arith, codes, replicate, ◌>>=◌, length, splice,
}
use wzy_server.Prelude.Int.{pos, negsuc, ◌-ℤ◌}
use wzy_server.Samples.{blank_conn as blank, one_file as site}
use wzy_server.Http.{
  HttpConn, HttpCode, bad_request, file_request, no_resource, forbidden_request, in_write_buf,
  in_file, init, addfd, read, gets, would_block, line_ok, rearms, closes, removes, epollout,
}
use wzy_server.Http.Line.{cr, lf, parse_line}
use wzy_server.Http.Line.Lines.{IsPlain, Unread, parse_line-line, parse_line-resumes}
use wzy_server.Http.Request.{string_at, parse_request_line, parse_headers}
use wzy_server.Http.Resource.{Users, do_request, find_user, register, login}
use wzy_server.Http.Resource.Accounts.{register-login}
use wzy_server.Http.Response.{process_write, error_403_title, error_403_form}
use wzy_server.Http.Response.Written.{IsWritable, written, page_text}
use wzy_server.Http.Response.Pages.{
  page_403, page_400, page_404, FileReady, process_write-page, process_write-file,
}
use wzy_server.Http.Process.{process_read, process, respond}
use wzy_server.Http.Process.Ended.{Ended, process-Ended}
use wzy_server.Http.Process.Rounds.{process_read_ends}
use wzy_server.Http.Process.Closes.{respond_closes}

abbrev result : Run (HttpCode × HttpConn × Users) → Option HttpCode
result (ok (code, c, users)) = some code
result _ = none

get_page :
    result (do
      (_, c) ←
          read
            (gets (codes "GET /a.html HTTP/1.1\r\nHost: x\r\n\r\n") ∷ would_block ∷ [])
            (init (pos 5) 1 blank)
      process_read site c [])
    ≡ some file_request
unfolding process_read read init splice parse_line parse_request_line string_at parse_headers
    do_request addfd
get_page = refl

-- Two bytes of a line and its end have come in.
abbrev one_line : HttpConn
one_line = record blank { read_buf = codes "ab\r\nc" ++ replicate 3 0; read_idx = 5 }

IsPlain-ab : IsPlain (codes "ab")
IsPlain-ab = ground arith

one_line-Unread : Unread one_line (codes "ab" ++ cr ∷ lf ∷ codes "c")
one_line-Unread = ground arith

parse_line-line_example :
    parse_line one_line
    ≡ ok (
      line_ok,
      record one_line {
        check_idx = 4;
        read_buf = codes "ab" ++ 0 ∷ 0 ∷ codes "c" ++ replicate 3 0;
      },
    )
parse_line-line_example =
    parse_line-line one_line (codes "ab") (codes "c") IsPlain-ab one_line-Unread

parse_line-resumes_example : parse_line one_line ≡ parse_line (record one_line { check_idx = 2 })
parse_line-resumes_example =
    parse_line-resumes one_line (codes "ab") (cr ∷ lf ∷ codes "c") IsPlain-ab one_line-Unread

-- A connection at the descriptor 5 with nothing written.
abbrev fresh : HttpConn
fresh = record blank {
  sockfd = pos 5;
  write_buf = replicate 1024 0;
  user_count = pos 1;
  file_size = 3;
}

fresh-IsWritable : IsWritable fresh
fresh-IsWritable = record { sized = refl; inside = omega arith }

process_write-page_example :
    Returns
      (λ (done, d).
        (done ≡ true)
        × (written d
            ≡ page_text (pos 403) error_403_title (length error_403_form) error_403_form false))
      (process_write forbidden_request fresh)
process_write-page_example = process_write-page page_403 fresh fresh-IsWritable refl

process_write-file_example :
    Returns (λ (done, d). (done ≡ true) × FileReady fresh d) (process_write file_request fresh)
process_write-file_example = process_write-file fresh fresh-IsWritable refl (omega arith)

respond_closes_example :
    Returns
      (λ d.
        (d.calls ≡ rearms (negsuc 0) epollout ∷ closes (pos 5) ∷ removes (pos 5) ∷ [])
        × (d.user_count ≡ pos 1 -ℤ pos 1))
      (respond no_resource fresh)
respond_closes_example = respond_closes page_404 fresh 5 refl fresh-IsWritable refl refl

-- A response "hd" with the file "abc".
abbrev ready : HttpConn
ready = record blank {
  sockfd = pos 5;
  write_buf = codes "hd" ++ replicate 4 0;
  write_idx = 2;
  file_address = 77;
  file = codes "abc";
  file_size = 3;
  iv_0 = record { iov_base = in_write_buf (pos 0); iov_len = 2 };
  iv_1 = record { iov_base = in_file (pos 0); iov_len = 3 };
  iv_count = 2;
}

process_read_ends_example : ¬ (process_read site one_line [] ≡ out_of_fuel)
process_read_ends_example = process_read_ends site one_line []

abbrev known : Users
known = (codes "ann", codes "x") ∷ []

bob_free : find_user (codes "bob") known ≡ none
unfolding find_user
bob_free = refl

register-login_example :
    Returns
      (λ (page, users).
        (page ≡ codes "/log.html")
        × (login (codes "bob") (codes "y") users ≡ codes "/welcome.html"))
      (register site (codes "bob") (codes "y") known)
register-login_example =
    register-login site 11 (codes "bob") (codes "y") known refl bob_free (omega arith)

-- Half of a request line, read.
abbrev half_request : HttpConn
half_request = record blank { sockfd = pos 7; read_buf = codes "GE" ++ replicate 3 0; read_idx = 2 }

-- A request line that is refused with 400.
abbrev refused_request : HttpConn
refused_request = record fresh { read_buf = codes "GE" ++ 13 ∷ 10 ∷ replicate 3 0; read_idx = 4 }

abbrev seen_refused : HttpConn
seen_refused = record refused_request {
  read_buf = codes "GE" ++ replicate 5 0;
  check_idx = 4;
  start_line = 4;
}

refused_read : process_read site refused_request [] ≡ ok (bad_request, seen_refused, [])
unfolding process_read parse_line parse_request_line string_at
refused_read = refl

refused_IsWritable : IsWritable seen_refused
refused_IsWritable = record { sized = refl; inside = omega arith }

refused_closed :
    Returns
      (λ d.
        (d.calls ≡ rearms (negsuc 0) epollout ∷ closes (pos 5) ∷ removes (pos 5) ∷ [])
        × (d.user_count ≡ pos 1 -ℤ pos 1))
      (respond bad_request seen_refused)
refused_closed = respond_closes page_400 seen_refused 5 refl refused_IsWritable refl refl

after_refusal : HttpConn
after_refusal = outcome refused_closed

refusal_done : process site refused_request [] ≡ ok (after_refusal, [])
unfolding process after_refusal
refusal_done = rw (refused_read, outcome-ok refused_closed) refl

process-Ended_example :
    (code : HttpCode) × (seen : HttpConn) × (process_read site refused_request []
      ≡ ok (code, seen, []))
    × Ended code 5 refused_request seen after_refusal
process-Ended_example = process-Ended site refused_request after_refusal [] [] 5 refl refusal_done
