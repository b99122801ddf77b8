-- ===== src/Http/Process.antt =====
-- http/http_conn.cpp: `process_read`, the main state machine, and `process`, what a worker calls.
pub mod Rounds
pub mod Closes
pub mod Counted
pub mod Ended
pub mod Steps
pub mod Headed
pub mod Requests
pub mod Answers
pub mod Body
mod Tests
use wzy_server.Prelude.{
  ℕ, zero, suc, ◌+◌, ◌*◌, Bool, true, false, not, ◌&&◌, if◌then◌else◌, Run, ok, fault, out_of_fuel,
  ◌>>=◌,
}
use wzy_server.Http.{
  HttpConn, HttpCode, no_request, get_request, bad_request, internal_error, LineStatus, line_ok,
  line_bad, line_open, CheckState, check_state_requestline, check_state_header, check_state_connect,
  close_conn, modfd, epollin, epollout,
}
use wzy_server.Http.Line.{parse_line, is_line_ok}
use wzy_server.Http.Request.{parse_request_line, parse_headers, parse_content}
use wzy_server.Http.Resource.{Site, Users, do_request}
use wzy_server.Http.Response.{process_write}

pub data Next : Type 0 where
  stop : HttpCode → HttpConn → Users → Next
  go_on : LineStatus → HttpConn → Next

pub served : HttpCode × HttpConn × Users → Next
served (code, c, users) = stop code c users

abbrev pub is_bad_request : HttpCode → Bool
is_bad_request bad_request = true
is_bad_request _ = false

abbrev pub is_get_request : HttpCode → Bool
is_get_request get_request = true
is_get_request _ = false

-- A complete request: the loop ends with what `do_request` gives.
pub serve : Site → HttpConn → Users → Run Next
unfolding served
serve site c users = do all ← do_request site c users; ok (served all)

-- The body of the loop in one state, on the line that starts at `text`.
pub round_in : CheckState → Site → ℕ → HttpConn → Users → Run Next
unfolding serve
round_in check_state_requestline site text c users = do
  (ret, c) ← parse_request_line text c
  if is_bad_request ret then ok (stop bad_request c users) else ok (go_on line_ok c)
round_in check_state_header site text c users = do
  (ret, c) ← parse_headers text c
  if is_bad_request ret
      then ok (stop bad_request c users)
      else if is_get_request ret
      then serve site c users
      else ok (go_on line_ok c)
round_in check_state_connect site text c users = do
  (ret, c) ← parse_content text c
  if is_get_request ret then serve site c users else ok (go_on line_open c)

pub round : Site → ℕ → HttpConn → Users → Run Next
unfolding round_in
round site text c users = round_in c.check_state site text c users

abbrev pub in_body : CheckState → Bool
in_body check_state_connect = true
in_body _ = false

-- The condition of the loop: whether there is a round, and the status. In the state for the body no
-- line is looked for, as long as the status is `line_ok`.
pub look : LineStatus → HttpConn → Run (Bool × LineStatus × HttpConn)
look status c =
    let find = (do (found, c) ← parse_line c; ok (is_line_ok found, found, c)) in
    if in_body c.check_state && is_line_ok status then ok (true, line_ok, c) else find

-- The loop, on fuel.
pub read_rounds : ℕ → Site → LineStatus → HttpConn → Users → Run (HttpCode × HttpConn × Users)
unfolding round look
read_rounds zero site status c users = out_of_fuel
read_rounds (suc fuel) site status c users = do
  (again, status, c) ← look status c
  if not again then ok (no_request, c, users) else (do
    next ← round site c.start_line (record c { start_line = c.check_idx }) users
    elim next [
      | stop code c users ↦ ok (code, c, users)
      | go_on status c ↦ read_rounds fuel site status c users
    ])

-- Every round but one takes bytes off what is unread, so twice the bytes read are rounds enough.
unfoldable pub process_read : Site → HttpConn → Users → Run (HttpCode × HttpConn × Users)
unfolding read_rounds
process_read site c users = read_rounds (2 * c.read_idx + 2) site line_ok c users

-- The end of `process` behind `process_read`.
pub respond : HttpCode → HttpConn → Run HttpConn
respond no_request c = ok (modfd epollin c)
respond code c = do
  (written, c) ← process_write code c
  let c = if written then c else close_conn true c
  ok (modfd epollout c)

unfoldable pub process : Site → HttpConn → Users → Run (HttpConn × Users)
unfolding process_read respond
process site c users = do
  (code, c, users) ← process_read site c users
  c ← respond code c
  ok (c, users)
