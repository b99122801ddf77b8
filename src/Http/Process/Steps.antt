-- ===== src/Http/Process/Steps.antt =====
-- One round of `process_read` on a line that is found.
use wzy_server.Prelude.{
  ℕ, suc, ◌≡◌, refl, ap, ◌∙◌, true, false, ok, fault, blocked, exits, out_of_fuel, Run, ◌>>=◌,
}
use wzy_server.Http.{
  HttpConn, HttpCode, no_request, get_request, line_ok, check_state_requestline, check_state_header,
}
use wzy_server.Http.Line.{parse_line}
use wzy_server.Http.Request.{parse_request_line, parse_headers}
use wzy_server.Http.Resource.{Site, Users, do_request}
use wzy_server.Http.Process.{
  stop, go_on, served, serve, round_in, round, in_body, look, read_rounds,
}

pub look-line :
    (c d : HttpConn)
    → in_body c.check_state ≡ false
    → parse_line c ≡ ok (line_ok, d)
    → look line_ok c ≡ ok (true, line_ok, d)
unfolding look
look-line c d no_body e = rw (no_body, e) refl

module _ (site : Site) (users : Users) where
  -- A round that goes on, and one that serves the request.
  pub goes_on :
      (fuel : ℕ) (c d e : HttpConn)
      → look line_ok c ≡ ok (true, line_ok, d)
      → round site d.start_line (record d { start_line = d.check_idx }) users ≡ ok (go_on line_ok e)
      → read_rounds (suc fuel) site line_ok c users ≡ read_rounds fuel site line_ok e users
  unfolding read_rounds
  goes_on fuel c d e found r = rw (found, r) refl

  served_all :
      (fuel : ℕ) (m : Run (HttpCode × HttpConn × Users))
      → (do
        next ← (do all ← m; ok (served all))
        elim next [
          | stop code c users ↦ ok (code, c, users)
          | go_on status c ↦ read_rounds fuel site status c users
        ])
        ≡ m
  unfolding served
  served_all fuel (ok all) = refl
  served_all fuel fault = refl
  served_all fuel blocked = refl
  served_all fuel exits = refl
  served_all fuel out_of_fuel = refl

  pub serves :
      (fuel : ℕ) (c d e : HttpConn)
      → look line_ok c ≡ ok (true, line_ok, d)
      → round site d.start_line (record d { start_line = d.check_idx }) users ≡ serve site e users
      → read_rounds (suc fuel) site line_ok c users ≡ do_request site e users
  unfolding read_rounds serve
  serves fuel c d e found r = rw (found, r) (served_all fuel (do_request site e users))

  pub round-request_line :
      (text : ℕ) (c d : HttpConn)
      → c.check_state ≡ check_state_requestline
      → parse_request_line text c ≡ ok (no_request, d)
      → round site text c users ≡ ok (go_on line_ok d)
  unfolding round round_in
  round-request_line text c d state e = ap (λ s. round_in s site text c users) state ∙ rw e refl

  pub round-header :
      (text : ℕ) (c d : HttpConn)
      → c.check_state ≡ check_state_header
      → parse_headers text c ≡ ok (no_request, d)
      → round site text c users ≡ ok (go_on line_ok d)
  unfolding round round_in
  round-header text c d state e = ap (λ s. round_in s site text c users) state ∙ rw e refl

  pub round-end :
      (text : ℕ) (c d : HttpConn)
      → c.check_state ≡ check_state_header
      → parse_headers text c ≡ ok (get_request, d)
      → round site text c users ≡ serve site d users
  unfolding round round_in
  round-end text c d state e = ap (λ s. round_in s site text c users) state ∙ rw e refl
