-- ===== src/Http/Process/Body.antt =====
-- The body of a POST: what `process_read` does where it is there, and where a part of it is
-- missing.
use wzy_server.Prelude.{
  ℕ, suc, ◌+◌, ◌*◌, ◌^◌, ◌<◌, ◌≤◌, ◌≡◌, refl, ap, ◌∙◌, true, false, some, List, length, ok, arith,
  inl, ltb, set,
}
use wzy_server.Prelude.Int.{pos, ◌+ℤ◌, leb_ℤ}
use wzy_server.Http.{HttpConn, no_request, get_request, line_ok, line_open, check_state_connect}
use wzy_server.Http.Line.{parse_line}
use wzy_server.Http.Line.Lines.{IsPlain, HasAt, Unread, parse_line-open}
use wzy_server.Http.Request.{parse_content, end_body, body_end}
use wzy_server.Http.Resource.{Site, Users, do_request}
use wzy_server.Http.Process.{
  go_on, serve, round_in, round, in_body, look, read_rounds, process_read,
}
use wzy_server.Http.Process.Steps.{serves}

look-body :
    (c : HttpConn) → c.check_state ≡ check_state_connect → look line_ok c ≡ ok (true, line_ok, c)
unfolding look
look-body c state = let waits : in_body c.check_state ≡ true = ap in_body state in rw waits refl

look-behind :
    (c d : HttpConn)
    → parse_line c ≡ ok (line_open, d)
    → look line_open c ≡ ok (false, line_open, d)
unfolding look
look-behind c d e = ground arith

add_pos : (a b : ℕ) → pos a +ℤ pos b ≡ pos (a + b)
unfolding ◌+ℤ◌
add_pos a b = ground arith

all_there : (n at got : ℕ) → n + at ≤ got → leb_ℤ (pos (n + at)) (pos got) ≡ true
all_there n at got h = ground (arith, h)

not_there : (n at got : ℕ) → got < n + at → leb_ℤ (pos (n + at)) (pos got) ≡ false
not_there n at got h = ground (arith, h)

-- A sum that is an `int`.
body_end-fits :
    (n : ℕ) (c : HttpConn)
    → c.content_length ≡ pos n
    → n + c.check_idx < 2 ^ 31
    → body_end c ≡ ok (pos (n + c.check_idx))
unfolding body_end
body_end-fits n c len small =
    let sum : c.content_length +ℤ pos c.check_idx ≡ pos (n + c.check_idx) =
      ap (λ z. z +ℤ pos c.check_idx) len ∙ add_pos n c.check_idx in
    let fits : leb_ℤ (pos (n + c.check_idx)) (pos 2147483647) ≡ true = ground (arith, small) in
    simp (sum, fits) refl

parse_content-waits :
    (text n : ℕ) (c : HttpConn)
    → c.content_length ≡ pos n
    → n + c.check_idx < 2 ^ 31
    → c.read_idx < n + c.check_idx
    → parse_content text c ≡ ok (no_request, c)
unfolding parse_content
parse_content-waits text n c len small short =
    rw (body_end-fits n c len small, not_there n c.check_idx c.read_idx short) refl

-- The NUL behind a body of `n` bytes at `text`.
abbrev ended : ℕ → HttpConn → HttpConn
ended i c = record c { read_buf = set c.read_buf i 0 }

end_body-fits :
    (text n : ℕ) (c : HttpConn)
    → c.content_length ≡ pos n
    → text + n < length c.read_buf
    → end_body text c ≡ ok (ended (text + n) c)
unfolding end_body
end_body-fits text n c len fits =
    let end : pos text +ℤ c.content_length ≡ pos (text + n) =
      ap (λ z. pos text +ℤ z) len ∙ add_pos text n in
    let low : leb_ℤ (pos 0) (pos (text + n)) ≡ true = ground arith in
    let high : ltb (text + n) (length c.read_buf) ≡ true = ground (arith, fits) in
    simp (end, low, high) refl

parse_content-there :
    (text n : ℕ) (c : HttpConn)
    → c.content_length ≡ pos n
    → n + c.check_idx < 2 ^ 31
    → n + c.check_idx ≤ c.read_idx
    → text + n < length c.read_buf
    → parse_content text c ≡ ok (get_request, record (ended (text + n) c) { string = some text })
unfolding parse_content
parse_content-there text n c len small all fits =
    rw
      (
        body_end-fits n c len small,
        all_there n c.check_idx c.read_idx all,
        end_body-fits text n c len fits,
      )
      refl

module _ (site : Site) (users : Users) where
  waits_rounds :
      (fuel : ℕ) (c d e : HttpConn)
      → look line_ok c ≡ ok (true, line_ok, c)
      → round site c.start_line (record c { start_line = c.check_idx }) users
        ≡ ok (go_on line_open d)
      → look line_open d ≡ ok (false, line_open, e)
      → read_rounds (suc (suc fuel)) site line_ok c users ≡ ok (no_request, e, users)
  unfolding read_rounds
  waits_rounds fuel c d e found r ended = rw (found, r, ended) refl

  round-waits :
      (text : ℕ) (c : HttpConn)
      → c.check_state ≡ check_state_connect
      → parse_content text c ≡ ok (no_request, c)
      → round site text c users ≡ ok (go_on line_open c)
  unfolding round round_in
  round-waits text c state e = ap (λ s. round_in s site text c users) state ∙ rw e refl

  round-there :
      (text : ℕ) (c d : HttpConn)
      → c.check_state ≡ check_state_connect
      → parse_content text c ≡ ok (get_request, d)
      → round site text c users ≡ serve site d users
  unfolding round round_in
  round-there text c d state e = ap (λ s. round_in s site text c users) state ∙ rw e refl

  -- A body of which a part is missing: the answer is NO_REQUEST, and `m_check_idx` goes behind what
  -- has come.
  pub part_of_body :
      (c : HttpConn) (n : ℕ) (new : List ℕ)
      → c.check_state ≡ check_state_connect
      → c.content_length ≡ pos n
      → IsPlain new
      → Unread c new
      → length new < n
      → n + c.check_idx < 2 ^ 31
      → process_read site c users
        ≡ ok (
          no_request,
          record c { start_line = c.check_idx; check_idx = c.check_idx + length new },
          users,
        )
  unfolding process_read
  part_of_body c n new state len plain u short small =
      let c_1 : HttpConn = record c { start_line = c.check_idx } in
      let shape : 2 * c.read_idx + 2 ≡ suc (suc (2 * c.read_idx)) = omega arith in
      ap (λ k. read_rounds k site line_ok c users) shape
      ∙ waits_rounds (2 * c.read_idx) c c_1 (record c_1 { check_idx = c.check_idx + length new })
          (look-body c state)
          (round-waits c.start_line c_1 state
            (parse_content-waits c.start_line n c_1 len small (omega (arith, u.ends))))
          (look-behind c_1 (record c_1 { check_idx = c.check_idx + length new })
            (parse_line-open c_1 new plain (inl (record { bytes = u.bytes; ends = u.ends }))))

  -- A body that has come as a whole, and whose end is inside the buffer, is ended by a NUL and
  -- served.
  pub whole_body :
      (c : HttpConn) (n : ℕ)
      → c.check_state ≡ check_state_connect
      → c.content_length ≡ pos n
      → n + c.check_idx < 2 ^ 31
      → n + c.check_idx ≤ c.read_idx
      → c.start_line + n < length c.read_buf
      → process_read site c users
        ≡ do_request site
            (record (ended (c.start_line + n) c) {
              start_line = c.check_idx;
              string = some c.start_line;
            })
            users
  unfolding process_read
  whole_body c n state len small all fits =
      let c_1 : HttpConn = record c { start_line = c.check_idx } in
      let shape : 2 * c.read_idx + 2 ≡ suc (2 * c.read_idx + 1) = omega arith in
      let d : HttpConn = record (ended (c.start_line + n) c_1) { string = some c.start_line } in
      ap (λ k. read_rounds k site line_ok c users) shape
      ∙ serves site users (2 * c.read_idx + 1) c c d (look-body c state) (
          round-there c.start_line c_1 d state
            (parse_content-there c.start_line n c_1 len small all fits))

  -- In the state for the body, with a Content-Length of `n` that added to the bytes read is an
  -- `int`: a body of `n` bytes without line ends that comes in two parts, neither of them empty, is
  -- not served: the answer is NO_REQUEST after the first part, and again after the second, when all
  -- of it is there.
  pub split_body_waits :
      (c : HttpConn) (n : ℕ) (first second buf : List ℕ)
      → c.check_state ≡ check_state_connect
      → c.content_length ≡ pos n
      → IsPlain first
      → IsPlain second
      → 0 < length first
      → 0 < length second
      → length first + length second ≡ n
      → n + c.read_idx < 2 ^ 31
      → Unread c first
      → HasAt buf (c.check_idx + length first) second
      → (let d = record c { start_line = c.check_idx; check_idx = c.check_idx + length first } in
          let e = record d { read_buf = buf; read_idx = c.read_idx + length second } in
          (process_read site c users ≡ ok (no_request, d, users))
          × (n + c.check_idx ≤ e.read_idx)
          × (process_read site e users
              ≡ ok (
                no_request,
                record e { start_line = e.check_idx; check_idx = e.check_idx + length second },
                users,
              )))
  split_body_waits c n first second buf state len plain_1 plain_2 some_1 some_2 all small u bytes =
      let d : HttpConn = record c {
        start_line = c.check_idx;
        check_idx = c.check_idx + length first;
      } in
      let e : HttpConn = record d { read_buf = buf; read_idx = c.read_idx + length second } in
      (
        part_of_body c n first state len plain_1 u (omega arith) (omega (arith, u.ends)),
        omega (arith, u.ends),
        part_of_body e n second state len plain_2
            (record { bytes = bytes; ends = omega (arith, u.ends) }) (omega arith)
            (omega (arith, u.ends)),
      )
