-- ===== src/Http/Process/Rounds.antt =====
-- `process_read` always ends: every round but one takes bytes off what is unread.
use wzy_server.Prelude.{
  ℕ, zero, suc, ◌+◌, ◌*◌, ◌<◌, ◌≡◌, refl, ap, ◌∙◌, Bool, true, false, not, ◌&&◌, if◌then◌else◌,
  arith, ◌⊎◌, inl, inr, Bool-cases, ok, out_of_fuel, ◌>>=◌, Sure, sure, Sure-bind, Sure-if,
  Sure-mono, not_out_of_fuel,
}
use wzy_server.Http.{
  HttpConn, HttpCode, no_request, LineStatus, line_ok, CheckState, check_state_requestline,
  check_state_header, check_state_connect,
}
use wzy_server.Http.Watched.{IsQuiet, is_quiet, IsQuiet-trans}
use wzy_server.Http.Line.{is_line_ok}
use wzy_server.Http.Line.Advance.{left, parse_line-Sure}
use wzy_server.Http.Request.Kept.{
  IsKept, parse_request_line-Sure, parse_headers-Sure, parse_content-Sure,
}
use wzy_server.Http.Resource.{Site, Users}
use wzy_server.Http.Resource.Ends.{do_request-Sure}
use wzy_server.Http.Process.{
  Next, stop, go_on, served, serve, is_bad_request, is_get_request, round_in, round, in_body, look,
  read_rounds, process_read,
}

abbrev weight : LineStatus → HttpConn → ℕ
weight status c = 2 * left c + (if is_line_ok status then 1 else 0)

-- What the condition finds: no round; the body's round, on the same connection; or a line.
LookEnds : LineStatus → HttpConn → Bool × LineStatus × HttpConn → Type 0
LookEnds status c (again, found, d) =
    IsQuiet c d
    × ((again ≡ true)
        → (d.check_state ≡ c.check_state)
          × (((in_body c.check_state ≡ true) × (is_line_ok status ≡ true) × (left d ≡ left c))
              ⊎ (left d < left c)))

look-Sure : (status : LineStatus) (c : HttpConn) → Sure (LookEnds status c) (look status c)
unfolding look LookEnds
look-Sure status c = elim (Bool-cases (in_body c.check_state && is_line_ok status)) [
  | inl waits ↦ rw waits (
      sure (
        is_quiet refl refl refl,
        λ e. (refl, inl (ground (arith, waits), ground (arith, waits), refl)),
      ))
  | inr finds ↦ rw finds (
      Sure-bind (parse_line-Sure c)
        λ (found, d) (shorter, same, quiet). sure (quiet, λ e. (same, inr (shorter e))))
]

-- What a round leaves to go on with.
RoundEnds : CheckState → HttpConn → Next → Type 0
RoundEnds state c (stop code d users) = IsQuiet c d
RoundEnds state c (go_on status d) =
    IsKept c d × ((in_body state ≡ true) → is_line_ok status ≡ false)

serve-Sure :
    (state : CheckState) (site : Site) (c d : HttpConn) (users : Users)
    → IsQuiet c d
    → Sure (RoundEnds state c) (serve site d users)
unfolding serve served RoundEnds
serve-Sure state site c d users quiet =
    Sure-bind (do_request-Sure site d users) λ (code, e, us) more. sure (IsQuiet-trans quiet more)

round_in-Sure :
    (state : CheckState) (site : Site) (text : ℕ) (c : HttpConn) (users : Users)
    → Sure (RoundEnds state c) (round_in state site text c users)
unfolding round_in RoundEnds
round_in-Sure check_state_requestline site text c users =
    Sure-bind (parse_request_line-Sure text c)
      λ (ret, d) k. Sure-if (is_bad_request ret) (sure k.quiet) (sure (k, λ e. cc))
round_in-Sure check_state_header site text c users =
    Sure-bind (parse_headers-Sure text c) λ (ret, d) k.
      Sure-if (is_bad_request ret) (sure k.quiet) (
        Sure-if (is_get_request ret) (serve-Sure check_state_header site c d users k.quiet)
          (sure (k, λ e. cc)))
round_in-Sure check_state_connect site text c users =
    Sure-bind (parse_content-Sure text c) λ (ret, d) k.
      Sure-if (is_get_request ret) (serve-Sure check_state_connect site c d users k.quiet)
        (sure (k, λ e. refl))

abbrev started : HttpConn → HttpConn
started c = record c { start_line = c.check_idx }

left-started : (c d : HttpConn) → IsKept (started c) d → left d ≡ left c
left-started c d k = omega (arith, k.same_read, k.same_check)

started-IsQuiet : {c d : HttpConn} → IsQuiet c d → IsQuiet c (started d)
started-IsQuiet k = is_quiet k.same_calls k.same_count k.same_sockfd

-- A round makes the weight smaller.
lighter :
    (status found : LineStatus) (c d e : HttpConn) (after : LineStatus)
    → LookEnds status c (true, found, d)
    → RoundEnds d.check_state (started d) (go_on after e)
    → weight after e < weight status c
unfolding LookEnds RoundEnds
lighter status found c d e after looked (k, quiet) =
    let same = left-started d e k in
    elim (looked.1 refl).1 [
      | inl (body, waiting, still) ↦
          let over = quiet (ap in_body (looked.1 refl).0 ∙ body) in
          ground (arith, same, still, over, waiting)
      | inr shorter ↦ ground (arith, same, shorter)
    ]

read_rounds-Sure :
    (fuel : ℕ) (site : Site) (status : LineStatus) (c : HttpConn) (users : Users)
    → weight status c < fuel
    → Sure (λ (code, d, us). IsQuiet c d) (read_rounds fuel site status c users)
unfolding read_rounds round LookEnds RoundEnds
read_rounds-Sure zero site status c users h = absurd (omega (arith, h))
read_rounds-Sure (suc fuel) site status c users h =
    Sure-bind (look-Sure status c) λ (again, found, d) looked.
      go (λ after e lt. read_rounds-Sure fuel site after e users lt) again found d looked
  where
    Further : Type 0
    Further =
        (after : LineStatus) (e : HttpConn)
        → weight after e < fuel
        → Sure (λ (code, d, us). IsQuiet e d) (read_rounds fuel site after e users)

    on :
        Further
        → (found : LineStatus) (d : HttpConn) → LookEnds status c (true, found, d)
        → (next : Next) → RoundEnds d.check_state (started d) next
        → Sure {A = HttpCode × HttpConn × Users}
            (λ (code, e, us). IsQuiet c e)
            (elim next [
              | stop code c users ↦ ok (code, c, users)
              | go_on status c ↦ read_rounds fuel site status c users
            ])
    on further found d looked (stop code e us) p = sure (IsQuiet-trans (started-IsQuiet looked.0) p)
    on further found d looked (go_on after e) p =
        let quiet = IsQuiet-trans (started-IsQuiet looked.0) p.0.quiet in
        Sure-mono (further after e (omega (arith, h, lighter status found c d e after looked p)))
          λ (code, f, us) more. IsQuiet-trans quiet more

    go :
        Further
        → (again : Bool) (found : LineStatus) (d : HttpConn) → LookEnds status c (again, found, d)
        → Sure {A = HttpCode × HttpConn × Users}
            (λ (code, e, us). IsQuiet c e)
            (if not again
              then ok (no_request, d, users)
              else (round site d.start_line (started d) users >>= λ next. elim next [
                | stop code c users ↦ ok (code, c, users)
                | go_on status c ↦ read_rounds fuel site status c users
              ]))
    go further false found d looked = sure looked.0
    go further true found d looked =
        Sure-bind (round_in-Sure d.check_state site d.start_line (started d) users)
          λ next p. on further found d looked next p

-- What `process_read` gives, if it returns.
pub process_read-Sure :
    (site : Site) (c : HttpConn) (users : Users)
    → Sure (λ (code, d, us). IsQuiet c d) (process_read site c users)
unfolding process_read
process_read-Sure site c users =
    read_rounds-Sure (2 * c.read_idx + 2) site line_ok c users (omega arith)

-- `process_read` never runs out of the rounds that it is given, so its loop ends on every input.
pub process_read_ends :
    (site : Site) (c : HttpConn) (users : Users) → ¬ (process_read site c users ≡ out_of_fuel)
process_read_ends site c users = not_out_of_fuel (process_read-Sure site c users)
