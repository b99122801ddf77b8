-- ===== src/Http/Process/Headed.antt =====
-- The rounds of `process_read` on the headers of a request without a body.
use wzy_server.Prelude.{
  ℕ, zero, suc, ◌+◌, ◌<◌, ◌≡◌, refl, sym, ap, ◌∙◌, Bool, true, false, ◌||◌, ◌==◌, List, [], ◌∷◌,
  ◌++◌, length, length-append, append_assoc, arith,
}
use wzy_server.Prelude.Int.{pos}
use wzy_server.Http.{HttpConn, line_ok, check_state_header}
use wzy_server.Http.Line.{cr, lf}
use wzy_server.Http.Line.Lines.{IsPlain}
use wzy_server.Http.Line.Cut.{Layout, parse_line-cut}
use wzy_server.Http.Request.Words.{IsText, string_at-text}
use wzy_server.Http.Request.Headers.{
  keeps_alive, host_in, IsOther, parse_headers-other, parse_headers-end,
}
use wzy_server.Http.Resource.{Site, Users, do_request}
use wzy_server.Http.Process.{read_rounds, in_body}
use wzy_server.Http.Process.Steps.{look-line, goes_on, serves, round-header, round-end}

-- A header line as a client sends it, other than Content-Length: not empty, without NUL and the
-- bytes that end lines.
pub record IsHeader (s : List ℕ) : Type 0 where
  pub long : (length s == 0) ≡ false
  pub plain : IsPlain s
  pub text : IsText s
  pub other : IsOther s

abbrev pub AllHeaders : List (List ℕ) → Type 0
AllHeaders [] = Unit {0}
AllHeaders (s ∷ hs) = IsHeader s × AllHeaders hs

-- Headers with their ends, the empty line, and what follows.
abbrev pub wire : List (List ℕ) → List ℕ → List ℕ
wire [] more = cr ∷ lf ∷ more
wire (s ∷ hs) more = s ++ cr ∷ lf ∷ wire hs more

-- Whether one of the headers asks to keep the connection open.
abbrev pub any_keeps_alive : List (List ℕ) → Bool
any_keeps_alive [] = false
any_keeps_alive (s ∷ hs) = any_keeps_alive hs || keeps_alive s

-- A connection that expects a header, and has `new` to look through.
pub record AtHeader (c : HttpConn) (front new spare : List ℕ) : Type 0 where
  pub layout : Layout c front new spare
  pub starts : c.start_line ≡ length front
  pub state : c.check_state ≡ check_state_header
  pub no_body : c.content_length ≡ pos 0

-- What the headers leave of a connection whose buffer starts with `front`.
pub record Headed (c d : HttpConn) (front : List ℕ) (keeps : Bool) : Type 0 where
  pub same_method : d.method ≡ c.method
  pub same_url : d.url ≡ c.url
  pub same_version : d.version ≡ c.version
  pub same_cgi : d.cgi ≡ c.cgi
  pub same_path : d.real_file ≡ c.real_file
  pub same_file : d.file ≡ c.file
  pub linger : d.linger ≡ (keeps || c.linger)
  pub behind : List ℕ
  pub bytes : d.read_buf ≡ front ++ behind

-- The connection after a header `s`.
abbrev past : HttpConn → (front s rest : List ℕ) → HttpConn
past c front s rest = record c {
  check_idx = length front + length s + 2;
  start_line = length front + length s + 2;
  read_buf = front ++ (s ++ 0 ∷ 0 ∷ rest);
  linger = keeps_alive s || c.linger;
  host = host_in c.start_line s c.host;
}

abbrev front_past : (front s : List ℕ) → List ℕ
front_past front s = front ++ (s ++ 0 ∷ 0 ∷ [])

past-AtHeader :
    (c : HttpConn) (front s new spare : List ℕ)
    → AtHeader c front (s ++ cr ∷ lf ∷ new) spare
    → AtHeader (past c front s (new ++ spare)) (front_past front s) new spare
past-AtHeader c front s new spare v =
    let len : length (front_past front s) ≡ length front + length s + 2 =
      omega (arith, length-append front (s ++ 0 ∷ 0 ∷ []), length-append s (0 ∷ 0 ∷ [])) in
    record {
      layout = record {
        bytes = sym (
            append_assoc front (s ++ 0 ∷ 0 ∷ []) (new ++ spare)
            ∙ ap (λ r. front ++ r) (append_assoc s (0 ∷ 0 ∷ []) (new ++ spare)));
        looked = sym len;
        got = omega (arith, len, v.layout.got, length-append s (cr ∷ lf ∷ new));
      };
      starts = sym len;
      state = v.state;
      no_body = v.no_body;
    }

module _ (site : Site) (users : Users) (c : HttpConn) (front spare : List ℕ) where
  header_line :
      (fuel : ℕ) (s new : List ℕ)
      → IsHeader s
      → AtHeader c front (s ++ cr ∷ lf ∷ new) spare
      → read_rounds (suc fuel) site line_ok c users
        ≡ read_rounds fuel site line_ok (past c front s (new ++ spare)) users
  header_line fuel s new h v =
      let d : HttpConn = record c {
        check_idx = length front + length s + 2;
        read_buf = front ++ (s ++ 0 ∷ 0 ∷ (new ++ spare));
      } in
      let d_1 : HttpConn = record d { start_line = d.check_idx } in
      goes_on site users fuel c d (past c front s (new ++ spare))
        (look-line c d (ap in_body v.state) (parse_line-cut c front s new spare h.plain v.layout))
        (round-header site users d.start_line d_1 (past c front s (new ++ spare)) v.state (
          parse_headers-other d_1 d.start_line s
            (string_at-text d_1 d.start_line front s (0 ∷ (new ++ spare)) (sym v.starts) refl
              h.text)
            h.long h.other))

  last_line :
      (fuel : ℕ) (more : List ℕ)
      → AtHeader c front (cr ∷ lf ∷ more) spare
      → (d : HttpConn) × (read_rounds (suc fuel) site line_ok c users ≡ do_request site d users)
        × Headed c d front false
  last_line fuel more v =
      let d : HttpConn = record c {
        check_idx = length front + 0 + 2;
        read_buf = front ++ 0 ∷ 0 ∷ (more ++ spare);
      } in
      let d_1 : HttpConn = record d { start_line = d.check_idx } in
      (
        d_1,
        serves site users fuel c d d_1
            (look-line c d (ap in_body v.state) (parse_line-cut c front [] more spare tt v.layout))
            (round-end site users d.start_line d_1 d_1 v.state (
              parse_headers-end d_1 d.start_line
                (string_at-text d_1 d.start_line front [] (0 ∷ (more ++ spare)) (sym v.starts) refl
                  tt)
                v.no_body)),
        record {
          same_method = refl;
          same_url = refl;
          same_version = refl;
          same_cgi = refl;
          same_path = refl;
          same_file = refl;
          linger = refl;
          behind = 0 ∷ 0 ∷ (more ++ spare);
          bytes = refl;
        },
      )

-- What the headers behind one leave, and so what they leave with it.
past-Headed :
    (c d : HttpConn) (front s rest : List ℕ) (keeps : Bool)
    → Headed (past c front s rest) d (front_past front s) keeps
    → Headed c d front (keeps || keeps_alive s)
past-Headed c d front s rest keeps v = record {
  same_method = v.same_method;
  same_url = v.same_url;
  same_version = v.same_version;
  same_cgi = v.same_cgi;
  same_path = v.same_path;
  same_file = v.same_file;
  linger = v.linger ∙ sym (or_assoc keeps (keeps_alive s) c.linger);
  behind = (s ++ 0 ∷ 0 ∷ []) ++ v.behind;
  bytes = v.bytes ∙ append_assoc front (s ++ 0 ∷ 0 ∷ []) v.behind;
}
  where
    or_assoc : (a b x : Bool) → ((a || b) || x) ≡ (a || (b || x))
    or_assoc true b x = refl
    or_assoc false b x = refl

-- Headers that are no Content-Length, and the empty line, lead to `do_request`.
pub headers_served :
    (site : Site) (users : Users) (fuel : ℕ) (c : HttpConn) (front spare : List ℕ)
    (hs : List (List ℕ)) (more : List ℕ)
    → AllHeaders hs
    → length hs < fuel
    → AtHeader c front (wire hs more) spare
    → (d : HttpConn) × (read_rounds fuel site line_ok c users ≡ do_request site d users)
      × Headed c d front (any_keeps_alive hs)
headers_served site users zero c front spare hs more all few v = absurd (omega arith)
headers_served site users (suc fuel) c front spare [] more all few v =
    last_line site users c front spare fuel more v
headers_served site users (suc fuel) c front spare (s ∷ hs) more (h, all) few v =
    let c_1 = past c front s (wire hs more ++ spare) in
    let (d, served, headed) =
      headers_served site users fuel c_1 (front_past front s) spare hs more all (omega arith)
        (past-AtHeader c front s (wire hs more) spare v) in
    (
      d,
      header_line site users c front spare fuel s (wire hs more) h v ∙ served,
      past-Headed c d front s (wire hs more ++ spare) (any_keeps_alive hs) headed,
    )
