-- ===== src/Http/Process/Requests.antt =====
-- A whole request without a body, from its first byte to `do_request`.
use wzy_server.Prelude.{
  ℕ, suc, ◌+◌, ◌*◌, ◌≤◌, ◌<◌, ◌≡◌, refl, sym, ap, ◌∙◌, Bool, true, false, ◌||◌, if◌then◌else◌, some,
  List, [], ◌∷◌, ◌++◌, length, length-append, append_assoc, ok, arith,
}
use wzy_server.Prelude.Int.{pos}
use wzy_server.Http.{HttpConn, line_ok, get, post, check_state_requestline, check_state_header}
use wzy_server.Http.Line.{cr, lf}
use wzy_server.Http.Line.Lines.{IsPlain}
use wzy_server.Http.Line.Cut.{Layout, parse_line-cut}
use wzy_server.Http.Request.{string_at}
use wzy_server.Http.Request.Words.{IsWord, IsWord-IsText, string_at-text}
use wzy_server.Http.Request.Stages.{
  version_text, method_text, line_text, line_cut, asked, behind_method, url_start,
  length-behind_method,
}
use wzy_server.Http.Request.Printed.{parse_request_line-printed}
use wzy_server.Http.Resource.{Site, Users, do_request}
use wzy_server.Http.Process.{read_rounds, process_read, in_body, round}
use wzy_server.Http.Process.Steps.{look-line, goes_on, round-request_line}
use wzy_server.Http.Process.Headed.{AllHeaders, wire, any_keeps_alive, AtHeader, headers_served}

IsPlain-append : (s t : List ℕ) → IsPlain s → IsPlain t → IsPlain (s ++ t)
IsPlain-append [] t g h = h
IsPlain-append (x ∷ s) t (no_cr, no_lf, g) h = (no_cr, no_lf, IsPlain-append s t g h)

method-IsPlain : (posts : Bool) → IsPlain (method_text posts)
method-IsPlain false = ground arith
method-IsPlain true = ground arith

length-wire : (hs : List (List ℕ)) (more : List ℕ) → length hs ≤ length (wire hs more)
length-wire [] more = omega arith
length-wire (s ∷ hs) more =
    omega (arith, length-append s (cr ∷ lf ∷ wire hs more), length-wire hs more)

-- A connection that has looked at nothing yet.
pub record IsFresh (c : HttpConn) : Type 0 where
  pub state : c.check_state ≡ check_state_requestline
  pub starts : c.start_line ≡ 0
  pub no_body : c.content_length ≡ pos 0

module _ (posts : Bool) (x : ℕ) (u : List ℕ) where
  abbrev url_text : List ℕ
  url_text = b'/' ∷ x ∷ u

  line-IsPlain : IsPlain url_text → IsPlain (line_text posts url_text)
  line-IsPlain h =
      IsPlain-append (method_text posts) (b' ' ∷ (url_text ++ b' ' ∷ version_text))
        (method-IsPlain posts)
        (
          (λ e. ground arith),
          (λ e. ground arith),
          IsPlain-append url_text (b' ' ∷ version_text) h (ground arith),
        )

  -- What stands in the buffer once the line is read.
  abbrev front_line : List ℕ
  front_line = behind_method posts [] ++ (url_text ++ 0 ∷ (version_text ++ 0 ∷ 0 ∷ []))

  front_line-append :
      (rest : List ℕ)
      → behind_method posts [] ++ (url_text ++ 0 ∷ (version_text ++ 0 ∷ 0 ∷ rest))
        ≡ front_line ++ rest
  front_line-append rest =
      let tail : List ℕ = 0 ∷ (version_text ++ 0 ∷ 0 ∷ []) in
      sym (
        append_assoc (behind_method posts []) (url_text ++ tail) rest
        ∙ ap (λ r. behind_method posts [] ++ r) (append_assoc url_text tail rest))

  length-front_line : length front_line ≡ 0 + length (line_text posts url_text) + 2
  length-front_line = omega (
    arith,
    length-append (behind_method posts []) (url_text ++ 0 ∷ (version_text ++ 0 ∷ 0 ∷ [])),
    length-append (method_text posts) (0 ∷ []),
    length-append url_text (0 ∷ (version_text ++ 0 ∷ 0 ∷ [])),
    length-append (method_text posts) (b' ' ∷ (url_text ++ b' ' ∷ version_text)),
    length-append url_text (b' ' ∷ version_text),
  )

  -- The connection behind the round of the request line.
  abbrev line_done : HttpConn → List ℕ → HttpConn
  line_done c rest =
      let i : ℕ = 0 + length (line_text posts url_text) + 2 in
      record (line_cut (asked posts (record c { check_idx = i; start_line = i }))
        (url_start posts []) (behind_method posts []) url_text (0 ∷ rest)) {
          check_state = check_state_header;
        }

  request_line :
      (site : Site) (users : Users) (c : HttpConn) (fuel : ℕ) (new spare : List ℕ)
      → IsFresh c
      → IsWord url_text
      → IsPlain url_text
      → Layout c [] (line_text posts url_text ++ cr ∷ lf ∷ new) spare
      → read_rounds (suc fuel) site line_ok c users
        ≡ read_rounds fuel site line_ok (line_done c (new ++ spare)) users
  request_line site users c fuel new spare fresh word plain v =
      let line : List ℕ = line_text posts url_text in
      let i : ℕ = 0 + length line + 2 in
      let d : HttpConn = record c { check_idx = i; read_buf = line ++ 0 ∷ 0 ∷ (new ++ spare) } in
      let d_1 : HttpConn = record d { start_line = i } in
      goes_on site users fuel c d (line_done c (new ++ spare))
        (look-line c d (ap in_body fresh.state)
          (parse_line-cut c [] line new spare (line-IsPlain plain) v))
        (ap (λ text. round site text d_1 users) fresh.starts
          ∙ round-request_line site users 0 d_1 (line_done c (new ++ spare)) fresh.state
              (parse_request_line-printed posts d_1 [] x u (0 ∷ (new ++ spare)) word refl).0)

  line_done-AtHeader :
      (c : HttpConn) (new spare : List ℕ)
      → IsFresh c
      → Layout c [] (line_text posts url_text ++ cr ∷ lf ∷ new) spare
      → AtHeader (line_done c (new ++ spare)) front_line new spare
  line_done-AtHeader c new spare fresh v = record {
    layout = record {
      bytes = front_line-append (new ++ spare);
      looked = sym length-front_line;
      got = omega (
        arith,
        length-front_line,
        v.got,
        length-append (line_text posts url_text) (cr ∷ lf ∷ new),
      );
    };
    starts = sym length-front_line;
    state = refl;
    no_body = fresh.no_body;
  }

  -- A GET, or a POST without a body, that has come in as a whole, of a URL that starts with a slash
  -- and has one byte more, with any headers but a Content-Length, goes to `do_request` with the
  -- method, the URL and the wish to keep the connection open that the client has sent. Bytes that
  -- have come in behind it make no difference.
  pub request_is_served :
      (site : Site) (users : Users) (c : HttpConn) (hs : List (List ℕ)) (more spare : List ℕ)
      → IsFresh c
      → IsWord url_text
      → IsPlain url_text
      → AllHeaders hs
      → Layout c [] (line_text posts url_text ++ cr ∷ lf ∷ wire hs more) spare
      → (d : HttpConn) × (process_read site c users ≡ do_request site d users)
        × (d.method ≡ (if posts then post else get))
        × (d.url ≡ some (url_start posts []))
        × (string_at d (url_start posts []) ≡ ok url_text)
        × (d.cgi ≡ (posts || c.cgi))
        × (d.linger ≡ (any_keeps_alive hs || c.linger))
        × (d.real_file ≡ c.real_file)
        × (d.file ≡ c.file)
  unfolding process_read
  request_is_served site users c hs more spare fresh word plain all v =
      let new = wire hs more in
      let fuel = 2 * c.read_idx + 1 in
      let shape : 2 * c.read_idx + 2 ≡ suc fuel = omega arith in
      let few : length hs < fuel = omega (
        arith,
        v.got,
        length-wire hs more,
        length-append (line_text posts url_text) (cr ∷ lf ∷ new),
      ) in
      let (d, served, headed) =
        headers_served site users fuel (line_done c (new ++ spare)) front_line spare hs more all few
          (line_done-AtHeader c new spare fresh v) in
      (
        d,
        ap (λ n. read_rounds n site line_ok c users) shape
            ∙ request_line site users c fuel new spare fresh word plain v
            ∙ served,
        headed.same_method,
        headed.same_url,
        string_at-text d (url_start posts []) (behind_method posts []) url_text
            (version_text ++ 0 ∷ 0 ∷ headed.behind) (length-behind_method posts [])
            (headed.bytes ∙ sym (front_line-append headed.behind)) (IsWord-IsText url_text word),
        headed.same_cgi,
        headed.linger,
        headed.same_path,
        headed.same_file,
      )
