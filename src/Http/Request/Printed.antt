-- ===== src/Http/Request/Printed.antt =====
-- A request line as a client prints it, and what `parse_request_line` reads from it.
use wzy_server.Prelude.{
  ℕ, ◌+◌, ◌≡◌, refl, ap, ◌∙◌, sym, Bool, false, ◌==◌, some, List, [], ◌∷◌, ◌++◌, length, codes, eqb,
  append_assoc, ok, arith, length-append, splice, splice-append,
}
use wzy_server.Http.{HttpConn, no_request, check_state_header}
use wzy_server.Http.Request.{
  string_at, same_word, accept_url, parse_url, parse_request_line, same_start, to_lower,
}
use wzy_server.Http.Request.Stages.{
  version_text, line_cut, line_text, asked, behind_method, url_start, length-behind_method,
  parse_request_line-cut,
}
use wzy_server.Http.Request.Words.{IsWord, IsWord-IsText, string_at-text}

-- A URL of a slash, one more byte and the rest is accepted as it stands.
parse_url-plain :
    (c : HttpConn) (p x : ℕ) (u : List ℕ)
    → c.url ≡ some p
    → string_at c p ≡ ok (b'/' ∷ x ∷ u)
    → parse_url c ≡ ok (no_request, record c { check_state = check_state_header })
unfolding parse_url accept_url same_start same_word to_lower eqb
parse_url-plain c p x u place e =
    let long : (length (b'/' ∷ x ∷ u) == 1) ≡ false = ground arith in simp (place, e, long) refl

parse_url-home :
    (c : HttpConn) (p : ℕ) (buf : List ℕ)
    → c.url ≡ some p
    → string_at c p ≡ ok (b'/' ∷ [])
    → splice c.read_buf (p + 1) (codes "judge.html" ++ 0 ∷ []) ≡ ok buf
    → parse_url c ≡ ok (no_request, record c { read_buf = buf; check_state = check_state_header })
unfolding parse_url accept_url same_start same_word to_lower eqb
parse_url-home c p buf place e put = ground arith

-- A request line that is printed into the read buffer, a GET or a POST of a URL that starts with a
-- slash, has one byte more and neither blank nor NUL, is read back: the answer is NO_REQUEST, the
-- method, the URL and the version are those of the line, the next state is that of the headers, and
-- of the buffer only the two blanks have changed.
pub parse_request_line-printed :
    (posts : Bool) (c : HttpConn) (front : List ℕ) (x : ℕ) (u rest : List ℕ)
    → IsWord (b'/' ∷ x ∷ u)
    → c.read_buf ≡ front ++ (line_text posts (b'/' ∷ x ∷ u) ++ 0 ∷ rest)
    → (let p = url_start posts front in
        let d = line_cut (asked posts c) p (behind_method posts front) (b'/' ∷ x ∷ u) rest in
        (parse_request_line (length front) c
          ≡ ok (no_request, record d { check_state = check_state_header }))
        × (string_at d p ≡ ok (b'/' ∷ x ∷ u))
        × (string_at d (p + length (b'/' ∷ x ∷ u) + 1) ≡ ok version_text))
parse_request_line-printed posts c front x u rest h e =
    let url : List ℕ = b'/' ∷ x ∷ u in
    let front_1 : List ℕ = behind_method posts front in
    let p : ℕ = url_start posts front in
    let d : HttpConn = line_cut (asked posts c) p front_1 url rest in
    let at = length-behind_method posts front in
    let s =
      string_at-text d p front_1 url (version_text ++ 0 ∷ rest) at refl (IsWord-IsText url h) in
    let there : length ((front_1 ++ url) ++ 0 ∷ []) ≡ p + length url + 1 =
      omega (arith, length-append (front_1 ++ url) (0 ∷ []), length-append front_1 url, at) in
    let e_2 : d.read_buf ≡ ((front_1 ++ url) ++ 0 ∷ []) ++ (version_text ++ 0 ∷ rest) =
      sym (append_assoc front_1 url (0 ∷ (version_text ++ 0 ∷ rest)))
      ∙ sym (append_assoc (front_1 ++ url) (0 ∷ []) (version_text ++ 0 ∷ rest)) in
    (
      parse_request_line-cut posts c front (x ∷ u) rest h e ∙ parse_url-plain d p x u refl s,
      s,
      string_at-text d (p + length url + 1) ((front_1 ++ url) ++ 0 ∷ []) version_text rest there e_2
          (ground arith),
    )

-- The name of the home page, put behind a URL that is only a slash, ends exactly at the end of a
-- printed request line: for a GET or a POST of "/" the answer is NO_REQUEST, the URL that is read
-- is "/judge.html", and what stands behind the two NULs of the line's end is left as it was.
pub home_page_fits :
    (posts : Bool) (c : HttpConn) (front rest : List ℕ)
    → c.read_buf ≡ front ++ (line_text posts (codes "/") ++ 0 ∷ 0 ∷ rest)
    → (let p = url_start posts front in
        let d = record (asked posts c) {
          read_buf = behind_method posts front ++ (codes "/judge.html" ++ 0 ∷ rest);
          url = some p;
          version = some (p + 1 + 1);
          check_state = check_state_header;
        } in
        (parse_request_line (length front) c ≡ ok (no_request, d))
        × (string_at d p ≡ ok (codes "/judge.html")))
home_page_fits posts c front rest e =
    let front_1 : List ℕ = behind_method posts front in
    let p : ℕ = url_start posts front in
    let d : HttpConn = line_cut (asked posts c) p front_1 (codes "/") (0 ∷ rest) in
    let name : List ℕ = codes "judge.html" ++ 0 ∷ [] in
    let old : List ℕ = 0 ∷ (version_text ++ 0 ∷ 0 ∷ []) in
    let buf : List ℕ = front_1 ++ (codes "/judge.html" ++ 0 ∷ rest) in
    let at = length-behind_method posts front in
    let s =
      string_at-text d p front_1 (codes "/") (version_text ++ 0 ∷ 0 ∷ rest) at refl
        (ground arith) in
    let behind : length (front_1 ++ b'/' ∷ []) ≡ p + 1 =
      omega (arith, length-append front_1 (b'/' ∷ []), at) in
    let put : splice d.read_buf (p + 1) name ≡ ok buf =
      ap (λ b. splice b (p + 1) name) (sym (append_assoc front_1 (b'/' ∷ []) (old ++ rest)))
      ∙ ap (λ n. splice ((front_1 ++ b'/' ∷ []) ++ (old ++ rest)) n name) (sym behind)
      ∙ splice-append (front_1 ++ b'/' ∷ []) old name rest refl
      ∙ ap ok (append_assoc front_1 (b'/' ∷ []) (name ++ rest)) in
    (
      parse_request_line-cut posts c front [] (0 ∷ rest) (ground arith) e
          ∙ parse_url-home d p buf refl s put,
      string_at-text (record d { read_buf = buf; check_state = check_state_header }) p front_1
          (codes "/judge.html") rest at refl (ground arith),
    )
