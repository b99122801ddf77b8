-- ===== src/Http/Request/Stages.antt =====
-- How `parse_request_line` cuts a request line in two places, before it looks at the URL.
use wzy_server.Prelude.{
  ℕ, ◌+◌, ◌≡◌, refl, ap, ◌∙◌, sym, Bool, true, false, some, List, [], ◌∷◌, ◌++◌, length, codes, eqb,
  append_assoc, ok, arith, if◌then◌else◌, ◌||◌, length-append,
}
use wzy_server.Http.{HttpConn, get, post}
use wzy_server.Http.Request.{
  string_at, cut, find_blank, blanks, same_word, parse_url, parse_version, split_url, check_version,
  parse_request_line, to_lower,
}
use wzy_server.Http.Request.Words.{
  IsWord, IsText, IsWord-IsText, IsText-append, string_at-text, cut-text, find_blank-word,
  blanks-none,
}

abbrev pub version_text : List ℕ
version_text = codes "HTTP/1.1"

check_version-printed :
    (c : HttpConn) (p : ℕ) (front rest : List ℕ)
    → length front ≡ p
    → c.read_buf ≡ front ++ (version_text ++ 0 ∷ rest)
    → check_version p c ≡ parse_url (record c { version = some p })
unfolding check_version same_word eqb to_lower
check_version-printed c p front rest at e =
    let v =
      string_at-text (record c { version = some p }) p front version_text rest at e
        (ground arith) in
    simp v refl

-- The buffer where a URL and the version behind it are cut apart.
abbrev pub apart : (front url rest : List ℕ) → List ℕ
apart front url rest = front ++ (url ++ 0 ∷ (version_text ++ 0 ∷ rest))

split_url-stages :
    (c d : HttpConn) (p n : ℕ) (line version : List ℕ)
    → string_at (record c { url = some p }) p ≡ ok line
    → find_blank line ≡ some n
    → cut (p + n) (record c { url = some p }) ≡ d
    → string_at d (p + n + 1) ≡ ok version
    → p + n + 1 + blanks version ≡ p + n + 1
    → split_url p c ≡ check_version (p + n + 1) d
unfolding split_url
split_url-stages c d p n line version s b at_blank t same = ground arith

-- Behind a method that is cut off, a URL and a version are cut apart, and the URL is looked at.
split_url-printed :
    (c : HttpConn) (p : ℕ) (front url rest : List ℕ)
    → IsWord url
    → length front ≡ p
    → c.read_buf ≡ front ++ (url ++ b' ' ∷ (version_text ++ 0 ∷ rest))
    → split_url p c
      ≡ parse_url (record c {
        read_buf = apart front url rest;
        url = some p;
        version = some (p + length url + 1);
      })
split_url-printed c p front url rest h at e =
    let text = IsText-append url (b' ' ∷ version_text) (IsWord-IsText url h) (ground arith) in
    let c_1 : HttpConn = record c { url = some p } in
    let d : HttpConn = record c_1 { read_buf = apart front url rest } in
    let s =
      string_at-text c_1 p front (url ++ b' ' ∷ version_text) rest at
        (e ∙ ap (λ r. front ++ r) (sym (append_assoc url (b' ' ∷ version_text) (0 ∷ rest)))) text in
    let there : length (front ++ url) ≡ p + length url =
      omega (arith, length-append front url, at) in
    let at_blank : cut (p + length url) c_1 ≡ d =
      cut-text c_1 (p + length url) (front ++ url) (version_text ++ 0 ∷ rest) b' ' there
        (e ∙ sym (append_assoc front url (b' ' ∷ (version_text ++ 0 ∷ rest))))
      ∙ ap (λ buf. record c_1 { read_buf = buf })
          (append_assoc front url (0 ∷ (version_text ++ 0 ∷ rest))) in
    let behind : length ((front ++ url) ++ 0 ∷ []) ≡ p + length url + 1 =
      omega (arith, length-append (front ++ url) (0 ∷ []), there) in
    let e' : d.read_buf ≡ ((front ++ url) ++ 0 ∷ []) ++ (version_text ++ 0 ∷ rest) =
      sym (append_assoc front url (0 ∷ (version_text ++ 0 ∷ rest)))
      ∙ sym (append_assoc (front ++ url) (0 ∷ []) (version_text ++ 0 ∷ rest)) in
    let t =
      string_at-text d (p + length url + 1) ((front ++ url) ++ 0 ∷ []) version_text rest behind e'
        (ground arith) in
    split_url-stages c d p (length url) (url ++ b' ' ∷ version_text) version_text s
      (find_blank-word url version_text h) at_blank t
      (blanks-none b'H' (codes "TTP/1.1") (p + length url + 1) refl)
    ∙ check_version-printed d (p + length url + 1) ((front ++ url) ++ 0 ∷ []) rest behind e'

abbrev pub method_text : (posts : Bool) → List ℕ
method_text false = codes "GET"
method_text true = codes "POST"

-- What the method leaves in the connection.
abbrev pub asked : (posts : Bool) → HttpConn → HttpConn
asked posts c = record c { method = if posts then post else get; cgi = posts || c.cgi }

-- A request line without its end.
abbrev pub line_text : (posts : Bool) → (url : List ℕ) → List ℕ
line_text posts url = method_text posts ++ b' ' ∷ (url ++ b' ' ∷ version_text)

get_line-stages :
    (c d : HttpConn) (text n : ℕ) (line : List ℕ)
    → string_at c text ≡ ok line
    → find_blank line ≡ some n
    → cut (text + n) (record c { url = some (text + n + 1) }) ≡ d
    → string_at d text ≡ ok (codes "GET")
    → parse_request_line text c ≡ parse_version (text + n + 1) (asked false d)
unfolding parse_request_line same_word eqb to_lower
get_line-stages c d text n line s b at_blank m = ground arith

post_line-stages :
    (c d : HttpConn) (text n : ℕ) (line : List ℕ)
    → string_at c text ≡ ok line
    → find_blank line ≡ some n
    → cut (text + n) (record c { url = some (text + n + 1) }) ≡ d
    → string_at d text ≡ ok (codes "POST")
    → parse_request_line text c ≡ parse_version (text + n + 1) (asked true d)
unfolding parse_request_line same_word eqb to_lower
post_line-stages c d text n line s b at_blank m = ground arith

line-stages :
    (posts : Bool) (c d : HttpConn) (text n : ℕ) (line : List ℕ)
    → string_at c text ≡ ok line
    → find_blank line ≡ some n
    → cut (text + n) (record c { url = some (text + n + 1) }) ≡ d
    → string_at d text ≡ ok (method_text posts)
    → parse_request_line text c ≡ parse_version (text + n + 1) (asked posts d)
line-stages false = get_line-stages
line-stages true = post_line-stages

method-IsWord : (posts : Bool) → IsWord (method_text posts)
method-IsWord false = ground arith
method-IsWord true = ground arith

version_after_slash :
    (c : HttpConn) (p : ℕ) (s : List ℕ)
    → string_at c p ≡ ok (b'/' ∷ s)
    → parse_version p c ≡ split_url p c
unfolding parse_version
version_after_slash c p s e = let same = blanks-none b'/' s p refl in ground arith

-- The connection where the URL and the version are cut apart: `front` ends in the NUL behind the
-- method, and `p` is its end.
abbrev pub line_cut : HttpConn → (p : ℕ) → (front url rest : List ℕ) → HttpConn
line_cut c p front url rest = record c {
  read_buf = apart front url rest;
  url = some p;
  version = some (p + length url + 1);
}

parse_version-cut :
    (c : HttpConn) (p : ℕ) (front u rest : List ℕ)
    → IsWord (b'/' ∷ u)
    → length front ≡ p
    → c.read_buf ≡ front ++ ((b'/' ∷ u) ++ b' ' ∷ (version_text ++ 0 ∷ rest))
    → parse_version p c ≡ parse_url (line_cut c p front (b'/' ∷ u) rest)
parse_version-cut c p front u rest h at e =
    let url : List ℕ = b'/' ∷ u in
    let text = IsText-append url (b' ' ∷ version_text) (IsWord-IsText url h) (ground arith) in
    let whole =
      string_at-text c p front (url ++ b' ' ∷ version_text) rest at
        (e ∙ ap (λ r. front ++ r) (sym (append_assoc url (b' ' ∷ version_text) (0 ∷ rest)))) text in
    version_after_slash c p (u ++ b' ' ∷ version_text) whole
    ∙ split_url-printed c p front url rest h at e

-- The method is cut off, and the rest of the line is read.
method-printed :
    (posts : Bool) (c : HttpConn) (text : ℕ) (front tail rest : List ℕ)
    → IsText tail
    → length front ≡ text
    → c.read_buf ≡ front ++ ((method_text posts ++ b' ' ∷ tail) ++ 0 ∷ rest)
    → parse_request_line text c
      ≡ parse_version (text + length (method_text posts) + 1) (
          asked posts (record c {
            url = some (text + length (method_text posts) + 1);
            read_buf = (front ++ method_text posts) ++ 0 ∷ (tail ++ 0 ∷ rest);
          }))
method-printed posts c text front tail rest h at e =
    let m : List ℕ = method_text posts in
    let word = method-IsWord posts in
    let c_1 : HttpConn = record c { url = some (text + length m + 1) } in
    let d : HttpConn = record c_1 { read_buf = (front ++ m) ++ 0 ∷ (tail ++ 0 ∷ rest) } in
    let whole = IsText-append m (b' ' ∷ tail) (IsWord-IsText m word) (refl, h) in
    let there : length (front ++ m) ≡ text + length m = omega (arith, length-append front m, at) in
    line-stages posts c d text (length m) (m ++ b' ' ∷ tail)
      (string_at-text c text front (m ++ b' ' ∷ tail) rest at e whole) (find_blank-word m tail word)
      (cut-text c_1 (text + length m) (front ++ m) (tail ++ 0 ∷ rest) b' ' there (
        e
        ∙ ap (λ r. front ++ r) (append_assoc m (b' ' ∷ tail) (0 ∷ rest))
        ∙ sym (append_assoc front m (b' ' ∷ (tail ++ 0 ∷ rest)))))
      (string_at-text d text front m (tail ++ 0 ∷ rest) at
        (append_assoc front m (0 ∷ (tail ++ 0 ∷ rest))) (IsWord-IsText m word))

-- The line up to the NUL behind its method.
abbrev pub behind_method : (posts : Bool) → (front : List ℕ) → List ℕ
behind_method posts front = (front ++ method_text posts) ++ 0 ∷ []

-- Where its URL begins.
abbrev pub url_start : (posts : Bool) → (front : List ℕ) → ℕ
url_start posts front = length front + length (method_text posts) + 1

pub length-behind_method :
    (posts : Bool) (front : List ℕ) → length (behind_method posts front) ≡ url_start posts front
length-behind_method posts front = omega (
  arith,
  length-append (front ++ method_text posts) (0 ∷ []),
  length-append front (method_text posts),
)

-- A printed line whose URL starts with a slash comes to the look at the URL.
pub parse_request_line-cut :
    (posts : Bool) (c : HttpConn) (front u rest : List ℕ)
    → IsWord (b'/' ∷ u)
    → c.read_buf ≡ front ++ (line_text posts (b'/' ∷ u) ++ 0 ∷ rest)
    → parse_request_line (length front) c
      ≡ parse_url (
          line_cut
            (asked posts c)
            (url_start posts front)
            (behind_method posts front)
            (b'/' ∷ u)
            rest)
parse_request_line-cut posts c front u rest h e =
    let url : List ℕ = b'/' ∷ u in
    let m : List ℕ = method_text posts in
    let p : ℕ = url_start posts front in
    let c_1 : HttpConn = asked posts (record c {
      url = some p;
      read_buf = (front ++ m) ++ 0 ∷ ((url ++ b' ' ∷ version_text) ++ 0 ∷ rest);
    }) in
    let tail = IsText-append url (b' ' ∷ version_text) (IsWord-IsText url h) (ground arith) in
    let e_1 : c_1.read_buf
        ≡ behind_method posts front ++ (url ++ b' ' ∷ (version_text ++ 0 ∷ rest)) =
      sym (append_assoc (front ++ m) (0 ∷ []) ((url ++ b' ' ∷ version_text) ++ 0 ∷ rest))
      ∙ ap (λ r. behind_method posts front ++ r)
          (append_assoc url (b' ' ∷ version_text) (0 ∷ rest)) in
    method-printed posts c (length front) front (url ++ b' ' ∷ version_text) rest tail refl e
    ∙ parse_version-cut c_1 p (behind_method posts front) u rest h
        (length-behind_method posts front) e_1
