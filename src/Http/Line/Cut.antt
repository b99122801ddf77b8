-- ===== src/Http/Line/Cut.antt =====
-- A line that `parse_line` cuts off, by the bytes of the whole read buffer.
use wzy_server.Prelude.{
  ℕ, ◌+◌, ◌≡◌, sym, ap, ◌∙◌, List, [], ◌∷◌, ◌++◌, set, get_elem?, length, length-append,
  append_assoc, ok, arith, get_elem?-append, set-append, subst,
}
use wzy_server.Http.{HttpConn, line_ok}
use wzy_server.Http.Line.{cr, lf, parse_line}
use wzy_server.Http.Line.Lines.{IsPlain, HasAt, Unread, parse_line-line}

pub HasAt-append :
    (front new spare : List ℕ) (i : ℕ) → length front ≡ i → HasAt (front ++ (new ++ spare)) i new
HasAt-append front [] spare i at = tt
HasAt-append front (x ∷ new) spare i at = (
  ap (λ n. get_elem? (front ++ x ∷ (new ++ spare)) n) (sym at)
      ∙ get_elem?-append front (new ++ spare) x,
  subst (λ buf. HasAt buf (i + 1) new) (append_assoc front (x ∷ []) (new ++ spare))
      (HasAt-append (front ++ x ∷ []) new spare (i + 1)
        (omega (arith, at, length-append front (x ∷ [])))),
)

two_set :
    (front text rest : List ℕ) (i : ℕ)
    → length front + length text ≡ i
    → set (set (front ++ (text ++ cr ∷ lf ∷ rest)) i 0) (i + 1) 0 ≡ front ++ (text ++ 0 ∷ 0 ∷ rest)
two_set front text rest i at =
    let there : length (front ++ text) ≡ i = omega (arith, at, length-append front text) in
    let behind : length ((front ++ text) ++ 0 ∷ []) ≡ i + 1 =
      omega (arith, there, length-append (front ++ text) (0 ∷ [])) in
    ap (λ buf. set (set buf i 0) (i + 1) 0) (sym (append_assoc front text (cr ∷ lf ∷ rest)))
    ∙ ap (λ buf. set buf (i + 1) 0) (set-append (front ++ text) (lf ∷ rest) i cr 0 there)
    ∙ ap (λ buf. set buf (i + 1) 0) (sym (append_assoc (front ++ text) (0 ∷ []) (lf ∷ rest)))
    ∙ set-append ((front ++ text) ++ 0 ∷ []) rest (i + 1) lf 0 behind
    ∙ append_assoc (front ++ text) (0 ∷ []) (0 ∷ rest)
    ∙ append_assoc front text (0 ∷ 0 ∷ rest)

-- The bytes of the buffer: those before `m_check_idx`, those read behind it, and room.
pub record Layout (c : HttpConn) (front new spare : List ℕ) : Type 0 where
  pub bytes : c.read_buf ≡ front ++ (new ++ spare)
  pub looked : c.check_idx ≡ length front
  pub got : c.read_idx ≡ length front + length new

Layout-Unread : (c : HttpConn) (front new spare : List ℕ) → Layout c front new spare → Unread c new
Layout-Unread c front new spare v = record {
  bytes =
      subst (λ buf. HasAt buf c.check_idx new) (sym v.bytes)
        (HasAt-append front new spare c.check_idx (sym v.looked));
  ends = omega (arith, v.looked, v.got);
}

pub parse_line-cut :
    (c : HttpConn) (front text rest spare : List ℕ)
    → IsPlain text
    → Layout c front (text ++ cr ∷ lf ∷ rest) spare
    → parse_line c
      ≡ ok (
        line_ok,
        record c {
          check_idx = length front + length text + 2;
          read_buf = front ++ (text ++ 0 ∷ 0 ∷ (rest ++ spare));
        },
      )
parse_line-cut c front text rest spare plain v =
    let buf =
      ap (λ b. set (set b (c.check_idx + length text) 0) (c.check_idx + length text + 1) 0)
        (v.bytes ∙ ap (λ r. front ++ r) (append_assoc text (cr ∷ lf ∷ rest) spare))
      ∙ two_set front text (rest ++ spare) (c.check_idx + length text) (omega (arith, v.looked)) in
    parse_line-line c text rest plain (Layout-Unread c front (text ++ cr ∷ lf ∷ rest) spare v)
    ∙ ap (λ b. ok (line_ok, record c { check_idx = c.check_idx + length text + 2; read_buf = b }))
        buf
    ∙ ap
        (λ i. ok (
          line_ok,
          record c {
            check_idx = i + length text + 2;
            read_buf = front ++ (text ++ 0 ∷ 0 ∷ (rest ++ spare));
          },
        ))
        v.looked
