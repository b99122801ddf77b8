-- ===== src/Http/Response/Written.antt =====
-- What `process_write` leaves in the write buffer: the text of the response, and whether it says
-- so.
use wzy_server.Prelude.{
  ℕ, ◌+◌, ◌-◌, ◌<◌, ◌≡◌, refl, sym, ap, ◌∙◌, subst, Bool, true, false, List, [], ◌∷◌, ◌++◌, length,
  take, leb, append_assoc, length-append, Returns, returns, Returns-bind, Returns-mono, splice-text,
  take-all, arith,
}
use wzy_server.Prelude.Int.{ℤ, pos}
use wzy_server.Http.{HttpConn}
use wzy_server.Http.Response.{
  add_response, printed, add_page, status_line, content_length_line, linger_line, blank_line,
  add_headers,
}

-- The response so far.
abbrev pub written : HttpConn → List ℕ
written c = take c.write_idx c.write_buf

-- The write buffer has its size, and its index is inside it.
pub record IsWritable (c : HttpConn) : Type 0 where
  pub sized : length c.write_buf ≡ 1024
  pub inside : c.write_idx < 1024

-- `d` is `c` with `text` added to its response.
pub record Added (c : HttpConn) (text : List ℕ) (d : HttpConn) : Type 0 where
  pub writable : IsWritable d
  pub count : d.write_idx ≡ c.write_idx + length text
  pub said : written d ≡ written c ++ text
  pub rest : d ≡ record c { write_buf = d.write_buf; write_idx = d.write_idx }

printed-fits : (room : ℕ) (text : List ℕ) → length text < room → printed room text ≡ text ++ 0 ∷ []
unfolding printed
printed-fits room text h = let all = take-all (room - 1) text (omega arith) in ground (arith, all)

pub add_response-Added :
    (text : List ℕ) (c : HttpConn)
    → IsWritable c
    → c.write_idx + length text < 1023
    → Returns (λ (done, d). (done ≡ true) × Added c text d) (add_response text c)
unfolding add_response
add_response-Added text c w fits =
    let len = length-append text (0 ∷ []) in
    let shown = printed-fits (1023 - c.write_idx) text (omega arith) in
    let (out, done, sized, said) =
      splice-text c.write_buf text (0 ∷ []) c.write_idx (omega (arith, len, w.sized)) in
    let open_end : leb 1024 c.write_idx ≡ false = ground arith in
    let room : leb (1023 - c.write_idx) (length text) ≡ false = ground arith in
    rw (open_end, shown, done, room)
      (returns (
        refl,
        record {
          writable = record { sized = sized ∙ w.sized; inside = omega arith };
          count = refl;
          said = said;
          rest = refl;
        },
      ))

pub Added-trans : {c d e : HttpConn} {s t : List ℕ} → Added c s d → Added d t e → Added c (s ++ t) e
Added-trans {c} {d} {e} {s} {t} a b = record {
  writable = b.writable;
  count = omega (arith, a.count, b.count, length-append s t);
  said = b.said ∙ ap (λ r. r ++ t) a.said ∙ append_assoc (written c) s t;
  rest =
      b.rest
      ∙ ap (λ (r : HttpConn). record r { write_buf = e.write_buf; write_idx = e.write_idx }) a.rest;
}

pub kept_linger : {c d : HttpConn} {s : List ℕ} → Added c s d → d.linger ≡ c.linger
kept_linger a = ap (λ (r : HttpConn). r.linger) a.rest

-- The headers that a response has behind its status line, with the blank line that ends them.
unfoldable pub headers_text : ℤ → Bool → List ℕ
headers_text content_len linger =
    content_length_line content_len ++ linger_line linger ++ blank_line

pub add_headers-Added :
    (n : ℤ) (c : HttpConn)
    → IsWritable c
    → c.write_idx + length (headers_text n c.linger) < 1023
    → Returns (λ (done, d). (done ≡ true) × Added c (headers_text n c.linger) d) (add_headers n c)
unfolding add_headers headers_text
add_headers-Added n c w fits =
    let len = length-append (content_length_line n ++ linger_line c.linger) blank_line in
    let len_2 = length-append (content_length_line n) (linger_line c.linger) in
    Returns-bind (add_response-Added (content_length_line n) c w (omega (arith, len, len_2)))
      λ (_, c_1) (_, a).
        Returns-bind
          (add_response-Added (linger_line c_1.linger) c_1 a.writable (
            subst (λ l. c_1.write_idx + length (linger_line l) < 1023) (sym (kept_linger a))
              (omega (arith, len, len_2, a.count, fits))))
          λ (_, c_2) (_, b).
            Returns-bind
              (add_response-Added blank_line c_2 b.writable (
                omega (
                  arith,
                  len,
                  len_2,
                  a.count,
                  b.count,
                  ap (λ l. length (linger_line l)) (kept_linger a),
                  fits,
                )))
              λ (_, c_3) (_, z). returns (
                refl,
                subst (λ l. Added c (content_length_line n ++ linger_line l ++ blank_line) c_3)
                    (kept_linger a) (Added-trans (Added-trans a b) z),
              )

-- A whole page: a status line, the headers, a body.
unfoldable pub page_text : ℤ → List ℕ → ℕ → List ℕ → Bool → List ℕ
page_text status title content_len body linger =
    status_line status title ++ headers_text (pos content_len) linger ++ body

pub add_page-Added :
    (status : ℤ) (title : List ℕ) (n : ℕ) (body : List ℕ) (c : HttpConn)
    → IsWritable c
    → c.write_idx + length (page_text status title n body c.linger) < 1023
    → Returns
        (λ (done, d). (done ≡ true) × Added c (page_text status title n body c.linger) d)
        (add_page status title n body c)
unfolding add_page page_text
add_page-Added status title n body c w fits =
    let len = length-append (status_line status title ++ headers_text (pos n) c.linger) body in
    let len_2 = length-append (status_line status title) (headers_text (pos n) c.linger) in
    Returns-bind (add_response-Added (status_line status title) c w (omega (arith, len, len_2)))
      λ (_, c_1) (_, a).
        let same = ap (λ l. length (headers_text (pos n) l)) (kept_linger a) in
        Returns-bind
          (add_headers-Added (pos n) c_1 a.writable
            (omega (arith, len, len_2, a.count, same, fits)))
          λ (_, c_2) (_, b).
            Returns-mono
              (add_response-Added body c_2 b.writable
                (omega (arith, len, len_2, a.count, b.count, same, fits)))
              λ (done, c_3) (added, z). (
                added,
                subst
                    (λ l. Added c (status_line status title ++ headers_text (pos n) l ++ body) c_3)
                    (kept_linger a) (Added-trans (Added-trans a b) z),
              )
