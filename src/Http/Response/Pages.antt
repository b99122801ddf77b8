-- ===== src/Http/Response/Pages.antt =====
-- The responses of `process_write`: the error pages, and the head of a file.
use wzy_server.Prelude.{
  ℕ, ◌≤◌, ◌<◌, ◌≡◌, ◌≢◌, refl, ap, ◌∙◌, subst, Bool, true, false, ◌==◌, List, ◌++◌, length, take,
  length-append, Returns, returns, Returns-bind, codes, show_ℤ, to_int, arith, show_ℤ-bound,
}
use wzy_server.Prelude.Int.{ℤ, pos}
use wzy_server.Http.{
  HttpConn, HttpCode, forbidden_request, bad_request, no_resource, file_request, in_write_buf,
  in_file,
}
use wzy_server.Http.Response.{
  error_400_title, error_400_form, error_403_title, error_403_form, error_404_title, error_404_form,
  ok_200_title, status_line, content_length_line, linger_line, blank_line, process_write, one_block,
  two_blocks, write_file,
}
use wzy_server.Http.Response.Written.{
  written, IsWritable, Added, Added-trans, kept_linger, add_response-Added, add_headers-Added,
  headers_text, page_text, add_page-Added,
}

-- What the error codes stand for.
pub data ErrorPage : HttpCode → (status : ℕ) (title form : List ℕ) → Type 0 where
  page_403 : ErrorPage forbidden_request 403 error_403_title error_403_form
  page_400 : ErrorPage bad_request 400 error_400_title error_400_form
  page_404 : ErrorPage no_resource 404 error_404_title error_404_form

-- The result that `process_write` gives once such a page is in the buffer.
abbrev pub says : HttpCode → Bool
says forbidden_request = true
says _ = false

page-fits :
    {code : HttpCode} {status : ℕ} {title form : List ℕ}
    → ErrorPage code status title form
    → (linger : Bool) → length (page_text (pos status) title (length form) form linger) < 1023
unfolding page_text headers_text status_line content_length_line linger_line show_ℤ
page-fits page_403 true = omega arith
page-fits page_403 false = omega arith
page-fits page_400 true = omega arith
page-fits page_400 false = omega arith
page-fits page_404 true = omega arith
page-fits page_404 false = omega arith

-- What was added to an empty response is all of it.
Added-all : {c d : HttpConn} {s : List ℕ} → c.write_idx ≡ 0 → Added c s d → written d ≡ s
Added-all {c} {s = s} e a = a.said ∙ ap (λ n. take n c.write_buf ++ s) e

-- For 403, 400 and 404, `process_write` on an empty write buffer leaves there the whole page, its
-- length stated right. It says `true` for 403 and `false` for 400 and 404.
pub process_write-page :
    {code : HttpCode} {status : ℕ} {title form : List ℕ} (page : ErrorPage code status title form)
    (c : HttpConn)
    → IsWritable c
    → c.write_idx ≡ 0
    → Returns
        (λ (done, d).
          (done ≡ says code)
          × (written d ≡ page_text (pos status) title (length form) form c.linger))
        (process_write code c)
unfolding process_write one_block
process_write-page page_403 c w e =
    Returns-bind
      (add_page-Added (pos 403) error_403_title (length error_403_form) error_403_form c w
        (omega (arith, page-fits page_403 c.linger)))
      λ (added, d) (all_in, a). rw all_in (returns (refl, Added-all e a))
process_write-page page_400 c w e =
    Returns-bind
      (add_page-Added (pos 400) error_400_title (length error_400_form) error_400_form c w
        (omega (arith, page-fits page_400 c.linger)))
      λ (added, d) (all_in, a). rw all_in (returns (refl, Added-all e a))
process_write-page page_404 c w e =
    Returns-bind
      (add_page-Added (pos 404) error_404_title (length error_404_form) error_404_form c w
        (omega (arith, page-fits page_404 c.linger)))
      λ (added, d) (all_in, a). rw all_in (returns (refl, Added-all e a))

-- So 400 and 404 end with their page in the buffer and with `false`, and nothing else is changed.
pub process_write-refused :
    {code : HttpCode} {status : ℕ} {title form : List ℕ} (page : ErrorPage code status title form)
    (c : HttpConn)
    → says code ≡ false
    → IsWritable c
    → c.write_idx ≡ 0
    → Returns
        (λ (done, d).
          (done ≡ false) × Added c (page_text (pos status) title (length form) form c.linger) d)
        (process_write code c)
unfolding process_write
process_write-refused page_403 c refused w e = absurd (cc)
process_write-refused page_400 c refused w e =
    Returns-bind
      (add_page-Added (pos 400) error_400_title (length error_400_form) error_400_form c w
        (omega (arith, page-fits page_400 c.linger)))
      λ (added, d) (all_in, a). rw all_in (returns (refl, a))
process_write-refused page_404 c refused w e =
    Returns-bind
      (add_page-Added (pos 404) error_404_title (length error_404_form) error_404_form c w
        (omega (arith, page-fits page_404 c.linger)))
      λ (added, d) (all_in, a). rw all_in (returns (refl, a))

-- What `process_write` does for a file that is not empty, on an empty write buffer.
pub file_head : ℕ → Bool → List ℕ
file_head size linger = status_line (pos 200) ok_200_title ++ headers_text (to_int size) linger

length_line : (z : ℤ) → length (content_length_line z) ≤ 28
unfolding content_length_line
length_line z = omega (arith, length-append (show_ℤ z) (codes "\r\n"), show_ℤ-bound z)

keep_line : (linger : Bool) → length (linger_line linger) ≤ 24
unfolding linger_line
keep_line true = omega arith
keep_line false = omega arith

status_200 : length (status_line (pos 200) ok_200_title) ≡ 17
unfolding status_line show_ℤ
status_200 = refl

headers-fit : (z : ℤ) (linger : Bool) → length (headers_text z linger) ≤ 54
unfolding headers_text
headers-fit z linger =
    let len_1 = length-append (content_length_line z ++ linger_line linger) blank_line in
    let len_2 = length-append (content_length_line z) (linger_line linger) in
    omega (arith, len_1, len_2, length_line z, keep_line linger)

-- Two blocks are ready to be sent, the head of a file and the file.
pub record FileReady (c d : HttpConn) : Type 0 where
  pub head : written d ≡ file_head c.file_size c.linger
  pub first : d.iv_0 ≡ record {
    iov_base = in_write_buf (pos 0);
    iov_len = length (file_head c.file_size c.linger);
  }
  pub second : d.iv_1 ≡ record { iov_base = in_file (pos 0); iov_len = c.file_size }
  pub count : d.iv_count ≡ 2

two_blocks-FileReady :
    {c d : HttpConn}
    → c.write_idx ≡ 0
    → Added c (file_head c.file_size c.linger) d
    → FileReady c (two_blocks d)
unfolding two_blocks
two_blocks-FileReady {c} {d} e a =
    let same_size = ap (λ (r : HttpConn). r.file_size) a.rest in
    record {
      head = Added-all e a;
      first =
          ap (λ n. record { iov_base = in_write_buf (pos 0); iov_len = n })
            (omega (arith, a.count, e));
      second = ap (λ n. record { iov_base = in_file (pos 0); iov_len = n }) same_size;
      count = refl;
    }

-- For a file that is not empty, `process_write` on an empty write buffer leaves there the status
-- line and the headers with the file's length, and offers them and then the whole file to `writev`.
pub process_write-file :
    (c : HttpConn)
    → IsWritable c
    → c.write_idx ≡ 0
    → c.file_size ≢ 0
    → Returns (λ (done, d). (done ≡ true) × FileReady c d) (process_write file_request c)
unfolding process_write write_file file_head
process_write-file c w e full =
    Returns-bind
      (add_response-Added (status_line (pos 200) ok_200_title) c w (omega (arith, status_200, e)))
      λ (_, c_1) (_, a).
        let same_size = ap (λ (r : HttpConn). r.file_size) a.rest in
        let some_file : (c_1.file_size == 0) ≡ false = ground (arith, same_size, full) in
        let fits = headers-fit (to_int c_1.file_size) c_1.linger in
        let head =
          Returns-bind
            (add_headers-Added (to_int c_1.file_size) c_1 a.writable
              (omega (arith, a.count, e, fits, status_200)))
            λ (_, d) (_, b).
              let both =
                subst
                  (λ l.
                    Added c
                      (status_line (pos 200) ok_200_title ++ headers_text (to_int c_1.file_size) l)
                      d)
                  (kept_linger a) (Added-trans a b) in
              returns (
                refl,
                two_blocks-FileReady e (
                    subst
                      (λ n.
                        Added c
                          (status_line (pos 200) ok_200_title ++ headers_text (to_int n) c.linger)
                          d)
                      same_size both),
              ) in
        rw some_file head
