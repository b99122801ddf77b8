-- ===== src/Http/Response.antt =====
-- http/http_conn.cpp: the response, from `add_response` to `process_write`.
pub mod Written
pub mod Pages
pub mod Quiet
use wzy_server.Prelude.{
  ℕ, zero, suc, ◌+◌, ◌-◌, Bool, true, false, not, ◌==◌, if◌then◌else◌, List, [], ◌∷◌, ◌++◌, length,
  take, ltb, leb, Run, ok, fault, ◌>>=◌, codes, splice, show_ℤ, to_int,
}
use wzy_server.Prelude.Int.{ℤ, pos, ◌+ℤ◌}
use wzy_server.Http.{
  HttpConn, HttpCode, internal_error, forbidden_request, bad_request, no_resource, file_request,
  write_buffer_size, IoVec, in_write_buf, in_file,
}

abbrev pub ok_200_title : List ℕ
ok_200_title = codes "OK"

abbrev pub error_400_title : List ℕ
error_400_title = codes "Bad Request"

abbrev pub error_400_form : List ℕ
error_400_form = codes "Your request has bad sytex or is inherently impossible to satisfy.\n"

abbrev pub error_403_title : List ℕ
error_403_title = codes "Forbidden"

abbrev pub error_403_form : List ℕ
error_403_form = codes "You do not have permission to get file from this server.\n"

abbrev pub error_404_title : List ℕ
error_404_title = codes "Not Found"

abbrev pub error_404_form : List ℕ
error_404_form = codes "The requested file was not found on this server.\n"

abbrev pub error_500_title : List ℕ
error_500_title = codes "Internal Error"

abbrev pub error_500_form : List ℕ
error_500_form = codes "There was an unusual problem serving the requested file.\n"

abbrev pub ok_string : List ℕ
ok_string = codes "<html><body></body></html>"

-- What `vsnprintf` stores of a formatted text in room for `size` bytes: at most `size - 1` bytes
-- and a NUL, and nothing at all if there is no room.
pub printed : ℕ → List ℕ → List ℕ
printed size text = if size == 0 then [] else take (size - 1) text ++ 0 ∷ []

-- `add_response` of a text that is formatted already.
pub add_response : List ℕ → HttpConn → Run (Bool × HttpConn)
unfolding printed
add_response text c =
    let room = write_buffer_size - 1 - c.write_idx in
    if leb write_buffer_size c.write_idx then ok (false, c) else do
      buf ← splice c.write_buf c.write_idx (printed room text)
      let c = record c { write_buf = buf }
      if leb room (length text)
          then ok (false, c)
          else ok (true, record c { write_idx = c.write_idx + length text })

-- The texts that the `add_` functions format.
pub status_line : ℤ → List ℕ → List ℕ
status_line status title = codes "HTTP/1.1 " ++ show_ℤ status ++ codes " " ++ title ++ codes "\r\n"

pub content_length_line : ℤ → List ℕ
content_length_line content_len = codes "Content-Length:" ++ show_ℤ content_len ++ codes "\r\n"

pub linger_line : Bool → List ℕ
linger_line linger =
    codes "Connection:" ++ (if linger then codes "keep-alive" else codes "close") ++ codes "\r\n"

abbrev pub blank_line : List ℕ
blank_line = codes "\r\n"

pub add_status_line : ℤ → List ℕ → HttpConn → Run (Bool × HttpConn)
add_status_line status title c = add_response (status_line status title) c

pub add_content_length : ℤ → HttpConn → Run (Bool × HttpConn)
add_content_length content_len c = add_response (content_length_line content_len) c

pub add_linger : HttpConn → Run (Bool × HttpConn)
add_linger c = add_response (linger_line c.linger) c

pub add_blank_line : HttpConn → Run (Bool × HttpConn)
add_blank_line c = add_response blank_line c

pub add_content : List ℕ → HttpConn → Run (Bool × HttpConn)
add_content content c = add_response content c

-- The three results are ignored.
pub add_headers : ℤ → HttpConn → Run (Bool × HttpConn)
unfolding add_content_length add_linger add_blank_line
add_headers content_len c = do
  (_, c) ← add_content_length content_len c
  (_, c) ← add_linger c
  (_, c) ← add_blank_line c
  ok (true, c)

-- A status line, the headers with a length, and a body: whether the body went in.
pub add_page : ℤ → List ℕ → ℕ → List ℕ → HttpConn → Run (Bool × HttpConn)
unfolding add_status_line add_headers add_content
add_page status title content_len body c = do
  (_, c) ← add_status_line status title c
  (_, c) ← add_headers (pos content_len) c
  add_content body c

-- The end of `process_write`: one block to send, the write buffer.
pub one_block : HttpConn → HttpConn
one_block c = record c {
  iv_0 = record { iov_base = in_write_buf (pos 0); iov_len = c.write_idx };
  iv_count = 1;
}

-- The blocks for a file: the write buffer and the mapped file.
pub two_blocks : HttpConn → HttpConn
two_blocks c = record c {
  iv_0 = record { iov_base = in_write_buf (pos 0); iov_len = c.write_idx };
  iv_1 = record { iov_base = in_file (pos 0); iov_len = c.file_size };
  iv_count = 2;
  bytes_to_send = to_int (c.write_idx + c.file_size);
}

-- The case of `file_request`; an empty file falls through to `default`.
pub write_file : HttpConn → Run (Bool × HttpConn)
unfolding add_status_line add_headers add_content two_blocks
write_file c = do
  (_, c) ← add_status_line (pos 200) ok_200_title c
  if c.file_size == 0
      then (do
        (_, c) ← add_headers (pos (length ok_string)) c
        (_, c) ← add_content ok_string c
        ok (false, c))
      else (do (_, c) ← add_headers (to_int c.file_size) c; ok (true, two_blocks c))

pub process_write : HttpCode → HttpConn → Run (Bool × HttpConn)
unfolding add_page write_file one_block
process_write internal_error c = do
  (added, c) ← add_page (pos 500) error_500_title (length error_500_form) error_400_form c
  if not added then ok (false, c) else ok (true, one_block c)
process_write forbidden_request c = do
  (added, c) ← add_page (pos 403) error_403_title (length error_403_form) error_403_form c
  if not added then ok (false, c) else ok (true, one_block c)
process_write bad_request c = do
  (added, c) ← add_page (pos 400) error_400_title (length error_400_form) error_400_form c
  if added then ok (false, c) else ok (true, one_block c)
process_write no_resource c = do
  (added, c) ← add_page (pos 404) error_404_title (length error_404_form) error_404_form c
  if added then ok (false, c) else ok (true, one_block c)
process_write file_request c = write_file c
process_write _ c = ok (false, c)
