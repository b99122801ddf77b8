-- ===== src/Http/Response/Quiet.antt =====
-- Building a response makes no system call and counts no user.
use wzy_server.Prelude.{
  ◌>>=◌, ℕ, ◌-◌, refl, Bool, true, false, not, ◌==◌, List, length, leb, if◌then◌else◌, ok, Sure,
  sure, Sure-bind, Sure-if, Sure-mono, splice-Sure,
}
use wzy_server.Prelude.Int.{ℤ, pos}
use wzy_server.Http.{
  HttpConn, HttpCode, no_request, get_request, bad_request, no_resource, forbidden_request,
  file_request, internal_error, closed_connection, write_buffer_size,
}
use wzy_server.Http.Watched.{IsQuiet, is_quiet, IsQuiet-trans}
use wzy_server.Http.Response.{
  add_response, printed, add_status_line, add_content_length, add_linger, add_blank_line,
  add_content, add_headers, add_page, one_block, two_blocks, write_file, process_write,
}

add_response-Sure :
    (text : List ℕ) (c : HttpConn) → Sure (λ (b, d). IsQuiet c d) (add_response text c)
unfolding add_response
add_response-Sure text c =
    Sure-if (leb write_buffer_size c.write_idx) (sure (is_quiet refl refl refl)) (
      Sure-bind
        (splice-Sure c.write_buf c.write_idx (printed (write_buffer_size - 1 - c.write_idx) text))
        λ buf _.
          Sure-if (leb (write_buffer_size - 1 - c.write_idx) (length text))
            (sure (is_quiet refl refl refl)) (sure (is_quiet refl refl refl)))

add_headers-Sure :
    (content_len : ℤ) (c : HttpConn) → Sure (λ (b, d). IsQuiet c d) (add_headers content_len c)
unfolding add_headers add_content_length add_linger add_blank_line
add_headers-Sure content_len c = Sure-bind (add_response-Sure _ c) λ (_, c) q_1.
    Sure-bind (add_response-Sure _ c) λ (_, c) q_2.
      Sure-bind (add_response-Sure _ c)
        λ (_, c) q_3. sure (IsQuiet-trans q_1 (IsQuiet-trans q_2 q_3))

add_page-Sure :
    (status : ℤ) (title : List ℕ) (content_len : ℕ) (body : List ℕ) (c : HttpConn)
    → Sure (λ (b, d). IsQuiet c d) (add_page status title content_len body c)
unfolding add_page add_status_line add_content
add_page-Sure status title content_len body c = Sure-bind (add_response-Sure _ c) λ (_, c) q_1.
    Sure-bind (add_headers-Sure (pos content_len) c) λ (_, c) q_2.
      Sure-mono (add_response-Sure body c) λ (_, d) q_3. IsQuiet-trans q_1 (IsQuiet-trans q_2 q_3)

write_file-Sure : (c : HttpConn) → Sure (λ (b, d). IsQuiet c d) (write_file c)
unfolding write_file add_status_line add_content two_blocks
write_file-Sure c = Sure-bind (add_response-Sure _ c) λ (_, d) q_1.
    Sure-if (d.file_size == 0)
      (Sure-bind (add_headers-Sure _ d) λ (_, e) q_2.
        Sure-bind (add_response-Sure _ e)
          λ (_, f) q_3. sure (IsQuiet-trans q_1 (IsQuiet-trans q_2 q_3)))
      (Sure-bind (add_headers-Sure _ d) λ (_, e) q_2.
        let q = IsQuiet-trans q_1 q_2 in sure (is_quiet q.same_calls q.same_count q.same_sockfd))

-- A page, and what is made of whether it went in.
page_then :
    (status : ℤ) (title : List ℕ) (content_len : ℕ) (body : List ℕ) (c : HttpConn)
    (choose : Bool → Bool)
    → Sure
        (λ (b, d). IsQuiet c d)
        (add_page status title content_len body c >>= λ (added, d).
          if choose added then ok (false, d) else ok (true, one_block d))
unfolding one_block
page_then status title content_len body c choose =
    Sure-bind (add_page-Sure status title content_len body c) λ (added, d) q.
      Sure-if (choose added) (sure q) (sure (is_quiet q.same_calls q.same_count q.same_sockfd))

pub process_write-Sure :
    (code : HttpCode) (c : HttpConn) → Sure (λ (b, d). IsQuiet c d) (process_write code c)
unfolding process_write
process_write-Sure internal_error c = page_then _ _ _ _ c not
process_write-Sure forbidden_request c = page_then _ _ _ _ c not
process_write-Sure bad_request c = page_then _ _ _ _ c (λ b. b)
process_write-Sure no_resource c = page_then _ _ _ _ c (λ b. b)
process_write-Sure file_request c = write_file-Sure c
process_write-Sure no_request c = sure (is_quiet refl refl refl)
process_write-Sure get_request c = sure (is_quiet refl refl refl)
process_write-Sure closed_connection c = sure (is_quiet refl refl refl)
