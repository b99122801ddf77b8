-- ===== src/Http/Process/Answers.antt =====
-- A whole GET of a file, from its first byte to what `process_read` answers.
use wzy_server.Prelude.{
  ℕ, ◌+◌, ◌<◌, ◌≡◌, ap, ◌∙◌, false, ◌||◌, some, List, [], ◌∷◌, ◌++◌, length, get_elem?, arith,
  Returns, Returns-mono,
}
use wzy_server.Http.{HttpConn, filename_len}
use wzy_server.Http.Line.{cr, lf}
use wzy_server.Http.Line.Lines.{IsPlain}
use wzy_server.Http.Line.Cut.{Layout}
use wzy_server.Http.Request.Words.{IsWord, IsText, IsWord-IsText}
use wzy_server.Http.Request.Stages.{line_text, url_start}
use wzy_server.Http.Resource.{Site, Users, last_slash}
use wzy_server.Http.Resource.Plain.{IsName, answer, content, do_request-name}
use wzy_server.Http.Process.{process_read}
use wzy_server.Http.Process.Headed.{AllHeaders, wire, any_keeps_alive}
use wzy_server.Http.Process.Requests.{IsFresh, request_is_served}

-- On a connection that has looked at nothing yet, with `cgi` unset and a `m_real_file` of its full
-- size: a GET that has come in as a whole, with any headers but a Content-Length, of a URL of a
-- slash, one byte more and the rest, without blanks, NULs and line ends, whose last part does not
-- start with the number of one of the pages and which fits into `m_real_file` behind the root, is
-- answered by what stands at the path of root and URL: NO_RESOURCE where there is nothing,
-- FORBIDDEN_REQUEST where others may not read, BAD_REQUEST for a directory, and else FILE_REQUEST
-- with the file's content. The connection is kept open if a header asks for it, and the accounts
-- stay the same.
pub get_is_answered :
    (site : Site) (users : Users) (c : HttpConn) (x : ℕ) (u : List ℕ) (hs : List (List ℕ))
    (more spare : List ℕ) (n kind : ℕ)
    → IsFresh c
    → c.cgi ≡ false
    → length c.real_file ≡ filename_len
    → IsWord (b'/' ∷ x ∷ u)
    → IsPlain (b'/' ∷ x ∷ u)
    → AllHeaders hs
    → Layout c [] (line_text false (b'/' ∷ x ∷ u) ++ cr ∷ lf ∷ wire hs more) spare
    → last_slash (b'/' ∷ x ∷ u) ≡ some n
    → get_elem? ((b'/' ∷ x ∷ u) ++ 0 ∷ []) (n + 1) ≡ some kind
    → IsName kind
    → length site.doc_root + length (b'/' ∷ x ∷ u) + 1 < filename_len
    → IsText site.doc_root
    → Returns
        (λ (code, d, us).
          (code ≡ answer (site.stat (site.doc_root ++ b'/' ∷ x ∷ u)))
          × (d.file ≡ content site (site.doc_root ++ b'/' ∷ x ∷ u) c.file)
          × (d.linger ≡ (any_keeps_alive hs || c.linger))
          × (us ≡ users))
        (process_read site c users)
get_is_answered site users c x u hs more spare n kind fresh no_form size word plain all v slash at
      name fits root_text =
    let url : List ℕ = b'/' ∷ x ∷ u in
    let (d, served, _, place, string, cgi, linger, path, file) =
      request_is_served false x u site users c hs more spare fresh word plain all v in
    let answered =
      do_request-name site d users (url_start false []) n kind url (ap length path ∙ size) place
        string slash at name (ground (arith, cgi, no_form)) fits root_text
        (IsWord-IsText url word) in
    rw served (
      Returns-mono answered λ (code, e, us) (same_code, same_file, same_linger, same_users). (
        same_code,
        same_file ∙ ap (content site (site.doc_root ++ url)) file,
        same_linger ∙ linger,
        same_users,
      ))
