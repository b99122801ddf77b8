-- ===== src/Http/Resource/Plain.antt =====
-- `do_request` for a URL that is a file's name under the root, and not one of the pages by number.
use wzy_server.Prelude.{
  ℕ, suc, ◌+◌, ◌-◌, ◌<◌, ◌≤◌, ◌≡◌, refl, sym, ap, ◌∙◌, Bool, true, false, not, ◌&&◌, ◌||◌, ◌==◌,
  if◌then◌else◌, Option, none, some, List, [], ◌∷◌, ◌++◌, length, length-append, length-replicate,
  take, drop, get_elem?, replicate, append_assoc, ok, ◌>>=◌, arith, splice, splice-text, take-drop,
  take-padded, Returns, returns, Returns-bind, Option-cases, Bool-cases, inl, inr,
}
use wzy_server.Http.{
  HttpConn, HttpCode, no_resource, forbidden_request, bad_request, file_request, filename_len,
}
use wzy_server.Http.Request.{string_at}
use wzy_server.Http.Request.Words.{IsText, IsText-append, c_string-text, string_at-bytes}
use wzy_server.Http.Resource.{
  FileStat, Site, Users, last_slash, byte_at, put_path, choose_path, open_file, do_request,
}

-- The path of a file: the string that `m_real_file` holds.
abbrev HasPath : List ℕ → List ℕ → Type 0
HasPath buf path = (rest : List ℕ) × (buf ≡ path ++ 0 ∷ rest)

put_path-text :
    (c : HttpConn) (root s : List ℕ)
    → length c.real_file ≡ filename_len
    → take (length root) c.real_file ≡ root
    → length root + length s + 1 < filename_len
    → (buf : List ℕ) × (put_path (length root) (filename_len - length root - 1) s c
        ≡ ok (record c { real_file = buf }))
      × HasPath buf (root ++ s)
unfolding put_path
put_path-text c root s size starts fits =
    let len : ℕ = length root in
    let n : ℕ = filename_len - len - 1 in
    let left : ℕ = n - length s - 1 in
    let zeros : n - length s ≡ suc left = omega arith in
    let padded : take n (s ++ replicate n 0) ≡ (s ++ 0 ∷ []) ++ replicate left 0 =
      take-padded s n n (omega arith) (omega arith)
      ∙ ap (λ k. s ++ replicate k 0) zeros
      ∙ sym (append_assoc s (0 ∷ []) (replicate left 0)) in
    let (buf, put, _, text) = splice-text c.real_file (s ++ 0 ∷ []) (replicate left 0) len (
      omega (
        arith,
        size,
        length-append (s ++ 0 ∷ []) (replicate left 0),
        length-append s (0 ∷ []),
        length-replicate {A = ℕ} left 0,
      )) in
    let k : ℕ = len + length (s ++ 0 ∷ []) in
    (
      buf,
      rw (padded, put) refl,
      (
        drop k buf,
        take-drop k buf
            ∙ ap (λ r. r ++ drop k buf) (text ∙ ap (λ r. r ++ (s ++ 0 ∷ [])) starts)
            ∙ ap (λ r. r ++ drop k buf) (sym (append_assoc root s (0 ∷ [])))
            ∙ append_assoc (root ++ s) (0 ∷ []) (drop k buf),
      ),
    )

root_put :
    (c : HttpConn) (root : List ℕ)
    → length c.real_file ≡ filename_len
    → length root + 1 ≤ filename_len
    → (buf : List ℕ) × (splice c.real_file 0 (root ++ 0 ∷ []) ≡ ok buf)
      × (length buf ≡ filename_len)
      × (take (length root) buf ≡ root)
root_put c root size fits =
    let (buf, put, len, text) =
      splice-text c.real_file root (0 ∷ []) 0 (omega (arith, size, length-append root (0 ∷ []))) in
    let same : 0 + length root ≡ length root = omega arith in
    (buf, put, len ∙ size, ap (λ n. take n buf) (sym same) ∙ text)

-- A byte that is not the number of one of the pages.
abbrev pub IsName : ℕ → Type 0
IsName x =
    ((x == b'0') ≡ false)
    × ((x == b'1') ≡ false)
    × ((x == b'5') ≡ false)
    × ((x == b'6') ≡ false)
    × ((x == b'7') ≡ false)

choose_path-name :
    (c : HttpConn) (url len kind : ℕ) (s : List ℕ)
    → IsName kind
    → string_at c url ≡ ok s
    → choose_path url len kind c ≡ put_path len (filename_len - len - 1) s c
unfolding choose_path
choose_path-name c url len kind s (a, b, d, f, g) e = rw (a, b, d, f, g, e) refl

-- What a client is to be answered for a path, and what is mapped.
unfoldable pub answer : Option FileStat → HttpCode
answer none = no_resource
answer (some st) =
    if not st.others_read
    then forbidden_request
    else if st.directory
    then bad_request
    else file_request

unfoldable pub is_file_request : HttpCode → Bool
is_file_request file_request = true
is_file_request _ = false

unfoldable pub content : Site → List ℕ → List ℕ → List ℕ
unfolding answer is_file_request
content site path old =
    if is_file_request (answer (site.stat path)) then (site.map_file path).1 else old

open_file-path :
    (site : Site) (c : HttpConn) (path : List ℕ)
    → IsText path
    → HasPath c.real_file path
    → Returns
        (λ (code, d).
          (code ≡ answer (site.stat path))
          × (d.file ≡ content site path c.file)
          × (d.linger ≡ c.linger))
        (open_file site c)
unfolding open_file content answer is_file_request
open_file-path site c path text (rest, e) =
    rw (e, c_string-text path rest text)
      (elim (Option-cases (site.stat path)) [
        | inl none_there ↦ rw none_there (returns (refl, refl, refl))
        | inr (st, there) ↦ rw there (elim (Bool-cases st.others_read) [
          | inr closed ↦ rw closed (returns (refl, refl, refl))
          | inl open_to_all ↦ rw open_to_all (elim (Bool-cases st.directory) [
            | inl folder ↦ rw folder (returns (refl, refl, refl))
            | inr file ↦ rw file (returns (refl, refl, refl))
          ])
        ])
      ])

string_at-path :
    (c : HttpConn) (p : ℕ) (buf : List ℕ)
    → string_at (record c { real_file = buf }) p ≡ string_at c p
unfolding string_at
string_at-path c p buf = refl

byte_at-read : (c : HttpConn) (p x : ℕ) → get_elem? c.read_buf p ≡ some x → byte_at p c ≡ ok x
unfolding byte_at
byte_at-read c p x e = rw e refl

do_request-stages :
    (site : Site) (c c_1 c_2 : HttpConn) (users : Users) (url n kind : ℕ) (buf s : List ℕ)
    → splice c.real_file 0 (site.doc_root ++ 0 ∷ []) ≡ ok buf
    → record c { real_file = buf } ≡ c_1
    → c_1.url ≡ some url
    → string_at c_1 url ≡ ok s
    → last_slash s ≡ some n
    → byte_at (url + n + 1) c_1 ≡ ok kind
    → (c_1.cgi && ((kind == b'2') || (kind == b'3'))) ≡ false
    → choose_path url (length site.doc_root) kind c_1 ≡ ok c_2
    → do_request site c users ≡ (do (code, d) ← open_file site c_2; ok (code, d, users))
unfolding do_request
do_request-stages site c c_1 c_2 users url n kind buf s put same place e slash at no_form chosen =
    ground arith

last_slash-inside : (s : List ℕ) (n : ℕ) → last_slash s ≡ some n → n < length s
unfolding last_slash
last_slash-inside [] n e = cc
last_slash-inside (x ∷ xs) n e = elim (Option-cases (last_slash xs)) [
  | inl none_there ↦ ground (arith, e, none_there)
  | inr (m, there) ↦ ground (arith, e, there, last_slash-inside xs m there)
]

-- For a URL whose last part does not start with the number of one of the pages, under a root with
-- which it fits into `m_real_file`, the answer is the one for the path of root and URL: NO_RESOURCE
-- where there is nothing, FORBIDDEN_REQUEST where others may not read, BAD_REQUEST for a directory,
-- and else FILE_REQUEST with the file's content. The accounts stay the same.
pub do_request-name :
    (site : Site) (c : HttpConn) (users : Users) (url n kind : ℕ) (s : List ℕ)
    → length c.real_file ≡ filename_len
    → c.url ≡ some url
    → string_at c url ≡ ok s
    → last_slash s ≡ some n
    → get_elem? (s ++ 0 ∷ []) (n + 1) ≡ some kind
    → IsName kind
    → (c.cgi && ((kind == b'2') || (kind == b'3'))) ≡ false
    → length site.doc_root + length s + 1 < filename_len
    → IsText site.doc_root
    → IsText s
    → Returns
        (λ (code, d, us).
          (code ≡ answer (site.stat (site.doc_root ++ s)))
          × (d.file ≡ content site (site.doc_root ++ s) c.file)
          × (d.linger ≡ c.linger)
          × (us ≡ users))
        (do_request site c users)
do_request-name site c users url n kind s size place e slash at name no_form fits root_text text =
    let root = site.doc_root in
    let (buf, put, len, starts) = root_put c root size (omega arith) in
    let c_1 : HttpConn = record c { real_file = buf } in
    let inside = last_slash-inside s n slash in
    let same : url + (n + 1) ≡ url + n + 1 = omega arith in
    let read : get_elem? c.read_buf (url + n + 1) ≡ some kind =
      ap (λ i. get_elem? c.read_buf i) (sym same)
      ∙ string_at-bytes c url (n + 1) s e (omega arith)
      ∙ at in
    let e_1 = string_at-path c url buf ∙ e in
    let (buf_2, put_2, has) = put_path-text c_1 root s len starts fits in
    let c_2 : HttpConn = record c_1 { real_file = buf_2 } in
    let chosen = choose_path-name c_1 url (length root) kind s name e_1 ∙ put_2 in
    let found = open_file-path site c_2 (root ++ s) (IsText-append root s root_text text) has in
    rw
      (do_request-stages site c c_1 c_2 users url n kind buf s put refl place e_1 slash
        (byte_at-read c_1 (url + n + 1) kind read) no_form chosen)
      (Returns-bind found λ (code, d) (same_code, same_file, same_linger).
        returns (same_code, same_file, same_linger, refl))
