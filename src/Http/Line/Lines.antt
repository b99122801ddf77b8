-- ===== src/Http/Line/Lines.antt =====
-- What `parse_line` finds in the bytes that the connection has read and not looked through.
use wzy_server.Prelude.{
  ℕ, suc, ◌+◌, ◌-◌, ◌≤◌, ◌≡◌, ◌≢◌, refl, sym, ap, subst, false, ◌==◌, List, [], ◌∷◌, ◌++◌, set,
  get_elem?, length, length-append, append-nil, some, ok, arith, ◌⊎◌, inl, inr, Returns, returns,
}
use wzy_server.Http.{HttpConn, line_ok, line_bad, line_open}
use wzy_server.Http.Line.{cr, lf, scan, parse_line}

-- A text with neither of the two bytes that end lines.
abbrev pub IsPlain : List ℕ → Type 0
IsPlain [] = Unit
IsPlain (x ∷ xs) = (x ≢ cr) × (x ≢ lf) × IsPlain xs

-- The buffer holds the bytes from `i` on.
abbrev pub HasAt : List ℕ → ℕ → List ℕ → Type 0
HasAt buf i [] = Unit
HasAt buf i (x ∷ xs) = (get_elem? buf i ≡ some x) × HasAt buf (i + 1) xs

-- `new` is what was read and not looked through.
pub record Unread (c : HttpConn) (new : List ℕ) : Type 0 where
  pub bytes : HasAt c.read_buf c.check_idx new
  pub ends : c.read_idx ≡ c.check_idx + length new

HasAt-behind :
    (buf : List ℕ) (i : ℕ) (xs ys : List ℕ) → HasAt buf i (xs ++ ys) → HasAt buf (i + length xs) ys
HasAt-behind buf i [] ys h = let same : i + 0 ≡ i = omega arith in rw same h
HasAt-behind buf i (x ∷ xs) ys (_, h) =
    let shift : i + suc (length xs) ≡ i + 1 + length xs = omega arith in
    rw shift (HasAt-behind buf (i + 1) xs ys h)

-- A plain text is passed over.
scan-plain :
    (buf : List ℕ) (i read_idx left : ℕ) (text rest : List ℕ)
    → IsPlain text
    → HasAt buf i (text ++ rest)
    → scan (length text + left) i read_idx buf ≡ scan left (i + length text) read_idx buf
unfolding scan
scan-plain buf i read_idx left [] rest plain h =
    let same : i + 0 ≡ i = omega arith in
    let same_2 : 0 + left ≡ left = omega arith in rw (same, same_2) refl
scan-plain buf i read_idx left (x ∷ text) rest (no_cr, no_lf, plain) (here, h) =
    let shift : i + suc (length text) ≡ i + 1 + length text = omega arith in
    let shift_2 : suc (length text) + left ≡ suc (length text + left) = omega arith in
    let x_cr : (x == cr) ≡ false = ground (arith, no_cr) in
    let x_lf : (x == lf) ≡ false = ground (arith, no_lf) in
    rw (shift, shift_2, here, x_cr, x_lf) (scan-plain buf (i + 1) read_idx left text rest plain h)

scan_line :
    (buf : List ℕ) (i read_idx left : ℕ) (rest : List ℕ)
    → HasAt buf i (cr ∷ lf ∷ rest)
    → i + 2 ≤ read_idx
    → scan (suc left) i read_idx buf ≡ ok (line_ok, i + 2, set (set buf i 0) (i + 1) 0)
unfolding scan
scan_line buf i read_idx left rest (a, (b, _)) h = ground (arith, a, b, h)

scan_open_cr :
    (buf : List ℕ) (i left : ℕ)
    → get_elem? buf i ≡ some cr
    → scan (suc left) i (i + 1) buf ≡ ok (line_open, i, buf)
unfolding scan
scan_open_cr buf i left a = ground (arith, a)

scan_bad_cr :
    (buf : List ℕ) (i read_idx left x : ℕ) (rest : List ℕ)
    → HasAt buf i (cr ∷ x ∷ rest)
    → x ≢ lf
    → i + 2 ≤ read_idx
    → scan (suc left) i read_idx buf ≡ ok (line_bad, i, buf)
unfolding scan
scan_bad_cr buf i read_idx left x rest (a, (b, _)) ne h = ground (arith, a, b, ne, h)

scan_bad_lf :
    (buf : List ℕ) (i read_idx left x : ℕ)
    → get_elem? buf i ≡ some x
    → x ≢ cr
    → get_elem? buf (i + 1) ≡ some lf
    → scan (suc left) (i + 1) read_idx buf ≡ ok (line_bad, i + 1, buf)
unfolding scan
scan_bad_lf buf i read_idx left x a ne b =
    let back : i + 1 - 1 ≡ i = omega arith in
    ground (arith, a, b, ne, ap (λ j. get_elem? buf j) back)

-- A plain text that ends in "\r\n" is a line: its end becomes two NULs, and the next look starts
-- behind it. What follows does not matter.
pub parse_line-line :
    (c : HttpConn) (text rest : List ℕ)
    → IsPlain text
    → Unread c (text ++ cr ∷ lf ∷ rest)
    → let i = c.check_idx + length text in
      parse_line c
      ≡ ok (line_ok, record c { check_idx = i + 2; read_buf = set (set c.read_buf i 0) (i + 1) 0 })
unfolding parse_line
parse_line-line c text rest plain u =
    let len = length-append text (cr ∷ lf ∷ rest) in
    let left : c.read_idx - c.check_idx ≡ length text + suc (suc (length rest)) =
      omega (arith, len, u.ends) in
    rw
      (
        left,
        scan-plain c.read_buf c.check_idx c.read_idx (suc (suc (length rest))) text (cr ∷ lf ∷ rest)
            plain u.bytes,
        scan_line c.read_buf (c.check_idx + length text) c.read_idx (suc (length rest)) rest
            (HasAt-behind c.read_buf c.check_idx text (cr ∷ lf ∷ rest) u.bytes)
            (omega (arith, len, u.ends)),
      )
      refl

-- A plain text that comes before the rest is looked through once: the look that starts behind it
-- finds what a look at everything finds.
pub parse_line-resumes :
    (c : HttpConn) (text rest : List ℕ)
    → IsPlain text
    → Unread c (text ++ rest)
    → parse_line c ≡ parse_line (record c { check_idx = c.check_idx + length text })
unfolding parse_line
parse_line-resumes c text rest plain u =
    let len = length-append text rest in
    let left : c.read_idx - c.check_idx ≡ length text + length rest = omega (arith, len, u.ends) in
    let left_2 : c.read_idx - (c.check_idx + length text) ≡ length rest =
      omega (arith, len, u.ends) in
    rw
      (
        left,
        left_2,
        scan-plain c.read_buf c.check_idx c.read_idx (length rest) text rest plain u.bytes,
      )
      refl

-- Without the end of a line, with or without its "\r", the look says `line_open`, changes no byte,
-- and leaves `m_check_idx` behind the plain text, where the next look may start.
pub parse_line-open :
    (c : HttpConn) (text : List ℕ)
    → IsPlain text
    → Unread c text ⊎ Unread c (text ++ cr ∷ [])
    → parse_line c ≡ ok (line_open, record c { check_idx = c.check_idx + length text })
unfolding parse_line
parse_line-open c text plain (inl u) =
    let left : c.read_idx - c.check_idx ≡ length text + 0 = omega (arith, u.ends) in
    let bytes = subst (λ t. HasAt c.read_buf c.check_idx t) (sym (append-nil text)) u.bytes in
    rw (left, scan-plain c.read_buf c.check_idx c.read_idx 0 text [] plain bytes) refl
parse_line-open c text plain (inr u) =
    let len = length-append text (cr ∷ []) in
    let left : c.read_idx - c.check_idx ≡ length text + 1 = omega (arith, len, u.ends) in
    let end : c.read_idx ≡ c.check_idx + length text + 1 = omega (arith, len, u.ends) in
    let behind = HasAt-behind c.read_buf c.check_idx text (cr ∷ []) u.bytes in
    rw
      (
        left,
        scan-plain c.read_buf c.check_idx c.read_idx 1 text (cr ∷ []) plain u.bytes,
        end,
        scan_open_cr c.read_buf (c.check_idx + length text) 0 behind.0,
      )
      refl

-- A "\r" with another byte behind it, or a "\n" behind a byte that is no "\r", is `line_bad`.
pub parse_line-bad :
    (c : HttpConn) (text rest : List ℕ) (x : ℕ)
    → IsPlain text
    → ((x ≢ lf) × Unread c (text ++ cr ∷ x ∷ rest))
      ⊎ ((x ≢ cr) × (x ≢ lf) × Unread c (text ++ x ∷ lf ∷ rest))
    → Returns (λ (status, d). status ≡ line_bad) (parse_line c)
unfolding parse_line
parse_line-bad c text rest x plain (inl (ne, u)) =
    let len = length-append text (cr ∷ x ∷ rest) in
    let left : c.read_idx - c.check_idx ≡ length text + suc (suc (length rest)) =
      omega (arith, len, u.ends) in
    let behind = HasAt-behind c.read_buf c.check_idx text (cr ∷ x ∷ rest) u.bytes in
    rw
      (
        left,
        scan-plain c.read_buf c.check_idx c.read_idx (suc (suc (length rest))) text (cr ∷ x ∷ rest)
            plain u.bytes,
        scan_bad_cr c.read_buf (c.check_idx + length text) c.read_idx (suc (length rest)) x rest
            behind ne (omega (arith, len, u.ends)),
      )
      (returns refl)
parse_line-bad c text rest x plain (inr (no_cr, no_lf, u)) =
    let len = length-append text (x ∷ lf ∷ rest) in
    let left : c.read_idx - c.check_idx ≡ length text + (1 + suc (length rest)) =
      omega (arith, len, u.ends) in
    let behind = HasAt-behind c.read_buf c.check_idx text (x ∷ lf ∷ rest) u.bytes in
    rw
      (
        left,
        scan-plain c.read_buf c.check_idx c.read_idx (1 + suc (length rest)) text (x ∷ lf ∷ rest)
            plain u.bytes,
        scan-plain c.read_buf (c.check_idx + length text) c.read_idx (suc (length rest)) (x ∷ [])
            (lf ∷ rest) (no_cr, no_lf, tt) behind,
        scan_bad_lf c.read_buf (c.check_idx + length text) c.read_idx (length rest) x behind.0 no_cr
            behind.1.0,
      )
      (returns refl)
