-- ===== src/Http/Line/Advance.antt =====
-- A line that `parse_line` finds takes bytes off what is unread.
use wzy_server.Prelude.{
  ℕ, zero, suc, ◌+◌, ◌-◌, ◌<◌, ◌≡◌, refl, true, ◌==◌, List, get_elem?, ltb, arith, Run, Sure, sure,
  sure_fault, sure_blocked, sure_exits, Sure-bind, Sure-if, Sure-or_fault,
}
use wzy_server.Http.{HttpConn}
use wzy_server.Http.Watched.{IsQuiet, is_quiet}
use wzy_server.Http.Line.{cr, lf, Found, at_cr, at_lf, scan, parse_line, is_line_ok}

-- The index behind a line that was found.
FoundFrom : ℕ → ℕ → Found → Type 0
FoundFrom i read_idx (status, j, buf) = is_line_ok status ≡ true → (i < j) × (i < read_idx)

at_cr-Sure :
    (i read_idx : ℕ) (buf : List ℕ)
    → i < read_idx
    → Sure (FoundFrom i read_idx) (at_cr i read_idx buf)
unfolding at_cr FoundFrom
at_cr-Sure i read_idx buf h = Sure-if (i + 1 == read_idx) (sure λ e. cc) (
    Sure-bind (Sure-or_fault (get_elem? buf (i + 1)))
      λ temp _. Sure-if (temp == lf) (sure λ e. (omega arith, h)) (sure λ e. cc))

at_lf-Sure :
    (i read_idx : ℕ) (buf : List ℕ) → i < read_idx → Sure (FoundFrom i read_idx) (at_lf i buf)
unfolding at_lf FoundFrom
at_lf-Sure i read_idx buf h =
    Sure-if (ltb 1 i)
      (Sure-bind (Sure-or_fault (get_elem? buf (i - 1)))
        λ temp _. Sure-if (temp == cr) (sure λ e. (omega arith, h)) (sure λ e. cc))
      (sure λ e. cc)

FoundFrom-weaken :
    (i read_idx : ℕ) {m : Run Found}
    → i < read_idx
    → Sure (FoundFrom (i + 1) read_idx) m
    → Sure (FoundFrom i read_idx) m
unfolding FoundFrom
FoundFrom-weaken i read_idx h (sure p) = sure λ e. (omega (arith, (p e).0), h)
FoundFrom-weaken i read_idx h sure_fault = sure_fault
FoundFrom-weaken i read_idx h sure_blocked = sure_blocked
FoundFrom-weaken i read_idx h sure_exits = sure_exits

scan-Sure :
    (left i read_idx : ℕ) (buf : List ℕ)
    → left ≡ read_idx - i
    → Sure (FoundFrom i read_idx) (scan left i read_idx buf)
unfolding scan FoundFrom
scan-Sure zero i read_idx buf h = sure λ e. cc
scan-Sure (suc left) i read_idx buf h =
    let lt : i < read_idx = omega (arith, h) in
    Sure-bind (Sure-or_fault (get_elem? buf i)) λ temp _.
      Sure-if (temp == cr) (at_cr-Sure i read_idx buf lt) (
        Sure-if (temp == lf) (at_lf-Sure i read_idx buf lt)
          (FoundFrom-weaken i read_idx lt (scan-Sure left (i + 1) read_idx buf (omega (arith, h)))))

-- The unread bytes.
abbrev pub left : HttpConn → ℕ
left c = c.read_idx - c.check_idx

pub parse_line-Sure :
    (c : HttpConn)
    → Sure
        (λ (status, d).
          (is_line_ok status ≡ true → left d < left c)
          × (d.check_state ≡ c.check_state)
          × IsQuiet c d)
        (parse_line c)
unfolding parse_line FoundFrom
parse_line-Sure c =
    Sure-bind (scan-Sure (c.read_idx - c.check_idx) c.check_idx c.read_idx c.read_buf refl)
      λ (status, i, buf) p.
        sure (λ e. omega (arith, (p e).0, (p e).1), refl, is_quiet refl refl refl)
