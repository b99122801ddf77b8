-- ===== src/Log/Files.antt =====
-- Which file a line of the log goes to.
use wzy_server.Prelude.{
  ℕ, ◌+◌, ◌%◌, ◌≡◌, ◌≢◌, refl, ap, Bool, true, false, ◌==◌, if◌then◌else◌, none, some, List, ◌++◌,
  take, codes, arith, append_assoc, digits_from, ok,
}
use wzy_server.Log.{Log, Time, date_text, new_file, rotate}

new_file-same_day :
    (t : Time) (l : Log)
    → l.today ≡ t.tm_mday
    → l.count % l.split_lines ≡ 0
    → new_file t l ≡ (take 254 (l.dir_name ++ take 15 (date_text t) ++ l.log_name ++ codes ".0"), l)
unfolding new_file digits_from
new_file-same_day t l day due =
    let same : (l.today == t.tm_mday) ≡ true = ground (arith, day) in
    let name =
      append_assoc (l.dir_name ++ take 15 (date_text t) ++ l.log_name) (codes ".") (codes "0") in
    rw (same, due) (ap (λ (s : List ℕ). (take 254 s, l)) name)

-- On the same day every `m_split_lines`-th line begins a file, but always the same one: its name
-- ends in ".0" whatever the number of lines so far.
pub rotate_same_name :
    (opens : List ℕ → Bool) (t : Time) (l : Log) (old : List ℕ)
    → l.held ≡ false
    → l.file ≡ some old
    → l.today ≡ t.tm_mday
    → l.split_lines ≢ 0
    → (l.count + 1) % l.split_lines ≡ 0
    → let name = take 254 (l.dir_name ++ take 15 (date_text t) ++ l.log_name ++ codes ".0") in
      rotate opens t l
      ≡ ok (record l { count = l.count + 1; file = if opens name then some name else none })
unfolding rotate
rotate_same_name opens t l old free is_open day some_lines due =
    let same : (l.today == t.tm_mday) ≡ true = ground (arith, day) in
    let no_zero : (l.split_lines == 0) ≡ false = ground (arith, some_lines) in
    rw
      (
        free,
        same,
        no_zero,
        due,
        is_open,
        new_file-same_day t (record l { count = l.count + 1; held = true }) day due,
      )
      refl

-- Between two such lines of a day the file is kept, and the line is counted.
pub rotate_keeps :
    (opens : List ℕ → Bool) (t : Time) (l : Log)
    → l.held ≡ false
    → l.today ≡ t.tm_mday
    → l.split_lines ≢ 0
    → (l.count + 1) % l.split_lines ≢ 0
    → rotate opens t l ≡ ok (record l { count = l.count + 1 })
unfolding rotate
rotate_keeps opens t l free day some_lines kept =
    let same : (l.today == t.tm_mday) ≡ true = ground (arith, day) in
    let no_zero : (l.split_lines == 0) ≡ false = ground (arith, some_lines) in
    let not_due : ((l.count + 1) % l.split_lines == 0) ≡ false = ground (arith, kept) in
    rw (free, same, no_zero, not_due) refl
