-- ===== src/Log/Writer/Names.antt =====
-- The names of the log's files, from `init` on.
use wzy_server.Prelude.{
  ℕ, zero, suc, ◌≡◌, ◌≢◌, refl, sym, ◌∙◌, Bool, true, false, ◌&&◌, ◌==◌, if◌then◌else◌, none, some,
  List, [], ◌++◌, append-nil, take, arith, Run, ok, ◌>>=◌, Returns, returns, Returns-bind, Any,
  codes,
}
use wzy_server.Prelude.Int.{ℤ, pos, negsuc, leb_ℤ}
use wzy_server.Queue.{init as new_queue}
use wzy_server.Http.Resource.{last_slash}
use wzy_server.Log.{Log, Time, date_text, new_file, rotate, lock}
use wzy_server.Log.Writer.{make_queue, first_name, init}

-- What `make_queue` leaves alone.
abbrev SameNames : Log → Log → Type 0
SameNames l m = (m.dir_name ≡ l.dir_name) × (m.log_name ≡ l.log_name) × (m.held ≡ l.held)

make_queue-SameNames : (max : ℤ) (l : Log) → Returns (SameNames l) (make_queue max l)
unfolding make_queue new_queue
make_queue-SameNames (pos zero) l = returns (refl, refl, refl)
make_queue-SameNames (pos (suc n)) l =
    let positive : leb_ℤ (pos 1) (pos (suc n)) ≡ true = ground arith in
    let not_zero : leb_ℤ (pos (suc n)) (pos 0) ≡ false = ground arith in
    rw (positive, not_zero) (returns (refl, refl, refl))
make_queue-SameNames (negsuc n) l =
    let negative : leb_ℤ (pos 1) (negsuc n) ≡ false = ground arith in
    rw negative (returns (refl, refl, refl))

-- `init` on a name without a slash, and then a line on another day.
abbrev pub start_and_rotate :
    (opens : List ℕ → Bool)
    → (first next : Time) → (file_name : List ℕ) → (log_buf_size split_lines : ℕ) → ℤ
    → Log
    → Run Log
start_and_rotate opens first next file_name log_buf_size split_lines max l =
    init opens first file_name log_buf_size split_lines max l >>= λ (opened, l). rotate opens next l

new_file-other_day :
    (t : Time) (l : Log)
    → (l.today == t.tm_mday) ≡ false
    → new_file t l ≡ (
      take 254 (l.dir_name ++ take 15 (date_text t) ++ l.log_name),
      record l { today = t.tm_mday; count = 0 },
    )
unfolding new_file
new_file-other_day t l other = rw other refl

never : (b : Bool) → (b && false) ≡ false
never true = refl
never false = refl

another_day :
    (opens : List ℕ → Bool) (t : Time) (l : Log) (old : List ℕ)
    → l.held ≡ false
    → l.file ≡ some old
    → l.today ≢ t.tm_mday
    → let name = take 254 (l.dir_name ++ take 15 (date_text t) ++ l.log_name) in
      rotate opens t l
      ≡ ok (record l {
        today = t.tm_mday;
        count = 0;
        held = false;
        file = if opens name then some name else none;
      })
unfolding rotate lock
another_day opens t l old free is_open day =
    let other : (l.today == t.tm_mday) ≡ false = ground (arith, day) in
    simp (free, other, never, is_open) refl

-- What `init` leaves for a name without a slash.
record Started (t : Time) (name : List ℕ) (l m : Log) : Type 0 where
  file_is : m.file ≡ some name
  today_is : m.today ≡ t.tm_mday
  names : SameNames l m

first_name-no_slash :
    (t : Time) (file_name : List ℕ) (l : Log)
    → last_slash file_name ≡ none
    → first_name t file_name l ≡ ok (take 254 (date_text t ++ codes "_" ++ file_name), l)
unfolding first_name
first_name-no_slash t file_name l no_slash = rw (no_slash, first_name) refl

init-Started :
    (opens : List ℕ → Bool) (t : Time) (file_name : List ℕ) (log_buf_size split_lines : ℕ) (max : ℤ)
    (l : Log)
    → last_slash file_name ≡ none
    → opens (take 254 (date_text t ++ codes "_" ++ file_name)) ≡ true
    → Returns
        (λ (opened, m). Started t (take 254 (date_text t ++ codes "_" ++ file_name)) l m)
        (init opens t file_name log_buf_size split_lines max l)
unfolding init
init-Started opens t file_name log_buf_size split_lines max l no_slash opened =
    Returns-bind (make_queue-SameNames max l) λ m same.
      rw (first_name-no_slash t file_name _ no_slash, opened)
        (returns (record { file_is = refl; today_is = refl; names = same }))

-- A new log that is started on a name without a slash, such as the "ServerLog" of `main`, and whose
-- file can be opened forgets the name: where the first line that follows comes on another day of
-- the month, the new file is called by the date alone, and there is none if that cannot be opened.
pub name_forgotten :
    (opens : List ℕ → Bool) (first next : Time) (file_name : List ℕ) (log_buf_size split_lines : ℕ)
    (max : ℤ) (l : Log)
    → l.held ≡ false
    → l.dir_name ≡ []
    → l.log_name ≡ []
    → last_slash file_name ≡ none
    → opens (take 254 (date_text first ++ codes "_" ++ file_name)) ≡ true
    → first.tm_mday ≢ next.tm_mday
    → let name = take 254 (take 15 (date_text next)) in
      Returns
        (λ m. m.file ≡ (if opens name then some name else none))
        (start_and_rotate opens first next file_name log_buf_size split_lines max l)
name_forgotten opens first next file_name log_buf_size split_lines max l free no_dir no_name
      no_slash opened day =
    Returns-bind (init-Started opens first file_name log_buf_size split_lines max l no_slash opened)
      λ (done, m) started.
        let (dir, kept, held) = started.names in
        let other : m.today ≢ next.tm_mday = λ e. day (sym started.today_is ∙ e) in
        rw
          (
            another_day opens next m _ (held ∙ free) started.file_is other,
            dir,
            no_dir,
            kept,
            no_name,
            append-nil,
          )
          (returns refl)

-- `init` on a name without a slash returns, whether or not the file can be opened.
pub init_returns :
    (opens : List ℕ → Bool) (t : Time) (file_name : List ℕ) (log_buf_size split_lines : ℕ) (max : ℤ)
    (l : Log)
    → last_slash file_name ≡ none
    → Returns Any (init opens t file_name log_buf_size split_lines max l)
unfolding init
init_returns opens t file_name log_buf_size split_lines max l no_slash =
    Returns-bind (make_queue-SameNames max l)
      λ m same. rw (first_name-no_slash t file_name _ no_slash) (returns tt)
