-- ===== src/Http/Request/Words.antt =====
-- Words between blanks in the read buffer, and the C strings that the parser makes of them.
use wzy_server.Prelude.{
  ℕ, zero, suc, ◌+◌, ◌≡◌, refl, ap, ◌∙◌, sym, false, ◌==◌, some, List, [], ◌∷◌, ◌++◌, length, drop,
  set, set-append, c_string, drop-append, Run, ok, ◌>>=◌, arith, Bool-cases, inl, inr, fault,
  blocked, exits, out_of_fuel, get_elem?, ◌≤◌,
}
use wzy_server.Http.{HttpConn}
use wzy_server.Http.Request.{string_at, cut, is_blank, find_blank, blanks}

-- A text with no NUL, blank or tab.
abbrev pub IsWord : List ℕ → Type 0
IsWord [] = Unit {0}
IsWord (x ∷ xs) = ((x == 0) ≡ false) × (is_blank x ≡ false) × IsWord xs

-- A text with no NUL.
abbrev pub IsText : List ℕ → Type 0
IsText [] = Unit {0}
IsText (x ∷ xs) = ((x == 0) ≡ false) × IsText xs

pub IsWord-IsText : (w : List ℕ) → IsWord w → IsText w
IsWord-IsText [] h = tt
IsWord-IsText (x ∷ xs) (real, _, h) = (real, IsWord-IsText xs h)

pub IsText-append : (v w : List ℕ) → IsText v → IsText w → IsText (v ++ w)
IsText-append [] w g h = h
IsText-append (x ∷ xs) w (real, g) h = (real, IsText-append xs w g h)

pub c_string-text : (s rest : List ℕ) → IsText s → c_string (s ++ 0 ∷ rest) ≡ ok s
unfolding c_string
c_string-text [] rest h = refl
c_string-text (x ∷ xs) rest (real, h) = rw (real, c_string-text xs rest h) refl

-- The string at `p`, and the NUL put there, in a buffer that has `front` before `p`.
pub string_at-text :
    (c : HttpConn) (p : ℕ) (front s rest : List ℕ)
    → length front ≡ p
    → c.read_buf ≡ front ++ (s ++ 0 ∷ rest)
    → IsText s
    → string_at c p ≡ ok s
unfolding string_at
string_at-text c p front s rest at e h =
    rw (← at, e, drop-append front (s ++ 0 ∷ rest)) (c_string-text s rest h)

pub cut-text :
    (c : HttpConn) (p : ℕ) (front rest : List ℕ) (x : ℕ)
    → length front ≡ p
    → c.read_buf ≡ front ++ x ∷ rest
    → cut p c ≡ record c { read_buf = front ++ 0 ∷ rest }
unfolding cut
cut-text c p front rest x at e =
    ap (λ buf. record c { read_buf = buf })
      (ap (λ buf. set buf p 0) e ∙ set-append front rest p x 0 at)

-- The blank behind a word is found.
pub find_blank-word : (w rest : List ℕ) → IsWord w → find_blank (w ++ b' ' ∷ rest) ≡ some (length w)
unfolding find_blank
find_blank-word [] rest h = refl
find_blank-word (x ∷ xs) rest (_, plain, h) = rw (plain, find_blank-word xs rest h) refl

-- A word has no blanks to skip.
pub blanks-none : (x : ℕ) (s : List ℕ) (p : ℕ) → is_blank x ≡ false → p + blanks (x ∷ s) ≡ p
unfolding blanks
blanks-none x s p plain = ground (arith, plain)

consed :
    (m : Run (List ℕ)) (x : ℕ) (s : List ℕ)
    → (do t ← m; ok (x ∷ t)) ≡ ok s
    → (t : List ℕ) × (m ≡ ok t) × (s ≡ x ∷ t)
consed (ok t) x s e = (t, refl, cc)
consed fault x s e = cc
consed blocked x s e = cc
consed exits x s e = cc
consed out_of_fuel x s e = cc

-- A C string is what stands before a NUL.
pub c_string-bytes : (xs s : List ℕ) → c_string xs ≡ ok s → (rest : List ℕ) × (xs ≡ s ++ 0 ∷ rest)
unfolding c_string
c_string-bytes [] s e = cc
c_string-bytes (x ∷ xs) s e = elim (Bool-cases (x == 0)) [
  | inl nul ↦ (xs, ground (arith, e, nul))
  | inr real ↦
      let (t, found, same) = consed (c_string xs) x s (ground (arith, e, real)) in
      let (rest, bytes) = c_string-bytes xs t found in
      (rest, ap (λ r. x ∷ r) bytes ∙ ap (λ r. r ++ 0 ∷ rest) (sym same))
]

get_elem?-ended :
    (s rest : List ℕ) (i : ℕ)
    → i ≤ length s
    → get_elem? (s ++ 0 ∷ rest) i ≡ get_elem? (s ++ 0 ∷ []) i
get_elem?-ended [] rest zero h = refl
get_elem?-ended [] rest (suc i) h = absurd (omega arith)
get_elem?-ended (x ∷ s) rest zero h = refl
get_elem?-ended (x ∷ s) rest (suc i) h = get_elem?-ended s rest i (omega arith)

get_elem?-drop : (p i : ℕ) (xs : List ℕ) → get_elem? (drop p xs) i ≡ get_elem? xs (p + i)
get_elem?-drop zero i xs = ap (λ n. get_elem? xs n) (omega arith)
get_elem?-drop (suc p) i [] = refl
get_elem?-drop (suc p) i (x ∷ xs) =
    let shift : suc p + i ≡ suc (p + i) = omega arith in rw shift (get_elem?-drop p i xs)

-- So the bytes of the string at `p`, its NUL included, are those of the buffer.
pub string_at-bytes :
    (c : HttpConn) (p i : ℕ) (s : List ℕ)
    → string_at c p ≡ ok s
    → i ≤ length s
    → get_elem? c.read_buf (p + i) ≡ get_elem? (s ++ 0 ∷ []) i
unfolding string_at
string_at-bytes c p i s e h =
    let (rest, bytes) = c_string-bytes (drop p c.read_buf) s e in
    sym (get_elem?-drop p i c.read_buf)
    ∙ ap (λ xs. get_elem? xs i) bytes
    ∙ get_elem?-ended s rest i h
