-- ===== src/Prelude/Bytes.antt =====
-- Bytes, buffers and the C strings in them.
use Prim.Native.Char.{code}
use Prim.Native.String.{String}
use Prim.Native.Nat.{ℕ, zero, suc, ◌+◌, ◌-◌, ◌/◌, ◌%◌, ◌^◌, ◌≤◌}
use mathlib.Core.Path.{◌≡◌, refl, sym, ap, ◌∙◌}
use mathlib.Core.Bool.{Bool, true, false, ◌&&◌}
use mathlib.Core.Option.{some}
use mathlib.Core.List.{List, [], ◌∷◌, ◌++◌, append_assoc}
use native.Mathlib.Omega.{arith}
use wzy_server.Prelude.Tests.{ltb, leb, ◌==◌, if◌then◌else◌}
use wzy_server.Prelude.Lists.{length, get_elem?, set, take, drop, replicate, length-append}
use wzy_server.Prelude.Int.{ℤ, pos, negsuc}
use wzy_server.Prelude.Outcome.{
  Run, ok, fault, ◌>>=◌, Sure, sure, sure_fault, Sure-bind, Sure-if, Any,
}

-- The bytes of an ASCII text.
abbrev pub codes : String → List ℕ
codes String.[] = []
codes (String.◌∷◌ c s) = code c ∷ codes s

unfoldable pub eqb : List ℕ → List ℕ → Bool
eqb [] [] = true
eqb [] (y ∷ ys) = false
eqb (x ∷ xs) [] = false
eqb (x ∷ xs) (y ∷ ys) = (x == y) && eqb xs ys

-- Bytes put over those of a buffer from an index on, a fault where they do not fit.
unfoldable pub splice : List ℕ → ℕ → List ℕ → Run (List ℕ)
splice buf i s =
    if leb (i + length s) (length buf)
    then ok (take i buf ++ s ++ drop (i + length s) buf)
    else fault

-- The `n` bytes of a buffer from an index on, a fault where it has not as many.
unfoldable pub region : List ℕ → ℕ → ℕ → Run (List ℕ)
region buf i n = if leb (i + n) (length buf) then ok (take n (drop i buf)) else fault

-- The C string that starts a list of bytes, without its NUL.
unfoldable pub c_string : List ℕ → Run (List ℕ)
c_string [] = fault
c_string (x ∷ xs) = let rest = c_string xs in if x == 0 then ok [] else (do s ← rest; ok (x ∷ s))

pub take-append : (xs ys : List ℕ) → take (length xs) (xs ++ ys) ≡ xs
take-append [] ys = refl
take-append (x ∷ xs) ys = ap (λ r. x ∷ r) (take-append xs ys)

pub drop-append : (xs ys : List ℕ) → drop (length xs) (xs ++ ys) ≡ ys
drop-append [] ys = refl
drop-append (x ∷ xs) ys = drop-append xs ys

pub drop-add : (i : ℕ) (xs ys : List ℕ) → drop (length xs + i) (xs ++ ys) ≡ drop i ys
drop-add i [] ys = ap (λ n. drop n ys) (omega arith)
drop-add i (x ∷ xs) ys =
    let shift : length (x ∷ xs) + i ≡ suc (length xs + i) = omega arith in
    rw shift (drop-add i xs ys)

pub length-take : (n : ℕ) (xs : List ℕ) → n ≤ length xs → length (take n xs) ≡ n
length-take zero xs h = refl
length-take (suc n) [] h = absurd (omega arith)
length-take (suc n) (x ∷ xs) h = ap suc (length-take n xs (omega arith))

pub length-drop : (n : ℕ) (xs : List ℕ) → n ≤ length xs → length (drop n xs) ≡ length xs - n
length-drop zero xs h = omega arith
length-drop (suc n) [] h = absurd (omega arith)
length-drop (suc n) (x ∷ xs) h = omega (arith, length-drop n xs (omega arith))

pub get_elem?-append : (xs ys : List ℕ) (y : ℕ) → get_elem? (xs ++ y ∷ ys) (length xs) ≡ some y
get_elem?-append [] ys y = refl
get_elem?-append (x ∷ xs) ys y = get_elem?-append xs ys y

-- A splice keeps the length of the buffer, and what stands before its end.
pub splice-written :
    (buf s : List ℕ) (i : ℕ)
    → i + length s ≤ length buf
    → (out : List ℕ) × (splice buf i s ≡ ok out)
      × (length out ≡ length buf)
      × (take (i + length s) out ≡ take i buf ++ s)
unfolding splice
splice-written buf s i h =
    let len_front = length-take i buf (omega arith) in
    let len_back = length-drop (i + length s) buf h in
    let len_all = length-append (take i buf ++ s) (drop (i + length s) buf) in
    let len_out = length-append (take i buf) s in
    let both : i + length s ≡ length (take i buf ++ s) = omega (arith, len_front, len_out) in
    (
      take i buf ++ s ++ drop (i + length s) buf,
      ground (arith, h),
      omega (arith, h, len_front, len_back, len_all, len_out),
      ap (λ n. take n (take i buf ++ s ++ drop (i + length s) buf)) both
          ∙ take-append (take i buf ++ s) (drop (i + length s) buf),
    )

pub take-all : (n : ℕ) (xs : List ℕ) → length xs ≤ n → take n xs ≡ xs
take-all zero [] h = refl
take-all (suc n) [] h = refl
take-all zero (x ∷ xs) h = absurd (omega arith)
take-all (suc n) (x ∷ xs) h = ap (λ r. x ∷ r) (take-all n xs (omega arith))

pub take-take : (m n : ℕ) (xs : List ℕ) → m ≤ n → take m (take n xs) ≡ take m xs
take-take zero n xs h = refl
take-take (suc m) zero xs h = absurd (omega arith)
take-take (suc m) (suc n) [] h = refl
take-take (suc m) (suc n) (x ∷ xs) h = ap (λ r. x ∷ r) (take-take m n xs (omega arith))

-- So of a text spliced in with something behind it, the text is written.
pub splice-text :
    (buf s tail : List ℕ) (i : ℕ)
    → i + length (s ++ tail) ≤ length buf
    → (out : List ℕ) × (splice buf i (s ++ tail) ≡ ok out)
      × (length out ≡ length buf)
      × (take (i + length s) out ≡ take i buf ++ s)
splice-text buf s tail i h =
    let (out, done, len, text) = splice-written buf (s ++ tail) i h in
    let len_tail = length-append s tail in
    let len_s = length-append (take i buf) s in
    let len_i = length-take i buf (omega (arith, len_tail)) in
    let n : i + length s ≡ length (take i buf ++ s) = omega (arith, len_s, len_i) in
    (
      out,
      done,
      len,
      sym (take-take (i + length s) (i + length (s ++ tail)) out (omega (arith, len_tail)))
          ∙ ap (take (i + length s)) (text ∙ sym (append_assoc (take i buf) s tail))
          ∙ ap (λ m. take m (take i buf ++ s ++ tail)) n
          ∙ take-append (take i buf ++ s) tail,
    )

-- A decimal numeral of at most `fuel` digits. An `int` has at most ten.
unfoldable pub digits_from : ℕ → ℕ → List ℕ
digits_from zero n = []
digits_from (suc fuel) n =
    let more = digits_from fuel (n / 10) in
    if ltb n 10 then (b'0' + n) ∷ [] else more ++ (b'0' + n % 10) ∷ []

unfoldable pub show_ℤ : ℤ → List ℕ
unfolding digits_from
show_ℤ (pos n) = digits_from 10 n
show_ℤ (negsuc n) = b'-' ∷ digits_from 10 (suc n)

-- A wide value given as an `int`.
unfoldable pub to_int : ℕ → ℤ
to_int n = let m = n % 2 ^ 32 in if ltb m (2 ^ 31) then pos m else negsuc (2 ^ 32 - m - 1)

pub digits-bound : (fuel n : ℕ) → length (digits_from fuel n) ≤ fuel
unfolding digits_from
digits-bound zero n = omega arith
digits-bound (suc fuel) n =
    let len = length-append (digits_from fuel (n / 10)) ((b'0' + n % 10) ∷ []) in
    ground (arith, len, digits-bound fuel (n / 10))

pub show_ℤ-bound : (z : ℤ) → length (show_ℤ z) ≤ 11
unfolding show_ℤ
show_ℤ-bound (pos n) = omega (arith, digits-bound 10 n)
show_ℤ-bound (negsuc n) = omega (arith, digits-bound 10 (suc n))

pub splice-Sure : (buf : List ℕ) (i : ℕ) (s : List ℕ) → Sure Any (splice buf i s)
unfolding splice
splice-Sure buf i s = Sure-if (leb (i + length s) (length buf)) (sure tt) sure_fault

pub c_string-Sure : (s : List ℕ) → Sure Any (c_string s)
unfolding c_string
c_string-Sure [] = sure_fault
c_string-Sure (x ∷ xs) = Sure-if (x == 0) (sure tt) (Sure-bind (c_string-Sure xs) λ s _. sure tt)

-- A splice over as many bytes replaces just these.
pub splice-append :
    (front old new rest : List ℕ)
    → length old ≡ length new
    → splice (front ++ (old ++ rest)) (length front) new ≡ ok (front ++ (new ++ rest))
unfolding splice
splice-append front old new rest same =
    let before = take-append front (old ++ rest) in
    let after : drop (length front + length new) (front ++ (old ++ rest)) ≡ rest =
      drop-add (length new) front (old ++ rest)
      ∙ ap (λ n. drop n (old ++ rest)) (sym same)
      ∙ drop-append old rest in
    let fits : leb (length front + length new) (length (front ++ (old ++ rest))) ≡ true =
      ground (arith, length-append front (old ++ rest), length-append old rest) in
    rw (fits, before, after) (ap ok (append_assoc front new rest))

pub set-append :
    (front rest : List ℕ) (i x y : ℕ)
    → length front ≡ i
    → set (front ++ x ∷ rest) i y ≡ front ++ y ∷ rest
set-append front rest i x y at = ap (λ n. set (front ++ x ∷ rest) n y) (sym at) ∙ go front
  where
    go : (front : List ℕ) → set (front ++ x ∷ rest) (length front) y ≡ front ++ y ∷ rest
    go [] = refl
    go (z ∷ front) = ap (λ r. z ∷ r) (go front)

pub take-drop : (n : ℕ) (xs : List ℕ) → xs ≡ take n xs ++ drop n xs
take-drop zero xs = refl
take-drop (suc n) [] = refl
take-drop (suc n) (x ∷ xs) = ap (λ r. x ∷ r) (take-drop n xs)

pub take-replicate : (n m x : ℕ) → n ≤ m → take n (replicate m x) ≡ replicate n x
take-replicate zero m x h = refl
take-replicate (suc n) zero x h = absurd (omega arith)
take-replicate (suc n) (suc m) x h = ap (λ r. x ∷ r) (take-replicate n m x (omega arith))

-- What `strncpy` writes of a string that is shorter than its room: the string and NULs.
pub take-padded :
    (s : List ℕ) (n m : ℕ)
    → n ≤ m
    → length s ≤ n
    → take n (s ++ replicate m 0) ≡ s ++ replicate (n - length s) 0
take-padded [] n m h short = take-replicate n m 0 h ∙ ap (λ k. replicate k 0) (omega arith)
take-padded (x ∷ s) zero m h short = absurd (omega arith)
take-padded (x ∷ s) (suc n) m h short =
    let k : n - length s ≡ suc n - suc (length s) = omega arith in
    ap (λ r. x ∷ r) (take-padded s n m (omega arith) (omega arith) ∙ ap (λ k. s ++ replicate k 0) k)
