-- ===== src/Http/Request/Numbers.antt =====
-- The number of a Content-Length header, as a client prints it.
use wzy_server.Prelude.{
  ℕ, zero, suc, ◌+◌, ◌-◌, ◌*◌, ◌/◌, ◌%◌, ◌^◌, ◌<◌, ◌≡◌, refl, sym, subst, ap, ◌∙◌, true, false,
  ◌&&◌, ◌==◌, List, drop, length, [], ◌∷◌, ◌++◌, ok, arith, ltb, leb, codes, digits_from, show_ℤ,
  to_int, Bool-cases, inl, inr,
}
use wzy_server.Prelude.Int.{pos}
use wzy_server.Http.{HttpConn, no_request}
use wzy_server.Http.Request.Headers.{parse_headers-length}
use wzy_server.Http.Request.{
  string_at, parse_headers, read_digits, atol, same_start, narrow, blanks, is_blank,
}

abbrev IsDigit : ℕ → Type 0
IsDigit x = (leb b'0' x && leb x b'9') ≡ true

abbrev AllDigits : List ℕ → Type 0
AllDigits [] = Unit {0}
AllDigits (x ∷ xs) = IsDigit x × AllDigits xs

AllDigits-append : (xs : List ℕ) (y : ℕ) → AllDigits xs → IsDigit y → AllDigits (xs ++ y ∷ [])
AllDigits-append [] y g h = (h, tt)
AllDigits-append (x ∷ xs) y (d, g) h = (d, AllDigits-append xs y g h)

read_digits-append :
    (n : ℕ) (xs : List ℕ) (y : ℕ)
    → AllDigits xs
    → IsDigit y
    → read_digits n (xs ++ y ∷ []) ≡ 10 * read_digits n xs + (y - b'0')
unfolding read_digits
read_digits-append n [] y g h = rw h refl
read_digits-append n (x ∷ xs) y (d, g) h = rw d (read_digits-append (10 * n + (x - b'0')) xs y g h)

last-IsDigit : (n : ℕ) → IsDigit (b'0' + n % 10)
last-IsDigit n = ground arith

digits-AllDigits : (fuel n : ℕ) → AllDigits (digits_from fuel n)
unfolding digits_from
digits-AllDigits zero n = tt
digits-AllDigits (suc fuel) n = elim (Bool-cases (ltb n 10)) [
  | inl small ↦ rw small (ground (arith, small), tt)
  | inr large ↦ rw large (
      AllDigits-append (digits_from fuel (n / 10)) (b'0' + n % 10) (digits-AllDigits fuel (n / 10))
        (last-IsDigit n))
]

power : (fuel : ℕ) → 10 ^ suc fuel ≡ 10 * 10 ^ fuel
power fuel = omega arith

-- The digits of a number are read as the number.
digits-read : (fuel n : ℕ) → n < 10 ^ fuel → read_digits 0 (digits_from fuel n) ≡ n
unfolding digits_from read_digits
digits-read zero n h = omega arith
digits-read (suc fuel) n h = elim (Bool-cases (ltb n 10)) [
  | inl small ↦ rw small (ground (arith, small))
  | inr large ↦ rw large (
      read_digits-append 0 (digits_from fuel (n / 10)) (b'0' + n % 10)
        (digits-AllDigits fuel (n / 10)) (last-IsDigit n)
      ∙ ap (λ k. 10 * k + (b'0' + n % 10 - b'0'))
          (digits-read fuel (n / 10) (omega (arith, power fuel, h)))
      ∙ omega arith)
]

atol-digits : (x : ℕ) (xs : List ℕ) → IsDigit x → atol (x ∷ xs) ≡ pos (read_digits 0 (x ∷ xs))
unfolding atol
atol-digits x xs d = ground (arith, d)

one_blank : (x : ℕ) (xs : List ℕ) → IsDigit x → 15 + blanks (b' ' ∷ x ∷ xs) ≡ 16
unfolding blanks
one_blank x xs d = let plain : is_blank x ≡ false = ground (arith, d) in rw plain refl

content_length-digits :
    (c : HttpConn) (p x : ℕ) (xs : List ℕ)
    → IsDigit x
    → string_at c p ≡ ok (codes "Content-Length: " ++ x ∷ xs)
    → parse_headers p c ≡ ok (no_request, record c { content_length = narrow (atol (x ∷ xs)) })
unfolding same_start
content_length-digits c p x xs d e =
    let s : List ℕ = codes "Content-Length: " ++ x ∷ xs in
    let long : (length s == 0) ≡ false = ground arith in
    parse_headers-length c p s (x ∷ xs) e long refl refl (ap (λ n. drop n s) (one_blank x xs d))

starts_somewhere : (ys : List ℕ) (d : ℕ) → (x : ℕ) × (xs : List ℕ) × (ys ++ d ∷ [] ≡ x ∷ xs)
starts_somewhere [] d = (d, [], refl)
starts_somewhere (y ∷ ys) d = (y, ys ++ d ∷ [], refl)

digits-start : (fuel n : ℕ) → (x : ℕ) × (xs : List ℕ) × (digits_from (suc fuel) n ≡ x ∷ xs)
unfolding digits_from
digits-start fuel n = elim (Bool-cases (ltb n 10)) [
  | inl small ↦ (b'0' + n, [], rw small refl)
  | inr large ↦
      let (x, xs, e) = starts_somewhere (digits_from fuel (n / 10)) (b'0' + n % 10) in
      (x, xs, rw large e)
]

narrow-small : (n : ℕ) → n < 2 ^ 31 → narrow (pos n) ≡ pos n
unfolding narrow to_int
narrow-small n h = ground (arith, h)

digits-number :
    (x : ℕ) (xs : List ℕ) (n : ℕ)
    → n < 2 ^ 31
    → digits_from 10 n ≡ x ∷ xs
    → IsDigit x × (narrow (atol (x ∷ xs)) ≡ pos n)
digits-number x xs n h e =
    let (digit, _) = subst AllDigits e (digits-AllDigits 10 n) in
    (
      digit,
      ap narrow (
            atol-digits x xs digit
            ∙ ap (λ ds. pos (read_digits 0 ds)) (sym e)
            ∙ ap pos (digits-read 10 n (omega (arith, h))))
          ∙ narrow-small n h,
    )

-- The length of a body that is printed behind one blank into a Content-Length header is read back,
-- if it is below 2^31.
pub content_length_read :
    (c : HttpConn) (p n : ℕ)
    → n < 2 ^ 31
    → string_at c p ≡ ok (codes "Content-Length: " ++ show_ℤ (pos n))
    → parse_headers p c ≡ ok (no_request, record c { content_length = pos n })
unfolding show_ℤ
content_length_read c p n h e =
    let (x, xs, start) = digits-start 9 n in
    let (digit, number) = digits-number x xs n h start in
    content_length-digits c p x xs digit (e ∙ ap (λ ds. ok (codes "Content-Length: " ++ ds)) start)
    ∙ ap (λ z. ok (no_request, record c { content_length = z })) number
