-- ===== src/Http/Resource/Accounts.antt =====
-- Registration and login against the map of users.
use mathlib.Core.Option.{some-injective}
use wzy_server.Prelude.{
  ℕ, ◌<◌, ◌≡◌, ◌↔◌, refl, sym, ap, true, false, if◌then◌else◌, Option, none, some, List, [], ◌∷◌,
  length, lt→ltb, arith, ok, codes, eqb, ==-self, Returns, returns, Bool-cases, inl, inr, subst,
}
use wzy_server.Http.Resource.{
  Site, Users, find_user, fits_in, sql_insert, mysql_query, register, login, login_page,
}

eqb_self : (s : List ℕ) → eqb s s ≡ true
unfolding eqb
eqb_self [] = refl
eqb_self (x ∷ xs) = rw (==-self x) (eqb_self xs)

eq_of_eqb : (s t : List ℕ) → eqb s t ≡ true → s ≡ t
unfolding eqb
eq_of_eqb [] [] e = refl
eq_of_eqb [] (y ∷ ys) e = cc
eq_of_eqb (x ∷ xs) [] e = cc
eq_of_eqb (x ∷ xs) (y ∷ ys) e = ground (arith, eq_of_eqb xs ys, e)

find_user-new : (name p : List ℕ) (users : Users) → find_user name ((name, p) ∷ users) ≡ some p
unfolding find_user
find_user-new name p users = rw (eqb_self name) refl

different : ¬ (codes "/logError.html" ≡ codes "/welcome.html")
different e = ground arith

page_welcomes :
    (o : Option (List ℕ)) (password : List ℕ)
    → (login_page o password ≡ codes "/welcome.html") ↔ (o ≡ some password)
unfolding login_page
page_welcomes none password = (λ e. absurd (different e), λ e. cc)
page_welcomes (some p) password = elim (Bool-cases (eqb p password)) [
  | inl same ↦ rw same (λ e. ap some (eq_of_eqb p password same), λ e. refl)
  | inr other ↦ rw other (λ e. absurd (different e), λ e. absurd (no_other e other))
]
  where
    no_other : (some p ≡ some password) → ¬ (eqb p password ≡ false)
    no_other e other =
        let same : eqb p p ≡ false =
          subst (λ q. eqb p q ≡ false) (sym (some-injective p password e)) other in
        cc (same, eqb_self p)

-- A login is answered by the welcome page exactly when the name is known with this password.
pub login_welcomes :
    (name password : List ℕ) (users : Users)
    → (login name password users ≡ codes "/welcome.html") ↔ (find_user name users ≡ some password)
unfolding login
login_welcomes name password users = page_welcomes (find_user name users) password

-- With a connection to the database, a name that is not taken, with a statement that fits its 200
-- bytes, is registered: it can log in with the password at once, whether or not the database has
-- taken it.
pub register-login :
    (site : Site) (con : ℕ) (name password : List ℕ) (users : Users)
    → site.mysql ≡ some con
    → find_user name users ≡ none
    → length (sql_insert name password) < 200
    → Returns
        (λ (page, users').
          (page ≡ (
            if site.query_fails (sql_insert name password)
            then codes "/registerError.html"
            else codes "/log.html"))
          × (login name password users' ≡ codes "/welcome.html"))
        (register site name password users)
unfolding register fits_in mysql_query
register-login site con name password users connected free short =
    let welcome =
      (login_welcomes name password ((name, password) ∷ users)).1
        (find_user-new name password users) in
    elim (Bool-cases (site.query_fails (sql_insert name password))) [
      | inl failed ↦
          rw (lt→ltb (length (sql_insert name password)) 200 short, free, connected, failed)
            (returns (refl, welcome))
      | inr fine ↦
          rw (lt→ltb (length (sql_insert name password)) 200 short, free, connected, fine)
            (returns (refl, welcome))
    ]

-- A name that is taken is not registered again, and nothing changes.
pub register_taken :
    (site : Site) (name password old : List ℕ) (users : Users)
    → find_user name users ≡ some old
    → length (sql_insert name password) < 200
    → register site name password users ≡ ok (codes "/registerError.html", users)
unfolding register fits_in
register_taken site name password old users taken short =
    rw (lt→ltb (length (sql_insert name password)) 200 short, taken) refl
