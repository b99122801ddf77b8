-- ===== src/Prelude/Outcome.antt =====
-- The outcome of running a piece of the program, and its monad.
use mathlib.Core.Path.{◌≡◌, refl, subst}
use mathlib.Core.List.{List, [], ◌∷◌}
use mathlib.Core.Option.{Option, none, some}
use mathlib.Core.Bool.{Bool, true, false}
use wzy_server.Prelude.Tests.{if◌then◌else◌}

-- `fault`: undefined behaviour, such as a null or dangling pointer, an index out of range, or the
-- end of a function that has to return a value. `blocked`: a wait that nothing ends. `exits`: a
-- call of `exit` or an exception that leaves the function.
pub data Run {ℓ} (A : Type ℓ) : Type ℓ where
  ok : A → Run A
  fault : Run A
  blocked : Run A
  exits : Run A
  out_of_fuel : Run A

infixl 5 ◌>>=◌ ◌>>◌
abbrev pub ◌>>=◌ {ℓ κ} : {A : Type ℓ} {B : Type κ} → Run A → (A → Run B) → Run B
ok a >>= k = k a
fault >>= k = fault
blocked >>= k = blocked
exits >>= k = exits
out_of_fuel >>= k = out_of_fuel

abbrev pub ◌>>◌ {ℓ κ} : {A : Type ℓ} {B : Type κ} → Run A → Run B → Run B
m >> k = m >>= λ _. k

abbrev pub or_fault {ℓ} : {A : Type ℓ} → Option A → Run A
or_fault none = fault
or_fault (some a) = ok a

pub ok-injective {ℓ} : {A : Type ℓ} {a b : A} → ok a ≡ ok b → a ≡ b
ok-injective e = cc

-- Total correctness of a run: it returns, and the result meets the postcondition.
pub data Returns {ℓ κ} {A : Type ℓ} (P : A → Type κ) : Run A → Type (ℓ ⊔ κ) where
  returns : {a : A} → P a → Returns P (ok a)

-- What is returned.
pub outcome {ℓ κ} : {A : Type ℓ} {P : A → Type κ} {m : Run A} → Returns P m → A
outcome (returns {a} p) = a

pub outcome-ok {ℓ κ} :
    {A : Type ℓ} {P : A → Type κ} {m : Run A} (r : Returns P m) → m ≡ ok (outcome r)
unfolding outcome
outcome-ok (returns p) = refl

pub Returns-bind {ℓ κ μ ν} :
    {A : Type ℓ} {B : Type κ} {P : A → Type μ} {Q : B → Type ν} {m : Run A} {k : A → Run B}
    → Returns P m
    → ((a : A) → P a → Returns Q (k a))
    → Returns Q (m >>= k)
Returns-bind (returns p) next = next _ p

pub Returns-mono {ℓ κ μ} :
    {A : Type ℓ} {P : A → Type κ} {Q : A → Type μ} {m : Run A}
    → Returns P m
    → ((a : A) → P a → Q a)
    → Returns Q m
Returns-mono (returns p) weaken = returns (weaken _ p)

-- A run that does not end for want of fuel, and whose result, if it has one, meets `P`.
pub data Sure {ℓ κ} {A : Type ℓ} (P : A → Type κ) : Run A → Type (ℓ ⊔ κ) where
  sure : {a : A} → P a → Sure P (ok a)
  sure_fault : Sure P fault
  sure_blocked : Sure P blocked
  sure_exits : Sure P exits

abbrev pub Any {ℓ} : {A : Type ℓ} → A → Type 0
Any a = Unit

pub Sure-bind {ℓ κ μ ν} :
    {A : Type ℓ} {B : Type κ} {P : A → Type μ} {Q : B → Type ν} {m : Run A} {k : A → Run B}
    → Sure P m
    → ((a : A) → P a → Sure Q (k a))
    → Sure Q (m >>= k)
Sure-bind (sure p) next = next _ p
Sure-bind sure_fault next = sure_fault
Sure-bind sure_blocked next = sure_blocked
Sure-bind sure_exits next = sure_exits

pub Sure-mono {ℓ κ μ} :
    {A : Type ℓ} {P : A → Type κ} {Q : A → Type μ} {m : Run A}
    → Sure P m
    → ((a : A) → P a → Q a)
    → Sure Q m
Sure-mono (sure p) weaken = sure (weaken _ p)
Sure-mono sure_fault weaken = sure_fault
Sure-mono sure_blocked weaken = sure_blocked
Sure-mono sure_exits weaken = sure_exits

-- What holds of a result, if there is one: any other outcome will do.
pub data Whenever {ℓ κ} {A : Type ℓ} (P : A → Type κ) : Run A → Type (ℓ ⊔ κ) where
  on_ok : {a : A} → P a → Whenever P (ok a)
  on_fault : Whenever P fault
  on_blocked : Whenever P blocked
  on_exits : Whenever P exits
  on_out_of_fuel : Whenever P out_of_fuel

pub Whenever-bind {ℓ κ μ ν} :
    {A : Type ℓ} {B : Type κ} {P : A → Type μ} {Q : B → Type ν} {m : Run A} {k : A → Run B}
    → Whenever P m
    → ((a : A) → P a → Whenever Q (k a))
    → Whenever Q (m >>= k)
Whenever-bind (on_ok p) next = next _ p
Whenever-bind on_fault next = on_fault
Whenever-bind on_blocked next = on_blocked
Whenever-bind on_exits next = on_exits
Whenever-bind on_out_of_fuel next = on_out_of_fuel

pub Whenever-if {ℓ κ} :
    {A : Type ℓ} {P : A → Type κ} (b : Bool) {x y : Run A}
    → Whenever P x
    → Whenever P y
    → Whenever P (if b then x else y)
Whenever-if true p q = p
Whenever-if false p q = q

-- What follows on any result.
pub Whenever-then {ℓ κ μ} :
    {A : Type ℓ} {B : Type κ} {Q : B → Type μ} (m : Run A) {k : A → Run B}
    → ((a : A) → Whenever Q (k a))
    → Whenever Q (m >>= k)
Whenever-then (ok a) next = next a
Whenever-then fault next = on_fault
Whenever-then blocked next = on_blocked
Whenever-then exits next = on_exits
Whenever-then out_of_fuel next = on_out_of_fuel

-- What is returned, with the outcome itself.
pub Returns-known {ℓ κ} :
    {A : Type ℓ} {P : A → Type κ} {m : Run A} → Returns P m → Returns (λ a. (m ≡ ok a) × P a) m
Returns-known (returns p) = returns (refl, p)

pub Returns-Whenever {ℓ κ μ} :
    {A : Type ℓ} {P : A → Type κ} {Q : A → Type μ} {m : Run A}
    → Returns P m
    → Whenever Q m
    → Returns (λ a. P a × Q a) m
Returns-Whenever (returns p) (on_ok q) = returns (p, q)

-- What is sure of an outcome, with the outcome itself.
pub Sure-known {ℓ κ} :
    {A : Type ℓ} {P : A → Type κ} {m : Run A} → Sure P m → Sure (λ a. (m ≡ ok a) × P a) m
Sure-known (sure p) = sure (refl, p)
Sure-known sure_fault = sure_fault
Sure-known sure_blocked = sure_blocked
Sure-known sure_exits = sure_exits

pub Sure-if {ℓ κ} :
    {A : Type ℓ} {P : A → Type κ} (b : Bool) {x y : Run A}
    → Sure P x
    → Sure P y
    → Sure P (if b then x else y)
Sure-if true p q = p
Sure-if false p q = q

pub Sure-or_fault {ℓ} : {A : Type ℓ} (o : Option A) → Sure Any (or_fault o)
Sure-or_fault none = sure_fault
Sure-or_fault (some a) = sure tt

pub Sure-option {ℓ κ μ} :
    {A : Type ℓ} {B : Type κ} {P : B → Type μ} (o : Option A) {y : Run B} {k : A → Run B}
    → Sure P y
    → ((a : A) → Sure P (k a))
    → Sure P (elim o [ none ↦ y | some a ↦ k a ])
Sure-option none p q = p
Sure-option (some a) p q = q a

pub Sure-list {ℓ κ μ} :
    {A : Type ℓ} {B : Type κ} {P : B → Type μ} (xs : List A) {y : Run B} {k : A → List A → Run B}
    → Sure P y
    → ((x : A) (rest : List A) → Sure P (k x rest))
    → Sure P (elim xs [ [] ↦ y | x ∷ rest ↦ k x rest ])
Sure-list [] p q = p
Sure-list (x ∷ xs) p q = q x xs

pub not_out_of_fuel {ℓ κ} :
    {A : Type ℓ} {P : A → Type κ} {m : Run A} → Sure P m → ¬ (m ≡ out_of_fuel)
not_out_of_fuel (sure p) e = cc
not_out_of_fuel sure_fault e = cc
not_out_of_fuel sure_blocked e = cc
not_out_of_fuel sure_exits e = cc

-- What a run that returned gave.
pub Sure-ok {ℓ κ} : {A : Type ℓ} {P : A → Type κ} {m : Run A} {a : A} → Sure P m → m ≡ ok a → P a
Sure-ok {P = P} (sure p) e = subst P (ok-injective e) p
Sure-ok sure_fault e = cc
Sure-ok sure_blocked e = cc
Sure-ok sure_exits e = cc
