-- ===== src/Prelude/Outcomes.antt =====
-- What a run of code that may panic, or that may loop for ever, comes to. `out_of_fuel` stands
-- for a loop that has not ended within the rounds it was given.
use mathlib.Core.Path.{◌≡◌, refl, subst}
use mathlib.Core.Bool.{Bool, true, false}
use mathlib.Core.Option.{Option, none, some}

pub data Outcome {ℓ} (A : Type ℓ) : Type ℓ where
  ok : A → Outcome A
  panic : Outcome A
  out_of_fuel : Outcome A

infixl 5 ◌>>=◌ ◌>>◌
abbrev pub ◌>>=◌ {ℓ κ} : {A : Type ℓ} {B : Type κ} → Outcome A → (A → Outcome B) → Outcome B
ok a >>= f = f a
panic >>= f = panic
out_of_fuel >>= f = out_of_fuel

abbrev pub ◌>>◌ {ℓ} : {B : Type ℓ} → Outcome (Unit {0}) → Outcome B → Outcome B
m >> k = m >>= λ _. k

-- `assert!`
abbrev pub assert : Bool → Outcome (Unit {0})
assert true = ok tt
assert false = panic

-- `unwrap` and `expect`
abbrev pub unwrap {ℓ} : {A : Type ℓ} → Option A → Outcome A
unwrap (some a) = ok a
unwrap none = panic

module _ {ℓ κ} {A : Type ℓ} {B : Type κ} where
  -- A chain that ends has ended in both its parts.
  pub >>=-eq-ok :
      (run : Outcome A) (then_run : A → Outcome B) {out : B}
      → (run >>= then_run) ≡ ok out
      → (mid : A) × (run ≡ ok mid) × (then_run mid ≡ ok out)
  >>=-eq-ok panic then_run done = cc
  >>=-eq-ok out_of_fuel then_run done = cc
  >>=-eq-ok (ok mid) then_run done = (mid, refl, done)

-- The run ends without a panic, in a value that meets `P`.
abbrev pub Returns {ℓ} : {A : Type ℓ} → (A → Type 0) → Outcome A → Type 0
Returns P (ok a) = P a
Returns P panic = ⊥
Returns P out_of_fuel = ⊥

module _ {ℓ} {A : Type ℓ} where
  pub Returns-value : (P : A → Type 0) (m : Outcome A) → Returns P m → (a : A) × (m ≡ ok a) × P a
  Returns-value P (ok a) h = (a, refl, h)
  Returns-value P panic h = absurd h
  Returns-value P out_of_fuel h = absurd h

  pub Returns-map :
      (P Q : A → Type 0) (m : Outcome A) → Returns P m → ((a : A) → P a → Q a) → Returns Q m
  Returns-map P Q (ok a) h f = f a h
  Returns-map P Q panic h f = h
  Returns-map P Q out_of_fuel h f = h

pub Returns-bind {ℓ κ} :
    {A : Type ℓ} {B : Type κ} (P : A → Type 0) (Q : B → Type 0) (m : Outcome A) (f : A → Outcome B)
    → Returns P m
    → ((a : A) → P a → Returns Q (f a))
    → Returns Q (m >>= f)
Returns-bind P Q (ok a) f h k = k a h
Returns-bind P Q panic f h k = h
Returns-bind P Q out_of_fuel f h k = h

-- What the run returns, where it returns, meets `P`.
abbrev pub IfOk {ℓ} : {A : Type ℓ} → (A → Type 0) → Outcome A → Type 0
IfOk P (ok a) = P a
IfOk P panic = Unit {0}
IfOk P out_of_fuel = Unit {0}

pub IfOk-bind {ℓ κ} :
    {A : Type ℓ} {B : Type κ} (P : A → Type 0) (Q : B → Type 0) (m : Outcome A) (f : A → Outcome B)
    → IfOk P m
    → ((a : A) → P a → IfOk Q (f a))
    → IfOk Q (m >>= f)
IfOk-bind P Q (ok a) f h k = k a h
IfOk-bind P Q panic f h k = tt
IfOk-bind P Q out_of_fuel f h k = tt

pub IfOk-any {ℓ κ} :
    {A : Type ℓ} {B : Type κ} (Q : B → Type 0) (m : Outcome A) (f : A → Outcome B)
    → ((a : A) → IfOk Q (f a))
    → IfOk Q (m >>= f)
IfOk-any Q (ok a) f k = k a
IfOk-any Q panic f k = tt
IfOk-any Q out_of_fuel f k = tt

pub IfOk-value {ℓ} :
    {A : Type ℓ} (P : A → Type 0) (m : Outcome A) (a : A) → IfOk P m → m ≡ ok a → P a
IfOk-value P (ok b) a h e = let moved : b ≡ a = cc in subst P moved h
IfOk-value P panic a h e = cc
IfOk-value P out_of_fuel a h e = cc

pub IfOk-map {ℓ} :
    {A : Type ℓ} (P Q : A → Type 0) (m : Outcome A) → IfOk P m → ((a : A) → P a → Q a) → IfOk Q m
IfOk-map P Q (ok a) h f = f a h
IfOk-map P Q panic h f = tt
IfOk-map P Q out_of_fuel h f = tt

pub IfOk-unwrap : {A : Type 0} (o : Option A) → IfOk (λ a. o ≡ some a) (unwrap o)
IfOk-unwrap none = tt
IfOk-unwrap (some a) = refl

pub IfOk-both {ℓ} :
    {A : Type ℓ} (P Q : A → Type 0) (m : Outcome A) → IfOk P m → IfOk Q m → IfOk (λ a. P a × Q a) m
IfOk-both P Q (ok a) h k = (h, k)
IfOk-both P Q panic h k = tt
IfOk-both P Q out_of_fuel h k = tt
