-- ===== src/Base/Results.antt =====
-- How a piece of Rust code ends: with a value, with an error that `?` passes up, or by a panic.
-- A stateful method also returns the state that it leaves, after an error too.
use mathlib.Core.Path.{◌≡◌, refl}
use mathlib.Core.Option.{Option, none, some}

pub data Error : Type 0 where
  open_failed read_failed split_failed parse_failed counter_failed : Error
  unknown_field : Error

pub data Panic : Type 0 where
  overflow divide_by_zero mismatched_types unwrap_failed out_of_bounds bad_format error_raised
        assertion_failed :
      Panic

pub data Outcome {ℓ} (A : Type ℓ) : Type ℓ where
  ok : A → Outcome A
  err : Error → Outcome A
  panic : Panic → Outcome A

infixl 5 ◌>>=◌ ◌>>◌
abbrev pub ◌>>=◌ {ℓ κ} : {A : Type ℓ} {B : Type κ} → Outcome A → (A → Outcome B) → Outcome B
panic p >>= rest = panic p
err e >>= rest = err e
ok a >>= rest = rest a

abbrev pub ◌>>◌ {ℓ κ} : {A : Type ℓ} {B : Type κ} → Outcome A → Outcome B → Outcome B
m >> k = m >>= λ _. k

-- `Option::context(..)?`
abbrev pub or_err {ℓ} : {A : Type ℓ} → Error → Option A → Outcome A
or_err e none = err e
or_err e (some a) = ok a

-- `Option::unwrap` and `expect`
abbrev pub or_panic {ℓ} : {A : Type ℓ} → Panic → Option A → Outcome A
or_panic p none = panic p
or_panic p (some a) = ok a

abbrev pub map_ok {ℓ κ} : {A : Type ℓ} {B : Type κ} → (A → B) → Outcome A → Outcome B
map_ok f m = m >>= λ a. ok (f a)

-- A chain that ends well ended well at its first step.
pub >>=-eq-ok :
    {A B : Type 0} (step : Outcome A) (rest : A → Outcome B) {result : B}
    → (step >>= rest) ≡ ok result
    → (a : A) × (step ≡ ok a) × (rest a ≡ ok result)
>>=-eq-ok (panic p) rest e = cc
>>=-eq-ok (err x) rest e = cc
>>=-eq-ok (ok a) rest e = (a, refl, e)

pub ok-injective : {A : Type 0} {a b : A} → ok a ≡ ok b → a ≡ b
ok-injective h = cc

pub some-eq : {A : Type 0} {a b : A} → some a ≡ some b → a ≡ b
some-eq h = cc

-- A chain that ends well, with a value that has `P`.
pub data Gives {A : Type 0} (P : A → Type 0) : Outcome A → Type 0 where
  gives : (a : A) → P a → Gives P (ok a)

module _ {A : Type 0} {P : A → Type 0} where
  pub Gives-bind :
      {B : Type 0} {Q : B → Type 0} {step : Outcome A} {rest : A → Outcome B}
      → Gives P step
      → ((a : A) → P a → Gives Q (rest a))
      → Gives Q (step >>= rest)
  Gives-bind (gives a h) k = k a h

  pub Gives-value : {r : Outcome A} → Gives P r → (a : A) × (r ≡ ok a) × P a
  Gives-value (gives a h) = (a, refl, h)
