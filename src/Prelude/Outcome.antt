-- ===== src/Prelude/Outcome.antt =====
-- What a call of the library does: it returns, it fails an `arax_assert` and the process is
-- aborted, it reads or frees memory that holds no object of the kind it expects, it sleeps or spins
-- on a condition that another thread has to make true, or the model's fuel is used up.
use mathlib.Core.Path.{◌≡◌, refl}
use mathlib.Core.Bool.{Bool, true, false}

pub data Outcome {ℓ} (A : Type ℓ) : Type ℓ where
  ok : A → Outcome A
  abort : Outcome A
  fault : Outcome A
  blocked : Outcome A
  no_fuel : Outcome A

infixl 5 ◌>>=◌ ◌>>◌
abbrev pub ◌>>=◌ {ℓ κ} : {A : Type ℓ} {B : Type κ} → Outcome A → (A → Outcome B) → Outcome B
ok a >>= f = f a
abort >>= f = abort
fault >>= f = fault
blocked >>= f = blocked
no_fuel >>= f = no_fuel

abbrev pub ◌>>◌ {ℓ} : {B : Type ℓ} → Outcome (Unit {0}) → Outcome B → Outcome B
m >> k = m >>= λ _. k

-- `arax_assert`
abbrev pub arax_assert : Bool → Outcome (Unit {0})
arax_assert true = ok tt
arax_assert false = abort

pub ok-eq : {A : Type 0} {x y : A} → ok x ≡ ok y → x ≡ y
ok-eq e = cc

-- What a chain that returns went through.
pub bind-ok :
    {A B : Type 0} (m : Outcome A) (f : A → Outcome B) {b : B}
    → (m >>= f) ≡ ok b
    → (a : A) × (m ≡ ok a) × (f a ≡ ok b)
bind-ok (ok a) f e = (a, refl, e)
bind-ok abort f e = cc
bind-ok fault f e = cc
bind-ok blocked f e = cc
bind-ok no_fuel f e = cc
