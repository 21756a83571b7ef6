-- ===== src/Core/World/Keeps.antt =====
-- Invariants of calls, with a rule for each way to build a call.
use arax_g_rpc.Prelude.{◌≡◌, refl, Bool, true, false, if◌then◌else◌}
use arax_g_rpc.Prelude.Outcome
use arax_g_rpc.Prelude.Outcome.{Outcome, ok, abort, fault, blocked, no_fuel}
use arax_g_rpc.Core.World.{World, M, pure, lift, gets, modify, ◌>>=◌}

-- Where `m` returns, it has kept `P`.
pub record Keeps {A : Type 0} (P : World → Type 0) (m : M A) : Type 0 where
  pub at : (w : World) (a : A) (w' : World) → P w → m w ≡ ok (a, w') → P w'

module _ {A : Type 0} {P : World → Type 0} where
  pub Keeps-pure : (a : A) → Keeps P (pure a)
  unfolding pure
  Keeps-pure a = record { at = λ w b w' h e. let q : w ≡ w' = cc in rw q at h }

  pub Keeps-gets : (f : World → A) → Keeps P (gets f)
  unfolding gets
  Keeps-gets f = record { at = λ w b w' h e. let q : w ≡ w' = cc in rw q at h }

  pub Keeps-lift : (o : Outcome A) → Keeps P (lift o)
  unfolding lift
  Keeps-lift (ok a) = record { at = λ w b w' h e. let q : w ≡ w' = cc in rw q at h }
  Keeps-lift abort = record { at = λ w b w' h e. cc }
  Keeps-lift fault = record { at = λ w b w' h e. cc }
  Keeps-lift blocked = record { at = λ w b w' h e. cc }
  Keeps-lift no_fuel = record { at = λ w b w' h e. cc }

  pub Keeps-if : (b : Bool) (m n : M A) → Keeps P m → Keeps P n → Keeps P (if b then m else n)
  Keeps-if true m n km kn = km
  Keeps-if false m n km kn = kn

module _ {A B : Type 0} {P : World → Type 0} where
  continue :
      (o : Outcome (A × World)) (f : A → M B)
      → ((a : A) (w : World) → o ≡ ok (a, w) → P w)
      → ((a : A) → Keeps P (f a))
      → (b : B) (w' : World) → Outcome.◌>>=◌ o (λ (a, w). f a w) ≡ ok (b, w')
      → P w'
  continue (ok (a, w)) f h k b w' e = (k a).at w b w' (h a w refl) e
  continue abort f h k b w' e = cc
  continue fault f h k b w' e = cc
  continue blocked f h k b w' e = cc
  continue no_fuel f h k b w' e = cc

  pub Keeps-bind :
      (m : M A) (f : A → M B) → Keeps P m → ((a : A) → Keeps P (f a)) → Keeps P (m >>= f)
  unfolding ◌>>=◌
  Keeps-bind m f km kf = record {
    at = λ w b w' h e. continue (m w) f (λ a v q. km.at w a v h q) kf b w' e;
  }

pub Keeps-modify :
    {P : World → Type 0} (f : World → World) → ((w : World) → P w → P (f w)) → Keeps P (modify f)
unfolding modify
Keeps-modify f k = record { at = λ w b w' h e. let q : f w ≡ w' = cc in rw q at (k w h) }

pub ruleset keeps_rules = (Keeps-pure, Keeps-gets, Keeps-lift, Keeps-if, Keeps-bind)
