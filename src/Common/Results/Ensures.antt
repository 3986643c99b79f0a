-- ===== src/Common/Results/Ensures.antt =====
-- The postcondition of fallible code, and the rule for each way of putting code together.
use mathlib.Core.Path.{◌≡◌, refl}
use mathlib.Core.Logic.{◌≢◌}
use mathlib.Core.Bool.{Bool, true, false}
use hysteria.Common.Tests.{if◌then◌else◌}
use hysteria.Common.Results.{Result, ok, err, panic, ◌>>=◌, map_err}

-- The code does not panic, and what it returns without an error satisfies `P`.
pub data Ensures {ℓ κ μ} {E : Type ℓ} {A : Type κ} (P : A → Type μ)
    : Result E A → Type (ℓ ⊔ κ ⊔ μ) where
  returns : (a : A) → P a → Ensures P (ok a)
  fails : (e : E) → Ensures P (err e)

module _ {ℓ κ μ} {E : Type ℓ} {A : Type κ} {P : A → Type μ} where
  pub Ensures-intro : (r : Result E A) → r ≢ panic → ((a : A) → r ≡ ok a → P a) → Ensures P r
  Ensures-intro (ok a) n p = returns a (p a refl)
  Ensures-intro (err e) n p = fails e
  Ensures-intro panic n p = absurd (n refl)

  pub Ensures-if :
      (b : Bool) {x y : Result E A}
      → (b ≡ true → Ensures P x)
      → (b ≡ false → Ensures P y)
      → Ensures P (if b then x else y)
  Ensures-if true hx hy = hx refl
  Ensures-if false hx hy = hy refl

  pub Ensures-map_err {ν} :
      {F : Type ν} {r : Result E A} (f : E → F) → Ensures P r → Ensures P (map_err f r)
  Ensures-map_err f (returns a p) = returns a p
  Ensures-map_err f (fails e) = fails (f e)

  pub weaken {ν} :
      {Q : A → Type ν} {r : Result E A} → Ensures P r → ((a : A) → P a → Q a) → Ensures Q r
  weaken (returns a p) k = returns a (k a p)
  weaken (fails e) k = fails e

  pub Ensures-bind {ν ξ} :
      {B : Type ν} {Q : B → Type ξ} {r : Result E A} (f : A → Result E B)
      → Ensures P r
      → ((a : A) → P a → Ensures Q (f a))
      → Ensures Q (r >>= f)
  Ensures-bind f (returns a p) k = k a p
  Ensures-bind f (fails e) k = fails e

  pub ensures-ok : {a : A} → Ensures {E = E} P (ok a) → P a
  ensures-ok (returns a p) = p

  pub Ensures-ne-panic : {r : Result E A} → Ensures P r → r ≢ panic
  Ensures-ne-panic (returns a p) e = cc
  Ensures-ne-panic (fails x) e = cc
