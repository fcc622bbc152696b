-- ===== src/Common/Effects.antt =====
-- Methods that change an object and may fail: what was written before a failure stays written, so
-- the state comes back beside the error too.
use mathlib.Core.List.{List, [], ◌∷◌}
use mathlib.Core.Bool.{Bool, true, false}
use marstack_cloud.Fault.{Error, Result, ok, err}

abbrev pub Exec {ℓ} : Type ℓ → Type ℓ → Type ℓ
Exec S A = S → Result A × S

module _ {ℓ} {S A : Type ℓ} where
  unfoldable pub pure : A → Exec S A
  pure a s = (ok a, s)

  unfoldable pub raise : Error → Exec S A
  raise e s = (err e, s)

  unfoldable pub lift : Result A → Exec S A
  lift r s = (r, s)

  unfoldable pub gets : (S → A) → Exec S A
  gets f s = (ok (f s), s)

  -- The error as a value, for code that logs it and goes on.
  unfoldable pub attempt : Exec S A → Exec S (Result A)
  attempt m s = let (r, s') = m s in (ok r, s')

-- A conditional between two methods.
module _ {ℓ} {S A : Type ℓ} where
  infix 1 when◌run◌otherwise◌
  unfoldable pub when◌run◌otherwise◌ : Bool → Exec S A → Exec S A → Exec S A
  when true run m otherwise n = m
  when false run m otherwise n = n

module _ {ℓ} {S : Type ℓ} where
  unfoldable pub modify : (S → S) → Exec S Unit
  modify f s = (ok tt, f s)

module _ {ℓ} {S A B : Type ℓ} where
  abbrev pub continue : Result A → (A → Exec S B) → Exec S B
  continue (ok a) f s = f a s
  continue (err e) f s = (err e, s)

  infixl 10 ◌>>=◌ ◌>>◌
  -- Opening this opens the actions above too.
  unfoldable pub ◌>>=◌ : Exec S A → (A → Exec S B) → Exec S B
  unfolding pure raise lift gets attempt modify when◌run◌otherwise◌
  ◌>>=◌ m f s = let (r, s') = m s in continue r f s'

  abbrev pub ◌>>◌ : Exec S A → Exec S B → Exec S B
  m >> n = m >>= λ _. n

-- `for _, x := range xs`, over a body that passes the loop's variables on.
module _ {ℓ} {S A B : Type ℓ} where
  unfoldable pub for_each : (A → B → Exec S B) → List A → B → Exec S B
  unfolding ◌>>=◌
  for_each body [] b = pure b
  for_each body (x ∷ xs) b = body x b >>= for_each body xs
