-- ===== src/Common/Specs.antt =====
-- What a method guarantees: one rule for each way to build one.
use mathlib.Core.Bool.{Bool, true, false}
use mathlib.Core.List.{List, [], ◌∷◌}
use mathlib.Core.Path.{◌≡◌, refl}
use marstack_cloud.Common.Lists.{All}
use marstack_cloud.Common.Effects.{
  Exec, pure, raise, gets, attempt, continue, when◌run◌otherwise◌, ◌>>=◌, for_each,
}
use marstack_cloud.Fault.{Error, Result, ok, err}

abbrev pub Post {ℓ} : {S A : Type ℓ} → (S → Type ℓ) → (A → S → Type ℓ) → Result A × S → Type ℓ
Post I Q (ok a, s) = Q a s
Post I Q (err e, s) = I s

-- From a state with `P`, `m` returns with `Q` or fails with `I`.
pub record Spec {ℓ} {S A : Type ℓ} (P : S → Type ℓ) (I : S → Type ℓ) (m : Exec S A)
    (Q : A → S → Type ℓ) : Type ℓ where
  pub at : (s : S) → P s → Post I Q (m s)

Post-mono {ℓ} :
    {S A : Type ℓ} (I : S → Type ℓ) (Q R : A → S → Type ℓ) (r : Result A) (s : S)
    → ((a : A) (s : S) → Q a s → R a s)
    → Post I Q (r, s)
    → Post I R (r, s)
Post-mono I Q R (ok a) s h p = h a s p
Post-mono I Q R (err e) s h p = p

attempt-Post {ℓ} :
    {S A : Type ℓ} (Q : Result A → S → Type ℓ) (r : Result A) (s : S)
    → Post (λ s. (e : Error) → Q (err e) s) (λ a s. Q (ok a) s) (r, s)
    → Q r s
attempt-Post Q (ok a) s p = p
attempt-Post Q (err e) s p = p e

continue-Post {ℓ} :
    {S A B : Type ℓ} (I : S → Type ℓ) (Q : A → S → Type ℓ) (R : B → S → Type ℓ) (r : Result A)
    (s : S) (f : A → Exec S B)
    → Post I Q (r, s)
    → ((a : A) → Spec (Q a) I (f a) R)
    → Post I R (continue r f s)
continue-Post I Q R (ok a) s f p h = (h a).at s p
continue-Post I Q R (err e) s f p h = p

module _ {ℓ} {S A : Type ℓ} {P I : S → Type ℓ} {Q : A → S → Type ℓ} where
  pub Spec-pure : (a : A) → ((s : S) → P s → Q a s) → Spec P I (pure a) Q
  unfolding pure
  Spec-pure a h = record { at = h }

  pub Spec-raise : (e : Error) → ((s : S) → P s → I s) → Spec P I (raise e) Q
  unfolding raise
  Spec-raise e h = record { at = h }

  pub Spec-gets : (f : S → A) → ((s : S) → P s → Q (f s) s) → Spec P I (gets f) Q
  unfolding gets
  Spec-gets f h = record { at = h }

  -- A stronger precondition, a weaker postcondition.
  pub Spec-mono :
      {P' : S → Type ℓ} {R : A → S → Type ℓ} (m : Exec S A)
      → ((s : S) → P' s → P s)
      → ((a : A) (s : S) → Q a s → R a s)
      → Spec P I m Q
      → Spec P' I m R
  Spec-mono {R} m p q h = record {
    at = λ s k. let (r, s') = m s in Post-mono I Q R r s' q (h.at s (p s k));
  }

Post-error {ℓ} :
    {S A : Type ℓ} (I J : S → Type ℓ) (Q : A → S → Type ℓ) (r : Result A) (s : S)
    → ((s : S) → I s → J s)
    → Post I Q (r, s)
    → Post J Q (r, s)
Post-error I J Q (ok a) s h p = p
Post-error I J Q (err e) s h p = h s p

module _ {ℓ} {S A : Type ℓ} {P I : S → Type ℓ} {Q : A → S → Type ℓ} where
  -- A weaker promise for a failure.
  pub Spec-error :
      {J : S → Type ℓ} (m : Exec S A) → ((s : S) → I s → J s) → Spec P I m Q → Spec P J m Q
  Spec-error {J} m w h = record {
    at = λ s p. let (r, s') = m s in Post-error I J Q r s' w (h.at s p);
  }

module _ {ℓ} {S A : Type ℓ} {P I : S → Type ℓ} {Q : A → S → Type ℓ} where
  pub Spec-when :
      (b : Bool) (m n : Exec S A)
      → (b ≡ true → Spec P I m Q)
      → (b ≡ false → Spec P I n Q)
      → Spec P I (when b run m otherwise n) Q
  unfolding when◌run◌otherwise◌
  Spec-when true m n km kn = km refl
  Spec-when false m n km kn = kn refl

module _ {ℓ} {S A B : Type ℓ} {P I : S → Type ℓ} {Q : A → S → Type ℓ} {R : B → S → Type ℓ} where
  pub Spec-bind :
      (m : Exec S A) (f : A → Exec S B)
      → Spec P I m Q
      → ((a : A) → Spec (Q a) I (f a) R)
      → Spec P I (m >>= f) R
  unfolding ◌>>=◌
  Spec-bind m f hm hf = record {
    at = λ s p. let (r, s') = m s in continue-Post I Q R r s' f (hm.at s p) hf;
  }

module _ {ℓ} {S A : Type ℓ} {P I : S → Type ℓ} {Q : Result A → S → Type ℓ} where
  -- The failure is a value: what held on failure is a case of the postcondition.
  pub Spec-attempt :
      (m : Exec S A)
      → Spec P (λ s. (e : Error) → Q (err e) s) m (λ a s. Q (ok a) s)
      → Spec P I (attempt m) Q
  unfolding attempt
  Spec-attempt m h = record { at = λ s p. let (r, s') = m s in attempt-Post Q r s' (h.at s p) }

module _ {ℓ} {S A B : Type ℓ} {I : S → Type ℓ} where
  -- An invariant of the loop's variables and the state, kept by each round.
  pub Spec-for_each :
      (P : B → S → Type ℓ) (G : A → Type ℓ) (body : A → B → Exec S B)
      → ((x : A) (b : B) → G x → Spec (P b) I (body x b) P)
      → (xs : List A) (b : B) → All G xs
      → Spec (P b) I (for_each body xs b) P
  unfolding for_each
  Spec-for_each P G body h [] b g = Spec-pure b (λ s p. p)
  Spec-for_each P G body h (x ∷ xs) b g =
      Spec-bind (body x b) (for_each body xs) (h x b g.0) (λ b'. Spec-for_each P G body h xs b' g.1)
