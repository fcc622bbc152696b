-- ===== src/Common/Kept.antt =====
-- Invariants of methods: `Gives P m F` when `m` keeps `P`, whether it returns or fails, and what it
-- returns has `F`. One rule for each way to build a method.
use mathlib.Core.Bool.{Bool, true, false}
use mathlib.Core.List.{List, [], ◌∷◌}
use mathlib.Core.Path.{◌≡◌, refl}
use marstack_cloud.Common.Lists.{All}
use marstack_cloud.Common.Effects.{
  Exec, pure, gets, attempt, modify, continue, when◌run◌otherwise◌, ◌>>=◌, for_each,
}
use marstack_cloud.Common.Specs.{Spec, Post}
use marstack_cloud.Fault.{Result, ok, err}

abbrev pub Fact {ℓ} : {A : Type ℓ} → (A → Type ℓ) → Result A → Type ℓ
Fact F (ok a) = F a
Fact F (err e) = Unit

pub record Gives {ℓ} {S A : Type ℓ} (P : S → Type ℓ) (m : Exec S A) (F : A → Type ℓ) : Type ℓ where
  pub at : (s : S) → P s → P (m s).1 × Fact F (m s).0

module _ {ℓ} {S A : Type ℓ} {P : S → Type ℓ} {F : A → Type ℓ} where
  pub Gives-pure : (a : A) → F a → Gives P (pure a) F
  unfolding pure
  Gives-pure a f = record { at = λ s p. (p, f) }

  pub Gives-gets : (g : S → A) → ((s : S) → P s → F (g s)) → Gives P (gets g) F
  unfolding gets
  Gives-gets g f = record { at = λ s p. (p, f s p) }

  pub Gives-when :
      (b : Bool) (m n : Exec S A)
      → (b ≡ true → Gives P m F)
      → (b ≡ false → Gives P n F)
      → Gives P (when b run m otherwise n) F
  unfolding when◌run◌otherwise◌
  Gives-when true m n km kn = km refl
  Gives-when false m n km kn = kn refl

module _ {ℓ} {S : Type ℓ} {P : S → Type ℓ} where
  pub Gives-modify : (f : S → S) → ((s : S) → P s → P (f s)) → Gives P (modify f) (λ _. Unit)
  unfolding modify
  Gives-modify f h = record { at = λ s p. (h s p, tt) }

continue-Fact {ℓ} :
    {S A B : Type ℓ} (P : S → Type ℓ) (F : A → Type ℓ) (G : B → Type ℓ) (f : A → Exec S B)
    (r : Result A) (s : S)
    → P s × Fact F r
    → ((a : A) → F a → Gives P (f a) G)
    → P (continue r f s).1 × Fact G (continue r f s).0
continue-Fact P F G f (ok a) s h k = (k a h.1).at s h.0
continue-Fact P F G f (err e) s h k = (h.0, tt)

module _ {ℓ} {S A B : Type ℓ} {P : S → Type ℓ} {F : A → Type ℓ} {G : B → Type ℓ} where
  pub Gives-bind :
      (m : Exec S A) (f : A → Exec S B)
      → Gives P m F
      → ((a : A) → F a → Gives P (f a) G)
      → Gives P (m >>= f) G
  unfolding ◌>>=◌
  Gives-bind m f hm hf = record {
    at = λ s p. let (r, s') = m s in continue-Fact P F G f r s' (hm.at s p) hf;
  }

module _ {ℓ} {S A : Type ℓ} {P : S → Type ℓ} {F : A → Type ℓ} where
  pub Gives-attempt : (m : Exec S A) → Gives P m F → Gives P (attempt m) (Fact F)
  unfolding attempt
  Gives-attempt m h = record { at = λ s p. h.at s p }

  pub Gives-mono :
      {G : A → Type ℓ} (m : Exec S A) → ((a : A) → F a → G a) → Gives P m F → Gives P m G
  Gives-mono {G} m f h = record { at = λ s p. let (r, s') = m s in go r s' (h.at s p) }
    where
      go : (r : Result A) (s : S) → P s × Fact F r → P s × Fact G r
      go (ok a) s k = (k.0, f a k.1)
      go (err e) s k = (k.0, tt)

module _ {ℓ} {S A B : Type ℓ} {P : S → Type ℓ} where
  -- What holds of the loop's variables before each round holds after the last.
  pub Gives-for_each :
      (F : B → Type ℓ) (G : A → Type ℓ) (body : A → B → Exec S B)
      → ((x : A) (b : B) → G x → F b → Gives P (body x b) F)
      → (xs : List A) (b : B) → All G xs
      → F b
      → Gives P (for_each body xs b) F
  unfolding for_each
  Gives-for_each F G body h [] b g f = Gives-pure b f
  Gives-for_each F G body h (x ∷ xs) b g f =
      Gives-bind (body x b) (for_each body xs) (h x b g.0 f)
        (λ b' f'. Gives-for_each F G body h xs b' g.1 f')

-- The same rules where nothing is said of the result.
abbrev pub Any {ℓ} : {A : Type ℓ} → A → Type ℓ
Any a = Unit

module _ {ℓ} {S A : Type ℓ} {P : S → Type ℓ} where
  pub Gives-pure-Any : (a : A) → Gives P (pure a) Any
  Gives-pure-Any a = Gives-pure a tt

  pub Gives-gets-Any : (g : S → A) → Gives P (gets g) Any
  Gives-gets-Any g = Gives-gets g (λ s p. tt)

  pub Gives-Any : {F : A → Type ℓ} (m : Exec S A) → Gives P m F → Gives P m Any
  Gives-Any m h = Gives-mono m (λ a f. tt) h

  pub Gives-attempt-Any : (m : Exec S A) → Gives P m Any → Gives P (attempt m) Any
  Gives-attempt-Any m h = Gives-mono (attempt m) (λ a f. tt) (Gives-attempt m h)

module _ {ℓ} {S A B : Type ℓ} {P : S → Type ℓ} where
  pub Gives-bind_any :
      {G : B → Type ℓ} (m : Exec S A) (f : A → Exec S B)
      → Gives P m Any
      → ((a : A) → Gives P (f a) G)
      → Gives P (m >>= f) G
  Gives-bind_any m f hm hf = Gives-bind m f hm (λ a _. hf a)

pub ruleset keeps_rules =
    (Gives-pure-Any, Gives-gets-Any, Gives-attempt-Any, Gives-bind_any, Gives-when, Gives-modify)

Post-of_Fact {ℓ} :
    {S A : Type ℓ} (P : S → Type ℓ) (F : A → Type ℓ) (r : Result A) (s : S)
    → P s × Fact F r
    → Post P (λ a s. P s × F a) (r, s)
Post-of_Fact P F (ok a) s h = h
Post-of_Fact P F (err e) s h = h.0

Fact-of_Post {ℓ} :
    {S A : Type ℓ} (P : S → Type ℓ) (F : A → Type ℓ) (r : Result A) (s : S)
    → Post P (λ a s. P s × F a) (r, s)
    → P s × Fact F r
Fact-of_Post P F (ok a) s h = h
Fact-of_Post P F (err e) s h = (h, tt)

-- A kept invariant is a specification, and the other way round.
module _ {ℓ} {S A : Type ℓ} {P : S → Type ℓ} {F : A → Type ℓ} where
  pub Spec-of_Gives : (m : Exec S A) → Gives P m F → Spec P P m (λ a s. P s × F a)
  Spec-of_Gives m h = record { at = λ s p. let (r, s') = m s in Post-of_Fact P F r s' (h.at s p) }

  pub Gives-of_Spec : (m : Exec S A) → Spec P P m (λ a s. P s × F a) → Gives P m F
  Gives-of_Spec m h = record { at = λ s p. let (r, s') = m s in Fact-of_Post P F r s' (h.at s p) }
