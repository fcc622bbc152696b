-- ===== src/Common/Queries.antt =====
-- Rows: the tests of queries, and tables of which no two rows clash.
use mathlib.Core.Path.{◌≡◌}
use mathlib.Core.Logic.{inl, inr}
use mathlib.Core.Bool.{Bool, true, false}
use mathlib.Core.List.{List, [], ◌∷◌, map}
use native.Mathlib.Omega.{arith}
use marstack_cloud.Common.Tests.{if◌then◌else◌, Bool-cases}
use marstack_cloud.Common.Lists.{length, All, In, here, there, keep_if}
use marstack_cloud.Common.Kept.{Fact}
use marstack_cloud.Fault.{Error, Result, ok, err}

-- Whether a row passes the test.
unfoldable pub any_of {ℓ} : {A : Type ℓ} → (A → Bool) → List A → Bool
any_of test [] = false
any_of test (x ∷ xs) = if test x then true else any_of test xs

-- The first row that passes the test, of those that a query gives, or the error.
unfoldable pub first_row {ℓ} : {A : Type ℓ} → Error → (A → Bool) → List A → Result A
first_row missing test [] = err missing
first_row missing test (x ∷ xs) = if test x then ok x else first_row missing test xs

module _ {ℓ} {A : Type ℓ} where
  -- No two rows clash.
  abbrev pub Apart : (A → A → Bool) → List A → Type ℓ
  Apart clash [] = Unit
  Apart clash (x ∷ xs) = All (λ y. clash x y ≡ false) xs × Apart clash xs

  pub All-none :
      (test : A → Bool) (xs : List A) → any_of test xs ≡ false → All (λ y. test y ≡ false) xs
  unfolding any_of
  All-none test [] h = tt
  All-none test (x ∷ xs) h = elim (Bool-cases (test x)) [
    | inl e ↦ ground arith
    | inr e ↦ (e, All-none test xs (rw e at h))
  ]

  pub All-keep_if {κ} :
      (P : A → Type κ) (p : A → Bool) (xs : List A) → All P xs → All P (keep_if p xs)
  All-keep_if P p [] h = tt
  All-keep_if P p (x ∷ xs) h = elim (Bool-cases (p x)) [
    | inl e ↦ rw (e, keep_if, All) (h.0, All-keep_if P p xs h.1)
    | inr e ↦ rw (e, keep_if, All) (All-keep_if P p xs h.1)
  ]

  pub Apart-keep_if :
      (clash : A → A → Bool) (p : A → Bool) (xs : List A)
      → Apart clash xs
      → Apart clash (keep_if p xs)
  Apart-keep_if clash p [] h = tt
  Apart-keep_if clash p (x ∷ xs) h = elim (Bool-cases (p x)) [
    | inl e ↦ rw (e, keep_if, Apart) (All-keep_if _ p xs h.0, Apart-keep_if clash p xs h.1)
    | inr e ↦ rw (e, keep_if, Apart) (Apart-keep_if clash p xs h.1)
  ]

  keep_head :
      (p : A → Bool) (a x : A) (xs : List A)
      → In a xs
      → (In a xs → In a (keep_if p xs))
      → In a (keep_if p (x ∷ xs))
  keep_head p a x xs m f = elim (Bool-cases (p x)) [
    | inl e ↦ rw (e, keep_if) (there (f m))
    | inr e ↦ rw (e, keep_if) (f m)
  ]

  pub In-kept : (p : A → Bool) (a : A) (xs : List A) → In a xs → p a ≡ true → In a (keep_if p xs)
  In-kept p a [] m e = elim m [ ]
  In-kept p a (_ ∷ xs) here e = rw (e, keep_if) here
  In-kept p a (x ∷ xs) (there m) e = keep_head p a x xs m (λ n. In-kept p a xs n e)

  further :
      (test : A → Bool) (x : A) (xs : List A) (r : Result A)
      → Fact (λ a. In a xs × (test a ≡ true)) r
      → Fact (λ a. In a (x ∷ xs) × (test a ≡ true)) r
  further test x xs (ok a) h = (there h.0, h.1)
  further test x xs (err e) h = tt

  pub first_row-In :
      (missing : Error) (test : A → Bool) (xs : List A)
      → Fact (λ a. In a xs × (test a ≡ true)) (first_row missing test xs)
  unfolding first_row
  first_row-In missing test [] = tt
  first_row-In missing test (x ∷ xs) = elim (Bool-cases (test x)) [
    | inl e ↦ rw e (here, e)
    | inr e ↦ rw e (further test x xs _ (first_row-In missing test xs))
  ]

  pub All-In {κ} : (P : A → Type κ) (a : A) (xs : List A) → All P xs → In a xs → P a
  All-In P a [] h m = elim m [ ]
  All-In P a (_ ∷ xs) h here = h.0
  All-In P a (x ∷ xs) h (there m) = All-In P a xs h.1 m

  Fact-found :
      (F : A → Type ℓ) (test : A → Bool) (xs : List A) (r : Result A)
      → ((a : A) → In a xs → test a ≡ true → F a)
      → Fact (λ a. In a xs × (test a ≡ true)) r
      → Fact F r
  Fact-found F test xs (ok a) f h = f a h.0 h.1
  Fact-found F test xs (err e) f h = tt

  pub Fact-first_row :
      (F : A → Type ℓ) (missing : Error) (test : A → Bool) (xs : List A)
      → ((a : A) → In a xs → test a ≡ true → F a)
      → Fact F (first_row missing test xs)
  Fact-first_row F missing test xs f =
      Fact-found F test xs (first_row missing test xs) f (first_row-In missing test xs)

  pub All-kept {κ μ} :
      {P : A → Type κ} (Q : A → Type μ) (p : A → Bool)
      → ((x : A) → P x → p x ≡ true → Q x)
      → (xs : List A) → All P xs
      → All Q (keep_if p xs)
  All-kept Q p f [] h = tt
  All-kept Q p f (x ∷ xs) h = elim (Bool-cases (p x)) [
    | inl e ↦ rw (e, keep_if, All) (f x h.0 e, All-kept Q p f xs h.1)
    | inr e ↦ rw (e, keep_if, All) (All-kept Q p f xs h.1)
  ]

  pub All-unkept :
      (p : A → Bool) (xs : List A) → length (keep_if p xs) ≡ 0 → All (λ x. p x ≡ false) xs
  All-unkept p [] h = tt
  All-unkept p (x ∷ xs) h = elim (Bool-cases (p x)) [
    | inl e ↦ let more = rw (e, keep_if) at h in ground arith
    | inr e ↦ (e, All-unkept p xs (rw (e, keep_if) at h))
  ]

module _ {ℓ μ} {A : Type ℓ} {B : Type μ} where
  pub All-mapped {κ ν} :
      {P : A → Type κ} (Q : B → Type ν) (f : A → B)
      → ((x : A) → P x → Q (f x))
      → (xs : List A) → All P xs
      → All Q (map f xs)
  All-mapped Q f h [] a = tt
  All-mapped Q f h (x ∷ xs) a = (h x a.0, All-mapped Q f h xs a.1)
