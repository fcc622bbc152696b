-- ===== src/Common/Services.antt =====
-- Services over tables: the methods read and write tables, and ask what is outside, whose answer
-- may differ at each moment.
use Prim.Native.Nat.{ℕ, ◌+◌}
use Prim.Native.String.{String}
use mathlib.Core.Option.{Option, none, some}
use marstack_cloud.Common.Effects.{Exec, pure, raise, lift, attempt, when◌run◌otherwise◌, ◌>>=◌}
use marstack_cloud.Common.Specs.{Spec, Spec-bind, Spec-error, Post}
use marstack_cloud.Common.Kept.{
  Gives, Spec-of_Gives, Gives-pure, Gives-bind, Gives-attempt, Fact, Any,
}
use marstack_cloud.Common.Texts.{str_eq}
use mathlib.Core.Path.{◌≡◌, refl}
use mathlib.Core.Bool.{Bool, true, false}
use marstack_cloud.Fault.{Error, no_cause, caused_by, Result, ok, err, plain, wrapped, fault}

pub record World {ℓ} (S : Type ℓ) : Type ℓ where
  pub tables : S
  pub moment : ℕ

abbrev pub On : Type 0 → Type 0 → Type 0
On S A = Exec (World S) A

-- `errors.Is` with an error of `errors.New`, which is told by its text.
unfoldable pub is_error : String → Error → Bool
is_error text (plain m) = str_eq m text
is_error text (wrapped m e) = is_error text e
is_error text (fault k c m no_cause) = false
is_error text (fault k c m (caused_by e)) = is_error text e

abbrev pub labelled : String → Option Error → Result (Unit {0})
labelled label none = ok tt
labelled label (some e) = err (wrapped label e)

module _ {S : Type 0} where
  -- A call that leaves the service.
  unfoldable pub ask_at : {A : Type 0} → (ℕ → Result A) → On S A
  ask_at f w = (f w.moment, record w { moment = w.moment + 1 })

  -- A statement of the database, which fails with the error that the repository makes of it.
  unfoldable pub run_sql : (ℕ → Option Error) → String → On S Unit
  run_sql database label = ask_at (λ n. labelled label (database n))

  unfoldable pub read_tables : {A : Type 0} → (S → A) → On S A
  read_tables f w = (ok (f w.tables), w)

  unfoldable pub write_tables : (S → S) → On S Unit
  write_tables f w = (ok tt, record w { tables = f w.tables })

pub Any-Fact : {A : Type 0} (r : Result A) → Fact Any r
Any-Fact (ok a) = tt
Any-Fact (err e) = tt

-- What a method keeps of the tables.
abbrev pub Maintains : {S : Type 0} → (S → Type 0) → {A : Type 0} → On S A → Type 0
Maintains P m = Gives (λ w. P w.tables) m Any

module _ {S : Type 0} (P : S → Type 0) where
  pub Maintains-ask : {A : Type 0} (f : ℕ → Result A) → Maintains P (ask_at f)
  unfolding ask_at
  Maintains-ask f = record { at = λ w p. (p, Any-Fact (f w.moment)) }

  pub Maintains-sql :
      (database : ℕ → Option Error) (label : String) → Maintains P (run_sql database label)
  unfolding run_sql
  Maintains-sql database label = Maintains-ask _

  pub Maintains-read : {A : Type 0} (f : S → A) → Maintains P (read_tables f)
  unfolding read_tables
  Maintains-read f = record { at = λ w p. (p, tt) }

  pub Maintains-write : (f : S → S) → ((s : S) → P s → P (f s)) → Maintains P (write_tables f)
  unfolding write_tables
  Maintains-write f h = record { at = λ w p. (h w.tables p, tt) }

  -- What is read is true of the tables that it is read from.
  pub Gives-read :
      {A : Type 0} {F : A → Type 0} (f : S → A)
      → ((s : S) → P s → F (f s))
      → Gives (λ w. P w.tables) (read_tables f) F
  unfolding read_tables
  Gives-read f h = record { at = λ w p. (p, h w.tables p) }

-- `if test { return err }`
unfoldable pub refuse_if {ℓ} : {S : Type ℓ} → Bool → Error → Exec S (Unit {ℓ})
refuse_if test e = when test run raise e otherwise pure tt

-- The error of a method, changed.
module _ {ℓ} {S A : Type ℓ} where
  unfoldable pub fail_as_with : (Error → Error) → Result A → Exec S A
  fail_as_with f (ok a) = pure a
  fail_as_with f (err e) = raise (f e)

  unfoldable pub fail_as : (Error → Error) → Exec S A → Exec S A
  fail_as f m = attempt m >>= fail_as_with f

module _ {ℓ} {S A : Type ℓ} {P : S → Type ℓ} {F : A → Type ℓ} where
  pub Gives-lift : (r : Result A) → Fact F r → Gives P (lift r) F
  unfolding lift
  Gives-lift r f = record { at = λ s p. (p, f) }

  Gives-fail_as_with : (f : Error → Error) (r : Result A) → Fact F r → Gives P (fail_as_with f r) F
  unfolding fail_as_with raise
  Gives-fail_as_with f (ok a) h = Gives-pure a h
  Gives-fail_as_with f (err e) h = record { at = λ s p. (p, tt) }

  pub Gives-fail_as : (f : Error → Error) (m : Exec S A) → Gives P m F → Gives P (fail_as f m) F
  unfolding fail_as
  Gives-fail_as f m h =
      Gives-bind (attempt m) (fail_as_with f) (Gives-attempt m h) (λ r k. Gives-fail_as_with f r k)

  pub Gives-raise : (e : Error) → Gives P (raise e) F
  unfolding raise
  Gives-raise e = record { at = λ s p. (p, tt) }

module _ {S B : Type 0} {P : S → Type 0} {G : B → Type 0} where
  -- Behind the test, it is false.
  pub Gives-refuse_if :
      (test : Bool) (e : Error) (f : Unit → Exec S B)
      → (test ≡ false → Gives P (f tt) G)
      → Gives P (refuse_if test e >>= f) G
  unfolding refuse_if when◌run◌otherwise◌ raise pure ◌>>=◌
  Gives-refuse_if true e f h = record { at = λ s p. (p, tt) }
  Gives-refuse_if false e f h = record { at = λ s p. (h refl).at s p }

module _ {S : Type 0} (P : World S → Type 0) {I : World S → Type 0} where
  pub Spec-read :
      {A : Type 0} (f : S → A) → Spec P I (read_tables f) (λ a w. P w × (a ≡ f w.tables))
  unfolding read_tables
  Spec-read f = record { at = λ w p. (p, refl) }

  pub Spec-write :
      (f : S → S) (Q : S → Type 0)
      → ((w : World S) → P w → Q (f w.tables))
      → Spec P I (write_tables f) (λ _ w. Q w.tables)
  unfolding write_tables
  Spec-write f Q h = record { at = λ w p. h w p }

-- A kept invariant, with what it gives, before the rest of a method.
module _ {ℓ} {S A B : Type ℓ} {P I : S → Type ℓ} {F : A → Type ℓ} {R : B → S → Type ℓ} where
  pub Spec-after :
      (m : Exec S A) (f : A → Exec S B)
      → ((s : S) → P s → I s)
      → Gives P m F
      → ((a : A) → F a → Spec P I (f a) R)
      → Spec P I (m >>= f) R
  Spec-after m f w h k =
      Spec-bind m f (Spec-error m w (Spec-of_Gives m h))
        (λ a. record { at = λ s p. (k a p.1).at s p.0 })

module _ {ℓ} {S A : Type ℓ} {P I : S → Type ℓ} {Q : A → S → Type ℓ} where
  pub Spec-lift : (r : Result A) → ((s : S) → P s → Post I Q (r, s)) → Spec P I (lift r) Q
  unfolding lift
  Spec-lift r h = record { at = h }

failed_with {ℓ} :
    {S A : Type ℓ} (I : S → Type ℓ) (Q : A → S → Type ℓ) (f : Error → Error) (r : Result A) (s : S)
    → Post I Q (r, s)
    → Post I Q (fail_as_with f r s)
unfolding fail_as_with raise pure
failed_with I Q f (ok a) s h = h
failed_with I Q f (err e) s h = h

-- A method whose error is changed does what it did.
module _ {ℓ} {S A : Type ℓ} {P I : S → Type ℓ} {Q : A → S → Type ℓ} where
  pub Spec-fail_as : (f : Error → Error) (m : Exec S A) → Spec P I m Q → Spec P I (fail_as f m) Q
  unfolding fail_as attempt ◌>>=◌
  Spec-fail_as f m h = record { at = λ s p. let (r, s') = m s in failed_with I Q f r s' (h.at s p) }

-- A fact that the precondition has, whatever the state.
module _ {ℓ} {S A F : Type ℓ} {P I : S → Type ℓ} {Q : A → S → Type ℓ} where
  pub Spec-given : (m : Exec S A) → ((s : S) → P s → F) → (F → Spec P I m Q) → Spec P I m Q
  Spec-given m f h = record { at = λ s p. (h (f s p)).at s p }

module _ {S A : Type 0} {P : S → Type 0} where
  pub Gives-lift-Any : (r : Result A) → Gives P (lift r) Any
  Gives-lift-Any r = Gives-lift r (Any-Fact r)

module _ {S B : Type 0} {P I : S → Type 0} {Q : B → S → Type 0} where
  pub Spec-refuse_if :
      (test : Bool) (e : Error) (f : Unit → Exec S B)
      → ((s : S) → P s → I s)
      → (test ≡ false → Spec P I (f tt) Q)
      → Spec P I (refuse_if test e >>= f) Q
  unfolding refuse_if when◌run◌otherwise◌ raise pure ◌>>=◌
  Spec-refuse_if true e f w h = record { at = w }
  Spec-refuse_if false e f w h = record { at = λ s p. (h refl).at s p }
