-- ===== src/Common/Sorting.antt =====
-- `sort.SliceStable`: the stable sort of the standard library, by insertion. Where `less` is a
-- strict weak order the result of a stable sort is unique, so the algorithm does not matter.
use mathlib.Core.Path.{◌≡◌}
use mathlib.Core.Logic.{inl, inr}
use mathlib.Core.Bool.{Bool, true, false}
use mathlib.Core.List.{List, [], ◌∷◌}
use marstack_cloud.Common.Lists.{All}
use marstack_cloud.Common.Tests.{Bool-cases}

module _ {ℓ} {A : Type ℓ} (less : A → A → Bool) where
  unfoldable pub insert_stable : A → List A → List A
  insert_stable x [] = x ∷ []
  insert_stable x (y ∷ ys) = elim (less y x) [ true ↦ y ∷ insert_stable x ys | false ↦ x ∷ y ∷ ys ]

  unfoldable pub sort_stable : List A → List A
  unfolding insert_stable
  sort_stable [] = []
  sort_stable (x ∷ xs) = insert_stable x (sort_stable xs)

  pub All-insert {κ} :
      (P : A → Type κ) (x : A) (xs : List A) → P x → All P xs → All P (insert_stable x xs)
  unfolding insert_stable
  All-insert P x [] h k = (h, tt)
  All-insert P x (y ∷ ys) h k =
      elim (less y x)
        as (λ b. All P (elim b [ true ↦ y ∷ insert_stable x ys | false ↦ x ∷ y ∷ ys ])) [
          | true ↦ (k.0, All-insert P x ys h k.1)
          | false ↦ (h, k)
        ]

  -- Sorting keeps what holds of every element.
  pub All-sort {κ} : (P : A → Type κ) (xs : List A) → All P xs → All P (sort_stable xs)
  unfolding sort_stable
  All-sort P [] h = tt
  All-sort P (x ∷ xs) h = All-insert P x (sort_stable xs) h.0 (All-sort P xs h.1)

  All-of_place {κ} :
      (P : A → Type κ) (x y : A) (ys rest : List A) (b : Bool)
      → (All P rest → P x × All P ys)
      → All P (elim b [ true ↦ y ∷ rest | false ↦ x ∷ y ∷ ys ])
      → P x × All P (y ∷ ys)
  All-of_place P x y ys rest true f k = ((f k.1).0, (k.0, (f k.1).1))
  All-of_place P x y ys rest false f k = k

  All-of_insert {κ} :
      (P : A → Type κ) (x : A) (xs : List A) → All P (insert_stable x xs) → P x × All P xs
  unfolding insert_stable
  All-of_insert P x [] h = h
  All-of_insert P x (y ∷ ys) h =
      All-of_place P x y ys (insert_stable x ys) (less y x) (All-of_insert P x ys) h

  -- And adds nothing to it.
  pub All-of_sort {κ} : (P : A → Type κ) (xs : List A) → All P (sort_stable xs) → All P xs
  unfolding sort_stable
  All-of_sort P [] h = tt
  All-of_sort P (x ∷ xs) h =
      let p = All-of_insert P x (sort_stable xs) h in (p.0, All-of_sort P xs p.1)

  abbrev pub head_or : A → List A → A
  head_or d [] = d
  head_or d (x ∷ xs) = x

  -- A preorder that `less` respects on the elements that `P` describes.
  pub record IsRanking {κ μ} (P : A → Type κ) (Le : A → A → Type μ) : Type (ℓ ⊔ κ ⊔ μ) where
    pub le_refl : (a : A) → P a → Le a a
    pub le_trans : (a b c : A) → P a → P b → P c → Le a b → Le b c → Le a c
    pub of_less : (a b : A) → P a → P b → less a b ≡ true → Le a b
    pub of_not_less : (a b : A) → P a → P b → less a b ≡ false → Le b a

  module _ {κ μ} {P : A → Type κ} {Le : A → A → Type μ} (o : IsRanking P Le) where
    -- The first element is at most the others.
    abbrev LeastFirst : List A → Type μ
    LeastFirst [] = Unit
    LeastFirst (y ∷ ys) = All (Le y) ys

    le-All : (x y : A) (ys : List A) → P x → P y → All P ys → Le x y → All (Le y) ys → All (Le x) ys
    le-All x y [] px py ps e h = tt
    le-All x y (z ∷ zs) px py ps e h =
        (o.le_trans x y z px py ps.0 e h.0, le-All x y zs px py ps.1 e h.1)

    LeastFirst-insert :
        (x : A) (xs : List A) → P x → All P xs → LeastFirst xs → LeastFirst (insert_stable x xs)
    unfolding insert_stable
    LeastFirst-insert x [] px ps h = tt
    LeastFirst-insert x (y ∷ ys) px ps h = elim (Bool-cases (less y x)) [
      | inl e ↦ rw (e, LeastFirst) (All-insert (Le y) x ys (o.of_less y x ps.0 px e) h)
      | inr e ↦
          let le = o.of_not_less y x ps.0 px e in
          rw (e, LeastFirst) (le, le-All x y ys px ps.0 ps.1 le h)
    ]

    LeastFirst-sort : (xs : List A) → All P xs → LeastFirst (sort_stable xs)
    unfolding sort_stable
    LeastFirst-sort [] ps = tt
    LeastFirst-sort (x ∷ xs) ps =
        LeastFirst-insert x (sort_stable xs) ps.0 (All-sort P xs ps.1) (LeastFirst-sort xs ps.1)

    least_head : (d : A) (xs : List A) → All P xs → LeastFirst xs → All (Le (head_or d xs)) xs
    least_head d [] ps h = tt
    least_head d (x ∷ xs) ps h = (o.le_refl x ps.0, h)

    -- The first element of the sorted list is at most every element of the list.
    pub head-sort-least :
        (d : A) (xs : List A) → All P xs → All (Le (head_or d (sort_stable xs))) xs
    head-sort-least d xs ps =
        All-of_sort _ xs (least_head d (sort_stable xs) (All-sort P xs ps) (LeastFirst-sort xs ps))

    -- Each element is at most those after it.
    abbrev pub Ordered : List A → Type (ℓ ⊔ μ)
    Ordered [] = Unit
    Ordered (y ∷ ys) = All (Le y) ys × Ordered ys

    Ordered-insert :
        (x : A) (xs : List A) → P x → All P xs → Ordered xs → Ordered (insert_stable x xs)
    unfolding insert_stable
    Ordered-insert x [] px ps h = (tt, tt)
    Ordered-insert x (y ∷ ys) px ps h = elim (Bool-cases (less y x)) [
      | inl e ↦
          rw (e, Ordered)
            (All-insert (Le y) x ys (o.of_less y x ps.0 px e) h.0, Ordered-insert x ys px ps.1 h.1)
      | inr e ↦
          let le = o.of_not_less y x ps.0 px e in
          rw (e, Ordered) ((le, le-All x y ys px ps.0 ps.1 le h.0), h)
    ]

    pub Ordered-sort : (xs : List A) → All P xs → Ordered (sort_stable xs)
    unfolding sort_stable
    Ordered-sort [] ps = tt
    Ordered-sort (x ∷ xs) ps =
        Ordered-insert x (sort_stable xs) ps.0 (All-sort P xs ps.1) (Ordered-sort xs ps.1)
