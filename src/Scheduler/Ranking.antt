-- ===== src/Scheduler/Ranking.antt =====
-- Which node `bestFor` takes.
use marstack_cloud.Common.{
  ℕ, ◌≤◌, ◌<◌, String, ◌≡◌, ◌≢◌, ◌⊎◌, inl, inr, Bool, true, false, List, [], ◌∷◌, In, All,
  All-of_In, In-All, arith, str_eq, eq_iff, Bool-cases, All-sort, str_lt_irrefl, str_ge_trans,
  str_lt_asymm, head_or, sort_stable, IsRanking, head-sort-least,
}
use marstack_cloud.Scheduler.Types.{Candidate, Load}
use marstack_cloud.Scheduler.Select.{View, less, view_of, best_for}

All-head_or {ℓ} :
    {A : Type ℓ} (less : A → A → Bool) (P : A → Type ℓ) (d : A) (xs : List A)
    → P d
    → All P xs
    → P (head_or less d xs)
All-head_or less P d [] h k = h
All-head_or less P d (x ∷ xs) h k = k.0

-- What holds of every candidate holds of the best.
pub best_for-All :
    (P : Candidate → Type 0) (c : Candidate) (cs : List Candidate) (counts : String → ℕ)
    (load : String → Load) (members : String → ℕ)
    → P c
    → All P cs
    → P (best_for c cs counts load members).0
unfolding best_for
best_for-All P c cs counts load members h k =
    let l = less (view_of (c ∷ cs) counts load members) in
    All-head_or l P c (sort_stable l (c ∷ cs)) h (All-sort l P (c ∷ cs) (h, k))

-- The best has room exactly when it has no member.
pub best_for-room :
    (c : Candidate) (cs : List Candidate) (counts : String → ℕ) (load : String → Load)
    (members : String → ℕ)
    → (best_for c cs counts load members).1 ≡ true
    → members (best_for c cs counts load members).0.id ≡ 0
unfolding best_for
best_for-room c cs counts load members h = ground arith

full_room :
    (c : Candidate) (cs : List Candidate) (counts : String → ℕ) (load : String → Load)
    (members : String → ℕ)
    → 0 < members (best_for c cs counts load members).0.id
    → (best_for c cs counts load members).1 ≡ false
unfolding best_for
full_room c cs counts load members h = ground arith

-- `a` is in a zone with no more members of the group, and has no more of them itself where the
-- zones have as many.
pub record Spreads (v : View) (a b : Candidate) : Type 0 where
  pub zone : v.zones a.zone ≤ v.zones b.zone
  pub node : v.zones a.zone ≡ v.zones b.zone → v.members a.id ≤ v.members b.id

Spreads-less : (v : View) (a b : Candidate) → less v a b ≡ true → Spreads v a b
unfolding less
Spreads-less v a b h = ground arith

Spreads-not-less : (v : View) (a b : Candidate) → less v a b ≡ false → Spreads v b a
unfolding less
Spreads-not-less v a b h = ground arith

Spreads-IsRanking : (v : View) → IsRanking (less v) (λ _. Unit {0}) (Spreads v)
Spreads-IsRanking v = record {
  le_refl = λ a _. omega arith;
  le_trans = λ a b c _ _ _ h k. record { zone = omega arith; node = λ e. ground arith };
  of_less = λ a b _ _ h. Spreads-less v a b h;
  of_not_less = λ a b _ _ h. Spreads-not-less v a b h;
}

-- No candidate is in a zone with fewer members of the group than the zone of the chosen node, and
-- none whose zone has as many has fewer members itself, whatever the loads are.
pub best_for-Spreads :
    (c : Candidate) (cs : List Candidate) (counts : String → ℕ) (load : String → Load)
    (members : String → ℕ)
    → All
        (Spreads (view_of (c ∷ cs) counts load members) (best_for c cs counts load members).0)
        (c ∷ cs)
unfolding best_for
best_for-Spreads c cs counts load members =
    let v = view_of (c ∷ cs) counts load members in
    head-sort-least (less v) (Spreads-IsRanking v) c (c ∷ cs) (All-of_In (c ∷ cs) (λ _ _. tt))

less_irrefl : (v : View) (a : Candidate) → less v a a ≡ false
unfolding less
less_irrefl v a = ground (arith, str_lt_irrefl a.name)

less_asymm : (v : View) (a b : Candidate) → less v a b ≡ true → less v b a ≡ false
unfolding less
less_asymm v a b h = ground (arith, str_lt_asymm a.name b.name)

-- Where every load is fresh, or none is, the comparison is an order.
not_less_trans :
    (v : View) (f : Bool) (a b c : Candidate)
    → (v.load a.id).fresh ≡ f
    → (v.load b.id).fresh ≡ f
    → (v.load c.id).fresh ≡ f
    → less v b a ≡ false
    → less v c b ≡ false
    → less v c a ≡ false
unfolding less
not_less_trans v true a b c ha hb hc h k = ground (arith, str_ge_trans c.name b.name a.name)
not_less_trans v false a b c ha hb hc h k = ground (arith, str_ge_trans c.name b.name a.name)

less-IsRanking :
    (v : View) (f : Bool)
    → IsRanking (less v) (λ c. (v.load c.id).fresh ≡ f) (λ a b. less v b a ≡ false)
less-IsRanking v f = record {
  le_refl = λ a _. less_irrefl v a;
  le_trans = λ a b c ha hb hc. not_less_trans v f a b c ha hb hc;
  of_less = λ a b _ _. less_asymm v a b;
  of_not_less = λ a b _ _ h. h;
}

-- Where the loads of all candidates are fresh, or none is, no candidate compares below the chosen
-- one.
pub best_for_least :
    (c : Candidate) (cs : List Candidate) (counts : String → ℕ) (load : String → Load)
    (members : String → ℕ) (f : Bool)
    → All (λ x. (load x.id).fresh ≡ f) (c ∷ cs)
    → let v = view_of (c ∷ cs) counts load members in
      All (λ x. less v x (best_for c cs counts load members).0 ≡ false) (c ∷ cs)
unfolding best_for view_of
best_for_least c cs counts load members f h =
    let v = view_of (c ∷ cs) counts load members in
    head-sort-least (less v) (less-IsRanking v f) c (c ∷ cs) h

-- With equal zones and members, the comparison goes round in a circle where two loads are fresh
-- and a third is not: the node with more free memory and more instances, the one with less of
-- both, and the one with a stale load and a count in between.
pub less_cycle :
    (v : View) (a b c : Candidate)
    → v.zones a.zone ≡ v.zones b.zone
    → v.zones b.zone ≡ v.zones c.zone
    → v.members a.id ≡ v.members b.id
    → v.members b.id ≡ v.members c.id
    → (v.load a.id).fresh ≡ true
    → (v.load b.id).fresh ≡ true
    → (v.load c.id).fresh ≡ false
    → (v.load b.id).memory_free_mib < (v.load a.id).memory_free_mib
    → v.counts b.id < v.counts c.id
    → v.counts c.id < v.counts a.id
    → (less v a b ≡ true) × (less v b c ≡ true) × (less v c a ≡ true)
unfolding less
less_cycle v a b c z1 z2 m1 m2 fa fb fc mem c1 c2 = ground arith

-- Where every other zone has more members than the zone of one candidate, and each candidate of
-- that zone has a member, the chosen node has no room, whether or not a node of another zone has
-- no member.
pub room_ignores_other_zones :
    (c : Candidate) (cs : List Candidate) (counts : String → ℕ) (load : String → Load)
    (members : String → ℕ) (a : Candidate)
    → In a (c ∷ cs)
    → let v = view_of (c ∷ cs) counts load members in
      All (λ x. (x.zone ≢ a.zone) → v.zones a.zone < v.zones x.zone) (c ∷ cs)
      → All (λ x. x.zone ≡ a.zone → 0 < members x.id) (c ∷ cs)
      → (best_for c cs counts load members).1 ≡ false
room_ignores_other_zones c cs counts load members a m others full =
    not_room (best_for-All _ c cs counts load members others.0 others.1)
      (best_for-All _ c cs counts load members full.0 full.1)
      (In-All _ m (best_for-Spreads c cs counts load members))
      (Bool-cases (str_eq best.zone a.zone))
  where
    best : Candidate
    best = (best_for c cs counts load members).0

    v : View
    v = view_of (c ∷ cs) counts load members

    not_room :
        (best.zone ≢ a.zone → v.zones a.zone < v.zones best.zone)
        → (best.zone ≡ a.zone → 0 < members best.id)
        → Spreads v best a
        → (str_eq best.zone a.zone ≡ true) ⊎ (str_eq best.zone a.zone ≡ false)
        → (best_for c cs counts load members).1 ≡ false
    not_room o f s (inl e) = full_room c cs counts load members (f ((eq_iff _ _).0 e))
    not_room o f s (inr e) =
        absurd (omega (arith, o (λ q. ground (arith, eq_iff best.zone a.zone)), s.zone))
