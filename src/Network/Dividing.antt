-- ===== src/Network/Dividing.antt =====
-- Networks are made and removed: the tables stay valid, and no two networks share an address.
use marstack_cloud.Common.{
  inl, inr, ◌⊎◌, ℕ, ◌≡◌, refl, subst, String, Bool, true, false, not, ◌&&◌, ◌||◌, leb, List, [],
  ◌∷◌, Option, none, some, All, All-map, All-of_sort, Fact, World, sort_stable, str_eq, str_lt,
  str_eq_refl, Bool-cases, pure, ◌>>=◌, Spec, Spec-bind, Spec-mono, Spec-pure, Spec-error,
  Spec-after, Spec-lift, Post, Spec-fail_as, Gives-of_Spec, Gives-lift, Gives-lift-Any, Maintains,
  Maintains-ask, arith, if◌then◌else◌,
}
use marstack_cloud.Fault.{Error, Result, ok, err}
use marstack_cloud.Network.Addresses.{Prefix, same_family, overlaps}
use marstack_cloud.Network.Ipam.{parse_prefix, slice_bits_for}
use marstack_cloud.Network.Searching.{IsPrefix}
use marstack_cloud.Network.Rows.{Network, Tables, CreateParams, Env, insert_network, list_networks}
use marstack_cloud.Network.Service.{
  translate, translated, cidr_checked, second_of, cidr6_checked, held_overlaps, overlaps_second,
  range_overlaps, check_overlaps, is_unique_local, new_network, create,
}
use marstack_cloud.Network.Lawful.{NetipLaws, parse_prefix-IsPrefix, parse_prefix-text}
use marstack_cloud.Network.Stating.{Spec-query, Spec-insert}

neither : (a b : Bool) → (a || b) ≡ false → (a ≡ false) × (b ≡ false)
neither false b h = (refl, h)
neither true b h = cc

-- The second range of a new network, if it is to have one.
unfoldable pub IsSecond : Option Prefix → Type 0
IsSecond none = Unit
IsSecond (some p) = IsPrefix p

module _ (env : Env) where
  -- A range of a network, and its prefix.
  abbrev pub HasRange : Network → Prefix → Type 0
  HasRange n p =
      (s : String) × ((s ≡ n.cidr) ⊎ (s ≡ n.cidr6))
      × (str_eq s "" ≡ false)
      × (parse_prefix env.netip s ≡ ok p)

  abbrev pub Separate : Network → Network → Type 0
  Separate n m = (p q : Prefix) → HasRange n p → HasRange m q → overlaps q p ≡ false

  -- No two networks share an address.
  abbrev pub Disjoint : List Network → Type 0
  Disjoint [] = Unit
  Disjoint (n ∷ ns) = All (Separate n) ns × Disjoint ns

  -- The network's ranges are apart from the two.
  abbrev Clear : Prefix → Option Prefix → Network → Type 0
  Clear p second m =
      (range_overlaps env p second m.cidr ≡ false) × (range_overlaps env p second m.cidr6 ≡ false)

  check_step :
      (p : Prefix) (second : Option Prefix) (n : Network) (ns : List Network) (a b : Bool)
      (x y : Error) (r : Result (Unit {0}))
      → range_overlaps env p second n.cidr ≡ a
      → range_overlaps env p second n.cidr6 ≡ b
      → Fact (λ _. All (Clear p second) ns) r
      → Fact (λ _. All (Clear p second) (n ∷ ns)) (if a then err x else if b then err y else r)
  check_step p second n ns true b x y r e f h = tt
  check_step p second n ns false true x y r e f h = tt
  check_step p second n ns false false x y (ok u) e f h = ((e, f), h)
  check_step p second n ns false false x y (err z) e f h = tt

  check_overlaps-Clear :
      (p : Prefix) (second : Option Prefix) (ns : List Network)
      → Fact (λ _. All (Clear p second) ns) (check_overlaps env p second ns)
  unfolding check_overlaps
  check_overlaps-Clear p second [] = tt
  check_overlaps-Clear p second (n ∷ ns) =
      check_step p second n ns _ _ _ _ _ refl refl (check_overlaps-Clear p second ns)

  apart_from :
      (p : Prefix) (second : Option Prefix) (s : String) (q : Prefix)
      → str_eq s "" ≡ false
      → parse_prefix env.netip s ≡ ok q
      → range_overlaps env p second s ≡ false
      → (overlaps q p ≡ false) × (overlaps_second q second ≡ false)
  unfolding range_overlaps held_overlaps
  apart_from p second s q e f h = neither _ _ (rw (e, f) at h)

  Clear-range :
      (p : Prefix) (second : Option Prefix) (m : Network) (q : Prefix)
      → Clear p second m
      → HasRange m q
      → (overlaps q p ≡ false) × (overlaps_second q second ≡ false)
  Clear-range p second m q (c, c6) (s, inl same, e, f) = apart_from p second s q e f (rw same c)
  Clear-range p second m q (c, c6) (s, inr same, e, f) = apart_from p second s q e f (rw same c6)

  module _ (laws : NetipLaws env.netip) where
    reads :
        (p q : Prefix)
        → IsPrefix p
        → parse_prefix env.netip (env.netip.prefix_text p) ≡ ok q
        → q ≡ p
    reads p q wf e = subst (Fact (λ q. q ≡ p)) e (parse_prefix-text env.netip laws p wf)

    -- The ranges of a new network are the two that it was made with.
    ranges_of_new :
        (params : CreateParams) (id : String) (now : ℕ) (p : Prefix) (second : Option Prefix)
        (q r : Prefix)
        → IsPrefix p
        → IsSecond second
        → HasRange (new_network env params id now p second) q
        → (overlaps r p ≡ false) × (overlaps_second r second ≡ false)
        → overlaps r q ≡ false
    unfolding new_network overlaps_second IsSecond
    ranges_of_new params id now p second q r wf k (s, inl same, e, f) (a, b) =
        let back = reads p q wf (rw same at f) in rw back a
    ranges_of_new params id now p none q r wf k (s, inr same, e, f) (a, b) =
        ground (arith, str_eq_refl s)
    ranges_of_new params id now p (some t) q r wf k (s, inr same, e, f) (a, b) =
        let back = reads t q k (rw same at f) in rw back b

    checked-IsPrefix : (r : Result Prefix) → Fact IsPrefix r → Fact IsPrefix (cidr_checked r)
    unfolding cidr_checked
    checked-IsPrefix (ok p) h = elim (Bool-cases (leb (slice_bits_for p) p.bits)) [
      | inl e ↦ rw e tt
      | inr e ↦ elim (Bool-cases (p.addr.v6 && not (is_unique_local p.addr))) [
        | inl f ↦ rw (e, f) tt
        | inr f ↦ rw (e, f) h
      ]
    ]
    checked-IsPrefix (err e) h = tt

    checked6-IsSecond :
        (p : Prefix) (r : Result Prefix) → Fact IsPrefix r → Fact IsSecond (cidr6_checked p r)
    unfolding cidr6_checked IsSecond
    checked6-IsSecond p (ok q) h = elim (Bool-cases (same_family q.addr p.addr)) [
      | inl d ↦ rw d tt
      | inr d ↦ elim (Bool-cases (q.addr.v6 && not (is_unique_local q.addr))) [
        | inl f ↦ rw (d, f) tt
        | inr f ↦ elim (Bool-cases (leb (slice_bits_for q) q.bits)) [
          | inl e ↦ rw (d, f, e) tt
          | inr e ↦ rw (d, f, e) h
        ]
      ]
    ]
    checked6-IsSecond p (err e) h = tt

    pub cidr_checked-IsPrefix :
        (s : String) → Fact IsPrefix (cidr_checked (parse_prefix env.netip s))
    cidr_checked-IsPrefix s = checked-IsPrefix _ (parse_prefix-IsPrefix env.netip laws s)

    pub second_of-IsSecond : (p : Prefix) (s : String) → Fact IsSecond (second_of env p s)
    unfolding second_of IsSecond
    second_of-IsSecond p s = elim (Bool-cases (str_eq s "")) [
      | inl e ↦ rw e tt
      | inr e ↦ rw e (checked6-IsSecond p _ (parse_prefix-IsPrefix env.netip laws s))
    ]

    -- The tables before a network of these ranges goes in.
    abbrev Unmade : Prefix → Option Prefix → Tables → Type 0
    Unmade p second t = Disjoint t.networks × All (Clear p second) t.networks

    All-Clear :
        (p : Prefix) (second : Option Prefix) (ns : List Network) (w : World Tables)
        (r : Result (Unit {0}))
        → Disjoint w.tables.networks
        → ns ≡ sort_stable (λ n m. str_lt n.name m.name) w.tables.networks
        → Fact (λ _. All (Clear p second) ns) r
        → Post (λ w. Disjoint w.tables.networks) (λ _ w. Unmade p second w.tables) (r, w)
    All-Clear p second ns w (ok u) d e h =
        (d, All-of_sort _ (Clear p second) w.tables.networks (subst (All (Clear p second)) e h))
    All-Clear p second ns w (err x) d e h = d

    -- A network that is apart from the others goes in.
    insert_new :
        (params : CreateParams) (id : String) (now : ℕ) (p : Prefix) (second : Option Prefix)
        → IsPrefix p
        → IsSecond second
        → let n = new_network env params id now p second in
          Spec
            (λ w. Disjoint w.tables.networks × All (Clear p second) w.tables.networks)
            (λ w. Disjoint w.tables.networks)
            (translated (insert_network env n) >>= λ _. pure n)
            (λ _ w. Disjoint w.tables.networks)
    unfolding translated insert_network
    insert_new params id now p second wf k =
        let n = new_network env params id now p second in
        Spec-bind _ _
          (Spec-error _ (λ w q. q.0)
            (Spec-fail_as translate _ (
              Spec-insert (Unmade p second) env (λ t. Disjoint t.networks) _ _ _ _
                (λ t q e. (
                  All-map
                      (λ m c x y hx hy.
                        ranges_of_new params id now p second x y wf k hx
                          (Clear-range p second m y c hy))
                      t.networks q.1,
                  q.0,
                )))))
          (λ _. Spec-pure n (λ w q. q))

    -- Making a network keeps the ranges of all networks, both of each, apart.
    pub create-Disjoint :
        (params : CreateParams) → Maintains (λ t. Disjoint t.networks) (create env params)
    unfolding create list_networks translated
    create-Disjoint params =
        let Here : Tables → Type 0 = λ t. Disjoint t.networks in
        Gives-of_Spec _ (
          Spec-mono _ (λ w p. p) (λ a w q. (q, tt))
            (Spec-after _ _ (λ w p. p) (Gives-lift-Any _)
              (λ _ _.
                Spec-after _ _ (λ w p. p) (Gives-lift _ (cidr_checked-IsPrefix _))
                  (λ p wf.
                    Spec-after _ _ (λ w p. p) (Gives-lift _ (second_of-IsSecond p params.cidr6))
                      (λ second k.
                        Spec-bind _ _
                          (Spec-fail_as translate _ (
                            Spec-query Here env
                              (λ ns t. ns ≡ sort_stable (λ n m. str_lt n.name m.name) t.networks) _
                              _ (λ t v. refl)))
                          (λ ns.
                            Spec-bind _ _
                              (Spec-lift _ (λ w q.
                                All-Clear p second ns w _ q.0 q.1
                                  (check_overlaps-Clear p second ns)))
                              (λ _.
                                Spec-after _ _ (λ w q. q.0) (Maintains-ask (Unmade p second) _)
                                  (λ id _.
                                    Spec-after _ _ (λ w q. q.0) (Maintains-ask (Unmade p second) _)
                                      (λ now _. insert_new params id now p second wf k)))))))))
