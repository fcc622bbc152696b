-- ===== src/Node/Holding.antt =====
-- No device is held twice.
use marstack_cloud.Common.{
  suc, ◌≡◌, refl, ap, String, Bool, true, false, not, ◌&&◌, List, [], ◌∷◌, if◌then◌else◌, str_eq,
  str_eq_refl, eq_iff, length, map, keep_if, All, All-map, All-mapped, All-In, Apart, In, here,
  there, arith,
}
use marstack_cloud.Node.Rows.{Device}
use marstack_cloud.Node.Devices.{is_at, is_claimable}

-- The primary key.
abbrev pub key_clash : Device → Device → Bool
key_clash d e = is_at d.node_id d.address e

-- One instance holds both on one node.
abbrev pub hold_clash : Device → Device → Bool
hold_clash d e =
    str_eq d.node_id e.node_id
    && (str_eq d.instance_id e.instance_id && not (str_eq d.instance_id ""))

pub record IsHeld (ds : List Device) : Type 0 where
  pub keys : Apart key_clash ds
  pub holds : Apart hold_clash ds

-- The instance holds no device of the node.
abbrev pub Free : String → String → List Device → Type 0
Free node_id instance_id =
    All (λ d. (str_eq d.node_id node_id && str_eq d.instance_id instance_id) ≡ false)

All-and : (P Q : Device → Type 0) (ds : List Device) → All P ds → All Q ds → All (λ d. P d × Q d) ds
All-and P Q [] p q = tt
All-and P Q (d ∷ ds) p q = ((p.0, q.0), All-and P Q ds p.1 q.1)

module _ (node_id address instance_id : String) where
  -- What the update makes of a row.
  abbrev claim_if : Bool → Device → Device
  claim_if t d = if t then record d { instance_id = instance_id } else d

  abbrev pub claimed : Device → Device
  claimed d = claim_if (is_claimable node_id address d) d

  claim_if-keys :
      (t : Bool) (d : Device)
      → ((claim_if t d).node_id ≡ d.node_id) × ((claim_if t d).address ≡ d.address)
  claim_if-keys true d = (refl, refl)
  claim_if-keys false d = (refl, refl)

  claimed-key : (d e : Device) → key_clash d e ≡ false → key_clash (claimed d) (claimed e) ≡ false
  claimed-key d e k =
      let (a, b) = claim_if-keys (is_claimable node_id address d) d in
      let (p, q) = claim_if-keys (is_claimable node_id address e) e in rw (a, b, p, q) k

  claim_if-hold :
      (t u : Bool) (d e : Device)
      → is_claimable node_id address d ≡ t
      → is_claimable node_id address e ≡ u
      → key_clash d e ≡ false
      → hold_clash d e ≡ false
      → (str_eq d.node_id node_id && str_eq d.instance_id instance_id) ≡ false
      → (str_eq e.node_id node_id && str_eq e.instance_id instance_id) ≡ false
      → hold_clash (claim_if t d) (claim_if u e) ≡ false
  unfolding is_claimable
  claim_if-hold true true d e x y k h a b = ground (
    arith,
    eq_iff d.node_id node_id,
    eq_iff e.node_id node_id,
    eq_iff d.address address,
    eq_iff e.address address,
    eq_iff e.node_id d.node_id,
    eq_iff e.address d.address,
  )
  claim_if-hold true false d e x y k h a b = ground (
    arith,
    eq_iff d.node_id node_id,
    eq_iff e.node_id node_id,
    eq_iff d.node_id e.node_id,
    eq_iff instance_id e.instance_id,
    eq_iff e.instance_id instance_id,
  )
  claim_if-hold false true d e x y k h a b = ground (
    arith,
    eq_iff d.node_id node_id,
    eq_iff e.node_id node_id,
    eq_iff d.node_id e.node_id,
    eq_iff d.instance_id instance_id,
  )
  claim_if-hold false false d e x y k h a b = h

  abbrev Untaken : Device → Type 0
  Untaken e = (str_eq e.node_id node_id && str_eq e.instance_id instance_id) ≡ false

  pub Apart-claimed :
      (ds : List Device) → IsHeld ds → Free node_id instance_id ds → IsHeld (map claimed ds)
  Apart-claimed [] s f = record { keys = tt; holds = tt }
  Apart-claimed (d ∷ ds) s f =
      let rest = Apart-claimed ds (record { keys = s.keys.1; holds = s.holds.1 }) f.1 in
      record {
        keys = (
          All-mapped (λ e. key_clash (claimed d) e ≡ false) claimed (λ e k. claimed-key d e k) ds
              s.keys.0,
          rest.keys,
        );
        holds = (
          All-mapped (λ e. hold_clash (claimed d) e ≡ false) claimed
              (λ e p. claim_if-hold _ _ d e refl refl p.0 p.1.0 f.0 p.1.1) ds
              (All-and (λ e. key_clash d e ≡ false) (λ e. (hold_clash d e ≡ false) × Untaken e) ds
                s.keys.0 (All-and (λ e. hold_clash d e ≡ false) Untaken ds s.holds.0 f.1)),
          rest.holds,
        );
      }

  -- One row of a key.
  none_claimable :
      (ds : List Device)
      → All (λ e. is_at node_id address e ≡ false) ds
      → length (keep_if (is_claimable node_id address) ds) ≡ 0
  unfolding is_claimable
  none_claimable [] h = refl
  none_claimable (d ∷ ds) h =
      let e : is_claimable node_id address d ≡ false = ground arith in
      rw (e, keep_if) (none_claimable ds h.1)

  other_key :
      (d e : Device)
      → is_claimable node_id address d ≡ true
      → key_clash d e ≡ false
      → is_at node_id address e ≡ false
  unfolding is_claimable
  other_key d e t c = ground (
    arith,
    eq_iff d.node_id node_id,
    eq_iff d.address address,
    eq_iff e.node_id d.node_id,
    eq_iff e.address d.address,
    eq_iff e.node_id node_id,
    eq_iff e.address address,
  )

  not_claimable :
      (d x : Device)
      → is_claimable node_id address d ≡ true
      → key_clash x d ≡ false
      → is_claimable node_id address x ≡ false
  unfolding is_claimable
  not_claimable d x t c = ground (
    arith,
    eq_iff d.node_id node_id,
    eq_iff d.address address,
    eq_iff d.node_id x.node_id,
    eq_iff d.address x.address,
    eq_iff x.node_id node_id,
    eq_iff x.address address,
  )

  pub one_claimable :
      (d : Device) (ds : List Device)
      → Apart key_clash ds
      → In d ds
      → is_claimable node_id address d ≡ true
      → length (keep_if (is_claimable node_id address) ds) ≡ 1
  unfolding is_claimable
  one_claimable d [] k m t = elim m [ ]
  one_claimable d (_ ∷ ds) k here t =
      let others : All (λ e. is_at node_id address e ≡ false) ds =
        All-map (λ e c. other_key d e t c) ds k.0 in
      rw (t, keep_if) (ap suc (none_claimable ds others))
  one_claimable d (x ∷ ds) k (there m) t =
      let e = not_claimable d x t (All-In (λ y. key_clash x y ≡ false) d ds k.0 m) in
      rw (e, keep_if) (one_claimable d ds k.1 m t)

-- An instance gives its devices back.
module _ (instance_id : String) where
  abbrev pub release_if : Bool → Device → Device
  release_if t d = if t then record d { instance_id = "" } else d

  abbrev pub released : Device → Device
  released d = release_if (str_eq d.instance_id instance_id) d

  release_if-key :
      (t u : Bool) (d e : Device)
      → key_clash d e ≡ false
      → key_clash (release_if t d) (release_if u e) ≡ false
  release_if-key true true d e k = k
  release_if-key true false d e k = k
  release_if-key false true d e k = k
  release_if-key false false d e k = k

  release_if-hold :
      (t u : Bool) (d e : Device)
      → hold_clash d e ≡ false
      → hold_clash (release_if t d) (release_if u e) ≡ false
  release_if-hold true u d e h = ground (arith, str_eq_refl "")
  release_if-hold false true d e h = ground (arith, eq_iff d.instance_id "")
  release_if-hold false false d e h = h

  pub Apart-released : (ds : List Device) → IsHeld ds → IsHeld (map released ds)
  Apart-released [] s = record { keys = tt; holds = tt }
  Apart-released (d ∷ ds) s =
      let rest = Apart-released ds (record { keys = s.keys.1; holds = s.holds.1 }) in
      record {
        keys = (
          All-mapped (λ e. key_clash (released d) e ≡ false) released
              (λ e k.
                release_if-key (str_eq d.instance_id instance_id) (str_eq e.instance_id instance_id)
                  d e k)
              ds s.keys.0,
          rest.keys,
        );
        holds = (
          All-mapped (λ e. hold_clash (released d) e ≡ false) released
              (λ e k.
                release_if-hold (str_eq d.instance_id instance_id)
                  (str_eq e.instance_id instance_id) d e k)
              ds s.holds.0,
          rest.holds,
        );
      }
