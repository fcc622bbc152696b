-- ===== src/Node/Reporting.antt =====
-- A report of devices keeps what is held.
use marstack_cloud.Common.{
  inl, inr, ◌≡◌, refl, sym, ◌∙◌, subst, String, Bool, true, false, List, [], ◌∷◌, if◌then◌else◌,
  str_eq, str_eq_refl, eq_iff, map, keep_if, All, All-mapped, All-In, All-of_In, All-none,
  All-keep_if, Apart, Apart-keep_if, In, here, there, any_of, Bool-cases, arith,
}
use marstack_cloud.Node.Rows.{Device}
use marstack_cloud.Node.Devices.{
  is_at, holder, is_missing, clear_free, mark_missing, clear_reported,
}
use marstack_cloud.Node.Holding.{key_clash, hold_clash, IsHeld}

-- The row stands for one that was there with its holder, or is free, or is another node's.
abbrev pub From : List Device → Device → Type 0
From before y =
    (b : Device) × In b before
    × (b.node_id ≡ y.node_id)
    × (b.address ≡ y.address)
    × (b.instance_id ≡ y.instance_id)

-- Two rows that stand for rows of one holder have one address.
same_address :
    (ds : List Device) (b c : Device)
    → Apart hold_clash ds
    → In b ds
    → In c ds
    → b.node_id ≡ c.node_id
    → b.instance_id ≡ c.instance_id
    → str_eq b.instance_id "" ≡ false
    → b.address ≡ c.address
same_address [] b c h m n e f g = elim m [ ]
same_address (_ ∷ ds) b _ h here here e f g = refl
same_address (_ ∷ ds) b c h here (there n) e f g =
    let k = All-In (λ y. hold_clash b y ≡ false) c ds h.0 n in
    ground (arith, eq_iff b.node_id c.node_id, eq_iff b.instance_id c.instance_id)
same_address (c' ∷ ds) b c h (there m) here e f g =
    let k = All-In (λ y. hold_clash c' y ≡ false) b ds h.0 m in
    ground (
      arith,
      eq_iff c'.node_id b.node_id,
      eq_iff c'.instance_id b.instance_id,
      eq_iff c'.instance_id "",
      eq_iff b.instance_id "",
    )
same_address (x ∷ ds) b c h (there m) (there n) e f g = same_address ds b c h.1 m n e f g

-- A holder is the one of a row.
holder-In :
    (node_id address : String) (ds : List Device)
    → str_eq (holder node_id address ds) "" ≡ false
    → (c : Device) × In c ds
      × (c.node_id ≡ node_id)
      × (c.address ≡ address)
      × (c.instance_id ≡ holder node_id address ds)
unfolding holder
holder-In node_id address [] h = ground (arith, str_eq_refl "")
holder-In node_id address (d ∷ ds) h = elim (Bool-cases (is_at node_id address d)) [
  | inl e ↦ rw e (
    d,
    here,
    ground (arith, eq_iff d.node_id node_id),
    ground (arith, eq_iff d.address address),
    refl,
  )
  | inr e ↦
      let (c, m, n, a, i) = holder-In node_id address ds (rw e at h) in rw e (c, there m, n, a, i)
]

-- A row that is held stands for one that was there.
abbrev pub Backed : List Device → Device → Type 0
Backed before y = str_eq y.instance_id "" ≡ false → From before y

module _ (node_id : String) (before : List Device) (sound : IsHeld before) where
  pub insert-hold :
      (d y : Device)
      → Backed before y
      → is_at node_id d.address y ≡ false
      → hold_clash (record d { node_id = node_id; instance_id = holder node_id d.address before }) y
        ≡ false
  insert-hold d y back key =
      let new : Device = record d {
        node_id = node_id;
        instance_id = holder node_id d.address before;
      } in
      elim (Bool-cases (hold_clash new y)) [
        | inr e ↦ e
        | inl e ↦
            let i : String = holder node_id d.address before in
            let held : str_eq i "" ≡ false = ground arith in
            let node : node_id ≡ y.node_id = ground (arith, eq_iff node_id y.node_id) in
            let same : i ≡ y.instance_id = ground (arith, eq_iff i y.instance_id) in
            let (c, mc, nc, ac, ic) = holder-In node_id d.address before held in
            let (b, mb, nb, ab, ib) = back (subst (λ j. str_eq j "" ≡ false) same held) in
            let there : c.address ≡ b.address =
              same_address before c b sound.holds mc mb (nc ∙ node ∙ sym nb) (ic ∙ same ∙ sym ib)
                (subst (λ j. str_eq j "" ≡ false) (sym ic) held) in
            let address : y.address ≡ d.address = sym ab ∙ sym there ∙ ac in
            ground (arith, eq_iff y.node_id node_id, eq_iff y.address d.address)
      ]

  -- The rows so far: no device is held twice, and what is held was held before.
  pub record IsSoFar (rows : List Device) : Type 0 where
    pub held : IsHeld rows
    pub backed : All (Backed before) rows

  pub inserted-IsSoFar :
      (d : Device) (rows : List Device)
      → IsSoFar rows
      → any_of (is_at node_id d.address) rows ≡ false
      → IsSoFar
          (record d { node_id = node_id; instance_id = holder node_id d.address before } ∷ rows)
  inserted-IsSoFar d rows s e =
      let keys = All-none (is_at node_id d.address) rows e in
      record {
        held = record {
          keys = (keys, s.held.keys);
          holds = (
            All-of_In rows (λ y m.
                insert-hold d y (All-In (Backed before) y rows s.backed m)
                  (All-In (λ y. is_at node_id d.address y ≡ false) y rows keys m)),
            s.held.holds,
          );
        };
        backed = (
          λ h. let (c, m, n, a, i) = holder-In node_id d.address before h in (c, m, n, a, i),
          s.backed,
        );
      }

-- A mark leaves the key and the holder.
abbrev mark_if : Bool → Device → Device
mark_if t d = if t then record d { ready = false; driver = "missing" } else d

mark_if-key :
    (t u : Bool) (d e : Device)
    → key_clash d e ≡ false
    → key_clash (mark_if t d) (mark_if u e) ≡ false
mark_if-key true true d e k = k
mark_if-key true false d e k = k
mark_if-key false true d e k = k
mark_if-key false false d e k = k

mark_if-hold :
    (t u : Bool) (d e : Device)
    → hold_clash d e ≡ false
    → hold_clash (mark_if t d) (mark_if u e) ≡ false
mark_if-hold true true d e k = k
mark_if-hold true false d e k = k
mark_if-hold false true d e k = k
mark_if-hold false false d e k = k

mark_if-Backed :
    (before : List Device) (t : Bool) (d : Device) → Backed before d → Backed before (mark_if t d)
mark_if-Backed before true d b = b
mark_if-Backed before false d b = b

marked-IsHeld :
    (p : Device → Bool) (ds : List Device) → IsHeld ds → IsHeld (map (λ d. mark_if (p d) d) ds)
marked-IsHeld p [] s = record { keys = tt; holds = tt }
marked-IsHeld p (d ∷ ds) s =
    let rest = marked-IsHeld p ds (record { keys = s.keys.1; holds = s.holds.1 }) in
    record {
      keys = (
        All-mapped (λ e. key_clash (mark_if (p d) d) e ≡ false) (λ e. mark_if (p e) e)
            (λ e k. mark_if-key (p d) (p e) d e k) ds s.keys.0,
        rest.keys,
      );
      holds = (
        All-mapped (λ e. hold_clash (mark_if (p d) d) e ≡ false) (λ e. mark_if (p e) e)
            (λ e k. mark_if-hold (p d) (p e) d e k) ds s.holds.0,
        rest.holds,
      );
    }

kept-IsHeld : (p : Device → Bool) (ds : List Device) → IsHeld ds → IsHeld (keep_if p ds)
kept-IsHeld p ds s = record {
  keys = Apart-keep_if key_clash p ds s.keys;
  holds = Apart-keep_if hold_clash p ds s.holds;
}

-- The rows that a report leaves before it inserts.
pub start-IsSoFar :
    (node_id : String) (held before : List Device) (s : IsHeld before)
    → IsSoFar node_id before s
        (clear_reported node_id held (mark_missing node_id held (clear_free node_id before)))
unfolding clear_reported mark_missing clear_free
start-IsSoFar node_id held before s = record {
  held = kept-IsHeld _ _ (marked-IsHeld (is_missing node_id held) _ (kept-IsHeld _ before s));
  backed = All-keep_if (Backed before) _ _ (
      All-mapped (Backed before) (λ d. mark_if (is_missing node_id held d) d)
        (λ d b. mark_if-Backed before (is_missing node_id held d) d b) _
        (All-keep_if (Backed before) _ before
          (All-of_In before (λ b m h. (b, m, refl, refl, refl)))));
}
