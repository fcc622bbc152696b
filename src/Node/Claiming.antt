-- ===== src/Node/Claiming.antt =====
-- Whatever is asked of the devices, none is held twice; and a device that is found free can be claimed.
use marstack_cloud.Common.{
  inl, inr, ◌≡◌, refl, sym, ap, subst, String, Bool, false, List, [], ◌∷◌, Option, none, some,
  str_eq, ◌==◌, length, map, keep_if, All, All-In, All-of_In, All-of_sort, Apart, here, In-kept,
  Bool-cases, World, Spec, Spec-bind, Spec-when, Spec-raise, Spec-mono, Spec-pure, Spec-after,
  Spec-read, Spec-write, Gives, Gives-of_Spec, Gives-bind, Gives-pure, Gives-bind_any,
  Gives-lift-Any, Gives-refuse_if, Gives-pure-Any, Gives-read, Maintains, Maintains-sql,
  Maintains-ask, Maintains-write, arith,
}
use marstack_cloud.Node.Rows.{Device, Tables, Env, statement, query}
use marstack_cloud.Node.Devices.{
  by_address, on_node, query_devices, devices_on, statements, insert_devices, replace_devices,
  is_claimable, claim_row, release_row, set_devices, held_by, claim_first, claim_with, claim_device,
  release_instance,
}
use marstack_cloud.Node.Holding.{
  key_clash, IsHeld, Free, claimed, Apart-claimed, one_claimable, Apart-released,
}
use marstack_cloud.Node.Reporting.{IsSoFar, inserted-IsSoFar, start-IsSoFar}

abbrev pub Held : Tables → Type 0
Held t = IsHeld t.devices

module _ (P : Tables → Type 0) (env : Env) where
  Maintains-statement : (label : String) → Maintains P (statement env label)
  unfolding statement
  Maintains-statement label = Maintains-sql P env.database label

  Maintains-statements :
      {A : Type 0} (label : String) (xs : List A) → Maintains P (statements env label xs)
  unfolding statements
  Maintains-statements label [] = Gives-pure-Any tt
  Maintains-statements label (x ∷ xs) =
      Gives-bind_any _ _ (Maintains-statement label) (λ _. Maintains-statements label xs)

module _ (env : Env) where
  -- The insertions of a report.
  insert-IsSoFar :
      (node_id : String) (before : List Device) (s : IsHeld before) (held rows : List Device)
      → IsSoFar node_id before s rows
      → Gives
          (λ (w : World Tables). Held w.tables)
          (insert_devices env node_id before held rows)
          (λ rows. IsHeld rows)
  unfolding insert_devices
  insert-IsSoFar node_id before s [] rows k = Gives-pure rows k.held
  insert-IsSoFar node_id before s (d ∷ held) rows k =
      Gives-bind_any _ _ (Maintains-statement Held env _) (λ _. Gives-refuse_if _ _ _ (λ e.
        insert-IsSoFar node_id before s held _ (inserted-IsSoFar node_id before s d rows k e)))

  replace-Held :
      (node_id : String) (held : List Device) → Maintains Held (replace_devices env node_id held)
  unfolding replace_devices
  replace-Held node_id held = Gives-bind_any _ _ (Maintains-statement Held env _) (λ _.
      Gives-bind_any _ _ (Maintains-statement Held env _) (λ _.
        Gives-bind _ _ (Gives-read Held {F = IsHeld} _ (λ t s. s)) (λ before s.
          Gives-bind_any _ _ (Maintains-statement Held env _) (λ _.
            Gives-bind_any _ _ (Maintains-statements Held env _ _) (λ _.
              Gives-bind_any _ _ (Maintains-statements Held env _ _) (λ _.
                Gives-bind _ _
                  (insert-IsSoFar node_id before s held _ (start-IsSoFar node_id held before s))
                  (λ rows k.
                    Gives-bind_any _ _ (Maintains-ask Held _)
                      (λ _. Maintains-write Held _ (λ t _. k)))))))))

  pub set_devices-Held :
      (node_id : String) (held : List Device) → Maintains Held (set_devices env node_id held)
  unfolding set_devices
  set_devices-Held node_id held =
      Gives-refuse_if _ _ _
        (λ e. Gives-bind_any _ _ (Gives-lift-Any _) (λ ds. replace-Held node_id ds))

  pub release-Held : (instance_id : String) → Maintains Held (release_instance env instance_id)
  unfolding release_instance release_row
  release-Held instance_id =
      Gives-bind_any _ _ (Maintains-statement Held env _)
        (λ _. Maintains-write Held _ (λ t s. Apart-released instance_id t.devices s))

module _ (node_id address instance_id : String) where
  -- At most one row is taken.
  claimable-count :
      (ds : List Device)
      → Apart key_clash ds
      → (length (keep_if (is_claimable node_id address) ds) == 1) ≡ false
      → All (λ d. is_claimable node_id address d ≡ false) ds
  claimable-count [] k h = tt
  claimable-count (d ∷ ds) k h = elim (Bool-cases (is_claimable node_id address d)) [
    | inl e ↦
        let one = one_claimable node_id address instance_id d (d ∷ ds) k here e in
        ground (arith, one)
    | inr e ↦ (e, claimable-count ds k.1 (rw (e, keep_if) at h))
  ]

  unclaimed :
      (ds : List Device)
      → All (λ d. is_claimable node_id address d ≡ false) ds
      → map (claimed node_id address instance_id) ds ≡ ds
  unclaimed [] h = refl
  unclaimed (d ∷ ds) h = rw (h.0, map) (ap (λ ds. d ∷ ds) (unclaimed ds h.1))

  -- The tables after the update, by whether it took a row.
  abbrev Taken : Bool → Tables → Type 0
  Taken taken t = Held t × (taken ≡ false → Free node_id instance_id t.devices)

  claim_row-Taken :
      (env : Env)
      → Spec
          (λ (w : World Tables). Held w.tables × Free node_id instance_id w.tables.devices)
          (λ w. Held w.tables)
          (claim_row env node_id address instance_id)
          (λ taken w. Taken taken w.tables)
  unfolding claim_row
  claim_row-Taken env =
      let Before : Tables → Type 0 = λ t. Held t × Free node_id instance_id t.devices in
      Spec-after _ _ (λ w p. p.0) (Maintains-statement Before env _)
        (λ _ _. Spec-bind _ _ (Spec-read (λ w. Before w.tables) _) (λ n.
          Spec-bind _ _
            (Spec-write _ _ (Taken (n == 1)) (λ w p. (
              Apart-claimed node_id address instance_id w.tables.devices p.0.0 p.0.1,
              λ e.
                  let none = claimable-count w.tables.devices p.0.0.keys (rw p.1 at e) in
                  subst (Free node_id instance_id) (sym (unclaimed w.tables.devices none)) p.0.1,
            )))
            (λ _.
              Spec-after _ _ (λ w p. p.0) (Maintains-statement (Taken (n == 1)) env _)
                (λ _ _. Spec-pure _ (λ w p. p)))))

module _ (env : Env) (node_id kind instance_id : String) where
  claim_first-Held :
      (held : List Device)
      → Spec
          (λ (w : World Tables). Held w.tables × Free node_id instance_id w.tables.devices)
          (λ w. Held w.tables)
          (claim_first env node_id kind instance_id held)
          (λ _ w. Held w.tables)
  unfolding claim_first
  claim_first-Held [] = Spec-raise _ (λ w p. p.0)
  claim_first-Held (d ∷ held) =
      Spec-when _ _ _ (λ _. claim_first-Held held)
        (λ _. Spec-bind _ _ (claim_row-Taken node_id d.address instance_id env) (λ taken.
          Spec-when taken _ _ (λ _. Spec-pure _ (λ w p. p.0))
            (λ e. Spec-mono _ (λ w p. (p.0, p.1 e)) (λ a w p. p) (claim_first-Held held))))

  held_by-none :
      (held : List Device)
      → held_by instance_id held ≡ none
      → All (λ d. str_eq d.instance_id instance_id ≡ false) held
  unfolding held_by
  held_by-none [] h = tt
  held_by-none (d ∷ held) h = elim (Bool-cases (str_eq d.instance_id instance_id)) [
    | inl e ↦ ground arith
    | inr e ↦ (e, held_by-none held (rw e at h))
  ]

  none-Free :
      (ds : List Device)
      → All (λ d. str_eq d.instance_id instance_id ≡ false) (on_node node_id ds)
      → Free node_id instance_id ds
  unfolding on_node
  none-Free ds h = All-of_In ds (λ d m. elim (Bool-cases (str_eq d.node_id node_id)) [
    | inr e ↦ rw e refl
    | inl e ↦ rw e (
        All-In (λ d. str_eq d.instance_id instance_id ≡ false) d _ (All-of_sort by_address _ _ h)
          (In-kept _ d ds m e))
  ])

  claim_with-Held :
      (held : List Device) (found : Option String)
      → Spec
          (λ (w : World Tables).
            Held w.tables × (found ≡ none → Free node_id instance_id w.tables.devices))
          (λ w. Held w.tables)
          (claim_with env node_id kind instance_id held found)
          (λ _ w. Held w.tables)
  unfolding claim_with
  claim_with-Held held (some address) = Spec-pure _ (λ w p. p.0)
  claim_with-Held held none =
      Spec-mono _ (λ w p. (p.0, p.1 refl)) (λ a w p. p) (claim_first-Held held)

  pub claim_device-Held : Maintains Held (claim_device env node_id kind instance_id)
  unfolding claim_device devices_on query_devices query
  claim_device-Held = Gives-of_Spec _ (
      Spec-mono _ (λ w s. s) (λ a w s. (s, tt))
        (Spec-bind _ _
          (Spec-after _ _ (λ w s. s) (Maintains-statement Held env _)
            (λ _ _. Spec-read (λ w. Held w.tables) _))
          (λ held.
            Spec-mono _
              (λ w p.
                (p.0, λ e. none-Free w.tables.devices (subst (All _) p.1 (held_by-none held e))))
              (λ a w p. p) (claim_with-Held held (held_by instance_id held)))))
