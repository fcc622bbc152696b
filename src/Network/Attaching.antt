-- ===== src/Network/Attaching.antt =====
-- Handing out an address, and giving it back, keep the tables valid.
use marstack_cloud.Common.{
  inl, inr, ℕ, ◌<◌, ◌≡◌, refl, String, false, List, [], ◌∷◌, All, All-In, All-keep_if, All-none,
  Apart-keep_if, In, here, World, any_of, pure, ◌>>=◌, Spec, Spec-bind, Spec-mono, Spec-pure,
  Spec-error, Spec-after, Spec-refuse_if, Spec-given, Spec-fail_as, Gives-bind_any, Maintains,
  Maintains-ask, Maintains-write, All-sort, All-of_In, In-keep_if, Bool-cases, str_eq, eq_iff,
  arith,
}
use marstack_cloud.Network.Addresses.{Prefix}
use marstack_cloud.Network.Rows.{
  Slice, Nic, Tables, Env, max_nics, nic_clash, insert_nic, nics_of, nics_held, by_device,
  taken_addresses, delete_nic,
}
use marstack_cloud.Network.Service.{translate, translated}
use marstack_cloud.Network.Leases.{
  Held, attached, next_device, next_free, attach, allocate_with, allocate, release,
}
use marstack_cloud.Network.Lawful.{
  NetipLaws, IsRange, IsHost, SecondRange, OfSecond, SliceOk, NicOk, IsValid,
}
use marstack_cloud.Network.Stating.{
  Maintains-statement, Gives-query, Gives-translated, Spec-insert, Spec-query,
  choose_address-IsHost,
}
use marstack_cloud.Network.Seconds.{IsSlice-IsRange, SecondRange-slice, choose_address6-OfSecond}
use marstack_cloud.Network.Leasing.{Stored, ensure_slice-Stored}

-- An interface of the instance that is stored.
abbrev pub HeldBy : String → String → Nic → Tables → Type 0
HeldBy instance_id network_id n t =
    In n t.nics × (n.instance_id ≡ instance_id) × (n.network_id ≡ network_id)

module _ (env : Env) (laws : NetipLaws env.netip) where
  nic_added :
      (n : Nic) (t : Tables)
      → IsValid env.netip t
      → NicOk env.netip t.slices n
      → any_of (nic_clash n) t.nics ≡ false
      → IsValid env.netip (record t { nics = n ∷ t.nics })
  nic_added n t v k e = record {
    networks = v.networks;
    networks_apart = v.networks_apart;
    slices = v.slices;
    slices_apart = v.slices_apart;
    nics = (k, v.nics);
    nics_apart = (All-none (nic_clash n) t.nics e, v.nics_apart);
  }

  insert_nic-IsValid :
      (n : Nic)
      → Spec
          (λ w. IsValid env.netip w.tables × NicOk env.netip w.tables.slices n)
          (λ w. IsValid env.netip w.tables × NicOk env.netip w.tables.slices n)
          (insert_nic env n)
          (λ _ w. IsValid env.netip w.tables × In n w.tables.nics)
  unfolding insert_nic
  insert_nic-IsValid n =
      Spec-insert (λ t. IsValid env.netip t × NicOk env.netip t.slices n) env
        (λ t. IsValid env.netip t × In n t.nics) _ _ _ _ (λ t p e. (nic_added n t p.0 p.1 e, here))

  -- A slice of valid tables is a prefix.
  slice-IsRange :
      (s : Slice) (t : Tables)
      → IsValid env.netip t
      → In s t.slices
      → (p : Prefix) × IsRange env.netip p s.cidr
  slice-IsRange s t v m =
      let k = All-In (SliceOk env.netip t.networks) s t.slices v.slices m in
      IsSlice-IsRange env.netip k.range k.network.cidr s.cidr k.is_range k.is_slice

  slice-SecondRange :
      (s : Slice) (t : Tables) → IsValid env.netip t → In s t.slices → SecondRange env.netip s.cidr6
  slice-SecondRange s t v m =
      let k = All-In (SliceOk env.netip t.networks) s t.slices v.slices m in
      SecondRange-slice env.netip k.network.cidr6 s.cidr6 k.second

  -- The address goes into the table.
  attach_new :
      (instance_id network_id node_id : String) (device : ℕ) (s : Slice) (p : Prefix)
      → device < max_nics
      → IsRange env.netip p s.cidr
      → (ip : String) → IsHost env.netip p ip
      → (mac ip6 : String) → OfSecond env.netip (IsHost env.netip) s.cidr6 ip6
      → (now : ℕ)
      → let n : Nic = record {
        instance_id = instance_id;
        network_id = network_id;
        device = device;
        node_id = node_id;
        ip = ip;
        ip6 = ip6;
        mac = mac;
        created_at = now;
      } in
        Spec
          (λ w. IsValid env.netip w.tables × Stored network_id node_id s w.tables)
          (λ w. IsValid env.netip w.tables)
          (translated (insert_nic env n) >>= λ _. pure n)
          (λ m w. IsValid env.netip w.tables × HeldBy instance_id network_id m w.tables)
  unfolding translated
  attach_new instance_id network_id node_id device s p few is_range ip is_host mac ip6 of_second
        now =
      let n : Nic = record {
        instance_id = instance_id;
        network_id = network_id;
        device = device;
        node_id = node_id;
        ip = ip;
        ip6 = ip6;
        mac = mac;
        created_at = now;
      } in
      Spec-bind _ _
        (Spec-mono _
          (λ w q. (
            q.0,
            record {
              slice = s;
              stored = q.1.0;
              same_network = q.1.1;
              same_node = q.1.2;
              range = p;
              is_range = is_range;
              is_host = is_host;
              second = of_second;
              few = few;
            },
          ))
          (λ a w r. r)
          (Spec-error _ (λ w q. q.0) (Spec-fail_as translate _ (insert_nic-IsValid n))))
        (λ _. Spec-pure n (λ w q. (q.0, (q.1, refl, refl))))

  attach-HeldBy :
      (instance_id network_id node_id : String) (device : ℕ)
      → Spec
          (λ w. IsValid env.netip w.tables)
          (λ w. IsValid env.netip w.tables)
          (attach env instance_id network_id node_id device)
          (λ m w. IsValid env.netip w.tables × HeldBy instance_id network_id m w.tables)
  unfolding attach taken_addresses
  attach-HeldBy instance_id network_id node_id device =
      Spec-refuse_if _ _ _ (λ w v. v)
        (λ e. Spec-bind _ _ (ensure_slice-Stored env laws network_id node_id) (λ s.
          Spec-given _
            (λ w q. (slice-IsRange s w.tables q.0 q.1.0, slice-SecondRange s w.tables q.0 q.1.0))
            (λ (r, r6).
              let Here : Tables → Type 0 =
                λ t. IsValid env.netip t × Stored network_id node_id s t in
              Spec-after _ _ (λ w q. q.0)
                (choose_address-IsHost Here env laws r.0 s.cidr _ r.1
                  (Gives-query Here env _ _ (λ t k. tt)))
                (λ ip k.
                  Spec-after _ _ (λ w q. q.0) (Maintains-ask Here _)
                    (λ mac _.
                      Spec-after _ _ (λ w q. q.0)
                        (choose_address6-OfSecond Here env laws network_id s.cidr6 r6)
                        (λ ip6 k6.
                          Spec-after _ _ (λ w q. q.0) (Maintains-ask Here _)
                            (λ now _.
                              attach_new instance_id network_id node_id device s r.0 (ground arith)
                                r.1 ip k mac ip6 k6 now)))))))

abbrev HeldOk : (Nic → Type 0) → String → Held → Type 0
HeldOk F network_id (attached n) = F n × (n.network_id ≡ network_id)
HeldOk F network_id (next_device d) = Unit

next_free-HeldOk :
    (F : Nic → Type 0) (network_id : String) (held : List Nic) (device : ℕ)
    → All F held
    → HeldOk F network_id (next_free network_id held device)
unfolding next_free
next_free-HeldOk F network_id [] device h = tt
next_free-HeldOk F network_id (n ∷ held) device h =
    elim (Bool-cases (str_eq n.network_id network_id)) [
      | inl e ↦ rw e (h.0, (eq_iff _ _).0 e)
      | inr e ↦ rw e (next_free-HeldOk F network_id held _ h.1)
    ]

nics_held-All :
    (instance_id : String) (t : Tables)
    → All (λ n. In n t.nics × (n.instance_id ≡ instance_id)) (nics_held instance_id t)
unfolding nics_held
nics_held-All instance_id t =
    All-sort by_device _ _
      (All-of_In _ (λ n m. let (i, e) = In-keep_if _ n t.nics m in (i, (eq_iff _ _).0 e)))

module _ (env : Env) (laws : NetipLaws env.netip) where
  abbrev HeldIn : String → String → Held → World Tables → Type 0
  HeldIn instance_id network_id h w =
      IsValid env.netip w.tables
      × HeldOk (λ n. In n w.tables.nics × (n.instance_id ≡ instance_id)) network_id h

  allocate_with-HeldBy :
      (instance_id network_id node_id : String) (h : Held)
      → Spec
          (HeldIn instance_id network_id h)
          (λ w. IsValid env.netip w.tables)
          (allocate_with env instance_id network_id node_id h)
          (λ n w. IsValid env.netip w.tables × HeldBy instance_id network_id n w.tables)
  unfolding allocate_with
  allocate_with-HeldBy instance_id network_id node_id (attached n) =
      Spec-pure n (λ w p. (p.0, (p.1.0.0, p.1.0.1, p.1.1)))
  allocate_with-HeldBy instance_id network_id node_id (next_device d) =
      Spec-mono _ (λ w p. p.0) (λ a w q. q)
        (attach-HeldBy env laws instance_id network_id node_id d)

  pub Spec-allocate :
      (instance_id network_id node_id : String)
      → Spec
          (λ w. IsValid env.netip w.tables)
          (λ w. IsValid env.netip w.tables)
          (allocate env instance_id network_id node_id)
          (λ n w. IsValid env.netip w.tables × HeldBy instance_id network_id n w.tables)
  unfolding allocate translated nics_of
  Spec-allocate instance_id network_id node_id =
      Spec-bind _ _
        (Spec-fail_as translate _ (
          Spec-query (IsValid env.netip) env
            (λ held t. All (λ n. In n t.nics × (n.instance_id ≡ instance_id)) held) _ _
            (λ t v. nics_held-All instance_id t)))
        (λ held.
          Spec-mono _ (λ w p. (p.0, next_free-HeldOk _ network_id held 0 p.1)) (λ a w q. q)
            (allocate_with-HeldBy instance_id network_id node_id _))

  -- Giving the addresses of an instance back keeps the tables valid.
  pub release-IsValid :
      (instance_id : String) → Maintains (IsValid env.netip) (release env instance_id)
  unfolding release delete_nic
  release-IsValid instance_id = Gives-translated (IsValid env.netip) env _ (
      Gives-bind_any _ _ (Maintains-statement (IsValid env.netip) env _) (λ _.
        Maintains-write (IsValid env.netip) _ (λ t v. record {
          networks = v.networks;
          networks_apart = v.networks_apart;
          slices = v.slices;
          slices_apart = v.slices_apart;
          nics = All-keep_if _ _ t.nics v.nics;
          nics_apart = Apart-keep_if nic_clash _ t.nics v.nics_apart;
        })))
