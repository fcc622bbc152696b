-- ===== src/Network/Making.antt =====
-- Networks are made and removed: the tables stay valid.
use marstack_cloud.Common.{
  ℕ, ◌≡◌, refl, sym, ap, subst, Option, none, some, inl, inr, String, true, false, not, ltb, List,
  ◌∷◌, All, All-map, All-In, All-of_In, All-none, All-keep_if, All-kept, All-unkept, Apart-keep_if,
  In-kept, there, length, keep_if, str_eq, Spec, Spec-bind, Spec-mono, Spec-after, Spec-refuse_if,
  Spec-fail_as, Gives-bind_any, Gives-of_Spec, Gives-lift, Gives-lift-Any, Gives-pure-Any,
  Maintains, Maintains-ask, Spec-write, any_of, Gives-bind, arith,
}
use marstack_cloud.Network.Addresses.{Prefix}
use marstack_cloud.Network.Rows.{
  Network, Slice, Nic, Tables, CreateParams, Env, network_clash, slice_clash, insert_network,
  list_networks, count_nics, delete_network, drop_network,
}
use marstack_cloud.Network.Service.{translate, translated, text_of, new_network, create, remove}
use marstack_cloud.Network.Lawful.{NetipLaws, SecondRange, NetworkOk, SliceOk, NicOk, IsValid}
use marstack_cloud.Network.Stating.{
  Maintains-statement, Gives-query, Gives-translated, Spec-query, Spec-insert, Maintains-get_in,
}
use marstack_cloud.Network.Dividing.{IsSecond, cidr_checked-IsPrefix, second_of-IsSecond}

SliceOk-more :
    (env : Env) {networks : List Network} {n : Network} {s : Slice}
    → SliceOk env.netip networks s
    → SliceOk env.netip (n ∷ networks) s
SliceOk-more env h = record {
  network = h.network;
  stored = there h.stored;
  same_network = h.same_network;
  range = h.range;
  is_range = h.is_range;
  is_slice = h.is_slice;
  second = h.second;
}

text-SecondRange :
    (env : Env) (second : Option Prefix)
    → IsSecond second
    → SecondRange env.netip (text_of env.netip.prefix_text second)
unfolding IsSecond
text-SecondRange env none k = inl refl
text-SecondRange env (some p) k = inr (p, (k, refl))

none_left : (k n : ℕ) → ltb 0 k ≡ false → k ≡ n → n ≡ 0
none_left k n e f = ground arith

module _ (env : Env) (laws : NetipLaws env.netip) where
  network_added :
      (n : Network) (t : Tables)
      → IsValid env.netip t
      → NetworkOk env.netip n
      → any_of (network_clash n) t.networks ≡ false
      → IsValid env.netip (record t { networks = n ∷ t.networks })
  network_added n t v k e = record {
    networks = (k, v.networks);
    networks_apart = (All-none (network_clash n) t.networks e, v.networks_apart);
    slices = All-map (λ s h. SliceOk-more env h) t.slices v.slices;
    slices_apart = v.slices_apart;
    nics = v.nics;
    nics_apart = v.nics_apart;
  }

  -- Making a network keeps the tables valid: its range is a prefix, and no index has a row like it.
  pub create-IsValid : (params : CreateParams) → Maintains (IsValid env.netip) (create env params)
  unfolding create list_networks insert_network new_network
  create-IsValid params =
      let Valid = IsValid env.netip in
      Gives-bind_any _ _ (Gives-lift-Any _) (λ _.
        Gives-bind _ _ (Gives-lift _ (cidr_checked-IsPrefix env laws _)) (λ p wf.
          Gives-bind _ _ (Gives-lift _ (second_of-IsSecond env laws p params.cidr6)) (λ second k.
            Gives-bind_any _ _
              (Gives-translated Valid env _ (Gives-query Valid env _ _ (λ t v. tt)))
              (λ ns. Gives-bind_any _ _ (Gives-lift-Any _) (λ _.
                Gives-bind_any _ _ (Maintains-ask Valid _) (λ id.
                  Gives-bind_any _ _ (Maintains-ask Valid _) (λ now.
                    Gives-bind_any _ _
                      (Gives-translated Valid env _ (
                        Gives-of_Spec _ (
                          Spec-mono _ (λ w v. v) (λ a w v. (v, tt))
                            (Spec-insert Valid env Valid _ _ _ _ (λ t v e.
                              network_added _ t v
                                (record {
                                  range = p;
                                  is_range = (wf, refl);
                                  second = text-SecondRange env second k;
                                })
                                e)))))
                      (λ _. Gives-pure-Any _))))))))

  Unused : String → Tables → Type 0
  Unused id t = All (λ n. str_eq n.network_id id ≡ false) t.nics

  SliceOk-kept :
      (id : String) (networks : List Network) (s : Slice)
      → SliceOk env.netip networks s
      → not (str_eq s.network_id id) ≡ true
      → SliceOk env.netip (keep_if (λ n. not (str_eq n.id id)) networks) s
  SliceOk-kept id networks s h e = record {
    network = h.network;
    stored =
        In-kept (λ n. not (str_eq n.id id)) h.network networks h.stored
          (subst (λ i. not (str_eq i id) ≡ true) (sym h.same_network) e);
    same_network = h.same_network;
    range = h.range;
    is_range = h.is_range;
    is_slice = h.is_slice;
    second = h.second;
  }

  NicOk-kept :
      (id : String) (slices : List Slice) (n : Nic)
      → NicOk env.netip slices n
      → str_eq n.network_id id ≡ false
      → NicOk env.netip (keep_if (λ s. not (str_eq s.network_id id)) slices) n
  NicOk-kept id slices n h e = record {
    slice = h.slice;
    stored =
        In-kept (λ s. not (str_eq s.network_id id)) h.slice slices h.stored
          (subst (λ i. not (str_eq i id) ≡ true) (sym h.same_network) (ap not e));
    same_network = h.same_network;
    same_node = h.same_node;
    range = h.range;
    is_range = h.is_range;
    is_host = h.is_host;
    second = h.second;
    few = h.few;
  }

  network_dropped :
      (id : String) (t : Tables)
      → IsValid env.netip t
      → Unused id t
      → IsValid env.netip (drop_network id t)
  unfolding drop_network Unused
  network_dropped id t v unused = record {
    networks = All-keep_if _ _ t.networks v.networks;
    networks_apart = Apart-keep_if network_clash _ t.networks v.networks_apart;
    slices = All-kept _ _ (λ s h e. SliceOk-kept id t.networks s h e) t.slices v.slices;
    slices_apart = Apart-keep_if slice_clash _ t.slices v.slices_apart;
    nics = All-of_In t.nics (λ n m.
        NicOk-kept id t.slices n (All-In (NicOk env.netip t.slices) n t.nics v.nics m)
          (All-In _ n t.nics unused m));
    nics_apart = v.nics_apart;
  }

  delete_network-IsValid :
      (id : String)
      → Spec
          (λ w. IsValid env.netip w.tables × Unused id w.tables)
          (λ w. IsValid env.netip w.tables)
          (delete_network env id)
          (λ _ w. IsValid env.netip w.tables)
  unfolding delete_network
  delete_network-IsValid id =
      let Here : Tables → Type 0 = λ t. IsValid env.netip t × Unused id t in
      Spec-after _ _ (λ w q. q.0) (Maintains-statement Here env _)
        (λ _ _.
          Spec-after _ _ (λ w q. q.0) (Maintains-statement Here env _)
            (λ _ _.
              Spec-after _ _ (λ w q. q.0) (Maintains-statement Here env _)
                (λ _ _.
                  Spec-after _ _ (λ w q. q.0) (Maintains-ask Here _)
                    (λ _ _.
                      Spec-write _ _ (IsValid env.netip)
                        (λ w q. network_dropped id w.tables q.0 q.1)))))

  -- Removing a network keeps the tables valid: a network that still has addresses handed out stays, and
  -- no address is left without its slice.
  pub remove-IsValid :
      (id project_id : String) → Maintains (IsValid env.netip) (remove env id project_id)
  unfolding remove count_nics translated Unused
  remove-IsValid id project_id =
      let Valid = IsValid env.netip in
      Gives-bind_any _ _ (Maintains-get_in Valid env id project_id) (λ n. Gives-of_Spec _ (
        Spec-mono _ (λ w v. v) (λ a w v. (v, tt))
          (Spec-bind _ _
            (Spec-fail_as translate _ (
              Spec-query Valid env
                (λ k t. k ≡ length (keep_if (λ n. str_eq n.network_id id) t.nics)) _ _
                (λ t v. refl)))
            (λ k.
              Spec-refuse_if _ _ _ (λ w q. q.0)
                (λ e. Spec-fail_as translate _ (
                  Spec-mono _ (λ w q. (q.0, All-unkept _ w.tables.nics (none_left k _ e q.1)))
                    (λ a w v. v) (delete_network-IsValid id)))))))
