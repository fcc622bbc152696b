-- ===== src/Network/Leasing.antt =====
-- The slices and addresses that the service hands out keep the tables valid.
use marstack_cloud.Common.{
  ℕ, ◌≡◌, refl, String, Bool, true, false, ◌&&◌, List, ◌∷◌, All-map, All-In, All-none, In, here,
  there, World, any_of, Fact-first_row, Spec-fail_as, attempt, ◌>>=◌, Spec, Spec-bind, Spec-when,
  Spec-raise, Spec-mono, Spec-attempt, Spec-pure, Spec-error, Spec-after, Spec-given, Maintains-ask,
  eq_iff,
}
use marstack_cloud.Fault.{Result, ok, err}
use marstack_cloud.Network.Addresses.{Prefix}
use marstack_cloud.Network.Rows.{
  Network, Slice, Nic, Tables, Env, network, slice, slice_clash, insert_slice,
}
use marstack_cloud.Network.Service.{get, translate, translated}
use marstack_cloud.Network.Leases.{inserted, make_slice, slice_with, ensure_slice}
use marstack_cloud.Network.Lawful.{
  NetipLaws, IsRange, IsSlice, OfSecond, NetworkOk, SliceOk, NicOk, IsValid,
}
use marstack_cloud.Network.Stating.{
  Spec-insert, Spec-selected, choose_slice-IsSlice, Maintains-taken,
}
use marstack_cloud.Network.Seconds.{choose_second-OfSecond}

pub both : (a b : Bool) → (a && b) ≡ true → (a ≡ true) × (b ≡ true)
both true true h = (refl, refl)
both true false h = cc
both false b h = cc

-- A slice that is stored for the network and the node.
abbrev pub Stored : String → String → Slice → Tables → Type 0
Stored network_id node_id s t = In s t.slices × (s.network_id ≡ network_id) × (s.node_id ≡ node_id)

module _ (env : Env) (laws : NetipLaws env.netip) where
  abbrev pub Valid : Tables → Type 0
  Valid t = IsValid env.netip t

  -- A stored network, whose range parses.
  abbrev pub Known : String → Network → Tables → Type 0
  Known id n t = In n t.networks × (n.id ≡ id) × NetworkOk env.netip n

  slice-Stored :
      (network_id node_id : String)
      → Spec
          (λ w. Valid w.tables)
          (λ w. Valid w.tables)
          (slice env network_id node_id)
          (λ s w. Valid w.tables × Stored network_id node_id s w.tables)
  unfolding slice
  slice-Stored network_id node_id = Spec-selected Valid env (Stored network_id node_id) _ _ (λ t v.
      Fact-first_row (λ s. Stored network_id node_id s t) _ _ t.slices
        (λ s m e. let (a, b) = both _ _ e in (m, (eq_iff _ _).0 a, (eq_iff _ _).0 b)))

  pub get-Known :
      (id : String)
      → Spec
          (λ w. Valid w.tables)
          (λ w. Valid w.tables)
          (get env id)
          (λ n w. Valid w.tables × Known id n w.tables)
  unfolding get translated network
  get-Known id = Spec-fail_as translate _ (
      Spec-selected Valid env (Known id) _ _ (λ t v.
        Fact-first_row (λ n. Known id n t) _ _ t.networks
          (λ n m e. (m, (eq_iff _ _).0 e, All-In (NetworkOk env.netip) n t.networks v.networks m))))

  NicOk-more :
      {slices : List Slice} {s : Slice} {n : Nic}
      → NicOk env.netip slices n
      → NicOk env.netip (s ∷ slices) n
  NicOk-more h = record {
    slice = h.slice;
    stored = there h.stored;
    same_network = h.same_network;
    same_node = h.same_node;
    range = h.range;
    is_range = h.is_range;
    is_host = h.is_host;
    second = h.second;
    few = h.few;
  }

  -- The tables with one more slice.
  slice_added :
      (s : Slice) (t : Tables)
      → Valid t
      → SliceOk env.netip t.networks s
      → any_of (slice_clash s) t.slices ≡ false
      → Valid (record t { slices = s ∷ t.slices })
  slice_added s t v k e = record {
    networks = v.networks;
    networks_apart = v.networks_apart;
    slices = (k, v.slices);
    slices_apart = (All-none (slice_clash s) t.slices e, v.slices_apart);
    nics = All-map (λ n h. NicOk-more h) t.nics v.nics;
    nics_apart = v.nics_apart;
  }

  insert_slice-IsValid :
      (s : Slice)
      → Spec
          (λ w. Valid w.tables × SliceOk env.netip w.tables.networks s)
          (λ w. Valid w.tables × SliceOk env.netip w.tables.networks s)
          (insert_slice env s)
          (λ _ w. Valid w.tables × In s w.tables.slices)
  unfolding insert_slice
  insert_slice-IsValid s =
      Spec-insert (λ t. Valid t × SliceOk env.netip t.networks s) env (λ t. Valid t × In s t.slices)
        _ _ _ _ (λ t p e. (slice_added s t p.0 p.1 e, here))

  -- What the insertion of a slice leaves.
  Inserted : Slice → Result (Unit {0}) → World Tables → Type 0
  Inserted s (ok _) w = Valid w.tables × In s w.tables.slices
  Inserted s (err e) w = Valid w.tables

  inserted-Stored :
      (s : Slice) (r : Result (Unit {0}))
      → Spec
          (Inserted s r)
          (λ w. Valid w.tables)
          (inserted env s r)
          (λ q w. Valid w.tables × Stored s.network_id s.node_id q w.tables)
  unfolding Inserted inserted
  inserted-Stored s (ok u) = Spec-pure s (λ w p. (p.0, (p.1, refl, refl)))
  inserted-Stored s (err e) =
      Spec-when _ _ _ (λ _. slice-Stored s.network_id s.node_id) (λ _. Spec-raise _ (λ w p. p))

  insert_new :
      (network_id node_id : String) (n : Network) (range : Prefix)
      → IsRange env.netip range n.cidr
      → (cidr : String) → IsSlice env.netip range cidr
      → (cidr6 : String) → OfSecond env.netip (IsSlice env.netip) n.cidr6 cidr6
      → (now : ℕ)
      → let s : Slice = record {
        network_id = network_id;
        node_id = node_id;
        cidr = cidr;
        cidr6 = cidr6;
        created_at = now;
      } in
        Spec
          (λ w. Valid w.tables × Known network_id n w.tables)
          (λ w. Valid w.tables)
          (attempt (insert_slice env s) >>= inserted env s)
          (λ q w. Valid w.tables × Stored network_id node_id q w.tables)
  unfolding Inserted
  insert_new network_id node_id n range is_range cidr is_slice cidr6 of_second now =
      let s : Slice = record {
        network_id = network_id;
        node_id = node_id;
        cidr = cidr;
        cidr6 = cidr6;
        created_at = now;
      } in
      Spec-bind _ _
        (Spec-attempt {Q = Inserted s} _ (
          Spec-mono _
            (λ w p. (
              p.0,
              record {
                network = n;
                stored = p.1.0;
                same_network = p.1.1;
                range = range;
                is_range = is_range;
                is_slice = is_slice;
                second = of_second;
              },
            ))
            (λ a w q. q) (Spec-error _ (λ w p e. p.0) (insert_slice-IsValid s))))
        (inserted-Stored s)

  make_slice-Stored :
      (network_id node_id : String)
      → Spec
          (λ w. Valid w.tables)
          (λ w. Valid w.tables)
          (make_slice env network_id node_id)
          (λ s w. Valid w.tables × Stored network_id node_id s w.tables)
  unfolding make_slice
  make_slice-Stored network_id node_id = Spec-bind _ _ (get-Known network_id) (λ n.
      Spec-given _ (λ w p. p.1.2)
        (λ h.
          let Here : Tables → Type 0 = λ t. Valid t × Known network_id n t in
          Spec-after _ _ (λ w p. p.0)
            (choose_slice-IsSlice Here env laws h.range n.cidr _ h.is_range
              (Maintains-taken Here env network_id))
            (λ cidr k.
              Spec-after _ _ (λ w p. p.0) (Maintains-ask Here _)
                (λ now _.
                  Spec-after _ _ (λ w p. p.0)
                    (choose_second-OfSecond Here env laws network_id n h.second)
                    (λ cidr6 k6.
                      insert_new network_id node_id n h.range h.is_range cidr k cidr6 k6 now)))))

  FoundSlice : String → String → Result Slice → World Tables → Type 0
  FoundSlice network_id node_id (ok s) w = Valid w.tables × Stored network_id node_id s w.tables
  FoundSlice network_id node_id (err e) w = Valid w.tables

  slice_with-Stored :
      (network_id node_id : String) (r : Result Slice)
      → Spec
          (FoundSlice network_id node_id r)
          (λ w. Valid w.tables)
          (slice_with env network_id node_id r)
          (λ q w. Valid w.tables × Stored network_id node_id q w.tables)
  unfolding slice_with FoundSlice
  slice_with-Stored network_id node_id (ok s) = Spec-pure s (λ w p. p)
  slice_with-Stored network_id node_id (err e) =
      Spec-when _ _ _ (λ _. make_slice-Stored network_id node_id) (λ _. Spec-raise _ (λ w p. p))

  pub ensure_slice-Stored :
      (network_id node_id : String)
      → Spec
          (λ w. Valid w.tables)
          (λ w. Valid w.tables)
          (ensure_slice env network_id node_id)
          (λ q w. Valid w.tables × Stored network_id node_id q w.tables)
  unfolding ensure_slice FoundSlice
  ensure_slice-Stored network_id node_id =
      Spec-bind _ _ (Spec-attempt _ (Spec-error _ (λ w v e. v) (slice-Stored network_id node_id)))
        (slice_with-Stored network_id node_id)
