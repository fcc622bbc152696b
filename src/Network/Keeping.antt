-- ===== src/Network/Keeping.antt =====
-- Whatever is asked of the service, and whatever fails, the tables stay sound.
use marstack_cloud.Common.{
  String, Bool, List, [], ◌∷◌, All-keep_if, World, keep_if, Gives-bind_any, Gives-lift-Any,
  Gives-when, Gives-pure-Any, Gives-raise, Gives-attempt-Any, Gives-refuse_if, Gives-of_Spec, Post,
  Spec-mono, Maintains, Maintains-ask, Maintains-write, Any-Fact, inl, inr, Bool-cases,
}
use marstack_cloud.Fault.{Result, ok, err}
use marstack_cloud.Network.Rows.{
  Network, Slice, Nic, Tables, Env, slice, taken_addresses, nics_of, insert_slice, insert_nic,
  delete_nic, delete_network, count_nics, drop_network,
}
use marstack_cloud.Network.Service.{remove}
use marstack_cloud.Network.Leases.{
  Held, attached, next_device, ensure_slice, slice_with, make_slice, inserted, choose_address,
  allocate, allocate_with, attach, release,
}
use marstack_cloud.Network.Lawful.{NetipLaws, IsValid}
use marstack_cloud.Network.Stating.{
  Maintains-statement, Gives-query, Gives-selected, Gives-translated, Spec-insert,
  Maintains-choose_slice, Maintains-taken, Maintains-second, Maintains-address6, Maintains-get,
  Maintains-get_in,
}
use marstack_cloud.Network.Leasing.{ensure_slice-Stored}
use marstack_cloud.Network.Attaching.{HeldBy, Spec-allocate, release-IsValid}
use marstack_cloud.Network.Dividing.{Separate, Disjoint, create-Disjoint}
use marstack_cloud.Network.Making.{create-IsValid, remove-IsValid}
use marstack_cloud.Network.Requests.{
  Request, create_network, delete_network_in, default_network, slice_for, allocate_address,
  release_address, view_of_node, handle, handle_all, Maintains-default, Maintains-node_view,
}

-- What only the networks decide is kept by the slices and the addresses.
module _ (Of : List Network → Type 0) (env : Env) where
  abbrev Kept : Tables → Type 0
  Kept t = Of t.networks

  Maintains-insert_slice : (s : Slice) → Maintains Kept (insert_slice env s)
  unfolding insert_slice
  Maintains-insert_slice s =
      Gives-of_Spec _
        (Spec-mono _ (λ w p. p) (λ a w p. (p, tt)) (Spec-insert Kept env Kept _ _ _ _ (λ t p e. p)))

  Maintains-insert_nic : (n : Nic) → Maintains Kept (insert_nic env n)
  unfolding insert_nic
  Maintains-insert_nic n =
      Gives-of_Spec _
        (Spec-mono _ (λ w p. p) (λ a w p. (p, tt)) (Spec-insert Kept env Kept _ _ _ _ (λ t p e. p)))

  Maintains-slice : (network_id node_id : String) → Maintains Kept (slice env network_id node_id)
  unfolding slice
  Maintains-slice network_id node_id = Gives-selected Kept env _ _ (λ t p. Any-Fact _)

  Maintains-inserted : (s : Slice) (r : Result (Unit {0})) → Maintains Kept (inserted env s r)
  unfolding inserted
  Maintains-inserted s (ok u) = Gives-pure-Any s
  Maintains-inserted s (err e) = Gives-when _ _ _ (λ _. Maintains-slice _ _) (λ _. Gives-raise _)

  Maintains-make_slice :
      (network_id node_id : String) → Maintains Kept (make_slice env network_id node_id)
  unfolding make_slice
  Maintains-make_slice network_id node_id =
      Gives-bind_any _ _ (Maintains-get Kept env network_id) (λ n.
        Gives-bind_any _ _ (Maintains-choose_slice Kept env _ _ (Maintains-taken Kept env _))
          (λ cidr. Gives-bind_any _ _ (Maintains-ask Kept _) (λ now.
            Gives-bind_any _ _ (Maintains-second Kept env _ n) (λ cidr6.
              Gives-bind_any _ _ (Gives-attempt-Any _ (Maintains-insert_slice _))
                (λ r. Maintains-inserted _ r)))))

  Maintains-slice_with :
      (network_id node_id : String) (r : Result Slice)
      → Maintains Kept (slice_with env network_id node_id r)
  unfolding slice_with
  Maintains-slice_with network_id node_id (ok s) = Gives-pure-Any s
  Maintains-slice_with network_id node_id (err e) =
      Gives-when _ _ _ (λ _. Maintains-make_slice _ _) (λ _. Gives-raise _)

  Maintains-ensure_slice :
      (network_id node_id : String) → Maintains Kept (ensure_slice env network_id node_id)
  unfolding ensure_slice
  Maintains-ensure_slice network_id node_id =
      Gives-bind_any _ _ (Gives-attempt-Any _ (Maintains-slice _ _))
        (λ r. Maintains-slice_with _ _ r)

  Maintains-attach :
      (instance_id network_id node_id : String) (h : Held)
      → Maintains Kept (allocate_with env instance_id network_id node_id h)
  unfolding allocate_with attach choose_address taken_addresses
  Maintains-attach instance_id network_id node_id (attached n) = Gives-pure-Any n
  Maintains-attach instance_id network_id node_id (next_device d) = Gives-refuse_if _ _ _ (λ e.
      Gives-bind_any _ _ (Maintains-ensure_slice network_id node_id) (λ s.
        Gives-bind_any _ _
          (Gives-bind_any _ _ (Gives-lift-Any _) (λ p.
            Gives-bind_any _ _ (Gives-translated Kept env _ (Gives-query Kept env _ _ (λ t p. tt)))
              (λ taken. Gives-bind_any _ _ (Gives-lift-Any _) (λ a. Gives-pure-Any _))))
          (λ ip. Gives-bind_any _ _ (Maintains-ask Kept _) (λ mac.
            Gives-bind_any _ _ (Maintains-address6 Kept env _ _) (λ ip6.
              Gives-bind_any _ _ (Maintains-ask Kept _) (λ now.
                Gives-bind_any _ _ (Gives-translated Kept env _ (Maintains-insert_nic _))
                  (λ _. Gives-pure-Any _)))))))

  Maintains-allocate :
      (instance_id network_id node_id : String)
      → Maintains Kept (allocate env instance_id network_id node_id)
  unfolding allocate nics_of
  Maintains-allocate instance_id network_id node_id =
      Gives-bind_any _ _ (Gives-translated Kept env _ (Gives-query Kept env _ _ (λ t p. tt)))
        (λ held. Maintains-attach _ _ _ _)

  Maintains-release : (instance_id : String) → Maintains Kept (release env instance_id)
  unfolding release delete_nic
  Maintains-release instance_id =
      Gives-translated Kept env _ (
        Gives-bind_any _ _ (Maintains-statement Kept env _)
          (λ _. Maintains-write Kept _ (λ t p. p)))

Disjoint-removed :
    (env : Env) (p : Network → Bool) (ns : List Network)
    → Disjoint env ns
    → Disjoint env (keep_if p ns)
Disjoint-removed env p [] d = tt
Disjoint-removed env p (n ∷ ns) d = elim (Bool-cases (p n)) [
  | inl e ↦
      rw (e, keep_if, Disjoint)
        (All-keep_if (Separate env n) p ns d.0, Disjoint-removed env p ns d.1)
  | inr e ↦ rw (e, keep_if, Disjoint) (Disjoint-removed env p ns d.1)
]

module _ (env : Env) where
  abbrev Apart : Tables → Type 0
  Apart t = Disjoint env t.networks

  remove-Disjoint : (id project_id : String) → Maintains Apart (remove env id project_id)
  unfolding remove count_nics delete_network drop_network
  remove-Disjoint id project_id =
      Gives-bind_any _ _ (Maintains-get_in Apart env id project_id) (λ n.
        Gives-bind_any _ _ (Gives-translated Apart env _ (Gives-query Apart env _ _ (λ t p. tt)))
          (λ k. Gives-refuse_if _ _ _ (λ e. Gives-translated Apart env _ (
            Gives-bind_any _ _ (Maintains-statement Apart env _) (λ _.
              Gives-bind_any _ _ (Maintains-statement Apart env _) (λ _.
                Gives-bind_any _ _ (Maintains-statement Apart env _) (λ _.
                  Gives-bind_any _ _ (Maintains-ask Apart _) (λ _.
                    Maintains-write Apart _ (λ t d. Disjoint-removed env _ t.networks d)))))))))

-- The tables are sound: valid, with networks that share no address.
abbrev pub Sound : Env → Tables → Type 0
Sound env t = IsValid env.netip t × Disjoint env t.networks

module _ (env : Env) (laws : NetipLaws env.netip) where
  abbrev Valid : Tables → Type 0
  Valid t = IsValid env.netip t

  allocate-IsValid : (i n m : String) → Maintains Valid (allocate env i n m)
  allocate-IsValid i n m =
      Gives-of_Spec _ (Spec-mono _ (λ w v. v) (λ a w q. (q.0, tt)) (Spec-allocate env laws i n m))

  ensure_slice-IsValid : (n m : String) → Maintains Valid (ensure_slice env n m)
  ensure_slice-IsValid n m =
      Gives-of_Spec _
        (Spec-mono _ (λ w v. v) (λ a w q. (q.0, tt)) (ensure_slice-Stored env laws n m))

  handle-Sound :
      (r : Request) (w : World Tables) → Sound env w.tables → Sound env (handle env r w).tables
  unfolding handle
  handle-Sound (create_network params) w s = (
    ((create-IsValid env laws params).at w s.0).0,
    ((create-Disjoint env laws params).at w s.1).0,
  )
  handle-Sound (delete_network_in id p) w s =
      (((remove-IsValid env laws id p).at w s.0).0, ((remove-Disjoint env id p).at w s.1).0)
  handle-Sound (default_network p) w s = (
    ((Maintains-default Valid env (create-IsValid env laws) ensure_slice-IsValid p).at w s.0).0,
    ((Maintains-default _ env (create-Disjoint env laws) (Maintains-ensure_slice (Disjoint env) env)
          p).at
        w s.1).0,
  )
  handle-Sound (slice_for n m) w s = (
    ((ensure_slice-IsValid n m).at w s.0).0,
    ((Maintains-ensure_slice (Disjoint env) env n m).at w s.1).0,
  )
  handle-Sound (allocate_address i n m) w s = (
    ((allocate-IsValid i n m).at w s.0).0,
    ((Maintains-allocate (Disjoint env) env i n m).at w s.1).0,
  )
  handle-Sound (release_address i) w s = (
    ((release-IsValid env laws i).at w s.0).0,
    ((Maintains-release (Disjoint env) env i).at w s.1).0,
  )
  handle-Sound (view_of_node m) w s = (
    ((Maintains-node_view Valid env (create-IsValid env laws) ensure_slice-IsValid m).at w s.0).0,
    ((Maintains-node_view _ env (create-Disjoint env laws)
          (Maintains-ensure_slice (Disjoint env) env) m).at
        w s.1).0,
  )

  -- From sound tables, whatever is asked of the service, in any order and whatever fails, the tables
  -- stay sound: no two networks share an address; each slice is cut from the range of its network after
  -- the reserved one, and where the network has a second range the slice's second range is cut from
  -- that in the same way, and else there is none; each address is one that the slice of its node hands
  -- out, not its first and, below the end of IPv4, not its broadcast address, and where the slice has a
  -- second range the second address is one that this hands out, and else there is none; no two rows
  -- clash in an index, and no interface is numbered above 3. It is supposed that a prefix is read back
  -- from its text, and that what is read is an address of its family.
  pub handle_all-Sound :
      (rs : List Request) (w : World Tables)
      → Sound env w.tables
      → Sound env (handle_all env rs w).tables
  unfolding handle_all
  handle_all-Sound [] w s = s
  handle_all-Sound (r ∷ rs) w s = handle_all-Sound rs (handle env r w) (handle-Sound r w s)

-- From valid tables, an allocation that returns gives an interface of the instance in the network, and
-- it is stored; whether it returns or fails, the tables stay valid. It is supposed that a prefix is
-- read back from its text, and that what is read is an address of its family.
pub allocate-HeldBy :
    (env : Env)
    → NetipLaws env.netip
    → (instance_id network_id node_id : String) (w : World Tables) → IsValid env.netip w.tables
    → Post
        (λ w. IsValid env.netip w.tables)
        (λ n w. IsValid env.netip w.tables × HeldBy instance_id network_id n w.tables)
        (allocate env instance_id network_id node_id w)
allocate-HeldBy env laws instance_id network_id node_id w v =
    (Spec-allocate env laws instance_id network_id node_id).at w v
