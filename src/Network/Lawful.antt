-- ===== src/Network/Lawful.antt =====
-- What is true of the tables: the ranges of networks, the slices cut from them and the addresses in
-- these.
use native.Mathlib.Nat.{div-lt_iff_lt-mul, mul-le-mul_right, suc-mul}
use marstack_cloud.Common.{
  ℕ, ◌-◌, ◌*◌, ◌/◌, ◌^◌, ◌≤◌, ◌<◌, ◌≡◌, refl, ap, ◌∙◌, subst, String, List, All, Apart, In, Fact,
  ◌⊎◌, inl, inr, Bool-cases, arith,
}
use marstack_cloud.Fault.{Result, ok, err}
use marstack_cloud.Network.Addresses.{Prefix, bit_len, size, masked}
use marstack_cloud.Network.Adding.{IsAddr, power_add, power_pos}
use marstack_cloud.Network.Ipam.{
  Netip, slice_bits_for, is_4in6, parse_checked, parse_failed, parse_prefix,
}
use marstack_cloud.Network.Searching.{IsPrefix, masked-resized, nth, count}
use marstack_cloud.Network.Choosing.{host, hosts_end}
use marstack_cloud.Network.Rows.{
  Network, Slice, Nic, Tables, max_nics, network_clash, slice_clash, nic_clash,
}

-- A prefix is read back from its text, and what is read is an address of its family.
pub record NetipLaws (N : Netip) : Type 0 where
  pub parse_text : (p : Prefix) → IsPrefix p → N.parse (N.prefix_text p) ≡ ok p
  pub parse_valid :
      (s : String) (p : Prefix) → N.parse s ≡ ok p → IsAddr p.addr × p.bits ≤ bit_len p.addr

module _ (N : Netip) where
  -- The text of a range.
  abbrev pub IsRange : Prefix → String → Type 0
  IsRange p s = IsPrefix p × (s ≡ N.prefix_text p)

  -- One of the slices of a range, after the reserved one.
  abbrev pub IsSlice : Prefix → String → Type 0
  IsSlice p s =
      let bits = slice_bits_for p in
      (k : ℕ) × (1 ≤ k) × (k < count p bits) × (p.bits < bits) × (s ≡ N.prefix_text (nth p bits k))

  -- One of the addresses that a slice hands out.
  abbrev pub IsHost : Prefix → String → Type 0
  IsHost p s = (k : ℕ) × (1 ≤ k) × (k < hosts_end p) × (s ≡ N.addr_text (host p k))

  -- There is no second range, or it is a range too.
  abbrev pub SecondRange : String → Type 0
  SecondRange s = (s ≡ "") ⊎ ((p : Prefix) × IsRange p s)

  -- What is taken of a second range, which is nothing where there is none.
  abbrev pub OfSecond : (Prefix → String → Type 0) → String → String → Type 0
  OfSecond Of range part =
      ((range ≡ "") × (part ≡ "")) ⊎ ((p : Prefix) × IsRange p range × Of p part)

  pub record NetworkOk (n : Network) : Type 0 where
    pub range : Prefix
    pub is_range : IsRange range n.cidr
    pub second : SecondRange n.cidr6

  -- The slice is cut from the range of its network, and its second range from the second one.
  pub record SliceOk (networks : List Network) (s : Slice) : Type 0 where
    pub network : Network
    pub stored : In network networks
    pub same_network : network.id ≡ s.network_id
    pub range : Prefix
    pub is_range : IsRange range network.cidr
    pub is_slice : IsSlice range s.cidr
    pub second : OfSecond IsSlice network.cidr6 s.cidr6

  -- The address is one of those of the slice that its node has of its network, and the second address
  -- one of its second range.
  pub record NicOk (slices : List Slice) (n : Nic) : Type 0 where
    pub slice : Slice
    pub stored : In slice slices
    pub same_network : slice.network_id ≡ n.network_id
    pub same_node : slice.node_id ≡ n.node_id
    pub range : Prefix
    pub is_range : IsRange range slice.cidr
    pub is_host : IsHost range n.ip
    pub second : OfSecond IsHost slice.cidr6 n.ip6
    pub few : n.device < max_nics

  pub record IsValid (t : Tables) : Type 0 where
    pub networks : All NetworkOk t.networks
    pub networks_apart : Apart network_clash t.networks
    pub slices : All (SliceOk t.networks) t.slices
    pub slices_apart : Apart slice_clash t.slices
    pub nics : All (NicOk t.slices) t.nics
    pub nics_apart : Apart nic_clash t.nics

  module _ (laws : NetipLaws N) where
    pub masked-IsPrefix :
        (p : Prefix) → IsAddr p.addr → p.bits ≤ bit_len p.addr → IsPrefix (masked p)
    unfolding masked
    masked-IsPrefix p a b =
        let place = p.addr.value / size p in
        let pos = power_pos (bit_len p.addr - p.bits) in
        let all : 2 ^ bit_len p.addr ≡ 2 ^ p.bits * size p =
          ap (λ n. 2 ^ n) (omega arith) ∙ power_add p.bits (bit_len p.addr - p.bits) in
        let below : place < 2 ^ p.bits =
          (div-lt_iff_lt-mul pos).1 (subst (λ n. p.addr.value < n) all a) in
        let top = mul-le-mul_right (size p) below in
        record {
          narrow = b;
          place = place;
          aligned = refl;
          inside = omega (arith, suc-mul place (size p));
        }

    parse_failed-IsPrefix :
        (s : String) (r : Result Prefix)
        → ((p : Prefix) → r ≡ ok p → IsAddr p.addr × p.bits ≤ bit_len p.addr)
        → Fact IsPrefix (parse_failed N s r)
    unfolding parse_failed parse_checked
    parse_failed-IsPrefix s (ok p) h = elim (Bool-cases (is_4in6 p.addr)) [
      | inl e ↦ rw e tt
      | inr e ↦ rw e (let (a, b) = h p refl in masked-IsPrefix p a b)
    ]
    parse_failed-IsPrefix s (err e) h = tt

    pub parse_prefix-IsPrefix : (s : String) → Fact IsPrefix (parse_prefix N s)
    unfolding parse_prefix
    parse_prefix-IsPrefix s = parse_failed-IsPrefix s (N.parse s) (laws.parse_valid s)

    pub masked-same : (p : Prefix) → IsPrefix p → masked p ≡ p
    unfolding masked
    masked-same p wf =
        masked-resized p p.bits wf (omega arith) wf.narrow
        ∙ ap (λ v. record { addr = record (p.addr) { value = v }; bits = p.bits }) (omega arith)

    pub parse_prefix-text :
        (p : Prefix) → IsPrefix p → Fact (λ q. q ≡ p) (parse_prefix N (N.prefix_text p))
    unfolding parse_prefix parse_failed parse_checked
    parse_prefix-text p wf = elim (Bool-cases (is_4in6 p.addr)) [
      | inl e ↦ rw (laws.parse_text p wf, e) tt
      | inr e ↦ rw (laws.parse_text p wf, e) (masked-same p wf)
    ]
