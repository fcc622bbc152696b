-- ===== src/Network/Ipam.antt =====
-- ipam.go: the free slice of a network, the free address of a slice, the free prefix of the supernet.
-- A search moves one prefix a round, so the rounds that it is given, one for each prefix of the range,
-- are enough.
use marstack_cloud.Common.{
  ℕ, zero, suc, ◌-◌, ◌/◌, ◌^◌, String, ◌<>◌, Bool, true, false, ◌&&◌, List, [], ◌∷◌, if◌then◌else◌,
  ltb, leb, ◌==◌, mem_str, itoa,
}
use marstack_cloud.Fault.{Error, Result, ok, err, plain, wrapped}
use marstack_cloud.Network.Addresses.{
  Addr, Prefix, bit_len, same_family, size, masked, contains, overlaps, next, add_power_of_two,
}

-- What the code takes of net/netip and fmt as text: `ParsePrefix`, `String` of prefixes and addresses,
-- and a text in quotes.
pub record Netip : Type 0 where
  pub parse : String → Result Prefix
  pub prefix_text : Prefix → String
  pub addr_text : Addr → String
  pub quoted : String → String

module _ {A B : Type 0} where
  unfoldable pub and_then : Result A → (A → Result B) → Result B
  and_then (ok a) f = f a
  and_then (err e) f = err e

abbrev pub slice_bits : ℕ
slice_bits = 26

abbrev pub slice_bits_v6 : ℕ
slice_bits_v6 = 64

unfoldable pub gateway_of : Prefix → Addr
gateway_of p = next p.addr

unfoldable pub slice_bits_for : Prefix → ℕ
slice_bits_for network = if network.addr.v6 then slice_bits_v6 else slice_bits

-- `PrefixFrom(p.Addr(), bits)`
abbrev pub resized : Prefix → ℕ → Prefix
resized p bits = record p { bits = bits }

-- `Is4In6`: ::ffff:0:0/96.
unfoldable pub is_4in6 : Addr → Bool
is_4in6 a = a.v6 && (a.value / 2 ^ 32 == 65535)

unfoldable pub is_broadcast_with : Addr → Addr × Bool → Bool
is_broadcast_with a (last, true) = false
is_broadcast_with a (last, false) = same_family a last && (a.value == last.value - 1)

unfoldable pub is_broadcast : Prefix → Addr → Bool
is_broadcast slice a =
    if slice.addr.v6
    then false
    else is_broadcast_with a (add_power_of_two slice.addr (32 - slice.bits))

unfoldable pub overlaps_any : Prefix → List Prefix → Bool
overlaps_any candidate [] = false
overlaps_any candidate (other ∷ taken) =
    if overlaps other candidate then true else overlaps_any candidate taken

module _ (N : Netip) where
  unfoldable pub parse_checked : String → Prefix → Result Prefix
  parse_checked cidr p =
      if is_4in6 p.addr
      then err (plain (N.quoted cidr <> " is an IPv4 address written as IPv6; write it as IPv4"))
      else ok (masked p)

  unfoldable pub parse_failed : String → Result Prefix → Result Prefix
  parse_failed cidr (ok p) = parse_checked cidr p
  parse_failed cidr (err e) = err (wrapped ("parse " <> N.quoted cidr) e)

  unfoldable pub parse_prefix : String → Result Prefix
  parse_prefix cidr = parse_failed cidr (N.parse cidr)

  unfoldable pub advance_with : Prefix → Addr × Bool → Result Prefix
  advance_with p (a, true) = err (plain ("address space exhausted after " <> N.prefix_text p))
  advance_with p (a, false) = ok (record p { addr = a })

  -- The next prefix of the same size.
  unfoldable pub advance : Prefix → Result Prefix
  advance p = advance_with p (add_power_of_two p.addr (bit_len p.addr - p.bits))

  -- The first prefix, from the candidate on, that is inside and is not skipped.
  unfoldable pub first_free : ℕ → Prefix → (Prefix → Bool) → Error → Prefix → Result Prefix
  first_free zero inside skip full candidate = err full
  first_free (suc rounds) inside skip full candidate =
      let rest = and_then (advance candidate) (first_free rounds inside skip full) in
      if contains inside candidate.addr
      then if skip candidate then rest else ok candidate
      else err full

  unfoldable pub next_slice : Prefix → List String → Result Prefix
  next_slice network taken =
      let bits = slice_bits_for network in
      if leb bits network.bits
      then err (
          plain
            ("network " <> N.prefix_text network <> " is too small to slice into /" <> itoa bits))
      else and_then (advance (masked (resized network bits))) (
          first_free (2 ^ (bits - network.bits)) network (λ c. mem_str (N.prefix_text c) taken)
            (plain (
              "network "
              <> N.prefix_text network
              <> " has no free /"
              <> itoa bits
              <> " slice left")))

  unfoldable pub free_prefix : Prefix → ℕ → List Prefix → Result Prefix
  free_prefix supernet bits taken =
      if ltb bits supernet.bits
      then err (plain ("supernet " <> N.prefix_text supernet <> " cannot hold a /" <> itoa bits))
      else first_free (2 ^ (bits - supernet.bits)) supernet (λ c. overlaps_any c taken)
          (plain
            ("supernet " <> N.prefix_text supernet <> " has no free /" <> itoa bits <> " left"))
          (masked (resized supernet bits))

  unfoldable pub address_from : ℕ → Prefix → List String → Addr → Result Addr
  address_from zero slice taken candidate =
      err (plain ("slice " <> N.prefix_text slice <> " has no free address left"))
  address_from (suc rounds) slice taken candidate =
      let rest = address_from rounds slice taken (next candidate) in
      let full = err (plain ("slice " <> N.prefix_text slice <> " has no free address left")) in
      if contains slice candidate
      then if is_broadcast slice candidate
        then full
        else if mem_str (N.addr_text candidate) taken
        then rest
        else ok candidate
      else full

  unfoldable pub next_address : Prefix → List String → Result Addr
  next_address slice taken = address_from (size slice) slice taken (next slice.addr)
