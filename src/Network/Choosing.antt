-- ===== src/Network/Choosing.antt =====
-- What `nextSlice`, `nextAddress` and `freePrefix` find.
use native.Mathlib.Nat.{pow-le-pow_right}
use marstack_cloud.Common.{
  inl, inr, ◌⊎◌, ℕ, zero, suc, ◌+◌, ◌-◌, ◌^◌, ◌≤◌, ◌<◌, ◌≡◌, refl, ap, subst, String, false, not,
  List, if◌then◌else◌, ltb, leb, mem_str, Bool-cases, ltb→lt, leb→le, arith,
}
use marstack_cloud.Fault.{Error, Result, err}
use marstack_cloud.Network.Addresses.{Addr, Prefix, bit_len, size, contains, next}
use marstack_cloud.Network.Adding.{IsAddr, add_power_of_two-eq}
use marstack_cloud.Network.Ipam.{
  Netip, and_then, slice_bits_for, overlaps_any, is_broadcast, is_broadcast_with, next_slice,
  free_prefix, address_from, next_address,
}
use marstack_cloud.Network.Searching.{
  IsPrefix, nth, count, FirstFree, FirstFree-step, advance-nth, masked-resized,
  first_free-FirstFree,
}

-- The outcome of `nextSlice`: the network is no larger than a slice, or this is the first of its slices
-- after the reserved one that is free, or none is.
unfoldable pub SliceFor : Netip → Prefix → List String → Result Prefix → Type 0
SliceFor N network taken r =
    let bits = slice_bits_for network in
    (bits ≤ network.bits × ((e : Error) × (r ≡ err e)))
    ⊎ ((network.bits < bits)
        × FirstFree (λ c. mem_str (N.prefix_text c) taken) (nth network bits) 1 (count network bits)
            r)

pub bits_fit : (network : Prefix) → slice_bits_for network ≤ bit_len network.addr
unfolding slice_bits_for
bits_fit network = ground arith

-- For a masked network, `nextSlice` finds the first of the network's slices after the reserved one that
-- is not taken; it fails only where the network is no larger than a slice or all of these are taken.
pub next_slice-SliceFor :
    (N : Netip) (network : Prefix) (taken : List String)
    → IsPrefix network
    → SliceFor N network taken (next_slice N network taken)
unfolding next_slice SliceFor and_then
next_slice-SliceFor N network taken wf =
    let bits = slice_bits_for network in
    elim (Bool-cases (leb bits network.bits)) [
      | inl e ↦ rw e (inl (leb→le _ _ e, (_, refl)))
      | inr e ↦
          let l : network.bits < bits = ground arith in
          let fit = bits_fit network in
          let two : 2 ≤ count network bits =
            pow-le-pow_right {n = 2} (omega arith) {i = 1} {j = bits - network.bits}
              (omega arith) in
          elim (advance-nth network bits wf (omega arith) fit N 0 (omega arith)) [
            | inl a ↦
                rw (e, masked-resized network bits wf (omega arith) fit, a)
                  (inr (
                    l,
                    first_free-FirstFree network bits wf (omega arith) fit N _ _ _ 1 (omega arith),
                  ))
            | inr (b, (w, a)) ↦ ground arith
          ]
    ]

-- For a masked supernet and no fewer bits than it has, `freePrefix` finds the first of its prefixes with
-- so many bits that overlaps none of those taken; it fails only where each overlaps one.
pub free_prefix-FirstFree :
    (N : Netip) (supernet : Prefix) (bits : ℕ) (taken : List Prefix)
    → IsPrefix supernet
    → supernet.bits ≤ bits
    → bits ≤ bit_len supernet.addr
    → FirstFree
        (λ c. overlaps_any c taken)
        (nth supernet bits)
        0
        (count supernet bits)
        (free_prefix N supernet bits taken)
unfolding free_prefix
free_prefix-FirstFree N supernet bits taken wf l h =
    let e : ltb bits supernet.bits ≡ false = ground arith in
    rw (e, masked-resized supernet bits wf l h)
      (first_free-FirstFree supernet bits wf l h N (λ c. overlaps_any c taken) _ _ 0 (omega arith))

-- The addresses of a slice, and the number of the first that is not handed out.
abbrev pub host : Prefix → ℕ → Addr
host slice i = record (slice.addr) { value = slice.addr.value + i }

abbrev pub hosts_end : Prefix → ℕ
hosts_end slice =
    if slice.addr.v6
    then size slice
    else if ltb (slice.addr.value + size slice) (2 ^ 32)
    then size slice - 1
    else size slice

size_pos : (slice : Prefix) → 0 < size slice
size_pos slice = pow-le-pow_right {n = 2} (omega arith) {i = 0} (omega arith)

contains-host : (slice : Prefix) (i : ℕ) → contains slice (host slice i) ≡ ltb i (size slice)
unfolding contains
contains-host slice i = ground arith

is_broadcast-host :
    (slice : Prefix) (i : ℕ)
    → IsPrefix slice
    → i < size slice
    → is_broadcast slice (host slice i) ≡ not (ltb i (hosts_end slice))
unfolding is_broadcast is_broadcast_with
is_broadcast-host slice i wf l = elim (Bool-cases (slice.addr.v6)) [
  | inl e ↦ rw e (ground arith)
  | inr e ↦
      let width : bit_len slice.addr ≡ 32 = ap (λ b. if b then 128 else 32) e in
      let valid : IsAddr slice.addr = ground (arith, size_pos slice) in
      let sum = add_power_of_two-eq slice.addr (32 - slice.bits) valid in
      let whole : size slice ≡ 2 ^ (32 - slice.bits) = ap (λ w. 2 ^ (w - slice.bits)) width in
      let top : i < 2 ^ (32 - slice.bits) = subst (λ n. i < n) whole l in
      elim (Bool-cases (ltb (slice.addr.value + 2 ^ (32 - slice.bits)) (2 ^ 32))) [
        | inl t ↦ rw (sum, e, t) (ground arith)
        | inr t ↦ rw (sum, e, t) (ground arith)
      ]
]

next-host : (slice : Prefix) (i : ℕ) → next (host slice i) ≡ host slice (suc i)
next-host slice i = ap (λ v. record (slice.addr) { value = v }) (omega arith)

hosts_end_le : (slice : Prefix) → hosts_end slice ≤ size slice
hosts_end_le slice = ground arith

address_from-FirstFree :
    (N : Netip) (slice : Prefix) (taken : List String)
    → IsPrefix slice
    → (rounds i : ℕ) → size slice ≤ rounds + i
    → FirstFree
        (λ a. mem_str (N.addr_text a) taken)
        (host slice)
        i
        (hosts_end slice)
        (address_from N rounds slice taken (host slice i))
unfolding address_from
address_from-FirstFree N slice taken wf zero i f =
    λ j a b. let e = hosts_end_le slice in ground arith
address_from-FirstFree N slice taken wf (suc r) i f = elim (Bool-cases (ltb i (size slice))) [
  | inr e ↦ rw (contains-host slice i, e) (λ j a b. let top = hosts_end_le slice in ground arith)
  | inl e ↦
      let cast = is_broadcast-host slice i wf (ltb→lt _ _ e) in
      elim (Bool-cases (ltb i (hosts_end slice))) [
        | inr b ↦ rw (contains-host slice i, e, cast, b) (λ j a c. ground arith)
        | inl b ↦ elim (Bool-cases (mem_str (N.addr_text (host slice i)) taken)) [
          | inr t ↦
              rw (contains-host slice i, e, cast, b, t)
                (i, omega arith, ltb→lt _ _ b, refl, t, λ j a c. ground arith)
          | inl t ↦
              rw (contains-host slice i, e, cast, b, t, next-host slice i)
                (FirstFree-step (λ a. mem_str (N.addr_text a) taken) (host slice) i _ _ t
                  (address_from-FirstFree N slice taken wf r (suc i) (omega arith)))
        ]
      ]
]

-- For a masked slice, `nextAddress` finds the first address after the slice's own that is not taken and
-- is not the broadcast address of an IPv4 slice; it fails only where all of these are taken. A slice
-- at the very end of IPv4 has no broadcast address here.
pub next_address-FirstFree :
    (N : Netip) (slice : Prefix) (taken : List String)
    → IsPrefix slice
    → FirstFree
        (λ a. mem_str (N.addr_text a) taken)
        (host slice)
        1
        (hosts_end slice)
        (next_address N slice taken)
unfolding next_address
next_address-FirstFree N slice taken wf =
    address_from-FirstFree N slice taken wf (size slice) 1 (omega arith)
