-- ===== src/Network/Seconds.antt =====
-- The second ranges: what is chosen of them.
use marstack_cloud.Common.{
  inl, inr, ◌≡◌, refl, ap, String, not, true, false, str_eq, eq_iff, Gives, Gives-when, Gives-mono,
  Gives-pure, arith,
}
use marstack_cloud.Network.Addresses.{Prefix}
use marstack_cloud.Network.Ipam.{Netip, slice_bits_for}
use marstack_cloud.Network.Searching.{nth, nth-IsPrefix}
use marstack_cloud.Network.Choosing.{bits_fit}
use marstack_cloud.Network.Rows.{Network, Tables, Env, dual_stack, taken_addresses6, taken_slices6}
use marstack_cloud.Network.Leases.{choose_slice, choose_second, choose_address, choose_address6}
use marstack_cloud.Network.Lawful.{NetipLaws, IsRange, IsSlice, IsHost, SecondRange, OfSecond}
use marstack_cloud.Network.Stating.{
  Gives-query, choose_slice-IsSlice, choose_address-IsHost, Maintains-taken6,
}

-- A slice of a range is a range.
pub IsSlice-IsRange :
    (N : Netip) (range : Prefix) (whole part : String)
    → IsRange N range whole
    → IsSlice N range part
    → (p : Prefix) × IsRange N p part
IsSlice-IsRange N range whole part (wf, e) (i, low, high, larger, same) =
    let bits = slice_bits_for range in
    (nth range bits i, (nth-IsPrefix range bits wf (omega arith) (bits_fit range) i high, same))

pub SecondRange-slice :
    (N : Netip) (whole part : String) → OfSecond N (IsSlice N) whole part → SecondRange N part
SecondRange-slice N whole part (inl (a, b)) = inl b
SecondRange-slice N whole part (inr (p, r, s)) = inr (IsSlice-IsRange N p whole part r s)

is_empty_of : (s : String) → not (str_eq s "") ≡ false → s ≡ ""
is_empty_of s e = ground (arith, eq_iff s "")

is_dual : (s : String) → not (str_eq s "") ≡ true → s ≡ "" → ⊥
is_dual s e f = ground (arith, eq_iff s "")

module _ (P : Tables → Type 0) (env : Env) (laws : NetipLaws env.netip) where
  slice_of_second :
      (id : String) (n : Network)
      → not (str_eq n.cidr6 "") ≡ true
      → SecondRange env.netip n.cidr6
      → Gives
          (λ w. P w.tables)
          (choose_slice env n.cidr6 (taken_slices6 env id))
          (OfSecond env.netip (IsSlice env.netip) n.cidr6)
  slice_of_second id n e (inl none) = absurd (is_dual n.cidr6 e none)
  slice_of_second id n e (inr (p, r)) =
      Gives-mono _ (λ s k. inr (p, r, k))
        (choose_slice-IsSlice P env laws p n.cidr6 _ r (Maintains-taken6 P env id))

  pub choose_second-OfSecond :
      (id : String) (n : Network)
      → SecondRange env.netip n.cidr6
      → Gives
          (λ w. P w.tables)
          (choose_second env id n)
          (OfSecond env.netip (IsSlice env.netip) n.cidr6)
  unfolding choose_second dual_stack
  choose_second-OfSecond id n r =
      Gives-when _ _ _ (λ e. slice_of_second id n e r)
        (λ e. Gives-pure _ (inl (is_empty_of n.cidr6 e, refl)))

  address_of_second :
      (network_id cidr6 : String)
      → str_eq cidr6 "" ≡ false
      → SecondRange env.netip cidr6
      → Gives
          (λ w. P w.tables)
          (choose_address env cidr6 (taken_addresses6 env network_id))
          (OfSecond env.netip (IsHost env.netip) cidr6)
  unfolding taken_addresses6
  address_of_second network_id cidr6 e (inl none) = absurd (is_dual cidr6 (ap not e) none)
  address_of_second network_id cidr6 e (inr (p, r)) =
      Gives-mono _ (λ s k. inr (p, r, k))
        (choose_address-IsHost P env laws p cidr6 _ r (Gives-query P env _ _ (λ t k. tt)))

  pub choose_address6-OfSecond :
      (network_id cidr6 : String)
      → SecondRange env.netip cidr6
      → Gives
          (λ w. P w.tables)
          (choose_address6 env network_id cidr6)
          (OfSecond env.netip (IsHost env.netip) cidr6)
  unfolding choose_address6
  choose_address6-OfSecond network_id cidr6 r =
      Gives-when _ _ _ (λ e. Gives-pure _ (inl ((eq_iff cidr6 "").0 e, refl)))
        (λ e. address_of_second network_id cidr6 e r)
