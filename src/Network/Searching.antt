-- ===== src/Network/Searching.antt =====
-- The searches of ipam.go find the first that is free, and fail only when none is.
use native.Mathlib.Nat.{
  mul-div_cancel, mul_assoc, mul-le-mul_right, suc-mul, add-mul, pow-le-pow_right,
}
use marstack_cloud.Common.{
  inl, inr, ◌⊎◌, ℕ, zero, suc, ◌+◌, ◌-◌, ◌*◌, ◌/◌, ◌^◌, ◌≤◌, ◌<◌, ◌≡◌, refl, sym, ap, ◌∙◌, subst,
  Bool, true, false, ltb, ◌==◌, Bool-cases, ltb→lt, arith,
}
use marstack_cloud.Fault.{Error, Result, ok, err}
use marstack_cloud.Network.Addresses.{Prefix, bit_len, size, masked, contains}
use marstack_cloud.Network.Adding.{IsAddr, power_add, add_power_of_two-eq}
use marstack_cloud.Network.Ipam.{Netip, and_then, resized, advance_with, advance, first_free}

-- A masked prefix of its family: its first address is a multiple of its size.
pub record IsPrefix (p : Prefix) : Type 0 where
  pub narrow : p.bits ≤ bit_len p.addr
  pub place : ℕ
  pub aligned : p.addr.value ≡ place * size p
  pub inside : p.addr.value + size p ≤ 2 ^ bit_len p.addr

-- The prefix number i of the network's prefixes with so many bits.
abbrev pub nth : Prefix → ℕ → ℕ → Prefix
nth network bits i = record {
  addr = record (network.addr) {
    value = network.addr.value + i * 2 ^ (bit_len network.addr - bits);
  };
  bits = bits;
}

-- How many there are.
abbrev pub count : Prefix → ℕ → ℕ
count network bits = 2 ^ (bits - network.bits)

module _ {A : Type 0} where
  -- The first of the candidates number i to n - 1 that is free, if one is.
  abbrev pub FirstFree : (A → Bool) → (ℕ → A) → ℕ → ℕ → Result A → Type 0
  FirstFree skip at i n (ok c) =
      (k : ℕ) × (i ≤ k)
      × (k < n)
      × (c ≡ at k)
      × (skip (at k) ≡ false)
      × ((j : ℕ) → i ≤ j → j < k → skip (at j) ≡ true)
  FirstFree skip at i n (err e) = (j : ℕ) → i ≤ j → j < n → skip (at j) ≡ true

  pub at_or_above :
      (skip : A → Bool) (at : ℕ → A) (i j : ℕ)
      → skip (at i) ≡ true
      → i ≤ j
      → (suc i ≤ j → skip (at j) ≡ true)
      → skip (at j) ≡ true
  at_or_above skip at i j t h f = elim (Bool-cases (i == j)) [
    | inl e ↦ let same : i ≡ j = ground arith in subst (λ n. skip (at n) ≡ true) same t
    | inr e ↦ f (ground arith)
  ]

  pub FirstFree-step :
      (skip : A → Bool) (at : ℕ → A) (i n : ℕ) (r : Result A)
      → skip (at i) ≡ true
      → FirstFree skip at (suc i) n r
      → FirstFree skip at i n r
  FirstFree-step skip at i n (ok c) t (k, above, below, e, free, taken) =
      (k, omega arith, below, e, free, λ j h l. at_or_above skip at i j t h (λ s. taken j s l))
  FirstFree-step skip at i n (err e) t taken =
      λ j h l. at_or_above skip at i j t h (λ s. taken j s l)

pub next_multiple : (i s : ℕ) → suc i * s ≡ i * s + s
next_multiple i s = grind (arith, suc-mul i s)

module _ (network : Prefix) (bits : ℕ) (wf : IsPrefix network) (l : network.bits ≤ bits)
    (h : bits ≤ bit_len network.addr) where
  abbrev step : ℕ
  step = 2 ^ (bit_len network.addr - bits)

  size-count : size network ≡ count network bits * step
  size-count =
      ap (λ n. 2 ^ n) (omega arith) ∙ power_add (bits - network.bits) (bit_len network.addr - bits)

  step_pos : 0 < step
  step_pos = pow-le-pow_right {n = 2} (omega arith) {i = 0} (omega arith)

  value-step : network.addr.value ≡ wf.place * count network bits * step
  value-step =
      wf.aligned
      ∙ ap (λ n. wf.place * n) size-count
      ∙ sym (mul_assoc wf.place (count network bits) step)

  whole : network.addr.value / step * step ≡ network.addr.value
  whole =
      ap (λ n. n / step * step) value-step
      ∙ ap (λ n. n * step) (mul-div_cancel (wf.place * count network bits) step_pos)
      ∙ sym value-step

  pub masked-resized : masked (resized network bits) ≡ nth network bits 0
  unfolding masked
  masked-resized =
      rw whole
        (ap (λ v. record { addr = record (network.addr) { value = v }; bits = bits }) (omega arith))

  contains-nth : (i : ℕ) → contains network (nth network bits i).addr ≡ ltb i (count network bits)
  unfolding contains
  contains-nth i = elim (Bool-cases (ltb i (count network bits))) [
    | inl e ↦
        let far = mul-le-mul_right step (ltb→lt _ _ e) in
        ground (arith, size-count, next_multiple i step, step_pos, far)
    | inr e ↦
        let near : count network bits * step ≤ i * step = mul-le-mul_right step (ground arith) in
        ground (arith, size-count)
  ]

  last-nth :
      (i : ℕ)
      → ltb ((nth network bits i).addr.value + step) (2 ^ bit_len network.addr) ≡ false
      → count network bits ≤ suc i
  last-nth i e = elim (Bool-cases (ltb (suc i) (count network bits))) [
    | inl t ↦
        let far = mul-le-mul_right step (ltb→lt _ _ t) in
        let below : (nth network bits i).addr.value + step < 2 ^ bit_len network.addr = omega (
          arith,
          size-count,
          next_multiple i step,
          next_multiple (suc i) step,
          step_pos,
          far,
          wf.inside,
        ) in
        ground arith
    | inr t ↦ ground arith
  ]

  -- Below the end of the family's addresses the candidate moves on by one.
  pub advance-nth :
      (N : Netip) (i : ℕ)
      → i < count network bits
      → (advance N (nth network bits i) ≡ ok (nth network bits (suc i)))
        ⊎ ((count network bits ≤ suc i) × ((e : Error) × (advance N (nth network bits i) ≡ err e)))
  unfolding advance advance_with
  advance-nth N i b =
      let at = nth network bits i in
      let far = mul-le-mul_right step b in
      let valid : IsAddr at.addr =
        omega (arith, size-count, next_multiple i step, step_pos, far, wf.inside) in
      let sum = add_power_of_two-eq at.addr (bit_len network.addr - bits) valid in
      elim (Bool-cases (ltb (at.addr.value + step) (2 ^ bit_len network.addr))) [
        | inl e ↦ inl (
            rw (sum, e)
              (ap (λ v. ok record { addr = record (network.addr) { value = v }; bits = bits })
                (omega (arith, next_multiple i step))))
        | inr e ↦ inr (last-nth i e, rw (sum, e) (_, refl))
      ]

  pub first_free-FirstFree :
      (N : Netip) (skip : Prefix → Bool) (full : Error) (rounds i : ℕ)
      → count network bits ≤ rounds + i
      → FirstFree skip
          (nth network bits)
          i
          (count network bits)
          (first_free N rounds network skip full (nth network bits i))
  unfolding first_free and_then
  first_free-FirstFree N skip full zero i f = λ j a b. ground arith
  first_free-FirstFree N skip full (suc r) i f = elim (Bool-cases (ltb i (count network bits))) [
    | inr e ↦ rw (contains-nth i, e) (λ j a b. ground arith)
    | inl e ↦ elim (Bool-cases (skip (nth network bits i))) [
      | inr s ↦
          rw (contains-nth i, e, s) (i, omega arith, ltb→lt _ _ e, refl, s, λ j a b. ground arith)
      | inl s ↦ elim (advance-nth N i (ltb→lt _ _ e)) [
        | inl a ↦
            rw (contains-nth i, e, s, a)
              (FirstFree-step skip (nth network bits) i _ _ s
                (first_free-FirstFree N skip full r (suc i) (omega arith)))
        | inr (last, (w, a)) ↦
            rw (contains-nth i, e, s, a)
              (λ j h b. at_or_above skip (nth network bits) i j s h (λ c. ground arith))
      ]
    ]
  ]

  pub nth-IsPrefix : (i : ℕ) → i < count network bits → IsPrefix (nth network bits i)
  nth-IsPrefix i b =
      let far = mul-le-mul_right step b in
      record {
        narrow = h;
        place = wf.place * count network bits + i;
        aligned =
            ap (λ v. v + i * step) value-step
            ∙ sym (add-mul (wf.place * count network bits) i step);
        inside = omega (arith, size-count, next_multiple i step, far, wf.inside);
      }
