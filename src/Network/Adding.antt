-- ===== src/Network/Adding.antt =====
-- The addition on bytes is addition of numbers.
use native.Mathlib.Nat.{pow-succ', mul_assoc, pow-le-pow_right, one-mul, mul-suc}
use marstack_cloud.Common.{
  inl, inr, ℕ, zero, suc, ◌+◌, ◌*◌, ◌/◌, ◌%◌, ◌^◌, ◌≤◌, ◌<◌, ◌≡◌, refl, sym, ap, subst, ◌∙◌, Bool,
  true, false, not, List, [], ◌∷◌, if◌then◌else◌, ltb, leb, ◌==◌, length, All, Bool-cases, ltb→lt,
  arith,
}
use marstack_cloud.Network.Addresses.{
  Addr, bit_len, byte_len, to_bytes, of_bytes, add_carry, add_from, add_power_of_two,
}

abbrev IsBytes : List ℕ → Type 0
IsBytes = All (λ b. b < 256)

power_step : (n k : ℕ) → 256 ^ suc n * k ≡ 256 * (256 ^ n * k)
power_step n k = ap (λ x. x * k) (pow-succ' 256 n) ∙ mul_assoc 256 (256 ^ n) k

of_to_bytes : (n v : ℕ) → v < 256 ^ n → of_bytes (to_bytes n v) ≡ v
unfolding of_bytes to_bytes
of_to_bytes zero v h = omega arith
of_to_bytes (suc n) v h =
    let ih = of_to_bytes n (v / 256) (omega (arith, pow-succ' 256 n)) in omega arith

IsBytes-to : (n v : ℕ) → IsBytes (to_bytes n v)
unfolding to_bytes
IsBytes-to zero v = tt
IsBytes-to (suc n) v = (omega arith, IsBytes-to n (v / 256))

length-to_bytes : (n v : ℕ) → length (to_bytes n v) ≡ n
unfolding to_bytes
length-to_bytes zero v = refl
length-to_bytes (suc n) v = omega (arith, length-to_bytes n (v / 256))

-- The bytes and the carry hold the sum, and the bytes are bytes.
Sums : ℕ → List ℕ → List ℕ × ℕ → Type 0
Sums s bs (rest, left) =
    (of_bytes rest + 256 ^ length bs * left ≡ s) × IsBytes rest × (length rest ≡ length bs)

wrap : (b c : ℕ) → b < 256 → c < 256 → ltb ((b + c) % 256) b ≡ true → (b + c) % 256 + 256 ≡ b + c
wrap b c h k e = let l = ltb→lt _ _ e in omega arith

no_wrap :
    (b c : ℕ) → 0 < c → b < 256 → c < 256 → ltb ((b + c) % 256) b ≡ false → (b + c) % 256 ≡ b + c
no_wrap b c p h k e = ground arith

add_carry_step :
    (c b : ℕ) (bs : List ℕ) (p : List ℕ × ℕ) (t : Bool)
    → 0 < c
    → c < 256
    → IsBytes (b ∷ bs)
    → Sums (of_bytes bs + 1) bs p
    → ltb ((b + c) % 256) b ≡ t
    → Sums
        (of_bytes (b ∷ bs) + c)
        (b ∷ bs)
        (if t then ((b + c) % 256 ∷ p.0, p.1) else ((b + c) % 256 ∷ bs, 0))
unfolding of_bytes Sums
add_carry_step c b bs (rest, left) true h g (kb, ks) (sum, bytes, len) e =
    let w = wrap b c kb g e in
    (omega (arith, power_step (length bs) left), (omega arith, bytes), omega arith)
add_carry_step c b bs (rest, left) false h g (kb, ks) s e =
    let w = no_wrap b c h kb g e in (omega arith, (omega arith, ks), refl)

add_carry_lem :
    (carry : ℕ) (bs : List ℕ)
    → 0 < carry
    → carry < 256
    → IsBytes bs
    → Sums (of_bytes bs + carry) bs (add_carry carry bs)
unfolding add_carry of_bytes Sums
add_carry_lem c [] h g k = (omega arith, tt, refl)
add_carry_lem c (b ∷ bs) h g k =
    add_carry_step c b bs (add_carry 1 bs) (ltb ((b + c) % 256) b) h g k
      (add_carry_lem 1 bs (omega arith) (omega arith) k.1) refl

add_from_lem :
    (k carry : ℕ) (bs : List ℕ)
    → 0 < carry
    → carry < 256
    → k < length bs
    → IsBytes bs
    → Sums (of_bytes bs + 256 ^ k * carry) bs (add_from k carry bs)
unfolding add_from of_bytes Sums
add_from_lem zero c bs h g l k =
    let (sum, bytes, len) = add_carry_lem c bs h g k in (omega arith, bytes, len)
add_from_lem (suc k) c [] h g l b = omega arith
add_from_lem (suc k) c (b ∷ bs) h g l (kb, ks) =
    let (sum, bytes, len) = add_from_lem k c bs h g (omega arith) ks in
    let left = (add_from k c bs).1 in
    (omega (arith, power_step (length bs) left, power_step k c), (kb, bytes), omega arith)

pub power_add : (a b : ℕ) → 2 ^ (a + b) ≡ 2 ^ a * 2 ^ b
power_add zero b = ap (λ n. 2 ^ n) (omega arith) ∙ sym (one-mul (2 ^ b))
power_add (suc a) b =
    let ih = power_add a b in
    let next : 2 ^ (suc a + b) ≡ 2 * 2 ^ (a + b) =
      ap (λ n. 2 ^ n) (omega arith) ∙ pow-succ' 2 (a + b) in
    next
    ∙ ap (λ n. 2 * n) ih
    ∙ sym (mul_assoc 2 (2 ^ a) (2 ^ b))
    ∙ ap (λ n. n * 2 ^ b) (sym (pow-succ' 2 a))

byte_power : (k r : ℕ) → 256 ^ k * 2 ^ r ≡ 2 ^ (8 * k + r)
byte_power zero r = one-mul (2 ^ r) ∙ ap (λ n. 2 ^ n) (omega arith)
byte_power (suc k) r =
    let ih = byte_power k r in
    let wide : 2 ^ (8 * suc k + r) ≡ 256 * 2 ^ (8 * k + r) =
      ap (λ n. 2 ^ n) (omega arith) ∙ power_add 8 (8 * k + r) in
    omega (arith, power_step k (2 ^ r))

of_bytes_bound : (bs : List ℕ) → IsBytes bs → of_bytes bs < 256 ^ length bs
unfolding of_bytes
of_bytes_bound [] k = omega arith
of_bytes_bound (b ∷ bs) (kb, ks) = omega (arith, of_bytes_bound bs ks, power_step (length bs) 1)

power_split : (e : ℕ) → 256 ^ (e / 8) * 2 ^ (e % 8) ≡ 2 ^ e
power_split e = byte_power (e / 8) (e % 8) ∙ ap (λ n. 2 ^ n) (omega arith)

pub power_pos : (r : ℕ) → 0 < 2 ^ r
power_pos r = pow-le-pow_right {n = 2} (omega arith) {i = 0} (omega arith)

small_power : (r : ℕ) → r < 8 → 2 ^ r < 256
small_power r h =
    let top : 2 ^ r ≤ 2 ^ 7 = pow-le-pow_right {n = 2} (omega arith) {j = 7} (omega arith) in
    omega arith

-- The sum on the bytes of a number, from its byte e / 8.
add_from_eq :
    (n e v : ℕ)
    → v < 256 ^ n
    → e / 8 < n
    → let (raw, carry) = add_from (e / 8) (2 ^ (e % 8)) (to_bytes n v) in
      (of_bytes raw + 256 ^ n * carry ≡ v + 2 ^ e) × (of_bytes raw < 256 ^ n)
unfolding Sums
add_from_eq n e v h l =
    let fits = subst (λ m. e / 8 < m) (sym (length-to_bytes n v)) l in
    let (sum, bytes, len) =
      add_from_lem (e / 8) (2 ^ (e % 8)) (to_bytes n v) (power_pos (e % 8))
        (small_power (e % 8) (omega arith)) fits (IsBytes-to n v) in
    let size = len ∙ length-to_bytes n v in
    (
      rw (of_to_bytes n v h, length-to_bytes n v, power_split e) at sum,
      subst (λ m. of_bytes (add_from (e / 8) (2 ^ (e % 8)) (to_bytes n v)).0 < 256 ^ m) size
          (of_bytes_bound _ bytes),
    )

-- The address that is 2 ^ e further on, when the family has it.
abbrev pub plus_power : Addr → ℕ → Addr × Bool
plus_power a e =
    if ltb (a.value + 2 ^ e) (2 ^ bit_len a)
    then (record a { value = a.value + 2 ^ e }, false)
    else (a, true)

abbrev pub IsAddr : Addr → Type 0
IsAddr a = a.value < 2 ^ bit_len a

width_of :
    (v6 : Bool)
    → ((if v6 then 128 else 32) ≡ 8 * (if v6 then 16 else 4))
      × (256 ^ (if v6 then 16 else 4) ≡ 2 ^ (if v6 then 128 else 32))
width_of true = (refl, refl)
width_of false = (refl, refl)

widths : (a : Addr) → (bit_len a ≡ 8 * byte_len a) × (256 ^ byte_len a ≡ 2 ^ bit_len a)
widths a = width_of a.v6

more : (w c : ℕ) → w ≤ w * suc c
more w c = grind (arith, mul-suc w c)

power_beyond : (e w : ℕ) → w ≤ e → 2 ^ w ≤ 2 ^ e
power_beyond e w h = pow-le-pow_right {n = 2} (omega arith) h

-- The outcome, by the carry out of the first byte.
carry_out :
    (a : Addr) (e : ℕ) (p : List ℕ × ℕ)
    → of_bytes p.0 + 2 ^ bit_len a * p.1 ≡ a.value + 2 ^ e
    → of_bytes p.0 < 2 ^ bit_len a
    → (if not (p.1 == 0) then (a, true) else (record a { value = of_bytes p.0 }, false))
      ≡ plus_power a e
carry_out a e (raw, zero) sum bound =
    let s : of_bytes raw ≡ a.value + 2 ^ e = omega arith in rw (sym s) (ground arith)
carry_out a e (raw, suc c) sum bound = let far = more (2 ^ bit_len a) c in ground arith

-- `addPowerOfTwo` adds 2 ^ e to a valid address, and says that it leaves the family's addresses, and
-- gives the address back, just when the sum does.
pub add_power_of_two-eq : (a : Addr) (e : ℕ) → IsAddr a → add_power_of_two a e ≡ plus_power a e
unfolding add_power_of_two
add_power_of_two-eq a e h =
    let (bits, top) = widths a in
    elim (Bool-cases (leb (byte_len a) (e / 8))) [
      | inl out ↦ rw out (let far = power_beyond e (bit_len a) (ground arith) in ground arith)
      | inr inside ↦ rw inside (
          let (sum, bound) = add_from_eq (byte_len a) e a.value (rw top h) (ground arith) in
          carry_out a e _ (rw top at sum) (rw top at bound))
    ]
