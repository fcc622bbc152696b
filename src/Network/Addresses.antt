-- ===== src/Network/Addresses.antt =====
-- What ipam.go uses of net/netip, and its arithmetic on the bytes of an address. An address is a
-- number with its family; one past the last address of its family stands for the invalid address
-- that `Next` gives there. The bytes of an address stand least first.
use marstack_cloud.Common.{
  ℕ, zero, suc, ◌+◌, ◌-◌, ◌*◌, ◌/◌, ◌%◌, ◌^◌, Bool, true, false, not, ◌&&◌, ◌||◌, List, [], ◌∷◌,
  if◌then◌else◌, ltb, leb, ◌==◌,
}

pub record Addr : Type 0 where
  pub v6 : Bool
  pub value : ℕ

pub record Prefix : Type 0 where
  pub addr : Addr
  pub bits : ℕ

-- `BitLen`
abbrev pub bit_len : Addr → ℕ
bit_len a = if a.v6 then 128 else 32

abbrev pub byte_len : Addr → ℕ
byte_len a = if a.v6 then 16 else 4

abbrev pub same_family : Addr → Addr → Bool
same_family a b = if a.v6 then b.v6 else not b.v6

-- The addresses of a prefix.
abbrev pub size : Prefix → ℕ
size p = 2 ^ (bit_len p.addr - p.bits)

-- `Masked`
unfoldable pub masked : Prefix → Prefix
masked p = record p { addr = record (p.addr) { value = p.addr.value / size p * size p } }

-- `Contains`, of a masked prefix.
unfoldable pub contains : Prefix → Addr → Bool
contains p a =
    same_family p.addr a && (leb p.addr.value a.value && ltb a.value (p.addr.value + size p))

-- `Overlaps`, of masked prefixes.
unfoldable pub overlaps : Prefix → Prefix → Bool
overlaps p q = contains p q.addr || contains q p.addr

-- `Next`
abbrev pub next : Addr → Addr
next a = record a { value = a.value + 1 }

-- `AsSlice` and `AddrFromSlice`, by the number of bytes.
unfoldable pub to_bytes : ℕ → ℕ → List ℕ
to_bytes zero v = []
to_bytes (suc n) v = v % 256 ∷ to_bytes n (v / 256)

unfoldable pub of_bytes : List ℕ → ℕ
of_bytes [] = 0
of_bytes (b ∷ bs) = b + 256 * of_bytes bs

-- The loop of `addPowerOfTwo`, from the byte that it starts at: the bytes after it, and the carry.
unfoldable pub add_carry : ℕ → List ℕ → List ℕ × ℕ
add_carry carry [] = ([], carry)
add_carry carry (b ∷ bs) =
    let sum = (b + carry) % 256 in
    let (rest, left) = add_carry 1 bs in if ltb sum b then (sum ∷ rest, left) else (sum ∷ bs, 0)

-- The bytes below the one that it starts at are left alone.
unfoldable pub add_from : ℕ → ℕ → List ℕ → List ℕ × ℕ
add_from zero carry bs = add_carry carry bs
add_from (suc k) carry [] = ([], carry)
add_from (suc k) carry (b ∷ bs) = let (rest, left) = add_from k carry bs in (b ∷ rest, left)

-- `addPowerOfTwo`: the sum, and whether it leaves the family's addresses.
unfoldable pub add_power_of_two : Addr → ℕ → Addr × Bool
add_power_of_two a exponent =
    let (raw, carry) =
      add_from (exponent / 8) (2 ^ (exponent % 8)) (to_bytes (byte_len a) a.value) in
    if leb (byte_len a) (exponent / 8)
    then (a, true)
    else if not (carry == 0)
    then (a, true)
    else (record a { value = of_bytes raw }, false)
