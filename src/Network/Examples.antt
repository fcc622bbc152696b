-- ===== src/Network/Examples.antt =====
-- A text of prefixes that is read back, and the theorems at concrete inputs.
use Prim.Native.Char.{code}
use marstack_cloud.Common.{
  inl, inr, Fact, Post, mem_str, subst, ℕ, zero, suc, ◌-◌, ◌+◌, ◌*◌, ◌/◌, ◌%◌, ◌^◌, ◌≤◌, ◌<◌, ◌≡◌,
  refl, ap, String, Bool, true, false, ◌&&◌, List, [], ◌∷◌, none, if◌then◌else◌, ltb, leb, ◌==◌,
  ltb→lt, leb→le, lt→ltb, Bool-cases, arith, World,
}
use marstack_cloud.Fault.{Result, ok, err, plain}
use marstack_cloud.Network.Addresses.{
  Addr, Prefix, bit_len, add_power_of_two, add_from, add_carry, to_bytes, of_bytes, masked,
  contains,
}
use marstack_cloud.Network.Adding.{IsAddr, add_power_of_two-eq, plus_power, power_pos}
use marstack_cloud.Network.Ipam.{
  Netip, and_then, advance, advance_with, first_free, slice_bits_for, next_slice, next_address,
  free_prefix, overlaps_any,
}
use marstack_cloud.Network.Searching.{IsPrefix, nth, count, FirstFree}
use marstack_cloud.Network.Choosing.{
  SliceFor, host, hosts_end, next_slice-SliceFor, next_address-FirstFree, free_prefix-FirstFree,
}
use marstack_cloud.Network.Rows.{CreateParams, Tables, Env}
use marstack_cloud.Network.Leases.{allocate}
use marstack_cloud.Network.Attaching.{HeldBy}
use marstack_cloud.Network.Requests.{
  Request, create_network, allocate_address, view_of_node, handle_all,
}
use marstack_cloud.Network.Keeping.{Sound, handle_all-Sound, allocate-HeldBy}
use marstack_cloud.Network.Lawful.{NetipLaws, IsValid}

-- A number in n binary digits, least first, before the rest of the text.
digits : ℕ → ℕ → String → String
digits zero v rest = rest
digits (suc n) v rest = String.◌∷◌ (if v % 2 == 1 then "1" else "0") (digits n (v / 2) rest)

number : ℕ → String → ℕ × String
number zero s = (0, s)
number (suc n) String.[] = (0, String.[])
number (suc n) (String.◌∷◌ c s) =
    let (v, rest) = number n s in ((if code c == 49 then 1 else 0) + 2 * v, rest)

bit : (v : ℕ) → (if code (if v % 2 == 1 then "1" else "0") == 49 then 1 else 0) ≡ v % 2
bit v = elim (Bool-cases (v % 2 == 1)) [ inl e ↦ rw e (ground arith) | inr e ↦ rw e (ground arith) ]

number-digits : (n v : ℕ) (rest : String) → v < 2 ^ n → number n (digits n v rest) ≡ (v, rest)
unfolding number digits
number-digits zero v rest h = ap (λ x. (x, rest)) (omega arith)
number-digits (suc n) v rest h =
    let ih = number-digits n (v / 2) rest (omega arith) in
    rw (ih, bit v) (ap (λ x. (x, rest)) (omega arith))

flag : Bool → ℕ
flag true = 1
flag false = 0

encode : Prefix → String
encode p = digits 1 (flag p.addr.v6) (digits 128 p.addr.value (digits 8 p.bits ""))

checked : Prefix → Result Prefix
checked p =
    if ltb p.addr.value (2 ^ bit_len p.addr) && leb p.bits (bit_len p.addr)
    then ok p
    else err (plain "no prefix")

decode : String → Result Prefix
decode s =
    let (v6, s1) = number 1 s in
    let (value, s2) = number 128 s1 in
    let (bits, s3) = number 8 s2 in
    checked (record { addr = record { v6 = v6 == 1; value = value }; bits = bits })

abbrev netip : Netip
netip = record {
  parse = decode;
  prefix_text = encode;
  addr_text = λ a. digits 1 (flag a.v6) (digits 128 a.value "");
  quoted = λ s. s;
}

flag_small : (b : Bool) → flag b < 2 ^ 1
unfolding flag
flag_small true = omega arith
flag_small false = omega arith

flag_back : (b : Bool) → (flag b == 1) ≡ b
unfolding flag
flag_back true = refl
flag_back false = refl

width_le : (a : Addr) → 2 ^ bit_len a ≤ 2 ^ 128
width_le a = ground arith

checked-ok :
    (p : Prefix) → p.addr.value < 2 ^ bit_len p.addr → p.bits ≤ bit_len p.addr → checked p ≡ ok p
unfolding checked
checked-ok p h k =
    let e = lt→ltb _ _ h in
    let f : leb p.bits (bit_len p.addr) ≡ true = ground arith in rw (e, f) refl

IsChecked : Prefix → Type 0
IsChecked p = IsAddr p.addr × p.bits ≤ bit_len p.addr

checked-Fact : (p : Prefix) → Fact IsChecked (checked p)
unfolding checked IsChecked
checked-Fact p = elim (Bool-cases (ltb p.addr.value (2 ^ bit_len p.addr))) [
  | inr e ↦ rw e tt
  | inl e ↦ elim (Bool-cases (leb p.bits (bit_len p.addr))) [
    | inr f ↦ rw (e, f) tt
    | inl f ↦ rw (e, f) (ltb→lt _ _ e, leb→le _ _ f)
  ]
]

decode-encode : (p : Prefix) → IsPrefix p → decode (encode p) ≡ ok p
unfolding decode encode
decode-encode p wf =
    let pos = power_pos (bit_len p.addr - p.bits) in
    let inside : p.addr.value < 2 ^ bit_len p.addr = omega (arith, wf.inside) in
    let width = width_le p.addr in
    let few : p.bits < 2 ^ 8 = ground (arith, wf.narrow) in
    let a =
      number-digits 1 (flag p.addr.v6) (digits 128 p.addr.value (digits 8 p.bits ""))
        (flag_small p.addr.v6) in
    let b = number-digits 128 p.addr.value (digits 8 p.bits "") (omega arith) in
    let c = number-digits 8 p.bits "" few in
    rw (a, b, c, flag_back p.addr.v6) (checked-ok p inside wf.narrow)

decode-Fact : (s : String) → Fact IsChecked (decode s)
unfolding decode
decode-Fact s = checked-Fact _

laws : NetipLaws netip
unfolding IsChecked
laws = record {
  parse_text = decode-encode;
  parse_valid = λ s p e. subst (Fact IsChecked) e (decode-Fact s);
}

abbrev given : Env
given = record {
  netip = netip;
  database = λ n. none;
  now = λ n. n;
  new_id = λ prefix n. prefix;
  random_bytes = λ n. ok (1 ∷ 2 ∷ 3 ∷ 4 ∷ 5 ∷ []);
}

-- 10.20.0.0/16
abbrev block : Prefix
block = record { addr = record { v6 = false; value = 169082880 }; bits = 16 }

block-IsPrefix : IsPrefix block
block-IsPrefix = record { narrow = omega arith; place = 2580; aligned = refl; inside = omega arith }

-- 10.20.0.64/26
abbrev part : Prefix
part = record { addr = record { v6 = false; value = 169082944 }; bits = 26 }

part-IsPrefix : IsPrefix part
part-IsPrefix = record {
  narrow = omega arith;
  place = 2641921;
  aligned = refl;
  inside = omega arith;
}

-- fd00::/48
abbrev second_block : Prefix
second_block = record { addr = record { v6 = true; value = 253 * 2 ^ 120 }; bits = 48 }

abbrev params : CreateParams
params = record { project_id = "p"; name = "web"; cidr = encode block; cidr6 = encode second_block }

abbrev empty : World Tables
empty = record { tables = record { networks = []; slices = []; nics = [] }; moment = 0 }

empty-Sound : Sound given empty.tables
empty-Sound = (
  record {
    networks = tt;
    networks_apart = tt;
    slices = tt;
    slices_apart = tt;
    nics = tt;
    nics_apart = tt;
  },
  tt,
)

abbrev requests : List Request
requests = create_network params ∷ allocate_address "i1" "nw" "n1" ∷ view_of_node "n1" ∷ []

handle_all-Sound_example : Sound given (handle_all given requests empty).tables
handle_all-Sound_example = handle_all-Sound given laws requests empty empty-Sound

abbrev made : World Tables
made = handle_all given (create_network params ∷ []) empty

allocate-HeldBy_example :
    Post
      (λ w. IsValid netip w.tables)
      (λ n w. IsValid netip w.tables × HeldBy "i1" "nw" n w.tables)
      (allocate given "i1" "nw" "n1" made)
allocate-HeldBy_example =
    allocate-HeldBy given laws "i1" "nw" "n1" made
      (handle_all-Sound given laws (create_network params ∷ []) empty empty-Sound).0

next_slice-SliceFor_example :
    SliceFor netip block (encode part ∷ []) (next_slice netip block (encode part ∷ []))
next_slice-SliceFor_example = next_slice-SliceFor netip block (encode part ∷ []) block-IsPrefix

next_address-FirstFree_example :
    FirstFree
      (λ a. mem_str (netip.addr_text a) [])
      (host part)
      1
      (hosts_end part)
      (next_address netip part [])
next_address-FirstFree_example = next_address-FirstFree netip part [] part-IsPrefix

free_prefix-FirstFree_example :
    FirstFree
      (λ c. overlaps_any c (part ∷ []))
      (nth block 24)
      0
      (count block 24)
      (free_prefix netip block 24 (part ∷ []))
free_prefix-FirstFree_example =
    free_prefix-FirstFree netip block 24 (part ∷ []) block-IsPrefix (omega arith) (omega arith)

add_power_of_two-eq_example : add_power_of_two part.addr 6 ≡ plus_power part.addr 6
add_power_of_two-eq_example = add_power_of_two-eq part.addr 6 (omega arith)

-- What the loops find.
first_slice : next_slice netip block [] ≡ ok part
unfolding next_slice and_then advance advance_with add_power_of_two add_from add_carry to_bytes
    of_bytes masked first_free contains slice_bits_for
first_slice = refl
