-- ===== src/Network/Leases.antt =====
-- service.go, the slices and the addresses: ensureSlice, allocate, release and nodeView.
use marstack_cloud.Common.{
  ℕ, zero, suc, ◌-◌, ◌/◌, ◌%◌, String, ◌<>◌, List, [], ◌∷◌, if◌then◌else◌, str_eq, mem_str, ltb,
  leb, itoa, keep_if, pure, raise, lift, attempt, ◌>>=◌, ◌>>◌, when◌run◌otherwise◌, ask_at,
  is_error, refuse_if,
}
use marstack_cloud.Fault.{
  Error, Kind, Result, ok, err, wrapped, new_fault, internal_fault, error_text,
}
use marstack_cloud.Network.Ipam.{parse_prefix, next_slice, next_address}
use marstack_cloud.Network.Rows.{
  Network, Slice, Nic, Env, M, max_nics, dual_stack, slice, taken_slices, taken_slices6,
  taken_addresses, taken_addresses6, slices_except, insert_slice, insert_nic, nics_of, nics_on_node,
  delete_nic,
}
use marstack_cloud.Network.Service.{translate, translated, get}

abbrev pub chosen {ℓ} : {A : Type ℓ} → (Error → Error) → Result A → Result A
chosen f (ok a) = ok a
chosen f (err e) = err (f e)

abbrev pub exhausted : String → Error → Error
exhausted code e = new_fault Kind.conflict code (error_text e)

-- The range that a new slice takes of the network's range.
unfoldable pub choose_slice : Env → String → M (List String) → M String
choose_slice env cidr read = do
  prefix ← lift (chosen internal_fault (parse_prefix env.netip cidr))
  taken ← translated read
  candidate ← lift (chosen (exhausted "network_exhausted") (next_slice env.netip prefix taken))
  pure (env.netip.prefix_text candidate)

unfoldable pub choose_second : Env → String → Network → M String
choose_second env network_id n =
    when dual_stack n run choose_slice env n.cidr6 (taken_slices6 env network_id) otherwise pure ""

-- Another request took the range: the slice is the one that is there now.
unfoldable pub inserted : Env → Slice → Result (Unit {0}) → M Slice
inserted env s (ok _) = pure s
inserted env s (err e) =
    when is_error "address already allocated" e
    run slice env s.network_id s.node_id
    otherwise raise (translate e)

unfoldable pub make_slice : Env → String → String → M Slice
make_slice env network_id node_id = do
  n ← get env network_id
  cidr ← choose_slice env n.cidr (taken_slices env network_id)
  now ← ask_at (λ m. ok (env.now m))
  cidr6 ← choose_second env network_id n
  let s : Slice = record {
    network_id = network_id;
    node_id = node_id;
    cidr = cidr;
    cidr6 = cidr6;
    created_at = now;
  }
  r ← attempt (insert_slice env s)
  inserted env s r

unfoldable pub slice_with : Env → String → String → Result Slice → M Slice
slice_with env network_id node_id (ok existing) = pure existing
slice_with env network_id node_id (err e) =
    when is_error "network not found" e
    run make_slice env network_id node_id
    otherwise raise (translate e)

unfoldable pub ensure_slice : Env → String → String → M Slice
ensure_slice env network_id node_id = do
  r ← attempt (slice env network_id node_id)
  slice_with env network_id node_id r

-- The interface that the instance has in the network already, or the number of the next one.
pub data Held : Type 0 where
  attached : Nic → Held
  next_device : ℕ → Held

unfoldable pub next_free : String → List Nic → ℕ → Held
next_free network_id [] device = next_device device
next_free network_id (n ∷ held) device =
    if str_eq n.network_id network_id
    then attached n
    else next_free network_id held (if leb device n.device then suc n.device else device)

abbrev pub hex_digit : ℕ → String
hex_digit n = if ltb n 10 then itoa n else elim (n - 10) [
  | zero ↦ "a"
  | suc zero ↦ "b"
  | suc (suc zero) ↦ "c"
  | suc (suc (suc zero)) ↦ "d"
  | suc (suc (suc (suc zero))) ↦ "e"
  | suc (suc (suc (suc (suc _)))) ↦ "f"
]

-- `strings.Join(parts, ":")`, of the bytes in two digits.
unfoldable pub mac_text : List ℕ → String
mac_text [] = ""
mac_text (b ∷ bs) = ":" <> hex_digit (b / 16) <> hex_digit (b % 16) <> mac_text bs

unfoldable pub random_mac : Result (List ℕ) → Result String
random_mac (ok bytes) = ok ("02" <> mac_text bytes)
random_mac (err e) = err (wrapped "generate mac" e)

unfoldable pub choose_address : Env → String → M (List String) → M String
choose_address env cidr read = do
  prefix ← lift (chosen internal_fault (parse_prefix env.netip cidr))
  taken ← translated read
  address ← lift (chosen (exhausted "slice_exhausted") (next_address env.netip prefix taken))
  pure (env.netip.addr_text address)

unfoldable pub choose_address6 : Env → String → String → M String
choose_address6 env network_id cidr6 =
    when str_eq cidr6 ""
    run pure ""
    otherwise choose_address env cidr6 (taken_addresses6 env network_id)

unfoldable pub attach : Env → String → String → String → ℕ → M Nic
attach env instance_id network_id node_id device = do
  refuse_if (leb max_nics device) (
      new_fault Kind.conflict "too_many_nics"
        ("an instance carries at most " <> itoa max_nics <> " interfaces"))
  s ← ensure_slice env network_id node_id
  ip ← choose_address env s.cidr (taken_addresses env network_id)
  mac ← ask_at (λ n. chosen internal_fault (random_mac (env.random_bytes n)))
  ip6 ← choose_address6 env network_id s.cidr6
  now ← ask_at (λ n. ok (env.now n))
  let nic : Nic = record {
    instance_id = instance_id;
    network_id = network_id;
    device = device;
    node_id = node_id;
    ip = ip;
    ip6 = ip6;
    mac = mac;
    created_at = now;
  }
  translated (insert_nic env nic)
  pure nic

unfoldable pub allocate_with : Env → String → String → String → Held → M Nic
allocate_with env instance_id network_id node_id (attached n) = pure n
allocate_with env instance_id network_id node_id (next_device device) =
    attach env instance_id network_id node_id device

unfoldable pub allocate : Env → String → String → String → M Nic
allocate env instance_id network_id node_id = do
  held ← translated (nics_of env instance_id)
  allocate_with env instance_id network_id node_id (next_free network_id held 0)

unfoldable pub release : Env → String → M Unit
release env instance_id = translated (delete_nic env instance_id)

pub record NodeNetwork : Type 0 where
  pub network : Network
  pub slice : Slice
  pub nics : List Nic
  pub peers : List Slice

-- The networks of the interfaces, in the order of their first.
unfoldable pub networks_of : List String → List Nic → List String
networks_of seen [] = []
networks_of seen (n ∷ nics) =
    if mem_str n.network_id seen
    then networks_of seen nics
    else n.network_id ∷ networks_of (n.network_id ∷ seen) nics

unfoldable pub views_of : Env → String → List Nic → List String → M (List NodeNetwork)
views_of env node_id nics [] = pure []
views_of env node_id nics (network_id ∷ order) = do
  n ← get env network_id
  s ← ensure_slice env network_id node_id
  peers ← translated (slices_except env network_id node_id)
  rest ← views_of env node_id nics order
  pure (
      record {
        network = n;
        slice = s;
        nics = keep_if (λ n. str_eq n.network_id network_id) nics;
        peers = peers;
      }
      ∷ rest)

unfoldable pub node_view : Env → String → M (List NodeNetwork)
node_view env node_id = do
  nics ← translated (nics_on_node env node_id)
  views_of env node_id nics (networks_of [] nics)
