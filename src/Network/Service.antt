-- ===== src/Network/Service.antt =====
-- service.go, the networks: create, remove, the default network of a project, and the reads.
use Prim.Native.Char.{code}
use marstack_cloud.Common.{
  ℕ, zero, suc, ◌/◌, ◌^◌, String, ◌<>◌, Bool, false, not, ◌&&◌, ◌||◌, List, [], ◌∷◌, Option, none,
  some, if◌then◌else◌, str_eq, ltb, leb, ◌==◌, itoa, pure, raise, lift, attempt, ◌>>=◌, ◌>>◌,
  when◌run◌otherwise◌, ask_at, is_error, refuse_if, fail_as,
}
use marstack_cloud.Fault.{Error, Kind, Result, ok, err, new_fault, internal_fault, error_text}
use marstack_cloud.Validate
use marstack_cloud.Network.Addresses.{Addr, Prefix, same_family, overlaps}
use marstack_cloud.Network.Ipam.{
  gateway_of, slice_bits_for, parse_prefix, overlaps_any, free_prefix,
}
use marstack_cloud.Network.Rows.{
  Network, Nic, CreateParams, Env, M, insert_network, network_by_name, network, list_networks,
  list_networks_in, count_nics, delete_network, nic,
}

abbrev pub default_name : String
default_name = "default"

abbrev pub default_cidr : String
default_cidr = "10.20.0.0/16"

abbrev pub supernet_cidr : String
supernet_cidr = "10.0.0.0/8"

abbrev pub project_bits : ℕ
project_bits = 16

-- The text after the first dash, or the whole text.
unfoldable pub after_dash : String → String → String
after_dash whole String.[] = whole
after_dash whole (String.◌∷◌ c s) = if code c == 45 then s else after_dash whole s

unfoldable pub first_chars : ℕ → String → String
first_chars zero s = String.[]
first_chars (suc n) String.[] = String.[]
first_chars (suc n) (String.◌∷◌ c s) = String.◌∷◌ c (first_chars n s)

unfoldable pub bridge_name : String → String
bridge_name id = "msbr-" <> first_chars 8 (after_dash id id)

unfoldable pub translate : Error → Error
translate e =
    if is_error "network not found" e
    then new_fault Kind.not_found "network_not_found" "no network with that id exists"
    else if is_error "network name already exists" e
    then new_fault Kind.conflict "network_name_taken" "a network with that name already exists"
    else if is_error "address already allocated" e
    then new_fault Kind.conflict "address_taken" "that address was allocated by another request"
    else internal_fault e

unfoldable pub translated : {A : Type 0} → M A → M A
translated m = fail_as translate m

-- `IsPrivate` of an IPv6 address: fc00::/7.
unfoldable pub is_unique_local : Addr → Bool
is_unique_local a = a.value / 2 ^ 121 == 126

unfoldable pub cidr_checked : Result Prefix → Result Prefix
cidr_checked (err e) = err (new_fault Kind.invalid "invalid_cidr" (error_text e))
cidr_checked (ok prefix) =
    if leb (slice_bits_for prefix) prefix.bits
    then err (
        new_fault Kind.invalid "invalid_cidr" (
          "the network must be larger than a single node slice, which is /"
          <> itoa (slice_bits_for prefix)
          <> " here"))
    else if prefix.addr.v6 && not (is_unique_local prefix.addr)
    then err (
        new_fault Kind.invalid "invalid_cidr" (
          "an IPv6 network must be a unique local address block under fc00::/7; a globally "
          <> "routable prefix handed to instances is not something this allocates for you"))
    else ok prefix

-- The second range, once it is parsed.
unfoldable pub cidr6_checked : Prefix → Result Prefix → Result (Option Prefix)
cidr6_checked prefix (err e) = err (new_fault Kind.invalid "invalid_cidr6" (error_text e))
cidr6_checked prefix (ok second) =
    if same_family second.addr prefix.addr
    then err (
        new_fault Kind.invalid "invalid_cidr6" (
          "the second range must be the other address family; a network carries at most "
          <> "one range per family and an instance takes one address from each"))
    else if second.addr.v6 && not (is_unique_local second.addr)
    then err (
        new_fault Kind.invalid "invalid_cidr6"
          "an IPv6 range must be a unique local address block under fc00::/7")
    else if leb (slice_bits_for second) second.bits
    then err (
        new_fault Kind.invalid "invalid_cidr6" (
          "the second range must be larger than a single node slice, which is /"
          <> itoa (slice_bits_for second)
          <> " here"))
    else ok (some second)

unfoldable pub second_of : Env → Prefix → String → Result (Option Prefix)
second_of env prefix cidr6 =
    if str_eq cidr6 "" then ok none else cidr6_checked prefix (parse_prefix env.netip cidr6)

unfoldable pub overlaps_second : Prefix → Option Prefix → Bool
overlaps_second held none = false
overlaps_second held (some second) = overlaps held second

-- The check of one range of another network; one that does not parse is passed over.
unfoldable pub held_overlaps : Prefix → Option Prefix → Result Prefix → Bool
held_overlaps prefix second (err e) = false
held_overlaps prefix second (ok held) = overlaps held prefix || overlaps_second held second

unfoldable pub range_overlaps : Env → Prefix → Option Prefix → String → Bool
range_overlaps env prefix second taken =
    not (str_eq taken "") && held_overlaps prefix second (parse_prefix env.netip taken)

unfoldable pub overlap_error : Network → String → Error
overlap_error other taken = new_fault Kind.conflict "network_overlaps" (
    "the range overlaps network " <> other.name <> " (" <> taken <> "), and every node "
    <> "routes to a peer slice by its prefix, so two networks cannot share one")

unfoldable pub check_overlaps : Env → Prefix → Option Prefix → List Network → Result (Unit {0})
check_overlaps env prefix second [] = ok tt
check_overlaps env prefix second (other ∷ existing) =
    if range_overlaps env prefix second other.cidr
    then err (overlap_error other other.cidr)
    else if range_overlaps env prefix second other.cidr6
    then err (overlap_error other other.cidr6)
    else check_overlaps env prefix second existing

abbrev pub text_of : (Prefix → String) → Option Prefix → String
text_of text none = ""
text_of text (some p) = text p

unfoldable pub new_network : Env → CreateParams → String → ℕ → Prefix → Option Prefix → Network
new_network env params id now prefix second = record {
  id = id;
  project_id = params.project_id;
  name = params.name;
  cidr = env.netip.prefix_text prefix;
  gateway = env.netip.addr_text (gateway_of prefix);
  cidr6 = text_of env.netip.prefix_text second;
  gateway6 = text_of (λ p. env.netip.addr_text (gateway_of p)) second;
  bridge = bridge_name id;
  created_at = now;
}

unfoldable pub create : Env → CreateParams → M Network
create env params = do
  lift (Validate.name "name" params.name)
  prefix ← lift (
      cidr_checked
        (parse_prefix env.netip (if str_eq params.cidr "" then default_cidr else params.cidr)))
  second ← lift (second_of env prefix params.cidr6)
  existing ← translated (list_networks env)
  lift (check_overlaps env prefix second existing)
  id ← ask_at (λ n. ok (env.new_id "nw" n))
  now ← ask_at (λ n. ok (env.now n))
  translated (insert_network env (new_network env params id now prefix second))
  pure (new_network env params id now prefix second)

unfoldable pub exists_with : String → Result Network → M Bool
exists_with project_id (ok n) = pure (str_eq n.project_id project_id)
exists_with project_id (err e) =
    when is_error "network not found" e run pure false otherwise raise e

unfoldable pub exists_in : Env → String → String → M Bool
exists_in env id project_id = do r ← attempt (network env id); exists_with project_id r

unfoldable pub nic_of : Env → String → M Nic
nic_of env instance_id = translated (nic env instance_id)

unfoldable pub get : Env → String → M Network
get env id = translated (network env id)

unfoldable pub get_in : Env → String → String → M Network
get_in env id project_id = do
  n ← get env id
  refuse_if (not (str_eq n.project_id project_id))
      (new_fault Kind.not_found "network_not_found" "no network with that id exists")
  pure n

unfoldable pub remove : Env → String → String → M Unit
remove env id project_id = do
  get_in env id project_id
  attached ← translated (count_nics env id)
  refuse_if (ltb 0 attached) (
      new_fault Kind.conflict "network_in_use"
        "the network still has addresses handed out to instances")
  translated (delete_network env id)

-- The ranges that parse.
unfoldable pub held_ranges : Env → List Network → List Prefix
held_ranges env [] = []
held_ranges env (other ∷ existing) =
    let rest = held_ranges env existing in
    elim (parse_prefix env.netip other.cidr) [ ok p ↦ p ∷ rest | err e ↦ rest ]

abbrev pub or_error : (Error → Error) → Result Prefix → M Prefix
or_error f (ok p) = pure p
or_error f (err e) = raise (f e)

unfoldable pub free_of_supernet : Env → List Network → M String
free_of_supernet env existing = do
  supernet ← or_error internal_fault (parse_prefix env.netip supernet_cidr)
  free ←
      or_error (λ e. new_fault Kind.conflict "address_space_exhausted" (error_text e))
        (free_prefix env.netip supernet project_bits (held_ranges env existing))
  pure (env.netip.prefix_text free)

unfoldable pub free_default_cidr : Env → M String
free_default_cidr env = do
  existing ← translated (list_networks env)
  preferred ← or_error internal_fault (parse_prefix env.netip default_cidr)
  when not (overlaps_any preferred (held_ranges env existing))
      run pure (env.netip.prefix_text preferred)
      otherwise free_of_supernet env existing

unfoldable pub create_default : Env → String → M Network
create_default env project_id = do
  cidr ← free_default_cidr env
  create env (record { project_id = project_id; name = default_name; cidr = cidr; cidr6 = "" })

unfoldable pub default_with : Env → String → Result Network → M Network
default_with env project_id (ok existing) = pure existing
default_with env project_id (err e) =
    when is_error "network not found" e
    run create_default env project_id
    otherwise raise (translate e)

unfoldable pub ensure_default_for : Env → String → M Network
ensure_default_for env project_id = do
  r ← attempt (network_by_name env project_id default_name)
  default_with env project_id r

unfoldable pub list_all : Env → M (List Network)
list_all env = translated (list_networks env)

unfoldable pub list_in : Env → String → M (List Network)
list_in env project_id = translated (list_networks_in env project_id)
