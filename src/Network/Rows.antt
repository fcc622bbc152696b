-- ===== src/Network/Rows.antt =====
-- types.go and repository.go, with the unique indexes of module.go: the three tables, and the
-- statements on them, each of which fails without an effect. The rows are typed, so that reading one
-- back cannot fail.
use marstack_cloud.Common.{
  ℕ, String, Bool, not, ◌&&◌, ◌||◌, List, [], ◌∷◌, Option, none, some, str_eq, str_lt, ltb, ◌==◌,
  keep_if, sort_stable, length, map, raise, lift, ◌>>=◌, ◌>>◌, when◌run◌otherwise◌, On, ask_at,
  any_of, first_row, run_sql, read_tables, write_tables,
}
use marstack_cloud.Fault.{Error, Result, ok, err, plain}
use marstack_cloud.Network.Ipam.{Netip}

pub record Network : Type 0 where
  pub id : String
  pub project_id : String
  pub name : String
  pub cidr : String
  pub gateway : String
  pub cidr6 : String
  pub gateway6 : String
  pub bridge : String
  pub created_at : ℕ

-- `DualStack`
unfoldable pub dual_stack : Network → Bool
dual_stack n = not (str_eq n.cidr6 "")

pub record Slice : Type 0 where
  pub network_id : String
  pub node_id : String
  pub cidr : String
  pub cidr6 : String
  pub created_at : ℕ

pub record Nic : Type 0 where
  pub instance_id : String
  pub network_id : String
  pub device : ℕ
  pub node_id : String
  pub ip : String
  pub ip6 : String
  pub mac : String
  pub created_at : ℕ

pub record CreateParams : Type 0 where
  pub project_id : String
  pub name : String
  pub cidr : String
  pub cidr6 : String

abbrev pub max_nics : ℕ
max_nics = 4

pub record Tables : Type 0 where
  pub networks : List Network
  pub slices : List Slice
  pub nics : List Nic

-- What the service is given: the texts of net/netip, the errors of the database, the clock, the
-- identifiers and the random bytes.
pub record Env : Type 0 where
  pub netip : Netip
  pub database : ℕ → Option Error
  pub now : ℕ → ℕ
  pub new_id : String → ℕ → String
  pub random_bytes : ℕ → Result (List ℕ)

abbrev pub M : Type 0 → Type 0
M A = On Tables A

abbrev pub not_found : Error
not_found = plain "network not found"

abbrev pub name_taken : Error
name_taken = plain "network name already exists"

abbrev pub cidr_taken : Error
cidr_taken = plain "address already allocated"

unfoldable pub statement : Env → String → M Unit
statement env label = run_sql (env.database) label

-- A statement that selects.
unfoldable pub query : {A : Type 0} → Env → String → (Tables → A) → M A
query env label select = do statement env label; read_tables select

-- A statement that inserts a row, unless a unique index has one like it.
unfoldable pub insert_unless : Env → String → Error → (Tables → Bool) → (Tables → Tables) → M Unit
insert_unless env label taken clash change = do
  statement env label
  held ← read_tables clash
  when held run raise taken otherwise write_tables change

-- The primary key, and the indexes networks_name_unique and networks_cidr_unique.
unfoldable pub network_clash : Network → Network → Bool
network_clash n m =
    str_eq m.id n.id
    || ((str_eq m.project_id n.project_id && str_eq m.name n.name) || str_eq m.cidr n.cidr)

unfoldable pub insert_network : Env → Network → M Unit
insert_network env n =
    insert_unless env "insert network" name_taken (λ t. any_of (network_clash n) t.networks)
      (λ t. record t { networks = n ∷ t.networks })

unfoldable pub selected : {A : Type 0} → (Tables → Result A) → Env → String → M A
selected select env label = do r ← query env label select; lift r

unfoldable pub network_by_name : Env → String → String → M Network
network_by_name env project_id name =
    selected
      (λ t.
        first_row not_found (λ n. str_eq n.project_id project_id && str_eq n.name name) t.networks)
      env "read network"

unfoldable pub network : Env → String → M Network
network env id =
    selected (λ t. first_row not_found (λ n. str_eq n.id id) t.networks) env "read network"

unfoldable pub list_networks : Env → M (List Network)
list_networks env =
    query env "list networks" (λ t. sort_stable (λ n m. str_lt n.name m.name) t.networks)

unfoldable pub list_networks_in : Env → String → M (List Network)
list_networks_in env project_id = query env "list networks in project" (λ t.
    sort_stable (λ n m. str_lt n.name m.name)
      (keep_if (λ n. str_eq n.project_id project_id) t.networks))

unfoldable pub slice : Env → String → String → M Slice
slice env network_id node_id =
    selected
      (λ t.
        first_row not_found (λ s. str_eq s.network_id network_id && str_eq s.node_id node_id)
          t.slices)
      env "read slice"

unfoldable pub taken_slices : Env → String → M (List String)
taken_slices env network_id =
    query env "list slices"
      (λ t. map (λ s. s.cidr) (keep_if (λ s. str_eq s.network_id network_id) t.slices))

unfoldable pub taken_slices6 : Env → String → M (List String)
taken_slices6 env network_id = query env "list second slices" (λ t.
    map (λ s. s.cidr6)
      (keep_if (λ s. str_eq s.network_id network_id && not (str_eq s.cidr6 "")) t.slices))

unfoldable pub taken_addresses6 : Env → String → M (List String)
taken_addresses6 env network_id = query env "list second addresses" (λ t.
    map (λ n. n.ip6)
      (keep_if (λ n. str_eq n.network_id network_id && not (str_eq n.ip6 "")) t.nics))

unfoldable pub slices_except : Env → String → String → M (List Slice)
slices_except env network_id node_id = query env "list peer slices" (λ t.
    sort_stable (λ s r. str_lt s.cidr r.cidr)
      (keep_if (λ s. str_eq s.network_id network_id && not (str_eq s.node_id node_id)) t.slices))

-- The primary key, and the index node_slices_cidr_unique.
unfoldable pub slice_clash : Slice → Slice → Bool
slice_clash s r =
    str_eq r.network_id s.network_id && (str_eq r.node_id s.node_id || str_eq r.cidr s.cidr)

unfoldable pub insert_slice : Env → Slice → M Unit
insert_slice env s =
    insert_unless env "insert slice" cidr_taken (λ t. any_of (slice_clash s) t.slices)
      (λ t. record t { slices = s ∷ t.slices })

unfoldable pub count_nics : Env → String → M ℕ
count_nics env network_id =
    query env "count nics" (λ t. length (keep_if (λ n. str_eq n.network_id network_id) t.nics))

unfoldable pub drop_network : String → Tables → Tables
drop_network id t = record t {
  networks = keep_if (λ n. not (str_eq n.id id)) t.networks;
  slices = keep_if (λ s. not (str_eq s.network_id id)) t.slices;
}

-- One transaction, which has no effect where a statement of it, or its end, fails.
unfoldable pub delete_network : Env → String → M Unit
delete_network env id = do
  statement env "begin"
  statement env "delete node slices"
  statement env "delete network"
  ask_at (λ n. elim (env.database n) [ none ↦ ok tt | some e ↦ err e ])
  write_tables (drop_network id)

unfoldable pub by_device : Nic → Nic → Bool
by_device n m = ltb n.device m.device

unfoldable pub head_nic : List Nic → Result Nic
head_nic [] = err not_found
head_nic (n ∷ ns) = ok n

unfoldable pub nics_held : String → Tables → List Nic
nics_held instance_id t =
    sort_stable by_device (keep_if (λ n. str_eq n.instance_id instance_id) t.nics)

unfoldable pub nic : Env → String → M Nic
nic env instance_id = selected (λ t. head_nic (nics_held instance_id t)) env "read nic"

unfoldable pub taken_addresses : Env → String → M (List String)
taken_addresses env network_id =
    query env "list addresses"
      (λ t. map (λ n. n.ip) (keep_if (λ n. str_eq n.network_id network_id) t.nics))

-- The primary key, and the indexes nics_address_unique and nics_device_unique.
unfoldable pub nic_clash : Nic → Nic → Bool
nic_clash n m =
    (str_eq m.instance_id n.instance_id
      && (str_eq m.network_id n.network_id || (m.device == n.device)))
    || (str_eq m.network_id n.network_id && str_eq m.ip n.ip)

unfoldable pub insert_nic : Env → Nic → M Unit
insert_nic env n =
    insert_unless env "insert nic" cidr_taken (λ t. any_of (nic_clash n) t.nics)
      (λ t. record t { nics = n ∷ t.nics })

unfoldable pub nics_on_node : Env → String → M (List Nic)
nics_on_node env node_id =
    query env "list nics on node"
      (λ t. sort_stable (λ n m. str_lt n.ip m.ip) (keep_if (λ n. str_eq n.node_id node_id) t.nics))

unfoldable pub nics_of : Env → String → M (List Nic)
nics_of env instance_id = query env "list the nics of an instance" (nics_held instance_id)

unfoldable pub delete_nic : Env → String → M Unit
delete_nic env instance_id = do
  statement env "delete nic"
  write_tables
      (λ t. record t { nics = keep_if (λ n. not (str_eq n.instance_id instance_id)) t.nics })
