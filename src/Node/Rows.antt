-- ===== src/Node/Rows.antt =====
-- types.go and repository.go: the three tables, and the statements on them, each of which fails without
-- an effect. The rows are typed, so that reading one back cannot fail. Times are nanoseconds.
use marstack_cloud.Common.{
  ℕ, ◌+◌, String, Bool, true, false, not, ◌&&◌, ◌||◌, List, [], ◌∷◌, Option, if◌then◌else◌, str_eq,
  str_lt, leb, keep_if, sort_stable, map, any_of, first_row, pure, lift, ◌>>=◌, ◌>>◌, On, run_sql,
  read_tables, write_tables, refuse_if,
}
use marstack_cloud.Common.Int.{ℤ}
use marstack_cloud.Fault.{Error, plain, wrapped}

pub data Status : Type 0 where
  ready unreachable : Status

-- `ReadyWindow`: 30 s.
abbrev pub ready_window : ℕ
ready_window = 30000000000

pub record Node : Type 0 where
  pub id : String
  pub schedulable : Bool
  pub draining : Bool
  pub name : String
  pub zone : String
  pub address : String
  pub arch : String
  pub os : String
  pub cpus : ℤ
  pub memory_mib : ℤ
  pub agent_version : String
  pub labels : List (String × String)
  pub registered_at : ℕ
  pub last_seen_at : ℕ

abbrev pub max_labels : ℕ
max_labels = 32

-- A missing key reads as the empty text.
unfoldable pub label_of : List (String × String) → String → String
label_of [] key = ""
label_of ((k, v) ∷ labels) key = if str_eq k key then v else label_of labels key

-- `Matches`
unfoldable pub matches : Node → List (String × String) → Bool
matches n [] = true
matches n ((key, want) ∷ selector) =
    if not (str_eq (label_of n.labels key) want) then false else matches n selector

-- `StatusAt`
unfoldable pub status_at : Node → ℕ → Status
status_at n now =
    if leb now (n.last_seen_at + ready_window) then Status.ready else Status.unreachable

pub record RegisterParams : Type 0 where
  pub name : String
  pub zone : String
  pub address : String
  pub arch : String
  pub os : String
  pub cpus : ℤ
  pub memory_mib : ℤ
  pub agent_version : String

pub record Device : Type 0 where
  pub node_id : String
  pub address : String
  pub kind : String
  pub vendor : String
  pub product : String
  pub driver : String
  pub ready : Bool
  pub instance_id : String

pub record Label : Type 0 where
  pub node_id : String
  pub key : String
  pub value : String

pub record Tables : Type 0 where
  pub nodes : List Node
  pub labels : List Label
  pub devices : List Device

-- What the service is given: the errors of the database and the one of a second row under a unique
-- index, the clock, the identifiers, and whether net/netip parses an address.
pub record Env : Type 0 where
  pub database : ℕ → Option Error
  pub duplicate : Error
  pub now : ℕ → ℕ
  pub new_id : String → ℕ → String
  pub is_address : String → Bool

abbrev pub M : Type 0 → Type 0
M A = On Tables A

abbrev pub not_found : Error
not_found = plain "node not found"

unfoldable pub statement : Env → String → M Unit
statement env label = run_sql env.database label

unfoldable pub query : {A : Type 0} → Env → String → (Tables → A) → M A
query env label select = do statement env label; read_tables select

unfoldable pub find_by_name : Env → String → M Node
find_by_name env name = do
  r ← query env "find node by name" (λ t. first_row not_found (λ n. str_eq n.name name) t.nodes)
  lift r

unfoldable pub get_row : Env → String → M Node
get_row env id = do
  r ← query env "get node" (λ t. first_row not_found (λ n. str_eq n.id id) t.nodes)
  lift r

-- The identifier is the primary key, and nodes_name_unique has the names.
unfoldable pub insert_node : Env → Node → M Unit
insert_node env n = do
  statement env "insert node"
  held ← read_tables (λ t. any_of (λ m. str_eq m.id n.id || str_eq m.name n.name) t.nodes)
  refuse_if held (wrapped "insert node" env.duplicate)
  write_tables (λ t. record t { nodes = n ∷ t.nodes })

unfoldable pub change_node : String → (Node → Node) → Tables → Tables
change_node id f t = record t { nodes = map (λ n. if str_eq n.id id then f n else n) t.nodes }

unfoldable pub has_node : String → Tables → Bool
has_node id t = any_of (λ n. str_eq n.id id) t.nodes

-- An update of one row, and the count of the rows that it changed. The update stands though the count
-- fails.
unfoldable pub update_one : Env → String → String → String → (Node → Node) → M Unit
update_one env label counting id f = do
  statement env label
  known ← read_tables (has_node id)
  write_tables (change_node id f)
  statement env counting
  refuse_if (not known) not_found

unfoldable pub set_schedulable : Env → String → Bool → Bool → M Unit
set_schedulable env id schedulable draining =
    update_one env "set the node schedulable flag" "set the node schedulable flag" id
      (λ n. record n { schedulable = schedulable; draining = draining })

unfoldable pub set_draining_row : Env → String → Bool → M Unit
set_draining_row env id draining = do
  statement env "set the node draining flag"
  write_tables (change_node id (λ n. record n { draining = draining }))

unfoldable pub update_on_register : Env → Node → M Unit
update_on_register env m = update_one env "update node on register" "rows affected" m.id (λ n.
    record n {
      zone = m.zone;
      address = m.address;
      arch = m.arch;
      os = m.os;
      cpus = m.cpus;
      memory_mib = m.memory_mib;
      agent_version = m.agent_version;
      last_seen_at = m.last_seen_at;
    })

unfoldable pub touch : Env → String → ℕ → M Unit
touch env id now =
    update_one env "touch node" "rows affected" id (λ n. record n { last_seen_at = now })

unfoldable pub list_rows : Env → M (List Node)
list_rows env = query env "list nodes" (λ t. sort_stable (λ n m. str_lt n.name m.name) t.nodes)

unfoldable pub labels_in : String → List Label → List (String × String)
labels_in node_id labels =
    map (λ l. (l.key, l.value))
      (sort_stable (λ l m. str_lt l.key m.key) (keep_if (λ l. str_eq l.node_id node_id) labels))

unfoldable pub labels_for : Env → String → M (List (String × String))
labels_for env node_id = query env "read node labels" (λ t. labels_in node_id t.labels)

unfoldable pub all_labels : Env → M (List Label)
all_labels env = query env "read every node label" (λ t. t.labels)

unfoldable pub write_labels : Env → String → List (String × String) → List Label → M (List Label)
write_labels env node_id [] rows = pure rows
write_labels env node_id ((key, value) ∷ labels) rows = do
  statement env "write node label"
  refuse_if (any_of (λ l. str_eq l.node_id node_id && str_eq l.key key) rows)
      (wrapped "write node label" env.duplicate)
  write_labels env node_id labels (record { node_id = node_id; key = key; value = value } ∷ rows)

-- One transaction, which has no effect where any statement of it fails.
unfoldable pub replace_labels : Env → String → List (String × String) → M Unit
replace_labels env node_id labels = do
  statement env "begin"
  statement env "clear node labels"
  kept ← read_tables (λ t. keep_if (λ l. not (str_eq l.node_id node_id)) t.labels)
  rows ← write_labels env node_id labels kept
  statement env "commit node labels"
  write_tables (λ t. record t { labels = rows })
