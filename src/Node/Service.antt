-- ===== src/Node/Service.antt =====
-- service.go: registering, heartbeats, cordon and drain, and labels.
use marstack_cloud.Common.{
  ℕ, String, ◌<>◌, Bool, true, false, not, ◌&&◌, List, [], ◌∷◌, if◌then◌else◌, str_eq, ltb, itoa,
  length, map, pure, raise, lift, attempt, ◌>>=◌, ◌>>◌, when◌run◌otherwise◌, ask_at, is_error,
  fail_as,
}
use marstack_cloud.Common.Int.{ℤ, pos, ltbℤ, itoaℤ}
use marstack_cloud.Fault.{Error, Kind, Result, ok, err, new_fault, internal_fault}
use marstack_cloud.Validate
use marstack_cloud.Node.Rows.{
  Node, RegisterParams, Label, Env, M, max_labels, find_by_name, get_row, insert_node,
  set_schedulable, set_draining_row, update_on_register, touch, list_rows, labels_in, labels_for,
  all_labels, replace_labels,
}

abbrev pub min_cpus : ℤ
min_cpus = pos 1

abbrev pub min_memory_mib : ℤ
min_memory_mib = pos 128

unfoldable pub translate : Error → Error
translate e =
    if is_error "node not found" e
    then new_fault Kind.not_found "node_not_found" "no node with that id exists"
    else internal_fault e

unfoldable pub translated : {A : Type 0} → M A → M A
translated m = fail_as translate m

unfoldable pub get : Env → String → M Node
get env id = do
  n ← translated (get_row env id)
  labels ← translated (labels_for env n.id)
  pure (record n { labels = labels })

unfoldable pub cordon : Env → String → Bool → M Node
cordon env id schedulable = do
  found ← get env id
  translated (set_schedulable env found.id schedulable false)
  get env found.id

unfoldable pub drain : Env → String → M Node
drain env id = do
  found ← get env id
  translated (set_schedulable env found.id false true)
  get env found.id

unfoldable pub set_draining : Env → String → Bool → M Unit
set_draining env id draining = translated (set_draining_row env id draining)

-- The checks of a registration, in order.
unfoldable pub first_error : List (Bool × Result (Unit {0})) → Result (Unit {0})
first_error [] = ok tt
first_error ((applies, r) ∷ rest) =
    let others = first_error rest in
    if applies then elim r [ ok _ ↦ others | err e ↦ err e ] else others

abbrev invalid : String → String → Result (Unit {0})
invalid code message = err (new_fault Kind.invalid code message)

unfoldable pub validate_register : Env → RegisterParams → Result (Unit {0})
validate_register env params = first_error (
    (true, Validate.name "name" params.name)
    ∷ (not (str_eq params.zone ""), Validate.name "zone" params.zone)
    ∷ (
      not (str_eq params.address "") && not (env.is_address params.address),
      invalid "invalid_address" "address must be a bare IP the other nodes can reach",
    )
    ∷ (str_eq params.arch "", invalid "invalid_arch" "arch must not be empty")
    ∷ (str_eq params.os "", invalid "invalid_os" "os must not be empty")
    ∷ (
      ltbℤ params.cpus min_cpus,
      invalid "invalid_cpus" ("cpus must be at least " <> itoaℤ min_cpus),
    )
    ∷ (
      ltbℤ params.memory_mib min_memory_mib,
      invalid "invalid_memory" ("memory_mib must be at least " <> itoaℤ min_memory_mib),
    )
    ∷ [])

unfoldable pub reregistered : RegisterParams → ℕ → Node → Node
reregistered params now n = record n {
  zone = params.zone;
  address = params.address;
  arch = params.arch;
  os = params.os;
  cpus = params.cpus;
  memory_mib = params.memory_mib;
  agent_version = params.agent_version;
  last_seen_at = now;
}

unfoldable pub new_node : RegisterParams → ℕ → String → Node
new_node params now id = record {
  id = id;
  schedulable = true;
  draining = false;
  name = params.name;
  zone = params.zone;
  address = params.address;
  arch = params.arch;
  os = params.os;
  cpus = params.cpus;
  memory_mib = params.memory_mib;
  agent_version = params.agent_version;
  labels = [];
  registered_at = now;
  last_seen_at = now;
}

unfoldable pub register_new : Env → RegisterParams → ℕ → M Node
register_new env params now = do
  id ← ask_at (λ n. ok (env.new_id "n" n))
  translated (insert_node env (new_node params now id))
  pure (new_node params now id)

unfoldable pub register_with : Env → RegisterParams → ℕ → Result Node → M Node
register_with env params now (ok existing) = do
  translated (update_on_register env (reregistered params now existing))
  pure (reregistered params now existing)
register_with env params now (err e) =
    when is_error "node not found" e run register_new env params now otherwise raise (translate e)

unfoldable pub register : Env → RegisterParams → M Node
register env params = do
  lift (validate_register env params)
  now ← ask_at (λ n. ok (env.now n))
  r ← attempt (find_by_name env params.name)
  register_with env params now r

unfoldable pub heartbeat : Env → String → M Node
heartbeat env id = do now ← ask_at (λ n. ok (env.now n)); translated (touch env id now); get env id

unfoldable pub labelled_as : List Label → Node → Node
labelled_as labels n = record n { labels = labels_in n.id labels }

unfoldable pub list_nodes : Env → M (List Node)
list_nodes env = do
  nodes ← translated (list_rows env)
  labels ← translated (all_labels env)
  pure (map (labelled_as labels) nodes)

unfoldable pub check_labels : List (String × String) → Result (Unit {0})
check_labels [] = ok tt
check_labels ((key, value) ∷ labels) =
    let rest = check_labels labels in
    elim (Validate.name "label_key" key) [
      | err e ↦ err e
      | ok _ ↦ elim (Validate.name "label_value" value) [ err e ↦ err e | ok _ ↦ rest ]
    ]

unfoldable pub validate_labels : List (String × String) → Result (Unit {0})
validate_labels labels =
    if ltb max_labels (length labels)
    then err (
        new_fault Kind.invalid "too_many_labels" (
          "a node carries at most "
          <> itoa max_labels
          <> " labels, and "
          <> itoa (length labels)
          <> " were given"))
    else check_labels labels

unfoldable pub set_labels : Env → String → List (String × String) → M Node
set_labels env id labels = do
  lift (validate_labels labels)
  found ← get env id
  translated (replace_labels env found.id labels)
  get env found.id
