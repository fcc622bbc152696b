-- ===== src/Node/Devices.antt =====
-- device.go, and the statements on devices of repository.go.
use marstack_cloud.Common.{
  ℕ, String, ◌<>◌, Bool, false, not, ◌&&◌, List, [], ◌∷◌, Option, none, some, if◌then◌else◌, str_eq,
  str_lt, mem_str, trim_space, ltb, ◌==◌, itoa, length, map, keep_if, sort_stable, any_of, pure,
  raise, lift, ◌>>=◌, ◌>>◌, when◌run◌otherwise◌, ask_at, read_tables, write_tables, refuse_if,
}
use marstack_cloud.Fault.{Kind, Result, ok, err, wrapped, new_fault}
use marstack_cloud.Node.Rows.{Device, Env, M, statement, query}

abbrev pub max_devices_per_node : ℕ
max_devices_per_node = 64

abbrev pub is_at : String → String → Device → Bool
is_at node_id address d = str_eq d.node_id node_id && str_eq d.address address

-- `ORDER BY address`
abbrev pub by_address : Device → Device → Bool
by_address d e = str_lt d.address e.address

abbrev pub by_node : Device → Device → Bool
by_node d e =
    if str_eq d.node_id e.node_id then str_lt d.address e.address else str_lt d.node_id e.node_id

unfoldable pub query_devices : Env → (List Device → List Device) → M (List Device)
query_devices env select = query env "list devices" (λ t. select t.devices)

unfoldable pub devices : Env → M (List Device)
devices env = query_devices env (sort_stable by_node)

unfoldable pub on_node : String → List Device → List Device
on_node node_id ds = sort_stable by_address (keep_if (λ d. str_eq d.node_id node_id) ds)

unfoldable pub devices_on : Env → String → M (List Device)
devices_on env node_id = query_devices env (on_node node_id)

unfoldable pub devices_of_instance : Env → String → M (List Device)
devices_of_instance env instance_id =
    query_devices env
      (λ ds. sort_stable by_address (keep_if (λ d. str_eq d.instance_id instance_id) ds))

-- `taken[address]`: the holder of a device, or the empty text.
unfoldable pub holder : String → String → List Device → String
holder node_id address [] = ""
holder node_id address (d ∷ ds) =
    if is_at node_id address d then d.instance_id else holder node_id address ds

-- The rows but those of the node that no instance holds.
unfoldable pub clear_free : String → List Device → List Device
clear_free node_id ds = keep_if (λ d. not (str_eq d.node_id node_id && str_eq d.instance_id "")) ds

abbrev pub addresses : List Device → List String
addresses ds = map (λ d. d.address) ds

-- A device that is held and no longer reported.
unfoldable pub is_missing : String → List Device → Device → Bool
is_missing node_id held d =
    str_eq d.node_id node_id
    && (not (str_eq d.instance_id "") && not (mem_str d.address (addresses held)))

unfoldable pub mark_missing : String → List Device → List Device → List Device
mark_missing node_id held ds =
    map
      (λ d. if is_missing node_id held d then record d { ready = false; driver = "missing" } else d)
      ds

-- The rows but those of the devices that are reported.
unfoldable pub clear_reported : String → List Device → List Device → List Device
clear_reported node_id held ds =
    keep_if (λ d. not (str_eq d.node_id node_id && mem_str d.address (addresses held))) ds

unfoldable pub statements : {A : Type 0} → Env → String → List A → M Unit
statements env label [] = pure tt
statements env label (x ∷ xs) = do statement env label; statements env label xs

-- The insertions; the node and the address are the primary key.
unfoldable pub insert_devices :
    Env → String → List Device → List Device → List Device → M (List Device)
insert_devices env node_id before [] rows = pure rows
insert_devices env node_id before (d ∷ held) rows = do
  statement env "insert a device"
  refuse_if (any_of (is_at node_id d.address) rows) (wrapped "insert a device" env.duplicate)
  insert_devices env node_id before held
      (record d { node_id = node_id; instance_id = holder node_id d.address before } ∷ rows)

-- One transaction, which has no effect where any statement of it fails.
unfoldable pub replace_devices : Env → String → List Device → M Unit
replace_devices env node_id held = do
  statement env "begin"
  statement env "read the devices"
  before ← read_tables (λ t. t.devices)
  statement env "clear the devices"
  statements env "mark a device missing" (keep_if (is_missing node_id held) before)
  statements env "replace a device" held
  rows ←
      insert_devices env node_id before held
        (clear_reported node_id held (mark_missing node_id held (clear_free node_id before)))
  ask_at (λ n. elim (env.database n) [ none ↦ ok tt | some e ↦ err e ])
  write_tables (λ t. record t { devices = rows })

unfoldable pub is_claimable : String → String → Device → Bool
is_claimable node_id address d = is_at node_id address d && str_eq d.instance_id ""

-- The update that takes a device which nobody holds, and whether it took one.
unfoldable pub claim_row : Env → String → String → String → M Bool
claim_row env node_id address instance_id = do
  statement env "claim a device"
  affected ← read_tables (λ t. length (keep_if (is_claimable node_id address) t.devices))
  write_tables (λ t. record t {
    devices =
        map
          (λ d.
            if is_claimable node_id address d then record d { instance_id = instance_id } else d)
          t.devices;
  })
  statement env "claim a device"
  pure (affected == 1)

unfoldable pub release_row : Env → String → M Unit
release_row env instance_id = do
  statement env "release a device"
  write_tables (λ t. record t {
    devices =
        map (λ d. if str_eq d.instance_id instance_id then record d { instance_id = "" } else d)
          t.devices;
  })

-- The loop that trims the addresses, and refuses an empty one.
unfoldable pub checked_devices : String → List Device → Result (List Device)
checked_devices node_id [] = ok []
checked_devices node_id (d ∷ held) =
    let rest = checked_devices node_id held in
    if str_eq (trim_space d.address) ""
    then err (new_fault Kind.invalid "invalid_device" "a device with no address is not one")
    else elim rest [
      | err e ↦ err e
      | ok ds ↦ ok (record d { node_id = node_id; address = trim_space d.address } ∷ ds)
    ]

unfoldable pub set_devices : Env → String → List Device → M Unit
set_devices env node_id held = do
  refuse_if (ltb max_devices_per_node (length held)) (
      new_fault Kind.invalid "too_many_devices"
        ("a node reports at most " <> itoa max_devices_per_node <> " devices"))
  ds ← lift (checked_devices node_id held)
  replace_devices env node_id ds

abbrev pub is_free : String → Device → Bool
is_free kind d = str_eq d.kind kind && (d.ready && str_eq d.instance_id "")

unfoldable pub first_free_device : String → List Device → Option String
first_free_device kind [] = none
first_free_device kind (d ∷ held) =
    if is_free kind d then some d.address else first_free_device kind held

unfoldable pub free_device : Env → String → String → M (Option String)
free_device env node_id kind = do held ← devices_on env node_id; pure (first_free_device kind held)

-- The device that the instance holds already.
unfoldable pub held_by : String → List Device → Option String
held_by instance_id [] = none
held_by instance_id (d ∷ held) =
    if str_eq d.instance_id instance_id then some d.address else held_by instance_id held

-- The loop that tries to take each free device.
unfoldable pub claim_first : Env → String → String → String → List Device → M String
claim_first env node_id kind instance_id [] = raise (
    new_fault Kind.conflict "no_free_device"
      ("every " <> kind <> " on " <> node_id <> " is already given to another workload"))
claim_first env node_id kind instance_id (d ∷ held) =
    when not (is_free kind d)
    run claim_first env node_id kind instance_id held
    otherwise (claim_row env node_id d.address instance_id >>= λ taken.
        when taken run pure d.address otherwise claim_first env node_id kind instance_id held)

unfoldable pub claim_with : Env → String → String → String → List Device → Option String → M String
claim_with env node_id kind instance_id held (some address) = pure address
claim_with env node_id kind instance_id held none = claim_first env node_id kind instance_id held

unfoldable pub claim_device : Env → String → String → String → M String
claim_device env node_id kind instance_id = do
  held ← devices_on env node_id
  claim_with env node_id kind instance_id held (held_by instance_id held)

unfoldable pub release_instance : Env → String → M Unit
release_instance env instance_id = release_row env instance_id
