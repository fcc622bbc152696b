-- ===== src/Node/Examples.antt =====
-- The theorems at concrete inputs.
use marstack_cloud.Common.{
  ◌≡◌, refl, true, List, [], ◌∷◌, none, some, World, sort_stable, run_sql, ask_at, read_tables,
  pure, ◌>>=◌,
}
use marstack_cloud.Fault.{ok, plain}
use marstack_cloud.Node.Rows.{Device, Tables, Env, query, statement}
use marstack_cloud.Node.Devices.{
  on_node, devices_on, query_devices, free_device, claim_device, first_free_device, held_by,
}
use marstack_cloud.Node.Claiming.{Held}
use marstack_cloud.Node.Requests.{
  Request, report_devices, claim_for, release_of, handle_all, handle_all-Held,
  claim_device-free_device, IsGiven,
}

abbrev given : Env
given = record {
  database = λ n. none;
  duplicate = plain "UNIQUE constraint failed";
  now = λ n. n;
  new_id = λ prefix n. prefix;
  is_address = λ s. true;
}

abbrev card : Device
card = record {
  node_id = "n1";
  address = "0000:01:00.0";
  kind = "gpu";
  vendor = "v";
  product = "p";
  driver = "vfio-pci";
  ready = true;
  instance_id = "";
}

abbrev state : World Tables
state = record { tables = record { nodes = []; labels = []; devices = card ∷ [] }; moment = 0 }

state-Held : Held state.tables
state-Held = record { keys = (tt, tt); holds = (tt, tt) }

abbrev requests : List Request
requests =
    claim_for "n1" "gpu" "i1"
    ∷ report_devices "n1" (card ∷ [])
    ∷ claim_for "n1" "gpu" "i2"
    ∷ release_of "i1"
    ∷ []

handle_all-Held_example : Held (handle_all given requests state).tables
handle_all-Held_example = handle_all-Held given requests state state-Held

none_held : held_by "i1" (on_node "n1" state.tables.devices) ≡ none
unfolding held_by on_node sort_stable
none_held = refl

found : (free_device given "n1" "gpu" state).0 ≡ ok (some card.address)
unfolding free_device first_free_device devices_on query_devices query statement run_sql ask_at
    read_tables on_node sort_stable pure ◌>>=◌
found = refl

claim_device-free_device_example :
    let (r, w) = claim_device given "n1" "gpu" "i1" (free_device given "n1" "gpu" state).1 in
    (r ≡ ok "0000:01:00.0")
    × IsGiven "n1" "gpu" "i1" "0000:01:00.0" state.tables.devices w.tables.devices
claim_device-free_device_example =
    claim_device-free_device given "n1" "gpu" "i1" "0000:01:00.0" state (λ n. refl) state-Held
      none_held found
