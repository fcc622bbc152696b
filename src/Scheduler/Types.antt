-- ===== src/Scheduler/Types.antt =====
-- The data of scheduler.go. A Go map that is only read by key is a function that gives the zero
-- value for a missing key; a map that is ranged over is a list of its entries. The counts and the
-- free memory are natural numbers.
use marstack_cloud.Common.{
  ℕ, String, Bool, true, false, List, ◌∷◌, Option, Exec, if◌then◌else◌, str_eq,
}
use marstack_cloud.Fault.{Result, ok, err}
use marstack_cloud.Events.{Entry}

pub record Candidate : Type 0 where
  pub id : String
  pub name : String
  pub zone : String
  pub labels : String → String

pub record Pending : Type 0 where
  pub id : String
  pub project_id : String
  pub name : String
  pub network_id : String
  pub group : String
  pub strict : Bool
  pub selector : List (String × String)
  pub extra : List String
  pub device : String

pub record Stranded : Type 0 where
  pub id : String
  pub project_id : String
  pub name : String
  pub node_id : String
  pub isolation : String
  pub migrating : Bool
  pub disk_parked : Bool

pub record Load : Type 0 where
  pub memory_free_mib : ℕ
  pub fresh : Bool

-- The calls that the scheduler makes of its sources, `succeeded` when no error came back.
pub data Call : Type 0 where
  ready_nodes draining_nodes pending_placement assigned_counts node_load : Call
  unreachable_nodes : ℕ → Call
  finish_draining group_counts : String → Call
  stranded_on : List String → Call
  hold_placement assign begin_migration release_placement : String → String → Call
  allocate claim_device : String → String → String → Call
  free_device : String → String → Call
  record_event : Entry → Call

pub record Asked : Type 0 where
  pub call : Call
  pub succeeded : Bool

-- What was asked so far, the latest first.
abbrev pub History : Type 0
History = List Asked

-- The interfaces NodeSource, InstanceSource, AddressSource, LoadSource, DeviceSource and Recorder.
-- An answer may depend on everything that was asked before. `none` is a nil interface.
pub record Sources : Type 0 where
  pub ready_nodes : History → Result (List Candidate)
  pub unreachable_nodes : ℕ → History → Result (List String)
  pub draining_nodes : History → Result (List String)
  pub finish_draining : String → History → Result (Unit {0})
  pub pending_placement : History → Result (List Pending)
  pub assigned_counts : History → Result (String → ℕ)
  pub group_counts : String → History → Result (String → ℕ)
  pub hold_placement : String → String → History → Result (Unit {0})
  pub assign : String → String → History → Result (Unit {0})
  pub stranded_on : List String → History → Result (List Stranded)
  pub begin_migration : String → String → History → Result (Unit {0})
  pub release_placement : String → String → History → Result (Unit {0})
  pub allocate : Option (String → String → String → History → Result (Unit {0}))
  pub node_load : Option (History → Result (String → Load))
  pub free_device : Option (String → String → History → Result (String × Bool))
  pub claim_device : String → String → String → History → Result String
  pub has_recorder : Bool
  pub grace : ℕ

-- The fields of `Scheduler` that change: the ids already reported, and the history of its calls.
pub record State : Type 0 where
  pub asked : History
  pub stranded : String → Bool
  pub stuck_draining : String → Bool

abbrev pub M : Type 0 → Type 0
M A = Exec State A

abbrev pub is_ok : {A : Type 0} → Result A → Bool
is_ok (ok a) = true
is_ok (err e) = false

-- A call of a source: the answer comes back, and the call is history.
unfoldable pub ask : {A : Type 0} → Call → (History → Result A) → M A
ask c f s =
    let r = f s.asked in
    (r, record s { asked = record { call = c; succeeded = is_ok r } ∷ s.asked })

-- A write of a Go map: `m[k] = v`.
abbrev pub update : {V : Type 0} → (String → V) → String → V → String → V
update m k v j = if str_eq k j then v else m j

abbrev pub movable_isolation : String
movable_isolation = "container"

unfoldable pub carries_its_disk : String → Bool
carries_its_disk isolation =
    if str_eq isolation "vm"
    then true
    else if str_eq isolation "microvm"
    then true
    else str_eq isolation "sandbox"
