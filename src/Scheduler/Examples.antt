-- ===== src/Scheduler/Examples.antt =====
-- A cluster of four nodes in two zones, and the theorems of the scheduler on it.
use marstack_cloud.Common.{
  ℕ, ◌<◌, String, ◌≡◌, refl, ◌≢◌, true, false, List, [], ◌∷◌, here, All, none, if◌then◌else◌,
  str_eq, arith, eq_iff,
}
use marstack_cloud.Fault.{ok}
use marstack_cloud.Scheduler.Types.{Candidate, Load, Pending, Sources, Stranded, State}
use marstack_cloud.Scheduler.Select.{View, less, view_of, by_zone, best_for}
use marstack_cloud.Scheduler.Ranking.{
  Spreads, best_for-Spreads, best_for_least, less_cycle, room_ignores_other_zones,
}
use marstack_cloud.Scheduler.Lawful.{Since, Allowed}
use marstack_cloud.Scheduler.Place.{tick}
use marstack_cloud.Scheduler.Pass.{tick-Allowed}

abbrev node : String → String → Candidate
node id zone = record { id = id; name = id; zone = zone; labels = λ _. "" }

-- The node of zone a has one member; of the nodes of zone b two have one, and the third has none.
abbrev first : Candidate
first = node "a1" "a"

abbrev others : List Candidate
others = node "b1" "b" ∷ node "b2" "b" ∷ node "b3" "b" ∷ []

abbrev members : String → ℕ
members id = if str_eq id "b3" then 0 else 1

abbrev counts : String → ℕ
counts id = if str_eq id "a1" then 3 else if str_eq id "b1" then 1 else 2

abbrev load : String → Load
load id = record {
  memory_free_mib = if str_eq id "a1" then 4096 else 1024;
  fresh = if str_eq id "b2" then false else true;
}

abbrev no_load : String → Load
no_load id = record { memory_free_mib = 0; fresh = false }

abbrev seen : View
seen = record { counts = counts; load = load; members = λ _. 0; zones = λ _. 0 }

best_for-Spreads_example :
    All
      (Spreads
        (view_of (first ∷ others) counts load members)
        (best_for first others counts load members).0)
      (first ∷ others)
best_for-Spreads_example = best_for-Spreads first others counts load members

best_for_least_example :
    All
      (λ x.
        less
          (view_of (first ∷ others) counts no_load members)
          x
          (best_for first others counts no_load members).0
        ≡ false)
      (first ∷ others)
best_for_least_example =
    best_for_least first others counts no_load members false (refl, (refl, (refl, (refl, tt))))

less_cycle_example :
    (less seen (node "a1" "a") (node "b1" "b") ≡ true)
    × (less seen (node "b1" "b") (node "b2" "b") ≡ true)
    × (less seen (node "b2" "b") (node "a1" "a") ≡ true)
less_cycle_example =
    less_cycle seen (node "a1" "a") (node "b1" "b") (node "b2" "b") refl refl refl refl refl refl
      refl (omega arith) (omega arith) (omega arith)

same_zone : (s : String) → s ≢ s → (P : Type 0) → P
same_zone s n P = absurd (n refl)

b_not_a : ◌≢◌ {A = String} "b" "a"
b_not_a e = ground (arith, eq_iff "b" "a")

fewer :
    (view_of (first ∷ others) counts load members).zones "a"
    < (view_of (first ∷ others) counts load members).zones "b"
unfolding view_of by_zone
fewer = omega arith

room_ignores_other_zones_example : (best_for first others counts load members).1 ≡ false
room_ignores_other_zones_example =
    room_ignores_other_zones first others counts load members first here
      (λ n. same_zone "a" n _, (λ _. fewer, (λ _. fewer, (λ _. fewer, tt))))
      (
        λ _. omega arith,
        (λ e. absurd (b_not_a e), (λ e. absurd (b_not_a e), (λ e. absurd (b_not_a e), tt))),
      )

-- A container on a lost node, a machine on a draining one, and a strict instance that waits.
abbrev lost : Stranded
lost = record {
  id = "i1";
  project_id = "p";
  name = "web";
  node_id = "gone";
  isolation = "container";
  migrating = false;
  disk_parked = false;
}

abbrev leaving : Stranded
leaving = record lost { id = "i2"; node_id = "drains"; isolation = "vm"; disk_parked = true }

abbrev waiting : Pending
waiting = record {
  id = "i3";
  project_id = "p";
  name = "db";
  network_id = "";
  group = "g";
  strict = true;
  selector = [];
  extra = [];
  device = "";
}

abbrev cluster : Sources
cluster = record {
  ready_nodes = λ _. ok (node "b3" "b" ∷ []);
  unreachable_nodes = λ _ _. ok ("gone" ∷ []);
  draining_nodes = λ _. ok ("drains" ∷ []);
  finish_draining = λ _ _. ok tt;
  pending_placement = λ _. ok (waiting ∷ []);
  assigned_counts = λ _. ok (λ _. 0);
  group_counts = λ _ _. ok (λ _. 0);
  hold_placement = λ _ _ _. ok tt;
  assign = λ _ _ _. ok tt;
  stranded_on = λ nodes _. ok (lost ∷ leaving ∷ []);
  begin_migration = λ _ _ _. ok tt;
  release_placement = λ _ _ _. ok tt;
  allocate = none;
  node_load = none;
  free_device = none;
  claim_device = λ _ _ _ _. ok "";
  has_recorder = true;
  grace = 60;
}

abbrev started : State
started = record { asked = []; stranded = λ _. false; stuck_draining = λ _. false }

tick-Allowed_example : Since (Allowed cluster) [] (tick cluster started).1.asked
tick-Allowed_example = tick-Allowed cluster started
