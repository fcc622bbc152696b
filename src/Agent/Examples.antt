-- ===== src/Agent/Examples.antt =====
-- An instance that restarts, and a target that is probed.
use marstack_cloud.Common.{
  ◌+◌, ◌*◌, ◌^◌, ◌≤◌, ◌<◌, String, ◌≡◌, ◌≢◌, true, false, not, [], ◌∷◌, none, All, eq_iff, arith,
}
use Prim.Native.Nat.{min}
use marstack_cloud.Agent.Restart.{
  Restarts, note_restart, restart_allowed, backoff_for, note_started, restart_attempts, stable_for,
  take_halted_by_user, note_halted_by_user, note_start_failure, note_unstartable,
  unstartable_reason, last_start_failure, second, max_restart_backoff, min_restart_backoff,
}
use marstack_cloud.Agent.Backoff.{backoff_for-eq}
use marstack_cloud.Agent.Restarting.{
  restart_allowed-note_restart, note_restart-attempts, take_halted-note_halted,
  unstartable_reason-note_unstartable,
}
use marstack_cloud.Agent.Health.{ProbeTarget, ProbeState, fresh_probe, Balancer, probe_targets}
use marstack_cloud.Agent.Probing.{
  IsWanted, Distinct, probe_targets-IsWanted, probe_targets-Distinct,
}

abbrev no_restarts : Restarts
no_restarts _ = none

backoff_for-eq_example : backoff_for 8 ≡ min max_restart_backoff (min_restart_backoff * 2 ^ 7)
backoff_for-eq_example = backoff_for-eq 7

restart_allowed-note_restart_example :
    let (n, m') = note_restart (5 * second) no_restarts "i" in
    ((restart_allowed (7 * second) m' "i").0.0 ≡ true → 5 * second + backoff_for n ≤ 7 * second)
    × (5 * second + backoff_for n ≤ 7 * second → (restart_allowed (7 * second) m' "i").0.0 ≡ true)
    × (1 ≤ n)
restart_allowed-note_restart_example =
    restart_allowed-note_restart no_restarts "i" (5 * second) (7 * second)

note_restart-attempts_example :
    let m' = note_started 5 no_restarts "i" in
    let n = (restart_attempts no_restarts "i").0 in
    (5 + stable_for ≤ 9 → (note_restart 9 m' "i").0 ≡ 1)
    × (9 < 5 + stable_for → (note_restart 9 m' "i").0 ≡ n + 1)
note_restart-attempts_example = note_restart-attempts no_restarts "i" 9 5 (omega arith)

take_halted-note_halted_example :
    let (halted, m') = take_halted_by_user (note_halted_by_user no_restarts "i") "i" in
    (halted ≡ true)
    × ((take_halted_by_user m' "i").0 ≡ false)
    × ((restart_attempts m' "i").0 ≡ 0)
    × ((restart_allowed 9 m' "i").0.0 ≡ true)
take_halted-note_halted_example = take_halted-note_halted no_restarts "i" 9

no_image : ◌≢◌ {A = String} "no image" ""
no_image e = ground (arith, eq_iff "no image" "")

unstartable_reason-note_unstartable_example :
    let (fresh, noted) = note_unstartable "no image" no_restarts "i" in
    let failed = note_start_failure "no disk" noted "i" in
    let started = note_started 9 failed "i" in
    (fresh ≡ not (unstartable_reason no_restarts "i").0.1)
    × ((note_unstartable "no image" noted "i").0 ≡ false)
    × ((unstartable_reason noted "i").0 ≡ ("no image", true))
    × ((unstartable_reason failed "i").0 ≡ ("no image", true))
    × ((unstartable_reason started "i").0 ≡ ("no image", true))
    × ((last_start_failure failed "i").0 ≡ "no disk")
    × ((last_start_failure started "i").0 ≡ "")
unstartable_reason-note_unstartable_example =
    unstartable_reason-note_unstartable no_restarts "i" "no image" "no disk" 9 no_image

abbrev target : ProbeTarget
target = record {
  balancer_id = "b";
  instance_id = "i";
  address = "10.0.0.2";
  port = 80;
  kind = "tcp";
  path = "";
  rise = 2;
  fall = 3;
}

abbrev up : ProbeState
up = record fresh_probe { verdict = true; settled = true }

abbrev balancer : Balancer
balancer = record {
  id = "b";
  check = "tcp";
  check_path = "";
  target_port = 80;
  rise = 2;
  fall = 3;
  backends = record { instance_id = "i"; address = "10.0.0.2" } ∷ [];
  routes = (record { instance_id = "i"; address = "10.0.0.2" } ∷ []) ∷ [];
}

probe_targets-IsWanted_example :
    All (IsWanted (λ _. true)) (probe_targets (balancer ∷ []) (λ _. true))
probe_targets-IsWanted_example = probe_targets-IsWanted (balancer ∷ []) (λ _. true)

probe_targets-Distinct_example : Distinct (probe_targets (balancer ∷ []) (λ _. true))
probe_targets-Distinct_example = probe_targets-Distinct balancer (λ _. true)
