-- ===== src/Scheduler/Drain.antt =====
-- The second part of a pass: moving what can be moved off the nodes that drain.
use marstack_cloud.Common.{
  ◌<>◌, ℕ, ◌+◌, String, Bool, true, false, not, ◌&&◌, when◌run◌otherwise◌, ltb, str_eq, is_nil,
  pure, gets, modify, attempt, ◌>>=◌, ◌>>◌, for_each,
}
use marstack_cloud.Fault.{Result, ok, err}
use marstack_cloud.Events.{Entry, Severity}
use marstack_cloud.Scheduler.Types.{
  Sources, Stranded, M, ask, Call, update, movable_isolation, carries_its_disk,
}
use marstack_cloud.Scheduler.Release.{note, after_release}

-- The variables of the loop: how many workloads hold up each node, and the ids that were seen.
pub record Progress : Type 0 where
  pub stuck : String → ℕ
  pub seen : String → Bool

unfoldable pub already_stuck_draining : String → M Bool
already_stuck_draining id = do
  held ← gets (λ s. s.stuck_draining id)
  when held run pure true otherwise do
    modify (λ s. record s { stuck_draining = update s.stuck_draining id true })
    pure false

unfoldable pub forget_unstuck : (String → Bool) → M Unit
forget_unstuck seen =
    modify (λ s. record s { stuck_draining = λ id. s.stuck_draining id && seen id })

unfoldable pub about : Stranded → String → String → Severity → Entry
about one kind message severity = record {
  project_id = one.project_id;
  kind = kind;
  subject = one.id;
  node_id = one.node_id;
  message = message;
  severity = severity;
}

unfoldable pub blocked_entry : Stranded → Entry
blocked_entry one =
    about one "instance.drain_blocked"
      ("its node is draining, and nothing here knows how to carry the disk of isolation "
        <> one.isolation)
      Severity.error

unfoldable pub migrating_entry : Stranded → Entry
migrating_entry one =
    about one "instance.migrating"
      "its node is draining, so it is being stopped and its disk carried to another node"
      Severity.warn

unfoldable pub moved_entry : Stranded → Entry
moved_entry one =
    about one "instance.moved" "released from a draining node, waiting for a new one" Severity.info

unfoldable pub note_blocked : Sources → Stranded → M Unit
note_blocked env one = do
  already ← already_stuck_draining one.id
  when already run pure tt otherwise note env (blocked_entry one)

unfoldable pub began : Sources → Stranded → Result (Unit {0}) → M Bool
began env one (err e) = pure true
began env one (ok _) =
    when one.migrating run pure true otherwise do note env (migrating_entry one); pure true

-- Whether the workload still holds its node up.
unfoldable pub carry_disk : Sources → Stranded → M Bool
carry_disk env one = when one.disk_parked run pure false otherwise do
  r ←
      attempt
        (ask (Call.begin_migration one.id one.node_id) (env.begin_migration one.id one.node_id))
  began env one r

abbrev pub stuck_one : Progress → Stranded → Progress
stuck_one p one = record p { stuck = update p.stuck one.node_id (p.stuck one.node_id + 1) }

unfoldable pub moved : Sources → Stranded → Progress → Result (Unit {0}) → M Progress
moved env one p (err e) = pure (stuck_one p one)
moved env one p (ok _) = do note env (moved_entry one); pure p

unfoldable pub move_off : Sources → Stranded → Progress → M Progress
move_off env one p = do
  r ←
      attempt
        (ask (Call.release_placement one.id one.node_id) (env.release_placement one.id one.node_id))
  moved env one p r

unfoldable pub carry_then : Sources → Stranded → Progress → Bool → M Progress
carry_then env one p carrying =
    when carrying run pure (stuck_one p one) otherwise move_off env one p

unfoldable pub empty_one : Sources → Stranded → Progress → M Progress
empty_one env one p =
    let q = record p { seen = update p.seen one.id true } in
    when str_eq one.isolation movable_isolation
    run move_off env one q
    otherwise when not (carries_its_disk one.isolation)
    run (do note_blocked env one; pure (stuck_one q one))
    otherwise (do carrying ← carry_disk env one; carry_then env one q carrying)

unfoldable pub drained_entry : String → Entry
drained_entry node = record {
  project_id = "";
  kind = "node.drained";
  subject = node;
  node_id = node;
  message = "nothing movable is left on it, and it stays unschedulable";
  severity = Severity.info;
}

unfoldable pub finish_one : Sources → Progress → String → Unit {0} → M Unit
finish_one env p node _ = when ltb 0 (p.stuck node) run pure tt otherwise do
  finished ← attempt (ask (Call.finish_draining node) (env.finish_draining node))
  after_release env (drained_entry node) finished

unfoldable pub empty_draining : Sources → M Unit
empty_draining env = do
  draining ← ask Call.draining_nodes env.draining_nodes
  when is_nil draining run forget_unstuck (λ _. false) otherwise do
    held ← ask (Call.stranded_on draining) (env.stranded_on draining)
    p ← for_each (empty_one env) held (record { stuck = λ _. 0; seen = λ _. false })
    forget_unstuck p.seen
    for_each (finish_one env p) draining tt
