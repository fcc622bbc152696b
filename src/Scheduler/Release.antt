-- ===== src/Scheduler/Release.antt =====
-- The first part of a pass: workloads on nodes that stopped answering.
use marstack_cloud.Common.{
  ◌<>◌, String, Bool, true, false, not, ◌&&◌, when◌run◌otherwise◌, str_eq, is_nil, pure, gets,
  modify, attempt, ◌>>=◌, ◌>>◌, for_each,
}
use marstack_cloud.Fault.{Result, ok, err}
use marstack_cloud.Events.{Entry, Severity}
use marstack_cloud.Scheduler.Types.{Sources, Stranded, M, ask, Call, update, movable_isolation}

unfoldable pub note : Sources → Entry → M Unit
note env entry =
    when env.has_recorder run ask (Call.record_event entry) (λ _. ok tt) otherwise pure tt

-- A nil map and an empty one read alike.
unfoldable pub already_stranded : String → M Bool
already_stranded id = do
  held ← gets (λ s. s.stranded id)
  when held
      run pure true
      otherwise do modify (λ s. record s { stranded = update s.stranded id true }); pure false

unfoldable pub forget_recovered : (String → Bool) → M Unit
forget_recovered seen = modify (λ s. record s { stranded = λ id. s.stranded id && seen id })

unfoldable pub stranded_entry : Stranded → Entry
stranded_entry one = record {
  project_id = one.project_id;
  kind = "instance.stranded";
  subject = one.id;
  node_id = one.node_id;
  message =
      "its node stopped answering, and isolation " <> one.isolation
      <> " cannot be moved without losing its disk";
  severity = Severity.error;
}

unfoldable pub rescheduled_entry : Stranded → Entry
rescheduled_entry one = record {
  project_id = one.project_id;
  kind = "instance.rescheduled";
  subject = one.id;
  node_id = one.node_id;
  message = "released from a node that stopped answering, waiting for a new one";
  severity = Severity.warn;
}

unfoldable pub report_stranded : Sources → Stranded → M Unit
report_stranded env one = do
  already ← already_stranded one.id
  when already run pure tt otherwise note env (stranded_entry one)

unfoldable pub after_release : Sources → Entry → Result (Unit {0}) → M Unit
after_release env entry (ok _) = note env entry
after_release env entry (err e) = pure tt

unfoldable pub release_one : Sources → Stranded → (String → Bool) → M (String → Bool)
release_one env one seen =
    when not (str_eq one.isolation movable_isolation)
    run (do report_stranded env one; pure (update seen one.id true))
    otherwise (do
      released ← attempt (
          ask (Call.release_placement one.id one.node_id)
            (env.release_placement one.id one.node_id))
      after_release env (rescheduled_entry one) released
      pure (update seen one.id true))

unfoldable pub release_stranded : Sources → M Unit
release_stranded env = do
  lost ← ask (Call.unreachable_nodes env.grace) (env.unreachable_nodes env.grace)
  when is_nil lost run forget_recovered (λ _. false) otherwise do
    stranded ← ask (Call.stranded_on lost) (env.stranded_on lost)
    seen ← for_each (release_one env) stranded (λ _. false)
    forget_recovered seen
