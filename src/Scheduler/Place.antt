-- ===== src/Scheduler/Place.antt =====
-- The third part of a pass: each waiting instance gets a node, or the reason why it has none.
use marstack_cloud.Common.{
  ◌<>◌, ℕ, ◌+◌, String, Bool, true, false, not, ◌&&◌, List, [], ◌∷◌, Option, none, some,
  if◌then◌else◌, when◌run◌otherwise◌, str_eq, is_nil, pure, attempt, ◌>>=◌, ◌>>◌, for_each,
}
use marstack_cloud.Fault.{Result, ok, err}
use marstack_cloud.Events.{Entry, Severity}
use marstack_cloud.Scheduler.Types.{
  Sources, Candidate, Pending, Load, M, ask, Call, History, update,
}
use marstack_cloud.Scheduler.Select.{matching, describe, best_for}
use marstack_cloud.Scheduler.Release.{note, release_stranded}
use marstack_cloud.Scheduler.Drain.{empty_draining}

-- The variables of the loop: the instances on each node, and the members of each placement group
-- that was asked for, node by node.
pub record Tally : Type 0 where
  pub counts : String → ℕ
  pub groups : String → Option (String → ℕ)

unfoldable pub remember : Tally → String → Option (String → ℕ) → Sources → M ((String → ℕ) × Tally)
remember t group (some known) env = pure (known, t)
remember t group none env = do
  members ← ask (Call.group_counts group) (env.group_counts group)
  pure (members, record t { groups = update t.groups group (some members) })

-- `membersOf`.
unfoldable pub members_of : Sources → Tally → String → M ((String → ℕ) × Tally)
members_of env t group =
    when str_eq group "" run pure ((λ _. 0), t) otherwise remember t group (t.groups group) env

-- The three holds differ by their reason; an error is logged only.
unfoldable pub hold_with : Sources → Pending → String → M Unit
hold_with env p reason = do
  attempt (ask (Call.hold_placement p.id reason) (env.hold_placement p.id reason))
  pure tt

unfoldable pub hold_unmatched : Sources → Pending → M Unit
hold_unmatched env p = hold_with env p ("no ready node carries " <> describe p.selector)

unfoldable pub hold : Sources → Pending → M Unit
hold env p =
    hold_with env p ("every ready node already runs a member of placement group " <> p.group)

unfoldable pub hold_without : Sources → Pending → M Unit
hold_without env p = hold_with env p ("no ready node has a free " <> p.device)

unfoldable pub has_free : Result (String × Bool) → Bool
has_free (ok (free, found)) = found && not (str_eq free "")
has_free (err e) = false

unfoldable pub carrying_from :
    (String → M (Result (String × Bool))) → List Candidate → M (List Candidate)
carrying_from free [] = pure []
carrying_from free (one ∷ rest) = do
  r ← free one.id
  held ← carrying_from free rest
  pure (if has_free r then one ∷ held else held)

unfoldable pub carrying_with :
    Option (String → String → History → Result (String × Bool))
    → List Candidate
    → String
    → M (List Candidate)
carrying_with none nodes kind = pure []
carrying_with (some free) nodes kind =
    carrying_from (λ id. attempt (ask (Call.free_device id kind) (free id kind))) nodes

-- `carrying`: the nodes with a free device of the kind.
unfoldable pub carrying : Sources → List Candidate → String → M (List Candidate)
carrying env nodes kind = carrying_with env.free_device nodes kind

-- The node loses room, and the group has a member more on it.
unfoldable pub count_in : Pending → Candidate → (String → ℕ) → Tally → Tally
count_in p target members t = record {
  counts = update t.counts target.id (t.counts target.id + 1);
  groups =
      if str_eq p.group ""
      then t.groups
      else update t.groups p.group (some (update members target.id (members target.id + 1)));
}

unfoldable pub placed_entry : Pending → Candidate → Entry
placed_entry p target = record {
  project_id = p.project_id;
  kind = "instance.placed";
  subject = p.id;
  node_id = target.id;
  message = "scheduled onto " <> target.name;
  severity = Severity.info;
}

unfoldable pub allocate_on : (String → M Unit) → List String → M Unit
allocate_on one [] = pure tt
allocate_on one (n ∷ ns) = do attempt (one n); allocate_on one ns

unfoldable pub allocate_with :
    Option (String → String → String → History → Result (Unit {0})) → Pending → Candidate → M Unit
allocate_with none p target = pure tt
allocate_with (some allocate) p target =
    when str_eq p.network_id ""
    run pure tt
    otherwise allocate_on (λ n. ask (Call.allocate p.id n target.id) (allocate p.id n target.id))
        (p.network_id ∷ p.extra)

unfoldable pub allocate_all : Sources → Pending → Candidate → M Unit
allocate_all env p target = allocate_with env.allocate p target

unfoldable pub assigned :
    Sources → Pending → Candidate → (String → ℕ) → Tally → Result (Unit {0}) → M Tally
assigned env p target members t (err e) = pure t
assigned env p target members t (ok _) = do
  note env (placed_entry p target)
  allocate_all env p target
  pure (count_in p target members t)

unfoldable pub assign_to : Sources → Pending → Candidate → (String → ℕ) → Tally → M Tally
assign_to env p target members t = do
  r ← attempt (ask (Call.assign p.id target.id) (env.assign p.id target.id))
  assigned env p target members t r

unfoldable pub claimed :
    Sources → Pending → Candidate → (String → ℕ) → Tally → Result String → M Tally
claimed env p target members t (ok _) = assign_to env p target members t
claimed env p target members t (err e) = pure t

abbrev pub has_devices : Sources → Bool
has_devices env = elim env.free_device [ none ↦ false | some _ ↦ true ]

unfoldable pub claim_and_assign : Sources → Pending → Candidate → (String → ℕ) → Tally → M Tally
claim_and_assign env p target members t =
    when not (str_eq p.device "") && has_devices env
    run (do
      r ← attempt (
          ask (Call.claim_device target.id p.device p.id)
            (env.claim_device target.id p.device p.id))
      claimed env p target members t r)
    otherwise assign_to env p target members t

-- A strict member that would share its node is held.
unfoldable pub choose :
    Sources
    → (String → Load)
    → Pending
    → (String → ℕ)
    → Tally
    → Candidate
    → List Candidate
    → M Tally
choose env load p members t c cs =
    let (target, room) = best_for c cs t.counts load members in
    when p.strict && (not (str_eq p.group "") && not room)
    run (do hold env p; pure t)
    otherwise claim_and_assign env p target members t

unfoldable pub choose_held :
    Sources → (String → Load) → Pending → (String → ℕ) → Tally → List Candidate → M Tally
choose_held env load p members t [] = do hold_without env p; pure t
choose_held env load p members t (c ∷ cs) = choose env load p members t c cs

unfoldable pub choose_matching :
    Sources → (String → Load) → Pending → (String → ℕ) → Tally → List Candidate → M Tally
choose_matching env load p members t [] = do hold_unmatched env p; pure t
choose_matching env load p members t (c ∷ cs) =
    when str_eq p.device ""
    run choose env load p members t c cs
    otherwise do held ← carrying env (c ∷ cs) p.device; choose_held env load p members t held

-- One round of the loop over the instances that wait.
unfoldable pub place_one : Sources → List Candidate → (String → Load) → Pending → Tally → M Tally
place_one env candidates load p t = do
  (members, t') ← members_of env t p.group
  choose_matching env load p members t' (matching candidates p.selector)

unfoldable pub measured : Result (String → Load) → String → Load
measured (ok load) = load
measured (err e) = λ _. record { memory_free_mib = 0; fresh = false }

unfoldable pub load_with : Option (History → Result (String → Load)) → M (String → Load)
load_with none = pure (λ _. record { memory_free_mib = 0; fresh = false })
load_with (some node_load) = do r ← attempt (ask Call.node_load node_load); pure (measured r)

unfoldable pub read_load : Sources → M (String → Load)
read_load env = load_with env.node_load

unfoldable pub place_all : Sources → List Pending → List Candidate → M Unit
place_all env pending candidates = do
  load ← read_load env
  counts ← ask Call.assigned_counts env.assigned_counts
  for_each (place_one env candidates load) pending (record { counts = counts; groups = λ _. none })
  pure tt

-- `Tick`: one pass.
unfoldable pub tick : Sources → M Unit
tick env = do
  release_stranded env
  empty_draining env
  pending ← ask Call.pending_placement env.pending_placement
  when is_nil pending run pure tt otherwise do
    candidates ← ask Call.ready_nodes env.ready_nodes
    when is_nil candidates run pure tt otherwise place_all env pending candidates
