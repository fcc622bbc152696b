-- ===== src/Agent/Health.antt =====
-- internal/agent/health.go: the health checks of the backends that run on this node.
use marstack_cloud.Common.{
  ℕ, ◌+◌, String, ◌<>◌, Bool, true, false, not, ◌&&◌, ◌||◌, List, [], ◌∷◌, ◌++◌, Option, none, some,
  if◌then◌else◌, leb, ltb, str_eq, itoa,
}

pub record ProbeState : Type 0 where
  pub passes : ℕ
  pub failures : ℕ
  pub verdict : Bool
  pub settled : Bool
  pub last_error : String

abbrev pub fresh_probe : ProbeState
fresh_probe = record { passes = 0; failures = 0; verdict = false; settled = false; last_error = "" }

pub record ProbeTarget : Type 0 where
  pub balancer_id : String
  pub instance_id : String
  pub address : String
  pub port : ℕ
  pub kind : String
  pub path : String
  pub rise : ℕ
  pub fall : ℕ

pub record Backend : Type 0 where
  pub instance_id : String
  pub address : String

-- The fields of a balancer that the checks read; `routes` are the backends of each route.
pub record Balancer : Type 0 where
  pub id : String
  pub check : String
  pub check_path : String
  pub target_port : ℕ
  pub rise : ℕ
  pub fall : ℕ
  pub backends : List Backend
  pub routes : List (List Backend)

abbrev pub concat : List (List Backend) → List Backend
concat [] = []
concat (b ∷ bs) = b ++ concat bs

abbrev pub mark : (String → Bool) → String → String → Bool
mark seen id j = if str_eq id j then true else seen j

unfoldable pub target_of : Balancer → Backend → ProbeTarget
target_of b one = record {
  balancer_id = b.id;
  instance_id = one.instance_id;
  address = one.address;
  port = b.target_port;
  kind = b.check;
  path = b.check_path;
  rise = b.rise;
  fall = b.fall;
}

abbrev pub skips : (String → Bool) → (String → Bool) → Backend → Bool
skips mine seen one = not (mine one.instance_id) || (str_eq one.address "" || seen one.instance_id)

unfoldable pub backend_targets :
    Balancer → (String → Bool) → List Backend → (String → Bool) → List ProbeTarget
backend_targets b mine [] seen = []
backend_targets b mine (one ∷ rest) seen =
    let others = backend_targets b mine rest seen in
    let marked = backend_targets b mine rest (mark seen one.instance_id) in
    if skips mine seen one then others else target_of b one ∷ marked

unfoldable pub probe_targets : List Balancer → (String → Bool) → List ProbeTarget
unfolding backend_targets
probe_targets [] mine = []
probe_targets (b ∷ bs) mine =
    let rest = probe_targets bs mine in
    if str_eq b.check "" || str_eq b.check "none"
    then rest
    else backend_targets b mine (b.backends ++ concat b.routes) (λ _. false) ++ rest

-- The probe went through, or failed with an error.
unfoldable pub count_probe : ProbeState → Option String → ProbeState
count_probe s none = record s { failures = 0; passes = s.passes + 1 }
count_probe s (some e) = record s { passes = 0; failures = s.failures + 1; last_error = e }

unfoldable pub judge : ProbeTarget → ProbeState → ProbeState
judge t s =
    if leb t.rise s.passes
    then record s { verdict = true; settled = true }
    else if leb t.fall s.failures
    then record s { verdict = false; settled = true }
    else s

unfoldable pub settle_state : ProbeTarget → ProbeState → Option String → ProbeState
unfolding count_probe judge
settle_state t s probe = judge t (count_probe s probe)

abbrev pub count_of : ℕ → ℕ → String
count_of count needed = itoa count <> " of " <> itoa needed

unfoldable pub reason_for : ProbeState → ProbeTarget → String
reason_for s t =
    if not s.settled && ltb 0 s.passes
    then "passed " <> count_of s.passes t.rise <> " needed to come up"
    else if not s.settled
    then "failed " <> count_of s.failures t.fall <> " needed to go down: " <> s.last_error
    else if s.verdict && ltb 0 s.failures
    then "failed " <> count_of s.failures t.fall <> " needed to go down, still up: " <> s.last_error
    else if s.verdict
    then ""
    else if ltb 0 s.passes
    then "passed " <> count_of s.passes t.rise <> " needed to come back up"
    else s.last_error

pub record Report : Type 0 where
  pub balancer_id : String
  pub instance_id : String
  pub healthy : Bool
  pub reason : String

abbrev pub Probes : Type 0
Probes = String → Option ProbeState

abbrev pub or_fresh_probe : Option ProbeState → ProbeState
or_fresh_probe none = fresh_probe
or_fresh_probe (some s) = s

abbrev pub probe_key : ProbeTarget → String
probe_key t = t.balancer_id <> "/" <> t.instance_id

-- `settle`: the report, whether the verdict changed, and the states after it.
unfoldable pub settle : ProbeTarget → Option String → Probes → Report × Bool × Probes
unfolding settle_state reason_for
settle t probe m =
    let before = or_fresh_probe (m (probe_key t)) in
    let s = settle_state t before probe in
    (
      record {
        balancer_id = t.balancer_id;
        instance_id = t.instance_id;
        healthy = s.verdict;
        reason = reason_for s t;
      },
      not before.settled || (not (before.verdict && s.verdict) && (before.verdict || s.verdict)),
      λ j. if str_eq (probe_key t) j then some s else m j,
    )

unfoldable pub settle_all :
    (ProbeTarget → Option String) → List ProbeTarget → Probes → List Report × Probes
unfolding settle
settle_all probe [] m = ([], m)
settle_all probe (t ∷ ts) m =
    let (r, changed, m') = settle t (probe t) m in
    let (rs, m'') = settle_all probe ts m' in (r ∷ rs, m'')

abbrev pub wanted : List ProbeTarget → String → Bool
wanted [] key = false
wanted (t ∷ ts) key = if str_eq (probe_key t) key then true else wanted ts key

unfoldable pub forget_probes : (String → Bool) → Probes → Probes
forget_probes keep m key = if keep key then m key else none

-- `runProbes`: the reports that are sent, and the states after the round.
unfoldable pub run_probes :
    (ProbeTarget → Option String) → List Balancer → (String → Bool) → Probes → List Report × Probes
unfolding probe_targets forget_probes settle_all
run_probes probe balancers mine m =
    let targets = probe_targets balancers mine in
    settle_all probe targets (forget_probes (wanted targets) m)

-- What the network answered to an HTTP check.
pub data Reply : Type 0 where
  unbuildable unreachable : Reply
  status : ℕ → Reply

unfoldable pub probe_http : Reply → Option String
probe_http unbuildable = some "could not build the probe request"
probe_http unreachable = some "http request failed or timed out"
probe_http (status code) =
    if ltb code 200 || ltb 399 code then some ("http status " <> itoa code) else none
