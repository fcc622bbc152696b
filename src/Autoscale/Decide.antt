-- ===== src/Autoscale/Decide.antt =====
-- decide.go, with the types of types.go that it reads. Times are in nanoseconds. The replica counts
-- and targets are not negative, and what a share of the load asks for may be.
use marstack_cloud.Common.{
  ℕ, ◌+◌, ◌-◌, String, ◌<>◌, Bool, true, false, not, List, [], ◌∷◌, Option, none, some,
  if◌then◌else◌, str_eq, ltb, leb, ◌==◌, ◌&&◌, itoa,
}
use marstack_cloud.Common.Int.{ℤ, pos, negsuc, ltbℤ}

-- float64, and what the code uses of it: `ceiling` is the int of `math.Ceil`, `print` has one digit
-- after the point.
pub record Floats : Type 1 where
  pub Float : Type 0
  pub of_int : ℕ → Float
  pub add : Float → Float → Float
  pub divide : Float → Float → Float
  pub times : Float → Float → Float
  pub is_above : Float → Float → Bool
  pub is_close_to_one : Float → Bool
  pub ceiling : Float → ℤ
  pub print : Float → String

abbrev pub max_step : ℕ
max_step = 4

abbrev pub warmup : ℕ
warmup = 90000000000

abbrev pub cooldown : ℕ
cooldown = 180000000000

abbrev pub stale_load : ℕ
stale_load = 60000000000

-- `last_at` is none for the zero time.
pub record Policy : Type 0 where
  pub min : ℕ
  pub max : ℕ
  pub target_cpu : ℕ
  pub target_memory : ℕ
  pub last_at : Option ℕ

pub record Member : Type 0 where
  pub instance_id : String
  pub created_at : ℕ

pub record Group : Type 0 where
  pub replicas : ℕ
  pub settled : Bool
  pub members : List Member

pub record Decision : Type 0 where
  pub replicas : ℕ
  pub reason : String
  pub act : Bool

unfoldable pub held : String → Decision
held reason = record { replicas = 0; reason = reason; act = false }

-- The lowest count that one step goes to.
unfoldable pub step_down : ℕ → ℤ
step_down from = if ltb from max_step then negsuc (max_step - 1 - from) else pos (from - max_step)

unfoldable pub step : ℕ → ℤ → ℤ
step from to =
    if ltbℤ (pos (from + max_step)) to
    then pos (from + max_step)
    else if ltbℤ to (step_down from)
    then step_down from
    else to

-- `low` is not negative.
unfoldable pub clamp : ℤ → ℕ → ℕ → ℕ
clamp (negsuc n) low high = low
clamp (pos value) low high = if ltb value low then low else if ltb high value then high else value

unfoldable pub is_cooling : Option ℕ → ℕ → Bool
is_cooling none now = false
is_cooling (some last_at) now = ltb (now - last_at) cooldown

module _ (F : Floats) where
  pub record Sample : Type 0 where
    pub cpu_percent : F.Float
    pub memory_percent : F.Float
    pub memory_known : Bool
    pub reported_at : ℕ

  pub record Pressure : Type 0 where
    pub name : String
    pub average : F.Float
    pub target : F.Float

  unfoldable pub demand : Pressure → F.Float
  demand p = F.divide p.average p.target

  unfoldable pub pressure_text : Pressure → String
  pressure_text p =
      "average "
      <> p.name
      <> " "
      <> F.print p.average
      <> "% against a target of "
      <> F.print p.target
      <> "%"

  unfoldable pub sample_of : List (String × Sample) → String → Option Sample
  sample_of [] id = none
  sample_of ((i, sample) ∷ samples) id = if str_eq i id then some sample else sample_of samples id

  -- The load of the members so far, or why it cannot be told.
  pub data Measured : Type 0 where
    unknown : String → Measured
    known : ℕ → F.Float → F.Float → Measured

  -- With the member's sample, where there is one.
  unfoldable pub add_sample : Policy → ℕ → String → Option Sample → ℕ → F.Float → F.Float → Measured
  add_sample policy now id none ready cpu memory = unknown (
      "the load of " <> id
      <> " is missing or stale, and scaling on a guess is worse than not scaling")
  add_sample policy now id (some sample) ready cpu memory =
      if ltb stale_load (now - sample.reported_at)
      then unknown (
          "the load of " <> id
          <> " is missing or stale, and scaling on a guess is worse than not scaling")
      else if ltb 0 policy.target_memory && not sample.memory_known
      then unknown (
          "how much memory " <> id
          <> " was given is not known, so a share of it cannot be worked out")
      else known (ready + 1) (F.add cpu sample.cpu_percent) (F.add memory sample.memory_percent)

  unfoldable pub add_member : Policy → List (String × Sample) → ℕ → Member → Measured → Measured
  add_member policy samples now member (unknown reason) = unknown reason
  add_member policy samples now member (known ready cpu memory) =
      if ltb (now - member.created_at) warmup
      then known ready cpu memory
      else add_sample policy now member.instance_id (sample_of samples member.instance_id) ready cpu
          memory

  unfoldable pub total_load :
      Policy → List (String × Sample) → ℕ → List Member → Measured → Measured
  total_load policy samples now [] load = load
  total_load policy samples now (member ∷ members) load =
      total_load policy samples now members (add_member policy samples now member load)

  unfoldable pub harder : Option Pressure → Option Pressure → Option Pressure
  harder none candidate = candidate
  harder (some worst) none = some worst
  harder (some worst) (some candidate) =
      if F.is_above (demand candidate) (demand worst) then some candidate else some worst

  unfoldable pub pressure_on : String → F.Float → ℕ → Option Pressure
  pressure_on name average target =
      if ltb 0 target
      then some (record { name = name; average = average; target = F.of_int target })
      else none

  unfoldable pub hardest_pressed : Policy → F.Float → F.Float → Option Pressure
  hardest_pressed policy cpu memory =
      harder (pressure_on "cpu" cpu policy.target_cpu)
        (pressure_on "memory" memory policy.target_memory)

  unfoldable pub reason_for : Pressure → ℕ → Policy → String
  reason_for worst replicas policy =
      if F.is_above (demand worst) (F.of_int 1) && leb policy.max replicas
      then pressure_text worst <> ", but already at the maximum of " <> itoa policy.max
      else if F.is_above (F.of_int 1) (demand worst) && leb replicas policy.min
      then pressure_text worst <> ", but already at the minimum of " <> itoa policy.min
      else pressure_text worst <> ", which does not move the replica count"

  unfoldable pub wanted_for : Policy → Group → Pressure → ℕ
  wanted_for policy group worst =
      let asked = F.ceiling (F.times (F.of_int group.replicas) (demand worst)) in
      clamp (step group.replicas asked) policy.min policy.max

  unfoldable pub decide_for : Policy → Group → Option Pressure → Decision
  decide_for policy group none = held "this policy names no target to scale against"
  decide_for policy group (some worst) =
      if F.is_close_to_one (demand worst)
      then held (pressure_text worst <> ", which is close enough to leave alone")
      else if wanted_for policy group worst == group.replicas
      then held (reason_for worst group.replicas policy)
      else record {
        replicas = wanted_for policy group worst;
        reason = pressure_text worst;
        act = true;
      }

  unfoldable pub decide_under : Policy → Group → Measured → Decision
  decide_under policy group (unknown reason) = held reason
  decide_under policy group (known ready cpu memory) =
      if ready == 0
      then held "every replica is still warming up"
      else decide_for policy group (
          hardest_pressed policy (F.divide cpu (F.of_int ready)) (F.divide memory (F.of_int ready)))

  unfoldable pub decide : Policy → Group → List (String × Sample) → ℕ → Decision
  decide policy group samples now =
      if not group.settled
      then held "the service has not reached its replica count yet"
      else if is_cooling policy.last_at now
      then held "waiting out the cooldown after the last change"
      else decide_under policy group
          (total_load policy samples now group.members (known 0 (F.of_int 0) (F.of_int 0)))
