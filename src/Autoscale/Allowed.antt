-- ===== src/Autoscale/Allowed.antt =====
-- What a decision to act may ask for.
use marstack_cloud.Common.{
  ℕ, ◌+◌, ◌-◌, ◌≤◌, ◌≡◌, ◌≢◌, refl, sym, Bool, true, false, not, List, Option, none, some, ltb,
  ◌==◌, String, if-either, true≢false, arith, if◌then◌else◌,
}
use marstack_cloud.Common.Int.{ℤ, pos, negsuc, ltbℤ}
use marstack_cloud.Autoscale.Decide.{
  Floats, Policy, Group, Decision, Sample, Pressure, Measured, unknown, known, max_step, held,
  step_down, step, clamp, is_cooling, demand, wanted_for, decide_for, decide_under, decide,
}

-- At most a step away.
abbrev IsNear : ℕ → ℤ → Type 0
IsNear from (pos n) = n ≤ from + max_step × from ≤ n + max_step
IsNear from (negsuc n) = from + (n + 1) ≤ max_step

step_down-IsNear : (from : ℕ) → IsNear from (step_down from)
unfolding step_down
step_down-IsNear from =
    if-either (IsNear from) (ltb from max_step) _ _ (λ e. ground arith)
      (λ e. (ground arith, ground arith))

near_below :
    (from n : ℕ) (b : Bool)
    → ltb from max_step ≡ b
    → ltbℤ (pos n) (if b then negsuc (max_step - 1 - from) else pos (from - max_step)) ≡ false
    → from ≤ n + max_step
near_below from n true e k = ground arith
near_below from n false e k = ground arith

near_negative :
    (from n : ℕ) (b : Bool)
    → ltb from max_step ≡ b
    → ltbℤ (negsuc n) (if b then negsuc (max_step - 1 - from) else pos (from - max_step)) ≡ false
    → from + (n + 1) ≤ max_step
near_negative from n true e k = ground arith
near_negative from n false e k = absurd (true≢false k)

step-IsNear : (from : ℕ) (to : ℤ) → IsNear from (step from to)
unfolding step step_down
step-IsNear from (pos n) =
    if-either (IsNear from) (ltb (from + max_step) n) _ _ (λ e. (omega arith, omega arith))
      (λ e.
        if-either (IsNear from) (ltbℤ (pos n) (step_down from)) _ _ (λ k. step_down-IsNear from)
          (λ k. (ground arith, near_below from n _ refl k)))
step-IsNear from (negsuc n) =
    if-either (IsNear from) (ltbℤ (negsuc n) (step_down from)) _ _ (λ k. step_down-IsNear from)
      (λ k. near_negative from n _ refl k)

clamp-IsNear :
    (from low high : ℕ) (z : ℤ)
    → low ≤ from
    → from ≤ high
    → IsNear from z
    → IsNear from (pos (clamp z low high))
unfolding clamp
clamp-IsNear from low high (pos n) l h k = (ground arith, ground arith)
clamp-IsNear from low high (negsuc n) l h k = (ground arith, ground arith)

clamp-low : (z : ℤ) (low high : ℕ) → low ≤ high → low ≤ clamp z low high
unfolding clamp
clamp-low (pos n) low high h = ground arith
clamp-low (negsuc n) low high h = ground arith

clamp-high : (z : ℤ) (low high : ℕ) → low ≤ high → clamp z low high ≤ high
unfolding clamp
clamp-high (pos n) low high h = ground arith
clamp-high (negsuc n) low high h = h

-- What holds of a decision where it acts.
record IsLawful (policy : Policy) (group : Group) (now : ℕ) (d : Decision) : Type 0 where
  pub settled : d.act ≡ true → group.settled ≡ true
  pub rested : d.act ≡ true → is_cooling policy.last_at now ≡ false
  pub least : d.act ≡ true → policy.min ≤ d.replicas
  pub most : d.act ≡ true → d.replicas ≤ policy.max
  pub moves : d.act ≡ true → d.replicas ≢ group.replicas
  pub near :
      d.act ≡ true
      → policy.min ≤ group.replicas
      → group.replicas ≤ policy.max
      → d.replicas ≤ group.replicas + max_step × group.replicas ≤ d.replicas + max_step

held-IsLawful :
    (policy : Policy) (group : Group) (now : ℕ) (reason : String)
    → IsLawful policy group now (held reason)
unfolding held
held-IsLawful policy group now reason =
    let no : (false ≡ true) → ⊥ = λ e. true≢false (sym e) in
    record {
      settled = λ e. absurd (no e);
      rested = λ e. absurd (no e);
      least = λ e. absurd (no e);
      most = λ e. absurd (no e);
      moves = λ e. absurd (no e);
      near = λ e. absurd (no e);
    }

module _ (F : Floats) (policy : Policy) (group : Group) (now : ℕ)
    (limits : policy.min ≤ policy.max) where
  abbrev Allowed : Decision → Type 0
  Allowed d = IsLawful policy group now d

  module _ (is_settled : group.settled ≡ true)
      (is_rested : is_cooling policy.last_at now ≡ false) where
    decide_for-IsLawful : (worst : Option (Pressure F)) → Allowed (decide_for F policy group worst)
    unfolding decide_for wanted_for
    decide_for-IsLawful none = held-IsLawful policy group now _
    decide_for-IsLawful (some worst) =
        if-either Allowed (F.is_close_to_one (demand F worst)) _ _
          (λ e. held-IsLawful policy group now _)
          (λ e.
            if-either Allowed (wanted_for F policy group worst == group.replicas) _ _
              (λ k. held-IsLawful policy group now _)
              (λ k. record {
                settled = λ a. is_settled;
                rested = λ a. is_rested;
                least = λ a. clamp-low _ policy.min policy.max limits;
                most = λ a. clamp-high _ policy.min policy.max limits;
                moves = λ a same. ground arith;
                near = λ a l h.
                    clamp-IsNear group.replicas policy.min policy.max _ l h
                      (step-IsNear group.replicas _);
              }))

    decide_under-IsLawful : (load : Measured F) → Allowed (decide_under F policy group load)
    unfolding decide_under
    decide_under-IsLawful (unknown reason) = held-IsLawful policy group now _
    decide_under-IsLawful (known ready cpu memory) =
        if-either Allowed (ready == 0) _ _ (λ e. held-IsLawful policy group now _)
          (λ e. decide_for-IsLawful _)

of_not : (b : Bool) → not b ≡ false → b ≡ true
of_not true e = refl
of_not false e = sym e

decide-IsLawful :
    (F : Floats) (policy : Policy) (group : Group) (samples : List (String × Sample F)) (now : ℕ)
    → policy.min ≤ policy.max
    → IsLawful policy group now (decide F policy group samples now)
unfolding decide
decide-IsLawful F policy group samples now limits =
    let idle = held-IsLawful policy group now in
    if-either (IsLawful policy group now) (not group.settled) _ _ (λ e. idle _)
      (λ e.
        if-either (IsLawful policy group now) (is_cooling policy.last_at now) _ _ (λ k. idle _)
          (λ k. decide_under-IsLawful F policy group now limits (of_not _ e) k _))

-- What a decision that acts is to be.
pub record IsAllowed (policy : Policy) (group : Group) (now : ℕ) (d : Decision) : Type 0 where
  pub settled : group.settled ≡ true
  pub rested : is_cooling policy.last_at now ≡ false
  pub least : policy.min ≤ d.replicas
  pub most : d.replicas ≤ policy.max
  pub moves : d.replicas ≢ group.replicas

-- Whatever the floating-point operations give, where a policy has its limits in order and the decision
-- is to act, the group has settled, the cooldown is over, and the count asked for is within the limits
-- and differs from the group's.
pub decide-IsAllowed :
    (F : Floats) (policy : Policy) (group : Group) (samples : List (String × Sample F)) (now : ℕ)
    → policy.min ≤ policy.max
    → (decide F policy group samples now).act ≡ true
    → IsAllowed policy group now (decide F policy group samples now)
decide-IsAllowed F policy group samples now limits acts =
    let p = decide-IsLawful F policy group samples now limits in
    record {
      settled = p.settled acts;
      rested = p.rested acts;
      least = p.least acts;
      most = p.most acts;
      moves = p.moves acts;
    }

-- Whatever the floating-point operations give, where a group's count is within the policy's limits, a
-- decision to act asks for a count at most one step away from it.
pub decide-max_step :
    (F : Floats) (policy : Policy) (group : Group) (samples : List (String × Sample F)) (now : ℕ)
    → policy.min ≤ group.replicas
    → group.replicas ≤ policy.max
    → (decide F policy group samples now).act ≡ true
    → (decide F policy group samples now).replicas ≤ group.replicas + max_step
      × group.replicas ≤ (decide F policy group samples now).replicas + max_step
decide-max_step F policy group samples now low high acts =
    let p = decide-IsLawful F policy group samples now (omega arith) in p.near acts low high
