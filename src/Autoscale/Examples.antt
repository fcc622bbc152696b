-- ===== src/Autoscale/Examples.antt =====
-- The theorem at a concrete input, and decisions.
use marstack_cloud.Common.{
  ℕ, ◌+◌, ◌*◌, ◌/◌, ◌≡◌, refl, true, List, [], ◌∷◌, none, String, ltb, leb, itoa, ◌&&◌, ◌≤◌, arith,
}
use marstack_cloud.Common.Int.{pos}
use marstack_cloud.Autoscale.Decide.{
  Floats, Policy, Group, Sample, decide, clamp, step, step_down, warmup, is_cooling, decide_under,
  total_load, add_member, add_sample, sample_of, decide_for, hardest_pressed, harder, pressure_on,
  demand, wanted_for,
}
use marstack_cloud.Autoscale.Allowed.{IsAllowed, decide-IsAllowed, decide-max_step}

-- Thousandths.
abbrev thousandths : Floats
thousandths = record {
  Float = ℕ;
  of_int = λ n. n * 1000;
  add = λ a b. a + b;
  divide = λ a b. a * 1000 / b;
  times = λ a b. a * b / 1000;
  is_above = λ a b. ltb b a;
  is_close_to_one = λ a. leb 850 a && leb a 1150;
  ceiling = λ a. pos ((a + 999) / 1000);
  print = λ a. itoa (a / 1000);
}

abbrev policy : Policy
policy = record { min = 1; max = 10; target_cpu = 50; target_memory = 0; last_at = none }

abbrev group : Group
group = record {
  replicas = 2;
  settled = true;
  members =
      record { instance_id = "a"; created_at = 0 }
      ∷ record { instance_id = "b"; created_at = 0 }
      ∷ [];
}

abbrev busy : Sample thousandths
busy = record {
  cpu_percent = 80000;
  memory_percent = 10000;
  memory_known = true;
  reported_at = warmup;
}

abbrev samples : List (String × Sample thousandths)
samples = ("a", busy) ∷ ("b", busy) ∷ []

acts : (decide thousandths policy group samples warmup).act ≡ true
unfolding decide is_cooling decide_under total_load add_member add_sample sample_of decide_for
    hardest_pressed harder pressure_on demand wanted_for clamp step step_down
acts = refl

decide-IsAllowed_example :
    IsAllowed policy group warmup (decide thousandths policy group samples warmup)
decide-IsAllowed_example =
    decide-IsAllowed thousandths policy group samples warmup (omega arith) acts

decide-max_step_example :
    (decide thousandths policy group samples warmup).replicas ≤ 6
    × 2 ≤ (decide thousandths policy group samples warmup).replicas + 4
decide-max_step_example =
    decide-max_step thousandths policy group samples warmup (omega arith) (omega arith) acts

grown : (decide thousandths policy group samples warmup).replicas ≡ 4
unfolding decide is_cooling decide_under total_load add_member add_sample sample_of decide_for
    hardest_pressed harder pressure_on demand wanted_for clamp step step_down
grown = refl
