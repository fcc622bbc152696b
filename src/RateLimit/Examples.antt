-- ===== src/RateLimit/Examples.antt =====
-- A limiter of one request in a second, with bursts of two.
use marstack_cloud.Common.{ℕ, ◌+◌, ◌-◌, ◌*◌, ◌/◌, ◌≤◌, ◌≡◌, ltb, arith}
use marstack_cloud.RateLimit.Limiter.{Floats, fresh_limiter, allow, tracked, max_tracked}
use marstack_cloud.RateLimit.Bounds.{tracked-allow}
use marstack_cloud.RateLimit.Bursts.{IsExact, let_through, let_through-fresh_limiter}

-- Thousandths.
abbrev thousandths : Floats
thousandths = record {
  Float = ℕ;
  of_int = λ n. n * 1000;
  seconds = λ n. n / 1000000;
  add = λ a b. a + b;
  subtract = λ a b. a - b;
  times = λ a b. a * b / 1000;
  divide = λ a b. a * 1000 / b;
  is_below = λ a b. ltb a b;
  nanoseconds = λ a. a / 1000;
}

thousandths-IsExact : IsExact thousandths
thousandths-IsExact = record {
  still = λ n rate h. omega arith;
  fewer = λ n h. omega arith;
  compared = λ m n h k. ground arith;
}

let_through-fresh_limiter_example :
    let_through thousandths "10.0.0.7" 5 3 (fresh_limiter thousandths 1 2 5) ≡ 2
let_through-fresh_limiter_example =
    let_through-fresh_limiter thousandths 1 2 5 3 "10.0.0.7" thousandths-IsExact (omega arith)

tracked_lem : tracked thousandths (fresh_limiter thousandths 1 2 5) ≤ max_tracked
unfolding tracked fresh_limiter
tracked_lem = omega arith

tracked-allow_example :
    tracked thousandths (allow thousandths (fresh_limiter thousandths 1 2 5) "10.0.0.7" 9).1
    ≤ max_tracked
tracked-allow_example =
    tracked-allow thousandths (fresh_limiter thousandths 1 2 5) "10.0.0.7" 9 tracked_lem
