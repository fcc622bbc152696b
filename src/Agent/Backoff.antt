-- ===== src/Agent/Backoff.antt =====
-- How long the agent waits between two starts.
use native.Mathlib.Nat.{pow-suc}
use marstack_cloud.Common.{ℕ, zero, suc, ◌-◌, ◌*◌, ◌^◌, ◌≤◌, ◌<◌, ◌≡◌, arith}
use Prim.Native.Nat.{min}
use marstack_cloud.Agent.Restart.{
  min_restart_backoff, max_restart_backoff, backoff_loop, backoff_for,
}

pow_pos : (k : ℕ) → 1 ≤ 2 ^ k
pow_pos zero = omega arith
pow_pos (suc k) = omega (arith, pow_pos k, pow-suc 2 k)

doubled : (k b : ℕ) → b * 2 ^ suc k ≡ b * 2 * 2 ^ k
doubled k b = rw (pow-suc 2 k) (omega arith)

grown : (k b : ℕ) → b ≤ b * 2 ^ k
grown k b = let h : 1 ≤ 2 ^ k = pow_pos k in grind arith

backoff_loop-eq :
    (k b : ℕ) → b < max_restart_backoff → backoff_loop k b ≡ min max_restart_backoff (b * 2 ^ k)
unfolding backoff_loop
backoff_loop-eq zero b h = omega arith
backoff_loop-eq (suc k) b h =
    ground (arith, backoff_loop-eq k (b * 2), doubled k b, grown k (b * 2))

-- The wait before attempt n + 1 is the smaller of 2 ^ n seconds and a minute.
pub backoff_for-eq :
    (n : ℕ) → backoff_for (suc n) ≡ min max_restart_backoff (min_restart_backoff * 2 ^ n)
unfolding backoff_for
backoff_for-eq n =
    let e : suc n - 1 ≡ n = omega arith in
    rw e (backoff_loop-eq n min_restart_backoff (omega arith))
