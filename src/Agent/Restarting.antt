-- ===== src/Agent/Restarting.antt =====
-- What the bookkeeping of restarts guarantees.
use marstack_cloud.Common.{
  ℕ, ◌+◌, ◌≤◌, ◌<◌, String, ◌≡◌, ◌≢◌, refl, Bool, str_eq, not, true, false, arith, eq_iff,
  str_eq_refl,
}
use marstack_cloud.Agent.Restart.{
  Restarts, note_halted_by_user, take_halted_by_user, note_started, note_start_failure,
  note_unstartable, note_restart, restart_allowed, restart_attempts, restarted, restart_state_of,
  unstartable_reason, last_start_failure, backoff_for, stable_for, change,
}

-- After an attempt, which is at least the first, the next is allowed exactly when the wait for
-- that many attempts has passed since.
pub restart_allowed-note_restart :
    (m : Restarts) (id : String) (now later : ℕ)
    → let (n, m') = note_restart now m id in
      ((restart_allowed later m' id).0.0 ≡ true → now + backoff_for n ≤ later)
      × (now + backoff_for n ≤ later → (restart_allowed later m' id).0.0 ≡ true)
      × (1 ≤ n)
unfolding note_restart restart_allowed change restarted
restart_allowed-note_restart m id now later = ground (arith, str_eq_refl id)

-- An instance that was noted as started, at a time after Go's zero time, and ran for the stable
-- time begins to count its attempts again; one that ran for less goes on counting.
pub note_restart-attempts :
    (m : Restarts) (id : String) (now started : ℕ)
    → 0 < started
    → let m' = note_started started m id in
      let n = (restart_attempts m id).0 in
      (started + stable_for ≤ now → (note_restart now m' id).0 ≡ 1)
      × (now < started + stable_for → (note_restart now m' id).0 ≡ n + 1)
unfolding note_restart note_started restart_attempts change restarted
note_restart-attempts m id now started h = ground (arith, str_eq_refl id)

-- A halt by the user is taken once, and clears the attempts and the wait.
pub take_halted-note_halted :
    (m : Restarts) (id : String) (now : ℕ)
    → let (halted, m') = take_halted_by_user (note_halted_by_user m id) id in
      (halted ≡ true)
      × ((take_halted_by_user m' id).0 ≡ false)
      × ((restart_attempts m' id).0 ≡ 0)
      × ((restart_allowed now m' id).0.0 ≡ true)
unfolding take_halted_by_user note_halted_by_user restart_attempts restart_allowed change
take_halted-note_halted m id now = ground (arith, str_eq_refl id)

twice : (b : Bool) → b ≡ not (not b)
twice true = refl
twice false = refl

is_not : (s t : String) → s ≢ t → str_eq s t ≡ false
is_not s t ne = ground (arith, eq_iff s t)

-- A reason for which an instance cannot start, which is not empty, is news exactly where none was held
-- before, and is no news when noted again. A start failure and a start after it leave the reason; the
-- failure is read back until the start, which clears it.
pub unstartable_reason-note_unstartable :
    (m : Restarts) (id reason failure : String) (now : ℕ)
    → reason ≢ ""
    → let (fresh, noted) = note_unstartable reason m id in
      let failed = note_start_failure failure noted id in
      let started = note_started now failed id in
      (fresh ≡ not (unstartable_reason m id).0.1)
      × ((note_unstartable reason noted id).0 ≡ false)
      × ((unstartable_reason noted id).0 ≡ (reason, true))
      × ((unstartable_reason failed id).0 ≡ (reason, true))
      × ((unstartable_reason started id).0 ≡ (reason, true))
      × ((last_start_failure failed id).0 ≡ failure)
      × ((last_start_failure started id).0 ≡ "")
unfolding note_unstartable note_start_failure note_started unstartable_reason last_start_failure
    change restart_state_of
unstartable_reason-note_unstartable m id reason failure now ne =
    rw (str_eq_refl id, is_not reason "" ne) (twice _, refl, refl, refl, refl, refl, refl)
