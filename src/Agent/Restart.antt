-- ===== src/Agent/Restart.antt =====
-- internal/agent/restart.go. Times are nanoseconds since Go's zero time, which is 0; the locks around
-- each operation make it one step. A map is a function into `Option`.
use marstack_cloud.Common.{
  ℕ, zero, suc, ◌+◌, ◌-◌, ◌*◌, String, Bool, true, false, not, ◌&&◌, List, [], ◌∷◌, Option, none,
  some, if◌then◌else◌, leb, ltb, ◌==◌, str_eq,
}

abbrev pub second : ℕ
second = 1000000000

abbrev pub min_restart_backoff : ℕ
min_restart_backoff = 1 * second

abbrev pub max_restart_backoff : ℕ
max_restart_backoff = 60 * second

abbrev pub stable_for : ℕ
stable_for = 60 * second

pub record RestartState : Type 0 where
  pub attempts : ℕ
  pub next_attempt : ℕ
  pub started_at : ℕ
  pub halted_by_user : Bool
  pub start_failure : String
  pub unstartable : String

abbrev pub Restarts : Type 0
Restarts = String → Option RestartState

abbrev pub fresh_state : RestartState
fresh_state = record {
  attempts = 0;
  next_attempt = 0;
  started_at = 0;
  halted_by_user = false;
  start_failure = "";
  unstartable = "";
}

abbrev pub or_fresh : Option RestartState → RestartState
or_fresh none = fresh_state
or_fresh (some s) = s

abbrev pub put : Restarts → String → RestartState → Restarts
put m id s j = if str_eq id j then some s else m j

-- `restartStateOf`: the state of an instance, which is made if there is none.
unfoldable pub restart_state_of : Restarts → String → RestartState × Restarts
restart_state_of m id = let s = or_fresh (m id) in (s, put m id s)

-- A change of one instance's state.
unfoldable pub change : (RestartState → RestartState) → Restarts → String → Restarts
unfolding restart_state_of
change f m id = let (s, m') = restart_state_of m id in put m' id (f s)

unfoldable pub note_halted_by_user : Restarts → String → Restarts
unfolding change
note_halted_by_user =
    change (λ s. record s { attempts = 0; next_attempt = 0; halted_by_user = true })

unfoldable pub take_halted_by_user : Restarts → String → Bool × Restarts
unfolding change
take_halted_by_user m id =
    ((or_fresh (m id)).halted_by_user, change (λ s. record s { halted_by_user = false }) m id)

unfoldable pub note_started : ℕ → Restarts → String → Restarts
unfolding change
note_started now =
    change (λ s. record s { started_at = now; halted_by_user = false; start_failure = "" })

unfoldable pub note_start_failure : String → Restarts → String → Restarts
unfolding change
note_start_failure reason = change (λ s. record s { start_failure = reason })

-- Whether this is the first time that the instance is found unstartable.
unfoldable pub note_unstartable : String → Restarts → String → Bool × Restarts
unfolding change
note_unstartable reason m id =
    (str_eq (or_fresh (m id)).unstartable "", change (λ s. record s { unstartable = reason }) m id)

unfoldable pub unstartable_reason : Restarts → String → (String × Bool) × Restarts
unfolding restart_state_of
unstartable_reason m id =
    let (s, m') = restart_state_of m id in ((s.unstartable, not (str_eq s.unstartable "")), m')

abbrev pub mentions : String → List String → Bool
mentions id [] = false
mentions id (j ∷ js) = if str_eq j id then true else mentions id js

-- `forgetRestarts`, given the ids of the assigned instances.
unfoldable pub forget_restarts : List String → Restarts → Restarts
forget_restarts assigned m id = if mentions id assigned then m id else none

unfoldable pub last_start_failure : Restarts → String → String × Restarts
unfolding restart_state_of
last_start_failure m id = let (s, m') = restart_state_of m id in (s.start_failure, m')

-- `for range attempt - 1 { backoff *= 2; if backoff >= max { return max } }`
unfoldable pub backoff_loop : ℕ → ℕ → ℕ
backoff_loop zero backoff = backoff
backoff_loop (suc rounds) backoff =
    let rest = backoff_loop rounds (backoff * 2) in
    if leb max_restart_backoff (backoff * 2) then max_restart_backoff else rest

unfoldable pub backoff_for : ℕ → ℕ
unfolding backoff_loop
backoff_for attempt = backoff_loop (attempt - 1) min_restart_backoff

-- `now.Sub(t) >= stableFor` is `t + stableFor <= now`.
abbrev pub counted_from : ℕ → RestartState → ℕ
counted_from now s =
    if not (s.started_at == 0) && leb (s.started_at + stable_for) now then 0 else s.attempts

unfoldable pub restarted : ℕ → RestartState → RestartState
unfolding backoff_for
restarted now s =
    let attempts = counted_from now s + 1 in
    record s { attempts = attempts; next_attempt = now + backoff_for attempts }

unfoldable pub note_restart : ℕ → Restarts → String → ℕ × Restarts
unfolding change restarted
note_restart now m id = ((restarted now (or_fresh (m id))).attempts, change (restarted now) m id)

-- Whether a restart is due, and else how long to wait.
unfoldable pub restart_allowed : ℕ → Restarts → String → (Bool × ℕ) × Restarts
unfolding restart_state_of
restart_allowed now m id =
    let (s, m') = restart_state_of m id in
    let wait = s.next_attempt - now in (if ltb 0 wait then (false, wait) else (true, 0), m')

unfoldable pub restart_attempts : Restarts → String → ℕ × Restarts
unfolding restart_state_of
restart_attempts m id = let (s, m') = restart_state_of m id in (s.attempts, m')

-- The exit code is compared with 0 only.
unfoldable pub should_restart : String → Bool → Bool
should_restart policy failed =
    if str_eq policy "always" then true else if str_eq policy "on-failure" then failed else false
