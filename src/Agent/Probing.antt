-- ===== src/Agent/Probing.antt =====
-- What the health checks guarantee.
use mathlib.Core.List.{append-nil}
use marstack_cloud.Common.{
  ◌||◌, ℕ, zero, suc, String, ◌≡◌, Bool, true, false, List, [], ◌∷◌, ◌++◌, Option, none, some, All,
  All-append, All-map, ◌≢◌, inl, inr, Bool-cases, arith, str_eq, eq_iff,
}
use marstack_cloud.Agent.Health.{
  ProbeState, ProbeTarget, Backend, Balancer, target_of, skips, mark, concat, backend_targets,
  probe_targets, settle_state,
}

-- The rounds of one target, in order.
abbrev pub rounds : ProbeTarget → ProbeState → List (Option String) → ProbeState
rounds t s [] = s
rounds t s (p ∷ ps) = rounds t (settle_state t s p) ps

abbrev pub passing : ℕ → List (Option String)
passing zero = []
passing (suc k) = none ∷ passing k

abbrev pub failing : List String → List (Option String)
failing [] = []
failing (e ∷ es) = some e ∷ failing es

-- One entry for each instance.
abbrev pub Distinct : List ProbeTarget → Type 0
Distinct [] = Unit
Distinct (t ∷ ts) = All (λ u. t.instance_id ≢ u.instance_id) ts × Distinct ts

pub record IsWanted (mine : String → Bool) (t : ProbeTarget) : Type 0 where
  pub is_mine : mine t.instance_id ≡ true
  pub has_address : t.address ≢ ""
  pub checked : (t.kind ≢ "") × (t.kind ≢ "none")

target_facts :
    (mine seen : String → Bool) (one : Backend)
    → skips mine seen one ≡ false
    → (mine one.instance_id ≡ true) × (one.address ≢ "") × (seen one.instance_id ≡ false)
target_facts mine seen one h =
    (ground arith, λ e. ground (arith, eq_iff one.address ""), ground arith)

unmarked :
    (seen : String → Bool) (id j : String) → mark seen id j ≡ false → (id ≢ j) × (seen j ≡ false)
unmarked seen id j h = (λ e. ground (arith, eq_iff id j), ground arith)

module _ (b : Balancer) (mine : String → Bool) (c : (b.check ≢ "") × (b.check ≢ "none")) where
  -- The targets are wanted, are not among the seen, and differ.
  backend_targets-facts :
      (bs : List Backend) (seen : String → Bool)
      → All (λ t. IsWanted mine t × (seen t.instance_id ≡ false)) (backend_targets b mine bs seen)
        × Distinct (backend_targets b mine bs seen)
  unfolding backend_targets target_of
  backend_targets-facts [] seen = (tt, tt)
  backend_targets-facts (one ∷ rest) seen = elim (Bool-cases (skips mine seen one)) [
    | inl e ↦ rw e (backend_targets-facts rest seen)
    | inr e ↦
        let (m, a, f) = target_facts mine seen one e in
        let (w, d) = backend_targets-facts rest (mark seen one.instance_id) in
        rw e (
          (
            (record { is_mine = m; has_address = a; checked = c }, f),
            All-map (λ t h. (h.0, (unmarked seen one.instance_id t.instance_id h.1).1)) _ w,
          ),
          (All-map (λ t h. (unmarked seen one.instance_id t.instance_id h.1).0) _ w, d),
        )
  ]

is_checked :
    (check : String)
    → (str_eq check "" || str_eq check "none") ≡ false
    → (check ≢ "") × (check ≢ "none")
is_checked check h =
    (λ e. ground (arith, eq_iff check ""), λ e. ground (arith, eq_iff check "none"))

-- Only backends that run on this node and have an address are probed, by a check that is one.
pub probe_targets-IsWanted :
    (bs : List Balancer) (mine : String → Bool) → All (IsWanted mine) (probe_targets bs mine)
unfolding probe_targets
probe_targets-IsWanted [] mine = tt
probe_targets-IsWanted (b ∷ bs) mine =
    elim (Bool-cases (str_eq b.check "" || str_eq b.check "none")) [
      | inl e ↦ rw e (probe_targets-IsWanted bs mine)
      | inr e ↦ rw e (
          All-append (IsWanted mine) (backend_targets b mine (b.backends ++ concat b.routes) _) _
            (All-map (λ t h. h.0) _ (backend_targets-facts b mine (is_checked b.check e) _ _).0)
            (probe_targets-IsWanted bs mine))
    ]

-- A balancer probes each instance once, however many of its routes lead there.
pub probe_targets-Distinct :
    (b : Balancer) (mine : String → Bool) → Distinct (probe_targets (b ∷ []) mine)
unfolding probe_targets
probe_targets-Distinct b mine = elim (Bool-cases (str_eq b.check "" || str_eq b.check "none")) [
  | inl e ↦ rw e tt
  | inr e ↦
      rw (e, append-nil)
        (backend_targets-facts b mine (is_checked b.check e) (b.backends ++ concat b.routes)
          (λ _. false)).1
]
