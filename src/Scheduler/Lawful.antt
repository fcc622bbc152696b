-- ===== src/Scheduler/Lawful.antt =====
-- What each call of a pass rests on. `Allowed env c h` says what must hold of the sources and of the
-- calls `h` made before for the pass to make the call `c`.
use marstack_cloud.Common.{
  ℕ, String, ◌≡◌, refl, ◌≢◌, ◌⊎◌, true, false, List, ◌∷◌, none, In, there, Spec, Spec-mono, Post,
  Gives, Fact, Exec, Any, Gives-Any,
}
use marstack_cloud.Fault.{Result, ok, err}
use marstack_cloud.Scheduler.Types.{
  Sources, State, Stranded, Candidate, Pending, Call, Asked, History, ask, carries_its_disk,
  movable_isolation,
}
use marstack_cloud.Scheduler.Select.{matches}

-- The nodes that the node source told to have stopped answering for the grace time.
abbrev pub IsLost : Sources → List String → Type 0
IsLost env nodes = (h : History) × (env.unreachable_nodes env.grace h ≡ ok nodes)

-- The nodes that it told to be draining.
abbrev pub IsDraining : Sources → List String → Type 0
IsDraining env nodes = (h : History) × (env.draining_nodes h ≡ ok nodes)

-- A workload of one of these nodes, as the instance source told.
pub record Held (env : Sources) (Leaving : List String → Type 0) (id node : String) (one : Stranded)
    : Type 0 where
  pub nodes : List String
  pub leaving : Leaving nodes
  pub held : List Stranded
  pub when : History
  pub told : env.stranded_on nodes when ≡ ok held
  pub member : In one held
  pub same_id : one.id ≡ id
  pub same_node : one.node_id ≡ node

-- It can be moved: it is a container, or its disk is parked already.
abbrev pub IsMovable : Stranded → Type 0
IsMovable one =
    (one.isolation ≡ movable_isolation)
    ⊎ ((carries_its_disk one.isolation ≡ true) × (one.disk_parked ≡ true))

-- It may be released: it is a container of a lost node, or it can be moved off a draining one.
abbrev pub MayRelease : Sources → String → String → Stranded → Type 0
MayRelease env id node one =
    (Held env (IsLost env) id node one × (one.isolation ≡ movable_isolation))
    ⊎ (Held env (IsDraining env) id node one × IsMovable one)

-- A waiting instance and a ready node with the labels that it selects.
pub record Fits (env : Sources) (p : Pending) (node : String) : Type 0 where
  pub waiting : List Pending
  pub asked_waiting : History
  pub is_waiting : env.pending_placement asked_waiting ≡ ok waiting
  pub among_waiting : In p waiting
  pub candidates : List Candidate
  pub asked_ready : History
  pub is_ready : env.ready_nodes asked_ready ≡ ok candidates
  pub candidate : Candidate
  pub among_ready : In candidate candidates
  pub same_node : candidate.id ≡ node
  pub selected : matches p.selector candidate ≡ true

-- No member of the group is on the node, as the instance source counted.
pub record IsAlone (env : Sources) (group node : String) : Type 0 where
  pub counted : String → ℕ
  pub when : History
  pub told : env.group_counts group when ≡ ok counted
  pub empty : counted node ≡ 0

pub record Placement (env : Sources) (id node : String) (h : History) : Type 0 where
  pub p : Pending
  pub same_id : p.id ≡ id
  pub fits : Fits env p node
  pub alone : p.strict ≡ true → p.group ≢ "" → IsAlone env p.group node
  pub claimed :
      p.device ≢ ""
      → env.free_device ≢ none
      → In (record { call = Call.claim_device node p.device id; succeeded = true }) h

abbrev pub released : Stranded → Asked
released one = record { call = Call.release_placement one.id one.node_id; succeeded = true }

-- All workloads that were told to stand on the draining node are released from it.
pub record IsEmptied (env : Sources) (node : String) (h : History) : Type 0 where
  pub nodes : List String
  pub draining : IsDraining env nodes
  pub among : In node nodes
  pub held : List Stranded
  pub when : History
  pub told : env.stranded_on nodes when ≡ ok held
  pub each : (one : Stranded) → In one held → one.node_id ≡ node → In (released one) h

abbrev pub Allowed : Sources → Call → History → Type 0
Allowed env (Call.release_placement id node) h = (one : Stranded) × MayRelease env id node one
Allowed env (Call.begin_migration id node) h =
    (one : Stranded) × Held env (IsDraining env) id node one
    × (carries_its_disk one.isolation ≡ true)
    × (one.disk_parked ≡ false)
Allowed env (Call.claim_device node kind id) h =
    (p : Pending) × (p.id ≡ id) × (p.device ≡ kind) × Fits env p node
Allowed env (Call.finish_draining node) h = IsEmptied env node h
Allowed env (Call.assign id node) h = Placement env id node h
Allowed env c h = Unit

-- The history grew from `old`, each new call with `R` of it and of what came before.
pub data Since (R : Call → History → Type 0) (old : History) : History → Type 0 where
  start : Since R old old
  step : {a : Asked} {h : History} → R a.call h → Since R old h → Since R old (a ∷ h)

module _ {R : Call → History → Type 0} {old : History} where
  -- The answer of a call came from its source, at some history.
  pub Gives-ask :
      {A : Type 0} (c : Call) (f : History → Result A)
      → ((h : History) → R c h)
      → Gives {A = A} (λ s. Since R old s.asked) (ask c f) (λ a. (h : History) × (f h ≡ ok a))
  unfolding ask
  Gives-ask {A} c f r = record { at = λ s p. (step (r s.asked) p, told s (f s.asked) refl) }
    where
      told : (s : State) (x : Result A) → f s.asked ≡ x → Fact (λ a. (h : History) × (f h ≡ ok a)) x
      told s (ok a) e = (s.asked, e)
      told s (err x) e = tt

-- A method whose calls are all allowed.
abbrev pub Keeps : Sources → History → {A : Type 0} → Exec State A → Type 0
Keeps env old m = Gives (λ s. Since (Allowed env) old s.asked) m Any

module _ (env : Sources) (old : History) where
  pub keep :
      {A : Type 0} (c : Call) (f : History → Result A)
      → ((h : History) → Allowed env c h)
      → Keeps env old (ask c f)
  keep c f r = Gives-Any (ask c f) (Gives-ask c f r)

module _ {R : Call → History → Type 0} {old : History} where
  pub Since-In : {h : History} {a : Asked} → Since R old h → In a old → In a h
  Since-In start m = m
  Since-In (step r w) m = there (Since-In w m)

Since-trans :
    {R : Call → History → Type 0} {h k l : History} → Since R h k → Since R k l → Since R h l
Since-trans w start = w
Since-trans w (step r v) = step r (Since-trans w v)

-- What holds of a history and of every longer one outlasts a lawful method.
module _ (env : Sources) (old : History) (D : History → Type 0)
    (grows : (h k : History) → Since (Allowed env) h k → D h → D k) where
  outlasts :
      {A : Type 0} (F : A → Type 0) (r : Result A) (h : History) (s : State)
      → Since (Allowed env) old h
      → Since (Allowed env) h s.asked
      → D h
      → Fact F r
      → Post
          (λ s. Since (Allowed env) old s.asked)
          (λ a s. (Since (Allowed env) old s.asked × D s.asked) × F a)
          (r, s)
  outlasts F (ok a) h s w k d f = ((Since-trans w k, grows h s.asked k d), f)
  outlasts F (err e) h s w k d f = Since-trans w k

  pub Spec-outlasts_giving :
      {A : Type 0} (F : A → Type 0) (m : Exec State A)
      → ((from : History) → Gives (λ s. Since (Allowed env) from s.asked) m F)
      → Spec
          (λ s. Since (Allowed env) old s.asked × D s.asked)
          (λ s. Since (Allowed env) old s.asked)
          m
          (λ a s. (Since (Allowed env) old s.asked × D s.asked) × F a)
  Spec-outlasts_giving F m k = record {
    at = λ s p.
        let (r, s') = m s in
        let g = (k s.asked).at s start in outlasts F r s.asked s' p.0 g.0 p.1 g.1;
  }

  pub Spec-outlasts :
      {A : Type 0} (m : Exec State A)
      → ((from : History) → Keeps env from m)
      → Spec
          (λ s. Since (Allowed env) old s.asked × D s.asked)
          (λ s. Since (Allowed env) old s.asked)
          m
          (λ _ s. Since (Allowed env) old s.asked × D s.asked)
  Spec-outlasts m k = Spec-mono m (λ s w. w) (λ a s w. w.0) (Spec-outlasts_giving Any m k)
