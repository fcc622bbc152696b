-- ===== src/Scheduler/Pass.antt =====
-- A whole pass: every call of it is allowed.
use marstack_cloud.Common.{
  ℕ, String, ◌≡◌, refl, ◌≢◌, Bool, true, false, not, ◌&&◌, List, [], ◌∷◌, Option, none, some,
  if◌then◌else◌, In, All, All-of_In, arith, str_eq, eq_iff, is_nil, Spec-bind, Spec-mono,
  Gives-of_Spec, Gives, Gives-when, Gives-bind, Gives-bind_any, Gives-attempt-Any, Gives-Any,
  Gives-pure, Gives-pure-Any, Gives-for_each,
}
use marstack_cloud.Fault.{Result}
use marstack_cloud.Scheduler.Types.{Sources, State, Candidate, Pending, Load, Call, History, M}
use marstack_cloud.Scheduler.Select.{matches, matching, best_for}
use marstack_cloud.Scheduler.Place.{
  Tally, hold_unmatched, hold, hold_without, has_free, carrying_from, carrying_with, carrying,
  claim_and_assign, choose, choose_held, choose_matching, place_one, load_with, read_load,
  place_all, tick,
}
use marstack_cloud.Scheduler.Lawful.{
  Fits, IsAlone, Placement, Allowed, Since, start, Keeps, keep, Gives-ask,
}
use marstack_cloud.Scheduler.Moves.{release_stranded-Keeps}
use marstack_cloud.Scheduler.Drained.{empty_draining-Keeps}
use marstack_cloud.Scheduler.Ranking.{best_for-All, best_for-room}
use marstack_cloud.Scheduler.Placing.{
  matching-matches, Counted, IsCounted, Members, members_of-Gives, hold_with-Keeps, assign_to-Spec,
  claim-Spec, claimed-Spec,
}

no_claim :
    {A : Type 0} (device : String) (o : Option A)
    → (not (str_eq device "") && (elim o [ none ↦ false | some _ ↦ true ])) ≡ false
    → device ≢ ""
    → o ≢ none
    → ⊥
no_claim device none e ne nf = nf refl
no_claim device (some a) e ne nf = ne (ground (arith, eq_iff device ""))

IsAlone-of_Counted :
    (env : Sources) (group node : String) (members : String → ℕ)
    → Counted env group members
    → members node ≡ 0
    → IsAlone env group node
IsAlone-of_Counted env group node members (base, asked, told, le) e = record {
  counted = base;
  when = asked;
  told = told;
  empty = omega (arith, le node);
}

module _ (env : Sources) (old : History) where
  abbrev Tallies : M Tally → Type 0
  Tallies m = Gives (λ s. Since (Allowed env) old s.asked) m (IsCounted env)

  claim_and_assign-Gives :
      (p : Pending) (target : Candidate) (members : String → ℕ) (t : Tally)
      → Fits env p target.id
      → (p.strict ≡ true → p.group ≢ "" → members target.id ≡ 0)
      → Members env p.group (members, t)
      → Tallies (claim_and_assign env p target members t)
  unfolding claim_and_assign
  claim_and_assign-Gives p target members t fits room h =
      Gives-when _ _ _
        (λ _. Gives-of_Spec _ (
          Spec-bind _ _ (claim-Spec env old _ _ (λ _. (p, refl, refl, fits))) (λ r.
            claimed-Spec env old p target members t r
              (In (record { call = Call.claim_device target.id p.device p.id; succeeded = true }))
              (λ k claimed. placed k (λ _ _. claimed)) h)))
        (λ e. Gives-of_Spec _ (
          Spec-mono _ (λ s k. (k, tt)) (λ _ _ k. k)
            (assign_to-Spec env old (λ _. Unit) p target members t
              (λ k _. placed k (λ ne nf. absurd (no_claim p.device env.free_device e ne nf))) h)))
    where
      alone : p.strict ≡ true → p.group ≢ "" → IsAlone env p.group target.id
      alone st ne = IsAlone-of_Counted env p.group target.id members (h.0 ne) (room st ne)

      placed :
          (k : History)
          → (p.device ≢ ""
              → env.free_device ≢ none
              → In
                  (record { call = Call.claim_device target.id p.device p.id; succeeded = true })
                  k)
          → Placement env p.id target.id k
      placed k c = record { p = p; same_id = refl; fits = fits; alone = alone; claimed = c }

  -- A strict member that is not held has a node of its own.
  has_room :
      (strict room : Bool) (group : String)
      → (strict && (not (str_eq group "") && not room)) ≡ false
      → strict ≡ true
      → group ≢ ""
      → room ≡ true
  has_room strict true group e s ne = refl
  has_room true false group e s ne = absurd (ne (ground (arith, eq_iff group "")))
  has_room false false group e s ne = s

  choose-Gives :
      (load : String → Load) (p : Pending) (members : String → ℕ) (t : Tally) (c : Candidate)
      (cs : List Candidate)
      → All (λ c. Fits env p c.id) (c ∷ cs)
      → Members env p.group (members, t)
      → Tallies (choose env load p members t c cs)
  unfolding choose hold
  choose-Gives load p members t c cs fits h =
      Gives-when _ _ _
        (λ _. Gives-bind_any _ _ (hold_with-Keeps env old p _) (λ _. Gives-pure _ h.1))
        (λ e.
          claim_and_assign-Gives p _ members t
            (best_for-All (λ c. Fits env p c.id) c cs t.counts load members fits.0 fits.1)
            (λ st ne.
              best_for-room c cs t.counts load members
                (has_room p.strict (best_for c cs t.counts load members).1 p.group e st ne))
            h)

  choose_held-Gives :
      (load : String → Load) (p : Pending) (members : String → ℕ) (t : Tally) (cs : List Candidate)
      → All (λ c. Fits env p c.id) cs
      → Members env p.group (members, t)
      → Tallies (choose_held env load p members t cs)
  unfolding choose_held hold_without
  choose_held-Gives load p members t [] fits h =
      Gives-bind_any _ _ (hold_with-Keeps env old p _) (λ _. Gives-pure _ h.1)
  choose_held-Gives load p members t (c ∷ cs) fits h = choose-Gives load p members t c cs fits h

  All-if :
      (Q : Candidate → Type 0) (b : Bool) (one : Candidate) (cs : List Candidate)
      → Q one
      → All Q cs
      → All Q (if b then one ∷ cs else cs)
  All-if Q true one cs q h = (q, h)
  All-if Q false one cs q h = h

  carrying_from-Gives :
      (Q : Candidate → Type 0) (free : String → M (Result (String × Bool))) (cs : List Candidate)
      → ((id : String) → Keeps env old (free id))
      → All Q cs
      → Gives (λ s. Since (Allowed env) old s.asked) (carrying_from free cs) (All Q)
  unfolding carrying_from
  carrying_from-Gives Q free [] h q = Gives-pure _ tt
  carrying_from-Gives Q free (one ∷ rest) h q = Gives-bind_any _ _ (h one.id) (λ r.
      Gives-bind _ _ (carrying_from-Gives Q free rest h q.1)
        (λ held k. Gives-pure _ (All-if Q (has_free r) one held q.0 k)))

  carrying_with-Gives :
      (Q : Candidate → Type 0) (o : Option (String → String → History → Result (String × Bool)))
      (cs : List Candidate) (kind : String)
      → All Q cs
      → Gives (λ s. Since (Allowed env) old s.asked) (carrying_with o cs kind) (All Q)
  unfolding carrying_with
  carrying_with-Gives Q none cs kind q = Gives-pure _ tt
  carrying_with-Gives Q (some free) cs kind q =
      carrying_from-Gives Q _ cs (λ id. Gives-attempt-Any _ (keep env old _ _ (λ _. tt))) q

  choose_matching-Gives :
      (load : String → Load) (p : Pending) (members : String → ℕ) (t : Tally) (cs : List Candidate)
      → All (λ c. Fits env p c.id) cs
      → Members env p.group (members, t)
      → Tallies (choose_matching env load p members t cs)
  unfolding choose_matching hold_unmatched carrying
  choose_matching-Gives load p members t [] fits h =
      Gives-bind_any _ _ (hold_with-Keeps env old p _) (λ _. Gives-pure _ h.1)
  choose_matching-Gives load p members t (c ∷ cs) fits h =
      Gives-when _ _ _ (λ _. choose-Gives load p members t c cs fits h)
        (λ _.
          Gives-bind _ _
            (carrying_with-Gives (λ c. Fits env p c.id) env.free_device (c ∷ cs) p.device fits)
            (λ held k. choose_held-Gives load p members t held k h))

  place_one-Gives :
      (candidates : List Candidate) (load : String → Load) (p : Pending) (t : Tally)
      → ((c : Candidate) → In c candidates → matches p.selector c ≡ true → Fits env p c.id)
      → IsCounted env t
      → Tallies (place_one env candidates load p t)
  unfolding place_one
  place_one-Gives candidates load p t fits h =
      Gives-bind _ _ (members_of-Gives env old t p.group h) (λ r k.
        choose_matching-Gives load p r.0 r.1 (matching candidates p.selector)
          (All-of_In _
            (λ c m. let w = matching-matches p.selector candidates c m in fits c w.0 w.1))
          k)

  load_with-Keeps : (o : Option (History → Result (String → Load))) → Keeps env old (load_with o)
  unfolding load_with
  load_with-Keeps none = Gives-pure-Any _
  load_with-Keeps (some node_load) =
      Gives-bind_any _ _ (Gives-attempt-Any _ (keep env old _ _ (λ _. tt))) (λ _. Gives-pure-Any _)

  place_all-Keeps :
      (pending : List Pending) (candidates : List Candidate)
      → ((p : Pending) (c : Candidate)
          → In p pending
          → In c candidates
          → matches p.selector c ≡ true
          → Fits env p c.id)
      → Keeps env old (place_all env pending candidates)
  unfolding place_all read_load
  place_all-Keeps pending candidates fits =
      Gives-bind_any _ _ (load_with-Keeps env.node_load) (λ load.
        Gives-bind_any _ _ (keep env old _ _ (λ _. tt)) (λ counts.
          Gives-bind_any _ _
            (Gives-Any _ (
              Gives-for_each (IsCounted env)
                (λ p.
                  (c : Candidate) → In c candidates → matches p.selector c ≡ true → Fits env p c.id)
                (place_one env candidates load) (λ p t f h. place_one-Gives candidates load p t f h)
                pending _ (All-of_In pending (λ p m c. fits p c m)) (λ g m e. absurd (cc))))
            (λ _. Gives-pure-Any _)))

  tick-Keeps : Keeps env old (tick env)
  unfolding tick
  tick-Keeps = Gives-bind_any _ _ (release_stranded-Keeps env old) (λ _.
      Gives-bind_any _ _ (empty_draining-Keeps env old) (λ _.
        Gives-bind _ _ (Gives-ask _ _ (λ _. tt)) (λ pending told.
          Gives-when (is_nil pending) _ _ (λ _. Gives-pure-Any _)
            (λ _. Gives-bind _ _ (Gives-ask _ _ (λ _. tt)) (λ candidates ready.
              Gives-when (is_nil candidates) _ _ (λ _. Gives-pure-Any _)
                (λ _. place_all-Keeps pending candidates (λ p c mp mc fit. record {
                  waiting = pending;
                  asked_waiting = told.0;
                  is_waiting = told.1;
                  among_waiting = mp;
                  candidates = candidates;
                  asked_ready = ready.0;
                  is_ready = ready.1;
                  candidate = c;
                  among_ready = mc;
                  same_node = refl;
                  selected = fit;
                })))))))

-- Whatever the sources answer, the history after a pass is the one before it with calls added that
-- are all allowed: a workload is released from its node only if it was told to stand on nodes that the
-- node source told to be lost, and is a container, or on nodes that it told to be draining, and is a
-- container or has its disk parked; a migration is begun only for one told to stand on draining nodes
-- that carries its disk and has not parked it; a drain is finished only of a node told to be draining,
-- when every workload told to stand on it was released from it; a device is claimed only for a waiting instance that wants it,
-- on a ready node with the labels that it selects, and an instance is assigned only if it is
-- waiting, to such a node, with no member of its group counted there if it is strict, and after a
-- device was claimed for it there if it wants one and devices are kept.
pub tick-Allowed : (env : Sources) (s : State) → Since (Allowed env) s.asked (tick env s).1.asked
tick-Allowed env s = ((tick-Keeps env s.asked).at s start).0
