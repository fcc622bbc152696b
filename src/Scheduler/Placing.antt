-- ===== src/Scheduler/Placing.antt =====
-- What the third part of a pass asks of its sources, and so the whole pass.
use marstack_cloud.Common.{
  ℕ, ◌+◌, ◌≤◌, String, ◌≡◌, refl, sym, subst, ◌≢◌, inl, inr, true, List, [], ◌∷◌, Option, none,
  some, In, here, In-keep_if, arith, str_eq, eq_iff, attempt, Spec, Spec-bind, Spec-mono, Spec-pure,
  Spec-of_Gives, Bool-cases, Gives, keeps_rules, Gives-when, Gives-bind, Gives-bind_any,
  Gives-attempt-Any, Gives-pure, Gives-pure-Any,
}
use marstack_cloud.Fault.{Result, ok, err}
use marstack_cloud.Scheduler.Types.{
  Sources, Candidate, Pending, Call, History, M, ask, update, is_ok,
}
use marstack_cloud.Scheduler.Select.{matches, matching}
use marstack_cloud.Scheduler.Place.{
  Tally, remember, members_of, hold_with, count_in, allocate_on, allocate_with, allocate_all,
  assigned, assign_to, claimed,
}
use marstack_cloud.Scheduler.Lawful.{Placement, Allowed, Since, step, Keeps, keep, Gives-ask}
use marstack_cloud.Scheduler.Moves.{note-Keeps}

-- The nodes that match are candidates, and carry the labels.
pub matching-matches :
    (selector : List (String × String)) (cs : List Candidate) (c : Candidate)
    → In c (matching cs selector)
    → In c cs × (matches selector c ≡ true)
unfolding matching matches
matching-matches [] cs c m = (m, refl)
matching-matches (l ∷ ls) cs c m = In-keep_if (matches (l ∷ ls)) c cs m

-- The members that the pass knows of are those counted, and those placed since.
abbrev pub Counted : Sources → String → (String → ℕ) → Type 0
Counted env group members =
    (base : String → ℕ) × (when : History) × (env.group_counts group when ≡ ok base)
    × ((node : String) → base node ≤ members node)

abbrev pub IsCounted : Sources → Tally → Type 0
IsCounted env t =
    (group : String) (members : String → ℕ)
    → t.groups group ≡ some members
    → Counted env group members

IsCounted-update :
    (env : Sources) (t : Tally) (group : String) (members : String → ℕ)
    → IsCounted env t
    → Counted env group members
    → IsCounted env (record t { groups = update t.groups group (some members) })
IsCounted-update env t group members h c g m e = elim (Bool-cases (str_eq group g)) [
  | inl same ↦
      subst (λ g'. Counted env g' m) ((eq_iff group g).0 same)
        (subst (Counted env group) (ground arith) c)
  | inr other ↦ h g m (ground arith)
]

update_grows : (m : String → ℕ) (k j : String) (n : ℕ) → n ≤ m j → n ≤ update m k (m k + 1) j
update_grows m k j n h = elim (Bool-cases (str_eq k j)) [
  | inl same ↦ rw same (subst (λ i. n ≤ m i + 1) (sym ((eq_iff k j).0 same)) (omega arith))
  | inr other ↦ rw other h
]

Counted-update :
    (env : Sources) (group node : String) (members : String → ℕ)
    → Counted env group members
    → Counted env group (update members node (members node + 1))
Counted-update env group node members (base, asked, told, le) =
    (base, asked, told, λ n. update_grows members node n (base n) (le n))

-- What `membersOf` gives: the counted members, and a tally that knows only such.
abbrev pub Members : Sources → String → (String → ℕ) × Tally → Type 0
Members env group r = (group ≢ "" → Counted env group r.0) × IsCounted env r.1

count_in-IsCounted :
    (env : Sources) (p : Pending) (target : Candidate) (members : String → ℕ) (t : Tally)
    → Members env p.group (members, t)
    → IsCounted env (count_in p target members t)
unfolding count_in
count_in-IsCounted env p target members t h = elim (Bool-cases (str_eq p.group "")) [
  | inl none_named ↦ rw none_named h.1
  | inr named ↦ rw named (
      IsCounted-update env t p.group _ h.1 (
        Counted-update env p.group target.id members
          (h.0 (λ e. ground (arith, eq_iff p.group "")))))
]

module _ (env : Sources) (old : History) where
  remember-Gives :
      (t : Tally) (group : String) (o : Option (String → ℕ))
      → t.groups group ≡ o
      → IsCounted env t
      → Gives (λ s. Since (Allowed env) old s.asked) (remember t group o env) (Members env group)
  unfolding remember
  remember-Gives t group (some known) e h = Gives-pure _ ((λ _. h group known e), h)
  remember-Gives t group none e h = Gives-bind _ _ (Gives-ask _ _ (λ _. tt)) (λ members told.
      let c : Counted env group members = (members, told.0, told.1, λ n. omega arith) in
      Gives-pure _ ((λ _. c), IsCounted-update env t group members h c))

  pub members_of-Gives :
      (t : Tally) (group : String)
      → IsCounted env t
      → Gives (λ s. Since (Allowed env) old s.asked) (members_of env t group) (Members env group)
  unfolding members_of
  members_of-Gives t group h =
      Gives-when _ _ _ (λ e. Gives-pure _ ((λ ne. absurd (ne ((eq_iff group "").0 e))), h))
        (λ _. remember-Gives t group (t.groups group) refl h)

  pub hold_with-Keeps : (p : Pending) (reason : String) → Keeps env old (hold_with env p reason)
  unfolding hold_with
  hold_with-Keeps p reason = search (keeps_rules, keep env old)

  allocate_on-Keeps :
      (one : String → M Unit) (ns : List String)
      → ((n : String) → Keeps env old (one n))
      → Keeps env old (allocate_on one ns)
  unfolding allocate_on
  allocate_on-Keeps one [] h = Gives-pure-Any _
  allocate_on-Keeps one (n ∷ ns) h =
      Gives-bind_any _ _ (Gives-attempt-Any _ (h n)) (λ _. allocate_on-Keeps one ns h)

  allocate_with-Keeps :
      (o : Option (String → String → String → History → Result (Unit {0}))) (p : Pending)
      (target : Candidate)
      → Keeps env old (allocate_with o p target)
  unfolding allocate_with
  allocate_with-Keeps none p target = Gives-pure-Any _
  allocate_with-Keeps (some allocate) p target =
      Gives-when _ _ _ (λ _. Gives-pure-Any _)
        (λ _. allocate_on-Keeps _ _ (λ n. keep env old _ _ (λ _. tt)))

  allocate_all-Keeps :
      (p : Pending) (target : Candidate) → Keeps env old (allocate_all env p target)
  unfolding allocate_all
  allocate_all-Keeps p target = allocate_with-Keeps env.allocate p target

  assigned-Gives :
      (p : Pending) (target : Candidate) (members : String → ℕ) (t : Tally) (r : Result (Unit {0}))
      → Members env p.group (members, t)
      → Gives
          (λ s. Since (Allowed env) old s.asked)
          (assigned env p target members t r)
          (IsCounted env)
  unfolding assigned
  assigned-Gives p target members t (err e) h = Gives-pure _ h.1
  assigned-Gives p target members t (ok _) h = Gives-bind_any _ _ (note-Keeps env old _) (λ _.
      Gives-bind_any _ _ (allocate_all-Keeps p target)
        (λ _. Gives-pure _ (count_in-IsCounted env p target members t h)))

  -- A call whose grounds stand in the history.
  call-Spec :
      {A : Type 0} (D : History → Type 0) (c : Call) (f : History → Result A)
      → ((h : History) → D h → Allowed env c h)
      → Spec
          (λ s. Since (Allowed env) old s.asked × D s.asked)
          (λ s. Since (Allowed env) old s.asked)
          (attempt (ask c f))
          (λ r s. Since (Allowed env) old s.asked)
  unfolding ask attempt
  call-Spec D c f h = record { at = λ s p. step (h s.asked p.1) p.0 }

  pub assign_to-Spec :
      (D : History → Type 0) (p : Pending) (target : Candidate) (members : String → ℕ) (t : Tally)
      → ((h : History) → D h → Placement env p.id target.id h)
      → Members env p.group (members, t)
      → Spec
          (λ s. Since (Allowed env) old s.asked × D s.asked)
          (λ s. Since (Allowed env) old s.asked)
          (assign_to env p target members t)
          (λ t' s. Since (Allowed env) old s.asked × IsCounted env t')
  unfolding assign_to
  assign_to-Spec D p target members t d h =
      Spec-bind _ _ (call-Spec D _ _ d)
        (λ r. Spec-of_Gives _ (assigned-Gives p target members t r h))

  -- A device that was claimed is claimed for good.
  pub claim-Spec :
      {A : Type 0} (c : Call) (f : History → Result A)
      → ((h : History) → Allowed env c h)
      → Spec
          (λ s. Since (Allowed env) old s.asked)
          (λ s. Since (Allowed env) old s.asked)
          (attempt (ask c f))
          (λ r s.
            Since (Allowed env) old s.asked
            × (is_ok r ≡ true → In (record { call = c; succeeded = true }) s.asked))
  unfolding ask attempt
  claim-Spec c f h = record {
    at = λ s p. (
      step (h s.asked) p,
      λ e.
          subst
            (λ b.
              In (record { call = c; succeeded = true })
                (record { call = c; succeeded = b } ∷ s.asked))
            (sym e) here,
    );
  }

  pub claimed-Spec :
      (p : Pending) (target : Candidate) (members : String → ℕ) (t : Tally) (r : Result String)
      → (D : History → Type 0) → ((h : History) → D h → Placement env p.id target.id h)
      → Members env p.group (members, t)
      → Spec
          (λ s. Since (Allowed env) old s.asked × (is_ok r ≡ true → D s.asked))
          (λ s. Since (Allowed env) old s.asked)
          (claimed env p target members t r)
          (λ t' s. Since (Allowed env) old s.asked × IsCounted env t')
  unfolding claimed
  claimed-Spec p target members t (ok _) D d h =
      Spec-mono _ (λ s k. (k.0, k.1 refl)) (λ _ _ k. k) (assign_to-Spec D p target members t d h)
  claimed-Spec p target members t (err e) D d h = Spec-pure _ (λ s k. (k.0, h.1))
