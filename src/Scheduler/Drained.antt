-- ===== src/Scheduler/Drained.antt =====
-- The second part of a pass finishes a drain only when the node is empty of what was told to be there.
use marstack_cloud.Common.{
  ◌+◌, ◌≤◌, ◌<◌, String, ◌≡◌, refl, sym, ap, subst, ◌>>=◌, ◌⊎◌, inl, inr, Bool, true, false, List,
  [], ◌∷◌, In, here, there, All, All-of_In, All-map, In-All, arith, str_eq, str_eq_refl, eq_iff,
  ltb, is_nil, attempt, Bool-cases, Gives-when, Gives-bind, Gives-of_Spec, Spec, Spec-bind,
  Spec-mono, Spec-pure, Spec-when, for_each, Spec-for_each, when◌run◌otherwise◌,
}
use marstack_cloud.Fault.{Result, ok, err}
use marstack_cloud.Scheduler.Types.{
  Sources, State, Stranded, Call, Asked, History, M, ask, is_ok, carries_its_disk, update,
}
use marstack_cloud.Scheduler.Drain.{
  forget_unstuck, Progress, stuck_one, moved, move_off, carry_then, empty_one, finish_one,
  empty_draining,
}
use marstack_cloud.Scheduler.Lawful.{
  Held, IsDraining, IsMovable, released, IsEmptied, Allowed, Since, start, step, Since-In,
  Spec-outlasts, Spec-outlasts_giving, Keeps, Gives-ask,
}
use marstack_cloud.Scheduler.Moves.{
  note-Keeps, after_release-Keeps, note_blocked-Keeps, carry_disk-Keeps, forget_unstuck-Keeps,
  All-Held, carries-of_not,
}

-- A workload that was dealt with holds its node up, or is released from it.
abbrev Done : Progress → History → Stranded → Type 0
Done p h one = (0 < p.stuck one.node_id) ⊎ In (released one) h

Done-Since :
    (env : Sources) (p : Progress) (ones : List Stranded) (h k : History)
    → Since (Allowed env) h k
    → All (Done p h) ones
    → All (Done p k) ones
Done-Since env p ones h k w = All-map (go w) ones
  where
    go : Since (Allowed env) h k → (one : Stranded) → Done p h one → Done p k one
    go w one (inl e) = inl e
    go w one (inr m) = inr (Since-In w m)

stuck_grows : (p : Progress) (one : Stranded) (n : String) → p.stuck n ≤ (stuck_one p one).stuck n
stuck_grows p one n = elim (Bool-cases (str_eq one.node_id n)) [
  | inl same ↦
      rw same (subst (λ i. p.stuck n ≤ p.stuck i + 1) (sym ((eq_iff _ n).0 same)) (omega arith))
  | inr other ↦ rw other (omega arith)
]

Done-stuck :
    (p : Progress) (one : Stranded) (h : History) (ones : List Stranded)
    → All (Done p h) ones
    → All (Done (stuck_one p one) h) (one ∷ ones)
Done-stuck p one h ones d = (inl (rw (str_eq_refl one.node_id) (omega arith)), All-map go ones d)
  where
    go : (y : Stranded) → Done p h y → Done (stuck_one p one) h y
    go y (inl e) = inl (omega (arith, stuck_grows p one y.node_id))
    go y (inr m) = inr m

abbrev reverse_onto : List Stranded → List Stranded → List Stranded
reverse_onto [] ys = ys
reverse_onto (x ∷ xs) ys = reverse_onto xs (x ∷ ys)

All-reverse_onto :
    (P : Stranded → Type 0) (xs ys : List Stranded)
    → All P (reverse_onto xs ys)
    → All P xs × All P ys
All-reverse_onto P [] ys h = (tt, h)
All-reverse_onto P (x ∷ xs) ys h =
    let (rest, k) = All-reverse_onto P xs (x ∷ ys) h in ((k.0, rest), k.1)

module _ (env : Sources) (old : History) where
  abbrev Lawful : State → Type 0
  Lawful s = Since (Allowed env) old s.asked

  abbrev Progressed : List Stranded → Progress → State → Type 0
  Progressed ones p s = Since (Allowed env) old s.asked × All (Done p s.asked) ones

  release-Spec :
      (one : Stranded) (p : Progress) (ones : List Stranded)
      → Held env (IsDraining env) one.id one.node_id one
      → IsMovable one
      → Spec
          (Progressed ones p)
          Lawful
          (attempt (
            ask
              (Call.release_placement one.id one.node_id)
              (env.release_placement one.id one.node_id)))
          (λ r s. Progressed ones p s × (is_ok r ≡ true → In (released one) s.asked))
  unfolding ask attempt
  release-Spec one p ones h m = record {
    at = λ s w.
        let a : Asked = record {
          call = Call.release_placement one.id one.node_id;
          succeeded = is_ok (env.release_placement one.id one.node_id s.asked);
        } in
        (
          (step (one, inr (h, m)) w.0, All-map (longer s a) ones w.1),
          λ e. subst (λ b. In (released one) (record a { succeeded = b } ∷ s.asked)) (sym e) here,
        );
  }
    where
      longer : (s : State) (a : Asked) (y : Stranded) → Done p s.asked y → Done p (a ∷ s.asked) y
      longer s a y (inl e) = inl e
      longer s a y (inr k) = inr (there k)

  moved-Spec :
      (one : Stranded) (p : Progress) (ones : List Stranded) (r : Result (Unit {0}))
      → Spec
          (λ s. Progressed ones p s × (is_ok r ≡ true → In (released one) s.asked))
          Lawful
          (moved env one p r)
          (Progressed (one ∷ ones))
  unfolding moved
  moved-Spec one p ones (err e) = Spec-pure _ (λ s w. (w.0.0, Done-stuck p one s.asked ones w.0.1))
  moved-Spec one p ones (ok _) =
      Spec-bind _ _
        (Spec-mono _ (λ s w. (w.0.0, (inr (w.1 refl), w.0.1))) (λ _ _ w. w)
          (Spec-outlasts env old (λ h. All (Done p h) (one ∷ ones))
            (λ h k. Done-Since env p (one ∷ ones) h k) _ (λ from. note-Keeps env from _)))
        (λ _. Spec-pure _ (λ s w. w))

  move_off-Spec :
      (one : Stranded) (p : Progress) (ones : List Stranded)
      → Held env (IsDraining env) one.id one.node_id one
      → IsMovable one
      → Spec (Progressed ones p) Lawful (move_off env one p) (Progressed (one ∷ ones))
  unfolding move_off
  move_off-Spec one p ones h m =
      Spec-bind _ _ (release-Spec one p ones h m) (λ r. moved-Spec one p ones r)

  -- A method that leaves the loop's variables alone.
  beside :
      {A : Type 0} (p : Progress) (ones : List Stranded) (m : M A)
      → ((from : History) → Keeps env from m)
      → Spec (Progressed ones p) Lawful m (λ _. Progressed ones p)
  beside p ones m k =
      Spec-outlasts env old (λ h. All (Done p h) ones) (λ h k. Done-Since env p ones h k) m k

  carry_then-Spec :
      (one : Stranded) (p : Progress) (ones : List Stranded) (carrying : Bool)
      → Held env (IsDraining env) one.id one.node_id one
      → carries_its_disk one.isolation ≡ true
      → Spec
          (λ s. Progressed ones p s × (carrying ≡ false → one.disk_parked ≡ true))
          Lawful
          (carry_then env one p carrying)
          (Progressed (one ∷ ones))
  unfolding carry_then when◌run◌otherwise◌
  carry_then-Spec one p ones true h c =
      Spec-pure _ (λ s w. (w.0.0, Done-stuck p one s.asked ones w.0.1))
  carry_then-Spec one p ones false h c = record {
    at = λ s w. (move_off-Spec one p ones h (inr (c, w.1 refl))).at s w.0;
  }

  empty_one-Spec :
      (one : Stranded) (p : Progress) (ones : List Stranded)
      → Held env (IsDraining env) one.id one.node_id one
      → Spec (Progressed ones p) Lawful (empty_one env one p) (Progressed (one ∷ ones))
  unfolding empty_one
  empty_one-Spec one p ones h =
      Spec-when _ _ _ (λ e. move_off-Spec one q ones h (inl ((eq_iff _ _).0 e)))
        (λ _.
          Spec-when _ _ _
            (λ _.
              Spec-bind _ _ (beside q ones _ (λ from. note_blocked-Keeps env from one))
                (λ _. Spec-pure _ (λ s w. (w.0, Done-stuck q one s.asked ones w.1))))
            (λ e.
              Spec-bind _ _
                (Spec-outlasts_giving env old (λ h. All (Done q h) ones)
                  (λ h k. Done-Since env q ones h k) _ _
                  (λ from. carry_disk-Keeps env from one h (carries-of_not _ e)))
                (λ carrying. carry_then-Spec one q ones carrying h (carries-of_not _ e))))
    where
      q : Progress
      q = record p { seen = update p.seen one.id true }

  All-done :
      (held : List Stranded) (b : Progress)
      → All (λ one. Held env (IsDraining env) one.id one.node_id one) held
      → (ones : List Stranded)
      → Spec
          (Progressed ones b)
          Lawful
          (for_each (empty_one env) held b)
          (λ p s. Progressed (reverse_onto held ones) p s)
  unfolding for_each
  All-done [] b h ones = Spec-pure _ (λ s w. w)
  All-done (one ∷ rest) b h ones =
      Spec-bind _ _ (empty_one-Spec one b ones h.0) (λ b'. All-done rest b' h.1 (one ∷ ones))

  -- A node with nothing stuck is emptied.
  emptied :
      (draining : List String) (held : List Stranded) (asked : History) (p : Progress)
      (node : String)
      → IsDraining env draining
      → env.stranded_on draining asked ≡ ok held
      → In node draining
      → ltb 0 (p.stuck node) ≡ false
      → (h : History) → All (Done p h) held
      → IsEmptied env node h
  emptied draining held asked p node leaving told m free h d = record {
    nodes = draining;
    draining = leaving;
    among = m;
    held = held;
    when = asked;
    told = told;
    each = λ one k e. of_done one e (In-All (Done p h) k d);
  }
    where
      of_done : (one : Stranded) → one.node_id ≡ node → Done p h one → In (released one) h
      of_done one e (inl stuck) = absurd (ground (arith, ap p.stuck e))
      of_done one e (inr k) = k

  finish-Spec :
      (draining : List String) (held : List Stranded) (asked : History) (p : Progress)
      (node : String)
      → IsDraining env draining
      → env.stranded_on draining asked ≡ ok held
      → In node draining
      → ltb 0 (p.stuck node) ≡ false
      → Spec
          (Progressed held p)
          Lawful
          (attempt (ask (Call.finish_draining node) (env.finish_draining node)))
          (λ _. Progressed held p)
  unfolding ask attempt
  finish-Spec draining held asked p node leaving told m free = record {
    at = λ s w.
        let grounds : IsEmptied env node s.asked =
          emptied draining held asked p node leaving told m free s.asked w.1 in
        (step grounds w.0, Done-Since env p held s.asked _ (step grounds start) w.1);
  }

  finish_one-Spec :
      (draining : List String) (held : List Stranded) (asked : History) (p : Progress)
      (node : String) (u : Unit {0})
      → IsDraining env draining
      → env.stranded_on draining asked ≡ ok held
      → In node draining
      → Spec (Progressed held p) Lawful (finish_one env p node u) (λ _. Progressed held p)
  unfolding finish_one
  finish_one-Spec draining held asked p node u leaving told m =
      Spec-when _ _ _ (λ _. Spec-pure _ (λ s w. w))
        (λ free.
          Spec-bind _ _ (finish-Spec draining held asked p node leaving told m free)
            (λ r. beside p held _ (λ from. after_release-Keeps env from _ r)))

  drained-Spec :
      (draining : List String) (held : List Stranded) (asked : History)
      → IsDraining env draining
      → env.stranded_on draining asked ≡ ok held
      → (p : Progress)
      → Spec
          (Progressed held p)
          Lawful
          (for_each (finish_one env p) draining tt)
          (λ _. Progressed held p)
  drained-Spec draining held asked leaving told p =
      Spec-for_each (λ _. Progressed held p) (λ node. In node draining) (finish_one env p)
        (λ node u m. finish_one-Spec draining held asked p node u leaving told m) draining tt
        (All-of_In draining (λ _ m. m))

  emptying-Spec :
      (draining : List String) (held : List Stranded) (asked : History)
      → IsDraining env draining
      → env.stranded_on draining asked ≡ ok held
      → Spec Lawful Lawful
          (for_each (empty_one env) held (record { stuck = λ _. 0; seen = λ _. false }) >>= λ p.
            forget_unstuck p.seen >>= λ _. for_each (finish_one env p) draining tt)
          (λ _ s. Lawful s × Unit)
  emptying-Spec draining held asked leaving told =
      Spec-bind _ _
        (Spec-mono _ (λ s w. (w, tt))
          (λ p s w. (w.0, (All-reverse_onto (Done p s.asked) held [] w.1).0))
          (All-done held _ (All-Held env (IsDraining env) draining held asked leaving told) []))
        (λ p. Spec-bind _ _ (beside p held _ (λ from. forget_unstuck-Keeps env from p.seen)) (λ _.
          Spec-mono _ (λ s w. w) (λ _ s w. (w.0, tt))
            (drained-Spec draining held asked leaving told p)))

  pub empty_draining-Keeps : Keeps env old (empty_draining env)
  unfolding empty_draining
  empty_draining-Keeps = Gives-bind _ _ (Gives-ask _ _ (λ _. tt)) (λ draining leaving.
      Gives-when (is_nil draining) _ _ (λ _. forget_unstuck-Keeps env old _)
        (λ _.
          Gives-bind _ _ (Gives-ask _ _ (λ _. tt))
            (λ held told. Gives-of_Spec _ (emptying-Spec draining held told.0 leaving told.1))))
