-- ===== src/Scheduler/Moves.antt =====
-- What the first two parts of a pass ask of their sources.
use marstack_cloud.Common.{
  String, ◌≡◌, refl, inl, Bool, true, false, not, List, All, All-of_In, arith, str_eq, eq_iff,
  is_nil, Gives, keeps_rules, Gives-when, Gives-bind_any, Gives-attempt-Any, Any, Gives-pure,
  Gives-modify, Gives-bind, Gives-mono, Gives-for_each,
}
use marstack_cloud.Fault.{Result, ok, err}
use marstack_cloud.Events.{Entry}
use marstack_cloud.Scheduler.Types.{
  Sources, Stranded, Call, History, ask, movable_isolation, carries_its_disk,
}
use marstack_cloud.Scheduler.Release.{
  note, already_stranded, forget_recovered, report_stranded, after_release, release_one,
  release_stranded,
}
use marstack_cloud.Scheduler.Drain.{
  already_stuck_draining, forget_unstuck, note_blocked, began, carry_disk,
}
use marstack_cloud.Scheduler.Lawful.{
  Held, IsLost, IsDraining, MayRelease, Allowed, Since, Keeps, keep, Gives-ask,
}

is_container :
    (one : Stranded)
    → not (str_eq one.isolation movable_isolation) ≡ false
    → one.isolation ≡ movable_isolation
is_container one h = ground (arith, eq_iff one.isolation movable_isolation)

pub All-Held :
    (env : Sources) (Leaving : List String → Type 0) (nodes : List String) (held : List Stranded)
    (asked : History)
    → Leaving nodes
    → env.stranded_on nodes asked ≡ ok held
    → All (λ one. Held env Leaving one.id one.node_id one) held
All-Held env Leaving nodes held asked l e = All-of_In held (λ one m. record {
  nodes = nodes;
  leaving = l;
  held = held;
  when = asked;
  told = e;
  member = m;
  same_id = refl;
  same_node = refl;
})

may_release :
    {env : Sources} (one : Stranded)
    → Held env (IsLost env) one.id one.node_id one
    → not (str_eq one.isolation movable_isolation) ≡ false
    → MayRelease env one.id one.node_id one
may_release one h e = inl (h, is_container one e)

pub carries-of_not : (b : Bool) → not b ≡ false → b ≡ true
carries-of_not b h = ground arith

module _ (env : Sources) (old : History) where
  pub note-Keeps : (e : Entry) → Keeps env old (note env e)
  unfolding note
  note-Keeps e = search (keeps_rules, keep env old)

  already_stranded-Keeps : (id : String) → Keeps env old (already_stranded id)
  unfolding already_stranded
  already_stranded-Keeps id = search keeps_rules

  report_stranded-Keeps : (one : Stranded) → Keeps env old (report_stranded env one)
  unfolding report_stranded
  report_stranded-Keeps one = search (keeps_rules, note-Keeps, already_stranded-Keeps)

  pub after_release-Keeps :
      (e : Entry) (r : Result (Unit {0})) → Keeps env old (after_release env e r)
  unfolding after_release
  after_release-Keeps e (ok _) = note-Keeps e
  after_release-Keeps e (err _) = search keeps_rules

  pub release-Keeps :
      (one : Stranded)
      → MayRelease env one.id one.node_id one
      → Keeps env old (
          ask
            (Call.release_placement one.id one.node_id)
            (env.release_placement one.id one.node_id))
  release-Keeps one h = keep env old _ _ (λ _. (one, h))

  release_one-Keeps :
      (one : Stranded) (seen : String → Bool)
      → Held env (IsLost env) one.id one.node_id one
      → Keeps env old (release_one env one seen)
  unfolding release_one
  release_one-Keeps one seen h = search (
    keeps_rules,
    report_stranded-Keeps,
    after_release-Keeps,
    release-Keeps one,
    may_release one h,
  )

  forget_recovered-Keeps : (seen : String → Bool) → Keeps env old (forget_recovered seen)
  unfolding forget_recovered
  forget_recovered-Keeps seen = Gives-modify _ (λ _ p. p)

  pub release_stranded-Keeps : Keeps env old (release_stranded env)
  unfolding release_stranded
  release_stranded-Keeps = Gives-bind _ _ (Gives-ask _ _ (λ _. tt)) (λ lost gone.
      Gives-when (is_nil lost) _ _ (λ _. forget_recovered-Keeps _)
        (λ _. Gives-bind _ _ (Gives-ask _ _ (λ _. tt)) (λ held told.
          Gives-bind_any _ _
            (Gives-for_each Any (λ one. Held env (IsLost env) one.id one.node_id one)
              (release_one env) (λ one seen h _. release_one-Keeps one seen h) held (λ _. false)
              (All-Held env (IsLost env) lost held told.0 gone told.1) tt)
            (λ seen. forget_recovered-Keeps seen))))

  already_stuck-Keeps : (id : String) → Keeps env old (already_stuck_draining id)
  unfolding already_stuck_draining
  already_stuck-Keeps id = search keeps_rules

  pub note_blocked-Keeps : (one : Stranded) → Keeps env old (note_blocked env one)
  unfolding note_blocked
  note_blocked-Keeps one = search (keeps_rules, note-Keeps, already_stuck-Keeps)

  began-Gives :
      (one : Stranded) (r : Result (Unit {0}))
      → Gives (λ s. Since (Allowed env) old s.asked) (began env one r) (λ carrying. carrying ≡ true)
  unfolding began
  began-Gives one (err _) = Gives-pure _ refl
  began-Gives one (ok _) =
      Gives-when one.migrating _ _ (λ _. Gives-pure _ refl)
        (λ _. Gives-bind_any _ _ (note-Keeps _) (λ _. Gives-pure _ refl))

  -- A disk that is not carried is parked already.
  pub carry_disk-Keeps :
      (one : Stranded)
      → Held env (IsDraining env) one.id one.node_id one
      → carries_its_disk one.isolation ≡ true
      → Gives
          (λ s. Since (Allowed env) old s.asked)
          (carry_disk env one)
          (λ carrying. carrying ≡ false → one.disk_parked ≡ true)
  unfolding carry_disk
  carry_disk-Keeps one h c =
      Gives-when one.disk_parked _ _ (λ e. Gives-pure _ (λ _. e))
        (λ e.
          Gives-bind_any _ _ (Gives-attempt-Any _ (keep env old _ _ (λ _. (one, h, c, e))))
            (λ r. Gives-mono _ (λ x t f. cc) (began-Gives one r)))

  pub forget_unstuck-Keeps : (seen : String → Bool) → Keeps env old (forget_unstuck seen)
  unfolding forget_unstuck
  forget_unstuck-Keeps seen = Gives-modify _ (λ _ p. p)
