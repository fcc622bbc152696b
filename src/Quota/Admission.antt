-- ===== src/Quota/Admission.antt =====
-- service.go: which claims are admitted.
use marstack_cloud.Common.{
  ℕ, ◌+◌, ◌≤◌, String, ◌≡◌, refl, ◌⊎◌, ◌↔◌, inl, inr, true, ◌||◌, ◌==◌, List, [], ◌∷◌, All, arith,
  Bool-cases, if◌then◌else◌,
}
use marstack_cloud.Common.Int.{ℤ, pos, negsuc, ltbℤ, eqbℤ}
use marstack_cloud.Fault.{Error, Result, ok, err}
use marstack_cloud.Quota.Service.{
  Limits, Amounts, Dimension, Table, Deps, unlimited, is_empty, against, limits_of, consumed_by,
  admit_all, admit,
}

-- The claim fits under a limit: there is none, nothing is claimed, or the sum stays within it.
abbrev pub Fits : ℤ → ℕ → ℕ → Type 0
Fits (negsuc n) consumed claim = claim ≡ 0
Fits (pos n) consumed claim = (n ≡ 0) ⊎ (claim ≡ 0) ⊎ (consumed + claim ≤ n)

-- On every dimension.
pub record FitsAll (l : Limits) (consumed claim : Amounts) : Type 0 where
  pub instances : Fits l.instances consumed.instances claim.instances
  pub vcpu : Fits l.vcpu consumed.vcpu claim.vcpu
  pub memory : Fits l.memory_mib consumed.memory_mib claim.memory_mib
  pub volumes : Fits l.volumes consumed.volumes claim.volumes
  pub capacity : Fits l.volume_gib consumed.volume_gib claim.volume_gib

abbrev FitsEach : List Dimension → Type 0
FitsEach = All (λ d. Fits d.limit d.consumed d.claim)

admit_one :
    (limit : ℤ) (consumed claim : ℕ) (e : Error) (rest : Result (Unit {0}))
    → let r =
        if eqbℤ limit unlimited || claim == 0
        then rest
        else if ltbℤ limit (pos (consumed + claim))
        then err e
        else rest in
      (r ≡ ok tt → Fits limit consumed claim × (rest ≡ ok tt))
      × (Fits limit consumed claim → rest ≡ ok tt → r ≡ ok tt)
admit_one (pos n) consumed claim e rest = ground arith
admit_one (negsuc n) consumed claim e rest = ground arith

admit_all_iff :
    (ds : List Dimension)
    → (admit_all ds ≡ ok tt → FitsEach ds) × (FitsEach ds → admit_all ds ≡ ok tt)
unfolding admit_all
admit_all_iff [] = ((λ _. tt), λ _. refl)
admit_all_iff (d ∷ ds) =
    let (to, from) = admit_one d.limit d.consumed d.claim _ (admit_all ds) in
    let (to_rest, from_rest) = admit_all_iff ds in
    ((λ e. ((to e).0, to_rest (to e).1)), λ f. from f.0 (from_rest f.1))

empty-FitsAll :
    (l : Limits) (consumed claim : Amounts) → is_empty l ≡ true → FitsAll l consumed claim
unfolding is_empty
empty-FitsAll l consumed claim h = record {
  instances = go l.instances _ _ (ground arith);
  vcpu = go l.vcpu _ _ (ground arith);
  memory = go l.memory_mib _ _ (ground arith);
  volumes = go l.volumes _ _ (ground arith);
  capacity = go l.volume_gib _ _ (ground arith);
}
  where
    go : (z : ℤ) (a b : ℕ) → eqbℤ z unlimited ≡ true → Fits z a b
    go (pos n) a b e = inl (ground arith)
    go (negsuc n) a b e = absurd (cc)

FitsEach-iff :
    (l : Limits) (consumed claim : Amounts)
    → (FitsEach (against l consumed claim) → FitsAll l consumed claim)
      × (FitsAll l consumed claim → FitsEach (against l consumed claim))
unfolding against
FitsEach-iff l consumed claim = (
  λ f. record {
    instances = f.0;
    vcpu = f.1.0;
    memory = f.1.1.0;
    volumes = f.1.1.1.0;
    capacity = f.1.1.1.1.0;
  },
  λ f. (f.instances, (f.vcpu, (f.memory, (f.volumes, (f.capacity, tt))))),
)

admit_lem :
    (deps : Deps) (t : Table) (id : String) (claim : Amounts) (l : Limits) (consumed : Amounts)
    → limits_of deps t id ≡ ok l
    → consumed_by deps id ≡ ok consumed
    → admit deps t id claim ≡ (if is_empty l then ok tt else admit_all (against l consumed claim))
unfolding admit
admit_lem deps t id claim l consumed hl hc = ground arith

-- With limits and consumption that can be read, a claim is admitted exactly when it fits under
-- every limit of the project.
pub admit_iff :
    (deps : Deps) (t : Table) (id : String) (claim : Amounts) (l : Limits) (consumed : Amounts)
    → limits_of deps t id ≡ ok l
    → consumed_by deps id ≡ ok consumed
    → (admit deps t id claim ≡ ok tt) ↔ FitsAll l consumed claim
admit_iff deps t id claim l consumed hl hc =
    rw (admit_lem deps t id claim l consumed hl hc) (elim (Bool-cases (is_empty l)) [
      | inl e ↦ rw e ((λ _. empty-FitsAll l consumed claim e), λ _. refl)
      | inr e ↦
          let (to, from) = admit_all_iff (against l consumed claim) in
          let (up, down) = FitsEach-iff l consumed claim in
          rw e ((λ h. up (to h)), λ f. from (down f))
    ])
