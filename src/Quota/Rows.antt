-- ===== src/Quota/Rows.antt =====
-- service.go and repository.go: what is stored, and what is read back.
use marstack_cloud.Common.{
  ◌≤◌, String, ◌≡◌, refl, ◌≢◌, inl, inr, Bool, true, false, List, [], ◌∷◌, All, Option, none, some,
  arith, subst, str_eq, eq_iff, Bool-cases, if◌then◌else◌,
}
use marstack_cloud.Common.Int.{ℤ, pos, negsuc, ltbℤ}
use marstack_cloud.Fault.{Error, Result, ok, err}
use marstack_cloud.Quota.Service.{
  Limits, Quota, Dimension, Table, Deps, Row, found, missing, broken, max_limit, no_limits, nothing,
  against, row_of, put_row, drop_row, by_project, check_limits, write_row, set_limits, limits_of,
  set_checked, remove_found, remove_with, read_row, limits_in, remove,
}

abbrev InRange : ℤ → Type 0
InRange (pos n) = n ≤ 16777216
InRange (negsuc n) = ⊥

-- The limits that may be stored.
pub record IsRange (l : Limits) : Type 0 where
  pub instances : InRange l.instances
  pub vcpu : InRange l.vcpu
  pub memory : InRange l.memory_mib
  pub volumes : InRange l.volumes
  pub capacity : InRange l.volume_gib

check_one :
    (z : ℤ) (e e' : Error) (rest : Result (Unit {0}))
    → (if ltbℤ z (pos 0) then err e else if ltbℤ max_limit z then err e' else rest) ≡ ok tt
    → InRange z × (rest ≡ ok tt)
check_one (pos n) e e' rest h = ground arith
check_one (negsuc n) e e' rest h = cc

check_limits-InRange :
    (ds : List Dimension) → check_limits ds ≡ ok tt → All (λ d. InRange d.limit) ds
unfolding check_limits
check_limits-InRange [] h = tt
check_limits-InRange (d ∷ ds) h =
    let (r, rest) = check_one d.limit _ _ (check_limits ds) h in (r, check_limits-InRange ds rest)

-- No project has two rows, and every row is in range.
abbrev Absent : String → Table → Type 0
Absent id = All (λ q. q.project_id ≢ id)

abbrev pub IsValid : Table → Type 0
IsValid [] = Unit
IsValid (q ∷ qs) = IsRange q.limits × Absent q.project_id qs × IsValid qs

Absent-put :
    (id : String) (t : Table) (q : Quota)
    → Absent id t
    → q.project_id ≢ id
    → Absent id (put_row t q)
unfolding put_row
Absent-put id [] q a ne = (ne, tt)
Absent-put id (r ∷ rs) q a ne = elim (Bool-cases (str_eq r.project_id q.project_id)) [
  | inl e ↦ rw e (ne, a.1)
  | inr e ↦ rw e (a.0, Absent-put id rs q a.1 ne)
]

put-IsValid : (t : Table) (q : Quota) → IsValid t → IsRange q.limits → IsValid (put_row t q)
unfolding put_row
put-IsValid [] q v r = (r, tt, tt)
put-IsValid (p ∷ ps) q v r = elim (Bool-cases (str_eq p.project_id q.project_id)) [
  | inl e ↦ rw e (r, subst (λ i. Absent i ps) ((eq_iff _ _).0 e) v.1, v.2)
  | inr e ↦ rw e (
    v.0,
    Absent-put p.project_id ps q v.1 (λ same. ground (arith, eq_iff p.project_id q.project_id)),
    put-IsValid ps q v.2 r,
  )
]

Absent-drop : (id j : String) (t : Table) → Absent id t → Absent id (drop_row t j)
unfolding drop_row
Absent-drop id j [] a = tt
Absent-drop id j (r ∷ rs) a = elim (Bool-cases (str_eq r.project_id j)) [
  | inl e ↦ rw e a.1
  | inr e ↦ rw e (a.0, Absent-drop id j rs a.1)
]

drop-IsValid : (t : Table) (id : String) → IsValid t → IsValid (drop_row t id)
unfolding drop_row
drop-IsValid [] id v = tt
drop-IsValid (r ∷ rs) id v = elim (Bool-cases (str_eq r.project_id id)) [
  | inl e ↦ rw e v.2
  | inr e ↦ rw e (v.0, Absent-drop r.project_id id rs v.1, drop-IsValid rs id v.2)
]

IsRange-of_check : (l : Limits) → check_limits (against l nothing nothing) ≡ ok tt → IsRange l
unfolding against
IsRange-of_check l h =
    let r = check_limits-InRange _ h in
    record {
      instances = r.0;
      vcpu = r.1.0;
      memory = r.1.1.0;
      volumes = r.1.1.1.0;
      capacity = r.1.1.1.1.0;
    }

write-IsValid :
    (o : Option Error) (q : Quota) (t : Table)
    → IsValid t
    → IsRange q.limits
    → IsValid (write_row o q t).1
unfolding write_row
write-IsValid none q t v r = put-IsValid t q v r
write-IsValid (some e) q t v r = v

set_checked-IsValid :
    (deps : Deps) (q : Quota) (c d : Result (Unit {0})) (t : Table)
    → IsValid t
    → (c ≡ ok tt → IsRange q.limits)
    → IsValid (set_checked deps q c d t).1
unfolding set_checked
set_checked-IsValid deps q (err e) d t v r = v
set_checked-IsValid deps q (ok _) (err e) t v r = v
set_checked-IsValid deps q (ok _) (ok _) t v r = write-IsValid deps.database q t v (r refl)

remove_found-IsValid :
    (id : String) (r : Row Quota) (t : Table) → IsValid t → IsValid (remove_found id r t).1
unfolding remove_found
remove_found-IsValid id missing t v = v
remove_found-IsValid id (found _) t v = drop-IsValid t id v
remove_found-IsValid id (broken e) t v = v

remove_with-IsValid :
    (o : Option Error) (id : String) (t : Table) → IsValid t → IsValid (remove_with o id t).1
unfolding remove_with
remove_with-IsValid none id t v = remove_found-IsValid id (row_of t id) t v
remove_with-IsValid (some e) id t v = v

-- Setting and removing limits, whether they succeed or fail, keep a table valid: no project has
-- two rows, and every limit is between 0 and 2 ^ 24.
pub set_remove-IsValid :
    (deps : Deps) (id : String) (l : Limits) (t : Table)
    → IsValid t
    → IsValid (set_limits deps id l t).1 × IsValid (remove deps id t).1
unfolding set_limits remove
set_remove-IsValid deps id l t v = (
  set_checked-IsValid deps _ _ _ t v (IsRange-of_check l),
  remove_with-IsValid deps.database id t v,
)

row_of-put :
    (t : Table) (q : Quota) (j : String)
    → row_of (put_row t q) j ≡ (if str_eq q.project_id j then found q else row_of t j)
unfolding row_of put_row
row_of-put [] q j = refl
row_of-put (r ∷ rs) q j = ground (
  arith,
  eq_iff r.project_id q.project_id,
  eq_iff r.project_id j,
  eq_iff q.project_id j,
  row_of-put rs q j,
)

row_of-Absent : (t : Table) (id : String) → Absent id t → row_of t id ≡ missing
unfolding row_of
row_of-Absent [] id a = refl
row_of-Absent (r ∷ rs) id a = ground (arith, eq_iff r.project_id id, row_of-Absent rs id a.1)

row_of-drop :
    (t : Table) (id j : String)
    → IsValid t
    → row_of (drop_row t id) j ≡ (if str_eq id j then missing else row_of t j)
unfolding row_of drop_row
row_of-drop [] id j v = ground arith
row_of-drop (r ∷ rs) id j v = ground (
  arith,
  eq_iff r.project_id id,
  eq_iff r.project_id j,
  eq_iff id j,
  row_of-drop rs id j v.2,
  row_of-Absent rs r.project_id v.1,
)

limits_in-if :
    (b : Bool) (r s : Row Quota)
    → limits_in (if b then r else s) ≡ (if b then limits_in r else limits_in s)
limits_in-if true r s = refl
limits_in-if false r s = refl

-- One database serves the write and the reads: a write that succeeds is read back.
set_read :
    (deps : Deps) (o : Option Error) (q : Quota) (c d : Result (Unit {0})) (t : Table) (j : String)
    → deps.database ≡ o
    → (set_checked (record deps { database = o }) q c d t).0 ≡ ok q
    → limits_in (read_row o (set_checked (record deps { database = o }) q c d t).1 j)
      ≡ (if str_eq q.project_id j then ok q.limits else limits_in (read_row o t j))
unfolding set_checked write_row read_row limits_in
set_read deps o q (err e) d t j p h = cc
set_read deps o q (ok _) (err e) t j p h = cc
set_read deps (some e) q (ok _) (ok _) t j p h = cc
set_read deps none q (ok _) (ok _) t j p h = rw (row_of-put t q j) (limits_in-if _ _ _)

-- Where setting limits succeeded, they are the limits of the project from then on, and the limits
-- of every other project are as before.
pub limits_of-set :
    (deps : Deps) (id j : String) (l : Limits) (t : Table)
    → (set_limits deps id l t).0
      ≡ ok (record { project_id = id; limits = l; updated_at = deps.now })
    → limits_of deps (set_limits deps id l t).1 j
      ≡ (if str_eq id j then ok l else limits_of deps t j)
unfolding limits_of by_project set_limits
limits_of-set deps id j l t h = set_read deps deps.database _ _ _ t j refl h

remove_read :
    (o : Option Error) (id j : String) (t : Table) (r : Row Quota)
    → IsValid t
    → (remove_found id r t).0 ≡ ok tt
    → o ≡ none
    → limits_in (read_row o (remove_found id r t).1 j)
      ≡ (if str_eq id j then ok no_limits else limits_in (read_row o t j))
unfolding remove_found read_row limits_in
remove_read o id j t missing v h e = cc
remove_read o id j t (broken x) v h e = cc
remove_read (some x) id j t (found q) v h e = cc
remove_read none id j t (found q) v h e = rw (row_of-drop t id j v) (limits_in-if _ _ _)

remove_read_with :
    (o : Option Error) (id j : String) (t : Table)
    → IsValid t
    → (remove_with o id t).0 ≡ ok tt
    → limits_in (read_row o (remove_with o id t).1 j)
      ≡ (if str_eq id j then ok no_limits else limits_in (read_row o t j))
unfolding remove_with
remove_read_with (some x) id j t v h = cc
remove_read_with none id j t v h = remove_read none id j t (row_of t id) v h refl

-- In a valid table, where removing limits succeeded, the project has none from then on, and the
-- limits of every other project are as before.
pub limits_of-remove :
    (deps : Deps) (id j : String) (t : Table)
    → IsValid t
    → (remove deps id t).0 ≡ ok tt
    → limits_of deps (remove deps id t).1 j
      ≡ (if str_eq id j then ok no_limits else limits_of deps t j)
unfolding limits_of by_project remove
limits_of-remove deps id j t v h = remove_read_with deps.database id j t v h
