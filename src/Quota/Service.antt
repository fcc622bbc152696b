-- ===== src/Quota/Service.antt =====
-- internal/platform/quota/types.go, repository.go and service.go.
use marstack_cloud.Common.{
  ℕ, ◌+◌, String, ◌<>◌, Bool, true, false, ◌&&◌, ◌||◌, List, [], ◌∷◌, Option, none, some,
  if◌then◌else◌, ◌==◌, str_eq, str_lt, itoa, sort_stable, Exec,
}
use marstack_cloud.Common.Int.{ℤ, pos, ltbℤ, eqbℤ, itoaℤ}
use marstack_cloud.Fault.{Error, Kind, Result, ok, err, new_fault, internal_fault, wrapped}

abbrev pub max_limit : ℤ
max_limit = pos 16777216

abbrev pub unlimited : ℤ
unlimited = pos 0

pub record Limits : Type 0 where
  pub instances : ℤ
  pub vcpu : ℤ
  pub memory_mib : ℤ
  pub volumes : ℤ
  pub volume_gib : ℤ

-- The fields of `Consumed` and of `Claim`.
pub record Amounts : Type 0 where
  pub instances : ℕ
  pub vcpu : ℕ
  pub memory_mib : ℕ
  pub volumes : ℕ
  pub volume_gib : ℕ

pub record Quota : Type 0 where
  pub project_id : String
  pub limits : Limits
  pub updated_at : ℕ

pub record Report : Type 0 where
  pub project_id : String
  pub limits : Limits
  pub consumed : Amounts
  pub updated_at : ℕ

abbrev pub no_limits : Limits
no_limits = record {
  instances = unlimited;
  vcpu = unlimited;
  memory_mib = unlimited;
  volumes = unlimited;
  volume_gib = unlimited;
}

abbrev pub nothing : Amounts
nothing = record { instances = 0; vcpu = 0; memory_mib = 0; volumes = 0; volume_gib = 0 }

-- `l == Limits{}`
unfoldable pub is_empty : Limits → Bool
is_empty l =
    eqbℤ l.instances unlimited
    && (eqbℤ l.vcpu unlimited
        && (eqbℤ l.memory_mib unlimited
            && (eqbℤ l.volumes unlimited && eqbℤ l.volume_gib unlimited)))

pub record Dimension : Type 0 where
  pub name : String
  pub unit : String
  pub limit : ℤ
  pub consumed : ℕ
  pub claim : ℕ

abbrev pub dimension : String → String → ℤ → ℕ → ℕ → Dimension
dimension name unit limit consumed claim = record {
  name = name;
  unit = unit;
  limit = limit;
  consumed = consumed;
  claim = claim;
}

unfoldable pub against : Limits → Amounts → Amounts → List Dimension
against l consumed claim =
    dimension "instances" "" l.instances consumed.instances claim.instances
    ∷ dimension "vcpu" "" l.vcpu consumed.vcpu claim.vcpu
    ∷ dimension "memory" "MiB" l.memory_mib consumed.memory_mib claim.memory_mib
    ∷ dimension "volumes" "" l.volumes consumed.volumes claim.volumes
    ∷ dimension "volume capacity" "GiB" l.volume_gib consumed.volume_gib claim.volume_gib
    ∷ []

-- What the database answers: a row, `errNotFound`, or an error of its own.
pub data Row {ℓ} (A : Type ℓ) : Type ℓ where
  found : A → Row A
  missing : Row A
  broken : Error → Row A

abbrev pub Table : Type 0
Table = List Quota

unfoldable pub row_of : Table → String → Row Quota
row_of [] id = missing
row_of (q ∷ qs) id = if str_eq q.project_id id then found q else row_of qs id

-- `INSERT … ON CONFLICT (project_id) DO UPDATE`
unfoldable pub put_row : Table → Quota → Table
put_row [] q = q ∷ []
put_row (r ∷ rs) q = if str_eq r.project_id q.project_id then q ∷ rs else r ∷ put_row rs q

unfoldable pub drop_row : Table → String → Table
drop_row [] id = []
drop_row (r ∷ rs) id = if str_eq r.project_id id then rs else r ∷ drop_row rs id

pub record Deps : Type 0 where
  pub database : Option Error
  pub usage : Option (String → Result Amounts)
  pub projects : Option (String → Result Bool)
  pub now : ℕ

unfoldable pub read_row : Option Error → Table → String → Row Quota
read_row none t id = row_of t id
read_row (some e) t id = broken (wrapped "read quota" e)

unfoldable pub by_project : Deps → Table → String → Row Quota
by_project deps t id = read_row deps.database t id

unfoldable pub check_limits : List Dimension → Result (Unit {0})
check_limits [] = ok tt
check_limits (d ∷ ds) =
    if ltbℤ d.limit (pos 0)
    then err (
        new_fault Kind.invalid "invalid_limit" ("the limit on " <> d.name <> " cannot be negative"))
    else if ltbℤ max_limit d.limit
    then err (
        new_fault Kind.invalid "invalid_limit"
          ("a limit on " <> d.name <> " beyond " <> itoaℤ max_limit <> " is the same as none"))
    else check_limits ds

unfoldable pub write_row : Option Error → Quota → Exec Table Quota
write_row none q t = (ok q, put_row t q)
write_row (some e) q t = (err (internal_fault (wrapped "write quota" e)), t)

unfoldable pub confirm_project : Deps → String → Result (Unit {0})
confirm_project deps id = elim deps.projects [
  | none ↦ err (
      new_fault Kind.unavailable "projects_unavailable"
        "the platform cannot confirm the project exists")
  | some exists ↦ elim (exists id) [
    | err e ↦ err (internal_fault e)
    | ok true ↦ ok tt
    | ok false ↦ err (new_fault Kind.not_found "project_not_found" "no project with that id exists")
  ]
]

-- The rest of `set` after its two checks.
unfoldable pub set_checked : Deps → Quota → Result (Unit {0}) → Result (Unit {0}) → Exec Table Quota
set_checked deps q (err e) confirmed t = (err e, t)
set_checked deps q (ok _) (err e) t = (err e, t)
set_checked deps q (ok _) (ok _) t = write_row deps.database q t

-- `set`
unfoldable pub set_limits : Deps → String → Limits → Exec Table Quota
set_limits deps id limits =
    set_checked deps (record { project_id = id; limits = limits; updated_at = deps.now })
      (check_limits (against limits nothing nothing)) (confirm_project deps id)

unfoldable pub limits_in : Row Quota → Result Limits
limits_in (found q) = ok q.limits
limits_in missing = ok no_limits
limits_in (broken e) = err (internal_fault e)

unfoldable pub limits_of : Deps → Table → String → Result Limits
limits_of deps t id = limits_in (by_project deps t id)

unfoldable pub consumed_by : Deps → String → Result Amounts
consumed_by deps id = elim deps.usage [
  | none ↦ err (
      new_fault Kind.unavailable "usage_unavailable"
        "the platform cannot measure what a project already holds")
  | some in_project ↦ elim (in_project id) [ ok c ↦ ok c | err e ↦ err (internal_fault e) ]
]

abbrev pub updated_of : Row Quota → ℕ
updated_of (found q) = q.updated_at
updated_of missing = 0
updated_of (broken e) = 0

unfoldable pub report : Deps → Table → String → Result Report
report deps t id = elim (limits_of deps t id) [
  | err e ↦ err e
  | ok limits ↦ elim (consumed_by deps id) [
    | err e ↦ err e
    | ok consumed ↦ ok (record {
      project_id = id;
      limits = limits;
      consumed = consumed;
      updated_at = updated_of (by_project deps t id);
    })
  ]
]

abbrev pub report_of : Quota → Amounts → Report
report_of q consumed = record {
  project_id = q.project_id;
  limits = q.limits;
  consumed = consumed;
  updated_at = q.updated_at;
}

unfoldable pub reports_from : Deps → List Quota → Result (List Report)
reports_from deps [] = ok []
reports_from deps (q ∷ qs) =
    let rest = reports_from deps qs in
    elim (consumed_by deps q.project_id) [
      | err e ↦ err e
      | ok c ↦ elim rest [ err e ↦ err e | ok rs ↦ ok (report_of q c ∷ rs) ]
    ]

-- `reports`: the rows in the order of their projects.
unfoldable pub reports : Deps → Table → Result (List Report)
reports deps t = elim deps.database [
  | some e ↦ err (internal_fault (wrapped "list quotas" e))
  | none ↦ reports_from deps (sort_stable (λ q r. str_lt q.project_id r.project_id) t)
]

unfoldable pub refusal : Dimension → String
refusal d =
    let unit = if str_eq d.unit "" then "" else " " <> d.unit in
    let allowance =
      if str_eq d.unit ""
      then itoaℤ d.limit <> " " <> d.name
      else itoaℤ d.limit <> " " <> d.unit <> " of " <> d.name in
    "the project is limited to "
    <> allowance
    <> " and already holds "
    <> itoa d.consumed
    <> unit
    <> ", so "
    <> itoa d.claim
    <> unit
    <> " more would not fit"

unfoldable pub admit_all : List Dimension → Result (Unit {0})
admit_all [] = ok tt
admit_all (d ∷ ds) =
    let rest = admit_all ds in
    if eqbℤ d.limit unlimited || d.claim == 0
    then rest
    else if ltbℤ d.limit (pos (d.consumed + d.claim))
    then err (new_fault Kind.conflict "quota_exceeded" (refusal d))
    else rest

-- Whether the claim fits; nil is `ok`.
unfoldable pub admit : Deps → Table → String → Amounts → Result (Unit {0})
admit deps t id claim = elim (limits_of deps t id) [
  | err e ↦ err e
  | ok limits ↦ if is_empty limits then ok tt else elim (consumed_by deps id) [
    | err e ↦ err e
    | ok consumed ↦ admit_all (against limits consumed claim)
  ]
]

unfoldable pub remove_found : String → Row Quota → Exec Table (Unit {0})
remove_found id missing t =
    (err (new_fault Kind.not_found "quota_not_found" "that project has no limits set"), t)
remove_found id (found _) t = (ok tt, drop_row t id)
remove_found id (broken e) t = (err (internal_fault e), t)

unfoldable pub remove_with : Option Error → String → Exec Table (Unit {0})
remove_with none id t = remove_found id (row_of t id) t
remove_with (some e) id t = (err (internal_fault (wrapped "delete quota" e)), t)

unfoldable pub remove : Deps → String → Exec Table (Unit {0})
remove deps id = remove_with deps.database id
