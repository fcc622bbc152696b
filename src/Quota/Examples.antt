-- ===== src/Quota/Examples.antt =====
-- A project with limits that consumes a part of them.
use marstack_cloud.Common.{◌≡◌, refl, ◌↔◌, [], ◌∷◌, none, some, true, if◌then◌else◌, str_eq, arith}
use marstack_cloud.Common.Int.{pos}
use marstack_cloud.Fault.{ok}
use marstack_cloud.Quota.Service.{
  Limits, Amounts, Table, Deps, row_of, read_row, limits_in, by_project, set_checked, check_limits,
  against, confirm_project, write_row, remove_with, remove_found, nothing, no_limits, limits_of,
  consumed_by, admit, set_limits, remove,
}
use marstack_cloud.Quota.Admission.{FitsAll, admit_iff}
use marstack_cloud.Quota.Rows.{
  IsValid, IsRange, set_remove-IsValid, limits_of-set, limits_of-remove,
}

abbrev two : Limits
two = record no_limits { instances = pos 2 }

abbrev one_more : Amounts
one_more = record nothing { instances = 1 }

abbrev deps : Deps
deps = record {
  database = none;
  usage = some (λ _. ok one_more);
  projects = some (λ _. ok true);
  now = 7;
}

abbrev rows : Table
rows = record { project_id = "p"; limits = two; updated_at = 3 } ∷ []

two-IsRange : IsRange two
two-IsRange = record {
  instances = omega arith;
  vcpu = omega arith;
  memory = omega arith;
  volumes = omega arith;
  capacity = omega arith;
}

rows-IsValid : IsValid rows
rows-IsValid = (two-IsRange, tt, tt)

set_lem :
    (set_limits deps "q" two rows).0
    ≡ ok (record { project_id = "q"; limits = two; updated_at = 7 })
unfolding set_limits set_checked check_limits against confirm_project write_row
set_lem = refl

remove_lem : (remove deps "p" rows).0 ≡ ok tt
unfolding remove remove_with remove_found row_of
remove_lem = refl

held : limits_of deps rows "p" ≡ ok two
unfolding limits_of limits_in by_project read_row row_of
held = refl

consumed : consumed_by deps "p" ≡ ok one_more
unfolding consumed_by
consumed = refl

admit_iff_example : (admit deps rows "p" one_more ≡ ok tt) ↔ FitsAll two one_more one_more
admit_iff_example = admit_iff deps rows "p" one_more two one_more held consumed

set_remove-IsValid_example :
    IsValid (set_limits deps "p" two rows).1 × IsValid (remove deps "p" rows).1
set_remove-IsValid_example = set_remove-IsValid deps "p" two rows rows-IsValid

limits_of-set_example :
    limits_of deps (set_limits deps "q" two rows).1 "p"
    ≡ (if str_eq "q" "p" then ok two else limits_of deps rows "p")
limits_of-set_example = limits_of-set deps "q" "p" two rows set_lem

limits_of-remove_example :
    limits_of deps (remove deps "p" rows).1 "p"
    ≡ (if str_eq "p" "p" then ok no_limits else limits_of deps rows "p")
limits_of-remove_example = limits_of-remove deps "p" "p" rows rows-IsValid remove_lem
