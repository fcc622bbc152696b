-- ===== src/Job/Counting.antt =====
-- Lists of runs: how many runs of a job are active, and what the statements change of that.
use marstack_cloud.Common.{
  inl, inr, ℕ, suc, ◌≤◌, String, ◌≡◌, refl, ◌≢◌, Bool, true, false, ◌&&◌, List, [], ◌∷◌, none, some,
  if◌then◌else◌, str_eq, str_eq_refl, eq_iff, All, In, here, there, In-All, keep_if, Bool-cases,
  All-of_In, All-sort, All-of_sort, In-keep_if, arith, subst,
}
use marstack_cloud.Job.Types.{Run, Env, is_active, active}
use marstack_cloud.Job.Rows.{runs_of, earlier, update_run, has_run}

-- The active runs of a job.
abbrev pub count : String → List Run → ℕ
count id [] = 0
count id (r ∷ rs) =
    let rest = count id rs in if str_eq r.job_id id && is_active r then suc rest else rest

abbrev pub DistinctRuns : List Run → Type 0
DistinctRuns [] = Unit
DistinctRuns (r ∷ rs) = All (λ q. r.id ≢ q.id) rs × DistinctRuns rs

-- At most one run of each job is active, and no two runs have the same id.
pub record IsValid (runs : List Run) : Type 0 where
  pub one : (id : String) → count id runs ≤ 1
  pub distinct : DistinctRuns runs

active-none : (rs : List Run) → active rs ≡ none → All (λ r. is_active r ≡ false) rs
unfolding active
active-none [] h = tt
active-none (r ∷ rs) h = elim (Bool-cases (is_active r)) [
  | inl e ↦ absurd (ground (arith))
  | inr e ↦ (e, active-none rs (ground arith))
]

pub active-some :
    (P : Run → Type 0) (r : Run) (rs : List Run)
    → All P rs
    → active rs ≡ some r
    → P r × (is_active r ≡ true)
unfolding active
active-some P r [] a h = absurd (cc)
active-some P r (q ∷ qs) a h = elim (Bool-cases (is_active q)) [
  | inl e ↦ let same : q ≡ r = ground arith in subst (λ x. P x × (is_active x ≡ true)) same (a.0, e)
  | inr e ↦ active-some P r qs a.1 (ground arith)
]

kept_head :
    (P : Run → Type 0) (b : Bool) (r : Run) (ks : List Run)
    → All P (elim b [ true ↦ r ∷ ks | false ↦ ks ])
    → (b ≡ true → P r) × All P ks
kept_head P true r ks h = (λ _. h.0, h.1)
kept_head P false r ks h = (λ e. absurd (cc), h)

idle-count :
    (id : String) (runs : List Run)
    → All (λ r. is_active r ≡ false) (keep_if (λ r. str_eq r.job_id id) runs)
    → count id runs ≡ 0
idle-count id [] h = refl
idle-count id (r ∷ rs) h =
    let (idle, rest) = kept_head (λ r. is_active r ≡ false) (str_eq r.job_id id) r _ h in
    ground (arith, idle, idle-count id rs rest)

-- A job whose runs were read and none of them active has no active run in the table.
pub count-active :
    (env : Env) (id : String) (runs : List Run)
    → active (runs_of env id runs) ≡ none
    → count id runs ≡ 0
unfolding runs_of
count-active env id runs h = idle-count id runs (All-of_sort (earlier env) _ _ (active-none _ h))

-- The active run that was read is a row of the table.
pub active-In :
    (env : Env) (id : String) (runs : List Run) (r : Run)
    → active (runs_of env id runs) ≡ some r
    → In r runs × (str_eq r.job_id id ≡ true) × (is_active r ≡ true)
unfolding runs_of
active-In env id runs r h =
    let p =
      active-some (λ x. In x runs × (str_eq x.job_id id ≡ true)) r _
        (All-sort (earlier env) _ _ (
          All-of_In (keep_if (λ x. str_eq x.job_id id) runs)
            (λ x m. In-keep_if (λ x. str_eq x.job_id id) x runs m)))
        h in
    (p.0.0, p.0.1, p.1)

counted-In :
    (id : String) (r : Run) (runs : List Run)
    → In r runs
    → str_eq r.job_id id ≡ true
    → is_active r ≡ true
    → 1 ≤ count id runs
counted-In id r [] m j a = elim m [ ]
counted-In id r (_ ∷ rs) here j a = ground arith
counted-In id r (q ∷ qs) (there m) j a = ground (arith, counted-In id r qs m j a)

-- A change of a row that leaves its id.
abbrev pub KeepsKeys : (Run → Run) → Type 0
KeepsKeys f = (r : Run) → ((f r).id ≡ r.id) × ((f r).job_id ≡ r.job_id)

fresh-update :
    (id x : String) (f : Run → Run) (runs : List Run)
    → KeepsKeys f
    → All (λ q. x ≢ q.id) runs
    → All (λ q. x ≢ q.id) (update_run id f runs)
unfolding update_run
fresh-update id x f [] k h = tt
fresh-update id x f (r ∷ rs) k h = elim (Bool-cases (str_eq r.id id)) [
  | inl e ↦ rw (e, (k r).0) (h.0, fresh-update id x f rs k h.1)
  | inr e ↦ rw e (h.0, fresh-update id x f rs k h.1)
]

pub distinct-update :
    (id : String) (f : Run → Run) (runs : List Run)
    → KeepsKeys f
    → DistinctRuns runs
    → DistinctRuns (update_run id f runs)
unfolding update_run
distinct-update id f [] k d = tt
distinct-update id f (r ∷ rs) k d = elim (Bool-cases (str_eq r.id id)) [
  | inl e ↦ rw (e, (k r).0) (fresh-update id r.id f rs k d.0, distinct-update id f rs k d.1)
  | inr e ↦ rw e (fresh-update id r.id f rs k d.0, distinct-update id f rs k d.1)
]

-- A change that leaves no row active takes from every count.
pub count-settle_le :
    (x id : String) (f : Run → Run) (runs : List Run)
    → ((r : Run) → is_active (f r) ≡ false)
    → count x (update_run id f runs) ≤ count x runs
unfolding update_run
count-settle_le x id f [] s = omega arith
count-settle_le x id f (r ∷ rs) s = ground (arith, s r, count-settle_le x id f rs s)

-- Settling the one active run of a job leaves it none.
pub count-settle :
    (x : String) (f : Run → Run) (r : Run) (runs : List Run)
    → ((r : Run) → is_active (f r) ≡ false)
    → In r runs
    → str_eq r.job_id x ≡ true
    → is_active r ≡ true
    → count x runs ≤ 1
    → count x (update_run r.id f runs) ≡ 0
unfolding update_run
count-settle x f r [] s m j a c = elim m [ ]
count-settle x f r (_ ∷ rs) s here j a c =
    ground (arith, s r, str_eq_refl r.id, count-settle_le x r.id f rs s)
count-settle x f r (q ∷ qs) s (there m) j a c =
    ground (arith, s q, counted-In x r qs m j a, count-settle x f r qs s m j a)

no_row :
    (id : String) (f : Run → Run) (runs : List Run)
    → All (λ q. id ≢ q.id) runs
    → update_run id f runs ≡ runs
unfolding update_run
no_row id f [] h = refl
no_row id f (r ∷ rs) h = ground (arith, h.0, eq_iff r.id id, no_row id f rs h.1)

-- Changing an active run to another active one changes no count.
pub count-resume :
    (x : String) (f : Run → Run) (r : Run) (runs : List Run)
    → KeepsKeys f
    → ((r : Run) → is_active (f r) ≡ true)
    → DistinctRuns runs
    → In r runs
    → is_active r ≡ true
    → count x (update_run r.id f runs) ≡ count x runs
unfolding update_run
count-resume x f r [] k s d m a = elim m [ ]
count-resume x f r (_ ∷ rs) k s d here a =
    rw (str_eq_refl r.id, no_row r.id f rs d.0)
      (let g = s r in let h = (k r).1 in rw (g, h, a) refl)
count-resume x f r (q ∷ qs) k s d (there m) a =
    let ne = In-All (λ z. q.id ≢ z.id) m d.0 in
    let e : str_eq q.id r.id ≡ false = ground (arith, eq_iff q.id r.id) in
    let ih = count-resume x f r qs k s d.1 m a in rw (e, ih) refl

pub has_run-Distinct :
    (r : Run) (runs : List Run) → has_run r.id runs ≡ false → All (λ q. r.id ≢ q.id) runs
has_run-Distinct r [] h = tt
has_run-Distinct r (q ∷ qs) h =
    (λ e. ground (arith, eq_iff q.id r.id), has_run-Distinct r qs (ground arith))
