-- ===== src/Scheduler/Select.antt =====
-- Which nodes may take an instance, and which of them is the best.
use marstack_cloud.Common.{
  ◌<>◌, ℕ, ◌+◌, String, Bool, true, false, not, ◌&&◌, List, [], ◌∷◌, ltb, ◌==◌, if◌then◌else◌,
  str_eq, str_lt, keep_if, sort_stable, head_or,
}
use marstack_cloud.Scheduler.Types.{Candidate, Load, update}

-- `matches`: every label that the selector names has the value that it wants.
unfoldable pub matches : List (String × String) → Candidate → Bool
matches [] c = true
matches ((key, want) ∷ rest) c = if str_eq (c.labels key) want then matches rest c else false

unfoldable pub matching : List Candidate → List (String × String) → List Candidate
matching candidates [] = candidates
matching candidates (l ∷ ls) = keep_if (matches (l ∷ ls)) candidates

-- `byZone[c.Zone] += members[c.ID]` over the candidates.
unfoldable pub by_zone : (String → ℕ) → List Candidate → (String → ℕ) → String → ℕ
by_zone members [] zones = zones
by_zone members (c ∷ cs) zones =
    by_zone members cs (update zones c.zone (zones c.zone + members c.id))

-- What the comparison looks at.
pub record View : Type 0 where
  pub counts : String → ℕ
  pub load : String → Load
  pub members : String → ℕ
  pub zones : String → ℕ

-- The comparison that `bestFor` sorts by.
unfoldable pub less : View → Candidate → Candidate → Bool
less v left right =
    let zi = v.zones left.zone in
    let zj = v.zones right.zone in
    let mi = v.members left.id in
    let mj = v.members right.id in
    let li = v.load left.id in
    let lj = v.load right.id in
    let ci = v.counts left.id in
    let cj = v.counts right.id in
    if not (zi == zj)
    then ltb zi zj
    else if not (mi == mj)
    then ltb mi mj
    else if li.fresh && (lj.fresh && not (li.memory_free_mib == lj.memory_free_mib))
    then ltb lj.memory_free_mib li.memory_free_mib
    else if not (ci == cj)
    then ltb ci cj
    else str_lt left.name right.name

unfoldable pub view_of : List Candidate → (String → ℕ) → (String → Load) → (String → ℕ) → View
view_of candidates counts load members = record {
  counts = counts;
  load = load;
  members = members;
  zones = by_zone members candidates (λ _. 0);
}

-- `bestFor` on a list that is not empty, given by its first element and the others: the first of
-- the sorted candidates, and whether it has no member of the group yet.
unfoldable pub best_for :
    Candidate → List Candidate → (String → ℕ) → (String → Load) → (String → ℕ) → Candidate × Bool
best_for c cs counts load members =
    let best =
      head_or (less (view_of (c ∷ cs) counts load members)) c
        (sort_stable (less (view_of (c ∷ cs) counts load members)) (c ∷ cs)) in
    (best, members best.id == 0)

-- `describe`: the selector in the order of its keys.
unfoldable pub joined : List (String × String) → String
joined [] = ""
joined ((key, value) ∷ []) = key <> "=" <> value
joined ((key, value) ∷ l ∷ ls) = key <> "=" <> value <> " " <> joined (l ∷ ls)

unfoldable pub describe : List (String × String) → String
describe selector = joined (sort_stable (λ l r. str_lt l.0 r.0) selector)
