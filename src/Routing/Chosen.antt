-- ===== src/Routing/Chosen.antt =====
-- The route that a request gets is the most specific of those that take it.
use marstack_cloud.Common.{
  inl, inr, ◌≡◌, sym, ◌∙◌, String, true, false, List, [], ◌∷◌, Option, none, some, map, All,
  All-of_In, All-of_sort, In, sort_stable, Ordered, Ordered-sort, All-sort, Bool-cases, true≢false,
}
use marstack_cloud.Routing.Routes.{
  Texts, EndpointRoute, CompiledRoute, goes_before, compiled, compile_routes, host_only, takes,
  first_taking, match_route,
}
use marstack_cloud.Routing.Matching.{Anything, IsAtLeast, ranking}

All-Anything : (rs : List CompiledRoute) → All Anything rs
All-Anything [] = tt
All-Anything (r ∷ rs) = (tt, All-Anything rs)

module _ (T : Texts) (host path : String) where
  -- What a choice among the routes is to be: one of them that takes the request, and at least as
  -- specific as every other that does; and none where no route takes it.
  abbrev pub MostSpecificOf :
      (P : CompiledRoute → Type 0) (table : List CompiledRoute) → Option CompiledRoute → Type 0
  MostSpecificOf P table none = All (λ s. takes T host path s ≡ false) table
  MostSpecificOf P table (some r) =
      P r × takes T host path r ≡ true × All (λ s. takes T host path s ≡ true → IsAtLeast r s) table

  All-at_least :
      (r : CompiledRoute) (rs : List CompiledRoute)
      → All (IsAtLeast r) rs
      → All (λ s. takes T host path s ≡ true → IsAtLeast r s) rs
  All-at_least r [] h = tt
  All-at_least r (s ∷ rs) h = (λ e. h.0, All-at_least r rs h.1)

  past :
      (P : CompiledRoute → Type 0) (one : CompiledRoute) (table : List CompiledRoute)
      (found : Option CompiledRoute)
      → takes T host path one ≡ false
      → MostSpecificOf P table found
      → MostSpecificOf P (one ∷ table) found
  past P one table none e k = (e, k)
  past P one table (some r) e k = (k.0, k.1, (λ t. absurd (true≢false (sym t ∙ e)), k.2))

  first_taking-MostSpecificOf :
      (P : CompiledRoute → Type 0) (table : List CompiledRoute)
      → All P table
      → Ordered goes_before ranking table
      → MostSpecificOf P table (first_taking T host path table)
  unfolding first_taking
  first_taking-MostSpecificOf P [] ps o = tt
  first_taking-MostSpecificOf P (one ∷ table) ps o = elim (Bool-cases (takes T host path one)) [
    | inl e ↦ rw (e) (ps.0, e, (λ t. ranking.le_refl one tt, All-at_least one table o.0))
    | inr e ↦ rw (e) (past P one table _ e (first_taking-MostSpecificOf P table ps.1 o.1))
  ]

  of_table :
      (P : CompiledRoute → Type 0) (table : List CompiledRoute) (found : Option CompiledRoute)
      → MostSpecificOf P (sort_stable goes_before table) found
      → MostSpecificOf P table found
  of_table P table none k = All-of_sort goes_before _ table k
  of_table P table (some r) k = (k.0, k.1, All-of_sort goes_before _ table k.2)

-- Of the routes a balancer has, however they are listed, the request gets one that takes its bare host and
-- path and that is at least as specific as every route that takes them: a route with a host comes before
-- one without, and among those alike in this the longer path first. It gets none only where none of the routes
-- takes it.
pub match_route-MostSpecificOf :
    (T : Texts) (routes : List EndpointRoute) (host path : String)
    → MostSpecificOf T
        (host_only T host)
        path
        (λ r. In r (map (compiled T) routes))
        (map (compiled T) routes)
        (match_route T (compile_routes T routes) host path)
unfolding match_route compile_routes
match_route-MostSpecificOf T routes host path =
    let table = map (compiled T) routes in
    let P : CompiledRoute → Type 0 = λ r. In r table in
    let ps : All P table = All-of_In table (λ a m. m) in
    of_table T (host_only T host) path P table _ (
      first_taking-MostSpecificOf T (host_only T host) path P (sort_stable goes_before table)
        (All-sort goes_before P table ps)
        (Ordered-sort goes_before ranking table (All-Anything table)))
