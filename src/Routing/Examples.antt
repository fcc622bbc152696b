-- ===== src/Routing/Examples.antt =====
-- The theorem at a concrete input, and requests.
use marstack_cloud.Common.{
  ◌≡◌, refl, String, List, [], ◌∷◌, none, some, map, In, ◌<>◌, sort_stable, insert_stable,
  has_prefix, trim_space, trim_right, trim_left, is_space, itoa,
}
use marstack_cloud.Routing.Routes.{
  Texts, EndpointRoute, compiled, compile_routes, host_only, match_route, takes, first_taking,
  goes_before, longer_first, under_path, bare_or, route_with, send_along, send_to, pick, proxied,
  route_request,
}
use marstack_cloud.Routing.Chosen.{MostSpecificOf, match_route-MostSpecificOf}

abbrev texts : Texts
texts = record {
  lower = λ s. s;
  trim_suffix = λ s suffix. s;
  split_host_port = λ s. none;
  join_host_port = λ host port. host <> ":" <> port;
}

abbrev site : EndpointRoute
site = record { host = ""; path = "/a"; targets = "10.0.0.1" ∷ "10.0.0.2" ∷ [] }

abbrev api : EndpointRoute
api = record { host = "b.example"; path = ""; targets = "10.0.0.3" ∷ [] }

abbrev routes : List EndpointRoute
routes = site ∷ api ∷ []

match_route-MostSpecificOf_example :
    MostSpecificOf texts
      (host_only texts "b.example")
      "/a/b"
      (λ r. In r (map (compiled texts) routes))
      (map (compiled texts) routes)
      (match_route texts (compile_routes texts routes) "b.example" "/a/b")
match_route-MostSpecificOf_example = match_route-MostSpecificOf texts routes "b.example" "/a/b"

hosted_first :
    match_route texts (compile_routes texts routes) "b.example" "/a/b" ≡ some (compiled texts api)
unfolding match_route compile_routes compiled host_only bare_or takes first_taking goes_before
    longer_first under_path sort_stable insert_stable has_prefix trim_space trim_right trim_left
    is_space
hosted_first = refl

answered : List (String × String)
answered = ("t", "answer") ∷ []

to_site :
    (route_request texts answered 80 (some (compile_routes texts routes)) "c.example" "/a/b").0
    ≡ proxied "10.0.0.1:80"
unfolding match_route compile_routes compiled host_only bare_or takes first_taking goes_before
    longer_first under_path sort_stable insert_stable has_prefix trim_space trim_right trim_left
    is_space route_request route_with send_along send_to pick itoa
to_site = refl
