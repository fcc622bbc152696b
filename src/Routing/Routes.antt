-- ===== src/Routing/Routes.antt =====
-- route.go. A route's counter is its own: the table is the list of routes, and a pick gives the route
-- back with its counter moved on.
use marstack_cloud.Common.{
  ℕ, zero, suc, ◌+◌, ◌%◌, ◌^◌, String, ◌<>◌, Bool, true, false, not, List, [], ◌∷◌, Option, none,
  some, map, if◌then◌else◌, str_eq, str_lt, ltb, ◌==◌, itoa, length, sort_stable, trim_space,
  byte_count, has_prefix, trim_prefix,
}

-- What the code takes of strings and net: `ToLower`, `TrimSuffix`, and `SplitHostPort`, which gives the
-- host of a text with a port.
pub record Texts : Type 0 where
  pub lower : String → String
  pub trim_suffix : String → String → String
  pub split_host_port : String → Option String
  pub join_host_port : String → String → String

pub record EndpointRoute : Type 0 where
  pub host : String
  pub path : String
  pub targets : List String

pub record CompiledRoute : Type 0 where
  pub host : String
  pub path : String
  pub targets : List String
  pub next : ℕ

abbrev pub nth_target : List String → ℕ → Option String
nth_target [] n = none
nth_target (t ∷ ts) zero = some t
nth_target (t ∷ ts) (suc n) = nth_target ts n

-- The counter is a uint64.
unfoldable pub pick : CompiledRoute → Option String × CompiledRoute
pick r = if length r.targets == 0 then (none, r) else (
  nth_target r.targets (r.next % length r.targets),
  record r { next = (r.next + 1) % 2 ^ 64 },
)

unfoldable pub longer_first : CompiledRoute → CompiledRoute → Bool
longer_first left right =
    if not (byte_count left.path == byte_count right.path)
    then ltb (byte_count right.path) (byte_count left.path)
    else if not (str_eq left.host right.host)
    then str_lt left.host right.host
    else str_lt left.path right.path

unfoldable pub goes_before : CompiledRoute → CompiledRoute → Bool
goes_before left right =
    if str_eq left.host ""
    then if str_eq right.host "" then longer_first left right else false
    else if str_eq right.host ""
    then true
    else longer_first left right

unfoldable pub under_path : String → String → Bool
under_path path prefix =
    if str_eq prefix ""
    then true
    else if str_eq path prefix
    then true
    else has_prefix path (prefix <> "/")

abbrev pub challenge_prefix : String
challenge_prefix = "/.well-known/acme-challenge/"

unfoldable pub challenge : List (String × String) → String → Option String
challenge [] token = none
challenge ((t, answer) ∷ held) token = if str_eq t token then some answer else challenge held token

-- What the router answers, or the address that it passes the request on to.
pub data Answer : Type 0 where
  no_challenge : Answer
  challenge_answer : String → Answer
  no_routes : Answer
  no_match : Answer
  no_backend : Answer
  proxied : String → Answer

unfoldable pub answer_challenge : Option String → Answer
answer_challenge none = no_challenge
answer_challenge (some answer) = challenge_answer answer

module _ (T : Texts) where
  unfoldable pub compiled : EndpointRoute → CompiledRoute
  compiled one = record {
    host = T.lower (trim_space one.host);
    path = T.trim_suffix one.path "/";
    targets = one.targets;
    next = 0;
  }

  unfoldable pub compile_routes : List EndpointRoute → List CompiledRoute
  compile_routes routes = sort_stable goes_before (map compiled routes)

  unfoldable pub bare_or : String → Option String → String
  bare_or host none = host
  bare_or host (some bare) = bare

  unfoldable pub host_only : String → String
  host_only host = let low = T.lower (trim_space host) in bare_or low (T.split_host_port low)

  -- Whether the route takes the request, by the bare host.
  unfoldable pub takes : String → String → CompiledRoute → Bool
  takes host path one =
      if not (str_eq one.host "")
      then if str_eq one.host host then under_path path one.path else false
      else under_path path one.path

  unfoldable pub first_taking : String → String → List CompiledRoute → Option CompiledRoute
  first_taking host path [] = none
  first_taking host path (one ∷ routes) =
      if takes host path one then some one else first_taking host path routes

  unfoldable pub match_route : List CompiledRoute → String → String → Option CompiledRoute
  match_route table host path = first_taking (host_only host) path table

  unfoldable pub send_to : ℕ → Option String → Answer
  send_to port none = no_backend
  send_to port (some target) = proxied (T.join_host_port target (itoa port))

  unfoldable pub send_along : ℕ → Option CompiledRoute → Answer
  send_along port none = no_match
  send_along port (some route) = send_to port (pick route).0

  -- The table after a pick from the route that takes the request.
  unfoldable pub moved_on : String → String → List CompiledRoute → List CompiledRoute
  moved_on host path [] = []
  moved_on host path (one ∷ routes) =
      if takes host path one then (pick one).1 ∷ routes else one ∷ moved_on host path routes

  unfoldable pub route_with :
      ℕ → Option (List CompiledRoute) → String → String → Answer × Option (List CompiledRoute)
  route_with port none host path = (no_routes, none)
  route_with port (some table) host path =
      (send_along port (match_route table host path), some (moved_on (host_only host) path table))

  -- `table` is none where no routes were loaded. The answer, and the table after it.
  unfoldable pub route_request :
      List (String × String)
      → ℕ
      → Option (List CompiledRoute)
      → String
      → String
      → Answer × Option (List CompiledRoute)
  route_request challenges port table host path =
      if has_prefix path challenge_prefix
      then (answer_challenge (challenge challenges (trim_prefix path challenge_prefix)), table)
      else route_with port table host path
