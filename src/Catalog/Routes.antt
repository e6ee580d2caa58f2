-- ===== src/Catalog/Routes.antt =====
-- pkg/catalog/inbound_traffic_policies.go: the routes that the traffic specs give to the rules of a
-- traffic target, and what the policies of both directions share.
pub mod Laws
pub mod Reference
pub mod Specs
use osm_edge.Service.{MeshService}
use osm_edge.Smi.{list_http_traffic_specs}
use osm_edge.Smi.Resources.{TrafficTargetRule, HttpMatch, HttpRouteGroup, http_route_group_kind}
use osm_edge.TrafficPolicy.Types.{path_match_regex, HttpRouteMatch}
use osm_edge.TrafficPolicy.Rules.{regex_match_all, wildcard_http_method}
use osm_edge.Catalog.{MeshCatalog}
use osm_edge.Base.{
  ℕ, ◌/◌, String, Bool, ◌||◌, Option, none, some, List, [], ◌∷◌, ◌++◌, ◌==◌, nat_comparable,
  string_comparable, option_comparable, list_comparable, pair_comparable, if◌then◌else◌, length,
  lookup, insert, sprintf,
}

abbrev pub protocol_tcp : String
protocol_tcp = "tcp"

abbrev pub protocol_tcp_server_first : String
protocol_tcp_server_first = "tcp-server-first"

abbrev pub cluster_weight_accept_all : ℕ
cluster_weight_accept_all = 100

abbrev pub is_tcp : MeshService → Bool
is_tcp svc = (svc.protocol == protocol_tcp) || (svc.protocol == protocol_tcp_server_first)

-- The route of a match. A path or methods that are not defined are wildcarded.
unfoldable pub service_route : HttpMatch → HttpRouteMatch
service_route m = record {
  path = if m.path_regex == "" then regex_match_all else m.path_regex;
  path_match_type = path_match_regex;
  methods = if length m.methods == 0 then wildcard_http_method ∷ [] else m.methods;
  headers = m.headers;
}

unfoldable pub get_traffic_spec_name : String → String → String → String
get_traffic_spec_name kind namespace name = sprintf (kind ∷ "/" ∷ namespace ∷ "/" ∷ name ∷ [])

-- The maps from the names of traffic specs, and in them from the names of matches.
abbrev pub RoutePolicies : Type 0
RoutePolicies = List (String × List (String × HttpRouteMatch))

matches_by_name : List (String × HttpRouteMatch) → List HttpMatch → List (String × HttpRouteMatch)
matches_by_name routes [] = routes
matches_by_name routes (m ∷ ms) = matches_by_name (insert m.name (service_route m) routes) ms

add_spec : RoutePolicies → HttpRouteGroup → RoutePolicies
unfolding matches_by_name
add_spec policies spec = elim spec.matches [
  | none ↦ policies
  | some matches ↦
      insert (get_traffic_spec_name http_route_group_kind spec.namespace spec.name)
        (matches_by_name [] matches) policies
]

specs_by_name : RoutePolicies → List HttpRouteGroup → RoutePolicies
unfolding add_spec
specs_by_name policies [] = policies
specs_by_name policies (spec ∷ specs) = specs_by_name (add_spec policies spec) specs

-- The error that the function declares is never returned.
unfoldable pub get_http_paths_per_route : MeshCatalog → RoutePolicies
unfolding specs_by_name
get_http_paths_per_route mc = specs_by_name [] (list_http_traffic_specs mc.mesh_spec)

-- A missing entry of the outer map is a nil map, which has no entry.
unfoldable pub matched_route : RoutePolicies → String → String → Option HttpRouteMatch
matched_route policies spec_name match = elim (lookup spec_name policies) [
  | none ↦ none
  | some routes ↦ lookup match routes
]

routes_of_matches : RoutePolicies → String → List String → List HttpRouteMatch
routes_of_matches policies spec_name [] = []
routes_of_matches policies spec_name (match ∷ matches) =
    let rest = routes_of_matches policies spec_name matches in
    elim (matched_route policies spec_name match) [ none ↦ rest | some route ↦ route ∷ rest ]

routes_of_rules : RoutePolicies → String → List TrafficTargetRule → List HttpRouteMatch
unfolding routes_of_matches
routes_of_rules policies namespace [] = []
routes_of_rules policies namespace (rule ∷ rules) =
    routes_of_matches policies (get_traffic_spec_name http_route_group_kind namespace rule.name)
      rule.matches
    ++ routes_of_rules policies namespace rules

unfoldable pub routes_from_rules :
    MeshCatalog → List TrafficTargetRule → String → List HttpRouteMatch
unfolding routes_of_rules
routes_from_rules mc rules namespace =
    let policies = get_http_paths_per_route mc in
    if length policies == 0 then [] else routes_of_rules policies namespace rules

-- `routeConfigPerPort[port] = append(routeConfigPerPort[port], policy)`
abbrev pub append_at : {A : Type 0} → ℕ → A → List (ℕ × List A) → List (ℕ × List A)
append_at port policy m =
    insert port (elim (lookup port m) [ none ↦ policy ∷ [] | some ps ↦ ps ++ policy ∷ [] ]) m
