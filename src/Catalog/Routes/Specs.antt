-- ===== src/Catalog/Routes/Specs.antt =====
-- The routes of traffic specs in pkg/catalog/inbound_traffic_policies.go are those that are named.
use osm_edge.Smi.{list_http_traffic_specs}
use osm_edge.Smi.Resources.{TrafficTargetRule, HttpMatch, HttpRouteGroup, http_route_group_kind}
use osm_edge.TrafficPolicy.Types.{path_match_regex, HttpRouteMatch}
use osm_edge.TrafficPolicy.Rules.{wildcard_http_method}
use osm_edge.Catalog.{MeshCatalog}
use osm_edge.Catalog.Routes.{
  service_route, RoutePolicies, matches_by_name, add_spec, specs_by_name, get_http_paths_per_route,
  matched_route, routes_of_matches, routes_of_rules, routes_from_rules, get_traffic_spec_name,
}
use osm_edge.Catalog.Routes.Reference.{
  wildcarded, last_match, last_group, routes_named, routes_of_rule,
}
use osm_edge.Base.{
  String, Bool, Option, none, some, List, [], ◌∷◌, ◌++◌, ◌≡◌, refl, sym, ap, ◌∙◌, inl, inr, arith,
  ◌==◌, nat_comparable, bool_comparable, string_comparable, option_comparable, list_comparable,
  pair_comparable, if◌then◌else◌, Bool-cases, Option-cases, length, gather, lookup, insert,
  lookup-insert,
}

methods_wildcarded :
    (ms : List String)
    → (if length ms == 0 then wildcard_http_method ∷ [] else ms)
      ≡ (elim ms [ [] ↦ "*" ∷ [] | method ∷ methods ↦ method ∷ methods ])
methods_wildcarded [] = refl
methods_wildcarded (m ∷ ms) = ground arith

service_route-wildcarded : (m : HttpMatch) → service_route m ≡ wildcarded m
unfolding service_route
service_route-wildcarded m =
    ap
      (λ (ms : List String). record {
        path = if m.path_regex == "" then ".*" else m.path_regex;
        path_match_type = path_match_regex;
        methods = ms;
        headers = m.headers;
      })
      (methods_wildcarded m.methods)

-- The route of the match, or what was there before.
abbrev or_before : Option HttpMatch → Option HttpRouteMatch → Option HttpRouteMatch
or_before none before = before
or_before (some m) before = some (wildcarded m)

or_before-step :
    (name : String) (m : HttpMatch) (o : Option HttpMatch) (before : Option HttpRouteMatch)
    → or_before o (if m.name == name then some (service_route m) else before)
      ≡ or_before
          (elim o [ some later ↦ some later | none ↦ if m.name == name then some m else none ])
          before
or_before-step name m none before = elim (Bool-cases (m.name == name)) [
  | inl e ↦ rw e (ap some (service_route-wildcarded m))
  | inr e ↦ rw e refl
]
or_before-step name m (some later) before = refl

lookup-matches_by_name :
    (name : String) (ms : List HttpMatch) (routes : List (String × HttpRouteMatch))
    → lookup name (matches_by_name routes ms) ≡ or_before (last_match name ms) (lookup name routes)
unfolding matches_by_name
lookup-matches_by_name name [] routes = refl
lookup-matches_by_name name (m ∷ ms) routes =
    lookup-matches_by_name name ms (insert m.name (service_route m) routes)
    ∙ ap (or_before (last_match name ms)) (lookup-insert m.name name (service_route m) routes)
    ∙ or_before-step name m (last_match name ms) (lookup name routes)

-- The map of the group's matches, or what was there before.
abbrev table_or_before :
    Option (List HttpMatch)
    → Option (List (String × HttpRouteMatch))
    → Option (List (String × HttpRouteMatch))
table_or_before none before = before
table_or_before (some ms) before = some (matches_by_name [] ms)

abbrev later_group :
    Option (List HttpMatch) → Bool → Option (List HttpMatch) → Option (List HttpMatch)
later_group o b matches = elim o [ some later ↦ some later | none ↦ if b then matches else none ]

lookup-add_spec :
    (name : String) (g : HttpRouteGroup) (policies : RoutePolicies) (o : Option (List HttpMatch))
    → table_or_before o (lookup name (add_spec policies g))
      ≡ table_or_before
          (later_group o
            (get_traffic_spec_name http_route_group_kind g.namespace g.name == name)
            g.matches)
          (lookup name policies)
unfolding add_spec
lookup-add_spec name g policies (some later) = refl
lookup-add_spec name g policies none =
    let key = get_traffic_spec_name http_route_group_kind g.namespace g.name in
    elim (Option-cases g.matches) [
      | inl e ↦ elim (Bool-cases (key == name)) [ inl k ↦ rw (e, k) refl | inr k ↦ rw (e, k) refl ]
      | inr (ms, e) ↦ elim (Bool-cases (key == name)) [
        | inl k ↦ rw e (lookup-insert key name (matches_by_name [] ms) policies ∙ rw k refl)
        | inr k ↦ rw e (lookup-insert key name (matches_by_name [] ms) policies ∙ rw k refl)
      ]
    ]

lookup-specs_by_name :
    (name : String) (gs : List HttpRouteGroup) (policies : RoutePolicies)
    → lookup name (specs_by_name policies gs)
      ≡ table_or_before (last_group name gs) (lookup name policies)
unfolding specs_by_name get_traffic_spec_name
lookup-specs_by_name name [] policies = refl
lookup-specs_by_name name (g ∷ gs) policies =
    lookup-specs_by_name name gs (add_spec policies g)
    ∙ lookup-add_spec name g policies (last_group name gs)

-- What a lookup adds to the routes.
abbrev listed : Option HttpRouteMatch → List HttpRouteMatch
listed none = []
listed (some route) = route ∷ []

listed-or_before :
    (o : Option HttpMatch)
    → listed (or_before o none) ≡ (elim o [ none ↦ [] | some m ↦ wildcarded m ∷ [] ])
listed-or_before none = refl
listed-or_before (some m) = refl

abbrev in_table : String → Option (List (String × HttpRouteMatch)) → List HttpRouteMatch
in_table match t = listed (elim t [ none ↦ none | some routes ↦ lookup match routes ])

in_table-named :
    (match : String) (o : Option (List HttpMatch))
    → in_table match (table_or_before o none) ≡ routes_named o match
in_table-named match none = refl
in_table-named match (some ms) =
    ap listed (lookup-matches_by_name match ms []) ∙ listed-or_before (last_match match ms)

listed-matched :
    (policies : RoutePolicies) (name match : String) (o : Option (List HttpMatch))
    → lookup name policies ≡ table_or_before o none
    → listed (matched_route policies name match) ≡ routes_named o match
unfolding matched_route
listed-matched policies name match o h = ap (in_table match) h ∙ in_table-named match o

prepend :
    (o : Option HttpRouteMatch) (rest : List HttpRouteMatch)
    → (elim o [ none ↦ rest | some route ↦ route ∷ rest ]) ≡ listed o ++ rest
prepend none rest = refl
prepend (some route) rest = refl

no_routes_of_matches :
    (name : String) (matches : List String) → routes_of_matches [] name matches ≡ []
unfolding routes_of_matches matched_route
no_routes_of_matches name [] = refl
no_routes_of_matches name (match ∷ matches) = no_routes_of_matches name matches

no_routes_of_rules :
    (namespace : String) (rules : List TrafficTargetRule) → routes_of_rules [] namespace rules ≡ []
unfolding routes_of_rules
no_routes_of_rules namespace [] = refl
no_routes_of_rules namespace (rule ∷ rules) =
    rw
      (no_routes_of_matches (get_traffic_spec_name http_route_group_kind namespace rule.name)
        rule.matches)
      (no_routes_of_rules namespace rules)

-- Without a traffic spec the rules would give no route either.
empty_policies :
    (policies : RoutePolicies) (namespace : String) (rules : List TrafficTargetRule)
    → (if length policies == 0 then [] else routes_of_rules policies namespace rules)
      ≡ routes_of_rules policies namespace rules
empty_policies [] namespace rules = sym (no_routes_of_rules namespace rules)
empty_policies (p ∷ ps) namespace rules = ground arith

-- The maps of the groups.
abbrev HoldsGroups : List HttpRouteGroup → RoutePolicies → Type 0
HoldsGroups groups policies =
    (name : String) → lookup name policies ≡ table_or_before (last_group name groups) none

module _ (groups : List HttpRouteGroup) (policies : RoutePolicies)
    (h : HoldsGroups groups policies) where
  routes_of_matches-gather :
      (name : String) (matches : List String)
      → routes_of_matches policies name matches
        ≡ gather (routes_named (last_group name groups)) matches
  unfolding routes_of_matches
  routes_of_matches-gather name [] = refl
  routes_of_matches-gather name (match ∷ matches) =
      prepend (matched_route policies name match) (routes_of_matches policies name matches)
      ∙ ap (λ rs. rs ++ routes_of_matches policies name matches)
          (listed-matched policies name match (last_group name groups) (h name))
      ∙ ap (λ rs. routes_named (last_group name groups) match ++ rs)
          (routes_of_matches-gather name matches)

  routes_of_rules-gather :
      (namespace : String) (rules : List TrafficTargetRule)
      → routes_of_rules policies namespace rules ≡ gather (routes_of_rule groups namespace) rules
  unfolding routes_of_rules get_traffic_spec_name
  routes_of_rules-gather namespace [] = refl
  routes_of_rules-gather namespace (rule ∷ rules) =
      let name = get_traffic_spec_name http_route_group_kind namespace rule.name in
      ap (λ rs. rs ++ routes_of_rules policies namespace rules)
        (routes_of_matches-gather name rule.matches)
      ∙ ap (λ rs. routes_of_rule groups namespace rule ++ rs)
          (routes_of_rules-gather namespace rules)

-- The routes that the rules of a traffic target give are those of the matches that the rules name, in
-- order. A rule refers to the last route group with matches that has its name in the namespace, and a
-- name in the rule to the last match of the name in that group; where there is none it gives no route.
-- A route has the path, methods and headers of its match, but the path `.*` where the match has no
-- path and the method `*` where it has no methods.
pub routes_from_rules-gather :
    (mc : MeshCatalog) (rules : List TrafficTargetRule) (namespace : String)
    → routes_from_rules mc rules namespace
      ≡ gather (routes_of_rule (list_http_traffic_specs mc.mesh_spec) namespace) rules
unfolding routes_from_rules get_http_paths_per_route
routes_from_rules-gather mc rules namespace =
    let groups = list_http_traffic_specs mc.mesh_spec in
    let policies = specs_by_name [] groups in
    empty_policies policies namespace rules
    ∙ routes_of_rules-gather groups policies (λ name. lookup-specs_by_name name groups []) namespace
        rules
