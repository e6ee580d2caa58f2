-- ===== src/Catalog/Routes/Reference.antt =====
-- Which routes the rules of a traffic target name, without the maps of
-- pkg/catalog/inbound_traffic_policies.go.
use osm_edge.Smi.Resources.{TrafficTargetRule, HttpMatch, HttpRouteGroup}
use osm_edge.TrafficPolicy.Types.{path_match_regex, HttpRouteMatch}
use osm_edge.Base.{
  String, Option, none, some, List, [], ◌∷◌, ◌==◌, nat_comparable, bool_comparable,
  string_comparable, option_comparable, list_comparable, pair_comparable, if◌then◌else◌, gather,
  sprintf,
}

-- What a match says of a route: without a path it is for all paths, without methods for all methods.
abbrev pub wildcarded : HttpMatch → HttpRouteMatch
wildcarded m = record {
  path = if m.path_regex == "" then ".*" else m.path_regex;
  path_match_type = path_match_regex;
  methods = elim m.methods [ [] ↦ "*" ∷ [] | method ∷ methods ↦ method ∷ methods ];
  headers = m.headers;
}

-- The later match of the name, if there are several.
abbrev pub last_match : String → List HttpMatch → Option HttpMatch
last_match name [] = none
last_match name (m ∷ ms) = elim (last_match name ms) [
  | some later ↦ some later
  | none ↦ if m.name == name then some m else none
]

-- The name by which a rule refers to a route group.
abbrev pub group_name : String → String → String
group_name namespace name = sprintf ("HTTPRouteGroup" ∷ "/" ∷ namespace ∷ "/" ∷ name ∷ [])

-- The matches of the later group with matches that the name refers to, if there are several.
abbrev pub last_group : String → List HttpRouteGroup → Option (List HttpMatch)
last_group name [] = none
last_group name (g ∷ gs) = elim (last_group name gs) [
  | some later ↦ some later
  | none ↦ if group_name g.namespace g.name == name then g.matches else none
]

-- The route that a name of a match in a group refers to, if any.
abbrev pub routes_named : Option (List HttpMatch) → String → List HttpRouteMatch
routes_named none name = []
routes_named (some ms) name = elim (last_match name ms) [ none ↦ [] | some m ↦ wildcarded m ∷ [] ]

-- The routes of a rule, in the order in which it names them.
abbrev pub routes_of_rule : List HttpRouteGroup → String → TrafficTargetRule → List HttpRouteMatch
routes_of_rule groups namespace rule =
    gather (routes_named (last_group (group_name namespace rule.name) groups)) rule.matches
