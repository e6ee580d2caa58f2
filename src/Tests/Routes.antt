-- ===== src/Tests/Routes.antt =====
-- Routes, rules and weighted clusters.
use osm_edge.Base.Sets.{of_slice}
use osm_edge.SetLibrary.{list_sets}
use osm_edge.Service.{WeightedCluster, cluster_comparable}
use osm_edge.Smi.Resources.{TrafficTargetRule, TrafficSplitBackend}
use osm_edge.TrafficPolicy.Types.{
  InboundTrafficPolicy, HttpRouteMatch, HttpRouteMatchWithWeightedClusters, RouteWeightedClusters,
  Rule, OutboundTrafficPolicy, TrafficMatch, EgressClusterConfig, zero_traffic_match,
}
use osm_edge.TrafficPolicy.Equality.{match_comparable}
use osm_edge.TrafficPolicy.Rules.{wildcard_route_match, add_route, merge_rules}
use osm_edge.TrafficPolicy.Rules.Merge.{allows, allows-merge_rules}
use osm_edge.TrafficPolicy.Rules.Routes.{
  route_of, IsRouted, add_route-routes, add_route-eq-none_iff,
}
use osm_edge.TrafficPolicy.Hostnames.{serves, merge_inbound_policies, serves-merge_inbound_policies}
use osm_edge.Catalog.Routes.{routes_from_rules}
use osm_edge.Catalog.Routes.Reference.{routes_of_rule}
use osm_edge.Catalog.Routes.Specs.{routes_from_rules-gather}
use osm_edge.Smi.{list_http_traffic_specs}
use osm_edge.Catalog.Clusters.{active_upstream_clusters, get_wild_card_route_upstream_clusters}
use osm_edge.Catalog.Clusters.Laws.{
  total_weight, names_of, weight_if_any, active_upstream_clusters-weight,
  get_wild_card_route_upstream_clusters-names,
}
use osm_edge.Catalog.Egress.{deduplicate_traffic_matches}
use osm_edge.Catalog.Egress.Laws.{IsDeduplicated, deduplicate_traffic_matches-IsDeduplicated}
use osm_edge.Tests.Samples.{get_route, catalog, externals}
use osm_edge.Base.{
  ℕ, ◌+◌, String, true, false, not, ◌&&◌, ◌||◌, none, some, List, [], ◌∷◌, ◌++◌, ◌≡◌, refl, ◌↔◌,
  ◌==◌, nat_comparable, bool_comparable, string_comparable, option_comparable, list_comparable,
  pair_comparable, any, gather, elem, nodup,
}

abbrev cluster : String → ℕ → WeightedCluster
cluster name weight = record { cluster_name = name; weight = weight }

abbrev start : OutboundTrafficPolicy list_sets
start = record { name = "web"; hostnames = []; routes = [] }

abbrev two_clusters : List WeightedCluster
two_clusters = cluster "a" 70 ∷ cluster "b" 30 ∷ []

abbrev with_route : OutboundTrafficPolicy list_sets
with_route = record start {
  routes =
      record {
        http_route_match = get_route;
        weighted_clusters = of_slice list_sets.clusters two_clusters;
        retry_policy = none;
        rate_limit = none;
      }
      ∷ [];
}

add_route_example :
    IsRouted list_sets get_route none (of_slice list_sets.clusters two_clusters) with_route.routes
    × ((other : HttpRouteMatch)
        → (other == get_route) ≡ false
        → route_of list_sets other with_route.routes ≡ route_of list_sets other start.routes)
unfolding add_route list_sets of_slice
add_route_example = add_route-routes list_sets start with_route get_route none two_clusters refl

add_route_fails_example :
    (add_route list_sets with_route get_route none (cluster "a" 100 ∷ []) ≡ none) ↔ (
      (r : RouteWeightedClusters list_sets) × (route_of list_sets get_route with_route.routes
        ≡ some r)
      × (list_sets.clusters.equal r.weighted_clusters
            (of_slice list_sets.clusters (cluster "a" 100 ∷ []))
          ≡ false))
add_route_fails_example =
    add_route-eq-none_iff list_sets with_route get_route none (cluster "a" 100 ∷ [])

abbrev rule_for : HttpRouteMatch → String → Rule list_sets
rule_for m principal = record {
  route = record {
    http_route_match = m;
    weighted_clusters = of_slice list_sets.clusters two_clusters;
    retry_policy = none;
    rate_limit = none;
  };
  allowed_principals = of_slice list_sets.strings (principal ∷ []);
}

abbrev old_rules : List (Rule list_sets)
old_rules = rule_for get_route "client.shop.cluster.local" ∷ []

abbrev new_rules : List (Rule list_sets)
new_rules = rule_for get_route "other.shop.cluster.local" ∷ rule_for wildcard_route_match "*" ∷ []

merge_rules_example :
    allows list_sets
      (merge_rules list_sets old_rules new_rules)
      (rule_for get_route "").route
      "other.shop.cluster.local"
    ≡ (allows list_sets old_rules (rule_for get_route "").route "other.shop.cluster.local"
        || allows list_sets new_rules (rule_for get_route "").route "other.shop.cluster.local")
merge_rules_example =
    allows-merge_rules list_sets old_rules new_rules (rule_for get_route "").route
      "other.shop.cluster.local"

abbrev rules_of_target : List TrafficTargetRule
rules_of_target = record { kind = "HTTPRouteGroup"; name = "routes"; matches = "get" ∷ [] } ∷ []

routes_example :
    routes_from_rules catalog rules_of_target "shop"
    ≡ gather (routes_of_rule (list_http_traffic_specs catalog.mesh_spec) "shop") rules_of_target
routes_example = routes_from_rules-gather catalog rules_of_target "shop"

abbrev backend : TrafficSplitBackend
backend = record { service = "web"; weight = 70 }

active_example :
    (total_weight (active_upstream_clusters ("x" ∷ "y" ∷ "z" ∷ []) backend two_clusters)
      ≡ total_weight two_clusters + weight_if_any ("x" ∷ "y" ∷ "z" ∷ []) 70)
    × (names_of (active_upstream_clusters ("x" ∷ "y" ∷ "z" ∷ []) backend two_clusters)
        ≡ names_of two_clusters ++ "x" ∷ "y" ∷ "z" ∷ [])
active_example = active_upstream_clusters-weight ("x" ∷ "y" ∷ "z" ∷ []) backend two_clusters

abbrev route_matches : List HttpRouteMatchWithWeightedClusters
route_matches =
    record { upstream_clusters = two_clusters; route_matches = []; has_split_matches = false }
    ∷ record {
      upstream_clusters = cluster "a" 10 ∷ [];
      route_matches = get_route ∷ [];
      has_split_matches = true;
    }
    ∷ []

wild_card_example :
    (nodup (names_of (get_wild_card_route_upstream_clusters true route_matches)) ≡ true)
    × (elem "a" (names_of (get_wild_card_route_upstream_clusters true route_matches))
        ≡ any
            (λ m. not (true && m.has_split_matches) && elem "a" (names_of m.upstream_clusters))
            route_matches)
wild_card_example = get_wild_card_route_upstream_clusters-names true route_matches "a"

abbrev some_matches : List TrafficMatch
some_matches =
    record zero_traffic_match { destination_port = 80; name = "first" }
    ∷ record zero_traffic_match { destination_port = 443 }
    ∷ record zero_traffic_match { destination_port = 80; name = "second" }
    ∷ []

matches_example :
    (ys : List TrafficMatch) × (deduplicate_traffic_matches externals some_matches ≡ some ys)
    × IsDeduplicated externals.hash_match some_matches ys
matches_example = deduplicate_traffic_matches-IsDeduplicated externals some_matches refl

abbrev config : String → ℕ → EgressClusterConfig
config name port = record {
  name = name;
  host = "";
  port = port;
  upstream_traffic_setting = none;
  source_mtls = none;
}

abbrev policy_for : List String → InboundTrafficPolicy list_sets
policy_for hostnames = record { name = "web"; hostnames = hostnames; rules = []; rate_limit = none }

merge_hosts_example :
    serves list_sets
      (λ xs. xs)
      "web.shop"
      (merge_inbound_policies list_sets
        (λ xs. xs)
        (policy_for ("web" ∷ []) ∷ [])
        (policy_for ("web.shop" ∷ "web" ∷ []) ∷ []))
    ≡ true
merge_hosts_example =
    serves-merge_inbound_policies list_sets (λ xs. xs) (λ xs h. refl) (policy_for ("web" ∷ []) ∷ [])
      (policy_for ("web.shop" ∷ "web" ∷ []) ∷ []) "web.shop"
