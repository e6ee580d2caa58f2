-- ===== src/TrafficPolicy/Rules.antt =====
-- pkg/trafficpolicy/trafficpolicy.go: routes, rules and the inbound policies that hold them.
-- Slices of pointers are lists of values: the callers build each rule and route anew, so no two
-- entries are one object.
pub mod Merge
pub mod Routes
use osm_edge.Base.Sets.{of_slice}
use osm_edge.Service.{WeightedCluster, cluster_comparable}
use osm_edge.Policy.Resources.{
  RetryPolicySpec, HttpPerRouteRateLimitSpec, HttpRouteSpec, UpstreamTrafficSetting,
}
use osm_edge.SetLibrary.{SetLibrary}
use osm_edge.TrafficPolicy.Types.{
  path_match_regex, HttpRouteMatch, RouteWeightedClusters, Rule, InboundTrafficPolicy,
  OutboundTrafficPolicy,
}
use osm_edge.TrafficPolicy.Equality.{route_equal, match_comparable}
use osm_edge.Base.{
  ℕ, ◌+◌, ◌*◌, String, Option, none, some, List, [], ◌∷◌, ◌++◌, ◌==◌, nat_comparable,
  string_comparable, option_comparable, list_comparable, pair_comparable, if◌then◌else◌, any,
}

abbrev pub regex_match_all : String
regex_match_all = ".*"

abbrev pub wildcard_http_method : String
wildcard_http_method = "*"

abbrev pub wildcard_route_match : HttpRouteMatch
wildcard_route_match = record {
  path = regex_match_all;
  path_match_type = path_match_regex;
  methods = wildcard_http_method ∷ [];
  headers = none;
}

-- The first HTTP route of the setting with the path decides.
per_route_rate_limit : String → List HttpRouteSpec → Option HttpPerRouteRateLimitSpec
per_route_rate_limit path [] = none
per_route_rate_limit path (r ∷ rs) =
    if r.path == path then r.rate_limit else per_route_rate_limit path rs

module _ (S : SetLibrary) where
  unfoldable pub new_route_weighted_cluster :
      HttpRouteMatch
      → List WeightedCluster
      → Option UpstreamTrafficSetting
      → RouteWeightedClusters S
  unfolding per_route_rate_limit of_slice
  new_route_weighted_cluster route weighted_clusters setting = record {
    http_route_match = route;
    weighted_clusters = of_slice S.clusters weighted_clusters;
    retry_policy = none;
    rate_limit = elim setting [
      | none ↦ none
      | some uts ↦ per_route_rate_limit route.path uts.http_routes
    ];
  }

  unfoldable pub new_inbound_traffic_policy :
      String → List String → Option UpstreamTrafficSetting → InboundTrafficPolicy S
  new_inbound_traffic_policy name hostnames setting = record {
    name = name;
    hostnames = hostnames;
    rules = [];
    rate_limit = elim setting [ none ↦ none | some uts ↦ uts.rate_limit ];
  }

  unfoldable pub new_outbound_traffic_policy : String → List String → OutboundTrafficPolicy S
  new_outbound_traffic_policy name hostnames = record {
    name = name;
    hostnames = hostnames;
    routes = [];
  }

  abbrev sum_weights : List WeightedCluster → ℕ
  sum_weights [] = 0
  sum_weights (c ∷ cs) = c.weight + sum_weights cs

  unfoldable pub total_clusters_weight : RouteWeightedClusters S → ℕ
  total_clusters_weight rwc = sum_weights (S.clusters.iter rwc.weighted_clusters)

  -- What the loop over the existing routes comes to: no route with the match, one with the same
  -- clusters, which gets the retry policy, or one with other clusters, which is an error.
  pub data Found : Type 0 where
    not_found : Found
    updated : List (RouteWeightedClusters S) → Found
    conflicting : Found

  abbrev found_after : RouteWeightedClusters S → Found → Found
  found_after r not_found = not_found
  found_after r (updated rs) = updated (r ∷ rs)
  found_after r conflicting = conflicting

  find_route :
      HttpRouteMatch
      → Option RetryPolicySpec
      → S.clusters.Carrier
      → List (RouteWeightedClusters S)
      → Found
  find_route match retry wc [] = not_found
  find_route match retry wc (r ∷ rs) =
      let later = found_after r (find_route match retry wc rs) in
      if r.http_route_match == match
      then (if S.clusters.equal r.weighted_clusters wc
          then updated (record r { retry_policy = retry } ∷ rs)
          else conflicting)
      else later

  abbrev add_found :
      OutboundTrafficPolicy S
      → HttpRouteMatch
      → Option RetryPolicySpec
      → S.clusters.Carrier
      → Found
      → Option (OutboundTrafficPolicy S)
  add_found out match retry wc not_found = some (record out {
    routes =
        out.routes
        ++ record {
          http_route_match = match;
          weighted_clusters = wc;
          retry_policy = retry;
          rate_limit = none;
        }
          ∷ [];
  })
  add_found out match retry wc (updated rs) = some (record out { routes = rs })
  add_found out match retry wc conflicting = none

  -- The error is `none`; the policy is then left as it is.
  unfoldable pub add_route :
      OutboundTrafficPolicy S
      → HttpRouteMatch
      → Option RetryPolicySpec
      → List WeightedCluster
      → Option (OutboundTrafficPolicy S)
  unfolding find_route of_slice
  add_route out match retry weighted_clusters =
      let wc = of_slice S.clusters weighted_clusters in
      add_found out match retry wc (find_route match retry wc out.routes)

  -- One round of `MergeRules`: the first rule with the route gets the principals, or the rule is
  -- appended.
  add_rule : List (Rule S) → Rule S → List (Rule S)
  add_rule [] latest = latest ∷ []
  add_rule (original ∷ rules) latest =
      let rest = add_rule rules latest in
      if route_equal S latest.route original.route
      then record original {
        allowed_principals = S.strings.union original.allowed_principals latest.allowed_principals;
      }
        ∷ rules
      else original ∷ rest

  unfoldable pub merge_rules : List (Rule S) → List (Rule S) → List (Rule S)
  unfolding add_rule route_equal
  merge_rules original_rules [] = original_rules
  merge_rules original_rules (latest ∷ rules) = merge_rules (add_rule original_rules latest) rules

  -- The inner loop of `mergeRoutesWeightedClusters` goes on after a match, so each route with the
  -- match gets the clusters.
  union_clusters :
      RouteWeightedClusters S → List (RouteWeightedClusters S) → List (RouteWeightedClusters S)
  union_clusters latest [] = []
  union_clusters latest (r ∷ rs) =
      let rest = union_clusters latest rs in
      if r.http_route_match == latest.http_route_match
      then (if S.clusters.equal r.weighted_clusters latest.weighted_clusters then r else record r {
        weighted_clusters = S.clusters.union r.weighted_clusters latest.weighted_clusters;
      })
        ∷ rest
      else r ∷ rest

  unfoldable pub merge_routes_weighted_clusters :
      List (RouteWeightedClusters S)
      → List (RouteWeightedClusters S)
      → List (RouteWeightedClusters S)
  unfolding union_clusters
  merge_routes_weighted_clusters originals [] = originals
  merge_routes_weighted_clusters originals (latest ∷ rest) =
      merge_routes_weighted_clusters
        (if any (λ r. r.http_route_match == latest.http_route_match) originals
          then union_clusters latest originals
          else originals ++ latest ∷ [])
        rest
