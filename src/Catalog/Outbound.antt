-- ===== src/Catalog/Outbound.antt =====
-- pkg/catalog/outbound_traffic_policies.go: the policy with which a proxy reaches the services that
-- its identity may use.
pub mod Laws
pub mod Policy
use osm_edge.Base.Sets.{of_slice}
use osm_edge.Identity.{K8sServiceAccount, to_k8s_service_account}
use osm_edge.Service.{
  MeshService, WeightedCluster, sidecar_cluster_name, fqdn, outbound_traffic_match_name,
}
use osm_edge.K8s.Hostname.{get_hostnames_for_service}
use osm_edge.Policy.Resources.{RetryPolicySpec, UpstreamTrafficSetting}
use osm_edge.Policy.Client.{by_service, get_upstream_traffic_setting}
use osm_edge.Smi.{list_traffic_splits, with_traffic_split_apex_service}
use osm_edge.Smi.Resources.{TrafficSplit, TrafficSplitBackend}
use osm_edge.SetLibrary.{SetLibrary}
use osm_edge.TrafficPolicy.Types.{
  HttpRouteMatch, HttpRouteMatchWithWeightedClusters, OutboundTrafficPolicy,
  OutboundMeshTrafficPolicy, EgressTrafficPolicy, EgressHttpRouteConfig, TrafficMatch,
  MeshClusterConfig, zero_traffic_match,
}
use osm_edge.TrafficPolicy.Rules.{
  regex_match_all, wildcard_route_match, new_outbound_traffic_policy, add_route,
}
use osm_edge.Catalog.{MeshCatalog, Endpoint, get_dns_resolvable_service_endpoints}
use osm_edge.Catalog.Routes.{is_tcp, append_at}
use osm_edge.Catalog.Egress.{Externals}
use osm_edge.Catalog.EgressPolicy.{get_egress_traffic_policy}
use osm_edge.Catalog.Clusters.{
  merge_upstream_clusters, merge_split_upstream_clusters, get_wild_card_route_upstream_clusters,
  get_split_route_matches,
}
use osm_edge.Catalog.Targets.{get_retry_policy, list_outbound_services_for_identity}
use osm_edge.Base.{
  ◌>>=◌, String, Bool, true, false, not, ◌&&◌, ◌||◌, Option, none, some, List, [], ◌∷◌, ◌++◌, map,
  ◌==◌, nat_comparable, string_comparable, option_comparable, list_comparable, pair_comparable,
  if◌then◌else◌, ltb, length, any, elem, insert, Run, returns, sprintf, split,
}

-- The routes of one traffic split.
merge_backends :
    MeshCatalog
    → MeshService
    → List WeightedCluster
    → List TrafficSplitBackend
    → List WeightedCluster
merge_backends mc svc clusters [] = clusters
merge_backends mc svc clusters (b ∷ bs) =
    merge_backends mc svc (merge_split_upstream_clusters mc svc b clusters) bs

unfoldable pub split_route_match :
    MeshCatalog → MeshService → TrafficSplit → HttpRouteMatchWithWeightedClusters
unfolding merge_backends
split_route_match mc svc split =
    let has_matches = ltb 0 (length split.match_names) in
    record {
      upstream_clusters = merge_backends mc svc [] split.backends;
      route_matches = if has_matches then get_split_route_matches mc split else [];
      has_split_matches = has_matches;
    }

-- `routeMatches` and `hasTrafficSplitWildCard`.
unfoldable pub route_matches_for :
    MeshCatalog → MeshService → List TrafficSplit → List HttpRouteMatchWithWeightedClusters × Bool
unfolding split_route_match
route_matches_for mc svc [] = (
  record {
    upstream_clusters = merge_upstream_clusters mc svc [];
    route_matches = [];
    has_split_matches = false;
  }
      ∷ [],
  true,
)
route_matches_for mc svc (split ∷ splits) = (
  map (split_route_match mc svc) (split ∷ splits),
  any (λ s. length s.match_names == 0) (split ∷ splits),
)

-- `existIntraEndpoints`
abbrev pub exist_intra_endpoints : Bool → List Endpoint → Bool
exist_intra_endpoints allowed endpoints = any (λ ep. (ep.cluster_key == "") && allowed) endpoints

abbrev pub outbound_traffic_match :
    MeshService → List String → HttpRouteMatchWithWeightedClusters → TrafficMatch
outbound_traffic_match svc ip_ranges m = record zero_traffic_match {
  name = outbound_traffic_match_name svc;
  destination_port = svc.port;
  destination_protocol = svc.protocol;
  destination_ip_ranges = ip_ranges;
  weighted_clusters = m.upstream_clusters;
}

abbrev pub has_wild_card_route : List HttpRouteMatchWithWeightedClusters → Bool
has_wild_card_route matches =
    any (λ m. any (λ route. route.path == regex_match_all) m.route_matches) matches

abbrev pub outbound_cluster_config :
    MeshCatalog → MeshService → Option UpstreamTrafficSetting → MeshClusterConfig
outbound_cluster_config mc svc setting = record {
  name = sidecar_cluster_name svc;
  service = svc;
  address = "";
  port = 0;
  enable_sidecar_active_health_checks = mc.settings.enable_sidecar_active_health_checks;
  upstream_traffic_setting = setting;
}

-- `GetRetryPolicy` is called for HTTP services only.
retry_policy_for : MeshCatalog → String → MeshService → Run (Option RetryPolicySpec)
retry_policy_for mc downstream svc =
    if is_tcp svc then returns none else get_retry_policy mc downstream svc

module _ (S : SetLibrary) where
  -- Some host of the egress policy is a hostname of the service.
  unfoldable pub is_egress_service : MeshCatalog → MeshService → EgressTrafficPolicy S → Bool
  is_egress_service mc svc policy =
      let hostnames = get_hostnames_for_service mc.dns_trust_domain svc true in
      any (λ entry. any (λ config. any (λ host. elem host hostnames) config.hostnames) entry.1)
        policy.http_route_configs_per_port

  -- The addresses of the endpoints, each once, with a suffix.
  addresses : String → S.strings.Carrier → List Endpoint → List String
  addresses suffix seen [] = []
  addresses suffix seen (ep ∷ eps) =
      let ip = sprintf (ep.ip ∷ suffix ∷ []) in
      let added = S.strings.add seen ip in
      let rest = addresses suffix added.0 eps in if added.1 then ip ∷ rest else rest

  unfoldable pub destination_ip_ranges : List Endpoint → List String
  unfolding addresses
  destination_ip_ranges endpoints = addresses "/32" S.strings.new_set endpoints

  -- `servicesResolvableSet[meshSvc.FQDN()]`, where it is set.
  unfoldable pub add_resolvable :
      MeshService → Bool → List Endpoint → List (String × List String) → List (String × List String)
  unfolding of_slice
  add_resolvable svc intra endpoints m =
      if not intra && ltb 0 (length endpoints)
      then insert (fqdn svc) (S.strings.iter (of_slice S.strings (map (λ ep. ep.ip) endpoints))) m
      else m

  -- The two loops that add routes. A route that cannot be added is logged and left out.
  add_matches :
      Option RetryPolicySpec
      → List WeightedCluster
      → OutboundTrafficPolicy S
      → List HttpRouteMatch
      → OutboundTrafficPolicy S
  add_matches retry clusters policy [] = policy
  add_matches retry clusters policy (m ∷ ms) =
      add_matches retry clusters
        (elim (add_route S policy m retry clusters) [ none ↦ policy | some p ↦ p ]) ms

  add_route_matches :
      Option RetryPolicySpec
      → OutboundTrafficPolicy S
      → List HttpRouteMatchWithWeightedClusters
      → OutboundTrafficPolicy S
  unfolding add_matches
  add_route_matches retry policy [] = policy
  add_route_matches retry policy (m ∷ ms) =
      add_route_matches retry (add_matches retry m.upstream_clusters policy m.route_matches) ms

  -- The HTTP policy of a service: none where the wildcard route cannot be added.
  unfoldable pub outbound_policy_for :
      MeshCatalog
      → K8sServiceAccount
      → MeshService
      → Option RetryPolicySpec
      → List HttpRouteMatchWithWeightedClusters
      → Bool
      → Option (OutboundTrafficPolicy S)
  unfolding add_route_matches
  outbound_policy_for mc sa svc retry matches wild_card =
      let hostnames =
        get_hostnames_for_service mc.dns_trust_domain svc (sa.namespace == svc.namespace) in
      let policy =
        add_route_matches retry (new_outbound_traffic_policy S (fqdn svc) hostnames) matches in
      if has_wild_card_route matches
      then some policy
      else add_route S policy wildcard_route_match retry
          (get_wild_card_route_upstream_clusters wild_card matches)

  -- The round of the loop for one service, once its setting and its retry policy are there.
  outbound_round :
      MeshCatalog
      → K8sServiceAccount
      → Bool
      → OutboundMeshTrafficPolicy S
      → MeshService
      → Option UpstreamTrafficSetting
      → Option RetryPolicySpec
      → OutboundMeshTrafficPolicy S
  unfolding destination_ip_ranges add_resolvable route_matches_for outbound_policy_for
  outbound_round mc sa egress_enabled policy svc setting retry =
      let endpoints = get_dns_resolvable_service_endpoints mc svc in
      let allowed = mc.mesh_spec.is_monitored_namespace svc.namespace || egress_enabled in
      let intra = exist_intra_endpoints allowed endpoints in
      let splits = list_traffic_splits mc.mesh_spec (with_traffic_split_apex_service svc) in
      let matches = route_matches_for mc svc splits in
      let routes = policy.http_route_configs_per_port in
      record {
        traffic_matches =
            policy.traffic_matches
            ++ map (outbound_traffic_match svc (destination_ip_ranges endpoints)) matches.0;
        clusters_configs = policy.clusters_configs ++ outbound_cluster_config mc svc setting ∷ [];
        http_route_configs_per_port =
            if is_tcp svc
            then routes
            else elim (outbound_policy_for mc sa svc retry matches.0 matches.1) [
              | none ↦ routes
              | some p ↦ append_at svc.port p routes
            ];
        services_resolvable_set = add_resolvable svc intra endpoints policy.services_resolvable_set;
      }

  module _ (x : Externals) where
    -- The egress policy is fetched once and kept, which the same arguments make the same value; an
    -- error leaves it out.
    unfoldable pub enable_egress_service_for_identity :
        MeshCatalog → String → MeshService → Run Bool
    unfolding is_egress_service
    enable_egress_service_for_identity mc downstream svc =
        if mc.settings.is_egress_enabled then returns true else do
          policy ← get_egress_traffic_policy S x mc downstream
          returns (elim policy [
            | none ↦ false
            | some p ↦ elim p [ none ↦ false | some egress ↦ is_egress_service mc svc egress ]
          ])

    outbound_rounds :
        MeshCatalog
        → String
        → K8sServiceAccount
        → OutboundMeshTrafficPolicy S
        → List MeshService
        → Run (OutboundMeshTrafficPolicy S)
    unfolding outbound_round retry_policy_for enable_egress_service_for_identity
    outbound_rounds mc downstream sa policy [] = returns policy
    outbound_rounds mc downstream sa policy (svc ∷ svcs) = do
      egress_enabled ← enable_egress_service_for_identity mc downstream svc
      setting ← get_upstream_traffic_setting mc.policy_controller (by_service svc)
      retry ← retry_policy_for mc downstream svc
      outbound_rounds mc downstream sa
          (outbound_round mc sa egress_enabled policy svc setting retry) svcs

    unfoldable pub get_outbound_mesh_traffic_policy :
        MeshCatalog → String → Run (OutboundMeshTrafficPolicy S)
    unfolding outbound_rounds
    get_outbound_mesh_traffic_policy mc downstream = do
      sa ← to_k8s_service_account downstream
      services ← list_outbound_services_for_identity S mc downstream
      outbound_rounds mc downstream sa
          (record {
            traffic_matches = [];
            http_route_configs_per_port = [];
            clusters_configs = [];
            services_resolvable_set = [];
          })
          services
