-- ===== src/Catalog/Inbound.antt =====
-- pkg/catalog/inbound_traffic_policies.go: the policy with which a proxy accepts traffic.
pub mod Laws
pub mod Policy
use osm_edge.Base.Sets.{of_slice}
use osm_edge.Identity.{account_as_principal, wildcard_principal, to_k8s_service_account}
use osm_edge.Service.{
  MeshService, WeightedCluster, sidecar_local_cluster_name, fqdn, server_name,
  inbound_traffic_match_name, service_comparable,
}
use osm_edge.K8s.Hostname.{
  get_hostnames_for_service, get_service_from_hostname, get_subdomain_from_hostname,
}
use osm_edge.Policy.Resources.{UpstreamTrafficSetting}
use osm_edge.Policy.Client.{by_service, get_upstream_traffic_setting}
use osm_edge.Smi.{list_traffic_splits, list_traffic_targets, with_traffic_split_backend_service}
use osm_edge.Smi.Resources.{TrafficTarget, TrafficSplit}
use osm_edge.SetLibrary.{SetLibrary}
use osm_edge.TrafficPolicy.Types.{
  Rule, InboundTrafficPolicy, InboundMeshTrafficPolicy, TrafficMatch, MeshClusterConfig,
  zero_traffic_match,
}
use osm_edge.TrafficPolicy.Rules.{
  wildcard_route_match, new_route_weighted_cluster, new_inbound_traffic_policy, merge_rules,
}
use osm_edge.Catalog.{MeshCatalog}
use osm_edge.Catalog.Routes.{cluster_weight_accept_all, is_tcp, routes_from_rules, append_at}
use osm_edge.Catalog.Targets.{traffic_target_identity_to_svc_account}
use osm_edge.Base.{
  ◌>>=◌, String, Bool, true, false, Option, none, some, List, [], ◌∷◌, ◌++◌, map, ◌==◌,
  nat_comparable, string_comparable, option_comparable, list_comparable, pair_comparable,
  if◌then◌else◌, Run, returns, sprintf, split,
}

abbrev pub local_cluster : MeshService → WeightedCluster
local_cluster svc = record {
  cluster_name = sidecar_local_cluster_name svc;
  weight = cluster_weight_accept_all;
}

-- The apex service of a split over the service. Its import identifier is not set.
unfoldable pub apex_mesh_service : MeshCatalog → MeshService → TrafficSplit → MeshService
apex_mesh_service mc svc split =
    let controller = some mc.mesh_spec.get_namespace in
    let svc_name = get_service_from_hostname controller split.service in
    let subdomain = get_subdomain_from_hostname controller split.service in
    record {
      namespace = svc.namespace;
      name = if subdomain == "" then svc_name else sprintf (subdomain ∷ "." ∷ svc_name ∷ []);
      port = svc.port;
      target_port = svc.target_port;
      protocol = svc.protocol;
      service_import_uid = "";
    }

module _ (S : SetLibrary) where
  unfoldable pub allowed_downstream_principals : MeshCatalog → TrafficTarget → S.strings.Carrier
  unfolding of_slice
  allowed_downstream_principals mc t = of_slice S.strings (
      map
        (λ source.
          account_as_principal (traffic_target_identity_to_svc_account source) mc.trust_domain)
        t.sources)

  unfoldable pub get_routing_rules_from_traffic_target :
      MeshCatalog → TrafficTarget → WeightedCluster → Option UpstreamTrafficSetting → List (Rule S)
  unfolding allowed_downstream_principals
  get_routing_rules_from_traffic_target mc t routing_cluster setting =
      map
        (λ m. record {
          route = new_route_weighted_cluster S m (routing_cluster ∷ []) setting;
          allowed_principals = allowed_downstream_principals mc t;
        })
        (routes_from_rules mc t.rules t.namespace)

  rules_from_targets :
      MeshCatalog
      → WeightedCluster
      → Option UpstreamTrafficSetting
      → List (Rule S)
      → List TrafficTarget
      → List (Rule S)
  unfolding get_routing_rules_from_traffic_target
  rules_from_targets mc cluster setting rules [] = rules
  rules_from_targets mc cluster setting rules (t ∷ ts) =
      rules_from_targets mc cluster setting
        (merge_rules S rules (get_routing_rules_from_traffic_target mc t cluster setting)) ts

  unfoldable pub build_inbound_http_policy_from_traffic_target :
      MeshCatalog
      → MeshService
      → List TrafficTarget
      → Option UpstreamTrafficSetting
      → InboundTrafficPolicy S
  unfolding rules_from_targets
  build_inbound_http_policy_from_traffic_target mc svc targets setting =
      let hostnames = get_hostnames_for_service mc.dns_trust_domain svc true in
      record (new_inbound_traffic_policy S (fqdn svc) hostnames setting) {
        rules = rules_from_targets mc (local_cluster svc) setting [] targets;
      }

  unfoldable pub get_inbound_traffic_policies_for_upstream :
      MeshCatalog
      → MeshService
      → Bool
      → List TrafficTarget
      → Option UpstreamTrafficSetting
      → InboundTrafficPolicy S
  unfolding build_inbound_http_policy_from_traffic_target of_slice
  get_inbound_traffic_policies_for_upstream mc svc permissive_mode targets setting =
      if permissive_mode
      then record (new_inbound_traffic_policy S (fqdn svc)
          (get_hostnames_for_service mc.dns_trust_domain svc true) setting) {
            rules =
                record {
                  route =
                      new_route_weighted_cluster S wildcard_route_match (local_cluster svc ∷ [])
                        setting;
                  allowed_principals = of_slice S.strings (wildcard_principal ∷ []);
                }
                ∷ [];
          }
      else build_inbound_http_policy_from_traffic_target mc svc targets setting

  -- `svcSet` and `allServices`.
  add_service :
      S.services.Carrier × List MeshService → MeshService → S.services.Carrier × List MeshService
  add_service (seen, all_services) svc =
      let added = S.services.add seen svc in
      (added.0, if added.1 then all_services ++ svc ∷ [] else all_services)

  add_apexes :
      MeshCatalog
      → MeshService
      → S.services.Carrier × List MeshService
      → List TrafficSplit
      → S.services.Carrier × List MeshService
  unfolding add_service
  add_apexes mc svc acc [] = acc
  add_apexes mc svc acc (split ∷ splits) =
      add_apexes mc svc (add_service acc (apex_mesh_service mc svc split)) splits

  include_apexes :
      MeshCatalog
      → S.services.Carrier × List MeshService
      → List MeshService
      → S.services.Carrier × List MeshService
  unfolding add_service add_apexes
  include_apexes mc acc [] = acc
  include_apexes mc acc (svc ∷ svcs) =
      include_apexes mc
        (add_apexes mc svc (add_service acc svc)
          (list_traffic_splits mc.mesh_spec (with_traffic_split_backend_service svc)))
        svcs

  unfoldable pub get_upstream_services_include_apex :
      MeshCatalog → List MeshService → List MeshService
  unfolding include_apexes
  get_upstream_services_include_apex mc services =
      (include_apexes mc (S.services.new_set, []) services).1

  abbrev pub inbound_cluster_config : MeshService → MeshClusterConfig
  inbound_cluster_config svc = record {
    name = sidecar_local_cluster_name svc;
    service = svc;
    address = "127.0.0.1";
    port = svc.target_port;
    enable_sidecar_active_health_checks = false;
    upstream_traffic_setting = none;
  }

  abbrev pub inbound_traffic_match : MeshService → Option UpstreamTrafficSetting → TrafficMatch
  inbound_traffic_match svc setting = record zero_traffic_match {
    name = inbound_traffic_match_name svc;
    destination_port = svc.target_port;
    destination_protocol = svc.protocol;
    server_names = server_name svc ∷ [];
    cluster = sidecar_local_cluster_name svc;
    rate_limit = elim setting [ none ↦ none | some uts ↦ uts.rate_limit ];
  }

  -- The round of the loop for one upstream service.
  inbound_round :
      MeshCatalog
      → Bool
      → List TrafficTarget
      → S.services.Carrier
      → InboundMeshTrafficPolicy S
      → MeshService
      → Option UpstreamTrafficSetting
      → InboundMeshTrafficPolicy S
  inbound_round mc permissive_mode targets given policy svc setting = record {
    clusters_configs = policy.clusters_configs ++ inbound_cluster_config svc ∷ [];
    traffic_matches =
        if S.services.contains given svc
        then policy.traffic_matches ++ inbound_traffic_match svc setting ∷ []
        else policy.traffic_matches;
    http_route_configs_per_port =
        if is_tcp svc
        then policy.http_route_configs_per_port
        else append_at svc.target_port
            (get_inbound_traffic_policies_for_upstream mc svc permissive_mode targets setting)
            policy.http_route_configs_per_port;
  }

  inbound_rounds :
      MeshCatalog
      → Bool
      → List TrafficTarget
      → S.services.Carrier
      → InboundMeshTrafficPolicy S
      → List MeshService
      → Run (InboundMeshTrafficPolicy S)
  unfolding inbound_round
  inbound_rounds mc permissive_mode targets given policy [] = returns policy
  inbound_rounds mc permissive_mode targets given policy (svc ∷ svcs) = do
    setting ← get_upstream_traffic_setting mc.policy_controller (by_service svc)
    inbound_rounds mc permissive_mode targets given
        (inbound_round mc permissive_mode targets given policy svc setting) svcs

  -- The traffic targets for the identity; `ToK8sServiceAccount` may panic.
  targets_for : MeshCatalog → String → Run (List TrafficTarget)
  targets_for mc upstream =
      if mc.settings.is_permissive_traffic_policy_mode
      then returns []
      else do sa ← to_k8s_service_account upstream; returns (list_traffic_targets mc.mesh_spec sa)

  unfoldable pub get_inbound_mesh_traffic_policy :
      MeshCatalog → String → List MeshService → Run (InboundMeshTrafficPolicy S)
  unfolding targets_for inbound_rounds of_slice
  get_inbound_mesh_traffic_policy mc upstream services = do
    targets ← targets_for mc upstream
    inbound_rounds mc mc.settings.is_permissive_traffic_policy_mode targets
        (of_slice S.services services)
        (record { traffic_matches = []; http_route_configs_per_port = []; clusters_configs = [] })
        (get_upstream_services_include_apex mc services)
