-- ===== src/Tests/Catalog.antt =====
-- The policies that the catalog builds for a small mesh.
use osm_edge.Identity.{to_k8s_service_account, to_service_identity}
use osm_edge.Smi.{list_traffic_targets}
use osm_edge.SetLibrary.{list_sets}
use osm_edge.Service.{MeshService, sibling_to, fqdn, service_comparable}
use osm_edge.TrafficPolicy.Types.{
  OutboundTrafficPolicy, OutboundMeshTrafficPolicy, InboundMeshTrafficPolicy, RouteWeightedClusters,
}
use osm_edge.TrafficPolicy.Equality.{match_comparable}
use osm_edge.TrafficPolicy.Rules.Routes.{matches_of}
use osm_edge.TrafficPolicy.Rules.Merge.{allows, distinct_routes}
use osm_edge.Catalog.{Endpoint, list_endpoints_for_service}
use osm_edge.Catalog.Targets.{
  traffic_target_identity_to_svc_account, all_traffic_targets, list_outbound_service_identities,
  list_inbound_service_identities, list_outbound_services_for_identity,
  list_allowed_upstream_endpoints_for_service, get_retry_policy,
}
use osm_edge.Catalog.Targets.Laws.{
  permits, ListsAccounts, list_outbound_service_identities-permits,
  list_inbound_service_identities-permits,
}
use osm_edge.Catalog.Targets.Services.{
  leads_to, some_at, list_outbound_services_for_identity-leads_to,
  list_allowed_upstream_endpoints_for_service-some_at, get_retry_policy-sibling,
}
use osm_edge.Catalog.Inbound.{
  local_cluster, build_inbound_http_policy_from_traffic_target, get_upstream_services_include_apex,
  get_inbound_mesh_traffic_policy,
}
use osm_edge.Catalog.Inbound.Laws.{grants, build_inbound_http_policy_from_traffic_target-grants}
use osm_edge.Catalog.Inbound.Policy as In
use osm_edge.Catalog.Outbound.{outbound_policy_for, get_outbound_mesh_traffic_policy}
use osm_edge.Catalog.Outbound.Laws.{outbound_policy_for-succeeds}
use osm_edge.Catalog.Outbound.Policy as Out
use osm_edge.Tests.Samples.{web, db, target, catalog, externals, client_account, server_account}
use osm_edge.Base.{
  String, Bool, true, false, none, some, List, [], ◌∷◌, ◌≡◌, refl, nat_comparable,
  string_comparable, option_comparable, list_comparable, pair_comparable, any, elem, nodup, returns,
  split,
}

client_reads : to_k8s_service_account "client.shop" ≡ returns client_account
unfolding to_k8s_service_account split
client_reads = refl

server_reads : to_k8s_service_account "server.shop" ≡ returns server_account
unfolding to_k8s_service_account split
server_reads = refl

outbound_policy_example :
    (services : List MeshService) × (result : OutboundMeshTrafficPolicy list_sets)
    × (list_outbound_services_for_identity list_sets catalog "client.shop" ≡ returns services)
    × (get_outbound_mesh_traffic_policy list_sets externals catalog "client.shop" ≡ returns result)
    × Out.Extends list_sets externals catalog
        (Out.empty_policy list_sets externals catalog)
        services
        result
outbound_policy_example =
    Out.get_outbound_mesh_traffic_policy-Extends list_sets externals catalog "client.shop"
      client_account client_reads

inbound_policy_example :
    (result : InboundMeshTrafficPolicy list_sets) × (get_inbound_mesh_traffic_policy list_sets
        catalog "server.shop"
        (web ∷ db ∷ [])
      ≡ returns result)
    × In.Extends list_sets catalog
        (record { traffic_matches = []; http_route_configs_per_port = []; clusters_configs = [] })
        (λ s. elem s (web ∷ db ∷ []))
        (get_upstream_services_include_apex list_sets catalog (web ∷ db ∷ []))
        result
inbound_policy_example =
    In.get_inbound_mesh_traffic_policy-Extends list_sets catalog "server.shop" server_account
      (web ∷ db ∷ []) server_reads

grants_example :
    (distinct_routes list_sets
        (build_inbound_http_policy_from_traffic_target list_sets catalog web
          (target ∷ [])
          none).rules
      ≡ true)
    × ((route : RouteWeightedClusters list_sets) (principal : String)
        → allows list_sets
            (build_inbound_http_policy_from_traffic_target list_sets catalog web
              (target ∷ [])
              none).rules
            route
            principal
          ≡ any (grants list_sets catalog (local_cluster web) none route principal) (target ∷ []))
grants_example =
    build_inbound_http_policy_from_traffic_target-grants list_sets catalog web (target ∷ []) none

outbound_identities_example :
    ListsAccounts list_sets
      (list_outbound_service_identities list_sets catalog "client.shop")
      (λ a. any (permits client_account a) (all_traffic_targets catalog))
outbound_identities_example =
    list_outbound_service_identities-permits list_sets catalog "client.shop" client_account
      client_reads

inbound_identities_example :
    ListsAccounts list_sets
      (list_inbound_service_identities list_sets catalog "server.shop")
      (λ a. any (permits a server_account) (all_traffic_targets catalog))
inbound_identities_example =
    list_inbound_service_identities-permits list_sets catalog "server.shop" server_account
      server_reads

outbound_services_example :
    (services : List MeshService) × (list_outbound_services_for_identity list_sets catalog
        "client.shop"
      ≡ returns services)
    × (nodup services ≡ true)
    × ((s : MeshService)
        → elem s services
          ≡ any (leads_to list_sets catalog client_account s) (all_traffic_targets catalog))
outbound_services_example =
    list_outbound_services_for_identity-leads_to list_sets catalog "client.shop" client_account refl
      client_reads

allowed_endpoints_example :
    (allowed : List Endpoint) × (list_allowed_upstream_endpoints_for_service list_sets catalog
        "client.shop" web
      ≡ returns allowed)
    × ((p : Endpoint → Bool)
        → any p allowed
          ≡ some_at list_sets catalog
              (list_endpoints_for_service catalog web)
              ("server.shop" ∷ [])
              p)
unfolding list_outbound_service_identities to_k8s_service_account split list_sets
    list_traffic_targets to_service_identity traffic_target_identity_to_svc_account
allowed_endpoints_example =
    list_allowed_upstream_endpoints_for_service-some_at list_sets catalog "client.shop" web
      ("server.shop" ∷ []) refl refl

outbound_http_policy_example :
    (p : OutboundTrafficPolicy list_sets) × (outbound_policy_for list_sets catalog client_account
        web none
        (record {
          upstream_clusters = record { cluster_name = "shop/web|8080"; weight = 100 } ∷ [];
          route_matches = [];
          has_split_matches = false;
        }
          ∷ [])
        true
      ≡ some p)
    × (p.name ≡ fqdn web)
    × (nodup (matches_of list_sets p.routes) ≡ true)
outbound_http_policy_example =
    outbound_policy_for-succeeds list_sets catalog client_account web none
      (record {
        upstream_clusters = record { cluster_name = "shop/web|8080"; weight = 100 } ∷ [];
        route_matches = [];
        has_split_matches = false;
      }
        ∷ [])
      true

abbrev replica : MeshService
replica = record web { name = "web-0.web" }

retry_policy_example :
    get_retry_policy catalog "client.shop" replica ≡ get_retry_policy catalog "client.shop" web
unfolding sibling_to split
retry_policy_example = get_retry_policy-sibling replica web catalog "client.shop" refl
