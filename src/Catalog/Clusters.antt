-- ===== src/Catalog/Clusters.antt =====
-- pkg/catalog/outbound_traffic_policies.go: the weighted clusters of the routes to a service.
pub mod Laws
use osm_edge.Service.{MeshService, WeightedCluster, sidecar_cluster_name, is_multi_cluster_service}
use osm_edge.K8s.Hostname.{NamespacedName}
use osm_edge.Smi.{list_http_traffic_specs}
use osm_edge.Smi.Resources.{HttpRouteGroup, TrafficSplit, TrafficSplitBackend}
use osm_edge.TrafficPolicy.Types.{HttpRouteMatch, HttpRouteMatchWithWeightedClusters}
use osm_edge.Catalog.{MeshCatalog}
use osm_edge.Catalog.Routes.{service_route, cluster_weight_accept_all}
use osm_edge.Base.{
  ℕ, suc, ◌-◌, ◌/◌, String, Bool, true, false, not, ◌&&◌, ◌||◌, none, some, List, [], ◌∷◌, ◌++◌,
  map, nat_comparable, string_comparable, option_comparable, list_comparable, pair_comparable,
  if◌then◌else◌, ltb, length, elem, split,
}

abbrev pub cluster_weight_fail_over : ℕ
cluster_weight_fail_over = 0

-- The loop of `activeUpstreamClusters`: what is left of the weight is divided among the clusters
-- that are left.
divide_weight : ℕ → List String → List WeightedCluster
divide_weight total [] = []
divide_weight total (cn ∷ cns) =
    let weight = total / suc (length cns) in
    record { cluster_name = cn; weight = weight } ∷ divide_weight (total - weight) cns

unfoldable pub active_upstream_clusters :
    List String → TrafficSplitBackend → List WeightedCluster → List WeightedCluster
unfolding divide_weight
active_upstream_clusters aas backend clusters = clusters ++ divide_weight backend.weight aas

unfoldable pub fail_over_upstream_clusters :
    List String → List WeightedCluster → List WeightedCluster
fail_over_upstream_clusters fos clusters =
    clusters ++ map (λ cn. record { cluster_name = cn; weight = cluster_weight_fail_over }) fos

unfoldable pub merge_upstream_clusters :
    MeshCatalog → MeshService → List WeightedCluster → List WeightedCluster
merge_upstream_clusters mc svc clusters =
    let lb = mc.get_lb_weight_for_service svc in
    let weight =
      if not (is_multi_cluster_service svc)
      then cluster_weight_accept_all
      else if lb.active_active && ltb 0 lb.weight
      then lb.weight
      else if lb.fail_over
      then cluster_weight_fail_over
      else cluster_weight_accept_all in
    clusters ++ record { cluster_name = sidecar_cluster_name svc; weight = weight } ∷ []

-- The cluster of the backend's service at a target port. The port of the service is not in the name.
unfoldable pub backend_cluster : MeshService → TrafficSplitBackend → ℕ → String
backend_cluster svc backend target_port = sidecar_cluster_name (record {
  namespace = svc.namespace;
  name = backend.service;
  port = svc.port;
  target_port = target_port;
  protocol = "";
  service_import_uid = "";
})

abbrev pub backend_key : MeshService → TrafficSplitBackend → NamespacedName
backend_key svc backend = record { namespace = svc.namespace; name = backend.service }

-- `aas` after the first block: the cluster at the target port of the local service, if it has one.
unfoldable pub local_clusters : MeshCatalog → MeshService → TrafficSplitBackend → List String
local_clusters mc svc backend =
    elim (mc.get_target_port_for_service_port (backend_key svc backend) svc.port) [
      | none ↦ []
      | some target_port ↦ backend_cluster svc backend target_port ∷ []
    ]

-- The remote clusters that are not local ones and that are active (`aas`) or not (`fos`).
pub remote_clusters :
    List String → MeshService → TrafficSplitBackend → Bool → List (ℕ × Bool) → List String
remote_clusters locals svc backend active [] = []
remote_clusters locals svc backend active ((target_port, aa) ∷ ports) =
    let rest = remote_clusters locals svc backend active ports in
    let cn = backend_cluster svc backend target_port in
    if elem cn locals
    then rest
    else if aa && active || not aa && not active
    then cn ∷ rest
    else rest

unfoldable pub merge_split_upstream_clusters :
    MeshCatalog → MeshService → TrafficSplitBackend → List WeightedCluster → List WeightedCluster
unfolding remote_clusters active_upstream_clusters fail_over_upstream_clusters local_clusters
merge_split_upstream_clusters mc svc backend clusters =
    let locals = local_clusters mc svc backend in
    let ports = mc.get_target_ports_of_clusters (backend_key svc backend) svc.port in
    let aas = locals ++ remote_clusters locals svc backend true ports in
    let fos = remote_clusters locals svc backend false ports in
    fail_over_upstream_clusters fos (active_upstream_clusters aas backend clusters)

-- `upstreamClusterMap` holds the names that have been seen; each cluster comes once, at the weight
-- that the branch gives it.
collect_clusters : (WeightedCluster → ℕ) → List String → List WeightedCluster → List WeightedCluster
collect_clusters weigh seen [] = []
collect_clusters weigh seen (c ∷ cs) =
    let skipped = collect_clusters weigh seen cs in
    let rest = collect_clusters weigh (c.cluster_name ∷ seen) cs in
    if elem c.cluster_name seen
    then skipped
    else record { cluster_name = c.cluster_name; weight = weigh c } ∷ rest

-- The clusters of the route matches, those with split matches or without.
unfoldable pub clusters_of_matches :
    (Bool → Bool) → List HttpRouteMatchWithWeightedClusters → List WeightedCluster
clusters_of_matches wanted [] = []
clusters_of_matches wanted (m ∷ ms) =
    let rest = clusters_of_matches wanted ms in
    if wanted m.has_split_matches then m.upstream_clusters ++ rest else rest

unfoldable pub get_wild_card_route_upstream_clusters :
    Bool → List HttpRouteMatchWithWeightedClusters → List WeightedCluster
unfolding collect_clusters clusters_of_matches
get_wild_card_route_upstream_clusters has_traffic_split_wild_card matches =
    if has_traffic_split_wild_card
    then collect_clusters (λ c. c.weight) [] (clusters_of_matches not matches)
    else collect_clusters (λ c. cluster_weight_accept_all) []
        (clusters_of_matches (λ b. true) matches)

-- The routes of a spec, once if some match of the split names it: the loop is left then.
split_routes : List String → List HttpRouteGroup → List HttpRouteMatch
split_routes names [] = []
split_routes names (spec ∷ specs) =
    let rest = split_routes names specs in
    elim spec.matches [
      | none ↦ rest
      | some matches ↦ if elem spec.name names then map service_route matches ++ rest else rest
    ]

unfoldable pub get_split_route_matches : MeshCatalog → TrafficSplit → List HttpRouteMatch
unfolding split_routes
get_split_route_matches mc split =
    split_routes split.match_names (list_http_traffic_specs mc.mesh_spec)
