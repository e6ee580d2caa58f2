-- ===== src/Smi.antt =====
-- pkg/smi/client.go over the resources of the Service Mesh Interface.
pub mod Resources
use osm_edge.Identity.{K8sServiceAccount}
use osm_edge.Service.{MeshService}
use osm_edge.K8s.Hostname.{get_service_from_hostname}
use osm_edge.Smi.Resources.{
  IdentityBindingSubject, TrafficTargetRule, TrafficTarget, HttpRouteGroup, TcpRoute,
  TrafficSplitBackend, TrafficSplit, http_route_group_kind, tcp_route_kind,
}
use osm_edge.Base.{
  String, Bool, true, false, not, ◌&&◌, ◌||◌, Option, none, some, List, [], ◌∷◌, ◌++◌, map, ◌==◌,
  nat_comparable, string_comparable, option_comparable, list_comparable, pair_comparable,
  if◌then◌else◌, any, all, keep,
}

-- What the informers hold, in the order in which they list it, the lookups by the key
-- `<namespace>/<name>`, and what the Kubernetes controller answers: whether a namespace is monitored
-- and whether it is in the cache.
pub record Client : Type 0 where
  pub traffic_splits : List TrafficSplit
  pub http_route_groups : List HttpRouteGroup
  pub http_route_group_by_key : String → Option HttpRouteGroup
  pub tcp_routes : List TcpRoute
  pub tcp_route_by_key : String → Option TcpRoute
  pub traffic_targets : List TrafficTarget
  pub is_monitored_namespace : String → Bool
  pub get_namespace : String → Bool

abbrev pub zero_service : MeshService
zero_service = record {
  namespace = "";
  name = "";
  port = 0;
  target_port = 0;
  protocol = "";
  service_import_uid = "";
}

-- `TrafficSplitListOpt`; an option that is not given is the zero service.
pub record TrafficSplitListOpt : Type 0 where
  pub apex_service : MeshService
  pub backend_service : MeshService

unfoldable pub with_traffic_split_apex_service : MeshService → TrafficSplitListOpt
with_traffic_split_apex_service s = record { apex_service = s; backend_service = zero_service }

unfoldable pub with_traffic_split_backend_service : MeshService → TrafficSplitListOpt
with_traffic_split_backend_service s = record { apex_service = zero_service; backend_service = s }

-- `FilterTrafficSplit` keeps the split.
unfoldable pub filter_traffic_split : Client → TrafficSplit → TrafficSplitListOpt → Bool
filter_traffic_split c traffic_split o =
    if not (o.apex_service.name == "")
      && (not (o.apex_service.namespace == traffic_split.namespace)
          || not (
              o.apex_service.name
              == get_service_from_hostname (some c.get_namespace) traffic_split.service))
    then false
    else if not (o.backend_service.name == "")
    then (if not (traffic_split.namespace == o.backend_service.namespace)
        then false
        else any (λ backend. backend.service == o.backend_service.name) traffic_split.backends)
    else true

unfoldable pub list_traffic_splits : Client → TrafficSplitListOpt → List TrafficSplit
unfolding filter_traffic_split
list_traffic_splits c o =
    keep (λ ts. c.is_monitored_namespace ts.namespace && filter_traffic_split c ts o)
      c.traffic_splits

unfoldable pub list_http_traffic_specs : Client → List HttpRouteGroup
list_http_traffic_specs c =
    keep (λ group. c.is_monitored_namespace group.namespace) c.http_route_groups

unfoldable pub get_http_route_group : Client → String → Option HttpRouteGroup
get_http_route_group c namespaced_name = elim (c.http_route_group_by_key namespaced_name) [
  | none ↦ none
  | some route ↦ if c.is_monitored_namespace route.namespace then some route else none
]

unfoldable pub list_tcp_traffic_specs : Client → List TcpRoute
list_tcp_traffic_specs c = keep (λ route. c.is_monitored_namespace route.namespace) c.tcp_routes

unfoldable pub get_tcp_route : Client → String → Option TcpRoute
get_tcp_route c namespaced_name = elim (c.tcp_route_by_key namespaced_name) [
  | none ↦ none
  | some route ↦ if c.is_monitored_namespace route.namespace then some route else none
]

unfoldable pub has_valid_rules : List TrafficTargetRule → Bool
has_valid_rules [] = false
has_valid_rules (rule ∷ rules) =
    all (λ r. (r.kind == http_route_group_kind) || (r.kind == tcp_route_kind)) (rule ∷ rules)

unfoldable pub is_valid_traffic_target : TrafficTarget → Bool
unfolding has_valid_rules
is_valid_traffic_target t =
    if not (t.namespace == t.destination.namespace) then false else has_valid_rules t.rules

-- `FilterTrafficTarget` keeps the target; without the option the destination is the zero account.
unfoldable pub filter_traffic_target : TrafficTarget → K8sServiceAccount → Bool
filter_traffic_target t destination = not (
    not (destination.name == "")
    && (not (destination.namespace == t.destination.namespace)
        || not (destination.name == t.destination.name)))

abbrev pub no_destination : K8sServiceAccount
no_destination = record { namespace = ""; name = "" }

unfoldable pub list_traffic_targets : Client → K8sServiceAccount → List TrafficTarget
unfolding is_valid_traffic_target filter_traffic_target
list_traffic_targets c destination =
    keep
      (λ t.
        c.is_monitored_namespace t.namespace
        && is_valid_traffic_target t
        && filter_traffic_target t destination)
      c.traffic_targets

abbrev account_of : IdentityBindingSubject → K8sServiceAccount
account_of subject = record { namespace = subject.namespace; name = subject.name }

service_accounts_from : Client → List TrafficTarget → List K8sServiceAccount
service_accounts_from c [] = []
service_accounts_from c (t ∷ ts) =
    let rest = service_accounts_from c ts in
    if c.is_monitored_namespace t.namespace && is_valid_traffic_target t
    then map account_of (keep (λ s. c.is_monitored_namespace s.namespace) t.sources)
      ++ account_of t.destination ∷ rest
    else rest

unfoldable pub list_service_accounts : Client → List K8sServiceAccount
unfolding service_accounts_from
list_service_accounts c = service_accounts_from c c.traffic_targets
