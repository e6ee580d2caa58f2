-- ===== src/Catalog/Export.antt =====
-- pkg/catalog/multi_cluster.go: the policy for traffic to an exported service, which comes through
-- the ingress controllers.
pub mod Laws
pub mod Rules
use osm_edge.Identity.{wildcard_principal}
use osm_edge.Service.{MeshService, exported_service_traffic_match_name, service_string}
use osm_edge.SetLibrary.{SetLibrary}
use osm_edge.Multicluster as Multicluster
use osm_edge.Multicluster.{ServiceExportRule, get_exported_rule, get_ingress_controller_services}
use osm_edge.TrafficPolicy.Types.{
  ServiceExportTrafficMatch, ServiceExportTrafficPolicy, InboundTrafficPolicy, Rule,
}
use osm_edge.Catalog.{MeshCatalog, list_endpoints_for_service}
use osm_edge.Catalog.Egress.{Externals}
use osm_edge.Catalog.Sources.{Found, wildcard_route, add_cidrs}
use osm_edge.Base.{
  ◌*◌, ◌%◌, ◌^◌, String, ◌||◌, Option, none, some, List, [], ◌∷◌, ◌==◌, nat_comparable,
  bool_comparable, string_comparable, option_comparable, list_comparable, pair_comparable,
  if◌then◌else◌, sprintf,
}

module _ (S : SetLibrary) (x : Externals) (mc : MeshCatalog) where
  -- The loop over the ingress controllers, with the set that avoids duplicate ranges.
  unfoldable pub add_controllers : List MeshService → Found S → Found S
  unfolding add_cidrs
  add_controllers [] f = f
  add_controllers (s ∷ ss) f =
      add_controllers ss (add_cidrs S x mc (list_endpoints_for_service mc s) f)

  abbrev pub no_ranges : Found S
  no_ranges = record { ranges = []; ip_set = S.strings.new_set; principals = S.strings.new_set }

  abbrev pub export_match :
      MeshService → ServiceExportRule → List String → ServiceExportTrafficMatch
  export_match svc rule ranges = record {
    name =
        exported_service_traffic_match_name svc.name svc.namespace (rule.port_number % 2 ^ 16)
          svc.protocol;
    port = rule.port_number % 2 ^ 32;
    protocol = svc.protocol;
    source_ip_ranges = ranges;
    tls = none;
  }

  abbrev pub export_principals : MeshService → S.strings.Carrier
  export_principals svc =
      if x.equal_fold svc.protocol "http"
      then (S.strings.add S.strings.new_set wildcard_principal).0
      else S.strings.new_set

  -- Only HTTP and gRPC services have a rule; without one the policy is a nil pointer.
  abbrev pub export_http_policy : MeshService → Option (InboundTrafficPolicy S)
  export_http_policy svc =
      if (x.to_lower svc.protocol == "http") || (x.to_lower svc.protocol == "grpc")
      then some (record {
        name = sprintf (service_string svc ∷ "_from_" ∷ "IngressController" ∷ []);
        hostnames = "*" ∷ [];
        rules =
            record { route = wildcard_route S svc; allowed_principals = export_principals svc }
            ∷ [];
        rate_limit = none;
      })
      else none

  abbrev pub export_policy :
      Multicluster.Client → MeshService → ServiceExportRule → ServiceExportTrafficPolicy S
  export_policy c svc rule = record {
    traffic_matches =
        export_match svc rule (add_controllers (get_ingress_controller_services c) no_ranges).ranges
        ∷ [];
    http_route_policies = export_http_policy svc ∷ [];
  }

  unfoldable pub get_export_traffic_policy :
      Multicluster.Client → MeshService → Option (ServiceExportTrafficPolicy S)
  unfolding get_exported_rule get_ingress_controller_services add_controllers service_string
      exported_service_traffic_match_name
  get_export_traffic_policy c svc = elim (get_exported_rule c svc) [
    | none ↦ none
    | some rule ↦ some (export_policy c svc rule)
  ]
