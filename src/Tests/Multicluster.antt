-- ===== src/Tests/Multicluster.antt =====
-- An imported and an exported service.
use osm_edge.SetLibrary.{list_sets}
use osm_edge.Service.{MeshService, namespaced_key, provider_key}
use osm_edge.Multicluster.{
  Client, ImportEndpoint, ServicePort, ServiceImport, ServiceExport, ServiceExportRule,
  GlobalTrafficPolicy,
}
use osm_edge.Multicluster.Imports.{Endpoints, apex, get_endpoints, get_target_port_for_service_port}
use osm_edge.Multicluster.Keys.{is_listed}
use osm_edge.Multicluster.Laws.{
  is_targeted, get_endpoints-listed, get_target_port_for_service_port-active_active,
}
use osm_edge.Catalog.Export.Rules.{IsExportedBy}
use osm_edge.Catalog.Export.{export_policy, get_export_traffic_policy}
use osm_edge.Catalog.Export.Laws.{get_export_traffic_policy-some_iff}
use osm_edge.Tests.Samples.{web, catalog, externals}
use osm_edge.Base.{
  ℕ, String, true, ◌&&◌, none, some, [], ◌∷◌, map, ◌≡◌, refl, ◌↔◌, ◌==◌, nat_comparable,
  bool_comparable, string_comparable, option_comparable, list_comparable, pair_comparable,
  if◌then◌else◌, keep, lookup, split,
}

abbrev endpoint_of : String → ℕ → ImportEndpoint
endpoint_of cluster port = record {
  target = record { host = "pod"; ip = "10.1.0.1"; port = port; path = "/" };
  cluster_key = cluster;
}

abbrev imported_port : ServicePort
imported_port = record {
  name = "http";
  protocol = "TCP";
  app_protocol = none;
  port = 80;
  endpoints = endpoint_of "east" 8080 ∷ endpoint_of "west" 9090 ∷ [];
}

abbrev imported : ServiceImport
imported = record {
  uid = "1";
  namespace = "shop";
  name = "web";
  ports = imported_port ∷ [];
  service_account_name = "server";
}

-- The cluster in the west is no target.
abbrev only_east : GlobalTrafficPolicy
only_east = record {
  lb_type = "ActiveActive";
  load_balance_target = record { cluster_key = "east"; weight = some 100 } ∷ [];
}

abbrev rule_of_web : ServiceExportRule
rule_of_web = record { port_number = 80; path = "/" }

abbrev exported : ServiceExport
exported = record {
  rules = rule_of_web ∷ [];
  conditions = record { type = "Valid"; status = "True" } ∷ [];
}

abbrev clusters : Client
clusters = record {
  global_traffic_policy_by_key = λ key. if key == "shop/web" then some only_east else none;
  service_export_by_key = λ key. if key == "shop/web" then some exported else none;
  service_import_by_key = λ key. if key == "shop/web" then some imported else none;
  service_imports = imported ∷ [];
  ingress_classes =
      (("meta.flomesh.io/namespace", "flomesh")
        ∷ ("meta.flomesh.io/ingress-pipy-svc", "ingress")
        ∷ [])
      ∷ [];
}

abbrev any_port : MeshService
any_port = apex "shop" "web"

endpoints_listed_example :
    (es : Endpoints) × (get_endpoints (λ a b. a == b) clusters any_port ≡ some es)
    × (es.namespace ≡ "shop")
    × (es.name ≡ "web")
    × (es.subsets
        ≡ map
            (λ e. record {
              ip = e.target.ip;
              hostname = e.target.host;
              name = "http";
              protocol = "TCP";
              app_protocol = none;
              port = e.target.port;
            })
            (keep
              (λ e.
                is_targeted (λ a b. a == b) clusters any_port e
                && is_listed only_east.load_balance_target e)
              imported_port.endpoints))
unfolding namespaced_key provider_key split
endpoints_listed_example =
    get_endpoints-listed (λ a b. a == b) clusters any_port only_east imported [] [] imported_port
      refl refl refl refl tt refl

target_ports_example :
    lookup 9090 (
      get_target_port_for_service_port
        (λ a b. a == b)
        clusters
        (record { namespace = "shop"; name = "web" })
        80)
    ≡ some true
unfolding namespaced_key provider_key split
target_ports_example =
    get_target_port_for_service_port-active_active (λ a b. a == b) clusters
      (record { namespace = "shop"; name = "web" }) 80 9090 only_east imported refl refl (refl, tt)
      refl

export_exists_example :
    (get_export_traffic_policy list_sets externals catalog clusters web
      ≡ some (export_policy list_sets externals catalog clusters web rule_of_web))
    ↔ ((rule : ServiceExportRule) × IsExportedBy clusters web rule
        × (export_policy list_sets externals catalog clusters web rule_of_web
            ≡ export_policy list_sets externals catalog clusters web rule))
export_exists_example =
    get_export_traffic_policy-some_iff list_sets externals catalog clusters web
      (export_policy list_sets externals catalog clusters web rule_of_web)
