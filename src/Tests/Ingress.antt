-- ===== src/Tests/Ingress.antt =====
-- The policies for traffic into the mesh and for access from outside.
use osm_edge.SetLibrary.{list_sets}
use osm_edge.Policy.Resources.{
  BackendSpec, SourceSpec, IngressBackend, AccessControl, kind_service,
  kind_authenticated_principal, kind_ip_range,
}
use osm_edge.Policy.Client.{get_ingress_backend_policy}
use osm_edge.Catalog.{MeshCatalog, list_endpoints_for_service}
use osm_edge.Catalog.Sources.{fails}
use osm_edge.Catalog.Sources.Laws.{is_lacking}
use osm_edge.Catalog.Ingress.{status_update, no_endpoints, not_listed, get_ingress_traffic_policy}
use osm_edge.Catalog.Ingress.Laws.{get_ingress_traffic_policy-fails}
use osm_edge.Tests.Samples.{web, catalog, externals, policies}
use osm_edge.Base.{
  returns, String, true, none, List, [], ◌∷◌, ◌≡◌, refl, nat_comparable, bool_comparable,
  string_comparable, option_comparable, list_comparable, pair_comparable,
}

abbrev web_backend : BackendSpec
web_backend = record {
  name = "web";
  port = record { number = 8080; protocol = "http" };
  tls = none;
}

abbrev web_source : String → SourceSpec
web_source kind = record { kind = kind; name = "10.0.0.0/8"; namespace = "shop" }

abbrev ingress_from : List SourceSpec → IngressBackend
ingress_from sources = record {
  namespace = "shop";
  name = "entry";
  backends = web_backend ∷ [];
  sources = sources;
}

abbrev control_from : List SourceSpec → AccessControl
control_from sources = record {
  namespace = "shop";
  name = "entry";
  backends = web_backend ∷ [];
  sources = sources;
}

abbrev full_sources : List SourceSpec
full_sources =
    web_source kind_service
    ∷ web_source kind_ip_range
    ∷ web_source kind_authenticated_principal
    ∷ []

abbrev mesh_with : List SourceSpec → MeshCatalog
mesh_with sources = record catalog {
  policy_controller = record policies {
    ingress_backends = ingress_from sources ∷ [];
    access_controls = control_from sources ∷ [];
  };
}

-- No service has an endpoint.
abbrev empty_mesh : MeshCatalog
empty_mesh = record (mesh_with full_sources) { endpoints_providers = [] }

ingress_fails_example :
    (s : SourceSpec) × (is_lacking list_sets externals empty_mesh s ≡ true)
    × (get_ingress_traffic_policy list_sets externals empty_mesh web
        ≡ returns (record {
          updates = status_update "shop" "entry" "error" (no_endpoints s) ∷ [];
          outcome = fails (not_listed "IngressBackend" "shop" "entry" s);
        }))
unfolding get_ingress_backend_policy list_endpoints_for_service
ingress_fails_example =
    get_ingress_traffic_policy-fails list_sets externals empty_mesh web (ingress_from full_sources)
      refl refl refl
