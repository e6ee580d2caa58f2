-- ===== src/Tests/Policies.antt =====
-- Queries over the policy resources, and conflicts between them.
use osm_edge.Service.{MeshService}
use osm_edge.SetLibrary.{list_sets}
use osm_edge.Policy.Resources.{BackendSpec, IngressBackend, AccessControl}
use osm_edge.Policy.Client.{Client}
use osm_edge.Policy.Conflicts.{detect_ingress_backend_conflicts}
use osm_edge.Policy.Conflicts.Laws.{both_select, detect_ingress_backend_conflicts-nil_iff}
use osm_edge.Tests.Samples.{policies}
use osm_edge.Base.{
  String, false, none, [], ◌∷◌, ◌≡◌, ◌↔◌, nat_comparable, string_comparable, option_comparable,
  list_comparable, pair_comparable,
}

abbrev backend : String → BackendSpec
backend name = record {
  name = name;
  port = record { number = 8080; protocol = "http" };
  tls = none;
}

abbrev ingress : String → IngressBackend
ingress service = record {
  namespace = "shop";
  name = service;
  backends = backend service ∷ [];
  sources = [];
}

abbrev control : String → AccessControl
control service = record {
  namespace = "shop";
  name = service;
  backends = backend service ∷ [];
  sources = [];
}

abbrev with_ingress : Client
with_ingress = record policies { ingress_backends = ingress "db" ∷ ingress "web" ∷ [] }

abbrev with_control : Client
with_control = record policies { access_controls = control "db" ∷ control "web" ∷ [] }

ingress_conflicts_example :
    (detect_ingress_backend_conflicts list_sets.keys (ingress "web") (ingress "db") ≡ []) ↔ (
      (svc : MeshService)
      → both_select list_sets.keys (backend "web" ∷ []) (backend "db" ∷ []) svc ≡ false)
ingress_conflicts_example =
    detect_ingress_backend_conflicts-nil_iff list_sets.keys (ingress "web") (ingress "db")
