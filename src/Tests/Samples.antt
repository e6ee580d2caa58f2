-- ===== src/Tests/Samples.antt =====
-- A small mesh: two services, a traffic target, a traffic split, and the policies over them.
use osm_edge.Identity.{K8sServiceAccount}
use osm_edge.Service.{MeshService, Provider}
use osm_edge.Policy.Resources.{UpstreamTrafficSetting, Retry}
use osm_edge.Policy.Client as Policy
use osm_edge.Smi as Smi
use osm_edge.Smi.Resources.{
  IdentityBindingSubject, TrafficTarget, TrafficSplit, HttpRouteGroup, HttpMatch,
}
use osm_edge.TrafficPolicy.Types.{HttpRouteMatch, path_match_regex}
use osm_edge.Catalog.{MeshCatalog, Endpoint, EndpointsProvider}
use osm_edge.Catalog.Egress.{Externals}
use osm_edge.Base.{
  String, true, false, not, none, some, [], ◌∷◌, ◌==◌, nat_comparable, string_comparable,
  option_comparable, list_comparable, pair_comparable, if◌then◌else◌,
}

abbrev pub web : MeshService
web = record {
  namespace = "shop";
  name = "web";
  port = 80;
  target_port = 8080;
  protocol = "http";
  service_import_uid = "";
}

abbrev pub db : MeshService
db = record {
  namespace = "shop";
  name = "db";
  port = 5432;
  target_port = 5432;
  protocol = "tcp";
  service_import_uid = "";
}

abbrev pub client_account : K8sServiceAccount
client_account = record { namespace = "shop"; name = "client" }

abbrev pub server_account : K8sServiceAccount
server_account = record { namespace = "shop"; name = "server" }

abbrev subject : String → IdentityBindingSubject
subject name = record { kind = "ServiceAccount"; name = name; namespace = "shop" }

abbrev pub target : TrafficTarget
target = record {
  namespace = "shop";
  name = "allow";
  destination = subject "server";
  sources = subject "client" ∷ [];
  rules = record { kind = "HTTPRouteGroup"; name = "routes"; matches = "get" ∷ [] } ∷ [];
}

abbrev get_match : HttpMatch
get_match = record { name = "get"; path_regex = "/get"; methods = []; headers = none }

abbrev pub get_route : HttpRouteMatch
get_route = record {
  path = "/get";
  path_match_type = path_match_regex;
  methods = "*" ∷ [];
  headers = none;
}

abbrev route_group : HttpRouteGroup
route_group = record { namespace = "shop"; name = "routes"; matches = some (get_match ∷ []) }

abbrev split_of_web : TrafficSplit
split_of_web = record {
  namespace = "shop";
  name = "split";
  service = "web";
  backends = record { service = "web"; weight = 70 } ∷ record { service = "db"; weight = 30 } ∷ [];
  match_names = "routes" ∷ [];
}

abbrev pub mesh_spec : Smi.Client
mesh_spec = record {
  traffic_splits = split_of_web ∷ [];
  http_route_groups = route_group ∷ [];
  http_route_group_by_key = λ key. if key == "shop/routes" then some route_group else none;
  tcp_routes = [];
  tcp_route_by_key = λ key. none;
  traffic_targets = target ∷ [];
  is_monitored_namespace = λ namespace. namespace == "shop";
  get_namespace = λ namespace. namespace == "shop";
}

abbrev pub setting_of_web : UpstreamTrafficSetting
setting_of_web = record {
  namespace = "shop";
  name = "web";
  host = "web.shop.svc.cluster.local";
  rate_limit = none;
  http_routes = [];
}

abbrev retry_of_client : Retry
retry_of_client = record {
  namespace = "shop";
  name = "retry";
  source = record { kind = "ServiceAccount"; name = "client"; namespace = "shop" };
  destinations = record { kind = "Service"; name = "web"; namespace = "shop" } ∷ [];
  retry_policy = record {
    retry_on = "5xx";
    per_try_timeout = none;
    num_retries = some 3;
    retry_backoff_base_interval = none;
  };
}

abbrev pub policies : Policy.Client
policies = record {
  egress_gateways = [];
  egresses = [];
  ingress_backends = [];
  retries = retry_of_client ∷ [];
  access_controls = [];
  upstream_traffic_settings = setting_of_web ∷ [];
  upstream_traffic_setting_by_key = λ key. none;
  is_monitored_namespace = λ namespace. namespace == "shop";
}

abbrev pub endpoint_at : String → Endpoint
endpoint_at ip = record {
  ip = ip;
  port = 8080;
  weight = 0;
  priority = 0;
  zone = "";
  cluster_key = "";
  lb_type = "";
  path = "";
}

abbrev services : Provider
services = record {
  get_services_for_service_identity = λ si. if si == "server.shop" then web ∷ db ∷ [] else [];
  list_services = web ∷ db ∷ [];
  list_service_identities_for_service = λ svc. "server.shop" ∷ [];
}

abbrev endpoints : EndpointsProvider
endpoints = record {
  list_endpoints_for_service = λ svc. endpoint_at "10.0.0.1" ∷ endpoint_at "10.0.0.2" ∷ [];
  list_endpoints_for_identity = λ si. endpoint_at "10.0.0.1" ∷ [];
  get_resolvable_endpoints_for_service = λ svc. endpoint_at "10.0.0.9" ∷ [];
}

abbrev pub catalog : MeshCatalog
catalog = record {
  service_providers = services ∷ [];
  endpoints_providers = endpoints ∷ [];
  mesh_spec = mesh_spec;
  policy_controller = policies;
  settings = record {
    is_permissive_traffic_policy_mode = false;
    is_egress_enabled = false;
    enable_egress_policy = true;
    enable_retry_policy = true;
    enable_sidecar_active_health_checks = false;
    enable_ingress_backend_policy = true;
    enable_access_control_policy = true;
  };
  trust_domain = "cluster.local";
  dns_trust_domain = "cluster.local";
  get_target_port_for_service_port = λ name port. if name.name == "web" then some 8080 else none;
  get_lb_weight_for_service =
      λ svc. record { active_active = false; fail_over = false; weight = 0 };
  get_target_ports_of_clusters = λ name port. (8080, true) ∷ (9090, true) ∷ (9191, false) ∷ [];
}

abbrev pub externals : Externals
externals = record {
  to_lower = λ s. s;
  equal_fold = λ a b. a == b;
  parses_cidr = λ s. not (s == "");
  hash_match = λ m. some m.destination_port;
  hash_config = λ c. some c.port;
  smi_specs_group_version = "specs.smi-spec.io/v1alpha4";
}
