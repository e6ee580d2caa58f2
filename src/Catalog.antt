-- ===== src/Catalog.antt =====
-- pkg/catalog: what the catalog holds (types.go), the calls that it makes of the other controllers,
-- and the queries that collect the answers of its providers (service.go, endpoint.go).
pub mod Targets
pub mod Routes
pub mod Egress
pub mod EgressPolicy
pub mod Clusters
pub mod Outbound
pub mod Inbound
pub mod Sources
pub mod Ingress
pub mod AccessControl
pub mod Export
pub mod Plugins
use osm_edge.Service.{MeshService, Provider}
use osm_edge.K8s.Hostname.{NamespacedName}
use osm_edge.Policy.Client as Policy
use osm_edge.Smi as Smi
use osm_edge.Base.{ℕ, String, Bool, Option, List, gather}

-- `endpoint.Endpoint`, with the address as text.
pub record Endpoint : Type 0 where
  pub ip : String
  pub port : ℕ
  pub weight : ℕ
  pub priority : ℕ
  pub zone : String
  pub cluster_key : String
  pub lb_type : String
  pub path : String

-- `endpoint.Provider`, without its identifier.
pub record EndpointsProvider : Type 0 where
  pub list_endpoints_for_service : MeshService → List Endpoint
  pub list_endpoints_for_identity : String → List Endpoint
  pub get_resolvable_endpoints_for_service : MeshService → List Endpoint

-- What `GetLbWeightForService` answers, as far as it is read. A weight that is not positive is 0.
pub record LbWeight : Type 0 where
  pub active_active : Bool
  pub fail_over : Bool
  pub weight : ℕ

-- The settings of the mesh configuration that the catalog reads.
pub record Settings : Type 0 where
  pub is_permissive_traffic_policy_mode : Bool
  pub is_egress_enabled : Bool
  pub enable_egress_policy : Bool
  pub enable_retry_policy : Bool
  pub enable_sidecar_active_health_checks : Bool
  pub enable_ingress_backend_policy : Bool
  pub enable_access_control_policy : Bool

-- `MeshCatalog`. Of the controllers for Kubernetes and for clusters it holds the calls that are
-- made; `trust_domain` is the certificate manager's, `dns_trust_domain` that of pkg/k8s.
pub record MeshCatalog : Type 0 where
  pub service_providers : List Provider
  pub endpoints_providers : List EndpointsProvider
  pub mesh_spec : Smi.Client
  pub policy_controller : Policy.Client
  pub settings : Settings
  pub trust_domain : String
  pub dns_trust_domain : String
  pub get_target_port_for_service_port : NamespacedName → ℕ → Option ℕ
  pub get_lb_weight_for_service : MeshService → LbWeight
  -- A Go map from the target port, as the list that a loop over it sees.
  pub get_target_ports_of_clusters : NamespacedName → ℕ → List (ℕ × Bool)

unfoldable pub get_services_for_service_identity : MeshCatalog → String → List MeshService
get_services_for_service_identity mc si =
    gather (λ p. p.get_services_for_service_identity si) mc.service_providers

unfoldable pub list_service_identities_for_service : MeshCatalog → MeshService → List String
list_service_identities_for_service mc svc =
    gather (λ p. p.list_service_identities_for_service svc) mc.service_providers

unfoldable pub list_mesh_services : MeshCatalog → List MeshService
list_mesh_services mc = gather (λ p. p.list_services) mc.service_providers

unfoldable pub list_endpoints_for_service : MeshCatalog → MeshService → List Endpoint
list_endpoints_for_service mc svc =
    gather (λ p. p.list_endpoints_for_service svc) mc.endpoints_providers

unfoldable pub get_dns_resolvable_service_endpoints : MeshCatalog → MeshService → List Endpoint
get_dns_resolvable_service_endpoints mc svc =
    gather (λ p. p.get_resolvable_endpoints_for_service svc) mc.endpoints_providers

unfoldable pub list_endpoints_for_service_identity : MeshCatalog → String → List Endpoint
list_endpoints_for_service_identity mc si =
    gather (λ p. p.list_endpoints_for_identity si) mc.endpoints_providers
