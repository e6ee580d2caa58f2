-- ===== src/Service.antt =====
-- pkg/service/types.go and pkg/service/service.go: a service of the mesh and its names.
pub mod Laws
use osm_edge.Base.{
  ℕ, ◌/◌, String, Bool, true, not, ◌&&◌, List, [], ◌∷◌, ◌≡◌, ◌↔◌, arith, Comparable, ◌==◌,
  nat_comparable, string_comparable, option_comparable, list_comparable, pair_comparable, sprintf,
  split, decimal,
}

-- The `Locality` enumeration.
pub data Locality : Type 0 where
  local_ns local_cluster remote_cluster : Locality

-- `Port` and `TargetPort` are uint16, held as numbers.
pub record MeshService : Type 0 where
  pub namespace : String
  pub name : String
  pub port : ℕ
  pub target_port : ℕ
  pub protocol : String
  pub service_import_uid : String

-- The last piece of a split text; `strings.Split` never returns an empty slice.
abbrev last_of : List String → String
last_of [] = ""
last_of (x ∷ []) = x
last_of (x ∷ y ∷ rest) = last_of (y ∷ rest)

abbrev subdomain_of : List String → String
subdomain_of (x ∷ y ∷ rest) = x
subdomain_of _ = ""

unfoldable pub subdomain : MeshService → String
subdomain ms = subdomain_of (split b'.' ms.name)

unfoldable pub provider_key : MeshService → String
provider_key ms = last_of (split b'.' ms.name)

unfoldable pub namespaced_key : MeshService → String
unfolding provider_key
namespaced_key ms = sprintf (ms.namespace ∷ "/" ∷ provider_key ms ∷ [])

unfoldable pub is_multi_cluster_service : MeshService → Bool
is_multi_cluster_service ms = not (ms.service_import_uid == "")

unfoldable pub sibling_to : MeshService → MeshService → Bool
unfolding namespaced_key
sibling_to ms svc = namespaced_key ms == namespaced_key svc

-- `MeshService.String`
unfoldable pub service_string : MeshService → String
service_string ms = sprintf (ms.namespace ∷ "/" ∷ ms.name ∷ [])

unfoldable pub sidecar_cluster_name : MeshService → String
sidecar_cluster_name ms = sprintf (ms.namespace ∷ "/" ∷ ms.name ∷ "|" ∷ decimal ms.target_port ∷ [])

unfoldable pub sidecar_local_cluster_name : MeshService → String
sidecar_local_cluster_name ms =
    sprintf (ms.namespace ∷ "/" ∷ ms.name ∷ "|" ∷ decimal ms.target_port ∷ "|local" ∷ [])

unfoldable pub fqdn : MeshService → String
fqdn ms = sprintf (ms.name ∷ "." ∷ ms.namespace ∷ ".svc.cluster.local" ∷ [])

-- The TLS server name of pkg/service/service.go.
unfoldable pub server_name : MeshService → String
unfolding fqdn
server_name ms = fqdn ms

unfoldable pub outbound_traffic_match_name : MeshService → String
unfolding service_string
outbound_traffic_match_name ms =
    sprintf ("outbound_" ∷ service_string ms ∷ "_" ∷ decimal ms.port ∷ "_" ∷ ms.protocol ∷ [])

unfoldable pub inbound_traffic_match_name : MeshService → String
unfolding service_string
inbound_traffic_match_name ms =
    sprintf ("inbound_" ∷ service_string ms ∷ "_" ∷ decimal ms.target_port ∷ "_" ∷ ms.protocol ∷ [])

-- `IngressTrafficMatchName`: the parameters are called name and namespace, in this order.
unfoldable pub ingress_traffic_match_name : String → String → ℕ → String → String
ingress_traffic_match_name name namespace target_port protocol =
    sprintf ("ingress_" ∷ namespace ∷ "/" ∷ name ∷ "_" ∷ decimal target_port ∷ "_" ∷ protocol ∷ [])

-- The method passes the namespace as `name` and the name as `namespace`.
unfoldable pub service_ingress_traffic_match_name : MeshService → String
unfolding ingress_traffic_match_name
service_ingress_traffic_match_name ms =
    ingress_traffic_match_name ms.namespace ms.name ms.target_port ms.protocol

unfoldable pub access_control_traffic_match_name : String → String → ℕ → String → String
access_control_traffic_match_name name namespace target_port protocol =
    sprintf ("acl_" ∷ namespace ∷ "/" ∷ name ∷ "_" ∷ decimal target_port ∷ "_" ∷ protocol ∷ [])

unfoldable pub service_access_control_traffic_match_name : MeshService → String
unfolding access_control_traffic_match_name
service_access_control_traffic_match_name ms =
    access_control_traffic_match_name ms.namespace ms.name ms.target_port ms.protocol

unfoldable pub exported_service_traffic_match_name : String → String → ℕ → String → String
exported_service_traffic_match_name name namespace target_port protocol =
    sprintf ("exp_" ∷ namespace ∷ "/" ∷ name ∷ "_" ∷ decimal target_port ∷ "_" ∷ protocol ∷ [])

-- A cluster and its weight. Weights are not negative.
pub record WeightedCluster : Type 0 where
  pub cluster_name : String
  pub weight : ℕ

-- `service.Provider`, without its identifier.
pub record Provider : Type 0 where
  pub get_services_for_service_identity : String → List MeshService
  pub list_services : List MeshService
  pub list_service_identities_for_service : MeshService → List String

abbrev service_same : MeshService → MeshService → Bool
service_same a b =
    (a.namespace == b.namespace)
    && (a.name == b.name)
    && (a.port == b.port)
    && (a.target_port == b.target_port)
    && (a.protocol == b.protocol)
    && (a.service_import_uid == b.service_import_uid)

pub service_same_iff : (a b : MeshService) → (service_same a b ≡ true) ↔ (a ≡ b)
service_same_iff a b = ground (
  arith,
  string_comparable.same_iff a.namespace b.namespace,
  string_comparable.same_iff a.name b.name,
  string_comparable.same_iff a.protocol b.protocol,
  string_comparable.same_iff a.service_import_uid b.service_import_uid,
)

instance abbrev pub service_comparable : Comparable MeshService
service_comparable = record { same = service_same; same_iff = service_same_iff }

abbrev cluster_same : WeightedCluster → WeightedCluster → Bool
cluster_same a b = (a.cluster_name == b.cluster_name) && (a.weight == b.weight)

pub cluster_same_iff : (a b : WeightedCluster) → (cluster_same a b ≡ true) ↔ (a ≡ b)
cluster_same_iff a b = ground (arith, string_comparable.same_iff a.cluster_name b.cluster_name)

instance abbrev pub cluster_comparable : Comparable WeightedCluster
cluster_comparable = record { same = cluster_same; same_iff = cluster_same_iff }
