-- ===== src/TrafficPolicy/Types.antt =====
-- pkg/trafficpolicy/types.go, egress_types.go, ingress_types.go and accesscontrol_types.go. A nil slice and an empty
-- one are not told apart, but for `Headers`, whose entries are kept in the order of their keys.
use osm_edge.Service.{MeshService, WeightedCluster}
use osm_edge.Policy.Resources.{
  RetryPolicySpec, RateLimitSpec, HttpPerRouteRateLimitSpec, UpstreamTrafficSetting,
  EgressSourceMtlsSpec, TlsSpec,
}
use osm_edge.SetLibrary.{SetLibrary}
use osm_edge.Base.{
  ℕ, String, Bool, Option, none, List, [], nat_comparable, string_comparable, option_comparable,
  list_comparable, pair_comparable,
}

pub data PathMatchType : Type 0 where
  path_match_regex path_match_exact path_match_prefix : PathMatchType

pub record HttpRouteMatch : Type 0 where
  pub path : String
  pub path_match_type : PathMatchType
  pub methods : List String
  pub headers : Option (List (String × String))

pub record HttpRouteMatchWithWeightedClusters : Type 0 where
  pub upstream_clusters : List WeightedCluster
  pub route_matches : List HttpRouteMatch
  pub has_split_matches : Bool

pub record TcpRouteMatch : Type 0 where
  pub ports : List ℕ

pub record TrafficTargetWithRoutes : Type 0 where
  pub name : String
  pub destination : String
  pub sources : List String
  pub tcp_route_matches : List TcpRouteMatch

pub record MeshClusterConfig : Type 0 where
  pub name : String
  pub service : MeshService
  pub address : String
  pub port : ℕ
  pub enable_sidecar_active_health_checks : Bool
  pub upstream_traffic_setting : Option UpstreamTrafficSetting

pub record TrafficMatch : Type 0 where
  pub destination_port : ℕ
  pub destination_protocol : String
  pub destination_ip_ranges : List String
  pub server_names : List String
  pub cluster : String
  pub name : String
  pub weighted_clusters : List WeightedCluster
  pub rate_limit : Option RateLimitSpec
  pub egress_gateway : Option String

-- A value with only its zero fields, from which the composite literals of Go start.
abbrev pub zero_traffic_match : TrafficMatch
zero_traffic_match = record {
  destination_port = 0;
  destination_protocol = "";
  destination_ip_ranges = [];
  server_names = [];
  cluster = "";
  name = "";
  weighted_clusters = [];
  rate_limit = none;
  egress_gateway = none;
}

pub record EgressClusterConfig : Type 0 where
  pub name : String
  pub host : String
  pub port : ℕ
  pub upstream_traffic_setting : Option UpstreamTrafficSetting
  pub source_mtls : Option EgressSourceMtlsSpec

pub record AccessControlTrafficMatch : Type 0 where
  pub name : String
  pub port : ℕ
  pub protocol : String
  pub source_ip_ranges : List String
  pub tls : Option TlsSpec
  pub rate_limit : Option RateLimitSpec

pub record ServiceExportTrafficMatch : Type 0 where
  pub name : String
  pub port : ℕ
  pub protocol : String
  pub source_ip_ranges : List String
  pub tls : Option TlsSpec

pub record IngressTrafficMatch : Type 0 where
  pub name : String
  pub port : ℕ
  pub protocol : String
  pub source_ip_ranges : List String
  pub tls : Option TlsSpec
  pub server_names : List String
  pub skip_client_cert_validation : Bool
  pub rate_limit : Option RateLimitSpec

-- The types below hold sets of the library.
pub record RouteWeightedClusters (S : SetLibrary) : Type 0 where
  pub http_route_match : HttpRouteMatch
  pub weighted_clusters : S.clusters.Carrier
  pub retry_policy : Option RetryPolicySpec
  pub rate_limit : Option HttpPerRouteRateLimitSpec

pub record Rule (S : SetLibrary) : Type 0 where
  pub route : RouteWeightedClusters S
  pub allowed_principals : S.strings.Carrier

pub record InboundTrafficPolicy (S : SetLibrary) : Type 0 where
  pub name : String
  pub hostnames : List String
  pub rules : List (Rule S)
  pub rate_limit : Option RateLimitSpec

pub record OutboundTrafficPolicy (S : SetLibrary) : Type 0 where
  pub name : String
  pub hostnames : List String
  pub routes : List (RouteWeightedClusters S)

-- The maps from ports are association lists, each port once.
pub record InboundMeshTrafficPolicy (S : SetLibrary) : Type 0 where
  pub traffic_matches : List TrafficMatch
  pub http_route_configs_per_port : List (ℕ × List (InboundTrafficPolicy S))
  pub clusters_configs : List MeshClusterConfig

pub record OutboundMeshTrafficPolicy (S : SetLibrary) : Type 0 where
  pub traffic_matches : List TrafficMatch
  pub http_route_configs_per_port : List (ℕ × List (OutboundTrafficPolicy S))
  pub clusters_configs : List MeshClusterConfig
  pub services_resolvable_set : List (String × List String)

pub record EgressHttpRoutingRule (S : SetLibrary) : Type 0 where
  pub route : RouteWeightedClusters S
  pub allowed_destination_ip_ranges : List String

pub record EgressHttpRouteConfig (S : SetLibrary) : Type 0 where
  pub name : String
  pub hostnames : List String
  pub routing_rules : List (EgressHttpRoutingRule S)

pub record EgressTrafficPolicy (S : SetLibrary) : Type 0 where
  pub traffic_matches : List TrafficMatch
  pub http_route_configs_per_port : List (ℕ × List (EgressHttpRouteConfig S))
  pub clusters_configs : List EgressClusterConfig

pub record AccessControlTrafficPolicy (S : SetLibrary) : Type 0 where
  pub traffic_matches : List AccessControlTrafficMatch
  -- The single entry is a pointer that may be nil.
  pub http_route_policies : List (Option (InboundTrafficPolicy S))

pub record IngressTrafficPolicy (S : SetLibrary) : Type 0 where
  pub traffic_matches : List IngressTrafficMatch
  pub http_route_policies : List (InboundTrafficPolicy S)

pub record ServiceExportTrafficPolicy (S : SetLibrary) : Type 0 where
  pub traffic_matches : List ServiceExportTrafficMatch
  -- The single entry is a pointer that may be nil.
  pub http_route_policies : List (Option (InboundTrafficPolicy S))
