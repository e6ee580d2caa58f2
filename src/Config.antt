-- ===== src/Config.antt =====
-- The mesh configuration of pkg/apis/config/v1alpha2, with the fields that a proxy or the ticker
-- depends on, and Go's comparison of its structs. A nil slice and an empty one are not told apart.
use osm_edge.Base.{
  ℕ, String, Bool, true, false, ◌&&◌, Option, none, some, List, map, ◌==◌, nat_comparable,
  bool_comparable, string_comparable, option_comparable, list_comparable, pair_comparable,
}

-- A pointer to a text: `!=` on structs compares the addresses.
pub record TextPointer : Type 0 where
  pub address : ℕ
  pub value : String

pub record TracingSpec : Type 0 where
  pub enable : Bool
  pub port : ℕ
  pub address : String
  pub endpoint : String
  pub sampled_fraction : Option TextPointer

pub record RemoteLoggingSpec : Type 0 where
  pub enable : Bool
  pub level : ℕ
  pub port : ℕ
  pub address : String
  pub endpoint : String
  pub authorization : String
  pub sampled_fraction : Option TextPointer

pub record ExternalAuthzSpec : Type 0 where
  pub enable : Bool
  pub address : String
  pub port : ℕ
  pub stat_prefix : String
  pub timeout : String
  pub failure_mode_allow : Bool

pub record FeatureFlags : Type 0 where
  pub enable_wasm_stats : Bool
  pub enable_egress_policy : Bool
  pub enable_snapshot_cache_mode : Bool
  pub enable_async_proxy_service_mapping : Bool
  pub enable_ingress_backend_policy : Bool
  pub enable_access_control_policy : Bool
  pub enable_access_cert_policy : Bool
  pub enable_sidecar_active_health_checks : Bool
  pub enable_retry_policy : Bool
  pub enable_plugin_policy : Bool

-- The priority, a 32-bit float that is only compared, is its text.
pub record PluginChainSpec : Type 0 where
  pub plugin : String
  pub priority : String
  pub disable : Bool

pub record PluginChainsSpec : Type 0 where
  pub inbound_tcp_chains : List PluginChainSpec
  pub inbound_http_chains : List PluginChainSpec
  pub outbound_tcp_chains : List PluginChainSpec
  pub outbound_http_chains : List PluginChainSpec

pub record TrafficSpec : Type 0 where
  pub enable_egress : Bool
  pub enable_permissive_traffic_policy_mode : Bool
  pub inbound_external_authorization : ExternalAuthzSpec
  pub http1_per_request_load_balancing : Bool
  pub http2_per_request_load_balancing : Bool

pub record SidecarSpec : Type 0 where
  pub log_level : String
  pub config_resync_interval : String
  pub sidecar_timeout : ℕ

-- `ClusterSet` is the list of the names and values of its properties.
pub record MeshConfigSpec : Type 0 where
  pub cluster_set : List (String × String)
  pub sidecar : SidecarSpec
  pub traffic : TrafficSpec
  pub tracing : TracingSpec
  pub remote_logging : RemoteLoggingSpec
  pub feature_flags : FeatureFlags
  pub plugin_chains : PluginChainsSpec

abbrev same_pointer : Option TextPointer → Option TextPointer → Bool
same_pointer none none = true
same_pointer (some p) (some q) = p.address == q.address
same_pointer none (some q) = false
same_pointer (some p) none = false

abbrev pub same_tracing : TracingSpec → TracingSpec → Bool
same_tracing a b =
    (a.enable == b.enable)
    && (a.port == b.port)
    && (a.address == b.address)
    && (a.endpoint == b.endpoint)
    && same_pointer a.sampled_fraction b.sampled_fraction

abbrev pub same_remote_logging : RemoteLoggingSpec → RemoteLoggingSpec → Bool
same_remote_logging a b =
    (a.enable == b.enable)
    && (a.level == b.level)
    && (a.port == b.port)
    && (a.address == b.address)
    && (a.endpoint == b.endpoint)
    && (a.authorization == b.authorization)
    && same_pointer a.sampled_fraction b.sampled_fraction

abbrev pub same_external_authz : ExternalAuthzSpec → ExternalAuthzSpec → Bool
same_external_authz a b =
    (a.enable == b.enable)
    && (a.address == b.address)
    && (a.port == b.port)
    && (a.stat_prefix == b.stat_prefix)
    && (a.timeout == b.timeout)
    && (a.failure_mode_allow == b.failure_mode_allow)

abbrev pub same_feature_flags : FeatureFlags → FeatureFlags → Bool
same_feature_flags a b =
    (a.enable_wasm_stats == b.enable_wasm_stats)
    && (a.enable_egress_policy == b.enable_egress_policy)
    && (a.enable_snapshot_cache_mode == b.enable_snapshot_cache_mode)
    && (a.enable_async_proxy_service_mapping == b.enable_async_proxy_service_mapping)
    && (a.enable_ingress_backend_policy == b.enable_ingress_backend_policy)
    && (a.enable_access_control_policy == b.enable_access_control_policy)
    && (a.enable_access_cert_policy == b.enable_access_cert_policy)
    && (a.enable_sidecar_active_health_checks == b.enable_sidecar_active_health_checks)
    && (a.enable_retry_policy == b.enable_retry_policy)
    && (a.enable_plugin_policy == b.enable_plugin_policy)

-- `reflect.DeepEqual` on the chains.
abbrev chain_fields : PluginChainSpec → String × (String × Bool)
chain_fields c = (c.plugin, (c.priority, c.disable))

abbrev same_chains : List PluginChainSpec → List PluginChainSpec → Bool
same_chains xs ys = map chain_fields xs == map chain_fields ys

abbrev pub same_plugin_chains : PluginChainsSpec → PluginChainsSpec → Bool
same_plugin_chains a b =
    same_chains a.inbound_tcp_chains b.inbound_tcp_chains
    && same_chains a.inbound_http_chains b.inbound_http_chains
    && same_chains a.outbound_tcp_chains b.outbound_tcp_chains
    && same_chains a.outbound_http_chains b.outbound_http_chains
