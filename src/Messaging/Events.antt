-- ===== src/Messaging/Events.antt =====
-- pkg/announcements and getProxyUpdateEvent of pkg/messaging/broker.go: which message updates which
-- proxies.
use osm_edge.Config.{
  MeshConfigSpec, same_tracing, same_remote_logging, same_external_authz, same_feature_flags,
  same_plugin_chains,
}
use osm_edge.Base.{
  String, Bool, not, ◌&&◌, ◌||◌, Option, none, some, List, [], ◌∷◌, ◌==◌, nat_comparable,
  bool_comparable, string_comparable, option_comparable, list_comparable, pair_comparable,
  if◌then◌else◌, elem, lookup, sprintf,
}

-- The kinds that the broker names one by one.
abbrev pub proxy_update : String
proxy_update = "proxy-update"

abbrev pub pod_updated : String
pod_updated = "pod-updated"

abbrev pub mesh_config_updated : String
mesh_config_updated = "meshconfig-updated"

-- The kinds of the first case of the switch, in its order.
pub broadcast_kinds : List String
broadcast_kinds =
    "endpoint-added" ∷ "endpoint-deleted" ∷ "endpoint-updated" ∷ "ingress-added" ∷ "ingress-deleted"
    ∷ "ingress-updated" ∷ "ingressclass-added" ∷ "ingressclass-deleted" ∷ "ingressclass-updated"
    ∷ "egress-added" ∷ "egress-deleted" ∷ "egress-updated" ∷ "egressgateway-added"
    ∷ "egressgateway-deleted" ∷ "egressgateway-updated" ∷ "ingressbackend-added"
    ∷ "ingressbackend-deleted" ∷ "ingressbackend-updated" ∷ "accesscontrol-added"
    ∷ "accesscontrol-deleted" ∷ "accesscontrol-updated" ∷ "retry-added" ∷ "retry-deleted"
    ∷ "retry-updated" ∷ "upstreamtrafficsetting-added" ∷ "upstreamtrafficsetting-deleted"
    ∷ "upstreamtrafficsetting-updated" ∷ "routegroup-added" ∷ "routegroup-deleted"
    ∷ "routegroup-updated" ∷ "tcproute-added" ∷ "tcproute-deleted" ∷ "tcproute-updated"
    ∷ "trafficsplit-added" ∷ "trafficsplit-deleted" ∷ "trafficsplit-updated" ∷ "traffictarget-added"
    ∷ "traffictarget-deleted" ∷ "traffictarget-updated" ∷ "serviceimport-added"
    ∷ "serviceimport-deleted" ∷ "serviceimport-updated" ∷ "serviceexport-added"
    ∷ "serviceexport-deleted" ∷ "serviceexport-updated" ∷ "globaltrafficpolicy-added"
    ∷ "globaltrafficpolicy-deleted" ∷ "globaltrafficpolicy-updated" ∷ "plugin-added"
    ∷ "plugin-deleted" ∷ "plugin-updated" ∷ "pluginchain-added" ∷ "pluginchain-deleted"
    ∷ "pluginchain-updated" ∷ "pluginconfig-added" ∷ "pluginconfig-deleted" ∷ "pluginconfig-updated"
    ∷ "proxy-update" ∷ []

abbrev pub prometheus_scrape_annotation : String
prometheus_scrape_annotation = "prometheus.io/scrape"

abbrev pub sidecar_unique_id_label_name : String
sidecar_unique_id_label_name = "osm-proxy-uuid"

pub record Pod : Type 0 where
  pub annotations : List (String × String)
  pub labels : List (String × String)

-- What `OldObj` and `NewObj` hold: the two types that the broker asks for, or another.
pub data Object : Type 0 where
  mesh_config : MeshConfigSpec → Object
  pod : Pod → Object
  other_object : Object

pub record PubSubMessage : Type 0 where
  pub kind : String
  pub old_obj : Object
  pub new_obj : Object

pub record ProxyUpdateEvent : Type 0 where
  pub msg : PubSubMessage
  pub topic : String

unfoldable pub get_pub_sub_topic_for_proxy_uuid : String → String
get_pub_sub_topic_for_proxy_uuid uuid = sprintf ("proxy:" ∷ uuid ∷ [])

-- A key that a map of texts lacks reads as the empty text.
abbrev pub read : String → List (String × String) → String
read key m = elim (lookup key m) [ none ↦ "" | some v ↦ v ]

unfoldable pub mesh_config_updates_proxies : MeshConfigSpec → MeshConfigSpec → Bool
mesh_config_updates_proxies prev new =
    not (prev.traffic.enable_egress == new.traffic.enable_egress)
    || not (
        prev.traffic.enable_permissive_traffic_policy_mode
        == new.traffic.enable_permissive_traffic_policy_mode)
    || not (
        prev.traffic.http1_per_request_load_balancing
        == new.traffic.http1_per_request_load_balancing)
    || not (
        prev.traffic.http2_per_request_load_balancing
        == new.traffic.http2_per_request_load_balancing)
    || not (same_tracing prev.tracing new.tracing)
    || not (same_remote_logging prev.remote_logging new.remote_logging)
    || not (prev.sidecar.log_level == new.sidecar.log_level)
    || not (prev.sidecar.sidecar_timeout == new.sidecar.sidecar_timeout)
    || not (
        prev.traffic.inbound_external_authorization.enable
        == new.traffic.inbound_external_authorization.enable)
    || (new.traffic.inbound_external_authorization.enable
        && not (
            same_external_authz prev.traffic.inbound_external_authorization
              new.traffic.inbound_external_authorization))
    || not (same_feature_flags prev.feature_flags new.feature_flags)
    || not (same_plugin_chains prev.plugin_chains new.plugin_chains)
    || not (prev.cluster_set == new.cluster_set)

abbrev broadcast : PubSubMessage → Option ProxyUpdateEvent
broadcast message = some (record { msg = message; topic = proxy_update })

-- The case of an updated mesh configuration.
abbrev mesh_config_event : PubSubMessage → Object → Object → Option ProxyUpdateEvent
mesh_config_event message (mesh_config prev) (mesh_config new) =
    if mesh_config_updates_proxies prev new then broadcast message else none
mesh_config_event message _ _ = none

-- The case of an updated pod.
abbrev pod_event : PubSubMessage → Object → Object → Option ProxyUpdateEvent
pod_event message (pod prev) (pod new) =
    let uuid = read sidecar_unique_id_label_name new.labels in
    if not (
      read prometheus_scrape_annotation prev.annotations
      == read prometheus_scrape_annotation new.annotations)
    then some (record { msg = message; topic = get_pub_sub_topic_for_proxy_uuid uuid })
    else if not (uuid == "")
    then broadcast message
    else none
pod_event message _ _ = none

unfoldable pub get_proxy_update_event : PubSubMessage → Option ProxyUpdateEvent
unfolding broadcast_kinds mesh_config_updates_proxies get_pub_sub_topic_for_proxy_uuid
get_proxy_update_event message =
    if elem message.kind broadcast_kinds
    then broadcast message
    else if message.kind == mesh_config_updated
    then mesh_config_event message message.old_obj message.new_obj
    else if message.kind == pod_updated
    then pod_event message message.old_obj message.new_obj
    else none
