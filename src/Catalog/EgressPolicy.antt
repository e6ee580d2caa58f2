-- ===== src/Catalog/EgressPolicy.antt =====
-- pkg/catalog/egress.go: the egress policy of an identity. The switch over the protocols and the
-- loops over ports and policies.
use osm_edge.Base.Sets.{of_slice}
use osm_edge.Identity.{K8sServiceAccount, to_k8s_service_account}
use osm_edge.Service.{cluster_comparable}
use osm_edge.Policy.Resources.{PortSpec, Egress, EgressSourceMtlsSpec, UpstreamTrafficSetting}
use osm_edge.Policy.Client.{list_egress_policies_for_source_identity}
use osm_edge.SetLibrary.{SetLibrary}
use osm_edge.TrafficPolicy.Types.{
  HttpRouteMatch, TrafficMatch, EgressClusterConfig, EgressHttpRoutingRule, EgressHttpRouteConfig,
  EgressTrafficPolicy, zero_traffic_match,
}
use osm_edge.Catalog.{MeshCatalog}
use osm_edge.Catalog.Egress.{
  Externals, deduplicate_traffic_matches, deduplicate_cluster_configs,
  get_egress_traffic_match_name, get_egress_source_mtls, get_upstream_traffic_setting_for_egress,
  get_gateway_for_egress, allowed_ip_ranges, egress_http_route_matches,
}
use osm_edge.Catalog.Routes.{cluster_weight_accept_all, protocol_tcp, protocol_tcp_server_first}
use osm_edge.Base.{
  ℕ, String, not, ◌||◌, Option, none, some, List, [], ◌∷◌, ◌++◌, map, ◌==◌, nat_comparable,
  string_comparable, option_comparable, list_comparable, pair_comparable, if◌then◌else◌, lookup,
  insert, Run, returns, ◌>>=◌, sprintf, decimal,
}

abbrev pub host_with_port : String → ℕ → String
host_with_port host port = sprintf (host ∷ ":" ∷ decimal port ∷ [])

module _ (S : SetLibrary) (x : Externals) where
  routing_rules : List String → String → List HttpRouteMatch → List (EgressHttpRoutingRule S)
  unfolding of_slice
  routing_rules ip_ranges cluster_name matches =
      map
        (λ match. record {
          route = record {
            http_route_match = match;
            weighted_clusters =
                of_slice S.clusters
                  (record { cluster_name = cluster_name; weight = cluster_weight_accept_all } ∷ []);
            retry_policy = none;
            rate_limit = none;
          };
          allowed_destination_ip_ranges = ip_ranges;
        })
        matches

  -- The first result of `buildHTTPRouteConfigs`, then the second.
  unfoldable pub http_route_configs : MeshCatalog → Egress → ℕ → List (EgressHttpRouteConfig S)
  unfolding routing_rules
  http_route_configs mc policy port =
      map
        (λ host. record {
          name = host;
          hostnames = host ∷ host_with_port host port ∷ [];
          routing_rules =
              routing_rules (allowed_ip_ranges x S S.strings.new_set policy.ip_addresses)
                (host_with_port host port) (egress_http_route_matches x mc policy);
        })
        policy.hosts

  unfoldable pub http_cluster_configs :
      Egress
      → ℕ
      → Option UpstreamTrafficSetting
      → Option EgressSourceMtlsSpec
      → List EgressClusterConfig
  http_cluster_configs policy port setting mtls =
      map
        (λ host. record {
          name = host_with_port host port;
          host = host;
          port = port;
          upstream_traffic_setting = setting;
          source_mtls = mtls;
        })
        policy.hosts

  -- The cluster of a TCP or an HTTPS port.
  abbrev port_cluster :
      ℕ → Option UpstreamTrafficSetting → Option EgressSourceMtlsSpec → EgressClusterConfig
  port_cluster port setting mtls = record {
    name = decimal port;
    host = "";
    port = port;
    upstream_traffic_setting = setting;
    source_mtls = mtls;
  }

  abbrev port_match : PortSpec → Option String → TrafficMatch
  port_match port gateway = record zero_traffic_match {
    name = get_egress_traffic_match_name x port.number port.protocol;
    destination_port = port.number;
    destination_protocol = port.protocol;
    egress_gateway = gateway;
  }

  -- The matches, clusters and routes that have been collected.
  pub record Collected : Type 0 where
    pub traffic_matches : List TrafficMatch
    pub clusters_configs : List EgressClusterConfig
    pub routes : List (ℕ × List (EgressHttpRouteConfig S))

  -- `portToRouteConfigMap[port] = append(portToRouteConfigMap[port], configs...)`
  abbrev append_all_at :
      ℕ
      → List (EgressHttpRouteConfig S)
      → List (ℕ × List (EgressHttpRouteConfig S))
      → List (ℕ × List (EgressHttpRouteConfig S))
  append_all_at port configs m =
      insert port (elim (lookup port m) [ none ↦ configs | some cs ↦ cs ++ configs ]) m

  -- The switch over the protocol.
  unfoldable pub add_port :
      MeshCatalog
      → Egress
      → Option UpstreamTrafficSetting
      → Option EgressSourceMtlsSpec
      → Option String
      → Collected
      → PortSpec
      → Collected
  unfolding http_route_configs http_cluster_configs get_egress_traffic_match_name
  add_port mc policy setting mtls gateway c port =
      let protocol = x.to_lower port.protocol in
      let base = port_match port gateway in
      if protocol == "http"
      then record {
        traffic_matches = c.traffic_matches ++ base ∷ [];
        clusters_configs =
            c.clusters_configs ++ http_cluster_configs policy port.number setting mtls;
        routes = append_all_at port.number (http_route_configs mc policy port.number) c.routes;
      }
      else if (protocol == protocol_tcp) || (protocol == protocol_tcp_server_first)
      then record {
        traffic_matches =
            c.traffic_matches
            ++ record base {
              destination_ip_ranges = policy.ip_addresses;
              cluster = decimal port.number;
            }
              ∷ [];
        clusters_configs = c.clusters_configs ++ port_cluster port.number setting mtls ∷ [];
        routes = c.routes;
      }
      else if protocol == "https"
      then record {
        traffic_matches =
            c.traffic_matches
            ++ record base {
              destination_ip_ranges = policy.ip_addresses;
              server_names = policy.hosts;
              cluster = decimal port.number;
            }
              ∷ [];
        clusters_configs = c.clusters_configs ++ port_cluster port.number setting mtls ∷ [];
        routes = c.routes;
      }
      else c

  add_ports :
      MeshCatalog
      → Egress
      → Option UpstreamTrafficSetting
      → Option EgressSourceMtlsSpec
      → Option String
      → Collected
      → List PortSpec
      → Collected
  unfolding add_port
  add_ports mc policy setting mtls gateway c [] = c
  add_ports mc policy setting mtls gateway c (port ∷ ports) =
      add_ports mc policy setting mtls gateway (add_port mc policy setting mtls gateway c port)
        ports

  -- A policy whose traffic setting is missing is ignored.
  unfoldable pub add_policy :
      MeshCatalog
      → K8sServiceAccount
      → Collected
      → Egress
      → Option (Option UpstreamTrafficSetting)
      → Collected
  unfolding add_ports
  add_policy mc sa c policy none = c
  add_policy mc sa c policy (some setting) =
      add_ports mc policy setting (get_egress_source_mtls policy sa)
        (get_gateway_for_egress x mc policy) c policy.ports

  unfoldable pub add_policies :
      MeshCatalog → K8sServiceAccount → Collected → List Egress → Run Collected
  unfolding add_policy
  add_policies mc sa c [] = returns c
  add_policies mc sa c (policy ∷ policies) = do
    setting ← get_upstream_traffic_setting_for_egress mc policy
    add_policies mc sa (add_policy mc sa c policy setting) policies

  -- The error of a deduplication is `none`.
  unfoldable pub egress_policy_of : Collected → Option (EgressTrafficPolicy S)
  egress_policy_of c = elim (deduplicate_traffic_matches x c.traffic_matches) [
    | none ↦ none
    | some matches ↦ elim (deduplicate_cluster_configs x c.clusters_configs) [
      | none ↦ none
      | some configs ↦ some (record {
        traffic_matches = matches;
        http_route_configs_per_port = c.routes;
        clusters_configs = configs;
      })
    ]
  ]

  -- A policy, no policy because the feature is off (`some none`), or an error (`none`).
  unfoldable pub get_egress_traffic_policy :
      MeshCatalog → String → Run (Option (Option (EgressTrafficPolicy S)))
  unfolding add_policies egress_policy_of
  get_egress_traffic_policy mc si =
      if not mc.settings.enable_egress_policy then returns (some none) else do
        sa ← to_k8s_service_account si
        collected ←
            add_policies mc sa (record { traffic_matches = []; clusters_configs = []; routes = [] })
              (list_egress_policies_for_source_identity mc.policy_controller sa)
        returns (elim (egress_policy_of collected) [ none ↦ none | some p ↦ some (some p) ])
