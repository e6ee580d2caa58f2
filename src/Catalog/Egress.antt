-- ===== src/Catalog/Egress.antt =====
-- pkg/catalog/egress.go, `getGatewayForEgress` of egress_gateway.go, and the functions of
-- pkg/trafficpolicy that remove duplicates and name a match. The `nil` tests of an egress policy are
-- left out: the catalog passes only policies that were listed.
pub mod Laws
use osm_edge.Base.Sets.{of_slice}
use osm_edge.Identity.{K8sServiceAccount, to_k8s_service_account}
use osm_edge.Service.{WeightedCluster}
use osm_edge.K8s.Hostname.{NamespacedName}
use osm_edge.Policy.Resources.{
  PortSpec, Egress, EgressSourceSpec, EgressSourceMtlsSpec, EgressGateway, EgressPolicyGatewayRule,
  ObjectReference, UpstreamTrafficSetting,
}
use osm_edge.Policy.Client.{
  list_egress_gateways, list_egress_policies_for_source_identity, get_upstream_traffic_setting,
}
use osm_edge.Smi.{get_http_route_group}
use osm_edge.Smi.Resources.{HttpRouteGroup, http_route_group_kind}
use osm_edge.SetLibrary.{SetLibrary}
use osm_edge.TrafficPolicy.Types.{
  HttpRouteMatch, TrafficMatch, EgressClusterConfig, EgressHttpRoutingRule, EgressHttpRouteConfig,
  EgressTrafficPolicy, zero_traffic_match,
}
use osm_edge.TrafficPolicy.Rules.{wildcard_route_match}
use osm_edge.Catalog.{MeshCatalog}
use osm_edge.Catalog.Routes.{
  service_route, append_at, cluster_weight_accept_all, protocol_tcp, protocol_tcp_server_first,
}
use osm_edge.Base.{
  ◌>>=◌, ℕ, suc, ◌*◌, ◌/◌, String, Bool, not, ◌&&◌, Option, none, some, List, [], ◌∷◌, ◌++◌, map,
  ◌==◌, nat_comparable, string_comparable, option_comparable, list_comparable, pair_comparable,
  if◌then◌else◌, is_some, any, insert, Run, returns, sprintf, decimal,
}

-- What the code calls of other packages: `strings.ToLower`, `strings.EqualFold`, whether
-- `net.ParseCIDR` succeeds, `hashstructure.Hash` (an error is `none`), and the version of the SMI
-- specs, whose text smi-sdk-go defines.
pub record Externals : Type 0 where
  pub to_lower : String → String
  pub equal_fold : String → String → Bool
  pub parses_cidr : String → Bool
  pub hash_match : TrafficMatch → Option ℕ
  pub hash_config : EgressClusterConfig → Option ℕ
  pub smi_specs_group_version : String

abbrev pub policy_group_version : String
policy_group_version = "policy.openservicemesh.io/v1alpha1"

abbrev pub upstream_traffic_setting_kind : String
upstream_traffic_setting_kind = "UpstreamTrafficSetting"

-- The first loop: from hashes to entries. The second loop goes through the map, whose entries
-- are kept here in the order in which their hashes first came; Go's order is not specified.
entries_by_hash : {A : Type 0} → (A → Option ℕ) → List (ℕ × A) → List A → Option (List (ℕ × A))
entries_by_hash hash m [] = some m
entries_by_hash hash m (x ∷ xs) = elim (hash x) [
  | none ↦ none
  | some h ↦ entries_by_hash hash (insert h x m) xs
]

abbrev pub values : {A : Type 0} → List (ℕ × A) → List A
values m = map (λ entry. entry.1) m

deduplicate : {A : Type 0} → (A → Option ℕ) → List A → Option (List A)
unfolding entries_by_hash
deduplicate hash xs = elim (entries_by_hash hash [] xs) [ none ↦ none | some m ↦ some (values m) ]

unfoldable pub deduplicate_traffic_matches :
    Externals → List TrafficMatch → Option (List TrafficMatch)
unfolding deduplicate
deduplicate_traffic_matches x matches = deduplicate x.hash_match matches

unfoldable pub deduplicate_cluster_configs :
    Externals → List EgressClusterConfig → Option (List EgressClusterConfig)
unfolding deduplicate
deduplicate_cluster_configs x configs = deduplicate x.hash_config configs

unfoldable pub get_egress_traffic_match_name : Externals → ℕ → String → String
get_egress_traffic_match_name x port protocol =
    sprintf ("egress-" ∷ x.to_lower protocol ∷ "." ∷ decimal port ∷ [])

source_mtls_from : K8sServiceAccount → List EgressSourceSpec → Option EgressSourceMtlsSpec
source_mtls_from source [] = none
source_mtls_from source (spec ∷ specs) =
    if (spec.name == source.name) && (spec.namespace == source.namespace)
    then spec.mtls
    else source_mtls_from source specs

unfoldable pub get_egress_source_mtls : Egress → K8sServiceAccount → Option EgressSourceMtlsSpec
unfolding source_mtls_from
get_egress_source_mtls policy source = source_mtls_from source policy.sources

abbrev pub refers_to : String → String → ObjectReference → Bool
refers_to version kind match = (match.api_group == some version) && (match.kind == kind)

-- The setting, none, or the error (the outer `none`) that a setting is named but not found.
unfoldable pub setting_from_matches :
    MeshCatalog → String → List ObjectReference → Run (Option (Option UpstreamTrafficSetting))
setting_from_matches mc namespace [] = returns (some none)
setting_from_matches mc namespace (match ∷ matches) =
    let later = setting_from_matches mc namespace matches in
    if not (refers_to policy_group_version upstream_traffic_setting_kind match) then later else do
      found ← get_upstream_traffic_setting mc.policy_controller (record {
        mesh_service = none;
        namespaced_name = some (record { namespace = namespace; name = match.name });
        host = "";
      })
      returns (elim found [ none ↦ none | some setting ↦ some (some setting) ])

unfoldable pub get_upstream_traffic_setting_for_egress :
    MeshCatalog → Egress → Run (Option (Option UpstreamTrafficSetting))
unfolding setting_from_matches
get_upstream_traffic_setting_for_egress mc policy =
    setting_from_matches mc policy.namespace policy.matches

-- Some rule of the gateway names the policy.
rules_name : Externals → Egress → List EgressPolicyGatewayRule → Bool
rules_name x policy rules =
    any
      (λ rule.
        any
          (λ egress.
            x.equal_fold egress.namespace policy.namespace && x.equal_fold egress.name policy.name)
          rule.egress_policies)
      rules

gateway_from : Externals → Egress → ℕ → List EgressGateway → Option String
unfolding rules_name
gateway_from x policy index [] = none
gateway_from x policy index (gateway ∷ gateways) =
    let later = gateway_from x policy (suc index) gateways in
    if rules_name x policy gateway.rules
    then some (sprintf (gateway.namespace ∷ "." ∷ gateway.name ∷ "." ∷ decimal index ∷ []))
    else later

unfoldable pub get_gateway_for_egress : Externals → MeshCatalog → Egress → Option String
unfolding gateway_from
get_gateway_for_egress x mc policy =
    let gateways = list_egress_gateways mc.policy_controller in
    elim (gateway_from x policy 0 gateways) [
      | some rule_name ↦ some rule_name
      | none ↦ if any (λ g. is_some g.global_egress_gateways) gateways then some "*" else none
    ]

unfoldable pub get_http_route_matches_from_http_route_group : HttpRouteGroup → List HttpRouteMatch
get_http_route_matches_from_http_route_group group = elim group.matches [
  | none ↦ []
  | some matches ↦ map service_route matches
]

-- The ranges that parse, each once.
unfoldable pub allowed_ip_ranges :
    Externals → (S : SetLibrary) → S.strings.Carrier → List String → List String
allowed_ip_ranges x S seen [] = []
allowed_ip_ranges x S seen (range ∷ ranges) =
    let added = S.strings.add seen range in
    let skipped = allowed_ip_ranges x S seen ranges in
    let rest = allowed_ip_ranges x S added.0 ranges in
    if not (x.parses_cidr range) then skipped else if added.1 then range ∷ rest else rest

abbrev pub names_http_group : Externals → ObjectReference → Bool
names_http_group x match = refers_to x.smi_specs_group_version http_route_group_kind match

-- The loop over the matches of the policy.
matches_of_references :
    Externals → MeshCatalog → String → List ObjectReference → List HttpRouteMatch
matches_of_references x mc namespace [] = []
matches_of_references x mc namespace (match ∷ matches) =
    let rest = matches_of_references x mc namespace matches in
    if names_http_group x match
    then elim (get_http_route_group mc.mesh_spec (sprintf (namespace ∷ "/" ∷ match.name ∷ []))) [
      | none ↦ rest
      | some group ↦ get_http_route_matches_from_http_route_group group ++ rest
    ]
    else rest

unfoldable pub egress_http_route_matches : Externals → MeshCatalog → Egress → List HttpRouteMatch
unfolding matches_of_references
egress_http_route_matches x mc policy =
    if any (names_http_group x) policy.matches
    then matches_of_references x mc policy.namespace policy.matches
    else wildcard_route_match ∷ []
