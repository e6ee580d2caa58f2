-- ===== src/Catalog/Targets.antt =====
-- pkg/catalog/traffictarget.go, retry.go, and the functions of endpoint.go and
-- outbound_traffic_policies.go that follow the traffic targets from one identity to others.
-- `ToK8sServiceAccount` panics on an identity without a dot, and so do its callers.
pub mod Laws
pub mod Services
use osm_edge.Identity.{
  K8sServiceAccount, to_k8s_service_account, to_service_identity, account_comparable,
}
use osm_edge.Service.{MeshService, sibling_to, service_comparable}
use osm_edge.Policy.Resources.{RetrySrcDstSpec, Retry, RetryPolicySpec}
use osm_edge.Policy.Client.{list_retry_policies}
use osm_edge.Smi.{no_destination, list_traffic_targets, get_tcp_route}
use osm_edge.Smi.Resources.{
  IdentityBindingSubject, TrafficTargetRule, TrafficTarget, service_account_kind, tcp_route_kind,
}
use osm_edge.TrafficPolicy.Types.{TcpRouteMatch, TrafficTargetWithRoutes}
use osm_edge.SetLibrary.{SetLibrary}
use osm_edge.Catalog.{
  MeshCatalog, Endpoint, get_services_for_service_identity, list_mesh_services,
  list_endpoints_for_service, list_endpoints_for_service_identity,
}
use osm_edge.Base.{
  ◌>>=◌, ℕ, ◌/◌, ◌%◌, String, Bool, not, ◌&&◌, Option, none, some, List, [], ◌∷◌, ◌++◌, map, ◌==◌,
  nat_comparable, string_comparable, option_comparable, list_comparable, pair_comparable,
  if◌then◌else◌, length, any, gather, keep, Run, returns, sprintf,
}

pub data Direction : Type 0 where
  inbound outbound : Direction

unfoldable pub traffic_target_identity_to_svc_account : IdentityBindingSubject → K8sServiceAccount
traffic_target_identity_to_svc_account subject = record {
  namespace = subject.namespace;
  name = subject.name;
}

unfoldable pub traffic_target_identity_to_service_identity : IdentityBindingSubject → String
unfolding traffic_target_identity_to_svc_account
traffic_target_identity_to_service_identity subject =
    to_service_identity (traffic_target_identity_to_svc_account subject)

-- All valid traffic targets: `ListTrafficTargets` without an option.
abbrev pub all_traffic_targets : MeshCatalog → List TrafficTarget
all_traffic_targets mc = list_traffic_targets mc.mesh_spec no_destination

-- The subject names the account, whatever its kind.
abbrev pub names_account : K8sServiceAccount → IdentityBindingSubject → Bool
names_account sa subject = (subject.name == sa.name) && (subject.namespace == sa.namespace)

abbrev pub is_service_account : IdentityBindingSubject → Bool
is_service_account subject = subject.kind == service_account_kind

unfoldable pub to_uint16_slice : List ℕ → List ℕ
to_uint16_slice [] = []
to_uint16_slice (port ∷ ports) = port % 65536 ∷ to_uint16_slice ports

-- A TCP route that is not found is an error, `none`.
tcp_route_matches_from : MeshCatalog → String → List TrafficTargetRule → Option (List TcpRouteMatch)
tcp_route_matches_from mc namespace [] = some []
tcp_route_matches_from mc namespace (rule ∷ rules) =
    let rest = tcp_route_matches_from mc namespace rules in
    if rule.kind == tcp_route_kind
    then elim (get_tcp_route mc.mesh_spec (sprintf (namespace ∷ "/" ∷ rule.name ∷ []))) [
      | none ↦ none
      | some route ↦ elim rest [
        | none ↦ none
        | some matches ↦ some (record { ports = to_uint16_slice route.ports } ∷ matches)
      ]
    ]
    else rest

unfoldable pub get_tcp_route_matches_from_traffic_target :
    MeshCatalog → TrafficTarget → Option (List TcpRouteMatch)
unfolding tcp_route_matches_from
get_tcp_route_matches_from_traffic_target mc t = tcp_route_matches_from mc t.namespace t.rules

targets_with_routes : MeshCatalog → String → List TrafficTarget → List TrafficTargetWithRoutes
targets_with_routes mc upstream [] = []
targets_with_routes mc upstream (t ∷ ts) =
    let rest = targets_with_routes mc upstream ts in
    if traffic_target_identity_to_service_identity t.destination == upstream
    then elim (get_tcp_route_matches_from_traffic_target mc t) [
      | none ↦ rest
      | some matches ↦
          record {
            name = sprintf (t.namespace ∷ "/" ∷ t.name ∷ []);
            destination = traffic_target_identity_to_service_identity t.destination;
            sources = map traffic_target_identity_to_service_identity t.sources;
            tcp_route_matches = matches;
          }
          ∷ rest
    ]
    else rest

unfoldable pub list_inbound_traffic_targets_with_routes :
    MeshCatalog → String → List TrafficTargetWithRoutes
unfolding targets_with_routes
list_inbound_traffic_targets_with_routes mc upstream =
    if mc.settings.is_permissive_traffic_policy_mode
    then []
    else targets_with_routes mc upstream (all_traffic_targets mc)

module _ (S : SetLibrary) where
  -- The two loops over the sources of a target.
  add_sources : S.accounts.Carrier → List IdentityBindingSubject → S.accounts.Carrier
  add_sources allowed [] = allowed
  add_sources allowed (source ∷ sources) =
      add_sources
        (if is_service_account source
          then (S.accounts.add allowed (traffic_target_identity_to_svc_account source)).0
          else allowed)
        sources

  add_destination :
      K8sServiceAccount
      → K8sServiceAccount
      → S.accounts.Carrier
      → List IdentityBindingSubject
      → S.accounts.Carrier
  add_destination sa destination allowed [] = allowed
  add_destination sa destination allowed (source ∷ sources) =
      add_destination sa destination
        (if is_service_account source && names_account sa source
          then (S.accounts.add allowed destination).0
          else allowed)
        sources

  -- The round of the loop for one target.
  add_target :
      K8sServiceAccount → Direction → S.accounts.Carrier → TrafficTarget → S.accounts.Carrier
  unfolding add_sources add_destination
  add_target sa inbound allowed t =
      if is_service_account t.destination && names_account sa t.destination
      then add_sources allowed t.sources
      else allowed
  add_target sa outbound allowed t =
      if is_service_account t.destination
      then add_destination sa (traffic_target_identity_to_svc_account t.destination) allowed
          t.sources
      else allowed

  add_targets :
      K8sServiceAccount → Direction → S.accounts.Carrier → List TrafficTarget → S.accounts.Carrier
  unfolding add_target
  add_targets sa direction allowed [] = allowed
  add_targets sa direction allowed (t ∷ ts) =
      add_targets sa direction (add_target sa direction allowed t) ts

  unfoldable pub get_allowed_directional_service_accounts :
      MeshCatalog → String → Direction → Run (List String)
  unfolding add_targets
  get_allowed_directional_service_accounts mc si direction = do
    sa ← to_k8s_service_account si
    returns (
        map to_service_identity
          (S.accounts.iter (add_targets sa direction S.accounts.new_set (all_traffic_targets mc))))

  unfoldable pub list_inbound_service_identities : MeshCatalog → String → Run (List String)
  unfolding get_allowed_directional_service_accounts
  list_inbound_service_identities mc upstream =
      get_allowed_directional_service_accounts mc upstream inbound

  unfoldable pub list_outbound_service_identities : MeshCatalog → String → Run (List String)
  unfolding get_allowed_directional_service_accounts
  list_outbound_service_identities mc downstream =
      get_allowed_directional_service_accounts mc downstream outbound

  -- `serviceSet` and `allowedServices`: what is new is appended.
  append_new :
      S.services.Carrier
      → List MeshService
      → List MeshService
      → S.services.Carrier × List MeshService
  append_new seen allowed [] = (seen, allowed)
  append_new seen allowed (svc ∷ svcs) =
      let added = S.services.add seen svc in
      append_new added.0 (if added.1 then allowed ++ svc ∷ [] else allowed) svcs

  outbound_services :
      MeshCatalog
      → K8sServiceAccount
      → S.services.Carrier
      → List MeshService
      → List TrafficTarget
      → List MeshService
  unfolding append_new
  outbound_services mc sa seen allowed [] = allowed
  outbound_services mc sa seen allowed (t ∷ ts) =
      let destination =
        to_service_identity (traffic_target_identity_to_svc_account t.destination) in
      let appended =
        if any (names_account sa) t.sources
        then append_new seen allowed (get_services_for_service_identity mc destination)
        else (seen, allowed) in
      outbound_services mc sa appended.0 appended.1 ts

  unfoldable pub list_outbound_services_for_identity : MeshCatalog → String → Run (List MeshService)
  unfolding outbound_services
  list_outbound_services_for_identity mc si =
      if mc.settings.is_permissive_traffic_policy_mode then returns (list_mesh_services mc) else do
        sa ← to_k8s_service_account si
        returns (outbound_services mc sa S.services.new_set [] (all_traffic_targets mc))

  -- The endpoints of the service at the addresses of the identity's endpoints, once for each.
  unfoldable pub endpoints_at : List Endpoint → List Endpoint → List Endpoint
  endpoints_at service_endpoints identity_endpoints =
      gather (λ ep. keep (λ e. e.ip == ep.ip) service_endpoints) identity_endpoints

  unfoldable pub list_allowed_upstream_endpoints_for_service :
      MeshCatalog → String → MeshService → Run (List Endpoint)
  unfolding list_outbound_service_identities endpoints_at
  list_allowed_upstream_endpoints_for_service mc downstream upstream =
      let endpoints = list_endpoints_for_service mc upstream in
      if length endpoints == 0
      then returns []
      else if mc.settings.is_permissive_traffic_policy_mode
      then returns endpoints
      else do
        identities ← list_outbound_service_identities mc downstream
        returns (
            gather (λ si. endpoints_at endpoints (list_endpoints_for_service_identity mc si))
              identities)

-- The first retry policy with a destination of kind Service that is a sibling of the service.
destination_matches : MeshService → RetrySrcDstSpec → Bool
destination_matches upstream dest =
    (dest.kind == "Service")
    && sibling_to upstream (record {
      namespace = dest.namespace;
      name = dest.name;
      port = 0;
      target_port = 0;
      protocol = "";
      service_import_uid = "";
    })

retry_policy_from : MeshService → List Retry → Option RetryPolicySpec
retry_policy_from upstream [] = none
retry_policy_from upstream (retry ∷ retries) =
    let rest = retry_policy_from upstream retries in
    if any (destination_matches upstream) retry.destinations then some retry.retry_policy else rest

unfoldable pub get_retry_policy : MeshCatalog → String → MeshService → Run (Option RetryPolicySpec)
unfolding retry_policy_from destination_matches
get_retry_policy mc downstream upstream =
    if not mc.settings.enable_retry_policy then returns none else do
      src ← to_k8s_service_account downstream
      returns (retry_policy_from upstream (list_retry_policies mc.policy_controller src))
