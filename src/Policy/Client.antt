-- ===== src/Policy/Client.antt =====
-- pkg/policy/client.go: queries over the cached policy resources.
pub mod Laws
use osm_edge.Identity.{K8sServiceAccount}
use osm_edge.Service.{MeshService, fqdn}
use osm_edge.K8s.Hostname.{NamespacedName}
use osm_edge.Policy.Resources.{
  BackendSpec, IngressBackend, AccessControl, Egress, EgressSourceSpec, EgressGateway, Retry,
  UpstreamTrafficSetting,
}
use osm_edge.Base.{
  ◌/◌, String, Bool, not, ◌&&◌, Option, none, some, List, [], ◌∷◌, ◌++◌, ◌==◌, nat_comparable,
  string_comparable, option_comparable, list_comparable, pair_comparable, if◌then◌else◌, is_some,
  any, Run, returns, panics, sprintf,
}

-- What the informers hold, in the order in which they list it, the lookup of a traffic setting by
-- its key `<namespace>/<name>`, and the controller's test for monitored namespaces.
pub record Client : Type 0 where
  pub egress_gateways : List EgressGateway
  pub egresses : List Egress
  pub ingress_backends : List IngressBackend
  pub retries : List Retry
  pub access_controls : List AccessControl
  pub upstream_traffic_settings : List UpstreamTrafficSetting
  pub upstream_traffic_setting_by_key : String → Option UpstreamTrafficSetting
  pub is_monitored_namespace : String → Bool

abbrev pub kind_svc_account : String
kind_svc_account = "ServiceAccount"

unfoldable pub list_egress_gateways : Client → List EgressGateway
list_egress_gateways c = c.egress_gateways

abbrev source_matches : K8sServiceAccount → EgressSourceSpec → Bool
source_matches source spec =
    (spec.kind == kind_svc_account)
    && (spec.name == source.name)
    && (spec.namespace == source.namespace)

-- One copy of the policy for each of its sources that matches.
copies_for : K8sServiceAccount → Egress → List EgressSourceSpec → List Egress
copies_for source policy [] = []
copies_for source policy (spec ∷ specs) =
    let rest = copies_for source policy specs in
    if source_matches source spec then policy ∷ rest else rest

egress_policies_from : Client → K8sServiceAccount → List Egress → List Egress
egress_policies_from c source [] = []
egress_policies_from c source (policy ∷ policies) =
    let rest = egress_policies_from c source policies in
    if c.is_monitored_namespace policy.namespace
    then copies_for source policy policy.sources ++ rest
    else rest

unfoldable pub list_egress_policies_for_source_identity : Client → K8sServiceAccount → List Egress
unfolding egress_policies_from copies_for
list_egress_policies_for_source_identity c source = egress_policies_from c source c.egresses

-- `backend.Name == svc.Name && backend.Port.Number == int(svc.TargetPort)`
abbrev pub backend_matches : MeshService → BackendSpec → Bool
backend_matches svc backend = (backend.name == svc.name) && (backend.port.number == svc.target_port)

ingress_backend_from : MeshService → List IngressBackend → Option IngressBackend
ingress_backend_from svc [] = none
ingress_backend_from svc (ib ∷ rest) =
    if (ib.namespace == svc.namespace) && any (backend_matches svc) ib.backends
    then some ib
    else ingress_backend_from svc rest

unfoldable pub get_ingress_backend_policy : Client → MeshService → Option IngressBackend
unfolding ingress_backend_from
get_ingress_backend_policy c svc = ingress_backend_from svc c.ingress_backends

retries_from : K8sServiceAccount → List Retry → List Retry
retries_from source [] = []
retries_from source (retry ∷ retries) =
    let rest = retries_from source retries in
    if (retry.source.kind == kind_svc_account)
      && (retry.source.name == source.name)
      && (retry.source.namespace == source.namespace)
    then retry ∷ rest
    else rest

unfoldable pub list_retry_policies : Client → K8sServiceAccount → List Retry
unfolding retries_from
list_retry_policies c source = retries_from source c.retries

access_control_from : MeshService → List AccessControl → Option AccessControl
access_control_from svc [] = none
access_control_from svc (acl ∷ rest) =
    if (acl.namespace == svc.namespace) && any (backend_matches svc) acl.backends
    then some acl
    else access_control_from svc rest

unfoldable pub get_access_control_policy : Client → MeshService → Option AccessControl
unfolding access_control_from
get_access_control_policy c svc = access_control_from svc c.access_controls

-- `UpstreamTrafficSettingGetOpt`; the first two fields are pointers.
pub record UpstreamTrafficSettingGetOpt : Type 0 where
  pub mesh_service : Option MeshService
  pub namespaced_name : Option NamespacedName
  pub host : String

abbrev pub by_service : MeshService → UpstreamTrafficSettingGetOpt
by_service ms = record { mesh_service = some ms; namespaced_name = none; host = "" }

abbrev pub by_host : String → UpstreamTrafficSettingGetOpt
by_host host = record { mesh_service = none; namespaced_name = none; host = host }

-- The loop "Filter by MeshService". A missing mesh service is dereferenced, which panics.
upstream_from :
    UpstreamTrafficSettingGetOpt → List UpstreamTrafficSetting → Run (Option UpstreamTrafficSetting)
upstream_from options [] = returns none
upstream_from options (r ∷ rest) =
    let later = upstream_from options rest in
    if r.host == options.host then returns (some r) else elim options.mesh_service [
      | none ↦ panics
      | some ms ↦
          if (r.namespace == ms.namespace) && (r.host == fqdn ms) then returns (some r) else later
    ]

abbrev no_option : UpstreamTrafficSettingGetOpt → Bool
no_option options =
    not (is_some options.mesh_service)
    && not (is_some options.namespaced_name)
    && (options.host == "")

unfoldable pub get_upstream_traffic_setting :
    Client → UpstreamTrafficSettingGetOpt → Run (Option UpstreamTrafficSetting)
unfolding upstream_from fqdn
get_upstream_traffic_setting c options =
    if no_option options then returns none else elim options.namespaced_name [
      | some name ↦
          returns
            (c.upstream_traffic_setting_by_key (sprintf (name.namespace ∷ "/" ∷ name.name ∷ [])))
      | none ↦ upstream_from options c.upstream_traffic_settings
    ]
