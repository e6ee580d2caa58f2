-- ===== src/Validator/References.antt =====
-- The validators of the other custom resources (pkg/validator/validators.go).
pub mod Laws
use osm_edge.Smi.Resources.{TrafficTarget}
use osm_edge.Policy.Resources.{
  ObjectReference, Egress, EgressGateway, GatewayBindingSubject, UpstreamTrafficSetting,
  RateLimitSpec, LocalRateLimitSpec, HttpLocalRateLimitSpec, HttpPerRouteRateLimitSpec,
  HttpRouteSpec,
}
use osm_edge.Policy.Client.{Client, by_host, get_upstream_traffic_setting, list_egress_gateways}
use osm_edge.Catalog.Egress.{Externals, policy_group_version, upstream_traffic_setting_kind}
use osm_edge.Validator.Backends.{
  Decoded, decoded, undecodable, Admission, allowed, denied, admit_unless, or_next,
}
use osm_edge.Base.{
  Run, returns, panics, ◌>>=◌, ℕ, ◌+◌, ◌/◌, String, Bool, true, false, not, ◌&&◌, Option, none,
  some, List, [], ◌∷◌, ◌==◌, nat_comparable, bool_comparable, string_comparable, option_comparable,
  list_comparable, pair_comparable, if◌then◌else◌, ltb, length, sprintf, split, decimal,
}

unfoldable pub traffic_target_validator : Decoded TrafficTarget → Admission
traffic_target_validator (undecodable reason) = denied reason
traffic_target_validator (decoded t) =
    if not (t.destination.namespace == t.namespace)
    then denied (
        sprintf (
          "The traffic target namespace (" ∷ t.namespace
          ∷ ") must match spec.Destination.Namespace (" ∷ t.destination.namespace ∷ ")" ∷ []))
    else allowed

unfoldable pub access_cert_validator : Bool → Option String → Admission
access_cert_validator enable_access_cert_policy (some reason) = denied reason
access_cert_validator enable_access_cert_policy none =
    if not enable_access_cert_policy
    then denied "OSM is prohibited to issue certificates for external services"
    else allowed

-- The loop of the validator of egress policies: the count of traffic settings, or an error. A
-- reference without an API group is dereferenced, which panics.
abbrev expected_kind : String → ObjectReference → String
expected_kind kind m =
    sprintf (
      "Expected 'matches.kind' for match '" ∷ m.name ∷ "' to be '" ∷ kind ∷ "', got: " ∷ m.kind
      ∷ [])

pub data Counted : Type 0 where
  counts : ℕ → Counted
  stops : String → Counted

module _ (x : Externals) where
  unfoldable pub count_settings : ℕ → List ObjectReference → Run Counted
  count_settings n [] = returns (counts n)
  count_settings n (m ∷ ms) =
      let same = count_settings n ms in
      let more = count_settings (n + 1) ms in
      elim m.api_group [
        | none ↦ panics
        | some group ↦
            if group == x.smi_specs_group_version
            then if m.kind == "HTTPRouteGroup"
              then same
              else returns (stops (expected_kind "HTTPRouteGroup" m))
            else if group == policy_group_version
            then if m.kind == upstream_traffic_setting_kind
              then more
              else returns (stops (expected_kind upstream_traffic_setting_kind m))
            else returns (
                stops (
                  sprintf (
                    "Expected 'matches.apiGroup' to be one of [" ∷ x.smi_specs_group_version ∷ " "
                    ∷ policy_group_version ∷ "], got: " ∷ group ∷ [])))
      ]

  abbrev pub admit_count : Counted → Admission
  admit_count (stops reason) = denied reason
  admit_count (counts n) =
      if ltb 1 n then denied "Cannot have more than 1 UpstreamTrafficSetting match" else allowed

  unfoldable pub egress_validator : Decoded Egress → Run Admission
  unfolding count_settings
  egress_validator (undecodable reason) = returns (denied reason)
  egress_validator (decoded e) = count_settings 0 e.matches >>= (λ n. returns (admit_count n))

-- `xds_type.StatusCode_name` names the status codes; the parameter says which 32-bit patterns it names.
module _ (names_status_code : ℕ → Bool) where
  abbrev invalid_status : ℕ → String
  invalid_status code = sprintf (
      "Invalid responseStatusCode "
      ∷ decimal code
      ∷ ". See https://www.envoyproxy.io/docs/envoy/latest/api-v3/type/v3/http_status.proto#enum-type-v3-statuscode for allowed values"
      ∷ [])

  abbrev pub status_error : HttpLocalRateLimitSpec → Option String
  status_error l =
      if not (names_status_code l.response_status_code)
      then some (invalid_status l.response_status_code)
      else none

  abbrev http_error : Option HttpLocalRateLimitSpec → Option String
  http_error none = none
  http_error (some l) = status_error l

  abbrev local_error : Option LocalRateLimitSpec → Option String
  local_error none = none
  local_error (some l) = http_error l.http

  abbrev pub rate_limit_error : Option RateLimitSpec → Option String
  rate_limit_error none = none
  rate_limit_error (some rl) = local_error rl.local

  abbrev route_limit_error : Option HttpPerRouteRateLimitSpec → Option String
  route_limit_error none = none
  route_limit_error (some rl) = http_error rl.local

  abbrev pub routes_error : List HttpRouteSpec → Option String
  routes_error [] = none
  routes_error (r ∷ rs) = or_next (route_limit_error r.rate_limit) (routes_error rs)

  abbrev pub settings_error : UpstreamTrafficSetting → Option UpstreamTrafficSetting → Option String
  settings_error u none = or_next (rate_limit_error u.rate_limit) (routes_error u.http_routes)
  settings_error u (some m) =
      if not (m.name == u.name)
      then some (
          sprintf (
            "UpstreamTrafficSetting " ∷ u.namespace ∷ "/" ∷ u.name ∷ " conflicts with "
            ∷ u.namespace ∷ "/" ∷ m.name ∷ " since they have the same host " ∷ m.host ∷ []))
      else or_next (rate_limit_error u.rate_limit) (routes_error u.http_routes)

  unfoldable pub upstream_traffic_setting_validator :
      Client → Decoded UpstreamTrafficSetting → Run Admission
  upstream_traffic_setting_validator c (undecodable reason) = returns (denied reason)
  upstream_traffic_setting_validator c (decoded u) =
      if ltb (length (split b'.' u.host)) 2
      then returns (
          denied (
            sprintf (
              "spec.host: Invalid value: \"" ∷ u.host ∷ "\": invalid FQDN specified as host" ∷ [])))
      else get_upstream_traffic_setting c (by_host u.host)
        >>= (λ matching. returns (admit_unless (settings_error u matching)))

-- A gateway with global gateways; a slice may be nil.
abbrev pub is_global : EgressGateway → Bool
is_global g = elim g.global_egress_gateways [ none ↦ false | some gs ↦ ltb 0 (length gs) ]

module _ (x : Externals) where
  abbrev pub same_gateway : EgressGateway → EgressGateway → Bool
  same_gateway g p = x.equal_fold g.name p.name && x.equal_fold g.namespace p.namespace

  unfoldable pub redefines : EgressGateway → List EgressGateway → Option String
  redefines g [] = none
  redefines g (p ∷ ps) =
      let rest = redefines g ps in
      if same_gateway g p
      then rest
      else if is_global p
      then some (
          sprintf (
            "Redefinition of global egress gateway policy and conflict with " ∷ p.namespace ∷ "."
            ∷ p.name ∷ []))
      else rest

  unfoldable pub egress_gateway_validator : Client → Decoded EgressGateway → Admission
  unfolding redefines list_egress_gateways
  egress_gateway_validator c (undecodable reason) = denied reason
  egress_gateway_validator c (decoded g) =
      if is_global g then admit_unless (redefines g (list_egress_gateways c)) else allowed

-- A plugin's name, namespace and script.
pub record Plugin : Type 0 where
  pub namespace : String
  pub name : String
  pub script : String

unfoldable pub plugin_validator : Bool → Decoded Plugin → Admission
plugin_validator false p = denied "OSM is prohibited to apply plugin policy"
plugin_validator true (undecodable reason) = denied reason
plugin_validator true (decoded p) =
    if p.script == ""
    then denied (sprintf ("plugin[" ∷ p.name ∷ "." ∷ p.namespace ∷ "] is missing pipy script" ∷ []))
    else allowed

-- The configuration of a plugin and the chain of a plugin are only decoded, if plugins are allowed.
unfoldable pub plugin_config_validator : Bool → Option String → Admission
plugin_config_validator false failure = denied "OSM is prohibited to apply plugin policy"
plugin_config_validator true failure = admit_unless failure

unfoldable pub plugin_chain_validator : Bool → Option String → Admission
plugin_chain_validator false failure = denied "OSM is prohibited to apply plugin policy"
plugin_chain_validator true failure = admit_unless failure
