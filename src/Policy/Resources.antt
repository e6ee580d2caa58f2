-- ===== src/Policy/Resources.antt =====
-- The custom resources of pkg/apis/policy/v1alpha1, with the fields that the control plane reads.
-- Of the metadata of Kubernetes that is the name and the namespace. Integers that the API server
-- admits as not negative are numbers.
use osm_edge.Base.{
  ℕ, String, Bool, Option, List, nat_comparable, string_comparable, option_comparable,
  list_comparable, pair_comparable,
}

pub record PortSpec : Type 0 where
  pub number : ℕ
  pub protocol : String

pub record TlsSpec : Type 0 where
  pub skip_client_cert_validation : Bool
  pub sni_hosts : List String

-- `BackendSpec`, and `AccessControlBackendSpec`, which has the same fields.
pub record BackendSpec : Type 0 where
  pub name : String
  pub port : PortSpec
  pub tls : Option TlsSpec

-- `IngressSourceSpec`, and `AccessControlSourceSpec`, which has the same fields.
pub record SourceSpec : Type 0 where
  pub kind : String
  pub name : String
  pub namespace : String

abbrev pub kind_service : String
kind_service = "Service"

abbrev pub kind_authenticated_principal : String
kind_authenticated_principal = "AuthenticatedPrincipal"

abbrev pub kind_ip_range : String
kind_ip_range = "IPRange"

pub record IngressBackend : Type 0 where
  pub namespace : String
  pub name : String
  pub backends : List BackendSpec
  pub sources : List SourceSpec

pub record AccessControl : Type 0 where
  pub namespace : String
  pub name : String
  pub backends : List BackendSpec
  pub sources : List SourceSpec

-- `corev1.TypedLocalObjectReference`; `api_group` is a pointer.
pub record ObjectReference : Type 0 where
  pub api_group : Option String
  pub kind : String
  pub name : String

-- `EgressSourceMTLSSpec`, whose certificate the modelled code only passes on.
pub record EgressSourceMtlsSpec : Type 0 where
  pub issuer : String

pub record EgressSourceSpec : Type 0 where
  pub kind : String
  pub name : String
  pub namespace : String
  pub mtls : Option EgressSourceMtlsSpec

pub record Egress : Type 0 where
  pub namespace : String
  pub name : String
  pub sources : List EgressSourceSpec
  pub hosts : List String
  pub ip_addresses : List String
  pub ports : List PortSpec
  pub matches : List ObjectReference

pub record GatewayBindingSubject : Type 0 where
  pub service : String
  pub namespace : String
  pub weight : Option ℕ

pub record EgressBindingSubject : Type 0 where
  pub name : String
  pub namespace : String

pub record EgressPolicyGatewayRule : Type 0 where
  pub egress_policies : List EgressBindingSubject
  pub egress_gateways : List GatewayBindingSubject

pub record EgressGateway : Type 0 where
  pub namespace : String
  pub name : String
  -- A slice that may be nil.
  pub global_egress_gateways : Option (List GatewayBindingSubject)
  pub rules : List EgressPolicyGatewayRule

pub record RetrySrcDstSpec : Type 0 where
  pub kind : String
  pub name : String
  pub namespace : String

-- The durations are in nanoseconds.
pub record RetryPolicySpec : Type 0 where
  pub retry_on : String
  pub per_try_timeout : Option ℕ
  pub num_retries : Option ℕ
  pub retry_backoff_base_interval : Option ℕ

pub record Retry : Type 0 where
  pub namespace : String
  pub name : String
  pub source : RetrySrcDstSpec
  pub destinations : List RetrySrcDstSpec
  pub retry_policy : RetryPolicySpec

pub record TcpLocalRateLimitSpec : Type 0 where
  pub connections : ℕ
  pub unit : String
  pub burst : ℕ

pub record HttpHeaderValue : Type 0 where
  pub name : String
  pub value : String

pub record HttpLocalRateLimitSpec : Type 0 where
  pub requests : ℕ
  pub unit : String
  pub burst : ℕ
  pub response_status_code : ℕ
  pub response_headers_to_add : List HttpHeaderValue

pub record LocalRateLimitSpec : Type 0 where
  pub tcp : Option TcpLocalRateLimitSpec
  pub http : Option HttpLocalRateLimitSpec

pub record RateLimitSpec : Type 0 where
  pub local : Option LocalRateLimitSpec

pub record HttpPerRouteRateLimitSpec : Type 0 where
  pub local : Option HttpLocalRateLimitSpec

pub record HttpRouteSpec : Type 0 where
  pub path : String
  pub rate_limit : Option HttpPerRouteRateLimitSpec

-- The connection settings are not read by the modelled code.
pub record UpstreamTrafficSetting : Type 0 where
  pub namespace : String
  pub name : String
  pub host : String
  pub rate_limit : Option RateLimitSpec
  pub http_routes : List HttpRouteSpec
