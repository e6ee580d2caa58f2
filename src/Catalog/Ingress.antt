-- ===== src/Catalog/Ingress.antt =====
-- pkg/catalog/ingress.go: the policy for traffic that enters the mesh.
pub mod Laws
use osm_edge.Service.{MeshService, ingress_traffic_match_name, service_string}
use osm_edge.Policy.Resources.{
  BackendSpec, SourceSpec, TlsSpec, IngressBackend, RateLimitSpec, UpstreamTrafficSetting,
}
use osm_edge.Policy.Client.{by_service, get_upstream_traffic_setting, get_ingress_backend_policy}
use osm_edge.SetLibrary.{SetLibrary}
use osm_edge.TrafficPolicy.Types.{IngressTrafficMatch, IngressTrafficPolicy}
use osm_edge.Catalog.{MeshCatalog}
use osm_edge.Catalog.Egress.{Externals}
use osm_edge.Catalog.Sources.{
  StatusUpdate, Outcome, fails, absent, answers, Answer, nothing, skips, Progress, lacks, has_come,
  Built, all_rules, nothing_built, build_backends,
}
use osm_edge.Base.{
  Run, returns, ◌>>=◌, ◌*◌, ◌/◌, ◌%◌, ◌^◌, String, true, not, Option, none, some, List, [], ◌∷◌,
  ◌==◌, nat_comparable, bool_comparable, string_comparable, option_comparable, list_comparable,
  pair_comparable, if◌then◌else◌, length, sprintf,
}

abbrev pub setting_rate_limit : Option UpstreamTrafficSetting → Option RateLimitSpec
setting_rate_limit none = none
setting_rate_limit (some u) = u.rate_limit

abbrev sni_hosts : Option TlsSpec → List String
sni_hosts none = []
sni_hosts (some tls) = tls.sni_hosts

unfoldable pub ingress_match :
    MeshService → Option UpstreamTrafficSetting → BackendSpec → List String → IngressTrafficMatch
unfolding ingress_traffic_match_name
ingress_match svc setting b ranges = record {
  name = ingress_traffic_match_name svc.name svc.namespace (b.port.number % 2 ^ 16) b.port.protocol;
  port = b.port.number % 2 ^ 32;
  protocol = b.port.protocol;
  source_ip_ranges = ranges;
  tls = b.tls;
  server_names = sni_hosts b.tls;
  skip_client_cert_validation = skips b.tls;
  rate_limit = setting_rate_limit setting;
}

abbrev pub no_endpoints : SourceSpec → String
no_endpoints s = sprintf ("endpoints not found for service " ∷ s.namespace ∷ "/" ∷ s.name ∷ [])

abbrev pub not_listed : String → String → String → SourceSpec → String
not_listed kind namespace name s = sprintf (
    "Could not list endpoints of the source service " ∷ s.namespace ∷ "/" ∷ s.name
    ∷ " specified in the " ∷ kind ∷ " " ∷ namespace ∷ "/" ∷ name ∷ [])

abbrev pub status_update : String → String → String → String → StatusUpdate
status_update namespace name status reason = record {
  namespace = namespace;
  name = name;
  current_status = status;
  reason = reason;
}

abbrev pub committed : String → String → StatusUpdate
committed namespace name =
    status_update namespace name "committed" "successfully committed by the system"

-- What follows the loop over the backends.
module _ (S : SetLibrary) (x : Externals) (mc : MeshCatalog) (svc : MeshService) where
  abbrev pub ingress_policy_from :
      IngressBackend → Built S IngressTrafficMatch → IngressTrafficPolicy S
  ingress_policy_from p built = record {
    traffic_matches = built.matches;
    http_route_policies =
        record {
          name = sprintf (service_string svc ∷ "_from_" ∷ p.name ∷ []);
          hostnames = "*" ∷ [];
          rules = all_rules S built;
          rate_limit = none;
        }
        ∷ [];
  }

  abbrev pub ingress_answer :
      IngressBackend → Progress (Built S IngressTrafficMatch) → Answer (IngressTrafficPolicy S)
  ingress_answer p (lacks s) = record {
    updates = status_update p.namespace p.name "error" (no_endpoints s) ∷ [];
    outcome = fails (not_listed "IngressBackend" p.namespace p.name s);
  }
  ingress_answer p (has_come built) = if length built.matches == 0 then nothing else record {
    updates = committed p.namespace p.name ∷ [];
    outcome = answers (ingress_policy_from p built);
  }

  abbrev pub ingress_answer_for :
      Option UpstreamTrafficSetting → IngressBackend → Answer (IngressTrafficPolicy S)
  ingress_answer_for setting p = ingress_answer p (
      build_backends S x mc svc p.sources (ingress_match svc setting) (λ b. true) p.backends
        (nothing_built S))

  -- The traffic setting of the service, which each round of the loop reads again, is read once.
  unfoldable pub get_ingress_traffic_policy : Run (Answer (IngressTrafficPolicy S))
  unfolding service_string build_backends ingress_match
  get_ingress_traffic_policy =
      if not mc.settings.enable_ingress_backend_policy
      then returns nothing
      else elim (get_ingress_backend_policy mc.policy_controller svc) [
        | none ↦ returns nothing
        | some p ↦
            get_upstream_traffic_setting mc.policy_controller (by_service svc)
            >>= (λ setting. returns (ingress_answer_for setting p))
      ]
