-- ===== src/Catalog/AccessControl.antt =====
-- pkg/catalog/access_control.go: the policy for access to a service from outside the mesh.
pub mod Laws
use osm_edge.Service.{MeshService, access_control_traffic_match_name, service_string}
use osm_edge.Policy.Resources.{BackendSpec, SourceSpec, AccessControl, UpstreamTrafficSetting}
use osm_edge.Policy.Client.{by_service, get_upstream_traffic_setting, get_access_control_policy}
use osm_edge.SetLibrary.{SetLibrary}
use osm_edge.TrafficPolicy.Types.{
  AccessControlTrafficMatch, AccessControlTrafficPolicy, InboundTrafficPolicy, Rule,
}
use osm_edge.Catalog.{MeshCatalog}
use osm_edge.Catalog.Egress.{Externals}
use osm_edge.Catalog.Sources.{
  StatusUpdate, Outcome, fails, absent, answers, Answer, nothing, Progress, lacks, has_come, Built,
  all_rules, nothing_built, build_backends,
}
use osm_edge.Catalog.Ingress.{
  setting_rate_limit, no_endpoints, not_listed, status_update, committed,
}
use osm_edge.Base.{
  Run, returns, ◌>>=◌, ◌*◌, ◌%◌, ◌^◌, String, Bool, not, ◌||◌, Option, none, some, List, [], ◌∷◌,
  ◌==◌, nat_comparable, bool_comparable, string_comparable, option_comparable, list_comparable,
  pair_comparable, if◌then◌else◌, length, sprintf,
}

unfoldable pub access_control_match :
    MeshService
    → Option UpstreamTrafficSetting
    → BackendSpec
    → List String
    → AccessControlTrafficMatch
unfolding access_control_traffic_match_name
access_control_match svc setting b ranges = record {
  name =
      access_control_traffic_match_name svc.name svc.namespace (b.port.number % 2 ^ 16)
        b.port.protocol;
  port = b.port.number % 2 ^ 32;
  protocol = b.port.protocol;
  source_ip_ranges = ranges;
  tls = b.tls;
  rate_limit = setting_rate_limit setting;
}

-- Only HTTP and gRPC backends have a rule.
abbrev pub has_http_rule : Externals → BackendSpec → Bool
has_http_rule x b = (x.to_lower b.port.protocol == "http") || (x.to_lower b.port.protocol == "grpc")

module _ (S : SetLibrary) (x : Externals) (mc : MeshCatalog) (svc : MeshService) where
  -- Without rules the policy is a nil pointer, which the list holds all the same.
  abbrev pub http_route_policy : AccessControl → List (Rule S) → Option (InboundTrafficPolicy S)
  http_route_policy p [] = none
  http_route_policy p (r ∷ rs) = some (record {
    name = sprintf (service_string svc ∷ "_from_" ∷ p.name ∷ []);
    hostnames = "*" ∷ [];
    rules = r ∷ rs;
    rate_limit = none;
  })

  abbrev pub access_control_policy_from :
      AccessControl → Built S AccessControlTrafficMatch → AccessControlTrafficPolicy S
  access_control_policy_from p built = record {
    traffic_matches = built.matches;
    http_route_policies = http_route_policy p (all_rules S built) ∷ [];
  }

  abbrev pub access_control_answer :
      AccessControl
      → Progress (Built S AccessControlTrafficMatch)
      → Answer (AccessControlTrafficPolicy S)
  access_control_answer p (lacks s) = record {
    updates = status_update p.namespace p.name "error" (no_endpoints s) ∷ [];
    outcome = fails (not_listed "AccessControl" p.namespace p.name s);
  }
  access_control_answer p (has_come built) = if length built.matches == 0 then nothing else record {
    updates = committed p.namespace p.name ∷ [];
    outcome = answers (access_control_policy_from p built);
  }

  abbrev pub access_control_answer_for :
      Option UpstreamTrafficSetting → AccessControl → Answer (AccessControlTrafficPolicy S)
  access_control_answer_for setting p = access_control_answer p (
      build_backends S x mc svc p.sources (access_control_match svc setting) (has_http_rule x)
        p.backends (nothing_built S))

  unfoldable pub get_access_control_traffic_policy : Run (Answer (AccessControlTrafficPolicy S))
  unfolding service_string build_backends access_control_match
  get_access_control_traffic_policy =
      if not mc.settings.enable_access_control_policy
      then returns nothing
      else elim (get_access_control_policy mc.policy_controller svc) [
        | none ↦ returns nothing
        | some p ↦
            get_upstream_traffic_setting mc.policy_controller (by_service svc)
            >>= (λ setting. returns (access_control_answer_for setting p))
      ]
