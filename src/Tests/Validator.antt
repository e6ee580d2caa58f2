-- ===== src/Tests/Validator.antt =====
-- The validators at concrete objects.
use osm_edge.SetLibrary.{list_sets}
use osm_edge.Policy.Resources.{
  BackendSpec, SourceSpec, IngressBackend, AccessControl, ObjectReference, Egress, EgressGateway,
  UpstreamTrafficSetting, kind_ip_range,
}
use osm_edge.Policy.Client.{Client}
use osm_edge.Policy.Conflicts.{set_key}
use osm_edge.Catalog.Egress.{policy_group_version, upstream_traffic_setting_kind}
use osm_edge.Validator.Backends.{decoded, allowed, ingress_backend_validator}
use osm_edge.Validator.Sources.{is_valid_source, is_valid_ingress_backend}
use osm_edge.Validator.Laws.{ingress_backend_validator-allowed_iff}
use osm_edge.Validator.References.{
  egress_validator, upstream_traffic_setting_validator, egress_gateway_validator, is_global,
}
use osm_edge.Validator.References.Laws.{
  is_valid_reference, setting_count, gateways_after, egress_validator-allowed_iff,
  upstream_traffic_setting_validator-panics, egress_gateway_validator-one_global,
}
use osm_edge.Tests.Samples.{policies, externals, setting_of_web}
use osm_edge.Base.{
  returns, panics, ℕ, ◌≤◌, String, true, ◌&&◌, none, some, List, [], ◌∷◌, map, ◌≡◌, refl, ◌↔◌,
  arith, nat_comparable, bool_comparable, string_comparable, option_comparable, list_comparable,
  pair_comparable, leb, length, all, keep, nodup, split,
}

abbrev backend_at : ℕ → BackendSpec
backend_at port = record {
  name = "web";
  port = record { number = port; protocol = "http" };
  tls = none;
}

abbrev two_backends : List BackendSpec
two_backends = backend_at 80 ∷ backend_at 81 ∷ []

abbrev range_source : SourceSpec
range_source = record { kind = kind_ip_range; name = "10.0.0.0/8"; namespace = "" }

abbrev new_ingress : IngressBackend
new_ingress = record {
  namespace = "shop";
  name = "entry";
  backends = two_backends;
  sources = range_source ∷ [];
}

abbrev new_control : AccessControl
new_control = record {
  namespace = "shop";
  name = "entry";
  backends = two_backends;
  sources = range_source ∷ [];
}

-- A resource for the same services exists.
abbrev existing : Client
existing = record policies {
  ingress_backends = record new_ingress { name = "old" } ∷ [];
  access_controls = record new_control { name = "old" } ∷ [];
}

ingress_backend_validator_example :
    (ingress_backend_validator list_sets existing externals (decoded new_ingress) ≡ allowed) ↔ (
      (nodup (map set_key two_backends)
        && all (is_valid_ingress_backend externals new_ingress) two_backends
        && all (is_valid_source externals) (range_source ∷ []))
      ≡ true)
ingress_backend_validator_example =
    ingress_backend_validator-allowed_iff list_sets existing externals new_ingress (refl, tt)

abbrev setting_reference : ObjectReference
setting_reference = record {
  api_group = some policy_group_version;
  kind = upstream_traffic_setting_kind;
  name = "web";
}

abbrev two_settings : Egress
two_settings = record {
  namespace = "shop";
  name = "out";
  sources = [];
  hosts = [];
  ip_addresses = [];
  ports = [];
  matches = setting_reference ∷ setting_reference ∷ [];
}

egress_validator_example : (egress_validator externals (decoded two_settings) ≡ returns allowed) ↔ (
    (all (is_valid_reference externals) two_settings.matches
      && leb (setting_count externals two_settings.matches) 1)
    ≡ true)
egress_validator_example = egress_validator-allowed_iff externals two_settings

abbrev setting_of_db : UpstreamTrafficSetting
setting_of_db = record setting_of_web { name = "db"; host = "db.shop.svc.cluster.local" }

setting_validator_example :
    upstream_traffic_setting_validator (λ code. true) policies (decoded setting_of_db) ≡ panics
unfolding split
setting_validator_example =
    upstream_traffic_setting_validator-panics (λ code. true) policies setting_of_db setting_of_web
      [] refl refl refl refl

abbrev gateway : String → EgressGateway
gateway name = record { namespace = "shop"; name = name; global_egress_gateways = none; rules = [] }

abbrev global_gateway : EgressGateway
global_gateway = record (gateway "new") {
  global_egress_gateways =
      some (record { service = "gate"; namespace = "shop"; weight = none } ∷ []);
}

abbrev with_gateway : Client
with_gateway = record policies { egress_gateways = gateway "old" ∷ [] }

gateway_admitted :
    egress_gateway_validator externals with_gateway (decoded global_gateway) ≡ allowed
unfolding egress_gateway_validator
gateway_admitted = refl

no_global : length (keep is_global with_gateway.egress_gateways) ≤ 1
no_global = omega arith

gateway_validator_example :
    length (keep is_global (gateways_after global_gateway (gateway "old" ∷ []))) ≤ 1
gateway_validator_example =
    egress_gateway_validator-one_global externals global_gateway with_gateway (refl, tt)
      gateway_admitted no_global
