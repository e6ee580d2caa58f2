-- ===== src/Catalog/Ingress/Laws.antt =====
-- What the ingress policy of pkg/catalog/ingress.go comes to.
use osm_edge.Service.{MeshService, service_string}
use osm_edge.Policy.Resources.{BackendSpec, SourceSpec, IngressBackend, UpstreamTrafficSetting}
use osm_edge.Policy.Client.{backend_matches, get_ingress_backend_policy}
use osm_edge.Policy.Client.Laws.{
  get_upstream_traffic_setting-returns, get_ingress_backend_policy-selects,
}
use osm_edge.SetLibrary.{SetLibrary}
use osm_edge.TrafficPolicy.Types.{IngressTrafficPolicy, Rule}
use osm_edge.Catalog.{MeshCatalog}
use osm_edge.Catalog.Egress.{Externals}
use osm_edge.Catalog.Sources.{fails, nothing_built}
use osm_edge.Catalog.Sources.Laws.{is_lacking}
use osm_edge.Catalog.Sources.Backends.{MatchesFor, LetIn, build_backends-lacks}
use osm_edge.Catalog.Ingress.{
  ingress_match, status_update, no_endpoints, not_listed, ingress_answer, ingress_answer_for,
  get_ingress_traffic_policy,
}
use osm_edge.Base.{
  returns, ◌>>=◌, Bool, true, Option, none, some, List, [], ◌∷◌, ◌≡◌, ap, ◌∙◌, nat_comparable,
  bool_comparable, string_comparable, option_comparable, list_comparable, pair_comparable, length,
  any, keep, sprintf,
}

module _ (S : SetLibrary) (x : Externals) (mc : MeshCatalog) (svc : MeshService)
    (p : IngressBackend) where
  abbrev pub has_rule : BackendSpec → Bool
  has_rule b = true

  abbrev pub selected : List BackendSpec
  selected = keep (backend_matches svc) p.backends

  -- The matches and the one HTTP policy, whose rules let in exactly whom the backends let in.
  pub record IsIngressFor (setting : Option UpstreamTrafficSetting)
      (policy : IngressTrafficPolicy S) : Type 0 where
    pub matched :
        MatchesFor S x mc svc p.sources
          (ingress_match svc setting)
          has_rule
          selected
          policy.traffic_matches
    pub rules : List (Rule S)
    pub one_policy :
        policy.http_route_policies
        ≡ record {
          name = sprintf (service_string svc ∷ "_from_" ∷ p.name ∷ []);
          hostnames = "*" ∷ [];
          rules = rules;
          rate_limit = none;
        }
          ∷ []
    pub let_in : LetIn S x mc svc p.sources (ingress_match svc setting) has_rule selected rules
    pub one_each : length rules ≡ length (keep has_rule selected)

  -- With the feature on, and an ingress backend for the service some source service of which has no
  -- endpoints, the call fails, and the status is set to the error, for such a source.
  pub get_ingress_traffic_policy-fails :
      mc.settings.enable_ingress_backend_policy ≡ true
      → get_ingress_backend_policy mc.policy_controller svc ≡ some p
      → any (is_lacking S x mc) p.sources ≡ true
      → (s : SourceSpec) × (is_lacking S x mc s ≡ true)
        × (get_ingress_traffic_policy S x mc svc
            ≡ returns (record {
              updates = status_update p.namespace p.name "error" (no_endpoints s) ∷ [];
              outcome = fails (not_listed "IngressBackend" p.namespace p.name s);
            }))
  unfolding get_ingress_traffic_policy
  get_ingress_traffic_policy-fails on found lacking =
      let (setting, read) = get_upstream_traffic_setting-returns mc.policy_controller svc in
      let (s, built, k) =
        build_backends-lacks S x mc svc p.sources (ingress_match svc setting) has_rule p.backends
          (nothing_built S) lacking
          (get_ingress_backend_policy-selects svc mc.policy_controller p found) in
      (
        s,
        k,
        rw (on, found)
            (ap (λ r. r >>= (λ s. returns (ingress_answer_for S x mc svc s p))) read
              ∙ ap (λ t. returns (ingress_answer S x mc svc p t)) built),
      )
