-- ===== src/Catalog/AccessControl/Laws.antt =====
-- What the policy of pkg/catalog/access_control.go comes to.
use osm_edge.Service.{MeshService}
use osm_edge.Policy.Resources.{BackendSpec, SourceSpec, AccessControl, UpstreamTrafficSetting}
use osm_edge.Policy.Client.{backend_matches, get_access_control_policy}
use osm_edge.Policy.Client.Laws.{
  get_upstream_traffic_setting-returns, get_access_control_policy-selects,
}
use osm_edge.SetLibrary.{SetLibrary}
use osm_edge.TrafficPolicy.Types.{AccessControlTrafficPolicy, Rule}
use osm_edge.Catalog.{MeshCatalog}
use osm_edge.Catalog.Egress.{Externals}
use osm_edge.Catalog.Sources.{fails, nothing_built}
use osm_edge.Catalog.Sources.Laws.{is_lacking}
use osm_edge.Catalog.Sources.Backends.{MatchesFor, LetIn, build_backends-lacks}
use osm_edge.Catalog.Ingress.{status_update, no_endpoints, not_listed}
use osm_edge.Catalog.AccessControl.{
  access_control_match, has_http_rule, http_route_policy, access_control_answer,
  access_control_answer_for, get_access_control_traffic_policy,
}
use osm_edge.Base.{
  returns, ◌>>=◌, true, Option, some, List, [], ◌∷◌, ◌≡◌, ap, ◌∙◌, nat_comparable, bool_comparable,
  string_comparable, option_comparable, list_comparable, pair_comparable, length, any, keep,
}

module _ (S : SetLibrary) (x : Externals) (mc : MeshCatalog) (svc : MeshService)
    (p : AccessControl) where
  abbrev pub selected : List BackendSpec
  selected = keep (backend_matches svc) p.backends

  -- The matches and the one HTTP policy, which is nil without rules, and whose rules let in exactly
  -- whom the backends let in.
  pub record IsAccessControlFor (setting : Option UpstreamTrafficSetting)
      (policy : AccessControlTrafficPolicy S) : Type 0 where
    pub matched :
        MatchesFor S x mc svc p.sources
          (access_control_match svc setting)
          (has_http_rule x)
          selected
          policy.traffic_matches
    pub rules : List (Rule S)
    pub one_policy : policy.http_route_policies ≡ http_route_policy S x mc svc p rules ∷ []
    pub let_in :
        LetIn S x mc svc p.sources
          (access_control_match svc setting)
          (has_http_rule x)
          selected
          rules
    pub one_each : length rules ≡ length (keep (has_http_rule x) selected)

  -- With the feature on, and an access control for the service some source service of which has no
  -- endpoints, the call fails, and the status is set to the error, for such a source.
  pub get_access_control_traffic_policy-fails :
      mc.settings.enable_access_control_policy ≡ true
      → get_access_control_policy mc.policy_controller svc ≡ some p
      → any (is_lacking S x mc) p.sources ≡ true
      → (s : SourceSpec) × (is_lacking S x mc s ≡ true)
        × (get_access_control_traffic_policy S x mc svc
            ≡ returns (record {
              updates = status_update p.namespace p.name "error" (no_endpoints s) ∷ [];
              outcome = fails (not_listed "AccessControl" p.namespace p.name s);
            }))
  unfolding get_access_control_traffic_policy
  get_access_control_traffic_policy-fails on found lacking =
      let (setting, read) = get_upstream_traffic_setting-returns mc.policy_controller svc in
      let (s, built, k) =
        build_backends-lacks S x mc svc p.sources (access_control_match svc setting)
          (has_http_rule x) p.backends (nothing_built S) lacking
          (get_access_control_policy-selects svc mc.policy_controller p found) in
      (
        s,
        k,
        rw (on, found)
            (ap (λ r. r >>= (λ s. returns (access_control_answer_for S x mc svc s p))) read
              ∙ ap (λ t. returns (access_control_answer S x mc svc p t)) built),
      )
