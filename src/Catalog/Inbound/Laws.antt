-- ===== src/Catalog/Inbound/Laws.antt =====
-- What the inbound policy promises.
use osm_edge.Base.Sets.{contains-of_slice, Tracks}
use osm_edge.Identity.{account_as_principal}
use osm_edge.Service.{MeshService, WeightedCluster, service_comparable}
use osm_edge.Policy.Resources.{UpstreamTrafficSetting}
use osm_edge.Smi.{list_traffic_splits, with_traffic_split_backend_service}
use osm_edge.Smi.Resources.{TrafficTarget, IdentityBindingSubject}
use osm_edge.SetLibrary.{SetLibrary}
use osm_edge.TrafficPolicy.Types.{HttpRouteMatch, RouteWeightedClusters, Rule}
use osm_edge.TrafficPolicy.Equality.{route_equal}
use osm_edge.TrafficPolicy.Rules.{new_route_weighted_cluster, merge_rules}
use osm_edge.TrafficPolicy.Rules.Merge.{
  allows, distinct_routes, allows-merge_rules, distinct_routes-merge_rules,
}
use osm_edge.Catalog.{MeshCatalog}
use osm_edge.Catalog.Routes.{routes_from_rules}
use osm_edge.Catalog.Targets.{traffic_target_identity_to_svc_account}
use osm_edge.Catalog.Inbound.{
  local_cluster, apex_mesh_service, allowed_downstream_principals,
  get_routing_rules_from_traffic_target, rules_from_targets,
  build_inbound_http_policy_from_traffic_target,
}
use osm_edge.Base.{
  String, Bool, true, ◌&&◌, ◌||◌, Option, List, [], ◌∷◌, map, ◌≡◌, refl, ap, ◌∙◌, arith, ◌==◌,
  nat_comparable, string_comparable, option_comparable, list_comparable, pair_comparable, or_assoc,
  any, any-map, elem, split,
}

module _ (S : SetLibrary) (mc : MeshCatalog) where
  module _ (cluster : WeightedCluster) (setting : Option UpstreamTrafficSetting) where
    -- The target gives the route, and gives it to the principal of one of its sources.
    abbrev pub grants : RouteWeightedClusters S → String → TrafficTarget → Bool
    grants route principal t =
        any (λ m. route_equal S route (new_route_weighted_cluster S m (cluster ∷ []) setting))
          (routes_from_rules mc t.rules t.namespace)
        && any
            (λ source.
              principal
              == account_as_principal (traffic_target_identity_to_svc_account source)
                  mc.trust_domain)
            t.sources

    elem-map_principals :
        (principal : String) (sources : List IdentityBindingSubject)
        → elem principal (
            map
              (λ source.
                account_as_principal
                  (traffic_target_identity_to_svc_account source)
                  mc.trust_domain)
              sources)
          ≡ any
              (λ source.
                principal
                == account_as_principal
                    (traffic_target_identity_to_svc_account source)
                    mc.trust_domain)
              sources
    elem-map_principals principal [] = refl
    elem-map_principals principal (s ∷ sources) =
        ap
          (λ b.
            (principal
              == account_as_principal (traffic_target_identity_to_svc_account s) mc.trust_domain)
            || b)
          (elem-map_principals principal sources)

    any-and_right :
        {A : Type 0} (p : A → Bool) (b : Bool) (xs : List A)
        → any (λ x. p x && b) xs ≡ (any p xs && b)
    any-and_right p b [] = refl
    any-and_right p b (x ∷ xs) = ground (arith, any-and_right p b xs)

    allows-get_routing_rules :
        (t : TrafficTarget) (route : RouteWeightedClusters S) (principal : String)
        → allows S (get_routing_rules_from_traffic_target S mc t cluster setting) route principal
          ≡ grants route principal t
    unfolding get_routing_rules_from_traffic_target allowed_downstream_principals
    allows-get_routing_rules t route principal =
        let gives = λ (m : HttpRouteMatch).
          route_equal S route (new_route_weighted_cluster S m (cluster ∷ []) setting) in
        let matches = routes_from_rules mc t.rules t.namespace in
        let principals = allowed_downstream_principals S mc t in
        any-map
          (λ (rule : Rule S).
            route_equal S route rule.route && S.strings.contains rule.allowed_principals principal)
          (λ (m : HttpRouteMatch). record {
            route = new_route_weighted_cluster S m (cluster ∷ []) setting;
            allowed_principals = principals;
          })
          matches
        ∙ (any-and_right gives (S.strings.contains principals principal) matches
            ∙ ap (λ b. any gives matches && b)
                (contains-of_slice S.strings _ principal ∙ elem-map_principals principal t.sources))

    allows-rules_from_targets :
        (rules : List (Rule S)) (ts : List TrafficTarget) (route : RouteWeightedClusters S)
        (principal : String)
        → allows S (rules_from_targets S mc cluster setting rules ts) route principal
          ≡ (allows S rules route principal || any (grants route principal) ts)
    unfolding rules_from_targets
    allows-rules_from_targets rules [] route principal = ground arith
    allows-rules_from_targets rules (t ∷ ts) route principal =
        let added = get_routing_rules_from_traffic_target S mc t cluster setting in
        allows-rules_from_targets (merge_rules S rules added) ts route principal
        ∙ (ap (λ b. b || any (grants route principal) ts)
              (allows-merge_rules S rules added route principal
                ∙ ap (λ b. allows S rules route principal || b)
                    (allows-get_routing_rules t route principal))
            ∙ or_assoc (allows S rules route principal) (grants route principal t)
                (any (grants route principal) ts))

    distinct_routes-rules_from_targets :
        (rules : List (Rule S)) (ts : List TrafficTarget)
        → distinct_routes S rules ≡ true
        → distinct_routes S (rules_from_targets S mc cluster setting rules ts) ≡ true
    unfolding rules_from_targets
    distinct_routes-rules_from_targets rules [] h = h
    distinct_routes-rules_from_targets rules (t ∷ ts) h =
        let added = get_routing_rules_from_traffic_target S mc t cluster setting in
        distinct_routes-rules_from_targets (merge_rules S rules added) ts
          (distinct_routes-merge_rules S rules added h)

  -- The HTTP policy of a service lets a principal use a route exactly when some traffic target gives
  -- the route and has the principal's account among its sources, and no route has two rules.
  pub build_inbound_http_policy_from_traffic_target-grants :
      (svc : MeshService) (ts : List TrafficTarget) (setting : Option UpstreamTrafficSetting)
      → let rules = (build_inbound_http_policy_from_traffic_target S mc svc ts setting).rules in
        (distinct_routes S rules ≡ true)
        × ((route : RouteWeightedClusters S) (principal : String)
            → allows S rules route principal
              ≡ any (grants (local_cluster svc) setting route principal) ts)
  unfolding build_inbound_http_policy_from_traffic_target
  build_inbound_http_policy_from_traffic_target-grants svc ts setting = (
    distinct_routes-rules_from_targets (local_cluster svc) setting [] ts refl,
    λ route principal. allows-rules_from_targets (local_cluster svc) setting [] ts route principal,
  )

  -- The service is the given one, or the apex service of a split over it.
  abbrev pub is_or_heads : MeshService → MeshService → Bool
  is_or_heads s svc =
      (svc == s)
      || any (λ split. apex_mesh_service mc svc split == s)
          (list_traffic_splits mc.mesh_spec (with_traffic_split_backend_service svc))

  -- The set and the list of the services seen so far.
  abbrev Follows : S.services.Carrier × List MeshService → Type 0
  Follows acc = Tracks S.services acc.0 acc.1
