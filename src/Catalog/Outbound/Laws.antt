-- ===== src/Catalog/Outbound/Laws.antt =====
-- What the HTTP policy of one outbound service promises.
use osm_edge.Identity.{K8sServiceAccount}
use osm_edge.Service.{MeshService, WeightedCluster, fqdn}
use osm_edge.Policy.Resources.{RetryPolicySpec}
use osm_edge.SetLibrary.{SetLibrary}
use osm_edge.TrafficPolicy.Types.{
  HttpRouteMatch, HttpRouteMatchWithWeightedClusters, OutboundTrafficPolicy,
}
use osm_edge.TrafficPolicy.Equality.{match_comparable}
use osm_edge.TrafficPolicy.Rules.{
  regex_match_all, wildcard_route_match, new_outbound_traffic_policy, add_route,
}
use osm_edge.TrafficPolicy.Rules.Routes.{
  add_route-name, route_of, matches_of, add_route-routes, add_route-nodup, add_route-eq-none_iff,
}
use osm_edge.K8s.Hostname.{get_hostnames_for_service}
use osm_edge.Catalog.{MeshCatalog}
use osm_edge.Catalog.Clusters.{get_wild_card_route_upstream_clusters}
use osm_edge.Catalog.Outbound.{
  add_matches, add_route_matches, has_wild_card_route, outbound_policy_for,
}
use osm_edge.Base.{
  Bool, true, false, Option, none, some, List, [], ◌∷◌, ◌≡◌, refl, sym, ap, ◌∙◌, inl, inr, arith,
  ◌==◌, nat_comparable, string_comparable, option_comparable, list_comparable, pair_comparable,
  Bool-cases, Option-cases, is_some, or_false, any, elem, nodup,
}

module _ (S : SetLibrary) where
  -- The name stays, and so does that no match has two routes.
  abbrev Keeps : OutboundTrafficPolicy S → OutboundTrafficPolicy S → Type 0
  Keeps start p =
      (p.name ≡ start.name)
      × (nodup (matches_of S start.routes) ≡ true → nodup (matches_of S p.routes) ≡ true)

  Keeps-trans : (a b c : OutboundTrafficPolicy S) → Keeps a b → Keeps b c → Keeps a c
  Keeps-trans a b c (p, f) (q, g) = (q ∙ p, λ n. g (f n))

  abbrev or_kept :
      OutboundTrafficPolicy S → Option (OutboundTrafficPolicy S) → OutboundTrafficPolicy S
  or_kept policy none = policy
  or_kept policy (some p) = p

  module _ (retry : Option RetryPolicySpec) where
    module _ (clusters : List WeightedCluster) where
      add_route-Keeps :
          (policy : OutboundTrafficPolicy S) (m other : HttpRouteMatch)
          (o : Option (OutboundTrafficPolicy S))
          → add_route S policy m retry clusters ≡ o
          → Keeps policy (or_kept policy o)
            × ((other == m) ≡ false
                → route_of S other (or_kept policy o).routes ≡ route_of S other policy.routes)
      add_route-Keeps policy m other none e = ((refl, λ n. n), λ d. refl)
      add_route-Keeps policy m other (some p) e = (
        (
          add_route-name S policy p m retry clusters e,
          λ n. add_route-nodup S policy p m retry clusters n e,
        ),
        λ d. (add_route-routes S policy p m retry clusters e).1 other d,
      )

      -- The loop over the matches of one route match.
      add_matches-Keeps :
          (ms : List HttpRouteMatch) (policy : OutboundTrafficPolicy S) (other : HttpRouteMatch)
          → Keeps policy (add_matches S retry clusters policy ms)
            × (elem other ms ≡ false
                → route_of S other (add_matches S retry clusters policy ms).routes
                  ≡ route_of S other policy.routes)
      unfolding add_matches
      add_matches-Keeps [] policy other = ((refl, λ n. n), λ d. refl)
      add_matches-Keeps (m ∷ ms) policy other =
          let next = or_kept policy (add_route S policy m retry clusters) in
          let step = add_route-Keeps policy m other (add_route S policy m retry clusters) refl in
          let rest = add_matches-Keeps ms next other in
          (
            Keeps-trans policy next (add_matches S retry clusters next ms) step.0 rest.0,
            λ d.
                let parts = or_false (other == m) (elem other ms) d in
                rest.1 parts.1 ∙ step.1 parts.0,
          )

    abbrev some_match : HttpRouteMatch → List HttpRouteMatchWithWeightedClusters → Bool
    some_match other ms = any (λ m. elem other m.route_matches) ms

    add_route_matches-Keeps :
        (ms : List HttpRouteMatchWithWeightedClusters) (policy : OutboundTrafficPolicy S)
        (other : HttpRouteMatch)
        → Keeps policy (add_route_matches S retry policy ms)
          × (some_match other ms ≡ false
              → route_of S other (add_route_matches S retry policy ms).routes
                ≡ route_of S other policy.routes)
    unfolding add_route_matches
    add_route_matches-Keeps [] policy other = ((refl, λ n. n), λ d. refl)
    add_route_matches-Keeps (m ∷ ms) policy other =
        let next = add_matches S retry m.upstream_clusters policy m.route_matches in
        let step = add_matches-Keeps m.upstream_clusters m.route_matches policy other in
        let rest = add_route_matches-Keeps ms next other in
        (
          Keeps-trans policy next (add_route_matches S retry next ms) step.0 rest.0,
          λ d.
              let parts = or_false (elem other m.route_matches) (some_match other ms) d in
              rest.1 parts.1 ∙ step.1 parts.0,
        )

-- A match with the wildcard's path is there, where the wildcard match is.
elem-wildcard :
    (rs : List HttpRouteMatch)
    → any (λ route. route.path == regex_match_all) rs ≡ false
    → elem wildcard_route_match rs ≡ false
elem-wildcard [] h = refl
elem-wildcard (r ∷ rs) h =
    ground (arith, elem-wildcard rs, match_comparable.same_iff wildcard_route_match r)

some_match-wildcard :
    (ms : List HttpRouteMatchWithWeightedClusters)
    → has_wild_card_route ms ≡ false
    → any (λ m. elem wildcard_route_match m.route_matches) ms ≡ false
some_match-wildcard [] h = refl
some_match-wildcard (m ∷ ms) h =
    ground (arith, elem-wildcard m.route_matches, some_match-wildcard ms)

none-some {ℓ} : {A : Type ℓ} {a : A} → none ≡ some a → false ≡ true
none-some e = ap is_some e

-- Every HTTP service gets its policy: the wildcard route can always be added. The policy is named by
-- the service's fully qualified name, and no match has two routes.
pub outbound_policy_for-succeeds :
    (S : SetLibrary) (mc : MeshCatalog) (sa : K8sServiceAccount) (svc : MeshService)
    (retry : Option RetryPolicySpec) (ms : List HttpRouteMatchWithWeightedClusters)
    (wild_card : Bool)
    → (p : OutboundTrafficPolicy S) × (outbound_policy_for S mc sa svc retry ms wild_card ≡ some p)
      × (p.name ≡ fqdn svc)
      × (nodup (matches_of S p.routes) ≡ true)
unfolding outbound_policy_for new_outbound_traffic_policy
outbound_policy_for-succeeds S mc sa svc retry ms wild_card =
    let hostnames =
      get_hostnames_for_service mc.dns_trust_domain svc (sa.namespace == svc.namespace) in
    let start = new_outbound_traffic_policy S (fqdn svc) hostnames in
    let policy = add_route_matches S retry start ms in
    let clusters = get_wild_card_route_upstream_clusters wild_card ms in
    let keeps = add_route_matches-Keeps S retry ms start wildcard_route_match in
    elim (Bool-cases (has_wild_card_route ms)) [
      | inl e ↦ (policy, rw e, keeps.0.0, keeps.0.1 refl)
      | inr e ↦ elim (Option-cases (add_route S policy wildcard_route_match retry clusters)) [
        | inl failed ↦ absurd (
            let clash =
              (add_route-eq-none_iff S policy wildcard_route_match retry clusters).0 failed in
            let same = none-some (sym (keeps.1 (some_match-wildcard ms e)) ∙ clash.1) in
            ground arith)
        | inr (p, added) ↦ (
          p,
          rw (e, added),
          add_route-name S policy p wildcard_route_match retry clusters added ∙ keeps.0.0,
          add_route-nodup S policy p wildcard_route_match retry clusters (keeps.0.1 refl) added,
        )
      ]
    ]
