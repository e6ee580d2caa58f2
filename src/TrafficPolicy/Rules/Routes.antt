-- ===== src/TrafficPolicy/Rules/Routes.antt =====
-- The routes of an outbound policy as a map from route matches, and `AddRoute` as its insertion.
use osm_edge.Base.Sets.{of_slice, equal_refl}
use osm_edge.SetLibrary.{SetLibrary}
use osm_edge.Service.{WeightedCluster, cluster_comparable}
use osm_edge.Policy.Resources.{RetryPolicySpec}
use osm_edge.TrafficPolicy.Types.{HttpRouteMatch, RouteWeightedClusters, OutboundTrafficPolicy}
use osm_edge.TrafficPolicy.Equality.{match_comparable}
use osm_edge.TrafficPolicy.Rules.{
  Found, not_found, updated, conflicting, found_after, find_route, add_found, add_route,
}
use osm_edge.Base.{
  Bool, true, false, Option, none, some, List, [], ◌∷◌, map, ◌≡◌, refl, sym, ap, subst, ◌↔◌, inl,
  inr, arith, ◌==◌, ==_refl, nat_comparable, string_comparable, option_comparable, list_comparable,
  pair_comparable, Bool-cases, some_inj, same_differ, map-append, find?, nodup, nodup-concat,
  find?-concat, find?-concat_other, elem_of_find?,
}

module _ (S : SetLibrary) where
  -- The route of a match, if there is one.
  abbrev pub route_of :
      HttpRouteMatch → List (RouteWeightedClusters S) → Option (RouteWeightedClusters S)
  route_of match rs = find? (λ r. r.http_route_match == match) rs

  abbrev pub matches_of : List (RouteWeightedClusters S) → List HttpRouteMatch
  matches_of rs = map (λ r. r.http_route_match) rs

  module _ (match : HttpRouteMatch) (retry : Option RetryPolicySpec) (wc : S.clusters.Carrier) where
    -- The match leads to the clusters, with the retry policy.
    pub record IsRouted (rs : List (RouteWeightedClusters S)) : Type 0 where
      pub route : RouteWeightedClusters S
      pub found : route_of match rs ≡ some route
      pub retries : route.retry_policy ≡ retry
      pub clusters : S.clusters.equal route.weighted_clusters wc ≡ true

    -- The match leads to the clusters, or to others.
    abbrev pub HasClusters : List (RouteWeightedClusters S) → Bool → Type 0
    HasClusters rs b =
        (r : RouteWeightedClusters S) × (route_of match rs ≡ some r)
        × (S.clusters.equal r.weighted_clusters wc ≡ b)

    -- What a search says, by its outcome.
    abbrev Says : List (RouteWeightedClusters S) → Found S → Type 0
    Says rs not_found = route_of match rs ≡ none
    Says rs (updated rs') =
        IsRouted rs'
        × (matches_of rs' ≡ matches_of rs)
        × ((other : HttpRouteMatch)
            → (other == match) ≡ false
            → route_of other rs' ≡ route_of other rs)
        × HasClusters rs true
    Says rs conflicting = HasClusters rs false

    Says-found_after :
        (r : RouteWeightedClusters S) (rs : List (RouteWeightedClusters S)) (f : Found S)
        → (r.http_route_match == match) ≡ false
        → Says rs f
        → Says (r ∷ rs) (found_after S r f)
    Says-found_after r rs not_found h s = rw h s
    Says-found_after r rs (updated rs') h (routed, same, others, (x, found, equal)) = (
      record {
        route = routed.route;
        found = rw h routed.found;
        retries = routed.retries;
        clusters = routed.clusters;
      },
      ap (λ ms. r.http_route_match ∷ ms) same,
      λ other k. rw (others other k),
      (x, rw h found, equal),
    )
    Says-found_after r rs conflicting h (x, found, differ) = (x, rw h found, differ)

    find_route-Says :
        (rs : List (RouteWeightedClusters S)) → Says rs (find_route S match retry wc rs)
    unfolding find_route
    find_route-Says [] = refl
    find_route-Says (r ∷ rs) = elim (Bool-cases (r.http_route_match == match)) [
      | inr other ↦ rw other (Says-found_after r rs _ other (find_route-Says rs))
      | inl same ↦ elim (Bool-cases (S.clusters.equal r.weighted_clusters wc)) [
        | inr differ ↦ rw (same, differ) (r, rw same, differ)
        | inl equal ↦
            rw (same, equal)
              (
                record {
                  route = record r { retry_policy = retry };
                  found = rw same;
                  retries = refl;
                  clusters = equal;
                },
                refl,
                λ other k. rw (same_differ r.http_route_match other match same k),
                (r, rw same, equal),
              )
      ]
    ]

  module _ (out : OutboundTrafficPolicy S) (match : HttpRouteMatch) (retry : Option RetryPolicySpec)
      (wc : S.clusters.Carrier) where
    abbrev IsRoutedAfter : OutboundTrafficPolicy S → Type 0
    IsRoutedAfter o =
        IsRouted match retry wc o.routes
        × ((other : HttpRouteMatch)
            → (other == match) ≡ false
            → route_of other o.routes ≡ route_of other out.routes)

    routes_added :
        (o : OutboundTrafficPolicy S) (f : Found S)
        → Says match retry wc out.routes f
        → add_found S out match retry wc f ≡ some o
        → IsRoutedAfter o
    routes_added o not_found s h = subst IsRoutedAfter (some_inj h) (
      record {
        route = record {
          http_route_match = match;
          weighted_clusters = wc;
          retry_policy = retry;
          rate_limit = none;
        };
        found = find?-concat _ _ out.routes s (==_refl match);
        retries = refl;
        clusters = equal_refl S.clusters wc wc;
      },
      λ other k.
          find?-concat_other _ _ out.routes (same_differ match other match (==_refl match) k),
    )
    routes_added o (updated rs) (routed, same, others, had) h =
        subst IsRoutedAfter (some_inj h) (routed, others)
    routes_added o conflicting s h = cc

    nodup_added :
        (o : OutboundTrafficPolicy S) (f : Found S)
        → Says match retry wc out.routes f
        → nodup (matches_of out.routes) ≡ true
        → add_found S out match retry wc f ≡ some o
        → nodup (matches_of o.routes) ≡ true
    nodup_added o not_found s n h =
        subst (λ (p : OutboundTrafficPolicy S). nodup (matches_of p.routes) ≡ true) (some_inj h)
          (rw map-append (
            nodup-concat (matches_of out.routes) match n (
              elem_of_find? (λ (r : RouteWeightedClusters S). r.http_route_match) match out.routes
                s)))
    nodup_added o (updated rs) (routed, same, others, had) n h =
        subst (λ (p : OutboundTrafficPolicy S). nodup (matches_of p.routes) ≡ true) (some_inj h)
          (rw same n)
    nodup_added o conflicting s n h = cc

    fails_iff :
        (f : Found S)
        → Says match retry wc out.routes f
        → (add_found S out match retry wc f ≡ none) ↔ HasClusters match retry wc out.routes false
    fails_iff not_found s = (λ h. cc, λ (r, found, differ). cc (found, s))
    fails_iff (updated rs) (routed, same, others, (x, had, equal)) =
        (λ h. cc, λ (r, found, differ). cc (found, had, equal, differ))
    fails_iff conflicting s = (λ _. s, λ _. refl)

  -- After a match is added, it leads to its clusters with its retry policy, and every other match
  -- leads where it led before.
  pub add_route-routes :
      (out out' : OutboundTrafficPolicy S) (match : HttpRouteMatch) (retry : Option RetryPolicySpec)
      (clusters : List WeightedCluster)
      → add_route S out match retry clusters ≡ some out'
      → IsRouted match retry (of_slice S.clusters clusters) out'.routes
        × ((other : HttpRouteMatch)
            → (other == match) ≡ false
            → route_of other out'.routes ≡ route_of other out.routes)
  unfolding add_route
  add_route-routes out out' match retry clusters h =
      routes_added out match retry _ out' _ (find_route-Says match retry _ out.routes) h

  -- Adding a match keeps one route for each match.
  pub add_route-nodup :
      (out out' : OutboundTrafficPolicy S) (match : HttpRouteMatch) (retry : Option RetryPolicySpec)
      (clusters : List WeightedCluster)
      → nodup (matches_of out.routes) ≡ true
      → add_route S out match retry clusters ≡ some out'
      → nodup (matches_of out'.routes) ≡ true
  unfolding add_route
  add_route-nodup out out' match retry clusters n h =
      nodup_added out match retry _ out' _ (find_route-Says match retry _ out.routes) n h

  -- Adding a match fails exactly when the match already leads to other clusters.
  pub add_route-eq-none_iff :
      (out : OutboundTrafficPolicy S) (match : HttpRouteMatch) (retry : Option RetryPolicySpec)
      (clusters : List WeightedCluster)
      → (add_route S out match retry clusters ≡ none) ↔ (
          (r : RouteWeightedClusters S) × (route_of match out.routes ≡ some r)
          × (S.clusters.equal r.weighted_clusters (of_slice S.clusters clusters) ≡ false))
  unfolding add_route
  add_route-eq-none_iff out match retry clusters =
      fails_iff out match retry _ _ (find_route-Says match retry _ out.routes)

  add_found-name :
      (out : OutboundTrafficPolicy S) (match : HttpRouteMatch) (retry : Option RetryPolicySpec)
      (wc : S.clusters.Carrier) (f : Found S) (out' : OutboundTrafficPolicy S)
      → add_found S out match retry wc f ≡ some out'
      → out'.name ≡ out.name
  add_found-name out match retry wc not_found out' e =
      sym (ap (λ (p : OutboundTrafficPolicy S). p.name) (some_inj e))
  add_found-name out match retry wc (updated rs) out' e =
      sym (ap (λ (p : OutboundTrafficPolicy S). p.name) (some_inj e))
  add_found-name out match retry wc conflicting out' e = ground arith

  pub add_route-name :
      (out out' : OutboundTrafficPolicy S) (match : HttpRouteMatch) (retry : Option RetryPolicySpec)
      (clusters : List WeightedCluster)
      → add_route S out match retry clusters ≡ some out'
      → out'.name ≡ out.name
  unfolding add_route
  add_route-name out out' match retry clusters h =
      add_found-name out match retry _ (find_route S match retry _ out.routes) out' h
