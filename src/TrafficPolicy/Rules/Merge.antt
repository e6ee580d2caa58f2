-- ===== src/TrafficPolicy/Rules/Merge.antt =====
-- Merging rules: who may use which route before and after `MergeRules`.
use osm_edge.SetLibrary.{SetLibrary}
use osm_edge.TrafficPolicy.Types.{RouteWeightedClusters, Rule}
use osm_edge.TrafficPolicy.Equality.{route_equal, route_equal_cong, route_equal_sym}
use osm_edge.TrafficPolicy.Rules.{add_rule, merge_rules}
use osm_edge.Base.{
  String, Bool, true, not, ◌&&◌, ◌||◌, List, [], ◌∷◌, ◌≡◌, refl, arith, nat_comparable,
  string_comparable, option_comparable, list_comparable, pair_comparable, any,
}

module _ (S : SetLibrary) where
  -- Some rule for the route lists the principal.
  abbrev pub allows : List (Rule S) → RouteWeightedClusters S → String → Bool
  allows rules route principal =
      any
        (λ rule.
          route_equal S route rule.route && S.strings.contains rule.allowed_principals principal)
        rules

  abbrev has_route : RouteWeightedClusters S → List (Rule S) → Bool
  has_route route rules = any (λ rule. route_equal S route rule.route) rules

  -- No route has two rules.
  abbrev pub distinct_routes : List (Rule S) → Bool
  distinct_routes [] = true
  distinct_routes (rule ∷ rules) = not (has_route rule.route rules) && distinct_routes rules

  module _ (route : RouteWeightedClusters S) where
    allows-add_rule :
        (rules : List (Rule S)) (latest : Rule S) (principal : String)
        → allows (add_rule S rules latest) route principal ≡ (
            allows rules route principal
            || (route_equal S route latest.route
                && S.strings.contains latest.allowed_principals principal))
    unfolding add_rule
    allows-add_rule [] latest p = ground arith
    allows-add_rule (o ∷ rules) latest p = ground (
      arith,
      allows-add_rule rules latest p,
      S.strings.contains-union o.allowed_principals latest.allowed_principals p,
      route_equal_cong S route latest.route o.route,
    )

    has_route-add_rule :
        (rules : List (Rule S)) (latest : Rule S)
        → has_route route (add_rule S rules latest)
          ≡ (has_route route rules || route_equal S route latest.route)
    unfolding add_rule
    has_route-add_rule [] latest = ground arith
    has_route-add_rule (o ∷ rules) latest =
        ground
          (arith, has_route-add_rule rules latest, route_equal_cong S route latest.route o.route)

  distinct_routes-add_rule :
      (rules : List (Rule S)) (latest : Rule S)
      → distinct_routes rules ≡ true
      → distinct_routes (add_rule S rules latest) ≡ true
  unfolding add_rule
  distinct_routes-add_rule [] latest h = refl
  distinct_routes-add_rule (o ∷ rules) latest h = ground (
    arith,
    distinct_routes-add_rule rules latest,
    has_route-add_rule o.route rules latest,
    route_equal_sym S o.route latest.route,
  )

  -- Merging rules neither loses nor adds a permission: a principal may use a route afterwards
  -- exactly when one of the two lists of rules let it.
  pub allows-merge_rules :
      (original latest : List (Rule S)) (route : RouteWeightedClusters S) (principal : String)
      → allows (merge_rules S original latest) route principal
        ≡ (allows original route principal || allows latest route principal)
  unfolding merge_rules
  allows-merge_rules original [] route p = ground arith
  allows-merge_rules original (l ∷ latest) route p = ground (
    arith,
    allows-merge_rules (add_rule S original l) latest route p,
    allows-add_rule route original l p,
  )

  -- Merging keeps one rule for each route: if no route has two rules in the first list, none has
  -- two in the result.
  pub distinct_routes-merge_rules :
      (original latest : List (Rule S))
      → distinct_routes original ≡ true
      → distinct_routes (merge_rules S original latest) ≡ true
  unfolding merge_rules
  distinct_routes-merge_rules original [] h = h
  distinct_routes-merge_rules original (l ∷ latest) h =
      distinct_routes-merge_rules (add_rule S original l) latest
        (distinct_routes-add_rule original l h)
