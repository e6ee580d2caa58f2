-- ===== src/TrafficPolicy/Equality.antt =====
-- `reflect.DeepEqual` on route matches and on routes. Two sets are deeply equal when they have the
-- same elements.
use osm_edge.Policy.Resources.{
  RetryPolicySpec, HttpPerRouteRateLimitSpec, HttpLocalRateLimitSpec, HttpHeaderValue,
}
use osm_edge.Base.Sets.{equal_cong, equal_refl}
use osm_edge.SetLibrary.{SetLibrary}
use osm_edge.Service.{cluster_comparable}
use osm_edge.TrafficPolicy.Types.{
  PathMatchType, path_match_regex, path_match_exact, path_match_prefix, HttpRouteMatch,
  RouteWeightedClusters,
}
use osm_edge.Base.{
  Bool, true, false, ◌&&◌, ◌≡◌, ◌∙◌, ◌↔◌, arith, Comparable, ◌==◌, ==_iff, ==_refl, nat_comparable,
  string_comparable, option_comparable, list_comparable, pair_comparable, and_true, and_cong,
  same_cong,
}

abbrev type_same : PathMatchType → PathMatchType → Bool
type_same path_match_regex path_match_regex = true
type_same path_match_exact path_match_exact = true
type_same path_match_prefix path_match_prefix = true
type_same _ _ = false

pub type_same_iff : (a b : PathMatchType) → (type_same a b ≡ true) ↔ (a ≡ b)
type_same_iff a b = ground arith

instance abbrev pub path_match_type_comparable : Comparable PathMatchType
path_match_type_comparable = record { same = type_same; same_iff = type_same_iff }

abbrev match_same : HttpRouteMatch → HttpRouteMatch → Bool
match_same a b =
    (a.path == b.path)
    && (a.path_match_type == b.path_match_type)
    && (a.methods == b.methods)
    && (a.headers == b.headers)

pub match_same_iff : (a b : HttpRouteMatch) → (match_same a b ≡ true) ↔ (a ≡ b)
match_same_iff a b = ground (
  arith,
  ==_iff a.path b.path,
  type_same_iff a.path_match_type b.path_match_type,
  ==_iff a.methods b.methods,
  ==_iff a.headers b.headers,
)

instance abbrev pub match_comparable : Comparable HttpRouteMatch
match_comparable = record { same = match_same; same_iff = match_same_iff }

abbrev retry_same : RetryPolicySpec → RetryPolicySpec → Bool
retry_same a b =
    (a.retry_on == b.retry_on)
    && (a.per_try_timeout == b.per_try_timeout)
    && (a.num_retries == b.num_retries)
    && (a.retry_backoff_base_interval == b.retry_backoff_base_interval)

pub retry_same_iff : (a b : RetryPolicySpec) → (retry_same a b ≡ true) ↔ (a ≡ b)
retry_same_iff a b = ground (
  arith,
  ==_iff a.retry_on b.retry_on,
  ==_iff a.per_try_timeout b.per_try_timeout,
  ==_iff a.num_retries b.num_retries,
  ==_iff a.retry_backoff_base_interval b.retry_backoff_base_interval,
)

instance abbrev pub retry_comparable : Comparable RetryPolicySpec
retry_comparable = record { same = retry_same; same_iff = retry_same_iff }

abbrev header_same : HttpHeaderValue → HttpHeaderValue → Bool
header_same a b = (a.name == b.name) && (a.value == b.value)

pub header_same_iff : (a b : HttpHeaderValue) → (header_same a b ≡ true) ↔ (a ≡ b)
header_same_iff a b = ground (arith, ==_iff a.name b.name, ==_iff a.value b.value)

instance abbrev pub header_comparable : Comparable HttpHeaderValue
header_comparable = record { same = header_same; same_iff = header_same_iff }

abbrev local_same : HttpLocalRateLimitSpec → HttpLocalRateLimitSpec → Bool
local_same a b =
    (a.requests == b.requests)
    && (a.unit == b.unit)
    && (a.burst == b.burst)
    && (a.response_status_code == b.response_status_code)
    && (a.response_headers_to_add == b.response_headers_to_add)

pub local_same_iff : (a b : HttpLocalRateLimitSpec) → (local_same a b ≡ true) ↔ (a ≡ b)
local_same_iff a b =
    ground (arith, ==_iff a.unit b.unit, ==_iff a.response_headers_to_add b.response_headers_to_add)

instance abbrev pub local_comparable : Comparable HttpLocalRateLimitSpec
local_comparable = record { same = local_same; same_iff = local_same_iff }

abbrev per_route_same : HttpPerRouteRateLimitSpec → HttpPerRouteRateLimitSpec → Bool
per_route_same a b = a.local == b.local

pub per_route_same_iff : (a b : HttpPerRouteRateLimitSpec) → (per_route_same a b ≡ true) ↔ (a ≡ b)
per_route_same_iff a b = ground (arith, ==_iff a.local b.local)

instance abbrev pub per_route_comparable : Comparable HttpPerRouteRateLimitSpec
per_route_comparable = record { same = per_route_same; same_iff = per_route_same_iff }

module _ (S : SetLibrary) where
  -- Two routes are deeply equal.
  unfoldable pub route_equal : RouteWeightedClusters S → RouteWeightedClusters S → Bool
  route_equal a b =
      (a.http_route_match == b.http_route_match)
      && S.clusters.equal a.weighted_clusters b.weighted_clusters
      && (a.retry_policy == b.retry_policy)
      && (a.rate_limit == b.rate_limit)

  -- Routes that are deeply equal are deeply equal to the same routes.
  pub route_equal_cong :
      (r a b : RouteWeightedClusters S) → route_equal a b ≡ true → route_equal r a ≡ route_equal r b
  unfolding route_equal
  route_equal_cong r a b h =
      let (h', same_limit) = and_true _ _ h in
      let (h'', same_retry) = and_true _ _ h' in
      let (same_match, same_clusters) = and_true _ _ h'' in
      and_cong
        (and_cong
          (and_cong (same_cong r.http_route_match _ _ same_match)
            (equal_cong S.clusters _ _ r.weighted_clusters same_clusters))
          (same_cong r.retry_policy _ _ same_retry))
        (same_cong r.rate_limit _ _ same_limit)

  pub route_equal_refl : (a : RouteWeightedClusters S) → route_equal a a ≡ true
  unfolding route_equal
  route_equal_refl a =
      and_cong
        (and_cong
          (and_cong (==_refl a.http_route_match)
            (equal_refl S.clusters a.weighted_clusters a.weighted_clusters))
          (==_refl a.retry_policy))
        (==_refl a.rate_limit)

  pub route_equal_sym :
      (a b : RouteWeightedClusters S) → route_equal a b ≡ true → route_equal b a ≡ true
  route_equal_sym a b h = route_equal_cong b a b h ∙ route_equal_refl b
