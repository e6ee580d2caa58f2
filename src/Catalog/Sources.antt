-- ===== src/Catalog/Sources.antt =====
-- The loops that ingress.go and access_control.go of pkg/catalog share: over the backends of a policy
-- that select a service, and over the sources of the policy.
pub mod Laws
pub mod Backends
use osm_edge.Base.Sets.{of_slice, append_if_new}
use osm_edge.Identity.{wildcard_service_identity, wildcard_principal}
use osm_edge.Service.{MeshService, cluster_comparable}
use osm_edge.Policy.Resources.{
  BackendSpec, SourceSpec, TlsSpec, kind_service, kind_authenticated_principal, kind_ip_range,
}
use osm_edge.Policy.Client.{backend_matches}
use osm_edge.SetLibrary.{SetLibrary}
use osm_edge.TrafficPolicy.Types.{RouteWeightedClusters, Rule}
use osm_edge.TrafficPolicy.Rules.{wildcard_route_match}
use osm_edge.Catalog.{MeshCatalog, Endpoint, list_endpoints_for_service}
use osm_edge.Catalog.Egress.{Externals}
use osm_edge.Catalog.Inbound.{local_cluster}
use osm_edge.Base.{
  String, Bool, false, Option, none, some, List, [], ◌∷◌, ◌++◌, map, ◌==◌, nat_comparable,
  bool_comparable, string_comparable, option_comparable, list_comparable, pair_comparable,
  if◌then◌else◌, sprintf,
}

-- `UpdateStatus`, whose error is only logged: the resource, its status and the reason.
pub record StatusUpdate : Type 0 where
  pub namespace : String
  pub name : String
  pub current_status : String
  pub reason : String

-- The result of a policy: an error, nil, or the policy.
pub data Outcome (A : Type 0) : Type 0 where
  fails : String → Outcome A
  absent : Outcome A
  answers : A → Outcome A

pub record Answer (A : Type 0) : Type 0 where
  pub updates : List StatusUpdate
  pub outcome : Outcome A

abbrev pub nothing : {A : Type 0} → Answer A
nothing = record { updates = []; outcome = absent }

-- `skips_validation` of the TLS settings of a backend.
abbrev pub skips : Option TlsSpec → Bool
skips none = false
skips (some tls) = tls.skip_client_cert_validation

abbrev pub source_service : SourceSpec → MeshService
source_service s = record {
  namespace = s.namespace;
  name = s.name;
  port = 0;
  target_port = 0;
  protocol = "";
  service_import_uid = "";
}

abbrev pub cidr : Endpoint → String
cidr ep = sprintf (ep.ip ∷ "/32" ∷ [])

-- `sourceIPRanges`, `sourceIPSet` and `sourcePrincipals`.
pub record Found (S : SetLibrary) : Type 0 where
  pub ranges : List String
  pub ip_set : S.strings.Carrier
  pub principals : S.strings.Carrier

-- What a loop has come to: the source whose service has no endpoints, or its state.
pub data Progress (A : Type 0) : Type 0 where
  lacks : SourceSpec → Progress A
  has_come : A → Progress A

abbrev pub and_then : {A B : Type 0} → Progress A → (A → Progress B) → Progress B
and_then (lacks s) next = lacks s
and_then (has_come a) next = next a

-- `trafficMatches`, the routes of `trafficRoutingRules`, and the principals. All rules hold the one set
-- of principals, which later rounds extend, so the rules are made at the end.
pub record Built (S : SetLibrary) (M : Type 0) : Type 0 where
  pub principals : S.strings.Carrier
  pub matches : List M
  pub routes : List (RouteWeightedClusters S)

abbrev pub wildcard_route : (S : SetLibrary) → MeshService → RouteWeightedClusters S
wildcard_route S svc = record {
  http_route_match = wildcard_route_match;
  weighted_clusters = of_slice S.clusters (local_cluster svc ∷ []);
  retry_policy = none;
  rate_limit = none;
}

abbrev pub all_rules : {M : Type 0} (S : SetLibrary) → Built S M → List (Rule S)
all_rules S built =
    map (λ route. record { route = route; allowed_principals = built.principals }) built.routes

abbrev pub nothing_built : {M : Type 0} (S : SetLibrary) → Built S M
nothing_built S = record { principals = S.strings.new_set; matches = []; routes = [] }

module _ (S : SetLibrary) (x : Externals) (mc : MeshCatalog) where
  unfoldable pub add_cidrs : List Endpoint → Found S → Found S
  add_cidrs [] f = f
  add_cidrs (ep ∷ eps) f = add_cidrs eps (record f {
    ranges = append_if_new S.strings f.ip_set f.ranges (cidr ep);
    ip_set = (S.strings.add f.ip_set (cidr ep)).0;
  })

  abbrev pub from_endpoints : SourceSpec → List Endpoint → Found S → Progress (Found S)
  from_endpoints s [] f = lacks s
  from_endpoints s (ep ∷ eps) f = has_come (add_cidrs (ep ∷ eps) f)

  abbrev pub source_principal : Option TlsSpec → SourceSpec → String
  source_principal tls s = if skips tls then wildcard_service_identity else s.name

  -- The switch over the kind of a source.
  unfoldable pub collect_source : Option TlsSpec → SourceSpec → Found S → Progress (Found S)
  unfolding add_cidrs
  collect_source tls s f =
      if s.kind == kind_service
      then from_endpoints s (list_endpoints_for_service mc (source_service s)) f
      else if s.kind == kind_ip_range
      then has_come
          (if x.parses_cidr s.name then record f { ranges = f.ranges ++ s.name ∷ [] } else f)
      else if s.kind == kind_authenticated_principal
      then has_come
          (record f { principals = (S.strings.add f.principals (source_principal tls s)).0 })
      else has_come f

  unfoldable pub collect_sources : Option TlsSpec → List SourceSpec → Found S → Progress (Found S)
  collect_sources tls [] f = has_come f
  collect_sources tls (s ∷ ss) f = and_then (collect_source tls s f) (collect_sources tls ss)

  module _ {M : Type 0} (svc : MeshService) (sources : List SourceSpec)
      (make_match : BackendSpec → List String → M) (has_rule : BackendSpec → Bool) where
    abbrev pub extend : BackendSpec → Built S M → Found S → Built S M
    extend b built found = record {
      principals =
          if x.equal_fold b.port.protocol "http"
          then (S.strings.add found.principals wildcard_principal).0
          else found.principals;
      matches = built.matches ++ make_match b found.ranges ∷ [];
      routes = if has_rule b then built.routes ++ wildcard_route S svc ∷ [] else built.routes;
    }

    unfoldable pub build_backend : BackendSpec → Built S M → Progress (Built S M)
    unfolding collect_sources
    build_backend b built =
        if backend_matches svc b
        then and_then
            (collect_sources b.tls sources
              (record { ranges = []; ip_set = S.strings.new_set; principals = built.principals }))
            (λ found. has_come (extend b built found))
        else has_come built

    unfoldable pub build_backends : List BackendSpec → Built S M → Progress (Built S M)
    build_backends [] built = has_come built
    build_backends (b ∷ bs) built = and_then (build_backend b built) (build_backends bs)
