-- ===== src/Validator/Sources.antt =====
-- The errors of single sources and backends in pkg/validator/validators.go, against what is valid.
use osm_edge.Policy.Resources.{
  BackendSpec, SourceSpec, IngressBackend, AccessControl, kind_service,
  kind_authenticated_principal, kind_ip_range,
}
use osm_edge.Catalog.Egress.{Externals}
use osm_edge.Validator.Backends.{
  or_next, has_authenticated_source, skips_validation, source_error, first_source_error,
  ingress_error, access_control_error,
}
use osm_edge.Base.{
  String, Bool, true, false, not, ◌&&◌, ◌||◌, Option, none, some, List, [], ◌∷◌, ◌≡◌, refl, ◌∙◌,
  inl, inr, arith, ◌==◌, nat_comparable, bool_comparable, string_comparable, option_comparable,
  list_comparable, pair_comparable, Bool-cases, is_some, same_differ, all,
}

-- A source that the validators let pass.
abbrev pub is_valid_source : Externals → SourceSpec → Bool
is_valid_source x s =
    ((s.kind == kind_service) && not (s.name == "") && not (s.namespace == ""))
    || ((s.kind == kind_authenticated_principal) && not (s.name == ""))
    || ((s.kind == kind_ip_range) && x.parses_cidr s.name)

abbrev pub is_valid_ingress_backend : Externals → IngressBackend → BackendSpec → Bool
is_valid_ingress_backend x ib b =
    let protocol = x.to_lower b.port.protocol in
    ((protocol == "http") || (protocol == "https"))
    || ((protocol == "grpc")
        && not (skips_validation b.tls && not (has_authenticated_source ib.sources)))

abbrev pub is_valid_access_control_backend : AccessControl → BackendSpec → Bool
is_valid_access_control_backend acl b =
    not (skips_validation b.tls && not (has_authenticated_source acl.sources))

module _ (x : Externals) (s : SourceSpec) where
  -- The three cases of the switch, where the kinds before do not match.
  service_error-valid :
      (s.kind == kind_service) ≡ true → is_some (source_error x s) ≡ not (is_valid_source x s)
  unfolding source_error
  service_error-valid t =
      rw
        (
          t,
          same_differ s.kind kind_authenticated_principal kind_service t refl,
          same_differ s.kind kind_ip_range kind_service t refl,
        )
        (elim (Bool-cases (s.name == "")) [
          | inl n ↦ rw n
          | inr n ↦ elim (Bool-cases (s.namespace == "")) [ inl m ↦ rw (n, m) | inr m ↦ rw (n, m) ]
        ])

  principal_error-valid :
      (s.kind == kind_service) ≡ false
      → (s.kind == kind_authenticated_principal) ≡ true
      → is_some (source_error x s) ≡ not (is_valid_source x s)
  unfolding source_error
  principal_error-valid f t =
      rw (f, t, same_differ s.kind kind_ip_range kind_authenticated_principal t refl)
        (elim (Bool-cases (s.name == "")) [ inl n ↦ rw n | inr n ↦ rw n ])

  range_error-valid :
      (s.kind == kind_service) ≡ false
      → (s.kind == kind_authenticated_principal) ≡ false
      → is_some (source_error x s) ≡ not (is_valid_source x s)
  unfolding source_error
  range_error-valid f g =
      rw (f, g)
        (elim (Bool-cases (s.kind == kind_ip_range)) [
          | inl t ↦ elim (Bool-cases (x.parses_cidr s.name)) [
            | inl n ↦ rw (t, n)
            | inr n ↦ rw (t, n)
          ]
          | inr t ↦ rw t
        ])

  source_error-valid : is_some (source_error x s) ≡ not (is_valid_source x s)
  source_error-valid = elim (Bool-cases (s.kind == kind_service)) [
    | inl t ↦ service_error-valid t
    | inr f ↦ elim (Bool-cases (s.kind == kind_authenticated_principal)) [
      | inl t ↦ principal_error-valid f t
      | inr g ↦ range_error-valid f g
    ]
  ]

is_some-or_next : (a b : Option String) → is_some (or_next a b) ≡ (is_some a || is_some b)
is_some-or_next none b = refl
is_some-or_next (some reason) b = refl

not_and : (a b : Bool) → (not a || not b) ≡ not (a && b)
not_and a b = ground arith

pub first_source_error-valid :
    (x : Externals) (ss : List SourceSpec)
    → is_some (first_source_error x ss) ≡ not (all (is_valid_source x) ss)
unfolding first_source_error
first_source_error-valid x [] = refl
first_source_error-valid x (s ∷ ss) =
    is_some-or_next (source_error x s) (first_source_error x ss)
    ∙ (rw (source_error-valid x s, first_source_error-valid x ss)
        (not_and (is_valid_source x s) (all (is_valid_source x) ss)))

pub ingress_error-valid :
    (x : Externals) (ib : IngressBackend) (b : BackendSpec)
    → is_some (ingress_error x ib b) ≡ not (is_valid_ingress_backend x ib b)
ingress_error-valid x ib b =
    let p = x.to_lower b.port.protocol in
    elim (Bool-cases ((p == "http") || (p == "https"))) [
      | inl t ↦ rw t
      | inr f ↦ elim (Bool-cases (p == "grpc")) [
        | inl g ↦
            elim (Bool-cases
              (skips_validation b.tls && not (has_authenticated_source ib.sources))) [
                | inl t ↦ rw (f, g, t)
                | inr t ↦ rw (f, g, t)
              ]
        | inr g ↦ rw (f, g)
      ]
    ]

pub access_control_error-valid :
    (acl : AccessControl) (b : BackendSpec)
    → is_some (access_control_error acl b) ≡ not (is_valid_access_control_backend acl b)
access_control_error-valid acl b =
    elim (Bool-cases (skips_validation b.tls && not (has_authenticated_source acl.sources))) [
      | inl t ↦ rw t
      | inr t ↦ rw t
    ]
