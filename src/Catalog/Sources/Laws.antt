-- ===== src/Catalog/Sources/Laws.antt =====
-- What the loops over sources and backends of pkg/catalog collect.
use osm_edge.Base.Sets.{append_if_new}
use osm_edge.Policy.Resources.{
  SourceSpec, TlsSpec, kind_service, kind_authenticated_principal, kind_ip_range,
}
use osm_edge.SetLibrary.{SetLibrary}
use osm_edge.Catalog.{MeshCatalog, Endpoint, list_endpoints_for_service}
use osm_edge.Catalog.Egress.{Externals}
use osm_edge.Catalog.Sources.{
  source_service, cidr, Found, Progress, lacks, has_come, and_then, add_cidrs, from_endpoints,
  skips, collect_source, collect_sources,
}
use osm_edge.Base.{
  String, Bool, true, false, ◌&&◌, ◌||◌, Option, List, [], ◌∷◌, ◌++◌, ◌≡◌, refl, sym, ap, ◌∙◌, inl,
  inr, arith, ◌==◌, nat_comparable, bool_comparable, string_comparable, option_comparable,
  list_comparable, pair_comparable, if◌then◌else◌, Bool-cases, or_assoc, or_comm, same_differ, any,
  elem, elem-append,
}

abbrev pub is_empty : List Endpoint → Bool
is_empty [] = true
is_empty (ep ∷ eps) = false

module _ (S : SetLibrary) (x : Externals) (mc : MeshCatalog) where
  -- A source names a service without endpoints.
  abbrev pub is_lacking : SourceSpec → Bool
  is_lacking s =
      (s.kind == kind_service) && is_empty (list_endpoints_for_service mc (source_service s))

  -- A source gives an IP range: the address of an endpoint of its service, or its own name.
  abbrev pub gives_range : String → SourceSpec → Bool
  gives_range range s =
      ((s.kind == kind_service)
        && any (λ ep. cidr ep == range) (list_endpoints_for_service mc (source_service s)))
      || ((s.kind == kind_ip_range) && (x.parses_cidr s.name && (s.name == range)))

  -- A source gives a principal: its name, or the wildcard where client certificates are not validated.
  abbrev pub gives_principal : Option TlsSpec → String → SourceSpec → Bool
  gives_principal tls principal s =
      (s.kind == kind_authenticated_principal) && ((if skips tls then "*" else s.name) == principal)

  abbrev pub Covers : Found S → Type 0
  Covers f = (a : String) → S.strings.contains f.ip_set a ≡ true → elem a f.ranges ≡ true

  -- What is found grows by these ranges and principals.
  pub record Gains (f : Found S) (ranges principals : String → Bool) (f' : Found S) : Type 0 where
    pub gained_ranges : (r : String) → elem r f'.ranges ≡ (elem r f.ranges || ranges r)
    pub gained_principals :
        (p : String)
        → S.strings.contains f'.principals p ≡ (S.strings.contains f.principals p || principals p)
    pub covers : Covers f'

  -- A round ends at a source that lacks endpoints, or it gains.
  abbrev pub Comes :
      Bool → Found S → (String → Bool) → (String → Bool) → Progress (Found S) → Type 0
  Comes true f ranges principals progress =
      (s : SourceSpec) × (progress ≡ lacks s) × (is_lacking s ≡ true)
  Comes false f ranges principals progress =
      (f' : Found S) × (progress ≡ has_come f') × Gains f ranges principals f'

  elem-append_if_covered :
      (f : Found S) (c a : String)
      → Covers f
      → elem a (append_if_new S.strings f.ip_set f.ranges c) ≡ (elem a f.ranges || (c == a))
  elem-append_if_covered f c a h = ground (
    arith,
    S.strings.newly_added f.ip_set c,
    h c,
    elem-append a f.ranges (c ∷ []),
    string_comparable.same_iff a c,
    string_comparable.same_iff c a,
  )

  pub add_cidrs-Gains :
      (eps : List Endpoint) (f : Found S)
      → Covers f
      → Gains f (λ r. any (λ ep. cidr ep == r) eps) (λ p. false) (add_cidrs S x mc eps f)
  unfolding add_cidrs
  add_cidrs-Gains [] f h = record {
    gained_ranges = λ r. ground arith;
    gained_principals = λ p. ground arith;
    covers = h;
  }
  add_cidrs-Gains (ep ∷ eps) f h =
      let rest =
        add_cidrs-Gains eps
          (record f {
            ranges = append_if_new S.strings f.ip_set f.ranges (cidr ep);
            ip_set = (S.strings.add f.ip_set (cidr ep)).0;
          })
          (λ a k. ground (
            arith,
            S.strings.contains-add f.ip_set (cidr ep) a,
            elem-append_if_covered f (cidr ep) a h,
            h a,
          )) in
      record {
        gained_ranges = λ r.
            rest.gained_ranges r
            ∙ (ap (λ b. b || any (λ e. cidr e == r) eps) (elem-append_if_covered f (cidr ep) r h)
                ∙ or_assoc (elem r f.ranges) (cidr ep == r) (any (λ e. cidr e == r) eps));
        gained_principals = rest.gained_principals;
        covers = rest.covers;
      }

  from_endpoints-Comes :
      (s : SourceSpec) (eps : List Endpoint) (f : Found S)
      → Covers f
      → is_empty eps ≡ is_lacking s
      → Comes
          (is_empty eps)
          f
          (λ r. any (λ ep. cidr ep == r) eps)
          (λ p. false)
          (from_endpoints S x mc s eps f)
  from_endpoints-Comes s [] f h e = (s, refl, sym e)
  from_endpoints-Comes s (ep ∷ eps) f h e =
      (add_cidrs S x mc (ep ∷ eps) f, refl, add_cidrs-Gains (ep ∷ eps) f h)

  Gains-cong :
      (f f' : Found S) (ranges ranges' principals principals' : String → Bool)
      → ((r : String) → ranges r ≡ ranges' r)
      → ((p : String) → principals p ≡ principals' p)
      → Gains f ranges principals f'
      → Gains f ranges' principals' f'
  Gains-cong f f' ranges ranges' principals principals' e k g = record {
    gained_ranges = λ r. g.gained_ranges r ∙ ap (λ b. elem r f.ranges || b) (e r);
    gained_principals =
        λ p. g.gained_principals p ∙ ap (λ b. S.strings.contains f.principals p || b) (k p);
    covers = g.covers;
  }

  Comes-cong :
      (b : Bool) (f : Found S) (ranges ranges' principals principals' : String → Bool)
      (progress : Progress (Found S))
      → ((r : String) → ranges r ≡ ranges' r)
      → ((p : String) → principals p ≡ principals' p)
      → Comes b f ranges principals progress
      → Comes b f ranges' principals' progress
  Comes-cong true f ranges ranges' principals principals' progress e k c = c
  Comes-cong false f ranges ranges' principals principals' progress e k c =
      (c.0, c.1, Gains-cong f c.0 ranges ranges' principals principals' e k c.2)

  service-Comes :
      (tls : Option TlsSpec) (s : SourceSpec) (f : Found S)
      → Covers f
      → (s.kind == kind_service) ≡ true
      → Comes
          (is_lacking s)
          f
          (λ r. gives_range r s)
          (λ p. gives_principal tls p s)
          (collect_source S x mc tls s f)
  unfolding collect_source
  service-Comes tls s f h t =
      let eps = list_endpoints_for_service mc (source_service s) in
      let e : is_empty eps ≡ is_lacking s = rw t refl in
      rw
        (
          t,
          same_differ s.kind kind_ip_range kind_service t refl,
          same_differ s.kind kind_authenticated_principal kind_service t refl,
        )
        (Comes-cong (is_empty eps) f (λ r. any (λ ep. cidr ep == r) eps) _ (λ p. false) _
          (from_endpoints S x mc s eps f) (λ r. ground arith) (λ p. refl)
          (from_endpoints-Comes s eps f h e))

  range-Gains :
      (s : SourceSpec) (f : Found S)
      → Covers f
      → Gains f
          (λ r. x.parses_cidr s.name && (s.name == r))
          (λ p. false)
          (if x.parses_cidr s.name then record f { ranges = f.ranges ++ s.name ∷ [] } else f)
  range-Gains s f h = elim (Bool-cases (x.parses_cidr s.name)) [
    | inl t ↦ rw t (record {
      gained_ranges = λ r. ground (
        arith,
        elem-append r f.ranges (s.name ∷ []),
        string_comparable.same_iff s.name r,
        string_comparable.same_iff r s.name,
      );
      gained_principals = λ p. ground arith;
      covers = λ a k. ground (arith, elem-append a f.ranges (s.name ∷ []), h a);
    })
    | inr t ↦ rw t (record {
      gained_ranges = λ r. ground arith;
      gained_principals = λ p. ground arith;
      covers = h;
    })
  ]

  principal-Gains :
      (principal : String) (f : Found S)
      → Covers f
      → Gains f
          (λ r. false)
          (λ p. principal == p)
          (record f { principals = (S.strings.add f.principals principal).0 })
  principal-Gains principal f h = record {
    gained_ranges = λ r. ground arith;
    gained_principals = λ p.
        S.strings.contains-add f.principals principal p
        ∙ or_comm (principal == p) (S.strings.contains f.principals p);
    covers = h;
  }

  no-Gains : (f : Found S) → Covers f → Gains f (λ r. false) (λ p. false) f
  no-Gains f h = record {
    gained_ranges = λ r. ground arith;
    gained_principals = λ p. ground arith;
    covers = h;
  }

  collect_source-Comes :
      (tls : Option TlsSpec) (s : SourceSpec) (f : Found S)
      → Covers f
      → Comes
          (is_lacking s)
          f
          (λ r. gives_range r s)
          (λ p. gives_principal tls p s)
          (collect_source S x mc tls s f)
  unfolding collect_source
  collect_source-Comes tls s f h = elim (Bool-cases (s.kind == kind_service)) [
    | inl t ↦ service-Comes tls s f h t
    | inr f1 ↦ elim (Bool-cases (s.kind == kind_ip_range)) [
      | inl t ↦
          rw (f1, t, same_differ s.kind kind_authenticated_principal kind_ip_range t refl)
            (_, refl, range-Gains s f h)
      | inr f2 ↦ elim (Bool-cases (s.kind == kind_authenticated_principal)) [
        | inl t ↦ rw (f1, f2, t) (_, refl, principal-Gains (if skips tls then "*" else s.name) f h)
        | inr f3 ↦ rw (f1, f2, f3) (f, refl, no-Gains f h)
      ]
    ]
  ]

  Gains-and_then :
      (f f' f'' : Found S) (r1 r2 p1 p2 : String → Bool)
      → Gains f r1 p1 f'
      → Gains f' r2 p2 f''
      → Gains f (λ r. r1 r || r2 r) (λ p. p1 p || p2 p) f''
  Gains-and_then f f' f'' r1 r2 p1 p2 g h = record {
    gained_ranges = λ r.
        h.gained_ranges r
        ∙ (ap (λ b. b || r2 r) (g.gained_ranges r) ∙ or_assoc (elem r f.ranges) (r1 r) (r2 r));
    gained_principals = λ p.
        h.gained_principals p
        ∙ (ap (λ b. b || p2 p) (g.gained_principals p)
            ∙ or_assoc (S.strings.contains f.principals p) (p1 p) (p2 p));
    covers = h.covers;
  }

  Comes-and_then :
      (b c : Bool) (f : Found S) (r1 r2 p1 p2 : String → Bool) (progress : Progress (Found S))
      (next : Found S → Progress (Found S))
      → Comes b f r1 p1 progress
      → ((f' : Found S) → Covers f' → Comes c f' r2 p2 (next f'))
      → Comes (b || c) f (λ r. r1 r || r2 r) (λ p. p1 p || p2 p) (and_then progress next)
  Comes-and_then true c f r1 r2 p1 p2 progress next (s, e, k) h =
      (s, ap (λ t. and_then t next) e, k)
  Comes-and_then false true f r1 r2 p1 p2 progress next (f', e, g) h =
      let (s, e', k) = h f' g.covers in (s, ap (λ t. and_then t next) e ∙ e', k)
  Comes-and_then false false f r1 r2 p1 p2 progress next (f', e, g) h =
      let (f'', e', g') = h f' g.covers in
      (f'', ap (λ t. and_then t next) e ∙ e', Gains-and_then f f' f'' r1 r2 p1 p2 g g')

  -- The loop over the sources ends at the first service without endpoints; if there is none, it adds
  -- exactly the IP ranges and the principals that some source gives.
  pub collect_sources-Comes :
      (tls : Option TlsSpec) (sources : List SourceSpec) (f : Found S)
      → ((a : String) → S.strings.contains f.ip_set a ≡ true → elem a f.ranges ≡ true)
      → Comes
          (any is_lacking sources)
          f
          (λ r. any (gives_range r) sources)
          (λ p. any (gives_principal tls p) sources)
          (collect_sources S x mc tls sources f)
  unfolding collect_sources
  collect_sources-Comes tls [] f h = (f, refl, no-Gains f h)
  collect_sources-Comes tls (s ∷ ss) f h =
      Comes-and_then (is_lacking s) (any is_lacking ss) f (λ r. gives_range r s)
        (λ r. any (gives_range r) ss) (λ p. gives_principal tls p s)
        (λ p. any (gives_principal tls p) ss) (collect_source S x mc tls s f)
        (collect_sources S x mc tls ss) (collect_source-Comes tls s f h)
        (λ f' k. collect_sources-Comes tls ss f' k)
