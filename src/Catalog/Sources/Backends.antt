-- ===== src/Catalog/Sources/Backends.antt =====
-- What the loop over the backends of a policy builds (ingress.go and access_control.go of pkg/catalog).
use osm_edge.Identity.{wildcard_principal}
use osm_edge.Service.{MeshService}
use osm_edge.Policy.Resources.{BackendSpec, SourceSpec}
use osm_edge.Policy.Client.{backend_matches}
use osm_edge.SetLibrary.{SetLibrary}
use osm_edge.TrafficPolicy.Types.{RouteWeightedClusters, Rule}
use osm_edge.Catalog.{MeshCatalog}
use osm_edge.Catalog.Egress.{Externals}
use osm_edge.Catalog.Sources.{
  Found, lacks, has_come, and_then, Built, nothing_built, all_rules, wildcard_route, extend,
  build_backend, build_backends,
}
use osm_edge.Catalog.Sources.Laws.{is_lacking, gives_range, gives_principal, collect_sources-Comes}
use osm_edge.Base.{
  String, Bool, true, false, ◌&&◌, ◌||◌, List, [], ◌∷◌, ◌++◌, map, ◌≡◌, refl, sym, ap, ◌∙◌, subst,
  inl, inr, arith, ◌==◌, nat_comparable, bool_comparable, string_comparable, option_comparable,
  list_comparable, pair_comparable, if◌then◌else◌, Bool-cases, length, any, keep, append_assoc,
  append_nil, append-step, map-keep, All, elem,
}

shuffle_or : (a b c : Bool) → (a || (b || c)) ≡ (b || (c || a))
shuffle_or a b c = ground arith

shuffle_false : (b c : Bool) → (b || c) ≡ (b || (c || false))
shuffle_false b c = ground arith

shuffle_or_false : (a b c : Bool) → ((a || (b || false)) || c) ≡ (a || (b || c))
shuffle_or_false a b c = ground arith

or_false_right : (a : Bool) → (a || false) ≡ a
or_false_right a = ground arith

module _ {M : Type 0} (S : SetLibrary) (x : Externals) (mc : MeshCatalog) (svc : MeshService)
    (sources : List SourceSpec) (make_match : BackendSpec → List String → M)
    (has_rule : BackendSpec → Bool) where
  -- A match for each backend, in order, with exactly the IP ranges that some source gives.
  abbrev pub MatchesFor : List BackendSpec → List M → Type 0
  MatchesFor [] [] = Unit {0}
  MatchesFor [] (m ∷ ms) = ⊥
  MatchesFor (b ∷ bs) [] = ⊥
  MatchesFor (b ∷ bs) (m ∷ ms) =
      (ranges : List String) × (m ≡ make_match b ranges)
      × ((r : String) → elem r ranges ≡ any (gives_range S x mc r) sources)
      × MatchesFor bs ms

  -- A backend lets a principal in: some source gives it, or the backend serves HTTP and it is the
  -- wildcard.
  abbrev pub lets_in : String → BackendSpec → Bool
  lets_in p b =
      any (gives_principal S x mc b.tls p) sources
      || (x.equal_fold b.port.protocol "http" && (wildcard_principal == p))

  -- What a list of backends adds to what is built.
  pub record Adds (bs : List BackendSpec) (start end : Built S M) : Type 0 where
    pub new_matches : List M
    pub appended : end.matches ≡ start.matches ++ new_matches
    pub matched : MatchesFor bs new_matches
    pub principals :
        (p : String)
        → S.strings.contains end.principals p
          ≡ (S.strings.contains start.principals p || any (lets_in p) bs)
    pub routes : end.routes ≡ start.routes ++ map (λ b. wildcard_route S svc) (keep has_rule bs)

  added_principal :
      (b : BackendSpec) (built : Built S M) (found : Found S) (p : String)
      → S.strings.contains found.principals p
        ≡ (S.strings.contains built.principals p || any (gives_principal S x mc b.tls p) sources)
      → S.strings.contains
          (extend S x mc svc sources make_match has_rule b built found).principals
          p
        ≡ (S.strings.contains built.principals p || lets_in p b)
  added_principal b built found p h = elim (Bool-cases (x.equal_fold b.port.protocol "http")) [
    | inl t ↦ rw t (
        S.strings.contains-add found.principals wildcard_principal p
        ∙ (ap (λ c. (wildcard_principal == p) || c) h
            ∙ shuffle_or (wildcard_principal == p) (S.strings.contains built.principals p)
                (any (gives_principal S x mc b.tls p) sources)))
    | inr t ↦ rw t (
        h
        ∙ shuffle_false (S.strings.contains built.principals p)
            (any (gives_principal S x mc b.tls p) sources))
  ]

  added_route :
      (b : BackendSpec) (rs : List (RouteWeightedClusters S))
      → (if has_rule b then rs ++ wildcard_route S svc ∷ [] else rs)
        ≡ rs ++ map (λ b. wildcard_route S svc) (keep has_rule (b ∷ []))
  added_route b rs = elim (Bool-cases (has_rule b)) [
    | inl t ↦ rw t refl
    | inr t ↦ rw t (sym (append_nil rs))
  ]

  new_set-covers : (a : String) → S.strings.contains S.strings.new_set a ≡ true → elem a [] ≡ true
  new_set-covers a h = ground (arith, S.strings.contains-new_set a)

  abbrev start_found : Built S M → Found S
  start_found built = record {
    ranges = [];
    ip_set = S.strings.new_set;
    principals = built.principals;
  }

  build_backend-Adds :
      (b : BackendSpec) (built : Built S M)
      → backend_matches svc b ≡ true
      → any (is_lacking S x mc) sources ≡ false
      → (built' : Built S M) × (build_backend S x mc svc sources make_match has_rule b built
          ≡ has_come built')
        × Adds (b ∷ []) built built'
  unfolding build_backend
  build_backend-Adds b built h full =
      let (found, e, g) =
        rw full at
          (collect_sources-Comes S x mc b.tls sources (start_found built) new_set-covers) in
      rw h (
        extend S x mc svc sources make_match has_rule b built found,
        ap
            (λ t.
              and_then t (λ f. has_come (extend S x mc svc sources make_match has_rule b built f)))
            e,
        record {
          new_matches = make_match b found.ranges ∷ [];
          appended = refl;
          matched = (found.ranges, refl, g.gained_ranges, tt);
          principals = λ p.
              added_principal b built found p (g.gained_principals p)
              ∙ ap (λ c. S.strings.contains built.principals p || c)
                  (sym (or_false_right (lets_in p b)));
          routes = added_route b built.routes;
        },
      )

  skipped :
      (b : BackendSpec) (built : Built S M)
      → backend_matches svc b ≡ false
      → build_backend S x mc svc sources make_match has_rule b built ≡ has_come built
  unfolding build_backend
  skipped b built h = rw h refl

  build_backend-lacks :
      (b : BackendSpec) (built : Built S M)
      → backend_matches svc b ≡ true
      → any (is_lacking S x mc) sources ≡ true
      → (s : SourceSpec) × (build_backend S x mc svc sources make_match has_rule b built ≡ lacks s)
        × (is_lacking S x mc s ≡ true)
  unfolding build_backend
  build_backend-lacks b built h lacking =
      let (s, e, k) =
        rw lacking at
          (collect_sources-Comes S x mc b.tls sources (start_found built) new_set-covers) in
      rw h (
        s,
        ap
            (λ t.
              and_then t (λ f. has_come (extend S x mc svc sources make_match has_rule b built f)))
            e,
        k,
      )

  MatchesFor-append :
      (b : BackendSpec) (bs : List BackendSpec) (ms ms' : List M)
      → MatchesFor (b ∷ []) ms
      → MatchesFor bs ms'
      → MatchesFor (b ∷ bs) (ms ++ ms')
  MatchesFor-append b bs [] ms' h k = absurd h
  MatchesFor-append b bs (m ∷ []) ms' (ranges, e, g, _) k = (ranges, e, g, k)
  MatchesFor-append b bs (m ∷ m' ∷ ms) ms' (ranges, e, g, h) k = absurd h

  routes-append :
      (b : BackendSpec) (bs : List BackendSpec) (rs rs' rs'' : List (RouteWeightedClusters S))
      → rs' ≡ rs ++ map (λ b. wildcard_route S svc) (keep has_rule (b ∷ []))
      → rs'' ≡ rs' ++ map (λ b. wildcard_route S svc) (keep has_rule bs)
      → rs'' ≡ rs ++ map (λ b. wildcard_route S svc) (keep has_rule (b ∷ bs))
  routes-append b bs rs rs' rs'' h k =
      k
      ∙ (ap (λ l. l ++ map (λ b. wildcard_route S svc) (keep has_rule bs)) h
          ∙ (append_assoc rs (map (λ b. wildcard_route S svc) (keep has_rule (b ∷ [])))
                (map (λ b. wildcard_route S svc) (keep has_rule bs))
              ∙ ap (λ l. rs ++ l) (map-keep (λ b. wildcard_route S svc) has_rule b bs)))

  Adds-append :
      (b : BackendSpec) (bs : List BackendSpec) (start middle end : Built S M)
      → Adds (b ∷ []) start middle
      → Adds bs middle end
      → Adds (b ∷ bs) start end
  Adds-append b bs start middle end h k = record {
    new_matches = h.new_matches ++ k.new_matches;
    appended =
        k.appended
        ∙ append-step middle.matches start.matches h.new_matches k.new_matches h.appended;
    matched = MatchesFor-append b bs h.new_matches k.new_matches h.matched k.matched;
    principals = λ p.
        k.principals p
        ∙ (ap (λ c. c || any (lets_in p) bs) (h.principals p)
            ∙ shuffle_or_false (S.strings.contains start.principals p) (lets_in p b)
                (any (lets_in p) bs));
    routes = routes-append b bs start.routes middle.routes end.routes h.routes k.routes;
  }

  Adds-nothing : (start : Built S M) → Adds [] start start
  Adds-nothing start = record {
    new_matches = [];
    appended = sym (append_nil start.matches);
    matched = tt;
    principals = λ p. sym (or_false_right (S.strings.contains start.principals p));
    routes = sym (append_nil start.routes);
  }

  -- If no source names a service without endpoints, the loop adds a match, the principals and, where
  -- the backend has one, a rule for each backend that selects the service, in order.
  pub build_backends-Adds :
      (bs : List BackendSpec) (built : Built S M)
      → any (is_lacking S x mc) sources ≡ false
      → (built' : Built S M) × (build_backends S x mc svc sources make_match has_rule bs built
          ≡ has_come built')
        × Adds (keep (backend_matches svc) bs) built built'
  unfolding build_backends
  build_backends-Adds [] built full = (built, refl, Adds-nothing built)
  build_backends-Adds (b ∷ bs) built full = elim (Bool-cases (backend_matches svc b)) [
    | inl t ↦
        let (middle, e, h) = build_backend-Adds b built t full in
        let (end, e', k) = build_backends-Adds bs middle full in
        rw t (
          end,
          ap (λ r. and_then r (build_backends S x mc svc sources make_match has_rule bs)) e ∙ e',
          Adds-append b (keep (backend_matches svc) bs) built middle end h k,
        )
    | inr t ↦
        let (end, e', k) = build_backends-Adds bs built full in
        rw t (
          end,
          ap (λ r. and_then r (build_backends S x mc svc sources make_match has_rule bs))
                (skipped b built t)
              ∙ e',
          k,
        )
  ]

  -- If some source names a service without endpoints, and some backend selects the service, the loop
  -- ends at such a source.
  pub build_backends-lacks :
      (bs : List BackendSpec) (built : Built S M)
      → any (is_lacking S x mc) sources ≡ true
      → any (backend_matches svc) bs ≡ true
      → (s : SourceSpec) × (build_backends S x mc svc sources make_match has_rule bs built
          ≡ lacks s)
        × (is_lacking S x mc s ≡ true)
  unfolding build_backends
  build_backends-lacks [] built lacking h = absurd (ground arith)
  build_backends-lacks (b ∷ bs) built lacking h = elim (Bool-cases (backend_matches svc b)) [
    | inl t ↦
        let (s, e, k) = build_backend-lacks b built t lacking in
        (s, ap (λ r. and_then r (build_backends S x mc svc sources make_match has_rule bs)) e, k)
    | inr t ↦
        let (s, e, k) = build_backends-lacks bs built lacking (sym (rw t) ∙ h) in
        (
          s,
          ap (λ r. and_then r (build_backends S x mc svc sources make_match has_rule bs))
                (skipped b built t)
              ∙ e,
          k,
        )
  ]

  -- Each rule is the wildcard route to the service, for exactly the principals that some backend lets
  -- in.
  abbrev pub LetIn : List BackendSpec → List (Rule S) → Type 0
  LetIn selected rules =
      All
        (λ rule.
          (rule.route ≡ wildcard_route S svc)
          × ((p : String)
              → S.strings.contains rule.allowed_principals p ≡ any (lets_in p) selected))
        rules

  abbrev rule_with : S.strings.Carrier → RouteWeightedClusters S → Rule S
  rule_with principals route = record { route = route; allowed_principals = principals }

  rules-LetIn :
      (selected bs : List BackendSpec) (principals : S.strings.Carrier)
      → ((p : String) → S.strings.contains principals p ≡ any (lets_in p) selected)
      → LetIn selected (map (rule_with principals) (map (λ b. wildcard_route S svc) bs))
        × (length (map (rule_with principals) (map (λ b. wildcard_route S svc) bs)) ≡ length bs)
  rules-LetIn selected [] principals h = (tt, refl)
  rules-LetIn selected (b ∷ bs) principals h =
      let rest = rules-LetIn selected bs principals h in
      (((refl, h), rest.0), omega (arith, rest.1))

  -- What is built from nothing.
  pub Adds-rules :
      (selected : List BackendSpec) (end : Built S M)
      → Adds selected (nothing_built S) end
      → MatchesFor selected end.matches
        × LetIn selected (all_rules S end)
        × (length (all_rules S end) ≡ length (keep has_rule selected))
  Adds-rules selected end h =
      let ruled = rules-LetIn selected (keep has_rule selected) end.principals (λ p.
        h.principals p ∙ ap (λ b. b || any (lets_in p) selected) (S.strings.contains-new_set p)) in
      let same : all_rules S end
          ≡ map (rule_with end.principals)
              (map (λ b. wildcard_route S svc) (keep has_rule selected)) =
        ap (map (rule_with end.principals)) h.routes in
      (
        subst (MatchesFor selected) (sym h.appended) h.matched,
        subst (LetIn selected) (sym same) ruled.0,
        ap length same ∙ ruled.1,
      )

  pub MatchesFor-nonempty :
      (bs : List BackendSpec) (ms : List M)
      → any (backend_matches svc) bs ≡ true
      → MatchesFor (keep (backend_matches svc) bs) ms
      → (length ms == 0) ≡ false
  MatchesFor-nonempty [] ms h k = absurd (ground arith)
  MatchesFor-nonempty (b ∷ bs) [] h k = elim (Bool-cases (backend_matches svc b)) [
    | inl t ↦ absurd (rw t at k)
    | inr t ↦ MatchesFor-nonempty bs [] (sym (rw t) ∙ h) (rw t at k)
  ]
  MatchesFor-nonempty (b ∷ bs) (m ∷ ms) h k = ground arith
