-- ===== src/Catalog/Targets/Services.antt =====
-- What the lists of services and endpoints along traffic targets promise, and the retry policies.
use osm_edge.Base.Sets.{Tracks, Tracks-add, Tracks-new_set, append_if_new, elem-append_if_new}
use osm_edge.Identity.{K8sServiceAccount, to_k8s_service_account, account_comparable}
use osm_edge.Service.{MeshService, sibling_to, namespaced_key, service_comparable}
use osm_edge.Smi.Resources.{TrafficTarget}
use osm_edge.Policy.Resources.{RetrySrcDstSpec, Retry}
use osm_edge.Policy.Client.{list_retry_policies}
use osm_edge.SetLibrary.{SetLibrary}
use osm_edge.Catalog.{
  MeshCatalog, Endpoint, get_services_for_service_identity, list_endpoints_for_service,
  list_endpoints_for_service_identity,
}
use osm_edge.Catalog.Targets.{
  traffic_target_identity_to_service_identity, all_traffic_targets, names_account,
  list_outbound_service_identities, append_new, outbound_services,
  list_outbound_services_for_identity, endpoints_at, list_allowed_upstream_endpoints_for_service,
  destination_matches, retry_policy_from, get_retry_policy,
}
use osm_edge.Base.{
  String, Bool, true, false, not, ◌&&◌, ◌||◌, none, List, [], ◌∷◌, ◌≡◌, refl, sym, ap, ◌∙◌, ◌⊎◌,
  inl, inr, arith, ◌==◌, ==_iff, nat_comparable, string_comparable, option_comparable,
  list_comparable, pair_comparable, if◌then◌else◌, or_assoc, same_sym, length, any, gather, keep,
  any-gather, any-keep, any-cong, any-false, elem, nodup, returns, bind_cong,
}

module _ (S : SetLibrary) where
  append_new-Tracks :
      (svcs : List MeshService) (seen : S.services.Carrier) (allowed : List MeshService)
      → Tracks S.services seen allowed
      → Tracks S.services (append_new S seen allowed svcs).0 (append_new S seen allowed svcs).1
        × ((s : MeshService)
            → elem s (append_new S seen allowed svcs).1 ≡ (elem s allowed || elem s svcs))
  unfolding append_new
  append_new-Tracks [] seen allowed t = (t, λ s. ground arith)
  append_new-Tracks (svc ∷ svcs) seen allowed t =
      let rest =
        append_new-Tracks svcs (S.services.add seen svc).0
          (append_if_new S.services seen allowed svc) (Tracks-add S.services seen allowed svc t) in
      (
        rest.0,
        λ s.
            rest.1 s
            ∙ (ap (λ b. b || elem s svcs) (elem-append_if_new S.services seen allowed svc s t)
                ∙ (ap (λ b. (elem s allowed || b) || elem s svcs) (same_sym svc s)
                    ∙ or_assoc (elem s allowed) (s == svc) (elem s svcs))),
      )

  append_new_if-Tracks :
      (b : Bool) (svcs : List MeshService) (seen : S.services.Carrier) (allowed : List MeshService)
      → Tracks S.services seen allowed
      → let after = if b then append_new S seen allowed svcs else (seen, allowed) in
        Tracks S.services after.0 after.1
        × ((s : MeshService) → elem s after.1 ≡ (elem s allowed || (b && elem s svcs)))
  append_new_if-Tracks true svcs seen allowed t = append_new-Tracks svcs seen allowed t
  append_new_if-Tracks false svcs seen allowed t = (t, λ s. ground arith)

  -- The target names the account among its sources, and the service is one of its destination's.
  abbrev pub leads_to : MeshCatalog → K8sServiceAccount → MeshService → TrafficTarget → Bool
  leads_to mc sa s t =
      any (names_account sa) t.sources
      && elem s (
          get_services_for_service_identity mc
            (traffic_target_identity_to_service_identity t.destination))

  outbound_services-leads_to :
      (mc : MeshCatalog) (sa : K8sServiceAccount) (ts : List TrafficTarget)
      (seen : S.services.Carrier) (allowed : List MeshService)
      → Tracks S.services seen allowed
      → (nodup (outbound_services S mc sa seen allowed ts) ≡ true)
        × ((s : MeshService)
            → elem s (outbound_services S mc sa seen allowed ts)
              ≡ (elem s allowed || any (leads_to mc sa s) ts))
  unfolding outbound_services traffic_target_identity_to_service_identity
  outbound_services-leads_to mc sa [] seen allowed t = (t.1, λ s. ground arith)
  outbound_services-leads_to mc sa (target ∷ ts) seen allowed t =
      let sources = any (names_account sa) target.sources in
      let svcs =
        get_services_for_service_identity mc
          (traffic_target_identity_to_service_identity target.destination) in
      let after = if sources then append_new S seen allowed svcs else (seen, allowed) in
      let step = append_new_if-Tracks sources svcs seen allowed t in
      let rest = outbound_services-leads_to mc sa ts after.0 after.1 step.0 in
      (
        rest.0,
        λ s.
            rest.1 s
            ∙ (ap (λ b. b || any (leads_to mc sa s) ts) (step.1 s)
                ∙ or_assoc (elem s allowed) (leads_to mc sa s target) (any (leads_to mc sa s) ts)),
      )

  -- Outside the permissive mode a source reaches each service of the destinations of the targets
  -- that name it, and no other, and each is listed once, if the identity names an account.
  pub list_outbound_services_for_identity-leads_to :
      (mc : MeshCatalog) (si : String) (sa : K8sServiceAccount)
      → mc.settings.is_permissive_traffic_policy_mode ≡ false
      → to_k8s_service_account si ≡ returns sa
      → (services : List MeshService) × (list_outbound_services_for_identity S mc si
          ≡ returns services)
        × (nodup services ≡ true)
        × ((s : MeshService) → elem s services ≡ any (leads_to mc sa s) (all_traffic_targets mc))
  unfolding list_outbound_services_for_identity
  list_outbound_services_for_identity-leads_to mc si sa m h =
      let ts = all_traffic_targets mc in
      let found =
        outbound_services-leads_to mc sa ts S.services.new_set [] (Tracks-new_set S.services) in
      (outbound_services S mc sa S.services.new_set [] ts, rw (m, h), found.0, found.1)

module _ (a b : MeshService) where
  destination_matches-sibling :
      (d : RetrySrcDstSpec)
      → sibling_to a b ≡ true
      → destination_matches a d ≡ destination_matches b d
  unfolding destination_matches sibling_to
  destination_matches-sibling d h =
      let same_key = (==_iff (namespaced_key a) (namespaced_key b)).0 h in rw same_key

  retry_policy_from-sibling :
      (retries : List Retry)
      → sibling_to a b ≡ true
      → retry_policy_from a retries ≡ retry_policy_from b retries
  unfolding retry_policy_from
  retry_policy_from-sibling [] h = refl
  retry_policy_from-sibling (r ∷ retries) h = ground (
    arith,
    retry_policy_from-sibling retries h,
    any-cong (destination_matches a) (destination_matches b) r.destinations
        (λ d. destination_matches-sibling d h),
  )

  -- Sibling services, such as the replicas of a stateful set, get one retry policy.
  pub get_retry_policy-sibling :
      (mc : MeshCatalog) (downstream : String)
      → sibling_to a b ≡ true
      → get_retry_policy mc downstream a ≡ get_retry_policy mc downstream b
  unfolding get_retry_policy
  get_retry_policy-sibling mc downstream h =
      ap (λ r. if not mc.settings.enable_retry_policy then returns none else r)
        (bind_cong (to_k8s_service_account downstream) _ _ (λ src.
          ap returns (retry_policy_from-sibling (list_retry_policies mc.policy_controller src) h)))

length-cons : {A : Type 0} (x : A) (xs : List A) → (length (x ∷ xs) == 0) ≡ false
length-cons x xs = ground arith

List-cases : {A : Type 0} (xs : List A) → (xs ≡ []) ⊎ ((x : A) × (ys : List A) × (xs ≡ x ∷ ys))
List-cases [] = inl refl
List-cases (x ∷ xs) = inr (x, xs, refl)

module _ (S : SetLibrary) where
  -- Some of the endpoints that passes the test stands at an address of an identity's endpoints.
  abbrev pub some_at : MeshCatalog → List Endpoint → List String → (Endpoint → Bool) → Bool
  some_at mc es identities p =
      any
        (λ si.
          any (λ ep. any (λ e. (e.ip == ep.ip) && p e) es)
            (list_endpoints_for_service_identity mc si))
        identities

  any-endpoints_at :
      (p : Endpoint → Bool) (es eps : List Endpoint)
      → any p (endpoints_at S es eps) ≡ any (λ ep. any (λ e. (e.ip == ep.ip) && p e) es) eps
  unfolding endpoints_at
  any-endpoints_at p es eps =
      any-gather p (λ ep. keep (λ e. e.ip == ep.ip) es) eps
      ∙ any-cong _ _ eps (λ ep. any-keep p (λ e. e.ip == ep.ip) es)

  -- Outside the permissive mode the allowed endpoints of an upstream service are exactly its
  -- endpoints at an address of an endpoint of an identity that the downstream identity may call.
  pub list_allowed_upstream_endpoints_for_service-some_at :
      (mc : MeshCatalog) (downstream : String) (upstream : MeshService) (identities : List String)
      → mc.settings.is_permissive_traffic_policy_mode ≡ false
      → list_outbound_service_identities S mc downstream ≡ returns identities
      → (allowed : List Endpoint) × (list_allowed_upstream_endpoints_for_service S mc downstream
            upstream
          ≡ returns allowed)
        × ((p : Endpoint → Bool)
            → any p allowed ≡ some_at mc (list_endpoints_for_service mc upstream) identities p)
  unfolding list_allowed_upstream_endpoints_for_service
  list_allowed_upstream_endpoints_for_service-some_at mc downstream upstream identities m h =
      elim (List-cases (list_endpoints_for_service mc upstream)) [
        | inl e ↦ (
          [],
          rw e,
          λ p. rw e (
              sym (
                any-false _ identities (λ si.
                  any-false (λ ep. false) (list_endpoints_for_service_identity mc si)
                    (λ ep. refl)))),
        )
        | inr (x, xs, e) ↦ (
          gather (λ si. endpoints_at S (x ∷ xs) (list_endpoints_for_service_identity mc si))
              identities,
          rw (e, length-cons x xs, m, h),
          λ p. rw e (
              any-gather p
                (λ si. endpoints_at S (x ∷ xs) (list_endpoints_for_service_identity mc si))
                identities
              ∙ any-cong _ _ identities
                  (λ si. any-endpoints_at p (x ∷ xs) (list_endpoints_for_service_identity mc si))),
        )
      ]
