-- ===== src/Catalog/Targets/Laws.antt =====
-- What the queries along traffic targets promise.
use osm_edge.Base.Sets.{contains-add_if}
use osm_edge.Identity.{
  K8sServiceAccount, to_k8s_service_account, to_service_identity, account_comparable,
}
use osm_edge.Service.{service_comparable}
use osm_edge.Smi.Resources.{IdentityBindingSubject, TrafficTarget}
use osm_edge.SetLibrary.{SetLibrary}
use osm_edge.Catalog.{MeshCatalog}
use osm_edge.Catalog.Targets.{
  inbound, outbound, traffic_target_identity_to_svc_account, all_traffic_targets, names_account,
  is_service_account, add_sources, add_destination, add_target, add_targets,
  list_inbound_service_identities, list_outbound_service_identities,
}
use osm_edge.Base.{
  String, Bool, true, ◌&&◌, ◌||◌, List, [], ◌∷◌, map, ◌≡◌, ap, ◌∙◌, arith, ◌==◌, nat_comparable,
  string_comparable, option_comparable, list_comparable, pair_comparable, if◌then◌else◌, or_assoc,
  any, elem, nodup, Run, returns,
}

-- The account that a subject stands for.
abbrev pub stands_for : K8sServiceAccount → IdentityBindingSubject → Bool
stands_for sa subject =
    is_service_account subject && (traffic_target_identity_to_svc_account subject == sa)

names_account_iff :
    (sa : K8sServiceAccount) (s : IdentityBindingSubject)
    → names_account sa s ≡ (traffic_target_identity_to_svc_account s == sa)
unfolding traffic_target_identity_to_svc_account
names_account_iff sa s = ground arith

-- The target lets the first account call the second.
abbrev pub permits : K8sServiceAccount → K8sServiceAccount → TrafficTarget → Bool
permits source destination t =
    stands_for destination t.destination && any (stands_for source) t.sources

or_shared : (c s d r : Bool) → ((c || (s && d)) || (d && r)) ≡ (c || (d && (s || r)))
or_shared c s d r = ground arith

and_swap : (k d n r : Bool) → (k && (d && n)) ≡ ((k && d) && n)
and_swap k d n r = ground arith

module _ (S : SetLibrary) where
  contains-add_sources :
      (allowed : S.accounts.Carrier) (sources : List IdentityBindingSubject) (a : K8sServiceAccount)
      → S.accounts.contains (add_sources S allowed sources) a
        ≡ (S.accounts.contains allowed a || any (stands_for a) sources)
  unfolding add_sources
  contains-add_sources allowed [] a = ground arith
  contains-add_sources allowed (s ∷ sources) a =
      contains-add_sources
        (if is_service_account s
          then (S.accounts.add allowed (traffic_target_identity_to_svc_account s)).0
          else allowed)
        sources a
      ∙ (ap (λ b. b || any (stands_for a) sources)
            (contains-add_if S.accounts (is_service_account s) allowed
              (traffic_target_identity_to_svc_account s) a)
          ∙ or_assoc (S.accounts.contains allowed a) (stands_for a s) (any (stands_for a) sources))

  contains-add_destination :
      (sa d : K8sServiceAccount) (allowed : S.accounts.Carrier)
      (sources : List IdentityBindingSubject) (a : K8sServiceAccount)
      → S.accounts.contains (add_destination S sa d allowed sources) a
        ≡ (S.accounts.contains allowed a || ((d == a) && any (stands_for sa) sources))
  unfolding add_destination
  contains-add_destination sa d allowed [] a = ground arith
  contains-add_destination sa d allowed (s ∷ sources) a =
      contains-add_destination sa d
        (if is_service_account s && names_account sa s
          then (S.accounts.add allowed d).0
          else allowed)
        sources a
      ∙ (ap (λ b. b || ((d == a) && any (stands_for sa) sources))
            (contains-add_if S.accounts (is_service_account s && names_account sa s) allowed d a)
          ∙ (ap
                (λ b.
                  (S.accounts.contains allowed a || ((is_service_account s && b) && (d == a)))
                  || ((d == a) && any (stands_for sa) sources))
                (names_account_iff sa s)
              ∙ or_shared (S.accounts.contains allowed a) (stands_for sa s) (d == a)
                  (any (stands_for sa) sources)))

  contains-add_target :
      (sa : K8sServiceAccount) (allowed : S.accounts.Carrier) (t : TrafficTarget)
      (a : K8sServiceAccount)
      → (S.accounts.contains (add_target S sa inbound allowed t) a
          ≡ (S.accounts.contains allowed a || permits a sa t))
        × (S.accounts.contains (add_target S sa outbound allowed t) a
            ≡ (S.accounts.contains allowed a || permits sa a t))
  unfolding add_target
  contains-add_target sa allowed t a =
      let d = traffic_target_identity_to_svc_account t.destination in
      (
        ground
            (arith, contains-add_sources allowed t.sources a, names_account_iff sa t.destination),
        ground (arith, contains-add_destination sa d allowed t.sources a),
      )

  contains-add_targets :
      (sa : K8sServiceAccount) (allowed : S.accounts.Carrier) (ts : List TrafficTarget)
      (a : K8sServiceAccount)
      → (S.accounts.contains (add_targets S sa inbound allowed ts) a
          ≡ (S.accounts.contains allowed a || any (permits a sa) ts))
        × (S.accounts.contains (add_targets S sa outbound allowed ts) a
            ≡ (S.accounts.contains allowed a || any (permits sa a) ts))
  unfolding add_targets
  contains-add_targets sa allowed [] a = (ground arith, ground arith)
  contains-add_targets sa allowed (t ∷ ts) a =
      let step = contains-add_target sa allowed t a in
      (
        (contains-add_targets sa (add_target S sa inbound allowed t) ts a).0
            ∙ (ap (λ b. b || any (permits a sa) ts) step.0
                ∙ or_assoc (S.accounts.contains allowed a) (permits a sa t)
                    (any (permits a sa) ts)),
        (contains-add_targets sa (add_target S sa outbound allowed t) ts a).1
            ∙ (ap (λ b. b || any (permits sa a) ts) step.1
                ∙ or_assoc (S.accounts.contains allowed a) (permits sa a t)
                    (any (permits sa a) ts)),
      )

  -- The accounts behind a list of identities: each account once, and those that the test selects.
  abbrev pub ListsAccounts : Run (List String) → (K8sServiceAccount → Bool) → Type 0
  ListsAccounts run selects =
      (accounts : List K8sServiceAccount) × (run ≡ returns (map to_service_identity accounts))
      × (nodup accounts ≡ true)
      × ((a : K8sServiceAccount) → elem a accounts ≡ selects a)

  -- The upstream identities that a downstream identity may call are those of the accounts that some
  -- valid traffic target of a monitored namespace permits it to call, each account once, if the
  -- identity names an account.
  pub list_outbound_service_identities-permits :
      (mc : MeshCatalog) (downstream : String) (sa : K8sServiceAccount)
      → to_k8s_service_account downstream ≡ returns sa
      → ListsAccounts
          (list_outbound_service_identities S mc downstream)
          (λ a. any (permits sa a) (all_traffic_targets mc))
  unfolding list_outbound_service_identities
  list_outbound_service_identities-permits mc downstream sa h =
      let ts = all_traffic_targets mc in
      let found = add_targets S sa outbound S.accounts.new_set ts in
      (
        S.accounts.iter found,
        rw h,
        S.accounts.nodup-iter found,
        λ a.
            S.accounts.elem-iter found a
            ∙ ((contains-add_targets sa S.accounts.new_set ts a).1
                ∙ ap (λ b. b || any (permits sa a) ts) (S.accounts.contains-new_set a)),
      )

  -- The downstream identities that may call an upstream identity are those of the accounts that some
  -- valid traffic target of a monitored namespace permits to call its account, each account once, if
  -- the identity names an account.
  pub list_inbound_service_identities-permits :
      (mc : MeshCatalog) (upstream : String) (sa : K8sServiceAccount)
      → to_k8s_service_account upstream ≡ returns sa
      → ListsAccounts
          (list_inbound_service_identities S mc upstream)
          (λ a. any (permits a sa) (all_traffic_targets mc))
  unfolding list_inbound_service_identities
  list_inbound_service_identities-permits mc upstream sa h =
      let ts = all_traffic_targets mc in
      let found = add_targets S sa inbound S.accounts.new_set ts in
      (
        S.accounts.iter found,
        rw h,
        S.accounts.nodup-iter found,
        λ a.
            S.accounts.elem-iter found a
            ∙ ((contains-add_targets sa S.accounts.new_set ts a).0
                ∙ ap (λ b. b || any (permits a sa) ts) (S.accounts.contains-new_set a)),
      )
