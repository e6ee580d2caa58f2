-- ===== src/Policy/Client/Laws.antt =====
-- What the queries of pkg/policy/client.go promise.
use osm_edge.Base.Sets.{MapSet}
use osm_edge.Service.{MeshService, fqdn}
use osm_edge.Policy.Resources.{IngressBackend, AccessControl, UpstreamTrafficSetting}
use osm_edge.Policy.Client.{
  Client, backend_matches, ingress_backend_from, get_ingress_backend_policy, access_control_from,
  get_access_control_policy, by_service, by_host, upstream_from, get_upstream_traffic_setting,
}
use osm_edge.Policy.Conflicts.{detect_ingress_backend_conflicts, detect_access_control_conflicts}
use osm_edge.Policy.Conflicts.Laws.{
  detect_ingress_backend_conflicts-nil_iff, detect_access_control_conflicts-nil_iff,
}
use osm_edge.Base.{
  ℕ, String, Bool, true, false, ◌&&◌, Option, none, some, List, [], ◌∷◌, ◌++◌, ◌≡◌, refl, ap, ◌∙◌,
  inl, inr, arith, ◌==◌, nat_comparable, string_comparable, option_comparable, list_comparable,
  pair_comparable, is_some, some_inj, sym, subst, and_true, Bool-cases, any, find?, All, returns,
  panics,
}

-- A traffic setting that belongs to the service: its namespace and its host.
abbrev pub belongs_to : MeshService → UpstreamTrafficSetting → Bool
belongs_to ms r = (r.namespace == ms.namespace) && (r.host == fqdn ms)

upstream_from-by_service :
    (ms : MeshService) (rs : List UpstreamTrafficSetting)
    → All (λ r. (r.host == "") ≡ false) rs
    → upstream_from (by_service ms) rs ≡ returns (find? (belongs_to ms) rs)
unfolding upstream_from
upstream_from-by_service ms [] h = refl
upstream_from-by_service ms (r ∷ rs) h = ground (arith, upstream_from-by_service ms rs h.1)

-- A query by mesh service does not panic, and returns the first traffic setting in the service's
-- namespace whose host is the service's fully qualified name, if every setting has a host.
pub get_upstream_traffic_setting-by_service :
    (c : Client) (ms : MeshService)
    → All (λ r. (r.host == "") ≡ false) c.upstream_traffic_settings
    → get_upstream_traffic_setting c (by_service ms)
      ≡ returns (find? (belongs_to ms) c.upstream_traffic_settings)
unfolding get_upstream_traffic_setting
get_upstream_traffic_setting-by_service c ms h =
    upstream_from-by_service ms c.upstream_traffic_settings h

upstream_from-returns :
    (ms : MeshService) (rs : List UpstreamTrafficSetting)
    → (found : Option UpstreamTrafficSetting) × (upstream_from (by_service ms) rs ≡ returns found)
unfolding upstream_from
upstream_from-returns ms [] = (none, refl)
upstream_from-returns ms (r ∷ rs) =
    let later = upstream_from-returns ms rs in
    elim (Bool-cases (r.host == "")) [
      | inl e ↦ (some r, rw e)
      | inr e ↦ elim (Bool-cases (belongs_to ms r)) [
        | inl b ↦ (some r, rw (e, b))
        | inr b ↦ (later.0, rw (e, b, later.1))
      ]
    ]

-- A query by mesh service returns in every case.
pub get_upstream_traffic_setting-returns :
    (c : Client) (ms : MeshService)
    → (found : Option UpstreamTrafficSetting) × (get_upstream_traffic_setting c (by_service ms)
        ≡ returns found)
unfolding get_upstream_traffic_setting
get_upstream_traffic_setting-returns c ms = upstream_from-returns ms c.upstream_traffic_settings

-- A query by host alone panics whenever the first traffic setting that is listed has another host:
-- the mesh service, which is not given, is dereferenced.
pub get_upstream_traffic_setting-by_host :
    (c : Client) (host : String) (first : UpstreamTrafficSetting)
    (rest : List UpstreamTrafficSetting)
    → (host == "") ≡ false
    → c.upstream_traffic_settings ≡ first ∷ rest
    → (first.host == host) ≡ false
    → get_upstream_traffic_setting c (by_host host) ≡ panics
unfolding get_upstream_traffic_setting
get_upstream_traffic_setting-by_host c host first rest h e k = rw (h, e, k)

module _ (keys : MapSet (String × ℕ)) (svc : MeshService) where
  ingress_backend_from_unique :
      (x : IngressBackend) (before after : List IngressBackend)
      → All (λ y. detect_ingress_backend_conflicts keys y x ≡ []) before
      → (x.namespace == svc.namespace) ≡ true
      → any (backend_matches svc) x.backends ≡ true
      → ingress_backend_from svc (before ++ x ∷ after) ≡ some x
  unfolding ingress_backend_from
  ingress_backend_from_unique x [] after h n m = rw (n, m)
  ingress_backend_from_unique x (y ∷ before) after h n m = ground (
    arith,
    (detect_ingress_backend_conflicts-nil_iff keys y x).0 h.0 svc,
    ingress_backend_from_unique x before after h.1 n m,
  )

  access_control_from_unique :
      (x : AccessControl) (before after : List AccessControl)
      → All (λ y. detect_access_control_conflicts keys y x ≡ []) before
      → (x.namespace == svc.namespace) ≡ true
      → any (backend_matches svc) x.backends ≡ true
      → access_control_from svc (before ++ x ∷ after) ≡ some x
  unfolding access_control_from
  access_control_from_unique x [] after h n m = rw (n, m)
  access_control_from_unique x (y ∷ before) after h n m = ground (
    arith,
    (detect_access_control_conflicts-nil_iff keys y x).0 h.0 svc,
    access_control_from_unique x before after h.1 n m,
  )

  -- An ingress backend that selects a service of its namespace is the one that a query for the
  -- service returns, wherever it stands in the list, if no backend before it conflicts with it.
  pub get_ingress_backend_policy_unique :
      (c : Client) (x : IngressBackend) (before after : List IngressBackend)
      → c.ingress_backends ≡ before ++ x ∷ after
      → All (λ y. detect_ingress_backend_conflicts keys y x ≡ []) before
      → (x.namespace == svc.namespace) ≡ true
      → any (backend_matches svc) x.backends ≡ true
      → get_ingress_backend_policy c svc ≡ some x
  unfolding get_ingress_backend_policy
  get_ingress_backend_policy_unique c x before after e h n m =
      ap (ingress_backend_from svc) e ∙ ingress_backend_from_unique x before after h n m

  -- An access control that selects a service of its namespace is the one that a query for the
  -- service returns, wherever it stands in the list, if no access control before it conflicts with it.
  pub get_access_control_policy_unique :
      (c : Client) (x : AccessControl) (before after : List AccessControl)
      → c.access_controls ≡ before ++ x ∷ after
      → All (λ y. detect_access_control_conflicts keys y x ≡ []) before
      → (x.namespace == svc.namespace) ≡ true
      → any (backend_matches svc) x.backends ≡ true
      → get_access_control_policy c svc ≡ some x
  unfolding get_access_control_policy
  get_access_control_policy_unique c x before after e h n m =
      ap (access_control_from svc) e ∙ access_control_from_unique x before after h n m

module _ (svc : MeshService) where
  ingress_backend_from-none :
      (ibs : List IngressBackend)
      → All (λ ib. (ib.namespace == svc.namespace) ≡ false) ibs
      → ingress_backend_from svc ibs ≡ none
  unfolding ingress_backend_from
  ingress_backend_from-none [] h = refl
  ingress_backend_from-none (ib ∷ ibs) h = rw h.0 (ingress_backend_from-none ibs h.1)

  access_control_from-none :
      (acls : List AccessControl)
      → All (λ acl. (acl.namespace == svc.namespace) ≡ false) acls
      → access_control_from svc acls ≡ none
  unfolding access_control_from
  access_control_from-none [] h = refl
  access_control_from-none (acl ∷ acls) h = rw h.0 (access_control_from-none acls h.1)

  -- A query finds nothing where every policy is in another namespace than the service.
  pub get_ingress_backend_policy-none :
      (c : Client)
      → All (λ ib. (ib.namespace == svc.namespace) ≡ false) c.ingress_backends
      → get_ingress_backend_policy c svc ≡ none
  unfolding get_ingress_backend_policy
  get_ingress_backend_policy-none c h = ingress_backend_from-none c.ingress_backends h

  pub get_access_control_policy-none :
      (c : Client)
      → All (λ acl. (acl.namespace == svc.namespace) ≡ false) c.access_controls
      → get_access_control_policy c svc ≡ none
  unfolding get_access_control_policy
  get_access_control_policy-none c h = access_control_from-none c.access_controls h

  ingress_backend_from-selects :
      (ibs : List IngressBackend) (p : IngressBackend)
      → ingress_backend_from svc ibs ≡ some p
      → any (backend_matches svc) p.backends ≡ true
  unfolding ingress_backend_from
  ingress_backend_from-selects [] p h = absurd (let clash = ap is_some h in ground arith)
  ingress_backend_from-selects (ib ∷ ibs) p h =
      elim (Bool-cases ((ib.namespace == svc.namespace) && any (backend_matches svc) ib.backends)) [
        | inl t ↦
            let same : ib ≡ p = some_inj (sym (rw t) ∙ h) in
            subst (λ q. any (backend_matches svc) q.backends ≡ true) same
              ((and_true (ib.namespace == svc.namespace) (any (backend_matches svc) ib.backends)
                t).1)
        | inr t ↦ ingress_backend_from-selects ibs p (sym (rw t) ∙ h)
      ]

  access_control_from-selects :
      (acls : List AccessControl) (p : AccessControl)
      → access_control_from svc acls ≡ some p
      → any (backend_matches svc) p.backends ≡ true
  unfolding access_control_from
  access_control_from-selects [] p h = absurd (let clash = ap is_some h in ground arith)
  access_control_from-selects (acl ∷ acls) p h =
      elim (Bool-cases
        ((acl.namespace == svc.namespace) && any (backend_matches svc) acl.backends)) [
          | inl t ↦
              let same : acl ≡ p = some_inj (sym (rw t) ∙ h) in
              subst (λ q. any (backend_matches svc) q.backends ≡ true) same
                ((and_true (acl.namespace == svc.namespace) (any (backend_matches svc) acl.backends)
                  t).1)
          | inr t ↦ access_control_from-selects acls p (sym (rw t) ∙ h)
        ]

  -- The policy that a query answers has a backend that selects the service.
  pub get_ingress_backend_policy-selects :
      (c : Client) (p : IngressBackend)
      → get_ingress_backend_policy c svc ≡ some p
      → any (backend_matches svc) p.backends ≡ true
  unfolding get_ingress_backend_policy
  get_ingress_backend_policy-selects c p h = ingress_backend_from-selects c.ingress_backends p h

  pub get_access_control_policy-selects :
      (c : Client) (p : AccessControl)
      → get_access_control_policy c svc ≡ some p
      → any (backend_matches svc) p.backends ≡ true
  unfolding get_access_control_policy
  get_access_control_policy-selects c p h = access_control_from-selects c.access_controls p h
