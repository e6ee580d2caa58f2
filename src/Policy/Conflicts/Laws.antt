-- ===== src/Policy/Conflicts/Laws.antt =====
-- What a report of conflicts means for the services that the resources select.
use osm_edge.Base.Sets.{MapSet, contains-of_slice}
use osm_edge.Service.{MeshService}
use osm_edge.Policy.Resources.{BackendSpec, IngressBackend, AccessControl}
use osm_edge.Policy.Client.{backend_matches}
use osm_edge.Policy.Conflicts.{
  set_key, duplicates, conflict_errors, detect_ingress_backend_conflicts,
  detect_access_control_conflicts,
}
use osm_edge.Base.{
  ℕ, String, Bool, false, ◌&&◌, List, [], ◌∷◌, map, ◌≡◌, refl, ap, ◌∙◌, ◌↔◌, arith, ==_refl,
  nat_comparable, string_comparable, option_comparable, list_comparable, pair_comparable, any, elem,
}

any-backend_matches :
    (svc : MeshService) (bs : List BackendSpec)
    → any (backend_matches svc) bs ≡ elem (svc.name, svc.target_port) (map set_key bs)
any-backend_matches svc [] = refl
any-backend_matches svc (b ∷ bs) = ground (
  arith,
  any-backend_matches svc bs,
  string_comparable.same_iff b.name svc.name,
  string_comparable.same_iff svc.name b.name,
)

module _ (keys : MapSet (String × ℕ)) where
  elem-duplicates :
      (xs ys : List BackendSpec) (k : String × ℕ)
      → elem k (duplicates keys xs ys) ≡ (elem k (map set_key xs) && elem k (map set_key ys))
  unfolding duplicates
  elem-duplicates xs ys k =
      keys.elem-iter _ k
      ∙ keys.contains-intersect _ _ k
      ∙ rw (contains-of_slice keys (map set_key xs) k, contains-of_slice keys (map set_key ys) k)

  -- Both resources select the service.
  abbrev pub both_select : List BackendSpec → List BackendSpec → MeshService → Bool
  both_select xs ys svc = any (backend_matches svc) xs && any (backend_matches svc) ys

  elem-duplicates-service :
      (xs ys : List BackendSpec) (svc : MeshService)
      → both_select xs ys svc ≡ elem (svc.name, svc.target_port) (duplicates keys xs ys)
  elem-duplicates-service xs ys svc = rw (
    any-backend_matches svc xs,
    any-backend_matches svc ys,
    elem-duplicates xs ys (svc.name, svc.target_port),
  )

  abbrev some_service : String × ℕ → MeshService
  some_service k = record {
    namespace = "";
    name = k.0;
    port = 0;
    target_port = k.1;
    protocol = "";
    service_import_uid = "";
  }

  none_duplicate :
      (xs ys : List BackendSpec) (ds : List (String × ℕ)) (x y : String)
      → duplicates keys xs ys ≡ ds
      → (conflict_errors keys x y ds ≡ []) ↔ ((svc : MeshService) → both_select xs ys svc ≡ false)
  none_duplicate xs ys [] x y e = (λ _ svc. elem-duplicates-service xs ys svc ∙ rw e, λ _. refl)
  none_duplicate xs ys (d ∷ ds) x y e = (
    λ h. cc,
    λ h. absurd (
        ground (
          arith,
          h (some_service d),
          elem-duplicates-service xs ys (some_service d),
          ap (elem d) e,
          ==_refl d,
        )),
  )

  -- No conflict between two ingress backends is reported exactly when no service, by its name and
  -- target port, is selected by both.
  pub detect_ingress_backend_conflicts-nil_iff :
      (x y : IngressBackend)
      → (detect_ingress_backend_conflicts keys x y ≡ [])
        ↔ ((svc : MeshService) → both_select x.backends y.backends svc ≡ false)
  unfolding detect_ingress_backend_conflicts
  detect_ingress_backend_conflicts-nil_iff x y =
      none_duplicate x.backends y.backends _ x.name y.name refl

  -- No conflict between two access controls is reported exactly when no service, by its name and
  -- target port, is selected by both.
  pub detect_access_control_conflicts-nil_iff :
      (x y : AccessControl)
      → (detect_access_control_conflicts keys x y ≡ [])
        ↔ ((svc : MeshService) → both_select x.backends y.backends svc ≡ false)
  unfolding detect_access_control_conflicts
  detect_access_control_conflicts-nil_iff x y =
      none_duplicate x.backends y.backends _ x.name y.name refl
