-- ===== src/Policy/Conflicts.antt =====
-- pkg/policy/conflicts.go: backends that two resources both specify.
pub mod Laws
use osm_edge.Base.Sets.{MapSet, of_slice}
use osm_edge.Policy.Resources.{BackendSpec, IngressBackend, AccessControl}
use osm_edge.Base.{
  ℕ, String, List, [], ◌∷◌, map, nat_comparable, string_comparable, option_comparable,
  list_comparable, pair_comparable, sprintf,
}

-- The `setKey` of a backend: its name and port.
abbrev pub set_key : BackendSpec → String × ℕ
set_key backend = (backend.name, backend.port.number)

module _ (keys : MapSet (String × ℕ)) where
  -- `xSet.Intersect(ySet)`, in the order of `Iter`.
  unfoldable pub duplicates : List BackendSpec → List BackendSpec → List (String × ℕ)
  unfolding of_slice
  duplicates xs ys =
      keys.iter (keys.intersect (of_slice keys (map set_key xs)) (of_slice keys (map set_key ys)))

  abbrev conflict_errors : String → String → List (String × ℕ) → List String
  conflict_errors x y [] = []
  conflict_errors x y (b ∷ bs) =
      sprintf ("Backend " ∷ b.0 ∷ " specified in " ∷ x ∷ " and " ∷ y ∷ " conflicts" ∷ [])
      ∷ conflict_errors x y bs

  unfoldable pub detect_ingress_backend_conflicts : IngressBackend → IngressBackend → List String
  unfolding duplicates
  detect_ingress_backend_conflicts x y =
      conflict_errors x.name y.name (duplicates x.backends y.backends)

  unfoldable pub detect_access_control_conflicts : AccessControl → AccessControl → List String
  unfolding duplicates
  detect_access_control_conflicts x y =
      conflict_errors x.name y.name (duplicates x.backends y.backends)
