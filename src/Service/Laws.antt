-- ===== src/Service/Laws.antt =====
-- The names of pkg/service/types.go identify the services that they are made from.
use osm_edge.Service.{MeshService, subdomain, provider_key, sibling_to, sidecar_cluster_name}
use osm_edge.Base.{
  String, true, false, [], ◌∷◌, ◌≡◌, refl, ◌↔◌, nat_comparable, string_comparable,
  option_comparable, list_comparable, pair_comparable, sprintf, has, decimal_injective, split-free,
  split-separator, cut,
}

-- Kubernetes names: no slash in a namespace, no bar in a service name.
pub record IsNamed (ms : MeshService) : Type 0 where
  pub namespace_free : has b'/' ms.namespace ≡ false
  pub name_free : has b'|' ms.name ≡ false

-- Services with one sidecar cluster name agree in namespace, name and target port, if their
-- namespaces hold no slash and their names no bar.
pub sidecar_cluster_name_injective :
    (a b : MeshService)
    → IsNamed a
    → IsNamed b
    → sidecar_cluster_name a ≡ sidecar_cluster_name b
    → (a.namespace ≡ b.namespace) × (a.name ≡ b.name) × (a.target_port ≡ b.target_port)
unfolding sidecar_cluster_name
sidecar_cluster_name_injective a b na nb h =
    let (same_namespace, rest) =
      cut "/" a.namespace b.namespace _ _ na.namespace_free nb.namespace_free h in
    let (same_name, ports) = cut "|" a.name b.name _ _ na.name_free nb.name_free rest in
    (same_namespace, same_name, decimal_injective a.target_port b.target_port ports)

-- Two services are siblings exactly when they have one namespace and one provider key, if their
-- namespaces hold no slash.
pub sibling_to_iff :
    (a b : MeshService)
    → has b'/' a.namespace ≡ false
    → has b'/' b.namespace ≡ false
    → (sibling_to a b ≡ true) ↔ ((a.namespace ≡ b.namespace) × (provider_key a ≡ provider_key b))
unfolding sibling_to
sibling_to_iff a b ha hb = (
  λ h. cut "/" a.namespace b.namespace _ _ ha hb ((string_comparable.same_iff _ _).0 h),
  λ (p, q). (string_comparable.same_iff _ _).1 (rw (p, q)),
)

-- A service called `<pod>.<service>`, with no further dot, has the pod as its subdomain and the
-- service as its provider key.
pub subdomain-provider_key :
    (ms : MeshService) (pod service : String)
    → has b'.' pod ≡ false
    → has b'.' service ≡ false
    → ms.name ≡ sprintf (pod ∷ "." ∷ service ∷ [])
    → (subdomain ms ≡ pod) × (provider_key ms ≡ service)
unfolding subdomain provider_key
subdomain-provider_key ms pod service h k e =
    rw (e, split-separator "." pod service h, split-free b'.' service k) (refl, refl)
