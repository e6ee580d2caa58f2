-- ===== src/K8s/Hostname.antt =====
-- pkg/k8s/util.go. The package variable `trustDomain` is an argument, and a controller is the test
-- whether a namespace is in its cache.
pub mod Laws
use osm_edge.Service.{MeshService}
use osm_edge.Base.{
  ℕ, String, Bool, ◌||◌, Option, none, some, List, [], ◌∷◌, ◌++◌, ◌==◌, nat_comparable,
  string_comparable, option_comparable, list_comparable, pair_comparable, if◌then◌else◌, sprintf,
  split, decimal,
}

-- `SetTrustDomain`: from the current value to the new one.
unfoldable pub set_trust_domain : String → String → String
set_trust_domain domain current = if domain == "" then current else domain

abbrev pub with_port : String → ℕ → String
with_port host port = sprintf (host ∷ ":" ∷ decimal port ∷ [])

-- The loop over the pieces of the trust domain.
seg_hostnames : ℕ → String → List String → List String
seg_hostnames port hostname [] = []
seg_hostnames port hostname (seg ∷ segs) =
    let longer = sprintf (hostname ∷ "." ∷ seg ∷ []) in
    let skipped = seg_hostnames port hostname segs in
    let more = seg_hostnames port longer segs in
    if seg == "" then skipped else longer ∷ with_port longer port ∷ more

unfoldable pub get_hostnames_for_service : String → MeshService → Bool → List String
unfolding seg_hostnames
get_hostnames_for_service trust_domain svc local_namespace =
    let in_namespace = sprintf (svc.name ∷ "." ∷ svc.namespace ∷ []) in
    let in_cluster = sprintf (svc.name ∷ "." ∷ svc.namespace ∷ "." ∷ "svc" ∷ []) in
    (if local_namespace then svc.name ∷ with_port svc.name svc.port ∷ [] else [])
    ++ ((in_namespace
          ∷ with_port in_namespace svc.port
          ∷ in_cluster
          ∷ with_port in_cluster svc.port
          ∷ [])
        ++ seg_hostnames svc.port in_cluster (split b'.' trust_domain))

abbrev head_of : List String → String
head_of [] = ""
head_of (x ∷ xs) = x

-- `c.GetNamespace(ns) != nil`, where a controller was passed in.
abbrev pub Controller : Type 0
Controller = Option (String → Bool)

-- The pair of the service name and the subdomain, by the number of components.
unfoldable pub split_components : Controller → List String → String × String
split_components c (p1 ∷ p2 ∷ []) = elim c [
  | none ↦ (p1, "")
  | some get_namespace ↦ if get_namespace p2 then (p1, "") else (p2, p1)
]
split_components c (p1 ∷ p2 ∷ tld ∷ []) = elim c [
  | none ↦ if tld == "svc" then (p1, "") else (p2, p1)
  | some get_namespace ↦ if get_namespace tld then (p2, p1) else (p1, "")
]
split_components c (p1 ∷ p2 ∷ p3 ∷ p4 ∷ []) = (p2, p1)
split_components c (p1 ∷ p2 ∷ p3 ∷ p4 ∷ p5 ∷ []) = (p1, "")
split_components c (p1 ∷ p2 ∷ p3 ∷ p4 ∷ p5 ∷ p6 ∷ []) = (p2, p1)
split_components c (p1 ∷ rest) = (p1, "")
split_components c [] = ("", "")

unfoldable pub split_host_name : Controller → String → String × String
split_host_name c host = split_components c (split b'.' (head_of (split b':' host)))

unfoldable pub get_service_from_hostname : Controller → String → String
unfolding split_host_name split_components
get_service_from_hostname c host = (split_host_name c host).0

unfoldable pub get_subdomain_from_hostname : Controller → String → String
unfolding split_host_name split_components
get_subdomain_from_hostname c host = (split_host_name c host).1

pub record NamespacedName : Type 0 where
  pub namespace : String
  pub name : String

-- `chunks` has two entries, or an error is returned.
name_of_chunks : List String → Option NamespacedName
name_of_chunks (namespace ∷ name ∷ []) = some (record { namespace = namespace; name = name })
name_of_chunks _ = none

unfoldable pub namespaced_name_from : String → Option NamespacedName
unfolding name_of_chunks
namespaced_name_from name = name_of_chunks (split b'/' name)

-- The field `Spec.ClusterIP`; `corev1.ClusterIPNone` is "None".
unfoldable pub is_headless_service : String → Bool
is_headless_service cluster_ip = (cluster_ip == "") || (cluster_ip == "None")
