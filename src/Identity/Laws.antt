-- ===== src/Identity/Laws.antt =====
-- Conversions of pkg/identity/types.go: service accounts, identities and principals.
use Prim.Native.Char.{code}
use Prim.Native.String as Str
use text.Mathlib.TextLemmas.{head-eq_of_cons-eq}
use osm_edge.Base.{
  String, false, ◌≡◌, ap, ◌∙◌, inl, inr, arith, ◌==◌, nat_comparable, string_comparable,
  option_comparable, list_comparable, pair_comparable, Bool-cases, returns, has, trim_suffix,
  split-free, split-separator, separate, trim_suffix-append,
}
use osm_edge.Identity.{
  K8sServiceAccount, from_principal, is_wildcard, as_principal, to_k8s_service_account,
  to_service_identity,
}

-- A service account whose name and namespace hold no dot is what its service identity is read as.
pub to_k8s_service_account-to_service_identity :
    (sa : K8sServiceAccount)
    → has b'.' sa.name ≡ false
    → has b'.' sa.namespace ≡ false
    → to_k8s_service_account (to_service_identity sa) ≡ returns sa
unfolding to_k8s_service_account to_service_identity
to_k8s_service_account-to_service_identity sa h k =
    rw (split-separator "." sa.name sa.namespace h, split-free b'.' sa.namespace k)

star-not-dot : (s : String) → ("*" == Str.◌++◌ "." s) ≡ false
star-not-dot s = elim (Bool-cases ("*" == Str.◌++◌ "." s)) [
  | inl e ↦ absurd (
      omega (
        arith,
        ap code (head-eq_of_cons-eq ((string_comparable.same_iff _ _).0 e ∙ separate "." s)),
      ))
  | inr e ↦ e
]

-- A principal in a trust domain is read back as the identity that it was made from, the wildcard
-- included.
pub from_principal-as_principal :
    (si trust_domain : String) → from_principal (as_principal si trust_domain) trust_domain ≡ si
unfolding from_principal as_principal trim_suffix
from_principal-as_principal si td = elim (Bool-cases (is_wildcard si)) [
  | inl w ↦ rw (w, (string_comparable.same_iff si "*").0 w, star-not-dot td)
  | inr w ↦ rw w (trim_suffix-append si (Str.◌++◌ "." td))
]
