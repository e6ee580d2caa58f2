-- ===== src/Identity.antt =====
-- pkg/identity/types.go: service identities, service accounts and principals.
pub mod Laws
use osm_edge.Base.{
  ◌*◌, ◌/◌, String, Bool, true, ◌&&◌, List, [], ◌∷◌, ◌≡◌, ◌↔◌, arith, Comparable, ◌==◌,
  nat_comparable, string_comparable, option_comparable, list_comparable, pair_comparable,
  if◌then◌else◌, Run, returns, panics, sprintf, split, trim_suffix,
}

-- A service identity is a text `<ServiceAccount>.<Namespace>`.
abbrev pub ServiceIdentity : Type 0
ServiceIdentity = String

pub record K8sServiceAccount : Type 0 where
  pub namespace : String
  pub name : String

-- `identity.New`
unfoldable pub new_identity : String → String → ServiceIdentity
new_identity name namespace = sprintf (name ∷ "." ∷ namespace ∷ [])

abbrev pub wildcard_service_identity : ServiceIdentity
wildcard_service_identity = "*"

abbrev pub wildcard_principal : String
wildcard_principal = "*"

unfoldable pub from_principal : String → String → ServiceIdentity
from_principal service_principal trust_domain =
    trim_suffix service_principal (sprintf ("." ∷ trust_domain ∷ []))

unfoldable pub is_wildcard : ServiceIdentity → Bool
is_wildcard si = si == wildcard_service_identity

unfoldable pub as_principal : ServiceIdentity → String → String
unfolding is_wildcard
as_principal si trust_domain = if is_wildcard si then si else sprintf (si ∷ "." ∷ trust_domain ∷ [])

-- `chunks[0]` and `chunks[1]`: an index out of range is a panic.
account_of_chunks : List String → Run K8sServiceAccount
account_of_chunks (name ∷ namespace ∷ rest) =
    returns (record { namespace = namespace; name = name })
account_of_chunks _ = panics

unfoldable pub to_k8s_service_account : ServiceIdentity → Run K8sServiceAccount
unfolding account_of_chunks
to_k8s_service_account si = account_of_chunks (split b'.' si)

-- `K8sServiceAccount.String`
unfoldable pub account_string : K8sServiceAccount → String
account_string sa = sprintf (sa.namespace ∷ "/" ∷ sa.name ∷ [])

unfoldable pub to_service_identity : K8sServiceAccount → ServiceIdentity
unfolding new_identity
to_service_identity sa = new_identity sa.name sa.namespace

unfoldable pub account_as_principal : K8sServiceAccount → String → String
unfolding to_service_identity as_principal
account_as_principal sa trust_domain = as_principal (to_service_identity sa) trust_domain

abbrev account_same : K8sServiceAccount → K8sServiceAccount → Bool
account_same a b = (a.namespace == b.namespace) && (a.name == b.name)

pub account_same_iff : (a b : K8sServiceAccount) → (account_same a b ≡ true) ↔ (a ≡ b)
account_same_iff a b = ground (
  arith,
  string_comparable.same_iff a.namespace b.namespace,
  string_comparable.same_iff a.name b.name,
)

instance abbrev pub account_comparable : Comparable K8sServiceAccount
account_comparable = record { same = account_same; same_iff = account_same_iff }
