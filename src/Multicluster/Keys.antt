-- ===== src/Multicluster/Keys.antt =====
-- The keys of clusters in pkg/multicluster/traffic_policy.go, and the endpoints that they select.
use osm_edge.Multicluster.{ImportEndpoint, TrafficTarget, cluster_keys_of}
use osm_edge.Multicluster.Imports.{is_empty, weight_in, is_selected}
use osm_edge.Base.{
  ℕ, String, Bool, false, ◌&&◌, ◌||◌, List, [], ◌∷◌, ◌≡◌, refl, ◌∙◌, inl, inr, arith, ◌==◌,
  nat_comparable, bool_comparable, string_comparable, option_comparable, list_comparable,
  pair_comparable, Bool-cases, is_some, any, lookup, insert, lookup-insert,
}

-- A cluster is one of the targets, or there are none.
abbrev pub is_listed : List TrafficTarget → ImportEndpoint → Bool
is_listed ts e = is_empty ts || any (λ t. t.cluster_key == e.cluster_key) ts

is_empty-insert : (k : String) (v : ℕ) (m : List (String × ℕ)) → is_empty (insert k v m) ≡ false
is_empty-insert k v [] = refl
is_empty-insert k v ((first, value) ∷ others) = elim (Bool-cases (first == k)) [
  | inl t ↦ rw t refl
  | inr f ↦ rw f refl
]

module _ (weigh : TrafficTarget → ℕ) where
  is_empty-cluster_keys_of :
      (ts : List TrafficTarget) (m : List (String × ℕ))
      → is_empty (cluster_keys_of weigh m ts) ≡ (is_empty m && is_empty ts)
  unfolding cluster_keys_of
  is_empty-cluster_keys_of [] m = ground arith
  is_empty-cluster_keys_of (t ∷ ts) m =
      rw
        (
          is_empty-cluster_keys_of ts (insert t.cluster_key (weigh t) m),
          is_empty-insert t.cluster_key (weigh t) m,
        )
        (ground arith)

  lookup-cluster_keys_of :
      (k : String) (ts : List TrafficTarget) (m : List (String × ℕ))
      → is_some (lookup k (cluster_keys_of weigh m ts))
        ≡ (is_some (lookup k m) || any (λ t. t.cluster_key == k) ts)
  unfolding cluster_keys_of
  lookup-cluster_keys_of k [] m = ground arith
  lookup-cluster_keys_of k (t ∷ ts) m =
      rw
        (
          lookup-cluster_keys_of k ts (insert t.cluster_key (weigh t) m),
          lookup-insert t.cluster_key k (weigh t) m,
        )
        (elim (Bool-cases (t.cluster_key == k)) [ inl s ↦ rw s (ground arith) | inr f ↦ rw f refl ])

is_selected-or :
    (m : List (String × ℕ)) (e : ImportEndpoint)
    → is_selected m e ≡ (is_empty m || is_some (lookup e.cluster_key m))
is_selected-or [] e = refl
is_selected-or (k ∷ ks) e = refl

pub is_selected-cluster_keys_of :
    (weigh : TrafficTarget → ℕ) (ts : List TrafficTarget) (e : ImportEndpoint)
    → is_selected (cluster_keys_of weigh [] ts) e ≡ is_listed ts e
is_selected-cluster_keys_of weigh ts e =
    is_selected-or (cluster_keys_of weigh [] ts) e
    ∙ rw (is_empty-cluster_keys_of weigh ts [], lookup-cluster_keys_of weigh e.cluster_key ts [])
        refl

pub weight_in-is_selected :
    (m : List (String × ℕ)) (e : ImportEndpoint) → is_some (weight_in m e) ≡ is_selected m e
weight_in-is_selected [] e = refl
weight_in-is_selected (k ∷ ks) e = refl
