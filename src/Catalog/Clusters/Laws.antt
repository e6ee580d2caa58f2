-- ===== src/Catalog/Clusters/Laws.antt =====
-- What the weighted clusters of an outbound route promise.
use osm_edge.Service.{MeshService, WeightedCluster}
use osm_edge.Smi.Resources.{TrafficSplitBackend}
use osm_edge.TrafficPolicy.Types.{HttpRouteMatchWithWeightedClusters}
use osm_edge.Catalog.{MeshCatalog}
use osm_edge.Catalog.Routes.{cluster_weight_accept_all}
use osm_edge.Catalog.Clusters.{
  divide_weight, active_upstream_clusters, cluster_weight_fail_over, backend_key, local_clusters,
  remote_clusters, collect_clusters, clusters_of_matches, get_wild_card_route_upstream_clusters,
}
use native.Mathlib.Nat.{div-one, div-le_self}
use osm_edge.Base.{
  ℕ, suc, ◌+◌, ◌-◌, ◌/◌, String, Bool, true, false, not, ◌&&◌, List, [], ◌∷◌, ◌++◌, map, ◌≡◌, refl,
  ap, ◌∙◌, arith, nat_comparable, string_comparable, option_comparable, list_comparable,
  pair_comparable, and_true_right, length, any, elem, nodup, elem-append,
}

-- The sum of the weights, and the names.
abbrev pub total_weight : List WeightedCluster → ℕ
total_weight [] = 0
total_weight (c ∷ cs) = c.weight + total_weight cs

abbrev pub names_of : List WeightedCluster → List String
names_of [] = []
names_of (c ∷ cs) = c.cluster_name ∷ names_of cs

pub total_weight-append :
    (xs ys : List WeightedCluster) → total_weight (xs ++ ys) ≡ total_weight xs + total_weight ys
total_weight-append [] ys = omega arith
total_weight-append (x ∷ xs) ys = omega (arith, total_weight-append xs ys)

total_weight-divide_weight :
    (w : ℕ) (cn : String) (cns : List String) → total_weight (divide_weight w (cn ∷ cns)) ≡ w
unfolding divide_weight
total_weight-divide_weight w cn [] = omega (arith, div-one w)
total_weight-divide_weight w cn (d ∷ cns) = omega (
  arith,
  div-le_self w (suc (length (d ∷ cns))),
  total_weight-divide_weight (w - w / suc (length (d ∷ cns))) d cns,
)

names_of-append : (xs ys : List WeightedCluster) → names_of (xs ++ ys) ≡ names_of xs ++ names_of ys
names_of-append [] ys = refl
names_of-append (x ∷ xs) ys = ap (λ rest. x.cluster_name ∷ rest) (names_of-append xs ys)

names_of-divide_weight : (w : ℕ) (cns : List String) → names_of (divide_weight w cns) ≡ cns
unfolding divide_weight
names_of-divide_weight w [] = refl
names_of-divide_weight w (cn ∷ cns) =
    ap (λ rest. cn ∷ rest) (names_of-divide_weight (w - w / suc (length cns)) cns)

abbrev at_no_weight : List String → List WeightedCluster
at_no_weight fos = map (λ cn. record { cluster_name = cn; weight = cluster_weight_fail_over }) fos

names_of-at_no_weight : (fos : List String) → names_of (at_no_weight fos) ≡ fos
names_of-at_no_weight [] = refl
names_of-at_no_weight (x ∷ fos) = ap (λ rest. x ∷ rest) (names_of-at_no_weight fos)

-- The weight, where there is a cluster that gets it.
abbrev pub weight_if_any : List String → ℕ → ℕ
weight_if_any [] w = 0
weight_if_any (cn ∷ cns) w = w

-- The active clusters of a backend share its weight without loss: they are appended, one for each
-- name and in the order of the names, and if there is one their weights sum to the backend's.
pub active_upstream_clusters-weight :
    (aas : List String) (backend : TrafficSplitBackend) (clusters : List WeightedCluster)
    → (total_weight (active_upstream_clusters aas backend clusters)
        ≡ total_weight clusters + weight_if_any aas backend.weight)
      × (names_of (active_upstream_clusters aas backend clusters) ≡ names_of clusters ++ aas)
unfolding active_upstream_clusters
active_upstream_clusters-weight [] b clusters = (
  total_weight-append clusters (divide_weight b.weight []),
  names_of-append clusters (divide_weight b.weight []),
)
active_upstream_clusters-weight (cn ∷ cns) b clusters = (
  total_weight-append clusters (divide_weight b.weight (cn ∷ cns))
      ∙ ap (λ w. total_weight clusters + w) (total_weight-divide_weight b.weight cn cns),
  names_of-append clusters (divide_weight b.weight (cn ∷ cns))
      ∙ ap (λ ns. names_of clusters ++ ns) (names_of-divide_weight b.weight (cn ∷ cns)),
)

-- The names that `aas` holds for a backend.
abbrev pub active_clusters : MeshCatalog → MeshService → TrafficSplitBackend → List String
active_clusters mc svc backend =
    let locals = local_clusters mc svc backend in
    locals
    ++ remote_clusters locals svc backend true
        (mc.get_target_ports_of_clusters (backend_key svc backend) svc.port)

module _ (weigh : WeightedCluster → ℕ) where
  elem-collect_clusters :
      (seen : List String) (cs : List WeightedCluster) (name : String)
      → elem name (names_of (collect_clusters weigh seen cs))
        ≡ (elem name (names_of cs) && not (elem name seen))
  unfolding collect_clusters
  elem-collect_clusters seen [] name = refl
  elem-collect_clusters seen (c ∷ cs) name = ground (
    arith,
    elem-collect_clusters seen cs name,
    elem-collect_clusters (c.cluster_name ∷ seen) cs name,
    string_comparable.same_iff name c.cluster_name,
  )

  nodup-collect_clusters :
      (seen : List String) (cs : List WeightedCluster)
      → nodup (names_of (collect_clusters weigh seen cs)) ≡ true
  unfolding collect_clusters
  nodup-collect_clusters seen [] = refl
  nodup-collect_clusters seen (c ∷ cs) = ground (
    arith,
    nodup-collect_clusters seen cs,
    nodup-collect_clusters (c.cluster_name ∷ seen) cs,
    elem-collect_clusters (c.cluster_name ∷ seen) cs c.cluster_name,
    string_comparable.same_iff c.cluster_name c.cluster_name,
  )

elem-clusters_of_matches :
    (wanted : Bool → Bool) (ms : List HttpRouteMatchWithWeightedClusters) (name : String)
    → elem name (names_of (clusters_of_matches wanted ms))
      ≡ any (λ m. wanted m.has_split_matches && elem name (names_of m.upstream_clusters)) ms
unfolding clusters_of_matches
elem-clusters_of_matches wanted [] name = refl
elem-clusters_of_matches wanted (m ∷ ms) name = ground (
  arith,
  elem-clusters_of_matches wanted ms name,
  names_of-append m.upstream_clusters (clusters_of_matches wanted ms),
  elem-append name (names_of m.upstream_clusters) (names_of (clusters_of_matches wanted ms)),
)

-- The wildcard route names each cluster once, and names exactly the clusters of the route matches:
-- of all of them, or, where a split without matches is there, of those without matches.
pub get_wild_card_route_upstream_clusters-names :
    (wild_card : Bool) (ms : List HttpRouteMatchWithWeightedClusters) (name : String)
    → (nodup (names_of (get_wild_card_route_upstream_clusters wild_card ms)) ≡ true)
      × (elem name (names_of (get_wild_card_route_upstream_clusters wild_card ms))
          ≡ any
              (λ m.
                not (wild_card && m.has_split_matches) && elem name (names_of m.upstream_clusters))
              ms)
unfolding get_wild_card_route_upstream_clusters
get_wild_card_route_upstream_clusters-names true ms name = (
  nodup-collect_clusters (λ c. c.weight) [] (clusters_of_matches not ms),
  elem-collect_clusters (λ c. c.weight) [] (clusters_of_matches not ms) name
      ∙ (and_true_right _ ∙ elem-clusters_of_matches not ms name),
)
get_wild_card_route_upstream_clusters-names false ms name = (
  nodup-collect_clusters (λ c. cluster_weight_accept_all) [] (clusters_of_matches (λ b. true) ms),
  elem-collect_clusters (λ c. cluster_weight_accept_all) [] (clusters_of_matches (λ b. true) ms)
        name
      ∙ (and_true_right _ ∙ elem-clusters_of_matches (λ b. true) ms name),
)
