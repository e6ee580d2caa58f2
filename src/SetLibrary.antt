-- ===== src/SetLibrary.antt =====
-- The sets that the control plane keeps, one interface for each type of element, and the instance
-- by lists with which the model runs.
use osm_edge.Base.Sets.{MapSet, list_set}
use osm_edge.Identity.{K8sServiceAccount, account_comparable}
use osm_edge.Service.{MeshService, WeightedCluster, service_comparable, cluster_comparable}
use osm_edge.Base.{
  ℕ, String, nat_comparable, string_comparable, option_comparable, list_comparable, pair_comparable,
}

pub record SetLibrary : Type 1 where
  -- principals, hostnames and IP ranges
  pub strings : MapSet String
  pub clusters : MapSet WeightedCluster
  pub services : MapSet MeshService
  pub accounts : MapSet K8sServiceAccount
  -- names and ports of backends
  pub keys : MapSet (String × ℕ)

unfoldable pub list_sets : SetLibrary
unfolding list_set
list_sets = record {
  strings = list_set;
  clusters = list_set;
  services = list_set;
  accounts = list_set;
  keys = list_set;
}
