-- ===== src/Tests/Names.antt =====
-- Identities, services and hostnames.
use osm_edge.Identity.{to_k8s_service_account, to_service_identity}
use osm_edge.Identity.Laws.{to_k8s_service_account-to_service_identity}
use osm_edge.Service.{MeshService}
use osm_edge.K8s.Hostname.{get_hostnames_for_service, get_service_from_hostname}
use osm_edge.K8s.Hostname.Laws.{get_service_from_hostname-get_hostnames_for_service, names_read}
use osm_edge.Tests.Samples.{web, db, client_account}
use osm_edge.Base.{
  true, some, map, ◌≡◌, refl, ◌==◌, nat_comparable, string_comparable, option_comparable,
  list_comparable, pair_comparable, returns, has,
}

to_k8s_service_account_example :
    to_k8s_service_account (to_service_identity client_account) ≡ returns client_account
unfolding has
to_k8s_service_account_example = to_k8s_service_account-to_service_identity client_account refl refl

abbrev same_port : MeshService
same_port = record web { port = 81 }

abbrev replica : MeshService
replica = record db { name = "db-0.db" }

hostnames_example :
    map
      (get_service_from_hostname (some (λ namespace. namespace == "shop")))
      (get_hostnames_for_service "cluster.local" web true)
    ≡ names_read web
unfolding has
hostnames_example =
    get_service_from_hostname-get_hostnames_for_service (some (λ namespace. namespace == "shop"))
      web (refl, refl) (refl, refl) (refl, refl)
