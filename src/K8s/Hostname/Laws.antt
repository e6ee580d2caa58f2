-- ===== src/K8s/Hostname/Laws.antt =====
-- Hostnames as lists of components joined by dots, and the services read back from them.
use Prim.Native.String as Str
use osm_edge.K8s.Hostname.{
  with_port, get_hostnames_for_service, Controller, split_components, split_host_name,
  get_service_from_hostname,
}
use osm_edge.Service.{MeshService}
use text.Mathlib.TextLemmas.{append_assoc}
use osm_edge.Base.{
  ℕ, String, true, false, none, some, List, [], ◌∷◌, map, ◌≡◌, refl, ap, ◌∙◌, arith, nat_comparable,
  string_comparable, option_comparable, list_comparable, pair_comparable, All, split, has, decimal,
  split-free, split-separator, has-append,
}

-- Components with dots between them.
abbrev join : String → List String → String
join x [] = x
join x (y ∷ rest) = Str.◌++◌ x (Str.◌++◌ "." (join y rest))

-- No dot and no colon.
abbrev pub IsLabel : String → Type 0
IsLabel s = (has b'.' s ≡ false) × (has b':' s ≡ false)

split-join :
    (x : String) (xs : List String) → IsLabel x → All IsLabel xs → split b'.' (join x xs) ≡ x ∷ xs
split-join x [] h k = split-free b'.' x h.0
split-join x (y ∷ rest) h k =
    split-separator "." x (join y rest) h.0 ∙ ap (λ l. x ∷ l) (split-join y rest k.0 k.1)

dot-IsLabel : has b':' "." ≡ false
unfolding has
dot-IsLabel = refl

has-colon-join :
    (x : String) (xs : List String) → IsLabel x → All IsLabel xs → has b':' (join x xs) ≡ false
has-colon-join x [] h k = h.1
has-colon-join x (y ∷ rest) h k =
    rw (has-append, h.1, has-append b':' "." (join y rest), dot-IsLabel)
      (has-colon-join y rest k.0 k.1)

module _ (c : Controller) (x : String) (xs : List String) (h : IsLabel x) (k : All IsLabel xs) where
  split_host_name-join : split_host_name c (join x xs) ≡ split_components c (x ∷ xs)
  unfolding split_host_name
  split_host_name-join =
      rw (split-free b':' (join x xs) (has-colon-join x xs h k))
        (ap (split_components c) (split-join x xs h k))

  split_host_name-with_port :
      (port : ℕ) → split_host_name c (with_port (join x xs) port) ≡ split_components c (x ∷ xs)
  unfolding split_host_name
  split_host_name-with_port port =
      rw (split-separator ":" (join x xs) (decimal port) (has-colon-join x xs h k))
        (ap (split_components c) (split-join x xs h k))

  service-join : get_service_from_hostname c (join x xs) ≡ (split_components c (x ∷ xs)).0
  unfolding get_service_from_hostname
  service-join = ap (λ p. p.0) split_host_name-join

  service-with_port :
      (port : ℕ)
      → get_service_from_hostname c (with_port (join x xs) port) ≡ (split_components c (x ∷ xs)).0
  unfolding get_service_from_hostname
  service-with_port port = ap (λ p. p.0) (split_host_name-with_port port)

-- What a controller is expected to know: the service's namespace is in its cache, and no namespace
-- is called like a component that follows it.
abbrev pub Knows : Controller → String → Type 0
Knows none namespace = Unit
Knows (some get_namespace) namespace =
    (get_namespace namespace ≡ true) × (get_namespace "svc" ≡ false)

IsLabel-svc : IsLabel "svc"
unfolding has
IsLabel-svc = (refl, refl)

IsLabel-cluster : IsLabel "cluster"
unfolding has
IsLabel-cluster = (refl, refl)

IsLabel-local : IsLabel "local"
unfolding has
IsLabel-local = (refl, refl)

-- The names that the hostnames of a service are read as, in a cluster of the default domain.
abbrev pub names_read : MeshService → List String
names_read svc =
    svc.name ∷ svc.name ∷ svc.name ∷ svc.name ∷ svc.name ∷ svc.name ∷ svc.namespace ∷ svc.namespace
    ∷ svc.name ∷ svc.name ∷ []

longer_host :
    (a b s : String)
    → Str.◌++◌ (Str.◌++◌ a (Str.◌++◌ "." b)) s ≡ Str.◌++◌ a (Str.◌++◌ "." (Str.◌++◌ b s))
longer_host a b s = append_assoc a (Str.◌++◌ "." b) s ∙ ap (Str.◌++◌ a) (append_assoc "." b s)

-- The ten hostnames, as components.
hostnames_lem :
    (svc : MeshService)
    → get_hostnames_for_service "cluster.local" svc true
      ≡ join svc.name []
        ∷ with_port (join svc.name []) svc.port
        ∷ join svc.name (svc.namespace ∷ [])
        ∷ with_port (join svc.name (svc.namespace ∷ [])) svc.port
        ∷ join svc.name (svc.namespace ∷ "svc" ∷ [])
        ∷ with_port (join svc.name (svc.namespace ∷ "svc" ∷ [])) svc.port
        ∷ join svc.name (svc.namespace ∷ "svc" ∷ "cluster" ∷ [])
        ∷ with_port (join svc.name (svc.namespace ∷ "svc" ∷ "cluster" ∷ [])) svc.port
        ∷ join svc.name (svc.namespace ∷ "svc" ∷ "cluster" ∷ "local" ∷ [])
        ∷ with_port (join svc.name (svc.namespace ∷ "svc" ∷ "cluster" ∷ "local" ∷ [])) svc.port
        ∷ []
unfolding get_hostnames_for_service split
hostnames_lem svc = simp append_assoc

services_read :
    (c : Controller) (name namespace : String)
    → Knows c namespace
    → ((split_components c (name ∷ [])).0 ≡ name)
      × ((split_components c (name ∷ namespace ∷ [])).0 ≡ name)
      × ((split_components c (name ∷ namespace ∷ "svc" ∷ [])).0 ≡ name)
unfolding split_components
services_read none name namespace k = (refl, refl, refl)
services_read (some f) name namespace k = ground arith

-- In the default trust domain `cluster.local`, each hostname of a service is read back as the
-- service's name, with and without a port, whether or not a controller is at hand, but for the form
-- `name.namespace.svc.cluster`: it is read as the namespace. The name and the namespace hold no dot
-- and no colon, and a controller has the namespace in its cache and none called `svc`.
pub get_service_from_hostname-get_hostnames_for_service :
    (c : Controller) (svc : MeshService)
    → IsLabel svc.name
    → IsLabel svc.namespace
    → Knows c svc.namespace
    → map (get_service_from_hostname c) (get_hostnames_for_service "cluster.local" svc true)
      ≡ names_read svc
unfolding split_components
get_service_from_hostname-get_hostnames_for_service c svc hn hs k =
    let (one, two, three) = services_read c svc.name svc.namespace k in
    let in_svc : All IsLabel (svc.namespace ∷ "svc" ∷ []) = (hs, (IsLabel-svc, tt)) in
    let in_cluster : All IsLabel (svc.namespace ∷ "svc" ∷ "cluster" ∷ []) =
      (hs, (IsLabel-svc, (IsLabel-cluster, tt))) in
    let in_local : All IsLabel (svc.namespace ∷ "svc" ∷ "cluster" ∷ "local" ∷ []) =
      (hs, (IsLabel-svc, (IsLabel-cluster, (IsLabel-local, tt)))) in
    rw (hostnames_lem svc) (
      simp (
        service-join c svc.name [] hn tt,
        service-with_port c svc.name [] hn tt svc.port,
        service-join c svc.name (svc.namespace ∷ []) hn (hs, tt),
        service-with_port c svc.name (svc.namespace ∷ []) hn (hs, tt) svc.port,
        service-join c svc.name (svc.namespace ∷ "svc" ∷ []) hn in_svc,
        service-with_port c svc.name (svc.namespace ∷ "svc" ∷ []) hn in_svc svc.port,
        service-join c svc.name (svc.namespace ∷ "svc" ∷ "cluster" ∷ []) hn in_cluster,
        service-with_port c svc.name (svc.namespace ∷ "svc" ∷ "cluster" ∷ []) hn in_cluster
            svc.port,
        service-join c svc.name (svc.namespace ∷ "svc" ∷ "cluster" ∷ "local" ∷ []) hn in_local,
        service-with_port c svc.name (svc.namespace ∷ "svc" ∷ "cluster" ∷ "local" ∷ []) hn in_local
            svc.port,
        one,
        two,
        three,
      ))
