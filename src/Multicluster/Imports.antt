-- ===== src/Multicluster/Imports.antt =====
-- pkg/multicluster/service_import.go: what an imported service of other clusters looks like to the
-- mesh. `strings.EqualFold` is a parameter.
use osm_edge.Service.{MeshService, namespaced_key}
use osm_edge.K8s.Hostname.{NamespacedName}
use osm_edge.Identity.{K8sServiceAccount, account_comparable}
use osm_edge.Base.Sets.{of_slice}
use osm_edge.SetLibrary.{SetLibrary}
use osm_edge.Multicluster.{
  Client, ImportEndpoint, ServicePort, ServiceImport, LbAnswer, ServiceTrafficPolicy,
  locality_lb_type, is_locality, get_service_traffic_policy, get_lb_weight_for_service,
}
use osm_edge.Base.{
  ℕ, ◌%◌, ◌^◌, String, Bool, true, false, not, ◌&&◌, ◌||◌, Option, none, some, List, [], ◌∷◌, ◌++◌,
  map, ◌==◌, nat_comparable, bool_comparable, string_comparable, option_comparable, list_comparable,
  pair_comparable, if◌then◌else◌, is_some, gather, keep, find?, lookup, insert, sprintf, decimal,
}

-- The fields of a Kubernetes service that the code fills; the selector is the label `app`.
pub record KubePort : Type 0 where
  pub name : String
  pub protocol : String
  pub app_protocol : Option String
  pub port : ℕ
  pub target_port : ℕ

pub record KubeService : Type 0 where
  pub uid : String
  pub namespace : String
  pub name : String
  pub app : String
  pub cluster_ip : String
  pub ports : List KubePort

pub record KubePod : Type 0 where
  pub namespace : String
  pub name : String
  pub app : String
  pub service_account_name : String
  pub pod_ip : String

abbrev pub kube_port : ServicePort → ImportEndpoint → KubePort
kube_port p e = record {
  name = p.name;
  protocol = p.protocol;
  app_protocol = p.app_protocol;
  port = p.port;
  target_port = e.target.port;
}

abbrev pub is_empty {ℓ} : {A : Type ℓ} → List A → Bool
is_empty [] = true
is_empty (x ∷ xs) = false

-- The service whose address is that of the first endpoint with the target port.
abbrev pub service_through : ServiceImport → ServicePort → Option ImportEndpoint → KubeService
service_through i p none = record {
  uid = i.uid;
  namespace = i.namespace;
  name = i.name;
  app = i.name;
  cluster_ip = "";
  ports = [];
}
service_through i p (some e) = record {
  uid = i.uid;
  namespace = i.namespace;
  name = i.name;
  app = i.name;
  cluster_ip = e.target.ip;
  ports = kube_port p e ∷ [];
}

abbrev pub service_at : ServiceImport → ServicePort → ImportEndpoint → KubeService
service_at i p e = record {
  uid = e.cluster_key;
  namespace = i.namespace;
  name = i.name;
  app = i.name;
  cluster_ip = e.target.ip;
  ports = kube_port p e ∷ [];
}

abbrev pub apex : String → String → MeshService
apex namespace name = record {
  namespace = namespace;
  name = name;
  port = 0;
  target_port = 0;
  protocol = "";
  service_import_uid = "";
}

unfoldable pub list_services : Client → List KubeService
unfolding is_locality
list_services c =
    gather
      (λ i.
        if is_locality c (apex i.namespace i.name)
        then []
        else gather (λ p. map (service_at i p) p.endpoints) i.ports)
      c.service_imports

abbrev pub pod_at : ServiceImport → ImportEndpoint → KubePod
pod_at i e = record {
  namespace = i.namespace;
  name = e.target.host;
  app = i.name;
  service_account_name = i.service_account_name;
  pod_ip = e.target.ip;
}

unfoldable pub list_pods : Client → List KubePod
list_pods c = gather (λ i. gather (λ p. map (pod_at i) p.endpoints) i.ports) c.service_imports

-- `corev1.Endpoints`: the annotations, and a subset for each endpoint.
pub record Subset : Type 0 where
  pub ip : String
  pub hostname : String
  pub name : String
  pub protocol : String
  pub app_protocol : Option String
  pub port : ℕ

pub record Endpoints : Type 0 where
  pub namespace : String
  pub name : String
  pub annotations : List (String × String)
  pub subsets : List Subset

abbrev pub subset : ServicePort → ImportEndpoint → Subset
subset p e = record {
  ip = e.target.ip;
  hostname = e.target.host;
  name = p.name;
  protocol = p.protocol;
  app_protocol = p.app_protocol;
  port = e.target.port;
}

abbrev pub annotation_key : String → ImportEndpoint → String
annotation_key kind e =
    sprintf
      ("flomesh.io/ServiceImport/" ∷ kind ∷ "/" ∷ e.target.ip ∷ "/" ∷ decimal e.target.port ∷ [])

-- The four annotations of an endpoint.
abbrev pub annotate : String → ℕ → ImportEndpoint → List (String × String) → List (String × String)
annotate lb_type weight e m = insert (annotation_key "LBWeight" e) (decimal weight) (
    insert (annotation_key "LBType" e) lb_type (
      insert (annotation_key "ContextPath" e) e.target.path
        (insert (annotation_key "ClusterKey" e) e.cluster_key m)))

-- The weight of an endpoint's cluster; without keys each endpoint is taken, with weight 0.
abbrev pub weight_in : List (String × ℕ) → ImportEndpoint → Option ℕ
weight_in [] e = some 0
weight_in (k ∷ ks) e = lookup e.cluster_key (k ∷ ks)

-- A service without a target port stands for all.
abbrev pub has_target : MeshService → ImportEndpoint → Bool
has_target svc e = (svc.target_port == 0) || (svc.target_port == (e.target.port % 2 ^ 16))

abbrev pub extended : String → ServicePort → ImportEndpoint → Option ℕ → Endpoints → Endpoints
extended lb_type p e none es = es
extended lb_type p e (some weight) es = record es {
  annotations = annotate lb_type weight e es.annotations;
  subsets = es.subsets ++ subset p e ∷ [];
}

unfoldable pub add_subsets :
    ServiceTrafficPolicy → MeshService → ServicePort → List ImportEndpoint → Endpoints → Endpoints
add_subsets policy svc p [] es = es
add_subsets policy svc p (e ∷ rest) es = add_subsets policy svc p rest (
    if has_target svc e
    then extended policy.lb_type p e (weight_in policy.cluster_keys e) es
    else es)

-- The map of target ports.
abbrev pub is_selected : List (String × ℕ) → ImportEndpoint → Bool
is_selected [] e = true
is_selected (k ∷ ks) e = is_some (lookup e.cluster_key (k ∷ ks))

unfoldable pub add_ports : LbAnswer → List ImportEndpoint → List (ℕ × Bool) → List (ℕ × Bool)
add_ports lb [] m = m
add_ports lb (e ∷ es) m = add_ports lb es (
    if is_selected lb.cluster_keys e then insert (e.target.port % 2 ^ 16) lb.active_active m else m)

module _ (equal_fold : String → String → Bool) where
  -- `GetService`: the first port of the import with the service's port and with endpoints.
  abbrev pub is_port_of : ServiceImport → MeshService → ServicePort → Bool
  is_port_of i svc p =
      equal_fold i.name svc.name && ((p.port % 2 ^ 16) == svc.port) && not (is_empty p.endpoints)

  abbrev service_of : MeshService → ServiceImport → Option KubeService
  service_of svc i = elim (find? (is_port_of i svc) i.ports) [
    | none ↦ none
    | some p ↦
        some (
          service_through i p
            (find? (λ e. svc.target_port == (e.target.port % 2 ^ 16)) p.endpoints))
  ]

  unfoldable pub get_service : Client → MeshService → Option KubeService
  unfolding is_locality
  get_service c svc =
      if is_locality c svc then none else elim (c.service_import_by_key (namespaced_key svc)) [
        | none ↦ none
        | some i ↦ service_of svc i
      ]

  unfoldable pub get_namespace : Client → String → Option String
  get_namespace c ns = elim (find? (λ i. equal_fold i.namespace ns) c.service_imports) [
    | none ↦ none
    | some i ↦ some i.namespace
  ]

  -- A service without a port stands for all.
  abbrev pub is_endpoint_port : ServiceImport → MeshService → ServicePort → Bool
  is_endpoint_port i svc p =
      equal_fold i.name svc.name
      && ((svc.port == 0) || (svc.port == (p.port % 2 ^ 16)))
      && not (is_empty p.endpoints)

  abbrev pub endpoints_of : ServiceTrafficPolicy → MeshService → ServiceImport → Option Endpoints
  endpoints_of policy svc i = elim (find? (is_endpoint_port i svc) i.ports) [
    | none ↦ none
    | some p ↦ some (
        add_subsets policy svc p p.endpoints
          (record { namespace = i.namespace; name = i.name; annotations = []; subsets = [] }))
  ]

  abbrev pub endpoints_under : Client → MeshService → ServiceTrafficPolicy → Option Endpoints
  endpoints_under c svc policy =
      if policy.lb_type == locality_lb_type
      then none
      else elim (c.service_import_by_key (namespaced_key svc)) [
        | none ↦ none
        | some i ↦ endpoints_of policy svc i
      ]

  unfoldable pub get_endpoints : Client → MeshService → Option Endpoints
  unfolding get_service_traffic_policy add_subsets
  get_endpoints c svc = endpoints_under c svc (get_service_traffic_policy c svc)

  -- The accounts of the pods that the selector matches; without a service there is an error.
  unfoldable pub list_service_identities_for_service :
      SetLibrary → Client → MeshService → Option (List K8sServiceAccount)
  unfolding get_service list_pods
  list_service_identities_for_service S c svc = elim (get_service c svc) [
    | none ↦ none
    | some s ↦ some (
        S.accounts.iter (
          of_slice S.accounts (
            map (λ pod. record { namespace = pod.namespace; name = pod.service_account_name })
              (keep (λ pod. pod.app == s.app) (list_pods c)))))
  ]

  unfoldable pub add_all_ports :
      LbAnswer
      → ServiceImport
      → NamespacedName
      → ℕ
      → List ServicePort
      → List (ℕ × Bool)
      → List (ℕ × Bool)
  unfolding add_ports
  add_all_ports lb i n port [] m = m
  add_all_ports lb i n port (p ∷ ps) m = add_all_ports lb i n port ps (
      if equal_fold i.name n.name && ((p.port % 2 ^ 16) == port)
      then add_ports lb p.endpoints m
      else m)

  -- A nil map reads as the empty one.
  abbrev pub ports_under : Client → NamespacedName → ℕ → LbAnswer → List (ℕ × Bool)
  ports_under c n port lb =
      if lb.locality
      then []
      else elim (c.service_import_by_key (namespaced_key (apex n.namespace n.name))) [
        | none ↦ []
        | some i ↦ add_all_ports lb i n port i.ports []
      ]

  unfoldable pub get_target_port_for_service_port : Client → NamespacedName → ℕ → List (ℕ × Bool)
  unfolding add_all_ports get_lb_weight_for_service
  get_target_port_for_service_port c n port =
      ports_under c n port (get_lb_weight_for_service c (apex n.namespace n.name))
