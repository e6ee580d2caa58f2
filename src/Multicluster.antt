-- ===== src/Multicluster.antt =====
-- pkg/multicluster over the resources of pkg/apis/multicluster/v1alpha1: the traffic policies of
-- services of other clusters, exported services and ingress controllers (traffic_policy.go,
-- service_export.go, ingress_class.go). The lookups of the informers' stores do not fail.
pub mod Imports
pub mod Keys
pub mod Laws
use osm_edge.Service.{MeshService, namespaced_key}
use osm_edge.Base.{
  ℕ, ◌%◌, ◌^◌, String, Bool, true, false, not, ◌&&◌, ◌||◌, Option, none, some, List, [], ◌∷◌, ◌==◌,
  nat_comparable, bool_comparable, string_comparable, option_comparable, list_comparable,
  pair_comparable, if◌then◌else◌, any, gather, find?, lookup, insert,
}

pub record ServiceExportRule : Type 0 where
  pub port_number : ℕ
  pub path : String

-- `metav1.Condition`: its type and its status.
pub record Condition : Type 0 where
  pub type : String
  pub status : String

pub record ServiceExport : Type 0 where
  pub rules : List ServiceExportRule
  pub conditions : List Condition

pub record Target : Type 0 where
  pub host : String
  pub ip : String
  pub port : ℕ
  pub path : String

pub record ImportEndpoint : Type 0 where
  pub target : Target
  pub cluster_key : String

pub record ServicePort : Type 0 where
  pub name : String
  pub protocol : String
  pub app_protocol : Option String
  pub port : ℕ
  pub endpoints : List ImportEndpoint

pub record ServiceImport : Type 0 where
  pub uid : String
  pub namespace : String
  pub name : String
  pub ports : List ServicePort
  pub service_account_name : String

pub record TrafficTarget : Type 0 where
  pub cluster_key : String
  pub weight : Option ℕ

pub record GlobalTrafficPolicy : Type 0 where
  pub lb_type : String
  pub load_balance_target : List TrafficTarget

abbrev pub active_active_lb_type : String
active_active_lb_type = "ActiveActive"

abbrev pub locality_lb_type : String
locality_lb_type = "Locality"

abbrev pub fail_over_lb_type : String
fail_over_lb_type = "FailOver"

-- What the informers hold; an ingress class is its annotations.
pub record Client : Type 0 where
  pub global_traffic_policy_by_key : String → Option GlobalTrafficPolicy
  pub service_export_by_key : String → Option ServiceExport
  pub service_import_by_key : String → Option ServiceImport
  pub service_imports : List ServiceImport
  pub ingress_classes : List (List (String × String))

unfoldable pub get_global_traffic_policy : Client → MeshService → Option GlobalTrafficPolicy
get_global_traffic_policy c svc = c.global_traffic_policy_by_key (namespaced_key svc)

unfoldable pub is_locality : Client → MeshService → Bool
unfolding get_global_traffic_policy
is_locality c svc = elim (get_global_traffic_policy c svc) [
  | none ↦ true
  | some p ↦ p.lb_type == locality_lb_type
]

-- A weight that is left out is 0.
abbrev pub target_weight : TrafficTarget → ℕ
target_weight t = elim t.weight [ none ↦ 0 | some w ↦ w ]

-- `clusterKeys`; without targets it is nil, which reads as the empty map.
unfoldable pub cluster_keys_of :
    (TrafficTarget → ℕ) → List (String × ℕ) → List TrafficTarget → List (String × ℕ)
cluster_keys_of weigh m [] = m
cluster_keys_of weigh m (t ∷ ts) = cluster_keys_of weigh (insert t.cluster_key (weigh t) m) ts

pub record ServiceTrafficPolicy : Type 0 where
  pub lb_type : String
  pub cluster_keys : List (String × ℕ)

unfoldable pub get_service_traffic_policy : Client → MeshService → ServiceTrafficPolicy
unfolding get_global_traffic_policy cluster_keys_of
get_service_traffic_policy c svc = elim (get_global_traffic_policy c svc) [
  | none ↦ record { lb_type = locality_lb_type; cluster_keys = [] }
  | some p ↦ record {
    lb_type = p.lb_type;
    cluster_keys = cluster_keys_of target_weight [] p.load_balance_target;
  }
]

-- The five results of `GetLbWeightForService`.
pub record LbAnswer : Type 0 where
  pub active_active : Bool
  pub fail_over : Bool
  pub locality : Bool
  pub weight : ℕ
  pub cluster_keys : List (String × ℕ)

abbrev pub locality_answer : LbAnswer
locality_answer = record {
  active_active = false;
  fail_over = false;
  locality = true;
  weight = 0;
  cluster_keys = [];
}

abbrev pub active_answer : ℕ → List (String × ℕ) → LbAnswer
active_answer weight keys = record {
  active_active = true;
  fail_over = false;
  locality = false;
  weight = weight;
  cluster_keys = keys;
}

-- The loop over the targets ends at the first that is the service's cluster.
abbrev pub active_of : String → List TrafficTarget → LbAnswer
active_of uid [] = active_answer 0 []
active_of uid (t ∷ ts) =
    if uid == t.cluster_key
    then active_answer (target_weight t) ((t.cluster_key, target_weight t) ∷ [])
    else active_of uid ts

-- `ClusterWeightAcceptAll` is 100, `ClusterWeightFailOver` is 0.
abbrev pub active_or_all : String → List TrafficTarget → LbAnswer
active_or_all uid [] = active_answer 100 []
active_or_all uid (t ∷ ts) = active_of uid (t ∷ ts)

unfoldable pub get_lb_weight_for_service : Client → MeshService → LbAnswer
unfolding get_global_traffic_policy cluster_keys_of
get_lb_weight_for_service c svc = elim (get_global_traffic_policy c svc) [
  | none ↦ locality_answer
  | some p ↦
      if p.lb_type == active_active_lb_type
      then active_or_all svc.service_import_uid p.load_balance_target
      else if p.lb_type == fail_over_lb_type
      then record {
        active_active = false;
        fail_over = true;
        locality = false;
        weight = 0;
        cluster_keys = cluster_keys_of (λ t. 0) [] p.load_balance_target;
      }
      else locality_answer
]

-- A condition that rules an export out.
abbrev pub rules_out : Condition → Bool
rules_out k =
    ((k.type == "Valid") && not (k.status == "True"))
    || ((k.type == "Conflict") && not (k.status == "False"))

unfoldable pub get_exported_rule : Client → MeshService → Option ServiceExportRule
get_exported_rule c svc = elim (c.service_export_by_key (namespaced_key svc)) [
  | none ↦ none
  | some e ↦
      if any rules_out e.conditions
      then none
      else find? (λ rule. (rule.port_number % 2 ^ 16) == svc.port) e.rules
]

-- An annotation that is there and is not empty.
abbrev pub annotation : String → List (String × String) → Option String
annotation key m = elim (lookup key m) [ none ↦ none | some v ↦ if v == "" then none else some v ]

abbrev or_else : Option String → Option String → Option String
or_else none other = other
or_else (some v) other = some v

-- The first namespace of the three.
abbrev pub controller_namespace : List (String × String) → Option String
controller_namespace m = or_else (annotation "meta.flomesh.io/fsm-namespace" m) (
    or_else (annotation "meta.flomesh.io/erie-canal-namespace" m)
      (annotation "meta.flomesh.io/namespace" m))

abbrev pub controller_service : List (String × String) → List MeshService
controller_service m = elim (controller_namespace m) [
  | none ↦ []
  | some namespace ↦ elim (annotation "meta.flomesh.io/ingress-pipy-svc" m) [
    | none ↦ []
    | some name ↦
        record {
          namespace = namespace;
          name = name;
          port = 0;
          target_port = 0;
          protocol = "";
          service_import_uid = "";
        }
        ∷ []
  ]
]

unfoldable pub get_ingress_controller_services : Client → List MeshService
get_ingress_controller_services c = gather controller_service c.ingress_classes
