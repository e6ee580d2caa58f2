-- ===== src/Multicluster/Laws.antt =====
-- Which clusters the answers of pkg/multicluster/service_import.go come from.
use osm_edge.Service.{MeshService, namespaced_key}
use osm_edge.K8s.Hostname.{NamespacedName}
use osm_edge.Multicluster.{
  Client, ImportEndpoint, ServicePort, ServiceImport, TrafficTarget, GlobalTrafficPolicy, LbAnswer,
  ServiceTrafficPolicy, active_active_lb_type, locality_lb_type, target_weight, cluster_keys_of,
  get_global_traffic_policy, get_service_traffic_policy, get_lb_weight_for_service, active_answer,
  active_of, active_or_all,
}
use osm_edge.Multicluster.Imports.{
  is_empty, Endpoints, apex, subset, weight_in, has_target, extended, add_subsets, is_selected,
  add_ports, is_endpoint_port, endpoints_of, endpoints_under, ports_under, get_endpoints,
  add_all_ports, get_target_port_for_service_port,
}
use osm_edge.Multicluster.Keys.{is_listed, is_selected-cluster_keys_of, weight_in-is_selected}
use osm_edge.Base.{
  not, ◌||◌, arith, length, Option, ℕ, ◌%◌, ◌^◌, String, Bool, true, false, ◌&&◌, none, some, List,
  [], ◌∷◌, ◌++◌, map, ◌≡◌, refl, sym, ap, ◌∙◌, inl, inr, ◌==◌, nat_comparable, bool_comparable,
  string_comparable, option_comparable, list_comparable, pair_comparable, if◌then◌else◌, Bool-cases,
  Option-cases, is_some, any, keep, append_assoc, append_nil, keep-cong, find?, All, lookup, insert,
  lookup-insert,
}

module _ (policy : ServiceTrafficPolicy) (svc : MeshService) (p : ServicePort) where
  abbrev is_taken : ImportEndpoint → Bool
  is_taken e = has_target svc e && is_selected policy.cluster_keys e

  extended-subsets :
      (e : ImportEndpoint) (es : Endpoints)
      → (extended policy.lb_type p e (weight_in policy.cluster_keys e) es).subsets
        ≡ es.subsets ++ map (subset p) (keep (is_selected policy.cluster_keys) (e ∷ []))
  extended-subsets e es = elim (Option-cases (weight_in policy.cluster_keys e)) [
    | inl n ↦
        rw (n, sym (weight_in-is_selected policy.cluster_keys e) ∙ ap is_some n)
          (sym (append_nil es.subsets))
    | inr (w, s) ↦ rw (s, sym (weight_in-is_selected policy.cluster_keys e) ∙ ap is_some s) refl
  ]

  extended-same_names :
      (o : Option ℕ) (e : ImportEndpoint) (es : Endpoints)
      → ((extended policy.lb_type p e o es).namespace ≡ es.namespace)
        × ((extended policy.lb_type p e o es).name ≡ es.name)
  extended-same_names none e es = (refl, refl)
  extended-same_names (some weight) e es = (refl, refl)

  add_subsets-same_names :
      (xs : List ImportEndpoint) (es : Endpoints)
      → ((add_subsets policy svc p xs es).namespace ≡ es.namespace)
        × ((add_subsets policy svc p xs es).name ≡ es.name)
  unfolding add_subsets
  add_subsets-same_names [] es = (refl, refl)
  add_subsets-same_names (e ∷ xs) es =
      let grown : Bool → Endpoints =
        λ b. if b then extended policy.lb_type p e (weight_in policy.cluster_keys e) es else es in
      let rest = add_subsets-same_names xs (grown (has_target svc e)) in
      let one = extended-same_names (weight_in policy.cluster_keys e) e es in
      elim (Bool-cases (has_target svc e)) [
        | inl t ↦ (
          rest.0 ∙ ap (λ b. (grown b).namespace) t ∙ one.0,
          rest.1 ∙ ap (λ b. (grown b).name) t ∙ one.1,
        )
        | inr f ↦ (rest.0 ∙ ap (λ b. (grown b).namespace) f, rest.1 ∙ ap (λ b. (grown b).name) f)
      ]

  add_subsets-subsets :
      (xs : List ImportEndpoint) (es : Endpoints)
      → (add_subsets policy svc p xs es).subsets ≡ es.subsets ++ map (subset p) (keep is_taken xs)
  unfolding add_subsets
  add_subsets-subsets [] es = sym (append_nil es.subsets)
  add_subsets-subsets (e ∷ xs) es =
      let grown = λ (b : Bool).
        if b then extended policy.lb_type p e (weight_in policy.cluster_keys e) es else es in
      elim (Bool-cases (has_target svc e)) [
        | inr f ↦
            ap (λ b. (add_subsets policy svc p xs (grown b)).subsets) f
            ∙ rw f (add_subsets-subsets xs es)
        | inl h ↦
            ap (λ b. (add_subsets policy svc p xs (grown b)).subsets) h
            ∙ rw h (
                add_subsets-subsets xs
                  (extended policy.lb_type p e (weight_in policy.cluster_keys e) es)
                ∙ ap (λ s. s ++ map (subset p) (keep is_taken xs)) (extended-subsets e es)
                ∙ elim (Bool-cases (is_selected policy.cluster_keys e)) [
                  | inl s ↦ rw s (
                      append_assoc es.subsets (subset p e ∷ []) (map (subset p) (keep is_taken xs)))
                  | inr f ↦
                      rw f
                        (ap (λ s. s ++ map (subset p) (keep is_taken xs)) (append_nil es.subsets))
                ])
      ]

same_either : {A : Type 0} {a : A} (b : Bool) → (if b then a else a) ≡ a
same_either true = refl
same_either false = refl

module _ (add : LbAnswer) where
  abbrev opens : ℕ → ImportEndpoint → Bool
  opens t e = is_selected add.cluster_keys e && ((e.target.port % 2 ^ 16) == t)

  lookup-add_ports :
      (t : ℕ) (es : List ImportEndpoint) (m : List (ℕ × Bool))
      → lookup t (add_ports add es m)
        ≡ (if any (opens t) es then some add.active_active else lookup t m)
  unfolding add_ports
  lookup-add_ports t [] m = refl
  lookup-add_ports t (e ∷ es) m = elim (Bool-cases (is_selected add.cluster_keys e)) [
    | inr f ↦ rw f (lookup-add_ports t es m)
    | inl s ↦
        rw
          (
            s,
            lookup-add_ports t es (insert (e.target.port % 2 ^ 16) add.active_active m),
            lookup-insert (e.target.port % 2 ^ 16) t add.active_active m,
          )
          (elim (Bool-cases ((e.target.port % 2 ^ 16) == t)) [
            | inl k ↦ rw k (same_either (any (opens t) es))
            | inr k ↦ rw k refl
          ])
  ]

get_service_traffic_policy-some :
    (c : Client) (svc : MeshService) (policy : GlobalTrafficPolicy)
    → c.global_traffic_policy_by_key (namespaced_key svc) ≡ some policy
    → get_service_traffic_policy c svc ≡ record {
      lb_type = policy.lb_type;
      cluster_keys = cluster_keys_of target_weight [] policy.load_balance_target;
    }
unfolding get_service_traffic_policy get_global_traffic_policy
get_service_traffic_policy-some c svc policy found =
    rw (found, get_service_traffic_policy, get_global_traffic_policy) refl

active_of-unnamed :
    (ts : List TrafficTarget)
    → All (λ t. ("" == t.cluster_key) ≡ false) ts
    → active_of "" ts ≡ active_answer 0 []
active_of-unnamed [] a = refl
active_of-unnamed (t ∷ ts) a = rw a.0 (active_of-unnamed ts a.1)

active_or_all-unnamed :
    (ts : List TrafficTarget)
    → All (λ t. ("" == t.cluster_key) ≡ false) ts
    → (weight : ℕ) × (active_or_all "" ts ≡ active_answer weight [])
active_or_all-unnamed [] a = (100, refl)
active_or_all-unnamed (t ∷ ts) a = (0, active_of-unnamed (t ∷ ts) a)

get_lb_weight_for_service-active_active :
    (c : Client) (namespace name : String) (policy : GlobalTrafficPolicy)
    → c.global_traffic_policy_by_key (namespaced_key (apex namespace name)) ≡ some policy
    → (policy.lb_type == active_active_lb_type) ≡ true
    → All (λ t. ("" == t.cluster_key) ≡ false) policy.load_balance_target
    → (weight : ℕ) × (get_lb_weight_for_service c (apex namespace name) ≡ active_answer weight [])
unfolding get_lb_weight_for_service get_global_traffic_policy
get_lb_weight_for_service-active_active c namespace name policy found active a =
    let (weight, all_active) = active_or_all-unnamed policy.load_balance_target a in
    (weight, rw (found, active, get_lb_weight_for_service, get_global_traffic_policy) all_active)

module _ (equal_fold : String → String → Bool) (c : Client) where
  -- A port of an import is for a service: the names agree but for case, the port is the service's, or
  -- the service has none, and it has endpoints.
  abbrev pub serves : ServiceImport → MeshService → ServicePort → Bool
  serves i svc q =
      equal_fold i.name svc.name
      && ((svc.port == 0) || (svc.port == (q.port % 2 ^ 16)))
      && not (length q.endpoints == 0)

  -- An endpoint has the service's target port, or the service has none.
  abbrev pub is_targeted : MeshService → ImportEndpoint → Bool
  is_targeted svc e = (svc.target_port == 0) || (svc.target_port == (e.target.port % 2 ^ 16))

  serves-is_endpoint_port :
      (i : ServiceImport) (svc : MeshService) (q : ServicePort)
      → is_endpoint_port equal_fold i svc q ≡ serves i svc q
  serves-is_endpoint_port i svc q =
      ap
        (λ b.
          equal_fold i.name svc.name
          && ((svc.port == 0) || (svc.port == (q.port % 2 ^ 16)))
          && not b)
        (no_endpoints q.endpoints)
    where
      no_endpoints : (es : List ImportEndpoint) → is_empty es ≡ (length es == 0)
      no_endpoints [] = refl
      no_endpoints (e ∷ es) = ground arith

  find?-serves :
      (i : ServiceImport) (svc : MeshService) (earlier later : List ServicePort) (p : ServicePort)
      → All (λ q. serves i svc q ≡ false) earlier
      → serves i svc p ≡ true
      → find? (is_endpoint_port equal_fold i svc) (earlier ++ p ∷ later) ≡ some p
  find?-serves i svc [] later p a h = rw (serves-is_endpoint_port i svc p ∙ h) refl
  find?-serves i svc (q ∷ earlier) later p a h =
      rw (serves-is_endpoint_port i svc q ∙ a.0) (find?-serves i svc earlier later p a.1 h)

  -- If there is a traffic policy of a service, which is not local, and an import under its key with a
  -- port for the service, that is one with endpoints and with the service's port, if it has one, where
  -- the import has the service's name up to case, then the endpoints of the service are those of the
  -- first such port, in order, that have the service's target port, if it has one, and whose cluster
  -- is a target of the policy, if it has targets. Each has its address, host and port, and the name
  -- and protocols of the port of the import.
  pub get_endpoints-listed :
      (svc : MeshService) (policy : GlobalTrafficPolicy) (i : ServiceImport)
      (earlier later : List ServicePort) (p : ServicePort)
      → c.global_traffic_policy_by_key (namespaced_key svc) ≡ some policy
      → (policy.lb_type == locality_lb_type) ≡ false
      → c.service_import_by_key (namespaced_key svc) ≡ some i
      → i.ports ≡ earlier ++ p ∷ later
      → All (λ q. serves i svc q ≡ false) earlier
      → serves i svc p ≡ true
      → (es : Endpoints) × (get_endpoints equal_fold c svc ≡ some es)
        × (es.namespace ≡ i.namespace)
        × (es.name ≡ i.name)
        × (es.subsets
            ≡ map
                (λ e. record {
                  ip = e.target.ip;
                  hostname = e.target.host;
                  name = p.name;
                  protocol = p.protocol;
                  app_protocol = p.app_protocol;
                  port = e.target.port;
                })
                (keep
                  (λ e. is_targeted svc e && is_listed policy.load_balance_target e)
                  p.endpoints))
  unfolding get_endpoints
  get_endpoints-listed svc policy i earlier later p found remote imported ports none_before first =
      let traffic : ServiceTrafficPolicy = record {
        lb_type = policy.lb_type;
        cluster_keys = cluster_keys_of target_weight [] policy.load_balance_target;
      } in
      let traffic_at : get_service_traffic_policy c svc ≡ traffic =
        get_service_traffic_policy-some c svc policy found in
      let nothing : Endpoints = record {
        namespace = i.namespace;
        name = i.name;
        annotations = [];
        subsets = [];
      } in
      let port : find? (is_endpoint_port equal_fold i svc) i.ports ≡ some p =
        ap (find? (is_endpoint_port equal_fold i svc)) ports
        ∙ find?-serves i svc earlier later p none_before first in
      let kept = add_subsets-same_names traffic svc p p.endpoints nothing in
      (
        add_subsets traffic svc p p.endpoints nothing,
        ap (endpoints_under equal_fold c svc) traffic_at
            ∙ rw (remote, imported, port, endpoints_of) refl,
        kept.0,
        kept.1,
        add_subsets-subsets traffic svc p p.endpoints nothing
            ∙ ap (map (subset p)) (
                keep-cong (λ e. has_target svc e && is_selected traffic.cluster_keys e)
                  (λ e. is_targeted svc e && is_listed policy.load_balance_target e) p.endpoints
                  (λ e.
                    ap (λ b. is_targeted svc e && b)
                      (is_selected-cluster_keys_of target_weight policy.load_balance_target e))),
      )

  module _ (lb : LbAnswer) (i : ServiceImport) (n : NamespacedName) (port : ℕ) where
    -- A port of an import has an endpoint that opens a target port.
    abbrev offers : ℕ → ServicePort → Bool
    offers t p =
        (equal_fold i.name n.name && ((p.port % 2 ^ 16) == port)) && any (opens lb t) p.endpoints

    lookup-add_all_ports :
        (t : ℕ) (ps : List ServicePort) (m : List (ℕ × Bool))
        → lookup t (add_all_ports equal_fold lb i n port ps m)
          ≡ (if any (offers t) ps then some lb.active_active else lookup t m)
    unfolding add_all_ports
    lookup-add_all_ports t [] m = refl
    lookup-add_all_ports t (p ∷ ps) m =
        elim (Bool-cases (equal_fold i.name n.name && ((p.port % 2 ^ 16) == port))) [
          | inr f ↦ rw f (lookup-add_all_ports t ps m)
          | inl s ↦
              rw
                (
                  s,
                  lookup-add_all_ports t ps (add_ports lb p.endpoints m),
                  lookup-add_ports lb t p.endpoints m,
                )
                (elim (Bool-cases (any (opens lb t) p.endpoints)) [
                  | inl k ↦ rw k (same_either (any (offers t) ps))
                  | inr k ↦ rw k refl
                ])
        ]

  -- If the traffic policy of a service is active-active and each of its targets names a cluster, the
  -- target ports for a port of the service are those of all endpoints of that port of the import, each
  -- with the mark for active-active: unlike the endpoints, they are not limited to the targets.
  pub get_target_port_for_service_port-active_active :
      (n : NamespacedName) (port t : ℕ) (policy : GlobalTrafficPolicy) (i : ServiceImport)
      → c.global_traffic_policy_by_key (namespaced_key (apex n.namespace n.name)) ≡ some policy
      → (policy.lb_type == active_active_lb_type) ≡ true
      → All (λ target. ("" == target.cluster_key) ≡ false) policy.load_balance_target
      → c.service_import_by_key (namespaced_key (apex n.namespace n.name)) ≡ some i
      → lookup t (get_target_port_for_service_port equal_fold c n port) ≡ (
          if any
            (λ p.
              (equal_fold i.name n.name && ((p.port % 2 ^ 16) == port))
              && any (λ e. (e.target.port % 2 ^ 16) == t) p.endpoints)
            i.ports
          then some true
          else none)
  unfolding get_target_port_for_service_port
  get_target_port_for_service_port-active_active n port t policy i found active a imported =
      let (weight, lb) =
        get_lb_weight_for_service-active_active c n.namespace n.name policy found active a in
      ap (λ answer. lookup t (ports_under equal_fold c n port answer)) lb
      ∙ rw imported (lookup-add_all_ports (active_answer weight []) i n port t i.ports [])
