-- ===== src/Catalog/Outbound/Policy.antt =====
-- What `GetOutboundMeshTrafficPolicy` builds, as a whole.
use osm_edge.Identity.{K8sServiceAccount, to_k8s_service_account}
use osm_edge.Service.{MeshService, fqdn, sidecar_cluster_name, outbound_traffic_match_name}
use osm_edge.Policy.Resources.{Egress, ObjectReference, RetryPolicySpec, UpstreamTrafficSetting}
use osm_edge.Policy.Client.{list_egress_policies_for_source_identity, get_upstream_traffic_setting}
use osm_edge.Policy.Client.Laws.{get_upstream_traffic_setting-returns}
use osm_edge.Smi.{list_traffic_splits, with_traffic_split_apex_service}
use osm_edge.SetLibrary.{SetLibrary}
use osm_edge.TrafficPolicy.Types.{
  TrafficMatch, HttpRouteMatchWithWeightedClusters, MeshClusterConfig, OutboundTrafficPolicy,
  OutboundMeshTrafficPolicy,
}
use osm_edge.Catalog.{MeshCatalog, get_dns_resolvable_service_endpoints}
use osm_edge.Catalog.Routes.{is_tcp, append_at}
use osm_edge.Catalog.Routes.Laws.{at, at-append_at}
use osm_edge.Catalog.Egress.{
  Externals, setting_from_matches, get_upstream_traffic_setting_for_egress,
}
use osm_edge.Catalog.EgressPolicy.{Collected, add_policy, add_policies, get_egress_traffic_policy}
use osm_edge.Catalog.Targets.{get_retry_policy, list_outbound_services_for_identity}
use osm_edge.Catalog.Outbound.{
  route_matches_for, destination_ip_ranges, outbound_traffic_match, outbound_round, outbound_rounds,
  retry_policy_for, enable_egress_service_for_identity, get_outbound_mesh_traffic_policy,
}
use osm_edge.Catalog.Outbound.Laws.{outbound_policy_for-succeeds}
use osm_edge.Base.{
  ℕ, String, Bool, true, false, not, ◌&&◌, Option, none, some, List, [], ◌∷◌, ◌++◌, map, ◌≡◌, refl,
  sym, ap, ◌∙◌, inl, inr, ◌==◌, nat_comparable, string_comparable, option_comparable,
  list_comparable, pair_comparable, if◌then◌else◌, Bool-cases, gather, keep, append_nil, map-append,
  append-step, map-if, map-keep, Run, returns, ◌>>=◌,
}

-- An HTTP service at the port.
abbrev pub is_http_at : ℕ → MeshService → Bool
is_http_at port svc = not (is_tcp svc) && (svc.port == port)

-- A run comes to a result.
abbrev Returns : {A : Type 0} → Run A → Type 0
Returns {A} run = (a : A) × (run ≡ returns a)

Returns-bind :
    {A B : Type 0} (run : Run A) (f : A → Run B)
    → Returns run
    → ((a : A) → Returns (f a))
    → Returns (run >>= f)
Returns-bind run f (a, e) h = ((h a).0, ap (λ r. r >>= f) e ∙ (h a).1)

Returns-if :
    {A : Type 0} (b : Bool) (x y : Run A) → Returns x → Returns y → Returns (if b then x else y)
Returns-if true x y h k = h
Returns-if false x y h k = k

setting_from_matches-Returns :
    (mc : MeshCatalog) (namespace : String) (ms : List ObjectReference)
    → Returns (setting_from_matches mc namespace ms)
unfolding setting_from_matches get_upstream_traffic_setting
setting_from_matches-Returns mc namespace [] = (some none, refl)
setting_from_matches-Returns mc namespace (m ∷ ms) =
    Returns-if _ _ _ (setting_from_matches-Returns mc namespace ms) (_, refl)

module _ (S : SetLibrary) (x : Externals) (mc : MeshCatalog) where
  add_policies-Returns :
      (sa : K8sServiceAccount) (ps : List Egress) (c : Collected S x)
      → Returns (add_policies S x mc sa c ps)
  unfolding add_policies get_upstream_traffic_setting_for_egress
  add_policies-Returns sa [] c = (c, refl)
  add_policies-Returns sa (p ∷ ps) c =
      Returns-bind (get_upstream_traffic_setting_for_egress mc p)
        (λ setting. add_policies S x mc sa (add_policy S x mc sa c p setting) ps)
        (setting_from_matches-Returns mc p.namespace p.matches)
        (λ setting. add_policies-Returns sa ps (add_policy S x mc sa c p setting))

  -- The egress policy of an identity that names an account always comes about, or an error.
  get_egress_traffic_policy-Returns :
      (si : String) (sa : K8sServiceAccount)
      → to_k8s_service_account si ≡ returns sa
      → Returns (get_egress_traffic_policy S x mc si)
  unfolding get_egress_traffic_policy
  get_egress_traffic_policy-Returns si sa h =
      Returns-if (not mc.settings.enable_egress_policy) _ _ (some none, refl)
        (Returns-bind (to_k8s_service_account si) _ (sa, h)
          (λ account.
            Returns-bind _ _
              (add_policies-Returns account
                (list_egress_policies_for_source_identity mc.policy_controller account)
                (record { traffic_matches = []; clusters_configs = []; routes = [] }))
              (λ collected. (_, refl))))

  enable_egress-Returns :
      (si : String) (sa : K8sServiceAccount) (svc : MeshService)
      → to_k8s_service_account si ≡ returns sa
      → Returns (enable_egress_service_for_identity S x mc si svc)
  unfolding enable_egress_service_for_identity
  enable_egress-Returns si sa svc h =
      Returns-if mc.settings.is_egress_enabled _ _ (true, refl)
        (Returns-bind (get_egress_traffic_policy S x mc si) _
          (get_egress_traffic_policy-Returns si sa h) (λ policy. (_, refl)))

  retry_policy_for-Returns :
      (si : String) (sa : K8sServiceAccount) (svc : MeshService)
      → to_k8s_service_account si ≡ returns sa
      → Returns (retry_policy_for mc si svc)
  unfolding retry_policy_for get_retry_policy
  retry_policy_for-Returns si sa svc h =
      Returns-if (is_tcp svc) _ _ (none, refl)
        (Returns-if (not mc.settings.enable_retry_policy) _ _ (none, refl)
          (Returns-bind (to_k8s_service_account si) _ (sa, h) (λ account. (_, refl))))

  abbrev pub match_names : List TrafficMatch → List String
  match_names ms = map (λ m. m.name) ms

  abbrev pub cluster_names : List MeshClusterConfig → List String
  cluster_names cs = map (λ c. c.name) cs

  abbrev pub policy_names : List (OutboundTrafficPolicy S) → List String
  policy_names ps = map (λ p. p.name) ps

  -- The names of the traffic matches of a service: one for each of its route matches.
  abbrev pub names_for : MeshService → List String
  names_for svc =
      let splits = list_traffic_splits mc.mesh_spec (with_traffic_split_apex_service svc) in
      map (λ m. outbound_traffic_match_name svc) (route_matches_for mc svc splits).0

  -- The result has what the start has, then what each service adds: a cluster, its traffic matches,
  -- and an HTTP policy at its port if it serves HTTP.
  pub record Extends (start : OutboundMeshTrafficPolicy S) (svcs : List MeshService)
      (result : OutboundMeshTrafficPolicy S) : Type 0 where
    pub clusters :
        cluster_names result.clusters_configs
        ≡ cluster_names start.clusters_configs ++ map sidecar_cluster_name svcs
    pub matches :
        match_names result.traffic_matches
        ≡ match_names start.traffic_matches ++ gather names_for svcs
    pub routes :
        (port : ℕ)
        → policy_names (at port result.http_route_configs_per_port)
          ≡ policy_names (at port start.http_route_configs_per_port)
            ++ map fqdn (keep (is_http_at port) svcs)

  names-map :
      (svc : MeshService) (ranges : List String) (ms : List HttpRouteMatchWithWeightedClusters)
      → match_names (map (outbound_traffic_match svc ranges) ms)
        ≡ map (λ m. outbound_traffic_match_name svc) ms
  names-map svc ranges [] = refl
  names-map svc ranges (m ∷ ms) =
      ap (λ l. outbound_traffic_match_name svc ∷ l) (names-map svc ranges ms)

  -- The policies at the ports after the service's policy, if there is one.
  abbrev add_policy_at :
      ℕ
      → List (ℕ × List (OutboundTrafficPolicy S))
      → Option (OutboundTrafficPolicy S)
      → List (ℕ × List (OutboundTrafficPolicy S))
  add_policy_at port m none = m
  add_policy_at port m (some p) = append_at port p m

  module _ (sa : K8sServiceAccount) (egress_enabled : Bool) where
    outbound_round-Extends :
        (start : OutboundMeshTrafficPolicy S) (svc : MeshService)
        (setting : Option UpstreamTrafficSetting) (retry : Option RetryPolicySpec)
        → Extends start (svc ∷ []) (outbound_round S mc sa egress_enabled start svc setting retry)
    unfolding outbound_round
    outbound_round-Extends start svc setting retry =
        let splits = list_traffic_splits mc.mesh_spec (with_traffic_split_apex_service svc) in
        let found = route_matches_for mc svc splits in
        let routes = start.http_route_configs_per_port in
        let built = outbound_policy_for-succeeds S mc sa svc retry found.0 found.1 in
        record {
          clusters = map-append (λ c. c.name) start.clusters_configs _;
          matches =
              map-append (λ m. m.name) start.traffic_matches _
              ∙ ap (λ l. match_names start.traffic_matches ++ l)
                  (names-map svc
                      (destination_ip_ranges S (get_dns_resolvable_service_endpoints mc svc))
                      found.0
                    ∙ sym (append_nil (names_for svc)));
          routes = λ port. elim (Bool-cases (is_tcp svc)) [
            | inl e ↦ rw e (sym (append_nil (policy_names (at port routes))))
            | inr e ↦ rw e (
                ap (λ o. policy_names (at port (add_policy_at svc.port routes o))) built.1
                ∙ (ap policy_names (at-append_at svc.port port built.0 routes)
                    ∙ (map-append (λ q. q.name) (at port routes) _
                        ∙ ap (λ l. policy_names (at port routes) ++ l)
                            (map-if (svc.port == port) (λ q. q.name) fqdn built.0 svc built.2))))
          ];
        }

  Extends-trans :
      {start middle end : OutboundMeshTrafficPolicy S} (svc : MeshService) (svcs : List MeshService)
      → Extends start (svc ∷ []) middle
      → Extends middle svcs end
      → Extends start (svc ∷ svcs) end
  Extends-trans {start} svc svcs a b = record {
    clusters = b.clusters ∙ append-step _ _ _ _ a.clusters;
    matches =
        b.matches
        ∙ (append-step _ _ _ _ a.matches
            ∙ ap (λ l. match_names start.traffic_matches ++ (l ++ gather names_for svcs))
                (append_nil (names_for svc)));
    routes = λ port.
        b.routes port
        ∙ (append-step _ _ _ _ (a.routes port)
            ∙ ap (λ l. policy_names (at port start.http_route_configs_per_port) ++ l)
                (map-keep fqdn (is_http_at port) svc svcs));
  }

  outbound_rounds-Extends :
      (si : String) (sa account : K8sServiceAccount) (svcs : List MeshService)
      (start : OutboundMeshTrafficPolicy S)
      → to_k8s_service_account si ≡ returns account
      → (result : OutboundMeshTrafficPolicy S) × (outbound_rounds S x mc si sa start svcs
          ≡ returns result)
        × Extends start svcs result
  unfolding outbound_rounds
  outbound_rounds-Extends si sa account [] start h = (
    start,
    refl,
    record {
      clusters = sym (append_nil (cluster_names start.clusters_configs));
      matches = sym (append_nil (match_names start.traffic_matches));
      routes = λ port. sym (append_nil (policy_names (at port start.http_route_configs_per_port)));
    },
  )
  outbound_rounds-Extends si sa account (svc ∷ svcs) start h =
      let egress = enable_egress-Returns si account svc h in
      let setting = get_upstream_traffic_setting-returns mc.policy_controller svc in
      let retry = retry_policy_for-Returns si account svc h in
      let next = outbound_round S mc sa egress.0 start svc setting.0 retry.0 in
      let rest = outbound_rounds-Extends si sa account svcs next h in
      (
        rest.0,
        simp (egress.1, setting.1, retry.1) rest.1,
        Extends-trans svc svcs (outbound_round-Extends sa egress.0 start svc setting.0 retry.0)
            rest.2,
      )

  abbrev pub empty_policy : OutboundMeshTrafficPolicy S
  empty_policy = record {
    traffic_matches = [];
    http_route_configs_per_port = [];
    clusters_configs = [];
    services_resolvable_set = [];
  }

  -- The outbound policy of an identity that names an account always comes about. For the services
  -- that the identity may use, in order, it has a cluster each, a traffic match for each of their
  -- route matches, and at each port an HTTP policy for each of them that serves HTTP there.
  pub get_outbound_mesh_traffic_policy-Extends :
      (downstream : String) (sa : K8sServiceAccount)
      → to_k8s_service_account downstream ≡ returns sa
      → (services : List MeshService) × (result : OutboundMeshTrafficPolicy S)
        × (list_outbound_services_for_identity S mc downstream ≡ returns services)
        × (get_outbound_mesh_traffic_policy S x mc downstream ≡ returns result)
        × Extends empty_policy services result
  unfolding get_outbound_mesh_traffic_policy list_outbound_services_for_identity
  get_outbound_mesh_traffic_policy-Extends downstream sa h =
      let services : Returns (list_outbound_services_for_identity S mc downstream) =
        Returns-if mc.settings.is_permissive_traffic_policy_mode _ _ (_, refl)
          (Returns-bind (to_k8s_service_account downstream) _ (sa, h) (λ account. (_, refl))) in
      let built = outbound_rounds-Extends downstream sa sa services.0 empty_policy h in
      (
        services.0,
        built.0,
        services.1,
        ap
              (λ run. run >>= (λ account.
                list_outbound_services_for_identity S mc downstream
                >>= (λ svcs. outbound_rounds S x mc downstream account empty_policy svcs)))
              h
            ∙ (ap (λ run. run >>= (λ svcs. outbound_rounds S x mc downstream sa empty_policy svcs))
                  services.1
                ∙ built.1),
        built.2,
      )
