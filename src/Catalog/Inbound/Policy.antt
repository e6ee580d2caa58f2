-- ===== src/Catalog/Inbound/Policy.antt =====
-- What `GetInboundMeshTrafficPolicy` builds, as a whole.
use osm_edge.Base.Sets.{contains-of_slice, of_slice}
use osm_edge.Identity.{K8sServiceAccount, to_k8s_service_account}
use osm_edge.Service.{MeshService, fqdn, inbound_traffic_match_name, service_comparable}
use osm_edge.Policy.Resources.{UpstreamTrafficSetting}
use osm_edge.Smi.{list_traffic_targets}
use osm_edge.Smi.Resources.{TrafficTarget}
use osm_edge.SetLibrary.{SetLibrary}
use osm_edge.TrafficPolicy.Types.{InboundTrafficPolicy, InboundMeshTrafficPolicy, TrafficMatch}
use osm_edge.TrafficPolicy.Rules.{new_inbound_traffic_policy}
use osm_edge.Catalog.{MeshCatalog}
use osm_edge.Catalog.Routes.{is_tcp}
use osm_edge.Policy.Client.Laws.{get_upstream_traffic_setting-returns}
use osm_edge.Catalog.Routes.Laws.{at, at-append_at}
use osm_edge.Catalog.Inbound.{
  targets_for, get_inbound_traffic_policies_for_upstream, get_upstream_services_include_apex,
  inbound_cluster_config, inbound_traffic_match, inbound_round, inbound_rounds,
  get_inbound_mesh_traffic_policy,
}
use osm_edge.Base.{
  ℕ, String, Bool, not, ◌&&◌, Option, List, [], ◌∷◌, ◌++◌, map, ◌≡◌, refl, sym, ap, ◌∙◌, inl, inr,
  ◌==◌, nat_comparable, string_comparable, option_comparable, list_comparable, pair_comparable,
  Bool-cases, keep, append_nil, map-append, keep-cong, append-step, append-if, map-if, map-keep,
  elem, returns, ◌>>=◌,
}

-- An HTTP service with the target port.
abbrev pub serves_http_at : ℕ → MeshService → Bool
serves_http_at port svc = not (is_tcp svc) && (svc.target_port == port)

module _ (S : SetLibrary) (mc : MeshCatalog) where
  abbrev pub match_names : List TrafficMatch → List String
  match_names ms = map (λ m. m.name) ms

  abbrev pub policy_names : List (InboundTrafficPolicy S) → List String
  policy_names ps = map (λ p. p.name) ps

  -- The result has what the start has, then what each service adds: a cluster, a traffic match if
  -- it passes the test, and an HTTP policy at its target port if it serves HTTP.
  pub record Extends (start : InboundMeshTrafficPolicy S) (is_given : MeshService → Bool)
      (svcs : List MeshService) (result : InboundMeshTrafficPolicy S) : Type 0 where
    pub clusters :
        result.clusters_configs ≡ start.clusters_configs ++ map (inbound_cluster_config S) svcs
    pub matches :
        match_names result.traffic_matches
        ≡ match_names start.traffic_matches ++ map inbound_traffic_match_name (keep is_given svcs)
    pub routes :
        (port : ℕ)
        → policy_names (at port result.http_route_configs_per_port)
          ≡ policy_names (at port start.http_route_configs_per_port)
            ++ map fqdn (keep (serves_http_at port) svcs)

  module _ (permissive : Bool) (targets : List TrafficTarget) (given : S.services.Carrier) where
    name-policy_for :
        (svc : MeshService) (setting : Option UpstreamTrafficSetting)
        → (get_inbound_traffic_policies_for_upstream S mc svc permissive targets setting).name
          ≡ fqdn svc
    unfolding get_inbound_traffic_policies_for_upstream new_inbound_traffic_policy
    name-policy_for svc setting = elim (Bool-cases permissive) [ inl e ↦ rw e | inr e ↦ rw e ]

    inbound_round-Extends :
        (start : InboundMeshTrafficPolicy S) (svc : MeshService)
        (setting : Option UpstreamTrafficSetting)
        → Extends start
            (S.services.contains given)
            (svc ∷ [])
            (inbound_round S mc permissive targets given start svc setting)
    unfolding inbound_round
    inbound_round-Extends start svc setting = record {
      clusters = refl;
      matches =
          ap match_names (
            append-if (S.services.contains given svc) start.traffic_matches
              (inbound_traffic_match S svc setting))
          ∙ (map-append (λ m. m.name) start.traffic_matches _
              ∙ ap (λ l. match_names start.traffic_matches ++ l)
                  (map-if (S.services.contains given svc) (λ m. m.name) inbound_traffic_match_name
                    (inbound_traffic_match S svc setting) svc refl));
      routes = λ port. elim (Bool-cases (is_tcp svc)) [
        | inl e ↦ rw e (sym (append_nil (policy_names (at port start.http_route_configs_per_port))))
        | inr e ↦ rw e (
            let p = get_inbound_traffic_policies_for_upstream S mc svc permissive targets setting in
            ap policy_names (at-append_at svc.target_port port p start.http_route_configs_per_port)
            ∙ (map-append (λ q. q.name) (at port start.http_route_configs_per_port) _
                ∙ ap (λ l. policy_names (at port start.http_route_configs_per_port) ++ l)
                    (map-if (svc.target_port == port) (λ q. q.name) fqdn p svc
                      (name-policy_for svc setting))))
      ];
    }

    Extends-trans :
        {start middle end : InboundMeshTrafficPolicy S} (svc : MeshService)
        (svcs : List MeshService)
        → Extends start (S.services.contains given) (svc ∷ []) middle
        → Extends middle (S.services.contains given) svcs end
        → Extends start (S.services.contains given) (svc ∷ svcs) end
    Extends-trans {start} svc svcs a b = record {
      clusters = b.clusters ∙ append-step _ _ _ _ a.clusters;
      matches =
          b.matches
          ∙ (append-step _ _ _ _ a.matches
              ∙ ap (λ l. match_names start.traffic_matches ++ l)
                  (map-keep inbound_traffic_match_name (S.services.contains given) svc svcs));
      routes = λ port.
          b.routes port
          ∙ (append-step _ _ _ _ (a.routes port)
              ∙ ap (λ l. policy_names (at port start.http_route_configs_per_port) ++ l)
                  (map-keep fqdn (serves_http_at port) svc svcs));
    }

    inbound_rounds-Extends :
        (svcs : List MeshService) (start : InboundMeshTrafficPolicy S)
        → (result : InboundMeshTrafficPolicy S) × (inbound_rounds S mc permissive targets given
              start svcs
            ≡ returns result)
          × Extends start (S.services.contains given) svcs result
    unfolding inbound_rounds
    inbound_rounds-Extends [] start = (
      start,
      refl,
      record {
        clusters = sym (append_nil start.clusters_configs);
        matches = sym (append_nil (match_names start.traffic_matches));
        routes =
            λ port. sym (append_nil (policy_names (at port start.http_route_configs_per_port)));
      },
    )
    inbound_rounds-Extends (svc ∷ svcs) start =
        let found = get_upstream_traffic_setting-returns mc.policy_controller svc in
        let next = inbound_round S mc permissive targets given start svc found.0 in
        let rest = inbound_rounds-Extends svcs next in
        (
          rest.0,
          ap
                (λ run. run >>= (λ setting.
                  inbound_rounds S mc permissive targets given
                    (inbound_round S mc permissive targets given start svc setting) svcs))
                found.1
              ∙ rest.1,
          Extends-trans svc svcs (inbound_round-Extends start svc found.0) rest.2,
        )

  targets_for-returns :
      (upstream : String) (sa : K8sServiceAccount)
      → to_k8s_service_account upstream ≡ returns sa
      → (ts : List TrafficTarget) × (targets_for S mc upstream ≡ returns ts)
  unfolding targets_for
  targets_for-returns upstream sa h =
      elim (Bool-cases mc.settings.is_permissive_traffic_policy_mode) [
        | inl e ↦ ([], rw e)
        | inr e ↦ (list_traffic_targets mc.mesh_spec sa, rw (e, h))
      ]

  -- The inbound policy of an identity that names an account always comes about. It has a cluster for
  -- each upstream service with the apexes, in order; a traffic match for exactly those that were
  -- given, not for the apexes; and at each port an HTTP policy for each that serves HTTP there.
  pub get_inbound_mesh_traffic_policy-Extends :
      (upstream : String) (sa : K8sServiceAccount) (svcs : List MeshService)
      → to_k8s_service_account upstream ≡ returns sa
      → (result : InboundMeshTrafficPolicy S) × (get_inbound_mesh_traffic_policy S mc upstream svcs
          ≡ returns result)
        × Extends
            (record {
              traffic_matches = [];
              http_route_configs_per_port = [];
              clusters_configs = [];
            })
            (λ s. elem s svcs)
            (get_upstream_services_include_apex S mc svcs)
            result
  unfolding get_inbound_mesh_traffic_policy
  get_inbound_mesh_traffic_policy-Extends upstream sa svcs h =
      let targets = targets_for-returns upstream sa h in
      let permissive = mc.settings.is_permissive_traffic_policy_mode in
      let given = of_slice S.services svcs in
      let all_services = get_upstream_services_include_apex S mc svcs in
      let start : InboundMeshTrafficPolicy S = record {
        traffic_matches = [];
        http_route_configs_per_port = [];
        clusters_configs = [];
      } in
      let built = inbound_rounds-Extends permissive targets.0 given all_services start in
      (
        built.0,
        ap (λ run. run >>= (λ ts. inbound_rounds S mc permissive ts given start all_services))
              targets.1
            ∙ built.1,
        record {
          clusters = built.2.clusters;
          matches =
              built.2.matches
              ∙ ap (map inbound_traffic_match_name) (
                  keep-cong (S.services.contains given) (λ s. elem s svcs) all_services
                    (contains-of_slice S.services svcs));
          routes = built.2.routes;
        },
      )
