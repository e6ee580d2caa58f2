-- ===== src/Catalog/Export/Laws.antt =====
-- Whom the export policy of pkg/catalog/multi_cluster.go lets in.
use osm_edge.Service.{MeshService}
use osm_edge.SetLibrary.{SetLibrary}
use osm_edge.Multicluster as Multicluster
use osm_edge.Multicluster.{
  Condition, ServiceExportRule, ServiceExport, rules_out, get_exported_rule,
}
use osm_edge.Catalog.{MeshCatalog, list_endpoints_for_service}
use osm_edge.Catalog.Egress.{Externals}
use osm_edge.Catalog.Sources.{cidr}
use osm_edge.Catalog.Export.Rules.{IsExportedBy, exported_iff}
use osm_edge.Catalog.Export.{export_policy, get_export_traffic_policy}
use osm_edge.TrafficPolicy.Types.{ServiceExportTrafficPolicy}
use osm_edge.Base.{
  String, Bool, none, some, List, ◌≡◌, refl, sym, ap, ◌∙◌, ◌↔◌, inl, inr, ◌==◌, nat_comparable,
  bool_comparable, string_comparable, option_comparable, list_comparable, pair_comparable,
  Option-cases, some_inj, any,
}

module _ (S : SetLibrary) (x : Externals) (mc : MeshCatalog) where
  -- A range is the address of an endpoint of an ingress controller.
  abbrev pub is_controller_range : String → List MeshService → Bool
  is_controller_range range ss =
      any (λ s. any (λ ep. cidr ep == range) (list_endpoints_for_service mc s)) ss

  -- A service has an export policy exactly when there is an export of its name, no condition of
  -- which says that it is not valid or in conflict, with a rule for the service's port; the policy is
  -- then the one for the first such rule.
  pub get_export_traffic_policy-some_iff :
      (c : Multicluster.Client) (svc : MeshService) (policy : ServiceExportTrafficPolicy S)
      → (get_export_traffic_policy S x mc c svc ≡ some policy) ↔ (
          (rule : ServiceExportRule) × IsExportedBy c svc rule
          × (policy ≡ export_policy S x mc c svc rule))
  unfolding get_export_traffic_policy
  get_export_traffic_policy-some_iff c svc policy = elim (Option-cases (get_exported_rule c svc)) [
    | inl e ↦ (
      λ h.
          absurd (
            let clash : none ≡ some policy = sym (rw (e, get_export_traffic_policy) refl) ∙ h in
            cc),
      λ (rule, exported, same).
          absurd (let found = (exported_iff c svc rule).1 exported in let missing = e in cc),
    )
    | inr (rule, e) ↦ (
      λ h. (
        rule,
        (exported_iff c svc rule).0 e,
        sym (some_inj (sym (rw (e, get_export_traffic_policy) refl) ∙ h)),
      ),
      λ (other, exported, same).
          rw ((exported_iff c svc other).1 exported, get_export_traffic_policy)
            (ap some (sym same)),
    )
  ]
