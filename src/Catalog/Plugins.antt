-- ===== src/Catalog/Plugins.antt =====
-- pkg/catalog/plugin.go over the lists of pkg/plugin/client.go: the plugins that the proxies load. The
-- specifications of configurations and chains are passed on as they are.
use osm_edge.Base.{
  String, Bool, false, not, Option, none, some, List, [], map, nat_comparable, bool_comparable,
  string_comparable, option_comparable, list_comparable, pair_comparable, if◌then◌else◌,
}

-- `Plugin` of pkg/apis/plugin/v1alpha1; the priority, a 32-bit float that is only passed on, is its
-- text, and one that is left out is zero.
pub record PluginResource : Type 0 where
  pub namespace : String
  pub name : String
  pub priority : Option String
  pub script : String

pub record PluginPolicy : Type 0 where
  pub name : String
  pub priority : String
  pub script : String
  pub build_in : Bool

pub record Named (A : Type 0) : Type 0 where
  pub namespace : String
  pub name : String
  pub spec : A

abbrev plugin_policy : PluginResource → PluginPolicy
plugin_policy p = record {
  name = p.name;
  priority = elim p.priority [ none ↦ "0" | some priority ↦ priority ];
  script = p.script;
  build_in = false;
}

unfoldable pub get_plugins : Bool → List PluginResource → List PluginPolicy
get_plugins enable_plugin_policy plugins =
    if not enable_plugin_policy then [] else map plugin_policy plugins

abbrev listed : {A : Type 0} → Named A → Named A
listed p = record { namespace = p.namespace; name = p.name; spec = p.spec }

unfoldable pub get_plugin_configs : {A : Type 0} → Bool → List (Named A) → List (Named A)
get_plugin_configs enable_plugin_policy configs =
    if not enable_plugin_policy then [] else map listed configs

unfoldable pub get_plugin_chains : {A : Type 0} → Bool → List (Named A) → List (Named A)
get_plugin_chains enable_plugin_policy chains =
    if not enable_plugin_policy then [] else map listed chains
