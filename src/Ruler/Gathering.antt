-- ===== src/Ruler/Gathering.antt =====
-- The rule files that the sources of rules give: the loops of `getRuleConfigMaps` and
-- `getPrometheusRuleConfigMaps`, and `GenerateRuleFileContent`. The decoders, the encoders and the enforcer
-- are parameters.
use Prim.Native.String.{◌++◌ as concat, len, slice}
use thanos_operator.Common.{
  ◌-◌, String, List, [], ◌∷◌, ◌++◌, Option, none, some, Labels, insert, contains, if◌then◌else◌,
}
use thanos_operator.Manifests.Args.{has_suffix}
use thanos_operator.Ruler.Discovery.{RuleTenancyConfig}
use thanos_operator.Ruler.Tenancy.{
  RuleGroup, Tenant, no_tenant, tenant, empty_tenant, tenant_of, process_rule_groups_with_tenancy,
}

-- A ConfigMap and a PrometheusRule that were listed.
pub record RuleConfigMap : Type 0 where
  pub name : String
  pub labels : Labels
  -- `nil` is the empty map.
  pub data_ : Labels

pub record PrometheusRule (Rest : Type 0) : Type 0 where
  pub name : String
  pub labels : Labels
  pub groups : List (RuleGroup Rest)

-- A `ConfigMapKeySelector`: the names of a ConfigMap and of a key.
abbrev pub KeySelector : Type 0
KeySelector = String × String

-- `ruleConfigMaps`
pub record RuleConfigMaps : Type 0 where
  pub rule_key_selectors : List KeySelector
  pub tenants : List String

abbrev pub no_rules : RuleConfigMaps
no_rules = record { rule_key_selectors = []; tenants = [] }

-- What the loop over the sources has gathered: the tenants, in the order in which they were met, and the
-- files by their names.
pub record Gathered : Type 0 where
  pub tenants : List String
  pub files : Labels

-- A computation on the server: a result, an error, or a panic.
pub data Attempt (S R : Type 0) : Type 0 where
  success : S → R → Attempt S R
  failure : S → String → Attempt S R
  panicking : S → Attempt S R

unfoldable pub and_attempt : {S R Q : Type 0} → Attempt S R → (S → R → Attempt S Q) → Attempt S Q
and_attempt (success s r) f = f s r
and_attempt (failure s e) f = failure s e
and_attempt (panicking s) f = panicking s

-- `strings.TrimSuffix`
unfoldable pub trim_suffix : String → String → String
trim_suffix s suffix = if has_suffix s suffix then slice s 0 (len s - len suffix) else s

-- The libraries.
pub record RuleLibrary (Rest : Type 0) : Type 1 where
  pub Json : Type 0
  pub Data : Type 0
  pub marshal : List (RuleGroup Rest) → Option Json
  pub unmarshal : Json → Option Data
  pub to_yaml : Data → Option String
  -- `parseRuleFileContent`'s decoder.
  pub unmarshal_yaml : String → Option (List (RuleGroup Rest))
  pub enforce : String → String → String → Option String

module _ {Rest : Type 0} (library : RuleLibrary Rest) where
  unfoldable pub as_text : Option String → String
  as_text none = ""
  as_text (some content) = content

  unfoldable pub yaml_of : Option library.Data → String
  unfolding as_text
  yaml_of none = ""
  yaml_of (some data_) = as_text (library.to_yaml data_)

  unfoldable pub data_of : Option library.Json → String
  unfolding yaml_of
  data_of none = ""
  data_of (some json) = yaml_of (library.unmarshal json)

  unfoldable pub generate_rule_file_content : List (RuleGroup Rest) → String
  unfolding data_of
  generate_rule_file_content groups = data_of (library.marshal groups)

  unfoldable pub add_tenant : Tenant → List String → List String
  add_tenant no_tenant tenants = tenants
  add_tenant empty_tenant tenants = tenants
  add_tenant (tenant value) tenants =
      if contains tenants value then tenants else tenants ++ value ∷ []

  -- A source with a tenant that is not empty: its file is written, and its tenant remembered.
  unfoldable pub add_source :
      Option RuleTenancyConfig
      → Tenant
      → String
      → List (RuleGroup Rest)
      → Gathered
      → Option Gathered
  unfolding process_rule_groups_with_tenancy generate_rule_file_content add_tenant insert
  add_source config empty_tenant file groups g = none
  add_source config no_tenant file groups g = some (record g {
    files =
        insert file
          (generate_rule_file_content
            (process_rule_groups_with_tenancy library.enforce groups config ""))
          g.files;
  })
  add_source config (tenant value) file groups g = some (record {
    tenants = add_tenant (tenant value) g.tenants;
    files =
        insert file
          (generate_rule_file_content
            (process_rule_groups_with_tenancy library.enforce groups config value))
          g.files;
  })

  unfoldable pub user_file_name : String → String → String
  unfolding trim_suffix
  user_file_name name key =
      concat name (concat "-" (concat (trim_suffix (trim_suffix key ".yaml") ".yml") ".yaml"))

  -- A ConfigMap whose content cannot be parsed is skipped.
  unfoldable pub add_parsed :
      Option RuleTenancyConfig
      → RuleConfigMap
      → String
      → Option (List (RuleGroup Rest))
      → Gathered
      → Option Gathered
  unfolding add_source tenant_of user_file_name
  add_parsed config cm key none g = some g
  add_parsed config cm key (some groups) g =
      add_source config (tenant_of config cm.labels) (user_file_name cm.name key) groups g

  -- And so is one that has not exactly one entry.
  unfoldable pub add_data :
      Option RuleTenancyConfig → RuleConfigMap → Labels → Gathered → Option Gathered
  unfolding add_parsed
  add_data config cm [] g = some g
  add_data config cm ((key, content) ∷ []) g =
      add_parsed config cm key (library.unmarshal_yaml content) g
  add_data config cm (d ∷ e ∷ rest) g = some g

  unfoldable pub gather_user :
      Option RuleTenancyConfig → List RuleConfigMap → Gathered → Option Gathered
  unfolding add_data
  gather_user config [] g = some g
  gather_user config (cm ∷ cms) g = elim (add_data config cm cm.data_ g) [
    | none ↦ none
    | some g' ↦ gather_user config cms g'
  ]

  unfoldable pub gather_rules :
      Option RuleTenancyConfig → List (PrometheusRule Rest) → Gathered → Option Gathered
  unfolding add_source tenant_of
  gather_rules config [] g = some g
  gather_rules config (rule ∷ rules) g =
      elim (add_source config (tenant_of config rule.labels) (concat rule.name ".yaml") rule.groups
        g) [ none ↦ none | some g' ↦ gather_rules config rules g' ]
