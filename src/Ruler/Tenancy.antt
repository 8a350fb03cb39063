-- ===== src/Ruler/Tenancy.antt =====
-- Tenants of rules: the tenant of a source of rules, and `processRuleGroupsWithTenancy`. The enforcer of
-- package injectproxy is a parameter: an expression, a label and its value give an expression, or an error.
use thanos_operator.Common.{
  String, List, [], ◌∷◌, Option, none, some, Labels, lookup, insert, lookup-insert, if◌then◌else◌,
  ◌==◌, ◌≡◌, ◌≢◌, ◌⊎◌, refl, ◌∙◌, inl, inr, Option-cases, ==-ne, eq_refl,
}
use thanos_operator.Manifests.Labels.{or_empty}
use thanos_operator.Ruler.Discovery.{RuleTenancyConfig}

abbrev pub default_tenant_identifier : String
default_tenant_identifier = "tenant_id"

abbrev pub default_tenant_specifier : String
default_tenant_specifier = "operator.thanos.io/tenant"

-- A rule and a group of rules; `Rest` is what the code only passes on.
pub record Rule (Rest : Type 0) : Type 0 where
  pub expr : String
  pub rest : Rest

pub record RuleGroup (Rest : Type 0) : Type 0 where
  pub labels : Option Labels
  pub rules : List (Rule Rest)

abbrev pub deref : Option String → String → String
deref none default_value = default_value
deref (some s) default_value = s

-- The tenant that the labels of a ConfigMap or a PrometheusRule name; an empty one is an error.
pub data Tenant : Type 0 where
  no_tenant : Tenant
  tenant : String → Tenant
  empty_tenant : Tenant

unfoldable pub named_tenant : Option String → Tenant
named_tenant none = no_tenant
named_tenant (some value) = if value == "" then empty_tenant else tenant value

unfoldable pub tenant_of : Option RuleTenancyConfig → Labels → Tenant
unfolding named_tenant
tenant_of none labels = no_tenant
tenant_of (some config) labels =
    named_tenant (lookup (deref config.tenant_specifier_label default_tenant_specifier) labels)

abbrev pub tenant_value : Tenant → String
tenant_value no_tenant = ""
tenant_value (tenant value) = value
tenant_value empty_tenant = ""

-- Two lists of the same length, related element by element.
abbrev pub Pairwise : {A : Type 0} → (A → A → Type 0) → List A → List A → Type 0
Pairwise R [] [] = Unit
Pairwise R (x ∷ xs) (y ∷ ys) = R x y × Pairwise R xs ys
Pairwise R xs ys = ⊥

module _ {Rest : Type 0} (enforce : String → String → String → Option String) where
  -- An expression that the enforcer refuses is left as it is.
  unfoldable pub enforced : Rule Rest → Option String → Rule Rest
  enforced rule none = rule
  enforced rule (some expr) = record rule { expr = expr }

  unfoldable pub enforce_rules : String → String → List (Rule Rest) → List (Rule Rest)
  unfolding enforced
  enforce_rules label value [] = []
  enforce_rules label value (rule ∷ rules) =
      enforced rule (enforce rule.expr label value) ∷ enforce_rules label value rules

  unfoldable pub enforce_groups : String → String → List (RuleGroup Rest) → List (RuleGroup Rest)
  unfolding enforce_rules insert
  enforce_groups label value [] = []
  enforce_groups label value (g ∷ groups) =
      record {
        labels = some (insert label value (or_empty g.labels));
        rules = enforce_rules label value g.rules;
      }
      ∷ enforce_groups label value groups

  unfoldable pub process_rule_groups_with_tenancy :
      List (RuleGroup Rest) → Option RuleTenancyConfig → String → List (RuleGroup Rest)
  unfolding enforce_groups
  process_rule_groups_with_tenancy groups none value = groups
  process_rule_groups_with_tenancy groups (some config) value =
      if value == ""
      then groups
      else enforce_groups (deref config.enforced_tenant_identifier default_tenant_identifier) value
          groups

  -- A rule that comes from one of the given rules: its expression is what the enforcer makes of the given
  -- one, or the given one where the enforcer refuses that.
  abbrev pub IsScopedRule : String → String → Rule Rest → Rule Rest → Type 0
  IsScopedRule label value given rule =
      (rule.rest ≡ given.rest)
      × ((enforce given.expr label value ≡ some rule.expr)
          ⊎ ((enforce given.expr label value ≡ none) × (rule.expr ≡ given.expr)))

  abbrev pub IsScopedGroup : String → String → RuleGroup Rest → RuleGroup Rest → Type 0
  IsScopedGroup label value given g =
      (lookup label (or_empty g.labels) ≡ some value)
      × ((other : String)
          → label ≢ other
          → lookup other (or_empty g.labels) ≡ lookup other (or_empty given.labels))
      × Pairwise (IsScopedRule label value) given.rules g.rules

  enforce_rules-scoped :
      (label value : String) (rules : List (Rule Rest))
      → Pairwise (IsScopedRule label value) rules (enforce_rules label value rules)
  unfolding enforce_rules enforced
  enforce_rules-scoped label value [] = tt
  enforce_rules-scoped label value (rule ∷ rules) = (
    elim (Option-cases (enforce rule.expr label value)) [
      | inl e ↦ rw e (refl, inr (refl, refl))
      | inr (expr, e) ↦ rw e (refl, inl refl)
    ],
    enforce_rules-scoped label value rules,
  )

  enforce_groups-scoped :
      (label value : String) (groups : List (RuleGroup Rest))
      → Pairwise (IsScopedGroup label value) groups (enforce_groups label value groups)
  unfolding enforce_groups
  enforce_groups-scoped label value [] = tt
  enforce_groups-scoped label value (g ∷ groups) = (
    (
      lookup-insert label label value (or_empty g.labels) ∙ rw (eq_refl label) refl,
      (λ other different.
          lookup-insert label other value (or_empty g.labels)
          ∙ rw (==-ne label other different) refl),
      enforce_rules-scoped label value g.rules,
    ),
    enforce_groups-scoped label value groups,
  )

  -- With a tenant, every group of rules carries the tenant's label and otherwise the labels it had, and
  -- the expression of each of its rules is what the enforcer makes of it; only an expression that the
  -- enforcer refuses is left as it is. No group and no rule is lost.
  pub process_rule_groups_with_tenancy-scoped :
      (groups : List (RuleGroup Rest)) (config : RuleTenancyConfig) (value : String)
      → value ≢ ""
      → Pairwise
          (IsScopedGroup (deref config.enforced_tenant_identifier default_tenant_identifier) value)
          groups
          (process_rule_groups_with_tenancy groups (some config) value)
  unfolding process_rule_groups_with_tenancy
  process_rule_groups_with_tenancy-scoped groups config value given =
      rw (process_rule_groups_with_tenancy, ==-ne value "" given)
        (enforce_groups-scoped (deref config.enforced_tenant_identifier default_tenant_identifier)
          value groups)
