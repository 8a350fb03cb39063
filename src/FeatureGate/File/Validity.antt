-- ===== src/FeatureGate/File/Validity.antt =====
-- Loading the configuration file keeps the service-monitor configuration valid.
use thanos_operator.Common.Opt.{some-eq}
use mathlib.Core.Path.{subst}
use thanos_operator.Common.{
  ℕ, zero, suc, ℤ, pos, negsuc, String, false, ap, ◌<◌, true, ◌==◌, [], ◌∷◌, ◌≡◌, refl, sym, ◌∙◌,
  inl, inr, none, some, Labels, ==-eq, Bool-cases, Option-cases, arith, All, ◌⊎◌,
}
use thanos_operator.FeatureGate.{Config, ServiceMonitorConfig}
use thanos_operator.FeatureGate.File.{
  Packages, ServiceMonitorFileConfig, ReadResult, config, is_valid_interval, is_positive,
  validate_labels, validate_additional, validate, apply_defaults, override_labels, override_string,
  override_service_monitor, load_and_apply_config,
}
use thanos_operator.FeatureGate.File.Kept.{IsKept, apply_read-kept}

-- Every label has a valid key and a valid value.
abbrev pub AreValidLabels : Packages → Labels → Type 0
AreValidLabels p = All (λ l. (p.is_qualified_name l.0 ≡ true) × (p.is_valid_label_value l.1 ≡ true))

-- The text is read as a duration above 0.
abbrev pub IsPositiveDuration : Packages → String → Type 0
IsPositiveDuration p s = (n : ℕ) × (p.parse_duration s ≡ some (pos n)) × (0 < n)

-- The interval is empty or a positive duration, and the labels that are set are valid.
abbrev pub IsValidMonitor : Packages → ServiceMonitorConfig → Type 0
IsValidMonitor p sm =
    ((sm.interval ≡ "") ⊎ IsPositiveDuration p sm.interval)
    × ((labels : Labels) → sm.additional_labels ≡ some labels → AreValidLabels p labels)

abbrev pub HasValidMonitor : Packages → Config → Type 0
HasValidMonitor p c =
    (sm : ServiceMonitorConfig) → c.service_monitor_config ≡ some sm → IsValidMonitor p sm

validate_labels-AreValidLabels :
    (p : Packages) (labels : Labels) → validate_labels p labels ≡ none → AreValidLabels p labels
unfolding validate_labels
validate_labels-AreValidLabels p [] h = tt
validate_labels-AreValidLabels p ((key, value) ∷ labels) h =
    elim (Bool-cases (p.is_qualified_name key)) [
      | inl k ↦ elim (Bool-cases (p.is_valid_label_value value)) [
        | inl v ↦ ((k, v), validate_labels-AreValidLabels p labels (ground arith))
        | inr v ↦ ground arith
      ]
      | inr k ↦ ground arith
    ]

apply_defaults-service_monitor_config :
    (c : Config) → (apply_defaults c).service_monitor_config ≡ c.service_monitor_config
unfolding apply_defaults
apply_defaults-service_monitor_config c = elim (Option-cases c.kube_resource_sync_config) [
  | inl e ↦ rw e refl
  | inr (krs, e) ↦ rw e refl
]

apply_defaults-HasValidMonitor :
    (p : Packages) (c : Config) → HasValidMonitor p c → HasValidMonitor p (apply_defaults c)
apply_defaults-HasValidMonitor p c h sm e = h sm (sym (apply_defaults-service_monitor_config c) ∙ e)

is_positive-above : (z : ℤ) → is_positive z ≡ true → (n : ℕ) × (z ≡ pos n) × (0 < n)
is_positive-above (pos zero) h = cc
is_positive-above (pos (suc n)) h = (suc n, refl, omega arith)
is_positive-above (negsuc n) h = cc

is_valid_interval-IsPositiveDuration :
    (p : Packages) (s : String) → is_valid_interval p s ≡ true → IsPositiveDuration p s
unfolding is_valid_interval
is_valid_interval-IsPositiveDuration p s h = elim (Option-cases (p.parse_duration s)) [
  | inl e ↦ let impossible : false ≡ true = rw (is_valid_interval, e) at h in cc
  | inr (d, e) ↦
      let above : is_positive d ≡ true = rw (is_valid_interval, e) at h in
      let (n, same, high) = is_positive-above d above in (n, e ∙ ap some same, high)
]

validate-parts :
    (p : Packages) (file : ServiceMonitorFileConfig)
    → validate p file ≡ none
    → ((file.interval ≡ "") ⊎ IsPositiveDuration p file.interval)
      × (validate_additional p file.additional_labels ≡ none)
unfolding validate
validate-parts p file h = elim (Bool-cases (file.interval == "")) [
  | inl empty ↦ (inl (==-eq file.interval "" empty), ground arith)
  | inr given ↦ elim (Bool-cases (is_valid_interval p file.interval)) [
    | inl valid ↦ (inr (is_valid_interval-IsPositiveDuration p file.interval valid), ground arith)
    | inr invalid ↦ ground arith
  ]
]

override_service_monitor-IsValidMonitor :
    (p : Packages) (file : ServiceMonitorFileConfig) (sm : ServiceMonitorConfig)
    → validate p file ≡ none
    → IsValidMonitor p sm
    → IsValidMonitor p (override_service_monitor file sm)
unfolding override_service_monitor override_string override_labels validate_additional
override_service_monitor-IsValidMonitor p file sm v h =
    let (interval, labels) = validate-parts p file v in
    (
      elim (Bool-cases (file.interval == "")) [
        | inl empty ↦ rw empty h.0
        | inr given ↦ rw given interval
      ],
      elim (Option-cases file.additional_labels) [
        | inl absent ↦ rw absent h.1
        | inr (l, present) ↦
            λ ls same. validate_labels-AreValidLabels p ls (ground (arith, labels, same, present))
      ],
    )

HasValidMonitor-IsKept : (p : Packages) → IsKept p (HasValidMonitor p)
unfolding override_service_monitor override_string override_labels validate validate_additional
HasValidMonitor-IsKept p = record {
  service_monitor_step = λ c sm file e v h sm' e'.
      subst (IsValidMonitor p) (some-eq e')
        (override_service_monitor-IsValidMonitor p file sm v (h sm e));
  kube_resource_sync_step = λ c krs image e h. h;
}

-- Loading keeps the service-monitor configuration valid, whatever the file holds: its interval is
-- empty or a positive duration, and its labels have valid keys and values.
pub load_and_apply_config-HasValidMonitor :
    (p : Packages) (read : ReadResult) (c : Config)
    → HasValidMonitor p c
    → HasValidMonitor p (config (load_and_apply_config p read c))
unfolding load_and_apply_config
load_and_apply_config-HasValidMonitor p read c h =
    apply_read-kept (HasValidMonitor-IsKept p) read (apply_defaults c)
      (apply_defaults-HasValidMonitor p c h)
