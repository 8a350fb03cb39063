-- ===== src/FeatureGate.antt =====
-- internal/pkg/featuregate: the flag, the feature configuration and the configuration file.
pub mod File
pub mod Flags
mod Tests
use thanos_operator.Common.{
  String, Bool, true, false, ◌&&◌, ◌==◌, List, [], ◌∷◌, ◌++◌, Option, none, some, Labels, contains,
  if◌then◌else◌,
}

abbrev pub service_monitor : String
service_monitor = "service-monitor"

abbrev pub prometheus_rule : String
prometheus_rule = "prometheus-rule"

abbrev pub otel_sidecar : String
otel_sidecar = "otel-sidecar"

abbrev pub kube_resource_sync : String
kube_resource_sync = "kube-resource-sync"

abbrev pub volume_resize : String
volume_resize = "volume-resize"

abbrev pub default_kube_resource_sync_image : String
default_kube_resource_sync_image = "quay.io/philipgough/kube-resource-sync:0.1.0"

abbrev pub all_features : List String
all_features =
    service_monitor ∷ prometheus_rule ∷ kube_resource_sync ∷ otel_sidecar ∷ volume_resize ∷ []

unfoldable pub is_valid_feature : String → Bool
is_valid_feature feature = contains all_features feature

-- The enabled features, in the order of the command line.
abbrev pub Flag : Type 0
Flag = List String

-- `Set`: the new flag, or the feature name that it refuses.
pub data SetResult : Type 0 where
  ok : Flag → SetResult
  unknown_feature : String → SetResult

unfoldable pub set : Flag → String → SetResult
set f value = if is_valid_feature value then ok (f ++ value ∷ []) else unknown_feature value

unfoldable pub flag_contains : Flag → String → Bool
flag_contains [] feature = false
flag_contains (v ∷ f) feature = if v == feature then true else flag_contains f feature

pub record FeatureConfig : Type 0 where
  pub enabled : Bool

pub record KubeResourceSyncConfig : Type 0 where
  pub enabled : Bool
  pub image : String

pub record ServiceMonitorConfig : Type 0 where
  pub enabled : Bool
  pub additional_labels : Option Labels
  pub interval : String

pub record Config : Type 0 where
  pub service_monitor_config : Option ServiceMonitorConfig
  pub prometheus_rule_config : Option FeatureConfig
  pub otel_sidecar_config : Option FeatureConfig
  pub kube_resource_sync_config : Option KubeResourceSyncConfig
  pub volume_resize_config : Option FeatureConfig

unfoldable pub feature_enabled : Option FeatureConfig → Bool
feature_enabled none = false
feature_enabled (some c) = c.enabled

unfoldable pub service_monitor_enabled : Config → Bool
service_monitor_enabled c = elim c.service_monitor_config [ none ↦ false | some sm ↦ sm.enabled ]

unfoldable pub prometheus_rule_enabled : Config → Bool
unfolding feature_enabled
prometheus_rule_enabled c = feature_enabled c.prometheus_rule_config

unfoldable pub otel_sidecar_enabled : Config → Bool
unfolding feature_enabled
otel_sidecar_enabled c = feature_enabled c.otel_sidecar_config

unfoldable pub kube_resource_sync_enabled : Config → Bool
kube_resource_sync_enabled c = elim c.kube_resource_sync_config [
  | none ↦ false
  | some krs ↦ krs.enabled
]

unfoldable pub volume_resize_enabled : Config → Bool
unfolding feature_enabled
volume_resize_enabled c = feature_enabled c.volume_resize_config

unfoldable pub get_kube_resource_sync_image : Config → String
get_kube_resource_sync_image c = elim c.kube_resource_sync_config [
  | none ↦ ""
  | some krs ↦ krs.image
]

abbrev pub enabled : FeatureConfig
enabled = record { enabled = true }

-- `String`, over `strings.Join`.
unfoldable pub string : (List String → String → String) → Flag → String
string join f = join f ","

abbrev pub enables_service_monitor : Flag → Bool
enables_service_monitor f = flag_contains f service_monitor

abbrev pub enables_prometheus_rule : Flag → Bool
enables_prometheus_rule f = flag_contains f prometheus_rule

abbrev pub enables_otel_sidecar : Flag → Bool
enables_otel_sidecar f = flag_contains f otel_sidecar

abbrev pub enables_kube_resource_sync : Flag → Bool
enables_kube_resource_sync f = flag_contains f kube_resource_sync

abbrev pub enables_volume_resize : Flag → Bool
enables_volume_resize f = flag_contains f volume_resize

unfoldable pub to_feature_gate : Flag → Config
to_feature_gate f = record {
  service_monitor_config =
      if enables_service_monitor f
      then some (record { enabled = true; additional_labels = none; interval = "" })
      else none;
  prometheus_rule_config = if enables_prometheus_rule f then some enabled else none;
  otel_sidecar_config = if enables_otel_sidecar f then some enabled else none;
  kube_resource_sync_config =
      if enables_kube_resource_sync f then some (record { enabled = true; image = "" }) else none;
  volume_resize_config = if enables_volume_resize f then some enabled else none;
}
