-- ===== src/FeatureGate/Tests.antt =====
-- The theorems on the flag and the configuration file at small inputs.
use mathlib.Core.Path.{subst}
use thanos_operator.Common.Opt.{some-eq}
use thanos_operator.Common.{
  String, true, false, [], ◌∷◌, ◌≡◌, refl, inl, Option, none, some, pos, contains,
}
use thanos_operator.FeatureGate.{
  Flag, set, ok, Config, is_valid_feature, service_monitor, otel_sidecar, kube_resource_sync,
  volume_resize, service_monitor_enabled,
}
use thanos_operator.FeatureGate.File.{
  Packages, ServiceMonitorFileConfig, content, config, load_and_apply_config,
}
use thanos_operator.FeatureGate.File.Validity.{
  HasValidMonitor, IsValidMonitor, load_and_apply_config-HasValidMonitor,
}

abbrev before : Flag
before = otel_sidecar ∷ []

abbrev after : Flag
after = otel_sidecar ∷ volume_resize ∷ []

set_lem : set before volume_resize ≡ ok after
unfolding set is_valid_feature contains
set_lem = refl

-- Packages that read one file, with a block for each of two features.
abbrev packages : Packages
packages = record {
  Raw = String;
  yaml_to_json = λ bytes. some bytes;
  unmarshal_map =
      λ json. some ((service_monitor, "monitor") ∷ (kube_resource_sync, "image:1") ∷ []);
  decode_service_monitor =
      λ raw. some (record { additional_labels = some (("team", "a") ∷ []); interval = "30s" });
  decode_kube_resource_sync = λ raw. some raw;
  parse_duration = λ text. some (pos 30000);
  is_qualified_name = λ key. true;
  is_valid_label_value = λ value. true;
}

abbrev current : Config
current = record {
  service_monitor_config =
      some (record { enabled = true; additional_labels = none; interval = "" });
  prometheus_rule_config = none;
  otel_sidecar_config = none;
  kube_resource_sync_config = some (record { enabled = true; image = "" });
  volume_resize_config = some (record { enabled = true });
}

abbrev without_monitor : Config
without_monitor = record current { service_monitor_config = none }

current-HasValidMonitor : HasValidMonitor packages current
current-HasValidMonitor sm e =
    subst (IsValidMonitor packages) (some-eq e) (inl refl, λ labels h. cc)

load_and_apply_config-HasValidMonitor_example :
    HasValidMonitor packages (config (load_and_apply_config packages (content "file") current))
load_and_apply_config-HasValidMonitor_example =
    load_and_apply_config-HasValidMonitor packages (content "file") current current-HasValidMonitor

-- A decoder that refuses every block.
abbrev refuse : String → Option ServiceMonitorFileConfig
refuse raw = none

disabled_lem : service_monitor_enabled without_monitor ≡ false
unfolding service_monitor_enabled
disabled_lem = refl
