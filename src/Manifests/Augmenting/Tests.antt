-- ===== src/Manifests/Augmenting/Tests.antt =====
-- The theorems on the options of a component at a small StatefulSet.
use thanos_operator.Common.{String, true, [], ◌∷◌, none, some, refl, pos, negsuc}
use mathlib.Core.List.Memᴰ
use thanos_operator.FeatureGate.{Config}
use thanos_operator.Manifests.Names.{Naming}
use thanos_operator.Manifests.Augmenting.{
  Container, Volume, VolumeMount, other_source, Options, Workload, stateful_set,
  augment_with_options,
}
use thanos_operator.Manifests.Augmenting.Mounted.{
  Yields, IsMountedWorkload, augment_with_options-IsMounted,
}
use thanos_operator.Manifests.Augmenting.Placed.{IsPlacedWorkload, augment_with_options-IsPlaced}

abbrev naming : Naming
naming = record {
  is_dns1123_subdomain = λ name. [];
  is_valid_label_value = λ value. [];
  dns1123_label_max_length = 63;
  is_alpha_numeric = λ c. true;
  to_lower = λ s. s;
  sha256_hex = λ s. "0123456789abcdef0123456789abcdef";
  decimal = λ n. "0";
}

abbrev with_otel : Config
with_otel = record {
  service_monitor_config = none;
  prometheus_rule_config = none;
  otel_sidecar_config = some record { enabled = true };
  kube_resource_sync_config = none;
  volume_resize_config = none;
}

abbrev data_volume : Volume String
data_volume = record { name = "data"; volume_source = other_source "claim" }

abbrev data_mount : VolumeMount
data_mount = record { name = "data"; read_only = true; mount_path = "/var/thanos" }

abbrev scratch : Volume String
scratch = record { name = "scratch"; volume_source = other_source "empty" }

abbrev scratch_mount : VolumeMount
scratch_mount = record { name = "scratch"; read_only = true; mount_path = "/scratch" }

abbrev thanos : Container String
thanos = record {
  image = "";
  resources = "none";
  volume_mounts = data_mount ∷ [];
  ports = [];
  env = [];
  args = "store" ∷ [];
  rest = "thanos-store";
}

abbrev store_workload : Workload String
store_workload = stateful_set record {
  template = record {
    annotations = none;
    containers = thanos ∷ [];
    volumes = data_volume ∷ [];
    placement = record {
      node_selector = "";
      affinity = "";
      tolerations = "";
      topology_spread_constraints = "";
    };
    termination_grace_period_seconds = "30";
    security_context = none;
    rest = "";
  };
  pod_management_policy = "OrderedReady";
  pvc_retention_policy = none;
  min_ready_seconds = pos 0;
  rest = "store";
}

abbrev options : Options String
options = record {
  owner = "example";
  namespace = "thanos";
  replicas = pos 2;
  labels = [];
  annotations = none;
  log_level = none;
  log_format = none;
  pod_disruption_config = none;
  additional = record {
    args = some ("--log.level=debug" ∷ []);
    containers = [];
    volumes = scratch ∷ [];
    volume_mounts = scratch_mount ∷ [];
    ports = [];
    env = [];
    config_maps = "rules.a" ∷ [];
    secrets = "tls" ∷ "token" ∷ [];
    service_ports = [];
  };
  stateful_set = record {
    pod_management_policy = "Parallel";
    pvc_retention_policy = record { on_scale = ""; on_delete = "Delete" };
    termination_grace_period_seconds = "60";
    min_ready_seconds = some (negsuc 0);
  };
  image = none;
  version = some "v0.41.0";
  resource_requirements = none;
  placement_config = none;
  security_context = none;
  config = with_otel;
}

augment_with_options-IsMounted_example :
    Yields IsMountedWorkload (augment_with_options naming options store_workload)
augment_with_options-IsMounted_example =
    augment_with_options-IsMounted naming options store_workload
      ((scratch, Memᴰ.tail (Memᴰ.head refl), refl), tt)
      (thanos, [], refl, ((data_volume, Memᴰ.head refl, refl), tt))

augment_with_options-IsPlaced_example :
    Yields (IsPlacedWorkload naming options) (augment_with_options naming options store_workload)
augment_with_options-IsPlaced_example =
    augment_with_options-IsPlaced naming options store_workload (thanos, [], refl)
