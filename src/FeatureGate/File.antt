-- ===== src/FeatureGate/File.antt =====
-- internal/pkg/featuregate/config_file.go. What package os, the YAML and JSON packages, the duration
-- parser and the two label checks make of their inputs are parameters.
pub mod Kept
pub mod Loading
pub mod Validity
pub mod Disabled
use thanos_operator.Common.{
  String, Bool, true, false, ◌&&◌, ◌==◌, List, [], ◌∷◌, Option, none, some, ℤ, pos, negsuc, zero,
  GoMap, Labels, lookup, if◌then◌else◌,
}
use thanos_operator.FeatureGate.{
  Config, ServiceMonitorConfig, KubeResourceSyncConfig, service_monitor, kube_resource_sync,
  default_kube_resource_sync_image,
}

pub record ServiceMonitorFileConfig : Type 0 where
  pub additional_labels : Option Labels
  pub interval : String

pub data LoadError : Type 0 where
  read_error : LoadError
  yaml_error : LoadError
  map_error : LoadError
  service_monitor_decode_error : LoadError
  invalid_interval : String → LoadError
  invalid_label_key : String → LoadError
  invalid_label_value : String → LoadError
  kube_resource_sync_decode_error : LoadError

-- `os.ReadFile`: a missing file is an error of its own.
pub data ReadResult : Type 0 where
  content : String → ReadResult
  not_exist : ReadResult
  read_failed : ReadResult

-- The returned configuration, and the error if there is one.
pub data Loaded : Type 0 where
  done : Config → Loaded
  failed : Config → LoadError → Loaded

abbrev pub config : Loaded → Config
config (done c) = c
config (failed c e) = c

-- The negation of `interval <= 0`.
abbrev pub is_positive : ℤ → Bool
is_positive (pos zero) = false
is_positive (pos n) = true
is_positive (negsuc n) = false

-- The functions of other packages.
pub record Packages : Type 1 where
  pub Raw : Type 0
  pub yaml_to_json : String → Option String
  pub unmarshal_map : String → Option (GoMap Raw)
  pub decode_service_monitor : Raw → Option ServiceMonitorFileConfig
  -- The image that the block names, or "".
  pub decode_kube_resource_sync : Raw → Option String
  pub parse_duration : String → Option ℤ
  pub is_qualified_name : String → Bool
  pub is_valid_label_value : String → Bool

unfoldable pub default_image : KubeResourceSyncConfig → KubeResourceSyncConfig
default_image krs =
    if krs.enabled && krs.image == ""
    then record krs { image = default_kube_resource_sync_image }
    else krs

unfoldable pub apply_defaults : Config → Config
unfolding default_image
apply_defaults c = elim c.kube_resource_sync_config [
  | none ↦ c
  | some krs ↦ record c { kube_resource_sync_config = some (default_image krs) }
]

unfoldable pub override_labels : Option Labels → Option Labels → Option Labels
override_labels (some labels) current = some labels
override_labels none current = current

unfoldable pub override_string : String → String → String
override_string value current = if value == "" then current else value

unfoldable pub override_service_monitor :
    ServiceMonitorFileConfig → ServiceMonitorConfig → ServiceMonitorConfig
unfolding override_labels override_string
override_service_monitor file sm = record {
  enabled = sm.enabled;
  additional_labels = override_labels file.additional_labels sm.additional_labels;
  interval = override_string file.interval sm.interval;
}

module _ (p : Packages) where
  unfoldable pub is_valid_interval : String → Bool
  is_valid_interval interval = elim (p.parse_duration interval) [
    | none ↦ false
    | some d ↦ is_positive d
  ]

  -- The range over the labels, in an order of the map's.
  unfoldable pub validate_labels : Labels → Option LoadError
  validate_labels [] = none
  validate_labels ((key, value) ∷ labels) =
      if p.is_qualified_name key
      then (if p.is_valid_label_value value
          then validate_labels labels
          else some (invalid_label_value key))
      else some (invalid_label_key key)

  unfoldable pub validate_additional : Option Labels → Option LoadError
  unfolding validate_labels
  validate_additional none = none
  validate_additional (some labels) = validate_labels labels

  unfoldable pub validate : ServiceMonitorFileConfig → Option LoadError
  unfolding is_valid_interval validate_additional
  validate c =
      if c.interval == ""
      then validate_additional c.additional_labels
      else if is_valid_interval c.interval
      then validate_additional c.additional_labels
      else some (invalid_interval c.interval)

  unfoldable pub apply_service_monitor_file :
      ServiceMonitorFileConfig → ServiceMonitorConfig → Config → Loaded
  unfolding validate override_service_monitor
  apply_service_monitor_file file sm c = elim (validate file) [
    | some e ↦ failed c e
    | none ↦ done (record c { service_monitor_config = some (override_service_monitor file sm) })
  ]

  unfoldable pub apply_service_monitor_block : p.Raw → ServiceMonitorConfig → Config → Loaded
  unfolding apply_service_monitor_file
  apply_service_monitor_block block sm c = elim (p.decode_service_monitor block) [
    | none ↦ failed c service_monitor_decode_error
    | some file ↦ apply_service_monitor_file file sm c
  ]

  unfoldable pub apply_service_monitor : GoMap p.Raw → Config → Loaded
  unfolding apply_service_monitor_block
  apply_service_monitor raw c = elim c.service_monitor_config [
    | none ↦ done c
    | some sm ↦
        if sm.enabled
        then elim (lookup service_monitor raw) [
          | none ↦ done c
          | some block ↦ apply_service_monitor_block block sm c
        ]
        else done c
  ]

  unfoldable pub apply_kube_resource_sync_block : p.Raw → KubeResourceSyncConfig → Config → Loaded
  unfolding override_string
  apply_kube_resource_sync_block block krs c = elim (p.decode_kube_resource_sync block) [
    | none ↦ failed c kube_resource_sync_decode_error
    | some image ↦ done (record c {
      kube_resource_sync_config = some (record krs { image = override_string image krs.image });
    })
  ]

  unfoldable pub apply_kube_resource_sync : GoMap p.Raw → Config → Loaded
  unfolding apply_kube_resource_sync_block
  apply_kube_resource_sync raw c = elim c.kube_resource_sync_config [
    | none ↦ done c
    | some krs ↦
        if krs.enabled
        then elim (lookup kube_resource_sync raw) [
          | none ↦ done c
          | some block ↦ apply_kube_resource_sync_block block krs c
        ]
        else done c
  ]

  unfoldable pub then_kube_resource_sync : GoMap p.Raw → Loaded → Loaded
  unfolding apply_kube_resource_sync
  then_kube_resource_sync raw (failed c e) = failed c e
  then_kube_resource_sync raw (done c) = apply_kube_resource_sync raw c

  unfoldable pub apply_blocks : GoMap p.Raw → Config → Loaded
  unfolding apply_service_monitor then_kube_resource_sync
  apply_blocks raw c = then_kube_resource_sync raw (apply_service_monitor raw c)

  unfoldable pub apply_content : String → Config → Loaded
  unfolding apply_blocks
  apply_content bytes c = elim (p.yaml_to_json bytes) [
    | none ↦ failed c yaml_error
    | some json ↦ elim (p.unmarshal_map json) [
      | none ↦ failed c map_error
      | some raw ↦ apply_blocks raw c
    ]
  ]

  unfoldable pub apply_read : ReadResult → Config → Loaded
  unfolding apply_content
  apply_read (content bytes) c = apply_content bytes c
  apply_read not_exist c = done c
  apply_read read_failed c = failed c read_error

  unfoldable pub load_and_apply_config : ReadResult → Config → Loaded
  unfolding apply_defaults apply_read
  load_and_apply_config read current = apply_read read (apply_defaults current)
