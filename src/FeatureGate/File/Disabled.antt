-- ===== src/FeatureGate/File/Disabled.antt =====
-- The block of a disabled feature is not decoded.
use thanos_operator.Common.{
  false, ◌≡◌, refl, sym, ◌∙◌, inl, inr, Option, GoMap, Option-cases, arith,
}
use thanos_operator.FeatureGate.{Config, service_monitor_enabled}
use thanos_operator.FeatureGate.File.{
  Packages, ServiceMonitorFileConfig, ReadResult, content, not_exist, read_failed, done,
  apply_defaults, apply_service_monitor, apply_kube_resource_sync_block, apply_kube_resource_sync,
  then_kube_resource_sync, apply_blocks, apply_content, apply_read, load_and_apply_config,
}
use thanos_operator.FeatureGate.File.Loading.{apply_defaults-enabled}

apply_service_monitor-disabled :
    (p : Packages) (raw : GoMap p.Raw) (c : Config)
    → service_monitor_enabled c ≡ false
    → apply_service_monitor p raw c ≡ done c
unfolding apply_service_monitor service_monitor_enabled
apply_service_monitor-disabled p raw c off = elim (Option-cases c.service_monitor_config) [
  | inl e ↦ ground arith
  | inr (sm, e) ↦ ground arith
]

apply_blocks-disabled :
    (p : Packages) (raw : GoMap p.Raw) (c : Config)
    → service_monitor_enabled c ≡ false
    → apply_blocks p raw c ≡ apply_kube_resource_sync p raw c
unfolding apply_blocks then_kube_resource_sync
apply_blocks-disabled p raw c off = rw (apply_service_monitor-disabled p raw c off) refl

module _ (p : Packages) (decode : p.Raw → Option ServiceMonitorFileConfig) where
  abbrev with_decoder : Packages
  with_decoder = record p { decode_service_monitor = decode }

  apply_blocks-any_decoder :
      (raw : GoMap p.Raw) (c : Config)
      → service_monitor_enabled c ≡ false
      → apply_blocks with_decoder raw c ≡ apply_blocks p raw c
  unfolding apply_kube_resource_sync apply_kube_resource_sync_block
  apply_blocks-any_decoder raw c off =
      apply_blocks-disabled with_decoder raw c off ∙ sym (apply_blocks-disabled p raw c off)

  apply_read-any_decoder :
      (read : ReadResult) (c : Config)
      → service_monitor_enabled c ≡ false
      → apply_read with_decoder read c ≡ apply_read p read c
  unfolding apply_read apply_content
  apply_read-any_decoder not_exist c off = refl
  apply_read-any_decoder read_failed c off = refl
  apply_read-any_decoder (content bytes) c off = elim (Option-cases (p.yaml_to_json bytes)) [
    | inl y ↦ rw (y, apply_content) refl
    | inr (json, y) ↦ elim (Option-cases (p.unmarshal_map json)) [
      | inl u ↦ rw (y, u, apply_content) refl
      | inr (raw, u) ↦ rw (y, u, apply_content) (apply_blocks-any_decoder raw c off)
    ]
  ]

-- Where service-monitor is disabled, the result is the same for every decoder of its block, also one
-- that refuses it.
pub load_and_apply_config-service_monitor_disabled :
    (p : Packages) (decode : p.Raw → Option ServiceMonitorFileConfig) (read : ReadResult)
    (c : Config)
    → service_monitor_enabled c ≡ false
    → load_and_apply_config (record p { decode_service_monitor = decode }) read c
      ≡ load_and_apply_config p read c
unfolding load_and_apply_config
load_and_apply_config-service_monitor_disabled p decode read c off =
    apply_read-any_decoder p decode read (apply_defaults c) ((apply_defaults-enabled c).0 ∙ off)
