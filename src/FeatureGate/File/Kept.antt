-- ===== src/FeatureGate/File/Kept.antt =====
-- What applying the configuration file keeps, on success and on every error.
use mathlib.Core.Path.{subst}
use thanos_operator.Common.{
  String, ◌≡◌, sym, inl, inr, none, some, GoMap, lookup, Bool-cases, Option-cases, arith,
}
use thanos_operator.FeatureGate.{
  Config, ServiceMonitorConfig, KubeResourceSyncConfig, service_monitor, kube_resource_sync,
}
use thanos_operator.FeatureGate.File.{
  Packages, ServiceMonitorFileConfig, yaml_error, map_error, service_monitor_decode_error,
  kube_resource_sync_decode_error, ReadResult, content, not_exist, read_failed, Loaded, done,
  failed, config, validate, override_string, override_service_monitor, apply_service_monitor_file,
  apply_service_monitor_block, apply_service_monitor, apply_kube_resource_sync_block,
  apply_kube_resource_sync, then_kube_resource_sync, apply_blocks, apply_content, apply_read,
}

-- What a property of a configuration needs so that applying a file keeps it.
pub record IsKept (p : Packages) (P : Config → Type 0) : Type 1 where
  pub service_monitor_step :
      (c : Config) (sm : ServiceMonitorConfig) (file : ServiceMonitorFileConfig)
      → c.service_monitor_config ≡ some sm
      → validate p file ≡ none
      → P c
      → P (record c { service_monitor_config = some (override_service_monitor file sm) })
  pub kube_resource_sync_step :
      (c : Config) (krs : KubeResourceSyncConfig) (image : String)
      → c.kube_resource_sync_config ≡ some krs
      → P c
      → P (record c {
        kube_resource_sync_config = some (record krs { image = override_string image krs.image });
      })

module _ {p : Packages} {P : Config → Type 0} (kept : IsKept p P) where
  returns : (l r : Loaded) → l ≡ r → P (config r) → P (config l)
  returns l r e h = subst (λ l. P (config l)) (sym e) h

  apply_service_monitor_block-kept :
      (block : p.Raw) (sm : ServiceMonitorConfig) (c : Config)
      → c.service_monitor_config ≡ some sm
      → P c
      → P (config (apply_service_monitor_block p block sm c))
  unfolding apply_service_monitor_block apply_service_monitor_file
  apply_service_monitor_block-kept block sm c e h =
      elim (Option-cases (p.decode_service_monitor block)) [
        | inl d ↦
            returns (apply_service_monitor_block p block sm c)
              (failed c service_monitor_decode_error) (ground arith) h
        | inr (file, d) ↦ elim (Option-cases (validate p file)) [
          | inl v ↦
              returns (apply_service_monitor_block p block sm c)
                (done
                  (record c { service_monitor_config = some (override_service_monitor file sm) }))
                (ground arith) (kept.service_monitor_step c sm file e v h)
          | inr (error, v) ↦
              returns (apply_service_monitor_block p block sm c) (failed c error) (ground arith) h
        ]
      ]

  apply_service_monitor-kept :
      (raw : GoMap p.Raw) (c : Config) → P c → P (config (apply_service_monitor p raw c))
  unfolding apply_service_monitor
  apply_service_monitor-kept raw c h = elim (Option-cases c.service_monitor_config) [
    | inl e ↦ returns (apply_service_monitor p raw c) (done c) (ground arith) h
    | inr (sm, e) ↦ elim (Bool-cases sm.enabled) [
      | inl on ↦ elim (Option-cases (lookup service_monitor raw)) [
        | inl l ↦ returns (apply_service_monitor p raw c) (done c) (ground arith) h
        | inr (block, l) ↦
            returns (apply_service_monitor p raw c) (apply_service_monitor_block p block sm c)
              (ground arith) (apply_service_monitor_block-kept block sm c e h)
      ]
      | inr off ↦ returns (apply_service_monitor p raw c) (done c) (ground arith) h
    ]
  ]

  apply_kube_resource_sync-kept :
      (raw : GoMap p.Raw) (c : Config) → P c → P (config (apply_kube_resource_sync p raw c))
  unfolding apply_kube_resource_sync apply_kube_resource_sync_block
  apply_kube_resource_sync-kept raw c h = elim (Option-cases c.kube_resource_sync_config) [
    | inl e ↦ returns (apply_kube_resource_sync p raw c) (done c) (ground arith) h
    | inr (krs, e) ↦ elim (Bool-cases krs.enabled) [
      | inl on ↦ elim (Option-cases (lookup kube_resource_sync raw)) [
        | inl l ↦ returns (apply_kube_resource_sync p raw c) (done c) (ground arith) h
        | inr (block, l) ↦ elim (Option-cases (p.decode_kube_resource_sync block)) [
          | inl d ↦
              returns (apply_kube_resource_sync p raw c) (failed c kube_resource_sync_decode_error)
                (ground arith) h
          | inr (image, d) ↦
              returns (apply_kube_resource_sync p raw c)
                (done (record c {
                  kube_resource_sync_config =
                      some (record krs { image = override_string image krs.image });
                }))
                (ground arith) (kept.kube_resource_sync_step c krs image e h)
        ]
      ]
      | inr off ↦ returns (apply_kube_resource_sync p raw c) (done c) (ground arith) h
    ]
  ]

  then_kube_resource_sync-kept :
      (raw : GoMap p.Raw) (l : Loaded) → P (config l) → P (config (then_kube_resource_sync p raw l))
  unfolding then_kube_resource_sync
  then_kube_resource_sync-kept raw (done c) h = apply_kube_resource_sync-kept raw c h
  then_kube_resource_sync-kept raw (failed c e) h = h

  pub apply_read-kept : (read : ReadResult) (c : Config) → P c → P (config (apply_read p read c))
  unfolding apply_read apply_content apply_blocks
  apply_read-kept not_exist c h = h
  apply_read-kept read_failed c h = h
  apply_read-kept (content bytes) c h = elim (Option-cases (p.yaml_to_json bytes)) [
    | inl y ↦ returns (apply_read p (content bytes) c) (failed c yaml_error) (ground arith) h
    | inr (json, y) ↦ elim (Option-cases (p.unmarshal_map json)) [
      | inl u ↦ returns (apply_read p (content bytes) c) (failed c map_error) (ground arith) h
      | inr (raw, u) ↦
          returns (apply_read p (content bytes) c) (apply_blocks p raw c) (ground arith) (
            then_kube_resource_sync-kept raw (apply_service_monitor p raw c)
              (apply_service_monitor-kept raw c h))
    ]
  ]
