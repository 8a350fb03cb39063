-- ===== src/FeatureGate/File/Loading.antt =====
-- Loading the configuration file keeps which features are enabled and gives the image its default.
use thanos_operator.Common.{
  true, ◌&&◌, ◌==◌, eq_iff, ◌≡◌, ◌≢◌, refl, sym, ◌∙◌, inl, inr, some, Bool-cases, Option-cases,
  arith,
}
use thanos_operator.FeatureGate.{
  Config, default_kube_resource_sync_image, ServiceMonitorConfig, KubeResourceSyncConfig,
  service_monitor_enabled, prometheus_rule_enabled, otel_sidecar_enabled,
  kube_resource_sync_enabled, volume_resize_enabled, get_kube_resource_sync_image,
}
use thanos_operator.FeatureGate.File.{
  Packages, ReadResult, config, default_image, apply_defaults, override_string,
  override_service_monitor, load_and_apply_config,
}
use thanos_operator.FeatureGate.File.Kept.{IsKept, apply_read-kept}

-- The two configurations enable the same features.
abbrev pub EnableTheSame : Config → Config → Type 0
EnableTheSame c d =
    (service_monitor_enabled c ≡ service_monitor_enabled d)
    × (prometheus_rule_enabled c ≡ prometheus_rule_enabled d)
    × (otel_sidecar_enabled c ≡ otel_sidecar_enabled d)
    × (kube_resource_sync_enabled c ≡ kube_resource_sync_enabled d)
    × (volume_resize_enabled c ≡ volume_resize_enabled d)

pub apply_defaults-enabled : (c : Config) → EnableTheSame (apply_defaults c) c
unfolding apply_defaults default_image service_monitor_enabled prometheus_rule_enabled
    otel_sidecar_enabled kube_resource_sync_enabled volume_resize_enabled
apply_defaults-enabled c = elim (Option-cases c.kube_resource_sync_config) [
  | inl e ↦ rw e (refl, refl, refl, refl, refl)
  | inr (krs, e) ↦ elim (Bool-cases (krs.enabled && krs.image == "")) [
    | inl d ↦ rw (e, d) (refl, refl, refl, refl, refl)
    | inr d ↦ rw (e, d) (refl, refl, refl, refl, refl)
  ]
]

sm-eq :
    (c : Config) (sm : ServiceMonitorConfig)
    → c.service_monitor_config ≡ some sm
    → service_monitor_enabled c ≡ sm.enabled
unfolding service_monitor_enabled
sm-eq c sm e = rw e refl

krs-eq :
    (c : Config) (krs : KubeResourceSyncConfig)
    → c.kube_resource_sync_config ≡ some krs
    → kube_resource_sync_enabled c ≡ krs.enabled
unfolding kube_resource_sync_enabled
krs-eq c krs e = rw e refl

EnableTheSame-IsKept : (p : Packages) (d : Config) → IsKept p (λ c. EnableTheSame c d)
unfolding override_service_monitor service_monitor_enabled prometheus_rule_enabled
    otel_sidecar_enabled kube_resource_sync_enabled volume_resize_enabled
EnableTheSame-IsKept p d = record {
  service_monitor_step = λ c sm file e v (s, r, o, k, v'). (sym (sm-eq c sm e) ∙ s, r, o, k, v');
  kube_resource_sync_step = λ c krs image e (s, r, o, k, v). (s, r, o, sym (krs-eq c krs e) ∙ k, v);
}

-- Whatever the file holds and whatever goes wrong, the returned configuration enables exactly the
-- features that the given one enables.
pub load_and_apply_config-enabled :
    (p : Packages) (read : ReadResult) (c : Config)
    → EnableTheSame (config (load_and_apply_config p read c)) c
unfolding load_and_apply_config
load_and_apply_config-enabled p read c =
    apply_read-kept (EnableTheSame-IsKept p c) read (apply_defaults c) (apply_defaults-enabled c)

-- An enabled kube-resource-sync has an image.
abbrev pub HasImage : Config → Type 0
HasImage c = kube_resource_sync_enabled c ≡ true → get_kube_resource_sync_image c ≢ ""

image_given : default_kube_resource_sync_image ≢ ""
image_given h = cc

apply_defaults-HasImage : (c : Config) → HasImage (apply_defaults c)
unfolding apply_defaults default_image kube_resource_sync_enabled get_kube_resource_sync_image
apply_defaults-HasImage c = elim (Option-cases c.kube_resource_sync_config) [
  | inl e ↦ ground arith
  | inr (krs, e) ↦ elim (Bool-cases (krs.enabled && krs.image == "")) [
    | inl d ↦ λ on empty. absurd (image_given (rw (e, d) at empty))
    | inr d ↦ λ on empty. ground (arith, eq_iff krs.image "", on, empty, d, e)
  ]
]

HasImage-IsKept : (p : Packages) → IsKept p HasImage
unfolding override_string kube_resource_sync_enabled get_kube_resource_sync_image
HasImage-IsKept p = record {
  service_monitor_step = λ c sm file e v h. h;
  kube_resource_sync_step = λ c krs image e h on. ground (arith, eq_iff image "", h, on);
}

-- Whatever the file holds and whatever goes wrong, if kube-resource-sync is enabled in the returned
-- configuration then it has a non-empty image there, also where the given one had none.
pub load_and_apply_config-HasImage :
    (p : Packages) (read : ReadResult) (c : Config)
    → HasImage (config (load_and_apply_config p read c))
unfolding load_and_apply_config
load_and_apply_config-HasImage p read c =
    apply_read-kept (HasImage-IsKept p) read (apply_defaults c) (apply_defaults-HasImage c)
