-- ===== src/FeatureGate/Flags.antt =====
-- The flag, and the configuration that it turns into.
use thanos_operator.Common.{
  String, Bool, true, ◌||◌, ◌==◌, [], ◌∷◌, ◌++◌, ◌≡◌, refl, inl, inr, Bool-cases, arith,
}
use thanos_operator.FeatureGate.{
  Flag, ok, set, flag_contains, is_valid_feature, to_feature_gate, service_monitor, prometheus_rule,
  otel_sidecar, kube_resource_sync, volume_resize, service_monitor_enabled, prometheus_rule_enabled,
  otel_sidecar_enabled, kube_resource_sync_enabled, volume_resize_enabled,
}

flag_contains-snoc :
    (f : Flag) (value feature : String)
    → flag_contains (f ++ value ∷ []) feature ≡ (flag_contains f feature || value == feature)
unfolding flag_contains
flag_contains-snoc [] value feature = ground arith
flag_contains-snoc (v ∷ f) value feature = ground (arith, flag_contains-snoc f value feature)

-- What a configuration says of a feature is what the flag says.
service_monitor_enabled-to_feature_gate :
    (f : Flag) → service_monitor_enabled (to_feature_gate f) ≡ flag_contains f service_monitor
unfolding service_monitor_enabled to_feature_gate
service_monitor_enabled-to_feature_gate f = elim (Bool-cases (flag_contains f service_monitor)) [
  | inl e ↦ rw e refl
  | inr e ↦ rw e refl
]

prometheus_rule_enabled-to_feature_gate :
    (f : Flag) → prometheus_rule_enabled (to_feature_gate f) ≡ flag_contains f prometheus_rule
unfolding prometheus_rule_enabled to_feature_gate
prometheus_rule_enabled-to_feature_gate f = elim (Bool-cases (flag_contains f prometheus_rule)) [
  | inl e ↦ rw e refl
  | inr e ↦ rw e refl
]

otel_sidecar_enabled-to_feature_gate :
    (f : Flag) → otel_sidecar_enabled (to_feature_gate f) ≡ flag_contains f otel_sidecar
unfolding otel_sidecar_enabled to_feature_gate
otel_sidecar_enabled-to_feature_gate f = elim (Bool-cases (flag_contains f otel_sidecar)) [
  | inl e ↦ rw e refl
  | inr e ↦ rw e refl
]

kube_resource_sync_enabled-to_feature_gate :
    (f : Flag) → kube_resource_sync_enabled (to_feature_gate f) ≡ flag_contains f kube_resource_sync
unfolding kube_resource_sync_enabled to_feature_gate
kube_resource_sync_enabled-to_feature_gate f =
    elim (Bool-cases (flag_contains f kube_resource_sync)) [ inl e ↦ rw e refl | inr e ↦ rw e refl ]

volume_resize_enabled-to_feature_gate :
    (f : Flag) → volume_resize_enabled (to_feature_gate f) ≡ flag_contains f volume_resize
unfolding volume_resize_enabled to_feature_gate
volume_resize_enabled-to_feature_gate f = elim (Bool-cases (flag_contains f volume_resize)) [
  | inl e ↦ rw e refl
  | inr e ↦ rw e refl
]

-- What `set` returns when it accepts a value.
set-ok :
    (f g : Flag) (value : String)
    → set f value ≡ ok g
    → (g ≡ (f ++ value ∷ [])) × (is_valid_feature value ≡ true)
unfolding set
set-ok f g value h = elim (Bool-cases (is_valid_feature value)) [
  | inl e ↦ (ground (arith, e), e)
  | inr e ↦ ground (arith, e)
]

-- One feature's share of the theorem below.
added :
    (enabled : Flag → Bool) (f g : Flag) (value feature : String)
    → ((l : Flag) → enabled l ≡ flag_contains l feature)
    → g ≡ (f ++ value ∷ [])
    → enabled g ≡ (enabled f || value == feature)
added enabled f g value feature same e = rw (same g, same f, e) (flag_contains-snoc f value feature)

-- A feature is enabled in the configuration of a flag to which a value was added exactly if it was
-- enabled before or is the value, for each of the five features; a value that is no feature name
-- is refused.
pub set-to_feature_gate :
    (f g : Flag) (value : String)
    → set f value ≡ ok g
    → (service_monitor_enabled (to_feature_gate g)
        ≡ (service_monitor_enabled (to_feature_gate f) || value == service_monitor))
      × (prometheus_rule_enabled (to_feature_gate g)
          ≡ (prometheus_rule_enabled (to_feature_gate f) || value == prometheus_rule))
      × (otel_sidecar_enabled (to_feature_gate g)
          ≡ (otel_sidecar_enabled (to_feature_gate f) || value == otel_sidecar))
      × (kube_resource_sync_enabled (to_feature_gate g)
          ≡ (kube_resource_sync_enabled (to_feature_gate f) || value == kube_resource_sync))
      × (volume_resize_enabled (to_feature_gate g)
          ≡ (volume_resize_enabled (to_feature_gate f) || value == volume_resize))
      × (is_valid_feature value ≡ true)
set-to_feature_gate f g value h =
    let (e, valid) = set-ok f g value h in
    (
      added (λ l. service_monitor_enabled (to_feature_gate l)) f g value service_monitor
          service_monitor_enabled-to_feature_gate e,
      added (λ l. prometheus_rule_enabled (to_feature_gate l)) f g value prometheus_rule
          prometheus_rule_enabled-to_feature_gate e,
      added (λ l. otel_sidecar_enabled (to_feature_gate l)) f g value otel_sidecar
          otel_sidecar_enabled-to_feature_gate e,
      added (λ l. kube_resource_sync_enabled (to_feature_gate l)) f g value kube_resource_sync
          kube_resource_sync_enabled-to_feature_gate e,
      added (λ l. volume_resize_enabled (to_feature_gate l)) f g value volume_resize
          volume_resize_enabled-to_feature_gate e,
      valid,
    )
