-- ===== src/Manifests/Augmenting/Mounted.antt =====
-- The mounts of the first container after `AugmentWithOptions`.
use mathlib.Core.List.{Memᴰ}
use mathlib.Core.List.Memᴰ
use thanos_operator.Common.{
  String, List, [], ◌∷◌, ◌++◌, Option, none, some, ◌≡◌, refl, inl, inr, Bool-cases, All, All-imp,
  All-append,
}
use thanos_operator.Common.Opt.{◌>>=◌}
use thanos_operator.FeatureGate.{otel_sidecar_enabled}
use thanos_operator.Manifests.Names.{Naming}
use thanos_operator.Manifests.Augmenting.{
  VolumeMount, VolumeSource, from_secret, from_config_map, secret_mount_path, config_map_mount_path,
  mount_each, Volume, Container, PodTemplate, Options, Workload, deployment, stateful_set,
  other_object, augment_container, augment_pod_template, augment_otel, mount, mount_secrets,
  mount_config_map, mount_resource, augment_rest, augment_deployment, augment_stateful_set,
  augment_with_options, with_context, with_fs_group, default_fs_group,
}

-- There is a result, and the predicate holds of it.
abbrev pub Yields {ℓ} : {A : Type ℓ} → (A → Type 0) → Option A → Type 0
Yields P none = ⊥
Yields P (some a) = P a

pub Yields-bind :
    {A B : Type 0} (P : A → Type 0) (Q : B → Type 0) (m : Option A) (f : A → Option B)
    → Yields P m
    → ((a : A) → P a → Yields Q (f a))
    → Yields Q (m >>= f)
Yields-bind P Q none f y k = y
Yields-bind P Q (some a) f y k = k a y

module _ {Value : Type 0} where
  abbrev pub HasVolume : List (Volume Value) → VolumeMount → Type 0
  HasVolume vs m = (v : Volume Value) × Memᴰ v vs × (m.name ≡ v.name)

  -- There is a first container, and each of its mounts names a volume of the pod.
  abbrev pub IsMounted : PodTemplate Value → Type 0
  IsMounted tl =
      (c : Container Value) × (cs : List (Container Value)) × (tl.containers ≡ c ∷ cs)
      × All (HasVolume tl.volumes) c.volume_mounts

  abbrev pub IsMountedWorkload : Workload Value → Type 0
  IsMountedWorkload (deployment tl) = IsMounted tl
  IsMountedWorkload (stateful_set s) = IsMounted s.template
  IsMountedWorkload (other_object o) = Unit

  more_volumes :
      (vs ws : List (Volume Value)) (ms : List VolumeMount)
      → All (HasVolume vs) ms
      → All (HasVolume (vs ++ ws)) ms
  more_volumes vs ws ms = All-imp ms (λ m h. (h.0, Memᴰ.append_left ws h.1, h.2))

  mount-IsMounted :
      (m : VolumeMount) (v : Volume Value) (pt : PodTemplate Value)
      → m.name ≡ v.name
      → IsMounted pt
      → Yields IsMounted (mount m v pt)
  unfolding mount
  mount-IsMounted m v pt e (c, cs, q, h) = rw q (
    record c { volume_mounts = c.volume_mounts ++ m ∷ [] },
    cs,
    refl,
    All-append (HasVolume (pt.volumes ++ v ∷ [])) c.volume_mounts (m ∷ [])
        (more_volumes pt.volumes (v ∷ []) c.volume_mounts h)
        ((v, Memᴰ.append_right pt.volumes (Memᴰ.head refl), e), tt),
  )

  augment_pod_template-IsMounted :
      (opts : Options Value) (tl : PodTemplate Value)
      → All (HasVolume (tl.volumes ++ opts.additional.volumes)) opts.additional.volume_mounts
      → IsMounted tl
      → Yields IsMounted (augment_pod_template opts tl)
  unfolding augment_pod_template augment_container
  augment_pod_template-IsMounted opts tl a (c, cs, q, h) = rw q (
    augment_container opts c,
    cs ++ opts.additional.containers,
    refl,
    All-append (HasVolume (tl.volumes ++ opts.additional.volumes)) c.volume_mounts
        opts.additional.volume_mounts
        (more_volumes tl.volumes opts.additional.volumes c.volume_mounts h) a,
  )

  augment_otel-IsMounted :
      (tl : PodTemplate Value) → IsMounted tl → Yields IsMounted (augment_otel tl)
  unfolding augment_otel
  augment_otel-IsMounted tl (c, cs, q, h) = rw q (_, cs, refl, h)

  module _ (naming : Naming) where
    mount_each-IsMounted :
        (prefix dir : String) (source : String → VolumeSource Value) (names : List String)
        (pt : PodTemplate Value)
        → IsMounted pt
        → Yields IsMounted (mount_each naming prefix dir source names pt)
    unfolding mount_each
    mount_each-IsMounted prefix dir source [] pt h = h
    mount_each-IsMounted prefix dir source (s ∷ names) pt h =
        Yields-bind IsMounted IsMounted _ (mount_each naming prefix dir source names)
          (mount-IsMounted _ _ pt refl h) (mount_each-IsMounted prefix dir source names)

    mount_resource-IsMounted :
        (opts : Options Value) (pt : PodTemplate Value)
        → IsMounted pt
        → Yields IsMounted (mount_resource naming opts pt)
    unfolding mount_resource mount_secrets mount_config_map
    mount_resource-IsMounted opts pt h =
        Yields-bind IsMounted IsMounted _ (mount_secrets naming opts.additional.secrets)
          (mount_each-IsMounted "configmap-" config_map_mount_path from_config_map
            opts.additional.config_maps pt h)
          (mount_each-IsMounted "secret-" secret_mount_path from_secret opts.additional.secrets)

    augment_rest-IsMounted :
        (opts : Options Value) (tl : PodTemplate Value)
        → IsMounted tl
        → Yields IsMounted (augment_rest naming opts tl)
    unfolding augment_rest
    augment_rest-IsMounted opts tl h = elim (Bool-cases (otel_sidecar_enabled opts.config)) [
      | inl e ↦ rw e (
          Yields-bind IsMounted IsMounted (augment_otel tl) _ (augment_otel-IsMounted tl h)
            (mount_resource-IsMounted opts))
      | inr e ↦ rw e (mount_resource-IsMounted opts tl h)
    ]

    -- The pod template that the options are applied to.
    abbrev pub template_volumes : Workload Value → List (Volume Value)
    template_volumes (deployment tl) = tl.volumes
    template_volumes (stateful_set s) = s.template.volumes
    template_volumes (other_object o) = []

    -- For a Deployment, a StatefulSet or another object whose first container exists and mounts only
    -- volumes of the pod, where the additional mounts of the options name a volume of the pod or of the
    -- options: `AugmentWithOptions` does not panic, and in its result again each mount of the first
    -- container, those for the Secrets and ConfigMaps included, names a volume of the pod.
    pub augment_with_options-IsMounted :
        (opts : Options Value) (w : Workload Value)
        → All
            (HasVolume (template_volumes w ++ opts.additional.volumes))
            opts.additional.volume_mounts
        → IsMountedWorkload w
        → Yields IsMountedWorkload (augment_with_options naming opts w)
    unfolding augment_with_options augment_deployment augment_stateful_set
    augment_with_options-IsMounted opts (deployment tl) a h =
        Yields-bind IsMounted IsMountedWorkload _ _
          (Yields-bind IsMounted IsMounted _ _ (augment_pod_template-IsMounted opts tl a h)
            (λ t m. augment_rest-IsMounted opts (with_context opts t.security_context t) m))
          (λ t m. m)
    augment_with_options-IsMounted opts (stateful_set s) a h =
        Yields-bind (λ r. IsMounted r.template) IsMountedWorkload _ _
          (Yields-bind IsMounted (λ r. IsMounted r.template) _ _
            (Yields-bind IsMounted IsMounted _ _
              (augment_pod_template-IsMounted opts s.template a h)
              (λ t m.
                augment_rest-IsMounted opts
                  (with_context opts (some (with_fs_group default_fs_group)) (record t {
                    termination_grace_period_seconds =
                        opts.stateful_set.termination_grace_period_seconds;
                  }))
                  m))
            (λ t m. m))
          (λ t m. m)
    augment_with_options-IsMounted opts (other_object o) a h = tt
