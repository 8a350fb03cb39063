-- ===== src/Manifests/Augmenting/Placed.antt =====
-- Where `AugmentWithOptions` mounts the Secrets and the ConfigMaps of the options.
use Prim.Native.String.{◌++◌ as ◌<>◌}
use mathlib.Core.List.{Memᴰ}
use mathlib.Core.List.Memᴰ
use thanos_operator.Common.{
  String, List, [], ◌∷◌, ◌++◌, Option, none, some, ◌≡◌, refl, inl, inr, Bool-cases, All, All-imp,
}
use thanos_operator.FeatureGate.{otel_sidecar_enabled}
use thanos_operator.Manifests.Names.{Naming}
use thanos_operator.Manifests.Augmenting.{
  VolumeMount, Volume, Container, PodTemplate, Options, Workload, deployment, stateful_set,
  other_object, augment_container, augment_pod_template, augment_otel, mount, VolumeSource,
  from_secret, from_config_map, secret_mount_path, config_map_mount_path, mount_each, with_context,
  mount_secrets, mount_config_map, mount_resource, augment_rest, augment_deployment, with_fs_group,
  default_fs_group, augment_stateful_set, augment_with_options,
}
use thanos_operator.Manifests.Augmenting.Mounted.{Yields, Yields-bind}

Yields-both :
    {A : Type 0} (P Q : A → Type 0) (m : Option A)
    → Yields P m
    → Yields Q m
    → Yields (λ a. P a × Q a) m
Yields-both P Q none p q = p
Yields-both P Q (some a) p q = (p, q)

Yields-imp :
    {A : Type 0} (P Q : A → Type 0) (m : Option A) → ((a : A) → P a → Q a) → Yields P m → Yields Q m
Yields-imp P Q none f p = p
Yields-imp P Q (some a) f p = f a p

Yields-All :
    {A B : Type 0} (P : B → A → Type 0) (Q : A → Type 0) (m : Option A) (xs : List B)
    → Yields Q m
    → All (λ x. Yields (P x) m) xs
    → Yields (λ a. Q a × All (λ x. P x a) xs) m
Yields-All P Q none xs q h = q
Yields-All P Q (some a) xs q h = (q, h)

module _ {Value : Type 0} where
  abbrev pub HasFirst : PodTemplate Value → Type 0
  HasFirst tl = (c : Container Value) × (cs : List (Container Value)) × (tl.containers ≡ c ∷ cs)

  -- A mount of the container at the path, and a volume of its name that stands for the source.
  abbrev pub IsIn : String → VolumeSource Value → List VolumeMount → List (Volume Value) → Type 0
  IsIn path source ms vs =
      (m : VolumeMount) × (v : Volume Value) × Memᴰ m ms
      × Memᴰ v vs
      × (m.mount_path ≡ path)
      × (m.name ≡ v.name)
      × (v.volume_source ≡ source)

  -- The first container mounts the source at the path.
  abbrev pub IsAt : String → VolumeSource Value → PodTemplate Value → Type 0
  IsAt path source tl =
      (c : Container Value) × (cs : List (Container Value)) × (tl.containers ≡ c ∷ cs)
      × IsIn path source c.volume_mounts tl.volumes

  mount-IsAt_kept :
      (path : String) (source : VolumeSource Value) (m : VolumeMount) (v : Volume Value)
      (pt : PodTemplate Value)
      → IsAt path source pt
      → Yields (IsAt path source) (mount m v pt)
  unfolding mount
  mount-IsAt_kept path source m v pt (c, cs, q, (n, w, i, j, e, f, g)) = rw q (
    record c { volume_mounts = c.volume_mounts ++ m ∷ [] },
    cs,
    refl,
    (n, w, Memᴰ.append_left (m ∷ []) i, Memᴰ.append_left (v ∷ []) j, e, f, g),
  )

  mount-IsAt :
      (m : VolumeMount) (v : Volume Value) (pt : PodTemplate Value)
      → m.name ≡ v.name
      → HasFirst pt
      → Yields (IsAt m.mount_path v.volume_source) (mount m v pt)
  unfolding mount
  mount-IsAt m v pt e (c, cs, q) = rw q (
    record c { volume_mounts = c.volume_mounts ++ m ∷ [] },
    cs,
    refl,
    (
      m,
      v,
      Memᴰ.append_right c.volume_mounts (Memᴰ.head refl),
      Memᴰ.append_right pt.volumes (Memᴰ.head refl),
      refl,
      e,
      refl,
    ),
  )

  augment_pod_template-HasFirst :
      (opts : Options Value) (tl : PodTemplate Value)
      → HasFirst tl
      → Yields HasFirst (augment_pod_template opts tl)
  unfolding augment_pod_template augment_container
  augment_pod_template-HasFirst opts tl (c, cs, q) =
      rw q (augment_container opts c, cs ++ opts.additional.containers, refl)

  augment_otel-HasFirst : (tl : PodTemplate Value) → HasFirst tl → Yields HasFirst (augment_otel tl)
  unfolding augment_otel
  augment_otel-HasFirst tl (c, cs, q) = rw q (_, cs, refl)

  module _ (naming : Naming) where
    module _ (prefix dir : String) (kind : String → VolumeSource Value) where
      mount_each-IsAt_kept :
          (path : String) (source : VolumeSource Value) (names : List String)
          (pt : PodTemplate Value)
          → IsAt path source pt
          → Yields (IsAt path source) (mount_each naming prefix dir kind names pt)
      unfolding mount_each
      mount_each-IsAt_kept path source [] pt h = h
      mount_each-IsAt_kept path source (s ∷ names) pt h =
          Yields-bind (IsAt path source) (IsAt path source) _
            (mount_each naming prefix dir kind names) (mount-IsAt_kept path source _ _ pt h)
            (mount_each-IsAt_kept path source names)

      abbrev AreAt : List String → PodTemplate Value → Type 0
      AreAt names tl = HasFirst tl × All (λ s. IsAt (dir <> s) (kind s) tl) names

      mount_each-AreAt :
          (names : List String) (pt : PodTemplate Value)
          → HasFirst pt
          → Yields (AreAt names) (mount_each naming prefix dir kind names pt)
      unfolding mount_each
      mount_each-AreAt [] pt h = (h, tt)
      mount_each-AreAt (s ∷ names) pt h =
          Yields-bind (IsAt (dir <> s) (kind s)) (AreAt (s ∷ names)) _
            (mount_each naming prefix dir kind names) (mount-IsAt _ _ pt refl h)
            λ t i.
              Yields-imp (λ a. IsAt (dir <> s) (kind s) a × AreAt names a) (AreAt (s ∷ names))
                (mount_each naming prefix dir kind names t) (λ a p. (p.1.0, (p.0, p.1.1)))
                (Yields-both (IsAt (dir <> s) (kind s)) (AreAt names) _
                  (mount_each-IsAt_kept (dir <> s) (kind s) names t i)
                  (mount_each-AreAt names t (i.0, i.1, i.2)))

    -- Every Secret and every ConfigMap of the options is mounted in its directory.
    abbrev pub IsPlaced : Options Value → PodTemplate Value → Type 0
    IsPlaced opts tl =
        All (λ s. IsAt (secret_mount_path <> s) (from_secret s) tl) opts.additional.secrets
        × All (λ s. IsAt (config_map_mount_path <> s) (from_config_map s) tl)
            opts.additional.config_maps

    mount_resource-IsPlaced :
        (opts : Options Value) (pt : PodTemplate Value)
        → HasFirst pt
        → Yields (IsPlaced opts) (mount_resource naming opts pt)
    unfolding mount_resource mount_secrets mount_config_map
    mount_resource-IsPlaced opts pt h =
        let secrets = opts.additional.secrets in
        let maps = opts.additional.config_maps in
        let kept = mount_each-IsAt_kept "secret-" secret_mount_path from_secret in
        Yields-bind (AreAt "configmap-" config_map_mount_path from_config_map maps) (IsPlaced opts)
          (mount_config_map naming maps pt) (mount_secrets naming secrets)
          (mount_each-AreAt "configmap-" config_map_mount_path from_config_map maps pt h)
          λ t a.
            Yields-imp _ (IsPlaced opts) _ (λ r p. (p.0.1, p.1))
              (Yields-All (λ s. IsAt (config_map_mount_path <> s) (from_config_map s))
                (AreAt "secret-" secret_mount_path from_secret secrets)
                (mount_secrets naming secrets t) maps
                (mount_each-AreAt "secret-" secret_mount_path from_secret secrets t a.0)
                (All-imp maps
                  (λ s i. kept (config_map_mount_path <> s) (from_config_map s) secrets t i) a.1))

    augment_rest-IsPlaced :
        (opts : Options Value) (tl : PodTemplate Value)
        → HasFirst tl
        → Yields (IsPlaced opts) (augment_rest naming opts tl)
    unfolding augment_rest
    augment_rest-IsPlaced opts tl h = elim (Bool-cases (otel_sidecar_enabled opts.config)) [
      | inl e ↦ rw e (
          Yields-bind HasFirst (IsPlaced opts) (augment_otel tl) _ (augment_otel-HasFirst tl h)
            (mount_resource-IsPlaced opts))
      | inr e ↦ rw e (mount_resource-IsPlaced opts tl h)
    ]

    -- The Deployment or StatefulSet has a first container.
    abbrev pub HasContainer : Workload Value → Type 0
    HasContainer (deployment tl) = HasFirst tl
    HasContainer (stateful_set s) = HasFirst s.template
    HasContainer (other_object o) = ⊥

    abbrev pub IsPlacedWorkload : Options Value → Workload Value → Type 0
    IsPlacedWorkload opts (deployment tl) = IsPlaced opts tl
    IsPlacedWorkload opts (stateful_set s) = IsPlaced opts s.template
    IsPlacedWorkload opts (other_object o) = ⊥

    -- For a Deployment or StatefulSet with a container `AugmentWithOptions` does not panic, and
    -- afterwards the first container mounts every Secret and every ConfigMap that the options name: at
    -- the path of its name under the directory for its kind there is a mount, and a volume with the
    -- mount's name that is taken from that Secret or ConfigMap.
    pub augment_with_options-IsPlaced :
        (opts : Options Value) (w : Workload Value)
        → HasContainer w
        → Yields (IsPlacedWorkload opts) (augment_with_options naming opts w)
    unfolding augment_with_options augment_deployment augment_stateful_set
    augment_with_options-IsPlaced opts (deployment tl) h =
        Yields-bind (IsPlaced opts) (IsPlacedWorkload opts) _ _
          (Yields-bind HasFirst (IsPlaced opts) _ _ (augment_pod_template-HasFirst opts tl h)
            (λ t m. augment_rest-IsPlaced opts (with_context opts t.security_context t) m))
          (λ t m. m)
    augment_with_options-IsPlaced opts (stateful_set s) h =
        Yields-bind (λ r. IsPlaced opts r.template) (IsPlacedWorkload opts) _ _
          (Yields-bind (IsPlaced opts) (λ r. IsPlaced opts r.template) _ _
            (Yields-bind HasFirst (IsPlaced opts) _ _
              (augment_pod_template-HasFirst opts s.template h)
              (λ t m.
                augment_rest-IsPlaced opts
                  (with_context opts (some (with_fs_group default_fs_group)) (record t {
                    termination_grace_period_seconds =
                        opts.stateful_set.termination_grace_period_seconds;
                  }))
                  m))
            (λ t m. m))
          (λ t m. m)
    augment_with_options-IsPlaced opts (other_object o) h = absurd h
