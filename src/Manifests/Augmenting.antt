-- ===== src/Manifests/Augmenting.antt =====
-- internal/pkg/manifests/options.go: how the options of a component change a built Deployment or
-- StatefulSet. The parts of an object that are copied whole are values of a parameter `Value`. The
-- first container is indexed without a look at the length: without one the code panics, here `none`.
pub mod Mounted
pub mod Placed
mod Tests
use text.Mathlib.Text.{find?}
use Prim.Native.String.{◌++◌ as ◌<>◌}
use thanos_operator.Common.{
  ℕ, String, Bool, true, false, ◌||◌, ◌==◌, List, [], ◌∷◌, ◌++◌, Option, none, some, Labels, ℤ, pos,
  negsuc, insert, if◌then◌else◌,
}
use thanos_operator.Common.Opt.{◌>>=◌}
use thanos_operator.FeatureGate.{Config, otel_sidecar_enabled}
use thanos_operator.Manifests.Args.{merge_args, is_missing}
use thanos_operator.Manifests.Names.{Naming, sanitize_name}
use mathlib.Core.Option

abbrev pub default_thanos_image : String
default_thanos_image = "quay.io/thanos/thanos"

abbrev pub default_thanos_version : String
default_thanos_version = "v0.42.0"

abbrev pub default_fs_group : ℕ
default_fs_group = 1001

abbrev pub secret_mount_path : String
secret_mount_path = "/etc/thanos/secrets/"

abbrev pub config_map_mount_path : String
config_map_mount_path = "/etc/thanos/configmaps/"

pub data SecurityContext (Value : Type 0) : Type 0 where
  with_fs_group : ℕ → SecurityContext Value
  given_context : Value → SecurityContext Value

pub data VolumeSource (Value : Type 0) : Type 0 where
  from_secret : String → VolumeSource Value
  from_config_map : String → VolumeSource Value
  other_source : Value → VolumeSource Value

pub record VolumeMount : Type 0 where
  pub name : String
  pub read_only : Bool
  pub mount_path : String

pub record Volume (Value : Type 0) : Type 0 where
  pub name : String
  pub volume_source : VolumeSource Value

pub record Container (Value : Type 0) : Type 0 where
  pub image : String
  pub resources : Value
  pub volume_mounts : List VolumeMount
  pub ports : List Value
  pub env : List Value
  pub args : List String
  pub rest : Value

-- The fields of a placement, of a pod or of the options.
pub record Placement (Value : Type 0) : Type 0 where
  pub node_selector : Value
  pub affinity : Value
  pub tolerations : Value
  pub topology_spread_constraints : Value

pub record PodTemplate (Value : Type 0) : Type 0 where
  pub annotations : Option Labels
  pub containers : List (Container Value)
  pub volumes : List (Volume Value)
  pub placement : Placement Value
  pub termination_grace_period_seconds : Value
  pub security_context : Option (SecurityContext Value)
  pub rest : Value

pub record Additional (Value : Type 0) : Type 0 where
  pub args : Option (List String)
  pub containers : List (Container Value)
  pub volumes : List (Volume Value)
  pub volume_mounts : List VolumeMount
  pub ports : List Value
  pub env : List Value
  pub config_maps : List String
  pub secrets : List String
  pub service_ports : List Value

pub record PvcRetentionPolicy : Type 0 where
  pub on_scale : String
  pub on_delete : String

-- `StatefulSet`, the options for a StatefulSet.
pub record StatefulSetOptions (Value : Type 0) : Type 0 where
  pub pod_management_policy : String
  pub pvc_retention_policy : PvcRetentionPolicy
  pub termination_grace_period_seconds : Value
  pub min_ready_seconds : Option ℤ

pub record PodDisruptionBudgetOptions : Type 0 where
  pub max_unavailable : Option ℤ
  pub min_available : Option ℤ

pub record Options (Value : Type 0) : Type 0 where
  pub owner : String
  pub namespace : String
  pub replicas : ℤ
  pub labels : Labels
  -- The nil map is `none`.
  pub annotations : Option Labels
  pub log_level : Option String
  pub log_format : Option String
  pub pod_disruption_config : Option PodDisruptionBudgetOptions
  pub additional : Additional Value
  pub stateful_set : StatefulSetOptions Value
  pub image : Option String
  pub version : Option String
  pub resource_requirements : Option Value
  pub placement_config : Option (Placement Value)
  pub security_context : Option Value
  pub config : Config

pub record StatefulSet (Value : Type 0) : Type 0 where
  pub template : PodTemplate Value
  pub pod_management_policy : String
  pub pvc_retention_policy : Option PvcRetentionPolicy
  pub min_ready_seconds : ℤ
  pub rest : Value

pub data Workload (Value : Type 0) : Type 0 where
  deployment : PodTemplate Value → Workload Value
  stateful_set : StatefulSet Value → Workload Value
  other_object : Value → Workload Value

-- `o.Image == nil || *o.Image == ""`, and likewise for the version.
abbrev pub or_default : Option String → String → String
or_default none d = d
or_default (some s) d = if s == "" then d else s

abbrev pub tracing_arg : String
tracing_arg =
    "--tracing.config=type: OTLP\nconfig:\n  client_type: http\n  endpoint: localhost:4318\n  insecure: true"

unfoldable pub retention :
    PvcRetentionPolicy → Option PvcRetentionPolicy → Option PvcRetentionPolicy
retention p old = if p.on_scale == "" then if p.on_delete == "" then old else some p else some p

unfoldable pub ready_seconds : Option ℤ → ℤ → ℤ
ready_seconds none old = old
ready_seconds (some (pos n)) old = pos n
ready_seconds (some (negsuc n)) old = old

module _ {Value : Type 0} where
  unfoldable pub get_container_image : Options Value → String
  get_container_image o =
      let image = or_default o.image default_thanos_image in
      if is_missing (find? image ":")
      then image <> ":" <> or_default o.version default_thanos_version
      else image

  -- `&tl.Spec.Containers[0]`, changed in place.
  abbrev pub on_first :
      (Container Value → Container Value) → PodTemplate Value → Option (PodTemplate Value)
  on_first f tl = elim tl.containers [
    | [] ↦ none
    | c ∷ cs ↦ some (record tl { containers = f c ∷ cs })
  ]

  unfoldable pub augment_container : Options Value → Container Value → Container Value
  unfolding get_container_image
  augment_container opts c = record c {
    image = get_container_image opts;
    resources = Option.get_or opts.resource_requirements c.resources;
    volume_mounts = c.volume_mounts ++ opts.additional.volume_mounts;
    ports = c.ports ++ opts.additional.ports;
    env = c.env ++ opts.additional.env;
    args = elim opts.additional.args [ none ↦ c.args | some args ↦ merge_args c.args args ];
  }

  unfoldable pub augment_pod_template :
      Options Value → PodTemplate Value → Option (PodTemplate Value)
  unfolding augment_container
  augment_pod_template opts tl = on_first (augment_container opts) tl >>= λ t. some (record t {
    containers = t.containers ++ opts.additional.containers;
    volumes = t.volumes ++ opts.additional.volumes;
    placement = Option.get_or opts.placement_config t.placement;
  })

  unfoldable pub augment_otel : PodTemplate Value → Option (PodTemplate Value)
  augment_otel tl =
      on_first (λ c. record c { args = merge_args c.args (tracing_arg ∷ []) })
        (record tl {
          annotations =
              some
                (insert "sidecar.opentelemetry.io/inject" "true" (Option.get_or tl.annotations []));
        })

  -- One turn of the loops that mount: a mount for the first container, then a volume.
  unfoldable pub mount : VolumeMount → Volume Value → PodTemplate Value → Option (PodTemplate Value)
  mount m v pt = on_first (λ c. record c { volume_mounts = c.volume_mounts ++ m ∷ [] }) pt >>= λ t.
      some (record t { volumes = t.volumes ++ v ∷ [] })

  abbrev pub with_context :
      Options Value → Option (SecurityContext Value) → PodTemplate Value → PodTemplate Value
  with_context opts otherwise tl = record tl {
    security_context = elim opts.security_context [
      | none ↦ otherwise
      | some sc ↦ some (given_context sc)
    ];
  }

  module _ (naming : Naming) where
    -- The loop of `mountSecrets` and of `mountConfigMap`, with the prefix of the volume names, that of
    -- the paths and the kind of volume.
    unfoldable pub mount_each :
        String
        → String
        → (String → VolumeSource Value)
        → List String
        → PodTemplate Value
        → Option (PodTemplate Value)
    unfolding mount
    mount_each prefix dir source [] pt = some pt
    mount_each prefix dir source (s ∷ names) pt =
        let name = prefix <> sanitize_name naming s in
        mount record { name = name; read_only = true; mount_path = dir <> s }
          record { name = name; volume_source = source s } pt
        >>= mount_each prefix dir source names

    unfoldable pub mount_secrets : List String → PodTemplate Value → Option (PodTemplate Value)
    unfolding mount_each
    mount_secrets secrets pt = mount_each "secret-" secret_mount_path from_secret secrets pt

    unfoldable pub mount_config_map : List String → PodTemplate Value → Option (PodTemplate Value)
    unfolding mount_each
    mount_config_map config_maps pt =
        mount_each "configmap-" config_map_mount_path from_config_map config_maps pt

    unfoldable pub mount_resource : Options Value → PodTemplate Value → Option (PodTemplate Value)
    unfolding mount_secrets mount_config_map
    mount_resource opts pt =
        mount_config_map opts.additional.config_maps pt >>= mount_secrets opts.additional.secrets

    -- The steps that both kinds share after the pod template and the security context. Without a
    -- Secret and a ConfigMap the loops do nothing, so the code's test of the lengths changes nothing.
    unfoldable pub augment_rest : Options Value → PodTemplate Value → Option (PodTemplate Value)
    unfolding augment_otel mount_resource
    augment_rest opts tl =
        (if otel_sidecar_enabled opts.config then augment_otel tl else some tl)
        >>= mount_resource opts

    unfoldable pub augment_deployment :
        Options Value → PodTemplate Value → Option (PodTemplate Value)
    unfolding augment_pod_template augment_rest
    augment_deployment opts tl = augment_pod_template opts tl >>= λ t.
        augment_rest opts (with_context opts t.security_context t)

    unfoldable pub augment_stateful_set :
        Options Value → StatefulSet Value → Option (StatefulSet Value)
    unfolding augment_pod_template augment_rest retention ready_seconds
    augment_stateful_set opts s =
        augment_pod_template opts s.template
        >>= (λ t. augment_rest opts (
            with_context opts (some (with_fs_group default_fs_group)) (record t {
              termination_grace_period_seconds = opts.stateful_set.termination_grace_period_seconds;
            })))
        >>= λ t. some record {
          template = t;
          pod_management_policy = opts.stateful_set.pod_management_policy;
          pvc_retention_policy =
              retention opts.stateful_set.pvc_retention_policy s.pvc_retention_policy;
          min_ready_seconds = ready_seconds opts.stateful_set.min_ready_seconds s.min_ready_seconds;
          rest = s.rest;
        }

    unfoldable pub augment_with_options : Options Value → Workload Value → Option (Workload Value)
    unfolding augment_deployment augment_stateful_set
    augment_with_options opts (deployment tl) =
        augment_deployment opts tl >>= λ t. some (deployment t)
    augment_with_options opts (stateful_set s) =
        augment_stateful_set opts s >>= λ t. some (stateful_set t)
    augment_with_options opts (other_object o) = some (other_object o)
