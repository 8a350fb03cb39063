-- ===== src/Manifests/Services.antt =====
-- `IsNamespacedResource`, `CheckServicePort` and its two uses in internal/pkg/manifests/util.go.
use thanos_operator.Common.{
  ℕ, String, Bool, true, false, ◌==◌, List, [], ◌∷◌, ◌≡◌, refl, Option, none, some, Labels, inl,
  inr, Bool-cases, if◌then◌else◌, arith, ==-eq,
}
use mathlib.Core.List.{Memᴰ}
use thanos_operator.Manifests.Labels.{has_required_labels}

-- The types that the functions tell apart.
pub data ObjectType : Type 0 where
  cluster_role cluster_role_binding namespaced : ObjectType

unfoldable pub is_namespaced_resource : ObjectType → Bool
is_namespaced_resource cluster_role = false
is_namespaced_resource cluster_role_binding = false
is_namespaced_resource namespaced = true

-- `OptionalToString`, over the formatting of a value.
unfoldable pub optional_to_string : {T : Type 0} → (T → String) → Option T → String
optional_to_string format none = ""
optional_to_string format (some t) = format t

pub record ServicePort : Type 0 where
  pub name : String
  pub port : ℕ

-- An object with labels, and its ports if it is a Service.
pub record Candidate : Type 0 where
  pub labels : Labels
  pub service : Option (List ServicePort)

unfoldable pub port_named : String → List ServicePort → Option ℕ
port_named port_name [] = none
port_named port_name (p ∷ ports) =
    if p.name == port_name then some p.port else port_named port_name ports

unfoldable pub service_port : Option (List ServicePort) → String → Option ℕ
unfolding port_named
service_port none port_name = none
service_port (some ports) port_name = port_named port_name ports

-- The port and `true`, or nothing for 0 and `false`.
unfoldable pub check_service_port : Candidate → Labels → String → Option ℕ
unfolding service_port
check_service_port obj required port_name =
    if has_required_labels obj.labels required then service_port obj.service port_name else none

unfoldable pub is_grpc_service_with_labels : Candidate → Labels → Option ℕ
unfolding check_service_port
is_grpc_service_with_labels obj required = check_service_port obj required "grpc"

unfoldable pub is_remote_write_service_with_labels : Candidate → Labels → Option ℕ
unfolding check_service_port
is_remote_write_service_with_labels obj required = check_service_port obj required "remote-write"

port_named-mem :
    (port_name : String) (ports : List ServicePort) (n : ℕ)
    → port_named port_name ports ≡ some n
    → (p : ServicePort) × Memᴰ p ports × (p.name ≡ port_name) × (p.port ≡ n)
unfolding port_named
port_named-mem port_name [] n h = cc
port_named-mem port_name (p ∷ ports) n h = elim (Bool-cases (p.name == port_name)) [
  | inl e ↦ (p, Memᴰ.head refl, ==-eq p.name port_name e, ground arith)
  | inr e ↦
      let (q, m, name, port) = port_named-mem port_name ports n (ground arith) in
      (q, Memᴰ.tail m, name, port)
]

-- An object is taken for a gRPC service at a port only if it has the required labels and is a
-- Service with a port of that number that is named "grpc".
pub is_grpc_service_with_labels-some :
    (labels required : Labels) (service : Option (List ServicePort)) (n : ℕ)
    → is_grpc_service_with_labels (record { labels = labels; service = service }) required ≡ some n
    → (has_required_labels labels required ≡ true)
      × (ports : List ServicePort) × (service ≡ some ports)
      × (p : ServicePort) × Memᴰ p ports
      × (p.name ≡ "grpc")
      × (p.port ≡ n)
unfolding is_grpc_service_with_labels check_service_port service_port
is_grpc_service_with_labels-some labels required none n h =
    elim (Bool-cases (has_required_labels labels required)) [
      | inl e ↦ ground arith
      | inr e ↦ ground arith
    ]
is_grpc_service_with_labels-some labels required (some ports) n h =
    elim (Bool-cases (has_required_labels labels required)) [
      | inl e ↦
          let (p, m, name, port) = port_named-mem "grpc" ports n (ground arith) in
          (e, ports, refl, p, m, name, port)
      | inr e ↦ ground arith
    ]
