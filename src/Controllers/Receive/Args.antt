-- ===== src/Controllers/Receive/Args.antt =====
-- `ingestorArgsFrom` and `routerArgsFrom` of internal/pkg/manifests/receive/builder.go. Maps are given as
-- lists, in the order in which the loop walks them.
use Prim.Native.String.{◌++◌ as ◌<>◌}
use thanos_operator.Common.{String, List, [], ◌∷◌, ◌++◌, ◌==◌, if◌then◌else◌, ℤ, Labels}
use thanos_operator.Controllers.Selectors.{ingester_resource_name}
use thanos_operator.Controllers.Store.Args.{StoreLimitsOpts, limit_args, signed}
use thanos_operator.Manifests.Args.{prune_empty_args}
use thanos_operator.Manifests.Augmenting.{Options}
use thanos_operator.Manifests.Names.{Naming}
use thanos_operator.Transform.{to_flags}

pub record TenancyOpts : Type 0 where
  pub tenant_header : String
  pub tenant_certificate_field : String
  pub default_tenant_id : String
  pub split_tenant_label_name : String
  pub tenant_label_name : String

-- `IngesterOptions`, as far as the arguments are made of it.
pub record IngesterArgOptions (Value : Type 0) : Type 0 where
  pub common : Options Value
  pub retention : String
  pub tenancy : TenancyOpts
  pub store_limits : StoreLimitsOpts
  pub external_labels : Labels
  pub hashring_name : String
  pub async_forward_worker_count : String
  pub too_far_in_future_time_window : String
  pub replication_protocol : String
  pub grpc_compression : String

-- `RouterOptions`, as far as the arguments are made of it.
pub record RouterArgOptions (Value : Type 0) : Type 0 where
  pub common : Options Value
  pub replication_factor : ℤ
  pub external_labels : Labels
  pub replication_protocol : String

unfoldable pub external_label_args : Labels → List String
external_label_args [] = []
external_label_args ((k, v) ∷ labels) =
    ("--label=" <> k <> "=\"" <> v <> "\"") ∷ external_label_args labels

abbrev pub grpc_disable_endless_retry : String
grpc_disable_endless_retry =
    "{\n  \"loadBalancingPolicy\":\"round_robin\",\n  \"retryPolicy\": {\n    \"maxAttempts\": 2,\n    \"initialBackoff\": \"0.1s\",\n    \"backoffMultiplier\": 1,\n    \"retryableStatusCodes\": [\n  \t  \"UNAVAILABLE\"\n    ]\n  }\n}"

module _ (naming : Naming) where
  unfoldable pub ingester_args_from : {Value : Type 0} → IngesterArgOptions Value → List String
  unfolding external_label_args
  ingester_args_from opts =
      let name = ingester_resource_name naming opts.common.owner opts.hashring_name in
      prune_empty_args (
        ("receive" ∷ to_flags opts.common)
        ++ (("--grpc-address=0.0.0.0:" <> naming.decimal 10901)
            ∷ ("--http-address=0.0.0.0:" <> naming.decimal 10902)
            ∷ ("--remote-write.address=0.0.0.0:" <> naming.decimal 19291)
            ∷ "--tsdb.path=/var/thanos/receive"
            ∷ ("--tsdb.retention=" <> opts.retention)
            ∷ "--objstore.config=$(OBJSTORE_CONFIG)"
            ∷ ("--receive.local-endpoint=$(POD_NAME)."
                <> name
                <> ".$(POD_NAMESPACE).svc:"
                <> naming.decimal 10901)
            ∷ ("--receive.forward.async-workers=" <> opts.async_forward_worker_count)
            ∷ ("--tsdb.too-far-in-future.time-window=" <> opts.too_far_in_future_time_window)
            ∷ ("--receive.tenant-header=" <> opts.tenancy.tenant_header)
            ∷ ("--receive.tenant-certificate-field=" <> opts.tenancy.tenant_certificate_field)
            ∷ ("--receive.default-tenant-id=" <> opts.tenancy.default_tenant_id)
            ∷ ("--receive.split-tenant-label-name=" <> opts.tenancy.split_tenant_label_name)
            ∷ ("--receive.tenant-label-name=" <> opts.tenancy.tenant_label_name)
            ∷ [])
        ++ limit_args naming.decimal opts.store_limits
        ++ external_label_args opts.external_labels
        ++ (if opts.replication_protocol == "capnproto"
            then ("--receive.capnproto-address=0.0.0.0:" <> naming.decimal 19391) ∷ []
            else [])
        ++ (if opts.grpc_compression == "none"
            then ("--receive.grpc-compression=" <> opts.grpc_compression) ∷ []
            else []))

  unfoldable pub router_args_from : {Value : Type 0} → RouterArgOptions Value → List String
  unfolding external_label_args
  router_args_from opts = prune_empty_args (
      ("receive" ∷ to_flags opts.common)
      ++ (("--grpc-address=0.0.0.0:" <> naming.decimal 10901)
          ∷ ("--http-address=0.0.0.0:" <> naming.decimal 10902)
          ∷ ("--remote-write.address=0.0.0.0:" <> naming.decimal 19291)
          ∷ ("--receive.replication-factor=" <> signed naming.decimal opts.replication_factor)
          ∷ "--receive.hashrings-file=/var/lib/thanos-receive/hashrings.json"
          ∷ ("--receive.grpc-service-config=" <> grpc_disable_endless_retry)
          ∷ [])
      ++ external_label_args opts.external_labels
      ++ (if opts.replication_protocol == "capnproto"
          then ("--receive.replication-protocol=" <> opts.replication_protocol) ∷ []
          else []))
