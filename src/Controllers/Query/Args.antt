-- ===== src/Controllers/Query/Args.antt =====
-- `queryArgs` of internal/pkg/manifests/query/builder.go: the command line of the querier. The printing
-- of a number is a parameter; where the code panics there is no result.
use Prim.Native.String.{◌++◌ as ◌<>◌}
use thanos_operator.Common.{ℕ, String, Bool, List, [], ◌∷◌, ◌++◌, Option, some, if◌then◌else◌, map}
use thanos_operator.Common.Opt.{◌>>=◌}
use thanos_operator.Controllers.Query.{Endpoint}
use thanos_operator.Manifests.Args.{prune_empty_args}
use thanos_operator.Manifests.Augmenting.{Options}
use thanos_operator.Manifests.Labels.{EndpointType, regular, strict, group, group_strict}
use thanos_operator.Transform.{to_flags}

pub record WebOptions : Type 0 where
  pub route_prefix : String
  pub external_prefix : String
  pub prefix_header : String
  pub disable_cors : Bool

pub record TelemetryQuantiles : Type 0 where
  pub duration : List String
  pub samples : List String
  pub series : List String

-- `Options` of the querier.
pub record QueryOptions (Value : Type 0) : Type 0 where
  pub common : Options Value
  pub replica_labels : List String
  pub timeout : String
  pub lookback_delta : String
  pub max_concurrent : ℕ
  pub web_options : WebOptions
  pub telemetry_quantiles : TelemetryQuantiles
  pub grpc_proxy_strategy : String
  pub endpoints : List Endpoint

-- A loop that appends one argument for each value.
abbrev pub each : String → List String → List String
each flag values = map (λ v. flag <> v) values

module _ (decimal : ℕ → String) where
  -- The cases of the switch, for the host and the port.
  unfoldable pub typed_arg : EndpointType → String → ℕ → String
  typed_arg regular host port = "--endpoint=dnssrv+_grpc._tcp." <> host
  typed_arg strict host port = "--endpoint-strict=" <> host <> ":" <> decimal port
  typed_arg group host port = "--endpoint-group=dnssrv+_grpc._tcp." <> host
  typed_arg group_strict host port = "--endpoint-group-strict=" <> host <> ":" <> decimal port

  unfoldable pub endpoint_arg : Endpoint → Option String
  unfolding typed_arg
  endpoint_arg ep = ep.endpoint_type >>= λ t.
      some (typed_arg t (ep.service_name <> "." <> ep.namespace <> ".svc") ep.port)

  unfoldable pub endpoint_args : List Endpoint → Option (List String)
  unfolding endpoint_arg
  endpoint_args [] = some []
  endpoint_args (ep ∷ eps) =
      endpoint_arg ep >>= λ arg. endpoint_args eps >>= λ args. some (arg ∷ args)

  -- The arguments before those for the endpoints.
  unfoldable pub fixed_args : {Value : Type 0} → QueryOptions Value → List String
  fixed_args opts =
      ("query" ∷ to_flags opts.common)
      ++ (("--grpc-address=0.0.0.0:" <> decimal 10901)
          ∷ ("--http-address=0.0.0.0:" <> decimal 9090)
          ∷ ("--query.timeout=" <> opts.timeout)
          ∷ ("--query.lookback-delta=" <> opts.lookback_delta)
          ∷ "--query.auto-downsampling"
          ∷ "--query.promql-engine=thanos"
          ∷ ("--query.max-concurrent=" <> decimal opts.max_concurrent)
          ∷ ("--web.route-prefix=" <> opts.web_options.route_prefix)
          ∷ ("--web.external-prefix=" <> opts.web_options.external_prefix)
          ∷ ("--web.prefix-header=" <> opts.web_options.prefix_header)
          ∷ ("--grpc.proxy-strategy=" <> opts.grpc_proxy_strategy)
          ∷ [])
      ++ each "--query.telemetry.request-duration-seconds-quantiles="
          opts.telemetry_quantiles.duration
      ++ each "--query.telemetry.request-samples-quantiles=" opts.telemetry_quantiles.samples
      ++ each "--query.telemetry.request-series-seconds-quantiles=" opts.telemetry_quantiles.series
      ++ (if opts.web_options.disable_cors then "--web.disable-cors" ∷ [] else [])
      ++ each "--query.replica-label=" opts.replica_labels

  unfoldable pub query_args : {Value : Type 0} → QueryOptions Value → Option (List String)
  unfolding endpoint_args fixed_args
  query_args opts =
      endpoint_args opts.endpoints >>= λ args. some (prune_empty_args (fixed_args opts ++ args))
