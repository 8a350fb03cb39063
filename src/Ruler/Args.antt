-- ===== src/Ruler/Args.antt =====
-- `rulerArgs` and `toRemoteWrite` of internal/pkg/manifests/ruler/builder.go, the command line and
-- the remote writes of the ruler. The printing of a
-- number is a parameter; the labels are given in the order in which the loop walks the map.
use Prim.Native.String.{◌++◌ as ◌<>◌}
use thanos_operator.Common.{
  ℕ, String, Bool, List, [], ◌∷◌, ◌++◌, ◌==◌, if◌then◌else◌, Labels, map, collect,
}
use thanos_operator.Controllers.Receive.Args.{external_label_args}
use thanos_operator.Manifests.Augmenting.{Options}
use thanos_operator.Ruler.Building.{DiscoveryInfos, path_of}
use thanos_operator.Ruler.Gathering.{KeySelector}
use thanos_operator.Ruler.Discovery.{Endpoint}
use thanos_operator.Transform.{to_flags}

-- `Options` of a ruler, as far as its arguments are made of it.
pub record RulerArgOptions (Value : Type 0) : Type 0 where
  pub common : Options Value
  pub endpoints : List Endpoint
  pub rule_files : List KeySelector
  -- Whether the Secret of the object store is given.
  pub is_stateful : Bool
  pub retention : String
  pub alertmanager_url : String
  pub external_labels : Labels
  pub alert_label_drop : List String
  pub evaluation_interval : String

unfoldable pub ruler_args : {Value : Type 0} → (ℕ → String) → RulerArgOptions Value → List String
ruler_args decimal opts =
    ("rule" ∷ to_flags opts.common)
    ++ (("--http-address=0.0.0.0:" <> decimal 9090)
        ∷ ("--grpc-address=0.0.0.0:" <> decimal 10901)
        ∷ "--data-dir=/var/thanos/rule"
        ∷ ("--alertmanagers.url=" <> opts.alertmanager_url)
        ∷ [])
    ++ (if opts.is_stateful
        then "--objstore.config=$(OBJSTORE_CONFIG)" ∷ ("--tsdb.retention=" <> opts.retention) ∷ []
        else "--remote-write.config-file=/etc/thanos/remote-write/remote-write.yaml" ∷ [])
    ++ (if opts.evaluation_interval == ""
        then []
        else ("--eval-interval=" <> opts.evaluation_interval) ∷ [])
    ++ external_label_args opts.external_labels
    ++ map (λ (f : KeySelector). "--rule-file=/etc/thanos/rules/" <> path_of f) opts.rule_files
    ++ map
        (λ (e : Endpoint).
          "--query=dnssrv+_http._tcp." <> e.service_name <> "." <> e.namespace <> ".svc")
        opts.endpoints
    ++ map (λ label. "--alert.label-drop=" <> label) opts.alert_label_drop

pub record RelabelConfig : Type 0 where
  pub source_labels : List String
  pub regex : String
  pub action : String

pub record RemoteWrite : Type 0 where
  pub url : String
  pub headers : Labels
  pub relabel_configs : List RelabelConfig

unfoldable pub to_url : (ℕ → String) → Endpoint → String
to_url decimal e =
    "http://"
    <> e.service_name
    <> "."
    <> e.namespace
    <> ".svc:"
    <> decimal e.port
    <> "/api/v1/receive"

-- The remote writes to one endpoint: one without tenants, or one for each tenant.
unfoldable pub endpoint_writes : String → String → List String → List RemoteWrite
endpoint_writes url identifier [] = record { url = url; headers = []; relabel_configs = [] } ∷ []
endpoint_writes url identifier (t ∷ ts) =
    map
      (λ tenant. record {
        url = url;
        headers = ("THANOS-TENANT", tenant) ∷ [];
        relabel_configs =
            record { source_labels = identifier ∷ []; regex = tenant; action = "keep" } ∷ [];
      })
      (t ∷ ts)

unfoldable pub to_remote_write : (ℕ → String) → DiscoveryInfos → List RemoteWrite
unfolding endpoint_writes to_url
to_remote_write decimal di =
    collect (λ e. endpoint_writes (to_url decimal e) di.tenant_identifier di.tenants)
      di.service_endpoints
