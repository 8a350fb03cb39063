-- ===== src/Controllers/Compact/Args.antt =====
-- `compactorArgsFrom` of internal/pkg/manifests/compact/builder.go, the command line of the compactor. The
-- printing of a number is a parameter.
use Prim.Native.String.{◌++◌ as ◌<>◌}
use thanos_operator.Common.{
  ℕ, String, Bool, List, [], ◌∷◌, ◌++◌, Option, none, some, ◌==◌, if◌then◌else◌, ℤ, pos, zero, map,
}
use thanos_operator.Controllers.Store.{RelabelConfig}
use thanos_operator.Controllers.Store.Args.{relabel_args, signed}
use thanos_operator.Manifests.Args.{prune_empty_args}
use thanos_operator.Manifests.Augmenting.{Options}
use thanos_operator.Transform.{to_flags}

pub record RetentionOptions : Type 0 where
  pub raw : Option String
  pub five_minutes : Option String
  pub one_hour : Option String

pub record BlockConfigOptions : Type 0 where
  pub block_discovery_strategy : Option String
  pub block_files_concurrency : Option ℤ
  pub block_meta_fetch_concurrency : Option ℤ
  pub block_viewer_global_sync_interval : Option String
  pub block_viewer_global_sync_timeout : Option String

pub record VerticalCompactionOptions : Type 0 where
  pub replica_labels : List String
  pub deduplication_func : Option String

pub record CompactionOptions : Type 0 where
  pub compact_concurrency : Option ℤ
  pub compact_block_fetch_concurrency : Option ℤ
  pub compact_cleanup_interval : Option String
  pub consistency_delay : Option String
  pub vertical_compaction : Option VerticalCompactionOptions

pub record DownsamplingOptions : Type 0 where
  pub disable : Bool
  pub concurrency : Option ℤ

pub record DebugConfigOptions : Type 0 where
  pub accept_malformed_index : Bool
  pub max_compaction_level : ℤ
  pub halt_on_error : Bool

-- `Options` of a compactor, as far as its arguments are made of it.
pub record CompactArgOptions (Value : Type 0) : Type 0 where
  pub common : Options Value
  pub retention : Option RetentionOptions
  pub block_config : Option BlockConfigOptions
  pub compaction : Option CompactionOptions
  pub downsampling : Option DownsamplingOptions
  pub debug_config : Option DebugConfigOptions
  pub relabel_configs : List RelabelConfig
  pub min_time : Option String
  pub max_time : Option String

-- An argument for a pointer that is not nil.
abbrev pub given : String → Option String → List String
given flag none = []
given flag (some value) = (flag <> value) ∷ []

unfoldable pub retention_args : Option RetentionOptions → List String
retention_args none = []
retention_args (some ro) =
    given "--retention.resolution-raw=" ro.raw
    ++ given "--retention.resolution-5m=" ro.five_minutes
    ++ given "--retention.resolution-1h=" ro.one_hour

unfoldable pub replica_label_args : List String → List String
replica_label_args [] = []
replica_label_args (l ∷ ls) =
    "--compact.enable-vertical-compaction"
    ∷ map (λ label. "--deduplication.replica-label=" <> label) (l ∷ ls)

unfoldable pub vertical_args : Option VerticalCompactionOptions → List String
unfolding replica_label_args
vertical_args none = []
vertical_args (some vc) = replica_label_args vc.replica_labels ++ elim vc.deduplication_func [
  | none ↦ []
  | some func ↦ if func == "" then [] else ("--deduplication.func=" <> func) ∷ []
]

module _ (decimal : ℕ → String) where
  abbrev pub given_number : String → Option ℤ → List String
  given_number flag none = []
  given_number flag (some n) = (flag <> signed decimal n) ∷ []

  unfoldable pub block_config_args : Option BlockConfigOptions → List String
  block_config_args none = []
  block_config_args (some bo) =
      given "--block-discovery-strategy=" bo.block_discovery_strategy
      ++ given_number "--block-files-concurrency=" bo.block_files_concurrency
      ++ given_number "--block-meta-fetch-concurrency=" bo.block_meta_fetch_concurrency
      ++ given "--block-viewer.global.sync-block-interval=" bo.block_viewer_global_sync_interval
      ++ given "--block-viewer.global.sync-block-timeout=" bo.block_viewer_global_sync_timeout

  unfoldable pub compaction_args : Option CompactionOptions → List String
  unfolding vertical_args
  compaction_args none = []
  compaction_args (some co) =
      given_number "--compact.concurrency=" co.compact_concurrency
      ++ given_number "--compact.blocks-fetch-concurrency=" co.compact_block_fetch_concurrency
      ++ given "--compact.cleanup-interval=" co.compact_cleanup_interval
      ++ given "--consistency-delay=" co.consistency_delay
      ++ vertical_args co.vertical_compaction

  unfoldable pub downsampling_args : Option DownsamplingOptions → List String
  downsampling_args none = []
  downsampling_args (some d) =
      (if d.disable then "--downsampling.disable" ∷ [] else [])
      ++ given_number "--downsample.concurrency=" d.concurrency

  -- The level, if it is not 0.
  unfoldable pub level_args : ℤ → List String
  level_args (pos zero) = []
  level_args z = ("--debug.max-compaction-level=" <> signed decimal z) ∷ []

  unfoldable pub debug_args : Option DebugConfigOptions → List String
  unfolding level_args
  debug_args none = []
  debug_args (some dc) =
      (if dc.accept_malformed_index then "--debug.accept-malformed-index" ∷ [] else [])
      ++ level_args dc.max_compaction_level
      ++ (if dc.halt_on_error then "--debug.halt-on-error" else "--no-debug.halt-on-error") ∷ []

  unfoldable pub compactor_args_from : {Value : Type 0} → CompactArgOptions Value → List String
  unfolding retention_args block_config_args compaction_args downsampling_args debug_args
  compactor_args_from opts = prune_empty_args (
      ("compact" ∷ to_flags opts.common)
      ++ ("--wait"
          ∷ ("--http-address=0.0.0.0:" <> decimal 10902)
          ∷ "--objstore.config=$(OBJSTORE_CONFIG)"
          ∷ "--data-dir=/var/thanos/compact"
          ∷ [])
      ++ relabel_args decimal opts.relabel_configs
      ++ given "--min-time=" opts.min_time
      ++ given "--max-time=" opts.max_time
      ++ retention_args opts.retention
      ++ block_config_args opts.block_config
      ++ compaction_args opts.compaction
      ++ downsampling_args opts.downsampling
      ++ debug_args opts.debug_config)
