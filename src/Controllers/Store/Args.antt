-- ===== src/Controllers/Store/Args.antt =====
-- `storeArgsFrom` of internal/pkg/manifests/store/builder.go, the command line of a store, with the
-- relabelling and the limits of options.go. The printing of a number is a parameter.
use Prim.Native.String.{◌++◌ as ◌<>◌}
use thanos_operator.Common.{
  ℕ, String, Bool, List, [], ◌∷◌, ◌++◌, Option, none, some, ◌==◌, ltb, if◌then◌else◌, ℤ, pos,
  negsuc, ◌+◌,
}
use thanos_operator.Controllers.Store.{RelabelConfig}
use thanos_operator.Manifests.Args.{prune_empty_args}
use thanos_operator.Manifests.Augmenting.{Options}
use thanos_operator.Transform.{CacheConfig, in_memory_string, to_flags}

pub record StoreLimitsOpts : Type 0 where
  pub request_samples : ℕ
  pub request_series : ℕ

pub record IndexHeaderOptions : Type 0 where
  pub enable_lazy_reader : Bool
  pub lazy_reader_idle_timeout : String
  pub lazy_download_strategy : String

pub record BlockConfigOptions : Type 0 where
  pub block_discovery_strategy : Option String
  pub block_meta_fetch_concurrency : Option ℤ

-- `Options` of a store, as far as its arguments are made of it.
pub record StoreArgOptions (Value : Type 0) : Type 0 where
  pub common : Options Value
  pub index_cache_config : CacheConfig Value
  pub caching_bucket_config : CacheConfig Value
  pub ignore_deletion_marks_delay : String
  pub min_time : String
  pub max_time : String
  pub relabel_configs : List RelabelConfig
  pub store_limits : StoreLimitsOpts
  pub index_header_options : Option IndexHeaderOptions
  pub block_config_options : Option BlockConfigOptions

-- The arguments for a cache; the variable is that of the Secret.
unfoldable pub cache_args : {Value : Type 0} → String → String → CacheConfig Value → List String
cache_args flag variable cache = elim cache.cache_secret [
  | some secret ↦ (flag <> "=$(" <> variable <> ")") ∷ []
  | none ↦ elim cache.in_memory_cache_config [
    | some ic ↦ (flag <> "=" <> in_memory_string ic) ∷ []
    | none ↦ []
  ]
]

unfoldable pub index_header_args : Option IndexHeaderOptions → List String
index_header_args none = []
index_header_args (some ih) =
    (if ih.enable_lazy_reader then "--store.enable-index-header-lazy-reader" ∷ [] else [])
    ++ ("--store.index-header-lazy-reader-idle-timeout=" <> ih.lazy_reader_idle_timeout)
      ∷ ("--store.index-header-lazy-download-strategy=" <> ih.lazy_download_strategy)
      ∷ []

module _ (decimal : ℕ → String) where
  unfoldable pub relabel_string : RelabelConfig → String
  relabel_string r =
      if r.action == "hashmod"
      then "\n- action: hashmod\n  source_labels: [\""
        <> r.source_label
        <> "\"]\n  target_label: "
        <> r.target_label
        <> "\n  modulus: "
        <> decimal r.modulus
      else if r.target_label == ""
      then "\n- action: " <> r.action <> "\n  source_labels: [\"" <> r.source_label
        <> "\"]\n  regex: " <> r.regex
      else "\n- action: " <> r.action <> "\n  source_labels: [\"" <> r.source_label
        <> "\"]\n  target_label: " <> r.target_label <> "\n  regex: " <> r.regex

  unfoldable pub relabel_strings : List RelabelConfig → String
  unfolding relabel_string
  relabel_strings [] = ""
  relabel_strings (r ∷ rc) = relabel_string r <> relabel_strings rc

  -- `len(opts.RelabelConfigs) > 0`, and then the flag.
  unfoldable pub relabel_args : List RelabelConfig → List String
  unfolding relabel_strings
  relabel_args [] = []
  relabel_args (r ∷ rc) = ("--selector.relabel-config=" <> relabel_strings (r ∷ rc)) ∷ []

  unfoldable pub limit_args : StoreLimitsOpts → List String
  limit_args sl =
      (if ltb 0 sl.request_samples
        then ("--store.limits.request-samples=" <> decimal sl.request_samples) ∷ []
        else [])
      ++ (if ltb 0 sl.request_series
          then ("--store.limits.request-series=" <> decimal sl.request_series) ∷ []
          else [])

  abbrev pub signed : ℤ → String
  signed (pos n) = decimal n
  signed (negsuc n) = "-" <> decimal (n + 1)

  unfoldable pub block_config_args : Option BlockConfigOptions → List String
  block_config_args none = []
  block_config_args (some bo) =
      (elim bo.block_discovery_strategy [
        | none ↦ []
        | some strategy ↦ ("--block-discovery-strategy=" <> strategy) ∷ []
      ])
      ++ elim bo.block_meta_fetch_concurrency [
        | none ↦ []
        | some n ↦ ("--block-meta-fetch-concurrency=" <> signed n) ∷ []
      ]

  unfoldable pub store_args_from : {Value : Type 0} → StoreArgOptions Value → List String
  unfolding cache_args index_header_args relabel_args limit_args block_config_args
  store_args_from opts = prune_empty_args (
      ("store" ∷ to_flags opts.common)
      ++ (("--grpc-address=0.0.0.0:" <> decimal 10901)
          ∷ ("--http-address=0.0.0.0:" <> decimal 10902)
          ∷ "--objstore.config=$(OBJSTORE_CONFIG)"
          ∷ "--data-dir=/var/thanos/store"
          ∷ ("--ignore-deletion-marks-delay=" <> opts.ignore_deletion_marks_delay)
          ∷ ("--min-time=" <> opts.min_time)
          ∷ ("--max-time=" <> opts.max_time)
          ∷ [])
      ++ limit_args opts.store_limits
      ++ block_config_args opts.block_config_options
      ++ index_header_args opts.index_header_options
      ++ cache_args "--index-cache.config" "INDEX_CACHE_CONFIG" opts.index_cache_config
      ++ cache_args "--store.caching-bucket.config" "CACHING_BUCKET_CONFIG"
          opts.caching_bucket_config
      ++ relabel_args opts.relabel_configs)
