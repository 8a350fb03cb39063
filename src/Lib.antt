-- ===== src/Lib.antt =====
-- thanos-operator: a Kubernetes operator that runs the components of Thanos. Its controllers watch the
-- custom resources, build the desired objects (manifests), apply them and prune what is left over
-- (handlers), and compute the hashrings of the receivers from what EndpointSlices report.
--
-- Common: the shared names; maps as association lists (GoMap), in which the list's order stands for
--   the order of a Go range; insertion sort, predicates on lists, Go's int as ℤ, chains of Options.
-- Hashring: internal/pkg/receive/hashrings.go. Types (the types, metaToHashring, isEmptyHashring,
--   trimTo), Endpoints (filters, converters, EndpointSliceListToEndpoints), Merge (DynamicMerge,
--   StaticMerge, handleUnseenHashrings), Metric (HashAsMetricValue, UnmarshalJSON); Contents, Order,
--   Runs, Discovery, Ready and Addresses hold proofs. A run is the sequence of merges, one for each
--   observation, from the empty configuration.
-- Manifests: internal/pkg/manifests. Labels (labels.go, and HasRequiredLabels of util.go) with Merging,
--   Selectors and StoreApi; Names (the sanitizing of names in options.go) with Names/Bounds; Augmenting
--   (AugmentWithOptions of options.go) with Mounted and Placed; Args (PruneEmptyArgs, MergeArgs of
--   util.go) with its children; Mutations (mutations.go) with Selector and Stable; Services (the other
--   functions of util.go).
-- FeatureGate: internal/pkg/featuregate. The parent has features.go and flag.go, File config_file.go;
--   Flags, File/Kept, File/Loading, File/Validity and File/Disabled hold proofs.
-- Handlers: internal/pkg/handlers/handlers.go, deletion and pruning; Applying has CreateOrUpdate. Frame
--   is about any client, Exact about one whose server answers.
-- VolumeResize: internal/controller/volume_resize_controller.go. Frame and Settled hold proofs.
-- Status: internal/controller/object_status_controller.go. Last holds the proof.
-- Transform: the parts of internal/controller/transform.go that all components share, with pdb.go of
--   internal/pkg/manifests; Budget is about the disruption budget.
-- Watching: CacheOptionsForNamespace of internal/controller/config.go.
-- Controllers: internal/controller. The parent has what the syncs share (Operator: the client, the calls
--   of CreateOrUpdate, naming, features); Selectors the labels and names of the builders under
--   internal/pkg/manifests and GetLabelSelectorForOwner; Reconciling the Reconcile and updateCondition of
--   the five controllers, with Reconciling/Conditions on a run of reconciliations and changes by others;
--   Enqueue the event handlers; Cleaning what the parts of a cleanup delete. Store (with Sharding,
--   Cleaning, and Args: storeArgsFrom of internal/pkg/manifests/store/builder.go), Compact (with First,
--   and Args: compactorArgsFrom of internal/pkg/manifests/compact/builder.go), Query (with Args,
--   Panicking, Syncing, Watching, Types, Discovered, Cleaning; Args is queryArgs of
--   internal/pkg/manifests/query/builder.go) and Receive (with Syncing, Written, and Args: the arguments
--   of internal/pkg/manifests/receive/builder.go) are thanosstore_, thanoscompact_, thanosquery_ and
--   thanosreceive_controller.go. Receive is built on Hashring, and all of them on Handlers. Sample is a
--   small server for the tests.
-- Ruler: Packing is MakeRulesConfigMaps of internal/pkg/manifests/ruler/builder.go, on which Packed and
--   ConfigMaps hold proofs. The rest is internal/controller/thanosruler_controller.go: Discovery (endpoints),
--   Tenancy, Gathering (the files of the sources), Creating (ConfigMaps), Building (buildRuler), Syncing
--   (syncResources, cleanup), Watching (event handlers); Cleaning holds proofs; Args is rulerArgs and
--   toRemoteWrite of the builder.
-- The Tests of each part run the definitions and apply the theorems at concrete inputs.
--
-- The API server, the decoders, quantities, the merge of package mergo and the parsers of other modules
-- are parameters: fields of Client, Environment and Packages, or arguments. A call that changes the server
-- takes its state and returns the next one; errors are constructors of result types, and a panic is a
-- result of its own. Logging, events and metrics are left out. All loops are structural recursions, so no
-- fuel is used. Numbers that may be negative are ℤ; replica counts come from int32 fields, so the
-- arithmetic on them does not overflow. Strings are compared by bytes, as in Go. The options that
-- transform.go copies from a resource's spec, and the Kubernetes objects that the builders make of them,
-- are parameters of the controllers, so what is shown of a controller holds for any. These parameters
-- are total: that the builder of the querier can panic is shown of queryArgs (Query/Args), not of the sync. A
-- sort is an insertion sort, while Go's may order equal elements otherwise. Not modelled: the
-- parts of transform.go for one component and the construction of objects by the builders of manifests,
-- the API types and their generated copies, SetupWithManager, the command, metrics and the build tools:
-- copying of fields, construction of objects, and input and output.
pub mod Common
pub mod Hashring
pub mod Manifests
pub mod FeatureGate
pub mod Handlers
pub mod VolumeResize
pub mod Status
pub mod Watching
pub mod Ruler
pub mod Controllers
pub mod Transform
