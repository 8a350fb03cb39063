-- ===== src/Hashring/Merge.antt =====
-- internal/pkg/receive/hashrings.go: `DynamicMerge`, `StaticMerge` and `handleUnseenHashrings`.
use thanos_operator.Common.{
  ℤ, pred, at_least, String, Bool, ◌&&◌, ◌==◌, [], ◌∷◌, length, collect, sort_by, key_lt,
  if◌then◌else◌,
}
use thanos_operator.Hashring.Types.{
  HashringMeta, HashringConfig, HashringState, Hashrings, meta_to_hashring, is_empty_hashring,
  trim_to,
}

-- The hashrings of the previous state that have the name.
unfoldable pub previous_named : String → Hashrings → Hashrings
previous_named k previous = collect (λ hr. if hr.name == k then hr ∷ [] else []) previous

-- Enough endpoints for the replication factor, and at most one of the desired replicas missing.
unfoldable pub tolerates : ℤ → HashringMeta → Bool
tolerates replication_factor v =
    at_least (length v.config.endpoints) replication_factor
    && at_least (length v.config.endpoints) (pred v.desired_replicas)

-- Enough endpoints for the replication factor, and no desired replica missing.
unfoldable pub complete : ℤ → HashringMeta → Bool
complete replication_factor v =
    at_least (length v.config.endpoints) replication_factor
    && at_least (length v.config.endpoints) v.desired_replicas

unfoldable pub trimmed : HashringMeta → HashringMeta
trimmed v = record v {
  config = record (v.config) { endpoints = trim_to v.config.endpoints v.desired_replicas };
}

-- One round of each `range fetchedReadyState`: what it appends to the merged state.
unfoldable pub dynamic_entry : Hashrings → ℤ → String × HashringMeta → Hashrings
dynamic_entry previous replication_factor (k, v) =
    if tolerates replication_factor v then meta_to_hashring k v ∷ [] else previous_named k previous

unfoldable pub static_entry : Hashrings → ℤ → String × HashringMeta → Hashrings
static_entry previous replication_factor (k, v) =
    if complete replication_factor v
    then meta_to_hashring k (trimmed v) ∷ []
    else previous_named k previous

unfoldable pub unseen_entry : String × HashringMeta → Hashrings
unseen_entry (k, v) =
    if at_least (length v.config.endpoints) v.desired_replicas
    then meta_to_hashring k v ∷ []
    else []

unfoldable pub handle_unseen_hashrings : HashringState → Hashrings
handle_unseen_hashrings desired_state = collect unseen_entry desired_state

abbrev pub name_lt : HashringConfig → HashringConfig → Bool
name_lt = key_lt (λ h. h.name)

unfoldable pub dynamic_merge : Hashrings → HashringState → ℤ → Hashrings
dynamic_merge previous fetched replication_factor =
    if is_empty_hashring previous
    then handle_unseen_hashrings fetched
    else sort_by name_lt (collect (dynamic_entry previous replication_factor) fetched)

unfoldable pub static_merge : Hashrings → HashringState → ℤ → Hashrings
static_merge previous fetched replication_factor =
    if is_empty_hashring previous
    then handle_unseen_hashrings fetched
    else sort_by name_lt (collect (static_entry previous replication_factor) fetched)
