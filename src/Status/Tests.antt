-- ===== src/Status/Tests.antt =====
-- The theorem on keyed statuses at two workloads.
use thanos_operator.Common.{String, List, [], ◌∷◌, ◌≡◌, ℕ, ◌&&◌, ◌==◌, lookup}
use thanos_operator.Status.{Stats, keyed_statuses, store_name, shard_name, shard_label}
use thanos_operator.Status.Last.{last_where, has_container, status_of, keyed_statuses-lookup}

abbrev shard : String → ℕ → Stats
shard name ready = record {
  name = name;
  labels = (shard_label, name) ∷ [];
  container_names = store_name ∷ [];
  available_replicas = ready;
  replicas = 2;
  ready_replicas = ready;
  updated_replicas = 2;
  unavailable_replicas = 0;
  current_replicas = 2;
}

abbrev shards : List Stats
shards = shard "s0" 1 ∷ shard "s1" 2 ∷ shard "s0" 2 ∷ []

keyed_statuses-lookup_example :
    lookup "s0" (keyed_statuses store_name shard_name shards)
    ≡ status_of (last_where (λ s. has_container store_name s && shard_name s == "s0") shards)
keyed_statuses-lookup_example = keyed_statuses-lookup store_name shard_name shards "s0"
