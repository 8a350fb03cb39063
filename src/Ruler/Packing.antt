-- ===== src/Ruler/Packing.antt =====
-- `MakeRulesConfigMaps` and `bucketSize`: rule files packed into ConfigMaps. The limit of one ConfigMap
-- is a constant of the Kubernetes library, a parameter here.
use Prim.Native.String.{len}
use thanos_operator.Common.{
  ℕ, ◌+◌, String, List, [], ◌∷◌, ◌++◌, Labels, keys, index, insert, sort_by, str_lt, ltb,
  if◌then◌else◌,
}

-- What the loop over the file names has made: the buckets before the current one, and that.
pub record Packing : Type 0 where
  pub closed : List Labels
  pub current : Labels

-- The data of the ConfigMaps, or the name of a file that is too large.
pub data Made : Type 0 where
  config_maps : List Labels → Made
  file_too_large : String → Made

unfoldable pub bucket_size : Labels → ℕ
bucket_size [] = 0
bucket_size ((name, content) ∷ bucket) = len content + bucket_size bucket

module _ (max_config_map_data_size : ℕ) where
  unfoldable pub pack_content : String → String → Packing → Packing
  unfolding bucket_size insert
  pack_content name content p =
      if ltb max_config_map_data_size (bucket_size p.current + len content)
      then record { closed = p.closed ++ p.current ∷ []; current = insert name content [] }
      else record p { current = insert name content p.current }

  -- The loop over the sorted names; the content is looked up in the map of files.
  unfoldable pub pack_files : Labels → List String → Packing → Packing
  unfolding pack_content
  pack_files files [] p = p
  pack_files files (name ∷ names) p =
      pack_files files names (pack_content name (index name files) p)

  abbrev pub no_bucket : Packing
  no_bucket = record { closed = []; current = [] }

  unfoldable pub packed : Packing → List Labels
  packed p = p.closed ++ p.current ∷ []

  -- The first loop, over the entries `rest` of the map.
  unfoldable pub make_checked : Labels → Labels → Made
  unfolding pack_files packed sort_by
  make_checked files [] =
      config_maps (packed (pack_files files (sort_by str_lt (keys files)) no_bucket))
  make_checked files ((name, content) ∷ rest) =
      if ltb max_config_map_data_size (len content)
      then file_too_large name
      else make_checked files rest

  unfoldable pub make_rules_config_maps : Labels → Made
  unfolding make_checked
  make_rules_config_maps rule_files = make_checked rule_files rule_files
