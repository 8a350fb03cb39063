-- ===== src/Controllers/Selectors.antt =====
-- The labels by which a controller finds what it made: `GetRequiredLabels` and `GetSelectorLabels` of the
-- builders under internal/pkg/manifests, and `GetLabelSelectorForOwner` of options.go.
use Prim.Native.String.{◌++◌}
use thanos_operator.Common.{
  ℕ, String, [], ◌∷◌, ◌==◌, Option, none, some, Labels, insert, if◌then◌else◌,
}
use thanos_operator.Manifests.Labels.{merge_maps, sanitize_store_api_endpoint_labels}
use thanos_operator.Manifests.Names.{
  Naming, validate_and_sanitize_resource_name, validate_and_sanitize_name_to_valid_label_value,
}
use thanos_operator.VolumeResize.{
  managed_by_label, default_managed_by_label, part_of_label, default_part_of_label,
}
use thanos_operator.Status.{
  query_name, query_frontend_name, compact_name, ruler_name, store_name, router_component_name,
  ingest_component_name, hashring_label, shard_label,
}

abbrev pub name_label : String
name_label = "app.kubernetes.io/name"

abbrev pub component_label : String
component_label = "app.kubernetes.io/component"

abbrev pub instance_label : String
instance_label = "app.kubernetes.io/instance"

abbrev pub owner_label : String
owner_label = "operator.thanos.io/owner"

abbrev pub default_query_api_label : String
default_query_api_label = "operator.thanos.io/query-api"

abbrev pub default_store_api_label : String
default_store_api_label = "operator.thanos.io/store-api"

abbrev pub receive_name : String
receive_name = "thanos-receive"

abbrev pub basic_labels : String → String → Labels
basic_labels name component =
    (name_label, name)
    ∷ (component_label, component)
    ∷ (part_of_label, default_part_of_label)
    ∷ (managed_by_label, default_managed_by_label)
    ∷ []

unfoldable pub compact_required_labels : Labels
compact_required_labels = basic_labels compact_name "thanos-compactor"

unfoldable pub query_required_labels : Labels
unfolding insert
query_required_labels =
    insert default_query_api_label "true" (basic_labels query_name "query-layer")

unfoldable pub query_frontend_required_labels : Labels
query_frontend_required_labels = basic_labels query_frontend_name "query-frontend"

unfoldable pub ruler_required_labels : Labels
ruler_required_labels = basic_labels ruler_name "rule-evaluation-engine"

unfoldable pub required_store_service_label : Labels
required_store_service_label =
    (part_of_label, default_part_of_label) ∷ (default_store_api_label, "true") ∷ []

unfoldable pub store_required_labels : Labels
unfolding required_store_service_label
store_required_labels =
    merge_maps
      (some (
        (name_label, store_name)
        ∷ (component_label, "object-storage-gateway")
        ∷ (managed_by_label, default_managed_by_label)
        ∷ []))
      (some required_store_service_label)

unfoldable pub receive_required_labels : Labels
receive_required_labels =
    (name_label, receive_name)
    ∷ (part_of_label, default_part_of_label)
    ∷ (managed_by_label, default_managed_by_label)
    ∷ []

unfoldable pub ingester_required_labels : Labels
unfolding receive_required_labels insert required_store_service_label
ingester_required_labels =
    merge_maps (some (insert component_label ingest_component_name receive_required_labels))
      (some required_store_service_label)

unfoldable pub router_required_labels : Labels
unfolding receive_required_labels insert
router_required_labels =
    sanitize_store_api_endpoint_labels
      (insert component_label router_component_name receive_required_labels)

-- The instance and the owner, written over the required labels.
unfoldable pub with_instance_and_owner : Naming → String → String → Labels → Labels
unfolding insert
with_instance_and_owner naming instance owner labels =
    insert owner_label (validate_and_sanitize_name_to_valid_label_value naming owner) (
      insert instance_label (validate_and_sanitize_name_to_valid_label_value naming instance)
        labels)

-- A label that is written only if there is a value.
unfoldable pub with_optional : String → Option String → Labels → Labels
unfolding insert
with_optional key none labels = labels
with_optional key (some value) labels = insert key value labels

-- `GetLabelSelectorForOwner`, of the selector labels.
unfoldable pub label_selector_for_owner : Labels → Labels
label_selector_for_owner [] = []
label_selector_for_owner ((k, v) ∷ labels) =
    if k == instance_label
    then label_selector_for_owner labels
    else (k, v) ∷ label_selector_for_owner labels

-- `fmt.Sprintf("%s-%s", a, b)`
abbrev pub dashed : String → String → String
dashed a b = a ++ "-" ++ b

-- `GetGeneratedResourceName` of each builder.
unfoldable pub query_resource_name : Naming → String → String
query_resource_name naming owner =
    validate_and_sanitize_resource_name naming (dashed query_name owner)

unfoldable pub query_frontend_resource_name : Naming → String → String
query_frontend_resource_name naming owner =
    validate_and_sanitize_resource_name naming (dashed query_frontend_name owner)

unfoldable pub ruler_resource_name : Naming → String → String
ruler_resource_name naming owner =
    validate_and_sanitize_resource_name naming (dashed ruler_name owner)

unfoldable pub store_resource_name : Naming → String → Option ℕ → String
store_resource_name naming owner none =
    validate_and_sanitize_resource_name naming (dashed store_name owner)
store_resource_name naming owner (some i) =
    validate_and_sanitize_resource_name naming
      (dashed store_name owner ++ "-shard-" ++ naming.decimal i)

unfoldable pub compact_resource_name : Naming → String → Option String → String
compact_resource_name naming owner none =
    validate_and_sanitize_resource_name naming (dashed compact_name owner)
compact_resource_name naming owner (some shard) =
    validate_and_sanitize_resource_name naming (dashed (dashed compact_name owner) shard)

unfoldable pub ingester_resource_name : Naming → String → String → String
ingester_resource_name naming owner hashring =
    validate_and_sanitize_resource_name naming
      (dashed (dashed ingest_component_name owner) hashring)

unfoldable pub router_resource_name : Naming → String → String
router_resource_name naming owner =
    validate_and_sanitize_resource_name naming (dashed router_component_name owner)

-- `GetSelectorLabels` of each builder.
module _ (naming : Naming) (owner : String) where
  unfoldable pub query_selector_labels : Labels
  unfolding with_instance_and_owner query_required_labels query_resource_name
  query_selector_labels =
      with_instance_and_owner naming (query_resource_name naming owner) owner query_required_labels

  unfoldable pub query_frontend_selector_labels : Labels
  unfolding with_instance_and_owner query_frontend_required_labels query_frontend_resource_name
  query_frontend_selector_labels =
      with_instance_and_owner naming (query_frontend_resource_name naming owner) owner
        query_frontend_required_labels

  unfoldable pub ruler_selector_labels : Labels
  unfolding with_instance_and_owner ruler_required_labels ruler_resource_name
  ruler_selector_labels =
      with_instance_and_owner naming (ruler_resource_name naming owner) owner ruler_required_labels

  unfoldable pub store_selector_labels : Option ℕ → Labels
  unfolding with_instance_and_owner store_required_labels store_resource_name with_optional
  store_selector_labels shard = with_optional shard_label (numeral shard) (
      with_instance_and_owner naming (store_resource_name naming owner shard) owner
        store_required_labels)
    where
      numeral : Option ℕ → Option String
      numeral none = none
      numeral (some i) = some (naming.decimal i)

  unfoldable pub compact_selector_labels : Option String → Labels
  unfolding with_instance_and_owner compact_required_labels compact_resource_name with_optional
  compact_selector_labels shard = with_optional shard_label (valid shard) (
      with_instance_and_owner naming (compact_resource_name naming owner shard) owner
        compact_required_labels)
    where
      valid : Option String → Option String
      valid none = none
      valid (some name) = some (validate_and_sanitize_name_to_valid_label_value naming name)

  unfoldable pub ingester_selector_labels : String → Labels
  unfolding with_instance_and_owner ingester_required_labels ingester_resource_name with_optional
  ingester_selector_labels hashring =
      with_optional hashring_label
        (if hashring == ""
          then none
          else some (validate_and_sanitize_name_to_valid_label_value naming hashring))
        (with_instance_and_owner naming (ingester_resource_name naming owner hashring) owner
          ingester_required_labels)

  unfoldable pub router_selector_labels : Labels
  unfolding with_instance_and_owner router_required_labels router_resource_name
  router_selector_labels =
      with_instance_and_owner naming (router_resource_name naming owner) owner
        router_required_labels
