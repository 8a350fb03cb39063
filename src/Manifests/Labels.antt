-- ===== src/Manifests/Labels.antt =====
-- internal/pkg/manifests/labels.go, and `HasRequiredLabels` of internal/pkg/manifests/util.go. A
-- map that may be `nil` is an `Option`.
use thanos_operator.Common.{
  String, Bool, true, false, not, ◌==◌, List, [], ◌∷◌, Option, none, some, Labels, lookup, delete,
  copy, index, if◌then◌else◌,
}

-- The labels of a map that may be `nil`: reading from `nil` finds nothing.
abbrev pub or_empty : Option Labels → Labels
or_empty none = []
or_empty (some m) = m

unfoldable pub merge_maps : Option Labels → Option Labels → Labels
merge_maps none merge_with_priority = copy [] (or_empty merge_with_priority)
merge_maps (some base_labels) merge_with_priority =
    copy (copy [] base_labels) (or_empty merge_with_priority)

-- The type of the flag by which a StoreAPI is attached to a querier, one for each label.
pub data EndpointType : Type 0 where
  regular strict group group_strict : EndpointType

abbrev pub label_of : EndpointType → String
label_of regular = "operator.thanos.io/endpoint"
label_of strict = "operator.thanos.io/endpoint-strict"
label_of group = "operator.thanos.io/endpoint-group"
label_of group_strict = "operator.thanos.io/endpoint-group-strict"

abbrev pub priority_order : List EndpointType
priority_order = group_strict ∷ group ∷ strict ∷ regular ∷ []

unfoldable pub has_key : String → Labels → Bool
has_key k m = elim (lookup k m) [ none ↦ false | some v ↦ true ]

-- The first loop: the first label of the order that is set, and the empty string for none.
unfoldable pub found_label : List EndpointType → Labels → String
found_label [] base_labels = ""
found_label (t ∷ ts) base_labels =
    if has_key (label_of t) base_labels then label_of t else found_label ts base_labels

-- The second loop: the other labels are deleted.
unfoldable pub delete_others : List EndpointType → String → Labels → Labels
delete_others [] found base_labels = base_labels
delete_others (t ∷ ts) found base_labels =
    delete_others ts found
      (if label_of t == found then base_labels else delete (label_of t) base_labels)

unfoldable pub sanitize_store_api_endpoint_labels : Labels → Labels
sanitize_store_api_endpoint_labels base_labels =
    delete_others priority_order (found_label priority_order base_labels) base_labels

unfoldable pub has_required_labels : Labels → Labels → Bool
has_required_labels labels [] = true
has_required_labels labels ((k, v) ∷ required) =
    if not (index k labels == v) then false else has_required_labels labels required

-- A `metav1.LabelSelector`: `matchLabels`, which may be `nil`, and the expressions, which the code
-- only passes on.
pub record LabelSelector (Expression : Type 0) : Type 0 where
  pub match_labels : Option Labels
  pub match_expressions : List Expression

-- What building a selector ends in. `panic` is an assignment to a `nil` map.
pub data Built (Selector Error : Type 0) : Type 0 where
  selector : Selector → Built Selector Error
  failed : Error → Built Selector Error
  panic : Built Selector Error

-- `maps.Copy(dst, src)` on a map that may be `nil`: `none` is the panic.
unfoldable pub copy_into : Option Labels → Labels → Option (Option Labels)
copy_into (some dst) src = some (some (copy dst src))
copy_into none [] = some none
copy_into none ((k, v) ∷ src) = none

-- `metav1.LabelSelectorAsSelector` is a parameter.
module _ {Expression Selector Error : Type 0}
    (label_selector_as_selector : LabelSelector Expression → Built Selector Error) where
  unfoldable pub build_label_selector_from :
      Option (LabelSelector Expression) → Labels → Built Selector Error
  unfolding copy_into
  build_label_selector_from none required_labels =
      label_selector_as_selector
        (record { match_labels = some required_labels; match_expressions = [] })
  build_label_selector_from (some ls) required_labels =
      elim (copy_into ls.match_labels required_labels) [
        | none ↦ panic
        | some match_labels ↦ label_selector_as_selector (record ls { match_labels = match_labels })
      ]
