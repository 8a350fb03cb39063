-- ===== src/Manifests/Merging.antt =====
-- `MergeMaps` and `HasRequiredLabels`.

use thanos_operator.Common.{
  String, true, ◌==◌, eq_iff, [], ◌∷◌, ◌≡◌, ◌↔◌, refl, ap, ◌∙◌, inl, inr, Option, none, some,
  Labels, HasUniqueKeys, All, All-of_mem, lookup, copy, lookup-copy, lookup-mem, or_else, index,
  copy-HasUniqueKeys, Bool-cases, ==-eq,
}
use thanos_operator.Manifests.Labels.{or_empty, merge_maps, has_required_labels}

lookup-copy_nil : (k : String) (m : Labels) → HasUniqueKeys m → lookup k (copy [] m) ≡ lookup k m
unfolding lookup
lookup-copy_nil k m u = lookup-copy k [] m u ∙ or_else-none (lookup k m)
  where
    or_else-none : (o : Option String) → or_else o none ≡ o
    or_else-none none = refl
    or_else-none (some v) = refl

-- A merged map, of maps with unique keys either of which may be nil, answers each key with the
-- value of the map that has priority, and with the value of the base map where that has none; and
-- its keys are unique.
pub lookup-merge_maps :
    (base priority : Option Labels)
    → HasUniqueKeys (or_empty base)
    → HasUniqueKeys (or_empty priority)
    → HasUniqueKeys (merge_maps base priority)
      × ((k : String)
          → lookup k (merge_maps base priority)
            ≡ or_else (lookup k (or_empty priority)) (lookup k (or_empty base)))
unfolding merge_maps
lookup-merge_maps none priority ub up =
    (copy-HasUniqueKeys [] (or_empty priority) tt, λ k. lookup-copy k [] (or_empty priority) up)
lookup-merge_maps (some base) priority ub up = (
  copy-HasUniqueKeys (copy [] base) (or_empty priority) (copy-HasUniqueKeys [] base tt),
  λ k.
      lookup-copy k (copy [] base) (or_empty priority) up
      ∙ ap (or_else (lookup k (or_empty priority))) (lookup-copy_nil k base ub),
)

-- The labels have the required value at the key; a missing key counts as the empty value.
abbrev pub Carries : Labels → String × String → Type 0
Carries labels (k, v) = index k labels ≡ v

-- An object has the required labels exactly if it carries the value of each of them, where a label
-- that it does not have counts as the empty value.
pub has_required_labels_iff :
    (labels required : Labels)
    → (has_required_labels labels required ≡ true) ↔ All (Carries labels) required
unfolding has_required_labels
has_required_labels_iff labels [] = ((λ h. tt), (λ h. refl))
has_required_labels_iff labels ((k, v) ∷ required) =
    let (forth, back) = has_required_labels_iff labels required in
    elim (Bool-cases (index k labels == v)) [
      | inl e ↦ rw e ((λ h. (==-eq (index k labels) v e, forth h)), (λ (p, q). back q))
      | inr e ↦ rw e ((λ h. cc), (λ (p, q). cc ((eq_iff (index k labels) v).1 p)))
    ]

-- What the operator puts over a user's labels holds whatever the user sets: an object whose labels
-- are a merge in which the required labels, with unique keys, have priority has them.
pub merge_maps-has_required_labels :
    (user : Option Labels) (required : Labels)
    → HasUniqueKeys (or_empty user)
    → HasUniqueKeys required
    → has_required_labels (merge_maps user (some required)) required ≡ true
merge_maps-has_required_labels user required uu ur =
    (has_required_labels_iff (merge_maps user (some required)) required).1 (
      All-of_mem (Carries (merge_maps user (some required))) required λ (k, v) m.
        rw ((lookup-merge_maps user (some required) uu ur).1 k, lookup-mem k v required ur m) refl)
