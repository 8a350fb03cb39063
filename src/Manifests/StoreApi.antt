-- ===== src/Manifests/StoreApi.antt =====
-- `SanitizeStoreAPIEndpointLabels`.
use thanos_operator.Common.{
  ℕ, ◌<◌, String, Bool, true, false, not, ◌&&◌, ◌||◌, ◌==◌, eq_iff, eq_refl, List, [], ◌∷◌, ◌≡◌,
  ◌≢◌, refl, sym, ap, ◌∙◌, inl, inr, none, some, Option-cases, Labels, lookup, lookup-delete,
  delete, Bool-cases, ==-eq, ==-ne, if◌then◌else◌, arith,
}
use thanos_operator.Manifests.Labels.{
  EndpointType, regular, strict, group, group_strict, label_of, priority_order, has_key,
  found_label, delete_others, sanitize_store_api_endpoint_labels,
}

labels_one : (ts : List EndpointType) → String → Bool
labels_one [] k = false
labels_one (t ∷ ts) k = label_of t == k || labels_one ts k

lookup-delete_others :
    (ts : List EndpointType) (found k : String) (m : Labels)
    → lookup k (delete_others ts found m)
      ≡ (if labels_one ts k && not (k == found) then none else lookup k m)
unfolding delete_others labels_one
lookup-delete_others [] found k m = refl
lookup-delete_others (t ∷ ts) found k m = ground (
  arith,
  eq_iff (label_of t) found,
  eq_iff (label_of t) k,
  eq_iff k found,
  lookup-delete (label_of t) k m,
  lookup-delete_others ts found k m,
  lookup-delete_others ts found k (delete (label_of t) m),
)

-- The type of a label, of which the order among the four is the only thing that matters.
abbrev type_of : String → EndpointType
type_of k =
    if k == label_of regular
    then regular
    else if k == label_of strict
    then strict
    else if k == label_of group
    then group
    else group_strict

type_of-label_of : (t : EndpointType) → type_of (label_of t) ≡ t
type_of-label_of regular = refl
type_of-label_of strict = refl
type_of-label_of group = refl
type_of-label_of group_strict = refl

label_of-injective : (t t' : EndpointType) → label_of t ≡ label_of t' → t ≡ t'
label_of-injective t t' h = sym (type_of-label_of t) ∙ ap type_of h ∙ type_of-label_of t'

labels_one-label_of : (t : EndpointType) → labels_one priority_order (label_of t) ≡ true
unfolding labels_one
labels_one-label_of regular = refl
labels_one-label_of strict = refl
labels_one-label_of group = refl
labels_one-label_of group_strict = refl

module _ (m : Labels) where
  found : String
  found = found_label priority_order m

  lookup_type :
      (t : EndpointType)
      → lookup (label_of t) (sanitize_store_api_endpoint_labels m)
        ≡ (if label_of t == found then lookup (label_of t) m else none)
  unfolding sanitize_store_api_endpoint_labels found
  lookup_type t = elim (Bool-cases (label_of t == found)) [
    | inl e ↦
        lookup-delete_others priority_order found (label_of t) m
        ∙ rw (labels_one-label_of t, e) refl
    | inr e ↦
        lookup-delete_others priority_order found (label_of t) m
        ∙ rw (labels_one-label_of t, e) refl
  ]

  kept_type :
      (t : EndpointType) (v : String)
      → lookup (label_of t) (sanitize_store_api_endpoint_labels m) ≡ some v
      → label_of t ≡ found
  kept_type t v h = elim (Bool-cases (label_of t == found)) [
    | inl e ↦ ==-eq (label_of t) found e
    | inr e ↦ cc (rw e at (lookup_type t))
  ]

-- A higher rank wins.
abbrev pub rank : EndpointType → ℕ
rank regular = 0
rank strict = 1
rank group = 2
rank group_strict = 3

has_key-some : (k v : String) (m : Labels) → lookup k m ≡ some v → has_key k m ≡ true
unfolding has_key
has_key-some k v m h = ground arith

has_key-none : (k : String) (m : Labels) → lookup k m ≡ none → has_key k m ≡ false
unfolding has_key
has_key-none k m h = ground arith

found_type :
    (t : EndpointType) (v : String) (m : Labels)
    → lookup (label_of t) m ≡ some v
    → ((t' : EndpointType) → rank t < rank t' → lookup (label_of t') m ≡ none)
    → found m ≡ label_of t
unfolding found found_label
found_type t v m h above =
    by_type t (has_key-some (label_of t) v m h) (λ t' r. has_key-none (label_of t') m (above t' r))
  where
    by_type :
        (t : EndpointType)
        → has_key (label_of t) m ≡ true
        → ((t' : EndpointType) → rank t < rank t' → has_key (label_of t') m ≡ false)
        → found m ≡ label_of t
    by_type group_strict h above = rw h refl
    by_type group h above = rw (above group_strict (omega arith), h) refl
    by_type strict h above =
        rw (above group_strict (omega arith), above group (omega arith), h) refl
    by_type regular h above = ground (
      arith,
      h,
      above group_strict (omega arith),
      above group (omega arith),
      above strict (omega arith),
    )

-- After the clean-up at most one of the four endpoint labels is set.
pub sanitize_unique :
    (m : Labels) (t t' : EndpointType) (v v' : String)
    → lookup (label_of t) (sanitize_store_api_endpoint_labels m) ≡ some v
    → lookup (label_of t') (sanitize_store_api_endpoint_labels m) ≡ some v'
    → t ≡ t'
sanitize_unique m t t' v v' h h' =
    label_of-injective t t' (kept_type m t v h ∙ sym (kept_type m t' v' h'))

-- An endpoint label keeps its value, or its absence, if no endpoint label of a higher rank is set.
pub sanitize_keeps :
    (m : Labels) (t : EndpointType)
    → ((t' : EndpointType) → rank t < rank t' → lookup (label_of t') m ≡ none)
    → lookup (label_of t) (sanitize_store_api_endpoint_labels m) ≡ lookup (label_of t) m
sanitize_keeps m t above = elim (Option-cases (lookup (label_of t) m)) [
  | inl e ↦ lookup_type m t ∙ ground arith
  | inr (v, e) ↦ lookup_type m t ∙ rw (found_type t v m e above, eq_refl (label_of t)) refl
]

abbrev pub IsOther : String → Type 0
IsOther k = (t : EndpointType) → label_of t ≢ k

-- Every other label keeps its value or its absence.
pub sanitize_others :
    (m : Labels) (k : String)
    → IsOther k
    → lookup k (sanitize_store_api_endpoint_labels m) ≡ lookup k m
unfolding sanitize_store_api_endpoint_labels labels_one
sanitize_others m k other =
    lookup-delete_others priority_order (found_label priority_order m) k m
    ∙ rw
        (
          ==-ne _ k (other group_strict),
          ==-ne _ k (other group),
          ==-ne _ k (other strict),
          ==-ne _ k (other regular),
        )
        refl
