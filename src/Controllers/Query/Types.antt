-- ===== src/Controllers/Query/Types.antt =====
-- The type of an endpoint, as the query controller reads it and as the builders clean it up.
use thanos_operator.Common.{
  ◌<◌, String, true, false, none, some, Option-cases, Labels, lookup, ◌≡◌, ◌≢◌, refl, ◌∙◌, inl, inr,
}
use thanos_operator.Manifests.Labels.{
  EndpointType, regular, strict, group, group_strict, label_of, has_key,
  sanitize_store_api_endpoint_labels,
}
use thanos_operator.Manifests.StoreApi.{rank, sanitize_unique, sanitize_keeps}
use thanos_operator.Controllers.Query.{get_service_type_from_label}

module _ (labels : Labels) where
  -- The labels of the other types are absent.
  IsOnly : EndpointType → Type 0
  IsOnly t = (t' : EndpointType) → t ≢ t' → has_key (label_of t') labels ≡ false

  by_type :
      (t : EndpointType)
      → has_key (label_of t) labels ≡ true
      → IsOnly t
      → get_service_type_from_label labels ≡ t
  unfolding get_service_type_from_label IsOnly
  by_type strict has only = rw has refl
  by_type group_strict has only = rw (only strict (λ h. cc), has) refl
  by_type group has only = rw (only strict (λ h. cc), only group_strict (λ h. cc), has) refl
  by_type regular has only =
      rw (only strict (λ h. cc), only group_strict (λ h. cc), only group (λ h. cc)) refl

-- Of labels that the builders have cleaned up, the controller reads the type of the endpoint label of
-- the highest rank that was set.
pub get_service_type_from_label-sanitize :
    (m : Labels) (t : EndpointType) (v : String)
    → lookup (label_of t) m ≡ some v
    → ((t' : EndpointType) → rank t < rank t' → lookup (label_of t') m ≡ none)
    → get_service_type_from_label (sanitize_store_api_endpoint_labels m) ≡ t
unfolding has_key IsOnly
get_service_type_from_label-sanitize m t v h above =
    let kept : lookup (label_of t) (sanitize_store_api_endpoint_labels m) ≡ some v =
      sanitize_keeps m t above ∙ h in
    by_type (sanitize_store_api_endpoint_labels m) t (rw (kept, has_key) refl) (λ t' different.
      elim (Option-cases (lookup (label_of t') (sanitize_store_api_endpoint_labels m))) [
        | inl e ↦ rw (e, has_key) refl
        | inr (v', e) ↦ absurd (different (sanitize_unique m t t' v v' kept e))
      ])
