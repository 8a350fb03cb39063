-- ===== src/Manifests/Selectors.antt =====
-- `BuildLabelSelectorFrom`.
use thanos_operator.Common.{
  String, List, [], ◌∷◌, ◌≡◌, ◌≢◌, ◌↔◌, inl, inr, ap, refl, Option, Option-cases, none, some,
  Labels, HasUniqueKeys, lookup, copy, lookup-copy, or_else,
}
use thanos_operator.Common.Opt.{some-eq}
use thanos_operator.Manifests.Labels.{
  LabelSelector, Built, panic, copy_into, build_label_selector_from,
}

module _ {Expression Selector Error : Type 0}
    (as_selector : LabelSelector Expression → Built Selector Error) where
  -- Building a selector panics exactly where a selector without match labels is given and there
  -- are required labels, which the code then writes to a nil map; if the library's own conversion
  -- of a selector does not panic.
  pub build_label_selector_from_panics :
      ((ls : LabelSelector Expression) → as_selector ls ≢ panic)
      → (given : Option (LabelSelector Expression)) (required : Labels)
      → (build_label_selector_from as_selector given required ≡ panic)
        ↔ (ls : LabelSelector Expression) × (given ≡ some ls)
          × (ls.match_labels ≡ none)
          × (required ≢ [])
  unfolding build_label_selector_from
  build_label_selector_from_panics never none required =
      ((λ h. absurd (never _ h)), (λ (ls, e, n, r). cc))
  build_label_selector_from_panics never (some ls) [] = elim (Option-cases ls.match_labels) [
    | inl e ↦ rw (e, copy_into) ((λ h. absurd (never _ h)), (λ (ls', same, n, r). absurd (r refl)))
    | inr (m, e) ↦
        rw (e, copy_into) ((λ h. absurd (never _ h)), (λ (ls', same, n, r). absurd (r refl)))
  ]
  build_label_selector_from_panics never (some ls) ((k, v) ∷ required) =
      elim (Option-cases ls.match_labels) [
        | inl e ↦
            rw (e, copy_into)
              (
                (λ h. (
                  record { match_labels = none; match_expressions = ls.match_expressions },
                  refl,
                  refl,
                  λ h. cc,
                )),
                (λ (ls', same, n, r). refl),
              )
        | inr (m, e) ↦
            rw (e, copy_into)
              (
                (λ h. absurd (never _ h)),
                (λ (ls', same, n, r).
                    cc (ap (λ (s : LabelSelector Expression). s.match_labels) (some-eq same))),
              )
      ]

  -- A selector with match labels is built as the library builds the selector that has the same
  -- expressions, and match labels in which the required labels, whose keys are unique, win over the
  -- given ones and nothing else changes.
  pub build_label_selector_from_requires :
      (expressions : List Expression) (given required : Labels)
      → HasUniqueKeys required
      → (m : Labels) × (build_label_selector_from as_selector
            (some (record { match_labels = some given; match_expressions = expressions }))
            required
          ≡ as_selector (record { match_labels = some m; match_expressions = expressions }))
        × ((k : String) → lookup k m ≡ or_else (lookup k required) (lookup k given))
  unfolding build_label_selector_from
  build_label_selector_from_requires expressions given required u =
      (copy given required, refl, λ k. lookup-copy k given required u)
