-- ===== src/Controllers/Enqueue.antt =====
-- The handlers of internal/controller that map an event on a watched object to requests: which resources
-- are reconciled when a Service, a ConfigMap, a PrometheusRule or an EndpointSlice changes.
use mathlib.Core.Path.{subst}
use mathlib.Core.List.{Memᴰ}
use mathlib.Core.List.Memᴰ
use thanos_operator.Common.{
  String, Bool, true, List, [], ◌∷◌, ◌++◌, Option, none, some, if◌then◌else◌, ◌≡◌, ◌↔◌, ◌⊎◌, refl,
  sym, ap, ◌∙◌, inl, inr, Bool-cases,
}
use thanos_operator.Manifests.Labels.{Built, selector, panic}
use thanos_operator.Manifests.Labels
use thanos_operator.Controllers.Reconciling.{Resource}

-- The namespace and the name of a resource.
abbrev pub Request : Type 0
Request = String × String

pub data Enqueued : Type 0 where
  requests : List Request → Enqueued
  enqueue_panics : Enqueued

abbrev pub request_for : {Spec : Type 0} → Resource Spec → Request
request_for resource = (resource.object.namespace, resource.object.name)

-- The requests of a turn of the loop and of the later ones; a panic ends the loop.
unfoldable pub and_then : Enqueued → Enqueued → Enqueued
and_then (requests rs) (requests rest) = requests (rs ++ rest)
and_then (requests rs) enqueue_panics = enqueue_panics
and_then enqueue_panics rest = enqueue_panics

-- One selector: an error skips the resource, and a match asks for it.
unfoldable pub select_request :
    {Selector Error Spec : Type 0}
    → Built Selector Error
    → (Selector → Bool)
    → Resource Spec
    → Enqueued
select_request (selector sel) matches resource =
    if matches sel then requests (request_for resource ∷ []) else requests []
select_request (Labels.failed e) matches resource = requests []
select_request panic matches resource = enqueue_panics

unfoldable pub enqueue_each :
    {Spec : Type 0} → (Resource Spec → Enqueued) → List (Resource Spec) → Enqueued
unfolding and_then
enqueue_each turn [] = requests []
enqueue_each turn (resource ∷ resources) = and_then (turn resource) (enqueue_each turn resources)

-- The event of an object that the handler takes an interest in; nothing is asked for if the resources of
-- its namespace cannot be listed.
unfoldable pub enqueue :
    {Spec : Type 0} → Bool → Option (List (Resource Spec)) → (Resource Spec → Enqueued) → Enqueued
unfolding enqueue_each
enqueue is_queueable none turn = requests []
enqueue is_queueable (some resources) turn =
    let all = enqueue_each turn resources in if is_queueable then all else requests []

module _ {Selector Error Spec : Type 0} (built : Resource Spec → Built Selector Error)
    (matches : Selector → Bool) where
  -- The selector of the resource is built, and it matches.
  abbrev pub IsSelected : Resource Spec → Type 0
  IsSelected resource = (sel : Selector) × (built resource ≡ selector sel) × (matches sel ≡ true)

  -- A turn asks for nothing but the resource, and for that exactly if it is selected.
  select-cases :
      (resource : Resource Spec) (rs : List Request) (b : Built Selector Error)
      → built resource ≡ b
      → select_request b matches resource ≡ requests rs
      → ((rs ≡ request_for resource ∷ []) × IsSelected resource)
        ⊎ ((rs ≡ []) × ¬ IsSelected resource)
  unfolding select_request
  select-cases resource rs (selector sel) e h = elim (Bool-cases (matches sel)) [
    | inl m ↦ inl (cc, (sel, e, m))
    | inr m ↦ inr (
      cc,
      λ (sel', e', m').
          let same : sel ≡ sel' = cc (sym e ∙ e') in cc (sym m ∙ ap matches same ∙ m'),
    )
  ]
  select-cases resource rs (Labels.failed err) e h = inr (cc, λ (sel', e', m'). cc)
  select-cases resource rs panic e h = cc

  -- What is asked for is what is selected.
  abbrev pub AsksFor : List (Resource Spec) → List Request → Type 0
  AsksFor resources rs =
      (q : Request)
      → Memᴰ q rs
        ↔ (resource : Resource Spec) × Memᴰ resource resources
          × IsSelected resource
          × (q ≡ request_for resource)

  abbrev turn : Resource Spec → Enqueued
  turn resource = select_request (built resource) matches resource

  and_then-requests :
      (a b : Enqueued) (rs : List Request)
      → and_then a b ≡ requests rs
      → (xs ys : List Request) × (a ≡ requests xs) × (b ≡ requests ys) × (rs ≡ xs ++ ys)
  unfolding and_then
  and_then-requests (requests xs) (requests ys) rs h = (xs, ys, refl, refl, cc)
  and_then-requests (requests xs) enqueue_panics rs h = cc
  and_then-requests enqueue_panics b rs h = cc

  pub enqueue_each-AsksFor :
      (resources : List (Resource Spec)) (rs : List Request)
      → enqueue_each turn resources ≡ requests rs
      → AsksFor resources rs
  unfolding enqueue_each
  enqueue_each-AsksFor [] rs h =
      let none_left : rs ≡ [] = cc in
      λ q. (
        (λ m. absurd (Memᴰ.not-nil (rw none_left at m))),
        (λ (r, m, c, e). absurd (Memᴰ.not-nil m)),
      )
  enqueue_each-AsksFor (resource ∷ resources) rs h =
      let (xs, ys, here, later, all) =
        and_then-requests (turn resource) (enqueue_each turn resources) rs h in
      let rest : AsksFor resources ys = enqueue_each-AsksFor resources ys later in
      rw all (elim (select-cases resource xs (built resource) refl here) [
        | inl (one, chosen) ↦ rw one λ q. (
          (λ m. elim (Memᴰ.cases_cons m) [
            | inl e ↦ (resource, Memᴰ.head refl, chosen, e)
            | inr l ↦ let (r, mr, c, e) = (rest q).0 l in (r, Memᴰ.tail mr, c, e)
          ]),
          (λ (r, m, c, e). elim (Memᴰ.cases_cons m) [
            | inl same ↦ Memᴰ.head (e ∙ ap (λ (x : Resource Spec). request_for x) same)
            | inr l ↦ Memᴰ.tail ((rest q).1 (r, l, c, e))
          ]),
        )
        | inr (nothing, left) ↦ rw nothing λ q. (
          (λ m. let (r, mr, c, e) = (rest q).0 m in (r, Memᴰ.tail mr, c, e)),
          (λ (r, m, c, e). elim (Memᴰ.cases_cons m) [
            | inl same ↦ absurd (left (subst IsSelected same c))
            | inr l ↦ (rest q).1 (r, l, c, e)
          ]),
        )
      ])
