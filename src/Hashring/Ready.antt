-- ===== src/Hashring/Ready.antt =====
-- From ready endpoints of EndpointSlices to the sorted endpoints of a hashring.
use mathlib.Core.Path.{subst}
use mathlib.Core.List.{Memᴰ}
use mathlib.Core.List.Memᴰ
use thanos_operator.Common.Opt.{>>=-eq-some, some-eq}
use thanos_operator.Common.{
  true, List, [], ◌∷◌, ◌++◌, ◌≡◌, ◌↔◌, inl, inr, refl, sym, ap, ◌∙◌, some, Bool-cases, arith,
}
use thanos_operator.Hashring.Types.{Endpoint}
use thanos_operator.Hashring.Endpoints.{
  DiscoveryEndpoint, EndpointSlice, EndpointFilter, EndpointConverter, is_ready, ready_endpoints,
  filter_endpoint_ready, convert_all, gather,
}

abbrev pub IsReady : DiscoveryEndpoint → Type 0
IsReady ep = ep.ready ≡ some true

is_ready→IsReady : (ep : DiscoveryEndpoint) → is_ready ep ≡ true → IsReady ep
unfolding is_ready
is_ready→IsReady ep h = ground arith

IsReady→is_ready : (ep : DiscoveryEndpoint) → IsReady ep → is_ready ep ≡ true
unfolding is_ready
IsReady→is_ready ep h = ground arith

pub mem-ready_endpoints :
    (ep : DiscoveryEndpoint) (eps : List DiscoveryEndpoint)
    → Memᴰ ep (ready_endpoints eps) ↔ (Memᴰ ep eps × IsReady ep)
unfolding ready_endpoints
mem-ready_endpoints ep [] = ((λ m. absurd (Memᴰ.not-nil m)), (λ m. m.0))
mem-ready_endpoints ep (x ∷ eps) =
    let (forth, back) = mem-ready_endpoints ep eps in
    elim (Bool-cases (is_ready x)) [
      | inl e ↦ rw e (
        (λ m. elim (Memᴰ.cases_cons m) [
          | inl h ↦ (Memᴰ.head h, rw h (is_ready→IsReady x e))
          | inr t ↦ (Memᴰ.tail (forth t).0, (forth t).1)
        ]),
        (λ (m, r). elim (Memᴰ.cases_cons m) [
          | inl h ↦ Memᴰ.head h
          | inr t ↦ Memᴰ.tail (back (t, r))
        ]),
      )
      | inr e ↦ rw e (
        (λ m. (Memᴰ.tail (forth m).0, (forth m).1)),
        (λ (m, r). elim (Memᴰ.cases_cons m) [
          | inl h ↦ cc (IsReady→is_ready ep r, ap is_ready h)
          | inr t ↦ back (t, r)
        ]),
      )
    ]

module _ (converter : EndpointConverter) (s : EndpointSlice) where
  abbrev Converted : List DiscoveryEndpoint → Endpoint → Type 0
  Converted eps e = (ep : DiscoveryEndpoint) × Memᴰ ep eps × (converter s ep ≡ some e)

  mem-convert_all :
      (eps : List DiscoveryEndpoint) {es : List Endpoint}
      → convert_all converter s eps ≡ some es
      → (e : Endpoint) → Memᴰ e es ↔ Converted eps e
  unfolding convert_all
  mem-convert_all [] h e =
      rw (sym (some-eq h)) ((λ m. absurd (Memᴰ.not-nil m)), (λ (ep, m, _). absurd (Memᴰ.not-nil m)))
  mem-convert_all (ep ∷ eps) h e =
      let (x, hx, hr) = >>=-eq-some (converter s ep) _ h in
      let (xs, hxs, hs) = >>=-eq-some (convert_all converter s eps) _ hr in
      let (forth, back) = mem-convert_all eps hxs e in
      rw (sym (some-eq hs)) (
        (λ m. elim (Memᴰ.cases_cons m) [
          | inl h ↦ (ep, Memᴰ.head refl, hx ∙ ap some (sym h))
          | inr t ↦ let (q, mq, hq) = forth t in (q, Memᴰ.tail mq, hq)
        ]),
        (λ (q, mq, hq). elim (Memᴰ.cases_cons mq) [
          | inl h ↦ Memᴰ.head (some-eq (sym hq ∙ ap (converter s) h ∙ hx))
          | inr t ↦ Memᴰ.tail (back (q, t, hq))
        ]),
      )

  -- The conversion has a result where each endpoint has one.
  convert_all_total :
      (eps : List DiscoveryEndpoint)
      → ((ep : DiscoveryEndpoint) → Memᴰ ep eps → (e : Endpoint) × (converter s ep ≡ some e))
      → (es : List Endpoint) × (convert_all converter s eps ≡ some es)
  unfolding convert_all
  convert_all_total [] h = ([], refl)
  convert_all_total (ep ∷ eps) h =
      let (x, hx) = h ep (Memᴰ.head refl) in
      let (xs, hxs) = convert_all_total eps (λ q m. h q (Memᴰ.tail m)) in
      (x ∷ xs, rw (hx, hxs) refl)

-- The endpoints that the controller asks for: the ready ones.
abbrev pub ready_only : List EndpointFilter
ready_only = filter_endpoint_ready ∷ []

-- The converter looks at a slice's labels and namespace, and not at its endpoints.
abbrev pub IgnoresEndpoints : EndpointConverter → Type 0
IgnoresEndpoints converter =
    (s : EndpointSlice) (eps : List DiscoveryEndpoint) (ep : DiscoveryEndpoint)
    → converter (record s { endpoints = eps }) ep ≡ converter s ep

-- The endpoint that the converter makes of a ready endpoint of one of the slices.
abbrev pub FromReady : EndpointConverter → List EndpointSlice → Endpoint → Type 0
FromReady converter items e =
    (s : EndpointSlice) × (ep : DiscoveryEndpoint) × Memᴰ s items
    × Memᴰ ep s.endpoints
    × IsReady ep
    × (converter s ep ≡ some e)

module _ (converter : EndpointConverter) (ignores : IgnoresEndpoints converter) where
  pub mem-gather :
      (items : List EndpointSlice) {es : List Endpoint}
      → gather converter ready_only items ≡ some es
      → (e : Endpoint) → Memᴰ e es ↔ FromReady converter items e
  unfolding gather filter_endpoint_ready
  mem-gather [] h e =
      rw (sym (some-eq h)) ((λ m. absurd (Memᴰ.not-nil m)), (λ f. absurd (Memᴰ.not-nil f.2)))
  mem-gather (s ∷ items) h e =
      let kept = ready_endpoints s.endpoints in
      let s' = record s { endpoints = kept } in
      let (xs, hx, hr) = >>=-eq-some (convert_all converter s' kept) _ h in
      let (ys, hy, hs) = >>=-eq-some (gather converter ready_only items) _ hr in
      let (forth, back) = mem-convert_all converter s' kept hx e in
      let (forth', back') = mem-gather items hy e in
      rw (sym (some-eq hs)) (
        (λ m. elim (Memᴰ.append_cases xs m) [
          | inl l ↦
              let (ep, mep, hep) = forth l in
              let (there, ready) = (mem-ready_endpoints ep s.endpoints).0 mep in
              (s, ep, Memᴰ.head refl, there, ready, sym (ignores s kept ep) ∙ hep)
          | inr r ↦
              let (t, ep, mt, mep, ready, hep) = forth' r in (t, ep, Memᴰ.tail mt, mep, ready, hep)
        ]),
        (λ (t, ep, mt, mep, ready, hep). elim (Memᴰ.cases_cons mt) [
          | inl h ↦ Memᴰ.append_left ys (
              back (
                ep,
                (mem-ready_endpoints ep s.endpoints).1
                    (subst (λ (z : EndpointSlice). Memᴰ ep z.endpoints) h mep, ready),
                ignores s kept ep ∙ sym (ap (λ z. converter z ep) h) ∙ hep,
              ))
          | inr r ↦ Memᴰ.append_right xs (back' (t, ep, r, mep, ready, hep))
        ]),
      )

  pub gather_total :
      (items : List EndpointSlice)
      → ((s : EndpointSlice) (ep : DiscoveryEndpoint)
          → Memᴰ s items
          → Memᴰ ep s.endpoints
          → IsReady ep
          → (e : Endpoint) × (converter s ep ≡ some e))
      → (es : List Endpoint) × (gather converter ready_only items ≡ some es)
  unfolding gather filter_endpoint_ready
  gather_total [] h = ([], refl)
  gather_total (s ∷ items) h =
      let kept = ready_endpoints s.endpoints in
      let s' = record s { endpoints = kept } in
      let (xs, hx) = convert_all_total converter s' kept (λ ep m.
        let (there, ready) = (mem-ready_endpoints ep s.endpoints).0 m in
        let (e, he) = h s ep (Memᴰ.head refl) there ready in (e, ignores s kept ep ∙ he)) in
      let (ys, hy) = gather_total items (λ t ep mt. h t ep (Memᴰ.tail mt)) in
      (xs ++ ys, rw (hx, hy) refl)
