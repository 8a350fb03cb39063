-- ===== src/Hashring/Discovery.antt =====
-- What `EndpointSliceListToEndpoints` returns.
use mathlib.Core.List.{Memᴰ}
use mathlib.Core.List.Memᴰ
use thanos_operator.Common.{
  String, true, eq_iff, List, [], ◌∷◌, ◌≡◌, ◌≢◌, ◌↔◌, inl, inr, refl, sym, ap, ◌∙◌, All, mem-perm,
  str_lt, sort_by, sort_by-perm, sort_by-agree, sort_by-IsSorted, IsSorted, key_lt, key_order,
  key_total, All-imp, Bool-cases, ==-ne, arith,
}
use thanos_operator.Hashring.Types.{Endpoint}
use thanos_operator.Hashring.Endpoints.{endpoint_lt, same_endpoint, compact_after, compact}

-- Each endpoint's address comes before those of all later ones.
abbrev pub IsStrictlySorted : List Endpoint → Type 0
IsStrictlySorted [] = Unit
IsStrictlySorted (x ∷ xs) = All (λ y. str_lt x.address y.address ≡ true) xs × IsStrictlySorted xs

-- Two endpoints of the list with one address are one endpoint.
abbrev pub IsDetermined : List Endpoint → Type 0
IsDetermined xs = (a b : Endpoint) → Memᴰ a xs → Memᴰ b xs → a.address ≡ b.address → a ≡ b

abbrev pub address : Endpoint → String
address e = e.address

same_endpoint→eq : (a b : Endpoint) → same_endpoint a b ≡ true → a ≡ b
unfolding same_endpoint
same_endpoint→eq a b h = ground (
  arith,
  eq_iff a.address b.address,
  eq_iff a.capn_proto_address b.capn_proto_address,
  eq_iff a.az b.az,
)

eq→same_endpoint : (a b : Endpoint) → a ≡ b → same_endpoint a b ≡ true
unfolding same_endpoint
eq→same_endpoint a b h = ground (
  arith,
  eq_iff a.address b.address,
  eq_iff a.capn_proto_address b.capn_proto_address,
  eq_iff a.az b.az,
  ap (λ (e : Endpoint). e.address) h,
  ap (λ (e : Endpoint). e.capn_proto_address) h,
  ap (λ (e : Endpoint). e.az) h,
)

compact_after-strict :
    (p : Endpoint) (xs : List Endpoint)
    → IsSorted (key_lt address) (p ∷ xs)
    → IsDetermined (p ∷ xs)
    → IsStrictlySorted (p ∷ compact_after p xs)
unfolding compact_after
compact_after-strict p [] s d = (tt, tt)
compact_after-strict p (x ∷ xs) s d =
    let tail = compact_after-strict x xs s.1 (λ a b ma mb. d a b (Memᴰ.tail ma) (Memᴰ.tail mb)) in
    elim (Bool-cases (same_endpoint p x)) [
      | inl e ↦ rw e (rw (same_endpoint→eq p x e) tail)
      | inr e ↦
          let differ : p.address ≢ x.address = λ same.
            cc (eq→same_endpoint p x (d p x (Memᴰ.head refl) (Memᴰ.tail (Memᴰ.head refl)) same)) in
          let before : str_lt p.address x.address ≡ true = elim (key_total address p x differ) [
            | inl yes' ↦ yes'
            | inr no' ↦ cc (s.0.0)
          ] in
          rw e ((before, All-imp _ (λ y h. (key_order address).trans p x y before h) tail.0), tail)
    ]

mem-compact_after :
    (e p : Endpoint) (xs : List Endpoint) → Memᴰ e (p ∷ compact_after p xs) ↔ Memᴰ e (p ∷ xs)
unfolding compact_after
mem-compact_after e p [] = ((λ m. m), (λ m. m))
mem-compact_after e p (x ∷ xs) = elim (Bool-cases (same_endpoint p x)) [
  | inl same ↦
      let (forth, back) = mem-compact_after e x xs in
      let eq : x ≡ p = sym (same_endpoint→eq p x same) in
      rw same (
        (λ m. elim (Memᴰ.cases_cons m) [
          | inl h ↦ Memᴰ.head h
          | inr t ↦ Memᴰ.tail (forth (Memᴰ.tail t))
        ]),
        (λ m. elim (Memᴰ.cases_cons m) [
          | inl h ↦ Memᴰ.head h
          | inr t ↦ elim (Memᴰ.cases_cons (back t)) [
            | inl h ↦ Memᴰ.head (h ∙ eq)
            | inr u ↦ Memᴰ.tail u
          ]
        ]),
      )
  | inr other ↦
      let (forth, back) = mem-compact_after e x xs in
      rw other (
        (λ m. elim (Memᴰ.cases_cons m) [ inl h ↦ Memᴰ.head h | inr t ↦ Memᴰ.tail (forth t) ]),
        (λ m. elim (Memᴰ.cases_cons m) [ inl h ↦ Memᴰ.head h | inr t ↦ Memᴰ.tail (back t) ]),
      )
]

pub mem-compact : (e : Endpoint) (xs : List Endpoint) → Memᴰ e (compact xs) ↔ Memᴰ e xs
unfolding compact
mem-compact e [] = ((λ m. m), (λ m. m))
mem-compact e (x ∷ xs) = mem-compact_after e x xs

endpoint_lt-key_lt :
    (a b : Endpoint) → a.address ≢ "" → b.address ≢ "" → endpoint_lt a b ≡ key_lt address a b
unfolding endpoint_lt
endpoint_lt-key_lt a b p q = rw (==-ne a.address "" p, ==-ne b.address "" q) refl

compact-strict :
    (xs : List Endpoint)
    → IsSorted (key_lt address) xs
    → IsDetermined xs
    → IsStrictlySorted (compact xs)
unfolding compact
compact-strict [] s d = tt
compact-strict (x ∷ xs) s d = compact_after-strict x xs s d

-- Sorting and compacting endpoints that have addresses, each of which determines its endpoint.
module _ (xs : List Endpoint) (addressed : All (λ e. e.address ≢ "") xs) (d : IsDetermined xs) where
  pub compact-sort_by-strict : IsStrictlySorted (compact (sort_by endpoint_lt xs))
  compact-sort_by-strict =
      let perm = sort_by-perm (key_lt address) xs in
      rw
        (sort_by-agree endpoint_lt (key_lt address) (λ e. e.address ≢ "") endpoint_lt-key_lt xs
          addressed)
        (compact-strict (sort_by (key_lt address) xs) (sort_by-IsSorted (key_order address) xs)
          (λ a b ma mb. d a b (mem-perm perm ma) (mem-perm perm mb)))
