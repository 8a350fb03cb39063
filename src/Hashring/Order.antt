-- ===== src/Hashring/Order.antt =====
-- The order in which Go walks the map of observed hashrings, and the merged configuration.
use mathlib.Core.List.{Permᴰ}
use mathlib.Core.List.Permᴰ
use thanos_operator.Common.{
  ℤ, String, true, false, ◌==◌, [], ◌∷◌, ◌++◌, ◌≡◌, ◌≢◌, refl, sym, ap, ap₂, ◌∙◌, ◌⊎◌, inl, inr,
  All, All-imp, Unique-perm, HasUniqueKeys, collect, sort_by, sort_by_onto, sort_by-append,
  sort_by_onto_comm, key_order, key_total, IsSorted, sort_by-IsSorted, Bool-cases, ==-eq, keys,
  All-append, Distinct, Distinct-append, sorted_unique,
}
use thanos_operator.Hashring.Types.{
  HashringMeta, HashringConfig, HashringState, Hashrings, meta_to_hashring, is_empty_hashring,
}
use thanos_operator.Hashring.Merge.{
  previous_named, tolerates, complete, dynamic_entry, static_entry, name_lt, dynamic_merge,
  static_merge,
}

abbrev IsNamed : String → HashringConfig → Type 0
IsNamed k hr = hr.name ≡ k

previous_named-IsNamed :
    (k : String) (previous : Hashrings) → All (IsNamed k) (previous_named k previous)
unfolding previous_named collect
previous_named-IsNamed k [] = tt
previous_named-IsNamed k (h ∷ hs) = elim (Bool-cases (h.name == k)) [
  | inl e ↦ rw e (==-eq h.name k e, previous_named-IsNamed k hs)
  | inr e ↦ rw e (previous_named-IsNamed k hs)
]

dynamic_entry-IsNamed :
    (previous : Hashrings) (rf : ℤ) (x : String × HashringMeta)
    → All (IsNamed x.0) (dynamic_entry previous rf x)
unfolding dynamic_entry meta_to_hashring
dynamic_entry-IsNamed previous rf (k, v) = elim (Bool-cases (tolerates rf v)) [
  | inl e ↦ rw e (refl, tt)
  | inr e ↦ rw e (previous_named-IsNamed k previous)
]

static_entry-IsNamed :
    (previous : Hashrings) (rf : ℤ) (x : String × HashringMeta)
    → All (IsNamed x.0) (static_entry previous rf x)
unfolding static_entry meta_to_hashring
static_entry-IsNamed previous rf (k, v) = elim (Bool-cases (complete rf v)) [
  | inl e ↦ rw e (refl, tt)
  | inr e ↦ rw e (previous_named-IsNamed k previous)
]

-- A loop over the map that only appends hashrings named by the key at hand.
module _ (entry : String × HashringMeta → Hashrings)
    (named : (x : String × HashringMeta) → All (IsNamed x.0) (entry x)) where
  apart :
      (x y : String × HashringMeta)
      → x.0 ≢ y.0
      → All (λ b. All (λ a. (name_lt a b ≡ true) ⊎ (name_lt b a ≡ true)) (entry x)) (entry y)
  apart x y other =
      All-imp (entry y)
        (λ b nb.
          All-imp (entry x)
            (λ a na. key_total (λ (h : HashringConfig). h.name) a b (λ e. other (sym na ∙ e ∙ nb)))
            (named x))
        (named y)

  -- Two neighbours of the walk can be exchanged.
  sort-collect-swap :
      (a b : String × HashringMeta) (l : HashringState)
      → a.0 ≢ b.0
      → sort_by name_lt (collect entry (a ∷ b ∷ l)) ≡ sort_by name_lt (collect entry (b ∷ a ∷ l))
  unfolding collect
  sort-collect-swap a b l other =
      let o = key_order (λ (h : HashringConfig). h.name) in
      let rest = collect entry l in
      let sorted = sort_by name_lt rest in
      sort_by-append o (entry a) (entry b ++ rest)
      ∙ ap (sort_by_onto o (entry a)) (sort_by-append o (entry b) rest)
      ∙ sort_by_onto_comm o (entry a) (entry b) sorted (apart a b other)
      ∙ ap (sort_by_onto o (entry b)) (sym (sort_by-append o (entry a) rest))
      ∙ sym (sort_by-append o (entry b) (entry a ++ rest))

  sort-collect-perm :
      {s t : HashringState}
      → Permᴰ s t
      → HasUniqueKeys s
      → sort_by name_lt (collect entry s) ≡ sort_by name_lt (collect entry t)
  unfolding collect
  sort-collect-perm Permᴰ.nil u = refl
  sort-collect-perm (Permᴰ.cons {a = a} {b = b} {l₁ = l} {l₂ = m} e p) u =
      let o = key_order (λ (h : HashringConfig). h.name) in
      sort_by-append o (entry a) (collect entry l)
      ∙ ap (sort_by_onto o (entry a)) (sort-collect-perm p u.1)
      ∙ ap (λ z. sort_by_onto o (entry z) (sort_by name_lt (collect entry m))) e
      ∙ sym (sort_by-append o (entry b) (collect entry m))
  sort-collect-perm (Permᴰ.swap {a = a} {b = b} {l = l} e f) u =
      sort-collect-swap a b l u.0.0 ∙ ap₂ (λ y z. sort_by name_lt (collect entry (y ∷ z ∷ l))) f e
  sort-collect-perm (Permᴰ.trans p q) u =
      sort-collect-perm p u
      ∙ sort-collect-perm q (Unique-perm (Permᴰ.map (λ (x : String × HashringMeta). x.0) p) u)

  from_others :
      (k : String) (s : HashringState)
      → All (λ j. k ≢ j) (keys s)
      → All (λ (b : HashringConfig). k ≢ b.name) (collect entry s)
  unfolding collect
  from_others k [] h = tt
  from_others k (x ∷ s) h =
      All-append (λ (b : HashringConfig). k ≢ b.name) (entry x) (collect entry s)
        (All-imp (entry x) (λ b named_x e. h.0 (e ∙ named_x)) (named x)) (from_others k s h.1)

  collect-Distinct :
      ((x : String × HashringMeta) → Distinct (λ (h : HashringConfig). h.name) (entry x))
      → (s : HashringState) → HasUniqueKeys s
      → Distinct (λ (h : HashringConfig). h.name) (collect entry s)
  unfolding collect
  collect-Distinct single [] u = tt
  collect-Distinct single (x ∷ s) u =
      Distinct-append (λ (h : HashringConfig). h.name) (entry x) (collect entry s) (single x)
        (collect-Distinct single s u.1)
        (All-imp (entry x)
          (λ a named_a.
            All-imp (collect entry s) (λ b other e. other (sym named_a ∙ e))
              (from_others x.0 s u.0))
          (named x))

  -- The order of the walk and the sort do not matter.
  sort-collect-stable :
      ((x : String × HashringMeta) → Distinct (λ (h : HashringConfig). h.name) (entry x))
      → {s t : HashringState} → Permᴰ s t
      → HasUniqueKeys s
      → (sort_by name_lt (collect entry s) ≡ sort_by name_lt (collect entry t))
        × ((out : Hashrings)
            → Permᴰ out (collect entry t)
            → IsSorted name_lt out
            → out ≡ sort_by name_lt (collect entry s))
  sort-collect-stable single {s} {t} shuffle unique =
      let same : sort_by name_lt (collect entry s) ≡ sort_by name_lt (collect entry t) =
        sort-collect-perm shuffle unique in
      (
        same,
        λ out p sorted.
            sorted_unique (λ (h : HashringConfig). h.name) out (collect entry t) p sorted
              (collect-Distinct single t
                (Unique-perm (Permᴰ.map (λ (x : String × HashringMeta). x.0) shuffle) unique))
            ∙ sym same,
      )

-- What has distinct names keeps them when only some of it is taken.
previous_named-others :
    (k n : String) (previous : Hashrings)
    → All (λ (y : HashringConfig). n ≢ y.name) previous
    → All (λ (y : HashringConfig). n ≢ y.name) (previous_named k previous)
unfolding previous_named collect
previous_named-others k n [] h = tt
previous_named-others k n (y ∷ ys) h = elim (Bool-cases (y.name == k)) [
  | inl e ↦ rw e (h.0, previous_named-others k n ys h.1)
  | inr e ↦ rw e (previous_named-others k n ys h.1)
]

previous_named-Distinct :
    (k : String) (previous : Hashrings)
    → Distinct (λ (h : HashringConfig). h.name) previous
    → Distinct (λ (h : HashringConfig). h.name) (previous_named k previous)
unfolding previous_named collect
previous_named-Distinct k [] h = tt
previous_named-Distinct k (y ∷ ys) h = elim (Bool-cases (y.name == k)) [
  | inl e ↦ rw e (previous_named-others k y.name ys h.0, previous_named-Distinct k ys h.1)
  | inr e ↦ rw e (previous_named-Distinct k ys h.1)
]

module _ (previous : Hashrings) (replication_factor : ℤ) {fetched shuffled : HashringState}
    (in_use : is_empty_hashring previous ≡ false)
    (names : Distinct (λ (h : HashringConfig). h.name) previous) (unique : HasUniqueKeys fetched)
    (shuffle : Permᴰ fetched shuffled) where
  dynamic_entry-Distinct :
      (x : String × HashringMeta)
      → Distinct (λ (h : HashringConfig). h.name) (dynamic_entry previous replication_factor x)
  unfolding dynamic_entry
  dynamic_entry-Distinct (k, v) = elim (Bool-cases (tolerates replication_factor v)) [
    | inl e ↦ rw e (tt, tt)
    | inr e ↦ rw e (previous_named-Distinct k previous names)
  ]

  -- While hashrings of distinct names are in use, the configuration of the dynamic policy does not depend
  -- on the order in which the map of observed hashrings, whose keys are unique, is walked; nor does it
  -- depend on the sort: whatever list of the hashrings that the walk collects has them in the order of
  -- their names is that configuration.
  pub dynamic_merge-perm :
      (dynamic_merge previous fetched replication_factor
        ≡ dynamic_merge previous shuffled replication_factor)
      × ((out : Hashrings)
          → Permᴰ out (collect (dynamic_entry previous replication_factor) shuffled)
          → IsSorted name_lt out
          → out ≡ dynamic_merge previous fetched replication_factor)
  unfolding dynamic_merge
  dynamic_merge-perm = rw in_use (
      sort-collect-stable (dynamic_entry previous replication_factor)
        (dynamic_entry-IsNamed previous replication_factor) dynamic_entry-Distinct shuffle unique)

  static_entry-Distinct :
      (x : String × HashringMeta)
      → Distinct (λ (h : HashringConfig). h.name) (static_entry previous replication_factor x)
  unfolding static_entry
  static_entry-Distinct (k, v) = elim (Bool-cases (complete replication_factor v)) [
    | inl e ↦ rw e (tt, tt)
    | inr e ↦ rw e (previous_named-Distinct k previous names)
  ]

  -- The same of the static policy.
  pub static_merge-perm :
      (static_merge previous fetched replication_factor
        ≡ static_merge previous shuffled replication_factor)
      × ((out : Hashrings)
          → Permᴰ out (collect (static_entry previous replication_factor) shuffled)
          → IsSorted name_lt out
          → out ≡ static_merge previous fetched replication_factor)
  unfolding static_merge
  static_merge-perm = rw in_use (
      sort-collect-stable (static_entry previous replication_factor)
        (static_entry-IsNamed previous replication_factor) static_entry-Distinct shuffle unique)

-- Both policies list the hashrings by name once hashrings are in use.
pub merge-IsSorted :
    (previous : Hashrings) (fetched : HashringState) (replication_factor : ℤ)
    → is_empty_hashring previous ≡ false
    → IsSorted name_lt (dynamic_merge previous fetched replication_factor)
      × IsSorted name_lt (static_merge previous fetched replication_factor)
unfolding dynamic_merge static_merge
merge-IsSorted previous fetched replication_factor in_use =
    let o = key_order (λ (h : HashringConfig). h.name) in
    rw in_use (
      sort_by-IsSorted o (collect (dynamic_entry previous replication_factor) fetched),
      sort_by-IsSorted o (collect (static_entry previous replication_factor) fetched),
    )

abbrev first_name : Hashrings → String
first_name [] = ""
first_name (h ∷ hs) = h.name
