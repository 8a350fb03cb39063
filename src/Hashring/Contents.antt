-- ===== src/Hashring/Contents.antt =====
-- What a merge puts into the new configuration.
use mathlib.Core.Path.{fun_ext, subst}
use mathlib.Core.List.{Memᴰ}
use mathlib.Core.List.Memᴰ
use mathlib.Core.List.Permᴰ
use thanos_operator.Common.{
  ℤ, pos, negsuc, to_nat, ltb, take_all, String, Bool, true, false, ◌==◌, eq_iff, List, [], ◌∷◌,
  ◌≡◌, refl, sym, ◌↔◌, ◌⊎◌, inl, inr, ◌+◌, ◌≤◌, at_least→le, le→at_least, at_least-pred→le,
  le→at_least-pred, &&-true, take, length, collect, mem-collect, mem-collect_of_mem, mem-perm,
  sort_by-perm, Bool-cases, ==-eq, if◌then◌else◌, arith, sort_by,
}
use thanos_operator.Hashring.Types.{
  HashringMeta, HashringConfig, HashringState, Hashrings, meta_to_hashring, is_empty_hashring,
  trim_to,
}
use thanos_operator.Hashring.Merge.{
  previous_named, tolerates, complete, trimmed, dynamic_entry, static_entry, name_lt, dynamic_merge,
  static_merge,
}

mem-singleton {ℓ} : {A : Type ℓ} {x y : A} → Memᴰ x (y ∷ []) → x ≡ y
mem-singleton m = Memᴰ.eq_of_singleton m

module _ (k : String) (hr : HashringConfig) where
  named_entry : HashringConfig → Hashrings
  named_entry h = if h.name == k then h ∷ [] else []

  pub mem-previous_named :
      (previous : Hashrings)
      → Memᴰ hr (previous_named k previous)
      → Memᴰ hr previous × (hr.name ≡ k)
  unfolding previous_named
  mem-previous_named previous m =
      let (x, mx, mh) = mem-collect _ previous m in
      elim (Bool-cases (x.name == k)) [
        | inl e ↦
            let same : hr ≡ x = mem-singleton (rw e at mh) in
            (rw same mx, rw same (==-eq x.name k e))
        | inr e ↦ absurd (Memᴰ.not-nil (rw e at mh))
      ]

  pub previous_named_of_mem :
      (previous : Hashrings) → Memᴰ hr previous → hr.name ≡ k → Memᴰ hr (previous_named k previous)
  unfolding previous_named
  previous_named_of_mem previous m e =
      mem-collect_of_mem _ previous m (rw ((eq_iff hr.name k).1 e) (Memᴰ.head refl))

-- Where a hashring of a merged configuration comes from: from the observed state, if that is
-- healthy and then as `fresh` makes it, and otherwise unchanged from the previous state.
abbrev pub Source :
    (HashringMeta → Type 0)
    → (String → HashringMeta → HashringConfig)
    → Hashrings
    → HashringState
    → HashringConfig
    → Type 0
Source Healthy fresh previous fetched hr =
    (k : String) × (v : HashringMeta) × Memᴰ (k, v) fetched
    × (Healthy v × (hr ≡ fresh k v) ⊎ (¬ Healthy v) × Memᴰ hr previous × (hr.name ≡ k))

module _ {Healthy : HashringMeta → Type 0} (test : HashringMeta → Bool)
    (decides : (v : HashringMeta) → (test v ≡ true) ↔ Healthy v)
    (fresh : String → HashringMeta → HashringConfig) (previous : Hashrings) where
  choose : String × HashringMeta → Hashrings
  choose (k, v) = if test v then fresh k v ∷ [] else previous_named k previous

  choose-Source :
      {hr : HashringConfig} (fetched : HashringState)
      → Memᴰ hr (sort_by name_lt (collect choose fetched))
      → Source Healthy fresh previous fetched hr
  unfolding choose
  choose-Source {hr} fetched m =
      let all = collect choose fetched in
      let ((k, v), mx, mh) = mem-collect choose fetched (mem-perm (sort_by-perm name_lt all) m) in
      elim (Bool-cases (test v)) [
        | inl e ↦ (k, v, mx, inl ((decides v).0 e, mem-singleton (rw e at mh)))
        | inr e ↦
            let (mp, n) = mem-previous_named k hr previous (rw e at mh) in
            (k, v, mx, inr ((λ healthy. cc ((decides v).1 healthy)), mp, n))
      ]

  source_choose :
      {hr : HashringConfig} (fetched : HashringState)
      → Source Healthy fresh previous fetched hr
      → Memᴰ hr (sort_by name_lt (collect choose fetched))
  unfolding choose
  source_choose {hr} fetched (k, v, mx, why) =
      mem-perm (Permᴰ.symm (sort_by-perm name_lt (collect choose fetched))) (
        mem-collect_of_mem choose fetched mx (elim why [
          | inl (healthy, same) ↦ rw ((decides v).1 healthy, same) (Memᴰ.head refl)
          | inr (ill, mp, n) ↦ elim (Bool-cases (test v)) [
            | inl e ↦ absurd (ill ((decides v).0 e))
            | inr e ↦ rw e (previous_named_of_mem k hr previous mp n)
          ]
        ]))

module _ (replication_factor : ℤ) where
  -- Enough endpoints to replicate, and at most one desired replica missing.
  abbrev pub IsTolerable : HashringMeta → Type 0
  IsTolerable v =
      (to_nat replication_factor ≤ length v.config.endpoints)
      × (to_nat v.desired_replicas ≤ length v.config.endpoints + 1)

  -- Enough endpoints to replicate, and no desired replica missing.
  abbrev pub IsComplete : HashringMeta → Type 0
  IsComplete v =
      (to_nat replication_factor ≤ length v.config.endpoints)
      × (to_nat v.desired_replicas ≤ length v.config.endpoints)

  pub tolerates_iff : (v : HashringMeta) → (tolerates replication_factor v ≡ true) ↔ IsTolerable v
  unfolding tolerates
  tolerates_iff v =
      let n = length v.config.endpoints in
      (
        (λ h.
            let (p, q) = &&-true _ _ h in
            (at_least→le n replication_factor p, at_least-pred→le n v.desired_replicas q)),
        (λ (p, q).
            rw (le→at_least n replication_factor p, le→at_least-pred n v.desired_replicas q) refl),
      )

  pub complete_iff : (v : HashringMeta) → (complete replication_factor v ≡ true) ↔ IsComplete v
  unfolding complete
  complete_iff v =
      let n = length v.config.endpoints in
      (
        (λ h.
            let (p, q) = &&-true _ _ h in
            (at_least→le n replication_factor p, at_least→le n v.desired_replicas q)),
        (λ (p, q).
            rw (le→at_least n replication_factor p, le→at_least n v.desired_replicas q) refl),
      )

-- The observed hashring, cut to the desired number of endpoints.
abbrev pub cut_to_desired : String → HashringMeta → HashringConfig
cut_to_desired k v = record (meta_to_hashring k v) {
  endpoints = take (to_nat v.desired_replicas) v.config.endpoints;
}

pub trim_to-take {ℓ} : {A : Type ℓ} (s : List A) (z : ℤ) → trim_to s z ≡ take (to_nat z) s
unfolding trim_to
trim_to-take s (pos n) = elim (Bool-cases (ltb (length s) n)) [
  | inl e ↦ rw e (sym (take_all n s (ground arith)))
  | inr e ↦ rw e refl
]
trim_to-take s (negsuc n) = ground arith

trimmed-cut_to_desired :
    ◌≡◌ {A = String → HashringMeta → HashringConfig}
      (λ k v. meta_to_hashring k (trimmed v))
      cut_to_desired
unfolding trimmed meta_to_hashring
trimmed-cut_to_desired = fun_ext λ k. fun_ext λ v. rw trim_to-take

module _ (previous : Hashrings) (fetched : HashringState) (replication_factor : ℤ)
    (hr : HashringConfig) (in_use : is_empty_hashring previous ≡ false) where
  -- Once hashrings are in use, the dynamic policy puts exactly these into the new configuration:
  -- for each hashring of the observed state that has enough endpoints to replicate and misses at
  -- most one of its desired replicas, the observed one; for every other of them, each hashring of
  -- the previous configuration that has its name, unchanged.
  pub mem-dynamic_merge :
      Memᴰ hr (dynamic_merge previous fetched replication_factor)
      ↔ Source (IsTolerable replication_factor) meta_to_hashring previous fetched hr
  unfolding dynamic_merge dynamic_entry choose
  mem-dynamic_merge = rw in_use (
    choose-Source (tolerates replication_factor) (tolerates_iff replication_factor) meta_to_hashring
        previous fetched,
    source_choose (tolerates replication_factor) (tolerates_iff replication_factor) meta_to_hashring
        previous fetched,
  )

  -- Once hashrings are in use, the static policy puts exactly these into the new configuration:
  -- for each hashring of the observed state that has enough endpoints to replicate and misses
  -- none of its desired replicas, the observed one cut to the desired number of endpoints; for
  -- every other of them, each hashring of the previous configuration that has its name, unchanged.
  pub mem-static_merge :
      Memᴰ hr (static_merge previous fetched replication_factor)
      ↔ Source (IsComplete replication_factor) cut_to_desired previous fetched hr
  unfolding static_merge static_entry choose
  mem-static_merge =
      let fresh = λ (k : String) (v : HashringMeta). meta_to_hashring k (trimmed v) in
      subst
        (λ (f : String → HashringMeta → HashringConfig).
          Memᴰ hr (static_merge previous fetched replication_factor)
          ↔ Source (IsComplete replication_factor) f previous fetched hr)
        trimmed-cut_to_desired
        (rw in_use (
          choose-Source (complete replication_factor) (complete_iff replication_factor) fresh
              previous fetched,
          source_choose (complete replication_factor) (complete_iff replication_factor) fresh
              previous fetched,
        ))
