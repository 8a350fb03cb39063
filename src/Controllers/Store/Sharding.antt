-- ===== src/Controllers/Store/Sharding.antt =====
-- The shards of a store.
use thanos_operator.Common.{
  ℕ, zero, suc, ◌+◌, ◌≤◌, ◌<◌, String, List, [], ◌∷◌, Bool, true, ◌||◌, eq_refl, nat_eq,
  if◌then◌else◌, ◌≡◌, refl, ap, ◌∙◌, inl, inr, Bool-cases, arith, Option, none, some, Labels, index,
  insert, lookup-insert, All, false,
}
use thanos_operator.Common.Opt.{◌>>=◌, some-eq}
use thanos_operator.Controllers.Reconciling.{Resource}
use thanos_operator.Controllers.Store.{
  RelabelConfig, StoreSpec, StoreOptions, store_options, shard_relabel_configs, shards_from,
  spec_to_options,
}
use thanos_operator.Manifests.Names.{Naming}

-- How many elements pass a test.
abbrev pub count {ℓ} : {A : Type ℓ} → (A → Bool) → List A → ℕ
count p [] = 0
count p (x ∷ xs) = if p x then suc (count p xs) else count p xs

-- What Thanos documents of relabelling, as far as it is used: a configuration changes labels or drops what
-- has them. The action `hashmod` writes the number of the bucket of the source label's value, among as many
-- as the modulus, to the target label; the action `keep` drops all but those of which the source label's
-- value matches the regular expression, and a numeral matches only itself.
pub record Relabeling (naming : Naming) : Type 0 where
  pub process : RelabelConfig → Labels → Option Labels
  pub matches : String → String → Bool
  pub bucket : ℕ → String → ℕ
  pub bucket_bound : (n : ℕ) (value : String) → 0 < n → bucket n value < n
  pub hashmod :
      (c : RelabelConfig) (ls : Labels)
      → c.action ≡ "hashmod"
      → process c ls
        ≡ some
            (insert c.target_label (naming.decimal (bucket c.modulus (index c.source_label ls))) ls)
  pub keep :
      (c : RelabelConfig) (ls : Labels)
      → c.action ≡ "keep"
      → process c ls ≡ (if matches c.regex (index c.source_label ls) then some ls else none)
  pub matches_numeral : (i j : ℕ) → matches (naming.decimal i) (naming.decimal j) ≡ nat_eq j i

module _ {Common : Type 0} (naming : Naming) (relabeling : Relabeling naming)
    (common_to_opts : Resource StoreSpec → Common) where
  -- The configurations one after the other, on the labels of a block.
  abbrev pub process_all : List RelabelConfig → Labels → Option Labels
  process_all [] ls = some ls
  process_all (c ∷ cs) ls = relabeling.process c ls >>= process_all cs

  -- The bucket of a block's id among the shards.
  abbrev pub bucket_of : ℕ → Labels → ℕ
  bucket_of n block = relabeling.bucket n (index "__block_id" block)

  abbrev pub is_kept : Option Labels → Bool
  is_kept none = false
  is_kept (some ls) = true

  abbrev pub keeps_block : Labels → StoreOptions Common → Bool
  keeps_block block opts = is_kept (process_all opts.relabel_configs block)

  -- A hashmod whose target is the source of a keep by a numeral.
  keeps_pair :
      (h k : RelabelConfig) (i : ℕ) (block : Labels)
      → h.action ≡ "hashmod"
      → k.action ≡ "keep"
      → k.source_label ≡ h.target_label
      → k.regex ≡ naming.decimal i
      → is_kept (process_all (h ∷ k ∷ []) block)
        ≡ nat_eq (relabeling.bucket h.modulus (index h.source_label block)) i
  keeps_pair h k i block hashes keeps target numeral =
      let value : String =
        naming.decimal (relabeling.bucket h.modulus (index h.source_label block)) in
      let read : index k.source_label (insert h.target_label value block) ≡ value =
        rw (target, lookup-insert h.target_label h.target_label value block, eq_refl h.target_label)
          refl in
      let same =
        relabeling.matches_numeral i (relabeling.bucket h.modulus (index h.source_label block)) in
      rw
        (
          relabeling.hashmod h block hashes,
          relabeling.keep k (insert h.target_label value block) keeps,
          read,
          numeral,
          same,
        )
        (elim (Bool-cases (nat_eq (relabeling.bucket h.modulus (index h.source_label block)) i)) [
          | inl e ↦ rw e refl
          | inr e ↦ rw e refl
        ])

  -- A store with a shard index keeps the blocks of its bucket.
  abbrev pub KeepsItsBucket : Resource StoreSpec → Labels → StoreOptions Common → Type 0
  KeepsItsBucket store block opts =
      (j : ℕ)
      → opts.shard_index ≡ some j
      → keeps_block block opts ≡ nat_eq (bucket_of store.spec.shards block) j

  keeps_shard :
      (n i : ℕ) (block : Labels)
      → is_kept (process_all (shard_relabel_configs naming n i) block)
        ≡ nat_eq (bucket_of n block) i
  unfolding shard_relabel_configs
  keeps_shard n i block = keeps_pair _ _ i block refl refl refl refl

  count-shards_from :
      (store : Resource StoreSpec) (block : Labels) (i n : ℕ)
      → ((i ≤ bucket_of store.spec.shards block) × (bucket_of store.spec.shards block < i + n)
          → count (keeps_block block) (shards_from naming common_to_opts store i n) ≡ 1)
        × ((bucket_of store.spec.shards block < i)
            → count (keeps_block block) (shards_from naming common_to_opts store i n) ≡ 0)
  unfolding shards_from store_options
  count-shards_from store block i zero = ((λ h. absurd (omega arith)), (λ h. refl))
  count-shards_from store block i (suc n) =
      let (here, gone) = count-shards_from store block (suc i) n in
      elim (Bool-cases (nat_eq (bucket_of store.spec.shards block) i)) [
        | inl e ↦
            rw (keeps_shard store.spec.shards i block, e)
              ((λ h. ap suc (gone (ground arith))), (λ h. absurd (ground arith)))
        | inr e ↦
            rw (keeps_shard store.spec.shards i block, e)
              ((λ h. here (ground arith, omega arith)), (λ h. gone (omega arith)))
      ]

  indexed-shards_from :
      (store : Resource StoreSpec) (block : Labels) (i n : ℕ)
      → All (KeepsItsBucket store block) (shards_from naming common_to_opts store i n)
  unfolding shards_from store_options
  indexed-shards_from store block i zero = tt
  indexed-shards_from store block i (suc n) = (
    λ j e.
        let same : i ≡ j = some-eq e in
        keeps_shard store.spec.shards i block
        ∙ ap (nat_eq (bucket_of store.spec.shards block)) same,
    indexed-shards_from store block (suc i) n,
  )

  -- Every block is kept by exactly one of the stores that are made of a resource, whatever the number
  -- of its shards; and a store with a shard index keeps exactly the blocks with the ids of that bucket,
  -- among as many buckets as there are shards. Relabelling works as documented.
  pub spec_to_options-partition :
      (store : Resource StoreSpec) (block : Labels)
      → (count (keeps_block block) (spec_to_options naming common_to_opts store) ≡ 1)
        × All (KeepsItsBucket store block) (spec_to_options naming common_to_opts store)
  unfolding spec_to_options store_options
  spec_to_options-partition store block =
      elim (Bool-cases (nat_eq store.spec.shards 0 || nat_eq store.spec.shards 1)) [
        | inl e ↦ rw e (refl, ((λ j h. cc), tt))
        | inr e ↦
            let low : bucket_of store.spec.shards block < store.spec.shards =
              relabeling.bucket_bound store.spec.shards (index "__block_id" block) (ground arith) in
            rw e (
              (count-shards_from store block 0 store.spec.shards).0 (omega arith, omega arith),
              indexed-shards_from store block 0 store.spec.shards,
            )
      ]
