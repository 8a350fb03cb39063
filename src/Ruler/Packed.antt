-- ===== src/Ruler/Packed.antt =====
-- What the packing of rule files gives.
use Prim.Native.String.{len}
use Prim.Native.Nat.{◌*◌}
use native.Mathlib.Nat.{suc-mul}
use mathlib.Core.List.{Memᴰ, append_assoc, append-nil}
use thanos_operator.Common.{
  ℕ, suc, ◌+◌, ◌≤◌, ◌<◌, String, List, [], ◌∷◌, ◌++◌, map, length, Labels, keys, index, some,
  insert, lookup, All, All-append, Unique, sort_by, str_lt, ltb, ◌≡◌, ◌≢◌, ◌⊎◌, refl, sym, ap, ◌∙◌,
  inl, inr, Bool-cases, arith, ==-ne, collect,
}
use thanos_operator.Ruler.Packing.{
  Packing, config_maps, file_too_large, bucket_size, pack_content, pack_files, no_bucket, packed,
  make_checked,
}

-- A name that is not in a bucket is written at its end.
insert-new :
    (name content : String) (bucket : Labels)
    → All (λ k. name ≢ k) (keys bucket)
    → insert name content bucket ≡ bucket ++ (name, content) ∷ []
unfolding insert
insert-new name content [] fresh = refl
insert-new name content ((k, v) ∷ bucket) fresh =
    rw (==-ne k name (λ same. fresh.0 (sym same)))
      (ap (λ rest. (k, v) ∷ rest) (insert-new name content bucket fresh.1))

bucket_size-append :
    (name content : String) (bucket : Labels)
    → bucket_size (bucket ++ (name, content) ∷ []) ≡ bucket_size bucket + len content
unfolding bucket_size
bucket_size-append name content [] = omega arith
bucket_size-append name content ((k, v) ∷ bucket) =
    omega (arith, bucket_size-append name content bucket)

-- The entries of all buckets, in their order.
abbrev pub entries_of : List Labels → Labels
entries_of buckets = collect (λ b. b) buckets

entries_of-append : (xs ys : List Labels) → entries_of (xs ++ ys) ≡ entries_of xs ++ entries_of ys
unfolding collect
entries_of-append [] ys = refl
entries_of-append (b ∷ xs) ys =
    ap (λ rest. b ++ rest) (entries_of-append xs ys)
    ∙ sym (append_assoc b (entries_of xs) (entries_of ys))

-- The total of the lengths of the contents.
abbrev pub total_size : List Labels → ℕ
total_size [] = 0
total_size (b ∷ bs) = bucket_size b + total_size bs

module _ (max : ℕ) where
  unfoldable pub flat : Packing → Labels
  flat p = entries_of p.closed ++ p.current

  abbrev pub IsNew : Packing → String → Type 0
  IsNew p name = All (λ k. name ≢ k) (keys p.current)

  pub flat-packed : (p : Packing) → entries_of (packed max p) ≡ flat p
  unfolding packed flat collect
  flat-packed p =
      entries_of-append p.closed (p.current ∷ [])
      ∙ ap (λ last. entries_of p.closed ++ last) (append-nil p.current)

  -- A bucket is closed, or the file goes to the end of the current one.
  pack_content-cases :
      (name content : String) (p : Packing)
      → IsNew p name
      → ((suc max ≤ bucket_size p.current + len content)
          × (pack_content max name content p
              ≡ record { closed = p.closed ++ p.current ∷ []; current = (name, content) ∷ [] }))
        ⊎ ((bucket_size p.current + len content ≤ max)
            × (pack_content max name content p
                ≡ record { closed = p.closed; current = p.current ++ (name, content) ∷ [] }))
  unfolding pack_content insert
  pack_content-cases name content p new =
      elim (Bool-cases (ltb max (bucket_size p.current + len content))) [
        | inl e ↦ inl (ground arith, rw e refl)
        | inr e ↦ inr (ground arith, rw (e, insert-new name content p.current new) refl)
      ]

pub total_size-append :
    (bs : List Labels) (b : Labels) → total_size (bs ++ b ∷ []) ≡ total_size bs + bucket_size b
total_size-append [] b = omega arith
total_size-append (c ∷ bs) b = omega (arith, total_size-append bs b)

pub length-append : (bs : List Labels) (b : Labels) → length (bs ++ b ∷ []) ≡ suc (length bs)
length-append [] b = refl
length-append (c ∷ bs) b = ap suc (length-append bs b)

keys-append_new :
    (other name content : String) (b : Labels)
    → other ≢ name
    → All (λ k. other ≢ k) (keys b)
    → All (λ k. other ≢ k) (keys (b ++ (name, content) ∷ []))
keys-append_new other name content [] different new = (different, tt)
keys-append_new other name content ((k, v) ∷ b) different new =
    (new.0, keys-append_new other name content b different new.1)

module _ (max : ℕ) where
  abbrev pub Fits : Labels → Type 0
  Fits b = bucket_size b ≤ max

  -- The buckets so far fit, and they are not many more than the contents need.
  abbrev pub IsTight : Packing → Type 0
  IsTight p =
      All Fits p.closed
      × Fits p.current
      × (length p.closed * suc max + bucket_size p.current
          ≤ 2 * (total_size p.closed + bucket_size p.current))

  one_file : (name content : String) → bucket_size ((name, content) ∷ []) ≡ len content
  unfolding bucket_size
  one_file name content = omega arith

  pack_content-IsTight :
      (name content : String) (p : Packing)
      → IsNew max p name
      → len content ≤ max
      → IsTight p
      → IsTight (pack_content max name content p)
  pack_content-IsTight name content p new small (closed, current, few) =
      elim (pack_content-cases max name content p new) [
        | inl (full, e) ↦ rw e (
          All-append Fits p.closed (p.current ∷ []) closed (current, tt),
          rw (one_file name content) small,
          rw
              (
                one_file name content,
                length-append p.closed p.current,
                total_size-append p.closed p.current,
                suc-mul (length p.closed) (suc max),
              )
              (omega arith),
        )
        | inr (room, e) ↦ rw e (
          closed,
          rw (bucket_size-append name content p.current) room,
          rw (bucket_size-append name content p.current) (omega arith),
        )
      ]

  pack_content-IsNew :
      (other name content : String) (p : Packing)
      → IsNew max p name
      → other ≢ name
      → IsNew max p other
      → IsNew max (pack_content max name content p) other
  pack_content-IsNew other name content p new different fresh =
      elim (pack_content-cases max name content p new) [
        | inl (full, e) ↦ rw e (different, tt)
        | inr (room, e) ↦ rw e (keys-append_new other name content p.current different fresh)
      ]

  flat-pack_content :
      (name content : String) (p : Packing)
      → IsNew max p name
      → flat max (pack_content max name content p) ≡ flat max p ++ (name, content) ∷ []
  unfolding flat collect packed
  flat-pack_content name content p new = elim (pack_content-cases max name content p new) [
    | inl (full, e) ↦ rw e (ap (λ front. front ++ (name, content) ∷ []) (flat-packed max p))
    | inr (room, e) ↦
        rw e (sym (append_assoc (entries_of p.closed) p.current ((name, content) ∷ [])))
  ]

module _ (max : ℕ) (files : Labels) where
  abbrev pub entry : String → String × String
  entry name = (name, index name files)

  abbrev pub AreNew : List String → Packing → Type 0
  AreNew names p = All (IsNew max p) names

  AreNew-pack_content :
      (name content : String) (names : List String) (p : Packing)
      → IsNew max p name
      → All (λ k. name ≢ k) names
      → AreNew names p
      → AreNew names (pack_content max name content p)
  AreNew-pack_content name content [] p new different fresh = tt
  AreNew-pack_content name content (other ∷ names) p new different fresh = (
    pack_content-IsNew max other name content p new (λ same. different.0 (sym same)) fresh.0,
    AreNew-pack_content name content names p new different.1 fresh.1,
  )

  pub flat-pack_files :
      (names : List String) (p : Packing)
      → Unique names
      → AreNew names p
      → flat max (pack_files max files names p) ≡ flat max p ++ map entry names
  unfolding pack_files
  flat-pack_files [] p u new = sym (append-nil (flat max p))
  flat-pack_files (name ∷ names) p u new =
      flat-pack_files names (pack_content max name (index name files) p) u.1
        (AreNew-pack_content name (index name files) names p new.0 u.0 new.1)
      ∙ ap (λ front. front ++ map entry names)
          (flat-pack_content max name (index name files) p new.0)
      ∙ append_assoc (flat max p) (entry name ∷ []) (map entry names)

  abbrev pub IsSmall : String × String → Type 0
  IsSmall (name, content) = len content ≤ max

  pub pack_files-IsTight :
      (names : List String) (p : Packing)
      → Unique names
      → AreNew names p
      → All (λ name. IsSmall (entry name)) names
      → IsTight max p
      → IsTight max (pack_files max files names p)
  unfolding pack_files
  pack_files-IsTight [] p u new small tight = tight
  pack_files-IsTight (name ∷ names) p u new small tight =
      pack_files-IsTight names (pack_content max name (index name files) p) u.1
        (AreNew-pack_content name (index name files) names p new.0 u.0 new.1) small.1
        (pack_content-IsTight max name (index name files) p new.0 small.0 tight)

pub map-entry :
    (max : ℕ) (files part : Labels)
    → All (λ (e : String × String). lookup e.0 files ≡ some e.1) part
    → map (entry max files) (keys part) ≡ part
map-entry max files [] h = refl
map-entry max files ((k, v) ∷ part) (e, h) = rw (e, map-entry max files part h) refl

pub nothing-IsTight : (max : ℕ) → IsTight max (no_bucket max)
unfolding bucket_size
nothing-IsTight max = (tt, omega arith, omega arith)

pub All-IsNew : (max : ℕ) (names : List String) → All (IsNew max (no_bucket max)) names
All-IsNew max [] = tt
All-IsNew max (name ∷ names) = (tt, All-IsNew max names)

-- What the first loop decides: the files are all small, or one is not.
pub make_checked-cases :
    (max : ℕ) (files rest : Labels)
    → (All (IsSmall max files) rest
        × (make_checked max files rest
            ≡ config_maps
                (packed max (pack_files max files (sort_by str_lt (keys files)) (no_bucket max)))))
      ⊎ ((name content : String) × Memᴰ (name, content) rest
          × (max < len content)
          × (make_checked max files rest ≡ file_too_large name))
unfolding make_checked
make_checked-cases max files [] = inl (tt, refl)
make_checked-cases max files ((name, content) ∷ rest) = elim (Bool-cases (ltb max (len content))) [
  | inl e ↦ inr (name, content, Memᴰ.head refl, ground arith, rw e refl)
  | inr e ↦ elim (make_checked-cases max files rest) [
    | inl (small, made) ↦ inl ((ground arith, small), rw e made)
    | inr (n, c, m, large, made) ↦ inr (n, c, Memᴰ.tail m, large, rw e made)
  ]
]
