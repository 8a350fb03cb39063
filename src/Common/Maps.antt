-- ===== src/Common/Maps.antt =====
-- Go's `map[string]V` as an association list, in the order in which `range` walks it. A key
-- stands once; a test that a map is `nil` is modelled where the code makes it, by an `Option`.
use Prim.Native.String.{String}
use mathlib.Core.Path.{◌≡◌, refl, ap, ap₂, ◌∙◌, sym}
use mathlib.Core.Logic.{◌≢◌, inl, inr}
use mathlib.Core.Option.{Option, none, some}
use mathlib.Core.Option
use mathlib.Core.List.{List, [], ◌∷◌, map, Memᴰ}
use mathlib.Core.List.Memᴰ
use native.Mathlib.Omega.{arith}
use text.Mathlib.Text.{◌==◌}
use text.Mathlib.TextEquality.{eq_iff}
use thanos_operator.Common.Tests.{if◌then◌else◌, Bool-cases, ==-eq}
use thanos_operator.Common.Preds.{All, Unique, All-mem}

abbrev pub GoMap : Type 0 → Type 0
GoMap V = List (String × V)

-- `map[string]string`
abbrev pub Labels : Type 0
Labels = GoMap String

module _ {V : Type 0} where
  -- `v, ok := entries[key]`
  unfoldable pub lookup : String → GoMap V → Option V
  lookup key [] = none
  lookup key ((name, value) ∷ entries) = if name == key then some value else lookup key entries

  -- `entries[key] = value`
  unfoldable pub insert : String → V → GoMap V → GoMap V
  insert key value [] = (key, value) ∷ []
  insert key value ((name, old) ∷ entries) =
      if name == key then (name, value) ∷ entries else (name, old) ∷ insert key value entries

  -- `delete(entries, key)`
  unfoldable pub delete : String → GoMap V → GoMap V
  delete key [] = []
  delete key ((name, value) ∷ entries) =
      if name == key then delete key entries else (name, value) ∷ delete key entries

  -- `maps.Copy(dst, src)`
  unfoldable pub copy : GoMap V → GoMap V → GoMap V
  unfolding insert
  copy dst [] = dst
  copy dst ((k, v) ∷ src) = copy (insert k v dst) src

  abbrev pub keys : GoMap V → List String
  keys m = map (λ e. e.0) m

  abbrev pub HasUniqueKeys : GoMap V → Type 0
  HasUniqueKeys m = Unique (keys m)

  pub lookup-insert :
      (written key : String) (value : V) (entries : GoMap V)
      → lookup key (insert written value entries)
        ≡ (if written == key then some value else lookup key entries)
  unfolding lookup insert
  lookup-insert written key value [] = refl
  lookup-insert written key value ((name, old) ∷ entries) = ground (
    arith,
    eq_iff written key,
    eq_iff name written,
    eq_iff name key,
    lookup-insert written key value entries,
  )

  pub lookup-delete :
      (k j : String) (m : GoMap V) → lookup j (delete k m) ≡ (if k == j then none else lookup j m)
  unfolding lookup delete
  lookup-delete k j [] = ground arith
  lookup-delete k j ((i, w) ∷ m) =
      ground (arith, eq_iff k j, eq_iff i k, eq_iff i j, lookup-delete k j m)

  -- A map that has the key of every entry of `src` once: its entries win.
  pub lookup-absent : (k : String) (m : GoMap V) → All (λ j. k ≢ j) (keys m) → lookup k m ≡ none
  unfolding lookup
  lookup-absent k [] h = refl
  lookup-absent k ((j, v) ∷ m) h = ground (arith, eq_iff j k, lookup-absent k m h.1)

  -- The first answer that there is.
  abbrev pub or_else : Option V → Option V → Option V
  or_else (some v) o = some v
  or_else none o = o

  pub lookup-copy :
      (k : String) (dst src : GoMap V)
      → HasUniqueKeys src
      → lookup k (copy dst src) ≡ or_else (lookup k src) (lookup k dst)
  unfolding lookup copy
  lookup-copy k dst [] u = refl
  lookup-copy k dst ((j, v) ∷ src) u = elim (Bool-cases (j == k)) [
    | inl e ↦
        let same : j ≡ k = ==-eq j k e in
        let gone : lookup k src ≡ none = lookup-absent k src (rw same at u.0) in
        lookup-copy k (insert j v dst) src u.1 ∙ rw (gone, e) (lookup-insert j k v dst ∙ rw e)
    | inr e ↦
        lookup-copy k (insert j v dst) src u.1
        ∙ rw e (ap (or_else (lookup k src)) (lookup-insert j k v dst ∙ rw e))
  ]

  keys-mem : (k : String) (v : V) (m : GoMap V) → Memᴰ (k, v) m → Memᴰ k (keys m)
  keys-mem k v m i = Memᴰ.map (λ (e : String × V). e.0) i

  -- In a map with unique keys an entry is what its key looks up, and the other way round.
  pub lookup-mem :
      (k : String) (v : V) (m : GoMap V) → HasUniqueKeys m → Memᴰ (k, v) m → lookup k m ≡ some v
  unfolding lookup
  lookup-mem k v [] u i = absurd (Memᴰ.not-nil i)
  lookup-mem k v ((j, w) ∷ m) u (Memᴰ.head e) =
      let key : j ≡ k = sym (ap (λ (p : String × V). p.0) e) in
      let val : w ≡ v = sym (ap (λ (p : String × V). p.1) e) in ground (arith, eq_iff j k)
  lookup-mem k v ((j, w) ∷ m) u (Memᴰ.tail i) =
      let other : j ≢ k = All-mem (λ y. j ≢ y) (keys m) u.0 (keys-mem k v m i) in
      ground (arith, eq_iff j k, lookup-mem k v m u.1 i)

  pub mem-lookup : (k : String) (v : V) (m : GoMap V) → lookup k m ≡ some v → Memᴰ (k, v) m
  unfolding lookup
  mem-lookup k v [] h = cc
  mem-lookup k v ((j, w) ∷ m) h = elim (Bool-cases (j == k)) [
    | inl e ↦
        let same : w ≡ v = ground arith in
        Memᴰ.head (ap₂ (λ (a : String) (b : V). (a, b)) (sym (==-eq j k e)) (sym same))
    | inr e ↦ Memᴰ.tail (mem-lookup k v m (rw (e, lookup) at h))
  ]

  keys-insert-All :
      (P : String → Type 0) (k : String) (v : V) (m : GoMap V)
      → P k
      → All P (keys m)
      → All P (keys (insert k v m))
  unfolding insert
  keys-insert-All P k v [] h a = (h, tt)
  keys-insert-All P k v ((j, w) ∷ m) h a = elim (Bool-cases (j == k)) [
    | inl e ↦ rw (e, insert) a
    | inr e ↦ rw (e, insert) (a.0, keys-insert-All P k v m h a.1)
  ]

  -- A write keeps the keys unique.
  pub insert-HasUniqueKeys :
      (k : String) (v : V) (m : GoMap V) → HasUniqueKeys m → HasUniqueKeys (insert k v m)
  unfolding insert
  insert-HasUniqueKeys k v [] u = (tt, tt)
  insert-HasUniqueKeys k v ((j, w) ∷ m) u = elim (Bool-cases (j == k)) [
    | inl e ↦ rw (e, insert) u
    | inr e ↦
        rw (e, insert)
          (
            keys-insert-All (λ y. j ≢ y) k v m (λ same. cc ((eq_iff j k).1 same)) u.0,
            insert-HasUniqueKeys k v m u.1,
          )
  ]

  pub copy-HasUniqueKeys : (dst src : GoMap V) → HasUniqueKeys dst → HasUniqueKeys (copy dst src)
  unfolding copy
  copy-HasUniqueKeys dst [] u = u
  copy-HasUniqueKeys dst ((k, v) ∷ src) u =
      copy-HasUniqueKeys (insert k v dst) src (insert-HasUniqueKeys k v dst u)

-- `m[k]` in a map of strings: the empty string where the key is missing.
abbrev pub index : String → Labels → String
index k m = Option.get_or (lookup k m) ""
