-- ===== src/Ruler/ConfigMaps.antt =====
-- The ConfigMaps that `MakeRulesConfigMaps` makes.
use Prim.Native.String.{len}
use Prim.Native.Nat.{◌*◌}
use mathlib.Core.List.{Permᴰ, Memᴰ}
use mathlib.Core.List.Permᴰ
use native.Mathlib.Nat.{suc-mul}
use mathlib.Core.Path.{subst}
use thanos_operator.Common.{
  ℕ, suc, ◌+◌, ◌≤◌, ◌<◌, String, List, [], ◌∷◌, map, length, Labels, keys, some, collect, lookup,
  All, All-append, All-mem, All-perm, All-of_mem, Unique, Unique-perm, HasUniqueKeys, sort_by,
  sort_by-perm, str_lt, ◌≡◌, ◌↔◌, ap, ◌∙◌, inl, inr, arith, lookup-mem,
}
use thanos_operator.Ruler.Packing.{
  Packing, config_maps, file_too_large, pack_files, no_bucket, packed, make_rules_config_maps,
}
use thanos_operator.Ruler.Packed.{
  entries_of, total_size, Fits, flat, flat-packed, flat-pack_files, pack_files-IsTight, map-entry,
  nothing-IsTight, All-IsNew, make_checked-cases, total_size-append, length-append, IsTight, entry,
  IsSmall,
}

-- The packing of small files.
abbrev final : ℕ → Labels → Packing
final max files = pack_files max files (sort_by str_lt (keys files)) (no_bucket max)

looked_up :
    (files : Labels)
    → HasUniqueKeys files
    → All (λ (e : String × String). lookup e.0 files ≡ some e.1) files
looked_up files u =
    All-of_mem (λ (e : String × String). lookup e.0 files ≡ some e.1) files
      (λ e m. lookup-mem e.0 e.1 files u m)

all_entries :
    (max : ℕ) (files : Labels) → HasUniqueKeys files → map (entry max files) (keys files) ≡ files
all_entries max files u = map-entry max files files (looked_up files u)

IsSmall-names :
    (max : ℕ) (files part : Labels)
    → All (λ (e : String × String). lookup e.0 files ≡ some e.1) part
    → All (IsSmall max files) part
    → All (λ name. IsSmall max files (entry max files name)) (keys part)
IsSmall-names max files [] found small = tt
IsSmall-names max files ((k, v) ∷ part) (e, found) small =
    (rw e small.0, IsSmall-names max files part found small.1)

sorted-Unique : (files : Labels) → HasUniqueKeys files → Unique (sort_by str_lt (keys files))
sorted-Unique files u = Unique-perm (Permᴰ.symm (sort_by-perm str_lt (keys files))) u

made-final :
    (max : ℕ) (files : Labels) (maps : List Labels)
    → make_rules_config_maps max files ≡ config_maps maps
    → All (IsSmall max files) files × (maps ≡ packed max (final max files))
unfolding make_rules_config_maps
made-final max files maps h = elim (make_checked-cases max files files) [
  | inl (small, made) ↦ (small, cc)
  | inr (n, c, m, large, made) ↦ cc
]

-- The rule files of a map are refused exactly if one of them is larger than a ConfigMap may be.
pub make_rules_config_maps-refused :
    (max : ℕ) (files : Labels)
    → ((name : String) × (make_rules_config_maps max files ≡ file_too_large name))
      ↔ ((name content : String) × Memᴰ (name, content) files × (max < len content))
unfolding make_rules_config_maps
make_rules_config_maps-refused max files = elim (make_checked-cases max files files) [
  | inl (small, made) ↦ (
    (λ (name, e). cc),
    (λ (name, content, m, large).
        absurd (ground (arith, All-mem (IsSmall max files) files small m))),
  )
  | inr (n, c, m, large, made) ↦ ((λ h. (n, c, m, large)), (λ h. (n, made)))
]

-- Every rule file of a map with unique keys is in exactly one of the ConfigMaps, with its content,
-- and nothing else is.
pub make_rules_config_maps-perm :
    (max : ℕ) (files : Labels) (maps : List Labels)
    → HasUniqueKeys files
    → make_rules_config_maps max files ≡ config_maps maps
    → Permᴰ (entries_of maps) files
unfolding flat collect
make_rules_config_maps-perm max files maps u h =
    let (small, made) = made-final max files maps h in
    let names : List String = sort_by str_lt (keys files) in
    let packs : entries_of maps ≡ map (entry max files) names =
      ap entries_of made
      ∙ flat-packed max (final max files)
      ∙ flat-pack_files max files names (no_bucket max) (sorted-Unique files u)
          (All-IsNew max names) in
    rw packs (
      subst (λ l. Permᴰ (map (entry max files) names) l) (all_entries max files u)
        (Permᴰ.map (entry max files) (sort_by-perm str_lt (keys files))))

tight :
    (max : ℕ) (files : Labels)
    → HasUniqueKeys files
    → All (IsSmall max files) files
    → IsTight max (final max files)
tight max files u small =
    let names : List String = sort_by str_lt (keys files) in
    pack_files-IsTight max files names (no_bucket max) (sorted-Unique files u) (All-IsNew max names)
      (All-perm (λ name. IsSmall max files (entry max files name))
        (Permᴰ.symm (sort_by-perm str_lt (keys files)))
        (IsSmall-names max files files (looked_up files u) small))
      (nothing-IsTight max)

-- No ConfigMap that is made of a map with unique keys is larger than allowed.
pub make_rules_config_maps-Fits :
    (max : ℕ) (files : Labels) (maps : List Labels)
    → HasUniqueKeys files
    → make_rules_config_maps max files ≡ config_maps maps
    → All (Fits max) maps
unfolding packed
make_rules_config_maps-Fits max files maps u h =
    let (small, made) = made-final max files maps h in
    let (closed, current, few) = tight max files u small in
    rw made (
      All-append (Fits max) (final max files).closed ((final max files).current ∷ []) closed
        (current, tt))

-- The ConfigMaps of a map with unique keys are at most one more than twice as many as their total
-- size needs.
pub make_rules_config_maps-few :
    (max : ℕ) (files : Labels) (maps : List Labels)
    → HasUniqueKeys files
    → make_rules_config_maps max files ≡ config_maps maps
    → length maps * suc max ≤ 2 * total_size maps + suc max
unfolding packed
make_rules_config_maps-few max files maps u h =
    let (small, made) = made-final max files maps h in
    let (closed, current, few) = tight max files u small in
    rw
      (
        made,
        length-append (final max files).closed (final max files).current,
        total_size-append (final max files).closed (final max files).current,
        suc-mul (length (final max files).closed) (suc max),
      )
      (omega arith)
