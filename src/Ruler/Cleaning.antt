-- ===== src/Ruler/Cleaning.antt =====
-- What the cleanup of a ruler deletes, and what it keeps.
use mathlib.Core.List.{Memᴰ}
use mathlib.Core.List.Memᴰ
use mathlib.Core.List.Permᴰ
use thanos_operator.Common.{
  some, refl, ◌≢◌, ◌↔◌, lookup, contains→mem, String, true, List, [], ◌∷◌, map, sort_by,
  sort_by-perm, str_lt, mem-perm, contains, mem→contains, ◌==◌, ==-eq, ◌≡◌, ◌⊎◌, sym, ◌∙◌, inl, inr,
  Bool-cases,
}
use thanos_operator.Handlers.{
  Kind, config_map, Object, ResourcePruner, Run, prune, new_resource_pruner, with_config_map,
}
use thanos_operator.Handlers.Frame.{is_enabled}
use thanos_operator.Handlers.Exact.{IsFaithful}
use thanos_operator.Controllers.{Operator}
use thanos_operator.Controllers.Cleaning.{Deletes, IsOrphan, prune-Deletes, also-Deletes}
use thanos_operator.Ruler.Building.{RulerSetup, compact_after, compact, get_names}
use thanos_operator.Ruler.Creating.{
  prom_rule_derived_config_map_label, user_config_map_source_label,
}
use thanos_operator.Ruler.Gathering.{KeySelector, RuleConfigMaps}
use thanos_operator.Ruler.Syncing.{labelled, prune_orphaned_derived_config_maps}

mem-compact_after :
    (x p : String) (xs : List String) → Memᴰ x (p ∷ xs) → Memᴰ x (p ∷ compact_after p xs)
unfolding compact_after
mem-compact_after x p [] m = m
mem-compact_after x p (y ∷ ys) m = elim (Bool-cases (p == y)) [
  | inl e ↦ elim (Memᴰ.cases_cons m) [
    | inl first ↦ Memᴰ.head first
    | inr later ↦ elim (Memᴰ.cases_cons (mem-compact_after x y ys later)) [
      | inl same ↦ Memᴰ.head (same ∙ sym (==-eq p y e))
      | inr rest ↦ rw (compact_after, e) (Memᴰ.tail rest)
    ]
  ]
  | inr e ↦ elim (Memᴰ.cases_cons m) [
    | inl first ↦ Memᴰ.head first
    | inr later ↦ rw (compact_after, e) (Memᴰ.tail (mem-compact_after x y ys later))
  ]
]

mem-compact : (x : String) (xs : List String) → Memᴰ x xs → Memᴰ x (compact xs)
unfolding compact
mem-compact x [] m = m
mem-compact x (y ∷ ys) m = mem-compact_after x y ys m

-- The ConfigMap of every gathered rule file is among the expected names.
mem-get_names :
    (rules : RuleConfigMaps) (k : KeySelector)
    → Memᴰ k rules.rule_key_selectors
    → Memᴰ k.0 (get_names rules)
unfolding get_names
mem-get_names rules k m =
    let names : List String = map (λ (j : KeySelector). j.0) rules.rule_key_selectors in
    mem-compact k.0 (sort_by str_lt names)
      (mem-perm (Permᴰ.symm (sort_by-perm str_lt names)) (Memᴰ.map (λ (j : KeySelector). j.0) m))

-- A pruner of ConfigMaps prunes nothing else.
only_config_map :
    (k : Kind) → (is_enabled (with_config_map new_resource_pruner) k ≡ true) ↔ (k ≡ config_map)
unfolding is_enabled
only_config_map config_map = ((λ h. refl), (λ h. refl))
only_config_map k = ((λ h. cc), (λ h. cc))

module _ {Value : Type 0} (operator : Operator Value)
    (setup : RulerSetup Value operator.client.State) (faithful : IsFaithful operator.client) where
  -- A list call with the options of a namespace, which is not empty, and of one label returns what is in
  -- the namespace and carries the label with its value.
  abbrev pub HonoursLabel : Type 0
  HonoursLabel =
      (ns key value : String) (x : Object)
      → ns ≢ ""
      → (faithful.selects
            (operator.client.in_namespace ns
              ∷ operator.client.matching_labels ((key, value) ∷ [])
              ∷ [])
            x
          ≡ true)
        ↔ ((x.namespace ≡ ns) × (lookup key x.labels ≡ some value))

  -- A ConfigMap of the namespace that carries the label, of whatever owner, and is not expected.
  abbrev pub IsDerived : String → List String → String → Object → Type 0
  IsDerived ns expected label x =
      (x.kind ≡ config_map)
      × (x.namespace ≡ ns)
      × (lookup label x.labels ≡ some "true")
      × ¬ Memᴰ x.name expected

  IsOrphan-IsDerived :
      HonoursLabel
      → (ns : String) (expected : List String) (label : String) (x : Object) → ns ≢ ""
      → IsOrphan operator.client faithful
          (with_config_map new_resource_pruner)
          expected
          (labelled operator setup ns label)
          x
        ↔ IsDerived ns expected label x
  IsOrphan-IsDerived honours ns expected label x given =
      let found = honours ns label "true" x given in
      let kind = only_config_map x.kind in
      (
        (λ (absent, chosen, enabled). (
          kind.0 enabled,
          (found.0 chosen).0,
          (found.0 chosen).1,
          λ m. (let listed = mem→contains expected x.name m in cc (rw listed at absent)),
        )),
        (λ (same, here, carried, unexpected). (
          (elim (Bool-cases (contains expected x.name)) [
            | inl e ↦ absurd (unexpected (contains→mem expected x.name e))
            | inr e ↦ rw e refl
          ]),
          found.1 (here, carried),
          kind.1 same,
        )),
      )

  prune_label-Deletes :
      HonoursLabel
      → (ns : String) (expected : List String) (label : String) (s : operator.client.State)
      → ns ≢ ""
      → Deletes operator.client faithful (IsDerived ns expected label) s (
          prune operator.client
            (with_config_map new_resource_pruner)
            expected
            (labelled operator setup ns label)
            s)
  prune_label-Deletes honours ns expected label s given =
      let pruner : ResourcePruner = with_config_map new_resource_pruner in
      let (which, no_error) =
        prune-Deletes operator.client faithful pruner expected (labelled operator setup ns label)
          s in
      (
        (λ x.
            let same = IsOrphan-IsDerived honours ns expected label x given in
            (
              (λ m. let (before, spared) = (which x).0 m in (before, λ d. spared (same.1 d))),
              (λ (before, spared). (which x).1 (before, λ d. spared (same.0 d))),
            )),
        no_error,
      )

  -- Against a server that answers and honours the options of a list call, the pruning of derived ConfigMaps
  -- deletes exactly the ConfigMaps of the namespace that carry either label with the value "true" and are not
  -- expected, whichever ruler owns them; and the ConfigMap of a rule file that was gathered is kept, if the
  -- names of the gathered files are among the expected ones. The namespace is not empty.
  pub prune_orphaned_derived_config_maps-Deletes :
      HonoursLabel
      → (ns : String) (expected : List String) (s : operator.client.State) → ns ≢ ""
      → Deletes operator.client faithful
          (λ x.
            IsDerived ns expected prom_rule_derived_config_map_label x
            ⊎ IsDerived ns expected user_config_map_source_label x)
          s
          (prune_orphaned_derived_config_maps operator setup ns expected s)
        × ((rules : RuleConfigMaps) (k : KeySelector) (x : Object)
            → Memᴰ k rules.rule_key_selectors
            → ((name : String) → Memᴰ name (get_names rules) → Memᴰ name expected)
            → x.name ≡ k.0
            → Memᴰ x (faithful.objects s)
            → Memᴰ x (
                faithful.objects
                  (prune_orphaned_derived_config_maps operator setup ns expected s).state))
  unfolding prune_orphaned_derived_config_maps
  prune_orphaned_derived_config_maps-Deletes honours ns expected s given =
      let first : Run operator.client =
        prune operator.client (with_config_map new_resource_pruner) expected
          (labelled operator setup ns prom_rule_derived_config_map_label) s in
      let deletes =
        also-Deletes operator.client faithful
          (IsDerived ns expected prom_rule_derived_config_map_label)
          (IsDerived ns expected user_config_map_source_label) s first
          (prune operator.client (with_config_map new_resource_pruner) expected
            (labelled operator setup ns user_config_map_source_label))
          (prune_label-Deletes honours ns expected prom_rule_derived_config_map_label s given)
          (prune_label-Deletes honours ns expected user_config_map_source_label first.state
            given) in
      (
        deletes,
        λ rules k x m included named held.
            let kept : Memᴰ x.name expected = rw named (included k.0 (mem-get_names rules k m)) in
            (deletes.0 x).1
              (held, λ d. elim d [ inl a ↦ absurd (a.3 kept) | inr b ↦ absurd (b.3 kept) ]),
      )
