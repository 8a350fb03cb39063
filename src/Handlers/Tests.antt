-- ===== src/Handlers/Tests.antt =====
-- The theorems on pruning at a small cluster.
use mathlib.Core.Path.{subst}
use mathlib.Core.List.{Memᴰ}
use mathlib.Core.List.Memᴰ
use thanos_operator.Common.{
  Labels, String, Bool, true, false, not, List, [], ◌∷◌, ◌≡◌, ◌≢◌, ◌↔◌, ◌⊎◌, refl, sym, ap, ◌∙◌,
  ◌==◌, ==-eq, ◌&&◌, eq_iff, Bool-cases, inl, inr, All, contains, arith,
}
use thanos_operator.Handlers.{
  Kind, config_map, service, service_account, stateful_set, deployment, secret,
  pod_disruption_budget, service_monitor, custom_resource, Object, not_found, get_failed, items,
  Answer, ok, delete_failed, Client, ResourcePruner, new_resource_pruner, with_config_map, prune,
}
use thanos_operator.Handlers.Frame.{
  is_enabled, ListsTheKind, IsKeptByDeleting, answered, prune-frame,
}
use thanos_operator.Handlers.Exact.{IsFaithful, prune-exact}

-- A server that holds one ConfigMap, or nothing.
abbrev held : Object
held = record { kind = config_map; namespace = "ns"; name = "old"; uid = "u1"; labels = [] }

abbrev owner : Object
owner = record { kind = deployment; namespace = "ns"; name = "thanos"; uid = "u0"; labels = [] }

is_config_map : Kind → Bool
is_config_map config_map = true
is_config_map k = false

is_config_map-eq : (k : Kind) → is_config_map k ≡ true → k ≡ config_map
unfolding is_config_map
is_config_map-eq config_map h = refl
is_config_map-eq k h = cc

has_none : Labels → Bool
has_none [] = true
has_none (l ∷ labels) = false

has_none-eq : (labels : Labels) → has_none labels ≡ true → labels ≡ []
unfolding has_none
has_none-eq [] h = refl
has_none-eq (l ∷ labels) h = cc

is_held : Object → Bool
unfolding is_config_map has_none
is_held o =
    (((is_config_map o.kind && o.namespace == "ns") && o.name == "old") && o.uid == "u1")
    && has_none o.labels

is_held-eq : (o : Object) → is_held o ≡ true → o ≡ held
unfolding is_held
is_held-eq o h =
    let kind : is_config_map o.kind ≡ true = ground arith in
    let namespace : o.namespace == "ns" ≡ true = ground arith in
    let name : o.name == "old" ≡ true = ground arith in
    let uid : o.uid == "u1" ≡ true = ground arith in
    let labels : has_none o.labels ≡ true = ground arith in
    rw
      (
        is_config_map-eq o.kind kind,
        ==-eq o.namespace "ns" namespace,
        ==-eq o.name "old" name,
        ==-eq o.uid "u1" uid,
        has_none-eq o.labels labels,
      )
      refl

held-is_held : is_held held ≡ true
unfolding is_held is_config_map
held-is_held = refl

-- The state is whether the ConfigMap is there.
removal : Bool → Bool → Answer Bool
removal true true = ok false
removal b t = delete_failed b not_found

listed : Bool → Bool → List Object
listed true true = held ∷ []
listed b t = []

abbrev objects : Bool → List Object
objects true = held ∷ []
objects false = []

abbrev cluster : Client
cluster = record {
  State = Bool;
  ListOption = String;
  in_namespace = λ namespace. namespace;
  matching_labels = λ labels. "";
  is_controlled_by = λ o by. by.name == "thanos";
  get = λ s o. get_failed not_found;
  list = λ s k opts. items (listed s (is_config_map k));
  delete = λ s o. removal s (is_held o);
}

listed_lem :
    (s t : Bool) (k : Kind) (o : Object)
    → is_config_map k ≡ t
    → Memᴰ o (listed s t) ↔ (Memᴰ o (objects s) × (o.kind ≡ k) × (true ≡ true))
unfolding listed is_config_map
listed_lem true true k o e = (
  (λ m.
      (m, ap (λ (x : Object). x.kind) (Memᴰ.eq_of_singleton m) ∙ sym (is_config_map-eq k e), refl)),
  (λ p. p.0),
)
listed_lem true false k o e = (
  (λ m. absurd (Memᴰ.not-nil m)),
  (λ (m, kind, r).
      let same : config_map ≡ k =
        ap (λ (x : Object). x.kind) (sym (Memᴰ.eq_of_singleton m)) ∙ kind in
      absurd (cc (ap is_config_map same))),
)
listed_lem false t k o e = ((λ m. absurd (Memᴰ.not-nil m)), λ p. absurd (Memᴰ.not-nil p.0))

removal_lem :
    (s t : Bool) (o : Object)
    → is_held o ≡ t
    → (s' : Bool) × ((removal s t ≡ ok s') ⊎ (removal s t ≡ delete_failed s' not_found))
      × ((x : Object) → Memᴰ x (objects s') ↔ (Memᴰ x (objects s) × (x ≢ o)))
unfolding removal
removal_lem true true o e = (
  false,
  inl refl,
  λ x. (
    (λ m. absurd (Memᴰ.not-nil m)),
    λ (m, different). absurd (different (Memᴰ.eq_of_singleton m ∙ sym (is_held-eq o e))),
  ),
)
removal_lem true false o e = (
  true,
  inr refl,
  λ x. (
    (λ m. (
      m,
      λ same.
          let held_too : is_held held ≡ is_held o =
            ap is_held (sym (Memᴰ.eq_of_singleton m) ∙ same) in
          let impossible : true ≡ false = sym held-is_held ∙ held_too ∙ e in absurd (cc impossible),
    )),
    λ p. p.0,
  ),
)
removal_lem false t o e = (false, inr refl, λ x. ((λ m. absurd (Memᴰ.not-nil m)), λ p. p.0))

abbrev faithful_cluster : IsFaithful cluster
faithful_cluster = record {
  objects = objects;
  selects = λ opts o. true;
  lists =
      λ s k opts. (listed s (is_config_map k), refl, λ o. listed_lem s (is_config_map k) k o refl);
  deletes = λ s o. removal_lem s (is_held o) o refl;
}

abbrev pruner : ResourcePruner
pruner = with_config_map new_resource_pruner

prune-exact_example :
    (Memᴰ held (objects (prune cluster pruner ("new" ∷ []) [] true).state) ↔ (
      Memᴰ held (objects true)
      × ¬ (
          (not (contains ("new" ∷ []) held.name) ≡ true)
          × (true ≡ true)
          × (is_enabled pruner held.kind ≡ true))))
    × ((prune cluster pruner ("new" ∷ []) [] true).err_count ≡ 0)
prune-exact_example = prune-exact cluster faithful_cluster pruner ("new" ∷ []) [] true held

items-eq : {l m : List Object} → items l ≡ items m → l ≡ m
items-eq e = cc

listed-kind :
    (s t : Bool) (k : Kind) → is_config_map k ≡ t → All (λ (o : Object). o.kind ≡ k) (listed s t)
unfolding listed
listed-kind true true k e = (sym (is_config_map-eq k e), tt)
listed-kind true false k e = tt
listed-kind false t k e = tt

cluster-ListsTheKind : ListsTheKind cluster
cluster-ListsTheKind s k opts objs e =
    subst (All (λ (o : Object). o.kind ≡ k)) (items-eq e) (listed-kind s (is_config_map k) k refl)

-- The server still holds the ConfigMap.
abbrev IsThere : Bool → Type 0
IsThere s = s ≡ true

-- Pruning that keeps the name "old" does not delete the ConfigMap.
removal_keeps : (s t : Bool) → t ≡ false → s ≡ true → answered (removal s t) ≡ true
unfolding removal answered
removal_keeps true true e there = cc
removal_keeps true false e there = refl
removal_keeps false t e there = cc

doomed-is_held : (o : Object) → not (contains ("old" ∷ []) o.name) ≡ true → is_held o ≡ false
unfolding is_held contains
doomed-is_held o doomed = elim (Bool-cases (o.name == "old")) [
  | inl e ↦ ground (arith, eq_iff "old" o.name, ==-eq o.name "old" e, doomed)
  | inr e ↦ ground (arith, e)
]

kept_by_name : IsKeptByDeleting cluster pruner (λ obj. not (contains ("old" ∷ []) obj.name)) IsThere
kept_by_name s o on doomed there = removal_keeps s (is_held o) (doomed-is_held o doomed) there

prune-frame_example : IsThere (prune cluster pruner ("old" ∷ []) [] true).state
prune-frame_example =
    prune-frame cluster pruner ("old" ∷ []) [] IsThere true cluster-ListsTheKind kept_by_name refl

-- A pruner of nothing deletes nothing.
nothing_enabled : (k : Kind) → is_enabled new_resource_pruner k ≡ false
unfolding is_enabled
nothing_enabled service_account = refl
nothing_enabled service = refl
nothing_enabled stateful_set = refl
nothing_enabled deployment = refl
nothing_enabled config_map = refl
nothing_enabled secret = refl
nothing_enabled pod_disruption_budget = refl
nothing_enabled service_monitor = refl
nothing_enabled custom_resource = refl

kept_by_none :
    IsKeptByDeleting cluster new_resource_pruner (λ obj. cluster.is_controlled_by obj owner) IsThere
kept_by_none s o on doomed there =
    let impossible : false ≡ true = sym (nothing_enabled o.kind) ∙ on in absurd (cc impossible)
