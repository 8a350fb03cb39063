-- ===== src/Handlers/Applying.antt =====
-- `CreateOrUpdate` of internal/pkg/handlers/handlers.go over the mutate functions. Setting the owner
-- and `ctrl.CreateOrUpdate` are parameters; the latter is given the mutate function.
use mathlib.Core.Path.{subst}
use thanos_operator.Common.{
  ℕ, suc, String, ◌+◌, ◌≤◌, Bool, List, [], ◌∷◌, length, ◌≡◌, Option, none, some, if◌then◌else◌,
  arith, inl, inr, Bool-cases,
}
use thanos_operator.Handlers.{Object as Owner}
use thanos_operator.Manifests.Mutations.{Merge, Mutated, Object, mutate}

-- An object with its namespace; `Value` stands for what is copied whole.
pub record Named (Value : Type 0) : Type 0 where
  pub namespace : String
  pub is_namespaced : Bool
  pub object : Object Value

pub data Applied (S : Type 0) : Type 0 where
  applied : S → Applied S
  apply_failed : S → Applied S

-- The library's calls: set the owner, or nothing on an error; get the object, mutate it and create or
-- update it.
pub record Applier (State Value : Type 0) : Type 0 where
  pub merge : Merge
  pub set_controller_reference : Owner → Named Value → Option (Named Value)
  pub create_or_update :
      State → Named Value → (Object Value → Mutated (Object Value)) → Applied State

module _ {State Value : Type 0} (applier : Applier State Value) where
  pub record Applying : Type 0 where
    pub state : State
    pub err_count : ℕ

  unfoldable pub count_applied : Applied State → Applying → Applying
  count_applied (applied s) run = record run { state = s }
  count_applied (apply_failed s) run = record { state = s; err_count = suc run.err_count }

  -- The desired object is a copy that is taken after the namespace and the owner are set.
  unfoldable pub apply_owned : Named Value → Applying → Applying
  unfolding count_applied
  apply_owned obj run =
      count_applied
        (applier.create_or_update run.state obj
          (λ existing. mutate applier.merge existing obj.object))
        run

  unfoldable pub apply_referenced : Option (Named Value) → Applying → Applying
  unfolding apply_owned
  apply_referenced none run = record run { err_count = suc run.err_count }
  apply_referenced (some obj) run = apply_owned obj run

  unfoldable pub apply_one : String → Owner → Named Value → Applying → Applying
  unfolding apply_owned apply_referenced
  apply_one namespace owner obj run =
      if obj.is_namespaced
      then apply_referenced
          (applier.set_controller_reference owner (record obj { namespace = namespace })) run
      else apply_owned obj run

  unfoldable pub create_or_update : String → Owner → List (Named Value) → Applying → Applying
  unfolding apply_one
  create_or_update namespace owner [] run = run
  create_or_update namespace owner (obj ∷ objs) run =
      create_or_update namespace owner objs (apply_one namespace owner obj run)

  -- At most one more error.
  abbrev CountsOnce : Applying → Applying → Type 0
  CountsOnce before after =
      (before.err_count ≤ after.err_count) × (after.err_count ≤ suc before.err_count)

  count_applied-CountsOnce :
      (a : Applied State) (run : Applying) → CountsOnce run (count_applied a run)
  unfolding count_applied
  count_applied-CountsOnce (applied s) run = (omega arith, omega arith)
  count_applied-CountsOnce (apply_failed s) run = (omega arith, omega arith)

  apply_referenced-CountsOnce :
      (o : Option (Named Value)) (run : Applying) → CountsOnce run (apply_referenced o run)
  unfolding apply_referenced apply_owned
  apply_referenced-CountsOnce none run = (omega arith, omega arith)
  apply_referenced-CountsOnce (some obj) run =
      count_applied-CountsOnce
        (applier.create_or_update run.state obj
          (λ existing. mutate applier.merge existing obj.object))
        run

  apply_one-CountsOnce :
      (namespace : String) (owner : Owner) (obj : Named Value) (run : Applying)
      → CountsOnce run (apply_one namespace owner obj run)
  unfolding apply_one apply_owned
  apply_one-CountsOnce namespace owner obj run = elim (Bool-cases obj.is_namespaced) [
    | inl e ↦
        let same : apply_referenced
              (applier.set_controller_reference owner (record obj { namespace = namespace })) run
            ≡ apply_one namespace owner obj run =
          ground arith in
        subst (CountsOnce run) same (
          apply_referenced-CountsOnce
            (applier.set_controller_reference owner (record obj { namespace = namespace })) run)
    | inr e ↦
        let same : apply_owned obj run ≡ apply_one namespace owner obj run = ground arith in
        subst (CountsOnce run) same (
          count_applied-CountsOnce
            (applier.create_or_update run.state obj
              (λ existing. mutate applier.merge existing obj.object))
            run)
  ]

  -- The number of errors grows by at most the number of the objects and never falls.
  pub create_or_update-bound :
      (namespace : String) (owner : Owner) (objs : List (Named Value)) (run : Applying)
      → (run.err_count ≤ (create_or_update namespace owner objs run).err_count)
        × ((create_or_update namespace owner objs run).err_count ≤ run.err_count + length objs)
  unfolding create_or_update
  create_or_update-bound namespace owner [] run = (omega arith, omega arith)
  create_or_update-bound namespace owner (obj ∷ objs) run =
      let (more, once) = apply_one-CountsOnce namespace owner obj run in
      let (later, bounded) =
        create_or_update-bound namespace owner objs (apply_one namespace owner obj run) in
      (omega arith, omega arith)
