-- ===== src/Controllers/Sample.antt =====
-- A server that holds one Deployment, or nothing, and honours labels; and an operator on it. For tests.
use mathlib.Core.List.{Memᴰ}
use mathlib.Core.List.Memᴰ
use thanos_operator.Common.{
  none, some, Option, String, Bool, true, false, ◌&&◌, &&-true, ◌==◌, ==-eq, eq_refl, List, [], ◌∷◌,
  Labels, lookup, ◌≡◌, ◌≢◌, ◌↔◌, ◌⊎◌, refl, sym, ap, ap₂, ◌∙◌, inl, inr, All,
}
use thanos_operator.FeatureGate.{Config}
use thanos_operator.Handlers.{
  Kind, deployment, custom_resource, Object, not_found, get_failed, items, Answer, ok,
  delete_failed, Client,
}
use thanos_operator.Handlers.Applying.{applied}
use thanos_operator.Handlers.Exact.{IsFaithful}
use thanos_operator.Controllers.{Operator}
use thanos_operator.Controllers.Reconciling.{Resource}
use thanos_operator.Controllers.Selectors.{component_label}
use thanos_operator.Manifests.Names.{Naming}

-- What a query frontend is made of.
abbrev pub held : Object
held = record {
  kind = deployment;
  namespace = "ns";
  name = "thanos-query-frontend-q";
  uid = "u1";
  labels = (component_label, "query-frontend") ∷ [];
}

pub is_deployment : Kind → Bool
is_deployment deployment = true
is_deployment k = false

is_deployment-eq : (k : Kind) → is_deployment k ≡ true → k ≡ deployment
unfolding is_deployment
is_deployment-eq deployment h = refl
is_deployment-eq k h = cc

same_labels : Labels → Labels → Bool
same_labels [] [] = true
same_labels ((k, v) ∷ l) ((j, w) ∷ m) = (k == j && v == w) && same_labels l m
same_labels l m = false

same_labels-eq : (l m : Labels) → same_labels l m ≡ true → l ≡ m
unfolding same_labels
same_labels-eq [] [] h = refl
same_labels-eq ((k, v) ∷ l) ((j, w) ∷ m) h =
    let (front, rest) = &&-true (k == j && v == w) (same_labels l m) h in
    let (key, value) = &&-true (k == j) (v == w) front in
    rw (==-eq k j key, ==-eq v w value, same_labels-eq l m rest) refl
same_labels-eq [] (y ∷ m) h = cc
same_labels-eq (x ∷ l) [] h = cc

pub is_held : Object → Bool
unfolding is_deployment same_labels
is_held o =
    (((is_deployment o.kind && o.namespace == "ns") && o.name == "thanos-query-frontend-q")
      && o.uid == "u1")
    && same_labels o.labels held.labels

is_held-eq : (o : Object) → is_held o ≡ true → o ≡ held
unfolding is_held
is_held-eq o h =
    let (most, labels) = &&-true _ (same_labels o.labels held.labels) h in
    let (more, uid) = &&-true _ (o.uid == "u1") most in
    let (two, name) = &&-true _ (o.name == "thanos-query-frontend-q") more in
    let (kind, namespace) = &&-true (is_deployment o.kind) (o.namespace == "ns") two in
    rw
      (
        is_deployment-eq o.kind kind,
        ==-eq o.namespace "ns" namespace,
        ==-eq o.name "thanos-query-frontend-q" name,
        ==-eq o.uid "u1" uid,
        same_labels-eq o.labels held.labels labels,
      )
      refl

held-is_held : is_held held ≡ true
unfolding is_held same_labels is_deployment
held-is_held = refl

-- Whether labels carry what an option asks for.
unfoldable pub carries_value : Option String → String → Bool
carries_value none v = false
carries_value (some w) v = w == v

carries_value-eq : (o : Option String) (v : String) → carries_value o v ≡ true → o ≡ some v
unfolding carries_value
carries_value-eq none v h = cc
carries_value-eq (some w) v h = ap some (==-eq w v h)

unfoldable pub carries : Labels → Labels → Bool
unfolding carries_value
carries labels [] = true
carries labels ((k, v) ∷ asked) = carries_value (lookup k labels) v && carries labels asked

carries-All :
    (labels asked : Labels)
    → carries labels asked ≡ true
    → All (λ (l : String × String). lookup l.0 labels ≡ some l.1) asked
unfolding carries
carries-All labels [] h = tt
carries-All labels ((k, v) ∷ asked) h =
    let (first, rest) = &&-true (carries_value (lookup k labels) v) (carries labels asked) h in
    (carries_value-eq (lookup k labels) v first, carries-All labels asked rest)

pub data Choice : Type 0 where
  by_namespace : String → Choice
  by_labels : Labels → Choice

abbrev pub is_chosen : Choice → Object → Bool
is_chosen (by_namespace ns) o = o.namespace == ns
is_chosen (by_labels asked) o = carries o.labels asked

unfoldable pub admits : List Choice → Object → Bool
unfolding carries
admits [] o = true
admits (c ∷ opts) o = is_chosen c o && admits opts o

pub admits-honours :
    (labels : Labels) (opts : List Choice) (x : Object)
    → Memᴰ (by_labels labels) opts
    → admits opts x ≡ true
    → All (λ (l : String × String). lookup l.0 x.labels ≡ some l.1) labels
unfolding admits
admits-honours labels [] x m h = absurd (Memᴰ.not-nil m)
admits-honours labels (c ∷ opts) x m h =
    let (first, rest) = &&-true (is_chosen c x) (admits opts x) h in
    elim (Memᴰ.cases_cons m) [
      | inl same ↦ carries-All x.labels labels (ap (λ (d : Choice). is_chosen d x) same ∙ first)
      | inr later ↦ admits-honours labels opts x later rest
    ]

pub admits-namespace :
    (ns : String) (x : Object)
    → ns ≢ ""
    → (admits (by_namespace ns ∷ []) x ≡ true) ↔ (x.namespace ≡ ns)
unfolding admits
admits-namespace ns x given = (
  (λ h. ==-eq x.namespace ns (&&-true (x.namespace == ns) true h).0),
  (λ e. rw (e, eq_refl ns) refl),
)

pub admits-labelled :
    (ns key value : String) (x : Object)
    → ns ≢ ""
    → (admits (by_namespace ns ∷ by_labels ((key, value) ∷ []) ∷ []) x ≡ true)
      ↔ ((x.namespace ≡ ns) × (lookup key x.labels ≡ some value))
unfolding admits carries carries_value
admits-labelled ns key value x given = (
  (λ h.
      let (here, chosen) = &&-true (x.namespace == ns) _ h in
      let (carried, rest) = &&-true _ true chosen in
      (==-eq x.namespace ns here, (carries-All x.labels ((key, value) ∷ []) carried).0)),
  (λ (e, carried). rw (e, carried, eq_refl ns, eq_refl value) refl),
)

-- The state is whether the Deployment is there.
pub removal : Bool → Bool → Answer Bool
removal true true = ok false
removal b t = delete_failed b not_found

pub listed : Bool → Bool → List Object
listed true true = held ∷ []
listed b t = []

abbrev pub objects : Bool → List Object
objects true = held ∷ []
objects false = []

abbrev pub cluster : Client
cluster = record {
  State = Bool;
  ListOption = Choice;
  in_namespace = λ namespace. by_namespace namespace;
  matching_labels = λ labels. by_labels labels;
  is_controlled_by = λ o by. by.name == "q";
  get = λ s o. get_failed not_found;
  list = λ s k opts. items (listed s (is_deployment k && admits opts held));
  delete = λ s o. removal s (is_held o);
}

pub listed_lem :
    (s t : Bool) (k : Kind) (opts : List Choice) (o : Object)
    → (is_deployment k && admits opts held) ≡ t
    → Memᴰ o (listed s t) ↔ (Memᴰ o (objects s) × (o.kind ≡ k) × (admits opts o ≡ true))
unfolding listed is_deployment
listed_lem true true k opts o e = (
  (λ m.
      let same : o ≡ held = Memᴰ.eq_of_singleton m in
      let (kind, chosen) = &&-true (is_deployment k) (admits opts held) e in
      (
        m,
        ap (λ (x : Object). x.kind) same ∙ sym (is_deployment-eq k kind),
        ap (admits opts) same ∙ chosen,
      )),
  (λ p. p.0),
)
listed_lem true false k opts o e = (
  (λ m. absurd (Memᴰ.not-nil m)),
  (λ (m, kind, chosen).
      let same : o ≡ held = Memᴰ.eq_of_singleton m in
      let kinds : is_deployment k ≡ true =
        ap is_deployment (sym kind) ∙ ap (λ (x : Object). is_deployment x.kind) same in
      let chosen_too : admits opts held ≡ true = ap (admits opts) (sym same) ∙ chosen in
      let impossible : false ≡ true = sym e ∙ ap₂ (◌&&◌) kinds chosen_too in
      absurd (cc impossible)),
)
listed_lem false t k opts o e = ((λ m. absurd (Memᴰ.not-nil m)), λ p. absurd (Memᴰ.not-nil p.0))

pub removal_lem :
    (s t : Bool) (o : Object)
    → is_held o ≡ t
    → (s' : Bool) × ((removal s t ≡ ok s') ⊎ (removal s t ≡ delete_failed s' not_found))
      × ((x : Object) → Memᴰ x (objects s') ↔ (Memᴰ x (objects s) × (x ≢ o)))
unfolding removal
removal_lem true true o e = (
  false,
  inl refl,
  λ x. (
    (λ m. absurd (Memᴰ.not-nil m)),
    λ (m, different). absurd (different (Memᴰ.eq_of_singleton m ∙ sym (is_held-eq o e))),
  ),
)
removal_lem true false o e = (
  true,
  inr refl,
  λ x. (
    (λ m. (
      m,
      λ same.
          let held_too : is_held held ≡ is_held o =
            ap is_held (sym (Memᴰ.eq_of_singleton m) ∙ same) in
          let impossible : true ≡ false = sym held-is_held ∙ held_too ∙ e in absurd (cc impossible),
    )),
    λ p. p.0,
  ),
)
removal_lem false t o e = (false, inr refl, λ x. ((λ m. absurd (Memᴰ.not-nil m)), λ p. p.0))

abbrev pub faithful_cluster : IsFaithful cluster
faithful_cluster = record {
  objects = objects;
  selects = admits;
  lists = λ s k opts. (
    listed s (is_deployment k && admits opts held),
    refl,
    λ o. listed_lem s (is_deployment k && admits opts held) k opts o refl,
  );
  deletes = λ s o. removal_lem s (is_held o) o refl;
}

abbrev pub naming : Naming
naming = record {
  is_dns1123_subdomain = λ name. [];
  is_valid_label_value = λ value. [];
  dns1123_label_max_length = 63;
  is_alpha_numeric = λ c. true;
  to_lower = λ s. s;
  sha256_hex = λ s. "0123456789abcdef0123456789abcdef";
  decimal = λ n. "0";
}

abbrev pub no_features : Config
no_features = record {
  service_monitor_config = none;
  prometheus_rule_config = none;
  otel_sidecar_config = none;
  kube_resource_sync_config = none;
  volume_resize_config = none;
}

abbrev pub operator : Operator String
operator = record {
  client = cluster;
  applier = record {
    merge = λ a b. some b;
    set_controller_reference = λ by obj. some obj;
    create_or_update = λ s obj mutation. applied true;
  };
  naming = naming;
  features = no_features;
}

abbrev pub u0 : String
u0 = "u0"

abbrev pub ns : String
ns = "ns"

pub ns_given : ns ≢ ""
ns_given h = cc

pub u0_given : u0 ≢ ""
u0_given h = cc

-- A resource named "q" with the given rest.
abbrev pub resource : {Spec : Type 0} → Spec → Resource Spec
resource spec = record {
  object = record { kind = custom_resource; namespace = "ns"; name = "q"; uid = u0; labels = [] };
  spec = spec;
  paused = none;
  is_deleted = false;
  status = record { conditions = []; paused = none };
}
