-- ===== src/Handlers/Exact.antt =====
-- Pruning against an API server that answers: exactly the chosen objects are gone.
use mathlib.Core.List.{Memᴰ}
use mathlib.Core.List.Memᴰ
use thanos_operator.Common.{
  String, Bool, true, false, not, List, [], ◌∷◌, ◌≡◌, ◌≢◌, ◌↔◌, ◌⊎◌, refl, sym, ap, ◌∙◌, inl, inr,
  All-mem, Bool-cases, ==-ne, contains,
}
use thanos_operator.Handlers.{
  Kind, service_account, service, stateful_set, deployment, config_map, secret,
  pod_disruption_budget, service_monitor, custom_resource, Object, not_found, items, ok,
  delete_failed, Client, is_ignored, ResourcePruner, resource_types, Run, record_answer,
  delete_resource, prune_items, prune_listed, prune_types, prune_where, prune, prune_by_owner,
}
use thanos_operator.Handlers.Frame.{is_enabled, resource_types-is_enabled}

-- A client whose server holds `objects` and answers: a list call returns the objects of the kind
-- that the options select; a delete call removes the object, or reports that there is none.
pub record IsFaithful (client : Client) : Type 1 where
  pub objects : client.State → List Object
  pub selects : List client.ListOption → Object → Bool
  pub lists :
      (s : client.State) (k : Kind) (opts : List client.ListOption)
      → (objs : List Object) × (client.list s k opts ≡ items objs)
        × ((o : Object)
            → Memᴰ o objs ↔ (Memᴰ o (objects s) × (o.kind ≡ k) × (selects opts o ≡ true)))
  pub deletes :
      (s : client.State) (o : Object)
      → (s' : client.State) × ((client.delete s o ≡ ok s')
          ⊎ (client.delete s o ≡ delete_failed s' not_found))
        × ((x : Object) → Memᴰ x (objects s') ↔ (Memᴰ x (objects s) × (x ≢ o)))

module _ (client : Client) (faithful : IsFaithful client) where
  abbrev held : Run client → List Object
  held run = faithful.objects run.state

  -- The run `after` holds what `before` held less what is doomed, and counts no further error.
  abbrev Removes : (Object → Type 0) → Run client → Run client → Type 0
  Removes Doomed before after =
      ((x : Object) → Memᴰ x (held after) ↔ (Memᴰ x (held before) × ¬ Doomed x))
      × (after.err_count ≡ before.err_count)

  delete_resource-Removes :
      (o : Object) (run : Run client) → Removes (λ x. x ≡ o) run (delete_resource client o run)
  unfolding delete_resource record_answer is_ignored
  delete_resource-Removes o run =
      let (s', answer, rest) = faithful.deletes run.state o in
      elim answer [ inl e ↦ rw e (rest, refl) | inr e ↦ rw e (rest, refl) ]

  prune_items-Removes :
      (should_delete : Object → Bool) (objs : List Object) (run : Run client)
      → Removes
          (λ x. (should_delete x ≡ true) × Memᴰ x objs)
          run
          (prune_items client should_delete objs run)
  unfolding prune_items
  prune_items-Removes should_delete [] run =
      ((λ x. ((λ m. (m, λ d. Memᴰ.not-nil d.1)), (λ m. m.0))), refl)
  prune_items-Removes should_delete (o ∷ objs) run = elim (Bool-cases (should_delete o)) [
    | inl doomed ↦
        let (one, no_error) = delete_resource-Removes o run in
        let (rest, no_errors) =
          prune_items-Removes should_delete objs (delete_resource client o run) in
        rw (prune_items, doomed)
          (
            (λ x. (
              (λ m.
                  let (before, survives) = (rest x).0 m in
                  let (there, different) = (one x).0 before in
                  (
                    there,
                    λ (d, here). elim (Memᴰ.cases_cons here) [
                      | inl same ↦ different same
                      | inr later ↦ survives (d, later)
                    ],
                  )),
              (λ (there, survives). (rest x).1 (
                (one x).1 (there, λ same. survives (rw same doomed, Memᴰ.head same)),
                λ (d, later). survives (d, Memᴰ.tail later),
              )),
            )),
            no_errors ∙ no_error,
          )
    | inr spared ↦
        let (rest, no_errors) = prune_items-Removes should_delete objs run in
        rw (prune_items, spared)
          (
            (λ x. (
              (λ m.
                  let (there, survives) = (rest x).0 m in
                  (
                    there,
                    λ (d, here). elim (Memᴰ.cases_cons here) [
                      | inl same ↦ cc (ap should_delete same)
                      | inr later ↦ survives (d, later)
                    ],
                  )),
              (λ (there, survives).
                  (rest x).1 (there, λ (d, later). survives (d, Memᴰ.tail later))),
            )),
            no_errors,
          )
  ]

  prune_kind-Removes :
      (should_delete : Object → Bool) (opts : List client.ListOption) (k : Kind) (run : Run client)
      → Removes
          (λ x. (should_delete x ≡ true) × (faithful.selects opts x ≡ true) × (x.kind ≡ k))
          run
          (prune_listed client should_delete (client.list run.state k opts) run)
  unfolding prune_listed
  prune_kind-Removes should_delete opts k run =
      let (objs, listed, which) = faithful.lists run.state k opts in
      let (removed, no_error) = prune_items-Removes should_delete objs run in
      rw (listed, prune_listed)
        (
          (λ x. (
            (λ m.
                let (there, survives) = (removed x).0 m in
                (there, λ (d, chosen, kind). survives (d, (which x).1 (there, kind, chosen)))),
            (λ (there, survives). (removed x).1 (
              there,
              λ (d, here). let (_, kind, chosen) = (which x).0 here in survives (d, chosen, kind),
            )),
          )),
          no_error,
        )

  prune_types-Removes :
      (should_delete : Object → Bool) (opts : List client.ListOption) (types : List (Bool × Kind))
      (run : Run client)
      → Removes
          (λ x.
            (should_delete x ≡ true) × (faithful.selects opts x ≡ true) × Memᴰ (true, x.kind) types)
          run
          (prune_types client should_delete opts types run)
  unfolding prune_types
  prune_types-Removes should_delete opts [] run =
      ((λ x. ((λ m. (m, λ d. Memᴰ.not-nil d.2)), (λ m. m.0))), refl)
  prune_types-Removes should_delete opts ((true, k) ∷ types) run =
      let (one, no_error) = prune_kind-Removes should_delete opts k run in
      let (rest, no_errors) =
        prune_types-Removes should_delete opts types
          (prune_listed client should_delete (client.list run.state k opts) run) in
      (
        (λ x. (
          (λ m.
              let (before, survives) = (rest x).0 m in
              let (there, spared) = (one x).0 before in
              (
                there,
                λ (d, chosen, here). elim (Memᴰ.cases_cons here) [
                  | inl same ↦ spared (d, chosen, ap (λ t. t.1) same)
                  | inr later ↦ survives (d, chosen, later)
                ],
              )),
          (λ (there, survives). (rest x).1 (
            (one x).1 (
              there,
              λ (d, chosen, kind). survives (d, chosen, Memᴰ.head (ap (λ j. (true, j)) kind)),
            ),
            λ (d, chosen, later). survives (d, chosen, Memᴰ.tail later),
          )),
        )),
        no_errors ∙ no_error,
      )
  prune_types-Removes should_delete opts ((false, k) ∷ types) run =
      let (rest, no_errors) = prune_types-Removes should_delete opts types run in
      (
        (λ x. (
          (λ m.
              let (there, survives) = (rest x).0 m in
              (
                there,
                λ (d, chosen, here). elim (Memᴰ.cases_cons here) [
                  | inl same ↦ cc (ap (λ t. t.0) same)
                  | inr later ↦ survives (d, chosen, later)
                ],
              )),
          (λ (there, survives).
              (rest x).1 (there, λ (d, chosen, later). survives (d, chosen, Memᴰ.tail later))),
        )),
        no_errors,
      )

enabled-listed :
    (r : ResourcePruner) (k : Kind) → is_enabled r k ≡ true → Memᴰ (true, k) (resource_types r)
unfolding is_enabled
enabled-listed r service_account h = Memᴰ.head (ap (λ b. (b, service_account)) (sym h))
enabled-listed r service h = Memᴰ.tail (Memᴰ.head (ap (λ b. (b, service)) (sym h)))
enabled-listed r stateful_set h =
    Memᴰ.tail (Memᴰ.tail (Memᴰ.head (ap (λ b. (b, stateful_set)) (sym h))))
enabled-listed r deployment h =
    Memᴰ.tail (Memᴰ.tail (Memᴰ.tail (Memᴰ.head (ap (λ b. (b, deployment)) (sym h)))))
enabled-listed r config_map h =
    Memᴰ.tail (Memᴰ.tail (Memᴰ.tail (Memᴰ.tail (Memᴰ.head (ap (λ b. (b, config_map)) (sym h))))))
enabled-listed r secret h =
    Memᴰ.tail
      (Memᴰ.tail (Memᴰ.tail (Memᴰ.tail (Memᴰ.tail (Memᴰ.head (ap (λ b. (b, secret)) (sym h)))))))
enabled-listed r pod_disruption_budget h = Memᴰ.tail (
    Memᴰ.tail (
      Memᴰ.tail (
        Memᴰ.tail
          (Memᴰ.tail (Memᴰ.tail (Memᴰ.head (ap (λ b. (b, pod_disruption_budget)) (sym h))))))))
enabled-listed r service_monitor h = Memᴰ.tail (
    Memᴰ.tail (
      Memᴰ.tail (
        Memᴰ.tail (
          Memᴰ.tail (Memᴰ.tail (Memᴰ.tail (Memᴰ.head (ap (λ b. (b, service_monitor)) (sym h)))))))))
enabled-listed r custom_resource h = cc

prune_where-Removes :
    (client : Client) (faithful : IsFaithful client) (r : ResourcePruner)
    (should_delete : Object → Bool) (opts : List client.ListOption) (s : client.State) (x : Object)
    → (Memᴰ x (faithful.objects (prune_where client r should_delete opts s).state) ↔ (
        Memᴰ x (faithful.objects s)
        × ¬ (
            (should_delete x ≡ true)
            × (faithful.selects opts x ≡ true)
            × (is_enabled r x.kind ≡ true))))
      × ((prune_where client r should_delete opts s).err_count ≡ 0)
unfolding prune_where
prune_where-Removes client faithful r should_delete opts s x =
    let (removed, no_error) =
      prune_types-Removes client faithful should_delete opts (resource_types r)
        (record { state = s; err_count = 0 }) in
    (
      (
        (λ m.
            let (there, survives) = (removed x).0 m in
            (there, λ (d, chosen, on). survives (d, chosen, enabled-listed r x.kind on))),
        (λ (there, survives). (removed x).1 (
          there,
          λ (d, chosen, listed). survives (
            d,
            chosen,
            All-mem (λ t. t.0 ≡ true → is_enabled r t.1 ≡ true) (resource_types r)
                (resource_types-is_enabled r) listed refl,
          ),
        )),
      ),
      no_error,
    )

-- Against a server that answers, `Prune` reports no error, and an object is there afterwards exactly
-- if it was there before and its name is to be kept, or the options do not select it, or the pruner
-- was not built with its kind.
pub prune-exact :
    (client : Client) (faithful : IsFaithful client) (r : ResourcePruner) (keep : List String)
    (opts : List client.ListOption) (s : client.State) (x : Object)
    → (Memᴰ x (faithful.objects (prune client r keep opts s).state) ↔ (
        Memᴰ x (faithful.objects s)
        × ¬ (
            (not (contains keep x.name) ≡ true)
            × (faithful.selects opts x ≡ true)
            × (is_enabled r x.kind ≡ true))))
      × ((prune client r keep opts s).err_count ≡ 0)
unfolding prune
prune-exact client faithful r keep opts s x =
    prune_where-Removes client faithful r (λ obj. not (contains keep obj.name)) opts s x

-- What `PruneByOwner` leaves, by what its list calls select.
pub prune_by_owner-selected :
    (client : Client) (faithful : IsFaithful client) (r : ResourcePruner) (owner : Object)
    (s : client.State) (x : Object)
    → owner.uid ≢ ""
    → (Memᴰ x (faithful.objects (prune_by_owner client r owner s).state) ↔ (
        Memᴰ x (faithful.objects s)
        × ¬ (
            (client.is_controlled_by x owner ≡ true)
            × (faithful.selects (client.in_namespace owner.namespace ∷ []) x ≡ true)
            × (is_enabled r x.kind ≡ true))))
      × ((prune_by_owner client r owner s).err_count ≡ 0)
unfolding prune_by_owner
prune_by_owner-selected client faithful r owner s x given =
    rw (prune_by_owner, ==-ne owner.uid "" given)
      (prune_where-Removes client faithful r (λ obj. client.is_controlled_by obj owner)
        (client.in_namespace owner.namespace ∷ []) s x)

-- A list call with the option of a namespace, which is not empty, returns what is in the namespace.
abbrev pub HonoursNamespace : (client : Client) → IsFaithful client → Type 0
HonoursNamespace client faithful =
    (ns : String) (x : Object)
    → ns ≢ ""
    → (faithful.selects (client.in_namespace ns ∷ []) x ≡ true) ↔ (x.namespace ≡ ns)

-- Against a server that answers and honours the namespace of a list call, `PruneByOwner` for an owner
-- that has a uid and a namespace reports no error, and an object is there afterwards exactly if it was
-- there before, unless the owner controls it, it is in the owner's namespace, and the pruner was built
-- with its kind.
pub prune_by_owner-exact :
    (client : Client) (faithful : IsFaithful client) (honours : HonoursNamespace client faithful)
    (r : ResourcePruner) (owner : Object) (s : client.State) (x : Object)
    → owner.uid ≢ ""
    → owner.namespace ≢ ""
    → (Memᴰ x (faithful.objects (prune_by_owner client r owner s).state) ↔ (
        Memᴰ x (faithful.objects s)
        × ¬ (
            (client.is_controlled_by x owner ≡ true)
            × (x.namespace ≡ owner.namespace)
            × (is_enabled r x.kind ≡ true))))
      × ((prune_by_owner client r owner s).err_count ≡ 0)
prune_by_owner-exact client faithful honours r owner s x given placed =
    let (which, no_error) = prune_by_owner-selected client faithful r owner s x given in
    let here = honours owner.namespace x placed in
    (
      (
        (λ m. let (before, spared) = which.0 m in (before, λ (c, n, e). spared (c, here.1 n, e))),
        (λ (before, spared). which.1 (before, λ (c, n, e). spared (c, here.0 n, e))),
      ),
      no_error,
    )
