-- ===== src/Status/Last.antt =====
-- Which of several owned workloads a status shows.
use thanos_operator.Common.{
  String, Bool, true, false, ◌&&◌, ◌==◌, List, [], ◌∷◌, ◌≡◌, refl, ap, ◌∙◌, inl, inr, Option, none,
  some, GoMap, lookup, insert, lookup-insert, or_else, contains, Bool-cases, if◌then◌else◌,
}
use thanos_operator.Status.{
  Stats, StatefulSetStatus, for_containers, for_statuses, stateful_set_status, keyed_statuses,
}

-- The last of the workloads that the test accepts.
unfoldable pub last_where : (Stats → Bool) → List Stats → Option Stats
last_where test [] = none
last_where test (s ∷ statuses) =
    or_else (last_where test statuses) (if test s then some s else none)

unfoldable pub has_container : String → Stats → Bool
has_container name s = contains s.container_names name

-- The status of a workload, if there is one.
unfoldable pub status_of : Option Stats → Option StatefulSetStatus
status_of none = none
status_of (some s) = some (stateful_set_status s)

join :
    (l : Option Stats) (b : Bool) (s : Stats) (o : Option StatefulSetStatus)
    → or_else (status_of l) (if b then some (stateful_set_status s) else o)
      ≡ or_else (status_of (or_else l (if b then some s else none))) o
unfolding status_of
join (some l) b s o = refl
join none true s o = refl
join none false s o = refl

overwritten :
    {A : Type 0}
    → (b c : Bool) (x y : A) → (if b && c then x else (if c then x else y)) ≡ (if c then x else y)
overwritten true true x y = refl
overwritten true false x y = refl
overwritten false true x y = refl
overwritten false false x y = refl

module _ (name : String) (key : Stats → String) where
  abbrev record_status : Stats → GoMap StatefulSetStatus → GoMap StatefulSetStatus
  record_status s m = insert (key s) (stateful_set_status s) m

  for_containers-lookup :
      (s : Stats) (k : String) (cs : List String) (m : GoMap StatefulSetStatus)
      → lookup k (for_containers name record_status s cs m)
        ≡ (if contains cs name && key s == k then some (stateful_set_status s) else lookup k m)
  unfolding for_containers contains
  for_containers-lookup s k [] m = refl
  for_containers-lookup s k (c ∷ cs) m = elim (Bool-cases (c == name)) [
    | inl e ↦ rw e (
        for_containers-lookup s k cs (record_status s m)
        ∙ ap (λ o. if contains cs name && key s == k then some (stateful_set_status s) else o)
            (lookup-insert (key s) k (stateful_set_status s) m)
        ∙ overwritten (contains cs name) (key s == k) (some (stateful_set_status s)) (lookup k m))
    | inr e ↦ rw e (for_containers-lookup s k cs m)
  ]

  for_statuses-lookup :
      (k : String) (statuses : List Stats) (m : GoMap StatefulSetStatus)
      → lookup k (for_statuses name record_status statuses m)
        ≡ or_else
            (status_of (last_where (λ s. has_container name s && key s == k) statuses))
            (lookup k m)
  unfolding for_statuses last_where has_container status_of
  for_statuses-lookup k [] m = refl
  for_statuses-lookup k (s ∷ statuses) m =
      let after = for_containers name record_status s s.container_names m in
      let later = last_where (λ s. has_container name s && key s == k) statuses in
      for_statuses-lookup k statuses after
      ∙ ap (or_else (status_of later)) (for_containers-lookup s k s.container_names m)
      ∙ join later (contains s.container_names name && key s == k) s (lookup k m)

or_none : {A : Type 0} → (o : Option A) → or_else o none ≡ o
or_none none = refl
or_none (some a) = refl

-- Under each key, the statuses of a resource's shards or hashrings hold that of the last listed
-- workload with the key that has a container of the name, and nothing where there is none.
pub keyed_statuses-lookup :
    (name : String) (key : Stats → String) (statuses : List Stats) (k : String)
    → lookup k (keyed_statuses name key statuses)
      ≡ status_of (last_where (λ s. has_container name s && key s == k) statuses)
unfolding keyed_statuses lookup
keyed_statuses-lookup name key statuses k =
    for_statuses-lookup name key k statuses []
    ∙ or_none (status_of (last_where (λ s. has_container name s && key s == k) statuses))
