-- ===== src/HealthSync/Overall.antt =====
-- What `syncChecks` of subcommand/health-sync/checks.go makes of the health of a task's containers.
use mathlib.Core.Option
use consul_ecs.Base.{
  ◌≡◌, ◌≢◌, ◌↔◌, ◌+◌, ◌&&◌, not, refl, eq_iff, eq_refl, true, String, List, [], ◌∷◌, Option, none,
  some, arith, Option-cases, inl, inr, All, All-contains, contains, is_some, length, if◌then◌else◌,
}
use consul_ecs.Base.Dict.{
  Dict, lookup, insert, lookup-insert, lookup-nil, NodupKeys, insert-NodupKeys,
}
use consul_ecs.Task.{TaskContainer}
use consul_ecs.Config.Types.{consul_dataplane_container_name}
use consul_ecs.HealthSync.Containers.{
  status_healthy, status_unhealthy, first_named, find_containers_to_sync, parsed_containers,
  all_healthy, overall_dataplane_health_status,
}

first_named-name :
    (name : String) (cs : List TaskContainer) {k : TaskContainer}
    → first_named name cs ≡ some k
    → k.name ≡ name
unfolding first_named
first_named-name name [] h = cc
first_named-name name (c ∷ cs) {k} h =
    ground (arith, eq_iff c.name name, first_named-name name cs {k = k})

-- The names are split without loss: a name is missing exactly when it is asked for and no container
-- bears it, and there are as many containers and missing names as there are names.
pub find_containers_split :
    (names : List String) (cs : List TaskContainer)
    → let (found, missing) = find_containers_to_sync names cs in
      (length found + length missing ≡ length names)
      × ((name : String)
          → contains missing name ≡ (contains names name && not (is_some (first_named name cs))))
unfolding find_containers_to_sync
find_containers_split [] cs = (refl, λ name. refl)
find_containers_split (j ∷ names) cs =
    let ih = find_containers_split names cs in
    elim (Option-cases (first_named j cs)) [
      | inl e ↦ rw e (omega (arith, ih.0), λ name. ground (arith, eq_iff j name, ih.1 name))
      | inr (k, e) ↦ rw e (omega (arith, ih.0), λ name. ground (arith, eq_iff j name, ih.1 name))
    ]

-- The status of the container that bears the name.
abbrev found_status : List TaskContainer → String → Option String
found_status cs name = Option.map (λ (k : TaskContainer). k.health.status) (first_named name cs)

abbrev or_else : Option String → Option String → Option String
or_else none o = o
or_else (some s) o = some s

lookup-parsed :
    (names : List String) (cs : List TaskContainer) (m : Dict String) (n : String)
    → lookup n (parsed_containers (find_containers_to_sync names cs).0 m)
      ≡ (if contains names n then or_else (found_status cs n) (lookup n m) else lookup n m)
unfolding parsed_containers find_containers_to_sync
lookup-parsed [] cs m n = refl
lookup-parsed (j ∷ names) cs m n = elim (Option-cases (first_named j cs)) [
  | inl e ↦ ground (arith, lookup-parsed names cs m n, eq_iff j n)
  | inr (k, e) ↦ ground (
    arith,
    lookup-parsed names cs (insert k.name k.health.status m) n,
    eq_iff j n,
    eq_iff k.name n,
    first_named-name j cs e,
    lookup-insert n k.name k.health.status m,
  )
]

parsed-NodupKeys :
    (cs : List TaskContainer) (m : Dict String) → NodupKeys m → NodupKeys (parsed_containers cs m)
unfolding parsed_containers
parsed-NodupKeys [] m h = h
parsed-NodupKeys (c ∷ cs) m h = parsed-NodupKeys cs _ (insert-NodupKeys c.name c.health.status m h)

all_healthy_iff :
    (m : Dict String)
    → NodupKeys m
    → (all_healthy m ≡ true) ↔ ((n s : String) → lookup n m ≡ some s → s ≡ status_healthy)
unfolding all_healthy lookup
all_healthy_iff [] u = (λ h n s. cc, λ h. refl)
all_healthy_iff ((k, v) ∷ m) u = (
  λ h n s e.
      let rest : all_healthy m ≡ true = ground arith in
      ground (arith, eq_iff v status_healthy, (all_healthy_iff m u.1).0 rest n s),
  λ h.
      let first : v ≡ status_healthy = h k v (ground (arith, eq_refl k)) in
      let rest : all_healthy m ≡ true =
        (all_healthy_iff m u.1).1 (λ n s e. h n s (ground (arith, eq_iff k n, u.0))) in
      ground (arith, eq_iff v status_healthy),
)

-- The container that bears the name, if there is one, is healthy.
abbrev pub HealthyIfFound : List TaskContainer → String → Type 0
HealthyIfFound cs name =
    (k : TaskContainer) → first_named name cs ≡ some k → k.health.status ≡ status_healthy

All-of_contains :
    (P : String → Type 0) (names : List String)
    → ((n : String) → contains names n ≡ true → P n)
    → All P names
All-of_contains P [] h = tt
All-of_contains P (x ∷ xs) h =
    (h x (ground (arith, eq_refl x)), All-of_contains P xs (λ n m. h n (ground arith)))

overall_iff :
    (containers : List TaskContainer)
    → (overall_dataplane_health_status containers ≡ status_healthy) ↔ (
        (lookup consul_dataplane_container_name (parsed_containers containers []) ≢ none)
        × (all_healthy (parsed_containers containers []) ≡ true))
unfolding overall_dataplane_health_status
overall_iff containers =
    let m = parsed_containers containers [] in
    let healthy = (all_healthy_iff m (parsed-NodupKeys containers [] tt)).0 in
    (
      λ h. ground (arith, eq_iff status_unhealthy status_healthy),
      λ h. elim (Option-cases (lookup consul_dataplane_container_name m)) [
        | inl e ↦ absurd (h.0 e)
        | inr (s, e) ↦
            let ok = healthy h.1 consul_dataplane_container_name s e in
            ground (arith, eq_iff s status_healthy)
      ],
    )

-- The dataplane's check is updated to healthy exactly when the dataplane's container is in the task
-- metadata and every synced container that is in the metadata is healthy, itself included. A synced
-- container that is not in the metadata does not count.
pub overall_status_iff :
    (names : List String) (cs : List TaskContainer)
    → contains names consul_dataplane_container_name ≡ true
    → (overall_dataplane_health_status (find_containers_to_sync names cs).0 ≡ status_healthy)
      ↔ ((first_named consul_dataplane_container_name cs ≢ none) × All (HealthyIfFound cs) names)
overall_status_iff names cs d =
    let found = (find_containers_to_sync names cs).0 in
    let overall = overall_iff found in
    let healthy = all_healthy_iff (parsed_containers found []) (parsed-NodupKeys found [] tt) in
    let at = λ (n : String). lookup-parsed names cs [] n in
    (
      λ h.
          let all = healthy.0 ((overall.0 h).1) in
          (
            λ e. (overall.0 h).0 (
                ground (
                  arith,
                  at consul_dataplane_container_name,
                  lookup-nil {V = String} consul_dataplane_container_name,
                )),
            All-of_contains (HealthyIfFound cs) names (λ n m k e.
                all n k.health.status (ground (arith, at n, lookup-nil {V = String} n))),
          ),
      λ h. overall.1 (
        λ e. h.0 (
            ground (
              arith,
              at consul_dataplane_container_name,
              lookup-nil {V = String} consul_dataplane_container_name,
            )),
        healthy.1 (λ n s e. elim (Option-cases (first_named n cs)) [
          | inl gone ↦ absurd (ground (arith, at n, lookup-nil {V = String} n))
          | inr (k, is) ↦
              let member : contains names n ≡ true =
                ground (arith, at n, lookup-nil {V = String} n) in
              let ok = All-contains (HealthyIfFound cs) names n h.1 member k is in
              ground (arith, at n, lookup-nil {V = String} n)
        ]),
      ),
    )
