-- ===== src/Controller/Found.antt =====
-- That `List` of controller/resource.go misses no service that Consul lists.
use mathlib.Core.List.{append_assoc}
use mathlib.Core.Path.{subst}
use consul_ecs.Base.{
  ◌≡◌, ◌==◌, ◌∙◌, eq_iff, eq_refl, refl, sym, ap, String, All, All-map, List, [], ◌∷◌, ◌++◌, Option,
  none, some, ok, err, Error, Append, arith, Bool-cases, Option-cases, Result-cases, inl, inr,
}
use consul_ecs.Base.Dict.{Dict, lookup, insert, lookup-insert, values}
use consul_ecs.Consul.{AgentService}
use consul_ecs.Controller.Env.{TaskState, Lister, Env, new_task_state}
use consul_ecs.Controller.Services.{
  node_query, fetch_service_state_for_tasks, get_task_id_from_service_meta, add_service,
  add_services,
}
use consul_ecs.Controller.Lister.{merge_services, merge_tokens, list_from}
use consul_ecs.Controller.Acl.{fetch_acl_state}
use consul_ecs.Client.{History}

-- The service is among the list.
abbrev pub IsAmong : AgentService → List AgentService → Type 0
IsAmong svc services =
    (before : List AgentService) × (after : List AgentService) × (services ≡ before ++ svc ∷ after)

-- The state under the task's ID holds the service.
abbrev pub HasService : String → AgentService → Dict TaskState → Type 0
HasService id svc m = (r : TaskState) × (lookup id m ≡ some r) × IsAmong svc r.services

IsAmong-append_left :
    (svc : AgentService) (xs ys : List AgentService) → IsAmong svc xs → IsAmong svc (xs ++ ys)
IsAmong-append_left svc xs ys (a, b, e) =
    (a, b ++ ys, ap (λ (k : List AgentService). k ++ ys) e ∙ append_assoc a _ ys)

IsAmong-append_right :
    (svc : AgentService) (xs ys : List AgentService) → IsAmong svc ys → IsAmong svc (xs ++ ys)
IsAmong-append_right svc xs ys (a, b, e) =
    (xs ++ a, b, ap (λ (k : List AgentService). xs ++ k) e ∙ sym (append_assoc xs a _))

-- The state under `j` is replaced by one with more services.
insert-HasService :
    (id : String) (svc : AgentService) (j : String) (old : TaskState) (more : List AgentService)
    (m : Dict TaskState)
    → lookup j m ≡ some old
    → HasService id svc m
    → HasService id svc (insert j (record old { services = old.services ++ more }) m)
insert-HasService id svc j old more m there (r, found, among) = elim (Bool-cases (j == id)) [
  | inl same ↦
      let e : j ≡ id = (eq_iff j id).0 same in
      let is : r ≡ old = cc in
      (
        record old { services = old.services ++ more },
        ground (arith, lookup-insert id j (record old { services = old.services ++ more }) m),
        IsAmong-append_left svc old.services more
            (subst (λ (k : TaskState). IsAmong svc k.services) is among),
      )
  | inr other ↦ (
    r,
    ground (arith, lookup-insert id j (record old { services = old.services ++ more }) m),
    among,
  )
]

insert_new-HasService :
    (id : String) (svc : AgentService) (j : String) (state : TaskState) (m : Dict TaskState)
    → lookup j m ≡ none
    → HasService id svc m
    → HasService id svc (insert j state m)
insert_new-HasService id svc j state m new (r, found, among) = elim (Bool-cases (j == id)) [
  | inl same ↦ let e : j ≡ id = (eq_iff j id).0 same in cc
  | inr other ↦ (r, ground (arith, lookup-insert id j state m), among)
]

-- Merging keeps the services of both maps.
merge_services-keeps :
    (id : String) (svc : AgentService) (m building : Dict TaskState)
    → HasService id svc building
    → HasService id svc (merge_services m building)
unfolding merge_services
merge_services-keeps id svc [] building has = has
merge_services-keeps id svc ((j, state) ∷ m) building has =
    elim (Option-cases (lookup j building)) [
      | inl new ↦
          rw (new, merge_services)
            (merge_services-keeps id svc m _
              (insert_new-HasService id svc j state building new has))
      | inr (old, there) ↦
          rw (there, merge_services)
            (merge_services-keeps id svc m _
              (insert-HasService id svc j old state.services building there has))
    ]

merge_services-HasService :
    (id : String) (svc : AgentService) (m building : Dict TaskState)
    → HasService id svc m
    → HasService id svc (merge_services m building)
unfolding merge_services lookup
merge_services-HasService id svc [] building (r, found, among) = cc
merge_services-HasService id svc ((j, state) ∷ m) building (r, found, among) =
    elim (Bool-cases (j == id)) [
      | inr other ↦ merge_services-HasService id svc m _ (r, ground arith, among)
      | inl same ↦
          let e : j ≡ id = (eq_iff j id).0 same in
          let is : state ≡ r = ground arith in
          let own : IsAmong svc state.services =
            subst (λ (k : TaskState). IsAmong svc k.services) (sym is) among in
          elim (Option-cases (lookup j building)) [
            | inl new ↦
                rw (new, merge_services)
                  (merge_services-keeps id svc m _
                    (state, ground (arith, lookup-insert id j state building), own))
            | inr (old, there) ↦
                let both : TaskState = record old { services = old.services ++ state.services } in
                rw (there, merge_services)
                  (merge_services-keeps id svc m _ (
                    both,
                    ground (arith, lookup-insert id j both building),
                    IsAmong-append_right svc old.services state.services own,
                  ))
          ]
    ]

add_service-keeps :
    (s : Lister) (id : String) (svc : AgentService) (j : String) (other : AgentService)
    (m : Dict TaskState)
    → HasService id svc m
    → HasService id svc (add_service s j other m)
unfolding add_service
add_service-keeps s id svc j other m has = elim (Option-cases (lookup j m)) [
  | inl new ↦ rw (new, add_service) (insert_new-HasService id svc j _ m new has)
  | inr (old, there) ↦
      rw (there, add_service) (insert-HasService id svc j old (other ∷ []) m there has)
]

add_service-HasService :
    (s : Lister) (id : String) (svc : AgentService) (m : Dict TaskState)
    → HasService id svc (add_service s id svc m)
unfolding add_service
add_service-HasService s id svc m = elim (Option-cases (lookup id m)) [
  | inl new ↦
      let state : TaskState = record (new_task_state id s.cluster_arn) { services = svc ∷ [] } in
      rw (new, add_service)
        (state, ground (arith, lookup-insert id id state m, eq_refl id), ([], [], refl))
  | inr (old, there) ↦
      let state : TaskState = record old { services = old.services ++ svc ∷ [] } in
      rw (there, add_service)
        (state, ground (arith, lookup-insert id id state m, eq_refl id), (old.services, [], refl))
]

module _ (append : Append) (s : Lister) where
  add_services-keeps :
      (id : String) (svc : AgentService) (services : List AgentService) (e : Option Error)
      (m : Dict TaskState)
      → HasService id svc m
      → HasService id svc (add_services append s services e m).1
  unfolding add_services
  add_services-keeps id svc [] e m has = has
  add_services-keeps id svc (x ∷ services) e m has =
      elim (Result-cases (get_task_id_from_service_meta x)) [
        | inl (failure, failed) ↦
            rw (failed, add_services) (add_services-keeps id svc services _ m has)
        | inr (j, is) ↦
            rw (is, add_services)
              (add_services-keeps id svc services e _ (add_service-keeps s id svc j x m has))
      ]

  add_services-All :
      (services : List AgentService) (e : Option Error) (m : Dict TaskState)
      → All
          (λ svc.
            (id : String)
            → get_task_id_from_service_meta svc ≡ ok id
            → HasService id svc (add_services append s services e m).1)
          services
  unfolding add_services
  add_services-All [] e m = tt
  add_services-All (x ∷ services) e m =
      let r = elim (get_task_id_from_service_meta x) as (λ z. Option Error × Dict TaskState) [
        | err failure ↦ (some (append e failure), m)
        | ok j ↦ (e, add_service s j x m)
      ] in
      (
        λ id given.
            rw (given, add_services)
              (add_services-keeps id x services e _ (add_service-HasService s id x m)),
        add_services-All services r.0 r.1,
      )

lookup-values :
    (id : String) (m : Dict TaskState) (r : TaskState)
    → lookup id m ≡ some r
    → (before : List TaskState) × (after : List TaskState) × (values m ≡ before ++ r ∷ after)
unfolding lookup
lookup-values id [] r e = cc
lookup-values id ((j, x) ∷ m) r e = elim (Bool-cases (j == id)) [
  | inl same ↦
      let is : x ≡ r = ground arith in ([], values m, ap (λ (k : TaskState). k ∷ values m) is)
  | inr other ↦
      let (a, b, f) = lookup-values id m r (ground arith) in
      (x ∷ a, b, ap (λ (k : List TaskState). x ∷ k) f)
]

-- A listing that succeeds misses no service: each service that Consul lists for the cluster's node,
-- with a task ID in its metadata, is among the services of some listed resource.
pub list_from-services :
    (env : Env) (s : Lister) (tasks : Dict TaskState) (h : History) (resources : List TaskState)
    (services : List AgentService)
    → (list_from env s tasks h).0 ≡ ok resources
    → env.api.services (fetch_acl_state env s h).1 s.cluster_arn (node_query s) ≡ ok services
    → All
        (λ svc.
          (id : String)
          → get_task_id_from_service_meta svc ≡ ok id
          → (r : TaskState) × (before : List TaskState) × (after : List TaskState) × (resources
              ≡ before ++ r ∷ after)
            × IsAmong svc r.services)
        services
unfolding list_from
list_from-services env s tasks h resources services listed answered =
    let h1 = (fetch_acl_state env s h).1 in
    let state = add_services env.append s services none [] in
    let got : (fetch_service_state_for_tasks env s h1).0 ≡ state =
      unfold fetch_service_state_for_tasks in rw answered refl in
    elim (Result-cases (fetch_acl_state env s h).0) [
      | inl (x, failed) ↦ absurd (ground arith)
      | inr (acl, fetched) ↦ elim (Option-cases (fetch_service_state_for_tasks env s h1).0.0) [
        | inr (x, failed) ↦ absurd (ground arith)
        | inl fine ↦
            let building = merge_tokens acl tasks in
            let same : values (merge_services (fetch_service_state_for_tasks env s h1).0.1 building)
                ≡ resources =
              ground arith in
            let is : resources ≡ values (merge_services state.1 building) =
              sym same
              ∙ ap (λ (p : Option Error × Dict TaskState). values (merge_services p.1 building))
                  got in
            All-map
              (λ svc.
                (id : String)
                → get_task_id_from_service_meta svc ≡ ok id
                → HasService id svc state.1)
              (λ svc.
                (id : String)
                → get_task_id_from_service_meta svc ≡ ok id
                → (r : TaskState) × (before : List TaskState) × (after : List TaskState)
                  × (resources ≡ before ++ r ∷ after)
                  × IsAmong svc r.services)
              (λ svc has id given.
                let (r, found, among) =
                  merge_services-HasService id svc state.1 building (has id given) in
                let (a, b, e) = lookup-values id (merge_services state.1 building) r found in
                (r, a, b, is ∙ e, among))
              services (add_services-All env.append s services none [])
      ]
    ]
