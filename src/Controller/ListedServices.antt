-- ===== src/Controller/ListedServices.antt =====
-- What `fetchServiceStateForTasks` of controller/resource.go returns.
use consul_ecs.Base.{
  ◌≡◌, ◌==◌, refl, String, List, [], ◌∷◌, Option, none, ok, Error, Option-cases, Result-cases, inl,
  inr, All-append, if◌then◌else◌,
}
use consul_ecs.Base.Dict.{Dict, lookup, Entries, insert-Entries, lookup-Entries}
use consul_ecs.Consul.{AgentService, QueryOptions}
use consul_ecs.Client.{History}
use consul_ecs.Controller.Env.{TaskState, Lister, Env, new_task_state}
use consul_ecs.Controller.Services.{
  get_task_id_from_service_meta, add_service, add_services, fetch_service_state_for_tasks,
}
use consul_ecs.Controller.Listed.{ServiceOf, IsConsulState}

module _ (env : Env) (s : Lister) where
  add_service-IsConsulState :
      (id : String) (service : AgentService) (m : Dict TaskState)
      → get_task_id_from_service_meta service ≡ ok id
      → Entries (IsConsulState env s) m
      → Entries (IsConsulState env s) (add_service s id service m)
  unfolding add_service new_task_state
  add_service-IsConsulState id service m of h = elim (Option-cases (lookup id m)) [
    | inl new ↦
        rw (new, add_service)
          (insert-Entries (IsConsulState env s) id _ m (refl, refl, refl, tt, (of, tt)) h)
    | inr (found, old) ↦
        let it = lookup-Entries (IsConsulState env s) id m h old in
        rw (old, add_service)
          (insert-Entries (IsConsulState env s) id _ m
            (
              it.0,
              it.1,
              it.2,
              it.3,
              All-append ((ServiceOf env s) id) found.services _ it.4 (of, tt),
            )
            h)
  ]

  add_services-IsConsulState :
      (services : List AgentService) (e : Option Error) (m : Dict TaskState)
      → Entries (IsConsulState env s) m
      → Entries (IsConsulState env s) (add_services env.append s services e m).1
  unfolding add_services
  add_services-IsConsulState [] e m h = h
  add_services-IsConsulState (service ∷ services) e m h =
      elim (Result-cases (get_task_id_from_service_meta service)) [
        | inl (x, failed) ↦ rw (failed, add_services) (add_services-IsConsulState services _ m h)
        | inr (id, of) ↦
            rw (of, add_services)
              (add_services-IsConsulState services e _
                (add_service-IsConsulState id service m of h))
      ]

  pub fetch_services-IsConsulState :
      (h : History) → Entries (IsConsulState env s) (fetch_service_state_for_tasks env s h).0.1
  unfolding fetch_service_state_for_tasks
  fetch_services-IsConsulState h =
      let opts : QueryOptions = record {
        namespace = if s.partition == "" then "" else "*";
        partition = s.partition;
        filter = "";
      } in
      elim (Result-cases (env.api.services h s.cluster_arn opts)) [
        | inl (x, failed) ↦ rw (failed, fetch_service_state_for_tasks) tt
        | inr (services, listed) ↦
            rw (listed, fetch_service_state_for_tasks)
              (add_services-IsConsulState services none [] tt)
      ]
