-- ===== src/Controller/Services.antt =====
-- `fetchServiceStateForTasks` of controller/resource.go: the services registered for tasks.
use consul_ecs.Base.{
  ◌<>◌, ◌==◌, String, List, [], ◌∷◌, ◌++◌, Option, none, some, Result, ok, err, Error, errorf,
  wrapf, Append, if◌then◌else◌,
}
use consul_ecs.Base.Dict.{Dict, lookup, insert}
use consul_ecs.Consul.{AgentService, QueryOptions}
use consul_ecs.Client.{History, node_service_list}
use consul_ecs.Controller.Env.{TaskState, Lister, Env, new_task_state}

unfoldable pub get_task_id_from_service_meta : AgentService → Result String
get_task_id_from_service_meta service = elim (lookup "task-id" service.meta) [
  | none ↦ err (errorf ("could not find taskID for the given service " <> service.id))
  | some task_id ↦ ok task_id
]

unfoldable pub add_service : Lister → String → AgentService → Dict TaskState → Dict TaskState
unfolding new_task_state
add_service s task_id service state = elim (lookup task_id state) [
  | some found ↦ insert task_id (record found { services = found.services ++ service ∷ [] }) state
  | none ↦
      insert task_id (record (new_task_state task_id s.cluster_arn) { services = service ∷ [] })
        state
]

-- The loop over the services; a service without a task ID adds an error and is skipped.
unfoldable pub add_services :
    Append
    → Lister
    → List AgentService
    → Option Error
    → Dict TaskState
    → Option Error × Dict TaskState
add_services append s [] result state = (result, state)
add_services append s (service ∷ services) result state =
    let r = elim (get_task_id_from_service_meta service) as (λ x. Option Error × Dict TaskState) [
      | err e ↦ (some (append result e), state)
      | ok task_id ↦ (result, add_service s task_id service state)
    ] in
    add_services append s services r.0 r.1

-- The namespace is a wildcard where partitions are in use.
abbrev pub node_query : Lister → QueryOptions
node_query s = record {
  namespace = if s.partition == "" then "" else "*";
  partition = s.partition;
  filter = "";
}

-- The states are returned together with the errors.
unfoldable pub fetch_service_state_for_tasks :
    Env → Lister → History → (Option Error × Dict TaskState) × History
fetch_service_state_for_tasks env s h =
    let opts = node_query s in
    (
      elim (env.api.services h s.cluster_arn opts) [
        | err e ↦
            (some (wrapf ("fetching list of services for the given node " <> s.cluster_arn) e), [])
        | ok services ↦ add_services env.append s services none []
      ],
      h ++ node_service_list s.cluster_arn opts ∷ [],
    )
