-- ===== src/Controller/Lister.antt =====
-- `List` of controller/resource.go: the states of all tasks that ECS, the tokens or the services
-- know of. The order in which Go ranges over a map is not modelled.
use consul_ecs.Base.{ℕ, List, [], ◌∷◌, ◌++◌, Option, none, some, Result, ok, err}
use consul_ecs.Base.Dict.{Dict, lookup, insert, values}
use consul_ecs.Client.{History}
use consul_ecs.Controller.Env.{TaskState, Lister, Env}
use consul_ecs.Controller.Ecs.{fetch_ecs_tasks}
use consul_ecs.Controller.Acl.{fetch_acl_state}
use consul_ecs.Controller.Services.{fetch_service_state_for_tasks}

-- The tokens of a state join those of the task, or the state is taken whole.
unfoldable pub merge_tokens : Dict TaskState → Dict TaskState → Dict TaskState
merge_tokens [] building = building
merge_tokens ((id, state) ∷ m) building = merge_tokens m (elim (lookup id building) [
  | none ↦ insert id state building
  | some r ↦ insert id (record r { acl_tokens = r.acl_tokens ++ state.acl_tokens }) building
])

unfoldable pub merge_services : Dict TaskState → Dict TaskState → Dict TaskState
merge_services [] building = building
merge_services ((id, state) ∷ m) building = merge_services m (elim (lookup id building) [
  | none ↦ insert id state building
  | some r ↦ insert id (record r { services = r.services ++ state.services }) building
])

-- What follows once the ECS tasks are known.
unfoldable pub list_from :
    Env → Lister → Dict TaskState → History → Result (List TaskState) × History
list_from env s tasks h =
    let (acl, h1) = fetch_acl_state env s h in
    elim acl [
      | err e ↦ (err e, h1)
      | ok acl_state ↦
          let ((failed, service_state), h2) = fetch_service_state_for_tasks env s h1 in
          elim failed [
            | some e ↦ (err e, h2)
            | none ↦ (ok (values (merge_services service_state (merge_tokens acl_state tasks))), h2)
          ]
    ]

-- `none` means that the fuel for the pages of ECS ran out.
unfoldable pub list : Env → Lister → ℕ → History → Option (Result (List TaskState) × History)
list env s fuel h = elim (env.setup h) [
  | some e ↦ some (err e, h)
  | none ↦ elim (fetch_ecs_tasks env s fuel) [
    | none ↦ none
    | some (err e) ↦ some (err e, h)
    | some (ok tasks) ↦ some (list_from env s tasks h)
  ]
]
