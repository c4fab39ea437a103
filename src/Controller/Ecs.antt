-- ===== src/Controller/Ecs.antt =====
-- The ECS side of controller/resource.go: `fetchECSTasks` and what it calls.
use consul_ecs.Base.{
  ℕ, zero, suc, ◌+◌, ◌==◌, not, ◌&&◌, ◌||◌, String, Bool, true, List, [], ◌∷◌, Option, none, some,
  Result, ok, err, errorf, wrapf, if◌then◌else◌,
}
use consul_ecs.Base.Dict.{Dict, insert}
use consul_ecs.Task.{parse_task_id}
use consul_ecs.Controller.Env.{
  TaskState, Lister, Tag, EcsTask, Env, new_task_state, partitions_enabled,
}

-- `aws.ToString`
abbrev pub to_string : Option String → String
to_string none = ""
to_string (some s) = s

unfoldable pub tag_value : List Tag → String → String
tag_value [] key = ""
tag_value (t ∷ tags) key =
    let rest = tag_value tags key in if to_string t.key == key then to_string t.value else rest

abbrev pub mesh_tag : String
mesh_tag = "consul.hashicorp.com/mesh"

abbrev pub partition_tag : String
partition_tag = "consul.hashicorp.com/partition"

abbrev pub namespace_tag : String
namespace_tag = "consul.hashicorp.com/namespace"

abbrev pub default_partition : String
default_partition = "default"

abbrev pub default_namespace : String
default_namespace = "default"

unfoldable pub is_mesh_task : EcsTask → Bool
unfolding tag_value
is_mesh_task t = tag_value t.tags mesh_tag == "true"

-- The partition and the namespace of a task, by its tags.
unfoldable pub tenancy : Lister → EcsTask → Result (String × String)
unfolding tag_value partitions_enabled
tenancy s t =
    let partition = tag_value t.tags partition_tag in
    let namespace = tag_value t.tags namespace_tag in
    if partitions_enabled s.partition
    then if partition == "" && namespace == ""
      then ok (default_partition, default_namespace)
      else if partition == "" && not (namespace == "") || not (partition == "") && namespace == ""
      then err (errorf "task definition requires both partition and namespace tags")
      else ok (partition, namespace)
    else ok ("", "")

unfoldable pub task_state_from_task : Lister → EcsTask → Result TaskState
unfolding new_task_state
task_state_from_task s t = elim (tenancy s t) [
  | err e ↦ err e
  | ok (partition, namespace) ↦
      let task_id = parse_task_id (to_string t.task_arn) in
      if task_id == ""
      then err (errorf "cannot determine task id from task arn")
      else ok (record (new_task_state task_id (to_string t.cluster_arn)) {
        ecs_task_found = true;
        partition = partition;
        ns = namespace;
      })
]

-- A task without an ARN, outside the mesh, with bad tags, or of another partition is skipped.
unfoldable pub accept : Lister → EcsTask → Option TaskState
accept s t = elim t.task_arn [
  | none ↦ none
  | some _ ↦
      if is_mesh_task t
      then elim (task_state_from_task s t) [
        | err _ ↦ none
        | ok state ↦ if state.partition == s.partition then some state else none
      ]
      else none
]

-- The loop over the tasks of one page.
unfoldable pub add_tasks : Lister → List EcsTask → Dict TaskState → Dict TaskState
add_tasks s [] resources = resources
add_tasks s (t ∷ ts) resources =
    add_tasks s ts
      (elim (accept s t) [ none ↦ resources | some state ↦ insert state.task_id state resources ])

-- The loop over the pages, on fuel; `none` means that the fuel ran out.
unfoldable pub fetch_pages :
    Env → Lister → ℕ → ℕ → Option String → Dict TaskState → Option (Result (Dict TaskState))
fetch_pages env s zero round token resources = none
fetch_pages env s (suc fuel) round token resources = elim (env.list_tasks round token) [
  | err e ↦ some (err (wrapf "listing tasks" e))
  | ok page ↦ elim page.task_arns [
    | [] ↦ some (ok resources)
    | arn ∷ arns ↦ elim (env.describe_tasks round (arn ∷ arns)) [
      | err e ↦ some (err (wrapf "describing tasks" e))
      | ok tasks ↦ elim page.next_token [
        | none ↦ some (ok (add_tasks s tasks resources))
        | some next ↦ fetch_pages env s fuel (round + 1) (some next) (add_tasks s tasks resources)
      ]
    ]
  ]
]

unfoldable pub fetch_ecs_tasks : Env → Lister → ℕ → Option (Result (Dict TaskState))
fetch_ecs_tasks env s fuel = fetch_pages env s fuel 0 none []
