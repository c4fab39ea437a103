-- ===== src/Task.antt =====
-- awsutil/awsutil.go: the task metadata that the ECS agent serves, and what is read off it.
pub mod Stopped
use mathlib.Core.List.{[], ◌∷◌}
use consul_ecs.Base.{
  ℤ, ◌<>◌, ◌==◌, ◌&&◌, not, starts_with, String, Bool, true, false, List, Option, none, some,
  Result, ok, err, errorf, ◌>>=◌, if◌then◌else◌,
}
use consul_ecs.Base.Text.{split, before_last, replace_first}

-- `ECSTaskMetaNetwork`
pub record TaskNetwork : Type 0 where
  pub ipv4_addresses : List String
  pub private_dns_name : String

-- `ECSTaskMetaHealth`
pub record TaskHealth : Type 0 where
  pub status : String
  pub status_since : String
  pub exit_code : ℤ

-- `ECSTaskMetaContainer`
pub record TaskContainer : Type 0 where
  pub name : String
  pub health : TaskHealth
  pub desired_status : String
  pub known_status : String
  pub networks : List TaskNetwork
  pub type : String

-- `ECSTaskMeta`
pub record TaskMeta : Type 0 where
  pub cluster : String
  pub task_arn : String
  pub family : String
  pub containers : List TaskContainer
  pub availability_zone : String

-- `types.DesiredStatusStopped` of the ECS SDK
abbrev pub status_stopped : String
status_stopped = "STOPPED"

abbrev pub container_type_normal : String
container_type_normal = "NORMAL"

abbrev pub ecs_metadata_uri_env_var : String
ecs_metadata_uri_env_var = "ECS_CONTAINER_METADATA_URI_V4"

-- `split[len(split)-1]`, with the test for an empty `split` in front.
last_of : List String → String
last_of [] = ""
last_of (x ∷ []) = x
last_of (x ∷ y ∷ ys) = last_of (y ∷ ys)

unfoldable pub parse_task_id : String → String
unfolding last_of split
parse_task_id task_arn = last_of (split "/" task_arn)

unfoldable pub task_id : TaskMeta → String
task_id e = parse_task_id e.task_arn

unfoldable pub cluster_arn : TaskMeta → Result String
unfolding before_last replace_first
cluster_arn e =
    if starts_with e.cluster "arn:"
    then ok e.cluster
    else elim (before_last "/" (replace_first ":task/" ":cluster/" e.task_arn)) [
      | none ↦ err (errorf ("unable to determine cluster ARN from task ARN " <> e.task_arn))
      | some cluster ↦ ok cluster
    ]

abbrev first_address : List TaskContainer → Option String
first_address [] = none
first_address (c ∷ _) = elim c.networks [
  | [] ↦ none
  | n ∷ _ ↦ elim n.ipv4_addresses [ [] ↦ none | ip ∷ _ ↦ some ip ]
]

-- The address of the first network of the first container, and localhost where there is none.
unfoldable pub node_ip : TaskMeta → String
node_ip e = elim (first_address e.containers) [ none ↦ "127.0.0.1" | some ip ↦ ip ]

unfoldable pub has_stopped : TaskContainer → Bool
has_stopped c = c.desired_status == status_stopped && c.known_status == status_stopped

-- The loop of `HasContainerStopped`, which breaks at the first container that still runs.
none_running : String → List TaskContainer → Bool
none_running name [] = true
none_running name (c ∷ cs) =
    let rest = none_running name cs in if c.name == name && not (has_stopped c) then false else rest

unfoldable pub has_container_stopped : TaskMeta → String → Bool
unfolding none_running
has_container_stopped e name = none_running name e.containers

unfoldable pub is_normal_type : TaskContainer → Bool
is_normal_type c = c.type == container_type_normal

-- `arn.ARN` of the AWS SDK, of which two fields are read.
pub record ArnFields : Type 0 where
  pub region : String
  pub account_id : String

-- `arn.Parse` belongs to the AWS SDK.
module _ (arn_parse : String → Result ArnFields) where
  unfoldable pub account_id : TaskMeta → Result String
  account_id e = elim (arn_parse e.task_arn) [
    | ok a ↦ ok a.account_id
    | err _ ↦ err (errorf ("unable to determine AWS account id from Task ARN: " <> e.task_arn))
  ]

  unfoldable pub region : TaskMeta → Result String
  region e = elim (arn_parse e.task_arn) [
    | ok a ↦ ok a.region
    | err _ ↦ err (errorf ("unable to determine AWS region from Task ARN: " <> e.task_arn))
  ]

-- The metadata endpoint, given the environment variable and the answer to the HTTP request.
unfoldable pub ecs_task_metadata : String → (String → Result TaskMeta) → Result TaskMeta
ecs_task_metadata metadata_uri http_get =
    if metadata_uri == ""
    then err (errorf (ecs_metadata_uri_env_var <> " env var not set"))
    else http_get (metadata_uri <> "/task")
