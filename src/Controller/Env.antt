-- ===== src/Controller/Env.antt =====
-- The types of controller/resource.go, and what the controller takes from other packages.
use consul_ecs.Base.{ℕ, ◌==◌, not, String, Bool, false, List, [], Option, Result, Error, Append}
use consul_ecs.Consul.{AclToken, AgentService}
use consul_ecs.Client.{Client, History}

-- `TaskState`, without the logger and the function that sets up a client.
pub record TaskState : Type 0 where
  pub task_id : String
  pub cluster_arn : String
  pub partition : String
  pub ns : String
  pub ecs_task_found : Bool
  pub acl_tokens : List AclToken
  pub services : List AgentService

-- `TaskStateLister`, its settings.
pub record Lister : Type 0 where
  pub cluster_arn : String
  pub partition : String

-- `tokenMeta`
pub record TokenMeta : Type 0 where
  pub task_id : String
  pub cluster : String

-- `types.Tag` and `types.Task` of the ECS SDK.
pub record Tag : Type 0 where
  pub key : Option String
  pub value : Option String

pub record EcsTask : Type 0 where
  pub task_arn : Option String
  pub cluster_arn : Option String
  pub tags : List Tag

-- One answer of `ListTasks`.
pub record TaskPage : Type 0 where
  pub task_arns : List String
  pub next_token : Option String

-- Consul, ECS, the set-up of a Consul client (an error or none), `json.Unmarshal` into a
-- `tokenMeta`, and `multierror.Append`. ECS answers by the number of the round too.
pub record Env : Type 0 where
  pub api : Client
  pub setup : History → Option Error
  pub list_tasks : ℕ → Option String → Result TaskPage
  pub describe_tasks : ℕ → List String → Result (List EcsTask)
  pub unmarshal : String → Result TokenMeta
  pub append : Append

-- `newTaskState`
unfoldable pub new_task_state : String → String → TaskState
new_task_state task_id cluster_arn = record {
  task_id = task_id;
  cluster_arn = cluster_arn;
  partition = "";
  ns = "";
  ecs_task_found = false;
  acl_tokens = [];
  services = [];
}

unfoldable pub partitions_enabled : String → Bool
partitions_enabled p = not (p == "")
