-- ===== src/Tests/Controller.antt =====
-- Tests and examples for the controller: task 7 runs, task 8 is gone.
use consul_ecs.Base.{
  ◌≡◌, ◌≢◌, ◌↔◌, refl, true, false, String, List, [], ◌∷◌, ◌++◌, All, Option, none, some, ok, Error,
  errorf, wrapf, arith,
}
use consul_ecs.Base.Dict.{Dict, lookup, Entries}
use consul_ecs.Consul.{AgentService, AclToken}
use consul_ecs.Client.{Call, History, NoneFails, token_list, node_service_list, deregister}
use consul_ecs.Controller.Env
use consul_ecs.Controller.Ecs
use consul_ecs.Controller.Acl
use consul_ecs.Controller.Services
use consul_ecs.Controller.Lister
use consul_ecs.Controller.Reconcile
use consul_ecs.Controller.Namespaces
use consul_ecs.Controller.Pass
use consul_ecs.Base.Dict
use consul_ecs.Controller.Env.{TaskState, Lister, TokenMeta, EcsTask, TaskPage, Env}
use consul_ecs.Controller.Lister.{list_from}
use consul_ecs.Controller.Reconcile.{
  token_deletion, delete_tokens, service_deregistration, reconcile,
}
use consul_ecs.Controller.Pass.{reconcile_each, reconcile_all}
use consul_ecs.Controller.Safety.{IsListed, list_from-IsListed}
use consul_ecs.Controller.Returns.{reconcile_all_returns}
use consul_ecs.Controller.Deletion.{reconcile_absent}
use consul_ecs.Controller.Found.{IsAmong, list_from-services}
use consul_ecs.Controller.Services.{get_task_id_from_service_meta}
use consul_ecs.Controller.Complete.{Occurs, reconcile_each-removes}
use consul_ecs.Controller.LastError.{reconcile_each_last}
use consul_ecs.Tests.Samples.{client, append}

abbrev cluster : String
cluster = "arn:aws:ecs:us-east-1:1:cluster/c"

abbrev lister : Lister
lister = record { cluster_arn = cluster; partition = "" }

abbrev token : String → AclToken
token id = record { accessor_id = id; description = id; namespace = ""; partition = "" }

abbrev service : String → String → AgentService
service id task = record {
  kind = "";
  id = id;
  service = "web";
  tags = [];
  meta = ("task-id", task) ∷ [];
  port = 80;
  address = "";
  tagged_addresses = [];
  weights = record { passing = 1; warning = 1 };
  enable_tag_override = false;
  proxy = none;
  namespace = "";
  partition = "";
  locality = none;
}

abbrev running_task : EcsTask
running_task = record {
  task_arn = some "arn:aws:ecs:us-east-1:1:task/c/7";
  cluster_arn = some cluster;
  tags = record { key = some "consul.hashicorp.com/mesh"; value = some "true" } ∷ [];
}

-- Services cannot be deregistered.
abbrev failing : History → Call → Option Error
failing h (deregister _ _) = some (errorf "refused")
failing h _ = none

-- The description of a token is the ID of its task.
abbrev pub env : Env
env = record {
  api = record client {
    failure = failing;
    tokens = λ h o. ok (token "7" ∷ token "8" ∷ []);
    services = λ h node o. ok (service "web-7" "7" ∷ service "web-8" "8" ∷ []);
  };
  setup = λ h. none;
  list_tasks = λ round t.
      ok (record { task_arns = "arn:aws:ecs:us-east-1:1:task/c/7" ∷ []; next_token = none });
  describe_tasks = λ round arns. ok (running_task ∷ []);
  unmarshal = λ d. ok (record { task_id = d; cluster = cluster });
  append = append;
}

abbrev gone : TaskState
gone = record {
  task_id = "8";
  cluster_arn = cluster;
  partition = "";
  ns = "";
  ecs_task_found = false;
  acl_tokens = token "8" ∷ [];
  services = service "web-8" "8" ∷ [];
}

abbrev present : TaskState
present = record {
  task_id = "7";
  cluster_arn = cluster;
  partition = "";
  ns = "";
  ecs_task_found = true;
  acl_tokens = [];
  services = [];
}

abbrev removals : History
removals =
    token_list (record { namespace = ""; partition = ""; filter = "" })
    ∷ node_service_list cluster (record { namespace = ""; partition = ""; filter = "" })
    ∷ token_deletion (token "8")
    ∷ service_deregistration cluster (service "web-8" "8")
    ∷ []

abbrev listed : List TaskState
listed =
    record present { acl_tokens = token "7" ∷ []; services = service "web-7" "7" ∷ [] } ∷ gone ∷ []

listed_example : All (λ r. IsListed env lister (("7", present) ∷ []) r.task_id r) listed
unfolding list_from Acl.fetch_acl_state Acl.list_tokens Services.fetch_service_state_for_tasks
    Services.add_services Services.get_task_id_from_service_meta lookup Lister.merge_services
    Lister.merge_tokens Services.add_service Dict.insert Acl.add_tokens Acl.add_token
    Acl.parse_token_description Acl.task_state_from_token Env.new_task_state Env.partitions_enabled
listed_example =
    list_from-IsListed env lister (("7", present) ∷ []) [] {resources = listed}
      ((refl, refl, refl, refl, refl), tt) refl

returns_pass_example : reconcile_all env lister 1 [] ≢ none
returns_pass_example = reconcile_all_returns env lister 0 [] (λ round t page late e. ground arith)

absent_example :
    ((reconcile env gone []).1
      ≡ (delete_tokens env.api (token "8" ∷ []) []).1
        ++ service_deregistration cluster (service "web-8" "8") ∷ [])
    × (NoneFails env.api [] (token_deletion (token "8") ∷ [])
        → (reconcile env gone []).1
          ≡ token_deletion (token "8") ∷ service_deregistration cluster (service "web-8" "8") ∷ [])
    × (((reconcile env gone []).0 ≡ none) ↔ NoneFails env.api [] (token_deletion (token "8") ∷ []))
absent_example = reconcile_absent env gone [] refl refl

abbrev in_team : TaskState
in_team = record present { partition = "default"; ns = "team" }

-- No client can be set up.
abbrev cut_off : Env
cut_off = record env { setup = λ h. some (errorf "no client") }

last_error_example :
    (reconcile_each cut_off (gone ∷ gone ∷ []) (some (errorf "namespaces")) []).0
    ≡ some (wrapf "and" (wrapf "reconciling resource" (errorf "no client")))
unfolding reconcile
last_error_example =
    reconcile_each_last cut_off (gone ∷ []) gone (some (errorf "namespaces")) []
      (errorf "no client") refl

each_removed_example :
    All
      (λ r.
        r.ecs_task_found ≡ false
        → All
            (λ s.
              Occurs
                (service_deregistration r.cluster_arn s)
                (reconcile_each env (present ∷ gone ∷ []) none []).1)
            r.services)
      (present ∷ gone ∷ [])
each_removed_example = reconcile_each-removes env (present ∷ gone ∷ []) none [] (λ k. refl)

services_example :
    All
      (λ svc.
        (id : String)
        → get_task_id_from_service_meta svc ≡ ok id
        → (r : TaskState) × (before : List TaskState) × (after : List TaskState) × (listed
            ≡ before ++ r ∷ after)
          × IsAmong svc r.services)
      (service "web-7" "7" ∷ service "web-8" "8" ∷ [])
unfolding list_from Acl.fetch_acl_state Acl.list_tokens Services.fetch_service_state_for_tasks
    Services.add_services Services.get_task_id_from_service_meta lookup Lister.merge_services
    Lister.merge_tokens Services.add_service Dict.insert Acl.add_tokens Acl.add_token
    Acl.parse_token_description Acl.task_state_from_token Env.new_task_state Env.partitions_enabled
services_example =
    list_from-services env lister (("7", present) ∷ []) [] listed
      (service "web-7" "7" ∷ service "web-8" "8" ∷ []) refl refl
