-- ===== src/Controller/Acl.antt =====
-- `fetchACLState` of controller/resource.go: the ACL tokens of this cluster's tasks.
use consul_ecs.Base.{
  ◌==◌, ◌||◌, String, List, [], ◌∷◌, ◌++◌, none, some, Result, ok, err, errorf, if◌then◌else◌,
}
use consul_ecs.Base.Text.{replace_first}
use consul_ecs.Base.Dict.{Dict, lookup, insert}
use consul_ecs.Consul.{AclToken, Namespace, QueryOptions}
use consul_ecs.Client.{History, token_list, namespace_list}
use consul_ecs.Controller.Env.{
  TaskState, Lister, TokenMeta, Env, new_task_state, partitions_enabled,
}

unfoldable pub parse_token_description : Env → String → Result TokenMeta
unfolding replace_first
parse_token_description env d =
    elim (env.unmarshal (replace_first "token created via login:" "" d)) [
      | err e ↦ err e
      | ok meta ↦
          if meta.task_id == "" || meta.cluster == ""
          then err (errorf "task or cluster missing from token description")
          else ok meta
    ]

unfoldable pub task_state_from_token : Env → AclToken → Result TaskState
unfolding new_task_state
task_state_from_token env token = elim (parse_token_description env token.description) [
  | err e ↦ err e
  | ok meta ↦ ok (record (new_task_state meta.task_id meta.cluster) { acl_tokens = token ∷ [] })
]

-- A token joins those of its task.
unfoldable pub add_token : AclToken → TaskState → Dict TaskState → Dict TaskState
add_token token state acl_state = elim (lookup state.task_id acl_state) [
  | some found ↦
      insert state.task_id (record found { acl_tokens = found.acl_tokens ++ token ∷ [] }) acl_state
  | none ↦ insert state.task_id state acl_state
]

-- The loop over the tokens of one namespace: what is no login token of this cluster is ignored.
unfoldable pub add_tokens : Env → Lister → List AclToken → Dict TaskState → Dict TaskState
add_tokens env s [] acl_state = acl_state
add_tokens env s (token ∷ tokens) acl_state =
    add_tokens env s tokens (elim (task_state_from_token env token) [
      | err _ ↦ acl_state
      | ok state ↦
          if s.cluster_arn == state.cluster_arn then add_token token state acl_state else acl_state
    ])

-- The loop over the namespaces.
unfoldable pub list_tokens :
    Env → Lister → List Namespace → Dict TaskState → History → Result (Dict TaskState) × History
list_tokens env s [] acl_state h = (ok acl_state, h)
list_tokens env s (ns ∷ nss) acl_state h =
    let opts : QueryOptions = record {
      namespace = ns.name;
      partition = s.partition;
      filter = "";
    } in
    elim (env.api.tokens h opts) [
      | err e ↦ (err e, h ++ token_list opts ∷ [])
      | ok tokens ↦
          list_tokens env s nss (add_tokens env s tokens acl_state) (h ++ token_list opts ∷ [])
    ]

-- With partitions the namespaces are listed, else the empty name stands for the default one.
unfoldable pub fetch_acl_state : Env → Lister → History → Result (Dict TaskState) × History
unfolding partitions_enabled
fetch_acl_state env s h =
    let opts : QueryOptions = record { namespace = ""; partition = s.partition; filter = "" } in
    if partitions_enabled s.partition
    then elim (env.api.namespaces h opts) [
      | err e ↦ (err e, h ++ namespace_list opts ∷ [])
      | ok nss ↦ list_tokens env s nss [] (h ++ namespace_list opts ∷ [])
    ]
    else list_tokens env s (record { name = ""; policy_defaults = none } ∷ []) [] h
