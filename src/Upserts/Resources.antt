-- ===== src/Upserts/Resources.antt =====
-- `upsertPartition`, `registerNode` and `upsertConsulResources`.
use consul_ecs.Base.{
  ◌<>◌, ◌==◌, not, ◌&&◌, false, String, List, [], ◌∷◌, ◌++◌, Option, none, some, Result, ok, err,
  Error, errorf, wrapf, contains, if◌then◌else◌,
}
use consul_ecs.Base.Dict.{Dict}
use consul_ecs.Consul.{CatalogRegistration}
use consul_ecs.Client.{
  Client, History, send, register, agent_self, partition_list, partition_create,
}
use consul_ecs.Consul.Acl.{AuthMethod}
use consul_ecs.Config.Types.{Config, synthetic_node}
use consul_ecs.Controller.Ecs.{default_partition}
use consul_ecs.Controller.Namespaces.{and_then}
use consul_ecs.Task.{TaskMeta, account_id, node_ip}
use consul_ecs.Upserts.Env.{
  Servers, AgentConfig, terminating_gateway_role_name, terminating_gateway_role_description,
  write_options, wrap_failure,
}
use consul_ecs.Upserts.Policies.{
  attempt, upsert_role, upsert_api_gateway_policy_and_role, upsert_mesh_gateway_policy_and_role,
}
use consul_ecs.Upserts.Methods.{service_auth_method, upsert_auth_method}
use consul_ecs.Upserts.Bindings.{binding_rules, upsert_binding_rules}
use consul_ecs.Upserts.Anonymous.{upsert_anonymous_token_policy}

-- `if err := m; err != nil { return err }`, once for each step.
unfoldable pub in_turn : List (History → Option Error × History) → History → Option Error × History
in_turn [] h = (none, h)
in_turn (step ∷ steps) h = and_then (step h) (in_turn steps)

unfoldable pub upsert_partition : Client → Config → History → Option Error × History
upsert_partition api c h =
    let h1 = h ++ partition_list ∷ [] in
    elim (api.partitions h) [
      | err e ↦ (some (wrapf "failed to list partitions" e), h1)
      | ok names ↦
          if contains names c.controller.partition
          then (none, h1)
          else attempt api ("failed to create partition " <> c.controller.partition)
              (partition_create c.controller.partition) h1
    ]

-- `getNodeMeta`
abbrev pub node_meta : Dict String
node_meta = (synthetic_node, "true") ∷ []

unfoldable pub node_registration : Config → TaskMeta → String → CatalogRegistration
unfolding node_ip
node_registration c task_meta cluster_arn = record {
  node = cluster_arn;
  node_meta = node_meta;
  address = node_ip task_meta;
  service = none;
  checks = [];
  partition = c.controller.partition;
  skip_node_update = false;
}

unfoldable pub register_node :
    Client → Config → TaskMeta → String → History → Option Error × History
unfolding write_options node_registration
register_node api c task_meta cluster_arn =
    send api (register (node_registration c task_meta cluster_arn) (some (write_options c)))

-- The partition that the configuration has once an empty one is replaced by the default one.
unfoldable pub with_default_partition : Config → Config
with_default_partition c =
    if c.controller.partitions_enabled && c.controller.partition == ""
    then record c { controller = record (c.controller) { partition = default_partition } }
    else c

module _ (s : Servers) where
  -- `consulClient.Agent().Self()`, and its answer decoded.
  unfoldable pub agent_config : History → Result AgentConfig
  agent_config h = elim (s.api.agent h) [
    | err e ↦ err (wrapf "failed to get Consul server agent's self config" e)
    | ok value ↦ elim (s.decode value) [
      | err e ↦ err (wrapf "failed to decode Consul server agent's self config" e)
      | ok a ↦ ok a
    ]
  ]

  -- The partition that the controller manages exists afterwards.
  unfoldable pub manage_partition : Config → History → Option Error × History
  unfolding upsert_partition
  manage_partition c h =
      if c.controller.partitions_enabled
      then upsert_partition s.api c h
      else if not (c.controller.partition == "")
      then (
        some (
            errorf
              "`config.controller.partition` provided without setting `config.controller.partitionEnabled = true`"),
        h,
      )
      else (none, h)

  unfoldable pub registered : Config → TaskMeta → String → History → Option Error × History
  unfolding register_node
  registered c task_meta cluster_arn h =
      let (e, h') = register_node s.api c task_meta cluster_arn h in
      (wrap_failure "registering ECS cluster as a node in Consul" e, h')

  -- From the policies on, with the configuration after the default partition is set.
  unfoldable pub upsert_steps :
      Config
      → AuthMethod
      → AgentConfig
      → TaskMeta
      → String
      → List (History → Option Error × History)
  unfolding upsert_api_gateway_policy_and_role upsert_mesh_gateway_policy_and_role upsert_role
      upsert_auth_method upsert_binding_rules binding_rules upsert_anonymous_token_policy registered
  upsert_steps c method a task_meta cluster_arn =
      upsert_api_gateway_policy_and_role s.api c
      ∷ upsert_mesh_gateway_policy_and_role s.api c
      ∷ upsert_role s.api c terminating_gateway_role_name "" terminating_gateway_role_description
      ∷ upsert_auth_method s.api c method
      ∷ upsert_binding_rules s.api c binding_rules
      ∷ upsert_anonymous_token_policy s.api c a
      ∷ registered c task_meta cluster_arn
      ∷ []

  -- The auth method is made before the partition is set.
  unfoldable pub upsert_consul_resources :
      Config → TaskMeta → String → History → Option Error × History
  unfolding account_id service_auth_method agent_config with_default_partition manage_partition
      in_turn upsert_steps
  upsert_consul_resources c task_meta cluster_arn h = elim (account_id s.arn_parse task_meta) [
    | err e ↦ (some e, h)
    | ok account ↦
        let h1 = h ++ agent_self ∷ [] in
        elim (agent_config h) [
          | err e ↦ (some e, h1)
          | ok a ↦
              let c' = with_default_partition c in
              and_then (manage_partition c' h1)
                (in_turn (upsert_steps c' (service_auth_method c account) a task_meta cluster_arn))
        ]
  ]
