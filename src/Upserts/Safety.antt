-- ===== src/Upserts/Safety.antt =====
-- The calls that `upsertConsulResources` may make.
use mathlib.Core.Path.{subst}
use consul_ecs.Base.{
  ◌≡◌, ap, ◌&&◌, some, arith, if◌then◌else◌, refl, ◌==◌, not, String, [], ◌∷◌, ◌++◌, All, inl, inr,
  Result-cases,
}
use consul_ecs.Consul.Acl.{AuthMethod}
use consul_ecs.Client.{agent_self, History, Extends, Extends-refl, Extends-one, Extends-trans}
use consul_ecs.Config.Types.{Config}
use consul_ecs.Task.{TaskMeta, account_id}
use consul_ecs.Upserts.Env.{
  Servers, AgentConfig, api_gateway_policy_name, api_gateway_policy_description,
  api_gateway_role_name, api_gateway_role_description, mesh_gateway_policy_name,
  mesh_gateway_policy_description, mesh_gateway_role_name, mesh_gateway_role_description,
  terminating_gateway_role_name, terminating_gateway_role_description,
}
use consul_ecs.Upserts.Policies.{
  upsert_consul_policy, upsert_role, upsert_api_gateway_policy_and_role,
  upsert_mesh_gateway_policy_and_role,
}
use consul_ecs.Upserts.Methods.{service_auth_method}
use consul_ecs.Upserts.Bindings.{binding_rules}
use consul_ecs.Upserts.Resources.{
  in_turn, upsert_partition, node_registration, register_node, registered, with_default_partition,
  agent_config, manage_partition, upsert_steps, upsert_consul_resources,
}
use consul_ecs.Upserts.Writes.{
  IsUpsertIn, write_options-scope, IsUpsert, Upserts, and_then-Upserts, in_turn-Upserts, if-Upserts,
}
use consul_ecs.Upserts.Steps.{
  upsert_consul_policy-Upserts, upsert_role-Upserts, upsert_partition-Upserts,
  upsert_auth_method-Upserts, upsert_binding_rules-Upserts, upsert_anonymous_token_policy-Upserts,
}

module _ (c : Config) (s : Servers) where
  registered-Upserts :
      (task_meta : TaskMeta) (cluster_arn : String)
      → Upserts c s.api (registered s c task_meta cluster_arn)
  unfolding registered register_node node_registration
  registered-Upserts task_meta cluster_arn h =
      Extends-one (IsUpsert c s.api) h _ (ap some (write_options-scope c), refl)

  manage_partition-Upserts : Upserts c s.api (manage_partition s c)
  unfolding manage_partition
  manage_partition-Upserts h =
      if-Upserts c s.api c.controller.partitions_enabled (upsert_partition s.api c h) _ h
        (λ on. upsert_partition-Upserts c s.api on h)
        (λ _.
          if-Upserts c s.api (not (c.controller.partition == "")) _ _ h
            (λ _. Extends-refl (IsUpsert c s.api) h) (λ _. Extends-refl (IsUpsert c s.api) h))

  gateway_roles-Upserts :
      Upserts c s.api (upsert_api_gateway_policy_and_role s.api c)
      × Upserts c s.api (upsert_mesh_gateway_policy_and_role s.api c)
  unfolding upsert_api_gateway_policy_and_role upsert_mesh_gateway_policy_and_role
  gateway_roles-Upserts = (
    and_then-Upserts c s.api
        (upsert_consul_policy s.api c api_gateway_policy_name api_gateway_policy_description)
        (upsert_role s.api c api_gateway_role_name api_gateway_policy_name
          api_gateway_role_description)
        (upsert_consul_policy-Upserts c s.api api_gateway_policy_name
          api_gateway_policy_description)
        (upsert_role-Upserts c s.api api_gateway_role_name api_gateway_policy_name
          api_gateway_role_description),
    and_then-Upserts c s.api
        (upsert_consul_policy s.api c mesh_gateway_policy_name mesh_gateway_policy_description)
        (upsert_role s.api c mesh_gateway_role_name mesh_gateway_policy_name
          mesh_gateway_role_description)
        (upsert_consul_policy-Upserts c s.api mesh_gateway_policy_name
          mesh_gateway_policy_description)
        (upsert_role-Upserts c s.api mesh_gateway_role_name mesh_gateway_policy_name
          mesh_gateway_role_description),
  )

  upsert_steps-Upserts :
      (method : AuthMethod) (a : AgentConfig) (task_meta : TaskMeta) (cluster_arn : String)
      → All (Upserts c s.api) (upsert_steps s c method a task_meta cluster_arn)
  unfolding upsert_steps
  upsert_steps-Upserts method a task_meta cluster_arn = (
    gateway_roles-Upserts.0,
    (
      gateway_roles-Upserts.1,
      (
        upsert_role-Upserts c s.api terminating_gateway_role_name ""
            terminating_gateway_role_description,
        (
          upsert_auth_method-Upserts c s.api method,
          (
            upsert_binding_rules-Upserts c s.api binding_rules,
            (
              upsert_anonymous_token_policy-Upserts c s.api a,
              (registered-Upserts task_meta cluster_arn, tt),
            ),
          ),
        ),
      ),
    ),
  )

-- The partition of the controller: the default one where partitions are enabled and none is named.
abbrev pub partition_of : Config → String
partition_of c =
    if c.controller.partitions_enabled && c.controller.partition == ""
    then "default"
    else c.controller.partition

with_default_partition-partition :
    (c : Config)
    → ((with_default_partition c).controller.partitions_enabled ≡ c.controller.partitions_enabled)
      × ((with_default_partition c).controller.partition ≡ partition_of c)
unfolding with_default_partition
with_default_partition-partition c = ground arith

upsert_consul_resources-Upserts :
    (s : Servers) (c : Config) (task_meta : TaskMeta) (cluster_arn : String) (h : History)
    → Extends
        (IsUpsert (with_default_partition c) s.api)
        h
        (upsert_consul_resources s c task_meta cluster_arn h).1
unfolding upsert_consul_resources
upsert_consul_resources-Upserts s c task_meta cluster_arn h =
    let c' = with_default_partition c in
    let h1 = h ++ agent_self ∷ [] in
    let steps = λ (account : String) (a : AgentConfig).
      upsert_steps s c' (service_auth_method c account) a task_meta cluster_arn in
    let asked = Extends-one (IsUpsert c' s.api) h agent_self tt in
    elim (Result-cases (account_id s.arn_parse task_meta)) [
      | inl (e, x) ↦ rw (x, upsert_consul_resources) (Extends-refl (IsUpsert c' s.api) h)
      | inr (account, x) ↦ elim (Result-cases (agent_config s h)) [
        | inl (e, y) ↦ rw (x, y, upsert_consul_resources) asked
        | inr (a, y) ↦
            rw (x, y, upsert_consul_resources)
              (Extends-trans (IsUpsert c' s.api) h h1 _ asked (
                and_then-Upserts c' s.api (manage_partition s c') (in_turn (steps account a))
                  (manage_partition-Upserts c' s)
                  (in_turn-Upserts c' s.api (steps account a) (
                    upsert_steps-Upserts c' s (service_auth_method c account) a task_meta
                      cluster_arn))
                  h1))
      ]
    ]

-- Whatever Consul answers, `upsertConsulResources` only reads and upserts: it deletes nothing and
-- touches no namespace, creates a partition only where partitions are enabled and only its own, and
-- writes for its own partition, with empty options where partitions are not enabled. Only the
-- anonymous token, as Consul has answered it with one policy more, and the policy of its name are
-- written for the default namespace and partition. The controller's own partition is the default
-- one where they are enabled and none is configured.
pub upsert_consul_resources_upserts :
    (s : Servers) (c : Config) (task_meta : TaskMeta) (cluster_arn : String) (h : History)
    → Extends
        (IsUpsertIn s.api c.controller.partitions_enabled (partition_of c))
        h
        (upsert_consul_resources s c task_meta cluster_arn h).1
upsert_consul_resources_upserts s c task_meta cluster_arn h =
    let c' = with_default_partition c in
    let h' = (upsert_consul_resources s c task_meta cluster_arn h).1 in
    let (same, own) = with_default_partition-partition c in
    subst (λ p. Extends (IsUpsertIn s.api c.controller.partitions_enabled p) h h') own
      (subst (λ b. Extends (IsUpsertIn s.api b c'.controller.partition) h h') same
        (upsert_consul_resources-Upserts s c task_meta cluster_arn h))
