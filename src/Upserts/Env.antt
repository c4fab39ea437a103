-- ===== src/Upserts/Env.antt =====
-- The constants and the types of subcommand/controller/command.go.
use consul_ecs.Base.{String, Option, none, some, Result, Error, if◌then◌else◌}
use consul_ecs.Base.Json.{Json}
use consul_ecs.Consul.{QueryOptions, WriteOptions}
use consul_ecs.Client.{Client}
use consul_ecs.Task.{ArnFields}
use consul_ecs.Config.Types.{Config}

abbrev pub auth_method_service_name_tag : String
auth_method_service_name_tag = "consul.hashicorp.com.service-name"

abbrev pub auth_method_namespace_tag : String
auth_method_namespace_tag = "consul.hashicorp.com.namespace"

abbrev pub auth_method_gateway_kind_tag : String
auth_method_gateway_kind_tag = "consul.hashicorp.com.gateway-kind"

abbrev pub anon_token_id : String
anon_token_id = "00000000-0000-0000-0000-000000000002"

abbrev pub anon_policy_name : String
anon_policy_name = "anonymous-token-policy"

abbrev pub anon_policy_desc : String
anon_policy_desc = "Anonymous token Policy"

abbrev pub api_gateway_role_name : String
api_gateway_role_name = "consul-ecs-api-gateway-role"

abbrev pub api_gateway_policy_name : String
api_gateway_policy_name = "consul-ecs-api-gateway-policy"

abbrev pub api_gateway_role_description : String
api_gateway_role_description = "API Gateway Role for ECS"

abbrev pub api_gateway_policy_description : String
api_gateway_policy_description = "API Gateway token Policy"

abbrev pub terminating_gateway_role_name : String
terminating_gateway_role_name = "consul-ecs-terminating-gateway-role"

abbrev pub terminating_gateway_role_description : String
terminating_gateway_role_description = "Terminating Gateway Role for ECS"

abbrev pub mesh_gateway_role_name : String
mesh_gateway_role_name = "consul-ecs-mesh-gateway-role"

abbrev pub mesh_gateway_role_description : String
mesh_gateway_role_description = "Mesh Gateway Role for ECS"

abbrev pub mesh_gateway_policy_name : String
mesh_gateway_policy_name = "consul-ecs-mesh-gateway-policy"

abbrev pub mesh_gateway_policy_description : String
mesh_gateway_policy_description = "Mesh Gateway token Policy"

-- `AgentConfig`, with `Config` for its two parts.
pub record Datacenters : Type 0 where
  pub datacenter : String
  pub primary_datacenter : String

pub record AgentConfig : Type 0 where
  pub config : Datacenters
  pub debug_config : Datacenters

-- Consul, and two functions of other packages: `arn.Parse`, and `mapstructure.Decode` into an
-- `AgentConfig`.
pub record Servers : Type 0 where
  pub api : Client
  pub arn_parse : String → Result ArnFields
  pub decode : Json → Result AgentConfig

-- `queryOptions`; nil options are empty ones.
unfoldable pub query_options : Config → QueryOptions
query_options c = record {
  namespace = "";
  partition = if c.controller.partitions_enabled then c.controller.partition else "";
  filter = "";
}

-- `writeOptions`
unfoldable pub write_options : Config → WriteOptions
write_options c = record {
  namespace = "";
  partition = if c.controller.partitions_enabled then c.controller.partition else "";
}

-- `if err != nil { return fmt.Errorf("...: %w", err) }`, where nothing follows.
abbrev pub wrap_failure : String → Option Error → Option Error
wrap_failure s none = none
wrap_failure s (some e) = some (Error.wrapf s e)
