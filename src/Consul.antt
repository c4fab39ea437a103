-- ===== src/Consul.antt =====
-- The structs of Consul's API package, with the fields that the program sets or reads. A nil slice
-- or map is an empty one, and a nil pointer is `none`.
pub mod Acl
use consul_ecs.Base.{ℕ, String, Bool, List, Option}
use consul_ecs.Base.Dict.{Dict}
use consul_ecs.Base.Json.{Json}

-- `api.HealthCritical`, `api.HealthPassing`
abbrev pub health_critical : String
health_critical = "critical"

abbrev pub health_passing : String
health_passing = "passing"

-- The values of `api.ServiceKind` that the code names.
abbrev pub kind_typical : String
kind_typical = ""

abbrev pub kind_connect_proxy : String
kind_connect_proxy = "connect-proxy"

abbrev pub kind_mesh_gateway : String
kind_mesh_gateway = "mesh-gateway"

-- `api.ProxyModeTransparent`
abbrev pub proxy_mode_transparent : String
proxy_mode_transparent = "transparent"

pub record ServiceAddress : Type 0 where
  pub address : String
  pub port : ℕ

-- `api.AgentWeights`
pub record Weights : Type 0 where
  pub passing : ℕ
  pub warning : ℕ

-- `api.MeshGatewayConfig`
pub record GatewayMode : Type 0 where
  pub mode : String

-- `api.ExposePath`
pub record ExposedPath : Type 0 where
  pub listener_port : ℕ
  pub path : String
  pub local_path_port : ℕ
  pub protocol : String

-- `api.ExposeConfig`
pub record Exposed : Type 0 where
  pub checks : Bool
  pub paths : List ExposedPath

-- `api.Upstream`
pub record ProxyUpstream : Type 0 where
  pub destination_type : String
  pub destination_namespace : String
  pub destination_partition : String
  pub destination_name : String
  pub destination_peer : String
  pub datacenter : String
  pub local_bind_address : String
  pub local_bind_port : ℕ
  pub config : Dict Json
  pub mesh_gateway : GatewayMode

-- `api.TransparentProxyConfig`
pub record TransparentProxy : Type 0 where
  pub outbound_listener_port : ℕ

-- `api.AgentServiceConnectProxyConfig`
pub record ConnectProxy : Type 0 where
  pub destination_service_name : String
  pub destination_service_id : String
  pub local_service_address : String
  pub local_service_port : ℕ
  pub mode : String
  pub transparent_proxy : Option TransparentProxy
  pub config : Dict Json
  pub upstreams : List ProxyUpstream
  pub mesh_gateway : GatewayMode
  pub expose : Exposed

-- `api.Locality`
pub record Locality : Type 0 where
  pub region : String
  pub zone : String

-- `api.AgentService`
pub record AgentService : Type 0 where
  pub kind : String
  pub id : String
  pub service : String
  pub tags : List String
  pub meta : Dict String
  pub port : ℕ
  pub address : String
  pub tagged_addresses : Dict ServiceAddress
  pub weights : Weights
  pub enable_tag_override : Bool
  pub proxy : Option ConnectProxy
  pub namespace : String
  pub partition : String
  pub locality : Option Locality

-- `api.HealthCheck`
pub record HealthCheck : Type 0 where
  pub check_id : String
  pub name : String
  pub type : String
  pub service_id : String
  pub namespace : String
  pub status : String
  pub output : String
  pub notes : String

-- `api.CatalogRegistration`
pub record CatalogRegistration : Type 0 where
  pub node : String
  pub node_meta : Dict String
  pub address : String
  pub service : Option AgentService
  pub checks : List HealthCheck
  pub partition : String
  pub skip_node_update : Bool

-- `api.CatalogDeregistration`
pub record CatalogDeregistration : Type 0 where
  pub node : String
  pub service_id : String
  pub namespace : String
  pub partition : String

-- `api.QueryOptions`
pub record QueryOptions : Type 0 where
  pub namespace : String
  pub partition : String
  pub filter : String

-- `api.WriteOptions`
pub record WriteOptions : Type 0 where
  pub namespace : String
  pub partition : String

-- `api.ACLTokenListEntry`
pub record AclToken : Type 0 where
  pub accessor_id : String
  pub description : String
  pub namespace : String
  pub partition : String

-- `api.Namespace`; `none` where its `ACLs` is nil, else the names of `ACLs.PolicyDefaults`.
pub record Namespace : Type 0 where
  pub name : String
  pub policy_defaults : Option (List String)

-- `api.ACLPolicy`
pub record AclPolicy : Type 0 where
  pub name : String
  pub description : String
  pub rules : String
  pub namespace : String
  pub partition : String

-- `api.PassiveHealthCheck`
pub record PassiveHealthCheck : Type 0 where
  pub interval : ℕ
  pub max_failures : ℕ
  pub enforcing_consecutive5xx : Option ℕ
  pub max_ejection_percent : Option ℕ

-- `api.UpstreamConfig`; `other` stands for the fields that the code passes on as they are.
pub record UpstreamConfig : Type 0 where
  pub passive_health_check : Option PassiveHealthCheck
  pub other : Json

-- `api.UpstreamConfiguration`
pub record UpstreamConfiguration : Type 0 where
  pub defaults : Option UpstreamConfig
  pub overrides : Json

-- `api.ServiceConfigEntry`; `other` stands for the fields that the code passes on as they are.
pub record ServiceConfigEntry : Type 0 where
  pub kind : String
  pub name : String
  pub partition : String
  pub namespace : String
  pub upstream_config : Option UpstreamConfiguration
  pub other : Json
