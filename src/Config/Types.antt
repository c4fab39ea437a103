-- ===== src/Config/Types.antt =====
-- The structs of config/types.go. A pointer is an `Option`, and an `interface{}` a JSON value.
use consul_ecs.Base.{ℕ, ◌*◌, String, Bool, List, Option}
use consul_ecs.Base.Dict.{Dict}
use consul_ecs.Base.Json.{Json}

pub record ConsulLogin : Type 0 where
  pub enabled : Bool
  pub method : String
  pub include_entity : Bool
  pub meta : Dict String
  pub region : String
  pub datacenter : String
  pub sts_endpoint : String
  pub server_id_header_value : String
  pub access_key_id : String
  pub secret_access_key : String

pub record DefaultSettings : Type 0 where
  pub ca_cert_file : String
  pub enable_tls : Bool
  pub tls_server_name : String

pub record GrpcSettings : Type 0 where
  pub port : ℕ
  pub ca_cert_file : String
  pub enable_tls : Option Bool
  pub tls_server_name : String

pub record HttpSettings : Type 0 where
  pub port : ℕ
  pub enable_https : Bool
  pub ca_cert_file : String
  pub enable_tls : Option Bool
  pub tls_server_name : String

pub record ConsulServers : Type 0 where
  pub hosts : String
  pub skip_server_watch : Bool
  pub defaults : DefaultSettings
  pub grpc : GrpcSettings
  pub http : HttpSettings

pub record Controller : Type 0 where
  pub iam_role_path : String
  pub partitions_enabled : Bool
  pub partition : String

pub record AgentWeights : Type 0 where
  pub passing : ℕ
  pub warning : ℕ

-- `Interval` is in nanoseconds, as `time.Duration` counts them.
pub record OutlierDetectionConfig : Type 0 where
  pub interval : ℕ
  pub max_failures : ℕ
  pub enforcing_consecutive5xx : Option ℕ
  pub max_ejection_percent : Option ℕ

pub record NetworkPartitionResilienceConfig : Type 0 where
  pub enabled : Bool
  pub outlier_detection : Option OutlierDetectionConfig

pub record ServiceRegistration : Type 0 where
  pub name : String
  pub tags : List String
  pub port : ℕ
  pub enable_tag_override : Bool
  pub meta : Dict String
  pub weights : Option AgentWeights
  pub namespace : String
  pub partition : String
  pub network_partition_resilience : Option NetworkPartitionResilienceConfig

pub record MeshGatewayConfig : Type 0 where
  pub mode : String

pub record Upstream : Type 0 where
  pub destination_type : String
  pub destination_namespace : String
  pub destination_partition : String
  pub destination_name : String
  pub destination_peer : String
  pub datacenter : String
  pub local_bind_address : String
  pub local_bind_port : ℕ
  pub config : Dict Json
  pub mesh_gateway : Option MeshGatewayConfig

pub record ExposePath : Type 0 where
  pub listener_port : ℕ
  pub path : String
  pub local_path_port : ℕ
  pub protocol : String

pub record ExposeConfig : Type 0 where
  pub checks : Bool
  pub paths : List ExposePath

-- `AgentServiceConnectProxyConfig`
pub record ConnectProxyConfig : Type 0 where
  pub config : Dict Json
  pub local_service_address : String
  pub public_listener_port : ℕ
  pub health_check_port : ℕ
  pub upstreams : List Upstream
  pub mesh_gateway : Option MeshGatewayConfig
  pub expose : Option ExposeConfig

pub record GatewayProxyConfig : Type 0 where
  pub config : Dict Json

pub record GatewayAddress : Type 0 where
  pub address : String
  pub port : ℕ

pub record GatewayRegistration : Type 0 where
  pub kind : String
  pub lan_address : Option GatewayAddress
  pub wan_address : Option GatewayAddress
  pub name : String
  pub tags : List String
  pub meta : Dict String
  pub namespace : String
  pub partition : String
  pub proxy : Option GatewayProxyConfig
  pub health_check_port : ℕ

pub record ConsulDns : Type 0 where
  pub enabled : Bool

pub record TransparentProxyConfig : Type 0 where
  pub enabled : Bool
  pub exclude_inbound_ports : List ℕ
  pub exclude_outbound_ports : List ℕ
  pub exclude_outbound_cidrs : List String
  pub exclude_uids : List String
  pub consul_dns : ConsulDns

pub record Config : Type 0 where
  pub bootstrap_dir : String
  pub consul_login : ConsulLogin
  pub health_sync_containers : List String
  pub log_level : String
  pub proxy : Option ConnectProxyConfig
  pub gateway : Option GatewayRegistration
  pub service : ServiceRegistration
  pub consul_servers : ConsulServers
  pub controller : Controller
  pub transparent_proxy : TransparentProxyConfig

-- The constants of config/types.go and config/config.go.
abbrev pub consul_dataplane_container_name : String
consul_dataplane_container_name = "consul-dataplane"

abbrev pub service_token_filename : String
service_token_filename = "service-token"

abbrev pub default_auth_method_name : String
default_auth_method_name = "iam-ecs-service-token"

abbrev pub default_gateway_port : ℕ
default_gateway_port = 8443

abbrev pub default_public_listener_port : ℕ
default_public_listener_port = 20000

abbrev pub default_proxy_health_check_port : ℕ
default_proxy_health_check_port = 22000

abbrev pub tagged_address_lan : String
tagged_address_lan = "lan"

abbrev pub tagged_address_wan : String
tagged_address_wan = "wan"

abbrev pub synthetic_node : String
synthetic_node = "synthetic-node"

abbrev pub default_grpc_port : ℕ
default_grpc_port = 8503

abbrev pub default_http_port : ℕ
default_http_port = 8501

abbrev pub default_iam_role_path : String
default_iam_role_path = "/consul-ecs/"

abbrev pub consul_dataplane_dns_bind_host : String
consul_dataplane_dns_bind_host = "127.0.0.1"

abbrev pub consul_dataplane_dns_bind_port : ℕ
consul_dataplane_dns_bind_port = 8600

abbrev pub default_outlier_detection_interval : ℕ
default_outlier_detection_interval = 10 * 1000000000

abbrev pub default_outlier_detection_max_failures : ℕ
default_outlier_detection_max_failures = 5

abbrev pub default_outlier_detection_enforcing_consecutive5xx : ℕ
default_outlier_detection_enforcing_consecutive5xx = 100

abbrev pub default_outlier_detection_max_ejection_percent : ℕ
default_outlier_detection_max_ejection_percent = 50
