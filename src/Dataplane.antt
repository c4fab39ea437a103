-- ===== src/Dataplane.antt =====
-- internal/dataplane: the configuration with which consul-dataplane is started.
pub mod Encode
pub mod RoundTrip
use mathlib.Core.List.{[], ◌∷◌}
use consul_ecs.Base.{ℕ, String, Bool, true, false, Option, none, some, if◌then◌else◌}
use consul_ecs.Base.Dict.{Dict}
use consul_ecs.Config.Types.{
  ConsulServers, consul_dataplane_dns_bind_host, consul_dataplane_dns_bind_port,
}
use consul_ecs.Config.Settings.{LoginCredential, get_grpc_tls_settings}
use consul_ecs.Consul.{AgentService, CatalogRegistration}

abbrev pub localhost_addr : String
localhost_addr = "127.0.0.1"

-- `TLSConfig`
pub record TlsConfig : Type 0 where
  pub disabled : Bool
  pub grpc_ca_cert_path : String
  pub tls_server_name : String

-- `LoginCredentialsConfig`
pub record LoginConfig : Type 0 where
  pub auth_method : String
  pub namespace : String
  pub partition : String
  pub datacenter : String
  pub bearer_token : String
  pub meta : Dict String

-- `CredentialsConfig`
pub record CredentialsConfig : Type 0 where
  pub credential_type : String
  pub login : LoginConfig

pub record ConsulConfig : Type 0 where
  pub addresses : String
  pub grpc_port : ℕ
  pub skip_server_watch : Bool
  pub tls : Option TlsConfig
  pub credentials : Option CredentialsConfig

pub record ProxyConfig : Type 0 where
  pub node_name : String
  pub id : String
  pub namespace : String
  pub partition : String

-- `EnvoyConfig`
pub record EnvoyConfig : Type 0 where
  pub ready_bind_addr : String
  pub ready_bind_port : ℕ

-- `DNSServerConfig`
pub record DnsServerConfig : Type 0 where
  pub bind_address : String
  pub bind_port : ℕ

-- `DataplaneConfig`, with the one field of `XDSServerConfig` and of `LoggingConfig` in their place.
pub record DataplaneConfig : Type 0 where
  pub consul : ConsulConfig
  pub proxy : ProxyConfig
  pub xds_address : String
  pub envoy : EnvoyConfig
  pub log_level : String
  pub dns_server : Option DnsServerConfig

-- `GetDataplaneConfigJSONInput`, with the node and the service of the registration.
pub record DataplaneInput : Type 0 where
  pub node : String
  pub service : AgentService
  pub consul_server_config : ConsulServers
  pub login_credentials : Option LoginCredential
  pub ca_cert_file : String
  pub proxy_health_check_port : ℕ
  pub log_level : String
  pub consul_dns_enabled : Bool

-- TLS is disabled, unless the settings for gRPC enable it.
tls_config : DataplaneInput → TlsConfig
unfolding get_grpc_tls_settings
tls_config i =
    let settings = get_grpc_tls_settings i.consul_server_config in
    if settings.enabled
    then record {
      disabled = false;
      grpc_ca_cert_path = i.ca_cert_file;
      tls_server_name = settings.tls_server_name;
    }
    else record { disabled = true; grpc_ca_cert_path = ""; tls_server_name = "" }

unfoldable pub credentials_config : Option LoginCredential → Option CredentialsConfig
credentials_config none = none
credentials_config (some l) = some (record {
  credential_type = "login";
  login = record {
    auth_method = l.auth_method;
    namespace = l.namespace;
    partition = l.partition;
    datacenter = l.datacenter;
    bearer_token = l.bearer_token;
    meta = l.meta;
  };
})

unfoldable pub get_dataplane_config : DataplaneInput → DataplaneConfig
unfolding tls_config credentials_config
get_dataplane_config i = record {
  consul = record {
    addresses = i.consul_server_config.hosts;
    grpc_port = i.consul_server_config.grpc.port;
    skip_server_watch = i.consul_server_config.skip_server_watch;
    tls = some (tls_config i);
    credentials = credentials_config i.login_credentials;
  };
  proxy = record {
    node_name = i.node;
    id = i.service.id;
    namespace = i.service.namespace;
    partition = i.service.partition;
  };
  xds_address = localhost_addr;
  envoy = record { ready_bind_addr = localhost_addr; ready_bind_port = i.proxy_health_check_port };
  log_level = i.log_level;
  dns_server =
      if i.consul_dns_enabled
      then some (record {
        bind_address = consul_dataplane_dns_bind_host;
        bind_port = consul_dataplane_dns_bind_port;
      })
      else none;
}
