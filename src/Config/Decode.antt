-- ===== src/Config/Decode.antt =====
-- The `UnmarshalJSON` methods of config/types.go. A raw record holds the keys of the JSON object
-- that the method treats apart as options, `none` where the key is absent or null; the fields that
-- `encoding/json` fills in by itself keep their types.
use consul_ecs.Base.{ℕ, ◌==◌, String, Bool, true, List, Option, none, some, if◌then◌else◌}
use consul_ecs.Base.Dict.{Dict}
use consul_ecs.Config.Types.{
  ConsulLogin, ConsulServers, DefaultSettings, GrpcSettings, HttpSettings, Controller,
  TransparentProxyConfig, ConsulDns, default_grpc_port, default_http_port, default_iam_role_path,
}

pub record RawConsulLogin : Type 0 where
  pub enabled : Bool
  pub method : String
  pub include_entity : Option Bool
  pub meta : Dict String
  pub region : String
  pub datacenter : String
  pub sts_endpoint : String
  pub server_id_header_value : String

pub record RawDefaultSettings : Type 0 where
  pub ca_cert_file : String
  pub enable_tls : Option Bool
  pub tls_server_name : String

pub record RawGrpcSettings : Type 0 where
  pub port : Option ℕ
  pub ca_cert_file : String
  pub enable_tls : Option Bool
  pub tls_server_name : String

pub record RawHttpSettings : Type 0 where
  pub port : Option ℕ
  pub enable_https : Option Bool
  pub ca_cert_file : String
  pub enable_tls : Option Bool
  pub tls_server_name : String

pub record RawConsulServers : Type 0 where
  pub hosts : String
  pub skip_server_watch : Bool
  pub defaults : Option RawDefaultSettings
  pub grpc : Option RawGrpcSettings
  pub http : Option RawHttpSettings

pub record RawController : Type 0 where
  pub iam_role_path : Option String
  pub partitions_enabled : Bool
  pub partition : String

pub record RawTransparentProxy : Type 0 where
  pub enabled : Option Bool
  pub exclude_inbound_ports : List ℕ
  pub exclude_outbound_ports : List ℕ
  pub exclude_outbound_cidrs : List String
  pub exclude_uids : List String
  pub consul_dns : ConsulDns

-- `if alias.Raw == nil { default } else { *alias.Raw }`
abbrev pub or_default : {A : Type 0} → Option A → A → A
or_default none d = d
or_default (some a) d = a

-- `ConsulLogin.UnmarshalJSON`; the two fields that no JSON key sets stay zero.
unfoldable pub decode_consul_login : RawConsulLogin → ConsulLogin
decode_consul_login raw = record {
  enabled = raw.enabled;
  method = raw.method;
  include_entity = or_default raw.include_entity true;
  meta = raw.meta;
  region = raw.region;
  datacenter = raw.datacenter;
  sts_endpoint = raw.sts_endpoint;
  server_id_header_value = raw.server_id_header_value;
  access_key_id = "";
  secret_access_key = "";
}

unfoldable pub decode_default_settings : RawDefaultSettings → DefaultSettings
decode_default_settings raw = record {
  ca_cert_file = raw.ca_cert_file;
  enable_tls = or_default raw.enable_tls true;
  tls_server_name = raw.tls_server_name;
}

unfoldable pub decode_grpc_settings : RawGrpcSettings → GrpcSettings
decode_grpc_settings raw = record {
  port = or_default raw.port default_grpc_port;
  ca_cert_file = raw.ca_cert_file;
  enable_tls = raw.enable_tls;
  tls_server_name = raw.tls_server_name;
}

unfoldable pub decode_http_settings : RawHttpSettings → HttpSettings
decode_http_settings raw = record {
  port = or_default raw.port default_http_port;
  enable_https = or_default raw.enable_https true;
  ca_cert_file = raw.ca_cert_file;
  enable_tls = raw.enable_tls;
  tls_server_name = raw.tls_server_name;
}

-- An absent object gets the defaults written out here, a present one its own method's.
unfoldable pub decode_consul_servers : RawConsulServers → ConsulServers
unfolding decode_default_settings decode_grpc_settings decode_http_settings
decode_consul_servers raw = record {
  hosts = raw.hosts;
  skip_server_watch = raw.skip_server_watch;
  defaults = elim raw.defaults [
    | none ↦ record { ca_cert_file = ""; enable_tls = true; tls_server_name = "" }
    | some d ↦ decode_default_settings d
  ];
  grpc = elim raw.grpc [
    | none ↦ record {
      port = default_grpc_port;
      ca_cert_file = "";
      enable_tls = none;
      tls_server_name = "";
    }
    | some g ↦ decode_grpc_settings g
  ];
  http = elim raw.http [
    | none ↦ record {
      port = default_http_port;
      enable_https = true;
      ca_cert_file = "";
      enable_tls = none;
      tls_server_name = "";
    }
    | some h ↦ decode_http_settings h
  ];
}

unfoldable pub decode_controller : RawController → Controller
decode_controller raw =
    let path = or_default raw.iam_role_path default_iam_role_path in
    record {
      iam_role_path = if path == "" then default_iam_role_path else path;
      partitions_enabled = raw.partitions_enabled;
      partition = raw.partition;
    }

unfoldable pub decode_transparent_proxy : RawTransparentProxy → TransparentProxyConfig
decode_transparent_proxy raw = record {
  enabled = or_default raw.enabled true;
  exclude_inbound_ports = raw.exclude_inbound_ports;
  exclude_outbound_ports = raw.exclude_outbound_ports;
  exclude_outbound_cidrs = raw.exclude_outbound_cidrs;
  exclude_uids = raw.exclude_uids;
  consul_dns = raw.consul_dns;
}

-- The `transparentProxy` part of `Config.UnmarshalJSON`.
unfoldable pub decode_transparent_proxy_key : Option RawTransparentProxy → TransparentProxyConfig
unfolding decode_transparent_proxy
decode_transparent_proxy_key none = record {
  enabled = true;
  exclude_inbound_ports = List.[];
  exclude_outbound_ports = List.[];
  exclude_outbound_cidrs = List.[];
  exclude_uids = List.[];
  consul_dns = record { enabled = Bool.false };
}
decode_transparent_proxy_key (some raw) = decode_transparent_proxy raw
