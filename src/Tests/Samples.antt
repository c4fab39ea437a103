-- ===== src/Tests/Samples.antt =====
-- A task with a service, its sidecar proxy and two containers, and servers that answer for it.
use consul_ecs.Base.{
  pos, ltb, length, String, true, false, [], ◌∷◌, Option, none, some, ok, err, Error, errorf, wrapf,
  Append,
}
use consul_ecs.Base.Json.{null}
use consul_ecs.Task.{TaskMeta, TaskContainer}
use consul_ecs.Consul.{HealthCheck}
use consul_ecs.Client.{Client, Call, logout, History}
use consul_ecs.Config.Types.{Config, ConsulServers, ConnectProxyConfig, GatewayRegistration}

abbrev container : String → String → TaskContainer
container name status = record {
  name = name;
  health = record { status = status; status_since = ""; exit_code = pos 0 };
  desired_status = "RUNNING";
  known_status = "RUNNING";
  networks = record { ipv4_addresses = "10.0.0.7" ∷ []; private_dns_name = "" } ∷ [];
  type = "NORMAL";
}

abbrev pub task : TaskMeta
task = record {
  cluster = "arn:aws:ecs:us-east-1:1:cluster/c";
  task_arn = "arn:aws:ecs:us-east-1:1:task/c/7";
  family = "Web";
  containers = container "app" "HEALTHY" ∷ container "consul-dataplane" "HEALTHY" ∷ [];
  availability_zone = "us-east-1a";
}

abbrev pub servers : ConsulServers
servers = record {
  hosts = "consul.local";
  skip_server_watch = false;
  defaults = record { ca_cert_file = ""; enable_tls = false; tls_server_name = "" };
  grpc = record { port = 8503; ca_cert_file = ""; enable_tls = none; tls_server_name = "" };
  http = record {
    port = 8501;
    enable_https = false;
    ca_cert_file = "";
    enable_tls = none;
    tls_server_name = "";
  };
}

abbrev pub proxy_config : ConnectProxyConfig
proxy_config = record {
  config = [];
  local_service_address = "";
  public_listener_port = 0;
  health_check_port = 0;
  upstreams = [];
  mesh_gateway = none;
  expose = none;
}

abbrev pub config : Config
config = record {
  bootstrap_dir = "/consul";
  consul_login = record {
    enabled = true;
    method = "";
    include_entity = true;
    meta = [];
    region = "";
    datacenter = "";
    sts_endpoint = "";
    server_id_header_value = "";
    access_key_id = "";
    secret_access_key = "";
  };
  health_sync_containers = "app" ∷ [];
  log_level = "INFO";
  proxy = some proxy_config;
  gateway = none;
  service = record {
    name = "";
    tags = [];
    port = 8080;
    enable_tag_override = false;
    meta = ("team", "blue") ∷ [];
    weights = none;
    namespace = "";
    partition = "";
    network_partition_resilience = none;
  };
  consul_servers = servers;
  controller = record { iam_role_path = ""; partitions_enabled = false; partition = "" };
  transparent_proxy = record {
    enabled = false;
    exclude_inbound_ports = [];
    exclude_outbound_ports = [];
    exclude_outbound_cidrs = [];
    exclude_uids = [];
    consul_dns = record { enabled = false };
  };
}

abbrev pub gateway : GatewayRegistration
gateway = record {
  kind = "mesh-gateway";
  lan_address = some (record { address = "10.0.0.8"; port = 9000 });
  wan_address = some (record { address = "1.2.3.4"; port = 0 });
  name = "gw";
  tags = [];
  meta = ("zone", "a") ∷ [];
  namespace = "";
  partition = "";
  proxy = none;
  health_check_port = 0;
}

abbrev down : Error
down = errorf "no server"

-- Servers that answer no query, and that cannot log out.
abbrev pub failure : History → Call → Option Error
failure h logout = some down
failure h _ = none

abbrev pub client : Client
client = record {
  failure = failure;
  checks = λ h name o. err down;
  tokens = λ h o. ok [];
  services = λ h node o. ok [];
  namespaces = λ h o. ok (record { name = "default"; policy_defaults = none } ∷ []);
  namespace = λ h name o. ok (record { name = "default"; policy_defaults = none });
  service_defaults = λ h name o. err (errorf "Config entry NOT FOUND");
  set_service_defaults = λ h entry. (ltb 1 (length h), none);
  policy = λ h name o. ok none;
  created_policy = λ h p. p;
  agent = λ h. ok null;
  partitions = λ h. ok ("default" ∷ []);
  auth_method = λ h name o. ok none;
  role = λ h name o. ok none;
  binding_rules = λ h name o. ok [];
  token = λ h id o. ok (record { accessor_id = id; policies = []; other = null });
}

-- Errors are joined in the order of their coming.
abbrev pub append : Append
append none e = e
append (some x) e = wrapf "and" e

abbrev pub check : String → HealthCheck
check id = record {
  check_id = id;
  name = "";
  type = "";
  service_id = "web-7";
  namespace = "";
  status = "passing";
  output = "";
  notes = "";
}
