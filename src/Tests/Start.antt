-- ===== src/Tests/Start.antt =====
-- Tests and examples for a whole run of mesh-init, the dataplane's configuration, DNS and the
-- traffic redirection.
use consul_ecs.Base.{
  ◌≡◌, ◌≢◌, refl, ◌<>◌, ◌==◌, String, true, false, [], ◌∷◌, Option, none, some, Result, ok, Error,
  arith, inr, if◌then◌else◌,
}
use consul_ecs.Config.Registration.{get_public_listener_port}
use consul_ecs.Base.Dict.{insert}
use consul_ecs.Task.{TaskMeta, cluster_arn, task_id, parse_task_id}
use consul_ecs.Consul.{AgentService, ConnectProxy}
use consul_ecs.Config.Types.{Config, ConsulLogin}
use consul_ecs.Config.Settings.{
  is_gateway, DiscoveryConfig, LoginCredential, login, CaSource, consul_server_conn_mgr_config,
}
use consul_ecs.Dataplane.{DataplaneInput, CredentialsConfig, get_dataplane_config}
use consul_ecs.Dataplane.Encode.{generate_json}
use consul_ecs.Dataplane.RoundTrip.{read_dataplane_config, read_dataplane_config-generate_json}
use consul_ecs.Base.Text.{split}
use consul_ecs.Dns.Lines.{servers_of, one_line}
use consul_ecs.Dns.Servers.{resolve_conf-servers}
use consul_ecs.Dns.{DnsConfig, resolve_conf}
use consul_ecs.Redirect.{Iptables, IptablesConfig, RedirectProxyConfig, new, iptables_config}
use consul_ecs.Redirect.Excludes.{Excludes, iptables_config-Excludes}
use consul_ecs.MeshInit.Registration.{typical_service, sidecar_proxy}
use consul_ecs.MeshInit.Host.{Host, Progress, Outcome, finished}
use consul_ecs.MeshInit.Run.{login_creds, real_run}
use consul_ecs.MeshInit.Returns.{real_run_returns}
use consul_ecs.MeshInit.Login.{IsLogin, dataplane_login}
use consul_ecs.Tests.Samples.{task, config, proxy_config, client}

abbrev dns_config : DnsConfig
dns_config = record {
  servers = "10.0.0.2" ∷ "10.0.0.3" ∷ [];
  search = "ec2.internal" ∷ [];
  ndots = 3;
  timeout = 5;
  attempts = 12;
}

resolve_conf_test :
    resolve_conf dns_config
    ≡ "search ec2.internal\nnameserver 127.0.0.1\nnameserver 10.0.0.2\nnameserver 10.0.0.3\noptions ndots:3 attempts:12\n"
unfolding resolve_conf
resolve_conf_test = refl

resolve_conf-servers_example :
    servers_of (split "\n" (resolve_conf dns_config)) ≡ "127.0.0.1" ∷ dns_config.servers
unfolding one_line
resolve_conf-servers_example = resolve_conf-servers dns_config (refl, (refl, tt)) (refl, tt)

abbrev plain_proxy : RedirectProxyConfig
plain_proxy = record { bind_port = 0; prometheus_bind_addr = ""; stats_bind_addr = "0.0.0.0:9102" }

abbrev iptables : Iptables
iptables = record {
  weak_decode = λ config. ok plain_proxy;
  split_host_port = λ addr. ok "9102";
  default_tproxy_outbound_port = 15001;
  setup = λ cfg. none;
}

abbrev redirected : Config
redirected = record config {
  transparent_proxy = record {
    enabled = true;
    exclude_inbound_ports = 22 ∷ [];
    exclude_outbound_ports = 53 ∷ [];
    exclude_outbound_cidrs = [];
    exclude_uids = [];
    consul_dns = record { enabled = true };
  };
}

abbrev proxy_service : AgentService
proxy_service =
    sidecar_proxy redirected (typical_service redirected "us-east-1" task) proxy_config task

abbrev destination : ConnectProxy
destination = record {
  destination_service_name = "web";
  destination_service_id = "web-7";
  local_service_address = "";
  local_service_port = 8080;
  mode = "transparent";
  transparent_proxy = none;
  config = [];
  upstreams = [];
  mesh_gateway = record { mode = "" };
  expose = record {
    checks = false;
    paths =
        record { listener_port = 21500; path = "/"; local_path_port = 8080; protocol = "" } ∷ [];
  };
}

abbrev found_service : AgentService
found_service = record proxy_service { proxy = some destination }

abbrev rules : IptablesConfig
rules = record {
  consul_dns_ip = "127.0.0.1";
  consul_dns_port = 8600;
  proxy_user_id = "5995";
  proxy_inbound_port = 20000;
  proxy_outbound_port = 15001;
  exclude_inbound_ports = "22" ∷ "22000" ∷ "9102" ∷ "21500" ∷ [];
  exclude_outbound_ports = "53" ∷ [];
  exclude_outbound_cidrs = [];
  exclude_uids = "5996" ∷ [];
}

rules_test :
    iptables_config iptables (new redirected (some found_service) (22000 ∷ [])) ≡ some (ok rules)
unfolding iptables_config new sidecar_proxy get_public_listener_port
rules_test = refl

iptables_config-Excludes_example :
    Excludes iptables redirected found_service destination 22000 rules
iptables_config-Excludes_example =
    iptables_config-Excludes iptables redirected found_service destination 22000 rules refl
      rules_test

abbrev credentials : LoginCredential
credentials = record {
  auth_method = "iam-ecs-service-token";
  namespace = "";
  partition = "";
  datacenter = "";
  bearer_token = "secret";
  meta =
      ("consul.hashicorp.com/task-id", "7")
      ∷ ("consul.hashicorp.com/cluster", "arn:aws:ecs:us-east-1:1:cluster/c")
      ∷ [];
}

abbrev input : DataplaneInput
input = record {
  node = "arn:aws:ecs:us-east-1:1:cluster/c";
  service = proxy_service;
  consul_server_config = config.consul_servers;
  login_credentials = some credentials;
  ca_cert_file = "";
  proxy_health_check_port = 22000;
  log_level = "INFO";
  consul_dns_enabled = true;
}

read_dataplane_config-generate_json_example :
    read_dataplane_config (generate_json (get_dataplane_config input)) ≡ get_dataplane_config input
read_dataplane_config-generate_json_example =
    read_dataplane_config-generate_json (get_dataplane_config input)

abbrev env : String → String
env name = if name == "ECS_CONTAINER_METADATA_URI_V4" then "http://169.254.170.2/v4/7" else ""

abbrev configure_tls : CaSource → Option Error
configure_tls ca = none

abbrev task_region : TaskMeta → Result String
task_region meta = ok "us-east-1"

abbrev generate_token : String → ConsulLogin → Result String
generate_token region l = ok "secret"

abbrev conn : DiscoveryConfig
conn = record {
  addresses = "consul.local";
  grpc_port = 8503;
  tls = none;
  credentials = login credentials;
  server_watch_disabled = false;
}

dataplane_login_example :
    (k : CredentialsConfig) × ((get_dataplane_config input).consul.credentials ≡ some k)
    × (env "CONSUL_HTTP_TOKEN" ≡ ""
        → (l : LoginCredential) × (conn.credentials ≡ login l) × IsLogin l k)
    × (env "CONSUL_HTTP_TOKEN" ≢ ""
        → (k.credential_type ≡ "login") × (k.login.auth_method ≡ "") × (k.login.bearer_token ≡ ""))
unfolding consul_server_conn_mgr_config login_creds cluster_arn insert task_id parse_task_id
dataplane_login_example =
    dataplane_login env configure_tls task_region generate_token config task conn input refl refl
      refl

abbrev pub host : Host
host = record {
  env = env;
  http_get = λ uri. ok task;
  configure_tls = configure_tls;
  task_region = task_region;
  generate_token = generate_token;
  new_watcher = λ d. none;
  watcher_state = λ d. ok ("10.0.0.1", "token");
  join_host_port = λ ip port. ip <> ":" <> port;
  new_client = λ cfg address token. none;
  api = client;
  executable = ok "/bin/consul-ecs";
  is_dynamic_linker = λ path. false;
  look_path = ok "/bin/consul-ecs";
  eval_symlinks = ok;
  abs = ok;
  read_file = λ path. ok "program";
  write_file = λ path content. none;
  path_join = λ dir file. dir <> "/" <> file;
  marshal = λ json. ok "{}";
  client_config_from_file = λ path. ok (some dns_config);
  iptables = iptables;
}

abbrev at_start : Progress
at_start = record { history = []; files = []; rules = [] }

abbrev progress_of : Outcome → Progress
progress_of (finished none p) = p
progress_of _ = at_start

abbrev at_end : Progress
at_end = progress_of (real_run host config 1 at_start)

real_run_returns_example :
    (e : Option Error) × (p' : Progress) × (real_run host config 3 at_start ≡ finished e p')
unfolding is_gateway
real_run_returns_example =
    real_run_returns host config 2 at_start (inr (refl, proxy_config, refl))
      (λ h registration late. refl) (λ h entry late. ground arith)
