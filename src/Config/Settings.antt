-- ===== src/Config/Settings.antt =====
-- config/config.go: what the commands derive from the configuration. The environment is a function
-- from variable names, with "" for a variable that is not set, as `os.Getenv` has it.
use consul_ecs.Base.{
  ℕ, ◌==◌, ◌&&◌, not, starts_with, String, Bool, false, [], ◌∷◌, Option, none, some, Result, ok,
  err, Error, ◌>>=◌, if◌then◌else◌,
}
use consul_ecs.Base.Dict.{Dict, insert_all}
use consul_ecs.Task.{TaskMeta, task_id, cluster_arn}
use consul_ecs.Config.Types.{
  Config, ConsulServers, ConsulLogin, GatewayRegistration, default_auth_method_name,
}

abbrev pub gateway_is_set : Option GatewayRegistration → Bool
gateway_is_set none = false
gateway_is_set (some g) = not (g.kind == "")

unfoldable pub is_gateway : Config → Bool
is_gateway c = gateway_is_set c.gateway

-- `c.Gateway.Namespace` stands behind the test that the pointer is set.
abbrev pub gateway_field : Option GatewayRegistration → (GatewayRegistration → String) → String
gateway_field none f = ""
gateway_field (some g) f = f g

unfoldable pub get_namespace : Config → String
unfolding is_gateway
get_namespace c =
    if is_gateway c then gateway_field c.gateway (λ g. g.namespace) else c.service.namespace

unfoldable pub get_partition : Config → String
unfolding is_gateway
get_partition c =
    if is_gateway c then gateway_field c.gateway (λ g. g.partition) else c.service.partition

unfoldable pub transparent_proxy_enabled : Config → Bool
unfolding is_gateway
transparent_proxy_enabled c = c.transparent_proxy.enabled && not (is_gateway c)

unfoldable pub consul_dns_enabled : Config → Bool
unfolding is_gateway
consul_dns_enabled c =
    c.transparent_proxy.enabled && c.transparent_proxy.consul_dns.enabled && not (is_gateway c)

pub record TlsSettings : Type 0 where
  pub enabled : Bool
  pub ca_cert_file : String
  pub tls_server_name : String

abbrev override_bool : Option Bool → Bool → Bool
override_bool none b = b
override_bool (some v) b = v

abbrev override_text : String → String → String
override_text s d = if s == "" then d else s

unfoldable pub get_grpc_tls_settings : ConsulServers → TlsSettings
get_grpc_tls_settings c = record {
  enabled = override_bool c.grpc.enable_tls c.defaults.enable_tls;
  ca_cert_file = override_text c.grpc.ca_cert_file c.defaults.ca_cert_file;
  tls_server_name = override_text c.grpc.tls_server_name c.defaults.tls_server_name;
}

unfoldable pub get_http_tls_settings : ConsulServers → TlsSettings
get_http_tls_settings c = record {
  enabled = override_bool c.http.enable_tls c.defaults.enable_tls;
  ca_cert_file = override_text c.http.ca_cert_file c.defaults.ca_cert_file;
  tls_server_name = override_text c.http.tls_server_name c.defaults.tls_server_name;
}

-- `mergeMeta`: the second map wins. Ranging over a map has no order; no key stands twice.
unfoldable pub merge_meta : Dict String → Dict String → Dict String
unfolding insert_all
merge_meta m1 m2 = insert_all m2 (insert_all m1 [])

-- Where the client takes the certificate authority from.
pub data CaSource : Type 0 where
  system_roots : CaSource
  ca_pem ca_file : String → CaSource

abbrev pub grpc_ca_cert_pem_env_var : String
grpc_ca_cert_pem_env_var = "CONSUL_GRPC_CACERT_PEM"

abbrev pub https_cert_pem_env_var : String
https_cert_pem_env_var = "CONSUL_HTTPS_CACERT_PEM"

abbrev pub bootstrap_token_env_var : String
bootstrap_token_env_var = "CONSUL_HTTP_TOKEN"

abbrev ca_source : String → String → CaSource
ca_source pem file =
    if not (pem == "") then ca_pem pem else if not (file == "") then ca_file file else system_roots

-- The part of `api.Config` that `ClientConfig` sets.
pub record ClientConfig : Type 0 where
  pub namespace : String
  pub partition : String
  pub scheme : String
  pub ca : CaSource
  pub tls_address : String

unfoldable pub client_config : (String → String) → Config → ClientConfig
unfolding get_namespace get_partition get_http_tls_settings
client_config env c =
    let tls = get_http_tls_settings c.consul_servers in
    let plain : ClientConfig = record {
      namespace = get_namespace c;
      partition = get_partition c;
      scheme = "http";
      ca = system_roots;
      tls_address = "";
    } in
    if c.consul_servers.http.enable_https
    then record plain {
      scheme = "https";
      ca = ca_source (env https_cert_pem_env_var) tls.ca_cert_file;
      tls_address =
          if not (tls.tls_server_name == "")
          then tls.tls_server_name
          else if not (starts_with c.consul_servers.hosts "exec=")
          then c.consul_servers.hosts
          else "";
    }
    else plain

-- `discovery.LoginCredential`
pub record LoginCredential : Type 0 where
  pub auth_method : String
  pub namespace : String
  pub partition : String
  pub datacenter : String
  pub bearer_token : String
  pub meta : Dict String

-- `discovery.Credentials`
pub data Credentials : Type 0 where
  no_credentials : Credentials
  static_token : String → Credentials
  login : LoginCredential → Credentials

-- `discovery.Config`
pub record DiscoveryConfig : Type 0 where
  pub addresses : String
  pub grpc_port : ℕ
  pub tls : Option (CaSource × String)
  pub credentials : Credentials
  pub server_watch_disabled : Bool

-- What `ConsulServerConnMgrConfig` takes from other packages: `rootcerts.ConfigureTLS`, and the AWS
-- calls of `createAWSBearerToken` behind the choice of the region.
module _ (env : String → String) (configure_tls : CaSource → Option Error)
    (task_region : TaskMeta → Result String)
    (generate_token : String → ConsulLogin → Result String) where
  unfoldable pub create_aws_bearer_token : ConsulLogin → TaskMeta → Result String
  create_aws_bearer_token l meta =
      if l.region == ""
      then (task_region meta >>= λ r. generate_token r l)
      else generate_token l.region l

  unfoldable pub get_login_discovery_credentials : Config → TaskMeta → Result LoginCredential
  unfolding create_aws_bearer_token merge_meta get_partition
  get_login_discovery_credentials c meta = cluster_arn meta >>= λ cluster.
      create_aws_bearer_token c.consul_login meta >>= λ token. ok (record {
        auth_method =
            if c.consul_login.method == "" then default_auth_method_name else c.consul_login.method;
        namespace = "";
        partition = get_partition c;
        datacenter = c.consul_login.datacenter;
        bearer_token = token;
        meta =
            merge_meta
              (("consul.hashicorp.com/task-id", task_id meta)
                ∷ ("consul.hashicorp.com/cluster", cluster)
                ∷ [])
              c.consul_login.meta;
      })

  -- A certificate authority is configured only where one is given.
  abbrev grpc_tls : TlsSettings → Result (Option (CaSource × String))
  grpc_tls s =
      let ca = ca_source (env grpc_ca_cert_pem_env_var) s.ca_cert_file in
      if s.enabled
      then elim ca [
        | system_roots ↦ ok (some (system_roots, s.tls_server_name))
        | given ↦ elim (configure_tls given) [
          | none ↦ ok (some (given, s.tls_server_name))
          | some e ↦ err e
        ]
      ]
      else ok none

  -- The bootstrap token has precedence over a login.
  abbrev server_credentials : Config → TaskMeta → Result Credentials
  server_credentials c meta =
      let token = env bootstrap_token_env_var in
      if not (token == "")
      then ok (static_token token)
      else if c.consul_login.enabled
      then (get_login_discovery_credentials c meta >>= λ l. ok (login l))
      else ok no_credentials

  unfoldable pub consul_server_conn_mgr_config : Config → TaskMeta → Result DiscoveryConfig
  unfolding get_grpc_tls_settings get_login_discovery_credentials
  consul_server_conn_mgr_config c meta =
      grpc_tls (get_grpc_tls_settings c.consul_servers) >>= λ tls.
      server_credentials c meta >>= λ credentials. ok (record {
        addresses = c.consul_servers.hosts;
        grpc_port = c.consul_servers.grpc.port;
        tls = tls;
        credentials = credentials;
        server_watch_disabled = c.consul_servers.skip_server_watch;
      })
