-- ===== src/MeshInit/Files.antt =====
-- subcommand/mesh-init/command.go: the files on the shared volume, and the traffic redirection.
use consul_ecs.Base.{
  ℕ, ◌<>◌, ◌==◌, not, String, Bool, [], ◌∷◌, ◌++◌, Option, none, some, Result, ok, err, Error,
  wrapf, ◌>>=◌, if◌then◌else◌,
}
use consul_ecs.Base.Text.{quote}
use consul_ecs.Consul.{AgentService, CatalogRegistration}
use consul_ecs.Client.{Call, History, node_service_list}
use consul_ecs.Config.Types.{Config}
use consul_ecs.Config.Registration.{get_health_check_port}
use consul_ecs.Config.Settings.{
  is_gateway, get_grpc_tls_settings, grpc_ca_cert_pem_env_var, LoginCredential,
}
use consul_ecs.Dataplane.{DataplaneConfig, get_dataplane_config}
use consul_ecs.Dataplane.Encode.{generate_json}
use consul_ecs.Dns.{configure_consul_dns}
use consul_ecs.Redirect.{new, apply}
use consul_ecs.MeshInit.Registration.{only_proxy}
use consul_ecs.MeshInit.Host.{Host, Progress, Outcome, finished, panics, with}

abbrev pub dataplane_config_file_name : String
dataplane_config_file_name = "consul-dataplane.json"

abbrev pub ca_cert_file_name : String
ca_cert_file_name = "consul-grpc-ca-cert.pem"

-- `defaultLogLevel` of the logging package, and `FromConfig` there.
abbrev pub default_log_level : String
default_log_level = "INFO"

unfoldable pub log_level_of : Config → String
log_level_of c = if c.log_level == "" then default_log_level else c.log_level

abbrev pub wrapped : String → Option Error → Option Error
wrapped s none = none
wrapped s (some e) = some (wrapf s e)

module _ (host : Host) (c : Config) where
  -- The file is noted with the content meant for it.
  unfoldable pub write : String → String → Progress → Option Error × Progress
  write file content p =
      (host.write_file file content, record p { files = p.files ++ (file, content) ∷ [] })

  -- The path of the program, searched for where the dynamic linker stands in its place.
  unfoldable pub executable_path : Result String
  executable_path = host.executable >>= λ ex.
      if host.is_dynamic_linker ex
      then (host.look_path >>= λ found. host.eval_symlinks found >>= λ real. host.abs real)
      else ok ex

  unfoldable pub copy_ecs_binary_to_shared_volume : Progress → Outcome
  unfolding executable_path write
  copy_ecs_binary_to_shared_volume p = with (executable_path >>= host.read_file) p (λ content.
      let (e, p') = write (host.path_join c.bootstrap_dir "consul-ecs") content p in finished e p')

  -- The path of the CA certificate, which may be empty.
  unfoldable pub write_rpc_ca_cert_to_shared_volume : Progress → Result String × Progress
  unfolding get_grpc_tls_settings write
  write_rpc_ca_cert_to_shared_volume p =
      let settings = get_grpc_tls_settings c.consul_servers in
      let pem = host.env grpc_ca_cert_pem_env_var in
      let path = host.path_join c.bootstrap_dir ca_cert_file_name in
      let (e, p') = write path pem p in
      if not settings.enabled
      then (ok "", p)
      else if pem == ""
      then (ok settings.ca_cert_file, p)
      else (elim e [ none ↦ ok path | some x ↦ err x ], p')

  -- The port of the readiness check; `none` where the code dereferences nil.
  unfoldable pub proxy_health_check_port : Option ℕ
  unfolding is_gateway get_health_check_port
  proxy_health_check_port =
      if is_gateway c
      then elim c.gateway [
        | none ↦ none
        | some g ↦ some (get_health_check_port g.health_check_port)
      ]
      else elim c.proxy [
        | none ↦ none
        | some proxy ↦ some (get_health_check_port proxy.health_check_port)
      ]

  -- The configuration; `none` where the code dereferences nil.
  unfoldable pub dataplane_config :
      CatalogRegistration → Option LoginCredential → String → Bool → Option DataplaneConfig
  unfolding proxy_health_check_port log_level_of get_dataplane_config
  dataplane_config registration creds ca_cert_file_path dns_enabled = elim proxy_health_check_port [
    | none ↦ none
    | some port ↦ elim registration.service [
      | none ↦ none
      | some service ↦ some (
          get_dataplane_config (record {
            node = registration.node;
            service = service;
            consul_server_config = c.consul_servers;
            login_credentials = creds;
            ca_cert_file = ca_cert_file_path;
            proxy_health_check_port = port;
            log_level = log_level_of c;
            consul_dns_enabled = dns_enabled;
          }))
    ]
  ]

  unfoldable pub generate_and_write_dataplane_config :
      CatalogRegistration → Option LoginCredential → String → Bool → Progress → Outcome
  unfolding dataplane_config generate_json write
  generate_and_write_dataplane_config registration creds ca_cert_file_path dns_enabled p =
      elim (dataplane_config registration creds ca_cert_file_path dns_enabled) [
        | none ↦ panics
        | some cfg ↦ with (host.marshal (generate_json cfg)) p (λ json.
            let (e, p') =
              write (host.path_join c.bootstrap_dir dataplane_config_file_name) json p in
            finished e p')
      ]

  -- The file that unit tests may name is /etc/resolv.conf.
  unfoldable pub configure_dns : Progress → Outcome
  unfolding configure_consul_dns
  configure_dns p =
      let (e, files) = configure_consul_dns host.client_config_from_file host.write_file "" in
      finished (wrapped "failed to configure Consul DNS" e) (record p { files = p.files ++ files })

  -- The query for the proxy; the request also asks for the central configuration.
  abbrev pub proxy_query : String → String → Call
  proxy_query cluster_arn svc_id =
      node_service_list cluster_arn
        (record { namespace = ""; partition = ""; filter = "ID == " <> quote svc_id })

  unfoldable pub get_proxy_service_registration : String → String → History → Result AgentService
  unfolding only_proxy
  get_proxy_service_registration cluster_arn svc_id h =
      elim (host.api.services h cluster_arn
        (record { namespace = ""; partition = ""; filter = "ID == " <> quote svc_id })) [
          | err e ↦ err (wrapf "failed to fetch proxy service from Consul" e)
          | ok services ↦ only_proxy svc_id services
        ]

  -- The rules for the proxy that was found.
  unfoldable pub redirect_to : AgentService → Progress → Outcome
  unfolding get_health_check_port new apply
  redirect_to svc p = elim c.proxy [
    | none ↦ panics
    | some proxy ↦
        elim (apply host.iptables
          (new c (some svc) (get_health_check_port proxy.health_check_port ∷ []))) [
            | none ↦ panics
            | some (e, rules) ↦
                finished (wrapped "failed to setup traffic redirection rules" e)
                  (record p { rules = p.rules ++ rules })
          ]
  ]

  unfoldable pub apply_traffic_redirection_rules : CatalogRegistration → String → Progress → Outcome
  unfolding get_proxy_service_registration redirect_to
  apply_traffic_redirection_rules registration cluster_arn p = elim registration.service [
    | none ↦ panics
    | some service ↦
        let p' = record p { history = p.history ++ proxy_query cluster_arn service.id ∷ [] } in
        with (get_proxy_service_registration cluster_arn service.id p.history) p'
          (λ svc. redirect_to svc p')
  ]
