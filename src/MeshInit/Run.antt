-- ===== src/MeshInit/Run.antt =====
-- `realRun` of subcommand/mesh-init/command.go.
use consul_ecs.Base.{
  ℕ, zero, suc, ◌<>◌, String, [], ◌∷◌, ◌++◌, Option, none, some, Result, ok, err, errorf, message,
  if◌then◌else◌,
}
use consul_ecs.Base.Decimal.{itoa}
use consul_ecs.Task.{TaskMeta, ecs_task_metadata, cluster_arn}
use consul_ecs.Consul.{CatalogRegistration}
use consul_ecs.Client.{Client, History, register}
use consul_ecs.Config.Types.{Config, NetworkPartitionResilienceConfig}
use consul_ecs.Config.Settings.{
  is_gateway, consul_dns_enabled, transparent_proxy_enabled, client_config, LoginCredential,
  Credentials, login, DiscoveryConfig, consul_server_conn_mgr_config,
}
use consul_ecs.MeshInit.Registration.{
  construct_service_registration, construct_proxy_registration, typical_service,
}
use consul_ecs.MeshInit.Gateway.{construct_gateway_proxy_registration}
use consul_ecs.MeshInit.ServiceDefaults.{register_service_defaults}
use consul_ecs.MeshInit.Host.{Host, Progress, Outcome, finished, retrying, panics, in_turn, with}
use consul_ecs.MeshInit.Files.{
  copy_ecs_binary_to_shared_volume, write_rpc_ca_cert_to_shared_volume,
  generate_and_write_dataplane_config, configure_dns, apply_traffic_redirection_rules,
}

-- `backoff.RetryNotify` on a registration, without a limit in the code: on fuel.
unfoldable pub register_with_retries : Client → CatalogRegistration → ℕ → History → Option History
register_with_retries api registration zero h = none
register_with_retries api registration (suc fuel) h =
    let h' = h ++ register registration none ∷ [] in
    let later = register_with_retries api registration fuel h' in
    elim (api.failure h (register registration none)) [ none ↦ some h' | some _ ↦ later ]

-- The registrations of the task: a gateway has none of a service. `none` is a nil dereference.
unfoldable pub registrations :
    Config → String → TaskMeta → String → Option (Option CatalogRegistration × CatalogRegistration)
unfolding is_gateway construct_gateway_proxy_registration construct_service_registration
    construct_proxy_registration
registrations c region meta arn =
    if is_gateway c
    then elim c.gateway [
      | none ↦ none
      | some g ↦ some (none, construct_gateway_proxy_registration c g meta arn)
    ]
    else elim (construct_proxy_registration c (typical_service c region meta) meta arn) [
      | none ↦ none
      | some proxy ↦ some (some (construct_service_registration c region meta arn), proxy)
    ]

-- The login of `discovery.Credentials`, which is empty where another type is set.
unfoldable pub login_of : Credentials → LoginCredential
login_of (login l) = l
login_of _ = record {
  auth_method = "";
  namespace = "";
  partition = "";
  datacenter = "";
  bearer_token = "";
  meta = [];
}

unfoldable pub login_creds : Config → DiscoveryConfig → Option LoginCredential
unfolding login_of
login_creds c conn = if c.consul_login.enabled then some (login_of conn.credentials) else none

-- The settings under `networkPartitionResilience`, where they are enabled.
abbrev pub enabled_resilience : Config → Option NetworkPartitionResilienceConfig
enabled_resilience c = elim c.service.network_partition_resilience [
  | none ↦ none
  | some r ↦ if r.enabled then some r else none
]

-- An error that is kept as a text only.
abbrev restated {ℓ} : {A : Type ℓ} → String → Result A → Result A
restated s (ok a) = ok a
restated s (err e) = err (errorf (s <> ": " <> message e))

module _ (host : Host) (c : Config) (fuel : ℕ) where
  unfoldable pub register_step : Option CatalogRegistration → Progress → Outcome
  unfolding register_with_retries
  register_step none p = finished none p
  register_step (some registration) p =
      elim (register_with_retries host.api registration fuel p.history) [
        | none ↦ retrying
        | some h ↦ finished none (record p { history = h })
      ]

  -- Service defaults are registered for a service only.
  unfoldable pub service_defaults_step : Option CatalogRegistration → Progress → Outcome
  unfolding register_service_defaults
  service_defaults_step none p = finished none p
  service_defaults_step (some registration) p = elim (enabled_resilience c) [
    | none ↦ finished none p
    | some resilience ↦ elim registration.service [
      | none ↦ panics
      | some service ↦ elim (register_service_defaults host.api service resilience fuel p.history) [
        | none ↦ retrying
        | some (e, h) ↦ finished e (record p { history = h })
      ]
    ]
  ]

  unfoldable pub dns_step : Progress → Outcome
  unfolding configure_dns consul_dns_enabled
  dns_step p = if consul_dns_enabled c then configure_dns host c p else finished none p

  unfoldable pub redirection_step : CatalogRegistration → String → Progress → Outcome
  unfolding apply_traffic_redirection_rules transparent_proxy_enabled
  redirection_step proxy arn p =
      if transparent_proxy_enabled c
      then apply_traffic_redirection_rules host c proxy arn p
      else finished none p

  -- From the CA certificate on.
  unfoldable pub write_files :
      Option LoginCredential → CatalogRegistration → String → Progress → Outcome
  unfolding write_rpc_ca_cert_to_shared_volume generate_and_write_dataplane_config
      consul_dns_enabled dns_step redirection_step
  write_files creds proxy arn p =
      let (cert, p1) = write_rpc_ca_cert_to_shared_volume host c p in
      with cert p1 (λ file.
        in_turn
          (generate_and_write_dataplane_config host c proxy creds file (consul_dns_enabled c)
            ∷ dns_step
            ∷ redirection_step proxy arn
            ∷ [])
          p1)

  -- From the registrations on.
  unfoldable pub register_and_write :
      DiscoveryConfig
      → String
      → Option CatalogRegistration
      → CatalogRegistration
      → Progress
      → Outcome
  unfolding register_step service_defaults_step copy_ecs_binary_to_shared_volume login_creds
      write_files
  register_and_write conn arn service proxy = in_turn (
      register_step service
      ∷ register_step (some proxy)
      ∷ service_defaults_step service
      ∷ copy_ecs_binary_to_shared_volume host c
      ∷ write_files (login_creds c conn) proxy arn
      ∷ [])

  -- The server connection manager and the API client.
  unfoldable pub connect_servers : TaskMeta → Result DiscoveryConfig
  unfolding consul_server_conn_mgr_config client_config itoa
  connect_servers meta =
      elim (consul_server_conn_mgr_config host.env host.configure_tls host.task_region
        host.generate_token c meta) [
          | err e ↦ restated "constructing server connection manager config" (err e)
          | ok conn ↦ elim (host.new_watcher conn) [
            | some e ↦ restated "unable to create consul server watcher" (err e)
            | none ↦ elim (host.watcher_state conn) [
              | err e ↦ restated "unable to fetch consul server watcher state" (err e)
              | ok (ip, token) ↦
                  elim (host.new_client (client_config host.env c)
                    (host.join_host_port ip (itoa c.consul_servers.http.port)) token) [
                      | some e ↦ restated "constructing consul client from config" (err e)
                      | none ↦ ok conn
                    ]
            ]
          ]
        ]

  -- With the metadata and the discovery configuration.
  unfoldable pub join_mesh : DiscoveryConfig → TaskMeta → String → Progress → Outcome
  unfolding registrations register_and_write
  join_mesh conn meta arn p = elim (registrations c (host.env "AWS_REGION") meta arn) [
    | none ↦ panics
    | some (service, proxy) ↦ register_and_write conn arn service proxy p
  ]

  unfoldable pub real_run : Progress → Outcome
  unfolding ecs_task_metadata cluster_arn connect_servers join_mesh
  real_run p =
      with (ecs_task_metadata (host.env "ECS_CONTAINER_METADATA_URI_V4") host.http_get) p (λ meta.
        with (cluster_arn meta) p
          (λ arn. with (connect_servers meta) p (λ conn. join_mesh conn meta arn p)))
