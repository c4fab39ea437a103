-- ===== src/Upserts/Run.antt =====
-- `run` of subcommand/controller/command.go: the set-up, and the controller's passes behind it.
use consul_ecs.Base.{ℕ, String, List, [], ◌∷◌, Option, none, some, ok, err, Error, wrapf}
use consul_ecs.Base.Decimal.{itoa}
use consul_ecs.Task.{TaskMeta, ecs_task_metadata, cluster_arn}
use consul_ecs.Client.{History}
use consul_ecs.Config.Types.{Config}
use consul_ecs.Config.Settings.{
  DiscoveryConfig, client_config, bootstrap_token_env_var, consul_server_conn_mgr_config,
}
use consul_ecs.MeshInit.Host.{Host}
use consul_ecs.Controller.Env.{Lister, Env}
use consul_ecs.Controller.Pass.{reconcile_all}
use consul_ecs.Upserts.Env.{Servers}
use consul_ecs.Upserts.Resources.{with_default_partition, upsert_consul_resources}

-- `Controller.Run` of controller/controller.go: a pass at each tick, with what ECS and Consul answer in
-- it, until the context is done. The error of a pass is only logged.
unfoldable pub passes : List Env → Lister → ℕ → History → Option History
unfolding reconcile_all
passes [] s fuel h = some h
passes (env ∷ envs) s fuel h = elim (reconcile_all env s fuel h) [
  | none ↦ none
  | some (_, h') ↦ passes envs s fuel h'
]

-- The settings of the lister. The upserts have replaced an empty partition by the default one.
unfoldable pub lister_of : Config → String → Lister
unfolding with_default_partition
lister_of c arn = record {
  cluster_arn = arn;
  partition = (with_default_partition c).controller.partition;
}

module _ (host : Host) (s : Servers) (aws_config : TaskMeta → Option Error) (c : Config) where
  -- The bootstrap token, where it is set, is the client's.
  unfoldable pub setup_consul_api_client : DiscoveryConfig → Option Error
  unfolding client_config itoa
  setup_consul_api_client conn = elim (host.watcher_state conn) [
    | err e ↦ some (wrapf "unable to fetch consul server watcher state" e)
    | ok (ip, token) ↦
        host.new_client (client_config host.env c)
          (host.join_host_port ip (itoa c.consul_servers.http.port))
          (host.env bootstrap_token_env_var)
  ]

  -- `NewAWSConfig` is given by its error.
  unfoldable pub connect_controller : TaskMeta → Option Error
  unfolding consul_server_conn_mgr_config setup_consul_api_client
  connect_controller meta = elim (aws_config meta) [
    | some e ↦ some e
    | none ↦
        elim (consul_server_conn_mgr_config host.env host.configure_tls host.task_region
          host.generate_token c meta) [
            | err e ↦ some (wrapf "constructing server connection manager config" e)
            | ok conn ↦ elim (host.new_watcher conn) [
              | some e ↦ some (wrapf "unable to create consul server watcher" e)
              | none ↦ elim (setup_consul_api_client conn) [
                | some e ↦ some (wrapf "constructing Consul API client from config" e)
                | none ↦ none
              ]
            ]
          ]
  ]

  -- The upserts, and the passes if they succeed.
  unfoldable pub upsert_and_pass :
      List Env → ℕ → TaskMeta → String → History → Option (Option Error × History)
  unfolding upsert_consul_resources passes lister_of
  upsert_and_pass envs fuel meta arn h =
      let (e, h') = upsert_consul_resources s c meta arn h in
      elim e [
        | some x ↦ some (some x, h')
        | none ↦ elim (passes envs (lister_of c arn) fuel h') [
          | none ↦ none
          | some h2 ↦ some (none, h2)
        ]
      ]

  -- `none` means that the fuel for the pages of ECS ran out in a pass.
  unfoldable pub controller_run : List Env → ℕ → History → Option (Option Error × History)
  unfolding ecs_task_metadata cluster_arn connect_controller upsert_and_pass
  controller_run envs fuel h =
      elim (ecs_task_metadata (host.env "ECS_CONTAINER_METADATA_URI_V4") host.http_get) [
        | err e ↦ some (some e, h)
        | ok meta ↦ elim (cluster_arn meta) [
          | err e ↦ some (some e, h)
          | ok arn ↦ elim (connect_controller meta) [
            | some e ↦ some (some e, h)
            | none ↦ upsert_and_pass envs fuel meta arn h
          ]
        ]
      ]
