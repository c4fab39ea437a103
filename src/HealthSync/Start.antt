-- ===== src/HealthSync/Start.antt =====
-- subcommand/health-sync/command.go: `realRun` from its first line, with the set-up before the loop.
use consul_ecs.Base.{
  ◌<>◌, String, false, List, [], Option, none, some, Result, ok, err, Error, errorf, wrapf, message,
  Append,
}
use consul_ecs.Base.Decimal.{itoa}
use consul_ecs.Base.Dict.{Dict}
use consul_ecs.Task.{TaskMeta, ecs_task_metadata, cluster_arn}
use consul_ecs.Consul.{HealthCheck}
use consul_ecs.Client.{History}
use consul_ecs.Config.Types.{Config}
use consul_ecs.Config.Settings.{client_config, consul_server_conn_mgr_config}
use consul_ecs.MeshInit.Host.{Host}
use consul_ecs.HealthSync.Fetch.{fetch_health_checks}
use consul_ecs.HealthSync.Loop.{Event, Outcome, returned, run}

module _ (host : Host) (c : Config) where
  -- The connection to the servers, without the subscription to changes of the server.
  unfoldable pub connect_loop : TaskMeta → Option Error
  unfolding consul_server_conn_mgr_config client_config itoa
  connect_loop meta =
      elim (consul_server_conn_mgr_config host.env host.configure_tls host.task_region
        host.generate_token c meta) [
          | err e ↦ some (wrapf "constructing server connection manager config" e)
          | ok conn ↦ elim (host.new_watcher conn) [
            | some e ↦ some (wrapf "unable to create consul server watcher" e)
            | none ↦ elim (host.watcher_state conn) [
              | err e ↦ some (wrapf "unable to fetch consul server watcher state" e)
              | ok (ip, token) ↦
                  elim (host.new_client (client_config host.env c)
                    (host.join_host_port ip (itoa c.consul_servers.http.port)) token) [
                      | some e ↦ some (wrapf "unable to setup Consul API client" e)
                      | none ↦ none
                    ]
            ]
          ]
        ]

  -- The checks before the loop; the text of this error has no colon in front of its cause.
  unfoldable pub first_checks : TaskMeta → History → Result (Dict HealthCheck) × History
  unfolding fetch_health_checks
  first_checks meta h =
      let (answer, h') = fetch_health_checks host.api c meta h in
      (
        elim answer [
          | ok checks ↦ ok checks
          | err e ↦
              err (errorf ("unable to fetch checks before the reconciliation loop " <> message e))
        ],
        h',
      )

  unfoldable pub set_up : History → Result (TaskMeta × String × Dict HealthCheck) × History
  unfolding ecs_task_metadata cluster_arn connect_loop first_checks
  set_up h = elim (ecs_task_metadata (host.env "ECS_CONTAINER_METADATA_URI_V4") host.http_get) [
    | err e ↦ (err e, h)
    | ok meta ↦ elim (cluster_arn meta) [
      | err e ↦ (err e, h)
      | ok arn ↦ elim (connect_loop meta) [
        | some e ↦ (err e, h)
        | none ↦
            let (answer, h') = first_checks meta h in
            (elim answer [ err e ↦ err e | ok checks ↦ ok (meta, arn, checks) ], h')
      ]
    ]
  ]

  -- The whole run, on the events that arrive.
  unfoldable pub real_run : Append → List Event → History → Outcome
  unfolding set_up run
  real_run append events h =
      let (answer, h') = set_up h in
      elim answer [
        | err e ↦ returned (some e) (record { checks = []; statuses = []; calls = h' })
        | ok (meta, arn, checks) ↦
            run host.api append c arn meta
              (record {
                shutting_down = false;
                state = record { checks = checks; statuses = []; calls = h' };
              })
              events
      ]
