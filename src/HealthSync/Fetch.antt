-- ===== src/HealthSync/Fetch.antt =====
-- `fetchHealthChecks` of subcommand/health-sync/checks.go.
use consul_ecs.Base.{◌<>◌, String, List, [], ◌∷◌, ◌++◌, Result, ok, err, errorf, if◌then◌else◌}
use consul_ecs.Base.Dict.{Dict, insert}
use consul_ecs.Task.{TaskMeta, task_id}
use consul_ecs.Consul.{HealthCheck, QueryOptions}
use consul_ecs.Client.{Client, health_checks, History}
use consul_ecs.Config.Types.{Config}
use consul_ecs.Config.Settings.{is_gateway, gateway_field}
use consul_ecs.HealthSync.Naming.{
  construct_service_name, make_service_id, make_proxy_svc_id_and_name,
}

-- The filter is set on the shared options for the time of the call.
abbrev pub filter_of : String → String
filter_of service_id = "ServiceID == `" <> service_id <> "`"

abbrev pub query_options : Config → QueryOptions
query_options c =
    if is_gateway c
    then record {
      namespace = gateway_field c.gateway (λ g. g.namespace);
      partition = gateway_field c.gateway (λ g. g.partition);
      filter = "";
    }
    else record { namespace = c.service.namespace; partition = c.service.partition; filter = "" }

-- `for _, check := range checks { m[check.CheckID] = check }`
unfoldable pub index_checks : List HealthCheck → Dict HealthCheck → Dict HealthCheck
unfolding insert
index_checks [] m = m
index_checks (check ∷ checks) m = index_checks checks (insert check.check_id check m)

-- Exactly one check is expected for the sidecar proxy.
abbrev pub only_check : List HealthCheck → Dict HealthCheck → Result (Dict HealthCheck)
only_check (check ∷ []) m = ok (insert check.check_id check m)
only_check [] m = err (errorf "only one check should be associated with the sidecar proxy service")
only_check (_ ∷ _ ∷ _) m =
    err (errorf "only one check should be associated with the sidecar proxy service")

module _ (api : Client) (c : Config) where
  unfoldable pub get_service_health_checks :
      String → String → QueryOptions → History → Result (List HealthCheck) × History
  get_service_health_checks service_name service_id opts h =
      let o = record opts { filter = filter_of service_id } in
      (api.checks h service_name o, h ++ health_checks service_name o ∷ [])

  -- The proxy's check joins those of the service.
  unfoldable pub fetch_proxy_check :
      String → String → Dict HealthCheck → History → Result (Dict HealthCheck) × History
  unfolding get_service_health_checks
  fetch_proxy_check name id m h =
      let (answer, h') = get_service_health_checks name id (query_options c) h in
      (elim answer [ err e ↦ err e | ok checks ↦ only_check checks m ], h')

  unfoldable pub fetch_health_checks : TaskMeta → History → Result (Dict HealthCheck) × History
  unfolding fetch_proxy_check index_checks is_gateway
  fetch_health_checks meta h =
      let name = construct_service_name c meta.family in
      let id = make_service_id name (task_id meta) in
      let (proxy_id, proxy_name) = make_proxy_svc_id_and_name id name in
      let (answer, h') = get_service_health_checks name id (query_options c) h in
      elim answer [
        | err e ↦ (err e, h')
        | ok checks ↦
            let m = index_checks checks [] in
            if is_gateway c then (ok m, h') else fetch_proxy_check proxy_name proxy_id m h'
      ]
