-- ===== src/HealthSync/Checks.antt =====
-- subcommand/health-sync/checks.go.
use consul_ecs.Base.{
  ◌<>◌, ◌==◌, String, true, List, [], ◌∷◌, Option, none, some, Result, ok, err, Error, errorf,
  Append, collect, if◌then◌else◌,
}
use consul_ecs.Base.Text.{quote}
use consul_ecs.Base.Dict.{Dict, lookup, insert}
use consul_ecs.Task.{TaskMeta, TaskContainer, task_id}
use consul_ecs.Consul.{HealthCheck, health_critical}
use consul_ecs.Client.{Client, Call, register, History, send}
use consul_ecs.Config.Types.{Config, consul_dataplane_container_name}
use consul_ecs.Config.Settings.{is_gateway}
use consul_ecs.HealthSync.Containers.{
  status_unhealthy, ecs_health_to_consul_health, find_containers_to_sync,
  overall_dataplane_health_status,
}
use consul_ecs.HealthSync.Naming.{
  construct_service_name, make_service_id, make_proxy_svc_id_and_name, construct_check_id,
}

-- The fields of `Command` and the locals of `realRun` that change, and the calls made to Consul.
pub record State : Type 0 where
  pub checks : Dict HealthCheck
  pub statuses : Dict String
  pub calls : History

-- The registration request for one check.
abbrev pub update_check_req : String → HealthCheck → Call
update_check_req cluster_arn check =
    register
      (record {
        node = cluster_arn;
        node_meta = [];
        address = "";
        service = none;
        checks = check ∷ [];
        partition = "";
        skip_node_update = true;
      })
      none

-- The check as it is stored and sent, under the given ID and health.
abbrev pub with_health : String → String → HealthCheck → HealthCheck
with_health check_id ecs_health_status check = record check {
  status = ecs_health_to_consul_health ecs_health_status;
  output =
      "ECS health status is " <> quote ecs_health_status <> " for container " <> quote check_id;
}

abbrev pub record_status : Option Error → String → String → State → State
record_status (some _) name status s = s
record_status none name status s = record s { statuses = insert name status s.statuses }

abbrev pub status_of : Option String → String
status_of none = ""
status_of (some s) = s

module _ (api : Client) (c : Config) (cluster_arn : String) where
  unfoldable pub update_consul_health_status : String → String → State → Option Error × State
  update_consul_health_status check_id ecs_health_status s = elim (lookup check_id s.checks) [
    | none ↦ (some (errorf ("unable to find check with ID " <> check_id)), s)
    | some check ↦
        let check' = with_health check_id ecs_health_status check in
        let (e, h) = send api (update_check_req cluster_arn check') s.calls in
        (e, record s { checks = insert check_id check' s.checks; calls = h })
  ]

  -- The service's check, and then the proxy's unless that failed or there is none.
  unfoldable pub handle_health_for_dataplane_container :
      String → String → String → String → State → Option Error × State
  handle_health_for_dataplane_container task_id service_name container_name ecs_health_status s =
      let service_id = make_service_id service_name task_id in
      let (e, s') =
        update_consul_health_status (construct_check_id service_id container_name) ecs_health_status
          s in
      if is_gateway c then (e, s') else elim e [
        | some x ↦ (some x, s')
        | none ↦
            update_consul_health_status
              (construct_check_id (make_proxy_svc_id_and_name service_id "").0 container_name)
              ecs_health_status s'
      ]

  -- What `setChecksCritical` does for one container, and `syncChecks` for a missing one.
  unfoldable pub mark_unhealthy : String → String → String → State → Option Error × State
  mark_unhealthy task_id service_name name s =
      if name == consul_dataplane_container_name
      then handle_health_for_dataplane_container task_id service_name name status_unhealthy s
      else update_consul_health_status
          (construct_check_id (make_service_id service_name task_id) name) status_unhealthy s

  -- Every container has its turn, whatever the errors.
  unfoldable pub mark_all_unhealthy :
      Append → String → String → List String → Option Error → State → Option Error × State
  mark_all_unhealthy append task_id service_name [] result s = (result, s)
  mark_all_unhealthy append task_id service_name (name ∷ names) result s =
      let (e, s') = mark_unhealthy task_id service_name name s in
      mark_all_unhealthy append task_id service_name names (collect append result e) s'

  unfoldable pub set_checks_critical :
      Append → TaskMeta → List String → State → Option Error × State
  set_checks_critical append meta names s =
      mark_all_unhealthy append (task_id meta) (construct_service_name c meta.family) names none s

  -- The first loop of `syncChecks`.
  unfoldable pub sync_missing : String → String → List String → State → State
  sync_missing task_id service_name [] s = s
  sync_missing task_id service_name (name ∷ names) s =
      let (e, s') = mark_unhealthy task_id service_name name s in
      sync_missing task_id service_name names (record_status e name health_critical s')

  -- A container whose health is as it was last time is passed over; the dataplane's health is
  -- only noted here.
  unfoldable pub sync_container : String → String → TaskContainer → State → State
  sync_container task_id service_name container s =
      let status = container.health.status in
      let (e, s') =
        if container.name == consul_dataplane_container_name
        then (none, s)
        else update_consul_health_status
            (construct_check_id (make_service_id service_name task_id) container.name) status s in
      if status == status_of (lookup container.name s.statuses)
      then s
      else record_status e container.name status s'

  -- The second loop of `syncChecks`.
  unfoldable pub sync_found : String → String → List TaskContainer → State → State
  sync_found task_id service_name [] s = s
  sync_found task_id service_name (container ∷ containers) s =
      sync_found task_id service_name containers (sync_container task_id service_name container s)

  unfoldable pub sync_checks : Result TaskMeta → List String → State → State
  sync_checks (err _) names s = s
  sync_checks (ok meta) names s =
      let service_name = construct_service_name c meta.family in
      let (found, missing) = find_containers_to_sync names meta.containers in
      let s1 = sync_missing (task_id meta) service_name missing s in
      let s2 = sync_found (task_id meta) service_name found s1 in
      (handle_health_for_dataplane_container (task_id meta) service_name
        consul_dataplane_container_name (overall_dataplane_health_status found) s2).1
