-- ===== src/Tests/HealthSync.antt =====
-- Tests and examples for health-sync and the task metadata.
use consul_ecs.Base.{
  ◌≡◌, ◌≢◌, ◌↔◌, refl, true, false, String, List, [], ◌∷◌, ◌++◌, All, none, some, ok, err, errorf,
}
use consul_ecs.Base.Dict.{Dict, lookup, insert}
use consul_ecs.Consul.{HealthCheck}
use consul_ecs.HealthSync.Fetch.{index_checks, fetch_health_checks}
use consul_ecs.HealthSync.Kept.{IsReplayed}
use consul_ecs.HealthSync.Replayed.{run-replay}
use consul_ecs.Task.{has_container_stopped, parse_task_id, task_id}
use consul_ecs.Task.Stopped.{StoppedIfNamed, has_container_stopped_iff}
use consul_ecs.Client.{Client, NoneFails, History, connect}
use consul_ecs.Config.Types.{consul_dataplane_container_name}
use consul_ecs.HealthSync.Containers.{
  status_healthy, first_named, find_containers_to_sync, overall_dataplane_health_status,
}
use consul_ecs.HealthSync.Checks.{
  State, sync_checks, set_checks_critical, handle_health_for_dataplane_container,
}
use consul_ecs.HealthSync.Naming.{construct_check_id, make_service_id, construct_service_name}
use consul_ecs.HealthSync.Critical.{status_at}
use consul_ecs.HealthSync.Told.{IsTold, set_checks_critical-tells}
use consul_ecs.HealthSync.Overall.{HealthyIfFound, overall_status_iff}
use consul_ecs.HealthSync.Steady.{sync_checks_noted}
use consul_ecs.HealthSync.Loop.{
  Event, tick, server_changed, sigterm, dataplane_done, running, run, terminate,
}
use consul_ecs.HealthSync.Shutdown.{
  run_quiet, state_of, sigterm-stays_critical, farewell, terminate-farewell,
}
use consul_ecs.Tests.Samples.{task, config, client, append, check}

abbrev stored : State
stored = record {
  checks =
      ("web-7-app", check "web-7-app")
      ∷ ("web-7-consul-dataplane", check "web-7-consul-dataplane")
      ∷ [];
  statuses = ("app", "HEALTHY") ∷ ("consul-dataplane", "HEALTHY") ∷ [];
  calls = [];
}

abbrev arn : String
arn = "arn:aws:ecs:us-east-1:1:cluster/c"

abbrev synced : List String
synced = "app" ∷ "consul-dataplane" ∷ []

abbrev events : List Event
events = tick (ok task) ∷ server_changed (ok "10.0.0.1") ∷ server_changed (err (errorf "gone")) ∷ []

stopped_example :
    (has_container_stopped task "app" ≡ true) ↔ All (StoppedIfNamed "app") task.containers
stopped_example = has_container_stopped_iff task "app"

overall_example :
    (overall_dataplane_health_status (find_containers_to_sync synced task.containers).0
      ≡ status_healthy)
    ↔ ((first_named consul_dataplane_container_name task.containers ≢ none)
        × All (HealthyIfFound task.containers) synced)
overall_example = overall_status_iff synced task.containers refl

set_checks_critical_example :
    let s' = (set_checks_critical client config arn append task synced stored).1 in
    (status_at "web-7-app" s' ≡ some "critical") × IsTold arn (some "web-7-app") [] s'.calls
unfolding construct_check_id lookup make_service_id construct_service_name task_id parse_task_id
set_checks_critical_example =
    set_checks_critical-tells client config arn append task synced "app" stored refl

steady_example :
    sync_checks client config arn (ok task) synced stored
    ≡ (handle_health_for_dataplane_container client config arn
        (task_id task)
        (construct_service_name config task.family)
        consul_dataplane_container_name
        (overall_dataplane_health_status (find_containers_to_sync synced task.containers).0)
        stored).1
unfolding find_containers_to_sync lookup
steady_example = sync_checks_noted client config arn task synced stored refl (refl, (refl, tt))

quiet_example :
    run client append config arn task (record { shutting_down = true; state = stored }) events
    ≡ running
        (record { shutting_down = true; state = record stored { calls = connect "10.0.0.1" ∷ [] } })
quiet_example = run_quiet client append config arn task stored events (tt, (tt, (tt, tt)))

sigterm_example :
    let s = state_of (
      run client append config arn task
        (record { shutting_down = false; state = stored })
        (sigterm ∷ events)) in
    (status_at "web-7-app" s ≡ some "critical")
    × (h : History) × IsTold arn (some "web-7-app") [] h
    × (s.calls ≡ h ++ connect "10.0.0.1" ∷ [])
unfolding construct_check_id lookup make_service_id construct_service_name task_id parse_task_id
sigterm_example =
    sigterm-stays_critical client append config arn task
      (record { shutting_down = false; state = stored }) events "app" (tt, (tt, (tt, tt))) refl

farewell_example :
    ((terminate client append config arn task stored).1
      ≡ record stored { calls = farewell client append config arn task })
    × (((terminate client append config arn task stored).0 ≡ none)
        ↔ NoneFails client [] (farewell client append config arn task))
farewell_example = terminate-farewell client append config arn task stored

-- The health of the containers that are found decides, whatever is missing.
missing_ignored :
    overall_dataplane_health_status (find_containers_to_sync ("db" ∷ synced) task.containers).0
    ≡ "HEALTHY"
unfolding overall_dataplane_health_status find_containers_to_sync lookup
missing_ignored = refl

-- The service's name is the family's in lower case where the configuration has none.
named : construct_service_name config task.family ≡ "web"
unfolding construct_service_name
named = refl

-- Servers that know one check.
abbrev answering : Client
answering = record client { checks = λ h name o. ok (check "web-7-app" ∷ []) }

abbrev fetched : Dict HealthCheck
fetched = ("web-7-app", check "web-7-app") ∷ []

run-replay_example : IsReplayed fetched [] (
    state_of (
      run answering append config arn task
        (record {
          shutting_down = false;
          state = record { checks = fetched; statuses = []; calls = [] };
        })
        (tick (ok task) ∷ sigterm ∷ dataplane_done ∷ [])))
unfolding fetch_health_checks index_checks insert
run-replay_example =
    run-replay answering append config arn task [] [] fetched
      (tick (ok task) ∷ sigterm ∷ dataplane_done ∷ []) refl
