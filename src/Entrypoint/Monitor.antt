-- ===== src/Entrypoint/Monitor.antt =====
-- subcommand/envoy-entrypoint/task-monitor.go and subcommand/health-sync/dataplane_monitor.go.
use consul_ecs.Base.{
  ◌==◌, ◌&&◌, ◌||◌, not, String, Bool, true, false, List, [], ◌∷◌, Result, ok, err, if◌then◌else◌,
}
use consul_ecs.Task.{TaskMeta, TaskContainer, is_normal_type, has_stopped, has_container_stopped}
use consul_ecs.Config.Types.{consul_dataplane_container_name}

unfoldable pub is_non_app_container : String → Bool
is_non_app_container name =
    name == "consul-ecs-mesh-init" || name == "consul-dataplane" || name == "consul-ecs-health-sync"

unfoldable pub is_application : TaskContainer → Bool
unfolding is_non_app_container
is_application container =
    if not (is_normal_type container) then false else not (is_non_app_container container.name)

-- The loop over the containers, from the value of `allStopped` on.
unfoldable pub all_stopped_from : Bool → List TaskContainer → Bool
unfolding is_application
all_stopped_from all_stopped [] = all_stopped
all_stopped_from all_stopped (container ∷ containers) =
    all_stopped_from
      (if is_application container && not (has_stopped container) then false else all_stopped)
      containers

unfoldable pub all_app_containers_stopped : TaskMeta → Bool
unfolding all_stopped_from
all_app_containers_stopped meta = all_stopped_from true meta.containers

-- SIGTERM arrives, the context is cancelled, or the task metadata are polled.
pub data MonitorEvent : Type 0 where
  terminated cancelled : MonitorEvent
  polled : Result TaskMeta → MonitorEvent

-- In `waitForSIGTERM`, in the loop that polls, or at the end, where the channel is closed; with
-- whether something was sent on it before.
pub data MonitorPhase : Type 0 where
  asleep polling : MonitorPhase
  finished : Bool → MonitorPhase

-- One event of `AppContainerMonitor.Run`.
unfoldable pub app_monitor_step : MonitorPhase → MonitorEvent → MonitorPhase
app_monitor_step asleep terminated = polling
app_monitor_step asleep cancelled = finished true
app_monitor_step asleep (polled _) = asleep
app_monitor_step polling terminated = polling
app_monitor_step polling cancelled = finished false
app_monitor_step polling (polled (err _)) = polling
app_monitor_step polling (polled (ok meta)) =
    if all_app_containers_stopped meta then finished true else polling
app_monitor_step (finished b) e = finished b

-- One event of `dataplaneMonitor.run`, which sends nothing on its channel.
unfoldable pub dataplane_monitor_step : MonitorPhase → MonitorEvent → MonitorPhase
dataplane_monitor_step asleep terminated = polling
dataplane_monitor_step asleep cancelled = finished false
dataplane_monitor_step asleep (polled _) = asleep
dataplane_monitor_step polling terminated = polling
dataplane_monitor_step polling cancelled = finished false
dataplane_monitor_step polling (polled (err _)) = polling
dataplane_monitor_step polling (polled (ok meta)) =
    if has_container_stopped meta consul_dataplane_container_name then finished false else polling
dataplane_monitor_step (finished b) e = finished b

abbrev pub monitor_run :
    (MonitorPhase → MonitorEvent → MonitorPhase) → MonitorPhase → List MonitorEvent → MonitorPhase
monitor_run step phase [] = phase
monitor_run step phase (e ∷ es) = monitor_run step (step phase e) es
