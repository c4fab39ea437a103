-- ===== src/Entrypoint/MonitorEnds.antt =====
-- When the monitors end, subcommand/envoy-entrypoint/task-monitor.go and
-- subcommand/health-sync/dataplane_monitor.go.
use consul_ecs.Base.{
  ◌≡◌, ◌≢◌, ◌⊎◌, eq_iff, not, ◌&&◌, ◌↔◌, refl, true, false, Bool, List, [], ◌∷◌, All, ok, err,
  arith, ◌||◌,
}
use consul_ecs.Task.{TaskMeta, TaskContainer, is_normal_type, has_stopped, has_container_stopped}
use consul_ecs.Config.Types.{consul_dataplane_container_name}
use consul_ecs.Entrypoint.Monitor.{
  is_non_app_container, is_application, all_stopped_from, all_app_containers_stopped, MonitorEvent,
  terminated, cancelled, polled, MonitorPhase, asleep, polling, finished, app_monitor_step,
  dataplane_monitor_step, monitor_run,
}

-- A container of normal type that is none of consul-ecs is desired and known to be stopped.
abbrev pub StoppedIfApp : TaskContainer → Type 0
StoppedIfApp k =
    (k.type ≢ "NORMAL")
    ⊎ ((k.name ≡ "consul-ecs-mesh-init")
        ⊎ (k.name ≡ "consul-dataplane")
        ⊎ (k.name ≡ "consul-ecs-health-sync"))
    ⊎ ((k.desired_status ≡ "STOPPED") × (k.known_status ≡ "STOPPED"))

StoppedIfApp-iff :
    (k : TaskContainer) → (is_application k && not (has_stopped k) ≡ false) ↔ StoppedIfApp k
unfolding is_application is_non_app_container is_normal_type has_stopped
StoppedIfApp-iff k = ground (
  arith,
  eq_iff k.type "NORMAL",
  eq_iff k.name "consul-ecs-mesh-init",
  eq_iff k.name "consul-dataplane",
  eq_iff k.name "consul-ecs-health-sync",
  eq_iff k.desired_status "STOPPED",
  eq_iff k.known_status "STOPPED",
)

all_stopped_from_iff :
    (b : Bool) (ks : List TaskContainer)
    → (all_stopped_from b ks ≡ true) ↔ ((b ≡ true) × All StoppedIfApp ks)
unfolding all_stopped_from
all_stopped_from_iff b [] = ground arith
all_stopped_from_iff true (k ∷ ks) =
    ground (arith, StoppedIfApp-iff k, all_stopped_from_iff true ks, all_stopped_from_iff false ks)
all_stopped_from_iff false (k ∷ ks) =
    ground (arith, StoppedIfApp-iff k, all_stopped_from_iff false ks)

-- Some poll answers with metadata that pass the test.
abbrev pub has_poll : (TaskMeta → Bool) → List MonitorEvent → Bool
has_poll test [] = false
has_poll test (polled (ok meta) ∷ es) = test meta || has_poll test es
has_poll test (_ ∷ es) = has_poll test es

-- Some such poll follows SIGTERM.
abbrev pub polls_after_sigterm : (TaskMeta → Bool) → List MonitorEvent → Bool
polls_after_sigterm test [] = false
polls_after_sigterm test (terminated ∷ es) = has_poll test es
polls_after_sigterm test (_ ∷ es) = polls_after_sigterm test es

abbrev pub NotCancelled : MonitorEvent → Type 0
NotCancelled cancelled = ⊥
NotCancelled _ = Unit

abbrev pub is_finished : MonitorPhase → Bool
is_finished (finished _) = true
is_finished _ = false

app_finished_stays :
    (b : Bool) (es : List MonitorEvent) → monitor_run app_monitor_step (finished b) es ≡ finished b
unfolding app_monitor_step
app_finished_stays b [] = refl
app_finished_stays b (e ∷ es) = app_finished_stays b es

dataplane_finished_stays :
    (b : Bool) (es : List MonitorEvent)
    → monitor_run dataplane_monitor_step (finished b) es ≡ finished b
unfolding dataplane_monitor_step
dataplane_finished_stays b [] = refl
dataplane_finished_stays b (e ∷ es) = dataplane_finished_stays b es

app_polling :
    (es : List MonitorEvent)
    → All NotCancelled es
    → is_finished (monitor_run app_monitor_step polling es) ≡ has_poll all_app_containers_stopped es
unfolding app_monitor_step
app_polling [] h = refl
app_polling (terminated ∷ es) h = app_polling es h.1
app_polling (cancelled ∷ es) h = absurd h.0
app_polling (polled (err e) ∷ es) h = app_polling es h.1
app_polling (polled (ok meta) ∷ es) h =
    ground (arith, app_polling es h.1, app_finished_stays true es)

dataplane_polling :
    (es : List MonitorEvent)
    → All NotCancelled es
    → is_finished (monitor_run dataplane_monitor_step polling es)
      ≡ has_poll (λ meta. has_container_stopped meta consul_dataplane_container_name) es
unfolding dataplane_monitor_step
dataplane_polling [] h = refl
dataplane_polling (terminated ∷ es) h = dataplane_polling es h.1
dataplane_polling (cancelled ∷ es) h = absurd h.0
dataplane_polling (polled (err e) ∷ es) h = dataplane_polling es h.1
dataplane_polling (polled (ok meta) ∷ es) h =
    ground (arith, dataplane_polling es h.1, dataplane_finished_stays false es)

app_asleep :
    (es : List MonitorEvent)
    → All NotCancelled es
    → is_finished (monitor_run app_monitor_step asleep es)
      ≡ polls_after_sigterm all_app_containers_stopped es
unfolding app_monitor_step
app_asleep [] h = refl
app_asleep (terminated ∷ es) h = app_polling es h.1
app_asleep (cancelled ∷ es) h = absurd h.0
app_asleep (polled p ∷ es) h = app_asleep es h.1

-- Unless it is cancelled, the monitor of the application ends exactly when some poll after SIGTERM
-- answers that all the application's containers have stopped, and a poll says so exactly when each
-- container of normal type that is none of consul-ecs has stopped and is meant to.
pub app_monitor_ends :
    (es : List MonitorEvent)
    → All NotCancelled es
    → (is_finished (monitor_run app_monitor_step asleep es)
        ≡ polls_after_sigterm all_app_containers_stopped es)
      × ((meta : TaskMeta)
          → (all_app_containers_stopped meta ≡ true) ↔ All StoppedIfApp meta.containers)
unfolding all_app_containers_stopped
app_monitor_ends es h =
    (app_asleep es h, λ meta. ground (arith, all_stopped_from_iff true meta.containers))

-- Unless it is cancelled, the monitor of the dataplane ends exactly when some poll after SIGTERM
-- answers that the dataplane's container has stopped.
pub dataplane_monitor_ends :
    (es : List MonitorEvent)
    → All NotCancelled es
    → is_finished (monitor_run dataplane_monitor_step asleep es)
      ≡ polls_after_sigterm (λ meta. has_container_stopped meta consul_dataplane_container_name) es
unfolding dataplane_monitor_step
dataplane_monitor_ends [] h = refl
dataplane_monitor_ends (terminated ∷ es) h = dataplane_polling es h.1
dataplane_monitor_ends (cancelled ∷ es) h = absurd h.0
dataplane_monitor_ends (polled p ∷ es) h = dataplane_monitor_ends es h.1
