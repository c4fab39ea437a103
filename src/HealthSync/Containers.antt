-- ===== src/HealthSync/Containers.antt =====
-- subcommand/health-sync/checks.go: the health of a task's containers, apart from Consul.
use consul_ecs.Base.{
  ◌==◌, not, ◌&&◌, String, Bool, true, List, [], ◌∷◌, Option, none, some, if◌then◌else◌,
}
use consul_ecs.Base.Dict.{Dict, lookup, insert}
use consul_ecs.Task.{TaskContainer}
use consul_ecs.Consul.{health_critical, health_passing}
use consul_ecs.Config.Types.{consul_dataplane_container_name}

-- `types.HealthStatusHealthy`, `types.HealthStatusUnhealthy` of the ECS SDK
abbrev pub status_healthy : String
status_healthy = "HEALTHY"

abbrev pub status_unhealthy : String
status_unhealthy = "UNHEALTHY"

unfoldable pub ecs_health_to_consul_health : String → String
ecs_health_to_consul_health ecs_health =
    if not (ecs_health == status_healthy) then health_critical else health_passing

-- The containers of the task that bear a name of the list, first match only, and the other names.
unfoldable pub first_named : String → List TaskContainer → Option TaskContainer
first_named name [] = none
first_named name (c ∷ cs) = if c.name == name then some c else first_named name cs

abbrev sort_name :
    String
    → Option TaskContainer
    → List TaskContainer × List String
    → List TaskContainer × List String
sort_name name none (found, missing) = (found, name ∷ missing)
sort_name name (some c) (found, missing) = (c ∷ found, missing)

unfoldable pub find_containers_to_sync :
    List String → List TaskContainer → List TaskContainer × List String
unfolding first_named
find_containers_to_sync [] cs = ([], [])
find_containers_to_sync (name ∷ names) cs =
    sort_name name (first_named name cs) (find_containers_to_sync names cs)

-- `parsedContainers`, and the loop over it, whose order does not matter.
unfoldable pub parsed_containers : List TaskContainer → Dict String → Dict String
unfolding insert
parsed_containers [] m = m
parsed_containers (container ∷ containers) m =
    parsed_containers containers (insert container.name container.health.status m)

unfoldable pub all_healthy : Dict String → Bool
all_healthy [] = true
all_healthy ((_, status) ∷ m) = status == status_healthy && all_healthy m

unfoldable pub overall_dataplane_health_status : List TaskContainer → String
unfolding parsed_containers all_healthy lookup
overall_dataplane_health_status containers =
    let m = parsed_containers containers [] in
    elim (lookup consul_dataplane_container_name m) [
      | none ↦ status_unhealthy
      | some status ↦
          if status == status_healthy
          then if all_healthy m then status else status_unhealthy
          else status_unhealthy
    ]
