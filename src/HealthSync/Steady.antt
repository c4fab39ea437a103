-- ===== src/HealthSync/Steady.antt =====
-- `syncChecks` of subcommand/health-sync/checks.go where nothing has changed.
use consul_ecs.Base.{◌≡◌, eq_iff, refl, String, List, [], ◌∷◌, ok, arith, All}
use consul_ecs.Base.Dict.{lookup}
use consul_ecs.Task.{TaskMeta, TaskContainer, task_id}
use consul_ecs.Client.{Client}
use consul_ecs.Config.Types.{Config, consul_dataplane_container_name}
use consul_ecs.HealthSync.Naming.{construct_service_name}
use consul_ecs.HealthSync.Containers.{find_containers_to_sync, overall_dataplane_health_status}
use consul_ecs.HealthSync.Checks.{
  State, status_of, sync_container, sync_missing, sync_found, sync_checks,
  handle_health_for_dataplane_container,
}

-- The container's health is the one noted at the last sync.
abbrev pub IsNoted : State → TaskContainer → Type 0
IsNoted s k = status_of (lookup k.name s.statuses) ≡ k.health.status

module _ (api : Client) (c : Config) (cluster_arn : String) where
  sync_container_noted :
      (task service_name : String) (k : TaskContainer) (s : State)
      → IsNoted s k
      → sync_container api c cluster_arn task service_name k s ≡ s
  unfolding sync_container
  sync_container_noted task service_name k s h =
      ground (arith, eq_iff k.health.status (status_of (lookup k.name s.statuses)))

  sync_found_noted :
      (task service_name : String) (ks : List TaskContainer) (s : State)
      → All (IsNoted s) ks
      → sync_found api c cluster_arn task service_name ks s ≡ s
  unfolding sync_found
  sync_found_noted task service_name [] s h = refl
  sync_found_noted task service_name (k ∷ ks) s h =
      rw (sync_container_noted task service_name k s h.0)
        (sync_found_noted task service_name ks s h.1)

  -- Where every synced container is in the metadata with the health noted at the last sync, a sync
  -- does nothing but update the dataplane's checks with the overall health.
  pub sync_checks_noted :
      (meta : TaskMeta) (names : List String) (s : State)
      → (find_containers_to_sync names meta.containers).1 ≡ []
      → All (IsNoted s) (find_containers_to_sync names meta.containers).0
      → sync_checks api c cluster_arn (ok meta) names s
        ≡ (handle_health_for_dataplane_container api c cluster_arn
            (task_id meta)
            (construct_service_name c meta.family)
            consul_dataplane_container_name
            (overall_dataplane_health_status (find_containers_to_sync names meta.containers).0)
            s).1
  unfolding sync_checks sync_missing
  sync_checks_noted meta names s complete noted =
      rw (complete, sync_checks, sync_missing)
        (rw (sync_found_noted (task_id meta) (construct_service_name c meta.family) _ s noted))
