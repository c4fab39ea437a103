-- ===== src/MeshInit/Synced.antt =====
-- The checks that subcommand/mesh-init registers, as subcommand/health-sync fetches them.
use mathlib.Core.Path.{subst}
use consul_ecs.Base.{
  ◌≡◌, ◌==◌, eq_iff, eq_refl, refl, true, false, String, List, [], ◌∷◌, ◌++◌, map, contains, All,
  ok, arith, Bool-cases, inl, inr,
}
use consul_ecs.Base.Dict.{Dict, insert, lookup-insert}
use consul_ecs.Task.{TaskMeta, task_id}
use consul_ecs.Consul.{AgentService, HealthCheck, kind_typical, QueryOptions}
use consul_ecs.Client.{Client, History, health_checks}
use consul_ecs.Config.Types.{Config, ConnectProxyConfig, consul_dataplane_container_name}
use consul_ecs.Config.Settings.{is_gateway}
use consul_ecs.Config.Registration.{service_to_consul}
use consul_ecs.MeshInit.Naming
use consul_ecs.MeshInit.Naming.{construct_checks, container_check, dataplane_check}
use consul_ecs.MeshInit.Registration.{typical_service, sidecar_proxy}
use consul_ecs.HealthSync.Naming.{
  construct_service_name, make_service_id, make_proxy_svc_id_and_name, construct_check_id,
}
use consul_ecs.HealthSync.Fetch.{
  get_service_health_checks, fetch_proxy_check, filter_of, query_options, index_checks,
  fetch_health_checks,
}
use consul_ecs.HealthSync.Loop.{health_sync_containers}
use consul_ecs.MeshInit.Indexed.{
  ids, IsCritical, IsFound, index_checks-IsInitial, lookup-index_checks, IsFound-of, insert-IsFound,
}

module _ (c : Config) (service : AgentService) where
  container_checks-IsCritical :
      (names : List String)
      → All IsCritical (map (container_check service) names ++ dataplane_check service ∷ [])
  container_checks-IsCritical [] = (refl, tt)
  container_checks-IsCritical (n ∷ names) = (refl, container_checks-IsCritical names)

  construct_checks-IsCritical : All IsCritical (construct_checks c service)
  unfolding construct_checks
  construct_checks-IsCritical = elim (Bool-cases (service.kind == kind_typical)) [
    | inl e ↦ rw e (container_checks-IsCritical c.health_sync_containers)
    | inr e ↦ rw e (refl, tt)
  ]

  ids-container_checks :
      (names : List String) (name : String)
      → contains (names ++ consul_dataplane_container_name ∷ []) name ≡ true
      → contains
          (ids (map (container_check service) names ++ dataplane_check service ∷ []))
          (construct_check_id service.id name)
        ≡ true
  unfolding construct_check_id Naming.construct_check_id
  ids-container_checks [] name m =
      let same : consul_dataplane_container_name ≡ name =
        ground (arith, eq_iff consul_dataplane_container_name name) in
      subst
        (λ k.
          contains (ids (dataplane_check service ∷ [])) (construct_check_id service.id k) ≡ true)
        same
        (rw (eq_refl (Naming.construct_check_id service.id consul_dataplane_container_name)) refl)
  ids-container_checks (n ∷ names) name m =
      let rest = ids (map (container_check service) names ++ dataplane_check service ∷ []) in
      let all = Naming.construct_check_id service.id n ∷ rest in
      elim (Bool-cases (n == name)) [
        | inl e ↦
            subst (λ k. contains all (construct_check_id service.id k) ≡ true) ((eq_iff n name).0 e)
              (rw (eq_refl (Naming.construct_check_id service.id n)) refl)
        | inr e ↦ let later = ids-container_checks names name (ground arith) in grind arith
      ]

  ids-construct_checks :
      (name : String)
      → service.kind ≡ kind_typical
      → contains (health_sync_containers c) name ≡ true
      → contains (ids (construct_checks c service)) (construct_check_id service.id name) ≡ true
  unfolding construct_checks
  ids-construct_checks name typical m =
      rw (typical, construct_checks) (ids-container_checks c.health_sync_containers name m)

fetch_health_checks_typical :
    (api : Client) (c : Config) (meta : TaskMeta) (h : History) (checks : List HealthCheck)
    (check : HealthCheck)
    → let name = construct_service_name c meta.family in
      let id = make_service_id name (task_id meta) in
      let (proxy_id, proxy_name) = make_proxy_svc_id_and_name id name in
      let o : QueryOptions = record (query_options c) { filter = filter_of id } in
      is_gateway c ≡ false
      → api.checks h name o ≡ ok checks
      → api.checks
          (h ++ health_checks name o ∷ [])
          proxy_name
          (record (query_options c) { filter = filter_of proxy_id })
        ≡ ok (check ∷ [])
      → (fetch_health_checks api c meta h).0
        ≡ ok (insert check.check_id check (index_checks checks []))
unfolding fetch_health_checks fetch_proxy_check get_service_health_checks
fetch_health_checks_typical api c meta h checks check typical a1 a2 = ground arith

module _ (api : Client) (c : Config) (region : String) (p : ConnectProxyConfig)
    (meta : TaskMeta) where
  abbrev pub service : AgentService
  service = typical_service c region meta

  abbrev pub proxy : AgentService
  proxy = sidecar_proxy c service p meta

  -- Consul answers a query for the service, in the namespace and the partition in which it was
  -- registered, with the checks that were registered for it. Nothing is said of other queries.
  abbrev pub HasChecks : AgentService → Type 0
  HasChecks s =
      (h : History) (o : QueryOptions)
      → o.namespace ≡ s.namespace
      → o.partition ≡ s.partition
      → o.filter ≡ filter_of s.id
      → api.checks h s.service o ≡ ok (construct_checks c s)

  own_namespace : is_gateway c ≡ false → (query_options c).namespace ≡ service.namespace
  unfolding typical_service service_to_consul
  own_namespace typical = rw typical refl

  own_partition : is_gateway c ≡ false → (query_options c).partition ≡ service.partition
  unfolding typical_service service_to_consul
  own_partition typical = rw typical refl

  fetch_registered :
      (h : History)
      → is_gateway c ≡ false
      → HasChecks service
      → HasChecks proxy
      → (fetch_health_checks api c meta h).0
        ≡ ok (
            insert
              (dataplane_check proxy).check_id
              (dataplane_check proxy)
              (index_checks (construct_checks c service) []))
  unfolding construct_service_name make_service_id make_proxy_svc_id_and_name construct_check_id
      Naming.construct_service_name Naming.make_service_id Naming.make_proxy_svc_id_and_name
      Naming.construct_check_id typical_service sidecar_proxy construct_checks
  fetch_registered h typical has has_proxy =
      fetch_health_checks_typical api c meta h (construct_checks c service) (dataplane_check proxy)
        typical (has h _ (own_namespace typical) (own_partition typical) refl)
        (has_proxy _ _ (own_namespace typical) (own_partition typical) refl)

  -- Where the task is no gateway and Consul answers queries in the namespace and the partition of the
  -- registrations with the checks that mesh-init registered for the service and for its sidecar
  -- proxy, health-sync succeeds in fetching them: it then has the check
  -- of every container that it syncs, and the proxy's check of the dataplane, each under the ID by
  -- which it updates it, and all of them critical.
  pub registered_checks-IsFound :
      (h : History)
      → is_gateway c ≡ false
      → HasChecks service
      → HasChecks proxy
      → (m : Dict HealthCheck) × ((fetch_health_checks api c meta h).0 ≡ ok m)
        × ((name : String)
            → contains (health_sync_containers c) name ≡ true
            → IsFound m (
                construct_check_id
                  (make_service_id (construct_service_name c meta.family) (task_id meta))
                  name))
        × IsFound m (
            construct_check_id
              (make_proxy_svc_id_and_name
                (make_service_id (construct_service_name c meta.family) (task_id meta))
                "").0
              consul_dataplane_container_name)
  unfolding construct_service_name make_service_id make_proxy_svc_id_and_name construct_check_id
      Naming.construct_service_name Naming.make_service_id Naming.make_proxy_svc_id_and_name
      Naming.construct_check_id typical_service sidecar_proxy service_to_consul
  registered_checks-IsFound h typical has has_proxy =
      let checks = construct_checks c service in
      let m = index_checks checks [] in
      let critical = index_checks-IsInitial checks [] (construct_checks-IsCritical c service) tt in
      (
        insert (dataplane_check proxy).check_id (dataplane_check proxy) m,
        fetch_registered h typical has has_proxy,
        λ name synced. insert-IsFound m (dataplane_check proxy) _ refl (
            IsFound-of m _ critical
              (lookup-index_checks checks [] _ (ids-construct_checks c service name refl synced))),
        (
          dataplane_check proxy,
          ground (
            arith,
            lookup-insert (dataplane_check proxy).check_id (dataplane_check proxy).check_id
                (dataplane_check proxy) m,
            eq_refl (dataplane_check proxy).check_id,
          ),
          (refl, refl),
        ),
      )
