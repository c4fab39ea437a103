-- ===== src/HealthSync/Started.antt =====
-- When a run of health-sync returns, and what it has done before its loop.
use consul_ecs.Base.{
  ◌≡◌, ◌↔◌, ◌⊎◌, inl, inr, refl, String, Bool, true, false, List, [], ◌∷◌, ◌++◌, err, Error, arith,
  Append, Result-cases, Option-cases, if◌then◌else◌,
}
use consul_ecs.HealthSync.Naming.{
  construct_service_name, make_service_id, make_proxy_svc_id_and_name,
}
use consul_ecs.Task.{task_id, TaskMeta, ecs_task_metadata, cluster_arn}
use consul_ecs.Client.{
  Client, Call, History, health_checks, Extends, Extends-refl, Extends-one, Extends-trans,
}
use consul_ecs.Config.Types.{Config}
use consul_ecs.Config.Settings.{is_gateway}
use consul_ecs.MeshInit.Host.{Host}
use consul_ecs.HealthSync.Fetch.{
  filter_of, query_options, get_service_health_checks, fetch_proxy_check, fetch_health_checks,
}
use consul_ecs.HealthSync.Loop.{Event}
use consul_ecs.HealthSync.Shutdown.{is_returned, has_dataplane_done, run_returns}
use consul_ecs.HealthSync.Start.{connect_loop, first_checks, set_up, real_run}

-- A query for checks.
abbrev pub IsCheckQuery : Call → Type 0
IsCheckQuery (health_checks _ _) = Unit
IsCheckQuery _ = ⊥

either_queries :
    {A : Type 0} (b : Bool) (x y : A × History) (h : History)
    → Extends IsCheckQuery h x.1
    → Extends IsCheckQuery h y.1
    → Extends IsCheckQuery h (if b then x else y).1
either_queries true x y h p q = p
either_queries false x y h p q = q

fetch_health_checks_queries :
    (api : Client) (c : Config) (meta : TaskMeta) (h : History)
    → Extends IsCheckQuery h (fetch_health_checks api c meta h).1
unfolding fetch_health_checks fetch_proxy_check get_service_health_checks
fetch_health_checks_queries api c meta h =
    let name = construct_service_name c meta.family in
    let id = make_service_id name (task_id meta) in
    let ids = make_proxy_svc_id_and_name id name in
    let query = λ (service : String) (service_id : String).
      health_checks service (record (query_options c) { filter = filter_of service_id }) in
    let first = Extends-one IsCheckQuery h (query name id) tt in
    let h1 = h ++ query name id ∷ [] in
    let second = Extends-one IsCheckQuery h1 (query ids.1 ids.0) tt in
    elim (Result-cases (api.checks h name (record (query_options c) { filter = filter_of id }))) [
      | inl (e, x) ↦ rw (x, fetch_health_checks) first
      | inr (checks, x) ↦
          rw (x, fetch_health_checks)
            (either_queries (is_gateway c) _ _ h first
              (Extends-trans IsCheckQuery h h1 (h1 ++ query ids.1 ids.0 ∷ []) first second))
    ]

set_up_queries :
    (host : Host) (c : Config) (h : History) → Extends IsCheckQuery h (set_up host c h).1
unfolding set_up first_checks
set_up_queries host c h =
    elim (Result-cases
      (ecs_task_metadata (host.env "ECS_CONTAINER_METADATA_URI_V4") host.http_get)) [
        | inl (e, x) ↦ rw (x, set_up) (Extends-refl IsCheckQuery h)
        | inr (meta, x) ↦ elim (Result-cases (cluster_arn meta)) [
          | inl (e, y) ↦ rw (x, y, set_up) (Extends-refl IsCheckQuery h)
          | inr (arn, y) ↦ elim (Option-cases (connect_loop host c meta)) [
            | inr (e, z) ↦ rw (x, y, z, set_up) (Extends-refl IsCheckQuery h)
            | inl z ↦ rw (x, y, z, set_up) (fetch_health_checks_queries host.api c meta h)
          ]
        ]
      ]

-- The set-up of health-sync only queries checks. A run returns exactly when its set-up fails or the
-- end of the dataplane is among the events.
pub real_run_returned :
    (host : Host) (c : Config) (append : Append) (events : List Event) (h : History)
    → Extends IsCheckQuery h (set_up host c h).1
      × ((is_returned (real_run host c append events h) ≡ true)
          ↔ (((e : Error) × ((set_up host c h).0 ≡ err e)) ⊎ (has_dataplane_done events ≡ true)))
unfolding real_run
real_run_returned host c append events h = (
  set_up_queries host c h,
  elim (Result-cases (set_up host c h).0) [
    | inl (e, x) ↦ rw (x, real_run) (λ _. inl (e, refl), λ _. refl)
    | inr ((meta, arn, checks), x) ↦
        let returns = run_returns host.api append c arn meta events (record {
          shutting_down = false;
          state = record { checks = checks; statuses = []; calls = (set_up host c h).1 };
        }) in
        rw (x, real_run)
          (
            λ y. inr (ground (arith, y, returns)),
            λ y. elim y [
              | inl (e, failed) ↦ absurd (ground (arith, failed))
              | inr done ↦ ground (arith, done, returns)
            ],
          )
  ],
)
