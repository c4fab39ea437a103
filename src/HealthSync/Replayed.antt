-- ===== src/HealthSync/Replayed.antt =====
-- The checks that subcommand/health-sync keeps, against the updates that it has sent.
use mathlib.Core.Path.{subst}
use mathlib.Core.List.{append_assoc, append-nil}
use consul_ecs.Base.{
  ◌≡◌, ◌∙◌, refl, sym, ap, true, false, Bool, String, List, [], ◌∷◌, ◌++◌, none, ok, err, Append,
  arith, inl, inr, Result-cases, Bool-cases,
}
use consul_ecs.Base.Dict.{Dict, insert, insert-Entries}
use consul_ecs.Task.{TaskMeta, task_id}
use consul_ecs.Consul.{HealthCheck, QueryOptions}
use consul_ecs.Client.{Client, connect, health_checks, History}
use consul_ecs.Config.Types.{Config}
use consul_ecs.Config.Settings.{is_gateway}
use consul_ecs.HealthSync.Naming.{
  construct_service_name, make_service_id, make_proxy_svc_id_and_name,
}
use consul_ecs.HealthSync.Containers.{status_unhealthy}
use consul_ecs.HealthSync.Fetch.{
  index_checks, only_check, filter_of, query_options, get_service_health_checks, fetch_proxy_check,
  fetch_health_checks,
}
use consul_ecs.HealthSync.Checks.{State, set_checks_critical}
use consul_ecs.HealthSync.Critical.{mark_all-keeps}
use consul_ecs.HealthSync.Loop.{
  Event, tick, server_changed, sigterm, dataplane_done, health_sync_containers, terminate, step,
  run,
}
use consul_ecs.HealthSync.Shutdown.{state_of, farewell, terminate-farewell}
use consul_ecs.HealthSync.Kept.{
  replay, replay-append, IsKeyed, IsReplayed, Kept, then-Kept, update-Kept, sync_checks-Kept,
}

index_checks-IsKeyed :
    (checks : List HealthCheck) (m : Dict HealthCheck) → IsKeyed m → IsKeyed (index_checks checks m)
unfolding index_checks
index_checks-IsKeyed [] m h = h
index_checks-IsKeyed (check ∷ checks) m h =
    index_checks-IsKeyed checks (insert check.check_id check m)
      (insert-Entries (λ id check. check.check_id ≡ id) check.check_id check m refl h)

module _ (api : Client) (append : Append) (c : Config) (cluster_arn : String) (meta : TaskMeta)
    (m : Dict HealthCheck) (h : History) where
  farewell-replay :
      (checks : Dict HealthCheck) → replay (farewell api append c cluster_arn meta) checks ≡ checks
  farewell-replay checks = elim (Bool-cases (is_gateway c)) [
    | inl g ↦ elim (Bool-cases c.consul_login.enabled) [
      | inl l ↦ rw (g, l) refl
      | inr l ↦ rw (g, l) refl
    ]
    | inr g ↦ elim (Bool-cases c.consul_login.enabled) [
      | inl l ↦ rw (g, l) refl
      | inr l ↦ rw (g, l) refl
    ]
  ]

  terminate-IsReplayed :
      (s : State)
      → Kept api c cluster_arn m h s
      → IsReplayed m h (terminate api append c cluster_arn meta s).1
  terminate-IsReplayed s ((calls, since, are), _) =
      let last = farewell api append c cluster_arn meta in
      rw ((terminate-farewell api append c cluster_arn meta s).0) (
        calls ++ last,
        ap (λ (l : History). l ++ last) since ∙ append_assoc h calls last,
        are ∙ sym (farewell-replay (replay calls m)) ∙ sym (replay-append calls last m),
      )

  run-IsReplayed :
      (es : List Event) (down : Bool) (s : State)
      → Kept api c cluster_arn m h s
      → IsReplayed m h (
          state_of
            (run api append c cluster_arn meta (record { shutting_down = down; state = s }) es))
  unfolding run step set_checks_critical
  run-IsReplayed [] down s kept = kept.0
  run-IsReplayed (dataplane_done ∷ es) down s kept = terminate-IsReplayed s kept
  run-IsReplayed (tick poll ∷ es) true s kept = run-IsReplayed es true s kept
  run-IsReplayed (tick poll ∷ es) false s kept =
      run-IsReplayed es false _
        (sync_checks-Kept api c cluster_arn m h poll (health_sync_containers c) s kept)
  run-IsReplayed (server_changed (err _) ∷ es) down s kept = run-IsReplayed es down s kept
  run-IsReplayed (server_changed (ok address) ∷ es) down s kept =
      run-IsReplayed es down (record s { calls = s.calls ++ connect address ∷ [] })
        (then-Kept api c cluster_arn m h s (record s { calls = s.calls ++ connect address ∷ [] })
          (connect address) refl refl kept.1 kept)
  run-IsReplayed (sigterm ∷ es) down s kept = run-IsReplayed es true _ (
      mark_all-keeps api c cluster_arn (Kept api c cluster_arn m h) append (task_id meta)
        (construct_service_name c meta.family) (health_sync_containers c) none s
        (λ j t. update-Kept api c cluster_arn m h j status_unhealthy t) kept)

only_check-IsKeyed :
    (checks : List HealthCheck) (m m' : Dict HealthCheck)
    → IsKeyed m
    → only_check checks m ≡ ok m'
    → IsKeyed m'
only_check-IsKeyed [] m m' keyed e = absurd (ground (arith, e))
only_check-IsKeyed (x ∷ y ∷ checks) m m' keyed e = absurd (ground (arith, e))
only_check-IsKeyed (check ∷ []) m m' keyed e =
    let same : insert check.check_id check m ≡ m' = ground (arith, e) in
    subst IsKeyed same (insert-Entries (λ id k. k.check_id ≡ id) check.check_id check m refl keyed)

fetch_health_checks-IsKeyed :
    (api : Client) (c : Config) (meta : TaskMeta) (h : History) (m : Dict HealthCheck)
    → (fetch_health_checks api c meta h).0 ≡ ok m
    → IsKeyed m
unfolding fetch_health_checks fetch_proxy_check get_service_health_checks
fetch_health_checks-IsKeyed api c meta h m e =
    let name = construct_service_name c meta.family in
    let id = make_service_id name (task_id meta) in
    let o : QueryOptions = record (query_options c) { filter = filter_of id } in
    elim (Result-cases (api.checks h name o)) [
      | inl (x, failed) ↦ absurd (ground (arith, e, failed))
      | inr (checks, fetched) ↦
          let keyed = index_checks-IsKeyed checks [] tt in
          elim (Bool-cases (is_gateway c)) [
            | inl gateway ↦
                let same : index_checks checks [] ≡ m = ground (arith, e, fetched, gateway) in
                subst IsKeyed same keyed
            | inr typical ↦
                let (proxy_id, proxy_name) = make_proxy_svc_id_and_name id name in
                let o' : QueryOptions = record (query_options c) { filter = filter_of proxy_id } in
                elim (Result-cases (api.checks (h ++ health_checks name o ∷ []) proxy_name o')) [
                  | inl (x, failed) ↦ absurd (ground (arith, e, fetched, typical, failed))
                  | inr (one, answered) ↦
                      only_check-IsKeyed one (index_checks checks []) m keyed
                        (ground (arith, e, fetched, typical, answered))
                ]
          ]
    ]

-- From the checks that health-sync has fetched on, whatever events come in whatever order and whatever
-- Consul answers, up to and including the shutdown: the checks that it keeps are those that it fetched
-- with the updates of the calls that it has made since, in the order of the calls.
pub run-replay :
    (api : Client) (append : Append) (c : Config) (cluster_arn : String) (meta : TaskMeta)
    (h h' : History) (m : Dict HealthCheck) (es : List Event)
    → (fetch_health_checks api c meta h).0 ≡ ok m
    → IsReplayed m h' (
        state_of (
          run api append c cluster_arn meta
            (record {
              shutting_down = false;
              state = record { checks = m; statuses = []; calls = h' };
            })
            es))
run-replay api append c cluster_arn meta h h' m es fetched =
    run-IsReplayed api append c cluster_arn meta m h' es false _
      (([], sym (append-nil h'), refl), fetch_health_checks-IsKeyed api c meta h m fetched)
