-- ===== src/HealthSync/Kept.antt =====
-- The checks that subcommand/health-sync keeps, with the updates of the calls that it makes.
use mathlib.Core.List.{append_assoc}
use consul_ecs.Base.{
  ◌≡◌, ◌==◌, ◌∙◌, refl, sym, ap, String, List, [], ◌∷◌, ◌++◌, Option, none, some, Result, ok, err,
  Error, inl, inr, Option-cases, Bool-cases,
}
use consul_ecs.Base.Dict.{Dict, lookup, insert, Entries, insert-Entries, lookup-Entries}
use consul_ecs.Task.{TaskMeta, TaskContainer, task_id}
use consul_ecs.Consul.{HealthCheck}
use consul_ecs.Client.{Client, Call, register, History}
use consul_ecs.Config.Types.{Config, consul_dataplane_container_name}
use consul_ecs.HealthSync.Naming.{construct_service_name, make_service_id, construct_check_id}
use consul_ecs.HealthSync.Containers.{
  status_unhealthy, find_containers_to_sync, overall_dataplane_health_status,
}
use consul_ecs.HealthSync.Checks.{
  State, update_consul_health_status, update_check_req, with_health, status_of, record_status,
  sync_missing, sync_container, sync_found, sync_checks,
}
use consul_ecs.HealthSync.Critical.{handle-keeps, mark-keeps}

-- Checks put under their own IDs, the later ones over the earlier.
abbrev pub store : List HealthCheck → Dict HealthCheck → Dict HealthCheck
store [] m = m
store (check ∷ checks) m = store checks (insert check.check_id check m)

-- The checks after an update that a call sends.
abbrev pub updated : Call → Dict HealthCheck → Dict HealthCheck
updated (register r o) m = store r.checks m
updated _ m = m

abbrev pub replay : List Call → Dict HealthCheck → Dict HealthCheck
replay [] m = m
replay (call ∷ calls) m = replay calls (updated call m)

pub replay-append :
    (xs ys : List Call) (m : Dict HealthCheck) → replay (xs ++ ys) m ≡ replay ys (replay xs m)
replay-append [] ys m = refl
replay-append (x ∷ xs) ys m = replay-append xs ys (updated x m)

-- Each check stands under its own ID.
abbrev pub IsKeyed : Dict HealthCheck → Type 0
IsKeyed = Entries (λ id check. check.check_id ≡ id)

-- The state is that of the checks at first, with the updates of the calls since.
abbrev pub IsReplayed : Dict HealthCheck → History → State → Type 0
IsReplayed m h s = (calls : List Call) × (s.calls ≡ h ++ calls) × (s.checks ≡ replay calls m)

module _ (api : Client) (c : Config) (cluster_arn : String) (m : Dict HealthCheck)
    (h : History) where
  abbrev pub Kept : State → Type 0
  Kept s = IsReplayed m h s × IsKeyed s.checks

  -- One more call, with what it does to the checks.
  pub then-Kept :
      (s s' : State) (call : Call)
      → s'.calls ≡ s.calls ++ call ∷ []
      → s'.checks ≡ updated call s.checks
      → IsKeyed s'.checks
      → Kept s
      → Kept s'
  then-Kept s s' call longer now keyed ((calls, since, are), _) = (
    (
      calls ++ call ∷ [],
      longer ∙ ap (λ (l : History). l ++ call ∷ []) since ∙ append_assoc h calls (call ∷ []),
      now ∙ ap (updated call) are ∙ sym (replay-append calls (call ∷ []) m),
    ),
    keyed,
  )

  pub update-Kept :
      (id status : String) (s : State)
      → Kept s
      → Kept (update_consul_health_status api c cluster_arn id status s).1
  unfolding update_consul_health_status
  update-Kept id status s kept = elim (Option-cases (lookup id s.checks)) [
    | inl e ↦ rw (e, update_consul_health_status) kept
    | inr (check, e) ↦
        let check' = with_health id status check in
        let own : check.check_id ≡ id =
          lookup-Entries (λ j k. k.check_id ≡ j) id s.checks kept.1 e in
        let s' : State = record s {
          checks = insert id check' s.checks;
          calls = s.calls ++ update_check_req cluster_arn check' ∷ [];
        } in
        rw (e, update_consul_health_status)
          (then-Kept s s' (update_check_req cluster_arn check') refl
            (ap (λ j. insert j check' s.checks) (sym own))
            (insert-Entries (λ j k. k.check_id ≡ j) id check' s.checks own kept.1) kept)
  ]

  record_status-Kept :
      (e : Option Error) (name status : String) (s : State)
      → Kept s
      → Kept (record_status e name status s)
  record_status-Kept none name status s kept = kept
  record_status-Kept (some e) name status s kept = kept

  sync_missing-Kept :
      (task service_name : String) (names : List String) (s : State)
      → Kept s
      → Kept (sync_missing api c cluster_arn task service_name names s)
  unfolding sync_missing
  sync_missing-Kept task service_name [] s kept = kept
  sync_missing-Kept task service_name (name ∷ names) s kept =
      sync_missing-Kept task service_name names _ (
        record_status-Kept _ name _ _ (
          mark-keeps api c cluster_arn Kept task service_name name s
            (λ j t. update-Kept j status_unhealthy t) kept))

  sync_container-Kept :
      (task service_name : String) (container : TaskContainer) (s : State)
      → Kept s
      → Kept (sync_container api c cluster_arn task service_name container s)
  unfolding sync_container
  sync_container-Kept task service_name container s kept =
      let status = container.health.status in
      let id = construct_check_id (make_service_id service_name task) container.name in
      let same = status == status_of (lookup container.name s.statuses) in
      elim (Bool-cases same) [
        | inl noted ↦ rw (noted, sync_container) kept
        | inr new ↦ elim (Bool-cases (container.name == consul_dataplane_container_name)) [
          | inl e ↦ rw (new, e, sync_container) kept
          | inr e ↦
              rw (new, e, sync_container)
                (record_status-Kept _ container.name status _ (update-Kept id status s kept))
        ]
      ]

  sync_found-Kept :
      (task service_name : String) (containers : List TaskContainer) (s : State)
      → Kept s
      → Kept (sync_found api c cluster_arn task service_name containers s)
  unfolding sync_found
  sync_found-Kept task service_name [] s kept = kept
  sync_found-Kept task service_name (k ∷ containers) s kept =
      sync_found-Kept task service_name containers _
        (sync_container-Kept task service_name k s kept)

  pub sync_checks-Kept :
      (poll : Result TaskMeta) (names : List String) (s : State)
      → Kept s
      → Kept (sync_checks api c cluster_arn poll names s)
  unfolding sync_checks
  sync_checks-Kept (err e) names s kept = kept
  sync_checks-Kept (ok meta) names s kept =
      let service_name = construct_service_name c meta.family in
      let task = task_id meta in
      let (found, missing) = find_containers_to_sync names meta.containers in
      let status = overall_dataplane_health_status found in
      handle-keeps api c cluster_arn Kept task service_name consul_dataplane_container_name status _
        (λ j t. update-Kept j status t)
        (sync_found-Kept task service_name found _
          (sync_missing-Kept task service_name missing s kept))
