-- ===== src/HealthSync/Shutdown.antt =====
-- How the loop of subcommand/health-sync/command.go shuts down.
use consul_ecs.Base.{
  ◌≡◌, ◌↔◌, refl, ap, ◌∙◌, true, false, Bool, String, List, [], ◌∷◌, ◌++◌, Option, none, ok, err,
  Error, Append, collect, arith, All, contains, if◌then◌else◌,
}
use mathlib.Core.List.{append_assoc, append-nil}
use consul_ecs.Task.{TaskMeta, task_id}
use consul_ecs.Client.{NoneFails, Client, Call, History, connect, logout}
use consul_ecs.Config.Types.{Config}
use consul_ecs.Config.Settings.{is_gateway}
use consul_ecs.HealthSync.Naming.{construct_service_name, make_service_id, construct_check_id}
use consul_ecs.HealthSync.Checks.{State, set_checks_critical, sync_checks}
use consul_ecs.HealthSync.Critical.{status_at, with_status}
use consul_ecs.HealthSync.Told.{check_id_at, IsTold, set_checks_critical-tells}
use consul_ecs.HealthSync.Loop.{
  Event, tick, server_changed, sigterm, dataplane_done, Running, Outcome, running, returned,
  health_sync_containers, call_api, service_deregistration, proxy_deregistration,
  gateway_deregistration, deregister_service_and_proxy, deregister_gateway_proxy, terminate, step,
  run,
}

-- Events other than signals and the end of the dataplane.
abbrev pub IsQuiet : Event → Type 0
IsQuiet (tick _) = Unit
IsQuiet (server_changed _) = Unit
IsQuiet sigterm = ⊥
IsQuiet dataplane_done = ⊥

-- The servers that the loop switches to.
abbrev pub connects : List Event → List Call
connects [] = []
connects (server_changed (ok address) ∷ es) = connect address ∷ connects es
connects (_ ∷ es) = connects es

abbrev pub is_returned : Outcome → Bool
is_returned (running _) = false
is_returned (returned _ _) = true

abbrev pub has_dataplane_done : List Event → Bool
has_dataplane_done [] = false
has_dataplane_done (dataplane_done ∷ _) = true
has_dataplane_done (_ ∷ es) = has_dataplane_done es

abbrev pub state_of : Outcome → State
state_of (running r) = r.state
state_of (returned _ s) = s

-- The shape of `terminate`, over any two choices and any three deregistrations.
abbrev parting : Client → Append → Bool → Bool → Call → Call → Call → State → Option Error × State
parting api append gateway login g service proxy s =
    let (e1, s1) =
      if gateway
      then call_api api g s
      else let (x1, t1) = call_api api service s in
        let (x2, t2) = call_api api proxy t1 in (collect append (collect append none x1) x2, t2) in
    let result = collect append none e1 in
    let (e2, s2) = call_api api logout s1 in
    if login then (collect append result e2, s2) else (result, s1)

abbrev parting_calls : Bool → Bool → Call → Call → Call → List Call
parting_calls gateway login g service proxy =
    (if gateway then g ∷ [] else service ∷ proxy ∷ []) ++ (if login then logout ∷ [] else [])

parting_lem :
    (api : Client) (append : Append) (gateway login : Bool) (g service proxy : Call) (s : State)
    → let calls = parting_calls gateway login g service proxy in
      let (e, s') = parting api append gateway login g service proxy s in
      (s' ≡ record s { calls = s.calls ++ calls }) × ((e ≡ none) ↔ NoneFails api s.calls calls)
parting_lem api append true true g service proxy s = simp append_assoc (ground arith)
parting_lem api append true false g service proxy s = ground arith
parting_lem api append false true g service proxy s = simp append_assoc (ground arith)
parting_lem api append false false g service proxy s = simp append_assoc (ground arith)

module _ (api : Client) (append : Append) (c : Config) (cluster_arn : String)
    (meta : TaskMeta) where
  -- Once the loop is shutting down, polls and server changes leave the checks, the statuses and the
  -- flag alone, and make no call to Consul beyond those of switching to a server.
  pub run_quiet :
      (s : State) (es : List Event)
      → All IsQuiet es
      → run api append c cluster_arn meta (record { shutting_down = true; state = s }) es
        ≡ running
            (record { shutting_down = true; state = record s { calls = s.calls ++ connects es } })
  unfolding run step
  run_quiet s [] h = rw append-nil
  run_quiet s (tick poll ∷ es) h = run_quiet s es h.1
  run_quiet s (server_changed (err _) ∷ es) h = run_quiet s es h.1
  run_quiet s (server_changed (ok address) ∷ es) h =
      run_quiet (record s { calls = s.calls ++ connect address ∷ [] }) es h.1
      ∙ ap
          (λ (h : History).
            running (record { shutting_down = true; state = record s { calls = h } }))
          (append_assoc s.calls _ _)
  run_quiet s (sigterm ∷ es) h = absurd h.0
  run_quiet s (dataplane_done ∷ es) h = absurd h.0

  -- From SIGTERM on, for as long as only polls and server changes follow, the check of every synced
  -- container is critical if it is stored, whatever Consul answered. Consul is told so: the calls made
  -- are first updates that tell it that a check is critical, the container's check among them if it
  -- is stored, and then only those of switching to a server.
  pub sigterm-stays_critical :
      (r : Running) (es : List Event) (name : String)
      → All IsQuiet es
      → contains (health_sync_containers c) name ≡ true
      → let id =
          construct_check_id
            (make_service_id (construct_service_name c meta.family) (task_id meta))
            name in
        let s = state_of (run api append c cluster_arn meta r (sigterm ∷ es)) in
        (status_at id s ≡ with_status "critical" (status_at id r.state))
        × (h : History) × IsTold cluster_arn (check_id_at id r.state) r.state.calls h
        × (s.calls ≡ h ++ connects es)
  unfolding run step
  sigterm-stays_critical r es name quiet m =
      let s' =
        (set_checks_critical api c cluster_arn append meta (health_sync_containers c) r.state).1 in
      let (critical, told) =
        set_checks_critical-tells api c cluster_arn append meta (health_sync_containers c) name
          r.state m in
      rw (run_quiet s' es quiet) (critical, s'.calls, told, refl)

  -- The loop returns exactly when the end of the dataplane is among the events.
  pub run_returns :
      (es : List Event) (r : Running)
      → is_returned (run api append c cluster_arn meta r es) ≡ has_dataplane_done es
  unfolding run step
  run_returns [] r = refl
  run_returns (dataplane_done ∷ es) r = refl
  run_returns (tick poll ∷ es) r = ground (
    arith,
    run_returns es r,
    run_returns es (record r {
      state = sync_checks api c cluster_arn poll (health_sync_containers c) r.state;
    }),
  )
  run_returns (server_changed (err _) ∷ es) r = run_returns es r
  run_returns (server_changed (ok address) ∷ es) r =
      run_returns es
        (record r { state = record (r.state) { calls = r.state.calls ++ connect address ∷ [] } })
  run_returns (sigterm ∷ es) r = run_returns es (record {
    shutting_down = true;
    state =
        (set_checks_critical api c cluster_arn append meta (health_sync_containers c) r.state).1;
  })

  -- The calls that end the life of the task in Consul.
  abbrev pub farewell : List Call
  farewell =
      (if is_gateway c
        then gateway_deregistration api append c cluster_arn meta ∷ []
        else service_deregistration api append c cluster_arn meta
          ∷ proxy_deregistration api append c cluster_arn meta
          ∷ [])
      ++ (if c.consul_login.enabled then logout ∷ [] else [])

  -- At the end the gateway, or the service and its proxy, are deregistered, and then the login is
  -- undone if there was one; every call is made whatever the others answered, the checks stay, and
  -- the command reports no error exactly when none of the calls failed.
  pub terminate-farewell :
      (s : State)
      → ((terminate api append c cluster_arn meta s).1 ≡ record s { calls = s.calls ++ farewell })
        × (((terminate api append c cluster_arn meta s).0 ≡ none) ↔ NoneFails api s.calls farewell)
  unfolding terminate deregister_service_and_proxy deregister_gateway_proxy
  terminate-farewell s = parting_lem api append (is_gateway c) c.consul_login.enabled _ _ _ s
